-- ===== src/Store/Elsewhere.antt =====
-- The writes of internal/store/store.go to other buckets leave the cluster configuration alone.
use selfcloud.Base.{
  String, ◌≡◌, refl, ap, ◌∙◌, false, none, some, Result, ok, err, str_eq, Bool-cases, inl, inr,
}
use selfcloud.Store.Types.{Kind, Event, Project, User, Token}
use selfcloud.Store.Deps.{Deps, Json, ProjectScoped, user_scoped, token_scoped}
use selfcloud.Store.Core.{Store, put}
use selfcloud.Store.Scoped.{Mint, Written, written, put_scoped}
use selfcloud.Store.Writes.{put_ok, get-put_raw, has_bucket-put_raw, get_of_same_raw}
use selfcloud.Store.RoundTrip.{db-emit, put_scoped_ok, put_scoped_error}
use selfcloud.Store.Typed.{get_cluster, put_project, put_user, put_token, token_written, or_default}

-- the bucket of the configuration, and the configuration in it
abbrev pub SameCluster : {d : Deps} → Store d → Store d → Type 0
SameCluster {d} s t =
    (d.bolt.has_bucket t.db "cluster" ≡ d.bolt.has_bucket s.db "cluster")
    × (d.bolt.get t.db "cluster" "config" ≡ d.bolt.get s.db "cluster" "config")

module _ {d : Deps} where
  pub SameCluster-refl : (s t : Store d) → t ≡ s → SameCluster s t
  SameCluster-refl s t e = rw e (refl, refl)

  pub SameCluster-trans : (s t u : Store d) → SameCluster s t → SameCluster t u → SameCluster s u
  SameCluster-trans s t u p q = (q.0 ∙ p.0, q.1 ∙ p.1)

  pub get_cluster_of_same :
      (s t : Store d)
      → SameCluster s t
      → d.bolt.begin_error s.db ≡ none
      → d.bolt.begin_error t.db ≡ none
      → get_cluster t ≡ get_cluster s
  unfolding get_cluster
  get_cluster_of_same s t same bs bt =
      ap or_default (get_of_same_raw t s d.cluster_json "cluster" "config" bt bs same.0 same.1)

  put-SameCluster :
      {A : Type 0} (s t : Store d) (json : Json d A) (bucket key : String) (v : A)
      → put s json bucket key v ≡ ok t
      → str_eq bucket "cluster" ≡ false
      → SameCluster s t
  put-SameCluster s t json bucket key v p other =
      let (raw, m, w) = put_ok s t json bucket key v p in
      (
        has_bucket-put_raw s t bucket key raw w "cluster",
        rw (get-put_raw s t bucket key raw w "cluster" "config", other) refl,
      )

  -- whatever the outcome of a `putScoped` in another bucket
  pub put_scoped-SameCluster :
      {A : Type 0} (sc : ProjectScoped A) (json : Json d A) (s : Store d) (bucket : String)
      (kind : Kind) (mt : Mint) (v : A) (w : Written d A)
      → put_scoped s sc json bucket kind mt v ≡ w
      → str_eq bucket "cluster" ≡ false
      → SameCluster s w.0
  put_scoped-SameCluster sc json s bucket kind mt v (t, v', none) h other =
      let (u, p, e, same) = put_scoped_ok sc json s t bucket kind mt v v' h in
      let moved : t.db ≡ u.db = db-emit t u _ e in
      rw moved (put-SameCluster s u json bucket _ _ p other)
  put_scoped-SameCluster sc json s bucket kind mt v (t, v', some x) h other =
      SameCluster-refl s t (put_scoped_error sc json s t bucket kind mt v v' x h)

  written-SameCluster :
      {A : Type 0} (s : Store d) (v : A) (ev : Event) (json : Json d A) (bucket key : String)
      (a : A) (r : Result (Store d))
      → put s json bucket key a ≡ r
      → str_eq bucket "cluster" ≡ false
      → SameCluster s (written s v ev r).0
  unfolding written
  written-SameCluster s v ev json bucket key a (ok t) p other =
      let moved = db-emit (written s v ev (ok t)).0 t ev refl in
      rw moved (put-SameCluster s t json bucket key a p other)
  written-SameCluster s v ev json bucket key a (err e) p other = (refl, refl)

  pub put_project-SameCluster :
      (s : Store d) (mt : Mint) (p : Project) → SameCluster s (put_project s mt p).0
  unfolding put_project
  put_project-SameCluster s mt p = elim (Bool-cases (str_eq p.meta.name "")) [
    | inl e ↦ rw e (refl, refl)
    | inr e ↦ rw e (written-SameCluster s _ _ d.project_json "projects" _ _ _ refl refl)
  ]

  pub put_user-SameCluster :
      (s : Store d) (mt : Mint) (u : User) → SameCluster s (put_user s mt u).0
  unfolding put_user
  put_user-SameCluster s mt u =
      put_scoped-SameCluster user_scoped d.user_json s "users" _ mt _ _ refl refl

  token_written-0 : (t : Token) (w : Written d Token) → (token_written t w).0 ≡ w.0
  unfolding token_written
  token_written-0 t (s, v, none) = refl
  token_written-0 t (s, v, some e) = refl

  pub put_token-SameCluster :
      (s : Store d) (mt : Mint) (t : Token) → SameCluster s (put_token s mt t).0
  unfolding put_token
  put_token-SameCluster s mt t =
      rw token_written-0
        (put_scoped-SameCluster token_scoped d.token_json s "tokens" _ mt _ _ refl refl)
