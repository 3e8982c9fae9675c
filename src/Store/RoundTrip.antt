-- ===== src/Store/RoundTrip.antt =====
-- `putScoped` of internal/store/store.go against `get`: what is written is what is read.
use selfcloud.Base.{
  String, ◌≡◌, refl, ap, ◌∙◌, false, ◌&&◌, none, some, arith, Error, message, Result, ok, err,
  str_eq, Bool-cases, inl, inr, if◌then◌else◌,
}
use selfcloud.Store.Types.{Kind, Meta, Event, op_put}
use selfcloud.Store.Deps.{Deps, Json, ProjectScoped}
use selfcloud.Store.Core.{Store, emit, key_for, put, get}
use selfcloud.Store.Scoped.{Mint, default_project, mint_meta, written, put_scoped}
use selfcloud.Store.Writes.{put_ok, get-put, get-put_raw, get_of_same_db}

abbrev pub unnamed : Error
unnamed = message "name is required"

-- the metadata that a write gives a value, and the value with it
abbrev pub minted_meta : {A : Type 0} → ProjectScoped A → Mint → A → Meta
minted_meta sc mt v = mint_meta mt (default_project "default" (sc.get_meta v))

abbrev pub minted : {A : Type 0} → ProjectScoped A → Mint → A → A
minted sc mt v = sc.with_meta v (minted_meta sc mt v)

abbrev pub minted_key : {A : Type 0} → ProjectScoped A → Mint → A → String
minted_key sc mt v = key_for (minted_meta sc mt v).project (minted_meta sc mt v).name

abbrev pub put_event : {A : Type 0} → ProjectScoped A → Kind → Mint → A → Event
put_event sc kind mt v = record {
  kind = kind;
  op = op_put;
  project = (minted_meta sc mt v).project;
  name = (minted_meta sc mt v).name;
  value = some (sc.wrap (minted sc mt v));
}

pub db-emit : {d : Deps} (s t : Store d) (ev : Event) → s ≡ emit ev t → s.db ≡ t.db
unfolding emit
db-emit {d} s t ev e = ap (λ (x : Store d). x.db) e

module _ {d : Deps} {A : Type 0} where
  -- the parts of a write that succeeds
  pub written_ok :
      (s s' : Store d) (v v' : A) (ev : Event) (r : Result (Store d))
      → written s v ev r ≡ (s', v', none)
      → (t : Store d) × (r ≡ ok t) × (s' ≡ emit ev t) × (v' ≡ v)
  unfolding written
  written_ok s s' v v' ev (ok t) h = (t, refl, ground arith, ground arith)
  written_ok s s' v v' ev (err e) h = ground arith

module _ {d : Deps} {A : Type 0} (sc : ProjectScoped A) (json : Json d A) where
  pub put_scoped_lem :
      (s : Store d) (bucket : String) (kind : Kind) (mt : Mint) (v : A)
      → put_scoped s sc json bucket kind mt v ≡ (
          if str_eq (default_project "default" (sc.get_meta v)).name ""
          then (s, sc.with_meta v (default_project "default" (sc.get_meta v)), some unnamed)
          else written s
              (minted sc mt v)
              (put_event sc kind mt v)
              (put s json bucket (minted_key sc mt v) (minted sc mt v)))
  unfolding put_scoped
  put_scoped_lem s bucket kind mt v = refl

  written-value :
      (s : Store d) (v : A) (ev : Event) (r : Result (Store d)) → (written s v ev r).1 ≡ v
  unfolding written
  written-value s v ev (ok t) = refl
  written-value s v ev (err e) = refl

  -- whatever its outcome, a write changes nothing but the metadata of what the caller holds
  pub put_scoped-value :
      (s : Store d) (bucket : String) (kind : Kind) (mt : Mint) (v : A)
      → (m : Meta) × ((put_scoped s sc json bucket kind mt v).1 ≡ sc.with_meta v m)
  unfolding put_scoped
  put_scoped-value s bucket kind mt v =
      elim (Bool-cases (str_eq (default_project "default" (sc.get_meta v)).name "")) [
        | inl unnamed ↦ (default_project "default" (sc.get_meta v), rw unnamed refl)
        | inr named ↦ (minted_meta sc mt v, rw named (written-value s _ _ _))
      ]

  -- a write that succeeds has put the value with its new metadata, and emitted its event
  pub put_scoped_ok :
      (s s' : Store d) (bucket : String) (kind : Kind) (mt : Mint) (v v' : A)
      → put_scoped s sc json bucket kind mt v ≡ (s', v', none)
      → (t : Store d) × (put s json bucket (minted_key sc mt v) (minted sc mt v) ≡ ok t)
        × (s' ≡ emit (put_event sc kind mt v) t)
        × (v' ≡ minted sc mt v)
  unfolding put_scoped
  put_scoped_ok s s' bucket kind mt v v' h =
      elim (Bool-cases (str_eq (default_project "default" (sc.get_meta v)).name "")) [
        | inl unnamed ↦ absurd (ground arith)
        | inr named ↦ written_ok s s' _ v' _ _ (rw named at h)
      ]

  -- When `putScoped` succeeds and the database can be read, the value that the caller now holds is
  -- the argument with its metadata minted, and `get` at its project and name returns it.
  pub get-put_scoped :
      (s s' : Store d) (bucket : String) (kind : Kind) (mt : Mint) (v v' : A)
      → put_scoped s sc json bucket kind mt v ≡ (s', v', none)
      → d.bolt.begin_error s'.db ≡ none
      → (v' ≡ minted sc mt v)
        × (get s' json bucket (key_for (sc.get_meta v').project (sc.get_meta v').name) ≡ ok v')
  get-put_scoped s s' bucket kind mt v v' h opens =
      let (t, p, e, same) = put_scoped_ok s s' bucket kind mt v v' h in
      let moved : s'.db ≡ t.db = db-emit s' t _ e in
      (
        same,
        rw (same, sc.get_meta-with_meta)
            (get_of_same_db s' t json _ _ moved
              ∙ get-put s t json bucket _ _ p (rw (← moved) opens)),
      )

  -- A `putScoped` that succeeds leaves every other key of every bucket as it was.
  pub put_scoped-frame :
      (s s' : Store d) (bucket : String) (kind : Kind) (mt : Mint) (v v' : A)
      → put_scoped s sc json bucket kind mt v ≡ (s', v', none)
      → (c j : String) → str_eq bucket c && str_eq (minted_key sc mt v) j ≡ false
      → d.bolt.get s'.db c j ≡ d.bolt.get s.db c j
  put_scoped-frame s s' bucket kind mt v v' h c j other =
      let (t, p, e, same) = put_scoped_ok s s' bucket kind mt v v' h in
      let (raw, m, w) = put_ok s t json bucket _ _ p in
      rw (db-emit s' t _ e, get-put_raw s t bucket _ raw w c j, other) refl

  -- A `putScoped` that fails leaves the database and the channels as they were.
  pub put_scoped_error :
      (s s' : Store d) (bucket : String) (kind : Kind) (mt : Mint) (v v' : A) (e : Error)
      → put_scoped s sc json bucket kind mt v ≡ (s', v', some e)
      → s' ≡ s
  unfolding put_scoped
  put_scoped_error s s' bucket kind mt v v' e h = ground arith
