-- ===== src/Store/Tenancy.antt =====
-- The listings of internal/store/store.go by project: a bucket whose keys are those of its values.
use selfcloud.Base.{
  String, ◌<>◌, ◌≡◌, ◌≢◌, ◌↔◌, refl, sym, ap, subst₂, ◌∙◌, Bool, true, false, none, some, List, [],
  ◌∷◌, map, keep, All, lookup, arith, ok, str_eq, str_eq_refl, str_eq_iff, Bool-cases, inl, inr,
}
use selfcloud.Base.Text.{key_ltb, key_ltb_irrefl}
use selfcloud.Store.Types.{Kind, Meta}
use selfcloud.Store.Bolt.{Ascending}
use selfcloud.Store.Deps.{Deps, Json, ProjectScoped}
use selfcloud.Store.Core.{Store, key_for, has_prefix, decode_all}
use selfcloud.Store.Listing.{under, list-eq-under}
use selfcloud.Store.Isolation.{slash_free, has_prefix-key_for}
use selfcloud.Store.Scoped.{Mint, default_project, mint_meta, put_scoped}
use selfcloud.Store.Writes.{put_ok, get-put_raw}
use selfcloud.Store.RoundTrip.{minted, minted_meta, minted_key, put_scoped_ok, db-emit}
use selfcloud.Store.Typed.{list_values}

module _ (d : Deps) {A : Type 0} (sc : ProjectScoped A) (json : Json d A) where
  -- `raw` is a value, under the key of its own project and name; the project has no slash
  pub record Keyed (k : String) (raw : d.Raw) : Type 0 where
    pub value : A
    pub decodes : json.unmarshal raw ≡ ok value
    pub its_key : k ≡ key_for (sc.get_meta value).project (sc.get_meta value).name
    pub plain : slash_free (sc.get_meta value).project ≡ true
    pub given : (sc.get_meta value).project ≢ ""

  pub record IsKeyed (bucket : String) (s : Store d) : Type 0 where
    pub at : (k : String) (raw : d.Raw) → d.bolt.get s.db bucket k ≡ some raw → Keyed k raw

module _ {ℓ} {V : Type ℓ} where
  above_of_lookup :
      (h k : String) (v : V) (m : List (String × V))
      → All (λ e. key_ltb h e.0 ≡ true) m
      → lookup k m ≡ some v
      → key_ltb h k ≡ true
  above_of_lookup h k v [] a l = cc
  above_of_lookup h k v ((j, w) ∷ m) a l = ground (arith, above_of_lookup h k v m, str_eq_iff j k)

  -- what holds of every key and its value holds of every entry of the cursor
  All-of_lookup :
      (P : String → V → Type 0) (m : List (String × V))
      → Ascending m
      → ((k : String) (v : V) → lookup k m ≡ some v → P k v)
      → All (λ e. P e.0 e.1) m
  All-of_lookup P [] s h = tt
  All-of_lookup P ((j, w) ∷ m) s h = (
    h j w (rw (str_eq_refl j)),
    All-of_lookup P m s.1
        λ k v l. h k v (ground (arith, above_of_lookup j k v m, str_eq_iff j k, key_ltb_irrefl k)),
  )

Bool-eq_of_iff : (a b : Bool) → (a ≡ true) ↔ (b ≡ true) → a ≡ b
Bool-eq_of_iff true b h = sym (h.0 refl)
Bool-eq_of_iff false true h = h.1 refl
Bool-eq_of_iff false false h = refl

module _ (d : Deps) {A : Type 0} (sc : ProjectScoped A) (json : Json d A) where
  has_prefix-Keyed :
      (p k : String) (raw : d.Raw) (x : Keyed d sc json k raw)
      → slash_free p ≡ true
      → has_prefix k (p <> "/") ≡ str_eq (sc.get_meta x.value).project p
  has_prefix-Keyed p k raw x plain =
      let q = (sc.get_meta x.value).project in
      let i = has_prefix-key_for q p (sc.get_meta x.value).name x.plain plain x.given in
      rw x.its_key
        (Bool-eq_of_iff _ _ (λ h. (str_eq_iff q p).1 (i.0 h), λ h. i.1 ((str_eq_iff q p).0 h)))

  keep-decode_all :
      (p : String) (m : List (String × d.Raw))
      → slash_free p ≡ true
      → All (λ e. Keyed d sc json e.0 e.1) m
      → decode_all d json (under (p <> "/") m)
        ≡ keep (λ v. str_eq (sc.get_meta v).project p) (decode_all d json (map (λ e. e.1) m))
  unfolding decode_all
  keep-decode_all p [] plain a = refl
  keep-decode_all p ((k, raw) ∷ m) plain a =
      let ih = keep-decode_all p m plain a.1 in
      rw (has_prefix-Keyed p k raw a.0 plain, a.0.decodes)
        (elim (Bool-cases (str_eq (sc.get_meta a.0.value).project p)) [
          | inl e ↦ rw (e, a.0.decodes) (ap (◌∷◌ a.0.value) ih)
          | inr e ↦ rw e ih
        ])

project-minted : (mt : Mint) (m : Meta) → (mint_meta mt (default_project "default" m)).project ≢ ""
unfolding mint_meta default_project
project-minted mt m = ground (arith, str_eq_iff m.project "", str_eq_iff "default" "")

module _ {d : Deps} {A : Type 0} (sc : ProjectScoped A) (json : Json d A) where
  -- In a bucket that can be read and whose keys are those of its values, the listing of a project
  -- without a slash in its name returns exactly the values of that project, in the order of the
  -- keys.
  pub list_values-project :
      (s : Store d) (bucket p : String)
      → d.bolt.begin_error s.db ≡ none
      → d.bolt.has_bucket s.db bucket ≡ true
      → IsKeyed d sc json bucket s
      → slash_free p ≡ true
      → list_values s json bucket (p <> "/")
        ≡ ok (
            keep
              (λ v. str_eq (sc.get_meta v).project p)
              (decode_all d json (map (λ e. e.1) (d.bolt.entries s.db bucket))))
  unfolding list_values
  list_values-project s bucket p opens has keyed plain =
      rw (list-eq-under s bucket (p <> "/") opens has) (
        ap ok (
          keep-decode_all d sc json p (d.bolt.entries s.db bucket) plain (
            All-of_lookup (Keyed d sc json) (d.bolt.entries s.db bucket)
              (d.bolt.entries-Ascending s.db bucket)
              λ k raw l. keyed.at k raw (d.bolt.get-entries s.db bucket k ∙ l))))

  -- the key of what was written is that of its metadata, and its project is not empty
  Keyed-minted :
      (mt : Mint) (v : A) (raw : d.Raw)
      → json.marshal (minted sc mt v) ≡ ok raw
      → slash_free (minted_meta sc mt v).project ≡ true
      → Keyed d sc json (minted_key sc mt v) raw
  Keyed-minted mt v raw m plain = record {
    value = minted sc mt v;
    decodes = json.unmarshal-marshal (minted sc mt v) raw m;
    its_key = rw sc.get_meta-with_meta refl;
    plain = rw sc.get_meta-with_meta plain;
    given = rw sc.get_meta-with_meta (project-minted mt (sc.get_meta v));
  }

  -- A `putScoped` that succeeds, into a bucket whose keys are those of its values, of a value
  -- whose project has no slash, leaves a bucket whose keys are those of its values.
  pub put_scoped-IsKeyed :
      (s s' : Store d) (bucket : String) (kind : Kind) (mt : Mint) (v v' : A)
      → IsKeyed d sc json bucket s
      → put_scoped s sc json bucket kind mt v ≡ (s', v', none)
      → slash_free (minted_meta sc mt v).project ≡ true
      → IsKeyed d sc json bucket s'
  put_scoped-IsKeyed s s' bucket kind mt v v' keyed h plain =
      let (t, p, e, same) = put_scoped_ok sc json s s' bucket kind mt v v' h in
      let (raw, m, w) = put_ok s t json bucket _ _ p in
      record {
        at = λ k r stored.
            let now = get-put_raw s t bucket _ raw w bucket k in
            let here : d.bolt.get t.db bucket k ≡ some r = rw (db-emit s' t _ e) at stored in
            elim (Bool-cases (str_eq (minted_key sc mt v) k)) [
              | inl hit ↦
                  subst₂ (Keyed d sc json) ((str_eq_iff _ k).0 hit)
                    (ground (arith, now, here, hit, str_eq_refl bucket))
                    (Keyed-minted mt v raw m plain)
              | inr miss ↦ keyed.at k r (ground (arith, now, here, miss, str_eq_refl bucket))
            ];
      }
