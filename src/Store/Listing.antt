-- ===== src/Store/Listing.antt =====
-- `list` of internal/store/store.go: the cursor scan against the set of keys with the prefix.
use selfcloud.Base.{
  String, ◌≡◌, refl, sym, ap, true, false, none, List, [], ◌∷◌, map, All, keep, arith, ok, str_eq,
  str_eq_iff, Bool-cases, inl, inr,
}
use selfcloud.Base.Text.{key_ltb, key_ltb_trans}
use selfcloud.Store.Bolt.{Ascending, skip_below}
use selfcloud.Store.Deps.{Deps}
use selfcloud.Store.Core.{Store, has_prefix, scan_while, list}
use selfcloud.Store.Keys.{has_prefix_of_below, has_prefix_of_past}

-- the values whose keys have the prefix, in the order of the keys
abbrev pub under {ℓ} : {V : Type ℓ} → String → List (String × V) → List V
under prefix m = map (λ e. e.1) (keep (λ e. has_prefix e.0 prefix) m)

module _ {ℓ} {V : Type ℓ} (p : String) where
  abbrev NotBelow : List (String × V) → Type 0
  NotBelow = All (λ e. key_ltb e.0 p ≡ false)

  NotBelow-of_above :
      (k : String) (m : List (String × V))
      → key_ltb k p ≡ false
      → All (λ e. key_ltb k e.0 ≡ true) m
      → NotBelow m
  NotBelow-of_above k [] h a = tt
  NotBelow-of_above k ((j, v) ∷ m) h a =
      (ground (arith, key_ltb_trans k j p), NotBelow-of_above k m h a.1)

  keep_past :
      (k : String) (m : List (String × V))
      → key_ltb k p ≡ false
      → has_prefix k p ≡ false
      → All (λ e. key_ltb k e.0 ≡ true) m
      → keep (λ e. has_prefix e.0 p) m ≡ []
  keep_past k [] b h a = refl
  keep_past k ((j, v) ∷ m) b h a = rw (has_prefix_of_past k j p b h a.0) (keep_past k m b h a.1)

  scan_while-eq-under :
      (m : List (String × V)) → Ascending m → NotBelow m → scan_while p m ≡ under p m
  unfolding scan_while
  scan_while-eq-under [] s n = refl
  scan_while-eq-under ((k, v) ∷ m) s n = elim (Bool-cases (has_prefix k p)) [
    | inl h ↦ rw (h, scan_while-eq-under m s.1 n.1) refl
    | inr h ↦ rw (h, keep_past k m n.0 h s.0) refl
  ]

  pub scan_while-skip_below :
      (m : List (String × V)) → Ascending m → scan_while p (skip_below p m) ≡ under p m
  scan_while-skip_below [] s = unfold scan_while in refl
  scan_while-skip_below ((k, v) ∷ m) s = elim (Bool-cases (key_ltb k p)) [
    | inl h ↦ rw (h, has_prefix_of_below k p h) (scan_while-skip_below m s.1)
    | inr h ↦ rw h (scan_while-eq-under ((k, v) ∷ m) s (h, NotBelow-of_above k m h s.0))
  ]

has_prefix-empty : (k : String) → has_prefix k "" ≡ true
unfolding has_prefix
has_prefix-empty k = refl

keep_all {ℓ} : {V : Type ℓ} (m : List (String × V)) → keep (λ e. has_prefix e.0 "") m ≡ m
unfolding has_prefix
keep_all [] = refl
keep_all (x ∷ m) = ap (◌∷◌ x) (keep_all m)

-- On a database that opens and has the bucket, `list` returns the values of exactly the keys that
-- have the prefix, in the order of the keys; an empty prefix lists the bucket.
pub list-eq-under :
    {d : Deps} (s : Store d) (bucket prefix : String)
    → d.bolt.begin_error s.db ≡ none
    → d.bolt.has_bucket s.db bucket ≡ true
    → list s bucket prefix ≡ ok (under prefix (d.bolt.entries s.db bucket))
unfolding list
list-eq-under {d} s bucket prefix opens has = elim (Bool-cases (str_eq prefix "")) [
  | inl e ↦
      rw (opens, has, e)
        (rw ((str_eq_iff prefix "").0 e)
          (ap (λ m. ok (map (λ x. x.1) m)) (sym (keep_all (d.bolt.entries s.db bucket)))))
  | inr n ↦
      rw (opens, has, n)
        (rw (d.bolt.seek-entries s.db bucket prefix) (
          ap ok (
            scan_while-skip_below prefix (d.bolt.entries s.db bucket)
              (d.bolt.entries-Ascending s.db bucket))))
]
