-- ===== src/Store/Ordered.antt =====
-- Maps with text keys as their entries in the order of the keys: `m[k] = v`.
use selfcloud.Base.{
  String, ◌≡◌, refl, true, some, List, [], ◌∷◌, All, lookup, arith, str_eq, str_eq_iff, Bool-cases,
  inl, inr, if◌then◌else◌,
}
use selfcloud.Base.Text.{key_ltb, key_ltb_trans, key_ltb_total, key_ltb_irrefl}
use selfcloud.Store.Bolt.{Ascending}

module _ {V : Type 0} where
  unfoldable pub insert_sorted : String → V → List (String × V) → List (String × V)
  insert_sorted k v [] = (k, v) ∷ []
  insert_sorted k v ((j, w) ∷ m) =
      let later = insert_sorted k v m in
      if key_ltb k j
      then (k, v) ∷ (j, w) ∷ m
      else if key_ltb j k
      then (j, w) ∷ later
      else (k, v) ∷ m

  pub lookup-insert_sorted :
      (k j : String) (v : V) (m : List (String × V))
      → lookup j (insert_sorted k v m) ≡ (if str_eq k j then some v else lookup j m)
  unfolding insert_sorted
  lookup-insert_sorted k j v [] = refl
  lookup-insert_sorted k j v ((i, w) ∷ m) = ground (
    arith,
    lookup-insert_sorted k j v m,
    str_eq_iff k j,
    str_eq_iff i j,
    key_ltb_total k i,
    key_ltb_irrefl k,
  )

  All-insert_sorted :
      (h k : String) (v : V) (m : List (String × V))
      → key_ltb h k ≡ true
      → All (λ e. key_ltb h e.0 ≡ true) m
      → All (λ e. key_ltb h e.0 ≡ true) (insert_sorted k v m)
  unfolding insert_sorted
  All-insert_sorted h k v [] l a = (l, tt)
  All-insert_sorted h k v ((j, w) ∷ m) l a = elim (Bool-cases (key_ltb k j)) [
    | inl x ↦ rw x (l, a)
    | inr x ↦ elim (Bool-cases (key_ltb j k)) [
      | inl y ↦ rw (x, y) (a.0, All-insert_sorted h k v m l a.1)
      | inr y ↦ rw (x, y) (l, a.1)
    ]
  ]

  All-trans :
      (h k : String) (m : List (String × V))
      → key_ltb h k ≡ true
      → All (λ e. key_ltb k e.0 ≡ true) m
      → All (λ e. key_ltb h e.0 ≡ true) m
  All-trans h k [] l a = tt
  All-trans h k ((j, w) ∷ m) l a = (key_ltb_trans h k j l a.0, All-trans h k m l a.1)

  -- the entries stay in the order of the keys
  pub insert_sorted-Ascending :
      (k : String) (v : V) (m : List (String × V)) → Ascending m → Ascending (insert_sorted k v m)
  unfolding insert_sorted
  insert_sorted-Ascending k v [] s = (tt, tt)
  insert_sorted-Ascending k v ((j, w) ∷ m) s = elim (Bool-cases (key_ltb k j)) [
    | inl x ↦ rw x ((x, All-trans k j m x s.0), s)
    | inr x ↦ elim (Bool-cases (key_ltb j k)) [
      | inl y ↦ rw (x, y) (All-insert_sorted j k v m y s.0, insert_sorted-Ascending k v m s.1)
      | inr y ↦ rw (x, y, key_ltb_total k j x y) s
    ]
  ]
