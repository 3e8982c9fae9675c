-- ===== src/Base/Recent.antt =====
-- The buffers that keep the last elements: `buf = append(buf, x)`, and `buf[len(buf)-size:]` where
-- that is longer than `size`. The loops of internal/api/runtime.go and of the builder's log.
use Prim.Native.Nat.{ℕ, zero, suc, ◌+◌, ◌-◌, ◌≤◌, ◌<◌}
use mathlib.Core.Path.{◌≡◌, refl, sym, ap, ◌∙◌}
use mathlib.Core.List.{List, [], ◌∷◌, ◌++◌, append_assoc, append-nil}
use mathlib.Core.Logic.{inl, inr}
use native.Mathlib.Omega.{arith}
use selfcloud.Base.Tests.{ltb, ltb→lt, Bool-cases, if◌then◌else◌}
use selfcloud.Base.Lists.{length, drop, length-append}

module _ {ℓ} {A : Type ℓ} where
  -- the last `size` elements
  unfoldable pub last_of : ℕ → List A → List A
  last_of size xs = if ltb size (length xs) then drop (length xs - size) xs else xs

  -- one element more
  unfoldable pub push : ℕ → List A → A → List A
  unfolding last_of
  push size buf x = last_of size (buf ++ x ∷ [])

  -- the elements one after the other
  unfoldable pub push_all : ℕ → List A → List A → List A
  unfolding push
  push_all size buf [] = buf
  push_all size buf (x ∷ xs) = push_all size (push size buf x) xs

  length-drop : (k : ℕ) (xs : List A) → length (drop k xs) ≡ length xs - k
  length-drop zero xs = omega arith
  length-drop (suc k) [] = omega arith
  length-drop (suc k) (x ∷ xs) = omega (arith, length-drop k xs)

  drop-append : (k : ℕ) (xs ys : List A) → k ≤ length xs → drop k (xs ++ ys) ≡ drop k xs ++ ys
  drop-append zero xs ys h = refl
  drop-append (suc k) [] ys h = absurd (omega arith)
  drop-append (suc k) (x ∷ xs) ys h = drop-append k xs ys (omega arith)

  drop-drop : (k : ℕ) (xs : List A) → drop 1 (drop k xs) ≡ drop (suc k) xs
  drop-drop zero xs = refl
  drop-drop (suc k) [] = refl
  drop-drop (suc k) (x ∷ xs) = drop-drop k xs

  pub length-last_of : (size : ℕ) (xs : List A) → length (last_of size xs) ≤ size
  unfolding last_of
  length-last_of size xs = ground (arith, length-drop (length xs - size) xs)

  last_of-drop : (size : ℕ) (xs : List A) → last_of size xs ≡ drop (length xs - size) xs
  unfolding last_of
  last_of-drop size xs = elim (Bool-cases (ltb size (length xs))) [
    | inl long ↦ rw long refl
    | inr short ↦
        let none_left : length xs - size ≡ zero = ground arith in rw (short, none_left) refl
  ]

  length-snoc : (xs : List A) (x : A) → length (xs ++ x ∷ []) ≡ length xs + 1
  length-snoc xs x = length-append xs (x ∷ [])

  push-long :
      (size : ℕ) (xs : List A) (x : A)
      → size < length xs
      → last_of size (drop (length xs - size) xs ++ x ∷ []) ≡ last_of size (xs ++ x ∷ [])
  push-long size xs x h =
      let cut : length (drop (length xs - size) xs ++ x ∷ []) - size ≡ suc zero =
        omega
          (arith, length-snoc (drop (length xs - size) xs) x, length-drop (length xs - size) xs) in
      let more : length (xs ++ x ∷ []) - size ≡ suc (length xs - size) =
        omega (arith, length-snoc xs x) in
      rw
        (
          last_of-drop size (drop (length xs - size) xs ++ x ∷ []),
          last_of-drop size (xs ++ x ∷ []),
          cut,
          more,
          ← drop-append (length xs - size) xs (x ∷ []) (omega arith),
        )
        (drop-drop (length xs - size) (xs ++ x ∷ []))

  pub push-last_of :
      (size : ℕ) (xs : List A) (x : A) → push size (last_of size xs) x ≡ last_of size (xs ++ x ∷ [])
  unfolding push
  push-last_of size xs x = elim (Bool-cases (ltb size (length xs))) [
    | inl long ↦ rw (last_of-drop size xs) (push-long size xs x (ltb→lt _ _ long))
    | inr short ↦
        let whole : last_of size xs ≡ xs = unfold last_of in rw short refl in rw whole refl
  ]

  -- Pushing one after the other keeps the last elements of the whole.
  pub push_all-last_of :
      (size : ℕ) (done xs : List A)
      → push_all size (last_of size done) xs ≡ last_of size (done ++ xs)
  unfolding push_all
  push_all-last_of size done [] = ap (last_of size) (sym (append-nil done))
  push_all-last_of size done (x ∷ xs) =
      ap (λ b. push_all size b xs) (push-last_of size done x)
      ∙ push_all-last_of size (done ++ x ∷ []) xs
      ∙ ap (last_of size) (append_assoc done (x ∷ []) xs)
