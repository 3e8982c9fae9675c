-- ===== src/Examples/Bytes.antt =====
-- A text as the numbers of its characters, and back: the cipher of the examples.
use Prim.Native.Nat.{ℕ, Ordering, compare}
use Prim.Native.Char.{char, code, IsLt, IsScalar}
use selfcloud.Base.{String, ◌≡◌, refl, ap, ◌∙◌, Option, none, some, [], ◌∷◌, ok}
use selfcloud.Store.Types.{Bytes}
use selfcloud.Secrets.Cipher.{Gcm}

-- The clauses of `IsScalar`, whose helpers are private to its module.
abbrev Both : Ordering → Ordering → Type 0
Both Ordering.lt o = IsLt o
Both Ordering.eq _ = ⊥
Both Ordering.gt _ = ⊥

abbrev Scalar : Ordering → Ordering → Ordering → Type 0
Scalar Ordering.lt _ _ = Unit
Scalar Ordering.eq o p = Both o p
Scalar Ordering.gt o p = Both o p

abbrev lt_evidence : (o : Ordering) → Option (IsLt o)
lt_evidence Ordering.lt = some tt
lt_evidence Ordering.eq = none
lt_evidence Ordering.gt = none

abbrev both_evidence : (o p : Ordering) → Option (Both o p)
both_evidence Ordering.lt p = lt_evidence p
both_evidence Ordering.eq _ = none
both_evidence Ordering.gt _ = none

abbrev scalar_evidence : (o p q : Ordering) → Option (Scalar o p q)
scalar_evidence Ordering.lt p q = some tt
scalar_evidence Ordering.eq p q = both_evidence p q
scalar_evidence Ordering.gt p q = both_evidence p q

lt_some : (o : Ordering) (e : IsLt o) → lt_evidence o ≡ some e
lt_some Ordering.lt e = refl
lt_some Ordering.eq e = absurd e
lt_some Ordering.gt e = absurd e

both_some : (o p : Ordering) (e : Both o p) → both_evidence o p ≡ some e
both_some Ordering.lt p e = lt_some p e
both_some Ordering.eq p e = absurd e
both_some Ordering.gt p e = absurd e

scalar_some : (o p q : Ordering) (e : Scalar o p q) → scalar_evidence o p q ≡ some e
scalar_some Ordering.lt p q e = refl
scalar_some Ordering.eq p q e = both_some p q e
scalar_some Ordering.gt p q e = both_some p q e

abbrev evidence : (n : ℕ) → Option (IsScalar n)
evidence n = scalar_evidence (compare n 55296) (compare 57343 n) (compare n 1114112)

abbrev prepend : (n : ℕ) → Option (IsScalar n) → String → String
prepend n none s = s
prepend n (some e) s = String.◌∷◌ (char n e) s

abbrev encode : String → Bytes
encode String.[] = []
encode (String.◌∷◌ c s) = code c ∷ encode s

abbrev decode : Bytes → String
decode [] = String.[]
decode (n ∷ ns) = prepend n (evidence n) (decode ns)

pub decode-encode : (s : String) → decode (encode s) ≡ s
decode-encode String.[] = refl
decode-encode (String.◌∷◌ (char n e) s) =
    ap (λ x. prepend n x (decode (encode s)))
      (scalar_some (compare n 55296) (compare 57343 n) (compare n 1114112) e)
    ∙ ap (String.◌∷◌ (char n e)) (decode-encode s)

-- a cipher that keeps the plaintext
abbrev pub plain_gcm : Gcm
plain_gcm = record {
  new_error = λ key. none;
  nonce_size = 1;
  encrypt = λ key nonce plain. encode plain;
  decrypt = λ key nonce sealed. ok (decode sealed);
  decrypt-encrypt = λ key nonce plain. ap ok (decode-encode plain);
}
