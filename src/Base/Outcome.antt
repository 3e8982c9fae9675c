-- ===== src/Base/Outcome.antt =====
-- Go's `(T, error)` results. The sentinels are those of internal/store, internal/auth,
-- internal/cluster and internal/runtime/wasm; a nil dereference is `panicked`.
use Prim.Native.Nat.{ℕ}
use Prim.Native.String.{String}
use mathlib.Core.Path.{◌≡◌, refl}
use mathlib.Core.Option.{Option, none, some}
use mathlib.Core.Logic.{◌⊎◌, inl, inr}

pub data Error : Type 0 where
  not_found already_exists conflict not_leader : Error
  invalid_credentials credential_expired : Error
  invalid_token token_used token_expired : Error
  no_capacity : Error
  function_not_ready : Error
  panicked : Error
  message : String → Error
  -- an error that a library returns
  external : ℕ → Error

pub data Result {ℓ} (A : Type ℓ) : Type ℓ where
  ok : A → Result A
  err : Error → Result A

infixl 5 ◌>>=◌
abbrev pub ◌>>=◌ {ℓ κ} : {A : Type ℓ} {B : Type κ} → Result A → (A → Result B) → Result B
ok a >>= f = f a
err e >>= f = err e

abbrev pub map_ok {ℓ κ} : {A : Type ℓ} {B : Type κ} → (A → B) → Result A → Result B
map_ok f (ok a) = ok (f a)
map_ok f (err e) = err e

abbrev pub unless_error {ℓ} : {A : Type ℓ} → Option Error → Result A → Result A
unless_error none r = r
unless_error (some e) r = err e

pub Result-cases {ℓ} :
    {A : Type ℓ} (r : Result A) → ((a : A) × (r ≡ ok a)) ⊎ ((e : Error) × (r ≡ err e))
Result-cases (ok a) = inl (a, refl)
Result-cases (err e) = inr (e, refl)
