-- ===== src/Reconcile/Backoff.antt =====
-- The backoff of internal/runtime/container/reconcile.go in closed form.
use native.Mathlib.Nat.{pow-suc}
use selfcloud.Base.{
  ℕ, zero, suc, ◌+◌, ◌*◌, ◌-◌, ◌^◌, ◌≤◌, ◌<◌, ◌≡◌, ap, ◌∙◌, arith, ltb, Bool-cases, inl, inr,
  if◌then◌else◌,
}
use selfcloud.Reconcile.State.{second, five_minutes, backoff_loop, backoff_after}

cap : ℕ → ℕ
cap b = if ltb five_minutes b then five_minutes else b

pow_pos : (n : ℕ) → 0 < 2 ^ n
pow_pos zero = omega arith
pow_pos (suc n) = rw pow-suc (omega (arith, pow_pos n))

double_first : (n b : ℕ) → b * 2 * 2 ^ n ≡ b * 2 ^ suc n
double_first n b = rw pow-suc (omega arith)

cap_past : (b p : ℕ) → five_minutes ≤ b → 0 < p → cap b ≡ cap (b * p)
unfolding cap
cap_past b p h q = let grown : b ≤ b * p = grind arith in ground arith

cap_loop : (n b : ℕ) → cap (backoff_loop n b) ≡ cap (b * 2 ^ n)
unfolding backoff_loop
cap_loop zero b = ap cap (omega arith)
cap_loop (suc n) b = elim (Bool-cases (ltb b five_minutes)) [
  | inl h ↦ rw h (cap_loop n (b * 2) ∙ ap cap (double_first n b))
  | inr h ↦ rw h (cap_past b (2 ^ suc n) (ground arith) (pow_pos (suc n)))
]

-- After n + 1 failed attempts the backoff is 5 seconds times 2 to the n, and at most five minutes.
pub backoff_after_closed :
    (n : ℕ)
    → backoff_after (n + 1)
      ≡ (if ltb five_minutes (5 * second * 2 ^ n) then five_minutes else 5 * second * 2 ^ n)
unfolding backoff_after cap
backoff_after_closed n =
    let rounds : n + 1 - 1 ≡ n = omega arith in rw rounds (cap_loop n (5 * second))

pub backoff_after_bounds :
    (n : ℕ) → (5 * second ≤ backoff_after (n + 1)) × (backoff_after (n + 1) ≤ five_minutes)
backoff_after_bounds n = rw backoff_after_closed (ground (arith, pow_pos n))
