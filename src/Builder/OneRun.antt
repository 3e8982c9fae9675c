-- ===== src/Builder/OneRun.antt =====
-- The slots of internal/runtime/functions/builder/runner.go, in whatever order the runs take their
-- steps.
use selfcloud.Base.{
  ℕ, ◌+◌, ◌-◌, ◌≤◌, String, ◌≡◌, refl, ◌∙◌, ◌⊎◌, none, some, Option-cases, List, [], ◌∷◌, lookup,
  insert, lookup-insert, str_eq, str_eq_iff, str_eq_refl, ◌==◌, ==_iff, arith, Bool-cases, inl, inr,
  if◌then◌else◌,
}
use selfcloud.Builder.Slots.{
  Slots, tokens_in, let_go, acquire, receive, release, held_by, taking, giving, SlotsReached,
  at_start, after,
}

-- the tokens are the runs that hold the slot, one at most
abbrev Counted : Slots → Type 0
Counted s =
    (key : String)
    → (tokens_in (lookup key s.queue) ≡ held_by key s.holders) × (held_by key s.holders ≤ 1)

held_by-let_go :
    (key at : String) (keys : List String)
    → held_by at (let_go key keys)
      ≡ (if str_eq key at then held_by at keys - 1 else held_by at keys)
unfolding held_by let_go
held_by-let_go key at [] = ground arith
held_by-let_go key at (k ∷ keys) =
    ground (arith, held_by-let_go key at keys, str_eq_iff k key, str_eq_iff k at, str_eq_iff key at)

tokens-insert :
    (key at : String) (n : ℕ) (m : List (String × ℕ))
    → tokens_in (lookup at (insert key n m))
      ≡ (if str_eq key at then n else tokens_in (lookup at m))
unfolding tokens_in
tokens-insert key at n m = ground (arith, lookup-insert key at n m)

acquire-Counted : (key : String) (s t : Slots) → Counted s → acquire key s ≡ some t → Counted t
unfolding acquire held_by
acquire-Counted key s t c h at =
    let tokens = tokens_in (lookup key s.queue) in
    ground (arith, h, c at, c key, tokens-insert key at (tokens + 1) s.queue, str_eq_iff key at)

release-Counted : (key : String) (s t : Slots) → Counted s → release key s ≡ some t → Counted t
unfolding release receive tokens_in
release-Counted key s t c h at = elim (Option-cases (lookup key s.queue)) [
  | inl e ↦ ground (arith, h, e, c at, c key, held_by-let_go key at s.holders, str_eq_iff key at)
  | inr (n, e) ↦ ground (
    arith,
    h,
    e,
    c at,
    c key,
    tokens-insert key at (n - 1) s.queue,
    held_by-let_go key at s.holders,
    str_eq_iff key at,
  )
]

SlotsReached-Counted : (s : Slots) → SlotsReached s → Counted s
unfolding held_by tokens_in
SlotsReached-Counted s at_start = λ key. (refl, omega arith)
SlotsReached-Counted t (after {s} r (taking key t' h)) =
    acquire-Counted key s t (SlotsReached-Counted s r) h
SlotsReached-Counted t (after {s} r (giving key t' held h)) =
    release-Counted key s t (SlotsReached-Counted s r) h

-- a run that holds the slot of a function gives it back without waiting
release_held :
    (s : Slots) (key : String)
    → Counted s
    → 1 ≤ held_by key s.holders
    → (t : Slots) × (release key s ≡ some t) × (held_by key t.holders ≡ held_by key s.holders - 1)
unfolding release receive tokens_in
release_held s key c held = elim (Option-cases (lookup key s.queue)) [
  | inl e ↦ absurd (ground (arith, e, c key, held))
  | inr (n, e) ↦ (
    record { queue = insert key (n - 1) s.queue; holders = let_go key s.holders },
    rw e (ground (arith, e, c key, held)),
    held_by-let_go key key s.holders ∙ rw (str_eq_refl key) refl,
  )
]

-- a free slot is taken without waiting
acquire_free :
    (s : Slots) (key : String)
    → Counted s
    → held_by key s.holders ≡ 0
    → (t : Slots) × (acquire key s ≡ some t)
unfolding acquire
acquire_free s key c free = (
  record {
    queue = insert key (tokens_in (lookup key s.queue) + 1) s.queue;
    holders = key ∷ s.holders;
  },
  ground (arith, c key, free),
)

-- In every order of the steps of the runs, a function has one run in its slot at most. A free slot
-- is taken at once; while a run holds it every other run waits, and when that run gives it back,
-- which it does without waiting, the slot is free for the next.
pub acquire_one :
    (s : Slots) (key : String)
    → SlotsReached s
    → ((held_by key s.holders ≡ 0) × ((t : Slots) × (acquire key s ≡ some t)))
      ⊎ ((held_by key s.holders ≡ 1)
          × (acquire key s ≡ none)
          × ((t : Slots) × (u : Slots) × (release key s ≡ some t) × (acquire key t ≡ some u)))
unfolding acquire
acquire_one s key r =
    let c = SlotsReached-Counted s r in
    elim (Bool-cases (held_by key s.holders == 0)) [
      | inl e ↦
          let free = (==_iff (held_by key s.holders) 0).0 e in inl (free, acquire_free s key c free)
      | inr e ↦
          let one : held_by key s.holders ≡ 1 = ground (arith, c key, e) in
          let (t, given, left) = release_held s key c (omega arith) in
          let (u, taken) = acquire_free t key (release-Counted key s t c given) (omega arith) in
          inr (one, ground (arith, c key, one), (t, u, given, taken))
    ]
