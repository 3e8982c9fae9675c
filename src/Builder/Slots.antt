-- ===== src/Builder/Slots.antt =====
-- internal/runtime/functions/builder/runner.go: one build of a function at a time. A function's
-- channel is the number of its tokens, of which it holds one; `none` is a run that waits.
use selfcloud.Base.{
  ℕ, suc, ◌+◌, ◌-◌, ◌≤◌, String, ◌≡◌, Option, none, some, List, [], ◌∷◌, lookup, insert, str_eq,
  ltb, ◌==◌, if◌then◌else◌,
}

-- the channels, and the functions whose slot a run holds
pub record Slots : Type 0 where
  pub queue : List (String × ℕ)
  pub holders : List String

abbrev pub new_slots : Slots
new_slots = record { queue = []; holders = [] }

-- the tokens of a channel; one is made where there is none
unfoldable pub tokens_in : Option ℕ → ℕ
tokens_in none = 0
tokens_in (some n) = n

-- the holders without one run of a function
unfoldable pub let_go : String → List String → List String
let_go key [] = []
let_go key (k ∷ keys) = let rest = let_go key keys in if str_eq k key then keys else k ∷ rest

-- `acquire`
unfoldable pub acquire : String → Slots → Option Slots
unfolding tokens_in
acquire key s =
    let tokens = tokens_in (lookup key s.queue) in
    if ltb tokens 1
    then some (record { queue = insert key (tokens + 1) s.queue; holders = key ∷ s.holders })
    else none

-- a receive waits for a token
unfoldable pub receive : String → Option ℕ → Slots → Option Slots
unfolding let_go
receive key none s = some (record s { holders = let_go key s.holders })
receive key (some n) s =
    if n == 0
    then none
    else some (record { queue = insert key (n - 1) s.queue; holders = let_go key s.holders })

-- `release`, by a run that holds the slot
unfoldable pub release : String → Slots → Option Slots
unfolding receive
release key s = receive key (lookup key s.queue) s

-- the runs that hold the slot of a function
unfoldable pub held_by : String → List String → ℕ
held_by key [] = 0
held_by key (k ∷ keys) = let rest = held_by key keys in if str_eq k key then suc rest else rest

-- One step: a run takes a slot, or one that holds it gives it back.
pub data SlotStep (s : Slots) : Slots → Type 0 where
  taking : (key : String) (t : Slots) → acquire key s ≡ some t → SlotStep s t
  giving :
      (key : String) (t : Slots) → 1 ≤ held_by key s.holders → release key s ≡ some t → SlotStep s t

pub data SlotsReached : Slots → Type 0 where
  at_start : SlotsReached new_slots
  after : {s t : Slots} → SlotsReached s → SlotStep s t → SlotsReached t
