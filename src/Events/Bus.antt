-- ===== src/Events/Bus.antt =====
-- internal/events/bus.go: the queue of the bus, and what its worker does with an event.
use selfcloud.Base.{
  ℕ, ◌+◌, ◌%◌, ◌^◌, Bool, true, false, List, [], ◌∷◌, ◌++◌, length, ltb, str_eq, if◌then◌else◌,
}
use selfcloud.Store.Types.{Time, is_zero_time, EventRecord}

-- `make(chan store.EventRecord, 1024)`
abbrev pub queue_size : ℕ
queue_size = 1_024

-- The bus: the queue, what the worker has taken from it, and the count of drops, a uint64.
pub record Bus : Type 0 where
  pub queue : List EventRecord
  pub dispatched : List EventRecord
  pub dropped : ℕ
  pub stopped : Bool

-- `New`
abbrev pub new_bus : Bus
new_bus = record { queue = []; dispatched = []; dropped = 0; stopped = false }

-- the time and the project that `Emit` fills in
unfoldable pub filled : Time → EventRecord → EventRecord
filled now ev = record ev {
  at = if is_zero_time ev.at then now else ev.at;
  project = if str_eq ev.project "" then "default" else ev.project;
}

-- `Emit`
unfoldable pub emit_event : Time → EventRecord → Bus → Bus
unfolding filled
emit_event now ev b =
    if b.stopped
    then b
    else if ltb (length b.queue) queue_size
    then record b { queue = b.queue ++ filled now ev ∷ [] }
    else record b { dropped = (b.dropped + 1) % 2 ^ 64 }

-- one round of `run`: the worker takes the oldest event, and dispatches it
unfoldable pub take_oldest : Bus → List EventRecord → Bus
take_oldest b [] = b
take_oldest b (ev ∷ evs) = record b { queue = evs; dispatched = b.dispatched ++ ev ∷ [] }

unfoldable pub work : Bus → Bus
unfolding take_oldest
work b = take_oldest b b.queue

-- `run` after the context is done
unfoldable pub stop : Bus → Bus
stop b = record b { stopped = true }

-- what happens to the bus, in order
pub data BusStep : Type 0 where
  emitting : Time → EventRecord → BusStep
  working stopping : BusStep

unfoldable pub bus_step : Bus → BusStep → Bus
unfolding emit_event work stop
bus_step b (emitting now ev) = emit_event now ev b
bus_step b working = work b
bus_step b stopping = stop b

unfoldable pub run_bus : Bus → List BusStep → Bus
unfolding bus_step
run_bus b [] = b
run_bus b (s ∷ steps) = run_bus (bus_step b s) steps
