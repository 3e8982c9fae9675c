-- ===== src/Events/Order.antt =====
-- The queue of internal/events/bus.go: its bound, and the order of the events.
use selfcloud.Base.{
  suc, ◌≤◌, ◌≡◌, refl, sym, ◌∙◌, not, ◌&&◌, List, [], ◌∷◌, ◌++◌, length, length-append, ltb, arith,
  Bool-cases, inl, inr, if◌then◌else◌,
}
use mathlib.Core.List.{append_assoc, append-nil}
use selfcloud.Store.Types.{Time, EventRecord}
use selfcloud.Events.Bus.{
  queue_size, Bus, take_oldest, new_bus, filled, emit_event, work, stop, BusStep, emitting, working,
  stopping, bus_step, run_bus,
}

-- the event that a step adds: one that is emitted while the bus runs and has room
unfoldable pub accepted_by : Bus → BusStep → List EventRecord
accepted_by b (emitting now ev) =
    if not b.stopped && ltb (length b.queue) queue_size then filled now ev ∷ [] else []
accepted_by b working = []
accepted_by b stopping = []

unfoldable pub accepted : Bus → List BusStep → List EventRecord
unfolding accepted_by
accepted b [] = []
accepted b (s ∷ steps) = accepted_by b s ++ accepted (bus_step b s) steps

-- what was dispatched and then what waits
abbrev pub in_order : Bus → List EventRecord
in_order b = b.dispatched ++ b.queue

take_oldest-order :
    (b : Bus) (q : List EventRecord) → b.queue ≡ q → in_order (take_oldest b q) ≡ in_order b
unfolding take_oldest
take_oldest-order b [] h = refl
take_oldest-order b (ev ∷ evs) h = rw (append_assoc, h) refl

take_oldest-bound :
    (b : Bus) (q : List EventRecord)
    → b.queue ≡ q
    → length b.queue ≤ queue_size
    → length (take_oldest b q).queue ≤ queue_size
unfolding take_oldest
take_oldest-bound b [] e h = h
take_oldest-bound b (ev ∷ evs) e h =
    let longer : suc (length evs) ≤ queue_size = rw e at h in omega arith

emit_event-order :
    (now : Time) (ev : EventRecord) (b : Bus)
    → in_order (emit_event now ev b) ≡ in_order b ++ accepted_by b (emitting now ev)
unfolding emit_event accepted_by
emit_event-order now ev b = elim (Bool-cases b.stopped) [
  | inl s ↦ rw s (sym (append-nil (in_order b)))
  | inr s ↦ elim (Bool-cases (ltb (length b.queue) queue_size)) [
    | inl h ↦ rw (s, h) (sym (append_assoc b.dispatched b.queue (filled now ev ∷ [])))
    | inr h ↦ rw (s, h) (sym (append-nil (in_order b)))
  ]
]

bus_step-order : (b : Bus) (s : BusStep) → in_order (bus_step b s) ≡ in_order b ++ accepted_by b s
unfolding bus_step work stop accepted_by
bus_step-order b (emitting now ev) = emit_event-order now ev b
bus_step-order b working = take_oldest-order b b.queue refl ∙ sym (append-nil (in_order b))
bus_step-order b stopping = sym (append-nil (in_order b))

bus_step-bound :
    (b : Bus) (s : BusStep) → length b.queue ≤ queue_size → length (bus_step b s).queue ≤ queue_size
unfolding bus_step emit_event work stop
bus_step-bound b (emitting now ev) h = ground (arith, length-append b.queue (filled now ev ∷ []))
bus_step-bound b working h = take_oldest-bound b b.queue refl h
bus_step-bound b stopping h = h

run_bus-bound :
    (b : Bus) (steps : List BusStep)
    → length b.queue ≤ queue_size
    → length (run_bus b steps).queue ≤ queue_size
unfolding run_bus
run_bus-bound b [] h = h
run_bus-bound b (s ∷ steps) h = run_bus-bound (bus_step b s) steps (bus_step-bound b s h)

run_bus-order :
    (b : Bus) (steps : List BusStep) → in_order (run_bus b steps) ≡ in_order b ++ accepted b steps
unfolding run_bus accepted
run_bus-order b [] = sym (append-nil (in_order b))
run_bus-order b (s ∷ steps) =
    rw (run_bus-order (bus_step b s) steps, bus_step-order b s, append_assoc) refl

-- Whatever is emitted and however the worker keeps up, at most 1024 events wait; and the events
-- that were dispatched, followed by those that wait, are the accepted ones, in the order in which
-- they were emitted.
pub bus_queue :
    (steps : List BusStep)
    → (length (run_bus new_bus steps).queue ≤ queue_size)
      × ((run_bus new_bus steps).dispatched ++ (run_bus new_bus steps).queue
          ≡ accepted new_bus steps)
bus_queue steps = (run_bus-bound new_bus steps (omega arith), run_bus-order new_bus steps)
