-- ===== src/Examples/Emitting.antt =====
-- The theorems about internal/events at short runs.
use selfcloud.Base.{◌↔◌, ◌≤◌, ◌≡◌, refl, true, false, none, List, [], ◌∷◌, ◌++◌, keep, length, ok}
use selfcloud.Store.Types.{EventRecord, EventRule, WebhookDelivery}
use selfcloud.Store.Core.{Store}
use selfcloud.Store.Scoped.{Mint}
use selfcloud.Store.Typed.{put_event_rule, list_all_event_rules}
use selfcloud.Events.Bus.{queue_size, new_bus, emitting, working, stopping, BusStep, run_bus}
use selfcloud.Events.Rules.{Matchers, fires, handle_event}
use selfcloud.Events.Webhook.{unsent, Delivery, delivery_records}
use selfcloud.Events.Attempts.{IsDelivery, delivery_records-IsDelivery}
use selfcloud.Events.Exhausted.{exhausted-overwrites}
use selfcloud.Events.Order.{accepted, bus_queue}
use selfcloud.Events.Listening.{Listens}
use selfcloud.Events.Firing.{actions_of, handle_event-launched}
use selfcloud.Examples.Memory.{memory}
use selfcloud.Examples.Stores.{opened, first_mint}
use selfcloud.Examples.Values.{on_crash}

abbrev crash : EventRecord
crash = record {
  uid = "e1";
  event_type = "container.crash";
  project = "";
  subject = "web";
  at = 5;
  fields = [];
  body = [];
}

abbrev steps : List BusStep
steps = emitting 6 crash ∷ working ∷ emitting 7 crash ∷ stopping ∷ emitting 8 crash ∷ []

bus_queue_example :
    (length (run_bus new_bus steps).queue ≤ queue_size)
    × ((run_bus new_bus steps).dispatched ++ (run_bus new_bus steps).queue ≡ accepted new_bus steps)
bus_queue_example = bus_queue steps

abbrev unreachable : Delivery
unreachable = record {
  rule = on_crash;
  url = "http://hook";
  event = crash;
  outcome = λ n. unsent "refused";
  started_at = λ n done. 10;
  finished_at = λ n done. 11;
  itoa = λ n. "n";
}

delivery_records-IsDelivery_example : IsDelivery 5 1 (delivery_records unreachable)
delivery_records-IsDelivery_example = delivery_records-IsDelivery unreachable

exhausted-overwrites_example :
    (earlier : List WebhookDelivery) × (fifth final : WebhookDelivery) × (delivery_records
        unreachable
      ≡ earlier ++ fifth ∷ final ∷ [])
    × (fifth.attempt ≡ 5)
    × (fifth.done ≡ false)
    × (final.done ≡ true)
    × (final.meta ≡ fifth.meta)
exhausted-overwrites_example = exhausted-overwrites unreachable (λ k. refl)

abbrev plain_matchers : Matchers
plain_matchers = record { regexp = λ p. none; path = λ p s. false }

abbrev ruled : Store memory
ruled = (put_event_rule opened first_mint on_crash).0

abbrev stored_rule : EventRule
stored_rule = (put_event_rule opened first_mint on_crash).1

rules_listed : list_all_event_rules ruled ≡ ok (stored_rule ∷ [])
unfolding list_all_event_rules selfcloud.Store.Core.list put_event_rule
    selfcloud.Store.Scoped.put_scoped selfcloud.Store.Core.put selfcloud.Store.Core.emit
    selfcloud.Store.Core.decode_all selfcloud.Examples.Memory.sort_entries
rules_listed = refl

handle_event-launched_example :
    ((handle_event plain_matchers 50 (λ r. first_mint) crash ruled).1
      ≡ actions_of 50
          (λ r. first_mint)
          crash
          (keep (fires plain_matchers crash) (stored_rule ∷ [])))
    × ((rule : EventRule)
        → (fires plain_matchers crash rule ≡ true) ↔ Listens plain_matchers crash rule)
handle_event-launched_example =
    handle_event-launched plain_matchers 50 (λ r. first_mint) crash ruled (stored_rule ∷ [])
      rules_listed
