-- ===== src/Api/Rules.antt =====
-- internal/api/events.go: event rules, deliveries, the test of a rule and the list of events. The
-- stream over a WebSocket is its filter of events.
use selfcloud.Base.{
  ℕ, ◌==◌, String, Bool, true, ◌&&◌, ◌||◌, List, [], ◌∷◌, keep, str_eq, leb, ltb, Error, Result, ok,
  err, if◌then◌else◌,
}
use selfcloud.Store.Types.{EventRule, EventRecord, WebhookDelivery}
use selfcloud.Store.Deps.{Deps}
use selfcloud.Store.Core.{Store}
use selfcloud.Store.Scoped.{Mint}
use selfcloud.Store.Typed.{
  put_event_rule, get_event_rule, list_event_rules, delete_event_rule, list_deliveries, list_events,
  redact_event_rule,
}
use selfcloud.Api.Reply.{
  Reply, json, failed, store_error, read_reply, write_reply, reply_deleted, Handled,
}

-- the project of the path, and a new rule is enabled
unfoldable pub rule_defaults : String → EventRule → EventRule
rule_defaults project er = record er {
  meta = record (er.meta) { project = project };
  enabled = er.enabled || er.meta.generation == 0;
}

unfoldable pub first_or : String → List String → String
first_or text [] = text
first_or text (t ∷ ts) = t

unfoldable pub test_event : EventRule → EventRecord
unfolding first_or
test_event er = record {
  uid = "";
  event_type = first_or "test.fired" er.matching.types;
  project = er.meta.project;
  subject = if str_eq er.matching.subject "" then er.meta.name else er.matching.subject;
  at = 0;
  fields = ("rule", er.meta.name) ∷ ("test", "true") ∷ ("trigger", "manual") ∷ [];
  body = [];
}

unfoldable pub tested_reply : (Error → String) → Result EventRule → List EventRecord × Reply Bool
unfolding test_event store_error
tested_reply texts (err e) = ([], store_error texts e)
tested_reply texts (ok er) = (test_event er ∷ [], json 202 true)

-- `strconv.Atoi` of the query's limit
unfoldable pub limit_of : Result ℕ → ℕ
limit_of (err e) = 200
limit_of (ok n) = if ltb 0 n && leb n 5_000 then n else 200

unfoldable pub of_type : String → List EventRecord → List EventRecord
of_type t events = if str_eq t "" then events else keep (λ ev. str_eq ev.event_type t) events

-- the subscriber of `handleEventsWS`: which events it takes
unfoldable pub streams : String → EventRecord → Bool
streams project ev = str_eq ev.project "" || str_eq ev.project project

module _ {d : Deps} (texts : Error → String) where
  -- `handleListEventRules`
  unfoldable pub handle_list_event_rules : Store d → String → Reply (List EventRule)
  unfolding read_reply
  handle_list_event_rules s project = read_reply texts (λ rs. rs) (list_event_rules s project)

  unfoldable pub put_rule_named : Store d → Mint → EventRule → Handled d EventRule
  unfolding write_reply redact_event_rule
  put_rule_named s mt er =
      if str_eq er.meta.name ""
      then (s, failed 400 "name required")
      else let w = put_event_rule s mt er in
        (w.0, write_reply texts 200 (redact_event_rule w.1) w.2)

  -- `handlePutEventRule`
  unfoldable pub handle_put_event_rule :
      Store d → Mint → String → Result EventRule → Handled d EventRule
  unfolding put_rule_named rule_defaults
  handle_put_event_rule s mt project (err e) = (s, failed 400 (texts e))
  handle_put_event_rule s mt project (ok er) = put_rule_named s mt (rule_defaults project er)

  -- `handleGetEventRule`
  unfoldable pub handle_get_event_rule : Store d → String → String → Reply EventRule
  unfolding read_reply redact_event_rule
  handle_get_event_rule s project name =
      read_reply texts redact_event_rule (get_event_rule s project name)

  -- `handleDeleteEventRule`
  unfoldable pub handle_delete_event_rule : Store d → String → String → Handled d EventRule
  unfolding reply_deleted
  handle_delete_event_rule s project name = reply_deleted texts (delete_event_rule s project name)

  -- `handleListDeliveries`
  unfoldable pub handle_list_deliveries : Store d → String → String → Reply (List WebhookDelivery)
  unfolding read_reply
  handle_list_deliveries s project name =
      read_reply texts (λ ds. ds) (list_deliveries s project name)

  -- `handleTestRule`: what the bus is given, and the reply
  unfoldable pub handle_test_rule : Store d → Bool → String → String → List EventRecord × Reply Bool
  unfolding tested_reply
  handle_test_rule s has_bus project name =
      if has_bus
      then tested_reply texts (get_event_rule s project name)
      else ([], failed 503 "event bus not configured")

  -- `handleListEvents`
  unfoldable pub handle_list_events :
      Store d → String → Result ℕ → String → Reply (List EventRecord)
  unfolding read_reply limit_of of_type
  handle_list_events s project limit event_type =
      read_reply texts (of_type event_type) (list_events s project (limit_of limit))
