-- ===== src/Events/Webhook.antt =====
-- internal/events/dispatcher.go: `deliverWebhook`. What each attempt meets, and the clock, are
-- arguments.
use selfcloud.Base.{
  ℕ, ◌+◌, ◌-◌, ◌^◌, String, ◌<>◌, Bool, true, false, ◌&&◌, List, [], ◌∷◌, ltb, leb, if◌then◌else◌,
}
use selfcloud.Store.Types.{Time, new_meta, EventRule, EventRecord, WebhookDelivery}
use selfcloud.Store.Deps.{Deps}
use selfcloud.Store.Core.{Store}
use selfcloud.Store.Scoped.{Mint}
use selfcloud.Store.Typed.{put_delivery}

-- An attempt: the request cannot be built, it cannot be sent, or it is answered with a status.
pub data Outcome : Type 0 where
  bad_request unsent : String → Outcome
  answered : ℕ → Outcome

-- What a delivery meets: the rule, its URL, the event, the outcome of each attempt, and the clock
-- when its record is made, by the attempt and whether the record is the last.
pub record Delivery : Type 0 where
  pub rule : EventRule
  pub url : String
  pub event : EventRecord
  pub outcome : ℕ → Outcome
  pub started_at : ℕ → Bool → Time
  pub finished_at : ℕ → Bool → Time
  pub itoa : ℕ → String

-- the seconds to sleep after an attempt
unfoldable pub retry_seconds : ℕ → ℕ
retry_seconds attempt = let seconds = 2 ^ (attempt - 1) in if ltb 60 seconds then 60 else seconds

-- the record that `recordDelivery` writes
unfoldable pub delivery_record : Delivery → ℕ → ℕ → String → Bool → WebhookDelivery
delivery_record w attempt status error done = record {
  meta =
      new_meta w.rule.meta.project
        (w.rule.meta.name <> "-" <> w.event.uid <> "-" <> w.itoa attempt);
  rule = w.rule.meta.name;
  url = w.url;
  status = status;
  error = error;
  attempt = attempt;
  next_attempt = 0;
  done = done;
  started_at = w.started_at attempt done;
  finished_at = w.finished_at attempt done;
  event_uid = w.event.uid;
  event_type = w.event.event_type;
}

unfoldable pub is_success : ℕ → Bool
is_success status = leb 200 status && ltb status 300

unfoldable pub exhausted : Delivery → ℕ → String → WebhookDelivery
unfolding delivery_record
exhausted w status error = delivery_record w 5 status ("exhausted: " <> error) true

-- the loop over the attempts, with the rounds that are left, the next attempt, and the last status
-- and error: the records that are written, in order
unfoldable pub attempts : Delivery → ℕ → ℕ → ℕ → String → List WebhookDelivery
unfolding exhausted is_success delivery_record
attempts w ℕ.zero attempt status error = exhausted w status error ∷ []
attempts w (ℕ.suc rounds) attempt status error = elim (w.outcome attempt) [
  | bad_request e ↦ exhausted w status e ∷ []
  | unsent e ↦ delivery_record w attempt 0 e false ∷ attempts w rounds (attempt + 1) status e
  | answered code ↦
      let failed = "http " <> w.itoa code in
      let rest = attempts w rounds (attempt + 1) code failed in
      if is_success code
      then delivery_record w attempt code "" true ∷ []
      else delivery_record w attempt code failed false ∷ rest
]

unfoldable pub delivery_records : Delivery → List WebhookDelivery
unfolding attempts
delivery_records w = attempts w 5 1 0 ""

module _ {d : Deps} where
  unfoldable pub record_all : (WebhookDelivery → Mint) → List WebhookDelivery → Store d → Store d
  record_all mint [] s = s
  record_all mint (r ∷ records) s = record_all mint records (put_delivery s (mint r) r).0

  -- `deliverWebhook`
  unfoldable pub deliver_webhook : (WebhookDelivery → Mint) → Delivery → Store d → Store d
  unfolding delivery_records record_all
  deliver_webhook mint w s = record_all mint (delivery_records w) s
