-- ===== src/Events/Attempts.antt =====
-- The records of a webhook delivery of internal/events/dispatcher.go.
use selfcloud.Base.{
  ℕ, suc, ◌+◌, ◌≤◌, String, ◌<>◌, ◌≡◌, refl, ap, true, false, List, [], ◌∷◌, ◌++◌, length, All,
  arith, Bool-cases, inl, inr,
}
use selfcloud.Store.Types.{WebhookDelivery}
use selfcloud.Events.Webhook.{
  Outcome, bad_request, unsent, answered, Delivery, delivery_record, is_success, exhausted,
  attempts, delivery_records,
}

-- the records are numbered on from an attempt
abbrev pub IsNumbered : ℕ → List WebhookDelivery → Type 0
IsNumbered n [] = Unit
IsNumbered n (r ∷ rs) = (r.attempt ≡ n) × IsNumbered (n + 1) rs

-- At most so many records that are not done, numbered on from an attempt, and a last one that is.
abbrev pub IsDelivery : ℕ → ℕ → List WebhookDelivery → Type 0
IsDelivery most first records =
    (pending : List WebhookDelivery) × (final : WebhookDelivery) × (records ≡ pending ++ final ∷ [])
    × (final.done ≡ true)
    × All (λ r. r.done ≡ false) pending
    × IsNumbered first pending
    × (length pending ≤ most)

pending_first :
    (w : Delivery) (most n status : ℕ) (error : String) (rest : List WebhookDelivery)
    → IsDelivery most (n + 1) rest
    → IsDelivery (suc most) n (delivery_record w n status error false ∷ rest)
unfolding delivery_record
pending_first w most n status error rest (pending, final, e, last, undone, numbered, few) = (
  delivery_record w n status error false ∷ pending,
  final,
  ap (◌∷◌ (delivery_record w n status error false)) e,
  last,
  (refl, undone),
  (refl, numbered),
  omega arith,
)

only_final : (most n : ℕ) (r : WebhookDelivery) → r.done ≡ true → IsDelivery most n (r ∷ [])
only_final most n r e = ([], r, refl, e, tt, tt, omega arith)

next-IsDelivery :
    (w : Delivery) (rounds n status : ℕ) (error : String)
    → ((m code : ℕ) (e : String) → IsDelivery rounds m (attempts w rounds m code e))
    → (o : Outcome) → w.outcome n ≡ o
    → IsDelivery (suc rounds) n (attempts w (suc rounds) n status error)
unfolding attempts exhausted delivery_record
next-IsDelivery w rounds n status error later (bad_request e) h =
    rw (h, attempts) (only_final (suc rounds) n (exhausted w status e) refl)
next-IsDelivery w rounds n status error later (unsent e) h =
    rw (h, attempts) (pending_first w rounds n 0 e _ (later (n + 1) status e))
next-IsDelivery w rounds n status error later (answered code) h =
    elim (Bool-cases (is_success code)) [
      | inl good ↦
          rw (h, attempts, good) (only_final (suc rounds) n (delivery_record w n code "" true) refl)
      | inr bad ↦
          rw (h, attempts, bad)
            (pending_first w rounds n code ("http " <> w.itoa code) _
              (later (n + 1) code ("http " <> w.itoa code)))
    ]

attempts-IsDelivery :
    (w : Delivery) (rounds n status : ℕ) (error : String)
    → IsDelivery rounds n (attempts w rounds n status error)
unfolding attempts exhausted delivery_record
attempts-IsDelivery w ℕ.zero n status error = only_final 0 n (exhausted w status error) refl
attempts-IsDelivery w (ℕ.suc rounds) n status error =
    next-IsDelivery w rounds n status error (attempts-IsDelivery w rounds) (w.outcome n) refl

-- A delivery writes at most five records that are not done, for the attempts from 1 on in order,
-- and then exactly one that is done.
pub delivery_records-IsDelivery : (w : Delivery) → IsDelivery 5 1 (delivery_records w)
unfolding delivery_records
delivery_records-IsDelivery w = attempts-IsDelivery w 5 1 0 ""
