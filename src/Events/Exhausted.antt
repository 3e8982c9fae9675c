-- ===== src/Events/Exhausted.antt =====
-- A webhook delivery of internal/events/dispatcher.go whose attempts all fail.
use selfcloud.Base.{
  ℕ, suc, ◌+◌, String, ◌<>◌, ◌≡◌, refl, ap, ◌∙◌, Bool, true, false, not, List, [], ◌∷◌, ◌++◌, arith,
}
use selfcloud.Store.Types.{WebhookDelivery}
use selfcloud.Events.Webhook.{
  Outcome, bad_request, unsent, answered, Delivery, delivery_record, is_success, exhausted,
  attempts, delivery_records,
}

-- a request that was built, and that was not answered with success
abbrev pub has_failed : Outcome → Bool
has_failed (bad_request e) = false
has_failed (unsent e) = true
has_failed (answered code) = not (is_success code)

failed_step :
    (w : Delivery) (rounds n status : ℕ) (error : String) (o : Outcome)
    → w.outcome n ≡ o
    → has_failed o ≡ true
    → (code code' : ℕ) × (e e' : String) × (attempts w (suc rounds) n status error
        ≡ delivery_record w n code e false ∷ attempts w rounds (n + 1) code' e')
unfolding attempts
failed_step w rounds n status error (bad_request e) h f = absurd (ground arith)
failed_step w rounds n status error (unsent e) h f = (0, status, e, e, rw (h, attempts) refl)
failed_step w rounds n status error (answered code) h f =
    let bad : is_success code ≡ false = ground arith in
    let e = "http " <> w.itoa code in (code, code, e, e, rw (h, attempts, bad) refl)

failed_attempts :
    (w : Delivery) (rounds n status : ℕ) (error : String)
    → ((k : ℕ) → has_failed (w.outcome k) ≡ true)
    → (earlier : List WebhookDelivery) × (code code' : ℕ) × (e e' : String) × (attempts w
          (suc rounds)
          n
          status
          error
        ≡ earlier ++ delivery_record w (n + rounds) code e false ∷ exhausted w code' e' ∷ [])
failed_attempts w ℕ.zero n status error fail =
    let (code, code', e, e', step) = failed_step w 0 n status error (w.outcome n) refl (fail n) in
    let same : n + 0 ≡ n = omega arith in
    ([], code, code', e, e', rw same (step ∙ unfold attempts in refl))
failed_attempts w (ℕ.suc rounds) n status error fail =
    let (c, c', x, x', step) =
      failed_step w (suc rounds) n status error (w.outcome n) refl (fail n) in
    let (earlier, code, code', e, e', later) = failed_attempts w rounds (n + 1) c' x' fail in
    let same : n + suc rounds ≡ n + 1 + rounds = omega arith in
    (
      delivery_record w n c x false ∷ earlier,
      code,
      code',
      e,
      e',
      rw same (step ∙ ap (◌∷◌ (delivery_record w n c x false)) later),
    )

-- When all attempts fail after the request was built, the record of the fifth attempt and the last
-- record, which is done, have the same project and name, so that the last one takes the place of
-- the fifth in the store.
pub exhausted-overwrites :
    (w : Delivery)
    → ((k : ℕ) → has_failed (w.outcome k) ≡ true)
    → (earlier : List WebhookDelivery) × (fifth final : WebhookDelivery) × (delivery_records w
        ≡ earlier ++ fifth ∷ final ∷ [])
      × (fifth.attempt ≡ 5)
      × (fifth.done ≡ false)
      × (final.done ≡ true)
      × (final.meta ≡ fifth.meta)
unfolding delivery_records exhausted delivery_record
exhausted-overwrites w fail =
    let (earlier, code, code', e, e', records) = failed_attempts w 4 1 0 "" fail in
    (
      earlier,
      delivery_record w 5 code e false,
      exhausted w code' e',
      records,
      refl,
      refl,
      refl,
      refl,
    )
