-- ===== src/Callbacks/Deliveries/Books.antt =====
-- A poll of the tenant deliveries writes no payment table.
use script_pay_backend.Shared.{
  ℕ, String, Bool, true, false, ◌&&◌, Option, none, some, leb, ◌+◌, truthy, Bool-cases, inl, inr,
}
use script_pay_backend.Store.Rows.{DeliveryPayload, TenantWebhookDelivery}
use script_pay_backend.Store.Tx.{Result}
use script_pay_backend.Store.Invariants.{Maintains, maintains}
use script_pay_backend.StateMachine.Soundness.{IsSound}
use script_pay_backend.Callbacks.Deliveries.{
  update_delivery, failed_at, record_failure, Response, accepted, refused, answered, deliver_to,
  attempt_delivery, poll_pending_deliveries, max_attempts,
}

update_delivery-Maintains :
    (id : ℕ) (f : TenantWebhookDelivery → TenantWebhookDelivery)
    → Maintains IsSound (update_delivery id f)
update_delivery-Maintains id f = record {
  at = λ s h. record { consistent = h.consistent; fresh = h.fresh };
}

failed_at-Maintains :
    (d : TenantWebhookDelivery) (attempts : ℕ) (reason : String) (spent : Bool)
    → Maintains IsSound (failed_at d attempts reason spent)
failed_at-Maintains d attempts reason true = record {
  at = λ s h. record { consistent = h.consistent; fresh = h.fresh };
}
failed_at-Maintains d attempts reason false = record {
  at = λ s h. record { consistent = h.consistent; fresh = h.fresh };
}

answered-Maintains : (d : TenantWebhookDelivery) (r : Response) → Maintains IsSound (answered d r)
unfolding record_failure
answered-Maintains d accepted = record {
  at = λ s h. record { consistent = h.consistent; fresh = h.fresh };
}
answered-Maintains d (refused reason) =
    failed_at-Maintains d (d.attempts + 1) reason (leb max_attempts (d.attempts + 1))

module _ (sign : String → DeliveryPayload → Result String)
    (post : String → String → DeliveryPayload → Response) where
  deliver_to-Maintains :
      (d : TenantWebhookDelivery) (url secret : Option String)
      → Maintains IsSound (deliver_to sign post d url secret)
  deliver_to-Maintains d (some url) (some secret) =
      elim (Bool-cases (truthy (some url) && truthy (some secret))) [
        | inl given ↦ rw given (search (maintains, answered-Maintains) depth 6)
        | inr missing ↦ rw missing (update_delivery-Maintains d.id _)
      ]
  deliver_to-Maintains d (some url) none = update_delivery-Maintains d.id _
  deliver_to-Maintains d none secret = update_delivery-Maintains d.id _

  attempt_delivery-Maintains :
      (d : TenantWebhookDelivery × (Option String × Option String))
      → Maintains IsSound (attempt_delivery sign post d)
  unfolding attempt_delivery
  attempt_delivery-Maintains (d, (url, secret)) = deliver_to-Maintains d url secret

  -- A poll of the tenant deliveries keeps the payment tables sound, whatever the endpoints answer.
  pub poll_pending_deliveries-Maintains : Maintains IsSound (poll_pending_deliveries sign post)
  unfolding poll_pending_deliveries
  poll_pending_deliveries-Maintains = search (maintains, attempt_delivery-Maintains) depth 6
