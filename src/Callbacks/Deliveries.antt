-- ===== src/Callbacks/Deliveries.antt =====
-- src/modules/callbacks/tenant-webhook-poller.service.ts: the enqueued notices are posted to the
-- tenants' endpoints, with a backoff. `isPolling` keeps polls of one process from overlapping, so a
-- poll is one step.
pub mod Attempts
pub mod Books
use script_pay_backend.Shared.{
  ℕ, String, Bool, true, false, ◌&&◌, Option, none, some, List, [], ◌∷◌, ◌+◌, ◌*◌, ◌-◌, zero, suc,
  ◌==◌, leb, find, filter, take, map, update, str_eq, truthy, if◌then◌else◌,
}
use script_pay_backend.Store.Rows.{
  Store, Tenant, DeliveryStatus, DeliveryPayload, TenantWebhookDelivery, Error, Reason, message,
  critical,
}
use script_pay_backend.Store.Tx.{Result, ok, err}
use script_pay_backend.Store.Action.{
  Action, pure, throw, gets, modify, send_alert, await, for_each, ◌>>=◌, ◌>>◌,
}
use script_pay_backend.Ledger.{is_tenant}

abbrev pub max_attempts : ℕ
max_attempts = 5

abbrev backoff_seconds : List ℕ
backoff_seconds = 30 ∷ 120 ∷ 600 ∷ 1800 ∷ 3600 ∷ []

-- `xs[i]`; the backoff is read for one to four attempts, so always within the list.
abbrev at : ℕ → List ℕ → ℕ
at i [] = 0
at zero (x ∷ xs) = x
at (suc i) (x ∷ xs) = at i xs

abbrev pub is_pending : DeliveryStatus → Bool
is_pending DeliveryStatus.pending = true
is_pending _ = false

abbrev pub is_due : ℕ → TenantWebhookDelivery → Bool
is_due now d = is_pending d.status && leb d.next_attempt_at now

-- `orderBy: { nextAttemptAt: "asc" }`.
abbrev pub insert : TenantWebhookDelivery → List TenantWebhookDelivery → List TenantWebhookDelivery
insert d [] = d ∷ []
insert d (x ∷ xs) =
    let rest = insert d xs in
    if leb d.next_attempt_at x.next_attempt_at then d ∷ x ∷ xs else x ∷ rest

abbrev pub sort : List TenantWebhookDelivery → List TenantWebhookDelivery
sort [] = []
sort (d ∷ ds) = insert d (sort ds)

abbrev pub has_delivery_id : ℕ → TenantWebhookDelivery → Bool
has_delivery_id id d = d.id == id

abbrev pub update_delivery : ℕ → (TenantWebhookDelivery → TenantWebhookDelivery) → Action (Unit {0})
update_delivery id f =
    modify λ s. record s { webhook_deliveries = update (has_delivery_id id) f s.webhook_deliveries }

abbrev pub give_up_unconfigured : TenantWebhookDelivery → TenantWebhookDelivery
give_up_unconfigured d = record d {
  status = DeliveryStatus.failed;
  last_error = some "tenant webhook is no longer configured";
}

abbrev pub deliver : ℕ → TenantWebhookDelivery → TenantWebhookDelivery
deliver now d = record d { status = DeliveryStatus.delivered; delivered_at = some now }

abbrev pub spend : ℕ → String → TenantWebhookDelivery → TenantWebhookDelivery
spend attempts reason d = record d {
  status = DeliveryStatus.failed;
  attempts = attempts;
  last_error = some reason;
}

abbrev pub postpone : ℕ → ℕ → String → TenantWebhookDelivery → TenantWebhookDelivery
postpone now attempts reason d = record d {
  attempts = attempts;
  last_error = some reason;
  next_attempt_at = now + at (attempts - 1) backoff_seconds * 1000;
}

abbrev pub failed_at : TenantWebhookDelivery → ℕ → String → Bool → Action (Unit {0})
failed_at d attempts reason true = do
  update_delivery d.id (spend attempts reason)
  send_alert (record {
    title = "Tenant webhook delivery failed after all retries";
    severity = critical;
    transaction_id = none;
  })
failed_at d attempts reason false = do
  now ← gets (λ s. s.now)
  update_delivery d.id (postpone now attempts reason)

-- `recordFailure`.
unfoldable pub record_failure : TenantWebhookDelivery → String → Action (Unit {0})
record_failure d reason = failed_at d (d.attempts + 1) reason (leb max_attempts (d.attempts + 1))

-- What `fetch` gives: an answer that is ok, one that is not or an error, by its text.
pub data Response : Type 0 where
  accepted : Response
  refused : String → Response

abbrev pub answered : TenantWebhookDelivery → Response → Action (Unit {0})
answered d accepted = do now ← gets (λ s. s.now); update_delivery d.id (deliver now)
answered d (refused reason) = record_failure d reason

abbrev webhook_of : Option Tenant → Option String × Option String
webhook_of none = (none, none)
webhook_of (some t) = (t.webhook_url, t.webhook_secret_encrypted)

-- A delivery with the webhook of its tenant, as the poll reads them.
abbrev pub with_tenant :
    List Tenant → TenantWebhookDelivery → TenantWebhookDelivery × (Option String × Option String)
with_tenant tenants d = (d, webhook_of (find (is_tenant d.tenant_id) tenants))

abbrev pub due_deliveries : Store → List (TenantWebhookDelivery × (Option String × Option String))
due_deliveries s =
    map (with_tenant s.tenants) (take 20 (sort (filter (is_due s.now) s.webhook_deliveries)))

-- `sign` is the signature by the decrypted secret, `post` the request to the endpoint.
module _ (sign : String → DeliveryPayload → Result String)
    (post : String → String → DeliveryPayload → Response) where
  abbrev post_signed : TenantWebhookDelivery → String → String → Action (Unit {0})
  post_signed d url signature = answered d (post url signature d.payload)

  abbrev deliver_to : TenantWebhookDelivery → Option String → Option String → Action (Unit {0})
  deliver_to d (some url) (some secret) =
      if truthy (some url) && truthy (some secret)
      then (await (sign secret d.payload) >>= post_signed d url)
      else update_delivery d.id give_up_unconfigured
  deliver_to d (some url) none = update_delivery d.id give_up_unconfigured
  deliver_to d none secret = update_delivery d.id give_up_unconfigured

  -- `attemptDelivery`.
  unfoldable pub attempt_delivery :
      TenantWebhookDelivery × (Option String × Option String) → Action (Unit {0})
  attempt_delivery (d, (url, secret)) = deliver_to d url secret

  -- `pollPendingDeliveries`.
  unfoldable pub poll_pending_deliveries : Action (Unit {0})
  poll_pending_deliveries = gets due_deliveries >>= for_each attempt_delivery
