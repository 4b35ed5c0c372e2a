-- ===== src/StateMachine.antt =====
-- src/modules/payments/transaction-state-machine.ts. Each method is one database transaction that
-- takes the row's lock before it reads, so it is one step of `Tx`.
pub mod Consistency
pub mod Fresh
pub mod Soundness
pub mod Redelivery
pub mod Progress
use script_pay_backend.Shared.{
  ℕ, String, Bool, true, false, not, ◌&&◌, ◌||◌, Option, none, some, List, [], ◌∷◌, find, any,
  or_else, truthy, same_text, ◌++◌, if◌then◌else◌,
}
use script_pay_backend.Shared.Int.{ℤ}
use script_pay_backend.Store.Rows.{
  Store, Transaction, TransactionChannel, TransactionStatus, pending, processing, settled, failed,
  reversed, status_eq, is_outbound, Reason, LedgerEntry, tenant_balance, pending_settlement, debit,
  credit, Tenant, TenantWebhookDelivery, DeliveryStatus, new_transaction, wrong_direction,
  different_receipt, illegal_transition,
}
use script_pay_backend.Store.Tx.{Tx, pure, throw, throw_if, gets, modify, fresh_id, ◌>>=◌, ◌>>◌}
use script_pay_backend.Store.Tables.{
  find_unique_or_throw, update_transaction, create_transaction, create_ledger_entries,
  create_reconciliation,
}
use script_pay_backend.Ledger.{entry, settlement_entries, release_entries, is_tenant}

-- `ALLOWED_TRANSITIONS`.
abbrev pub allowed_transitions : TransactionStatus → List TransactionStatus
allowed_transitions pending = processing ∷ failed ∷ []
allowed_transitions processing = settled ∷ failed ∷ []
allowed_transitions settled = reversed ∷ []
allowed_transitions failed = []
allowed_transitions reversed = []

abbrev pub is_allowed : TransactionStatus → TransactionStatus → Bool
is_allowed from to = any (status_eq to) (allowed_transitions from)

unfoldable pub assert_transition_allowed : TransactionStatus → TransactionStatus → Tx (Unit {0})
assert_transition_allowed from to = throw_if (not (is_allowed from to)) illegal_transition

unfoldable pub assert_not_outbound : Transaction → Tx (Unit {0})
assert_not_outbound t = throw_if (is_outbound t.direction) wrong_direction

unfoldable pub assert_outbound : Transaction → Tx (Unit {0})
assert_outbound t = throw_if (not (is_outbound t.direction)) wrong_direction

abbrev webhook_url_of : Option Tenant → Option String
webhook_url_of none = none
webhook_url_of (some t) = t.webhook_url

abbrev pub tenant_webhook_url : ℕ → Store → Option String
tenant_webhook_url tenant s = webhook_url_of (find (is_tenant tenant) s.tenants)

-- The delivery row; the transaction is the one that was read before the update.
abbrev pub new_delivery :
    ℕ → ℕ → Transaction → TransactionStatus → Option String → TenantWebhookDelivery
new_delivery id now t status receipt = record {
  id = id;
  tenant_id = t.tenant_id;
  transaction_id = t.id;
  payload = record {
    transaction_id = t.id;
    status = status;
    direction = t.direction;
    channel = t.channel;
    mpesa_receipt_number = or_else receipt t.mpesa_receipt_number;
    amount_minor_units = t.amount_minor_units;
    metadata = t.metadata;
    occurred_at = now;
  };
  status = DeliveryStatus.pending;
  attempts = 0;
  next_attempt_at = now;
  last_error = none;
  delivered_at = none;
}

-- `enqueueWebhookDelivery`, with the tenant's url as it was read with the transaction.
unfoldable pub enqueue_webhook_delivery :
    Option String → Transaction → TransactionStatus → Option String → Tx (Unit {0})
enqueue_webhook_delivery url t status receipt =
    if truthy url
    then (do
      id ← fresh_id
      now ← gets (λ s. s.now)
      let d = new_delivery id now t status receipt
      modify (λ s. record s { webhook_deliveries = s.webhook_deliveries ++ d ∷ [] }))
    else pure tt

-- An `undefined` receipt leaves the column as it is.
abbrev pub confirm : Option String → Transaction → Transaction
confirm receipt t = record t {
  status = settled;
  mpesa_receipt_number = or_else receipt t.mpesa_receipt_number;
}

abbrev pub backfill : Option String → Transaction → Transaction
backfill receipt t = record t { mpesa_receipt_number = receipt }

abbrev pub fail_with : Reason → Transaction → Transaction
fail_with reason t = record t { status = failed; failure_reason = some reason }

-- A settled row is confirmed again: back-fill the receipt, ignore a duplicate, refuse another.
unfoldable pub settle_again : Transaction → Option String → Tx Bool
unfolding update_transaction
settle_again t receipt =
    if not (truthy t.mpesa_receipt_number) && truthy receipt
    then (do update_transaction t.id (backfill receipt); pure false)
    else if not (truthy receipt) || same_text t.mpesa_receipt_number receipt
    then pure false
    else throw different_receipt

abbrev pub collection_entries : ℕ → ℕ → ℤ → List LedgerEntry
collection_entries tenant tx amount =
    entry tenant tx tenant_balance credit amount
    ∷ entry tenant tx pending_settlement debit amount
    ∷ []

abbrev pub reconcile : Transaction → Tx (Unit {0})
unfolding create_reconciliation
reconcile t = do
  now ← gets (λ s. s.now)
  create_reconciliation (record {
    tenant_id = t.tenant_id;
    transaction_id = t.id;
    expected_amount = t.amount_minor_units;
    confirmed_amount = some t.amount_minor_units;
    drift_detected = false;
    reconciled_at = some now;
  })

-- A collection that Safaricom confirms for the first time.
unfoldable pub settle_collection : Option String → Transaction → Option String → Tx Bool
unfolding assert_transition_allowed update_transaction create_ledger_entries reconcile
    enqueue_webhook_delivery
settle_collection url t receipt = do
  assert_transition_allowed t.status settled
  update_transaction t.id (confirm receipt)
  create_ledger_entries (collection_entries t.tenant_id t.id t.amount_minor_units)
  reconcile t
  enqueue_webhook_delivery url t settled receipt
  pure true

-- `transitionToSettled`: whether this call made the transition.
unfoldable pub transition_to_settled : ℕ → Option String → Tx Bool
unfolding find_unique_or_throw assert_not_outbound
transition_to_settled id receipt = do
  t ← find_unique_or_throw id
  url ← gets (tenant_webhook_url t.tenant_id)
  assert_not_outbound t
  if status_eq t.status settled then settle_again t receipt else settle_collection url t receipt

-- `transitionToFailed`.
unfoldable pub transition_to_failed : ℕ → Reason → Tx (Unit {0})
unfolding find_unique_or_throw assert_not_outbound assert_transition_allowed update_transaction
    enqueue_webhook_delivery
transition_to_failed id reason = do
  t ← find_unique_or_throw id
  url ← gets (tenant_webhook_url t.tenant_id)
  assert_not_outbound t
  assert_transition_allowed t.status failed
  update_transaction id (fail_with reason)
  enqueue_webhook_delivery url t failed none

-- A payout that Safaricom confirms for the first time: the reservation is discharged.
unfoldable pub settle_payout : Option String → Transaction → Option String → Tx (Unit {0})
unfolding assert_transition_allowed update_transaction create_ledger_entries reconcile
    enqueue_webhook_delivery settlement_entries
settle_payout url t receipt = do
  assert_transition_allowed t.status settled
  update_transaction t.id (confirm receipt)
  create_ledger_entries (settlement_entries t.tenant_id t.id t.amount_minor_units)
  reconcile t
  enqueue_webhook_delivery url t settled receipt

-- `transitionPayoutToSettled`.
unfoldable pub transition_payout_to_settled : ℕ → Option String → Tx (Unit {0})
unfolding find_unique_or_throw assert_outbound
transition_payout_to_settled id receipt = do
  t ← find_unique_or_throw id
  url ← gets (tenant_webhook_url t.tenant_id)
  assert_outbound t
  if status_eq t.status settled
      then (settle_again t receipt >> pure tt)
      else settle_payout url t receipt

-- `transitionPayoutToFailed`: the reservation is released.
unfoldable pub transition_payout_to_failed : ℕ → Reason → Tx (Unit {0})
unfolding find_unique_or_throw assert_outbound assert_transition_allowed update_transaction
    create_ledger_entries release_entries enqueue_webhook_delivery
transition_payout_to_failed id reason = do
  t ← find_unique_or_throw id
  url ← gets (tenant_webhook_url t.tenant_id)
  assert_outbound t
  assert_transition_allowed t.status failed
  update_transaction id (fail_with reason)
  create_ledger_entries (release_entries t.tenant_id t.id t.amount_minor_units)
  enqueue_webhook_delivery url t failed none

-- `recordInboundSettlement`: a Paybill or Till payment is recorded already settled.
unfoldable pub record_inbound_settlement :
    ℕ → TransactionChannel → ℤ → String → String → Tx Transaction
unfolding create_transaction create_ledger_entries reconcile
record_inbound_settlement tenant channel amount msisdn receipt = do
  let d = new_transaction tenant channel amount msisdn
  t ← create_transaction (record d { status = settled; mpesa_receipt_number = some receipt })
  create_ledger_entries (collection_entries tenant t.id amount)
  reconcile t
  pure t
