-- ===== src/Reconciliation/Drift.antt =====
-- src/modules/reconciliation/drift-detector.service.ts: stuck collections are asked about at
-- Safaricom and resolved; stuck payouts are flagged and escalated to a human.
pub mod Flags
pub mod Escalation
pub mod Blocked
pub mod Books
use script_pay_backend.Shared.{
  ℕ, String, Bool, true, false, ◌&&◌, Option, none, some, List, [], ◌∷◌, ◌++◌, ◌+◌, ◌==◌, ltb, find,
  filter, any, take, update, update_many, truthy, or_default, or_else, is_some, not, str_eq,
  if◌then◌else◌,
}
use script_pay_backend.Shared.Int.{ℤ, pos, negsuc}
use script_pay_backend.Store.Rows.{
  Store, Transaction, TransactionChannel, processing, status_eq, is_outbound, Reason, text,
  ReconciliationRecord, PayoutStatusQuery, TenantShortcode, ShortcodeType, Error, unique_violation,
  critical,
}
use script_pay_backend.Store.Tx
use script_pay_backend.Store.Tx.{Tx, Result}
use script_pay_backend.Store.Action.{
  Action, pure, throw, gets, modify, transaction, try_catch, swallow, for_each, finally_do,
  record_audit, send_alert, await, ◌>>=◌, ◌>>◌,
}
use script_pay_backend.Store.Tables.{is_record_of}
use script_pay_backend.StateMachine.{transition_to_settled, transition_to_failed}
use script_pay_backend.Payments.Safaricom.{
  PaymentChannel, StkPushStatus, PayoutQueryResponse, Daraja,
}

abbrev pub stuck_threshold_ms : ℕ
stuck_threshold_ms = 900000

abbrev pub payout_stuck_threshold_ms : ℕ
payout_stuck_threshold_ms = 300000

abbrev pub batch : ℕ
batch = 100

abbrev pub is_stuck_collection : ℕ → Transaction → Bool
is_stuck_collection now t =
    status_eq t.status processing
    && not (is_outbound t.direction)
    && ltb (t.updated_at + stuck_threshold_ms) now

abbrev pub is_stuck_payout : ℕ → Transaction → Bool
is_stuck_payout now t =
    status_eq t.status processing
    && is_outbound t.direction
    && ltb (t.updated_at + payout_stuck_threshold_ms) now

abbrev pub is_zero : ℤ → Bool
is_zero (pos n) = n == 0
is_zero (negsuc n) = false

abbrev pub flag : ReconciliationRecord → ReconciliationRecord
flag r = record r { drift_detected = true }

-- `reconciliationRecord.updateMany({ where: { transactionId }, data: { driftDetected: true } })`.
abbrev pub flag_records : ℕ → Action (Unit {0})
flag_records id = modify λ s. record s {
  reconciliation_records = update_many (is_record_of id) flag s.reconciliation_records;
}

-- A verdict goes through the methods that a callback would call.
abbrev apply_verdict : ℕ → StkPushStatus → Bool → Action (Unit {0})
apply_verdict id status true =
    transaction (Tx.◌>>◌ (transition_to_settled id status.mpesa_receipt_number) (Tx.pure tt))
apply_verdict id status false =
    transaction (
      transition_to_failed id (text (or_default status.result_desc "resolved_via_drift_detection")))

abbrev verdict : ℕ → StkPushStatus → Option ℤ → Action (Unit {0})
verdict id status none = pure tt
verdict id status (some code) = apply_verdict id status (is_zero code) >> flag_records id

-- `recordDriftAndReconcile`.
unfoldable pub record_drift_and_reconcile : ℕ → StkPushStatus → Action (Unit {0})
record_drift_and_reconcile id status = verdict id status status.result_code

abbrev channel_of : TransactionChannel → PaymentChannel
channel_of TransactionChannel.till = PaymentChannel.till
channel_of _ = PaymentChannel.paybill

abbrev pub is_in_flight : ℕ → PayoutStatusQuery → Bool
is_in_flight id q = q.transaction_id == id && not (is_some q.resolved_at)

abbrev is_b2c : ShortcodeType → Bool
is_b2c ShortcodeType.b2c = true
is_b2c _ = false

abbrev is_default_b2c : ℕ → TenantShortcode → Bool
is_default_b2c tenant c = c.tenant_id == tenant && is_b2c c.type && c.is_default

abbrev pub asks_with : String → PayoutStatusQuery → Bool
asks_with id q = str_eq q.query_originator_conversation_id id

-- `payoutStatusQuery.create`, whose `queryOriginatorConversationId` is unique.
unfoldable pub create_status_query : Transaction → PayoutQueryResponse → Tx (Unit {0})
create_status_query t q = Tx.◌>>=◌ Tx.fresh_id λ id.
    Tx.◌>>=◌ (Tx.gets (λ s. s.payout_status_queries)) λ rows.
      Tx.◌>>◌ (Tx.throw_if (any (asks_with q.originator_conversation_id) rows) unique_violation) (
        Tx.modify λ s. record s {
          payout_status_queries =
              s.payout_status_queries
              ++ record {
                id = id;
                tenant_id = t.tenant_id;
                transaction_id = t.id;
                query_originator_conversation_id = q.originator_conversation_id;
                query_conversation_id = q.conversation_id;
                resolved_at = none;
              }
                ∷ [];
        })

abbrev new_flag : Transaction → ReconciliationRecord
new_flag t = record {
  tenant_id = t.tenant_id;
  transaction_id = t.id;
  expected_amount = t.amount_minor_units;
  confirmed_amount = none;
  drift_detected = true;
  reconciled_at = none;
}

-- `reconciliationRecord.upsert`.
abbrev pub flagged_rows : Transaction → List ReconciliationRecord → List ReconciliationRecord
flagged_rows t rows =
    if any (is_record_of t.id) rows
    then update (is_record_of t.id) flag rows
    else rows ++ new_flag t ∷ []

abbrev pub flag_payout : Transaction → Action (Unit {0})
flag_payout t =
    modify λ s. record s { reconciliation_records = flagged_rows t s.reconciliation_records }

abbrev is_flagged : Option ReconciliationRecord → Bool
is_flagged none = false
is_flagged (some r) = r.drift_detected

abbrev pub is_flagged_in : ℕ → Store → Bool
is_flagged_in id s = is_flagged (find (is_record_of id) s.reconciliation_records)

abbrev announce : Transaction → Action (Unit {0})
announce t = do
  record_audit (record {
    tenant_id = some t.tenant_id;
    actor_id = none;
    action = "payout.drift_detected";
    target_id = some t.id;
  })
  send_alert (record {
    title = "Payout stuck in PROCESSING — manual reconciliation needed";
    severity = critical;
    transaction_id = some t.id;
  })

module _ (daraja : Daraja) where
  open daraja use {
    Credentials, payment_credentials, payout_credentials, query_stk_push_status,
    query_payout_status,
  }

  abbrev ask_collection : Transaction → String → Action (Unit {0})
  ask_collection t checkout = do
    credentials ← gets (payment_credentials t.tenant_id (channel_of t.channel))
    c ← await credentials
    status ← await (query_stk_push_status c checkout)
    record_drift_and_reconcile t.id status

  -- One round of the loop of `detectStuckTransactions`.
  abbrev check_collection : Transaction → Option String → Action (Unit {0})
  check_collection t none = pure tt
  check_collection t (some checkout) =
      if str_eq checkout "" then pure tt else try_catch (ask_collection t checkout) swallow

  abbrev check_stuck : Transaction → Action (Unit {0})
  check_stuck t = check_collection t t.checkout_request_id

  unfoldable pub detect_stuck_transactions : Action (Unit {0})
  unfolding record_drift_and_reconcile
  detect_stuck_transactions = do
    rows ← gets (λ s. take batch (filter (is_stuck_collection s.now) s.transactions))
    for_each check_stuck rows

  abbrev query_with : Transaction → String → Option TenantShortcode → Action (Unit {0})
  query_with t conversation none = pure tt
  query_with t conversation (some code) = do
    credentials ← gets (payout_credentials t.tenant_id code.id)
    c ← await credentials
    answer ← await (query_payout_status c conversation)
    transaction (create_status_query t answer)

  abbrev ask_payout : Transaction → String → Action (Unit {0})
  ask_payout t conversation = do
    asked ← gets (λ s. any (is_in_flight t.id) s.payout_status_queries)
    code ← gets (λ s. find (is_default_b2c t.tenant_id) s.shortcodes)
    if asked then pure tt else query_with t conversation code

  abbrev ask_if_known : Transaction → Option String → Action (Unit {0})
  ask_if_known t none = pure tt
  ask_if_known t (some conversation) =
      if str_eq conversation "" then pure tt else try_catch (ask_payout t conversation) swallow

  -- `attemptStatusQuery`.
  unfoldable pub attempt_status_query : Transaction → Action (Unit {0})
  unfolding create_status_query
  attempt_status_query t = ask_if_known t t.originator_conversation_id

  abbrev escalate_unflagged : Transaction → Bool → Action (Unit {0})
  escalate_unflagged t true = pure tt
  escalate_unflagged t false = do attempt_status_query t; flag_payout t; announce t

  -- One round of the loop of `detectStuckPayouts`.
  unfoldable pub escalate : Transaction → Action (Unit {0})
  escalate t = try_catch (gets (is_flagged_in t.id) >>= escalate_unflagged t) swallow

  unfoldable pub detect_stuck_payouts : Action (Unit {0})
  detect_stuck_payouts = do
    rows ← gets (λ s. take batch (filter (is_stuck_payout s.now) s.transactions))
    for_each escalate rows

  unfoldable pub run_detection : Action (Unit {0})
  run_detection = finally_do detect_stuck_transactions detect_stuck_payouts
