-- ===== src/Reconciliation/Resolution.antt =====
-- src/modules/reconciliation/payout-resolution.service.ts: an operator decides a stuck payout.
pub mod Branches
pub mod Books
use script_pay_backend.Shared.{
  ℕ, String, Bool, true, false, not, Option, none, some, update_many, or_default, find,
  if◌then◌else◌,
}
use script_pay_backend.Shared.Int.{ℤ}
use script_pay_backend.Store.Rows.{
  Store, Transaction, processing, status_eq, is_outbound, Reason, manually_resolved,
  ReconciliationRecord, not_found, bad_request, conflict, row_not_found,
}
use script_pay_backend.Store.Tx.{Tx}
use script_pay_backend.Store.Action.{
  Action, pure, throw, gets, modify, transaction, record_audit, ◌>>=◌, ◌>>◌,
}
use script_pay_backend.Store.Tables.{find_transaction, is_record_of}
use script_pay_backend.StateMachine.{transition_payout_to_settled, transition_payout_to_failed}

pub data Verdict : Type 0 where
  settled failed : Verdict

pub record ResolvePayoutDto : Type 0 where
  pub resolution : Verdict
  pub mpesa_receipt_number : Option String
  pub reason : String

-- The caller: the id, and the name that a failure reason carries.
pub record Caller : Type 0 where
  pub id : ℕ
  pub name : String

abbrev or_not_found : Option Transaction → Action Transaction
or_not_found none = throw not_found
or_not_found (some t) = pure t

abbrev or_gone : Option Transaction → Action Transaction
or_gone none = throw row_not_found
or_gone (some t) = pure t

abbrev apply : ℕ → ResolvePayoutDto → Caller → Verdict → Tx (Unit {0})
apply id dto caller settled = transition_payout_to_settled id dto.mpesa_receipt_number
apply id dto caller failed =
    transition_payout_to_failed id (manually_resolved caller.name dto.reason)

abbrev action_name : Verdict → String
action_name settled = "daraja.b2c_settled_manual_resolution"
action_name failed = "daraja.b2c_failed_manual_resolution"

abbrev confirmed : Verdict → ℤ → Option ℤ → Option ℤ
confirmed settled amount old = some amount
confirmed failed amount old = old

abbrev close_record : ℕ → Verdict → ℤ → ReconciliationRecord → ReconciliationRecord
close_record now v amount r = record r {
  reconciled_at = some now;
  confirmed_amount = confirmed v amount r.confirmed_amount;
}

-- `reconciliationRecord.updateMany`.
abbrev close_records : Transaction → Verdict → Action (Unit {0})
close_records t v = modify λ s. record s {
  reconciliation_records =
      update_many (is_record_of t.id) (close_record s.now v t.amount_minor_units)
        s.reconciliation_records;
}

-- The drift flag's record is closed, and the payout is read again.
abbrev finish : Transaction → ResolvePayoutDto → Caller → Unit {0} → Action Transaction
finish t dto caller applied = do
  close_records t dto.resolution
  record_audit (record {
    tenant_id = some t.tenant_id;
    actor_id = some caller.id;
    action = action_name dto.resolution;
    target_id = some t.id;
  })
  row ← gets (find_transaction t.id)
  or_gone row

-- What `resolve` does with a payout that is in flight.
unfoldable pub resolve_in_flight : Transaction → ResolvePayoutDto → Caller → Action Transaction
resolve_in_flight t dto caller =
    transaction (apply t.id dto caller dto.resolution) >>= finish t dto caller

abbrev resolve_found : ResolvePayoutDto → Caller → Transaction → Action Transaction
resolve_found dto caller t =
    if not (is_outbound t.direction)
    then throw bad_request
    else if not (status_eq t.status processing)
    then throw conflict
    else resolve_in_flight t dto caller

-- `resolve`.
unfoldable pub resolve : ℕ → ResolvePayoutDto → Caller → Action Transaction
unfolding resolve_in_flight
resolve id dto caller = do
  row ← gets (find_transaction id)
  t ← or_not_found row
  resolve_found dto caller t
