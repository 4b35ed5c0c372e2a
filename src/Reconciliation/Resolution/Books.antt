-- ===== src/Reconciliation/Resolution/Books.antt =====
-- A manual resolution keeps the payment tables sound.
use script_pay_backend.Shared.{ℕ, Bool, true, false, not, Option, none, some, if◌then◌else◌}
use script_pay_backend.Store.Rows.{
  Transaction, AuditEntry, is_outbound, processing, status_eq, manually_resolved, bad_request,
  conflict,
}
use script_pay_backend.Store.Action.{throw, transaction, record_audit}
use script_pay_backend.Store.Invariants.{
  Maintains, maintains, transaction-Maintains, throw-Maintains, pure-Maintains,
}
use script_pay_backend.StateMachine.Soundness.{IsSound, Call, run_call-IsSound}
use script_pay_backend.Reconciliation.Resolution.{
  ResolvePayoutDto, Caller, Verdict, apply, close_records, finish, or_gone, or_not_found,
  resolve_found, resolve_in_flight, resolve,
}

apply-Maintains :
    (id : ℕ) (dto : ResolvePayoutDto) (caller : Caller) (v : Verdict)
    → Maintains IsSound (transaction (apply id dto caller v))
apply-Maintains id dto caller Verdict.settled =
    transaction-Maintains _ (run_call-IsSound (Call.settle_payout id dto.mpesa_receipt_number))
apply-Maintains id dto caller Verdict.failed =
    transaction-Maintains _
      (run_call-IsSound (Call.fail_payout id (manually_resolved caller.name dto.reason)))

or_gone-Maintains : (o : Option Transaction) → Maintains IsSound (or_gone o)
or_gone-Maintains none = throw-Maintains _
or_gone-Maintains (some t) = pure-Maintains t

or_not_found-Maintains : (o : Option Transaction) → Maintains IsSound (or_not_found o)
or_not_found-Maintains none = throw-Maintains _
or_not_found-Maintains (some t) = pure-Maintains t

close_records-Maintains : (t : Transaction) (v : Verdict) → Maintains IsSound (close_records t v)
close_records-Maintains t v = record {
  at = λ s h. record { consistent = h.consistent; fresh = h.fresh };
}

record_audit-Maintains : (e : AuditEntry) → Maintains IsSound (record_audit e)
record_audit-Maintains e = record {
  at = λ s h. record { consistent = h.consistent; fresh = h.fresh };
}

finish-Maintains :
    (t : Transaction) (dto : ResolvePayoutDto) (caller : Caller) (x : Unit {0})
    → Maintains IsSound (finish t dto caller x)
finish-Maintains t dto caller x =
    search (maintains, close_records-Maintains, record_audit-Maintains, or_gone-Maintains) depth 10

in_flight-Maintains :
    (t : Transaction) (dto : ResolvePayoutDto) (caller : Caller) (outgoing waiting : Bool)
    → Maintains IsSound (
        if not outgoing
        then throw bad_request
        else if not waiting
        then throw conflict
        else resolve_in_flight t dto caller)
unfolding resolve_in_flight
in_flight-Maintains t dto caller false waiting = throw-Maintains bad_request
in_flight-Maintains t dto caller true false = throw-Maintains conflict
in_flight-Maintains t dto caller true true =
    search (maintains, apply-Maintains, finish-Maintains) depth 6

resolve_found-Maintains :
    (dto : ResolvePayoutDto) (caller : Caller) (t : Transaction)
    → Maintains IsSound (resolve_found dto caller t)
resolve_found-Maintains dto caller t =
    in_flight-Maintains t dto caller (is_outbound t.direction) (status_eq t.status processing)

-- A manual resolution of any transaction, by anyone, keeps the payment tables sound.
pub resolve-Maintains :
    (id : ℕ) (dto : ResolvePayoutDto) (caller : Caller) → Maintains IsSound (resolve id dto caller)
unfolding resolve
resolve-Maintains id dto caller =
    search (maintains, or_not_found-Maintains, resolve_found-Maintains) depth 10
