-- ===== src/Reconciliation/Drift/Books.antt =====
-- A detection run keeps the payment tables sound, whatever Safaricom answers.
use script_pay_backend.Shared.{
  ℕ, String, Bool, true, false, Option, none, some, arith, any, str_eq, Bool-cases, inl, inr,
  if◌then◌else◌,
}
use script_pay_backend.Shared.Int.{ℤ}
use script_pay_backend.Store.Rows.{Store, Transaction, TenantShortcode}
use script_pay_backend.Store.Tx.{Result, ok, err}
use script_pay_backend.Store.Action.{Action, finally_do, pure}
use script_pay_backend.Store.Outcomes.{Leaves}
use script_pay_backend.Store.Invariants.{
  Maintains, maintains, transaction-Maintains, pure-Maintains,
}
use script_pay_backend.StateMachine.Soundness.{IsSound, Call, run_call-IsSound}
use script_pay_backend.Payments.Safaricom.{StkPushStatus, PayoutQueryResponse, Daraja}
use script_pay_backend.Reconciliation.Drift.{
  flag_records, apply_verdict, verdict, record_drift_and_reconcile, asks_with, create_status_query,
  flag_payout, announce, check_collection, detect_stuck_transactions, query_with, ask_if_known,
  attempt_status_query, escalate_unflagged, escalate, detect_stuck_payouts, run_detection,
}

flag_records-Maintains : (id : ℕ) → Maintains IsSound (flag_records id)
flag_records-Maintains id = record {
  at = λ s h. record { consistent = h.consistent; fresh = h.fresh };
}

flag_payout-Maintains : (t : Transaction) → Maintains IsSound (flag_payout t)
flag_payout-Maintains t = record {
  at = λ s h. record { consistent = h.consistent; fresh = h.fresh };
}

announce-Maintains : (t : Transaction) → Maintains IsSound (announce t)
announce-Maintains t = record { at = λ s h. record { consistent = h.consistent; fresh = h.fresh } }

apply_verdict-Maintains :
    (id : ℕ) (status : StkPushStatus) (paid : Bool)
    → Maintains IsSound (apply_verdict id status paid)
apply_verdict-Maintains id status true =
    transaction-Maintains _
      (run_call-IsSound (Call.settle_collection id status.mpesa_receipt_number))
apply_verdict-Maintains id status false =
    transaction-Maintains _ (run_call-IsSound (Call.fail_collection id _))

verdict-Maintains :
    (id : ℕ) (status : StkPushStatus) (code : Option ℤ) → Maintains IsSound (verdict id status code)
verdict-Maintains id status none = pure-Maintains tt
verdict-Maintains id status (some code) =
    search (maintains, apply_verdict-Maintains, flag_records-Maintains) depth 6

-- A row of another table takes an id.
create_status_query-Leaves :
    (t : Transaction) (q : PayoutQueryResponse) (s : Store)
    → IsSound s
    → Leaves (λ x. IsSound) (create_status_query t q s)
unfolding create_status_query
create_status_query-Leaves t q s h =
    elim (Bool-cases (any (asks_with q.originator_conversation_id) s.payout_status_queries)) [
      | inl taken ↦ rw taken tt
      | inr new ↦
          rw new (record { consistent = h.consistent; fresh = λ n le. h.fresh n (omega arith) })
    ]

module _ (daraja : Daraja) where
  check_collection-Maintains :
      (t : Transaction) (checkout : Option String)
      → Maintains IsSound (check_collection daraja t checkout)
  unfolding record_drift_and_reconcile
  check_collection-Maintains t none = pure-Maintains tt
  check_collection-Maintains t (some checkout) = elim (Bool-cases (str_eq checkout "")) [
    | inl empty ↦ rw empty (pure-Maintains tt)
    | inr given ↦ rw given (search (maintains, verdict-Maintains) depth 10)
  ]

  detect_stuck_transactions-Maintains : Maintains IsSound (detect_stuck_transactions daraja)
  unfolding detect_stuck_transactions
  detect_stuck_transactions-Maintains = search (maintains, check_collection-Maintains) depth 10

  query_with-Maintains :
      (t : Transaction) (conversation : String) (code : Option TenantShortcode)
      → Maintains IsSound (query_with daraja t conversation code)
  query_with-Maintains t conversation none = pure-Maintains tt
  query_with-Maintains t conversation (some code) =
      search (maintains, create_status_query-Leaves) depth 10

  asked-Maintains :
      (t : Transaction) (conversation : String) (code : Option TenantShortcode) (asked : Bool)
      → Maintains IsSound (if asked then pure tt else query_with daraja t conversation code)
  asked-Maintains t conversation code true = pure-Maintains tt
  asked-Maintains t conversation code false = query_with-Maintains t conversation code

  ask_if_known-Maintains :
      (t : Transaction) (conversation : Option String)
      → Maintains IsSound (ask_if_known daraja t conversation)
  ask_if_known-Maintains t none = pure-Maintains tt
  ask_if_known-Maintains t (some conversation) = elim (Bool-cases (str_eq conversation "")) [
    | inl empty ↦ rw empty (pure-Maintains tt)
    | inr given ↦ rw given (search (maintains, asked-Maintains) depth 10)
  ]

  escalate_unflagged-Maintains :
      (t : Transaction) (flagged : Bool) → Maintains IsSound (escalate_unflagged daraja t flagged)
  unfolding attempt_status_query
  escalate_unflagged-Maintains t true = pure-Maintains tt
  escalate_unflagged-Maintains t false =
      search (maintains, ask_if_known-Maintains, flag_payout-Maintains, announce-Maintains) depth 10

  detect_stuck_payouts-Maintains : Maintains IsSound (detect_stuck_payouts daraja)
  unfolding detect_stuck_payouts escalate
  detect_stuck_payouts-Maintains = search (maintains, escalate_unflagged-Maintains) depth 12

  finally_do-IsSound :
      (m f : Action (Unit {0}))
      → Maintains IsSound m
      → Maintains IsSound f
      → Maintains IsSound (finally_do m f)
  finally_do-IsSound m f hm hf = record {
    at = λ s h. go (m s).0 (f (m s).1) (hf.at (m s).1 (hm.at s h));
  }
    where
      go :
          (r : Result (Unit {0})) (out : Result (Unit {0}) × Store)
          → IsSound out.1
          → IsSound
              (elim out.0 as (λ x. Result (Unit {0}) × Store) [
                | ok x ↦ (r, out.1)
                | err e ↦ (err e, out.1)
              ]).1
      go r (ok x, u) k = k
      go r (err e, u) k = k

  -- A detection run, of collections and then of payouts, keeps the payment tables sound, whatever
  -- Safaricom answers and whichever of its parts throw.
  pub run_detection-IsSound : (s : Store) → IsSound s → IsSound (run_detection daraja s).1
  unfolding run_detection
  run_detection-IsSound s h =
      (finally_do-IsSound (detect_stuck_transactions daraja) (detect_stuck_payouts daraja)
          detect_stuck_transactions-Maintains detect_stuck_payouts-Maintains).at
        s h
