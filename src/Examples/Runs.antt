-- ===== src/Examples/Runs.antt =====
-- Runs of the services on the small store, each by the theorem that speaks of it.
use script_pay_backend.Shared.{
  ℕ, arith, String, false, Option, none, some, List, [], ◌∷◌, ◌≡◌, refl,
}
use script_pay_backend.Shared.Int.{pos, ◌-ℤ◌, ◌≤ℤ◌, ◌+ℤ◌}
use script_pay_backend.Store.Rows.{
  Store, Transaction, TransactionChannel, TransactionStatus, text, new_transaction,
}
use script_pay_backend.Store.Tx.{Result, ok, err}
use script_pay_backend.Store.Tables.{find_transaction, update_transaction}
use script_pay_backend.Store.Updates.{find-append_some}
use script_pay_backend.Ledger.{available_balance, assert_sufficient_balance}
use script_pay_backend.StateMachine.{
  transition_to_settled, transition_payout_to_settled, fail_with, settle_again, settle_payout,
  transition_payout_to_failed, record_inbound_settlement,
}
use script_pay_backend.StateMachine.Consistency.{Keeps}
use script_pay_backend.StateMachine.Soundness.{
  IsSound, Call, run_call, run_calls, run_calls-IsSound, Keeps-void, transaction-keeps,
  available_balance-eq-spendable,
}
use script_pay_backend.StateMachine.Progress.{Follows, Shows, run_call-Follows}
use script_pay_backend.StateMachine.Redelivery.{
  transition_to_settled_redelivered, transition_payout_to_settled_redelivered,
}
use script_pay_backend.Payments.Safaricom.{CommandId, Elsewhere}
use script_pay_backend.Payments.B2c
use script_pay_backend.Payments.B2c.{InitiateB2cDto, reserve, accept}
use script_pay_backend.Payments.B2c.Races.{accept_after_failure}
use script_pay_backend.Payments.B2c.Authorization.{reserve_never_overdraws}
use script_pay_backend.Payments.B2c.Requests.{initiate-IsSound}
use script_pay_backend.Payments.B2c.Requests as PayoutRequests
use script_pay_backend.Examples.{books, books-IsSound, sale, payout, safaricom}

abbrev receipt : Option String
receipt = some "RPAID"

-- The store that a transaction leaves.
abbrev left_by : {A : Type 0} → Result (A × Store) → Store
left_by (ok (x, u)) = u
left_by (err e) = books

abbrev calls : List Call
calls =
    Call.settle_payout 2 receipt
    ∷ Call.fail_payout 2 (text "late timeout")
    ∷ Call.record_inbound 7 TransactionChannel.paybill (pos 2500) "254700000003" "RBILL"
    ∷ []

run_calls-IsSound_example : IsSound (run_calls calls books)
run_calls-IsSound_example = run_calls-IsSound calls books books-IsSound

available_balance-eq-spendable_example : available_balance 7 books ≡ pos 6000
unfolding ◌+ℤ◌ ◌-ℤ◌
available_balance-eq-spendable_example = available_balance-eq-spendable 7 books books-IsSound

abbrev order : InitiateB2cDto
order = record {
  shortcode_id = 1;
  msisdn = "254700000004";
  amount_minor_units = pos 5000;
  remarks = "wages";
  occasion = none;
  command_id = CommandId.salary_payment;
  metadata = none;
  idempotency_key = some "wages-1";
}

abbrev ordered : Transaction
ordered = record (B2c.new_payout 7 order "conversation-3") { id = 3; updated_at = 1000000 }

abbrev reserved_store : Store
unfolding reserve assert_sufficient_balance available_balance ◌-ℤ◌ ◌+ℤ◌
reserved_store = left_by (reserve 7 order "conversation-3" books)

reserve_never_overdraws_example :
    (pos 1 ≤ℤ pos 5000)
    × (pos 5000 ≤ℤ available_balance 7 books)
    × (available_balance 7 reserved_store ≡ available_balance 7 books -ℤ pos 5000)
    × (pos 0 ≤ℤ available_balance 7 reserved_store)
unfolding reserve assert_sufficient_balance available_balance ◌-ℤ◌ ◌+ℤ◌
reserve_never_overdraws_example =
    reserve_never_overdraws 7 order "conversation-3" books ordered reserved_store refl

-- A customer pays by Paybill while the payout is being requested.
abbrev pays_in : List Call
pays_in = Call.record_inbound 7 TransactionChannel.paybill (pos 2500) "254700000003" "RBILL" ∷ []

record_inbound-Keeps :
    (n : ℕ) (t : Transaction) (s : Store)
    → find_transaction n s ≡ some t
    → Keeps
        (λ u. find_transaction n u ≡ some t)
        (record_inbound_settlement 7 TransactionChannel.paybill (pos 2500) "254700000003" "RBILL" s)
unfolding record_inbound_settlement
record_inbound-Keeps n t s found =
    let d = new_transaction 7 TransactionChannel.paybill (pos 2500) "254700000003" in
    let x = record d {
      id = s.next_id;
      status = TransactionStatus.settled;
      mpesa_receipt_number = some "RBILL";
      updated_at = s.now;
    } in
    ground (arith, found, find-append_some n t s.transactions (x ∷ []))

pays_in_keeps :
    (n : ℕ) (t : Transaction) (s : Store)
    → find_transaction n s ≡ some t
    → find_transaction n (run_calls pays_in s) ≡ some t
pays_in_keeps n t s found =
    let c = Call.record_inbound 7 TransactionChannel.paybill (pos 2500) "254700000003" "RBILL" in
    transaction-keeps (λ u. find_transaction n u ≡ some t) (run_call c) s
      (Keeps-void (λ u. find_transaction n u ≡ some t) _ (record_inbound-Keeps n t s found)) found

abbrev customers : Elsewhere
customers = record { before_write = λ s. s; during_call = run_calls pays_in }

customers-IsOrderly : PayoutRequests.IsOrderly customers 7
customers-IsOrderly = record {
  keeps_before = λ s h. h;
  keeps_during = run_calls-IsSound pays_in;
  leaves_alone = λ t s w. record {
    there = pays_in_keeps t.id t s w.there;
    is_payout = w.is_payout;
    is_pending = w.is_pending;
    owned = w.owned;
  };
}

initiate-IsSound_example :
    IsSound (B2c.initiate safaricom customers 7 order (some 1) "conversation-3" books).1
initiate-IsSound_example =
    initiate-IsSound safaricom customers 7 order (some 1) "conversation-3" books customers-IsOrderly
      books-IsSound

abbrev failed_store : Store
unfolding reserve assert_sufficient_balance available_balance ◌-ℤ◌ ◌+ℤ◌ transition_payout_to_failed
failed_store = left_by (transition_payout_to_failed 3 (text "declined") reserved_store)

abbrev accepted_store : Store
unfolding reserve assert_sufficient_balance available_balance ◌-ℤ◌ ◌+ℤ◌ transition_payout_to_failed
    update_transaction
accepted_store = left_by (update_transaction 3 (accept (some "AG_1")) failed_store)

accept_after_failure_example :
    (w : Transaction) × (find_transaction 3 accepted_store ≡ some w)
    × (w.status ≡ TransactionStatus.processing)
    × (w.conversation_id ≡ some "AG_1")
    × (available_balance 7 accepted_store ≡ available_balance 7 reserved_store +ℤ pos 5000)
unfolding reserve assert_sufficient_balance available_balance ◌-ℤ◌ ◌+ℤ◌ transition_payout_to_failed
    update_transaction
accept_after_failure_example =
    accept_after_failure ordered _ (text "declined") "AG_1" reserved_store failed_store
      accepted_store refl refl refl

abbrev sale_again : Store
unfolding transition_to_settled settle_again
sale_again = left_by (transition_to_settled 1 (some "RSALE") books)

transition_to_settled_redelivered_example :
    transition_to_settled 1 (some "RSALE") sale_again ≡ ok (false, sale_again)
unfolding transition_to_settled settle_again
transition_to_settled_redelivered_example =
    transition_to_settled_redelivered 1 (some "RSALE") books false sale_again refl

abbrev paid_out : Store
unfolding transition_payout_to_settled settle_payout
paid_out = left_by (transition_payout_to_settled 2 receipt books)

transition_payout_to_settled_redelivered_example :
    transition_payout_to_settled 2 receipt paid_out ≡ ok (tt, paid_out)
unfolding transition_payout_to_settled settle_payout
transition_payout_to_settled_redelivered_example =
    transition_payout_to_settled_redelivered 2 receipt books paid_out refl

run_call-Follows_example :
    Keeps
      (λ u. Shows (Follows payout) (find_transaction 2 u))
      (run_call (Call.settle_payout 2 receipt) books)
run_call-Follows_example = run_call-Follows 2 payout books refl (Call.settle_payout 2 receipt)

abbrev refused : Store
refused = record books { transactions = sale ∷ fail_with (text "no") payout ∷ [] }
