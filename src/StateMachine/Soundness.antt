-- ===== src/StateMachine/Soundness.antt =====
-- The invariant of the payment tables, kept by every transition of the state machine and so by any
-- sequence of them, and what it says of the balance that a payout is checked against.
use script_pay_backend.Shared.{
  ℕ, String, Option, List, [], ◌∷◌, ◌≡◌, refl, ◌∙◌, ap, if◌then◌else◌, ◌==◌,
}
use script_pay_backend.Shared.Int.{ℤ, pos, ◌+ℤ◌, sum_of}
use script_pay_backend.Store.Rows.{
  Store, Transaction, TransactionChannel, Reason, LedgerAccount, tenant_balance,
}
use script_pay_backend.Store.Tx
use script_pay_backend.Store.Tx.{Tx, Result, ok, err}
use script_pay_backend.Store.Action.{transaction, committed}
use script_pay_backend.Ledger.{available_balance}
use script_pay_backend.Ledger.Balance.{
  Selection, IsConsistent, holding, owed, of_tenant, available_balance-eq-sum,
}
use script_pay_backend.StateMachine.{
  transition_to_settled, transition_to_failed, transition_payout_to_settled,
  transition_payout_to_failed, record_inbound_settlement,
}
use script_pay_backend.StateMachine.Consistency.{
  Keeps, AgreesAt, transition_to_settled-AgreesAt, transition_to_failed-AgreesAt,
  transition_payout_to_settled-AgreesAt, transition_payout_to_failed-AgreesAt,
  record_inbound_settlement-AgreesAt,
}
use script_pay_backend.StateMachine.Fresh.{
  IsFresh, FreshAt, transition_to_settled-FreshAt, transition_to_failed-FreshAt,
  transition_payout_to_settled-FreshAt, transition_payout_to_failed-FreshAt,
  record_inbound_settlement-FreshAt,
}

-- The ledger agrees with the statuses in every account, and no id is handed out twice.
pub record IsSound (s : Store) : Type 0 where
  pub consistent : IsConsistent s
  pub fresh : IsFresh s

-- A transaction keeps the invariant if it keeps it at each selection, account and id.
pub Keeps-IsSound :
    {A : Type 0} (r : Result (A × Store))
    → ((sel : Selection) (a : LedgerAccount) → Keeps (AgreesAt sel a) r)
    → ((n : ℕ) → Keeps (FreshAt n) r)
    → Keeps IsSound r
Keeps-IsSound (ok (x, s)) agrees fresh = record { consistent = agrees; fresh = fresh }
Keeps-IsSound (err e) agrees fresh = tt

-- A call of the state machine.
pub data Call : Type 0 where
  settle_collection : ℕ → Option String → Call
  fail_collection : ℕ → Reason → Call
  settle_payout : ℕ → Option String → Call
  fail_payout : ℕ → Reason → Call
  record_inbound : ℕ → TransactionChannel → ℤ → String → String → Call

abbrev pub run_call : Call → Tx (Unit {0})
run_call (Call.settle_collection id r) = Tx.◌>>◌ (transition_to_settled id r) (Tx.pure tt)
run_call (Call.fail_collection id reason) = transition_to_failed id reason
run_call (Call.settle_payout id r) = transition_payout_to_settled id r
run_call (Call.fail_payout id reason) = transition_payout_to_failed id reason
run_call (Call.record_inbound tenant channel amount msisdn receipt) =
    Tx.◌>>◌ (record_inbound_settlement tenant channel amount msisdn receipt) (Tx.pure tt)

-- The store after each call in turn; a call that throws is rolled back.
abbrev pub run_calls : List Call → Store → Store
run_calls [] s = s
run_calls (c ∷ cs) s = run_calls cs (transaction (run_call c) s).1

pub Keeps-void :
    {A : Type 0} (P : Store → Type 0) (r : Result (A × Store))
    → Keeps P r
    → Keeps {A = Unit {0}} P (elim r [ ok (x, s) ↦ ok (tt, s) | err e ↦ err e ])
Keeps-void P (ok (x, s)) h = h
Keeps-void P (err e) h = tt

pub run_call-IsSound : (c : Call) (s : Store) → IsSound s → Keeps IsSound (run_call c s)
run_call-IsSound (Call.settle_collection id r) s h =
    Keeps-void IsSound (transition_to_settled id r s) (
      Keeps-IsSound _ (λ sel a. transition_to_settled-AgreesAt sel a id r s (h.consistent sel a))
        (λ n. transition_to_settled-FreshAt n id r s (h.fresh n)))
run_call-IsSound (Call.fail_collection id reason) s h =
    Keeps-IsSound _ (λ sel a. transition_to_failed-AgreesAt sel a id reason s (h.consistent sel a))
      (λ n. transition_to_failed-FreshAt n id reason s (h.fresh n))
run_call-IsSound (Call.settle_payout id r) s h =
    Keeps-IsSound _
      (λ sel a. transition_payout_to_settled-AgreesAt sel a id r s (h.consistent sel a))
      (λ n. transition_payout_to_settled-FreshAt n id r s (h.fresh n))
run_call-IsSound (Call.fail_payout id reason) s h =
    Keeps-IsSound _
      (λ sel a. transition_payout_to_failed-AgreesAt sel a id reason s (h.consistent sel a))
      (λ n. transition_payout_to_failed-FreshAt n id reason s (h.fresh n))
run_call-IsSound (Call.record_inbound tenant channel amount msisdn receipt) s h =
    Keeps-void IsSound (record_inbound_settlement tenant channel amount msisdn receipt s) (
      Keeps-IsSound _
        (λ sel a.
          record_inbound_settlement-AgreesAt sel a tenant channel amount msisdn receipt s
            (h.consistent sel a))
        (λ n.
          record_inbound_settlement-FreshAt n tenant channel amount msisdn receipt s (h.fresh n)))

-- What a committed or rolled back transaction leaves.
pub transaction-keeps :
    {A : Type 0} (P : Store → Type 0) (m : Tx A) (s : Store)
    → Keeps P (m s)
    → P s
    → P (transaction m s).1
transaction-keeps {A} P m s h before = go (m s) h
  where
    go : (r : Result (A × Store)) → Keeps P r → P (committed s r).1
    go (ok (x, t)) k = k
    go (err e) k = before

-- The payment tables stay sound under any sequence of calls of the state machine, by callbacks,
-- jobs and operators in any order, the calls that throw included: in every account, for every
-- choice of tenants and transactions, the entries add up to what the statuses demand.
pub run_calls-IsSound : (cs : List Call) (s : Store) → IsSound s → IsSound (run_calls cs s)
run_calls-IsSound [] s h = h
run_calls-IsSound (c ∷ cs) s h =
    run_calls-IsSound cs (transaction (run_call c) s).1
      (transaction-keeps IsSound (run_call c) s (run_call-IsSound c s h) h)

-- The money that a tenant may spend, by the statuses alone: its settled collections, less its
-- payouts that are pending, processing or settled.
abbrev pub spendable : ℕ → List Transaction → ℤ
spendable tenant [] = pos 0
spendable tenant (t ∷ ts) =
    (if t.tenant_id == tenant
      then holding tenant_balance t.direction t.status t.amount_minor_units
      else pos 0)
    +ℤ spendable tenant ts

sum_of-owed-eq-spendable :
    (tenant : ℕ) (ts : List Transaction)
    → sum_of (owed (of_tenant tenant) tenant_balance) ts ≡ spendable tenant ts
sum_of-owed-eq-spendable tenant [] = refl
sum_of-owed-eq-spendable tenant (t ∷ ts) =
    ap (λ rest. owed (of_tenant tenant) tenant_balance t +ℤ rest)
      (sum_of-owed-eq-spendable tenant ts)

-- In a sound store the balance that `availableBalance` reads off the ledger is what the statuses
-- of the tenant's transactions make it.
pub available_balance-eq-spendable :
    (tenant : ℕ) (s : Store)
    → IsSound s
    → available_balance tenant s ≡ spendable tenant s.transactions
available_balance-eq-spendable tenant s h =
    available_balance-eq-sum tenant s
    ∙ h.consistent (of_tenant tenant) tenant_balance
    ∙ sum_of-owed-eq-spendable tenant s.transactions
