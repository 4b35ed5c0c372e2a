-- ===== src/Payments/B2c/Races.antt =====
-- A result callback that overtakes the answer to the request it is about.
use script_pay_backend.Shared.{
  ℕ, String, some, ◌++◌, ◌≡◌, refl, arith, ap, sym, ◌∙◌, find-update_self,
}
use script_pay_backend.Shared.Int.{ℤ, ◌+ℤ◌, sum_of, sum_of-append, int_laws}
use script_pay_backend.Store.Rows.{Store, Transaction, Reason, processing, tenant_balance, has_id}
use script_pay_backend.Store.Tx.{ok}
use script_pay_backend.Store.Tables.{find_transaction, stamped, update_transaction}
use script_pay_backend.Ledger.{available_balance, release_entries}
use script_pay_backend.Ledger.Balance.{effect, of_tenant, available_balance-eq-sum}
use script_pay_backend.StateMachine.{fail_with, transition_payout_to_failed}
use script_pay_backend.Payments.B2c.{accept}

module _ (t : Transaction) (reason : Reason) (s u : Store)
    (found : find_transaction t.id s ≡ some t) where
  failed_wrote :
      transition_payout_to_failed t.id reason s ≡ ok (tt, u)
      → (u.ledger_entries
          ≡ s.ledger_entries ++ release_entries t.tenant_id t.id t.amount_minor_units)
        × (find_transaction t.id u ≡ some (stamped s.now (fail_with reason) t))
  unfolding transition_payout_to_failed
  failed_wrote h = ground (
    arith,
    found,
    find-update_self (has_id t.id) (stamped s.now (fail_with reason)) t s.transactions found,
  )

accepted_wrote :
    (t x : Transaction) (answer : String) (u v : Store)
    → find_transaction t.id u ≡ some t
    → update_transaction t.id (accept (some answer)) u ≡ ok (x, v)
    → (v.ledger_entries ≡ u.ledger_entries)
      × (find_transaction t.id v ≡ some (stamped u.now (accept (some answer)) t))
unfolding update_transaction
accepted_wrote t x answer u v found h = ground (
  arith,
  found,
  find-update_self (has_id t.id) (stamped u.now (accept (some answer))) t u.transactions found,
)

credited :
    (tenant id : ℕ) (amount : ℤ)
    → sum_of (effect (of_tenant tenant) tenant_balance) (release_entries tenant id amount) ≡ amount
unfolding release_entries
credited tenant id amount = grind int_laws

released_balance :
    (tenant id : ℕ) (amount : ℤ) (s v : Store)
    → v.ledger_entries ≡ s.ledger_entries ++ release_entries tenant id amount
    → available_balance tenant v ≡ available_balance tenant s +ℤ amount
released_balance tenant id amount s v wrote =
    available_balance-eq-sum tenant v
    ∙ ap (sum_of (effect (of_tenant tenant) tenant_balance)) wrote
    ∙ sum_of-append (effect (of_tenant tenant) tenant_balance) s.ledger_entries
        (release_entries tenant id amount)
    ∙ ap
        (λ x.
          x +ℤ sum_of (effect (of_tenant tenant) tenant_balance) (release_entries tenant id amount))
        (sym (available_balance-eq-sum tenant s))
    ∙ ap (λ x. available_balance tenant s +ℤ x) (credited tenant id amount)

-- If the result callback of a payout fails it while the request still waits for the answer of
-- Safaricom, and the answer is then stored, the payout stands in PROCESSING under the conversation
-- of the answer although its reservation was released: its amount is back in the tenant's balance.
pub accept_after_failure :
    (t x : Transaction) (reason : Reason) (answer : String) (s u v : Store)
    → find_transaction t.id s ≡ some t
    → transition_payout_to_failed t.id reason s ≡ ok (tt, u)
    → update_transaction t.id (accept (some answer)) u ≡ ok (x, v)
    → (w : Transaction) × (find_transaction t.id v ≡ some w)
      × (w.status ≡ processing)
      × (w.conversation_id ≡ some answer)
      × (available_balance t.tenant_id v ≡ available_balance t.tenant_id s +ℤ t.amount_minor_units)
accept_after_failure t x reason answer s u v found failing accepting =
    let (released, there) = failed_wrote t reason s u found failing in
    let (kept, stands) =
      accepted_wrote (stamped s.now (fail_with reason) t) x answer u v there accepting in
    (
      _,
      stands,
      refl,
      refl,
      released_balance t.tenant_id t.id t.amount_minor_units s v (kept ∙ released),
    )
