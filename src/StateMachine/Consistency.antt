-- ===== src/StateMachine/Consistency.antt =====
-- The ledger agrees with the statuses of the transactions after every transition.
use mathlib.Core.List.{append-nil}
use script_pay_backend.Shared.{
  ℕ, String, true, Option, some, List, [], ◌∷◌, ◌++◌, ◌≡◌, arith, Option-cases, inl, inr, update,
}
use script_pay_backend.Shared.Int.{ℤ, ◌+ℤ◌, int_laws, sum_of, sum_of-append, agree_after_add}
use script_pay_backend.Store.Rows.{
  Store, Transaction, TransactionChannel, LedgerEntry, new_transaction, LedgerAccount, Reason,
  has_id, inbound, outbound, processing, settled, failed,
}
use script_pay_backend.Store.Tx.{Result}
use script_pay_backend.Store.Outcomes.{Leaves}
use script_pay_backend.Store.Tables.{find_transaction, stamped}
use script_pay_backend.Store.Updates.{found_at_own_id}
use script_pay_backend.Ledger.{release_entries, settlement_entries}
use script_pay_backend.Ledger.Balance.{Selection, effect, owed, Matches-update}
use script_pay_backend.StateMachine.{
  confirm, fail_with, backfill, collection_entries, is_allowed, settle_again, settle_collection,
  settle_payout, transition_to_settled, transition_to_failed, transition_payout_to_settled,
  tenant_webhook_url, transition_payout_to_failed, record_inbound_settlement,
}

-- What holds of the store that a transaction leaves, if it leaves one.
abbrev pub Keeps : {A : Type 0} → (Store → Type 0) → Result (A × Store) → Type 0
Keeps P = Leaves (λ x. P)

module _ (sel : Selection) (a : LedgerAccount) where
  abbrev pub AgreesAt : Store → Type 0
  AgreesAt s = sum_of (effect sel a) s.ledger_entries ≡ sum_of (owed sel a) s.transactions

  confirm_collection-owed :
      (now : ℕ) (r : Option String) (t : Transaction)
      → t.direction ≡ inbound
      → t.status ≡ processing
      → sum_of (effect sel a) (collection_entries t.tenant_id t.id t.amount_minor_units)
          +ℤ owed sel a t
        ≡ owed sel a (stamped now (confirm r) t)
  confirm_collection-owed now r t d p = grind int_laws

  confirm_payout-owed :
      (now : ℕ) (r : Option String) (t : Transaction)
      → t.direction ≡ outbound
      → t.status ≡ processing
      → sum_of (effect sel a) (settlement_entries t.tenant_id t.id t.amount_minor_units)
          +ℤ owed sel a t
        ≡ owed sel a (stamped now (confirm r) t)
  unfolding settlement_entries
  confirm_payout-owed now r t d p = grind int_laws

  settle_collection-AgreesAt :
      (url : Option String) (t : Transaction) (r : Option String) (s : Store)
      → find_transaction t.id s ≡ some t
      → t.direction ≡ inbound
      → AgreesAt s
      → Keeps AgreesAt (settle_collection url t r s)
  unfolding settle_collection
  settle_collection-AgreesAt url t r s found d h = ground (
    arith,
    confirm_collection-owed s.now r t d,
    Matches-update sel a (has_id t.id) (stamped s.now (confirm r)) t s.transactions s.ledger_entries
        (collection_entries t.tenant_id t.id t.amount_minor_units) found,
  )

  settle_payout-AgreesAt :
      (url : Option String) (t : Transaction) (r : Option String) (s : Store)
      → find_transaction t.id s ≡ some t
      → t.direction ≡ outbound
      → AgreesAt s
      → Keeps AgreesAt (settle_payout url t r s)
  unfolding settle_payout
  settle_payout-AgreesAt url t r s found d h = ground (
    arith,
    confirm_payout-owed s.now r t d,
    Matches-update sel a (has_id t.id) (stamped s.now (confirm r)) t s.transactions s.ledger_entries
        (settlement_entries t.tenant_id t.id t.amount_minor_units) found,
  )

  -- An update that leaves tenant, id, direction, status and amount alone owes the same.
  pub quiet_update-AgreesAt :
      (f : Transaction → Transaction) (t : Transaction) (s : Store)
      → find_transaction t.id s ≡ some t
      → owed sel a (f t) ≡ owed sel a t
      → AgreesAt s
      → sum_of (effect sel a) s.ledger_entries
        ≡ sum_of (owed sel a) (update (has_id t.id) f s.transactions)
  quiet_update-AgreesAt f t s found same h = rw (← append-nil s.ledger_entries) (
      Matches-update sel a (has_id t.id) f t s.transactions s.ledger_entries [] found
        (grind int_laws) h)

  settle_again-AgreesAt :
      (t : Transaction) (r : Option String) (s : Store)
      → find_transaction t.id s ≡ some t
      → AgreesAt s
      → Keeps AgreesAt (settle_again t r s)
  unfolding settle_again
  settle_again-AgreesAt t r s found h =
      ground (arith, quiet_update-AgreesAt (stamped s.now (backfill r)) t s found)

  pub transition_to_settled-AgreesAt :
      (id : ℕ) (r : Option String) (s : Store)
      → AgreesAt s
      → Keeps AgreesAt (transition_to_settled id r s)
  unfolding transition_to_settled
  transition_to_settled-AgreesAt id r s h = elim (Option-cases (find_transaction id s)) [
    | inl missing ↦ ground arith
    | inr (t, found) ↦ ground (
      arith,
      found_at_own_id id t s found,
      settle_again-AgreesAt t r s,
      settle_collection-AgreesAt (tenant_webhook_url t.tenant_id s) t r s,
    )
  ]

  fail_collection-owed :
      (now : ℕ) (reason : Reason) (t : Transaction)
      → t.direction ≡ inbound
      → is_allowed t.status failed ≡ true
      → owed sel a (stamped now (fail_with reason) t) ≡ owed sel a t
  fail_collection-owed now reason t d allowed = ground arith

  release-owed :
      (now : ℕ) (reason : Reason) (t : Transaction)
      → t.direction ≡ outbound
      → is_allowed t.status failed ≡ true
      → sum_of (effect sel a) (release_entries t.tenant_id t.id t.amount_minor_units)
          +ℤ owed sel a t
        ≡ owed sel a (stamped now (fail_with reason) t)
  unfolding release_entries
  release-owed now reason t d allowed = grind int_laws

  pub transition_to_failed-AgreesAt :
      (id : ℕ) (reason : Reason) (s : Store)
      → AgreesAt s
      → Keeps AgreesAt (transition_to_failed id reason s)
  unfolding transition_to_failed
  transition_to_failed-AgreesAt id reason s h = elim (Option-cases (find_transaction id s)) [
    | inl missing ↦ ground arith
    | inr (t, found) ↦ ground (
      arith,
      found_at_own_id id t s found,
      fail_collection-owed s.now reason t,
      quiet_update-AgreesAt (stamped s.now (fail_with reason)) t s,
    )
  ]

  pub transition_payout_to_settled-AgreesAt :
      (id : ℕ) (r : Option String) (s : Store)
      → AgreesAt s
      → Keeps AgreesAt (transition_payout_to_settled id r s)
  unfolding transition_payout_to_settled
  transition_payout_to_settled-AgreesAt id r s h = elim (Option-cases (find_transaction id s)) [
    | inl missing ↦ ground arith
    | inr (t, found) ↦ ground (
      arith,
      found_at_own_id id t s found,
      settle_again-AgreesAt t r s,
      settle_payout-AgreesAt (tenant_webhook_url t.tenant_id s) t r s,
    )
  ]

  pub transition_payout_to_failed-AgreesAt :
      (id : ℕ) (reason : Reason) (s : Store)
      → AgreesAt s
      → Keeps AgreesAt (transition_payout_to_failed id reason s)
  unfolding transition_payout_to_failed
  transition_payout_to_failed-AgreesAt id reason s h = elim (Option-cases (find_transaction id s)) [
    | inl missing ↦ ground arith
    | inr (t, found) ↦ ground (
      arith,
      found_at_own_id id t s found,
      release-owed s.now reason t,
      Matches-update sel a (has_id t.id) (stamped s.now (fail_with reason)) t s.transactions
          s.ledger_entries (release_entries t.tenant_id t.id t.amount_minor_units),
    )
  ]

  -- A new row brings the entries that it owes.
  pub create-AgreesAt :
      (t : Transaction) (s : Store) (new : List LedgerEntry)
      → sum_of (effect sel a) new ≡ owed sel a t
      → AgreesAt s
      → sum_of (effect sel a) (s.ledger_entries ++ new)
        ≡ sum_of (owed sel a) (s.transactions ++ t ∷ [])
  create-AgreesAt t s new brings h =
      rw (sum_of-append (effect sel a) s.ledger_entries new)
        (rw (sum_of-append (owed sel a) s.transactions (t ∷ [])) (agree_after_add _ _ _ _ h brings))

  inbound-owed :
      (t : Transaction)
      → t.direction ≡ inbound
      → t.status ≡ settled
      → sum_of (effect sel a) (collection_entries t.tenant_id t.id t.amount_minor_units)
        ≡ owed sel a t
  inbound-owed t d p = grind int_laws

  pub record_inbound_settlement-AgreesAt :
      (tenant : ℕ) (channel : TransactionChannel) (amount : ℤ) (msisdn receipt : String) (s : Store)
      → AgreesAt s
      → Keeps AgreesAt (record_inbound_settlement tenant channel amount msisdn receipt s)
  unfolding record_inbound_settlement
  record_inbound_settlement-AgreesAt tenant channel amount msisdn receipt s h =
      let d = new_transaction tenant channel amount msisdn in
      let t = record d {
        id = s.next_id;
        status = settled;
        mpesa_receipt_number = some receipt;
        updated_at = s.now;
      } in
      ground
        (arith, inbound-owed t, create-AgreesAt t s (collection_entries tenant s.next_id amount))
