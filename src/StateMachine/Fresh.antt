-- ===== src/StateMachine/Fresh.antt =====
-- The ids that are still to be handed out name no transaction.
use script_pay_backend.Shared.{
  ℕ, String, Option, none, some, List, [], ◌∷◌, ◌++◌, ◌≡◌, ◌≤◌, ◌<◌, refl, arith, Option-cases, inl,
  inr, find, update, find-append_none, find-update-none, ap, ◌==◌,
}
use script_pay_backend.Shared.Int.{ℤ}
use script_pay_backend.Store.Rows.{
  Store, Transaction, TransactionChannel, Reason, has_id, settled, new_transaction,
}
use script_pay_backend.Store.Tables.{find_transaction, stamped}
use script_pay_backend.StateMachine.{
  confirm, fail_with, backfill, settle_again, settle_collection, settle_payout,
  transition_to_settled, transition_to_failed, transition_payout_to_settled,
  transition_payout_to_failed, record_inbound_settlement, tenant_webhook_url,
}
use script_pay_backend.StateMachine.Consistency.{Keeps}

-- No transaction has the id `n`, if `n` is still to be handed out.
abbrev pub FreshAt : ℕ → Store → Type 0
FreshAt n s = s.next_id ≤ n → find_transaction n s ≡ none

abbrev pub IsFresh : Store → Type 0
IsFresh s = (n : ℕ) → FreshAt n s

module _ (n : ℕ) where
  pub update-FreshAt :
      (id : ℕ) (f : Transaction → Transaction) (ts : List Transaction)
      → ((t : Transaction) → (f t).id ≡ t.id)
      → find (has_id n) ts ≡ none
      → find (has_id n) (update (has_id id) f ts) ≡ none
  update-FreshAt id f ts same =
      find-update-none (has_id n) (has_id id) f ts (λ t. ap (λ (k : ℕ). k == n) (same t))

  pub append-FreshAt :
      (t : Transaction) (ts : List Transaction)
      → t.id < n
      → find (has_id n) ts ≡ none
      → find (has_id n) (ts ++ t ∷ []) ≡ none
  append-FreshAt t ts below h = ground (arith, find-append_none (has_id n) ts (t ∷ []) h)

  settle_again-FreshAt :
      (t : Transaction) (r : Option String) (s : Store)
      → FreshAt n s
      → Keeps (FreshAt n) (settle_again t r s)
  unfolding settle_again
  settle_again-FreshAt t r s h = ground (
    arith,
    update-FreshAt t.id (stamped s.now (backfill r)) s.transactions (λ (u : Transaction). refl),
  )

  settle_collection-FreshAt :
      (url : Option String) (t : Transaction) (r : Option String) (s : Store)
      → FreshAt n s
      → Keeps (FreshAt n) (settle_collection url t r s)
  unfolding settle_collection
  settle_collection-FreshAt url t r s h = elim (Option-cases (find_transaction t.id s)) [
    | inl missing ↦ ground arith
    | inr (u, found) ↦ ground (
      arith,
      update-FreshAt t.id (stamped s.now (confirm r)) s.transactions (λ (v : Transaction). refl),
    )
  ]

  settle_payout-FreshAt :
      (url : Option String) (t : Transaction) (r : Option String) (s : Store)
      → FreshAt n s
      → Keeps (FreshAt n) (settle_payout url t r s)
  unfolding settle_payout
  settle_payout-FreshAt url t r s h = elim (Option-cases (find_transaction t.id s)) [
    | inl missing ↦ ground arith
    | inr (u, found) ↦ ground (
      arith,
      update-FreshAt t.id (stamped s.now (confirm r)) s.transactions (λ (v : Transaction). refl),
    )
  ]

  pub transition_to_settled-FreshAt :
      (id : ℕ) (r : Option String) (s : Store)
      → FreshAt n s
      → Keeps (FreshAt n) (transition_to_settled id r s)
  unfolding transition_to_settled
  transition_to_settled-FreshAt id r s h = elim (Option-cases (find_transaction id s)) [
    | inl missing ↦ ground arith
    | inr (t, found) ↦ ground (
      arith,
      settle_again-FreshAt t r s,
      settle_collection-FreshAt (tenant_webhook_url t.tenant_id s) t r s,
    )
  ]

  pub transition_payout_to_settled-FreshAt :
      (id : ℕ) (r : Option String) (s : Store)
      → FreshAt n s
      → Keeps (FreshAt n) (transition_payout_to_settled id r s)
  unfolding transition_payout_to_settled
  transition_payout_to_settled-FreshAt id r s h = elim (Option-cases (find_transaction id s)) [
    | inl missing ↦ ground arith
    | inr (t, found) ↦ ground (
      arith,
      settle_again-FreshAt t r s,
      settle_payout-FreshAt (tenant_webhook_url t.tenant_id s) t r s,
    )
  ]

  pub transition_to_failed-FreshAt :
      (id : ℕ) (r : Reason) (s : Store)
      → FreshAt n s
      → Keeps (FreshAt n) (transition_to_failed id r s)
  unfolding transition_to_failed
  transition_to_failed-FreshAt id r s h = elim (Option-cases (find_transaction id s)) [
    | inl missing ↦ ground arith
    | inr (t, found) ↦ ground (
      arith,
      update-FreshAt id (stamped s.now (fail_with r)) s.transactions (λ (v : Transaction). refl),
    )
  ]

  pub transition_payout_to_failed-FreshAt :
      (id : ℕ) (r : Reason) (s : Store)
      → FreshAt n s
      → Keeps (FreshAt n) (transition_payout_to_failed id r s)
  unfolding transition_payout_to_failed
  transition_payout_to_failed-FreshAt id r s h = elim (Option-cases (find_transaction id s)) [
    | inl missing ↦ ground arith
    | inr (t, found) ↦ ground (
      arith,
      update-FreshAt id (stamped s.now (fail_with r)) s.transactions (λ (v : Transaction). refl),
    )
  ]

  pub record_inbound_settlement-FreshAt :
      (tenant : ℕ) (channel : TransactionChannel) (amount : ℤ) (msisdn receipt : String) (s : Store)
      → FreshAt n s
      → Keeps (FreshAt n) (record_inbound_settlement tenant channel amount msisdn receipt s)
  unfolding record_inbound_settlement
  record_inbound_settlement-FreshAt tenant channel amount msisdn receipt s h =
      let d = new_transaction tenant channel amount msisdn in
      let t = record d {
        id = s.next_id;
        status = settled;
        mpesa_receipt_number = some receipt;
        updated_at = s.now;
      } in
      ground (arith, append-FreshAt t s.transactions)
