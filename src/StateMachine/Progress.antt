-- ===== src/StateMachine/Progress.antt =====
-- What any call of the state machine can do to a row that is there.
use script_pay_backend.Shared.{
  ℕ, String, true, Option, none, some, List, [], ◌∷◌, ◌≡◌, ◌⊎◌, refl, arith, Option-cases, inl, inr,
  subst,
}
use script_pay_backend.Shared.Int.{ℤ}
use script_pay_backend.Store.Rows.{
  Store, Transaction, TransactionChannel, Reason, settled, failed, new_transaction,
}
use script_pay_backend.Store.Action.{transaction}
use script_pay_backend.Store.Tables.{find_transaction, stamped}
use script_pay_backend.Store.Updates.{found_at_own_id, find-update_id, find-append_some}
use script_pay_backend.StateMachine.{
  is_allowed, confirm, backfill, fail_with, settle_again, settle_collection, settle_payout,
  transition_to_settled, transition_to_failed, transition_payout_to_settled,
  transition_payout_to_failed, record_inbound_settlement, tenant_webhook_url,
}
use script_pay_backend.StateMachine.Consistency.{Keeps}
use script_pay_backend.StateMachine.Soundness.{
  Call, run_call, run_calls, Keeps-void, transaction-keeps,
}
use script_pay_backend.StateMachine.Redelivery.{
  transition_to_settled_at, transition_payout_to_settled_at, missing_transition, missing_payout,
}

-- A later version of a row: the same payment, its status unchanged or moved as allowed.
pub record Follows (t v : Transaction) : Type 0 where
  pub tenant : v.tenant_id ≡ t.tenant_id
  pub direction : v.direction ≡ t.direction
  pub amount : v.amount_minor_units ≡ t.amount_minor_units
  pub status : (v.status ≡ t.status) ⊎ (is_allowed t.status v.status ≡ true)

-- The look-up shows a row with the property.
abbrev pub Shows : (Transaction → Type 0) → Option Transaction → Type 0
Shows P none = ⊥
Shows P (some v) = P v

module _ (n : ℕ) (t : Transaction) (s : Store) (found : find_transaction n s ≡ some t) where
  abbrev Later : Store → Type 0
  Later u = Shows (Follows t) (find_transaction n u)

  same : Later s
  same = rw found (record { tenant = refl; direction = refl; amount = refl; status = inl refl })

  settle_again-Later : (x : Transaction) (r : Option String) → Keeps Later (settle_again x r s)
  unfolding settle_again
  settle_again-Later x r = elim (Option-cases (find_transaction x.id s)) [
    | inl missing ↦ ground (arith, same)
    | inr (y, there) ↦ ground (
      arith,
      found,
      find-update_id n x.id (stamped s.now (backfill r)) t s.transactions
          (λ (u : Transaction). refl),
    )
  ]

  settle_collection-Later :
      (url : Option String) (x : Transaction) (r : Option String)
      → find_transaction x.id s ≡ some x
      → Keeps Later (settle_collection url x r s)
  unfolding settle_collection
  settle_collection-Later url x r there = ground (
    arith,
    found,
    find-update_id n x.id (stamped s.now (confirm r)) t s.transactions (λ (u : Transaction). refl),
  )

  settle_payout-Later :
      (url : Option String) (x : Transaction) (r : Option String)
      → find_transaction x.id s ≡ some x
      → Keeps Later (settle_payout url x r s)
  unfolding settle_payout
  settle_payout-Later url x r there = ground (
    arith,
    found,
    find-update_id n x.id (stamped s.now (confirm r)) t s.transactions (λ (u : Transaction). refl),
  )

  transition_to_settled-Later :
      (id : ℕ) (r : Option String) → Keeps Later (transition_to_settled id r s)
  transition_to_settled-Later id r = elim (Option-cases (find_transaction id s)) [
    | inl missing ↦ ground (arith, missing_transition id r s missing)
    | inr (x, there) ↦ ground (
      arith,
      found_at_own_id id x s there,
      transition_to_settled_at id r x s there,
      settle_again-Later x r,
      settle_collection-Later (tenant_webhook_url x.tenant_id s) x r,
    )
  ]

  transition_payout_to_settled-Later :
      (id : ℕ) (r : Option String) → Keeps Later (transition_payout_to_settled id r s)
  transition_payout_to_settled-Later id r = elim (Option-cases (find_transaction id s)) [
    | inl missing ↦ ground (arith, missing_payout id r s missing)
    | inr (x, there) ↦ ground (
      arith,
      found_at_own_id id x s there,
      transition_payout_to_settled_at id r x s there,
      settle_again-Later x r,
      settle_payout-Later (tenant_webhook_url x.tenant_id s) x r,
    )
  ]

  transition_to_failed-Later :
      (id : ℕ) (reason : Reason) → Keeps Later (transition_to_failed id reason s)
  unfolding transition_to_failed
  transition_to_failed-Later id reason = elim (Option-cases (find_transaction id s)) [
    | inl missing ↦ ground arith
    | inr (x, there) ↦ ground (
      arith,
      found,
      found_at_own_id id x s there,
      find-update_id n id (stamped s.now (fail_with reason)) t s.transactions
          (λ (u : Transaction). refl),
    )
  ]

  transition_payout_to_failed-Later :
      (id : ℕ) (reason : Reason) → Keeps Later (transition_payout_to_failed id reason s)
  unfolding transition_payout_to_failed
  transition_payout_to_failed-Later id reason = elim (Option-cases (find_transaction id s)) [
    | inl missing ↦ ground arith
    | inr (x, there) ↦ ground (
      arith,
      found,
      found_at_own_id id x s there,
      find-update_id n id (stamped s.now (fail_with reason)) t s.transactions
          (λ (u : Transaction). refl),
    )
  ]

  record_inbound_settlement-Later :
      (tenant : ℕ) (channel : TransactionChannel) (amount : ℤ) (msisdn receipt : String)
      → Keeps Later (record_inbound_settlement tenant channel amount msisdn receipt s)
  unfolding record_inbound_settlement
  record_inbound_settlement-Later tenant channel amount msisdn receipt =
      let d = new_transaction tenant channel amount msisdn in
      let x = record d {
        id = s.next_id;
        status = settled;
        mpesa_receipt_number = some receipt;
        updated_at = s.now;
      } in
      ground (arith, found, find-append_some n t s.transactions (x ∷ []))

  -- Any call of the state machine, on any row, leaves each row there: the same tenant, direction and
  -- amount, and its status is the same or moved along ALLOWED_TRANSITIONS; so too if it throws.
  pub run_call-Follows :
      (c : Call) → Keeps (λ u. Shows (Follows t) (find_transaction n u)) (run_call c s)
  run_call-Follows (Call.settle_collection id r) =
      Keeps-void Later (transition_to_settled id r s) (transition_to_settled-Later id r)
  run_call-Follows (Call.fail_collection id reason) = transition_to_failed-Later id reason
  run_call-Follows (Call.settle_payout id r) = transition_payout_to_settled-Later id r
  run_call-Follows (Call.fail_payout id reason) = transition_payout_to_failed-Later id reason
  run_call-Follows (Call.record_inbound tenant channel amount msisdn receipt) =
      Keeps-void Later (record_inbound_settlement tenant channel amount msisdn receipt s)
        (record_inbound_settlement-Later tenant channel amount msisdn receipt)

-- A failed row of a given amount.
abbrev pub IsFailed : ℤ → Transaction → Type 0
IsFailed amount v = (v.status ≡ failed) × (v.amount_minor_units ≡ amount)

Follows-IsFailed :
    (amount : ℤ) (t v : Transaction) → IsFailed amount t → Follows t v → IsFailed amount v
Follows-IsFailed amount t v h f = ground arith

Shows-weaken :
    (P Q : Transaction → Type 0) (o : Option Transaction)
    → ((v : Transaction) → P v → Q v)
    → Shows P o
    → Shows Q o
Shows-weaken P Q none w h = h
Shows-weaken P Q (some v) w h = w v h

run_call-IsFailed :
    (c : Call) (amount : ℤ) (n : ℕ) (s : Store)
    → Shows (IsFailed amount) (find_transaction n s)
    → Shows (IsFailed amount) (find_transaction n (transaction (run_call c) s).1)
run_call-IsFailed c amount n s h = elim (Option-cases (find_transaction n s)) [
  | inl missing ↦ absurd (subst (Shows (IsFailed amount)) missing h)
  | inr (t, found) ↦
      Shows-weaken (Follows t) (IsFailed amount) _
        (λ v. Follows-IsFailed amount t v (subst (Shows (IsFailed amount)) found h))
        (transaction-keeps (λ u. Shows (Follows t) (find_transaction n u)) (run_call c) s
          (run_call-Follows n t s found c) (same n t s found))
]

-- A failed transaction stays failed, with its amount, under any sequence of calls of the state
-- machine: a late confirmation does not revive it.
pub run_calls-IsFailed :
    (cs : List Call) (amount : ℤ) (n : ℕ) (s : Store)
    → Shows (IsFailed amount) (find_transaction n s)
    → Shows (IsFailed amount) (find_transaction n (run_calls cs s))
run_calls-IsFailed [] amount n s h = h
run_calls-IsFailed (c ∷ cs) amount n s h =
    run_calls-IsFailed cs amount n (transaction (run_call c) s).1 (run_call-IsFailed c amount n s h)
