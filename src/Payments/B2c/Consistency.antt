-- ===== src/Payments/B2c/Consistency.antt =====
-- Each transaction of a payout request leaves the ledger in agreement with the statuses.
use script_pay_backend.Shared.{ℕ, String, Option, some, [], ◌∷◌, ◌≡◌, refl, arith, find-append_none}
use script_pay_backend.Shared.Int.{◌+ℤ◌, int_laws, sum_of}
use script_pay_backend.Store.Rows.{
  Store, Transaction, LedgerAccount, Reason, has_id, outbound, pending,
}
use script_pay_backend.Store.Tx.{Result, ok, err}
use script_pay_backend.Store.Tables.{find_transaction, stamped, update_transaction}
use script_pay_backend.Ledger.{reservation_entries, release_entries, assert_sufficient_balance}
use script_pay_backend.Ledger.Balance.{Selection, effect, owed, Matches-update}
use script_pay_backend.StateMachine.{fail_with}
use script_pay_backend.StateMachine.Consistency.{
  Keeps, AgreesAt, create-AgreesAt, quiet_update-AgreesAt,
}
use script_pay_backend.StateMachine.Fresh.{FreshAt, IsFresh, update-FreshAt, append-FreshAt}
use script_pay_backend.StateMachine.Soundness.{IsSound, Keeps-IsSound}
use script_pay_backend.Payments.B2c.{
  InitiateB2cDto, new_payout, reserve, accept, release_reservation,
}

module _ (sel : Selection) (a : LedgerAccount) where
  reserved-owed :
      (t : Transaction)
      → t.direction ≡ outbound
      → t.status ≡ pending
      → sum_of (effect sel a) (reservation_entries t.tenant_id t.id t.amount_minor_units)
        ≡ owed sel a t
  unfolding reservation_entries
  reserved-owed t d p = grind int_laws

  reserve-AgreesAt :
      (tenant : ℕ) (dto : InitiateB2cDto) (conversation : String) (s : Store)
      → AgreesAt sel a s
      → Keeps (AgreesAt sel a) (reserve tenant dto conversation s)
  unfolding reserve assert_sufficient_balance
  reserve-AgreesAt tenant dto conversation s h =
      let d = new_payout tenant dto conversation in
      let t = record d { id = s.next_id; updated_at = s.now } in
      ground (
        arith,
        reserved-owed t,
        create-AgreesAt sel a t s (reservation_entries tenant s.next_id dto.amount_minor_units),
      )

  accept-AgreesAt :
      (answer : Option String) (t : Transaction) (s : Store)
      → find_transaction t.id s ≡ some t
      → t.direction ≡ outbound
      → t.status ≡ pending
      → AgreesAt sel a s
      → Keeps (AgreesAt sel a) (update_transaction t.id (accept answer) s)
  unfolding update_transaction
  accept-AgreesAt answer t s found d p h =
      ground (arith, quiet_update-AgreesAt sel a (stamped s.now (accept answer)) t s found)

  released-owed :
      (now : ℕ) (reason : Reason) (t : Transaction)
      → t.direction ≡ outbound
      → t.status ≡ pending
      → sum_of (effect sel a) (release_entries t.tenant_id t.id t.amount_minor_units)
          +ℤ owed sel a t
        ≡ owed sel a (stamped now (fail_with reason) t)
  unfolding release_entries
  released-owed now reason t d p = grind int_laws

  release_reservation-AgreesAt :
      (reason : Reason) (t : Transaction) (s : Store)
      → find_transaction t.id s ≡ some t
      → t.direction ≡ outbound
      → t.status ≡ pending
      → AgreesAt sel a s
      → Keeps (AgreesAt sel a) (release_reservation t.tenant_id t.id reason s)
  unfolding release_reservation
  release_reservation-AgreesAt reason t s found d p h = ground (
    arith,
    released-owed s.now reason t d p,
    Matches-update sel a (has_id t.id) (stamped s.now (fail_with reason)) t s.transactions
        s.ledger_entries (release_entries t.tenant_id t.id t.amount_minor_units) found,
  )

module _ (n : ℕ) where
  reserve-FreshAt :
      (tenant : ℕ) (dto : InitiateB2cDto) (conversation : String) (s : Store)
      → FreshAt n s
      → Keeps (FreshAt n) (reserve tenant dto conversation s)
  unfolding reserve assert_sufficient_balance
  reserve-FreshAt tenant dto conversation s h =
      let d = new_payout tenant dto conversation in
      let t = record d { id = s.next_id; updated_at = s.now } in
      ground (arith, append-FreshAt n t s.transactions)

  accept-FreshAt :
      (answer : Option String) (id : ℕ) (s : Store)
      → FreshAt n s
      → Keeps (FreshAt n) (update_transaction id (accept answer) s)
  unfolding update_transaction
  accept-FreshAt answer id s h = ground (
    arith,
    update-FreshAt n id (stamped s.now (accept answer)) s.transactions (λ (v : Transaction). refl),
  )

  release_reservation-FreshAt :
      (reason : Reason) (tenant id : ℕ) (s : Store)
      → FreshAt n s
      → Keeps (FreshAt n) (release_reservation tenant id reason s)
  unfolding release_reservation
  release_reservation-FreshAt reason tenant id s h = ground (
    arith,
    update-FreshAt n id (stamped s.now (fail_with reason)) s.transactions
        (λ (v : Transaction). refl),
  )

-- Each of the three transactions of a payout request keeps the tables sound.
pub reserve-IsSound :
    (tenant : ℕ) (dto : InitiateB2cDto) (conversation : String) (s : Store)
    → IsSound s
    → Keeps IsSound (reserve tenant dto conversation s)
reserve-IsSound tenant dto conversation s h =
    Keeps-IsSound _ (λ sel a. reserve-AgreesAt sel a tenant dto conversation s (h.consistent sel a))
      (λ n. reserve-FreshAt n tenant dto conversation s (h.fresh n))

-- A payout that waits: its row is there, outbound and pending, under the tenant that owns it.
pub record IsWaiting (tenant : ℕ) (t : Transaction) (s : Store) : Type 0 where
  pub there : find_transaction t.id s ≡ some t
  pub is_payout : t.direction ≡ outbound
  pub is_pending : t.status ≡ pending
  pub owned : t.tenant_id ≡ tenant

pub accept-IsSound :
    (answer : Option String) (tenant : ℕ) (t : Transaction) (s : Store)
    → IsWaiting tenant t s
    → IsSound s
    → Keeps IsSound (update_transaction t.id (accept answer) s)
accept-IsSound answer tenant t s w h =
    Keeps-IsSound _
      (λ sel a.
        accept-AgreesAt sel a answer t s w.there w.is_payout w.is_pending (h.consistent sel a))
      (λ n. accept-FreshAt n answer t.id s (h.fresh n))

pub release_reservation-IsSound :
    (reason : Reason) (tenant : ℕ) (t : Transaction) (s : Store)
    → IsWaiting tenant t s
    → IsSound s
    → Keeps IsSound (release_reservation tenant t.id reason s)
release_reservation-IsSound reason tenant t s w h = rw (← w.owned) (
    Keeps-IsSound _
      (λ sel a.
        release_reservation-AgreesAt sel a reason t s w.there w.is_payout w.is_pending
          (h.consistent sel a))
      (λ n. release_reservation-FreshAt n reason t.tenant_id t.id s (h.fresh n)))

-- A reservation leaves a payout that waits.
abbrev pub Waits : ℕ → Result (Transaction × Store) → Type 0
Waits tenant (ok (t, s)) = IsWaiting tenant t s
Waits tenant (err e) = Unit

pub reserve-Waits :
    (tenant : ℕ) (dto : InitiateB2cDto) (conversation : String) (s : Store)
    → IsFresh s
    → Waits tenant (reserve tenant dto conversation s)
unfolding reserve assert_sufficient_balance
reserve-Waits tenant dto conversation s fresh =
    let d = new_payout tenant dto conversation in
    let t = record d { id = s.next_id; updated_at = s.now } in
    ground (
      arith,
      fresh s.next_id (omega arith),
      find-append_none (has_id s.next_id) s.transactions (t ∷ []),
    )
