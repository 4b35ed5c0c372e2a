-- ===== src/Payments/B2c/Authorization.antt =====
-- What a reservation checks, and what it does to the balances.
use script_pay_backend.Shared.{ℕ, String, true, false, ◌++◌, ◌≡◌, ◌≢◌, arith, any, sym, ap, ◌∙◌}
use script_pay_backend.Shared.Int.{
  ℤ, pos, ◌+ℤ◌, ◌-ℤ◌, ◌≤ℤ◌, pos_part, neg_part, int_laws, sum_of, sum_of-append, leb_ℤ, ltb_ℤ,
}
use script_pay_backend.Store.Rows.{Store, Transaction, tenant_balance, insufficient_balance}
use script_pay_backend.Store.Tx.{ok, err}
use script_pay_backend.Ledger.{
  available_balance, is_tenant, reservation_entries, assert_sufficient_balance,
}
use script_pay_backend.Ledger.Balance.{effect, of_tenant, available_balance-eq-sum}
use script_pay_backend.Payments.B2c.{InitiateB2cDto, reserve}

-- What the checks of a reservation that went through have seen, and the entries that it wrote.
reserve_wrote :
    (tenant : ℕ) (dto : InitiateB2cDto) (conversation : String) (s : Store) (t : Transaction)
    (u : Store)
    → reserve tenant dto conversation s ≡ ok (t, u)
    → (leb_ℤ dto.amount_minor_units (pos 0) ≡ false)
      × (ltb_ℤ (available_balance tenant s) dto.amount_minor_units ≡ false)
      × (u.ledger_entries
          ≡ s.ledger_entries ++ reservation_entries tenant s.next_id dto.amount_minor_units)
unfolding reserve assert_sufficient_balance
reserve_wrote tenant dto conversation s t u h = ground arith

module _ (tenant id : ℕ) (amount : ℤ) (s u : Store)
    (wrote : u.ledger_entries ≡ s.ledger_entries ++ reservation_entries tenant id amount) where
  balance_moves :
      (other : ℕ)
      → available_balance other u
        ≡ available_balance other s
          +ℤ sum_of (effect (of_tenant other) tenant_balance) (reservation_entries tenant id amount)
  balance_moves other =
      available_balance-eq-sum other u
      ∙ ap (sum_of (effect (of_tenant other) tenant_balance)) wrote
      ∙ sum_of-append (effect (of_tenant other) tenant_balance) s.ledger_entries
          (reservation_entries tenant id amount)
      ∙ ap
          (λ x.
            x
            +ℤ sum_of (effect (of_tenant other) tenant_balance)
                (reservation_entries tenant id amount))
          (sym (available_balance-eq-sum other s))

  debited :
      sum_of (effect (of_tenant tenant) tenant_balance) (reservation_entries tenant id amount)
      ≡ pos 0 -ℤ amount
  unfolding reservation_entries
  debited = grind int_laws

  untouched :
      (other : ℕ)
      → tenant ≢ other
      → sum_of (effect (of_tenant other) tenant_balance) (reservation_entries tenant id amount)
        ≡ pos 0
  unfolding reservation_entries
  untouched other ne = grind int_laws

+ℤ_zero : (a : ℤ) → a +ℤ pos 0 ≡ a
+ℤ_zero a = omega int_laws

within_balance :
    (b a c m : ℤ)
    → leb_ℤ m (pos 0) ≡ false
    → ltb_ℤ b m ≡ false
    → c ≡ pos 0 -ℤ m
    → a ≡ b +ℤ c
    → (pos 1 ≤ℤ m) × (m ≤ℤ b) × (a ≡ b -ℤ m) × (pos 0 ≤ℤ a)
within_balance b a c m positive covered change moved =
    let p : pos 1 ≤ℤ m = ground arith in
    let q : m ≤ℤ b = ground arith in
    let a₁ = ap pos_part change in
    let a₂ = ap neg_part change in
    let a₃ = ap pos_part moved in
    let a₄ = ap neg_part moved in
    (p, q, omega (int_laws, a₁, a₂, a₃, a₄), omega (int_laws, a₁, a₂, a₃, a₄))

-- A reservation that goes through asks for a positive amount that the tenant's balance covers, takes
-- exactly that amount from it, and so never overdraws it.
pub reserve_never_overdraws :
    (tenant : ℕ) (dto : InitiateB2cDto) (conversation : String) (s : Store) (t : Transaction)
    (u : Store)
    → reserve tenant dto conversation s ≡ ok (t, u)
    → (pos 1 ≤ℤ dto.amount_minor_units)
      × (dto.amount_minor_units ≤ℤ available_balance tenant s)
      × (available_balance tenant u ≡ available_balance tenant s -ℤ dto.amount_minor_units)
      × (pos 0 ≤ℤ available_balance tenant u)
reserve_never_overdraws tenant dto conversation s t u h =
    let (positive, covered, wrote) = reserve_wrote tenant dto conversation s t u h in
    let amount = dto.amount_minor_units in
    let moved = balance_moves tenant s.next_id amount s u wrote in
    within_balance (available_balance tenant s) (available_balance tenant u) _ amount positive
      covered (debited tenant s.next_id amount s u wrote) (moved tenant)

-- A reservation that goes through leaves the balance of every other tenant as it was.
pub reserve_leaves_others :
    (tenant other : ℕ) (dto : InitiateB2cDto) (conversation : String) (s : Store) (t : Transaction)
    (u : Store)
    → tenant ≢ other
    → reserve tenant dto conversation s ≡ ok (t, u)
    → available_balance other u ≡ available_balance other s
reserve_leaves_others tenant other dto conversation s t u ne h =
    let (positive, covered, wrote) = reserve_wrote tenant dto conversation s t u h in
    let amount = dto.amount_minor_units in
    balance_moves tenant s.next_id amount s u wrote other
    ∙ ap (λ x. available_balance other s +ℤ x)
        (untouched tenant s.next_id amount s u wrote other ne)
    ∙ +ℤ_zero (available_balance other s)

-- A payout of a positive amount that the balance of a tenant who is there does not cover is
-- declined with both figures; the error carries no store, so nothing is written.
pub reserve_declined :
    (tenant : ℕ) (dto : InitiateB2cDto) (conversation : String) (s : Store)
    → pos 1 ≤ℤ dto.amount_minor_units
    → any (is_tenant tenant) s.tenants ≡ true
    → ¬ (dto.amount_minor_units ≤ℤ available_balance tenant s)
    → reserve tenant dto conversation s
      ≡ err (insufficient_balance (available_balance tenant s) dto.amount_minor_units)
unfolding reserve assert_sufficient_balance
reserve_declined tenant dto conversation s p there short = ground arith
