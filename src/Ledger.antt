-- ===== src/Ledger.antt =====
-- src/modules/ledger: the double-entry accounts, the balance that the entries encode, and the check
-- that authorizes a payout.
pub mod Balance
use script_pay_backend.Shared.{
  ℕ, Bool, true, false, ◌&&◌, ◌||◌, Option, none, some, List, [], ◌∷◌, ◌==◌, filter, any,
  or_default, if◌then◌else◌,
}
use script_pay_backend.Shared.Int.{ℤ, pos, ◌+ℤ◌, ◌-ℤ◌, ltb_ℤ, leb_ℤ}
use script_pay_backend.Store.Rows.{
  Store, Tenant, LedgerAccount, tenant_balance, pending_settlement, payout_reserved, payouts_paid,
  LedgerDirection, debit, credit, LedgerEntry, Error, not_found, invalid_amount,
  insufficient_balance, not_in_transaction,
}
use script_pay_backend.Store.Tx.{Tx, pure, throw, throw_if, gets, ◌>>=◌, ◌>>◌}

abbrev pub account_eq : LedgerAccount → LedgerAccount → Bool
account_eq tenant_balance tenant_balance = true
account_eq pending_settlement pending_settlement = true
account_eq payout_reserved payout_reserved = true
account_eq payouts_paid payouts_paid = true
account_eq _ _ = false

abbrev pub ledger_direction_eq : LedgerDirection → LedgerDirection → Bool
ledger_direction_eq debit debit = true
ledger_direction_eq credit credit = true
ledger_direction_eq _ _ = false

-- `groupBy({ by: ["direction"], _sum })`: the row of a direction, if some entry has it.
unfoldable pub group_sum : LedgerDirection → List LedgerEntry → Option ℤ
group_sum d [] = none
group_sum d (e ∷ es) =
    let rest = group_sum d es in
    if ledger_direction_eq e.direction d
    then some (e.amount_minor_units +ℤ or_default rest (pos 0))
    else rest

abbrev pub is_balance_entry : ℕ → LedgerEntry → Bool
is_balance_entry tenant e = e.tenant_id == tenant && account_eq e.account tenant_balance

-- `availableBalance`.
unfoldable pub available_balance : ℕ → Store → ℤ
unfolding group_sum
available_balance tenant s =
    let rows = filter (is_balance_entry tenant) s.ledger_entries in
    or_default (group_sum credit rows) (pos 0) -ℤ or_default (group_sum debit rows) (pos 0)

abbrev pub is_tenant : ℕ → Tenant → Bool
is_tenant id t = t.id == id

-- `lockTenantBalance`: the row lock itself changes nothing that a transaction can read.
pub lock_tenant_balance : ℕ → Tx (Unit {0})
lock_tenant_balance tenant = do
  tenants ← gets (λ s. s.tenants)
  if any (is_tenant tenant) tenants then pure tt else throw not_found

-- A client inside a transaction, or the whole PrismaClient, which has `$transaction`.
pub data Client : Type 0 where
  interactive plain : Client

pub assert_inside_transaction : Client → Tx (Unit {0})
assert_inside_transaction interactive = pure tt
assert_inside_transaction plain = throw not_in_transaction

-- `assertSufficientBalance`: the balance that was verified.
unfoldable pub assert_sufficient_balance : Client → ℕ → ℤ → Tx ℤ
unfolding lock_tenant_balance assert_inside_transaction
assert_sufficient_balance client tenant amount = do
  assert_inside_transaction client
  throw_if (leb_ℤ amount (pos 0)) (invalid_amount amount)
  lock_tenant_balance tenant
  available ← gets (available_balance tenant)
  throw_if (ltb_ℤ available amount) (insufficient_balance available amount)
  pure available

abbrev pub entry : ℕ → ℕ → LedgerAccount → LedgerDirection → ℤ → LedgerEntry
entry tenant tx account direction amount = record {
  tenant_id = tenant;
  transaction_id = tx;
  account = account;
  direction = direction;
  amount_minor_units = amount;
}

-- Debits `from`, credits `to`.
abbrev pub pair : ℕ → ℕ → ℤ → LedgerAccount → LedgerAccount → List LedgerEntry
pair tenant tx amount from to =
    entry tenant tx from debit amount ∷ entry tenant tx to credit amount ∷ []

unfoldable pub reservation_entries : ℕ → ℕ → ℤ → List LedgerEntry
reservation_entries tenant tx amount = pair tenant tx amount tenant_balance payout_reserved

unfoldable pub settlement_entries : ℕ → ℕ → ℤ → List LedgerEntry
settlement_entries tenant tx amount = pair tenant tx amount payout_reserved payouts_paid

unfoldable pub release_entries : ℕ → ℕ → ℤ → List LedgerEntry
release_entries tenant tx amount = pair tenant tx amount payout_reserved tenant_balance
