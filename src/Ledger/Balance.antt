-- ===== src/Ledger/Balance.antt =====
-- What the ledger entries add up to, account by account, and what the statuses of the transactions
-- say that they must add up to.
use script_pay_backend.Shared.{
  find, update, sum_of-update, some, ◌++◌, ℕ, Bool, ◌&&◌, List, [], ◌∷◌, ◌≡◌, refl, ◌==◌, filter,
  or_default, Bool-cases, inl, inr, if◌then◌else◌,
}
use script_pay_backend.Shared.Int.{
  ℤ, pos, ◌+ℤ◌, ◌-ℤ◌, agree_after_move, int_laws, sum_of, sum_of-append,
}
use script_pay_backend.Store.Rows.{
  Store, Transaction, TransactionDirection, inbound, outbound, TransactionStatus, pending,
  processing, settled, LedgerAccount, tenant_balance, pending_settlement, payout_reserved,
  payouts_paid, debit, credit, LedgerEntry, LedgerDirection,
}
use script_pay_backend.Ledger.{
  account_eq, ledger_direction_eq, group_sum, available_balance, is_balance_entry,
}

-- A choice of ledger rows by tenant and transaction.
abbrev pub Selection : Type 0
Selection = ℕ → ℕ → Bool

abbrev pub signed : LedgerDirection → ℤ → ℤ
signed credit x = x
signed debit x = pos 0 -ℤ x

-- What an entry adds to an account, credits counted positive.
abbrev pub effect : Selection → LedgerAccount → LedgerEntry → ℤ
effect sel a e =
    if sel e.tenant_id e.transaction_id && account_eq a e.account
    then signed e.direction e.amount_minor_units
    else pos 0

-- What the statuses demand of each account: a settled collection is the tenant's; a payout in
-- flight is reserved, a settled one is paid out, and a failed one has left no trace.
abbrev pub holding : LedgerAccount → TransactionDirection → TransactionStatus → ℤ → ℤ
holding tenant_balance inbound settled x = x
holding pending_settlement inbound settled x = pos 0 -ℤ x
holding tenant_balance outbound pending x = pos 0 -ℤ x
holding tenant_balance outbound processing x = pos 0 -ℤ x
holding tenant_balance outbound settled x = pos 0 -ℤ x
holding payout_reserved outbound pending x = x
holding payout_reserved outbound processing x = x
holding payouts_paid outbound settled x = x
holding _ _ _ x = pos 0

abbrev pub owed : Selection → LedgerAccount → Transaction → ℤ
owed sel a t =
    if sel t.tenant_id t.id then holding a t.direction t.status t.amount_minor_units else pos 0

-- Every account of every selection of transactions holds what their statuses demand.
abbrev pub Matches : List Transaction → List LedgerEntry → Type 0
Matches ts es =
    (sel : Selection) (a : LedgerAccount) → sum_of (effect sel a) es ≡ sum_of (owed sel a) ts

abbrev pub IsConsistent : Store → Type 0
IsConsistent s = Matches s.transactions s.ledger_entries

abbrev pub of_tenant : ℕ → Selection
of_tenant tenant t _ = t == tenant

abbrev pub of_transaction : ℕ → Selection
of_transaction id _ t = t == id

abbrev total : LedgerDirection → List LedgerEntry → ℤ
total d es = or_default (group_sum d es) (pos 0)

total-cons :
    (d : LedgerDirection) (e : LedgerEntry) (es : List LedgerEntry)
    → total d (e ∷ es)
      ≡ (if ledger_direction_eq e.direction d then e.amount_minor_units else pos 0) +ℤ total d es
unfolding group_sum
total-cons d e es = elim (Bool-cases (ledger_direction_eq e.direction d)) [
  | inl same ↦ rw same refl
  | inr other ↦ rw other (omega int_laws)
]

-- The balance that is read is the sum of the signed entries.
grouped-eq-sum :
    (tenant : ℕ) (es : List LedgerEntry)
    → total credit (filter (is_balance_entry tenant) es)
        -ℤ total debit (filter (is_balance_entry tenant) es)
      ≡ sum_of (effect (of_tenant tenant) tenant_balance) es
unfolding group_sum
grouped-eq-sum tenant [] = omega int_laws
grouped-eq-sum tenant (e ∷ es) = grind (
  int_laws,
  grouped-eq-sum tenant es,
  total-cons credit e (filter (is_balance_entry tenant) es),
  total-cons debit e (filter (is_balance_entry tenant) es),
)

pub available_balance-eq-sum :
    (tenant : ℕ) (s : Store)
    → available_balance tenant s
      ≡ sum_of (effect (of_tenant tenant) tenant_balance) s.ledger_entries
unfolding available_balance
available_balance-eq-sum tenant s = grouped-eq-sum tenant s.ledger_entries

-- One row is updated and the entries `new` are added: the books still match if the entries make up
-- the difference at that row.
pub Matches-update :
    (sel : Selection) (a : LedgerAccount) (p : Transaction → Bool) (f : Transaction → Transaction)
    (t : Transaction) (ts : List Transaction) (es new : List LedgerEntry)
    → find p ts ≡ some t
    → sum_of (effect sel a) new +ℤ owed sel a t ≡ owed sel a (f t)
    → sum_of (effect sel a) es ≡ sum_of (owed sel a) ts
    → sum_of (effect sel a) (es ++ new) ≡ sum_of (owed sel a) (update p f ts)
Matches-update sel a p f t ts es new found change h =
    rw (sum_of-append (effect sel a) es new)
      (agree_after_move _ _ _ _ _ _ h change (sum_of-update (owed sel a) p f t ts found))
