-- ===== src/Store/Tables.antt =====
-- The statements on transactions and on the tables that hang on them, with the unique columns of
-- the schema checked.
use script_pay_backend.Shared.{
  ℕ, Bool, not, ◌&&◌, ◌||◌, Option, none, some, List, [], ◌∷◌, ◌++◌, ◌==◌, find, any, update,
  clashes,
}
use script_pay_backend.Store.Rows.{
  Store, Transaction, LedgerEntry, ReconciliationRecord, has_id, row_not_found, unique_violation,
}
use script_pay_backend.Store.Tx.{Tx, pure, throw, throw_if, gets, modify, fresh_id, ◌>>=◌, ◌>>◌}

abbrev pub find_transaction : ℕ → Store → Option Transaction
find_transaction id s = find (has_id id) s.transactions

abbrev pub or_throw : Option Transaction → Tx Transaction
or_throw none = throw row_not_found
or_throw (some t) = pure t

-- `tx.transaction.findUniqueOrThrow({ where: { id } })`.
unfoldable pub find_unique_or_throw : ℕ → Tx Transaction
find_unique_or_throw id = do t ← gets (find_transaction id); or_throw t

-- Two rows with the same value in a unique column, or in the unique pair of tenant and key.
abbrev pub collides : Transaction → Transaction → Bool
collides t u =
    clashes t.checkout_request_id u.checkout_request_id
    || clashes t.originator_conversation_id u.originator_conversation_id
    || clashes t.mpesa_receipt_number u.mpesa_receipt_number
    || (t.tenant_id == u.tenant_id && clashes t.idempotency_key u.idempotency_key)

abbrev pub collides_elsewhere : Transaction → List Transaction → Bool
collides_elsewhere t rows = any (λ u. not (u.id == t.id) && collides t u) rows

-- `tx.transaction.update({ where: { id }, data })`; `@updatedAt` stamps the row.
abbrev pub stamped : ℕ → (Transaction → Transaction) → Transaction → Transaction
stamped now f t = let u = f t in record u { updated_at = now }

abbrev pub with_transactions : List Transaction → Store → Store
with_transactions rows s = record s { transactions = rows }

unfoldable pub update_transaction : ℕ → (Transaction → Transaction) → Tx Transaction
unfolding find_unique_or_throw
update_transaction id f = do
  t ← find_unique_or_throw id
  now ← gets (λ s. s.now)
  let u = stamped now f t
  rows ← gets (λ s. s.transactions)
  throw_if (collides_elsewhere u rows) unique_violation
  modify (λ s. record s { transactions = update (has_id id) (stamped now f) s.transactions })
  pure u

-- `tx.transaction.create({ data })`.
unfoldable pub create_transaction : Transaction → Tx Transaction
create_transaction d = do
  id ← fresh_id
  now ← gets (λ s. s.now)
  let t = record d { id = id; updated_at = now }
  rows ← gets (λ s. s.transactions)
  throw_if (collides_elsewhere t rows) unique_violation
  modify (λ s. record s { transactions = s.transactions ++ t ∷ [] })
  pure t

-- `tx.ledgerEntry.createMany({ data })`.
unfoldable pub create_ledger_entries : List LedgerEntry → Tx (Unit {0})
create_ledger_entries es = modify λ s. record s { ledger_entries = s.ledger_entries ++ es }

abbrev pub is_record_of : ℕ → ReconciliationRecord → Bool
is_record_of id r = r.transaction_id == id

-- `tx.reconciliationRecord.create({ data })`, whose `transactionId` is unique.
unfoldable pub create_reconciliation : ReconciliationRecord → Tx (Unit {0})
create_reconciliation r = do
  rows ← gets (λ s. s.reconciliation_records)
  throw_if (any (is_record_of r.transaction_id) rows) unique_violation
  modify (λ s. record s { reconciliation_records = s.reconciliation_records ++ r ∷ [] })
