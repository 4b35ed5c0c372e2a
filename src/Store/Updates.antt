-- ===== src/Store/Updates.antt =====
-- What `transaction.update` does at a row that is there.
use script_pay_backend.Shared.{
  ℕ, some, ◌≡◌, arith, update, find_test, find, List, [], ◌∷◌, ◌++◌, ◌==◌, if◌then◌else◌,
}
use script_pay_backend.Store.Rows.{Store, Transaction, unique_violation, has_id}
use script_pay_backend.Store.Tx.{Result, ok, err}
use script_pay_backend.Store.Tables.{
  find_transaction, stamped, collides_elsewhere, update_transaction,
}

-- The store with the row changed.
abbrev pub with_updated : ℕ → (Transaction → Transaction) → Store → Store
with_updated id f s = record s {
  transactions = update (has_id id) (stamped s.now f) s.transactions;
}

-- The row is changed, unless a unique column of the new row is taken.
abbrev pub updated :
    ℕ → (Transaction → Transaction) → Transaction → Store → Result (Transaction × Store)
updated id f t s =
    if collides_elsewhere (stamped s.now f t) s.transactions
    then err unique_violation
    else ok (stamped s.now f t, with_updated id f s)

pub update_transaction_lem :
    (id : ℕ) (f : Transaction → Transaction) (t : Transaction) (s : Store)
    → find_transaction id s ≡ some t
    → update_transaction id f s ≡ updated id f t s
unfolding update_transaction
update_transaction_lem id f t s found = ground arith

-- A look-up by id finds a row with that id.
pub found_at_own_id :
    (id : ℕ) (t : Transaction) (s : Store)
    → find_transaction id s ≡ some t
    → (id ≡ t.id) × (find_transaction t.id s ≡ some t)
found_at_own_id id t s found = ground (arith, find_test (has_id id) t s.transactions found)

-- A look-up by id after an update of a row by id.
pub find-update_id :
    (n k : ℕ) (f : Transaction → Transaction) (t : Transaction) (ts : List Transaction)
    → ((u : Transaction) → (f u).id ≡ u.id)
    → find (has_id n) ts ≡ some t
    → find (has_id n) (update (has_id k) f ts) ≡ (if n == k then some (f t) else some t)
find-update_id n k f t [] same h = ground arith
find-update_id n k f t (x ∷ ts) same h = ground (arith, same x, find-update_id n k f t ts same)

pub find-append_some :
    (n : ℕ) (t : Transaction) (ts new : List Transaction)
    → find (has_id n) ts ≡ some t
    → find (has_id n) (ts ++ new) ≡ some t
find-append_some n t [] new h = ground arith
find-append_some n t (x ∷ ts) new h = ground (arith, find-append_some n t ts new)
