-- ===== src/Reconciliation/Drift/Flags.antt =====
-- The drift flags of the reconciliation records under the writes that the services make.
use script_pay_backend.Shared.{
  ℕ, Bool, true, false, List, [], ◌∷◌, ◌++◌, ◌≡◌, arith, Bool-cases, inl, inr, find, any, update,
}
use script_pay_backend.Store.Rows.{Transaction, ReconciliationRecord}
use script_pay_backend.Store.Tables.{is_record_of}
use script_pay_backend.Reconciliation.Drift.{flag, is_flagged, flagged_rows, new_flag}

abbrev pub shows_flag : ℕ → List ReconciliationRecord → Bool
shows_flag id rows = is_flagged (find (is_record_of id) rows)

update-shows_flag_self :
    (id : ℕ) (rows : List ReconciliationRecord)
    → any (is_record_of id) rows ≡ true
    → shows_flag id (update (is_record_of id) flag rows) ≡ true
update-shows_flag_self id [] h = ground arith
update-shows_flag_self id (r ∷ rows) h = ground (arith, update-shows_flag_self id rows)

append-shows_flag_self :
    (t : Transaction) (rows : List ReconciliationRecord)
    → any (is_record_of t.id) rows ≡ false
    → shows_flag t.id (rows ++ new_flag t ∷ []) ≡ true
append-shows_flag_self t [] h = ground arith
append-shows_flag_self t (r ∷ rows) h = ground (arith, append-shows_flag_self t rows)

update-shows_flag :
    (id k : ℕ) (rows : List ReconciliationRecord)
    → shows_flag id rows ≡ true
    → shows_flag id (update (is_record_of k) flag rows) ≡ true
update-shows_flag id k [] h = ground arith
update-shows_flag id k (r ∷ rows) h = ground (arith, update-shows_flag id k rows)

append-shows_flag :
    (id : ℕ) (t : Transaction) (rows : List ReconciliationRecord)
    → shows_flag id rows ≡ true
    → shows_flag id (rows ++ new_flag t ∷ []) ≡ true
append-shows_flag id t [] h = ground arith
append-shows_flag id t (r ∷ rows) h = ground (arith, append-shows_flag id t rows)

-- The upsert raises the flag of its transaction.
pub flagged_rows_self :
    (t : Transaction) (rows : List ReconciliationRecord)
    → shows_flag t.id (flagged_rows t rows) ≡ true
flagged_rows_self t rows = elim (Bool-cases (any (is_record_of t.id) rows)) [
  | inl there ↦ rw there (update-shows_flag_self t.id rows there)
  | inr absent ↦ rw absent (append-shows_flag_self t rows absent)
]

-- It lowers no flag.
pub flagged_rows_keeps :
    (id : ℕ) (t : Transaction) (rows : List ReconciliationRecord)
    → shows_flag id rows ≡ true
    → shows_flag id (flagged_rows t rows) ≡ true
flagged_rows_keeps id t rows h = elim (Bool-cases (any (is_record_of t.id) rows)) [
  | inl there ↦ rw there (update-shows_flag id t.id rows h)
  | inr absent ↦ rw absent (append-shows_flag id t rows h)
]

-- A flag stands in a record.
pub any_of_flag :
    (id : ℕ) (rows : List ReconciliationRecord)
    → shows_flag id rows ≡ true
    → any (is_record_of id) rows ≡ true
any_of_flag id [] h = ground arith
any_of_flag id (r ∷ rows) h = ground (arith, any_of_flag id rows)
