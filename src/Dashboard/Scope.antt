-- ===== src/Dashboard/Scope.antt =====
-- Whose rows the dashboard shows.
use script_pay_backend.Shared.{
  ℕ, false, Option, none, some, List, [], ◌∷◌, ◌≡◌, refl, arith, zero, suc, take, filter, find,
  Bool-cases, inl, inr, ==_iff, ◌==◌,
}
use script_pay_backend.Store.Rows.{
  Store, Transaction, TransactionStatus, TransactionDirection, has_id,
}
use script_pay_backend.Store.Tx.{Result, ok, err}
use script_pay_backend.Ledger.{available_balance}
use script_pay_backend.Tenants.Access.{AuthenticatedUser, is_super_admin}
use script_pay_backend.Dashboard.{
  is_listed, reverse_onto, newest_first, list, find_one, shown_to, balance,
}

abbrev pub AllOf : ℕ → List Transaction → Type 0
AllOf t [] = Unit
AllOf t (x ∷ xs) = (x.tenant_id ≡ t) × AllOf t xs

-- A row of the tenant, or an error that shows nothing.
abbrev pub OwnRow : ℕ → Result Transaction → Type 0
OwnRow t (ok x) = x.tenant_id ≡ t
OwnRow t (err e) = Unit

filter-AllOf :
    (t : ℕ) (status : Option TransactionStatus) (direction : Option TransactionDirection)
    (xs : List Transaction)
    → AllOf t (filter (is_listed t status direction) xs)
filter-AllOf t status direction [] = tt
filter-AllOf t status direction (x ∷ xs) = elim (Bool-cases (is_listed t status direction x)) [
  | inl listed ↦ rw listed (ground arith, filter-AllOf t status direction xs)
  | inr other ↦ rw other (filter-AllOf t status direction xs)
]

reverse_onto-AllOf :
    (t : ℕ) (xs ys : List Transaction) → AllOf t xs → AllOf t ys → AllOf t (reverse_onto xs ys)
reverse_onto-AllOf t [] ys h k = k
reverse_onto-AllOf t (x ∷ xs) ys h k = reverse_onto-AllOf t xs (x ∷ ys) h.1 (h.0, k)

take-AllOf : (t n : ℕ) (xs : List Transaction) → AllOf t xs → AllOf t (take n xs)
take-AllOf t zero xs h = tt
take-AllOf t (suc n) [] h = tt
take-AllOf t (suc n) (x ∷ xs) h = (h.0, take-AllOf t n xs h.1)

shown_to-OwnRow :
    (t : ℕ) (o : Option Transaction) (s : Store)
    → OwnRow t (shown_to t o s).0 × ((shown_to t o s).1 ≡ s)
shown_to-OwnRow t none s = (tt, refl)
shown_to-OwnRow t (some x) s = elim (Bool-cases (x.tenant_id == t)) [
  | inl own ↦ rw own ((==_iff x.tenant_id t).0 own, refl)
  | inr other ↦ rw other (tt, refl)
]

-- Whoever is not platform staff and belongs to a tenant reads of the transactions and the balance
-- what is that tenant's, whatever tenant the query names: a list of its transactions only, by id
-- none but its own, and its balance; and no read changes anything.
pub dashboard_shows_own :
    (user : AuthenticatedUser) (t : ℕ) (query : Option ℕ) (status : Option TransactionStatus)
    (direction : Option TransactionDirection) (id : ℕ) (s : Store)
    → is_super_admin user.role ≡ false
    → user.tenant_id ≡ some t
    → ((xs : List Transaction) × (list user status query direction s ≡ (ok xs, s)) × AllOf t xs)
      × (OwnRow t (find_one id user s).0 × ((find_one id user s).1 ≡ s))
      × (balance user query s ≡ (ok (t, available_balance t s), s))
unfolding list find_one balance
dashboard_shows_own user t query status direction id s other own = rw other (
    rw own (
      (
        take 100 (newest_first (filter (is_listed t status direction) s.transactions)),
        refl,
        take-AllOf t 100 _
            (reverse_onto-AllOf t _ [] (filter-AllOf t status direction s.transactions) tt),
      ),
      shown_to-OwnRow t (find (has_id id) s.transactions) s,
      refl,
    ))
