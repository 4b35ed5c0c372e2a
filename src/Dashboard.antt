-- ===== src/Dashboard.antt =====
-- What the dashboard reads: src/modules/payments/transactions.controller.ts,
-- src/modules/ledger/ledger.controller.ts, and Reporting, which is src/modules/reporting. The
-- table of the model holds transactions in the order of their creation.
pub mod Scope
pub mod Reporting
pub mod Counts
use script_pay_backend.Shared.{
  ℕ, Bool, true, false, ◌&&◌, Option, none, some, List, [], ◌∷◌, ◌==◌, take, filter, find,
  if◌then◌else◌,
}
use script_pay_backend.Shared.Int.{ℤ}
use script_pay_backend.Store.Rows.{
  Transaction, TransactionStatus, TransactionDirection, inbound, outbound, status_eq, has_id,
  forbidden, not_found,
}
use script_pay_backend.Store.Tx.{Result, ok, err}
use script_pay_backend.Store.Action.{Action, pure, throw, gets, await, ◌>>=◌, ◌>>◌}
use script_pay_backend.Ledger.{available_balance}
use script_pay_backend.Tenants.Access.{AuthenticatedUser, is_super_admin, throw_unless}

abbrev pub tenant_or_refuse : Option ℕ → Result ℕ
tenant_or_refuse none = err forbidden
tenant_or_refuse (some t) = ok t

-- `resolveTenantId`: staff name a tenant, everyone else has one.
abbrev pub resolve_tenant_id : AuthenticatedUser → Option ℕ → Result ℕ
resolve_tenant_id user query =
    tenant_or_refuse (if is_super_admin user.role then query else user.tenant_id)

abbrev pub direction_eq : TransactionDirection → TransactionDirection → Bool
direction_eq inbound inbound = true
direction_eq outbound outbound = true
direction_eq _ _ = false

-- A filter that is absent is left out of the query.
abbrev pub has_status : Option TransactionStatus → Transaction → Bool
has_status none t = true
has_status (some status) t = status_eq t.status status

abbrev pub has_direction : Option TransactionDirection → Transaction → Bool
has_direction none t = true
has_direction (some direction) t = direction_eq t.direction direction

abbrev pub is_listed :
    ℕ → Option TransactionStatus → Option TransactionDirection → Transaction → Bool
is_listed tenant status direction t =
    t.tenant_id == tenant && has_status status t && has_direction direction t

abbrev pub reverse_onto : List Transaction → List Transaction → List Transaction
reverse_onto [] ys = ys
reverse_onto (x ∷ xs) ys = reverse_onto xs (x ∷ ys)

-- `orderBy: { createdAt: "desc" }`.
abbrev pub newest_first : List Transaction → List Transaction
newest_first xs = reverse_onto xs []

abbrev pub list_of :
    Option TransactionStatus → Option TransactionDirection → ℕ → Action (List Transaction)
list_of status direction tenant =
    gets λ s. take 100 (newest_first (filter (is_listed tenant status direction) s.transactions))

-- `TransactionsController.list`.
unfoldable pub list :
    AuthenticatedUser
    → Option TransactionStatus
    → Option ℕ
    → Option TransactionDirection
    → Action (List Transaction)
list user status query direction = await (resolve_tenant_id user query) >>= list_of status direction

abbrev pub shown : Option Transaction → Action Transaction
shown none = throw not_found
shown (some t) = pure t

-- The second read of platform staff, within the tenant of the first.
abbrev pub read_again : ℕ → Option Transaction → Action Transaction
read_again id none = throw not_found
read_again id (some initial) = gets (λ s. find (has_id id) s.transactions) >>= shown

abbrev pub shown_to : ℕ → Option Transaction → Action Transaction
shown_to tenant none = throw not_found
shown_to tenant (some t) = do throw_unless (t.tenant_id == tenant) forbidden; pure t

abbrev pub find_for : Bool → ℕ → Option ℕ → Action Transaction
find_for true id own = gets (λ s. find (has_id id) s.transactions) >>= read_again id
find_for false id none = throw forbidden
find_for false id (some tenant) = gets (λ s. find (has_id id) s.transactions) >>= shown_to tenant

-- `TransactionsController.findOne`.
unfoldable pub find_one : ℕ → AuthenticatedUser → Action Transaction
find_one id user = find_for (is_super_admin user.role) id user.tenant_id

abbrev pub balance_of : ℕ → Action (ℕ × ℤ)
balance_of tenant = gets λ s. (tenant, available_balance tenant s)

-- `LedgerController.balance`.
unfoldable pub balance : AuthenticatedUser → Option ℕ → Action (ℕ × ℤ)
balance user query = await (resolve_tenant_id user query) >>= balance_of
