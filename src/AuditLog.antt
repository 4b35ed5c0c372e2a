-- ===== src/AuditLog.antt =====
-- src/modules/audit-log/audit-log.service.ts: who may read the audit log. `record` is
-- Store.Action.record_audit. The table of the model holds the newest entry first.
pub mod Readers
use script_pay_backend.Shared.{
  ℕ, String, Bool, true, false, ◌&&◌, ◌||◌, Option, none, some, List, ◌==◌, str_eq, take, filter,
  find, or_default, if◌then◌else◌,
}
use script_pay_backend.Store.Rows.{AuditEntry, Role, forbidden, not_found}
use script_pay_backend.Store.Action.{Action, pure, throw, gets, ◌>>=◌, ◌>>◌}
use script_pay_backend.Tenants.Access.{AuthenticatedUser, is_super_admin, throw_unless}

-- The query string; an absent or empty parameter is `none`.
pub record ListParams : Type 0 where
  pub tenant_id : Option ℕ
  pub action : Option String
  pub limit : Option ℕ

-- `===` where either side may be null.
abbrev pub same_id : Option ℕ → Option ℕ → Bool
same_id none none = true
same_id (some a) (some b) = a == b
same_id _ _ = false

-- A condition that an absent parameter leaves out.
abbrev pub fits_tenant : Option ℕ → AuditEntry → Bool
fits_tenant none e = true
fits_tenant (some t) e = same_id e.tenant_id (some t)

abbrev pub fits_action : Option String → AuditEntry → Bool
fits_action none e = true
fits_action (some a) e = str_eq e.action a

abbrev pub fits : ListParams → AuditEntry → Bool
fits params e = fits_tenant params.tenant_id e && fits_action params.action e

abbrev pub query : ListParams → Action (List AuditEntry)
query params = gets λ s. take (or_default params.limit 100) (filter (fits params) s.audit_log)

abbrev pub asks_own : Option ℕ → Option ℕ → Bool
asks_own none own = true
asks_own (some t) own = same_id (some t) own

abbrev pub list_as : Bool → ListParams → AuthenticatedUser → Action (List AuditEntry)
list_as true params caller = query params
list_as false params caller = do
  throw_unless (asks_own params.tenant_id caller.tenant_id) forbidden
  query (record params { tenant_id = caller.tenant_id })

unfoldable pub list : ListParams → AuthenticatedUser → Action (List AuditEntry)
list params caller = list_as (is_super_admin caller.role) params caller

abbrev pub show : AuthenticatedUser → Option AuditEntry → Action AuditEntry
show caller none = throw not_found
show caller (some e) = do
  throw_unless (is_super_admin caller.role || same_id e.tenant_id caller.tenant_id) forbidden
  pure e

-- `findOne`; the test is `where: { id }`.
unfoldable pub find_one : (AuditEntry → Bool) → AuthenticatedUser → Action AuditEntry
find_one has_id caller = gets (λ s. find has_id s.audit_log) >>= show caller
