-- ===== src/Tenants/Shortcodes.antt =====
-- TenantShortcodesService (src/modules/tenants/tenant-shortcodes.service.ts).
pub mod Calls
use script_pay_backend.Shared.{
  ◌≡◌, ap, ℕ, String, Bool, true, false, not, ◌&&◌, ◌||◌, Option, none, some, List, ◌==◌, find,
  filter, map, truthy, or_default, is_some,
}
use script_pay_backend.Store.Rows.{
  Store, Tenant, TenantShortcode, ShortcodeType, Error, not_found, bad_request, conflict, forbidden,
  row_not_found, unique_violation,
}
use script_pay_backend.Store.Tx.{Tx, Result, ok, err}
use script_pay_backend.Store.Action.{
  Action, pure, throw, gets, await, record_audit, transaction, try_catch, ◌>>=◌, ◌>>◌,
}
use script_pay_backend.Ledger.{is_tenant}
use script_pay_backend.Tenants.Access.{
  AuthenticatedUser, Vault, Gateway, is_super_admin, same_tenant, throw_unless,
}
use script_pay_backend.Tenants.ShortcodeRows.{
  CreateShortcodeDto, UpdateShortcodeDto, type_eq, is_own, save_new, save_patch, delete_shortcode,
}

pub record ShortcodeSummary : Type 0 where
  pub id : ℕ
  pub type : ShortcodeType
  pub shortcode : String
  pub is_default : Bool
  pub stk_configured : Bool
  pub payout_configured : Bool

abbrev pub to_summary : TenantShortcode → ShortcodeSummary
to_summary row = record {
  id = row.id;
  type = row.type;
  shortcode = row.shortcode;
  is_default = row.is_default;
  stk_configured = truthy row.mpesa_passkey_encrypted;
  payout_configured = is_some row.mpesa_payout_configured_at;
}

abbrev pub may_manage : ℕ → AuthenticatedUser → Bool
may_manage tenant actor = same_tenant actor.tenant_id tenant || is_super_admin actor.role

abbrev pub assert_can_manage : ℕ → AuthenticatedUser → Action (Unit {0})
assert_can_manage tenant actor = throw_unless (may_manage tenant actor) forbidden

abbrev pub conflict_or : {A : Type 0} → Error → Action A
conflict_or unique_violation = throw conflict
conflict_or e = throw e

abbrev pub rejecting_shortcode_conflict : {A : Type 0} → Action A → Action A
rejecting_shortcode_conflict op = try_catch op conflict_or

-- `findUniqueOrThrow`, and a look-up whose absence the service reports itself.
abbrev pub or_row_not_found : {A : Type 0} → Option A → Action A
or_row_not_found none = throw row_not_found
or_row_not_found (some a) = pure a

abbrev pub or_not_found : {A : Type 0} → Option A → Action A
or_not_found none = throw not_found
or_not_found (some a) = pure a

abbrev pub find_tenant : ℕ → Action Tenant
find_tenant id = gets (λ s. find (is_tenant id) s.tenants) >>= or_row_not_found

abbrev pub has_app_credentials : Tenant → Bool
has_app_credentials tenant =
    truthy tenant.mpesa_consumer_key && truthy tenant.mpesa_consumer_secret_encrypted

abbrev pub consumer_key : Tenant → String
consumer_key tenant = or_default tenant.mpesa_consumer_key ""

abbrev pub audit_shortcode : ℕ → AuthenticatedUser → String → ℕ → Action (Unit {0})
audit_shortcode tenant actor action target = record_audit (record {
  tenant_id = some tenant;
  actor_id = some actor.id;
  action = action;
  target_id = some target;
})

module _ (vault : Vault) where
  abbrev pub consumer_secret : Tenant → Result String
  consumer_secret tenant = vault.decrypt (or_default tenant.mpesa_consumer_secret_encrypted "")

  unfoldable pub update : ℕ → ℕ → UpdateShortcodeDto → AuthenticatedUser → Action ShortcodeSummary
  update tenant_id id dto actor = do
    assert_can_manage tenant_id actor
    updated ← rejecting_shortcode_conflict (transaction (save_patch vault tenant_id id dto))
    audit_shortcode tenant_id actor "tenant_shortcode.updated" id
    pure (to_summary updated)

module _ (vault : Vault) (daraja : Gateway) where
  -- The registration after a shortcode is saved, whose failure is only noted.
  abbrev pub register_if_c2b : Tenant → String → CreateShortcodeDto → Bool → Action (Unit {0})
  register_if_c2b tenant secret dto true = pure tt
  register_if_c2b tenant secret dto false =
      try_catch (await (daraja.register_c2b_url (consumer_key tenant) secret dto.shortcode)) λ e.
        record_audit (record {
          tenant_id = some tenant.id;
          actor_id = none;
          action = "daraja.c2b_url_registration_failed";
          target_id = none;
        })

  unfoldable pub create : ℕ → CreateShortcodeDto → AuthenticatedUser → Action ShortcodeSummary
  create tenant_id dto actor = do
    assert_can_manage tenant_id actor
    tenant ← find_tenant tenant_id
    throw_unless (has_app_credentials tenant) forbidden
    secret ← await (consumer_secret vault tenant)
    await (daraja.verify_credentials (consumer_key tenant) secret)
    created ← rejecting_shortcode_conflict (transaction (save_new vault tenant_id dto))
    register_if_c2b tenant secret dto (type_eq dto.type ShortcodeType.b2c)
    audit_shortcode tenant_id actor "tenant_shortcode.created" created.id
    pure (to_summary created)

  unfoldable pub register_c2b_url : ℕ → ℕ → AuthenticatedUser → Action TenantShortcode
  register_c2b_url tenant_id id actor = do
    assert_can_manage tenant_id actor
    tenant ← find_tenant tenant_id
    throw_unless (has_app_credentials tenant) forbidden
    found ← gets (λ s. find (is_own tenant_id id) s.shortcodes)
    row ← or_not_found found
    throw_unless (not (type_eq row.type ShortcodeType.b2c)) bad_request
    secret ← await (consumer_secret vault tenant)
    await (daraja.register_c2b_url (consumer_key tenant) secret row.shortcode)
    audit_shortcode tenant_id actor "daraja.c2b_url_registered" row.id
    pure row

unfoldable pub remove : ℕ → ℕ → AuthenticatedUser → Action (Unit {0})
remove tenant_id id actor = do
  assert_can_manage tenant_id actor
  there ← transaction (delete_shortcode tenant_id id)
  throw_unless there not_found
  audit_shortcode tenant_id actor "tenant_shortcode.removed" id

unfoldable pub list_for_tenant : ℕ → AuthenticatedUser → Action (List ShortcodeSummary)
list_for_tenant tenant_id actor = do
  assert_can_manage tenant_id actor
  rows ← gets (λ s. filter (λ (c : TenantShortcode). c.tenant_id == tenant_id) s.shortcodes)
  pure (map to_summary rows)

pub find_tenant_found :
    (id : ℕ) (row : Tenant) (s : Store)
    → find (is_tenant id) s.tenants ≡ some row
    → find_tenant id s ≡ (ok row, s)
find_tenant_found id row s found = ap (λ o. or_row_not_found o s) found
