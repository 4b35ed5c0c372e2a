-- ===== src/Tenants/Onboarding.antt =====
-- TenantsService (src/modules/tenants/tenants.service.ts): how a tenant comes to be, by platform
-- staff or by its own first admin, and who may read it.
pub mod Once
use script_pay_backend.Shared.{
  ℕ, String, Bool, true, false, not, ◌&&◌, ◌||◌, Option, none, some, List, [], ◌∷◌, ◌++◌, ◌==◌,
  find, filter, any, update_many, is_some,
}
use script_pay_backend.Store.Rows.{
  Store, Tenant, TenantShortcode, ShortcodeType, User, info, conflict, forbidden, not_found,
}
use script_pay_backend.Store.Tx
use script_pay_backend.Store.Tx.{Tx}
use script_pay_backend.Store.Action.{
  Action, pure, throw, gets, record_audit, send_alert, transaction, ◌>>=◌, ◌>>◌,
}
use script_pay_backend.Ledger.{is_tenant}
use script_pay_backend.ApiKeys.{is_admin_of}
use script_pay_backend.Tenants.Access.{
  AuthenticatedUser, is_super_admin, is_tenant_admin, same_tenant, throw_unless,
}
use script_pay_backend.Tenants.ShortcodeRows.{create_shortcode}
use script_pay_backend.Tenants.Shortcodes.{or_not_found}

pub record CreateTenantDto : Type 0 where
  pub name : String
  pub business_shortcode : String

abbrev pub new_tenant : String → ℕ → Tenant
new_tenant name id = record {
  id = id;
  name = name;
  status = "pending_kyc";
  mpesa_consumer_key = none;
  mpesa_consumer_secret_encrypted = none;
  mpesa_credentials_configured_at = none;
  webhook_url = none;
  webhook_secret_encrypted = none;
  webhook_configured_at = none;
}

unfoldable pub create_tenant : String → Tx Tenant
create_tenant name = Tx.◌>>=◌ Tx.fresh_id λ id.
    Tx.◌>>◌ (Tx.modify λ s. record s { tenants = s.tenants ++ new_tenant name id ∷ [] })
      (Tx.pure (new_tenant name id))

abbrev pub initial_shortcode : ℕ → String → TenantShortcode
initial_shortcode tenant code = record {
  id = 0;
  tenant_id = tenant;
  type = ShortcodeType.paybill;
  shortcode = code;
  is_default = true;
  mpesa_passkey_encrypted = none;
  mpesa_initiator_name = none;
  mpesa_security_credential_encrypted = none;
  mpesa_payout_configured_at = none;
}

unfoldable pub create_initial_shortcode : ℕ → String → Action TenantShortcode
unfolding create_shortcode
create_initial_shortcode tenant code =
    transaction (create_shortcode (initial_shortcode tenant code))

abbrev pub audit_new : Tenant → AuthenticatedUser → String → Action (Unit {0})
audit_new tenant actor action = record_audit (record {
  tenant_id = some tenant.id;
  actor_id = some actor.id;
  action = action;
  target_id = some tenant.id;
})

unfoldable pub create : CreateTenantDto → AuthenticatedUser → Action Tenant
unfolding create_tenant create_initial_shortcode
create dto actor = do
  tenant ← transaction (create_tenant dto.name)
  create_initial_shortcode tenant.id dto.business_shortcode
  audit_new tenant actor "tenant.created"
  pure tenant

-- `where: { id: actor.id, tenantId: null }`.
abbrev pub is_unlinked : ℕ → User → Bool
is_unlinked id u = u.id == id && not (is_some u.tenant_id)

abbrev pub link_to : ℕ → User → User
link_to tenant u = record u { tenant_id = some tenant }

-- `updateMany`, which finds one row at most: user ids are unique.
abbrev pub link_user : ℕ → ℕ → Bool → Tx (Unit {0})
link_user user tenant true =
    Tx.modify λ s. record s { users = update_many (is_unlinked user) (link_to tenant) s.users }
link_user user tenant false = Tx.throw conflict

-- The transaction of `onboardSelf`.
unfoldable pub claim : ℕ → String → Tx Tenant
unfolding create_tenant
claim user name = Tx.◌>>=◌ (create_tenant name) λ tenant.
    Tx.◌>>=◌ (Tx.gets (λ s. any (is_unlinked user) s.users))
      λ there. Tx.◌>>◌ (link_user user tenant.id there) (Tx.pure tenant)

-- What follows once the account is linked.
unfoldable pub announce : CreateTenantDto → AuthenticatedUser → Tenant → Action Tenant
unfolding create_initial_shortcode
announce dto actor tenant = do
  create_initial_shortcode tenant.id dto.business_shortcode
  audit_new tenant actor "tenant.onboarded_self"
  send_alert
      (record { title = "New tenant awaiting KYC review"; severity = info; transaction_id = none })
  pure tenant

abbrev pub found : CreateTenantDto → AuthenticatedUser → Action Tenant
found dto actor = transaction (claim actor.id dto.name) >>= announce dto actor

unfoldable pub onboard_self : CreateTenantDto → AuthenticatedUser → Action Tenant
unfolding claim announce
onboard_self dto actor = do
  throw_unless (not (is_some actor.tenant_id)) forbidden
  throw_unless (is_tenant_admin actor.role) forbidden
  found dto actor

-- What `findOne` answers: staff also get the email of the tenant's first admin.
pub record TenantView : Type 0 where
  pub tenant : Tenant
  pub contact_email : Option String

abbrev pub email_of : Option User → Option String
email_of none = none
email_of (some u) = some u.email

abbrev pub view_for : Bool → Tenant → Action TenantView
view_for true tenant = do
  admin ← gets (λ s. find (is_admin_of tenant.id) s.users)
  pure (record { tenant = tenant; contact_email = email_of admin })
view_for false tenant = pure (record { tenant = tenant; contact_email = none })

unfoldable pub find_one : ℕ → AuthenticatedUser → Action TenantView
find_one id caller = do
  throw_unless (is_super_admin caller.role || same_tenant caller.tenant_id id) forbidden
  row ← gets (λ s. find (is_tenant id) s.tenants)
  tenant ← or_not_found row
  view_for (is_super_admin caller.role) tenant
