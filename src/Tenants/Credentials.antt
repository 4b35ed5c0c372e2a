-- ===== src/Tenants/Credentials.antt =====
-- TenantsService (src/modules/tenants/tenants.service.ts): a tenant's Daraja credentials, which the
-- payment services read before each call of Safaricom, and its webhook.
pub mod KillSwitch
pub mod Secrets
use Prim.Native.String.{◌++◌ as append}
use script_pay_backend.Shared.{
  ℕ, String, Bool, true, false, not, ◌&&◌, ◌||◌, Option, none, some, List, ◌++◌, ◌==◌, find, update,
  filter, map, str_eq, truthy, or_default,
}
use script_pay_backend.Store.Rows.{
  Store, Tenant, TenantShortcode, ShortcodeType, User, Mail, Letter, forbidden, not_found,
}
use script_pay_backend.Store.Tx.{Result}
use script_pay_backend.Store.Action.{
  Action, pure, throw, gets, modify, await, record_audit, ◌>>=◌, ◌>>◌,
}
use script_pay_backend.Ledger.{is_tenant}
use script_pay_backend.Payments.Safaricom.{PaymentChannel}
use script_pay_backend.ApiKeys.{letter_to, is_admin_of, is_staff, send_letters, shown_tenant}
use script_pay_backend.Tenants.Access.{AuthenticatedUser, Vault, Gateway, throw_unless}
use script_pay_backend.Tenants.ShortcodeRows.{type_eq, is_own, is_default_of}
use script_pay_backend.Tenants.Shortcodes.{
  find_tenant, has_app_credentials, consumer_key, consumer_secret, may_manage, or_not_found,
}

pub record TenantMpesaCredentials : Type 0 where
  pub shortcode : String
  pub mpesa_consumer_key : String
  pub mpesa_consumer_secret : String
  pub mpesa_passkey : String

pub record TenantPayoutCredentials : Type 0 where
  pub shortcode : String
  pub mpesa_consumer_key : String
  pub mpesa_consumer_secret : String
  pub initiator_name : String
  pub security_credential : String

-- The statuses that stop money in both directions.
abbrev pub is_blocked : String → Bool
is_blocked status = str_eq status "suspended" || str_eq status "removed"

abbrev pub may_pay : Tenant → Action (Unit {0})
may_pay tenant = do
  throw_unless (not (is_blocked tenant.status)) forbidden
  throw_unless (has_app_credentials tenant) forbidden

abbrev pub type_of : PaymentChannel → ShortcodeType
type_of PaymentChannel.paybill = ShortcodeType.paybill
type_of PaymentChannel.till = ShortcodeType.till

-- `where: { id: shortcodeId, tenantId, type: "B2C" }`.
abbrev pub is_payout_shortcode : ℕ → ℕ → TenantShortcode → Bool
is_payout_shortcode tenant id c = is_own tenant id c && type_eq c.type ShortcodeType.b2c

abbrev pub or_forbidden : Option TenantShortcode → Action TenantShortcode
or_forbidden none = throw forbidden
or_forbidden (some c) = pure c

module _ (vault : Vault) where
  abbrev pub payment_credentials_of : ℕ → ShortcodeType → Tenant → Action TenantMpesaCredentials
  payment_credentials_of tenant_id type tenant = do
    may_pay tenant
    found ← gets (λ s. find (is_default_of tenant_id type) s.shortcodes)
    c ← or_forbidden found
    throw_unless (truthy c.mpesa_passkey_encrypted) forbidden
    secret ← await (consumer_secret vault tenant)
    passkey ← await (vault.decrypt (or_default c.mpesa_passkey_encrypted ""))
    pure (record {
      shortcode = c.shortcode;
      mpesa_consumer_key = consumer_key tenant;
      mpesa_consumer_secret = secret;
      mpesa_passkey = passkey;
    })

  unfoldable pub get_mpesa_credentials_for_payment :
      ℕ → PaymentChannel → Action TenantMpesaCredentials
  get_mpesa_credentials_for_payment tenant_id channel =
      find_tenant tenant_id >>= payment_credentials_of tenant_id (type_of channel)

  abbrev pub payout_credentials_of : ℕ → ℕ → Tenant → Action TenantPayoutCredentials
  payout_credentials_of tenant_id id tenant = do
    may_pay tenant
    found ← gets (λ s. find (is_payout_shortcode tenant_id id) s.shortcodes)
    c ← or_not_found found
    throw_unless (truthy c.mpesa_initiator_name && truthy c.mpesa_security_credential_encrypted)
        forbidden
    secret ← await (consumer_secret vault tenant)
    credential ← await (vault.decrypt (or_default c.mpesa_security_credential_encrypted ""))
    pure (record {
      shortcode = c.shortcode;
      mpesa_consumer_key = consumer_key tenant;
      mpesa_consumer_secret = secret;
      initiator_name = or_default c.mpesa_initiator_name "";
      security_credential = credential;
    })

  unfoldable pub get_mpesa_credentials_for_payout : ℕ → ℕ → Action TenantPayoutCredentials
  get_mpesa_credentials_for_payout tenant_id id =
      find_tenant tenant_id >>= payout_credentials_of tenant_id id

-- `prisma.tenant.update`, which throws when there is no such row.
abbrev pub update_tenant : ℕ → (Tenant → Tenant) → Action (Unit {0})
update_tenant id f = do
  row ← find_tenant id
  modify λ s. record s { tenants = update (is_tenant id) f s.tenants }

abbrev pub with_app_credentials : String → String → ℕ → Tenant → Tenant
with_app_credentials key secret now t = record t {
  mpesa_consumer_key = some key;
  mpesa_consumer_secret_encrypted = some secret;
  mpesa_credentials_configured_at = some now;
}

abbrev pub with_webhook : String → String → ℕ → Tenant → Tenant
with_webhook url secret now t = record t {
  webhook_url = some url;
  webhook_secret_encrypted = some secret;
  webhook_configured_at = some now;
}

abbrev pub audit_tenant : ℕ → Option ℕ → String → Action (Unit {0})
audit_tenant tenant actor action =
    record_audit
      (record { tenant_id = some tenant; actor_id = actor; action = action; target_id = none })

abbrev pub webhook_letters : ℕ → String → String → List Tenant → List User → List Letter
webhook_letters tenant url secret tenants users =
    map (letter_to (Mail.webhook_secret_rotated secret)) (filter (is_admin_of tenant) users)
    ++ map (letter_to (Mail.webhook_secret_staff_notice (shown_tenant tenant tenants) url))
        (filter is_staff users)

unfoldable pub notify_webhook_secret_rotated : ℕ → String → String → Action (Unit {0})
unfolding send_letters
notify_webhook_secret_rotated tenant url secret = do
  tenants ← gets (λ s. s.tenants)
  users ← gets (λ s. s.users)
  send_letters (webhook_letters tenant url secret tenants users)

abbrev pub webhook_secret : String → String
webhook_secret hex = append "whsec_" hex

module _ (vault : Vault) (daraja : Gateway) where
  unfoldable pub set_app_credentials : ℕ → String → String → AuthenticatedUser → Action (Unit {0})
  set_app_credentials tenant key secret actor = do
    throw_unless (may_manage tenant actor) forbidden
    await (daraja.verify_credentials key secret)
    now ← gets (λ s. s.now)
    update_tenant tenant (with_app_credentials key (vault.encrypt secret) now)
    audit_tenant tenant (some actor.id) "tenant.app_credentials_configured"

  -- `hex` is the random part of the secret, which is returned once.
  unfoldable pub configure_webhook : ℕ → String → Option ℕ → String → Action String
  unfolding notify_webhook_secret_rotated
  configure_webhook tenant url api_key hex = do
    let secret = webhook_secret hex
    now ← gets (λ s. s.now)
    update_tenant tenant (with_webhook url (vault.encrypt secret) now)
    audit_tenant tenant api_key "tenant.webhook_configured"
    notify_webhook_secret_rotated tenant url secret
    pure secret
