-- ===== src/Tenants/Status.antt =====
-- TenantsService.updateStatus (src/modules/tenants/tenants.service.ts), with the trigger on
-- activation of prisma/manual-sql/003_tenant_shortcodes.sql.
pub mod SelfService
use script_pay_backend.Shared.{
  ℕ, String, Bool, true, false, not, ◌&&◌, ◌||◌, Option, none, some, List, ◌==◌, find, any, update,
  filter, map, str_eq, if◌then◌else◌,
}
use script_pay_backend.Store.Rows.{
  Store, Tenant, TenantShortcode, Mail, conflict, forbidden, row_not_found, unique_violation,
}
use script_pay_backend.Store.Tx
use script_pay_backend.Store.Tx.{Tx}
use script_pay_backend.Store.Action.{
  Action, pure, throw, gets, record_audit, transaction, try_catch, swallow, ◌>>=◌, ◌>>◌,
}
use script_pay_backend.Ledger.{is_tenant}
use script_pay_backend.ApiKeys.{
  Hasher, IssuedKey, letter_to, is_admin_of, send_letters, provision_default_key_if_needed,
}
use script_pay_backend.Tenants.Access.{AuthenticatedUser, is_super_admin, same_tenant, throw_unless}
use script_pay_backend.Tenants.ShortcodeRows.{is_active_tenant}
use script_pay_backend.Tenants.Shortcodes.{find_tenant, rejecting_shortcode_conflict}

-- What the trigger on activation looks for: another active tenant's row with the same shortcode.
abbrev pub rivals : List Tenant → TenantShortcode → TenantShortcode → Bool
rivals tenants mine theirs =
    str_eq theirs.shortcode mine.shortcode
    && not (theirs.tenant_id == mine.tenant_id)
    && is_active_tenant theirs.tenant_id tenants

abbrev pub has_rival : ℕ → Store → TenantShortcode → Bool
has_rival id s mine = mine.tenant_id == id && any (rivals s.tenants mine) s.shortcodes

abbrev pub collides : ℕ → Store → Bool
collides id s = any (has_rival id s) s.shortcodes

abbrev pub activates : Tenant → String → Bool
activates old status = str_eq status "active" && not (str_eq old.status "active")

abbrev pub with_status : String → Tenant → Tenant
with_status status t = record t { status = status }

abbrev pub write_status : ℕ → String → Tenant → Bool → Tx Tenant
write_status id status old true = Tx.throw unique_violation
write_status id status old false =
    Tx.◌>>◌
      (Tx.modify λ s. record s { tenants = update (is_tenant id) (with_status status) s.tenants })
      (Tx.pure (with_status status old))

abbrev pub set_found : ℕ → String → Option Tenant → Tx Tenant
set_found id status none = Tx.throw row_not_found
set_found id status (some old) =
    Tx.◌>>=◌ (Tx.gets (λ s. activates old status && collides id s)) (write_status id status old)

-- `prisma.tenant.update({ data: { status } })`, with the trigger.
unfoldable pub set_status : ℕ → String → Tx Tenant
set_status id status = Tx.◌>>=◌ (Tx.gets (λ s. find (is_tenant id) s.tenants)) (set_found id status)

-- SELF_SERVICE_STATUSES.
abbrev pub is_self_service : String → Bool
is_self_service status = str_eq status "active" || str_eq status "suspended"

-- What a caller who is not platform staff may not do.
abbrev pub self_service_guard : ℕ → String → String → AuthenticatedUser → Action (Unit {0})
self_service_guard id before target actor = do
  throw_unless (same_tenant actor.tenant_id id) forbidden
  throw_unless (not (str_eq before "removed" || str_eq target "removed")) forbidden
  throw_unless (is_self_service before) forbidden
  throw_unless (is_self_service target) forbidden

abbrev pub status_guard : ℕ → String → String → AuthenticatedUser → Action (Unit {0})
status_guard id before target actor =
    if is_super_admin actor.role then pure tt else self_service_guard id before target actor

-- The email with the key that activation provisions.
abbrev pub deliver_key : ℕ → Option IssuedKey → Action (Unit {0})
deliver_key tenant none = pure tt
deliver_key tenant (some k) = do
  users ← gets (λ s. s.users)
  send_letters
      (map (letter_to (Mail.api_key_provisioned k.raw_key)) (filter (is_admin_of tenant) users))

module _ (hasher : Hasher) where
  unfoldable pub provision_api_key_on_activation : ℕ → String → Action (Unit {0})
  unfolding provision_default_key_if_needed send_letters
  provision_api_key_on_activation tenant hex =
      try_catch (provision_default_key_if_needed hasher tenant hex >>= deliver_key tenant) swallow

  abbrev pub provision_if : Bool → ℕ → String → Action (Unit {0})
  provision_if true tenant hex = provision_api_key_on_activation tenant hex
  provision_if false tenant hex = pure tt

  abbrev pub apply_status : ℕ → String → AuthenticatedUser → String → Tenant → Action Tenant
  apply_status id status actor hex before = do
    tenant ← rejecting_shortcode_conflict (transaction (set_status id status))
    record_audit (record {
      tenant_id = some id;
      actor_id = some actor.id;
      action = "tenant.status_changed";
      target_id = some id;
    })
    provision_if (activates before status) id hex
    pure tenant

  abbrev pub change_status : ℕ → String → AuthenticatedUser → String → Tenant → Action Tenant
  change_status id status actor hex before =
      status_guard id before.status status actor >> apply_status id status actor hex before

  -- `hex` is the random part of the key that an activation may provision.
  unfoldable pub update_status : ℕ → String → AuthenticatedUser → String → Action Tenant
  unfolding set_status provision_api_key_on_activation
  update_status id status actor hex = find_tenant id >>= change_status id status actor hex
