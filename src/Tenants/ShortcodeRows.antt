-- ===== src/Tenants/ShortcodeRows.antt =====
-- The statements on tenant_shortcodes that src/modules/tenants/tenant-shortcodes.service.ts runs
-- inside a transaction, with the triggers of prisma/manual-sql/003_tenant_shortcodes.sql.
pub mod Defaults
pub mod Patches
use script_pay_backend.Shared.{
  ℕ, String, Bool, true, false, not, ◌&&◌, ◌||◌, Option, none, some, List, [], ◌∷◌, ◌++◌, ◌==◌,
  find, any, update, update_many, filter, str_eq, truthy, or_default, is_some, if◌then◌else◌,
}
use script_pay_backend.Store.Rows.{
  Store, Tenant, TenantShortcode, ShortcodeType, Error, not_found, bad_request, unique_violation,
}
use script_pay_backend.Store.Tx.{Tx, pure, throw, throw_if, gets, modify, fresh_id, ◌>>=◌, ◌>>◌}
use script_pay_backend.Ledger.{is_tenant}
use script_pay_backend.Tenants.Access.{Vault}

pub record CreateShortcodeDto : Type 0 where
  pub type : ShortcodeType
  pub shortcode : String
  pub is_default : Bool
  pub passkey : Option String
  pub initiator_name : Option String
  pub security_credential : Option String

pub record UpdateShortcodeDto : Type 0 where
  pub type : Option ShortcodeType
  pub shortcode : Option String
  pub is_default : Option Bool
  pub passkey : Option String
  pub initiator_name : Option String
  pub security_credential : Option String

abbrev pub type_eq : ShortcodeType → ShortcodeType → Bool
type_eq ShortcodeType.till ShortcodeType.till = true
type_eq ShortcodeType.paybill ShortcodeType.paybill = true
type_eq ShortcodeType.b2c ShortcodeType.b2c = true
type_eq _ _ = false

abbrev pub has_shortcode_id : ℕ → TenantShortcode → Bool
has_shortcode_id id c = c.id == id

-- `where: { id, tenantId }`.
abbrev pub is_own : ℕ → ℕ → TenantShortcode → Bool
is_own tenant id c = c.id == id && c.tenant_id == tenant

-- `where: { tenantId, type, isDefault: true }`.
abbrev pub is_default_of : ℕ → ShortcodeType → TenantShortcode → Bool
is_default_of tenant type c = c.tenant_id == tenant && type_eq c.type type && c.is_default

abbrev pub is_active_row : ℕ → Tenant → Bool
is_active_row id t = is_tenant id t && str_eq t.status "active"

abbrev pub is_active_tenant : ℕ → List Tenant → Bool
is_active_tenant id tenants = any (is_active_row id) tenants

-- The row that the trigger of tenant_shortcodes finds against a new one of an active tenant.
abbrev pub takes : List Tenant → TenantShortcode → TenantShortcode → Bool
takes tenants c other =
    str_eq other.shortcode c.shortcode
    && not (other.id == c.id)
    && is_active_tenant other.tenant_id tenants

abbrev pub is_taken : TenantShortcode → Store → Bool
is_taken c s = is_active_tenant c.tenant_id s.tenants && any (takes s.tenants c) s.shortcodes

abbrev pub with_shortcodes : List TenantShortcode → Store → Store
with_shortcodes rows s = record s { shortcodes = rows }

abbrev pub undefault : TenantShortcode → TenantShortcode
undefault c = record c { is_default = false }

abbrev pub is_the : Option ℕ → TenantShortcode → Bool
is_the none c = false
is_the (some id) c = c.id == id

-- `updateMany({ where: { tenantId, type, isDefault: true }, data: { isDefault: false } })`, which
-- update() runs on every row but its own.
abbrev pub unset_defaults :
    ℕ → ShortcodeType → Option ℕ → List TenantShortcode → List TenantShortcode
unset_defaults tenant type own rows =
    update_many (λ c. is_default_of tenant type c && not (is_the own c)) undefault rows

abbrev pub set_default : Bool → ℕ → ShortcodeType → Option ℕ → Tx (Unit {0})
set_default true tenant type own =
    modify λ s. with_shortcodes (unset_defaults tenant type own s.shortcodes) s
set_default false tenant type own = pure tt

-- `tx.tenantShortcode.create({ data })`, with the trigger.
unfoldable pub create_shortcode : TenantShortcode → Tx TenantShortcode
create_shortcode d = do
  id ← fresh_id
  let c = record d { id = id }
  taken ← gets (is_taken c)
  throw_if taken unique_violation
  modify (λ s. with_shortcodes (s.shortcodes ++ c ∷ []) s)
  pure c

module _ (vault : Vault) where
  abbrev encrypted : Option String → Option String
  encrypted o = if truthy o then some (vault.encrypt (or_default o "")) else none

  abbrev has_payout_pair : Option String → Option String → Bool
  has_payout_pair name credential = truthy name && truthy credential

  abbrev configure_payout : ℕ → Option String → Option String → TenantShortcode → TenantShortcode
  configure_payout now name credential c =
      if has_payout_pair name credential
      then record c {
        mpesa_initiator_name = name;
        mpesa_security_credential_encrypted = encrypted credential;
        mpesa_payout_configured_at = some now;
      }
      else c

  abbrev new_shortcode : ℕ → ℕ → CreateShortcodeDto → TenantShortcode
  new_shortcode now tenant dto =
      configure_payout now dto.initiator_name dto.security_credential (record {
        id = 0;
        tenant_id = tenant;
        type = dto.type;
        shortcode = dto.shortcode;
        is_default = dto.is_default;
        mpesa_passkey_encrypted = encrypted dto.passkey;
        mpesa_initiator_name = none;
        mpesa_security_credential_encrypted = none;
        mpesa_payout_configured_at = none;
      })

  -- The transaction of `create`.
  unfoldable pub save_new : ℕ → CreateShortcodeDto → Tx TenantShortcode
  unfolding create_shortcode
  save_new tenant dto = do
    set_default dto.is_default tenant dto.type none
    now ← gets (λ s. s.now)
    create_shortcode (new_shortcode now tenant dto)

  abbrev keep_or_encrypt : Option String → Option String → Option String
  keep_or_encrypt new old = if truthy new then encrypted new else old

  -- The `data` of `update`.
  abbrev patch : ℕ → UpdateShortcodeDto → TenantShortcode → TenantShortcode
  patch now dto c = configure_payout now dto.initiator_name dto.security_credential (record c {
    type = or_default dto.type c.type;
    shortcode = or_default dto.shortcode c.shortcode;
    is_default = or_default dto.is_default c.is_default;
    mpesa_passkey_encrypted = keep_or_encrypt dto.passkey c.mpesa_passkey_encrypted;
  })

  abbrev or_not_found : Option TenantShortcode → Tx TenantShortcode
  or_not_found none = throw not_found
  or_not_found (some c) = pure c

  -- A passkey on a B2C row, or payout credentials on another.
  abbrev misfits : UpdateShortcodeDto → ShortcodeType → Bool
  misfits dto type =
      if type_eq type ShortcodeType.b2c
      then truthy dto.passkey
      else truthy dto.initiator_name || truthy dto.security_credential

  -- `tx.tenantShortcode.update`, with the trigger, which fires if the patch names the shortcode.
  unfoldable pub write_patch : ℕ → UpdateShortcodeDto → Tx TenantShortcode
  write_patch id dto = do
    now ← gets (λ s. s.now)
    found ← gets (λ s. find (has_shortcode_id id) s.shortcodes)
    row ← or_not_found found
    let c = patch now dto row
    taken ← gets (is_taken c)
    throw_if (is_some dto.shortcode && taken) unique_violation
    modify (λ s. with_shortcodes (update (has_shortcode_id id) (patch now dto) s.shortcodes) s)
    pure c

  abbrev patch_found : ℕ → ℕ → UpdateShortcodeDto → TenantShortcode → Tx TenantShortcode
  patch_found tenant id dto existing = do
    let type = or_default dto.type existing.type
    throw_if (misfits dto type) bad_request
    set_default (or_default dto.is_default false) tenant type (some id)
    write_patch id dto

  -- The transaction of `update`.
  unfoldable pub save_patch : ℕ → ℕ → UpdateShortcodeDto → Tx TenantShortcode
  unfolding write_patch
  save_patch tenant id dto = do
    found ← gets (λ s. find (is_own tenant id) s.shortcodes)
    existing ← or_not_found found
    patch_found tenant id dto existing

-- `deleteMany({ where: { id, tenantId } })`: whether a row was there.
unfoldable pub delete_shortcode : ℕ → ℕ → Tx Bool
delete_shortcode tenant id = do
  there ← gets (λ s. any (is_own tenant id) s.shortcodes)
  modify (λ s. with_shortcodes (filter (λ c. not (is_own tenant id c)) s.shortcodes) s)
  pure there
