-- ===== src/ApiKeys.antt =====
-- ApiKeysService (src/modules/api-keys/api-keys.service.ts) and ApiKeyGuard
-- (src/common/guards/api-key.guard.ts). The random part of a new key is an argument.
pub mod Guard
pub mod Letters
use Prim.Native.String.{slice, ◌++◌ as append}
use script_pay_backend.Shared.{
  ℕ, String, Bool, true, false, not, ◌&&◌, Option, none, some, List, [], ◌∷◌, ◌++◌, ◌==◌, find, any,
  update_many, filter, map, or_default, is_some,
}
use script_pay_backend.Store.Rows.{
  Store, ApiKey, ApiKeyScope, User, Role, Tenant, Shown, Mail, Letter,
}
use script_pay_backend.Store.Tx
use script_pay_backend.Store.Tx.{Tx}
use script_pay_backend.Store.Action.{
  Action, pure, gets, modify, record_audit, transaction, ◌>>=◌, ◌>>◌,
}
use script_pay_backend.Ledger.{is_tenant}
use script_pay_backend.Tenants.Access.{is_tenant_admin, is_super_admin, same_tenant}

-- argon2, and the secret that is added to a key before it is hashed.
pub record Hasher : Type 0 where
  pub hash : String → String
  pub verify : String → String → Bool
  pub pepper : String

-- `EmailService` reports no failure: a letter is handed over, whatever becomes of it.
unfoldable pub send_letters : List Letter → Action (Unit {0})
send_letters ls = modify λ s. record s { letters = s.letters ++ ls }

abbrev pub letter_to : Mail → User → Letter
letter_to mail user = record { to = user.email; mail = mail }

-- `where: { tenantId, role: "TENANT_ADMIN" }`.
abbrev pub is_admin_of : ℕ → User → Bool
is_admin_of tenant u = same_tenant u.tenant_id tenant && is_tenant_admin u.role

abbrev pub is_staff : User → Bool
is_staff u = is_super_admin u.role

pub record KeyMaterial : Type 0 where
  pub raw_key : String
  pub key_hash : String
  pub key_prefix : String

pub record IssuedKey : Type 0 where
  pub id : ℕ
  pub raw_key : String
  pub key_prefix : String
  pub scopes : List ApiKeyScope

abbrev tenant_or_id : ℕ → Option Tenant → Shown
tenant_or_id id none = Shown.id_only id
tenant_or_id id (some t) = Shown.name t.name

-- `tenant?.name ?? tenantId`.
abbrev pub shown_tenant : ℕ → List Tenant → Shown
shown_tenant id tenants = tenant_or_id id (find (is_tenant id) tenants)

abbrev user_or_id : ℕ → Option User → Shown
user_or_id id none = Shown.id_only id
user_or_id id (some u) = Shown.name u.email

abbrev is_user : ℕ → User → Bool
is_user id u = u.id == id

-- `actor?.email ?? actorId`.
abbrev pub shown_actor : ℕ → List User → Shown
shown_actor id users = user_or_id id (find (is_user id) users)

-- The letters about a new key: the key itself for the tenant's admins, a notice for the staff.
abbrev pub key_letters :
    ℕ → ℕ → String → String → List ApiKeyScope → List Tenant → List User → List Letter
key_letters tenant actor raw prefix scopes tenants users =
    let notice =
      Mail.api_key_staff_notice (shown_tenant tenant tenants) prefix scopes
        (shown_actor actor users) in
    map (letter_to (Mail.api_key_rotated raw)) (filter (is_admin_of tenant) users)
    ++ map (letter_to notice) (filter is_staff users)

unfoldable pub notify_key_issued : ℕ → ℕ → String → String → List ApiKeyScope → Action (Unit {0})
unfolding send_letters
notify_key_issued tenant actor raw prefix scopes = do
  tenants ← gets (λ s. s.tenants)
  users ← gets (λ s. s.users)
  send_letters (key_letters tenant actor raw prefix scopes tenants users)

-- `tx.apiKey.create`.
unfoldable pub create_api_key : ApiKey → Tx ApiKey
create_api_key d = Tx.◌>>=◌ Tx.fresh_id λ id.
    let c = record d { id = id } in
    Tx.◌>>◌ (Tx.modify (λ s. record s { api_keys = s.api_keys ++ c ∷ [] })) (Tx.pure c)

abbrev pub default_scopes : List ApiKeyScope
default_scopes =
    ApiKeyScope.payments_initiate ∷ ApiKeyScope.payments_read ∷ ApiKeyScope.webhooks_manage ∷ []

-- `where: { tenantId, revokedAt: null }`.
abbrev pub is_live_key_of : ℕ → ApiKey → Bool
is_live_key_of tenant k = k.tenant_id == tenant && not (is_some k.revoked_at)

abbrev pub issued_key : KeyMaterial → ApiKey → IssuedKey
issued_key m k = record {
  id = k.id;
  raw_key = m.raw_key;
  key_prefix = k.key_prefix;
  scopes = k.scopes;
}

module _ (hasher : Hasher) where
  abbrev pub mint_key_material : String → KeyMaterial
  mint_key_material hex =
      let raw = append "sp_" hex in
      record {
        raw_key = raw;
        key_hash = hasher.hash (append raw hasher.pepper);
        key_prefix = slice raw 0 8;
      }

  abbrev pub new_api_key : ℕ → List ApiKeyScope → Option ℕ → KeyMaterial → ApiKey
  new_api_key tenant scopes expires_at m = record {
    id = 0;
    tenant_id = tenant;
    key_hash = m.key_hash;
    key_prefix = m.key_prefix;
    scopes = scopes;
    last_used_at = none;
    revoked_at = none;
    expires_at = expires_at;
  }

  unfoldable pub create : ℕ → List ApiKeyScope → ℕ → Option ℕ → String → Action IssuedKey
  unfolding create_api_key notify_key_issued
  create tenant scopes actor expires_at hex = do
    let m = mint_key_material hex
    row ← transaction (create_api_key (new_api_key tenant scopes expires_at m))
    record_audit (record {
      tenant_id = some tenant;
      actor_id = some actor;
      action = "api_key.created";
      target_id = some row.id;
    })
    notify_key_issued tenant actor m.raw_key row.key_prefix scopes
    pure (issued_key m row)

  unfoldable pub create_system_issued : ℕ → List ApiKeyScope → String → Action IssuedKey
  unfolding create_api_key
  create_system_issued tenant scopes hex = do
    let m = mint_key_material hex
    row ← transaction (create_api_key (new_api_key tenant scopes none m))
    record_audit (record {
      tenant_id = some tenant;
      actor_id = none;
      action = "api_key.created";
      target_id = some row.id;
    })
    pure (issued_key m row)

  abbrev pub some_issued : IssuedKey → Action (Option IssuedKey)
  some_issued k = pure (some k)

  abbrev pub provision_unless : ℕ → String → Option ApiKey → Action (Option IssuedKey)
  provision_unless tenant hex (some existing) = pure none
  provision_unless tenant hex none = create_system_issued tenant default_scopes hex >>= some_issued

  unfoldable pub provision_default_key_if_needed : ℕ → String → Action (Option IssuedKey)
  unfolding create_system_issued
  provision_default_key_if_needed tenant hex =
      gets (λ s. find (is_live_key_of tenant) s.api_keys) >>= provision_unless tenant hex

abbrev pub is_key_of : ℕ → ℕ → ApiKey → Bool
is_key_of tenant id k = k.id == id && k.tenant_id == tenant

abbrev pub revoke_key : ℕ → ApiKey → ApiKey
revoke_key now k = record k { revoked_at = some now }

abbrev pub audit_revoked : ℕ → ℕ → ℕ → Bool → Action (Unit {0})
audit_revoked tenant id actor true = record_audit (record {
  tenant_id = some tenant;
  actor_id = some actor;
  action = "api_key.revoked";
  target_id = some id;
})
audit_revoked tenant id actor false = pure tt

-- Whether a row was there: `updateMany` reports how many.
unfoldable pub revoke : ℕ → ℕ → ℕ → Action Bool
revoke tenant id actor = do
  there ← gets (λ s. any (is_key_of tenant id) s.api_keys)
  modify
      λ s. record s { api_keys = update_many (is_key_of tenant id) (revoke_key s.now) s.api_keys }
  audit_revoked tenant id actor there
  pure there
