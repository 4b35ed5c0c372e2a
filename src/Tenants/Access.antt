-- ===== src/Tenants/Access.antt =====
-- Who calls: the claims of an access token, and the checks of role and tenant that the services
-- repeat.
use script_pay_backend.Shared.{ℕ, String, Bool, true, false, Option, none, some, ◌==◌}
use script_pay_backend.Store.Rows.{Role, Error}
use script_pay_backend.Store.Tx.{Result}
use script_pay_backend.Store.Action.{Action, pure, throw}

pub record AuthenticatedUser : Type 0 where
  pub id : ℕ
  pub email : String
  pub role : Role
  pub tenant_id : Option ℕ

abbrev pub is_super_admin : Role → Bool
is_super_admin Role.super_admin = true
is_super_admin _ = false

abbrev pub is_tenant_admin : Role → Bool
is_tenant_admin Role.tenant_admin = true
is_tenant_admin _ = false

-- `tenantId === id` where either may be null.
abbrev pub same_tenant : Option ℕ → ℕ → Bool
same_tenant none id = false
same_tenant (some t) id = t == id

abbrev pub throw_unless : Bool → Error → Action (Unit {0})
throw_unless true e = pure tt
throw_unless false e = throw e

-- The AES layer of CredentialsEncryptionService, which is Node's crypto.
pub record Vault : Type 0 where
  pub encrypt : String → String
  pub decrypt : String → Result String

-- The calls of DarajaClient about an app's credentials: verifyCredentials and registerC2bUrl.
pub record Gateway : Type 0 where
  pub verify_credentials : String → String → Result (Unit {0})
  pub register_c2b_url : String → String → String → Result (Unit {0})
