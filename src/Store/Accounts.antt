-- ===== src/Store/Accounts.antt =====
-- The tables of prisma/schema.prisma about who may do what: users, their sessions and one-time
-- tokens, API keys, and the tenants' credentials. A hash and a ciphertext are texts.
use script_pay_backend.Shared.{ℕ, String, Bool, Option, List}

pub data Role : Type 0 where
  super_admin tenant_admin tenant_staff : Role

pub record User : Type 0 where
  pub id : ℕ
  pub username : Option String
  pub email : String
  pub password_hash : String
  pub email_verified : Bool
  pub role : Role
  pub tenant_id : Option ℕ

pub record RefreshToken : Type 0 where
  pub id : ℕ
  pub user_id : ℕ
  pub token_hash : String
  pub expires_at : ℕ
  pub revoked_at : Option ℕ
  pub replaced_by_token_id : Option ℕ

-- EmailVerificationToken and PasswordResetToken, which have the same columns.
pub record OneTimeToken : Type 0 where
  pub id : ℕ
  pub user_id : ℕ
  pub token_hash : String
  pub expires_at : ℕ
  pub used_at : Option ℕ

pub data ApiKeyScope : Type 0 where
  payments_initiate payments_read reconciliation_read webhooks_manage payments_disburse :
      ApiKeyScope

pub record ApiKey : Type 0 where
  pub id : ℕ
  pub tenant_id : ℕ
  pub key_hash : String
  pub key_prefix : String
  pub scopes : List ApiKeyScope
  pub last_used_at : Option ℕ
  pub revoked_at : Option ℕ
  pub expires_at : Option ℕ

pub record Tenant : Type 0 where
  pub id : ℕ
  pub name : String
  pub status : String
  pub mpesa_consumer_key : Option String
  pub mpesa_consumer_secret_encrypted : Option String
  pub mpesa_credentials_configured_at : Option ℕ
  pub webhook_url : Option String
  pub webhook_secret_encrypted : Option String
  pub webhook_configured_at : Option ℕ

pub data ShortcodeType : Type 0 where
  till paybill b2c : ShortcodeType

pub record TenantShortcode : Type 0 where
  pub id : ℕ
  pub tenant_id : ℕ
  pub type : ShortcodeType
  pub shortcode : String
  pub is_default : Bool
  pub mpesa_passkey_encrypted : Option String
  pub mpesa_initiator_name : Option String
  pub mpesa_security_credential_encrypted : Option String
  pub mpesa_payout_configured_at : Option ℕ

-- A name, or the id of what has none.
pub data Shown : Type 0 where
  name : String → Shown
  id_only : ℕ → Shown

-- The emails of EmailService, by what they tell. The notice of a key has the tenant, the prefix, the
-- scopes and the actor; that of a webhook secret has the tenant and the URL.
pub data Mail : Type 0 where
  verification password_reset : String → Mail
  api_key_provisioned api_key_rotated webhook_secret_rotated : String → Mail
  api_key_staff_notice : Shown → String → List ApiKeyScope → Shown → Mail
  webhook_secret_staff_notice : Shown → String → Mail

-- An email handed to EmailService.
pub record Letter : Type 0 where
  pub to : String
  pub mail : Mail
