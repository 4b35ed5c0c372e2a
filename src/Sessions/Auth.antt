-- ===== src/Sessions/Auth.antt =====
-- AuthService (src/modules/auth/auth.service.ts).
pub mod Reset
use script_pay_backend.Shared.{
  ℕ, String, Bool, true, false, if◌then◌else◌, truthy, or_default, Option, none, some, List, [],
  ◌∷◌, ◌++◌, ◌==◌, ◌*◌, find, update, str_eq,
}
use script_pay_backend.Store.Rows.{
  Store, User, Role, Mail, Letter, Error, conflict, unauthorized, row_not_found,
}
use script_pay_backend.Store.Tx
use script_pay_backend.Store.Tx.{Tx}
use script_pay_backend.Store.Action.{
  Action, pure, throw, gets, modify, record_audit, transaction, try_catch, ◌>>=◌, ◌>>◌,
}
use script_pay_backend.ApiKeys.{send_letters, letter_to}
use script_pay_backend.Sessions.Refresh
use script_pay_backend.Sessions.Refresh.{
  TokenConfig, Rotation, revoke_all_for_user, verify_and_rotate,
}
use script_pay_backend.Sessions.OneTime
use script_pay_backend.Sessions.OneTime.{email_verification_tokens, password_reset_tokens}

-- argon2, the signer of access tokens, and the configured lifetimes.
pub record AuthConfig : Type 0 where
  pub tokens : TokenConfig
  pub hash_password : String → String
  pub verify_password : String → String → Bool
  pub sign_access_token : User → String
  pub email_verification_ttl_hours : ℕ
  pub password_reset_ttl_minutes : ℕ

pub record SignupDto : Type 0 where
  pub username : String
  pub email : String
  pub password : String

pub record SessionResult : Type 0 where
  pub user : User
  pub access_token : String
  pub refresh_token : String

abbrev pub has_email : String → User → Bool
has_email email u = str_eq u.email email

abbrev pub has_user_id : ℕ → User → Bool
has_user_id id u = u.id == id

abbrev pub audit_user : Option ℕ → Option ℕ → String → Action (Unit {0})
audit_user tenant user action =
    record_audit (record { tenant_id = tenant; actor_id = user; action = action; target_id = user })

unfoldable pub create_user : User → Tx User
create_user d = Tx.◌>>=◌ Tx.fresh_id λ id.
    let c = record d { id = id } in
    Tx.◌>>◌ (Tx.modify λ s. record s { users = s.users ++ c ∷ [] }) (Tx.pure c)

-- `prisma.user.update`, which throws when there is no such row.
abbrev pub update_found : ℕ → (User → User) → Option User → Action (Unit {0})
update_found id f none = throw row_not_found
update_found id f (some u) = modify λ s. record s { users = update (has_user_id id) f s.users }

abbrev pub update_user : ℕ → (User → User) → Action (Unit {0})
update_user id f = gets (λ s. find (has_user_id id) s.users) >>= update_found id f

abbrev pub as_unauthorized : Error → Action ℕ
as_unauthorized e = throw unauthorized

abbrev pub with_password : String → User → User
with_password hash u = record u { password_hash = hash }

abbrev pub with_email_verified : User → User
with_email_verified u = record u { email_verified = true }

module _ (config : AuthConfig) where
  abbrev hash_token : String → String
  hash_token = config.tokens.hash_token

  unfoldable pub issue_session : User → String → Action SessionResult
  unfolding Refresh.issue
  issue_session user raw = do
    refresh ← Refresh.issue config.tokens user.id raw
    pure (record {
      user = user;
      access_token = config.sign_access_token user;
      refresh_token = refresh;
    })

  unfoldable pub send_verification : User → String → Action (Unit {0})
  unfolding OneTime.issue send_letters
  send_verification user raw = do
    token ←
        OneTime.issue hash_token email_verification_tokens
          (config.email_verification_ttl_hours * 60 * 60 * 1000) user.id raw
    send_letters (letter_to (Mail.verification token) user ∷ [])

  abbrev pub new_user : SignupDto → User
  new_user dto = record {
    id = 0;
    username = some dto.username;
    email = dto.email;
    password_hash = config.hash_password dto.password;
    email_verified = false;
    role = Role.tenant_admin;
    tenant_id = none;
  }

  abbrev pub signup_unless : SignupDto → String → String → Option User → Action SessionResult
  signup_unless dto verification raw (some existing) = throw conflict
  signup_unless dto verification raw none = do
    user ← transaction (create_user (new_user dto))
    send_verification user verification
    audit_user none (some user.id) "user.registered"
    issue_session user raw

  -- `verification` and `raw` are the random tokens.
  unfoldable pub signup : SignupDto → String → String → Action SessionResult
  unfolding create_user send_verification issue_session
  signup dto verification raw =
      gets (λ s. find (has_email dto.email) s.users) >>= signup_unless dto verification raw

  abbrev pub login_if : User → String → Bool → Action SessionResult
  login_if user raw false = do
    audit_user user.tenant_id (some user.id) "user.login_failed"
    throw unauthorized
  login_if user raw true = do
    audit_user user.tenant_id (some user.id) "user.login"
    issue_session user raw

  abbrev pub login_found : String → String → Option User → Action SessionResult
  login_found password raw none = do audit_user none none "user.login_failed"; throw unauthorized
  login_found password raw (some user) =
      login_if user raw (config.verify_password user.password_hash password)

  unfoldable pub login : String → String → String → Action SessionResult
  unfolding issue_session
  login email password raw = gets (λ s. find (has_email email) s.users) >>= login_found password raw

  abbrev pub refreshed : Rotation → Option User → Action (String × String)
  refreshed r none = throw row_not_found
  refreshed r (some user) = pure (config.sign_access_token user, r.new_raw_token)

  unfoldable pub refresh : String → String → Action (String × String)
  unfolding verify_and_rotate
  refresh raw new_raw = do
    r ← verify_and_rotate config.tokens raw new_raw
    user ← gets (λ s. find (has_user_id r.user_id) s.users)
    refreshed r user

  unfoldable pub logout : Option String → Action (Unit {0})
  unfolding Refresh.revoke
  logout raw = if truthy raw then Refresh.revoke config.tokens (or_default raw "") else pure tt

  abbrev pub send_reset : String → Option User → Action (Unit {0})
  send_reset raw none = pure tt
  send_reset raw (some user) = do
    token ←
        OneTime.issue hash_token password_reset_tokens
          (config.password_reset_ttl_minutes * 60 * 1000) user.id raw
    send_letters (letter_to (Mail.password_reset token) user ∷ [])

  unfoldable pub request_password_reset : String → String → Action (Unit {0})
  unfolding OneTime.issue send_letters
  request_password_reset email raw = gets (λ s. find (has_email email) s.users) >>= send_reset raw

  abbrev pub set_password : String → ℕ → Action (Unit {0})
  set_password password user = do
    update_user user (with_password (config.hash_password password))
    revoke_all_for_user user
    audit_user none (some user) "user.password_reset"

  unfoldable pub reset_password : String → String → Action (Unit {0})
  unfolding OneTime.consume revoke_all_for_user
  reset_password token password =
      try_catch (OneTime.consume hash_token password_reset_tokens token) as_unauthorized
      >>= set_password password

  abbrev pub set_verified : ℕ → Action (Unit {0})
  set_verified user = update_user user with_email_verified

  unfoldable pub verify_email : String → Action (Unit {0})
  unfolding OneTime.consume
  verify_email token =
      try_catch (OneTime.consume hash_token email_verification_tokens token) as_unauthorized
      >>= set_verified

  abbrev pub resend_to : String → Option User → Action (Unit {0})
  resend_to raw none = pure tt
  resend_to raw (some user) = if user.email_verified then pure tt else send_verification user raw

  unfoldable pub resend_verification : String → String → Action (Unit {0})
  unfolding send_verification
  resend_verification email raw = gets (λ s. find (has_email email) s.users) >>= resend_to raw
