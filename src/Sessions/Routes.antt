-- ===== src/Sessions/Routes.antt =====
-- src/modules/auth/auth.controller.ts and the logout of profile.controller.ts: the routes of the
-- sessions, with the cookies that they set. A body has passed its schema.
pub mod Forged
use script_pay_backend.Shared.{
  ℕ, String, Bool, true, false, Option, none, some, List, [], ◌∷◌, ◌*◌, truthy, or_default,
  if◌then◌else◌,
}
use script_pay_backend.Store.Rows.{Store, User}
use script_pay_backend.Store.Tx.{Result, ok, err}
use script_pay_backend.Store.Action.{Action, pure, await, ◌>>=◌, ◌>>◌}
use script_pay_backend.Guards.{Request, check_csrf, check_refresh_csrf}
use script_pay_backend.Sessions.Auth
use script_pay_backend.Sessions.Auth.{AuthConfig, SignupDto, SessionResult}

-- Of a cookie what differs between the three; all have the path "/", the same site policy, and are
-- secure in production. `none` for the age clears it.
pub record Cookie : Type 0 where
  pub name : String
  pub value : String
  pub http_only : Bool
  pub max_age : Option ℕ

pub data Body : Type 0 where
  session : User → String → Body
  access_token : Option String → Body
  message : String → Body
  logged_out : Body

abbrev pub Reply : Type 0
Reply = Body × List Cookie

abbrev pub clear_cookie : String → Cookie
clear_cookie name = record { name = name; value = ""; http_only = false; max_age = none }

abbrev pub handed_on : Store → Result Request → (Request → Action Reply) → Result Reply × Store
handed_on s (ok r) f = f r s
handed_on s (err e) f = (err e, s)

-- A handler behind a guard.
abbrev pub behind : (Request → Result Request) → (Request → Action Reply) → Request → Action Reply
behind guard f r s = handed_on s (guard r) f

module _ (config : AuthConfig) where
  abbrev pub refresh_ttl_ms : ℕ
  refresh_ttl_ms = config.tokens.refresh_ttl_days * 24 * 60 * 60 * 1000

  abbrev pub refresh_cookie : String → Cookie
  refresh_cookie token = record {
    name = "refresh_token";
    value = token;
    http_only = true;
    max_age = some refresh_ttl_ms;
  }

  abbrev pub access_cookie : String → Cookie
  access_cookie token = record {
    name = "access_token";
    value = token;
    http_only = true;
    max_age = some (15 * 60 * 1000);
  }

  -- The token is random (`generateCsrfToken`), and the pages must be able to read it.
  abbrev pub csrf_cookie : String → Cookie
  csrf_cookie token = record {
    name = "csrf-token";
    value = token;
    http_only = false;
    max_age = some refresh_ttl_ms;
  }

  abbrev pub cookies : String → String → String → List Cookie
  cookies refresh access csrf =
      refresh_cookie refresh ∷ access_cookie access ∷ csrf_cookie csrf ∷ []

  abbrev pub opened : String → SessionResult → Action Reply
  opened csrf s =
      pure (Body.session s.user s.access_token, cookies s.refresh_token s.access_token csrf)

  -- The texts after the body are random: a verification token, a refresh token, a CSRF token.
  unfoldable pub signup : SignupDto → String → String → String → Action Reply
  signup dto verification raw csrf = Auth.signup config dto verification raw >>= opened csrf

  unfoldable pub login : String → String → String → String → Action Reply
  login email password raw csrf = Auth.login config email password raw >>= opened csrf

  abbrev pub renewed : String → String × String → Action Reply
  renewed csrf (access, refresh) =
      pure (Body.access_token (some access), cookies refresh access csrf)

  abbrev pub refresh_with : String → String → Request → Action Reply
  refresh_with raw csrf r =
      if truthy r.refresh_cookie
      then (Auth.refresh config (or_default r.refresh_cookie "") raw >>= renewed csrf)
      else pure (Body.access_token none, [])

  -- POST auth/refresh, behind RefreshCsrfGuard.
  unfoldable pub refresh : String → String → Request → Action Reply
  unfolding check_refresh_csrf
  refresh raw csrf = behind check_refresh_csrf (refresh_with raw csrf)

  unfoldable pub forgot_password : String → String → Action Reply
  forgot_password email raw = do
    Auth.request_password_reset config email raw
    pure (Body.message "If an account exists for that email, a reset link has been sent.", [])

  unfoldable pub reset_password : String → String → Action Reply
  reset_password token password = do
    Auth.reset_password config token password
    pure (Body.message "Password updated. Please log in again.", [])

  unfoldable pub verify_email : String → Action Reply
  verify_email token = do Auth.verify_email config token; pure (Body.message "Email verified.", [])

  unfoldable pub resend_verification : String → String → Action Reply
  resend_verification email raw = do
    Auth.resend_verification config email raw
    pure (Body.message "If that account needs verification, a new link has been sent.", [])

  abbrev pub log_out_with : Request → Action Reply
  log_out_with r = do
    Auth.logout config r.refresh_cookie
    pure (
      Body.logged_out,
      clear_cookie "refresh_token" ∷ clear_cookie "access_token" ∷ clear_cookie "csrf-token" ∷ [],
    )

  -- POST profile/logout, behind CsrfGuard.
  unfoldable pub logout : Request → Action Reply
  unfolding check_csrf
  logout = behind check_csrf log_out_with
