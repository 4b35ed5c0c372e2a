-- ===== src/Guards.antt =====
-- What stands before the handlers: csrf.guard.ts, roles.guard.ts, tenant-aware-throttler.guard.ts,
-- daraja-webhook-secret.guard.ts and internal-jobs-secret.guard.ts of src/common/guards, and
-- access-token.guard.ts and refresh-csrf.guard.ts of src/modules/auth.
pub mod Admission
use Prim.Native.String.{slice, len, ◌++◌ as append}
use text.Mathlib.Text.{starts_with, find?}
use script_pay_backend.Shared.{
  ℕ, String, Bool, true, false, not, ◌&&◌, ◌||◌, Option, none, some, List, [], ◌∷◌, str_eq, is_some,
  truthy, or_default, or_else, any, if◌then◌else◌,
}
use script_pay_backend.Store.Rows.{Role, unauthorized, forbidden}
use script_pay_backend.Store.Tx.{Result, ok, err}
use script_pay_backend.Tenants.Access.{AuthenticatedUser}

-- An HTTP method, however its letters are cased.
pub data Method : Type 0 where
  get head options post put delete patch other : Method

-- What the guards read of a request; `user` and `tenant_id` are what earlier guards put on it.
pub record Request : Type 0 where
  pub method : Method
  pub path : String
  pub authorization : Option String
  pub csrf_cookie : Option String
  pub csrf_header : Option String
  pub refresh_cookie : Option String
  pub token_query : Option String
  pub jobs_secret_header : Option String
  pub user : Option AuthenticatedUser
  pub tenant_id : Option ℕ
  pub ips : List String
  pub ip : String

-- The bytes of both are as many, and are the same.
abbrev pub is_secret : String → String → Bool
is_secret expected provided = not (str_eq expected "") && str_eq expected provided

abbrev pub pass_if : Bool → Request → Result Request
pass_if true r = ok r
pass_if false r = err forbidden

-- `DarajaWebhookSecretGuard`; the first argument is DARAJA_WEBHOOK_SECRET.
unfoldable pub check_webhook_token : Option String → Request → Result Request
check_webhook_token secret r =
    pass_if (is_secret (or_default secret "") (or_default r.token_query "")) r

-- `InternalJobsSecretGuard`; the first argument is INTERNAL_JOBS_SECRET.
unfoldable pub check_jobs_secret : Option String → Request → Result Request
check_jobs_secret secret r =
    pass_if (is_secret (or_default secret "") (or_default r.jobs_secret_header "")) r

abbrev pub is_state_changing : Method → Bool
is_state_changing post = true
is_state_changing put = true
is_state_changing delete = true
is_state_changing patch = true
is_state_changing _ = false

-- `path.includes("/webhooks/")`.
abbrev pub is_webhook_path : String → Bool
is_webhook_path path = is_some (find? path "/webhooks/")

abbrev pub tokens_match : Option String → Option String → Bool
tokens_match cookie header =
    truthy cookie && truthy header && str_eq (or_default cookie "") (or_default header "")

abbrev pub is_unforged : Request → Bool
is_unforged r =
    not (is_state_changing r.method)
    || is_webhook_path r.path
    || tokens_match r.csrf_cookie r.csrf_header

-- `CsrfGuard`: the token of the cookie is sent again as a header.
unfoldable pub check_csrf : Request → Result Request
check_csrf r = pass_if (is_unforged r) r

-- `RefreshCsrfGuard`: without a refresh cookie there is no session to forge.
unfoldable pub check_refresh_csrf : Request → Result Request
unfolding check_csrf
check_refresh_csrf r = if truthy r.refresh_cookie then check_csrf r else ok r

abbrev pub role_eq : Role → Role → Bool
role_eq Role.super_admin Role.super_admin = true
role_eq Role.tenant_admin Role.tenant_admin = true
role_eq Role.tenant_staff Role.tenant_staff = true
role_eq _ _ = false

abbrev pub has_role : List Role → Option AuthenticatedUser → Bool
has_role required none = false
has_role required (some u) = any (role_eq u.role) required

-- `RolesGuard`; a route without `@Roles()` lets anyone through.
unfoldable pub check_roles : List Role → Request → Result Request
check_roles [] r = ok r
check_roles (x ∷ required) r = pass_if (has_role (x ∷ required) r.user) r

abbrev pub bearer : String
bearer = "Bearer "

abbrev pub sent_token : String → String
sent_token header = slice header (len bearer) (len header)

abbrev pub with_user : Request → Option AuthenticatedUser → Result Request
with_user r none = err unauthorized
with_user r (some u) = ok (record r { user = some u })

-- A guard after those before it.
abbrev pub and_then : Result Request → (Request → Result Request) → Result Request
and_then (ok r) f = f r
and_then (err e) f = err e

-- The argument is `TokenService.verifyAccessToken`: the claims of a token of ours that is still
-- good, and nothing where it throws.
module _ (verify_access_token : String → Option AuthenticatedUser) where
  abbrev pub check_bearer : Request → Option String → Result Request
  check_bearer r none = err unauthorized
  check_bearer r (some header) =
      if starts_with header bearer
      then with_user r (verify_access_token (sent_token header))
      else err unauthorized

  -- `AccessTokenGuard`.
  unfoldable pub check_access_token : Request → Result Request
  check_access_token r = check_bearer r r.authorization

  -- `@UseGuards(AccessTokenGuard, CsrfGuard, RolesGuard)` with `@Roles(...required)`.
  unfoldable pub admit : List Role → Request → Result Request
  unfolding check_access_token check_csrf check_roles
  admit required r = and_then (and_then (check_access_token r) check_csrf) (check_roles required)

-- Under what the requests of a caller are counted: `tenant:` and its id, or an address.
pub data Tracker : Type 0 where
  tenant : ℕ → Tracker
  address : String → Tracker

abbrev pub user_tenant : Option AuthenticatedUser → Option ℕ
user_tenant none = none
user_tenant (some u) = u.tenant_id

abbrev pub first_ip : List String → String → String
first_ip [] ip = ip
first_ip (x ∷ ips) ip = x

abbrev pub track : Request → Option ℕ → Tracker
track r none = address (first_ip r.ips r.ip)
track r (some id) = tenant id

-- `TenantAwareThrottlerGuard.getTracker`.
unfoldable pub get_tracker : Request → Tracker
get_tracker r = track r (or_else r.tenant_id (user_tenant r.user))
