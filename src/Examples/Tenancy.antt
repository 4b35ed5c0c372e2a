-- ===== src/Examples/Tenancy.antt =====
-- The shop with its owner, shortcodes and status: the theorems about tenants on it.
use script_pay_backend.Shared.{
  ℕ, String, true, false, none, some, List, [], ◌∷◌, ◌≡◌, refl, arith, inl,
}
use script_pay_backend.Store.Rows.{
  Store, TenantShortcode, ShortcodeType, User, Role, Error, forbidden, external,
}
use script_pay_backend.Store.Tx.{ok, err}
use script_pay_backend.Payments.Safaricom.{PaymentChannel}
use script_pay_backend.ApiKeys.{Hasher}
use script_pay_backend.Tenants.Access.{AuthenticatedUser, Vault, Gateway}
use script_pay_backend.Tenants.ShortcodeRows.{CreateShortcodeDto, UpdateShortcodeDto}
use script_pay_backend.Tenants.ShortcodeRows.Defaults.{IsOrdered}
use script_pay_backend.Store.Outcomes.{Ends}
use script_pay_backend.Tenants.Schemas.{ShortcodeBody, parse_update, strip_wrapping_quotes}
use script_pay_backend.Tenants.Schemas.Rotations.{Unmarked, patch_takes_default_mark}
use script_pay_backend.Tenants.Shortcodes.{update}
use script_pay_backend.Tenants.Shortcodes.Calls
use script_pay_backend.Tenants.Shortcodes.Calls.{Call, after-IsOrdered}
use script_pay_backend.Tenants.Status.SelfService
use script_pay_backend.Tenants.Status.SelfService.{StatusRequest, HasStatus, after-HasStatus}
use script_pay_backend.Tenants.Credentials.{
  get_mpesa_credentials_for_payment, get_mpesa_credentials_for_payout, set_app_credentials,
}
use script_pay_backend.Tenants.Credentials.KillSwitch.{blocked_credentials}
use script_pay_backend.Tenants.Credentials.Secrets.{payment_credentials_round_trip}
use script_pay_backend.Tenants.Onboarding.{CreateTenantDto, onboard_self}
use script_pay_backend.Tenants.Onboarding.Once.{onboard_self_once}
use script_pay_backend.Examples.{shop, books}

-- A vault that leaves texts as they are, and a hash that compares them.
abbrev vault : Vault
vault = record { encrypt = λ x. x; decrypt = λ x. ok x }

abbrev hasher : Hasher
hasher = record { hash = λ x. x; verify = λ x y. true; pepper = "pepper" }

abbrev gateway : Gateway
gateway = record {
  verify_credentials = λ key secret. ok tt;
  register_c2b_url = λ key secret code. err (external "busy");
}

abbrev owner : AuthenticatedUser
owner = record {
  id = 20;
  email = "owner@shop.example";
  role = Role.tenant_admin;
  tenant_id = some 7;
}

abbrev with_status : String → Store
with_status status = record books { tenants = record shop { status = status } ∷ [] }

abbrev ask : String → StatusRequest
ask status = record { tenant_id = 7; status = status; actor = owner; hex = "00" }

after-HasStatus_example : HasStatus 7 "pending_kyc" (
    SelfService.after hasher
      (ask "active" ∷ ask "suspended" ∷ ask "active" ∷ [])
      (with_status "pending_kyc"))
after-HasStatus_example =
    after-HasStatus hasher 7 "pending_kyc" (ask "active" ∷ ask "suspended" ∷ ask "active" ∷ [])
      (with_status "pending_kyc") refl refl (record shop { status = "pending_kyc" }, refl, refl)

abbrev is_suspended : HasStatus 7 "suspended" (with_status "suspended")
is_suspended = (record shop { status = "suspended" }, refl, refl)

blocked_credentials_example :
    ((channel : PaymentChannel)
      → get_mpesa_credentials_for_payment vault 7 channel (with_status "suspended")
        ≡ (err forbidden, with_status "suspended"))
    × ((id : ℕ)
        → get_mpesa_credentials_for_payout vault 7 id (with_status "suspended")
          ≡ (err forbidden, with_status "suspended"))
blocked_credentials_example =
    blocked_credentials vault 7 "suspended" (with_status "suspended") is_suspended (inl refl)

abbrev till : TenantShortcode
till = record {
  id = 3;
  tenant_id = 7;
  type = ShortcodeType.till;
  shortcode = "123456";
  is_default = true;
  mpesa_passkey_encrypted = some "passkey";
  mpesa_initiator_name = none;
  mpesa_security_credential_encrypted = none;
  mpesa_payout_configured_at = none;
}

abbrev with_till : Store
with_till = record books { next_id = 4; shortcodes = till ∷ [] }

payment_credentials_round_trip_example :
    (get_mpesa_credentials_for_payment vault 7 PaymentChannel.till
      (set_app_credentials vault gateway 7 "new-key" "new-secret" owner with_till).1).0
    ≡ ok (record {
      shortcode = "123456";
      mpesa_consumer_key = "new-key";
      mpesa_consumer_secret = "new-secret";
      mpesa_passkey = "passkey";
    })
payment_credentials_round_trip_example =
    payment_credentials_round_trip vault gateway 7 "new-key" "new-secret" owner shop
      PaymentChannel.till till "passkey" with_till (record { reads = λ x. refl; full = λ x h. h })
      refl refl refl refl refl refl refl refl refl

abbrev second_till : CreateShortcodeDto
second_till = record {
  type = ShortcodeType.till;
  shortcode = "654321";
  is_default = true;
  passkey = some "other";
  initiator_name = none;
  security_credential = none;
}

abbrev make_default : UpdateShortcodeDto
make_default = record {
  type = none;
  shortcode = none;
  is_default = some true;
  passkey = none;
  initiator_name = none;
  security_credential = none;
}

-- A rotation of the passkey, pasted with its quotes.
abbrev rotation : ShortcodeBody
rotation = record {
  type = none;
  shortcode = none;
  is_default = none;
  passkey = some "  'renewed'";
  initiator_name = none;
  security_credential = none;
}

abbrev rotated : UpdateShortcodeDto
rotated = record make_default { is_default = some false; passkey = some "renewed" }

patch_takes_default_mark_example :
    Ends Unmarked (λ e u. Unit) (update vault 7 3 rotated owner with_till)
unfolding parse_update strip_wrapping_quotes
patch_takes_default_mark_example =
    patch_takes_default_mark vault 7 3 rotation rotated owner with_till refl refl

abbrev calls : List (Gateway × Call)
calls =
    (gateway, Call.creates 7 second_till owner)
    ∷ (gateway, Call.updates 7 3 make_default owner)
    ∷ (gateway, Call.removes 7 4 owner)
    ∷ []

with_till-IsOrdered : IsOrdered with_till
with_till-IsOrdered = record {
  single = λ tenant type. ground arith;
  distinct = λ n. ground arith;
  fresh = λ n above. ground arith;
}

after-IsOrdered_example : IsOrdered (Calls.after vault calls with_till)
after-IsOrdered_example = after-IsOrdered vault calls with_till with_till-IsOrdered refl

abbrev founder : User
founder = record {
  id = 30;
  username = none;
  email = "founder@new.example";
  password_hash = "hash";
  email_verified = true;
  role = Role.tenant_admin;
  tenant_id = none;
}

abbrev claims : AuthenticatedUser
claims = record {
  id = 30;
  email = "founder@new.example";
  role = Role.tenant_admin;
  tenant_id = none;
}

abbrev newcomer : CreateTenantDto
newcomer = record { name = "new"; business_shortcode = "200200" }

abbrev with_founder : Store
with_founder = record books { users = founder ∷ [] }

onboard_self_once_example :
    (e : Error) × (onboard_self newcomer claims (onboard_self newcomer claims with_founder).1
      ≡ (err e, (onboard_self newcomer claims with_founder).1))
unfolding onboard_self
onboard_self_once_example =
    onboard_self_once newcomer newcomer claims claims _ with_founder refl refl
