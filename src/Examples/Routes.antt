-- ===== src/Examples/Routes.antt =====
-- Requests to the routes of callbacks and of the dashboard, on the small store.
use script_pay_backend.Shared.{
  String, true, false, ℕ, Option, none, some, List, [], ◌∷◌, ◌≡◌, ◌⊎◌, refl, arith, str_eq, take,
  if◌then◌else◌,
}
use script_pay_backend.Shared.Int.{ℤ, pos, ◌+ℤ◌}
use script_pay_backend.Store.Rows.{Store, Role, TransactionStatus, forbidden}
use script_pay_backend.Store.Tx.{ok, err}
use script_pay_backend.StateMachine.Soundness.{spendable}
use script_pay_backend.Ledger.{available_balance}
use script_pay_backend.Tenants.Access.{AuthenticatedUser}
use script_pay_backend.Guards.{
  Request, Method, admit, check_access_token, check_csrf, check_roles, has_role,
}
use script_pay_backend.Guards.Admission.{IsGenuine, Repeats, admit-IsGenuine}
use script_pay_backend.Sessions.Auth.{SignupDto, new_user}
use script_pay_backend.AuditLog
use script_pay_backend.AuditLog.Readers.{claims_of, OnlyOwn, list-OnlyOwn, list_new_account}
use script_pay_backend.Dashboard
use script_pay_backend.Dashboard.Scope.{AllOf, OwnRow, dashboard_shows_own}
use script_pay_backend.Callbacks.Payload.{Value, DarajaPayload}
use script_pay_backend.Callbacks.Timestamps.{parse_daraja_timestamp}
use script_pay_backend.Callbacks.Timestamps.Stamps.{parse_daraja_timestamp-tomorrow}
use script_pay_backend.Callbacks.Webhook.{Post, Route, accepted, serve}
use script_pay_backend.Callbacks.Webhook.Requests.{IsWell, serve_refuses_or_accepts}
use script_pay_backend.Callbacks.Deliveries.{Response}
use script_pay_backend.Jobs.{Surroundings, Job}
use script_pay_backend.System.{Step, Settings, run}
use script_pay_backend.System.Reachable.{run_books_agree}
use script_pay_backend.Payments.Safaricom.{PaymentChannel, CommandId}
use script_pay_backend.Payments.B2c.{InitiateB2cDto}
use script_pay_backend.Payments.StkPush.{InitiateStkPushDto}
use script_pay_backend.Sessions
use script_pay_backend.Sessions.Routes.Forged.{forged_changes_nothing}
use script_pay_backend.Examples.{books, safaricom}
use script_pay_backend.Examples.Jobs.{inbox, callback}
use script_pay_backend.Examples.Polls.{read_minor_units, read_zero}
use script_pay_backend.Examples.Tokens.{auth}

abbrev request : Request
request = record {
  method = Method.post;
  path = "/v1/tenants/7/status";
  authorization = some "Bearer good";
  csrf_cookie = some "csrf";
  csrf_header = some "csrf";
  refresh_cookie = none;
  token_query = some "secret";
  jobs_secret_header = none;
  user = none;
  tenant_id = none;
  ips = [];
  ip = "127.0.0.1";
}

abbrev owner : AuthenticatedUser
owner = record {
  id = 20;
  email = "owner@shop.example";
  role = Role.tenant_admin;
  tenant_id = some 7;
}

abbrev verify : String → Option AuthenticatedUser
verify token = if str_eq token "good" then some owner else none

admit-IsGenuine_example :
    (u : AuthenticatedUser) × IsGenuine verify
      (Role.tenant_admin ∷ [])
      request
      (record request { user = some owner })
      u
unfolding admit check_access_token check_csrf check_roles
admit-IsGenuine_example =
    admit-IsGenuine verify (Role.tenant_admin ∷ []) request (record request { user = some owner })
      refl

abbrev confirmation : DarajaPayload
confirmation = record callback {
  stk_callback = some (record {
    checkout_request_id = some "checkout-1";
    result_code = some (Value.number "0");
    result_desc = none;
    items = ("MpesaReceiptNumber", Value.text "RNEW") ∷ [];
  });
}

abbrev paid : Post
paid = record {
  route = Route.stk_callback;
  request = request;
  body = some confirmation;
  is_polling = false;
}

abbrev around : Surroundings
around = record {
  minor_units = read_minor_units;
  reads_as_zero = read_zero;
  daraja = safaricom;
  sign = λ secret p. ok "signature";
  post = λ url signature p. Response.refused "HTTP 503";
}

abbrev settings : Settings
settings = record {
  daraja_webhook_secret = some "secret";
  internal_jobs_secret = none;
  job_scheduler = none;
}

abbrev sale_request : InitiateStkPushDto
sale_request = record {
  msisdn = "254700000003";
  amount_minor_units = pos 5000;
  account_reference = "INV-1";
  transaction_desc = "order";
  channel = PaymentChannel.till;
  metadata = none;
}

abbrev payout_request : InitiateB2cDto
payout_request = record {
  shortcode_id = 1;
  msisdn = "254700000004";
  amount_minor_units = pos 4000;
  remarks = "wages";
  occasion = none;
  command_id = CommandId.salary_payment;
  metadata = none;
  idempotency_key = some "wages-1";
}

abbrev sequence : List Step
sequence =
    Step.collection 7 sale_request
    ∷ Step.callback paid
    ∷ Step.wait 900001
    ∷ Step.timer Job.detect_drift
    ∷ Step.payout 7 payout_request none "conversation-9"
    ∷ Step.job_request Job.process_webhooks request
    ∷ []

abbrev empty_books : Store
empty_books = record books { transactions = []; ledger_entries = [] }

run_books_agree_example :
    ((tenant : ℕ)
      → available_balance tenant (run around settings sequence (empty_books, inbox)).0
        ≡ spendable tenant (run around settings sequence (empty_books, inbox)).0.transactions)
    × IsWell (run around settings sequence (empty_books, inbox))
run_books_agree_example =
    run_books_agree around settings sequence (empty_books, inbox) (refl, refl, refl)

serve_refuses_or_accepts_example :
    (serve read_minor_units read_zero (some "secret") paid (books, inbox)
      ≡ (err forbidden, (books, inbox)))
    ⊎ (((serve read_minor_units read_zero (some "secret") paid (books, inbox)).0 ≡ ok accepted)
        × (paid.request.token_query ≡ some "secret")
        × (true ≡ true))
serve_refuses_or_accepts_example =
    serve_refuses_or_accepts read_minor_units read_zero (some "secret") paid (books, inbox)

abbrev logged : Store
logged = record books {
  audit_log =
      record { tenant_id = some 7; actor_id = none; action = "key.created"; target_id = none }
      ∷ record { tenant_id = some 8; actor_id = none; action = "key.revoked"; target_id = none }
      ∷ [];
}

abbrev everything : AuditLog.ListParams
everything = record { tenant_id = none; action = none; limit = none }

list-OnlyOwn_example :
    OnlyOwn 7 (AuditLog.list everything owner logged).0
    × ((AuditLog.list everything owner logged).1 ≡ logged)
list-OnlyOwn_example = list-OnlyOwn everything owner 7 logged refl refl

abbrev newcomer : SignupDto
newcomer = record { username = "eve"; email = "eve@example.com"; password = "a long one" }

list_new_account_example :
    (has_role
        (Role.super_admin ∷ Role.tenant_admin ∷ [])
        (some (claims_of (new_user auth newcomer)))
      ≡ true)
    × (AuditLog.list everything (claims_of (new_user auth newcomer)) logged
        ≡ (ok (take 100 logged.audit_log), logged))
list_new_account_example = list_new_account auth newcomer logged

dashboard_shows_own_example :
    ((xs : List _) × (Dashboard.list owner (some TransactionStatus.settled) (some 8) none books
        ≡ (ok xs, books))
      × AllOf 7 xs)
    × (OwnRow 7 (Dashboard.find_one 1 owner books).0
        × ((Dashboard.find_one 1 owner books).1 ≡ books))
    × (Dashboard.balance owner (some 8) books ≡ (ok (7, available_balance 7 books), books))
dashboard_shows_own_example =
    dashboard_shows_own owner 7 (some 8) (some TransactionStatus.settled) none 1 books refl refl

parse_daraja_timestamp-tomorrow_example :
    (m : ℤ) × (parse_daraja_timestamp (some (Value.text "20240228133424")) ≡ some m)
    × (parse_daraja_timestamp (some (Value.text "20240229133424")) ≡ some (m +ℤ pos 86400000))
parse_daraja_timestamp-tomorrow_example =
    parse_daraja_timestamp-tomorrow
      (record { year = 2024; month = 2; day = 28; hour = 13; minute = 34; second = 24 })
      "20240228133424" "20240229133424"
      (record {
        year_fits = omega arith;
        month_from = omega arith;
        month_to = omega arith;
        day_from = omega arith;
        day_to = omega arith;
        hour_fits = omega arith;
        minute_fits = omega arith;
        second_fits = omega arith;
      })
      (omega arith) refl refl

-- The header is missing, as a page of another site cannot read the cookie.
abbrev forged : Request
forged = record request { csrf_header = none; refresh_cookie = some "refresh-1" }

forged-Repeats_not : ¬ Repeats forged.csrf_cookie forged.csrf_header
forged-Repeats_not (token, full, kept, sent) = cc sent

forged_changes_nothing_example :
    ((Sessions.Routes.refresh auth "new" "csrf-2" forged books ≡ (err forbidden, books))
      ⊎ ((true ≡ false)
          × (Sessions.Routes.refresh auth "new" "csrf-2" forged books
              ≡ (ok (Sessions.Routes.Body.access_token none, []), books))))
    × (Sessions.Routes.logout auth forged books ≡ (err forbidden, books))
forged_changes_nothing_example =
    forged_changes_nothing auth "new" "csrf-2" forged books refl refl forged-Repeats_not
