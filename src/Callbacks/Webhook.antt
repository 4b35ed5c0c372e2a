-- ===== src/Callbacks/Webhook.antt =====
-- src/modules/callbacks/daraja-webhook.controller.ts: the routes that Safaricom posts to, behind
-- DarajaWebhookSecretGuard. A route answers before the poll that it sets off has run; here the poll
-- comes next, since what it does does not depend on the answer.
pub mod Requests
use script_pay_backend.Shared.{ℕ, String, Bool, Option, none, some, List, [], ◌∷◌, if◌then◌else◌}
use script_pay_backend.Shared.Int.{ℤ}
use script_pay_backend.Store.Rows.{Store}
use script_pay_backend.Store.Tx.{Result, ok, err}
use script_pay_backend.Guards.{Request, check_webhook_token}
use script_pay_backend.Callbacks.Payload.{
  Value, DarajaPayload, WebhookSource, daraja_stk_callback, daraja_c2b_confirmation,
  daraja_b2c_result, daraja_b2c_timeout, daraja_transaction_status_result,
  daraja_transaction_status_timeout,
}
use script_pay_backend.Callbacks.Ingest.{Inbox, ingest}
use script_pay_backend.Callbacks.Poller.{poll_unprocessed_events}

pub record Reply : Type 0 where
  pub result_code : ℕ
  pub result_desc : String

abbrev pub accepted : Reply
accepted = record { result_code = 0; result_desc = "Accepted" }

pub data Route : Type 0 where
  stk_callback c2b_confirmation b2c_result b2c_timeout : Route
  transaction_status_result transaction_status_timeout : Route

-- A POST: where, what the guard reads, the body if it is an object, and whether a poll is running
-- at the time (`isPolling`).
pub record Post : Type 0 where
  pub route : Route
  pub request : Request
  pub body : Option DarajaPayload
  pub is_polling : Bool

module _ (minor_units : Option Value → Option ℤ) (reads_as_zero : String → Bool) where
  -- `kickProcessing`: nothing while a poll is running.
  abbrev pub kick_processing : Bool → Store × Inbox → Store × Inbox
  kick_processing is_polling state =
      let polled = poll_unprocessed_events minor_units reads_as_zero state in
      if is_polling then state else polled

  -- The rest of the `try` block; what `ingest` throws is logged and goes no further.
  abbrev pub after_ingest : Bool → Store → Result (Unit {0}) × Inbox → Store × Inbox
  after_ingest is_polling s (ok done, b) = kick_processing is_polling (s, b)
  after_ingest is_polling s (err e, b) = (s, b)

  -- What the six handlers share: the check of the body, `ingest`, and the kick.
  abbrev pub receive :
      WebhookSource → Option DarajaPayload → Bool → Store × Inbox → Reply × (Store × Inbox)
  receive source none is_polling state = (accepted, state)
  receive source (some p) is_polling (s, b) =
      (accepted, after_ingest is_polling s (ingest source (some p) b))

  unfoldable pub handle_stk_callback :
      Option DarajaPayload → Bool → Store × Inbox → Reply × (Store × Inbox)
  handle_stk_callback = receive daraja_stk_callback

  unfoldable pub handle_c2b_confirmation :
      Option DarajaPayload → Bool → Store × Inbox → Reply × (Store × Inbox)
  handle_c2b_confirmation = receive daraja_c2b_confirmation

  unfoldable pub handle_b2c_result :
      Option DarajaPayload → Bool → Store × Inbox → Reply × (Store × Inbox)
  handle_b2c_result = receive daraja_b2c_result

  unfoldable pub handle_b2c_timeout :
      Option DarajaPayload → Bool → Store × Inbox → Reply × (Store × Inbox)
  handle_b2c_timeout = receive daraja_b2c_timeout

  unfoldable pub handle_transaction_status_result :
      Option DarajaPayload → Bool → Store × Inbox → Reply × (Store × Inbox)
  handle_transaction_status_result = receive daraja_transaction_status_result

  unfoldable pub handle_transaction_status_timeout :
      Option DarajaPayload → Bool → Store × Inbox → Reply × (Store × Inbox)
  handle_transaction_status_timeout = receive daraja_transaction_status_timeout

  -- The `@Post` decorators.
  unfoldable pub handle :
      Route → Option DarajaPayload → Bool → Store × Inbox → Reply × (Store × Inbox)
  unfolding handle_stk_callback handle_c2b_confirmation handle_b2c_result handle_b2c_timeout
      handle_transaction_status_result handle_transaction_status_timeout
  handle stk_callback = handle_stk_callback
  handle c2b_confirmation = handle_c2b_confirmation
  handle b2c_result = handle_b2c_result
  handle b2c_timeout = handle_b2c_timeout
  handle transaction_status_result = handle_transaction_status_result
  handle transaction_status_timeout = handle_transaction_status_timeout

  abbrev pub reply_of : Reply × (Store × Inbox) → Result Reply × (Store × Inbox)
  reply_of (r, state) = (ok r, state)

  abbrev pub guarded : Post → Result Request → Store × Inbox → Result Reply × (Store × Inbox)
  guarded p (ok r) state = reply_of (handle p.route p.body p.is_polling state)
  guarded p (err e) state = (err e, state)

  -- A request to the controller; the first argument is DARAJA_WEBHOOK_SECRET.
  unfoldable pub serve : Option String → Post → Store × Inbox → Result Reply × (Store × Inbox)
  unfolding check_webhook_token handle
  serve secret p state = guarded p (check_webhook_token secret p.request) state
