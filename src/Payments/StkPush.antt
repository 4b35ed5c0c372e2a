-- ===== src/Payments/StkPush.antt =====
-- src/modules/payments/stk-push/stk-push.service.ts: a collection is recorded, asked for, and failed
-- at once if Safaricom does not take the request.
pub mod Consistency
use script_pay_backend.Shared.{ℕ, String, Option, none, some}
use script_pay_backend.Shared.Int.{ℤ}
use script_pay_backend.Store.Rows.{
  Store, Transaction, TransactionStatus, stk_push, processing, new_transaction, Error, message,
  warning,
}
use script_pay_backend.Store.Tx.{Tx}
use script_pay_backend.Store.Action.{
  Action, pure, throw, gets, modify, transaction, try_catch, record_audit, send_alert, await, ◌>>=◌,
  ◌>>◌,
}
use script_pay_backend.Store.Tables.{update_transaction, create_transaction}
use script_pay_backend.StateMachine.{fail_with}
use script_pay_backend.Payments.Safaricom.{
  PaymentChannel, StkPushRequest, StkPushResponse, Daraja, Elsewhere,
}
use script_pay_backend.Payments.B2c.{Outcome}

pub record InitiateStkPushDto : Type 0 where
  pub msisdn : String
  pub amount_minor_units : ℤ
  pub account_reference : String
  pub transaction_desc : String
  pub metadata : Option String
  pub channel : PaymentChannel

abbrev pub new_collection : ℕ → InitiateStkPushDto → Transaction
new_collection tenant dto =
    let d = new_transaction tenant stk_push dto.amount_minor_units dto.msisdn in
    record d { metadata = dto.metadata }

-- Step 1: the row is created first.
unfoldable pub open_collection : ℕ → InitiateStkPushDto → Tx Transaction
unfolding create_transaction
open_collection tenant dto = create_transaction (new_collection tenant dto)

abbrev pub requested : StkPushResponse → Transaction → Transaction
requested answer t = record t {
  status = processing;
  merchant_request_id = some answer.merchant_request_id;
  checkout_request_id = some answer.checkout_request_id;
}

module _ (daraja : Daraja) (elsewhere : Elsewhere) (tenant : ℕ) (dto : InitiateStkPushDto) where
  open daraja use {payment_credentials, initiate_stk_push}

  abbrev request : StkPushRequest
  request = record {
    amount_minor_units = dto.amount_minor_units;
    msisdn = dto.msisdn;
    account_reference = dto.account_reference;
    transaction_desc = dto.transaction_desc;
    channel = dto.channel;
  }

  abbrev report_initiated : Transaction → Transaction → Action Outcome
  report_initiated t row = do
    record_audit (record {
      tenant_id = some tenant;
      actor_id = none;
      action = "daraja.stk_push_initiated";
      target_id = some t.id;
    })
    pure (record { transaction_id = t.id; status = processing })

  -- Step 3: the ids that the callback will name.
  abbrev store_answer : Transaction → StkPushResponse → Action Outcome
  store_answer t answer =
      transaction (update_transaction t.id (requested answer)) >>= report_initiated t

  abbrev call_daraja : Transaction → daraja.Credentials → Action Outcome
  call_daraja t c = do
    modify elsewhere.during_call
    answer ← await (initiate_stk_push c request)
    store_answer t answer

  -- Step 2: credentials, and one call.
  unfoldable pub send : Transaction → Action Outcome
  unfolding update_transaction
  send t = do
    credentials ← gets (payment_credentials tenant dto.channel)
    c ← await credentials
    call_daraja t c

  abbrev pub report_failed : Transaction → Error → Transaction → Action Outcome
  report_failed t e row = do
    record_audit (record {
      tenant_id = some tenant;
      actor_id = none;
      action = "daraja.stk_push_failed";
      target_id = some t.id;
    })
    send_alert (record {
      title = "STK push initiation failed";
      severity = warning;
      transaction_id = some t.id;
    })
    throw e

  unfoldable pub give_up : Transaction → Error → Action Outcome
  unfolding update_transaction
  give_up t e = transaction (update_transaction t.id (fail_with (message e))) >>= report_failed t e

  abbrev proceed : Transaction → Action Outcome
  proceed t = try_catch (send t) (give_up t)

  -- `initiate`.
  unfoldable pub initiate : Action Outcome
  unfolding open_collection send give_up
  initiate = transaction (open_collection tenant dto) >>= proceed
