-- ===== src/Examples/Wire.antt =====
-- What goes to Safaricom and what is logged of its callbacks, on concrete values.
use script_pay_backend.Shared.{ℕ, ◌*◌, ◌≡◌, String, true, none, some, [], refl, arith}
use script_pay_backend.Shared.Int.{pos}
use script_pay_backend.Store.Tx.{ok}
use script_pay_backend.Payments.Safaricom.{B2cRequest, CommandId}
use script_pay_backend.Tenants.Credentials.{TenantPayoutCredentials}
use script_pay_backend.Payments.Messages.{DarajaBody, HttpAnswer, B2cBody, read_accepted}
use script_pay_backend.Payments.DarajaClient.{
  ClientState, Endpoints, initiate_b2c, verify_credentials,
}
use script_pay_backend.Payments.DarajaClient.Amounts.{Asks, initiate_b2c_sends}
use script_pay_backend.Payments.DarajaClient.TokenCache.{verify_credentials_other_secret}
use script_pay_backend.Callbacks.Redaction.{Json, Fields}

abbrev accepted : HttpAnswer
accepted = record {
  is_ok = true;
  body = some (record {
    response_code = some "0";
    result_code = none;
    result_desc = none;
    error_message = none;
    response_description = none;
    merchant_request_id = "";
    checkout_request_id = "";
    conversation_id = "AG_1";
    originator_conversation_id = "conversation-2";
  });
}

abbrev endpoints : Endpoints
endpoints = record {
  oauth = λ key secret. record { is_ok = true; grant = some ("token", 3599) };
  stk_push = λ token body. accepted;
  stk_push_query = λ token checkout. accepted;
  b2c = λ token body. accepted;
  transaction_status = λ token creds id. accepted;
  register_url = λ token code. accepted;
}

abbrev creds : TenantPayoutCredentials
creds = record {
  shortcode = "600000";
  mpesa_consumer_key = "key";
  mpesa_consumer_secret = "secret";
  initiator_name = "initiator";
  security_credential = "credential";
}

abbrev payout : B2cRequest
payout = record {
  originator_conversation_id = "conversation-2";
  amount_minor_units = pos 4000;
  msisdn = "254700000002";
  command_id = CommandId.business_payment;
  remarks = "refund";
  occasion = none;
}

abbrev started : ClientState
started = record { now = 1000000; token_cache = [] }

initiate_b2c_sends_example :
    (k : ℕ) × (k * 100 ≡ 4000)
    × (token : String) × (sent : B2cBody) × Asks creds payout k sent
    × (body : DarajaBody) × (read_accepted (endpoints.b2c token sent) ≡ ok body)
    × (body.conversation_id ≡ "AG_1")
unfolding initiate_b2c
initiate_b2c_sends_example = initiate_b2c_sends endpoints creds payout 4000 "AG_1" started refl refl

verify_credentials_other_secret_example :
    let (first, t) = verify_credentials endpoints "key" "secret" started in
    (first ≡ ok tt) × (verify_credentials endpoints "key" "wrong" t ≡ (ok tt, t))
verify_credentials_other_secret_example =
    verify_credentials_other_secret endpoints "key" "secret" "wrong" "token" 3599 started refl
      (omega arith)

abbrev callback : Json
callback = Json.object (
    Fields.field "ResultCode" (Json.number (pos 0))
      (Fields.field "MSISDN" (Json.text "254700000002") Fields.end_object))
