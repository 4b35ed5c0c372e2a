-- ===== src/Examples/Polls.antt =====
-- Callbacks that are processed on the small store.
use script_pay_backend.Shared.{
  String, Bool, Option, none, some, [], ◌∷◌, refl, str_eq, if◌then◌else◌,
}
use script_pay_backend.Shared.Int.{ℤ, pos}
use script_pay_backend.Store.Rows.{
  Store, TransactionStatus, TransactionChannel, inbound, DeliveryStatus, TenantWebhookDelivery,
}
use script_pay_backend.Store.Tx.{ok}
use script_pay_backend.Callbacks.Deliveries.{refused, poll_pending_deliveries}
use script_pay_backend.Callbacks.Deliveries.Attempts.{AllWithin, poll_pending_deliveries-AllWithin}
use script_pay_backend.Callbacks.Payload.{Value, DarajaPayload, daraja_b2c_timeout}
use script_pay_backend.Callbacks.Dispatch.{dispatch}
use script_pay_backend.Callbacks.Dispatch.Timeouts.{Untouched, dispatch-Untouched}
use script_pay_backend.Examples.{books, shop}

-- A reading of numbers that knows two spellings.
abbrev pub read_minor_units : Option Value → Option ℤ
read_minor_units (some (Value.text s)) = if str_eq s "25.00" then some (pos 2500) else none
read_minor_units _ = none

abbrev pub read_zero : String → Bool
read_zero s = str_eq s "0"

abbrev answer : DarajaPayload
answer = record {
  stk_callback = none;
  result = some (record {
    originator_conversation_id = some (Value.text "conversation-2");
    transaction_id = some (Value.text "RPAID");
    result_code = some (Value.number "0");
    result_desc = none;
    parameters = [];
  });
  confirmation = record {
    transaction_type = none;
    trans_id = none;
    trans_amount = none;
    business_short_code = none;
    msisdn = none;
    trans_time = none;
  };
}

dispatch-Untouched_example :
    Untouched books (dispatch read_minor_units read_zero daraja_b2c_timeout answer books).1
dispatch-Untouched_example =
    dispatch-Untouched read_minor_units read_zero daraja_b2c_timeout answer books refl

-- The fifth attempt at an endpoint that is down.
abbrev notice : TenantWebhookDelivery
notice = record {
  id = 1;
  tenant_id = 7;
  transaction_id = 1;
  payload = record {
    transaction_id = 1;
    status = TransactionStatus.settled;
    direction = inbound;
    channel = TransactionChannel.stk_push;
    mpesa_receipt_number = some "RSALE";
    amount_minor_units = pos 10000;
    metadata = none;
    occurred_at = 0;
  };
  status = DeliveryStatus.pending;
  attempts = 4;
  next_attempt_at = 0;
  last_error = none;
  delivered_at = none;
}

abbrev owing : Store
owing = record books {
  tenants = record shop { webhook_secret_encrypted = some "secret" } ∷ [];
  webhook_deliveries = notice ∷ [];
}

poll_pending_deliveries-AllWithin_example :
    AllWithin
      (poll_pending_deliveries
        (λ secret p. ok "signature")
        (λ url signature p. refused "HTTP 503")
        owing).1.webhook_deliveries
poll_pending_deliveries-AllWithin_example =
    poll_pending_deliveries-AllWithin (λ secret p. ok "signature")
      (λ url signature p. refused "HTTP 503") owing (refl, tt)
