-- ===== src/Callbacks/Normalize.antt =====
-- The normalization of webhook-ingest.service.ts. What Daraja sends as a number may come as text.
use script_pay_backend.Shared.{
  String, Bool, true, false, Option, none, some, List, [], ◌∷◌, str_eq, or_else, if◌then◌else◌,
}
use script_pay_backend.Shared.Int.{ℤ}
use script_pay_backend.Store.Rows.{bad_request}
use script_pay_backend.Store.Tx.{Result, ok, err}
use script_pay_backend.Callbacks.Payload.{Value, StkCallback, C2bConfirmation, DarajaPayload}
use script_pay_backend.Callbacks.Timestamps.{parse_daraja_timestamp}

pub data CallbackType : Type 0 where
  stk_push c2b : CallbackType

-- `receivedAt` and `rawPayload` are left out; an amount is what JavaScript's `Number` makes of it.
pub record NormalizedWebhookPayload (Amount : Type 0) : Type 0 where
  pub checkout_request_id : Option String
  pub mpesa_receipt_number : Option Value
  pub result_code : Option Value
  pub result_desc : Option String
  pub success : Bool
  pub amount : Option Amount
  pub transaction_date : Option ℤ
  pub msisdn : Option String
  pub callback_type : CallbackType

-- `metaMap.get`, where a later item of a name replaces an earlier one.
abbrev pub meta : String → List (String × Value) → Option Value
meta name [] = none
meta name ((n, v) ∷ items) = or_else (meta name items) (if str_eq n name then some v else none)

abbrev pub is_zero : Option Value → Bool
is_zero (some (Value.number digits)) = str_eq digits "0"
is_zero _ = false

abbrev pub map_option : {A B : Type 0} → (A → B) → Option A → Option B
map_option f none = none
map_option f (some a) = some (f a)

-- `String(v)`.
abbrev pub printed : Value → String
printed (Value.text s) = s
printed (Value.number digits) = digits
printed Value.null = "null"

module _ {Amount : Type 0} (number : Value → Amount) where
  abbrev pub normalize_stk : Option StkCallback → Result (NormalizedWebhookPayload Amount)
  normalize_stk none = err bad_request
  normalize_stk (some stk) = ok (record {
    checkout_request_id = stk.checkout_request_id;
    mpesa_receipt_number = meta "MpesaReceiptNumber" stk.items;
    result_code = stk.result_code;
    result_desc = stk.result_desc;
    success = is_zero stk.result_code;
    amount = map_option number (meta "Amount" stk.items);
    transaction_date = parse_daraja_timestamp (meta "TransactionDate" stk.items);
    msisdn = map_option printed (meta "PhoneNumber" stk.items);
    callback_type = CallbackType.stk_push;
  })

  abbrev pub normalize_stk_callback :
      Option DarajaPayload → Result (NormalizedWebhookPayload Amount)
  normalize_stk_callback none = err bad_request
  normalize_stk_callback (some p) = normalize_stk p.stk_callback

  abbrev pub confirmed : C2bConfirmation → String → NormalizedWebhookPayload Amount
  confirmed c id = record {
    checkout_request_id = none;
    mpesa_receipt_number = some (Value.text id);
    result_code = some (Value.number "0");
    result_desc = some "C2B confirmation received";
    success = true;
    amount = map_option number c.trans_amount;
    transaction_date = parse_daraja_timestamp c.trans_time;
    msisdn = map_option printed c.msisdn;
    callback_type = CallbackType.c2b;
  }

  abbrev pub normalize_c2b :
      C2bConfirmation → Option Value → Result (NormalizedWebhookPayload Amount)
  normalize_c2b c (some (Value.text id)) =
      if str_eq id "" then err bad_request else ok (confirmed c id)
  normalize_c2b c _ = err bad_request

  abbrev pub normalize_c2b_callback :
      Option DarajaPayload → Result (NormalizedWebhookPayload Amount)
  normalize_c2b_callback none = err bad_request
  normalize_c2b_callback (some p) = normalize_c2b p.confirmation p.confirmation.trans_id

  -- `normalizePayload`; the first argument is whether the source is an STK callback.
  unfoldable pub normalize_payload :
      CallbackType → Option DarajaPayload → Result (NormalizedWebhookPayload Amount)
  unfolding parse_daraja_timestamp
  normalize_payload CallbackType.stk_push = normalize_stk_callback
  normalize_payload CallbackType.c2b = normalize_c2b_callback
