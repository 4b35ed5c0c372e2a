-- ===== src/Payments/Messages.antt =====
-- What DarajaClient (src/infrastructure/daraja/daraja.client.ts) posts to Safaricom and how it reads
-- the answers, with the amount rules of the request schemas of src/modules/payments.
use Prim.Native.Nat.{◌%◌, ◌/◌}
use script_pay_backend.Shared.{
  ℕ, suc, ◌-◌, String, Bool, false, ◌&&◌, Option, none, some, ◌==◌, leb, ltb, str_eq, or_default,
  or_else, if◌then◌else◌,
}
use script_pay_backend.Shared.Int.{ℤ, pos, negsuc}
use script_pay_backend.Store.Rows.{Error, external}
use script_pay_backend.Store.Tx.{Result, ok, err}
use script_pay_backend.Payments.Safaricom.{
  StkPushRequest, StkPushResponse, StkPushStatus, B2cRequest, PayoutQueryResponse, CommandId,
  PaymentChannel,
}
use script_pay_backend.Tenants.Credentials.{TenantMpesaCredentials, TenantPayoutCredentials}

-- A ResultCode as JSON has it: a number or a text.
pub data RawCode : Type 0 where
  numeric : ℤ → RawCode
  text : String → RawCode

-- The fields of an answer that the client reads.
pub record DarajaBody : Type 0 where
  pub response_code : Option String
  pub result_code : Option RawCode
  pub result_desc : Option String
  pub error_message : Option String
  pub response_description : Option String
  pub merchant_request_id : String
  pub checkout_request_id : String
  pub conversation_id : String
  pub originator_conversation_id : String

-- A response: `response.ok`, and what it says, if that is JSON.
pub record HttpAnswer : Type 0 where
  pub is_ok : Bool
  pub body : Option DarajaBody

-- `parseDarajaJson`.
abbrev pub parse_daraja_json : HttpAnswer → Result DarajaBody
parse_daraja_json a = elim a.body [
  | none ↦ err (external "unexpected response")
  | some body ↦ ok body
]

abbrev pub is_zero_code : Option String → Bool
is_zero_code none = false
is_zero_code (some code) = str_eq code "0"

abbrev pub rejection : DarajaBody → Error
rejection body =
    external
      (or_default (or_else body.error_message body.response_description) "Daraja rejected it")

-- `if (!response.ok || body.ResponseCode !== "0") throw`.
abbrev pub read_body : Bool → Result DarajaBody → Result DarajaBody
read_body is_ok (err e) = err e
read_body is_ok (ok body) =
    if is_ok && is_zero_code body.response_code then ok body else err (rejection body)

abbrev pub read_accepted : HttpAnswer → Result DarajaBody
read_accepted a = read_body a.is_ok (parse_daraja_json a)

abbrev pub mapped : {A B : Type 0} → (A → B) → Result A → Result B
mapped f (ok a) = ok (f a)
mapped f (err e) = err e

-- The amount in shillings that `amountMinorUnits / 100` is, if it is whole.
abbrev pub whole : ℕ → Option ℕ
whole n = if n % 100 == 0 then some (n / 100) else none

abbrev pub or_fraction : (ℕ → ℤ) → Option ℕ → Result ℤ
or_fraction signed none = err (external "Refusing to send a fractional amount to Daraja")
or_fraction signed (some k) = ok (signed k)

abbrev pub minus : ℕ → ℤ
minus k = negsuc (k - 1)

-- `assertWholeShillings(amountMinorUnits / 100)`.
abbrev pub assert_whole_shillings : ℤ → Result ℤ
assert_whole_shillings (pos n) = or_fraction pos (whole n)
assert_whole_shillings (negsuc n) = or_fraction minus (whole (suc n))

-- The multipleOf, positive and max of a request's amount.
abbrev pub is_valid_amount : ℕ → ℕ → Bool
is_valid_amount max n = ltb 0 n && (n % 100 == 0) && leb n max

abbrev pub stk_max_minor_units : ℕ
stk_max_minor_units = 15000000

abbrev pub b2c_max_minor_units : ℕ
b2c_max_minor_units = 25000000

pub data TransactionType : Type 0 where
  customer_pay_bill_online customer_buy_goods_online : TransactionType

abbrev pub transaction_type : PaymentChannel → TransactionType
transaction_type PaymentChannel.till = TransactionType.customer_buy_goods_online
transaction_type PaymentChannel.paybill = TransactionType.customer_pay_bill_online

-- What is posted for a collection, less its password and callback URL.
pub record StkPushBody : Type 0 where
  pub business_short_code : String
  pub transaction_type : TransactionType
  pub amount : ℤ
  pub party_a : String
  pub party_b : String
  pub phone_number : String
  pub account_reference : String
  pub transaction_desc : String

abbrev pub stk_push_body : TenantMpesaCredentials → StkPushRequest → ℤ → StkPushBody
stk_push_body creds q amount = record {
  business_short_code = creds.shortcode;
  transaction_type = transaction_type q.channel;
  amount = amount;
  party_a = q.msisdn;
  party_b = creds.shortcode;
  phone_number = q.msisdn;
  account_reference = q.account_reference;
  transaction_desc = q.transaction_desc;
}

-- What is posted for a payout, less its URLs.
pub record B2cBody : Type 0 where
  pub originator_conversation_id : String
  pub initiator_name : String
  pub security_credential : String
  pub command_id : CommandId
  pub amount : ℤ
  pub party_a : String
  pub party_b : String
  pub remarks : String
  pub occasion : String

abbrev pub b2c_body : TenantPayoutCredentials → B2cRequest → ℤ → B2cBody
b2c_body creds q amount = record {
  originator_conversation_id = q.originator_conversation_id;
  initiator_name = creds.initiator_name;
  security_credential = creds.security_credential;
  command_id = q.command_id;
  amount = amount;
  party_a = creds.shortcode;
  party_b = q.msisdn;
  remarks = q.remarks;
  occasion = or_default q.occasion "";
}

abbrev pub stk_push_response : DarajaBody → StkPushResponse
stk_push_response body = record {
  merchant_request_id = body.merchant_request_id;
  checkout_request_id = body.checkout_request_id;
}

abbrev pub payout_query_response : DarajaBody → PayoutQueryResponse
payout_query_response body = record {
  originator_conversation_id = body.originator_conversation_id;
  conversation_id = some body.conversation_id;
}

-- `Number(rawResultCode)` where that is finite; `read_number` reads a text.
abbrev pub verdict : (String → Option ℤ) → Option RawCode → Option ℤ
verdict read_number none = none
verdict read_number (some (RawCode.numeric n)) = some n
verdict read_number (some (RawCode.text t)) = if str_eq t "" then none else read_number t

abbrev pub status_of : DarajaBody → Option ℤ → StkPushStatus
status_of body none = record {
  result_code = none;
  mpesa_receipt_number = none;
  result_desc = or_else body.error_message body.response_description;
}
status_of body (some code) = record {
  result_code = some code;
  mpesa_receipt_number = none;
  result_desc = body.result_desc;
}
