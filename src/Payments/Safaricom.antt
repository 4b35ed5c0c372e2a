-- ===== src/Payments/Safaricom.antt =====
-- Safaricom's Daraja API and the credentials that a call needs, as a parameter of the services
-- that call it, and what the rest of the platform commits while a request waits.
use script_pay_backend.Shared.{ℕ, String, Option}
use script_pay_backend.Shared.Int.{ℤ}
use script_pay_backend.Store.Rows.{Store}
use script_pay_backend.Store.Tx.{Result}

-- The channels a collection can be asked for.
pub data PaymentChannel : Type 0 where
  paybill till : PaymentChannel

pub data CommandId : Type 0 where
  business_payment salary_payment promotion_payment : CommandId

-- The amounts are still in minor units: the services divide by 100 on the way out.
pub record StkPushRequest : Type 0 where
  pub amount_minor_units : ℤ
  pub msisdn : String
  pub account_reference : String
  pub transaction_desc : String
  pub channel : PaymentChannel

pub record StkPushResponse : Type 0 where
  pub merchant_request_id : String
  pub checkout_request_id : String

pub record B2cRequest : Type 0 where
  pub originator_conversation_id : String
  pub amount_minor_units : ℤ
  pub msisdn : String
  pub command_id : CommandId
  pub remarks : String
  pub occasion : Option String

-- `StkPushStatusResult`: no result code means that Safaricom gave no verdict.
pub record StkPushStatus : Type 0 where
  pub result_code : Option ℤ
  pub mpesa_receipt_number : Option String
  pub result_desc : Option String

pub record PayoutQueryResponse : Type 0 where
  pub originator_conversation_id : String
  pub conversation_id : Option String

-- Each call answers or throws. `payment_credentials` and `payout_credentials` stand for
-- TenantsService.getMpesaCredentialsForPayment and getMpesaCredentialsForPayout, which only read.
pub record Daraja : Type 1 where
  pub Credentials : Type 0
  pub payment_credentials : ℕ → PaymentChannel → Store → Result Credentials
  pub payout_credentials : ℕ → ℕ → Store → Result Credentials
  pub initiate_stk_push : Credentials → StkPushRequest → Result StkPushResponse
  pub initiate_b2c : Credentials → B2cRequest → Result String
  pub query_stk_push_status : Credentials → String → Result StkPushStatus
  pub query_payout_status : Credentials → String → Result PayoutQueryResponse

-- What other requests and jobs commit while a request waits: between its first look-up and its
-- first write, and during its call of Safaricom.
pub record Elsewhere : Type 0 where
  pub before_write : Store → Store
  pub during_call : Store → Store
