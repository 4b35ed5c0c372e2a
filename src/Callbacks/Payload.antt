-- ===== src/Callbacks/Payload.antt =====
-- src/modules/callbacks/daraja-callback.interface.ts: the shapes of the callbacks. Every field may be
-- missing, since the payload is whatever was posted.
use script_pay_backend.Shared.{ℕ, String, Bool, true, false, Option, none, some, List}
use script_pay_backend.Store.Rows.{Error}

-- A JSON value under a key: a text, a number by the digits that JavaScript prints, or null.
pub data Value : Type 0 where
  text number : String → Value
  null : Value

-- `Body.stkCallback`; `items` are `CallbackMetadata.Item`, by name.
pub record StkCallback : Type 0 where
  pub checkout_request_id : Option String
  pub result_code : Option Value
  pub result_desc : Option String
  pub items : List (String × Value)

-- `Result`, the envelope of the payout and status callbacks; `parameters` are
-- `ResultParameters.ResultParameter`, by key.
pub record DarajaResult : Type 0 where
  pub originator_conversation_id : Option Value
  pub transaction_id : Option Value
  pub result_code : Option Value
  pub result_desc : Option String
  pub parameters : List (String × Value)

-- The flat fields of a C2B confirmation.
pub record C2bConfirmation : Type 0 where
  pub transaction_type : Option String
  pub trans_id : Option Value
  pub trans_amount : Option Value
  pub business_short_code : Option Value
  pub msisdn : Option Value
  pub trans_time : Option Value

-- An object that was posted, as the three kinds of handler read it.
pub record DarajaPayload : Type 0 where
  pub stk_callback : Option StkCallback
  pub result : Option DarajaResult
  pub confirmation : C2bConfirmation

pub data WebhookSource : Type 0 where
  daraja_stk_callback daraja_c2b_confirmation daraja_b2c_result daraja_b2c_timeout : WebhookSource
  daraja_transaction_status_result daraja_transaction_status_timeout : WebhookSource

abbrev pub source_eq : WebhookSource → WebhookSource → Bool
source_eq daraja_stk_callback daraja_stk_callback = true
source_eq daraja_c2b_confirmation daraja_c2b_confirmation = true
source_eq daraja_b2c_result daraja_b2c_result = true
source_eq daraja_b2c_timeout daraja_b2c_timeout = true
source_eq daraja_transaction_status_result daraja_transaction_status_result = true
source_eq daraja_transaction_status_timeout daraja_transaction_status_timeout = true
source_eq _ _ = false

pub record WebhookEvent : Type 0 where
  pub id : ℕ
  pub source : WebhookSource
  pub natural_key : String
  pub payload : DarajaPayload
  pub processed_at : Option ℕ
  pub processing_error : Option Error
  pub attempts : ℕ

-- `x?.f` on an optional record.
abbrev pub chain : {A B : Type 0} → (A → Option B) → Option A → Option B
chain f none = none
chain f (some a) = f a

-- `typeof v === "string" ? v : null`.
abbrev pub text_of : Option Value → Option String
text_of (some (Value.text s)) = some s
text_of _ = none
