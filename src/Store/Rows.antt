-- ===== src/Store/Rows.antt =====
-- The tables of prisma/schema.prisma. Row ids are numbers, handed out by `next_id`; texts that come
-- from Safaricom or from a tenant are `String`; times are milliseconds; amounts are minor units.
use script_pay_backend.Shared.{ℕ, String, Bool, true, false, Option, none, List, ◌==◌}
use script_pay_backend.Shared.Int.{ℤ}
pub use script_pay_backend.Store.Accounts.{
  Role, User, RefreshToken, OneTimeToken, ApiKeyScope, ApiKey, Tenant, ShortcodeType,
  TenantShortcode, Shown, Mail, Letter,
}

-- What is thrown: the exceptions of the services, and those of the database and of Daraja.
pub data Error : Type 0 where
  not_found bad_request conflict unauthorized forbidden : Error
  row_not_found unique_violation : Error
  invalid_amount : ℤ → Error
  insufficient_balance : ℤ → ℤ → Error
  not_in_transaction : Error
  wrong_direction different_receipt : Error
  illegal_transition : Error
  external : String → Error

-- A failure reason: a text, the message of an error, or an operator's resolution.
pub data Reason : Type 0 where
  text : String → Reason
  message : Error → Reason
  manually_resolved : String → String → Reason

pub data TransactionChannel : Type 0 where
  stk_push paybill till b2c : TransactionChannel

pub data TransactionDirection : Type 0 where
  inbound outbound : TransactionDirection

pub data TransactionStatus : Type 0 where
  pending processing settled failed reversed : TransactionStatus

abbrev pub status_eq : TransactionStatus → TransactionStatus → Bool
status_eq pending pending = true
status_eq processing processing = true
status_eq settled settled = true
status_eq failed failed = true
status_eq reversed reversed = true
status_eq _ _ = false

abbrev pub is_outbound : TransactionDirection → Bool
is_outbound outbound = true
is_outbound inbound = false

pub record Transaction : Type 0 where
  pub id : ℕ
  pub tenant_id : ℕ
  pub channel : TransactionChannel
  pub direction : TransactionDirection
  pub status : TransactionStatus
  pub amount_minor_units : ℤ
  pub msisdn : String
  pub merchant_request_id : Option String
  pub checkout_request_id : Option String
  pub originator_conversation_id : Option String
  pub conversation_id : Option String
  pub mpesa_receipt_number : Option String
  pub failure_reason : Option Reason
  pub payout_remarks : Option String
  pub payout_occasion : Option String
  pub idempotency_key : Option String
  pub metadata : Option String
  pub updated_at : ℕ

-- The columns that `transaction.create` leaves to the schema's defaults.
abbrev pub new_transaction : ℕ → TransactionChannel → ℤ → String → Transaction
new_transaction tenant channel amount msisdn = record {
  id = 0;
  tenant_id = tenant;
  channel = channel;
  direction = inbound;
  status = pending;
  amount_minor_units = amount;
  msisdn = msisdn;
  merchant_request_id = none;
  checkout_request_id = none;
  originator_conversation_id = none;
  conversation_id = none;
  mpesa_receipt_number = none;
  failure_reason = none;
  payout_remarks = none;
  payout_occasion = none;
  idempotency_key = none;
  metadata = none;
  updated_at = 0;
}

pub data LedgerAccount : Type 0 where
  tenant_balance pending_settlement payout_reserved payouts_paid : LedgerAccount

pub data LedgerDirection : Type 0 where
  debit credit : LedgerDirection

pub record LedgerEntry : Type 0 where
  pub tenant_id : ℕ
  pub transaction_id : ℕ
  pub account : LedgerAccount
  pub direction : LedgerDirection
  pub amount_minor_units : ℤ

pub record ReconciliationRecord : Type 0 where
  pub tenant_id : ℕ
  pub transaction_id : ℕ
  pub expected_amount : ℤ
  pub confirmed_amount : Option ℤ
  pub drift_detected : Bool
  pub reconciled_at : Option ℕ

pub data DeliveryStatus : Type 0 where
  pending delivered failed : DeliveryStatus

-- What the tenant's endpoint is told.
pub record DeliveryPayload : Type 0 where
  pub transaction_id : ℕ
  pub status : TransactionStatus
  pub direction : TransactionDirection
  pub channel : TransactionChannel
  pub mpesa_receipt_number : Option String
  pub amount_minor_units : ℤ
  pub metadata : Option String
  pub occurred_at : ℕ

pub record TenantWebhookDelivery : Type 0 where
  pub id : ℕ
  pub tenant_id : ℕ
  pub transaction_id : ℕ
  pub payload : DeliveryPayload
  pub status : DeliveryStatus
  pub attempts : ℕ
  pub next_attempt_at : ℕ
  pub last_error : Option String
  pub delivered_at : Option ℕ

pub record PayoutStatusQuery : Type 0 where
  pub id : ℕ
  pub tenant_id : ℕ
  pub transaction_id : ℕ
  pub query_originator_conversation_id : String
  pub query_conversation_id : Option String
  pub resolved_at : Option ℕ

-- An entry of the audit log, less its metadata.
pub record AuditEntry : Type 0 where
  pub tenant_id : Option ℕ
  pub actor_id : Option ℕ
  pub action : String
  pub target_id : Option ℕ

pub data Severity : Type 0 where
  critical warning info : Severity

-- An alert that `AlertsService.send` was given, less its prose.
pub record Alert : Type 0 where
  pub title : String
  pub severity : Severity
  pub transaction_id : Option ℕ

-- A receipt email handed to `EmailService`.
pub record ReceiptEmail : Type 0 where
  pub to : String
  pub amount_minor_units : ℤ
  pub mpesa_receipt_number : Option String

pub record Store : Type 0 where
  pub now : ℕ
  pub next_id : ℕ
  pub tenants : List Tenant
  pub users : List User
  pub refresh_tokens : List RefreshToken
  pub email_verification_tokens : List OneTimeToken
  pub password_reset_tokens : List OneTimeToken
  pub api_keys : List ApiKey
  pub shortcodes : List TenantShortcode
  pub transactions : List Transaction
  pub ledger_entries : List LedgerEntry
  pub reconciliation_records : List ReconciliationRecord
  pub webhook_deliveries : List TenantWebhookDelivery
  pub payout_status_queries : List PayoutStatusQuery
  pub audit_log : List AuditEntry
  pub alerts : List Alert
  pub emails : List ReceiptEmail
  pub letters : List Letter

-- `where: { id }` on transactions.
abbrev pub has_id : ℕ → Transaction → Bool
has_id id t = t.id == id
