-- ===== src/Examples.antt =====
-- A small store that the example runs share: a tenant with one settled collection and one payout in
-- flight, and a Safaricom that takes every request.
pub mod Runs
pub mod Jobs
pub mod Polls
pub mod Tenancy
pub mod Tokens
pub mod Wire
pub mod Routes
pub mod Environment
use script_pay_backend.Shared.{
  ℕ, String, true, false, Option, none, some, List, [], ◌∷◌, ◌≡◌, refl, arith, find,
}
use script_pay_backend.Shared.Int.{ℤ, pos, int_laws, sum_of}
use script_pay_backend.Store.Rows.{
  Store, Transaction, TransactionChannel, processing, settled, outbound, Tenant, LedgerAccount,
  tenant_balance, pending_settlement, payout_reserved, payouts_paid, LedgerEntry, debit, credit,
  new_transaction, external,
}
use script_pay_backend.Store.Tx.{ok, err}
use script_pay_backend.Ledger.{reservation_entries, entry}
use script_pay_backend.Ledger.Balance.{Selection, effect, owed}
use script_pay_backend.StateMachine.{collection_entries}
use script_pay_backend.StateMachine.Soundness.{IsSound}
use script_pay_backend.Payments.Safaricom.{Daraja, Elsewhere}

abbrev pub shop : Tenant
shop = record {
  id = 7;
  name = "shop";
  status = "active";
  mpesa_consumer_key = some "key";
  mpesa_consumer_secret_encrypted = some "secret";
  mpesa_credentials_configured_at = none;
  webhook_url = some "https://shop.example/hook";
  webhook_secret_encrypted = none;
  webhook_configured_at = none;
}

abbrev pub sale : Transaction
sale =
    let d = new_transaction 7 TransactionChannel.stk_push (pos 10000) "254700000001" in
    record d { id = 1; status = settled; mpesa_receipt_number = some "RSALE" }

abbrev pub payout : Transaction
payout =
    let d = new_transaction 7 TransactionChannel.b2c (pos 4000) "254700000002" in
    record d {
      id = 2;
      direction = outbound;
      status = processing;
      originator_conversation_id = some "conversation-2";
    }

-- Both are written out: a ledger is data.
abbrev pub entries : List LedgerEntry
entries =
    entry 7 1 tenant_balance credit (pos 10000)
    ∷ entry 7 1 pending_settlement debit (pos 10000)
    ∷ entry 7 2 tenant_balance debit (pos 4000)
    ∷ entry 7 2 payout_reserved credit (pos 4000)
    ∷ []

abbrev pub books : Store
books = record {
  now = 1000000;
  next_id = 3;
  tenants = shop ∷ [];
  users = [];
  refresh_tokens = [];
  email_verification_tokens = [];
  password_reset_tokens = [];
  api_keys = [];
  shortcodes = [];
  transactions = sale ∷ payout ∷ [];
  ledger_entries = entries;
  reconciliation_records = [];
  webhook_deliveries = [];
  payout_status_queries = [];
  audit_log = [];
  alerts = [];
  emails = [];
  letters = [];
}

books_agree :
    (sel : Selection) (a : LedgerAccount)
    → sum_of (effect sel a) books.ledger_entries ≡ sum_of (owed sel a) books.transactions
books_agree sel tenant_balance = grind int_laws
books_agree sel pending_settlement = grind int_laws
books_agree sel payout_reserved = grind int_laws
books_agree sel payouts_paid = grind int_laws

pub books-IsSound : IsSound books
books-IsSound = record { consistent = books_agree; fresh = λ n below. ground arith }

-- It accepts payouts and collections, and says of a collection that it was paid.
abbrev pub safaricom : Daraja
safaricom = record {
  Credentials = Unit;
  payment_credentials = λ tenant channel s. ok tt;
  payout_credentials = λ tenant code s. ok tt;
  initiate_stk_push =
      λ c q. ok (record { merchant_request_id = "merchant-1"; checkout_request_id = "checkout-1" });
  initiate_b2c = λ c q. ok "AG_1";
  query_stk_push_status = λ c checkout. ok (record {
    result_code = some (pos 0);
    mpesa_receipt_number = some "RASKED";
    result_desc = none;
  });
  query_payout_status = λ c conversation. err (external "busy");
}

-- Nothing else happens while a request waits.
abbrev pub nobody : Elsewhere
nobody = record { before_write = λ s. s; during_call = λ s. s }
