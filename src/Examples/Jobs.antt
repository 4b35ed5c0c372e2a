-- ===== src/Examples/Jobs.antt =====
-- The reconciliation jobs, an operator's decision, and callbacks that come twice.
use script_pay_backend.Shared.{Option, none, some, List, [], ◌∷◌, ◌≡◌, refl, arith}
use mathlib.Core.List.{Memᴰ}
use script_pay_backend.Store.Rows.{unique_violation}
use script_pay_backend.Store.Tx.{ok, err}
use script_pay_backend.Store.Outcomes.{Ends}
use script_pay_backend.StateMachine.{transition_payout_to_settled}
use script_pay_backend.Reconciliation.Drift.{detect_stuck_payouts}
use script_pay_backend.Reconciliation.Drift.Escalation.{
  AreEscalated, stuck_payouts, detect_stuck_payouts-AreEscalated,
}
use script_pay_backend.Reconciliation.Drift.Blocked.{escalated_payout_cannot_settle}
use script_pay_backend.Reconciliation.Resolution.{ResolvePayoutDto, Caller, Verdict, resolve}
use script_pay_backend.Reconciliation.Resolution.Branches.{
  ResolvedAt, NothingDone, resolve_all_or_nothing,
}
use script_pay_backend.Callbacks.Payload.{
  Value, C2bConfirmation, DarajaPayload, WebhookSource, daraja_stk_callback,
}
use script_pay_backend.Callbacks.Ingest.{Inbox, ingest, extract_natural_key}
use script_pay_backend.Callbacks.Ingest.Once.{stored, IsUnique, ingest_all, ingest_once}
use script_pay_backend.Examples.{books, books-IsSound, payout, safaricom}

detect_stuck_payouts-AreEscalated_example :
    (detect_stuck_payouts safaricom books ≡ (ok tt, (detect_stuck_payouts safaricom books).1))
    × AreEscalated (stuck_payouts safaricom books) books (detect_stuck_payouts safaricom books).1
detect_stuck_payouts-AreEscalated_example = detect_stuck_payouts-AreEscalated safaricom books

escalated_payout_cannot_settle_example :
    transition_payout_to_settled 2 (some "RPAID") (detect_stuck_payouts safaricom books).1
    ≡ err unique_violation
escalated_payout_cannot_settle_example =
    escalated_payout_cannot_settle safaricom payout (some "RPAID") books refl refl refl
      (Memᴰ.head refl)

abbrev decision : ResolvePayoutDto
decision = record {
  resolution = Verdict.failed;
  mpesa_receipt_number = none;
  reason = "statement shows no payout";
}

abbrev operator : Caller
operator = record { id = 1; name = "ops" }

resolve_all_or_nothing_example :
    Ends (ResolvedAt Verdict.failed 2 books) (NothingDone books) (resolve 2 decision operator books)
resolve_all_or_nothing_example = resolve_all_or_nothing 2 decision operator books books-IsSound

abbrev blank : C2bConfirmation
blank = record {
  transaction_type = none;
  trans_id = none;
  trans_amount = none;
  business_short_code = none;
  msisdn = none;
  trans_time = none;
}

abbrev pub callback : DarajaPayload
callback = record {
  stk_callback = some (record {
    checkout_request_id = some "ws_CO_1";
    result_code = some (Value.number "0");
    result_desc = none;
    items = [];
  });
  result = none;
  confirmation = blank;
}

abbrev posts : List (WebhookSource × Option DarajaPayload)
posts = (daraja_stk_callback, some callback) ∷ (daraja_stk_callback, none) ∷ []

abbrev pub inbox : Inbox
inbox = record { next_id = 1; events = [] }

inbox-IsUnique : IsUnique inbox
inbox-IsUnique source key = omega arith

ingest_once_example :
    ((ingest daraja_stk_callback (some callback) (ingest_all posts inbox)).0 ≡ ok tt)
    × (stored daraja_stk_callback "ws_CO_1"
          (ingest_all posts
            (ingest daraja_stk_callback (some callback) (ingest_all posts inbox)).1).events
        ≡ 1)
unfolding extract_natural_key
ingest_once_example =
    ingest_once posts posts daraja_stk_callback callback "ws_CO_1" inbox inbox-IsUnique refl refl
