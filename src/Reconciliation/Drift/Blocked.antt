-- ===== src/Reconciliation/Drift/Blocked.antt =====
-- A payout that the detector has flagged has a reconciliation record, and settling a payout creates
-- one: the unique column refuses the second.
use mathlib.Core.List.{Memᴰ}
use script_pay_backend.Shared.{
  find, String, true, Option, some, List, [], ◌∷◌, ◌≡◌, arith, any, sym, subst,
}
use script_pay_backend.Store.Rows.{
  Store, Transaction, outbound, processing, unique_violation, has_id,
}
use script_pay_backend.Store.Tx.{err}
use script_pay_backend.Store.Tables.{find_transaction, is_record_of}
use script_pay_backend.StateMachine.{
  transition_payout_to_settled, settle_payout, tenant_webhook_url,
}
use script_pay_backend.StateMachine.Redelivery.{transition_payout_to_settled_at}
use script_pay_backend.Payments.Safaricom.{Daraja}
use script_pay_backend.Reconciliation.Drift.{is_flagged_in, detect_stuck_payouts}
use script_pay_backend.Reconciliation.Drift.Flags.{any_of_flag}
use script_pay_backend.Reconciliation.Drift.Escalation.{
  AllFlagged, AreEscalated, stuck_payouts, detect_stuck_payouts-AreEscalated,
}

settle_payout_recorded :
    (url : Option String) (t : Transaction) (r : Option String) (s : Store)
    → find_transaction t.id s ≡ some t
    → t.status ≡ processing
    → any (is_record_of t.id) s.reconciliation_records ≡ true
    → settle_payout url t r s ≡ err unique_violation
unfolding settle_payout
settle_payout_recorded url t r s found p recorded = ground arith

AllFlagged-mem :
    (t : Transaction) (rows : List Transaction) (u : Store)
    → Memᴰ t rows
    → AllFlagged rows u
    → is_flagged_in t.id u ≡ true
AllFlagged-mem t [] u m h = elim m [ ]
AllFlagged-mem t (x ∷ rows) u (Memᴰ.head e) h =
    subst (λ (y : Transaction). is_flagged_in y.id u ≡ true) (sym e) h.0
AllFlagged-mem t (x ∷ rows) u (Memᴰ.tail m) h = AllFlagged-mem t rows u m h.1

-- A payout in PROCESSING that is among the stuck ones of a detection run cannot be settled in the
-- store that the run leaves, with any receipt: the settlement creates a second reconciliation
-- record for the transaction, which the unique column refuses, so it throws and is rolled back.
pub escalated_payout_cannot_settle :
    (daraja : Daraja) (t : Transaction) (r : Option String) (s : Store)
    → find_transaction t.id s ≡ some t
    → t.direction ≡ outbound
    → t.status ≡ processing
    → Memᴰ t (stuck_payouts daraja s)
    → transition_payout_to_settled t.id r (detect_stuck_payouts daraja s).1 ≡ err unique_violation
escalated_payout_cannot_settle daraja t r s found out p stuck =
    refused (detect_stuck_payouts daraja s).1 (detect_stuck_payouts-AreEscalated daraja s).1
  where
    refused :
        (u : Store)
        → AreEscalated (stuck_payouts daraja s) s u
        → transition_payout_to_settled t.id r u ≡ err unique_violation
    refused u k =
        let there : find_transaction t.id u ≡ some t =
          subst (λ rows. find (has_id t.id) rows ≡ some t) (sym k.transactions) found in
        let recorded =
          any_of_flag t.id u.reconciliation_records
            (AllFlagged-mem t (stuck_payouts daraja s) u stuck k.flagged) in
        ground (
          arith,
          transition_payout_to_settled_at t.id r t u there,
          settle_payout_recorded (tenant_webhook_url t.tenant_id u) t r u there p recorded,
        )
