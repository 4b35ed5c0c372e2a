-- ===== src/Reconciliation/Drift/Escalation.antt =====
-- The escalation of stuck payouts: what a run changes, and what a second run does.
use script_pay_backend.Shared.{
  String, true, false, Option, none, some, List, [], ◌∷◌, ◌≡◌, refl, arith, Bool-cases, inl, inr,
  any, find, filter, take, str_eq, ◌∙◌, sym, subst, ap₂, ℕ,
}
use script_pay_backend.Store.Rows.{Store, Transaction, TenantShortcode, Error}
use script_pay_backend.Store.Tx.{Result, ok, err}
use script_pay_backend.Store.Action.{await, transaction, swallow, for_each, ◌>>=◌, ◌>>◌}
use script_pay_backend.Store.Outcomes.{Leaves, Ends, >>=-Ends, transaction-Ends, try_catch-Ends}
use script_pay_backend.Payments.Safaricom.{PayoutQueryResponse, Daraja}
use script_pay_backend.Reconciliation.Drift.{
  is_stuck_payout, batch, is_flagged_in, create_status_query, query_with, ask_payout, ask_if_known,
  attempt_status_query, escalate, detect_stuck_payouts, flag_payout, is_in_flight, is_default_b2c,
  announce, escalate_unflagged,
}
use script_pay_backend.Reconciliation.Drift.Flags.{
  shows_flag, flagged_rows_self, flagged_rows_keeps,
}

-- Nothing that the books, the flags, the clock or the alerts show has changed.
pub record Undisturbed (s u : Store) : Type 0 where
  pub transactions : u.transactions ≡ s.transactions
  pub ledger : u.ledger_entries ≡ s.ledger_entries
  pub records : u.reconciliation_records ≡ s.reconciliation_records
  pub alerts : u.alerts ≡ s.alerts
  pub clock : u.now ≡ s.now

undisturbed : (s : Store) → Undisturbed s s
undisturbed s = record {
  transactions = refl;
  ledger = refl;
  records = refl;
  alerts = refl;
  clock = refl;
}

create_status_query-Leaves :
    (t : Transaction) (q : PayoutQueryResponse) (s : Store)
    → Leaves (λ x. Undisturbed s) (create_status_query t q s)
unfolding create_status_query
create_status_query-Leaves t q s = ground arith

abbrev Never : Error → Store → Type 0
Never e s = ⊥

module _ (daraja : Daraja) (t : Transaction) (s : Store) where
  open daraja use {payout_credentials, query_payout_status}

  abbrev Asked : {A : Type 0} → A → Store → Type 0
  Asked x = Undisturbed s

  query_with-Ends :
      (conversation : String) (code : Option TenantShortcode)
      → Ends Asked Asked (query_with daraja t conversation code s)
  query_with-Ends conversation none = undisturbed s
  query_with-Ends conversation (some code) = asked (payout_credentials t.tenant_id code.id s)
    where
      answered :
          (r : Result PayoutQueryResponse)
          → Ends Asked Asked ((await r >>= λ answer. transaction (create_status_query t answer)) s)
      answered (ok q) =
          transaction-Ends Asked Asked (create_status_query t q) s
            (create_status_query-Leaves t q s) (λ e. undisturbed s)
      answered (err e) = undisturbed s

      asked :
          (r : Result daraja.Credentials)
          → Ends Asked Asked (
              (await r >>= λ c. await (query_payout_status c conversation) >>= λ answer.
              transaction (create_status_query t answer))
                s)
      asked (ok c) = answered (query_payout_status c conversation)
      asked (err e) = undisturbed s

  ask_payout-Ends : (conversation : String) → Ends Asked Asked (ask_payout daraja t conversation s)
  ask_payout-Ends conversation =
      elim (Bool-cases (any (is_in_flight t.id) s.payout_status_queries)) [
        | inl asked ↦ rw asked (undisturbed s)
        | inr unasked ↦
            rw unasked
              (query_with-Ends conversation (find (is_default_b2c t.tenant_id) s.shortcodes))
      ]

  ask_if_known-Ends : (o : Option String) → Ends Asked Never (ask_if_known daraja t o s)
  ask_if_known-Ends none = undisturbed s
  ask_if_known-Ends (some conversation) = elim (Bool-cases (str_eq conversation "")) [
    | inl empty ↦ rw empty (undisturbed s)
    | inr known ↦ rw known (
        try_catch-Ends Asked Never Asked (ask_payout daraja t conversation) swallow s
          (ask_payout-Ends conversation) (λ e u k. k))
  ]

  attempt_status_query-Ends : Ends Asked Never (attempt_status_query daraja t s)
  unfolding attempt_status_query
  attempt_status_query-Ends = ask_if_known-Ends t.originator_conversation_id

  -- What escalating one payout leaves.
  record IsEscalated (u : Store) : Type 0 where
    transactions : u.transactions ≡ s.transactions
    ledger : u.ledger_entries ≡ s.ledger_entries
    clock : u.now ≡ s.now
    flagged : is_flagged_in t.id u ≡ true
    kept : (id : ℕ) → is_flagged_in id s ≡ true → is_flagged_in id u ≡ true

  after_query :
      (u : Store)
      → Undisturbed s u
      → Ends (λ x. IsEscalated) Never (((flag_payout t) >> announce t) u)
  after_query u a = record {
    transactions = a.transactions;
    ledger = a.ledger;
    clock = a.clock;
    flagged = flagged_rows_self t u.reconciliation_records;
    kept = λ id h.
        flagged_rows_keeps id t u.reconciliation_records
          (subst (λ rows. shows_flag id rows ≡ true) (sym a.records) h);
  }

  escalate-Ends : Ends (λ x. IsEscalated) Never (escalate daraja t s)
  unfolding escalate
  escalate-Ends = elim (Bool-cases (is_flagged_in t.id s)) [
    | inl known ↦ rw known (record {
      transactions = refl;
      ledger = refl;
      clock = refl;
      flagged = known;
      kept = λ id h. h;
    })
    | inr fresh ↦ rw fresh (
        try_catch-Ends (λ x. IsEscalated) Never Never (escalate_unflagged daraja t false) swallow s
          (>>=-Ends Asked (λ x. IsEscalated) Never (attempt_status_query daraja t)
            (λ x. flag_payout t >> announce t) s attempt_status_query-Ends
            (λ x u a. after_query u a))
          (λ e u impossible. absurd impossible))
  ]

-- Every row of the list is flagged.
abbrev pub AllFlagged : List Transaction → Store → Type 0
AllFlagged [] u = Unit
AllFlagged (t ∷ rows) u = (is_flagged_in t.id u ≡ true) × AllFlagged rows u

AllFlagged-keeps :
    (rows : List Transaction) (s u : Store)
    → ((id : ℕ) → is_flagged_in id s ≡ true → is_flagged_in id u ≡ true)
    → AllFlagged rows s
    → AllFlagged rows u
AllFlagged-keeps [] s u kept h = tt
AllFlagged-keeps (t ∷ rows) s u kept h = (kept t.id h.0, AllFlagged-keeps rows s u kept h.1)

-- What a run over a list of payouts leaves.
pub record AreEscalated (rows : List Transaction) (s u : Store) : Type 0 where
  pub transactions : u.transactions ≡ s.transactions
  pub ledger : u.ledger_entries ≡ s.ledger_entries
  pub clock : u.now ≡ s.now
  pub flagged : AllFlagged rows u
  pub kept : (id : ℕ) → is_flagged_in id s ≡ true → is_flagged_in id u ≡ true

module _ (daraja : Daraja) where
  for_each-escalate-Ends :
      (rows : List Transaction) (s : Store)
      → Ends (λ x. AreEscalated rows s) Never (for_each (escalate daraja) rows s)
  for_each-escalate-Ends [] s = record {
    transactions = refl;
    ledger = refl;
    clock = refl;
    flagged = tt;
    kept = λ id h. h;
  }
  for_each-escalate-Ends (t ∷ rows) s =
      >>=-Ends (λ x. IsEscalated daraja t s) (λ x. AreEscalated (t ∷ rows) s) Never
        (escalate daraja t) (λ x. for_each (escalate daraja) rows) s (escalate-Ends daraja t s)
        (λ x u one. extend u one _ _ (for_each-escalate-Ends rows u))
    where
      extend :
          (u : Store)
          → IsEscalated daraja t s u
          → (r : Result (Unit {0})) (v : Store) → Ends (λ x. AreEscalated rows u) Never (r, v)
          → Ends (λ x. AreEscalated (t ∷ rows) s) Never (r, v)
      extend u one (err e) v k = k
      extend u one (ok x) v k = record {
        transactions = k.transactions ∙ one.transactions;
        ledger = k.ledger ∙ one.ledger;
        clock = k.clock ∙ one.clock;
        flagged = (k.kept t.id one.flagged, k.flagged);
        kept = λ id h. k.kept id (one.kept id h);
      }

  escalate_flagged :
      (t : Transaction) (s : Store) → is_flagged_in t.id s ≡ true → escalate daraja t s ≡ (ok tt, s)
  unfolding escalate
  escalate_flagged t s h = rw h refl

  -- A run over payouts that are flagged already does nothing, and alerts nobody.
  for_each-escalate_flagged :
      (rows : List Transaction) (s : Store)
      → AllFlagged rows s
      → for_each (escalate daraja) rows s ≡ (ok tt, s)
  for_each-escalate_flagged [] s h = refl
  for_each-escalate_flagged (t ∷ rows) s h =
      ground (arith, escalate_flagged t s h.0, for_each-escalate_flagged rows s h.1)

  abbrev pub stuck_payouts : Store → List Transaction
  stuck_payouts s = take batch (filter (is_stuck_payout s.now) s.transactions)

  -- A run never throws, changes no transaction and no ledger entry, and leaves each payout of its
  -- batch flagged.
  pub detect_stuck_payouts-AreEscalated :
      (s : Store)
      → (detect_stuck_payouts daraja s ≡ (ok tt, (detect_stuck_payouts daraja s).1))
        × AreEscalated (stuck_payouts s) s (detect_stuck_payouts daraja s).1
  unfolding detect_stuck_payouts
  detect_stuck_payouts-AreEscalated s =
      split (for_each (escalate daraja) (stuck_payouts s) s)
        (for_each-escalate-Ends (stuck_payouts s) s)
    where
      split :
          (o : Result (Unit {0}) × Store)
          → Ends (λ x. AreEscalated (stuck_payouts s) s) Never o
          → (o ≡ (ok tt, o.1)) × AreEscalated (stuck_payouts s) s o.1
      split (ok x, u) k = (refl, k)
      split (err e, u) k = absurd k

  -- A second run over the store that a run has left, at the same time, answers at once and changes
  -- nothing, so it sends no alert. Stuck payouts past the first hundred rows wait for both.
  pub detect_stuck_payouts_once :
      (s : Store)
      → detect_stuck_payouts daraja (detect_stuck_payouts daraja s).1
        ≡ (ok tt, (detect_stuck_payouts daraja s).1)
  detect_stuck_payouts_once s =
      again (detect_stuck_payouts daraja s).1 (detect_stuck_payouts-AreEscalated s).1
    where
      again :
          (u : Store)
          → AreEscalated (stuck_payouts s) s u
          → detect_stuck_payouts daraja u ≡ (ok tt, u)
      again u k =
          unfold detect_stuck_payouts in
          for_each-escalate_flagged (stuck_payouts u) u (
            subst (λ rows. AllFlagged rows u)
              (ap₂ (λ now rows. take batch (filter (is_stuck_payout now) rows)) (sym k.clock)
                (sym k.transactions))
              k.flagged)
