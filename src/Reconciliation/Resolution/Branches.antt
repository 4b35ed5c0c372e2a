-- ===== src/Reconciliation/Resolution/Branches.antt =====
-- A manual resolution applies one transition and closes the record, or changes no book at all.
use script_pay_backend.Shared.{
  find-update_self, String, ℕ, false, Option, none, some, ◌≡◌, refl, arith, sym, subst, Bool-cases,
  inl, inr, not,
}
use script_pay_backend.Store.Rows.{
  Store, Transaction, Error, is_outbound, outbound, processing, status_eq, manually_resolved,
  settled, failed, Reason, TransactionStatus, has_id,
}
use script_pay_backend.Store.Action.{transaction, ◌>>=◌}
use script_pay_backend.Store.Outcomes.{
  Leaves, Ends, Leaves-weaken, Ends-weaken, >>=-Ends, transaction-Ends,
}
use script_pay_backend.Store.Tx.{Result, ok, err}
use script_pay_backend.Store.Tables.{find_transaction, stamped}
use script_pay_backend.Store.Updates.{found_at_own_id}
use script_pay_backend.StateMachine.{
  fail_with, transition_payout_to_settled, transition_payout_to_failed,
}
use script_pay_backend.StateMachine.Redelivery.{IsDone, transition_payout_to_settled-IsDone}
use script_pay_backend.StateMachine.Soundness.{IsSound, Call, run_call-IsSound}
use script_pay_backend.StateMachine.Progress.{Follows, Shows, run_call-Follows}
use script_pay_backend.Reconciliation.Resolution.{
  ResolvePayoutDto, Caller, Verdict, apply, finish, or_gone, or_not_found, resolve_found,
  resolve_in_flight, resolve,
}

-- The status that a verdict stands for.
abbrev pub status_for : Verdict → TransactionStatus
status_for Verdict.settled = settled
status_for Verdict.failed = failed

-- The payment as it was, with the status that the verdict stands for.
abbrev pub IsDecided : Verdict → Transaction → Transaction → Type 0
IsDecided verdict t v = Follows t v × (v.status ≡ status_for verdict)

-- The transition was applied: the books are sound, and the row is there and decided.
abbrev Applied : {A : Type 0} → Verdict → Transaction → A → Store → Type 0
Applied verdict t x u = IsSound u × Shows (IsDecided verdict t) (find_transaction t.id u)

-- The answer is the row as it now stands, in sound books.
abbrev pub Resolved : Verdict → Transaction → Transaction → Store → Type 0
Resolved verdict t v u = IsSound u × IsDecided verdict t v × (find_transaction t.id u ≡ some v)

-- The books are those of `s`.
abbrev pub NothingDone : Store → Error → Store → Type 0
NothingDone s e u = u ≡ s

Shows-both :
    (P Q : Transaction → Type 0) (o : Option Transaction)
    → Shows P o
    → Shows Q o
    → Shows (λ v. P v × Q v) o
Shows-both P Q none h k = h
Shows-both P Q (some v) h k = (h, k)

done_settled :
    (r : Option String) (t : Transaction) (u : Store)
    → IsDone r t u
    → Shows (λ v. v.status ≡ settled) (find_transaction t.id u)
done_settled r t u (v, shown, same, way, done, known) = rw shown done

payout_failed :
    (t : Transaction) (reason : Reason) (s : Store)
    → find_transaction t.id s ≡ some t
    → Leaves
        (λ x u. Shows (λ v. v.status ≡ failed) (find_transaction t.id u))
        (transition_payout_to_failed t.id reason s)
unfolding transition_payout_to_failed
payout_failed t reason s found = ground (
  arith,
  found,
  find-update_self (has_id t.id) (stamped s.now (fail_with reason)) t s.transactions found,
)

module _ (t : Transaction) (dto : ResolvePayoutDto) (caller : Caller) (s : Store)
    (found : find_transaction t.id s ≡ some t) (sound : IsSound s) where
  -- What a call of the state machine that decides the row leaves.
  decided :
      (verdict : Verdict) (m : Result (Unit {0} × Store))
      → Leaves (λ x. IsSound) m
      → Leaves (λ x u. Shows (Follows t) (find_transaction t.id u)) m
      → Leaves (λ x u. Shows (λ v. v.status ≡ status_for verdict) (find_transaction t.id u)) m
      → Leaves (Applied verdict t) m
  decided verdict (ok (x, u)) h k l = (h, Shows-both _ _ (find_transaction t.id u) k l)
  decided verdict (err e) h k l = tt

  apply-Applied : (v : Verdict) → Leaves (Applied v t) (apply t.id dto caller v s)
  apply-Applied Verdict.settled =
      let r = dto.mpesa_receipt_number in
      let c = Call.settle_payout t.id r in
      decided Verdict.settled (transition_payout_to_settled t.id r s) (run_call-IsSound c s sound)
        (run_call-Follows t.id t s found c)
        (Leaves-weaken _ _ (transition_payout_to_settled t.id r s) (λ x u k. done_settled r t u k.0)
          (transition_payout_to_settled-IsDone t.id t r s found))
  apply-Applied Verdict.failed =
      let reason = manually_resolved caller.name dto.reason in
      let c = Call.fail_payout t.id reason in
      decided Verdict.failed (transition_payout_to_failed t.id reason s)
        (run_call-IsSound c s sound) (run_call-Follows t.id t s found c)
        (payout_failed t reason s found)

  answer :
      (u : Store) (o : Option Transaction)
      → find_transaction t.id u ≡ o
      → IsSound u
      → Shows (IsDecided dto.resolution t) o
      → Ends (Resolved dto.resolution t) (NothingDone s) (or_gone o u)
  answer u none e h k = absurd k
  answer u (some v) e h k = (h, k, e)

  finish-Ends :
      (x : Unit {0}) (u : Store)
      → Applied dto.resolution t x u
      → Ends (Resolved dto.resolution t) (NothingDone s) (finish t dto caller x u)
  finish-Ends x u (h, k) =
      answer _ (find_transaction t.id u) refl
        (record { consistent = h.consistent; fresh = h.fresh }) k

  resolve_in_flight-Ends :
      Ends (Resolved dto.resolution t) (NothingDone s) (resolve_in_flight t dto caller s)
  unfolding resolve_in_flight
  resolve_in_flight-Ends =
      let m = apply t.id dto caller dto.resolution in
      >>=-Ends (Applied dto.resolution t) (Resolved dto.resolution t) (NothingDone s)
        (transaction m) (finish t dto caller) s
        (transaction-Ends (Applied dto.resolution t) (NothingDone s) m s
          (apply-Applied dto.resolution) (λ e. refl))
        finish-Ends

-- The payout that was in flight, and the row that answers the operator.
abbrev pub ResolvedAt : Verdict → ℕ → Store → Transaction → Store → Type 0
ResolvedAt verdict id s v u =
    (t : Transaction) × (find_transaction id s ≡ some t)
    × (t.direction ≡ outbound)
    × (t.status ≡ processing)
    × IsDecided verdict t v
    × (find_transaction id u ≡ some v)
    × IsSound u

was_in_flight :
    (t : Transaction)
    → not (is_outbound t.direction) ≡ false
    → not (status_eq t.status processing) ≡ false
    → (t.direction ≡ outbound) × (t.status ≡ processing)
was_in_flight t out p = ground arith

-- From sound tables, a manual resolution either throws and leaves the store exactly as it was (no
-- such row, a collection, a payout that is not PROCESSING, or a refused transition), or the row was
-- a payout in PROCESSING and the answer is that payout as it now stands: SETTLED if the operator
-- decided so and FAILED if the operator decided that, with its tenant, direction and amount
-- unchanged, in sound tables.
pub resolve_all_or_nothing :
    (id : ℕ) (dto : ResolvePayoutDto) (caller : Caller) (s : Store)
    → IsSound s
    → Ends (ResolvedAt dto.resolution id s) (NothingDone s) (resolve id dto caller s)
unfolding resolve
resolve_all_or_nothing id dto caller s sound = look (find_transaction id s) refl
  where
    checked :
        (t : Transaction)
        → find_transaction id s ≡ some t
        → find_transaction t.id s ≡ some t
        → id ≡ t.id
        → Ends (ResolvedAt dto.resolution id s) (NothingDone s) (resolve_found dto caller t s)
    checked t found here same = elim (Bool-cases (not (is_outbound t.direction))) [
      | inl inn ↦ rw inn refl
      | inr out ↦ rw out (elim (Bool-cases (not (status_eq t.status processing))) [
        | inl over ↦ rw over refl
        | inr running ↦ rw running (
            Ends-weaken (Resolved dto.resolution t) (ResolvedAt dto.resolution id s) (NothingDone s)
              _
              (λ v u k.
                let (d, p) = was_in_flight t out running in
                (
                  t,
                  found,
                  d,
                  p,
                  k.1,
                  subst (λ n. find_transaction n u ≡ some v) (sym same) k.2,
                  k.0,
                ))
              (resolve_in_flight-Ends t dto caller s here sound))
      ])
    ]

    look :
        (o : Option Transaction)
        → find_transaction id s ≡ o
        → Ends
            (ResolvedAt dto.resolution id s)
            (NothingDone s)
            ((or_not_found o >>= resolve_found dto caller) s)
    look none e = refl
    look (some t) found =
        let (same, here) = found_at_own_id id t s found in checked t found here same
