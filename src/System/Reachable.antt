-- ===== src/System/Reachable.antt =====
-- Every state that the program reaches from empty tables is sound.
use script_pay_backend.Shared.{
  ap, sym, ◌∙◌, subst, find, ℕ, Bool, true, false, List, [], ◌∷◌, ◌≡◌, ◌≤◌, arith, if◌then◌else◌,
}
use script_pay_backend.Store.Rows.{Store, has_id}
use script_pay_backend.Store.Tx.{Result, ok, err}
use script_pay_backend.Ledger.{available_balance}
use script_pay_backend.Ledger.Balance.{effect, owed}
use script_pay_backend.StateMachine.Soundness.{IsSound, spendable, available_balance-eq-spendable}
use script_pay_backend.Guards.{Request}
use script_pay_backend.Payments.B2c.Requests
use script_pay_backend.Payments.StkPush.Consistency
use script_pay_backend.Reconciliation.Resolution.Books.{resolve-Maintains}
use script_pay_backend.Reconciliation.Drift.Books.{run_detection-IsSound}
use script_pay_backend.Shared.Int.{sum_of}
use script_pay_backend.Callbacks.Ingest.{Inbox}
use script_pay_backend.Callbacks.Ingest.Once.{stored}
use script_pay_backend.Callbacks.Poller.Retries.{AllBounded}
use script_pay_backend.Callbacks.Deliveries.Books.{poll_pending_deliveries-Maintains}
use script_pay_backend.Callbacks.Webhook.Requests.{IsWell, serve-IsWell, poll-IsWell}
use script_pay_backend.Jobs.{
  Surroundings, Job, run_job, scheduled, triggered, trigger, process_webhooks,
  deliver_tenant_webhooks, detect_drift,
}
use script_pay_backend.System.{
  Step, callback, timer, job_request, resolution, payout, collection, wait, Settings, alone, step,
  run,
}

alone-IsOrderly_payouts : (tenant : ℕ) → Requests.IsOrderly alone tenant
alone-IsOrderly_payouts tenant = record {
  keeps_before = λ s h. h;
  keeps_during = λ s h. h;
  leaves_alone = λ t s h. h;
}

alone-IsOrderly_collections : Consistency.IsOrderly alone
alone-IsOrderly_collections = record { keeps_during = λ s h. h; leaves_alone = λ t s h. h }

module _ (around : Surroundings) (settings : Settings) where
  open around use {minor_units, reads_as_zero, daraja, sign, post}

  run_job-IsWell :
      (job : Job) (state : Store × Inbox) → IsWell state → IsWell (run_job around job state).1
  unfolding run_job
  run_job-IsWell process_webhooks state h = poll-IsWell minor_units reads_as_zero state h
  run_job-IsWell deliver_tenant_webhooks (s, b) ((sound, bounded), unique) =
      (((poll_pending_deliveries-Maintains sign post).at s sound, bounded), unique)
  run_job-IsWell detect_drift (s, b) ((sound, bounded), unique) =
      ((run_detection-IsSound daraja s sound, bounded), unique)

  timer-IsWell :
      (enabled : Bool) (job : Job) (state : Store × Inbox)
      → IsWell state
      → IsWell (if enabled then (run_job around job state).1 else state)
  timer-IsWell true job state h = run_job-IsWell job state h
  timer-IsWell false job state h = h

  triggered-IsWell :
      (job : Job) (r : Result Request) (state : Store × Inbox)
      → IsWell state
      → IsWell (triggered around job r state).1
  triggered-IsWell job (ok r) state h = run_job-IsWell job state h
  triggered-IsWell job (err e) state h = h

  step-IsWell :
      (x : Step) (state : Store × Inbox) → IsWell state → IsWell (step around settings x state)
  unfolding step scheduled trigger
  step-IsWell (callback p) state h = serve-IsWell minor_units reads_as_zero _ p state h
  step-IsWell (timer job) state h = timer-IsWell _ job state h
  step-IsWell (job_request job r) state h = triggered-IsWell job _ state h
  step-IsWell (resolution id dto caller) (s, b) ((sound, bounded), unique) =
      (((resolve-Maintains id dto caller).at s sound, bounded), unique)
  step-IsWell (payout tenant dto actor conversation) (s, b) ((sound, bounded), unique) = (
    (
      Requests.initiate-IsSound daraja alone tenant dto actor conversation s
          (alone-IsOrderly_payouts tenant) sound,
      bounded,
    ),
    unique,
  )
  step-IsWell (collection tenant dto) (s, b) ((sound, bounded), unique) = (
    (
      Consistency.initiate_collection-IsSound daraja alone tenant dto s alone-IsOrderly_collections
          sound,
      bounded,
    ),
    unique,
  )
  step-IsWell (wait n) (s, b) ((sound, bounded), unique) =
      ((record { consistent = sound.consistent; fresh = sound.fresh }, bounded), unique)

  run-IsWell :
      (xs : List Step) (state : Store × Inbox)
      → IsWell state
      → IsWell (run around settings xs state)
  run-IsWell [] state h = h
  run-IsWell (x ∷ xs) state h = run-IsWell xs (step around settings x state) (step-IsWell x state h)

-- Tables without a transaction, and no stored callback.
abbrev pub IsEmpty : Store × Inbox → Type 0
IsEmpty (s, b) = (s.transactions ≡ []) × (s.ledger_entries ≡ []) × (b.events ≡ [])

empty-IsSound : (s : Store) → s.transactions ≡ [] → s.ledger_entries ≡ [] → IsSound s
empty-IsSound s none none_posted = record {
  consistent =
      λ sel a. ap (sum_of (effect sel a)) none_posted ∙ sym (ap (sum_of (owed sel a)) none);
  fresh = λ n le. ap (find (has_id n)) none;
}

empty-IsWell : (state : Store × Inbox) → IsEmpty state → IsWell state
empty-IsWell (s, b) (none, none_posted, none_stored) = (
  (empty-IsSound s none none_posted, subst AllBounded (sym none_stored) tt),
  λ source key. subst (λ es. stored source key es ≤ 1) (sym none_stored) (omega arith),
)

-- From tables without transactions, whatever callbacks (forged ones too), jobs by timer or by
-- request, decisions of operators, payouts and collections follow each other, with whatever answers
-- of Safaricom and of the tenants' endpoints, and with any settings: each tenant's balance in the
-- ledger is what the statuses of its transactions make it, the ledger agrees with the statuses in
-- every account, no callback is tried more than five times, and none is stored twice.
pub run_books_agree :
    (around : Surroundings) (settings : Settings) (xs : List Step) (state : Store × Inbox)
    → IsEmpty state
    → ((tenant : ℕ)
        → available_balance tenant (run around settings xs state).0
          ≡ spendable tenant (run around settings xs state).0.transactions)
      × IsWell (run around settings xs state)
run_books_agree around settings xs state h =
    let well = run-IsWell around settings xs state (empty-IsWell state h) in
    (λ tenant. available_balance-eq-spendable tenant _ well.0.0, well)
