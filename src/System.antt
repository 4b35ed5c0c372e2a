-- ===== src/System.antt =====
-- The program as a whole, as far as it moves money: callbacks, jobs, operators and the requests of
-- tenants act on the same tables, one after another.
pub mod Reachable
use script_pay_backend.Shared.{ℕ, String, Option, List, [], ◌∷◌, ◌+◌}
use script_pay_backend.Store.Rows.{Store}
use script_pay_backend.Store.Invariants.{Maintains}
use script_pay_backend.Store.Tx.{Result}
use script_pay_backend.StateMachine.Soundness.{IsSound}
use script_pay_backend.Guards.{Request, check_jobs_secret}
use script_pay_backend.Payments.Safaricom.{Elsewhere}
use script_pay_backend.Payments.B2c
use script_pay_backend.Payments.B2c.Requests
use script_pay_backend.Payments.StkPush
use script_pay_backend.Payments.StkPush.Consistency
use script_pay_backend.Reconciliation.Resolution.{ResolvePayoutDto, Caller, resolve}
use script_pay_backend.Reconciliation.Resolution.Books.{resolve-Maintains}
use script_pay_backend.Reconciliation.Drift.{run_detection}
use script_pay_backend.Reconciliation.Drift.Books.{run_detection-IsSound}
use script_pay_backend.Callbacks.Ingest.{Inbox}
use script_pay_backend.Callbacks.Deliveries.{poll_pending_deliveries}
use script_pay_backend.Callbacks.Deliveries.Books.{poll_pending_deliveries-Maintains}
use script_pay_backend.Callbacks.Webhook.{Post, serve}
use script_pay_backend.Callbacks.Webhook.Requests.{IsWell, serve-IsWell, poll-IsWell}
use script_pay_backend.Jobs.{
  Surroundings, Job, run_job, scheduled, triggered, trigger, in_process_cron_enabled,
}

-- A step of the program, or the passing of time.
pub data Step : Type 0 where
  callback : Post → Step
  timer : Job → Step
  job_request : Job → Request → Step
  resolution : ℕ → ResolvePayoutDto → Caller → Step
  payout : ℕ → B2c.InitiateB2cDto → Option ℕ → String → Step
  collection : ℕ → StkPush.InitiateStkPushDto → Step
  wait : ℕ → Step

-- The configured secrets, and which scheduler is in charge.
pub record Settings : Type 0 where
  pub daraja_webhook_secret : Option String
  pub internal_jobs_secret : Option String
  pub job_scheduler : Option String

-- Nothing else happens while a request waits: here the steps follow each other.
abbrev pub alone : Elsewhere
alone = record { before_write = λ s. s; during_call = λ s. s }

abbrev beside : {A : Type 0} → Inbox → Result A × Store → Store × Inbox
beside b (r, s) = (s, b)

module _ (around : Surroundings) (settings : Settings) where
  open around use {minor_units, reads_as_zero, daraja}

  unfoldable pub step : Step → Store × Inbox → Store × Inbox
  step (callback p) state =
      (serve minor_units reads_as_zero settings.daraja_webhook_secret p state).1
  step (timer job) state = scheduled around settings.job_scheduler job state
  step (job_request job r) state = (trigger around settings.internal_jobs_secret job r state).1
  step (resolution id dto caller) (s, b) = beside b (resolve id dto caller s)
  step (payout tenant dto actor conversation) (s, b) =
      beside b (B2c.initiate daraja alone tenant dto actor conversation s)
  step (collection tenant dto) (s, b) = beside b (StkPush.initiate daraja alone tenant dto s)
  step (wait n) (s, b) = (record s { now = s.now + n }, b)

  abbrev pub run : List Step → Store × Inbox → Store × Inbox
  run [] state = state
  run (x ∷ xs) state = run xs (step x state)
