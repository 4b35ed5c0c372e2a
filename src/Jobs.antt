-- ===== src/Jobs.antt =====
-- src/modules/jobs: the background jobs, set off by a timer of the process or by requests of an
-- outside scheduler (internal-jobs.controller.ts, job-scheduling.ts). `isPolling` makes a job that
-- is running already do nothing; the jobs of one process are steps one after another here.
use script_pay_backend.Shared.{String, Bool, true, false, Option, none, some, str_eq, if◌then◌else◌}
use script_pay_backend.Shared.Int.{ℤ}
use script_pay_backend.Store.Rows.{Store, DeliveryPayload}
use script_pay_backend.Store.Tx.{Result, ok, err}
use script_pay_backend.Guards.{Request, check_jobs_secret}
use script_pay_backend.Payments.Safaricom.{Daraja}
use script_pay_backend.Callbacks.Payload.{Value}
use script_pay_backend.Callbacks.Ingest.{Inbox}
use script_pay_backend.Callbacks.Poller.{poll_unprocessed_events}
use script_pay_backend.Callbacks.Deliveries.{Response, poll_pending_deliveries}
use script_pay_backend.Reconciliation.Drift.{run_detection}

pub data JobScheduler : Type 0 where
  in_process external : JobScheduler

-- The argument is JOB_SCHEDULER.
unfoldable pub job_scheduler : Option String → JobScheduler
job_scheduler none = in_process
job_scheduler (some name) = if str_eq name "external" then external else in_process

abbrev pub is_in_process : JobScheduler → Bool
is_in_process in_process = true
is_in_process external = false

unfoldable pub in_process_cron_enabled : Option String → Bool
unfolding job_scheduler
in_process_cron_enabled name = is_in_process (job_scheduler name)

pub data Job : Type 0 where
  process_webhooks deliver_tenant_webhooks detect_drift : Job

-- What a route answers; a job that throws is answered by its error.
abbrev pub replied : {A : Type 0} → Job → Result A → Result Job
replied job (ok done) = ok job
replied job (err e) = err e

abbrev pub beside : Job → Inbox → Result (Unit {0}) × Store → Result Job × (Store × Inbox)
beside job b (r, s) = (replied job r, (s, b))

-- What the jobs are given: how JavaScript reads numbers, Safaricom, and the tenants' endpoints.
pub record Surroundings : Type 1 where
  pub minor_units : Option Value → Option ℤ
  pub reads_as_zero : String → Bool
  pub daraja : Daraja
  pub sign : String → DeliveryPayload → Result String
  pub post : String → String → DeliveryPayload → Response

module _ (around : Surroundings) where
  open around use {minor_units, reads_as_zero, daraja, sign, post}

  -- The method that the timer and the route of a job both call.
  unfoldable pub run_job : Job → Store × Inbox → Result Job × (Store × Inbox)
  run_job process_webhooks state =
      (ok process_webhooks, poll_unprocessed_events minor_units reads_as_zero state)
  run_job deliver_tenant_webhooks (s, b) =
      beside deliver_tenant_webhooks b (poll_pending_deliveries sign post s)
  run_job detect_drift (s, b) = beside detect_drift b (run_detection daraja s)

  -- `scheduledPoll` of both pollers and `scheduledDetection`.
  unfoldable pub scheduled : Option String → Job → Store × Inbox → Store × Inbox
  unfolding in_process_cron_enabled run_job
  scheduled scheduler job state =
      let done = run_job job state in if in_process_cron_enabled scheduler then done.1 else state

  abbrev pub triggered : Job → Result Request → Store × Inbox → Result Job × (Store × Inbox)
  triggered job (ok r) state = run_job job state
  triggered job (err e) state = (err e, state)

  -- A POST to `internal/jobs`; the first argument is INTERNAL_JOBS_SECRET.
  unfoldable pub trigger :
      Option String → Job → Request → Store × Inbox → Result Job × (Store × Inbox)
  unfolding check_jobs_secret run_job
  trigger secret job r state = triggered job (check_jobs_secret secret r) state
