-- ===== src/Callbacks/Poller.antt =====
-- src/modules/callbacks/webhook-poller.service.ts: the poll of stored callbacks, with its retries.
-- `isPolling` keeps polls of one process from overlapping, so a poll is one step.
pub mod Retries
use script_pay_backend.Shared.{
  ℕ, String, Bool, true, false, not, ◌&&◌, Option, none, some, List, [], ◌∷◌, ◌+◌, ◌==◌, ltb, leb,
  filter, take, update, is_some, if◌then◌else◌,
}
use script_pay_backend.Shared.Int.{ℤ}
use script_pay_backend.Store.Rows.{Store, Error, critical}
use script_pay_backend.Store.Tx.{Result, ok, err}
use script_pay_backend.Callbacks.Payload.{Value, WebhookEvent}
use script_pay_backend.Callbacks.Ingest.{Inbox}
use script_pay_backend.Callbacks.Handlers.{alert}
use script_pay_backend.Callbacks.Dispatch.{dispatch}

abbrev pub max_attempts : ℕ
max_attempts = 5

abbrev pub poll_batch : ℕ
poll_batch = 20

abbrev pub is_due : WebhookEvent → Bool
is_due e = not (is_some e.processed_at) && ltb e.attempts max_attempts

abbrev pub has_event_id : ℕ → WebhookEvent → Bool
has_event_id id e = e.id == id

abbrev pub mark_processed : ℕ → WebhookEvent → WebhookEvent
mark_processed now e = record e { processed_at = some now }

abbrev pub mark_failed : ℕ → Error → WebhookEvent → WebhookEvent
mark_failed attempts error e = record e { attempts = attempts; processing_error = some error }

abbrev pub update_event : ℕ → (WebhookEvent → WebhookEvent) → Inbox → Inbox
update_event id f b = record b { events = update (has_event_id id) f b.events }

-- The alert after the last attempt.
abbrev pub alert_if_spent : ℕ → Store → Store
alert_if_spent attempts s =
    if leb max_attempts attempts
    then (alert "Webhook processing failed after all retries" critical none s).1
    else s

-- What `processEvent` does once the handler has returned or thrown.
abbrev pub settle_event : WebhookEvent → Inbox → Result (Unit {0}) × Store → Store × Inbox
settle_event e b (ok done, s) = (s, update_event e.id (mark_processed s.now) b)
settle_event e b (err error, s) =
    (alert_if_spent (e.attempts + 1) s, update_event e.id (mark_failed (e.attempts + 1) error) b)

module _ (minor_units : Option Value → Option ℤ) (reads_as_zero : String → Bool) where
  -- `processEvent`.
  unfoldable pub process_event : WebhookEvent → Store × Inbox → Store × Inbox
  process_event e (s, b) =
      settle_event e b (dispatch minor_units reads_as_zero e.source e.payload s)

  abbrev pub process_events : List WebhookEvent → Store × Inbox → Store × Inbox
  process_events [] state = state
  process_events (e ∷ es) state = process_events es (process_event e state)

  -- `pollUnprocessedEvents`; the inbox holds the events by the time they were received.
  unfoldable pub poll_unprocessed_events : Store × Inbox → Store × Inbox
  poll_unprocessed_events (s, b) = process_events (take poll_batch (filter is_due b.events)) (s, b)
