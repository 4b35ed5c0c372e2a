-- ===== src/Callbacks/Poller/Retries.antt =====
-- A poll keeps the payment tables sound, and no callback is tried more than five times.
use script_pay_backend.Shared.{
  ℕ, String, Bool, true, Option, List, [], ◌∷◌, ◌≡◌, ◌≤◌, ◌+◌, arith, filter, take, update,
  Bool-cases, inl, inr, zero, suc, leb,
}
use script_pay_backend.Shared.Int.{ℤ}
use script_pay_backend.Store.Rows.{Store}
use script_pay_backend.Store.Tx.{Result, ok, err}
use script_pay_backend.StateMachine.Soundness.{IsSound}
use script_pay_backend.Callbacks.Payload.{Value, WebhookEvent}
use script_pay_backend.Callbacks.Ingest.{Inbox}
use script_pay_backend.Callbacks.Dispatch.{dispatch}
use script_pay_backend.Callbacks.Dispatch.Soundness.{dispatch-Preserves}
use script_pay_backend.Callbacks.Poller.{
  max_attempts, poll_batch, is_due, has_event_id, alert_if_spent, settle_event, process_event,
  process_events, poll_unprocessed_events,
}

-- No event of the list was tried more often than allowed.
abbrev pub AllBounded : List WebhookEvent → Type 0
AllBounded [] = Unit
AllBounded (e ∷ es) = (e.attempts ≤ max_attempts) × AllBounded es

-- Sound payment tables, and an inbox whose events were tried at most five times.
abbrev pub IsHealthy : Store × Inbox → Type 0
IsHealthy (s, b) = IsSound s × AllBounded b.events

abbrev AllDue : List WebhookEvent → Type 0
AllDue [] = Unit
AllDue (e ∷ es) = (is_due e ≡ true) × AllDue es

filter-AllDue : (es : List WebhookEvent) → AllDue (filter is_due es)
filter-AllDue [] = tt
filter-AllDue (e ∷ es) = elim (Bool-cases (is_due e)) [
  | inl due ↦ rw due (due, filter-AllDue es)
  | inr other ↦ rw other (filter-AllDue es)
]

take-AllDue : (n : ℕ) (es : List WebhookEvent) → AllDue es → AllDue (take n es)
take-AllDue zero es h = tt
take-AllDue (suc n) [] h = tt
take-AllDue (suc n) (e ∷ es) h = (h.0, take-AllDue n es h.1)

update-AllBounded :
    (id : ℕ) (f : WebhookEvent → WebhookEvent) (es : List WebhookEvent)
    → ((e : WebhookEvent) → e.attempts ≤ max_attempts → (f e).attempts ≤ max_attempts)
    → AllBounded es
    → AllBounded (update (has_event_id id) f es)
update-AllBounded id f [] k h = tt
update-AllBounded id f (e ∷ es) k h = ground (arith, k e, update-AllBounded id f es k)

alert_if_spent-IsSound : (n : ℕ) (s : Store) → IsSound s → IsSound (alert_if_spent n s)
alert_if_spent-IsSound n s h = elim (Bool-cases (leb max_attempts n)) [
  | inl spent ↦ rw spent (record { consistent = h.consistent; fresh = h.fresh })
  | inr fresh ↦ rw fresh h
]

settle_event-IsHealthy :
    (e : WebhookEvent) (b : Inbox) (r : Result (Unit {0})) (s : Store)
    → is_due e ≡ true
    → AllBounded b.events
    → IsSound s
    → IsHealthy (settle_event e b (r, s))
settle_event-IsHealthy e b (ok done) s due h sound =
    (sound, update-AllBounded e.id _ b.events (λ x k. k) h)
settle_event-IsHealthy e b (err error) s due h sound =
    let room : e.attempts + 1 ≤ max_attempts = ground arith in
    (
      alert_if_spent-IsSound (e.attempts + 1) s sound,
      update-AllBounded e.id _ b.events (λ x k. room) h,
    )

module _ (minor_units : Option Value → Option ℤ) (reads_as_zero : String → Bool) where
  process_event-IsHealthy :
      (e : WebhookEvent) (state : Store × Inbox)
      → is_due e ≡ true
      → IsHealthy state
      → IsHealthy (process_event minor_units reads_as_zero e state)
  unfolding process_event
  process_event-IsHealthy e (s, b) due (sound, h) =
      let o = dispatch minor_units reads_as_zero e.source e.payload s in
      settle_event-IsHealthy e b o.0 o.1 due h
        (dispatch-Preserves minor_units reads_as_zero e.source e.payload s sound)

  process_events-IsHealthy :
      (es : List WebhookEvent) (state : Store × Inbox)
      → AllDue es
      → IsHealthy state
      → IsHealthy (process_events minor_units reads_as_zero es state)
  process_events-IsHealthy [] state due h = h
  process_events-IsHealthy (e ∷ es) state (d, due) h =
      process_events-IsHealthy es (process_event minor_units reads_as_zero e state) due
        (process_event-IsHealthy e state d h)

  -- A poll of the stored callbacks, whatever they are and whichever handlers throw, keeps the
  -- payment tables sound and leaves no callback tried more than five times.
  pub poll_unprocessed_events-IsHealthy :
      (s : Store) (b : Inbox)
      → IsHealthy (s, b)
      → IsHealthy (poll_unprocessed_events minor_units reads_as_zero (s, b))
  unfolding poll_unprocessed_events
  poll_unprocessed_events-IsHealthy s b h =
      process_events-IsHealthy (take poll_batch (filter is_due b.events)) (s, b)
        (take-AllDue poll_batch (filter is_due b.events) (filter-AllDue b.events)) h
