-- ===== src/Callbacks/Webhook/Requests.antt =====
-- What a request to the routes of callbacks leaves, and what it is answered.
use script_pay_backend.Shared.{
  ℕ, String, Bool, true, false, Option, none, some, List, [], ◌∷◌, ◌++◌, ◌≡◌, ◌≤◌, arith, refl, any,
  filter, take, update, truthy, or_default, Bool-cases, inl, inr, ap, ◌∙◌, ◌⊎◌, eq_iff, eq_refl,
}
use script_pay_backend.Shared.Int.{ℤ}
use script_pay_backend.Store.Rows.{Store, forbidden}
use script_pay_backend.Store.Tx.{Result, ok, err}
use script_pay_backend.Guards.{Request, is_secret, check_webhook_token}
use script_pay_backend.Callbacks.Payload.{Value, DarajaPayload, WebhookSource, WebhookEvent}
use script_pay_backend.Callbacks.Ingest.{
  Inbox, extract_natural_key, is_stored_as, store_event, ingest,
}
use script_pay_backend.Callbacks.Ingest.Once.{stored, IsUnique, ingest-IsUnique}
use script_pay_backend.Callbacks.Dispatch.{dispatch}
use script_pay_backend.Callbacks.Poller.{
  max_attempts, poll_batch, is_due, has_event_id, settle_event, process_event, process_events,
  poll_unprocessed_events,
}
use script_pay_backend.Callbacks.Poller.Retries.{
  AllBounded, IsHealthy, poll_unprocessed_events-IsHealthy,
}
use script_pay_backend.Callbacks.Webhook.{
  Post, Route, accepted, handle, receive, after_ingest, serve, guarded,
}

append-AllBounded :
    (es : List WebhookEvent) (e : WebhookEvent)
    → AllBounded es
    → e.attempts ≤ max_attempts
    → AllBounded (es ++ e ∷ [])
append-AllBounded [] e h k = (k, tt)
append-AllBounded (x ∷ es) e h k = (h.0, append-AllBounded es e h.1 k)

store_event-AllBounded :
    (source : WebhookSource) (key : String) (p : DarajaPayload) (b : Inbox)
    → AllBounded b.events
    → AllBounded (store_event source key p b).events
store_event-AllBounded source key p b h =
    elim (Bool-cases (any (is_stored_as source key) b.events)) [
      | inl old ↦ rw old h
      | inr new ↦ rw new (append-AllBounded b.events _ h (omega arith))
    ]

ingest-AllBounded :
    (source : WebhookSource) (p : DarajaPayload) (b : Inbox)
    → AllBounded b.events
    → AllBounded (ingest source (some p) b).1.events
unfolding ingest
ingest-AllBounded source p b h = elim (Bool-cases (truthy (extract_natural_key source p))) [
  | inl present ↦
      rw present
        (store_event-AllBounded source (or_default (extract_natural_key source p) "") p b h)
  | inr absent ↦ rw absent h
]

-- A change of a row that keeps its source and key changes no count.
stored-update :
    (source : WebhookSource) (key : String) (id : ℕ) (f : WebhookEvent → WebhookEvent)
    (es : List WebhookEvent)
    → ((e : WebhookEvent) → is_stored_as source key (f e) ≡ is_stored_as source key e)
    → stored source key (update (has_event_id id) f es) ≡ stored source key es
stored-update source key id f [] same = refl
stored-update source key id f (e ∷ es) same =
    ground (arith, same e, stored-update source key id f es same)

settle_event-stored :
    (source : WebhookSource) (key : String) (e : WebhookEvent) (b : Inbox) (r : Result (Unit {0}))
    (s : Store)
    → stored source key (settle_event e b (r, s)).1.events ≡ stored source key b.events
settle_event-stored source key e b (ok done) s =
    stored-update source key e.id _ b.events (λ x. refl)
settle_event-stored source key e b (err error) s =
    stored-update source key e.id _ b.events (λ x. refl)

-- Sound payment tables, callbacks tried at most five times, and each stored once.
abbrev pub IsWell : Store × Inbox → Type 0
IsWell state = IsHealthy state × IsUnique state.1

same_secret :
    (secret token : Option String)
    → is_secret (or_default secret "") (or_default token "") ≡ true
    → (token ≡ secret) × (truthy secret ≡ true)
same_secret none token h = ground (arith, eq_refl "")
same_secret (some a) none h = ground (arith, eq_iff a "")
same_secret (some a) (some b) h = ground (arith, eq_iff a b)

module _ (minor_units : Option Value → Option ℤ) (reads_as_zero : String → Bool) where
  process_events-stored :
      (source : WebhookSource) (key : String) (es : List WebhookEvent) (state : Store × Inbox)
      → stored source key (process_events minor_units reads_as_zero es state).1.events
        ≡ stored source key state.1.events
  unfolding process_event
  process_events-stored source key [] state = refl
  process_events-stored source key (e ∷ es) (s, b) =
      let o = dispatch minor_units reads_as_zero e.source e.payload s in
      process_events-stored source key es (process_event minor_units reads_as_zero e (s, b))
      ∙ settle_event-stored source key e b o.0 o.1

  pub poll-IsWell :
      (state : Store × Inbox)
      → IsWell state
      → IsWell (poll_unprocessed_events minor_units reads_as_zero state)
  unfolding poll_unprocessed_events
  poll-IsWell (s, b) h = (
    poll_unprocessed_events-IsHealthy minor_units reads_as_zero s b h.0,
    λ source key. omega (
      arith,
      h.1 source key,
      process_events-stored source key (take poll_batch (filter is_due b.events)) (s, b),
    ),
  )

  after_ingest-IsWell :
      (polling : Bool) (s : Store) (r : Result (Unit {0})) (b : Inbox)
      → IsWell (s, b)
      → IsWell (after_ingest minor_units reads_as_zero polling s (r, b))
  after_ingest-IsWell true s (ok done) b h = h
  after_ingest-IsWell false s (ok done) b h = poll-IsWell (s, b) h
  after_ingest-IsWell polling s (err e) b h = h

  receive-IsWell :
      (source : WebhookSource) (body : Option DarajaPayload) (polling : Bool)
      (state : Store × Inbox)
      → IsWell state
      → IsWell (receive minor_units reads_as_zero source body polling state).1
  receive-IsWell source none polling state h = h
  receive-IsWell source (some p) polling (s, b) ((sound, bounded), unique) =
      let o = ingest source (some p) b in
      after_ingest-IsWell polling s o.0 o.1
        ((sound, ingest-AllBounded source p b bounded), ingest-IsUnique source (some p) b unique)

  handle-IsWell :
      (route : Route) (body : Option DarajaPayload) (polling : Bool) (state : Store × Inbox)
      → IsWell state
      → IsWell (handle minor_units reads_as_zero route body polling state).1
  unfolding handle
  handle-IsWell Route.stk_callback = receive-IsWell _
  handle-IsWell Route.c2b_confirmation = receive-IsWell _
  handle-IsWell Route.b2c_result = receive-IsWell _
  handle-IsWell Route.b2c_timeout = receive-IsWell _
  handle-IsWell Route.transaction_status_result = receive-IsWell _
  handle-IsWell Route.transaction_status_timeout = receive-IsWell _

  guarded-IsWell :
      (p : Post) (r : Result Request) (state : Store × Inbox)
      → IsWell state
      → IsWell (guarded minor_units reads_as_zero p r state).1
  guarded-IsWell p (ok r) state h = handle-IsWell p.route p.body p.is_polling state h
  guarded-IsWell p (err e) state h = h

  pub serve-IsWell :
      (secret : Option String) (p : Post) (state : Store × Inbox)
      → IsWell state
      → IsWell (serve minor_units reads_as_zero secret p state).1
  unfolding serve
  serve-IsWell secret p state h = guarded-IsWell p _ state h

  receive-accepted :
      (source : WebhookSource) (body : Option DarajaPayload) (polling : Bool)
      (state : Store × Inbox)
      → (receive minor_units reads_as_zero source body polling state).0 ≡ accepted
  receive-accepted source none polling state = refl
  receive-accepted source (some p) polling state = refl

  handle-accepted :
      (route : Route) (body : Option DarajaPayload) (polling : Bool) (state : Store × Inbox)
      → (handle minor_units reads_as_zero route body polling state).0 ≡ accepted
  unfolding handle
  handle-accepted Route.stk_callback = receive-accepted _
  handle-accepted Route.c2b_confirmation = receive-accepted _
  handle-accepted Route.b2c_result = receive-accepted _
  handle-accepted Route.b2c_timeout = receive-accepted _
  handle-accepted Route.transaction_status_result = receive-accepted _
  handle-accepted Route.transaction_status_timeout = receive-accepted _

  -- Every request to the controller is either refused and changes nothing, or carries the
  -- configured secret, which is no empty text, and is answered that it is accepted, whatever its
  -- body is and whatever becomes of it.
  pub serve_refuses_or_accepts :
      (secret : Option String) (p : Post) (state : Store × Inbox)
      → (serve minor_units reads_as_zero secret p state ≡ (err forbidden, state))
        ⊎ (((serve minor_units reads_as_zero secret p state).0 ≡ ok accepted)
            × (p.request.token_query ≡ secret)
            × (truthy secret ≡ true))
  unfolding serve check_webhook_token
  serve_refuses_or_accepts secret p state =
      elim (Bool-cases (is_secret (or_default secret "") (or_default p.request.token_query ""))) [
        | inl same ↦ inr (
          rw same (ap ok (handle-accepted p.route p.body p.is_polling state)),
          (same_secret secret p.request.token_query same).0,
          (same_secret secret p.request.token_query same).1,
        )
        | inr other ↦ inl (rw other refl)
      ]
