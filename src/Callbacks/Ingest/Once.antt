-- ===== src/Callbacks/Ingest/Once.antt =====
-- A callback that is posted again and again is stored once.
use script_pay_backend.Shared.{
  ℕ, String, true, false, Option, none, some, List, [], ◌∷◌, ◌++◌, ◌+◌, ◌≤◌, ◌≡◌, refl, arith, any,
  suc, truthy, or_default, Bool-cases, inl, inr, eq_iff, eq_refl, if◌then◌else◌,
}
use script_pay_backend.Store.Tx.{ok}
use script_pay_backend.Callbacks.Payload.{DarajaPayload, WebhookSource, source_eq, WebhookEvent}
use script_pay_backend.Callbacks.Ingest.{
  Inbox, extract_natural_key, is_stored_as, new_event, store_event, ingest_object, ingest,
}

-- How many events are stored under a source and a key.
abbrev pub stored : WebhookSource → String → List WebhookEvent → ℕ
stored source key [] = 0
stored source key (e ∷ es) =
    if is_stored_as source key e then suc (stored source key es) else stored source key es

-- The unique constraint on source and natural key.
abbrev pub IsUnique : Inbox → Type 0
IsUnique b = (source : WebhookSource) (key : String) → stored source key b.events ≤ 1

stored_none :
    (source : WebhookSource) (key : String) (es : List WebhookEvent)
    → any (is_stored_as source key) es ≡ false
    → stored source key es ≡ 0
stored_none source key [] h = refl
stored_none source key (e ∷ es) h = ground (arith, stored_none source key es)

stored-append :
    (source : WebhookSource) (key : String) (es : List WebhookEvent) (e : WebhookEvent)
    → stored source key (es ++ e ∷ [])
      ≡ stored source key es + (if is_stored_as source key e then 1 else 0)
stored-append source key [] e = ground arith
stored-append source key (x ∷ es) e = ground (arith, stored-append source key es e)

source_eq→eq : (a b : WebhookSource) → source_eq a b ≡ true → a ≡ b
source_eq→eq a b h = ground arith

source_eq_refl : (a : WebhookSource) → source_eq a a ≡ true
source_eq_refl a = ground arith

new_event-fresh :
    (source other : WebhookSource) (key name : String) (id : ℕ) (p : DarajaPayload)
    (es : List WebhookEvent)
    → any (is_stored_as source key) es ≡ false
    → is_stored_as other name (new_event id source key p) ≡ true
    → stored other name es ≡ 0
new_event-fresh source other key name id p es h same =
    ground (arith, stored_none source key es h, source_eq→eq source other, eq_iff key name)

-- A row that stores nothing stored before under its key leaves every key stored once.
store_event-IsUnique :
    (source : WebhookSource) (key : String) (p : DarajaPayload) (b : Inbox)
    → IsUnique b
    → IsUnique (store_event source key p b)
store_event-IsUnique source key p b h other name = ground (
  arith,
  h other name,
  stored-append other name b.events (new_event b.next_id source key p),
  new_event-fresh source other key name b.next_id p b.events,
)

any-stored :
    (source : WebhookSource) (key : String) (es : List WebhookEvent)
    → any (is_stored_as source key) es ≡ true
    → 1 ≤ stored source key es
any-stored source key [] h = ground arith
any-stored source key (e ∷ es) h = ground (arith, any-stored source key es)

store_event-stored :
    (source : WebhookSource) (key : String) (p : DarajaPayload) (b : Inbox)
    → IsUnique b
    → stored source key (store_event source key p b).events ≡ 1
store_event-stored source key p b h = ground (
  arith,
  h source key,
  any-stored source key b.events,
  stored_none source key b.events,
  source_eq_refl source,
  eq_refl key,
  stored-append source key b.events (new_event b.next_id source key p),
)

ingest_object-IsUnique :
    (source : WebhookSource) (p : DarajaPayload) (key : Option String) (b : Inbox)
    → IsUnique b
    → IsUnique (ingest_object source p key b).1
ingest_object-IsUnique source p key b h = elim (Bool-cases (truthy key)) [
  | inl present ↦ rw present (store_event-IsUnique source (or_default key "") p b h)
  | inr absent ↦ rw absent h
]

pub ingest-IsUnique :
    (source : WebhookSource) (p : Option DarajaPayload) (b : Inbox)
    → IsUnique b
    → IsUnique (ingest source p b).1
unfolding ingest
ingest-IsUnique source none b h = h
ingest-IsUnique source (some p) b h =
    ingest_object-IsUnique source p (extract_natural_key source p) b h

store_event_keeps :
    (source other : WebhookSource) (key name : String) (p : DarajaPayload) (b : Inbox)
    → stored other name b.events ≤ stored other name (store_event source key p b).events
store_event_keeps source other key name p b =
    ground (arith, stored-append other name b.events (new_event b.next_id source key p))

ingest_keeps :
    (source other : WebhookSource) (name : String) (p : Option DarajaPayload) (b : Inbox)
    → stored other name b.events ≤ stored other name (ingest source p b).1.events
unfolding ingest
ingest_keeps source other name none b = omega arith
ingest_keeps source other name (some p) b =
    ground (
      arith,
      store_event_keeps source other (or_default (extract_natural_key source p) "") name p b,
    )

-- Callbacks that are posted one after another.
abbrev pub ingest_all : List (WebhookSource × Option DarajaPayload) → Inbox → Inbox
ingest_all [] b = b
ingest_all ((source, p) ∷ posts) b = ingest_all posts (ingest source p b).1

-- Whatever is posted, in any order and any number of times, an inbox that stores no source and key
-- twice never does.
pub ingest_all-IsUnique :
    (posts : List (WebhookSource × Option DarajaPayload)) (b : Inbox)
    → IsUnique b
    → IsUnique (ingest_all posts b)
ingest_all-IsUnique [] b h = h
ingest_all-IsUnique ((source, p) ∷ posts) b h =
    ingest_all-IsUnique posts (ingest source p b).1 (ingest-IsUnique source p b h)

ingest_all_keeps :
    (other : WebhookSource) (name : String) (posts : List (WebhookSource × Option DarajaPayload))
    (b : Inbox)
    → stored other name b.events ≤ stored other name (ingest_all posts b).events
ingest_all_keeps other name [] b = omega arith
ingest_all_keeps other name ((source, p) ∷ posts) b = omega (
  arith,
  ingest_keeps source other name p b,
  ingest_all_keeps other name posts (ingest source p b).1,
)

ingest_stores :
    (source : WebhookSource) (p : DarajaPayload) (key : String) (b : Inbox)
    → IsUnique b
    → extract_natural_key source p ≡ some key
    → truthy (some key) ≡ true
    → ((ingest source (some p) b).0 ≡ ok tt)
      × (stored source key (ingest source (some p) b).1.events ≡ 1)
unfolding ingest
ingest_stores source p key b h has present =
    rw has (rw present (refl, store_event-stored source key p b h))

-- A callback with a natural key that is no empty text is accepted, whatever was posted before it,
-- and from then on, whatever is posted after it (the same callback again included), exactly one
-- event is stored under its source and key, if the inbox stored no source and key twice at first.
pub ingest_once :
    (before after : List (WebhookSource × Option DarajaPayload)) (source : WebhookSource)
    (p : DarajaPayload) (key : String) (b : Inbox)
    → IsUnique b
    → extract_natural_key source p ≡ some key
    → truthy (some key) ≡ true
    → ((ingest source (some p) (ingest_all before b)).0 ≡ ok tt)
      × (stored source key
            (ingest_all after (ingest source (some p) (ingest_all before b)).1).events
          ≡ 1)
ingest_once before after source p key b h has present =
    let now = ingest_all before b in
    let unique = ingest_all-IsUnique before b h in
    let stores = ingest_stores source p key now unique has present in
    let then_ = (ingest source (some p) now).1 in
    (
      stores.0,
      omega (
        arith,
        stores.1,
        ingest_all_keeps source key after then_,
        ingest_all-IsUnique after then_ (ingest-IsUnique source (some p) now unique) source key,
      ),
    )
