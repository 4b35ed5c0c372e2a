-- ===== src/Callbacks/Ingest.antt =====
-- src/modules/callbacks/extract-natural-key.ts and webhook-ingest.service.ts: a callback is stored
-- under a key that the table holds once.
pub mod Once
use script_pay_backend.Shared.{
  ℕ, String, Bool, true, false, ◌&&◌, Option, none, some, List, [], ◌∷◌, ◌++◌, ◌+◌, any, truthy,
  str_eq, or_default, if◌then◌else◌,
}
use script_pay_backend.Store.Rows.{Error, bad_request}
use script_pay_backend.Store.Tx.{Result, ok, err}
use script_pay_backend.Callbacks.Payload.{
  DarajaPayload, StkCallback, DarajaResult, WebhookSource, daraja_stk_callback,
  daraja_c2b_confirmation, source_eq, WebhookEvent, chain, text_of,
}

-- The table of stored callbacks, oldest first.
pub record Inbox : Type 0 where
  pub next_id : ℕ
  pub events : List WebhookEvent

-- `extractNaturalKey` on an object.
unfoldable pub extract_natural_key : WebhookSource → DarajaPayload → Option String
extract_natural_key daraja_stk_callback p =
    chain (λ (c : StkCallback). c.checkout_request_id) p.stk_callback
extract_natural_key daraja_c2b_confirmation p = text_of p.confirmation.trans_id
extract_natural_key _ p =
    text_of (chain (λ (r : DarajaResult). r.originator_conversation_id) p.result)

abbrev pub is_stored_as : WebhookSource → String → WebhookEvent → Bool
is_stored_as source key e = source_eq e.source source && str_eq e.natural_key key

abbrev new_event : ℕ → WebhookSource → String → DarajaPayload → WebhookEvent
new_event id source key p = record {
  id = id;
  source = source;
  natural_key = key;
  payload = p;
  processed_at = none;
  processing_error = none;
  attempts = 0;
}

-- `webhookEvent.create`; a violated unique key means that the callback is stored already.
abbrev pub store_event : WebhookSource → String → DarajaPayload → Inbox → Inbox
store_event source key p b = if any (is_stored_as source key) b.events then b else record b {
  next_id = b.next_id + 1;
  events = b.events ++ new_event b.next_id source key p ∷ [];
}

abbrev pub ingest_object :
    WebhookSource → DarajaPayload → Option String → Inbox → Result (Unit {0}) × Inbox
ingest_object source p key b =
    if truthy key then (ok tt, store_event source (or_default key "") p b) else (err bad_request, b)

-- `ingest`; a payload that is no object is refused.
unfoldable pub ingest : WebhookSource → Option DarajaPayload → Inbox → Result (Unit {0}) × Inbox
unfolding extract_natural_key
ingest source none b = (err bad_request, b)
ingest source (some p) b = ingest_object source p (extract_natural_key source p) b
