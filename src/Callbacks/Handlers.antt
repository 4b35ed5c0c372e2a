-- ===== src/Callbacks/Handlers.antt =====
-- src/modules/callbacks/webhook-poller.service.ts, the handlers: a stored callback is applied
-- through the transaction state machine. A value of the wrong type in a filter or a column is
-- refused by the database client, which throws.
pub mod Soundness
use script_pay_backend.Shared.{
  ℕ, String, Bool, true, false, ◌&&◌, Option, none, some, List, [], ◌∷◌, ◌++◌, ◌==◌, map, find,
  filter, any, str_eq, same_text, or_default, update, if◌then◌else◌, clashes,
}
use script_pay_backend.Shared.Int.{ℤ}
use script_pay_backend.Store.Rows.{
  Store, Transaction, TransactionChannel, Reason, text, Error, external, AuditEntry, critical,
  warning, Severity, User, Role, ReceiptEmail, Tenant, TenantShortcode, PayoutStatusQuery,
}
use script_pay_backend.Store.Tx.{Result, ok, err}
use script_pay_backend.Store.Action.{
  Action, pure, throw, gets, modify, transaction, record_audit, send_alert, await, ◌>>=◌, ◌>>◌,
}
use script_pay_backend.Ledger.{is_tenant}
use script_pay_backend.StateMachine.{
  transition_to_settled, transition_to_failed, transition_payout_to_settled,
  transition_payout_to_failed, record_inbound_settlement,
}
use script_pay_backend.Reconciliation.Drift.{asks_with}
use script_pay_backend.Callbacks.Payload.{
  Value, StkCallback, DarajaResult, C2bConfirmation, DarajaPayload, WebhookSource,
  daraja_stk_callback, daraja_c2b_confirmation, daraja_b2c_result, daraja_b2c_timeout,
  daraja_transaction_status_result, daraja_transaction_status_timeout, chain, text_of,
}

abbrev pub invalid : Error
invalid = external "invalid argument"

abbrev pub audit : Option ℕ → String → Option ℕ → Action (Unit {0})
audit tenant action target =
    record_audit
      (record { tenant_id = tenant; actor_id = none; action = action; target_id = target })

abbrev pub alert : String → Severity → Option ℕ → Action (Unit {0})
alert title severity id =
    send_alert (record { title = title; severity = severity; transaction_id = id })

abbrev is_admin : Role → Bool
is_admin Role.tenant_admin = true
is_admin _ = false

abbrev is_admin_of : ℕ → User → Bool
is_admin_of tenant u = elim u.tenant_id [ none ↦ false | some id ↦ id == tenant ] && is_admin u.role

-- `sendReceiptEmail`, which never throws: one email to each admin of the tenant.
abbrev pub send_receipt_email : ℕ → ℤ → Option String → Action (Unit {0})
send_receipt_email tenant amount receipt = modify λ s. record s {
  emails =
      map
        (λ (u : User). record {
          to = u.email;
          amount_minor_units = amount;
          mpesa_receipt_number = receipt;
        })
        (filter (is_admin_of tenant) s.users)
      ++ s.emails;
}

abbrev named : String → String × Value → Bool
named name item = str_eq item.0 name

abbrev value_of : Option (String × Value) → Option Value
value_of none = none
value_of (some item) = some item.1

abbrev value_at : String → List (String × Value) → Option Value
value_at name items = value_of (find (named name) items)

-- A text column: a value that is there must be a text.
abbrev text_column : Option Value → Result (Option String)
text_column none = ok none
text_column (some Value.null) = ok none
text_column (some (Value.text s)) = ok (some s)
text_column (some (Value.number s)) = err invalid

-- `=== 0`.
abbrev is_zero_code : Option Value → Bool
is_zero_code (some (Value.number s)) = str_eq s "0"
is_zero_code _ = false

abbrev reason_of : Option String → Reason
reason_of desc = text (or_default desc "unknown_failure")

abbrev pub settled_stk : Transaction → Option String → Bool → Action (Unit {0})
settled_stk t receipt settled_now = do
  audit (some t.tenant_id) "daraja.callback_settled" (some t.id)
  if settled_now then send_receipt_email t.tenant_id t.amount_minor_units receipt else pure tt

abbrev pub settle_stk : Transaction → Option String → Action (Unit {0})
settle_stk t receipt = transaction (transition_to_settled t.id receipt) >>= settled_stk t receipt

abbrev pub failed_stk : Transaction → Unit {0} → Action (Unit {0})
failed_stk t done = do
  audit (some t.tenant_id) "daraja.callback_failed" (some t.id)
  alert "STK push failed at Safaricom" warning (some t.id)

abbrev pub apply_stk : StkCallback → Transaction → Bool → Action (Unit {0})
apply_stk c t true = await (text_column (value_at "MpesaReceiptNumber" c.items)) >>= settle_stk t
apply_stk c t false =
    transaction (transition_to_failed t.id (reason_of c.result_desc)) >>= failed_stk t

abbrev pub found_stk : StkCallback → Option Transaction → Action (Unit {0})
found_stk c none = audit none "daraja.callback_unmatched" none
found_stk c (some t) = apply_stk c t (is_zero_code c.result_code)

abbrev has_checkout : String → Transaction → Bool
has_checkout id t = clashes t.checkout_request_id (some id)

abbrev pub with_checkout : StkCallback → Option String → Action (Unit {0})
with_checkout c none = throw invalid
with_checkout c (some id) = gets (λ s. find (has_checkout id) s.transactions) >>= found_stk c

abbrev pub with_stk : Option StkCallback → Action (Unit {0})
with_stk none = throw invalid
with_stk (some c) = with_checkout c c.checkout_request_id

-- `processStkCallback`.
unfoldable pub process_stk_callback : DarajaPayload → Action (Unit {0})
process_stk_callback p = with_stk p.stk_callback

-- The OriginatorConversationID that a handler looks a row up by; a falsy one is none.
abbrev pub conversation_of : Option Value → Result (Option String)
conversation_of none = ok none
conversation_of (some Value.null) = ok none
conversation_of (some (Value.text s)) = ok (if str_eq s "" then none else some s)
conversation_of (some (Value.number s)) = if str_eq s "0" then ok none else err invalid

abbrev pub conversation : DarajaPayload → Action (Option String)
conversation p =
    await (conversation_of (chain (λ (r : DarajaResult). r.originator_conversation_id) p.result))

abbrev pub has_conversation : String → Transaction → Bool
has_conversation id t = clashes t.originator_conversation_id (some id)

abbrev or_value : Option Value → Option Value → Option Value
or_value none v = v
or_value (some Value.null) v = v
or_value (some w) v = some w

-- `value ? String(value) : undefined`.
abbrev as_string : Option Value → Option String
as_string none = none
as_string (some Value.null) = none
as_string (some (Value.text s)) = if str_eq s "" then none else some s
as_string (some (Value.number s)) = if str_eq s "0" then none else some s

abbrev payout_receipt : DarajaResult → Option String
payout_receipt r =
    as_string (or_value (value_at "TransactionReceipt" r.parameters) r.transaction_id)

abbrev pub settled_payout : Transaction → Unit {0} → Action (Unit {0})
settled_payout t done = audit (some t.tenant_id) "daraja.b2c_settled" (some t.id)

abbrev pub failed_payout : Transaction → Unit {0} → Action (Unit {0})
failed_payout t done = do
  audit (some t.tenant_id) "daraja.b2c_failed" (some t.id)
  alert "B2C payout failed at Safaricom" warning (some t.id)

abbrev pub apply_payout : DarajaResult → Transaction → Bool → Action (Unit {0})
apply_payout r t true =
    transaction (transition_payout_to_settled t.id (payout_receipt r)) >>= settled_payout t
apply_payout r t false =
    transaction (transition_payout_to_failed t.id (reason_of r.result_desc)) >>= failed_payout t

-- `processB2cTimeout`: no transition, no release.
abbrev pub timed_out : Option Transaction → Action (Unit {0})
timed_out none = do
  audit none "daraja.b2c_timeout" none
  alert "B2C payout timed out in Safaricom's queue — needs review" critical none
timed_out (some t) = do
  audit (some t.tenant_id) "daraja.b2c_timeout" (some t.id)
  alert "B2C payout timed out in Safaricom's queue — needs review" critical (some t.id)

abbrev pub look_up_timeout : Option String → Action (Unit {0})
look_up_timeout none = timed_out none
look_up_timeout (some id) = gets (λ s. find (has_conversation id) s.transactions) >>= timed_out

unfoldable pub process_b2c_timeout : DarajaPayload → Action (Unit {0})
process_b2c_timeout p = conversation p >>= look_up_timeout

abbrev close_query : ℕ → PayoutStatusQuery → Action (Unit {0})
close_query now q = modify λ s. record s {
  payout_status_queries =
      update (λ (x : PayoutStatusQuery). x.id == q.id)
        (λ (x : PayoutStatusQuery). record x { resolved_at = some now }) s.payout_status_queries;
}

abbrev pub close_as : String → Option PayoutStatusQuery → Action (Unit {0})
close_as action none = audit none action none
close_as action (some q) = do
  now ← gets (λ s. s.now)
  close_query now q
  audit (some q.tenant_id) action (some q.transaction_id)

abbrev pub find_query : String → Store → Option PayoutStatusQuery
find_query id s = find (asks_with id) s.payout_status_queries
