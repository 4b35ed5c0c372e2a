-- ===== src/Callbacks/Dispatch.antt =====
-- src/modules/callbacks/webhook-poller.service.ts: the handlers that read numbers out of a payload,
-- and the dispatch of an event to its handler. How JavaScript reads a number is a parameter:
-- `minor_units` stands for `Math.round(Number(amount) * 100)`, which gives no amount for NaN, and
-- `reads_as_zero` for `Number(text) === 0`.
pub mod Soundness
pub mod Timeouts
use script_pay_backend.Shared.{
  ℕ, String, Bool, true, false, ◌&&◌, Option, none, some, List, [], ◌∷◌, find, filter, any, str_eq,
  same_text, clashes, if◌then◌else◌,
}
use script_pay_backend.Shared.Int.{ℤ}
use script_pay_backend.Store.Rows.{
  Store, Transaction, TransactionChannel, critical, Tenant, TenantShortcode, PayoutStatusQuery,
}
use script_pay_backend.Store.Tx.{Result, ok, err}
use script_pay_backend.Store.Action.{Action, pure, throw, gets, transaction, await, ◌>>=◌, ◌>>◌}
use script_pay_backend.Ledger.{is_tenant}
use script_pay_backend.StateMachine.{record_inbound_settlement}
use script_pay_backend.Callbacks.Payload.{
  Value, DarajaResult, C2bConfirmation, DarajaPayload, WebhookSource, daraja_stk_callback,
  daraja_c2b_confirmation, daraja_b2c_result, daraja_b2c_timeout, daraja_transaction_status_result,
  daraja_transaction_status_timeout, chain, text_of,
}
use script_pay_backend.Callbacks.Handlers.{
  invalid, audit, alert, send_receipt_email, conversation, has_conversation, apply_payout,
  process_stk_callback, process_b2c_timeout, close_as, find_query,
}

-- `processTransactionStatusResult`: the query is closed, and the payout left as it is.
abbrev pub found_query : Option PayoutStatusQuery → Action (Unit {0})
found_query none = audit none "daraja.transaction_status_unmatched" none
found_query (some q) = close_as "daraja.transaction_status_result_received" (some q)

abbrev pub look_up_query : Option String → Action (Unit {0})
look_up_query none = audit none "daraja.transaction_status_unmatched" none
look_up_query (some id) = gets (find_query id) >>= found_query

unfoldable pub process_transaction_status_result : DarajaPayload → Action (Unit {0})
process_transaction_status_result p = conversation p >>= look_up_query

-- `processTransactionStatusTimeout`.
abbrev pub close_timed_out : Option String → Action (Unit {0})
close_timed_out none = close_as "daraja.transaction_status_query_timeout" none
close_timed_out (some id) =
    gets (find_query id) >>= close_as "daraja.transaction_status_query_timeout"

unfoldable pub process_transaction_status_timeout : DarajaPayload → Action (Unit {0})
process_transaction_status_timeout p = conversation p >>= close_timed_out

-- A text column that must be there.
abbrev pub required : Option Value → Result String
required (some (Value.text s)) = ok s
required _ = err invalid

-- The filter on a shortcode: an absent value filters nothing.
abbrev pub shortcode_filter : Option Value → Result (TenantShortcode → Bool)
shortcode_filter none = ok (λ c. true)
shortcode_filter (some (Value.text s)) = ok (λ c. str_eq c.shortcode s)
shortcode_filter (some Value.null) = err invalid
shortcode_filter (some (Value.number s)) = err invalid

abbrev is_active : ℕ → Tenant → Bool
is_active id t = is_tenant id t && str_eq t.status "active"

abbrev active_matches : (TenantShortcode → Bool) → Store → List TenantShortcode
active_matches p s = filter (λ c. p c && any (is_active c.tenant_id) s.tenants) s.shortcodes

abbrev pub c2b_channel : Option String → TransactionChannel
c2b_channel type =
    if same_text type (some "Buy Goods")
    then TransactionChannel.till
    else TransactionChannel.paybill

abbrev pub amount_or_nan : Option ℤ → Result ℤ
amount_or_nan none = err invalid
amount_or_nan (some x) = ok x

abbrev pub recorded : Transaction → Action (Unit {0})
recorded t = do
  audit (some t.tenant_id) "daraja.c2b_settled" (some t.id)
  send_receipt_email t.tenant_id t.amount_minor_units t.mpesa_receipt_number

module _ (minor_units : Option Value → Option ℤ) (reads_as_zero : String → Bool) where
  -- `Number(code) === 0`.
  abbrev number_is_zero : Option Value → Bool
  number_is_zero none = false
  number_is_zero (some Value.null) = true
  number_is_zero (some (Value.number s)) = str_eq s "0"
  number_is_zero (some (Value.text s)) = reads_as_zero s

  abbrev found_payout : DarajaResult → Option Transaction → Action (Unit {0})
  found_payout r none = audit none "daraja.b2c_callback_unmatched" none
  found_payout r (some t) = apply_payout r t (number_is_zero r.result_code)

  abbrev look_up_payout : DarajaResult → Option String → Action (Unit {0})
  look_up_payout r none = audit none "daraja.b2c_callback_unmatched" none
  look_up_payout r (some id) =
      gets (λ s. find (has_conversation id) s.transactions) >>= found_payout r

  abbrev with_result : DarajaPayload → Option DarajaResult → Action (Unit {0})
  with_result p none = audit none "daraja.b2c_callback_unmatched" none
  with_result p (some r) = conversation p >>= look_up_payout r

  -- `processB2cResult`.
  unfoldable pub process_b2c_result : DarajaPayload → Action (Unit {0})
  process_b2c_result p = with_result p p.result

  abbrev record_payment : ℕ → TransactionChannel → ℤ → String → String → Action (Unit {0})
  record_payment tenant channel amount msisdn receipt =
      transaction (record_inbound_settlement tenant channel amount msisdn receipt) >>= recorded

  abbrev with_msisdn : C2bConfirmation → ℕ → ℤ → String → Action (Unit {0})
  with_msisdn c tenant amount msisdn =
      await (required c.trans_id)
      >>= record_payment tenant (c2b_channel c.transaction_type) amount msisdn

  abbrev with_amount : C2bConfirmation → ℕ → ℤ → Action (Unit {0})
  with_amount c tenant amount = await (required c.msisdn) >>= with_msisdn c tenant amount

  abbrev route : C2bConfirmation → List TenantShortcode → Action (Unit {0})
  route c [] = audit none "daraja.c2b_unmatched" none
  route c (m ∷ []) =
      await (amount_or_nan (minor_units c.trans_amount)) >>= with_amount c m.tenant_id
  route c (m ∷ n ∷ rest) = do
    audit none "daraja.c2b_ambiguous_shortcode" none
    alert "Ambiguous C2B shortcode match — payment not processed" critical none

  abbrev with_filter : C2bConfirmation → (TenantShortcode → Bool) → Action (Unit {0})
  with_filter c p = gets (active_matches p) >>= route c

  -- `processC2bConfirmation`; a stored confirmation has a text for its TransID.
  unfoldable pub process_c2b_confirmation : C2bConfirmation → Action (Unit {0})
  process_c2b_confirmation c = await (shortcode_filter c.business_short_code) >>= with_filter c

  -- The handler of an event, by its source.
  unfoldable pub dispatch : WebhookSource → DarajaPayload → Action (Unit {0})
  dispatch daraja_stk_callback p = process_stk_callback p
  dispatch daraja_c2b_confirmation p = process_c2b_confirmation p.confirmation
  dispatch daraja_b2c_result p = process_b2c_result p
  dispatch daraja_b2c_timeout p = process_b2c_timeout p
  dispatch daraja_transaction_status_result p = process_transaction_status_result p
  dispatch daraja_transaction_status_timeout p = process_transaction_status_timeout p
