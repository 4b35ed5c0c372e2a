-- ===== src/Callbacks/Dispatch/Soundness.antt =====
-- Whatever callback is dispatched, the payment tables stay sound.
use script_pay_backend.Shared.{ℕ, String, Bool, Option, none, some, List, [], ◌∷◌}
use script_pay_backend.Shared.Int.{ℤ}
use script_pay_backend.Store.Rows.{
  Store, Transaction, TransactionChannel, TenantShortcode, PayoutStatusQuery,
}
use script_pay_backend.Store.Action.{transaction, await}
use script_pay_backend.StateMachine.{record_inbound_settlement}
use script_pay_backend.StateMachine.Soundness.{IsSound}
use script_pay_backend.Callbacks.Payload.{
  Value, DarajaResult, C2bConfirmation, DarajaPayload, WebhookSource, daraja_stk_callback,
  daraja_c2b_confirmation, daraja_b2c_result, daraja_b2c_timeout, daraja_transaction_status_result,
  daraja_transaction_status_timeout,
}
use script_pay_backend.Callbacks.Handlers.{conversation}
use script_pay_backend.Callbacks.Handlers.Soundness.{
  Preserves, >>=-Preserves, transaction-Preserves, record_inbound_settlement-IsSound,
  process_stk_callback-Preserves, apply_payout-Preserves, process_b2c_timeout-Preserves,
  close_as-Preserves,
}
use script_pay_backend.Callbacks.Dispatch.{
  found_query, look_up_query, process_transaction_status_result, close_timed_out,
  process_transaction_status_timeout, required, recorded, c2b_channel, amount_or_nan,
  shortcode_filter, found_payout, look_up_payout, with_result, process_b2c_result, record_payment,
  with_msisdn, with_amount, route, with_filter, process_c2b_confirmation, dispatch,
}

found_query-Preserves : (o : Option PayoutStatusQuery) → Preserves (found_query o)
found_query-Preserves none s h = record { consistent = h.consistent; fresh = h.fresh }
found_query-Preserves (some q) s h = close_as-Preserves _ (some q) s h

look_up_query-Preserves : (o : Option String) → Preserves (look_up_query o)
look_up_query-Preserves none s h = record { consistent = h.consistent; fresh = h.fresh }
look_up_query-Preserves (some id) s h = found_query-Preserves _ s h

process_transaction_status_result-Preserves :
    (p : DarajaPayload) → Preserves (process_transaction_status_result p)
unfolding process_transaction_status_result
process_transaction_status_result-Preserves p =
    >>=-Preserves (conversation p) look_up_query (λ s h. h) look_up_query-Preserves

close_timed_out-Preserves : (o : Option String) → Preserves (close_timed_out o)
close_timed_out-Preserves none s h = close_as-Preserves _ none s h
close_timed_out-Preserves (some id) s h = close_as-Preserves _ _ s h

process_transaction_status_timeout-Preserves :
    (p : DarajaPayload) → Preserves (process_transaction_status_timeout p)
unfolding process_transaction_status_timeout
process_transaction_status_timeout-Preserves p =
    >>=-Preserves (conversation p) close_timed_out (λ s h. h) close_timed_out-Preserves

module _ (minor_units : Option Value → Option ℤ) (reads_as_zero : String → Bool) where
  found_payout-Preserves :
      (r : DarajaResult) (o : Option Transaction)
      → Preserves (found_payout minor_units reads_as_zero r o)
  found_payout-Preserves r none s h = record { consistent = h.consistent; fresh = h.fresh }
  found_payout-Preserves r (some t) s h = apply_payout-Preserves r t _ s h

  look_up_payout-Preserves :
      (r : DarajaResult) (o : Option String)
      → Preserves (look_up_payout minor_units reads_as_zero r o)
  look_up_payout-Preserves r none s h = record { consistent = h.consistent; fresh = h.fresh }
  look_up_payout-Preserves r (some id) s h = found_payout-Preserves r _ s h

  with_result-Preserves :
      (p : DarajaPayload) (o : Option DarajaResult)
      → Preserves (with_result minor_units reads_as_zero p o)
  with_result-Preserves p none s h = record { consistent = h.consistent; fresh = h.fresh }
  with_result-Preserves p (some r) s h =
      >>=-Preserves (conversation p) (look_up_payout minor_units reads_as_zero r) (λ u k. k)
        (look_up_payout-Preserves r) s h

  record_payment-Preserves :
      (tenant : ℕ) (channel : TransactionChannel) (amount : ℤ) (msisdn receipt : String)
      → Preserves (record_payment minor_units reads_as_zero tenant channel amount msisdn receipt)
  record_payment-Preserves tenant channel amount msisdn receipt =
      let m = record_inbound_settlement tenant channel amount msisdn receipt in
      >>=-Preserves (transaction m) recorded
        (transaction-Preserves m
          (record_inbound_settlement-IsSound tenant channel amount msisdn receipt))
        (λ t s h. record { consistent = h.consistent; fresh = h.fresh })

  with_msisdn-Preserves :
      (c : C2bConfirmation) (tenant : ℕ) (amount : ℤ) (msisdn : String)
      → Preserves (with_msisdn minor_units reads_as_zero c tenant amount msisdn)
  with_msisdn-Preserves c tenant amount msisdn =
      let channel = c2b_channel c.transaction_type in
      >>=-Preserves (await (required c.trans_id))
        (record_payment minor_units reads_as_zero tenant channel amount msisdn) (λ s h. h)
        (record_payment-Preserves tenant channel amount msisdn)

  with_amount-Preserves :
      (c : C2bConfirmation) (tenant : ℕ) (amount : ℤ)
      → Preserves (with_amount minor_units reads_as_zero c tenant amount)
  with_amount-Preserves c tenant amount =
      >>=-Preserves (await (required c.msisdn))
        (with_msisdn minor_units reads_as_zero c tenant amount) (λ s h. h)
        (with_msisdn-Preserves c tenant amount)

  route-Preserves :
      (c : C2bConfirmation) (ms : List TenantShortcode)
      → Preserves (route minor_units reads_as_zero c ms)
  route-Preserves c [] s h = record { consistent = h.consistent; fresh = h.fresh }
  route-Preserves c (m ∷ []) s h =
      >>=-Preserves (await (amount_or_nan (minor_units c.trans_amount)))
        (with_amount minor_units reads_as_zero c m.tenant_id) (λ u k. k)
        (with_amount-Preserves c m.tenant_id) s h
  route-Preserves c (m ∷ n ∷ rest) s h = record { consistent = h.consistent; fresh = h.fresh }

  process_c2b_confirmation-Preserves :
      (c : C2bConfirmation) → Preserves (process_c2b_confirmation minor_units reads_as_zero c)
  unfolding process_c2b_confirmation
  process_c2b_confirmation-Preserves c =
      >>=-Preserves (await (shortcode_filter c.business_short_code))
        (with_filter minor_units reads_as_zero c) (λ s h. h) (λ p s h. route-Preserves c _ s h)

  process_b2c_result-Preserves :
      (p : DarajaPayload) → Preserves (process_b2c_result minor_units reads_as_zero p)
  unfolding process_b2c_result
  process_b2c_result-Preserves p = with_result-Preserves p p.result

  -- Whatever callback is processed, of any source and with any payload, the payment tables stay
  -- sound, also if its handler throws, however JavaScript reads the numbers in it.
  pub dispatch-Preserves :
      (source : WebhookSource) (p : DarajaPayload) (s : Store)
      → IsSound s
      → IsSound (dispatch minor_units reads_as_zero source p s).1
  unfolding dispatch
  dispatch-Preserves daraja_stk_callback p = process_stk_callback-Preserves p
  dispatch-Preserves daraja_c2b_confirmation p = process_c2b_confirmation-Preserves p.confirmation
  dispatch-Preserves daraja_b2c_result p = process_b2c_result-Preserves p
  dispatch-Preserves daraja_b2c_timeout p = process_b2c_timeout-Preserves p
  dispatch-Preserves daraja_transaction_status_result p =
      process_transaction_status_result-Preserves p
  dispatch-Preserves daraja_transaction_status_timeout p =
      process_transaction_status_timeout-Preserves p
