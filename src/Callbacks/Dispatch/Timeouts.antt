-- ===== src/Callbacks/Dispatch/Timeouts.antt =====
-- The callbacks that only report: a queue timeout, and both answers to a status query.
use script_pay_backend.Shared.{String, Bool, true, false, Option, none, some, ◌≡◌, refl}
use script_pay_backend.Shared.Int.{ℤ}
use script_pay_backend.Store.Rows.{Store, Transaction, PayoutStatusQuery}
use script_pay_backend.Store.Tx.{Result, ok, err}
use script_pay_backend.Store.Action.{Action, await, ◌>>=◌}
use script_pay_backend.Callbacks.Payload.{
  Value, DarajaPayload, WebhookSource, daraja_stk_callback, daraja_c2b_confirmation,
  daraja_b2c_result, daraja_b2c_timeout, daraja_transaction_status_result,
  daraja_transaction_status_timeout,
}
use script_pay_backend.Callbacks.Handlers.{
  timed_out, look_up_timeout, process_b2c_timeout, close_as,
}
use script_pay_backend.Callbacks.Dispatch.{
  found_query, look_up_query, process_transaction_status_result, close_timed_out,
  process_transaction_status_timeout, dispatch,
}

-- The sources whose callbacks decide nothing about a payment.
abbrev pub reports_only : WebhookSource → Bool
reports_only daraja_stk_callback = false
reports_only daraja_c2b_confirmation = false
reports_only daraja_b2c_result = false
reports_only daraja_b2c_timeout = true
reports_only daraja_transaction_status_result = true
reports_only daraja_transaction_status_timeout = true

-- No payment, ledger entry, reconciliation record or notice to a tenant has changed.
pub record Untouched (s u : Store) : Type 0 where
  pub transactions : u.transactions ≡ s.transactions
  pub ledger : u.ledger_entries ≡ s.ledger_entries
  pub records : u.reconciliation_records ≡ s.reconciliation_records
  pub deliveries : u.webhook_deliveries ≡ s.webhook_deliveries

timed_out-Untouched : (o : Option Transaction) (s : Store) → Untouched s (timed_out o s).1
timed_out-Untouched none s = record {
  transactions = refl;
  ledger = refl;
  records = refl;
  deliveries = refl;
}
timed_out-Untouched (some t) s = record {
  transactions = refl;
  ledger = refl;
  records = refl;
  deliveries = refl;
}

look_up_timeout-Untouched : (o : Option String) (s : Store) → Untouched s (look_up_timeout o s).1
look_up_timeout-Untouched none s = record {
  transactions = refl;
  ledger = refl;
  records = refl;
  deliveries = refl;
}
look_up_timeout-Untouched (some id) s = timed_out-Untouched _ s

close_as-Untouched :
    (action : String) (o : Option PayoutStatusQuery) (s : Store)
    → Untouched s (close_as action o s).1
close_as-Untouched action none s = record {
  transactions = refl;
  ledger = refl;
  records = refl;
  deliveries = refl;
}
close_as-Untouched action (some q) s = record {
  transactions = refl;
  ledger = refl;
  records = refl;
  deliveries = refl;
}

found_query-Untouched : (o : Option PayoutStatusQuery) (s : Store) → Untouched s (found_query o s).1
found_query-Untouched none s = record {
  transactions = refl;
  ledger = refl;
  records = refl;
  deliveries = refl;
}
found_query-Untouched (some q) s = record {
  transactions = refl;
  ledger = refl;
  records = refl;
  deliveries = refl;
}

look_up_query-Untouched : (o : Option String) (s : Store) → Untouched s (look_up_query o s).1
look_up_query-Untouched none s = record {
  transactions = refl;
  ledger = refl;
  records = refl;
  deliveries = refl;
}
look_up_query-Untouched (some id) s = found_query-Untouched _ s

close_timed_out-Untouched : (o : Option String) (s : Store) → Untouched s (close_timed_out o s).1
close_timed_out-Untouched none s = close_as-Untouched _ none s
close_timed_out-Untouched (some id) s = close_as-Untouched _ _ s

-- A handler that looks its row up by a conversation id changes what its second half changes.
looked_up-Untouched :
    (r : Result (Option String)) (f : Option String → Action (Unit {0})) (s : Store)
    → ((o : Option String) → Untouched s (f o s).1)
    → Untouched s ((await r >>= f) s).1
looked_up-Untouched (ok o) f s h = h o
looked_up-Untouched (err e) f s h = record {
  transactions = refl;
  ledger = refl;
  records = refl;
  deliveries = refl;
}

-- A queue timeout of a payout and both answers to a status query, whatever their payload and
-- whether or not the handler throws, leave every transaction, ledger entry, reconciliation record
-- and tenant delivery as it is: no reservation is released on a timeout.
pub dispatch-Untouched :
    (minor_units : Option Value → Option ℤ) (reads_as_zero : String → Bool) (source : WebhookSource)
    (p : DarajaPayload) (s : Store)
    → reports_only source ≡ true
    → Untouched s (dispatch minor_units reads_as_zero source p s).1
unfolding dispatch process_b2c_timeout process_transaction_status_result
    process_transaction_status_timeout
dispatch-Untouched m z daraja_b2c_timeout p s h =
    looked_up-Untouched _ look_up_timeout s (λ o. look_up_timeout-Untouched o s)
dispatch-Untouched m z daraja_transaction_status_result p s h =
    looked_up-Untouched _ look_up_query s (λ o. look_up_query-Untouched o s)
dispatch-Untouched m z daraja_transaction_status_timeout p s h =
    looked_up-Untouched _ close_timed_out s (λ o. close_timed_out-Untouched o s)
dispatch-Untouched m z daraja_stk_callback p s h = cc
dispatch-Untouched m z daraja_c2b_confirmation p s h = cc
dispatch-Untouched m z daraja_b2c_result p s h = cc
