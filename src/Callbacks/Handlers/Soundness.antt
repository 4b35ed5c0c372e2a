-- ===== src/Callbacks/Handlers/Soundness.antt =====
-- The handlers keep the payment tables sound, and the handlers of timeouts write no payment table.
use script_pay_backend.Shared.{ℕ, String, Bool, true, false, Option, none, some}
use script_pay_backend.Shared.Int.{ℤ}
use script_pay_backend.Store.Rows.{Store, Transaction, TransactionChannel, PayoutStatusQuery}
use script_pay_backend.Store.Tx.{Tx, Result, ok, err}
use script_pay_backend.Store.Action.{Action, transaction, await, ◌>>=◌}
use script_pay_backend.StateMachine.{
  transition_to_settled, record_inbound_settlement, transition_to_failed,
  transition_payout_to_settled, transition_payout_to_failed,
}
use script_pay_backend.StateMachine.Consistency.{
  Keeps, transition_to_settled-AgreesAt, record_inbound_settlement-AgreesAt,
}
use script_pay_backend.StateMachine.Fresh.{
  transition_to_settled-FreshAt, record_inbound_settlement-FreshAt,
}
use script_pay_backend.StateMachine.Soundness.{
  IsSound, Keeps-IsSound, transaction-keeps, Call, run_call-IsSound,
}
use script_pay_backend.Callbacks.Payload.{StkCallback, DarajaResult, DarajaPayload}
use script_pay_backend.Callbacks.Handlers.{
  settled_stk, settle_stk, failed_stk, apply_stk, found_stk, with_checkout, with_stk,
  process_stk_callback, conversation, settled_payout, failed_payout, apply_payout, timed_out,
  look_up_timeout, process_b2c_timeout, close_as,
}

abbrev SoundAfter : {A : Type 0} → Result A × Store → Type 0
SoundAfter o = IsSound o.1

-- A method that leaves sound tables sound, also if it throws.
abbrev pub Preserves : {A : Type 0} → Action A → Type 0
Preserves m = (s : Store) → IsSound s → IsSound (m s).1

pub >>=-Preserves :
    {A B : Type 0} (m : Action A) (f : A → Action B)
    → Preserves m
    → ((a : A) → Preserves (f a))
    → Preserves (m >>= f)
>>=-Preserves {A} {B} m f h k s sound = go (m s).0 (m s).1 (h s sound)
  where
    go :
        (r : Result A) (t : Store)
        → IsSound t
        → SoundAfter {A = B} (elim r [ ok a ↦ f a t | err e ↦ (err e, t) ])
    go (ok a) t p = k a t p
    go (err e) t p = p

pub transaction-Preserves :
    {A : Type 0} (m : Tx A)
    → ((s : Store) → IsSound s → Keeps IsSound (m s))
    → Preserves (transaction m)
transaction-Preserves m h s sound = transaction-keeps IsSound m s (h s sound) sound

transition_to_settled-IsSound :
    (id : ℕ) (r : Option String) (s : Store)
    → IsSound s
    → Keeps IsSound (transition_to_settled id r s)
transition_to_settled-IsSound id r s h =
    Keeps-IsSound _ (λ sel a. transition_to_settled-AgreesAt sel a id r s (h.consistent sel a))
      (λ n. transition_to_settled-FreshAt n id r s (h.fresh n))

pub record_inbound_settlement-IsSound :
    (tenant : ℕ) (channel : TransactionChannel) (amount : ℤ) (msisdn receipt : String) (s : Store)
    → IsSound s
    → Keeps IsSound (record_inbound_settlement tenant channel amount msisdn receipt s)
record_inbound_settlement-IsSound tenant channel amount msisdn receipt s h =
    Keeps-IsSound _
      (λ sel a.
        record_inbound_settlement-AgreesAt sel a tenant channel amount msisdn receipt s
          (h.consistent sel a))
      (λ n. record_inbound_settlement-FreshAt n tenant channel amount msisdn receipt s (h.fresh n))

settled_stk-Preserves :
    (t : Transaction) (r : Option String) (b : Bool) → Preserves (settled_stk t r b)
settled_stk-Preserves t r true s h = record { consistent = h.consistent; fresh = h.fresh }
settled_stk-Preserves t r false s h = record { consistent = h.consistent; fresh = h.fresh }

settle_stk-Preserves : (t : Transaction) (r : Option String) → Preserves (settle_stk t r)
settle_stk-Preserves t r =
    >>=-Preserves (transaction (transition_to_settled t.id r)) (settled_stk t r)
      (transaction-Preserves (transition_to_settled t.id r) (transition_to_settled-IsSound t.id r))
      (settled_stk-Preserves t r)

apply_stk-Preserves : (c : StkCallback) (t : Transaction) (b : Bool) → Preserves (apply_stk c t b)
apply_stk-Preserves c t true =
    >>=-Preserves (await _) (settle_stk t) (λ s h. h) (settle_stk-Preserves t)
apply_stk-Preserves c t false =
    >>=-Preserves (transaction (transition_to_failed t.id _)) (failed_stk t)
      (transaction-Preserves (transition_to_failed t.id _)
        (run_call-IsSound (Call.fail_collection t.id _)))
      (λ u s h. record { consistent = h.consistent; fresh = h.fresh })

found_stk-Preserves : (c : StkCallback) (o : Option Transaction) → Preserves (found_stk c o)
found_stk-Preserves c none s h = record { consistent = h.consistent; fresh = h.fresh }
found_stk-Preserves c (some t) s h = apply_stk-Preserves c t _ s h

with_checkout-Preserves : (c : StkCallback) (o : Option String) → Preserves (with_checkout c o)
with_checkout-Preserves c none s h = h
with_checkout-Preserves c (some id) s h = found_stk-Preserves c _ s h

with_stk-Preserves : (o : Option StkCallback) → Preserves (with_stk o)
with_stk-Preserves none s h = h
with_stk-Preserves (some c) s h = with_checkout-Preserves c c.checkout_request_id s h

pub process_stk_callback-Preserves : (p : DarajaPayload) → Preserves (process_stk_callback p)
unfolding process_stk_callback
process_stk_callback-Preserves p = with_stk-Preserves p.stk_callback

pub apply_payout-Preserves :
    (r : DarajaResult) (t : Transaction) (b : Bool) → Preserves (apply_payout r t b)
apply_payout-Preserves r t true =
    >>=-Preserves (transaction (transition_payout_to_settled t.id _)) (settled_payout t)
      (transaction-Preserves (transition_payout_to_settled t.id _)
        (run_call-IsSound (Call.settle_payout t.id _)))
      (λ u s h. record { consistent = h.consistent; fresh = h.fresh })
apply_payout-Preserves r t false =
    >>=-Preserves (transaction (transition_payout_to_failed t.id _)) (failed_payout t)
      (transaction-Preserves (transition_payout_to_failed t.id _)
        (run_call-IsSound (Call.fail_payout t.id _)))
      (λ u s h. record { consistent = h.consistent; fresh = h.fresh })

timed_out-Preserves : (o : Option Transaction) → Preserves (timed_out o)
timed_out-Preserves none s h = record { consistent = h.consistent; fresh = h.fresh }
timed_out-Preserves (some t) s h = record { consistent = h.consistent; fresh = h.fresh }

look_up_timeout-Preserves : (o : Option String) → Preserves (look_up_timeout o)
look_up_timeout-Preserves none s h = record { consistent = h.consistent; fresh = h.fresh }
look_up_timeout-Preserves (some id) s h = timed_out-Preserves _ s h

pub process_b2c_timeout-Preserves : (p : DarajaPayload) → Preserves (process_b2c_timeout p)
unfolding process_b2c_timeout
process_b2c_timeout-Preserves p =
    >>=-Preserves (conversation p) look_up_timeout (λ s h. h) look_up_timeout-Preserves

pub close_as-Preserves :
    (action : String) (o : Option PayoutStatusQuery) → Preserves (close_as action o)
close_as-Preserves action none s h = record { consistent = h.consistent; fresh = h.fresh }
close_as-Preserves action (some q) s h = record { consistent = h.consistent; fresh = h.fresh }
