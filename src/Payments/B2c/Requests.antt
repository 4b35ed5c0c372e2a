-- ===== src/Payments/B2c/Requests.antt =====
-- Every path of a payout request leaves the ledger in agreement with the statuses.
use script_pay_backend.Shared.{ℕ, String, Option, none, some, Bool-cases, inl, inr, truthy}
use script_pay_backend.Store.Rows.{Store, Transaction, message, Error, unique_violation}
use script_pay_backend.Store.Tx.{Result, ok, err}
use script_pay_backend.Store.Tables.{update_transaction}
use script_pay_backend.StateMachine.Soundness.{IsSound}
use script_pay_backend.Store.Outcomes.{
  Leaves, Ends, >>=-Ends, transaction-Ends, try_catch-Ends, await-Ends,
}
use script_pay_backend.Store.Action.{await, transaction, ◌>>=◌}
use script_pay_backend.Payments.Safaricom.{Daraja, Elsewhere}
use script_pay_backend.Payments.B2c.{
  InitiateB2cDto, Outcome, reserve, Reservation, reserved, replayed, reserve_or_replay,
  on_reserve_error, or_rethrow, find_by_idempotency_key, replay_or, request, accept, call_daraja,
  store_answer, report_initiated, report_failed, keep_reserved, proceed, release_reservation, send,
  give_up, initiate_new, initiate,
}
use script_pay_backend.Payments.B2c.Consistency.{
  reserve-IsSound, IsWaiting, accept-IsSound, release_reservation-IsSound, Waits, reserve-Waits,
}

-- What other requests and jobs commit meanwhile keeps the tables sound, and leaves a payout of this
-- tenant alone while it waits for Safaricom's answer to its request.
pub record IsOrderly (elsewhere : Elsewhere) (tenant : ℕ) : Type 0 where
  pub keeps_before : (s : Store) → IsSound s → IsSound (elsewhere.before_write s)
  pub keeps_during : (s : Store) → IsSound s → IsSound (elsewhere.during_call s)
  pub leaves_alone :
      (t : Transaction) (s : Store)
      → IsWaiting tenant t s
      → IsWaiting tenant t (elsewhere.during_call s)

module _ (daraja : Daraja) (elsewhere : Elsewhere) (tenant : ℕ) (dto : InitiateB2cDto)
    (actor : Option ℕ) where
  open daraja use {payout_credentials, initiate_b2c}

  abbrev NowSound : {A : Type 0} → A → Store → Type 0
  NowSound x s = IsSound s

  abbrev SoundAndWaiting : Transaction → Store → Type 0
  SoundAndWaiting t s = IsSound s × IsWaiting tenant t s

  abbrev StillWaiting : {A : Type 0} → Transaction → A → Store → Type 0
  StillWaiting t x s = SoundAndWaiting t s

  -- Whether `send` answers or throws, what it leaves is sound, and if it throws the payout waits.
  send-Ends :
      (conversation : String) (t : Transaction) (s : Store)
      → IsOrderly elsewhere tenant
      → SoundAndWaiting t s
      → Ends NowSound (StillWaiting t) (send daraja elsewhere tenant dto actor conversation t s)
  unfolding send
  send-Ends conversation t s o (h, w) =
      let call = payout_credentials tenant dto.shortcode_id s in
      >>=-Ends (StillWaiting t) NowSound (StillWaiting t) (await call)
        (call_daraja daraja elsewhere tenant dto actor conversation t) s
        (await-Ends (StillWaiting t) (StillWaiting t) call s (λ c. (h, w)) (λ e. (h, w)))
        (λ c u (hu, wu).
          let v = elsewhere.during_call u in
          let hv = o.keeps_during u hu in
          let wv = o.leaves_alone t u wu in
          let answered = initiate_b2c c (request daraja elsewhere tenant dto actor conversation) in
          >>=-Ends (StillWaiting t) NowSound (StillWaiting t) (await answered)
            (store_answer daraja elsewhere tenant dto actor t) v
            (await-Ends (StillWaiting t) (StillWaiting t) answered v (λ x. (hv, wv))
              (λ e. (hv, wv)))
            (λ answer x (hx, wx).
              let stored = update_transaction t.id (accept (some answer)) in
              >>=-Ends NowSound NowSound (StillWaiting t) (transaction stored)
                (report_initiated daraja elsewhere tenant dto actor t) x
                (transaction-Ends NowSound (StillWaiting t) stored x
                  (accept-IsSound (some answer) tenant t x wx hx) (λ e. (hx, wx)))
                (λ y z hz. record { consistent = hz.consistent; fresh = hz.fresh })))

  -- The `catch` releases the reservation and throws the error again.
  give_up-Ends :
      (t : Transaction) (e : Error) (s : Store)
      → SoundAndWaiting t s
      → Ends NowSound NowSound (give_up daraja elsewhere tenant dto actor t e s)
  unfolding give_up
  give_up-Ends t e s (h, w) =
      let release = release_reservation tenant t.id (message e) in
      >>=-Ends NowSound NowSound NowSound (transaction release)
        (report_failed daraja elsewhere tenant dto actor t e) s
        (transaction-Ends NowSound NowSound release s
          (release_reservation-IsSound (message e) tenant t s w h) (λ x. h))
        (λ x u hu. record { consistent = hu.consistent; fresh = hu.fresh })

  abbrev IsReady : Reservation → Store → Type 0
  IsReady (reserved t) s = SoundAndWaiting t s
  IsReady (replayed t) s = IsSound s

  reserve-Leaves :
      (conversation : String) (s : Store)
      → IsSound s
      → Leaves SoundAndWaiting (reserve tenant dto conversation s)
  reserve-Leaves conversation s h =
      go (reserve tenant dto conversation s) (reserve-IsSound tenant dto conversation s h)
        (reserve-Waits tenant dto conversation s h.fresh)
    where
      go :
          (r : Result (Transaction × Store))
          → Leaves (λ t. IsSound) r
          → Waits tenant r
          → Leaves SoundAndWaiting r
      go (ok (t, u)) k w = (k, w)
      go (err e) k w = tt

  on_reserve_error-Ends :
      (e : Error) (s : Store) → IsSound s → Ends IsReady NowSound (on_reserve_error tenant dto e s)
  on_reserve_error-Ends unique_violation s h = elim (Bool-cases (truthy dto.idempotency_key)) [
    | inl keyed ↦ rw keyed (looked_up (find_by_idempotency_key tenant dto.idempotency_key s))
    | inr unkeyed ↦ rw unkeyed h
  ]
    where
      looked_up :
          (found : Option Transaction) → Ends IsReady NowSound (or_rethrow unique_violation found s)
      looked_up none = h
      looked_up (some t) = h
  on_reserve_error-Ends _ s h = h

  reserve_or_replay-Ends :
      (conversation : String) (s : Store)
      → IsSound s
      → Ends IsReady NowSound (reserve_or_replay tenant dto conversation s)
  unfolding reserve_or_replay
  reserve_or_replay-Ends conversation s h =
      let m = reserve tenant dto conversation in
      try_catch-Ends IsReady NowSound NowSound (transaction m >>= keep_reserved)
        (on_reserve_error tenant dto) s
        (>>=-Ends SoundAndWaiting IsReady NowSound (transaction m) keep_reserved s
          (transaction-Ends SoundAndWaiting NowSound m s (reserve-Leaves conversation s h) (λ e. h))
          (λ t u k. k))
        on_reserve_error-Ends

  proceed-Ends :
      (conversation : String) (r : Reservation) (s : Store)
      → IsOrderly elsewhere tenant
      → IsReady r s
      → Ends NowSound NowSound (proceed daraja elsewhere tenant dto actor conversation r s)
  proceed-Ends conversation (replayed t) s o h = h
  proceed-Ends conversation (reserved t) s o h =
      try_catch-Ends NowSound NowSound (StillWaiting t)
        (send daraja elsewhere tenant dto actor conversation t)
        (give_up daraja elsewhere tenant dto actor t) s (send-Ends conversation t s o h)
        (give_up-Ends t)

  initiate_new-Ends :
      (conversation : String) (s : Store)
      → IsOrderly elsewhere tenant
      → IsSound s
      → Ends NowSound NowSound (initiate_new daraja elsewhere tenant dto actor conversation s)
  unfolding initiate_new
  initiate_new-Ends conversation s o h =
      let u = elsewhere.before_write s in
      >>=-Ends IsReady NowSound NowSound (reserve_or_replay tenant dto conversation)
        (proceed daraja elsewhere tenant dto actor conversation) u
        (reserve_or_replay-Ends conversation u (o.keeps_before s h))
        (λ r t k. proceed-Ends conversation r t o k)

  initiate-Ends :
      (conversation : String) (s : Store)
      → IsOrderly elsewhere tenant
      → IsSound s
      → Ends NowSound NowSound (initiate daraja elsewhere tenant dto actor conversation s)
  unfolding initiate
  initiate-Ends conversation s o h = elim (Bool-cases (truthy dto.idempotency_key)) [
    | inl keyed ↦ rw keyed (looked_up (find_by_idempotency_key tenant dto.idempotency_key s))
    | inr unkeyed ↦ rw unkeyed (initiate_new-Ends conversation s o h)
  ]
    where
      looked_up :
          (found : Option Transaction)
          → Ends NowSound NowSound (
              replay_or daraja elsewhere tenant dto actor found
                (initiate_new daraja elsewhere tenant dto actor conversation)
                s)
      looked_up none = initiate_new-Ends conversation s o h
      looked_up (some t) = h

  -- A payout request keeps the tables sound however it ends (a replay, a refusal, an acceptance, or
  -- a rejection after which the reservation is released), whatever Safaricom answers, and with other
  -- requests committing in between, if those keep the tables sound and leave this tenant's waiting
  -- payout alone.
  pub initiate-IsSound :
      (conversation : String) (s : Store)
      → IsOrderly elsewhere tenant
      → IsSound s
      → IsSound (initiate daraja elsewhere tenant dto actor conversation s).1
  initiate-IsSound conversation s o h =
      either_way (initiate daraja elsewhere tenant dto actor conversation s).0 _
        (initiate-Ends conversation s o h)
    where
      either_way : (r : Result Outcome) (t : Store) → Ends NowSound NowSound (r, t) → IsSound t
      either_way (ok x) t k = k
      either_way (err e) t k = k
