-- ===== src/Payments/StkPush/Consistency.antt =====
-- A collection request posts nothing to the ledger, however it ends.
use mathlib.Core.List.{append-nil}
use script_pay_backend.Shared.{ℕ, some, [], ◌∷◌, ◌≡◌, refl, arith, find-append_none}
use script_pay_backend.Store.Rows.{
  Store, Transaction, LedgerAccount, message, Error, has_id, inbound, pending, Reason,
}
use script_pay_backend.Store.Tx.{Result, ok, err}
use script_pay_backend.Store.Action.{await, transaction}
use script_pay_backend.Store.Outcomes.{
  Leaves, Ends, >>=-Ends, transaction-Ends, try_catch-Ends, await-Ends,
}
use script_pay_backend.Store.Tables.{find_transaction, stamped, update_transaction}
use script_pay_backend.Ledger.Balance.{Selection, owed}
use script_pay_backend.StateMachine.{fail_with}
use script_pay_backend.StateMachine.Consistency.{
  Keeps, AgreesAt, create-AgreesAt, quiet_update-AgreesAt,
}
use script_pay_backend.StateMachine.Fresh.{FreshAt, IsFresh, update-FreshAt, append-FreshAt}
use script_pay_backend.StateMachine.Soundness.{IsSound, Keeps-IsSound}
use script_pay_backend.Payments.Safaricom.{StkPushResponse, Daraja, Elsewhere}
use script_pay_backend.Payments.B2c.{Outcome}
use script_pay_backend.Payments.StkPush.{
  InitiateStkPushDto, new_collection, open_collection, requested, request, report_initiated,
  store_answer, call_daraja, send, report_failed, give_up, proceed, initiate,
}

-- A collection whose row is there, inbound and pending.
pub record IsOpen (t : Transaction) (s : Store) : Type 0 where
  pub there : find_transaction t.id s ≡ some t
  pub is_collection : t.direction ≡ inbound
  pub is_pending : t.status ≡ pending

-- An update that keeps id and tenant, and posts nothing for the new status either.
module _ (f : Transaction → Transaction) (t : Transaction) (s : Store) (o : IsOpen t s) where
  quiet-IsSound :
      ((u : Transaction) → (f u).id ≡ u.id)
      → ((sel : Selection) (a : LedgerAccount) → owed sel a (stamped s.now f t) ≡ owed sel a t)
      → IsSound s
      → Keeps IsSound (update_transaction t.id f s)
  unfolding update_transaction
  quiet-IsSound same none_owed h =
      Keeps-IsSound _ (λ sel a. agrees sel a (none_owed sel a) (h.consistent sel a))
        (λ n. fresh n (h.fresh n))
    where
      agrees :
          (sel : Selection) (a : LedgerAccount)
          → owed sel a (stamped s.now f t) ≡ owed sel a t
          → AgreesAt sel a s
          → Keeps (AgreesAt sel a) (update_transaction t.id f s)
      agrees sel a q k =
          ground (arith, o.there, quiet_update-AgreesAt sel a (stamped s.now f) t s o.there q k)

      fresh : (n : ℕ) → FreshAt n s → Keeps (FreshAt n) (update_transaction t.id f s)
      fresh n k =
          ground (arith, o.there, update-FreshAt n t.id (stamped s.now f) s.transactions same)

requested-owed :
    (answer : StkPushResponse) (now : ℕ) (t : Transaction) (sel : Selection) (a : LedgerAccount)
    → t.direction ≡ inbound
    → t.status ≡ pending
    → owed sel a (stamped now (requested answer) t) ≡ owed sel a t
requested-owed answer now t sel a d p = ground arith

failed-owed :
    (reason : Reason) (now : ℕ) (t : Transaction) (sel : Selection) (a : LedgerAccount)
    → t.direction ≡ inbound
    → t.status ≡ pending
    → owed sel a (stamped now (fail_with reason) t) ≡ owed sel a t
failed-owed reason now t sel a d p = ground arith

module _ (tenant : ℕ) (dto : InitiateStkPushDto) where
  new-AgreesAt :
      (sel : Selection) (a : LedgerAccount) (s : Store)
      → AgreesAt sel a s
      → Keeps (AgreesAt sel a) (open_collection tenant dto s)
  unfolding open_collection
  new-AgreesAt sel a s h =
      let d = new_collection tenant dto in
      let t = record d { id = s.next_id; updated_at = s.now } in
      let posted = create-AgreesAt sel a t s [] (ground arith) h in
      let same = append-nil s.ledger_entries in ground arith

  new-FreshAt : (n : ℕ) (s : Store) → FreshAt n s → Keeps (FreshAt n) (open_collection tenant dto s)
  unfolding open_collection
  new-FreshAt n s h =
      let d = new_collection tenant dto in
      let t = record d { id = s.next_id; updated_at = s.now } in
      ground (arith, append-FreshAt n t s.transactions)

  abbrev SoundAndOpen : Transaction → Store → Type 0
  SoundAndOpen t s = IsSound s × IsOpen t s

  abbrev StillOpen : {A : Type 0} → Transaction → A → Store → Type 0
  StillOpen t x s = SoundAndOpen t s

  new-IsOpen : (s : Store) → IsFresh s → Leaves IsOpen (open_collection tenant dto s)
  unfolding open_collection
  new-IsOpen s fresh =
      let d = new_collection tenant dto in
      let t = record d { id = s.next_id; updated_at = s.now } in
      ground (
        arith,
        fresh s.next_id (omega arith),
        find-append_none (has_id s.next_id) s.transactions (t ∷ []),
      )

  open_collection-Leaves :
      (s : Store) → IsSound s → Leaves SoundAndOpen (open_collection tenant dto s)
  open_collection-Leaves s h =
      both (open_collection tenant dto s)
        (Keeps-IsSound _ (λ sel a. new-AgreesAt sel a s (h.consistent sel a))
          (λ n. new-FreshAt n s (h.fresh n)))
        (new-IsOpen s h.fresh)
    where
      both :
          (r : Result (Transaction × Store))
          → Keeps IsSound r
          → Leaves IsOpen r
          → Leaves SoundAndOpen r
      both (ok (t, u)) k w = (k, w)
      both (err e) k w = tt

-- What other requests and jobs commit during the call keeps the tables sound, and leaves an open
-- collection alone.
pub record IsOrderly (elsewhere : Elsewhere) : Type 0 where
  pub keeps_during : (s : Store) → IsSound s → IsSound (elsewhere.during_call s)
  pub leaves_alone : (t : Transaction) (s : Store) → IsOpen t s → IsOpen t (elsewhere.during_call s)

module _ (daraja : Daraja) (elsewhere : Elsewhere) (tenant : ℕ) (dto : InitiateStkPushDto) where
  open daraja use {payment_credentials, initiate_stk_push}

  abbrev NowSound : {A : Type 0} → A → Store → Type 0
  NowSound x s = IsSound s

  abbrev Waiting : {A : Type 0} → Transaction → A → Store → Type 0
  Waiting t x s = SoundAndOpen tenant dto t s

  send-Ends :
      (t : Transaction) (s : Store)
      → IsOrderly elsewhere
      → SoundAndOpen tenant dto t s
      → Ends NowSound (Waiting t) (send daraja elsewhere tenant dto t s)
  unfolding send
  send-Ends t s o (h, w) =
      let call = payment_credentials tenant dto.channel s in
      >>=-Ends (Waiting t) NowSound (Waiting t) (await call)
        (call_daraja daraja elsewhere tenant dto t) s
        (await-Ends (Waiting t) (Waiting t) call s (λ c. (h, w)) (λ e. (h, w)))
        (λ c u (hu, wu).
          let v = elsewhere.during_call u in
          let hv = o.keeps_during u hu in
          let wv = o.leaves_alone t u wu in
          let answered = initiate_stk_push c (request daraja elsewhere tenant dto) in
          >>=-Ends (Waiting t) NowSound (Waiting t) (await answered)
            (store_answer daraja elsewhere tenant dto t) v
            (await-Ends (Waiting t) (Waiting t) answered v (λ x. (hv, wv)) (λ e. (hv, wv)))
            (λ answer x (hx, wx).
              let stored = update_transaction t.id (requested answer) in
              >>=-Ends NowSound NowSound (Waiting t) (transaction stored)
                (report_initiated daraja elsewhere tenant dto t) x
                (transaction-Ends NowSound (Waiting t) stored x
                  (quiet-IsSound (requested answer) t x wx (λ k. refl)
                    (λ sel a. requested-owed answer x.now t sel a wx.is_collection wx.is_pending)
                    hx)
                  (λ e. (hx, wx)))
                (λ y z hz. record { consistent = hz.consistent; fresh = hz.fresh })))

  give_up-Ends :
      (t : Transaction) (e : Error) (s : Store)
      → SoundAndOpen tenant dto t s
      → Ends NowSound NowSound (give_up daraja elsewhere tenant dto t e s)
  unfolding give_up
  give_up-Ends t e s (h, w) =
      let stored = update_transaction t.id (fail_with (message e)) in
      >>=-Ends NowSound NowSound NowSound (transaction stored)
        (report_failed daraja elsewhere tenant dto t e) s
        (transaction-Ends NowSound NowSound stored s
          (quiet-IsSound (fail_with (message e)) t s w (λ k. refl)
            (λ sel a. failed-owed (message e) s.now t sel a w.is_collection w.is_pending) h)
          (λ x. h))
        (λ x u hu. record { consistent = hu.consistent; fresh = hu.fresh })

  initiate-Ends :
      (s : Store)
      → IsOrderly elsewhere
      → IsSound s
      → Ends NowSound NowSound (initiate daraja elsewhere tenant dto s)
  unfolding initiate
  initiate-Ends s o h =
      let opened = open_collection tenant dto in
      >>=-Ends (SoundAndOpen tenant dto) NowSound NowSound (transaction opened)
        (proceed daraja elsewhere tenant dto) s
        (transaction-Ends (SoundAndOpen tenant dto) NowSound opened s
          (open_collection-Leaves tenant dto s h) (λ e. h))
        (λ t u k.
          try_catch-Ends NowSound NowSound (Waiting t) (send daraja elsewhere tenant dto t)
            (give_up daraja elsewhere tenant dto t) u (send-Ends t u o k) (give_up-Ends t))

  -- A collection request keeps the tables sound whether Safaricom takes it or not: no money is
  -- posted before a confirmation, with other requests committing during the call, if those keep the
  -- tables sound and leave the open collection alone.
  pub initiate_collection-IsSound :
      (s : Store)
      → IsOrderly elsewhere
      → IsSound s
      → IsSound (initiate daraja elsewhere tenant dto s).1
  initiate_collection-IsSound s o h =
      either_way (initiate daraja elsewhere tenant dto s).0 _ (initiate-Ends s o h)
    where
      either_way : (r : Result Outcome) (t : Store) → Ends NowSound NowSound (r, t) → IsSound t
      either_way (ok x) t k = k
      either_way (err e) t k = k
