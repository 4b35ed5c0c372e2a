-- ===== src/Payments/B2c.antt =====
-- src/modules/payments/b2c/b2c.service.ts: a payout is reserved, sent to Safaricom, and released
-- again if Safaricom does not take it.
pub mod Consistency
pub mod Requests
pub mod Authorization
pub mod Races
use script_pay_backend.Shared.{
  ℕ, String, Bool, true, false, ◌&&◌, Option, none, some, ◌==◌, find, truthy, clashes,
  if◌then◌else◌,
}
use script_pay_backend.Shared.Int.{ℤ}
use script_pay_backend.Store.Rows.{
  Store, Transaction, TransactionStatus, TransactionChannel, outbound, pending, processing,
  new_transaction, Error, unique_violation, Reason, message, critical, warning,
}
use script_pay_backend.Store.Tx
use script_pay_backend.Store.Tx.{Tx, Result}
use script_pay_backend.Store.Action.{
  Action, pure, throw, gets, modify, transaction, try_catch, record_audit, send_alert, await, ◌>>=◌,
  ◌>>◌,
}
use script_pay_backend.Store.Tables.{update_transaction, create_transaction, create_ledger_entries}
use script_pay_backend.Ledger.{
  Client, interactive, assert_sufficient_balance, reservation_entries, release_entries,
}
use script_pay_backend.StateMachine.{fail_with}
use script_pay_backend.Payments.Safaricom.{CommandId, B2cRequest, Daraja, Elsewhere}

pub record InitiateB2cDto : Type 0 where
  pub shortcode_id : ℕ
  pub msisdn : String
  pub amount_minor_units : ℤ
  pub remarks : String
  pub occasion : Option String
  pub command_id : CommandId
  pub metadata : Option String
  pub idempotency_key : Option String

-- What the caller is told.
pub record Outcome : Type 0 where
  pub transaction_id : ℕ
  pub status : TransactionStatus

abbrev pub outcome_of : Transaction → Outcome
outcome_of t = record { transaction_id = t.id; status = t.status }

abbrev pub has_key : ℕ → Option String → Transaction → Bool
has_key tenant key t = t.tenant_id == tenant && clashes t.idempotency_key key

-- `findByIdempotencyKey`.
abbrev pub find_by_idempotency_key : ℕ → Option String → Store → Option Transaction
find_by_idempotency_key tenant key s = find (has_key tenant key) s.transactions

-- The row of a payout, before it has an id.
abbrev pub new_payout : ℕ → InitiateB2cDto → String → Transaction
new_payout tenant dto conversation =
    let d = new_transaction tenant TransactionChannel.b2c dto.amount_minor_units dto.msisdn in
    record d {
      direction = outbound;
      originator_conversation_id = some conversation;
      idempotency_key = dto.idempotency_key;
      payout_remarks = some dto.remarks;
      payout_occasion = dto.occasion;
      metadata = dto.metadata;
    }

-- Step 1: lock, check, create and debit in one transaction.
unfoldable pub reserve : ℕ → InitiateB2cDto → String → Tx Transaction
unfolding create_transaction create_ledger_entries
reserve tenant dto conversation =
    Tx.◌>>=◌ (assert_sufficient_balance interactive tenant dto.amount_minor_units) λ available.
      Tx.◌>>=◌ (create_transaction (new_payout tenant dto conversation)) λ created.
        Tx.◌>>◌
          (create_ledger_entries (reservation_entries tenant created.id dto.amount_minor_units))
          (Tx.pure created)

-- The payout that a request owns, or the one that an earlier request with its key owns.
pub data Reservation : Type 0 where
  reserved replayed : Transaction → Reservation

abbrev keep_reserved : Transaction → Action Reservation
keep_reserved t = pure (reserved t)

abbrev or_rethrow : Error → Option Transaction → Action Reservation
or_rethrow e (some existing) = pure (replayed existing)
or_rethrow e none = throw e

-- The `catch` around the reservation: a violated unique key is a replay if a key was sent.
abbrev on_reserve_error : ℕ → InitiateB2cDto → Error → Action Reservation
on_reserve_error tenant dto unique_violation =
    if truthy dto.idempotency_key
    then (gets (find_by_idempotency_key tenant dto.idempotency_key) >>= or_rethrow unique_violation)
    else throw unique_violation
on_reserve_error tenant dto e = throw e

unfoldable pub reserve_or_replay : ℕ → InitiateB2cDto → String → Action Reservation
unfolding reserve
reserve_or_replay tenant dto conversation =
    try_catch (transaction (reserve tenant dto conversation) >>= keep_reserved)
      (on_reserve_error tenant dto)

abbrev pub accept : Option String → Transaction → Transaction
accept conversation t = record t { status = processing; conversation_id = conversation }

-- `releaseReservation`.
unfoldable pub release_reservation : ℕ → ℕ → Reason → Tx (Unit {0})
unfolding update_transaction create_ledger_entries release_entries
release_reservation tenant id reason =
    Tx.◌>>=◌ (update_transaction id (fail_with reason))
      λ t. create_ledger_entries (release_entries tenant id t.amount_minor_units)

module _ (daraja : Daraja) (elsewhere : Elsewhere) (tenant : ℕ) (dto : InitiateB2cDto)
    (actor : Option ℕ) where
  open daraja use {payout_credentials, initiate_b2c}

  abbrev request : String → B2cRequest
  request conversation = record {
    originator_conversation_id = conversation;
    amount_minor_units = dto.amount_minor_units;
    msisdn = dto.msisdn;
    command_id = dto.command_id;
    remarks = dto.remarks;
    occasion = dto.occasion;
  }

  abbrev report_initiated : Transaction → Transaction → Action Outcome
  report_initiated t row = do
    record_audit (record {
      tenant_id = some tenant;
      actor_id = actor;
      action = "daraja.b2c_initiated";
      target_id = some t.id;
    })
    pure (record { transaction_id = t.id; status = processing })

  -- Step 3: accepted into Safaricom's queue.
  abbrev store_answer : Transaction → String → Action Outcome
  store_answer t answer =
      transaction (update_transaction t.id (accept (some answer))) >>= report_initiated t

  -- Step 2: the call, outside any transaction.
  abbrev call_daraja : String → Transaction → daraja.Credentials → Action Outcome
  call_daraja conversation t c = do
    modify elsewhere.during_call
    answer ← await (initiate_b2c c (request conversation))
    store_answer t answer

  unfoldable pub send : String → Transaction → Action Outcome
  unfolding update_transaction
  send conversation t = do
    credentials ← gets (payout_credentials tenant dto.shortcode_id)
    c ← await credentials
    call_daraja conversation t c

  abbrev report_failed : Transaction → Error → Unit {0} → Action Outcome
  report_failed t e released = do
    record_audit (record {
      tenant_id = some tenant;
      actor_id = actor;
      action = "daraja.b2c_failed";
      target_id = some t.id;
    })
    send_alert (record {
      title = "B2C payout initiation failed";
      severity = warning;
      transaction_id = some t.id;
    })
    throw e

  -- The `catch` around them: the funds go back, and the error goes on.
  unfoldable pub give_up : Transaction → Error → Action Outcome
  unfolding release_reservation
  give_up t e = transaction (release_reservation tenant t.id (message e)) >>= report_failed t e

  abbrev proceed : String → Reservation → Action Outcome
  proceed conversation (replayed existing) = pure (outcome_of existing)
  proceed conversation (reserved t) = try_catch (send conversation t) (give_up t)

  unfoldable pub initiate_new : String → Action Outcome
  unfolding reserve_or_replay send give_up
  initiate_new conversation = do
    modify elsewhere.before_write
    r ← reserve_or_replay tenant dto conversation
    proceed conversation r

  abbrev replay_or : Option Transaction → Action Outcome → Action Outcome
  replay_or (some existing) rest = pure (outcome_of existing)
  replay_or none rest = rest

  -- `initiate`; `conversation` is the `randomUUID()` of this request.
  unfoldable pub initiate : String → Action Outcome
  unfolding initiate_new
  initiate conversation = do
    s ← gets (λ s. s)
    if truthy dto.idempotency_key
        then replay_or (find_by_idempotency_key tenant dto.idempotency_key s)
            (initiate_new conversation)
        else initiate_new conversation
