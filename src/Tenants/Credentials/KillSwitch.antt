-- ===== src/Tenants/Credentials/KillSwitch.antt =====
-- Payments of tenants that are suspended or removed.
use script_pay_backend.Shared.{ℕ, String, true, ◌≡◌, ◌⊎◌, refl, ap, ◌∙◌, Bool-cases, inl, inr}
use script_pay_backend.Store.Rows.{
  message, Transaction, Store, Tenant, ShortcodeType, Error, forbidden,
}
use script_pay_backend.Store.Tx.{Result, ok, err}
use script_pay_backend.Store.Action.{Action, ◌>>=◌, transaction, try_catch}
use script_pay_backend.Store.Outcomes.{>>=-returned, Ends, Leaves, >>=-Ends, transaction-Ends}
use script_pay_backend.Store.Tables.{collides_elsewhere, create_transaction, update_transaction}
use script_pay_backend.Payments.Safaricom.{
  Daraja, Elsewhere, PaymentChannel, StkPushRequest, StkPushResponse, B2cRequest, StkPushStatus,
  PayoutQueryResponse,
}
use script_pay_backend.StateMachine.{fail_with}
use script_pay_backend.Payments.B2c
use script_pay_backend.Payments.StkPush
use script_pay_backend.Payments.StkPush.{InitiateStkPushDto, open_collection, new_collection}
use script_pay_backend.Tenants.Access.{Vault}
use script_pay_backend.Tenants.Status.SelfService.{HasStatus}
use script_pay_backend.Tenants.Shortcodes.{find_tenant, find_tenant_found}
use script_pay_backend.Tenants.Credentials.{
  type_of, TenantMpesaCredentials, TenantPayoutCredentials, is_blocked, payment_credentials_of,
  payout_credentials_of, get_mpesa_credentials_for_payment, get_mpesa_credentials_for_payout,
}

-- What DarajaClient is called with.
pub data MpesaCredentials : Type 0 where
  collecting : TenantMpesaCredentials → MpesaCredentials
  paying : TenantPayoutCredentials → MpesaCredentials

-- The calls of DarajaClient, apart from where their credentials come from.
pub record Client : Type 0 where
  pub initiate_stk_push : MpesaCredentials → StkPushRequest → Result StkPushResponse
  pub initiate_b2c : MpesaCredentials → B2cRequest → Result String
  pub query_stk_push_status : MpesaCredentials → String → Result StkPushStatus
  pub query_payout_status : MpesaCredentials → String → Result PayoutQueryResponse

abbrev pub mapped : {A B : Type 0} → (A → B) → Result A → Result B
mapped f (ok a) = ok (f a)
mapped f (err e) = err e

-- The client as the payment services use it: with the credentials that TenantsService reads.
unfoldable pub connect : Vault → Client → Daraja
connect vault client = record {
  Credentials = MpesaCredentials;
  payment_credentials = λ tenant channel s.
      mapped MpesaCredentials.collecting
        (get_mpesa_credentials_for_payment vault tenant channel s).0;
  payout_credentials = λ tenant id s.
      mapped MpesaCredentials.paying (get_mpesa_credentials_for_payout vault tenant id s).0;
  initiate_stk_push = client.initiate_stk_push;
  initiate_b2c = client.initiate_b2c;
  query_stk_push_status = client.query_stk_push_status;
  query_payout_status = client.query_payout_status;
}

collecting_refused :
    (vault : Vault) (tenant : ℕ) (type : ShortcodeType) (row : Tenant) (s : Store)
    → is_blocked row.status ≡ true
    → payment_credentials_of vault tenant type row s ≡ (err forbidden, s)
collecting_refused vault tenant type row s stopped = rw stopped refl

paying_refused :
    (vault : Vault) (tenant id : ℕ) (row : Tenant) (s : Store)
    → is_blocked row.status ≡ true
    → payout_credentials_of vault tenant id row s ≡ (err forbidden, s)
paying_refused vault tenant id row s stopped = rw stopped refl

-- A status that stops payments.
abbrev pub IsStopped : String → Type 0
IsStopped status = (status ≡ "suspended") ⊎ (status ≡ "removed")

is_blocked_lem : (status : String) → IsStopped status → is_blocked status ≡ true
is_blocked_lem status (inl is) = rw is refl
is_blocked_lem status (inr is) = rw is refl

-- A suspended or removed tenant gets no credentials: neither to collect, on any channel, nor to
-- pay out, from any shortcode.
pub blocked_credentials :
    (vault : Vault) (tenant : ℕ) (status : String) (s : Store)
    → HasStatus tenant status s
    → IsStopped status
    → ((channel : PaymentChannel)
        → get_mpesa_credentials_for_payment vault tenant channel s ≡ (err forbidden, s))
      × ((id : ℕ) → get_mpesa_credentials_for_payout vault tenant id s ≡ (err forbidden, s))
unfolding get_mpesa_credentials_for_payment get_mpesa_credentials_for_payout
blocked_credentials vault tenant status s (row, there, is) blocked =
    let stopped : is_blocked row.status ≡ true = ap is_blocked is ∙ is_blocked_lem status blocked in
    (
      λ channel.
          >>=-returned (find_tenant tenant) (payment_credentials_of vault tenant (type_of channel))
            row s s (find_tenant_found tenant row s there)
          ∙ collecting_refused vault tenant (type_of channel) row s stopped,
      λ id.
          >>=-returned (find_tenant tenant) (payout_credentials_of vault tenant id) row s s
            (find_tenant_found tenant row s there)
          ∙ paying_refused vault tenant id row s stopped,
    )

-- No value comes out.
abbrev pub Throws : {A : Type 0} → Result A × Store → Type 0
Throws = Ends (λ a s. ⊥) (λ e s. Unit)

>>=-Throws :
    {A B : Type 0} (m : Action A) (f : A → Action B) (s : Store)
    → ((a : A) (t : Store) → Throws (f a t))
    → Throws ((m >>= f) s)
>>=-Throws {A} {B} m f s k = go (m s).0 (m s).1
  where
    go : (r : Result A) (t : Store) → Throws {A = B} (elim r [ ok a ↦ f a t | err e ↦ (err e, t) ])
    go (ok a) t = k a t
    go (err e) t = tt

open_collection-HasStatus :
    (tenant t : ℕ) (status : String) (dto : InitiateStkPushDto) (s : Store)
    → HasStatus t status s
    → Leaves (λ row. HasStatus t status) (open_collection tenant dto s)
unfolding open_collection create_transaction
open_collection-HasStatus tenant t status dto s h =
    elim (Bool-cases (collides_elsewhere row s.transactions)) [
      | inl taken ↦ rw taken tt
      | inr free ↦ rw free h
    ]
  where
    row : Transaction
    row = record (new_collection tenant dto) { id = s.next_id; updated_at = s.now }

module _ (vault : Vault) (client : Client) (elsewhere : Elsewhere) (tenant : ℕ) (status : String)
    (dto : InitiateStkPushDto) where
  send_refused :
      (t : Transaction) (s : Store)
      → HasStatus tenant status s
      → IsStopped status
      → StkPush.send (connect vault client) elsewhere tenant dto t s ≡ (err forbidden, s)
  unfolding StkPush.send connect
  send_refused t s h blocked =
      rw ((blocked_credentials vault tenant status s h blocked).0 dto.channel) refl

  give_up-Throws :
      (t : Transaction) (e : Error) (s : Store)
      → Throws (StkPush.give_up (connect vault client) elsewhere tenant dto t e s)
  unfolding StkPush.give_up
  give_up-Throws t e s =
      >>=-Throws (transaction (update_transaction t.id (fail_with (message e))))
        (StkPush.report_failed (connect vault client) elsewhere tenant dto t e) s λ a u. tt

  -- A collection for a suspended or removed tenant throws, whatever is asked and whatever Safaricom
  -- would answer.
  pub stk_push_blocked :
      (s : Store)
      → HasStatus tenant status s
      → IsStopped status
      → Throws (StkPush.initiate (connect vault client) elsewhere tenant dto s)
  unfolding StkPush.initiate
  stk_push_blocked s h blocked =
      >>=-Ends (λ t. HasStatus tenant status) (λ a u. ⊥) (λ e u. Unit)
        (transaction (open_collection tenant dto)) (λ t. try_catch (send t) (give_up t)) s
        (transaction-Ends (λ t. HasStatus tenant status) (λ e u. Unit) (open_collection tenant dto)
          s (open_collection-HasStatus tenant tenant status dto s h) (λ e. tt))
        λ t u k. rw (send_refused t u k blocked) (give_up-Throws t forbidden u)
    where
      send : Transaction → Action B2c.Outcome
      send t = StkPush.send (connect vault client) elsewhere tenant dto t

      give_up : Transaction → Error → Action B2c.Outcome
      give_up t e = StkPush.give_up (connect vault client) elsewhere tenant dto t e
