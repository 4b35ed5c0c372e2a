-- ===== src/Payments/DarajaClient/Amounts.antt =====
-- The amounts in the books, and those that Safaricom is asked for.
use Prim.Native.Nat.{◌%◌, ◌/◌}
use script_pay_backend.Shared.{
  ℕ, ◌*◌, ◌≤◌, ◌≡◌, ◌==◌, String, true, none, some, arith, refl, Option-cases, inl, inr, ap, sym,
  ◌∙◌,
}
use script_pay_backend.Shared.Int.{ℤ, pos}
use script_pay_backend.Store.Tx.{Result, ok, err}
use script_pay_backend.Payments.Safaricom.{B2cRequest}
use script_pay_backend.Tenants.Credentials.{TenantPayoutCredentials}
use script_pay_backend.Payments.Messages.{
  DarajaBody, B2cBody, whole, assert_whole_shillings, is_valid_amount, read_accepted, b2c_body,
  mapped, or_fraction,
}
use script_pay_backend.Payments.DarajaClient.{
  ClientState, Endpoints, post_b2c, get_access_token, initiate_b2c, and_then_ok,
}

whole_exact : (n k : ℕ) → whole n ≡ some k → k * 100 ≡ n
whole_exact n k h = ground arith

whole_multiple : (n : ℕ) → n % 100 == 0 ≡ true → whole n ≡ some (n / 100)
whole_multiple n h = rw h refl

-- An amount that a request schema accepts, a positive multiple of 100 up to a limit, passes the
-- client's check; the shillings that are sent are at least one, make up the amount exactly, and
-- stay within the limit.
pub is_valid_amount_whole :
    (max n : ℕ)
    → is_valid_amount max n ≡ true
    → (k : ℕ) × (assert_whole_shillings (pos n) ≡ ok (pos k))
      × (k * 100 ≡ n)
      × (1 ≤ k)
      × (k * 100 ≤ max)
is_valid_amount_whole max n valid =
    let multiple : n % 100 == 0 ≡ true = ground arith in
    (
      n / 100,
      ap (or_fraction pos) (whole_multiple n multiple),
      ground arith,
      ground arith,
      ground arith,
    )

whole_sent :
    (n : ℕ) (amount : ℤ)
    → assert_whole_shillings (pos n) ≡ ok amount
    → (k : ℕ) × (amount ≡ pos k) × (k * 100 ≡ n)
whole_sent n amount h = elim (Option-cases (whole n)) [
  | inl fraction ↦
      let refused : or_fraction pos none ≡ ok amount = sym (ap (or_fraction pos) fraction) ∙ h in cc
  | inr (k, is) ↦
      let sent : ok (pos k) ≡ ok amount = sym (ap (or_fraction pos) is) ∙ h in
      (k, ground arith, whole_exact n k is)
]

-- What is read out of an accepted answer.
accepted :
    (c : String) (r : Result DarajaBody)
    → mapped (λ (b : DarajaBody). b.conversation_id) r ≡ ok c
    → (body : DarajaBody) × (r ≡ ok body) × (body.conversation_id ≡ c)
accepted c (ok body) h = (body, refl, ground arith)
accepted c (err e) h = cc

posted :
    (endpoints : Endpoints) (creds : TenantPayoutCredentials) (q : B2cRequest) (token c : String)
    (r : Result ℤ)
    → post_b2c endpoints creds q token r ≡ ok c
    → (amount : ℤ) × (r ≡ ok amount)
      × (body : DarajaBody) × (read_accepted (endpoints.b2c token (b2c_body creds q amount))
          ≡ ok body)
      × (body.conversation_id ≡ c)
posted endpoints creds q token c (ok amount) h =
    let (body, answer, named) =
      accepted c (read_accepted (endpoints.b2c token (b2c_body creds q amount))) h in
    (amount, refl, body, answer, named)
posted endpoints creds q token c (err e) h = cc

-- A message that asks Safaricom to pay `k` shillings to the payee of the request, from the shortcode
-- and with the initiator of the credentials, under the conversation of the request.
pub record Asks (creds : TenantPayoutCredentials) (q : B2cRequest) (k : ℕ) (sent : B2cBody)
    : Type 0 where
  pub amount : sent.amount ≡ pos k
  pub payee : sent.party_b ≡ q.msisdn
  pub payer : sent.party_a ≡ creds.shortcode
  pub initiator : sent.initiator_name ≡ creds.initiator_name
  pub credential : sent.security_credential ≡ creds.security_credential
  pub conversation : sent.originator_conversation_id ≡ q.originator_conversation_id
  pub command : sent.command_id ≡ q.command_id

-- A payout that Safaricom accepts was posted with an amount of whole shillings that make up the
-- transaction's amount exactly, to the payee of the request, from the shortcode and the initiator of
-- the credentials, under the conversation of the request, and the conversation that is stored is
-- the one that the answer names.
pub initiate_b2c_sends :
    (endpoints : Endpoints) (creds : TenantPayoutCredentials) (q : B2cRequest) (n : ℕ)
    (conversation : String) (s : ClientState)
    → q.amount_minor_units ≡ pos n
    → (initiate_b2c endpoints creds q s).0 ≡ ok conversation
    → (k : ℕ) × (k * 100 ≡ n)
      × (token : String) × (sent : B2cBody) × Asks creds q k sent
      × (body : DarajaBody) × (read_accepted (endpoints.b2c token sent) ≡ ok body)
      × (body.conversation_id ≡ conversation)
unfolding initiate_b2c
initiate_b2c_sends endpoints creds q n conversation s is done =
    let (token, h) =
      and_then_ok (get_access_token endpoints creds.mpesa_consumer_key creds.mpesa_consumer_secret)
        (λ token. post_b2c endpoints creds q token (assert_whole_shillings q.amount_minor_units))
        conversation s done in
    let (amount, whole_is, body, answer, named) =
      posted endpoints creds q token conversation (assert_whole_shillings q.amount_minor_units) h in
    let (k, sent, exact) = whole_sent n amount (sym (ap assert_whole_shillings is) ∙ whole_is) in
    (
      k,
      exact,
      token,
      b2c_body creds q amount,
      record {
        amount = sent;
        payee = refl;
        payer = refl;
        initiator = refl;
        credential = refl;
        conversation = refl;
        command = refl;
      },
      body,
      answer,
      named,
    )
