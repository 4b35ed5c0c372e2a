-- ===== src/Payments/DarajaClient.antt =====
-- DarajaClient (src/infrastructure/daraja/daraja.client.ts): its cache of access tokens and its
-- calls. What Safaricom answers is a parameter.
pub mod Amounts
pub mod TokenCache
use Prim.Native.Nat.{◌%◌, ◌/◌}
use script_pay_backend.Shared.{
  ℕ, suc, ◌≡◌, ◌+◌, ◌-◌, ◌*◌, String, Bool, true, false, not, ◌&&◌, ◌||◌, Option, none, some, List,
  [], ◌∷◌, ◌==◌, find, leb, ltb, str_eq, or_default, or_else, if◌then◌else◌,
}
use script_pay_backend.Shared.Int.{ℤ, pos, negsuc}
use script_pay_backend.Store.Rows.{Error, external}
use script_pay_backend.Store.Tx.{Result, ok, err}
use script_pay_backend.Payments.Safaricom.{
  StkPushRequest, StkPushResponse, StkPushStatus, B2cRequest, PayoutQueryResponse, CommandId,
  PaymentChannel,
}
use script_pay_backend.Tenants.Credentials.{TenantMpesaCredentials, TenantPayoutCredentials}
use script_pay_backend.Payments.Messages.{
  RawCode, DarajaBody, HttpAnswer, parse_daraja_json, is_zero_code, rejection, read_body,
  read_accepted, mapped, whole, or_fraction, minus, assert_whole_shillings, is_valid_amount,
  stk_max_minor_units, b2c_max_minor_units, TransactionType, transaction_type, StkPushBody,
  stk_push_body, B2cBody, b2c_body, stk_push_response, payout_query_response, verdict, status_of,
}

pub record CachedToken : Type 0 where
  pub consumer_key : String
  pub token : String
  pub expires_at : ℕ

-- The clock and `tokenCache`, the newest entry of a key first.
pub record ClientState : Type 0 where
  pub now : ℕ
  pub token_cache : List CachedToken

-- What the OAuth endpoint answers for a key and a secret: a token and its lifetime in seconds.
pub record OauthAnswer : Type 0 where
  pub is_ok : Bool
  pub grant : Option (String × ℕ)

abbrev pub Call : Type 0 → Type 0
Call A = ClientState → Result A × ClientState

abbrev pub and_then : {A B : Type 0} → Call A → (A → Result B) → Call B
and_then m f s = let (r, t) = m s in elim r [ ok a ↦ (f a, t) | err e ↦ (err e, t) ]

pub and_then_ok :
    {A B : Type 0} (m : Call A) (f : A → Result B) (b : B) (s : ClientState)
    → (and_then m f s).0 ≡ ok b
    → (a : A) × (f a ≡ ok b)
and_then_ok {A} {B} m f b s h = go (m s).0 (m s).1 h
  where
    go :
        (r : Result A) (t : ClientState)
        → (elim r as (λ x. Result B × ClientState) [ ok a ↦ (f a, t) | err e ↦ (err e, t) ]).0
          ≡ ok b
        → (a : A) × (f a ≡ ok b)
    go (ok a) t h = (a, h)
    go (err e) t h = cc

abbrev pub is_cached : String → CachedToken → Bool
is_cached key c = str_eq c.consumer_key key

-- `cached && cached.expiresAt > now`.
abbrev pub fresh_token : ℕ → Option CachedToken → Option String
fresh_token now none = none
fresh_token now (some c) = if ltb now c.expires_at then some c.token else none

abbrev pub cached_until : ℕ → ℕ → ℕ
cached_until now expires_in = now + (expires_in - 60) * 1000

abbrev pub remember : String → String → ℕ → ClientState → ClientState
remember key token expires_in s = record s {
  token_cache =
      record { consumer_key = key; token = token; expires_at = cached_until s.now expires_in }
      ∷ s.token_cache;
}

abbrev pub granted : String → Option (String × ℕ) → Call String
granted key none s = (err (external "unexpected response"), s)
granted key (some (token, expires_in)) s = (ok token, remember key token expires_in s)

abbrev pub ask_token : String → OauthAnswer → Call String
ask_token key answer s =
    if answer.is_ok
    then granted key answer.grant s
    else (err (external "failed to authenticate"), s)

abbrev pub token_or_ask : String → OauthAnswer → Option String → Call String
token_or_ask key answer (some token) s = (ok token, s)
token_or_ask key answer none s = ask_token key answer s

-- Safaricom's endpoints: each is given the access token and what is posted.
pub record Endpoints : Type 0 where
  pub oauth : String → String → OauthAnswer
  pub stk_push : String → StkPushBody → HttpAnswer
  pub stk_push_query : String → String → HttpAnswer
  pub b2c : String → B2cBody → HttpAnswer
  pub transaction_status : String → TenantPayoutCredentials → String → HttpAnswer
  pub register_url : String → String → HttpAnswer

module _ (endpoints : Endpoints) where
  unfoldable pub get_access_token : String → String → Call String
  get_access_token key secret s =
      token_or_ask key (endpoints.oauth key secret)
        (fresh_token s.now (find (is_cached key) s.token_cache)) s

  abbrev pub post_stk_push :
      TenantMpesaCredentials → StkPushRequest → String → Result ℤ → Result StkPushResponse
  post_stk_push creds q token (err e) = err e
  post_stk_push creds q token (ok amount) =
      mapped stk_push_response
        (read_accepted (endpoints.stk_push token (stk_push_body creds q amount)))

  unfoldable pub initiate_stk_push : TenantMpesaCredentials → StkPushRequest → Call StkPushResponse
  unfolding get_access_token
  initiate_stk_push creds q =
      and_then (get_access_token creds.mpesa_consumer_key creds.mpesa_consumer_secret)
        λ token. post_stk_push creds q token (assert_whole_shillings q.amount_minor_units)

  abbrev pub post_b2c : TenantPayoutCredentials → B2cRequest → String → Result ℤ → Result String
  post_b2c creds q token (err e) = err e
  post_b2c creds q token (ok amount) =
      mapped (λ (b : DarajaBody). b.conversation_id)
        (read_accepted (endpoints.b2c token (b2c_body creds q amount)))

  unfoldable pub initiate_b2c : TenantPayoutCredentials → B2cRequest → Call String
  unfolding get_access_token
  initiate_b2c creds q =
      and_then (get_access_token creds.mpesa_consumer_key creds.mpesa_consumer_secret)
        λ token. post_b2c creds q token (assert_whole_shillings q.amount_minor_units)

  unfoldable pub verify_credentials : String → String → Call (Unit {0})
  unfolding get_access_token
  verify_credentials key secret = and_then (get_access_token key secret) λ token. ok tt

  unfoldable pub register_c2b_url : String → String → String → Call (Unit {0})
  unfolding get_access_token
  register_c2b_url key secret code =
      and_then (get_access_token key secret)
        λ token. mapped (λ (b : DarajaBody). tt) (read_accepted (endpoints.register_url token code))

  abbrev pub read_status : (String → Option ℤ) → Result DarajaBody → Result StkPushStatus
  read_status read_number (err e) = err e
  read_status read_number (ok body) = ok (status_of body (verdict read_number body.result_code))

  unfoldable pub query_stk_push_status :
      (String → Option ℤ) → TenantMpesaCredentials → String → Call StkPushStatus
  unfolding get_access_token
  query_stk_push_status read_number creds checkout =
      and_then (get_access_token creds.mpesa_consumer_key creds.mpesa_consumer_secret) λ token.
        read_status read_number (parse_daraja_json (endpoints.stk_push_query token checkout))

  unfoldable pub query_payout_status : TenantPayoutCredentials → String → Call PayoutQueryResponse
  unfolding get_access_token
  query_payout_status creds conversation =
      and_then (get_access_token creds.mpesa_consumer_key creds.mpesa_consumer_secret) λ token.
        mapped payout_query_response
          (read_accepted (endpoints.transaction_status token creds conversation))
