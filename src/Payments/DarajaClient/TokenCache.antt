-- ===== src/Payments/DarajaClient/TokenCache.antt =====
-- The cache of access tokens, which is looked up by the consumer key alone.
use script_pay_backend.Shared.{
  ℕ, ◌<◌, ◌≡◌, String, true, none, some, arith, find, Option-cases, inl, inr, ap, sym, ◌∙◌, subst,
  eq_refl,
}
use script_pay_backend.Store.Tx.{ok}
use script_pay_backend.Payments.DarajaClient.{
  ClientState, Endpoints, get_access_token, verify_credentials, is_cached, token_or_ask,
  fresh_token, and_then, remember,
}

cached_ok :
    (endpoints : Endpoints) (key secret token : String) (u : ClientState)
    → fresh_token u.now (find (is_cached key) u.token_cache) ≡ some token
    → verify_credentials endpoints key secret u ≡ (ok tt, u)
unfolding verify_credentials get_access_token
cached_ok endpoints key secret token u h =
    ap (λ o. and_then (λ s. token_or_ask key (endpoints.oauth key secret) o s) (λ t. ok tt) u) h

asked_ok :
    (endpoints : Endpoints) (key secret token : String) (n : ℕ) (u : ClientState)
    → fresh_token u.now (find (is_cached key) u.token_cache) ≡ none
    → endpoints.oauth key secret ≡ record { is_ok = true; grant = some (token, n) }
    → verify_credentials endpoints key secret u ≡ (ok tt, remember key token n u)
unfolding verify_credentials get_access_token
asked_ok endpoints key secret token n u h granting =
    ap (λ o. and_then (λ s. token_or_ask key (endpoints.oauth key secret) o s) (λ t. ok tt) u) h
    ∙ ap (λ answer. and_then (λ s. token_or_ask key answer none s) (λ t. ok tt) u) granting

remembered :
    (key token : String) (n : ℕ) (u : ClientState)
    → 60 < n
    → fresh_token u.now (find (is_cached key) (remember key token n u).token_cache) ≡ some token
remembered key token n u long = ground (arith, eq_refl key)

-- After a check of credentials that Safaricom grants a token of more than a minute for, a check of
-- the same consumer key with any other secret succeeds as well, without asking Safaricom.
pub verify_credentials_other_secret :
    (endpoints : Endpoints) (key secret other token : String) (n : ℕ) (s : ClientState)
    → endpoints.oauth key secret ≡ record { is_ok = true; grant = some (token, n) }
    → 60 < n
    → let (first, t) = verify_credentials endpoints key secret s in
      (first ≡ ok tt) × (verify_credentials endpoints key other t ≡ (ok tt, t))
unfolding verify_credentials get_access_token
verify_credentials_other_secret endpoints key secret other token n s granting long =
    elim (Option-cases (fresh_token s.now (find (is_cached key) s.token_cache))) [
      | inl missing ↦
          passes (remember key token n s) (asked_ok endpoints key secret token n s missing granting)
            (cached_ok endpoints key other token (remember key token n s)
              (remembered key token n s long))
      | inr (known, is) ↦
          passes s (cached_ok endpoints key secret known s is)
            (cached_ok endpoints key other known s is)
    ]
  where
    passes :
        (t : ClientState)
        → verify_credentials endpoints key secret s ≡ (ok tt, t)
        → verify_credentials endpoints key other t ≡ (ok tt, t)
        → let (first, t) = verify_credentials endpoints key secret s in
          (first ≡ ok tt) × (verify_credentials endpoints key other t ≡ (ok tt, t))
    passes t h k = (
      ap (λ p. p.0) h,
      subst (λ u. verify_credentials endpoints key other u ≡ (ok tt, u)) (sym (ap (λ p. p.1) h)) k,
    )
