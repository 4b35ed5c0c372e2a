-- ===== src/Sessions/OneTime.antt =====
-- VerificationTokenService (src/modules/auth/verification-token.service.ts): tokens that are sent
-- by email and used once. Email verification and password reset differ in their table and lifetime.
use script_pay_backend.Shared.{
  ℕ, ◌+◌, String, Bool, true, false, ◌||◌, Option, none, some, List, [], ◌∷◌, ◌++◌, ◌==◌, find,
  update, ltb, str_eq, is_some,
}
use script_pay_backend.Store.Rows.{Store, OneTimeToken, Error, external}
use script_pay_backend.Store.Tx
use script_pay_backend.Store.Tx.{Tx}
use script_pay_backend.Store.Action.{Action, pure, throw, gets, modify, transaction, ◌>>=◌, ◌>>◌}

-- A table of one-time tokens: email_verification_tokens or password_reset_tokens.
pub record TokenTable : Type 0 where
  pub rows : Store → List OneTimeToken
  pub with_rows : List OneTimeToken → Store → Store

abbrev pub email_verification_tokens : TokenTable
email_verification_tokens = record {
  rows = λ s. s.email_verification_tokens;
  with_rows = λ ts s. record s { email_verification_tokens = ts };
}

abbrev pub password_reset_tokens : TokenTable
password_reset_tokens = record {
  rows = λ s. s.password_reset_tokens;
  with_rows = λ ts s. record s { password_reset_tokens = ts };
}

abbrev pub has_one_time_hash : String → OneTimeToken → Bool
has_one_time_hash hash t = str_eq t.token_hash hash

abbrev pub has_one_time_id : ℕ → OneTimeToken → Bool
has_one_time_id id t = t.id == id

abbrev pub use_at : ℕ → OneTimeToken → OneTimeToken
use_at now t = record t { used_at = some now }

-- `record.usedAt || record.expiresAt < new Date()`.
abbrev pub is_spent : ℕ → OneTimeToken → Bool
is_spent now t = is_some t.used_at || ltb t.expires_at now

abbrev pub bad_link : Error
bad_link = external "Invalid or expired link"

module _ (hash_token : String → String) (table : TokenTable) where
  -- `ttl` in milliseconds, `raw` the random token.
  unfoldable pub issue : ℕ → ℕ → String → Action String
  issue ttl user raw = do
    id ← transaction Tx.fresh_id
    modify λ s.
        table.with_rows
          (table.rows s
            ++ record {
              id = id;
              user_id = user;
              token_hash = hash_token raw;
              expires_at = s.now + ttl;
              used_at = none;
            }
              ∷ [])
          s
    pure raw

  abbrev pub use_unless : OneTimeToken → Bool → Action ℕ
  use_unless t true = throw bad_link
  use_unless t false = do
    modify λ s. table.with_rows (update (has_one_time_id t.id) (use_at s.now) (table.rows s)) s
    pure t.user_id

  abbrev pub consume_found : Option OneTimeToken → Action ℕ
  consume_found none = throw bad_link
  consume_found (some t) = gets (λ s. is_spent s.now t) >>= use_unless t

  unfoldable pub consume : String → Action ℕ
  consume raw =
      gets (λ s. find (has_one_time_hash (hash_token raw)) (table.rows s)) >>= consume_found
