-- ===== src/Sessions/Auth/Reset.antt =====
-- A password reset.
use script_pay_backend.Shared.{
  ℕ, String, Bool, true, false, Option, none, some, List, [], ◌∷◌, ◌≡◌, refl, arith, find, update,
  find_test, subst, sym, ◌∙◌,
}
use script_pay_backend.Store.Rows.{Store, User, OneTimeToken, unauthorized}
use script_pay_backend.Store.Tx.{Result, ok, err}
use script_pay_backend.Store.Action.{try_catch, ◌>>=◌, ◌>>◌}
use script_pay_backend.Sessions.Refresh.{revoke_all_for_user}
use script_pay_backend.Sessions.Refresh.Reuse.{live_count, revoke_all}
use script_pay_backend.Sessions.OneTime.{
  password_reset_tokens, has_one_time_hash, has_one_time_id, use_at, is_spent, use_unless,
  consume_found, consume,
}
use script_pay_backend.Sessions.Auth.{
  AuthConfig, as_unauthorized, has_user_id, with_password, update_found, audit_user, set_password,
  reset_password,
}

-- The token that is marked as used is the one that a look-up by its hash finds.
find-use :
    (hash : String) (now : ℕ) (t : OneTimeToken) (ts : List OneTimeToken)
    → find (has_one_time_hash hash) ts ≡ some t
    → find (has_one_time_id t.id) ts ≡ some t
    → find (has_one_time_hash hash) (update (has_one_time_id t.id) (use_at now) ts)
      ≡ some (use_at now t)
find-use hash now t [] found keyed = ground arith
find-use hash now t (x ∷ ts) found keyed =
    ground (arith, find-use hash now t ts, find_test (has_one_time_hash hash) t ts)

module _ (config : AuthConfig) (token password : String) (t : OneTimeToken) (s : Store) where
  abbrev hash : String
  hash = config.tokens.hash_token token

  -- After a reset that succeeds the user has no live session, and the token is used.
  record IsDone (u : Store) : Type 0 where
    ended : live_count t.user_id u.refresh_tokens ≡ 0
    used : find (has_one_time_hash hash) u.password_reset_tokens ≡ some (use_at s.now t)

  abbrev Succeeds : Result (Unit {0}) × Store → Type 0
  Succeeds x = x.0 ≡ ok tt → IsDone x.1

  abbrev used_store : Store
  used_store = record s {
    password_reset_tokens = update (has_one_time_id t.id) (use_at s.now) s.password_reset_tokens;
  }

  set_password-Succeeds :
      find (has_one_time_hash hash) s.password_reset_tokens ≡ some t
      → find (has_one_time_id t.id) s.password_reset_tokens ≡ some t
      → Succeeds (set_password config password t.user_id used_store)
  unfolding revoke_all_for_user
  set_password-Succeeds found keyed = go (find (has_user_id t.user_id) s.users)
    where
      go :
          (o : Option User)
          → Succeeds (
              (update_found t.user_id (with_password (config.hash_password password)) o
                  >> (revoke_all_for_user t.user_id
                      >> audit_user none (some t.user_id) "user.password_reset"))
                used_store)
      go none h = cc
      go (some u) h = record {
        ended = revoke_all t.user_id s.now s.refresh_tokens;
        used = find-use hash s.now t s.password_reset_tokens found keyed;
      }

  reset_password-Succeeds :
      find (has_one_time_hash hash) s.password_reset_tokens ≡ some t
      → find (has_one_time_id t.id) s.password_reset_tokens ≡ some t
      → Succeeds (reset_password config token password s)
  unfolding reset_password consume
  reset_password-Succeeds found keyed =
      subst
        (λ o. Succeeds (
          (try_catch (consume_found config.tokens.hash_token password_reset_tokens o)
                as_unauthorized
              >>= set_password config password)
            s))
        (sym found) (go (is_spent s.now t))
    where
      go :
          (b : Bool)
          → Succeeds (
              (try_catch
                    (use_unless config.tokens.hash_token password_reset_tokens t b)
                    as_unauthorized
                  >>= set_password config password)
                s)
      go true h = cc
      go false h = set_password-Succeeds found keyed h

  spent_refused :
      (again : String) (v : Store)
      → find (has_one_time_hash hash) v.password_reset_tokens ≡ some (use_at s.now t)
      → reset_password config token again v ≡ (err unauthorized, v)
  unfolding reset_password consume
  spent_refused again v used =
      subst
        (λ o.
          (try_catch (consume_found config.tokens.hash_token password_reset_tokens o)
                as_unauthorized
              >>= set_password config again)
            v
          ≡ (err unauthorized, v))
        (sym used) refl

-- A password reset that succeeds leaves its user without a live session. From then on its link is
-- refused and changes nothing, with any password, at any time and whatever else has happened, as
-- long as the look-up of the link still finds the row that the reset left: where the token's row has
-- an id of its own.
pub reset_password_once :
    (config : AuthConfig) (token password again : String) (t : OneTimeToken) (s v : Store)
    → find (has_one_time_hash (config.tokens.hash_token token)) s.password_reset_tokens ≡ some t
    → find (has_one_time_id t.id) s.password_reset_tokens ≡ some t
    → (reset_password config token password s).0 ≡ ok tt
    → find (has_one_time_hash (config.tokens.hash_token token)) v.password_reset_tokens
      ≡ find
          (has_one_time_hash (config.tokens.hash_token token))
          (reset_password config token password s).1.password_reset_tokens
    → (live_count t.user_id (reset_password config token password s).1.refresh_tokens ≡ 0)
      × (reset_password config token again v ≡ (err unauthorized, v))
reset_password_once config token password again t s v found keyed done kept =
    let is = reset_password-Succeeds config token password t s found keyed done in
    (is.ended, spent_refused config token password t s again v (kept ∙ is.used))
