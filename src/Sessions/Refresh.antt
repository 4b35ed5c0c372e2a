-- ===== src/Sessions/Refresh.antt =====
-- RefreshTokenService (src/modules/auth/refresh-token.service.ts). The random token of an issue or
-- a rotation is an argument.
pub mod Walk
pub mod Reuse
pub mod Grace
use script_pay_backend.Shared.{
  ℕ, zero, suc, ◌+◌, ◌-◌, ◌*◌, String, Bool, true, false, not, ◌&&◌, ◌||◌, Option, none, some, List,
  [], ◌∷◌, ◌++◌, ◌==◌, find, update, update_many, ltb, str_eq, is_some, length, if◌then◌else◌,
}
use script_pay_backend.Store.Rows.{Store, RefreshToken, unauthorized}
use script_pay_backend.Store.Tx
use script_pay_backend.Store.Tx.{Tx}
use script_pay_backend.Store.Action.{
  Action, pure, throw, gets, modify, record_audit, transaction, ◌>>=◌, ◌>>◌,
}

-- SHA-256 in hexadecimal, and JWT_REFRESH_TTL_DAYS.
pub record TokenConfig : Type 0 where
  pub hash_token : String → String
  pub refresh_ttl_days : ℕ

abbrev pub reuse_grace_window_ms : ℕ
reuse_grace_window_ms = 10000

abbrev pub has_token_id : ℕ → RefreshToken → Bool
has_token_id id t = t.id == id

abbrev pub has_token_hash : String → RefreshToken → Bool
has_token_hash hash t = str_eq t.token_hash hash

abbrev pub is_live : RefreshToken → Bool
is_live t = not (is_some t.revoked_at)

-- `where: { userId, revokedAt: null }`.
abbrev pub is_live_of : ℕ → RefreshToken → Bool
is_live_of user t = t.user_id == user && is_live t

-- `where: { tokenHash, revokedAt: null }`.
abbrev pub is_live_hash : String → RefreshToken → Bool
is_live_hash hash t = has_token_hash hash t && is_live t

abbrev pub revoke_at : ℕ → RefreshToken → RefreshToken
revoke_at now t = record t { revoked_at = some now }

abbrev pub replace_by : ℕ → ℕ → RefreshToken → RefreshToken
replace_by now new t = record t { revoked_at = some now; replaced_by_token_id = some new }

abbrev pub with_refresh_tokens : List RefreshToken → Store → Store
with_refresh_tokens ts s = record s { refresh_tokens = ts }

unfoldable pub create_refresh_token : RefreshToken → Tx RefreshToken
create_refresh_token d = Tx.◌>>=◌ Tx.fresh_id λ id.
    let c = record d { id = id } in
    Tx.◌>>◌ (Tx.modify λ s. with_refresh_tokens (s.refresh_tokens ++ c ∷ []) s) (Tx.pure c)

-- `visited.has(id)`.
abbrev pub has_visited : ℕ → List ℕ → Bool
has_visited id [] = false
has_visited id (x ∷ xs) = x == id || has_visited id xs

abbrev pub unless_revoked : RefreshToken → Option RefreshToken
unless_revoked t = if is_live t then some t else none

-- The loop of `findLiveDescendant`, on fuel: `none` is a loop that has not ended yet.
unfoldable pub walk : ℕ → List RefreshToken → List ℕ → RefreshToken → Option (Option RefreshToken)
walk zero tokens visited current = none
walk (suc n) tokens visited current = elim current.replaced_by_token_id [
  | none ↦ some (unless_revoked current)
  | some id ↦ if has_visited id visited then some none else (elim (find (has_token_id id) tokens) [
    | none ↦ some none
    | some next ↦ walk n tokens (id ∷ visited) next
  ])
]

abbrev pub ended : Option (Option RefreshToken) → Option RefreshToken
ended none = none
ended (some o) = o

-- With one step more than there are tokens the loop always ends.
unfoldable pub find_live_descendant : List RefreshToken → RefreshToken → Option RefreshToken
unfolding walk
find_live_descendant tokens token = ended (walk (suc (length tokens)) tokens (token.id ∷ []) token)

unfoldable pub revoke_all_for_user : ℕ → Action (Unit {0})
revoke_all_for_user user =
    modify
      λ s. with_refresh_tokens (update_many (is_live_of user) (revoke_at s.now) s.refresh_tokens) s

pub record Rotation : Type 0 where
  pub user_id : ℕ
  pub new_raw_token : String

module _ (config : TokenConfig) where
  abbrev pub new_token : ℕ → ℕ → String → RefreshToken
  new_token now user raw = record {
    id = 0;
    user_id = user;
    token_hash = config.hash_token raw;
    expires_at = now + config.refresh_ttl_days * 24 * 60 * 60 * 1000;
    revoked_at = none;
    replaced_by_token_id = none;
  }

  unfoldable pub issue : ℕ → String → Action String
  unfolding create_refresh_token
  issue user raw = do
    now ← gets (λ s. s.now)
    transaction (create_refresh_token (new_token now user raw))
    pure raw

  unfoldable pub rotate : String → RefreshToken → Action Rotation
  unfolding create_refresh_token
  rotate raw existing = do
    now ← gets (λ s. s.now)
    new ← transaction (create_refresh_token (new_token now existing.user_id raw))
    modify λ s.
        with_refresh_tokens
          (update (has_token_id existing.id) (replace_by s.now new.id) s.refresh_tokens) s
    pure (record { user_id = existing.user_id; new_raw_token = raw })

  abbrev pub is_within_grace : ℕ → ℕ → Bool
  is_within_grace now revoked = ltb (now - revoked) reuse_grace_window_ms

  abbrev pub current_of : RefreshToken → ℕ → Store → Option RefreshToken
  current_of existing revoked s =
      if is_within_grace s.now revoked then find_live_descendant s.refresh_tokens existing else none

  -- A token that was revoked before is presented.
  abbrev pub rotate_or_reuse : String → RefreshToken → Option RefreshToken → Action Rotation
  rotate_or_reuse raw existing (some current) = rotate raw current
  rotate_or_reuse raw existing none = do
    revoke_all_for_user existing.user_id
    record_audit (record {
      tenant_id = none;
      actor_id = some existing.user_id;
      action = "auth.refresh_token_reuse_detected";
      target_id = some existing.user_id;
    })
    throw unauthorized

  abbrev pub rotate_unless_expired : String → RefreshToken → Bool → Action Rotation
  rotate_unless_expired raw existing true = throw unauthorized
  rotate_unless_expired raw existing false = rotate raw existing

  abbrev pub rotate_by : String → RefreshToken → Option ℕ → Action Rotation
  rotate_by raw existing (some revoked) =
      gets (current_of existing revoked) >>= rotate_or_reuse raw existing
  rotate_by raw existing none =
      gets (λ s. ltb existing.expires_at s.now) >>= rotate_unless_expired raw existing

  abbrev pub rotate_found : String → Option RefreshToken → Action Rotation
  rotate_found raw none = throw unauthorized
  rotate_found raw (some existing) = rotate_by raw existing existing.revoked_at

  unfoldable pub verify_and_rotate : String → String → Action Rotation
  unfolding rotate revoke_all_for_user find_live_descendant
  verify_and_rotate raw new_raw =
      gets (λ s. find (has_token_hash (config.hash_token raw)) s.refresh_tokens)
      >>= rotate_found new_raw

  unfoldable pub revoke : String → Action (Unit {0})
  revoke raw = modify λ s.
      with_refresh_tokens
        (update_many (is_live_hash (config.hash_token raw)) (revoke_at s.now) s.refresh_tokens) s
