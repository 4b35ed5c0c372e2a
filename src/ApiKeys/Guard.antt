-- ===== src/ApiKeys/Guard.antt =====
-- ApiKeyGuard (src/common/guards/api-key.guard.ts).
pub mod Keys
use Prim.Native.String.{slice, ◌++◌ as append}
use script_pay_backend.Shared.{
  ℕ, String, Bool, true, false, not, ◌&&◌, ◌||◌, Option, none, some, List, [], ◌∷◌, ◌≡◌, find, ltb,
  filter, update, str_eq, is_some, truthy, or_default, arith, refl, find_test, ◌==◌,
}
use script_pay_backend.Store.Rows.{Store, ApiKey, ApiKeyScope, unauthorized}
use script_pay_backend.Store.Action.{Action, pure, throw, gets, modify, ◌>>=◌, ◌>>◌}
use script_pay_backend.Tenants.Access.{throw_unless}
use script_pay_backend.ApiKeys.{Hasher}

-- What the guard puts on the request.
pub record Caller : Type 0 where
  pub tenant_id : ℕ
  pub api_key_scopes : List ApiKeyScope
  pub api_key_id : ℕ

abbrev pub scope_eq : ApiKeyScope → ApiKeyScope → Bool
scope_eq ApiKeyScope.payments_initiate ApiKeyScope.payments_initiate = true
scope_eq ApiKeyScope.payments_read ApiKeyScope.payments_read = true
scope_eq ApiKeyScope.reconciliation_read ApiKeyScope.reconciliation_read = true
scope_eq ApiKeyScope.webhooks_manage ApiKeyScope.webhooks_manage = true
scope_eq ApiKeyScope.payments_disburse ApiKeyScope.payments_disburse = true
scope_eq _ _ = false

abbrev pub includes : ApiKeyScope → List ApiKeyScope → Bool
includes x [] = false
includes x (y ∷ ys) = scope_eq y x || includes x ys

abbrev pub has_all_scopes : List ApiKeyScope → List ApiKeyScope → Bool
has_all_scopes [] held = true
has_all_scopes (x ∷ xs) held = includes x held && has_all_scopes xs held

abbrev pub is_expired : ℕ → Option ℕ → Bool
is_expired now none = false
is_expired now (some at) = ltb at now

-- `where: { keyPrefix: prefix, revokedAt: null }`.
abbrev pub is_candidate : String → ApiKey → Bool
is_candidate raw k = str_eq k.key_prefix (slice raw 0 8) && not (is_some k.revoked_at)

abbrev pub has_key_id : ℕ → ApiKey → Bool
has_key_id id k = k.id == id

abbrev pub use_key : ℕ → ApiKey → ApiKey
use_key now k = record k { last_used_at = some now }

module _ (hasher : Hasher) where
  abbrev pub matches : String → ApiKey → Bool
  matches raw k = hasher.verify k.key_hash (append raw hasher.pepper)

  abbrev pub authorize : List ApiKeyScope → ApiKey → Action Caller
  authorize required k = do
    now ← gets (λ s. s.now)
    throw_unless (not (is_expired now k.expires_at)) unauthorized
    throw_unless (has_all_scopes required k.scopes) unauthorized
    modify λ s. record s { api_keys = update (has_key_id k.id) (use_key s.now) s.api_keys }
    pure (record { tenant_id = k.tenant_id; api_key_scopes = k.scopes; api_key_id = k.id })

  -- `if (!matched)`.
  abbrev pub authorize_found : List ApiKeyScope → Option ApiKey → Action Caller
  authorize_found required none = throw unauthorized
  authorize_found required (some k) = authorize required k

  unfoldable pub can_activate : List ApiKeyScope → Option String → Action Caller
  can_activate required header = do
    throw_unless (truthy header) unauthorized
    let raw = or_default header ""
    candidates ← gets (λ s. filter (is_candidate raw) s.api_keys)
    authorize_found required (find (matches raw) candidates)
