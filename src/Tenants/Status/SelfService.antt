-- ===== src/Tenants/Status/SelfService.antt =====
-- What tenants' own users can and cannot do to the status of a tenant.
use mathlib.Core.Option
use script_pay_backend.Shared.{
  ℕ, String, Bool, true, false, not, ◌&&◌, Option, none, some, List, [], ◌∷◌, ◌≡◌, ◌==◌, find,
  update, refl, arith, ap, sym, ◌∙◌, or_default, ==_iff, Bool-cases, inl, inr,
}
use script_pay_backend.Store.Rows.{
  Store, Tenant, ApiKey, ApiKeyScope, AuditEntry, Letter, forbidden, Error,
}
use script_pay_backend.Store.Tx.{err}
use script_pay_backend.Store.Outcomes.{Leaves, >>=-refused}
use script_pay_backend.Store.Action.{record_audit, swallow, ◌>>=◌}
use script_pay_backend.Store.Invariants.{Maintains, maintains, quietly}
use script_pay_backend.Ledger.{is_tenant}
use script_pay_backend.ApiKeys.{
  Hasher, IssuedKey, send_letters, create_api_key, create_system_issued, provision_unless,
  provision_default_key_if_needed,
}
use script_pay_backend.Tenants.Access.{AuthenticatedUser, is_super_admin, throw_unless}
use script_pay_backend.Tenants.Shortcodes.{conflict_or, or_row_not_found}
use script_pay_backend.Tenants.Status.{
  is_self_service, status_guard, set_status, with_status, deliver_key,
  provision_api_key_on_activation, provision_if, write_status, set_found, apply_status,
  change_status, update_status,
}

-- The tenant exists and has this status.
abbrev pub HasStatus : ℕ → String → Store → Type 0
HasStatus t status s =
    (row : Tenant) × (find (is_tenant t) s.tenants ≡ some row) × (row.status ≡ status)

module _ (t : ℕ) (status : String) where
  throw_unless-Maintains :
      (b : Bool) (e : Error) → Maintains (HasStatus t status) (throw_unless b e)
  throw_unless-Maintains true e = quietly _ λ s. refl
  throw_unless-Maintains false e = quietly _ λ s. refl

  record_audit-Maintains : (e : AuditEntry) → Maintains (HasStatus t status) (record_audit e)
  record_audit-Maintains e = record { at = λ s h. h }

  send_letters-Maintains : (ls : List Letter) → Maintains (HasStatus t status) (send_letters ls)
  unfolding send_letters
  send_letters-Maintains ls = record { at = λ s h. h }

  conflict_or-Maintains :
      (A : Type 0) (e : Error) → Maintains (HasStatus t status) (conflict_or {A = A} e)
  conflict_or-Maintains A e = quietly _ λ s. same e s
    where
      same : (e : Error) (s : Store) → (conflict_or {A = A} e s).1 ≡ s
      same e s = ground arith

  create_api_key-Leaves :
      (d : ApiKey) (s : Store)
      → HasStatus t status s
      → Leaves (λ a. HasStatus t status) (create_api_key d s)
  unfolding create_api_key
  create_api_key-Leaves d s h = h

  find-with_status :
      (id : ℕ) (new : String) (row : Tenant) (ts : List Tenant)
      → id == t ≡ false
      → find (is_tenant t) ts ≡ some row
      → find (is_tenant t) (update (is_tenant id) (with_status new) ts) ≡ some row
  find-with_status id new row [] other h = h
  find-with_status id new row (x ∷ ts) other h = ground (arith, find-with_status id new row ts)

  write_status-Leaves :
      (id : ℕ) (new : String) (old : Tenant) (b : Bool) (s : Store)
      → id == t ≡ false
      → HasStatus t status s
      → Leaves (λ a. HasStatus t status) (write_status id new old b s)
  write_status-Leaves id new old true s other h = tt
  write_status-Leaves id new old false s other (row, there, is) =
      (row, find-with_status id new row s.tenants other there, is)

  set_found-Leaves :
      (id : ℕ) (new : String) (o : Option Tenant) (s : Store)
      → id == t ≡ false
      → HasStatus t status s
      → Leaves (λ a. HasStatus t status) (set_found id new o s)
  set_found-Leaves id new none s other h = tt
  set_found-Leaves id new (some old) s other h = write_status-Leaves id new old _ s other h

  set_status-Leaves :
      (id : ℕ) (new : String) (s : Store)
      → id == t ≡ false
      → HasStatus t status s
      → Leaves (λ a. HasStatus t status) (set_status id new s)
  unfolding set_status
  set_status-Leaves id new s other h = set_found-Leaves id new _ s other h

  create_system_issued-Maintains :
      (hasher : Hasher) (id : ℕ) (scopes : List ApiKeyScope) (hex : String)
      → Maintains (HasStatus t status) (create_system_issued hasher id scopes hex)
  unfolding create_system_issued
  create_system_issued-Maintains hasher id scopes hex =
      search (maintains, record_audit-Maintains, create_api_key-Leaves) depth 10

  provision_unless-Maintains :
      (hasher : Hasher) (id : ℕ) (hex : String) (o : Option ApiKey)
      → Maintains (HasStatus t status) (provision_unless hasher id hex o)
  provision_unless-Maintains hasher id hex none =
      search (maintains, create_system_issued-Maintains) depth 10
  provision_unless-Maintains hasher id hex (some k) = search maintains

  provision_default_key_if_needed-Maintains :
      (hasher : Hasher) (id : ℕ) (hex : String)
      → Maintains (HasStatus t status) (provision_default_key_if_needed hasher id hex)
  unfolding provision_default_key_if_needed
  provision_default_key_if_needed-Maintains hasher id hex =
      search (maintains, provision_unless-Maintains) depth 10

  deliver_key-Maintains :
      (id : ℕ) (o : Option IssuedKey) → Maintains (HasStatus t status) (deliver_key id o)
  deliver_key-Maintains id none = search maintains
  deliver_key-Maintains id (some k) = search (maintains, send_letters-Maintains)

  swallow-Maintains : (e : Error) → Maintains (HasStatus t status) (swallow e)
  swallow-Maintains e = quietly _ λ s. refl

  provision_if-Maintains :
      (hasher : Hasher) (b : Bool) (id : ℕ) (hex : String)
      → Maintains (HasStatus t status) (provision_if hasher b id hex)
  unfolding provision_api_key_on_activation
  provision_if-Maintains hasher true id hex = search (
    maintains, provision_default_key_if_needed-Maintains, deliver_key-Maintains, swallow-Maintains,
  )
  provision_if-Maintains hasher false id hex = search maintains

  status_guard-Maintains :
      (id : ℕ) (before new : String) (actor : AuthenticatedUser)
      → Maintains (HasStatus t status) (status_guard id before new actor)
  status_guard-Maintains id before new actor = quietly _ λ s. ground arith

  -- A change of another tenant's status.
  change_other :
      (hasher : Hasher) (id : ℕ) (new : String) (actor : AuthenticatedUser) (hex : String)
      (before : Tenant)
      → id == t ≡ false
      → Maintains (HasStatus t status) (change_status hasher id new actor hex before)
  change_other hasher id new actor hex before other =
      search
        (
          maintains, status_guard-Maintains, set_status-Leaves, conflict_or-Maintains,
          record_audit-Maintains, provision_if-Maintains,
        )
        depth 14

-- The guard refuses every target where the tenant is neither active nor suspended.
guard_refuses :
    (id : ℕ) (before new : String) (actor : AuthenticatedUser) (s : Store)
    → is_self_service before ≡ false
    → is_super_admin actor.role ≡ false
    → status_guard id before new actor s ≡ (err forbidden, s)
guard_refuses id before new actor s frozen plain = ground arith

change_refused :
    (hasher : Hasher) (id : ℕ) (before : Tenant) (new : String) (actor : AuthenticatedUser)
    (hex : String) (s : Store)
    → is_self_service before.status ≡ false
    → is_super_admin actor.role ≡ false
    → change_status hasher id new actor hex before s ≡ (err forbidden, s)
change_refused hasher id before new actor hex s frozen plain =
    >>=-refused (status_guard id before.status new actor)
      (λ _. apply_status hasher id new actor hex before) forbidden s
      (guard_refuses id before.status new actor s frozen plain)

update_status-HasStatus :
    (hasher : Hasher) (t : ℕ) (status : String) (id : ℕ) (new : String) (actor : AuthenticatedUser)
    (hex : String) (s : Store)
    → is_self_service status ≡ false
    → is_super_admin actor.role ≡ false
    → HasStatus t status s
    → HasStatus t status (update_status hasher id new actor hex s).1
unfolding update_status
update_status-HasStatus hasher t status id new actor hex s frozen plain h =
    go (find (is_tenant id) s.tenants) refl
  where
    go :
        (o : Option Tenant)
        → find (is_tenant id) s.tenants ≡ o
        → HasStatus t status ((or_row_not_found o >>= change_status hasher id new actor hex) s).1
    go none found = h
    go (some before) found = elim (Bool-cases (id == t)) [
      | inl same ↦
          let (row, there, is) = h in
          let e : before.status ≡ status =
            ap (λ (o : Option Tenant). or_default (Option.map (λ (x : Tenant). x.status) o) "")
              (sym found ∙ ap (λ n. find (is_tenant n) s.tenants) ((==_iff id t).0 same) ∙ there)
            ∙ is in
          rw (change_refused hasher id before new actor hex s (ap is_self_service e ∙ frozen) plain)
            h
      | inr other ↦ (change_other t status hasher id new actor hex before other).at s h
    ]

-- A request to change a status: the tenant, the new status, the caller, and the random part of the
-- key that it may provision.
pub record StatusRequest : Type 0 where
  pub tenant_id : ℕ
  pub status : String
  pub actor : AuthenticatedUser
  pub hex : String

abbrev pub after : Hasher → List StatusRequest → Store → Store
after hasher [] s = s
after hasher (r ∷ rs) s =
    after hasher rs (update_status hasher r.tenant_id r.status r.actor r.hex s).1

abbrev pub none_of_staff : List StatusRequest → Bool
none_of_staff [] = true
none_of_staff (r ∷ rs) = not (is_super_admin r.actor.role) && none_of_staff rs

-- A tenant that is neither active nor suspended, such as one in pending_kyc or one that was
-- removed, keeps its status through any sequence of requests from callers who are not SUPER_ADMIN,
-- whatever they ask and for whichever tenants.
pub after-HasStatus :
    (hasher : Hasher) (t : ℕ) (status : String) (rs : List StatusRequest) (s : Store)
    → is_self_service status ≡ false
    → none_of_staff rs ≡ true
    → HasStatus t status s
    → HasStatus t status (after hasher rs s)
after-HasStatus hasher t status [] s frozen plain h = h
after-HasStatus hasher t status (r ∷ rs) s frozen plain h =
    let (first, rest) = both (is_super_admin r.actor.role) (none_of_staff rs) plain in
    after-HasStatus hasher t status rs _ frozen rest
      (update_status-HasStatus hasher t status r.tenant_id r.status r.actor r.hex s frozen first h)
  where
    both : (a b : Bool) → not a && b ≡ true → (a ≡ false) × (b ≡ true)
    both a b h = ground arith
