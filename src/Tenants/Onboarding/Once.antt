-- ===== src/Tenants/Onboarding/Once.antt =====
-- Accounts that found a tenant.
use script_pay_backend.Shared.{
  ℕ, String, false, List, [], ◌∷◌, ◌≡◌, refl, arith, any, update_many, is_some, Bool-cases, inl,
  inr, subst, sym,
}
use script_pay_backend.Store.Rows.{
  Store, User, Tenant, TenantShortcode, Error, conflict, forbidden, AuditEntry, Alert,
}
use script_pay_backend.Store.Tx.{Result, ok, err}
use script_pay_backend.Store.Outcomes.{Leaves, Ends, >>=-Ends, >>=-refused, transaction-Ends}
use script_pay_backend.Store.Invariants.{Maintains, maintains}
use script_pay_backend.Store.Action.{transaction, record_audit, send_alert}
use script_pay_backend.Tenants.Access.{AuthenticatedUser, is_tenant_admin}
use script_pay_backend.Tenants.ShortcodeRows.{create_shortcode, is_taken}
use script_pay_backend.Tenants.Onboarding.{
  CreateTenantDto, create_tenant, claim, link_to, is_unlinked, onboard_self, announce, found,
  create_initial_shortcode,
}

unlinked-link :
    (id tenant : ℕ) (us : List User)
    → any (is_unlinked id) (update_many (is_unlinked id) (link_to tenant) us) ≡ false
unlinked-link id tenant [] = refl
unlinked-link id tenant (u ∷ us) = ground (arith, unlinked-link id tenant us)

-- The transaction links the account, so that it has none left to link.
claim-Leaves :
    (id : ℕ) (name : String) (s : Store)
    → Leaves (λ tenant t. any (is_unlinked id) t.users ≡ false) (claim id name s)
unfolding claim create_tenant
claim-Leaves id name s = elim (Bool-cases (any (is_unlinked id) s.users)) [
  | inl free ↦ rw free (unlinked-link id s.next_id s.users)
  | inr linked ↦ rw linked tt
]

abbrev IsLinked : ℕ → Store → Type 0
IsLinked id s = any (is_unlinked id) s.users ≡ false

found_refused :
    (dto : CreateTenantDto) (actor : AuthenticatedUser) (s : Store)
    → IsLinked actor.id s
    → found dto actor s ≡ (err conflict, s)
unfolding claim create_tenant
found_refused dto actor s linked =
    >>=-refused (transaction (claim actor.id dto.name)) (announce dto actor) conflict s
      claim_refused
  where
    claim_refused : transaction (claim actor.id dto.name) s ≡ (err conflict, s)
    claim_refused = rw linked refl

-- An account that is linked already founds nothing, whatever its token says.
onboard_self_linked :
    (dto : CreateTenantDto) (actor : AuthenticatedUser) (s : Store)
    → IsLinked actor.id s
    → (e : Error) × (onboard_self dto actor s ≡ (err e, s))
unfolding onboard_self
onboard_self_linked dto actor s linked = elim (Bool-cases (is_some actor.tenant_id)) [
  | inl has ↦ (forbidden, rw has refl)
  | inr has_none ↦ elim (Bool-cases (is_tenant_admin actor.role)) [
    | inl admin ↦ (conflict, rw has_none (rw admin (found_refused dto actor s linked)))
    | inr other ↦ (forbidden, rw has_none (rw other refl))
  ]
]

module _ (id : ℕ) where
  create_shortcode-IsLinked :
      (c : TenantShortcode) (s : Store)
      → IsLinked id s
      → Leaves (λ a. IsLinked id) (create_shortcode c s)
  unfolding create_shortcode
  create_shortcode-IsLinked c s h = elim (Bool-cases (is_taken (record c { id = s.next_id }) s)) [
    | inl taken ↦ rw taken tt
    | inr free ↦ rw free h
  ]

  record_audit-IsLinked : (e : AuditEntry) → Maintains (IsLinked id) (record_audit e)
  record_audit-IsLinked e = record { at = λ s h. h }

  send_alert-IsLinked : (a : Alert) → Maintains (IsLinked id) (send_alert a)
  send_alert-IsLinked a = record { at = λ s h. h }

  announce-IsLinked :
      (dto : CreateTenantDto) (actor : AuthenticatedUser) (tenant : Tenant)
      → Maintains (IsLinked id) (announce dto actor tenant)
  unfolding announce create_initial_shortcode
  announce-IsLinked dto actor tenant =
      search (maintains, create_shortcode-IsLinked, record_audit-IsLinked, send_alert-IsLinked)
        depth 10

-- What holds after a run holds where it answers.
Ends-after :
    {A : Type 0} (P : Store → Type 0) (o : Result A × Store) → P o.1 → Ends (λ a. P) (λ e t. Unit) o
Ends-after P (ok a, t) h = h
Ends-after P (err e, t) h = tt

onboard_self-IsLinked :
    (dto : CreateTenantDto) (actor : AuthenticatedUser) (s : Store)
    → Ends (λ tenant. IsLinked actor.id) (λ e t. Unit) (onboard_self dto actor s)
unfolding onboard_self
onboard_self-IsLinked dto actor s = elim (Bool-cases (is_some actor.tenant_id)) [
  | inl has ↦ rw has tt
  | inr has_none ↦ elim (Bool-cases (is_tenant_admin actor.role)) [
    | inl admin ↦ rw has_none (rw admin founding)
    | inr other ↦ rw has_none (rw other tt)
  ]
]
  where
    P : Tenant → Store → Type 0
    P tenant = IsLinked actor.id

    founding : Ends P (λ e t. Unit) (found dto actor s)
    founding =
        >>=-Ends P P (λ e t. Unit) (transaction (claim actor.id dto.name)) (announce dto actor) s
          (transaction-Ends P (λ e t. Unit) (claim actor.id dto.name) s
            (claim-Leaves actor.id dto.name s) (λ e. tt))
          λ tenant t k.
            Ends-after (IsLinked actor.id) (announce dto actor tenant t)
              ((announce-IsLinked actor.id dto actor tenant).at t k)

-- Once an account has founded a tenant, every further request of that account to found one throws
-- and leaves no trace, also with a token that was issued before the account was linked.
pub onboard_self_once :
    (dto again : CreateTenantDto) (actor stale : AuthenticatedUser) (tenant : Tenant) (s : Store)
    → (onboard_self dto actor s).0 ≡ ok tenant
    → stale.id ≡ actor.id
    → (e : Error) × (onboard_self again stale (onboard_self dto actor s).1
        ≡ (err e, (onboard_self dto actor s).1))
onboard_self_once dto again actor stale tenant s done same =
    onboard_self_linked again stale (onboard_self dto actor s).1 (
      subst (λ n. IsLinked n (onboard_self dto actor s).1) (sym same)
        (answered (onboard_self dto actor s) (onboard_self-IsLinked dto actor s) done))
  where
    answered :
        (o : Result Tenant × Store)
        → Ends (λ tenant. IsLinked actor.id) (λ e t. Unit) o
        → o.0 ≡ ok tenant
        → IsLinked actor.id o.1
    answered (ok x, t) h is = h
    answered (err e, t) h is = cc
