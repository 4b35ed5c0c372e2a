-- ===== src/AuditLog/Readers.antt =====
-- What a reader of the audit log gets to see.
use script_pay_backend.Shared.{
  ℕ, String, Bool, true, false, ◌&&◌, Option, none, some, List, [], ◌∷◌, ◌≡◌, refl, zero, suc, take,
  filter, Bool-cases, inl, inr, ==_iff, or_default, ap,
}
use script_pay_backend.Store.Rows.{Store, User, Role, AuditEntry, forbidden}
use script_pay_backend.Store.Tx.{Result, ok, err}
use script_pay_backend.Store.Action.{◌>>◌}
use script_pay_backend.Tenants.Access.{AuthenticatedUser, is_super_admin, throw_unless}
use script_pay_backend.Guards.{has_role}
use script_pay_backend.Sessions.Auth.{AuthConfig, SignupDto, new_user}
use script_pay_backend.AuditLog.{ListParams, fits, same_id, asks_own, fits_action, query, list}

-- The claims that `signAccessToken` puts into the token of an account.
abbrev pub claims_of : User → AuthenticatedUser
claims_of u = record { id = u.id; email = u.email; role = u.role; tenant_id = u.tenant_id }

-- Entries of one tenant only.
abbrev pub AllOf : ℕ → List AuditEntry → Type 0
AllOf t [] = Unit
AllOf t (e ∷ es) = (e.tenant_id ≡ some t) × AllOf t es

abbrev pub OnlyOwn : ℕ → Result (List AuditEntry) → Type 0
OnlyOwn t (ok es) = AllOf t es
OnlyOwn t (err e) = e ≡ forbidden

same_id→eq : (a b : Option ℕ) → same_id a b ≡ true → a ≡ b
same_id→eq none none h = refl
same_id→eq none (some b) h = cc
same_id→eq (some a) none h = cc
same_id→eq (some a) (some b) h = ap some ((==_iff a b).0 h)

both_true : (a b : Bool) → (a && b) ≡ true → a ≡ true
both_true true b h = refl
both_true false b h = h

filter-AllOf :
    (t : ℕ) (action : Option String) (limit : Option ℕ) (es : List AuditEntry)
    → AllOf t (filter (fits (record { tenant_id = some t; action = action; limit = limit })) es)
filter-AllOf t action limit [] = tt
filter-AllOf t action limit (e ∷ es) =
    let params : ListParams = record { tenant_id = some t; action = action; limit = limit } in
    elim (Bool-cases (fits params e)) [
      | inl shown ↦ rw shown (
        same_id→eq e.tenant_id (some t)
            (both_true (same_id e.tenant_id (some t)) (fits_action action e) shown),
        filter-AllOf t action limit es,
      )
      | inr hidden ↦ rw hidden (filter-AllOf t action limit es)
    ]

take-AllOf : (t n : ℕ) (es : List AuditEntry) → AllOf t es → AllOf t (take n es)
take-AllOf t zero es h = tt
take-AllOf t (suc n) [] h = tt
take-AllOf t (suc n) (e ∷ es) h = (h.0, take-AllOf t n es h.1)

listed_own :
    (t : ℕ) (params : ListParams) (asked : Bool) (s : Store)
    → OnlyOwn t ((throw_unless asked forbidden >> query (record params { tenant_id = some t })) s).0
      × (((throw_unless asked forbidden >> query (record params { tenant_id = some t })) s).1 ≡ s)
listed_own t params true s = (
  take-AllOf t (or_default params.limit 100) _
      (filter-AllOf t params.action params.limit s.audit_log),
  refl,
)
listed_own t params false s = (refl, refl)

-- A caller other than platform staff who belongs to a tenant is refused or gets entries of that
-- tenant only, whatever the parameters; and nothing is changed.
pub list-OnlyOwn :
    (params : ListParams) (caller : AuthenticatedUser) (t : ℕ) (s : Store)
    → is_super_admin caller.role ≡ false
    → caller.tenant_id ≡ some t
    → OnlyOwn t (list params caller s).0 × ((list params caller s).1 ≡ s)
unfolding list
list-OnlyOwn params caller t s other own =
    rw other (rw own (listed_own t params (asks_own params.tenant_id (some t)) s))

filter-all :
    (action limit : Option ℕ) (es : List AuditEntry)
    → filter (fits (record { tenant_id = none; action = none; limit = limit })) es ≡ es
filter-all action limit [] = refl
filter-all action limit (e ∷ es) = ap (λ xs. e ∷ xs) (filter-all action limit es)

-- The account that a signup creates passes the role guard of the audit log's routes, and a request
-- for the log without parameters gives it the hundred newest entries, of all tenants.
pub list_new_account :
    (config : AuthConfig) (dto : SignupDto) (s : Store)
    → (has_role (Role.super_admin ∷ Role.tenant_admin ∷ []) (some (claims_of (new_user config dto)))
        ≡ true)
      × (list
            (record { tenant_id = none; action = none; limit = none })
            (claims_of (new_user config dto))
            s
          ≡ (ok (take 100 s.audit_log), s))
unfolding list
list_new_account config dto s =
    (refl, ap (λ es. (ok (take 100 es), s)) (filter-all none none s.audit_log))
