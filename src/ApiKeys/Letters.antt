-- ===== src/ApiKeys/Letters.antt =====
-- Who is written to about a secret.
use Prim.Native.String.{slice, ◌++◌ as append}
use mathlib.Core.List.{Memᴰ}
use script_pay_backend.Shared.{
  ℕ, String, Bool, true, false, Option, List, [], ◌∷◌, ◌++◌, ◌≡◌, ◌⊎◌, inl, inr, if◌then◌else◌,
  filter, map, refl, sym, subst, ap, some, arith, both_true,
}
use script_pay_backend.Store.Rows.{Store, User, Role, Mail, Letter, ApiKeyScope}
use script_pay_backend.Tenants.Access.{same_tenant, is_tenant_admin}
use script_pay_backend.ApiKeys.{
  Hasher, letter_to, is_admin_of, is_staff, create, shown_tenant, shown_actor,
}

module _ {A : Type 0} where
  pub Mem-append : (a : A) (xs ys : List A) → Memᴰ a (xs ++ ys) → Memᴰ a xs ⊎ Memᴰ a ys
  Mem-append a [] ys m = inr m
  Mem-append a (x ∷ xs) ys (Memᴰ.head e) = inl (Memᴰ.head e)
  Mem-append a (x ∷ xs) ys (Memᴰ.tail m) = elim (Mem-append a xs ys m) [
    | inl l ↦ inl (Memᴰ.tail l)
    | inr r ↦ inr r
  ]

  pub Mem-filter :
      (p : A → Bool) (a : A) (xs : List A) → Memᴰ a (filter p xs) → Memᴰ a xs × (p a ≡ true)
  Mem-filter p a [] m = elim m [ ]
  Mem-filter p a (x ∷ xs) m = go (p x) refl m (λ k. Mem-filter p a xs k)
    where
      go :
          (b : Bool)
          → p x ≡ b
          → Memᴰ a (if b then x ∷ filter p xs else filter p xs)
          → (Memᴰ a (filter p xs) → Memᴰ a xs × (p a ≡ true))
          → Memᴰ a (x ∷ xs) × (p a ≡ true)
      go true is (Memᴰ.head e) later = (Memᴰ.head e, subst (λ y. p y ≡ true) (sym e) is)
      go true is (Memᴰ.tail k) later = let (n, t) = later k in (Memᴰ.tail n, t)
      go false is k later = let (n, t) = later k in (Memᴰ.tail n, t)

-- A letter with this mail to one of the tenant's own admins.
abbrev pub IsForAdmin : ℕ → Mail → List User → Letter → Type 0
IsForAdmin tenant mail users l =
    (u : User) × Memᴰ u users
    × (u.role ≡ Role.tenant_admin)
    × (u.tenant_id ≡ some tenant)
    × (l ≡ record { to = u.email; mail = mail })

same_tenant_lem : (o : Option ℕ) (tenant : ℕ) → same_tenant o tenant ≡ true → o ≡ some tenant
same_tenant_lem o tenant h = ground arith

is_tenant_admin_lem : (r : Role) → is_tenant_admin r ≡ true → r ≡ Role.tenant_admin
is_tenant_admin_lem r h = ground arith

Mem-letters :
    (mail : Mail) (l : Letter) (users : List User)
    → Memᴰ l (map (letter_to mail) users)
    → (u : User) × Memᴰ u users × (l ≡ letter_to mail u)
Mem-letters mail l [] m = elim m [ ]
Mem-letters mail l (u ∷ us) (Memᴰ.head e) = (u, Memᴰ.head refl, e)
Mem-letters mail l (u ∷ us) (Memᴰ.tail m) =
    let (v, n, e) = Mem-letters mail l us m in (v, Memᴰ.tail n, e)

pub admin_letters :
    (tenant : ℕ) (mail : Mail) (users : List User) (l : Letter)
    → Memᴰ l (map (letter_to mail) (filter (is_admin_of tenant) users))
    → IsForAdmin tenant mail users l
admin_letters tenant mail users l m =
    let (u, n, e) = Mem-letters mail l (filter (is_admin_of tenant) users) m in
    let (k, is) = Mem-filter (is_admin_of tenant) u users n in
    let (own, admin) = both_true (same_tenant u.tenant_id tenant) (is_tenant_admin u.role) is in
    (u, k, is_tenant_admin_lem u.role admin, same_tenant_lem u.tenant_id tenant own, e)

-- The letters that go out: to admins with the secret, to staff without.
pub secret_letters :
    (tenant : ℕ) (secret notice : Mail) (users : List User) (l : Letter)
    → Memᴰ l (
        map (letter_to secret) (filter (is_admin_of tenant) users)
        ++ map (letter_to notice) (filter is_staff users))
    → IsForAdmin tenant secret users l ⊎ (l.mail ≡ notice)
secret_letters tenant secret notice users l m =
    elim (Mem-append l (map (letter_to secret) (filter (is_admin_of tenant) users)) _ m) [
      | inl a ↦ inl (admin_letters tenant secret users l a)
      | inr b ↦
          let (u, n, e) = Mem-letters notice l (filter is_staff users) b in
          inr (ap (λ (x : Letter). x.mail) e)
    ]

-- Every letter that is there after a key is created was there before, or brings the raw key to a
-- user who has the role of a tenant admin and belongs to the tenant the key is for, or is the notice
-- for the staff, which has the tenant's name, the first eight characters of the key, its scopes and
-- who made it.
pub create_letters :
    (hasher : Hasher) (tenant : ℕ) (scopes : List ApiKeyScope) (actor : ℕ) (expires_at : Option ℕ)
    (hex : String) (s : Store) (l : Letter)
    → Memᴰ l (create hasher tenant scopes actor expires_at hex s).1.letters
    → Memᴰ l s.letters
      ⊎ (IsForAdmin tenant (Mail.api_key_rotated (append "sp_" hex)) s.users l
          ⊎ (l.mail
              ≡ Mail.api_key_staff_notice
                  (shown_tenant tenant s.tenants)
                  (slice (append "sp_" hex) 0 8)
                  scopes
                  (shown_actor actor s.users)))
unfolding create
create_letters hasher tenant scopes actor expires_at hex s l m = elim (Mem-append l s.letters _ m) [
  | inl before ↦ inl before
  | inr new ↦ inr (secret_letters tenant _ _ s.users l new)
]
