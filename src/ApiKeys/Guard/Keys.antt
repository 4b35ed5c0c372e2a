-- ===== src/ApiKeys/Guard/Keys.antt =====
-- Which keys the guard lets in, and how long.
use Prim.Native.String.{len, ◌++◌ as append}
use mathlib.Core.List.{Memᴰ}
use text.Mathlib.TextPositions.{len-append}
use script_pay_backend.Shared.{
  ℕ, String, Bool, true, false, ◌&&◌, ◌==◌, Option, none, some, List, [], ◌∷◌, ◌++◌, ◌≡◌, find,
  filter, update_many, arith, refl, Option-cases, Bool-cases, inl, inr, ap, sym, ◌∙◌, subst,
  eq_refl, str_eq, eq_iff, ◌+◌, ◌≤◌, ltb, both_true, either_true,
}
use script_pay_backend.Store.Rows.{Store, ApiKey, ApiKeyScope}
use script_pay_backend.Store.Tx.{ok}
use script_pay_backend.ApiKeys.{
  Hasher, IssuedKey, KeyMaterial, create, revoke, is_key_of, revoke_key, mint_key_material,
  new_api_key,
}
use script_pay_backend.ApiKeys.Guard.{
  Caller, can_activate, authorize, is_candidate, is_expired, has_all_scopes, matches, includes,
  scope_eq,
}

find-filter :
    (p q : ApiKey → Bool) (k : ApiKey) (ks : List ApiKey)
    → find p (filter q ks) ≡ some k
    → Memᴰ k ks × (q k ≡ true) × (p k ≡ true)
find-filter p q k [] h = ground arith
find-filter p q k (x ∷ ks) h = elim (Bool-cases (q x)) [
  | inl is ↦ elim (Bool-cases (p x)) [
    | inl found ↦ let e : x ≡ k = ground arith in (Memᴰ.head (sym e), ground arith, ground arith)
    | inr miss ↦
        let (m, fits, hit) = find-filter p q k ks (ground arith) in (Memᴰ.tail m, fits, hit)
  ]
  | inr not_is ↦
      let (m, fits, hit) = find-filter p q k ks (ground arith) in (Memᴰ.tail m, fits, hit)
]

-- The key that lets a caller in: it is stored, not revoked and not expired, it verifies what was
-- sent, it holds every scope that is required, and the caller acts for its tenant.
pub record Admits (hasher : Hasher) (required : List ApiKeyScope) (raw : String) (s : Store)
    (c : Caller) (k : ApiKey) : Type 0 where
  pub stored : Memᴰ k s.api_keys
  pub unrevoked : k.revoked_at ≡ none
  pub unexpired : (at : ℕ) → k.expires_at ≡ some at → s.now ≤ at
  pub verifies : hasher.verify k.key_hash (append raw hasher.pepper) ≡ true
  pub has_scopes : (scope : ApiKeyScope) → Memᴰ scope required → Memᴰ scope k.scopes
  pub acts_for :
      c ≡ record { tenant_id = k.tenant_id; api_key_scopes = k.scopes; api_key_id = k.id }

not_expired_lem : (now at : ℕ) (o : Option ℕ) → is_expired now o ≡ false → o ≡ some at → now ≤ at
not_expired_lem now at o h is =
    let open_still : ltb at now ≡ false = subst (λ x. is_expired now x ≡ false) is h in ground arith

scope_eq_lem : (x y : ApiKeyScope) → scope_eq x y ≡ true → x ≡ y
scope_eq_lem x y h = ground arith

includes_lem : (x : ApiKeyScope) (held : List ApiKeyScope) → includes x held ≡ true → Memᴰ x held
includes_lem x [] h = cc h
includes_lem x (y ∷ ys) h = elim (either_true (scope_eq y x) (includes x ys) h) [
  | inl is ↦ Memᴰ.head (sym (scope_eq_lem y x is))
  | inr later ↦ Memᴰ.tail (includes_lem x ys later)
]

has_all_scopes_lem :
    (required held : List ApiKeyScope)
    → has_all_scopes required held ≡ true
    → (scope : ApiKeyScope) → Memᴰ scope required
    → Memᴰ scope held
has_all_scopes_lem [] held h scope m = elim m [ ]
has_all_scopes_lem (x ∷ xs) held h scope (Memᴰ.head e) =
    subst (λ y. Memᴰ y held) (sym e)
      (includes_lem x held (both_true (includes x held) (has_all_scopes xs held) h).0)
has_all_scopes_lem (x ∷ xs) held h scope (Memᴰ.tail m) =
    has_all_scopes_lem xs held (both_true (includes x held) (has_all_scopes xs held) h).1 scope m

authorize_lem :
    (hasher : Hasher) (required : List ApiKeyScope) (k : ApiKey) (c : Caller) (s : Store)
    → (authorize hasher required k s).0 ≡ ok c
    → (is_expired s.now k.expires_at ≡ false)
      × (has_all_scopes required k.scopes ≡ true)
      × (c ≡ record { tenant_id = k.tenant_id; api_key_scopes = k.scopes; api_key_id = k.id })
authorize_lem hasher required k c s h = ground arith

can_activate_at :
    (hasher : Hasher) (required : List ApiKeyScope) (raw : String) (k : ApiKey) (s : Store)
    → str_eq raw "" ≡ false
    → find (matches hasher raw) (filter (is_candidate raw) s.api_keys) ≡ some k
    → can_activate hasher required (some raw) s ≡ authorize hasher required k s
unfolding can_activate
can_activate_at hasher required raw k s full found = rw full (rw found refl)

-- Whoever the guard lets in sent a key in the header that a stored row verifies; that row is
-- neither revoked nor expired and holds every scope that the route requires, and the request is
-- given the tenant, the scopes and the id of that row.
pub can_activate-Admits :
    (hasher : Hasher) (required : List ApiKeyScope) (header : Option String) (c : Caller)
    (s : Store)
    → (can_activate hasher required header s).0 ≡ ok c
    → (raw : String) × (header ≡ some raw) × (k : ApiKey) × Admits hasher required raw s c k
unfolding can_activate
can_activate-Admits hasher required none c s h = ground arith
can_activate-Admits hasher required (some raw) c s h = elim (Bool-cases (str_eq raw "")) [
  | inl empty ↦ ground arith
  | inr full ↦
      elim (Option-cases (find (matches hasher raw) (filter (is_candidate raw) s.api_keys))) [
        | inl missing ↦ ground arith
        | inr (k, found) ↦
            let (stored, candidate, verifies) = find-filter _ _ k s.api_keys found in
            let out : (authorize hasher required k s).0 ≡ ok c =
              sym (ap (λ x. x.0) (can_activate_at hasher required raw k s full found)) ∙ h in
            let (unexpired, scopes, is) = authorize_lem hasher required k c s out in
            (
              raw,
              refl,
              k,
              record {
                stored = stored;
                unrevoked = ground arith;
                unexpired = λ at e. not_expired_lem s.now at k.expires_at unexpired e;
                verifies = verifies;
                has_scopes = has_all_scopes_lem required k.scopes scopes;
                acts_for = is;
              },
            )
      ]
]

filter-revoked :
    (p : ApiKey → Bool) (k : ApiKey) (tenant id now : ℕ) (ks : List ApiKey)
    → Memᴰ k (update_many (is_key_of tenant id) (revoke_key now) ks)
    → k.revoked_at ≡ none
    → is_key_of tenant id k ≡ false
filter-revoked p k tenant id now [] m h = elim m [ ]
filter-revoked p k tenant id now (x ∷ ks) (Memᴰ.head e) h =
    ground (arith, ap (λ (y : ApiKey). y.revoked_at) e)
filter-revoked p k tenant id now (x ∷ ks) (Memᴰ.tail m) h = filter-revoked p k tenant id now ks m h

revoke_keys :
    (tenant id actor : ℕ) (s : Store)
    → (revoke tenant id actor s).1.api_keys
      ≡ update_many (is_key_of tenant id) (revoke_key s.now) s.api_keys
unfolding revoke
revoke_keys tenant id actor s = ground arith

-- After a key is revoked by its tenant no request is let in as that key of that tenant, whatever
-- it sends and whatever the route requires.
pub can_activate-revoke :
    (hasher : Hasher) (required : List ApiKeyScope) (header : Option String) (tenant id actor : ℕ)
    (c : Caller) (s : Store)
    → (can_activate hasher required header (revoke tenant id actor s).1).0 ≡ ok c
    → c.api_key_id == id && c.tenant_id == tenant ≡ false
can_activate-revoke hasher required header tenant id actor c s h =
    let (raw, _, k, a) =
      can_activate-Admits hasher required header c (revoke tenant id actor s).1 h in
    let stored : Memᴰ k (update_many (is_key_of tenant id) (revoke_key s.now) s.api_keys) =
      subst (λ ks. Memᴰ k ks) (revoke_keys tenant id actor s) a.stored in
    subst (λ (x : Caller). x.api_key_id == id && x.tenant_id == tenant ≡ false) (sym a.acts_for)
      (filter-revoked (λ x. true) k tenant id s.now s.api_keys stored a.unrevoked)

find-filter-append :
    (p q : ApiKey → Bool) (k : ApiKey) (ks : List ApiKey)
    → find p ks ≡ none
    → p k ≡ true
    → q k ≡ true
    → find p (filter q (ks ++ k ∷ [])) ≡ some k
find-filter-append p q k [] none_yet hit fits = ground arith
find-filter-append p q k (x ∷ ks) none_yet hit fits = ground (arith, find-filter-append p q k ks)

authorize_fresh :
    (hasher : Hasher) (required : List ApiKeyScope) (k : ApiKey) (s : Store)
    → is_expired s.now k.expires_at ≡ false
    → has_all_scopes required k.scopes ≡ true
    → (authorize hasher required k s).0
      ≡ ok (record { tenant_id = k.tenant_id; api_key_scopes = k.scopes; api_key_id = k.id })
authorize_fresh hasher required k s alive holds = rw (alive, holds) refl

minted_truthy : (hex : String) → str_eq (append "sp_" hex) "" ≡ false
minted_truthy hex = elim (Bool-cases (str_eq (append "sp_" hex) "")) [
  | inl is ↦
      let same : append "sp_" hex ≡ "" = (eq_iff (append "sp_" hex) "").0 is in
      let long : len (append "sp_" hex) ≡ 3 + len hex = len-append "sp_" hex in
      let none_left : len (append "sp_" hex) ≡ 0 = ap len same in ground (arith, long, none_left)
  | inr not_is ↦ not_is
]

-- A key just created lets its holder in at once: if the hash function verifies what it hashed and
-- no stored key verifies the new one, the raw key that `create` returns is accepted on every route
-- whose scopes the key has, unless it was created expired, with the tenant and scopes it was
-- created for and its own id.
pub can_activate-create :
    (hasher : Hasher) (tenant : ℕ) (scopes required : List ApiKeyScope) (actor : ℕ)
    (expires_at : Option ℕ) (hex : String) (s : Store)
    → ((x : String) → hasher.verify (hasher.hash x) x ≡ true)
    → find (matches hasher (mint_key_material hasher hex).raw_key) s.api_keys ≡ none
    → is_expired s.now expires_at ≡ false
    → has_all_scopes required scopes ≡ true
    → let (created, t) = create hasher tenant scopes actor expires_at hex s in
      (issued : IssuedKey) × (created ≡ ok issued)
      × ((can_activate hasher required (some issued.raw_key) t).0
          ≡ ok (record { tenant_id = tenant; api_key_scopes = scopes; api_key_id = issued.id }))
unfolding create
can_activate-create hasher tenant scopes required actor expires_at hex s correct new alive holds = (
  record { id = s.next_id; raw_key = m.raw_key; key_prefix = m.key_prefix; scopes = scopes },
  refl,
  ap (λ x. x.0) (can_activate_at hasher required m.raw_key k t (minted_truthy hex) found)
      ∙ authorize_fresh hasher required k t alive holds,
)
  where
    m : KeyMaterial
    m = mint_key_material hasher hex

    k : ApiKey
    k = record (new_api_key hasher tenant scopes expires_at m) { id = s.next_id }

    t : Store
    t = (create hasher tenant scopes actor expires_at hex s).1

    found : find (matches hasher m.raw_key) (filter (is_candidate m.raw_key) t.api_keys) ≡ some k
    found =
        find-filter-append _ _ k s.api_keys new (correct _) (ground (arith, eq_refl m.key_prefix))
