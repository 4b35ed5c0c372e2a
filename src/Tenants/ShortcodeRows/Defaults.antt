-- ===== src/Tenants/ShortcodeRows/Defaults.antt =====
-- How many default shortcodes of a type a tenant has.
use script_pay_backend.Shared.{
  ℕ, suc, ◌+◌, ◌≤◌, ◌≡◌, ◌⊎◌, refl, subst, arith, Bool, true, false, Option, none, some, List, [],
  ◌∷◌, ◌++◌, find, update, update_many, filter, if◌then◌else◌, Bool-cases, inl, inr,
}
use script_pay_backend.Store.Rows.{Store, TenantShortcode, ShortcodeType}
use script_pay_backend.Store.Tx
use script_pay_backend.Store.Tx.{Tx, Result, ok, err}
use script_pay_backend.StateMachine.Consistency.{Keeps}
use script_pay_backend.Tenants.Access.{Vault}
use script_pay_backend.Tenants.ShortcodeRows.{
  CreateShortcodeDto, type_eq, has_shortcode_id, is_own, is_default_of, unset_defaults, undefault,
  set_default, create_shortcode, new_shortcode, save_new, delete_shortcode, is_taken,
  with_shortcodes,
}

-- How many rows pass a test.
abbrev pub count : (TenantShortcode → Bool) → List TenantShortcode → ℕ
count p [] = 0
count p (c ∷ cs) = if p c then suc (count p cs) else count p cs

abbrev pub bit : Bool → ℕ
bit true = 1
bit false = 0

-- Ids are handed out once, and no tenant has two defaults of a type.
pub record IsOrdered (s : Store) : Type 0 where
  pub single :
      (tenant : ℕ) (type : ShortcodeType) → count (is_default_of tenant type) s.shortcodes ≤ 1
  pub distinct : (n : ℕ) → count (has_shortcode_id n) s.shortcodes ≤ 1
  pub fresh : (n : ℕ) → s.next_id ≤ n → count (has_shortcode_id n) s.shortcodes ≡ 0

count-append :
    (p : TenantShortcode → Bool) (c : TenantShortcode) (cs : List TenantShortcode)
    → count p (cs ++ c ∷ []) ≡ count p cs + bit (p c)
count-append p c [] = ground arith
count-append p c (x ∷ cs) = ground (arith, count-append p c cs)

pub count-update :
    (p q : TenantShortcode → Bool) (f : TenantShortcode → TenantShortcode) (x : TenantShortcode)
    (cs : List TenantShortcode)
    → find p cs ≡ some x
    → count q (update p f cs) + bit (q x) ≡ count q cs + bit (q (f x))
count-update p q f x [] h = ground arith
count-update p q f x (c ∷ cs) h = ground (arith, count-update p q f x cs)

-- An update of many rows that shows a test no new row.
count-update_many :
    (p q : TenantShortcode → Bool) (f : TenantShortcode → TenantShortcode)
    (cs : List TenantShortcode)
    → ((c : TenantShortcode) → q (f c) ≡ true → q c ≡ true)
    → count q (update_many p f cs) ≤ count q cs
count-update_many p q f [] k = omega arith
count-update_many p q f (c ∷ cs) k = ground (arith, k c, count-update_many p q f cs k)

count-update_many_same :
    (p q : TenantShortcode → Bool) (f : TenantShortcode → TenantShortcode)
    (cs : List TenantShortcode)
    → ((c : TenantShortcode) → q (f c) ≡ q c)
    → count q (update_many p f cs) ≡ count q cs
count-update_many_same p q f [] k = refl
count-update_many_same p q f (c ∷ cs) k = ground (arith, k c, count-update_many_same p q f cs k)

count-filter :
    (p q : TenantShortcode → Bool) (cs : List TenantShortcode) → count q (filter p cs) ≤ count q cs
count-filter p q [] = omega arith
count-filter p q (c ∷ cs) = ground (arith, count-filter p q cs)

undefaulted :
    (tenant other : ℕ) (type kind : ShortcodeType) (c : TenantShortcode)
    → is_default_of other kind (undefault c) ≡ true
    → is_default_of other kind c ≡ true
undefaulted tenant other type kind c h = ground arith

-- After all defaults of a type are unset there is none.
unset_all :
    (tenant : ℕ) (type : ShortcodeType) (cs : List TenantShortcode)
    → count (is_default_of tenant type) (unset_defaults tenant type none cs) ≡ 0
unset_all tenant type [] = refl
unset_all tenant type (c ∷ cs) = ground (arith, unset_all tenant type cs)

-- After all but one are, at most that row is left.
unset_others :
    (tenant id : ℕ) (type : ShortcodeType) (cs : List TenantShortcode)
    → count (is_default_of tenant type) (unset_defaults tenant type (some id) cs)
      ≤ count (has_shortcode_id id) cs
unset_others tenant id type [] = omega arith
unset_others tenant id type (c ∷ cs) = ground (arith, unset_others tenant id type cs)

counted :
    (p : TenantShortcode → Bool) (x : TenantShortcode) (cs : List TenantShortcode)
    → find p cs ≡ some x
    → 1 ≤ count p cs
counted p x [] h = ground arith
counted p x (c ∷ cs) h = ground (arith, counted p x cs)

pub unset-IsOrdered :
    (tenant : ℕ) (type : ShortcodeType) (own : Option ℕ) (s : Store)
    → IsOrdered s
    → IsOrdered (with_shortcodes (unset_defaults tenant type own s.shortcodes) s)
unset-IsOrdered tenant type own s h = record {
  single = λ other kind. omega (
    arith,
    h.single other kind,
    count-update_many _ (is_default_of other kind) undefault s.shortcodes
        (undefaulted tenant other type kind),
  );
  distinct = λ n. omega (
    arith,
    h.distinct n,
    count-update_many_same _ (has_shortcode_id n) undefault s.shortcodes (λ c. refl),
  );
  fresh = λ n above. omega (
    arith,
    h.fresh n above,
    count-update_many_same _ (has_shortcode_id n) undefault s.shortcodes (λ c. refl),
  );
}

type_eq→eq : (a b : ShortcodeType) → type_eq a b ≡ true → a ≡ b
type_eq→eq a b h = ground arith

pub is_default_of_lem :
    (tenant : ℕ) (type : ShortcodeType) (c : TenantShortcode)
    → is_default_of tenant type c ≡ true
    → (c.tenant_id ≡ tenant) × (c.type ≡ type) × (c.is_default ≡ true)
is_default_of_lem tenant type c h = ground (arith, type_eq→eq c.type type)

create_shortcode-IsOrdered :
    (d : TenantShortcode) (s : Store)
    → IsOrdered s
    → (d.is_default ≡ false) ⊎ (count (is_default_of d.tenant_id d.type) s.shortcodes ≡ 0)
    → Keeps IsOrdered (create_shortcode d s)
unfolding create_shortcode
create_shortcode-IsOrdered d s h room = elim (Bool-cases (is_taken c s)) [
  | inl taken ↦ rw taken tt
  | inr free ↦ rw free (record {
    single = λ other kind. grown other kind;
    distinct = λ n.
        ground (
          arith,
          h.distinct n,
          h.fresh s.next_id,
          count-append (has_shortcode_id n) c s.shortcodes,
        );
    fresh = λ n above. ground (arith, h.fresh n, count-append (has_shortcode_id n) c s.shortcodes);
  })
]
  where
    c : TenantShortcode
    c = record d { id = s.next_id }

    grown :
        (other : ℕ) (kind : ShortcodeType)
        → count (is_default_of other kind) (s.shortcodes ++ c ∷ []) ≤ 1
    grown other kind = elim (Bool-cases (is_default_of other kind c)) [
      | inl here ↦
          let (t, k, is) = is_default_of_lem other kind c here in
          let none_yet : count (is_default_of d.tenant_id d.type) s.shortcodes ≡ 0 = ground arith in
          let gone : count (is_default_of other kind) s.shortcodes ≡ 0 =
            subst (λ x. count (is_default_of x kind) s.shortcodes ≡ 0) t
              (subst (λ x. count (is_default_of d.tenant_id x) s.shortcodes ≡ 0) k none_yet) in
          ground (arith, count-append (is_default_of other kind) c s.shortcodes)
      | inr elsewhere ↦
          ground
            (arith, h.single other kind, count-append (is_default_of other kind) c s.shortcodes)
    ]

-- What `create` saves keeps at most one default of each type, whether or not it is a default.
pub save_new-IsOrdered :
    (vault : Vault) (tenant : ℕ) (dto : CreateShortcodeDto) (s : Store)
    → IsOrdered s
    → Keeps IsOrdered (save_new vault tenant dto s)
unfolding save_new
save_new-IsOrdered vault tenant dto s h = go dto.is_default refl
  where
    create : Tx TenantShortcode
    create =
        Tx.◌>>=◌ (Tx.gets (λ s. s.now)) λ now. create_shortcode (new_shortcode vault now tenant dto)

    go :
        (b : Bool)
        → dto.is_default ≡ b
        → Keeps IsOrdered (Tx.◌>>◌ (set_default b tenant dto.type none) create s)
    go true is =
        let u = with_shortcodes (unset_defaults tenant dto.type none s.shortcodes) s in
        create_shortcode-IsOrdered (new_shortcode vault s.now tenant dto) u
          (unset-IsOrdered tenant dto.type none s h)
          (inr (ground (arith, unset_all tenant dto.type s.shortcodes)))
    go false plain =
        create_shortcode-IsOrdered (new_shortcode vault s.now tenant dto) s h (inl (ground arith))

pub delete_shortcode-IsOrdered :
    (tenant id : ℕ) (s : Store) → IsOrdered s → Keeps IsOrdered (delete_shortcode tenant id s)
unfolding delete_shortcode
delete_shortcode-IsOrdered tenant id s h = record {
  single = λ other kind.
      omega (arith, h.single other kind, count-filter _ (is_default_of other kind) s.shortcodes);
  distinct = λ n. omega (arith, h.distinct n, count-filter _ (has_shortcode_id n) s.shortcodes);
  fresh =
      λ n above. omega (arith, h.fresh n above, count-filter _ (has_shortcode_id n) s.shortcodes);
}

own-le :
    (tenant id : ℕ) (cs : List TenantShortcode)
    → count (is_own tenant id) cs ≤ count (has_shortcode_id id) cs
own-le tenant id [] = omega arith
own-le tenant id (c ∷ cs) = ground (arith, own-le tenant id cs)

-- An id that occurs once is found through the tenant's own rows.
pub found_own :
    (tenant id : ℕ) (e : TenantShortcode) (cs : List TenantShortcode)
    → count (has_shortcode_id id) cs ≤ 1
    → find (is_own tenant id) cs ≡ some e
    → (find (has_shortcode_id id) cs ≡ some e) × (e.tenant_id ≡ tenant)
found_own tenant id e [] d h = ground arith
found_own tenant id e (c ∷ cs) d h =
    ground (arith, found_own tenant id e cs, counted (is_own tenant id) e cs, own-le tenant id cs)

-- The row that is exempt is found as it was.
pub find-unset :
    (tenant id : ℕ) (type : ShortcodeType) (cs : List TenantShortcode)
    → find (has_shortcode_id id) (unset_defaults tenant type (some id) cs)
      ≡ find (has_shortcode_id id) cs
find-unset tenant id type [] = refl
find-unset tenant id type (c ∷ cs) = ground (arith, find-unset tenant id type cs)

pub unset_others_found :
    (tenant id : ℕ) (type : ShortcodeType) (e : TenantShortcode) (cs : List TenantShortcode)
    → count (has_shortcode_id id) cs ≤ 1
    → find (has_shortcode_id id) cs ≡ some e
    → count (is_default_of tenant type) (unset_defaults tenant type (some id) cs)
      ≤ bit (is_default_of tenant type e)
unset_others_found tenant id type e [] d h = ground arith
unset_others_found tenant id type e (c ∷ cs) d h =
    ground (arith, unset_others_found tenant id type e cs, unset_others tenant id type cs)
