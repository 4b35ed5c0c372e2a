-- ===== src/Tenants/ShortcodeRows/Patches.antt =====
-- Patches of a shortcode, and the defaults that they leave.
use script_pay_backend.Shared.{
  ℕ, ◌+◌, ◌≤◌, ◌≡◌, ap, sym, ◌∙◌, arith, Bool, true, false, not, ◌&&◌, ◌||◌, some, List, ◌==◌, find,
  update, or_default, is_some, Bool-cases, Option-cases, inl, inr,
}
use script_pay_backend.Store.Rows.{Store, TenantShortcode, ShortcodeType}
use script_pay_backend.StateMachine.Consistency.{Keeps}
use script_pay_backend.Store.Outcomes.{Leaves}
use script_pay_backend.Tenants.Access.{Vault}
use script_pay_backend.Tenants.ShortcodeRows.{
  UpdateShortcodeDto, has_shortcode_id, is_own, is_default_of, unset_defaults, patch, misfits,
  write_patch, patch_found, save_patch, is_taken, with_shortcodes,
}
use script_pay_backend.Tenants.ShortcodeRows.Defaults.{
  count, bit, IsOrdered, count-update, unset-IsOrdered, is_default_of_lem, found_own, find-unset,
  unset_others_found,
}

module _ (vault : Vault) (now : ℕ) (dto : UpdateShortcodeDto) where
  -- What a patch leaves, and what it sets.
  patch_lem :
      (c : TenantShortcode)
      → ((patch vault now dto c).id ≡ c.id)
        × ((patch vault now dto c).tenant_id ≡ c.tenant_id)
        × ((patch vault now dto c).type ≡ or_default dto.type c.type)
        × ((patch vault now dto c).is_default ≡ or_default dto.is_default c.is_default)
  patch_lem c = ground arith

  patch-count :
      (id n : ℕ) (e : TenantShortcode) (cs : List TenantShortcode)
      → find (has_shortcode_id id) cs ≡ some e
      → count (has_shortcode_id n) (update (has_shortcode_id id) (patch vault now dto) cs)
        ≡ count (has_shortcode_id n) cs
  patch-count id n e cs found =
      let same : has_shortcode_id n (patch vault now dto e) ≡ has_shortcode_id n e =
        ap (λ (k : ℕ). k == n) (patch_lem e).0 in
      omega (
        arith,
        ap bit same,
        count-update (has_shortcode_id id) (has_shortcode_id n) (patch vault now dto) e cs found,
      )

write_patch-IsOrdered :
    (vault : Vault) (id : ℕ) (dto : UpdateShortcodeDto) (e : TenantShortcode) (s : Store)
    → IsOrdered s
    → find (has_shortcode_id id) s.shortcodes ≡ some e
    → ((other : ℕ) (kind : ShortcodeType)
        → count
            (is_default_of other kind)
            (update (has_shortcode_id id) (patch vault s.now dto) s.shortcodes)
          ≤ 1)
    → Keeps IsOrdered (write_patch vault id dto s)
unfolding write_patch
write_patch-IsOrdered vault id dto e s h found single =
    rw found (elim (Bool-cases (is_some dto.shortcode && is_taken (patch vault s.now dto e) s)) [
      | inl taken ↦ rw taken tt
      | inr free ↦ rw free (record {
        single = single;
        distinct =
            λ n. omega (arith, h.distinct n, patch-count vault s.now dto id n e s.shortcodes found);
        fresh = λ n above.
            omega (arith, h.fresh n above, patch-count vault s.now dto id n e s.shortcodes found);
      })
    ])

-- The patch leaves the type alone, or says whether the row is a default.
abbrev pub is_plain : UpdateShortcodeDto → Bool
is_plain dto = not (is_some dto.type) || is_some dto.is_default

module _ (vault : Vault) (tenant id : ℕ) (dto : UpdateShortcodeDto) (e : TenantShortcode) where
  -- A row that the patch makes no default that it was not.
  quiet_patch :
      (other : ℕ) (kind : ShortcodeType) (now : ℕ)
      → is_plain dto ≡ true
      → or_default dto.is_default false ≡ false
      → is_default_of other kind (patch vault now dto e) ≡ true
      → is_default_of other kind e ≡ true
  quiet_patch other kind now plain off h = ground arith

  patch_quietly :
      (s : Store)
      → IsOrdered s
      → find (has_shortcode_id id) s.shortcodes ≡ some e
      → is_plain dto ≡ true
      → or_default dto.is_default false ≡ false
      → Keeps IsOrdered (write_patch vault id dto s)
  patch_quietly s h found plain off = write_patch-IsOrdered vault id dto e s h found λ other kind.
      ground (
        arith,
        h.single other kind,
        quiet_patch other kind s.now plain off,
        count-update (has_shortcode_id id) (is_default_of other kind) (patch vault s.now dto) e
            s.shortcodes found,
      )

  -- A row that is a default after the patch is one of the type whose defaults were unset.
  patched_default :
      (other : ℕ) (kind : ShortcodeType) (now : ℕ)
      → e.tenant_id ≡ tenant
      → is_default_of other kind (patch vault now dto e) ≡ true
      → (other ≡ tenant) × (kind ≡ or_default dto.type e.type)
  patched_default other kind now own h =
      let (t, k, _) = is_default_of_lem other kind (patch vault now dto e) h in
      let (_, pt, pk, _) = patch_lem vault now dto e in (sym t ∙ pt ∙ own, sym k ∙ pk)

  patch_default :
      (s : Store)
      → IsOrdered s
      → find (has_shortcode_id id) s.shortcodes ≡ some e
      → e.tenant_id ≡ tenant
      → Keeps IsOrdered (
          write_patch vault id dto (
            with_shortcodes
              (unset_defaults tenant (or_default dto.type e.type) (some id) s.shortcodes)
              s))
  patch_default s h found own =
      write_patch-IsOrdered vault id dto e (with_shortcodes cs s) unset found' λ other kind.
        elim (Bool-cases (is_default_of other kind (patch vault s.now dto e))) [
          | inl is ↦
              let (o, k) = patched_default other kind s.now own is in
              let few : count (is_default_of other kind) cs ≤ bit (is_default_of other kind e) =
                rw (o, k)
                  (unset_others_found tenant id type e s.shortcodes (h.distinct id) found) in
              ground (arith, few, counted_after other kind s.now)
          | inr not_is ↦ ground (arith, unset.single other kind, counted_after other kind s.now)
        ]
    where
      type : ShortcodeType
      type = or_default dto.type e.type

      cs : List TenantShortcode
      cs = unset_defaults tenant type (some id) s.shortcodes

      unset : IsOrdered (with_shortcodes cs s)
      unset = unset-IsOrdered tenant type (some id) s h

      found' : find (has_shortcode_id id) cs ≡ some e
      found' = find-unset tenant id type s.shortcodes ∙ found

      counted_after :
          (other : ℕ) (kind : ShortcodeType) (now : ℕ)
          → count (is_default_of other kind) (update (has_shortcode_id id) (patch vault now dto) cs)
              + bit (is_default_of other kind e)
            ≡ count (is_default_of other kind) cs
              + bit (is_default_of other kind (patch vault now dto e))
      counted_after other kind now =
          count-update (has_shortcode_id id) (is_default_of other kind) (patch vault now dto) e cs
            found'

  patch_found-IsOrdered :
      (s : Store)
      → IsOrdered s
      → find (is_own tenant id) s.shortcodes ≡ some e
      → is_plain dto ≡ true
      → Keeps IsOrdered (patch_found vault tenant id dto e s)
  patch_found-IsOrdered s h found plain =
      elim (Bool-cases (misfits vault dto (or_default dto.type e.type))) [
        | inl bad ↦ rw bad tt
        | inr fits ↦
            let (at_id, own) = found_own tenant id e s.shortcodes (h.distinct id) found in
            elim (Bool-cases (or_default dto.is_default false)) [
              | inl on ↦ rw (fits, on) (patch_default s h at_id own)
              | inr off ↦ rw (fits, off) (patch_quietly s h at_id plain off)
            ]
      ]

pub save_patch-IsOrdered :
    (vault : Vault) (tenant id : ℕ) (dto : UpdateShortcodeDto) (s : Store)
    → IsOrdered s
    → is_plain dto ≡ true
    → Keeps IsOrdered (save_patch vault tenant id dto s)
unfolding save_patch
save_patch-IsOrdered vault tenant id dto s h plain =
    elim (Option-cases (find (is_own tenant id) s.shortcodes)) [
      | inl none_is ↦ rw none_is tt
      | inr (e, found) ↦ rw found (patch_found-IsOrdered vault tenant id dto e s h found plain)
    ]

-- A patch to no default writes a row that is none.
pub write_patch_plain :
    (vault : Vault) (id : ℕ) (dto : UpdateShortcodeDto) (s : Store)
    → dto.is_default ≡ some false
    → Leaves (λ (c : TenantShortcode) u. c.is_default ≡ false) (write_patch vault id dto s)
unfolding write_patch
write_patch_plain vault id dto s plain =
    elim (Option-cases (find (has_shortcode_id id) s.shortcodes)) [
      | inl missing ↦ rw missing tt
      | inr (row, found) ↦
          rw found
            (elim (Bool-cases (is_some dto.shortcode && is_taken (patch vault s.now dto row) s)) [
              | inl taken ↦ rw taken tt
              | inr free ↦
                  rw free (
                    (patch_lem vault s.now dto row).3 ∙ ap (λ o. or_default o row.is_default) plain)
            ])
    ]

patch_found_plain :
    (vault : Vault) (tenant id : ℕ) (dto : UpdateShortcodeDto) (e : TenantShortcode) (s : Store)
    → dto.is_default ≡ some false
    → Leaves (λ (c : TenantShortcode) u. c.is_default ≡ false) (patch_found vault tenant id dto e s)
patch_found_plain vault tenant id dto e s plain =
    let off = ap (λ o. or_default o false) plain in
    elim (Bool-cases (misfits vault dto (or_default dto.type e.type))) [
      | inl misfit ↦ rw misfit tt
      | inr fit ↦ rw (fit, off) (write_patch_plain vault id dto s plain)
    ]

pub save_patch_plain :
    (vault : Vault) (tenant id : ℕ) (dto : UpdateShortcodeDto) (s : Store)
    → dto.is_default ≡ some false
    → Leaves (λ (c : TenantShortcode) u. c.is_default ≡ false) (save_patch vault tenant id dto s)
unfolding save_patch
save_patch_plain vault tenant id dto s plain =
    elim (Option-cases (find (is_own tenant id) s.shortcodes)) [
      | inl missing ↦ rw missing tt
      | inr (e, found) ↦ rw found (patch_found_plain vault tenant id dto e s plain)
    ]
