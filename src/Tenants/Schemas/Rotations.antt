-- ===== src/Tenants/Schemas/Rotations.antt =====
-- A patch that does not mention the default mark.
use script_pay_backend.Shared.{
  ℕ, Bool, true, false, ◌&&◌, none, some, ◌≡◌, ap, sym, ◌∙◌, or_default, if◌then◌else◌,
}
use script_pay_backend.Store.Rows.{
  Store, Error, TenantShortcode, unique_violation, forbidden, bad_request,
}
use script_pay_backend.Store.Tx.{ok, err}
use script_pay_backend.Store.Action.{transaction, try_catch, pure, ◌>>=◌}
use script_pay_backend.Store.Outcomes.{Ends, >>=-Ends, transaction-Ends, try_catch-Ends}
use script_pay_backend.Tenants.Access.{AuthenticatedUser, Vault, throw_unless}
use script_pay_backend.Tenants.ShortcodeRows.{UpdateShortcodeDto, save_patch}
use script_pay_backend.Tenants.ShortcodeRows.Patches.{save_patch_plain}
use script_pay_backend.Tenants.Shortcodes.{
  ShortcodeSummary, may_manage, conflict_or, to_summary, audit_shortcode, update,
}
use script_pay_backend.Tenants.Schemas.{ShortcodeBody, patch_of, is_pair, fits, parse_update}

-- Any error may end it, in any store.
abbrev Anything : Error → Store → Type 0
Anything e s = Unit

abbrev NoDefault : TenantShortcode → Store → Type 0
NoDefault c s = c.is_default ≡ false

abbrev pub Unmarked : ShortcodeSummary → Store → Type 0
Unmarked c s = c.is_default ≡ false

parsed_plain :
    (b : ShortcodeBody) (accepted : Bool) (dto : UpdateShortcodeDto)
    → b.is_default ≡ none
    → (if accepted then ok (patch_of b) else err bad_request) ≡ ok dto
    → dto.is_default ≡ some false
parsed_plain b true dto absent h =
    ap (λ (d : UpdateShortcodeDto). d.is_default) (sym parsed)
    ∙ ap (λ o. some (or_default o false)) absent
  where
    parsed : patch_of b ≡ dto
    parsed = cc h
parsed_plain b false dto absent h = cc h

conflict_or-Ends :
    (e : Error) (s : Store) → Ends NoDefault Anything (conflict_or {A = TenantShortcode} e s)
conflict_or-Ends unique_violation s = tt
conflict_or-Ends _ s = tt

-- A patch that the schema accepts and that leaves `isDefault` out takes the default mark off the
-- row that it changes: whoever updates a shortcode so, if the update succeeds, the row that it
-- answers is no default.
pub patch_takes_default_mark :
    (vault : Vault) (tenant id : ℕ) (b : ShortcodeBody) (dto : UpdateShortcodeDto)
    (actor : AuthenticatedUser) (s : Store)
    → b.is_default ≡ none
    → parse_update b ≡ ok dto
    → Ends Unmarked (λ e u. Unit) (update vault tenant id dto actor s)
unfolding parse_update update
patch_takes_default_mark vault tenant id b dto actor s absent h =
    let plain = parsed_plain b (fits b.shortcode && is_pair (patch_of b)) dto absent h in
    go (may_manage tenant actor) plain
  where
    go :
        (allowed : Bool)
        → dto.is_default ≡ some false
        → Ends Unmarked Anything (
            (throw_unless allowed forbidden >>= λ _.
            (try_catch (transaction (save_patch vault tenant id dto)) conflict_or >>= λ c.
            (audit_shortcode tenant actor "tenant_shortcode.updated" id >>= λ _.
            pure (to_summary c))))
              s)
    go false plain = tt
    go true plain =
        >>=-Ends NoDefault Unmarked Anything
          (try_catch (transaction (save_patch vault tenant id dto)) conflict_or)
          (λ c.
            (audit_shortcode tenant actor "tenant_shortcode.updated" id >>= λ _.
            pure (to_summary c)))
          s
          (try_catch-Ends NoDefault Anything Anything (transaction (save_patch vault tenant id dto))
            conflict_or s
            (transaction-Ends NoDefault Anything (save_patch vault tenant id dto) s
              (save_patch_plain vault tenant id dto s plain) (λ e. tt))
            (λ e t x. conflict_or-Ends e t))
          (λ c t k. k)
