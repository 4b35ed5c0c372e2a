-- ===== src/Tenants/Shortcodes/Calls.antt =====
-- Any sequence of calls of TenantShortcodesService, by whoever makes them.
use script_pay_backend.Shared.{
  String, ℕ, arith, refl, true, false, List, [], ◌∷◌, ◌≡◌, Bool, Option, none, some, ◌&&◌,
}
use script_pay_backend.Store.Rows.{Tenant, Store, Error, AuditEntry}
use script_pay_backend.Store.Action.{Action, record_audit, pure, ◌>>◌}
use script_pay_backend.Store.Invariants.{quietly, maintains, Maintains}
use script_pay_backend.Tenants.Access.{AuthenticatedUser, Vault, Gateway, throw_unless}
use script_pay_backend.Tenants.ShortcodeRows.{CreateShortcodeDto, UpdateShortcodeDto}
use script_pay_backend.Tenants.ShortcodeRows.Defaults.{
  IsOrdered, save_new-IsOrdered, delete_shortcode-IsOrdered,
}
use script_pay_backend.Tenants.ShortcodeRows.Patches.{is_plain, save_patch-IsOrdered}
use script_pay_backend.Tenants.Shortcodes.{
  create, update, remove, register_c2b_url, or_row_not_found, conflict_or, register_if_c2b,
  or_not_found,
}

pub data Call : Type 0 where
  creates : ℕ → CreateShortcodeDto → AuthenticatedUser → Call
  updates : ℕ → ℕ → UpdateShortcodeDto → AuthenticatedUser → Call
  removes registers : ℕ → ℕ → AuthenticatedUser → Call

-- A call, with what Safaricom answers during it.
abbrev pub perform : Vault → Gateway → Call → Action (Unit {0})
perform vault daraja (Call.creates tenant dto actor) =
    create vault daraja tenant dto actor >> pure tt
perform vault daraja (Call.updates tenant id dto actor) =
    update vault tenant id dto actor >> pure tt
perform vault daraja (Call.removes tenant id actor) = remove tenant id actor
perform vault daraja (Call.registers tenant id actor) =
    register_c2b_url vault daraja tenant id actor >> pure tt

abbrev pub after : Vault → List (Gateway × Call) → Store → Store
after vault [] s = s
after vault ((daraja, call) ∷ calls) s = after vault calls (perform vault daraja call s).1

abbrev pub is_plain_call : Call → Bool
is_plain_call (Call.updates tenant id dto actor) = is_plain dto
is_plain_call _ = true

abbrev pub are_plain : List (Gateway × Call) → Bool
are_plain [] = true
are_plain ((daraja, call) ∷ calls) = is_plain_call call && are_plain calls

throw_unless-Maintains : (b : Bool) (e : Error) → Maintains IsOrdered (throw_unless b e)
throw_unless-Maintains true e = quietly _ λ s. refl
throw_unless-Maintains false e = quietly _ λ s. refl

record_audit-Maintains : (e : AuditEntry) → Maintains IsOrdered (record_audit e)
record_audit-Maintains e = record {
  at = λ s h. record { single = h.single; distinct = h.distinct; fresh = h.fresh };
}

conflict_or-Maintains : (A : Type 0) (e : Error) → Maintains IsOrdered (conflict_or {A = A} e)
conflict_or-Maintains A e = quietly _ λ s. same e s
  where
    same : (e : Error) (s : Store) → (conflict_or {A = A} e s).1 ≡ s
    same e s = ground arith

or_row_not_found-Maintains : {A : Type 0} (o : Option A) → Maintains IsOrdered (or_row_not_found o)
or_row_not_found-Maintains none = quietly _ λ s. refl
or_row_not_found-Maintains (some a) = quietly _ λ s. refl

or_not_found-Maintains : {A : Type 0} (o : Option A) → Maintains IsOrdered (or_not_found o)
or_not_found-Maintains none = quietly _ λ s. refl
or_not_found-Maintains (some a) = quietly _ λ s. refl

ruleset shortcode_rules = (
  maintains, throw_unless-Maintains, record_audit-Maintains, conflict_or-Maintains,
  or_row_not_found-Maintains, or_not_found-Maintains, save_new-IsOrdered,
  delete_shortcode-IsOrdered,
)

module _ (vault : Vault) where
  update-Maintains :
      (tenant id : ℕ) (dto : UpdateShortcodeDto) (actor : AuthenticatedUser)
      → is_plain dto ≡ true
      → Maintains IsOrdered (update vault tenant id dto actor)
  unfolding update
  update-Maintains tenant id dto actor plain = search (shortcode_rules, save_patch-IsOrdered)

module _ (vault : Vault) (daraja : Gateway) where
  register_if_c2b-Maintains :
      (tenant : Tenant) (secret : String) (dto : CreateShortcodeDto) (b : Bool)
      → Maintains IsOrdered (register_if_c2b vault daraja tenant secret dto b)
  register_if_c2b-Maintains tenant secret dto true = search shortcode_rules
  register_if_c2b-Maintains tenant secret dto false = search shortcode_rules

  create-Maintains :
      (tenant : ℕ) (dto : CreateShortcodeDto) (actor : AuthenticatedUser)
      → Maintains IsOrdered (create vault daraja tenant dto actor)
  unfolding create
  create-Maintains tenant dto actor = search (shortcode_rules, register_if_c2b-Maintains) depth 14

  register_c2b_url-Maintains :
      (tenant id : ℕ) (actor : AuthenticatedUser)
      → Maintains IsOrdered (register_c2b_url vault daraja tenant id actor)
  unfolding register_c2b_url
  register_c2b_url-Maintains tenant id actor = search shortcode_rules depth 14

  remove-Maintains :
      (tenant id : ℕ) (actor : AuthenticatedUser) → Maintains IsOrdered (remove tenant id actor)
  unfolding remove
  remove-Maintains tenant id actor = search shortcode_rules

perform-Maintains :
    (vault : Vault) (daraja : Gateway) (call : Call)
    → is_plain_call call ≡ true
    → Maintains IsOrdered (perform vault daraja call)
perform-Maintains vault daraja (Call.creates tenant dto actor) plain =
    search (shortcode_rules, create-Maintains)
perform-Maintains vault daraja (Call.updates tenant id dto actor) plain =
    search (shortcode_rules, update-Maintains)
perform-Maintains vault daraja (Call.removes tenant id actor) plain = search remove-Maintains
perform-Maintains vault daraja (Call.registers tenant id actor) plain =
    search (shortcode_rules, register_c2b_url-Maintains)

-- Where row ids occur once, next_id is unused and no tenant has two defaults of a type, any
-- sequence of creations, updates, removals and URL registrations, by any callers and whatever
-- Safaricom answers, leaves it so, provided that each update either leaves the type alone or says
-- whether the row is a default.
pub after-IsOrdered :
    (vault : Vault) (calls : List (Gateway × Call)) (s : Store)
    → IsOrdered s
    → are_plain calls ≡ true
    → IsOrdered (after vault calls s)
after-IsOrdered vault [] s h plain = h
after-IsOrdered vault ((daraja, call) ∷ calls) s h plain =
    let (this, rest) = both (is_plain_call call) (are_plain calls) plain in
    after-IsOrdered vault calls (perform vault daraja call s).1
      ((perform-Maintains vault daraja call this).at s h) rest
  where
    both : (a b : Bool) → a && b ≡ true → (a ≡ true) × (b ≡ true)
    both a b h = ground arith
