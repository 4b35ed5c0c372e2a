-- ===== src/Tenants/Schemas.antt =====
-- src/modules/tenants/tenant-shortcodes.schema.ts: what a body must be to reach the service. The
-- fields of the wrong type and the fields that are not known are refused before.
pub mod Rotations
use Prim.Native.Char.{code}
use script_pay_backend.Shared.{
  ℕ, String, Bool, true, false, not, ◌&&◌, ◌||◌, Option, none, some, ◌==◌, ◌+◌, leb, str_eq, truthy,
  or_default, if◌then◌else◌,
}
use script_pay_backend.Store.Rows.{ShortcodeType, bad_request}
use script_pay_backend.Store.Tx.{Result, ok, err}
use script_pay_backend.Tenants.ShortcodeRows.{CreateShortcodeDto, UpdateShortcodeDto, type_eq}
use script_pay_backend.Callbacks.Timestamps.{is_space, is_digit}

abbrev pub skip_spaces : String → String
skip_spaces String.[] = String.[]
skip_spaces (String.◌∷◌ c s) = if is_space (code c) then skip_spaces s else String.◌∷◌ c s

abbrev pub backwards : String → String → String
backwards String.[] t = t
backwards (String.◌∷◌ c s) t = backwards s (String.◌∷◌ c t)

abbrev pub trim : String → String
trim s = backwards (skip_spaces (backwards (skip_spaces s) "")) ""

abbrev pub starts_with_code : ℕ → String → Bool
starts_with_code q String.[] = false
starts_with_code q (String.◌∷◌ c s) = code c == q

abbrev pub without_first : String → String
without_first String.[] = String.[]
without_first (String.◌∷◌ c s) = s

abbrev pub is_wrapped_in : ℕ → String → Bool
is_wrapped_in q s =
    not (str_eq (without_first s) "") && starts_with_code q s && starts_with_code q (backwards s "")

-- 34 and 39 are the two quotes.
unfoldable pub strip_wrapping_quotes : String → String
strip_wrapping_quotes v =
    let t = trim v in
    if is_wrapped_in 34 t || is_wrapped_in 39 t
    then trim (backwards (without_first (backwards (without_first t) "")) "")
    else t

abbrev pub unset_if_blank : String → Option String
unset_if_blank v = if str_eq v "" then none else some v

-- `optionalCredential`.
abbrev pub credential : Option String → Option String
credential none = none
credential (some v) = unset_if_blank (strip_wrapping_quotes v)

abbrev pub count_digits : String → Option ℕ
count_digits String.[] = some 0
count_digits (String.◌∷◌ c s) =
    let rest = count_digits s in if is_digit (code c) then one_more rest else none
  where
    one_more : Option ℕ → Option ℕ
    one_more none = none
    one_more (some n) = some (n + 1)

abbrev pub is_five_to_seven : Option ℕ → Bool
is_five_to_seven none = false
is_five_to_seven (some n) = leb 5 n && leb n 7

abbrev pub is_shortcode : String → Bool
is_shortcode s = is_five_to_seven (count_digits (trim s))

-- A body, each of whose fields may be absent.
pub record ShortcodeBody : Type 0 where
  pub type : Option ShortcodeType
  pub shortcode : Option String
  pub is_default : Option Bool
  pub passkey : Option String
  pub initiator_name : Option String
  pub security_credential : Option String

abbrev pub trimmed : Option String → Option String
trimmed none = none
trimmed (some s) = some (trim s)

abbrev pub fits : Option String → Bool
fits none = true
fits (some s) = is_shortcode s

abbrev pub same : Bool → Bool → Bool
same true b = b
same false b = not b

-- A default inside an optional field still applies.
abbrev pub patch_of : ShortcodeBody → UpdateShortcodeDto
patch_of b = record {
  type = b.type;
  shortcode = trimmed b.shortcode;
  is_default = some (or_default b.is_default false);
  passkey = credential b.passkey;
  initiator_name = credential b.initiator_name;
  security_credential = credential b.security_credential;
}

abbrev pub is_pair : UpdateShortcodeDto → Bool
is_pair d = same (truthy d.initiator_name) (truthy d.security_credential)

-- `updateShortcodeSchema`.
unfoldable pub parse_update : ShortcodeBody → Result UpdateShortcodeDto
parse_update b =
    if fits b.shortcode && is_pair (patch_of b) then ok (patch_of b) else err bad_request

abbrev pub new_of : ShortcodeBody → ShortcodeType → String → CreateShortcodeDto
new_of b type shortcode = record {
  type = type;
  shortcode = trim shortcode;
  is_default = or_default b.is_default false;
  passkey = credential b.passkey;
  initiator_name = credential b.initiator_name;
  security_credential = credential b.security_credential;
}

abbrev pub has_its_credentials : CreateShortcodeDto → Bool
has_its_credentials d =
    if type_eq d.type ShortcodeType.b2c
    then truthy d.initiator_name && truthy d.security_credential && not (truthy d.passkey)
    else truthy d.passkey && not (truthy d.initiator_name) && not (truthy d.security_credential)

abbrev pub parse_new :
    ShortcodeBody → Option ShortcodeType → Option String → Result CreateShortcodeDto
parse_new b (some type) (some shortcode) =
    if is_shortcode shortcode && has_its_credentials (new_of b type shortcode)
    then ok (new_of b type shortcode)
    else err bad_request
parse_new b none shortcode = err bad_request
parse_new b type none = err bad_request

-- `createShortcodeSchema`.
unfoldable pub parse_create : ShortcodeBody → Result CreateShortcodeDto
parse_create b = parse_new b b.type b.shortcode
