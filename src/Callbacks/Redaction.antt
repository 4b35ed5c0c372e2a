-- ===== src/Callbacks/Redaction.antt =====
-- src/modules/callbacks/redact-callback-payload.ts: what of a callback may be logged.
use mathlib.Core.List.{Memᴰ}
use script_pay_backend.Shared.{
  ℕ, ◌+◌, String, Bool, true, false, ◌&&◌, List, [], ◌∷◌, ◌≡◌, ltb, str_eq, if◌then◌else◌, any,
  Bool-cases, inl, inr, refl, ◌⊎◌, eq_iff, both_true, either_true,
}
use script_pay_backend.Shared.Int.{ℤ}

-- What JSON.parse gives.
mutual
  pub data Json : Type 0 where
    null : Json
    boolean : Bool → Json
    number : ℤ → Json
    text : String → Json
    array : Items → Json
    object : Fields → Json

  pub data Items : Type 0 where
    end_items : Items
    item : Json → Items → Items

  pub data Fields : Type 0 where
    end_object : Fields
    field : String → Json → Fields → Fields

-- `typeof value !== "object" || value === null`.
abbrev pub is_primitive : Json → Bool
is_primitive (Json.array items) = false
is_primitive (Json.object fields) = false
is_primitive _ = true

abbrev pub safe_keys : List String
safe_keys =
    "MerchantRequestID" ∷ "CheckoutRequestID" ∷ "OriginatorConversationID" ∷ "ConversationID"
    ∷ "TransactionID" ∷ "TransID" ∷ "ResultCode" ∷ "ResultDesc" ∷ "ResultType" ∷ "TransactionType"
    ∷ "BusinessShortCode" ∷ "TransactionStatus" ∷ "ReceiptNo" ∷ "FinalisedTime" ∷ "InitiatedTime"
    ∷ []

unfoldable pub is_safe : String → Bool
is_safe key = any (str_eq key) safe_keys

abbrev pub max_depth : ℕ
max_depth = 6

-- An entry of `safeFields`, and `into[key] = value`.
pub record SafeField : Type 0 where
  pub key : String
  pub value : Json

abbrev pub set : String → Json → List SafeField → List SafeField
set key value [] = record { key = key; value = value } ∷ []
set key value (f ∷ fs) =
    let rest = set key value fs in
    if str_eq f.key key then record { key = key; value = value } ∷ fs else f ∷ rest

-- Whether a field is copied as it is.
abbrev pub is_copied : String → Json → Bool
is_copied key value = is_safe key && is_primitive value

-- A value that lies too deep is not looked into; a field is either copied or looked into.
unfoldable mutual
  pub collect_safe_fields : Json → ℕ → List SafeField → List SafeField
  collect_safe_fields (Json.array items) depth into =
      let deeper = collect_items items depth into in if ltb max_depth depth then into else deeper
  collect_safe_fields (Json.object fields) depth into =
      let deeper = collect_fields fields depth into in if ltb max_depth depth then into else deeper
  collect_safe_fields Json.null depth into = into
  collect_safe_fields (Json.boolean b) depth into = into
  collect_safe_fields (Json.number n) depth into = into
  collect_safe_fields (Json.text t) depth into = into

  pub collect_items : Items → ℕ → List SafeField → List SafeField
  collect_items Items.end_items depth into = into
  collect_items (Items.item value items) depth into =
      collect_items items depth (collect_safe_fields value (depth + 1) into)

  pub collect_fields : Fields → ℕ → List SafeField → List SafeField
  collect_fields Fields.end_object depth into = into
  collect_fields (Fields.field key value fields) depth into =
      let deeper = collect_safe_fields value (depth + 1) into in
      collect_fields fields depth (if is_copied key value then set key value into else deeper)

abbrev pub keys_of : Fields → List String
keys_of Fields.end_object = []
keys_of (Fields.field key value fields) = key ∷ keys_of fields

-- The keys of an array are its indices as texts.
abbrev pub indices_of : (ℕ → String) → ℕ → Items → List String
indices_of show n Items.end_items = []
indices_of show n (Items.item value items) = show n ∷ indices_of show (n + 1) items

-- What is logged: the type of a payload that is no object, or the names and the safe fields.
pub data Redacted : Type 0 where
  payload_type : String → Redacted
  payload_fields : List String → List SafeField → Redacted

unfoldable pub redact_callback_payload : (ℕ → String) → Json → Redacted
unfolding collect_safe_fields
redact_callback_payload show Json.null = Redacted.payload_type "null"
redact_callback_payload show (Json.boolean b) = Redacted.payload_type "boolean"
redact_callback_payload show (Json.number n) = Redacted.payload_type "number"
redact_callback_payload show (Json.text t) = Redacted.payload_type "string"
redact_callback_payload show (Json.array items) =
    Redacted.payload_fields (indices_of show 0 items) (collect_safe_fields (Json.array items) 0 [])
redact_callback_payload show (Json.object fields) =
    Redacted.payload_fields (keys_of fields) (collect_safe_fields (Json.object fields) 0 [])

-- A value that is no object and no array.
abbrev pub IsPlain : Json → Type 0
IsPlain v =
    ((v ≡ Json.null) ⊎ ((b : Bool) × (v ≡ Json.boolean b)))
    ⊎ (((n : ℤ) × (v ≡ Json.number n)) ⊎ ((x : String) × (v ≡ Json.text x)))

-- Every entry has a key of the allowlist and a value that is no object and no array.
abbrev pub AreSafe : List SafeField → Type 0
AreSafe [] = Unit
AreSafe (f ∷ fs) = Memᴰ f.key safe_keys × IsPlain f.value × AreSafe fs

is_primitive_lem : (v : Json) → is_primitive v ≡ true → IsPlain v
is_primitive_lem Json.null h = inl (inl refl)
is_primitive_lem (Json.boolean b) h = inl (inr (b, refl))
is_primitive_lem (Json.number n) h = inr (inl (n, refl))
is_primitive_lem (Json.text x) h = inr (inr (x, refl))
is_primitive_lem (Json.array items) h = cc h
is_primitive_lem (Json.object fields) h = cc h

any_text_lem : (key : String) (keys : List String) → any (str_eq key) keys ≡ true → Memᴰ key keys
any_text_lem key [] h = cc h
any_text_lem key (x ∷ keys) h = elim (either_true (str_eq key x) (any (str_eq key) keys) h) [
  | inl is ↦ Memᴰ.head ((eq_iff key x).0 is)
  | inr later ↦ Memᴰ.tail (any_text_lem key keys later)
]

is_safe_lem : (key : String) → is_safe key ≡ true → Memᴰ key safe_keys
unfolding is_safe
is_safe_lem key h = any_text_lem key safe_keys h

set-AreSafe :
    (key : String) (value : Json) (fs : List SafeField)
    → is_copied key value ≡ true
    → AreSafe fs
    → AreSafe (set key value fs)
set-AreSafe key value [] copied safe =
    let (listed, plain) = both_true (is_safe key) (is_primitive value) copied in
    (is_safe_lem key listed, is_primitive_lem value plain, tt)
set-AreSafe key value (f ∷ fs) copied (listed, plain, rest) = elim (Bool-cases (str_eq f.key key)) [
  | inl same ↦
      let (listed_key, plain_value) = both_true (is_safe key) (is_primitive value) copied in
      rw same (is_safe_lem key listed_key, is_primitive_lem value plain_value, rest)
  | inr other ↦ rw other (listed, plain, set-AreSafe key value fs copied rest)
]

if-AreSafe :
    (b : Bool) (xs ys : List SafeField) → AreSafe xs → AreSafe ys → AreSafe (if b then xs else ys)
if-AreSafe true xs ys h k = h
if-AreSafe false xs ys h k = k

field-AreSafe :
    (key : String) (value : Json) (depth : ℕ) (into : List SafeField)
    → AreSafe into
    → AreSafe (collect_safe_fields value depth into)
    → AreSafe
        (if is_copied key value then set key value into else collect_safe_fields value depth into)
field-AreSafe key value depth into h deeper = elim (Bool-cases (is_copied key value)) [
  | inl copied ↦ rw copied (set-AreSafe key value into copied h)
  | inr passed ↦ rw passed deeper
]

abbrev fields_of : Redacted → List SafeField
fields_of (Redacted.payload_type t) = []
fields_of (Redacted.payload_fields names fs) = fs

abbrev names_of : Redacted → List String
names_of (Redacted.payload_type t) = []
names_of (Redacted.payload_fields names fs) = names

mutual
  unfolding collect_safe_fields

  collect_safe_fields-AreSafe :
      (v : Json) (depth : ℕ) (into : List SafeField)
      → AreSafe into
      → AreSafe (collect_safe_fields v depth into)
  collect_safe_fields-AreSafe (Json.array items) depth into h =
      if-AreSafe _ into _ h (collect_items-AreSafe items depth into h)
  collect_safe_fields-AreSafe (Json.object fields) depth into h =
      if-AreSafe _ into _ h (collect_fields-AreSafe fields depth into h)
  collect_safe_fields-AreSafe Json.null depth into h = h
  collect_safe_fields-AreSafe (Json.boolean b) depth into h = h
  collect_safe_fields-AreSafe (Json.number n) depth into h = h
  collect_safe_fields-AreSafe (Json.text t) depth into h = h

  collect_items-AreSafe :
      (items : Items) (depth : ℕ) (into : List SafeField)
      → AreSafe into
      → AreSafe (collect_items items depth into)
  collect_items-AreSafe Items.end_items depth into h = h
  collect_items-AreSafe (Items.item value items) depth into h =
      collect_items-AreSafe items depth _ (collect_safe_fields-AreSafe value (depth + 1) into h)

  collect_fields-AreSafe :
      (fields : Fields) (depth : ℕ) (into : List SafeField)
      → AreSafe into
      → AreSafe (collect_fields fields depth into)
  collect_fields-AreSafe Fields.end_object depth into h = h
  collect_fields-AreSafe (Fields.field key value fields) depth into h =
      collect_fields-AreSafe fields depth _ (
        field-AreSafe key value (depth + 1) into h
          (collect_safe_fields-AreSafe value (depth + 1) into h))

-- The names that a payload has at the top.
abbrev pub top_names : (ℕ → String) → Json → List String
top_names show (Json.object fields) = keys_of fields
top_names show (Json.array items) = indices_of show 0 items
top_names show _ = []
