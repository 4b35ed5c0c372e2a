-- ===== src/Config.antt =====
-- src/config/env.schema.ts: the check of the environment before the program starts. zod's notions of
-- a URL and an email address, `Number` and the length of decoded base64 are parameters.
pub mod Boot
use Prim.Native.Char.{code}
use script_pay_backend.Shared.{
  ℕ, zero, suc, ◌+◌, String, Bool, true, false, not, ◌&&◌, ◌||◌, Option, none, some, List, [], ◌∷◌,
  ◌==◌, leb, any, str_eq, or_default, if◌then◌else◌,
}

pub record Library : Type 1 where
  pub Number : Type 0
  pub is_url : String → Bool
  pub is_email : String → Bool
  -- Nothing for NaN.
  pub number : String → Option Number
  pub whole : ℕ → Number
  pub decoded_length : String → ℕ
  -- `split(",")`, each part trimmed, less the empty ones.
  pub origins : String → List String

-- A variable's schema, with its default.
pub data Rule : Type 0 where
  url optional_url optional_email origin_list key_32_bytes : Rule
  at_least optional_at_least : ℕ → Rule
  at_least_or : ℕ → String → Rule
  one_of : List String → String → Rule
  number_or : ℕ → Rule

-- `length` counts UTF-16 units.
abbrev pub length_of : String → ℕ
length_of String.[] = 0
length_of (String.◌∷◌ c s) = (if leb 65536 (code c) then 2 else 1) + length_of s

abbrev pub all : {A : Type 0} → (A → Bool) → List A → Bool
all p [] = true
all p (x ∷ xs) = p x && all p xs

abbrev pub is_empty : {A : Type 0} → List A → Bool
is_empty [] = true
is_empty (x ∷ xs) = false

-- `v === "" ? undefined : v`.
abbrev pub blank_as_unset : Option String → Option String
blank_as_unset none = none
blank_as_unset (some v) = if str_eq v "" then none else some v

abbrev pub if_given : (String → Bool) → Option String → Bool
if_given p none = true
if_given p (some v) = p v

abbrev pub required : (String → Bool) → Option String → Bool
required p none = false
required p (some v) = p v

abbrev pub environments : List String
environments = "development" ∷ "test" ∷ "production" ∷ []

-- `envSchema`, in its order.
abbrev pub env_schema : List (String × Rule)
env_schema =
    ("NODE_ENV", one_of environments "development")
    ∷ ("PORT", number_or 4000)
    ∷ ("DATABASE_URL", url)
    ∷ ("DIRECT_URL", optional_url)
    ∷ ("PRIVILEGED_DATABASE_URL", url)
    ∷ ("MPESA_CONSUMER_KEY", at_least 1)
    ∷ ("MPESA_CONSUMER_SECRET", at_least 1)
    ∷ ("MPESA_PASSKEY", at_least 1)
    ∷ ("MPESA_ENV", one_of ("sandbox" ∷ "production" ∷ []) "sandbox")
    ∷ ("MPESA_CALLBACK_BASE_URL", url)
    ∷ ("MPESA_SHORTCODE", at_least_or 1 "174379")
    ∷ ("API_KEY_HASH_PEPPER", at_least 32)
    ∷ ("DARAJA_WEBHOOK_SECRET", at_least 32)
    ∷ ("JWT_ACCESS_SECRET", at_least 32)
    ∷ ("JWT_ACCESS_TTL_SECONDS", number_or 900)
    ∷ ("JWT_REFRESH_TTL_DAYS", number_or 30)
    ∷ ("CREDENTIALS_ENCRYPTION_KEY", key_32_bytes)
    ∷ ("EMAIL_VERIFICATION_TTL_HOURS", number_or 24)
    ∷ ("PASSWORD_RESET_TTL_MINUTES", number_or 30)
    ∷ ("RESEND_API_KEY", optional_at_least 1)
    ∷ ("EMAIL_FROM", optional_at_least 1)
    ∷ ("FRONTEND_ORIGIN", origin_list)
    ∷ ("PUBLIC_APP_URL", url)
    ∷ ("JOB_SCHEDULER", one_of ("in-process" ∷ "external" ∷ []) "in-process")
    ∷ ("INTERNAL_JOBS_SECRET", optional_at_least 32)
    ∷ ("SENTRY_DSN", optional_url)
    ∷ ("SLACK_WEBHOOK_URL", optional_url)
    ∷ ("ALERTS_EMAIL_TO", optional_email)
    ∷ ("PLATFORM_NAME", optional_at_least 1)
    ∷ []

-- The variables that are refused, or what the program may read.
pub data Outcome (A : Type 0) : Type 0 where
  started : A → Outcome A
  refused : List String → Outcome A

module _ (lib : Library) where
  open lib use {Number, is_url, is_email, number, whole, decoded_length, origins}

  pub data Parsed : Type 0 where
    unset : Parsed
    text : String → Parsed
    numeral : Number → Parsed
    texts : List String → Parsed

  abbrev pub is_number : Option Number → Bool
  is_number none = false
  is_number (some n) = true

  abbrev pub are_origins : String → Bool
  are_origins v = leb 1 (length_of v) && not (is_empty (origins v)) && all is_url (origins v)

  unfoldable pub accepts : Rule → Option String → Bool
  accepts url v = required is_url v
  accepts optional_url v = if_given is_url (blank_as_unset v)
  accepts optional_email v = if_given is_email (blank_as_unset v)
  accepts origin_list v = required are_origins v
  accepts key_32_bytes v = required (λ s. decoded_length s == 32) v
  accepts (at_least n) v = required (λ s. leb n (length_of s)) v
  accepts (optional_at_least n) v = if_given (λ s. leb n (length_of s)) (blank_as_unset v)
  accepts (at_least_or n d) v = if_given (λ s. leb n (length_of s)) v
  accepts (one_of names d) v = if_given (λ s. any (str_eq s) names) v
  accepts (number_or d) v = if_given (λ s. is_number (number s)) v

  abbrev pub text_or_unset : Option String → Parsed
  text_or_unset none = unset
  text_or_unset (some v) = text v

  abbrev pub number_or_unset : Option Number → Parsed
  number_or_unset none = unset
  number_or_unset (some n) = numeral n

  abbrev pub number_parsed : ℕ → Option String → Parsed
  number_parsed d none = numeral (whole d)
  number_parsed d (some v) = number_or_unset (number v)

  -- What the schema makes of a value that it accepts.
  unfoldable pub parsed : Rule → Option String → Parsed
  parsed url v = text_or_unset v
  parsed optional_url v = text_or_unset (blank_as_unset v)
  parsed optional_email v = text_or_unset (blank_as_unset v)
  parsed origin_list v = texts (origins (or_default v ""))
  parsed key_32_bytes v = text_or_unset v
  parsed (at_least n) v = text_or_unset v
  parsed (optional_at_least n) v = text_or_unset (blank_as_unset v)
  parsed (at_least_or n d) v = text (or_default v d)
  parsed (one_of names d) v = text (or_default v d)
  parsed (number_or d) v = number_parsed d v

  abbrev pub issues : List (String × Rule) → (String → Option String) → List String
  issues [] config = []
  issues ((name, rule) ∷ rest) config =
      let later = issues rest config in if accepts rule (config name) then later else name ∷ later

  abbrev pub env : List (String × Rule) → (String → Option String) → List (String × Parsed)
  env [] config = []
  env ((name, rule) ∷ rest) config = (name, parsed rule (config name)) ∷ env rest config

  abbrev pub outcome : List String → List (String × Parsed) → Outcome (List (String × Parsed))
  outcome [] values = started values
  outcome (x ∷ xs) values = refused (x ∷ xs)

  -- The argument is the value of each variable that is set.
  unfoldable pub validate_env : (String → Option String) → Outcome (List (String × Parsed))
  unfolding accepts parsed
  validate_env config = outcome (issues env_schema config) (env env_schema config)
