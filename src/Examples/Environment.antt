-- ===== src/Examples/Environment.antt =====
-- An environment that starts the program.
use script_pay_backend.Shared.{
  ℕ, String, true, Option, none, some, [], ◌∷◌, ◌≡◌, refl, str_eq, ◌||◌, if◌then◌else◌,
}
use script_pay_backend.Config.{
  Library, number_or, env_schema, started, parsed, accepts, env, validate_env, numeral,
}
use script_pay_backend.Config.Boot.{with_blank, blank_number_accepted}

-- Everything is a URL, an email address and a key; a blank is 0, and every other text 1.
abbrev lib : Library
lib = record {
  Number = ℕ;
  is_url = λ s. true;
  is_email = λ s. true;
  number = λ s. if str_eq s "" then some 0 else some 1;
  whole = λ n. n;
  decoded_length = λ s. 32;
  origins = λ s. s ∷ [];
}

abbrev config : String → Option String
config name =
    if str_eq name "NODE_ENV"
    then some "production"
    else if str_eq name "MPESA_ENV" || str_eq name "JOB_SCHEDULER"
    then none
    else some "a text of more than thirty-two letters"

blank_number_accepted_example :
    (validate_env lib (with_blank "JWT_REFRESH_TTL_DAYS" config)
      ≡ started (env lib env_schema (with_blank "JWT_REFRESH_TTL_DAYS" config)))
    × ((d : ℕ)
        → parsed lib (number_or d) (with_blank "JWT_REFRESH_TTL_DAYS" config "JWT_REFRESH_TTL_DAYS")
          ≡ numeral 0)
unfolding validate_env accepts
blank_number_accepted_example =
    blank_number_accepted lib "JWT_REFRESH_TTL_DAYS" 0 refl config (env lib env_schema config) refl
      refl
