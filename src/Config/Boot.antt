-- ===== src/Config/Boot.antt =====
-- What is known of the environment once the program has started.
use script_pay_backend.Shared.{
  ℕ, String, Bool, true, false, not, ◌&&◌, ◌||◌, Option, none, some, List, [], ◌∷◌, ◌≡◌, ◌≤◌, refl,
  arith, ap, suc, subst, leb, str_eq, eq_refl, eq_iff, Bool-cases, inl, inr, if◌then◌else◌,
}
use script_pay_backend.Store.Tx.{ok}
use script_pay_backend.Guards.{Request, check_webhook_token}
use script_pay_backend.Config.{
  Library, Rule, number_or, length_of, required, env_schema, started, Parsed, accepts, parsed,
  issues, env, outcome, validate_env, is_number, number_or_unset, numeral,
}

-- `process.env` with a variable that is set to nothing, as in `NAME=`.
abbrev pub with_blank : String → (String → Option String) → String → Option String
with_blank name config other = if str_eq other name then some "" else config other

abbrev pub is_number_rule : Rule → Bool
is_number_rule (number_or d) = true
is_number_rule _ = false

-- The schema knows the variable as a number, if at all.
abbrev pub is_numeric : String → List (String × Rule) → Bool
is_numeric name [] = true
is_numeric name ((other, rule) ∷ rest) =
    (not (str_eq other name) || is_number_rule rule) && is_numeric name rest

no_issue :
    (b : Bool) (name : String) (rest : List String)
    → (if b then rest else name ∷ rest) ≡ []
    → (b ≡ true) × (rest ≡ [])
no_issue true name rest h = (refl, h)
no_issue false name rest h = cc h

numeric_head :
    (same known rest : Bool)
    → ((not same || known) && rest) ≡ true
    → (same ≡ true → known ≡ true) × (rest ≡ true)
numeric_head true true rest h = (λ e. refl, h)
numeric_head true false rest h = cc h
numeric_head false known rest h = (λ e. cc e, h)

module _ (lib : Library) where
  open lib use {number, Number}

  abbrev AllAccepted : List (String × Rule) → (String → Option String) → Type 0
  AllAccepted [] config = Unit
  AllAccepted ((name, rule) ∷ rest) config =
      (accepts lib rule (config name) ≡ true) × AllAccepted rest config

  issues_none :
      (schema : List (String × Rule)) (config : String → Option String)
      → AllAccepted schema config
      → issues lib schema config ≡ []
  issues_none [] config h = refl
  issues_none ((name, rule) ∷ rest) config h = rw (h.0) (issues_none rest config h.1)

  none_refused :
      (schema : List (String × Rule)) (config : String → Option String)
      → issues lib schema config ≡ []
      → AllAccepted schema config
  none_refused [] config h = tt
  none_refused ((name, rule) ∷ rest) config h =
      let e = no_issue (accepts lib rule (config name)) name (issues lib rest config) h in
      (e.0, none_refused rest config e.1)

  outcome-started :
      (xs : List String) (values ws : List (String × Parsed lib))
      → outcome lib xs values ≡ started ws
      → xs ≡ []
  outcome-started [] values ws h = refl
  outcome-started (x ∷ xs) values ws h = cc h

  accepted_all :
      (config : String → Option String) (values : List (String × Parsed lib))
      → validate_env lib config ≡ started values
      → AllAccepted env_schema config
  unfolding validate_env
  accepted_all config values h =
      none_refused env_schema config (outcome-started (issues lib env_schema config) _ values h)

  module _ (name : String) (zero_value : Number) (reads : number "" ≡ some zero_value) where
    blank_accepted : (rule : Rule) → is_number_rule rule ≡ true → accepts lib rule (some "") ≡ true
    unfolding accepts
    blank_accepted (number_or d) h = ap (is_number lib) reads
    blank_accepted _ h = cc

    blank_AllAccepted :
        (schema : List (String × Rule)) (config : String → Option String)
        → is_numeric name schema ≡ true
        → AllAccepted schema config
        → AllAccepted schema (with_blank name config)
    blank_AllAccepted [] config known h = tt
    blank_AllAccepted ((other, rule) ∷ rest) config known h =
        let k =
          numeric_head (str_eq other name) (is_number_rule rule) (is_numeric name rest) known in
        let later = blank_AllAccepted rest config k.1 h.1 in
        elim (Bool-cases (str_eq other name)) [
          | inl same ↦ rw same (blank_accepted rule (k.0 same), later)
          | inr different ↦ rw different (h.0, later)
        ]

    -- If `Number` reads no text at all as a number, as JavaScript does (as 0), then a program that
    -- starts also starts when a variable that the schema knows as a number is set to nothing, and
    -- the value is then that number, whatever the default of the variable is.
    pub blank_number_accepted :
        (config : String → Option String) (values : List (String × Parsed lib))
        → is_numeric name env_schema ≡ true
        → validate_env lib config ≡ started values
        → (validate_env lib (with_blank name config)
            ≡ started (env lib env_schema (with_blank name config)))
          × ((d : ℕ) → parsed lib (number_or d) (with_blank name config name) ≡ numeral zero_value)
    unfolding validate_env parsed
    blank_number_accepted config values known h = (
      ap (λ xs. outcome lib xs (env lib env_schema (with_blank name config)))
          (issues_none env_schema (with_blank name config)
            (blank_AllAccepted env_schema config known (accepted_all config values h))),
      λ d. rw (eq_refl name) (ap (number_or_unset lib) reads),
    )

  long_enough :
      (n : ℕ) (v : Option String)
      → required (λ s. leb (suc n) (length_of s)) v ≡ true
      → (s : String) × (v ≡ some s) × (suc n ≤ length_of s)
  long_enough n none h = cc h
  long_enough n (some s) h = (s, refl, ground arith)

  not_blank : (s : String) → 32 ≤ length_of s → str_eq s "" ≡ false
  not_blank s h = elim (Bool-cases (str_eq s "")) [
    | inl blank ↦ absurd (nothing_short (subst (λ v. 32 ≤ length_of v) ((eq_iff s "").0 blank) h))
    | inr other ↦ other
  ]
    where
      nothing_short : 32 ≤ length_of "" → ⊥
      nothing_short k = omega arith

  -- Once the program has started, the webhook guard has a secret of at least 32 units to compare
  -- with: it lets a request in that carries it.
  pub started_webhook_guard :
      (config : String → Option String) (values : List (String × Parsed lib)) (r : Request)
      → validate_env lib config ≡ started values
      → (s : String) × (config "DARAJA_WEBHOOK_SECRET" ≡ some s)
        × (32 ≤ length_of s)
        × (check_webhook_token (config "DARAJA_WEBHOOK_SECRET") (record r { token_query = some s })
            ≡ ok (record r { token_query = some s }))
  unfolding accepts check_webhook_token
  started_webhook_guard config values r h =
      let all = accepted_all config values h in
      let found = long_enough 31 _ all.1.1.1.1.1.1.1.1.1.1.1.1.0 in
      (
        found.0,
        found.1,
        found.2,
        rw (found.1) (rw (not_blank found.0 found.2) (rw (eq_refl found.0) refl)),
      )
