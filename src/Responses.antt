-- ===== src/Responses.antt =====
-- What goes back to a client: http-exception.filter.ts, response-transform.interceptor.ts and
-- zod-validation.pipe.ts of src/common. A schema is a parameter.
pub mod Envelopes
use Prim.Native.String.{◌++◌ as append}
use script_pay_backend.Shared.{
  ℕ, String, Bool, true, false, Option, none, some, List, [], ◌∷◌, leb, map,
}

-- A message is one text or several.
pub data Message : Type 0 where
  one : String → Message
  several : List String → Message

pub record Detail : Type 0 where
  pub path : String
  pub message : String

pub record ObjectBody : Type 0 where
  pub message : Option Message
  pub issues : Option (List Detail)

pub data Body : Type 0 where
  text : String → Body
  object : ObjectBody → Body

-- What a handler or a guard throws: an `HttpException` with its status, body and message, or
-- anything else, here with its text.
pub data Exception : Type 0 where
  http : ℕ → Body → String → Exception
  unhandled : String → Exception

pub record ErrorReply : Type 0 where
  pub status : ℕ
  pub success : Bool
  pub message : String
  pub status_code : ℕ
  pub details : Option (List Detail)

abbrev pub join : String → List String → String
join separator [] = ""
join separator (x ∷ []) = x
join separator (x ∷ y ∷ xs) = append x (append separator (join separator (y ∷ xs)))

abbrev pub message_of : Body → String → Message
message_of (text m) own = one m
message_of (object b) own = elim b.message [ some m ↦ m | none ↦ one own ]

abbrev pub as_text : Message → String
as_text (one m) = m
as_text (several ms) = join ", " ms

abbrev pub issues_of : Body → Option (List Detail)
issues_of (text m) = none
issues_of (object b) = b.issues

-- `HttpExceptionFilter.catch`: the answer, and whether Sentry is told.
unfoldable pub catch_exception : Exception → ErrorReply × Bool
catch_exception (http status body own) = (
  record {
    status = status;
    success = false;
    message = as_text (message_of body own);
    status_code = status;
    details = issues_of body;
  },
  leb 500 status,
)
catch_exception (unhandled m) = (
  record {
    status = 500;
    success = false;
    message = "Internal server error";
    status_code = 500;
    details = none;
  },
  true,
)

-- What a handler comes to.
pub data Outcome {ℓ} (A : Type ℓ) : Type ℓ where
  returned : A → Outcome A
  thrown : Exception → Outcome A

-- `ApiSuccessEnvelope`.
pub record Envelope {ℓ} (A : Type ℓ) : Type ℓ where
  pub success : Bool
  pub message : String
  pub status_code : ℕ
  pub payload : A

pub data Reply {ℓ} (A : Type ℓ) : Type ℓ where
  bare : A → Reply A
  enveloped : Envelope A → Reply A
  refused : ErrorReply → Reply A

-- `ResponseTransformInterceptor.intercept` of what a handler returned.
abbrev pub intercept {ℓ} : {A : Type ℓ} → Bool → ℕ → A → Reply A
intercept true status a = bare a
intercept false status a =
    enveloped (record { success = true; message = "OK"; status_code = status; payload = a })

-- The interceptor and the filter around a handler.
unfoldable pub respond {ℓ} : {A : Type ℓ} → Bool → ℕ → Outcome A → Reply A
unfolding catch_exception
respond skip status (returned a) = intercept skip status a
respond skip status (thrown e) = refused (catch_exception e).0

pub record Issue : Type 0 where
  pub path : List String
  pub message : String

-- What `safeParse` answers.
pub data Parsed {ℓ} (A : Type ℓ) : Type ℓ where
  parsed : A → Parsed A
  rejected : List Issue → Parsed A

abbrev pub detail : Issue → Detail
detail i = record { path = join "." i.path; message = i.message }

abbrev pub validation_failed : List Issue → Exception
validation_failed issues =
    http 400
      (object
        (record { message = some (one "Validation failed"); issues = some (map detail issues) }))
      "Validation failed"

abbrev pub outcome_of {ℓ} : {A : Type ℓ} → Parsed A → Outcome A
outcome_of (parsed a) = returned a
outcome_of (rejected issues) = thrown (validation_failed issues)

-- `ZodValidationPipe.transform`.
unfoldable pub transform {ℓ} : {A B : Type ℓ} → (A → Parsed B) → A → Outcome B
transform schema value = outcome_of (schema value)

-- A handler behind its pipe.
abbrev pub after_pipe {ℓ} : {B C : Type ℓ} → Outcome B → (B → Outcome C) → Outcome C
after_pipe (returned b) handler = handler b
after_pipe (thrown e) handler = thrown e
