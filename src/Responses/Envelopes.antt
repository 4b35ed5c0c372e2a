-- ===== src/Responses/Envelopes.antt =====
-- What a client can read off an answer.
use script_pay_backend.Shared.{ℕ, String, Bool, true, false, some, List, ◌≡◌, refl, ap, map}
use script_pay_backend.Responses.{
  http, unhandled, catch_exception, Outcome, returned, thrown, Reply, bare, enveloped, refused,
  respond, Issue, Parsed, rejected, detail, outcome_of, transform, after_pipe,
}

module _ {ℓ} {A : Type ℓ} where
  abbrev pub status_of : ℕ → Reply A → ℕ
  status_of status (refused r) = r.status
  status_of status _ = status

  abbrev pub says_success : Reply A → Bool
  says_success (bare a) = true
  says_success (enveloped e) = e.success
  says_success (refused r) = r.success

  abbrev pub stated_status : ℕ → Reply A → ℕ
  stated_status status (bare a) = status
  stated_status status (enveloped e) = e.status_code
  stated_status status (refused r) = r.status_code

  abbrev pub has_returned : Outcome A → Bool
  has_returned (returned a) = true
  has_returned (thrown e) = false

  -- An answer says success just if the handler returned, and the status in its body is the status
  -- that it is sent with.
  pub respond_tells :
      (skip : Bool) (status : ℕ) (o : Outcome A)
      → (says_success (respond skip status o) ≡ has_returned o)
        × (stated_status status (respond skip status o) ≡ status_of status (respond skip status o))
  unfolding respond catch_exception
  respond_tells true status (returned a) = (refl, refl)
  respond_tells false status (returned a) = (refl, refl)
  respond_tells skip status (thrown (http n body own)) = (refl, refl)
  respond_tells skip status (thrown (unhandled m)) = (refl, refl)

  -- An exception that is no HttpException is always reported, and no answer depends on its text.
  pub catch_exception_hides :
      (skip : Bool) (status : ℕ) (m n : String)
      → ((catch_exception (unhandled m)).1 ≡ true)
        × (respond {A = A} skip status (thrown (unhandled m))
            ≡ respond skip status (thrown (unhandled n)))
  unfolding respond catch_exception
  catch_exception_hides skip status m n = (refl, refl)

-- A body that the schema rejects never reaches the handler: the answer is 400 with the issues in
-- their order, under dotted paths.
pub respond-transform {ℓ} :
    {A B C : Type ℓ} (schema : A → Parsed B) (handler : B → Outcome C) (value : A)
    (issues : List Issue) (skip : Bool) (status : ℕ)
    → schema value ≡ rejected issues
    → respond skip status (after_pipe (transform schema value) handler)
      ≡ refused (record {
        status = 400;
        success = false;
        message = "Validation failed";
        status_code = 400;
        details = some (map detail issues);
      })
unfolding respond transform catch_exception
respond-transform schema handler value issues skip status h =
    ap (λ p. respond skip status (after_pipe (outcome_of p) handler)) h
