-- ===== src/Sessions/Routes/Forged.antt =====
-- What a forged request can do to a session.
use text.Mathlib.Text.{find?}
use script_pay_backend.Shared.{
  String, false, none, [], ◌≡◌, ◌⊎◌, inl, inr, refl, sym, ◌∙◌, subst, truthy, Bool-cases, is_some,
}
use script_pay_backend.Store.Rows.{Store, forbidden}
use script_pay_backend.Store.Tx.{ok, err}
use script_pay_backend.Guards.{Method, Request, is_unforged, check_csrf, check_refresh_csrf}
use script_pay_backend.Guards.Admission.{IsSafe, Repeats, is_unforged_lem}
use script_pay_backend.Sessions.Auth.{AuthConfig}
use script_pay_backend.Sessions.Routes.{Body, refresh, logout}

post_is_unsafe : IsSafe Method.post → ⊥
post_is_unsafe (inl (inl h)) = cc h
post_is_unsafe (inl (inr h)) = cc h
post_is_unsafe (inr (inl h)) = cc h
post_is_unsafe (inr (inr h)) = cc h

-- A POST whose header does not repeat a non-empty cookie does not pass.
post_is_forged :
    (r : Request)
    → r.method ≡ Method.post
    → is_some (find? r.path "/webhooks/") ≡ false
    → ¬ Repeats r.csrf_cookie r.csrf_header
    → is_unforged r ≡ false
post_is_forged r posted elsewhere unrepeated = elim (Bool-cases (is_unforged r)) [
  | inr forged ↦ forged
  | inl passed ↦ elim (is_unforged_lem r passed) [
    | inl safe ↦ absurd (post_is_unsafe (subst IsSafe posted safe))
    | inr (inl hook) ↦ cc (sym hook ∙ elsewhere)
    | inr (inr repeats) ↦ absurd (unrepeated repeats)
  ]
]

module _ (config : AuthConfig) (raw csrf : String) (r : Request) (s : Store) where
  -- A POST to refresh a session or to log out that does not repeat a non-empty CSRF cookie as its
  -- header (either is missing or empty, or they differ) changes nothing: it is refused, or, if it
  -- carries no refresh token to refresh, answered that there is no session; whatever the rest of
  -- the request is, if its path does not contain /webhooks/.
  pub forged_changes_nothing :
      r.method ≡ Method.post
      → is_some (find? r.path "/webhooks/") ≡ false
      → ¬ Repeats r.csrf_cookie r.csrf_header
      → ((refresh config raw csrf r s ≡ (err forbidden, s))
          ⊎ ((truthy r.refresh_cookie ≡ false)
              × (refresh config raw csrf r s ≡ (ok (Body.access_token none, []), s))))
        × (logout config r s ≡ (err forbidden, s))
  unfolding refresh logout check_csrf check_refresh_csrf
  forged_changes_nothing posted elsewhere unrepeated =
      let forged = post_is_forged r posted elsewhere unrepeated in
      elim (Bool-cases (truthy r.refresh_cookie)) [
        | inl given ↦ (inl (rw given (rw forged refl)), rw forged refl)
        | inr missing ↦ (inr (missing, rw missing (rw missing refl)), rw forged refl)
      ]
