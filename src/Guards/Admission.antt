-- ===== src/Guards/Admission.antt =====
-- Whom the guards of the dashboard's routes let through.
use Prim.Native.String.{slice, len}
use mathlib.Core.List.{Memᴰ}
use text.Mathlib.Text.{starts_with, find?}
use script_pay_backend.Shared.{
  String, true, Option, none, some, List, [], ◌∷◌, ◌≡◌, ◌≢◌, ◌⊎◌, refl, Bool, false, inl, inr,
  if◌then◌else◌, sym, ◌∙◌, subst, ap, not, is_some, str_eq, any, eq_iff, both_true, either_true,
  truthy, ◌&&◌, ◌||◌,
}
use script_pay_backend.Store.Rows.{Role, unauthorized}
use script_pay_backend.Store.Tx.{Result, ok, err}
use script_pay_backend.Tenants.Access.{AuthenticatedUser}
use script_pay_backend.Guards.{
  Method, Request, admit, and_then, pass_if, with_user, check_bearer, bearer, check_access_token,
  check_csrf, check_roles, has_role, is_unforged, sent_token, tokens_match, is_state_changing,
  is_webhook_path, role_eq,
}

-- A non-empty text that the cookie holds and the header repeats.
abbrev pub Repeats : Option String → Option String → Type 0
Repeats cookie header =
    (token : String) × (token ≢ "") × (cookie ≡ some token) × (header ≡ some token)

-- A method that changes nothing.
abbrev pub IsSafe : Method → Type 0
IsSafe m = ((m ≡ Method.get) ⊎ (m ≡ Method.head)) ⊎ ((m ≡ Method.options) ⊎ (m ≡ Method.other))

is_safe_lem : (m : Method) → not (is_state_changing m) ≡ true → IsSafe m
is_safe_lem Method.get h = inl (inl refl)
is_safe_lem Method.head h = inl (inr refl)
is_safe_lem Method.options h = inr (inl refl)
is_safe_lem Method.other h = inr (inr refl)
is_safe_lem Method.post h = cc h
is_safe_lem Method.put h = cc h
is_safe_lem Method.delete h = cc h
is_safe_lem Method.patch h = cc h

-- A request that carries a token that verifies as the user it is handed on for, whose role is
-- among the required ones if any are, and that repeats its CSRF cookie as a header, if it may change
-- anything and its path is not a webhook's.
pub record IsGenuine (verify : String → Option AuthenticatedUser) (required : List Role)
    (r q : Request) (u : AuthenticatedUser) : Type 0 where
  pub user_set : q ≡ record r { user = some u }
  pub token_verified :
      (header : String) × (r.authorization ≡ some header)
      × (starts_with header "Bearer " ≡ true)
      × (verify (slice header 7 (len header)) ≡ some u)
  pub role_held : (required ≡ []) ⊎ Memᴰ u.role required
  pub not_forged :
      IsSafe r.method
      ⊎ ((is_some (find? r.path "/webhooks/") ≡ true) ⊎ Repeats r.csrf_cookie r.csrf_header)

pub tokens_match_lem :
    (cookie header : Option String) → tokens_match cookie header ≡ true → Repeats cookie header
tokens_match_lem none header h = cc h
tokens_match_lem (some c) none h =
    cc
      (both_true (truthy (some c)) (truthy none)
        (both_true (truthy (some c) && truthy none) (str_eq c "") h).0).1
tokens_match_lem (some c) (some d) h =
    let (both, same) = both_true (truthy (some c) && truthy (some d)) (str_eq c d) h in
    let (full, sent) = both_true (truthy (some c)) (truthy (some d)) both in
    (
      c,
      λ empty. filled (str_eq c "") full ((eq_iff c "").1 empty),
      refl,
      ap some (sym ((eq_iff c d).0 same)),
    )
  where
    filled : (b : Bool) → not b ≡ true → b ≡ true → ⊥
    filled true h k = cc h
    filled false h k = cc k

pub is_unforged_lem :
    (r : Request)
    → is_unforged r ≡ true
    → IsSafe r.method
      ⊎ ((is_some (find? r.path "/webhooks/") ≡ true) ⊎ Repeats r.csrf_cookie r.csrf_header)
is_unforged_lem r h =
    let matched = tokens_match r.csrf_cookie r.csrf_header in
    let idle = not (is_state_changing r.method) in
    elim (either_true (idle || is_webhook_path r.path) matched h) [
      | inl excused ↦ elim (either_true idle (is_webhook_path r.path) excused) [
        | inl safe ↦ inl (is_safe_lem r.method safe)
        | inr hook ↦ inr (inl hook)
      ]
      | inr repeats ↦ inr (inr (tokens_match_lem r.csrf_cookie r.csrf_header repeats))
    ]

role_eq_lem : (x y : Role) → role_eq x y ≡ true → x ≡ y
role_eq_lem Role.super_admin Role.super_admin h = refl
role_eq_lem Role.tenant_admin Role.tenant_admin h = refl
role_eq_lem Role.tenant_staff Role.tenant_staff h = refl
role_eq_lem Role.super_admin Role.tenant_admin h = cc h
role_eq_lem Role.super_admin Role.tenant_staff h = cc h
role_eq_lem Role.tenant_admin Role.super_admin h = cc h
role_eq_lem Role.tenant_admin Role.tenant_staff h = cc h
role_eq_lem Role.tenant_staff Role.super_admin h = cc h
role_eq_lem Role.tenant_staff Role.tenant_admin h = cc h

any_role_lem :
    (role : Role) (required : List Role) → any (role_eq role) required ≡ true → Memᴰ role required
any_role_lem role [] h = cc h
any_role_lem role (x ∷ required) h = elim (either_true (role_eq role x) _ h) [
  | inl is ↦ Memᴰ.head (role_eq_lem role x is)
  | inr later ↦ Memᴰ.tail (any_role_lem role required later)
]

role_held_lem :
    (required : List Role) (u : AuthenticatedUser)
    → (required ≡ []) ⊎ (has_role required (some u) ≡ true)
    → (required ≡ []) ⊎ Memᴰ u.role required
role_held_lem required u (inl free) = inl free
role_held_lem required u (inr held) = inr (any_role_lem u.role required held)

and_then_passed :
    (m : Result Request) (f : Request → Result Request) (q : Request)
    → and_then m f ≡ ok q
    → (p : Request) × (m ≡ ok p) × (f p ≡ ok q)
and_then_passed (ok p) f q h = (p, refl, h)
and_then_passed (err e) f q h = cc h

pass_if_passed : (b : Bool) (r q : Request) → pass_if b r ≡ ok q → (b ≡ true) × (r ≡ q)
pass_if_passed true r q h = (refl, cc h)
pass_if_passed false r q h = cc h

check_roles_passed :
    (required : List Role) (r q : Request)
    → check_roles required r ≡ ok q
    → ((required ≡ []) ⊎ (has_role required r.user ≡ true)) × (r ≡ q)
unfolding check_roles
check_roles_passed [] r q h = (inl refl, cc h)
check_roles_passed (x ∷ required) r q h =
    let p = pass_if_passed (has_role (x ∷ required) r.user) r q h in (inr p.0, p.1)

with_user_passed :
    (r q : Request) (o : Option AuthenticatedUser)
    → with_user r o ≡ ok q
    → (u : AuthenticatedUser) × (o ≡ some u) × (record r { user = some u } ≡ q)
with_user_passed r q none h = cc h
with_user_passed r q (some u) h = (u, refl, cc h)

test_passed :
    (b : Bool) (m : Result Request) (q : Request)
    → (if b then m else err unauthorized) ≡ ok q
    → (b ≡ true) × (m ≡ ok q)
test_passed true m q h = (refl, h)
test_passed false m q h = cc h

module _ (verify : String → Option AuthenticatedUser) where
  check_bearer_passed :
      (r q : Request) (o : Option String)
      → check_bearer verify r o ≡ ok q
      → (u : AuthenticatedUser) × ((header : String) × (o ≡ some header)
          × (starts_with header "Bearer " ≡ true)
          × (verify (slice header 7 (len header)) ≡ some u))
        × (record r { user = some u } ≡ q)
  check_bearer_passed r q none h = cc h
  check_bearer_passed r q (some header) h =
      let (begins, passed) =
        test_passed (starts_with header bearer) (with_user r (verify (sent_token header))) q h in
      let (u, verified, is) = with_user_passed r q (verify (sent_token header)) passed in
      (u, (header, refl, begins, verified), is)

  -- A request that access token, CSRF and role guards let through carries a bearer token that
  -- verifies, is handed on for the user of that token and otherwise unchanged, has one of the roles
  -- that the route requires if it requires any, and repeats its non-empty CSRF cookie as a header,
  -- unless its method changes nothing or its path contains /webhooks/.
  pub admit-IsGenuine :
      (required : List Role) (r q : Request)
      → admit verify required r ≡ ok q
      → (u : AuthenticatedUser) × IsGenuine verify required r q u
  unfolding admit check_access_token check_csrf check_roles
  admit-IsGenuine required r q h =
      let a = and_then_passed _ (check_roles required) q h in
      let b = and_then_passed _ check_csrf a.0 a.1 in
      let c = check_bearer_passed r b.0 r.authorization b.1 in
      let d = pass_if_passed _ b.0 a.0 b.2 in
      let e = check_roles_passed required a.0 q a.2 in
      let set = c.2 ∙ d.1 in
      let held = subst (λ x. (required ≡ []) ⊎ (has_role required x.user ≡ true)) (sym set) e.0 in
      (
        c.0,
        record {
          user_set = sym (set ∙ e.1);
          token_verified = c.1;
          role_held = role_held_lem required c.0 held;
          not_forged = is_unforged_lem r (subst (λ x. is_unforged x ≡ true) (sym c.2) d.0);
        },
      )
