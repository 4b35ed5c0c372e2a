-- ===== src/Store/Invariants.antt =====
-- What a service method maintains, whether it answers or throws.
use script_pay_backend.Shared.{List, [], ◌∷◌, ◌≡◌, subst, sym, refl}
use script_pay_backend.Store.Rows.{Store, Error}
use script_pay_backend.Store.Tx.{Tx, Result, ok, err}
use script_pay_backend.Store.Outcomes.{Leaves}
use script_pay_backend.Store.Action.{
  Action, pure, throw, ◌>>=◌, transaction, committed, try_catch, handled, gets, await, for_each,
}

pub record Maintains {A : Type 0} (P : Store → Type 0) (m : Action A) : Type 0 where
  pub at : (s : Store) → P s → P (m s).1

-- What holds of the store that a run leaves.
abbrev pub After : {A : Type 0} → (Store → Type 0) → Result A × Store → Type 0
After P out = P out.1

module _ {P : Store → Type 0} where
  pub >>=-Maintains :
      {A B : Type 0} (m : Action A) (f : A → Action B)
      → Maintains P m
      → ((a : A) → Maintains P (f a))
      → Maintains P (m >>= f)
  >>=-Maintains {A} {B} m f hm hf = record { at = λ s h. go (m s).0 (m s).1 (hm.at s h) }
    where
      go :
          (r : Result A) (t : Store)
          → P t
          → After {A = B} P (elim r [ ok a ↦ f a t | err e ↦ (err e, t) ])
      go (ok a) t k = (hf a).at t k
      go (err e) t k = k

  pub transaction-Maintains :
      {A : Type 0} (m : Tx A)
      → ((s : Store) → P s → Leaves (λ a. P) (m s))
      → Maintains P (transaction m)
  transaction-Maintains {A} m k = record { at = λ s h. go s h (m s) (k s h) }
    where
      go : (s : Store) → P s → (r : Result (A × Store)) → Leaves (λ a. P) r → P (committed s r).1
      go s h (ok (a, t)) c = c
      go s h (err e) c = h

  pub try_catch-Maintains :
      {A : Type 0} (m : Action A) (f : Error → Action A)
      → Maintains P m
      → ((e : Error) → Maintains P (f e))
      → Maintains P (try_catch m f)
  try_catch-Maintains {A} m f hm hf = record { at = λ s h. go (m s).0 (m s).1 (hm.at s h) }
    where
      go : (r : Result A) (t : Store) → P t → P (handled r f t).1
      go (ok a) t k = k
      go (err e) t k = (hf e).at t k

  pub for_each-Maintains :
      {A : Type 0} (f : A → Action (Unit {0})) (xs : List A)
      → ((a : A) → Maintains P (f a))
      → Maintains P (for_each f xs)
  for_each-Maintains f [] hf = record { at = λ s h. h }
  for_each-Maintains f (x ∷ xs) hf =
      >>=-Maintains (f x) (λ _. for_each f xs) (hf x) λ _. for_each-Maintains f xs hf

  pub quietly : {A : Type 0} (m : Action A) → ((s : Store) → (m s).1 ≡ s) → Maintains P m
  quietly m same = record { at = λ s h. subst P (sym (same s)) h }

  pub gets-Maintains : {A : Type 0} (f : Store → A) → Maintains P (gets f)
  gets-Maintains f = quietly (gets f) λ s. refl

  pub pure-Maintains : {A : Type 0} (a : A) → Maintains P (pure a)
  pure-Maintains a = quietly (pure a) λ s. refl

  pub throw-Maintains : {A : Type 0} (e : Error) → Maintains P (throw {A = A} e)
  throw-Maintains e = quietly (throw e) λ s. refl

  pub await-Maintains : {A : Type 0} (r : Result A) → Maintains P (await r)
  await-Maintains r = quietly (await r) λ s. refl

pub ruleset maintains = (
  >>=-Maintains, transaction-Maintains, try_catch-Maintains, for_each-Maintains, gets-Maintains,
  pure-Maintains, throw-Maintains, await-Maintains,
)
