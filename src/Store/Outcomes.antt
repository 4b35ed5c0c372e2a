-- ===== src/Store/Outcomes.antt =====
-- How a transaction or a service method can end, and a rule for each way of composing them: the
-- proofs about services walk their `do` blocks by these.
use script_pay_backend.Shared.{◌≡◌, ap}
use script_pay_backend.Store.Rows.{Error, Store}
use script_pay_backend.Store.Tx.{Tx, Result, ok, err}
use script_pay_backend.Store.Action.{
  Action, await, committed, transaction, handled, try_catch, ◌>>=◌,
}

-- What holds of the value and the store that a transaction leaves, if it leaves one.
abbrev pub Leaves : {A : Type 0} → (A → Store → Type 0) → Result (A × Store) → Type 0
Leaves P (ok (a, s)) = P a s
Leaves P (err e) = Unit

-- What holds after a method: `P` of its value and the store, or `Q` of its error and the store.
abbrev pub Ends :
    {A : Type 0} → (A → Store → Type 0) → (Error → Store → Type 0) → Result A × Store → Type 0
Ends P Q (ok a, s) = P a s
Ends P Q (err e, s) = Q e s

module _ {A B : Type 0} (P : A → Store → Type 0) (R : B → Store → Type 0)
    (Q : Error → Store → Type 0) where
  pub >>=-Ends :
      (m : Action A) (f : A → Action B) (s : Store)
      → Ends P Q (m s)
      → ((a : A) (t : Store) → P a t → Ends R Q (f a t))
      → Ends R Q ((m >>= f) s)
  >>=-Ends m f s h k = go (m s).0 (m s).1 h
    where
      go :
          (r : Result A) (t : Store)
          → Ends P Q (r, t)
          → Ends R Q (elim r [ ok a ↦ f a t | err e ↦ (err e, t) ])
      go (ok a) t p = k a t p
      go (err e) t q = q

module _ {A : Type 0} (P : A → Store → Type 0) (Q : Error → Store → Type 0) where
  pub transaction-Ends :
      (m : Tx A) (s : Store) → Leaves P (m s) → ((e : Error) → Q e s) → Ends P Q (transaction m s)
  transaction-Ends m s h k = go (m s) h
    where
      go : (r : Result (A × Store)) → Leaves P r → Ends P Q (committed s r)
      go (ok (a, t)) p = p
      go (err e) p = k e

  pub try_catch-Ends :
      (Q' : Error → Store → Type 0) (m : Action A) (catch : Error → Action A) (s : Store)
      → Ends P Q' (m s)
      → ((e : Error) (t : Store) → Q' e t → Ends P Q (catch e t))
      → Ends P Q (try_catch m catch s)
  try_catch-Ends Q' m catch s h k = go (m s).0 (m s).1 h
    where
      go : (r : Result A) (t : Store) → Ends P Q' (r, t) → Ends P Q (handled r catch t)
      go (ok a) t p = p
      go (err e) t q = k e t q

  pub await-Ends :
      (r : Result A) (s : Store) → ((a : A) → P a s) → ((e : Error) → Q e s) → Ends P Q (await r s)
  await-Ends (ok a) s p q = p a
  await-Ends (err e) s p q = q e

-- A weaker condition on what a transaction leaves.
pub Leaves-weaken :
    {A : Type 0} (P Q : A → Store → Type 0) (r : Result (A × Store))
    → ((a : A) (s : Store) → P a s → Q a s)
    → Leaves P r
    → Leaves Q r
Leaves-weaken P Q (ok (a, s)) w h = w a s h
Leaves-weaken P Q (err e) w h = tt

pub Leaves-both :
    {A : Type 0} (P Q : A → Store → Type 0) (r : Result (A × Store))
    → Leaves P r
    → Leaves Q r
    → Leaves (λ a s. P a s × Q a s) r
Leaves-both P Q (ok (a, s)) h k = (h, k)
Leaves-both P Q (err e) h k = tt

pub Ends-weaken :
    {A : Type 0} (P R : A → Store → Type 0) (Q : Error → Store → Type 0) (o : Result A × Store)
    → ((a : A) (s : Store) → P a s → R a s)
    → Ends P Q o
    → Ends R Q o
Ends-weaken P R Q (ok a, s) w h = w a s h
Ends-weaken P R Q (err e, s) w h = h

-- What is refused ends there.
pub >>=-refused :
    {A B : Type 0} (m : Action A) (f : A → Action B) (e : Error) (s : Store)
    → m s ≡ (err e, s)
    → (m >>= f) s ≡ (err e, s)
>>=-refused {A} {B} m f e s h = ap then h
  where
    then : Result A × Store → Result B × Store
    then p = elim p.0 [ ok a ↦ f a p.1 | err e ↦ (err e, p.1) ]

-- What is answered is passed on.
pub >>=-returned :
    {A B : Type 0} (m : Action A) (f : A → Action B) (a : A) (s t : Store)
    → m s ≡ (ok a, t)
    → (m >>= f) s ≡ f a t
>>=-returned {A} {B} m f a s t h = ap then h
  where
    then : Result A × Store → Result B × Store
    then p = elim p.0 [ ok a ↦ f a p.1 | err e ↦ (err e, p.1) ]
