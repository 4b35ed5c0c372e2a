-- ===== src/Shared/Lists.antt =====
-- Tables as lists of rows: look-ups and updates by a Boolean test, lengths and prefixes.
use Prim.Native.Nat.{ℕ, zero, suc}
use mathlib.Core.Path.{◌≡◌, refl}
use mathlib.Core.Bool.{Bool, true, false, ◌||◌}
use mathlib.Core.Option.{Option, none, some}
use mathlib.Core.List.{List, [], ◌∷◌, ◌++◌}
use native.Mathlib.Omega.{arith}
use script_pay_backend.Shared.Tests.{if◌then◌else◌}
use script_pay_backend.Shared.Int.{ℤ, ◌+ℤ◌, int_laws, sum_of}

module _ {ℓ} {A : Type ℓ} where
  abbrev pub length : List A → ℕ
  length [] = 0
  length (x ∷ xs) = suc (length xs)

  abbrev pub take : ℕ → List A → List A
  take zero xs = []
  take (suc n) [] = []
  take (suc n) (x ∷ xs) = x ∷ take n xs

  -- `findUnique` and `findFirst`.
  abbrev pub find : (A → Bool) → List A → Option A
  find p [] = none
  find p (x ∷ xs) = if p x then some x else find p xs

  -- `findMany`.
  abbrev pub filter : (A → Bool) → List A → List A
  filter p [] = []
  filter p (x ∷ xs) = let rest = filter p xs in if p x then x ∷ rest else rest

  abbrev pub any : (A → Bool) → List A → Bool
  any p [] = false
  any p (x ∷ xs) = p x || any p xs

  -- `update`, where the test fits one row at most.
  abbrev pub update : (A → Bool) → (A → A) → List A → List A
  update p f [] = []
  update p f (x ∷ xs) = if p x then f x ∷ xs else x ∷ update p f xs

  -- `updateMany`.
  abbrev pub update_many : (A → Bool) → (A → A) → List A → List A
  update_many p f [] = []
  update_many p f (x ∷ xs) = (if p x then f x else x) ∷ update_many p f xs

module _ {A : Type 0} where
  -- An update moves the sum by the change at the row that it finds.
  pub sum_of-update :
      (w : A → ℤ) (p : A → Bool) (f : A → A) (x : A) (xs : List A)
      → find p xs ≡ some x
      → sum_of w (update p f xs) +ℤ w x ≡ sum_of w xs +ℤ w (f x)
  sum_of-update w p f x [] h = ground arith
  sum_of-update w p f x (y ∷ xs) h = grind (int_laws, sum_of-update w p f x xs)

  -- What is not found is not updated.
  pub update-find-none :
      (p : A → Bool) (f : A → A) (xs : List A) → find p xs ≡ none → update p f xs ≡ xs
  update-find-none p f [] h = refl
  update-find-none p f (x ∷ xs) h = ground (arith, update-find-none p f xs)

  -- The row that a look-up finds passes its test.
  pub find_test : (p : A → Bool) (x : A) (xs : List A) → find p xs ≡ some x → p x ≡ true
  find_test p x [] h = ground arith
  find_test p x (y ∷ xs) h = ground (arith, find_test p x xs)

  pub find-append_none :
      (p : A → Bool) (xs ys : List A) → find p xs ≡ none → find p (xs ++ ys) ≡ find p ys
  find-append_none p [] ys h = refl
  find-append_none p (x ∷ xs) ys h = ground (arith, find-append_none p xs ys)

  -- An update that keeps the outcome of another test hides no row from it and shows it none.
  pub find-update-none :
      (p q : A → Bool) (f : A → A) (xs : List A)
      → ((x : A) → p (f x) ≡ p x)
      → find p xs ≡ none
      → find p (update q f xs) ≡ none
  find-update-none p q f [] same h = refl
  find-update-none p q f (x ∷ xs) same h = ground (arith, same x, find-update-none p q f xs same)

  -- The row that an update has changed is found again, if it still passes the test.
  pub find-update_self :
      (p : A → Bool) (f : A → A) (x : A) (xs : List A)
      → find p xs ≡ some x
      → p (f x) ≡ true
      → find p (update p f xs) ≡ some (f x)
  find-update_self p f x [] h k = ground arith
  find-update_self p f x (y ∷ xs) h k = ground (arith, find-update_self p f x xs)
