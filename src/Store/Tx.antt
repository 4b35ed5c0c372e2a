-- ===== src/Store/Tx.antt =====
-- `prisma.$transaction`: what throws inside it leaves no trace, so an error carries no store.
use script_pay_backend.Shared.{Bool, true, false, ℕ, ◌+◌}
use script_pay_backend.Store.Rows.{Error, Store}

pub data Result {ℓ} (A : Type ℓ) : Type ℓ where
  ok : A → Result A
  err : Error → Result A

abbrev pub Tx : Type 0 → Type 0
Tx A = Store → Result (A × Store)

abbrev pub pure : {A : Type 0} → A → Tx A
pure a s = ok (a, s)

abbrev pub throw : {A : Type 0} → Error → Tx A
throw e s = err e

infixl 5 ◌>>=◌ ◌>>◌
abbrev pub ◌>>=◌ : {A B : Type 0} → Tx A → (A → Tx B) → Tx B
◌>>=◌ m f s = elim (m s) [ ok (a, t) ↦ f a t | err e ↦ err e ]

abbrev pub ◌>>◌ : {A B : Type 0} → Tx A → Tx B → Tx B
m >> k = m >>= λ _. k

abbrev pub throw_if : Bool → Error → Tx (Unit {0})
throw_if true e s = err e
throw_if false e s = ok (tt, s)

abbrev pub gets : {A : Type 0} → (Store → A) → Tx A
gets f s = ok (f s, s)

abbrev pub modify : (Store → Store) → Tx (Unit {0})
modify f s = ok (tt, f s)

-- The id of a row about to be created.
abbrev pub fresh_id : Tx ℕ
fresh_id s = ok (s.next_id, record s { next_id = s.next_id + 1 })
