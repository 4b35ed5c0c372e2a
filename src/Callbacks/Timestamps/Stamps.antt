-- ===== src/Callbacks/Timestamps/Stamps.antt =====
-- What a printed date and time is read as.
use Prim.Native.Nat.{◌/◌, ◌%◌}
use script_pay_backend.Shared.{
  ℕ, ◌+◌, ◌≤◌, ◌≡◌, String, true, false, Option, none, some, List, [], ◌∷◌, arith, refl, ap, ◌∙◌,
  if◌then◌else◌,
}
use script_pay_backend.Shared.Int.{ℤ, pos, ◌+ℤ◌}
use script_pay_backend.Callbacks.Payload.{Value, chain}
use script_pay_backend.Callbacks.Timestamps.{
  codes, is_space, trim, read, DateTime, match, has_value, instant, date_of, parse_daraja_timestamp,
}
use script_pay_backend.Callbacks.Timestamps.Calendar.{
  IsDate, tomorrow, tomorrow-IsDate, instant-tomorrow,
}

abbrev two : ℕ → List ℕ → List ℕ
two n rest = (48 + n / 10) ∷ (48 + n % 10) ∷ rest

abbrev four : ℕ → List ℕ → List ℕ
four n rest = (48 + n / 1000) ∷ (48 + n / 100 % 10) ∷ two (n % 100) rest

-- YYYYMMDDHHmmss.
abbrev pub stamp : DateTime → List ℕ
stamp t = four t.year (two t.month (two t.day (two t.hour (two t.minute (two t.second [])))))

read-two : (n : ℕ) (rest : List ℕ) → n ≤ 99 → read 2 0 (two n rest) ≡ some (n, rest)
read-two n rest h = ground arith

read-four : (n : ℕ) (rest : List ℕ) → n ≤ 9999 → read 4 0 (four n rest) ≡ some (n, rest)
read-four n rest h = ground arith

digit_is_no_space : (n : ℕ) → n ≤ 9 → is_space (48 + n) ≡ false
digit_is_no_space n h = ground arith

trim-stamp : (t : DateTime) → IsDate t → trim (stamp t) ≡ stamp t
trim-stamp t h =
    rw (digit_is_no_space (t.year / 1000) (omega arith))
      (rw (digit_is_no_space (t.second % 10) (omega arith)) refl)

then_read :
    {A B : Type 0} (o : Option A) (a : A) (f : A → Option B) (r : Option B)
    → o ≡ some a
    → f a ≡ r
    → chain f o ≡ r
then_read o a f r h k = ap (chain f) h ∙ k

day_small : (t : DateTime) → IsDate t → t.day ≤ 31
day_small t h = ground arith

match-stamp : (t : DateTime) → IsDate t → match (stamp t) ≡ some t
unfolding match
match-stamp t h = then_read _ _ _ _ (read-four t.year _ h.year_fits) (
    then_read _ _ _ _ (read-two t.month _ (omega arith)) (
      then_read _ _ _ _ (read-two t.day _ (omega (arith, day_small t h))) (
        then_read _ _ _ _ (read-two t.hour _ (omega arith)) (
          then_read _ _ _ _ (read-two t.minute _ (omega arith))
            (then_read _ _ _ _ (read-two t.second _ (omega arith)) refl)))))

has_value_date : (t : DateTime) → IsDate t → has_value t ≡ true
has_value_date t h = ground arith

parse_stamp :
    (t : DateTime) (s : String)
    → IsDate t
    → codes s ≡ stamp t
    → parse_daraja_timestamp (some (Value.text s)) ≡ some (instant t)
unfolding parse_daraja_timestamp
parse_stamp t s h k =
    ap (λ cs. chain date_of (match (trim cs))) k
    ∙ ap (λ cs. chain date_of (match cs)) (trim-stamp t h)
    ∙ ap (chain date_of) (match-stamp t h)
    ∙ ap (λ b. if b then some (instant t) else none) (has_value_date t h)

-- A date of the calendar before the year 9999 with a time of day, printed as YYYYMMDDHHmmss, is
-- read as an instant, and the same time on the next day of the calendar (over the end of a month,
-- of a year and of February included) as the instant 86,400,000 milliseconds later.
pub parse_daraja_timestamp-tomorrow :
    (t : DateTime) (today next : String)
    → IsDate t
    → t.year ≤ 9998
    → codes today ≡ stamp t
    → codes next ≡ stamp (tomorrow t)
    → (m : ℤ) × (parse_daraja_timestamp (some (Value.text today)) ≡ some m)
      × (parse_daraja_timestamp (some (Value.text next)) ≡ some (m +ℤ pos 86400000))
parse_daraja_timestamp-tomorrow t today next h k a b = (
  instant t,
  parse_stamp t today h a,
  parse_stamp (tomorrow t) next (tomorrow-IsDate t h k) b ∙ ap some (instant-tomorrow t h),
)
