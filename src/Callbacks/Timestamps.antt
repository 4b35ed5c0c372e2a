-- ===== src/Callbacks/Timestamps.antt =====
-- `parseDarajaTimestamp` of src/modules/callbacks/webhook-ingest.service.ts. Text is walked as code
-- points; an instant is in milliseconds since 1970.
pub mod Calendar
pub mod Stamps
use Prim.Native.Char.{code}
use Prim.Native.Nat.{◌/◌, ◌%◌}
use script_pay_backend.Shared.{
  ℕ, zero, suc, ◌+◌, ◌-◌, ◌*◌, String, Bool, true, false, not, ◌&&◌, ◌||◌, Option, none, some, List,
  [], ◌∷◌, ◌==◌, ltb, leb, if◌then◌else◌,
}
use script_pay_backend.Shared.Int.{ℤ, sub_ℕ}
use script_pay_backend.Callbacks.Payload.{Value, chain}

abbrev pub codes : String → List ℕ
codes String.[] = []
codes (String.◌∷◌ c s) = code c ∷ codes s

-- What JavaScript calls white space or the end of a line.
abbrev pub is_space : ℕ → Bool
is_space c =
    (leb 9 c && leb c 13)
    || c == 32
    || c == 160
    || c == 5760
    || (leb 8192 c && leb c 8202)
    || c == 8232
    || c == 8233
    || c == 8239
    || c == 8287
    || c == 12288
    || c == 65279

abbrev pub skip_spaces : List ℕ → List ℕ
skip_spaces [] = []
skip_spaces (c ∷ cs) = if is_space c then skip_spaces cs else c ∷ cs

abbrev pub backwards : List ℕ → List ℕ → List ℕ
backwards [] ys = ys
backwards (c ∷ cs) ys = backwards cs (c ∷ ys)

abbrev pub trim : List ℕ → List ℕ
trim cs = backwards (skip_spaces (backwards (skip_spaces cs) [])) []

abbrev pub is_digit : ℕ → Bool
is_digit c = leb 48 c && leb c 57

-- `\d{n}`: the number, and what follows.
abbrev pub read : ℕ → ℕ → List ℕ → Option (ℕ × List ℕ)
read zero n cs = some (n, cs)
read (suc k) n [] = none
read (suc k) n (c ∷ cs) =
    let rest = read k (n * 10 + (c - 48)) cs in if is_digit c then rest else none

pub record DateTime : Type 0 where
  pub year : ℕ
  pub month : ℕ
  pub day : ℕ
  pub hour : ℕ
  pub minute : ℕ
  pub second : ℕ

abbrev pub at_end : DateTime → List ℕ → Option DateTime
at_end t [] = some t
at_end t (c ∷ cs) = none

infixl 5 ◌>>=◌
abbrev ◌>>=◌ : {A B : Type 0} → Option A → (A → Option B) → Option B
◌>>=◌ m f = chain f m

-- The groups of the regular expression.
unfoldable pub match : List ℕ → Option DateTime
match cs = do
  (year, cs1) ← read 4 0 cs
  (month, cs2) ← read 2 0 cs1
  (day, cs3) ← read 2 0 cs2
  (hour, cs4) ← read 2 0 cs3
  (minute, cs5) ← read 2 0 cs4
  (second, cs6) ← read 2 0 cs5
  at_end
      (record {
        year = year;
        month = month;
        day = day;
        hour = hour;
        minute = minute;
        second = second;
      })
      cs6

abbrev pub is_leap : ℕ → Bool
is_leap y = y % 4 == 0 && (not (y % 100 == 0) || y % 400 == 0)

-- The days from the first of year 0 to the first of the year.
unfoldable pub days_before_year : ℕ → ℕ
days_before_year y = y * 365 + (y + 3) / 4 + (y + 399) / 400 - (y + 99) / 100

-- The days of a common year before the first of the month.
abbrev pub common_days : ℕ → ℕ
common_days m =
    if m == 1
    then 0
    else if m == 2
    then 31
    else if m == 3
    then 59
    else if m == 4
    then 90
    else if m == 5
    then 120
    else if m == 6
    then 151
    else if m == 7
    then 181
    else if m == 8
    then 212
    else if m == 9
    then 243
    else if m == 10
    then 273
    else if m == 11
    then 304
    else 334

unfoldable pub days_before_month : ℕ → ℕ → ℕ
days_before_month y m = common_days m + (if is_leap y && ltb 2 m then 1 else 0)

-- A date string has a value if its elements are in their ranges; a day past the end of its month
-- counts on into the next, and 24:00:00 is the end of a day.
abbrev pub has_value : DateTime → Bool
has_value t =
    leb 1 t.month
    && leb t.month 12
    && leb 1 t.day
    && leb t.day 31
    && leb t.minute 59
    && leb t.second 59
    && (leb t.hour 23 || (t.hour == 24 && t.minute == 0 && t.second == 0))

unfoldable pub days_of : DateTime → ℕ
days_of t = days_before_year t.year + days_before_month t.year t.month + (t.day - 1)

unfoldable pub seconds_of : DateTime → ℕ
seconds_of t = days_of t * 86400 + t.hour * 3600 + t.minute * 60 + t.second

-- `new Date(...+03:00).getTime()`; 719528 days come before 1970.
unfoldable pub instant : DateTime → ℤ
instant t = sub_ℕ (seconds_of t * 1000) ((719528 * 86400 + 3 * 3600) * 1000)

abbrev pub date_of : DateTime → Option ℤ
date_of t = if has_value t then some (instant t) else none

abbrev pub text_codes : Value → List ℕ
text_codes (Value.text s) = codes s
text_codes (Value.number s) = codes s
text_codes Value.null = []

unfoldable pub parse_daraja_timestamp : Option Value → Option ℤ
unfolding match
parse_daraja_timestamp none = none
parse_daraja_timestamp (some v) = chain date_of (match (trim (text_codes v)))
