-- ===== src/Callbacks/Timestamps/Calendar.antt =====
-- The day after a day of the calendar is 86,400 seconds later.
use script_pay_backend.Shared.{
  ℕ, ◌+◌, ◌*◌, ◌≤◌, ◌≡◌, Bool, true, false, ◌&&◌, ◌||◌, ◌==◌, ltb, Bool-cases, inl, inr, arith, ap,
  if◌then◌else◌,
}
use script_pay_backend.Shared.Int.{pos, sub_ℕ, ◌+ℤ◌}
use script_pay_backend.Callbacks.Timestamps.{
  DateTime, is_leap, days_before_year, common_days, days_before_month, days_of, seconds_of, instant,
}

abbrev pub days_in_month_if : Bool → ℕ → ℕ
days_in_month_if leap m =
    if m == 2
    then (if leap then 29 else 28)
    else if m == 4 || m == 6 || m == 9 || m == 11
    then 30
    else 31

abbrev pub days_in_month : ℕ → ℕ → ℕ
days_in_month y = days_in_month_if (is_leap y)

-- A date of the calendar, of four digits, and a time of day.
pub record IsDate (t : DateTime) : Type 0 where
  pub year_fits : t.year ≤ 9999
  pub month_from : 1 ≤ t.month
  pub month_to : t.month ≤ 12
  pub day_from : 1 ≤ t.day
  pub day_to : t.day ≤ days_in_month t.year t.month
  pub hour_fits : t.hour ≤ 23
  pub minute_fits : t.minute ≤ 59
  pub second_fits : t.second ≤ 59

-- The same time on the next day.
abbrev pub tomorrow : DateTime → DateTime
tomorrow t =
    if ltb t.day (days_in_month t.year t.month)
    then record t { day = t.day + 1 }
    else if ltb t.month 12
    then record t { month = t.month + 1; day = 1 }
    else record t { year = t.year + 1; month = 1; day = 1 }

days_before_year-suc :
    (y : ℕ) → days_before_year (y + 1) ≡ days_before_year y + (if is_leap y then 366 else 365)
unfolding days_before_year
days_before_year-suc y = ground arith

month_step :
    (leap : Bool) (m : ℕ)
    → 1 ≤ m
    → m ≤ 11
    → common_days (m + 1) + (if leap && ltb 2 (m + 1) then 1 else 0)
      ≡ common_days m + (if leap && ltb 2 m then 1 else 0) + days_in_month_if leap m
month_step true m h k = ground arith
month_step false m h k = ground arith

days_before_month-suc :
    (y m : ℕ)
    → 1 ≤ m
    → m ≤ 11
    → days_before_month y (m + 1) ≡ days_before_month y m + days_in_month y m
unfolding days_before_month
days_before_month-suc y m h k = month_step (is_leap y) m h k

december : (y : ℕ) → days_before_month y 12 + 31 ≡ (if is_leap y then 366 else 365)
unfolding days_before_month
december y = ground arith

january : (y : ℕ) → days_before_month y 1 ≡ 0
unfolding days_before_month
january y = ground arith

at_last : (a b : ℕ) → ltb a b ≡ false → a ≤ b → a ≡ b
at_last a b h k = ground arith

days_of-tomorrow : (t : DateTime) → IsDate t → days_of (tomorrow t) ≡ days_of t + 1
unfolding days_of
days_of-tomorrow t h = elim (Bool-cases (ltb t.day (days_in_month t.year t.month))) [
  | inl before ↦ rw before (omega (arith, h.day_from))
  | inr last ↦
      let day = at_last t.day (days_in_month t.year t.month) last h.day_to in
      rw last (elim (Bool-cases (ltb t.month 12)) [
        | inl early ↦
            let room : t.month ≤ 11 = ground arith in
            rw early (
              omega
                (arith, day, h.day_from, days_before_month-suc t.year t.month h.month_from room))
        | inr late ↦
            let month = at_last t.month 12 late h.month_to in
            let before = ap (days_before_month t.year) month in
            let days = ap (days_in_month t.year) month in
            rw late (
              omega (
                arith,
                day,
                days,
                before,
                h.day_from,
                january (t.year + 1),
                december t.year,
                days_before_year-suc t.year,
              ))
      ])
]

time_of_tomorrow :
    (t : DateTime)
    → ((tomorrow t).hour ≡ t.hour)
      × ((tomorrow t).minute ≡ t.minute)
      × ((tomorrow t).second ≡ t.second)
time_of_tomorrow t = ground arith

seconds_of-tomorrow : (t : DateTime) → IsDate t → seconds_of (tomorrow t) ≡ seconds_of t + 86400
unfolding seconds_of
seconds_of-tomorrow t h =
    let same = time_of_tomorrow t in omega (arith, days_of-tomorrow t h, same.0, same.1, same.2)

sub_ℕ_later : (a b c d : ℕ) → c ≡ a + d → sub_ℕ c b ≡ sub_ℕ a b +ℤ pos d
unfolding ◌+ℤ◌
sub_ℕ_later a b c d h = ground arith

pub instant-tomorrow : (t : DateTime) → IsDate t → instant (tomorrow t) ≡ instant t +ℤ pos 86400000
unfolding instant
instant-tomorrow t h =
    sub_ℕ_later (seconds_of t * 1000) _ _ 86400000 (omega (arith, seconds_of-tomorrow t h))

ltb→le : (a b : ℕ) → ltb a b ≡ true → a + 1 ≤ b
ltb→le a b h = ground arith

some_day : (leap : Bool) (m : ℕ) → 1 ≤ days_in_month_if leap m
some_day leap m = ground arith

pub tomorrow-IsDate : (t : DateTime) → IsDate t → t.year ≤ 9998 → IsDate (tomorrow t)
tomorrow-IsDate t h k = elim (Bool-cases (ltb t.day (days_in_month t.year t.month))) [
  | inl before ↦ rw before (record {
    year_fits = h.year_fits;
    month_from = h.month_from;
    month_to = h.month_to;
    day_from = omega arith;
    day_to = ltb→le t.day (days_in_month t.year t.month) before;
    hour_fits = h.hour_fits;
    minute_fits = h.minute_fits;
    second_fits = h.second_fits;
  })
  | inr last ↦ rw last (elim (Bool-cases (ltb t.month 12)) [
    | inl early ↦ rw early (record {
      year_fits = h.year_fits;
      month_from = omega arith;
      month_to = ltb→le t.month 12 early;
      day_from = omega arith;
      day_to = some_day (is_leap t.year) (t.month + 1);
      hour_fits = h.hour_fits;
      minute_fits = h.minute_fits;
      second_fits = h.second_fits;
    })
    | inr late ↦ rw late (record {
      year_fits = omega arith;
      month_from = omega arith;
      month_to = omega arith;
      day_from = omega arith;
      day_to = some_day (is_leap (t.year + 1)) 1;
      hour_fits = h.hour_fits;
      minute_fits = h.minute_fits;
      second_fits = h.second_fits;
    })
  ])
]
