-- ===== src/Zone.antt =====
-- Go's calendar, as the schedule code uses it. An instant is the number of nanoseconds since the
-- zero time, a calendar day the number of days since that day, which was a Monday. The time zone
-- database is no part of the repository: a zone is a value of `Zone`, and `time.LoadLocation` is a
-- parameter of the code that calls it.
use Prim.Native.Char.{code}
use Prim.Native.String.{[] as empty, ◌∷◌ as ◌∷ₛ◌}
use lias_dis.Prelude.{
  ℕ, ◌+◌, ◌-◌, ◌*◌, ◌/◌, ◌%◌, String, ◌≡◌, refl, Bool, true, ◌&&◌, ◌||◌, not, Option, none, some,
  leb, ltb, ◌==◌, if◌then◌else◌,
}
use lias_dis.Clock.{Time, digit, get_num, minute_of_day}

abbrev pub ns_minute : ℕ
ns_minute = 60_000_000_000

abbrev pub ns_day : ℕ
ns_day = 86_400_000_000_000

pub record Zone : Type 0 where
  -- The calendar day and the clock reading, in nanoseconds since midnight, of an instant.
  pub day_of : ℕ → ℕ
  pub clock_of : ℕ → ℕ
  -- The instant that `time.Date` finds for a day and a clock reading.
  pub at : ℕ → ℕ → ℕ

-- time.UTC
abbrev pub utc : Zone
utc = record { day_of = λ t. t / ns_day; clock_of = λ t. t % ns_day; at = λ d c. d * ns_day + c }

-- t.Weekday(), with Sunday for 0
abbrev pub weekday : Zone → ℕ → ℕ
weekday z t = (z.day_of t + 1) % 7

-- t.AddDate(0, 0, n) and t.AddDate(0, 0, -n)
abbrev pub add_days : Zone → ℕ → ℕ → ℕ
add_days z n t = z.at (z.day_of t + n) (z.clock_of t)

abbrev pub sub_days : Zone → ℕ → ℕ → ℕ
sub_days z n t = z.at (z.day_of t - n) (z.clock_of t)

-- time.Date(year, month, day, h, m, 0, 0, loc) on the day of an instant
abbrev pub at_time : Zone → ℕ → Time → ℕ
at_time z d c = z.at d (minute_of_day c * ns_minute)

pub record Date : Type 0 where
  pub year : ℕ
  pub month : ℕ
  pub day : ℕ

is_leap : ℕ → Bool
is_leap y = (y % 4 == 0) && (not (y % 100 == 0) || (y % 400 == 0))

days_in : ℕ → ℕ → ℕ
days_in m y =
    if (m == 11) || (m == 9) || (m == 6) || (m == 4)
    then 30
    else if m == 2
    then (if is_leap y then 29 else 28)
    else 31

-- The days of a year before a month.
days_before : ℕ → ℕ → ℕ
days_before m y =
    (if m == 1
      then 0
      else if m == 2
      then 31
      else if m == 3
      then 59
      else if m == 4
      then 90
      else if m == 5
      then 120
      else if m == 6
      then 151
      else if m == 7
      then 181
      else if m == 8
      then 212
      else if m == 9
      then 243
      else if m == 10
      then 273
      else if m == 11
      then 304
      else 334)
    + (if ltb 2 m && is_leap y then 1 else 0)

-- The days since 1 January of year 1. Year 0, which the layout admits, is given day 0.
pub day_number : Date → ℕ
day_number d =
    let p = d.year - 1 in
    p * 365 + p / 4 - p / 100 + p / 400 + days_before d.month d.year + (d.day - 1)

abbrev four_digits : Option ℕ → Option ℕ → Option ℕ → Option ℕ → Option ℕ
four_digits (some a) (some b) (some c) (some d) = some (a * 1000 + b * 100 + c * 10 + d)
four_digits _ _ _ _ = none

abbrev take_year : String → Option (ℕ × String)
take_year (a ∷ₛ (b ∷ₛ (c ∷ₛ (d ∷ₛ s)))) =
    elim (four_digits (digit a) (digit b) (digit c) (digit d)) [
      | none ↦ none
      | some y ↦ some (y, s)
    ]
take_year _ = none

-- A dash, and a number of two digits.
abbrev take_dashed : String → Option (ℕ × String)
take_dashed (c ∷ₛ s) = if code c == 45 then get_num true s else none
take_dashed empty = none

abbrev check_date : ℕ → ℕ → ℕ → String → Option Date
check_date y m d empty =
    if leb 1 d && leb d (days_in m y) then some (record { year = y; month = m; day = d }) else none
check_date y m d (c ∷ₛ s) = none

abbrev with_month : ℕ → Option (ℕ × String) → Option Date
with_month y none = none
with_month y (some (m, s)) =
    if leb 1 m && leb m 12
    then elim (take_dashed s) [ none ↦ none | some (d, r) ↦ check_date y m d r ]
    else none

-- time.Parse("2006-01-02", s)
unfoldable pub parse_date : String → Option Date
unfolding days_in is_leap
parse_date s = elim (take_year s) [ none ↦ none | some (y, r) ↦ with_month y (take_dashed r) ]

leap_day : parse_date "2024-02-29" ≡ some (record { year = 2024; month = 2; day = 29 })
unfolding parse_date digit get_num
leap_day = refl

no_leap_day : parse_date "2023-02-29" ≡ none
unfolding parse_date digit get_num
no_leap_day = refl

unix_epoch : day_number (record { year = 1970; month = 1; day = 1 }) ≡ 719162
unfolding day_number days_before is_leap
unix_epoch = refl
