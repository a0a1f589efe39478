-- ===== src/ScheduleConflict/Format.antt =====
-- `FormatMinuteOfWeek` is undone by the day table and the clock parser.
use lias_dis.Prelude.{ℕ, zero, suc, ◌+◌, ◌/◌, ◌%◌, ◌<◌, ◌≡◌, refl, some, arith}
use lias_dis.Prelude.Dict.{lookup}
use lias_dis.Prelude.Text.{to_lower, trim_space}
use lias_dis.Clock.{Time, parse_clock, parse_clock-format_clock}
use lias_dis.ScheduleConflict.{
  weekday_of, name_at, day_names, format_minute_of_week, minute_of_week,
}

weekday_of-name_at : (d : ℕ) → d < 7 → weekday_of (name_at day_names d) ≡ some d
unfolding lookup to_lower trim_space
weekday_of-name_at zero h = refl
weekday_of-name_at (suc zero) h = refl
weekday_of-name_at (suc (suc zero)) h = refl
weekday_of-name_at (suc (suc (suc zero))) h = refl
weekday_of-name_at (suc (suc (suc (suc zero)))) h = refl
weekday_of-name_at (suc (suc (suc (suc (suc zero))))) h = refl
weekday_of-name_at (suc (suc (suc (suc (suc (suc zero)))))) h = refl
weekday_of-name_at (suc (suc (suc (suc (suc (suc (suc d))))))) h = absurd (omega arith)

-- The day name and the time that a minute of the week is formatted as are read back, by the day
-- table and the clock parser, as the day, hour and minute of that minute, taken modulo a week.
pub format_minute_of_week-parse :
    (m : ℕ)
    → (d : ℕ) × (t : Time) × (weekday_of (format_minute_of_week m).0 ≡ some d)
      × (parse_clock (format_minute_of_week m).1 ≡ some t)
      × (minute_of_week d t.hour t.minute ≡ m % 10080)
unfolding format_minute_of_week minute_of_week
format_minute_of_week-parse m =
    let w : ℕ = (m % 10080 + 10080) % 10080 in
    (
      w / 1440,
      record { hour = w % 1440 / 60; minute = w % 1440 % 60 },
      weekday_of-name_at (w / 1440) (omega arith),
      parse_clock-format_clock (w % 1440 / 60) (w % 1440 % 60) (omega arith) (omega arith),
      omega arith,
    )
