-- ===== src/Schedule/Examples.antt =====
-- Runs of the schedule evaluation, and its theorems at concrete inputs.
use lias_dis.Prelude.{◌+◌, ◌*◌, ap, sym, ◌≡◌, refl, inl, inr, none, [], ◌∷◌, arith}
use lias_dis.Models.{Action, Schedule, ScheduleMode}
use lias_dis.Zone.{ns_day, ns_minute}
use lias_dis.Clock.{parse_clock, get_num, digit, minute_of_day}
use lias_dis.Schedule.{
  Locations, has_dates, evaluate, boundaries, day_boundaries, rule_boundaries, next_state_change,
  sort_instants, insert_instant,
}
use lias_dis.Schedule.Steady.{IsWeekly, evaluate-next_state_change}
use lias_dis.Schedule.Engine.{new_engine}
use lias_dis.Schedule.Engine.NoStale.{
  IsFresh, run, upserted, deleted, evaluated, run-new_engine-IsFresh,
}

abbrev nowhere : Locations
nowhere name = none

abbrev noon_break : Schedule
noon_break = record {
  id = "s1";
  name = "Noon";
  mode = ScheduleMode.whitelist;
  timezone = "";
  rules =
      record {
        days = "tue" ∷ [];
        start_time = "12:00";
        end_time = "13:00";
        action = Action.allow;
        start_date = "";
        end_date = "";
      }
      ∷ [];
}

noon_break-IsWeekly : IsWeekly noon_break
noon_break-IsWeekly r (inl e) = ap (λ q. has_dates q) (sym e)
noon_break-IsWeekly r (inr n) = absurd n

-- From 11:00 on the second day, a Tuesday, on.
next_state_change-noon_break :
    next_state_change nowhere noon_break (ns_day + 660 * ns_minute) ≡ ns_day + 720 * ns_minute
unfolding next_state_change sort_instants boundaries day_boundaries rule_boundaries parse_clock
    get_num digit minute_of_day insert_instant
next_state_change-noon_break = refl

evaluate-next_state_change_example :
    evaluate nowhere noon_break (ns_day + 700 * ns_minute)
    ≡ evaluate nowhere noon_break (ns_day + 660 * ns_minute)
evaluate-next_state_change_example =
    evaluate-next_state_change nowhere noon_break (ns_day + 660 * ns_minute)
      (ns_day + 700 * ns_minute) refl noon_break-IsWeekly (omega arith) (omega arith)
      (rw next_state_change-noon_break (omega arith))

run-new_engine-IsFresh_example : IsFresh (
    run nowhere (upserted noon_break ∷ evaluated ("s1" ∷ []) ns_day ∷ deleted "s1" ∷ []) new_engine)
run-new_engine-IsFresh_example =
    run-new_engine-IsFresh nowhere
      (upserted noon_break ∷ evaluated ("s1" ∷ []) ns_day ∷ deleted "s1" ∷ [])
