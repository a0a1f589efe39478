-- ===== src/ScheduleConflict/Examples.antt =====
-- Runs of the conflict checker, and its theorems at concrete inputs.
use lias_dis.Prelude.{ℕ, ◌<◌, ◌≡◌, refl, inl, none, List, [], ◌∷◌, arith, In, exists, subst, sym}
use lias_dis.Prelude.Dict.{lookup}
use lias_dis.Prelude.Text.{to_lower, trim_space, join}
use lias_dis.Models.{Action, Schedule, ScheduleMode, ScheduleRule}
use lias_dis.Clock.{parse_clock, get_num, digit, digit_char, minute_of_day, format_clock}
use lias_dis.ScheduleConflict.{
  Segment, Conflict, ok, project_schedule, project_rules, project_rule, project_days, project_day,
  merge_schedules, other_timezone, project_all, composite_of, sort_segments, insert_sorted,
  find_conflicts, check_against, check_pair, action_eq, format_minute_of_week,
}
use lias_dis.ScheduleConflict.Rules.{
  RuleOpen, RuleAt, HasMinute, StandsFor, project_schedule-RuleOpen,
}
use lias_dis.ScheduleConflict.Merge.{RuleOf, Different, merge_schedules-error_none}
use lias_dis.ScheduleConflict.Report.{Reported, merge_schedules-Reported}

abbrev night : ScheduleRule
night = record {
  days = " Mon" ∷ "someday" ∷ [];
  start_time = "22:00";
  end_time = "6:30";
  action = Action.block;
  start_date = "";
  end_date = "";
}

abbrev bedtime : Schedule
bedtime = record {
  id = "s1";
  name = "Bedtime";
  mode = ScheduleMode.downtime;
  timezone = "UTC";
  rules = night ∷ [];
}

abbrev homework : Schedule
homework = record {
  id = "s2";
  name = "Homework";
  mode = ScheduleMode.downtime;
  timezone = "UTC";
  rules =
      record night {
        days = "tue" ∷ [];
        start_time = "06:00";
        end_time = "07:00";
        action = Action.allow;
      }
      ∷ [];
}

abbrev piece : ℕ → ℕ → Segment
piece from to = record {
  start = from;
  end = to;
  action = Action.block;
  schedule_id = "s1";
  schedule_name = "Bedtime";
  source_rule_idx = 0;
}

abbrev bedtime_segments : List Segment
bedtime_segments = piece 2760 2880 ∷ piece 2880 3270 ∷ []

bedtime_projects : project_schedule bedtime ≡ ok bedtime_segments
unfolding project_schedule project_rules project_rule project_days project_day parse_clock get_num
    digit lookup to_lower trim_space minute_of_day
bedtime_projects = refl

project_schedule-RuleOpen_example :
    ((r : ScheduleRule) (j : ℕ)
      → RuleAt bedtime.rules 0 r j
      → RuleOpen r 3000
      → (seg : Segment) × In seg bedtime_segments × HasMinute seg 3000 × StandsFor seg bedtime r j)
    × ((seg : Segment)
        → In seg bedtime_segments
        → HasMinute seg 3000
        → (r : ScheduleRule) × (j : ℕ) × RuleAt bedtime.rules 0 r j
          × RuleOpen r 3000
          × StandsFor seg bedtime r j)
project_schedule-RuleOpen_example =
    project_schedule-RuleOpen bedtime bedtime_segments 3000 bedtime_projects (omega arith)

bedtime_merges : (merge_schedules (bedtime ∷ [])).error ≡ none
unfolding merge_schedules other_timezone project_all project_schedule project_rules project_rule
    project_days project_day parse_clock get_num digit lookup to_lower trim_space sort_segments
    insert_sorted find_conflicts check_against check_pair composite_of minute_of_day action_eq
    exists
bedtime_merges = refl

merge_schedules-error_none_example :
    ((t : Schedule) → In t (bedtime ∷ []) → t.timezone ≡ bedtime.timezone)
    × ((t u : Schedule) (r q : ScheduleRule) (i j m : ℕ)
        → m < 10080
        → RuleOf (bedtime ∷ []) t r i
        → RuleOf (bedtime ∷ []) u q j
        → RuleOpen r m
        → RuleOpen q m
        → Different t i u j
        → r.action ≡ q.action)
merge_schedules-error_none_example = merge_schedules-error_none bedtime [] bedtime_merges

abbrev reported : Conflict
reported = record {
  schedule_a_id = "s1";
  schedule_a_name = "Bedtime";
  schedule_b_id = "s2";
  schedule_b_name = "Homework";
  day = "tuesday";
  overlap_start = "06:00";
  overlap_end = "06:30";
  action_a = Action.block;
  action_b = Action.allow;
}

conflict_found : (merge_schedules (bedtime ∷ homework ∷ [])).conflicts ≡ reported ∷ []
unfolding merge_schedules other_timezone project_all project_schedule project_rules project_rule
    project_days project_day parse_clock get_num digit lookup to_lower trim_space sort_segments
    insert_sorted find_conflicts check_against check_pair composite_of minute_of_day action_eq
    exists format_minute_of_week format_clock digit_char join
conflict_found = refl

merge_schedules-Reported_example : Reported (bedtime ∷ homework ∷ []) reported
merge_schedules-Reported_example =
    merge_schedules-Reported bedtime (homework ∷ []) reported
      (subst (In reported) (sym conflict_found) (inl refl))
