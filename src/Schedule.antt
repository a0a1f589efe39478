-- ===== src/Schedule.antt =====
-- apps/lias/internal/schedule/parser.go. `time.LoadLocation` is a parameter, `none` where it fails.
pub mod Transition
pub mod Steady
pub mod Engine
mod Examples
use lias_dis.Prelude.{
  ℕ, zero, suc, ◌+◌, ◌-◌, ◌%◌, String, ◌≡◌, refl, Bool, true, false, not, ◌&&◌, ◌||◌, Option, none,
  some, List, [], ◌∷◌, ◌++◌, leb, ltb, ◌==◌, str_eq, if◌then◌else◌, exists,
}
use lias_dis.Prelude.Dict.{Dict, lookup}
use lias_dis.Prelude.Int.{ℤ, ltb_ℤ, sub_ℕ}
use lias_dis.Prelude.Text.{to_lower, trim_space}
use lias_dis.Models.{Action, Schedule, ScheduleMode, ScheduleRule}
use lias_dis.Clock.{Time, parse_clock}
use lias_dis.Zone.{Zone, utc, ns_day, weekday, add_days, sub_days, at_time, parse_date, day_number}

abbrev day_map : Dict ℕ
day_map =
    ("sun", 0) ∷ ("mon", 1) ∷ ("tue", 2) ∷ ("wed", 3) ∷ ("thu", 4) ∷ ("fri", 5) ∷ ("sat", 6) ∷ []

abbrev is_weekday : Option ℕ → ℕ → Bool
is_weekday none w = false
is_weekday (some v) w = v == w

-- Whether some day of the rule is the weekday `w`.
pub on_weekday : List String → ℕ → Bool
on_weekday days w = exists (λ day. is_weekday (lookup (to_lower (trim_space day)) day_map) w) days

abbrev pub has_dates : ScheduleRule → Bool
has_dates r = not (str_eq r.start_date "") && not (str_eq r.end_date "")

-- Each rule function below answers with the length of the window that the instant is in, and with
-- `none` where the loop goes on with no match.
abbrev pub within : ℕ → ℕ → ℕ → Bool
within start now end = leb start now && ltb now end

abbrev pub when : Bool → ℤ → Option ℤ
when true d = some d
when false d = none

-- A time that does not parse is midnight, as its error is dropped.
abbrev or_midnight : Option Time → Time
or_midnight none = record { hour = 0; minute = 0 }
or_midnight (some t) = t

abbrev dated_window : Zone → ℕ → ℕ → ℕ → Option ℤ
dated_window z now start end =
    if start == end
    then none
    else if ltb start end
    then when (within start now end) (sub_ℕ end start)
    else when (within start now (add_days z 1 end)) (sub_ℕ (end + ns_day) start)

dated_match : Zone → ℕ → ScheduleRule → Option ℤ
dated_match z now r = elim (parse_date r.start_date) [
  | none ↦ none
  | some from ↦ elim (parse_date r.end_date) [
    | none ↦ none
    | some to ↦
        let start_dt = z.at (day_number from) 0 in
        let end_dt = add_days z 1 (z.at (day_number to) 0) in
        if ltb now start_dt || ltb end_dt now
        then none
        else dated_window z now (at_time z (z.day_of now) (or_midnight (parse_clock r.start_time)))
            (at_time z (z.day_of now) (or_midnight (parse_clock r.end_time)))
  ]
]

abbrev pub weekly_window : Zone → ℕ → Bool → Bool → Bool → ℕ → ℕ → Option ℤ
weekly_window z now current prev same start end =
    if not same && (start == end)
    then none
    else if ltb start end
    then when (current && within start now end) (sub_ℕ end start)
    else when
        ((prev && within (sub_days z 1 start) now end)
          || (current && within start now (add_days z 1 end)))
        (sub_ℕ (end + ns_day) start)

abbrev pub weekly_times : Zone → ℕ → ScheduleRule → Option Time → Option Time → Option ℤ
weekly_times z now r (some st) (some en) =
    weekly_window z now (on_weekday r.days (weekday z now))
      (on_weekday r.days ((weekday z now + 6) % 7)) (str_eq r.start_time r.end_time)
      (at_time z (z.day_of now) st) (at_time z (z.day_of now) en)
weekly_times z now r _ _ = none

pub weekly_match : Zone → ℕ → ScheduleRule → Option ℤ
weekly_match z now r =
    if not (on_weekday r.days (weekday z now)) && not (on_weekday r.days ((weekday z now + 6) % 7))
    then none
    else weekly_times z now r (parse_clock r.start_time) (parse_clock r.end_time)

pub rule_match : Zone → ℕ → ScheduleRule → Option ℤ
rule_match z now r = if has_dates r then dated_match z now r else weekly_match z now r

-- `bestMatch` with `bestDuration`; -1 of the source is `none`.
pub record Best : Type 0 where
  pub duration : ℤ
  pub action : Action

abbrev take_better : Option ℤ → Action → Option Best → Option Best
take_better none a best = best
take_better (some d) a none = some (record { duration = d; action = a })
take_better (some d) a (some b) =
    if ltb_ℤ d b.duration then some (record { duration = d; action = a }) else some b

pub best_rule : Zone → ℕ → Option Best → List ScheduleRule → Option Best
best_rule z now best [] = best
best_rule z now best (r ∷ rs) = best_rule z now (take_better (rule_match z now r) r.action best) rs

abbrev default_action : ScheduleMode → Action
default_action ScheduleMode.whitelist = Action.block
default_action _ = Action.allow

abbrev pub or_default : ScheduleMode → Option Best → Action
or_default m none = default_action m
or_default m (some b) = b.action

abbrev pub zone_or_utc : Option Zone → Zone
zone_or_utc none = utc
zone_or_utc (some z) = z

abbrev pub Locations : Type 0
Locations = String → Option Zone

-- `Evaluate`, whose error is always nil.
pub evaluate : Locations → Schedule → ℕ → Action
evaluate loc s now = or_default s.mode (best_rule (zone_or_utc (loc s.timezone)) now none s.rules)

-- `NextStateChange`: the boundaries of a rule on one day that lie after `now`.
abbrev pub outside_dates : Zone → ℕ → ScheduleRule → Bool
outside_dates z base r =
    if has_dates r
    then (elim (parse_date r.start_date) [
      | none ↦ false
      | some from ↦ elim (parse_date r.end_date) [
        | none ↦ false
        | some to ↦
            ltb base (z.at (day_number from) 0) || ltb (add_days z 1 (z.at (day_number to) 0)) base
      ]
    ])
    else false

abbrev pub boundary : Zone → ℕ → ℕ → Option Time → List ℕ
boundary z now base none = []
boundary z now base (some t) =
    let p = at_time z (z.day_of base) t in if ltb now p then p ∷ [] else []

pub rule_boundaries : Zone → ℕ → ℕ → ScheduleRule → List ℕ
rule_boundaries z now base r =
    if outside_dates z base r
    then []
    else boundary z now base (parse_clock r.start_time)
      ++ boundary z now base (parse_clock r.end_time)

pub day_boundaries : Zone → ℕ → ℕ → List ScheduleRule → List ℕ
day_boundaries z now base [] = []
day_boundaries z now base (r ∷ rs) = rule_boundaries z now base r ++ day_boundaries z now base rs

-- for i := from; i < from + n; i++
pub boundaries : Zone → ℕ → List ScheduleRule → ℕ → ℕ → List ℕ
boundaries z now rs i zero = []
boundaries z now rs i (suc n) =
    day_boundaries z now (z.at (z.day_of now + i) 0) rs ++ boundaries z now rs (i + 1) n

pub insert_instant : ℕ → List ℕ → List ℕ
insert_instant t [] = t ∷ []
insert_instant t (u ∷ us) = if ltb u t then u ∷ insert_instant t us else t ∷ u ∷ us

pub sort_instants : List ℕ → List ℕ
sort_instants [] = []
sort_instants (t ∷ ts) = insert_instant t (sort_instants ts)

abbrev pub first_or : ℕ → List ℕ → ℕ
first_or d [] = d
first_or d (t ∷ ts) = t

pub next_state_change : Locations → Schedule → ℕ → ℕ
next_state_change loc s now =
    let z = zone_or_utc (loc s.timezone) in
    first_or (now + ns_day) (sort_instants (boundaries z now s.rules 0 8))
