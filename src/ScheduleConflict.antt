-- ===== src/ScheduleConflict.antt =====
-- apps/lias/internal/scheduleconflict/conflict.go. Minutes of the week count from Sunday 00:00 and
-- are never negative here; indices and counts are far below 2 ^ 63.
pub mod Windows
pub mod Rules
pub mod Bounds
pub mod Pairs
pub mod Loop
pub mod Merge
pub mod Report
pub mod Format
mod Examples
use lias_dis.Prelude.{
  ℕ, suc, ◌+◌, ◌-◌, ◌*◌, ◌/◌, ◌%◌, String, Bool, true, false, not, ◌&&◌, ◌||◌, Option, none, some,
  List, [], ◌∷◌, ◌++◌, ltb, leb, ◌==◌, str_eq, if◌then◌else◌, exists, length, map,
}
use lias_dis.Prelude.Dict.{Dict, lookup}
use lias_dis.Prelude.Text.{trim_space, to_lower, join}
use lias_dis.Models.{Action, Schedule, ScheduleMode, ScheduleRule, is_allow}
use lias_dis.Clock.{Time, parse_clock, minute_of_day, format_clock}

abbrev pub day_to_weekday : Dict ℕ
day_to_weekday =
    ("sun", 0)
    ∷ ("sunday", 0)
    ∷ ("mon", 1)
    ∷ ("monday", 1)
    ∷ ("tue", 2)
    ∷ ("tuesday", 2)
    ∷ ("wed", 3)
    ∷ ("wednesday", 3)
    ∷ ("thu", 4)
    ∷ ("thursday", 4)
    ∷ ("fri", 5)
    ∷ ("friday", 5)
    ∷ ("sat", 6)
    ∷ ("saturday", 6)
    ∷ []

pub record Segment : Type 0 where
  pub start : ℕ
  pub end : ℕ
  pub action : Action
  pub schedule_id : String
  pub schedule_name : String
  pub source_rule_idx : ℕ

pub record Conflict : Type 0 where
  pub schedule_a_id : String
  pub schedule_a_name : String
  pub schedule_b_id : String
  pub schedule_b_name : String
  pub day : String
  pub overlap_start : String
  pub overlap_end : String
  pub action_a : Action
  pub action_b : Action

-- The errors of `ProjectSchedule` and `MergeSchedules`, with what their texts are built from.
pub data MergeError : Type 0 where
  invalid_start_time : String → ℕ → MergeError
  invalid_end_time : String → ℕ → MergeError
  mixed_timezones : String → String → String → MergeError
  conflict_detected : ℕ → MergeError

pub data Result {ℓ} (A : Type ℓ) : Type ℓ where
  ok : A → Result A
  err : MergeError → Result A

infixl 5 ◌>>=◌
abbrev pub ◌>>=◌ {ℓ κ} : {X : Type ℓ} {Y : Type κ} → Result X → (X → Result Y) → Result Y
ok x >>= next = next x
err error >>= next = err error

abbrev or_fail {ℓ} : {A : Type ℓ} → Option A → MergeError → Result A
or_fail none e = err e
or_fail (some a) e = ok a

pub minute_of_week : ℕ → ℕ → ℕ → ℕ
minute_of_week weekday hour min = weekday * 1440 + hour * 60 + min

abbrev pub day_names : List String
day_names = "sunday" ∷ "monday" ∷ "tuesday" ∷ "wednesday" ∷ "thursday" ∷ "friday" ∷ "saturday" ∷ []

abbrev pub name_at : List String → ℕ → String
name_at [] i = ""
name_at (n ∷ ns) i = if i == 0 then n else name_at ns (i - 1)

pub format_minute_of_week : ℕ → String × String
format_minute_of_week m =
    let w = (m % 10080 + 10080) % 10080 in
    (name_at day_names (w / 1440), format_clock (w % 1440 / 60) (w % 1440 % 60))

-- The days of a rule that the table knows.
abbrev pub weekday_of : String → Option ℕ
weekday_of day = lookup (to_lower (trim_space day)) day_to_weekday

-- One or two segments for a rule on one day; `sm` and `em` are its minutes of the day.
abbrev pub segment : Schedule → ScheduleRule → ℕ → ℕ → ℕ → Segment
segment s r idx from to = record {
  start = from;
  end = to;
  action = r.action;
  schedule_id = s.id;
  schedule_name = s.name;
  source_rule_idx = idx;
}

pub project_day : Schedule → ScheduleRule → ℕ → ℕ → ℕ → ℕ → List Segment
project_day s r idx sm em w =
    if ltb sm em
    then segment s r idx (w * 1440 + sm) (w * 1440 + em) ∷ []
    else segment s r idx (w * 1440 + sm) ((w + 1) * 1440)
      ∷ segment s r idx ((w + 1) % 7 * 1440) ((w + 1) % 7 * 1440 + em)
      ∷ []

pub project_days : Schedule → ScheduleRule → ℕ → ℕ → ℕ → List String → List Segment
project_days s r idx sm em [] = []
project_days s r idx sm em (day ∷ days) =
    let rest = project_days s r idx sm em days in
    elim (weekday_of day) [ none ↦ rest | some w ↦ project_day s r idx sm em w ++ rest ]

pub project_rule : Schedule → ℕ → ScheduleRule → Result (List Segment)
project_rule s idx r = do
  start_t ← or_fail (parse_clock r.start_time) (invalid_start_time r.start_time idx)
  end_t ← or_fail (parse_clock r.end_time) (invalid_end_time r.end_time idx)
  ok (
      if minute_of_day start_t == minute_of_day end_t
      then []
      else project_days s r idx (minute_of_day start_t) (minute_of_day end_t) r.days)

pub project_rules : Schedule → ℕ → List ScheduleRule → Result (List Segment)
project_rules s idx [] = ok []
project_rules s idx (r ∷ rs) = do
  segs ← project_rule s idx r
  rest ← project_rules s (suc idx) rs
  ok (segs ++ rest)

pub project_schedule : Schedule → Result (List Segment)
project_schedule s = project_rules s 0 s.rules

-- The order of `sort.Slice`, which leaves the order of equal segments open: an insertion sort.
abbrev pub precedes : Segment → Segment → Bool
precedes a b = if a.start == b.start then ltb a.end b.end else ltb a.start b.start

pub insert_sorted : Segment → List Segment → List Segment
insert_sorted a [] = a ∷ []
insert_sorted a (b ∷ bs) = if precedes b a then b ∷ insert_sorted a bs else a ∷ b ∷ bs

pub sort_segments : List Segment → List Segment
sort_segments [] = []
sort_segments (a ∷ rest) = insert_sorted a (sort_segments rest)

pub action_eq : Action → Action → Bool
action_eq Action.allow Action.allow = true
action_eq Action.block Action.block = true
action_eq Action.schedule Action.schedule = true
action_eq (Action.other x) (Action.other y) = str_eq x y
action_eq _ _ = false

abbrev pub max_int : ℕ → ℕ → ℕ
max_int a b = if ltb b a then a else b

abbrev min_int : ℕ → ℕ → ℕ
min_int a b = if ltb a b then a else b

-- The tests on a pair of segments, before its key is looked up.
abbrev pub clashes : Segment → Segment → Bool
clashes a b =
    ltb (max_int a.start b.start) (min_int a.end b.end)
    && (not (action_eq a.action b.action)
        && (not (str_eq a.schedule_id b.schedule_id)
            || not (a.source_rule_idx == b.source_rule_idx)))

-- `seenConflicts` with `conflicts`.
pub record Found : Type 0 where
  pub seen : List String
  pub conflicts : List Conflict

abbrev pub conflict_of : Segment → Segment → Conflict
conflict_of a b =
    let from = format_minute_of_week (max_int a.start b.start) in
    let to = format_minute_of_week (min_int a.end b.end) in
    record {
      schedule_a_id = a.schedule_id;
      schedule_a_name = a.schedule_name;
      schedule_b_id = b.schedule_id;
      schedule_b_name = b.schedule_name;
      day = from.0;
      overlap_start = from.1;
      overlap_end = to.1;
      action_a = a.action;
      action_b = b.action;
    }

abbrev pub conflict_key : Conflict → String
conflict_key c =
    join (c.schedule_a_id ∷ c.schedule_b_id ∷ c.day ∷ c.overlap_start ∷ c.overlap_end ∷ []) "|"

-- The body of the inner loop.
pub check_pair : Segment → Segment → Found → Found
check_pair a b st =
    let c = conflict_of a b in
    if clashes a b
    then (if exists (str_eq (conflict_key c)) st.seen
        then st
        else record { seen = conflict_key c ∷ st.seen; conflicts = st.conflicts ++ c ∷ [] })
    else st

-- The inner loop, which breaks at the first segment that starts after `a` has ended.
pub check_against : Segment → List Segment → Found → Found
check_against a [] st = st
check_against a (b ∷ bs) st =
    let rest = check_against a bs (check_pair a b st) in if leb a.end b.start then st else rest

pub find_conflicts : List Segment → Found → Found
find_conflicts [] st = st
find_conflicts (a ∷ rest) st = find_conflicts rest (check_against a rest st)

-- The first schedule whose timezone is another.
pub other_timezone : String → List Schedule → Option Schedule
other_timezone tz [] = none
other_timezone tz (s ∷ ss) = if str_eq s.timezone tz then other_timezone tz ss else some s

abbrev is_whitelist : ScheduleMode → Bool
is_whitelist ScheduleMode.whitelist = true
is_whitelist _ = false

pub project_all : List Schedule → Result (List Segment)
project_all [] = ok []
project_all (s ∷ ss) = do segs ← project_schedule s; rest ← project_all ss; ok (segs ++ rest)

-- Whether a schedule makes the composite a whitelist.
makes_whitelist : Schedule → Bool
makes_whitelist s = is_whitelist s.mode || exists (λ r. is_allow r.action) s.rules

abbrev all_rules : List Schedule → List ScheduleRule
all_rules [] = []
all_rules (s ∷ ss) = s.rules ++ all_rules ss

-- The three results of `MergeSchedules`.
pub record Merged : Type 0 where
  pub composite : Schedule
  pub conflicts : List Conflict
  pub error : Option MergeError

abbrev empty_schedule : Schedule
empty_schedule = record {
  id = "";
  name = "";
  mode = ScheduleMode.other "";
  timezone = "";
  rules = [];
}

abbrev pub failed : MergeError → Merged
failed e = record { composite = empty_schedule; conflicts = []; error = some e }

pub composite_of : String → List Schedule → Schedule
composite_of tz ss = record {
  id = join (map (λ s. s.id) ss) "+";
  name = join (map (λ s. s.name) ss) " + ";
  mode = if exists makes_whitelist ss then ScheduleMode.whitelist else ScheduleMode.downtime;
  timezone = tz;
  rules = all_rules ss;
}

abbrev pub conclude : Schedule → List Conflict → Merged
conclude c [] = record { composite = c; conflicts = []; error = none }
conclude c (x ∷ xs) = record {
  composite = c;
  conflicts = x ∷ xs;
  error = some (conflict_detected (length (x ∷ xs)));
}

abbrev pub merge_segments : Schedule → Result (List Segment) → Merged
merge_segments c (err e) = failed e
merge_segments c (ok segs) =
    conclude c
      (find_conflicts (sort_segments segs) (record { seen = []; conflicts = [] })).conflicts

pub merge_schedules : List Schedule → Merged
merge_schedules [] = record { composite = empty_schedule; conflicts = []; error = none }
merge_schedules (s ∷ ss) = elim (other_timezone s.timezone (s ∷ ss)) [
  | some t ↦ failed (mixed_timezones s.timezone t.timezone t.name)
  | none ↦ merge_segments (composite_of s.timezone (s ∷ ss)) (project_all (s ∷ ss))
]
