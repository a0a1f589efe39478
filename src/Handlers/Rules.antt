-- ===== src/Handlers/Rules.antt =====
-- The handlers of policies, schedules and tags. The texts of the replies are left out, so the checks of a
-- schedule's rules are one Boolean. `time.LoadLocation` is a parameter, as for Schedule.
pub mod Admitted
use lias_dis.Prelude.{
  ℕ, String, Bool, true, false, not, ◌&&◌, ◌||◌, Option, none, some, List, [], ◌∷◌, ltb, str_eq,
  if◌then◌else◌, exists,
}
use lias_dis.Prelude.Int.{ℤ}
use lias_dis.Prelude.Text.{concat}
use lias_dis.Models.{
  Action, Policy, PolicyType, Schedule, ScheduleMode, ScheduleRule, get_schedule_ids, is_allow,
  is_schedule, is_tag,
}
use lias_dis.Clock.{parse_clock}
use lias_dis.Zone.{parse_date}
use lias_dis.Hostname.{length_text}
use lias_dis.Policy
use lias_dis.Policy.{upsert_policy, delete_policy}
use lias_dis.ScheduleConflict.{Merged, Conflict, merge_schedules}
use lias_dis.Schedule.{Locations}
use lias_dis.Schedule.Engine
use lias_dis.Schedule.Engine.{has_failed, resolve, upsert_schedule, delete_schedule}
use lias_dis.SyncCache.{is_some}
use lias_dis.TagManager
use lias_dis.TagManager.{Tag}
use lias_dis.Handlers.{
  State, Status, ok, created, no_content, bad_request, not_found, conflict, server_error,
  try_trigger,
}

-- What `validateAndMergePolicySchedules` finds: nothing to merge, a schedule that is not there, or
-- the merge.
pub data Checked : Type 0 where
  nothing missing : Checked
  merged : Merged → Checked

abbrev pub check_resolved : Option (List Schedule) → Checked
check_resolved none = missing
check_resolved (some ss) = merged (merge_schedules ss)

abbrev pub check_ids : Engine.Engine → List String → Checked
check_ids e [] = nothing
check_ids e (id ∷ ids) = check_resolved (resolve e.schedules (id ∷ ids))

pub validate_and_merge : Engine.Engine → Policy → Checked
validate_and_merge e p = if is_schedule p.action then check_ids e (get_schedule_ids p) else nothing

-- `len(conflicts) > 0`
abbrev pub refusal_of : List Conflict → Option Status
refusal_of [] = none
refusal_of (c ∷ cs) = some conflict

-- What the check refuses a policy with. An error of the merge that comes with no conflict is not an
-- `httpError`, and passes.
abbrev pub refusal : Checked → Option Status
refusal nothing = none
refusal missing = some bad_request
refusal (merged m) = refusal_of m.conflicts

abbrev pub is_immutable_target : Policy → Bool
is_immutable_target p = is_tag p.type && str_eq p.target_id "infrastructure"

-- The policy written, with the answer of the store.
abbrev pub save_policy : Bool → Status → Policy → State → Status × State
save_policy saved reply p s =
    let s' = record s { policies = upsert_policy p s.policies } in
    if saved then (reply, try_trigger s') else (server_error, s')

-- The steps that `CreatePolicy` and `UpdatePolicy` share.
pub admit_policy : Bool → Status → Policy → State → Status × State
admit_policy saved reply p s =
    if is_immutable_target p
    then (bad_request, s)
    else elim (refusal (validate_and_merge s.schedules p)) [
      | some r ↦ (r, s)
      | none ↦ save_policy saved reply p s
    ]

abbrev or_new_policy_id : String → Policy → Policy
or_new_policy_id id p = if str_eq p.id "" then record p { id = concat ("pol_" ∷ id ∷ []) } else p

pub create_policy : Bool → String → Option Policy → State → Status × State
create_policy saved id none s = (bad_request, s)
create_policy saved id (some p) s = admit_policy saved created (or_new_policy_id id p) s

abbrev forced : Policy → Policy
forced p = if str_eq p.id "global_default" then record p { enabled = true } else p

pub update_policy : Bool → String → Option Policy → State → Status × State
update_policy saved id none s = (bad_request, s)
update_policy saved id (some p) s = admit_policy saved ok (forced (record p { id = id })) s

pub remove_policy : Bool → String → State → Status × State
remove_policy saved id s =
    let s' = record s { policies = delete_policy id s.policies } in
    if saved then (no_content, try_trigger s') else (server_error, s')

abbrev known_type : PolicyType → Bool
known_type (PolicyType.other t) = false
known_type _ = true

abbrev known_action : Action → Bool
known_action (Action.other a) = false
known_action _ = true

pub is_importable : Policy → Bool
is_importable p =
    not (str_eq p.id "" || ltb 128 (length_text p.id) || ltb 256 (length_text p.name))
    && (known_type p.type && known_action p.action)

abbrev pub upsert_all : List Policy → Policy.Engine → Policy.Engine
upsert_all [] e = e
upsert_all (p ∷ ps) e = upsert_all ps (upsert_policy p e)

-- With a store; `stored` is whether it imports the list.
import_policies : Bool → Option (List Policy) → State → Status × State
import_policies stored none s = (bad_request, s)
import_policies stored (some ps) s =
    if exists (λ p. not (is_importable p)) ps || not stored
    then (bad_request, s)
    else (ok, try_trigger (record s { policies = upsert_all ps s.policies }))

abbrev is_empty : List String → Bool
is_empty [] = true
is_empty (d ∷ ds) = false

-- `time.Parse("2006-01-02", ...)` of a date that is given.
abbrev date_ok : String → Bool
date_ok date = str_eq date "" || is_some (parse_date date)

pub valid_rule : ScheduleRule → Bool
valid_rule r =
    not (is_empty r.days && (str_eq r.start_date "" || str_eq r.end_date ""))
    && (not (str_eq r.start_time r.end_time)
        && (is_some (parse_clock r.start_time)
            && (is_some (parse_clock r.end_time) && (date_ok r.start_date && date_ok r.end_date))))

pub validate_schedule_rules : Schedule → Bool
validate_schedule_rules t = not (exists (λ r. not (valid_rule r)) t.rules)

pub is_supported_timezone : Locations → String → Bool
is_supported_timezone loc tz = if str_eq tz "" then false else is_some (loc tz)

abbrev is_unset : ScheduleMode → Bool
is_unset (ScheduleMode.other m) = str_eq m ""
is_unset _ = false

-- `s.Mode == ""`
abbrev pub with_mode : Schedule → Schedule
with_mode t =
    if is_unset t.mode
    then record t {
      mode =
          if exists (λ r. is_allow r.action) t.rules
          then ScheduleMode.whitelist
          else ScheduleMode.downtime;
    }
    else t

-- The steps that `CreateSchedule` and `UpdateSchedule` share.
pub admit_schedule : Locations → Bool → Status → Schedule → State → Status × State
admit_schedule loc saved reply t s =
    let s' = record s { schedules = upsert_schedule t s.schedules } in
    if not (validate_schedule_rules t)
    then (bad_request, s)
    else if not (is_supported_timezone loc t.timezone)
    then (bad_request, s)
    else if has_failed (merge_schedules (t ∷ []))
    then (conflict, s)
    else if saved
    then (reply, try_trigger s')
    else (server_error, s')

abbrev or_new_schedule_id : String → Schedule → Schedule
or_new_schedule_id id t =
    if str_eq t.id "" then record t { id = concat ("sched_" ∷ id ∷ []) } else t

pub create_schedule : Locations → Bool → String → Option Schedule → State → Status × State
create_schedule loc saved id none s = (bad_request, s)
create_schedule loc saved id (some t) s =
    admit_schedule loc saved created (with_mode (or_new_schedule_id id t)) s

pub update_schedule : Locations → Bool → String → Option Schedule → State → Status × State
update_schedule loc saved id none s = (bad_request, s)
update_schedule loc saved id (some t) s =
    admit_schedule loc saved ok (with_mode (record t { id = id })) s

pub remove_schedule : Bool → String → State → Status × State
remove_schedule saved id s =
    let s' = record s { schedules = delete_schedule id s.schedules } in
    if saved then (no_content, try_trigger s') else (server_error, s')

-- What a call on the tags answers, once the store has taken the tag.
abbrev pub save_tag : Bool → Status → TagManager.Reply × TagManager.Manager → State → Status × State
save_tag saved reply (TagManager.failed e, m) s = (bad_request, record s { tags = m })
save_tag saved reply (TagManager.ok t, m) s =
    if saved
    then (reply, try_trigger (record s { tags = m }))
    else (server_error, record s { tags = m })

create_tag : Bool → Option (String × String) → State → Status × State
create_tag saved none s = (bad_request, s)
create_tag saved (some (name, color)) s =
    save_tag saved created (TagManager.create name color s.tags) s

update_tag : Bool → String → Option (String × String) → State → Status × State
update_tag saved id none s = (bad_request, s)
update_tag saved id (some (name, color)) s =
    save_tag saved ok (TagManager.update id name color s.tags) s

abbrev finish_tag : Bool → Option TagManager.Error × TagManager.Manager → State → Status × State
finish_tag saved (some e, m) s = (bad_request, record s { tags = m })
finish_tag saved (none, m) s =
    if saved
    then (no_content, try_trigger (record s { tags = m }))
    else (server_error, record s { tags = m })

delete_tag : Bool → String → State → Status × State
delete_tag saved id s = finish_tag saved (TagManager.delete id s.tags) s
