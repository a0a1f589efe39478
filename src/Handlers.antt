-- ===== src/Handlers.antt =====
-- apps/lias/internal/api/handlers.go: the handlers that change what LIAS enforces. A handler takes
-- what the request decodes to, `none` where it does not decode, and gives the status and the state
-- after it; the bodies of the replies are left out, but for the effective status. The writes to the
-- store are a Boolean, false when there is a store and it refuses. The readings of the clock in one
-- handler are one instant, `now`, and `id` is the random identifier that it generates.
pub mod Access
pub mod Undo
pub mod Users
pub mod Rules
pub mod Effective
pub mod Auth
mod Examples
use lias_dis.Prelude.{
  ℕ, ◌+◌, ◌*◌, ◌/◌, ◌%◌, String, Bool, true, false, ◌&&◌, ◌||◌, Option, none, some, List, [], ◌∷◌,
  str_eq, if◌then◌else◌, exists,
}
use lias_dis.Prelude.Dict.{Dict}
use lias_dis.Prelude.Int.{ℤ, pos, pos_part, ltb_ℤ}
use lias_dis.Prelude.Text.{concat}
use lias_dis.Models.{Action, Policy, PolicyType, Schedule, ScheduleMode, get_schedule_ids, is_block}
use lias_dis.Clock.{format_clock}
use lias_dis.Policy
use lias_dis.Policy.{infrastructure, global_is, get_policy, upsert_policy, delete_policy}
use lias_dis.Schedule.Engine
use lias_dis.Schedule.Engine.{upsert_schedule, delete_schedule}
use lias_dis.SyncCache.{Cache, get, set_tags, bump_revision, is_some}
use lias_dis.TagManager.{Manager, Tag}
use lias_dis.Broker.{Broker, broadcast_effective_status_changed}

pub record User : Type 0 where
  pub id : String
  pub name : String

pub record State : Type 0 where
  pub policies : Policy.Engine
  pub schedules : Engine.Engine
  pub cache : Cache
  pub tags : Manager
  pub users : Dict User
  pub broker : Option Broker
  pub triggered : Bool

pub data Status : Type 0 where
  ok created accepted no_content : Status
  bad_request unauthorized forbidden not_found conflict server_error : Status

-- The channel holds one signal.
unfoldable pub try_trigger : State → State
try_trigger s = record s { cache = bump_revision s.cache; triggered = true }

abbrev pub Marshal : Type 0
Marshal = String → String → String

pub notify : Marshal → ℕ → String → String → State → State
notify marshal now target_type target_id s =
    let t = try_trigger s in
    record t {
      broker = broadcast_effective_status_changed marshal now target_type target_id t.broker;
    }

-- `len(req.TagIDs) == 0` of the tags that the body holds.
abbrev or_generic : List String → List String
or_generic [] = "generic" ∷ []
or_generic (t ∷ ts) = t ∷ ts

assign_device_tag : Bool → String → Option (List String) → State → Status × State
assign_device_tag saved pdid none s = (bad_request, s)
assign_device_tag saved pdid (some ts) s =
    let s' = record s { cache = set_tags pdid (or_generic ts) s.cache } in
    if saved then (no_content, try_trigger s') else (server_error, s')

abbrev pub minute_ns : ℕ
minute_ns = 60 * 1_000_000_000

abbrev pub hour_ns : ℕ
hour_ns = 3_600 * 1_000_000_000

-- t.UTC().Format("15:04")
pub clock_text : ℕ → String
clock_text t = format_clock (t / hour_ns % 24) (t / minute_ns % 60)

pub pause_schedule : ℕ → String → Schedule
pause_schedule now id = record {
  id = concat ("sched_pause_" ∷ id ∷ []);
  name = "Temporary Pause";
  mode = ScheduleMode.downtime;
  timezone = "UTC";
  rules =
      record {
        days = "sun" ∷ "mon" ∷ "tue" ∷ "wed" ∷ "thu" ∷ "fri" ∷ "sat" ∷ [];
        start_time = clock_text now;
        end_time = clock_text (now + hour_ns);
        action = Action.block;
        start_date = "";
        end_date = "";
      }
      ∷ [];
}

pub pause_id : String → String
pause_id pdid = concat ("pol_pause_" ∷ pdid ∷ [])

pub pause_policy : ℕ → String → String → Policy
pause_policy now id pdid = record {
  id = pause_id pdid;
  name = "Paused Internet";
  type = PolicyType.device;
  target_id = pdid;
  action = Action.schedule;
  schedule_ids = (pause_schedule now id).id ∷ [];
  schedule_id = none;
  priority = pos 1000;
  enabled = true;
  created_at = now;
  updated_at = now;
  expires_at = some (now + hour_ns);
  reason_tag = "pause";
}

abbrev pub is_immune : List String → Bool
is_immune ts = exists (λ t. str_eq t infrastructure) ts

pub pause_device_internet : Marshal → ℕ → String → String → State → Status × State
pause_device_internet marshal now id pdid s = elim (get s.cache pdid) [
  | none ↦ (not_found, s)
  | some d ↦ if is_immune d.tags then (conflict, s) else (
    accepted,
    notify marshal now "device" pdid (record s {
      schedules = upsert_schedule (pause_schedule now id) s.schedules;
      policies = upsert_policy (pause_policy now id pdid) s.policies;
    }),
  )
]

pub delete_schedules : List String → Engine.Engine → Engine.Engine
delete_schedules [] e = e
delete_schedules (id ∷ ids) e = delete_schedules ids (delete_schedule id e)

pub unpause_device_internet : Marshal → ℕ → String → State → Status × State
unpause_device_internet marshal now pdid s = elim (get_policy s.policies (pause_id pdid)) [
  | none ↦ (no_content, s)
  | some p ↦ (
    no_content,
    notify marshal now "device" pdid (record s {
      policies = delete_policy (pause_id pdid) s.policies;
      schedules = delete_schedules (get_schedule_ids p) s.schedules;
    }),
  )
]

-- The minutes that a request for more time asks for.
abbrev pub out_of_range : ℤ → Bool
out_of_range minutes = ltb_ℤ minutes (pos 1) || ltb_ℤ (pos 120) minutes

abbrev pub blocks_globally : Policy.Engine → Bool
blocks_globally e = global_is (λ p. p.enabled && is_block p.action) (get_policy e "global_default")

pub extension_policy : ℕ → PolicyType → String → String → String → ℤ → Policy
extension_policy now type id name target minutes = record {
  id = id;
  name = name;
  type = type;
  target_id = target;
  action = Action.allow;
  schedule_ids = [];
  schedule_id = none;
  priority = pos 2000;
  enabled = true;
  created_at = now;
  updated_at = now;
  expires_at = some (now + pos_part minutes * minute_ns);
  reason_tag = "extend_access";
}

unfoldable pub device_extension_id : String → String
device_extension_id pdid = concat ("pol_extend_device_" ∷ pdid ∷ [])

pub device_extension : ℕ → String → ℤ → Policy
device_extension now pdid minutes =
    extension_policy now PolicyType.device (device_extension_id pdid) "Extended Access" pdid minutes

pub tag_extension_id : String → String
tag_extension_id tag_id = concat ("pol_extend_tag_" ∷ tag_id ∷ [])

pub tag_extension : ℕ → String → ℤ → Policy
tag_extension now tag_id minutes =
    extension_policy now PolicyType.tag (tag_extension_id tag_id) "Extended Access (Tag)" tag_id
      minutes

-- The steps that the two extensions share, from the decoded body on.
pub extend : Marshal → ℕ → Bool → String → String → (ℤ → Policy) → Option ℤ → State → Status × State
extend marshal now saved target_type target_id policy none s = (bad_request, s)
extend marshal now saved target_type target_id policy (some minutes) s =
    let s' = record s { policies = upsert_policy (policy minutes) s.policies } in
    if out_of_range minutes
    then (bad_request, s)
    else if blocks_globally s.policies
    then (conflict, s)
    else if saved
    then (accepted, notify marshal now target_type target_id s')
    else (server_error, s')

pub extend_device_access : Marshal → ℕ → Bool → String → Option ℤ → State → Status × State
extend_device_access marshal now saved pdid minutes s = elim (get s.cache pdid) [
  | none ↦ (not_found, s)
  | some d ↦
      if is_immune d.tags
      then (conflict, s)
      else extend marshal now saved "device" pdid (device_extension now pdid) minutes s
]

pub extend_tag_access : Marshal → ℕ → Bool → String → Option ℤ → State → Status × State
extend_tag_access marshal now saved tag_id minutes s =
    if exists (λ (t : Tag). str_eq t.id tag_id) s.tags.tags
    then (if str_eq tag_id "infrastructure"
        then (conflict, s)
        else extend marshal now saved "tag" tag_id (tag_extension now tag_id) minutes s)
    else (not_found, s)

-- The two cancellations, of the policy with an identifier.
pub cancel : Marshal → ℕ → String → String → String → State → Status × State
cancel marshal now target_type target_id policy_id s =
    if is_some (get_policy s.policies policy_id)
    then (
      no_content,
      notify marshal now target_type target_id
          (record s { policies = delete_policy policy_id s.policies }),
    )
    else (no_content, s)

pub cancel_device_extension : Marshal → ℕ → String → State → Status × State
cancel_device_extension marshal now pdid s =
    cancel marshal now "device" pdid (device_extension_id pdid) s

pub cancel_tag_extension : Marshal → ℕ → String → State → Status × State
cancel_tag_extension marshal now tag_id s =
    cancel marshal now "tag" tag_id (tag_extension_id tag_id) s

-- The global policy of `ToggleVacationMode`, made anew when it is missing.
abbrev global_or_new : Option Policy → Policy
global_or_new (some g) = g
global_or_new none = record Policy.global_default { action = Action.other "" }

pub toggle_vacation_mode : Option Bool → State → Status × State
toggle_vacation_mode none s = (bad_request, s)
toggle_vacation_mode (some enabled) s = (
  ok,
  try_trigger (record s {
    policies =
        upsert_policy
          (record (global_or_new (get_policy s.policies "global_default")) {
            action = if enabled then Action.block else Action.schedule;
          })
          s.policies;
  }),
)
