-- ===== src/Models.antt =====
-- shared/models: policies, schedules and devices, and the methods of theirs that decide something.
-- An instant is the number of nanoseconds since Go's zero time, so `IsZero` is equality with 0; a
-- `float64` that is only carried along is its bit pattern.
use lias_dis.Prelude.{
  ℕ, String, Bool, true, false, ◌&&◌, not, Option, none, some, List, [], ◌∷◌, ◌++◌, ◌==◌, str_eq,
  if◌then◌else◌, exists,
}
use lias_dis.Prelude.Dict.{Dict}
use lias_dis.Prelude.Int.{ℤ}
use lias_dis.Prelude.Text
use lias_dis.Prelude.Text.{trim_space, to_lower}

-- `other` is a text that is none of the three constants.
pub data Action : Type 0 where
  allow block schedule : Action
  other : String → Action

pub data PolicyType : Type 0 where
  global tag device : PolicyType
  other : String → PolicyType

abbrev pub is_allow : Action → Bool
is_allow Action.allow = true
is_allow _ = false

abbrev pub is_block : Action → Bool
is_block Action.block = true
is_block _ = false

abbrev pub is_schedule : Action → Bool
is_schedule Action.schedule = true
is_schedule _ = false

abbrev pub is_device : PolicyType → Bool
is_device PolicyType.device = true
is_device _ = false

abbrev pub is_tag : PolicyType → Bool
is_tag PolicyType.tag = true
is_tag _ = false

pub record Policy : Type 0 where
  pub id : String
  pub name : String
  pub type : PolicyType
  pub target_id : String
  pub action : Action
  pub schedule_ids : List String
  pub schedule_id : Option String
  pub priority : ℤ
  pub enabled : Bool
  pub created_at : ℕ
  pub updated_at : ℕ
  pub expires_at : Option ℕ
  pub reason_tag : String

-- The single legacy schedule, if it is set and not empty.
abbrev legacy_schedule : Option String → List String
legacy_schedule none = []
legacy_schedule (some s) = if str_eq s "" then [] else s ∷ []

abbrev bundle_or : List String → Option String → List String
bundle_or [] legacy = legacy_schedule legacy
bundle_or (s ∷ ss) legacy = s ∷ ss

unfoldable pub get_schedule_ids : Policy → List String
get_schedule_ids p = bundle_or p.schedule_ids p.schedule_id

pub data ScheduleMode : Type 0 where
  downtime whitelist : ScheduleMode
  other : String → ScheduleMode

pub record ScheduleRule : Type 0 where
  pub days : List String
  pub start_time : String
  pub end_time : String
  pub action : Action
  pub start_date : String
  pub end_date : String

pub record Schedule : Type 0 where
  pub id : String
  pub name : String
  pub mode : ScheduleMode
  pub timezone : String
  pub rules : List ScheduleRule

pub data IdentityTier : Type 0 where
  tentative l7 bia : IdentityTier
  other : String → IdentityTier

-- `raw` of the source is an arbitrary JSON object, kept as its text.
pub record SourceMeta : Type 0 where
  pub source : String
  pub confidence : ℕ
  pub timestamp : ℕ
  pub raw : String

pub record Device : Type 0 where
  pub device_id : String
  pub pdid : String
  pub identity_tier : IdentityTier
  pub identity_anchor : String
  pub canonical_hostname : String
  pub current_mac : String
  pub macs : List String
  pub current_ip : String
  pub ips : List String
  pub hostname : String
  pub friendly_name : String
  pub manufacturer : String
  pub vendor : String
  pub model : String
  pub device_type : String
  pub services : List String
  pub online : Bool
  pub pending_online_obs : List String
  pub is_tentative : Bool
  pub first_seen : ℕ
  pub last_seen : ℕ
  pub confidence : ℕ
  pub tags : List String
  pub user_id : String
  pub source_info : Dict SourceMeta
  pub identity_assurance : String
  pub identity_probability : ℕ
  pub identity_ambiguous : Bool
  pub last_enriched_at : ℕ
  pub last_nmap_scan_at : ℕ
  pub nmap_attempt_count : ℕ
  pub is_fully_identified : Bool

unfoldable pub has_tag : Device → String → Bool
has_tag d name = if str_eq name "" then false else exists (λ t. str_eq t name) d.tags

pub has_mac : Device → String → Bool
has_mac d mac =
    if str_eq mac ""
    then false
    else (let clean = to_lower (trim_space mac) in
        exists (λ m. str_eq (to_lower (trim_space m)) clean) d.macs)

-- The device after the call, and whether the service is new.
add_service : Device → String → Device × Bool
add_service d svc =
    if str_eq svc ""
    then (d, false)
    else (let clean = trim_space svc in
        if exists (λ s. str_eq s clean) d.services
        then (d, false)
        else (record d { services = d.services ++ clean ∷ [] }, true))

unfoldable pub touch : Device → ℕ → Device
touch d ts = record d {
  last_seen = ts;
  first_seen = if d.first_seen == 0 then ts else d.first_seen;
}

display_name : Option Device → String
display_name none = "Unknown Device"
display_name (some d) =
    let h = trim_space d.hostname in
    let f = trim_space d.friendly_name in
    let v = trim_space d.vendor in
    let m = trim_space d.model in
    if not (str_eq h "")
    then h
    else if not (str_eq f "")
    then f
    else if not (str_eq v "") && not (str_eq m "")
    then Text.concat (v ∷ " " ∷ m ∷ [])
    else if not (str_eq v "")
    then v
    else if not (str_eq m "")
    then m
    else if not (str_eq d.current_mac "")
    then d.current_mac
    else if not (str_eq d.pdid "")
    then d.pdid
    else "Unknown Device"
