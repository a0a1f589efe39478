-- ===== src/Handlers/Effective.antt =====
-- The effective statuses of devices and tags of apps/lias/internal/api/handlers.go, as the dashboard
-- shows them. `EvaluateBundle` of the schedule engine is a function on a bundle; the minutes that are
-- left are counted in whole nanoseconds, and an instant is not formatted.
pub mod Agreement
pub mod Extended
use lias_dis.Prelude.{
  ℕ, ◌-◌, ◌/◌, String, Bool, true, false, ◌&&◌, Option, none, some, List, [], ◌∷◌, str_eq,
  if◌then◌else◌, not,
}
use lias_dis.Prelude.Int.{ltb_ℤ}
use lias_dis.Models.{
  Action, Policy, PolicyType, is_allow, is_block, is_schedule, is_device, is_tag, get_schedule_ids,
  has_tag,
}
use lias_dis.LocalDevice.{LocalDevice}
use lias_dis.Policy.{
  Engine, values, global_is, get_policy, get_effective_policy, infrastructure as immune_tag,
}
use lias_dis.Handlers.{pause_id, device_extension_id, tag_extension_id, minute_ns}

-- `unset` is the zero value.
pub data Source : Type 0 where
  unset infrastructure global device_policy tag_policy schedule fallback : Source

pub record Extension : Type 0 where
  pub expires_at : ℕ
  pub minutes_left : ℕ
  pub reason_tag : String

pub record Effective : Type 0 where
  pub action : Action
  pub source : Source
  pub extend_available : Bool
  pub pause_available : Bool
  pub active_extension : Option Extension

abbrev pub because : Action → Source → Effective
because action source = record {
  action = action;
  source = source;
  extend_available = false;
  pause_available = false;
  active_extension = none;
}

abbrev extension_info : ℕ → Policy → Option Extension
extension_info now p = elim p.expires_at [
  | none ↦ none
  | some t ↦
      some
        (record { expires_at = t; minutes_left = (t - now) / minute_ns; reason_tag = p.reason_tag })
]

-- The last policy of a loop that passes a test.
unfoldable pub last_match : (Policy → Bool) → Option Policy → List Policy → Option Policy
last_match test found [] = found
last_match test found (p ∷ ps) = last_match test (if test p then some p else found) ps

unfoldable pub is_active : String → String → Policy → Bool
is_active pdid id p = p.enabled && (str_eq p.target_id pdid && (is_device p.type && str_eq p.id id))

abbrev source_of : Policy → Source
source_of p =
    if is_device p.type then device_policy else if is_tag p.type then tag_policy else fallback

abbrev pub offer : Effective → Effective
offer r =
    if is_block r.action
    then record r { extend_available = true }
    else record r { pause_available = true }

abbrev pub of_policy : (List String → Action) → Policy → Effective
of_policy f p = offer (
    if is_schedule p.action
    then because (f (get_schedule_ids p)) schedule
    else because p.action (source_of p))

abbrev pub of_temporary : ℕ → Option Policy → Option Policy → Effective → Effective
of_temporary now (some ext) pause rest = record (because Action.allow device_policy) {
  active_extension = extension_info now ext;
}
of_temporary now none (some pause) rest = record (because Action.block device_policy) {
  extend_available = true;
  active_extension = extension_info now pause;
}
of_temporary now none none rest = rest

pub compute_device_effective_status :
    ℕ → (List String → Action) → Engine → Option LocalDevice → Effective
compute_device_effective_status now f e none = because (Action.other "") unset
compute_device_effective_status now f e (some d) =
    let g = get_policy e "global_default" in
    let ps = values e.policies in
    if has_tag d.device immune_tag
    then because Action.allow infrastructure
    else if global_is (λ p. p.enabled && is_block p.action) g
    then because Action.block global
    else if global_is (λ p. p.enabled && is_allow p.action) g
    then record (because Action.allow global) { pause_available = true }
    else of_temporary now
        (last_match (is_active d.device.pdid (device_extension_id d.device.pdid)) none ps)
        (last_match (is_active d.device.pdid (pause_id d.device.pdid)) none ps)
        (of_policy f (get_effective_policy e (some d)))

pub is_enabled_for : String → Policy → Bool
is_enabled_for tag_id p = p.enabled && (str_eq p.target_id tag_id && is_tag p.type)

abbrev pub is_tag_extension : String → Policy → Bool
is_tag_extension tag_id p = is_enabled_for tag_id p && str_eq p.id (tag_extension_id tag_id)

abbrev is_better : String → Policy → Option Policy → Bool
is_better tag_id p best =
    is_enabled_for tag_id p
    && (not (str_eq p.id (tag_extension_id tag_id))
        && elim best [ none ↦ true | some b ↦ ltb_ℤ b.priority p.priority ])

best_tag_policy : String → Option Policy → List Policy → Option Policy
best_tag_policy tag_id best [] = best
best_tag_policy tag_id best (p ∷ ps) =
    best_tag_policy tag_id (if is_better tag_id p best then some p else best) ps

abbrev of_tag_policy : (List String → Action) → Option Policy → Option Policy → Effective
of_tag_policy f g (some p) =
    if is_schedule p.action
    then because (f (get_schedule_ids p)) schedule
    else because p.action tag_policy
of_tag_policy f none none = because Action.allow fallback
of_tag_policy f (some g) none =
    if g.enabled && is_schedule g.action
    then because (f (get_schedule_ids g)) schedule
    else because Action.allow fallback

abbrev offer_extension : Effective → Effective
offer_extension r = if is_block r.action then record r { extend_available = true } else r

abbrev pub of_tag_extension : ℕ → Option Policy → Effective → Effective
of_tag_extension now (some ext) rest = record (because Action.allow tag_policy) {
  active_extension = extension_info now ext;
}
of_tag_extension now none rest = rest

pub compute_tag_effective_status : ℕ → (List String → Action) → Engine → String → Effective
compute_tag_effective_status now f e tag_id =
    let g = get_policy e "global_default" in
    let ps = values e.policies in
    if str_eq tag_id "infrastructure"
    then because Action.allow infrastructure
    else if global_is (λ p. p.enabled && is_block p.action) g
    then because Action.block global
    else if global_is (λ p. p.enabled && is_allow p.action) g
    then because Action.allow global
    else of_tag_extension now (last_match (is_tag_extension tag_id) none ps)
        (offer_extension (of_tag_policy f g (best_tag_policy tag_id none ps)))
