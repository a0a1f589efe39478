-- ===== src/Policy.antt =====
-- apps/lias/internal/policy/engine.go. The map of policies is an association list. The loops of one
-- call run along the list; as Go walks a map in an order of its own each time, another call may
-- stand for an engine that holds the same map in another order. The lock is not modelled, each
-- method being one step. Deciding methods take the schedule evaluator as a function on a bundle of
-- schedules, `none` for a nil interface.
pub mod Best
pub mod Tags
pub mod Agreement
pub mod Precedence
pub mod Orders
pub mod Lifecycle
mod Examples
use lias_dis.Prelude.{
  ℕ, String, Bool, true, false, ◌&&◌, ◌||◌, Option, none, some, List, [], ◌∷◌, ◌++◌, ltb, str_eq,
  not, if◌then◌else◌, exists, select,
}
use lias_dis.Prelude.Dict.{Dict, lookup, insert, erase, keep}
use lias_dis.Prelude.Int.{ℤ, pos, ltb_ℤ}
use lias_dis.Prelude.Text.{has_prefix, concat}
use lias_dis.Models.{
  Action, Policy, PolicyType, is_allow, is_block, is_schedule, is_device, is_tag, get_schedule_ids,
  has_tag,
}
use lias_dis.LocalDevice.{LocalDevice}

pub record Engine : Type 0 where
  pub policies : Dict Policy

-- A policy literal with the fields that the source writes, and zero values elsewhere.
abbrev bare : String → String → PolicyType → Action → Policy
bare id name type action = record {
  id = id;
  name = name;
  type = type;
  target_id = "";
  action = action;
  schedule_ids = [];
  schedule_id = none;
  priority = pos 0;
  enabled = false;
  created_at = 0;
  updated_at = 0;
  expires_at = none;
  reason_tag = "";
}

abbrev pub global_default : Policy
global_default =
    record (bare "global_default" "Global Access Switch" PolicyType.global Action.schedule) {
      enabled = true;
    }

pub new_engine : Engine
new_engine = record { policies = ("global_default", global_default) ∷ [] }

unfoldable pub upsert_policy : Policy → Engine → Engine
upsert_policy p e = record { policies = insert p.id p e.policies }

unfoldable pub delete_policy : String → Engine → Engine
delete_policy id e = record { policies = erase id e.policies }

unfoldable pub get_policy : Engine → String → Option Policy
get_policy e id = lookup id e.policies

abbrev pub values : Dict Policy → List Policy
values [] = []
values ((_, p) ∷ m) = p ∷ values m

list_policies : Engine → List Policy
list_policies e = values e.policies

-- Whether `ReconcileDeviceIdentity` drops a policy.
abbrev pub is_of_pair : String → String → Policy → Bool
is_of_pair old_pdid new_pdid p =
    is_device p.type && (str_eq p.target_id old_pdid || str_eq p.target_id new_pdid)

insert_all : List Policy → Dict Policy → Dict Policy
insert_all [] m = m
insert_all (p ∷ ps) m = insert_all ps (insert p.id p m)

pub reconcile_device_identity : String → String → List Policy → Engine → Engine
reconcile_device_identity old_pdid new_pdid ps e = record {
  policies = insert_all ps (keep (λ p. not (is_of_pair old_pdid new_pdid p)) e.policies);
}

-- The loop over the policies that keeps the best one of a device.
abbrev pub is_candidate : String → Policy → Bool
is_candidate pdid p = p.enabled && (is_device p.type && str_eq p.target_id pdid)

abbrev pub improves : Policy → Option Policy → Bool
improves p none = true
improves p (some q) = ltb_ℤ q.priority p.priority

pub best_device : String → Option Policy → List Policy → Option Policy
best_device pdid best [] = best
best_device pdid best (p ∷ ps) =
    best_device pdid (if is_candidate pdid p && improves p best then some p else best) ps

-- The double loop over the tags of a device and the policies: `blocked` is the early return, with
-- the tag that led to it; `scanned` holds `hasAllowTag` and `tagSchedIDs`.
pub data Scan : Type 0 where
  blocked : String → Scan
  scanned : Bool → List String → Scan

abbrev pub is_tag_policy : String → Policy → Bool
is_tag_policy t p = p.enabled && (is_tag p.type && str_eq p.target_id t)

abbrev pub take_action : String → Policy → Action → Bool → List String → Scan
take_action t p Action.block a ids = blocked t
take_action t p Action.allow a ids = scanned true ids
take_action t p Action.schedule a ids = scanned a (ids ++ get_schedule_ids p)
take_action t p (Action.other _) a ids = scanned a ids

abbrev visit : String → Policy → Scan → Scan
visit t p (blocked u) = blocked u
visit t p (scanned a ids) =
    if is_tag_policy t p then take_action t p p.action a ids else scanned a ids

pub scan_policies : String → Scan → List Policy → Scan
scan_policies t s [] = s
scan_policies t s (p ∷ ps) = scan_policies t (visit t p s) ps

pub scan_tags : List Policy → Scan → List String → Scan
scan_tags ps s [] = s
scan_tags ps s (t ∷ ts) = scan_tags ps (scan_policies t s ps) ts

-- The two uses of the global policy, at the top and as the last resort.
abbrev pub infrastructure_override : Policy
infrastructure_override =
    bare "infrastructure_override" "Infrastructure Immunity" PolicyType.tag Action.allow

abbrev pub global_killswitch : Policy
global_killswitch =
    bare "global_killswitch" "Global Access Switch (Block All)" PolicyType.global Action.block

abbrev pub global_allow_override : Policy
global_allow_override =
    bare "global_allow_override" "Global Access Switch (Allow All)" PolicyType.global Action.allow

abbrev fallback : Policy
fallback = bare "fallback" "Fallback Allow" PolicyType.global Action.allow

abbrev or_fallback : Option Policy → Policy
or_fallback none = fallback
or_fallback (some g) = g

abbrev pub tag_policy : Option Policy → Scan → Policy
tag_policy g (blocked t) =
    bare "tag_block_override" (concat ("Tag Block (" ∷ t ∷ ")" ∷ [])) PolicyType.tag Action.block
tag_policy g (scanned true ids) =
    bare "tag_allow_override" "Tag Allow Override" PolicyType.tag Action.allow
tag_policy g (scanned false []) = or_fallback g
tag_policy g (scanned false (s ∷ ss)) =
    record (bare "tag_schedule_bundle" "Tag Schedule Bundle" PolicyType.tag Action.schedule) {
      schedule_ids = s ∷ ss;
    }

abbrev pub device_or_tag_policy : Option Policy → Option Policy → Scan → Policy
device_or_tag_policy g (some p) s = p
device_or_tag_policy g none s = tag_policy g s

abbrev pub global_is : (Policy → Bool) → Option Policy → Bool
global_is test none = false
global_is test (some g) = test g

unfoldable pub infrastructure : String
infrastructure = "infrastructure"

pub get_effective_policy : Engine → Option LocalDevice → Policy
get_effective_policy e none = bare "fallback" "" (PolicyType.other "") Action.allow
get_effective_policy e (some d) =
    let g = lookup "global_default" e.policies in
    let ps = values e.policies in
    if exists (λ t. str_eq t infrastructure) d.tags
    then infrastructure_override
    else if global_is (λ p. is_block p.action) g
    then global_killswitch
    else if global_is (λ p. is_allow p.action) g
    then global_allow_override
    else device_or_tag_policy g (best_device d.device.pdid none ps)
        (scan_tags ps (scanned false []) d.tags)

-- `schedEval`, which may be nil, as the result on a bundle.
abbrev pub Evaluator : Type 0
Evaluator = Option (List String → Action)

-- `if action == schedule && schedEval != nil { return schedEval.EvaluateBundle(...) }; return action`
abbrev pub run_policy : Evaluator → Policy → Action
run_policy none p = p.action
run_policy (some f) p = if is_schedule p.action then f (get_schedule_ids p) else p.action

abbrev pub run_global : Evaluator → Option Policy → Action
run_global ev none = Action.allow
run_global none (some g) = g.action
run_global (some f) (some g) =
    if g.enabled && is_schedule g.action then f (get_schedule_ids g) else g.action

abbrev pub run_tags : Evaluator → Option Policy → Scan → Action
run_tags ev g (blocked t) = Action.block
run_tags ev g (scanned true ids) = Action.allow
run_tags ev g (scanned false []) = run_global ev g
run_tags none g (scanned false (s ∷ ss)) = run_global none g
run_tags (some f) g (scanned false (s ∷ ss)) = f (s ∷ ss)

abbrev pub run_device_or_tags : Evaluator → Option Policy → Option Policy → Scan → Action
run_device_or_tags ev g (some p) s = run_policy ev p
run_device_or_tags ev g none s = run_tags ev g s

unfoldable pub evaluate_action : Engine → Option LocalDevice → Evaluator → Action
evaluate_action e none ev = Action.allow
evaluate_action e (some d) ev =
    let g = lookup "global_default" e.policies in
    let ps = values e.policies in
    if has_tag d.device infrastructure
    then Action.allow
    else if global_is (λ p. p.enabled && is_block p.action) g
    then Action.block
    else if global_is (λ p. p.enabled && is_allow p.action) g
    then Action.allow
    else run_device_or_tags ev g (best_device d.device.pdid none ps)
        (scan_tags ps (scanned false []) d.tags)

-- now.After(*p.ExpiresAt)
abbrev pub has_expired : ℕ → Policy → Bool
has_expired now p = elim p.expires_at [ none ↦ false | some t ↦ ltb t now ]

abbrev pub is_owned : String → Bool
is_owned sid = has_prefix sid "sched_pause_" || has_prefix sid "sched_extend_"

pub record Swept : Type 0 where
  pub kept : Dict Policy
  pub expired_ids : List String
  pub owned_ids : List String

sweep : ℕ → Dict Policy → Swept
sweep now [] = record { kept = []; expired_ids = []; owned_ids = [] }
sweep now ((id, p) ∷ m) =
    let r = sweep now m in
    if has_expired now p
    then record {
      kept = r.kept;
      expired_ids = id ∷ r.expired_ids;
      owned_ids = select is_owned (get_schedule_ids p) ++ r.owned_ids;
    }
    else record { kept = (id, p) ∷ r.kept; expired_ids = r.expired_ids; owned_ids = r.owned_ids }

pub sweep_expired : ℕ → Engine → Engine × List String × List String
sweep_expired now e =
    let r = sweep now e.policies in (record { policies = r.kept }, r.expired_ids, r.owned_ids)
