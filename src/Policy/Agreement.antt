-- ===== src/Policy/Agreement.antt =====
-- The two deciding methods of the policy engine against each other.
use lias_dis.Prelude.{
  String, ◌≡◌, refl, ◌∙◌, Bool, true, false, ◌&&◌, Option, none, some, List, [], ◌∷◌, str_eq,
  exists, if◌then◌else◌,
}
use lias_dis.Prelude.Dict.{lookup}
use lias_dis.Models.{Action, Policy, is_allow, is_block, get_schedule_ids, has_tag}
use lias_dis.LocalDevice.{LocalDevice}
use lias_dis.Policy.{
  Engine, Scan, blocked, scanned, tag_policy, device_or_tag_policy, global_is, infrastructure,
  infrastructure_override, global_killswitch, global_allow_override, get_effective_policy,
  run_policy, run_global, run_device_or_tags, evaluate_action, best_device, values, scan_tags,
}
use lias_dis.Policy.Orders.{SameMap, ReadsMembers, NoTies, evaluate_action-SameMap}

-- The global policy is enabled, if there is one.
abbrev pub GlobalEnabled : Option Policy → Type 0
GlobalEnabled none = Unit
GlobalEnabled (some g) = g.enabled ≡ true

infrastructure-ne-empty : str_eq infrastructure "" ≡ false
unfolding infrastructure
infrastructure-ne-empty = refl

has_tag-exists :
    (d : LocalDevice)
    → d.tags ≡ d.device.tags
    → has_tag d.device infrastructure ≡ exists (λ t. str_eq t infrastructure) d.tags
unfolding has_tag
has_tag-exists d h = rw (infrastructure-ne-empty, h)

module _ (f : List String → Action) where
  global_agrees :
      (g : Option Policy)
      → GlobalEnabled g
      → run_global (some f) g ≡ run_policy (some f) (tag_policy g (scanned false []))
  unfolding get_schedule_ids
  global_agrees none h = refl
  global_agrees (some g) h = rw h

  last_agrees :
      (g : Option Policy) (best : Option Policy) (s : Scan)
      → GlobalEnabled g
      → run_device_or_tags (some f) g best s ≡ run_policy (some f) (device_or_tag_policy g best s)
  unfolding get_schedule_ids
  last_agrees g (some p) s h = refl
  last_agrees g none (blocked t) h = refl
  last_agrees g none (scanned true ids) h = refl
  last_agrees g none (scanned false []) h = global_agrees g h
  last_agrees g none (scanned false (s ∷ ss)) h = refl

  enabled_global :
      (test : Policy → Bool) (g : Option Policy)
      → GlobalEnabled g
      → global_is (λ p. p.enabled && test p) g ≡ global_is test g
  enabled_global test none h = refl
  enabled_global test (some g) h = rw h

  first_tests_agree :
      (x y z : Bool) (u : Action) (p : Policy)
      → u ≡ run_policy (some f) p
      → (if x then Action.allow else if y then Action.block else if z then Action.allow else u)
        ≡ run_policy (some f) (
            if x
            then infrastructure_override
            else if y
            then global_killswitch
            else if z
            then global_allow_override
            else p)
  first_tests_agree true y z u p h = refl
  first_tests_agree false true z u p h = refl
  first_tests_agree false false true u p h = refl
  first_tests_agree false false false u p h = h

  -- Both walk the map in one order.
  pub same_order :
      (e : Engine) (d : LocalDevice)
      → GlobalEnabled (lookup "global_default" e.policies)
      → d.tags ≡ d.device.tags
      → evaluate_action e (some d) (some f) ≡ run_policy (some f) (get_effective_policy e (some d))
  unfolding evaluate_action get_effective_policy
  same_order e d h t =
      rw
        (
          has_tag-exists d t,
          enabled_global (λ p. is_block p.action) (lookup "global_default" e.policies) h,
          enabled_global (λ p. is_allow p.action) (lookup "global_default" e.policies) h,
        )
        (let g = lookup "global_default" e.policies in
          let best = best_device d.device.pdid none (values e.policies) in
          let s = scan_tags (values e.policies) (scanned false []) d.tags in
          first_tests_agree (exists (λ t. str_eq t infrastructure) d.tags)
            (global_is (λ p. is_block p.action) g) (global_is (λ p. is_allow p.action) g)
            (run_device_or_tags (some f) g best s) (device_or_tag_policy g best s)
            (last_agrees g best s h))

  -- `EvaluateAction` answers what the policy shown by `GetEffectivePolicy` says, run through the
  -- evaluator where it is a schedule, although the two walk the map of policies in orders of their
  -- own. The global policy is enabled (or missing), the two tag lists of the device are the same,
  -- enabled policies of the device that have the same priority decide the same, and the evaluator
  -- does not read the order of a bundle.
  pub evaluate_action-get_effective_policy :
      (e w : Engine) (d : LocalDevice)
      → SameMap e w
      → ReadsMembers f
      → NoTies f d.device.pdid e
      → GlobalEnabled (lookup "global_default" w.policies)
      → d.tags ≡ d.device.tags
      → evaluate_action e (some d) (some f) ≡ run_policy (some f) (get_effective_policy w (some d))
  evaluate_action-get_effective_policy e w d m r n h t =
      evaluate_action-SameMap f e w m r d n ∙ same_order w d h t
