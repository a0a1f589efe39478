-- ===== src/Handlers/Effective/Agreement.antt =====
-- The status that is shown, against the decision that is enforced.
use lias_dis.Prelude.{
  ℕ, String, ◌≡◌, ◌≢◌, refl, sym, ap, ◌∙◌, inl, inr, true, false, ◌&&◌, Option, none, some, List,
  Bool-cases, In,
}
use lias_dis.Prelude.Dict.{lookup}
use lias_dis.Models.{Action, Policy, has_tag, is_schedule, is_block, is_allow, get_schedule_ids}
use lias_dis.LocalDevice.{LocalDevice}
use lias_dis.Policy.{
  Engine, values, evaluate_action, infrastructure, global_is, run_policy, get_policy,
  get_effective_policy,
}
use lias_dis.Policy.Precedence.{test_of_immune, test_of_global}
use lias_dis.Policy.Agreement.{GlobalEnabled, same_order}
use lias_dis.Policy.Orders.{SameMap, ReadsMembers, NoTies, evaluate_action-SameMap}
use lias_dis.Handlers.{pause_id, device_extension_id}
use lias_dis.Handlers.Effective.{
  Effective, Source, because, offer, of_policy, of_temporary, last_match, is_active,
  compute_device_effective_status,
}

-- What the dashboard may offer with a status: more time only for what is blocked, and a pause only
-- for what is not.
pub IsFair : Effective → Type 0
IsFair r =
    (r.extend_available ≡ true → r.action ≡ Action.block)
    × (r.pause_available ≡ true → r.action ≢ Action.block)

-- Neither more time nor a pause.
pub OffersNothing : Effective → Type 0
OffersNothing r = (r.extend_available ≡ false) × (r.pause_available ≡ false)

-- The global policy is enabled and blocks everything.
abbrev pub BlocksGlobally : Engine → Type 0
BlocksGlobally e =
    (g : Policy) × (lookup "global_default" e.policies ≡ some g)
    × (g.enabled ≡ true)
    × (g.action ≡ Action.block)

is_block-eq : (a : Action) → is_block a ≡ true → a ≡ Action.block
is_block-eq Action.block h = refl
is_block-eq Action.allow h = absurd (cc)
is_block-eq Action.schedule h = absurd (cc)
is_block-eq (Action.other x) h = absurd (cc)

not_is_block-ne : (a : Action) → is_block a ≡ false → a ≢ Action.block
not_is_block-ne a h e = let q : true ≡ false = ap is_block (sym e) ∙ h in cc

offer-IsFair : (a : Action) (source : Source) → IsFair (offer (because a source))
unfolding IsFair
offer-IsFair a source = elim (Bool-cases (is_block a)) [
  | inl x ↦ rw x (λ _. is_block-eq a x, λ h. absurd (cc))
  | inr x ↦ rw x (λ h. absurd (cc), λ _. not_is_block-ne a x)
]

of_policy-IsFair : (f : List String → Action) (p : Policy) → IsFair (of_policy f p)
of_policy-IsFair f p = elim (Bool-cases (is_schedule p.action)) [
  | inl x ↦ rw x (offer-IsFair (f (get_schedule_ids p)) Source.schedule)
  | inr x ↦ rw x (offer-IsFair p.action _)
]

of_temporary-IsFair :
    (now : ℕ) (ext pause : Option Policy) (rest : Effective)
    → IsFair rest
    → IsFair (of_temporary now ext pause rest)
unfolding IsFair
of_temporary-IsFair now (some x) pause rest h = (λ e. absurd (cc), λ e. absurd (cc))
of_temporary-IsFair now none (some p) rest h = (λ e. refl, λ e. absurd (cc))
of_temporary-IsFair now none none rest h = h

status-IsFair :
    (now : ℕ) (f : List String → Action) (e : Engine) (d : LocalDevice)
    → IsFair (compute_device_effective_status now f e (some d))
unfolding compute_device_effective_status IsFair
status-IsFair now f e d = elim (Bool-cases (has_tag d.device infrastructure)) [
  | inl x ↦ rw (compute_device_effective_status, x) (λ h. absurd (cc), λ h. absurd (cc))
  | inr x ↦
      elim (Bool-cases
        (global_is (λ p. p.enabled && is_block p.action) (get_policy e "global_default"))) [
          | inl y ↦ rw (compute_device_effective_status, x, y) (λ h. absurd (cc), λ h. absurd (cc))
          | inr y ↦
              elim (Bool-cases
                (global_is (λ p. p.enabled && is_allow p.action) (get_policy e "global_default"))) [
                  | inl z ↦
                      rw (compute_device_effective_status, x, y, z) (λ h. absurd (cc), λ _ k. cc)
                  | inr z ↦
                      rw (compute_device_effective_status, x, y, z)
                        (of_temporary-IsFair now
                          (last_match (is_active d.device.pdid (device_extension_id d.device.pdid))
                            none (values e.policies))
                          (last_match (is_active d.device.pdid (pause_id d.device.pdid)) none
                            (values e.policies))
                          (of_policy f (get_effective_policy e (some d)))
                          (of_policy-IsFair f (get_effective_policy e (some d))))
                ]
        ]
]

-- The status of a device, whatever the policies: more time is offered only for a device that is
-- blocked, and a pause only for one that is not. Neither is offered for a device whose own tags have
-- the infrastructure tag, nor while the global policy is enabled and blocks.
pub compute_device_effective_status-IsFair :
    (now : ℕ) (f : List String → Action) (e : Engine) (d : LocalDevice)
    → IsFair (compute_device_effective_status now f e (some d))
      × (In infrastructure d.device.tags
          → OffersNothing (compute_device_effective_status now f e (some d)))
      × (BlocksGlobally e → OffersNothing (compute_device_effective_status now f e (some d)))
unfolding compute_device_effective_status OffersNothing get_policy
compute_device_effective_status-IsFair now f e d = (
  status-IsFair now f e d,
  λ m. rw (compute_device_effective_status, test_of_immune d m) (refl, refl),
  λ g. elim (Bool-cases (has_tag d.device infrastructure)) [
    | inl x ↦ rw (compute_device_effective_status, x) (refl, refl)
    | inr x ↦
        let y : global_is (λ p. p.enabled && is_block p.action) (lookup "global_default" e.policies)
            ≡ true =
          test_of_global is_block (lookup "global_default" e.policies)
            (g.0, g.1, g.2, ap is_block g.3) in
        rw (compute_device_effective_status, x, y) (refl, refl)
  ],
)

action-of_policy :
    (f : List String → Action) (p : Policy) → (of_policy f p).action ≡ run_policy (some f) p
action-of_policy f p = elim (Bool-cases (is_schedule p.action)) [
  | inl x ↦ rw x (action-offer (f (get_schedule_ids p)) Source.schedule)
  | inr x ↦ rw x (action-offer p.action _)
]
  where
    action-offer : (a : Action) (source : Source) → (offer (because a source)).action ≡ a
    action-offer a source = elim (Bool-cases (is_block a)) [ inl x ↦ rw x refl | inr x ↦ rw x refl ]

-- The status shows the action that is enforced, where both walk the map in one order.
same_order_status :
    (now : ℕ) (f : List String → Action) (e : Engine) (d : LocalDevice)
    → GlobalEnabled (lookup "global_default" e.policies)
    → d.tags ≡ d.device.tags
    → last_match
        (is_active d.device.pdid (device_extension_id d.device.pdid))
        none
        (values e.policies)
      ≡ none
    → last_match (is_active d.device.pdid (pause_id d.device.pdid)) none (values e.policies) ≡ none
    → (compute_device_effective_status now f e (some d)).action
      ≡ evaluate_action e (some d) (some f)
unfolding compute_device_effective_status evaluate_action get_policy
same_order_status now f e d g t x y = elim (Bool-cases (has_tag d.device infrastructure)) [
  | inl i ↦ rw (compute_device_effective_status, evaluate_action, i) refl
  | inr i ↦
      elim (Bool-cases
        (global_is (λ p. p.enabled && is_block p.action) (get_policy e "global_default"))) [
          | inl b ↦ rw (compute_device_effective_status, evaluate_action, i, b) refl
          | inr b ↦
              elim (Bool-cases
                (global_is (λ p. p.enabled && is_allow p.action) (get_policy e "global_default"))) [
                  | inl a ↦ rw (compute_device_effective_status, evaluate_action, i, b, a) refl
                  | inr a ↦
                      let shown : (compute_device_effective_status now f e (some d)).action
                          ≡ (of_policy f (get_effective_policy e (some d))).action =
                        rw (compute_device_effective_status, i, b, a, x, y) refl in
                      shown
                      ∙ action-of_policy f (get_effective_policy e (some d))
                      ∙ sym (same_order f e d g t)
                ]
        ]
]

-- The status shows the action that is enforced, although the two walk the map of policies in orders
-- of their own. The device has no active extension or pause, the global policy is enabled or
-- missing, the two tag lists of the device are the same, enabled policies of the device that have
-- the same priority decide the same, and the evaluator does not read the order of a bundle.
pub compute_device_effective_status-evaluate_action :
    (now : ℕ) (f : List String → Action) (e w : Engine) (d : LocalDevice)
    → SameMap e w
    → ReadsMembers f
    → NoTies f d.device.pdid e
    → GlobalEnabled (lookup "global_default" w.policies)
    → d.tags ≡ d.device.tags
    → last_match
        (is_active d.device.pdid (device_extension_id d.device.pdid))
        none
        (values w.policies)
      ≡ none
    → last_match (is_active d.device.pdid (pause_id d.device.pdid)) none (values w.policies) ≡ none
    → (compute_device_effective_status now f w (some d)).action
      ≡ evaluate_action e (some d) (some f)
compute_device_effective_status-evaluate_action now f e w d m r n g t x y =
    same_order_status now f w d g t x y ∙ sym (evaluate_action-SameMap f e w m r d n)
