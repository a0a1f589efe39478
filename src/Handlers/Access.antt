-- ===== src/Handlers/Access.antt =====
-- What a pause and an extension of a device do to the decision on the device, and what cancelling
-- them undoes.
use lias_dis.Prelude.{
  ℕ, String, ◌≡◌, refl, sym, ap, subst, ◌∙◌, ◌⊎◌, inl, inr, Bool, true, false, ◌&&◌, ◌||◌, Option,
  none, some, List, [], ◌∷◌, arith, In, Bool-cases, str_eq, eq_iff, eq_refl,
}
use lias_dis.Prelude.Dict.{Dict, insert, erase, Distinct, Fresh, lookup-insert}
use text.Mathlib.Text.{starts_with}
use text.Mathlib.TextPositions.{starts_with-append}
use lias_dis.Prelude.Text.{concat}
use lias_dis.Prelude.Int.{ℤ, ltb_ℤ, ◌≤ℤ◌}
use lias_dis.Models.{Action, Policy, has_tag, is_block, is_allow, get_schedule_ids}
use lias_dis.LocalDevice.{LocalDevice}
use lias_dis.Policy
use lias_dis.Policy.{
  values, is_candidate, best_device, evaluate_action, infrastructure, global_is, scan_tags, scanned,
  run_policy, upsert_policy, delete_policy, get_policy, run_device_or_tags,
}
use lias_dis.Policy.Best.{BestOf, best_device-BestOf}
use lias_dis.SyncCache.{get}
use lias_dis.Handlers.{
  State, Marshal, accepted, conflict, bad_request, server_error, is_immune, out_of_range,
  blocks_globally, pause_schedule, pause_id, pause_policy, pause_device_internet, extension_policy,
  device_extension_id, device_extension, extend, extend_device_access, notify, try_trigger,
}

-- A policy among those of a map after a write is the new one, or stands under another key.
pub In-values-insert :
    (k : String) (p q : Policy) (m : Dict Policy)
    → Distinct m
    → In q (values (insert k p m))
    → (p ≡ q) ⊎ In q (values (erase k m))
unfolding insert erase
In-values-insert k p q [] d (inl e) = inl e
In-values-insert k p q [] d (inr n) = absurd n
In-values-insert k p q ((i, r) ∷ m) d h = elim (Bool-cases (str_eq i k)) [
  | inl y ↦ elim (let g : In q (p ∷ values m) = rw (insert, y) at h in g) [
    | inl e ↦ inl e
    | inr o ↦ inr (
        rw (erase, y)
          (subst (λ x. In q (values x))
            (sym (erase-Fresh k m (subst (λ x. Fresh x m) ((eq_iff i k).0 y) d.0))) o))
  ]
  | inr n ↦ elim (let g : In q (r ∷ values (insert k p m)) = rw (insert, n) at h in g) [
    | inl e ↦ inr (rw (erase, n) (inl e))
    | inr o ↦ elim (In-values-insert k p q m d.1 o) [
      | inl e ↦ inl e
      | inr t ↦ inr (rw (erase, n) (inr t))
    ]
  ]
]
  where
    erase-Fresh : (k : String) (m : Dict Policy) → Fresh k m → erase k m ≡ m
    erase-Fresh k [] f = refl
    erase-Fresh k ((j, v) ∷ m) f = rw (erase, f.0) (ap (λ x. (j, v) ∷ x) (erase-Fresh k m f.1))

pub In-values-new : (k : String) (p : Policy) (m : Dict Policy) → In p (values (insert k p m))
unfolding insert
In-values-new k p [] = inl refl
In-values-new k p ((i, r) ∷ m) = elim (Bool-cases (str_eq i k)) [
  | inl y ↦ rw (insert, y) (inl refl)
  | inr n ↦ rw (insert, n) (inr (In-values-new k p m))
]

-- No other enabled policy of the device is as strong as `p`.
abbrev pub Weaker : String → Policy → Policy.Engine → Type 0
Weaker pdid p e =
    (q : Policy)
    → In q (values (erase p.id e.policies))
    → is_candidate pdid q ≡ true
    → ltb_ℤ q.priority p.priority ≡ true

best_of_new :
    (pdid : String) (p : Policy) (e : Policy.Engine)
    → Distinct e.policies
    → is_candidate pdid p ≡ true
    → Weaker pdid p e
    → best_device pdid none (values (insert p.id p e.policies)) ≡ some p
best_of_new pdid p e d c w =
    best (best_device pdid none (values (insert p.id p e.policies)))
      (best_device-BestOf pdid (values (insert p.id p e.policies)))
  where
    irreflexive : (a b : ℤ) → ltb_ℤ a b ≡ true → b ≤ℤ a → ⊥
    irreflexive a b l h = ground arith

    best :
        (o : Option Policy)
        → BestOf pdid (λ q. In q (values (insert p.id p e.policies))) o
        → o ≡ some p
    best none h =
        absurd (let f : true ≡ false = sym c ∙ h p (In-values-new p.id p e.policies) in cc)
    best (some b) (i, k, h) = elim (In-values-insert p.id p b e.policies d i) [
      | inl x ↦ ap some (sym x)
      | inr o ↦
          absurd
            (irreflexive b.priority p.priority (w b o k) (h p (In-values-new p.id p e.policies) c))
    ]

-- A name with the prefix of an identifier of the handlers is not that of the global policy.
pub not-global :
    (prefix name : String)
    → starts_with "global_default" prefix ≡ false
    → str_eq (concat (prefix ∷ name ∷ [])) "global_default" ≡ false
unfolding concat
not-global prefix name h =
    elim (Bool-cases (str_eq (concat (prefix ∷ name ∷ [])) "global_default")) [
      | inl y ↦
          let e : concat (prefix ∷ name ∷ []) ≡ "global_default" = (eq_iff _ _).0 y in
          absurd (
            let f : true ≡ false =
              sym (subst (λ x. starts_with x prefix ≡ true) e (starts_with-append prefix name))
              ∙ h in
            cc)
      | inr n ↦ n
    ]

pub device_extension_id-not_global :
    (pdid : String) → str_eq (device_extension_id pdid) "global_default" ≡ false
unfolding device_extension_id
device_extension_id-not_global pdid = not-global "pol_extend_device_" pdid refl

pause_id-not_global : (pdid : String) → str_eq (pause_id pdid) "global_default" ≡ false
unfolding pause_id
pause_id-not_global pdid = not-global "pol_pause_" pdid refl

-- A policy that is the best of the device decides, unless a rule above it does.
evaluate_action-new :
    (p : Policy) (d : LocalDevice) (ev : Policy.Evaluator) (e : Policy.Engine)
    → str_eq p.id "global_default" ≡ false
    → Distinct e.policies
    → is_candidate d.device.pdid p ≡ true
    → Weaker d.device.pdid p e
    → has_tag d.device infrastructure ≡ false
    → blocks_globally e ≡ false
    → global_is (λ q. q.enabled && is_allow q.action) (get_policy e "global_default") ≡ false
    → evaluate_action (upsert_policy p e) (some d) ev ≡ run_policy ev p
unfolding evaluate_action upsert_policy get_policy
evaluate_action-new p d ev e g dis c w i b a =
    rw
      (
        evaluate_action,
        i,
        lookup-insert p.id "global_default" p e.policies,
        g,
        b,
        a,
        best_of_new d.device.pdid p e dis c w,
      )
      refl

-- The policies that an accepted extension leaves.
pub extend-accepted :
    (marshal : Marshal) (now : ℕ) (saved : Bool) (kind target : String) (policy : ℤ → Policy)
    (minutes : Option ℤ) (s : State)
    → (extend marshal now saved kind target policy minutes s).0 ≡ accepted
    → (n : ℤ) × (minutes ≡ some n)
      × (out_of_range n ≡ false)
      × (blocks_globally s.policies ≡ false)
      × ((extend marshal now saved kind target policy minutes s).1.policies
          ≡ upsert_policy (policy n) s.policies)
unfolding extend notify try_trigger
extend-accepted marshal now saved kind target policy none s h = absurd (cc)
extend-accepted marshal now saved kind target policy (some n) s h =
    elim (Bool-cases (out_of_range n)) [
      | inl x ↦ absurd (let k : bad_request ≡ accepted = rw (extend, x) at h in cc)
      | inr x ↦ elim (Bool-cases (blocks_globally s.policies)) [
        | inl y ↦ absurd (let k : conflict ≡ accepted = rw (extend, x, y) at h in cc)
        | inr y ↦ elim (Bool-cases saved) [
          | inl z ↦ (n, refl, x, y, rw (extend, x, y, z) refl)
          | inr z ↦ absurd (let k : server_error ≡ accepted = rw (extend, x, y, z) at h in cc)
        ]
      ]
    ]

run-allow :
    (ev : Policy.Evaluator) (p : Policy) → p.action ≡ Action.allow → run_policy ev p ≡ Action.allow
run-allow none p e = e
run-allow (some f) p e = rw e refl

-- Where the device may have any tags and the global policy is not an enabled block, a best policy
-- that allows does allow.
evaluate_action-new_allow :
    (p : Policy) (d : LocalDevice) (ev : Policy.Evaluator) (e : Policy.Engine)
    → str_eq p.id "global_default" ≡ false
    → Distinct e.policies
    → is_candidate d.device.pdid p ≡ true
    → Weaker d.device.pdid p e
    → blocks_globally e ≡ false
    → p.action ≡ Action.allow
    → evaluate_action (upsert_policy p e) (some d) ev ≡ Action.allow
unfolding evaluate_action upsert_policy get_policy
evaluate_action-new_allow p d ev e g dis c w b act =
    elim (Bool-cases (has_tag d.device infrastructure)) [
      | inl i ↦ rw (evaluate_action, i) refl
      | inr i ↦
          elim (Bool-cases
            (global_is (λ q. q.enabled && is_allow q.action) (get_policy e "global_default"))) [
              | inl a ↦
                  rw (evaluate_action, i, lookup-insert p.id "global_default" p e.policies, g, b, a)
                    refl
              | inr a ↦ evaluate_action-new p d ev e g dis c w i b a ∙ run-allow ev p act
            ]
    ]

-- When the request to extend the access of a device in the cache is accepted and no other enabled
-- policy of the device is as strong as the extension, the device is allowed right after it,
-- whatever its tags and the schedules say.
pub extend_device_access-evaluate_action :
    (marshal : Marshal) (now : ℕ) (saved : Bool) (minutes : ℤ) (d : LocalDevice)
    (ev : Policy.Evaluator) (s : State)
    → get s.cache d.device.pdid ≡ some d
    → Distinct s.policies.policies
    → Weaker d.device.pdid (device_extension now d.device.pdid minutes) s.policies
    → (extend_device_access marshal now saved d.device.pdid (some minutes) s).0 ≡ accepted
    → evaluate_action
        (extend_device_access marshal now saved d.device.pdid (some minutes) s).1.policies
        (some d)
        ev
      ≡ Action.allow
unfolding extend_device_access device_extension extension_policy
extend_device_access-evaluate_action marshal now saved minutes d ev s found dis w h =
    elim (Bool-cases (is_immune d.tags)) [
      | inl i ↦
          absurd (let k : conflict ≡ accepted = rw (extend_device_access, found, i) at h in cc)
      | inr i ↦
          let (n, m, r, b, e) =
            extend-accepted marshal now saved "device" d.device.pdid
              (device_extension now d.device.pdid) (some minutes) s
              (rw (extend_device_access, found, i) at h) in
          rw (extend_device_access, found, i, e, sym (some-eq m))
            (evaluate_action-new_allow (device_extension now d.device.pdid minutes) d ev s.policies
              (device_extension_id-not_global d.device.pdid) dis (eq_refl d.device.pdid) w b refl)
    ]
  where
    some-eq : {a b : ℤ} → some a ≡ some b → a ≡ b
    some-eq e = cc

-- When a pause is accepted for a device in the cache, no other enabled policy of the device is as
-- strong as the pause and the global policy is not an enabled block or allow, the device gets the
-- action of the temporary schedule alone, if it is not immune by its own tags.
pub pause_device_internet-evaluate_action :
    (marshal : Marshal) (now : ℕ) (id : String) (d : LocalDevice) (f : List String → Action)
    (s : State)
    → get s.cache d.device.pdid ≡ some d
    → Distinct s.policies.policies
    → Weaker d.device.pdid (pause_policy now id d.device.pdid) s.policies
    → has_tag d.device infrastructure ≡ false
    → global_is
        (λ p. p.enabled && (is_block p.action || is_allow p.action))
        (get_policy s.policies "global_default")
      ≡ false
    → (pause_device_internet marshal now id d.device.pdid s).0 ≡ accepted
    → evaluate_action
        (pause_device_internet marshal now id d.device.pdid s).1.policies
        (some d)
        (some f)
      ≡ f ((pause_schedule now id).id ∷ [])
unfolding pause_device_internet pause_policy notify try_trigger get_schedule_ids
pause_device_internet-evaluate_action marshal now id d f s found dis w i g h =
    elim (Bool-cases (is_immune d.tags)) [
      | inl t ↦
          absurd (let k : conflict ≡ accepted = rw (pause_device_internet, found, t) at h in cc)
      | inr t ↦
          let (b, a) = split (get_policy s.policies "global_default") g in
          rw (pause_device_internet, found, t)
            (evaluate_action-new (pause_policy now id d.device.pdid) d (some f) s.policies
              (pause_id-not_global d.device.pdid) dis (eq_refl d.device.pdid) w i b a)
    ]
  where
    split :
        (o : Option Policy)
        → global_is (λ p. p.enabled && (is_block p.action || is_allow p.action)) o ≡ false
        → (global_is (λ p. p.enabled && is_block p.action) o ≡ false)
          × (global_is (λ p. p.enabled && is_allow p.action) o ≡ false)
    split none e = (refl, refl)
    split (some p) e = ground (arith, e)
