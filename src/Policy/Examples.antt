-- ===== src/Policy/Examples.antt =====
-- Runs of the policy engine, and its theorems at concrete inputs.
use mathlib.Core.Bool.{false≢true}
use lias_dis.Prelude.{
  String, ◌≡◌, ◌↔◌, refl, sym, ap, subst, ◌∙◌, inl, inr, true, false, str_eq, eq_iff, Bool-cases,
  not, some, none, List, [], ◌∷◌, In, exists, select,
}
use lias_dis.Prelude.Dict.{lookup, insert, filter_option}
use lias_dis.Prelude.Int.{pos}
use lias_dis.Prelude.Text.{has_prefix}
use lias_dis.Models.{Action, Policy, PolicyType, get_schedule_ids, has_tag}
use lias_dis.Samples.{tagged, rule}
use lias_dis.LocalDevice.{LocalDevice}
use lias_dis.Policy.{
  Engine, new_engine, upsert_policy, best_device, scan_policies, scan_tags, infrastructure,
  evaluate_action, get_effective_policy, run_policy, is_of_pair, reconcile_device_identity,
  has_expired, sweep_expired, sweep,
}
use lias_dis.Policy.Precedence.{Decided, evaluate_action-Decided}
use lias_dis.Policy.Orders.{SameMap}
use lias_dis.Policy.{is_candidate}
use lias_dis.Policy.Agreement.{evaluate_action-get_effective_policy}
use lias_dis.Policy.Lifecycle.{
  IsKeyed, upsert, delete, sweeps, run, run-new_engine-IsKeyed, or_else, last_with_id,
  lookup-reconcile_device_identity, ExpiredAt, OwnedAt, sweep_expired-exact,
}

abbrev kids_block : Policy
kids_block = rule "p1" PolicyType.tag "kids" Action.block

abbrev own_allow : Policy
own_allow = record (rule "p2" PolicyType.device "d1" Action.allow) {
  priority = pos 5;
  expires_at = some 100;
  schedule_ids = "sched_pause_d1" ∷ "bedtime" ∷ [];
}

abbrev engine : Engine
engine = upsert_policy own_allow (upsert_policy kids_block new_engine)

abbrev tablet : LocalDevice
tablet = tagged "d2" ("kids" ∷ [])

abbrev always_allow : List String → Action
always_allow ids = Action.allow

-- The engine with its map written out.
abbrev plain : Engine
plain = record { policies = ("p1", kids_block) ∷ ("p2", own_allow) ∷ [] }

kids_are_blocked : evaluate_action engine (some tablet) none ≡ Action.block
unfolding evaluate_action upsert_policy new_engine insert lookup has_tag exists best_device
    scan_tags scan_policies infrastructure
kids_are_blocked = refl

own_policy_wins : evaluate_action engine (some (tagged "d1" ("kids" ∷ []))) none ≡ Action.allow
unfolding evaluate_action upsert_policy new_engine insert lookup has_tag exists best_device
    scan_tags scan_policies infrastructure
own_policy_wins = refl

evaluate_action-Decided_example :
    Decided plain tablet none (evaluate_action plain (some tablet) none)
evaluate_action-Decided_example = evaluate_action-Decided plain tablet none

-- The same map in the other order.
abbrev turned : Engine
turned = record { policies = ("p2", own_allow) ∷ ("p1", kids_block) ∷ [] }

same_either_way : (k : String) → lookup k plain.policies ≡ lookup k turned.policies
unfolding lookup
same_either_way k = elim (Bool-cases (str_eq "p1" k)) [
  | inr n ↦ rw n refl
  | inl y ↦ elim (Bool-cases (str_eq "p2" k)) [
    | inr n ↦ rw (y, n) refl
    | inl z ↦
        let same : str_eq "p1" "p2" ≡ true =
          (eq_iff "p1" "p2").1 ((eq_iff "p1" k).0 y ∙ sym ((eq_iff "p2" k).0 z)) in
        absurd (false≢true same)
  ]
]

plain-turned : SameMap plain turned
plain-turned = record {
  same_lookup = same_either_way;
  forth = λ p i. elim i [ inl e ↦ inr (inl e) | inr (inl e) ↦ inl e | inr (inr n) ↦ absurd n ];
  back = λ p i. elim i [ inl e ↦ inr (inl e) | inr (inl e) ↦ inl e | inr (inr n) ↦ absurd n ];
}

abbrev phone : LocalDevice
phone = tagged "d1" ("kids" ∷ [])

only_own :
    (p : Policy) → In p (kids_block ∷ own_allow ∷ []) → is_candidate "d1" p ≡ true → own_allow ≡ p
only_own p (inl e) c =
    let f : false ≡ true = subst (λ x. is_candidate "d1" x ≡ true) (sym e) c in absurd (cc)
only_own p (inr (inl e)) c = e
only_own p (inr (inr n)) c = absurd n

evaluate_action-get_effective_policy_example :
    evaluate_action plain (some phone) (some always_allow)
    ≡ run_policy (some always_allow) (get_effective_policy turned (some phone))
unfolding lookup
evaluate_action-get_effective_policy_example =
    evaluate_action-get_effective_policy always_allow plain turned phone plain-turned
      (λ xs ys a b. refl)
      (λ p q i j c d e. ap (run_policy (some always_allow)) (sym (only_own p i c) ∙ only_own q j d))
      tt refl

run-new_engine-IsKeyed_example :
    IsKeyed (run (upsert own_allow ∷ sweeps 200 ∷ delete "p9" ∷ []) new_engine)
run-new_engine-IsKeyed_example =
    run-new_engine-IsKeyed (upsert own_allow ∷ sweeps 200 ∷ delete "p9" ∷ [])

plain-IsKeyed : IsKeyed plain
plain-IsKeyed = record { distinct = ((refl, tt), (tt, tt)); by_id = (refl, (refl, tt)) }

lookup-reconcile_device_identity_example :
    lookup "p2" (reconcile_device_identity "d1" "d3" [] plain).policies
    ≡ or_else
        (last_with_id "p2" [])
        (filter_option (λ p. not (is_of_pair "d1" "d3" p)) (lookup "p2" plain.policies))
lookup-reconcile_device_identity_example =
    lookup-reconcile_device_identity "d1" "d3" "p2" [] plain plain-IsKeyed

sweep_expired-exact_example :
    ((id : String)
      → lookup id (sweep_expired 200 plain).0.policies
        ≡ filter_option (λ p. not (has_expired 200 p)) (lookup id plain.policies))
    × ((id : String) → In id (sweep_expired 200 plain).1 ↔ ExpiredAt 200 plain.policies id)
    × ((sid : String) → In sid (sweep_expired 200 plain).2 ↔ OwnedAt 200 plain.policies sid)
sweep_expired-exact_example = sweep_expired-exact 200 plain plain-IsKeyed

sweep_drops_own_allow : (sweep_expired 200 plain).2 ≡ "sched_pause_d1" ∷ []
unfolding sweep_expired get_schedule_ids sweep select has_prefix
sweep_drops_own_allow = refl
