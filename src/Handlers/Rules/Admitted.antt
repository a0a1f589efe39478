-- ===== src/Handlers/Rules/Admitted.antt =====
-- What the checks of the handlers leave in the engines.
use lias_dis.Prelude.{
  ℕ, ◌<◌, String, ◌≡◌, ◌≢◌, refl, sym, ◌∙◌, subst, ◌⊎◌, inl, inr, Bool, true, false, Option, none,
  some, List, [], ◌∷◌, Bool-cases, Option-cases, if◌then◌else◌, str_eq,
}
use lias_dis.Prelude.Dict.{
  Dict, lookup, insert, erase, lookup-insert, lookup-erase, lookup-insert_self,
}
use lias_dis.Models.{Policy, Schedule, ScheduleRule, get_schedule_ids, is_schedule}
use lias_dis.Policy.{upsert_policy, get_policy}
use lias_dis.ScheduleConflict.{Conflict, merge_schedules}
use lias_dis.ScheduleConflict.Rules.{RuleOpen}
use lias_dis.ScheduleConflict.Merge.{RuleOf, Different, merge_schedules-error_none}
use lias_dis.Schedule.{Locations}
use lias_dis.Schedule.Engine
use lias_dis.Schedule.Engine.{has_failed, resolve, upsert_schedule, delete_schedule}
use lias_dis.Handlers.{State, Status, bad_request, conflict, server_error, try_trigger}
use lias_dis.Handlers.Undo.{schedules-upsert_schedule, schedules-delete_schedule}
use lias_dis.Handlers.Rules.{
  Checked, nothing, missing, merged, check_ids, check_resolved, validate_and_merge, refusal,
  refusal_of, is_immutable_target, save_policy, admit_policy, validate_schedule_rules,
  is_supported_timezone, admit_schedule, create_schedule, update_schedule, remove_schedule,
}

-- The requests on schedules.
pub data Call : Type 0 where
  created : Bool → String → Option Schedule → Call
  updated : Bool → String → Option Schedule → Call
  removed : Bool → String → Call

module _ (loc : Locations) where
  unfoldable pub step : Call → State → State
  step (created saved id t) s = (create_schedule loc saved id t s).1
  step (updated saved id t) s = (update_schedule loc saved id t s).1
  step (removed saved id) s = (remove_schedule saved id s).1

  unfoldable pub run : List Call → State → State
  run [] s = s
  run (c ∷ cs) s = run cs (step c s)

  -- The rules are well formed, the time zone is known, and the schedule does not contradict itself.
  pub record IsAdmitted (t : Schedule) : Type 0 where
    pub valid : validate_schedule_rules t ≡ true
    pub supported : is_supported_timezone loc t.timezone ≡ true
    pub consistent : has_failed (merge_schedules (t ∷ [])) ≡ false

  abbrev pub AllAdmitted : Dict Schedule → Type 0
  AllAdmitted m = (id : String) (t : Schedule) → lookup id m ≡ some t → IsAdmitted t

  some-eq : {a b : Schedule} → some a ≡ some b → a ≡ b
  some-eq e = cc

  AllAdmitted-insert :
      (t : Schedule) (m : Dict Schedule)
      → IsAdmitted t
      → AllAdmitted m
      → AllAdmitted (insert t.id t m)
  AllAdmitted-insert t m a h id u e = elim (Bool-cases (str_eq t.id id)) [
    | inl y ↦
        let g : some t ≡ some u = rw (lookup-insert t.id id t m, y) at e in
        subst IsAdmitted (some-eq g) a
    | inr n ↦ h id u (rw (lookup-insert t.id id t m, n) at e)
  ]

  AllAdmitted-erase :
      (gone : String) (m : Dict Schedule) → AllAdmitted m → AllAdmitted (erase gone m)
  AllAdmitted-erase gone m h id u e = elim (Bool-cases (str_eq gone id)) [
    | inl y ↦ absurd (let g : none ≡ some u = rw (lookup-erase gone id m, y) at e in cc)
    | inr n ↦ h id u (rw (lookup-erase gone id m, n) at e)
  ]

  admit_schedule-AllAdmitted :
      (saved : Bool) (reply : Status) (t : Schedule) (s : State)
      → AllAdmitted s.schedules.schedules
      → AllAdmitted (admit_schedule loc saved reply t s).1.schedules.schedules
  unfolding admit_schedule try_trigger
  admit_schedule-AllAdmitted saved reply t s h = elim (Bool-cases (validate_schedule_rules t)) [
    | inr x ↦ rw (admit_schedule, x) h
    | inl x ↦ elim (Bool-cases (is_supported_timezone loc t.timezone)) [
      | inr y ↦ rw (admit_schedule, x, y) h
      | inl y ↦ elim (Bool-cases (has_failed (merge_schedules (t ∷ [])))) [
        | inl z ↦ rw (admit_schedule, x, y, z) h
        | inr z ↦
            let kept : AllAdmitted (upsert_schedule t s.schedules).schedules =
              rw (schedules-upsert_schedule t s.schedules) (
                AllAdmitted-insert t s.schedules.schedules
                  (record { valid = x; supported = y; consistent = z }) h) in
            elim (Bool-cases saved) [
              | inl v ↦ rw (admit_schedule, x, y, z, v) kept
              | inr v ↦ rw (admit_schedule, x, y, z, v) kept
            ]
      ]
    ]
  ]

  step-AllAdmitted :
      (c : Call) (s : State)
      → AllAdmitted s.schedules.schedules
      → AllAdmitted (step c s).schedules.schedules
  unfolding step create_schedule update_schedule remove_schedule try_trigger
  step-AllAdmitted (created saved id none) s h = h
  step-AllAdmitted (created saved id (some t)) s h = admit_schedule-AllAdmitted saved _ _ s h
  step-AllAdmitted (updated saved id none) s h = h
  step-AllAdmitted (updated saved id (some t)) s h = admit_schedule-AllAdmitted saved _ _ s h
  step-AllAdmitted (removed saved id) s h =
      let gone : AllAdmitted (delete_schedule id s.schedules).schedules =
        rw (schedules-delete_schedule id s.schedules)
          (AllAdmitted-erase id s.schedules.schedules h) in
      elim (Bool-cases saved) [
        | inl v ↦ rw (remove_schedule, v) gone
        | inr v ↦ rw (remove_schedule, v) gone
      ]

  -- Any requests that create, change and delete schedules keep this: the rules of every schedule
  -- are well formed, its time zone is known, and it merges with no error and no conflict on its own.
  pub run-AllAdmitted :
      (cs : List Call) (s : State)
      → AllAdmitted s.schedules.schedules
      → AllAdmitted (run cs s).schedules.schedules
  unfolding run
  run-AllAdmitted [] s h = h
  run-AllAdmitted (c ∷ cs) s h = run-AllAdmitted cs (step c s) (step-AllAdmitted c s h)

-- Any two different rules of the schedules that are open at one minute of the week have the same
-- action.
abbrev pub Agrees : List Schedule → Type 0
Agrees ss =
    (t u : Schedule) (r q : ScheduleRule) (i j m : ℕ)
    → m < 10080
    → RuleOf ss t r i
    → RuleOf ss u q j
    → RuleOpen r m
    → RuleOpen q m
    → Different t i u j
    → r.action ≡ q.action

-- The schedules are there, and they agree or their merge ends with an error and no conflict.
abbrev pub AreMergeable : Engine.Engine → List String → Type 0
AreMergeable e ids =
    (ss : List Schedule) × (resolve e.schedules ids ≡ some ss)
    × (Agrees ss ⊎ (((merge_schedules ss).error ≢ none) × ((merge_schedules ss).conflicts ≡ [])))

pub IsAttachable : Engine.Engine → Policy → Type 0
IsAttachable e p =
    is_schedule p.action ≡ true → (get_schedule_ids p ≡ []) ⊎ AreMergeable e (get_schedule_ids p)

merged-Agrees :
    (ss : List Schedule)
    → (merge_schedules ss).conflicts ≡ []
    → Agrees ss ⊎ (((merge_schedules ss).error ≢ none) × ((merge_schedules ss).conflicts ≡ []))
merged-Agrees [] h = inl (λ t u r q i j m b at_r. absurd at_r.0)
merged-Agrees (s ∷ ss) h = elim (Option-cases (merge_schedules (s ∷ ss)).error) [
  | inl x ↦ inl (merge_schedules-error_none s ss x).1
  | inr (x, y) ↦ inr (λ z. let q : none ≡ some x = sym z ∙ y in cc, h)
]

refusal-check_resolved :
    (o : Option (List Schedule))
    → refusal (check_resolved o) ≡ none
    → (ss : List Schedule) × (o ≡ some ss)
      × (Agrees ss ⊎ (((merge_schedules ss).error ≢ none) × ((merge_schedules ss).conflicts ≡ [])))
refusal-check_resolved none h = absurd (cc)
refusal-check_resolved (some ss) h =
    (ss, refl, merged-Agrees ss (empty (merge_schedules ss).conflicts h))
  where
    empty : (cs : List Conflict) → refusal_of cs ≡ none → cs ≡ []
    empty [] e = refl
    empty (c ∷ cs) e = absurd (cc)

refusal-IsAttachable :
    (e : Engine.Engine) (p : Policy) → refusal (validate_and_merge e p) ≡ none → IsAttachable e p
unfolding IsAttachable validate_and_merge
refusal-IsAttachable e p h scheduled =
    ids (get_schedule_ids p) (rw (validate_and_merge, scheduled) at h)
  where
    ids : (is : List String) → refusal (check_ids e is) ≡ none → (is ≡ []) ⊎ AreMergeable e is
    ids [] k = inl refl
    ids (i ∷ is) k = inr (refusal-check_resolved (resolve e.schedules (i ∷ is)) k)

-- The two handlers that write one policy either store it under its identifier or leave the state as
-- it was and answer with an error. A policy that is stored is not about the infrastructure tag. If
-- it names schedules to follow, they all exist, and any two different rules of them that are open at
-- one minute have the same action, unless their merge ended with an error and no conflict, which
-- the handlers do not look at.
pub admit_policy-IsAttachable :
    (saved : Bool) (reply : Status) (p : Policy) (s : State)
    → ((is_immutable_target p ≡ false)
        × IsAttachable s.schedules p
        × (get_policy (admit_policy saved reply p s).1.policies p.id ≡ some p)
        × ((admit_policy saved reply p s).0 ≡ (if saved then reply else server_error)))
      ⊎ (((admit_policy saved reply p s).1 ≡ s)
          × (((admit_policy saved reply p s).0 ≡ bad_request)
              ⊎ ((admit_policy saved reply p s).0 ≡ conflict)))
unfolding admit_policy try_trigger get_policy upsert_policy
admit_policy-IsAttachable saved reply p s = elim (Bool-cases (is_immutable_target p)) [
  | inl x ↦ inr (rw (admit_policy, x) (refl, inl refl))
  | inr x ↦ elim (Option-cases (refusal (validate_and_merge s.schedules p))) [
    | inl y ↦ inl (
      x,
      refusal-IsAttachable s.schedules p y,
      rw (admit_policy, x, y) (written saved).0,
      rw (admit_policy, x, y) (written saved).1,
    )
    | inr (r, y) ↦ inr (
      rw (admit_policy, x, y) refl,
      rw (admit_policy, x, y) (errors (validate_and_merge s.schedules p) r y),
    )
  ]
]
  where
    written :
        (b : Bool)
        → (lookup p.id (save_policy b reply p s).1.policies.policies ≡ some p)
          × ((save_policy b reply p s).0 ≡ (if b then reply else server_error))
    written true = (lookup-insert_self p.id p s.policies.policies, refl)
    written false = (lookup-insert_self p.id p s.policies.policies, refl)

    errors : (c : Checked) (r : Status) → refusal c ≡ some r → (r ≡ bad_request) ⊎ (r ≡ conflict)
    errors nothing r e = absurd (cc)
    errors missing r e = inl (let q : some bad_request ≡ some r = e in cc)
    errors (merged m) r e = of (m.conflicts) e
      where
        of : (cs : List Conflict) → refusal_of cs ≡ some r → (r ≡ bad_request) ⊎ (r ≡ conflict)
        of [] k = absurd (cc)
        of (c ∷ cs) k = inr cc
