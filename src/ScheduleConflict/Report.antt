-- ===== src/ScheduleConflict/Report.antt =====
-- The conflicts that `MergeSchedules` reports, in terms of the rules of its schedules.
use lias_dis.Prelude.{
  ℕ, ◌<◌, ◌≡◌, ◌≢◌, refl, sym, ap, subst, ◌∙◌, inl, inr, List, [], ◌∷◌, arith, Option-cases, In,
}
use lias_dis.Models.{Schedule, ScheduleRule}
use lias_dis.ScheduleConflict.{
  Segment, Conflict, Result, ok, err, project_all, sort_segments, other_timezone, composite_of,
  conclude, merge_segments, merge_schedules, max_int,
}
use lias_dis.ScheduleConflict.Rules.{RuleOpen, HasMinute, StandsFor, project_schedule-RuleOpen}
use lias_dis.ScheduleConflict.Bounds.{project_schedule-InWeek}
use lias_dis.ScheduleConflict.Pairs.{Contradict, In-sort_segments}
use lias_dis.ScheduleConflict.Loop.{find_conflicts-AllFrom}
use lias_dis.ScheduleConflict.Merge.{found_in, project_all-backward, RuleOf, Different}

module _ (ss : List Schedule) (segs : List Segment) (p : project_all ss ≡ ok segs) where
  RuleOf-segment :
      (seg : Segment) (m : ℕ)
      → In seg segs
      → HasMinute seg m
      → (m < 10080)
        × (t : Schedule) × (r : ScheduleRule) × (i : ℕ) × RuleOf ss t r i
        × RuleOpen r m
        × StandsFor seg t r i
  RuleOf-segment seg m k c =
      let (t, xs, here, a, k') = project_all-backward ss seg p k in
      let hm : m < 10080 = omega (arith, project_schedule-InWeek t xs seg a k') in
      let (r, i, at_i, o, f) = (project_schedule-RuleOpen t xs m a hm).1 seg k' c in
      (hm, t, r, i, (here, at_i), o, f)

conclude-conflicts : (c : Schedule) (xs : List Conflict) → (conclude c xs).conflicts ≡ xs
conclude-conflicts c [] = refl
conclude-conflicts c (x ∷ xs) = refl

merge_segments-conflicts :
    (c : Schedule) (r : Result (List Segment)) (x : Conflict)
    → In x (merge_segments c r).conflicts
    → (segs : List Segment) × (r ≡ ok segs) × In x (found_in segs)
merge_segments-conflicts c (err e) x h = absurd h
merge_segments-conflicts c (ok segs) x h =
    (segs, refl, subst (In x) (conclude-conflicts c (found_in segs)) h)

-- A minute of the week at which two rules of a bundle with different actions are open, as a
-- conflict reports it.
abbrev pub Reported : List Schedule → Conflict → Type 0
Reported ss c =
    (t : Schedule) × (u : Schedule) × (r : ScheduleRule) × (q : ScheduleRule) × (i : ℕ) × (j : ℕ)
    × (m : ℕ) × RuleOf ss t r i
    × RuleOf ss u q j
    × RuleOpen r m
    × RuleOpen q m
    × Different t i u j
    × (r.action ≢ q.action)
    × (c.schedule_a_id ≡ t.id)
    × (c.schedule_b_id ≡ u.id)
    × (c.action_a ≡ r.action)
    × (c.action_b ≡ q.action)

shared_minute :
    (a b : Segment)
    → Contradict a b
    → HasMinute a (max_int a.start b.start) × HasMinute b (max_int a.start b.start)
shared_minute a b c = ground arith

report :
    (ss : List Schedule) (segs : List Segment) (c : Conflict)
    → project_all ss ≡ ok segs
    → In c (found_in segs)
    → Reported ss c
report ss segs c p h =
    let (a, b, ia, ib, con, e) =
      find_conflicts-AllFrom (λ x. In x (sort_segments segs)) (sort_segments segs)
        (record { seen = []; conflicts = [] }) (λ x i. i) (λ x n. absurd n) c h in
    let m : ℕ = max_int a.start b.start in
    let (ca, cb) = shared_minute a b con in
    let (hm, t, r, i, at_r, o, fa) =
      RuleOf-segment ss segs p a m ((In-sort_segments a segs).0 ia) ca in
    let (hm', u, q, j, at_q, o', fb) =
      RuleOf-segment ss segs p b m ((In-sort_segments b segs).0 ib) cb in
    (
      t,
      u,
      r,
      q,
      i,
      j,
      m,
      at_r,
      at_q,
      o,
      o',
      elim con.sources_differ [
        | inl x ↦ inl (λ y. x (fa.same_schedule ∙ y ∙ sym fb.same_schedule))
        | inr x ↦ inr (λ y. x (fa.same_rule ∙ y ∙ sym fb.same_rule))
      ],
      λ y. con.actions_differ (fa.same_action ∙ y ∙ sym fb.same_action),
      ap (λ (x : Conflict). x.schedule_a_id) e ∙ fa.same_schedule,
      ap (λ (x : Conflict). x.schedule_b_id) e ∙ fb.same_schedule,
      ap (λ (x : Conflict). x.action_a) e ∙ fa.same_action,
      ap (λ (x : Conflict). x.action_b) e ∙ fb.same_action,
    )

-- Every conflict that a merge reports names two rules of the bundle with different actions that are
-- open at one minute of the week.
pub merge_schedules-Reported :
    (s : Schedule) (ss : List Schedule) (c : Conflict)
    → In c (merge_schedules (s ∷ ss)).conflicts
    → Reported (s ∷ ss) c
unfolding merge_schedules
merge_schedules-Reported s ss c h = elim (Option-cases (other_timezone s.timezone (s ∷ ss))) [
  | inr (t, e) ↦ absurd (rw (e, merge_schedules) at h)
  | inl e ↦
      let (segs, p, k) =
        merge_segments-conflicts (composite_of s.timezone (s ∷ ss)) (project_all (s ∷ ss)) c
          (rw (e, merge_schedules) at h) in
      report (s ∷ ss) segs c p k
]
