-- ===== src/ScheduleConflict/Bounds.antt =====
-- The range of the segments that `ProjectSchedule` makes.
use lias_dis.Prelude.{
  ℕ, suc, ◌≤◌, ◌<◌, String, ◌≡◌, subst, inl, inr, List, [], ◌∷◌, arith, ltb, ltb→lt, Bool-cases,
  Option-cases, In, In-append_cases,
}
use lias_dis.Models.{Schedule, ScheduleRule}
use lias_dis.Clock.{minute_of_day, minute_of_day_bound}
use lias_dis.ScheduleConflict.{
  Segment, segment, ok, weekday_of, project_day, project_days, project_rules, project_schedule,
}
use lias_dis.ScheduleConflict.Windows.{weekday_of_below}
use lias_dis.ScheduleConflict.Rules.{Projected, project_rule-Projected, project_rules-split}

abbrev pub InWeek : Segment → Type 0
InWeek seg = (seg.start ≤ seg.end) × (seg.end ≤ 10080)

module _ (s : Schedule) (r : ScheduleRule) (idx sm em : ℕ) (hs : sm < 1440) (he : em < 1440) where
  project_day-InWeek :
      (w : ℕ) (seg : Segment) → w < 7 → In seg (project_day s r idx sm em w) → InWeek seg
  unfolding project_day
  project_day-InWeek w seg hw h = elim (Bool-cases (ltb sm em)) [
    | inl e ↦ elim (let g : In seg (segment s r idx _ _ ∷ []) = rw (e, project_day) at h in g) [
      | inl p ↦ subst InWeek p (omega (arith, ltb→lt sm em e), omega arith)
      | inr n ↦ absurd n
    ]
    | inr e ↦
        elim (let g : In seg (segment s r idx _ _ ∷ segment s r idx _ _ ∷ []) =
            rw (e, project_day) at h in
          g) [
            | inl p ↦ subst InWeek p (omega arith, omega arith)
            | inr (inl p) ↦ subst InWeek p (omega arith, omega arith)
            | inr (inr n) ↦ absurd n
          ]
  ]

  project_days-InWeek :
      (days : List String) (seg : Segment) → In seg (project_days s r idx sm em days) → InWeek seg
  unfolding project_days
  project_days-InWeek [] seg h = absurd h
  project_days-InWeek (day ∷ days) seg h = elim (Option-cases (weekday_of day)) [
    | inl x ↦ project_days-InWeek days seg (rw (x, project_days) at h)
    | inr (w, x) ↦
        elim (In-append_cases seg (project_day s r idx sm em w) _ (rw (x, project_days) at h)) [
          | inl l ↦ project_day-InWeek w seg (weekday_of_below day x) l
          | inr q ↦ project_days-InWeek days seg q
        ]
  ]

Projected-InWeek :
    (s : Schedule) (idx : ℕ) (r : ScheduleRule) (segs : List Segment) (seg : Segment)
    → Projected s idx r segs
    → In seg segs
    → InWeek seg
Projected-InWeek s idx r segs seg (st, en, x, y, inl (z, e)) i = absurd (subst (In seg) e i)
Projected-InWeek s idx r segs seg (st, en, x, y, inr (z, e)) i =
    project_days-InWeek s r idx (minute_of_day st) (minute_of_day en) (minute_of_day_bound _ x)
      (minute_of_day_bound _ y) r.days seg (subst (In seg) e i)

project_rules-InWeek :
    (s : Schedule) (i : ℕ) (rs : List ScheduleRule) (seg : Segment) {segs : List Segment}
    → project_rules s i rs ≡ ok segs
    → In seg segs
    → InWeek seg
unfolding project_rules
project_rules-InWeek s i [] seg h k =
    absurd (subst (In seg) (let e : _ ≡ [] = ground (arith, h) in e) k)
project_rules-InWeek s i (r ∷ rs) seg h k =
    let (xs, ys, a, b, e) = project_rules-split s i r rs h in
    elim (In-append_cases seg xs ys (subst (In seg) e k)) [
      | inl l ↦ Projected-InWeek s i r xs seg (project_rule-Projected s i r a) l
      | inr l ↦ project_rules-InWeek s (suc i) rs seg b l
    ]

-- The segments of a projected schedule do not end before they start, and end within the week.
pub project_schedule-InWeek :
    (s : Schedule) (segs : List Segment) (seg : Segment)
    → project_schedule s ≡ ok segs
    → In seg segs
    → InWeek seg
unfolding project_schedule
project_schedule-InWeek s segs seg h k = project_rules-InWeek s 0 s.rules seg h k
