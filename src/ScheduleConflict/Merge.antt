-- ===== src/ScheduleConflict/Merge.antt =====
-- What `MergeSchedules` accepts and reports, in terms of the rules of its schedules.
use lias_dis.Prelude.{
  ℕ, ◌<◌, String, ◌≡◌, ◌≢◌, refl, sym, ap, subst, ◌∙◌, ◌⊎◌, inl, inr, none, some, List, [], ◌∷◌,
  ◌++◌, arith, str_eq, eq_iff, Bool-cases, Option-cases, In, In-append_left, In-append_right,
  In-append_cases,
}
use lias_dis.Models.{Schedule, ScheduleRule}
use lias_dis.ScheduleConflict.{
  Segment, Conflict, Result, ok, err, project_schedule, project_all, sort_segments, find_conflicts,
  action_eq, other_timezone, composite_of, conclude, merge_segments, merge_schedules,
}
use lias_dis.ScheduleConflict.Rules.{
  RuleOpen, RuleAt, HasMinute, StandsFor, >>=-eq-ok, project_schedule-RuleOpen,
}
use lias_dis.ScheduleConflict.Pairs.{
  Contradict, action_eq_iff, In-sort_segments, sort_segments-IsSorted,
}
use lias_dis.ScheduleConflict.Loop.{HasConflict, find_conflicts-finds}

abbrev pub found_in : List Segment → List Conflict
found_in segs =
    (find_conflicts (sort_segments segs) (record { seen = []; conflicts = [] })).conflicts

-- The segments of one schedule are among those of all.
project_all-forward :
    (ss : List Schedule) (t : Schedule) {segs : List Segment}
    → project_all ss ≡ ok segs
    → In t ss
    → (xs : List Segment) × (project_schedule t ≡ ok xs)
      × ((seg : Segment) → In seg xs → In seg segs)
unfolding project_all
project_all-forward [] t h i = absurd i
project_all-forward (s ∷ ss) t h i =
    let (xs, a, h') = >>=-eq-ok (project_schedule s) _ h in
    let (ys, b, h'') = >>=-eq-ok (project_all ss) _ h' in
    let e : xs ++ ys ≡ _ = ground (arith, h'') in
    elim i [
      | inl p ↦ (
        xs,
        subst (λ x. project_schedule x ≡ ok xs) p a,
        λ seg k. subst (In seg) e (In-append_left seg xs ys k),
      )
      | inr j ↦
          let (zs, c, into) = project_all-forward ss t b j in
          (zs, c, λ seg k. subst (In seg) e (In-append_right seg xs ys (into seg k)))
    ]

pub project_all-backward :
    (ss : List Schedule) (seg : Segment) {segs : List Segment}
    → project_all ss ≡ ok segs
    → In seg segs
    → (t : Schedule) × (xs : List Segment) × In t ss × (project_schedule t ≡ ok xs) × In seg xs
unfolding project_all
project_all-backward [] seg h k =
    absurd (subst (In seg) (let e : _ ≡ [] = ground (arith, h) in e) k)
project_all-backward (s ∷ ss) seg h k =
    let (xs, a, h') = >>=-eq-ok (project_schedule s) _ h in
    let (ys, b, h'') = >>=-eq-ok (project_all ss) _ h' in
    let e : _ ≡ xs ++ ys = ground (arith, h'') in
    elim (In-append_cases seg xs ys (subst (In seg) e k)) [
      | inl l ↦ (s, xs, inl refl, a, l)
      | inr l ↦ let (t, zs, i, c, m) = project_all-backward ss seg b l in (t, zs, inr i, c, m)
    ]

same_timezone :
    (tz : String) (ss : List Schedule) (t : Schedule)
    → other_timezone tz ss ≡ none
    → In t ss
    → t.timezone ≡ tz
unfolding other_timezone
same_timezone tz [] t h i = absurd i
same_timezone tz (s ∷ ss) t h i = elim (Bool-cases (str_eq s.timezone tz)) [
  | inr e ↦ absurd (ground (arith, e))
  | inl e ↦ elim i [
    | inl p ↦ ap (λ (x : Schedule). x.timezone) (sym p) ∙ (eq_iff s.timezone tz).0 e
    | inr j ↦ same_timezone tz ss t (rw (e, other_timezone) at h) j
  ]
]

-- A rule of a schedule of the bundle, at its place.
abbrev pub RuleOf : List Schedule → Schedule → ScheduleRule → ℕ → Type 0
RuleOf ss t r i = In t ss × RuleAt t.rules 0 r i

-- What makes a merge succeed: one timezone, times that are read, and no conflict.
record Accepted (s : Schedule) (ss : List Schedule) : Type 0 where
  one_timezone : other_timezone s.timezone (s ∷ ss) ≡ none
  segments : List Segment
  projected : project_all (s ∷ ss) ≡ ok segments
  no_conflict : found_in segments ≡ []

conclude-none : (c : Schedule) (xs : List Conflict) → (conclude c xs).error ≡ none → xs ≡ []
conclude-none c [] h = refl
conclude-none c (x ∷ xs) h = absurd (ground (arith, h))

merge_segments-none :
    (c : Schedule) (r : Result (List Segment))
    → (merge_segments c r).error ≡ none
    → (segs : List Segment) × (r ≡ ok segs) × (found_in segs ≡ [])
merge_segments-none c (err e) h = absurd (ground (arith, h))
merge_segments-none c (ok segs) h = (segs, refl, conclude-none c (found_in segs) h)

merge-Accepted :
    (s : Schedule) (ss : List Schedule) → (merge_schedules (s ∷ ss)).error ≡ none → Accepted s ss
unfolding merge_schedules
merge-Accepted s ss h = elim (Option-cases (other_timezone s.timezone (s ∷ ss))) [
  | inr (t, e) ↦ absurd (let n : some _ ≡ none = rw (e, merge_schedules) at h in ground (arith, n))
  | inl e ↦
      let (segs, p, n) =
        merge_segments-none (composite_of s.timezone (s ∷ ss)) (project_all (s ∷ ss))
          (rw (e, merge_schedules) at h) in
      record { one_timezone = e; segments = segs; projected = p; no_conflict = n }
]

no_contradiction :
    (segs : List Segment) (a b : Segment)
    → found_in segs ≡ []
    → In a segs
    → In b segs
    → ¬ Contradict a b
no_contradiction segs a b h i j c = subst HasConflict h (
    find_conflicts-finds (sort_segments segs) a b (record { seen = []; conflicts = [] })
      (sort_segments-IsSorted segs) ((In-sort_segments a segs).1 i) ((In-sort_segments b segs).1 j)
      c (inr refl))

-- Two rules that are open at one minute, with what makes them different rules.
abbrev pub Different : Schedule → ℕ → Schedule → ℕ → Type 0
Different t i u j = (t.id ≢ u.id) ⊎ (i ≢ j)

module _ (ss : List Schedule) (segs : List Segment) (p : project_all ss ≡ ok segs) where
  open_segment :
      (t : Schedule) (r : ScheduleRule) (i m : ℕ)
      → m < 10080
      → RuleOf ss t r i
      → RuleOpen r m
      → (seg : Segment) × In seg segs × HasMinute seg m × StandsFor seg t r i
  open_segment t r i m hm (here, at_i) o =
      let (xs, a, into) = project_all-forward ss t p here in
      let (seg, k, c, f) = (project_schedule-RuleOpen t xs m a hm).0 r i at_i o in
      (seg, into seg k, c, f)

  Contradict-of-open :
      (a b : Segment) (t u : Schedule) (r q : ScheduleRule) (i j m : ℕ)
      → HasMinute a m
      → HasMinute b m
      → StandsFor a t r i
      → StandsFor b u q j
      → Different t i u j
      → r.action ≢ q.action
      → Contradict a b
  Contradict-of-open a b t u r q i j m ca cb fa fb d n = record {
    starts_before = omega arith;
    ends_after = omega arith;
    both_real = (omega arith, omega arith);
    actions_differ = λ e. n (sym fa.same_action ∙ e ∙ fb.same_action);
    sources_differ = elim d [
      | inl x ↦ inl (λ e. x (sym fa.same_schedule ∙ e ∙ fb.same_schedule))
      | inr x ↦ inr (λ e. x (sym fa.same_rule ∙ e ∙ fb.same_rule))
    ];
  }

-- If a bundle is merged with no error, all its schedules have one timezone, and at every minute of
-- the week any two different rules of the bundle that are open have the same action.
pub merge_schedules-error_none :
    (s : Schedule) (ss : List Schedule)
    → (merge_schedules (s ∷ ss)).error ≡ none
    → ((t : Schedule) → In t (s ∷ ss) → t.timezone ≡ s.timezone)
      × ((t u : Schedule) (r q : ScheduleRule) (i j m : ℕ)
          → m < 10080
          → RuleOf (s ∷ ss) t r i
          → RuleOf (s ∷ ss) u q j
          → RuleOpen r m
          → RuleOpen q m
          → Different t i u j
          → r.action ≡ q.action)
merge_schedules-error_none s ss h = (
  λ t i. same_timezone s.timezone (s ∷ ss) t (merge-Accepted s ss h).one_timezone i,
  λ t u r q i j m hm at_r at_q open_r open_q d.
      let acc = merge-Accepted s ss h in
      elim (Bool-cases (action_eq r.action q.action)) [
        | inl e ↦ (action_eq_iff r.action q.action).0 e
        | inr e ↦
            let (a, ka, ca, fa) =
              open_segment (s ∷ ss) acc.segments acc.projected t r i m hm at_r open_r in
            let (b, kb, cb, fb) =
              open_segment (s ∷ ss) acc.segments acc.projected u q j m hm at_q open_q in
            absurd (
              no_contradiction acc.segments a b acc.no_conflict ka kb (
                Contradict-of-open (s ∷ ss) acc.segments acc.projected a b t u r q i j m ca cb fa fb
                  d (λ x. cc (e, (action_eq_iff r.action q.action).1 x))))
      ],
)
