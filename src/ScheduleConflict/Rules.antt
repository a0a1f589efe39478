-- ===== src/ScheduleConflict/Rules.antt =====
-- `ProjectSchedule` as a whole: which segments stand for which rule, and when a rule is open.
use lias_dis.Prelude.{
  ℕ, suc, ◌≤◌, ◌<◌, String, ◌≡◌, ◌≢◌, refl, sym, ap, subst, ◌∙◌, ◌⊎◌, inl, inr, some, List, [], ◌∷◌,
  ◌++◌, arith, ltb, ◌==◌, Bool-cases, Option-cases, In, In-append_left, In-append_right,
  In-append_cases,
}
use lias_dis.Models.{Schedule, ScheduleRule}
use lias_dis.Clock.{Time, parse_clock, minute_of_day, minute_of_day_bound}
use lias_dis.ScheduleConflict.{
  Segment, segment, Result, ok, err, ◌>>=◌, weekday_of, project_day, project_days, project_rule,
  project_rules, project_schedule,
}
use lias_dis.ScheduleConflict.Windows.{Covers, OnDays, project_days_window}

-- A rule is open at a minute of the week: its times are times of day and differ, and the minute is
-- in the window of one of its days.
abbrev pub RuleOpen : ScheduleRule → ℕ → Type 0
RuleOpen r m =
    (st : Time) × (en : Time) × (parse_clock r.start_time ≡ some st)
    × (parse_clock r.end_time ≡ some en)
    × (minute_of_day st ≢ minute_of_day en)
    × OnDays (minute_of_day st) (minute_of_day en) r.days m

-- A segment holds the minute and stands for rule `j` of the schedule.
pub record StandsFor (seg : Segment) (s : Schedule) (r : ScheduleRule) (j : ℕ) : Type 0 where
  pub same_schedule : seg.schedule_id ≡ s.id
  pub same_rule : seg.source_rule_idx ≡ j
  pub same_action : seg.action ≡ r.action

abbrev pub HasMinute : Segment → ℕ → Type 0
HasMinute seg m = (seg.start ≤ m) × (m < seg.end)

-- Rule `r` is at place `j` of a list whose first place is `i`.
abbrev pub RuleAt : List ScheduleRule → ℕ → ScheduleRule → ℕ → Type 0
RuleAt [] i r j = ⊥
RuleAt (q ∷ rs) i r j = ((q ≡ r) × (i ≡ j)) ⊎ RuleAt rs (suc i) r j

In-of_Covers :
    (segs : List Segment) (m : ℕ) → Covers segs m → (seg : Segment) × In seg segs × HasMinute seg m
In-of_Covers [] m h = absurd h
In-of_Covers (x ∷ xs) m (inl h) = (x, inl refl, h)
In-of_Covers (x ∷ xs) m (inr h) = let (y, i, k) = In-of_Covers xs m h in (y, inr i, k)

Covers-of_In :
    (segs : List Segment) (seg : Segment) (m : ℕ) → In seg segs → HasMinute seg m → Covers segs m
Covers-of_In [] seg m i h = absurd i
Covers-of_In (x ∷ xs) seg m (inl e) h = inl (subst (λ (y : Segment). HasMinute y m) (sym e) h)
Covers-of_In (x ∷ xs) seg m (inr i) h = inr (Covers-of_In xs seg m i h)

module _ (s : Schedule) (r : ScheduleRule) (idx sm em : ℕ) where
  made_here : (from to : ℕ) (seg : Segment) → segment s r idx from to ≡ seg → StandsFor seg s r idx
  made_here from to seg e = record {
    same_schedule = sym (ap (λ (x : Segment). x.schedule_id) e);
    same_rule = sym (ap (λ (x : Segment). x.source_rule_idx) e);
    same_action = sym (ap (λ (x : Segment). x.action) e);
  }

  project_day-StandsFor :
      (w : ℕ) (seg : Segment) → In seg (project_day s r idx sm em w) → StandsFor seg s r idx
  unfolding project_day
  project_day-StandsFor w seg h = elim (Bool-cases (ltb sm em)) [
    | inl e ↦ elim (let g : In seg (segment s r idx _ _ ∷ []) = rw (e, project_day) at h in g) [
      | inl p ↦ made_here _ _ seg p
      | inr n ↦ absurd n
    ]
    | inr e ↦
        elim (let g : In seg (segment s r idx _ _ ∷ segment s r idx _ _ ∷ []) =
            rw (e, project_day) at h in
          g) [
            | inl p ↦ made_here _ _ seg p
            | inr (inl p) ↦ made_here _ _ seg p
            | inr (inr n) ↦ absurd n
          ]
  ]

  project_days-StandsFor :
      (days : List String) (seg : Segment)
      → In seg (project_days s r idx sm em days)
      → StandsFor seg s r idx
  unfolding project_days
  project_days-StandsFor [] seg h = absurd h
  project_days-StandsFor (day ∷ days) seg h = elim (Option-cases (weekday_of day)) [
    | inl x ↦ project_days-StandsFor days seg (rw (x, project_days) at h)
    | inr (w, x) ↦
        elim (In-append_cases seg (project_day s r idx sm em w) _ (rw (x, project_days) at h)) [
          | inl l ↦ project_day-StandsFor w seg l
          | inr q ↦ project_days-StandsFor days seg q
        ]
  ]

-- A rule that is projected: its times are read, and its segments come from its days.
abbrev pub Projected : Schedule → ℕ → ScheduleRule → List Segment → Type 0
Projected s idx r segs =
    (st : Time) × (en : Time) × (parse_clock r.start_time ≡ some st)
    × (parse_clock r.end_time ≡ some en)
    × (((minute_of_day st ≡ minute_of_day en) × (segs ≡ []))
        ⊎ ((minute_of_day st ≢ minute_of_day en)
            × (segs ≡ project_days s r idx (minute_of_day st) (minute_of_day en) r.days)))

pub project_rule-Projected :
    (s : Schedule) (idx : ℕ) (r : ScheduleRule) {segs : List Segment}
    → project_rule s idx r ≡ ok segs
    → Projected s idx r segs
unfolding project_rule
project_rule-Projected s idx r h = elim (Option-cases (parse_clock r.start_time)) [
  | inl x ↦ absurd (ground (arith, x))
  | inr (st, x) ↦ elim (Option-cases (parse_clock r.end_time)) [
    | inl y ↦ absurd (ground (arith, x, y))
    | inr (en, y) ↦ elim (Bool-cases (minute_of_day st == minute_of_day en)) [
      | inl z ↦ (st, en, x, y, inl (ground (arith, z), ground (arith, x, y, z)))
      | inr z ↦ (st, en, x, y, inr (ground (arith, z), ground (arith, x, y, z)))
    ]
  ]
]

module _ (s : Schedule) (idx : ℕ) (r : ScheduleRule) (segs : List Segment) where
  Covers-of-RuleOpen : (m : ℕ) → m < 10080 → Projected s idx r segs → RuleOpen r m → Covers segs m
  Covers-of-RuleOpen m hm (st, en, x, y, how) (st', en', x', y', ne, on) =
      let es : st ≡ st' = ground (arith, x, x') in
      let ee : en ≡ en' = ground (arith, y, y') in
      elim how [
        | inl (z, _) ↦ absurd (ne (ap minute_of_day (sym es) ∙ z ∙ ap minute_of_day ee))
        | inr (z, e) ↦ rw e (
            (project_days_window s r idx _ _ r.days m hm (minute_of_day_bound _ x)
                (minute_of_day_bound _ y) z).1
              (subst (λ a. OnDays (minute_of_day a) (minute_of_day en) r.days m) (sym es)
                (subst (λ b. OnDays (minute_of_day st') (minute_of_day b) r.days m) (sym ee) on)))
      ]

  RuleOpen-of-Covers : (m : ℕ) → m < 10080 → Projected s idx r segs → Covers segs m → RuleOpen r m
  RuleOpen-of-Covers m hm (st, en, x, y, inl (z, e)) c = absurd (subst (λ l. Covers l m) e c)
  RuleOpen-of-Covers m hm (st, en, x, y, inr (z, e)) c = (
    st,
    en,
    x,
    y,
    z,
    (project_days_window s r idx _ _ r.days m hm (minute_of_day_bound _ x) (minute_of_day_bound _ y)
          z).0
        (subst (λ l. Covers l m) e c),
  )

  StandsFor-of-Projected :
      (seg : Segment) → Projected s idx r segs → In seg segs → StandsFor seg s r idx
  StandsFor-of-Projected seg (st, en, x, y, inl (z, e)) i = absurd (subst (In seg) e i)
  StandsFor-of-Projected seg (st, en, x, y, inr (z, e)) i =
      project_days-StandsFor s r idx _ _ r.days seg (subst (In seg) e i)

pub >>=-eq-ok {ℓ κ} :
    {X : Type ℓ} {Y : Type κ} (result : Result X) (next : X → Result Y) {y : Y}
    → (result >>= next) ≡ ok y
    → (x : X) × (result ≡ ok x) × (next x ≡ ok y)
>>=-eq-ok (ok x) next e = (x, refl, e)
>>=-eq-ok (err error) next e = absurd (ground (arith, e))

-- A list of rules that is projected splits into its first rule and the others.
pub project_rules-split :
    (s : Schedule) (i : ℕ) (r : ScheduleRule) (rs : List ScheduleRule) {segs : List Segment}
    → project_rules s i (r ∷ rs) ≡ ok segs
    → (xs : List Segment) × (ys : List Segment) × (project_rule s i r ≡ ok xs)
      × (project_rules s (suc i) rs ≡ ok ys)
      × (segs ≡ xs ++ ys)
unfolding project_rules
project_rules-split s i r rs h =
    let (xs, a, h') = >>=-eq-ok (project_rule s i r) _ h in
    let (ys, b, h'') = >>=-eq-ok (project_rules s (suc i) rs) _ h' in
    (xs, ys, a, b, ground (arith, h''))

project_rules-forward :
    (s : Schedule) (rs : List ScheduleRule) (i : ℕ) (r : ScheduleRule) (j m : ℕ)
    {segs : List Segment}
    → m < 10080
    → project_rules s i rs ≡ ok segs
    → RuleAt rs i r j
    → RuleOpen r m
    → (seg : Segment) × In seg segs × HasMinute seg m × StandsFor seg s r j
project_rules-forward s [] i r j m hm h here o = absurd here
project_rules-forward s (q ∷ rs) i r j m hm h here o =
    let (xs, ys, a, b, e) = project_rules-split s i q rs h in
    elim here [
      | inl (same, place) ↦
          let p = project_rule-Projected s i q a in
          let (seg, k, c) =
            In-of_Covers xs m
              (Covers-of-RuleOpen s i q xs m hm p (subst (λ x. RuleOpen x m) (sym same) o)) in
          (
            seg,
            subst (In seg) (sym e) (In-append_left seg xs ys k),
            c,
            subst (λ x. StandsFor seg s x j) same
                (subst (StandsFor seg s q) place (StandsFor-of-Projected s i q xs seg p k)),
          )
      | inr later ↦
          let (seg, k, c, f) = project_rules-forward s rs (suc i) r j m hm b later o in
          (seg, subst (In seg) (sym e) (In-append_right seg xs ys k), c, f)
    ]

project_rules-backward :
    (s : Schedule) (rs : List ScheduleRule) (i : ℕ) (seg : Segment) (m : ℕ) {segs : List Segment}
    → m < 10080
    → project_rules s i rs ≡ ok segs
    → In seg segs
    → HasMinute seg m
    → (r : ScheduleRule) × (j : ℕ) × RuleAt rs i r j × RuleOpen r m × StandsFor seg s r j
unfolding project_rules
project_rules-backward s [] i seg m hm h k c =
    absurd (subst (In seg) (let e : _ ≡ [] = ground (arith, h) in e) k)
project_rules-backward s (q ∷ rs) i seg m hm h k c =
    let (xs, ys, a, b, e) = project_rules-split s i q rs h in
    elim (In-append_cases seg xs ys (subst (In seg) e k)) [
      | inl l ↦
          let p = project_rule-Projected s i q a in
          (
            q,
            i,
            inl (refl, refl),
            RuleOpen-of-Covers s i q xs m hm p (Covers-of_In xs seg m l c),
            StandsFor-of-Projected s i q xs seg p l,
          )
      | inr l ↦
          let (r, j, at, o, f) = project_rules-backward s rs (suc i) seg m hm b l c in
          (r, j, inr at, o, f)
    ]

-- A projected schedule has, for every minute of the week, a segment for each rule that is open
-- then, and only segments that stand for such a rule.
pub project_schedule-RuleOpen :
    (s : Schedule) (segs : List Segment) (m : ℕ)
    → project_schedule s ≡ ok segs
    → m < 10080
    → ((r : ScheduleRule) (j : ℕ)
        → RuleAt s.rules 0 r j
        → RuleOpen r m
        → (seg : Segment) × In seg segs × HasMinute seg m × StandsFor seg s r j)
      × ((seg : Segment)
          → In seg segs
          → HasMinute seg m
          → (r : ScheduleRule) × (j : ℕ) × RuleAt s.rules 0 r j
            × RuleOpen r m
            × StandsFor seg s r j)
unfolding project_schedule
project_schedule-RuleOpen s segs m h hm = (
  λ r j here o. project_rules-forward s s.rules 0 r j m hm h here o,
  λ seg k c. project_rules-backward s s.rules 0 seg m hm h k c,
)
