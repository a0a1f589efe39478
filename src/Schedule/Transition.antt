-- ===== src/Schedule/Transition.antt =====
-- What `NextStateChange` returns, against the starts and ends of the rules.
use lias_dis.Prelude.{
  ℕ, zero, suc, ◌+◌, ◌≤◌, ◌<◌, ◌≡◌, ◌≢◌, refl, sym, subst, ◌⊎◌, inl, inr, false, Option, none, some,
  List, [], ◌∷◌, ◌++◌, arith, ltb, ltb→lt, lt→ltb, Bool-cases, In, In-append_cases, In-append_left,
  In-append_right,
}
use lias_dis.Models.{Schedule, ScheduleRule}
use lias_dis.Clock.{Time, parse_clock}
use lias_dis.Zone.{Zone, ns_day, at_time}
use lias_dis.Schedule.{
  Locations, zone_or_utc, has_dates, outside_dates, boundary, rule_boundaries, day_boundaries,
  boundaries, insert_instant, sort_instants, first_or, next_state_change,
}

first_or-insert_new : (d t : ℕ) (us : List ℕ) → first_or d (insert_instant t us) ≤ t
unfolding insert_instant
first_or-insert_new d t [] = omega arith
first_or-insert_new d t (u ∷ us) = elim (Bool-cases (ltb u t)) [
  | inl e ↦ rw e (omega (arith, ltb→lt u t e))
  | inr e ↦ rw e (omega arith)
]

first_or-insert_old :
    (d t : ℕ) (us : List ℕ) → us ≢ [] → first_or d (insert_instant t us) ≤ first_or d us
unfolding insert_instant
first_or-insert_old d t [] n = absurd (n refl)
first_or-insert_old d t (u ∷ us) n = ground arith

insert_instant-ne-nil : (t : ℕ) (us : List ℕ) → insert_instant t us ≢ []
unfolding insert_instant
insert_instant-ne-nil t [] = λ e. cc
insert_instant-ne-nil t (u ∷ us) = elim (Bool-cases (ltb u t)) [
  | inl e ↦ rw e (λ x. cc)
  | inr e ↦ rw e (λ x. cc)
]

sort_instants-ne-nil : (u : ℕ) (ts : List ℕ) → In u ts → sort_instants ts ≢ []
unfolding sort_instants
sort_instants-ne-nil u [] i = absurd i
sort_instants-ne-nil u (t ∷ ts) i = insert_instant-ne-nil t (sort_instants ts)

-- The first of the sorted instants is the least.
first_or-sort-le : (d u : ℕ) (ts : List ℕ) → In u ts → first_or d (sort_instants ts) ≤ u
unfolding sort_instants
first_or-sort-le d u [] i = absurd i
first_or-sort-le d u (t ∷ ts) (inl e) =
    subst (λ x. first_or d (insert_instant t (sort_instants ts)) ≤ x) e
      (first_or-insert_new d t (sort_instants ts))
first_or-sort-le d u (t ∷ ts) (inr i) = omega (
  arith,
  first_or-insert_old d t (sort_instants ts) (sort_instants-ne-nil u ts i),
  first_or-sort-le d u ts i,
)

In-insert_instant : (u t : ℕ) (us : List ℕ) → In u (insert_instant t us) → (t ≡ u) ⊎ In u us
unfolding insert_instant
In-insert_instant u t [] i = i
In-insert_instant u t (v ∷ us) i = elim (Bool-cases (ltb v t)) [
  | inr e ↦ rw (e, insert_instant) at i
  | inl e ↦ elim (let i' : In u (v ∷ insert_instant t us) = rw (e, insert_instant) at i in i') [
    | inl p ↦ inr (inl p)
    | inr q ↦ elim (In-insert_instant u t us q) [ inl p ↦ inl p | inr r ↦ inr (inr r) ]
  ]
]

In-sort_instants : (u : ℕ) (ts : List ℕ) → In u (sort_instants ts) → In u ts
unfolding sort_instants
In-sort_instants u [] i = i
In-sort_instants u (t ∷ ts) i = elim (In-insert_instant u t (sort_instants ts) i) [
  | inl e ↦ inl e
  | inr q ↦ inr (In-sort_instants u ts q)
]

-- The boundaries hold the start and the end of every weekly rule on each of the eight days.
boundary_intro :
    (z : Zone) (now base : ℕ) (t : Time)
    → now < at_time z (z.day_of base) t
    → In (at_time z (z.day_of base) t) (boundary z now base (some t))
boundary_intro z now base t h = rw (lt→ltb now (at_time z (z.day_of base) t) h) (inl refl)

rule_boundaries_weekly :
    (z : Zone) (now base : ℕ) (r : ScheduleRule)
    → has_dates r ≡ false
    → rule_boundaries z now base r
      ≡ boundary z now base (parse_clock r.start_time)
        ++ boundary z now base (parse_clock r.end_time)
unfolding rule_boundaries
rule_boundaries_weekly z now base r h = rw h

In-day_boundaries :
    (z : Zone) (now base : ℕ) (rs : List ScheduleRule) (r : ScheduleRule) (p : ℕ)
    → In r rs
    → In p (rule_boundaries z now base r)
    → In p (day_boundaries z now base rs)
unfolding day_boundaries
In-day_boundaries z now base [] r p i h = absurd i
In-day_boundaries z now base (q ∷ rs) r p (inl e) h =
    In-append_left p (rule_boundaries z now base q) _
      (subst (λ x. In p (rule_boundaries z now base x)) (sym e) h)
In-day_boundaries z now base (q ∷ rs) r p (inr i) h =
    In-append_right p (rule_boundaries z now base q) _ (In-day_boundaries z now base rs r p i h)

In-boundaries :
    (z : Zone) (now : ℕ) (rs : List ScheduleRule) (i n k p : ℕ)
    → k < n
    → In p (day_boundaries z now (z.at (z.day_of now + (i + k)) 0) rs)
    → In p (boundaries z now rs i n)
unfolding boundaries
In-boundaries z now rs i zero k p h m = absurd (omega arith)
In-boundaries z now rs i (suc n) zero p h m =
    In-append_left p _ _
      (subst (λ j. In p (day_boundaries z now (z.at (z.day_of now + j) 0) rs)) (omega arith) m)
In-boundaries z now rs i (suc n) (suc k) p h m = In-append_right p (day_boundaries z now _ rs) _ (
    In-boundaries z now rs (i + 1) n k p (omega arith)
      (subst (λ j. In p (day_boundaries z now (z.at (z.day_of now + j) 0) rs)) (omega arith) m))

-- Midnight of the day that is a number of days after the day of now.
abbrev pub day_start : Zone → ℕ → ℕ → ℕ
day_start z now k = z.at (z.day_of now + k) 0

-- On one of the eight days from today on, a rule that is not out of its dates starts or ends at the
-- instant, which lies after now.
pub record IsBoundary (z : Zone) (now : ℕ) (rs : List ScheduleRule) (p : ℕ) : Type 0 where
  pub day : ℕ
  pub rule : ScheduleRule
  pub clock : Time
  pub within_eight : day < 8
  pub of_rules : In rule rs
  pub in_dates : outside_dates z (day_start z now day) rule ≡ false
  pub starts_or_ends :
      (parse_clock rule.start_time ≡ some clock) ⊎ (parse_clock rule.end_time ≡ some clock)
  pub at_clock : at_time z (z.day_of (day_start z now day)) clock ≡ p
  pub later : now < p

boundary-In :
    (z : Zone) (now base : ℕ) (o : Option Time) (p : ℕ)
    → In p (boundary z now base o)
    → (c : Time) × (o ≡ some c) × (at_time z (z.day_of base) c ≡ p) × (now < p)
boundary-In z now base none p i = absurd i
boundary-In z now base (some t) p i = elim (Bool-cases (ltb now (at_time z (z.day_of base) t))) [
  | inl e ↦ elim (let i' : In p (at_time z (z.day_of base) t ∷ []) = rw e at i in i') [
    | inl q ↦ (t, refl, q, subst (λ x. now < x) q (ltb→lt now (at_time z (z.day_of base) t) e))
    | inr n ↦ absurd n
  ]
  | inr e ↦ absurd (rw e at i)
]

-- The instant is a start or an end of the rule on the day that begins at `base`.
abbrev OnDay : Zone → ℕ → ℕ → ScheduleRule → ℕ → Type 0
OnDay z now base r p =
    (c : Time) × (outside_dates z base r ≡ false)
    × ((parse_clock r.start_time ≡ some c) ⊎ (parse_clock r.end_time ≡ some c))
    × (at_time z (z.day_of base) c ≡ p)
    × (now < p)

rule_boundaries-OnDay :
    (z : Zone) (now base : ℕ) (r : ScheduleRule) (p : ℕ)
    → In p (rule_boundaries z now base r)
    → OnDay z now base r p
unfolding rule_boundaries
rule_boundaries-OnDay z now base r p i = elim (Bool-cases (outside_dates z base r)) [
  | inl e ↦ absurd (rw (e, rule_boundaries) at i)
  | inr e ↦
      elim (In-append_cases p (boundary z now base (parse_clock r.start_time))
        (boundary z now base (parse_clock r.end_time)) (rw (e, rule_boundaries) at i)) [
          | inl l ↦ let (c, x, q, a) = boundary-In z now base _ p l in (c, e, inl x, q, a)
          | inr l ↦ let (c, x, q, a) = boundary-In z now base _ p l in (c, e, inr x, q, a)
        ]
]

OnDay-rule_boundaries :
    (z : Zone) (now base : ℕ) (r : ScheduleRule) (p : ℕ)
    → OnDay z now base r p
    → In p (rule_boundaries z now base r)
unfolding rule_boundaries
OnDay-rule_boundaries z now base r p (c, d, which, q, a) =
    let here : In p (boundary z now base (some c)) =
      subst (λ x. In x (boundary z now base (some c))) q
        (boundary_intro z now base c (subst (λ x. now < x) (sym q) a)) in
    rw d (elim which [
      | inl x ↦ In-append_left p _ _ (subst (λ o. In p (boundary z now base o)) (sym x) here)
      | inr x ↦
          In-append_right p (boundary z now base (parse_clock r.start_time)) _
            (subst (λ o. In p (boundary z now base o)) (sym x) here)
    ])

day_boundaries-OnDay :
    (z : Zone) (now base : ℕ) (rs : List ScheduleRule) (p : ℕ)
    → In p (day_boundaries z now base rs)
    → (r : ScheduleRule) × In r rs × OnDay z now base r p
unfolding day_boundaries
day_boundaries-OnDay z now base [] p i = absurd i
day_boundaries-OnDay z now base (r ∷ rs) p i =
    elim (In-append_cases p (rule_boundaries z now base r) (day_boundaries z now base rs) i) [
      | inl l ↦ (r, inl refl, rule_boundaries-OnDay z now base r p l)
      | inr l ↦ let (q, j, o) = day_boundaries-OnDay z now base rs p l in (q, inr j, o)
    ]

boundaries-OnDay :
    (z : Zone) (now : ℕ) (rs : List ScheduleRule) (i n p : ℕ)
    → In p (boundaries z now rs i n)
    → (k : ℕ) × (k < i + n) × (r : ScheduleRule) × In r rs × OnDay z now (day_start z now k) r p
unfolding boundaries
boundaries-OnDay z now rs i zero p h = absurd h
boundaries-OnDay z now rs i (suc n) p h =
    elim (In-append_cases p (day_boundaries z now _ rs) (boundaries z now rs (i + 1) n) h) [
      | inl l ↦
          let (r, j, o) = day_boundaries-OnDay z now (day_start z now i) rs p l in
          (i, omega arith, r, j, o)
      | inr l ↦
          let (k, b, r, j, o) = boundaries-OnDay z now rs (i + 1) n p l in
          (k, omega (arith, b), r, j, o)
    ]

boundaries-IsBoundary :
    (z : Zone) (now : ℕ) (rs : List ScheduleRule) (p : ℕ)
    → In p (boundaries z now rs 0 8)
    → IsBoundary z now rs p
boundaries-IsBoundary z now rs p h =
    let (k, b, r, j, (c, d, which, q, a)) = boundaries-OnDay z now rs 0 8 p h in
    record {
      day = k;
      rule = r;
      clock = c;
      within_eight = b;
      of_rules = j;
      in_dates = d;
      starts_or_ends = which;
      at_clock = q;
      later = a;
    }

IsBoundary-boundaries :
    (z : Zone) (now : ℕ) (rs : List ScheduleRule) (p : ℕ)
    → IsBoundary z now rs p
    → In p (boundaries z now rs 0 8)
IsBoundary-boundaries z now rs p b = In-boundaries z now rs 0 8 b.day p b.within_eight (
    subst (λ j. In p (day_boundaries z now (z.at (z.day_of now + j) 0) rs)) (omega arith)
      (In-day_boundaries z now (day_start z now b.day) rs b.rule p b.of_rules (
        OnDay-rule_boundaries z now (day_start z now b.day) b.rule p
          (b.clock, b.in_dates, b.starts_or_ends, b.at_clock, b.later))))

first_or-least :
    (d : ℕ) (ts : List ℕ)
    → In (first_or d (sort_instants ts)) ts
      ⊎ ((first_or d (sort_instants ts) ≡ d) × ((p : ℕ) → In p ts → ⊥))
unfolding sort_instants
first_or-least d [] = inr (refl, λ p i. i)
first_or-least d (t ∷ ts) = inl (
    In-sort_instants _ (t ∷ ts)
      (head_in (insert_instant t (sort_instants ts)) (insert_instant-ne-nil t (sort_instants ts))))
  where
    head_in : (us : List ℕ) → us ≢ [] → In (first_or d us) us
    head_in [] n = absurd (n refl)
    head_in (u ∷ us) n = inl refl

pub next_state_change-least :
    (loc : Locations) (s : Schedule) (now : ℕ)
    → (IsBoundary (zone_or_utc (loc s.timezone)) now s.rules (next_state_change loc s now)
        ⊎ ((next_state_change loc s now ≡ now + ns_day)
            × ((p : ℕ) → ¬ IsBoundary (zone_or_utc (loc s.timezone)) now s.rules p)))
      × ((p : ℕ)
          → IsBoundary (zone_or_utc (loc s.timezone)) now s.rules p
          → next_state_change loc s now ≤ p)
unfolding next_state_change
next_state_change-least loc s now =
    let z = zone_or_utc (loc s.timezone) in
    let ps = boundaries z now s.rules 0 8 in
    (
      elim (first_or-least (now + ns_day) ps) [
        | inl i ↦ inl (boundaries-IsBoundary z now s.rules _ i)
        | inr (e, n) ↦ inr (e, λ p b. n p (IsBoundary-boundaries z now s.rules p b))
      ],
      λ p b. first_or-sort-le (now + ns_day) p ps (IsBoundary-boundaries z now s.rules p b),
    )

before_all :
    (loc : Locations) (s : Schedule) (now p : ℕ)
    → In p (boundaries (zone_or_utc (loc s.timezone)) now s.rules 0 8)
    → next_state_change loc s now ≤ p
before_all loc s now p i =
    (next_state_change-least loc s now).1 p
      (boundaries-IsBoundary (zone_or_utc (loc s.timezone)) now s.rules p i)

-- A boundary of a weekly rule on one of the eight days, the start or the end, is not after now, or
-- the next state change is not after it.
pub next_state_change-boundary :
    (loc : Locations) (s : Schedule) (now k : ℕ) (r : ScheduleRule) (c : Time)
    → In r s.rules
    → has_dates r ≡ false
    → (parse_clock r.start_time ≡ some c) ⊎ (parse_clock r.end_time ≡ some c)
    → k < 8
    → let z = zone_or_utc (loc s.timezone) in
      let p = at_time z (z.day_of (z.at (z.day_of now + k) 0)) c in
      (p ≤ now) ⊎ (next_state_change loc s now ≤ p)
next_state_change-boundary loc s now k r c i w which hk =
    let z = zone_or_utc (loc s.timezone) in
    let base : ℕ = z.at (z.day_of now + k) 0 in
    let p : ℕ = at_time z (z.day_of base) c in
    elim (Bool-cases (ltb now p)) [
      | inr e ↦ inl (ground (arith, e))
      | inl e ↦
          let here = boundary_intro z now base c (ltb→lt now p e) in
          let m : In p (
              boundary z now base (parse_clock r.start_time)
              ++ boundary z now base (parse_clock r.end_time)) =
            elim which [
              | inl x ↦
                  In-append_left p _ _ (subst (λ o. In p (boundary z now base o)) (sym x) here)
              | inr x ↦
                  In-append_right p (boundary z now base (parse_clock r.start_time)) _
                    (subst (λ o. In p (boundary z now base o)) (sym x) here)
            ] in
          inr (
            (before_all loc s now p) (
              In-boundaries z now s.rules 0 8 k p hk (
                subst (λ j. In p (day_boundaries z now (z.at (z.day_of now + j) 0) s.rules))
                  (omega arith)
                  (In-day_boundaries z now base s.rules r p i
                    (subst (In p) (sym (rule_boundaries_weekly z now base r w)) m)))))
    ]
