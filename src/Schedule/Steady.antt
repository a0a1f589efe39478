-- ===== src/Schedule/Steady.antt =====
-- In UTC a weekly schedule does not change its action before its next state change.
use lias_dis.Prelude.{
  ℕ, ◌+◌, ◌-◌, ◌*◌, ◌/◌, ◌%◌, ◌≤◌, ◌<◌, ◌≡◌, refl, sym, ap, subst, ◌∙◌, ◌⊎◌, inl, inr, Bool, false,
  not, ◌&&◌, ◌||◌, Option, none, some, List, [], ◌∷◌, arith, ltb, ◌==◌, if◌then◌else◌, Bool-cases,
  Option-cases, In, str_eq, ltb→lt,
}
use lias_dis.Prelude.Int.{ℤ, sub_ℕ}
use lias_dis.Models.{Schedule, ScheduleRule}
use lias_dis.Clock.{Time, parse_clock, minute_of_day, minute_of_day_bound}
use lias_dis.Zone.{Zone, utc, ns_day, ns_minute, weekday, at_time}
use lias_dis.Schedule.{
  Locations, zone_or_utc, has_dates, weekly_window, on_weekday, when, within, weekly_times,
  weekly_match, rule_match, best_rule, Best, or_default, evaluate, next_state_change,
}
use lias_dis.Schedule.Transition.{next_state_change-boundary}

-- The window test on a day `d` with the window's ends `s` and `e` as nanoseconds of the day.
abbrev day_window : ℕ → ℕ → Bool → Bool → Bool → ℕ → ℕ → Option ℤ
day_window d now current prev same s e =
    if not same && (s == e)
    then none
    else if ltb s e
    then when (current && within (d * ns_day + s) now (d * ns_day + e)) (sub_ℕ e s)
    else when
        ((prev && within (d * ns_day + s - ns_day) now (d * ns_day + e))
          || (current && within (d * ns_day + s) now (d * ns_day + e + ns_day)))
        (sub_ℕ (e + ns_day) s)

sub_ℕ-shift : (k a b : ℕ) → sub_ℕ (k + a) (k + b) ≡ sub_ℕ a b
sub_ℕ-shift k a b = ground arith

day_window_lem :
    (d now s e : ℕ) (current prev same : Bool)
    → 1 ≤ d
    → s < ns_day
    → e < ns_day
    → weekly_window utc now current prev same (d * ns_day + s) (d * ns_day + e)
      ≡ day_window d now current prev same s e
day_window_lem d now s e current prev same h hs he = ground arith

same_day :
    (d now t s e : ℕ) (c p same : Bool)
    → s < ns_day
    → e < ns_day
    → 1 ≤ d
    → now ≤ t
    → d * ns_day ≤ now
    → t < d * ns_day + ns_day
    → (d * ns_day + s ≤ now) ⊎ (t < d * ns_day + s)
    → (d * ns_day + e ≤ now) ⊎ (t < d * ns_day + e)
    → day_window d now c p same s e ≡ day_window d t c p same s e
same_day d now t s e c p same hs he hd le lo hi ps pe = ground arith

next_day :
    (d now t s e : ℕ) (c p c' same : Bool)
    → s < ns_day
    → e < ns_day
    → 1 ≤ d
    → d * ns_day + s ≤ now
    → d * ns_day + e ≤ now
    → now < d * ns_day + ns_day
    → d * ns_day + ns_day ≤ t
    → t < d * ns_day + ns_day + s
    → t < d * ns_day + ns_day + e
    → day_window d now c p same s e ≡ day_window (d + 1) t c' c same s e
next_day d now t s e c p c' same hs he hd a b up lo a' b' = ground arith

weekday_step : (d : ℕ) → ((d + 1 + 1) % 7 + 6) % 7 ≡ (d + 1) % 7
weekday_step d = omega arith

window_none :
    (z : Zone) (now start end : ℕ) (same : Bool)
    → weekly_window z now false false same start end ≡ none
window_none z now start end same = ground arith

-- The first test of the weekly branch only saves time.
weekly_times_idle :
    (z : Zone) (now : ℕ) (r : ScheduleRule) (a b : Option Time)
    → on_weekday r.days (weekday z now) ≡ false
    → on_weekday r.days ((weekday z now + 6) % 7) ≡ false
    → weekly_times z now r a b ≡ none
weekly_times_idle z now r none b h k = refl
weekly_times_idle z now r (some x) none h k = refl
weekly_times_idle z now r (some x) (some y) h k =
    rw (h, k) (window_none z now _ _ (str_eq r.start_time r.end_time))

weekly_match-eq :
    (z : Zone) (now : ℕ) (r : ScheduleRule)
    → weekly_match z now r
      ≡ weekly_times z now r (parse_clock r.start_time) (parse_clock r.end_time)
unfolding weekly_match
weekly_match-eq z now r = elim (Bool-cases (on_weekday r.days (weekday z now))) [
  | inl e ↦ ground (arith, e)
  | inr e ↦ elim (Bool-cases (on_weekday r.days ((weekday z now + 6) % 7))) [
    | inl f ↦ ground (arith, f)
    | inr f ↦ ground (
      arith,
      e,
      f,
      weekly_times_idle z now r (parse_clock r.start_time) (parse_clock r.end_time) e f,
    )
  ]
]

-- The test of a weekly rule in UTC, by day number.
weekly_times_day :
    (now d : ℕ) (r : ScheduleRule) (a b : Time)
    → d ≡ now / ns_day
    → 1 ≤ d
    → minute_of_day a < 1440
    → minute_of_day b < 1440
    → weekly_times utc now r (some a) (some b)
      ≡ day_window d now
          (on_weekday r.days ((d + 1) % 7))
          (on_weekday r.days (((d + 1) % 7 + 6) % 7))
          (str_eq r.start_time r.end_time)
          (minute_of_day a * ns_minute)
          (minute_of_day b * ns_minute)
weekly_times_day now d r a b e h ha hb = rw (← e) (
    day_window_lem d now (minute_of_day a * ns_minute) (minute_of_day b * ns_minute) _ _ _ h
      (omega arith) (omega arith))

-- Every rule of the schedule goes by days of the week.
abbrev pub IsWeekly : Schedule → Type 0
IsWeekly s = (r : ScheduleRule) → In r s.rules → has_dates r ≡ false

module _ (loc : Locations) (s : Schedule) (now : ℕ)
    (is_utc : zone_or_utc (loc s.timezone) ≡ utc) where
  boundary_utc :
      (k : ℕ) (r : ScheduleRule) (c : Time)
      → In r s.rules
      → has_dates r ≡ false
      → (parse_clock r.start_time ≡ some c) ⊎ (parse_clock r.end_time ≡ some c)
      → k < 8
      → ((now / ns_day + k) * ns_day + minute_of_day c * ns_minute ≤ now)
        ⊎ (next_state_change loc s now ≤ (now / ns_day + k) * ns_day + minute_of_day c * ns_minute)
  boundary_utc k r c i w which hk =
      let same : ((now / ns_day + k) * ns_day + 0) / ns_day ≡ now / ns_day + k = omega arith in
      subst
        (λ (d : ℕ).
          (d * ns_day + minute_of_day c * ns_minute ≤ now)
          ⊎ (next_state_change loc s now ≤ d * ns_day + minute_of_day c * ns_minute))
        same
        (subst
          (λ (z : Zone).
            (at_time z (z.day_of (z.at (z.day_of now + k) 0)) c ≤ now)
            ⊎ (next_state_change loc s now ≤ at_time z (z.day_of (z.at (z.day_of now + k) 0)) c))
          is_utc (next_state_change-boundary loc s now k r c i w which hk))

  module _ (t : ℕ) (late : ns_day ≤ now) (le : now ≤ t) (lt : t < next_state_change loc s now) where
    times_steady :
        (r : ScheduleRule) (a b : Time)
        → In r s.rules
        → has_dates r ≡ false
        → parse_clock r.start_time ≡ some a
        → parse_clock r.end_time ≡ some b
        → weekly_times utc now r (some a) (some b) ≡ weekly_times utc t r (some a) (some b)
    times_steady r a b i w x y =
        let ha = minute_of_day_bound r.start_time x in
        let hb = minute_of_day_bound r.end_time y in
        let a0 = boundary_utc 0 r a i w (inl x) (omega arith) in
        let b0 = boundary_utc 0 r b i w (inr y) (omega arith) in
        let a1 = boundary_utc 1 r a i w (inl x) (omega arith) in
        let b1 = boundary_utc 1 r b i w (inr y) (omega arith) in
        let d : ℕ = now / ns_day in
        let sm : ℕ = minute_of_day a * ns_minute in
        let em : ℕ = minute_of_day b * ns_minute in
        let today : ℕ → Bool = λ n. on_weekday r.days ((n + 1) % 7) in
        let before : ℕ → Bool = λ n. on_weekday r.days (((n + 1) % 7 + 6) % 7) in
        let same : Bool = str_eq r.start_time r.end_time in
        let here = weekly_times_day now d r a b refl (omega arith) ha hb in
        elim (Bool-cases (ltb t (d * ns_day + ns_day))) [
          | inl e ↦
              let q : t < d * ns_day + ns_day = ltb→lt t (d * ns_day + ns_day) e in
              here
              ∙ same_day d now t sm em (today d) (before d) same (omega arith) (omega arith)
                  (omega arith) le (omega arith) q (omega (arith, a0)) (omega (arith, b0))
              ∙ sym (weekly_times_day t d r a b (omega arith) (omega arith) ha hb)
          | inr e ↦
              let q : d * ns_day + ns_day ≤ t = ground (arith, e) in
              here
              ∙ next_day d now t sm em (today d) (before d) (today (d + 1)) same (omega arith)
                  (omega arith) (omega arith) (omega arith) (omega arith) (omega arith) q
                  (omega arith) (omega arith)
              ∙ ap (λ v. day_window (d + 1) t (today (d + 1)) (on_weekday r.days v) same sm em)
                  (sym (weekday_step d))
              ∙ sym (weekly_times_day t (d + 1) r a b (omega arith) (omega arith) ha hb)
        ]

    weekly_steady :
        (r : ScheduleRule)
        → In r s.rules
        → has_dates r ≡ false
        → rule_match utc now r ≡ rule_match utc t r
    unfolding rule_match
    weekly_steady r i w =
        rw (w, weekly_match-eq utc now r, weekly_match-eq utc t r)
          (elim (Option-cases (parse_clock r.start_time)) [
            | inl x ↦ rw x
            | inr (a, x) ↦ elim (Option-cases (parse_clock r.end_time)) [
              | inl y ↦ rw (x, y)
              | inr (b, y) ↦ rw (x, y) (times_steady r a b i w x y)
            ]
          ])

    best_steady :
        (rs : List ScheduleRule) (best : Option Best)
        → ((r : ScheduleRule) → In r rs → rule_match utc now r ≡ rule_match utc t r)
        → best_rule utc now best rs ≡ best_rule utc t best rs
    unfolding best_rule
    best_steady [] best h = refl
    best_steady (r ∷ rs) best h = rw (h r (inl refl)) (best_steady rs _ (λ q i. h q (inr i)))

-- In UTC, and from the second day of the calendar on, a schedule whose rules all go by days of the
-- week has the same action at every instant from now until its next state change.
pub evaluate-next_state_change :
    (loc : Locations) (s : Schedule) (now t : ℕ)
    → zone_or_utc (loc s.timezone) ≡ utc
    → IsWeekly s
    → ns_day ≤ now
    → now ≤ t
    → t < next_state_change loc s now
    → evaluate loc s t ≡ evaluate loc s now
unfolding evaluate
evaluate-next_state_change loc s now t u w late le lt = rw u (
    ap (or_default s.mode) (
      sym (
        best_steady loc s now u t late le lt s.rules none
          (λ r i. weekly_steady loc s now u t late le lt r i (w r i)))))
