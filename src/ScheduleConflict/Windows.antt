-- ===== src/ScheduleConflict/Windows.antt =====
-- What the projection of a rule covers, minute by minute, against a description with no segments.
use lias_dis.Prelude.{
  ℕ, ◌+◌, ◌-◌, ◌*◌, ◌%◌, ◌≤◌, ◌<◌, String, ◌≡◌, ◌≢◌, ◌↔◌, refl, subst, ◌⊎◌, inl, inr, false, some,
  List, [], ◌∷◌, ◌++◌, arith, ltb, Bool-cases, Option-cases, ltb→lt, str_eq, dec_lt,
}
use lias_dis.Prelude.Dict.{Dict, lookup}
use lias_dis.Prelude.Text.{to_lower, trim_space}
use lias_dis.Models.{Schedule, ScheduleRule}
use lias_dis.ScheduleConflict.{Segment, weekday_of, day_to_weekday, project_day, project_days}

-- Some segment holds the minute `m` of the week.
abbrev pub Covers : List Segment → ℕ → Type 0
Covers [] m = ⊥
Covers (a ∷ rest) m = ((a.start ≤ m) × (m < a.end)) ⊎ Covers rest m

Covers-append_left : (xs ys : List Segment) (m : ℕ) → Covers xs m → Covers (xs ++ ys) m
Covers-append_left [] ys m h = absurd h
Covers-append_left (x ∷ xs) ys m (inl h) = inl h
Covers-append_left (x ∷ xs) ys m (inr h) = inr (Covers-append_left xs ys m h)

Covers-append_right : (xs ys : List Segment) (m : ℕ) → Covers ys m → Covers (xs ++ ys) m
Covers-append_right [] ys m h = h
Covers-append_right (x ∷ xs) ys m h = inr (Covers-append_right xs ys m h)

Covers-append_cases :
    (xs ys : List Segment) (m : ℕ) → Covers (xs ++ ys) m → Covers xs m ⊎ Covers ys m
Covers-append_cases [] ys m h = inr h
Covers-append_cases (x ∷ xs) ys m (inl h) = inl (inl h)
Covers-append_cases (x ∷ xs) ys m (inr h) = elim (Covers-append_cases xs ys m h) [
  | inl l ↦ inl (inr l)
  | inr r ↦ inr r
]

-- The window that opens on day `w` at minute `sm` and lasts until the next minute `em` of a day,
-- round the end of the week.
abbrev InWindow : ℕ → ℕ → ℕ → ℕ → Type 0
InWindow sm em w m = (m + 10080 - (w * 1440 + sm)) % 10080 < (em + 1440 - sm) % 1440

abbrev ValuesBelow : ℕ → Dict ℕ → Type 0
ValuesBelow n [] = Unit
ValuesBelow n ((j, v) ∷ d) = (v < n) × ValuesBelow n d

lookup_below :
    (n : ℕ) (k : String) (d : Dict ℕ) {w : ℕ} → ValuesBelow n d → lookup k d ≡ some w → w < n
unfolding lookup
lookup_below n k [] b h = absurd (ground arith)
lookup_below n k ((j, v) ∷ d) b h = elim (Bool-cases (str_eq j k)) [
  | inl e ↦ let h' : some v ≡ some _ = rw (e, lookup) at h in ground arith
  | inr e ↦ lookup_below n k d b.1 (rw (e, lookup) at h)
]

-- The table knows seven days.
pub weekday_of_below : (day : String) {w : ℕ} → weekday_of day ≡ some w → w < 7
weekday_of_below day h = lookup_below 7 (to_lower (trim_space day)) day_to_weekday (omega arith) h

module _ (s : Schedule) (r : ScheduleRule) (idx sm em : ℕ) where
  pub project_day_window :
      (w m : ℕ)
      → w < 7
      → m < 10080
      → sm < 1440
      → em < 1440
      → sm ≢ em
      → Covers (project_day s r idx sm em w) m ↔ InWindow sm em w m
  unfolding project_day
  project_day_window w m hw hm hs he ne = elim (Bool-cases (ltb sm em)) [
    | inl e ↦
        rw (e, project_day)
          (
            λ c. omega (arith, ltb→lt sm em e),
            λ o. inl (omega (arith, ltb→lt sm em e), omega (arith, ltb→lt sm em e)),
          )
    | inr e ↦
        let gt = overnight e in
        rw (e, project_day)
          (
            λ c. omega (arith, gt),
            λ o. elim (dec_lt m (w * 1440 + sm)) [
              | yes p ↦ inr (inl (omega (arith, gt), omega (arith, gt)))
              | no p ↦ elim (dec_lt m ((w + 1) * 1440)) [
                | yes q ↦ inl (omega arith, omega arith)
                | no q ↦ inr (inl (omega (arith, gt), omega (arith, gt)))
              ]
            ],
          )
  ]
    where
      overnight : ltb sm em ≡ false → em < sm
      overnight e = ground arith

-- Some known day of the list has a window with the minute `m` in it.
abbrev pub OnDays : ℕ → ℕ → List String → ℕ → Type 0
OnDays sm em [] m = ⊥
OnDays sm em (day ∷ days) m =
    ((w : ℕ) × (weekday_of day ≡ some w) × InWindow sm em w m) ⊎ OnDays sm em days m

module _ (s : Schedule) (r : ScheduleRule) (idx sm em : ℕ) where
  pub project_days_window :
      (days : List String) (m : ℕ)
      → m < 10080
      → sm < 1440
      → em < 1440
      → sm ≢ em
      → Covers (project_days s r idx sm em days) m ↔ OnDays sm em days m
  unfolding project_days
  project_days_window [] m hm hs he ne = (λ h. h, λ h. h)
  project_days_window (day ∷ days) m hm hs he ne =
      let (to, from) = project_days_window days m hm hs he ne in
      elim (Option-cases (weekday_of day)) [
        | inl x ↦
            rw (x, project_days)
              (
                λ c. inr (to c),
                λ o. elim o [ inl (w, y, _) ↦ absurd (ground (arith, x, y)) | inr q ↦ from q ],
              )
        | inr (w, x) ↦
            let (in_to, in_from) =
              project_day_window s r idx sm em w m (weekday_of_below day x) hm hs he ne in
            rw (x, project_days)
              (
                λ c. elim (Covers-append_cases (project_day s r idx sm em w) _ m c) [
                  | inl l ↦ inl (w, refl, in_to l)
                  | inr q ↦ inr (to q)
                ],
                λ o. elim o [
                  | inl (v, y, l) ↦
                      Covers-append_left (project_day s r idx sm em w) _ m
                        (in_from (subst (λ u. InWindow sm em u m) (ground (arith, y)) l))
                  | inr q ↦ Covers-append_right (project_day s r idx sm em w) _ m (from q)
                ],
              )
      ]
