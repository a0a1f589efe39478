-- ===== src/Clock.antt =====
-- Go's `time.Parse("15:04", s)`, as the schedule code uses it, and `%02d` on a number below 100.
-- Hours have one or two digits, minutes two; what follows them is an error.
use Prim.Native.Char.{Char, char, code}
use Prim.Native.String.{[] as empty, ◌∷◌ as ◌∷ₛ◌}
use mathlib.Core.Logic.{dite, dif_pos}
use native.Mathlib.Bridge.{le_prop}
use lias_dis.Prelude.{
  ℕ, ◌+◌, ◌-◌, ◌*◌, ◌/◌, ◌%◌, ◌<◌, String, ◌≡◌, refl, Bool, true, false, ◌&&◌, Option, none, some,
  arith, leb, ltb, ◌==◌, if◌then◌else◌, dec_lt, Bool-cases, Option-cases, inl, inr, ap, lt→ltb,
}
use lias_dis.Prelude.Text.{small-IsScalar}

pub record Time : Type 0 where
  pub hour : ℕ
  pub minute : ℕ

unfoldable pub digit : Char → Option ℕ
digit c = if leb 48 (code c) && leb (code c) 57 then some (code c - 48) else none

abbrev after_digit : Bool → ℕ → Char → String → Option ℕ → Option (ℕ × String)
after_digit fixed a d s none = if fixed then none else some (a, d ∷ₛ s)
after_digit fixed a d s (some b) = some (a * 10 + b, s)

abbrev second_digit : Bool → ℕ → String → Option (ℕ × String)
second_digit fixed a empty = if fixed then none else some (a, empty)
second_digit fixed a (d ∷ₛ s) = after_digit fixed a d s (digit d)

-- getnum of package time
unfoldable pub get_num : Bool → String → Option (ℕ × String)
get_num fixed empty = none
get_num fixed (c ∷ₛ s) = elim (digit c) [ none ↦ none | some a ↦ second_digit fixed a s ]

abbrev finish_clock : ℕ → Option (ℕ × String) → Option Time
finish_clock h none = none
finish_clock h (some (m, empty)) = if ltb m 60 then some (record { hour = h; minute = m }) else none
finish_clock h (some (m, c ∷ₛ s)) = none

abbrev after_hour : ℕ → String → Option Time
after_hour h empty = none
after_hour h (c ∷ₛ s) =
    if (ltb h 24) && (code c == 58) then finish_clock h (get_num true s) else none

unfoldable pub parse_clock : String → Option Time
parse_clock s = elim (get_num false s) [ none ↦ none | some (h, r) ↦ after_hour h r ]

unfoldable pub minute_of_day : Time → ℕ
minute_of_day t = t.hour * 60 + t.minute

unfoldable pub digit_char : ℕ → Char
digit_char n =
    dite (dec_lt (48 + n) 128) (λ h. char (48 + n) (small-IsScalar (48 + n) h)) (λ _. "?")

two_digits : ℕ → String
unfolding digit_char dec_lt
two_digits n = digit_char (n / 10) ∷ₛ (digit_char (n % 10) ∷ₛ empty)

clock_test : parse_clock "7:05" ≡ some (record { hour = 7; minute = 5 })
unfolding parse_clock get_num digit
clock_test = refl

clock_test_extra : parse_clock "07:055" ≡ none
unfolding parse_clock get_num digit
clock_test_extra = refl

two_digits_test : two_digits 7 ≡ "07"
unfolding two_digits
two_digits_test = refl

finish_clock_bounds :
    (h : ℕ) (o : Option (ℕ × String)) {t : Time}
    → finish_clock h o ≡ some t
    → (t.hour ≡ h) × (t.minute < 60)
finish_clock_bounds h none e = absurd (ground arith)
finish_clock_bounds h (some (m, empty)) e = ground arith
finish_clock_bounds h (some (m, c ∷ₛ s)) e = absurd (ground arith)

after_hour_bounds :
    (h : ℕ) (r : String) {t : Time} → after_hour h r ≡ some t → (t.hour < 24) × (t.minute < 60)
after_hour_bounds h empty e = absurd (ground arith)
after_hour_bounds h (c ∷ₛ s) e = elim (Bool-cases ((ltb h 24) && (code c == 58))) [
  | inl x ↦ let (a, b) = finish_clock_bounds h (get_num true s) (rw x at e) in (ground arith, b)
  | inr x ↦ let n : none ≡ some _ = rw x at e in absurd (ground arith)
]

-- A parsed time is a time of day.
parse_clock_bounds :
    (s : String) {t : Time} → parse_clock s ≡ some t → (t.hour < 24) × (t.minute < 60)
unfolding parse_clock
parse_clock_bounds s e = elim (Option-cases (get_num false s)) [
  | inl x ↦ absurd (ground (arith, x))
  | inr ((h, r), x) ↦ after_hour_bounds h r (rw (x, parse_clock) at e)
]

pub minute_of_day_bound : (s : String) {t : Time} → parse_clock s ≡ some t → minute_of_day t < 1440
unfolding minute_of_day
minute_of_day_bound s h = omega (arith, parse_clock_bounds s h)

digit-digit_char : (k : ℕ) → k < 10 → digit (digit_char k) ≡ some k
unfolding digit digit_char
digit-digit_char k h =
    let small : 48 + k < 128 = omega arith in rw (dif_pos _ le_prop small) (ground arith)

-- A number below 100, written with two digits in front of a text, is read back in front of it.
two_digits-get_num :
    (fixed : Bool) (n : ℕ) (r : String)
    → n < 100
    → get_num fixed (digit_char (n / 10) ∷ₛ (digit_char (n % 10) ∷ₛ r)) ≡ some (n, r)
unfolding get_num
two_digits-get_num fixed n r h =
    rw (digit-digit_char (n / 10) (omega arith), get_num)
      (rw (digit-digit_char (n % 10) (omega arith), get_num) (ap (λ k. some (k, r)) (omega arith)))

-- fmt.Sprintf("%02d:%02d", h, m)
unfoldable pub format_clock : ℕ → ℕ → String
unfolding two_digits
format_clock h m =
    digit_char (h / 10)
    ∷ₛ (digit_char (h % 10) ∷ₛ (":" ∷ₛ (digit_char (m / 10) ∷ₛ (digit_char (m % 10) ∷ₛ empty))))

-- A formatted time of day is parsed to itself.
pub parse_clock-format_clock :
    (h m : ℕ)
    → h < 24
    → m < 60
    → parse_clock (format_clock h m) ≡ some (record { hour = h; minute = m })
unfolding parse_clock format_clock
parse_clock-format_clock h m p q =
    rw (two_digits-get_num false h _ (omega arith), parse_clock)
      (rw (lt→ltb h 24 p) (rw (two_digits-get_num true m empty (omega arith)) (rw (lt→ltb m 60 q))))
