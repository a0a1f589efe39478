-- ===== src/Prelude/Text.antt =====
-- Go's `strings` functions over the native `String`, for ASCII: beyond it, `to_lower` leaves a
-- character alone, and only the ASCII spaces are trimmed.
use Prim.Native.Char.{Char, char, code, IsScalar}
use Prim.Native.Nat.{compare, Ordering, ℕ, ◌+◌, ◌<◌}
use Prim.Native.String.{String, [], ◌∷◌, ◌++◌}
use mathlib.Core.Path.{◌≡◌, refl}
use mathlib.Core.Bool.{Bool, true, false, ◌&&◌, ◌||◌}
use mathlib.Core.List.{List}
use mathlib.Core.Logic.{dite}
use native.Mathlib.Omega.{arith}
use native.Mathlib.Decide.{dec_lt}
use text.Mathlib.Text.{◌==◌ as str_eq}
use lias_dis.Prelude.Tests.{leb, ◌==◌, if◌then◌else◌}

pub small-IsScalar : (n : ℕ) → n < 128 → IsScalar n
small-IsScalar n h = let e : compare n 55296 ≡ Ordering.lt = ground arith in rw e tt

-- unicode.ToLower
unfoldable pub lower_char : Char → Char
lower_char c =
    if leb 65 (code c) && leb (code c) 90
    then dite (dec_lt (code c + 32) 128) (λ h. char (code c + 32) (small-IsScalar (code c + 32) h))
        (λ _. c)
    else c

-- strings.ToLower
unfoldable pub to_lower : String → String
unfolding lower_char dec_lt
to_lower [] = []
to_lower (c ∷ s) = lower_char c ∷ to_lower s

-- unicode.IsSpace
abbrev pub is_space : Char → Bool
is_space c = code c == 32 || (leb 9 (code c) && leb (code c) 13)

unfoldable pub trim_left : String → String
trim_left [] = []
trim_left (c ∷ s) = let rest = trim_left s in if is_space c then rest else c ∷ s

-- A character kept in front of a text whose spaces at the end are gone.
abbrev pub keep_unless_blank : Char → String → String
keep_unless_blank c [] = if is_space c then [] else c ∷ []
keep_unless_blank c (d ∷ s) = c ∷ d ∷ s

unfoldable pub trim_right : String → String
trim_right [] = []
trim_right (c ∷ s) = keep_unless_blank c (trim_right s)

-- strings.TrimSpace
unfoldable pub trim_space : String → String
unfolding trim_left trim_right
trim_space s = trim_right (trim_left s)

-- strings.HasPrefix
unfoldable pub has_prefix : String → String → Bool
has_prefix s [] = true
has_prefix [] (p ∷ ps) = false
has_prefix (c ∷ s) (p ∷ ps) = (code c == code p) && has_prefix s ps

-- strings.HasSuffix
unfoldable pub has_suffix : String → String → Bool
has_suffix [] t = str_eq [] t
has_suffix (c ∷ s) t = str_eq (c ∷ s) t || has_suffix s t

-- Go's `+` on strings
unfoldable pub concat : List String → String
concat List.[] = []
concat (List.◌∷◌ x List.[]) = x
concat (List.◌∷◌ x (List.◌∷◌ y ys)) = x ++ concat (List.◌∷◌ y ys)

-- strings.Join
unfoldable pub join : List String → String → String
join List.[] sep = []
join (List.◌∷◌ x List.[]) sep = x
join (List.◌∷◌ x (List.◌∷◌ y ys)) sep = x ++ (sep ++ join (List.◌∷◌ y ys) sep)

lower_test : to_lower " Mon-DAY z" ≡ " mon-day z"
unfolding to_lower
lower_test = refl

trim_test : trim_space "  a b \n" ≡ "a b"
unfolding trim_space
trim_test = refl

suffix_test : has_suffix "tv.lan" ".lan" ≡ true
unfolding has_suffix
suffix_test = refl
