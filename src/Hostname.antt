-- ===== src/Hostname.antt =====
-- apps/discovery-service/internal/inventory/hostname.go: the form of a hostname that identity goes
-- by. Go's loop over the suffixes is recursion on fuel, and each round of it shortens the name, so
-- that its length is enough.
pub mod Canonical
mod Examples
use Prim.Native.Char.{Char, code}
use Prim.Native.String.{[] as empty, ◌∷◌ as ◌∷ₛ◌}
use lias_dis.Prelude.{
  ℕ, zero, suc, ◌+◌, String, Bool, true, false, ◌&&◌, ◌||◌, Option, none, some, List, [], ◌∷◌,
  str_eq, ◌==◌, if◌then◌else◌,
}
use lias_dis.Prelude.Text.{to_lower, trim_space, has_suffix}

abbrev pub canonical_suffixes : List String
canonical_suffixes =
    ".home.arpa" ∷ ".localdomain" ∷ ".internal" ∷ ".local" ∷ ".lan" ∷ ".home" ∷ ".corp" ∷ ".priv"
    ∷ ".intranet" ∷ []

unfoldable pub length_text : String → ℕ
length_text empty = 0
length_text (c ∷ₛ s) = suc (length_text s)

-- strings.TrimSuffix
pub trim_suffix : String → String → String
trim_suffix empty t = empty
trim_suffix (c ∷ₛ s) t =
    let rest = c ∷ₛ trim_suffix s t in if str_eq (c ∷ₛ s) t then empty else rest

-- The first suffix of the list that the name ends with, taken off.
pub strip_one : List String → String → Option String
strip_one [] h = none
strip_one (t ∷ ts) h =
    let rest = strip_one ts h in if has_suffix h t then some (trim_suffix h t) else rest

pub strip : ℕ → String → String
strip zero h = h
strip (suc fuel) h = elim (strip_one canonical_suffixes h) [
  | none ↦ h
  | some rest ↦ strip fuel rest
]

-- The loop over `strings.ReplaceAll(h, "..", ".")`: a run of dots becomes one.
abbrev cons_dot : Char → String → String
cons_dot c empty = c ∷ₛ empty
cons_dot c (d ∷ₛ s) = if code c == 46 && code d == 46 then d ∷ₛ s else c ∷ₛ d ∷ₛ s

pub collapse_dots : String → String
collapse_dots empty = empty
collapse_dots (c ∷ₛ s) = cons_dot c (collapse_dots s)

-- strings.Trim(h, ".")
pub trim_dots_left : String → String
trim_dots_left empty = empty
trim_dots_left (c ∷ₛ s) = let rest = trim_dots_left s in if code c == 46 then rest else c ∷ₛ s

abbrev keep_unless_dot : Char → String → String
keep_unless_dot c empty = if code c == 46 then empty else c ∷ₛ empty
keep_unless_dot c (d ∷ₛ s) = c ∷ₛ d ∷ₛ s

pub trim_dots_right : String → String
trim_dots_right empty = empty
trim_dots_right (c ∷ₛ s) = keep_unless_dot c (trim_dots_right s)

pub canonicalize_hostname : String → String
canonicalize_hostname raw =
    let h = trim_suffix (to_lower (trim_space raw)) "." in
    if str_eq h ""
    then ""
    else trim_dots_right (trim_dots_left (collapse_dots (strip (length_text h) h)))
