-- ===== src/TagManager.antt =====
-- apps/lias/internal/tags/manager.go: the tags that devices can have.
pub mod Builtin
mod Examples
use Prim.Native.Char.{Char, char, code}
use Prim.Native.String.{[] as empty, ◌∷◌ as ◌∷ₛ◌}
use mathlib.Core.Logic.{dite}
use native.Mathlib.Decide.{dec_lt}
use lias_dis.Prelude.{
  ℕ, ◌-◌, ◌<◌, String, Bool, true, false, not, ◌&&◌, ◌||◌, Option, none, some, List, [], ◌∷◌, ◌++◌,
  str_eq, leb, ltb, ◌==◌, if◌then◌else◌, exists, arith,
}
use lias_dis.Prelude.Text.{to_lower, trim_space, small-IsScalar}
use lias_dis.Prelude.Int.{ℤ, pos}

pub record Tag : Type 0 where
  pub id : String
  pub name : String
  pub color : String
  pub precedence : ℤ
  pub builtin : Bool

pub record Manager : Type 0 where
  pub tags : List Tag

abbrev preset : String → String → String → ℕ → Tag
preset id name color precedence = record {
  id = id;
  name = name;
  color = color;
  precedence = pos precedence;
  builtin = true;
}

pub new_manager : Manager
new_manager = record {
  tags =
      preset "infrastructure" "Infrastructure" "#8e8e93" 100
      ∷ preset "work" "Work Devices" "#5856d6" 90
      ∷ preset "kids" "Kids Devices" "#ff9500" 80
      ∷ preset "gaming" "Gaming Consoles" "#ff2d55" 70
      ∷ preset "streaming" "Streaming Devices" "#af52de" 65
      ∷ preset "mobile" "Mobile Devices" "#0a84ff" 60
      ∷ preset "audio" "Audio Devices" "#00c7be" 55
      ∷ preset "computers" "Desktops & Laptops" "#32ade6" 50
      ∷ preset "smart_home" "Smart Home & Appliances" "#30d158" 40
      ∷ preset "iot" "IoT Devices" "#30d158" 40
      ∷ preset "printers" "Printers & Scanners" "#a28b55" 35
      ∷ preset "servers" "Servers & NAS" "#ffcc00" 30
      ∷ preset "guests" "Guest Devices" "#ff3b30" 20
      ∷ preset "generic" "Generic Devices" "#636366" 0
      ∷ [];
}

-- strings.ReplaceAll for texts of one character
pub replace_char : ℕ → Char → String → String
replace_char old new empty = empty
replace_char old new (c ∷ₛ s) = (if code c == old then new else c) ∷ₛ replace_char old new s

-- unicode.ToTitle, for ASCII
title_char : Char → Char
title_char c =
    if leb 97 (code c) && leb (code c) 122
    then dite (dec_lt (code c - 32) 128) (λ h. char (code c - 32) (small-IsScalar (code c - 32) h))
        (λ _. c)
    else c

-- `isSeparator` of Go's strings package: no letter, no digit and no underscore.
abbrev is_separator : Char → Bool
is_separator c = not (
    (leb 48 (code c) && leb (code c) 57)
    || (leb 65 (code c) && leb (code c) 90)
    || (leb 97 (code c) && leb (code c) 122)
    || (code c == 95)
    || leb 128 (code c))

-- strings.Title: the first character of each word in title case.
title : Bool → String → String
title at_start empty = empty
title at_start (c ∷ₛ s) = (if at_start then title_char c else c) ∷ₛ title (is_separator c) s

space : Char
space = char 32 (small-IsScalar 32 (omega arith))

pub underscore : Char
underscore = char 95 (small-IsScalar 95 (omega arith))

abbrev pub custom : String → String → String → Tag
custom id name color = record {
  id = id;
  name = name;
  color = color;
  precedence = pos 50;
  builtin = false;
}

unfoldable pub is_builtin : Tag → Bool
is_builtin t = t.builtin

abbrev pub has_id : String → Tag → Bool
has_id id t = str_eq t.id id

abbrev pub clean_id : String → String
clean_id tag_id = to_lower (trim_space tag_id)

pub ensure_tag_exists : String → Manager → Manager
ensure_tag_exists tag_id m =
    if str_eq tag_id "" || exists (has_id (clean_id tag_id)) m.tags then m else record {
      tags =
          m.tags
          ++ custom (clean_id tag_id) (title true (replace_char 95 space (clean_id tag_id)))
              "#0071e3"
            ∷ [];
    }

-- A tag written over the first of its id, or at the end.
restore : Tag → List Tag → List Tag
restore t [] = t ∷ []
restore t (u ∷ us) = let rest = restore t us in if has_id t.id u then t ∷ us else u ∷ rest

restore_tag : Tag → Manager → Manager
restore_tag t m = record { tags = restore t m.tags }

pub data Error : Type 0 where
  empty_name not_found : Error
  already_exists : String → Error
  builtin_tag : String → Error

-- The tag or the error that a call returns, and the manager after it.
pub data Reply : Type 0 where
  ok : Tag → Reply
  failed : Error → Reply

-- strings.EqualFold, for ASCII
abbrev pub equal_fold : String → String → Bool
equal_fold a b = str_eq (to_lower a) (to_lower b)

abbrev pub tag_id_of : String → String
tag_id_of clean_name = to_lower (replace_char 32 underscore clean_name)

pub create : String → String → Manager → Reply × Manager
create name color m =
    let clean_name = trim_space name in
    if str_eq clean_name ""
    then (failed empty_name, m)
    else if exists (λ t. str_eq t.id (tag_id_of clean_name) || equal_fold t.name clean_name) m.tags
    then (failed (already_exists clean_name), m)
    else (
      ok (custom (tag_id_of clean_name) clean_name color),
      record { tags = m.tags ++ custom (tag_id_of clean_name) clean_name color ∷ [] },
    )

abbrev pub edited : String → String → Tag → Tag
edited name color t = record t {
  name = if not (str_eq name "") && not (str_eq name t.name) then name else t.name;
  color = if not (str_eq color "") then color else t.color;
}

abbrev cons_tag : Tag → Reply × List Tag → Reply × List Tag
cons_tag t (r, ts) = (r, t ∷ ts)

pub update_in : String → String → String → List Tag → Reply × List Tag
update_in id name color [] = (failed not_found, [])
update_in id name color (t ∷ ts) =
    let rest = update_in id name color ts in
    if has_id id t
    then (if is_builtin t
        then (failed (builtin_tag t.name), t ∷ ts)
        else (ok (edited name color t), edited name color t ∷ ts))
    else cons_tag t rest

pub update : String → String → String → Manager → Reply × Manager
update id name color m =
    let (reply, ts) = update_in id name color m.tags in (reply, record { tags = ts })

abbrev cons_left : Tag → Option Error × List Tag → Option Error × List Tag
cons_left t (e, ts) = (e, t ∷ ts)

pub delete_in : String → List Tag → Option Error × List Tag
delete_in id [] = (some not_found, [])
delete_in id (t ∷ ts) =
    let rest = delete_in id ts in
    if has_id id t
    then (if is_builtin t then (some (builtin_tag t.name), t ∷ ts) else (none, ts))
    else cons_left t rest

pub delete : String → Manager → Option Error × Manager
delete id m = let (e, ts) = delete_in id m.tags in (e, record { tags = ts })

pub get_device_tag : Manager → List String → String
get_device_tag m [] = "generic"
get_device_tag m (tag_id ∷ ts) = if exists (has_id tag_id) m.tags then tag_id else "generic"
