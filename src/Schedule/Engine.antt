-- ===== src/Schedule/Engine.antt =====
-- apps/lias/internal/schedule/engine.go: the schedules with the cache of merged bundles. The two
-- lookups of the cache under different locks are one lookup here, and the timer of `Run` with its
-- trigger channel is not modelled.
pub mod NoStale
use Prim.Native.String.{compare}
use text.Mathlib.Text.{is_lt}
use lias_dis.Prelude.{
  ℕ, String, Bool, true, false, Option, none, some, List, [], ◌∷◌, ◌++◌, str_eq, if◌then◌else◌,
}
use lias_dis.Prelude.Dict.{Dict, lookup, insert, erase}
use lias_dis.Prelude.Text.{join}
use lias_dis.Models.{Action, Schedule}
use lias_dis.ScheduleConflict.{Merged, MergeError, merge_schedules, Conflict}
use lias_dis.Schedule.{Locations, evaluate}

pub record Engine : Type 0 where
  pub schedules : Dict Schedule
  pub merged_cache : Dict Schedule
  pub reverse_idx : Dict (List String)

pub new_engine : Engine
new_engine = record { schedules = []; merged_cache = []; reverse_idx = [] }

insert_text : String → List String → List String
insert_text x [] = x ∷ []
insert_text x (y ∷ ys) = if is_lt (compare y x) then y ∷ insert_text x ys else x ∷ y ∷ ys

-- sort.Strings
pub sort_texts : List String → List String
sort_texts [] = []
sort_texts (x ∷ xs) = insert_text x (sort_texts xs)

pub bundle_key : List String → String
bundle_key ids = join (sort_texts ids) "+"

pub erase_all : List String → Dict Schedule → Dict Schedule
erase_all [] m = m
erase_all (k ∷ ks) m = erase_all ks (erase k m)

unfoldable pub invalidate : String → Engine → Engine
invalidate id e = elim (lookup id e.reverse_idx) [
  | none ↦ e
  | some keys ↦ record e {
    merged_cache = erase_all keys e.merged_cache;
    reverse_idx = erase id e.reverse_idx;
  }
]

unfoldable pub upsert_schedule : Schedule → Engine → Engine
upsert_schedule s e = invalidate s.id (record e { schedules = insert s.id s e.schedules })

unfoldable pub delete_schedule : String → Engine → Engine
delete_schedule id e = invalidate id (record e { schedules = erase id e.schedules })

pub get_schedule : Engine → String → Option Schedule
get_schedule e id = lookup id e.schedules

-- The schedules of a bundle, `none` as soon as one is missing.
abbrev cons_option : Option Schedule → Option (List Schedule) → Option (List Schedule)
cons_option (some s) (some ss) = some (s ∷ ss)
cons_option _ _ = none

pub resolve : Dict Schedule → List String → Option (List Schedule)
resolve m [] = some []
resolve m (id ∷ ids) = cons_option (lookup id m) (resolve m ids)

-- reverseIdx[id] = append(reverseIdx[id], key)
abbrev pub or_nil : Option (List String) → List String
or_nil none = []
or_nil (some ks) = ks

pub link : String → List String → Dict (List String) → Dict (List String)
link key [] m = m
link key (id ∷ ids) m = link key ids (insert id (or_nil (lookup id m) ++ key ∷ []) m)

abbrev pub has_failed : Merged → Bool
has_failed m = elim m.error [
  | some e ↦ true
  | none ↦ elim m.conflicts [ [] ↦ false | c ∷ cs ↦ true ]
]

pub remember : String → List String → Schedule → Engine → Engine
remember key ids c e = record e {
  merged_cache = insert key c e.merged_cache;
  reverse_idx = link key ids e.reverse_idx;
}

-- The merged schedule of a bundle and the engine with it in the cache; `none` is a failure, where
-- the engine is left alone.
abbrev pub merge_into : Engine → List String → Option (List Schedule) → Option (Schedule × Engine)
merge_into e ids none = none
merge_into e ids (some ss) =
    if has_failed (merge_schedules ss)
    then none
    else some (
      (merge_schedules ss).composite,
      remember (bundle_key ids) ids (merge_schedules ss).composite e,
    )

pub fetch_bundle : Engine → List String → Option (Schedule × Engine)
fetch_bundle e ids = elim (lookup (bundle_key ids) e.merged_cache) [
  | some c ↦ some (c, e)
  | none ↦ merge_into e ids (resolve e.schedules ids)
]

-- A failure closes: the action is block.
abbrev pub act : Locations → Engine → ℕ → Option (Schedule × Engine) → Action × Engine
act loc e now none = (Action.block, e)
act loc e now (some (c, e')) = (evaluate loc c now, e')

pub evaluate_bundle : Locations → List String → ℕ → Engine → Action × Engine
evaluate_bundle loc [] now e = (Action.allow, e)
evaluate_bundle loc (id ∷ ids) now e = act loc e now (fetch_bundle e (id ∷ ids))

evaluate_now : Locations → String → ℕ → Engine → Action × Engine
evaluate_now loc id now e =
    if str_eq id "" then (Action.allow, e) else evaluate_bundle loc (id ∷ []) now e
