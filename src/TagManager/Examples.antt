-- ===== src/TagManager/Examples.antt =====
-- Runs of the tag manager, and its theorem at a concrete input.
use lias_dis.Prelude.{◌≡◌, refl, [], ◌∷◌, select, exists}
use lias_dis.Prelude.Text.{to_lower, trim_space}
use lias_dis.TagManager.{
  builtin_tag, failed, is_builtin, new_manager, get_device_tag, ensure_tag_exists, update,
  update_in,
}
use lias_dis.TagManager.Builtin.{run, created, deleted, updated, run-builtin}

update-test : (update "kids" "x" "" new_manager).0 ≡ failed (builtin_tag "Kids Devices")
unfolding update update_in new_manager is_builtin
update-test = refl

get_device_tag-ensure_tag_exists-test :
    get_device_tag (ensure_tag_exists " Set_Top" new_manager) ("set_top" ∷ []) ≡ "set_top"
unfolding get_device_tag ensure_tag_exists new_manager to_lower trim_space exists
get_device_tag-ensure_tag_exists-test = refl

run-builtin_example :
    select is_builtin
      (run (created "Night" "#000" ∷ updated "kids" "x" "" ∷ deleted "night" ∷ []) new_manager).tags
    ≡ select is_builtin new_manager.tags
run-builtin_example =
    run-builtin (created "Night" "#000" ∷ updated "kids" "x" "" ∷ deleted "night" ∷ []) new_manager
