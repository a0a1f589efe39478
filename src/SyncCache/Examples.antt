-- ===== src/SyncCache/Examples.antt =====
-- Runs of the cache of devices, and its theorem at a concrete input.
use lias_dis.Prelude.{◌≡◌, refl, false, some, [], ◌∷◌}
use lias_dis.Prelude.Dict.{lookup, insert}
use lias_dis.Samples.{blank, tagged}
use lias_dis.SyncCache.{
  Differ, new_cache, set_tags, upsert_device, apply_sticky_tag, mac_tags, default_tags,
  apply_local_metadata, bump_revision, get,
}
use lias_dis.SyncCache.HasTags.{HasTags}
use lias_dis.SyncCache.Tags.{run, synced, removed, run-set_tags}

abbrev same : Differ
same d e = false

-- A device that is new, and of which nothing is known, is generic.
get-upsert_device-test :
    get (upsert_device same (blank "p1") new_cache) "p1" ≡ some (tagged "p1" ("generic" ∷ []))
unfolding get upsert_device apply_sticky_tag mac_tags default_tags apply_local_metadata
    bump_revision new_cache lookup insert
get-upsert_device-test = refl

run-set_tags_example : HasTags "p1" ("kids" ∷ []) (
    run same
      (synced (blank "p1") ∷ removed "p2" ∷ synced (blank "p1") ∷ [])
      (set_tags "p1" ("kids" ∷ []) new_cache))
run-set_tags_example =
    run-set_tags same "p1" ("kids" ∷ [])
      (synced (blank "p1") ∷ removed "p2" ∷ synced (blank "p1") ∷ []) new_cache
