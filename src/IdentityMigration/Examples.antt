-- ===== src/IdentityMigration/Examples.antt =====
-- The theorem on a store with two devices.
use lias_dis.Prelude.{◌≡◌, refl, ◌⊎◌, none, some, [], ◌∷◌, true}
use lias_dis.Prelude.Dict.{lookup}
use lias_dis.Models.{Action, PolicyType}
use lias_dis.Samples.{rule}
use lias_dis.IdentityMigration.{Tables, Result, Details, recorded, migrate_identity_state}
use lias_dis.IdentityMigration.Replay.{IsMoved, migrate_identity_state-IsMoved}

abbrev plain : Details
plain winner loser retained = winner.id

abbrev tables : Tables
tables = record {
  device_tags = record { pdid = "old"; tag_id = "kids"; mac = "" } ∷ [];
  device_overrides = ("old", "Tablet") ∷ ("new", "") ∷ [];
  device_users = [];
  policies = ("pol_pause_old", rule "pol_pause_old" PolicyType.device "old" Action.block) ∷ [];
  redirects = ("older", "old") ∷ [];
  migrations = [];
  conflicts = [];
}

migrate_identity_state-IsMoved_example :
    (migrate_identity_state plain 5 "old" "new" tables ≡ (none, tables))
    ⊎ ((r : Result) × ((migrate_identity_state plain 5 "old" "new" tables).0 ≡ some r)
        × IsMoved "old" "new" tables (migrate_identity_state plain 5 "old" "new" tables).1
        × (migrate_identity_state plain 9 "old" "new"
              (migrate_identity_state plain 5 "old" "new" tables).1
            ≡ (
              some (record r { replayed = true }),
              (migrate_identity_state plain 5 "old" "new" tables).1,
            )))
unfolding lookup recorded
migrate_identity_state-IsMoved_example =
    migrate_identity_state-IsMoved plain 5 9 "old" "new" tables refl refl (tt, tt) (refl, tt)
