-- ===== src/LocalDevice.antt =====
-- `LocalDevice` of apps/lias/internal/sync/cache.go: a device of the discovery service with the
-- fields that LIAS lays over it. Its own `Tags` hides the device's, and methods of the embedded
-- `Device` still read the device's.
use lias_dis.Prelude.{ℕ, String, Option, List}
use lias_dis.Models.{Device, Policy}

pub record LocalDevice : Type 0 where
  pub device : Device
  pub tags : List String
  pub policy : Option Policy
  pub next_state_change : Option ℕ
