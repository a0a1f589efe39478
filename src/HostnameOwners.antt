-- ===== src/HostnameOwners.antt =====
-- The part of apps/discovery-service/internal/inventory/cache.go that says which device owns a
-- hostname: the map of the owners, and the devices by PDID that it looks into. The indices by MAC,
-- IP and device ID, whose pointers are shared with the map of the devices, are left out. A call of
-- the listener is a value that the operation returns. Times are in nanoseconds; a time ahead of the
-- clock gives a negative duration in Go and zero here, which no test below tells apart.
pub mod Exclusive
mod Examples
use lias_dis.Prelude.{
  ℕ, ◌-◌, ◌*◌, String, Bool, true, false, not, ◌&&◌, ◌||◌, Option, none, some, List, [], ◌∷◌, ◌++◌,
  str_eq, ltb, if◌then◌else◌,
}
use lias_dis.Prelude.Dict.{Dict, lookup, insert, erase}
use lias_dis.Models.{Device, touch}

abbrev pub second : ℕ
second = 1_000_000_000

abbrev offline_ttl : ℕ
offline_ttl = 86_400 * second

abbrev stale_threshold : ℕ
stale_threshold = 180 * second

abbrev five_minutes : ℕ
five_minutes = 300 * second

pub data HostnameAcquisitionResult : Type 0 where
  acquire_success acquire_reject acquire_provisional : HostnameAcquisitionResult

pub record Cache : Type 0 where
  pub devices : Dict Device
  pub hostname_owners : Dict String

-- listener(canonicalHost, pdid, isDelete)
pub record Notice : Type 0 where
  pub host : String
  pub pdid : String
  pub is_delete : Bool

pub record Acquired : Type 0 where
  pub result : HostnameAcquisitionResult
  pub cache : Cache
  pub notices : List Notice

load_hostname_owners : Dict String → Cache → Cache
load_hostname_owners [] c = c
load_hostname_owners ((host, pdid) ∷ m) c =
    let c' =
      if not (str_eq host "") && not (str_eq pdid "")
      then record c { hostname_owners = insert host pdid c.hostname_owners }
      else c in
    load_hostname_owners m c'

-- owner.Online && time.Since(owner.LastSeen) < 5*time.Minute
unfoldable pub is_active : ℕ → Device → Bool
is_active now d = d.online && ltb (now - d.last_seen) five_minutes

-- !owner.Online && time.Since(owner.LastSeen) > 24*time.Hour
unfoldable pub is_gone : ℕ → Device → Bool
is_gone now d = not d.online && ltb offline_ttl (now - d.last_seen)

abbrev pub left : HostnameAcquisitionResult → Cache → Acquired
left r c = record { result = r; cache = c; notices = [] }

abbrev pub given : HostnameAcquisitionResult → String → String → Cache → Acquired
given r host pdid c = record {
  result = r;
  cache = record c { hostname_owners = insert host pdid c.hostname_owners };
  notices = record { host = host; pdid = pdid; is_delete = false } ∷ [];
}

-- The answer when the name is owned by another device than the one that asks.
pub contest : ℕ → String → String → Option Device → Cache → Acquired
contest now host pdid none c = given acquire_success host pdid c
contest now host pdid (some owner) c =
    if is_gone now owner
    then given acquire_success host pdid c
    else if is_active now owner
    then left acquire_reject c
    else given acquire_provisional host pdid c

pub acquire_hostname : ℕ → String → String → Cache → Acquired
acquire_hostname now host pdid c =
    if str_eq host "" || str_eq pdid ""
    then left acquire_reject c
    else elim (lookup host c.hostname_owners) [
      | none ↦ given acquire_success host pdid c
      | some owner ↦
          if str_eq owner pdid
          then left acquire_success c
          else contest now host pdid (lookup owner c.devices) c
    ]

abbrev active_device : ℕ → Option Device → Bool
active_device now none = false
active_device now (some d) = is_active now d

pub is_hostname_actively_owned : ℕ → String → Cache → Bool
is_hostname_actively_owned now host c =
    if str_eq host "" then false else elim (lookup host c.hostname_owners) [
      | none ↦ false
      | some owner ↦ active_device now (lookup owner c.devices)
    ]

release_hostname : String → String → Cache → Cache × List Notice
release_hostname host pdid c =
    if str_eq host "" || str_eq pdid "" then (c, []) else elim (lookup host c.hostname_owners) [
      | none ↦ (c, [])
      | some owner ↦
          if str_eq owner pdid
          then (
            record c { hostname_owners = erase host c.hostname_owners },
            record { host = host; pdid = pdid; is_delete = true } ∷ [],
          )
          else (c, [])
    ]

pub get_hostname_owner : String → Cache → Option String
get_hostname_owner host c = if str_eq host "" then none else lookup host c.hostname_owners

is_stale : ℕ → Device → Bool
is_stale now d = d.online && ltb stale_threshold (now - d.last_seen)

-- The devices after the sweep, and the PDIDs of those that it took offline.
demote : ℕ → Dict Device → Dict Device × List String
demote now [] = ([], [])
demote now ((pdid, d) ∷ m) =
    let (rest, changed) = demote now m in
    if is_stale now d
    then ((pdid, record d { online = false }) ∷ rest, pdid ∷ changed)
    else ((pdid, d) ∷ rest, changed)

demote_stale : ℕ → Cache → Cache × List String
demote_stale now c =
    let (ds, changed) = demote now c.devices in (record c { devices = ds }, changed)

touch_last_seen : String → ℕ → Cache → Cache
touch_last_seen pdid ts c = elim (lookup pdid c.devices) [
  | none ↦ c
  | some d ↦ record c { devices = insert pdid (touch d ts) c.devices }
]

-- The owners after a device goes away, and the name that it gives back.
give_back : String → Device → Dict String → Dict String × List Notice
give_back pdid d owners =
    if str_eq d.canonical_hostname ""
    then (owners, [])
    else elim (lookup d.canonical_hostname owners) [
      | none ↦ (owners, [])
      | some owner ↦
          if str_eq owner pdid
          then (
            erase d.canonical_hostname owners,
            record { host = d.canonical_hostname; pdid = pdid; is_delete = true } ∷ [],
          )
          else (owners, [])
    ]

-- `Delete`, but for the indices
pub delete : String → Cache → Cache × List Notice
delete pdid c = elim (lookup pdid c.devices) [
  | none ↦ (c, [])
  | some d ↦
      let (owners, notices) = give_back pdid d c.hostname_owners in
      (record { devices = erase pdid c.devices; hostname_owners = owners }, notices)
]

abbrev Purged : Type 0
Purged = Dict Device × Dict String × List Notice

purge : ℕ → Dict Device → Dict String → Purged
purge now [] owners = ([], owners, [])
purge now ((pdid, d) ∷ m) owners =
    let (owners', gone) = give_back pdid d owners in
    let (rest, owners'', notices) = purge now m owners' in
    let (kept, kept_owners, kept_notices) = purge now m owners in
    if is_gone now d
    then (rest, owners'', gone ++ notices)
    else ((pdid, d) ∷ kept, kept_owners, kept_notices)

-- `purgeOffline`, but for the indices
purge_offline : ℕ → Cache → Cache × List Notice
purge_offline now c =
    let (ds, owners, notices) = purge now c.devices c.hostname_owners in
    (record { devices = ds; hostname_owners = owners }, notices)
