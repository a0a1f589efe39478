-- ===== src/Correlation.antt =====
-- apps/discovery-service/internal/correlation/engine.go: the parts around `processObservation`,
-- which itself is not modelled: what sources may do, repeated observations, the devices that wait to
-- be stored, and the devices that wait to be announced online. The devices of the inventory are a
-- map by key, and its indices are left out. Times are in nanoseconds; the JSON of an event is a
-- parameter, and so is the equality of the lasting parts of what a source has said.
pub mod Announced
pub mod Deferred
mod Examples
use lias_dis.Prelude.{
  ℕ, ◌+◌, ◌-◌, ◌*◌, String, Bool, true, false, not, ◌&&◌, ◌||◌, Option, none, some, List, [], ◌∷◌,
  ◌++◌, ltb, leb, str_eq, if◌then◌else◌, exists, ◌==◌,
}
use lias_dis.Prelude.Dict.{Dict, lookup, insert, erase, keep}
use lias_dis.Prelude.Entries.{keys}
use lias_dis.Prelude.Text.{concat, join, trim_space}
use lias_dis.Models.{Device, IdentityTier, SourceMeta}
use lias_dis.Broker.{new_event}
use lias_dis.EventStream
use lias_dis.EventStream.{Stream}
use lias_dis.Schedule.Engine.{sort_texts}

pub record Engine : Type 0 where
  pub devices : Dict Device
  pub broker : Stream
  pub has_store : Bool
  pub last_seen_obs : Dict ℕ
  pub dirty_devices : List String
  pub deferred_online : Dict ℕ

pub new_engine : Engine
new_engine = record {
  devices = [];
  broker = EventStream.new_stream;
  has_store = false;
  last_seen_obs = [];
  dirty_devices = [];
  deferred_online = [];
}

abbrev pub second : ℕ
second = 1_000_000_000

abbrev minute : ℕ
minute = 60_000_000_000

pub can_update_current_ip : String → Bool
can_update_current_ip source =
    str_eq source "netlink" || (str_eq source "dhcp" || str_eq source "openwrt_neigh")

pub can_trigger_online : String → Bool
can_trigger_online source =
    str_eq source "netlink" || (str_eq source "openwrt_ap" || str_eq source "openwrt_neigh")

abbrev is_l2 : String → Bool
is_l2 s = str_eq s "netlink" || (str_eq s "openwrt_ap" || str_eq s "openwrt_neigh")

abbrev is_l3 : String → Bool
is_l3 s = str_eq s "dhcp" || (str_eq s "pihole" || str_eq s "openwrt_neigh")

pub has_l2_and_l3_confirmation : List String → Bool
has_l2_and_l3_confirmation sources = exists is_l2 sources && exists is_l3 sources

-- The fields of an observation that its key holds.
pub record Observation : Type 0 where
  pub source : String
  pub group : String
  pub online : Bool
  pub services : List String

abbrev text_of : Bool → String
text_of true = "true"
text_of false = "false"

pub observation_key : Observation → String → String → String → String
observation_key obs mac ip host =
    join
      (obs.source
        ∷ obs.group
        ∷ mac
        ∷ ip
        ∷ host
        ∷ text_of obs.online
        ∷ join (sort_texts obs.services) ","
        ∷ [])
      "|"

abbrev is_recent : ℕ → Option ℕ → Bool
is_recent now none = false
is_recent now (some last) = ltb now (last + 2 * second)

pub is_duplicate_observation : ℕ → Observation → String → String → String → Engine → Bool × Engine
is_duplicate_observation now obs mac ip host e =
    let key = observation_key obs mac ip host in
    if is_recent now (lookup key e.last_seen_obs)
    then (true, e)
    else (false, record e { last_seen_obs = insert key now e.last_seen_obs })

-- One tick of `runDedupSweep`.
pub dedup_sweep : ℕ → Engine → Engine
dedup_sweep now e = record e {
  last_seen_obs = keep (λ t. leb now (t + 5 * minute)) e.last_seen_obs;
}

-- A set, as the list of its keys.
abbrev set_insert : String → List String → List String
set_insert x xs = if exists (λ y. str_eq y x) xs then xs else xs ++ x ∷ []

pub mark_dirty : String → Engine → Engine
mark_dirty pdid e =
    if not e.has_store || str_eq pdid ""
    then e
    else record e { dirty_devices = set_insert pdid e.dirty_devices }

abbrev with_device : Option Device → List Device → List Device
with_device none ds = ds
with_device (some d) ds = d ∷ ds

pub devices_of : Dict Device → List String → List Device
devices_of m [] = []
devices_of m (k ∷ ks) = with_device (lookup k m) (devices_of m ks)

abbrev mark_all : List Device → List String → List String
mark_all [] xs = xs
mark_all (d ∷ ds) xs = mark_all ds (set_insert d.pdid xs)

abbrev saves : List Device → Bool
saves [] = false
saves (d ∷ ds) = true

-- The devices that are handed to the store, and the engine after its answer, `saved`.
pub flush_dirty : Bool → Engine → List Device × Engine
flush_dirty saved e =
    let devs = devices_of e.devices e.dirty_devices in
    if e.has_store && saves devs
    then (devs, record e { dirty_devices = if saved then [] else mark_all devs [] })
    else ([], record e { dirty_devices = [] })

abbrev pub Marshal : Type 0
Marshal = Device → String

pub promote_device : Marshal → ℕ → IdentityTier → String → String → Device → Engine → Engine
promote_device marshal now new_tier new_anchor canonical_host d e =
    let d' = record d {
      identity_tier = new_tier;
      identity_anchor = new_anchor;
      canonical_hostname = canonical_host;
    } in
    let marked = mark_dirty d.pdid (record e { devices = insert d.pdid d' e.devices }) in
    record marked {
      broker =
          EventStream.broadcast (new_event now "device.fingerprint_updated" d.pdid (marshal d'))
            marked.broker;
    }

abbrev pub is_sooner : ℕ → Option ℕ → Bool
is_sooner deadline none = true
is_sooner deadline (some existing) = ltb deadline existing

unfoldable pub schedule_deferred_online : ℕ → ℕ → String → Engine → Engine
schedule_deferred_online now delay pdid e =
    if str_eq pdid ""
    then e
    else if is_sooner (now + delay) (lookup pdid e.deferred_online)
    then record e { deferred_online = insert pdid (now + delay) e.deferred_online }
    else e

abbrev pub awaits : Device → Bool
awaits d = not d.online && not (is_nil d.pending_online_obs)
  where
    is_nil : List String → Bool
    is_nil [] = true
    is_nil (x ∷ xs) = false

unfoldable pub onlined : Device → Device
onlined d = record d { online = true; pending_online_obs = [] }

abbrev pub bring_online : Marshal → ℕ → Device → Engine → Engine
bring_online marshal now d e = record e {
  devices = insert d.pdid (onlined d) e.devices;
  broker =
      EventStream.broadcast (new_event now "device.online" d.pdid (marshal (onlined d))) e.broker;
}

pub announce : Marshal → ℕ → String → Engine → Engine
announce marshal now pdid e = elim (lookup pdid e.devices) [
  | none ↦ e
  | some d ↦ if awaits d then bring_online marshal now d e else e
]

unfoldable pub announce_all : Marshal → ℕ → List String → Engine → Engine
announce_all marshal now [] e = e
announce_all marshal now (k ∷ ks) e = announce_all marshal now ks (announce marshal now k e)

-- The keys whose deadline is not after `now`, and the map without them.
unfoldable pub due_keys : ℕ → Dict ℕ → List String
due_keys now [] = []
due_keys now ((k, t) ∷ m) = let rest = due_keys now m in if leb t now then k ∷ rest else rest

unfoldable pub flush_deferred_online : Marshal → ℕ → Engine → Engine
flush_deferred_online marshal now e =
    announce_all marshal now (due_keys now e.deferred_online)
      (record e { deferred_online = keep (λ t. not (leb t now)) e.deferred_online })

pub normalized_observation_time : ℕ → ℕ → ℕ
normalized_observation_time now ts = if ts == 0 || ltb (now + minute) ts then now else ts

abbrev changes_meta : (String → String → Bool) → SourceMeta → Option SourceMeta → Bool
changes_meta same current none = true
changes_meta same current (some previous) =
    not (previous.confidence == current.confidence) || not (same previous.raw current.raw)

-- The device with what the source has said, and whether that is new.
record_observation_source :
    (String → String → Bool) → String → ℕ → String → ℕ → Device → Bool × Device
record_observation_source same source confidence raw seen_at d =
    let current : SourceMeta = record {
      source = source;
      confidence = confidence;
      timestamp = seen_at;
      raw = raw;
    } in
    if str_eq (trim_space source) "" then (false, d) else (
      changes_meta same current (lookup source d.source_info),
      record d { source_info = insert source current d.source_info },
    )
