-- ===== src/Debounce.antt =====
-- apps/discovery-service/internal/correlation/debounce.go: changes that wait until enough sources
-- have seen them. A Go set, a map into bool, is the list of its keys; the map of the source groups
-- may be nil, which is `none`, and a write to it is the panic that `submit` returns as `none`. The
-- calls of the store and of the broker are values that `flush` returns. Times are in nanoseconds.
pub mod Sources
pub mod Counted
pub mod Flushed
mod Examples
use lias_dis.Prelude.{
  ℕ, ◌-◌, ◌*◌, String, Bool, true, false, not, ◌&&◌, ◌||◌, Option, none, some, List, [], ◌∷◌, ◌++◌,
  str_eq, ltb, leb, length, if◌then◌else◌, exists,
}
use lias_dis.Prelude.Dict.{Dict, lookup, insert, erase}
use lias_dis.Prelude.Text.{concat, join}
use lias_dis.Hostname.{canonicalize_hostname}

-- models.EventType, a string, and two of its values
abbrev hostname_changed : String
hostname_changed = "device.hostname_changed"

abbrev pub device_online : String
device_online = "device.online"

abbrev ip_changed : String
ip_changed = "device.ip_changed"

pub record DeviceEventPayload : Type 0 where
  pub pdid : String
  pub mac : String
  pub ip : String
  pub hostname : String
  pub canonical_hostname : String
  pub old_mac : String
  pub old_ip : String
  pub old_host : String
  pub old_canonical_hostname : String
  pub confirmed_by : List String
  pub timestamp : ℕ

pub record PendingChange : Type 0 where
  pub pdid : String
  pub event_type : String
  pub payload : DeviceEventPayload
  pub first_seen : ℕ
  pub last_seen : ℕ
  pub confirmations : ℕ
  pub required_confirmations : ℕ
  pub sources : List String
  pub source_groups : Option (List String)
  pub confirmed_by : List String

pub record Debouncer : Type 0 where
  pub has_store : Bool
  pub pending : Dict PendingChange
  pub recent_values : Dict String
  pub recent_val_time : Dict ℕ

pub new_debouncer : Debouncer
new_debouncer = record { has_store = false; pending = []; recent_values = []; recent_val_time = [] }

set_store : Debouncer → Debouncer
set_store d = record d { has_store = true }

abbrev pub second : ℕ
second = 1_000_000_000

hostnames_are_equivalent : String → String → Bool
hostnames_are_equivalent a b =
    let ca = canonicalize_hostname a in
    let cb = canonicalize_hostname b in if str_eq ca "" || str_eq cb "" then false else str_eq ca cb

pub required : String → ℕ
required event_type =
    if str_eq event_type hostname_changed || str_eq event_type device_online then 2 else 1

abbrev pub key_of : String → String → String
key_of pdid event_type = concat (pdid ∷ ":" ∷ event_type ∷ [])

-- A time of a map that has none is Go's zero time.
abbrev or_zero : Option ℕ → ℕ
or_zero none = 0
or_zero (some t) = t

abbrev seen_before : (String → Bool) → ℕ → ℕ → Option String → Option ℕ → Bool
seen_before same within now none t = false
seen_before same within now (some prev) t = same prev && ltb (now - or_zero t) within

-- The switch of `Submit`: `none` when the change takes back one that was just made, and otherwise
-- the debouncer with the old value remembered.
pub note_value : ℕ → String → String → (String → Bool) → ℕ → Debouncer → Option Debouncer
note_value now val_key old same within d =
    if seen_before same within now (lookup val_key d.recent_values)
      (lookup val_key d.recent_val_time)
    then none
    else some (record d {
      recent_values = insert val_key old d.recent_values;
      recent_val_time = insert val_key now d.recent_val_time;
    })

pub suppress : ℕ → String → String → DeviceEventPayload → Debouncer → Option Debouncer
suppress now pdid event_type payload d =
    if str_eq event_type hostname_changed
    then note_value now (concat (pdid ∷ ":hostname" ∷ [])) payload.old_host
        (hostnames_are_equivalent payload.hostname) (60 * second) d
    else if str_eq event_type ip_changed
    then note_value now (concat (pdid ∷ ":ip" ∷ [])) payload.old_ip (str_eq payload.ip)
        (30 * second) d
    else some d

pub fresh : ℕ → String → String → DeviceEventPayload → PendingChange
fresh now pdid event_type payload = record {
  pdid = pdid;
  event_type = event_type;
  payload = payload;
  first_seen = now;
  last_seen = now;
  confirmations = 0;
  required_confirmations = required event_type;
  sources = [];
  source_groups = some [];
  confirmed_by = [];
}

pub add_key : String → List String → List String
add_key k ks = if exists (λ j. str_eq j k) ks then ks else ks ++ k ∷ []

-- p.SourceGroups[group] = true, when there is a group
pub add_group : String → Option (List String) → Option (Option (List String))
add_group group gs =
    if str_eq group ""
    then some gs
    else elim gs [ none ↦ none | some ks ↦ some (some (add_key group ks)) ]

abbrev pub count : Option (List String) → List String → ℕ
count none sources = length sources
count (some []) sources = length sources
count (some (g ∷ gs)) sources = length (g ∷ gs)

abbrev pub with_source : String → PendingChange → PendingChange
with_source source p = record p {
  sources = add_key source p.sources;
  confirmed_by =
      if exists (λ j. str_eq j source) p.sources
      then p.confirmed_by
      else p.confirmed_by ++ source ∷ [];
}

abbrev pub counted : PendingChange → Option (List String) → PendingChange
counted p gs = record p { source_groups = gs; confirmations = count gs p.sources }

pub confirm : ℕ → String → String → PendingChange → Option PendingChange
confirm now source group p = elim (add_group group p.source_groups) [
  | none ↦ none
  | some gs ↦ some (counted (with_source source (record p { last_seen = now })) gs)
]

abbrev pub or_fresh : PendingChange → Option PendingChange → PendingChange
or_fresh p none = p
or_fresh p (some q) = q

abbrev put : String → Debouncer → Option PendingChange → Option Debouncer
put key d none = none
put key d (some p) = some (record d { pending = insert key p d.pending })

-- `none` is the panic of a write to a nil map.
pub submit :
    ℕ → String → String → String → String → DeviceEventPayload → Debouncer → Option Debouncer
submit now pdid event_type source group payload d = elim (suppress now pdid event_type payload d) [
  | none ↦ some (record d { pending = erase (key_of pdid event_type) d.pending })
  | some d' ↦ put (key_of pdid event_type) d' (
      confirm now source group
        (or_fresh (fresh now pdid event_type payload) (lookup (key_of pdid event_type) d'.pending)))
]

-- One step of the range of `MigratePDID` over the entries there were.
pub migrate : String → String → Dict PendingChange → Dict PendingChange → Dict PendingChange
migrate old new [] m = m
migrate old new ((key, p) ∷ l) m =
    if str_eq p.pdid old
    then migrate old new l
        (erase key (insert (key_of new p.event_type) (record p { pdid = new }) m))
    else migrate old new l m

pub migrate_pdid : String → String → Debouncer → Debouncer
migrate_pdid old new d = record d { pending = migrate old new d.pending d.pending }

-- p.Confirmations >= p.RequiredConfirmations || now.Sub(p.FirstSeen) > 10*time.Second
pub is_ready : ℕ → PendingChange → Bool
is_ready now p =
    leb p.required_confirmations p.confirmations || ltb (10 * second) (now - p.first_seen)

-- models.NewEvent, but for its time and the marshalling
pub record Event : Type 0 where
  pub type : String
  pub pdid : String
  pub payload : DeviceEventPayload

abbrev pub event_of : PendingChange → Event
event_of p = record {
  type = p.event_type;
  pdid = p.pdid;
  payload = record (p.payload) { confirmed_by = p.confirmed_by };
}

-- The changes that stay pending, and the events and the changes in the range's order.
pub sift : ℕ → Dict PendingChange → Dict PendingChange × List PendingChange
sift now [] = ([], [])
sift now ((key, p) ∷ m) =
    let (rest, ready) = sift now m in
    if is_ready now p then (rest, p ∷ ready) else ((key, p) ∷ rest, ready)

pub events_of : List PendingChange → List Event
events_of [] = []
events_of (p ∷ ps) = event_of p ∷ events_of ps

changes_of : Dict PendingChange → List PendingChange
changes_of [] = []
changes_of ((key, p) ∷ m) = p ∷ changes_of m

-- The keys of `recentValTime` that are older than five minutes.
forget : ℕ → Dict ℕ → Dict String → Dict ℕ → Dict String × Dict ℕ
forget now [] values times = (values, times)
forget now ((k, t) ∷ l) values times =
    if ltb (300 * second) (now - t)
    then forget now l (erase k values) (erase k times)
    else forget now l values times

pub record Flush : Type 0 where
  pub debouncer : Debouncer
  pub events : List Event
  -- What is written to the store, and what is then deleted from it, as one batch.
  pub saved : List PendingChange
  pub deleted : List PendingChange

pub flush : ℕ → Debouncer → Flush
flush now d =
    let (rest, ready) = sift now d.pending in
    let (values, times) = forget now d.recent_val_time d.recent_values d.recent_val_time in
    record {
      debouncer = record d { pending = rest; recent_values = values; recent_val_time = times };
      events = events_of ready;
      saved = if d.has_store then changes_of d.pending else [];
      deleted = if d.has_store then ready else [];
    }

-- A row of the pending changes that are stored, its payload as `json.Unmarshal` reads it and its
-- sources as `strings.Split` cuts them, which are no code of the repository.
pub record PendingEventRecord : Type 0 where
  pub pdid : String
  pub event_type : String
  pub payload : Option DeviceEventPayload
  pub first_seen : ℕ
  pub last_seen : ℕ
  pub confirmations : ℕ
  pub sources : List String

pub split_sources : List String → List String
split_sources [] = []
split_sources (s ∷ ss) = let rest = split_sources ss in if str_eq s "" then rest else s ∷ rest

pub add_keys : List String → List String → List String
add_keys ks [] = ks
add_keys ks (s ∷ ss) = add_keys (add_key s ks) ss

abbrev loaded : PendingEventRecord → DeviceEventPayload → PendingChange
loaded r payload = record {
  pdid = r.pdid;
  event_type = r.event_type;
  payload = payload;
  first_seen = r.first_seen;
  last_seen = r.last_seen;
  confirmations = r.confirmations;
  required_confirmations = required r.event_type;
  sources = add_keys [] (split_sources r.sources);
  source_groups = none;
  confirmed_by = split_sources r.sources;
}

pub load_pending : List PendingEventRecord → Debouncer → Debouncer
load_pending [] d = d
load_pending (r ∷ rs) d = load_pending rs (elim r.payload [
  | none ↦ d
  | some payload ↦ record d {
    pending = insert (key_of r.pdid r.event_type) (loaded r payload) d.pending;
  }
])
