-- ===== src/SyncCache.antt =====
-- apps/lias/internal/sync/cache.go: the mirror of the inventory that LIAS enforces on, with the
-- tags, names and users that LIAS itself assigns. A map is a list of entries whose keys differ. No
-- slice of tags is changed in place, so slices that share memory are equal lists here.
pub mod HasTags
pub mod Tags
mod Examples
use Prim.Native.Nat.{◌^◌}
use lias_dis.Prelude.{
  ℕ, ◌+◌, ◌%◌, String, Bool, true, false, not, ◌&&◌, ◌||◌, Option, none, some, List, [], ◌∷◌,
  str_eq, if◌then◌else◌, exists,
}
use lias_dis.Prelude.Dict.{Dict, lookup, insert, erase}
use lias_dis.Prelude.Entries.{keys}
use lias_dis.Prelude.Text.{to_lower, trim_space}
use lias_dis.Models.{Device, Policy}
use lias_dis.LocalDevice.{LocalDevice}

pub record Cache : Type 0 where
  pub devices : Dict LocalDevice
  pub sticky_tags : Dict (List String)
  pub sticky_macs : Dict (List String)
  pub overrides : Dict String
  pub user_assignments : Dict String
  pub revision : ℕ

pub new_cache : Cache
new_cache = record {
  devices = [];
  sticky_tags = [];
  sticky_macs = [];
  overrides = [];
  user_assignments = [];
  revision = 1;
}

-- atomic.Uint64
unfoldable pub bump_revision : Cache → Cache
bump_revision c = record c { revision = (c.revision + 1) % 2 ^ 64 }

-- Every entry of the first map written into the second, in its order.
abbrev merge {ℓ} : {V : Type ℓ} → Dict V → Dict V → Dict V
merge [] m = m
merge ((k, v) ∷ l) m = merge l (insert k v m)

abbrev pub or_else {ℓ} : {A : Type ℓ} → A → Option A → A
or_else a none = a
or_else a (some b) = b

pub apply_local_metadata : Cache → LocalDevice → LocalDevice
apply_local_metadata c d = record d {
  device = record (d.device) {
    friendly_name = or_else d.device.friendly_name (lookup d.device.pdid c.overrides);
    user_id = or_else d.device.user_id (lookup d.device.pdid c.user_assignments);
  };
}

-- `len(tags) > 0` of a map's value
abbrev pub non_empty : Option (List String) → Option (List String)
non_empty (some (t ∷ ts)) = some (t ∷ ts)
non_empty _ = none

clean_mac : String → String
clean_mac mac = to_lower (trim_space mac)

-- The tags of the first MAC address that has any.
pub mac_tags : Dict (List String) → List String → Option (List String)
mac_tags m [] = none
mac_tags m (mac ∷ macs) = elim (non_empty (lookup (clean_mac mac) m)) [
  | some ts ↦ some ts
  | none ↦ mac_tags m macs
]

abbrev pub with_tags : LocalDevice → List String → LocalDevice
with_tags d ts = record d { device = record (d.device) { tags = ts }; tags = ts }

-- The last branch of `applyStickyTagLocked`, without tags that LIAS holds.
pub default_tags : LocalDevice → LocalDevice
default_tags d = elim d.tags [
  | [] ↦ elim d.device.tags [
    | [] ↦ with_tags d ("generic" ∷ [])
    | t ∷ ts ↦ record d { tags = d.device.tags }
  ]
  | t ∷ ts ↦ d
]

-- The device as changed, and the sticky tags: those of a MAC address are kept under the device too.
pub apply_sticky_tag :
    Dict (List String) → Dict (List String) → LocalDevice → LocalDevice × Dict (List String)
apply_sticky_tag macs sticky d = elim (non_empty (lookup d.device.pdid sticky)) [
  | some ts ↦ (with_tags d ts, sticky)
  | none ↦ elim (mac_tags macs d.device.macs) [
    | some ts ↦ (with_tags d ts, insert d.device.pdid ts sticky)
    | none ↦ (default_tags d, sticky)
  ]
]

-- `for _, d := range c.devices`
pub apply_metadata_all : Cache → Dict LocalDevice → Dict LocalDevice
apply_metadata_all c [] = []
apply_metadata_all c ((k, d) ∷ ds) = (k, apply_local_metadata c d) ∷ apply_metadata_all c ds

apply_sticky_all :
    Dict (List String)
    → Dict (List String)
    → Dict LocalDevice
    → Dict LocalDevice × Dict (List String)
apply_sticky_all macs sticky [] = ([], sticky)
apply_sticky_all macs sticky ((k, d) ∷ ds) =
    let (d', sticky') = apply_sticky_tag macs sticky d in
    let (ds', sticky'') = apply_sticky_all macs sticky' ds in ((k, d') ∷ ds', sticky'')

pub load_local_metadata : Dict String → Dict String → Cache → Cache
load_local_metadata overrides assignments c =
    let c' = record c {
      overrides = merge overrides c.overrides;
      user_assignments = merge assignments c.user_assignments;
    } in
    bump_revision (record c' { devices = apply_metadata_all c' c'.devices })

abbrev insert_mac : List String → Dict (List String) → String → Dict (List String)
insert_mac ts m mac = if str_eq (clean_mac mac) "" then m else insert (clean_mac mac) ts m

load_macs : Dict (List String) → Dict (List String) → Dict (List String)
load_macs [] m = m
load_macs ((mac, ts) ∷ l) m = load_macs l (insert_mac ts m mac)

load_sticky_tags : Dict (List String) → Dict (List String) → Cache → Cache
load_sticky_tags pdid_tags macs c =
    let ms = load_macs macs c.sticky_macs in
    let (ds, sticky) = apply_sticky_all ms (merge pdid_tags c.sticky_tags) c.devices in
    bump_revision (record c { devices = ds; sticky_tags = sticky; sticky_macs = ms })

-- A value moves to the new key unless that key has one, and the old key goes.
move_entry : String → String → Dict String → Dict String
move_entry old new m = elim (lookup old m) [
  | none ↦ m
  | some v ↦ elim (lookup new m) [ none ↦ erase old (insert new v m) | some w ↦ erase old m ]
]

move_tags : String → String → Dict (List String) → Dict (List String)
move_tags old new m = elim (lookup old m) [ none ↦ m | some ts ↦ erase old (insert new ts m) ]

pub migrate_device_identity : String → String → List String → Cache → Cache
migrate_device_identity old new migrated_macs c = bump_revision (record c {
  sticky_tags = move_tags old new c.sticky_tags;
  devices = erase old c.devices;
  overrides = move_entry old new c.overrides;
  user_assignments = move_entry old new c.user_assignments;
})

dedupe : List String → List String → List String
dedupe seen [] = []
dedupe seen (v ∷ vs) =
    let value = trim_space v in
    let skipped = dedupe seen vs in
    let kept = value ∷ dedupe (value ∷ seen) vs in
    if str_eq value "" || exists (λ s. str_eq s value) seen then skipped else kept

dedupe_strings : List String → List String
dedupe_strings values = dedupe [] values

-- `if value != "" { m[key] = value }`
abbrev insert_unless_blank : String → String → Dict String → Dict String
insert_unless_blank k v m = if str_eq v "" then m else insert k v m

insert_macs : List String → List String → Dict (List String) → Dict (List String)
insert_macs ts [] m = m
insert_macs ts (mac ∷ macs) m = insert_macs ts macs (insert_mac ts m mac)

abbrev or_kept : String → String → String
or_kept old new = if str_eq new "" then old else new

abbrev named : String → String → LocalDevice → LocalDevice
named name user d = record d {
  device = record (d.device) {
    friendly_name = or_kept d.device.friendly_name name;
    user_id = or_kept d.device.user_id user;
  };
}

-- The fields that LIAS owns, over the record of the surviving device.
abbrev overlay : List String → String → String → LocalDevice → LocalDevice
overlay [] name user d = named name user d
overlay (t ∷ ts) name user d = named name user (with_tags d (t ∷ ts))

-- The device under a key, when there is one, changed.
unfoldable pub alter : String → (LocalDevice → LocalDevice) → Dict LocalDevice → Dict LocalDevice
alter k f [] = []
alter k f ((i, d) ∷ m) =
    let rest = alter k f m in if str_eq i k then (i, f d) ∷ m else (i, d) ∷ rest

abbrev is_nil : List String → Bool
is_nil [] = true
is_nil (x ∷ xs) = false

pub reconcile_identity_migration :
    String → String → List String → List String → String → String → Cache → Cache
reconcile_identity_migration old new migrated_macs tags friendly_name user_id c =
    let clean = dedupe_strings tags in
    bump_revision (record c {
      sticky_tags =
          erase old (if is_nil clean then c.sticky_tags else insert new clean c.sticky_tags);
      sticky_macs =
          if is_nil clean then c.sticky_macs else insert_macs clean migrated_macs c.sticky_macs;
      overrides = insert_unless_blank new friendly_name (erase old c.overrides);
      user_assignments = insert_unless_blank new user_id (erase old c.user_assignments);
      devices = erase old (alter new (overlay clean friendly_name user_id) c.devices);
    })

-- `reflect.DeepEqual` of a device before and after is a parameter, and so is the comparison of the
-- tags: they decide the revision only.
abbrev pub Differ : Type 0
Differ = LocalDevice → LocalDevice → Bool

unfoldable pub get : Cache → String → Option LocalDevice
get c pdid = lookup pdid c.devices

list_pdids : Cache → List String
list_pdids c = keys c.devices

abbrev pub bump_if : Bool → Cache → Cache
bump_if b c = if b then bump_revision c else c

pub upsert_device : Differ → Device → Cache → Cache
upsert_device differ d c = if str_eq d.pdid "" then c else elim (lookup d.pdid c.devices) [
  | some existing ↦
      let (tagged, sticky) =
        apply_sticky_tag c.sticky_macs c.sticky_tags (record existing { device = d }) in
      let after = apply_local_metadata c tagged in
      bump_if (differ existing after)
        (record c { devices = insert d.pdid after c.devices; sticky_tags = sticky })
  | none ↦
      let fresh : LocalDevice = record {
        device = d;
        tags = [];
        policy = none;
        next_state_change = none;
      } in
      let (tagged, sticky) = apply_sticky_tag c.sticky_macs c.sticky_tags fresh in
      let after = apply_local_metadata c tagged in
      bump_revision (record c { devices = insert d.pdid after c.devices; sticky_tags = sticky })
]

abbrev pub is_some {ℓ} : {A : Type ℓ} → Option A → Bool
is_some none = false
is_some (some a) = true

pub remove_device : String → Cache → Cache
remove_device pdid c =
    if is_some (lookup pdid c.devices)
    then bump_revision (record c { devices = erase pdid c.devices })
    else c

-- A device changed in place, when there is one.
abbrev pub patch : String → (LocalDevice → LocalDevice) → Cache → Cache
patch pdid f c =
    if is_some (lookup pdid c.devices)
    then bump_revision (record c { devices = alter pdid f c.devices })
    else c

pub set_policy : String → Option Policy → Cache → Cache
set_policy pdid p c = patch pdid (λ d. record d { policy = p }) c

pub set_next_state_change : String → Option ℕ → Cache → Cache
set_next_state_change pdid t c = patch pdid (λ d. record d { next_state_change = t }) c

-- `if len(tags) == 0 { tags = []string{"generic"} }`
abbrev pub or_generic : List String → List String
or_generic [] = "generic" ∷ []
or_generic (t ∷ ts) = t ∷ ts

abbrev macs_of : Option LocalDevice → List String
macs_of none = []
macs_of (some d) = d.device.macs

pub set_tags : String → List String → Cache → Cache
set_tags pdid tags c = bump_revision (record c {
  sticky_tags = insert pdid (or_generic tags) c.sticky_tags;
  sticky_macs = insert_macs (or_generic tags) (macs_of (lookup pdid c.devices)) c.sticky_macs;
  devices = alter pdid (λ d. with_tags d (or_generic tags)) c.devices;
})

unfoldable pub set_friendly_name : String → String → Cache → Cache
set_friendly_name pdid name c = bump_revision (record c {
  overrides = insert pdid name c.overrides;
  devices =
      alter pdid (λ d. record d { device = record (d.device) { friendly_name = name } }) c.devices;
})

unfoldable pub set_user_id : String → String → Cache → Cache
set_user_id pdid user c = bump_revision (record c {
  user_assignments =
      if str_eq user "" then erase pdid c.user_assignments else insert pdid user c.user_assignments;
  devices = alter pdid (λ d. record d { device = record (d.device) { user_id = user } }) c.devices;
})

-- `==` on bool
abbrev bool_eq : Bool → Bool → Bool
bool_eq true b = b
bool_eq false b = not b

abbrev pub is_online : Option LocalDevice → Bool → Bool
is_online none online = true
is_online (some d) online = bool_eq d.device.online online

pub patch_device_online : String → Bool → Cache → Cache
patch_device_online pdid online c =
    if is_online (lookup pdid c.devices) online
    then c
    else bump_revision (record c {
      devices =
          alter pdid (λ d. record d { device = record (d.device) { online = online } }) c.devices;
    })
