-- ===== src/SyncCache/HasTags.antt =====
-- A device with the tags that LIAS holds for it, and what keeps it so.
use lias_dis.Prelude.{
  String, ◌≡◌, refl, sym, ap, subst, ◌∙◌, inl, inr, Bool, true, false, Option, none, some, List, [],
  ◌∷◌, arith, str_eq, eq_iff, if◌then◌else◌, Bool-cases, Option-cases,
}
use lias_dis.Prelude.Dict.{Dict, lookup, insert, erase, lookup-insert, lookup-erase}
use lias_dis.Models.{Device}
use lias_dis.LocalDevice.{LocalDevice}
use lias_dis.SyncCache.{
  Cache, Differ, bump_revision, bump_if, apply_local_metadata, apply_metadata_all, apply_sticky_tag,
  non_empty, mac_tags, alter, upsert_device,
}

abbrev pub map_option : (LocalDevice → LocalDevice) → Option LocalDevice → Option LocalDevice
map_option f none = none
map_option f (some d) = some (f d)

pub some-eq : {a b : LocalDevice} → some a ≡ some b → a ≡ b
some-eq e = cc

pub lookup-alter :
    (k j : String) (f : LocalDevice → LocalDevice) (m : Dict LocalDevice)
    → lookup j (alter k f m) ≡ (if str_eq k j then map_option f (lookup j m) else lookup j m)
unfolding lookup alter
lookup-alter k j f [] = ground arith
lookup-alter k j f ((i, d) ∷ m) =
    ground (arith, eq_iff k j, eq_iff i k, eq_iff i j, lookup-alter k j f m)

-- The tags `ts` are held for the device `pdid`, and the device carries them whenever it is there.
unfoldable pub HasTags : String → List String → Cache → Type 0
HasTags pdid ts c =
    (lookup pdid c.sticky_tags ≡ some ts)
    × ((d : LocalDevice) → lookup pdid c.devices ≡ some d → (d.tags ≡ ts) × (d.device.tags ≡ ts))

pub apply_local_metadata-tags :
    (c : Cache) (d : LocalDevice)
    → ((apply_local_metadata c d).tags ≡ d.tags)
      × ((apply_local_metadata c d).device.tags ≡ d.device.tags)
unfolding apply_local_metadata
apply_local_metadata-tags c d = (refl, refl)

pub lookup-apply_metadata_all :
    (c : Cache) (k : String) (m : Dict LocalDevice)
    → lookup k (apply_metadata_all c m) ≡ map_option (apply_local_metadata c) (lookup k m)
unfolding lookup apply_metadata_all
lookup-apply_metadata_all c k [] = refl
lookup-apply_metadata_all c k ((i, d) ∷ m) = ground (arith, lookup-apply_metadata_all c k m)

-- Neither a raised revision nor a change of the other parts matters.
HasTags-same :
    (pdid : String) (ts : List String) (c c' : Cache)
    → c'.sticky_tags ≡ c.sticky_tags
    → c'.devices ≡ c.devices
    → HasTags pdid ts c
    → HasTags pdid ts c'
unfolding HasTags
HasTags-same pdid ts c c' s d (h, k) =
    (ap (lookup pdid) s ∙ h, λ x e. k x (sym (ap (lookup pdid) d) ∙ e))

-- A change in place of some device that leaves tags alone.
pub HasTags-alter :
    (pdid : String) (ts : List String) (c c' : Cache) (k : String) (f : LocalDevice → LocalDevice)
    → ((d : LocalDevice) → ((f d).tags ≡ d.tags) × ((f d).device.tags ≡ d.device.tags))
    → c'.sticky_tags ≡ c.sticky_tags
    → c'.devices ≡ alter k f c.devices
    → HasTags pdid ts c
    → HasTags pdid ts c'
unfolding HasTags
HasTags-alter pdid ts c c' k f keeps s x (h, held) = (
  ap (lookup pdid) s ∙ h,
  λ d e. altered d (sym (lookup-alter k pdid f c.devices) ∙ sym (ap (lookup pdid) x) ∙ e),
)
  where
    altered :
        (d : LocalDevice)
        → (if str_eq k pdid then map_option f (lookup pdid c.devices) else lookup pdid c.devices)
          ≡ some d
        → (d.tags ≡ ts) × (d.device.tags ≡ ts)
    altered d e = elim (Bool-cases (str_eq k pdid)) [
      | inr n ↦ held d (rw n at e)
      | inl y ↦ elim (Option-cases (lookup pdid c.devices)) [
        | inl z ↦ let q = rw (y, z) at e in cc
        | inr (d', z) ↦
            let q : f d' ≡ d = some-eq (rw (y, z) at e) in
            let (a, b) = held d' z in
            let (v, w) = keeps d' in
            (sym (ap (λ r. r.tags) q) ∙ v ∙ a, sym (ap (λ r. r.device.tags) q) ∙ w ∙ b)
      ]
    ]

-- What a sync of some device does to the held tags of `pdid`.
HasTags-apply_sticky_tag :
    (pdid : String) (t : String) (ts : List String) (macs sticky : Dict (List String))
    (d : LocalDevice)
    → lookup pdid sticky ≡ some (t ∷ ts)
    → (lookup pdid (apply_sticky_tag macs sticky d).1 ≡ some (t ∷ ts))
      × ((str_eq d.device.pdid pdid ≡ true)
          → ((apply_sticky_tag macs sticky d).0.tags ≡ t ∷ ts)
            × ((apply_sticky_tag macs sticky d).0.device.tags ≡ t ∷ ts))
unfolding apply_sticky_tag
HasTags-apply_sticky_tag pdid t ts macs sticky d h = elim (Bool-cases (str_eq d.device.pdid pdid)) [
  | inl y ↦
      let own : lookup d.device.pdid sticky ≡ some (t ∷ ts) =
        ap (λ k. lookup k sticky) ((eq_iff d.device.pdid pdid).0 y) ∙ h in
      rw (own, apply_sticky_tag) (h, λ _. (refl, refl))
  | inr n ↦ (kept n, λ y. absurd (ground (arith, n, y)))
]
  where
    kept :
        str_eq d.device.pdid pdid ≡ false
        → lookup pdid (apply_sticky_tag macs sticky d).1 ≡ some (t ∷ ts)
    kept n = elim (Option-cases (non_empty (lookup d.device.pdid sticky))) [
      | inr (us, z) ↦ rw (z, apply_sticky_tag) h
      | inl z ↦ elim (Option-cases (mac_tags macs d.device.macs)) [
        | inr (us, w) ↦ rw (z, apply_sticky_tag, w, lookup-insert, n) h
        | inl w ↦ rw (z, apply_sticky_tag, w) h
      ]
    ]

-- A device written, with its tags when it is the one that holds them.
HasTags-insert :
    (pdid k : String) (ts : List String) (c c' : Cache) (d : LocalDevice)
    → lookup pdid c'.sticky_tags ≡ some ts
    → c'.devices ≡ insert k d c.devices
    → ((str_eq k pdid ≡ true) → (d.tags ≡ ts) × (d.device.tags ≡ ts))
    → HasTags pdid ts c
    → HasTags pdid ts c'
unfolding HasTags
HasTags-insert pdid k ts c c' d s x own (h, held) =
    (s, λ d' e. written d' (sym (lookup-insert k pdid d c.devices) ∙ sym (ap (lookup pdid) x) ∙ e))
  where
    written :
        (d' : LocalDevice)
        → (if str_eq k pdid then some d else lookup pdid c.devices) ≡ some d'
        → (d'.tags ≡ ts) × (d'.device.tags ≡ ts)
    written d' e = elim (Bool-cases (str_eq k pdid)) [
      | inr n ↦ held d' (rw n at e)
      | inl y ↦ subst (λ r. (r.tags ≡ ts) × (r.device.tags ≡ ts)) (some-eq (rw y at e)) (own y)
    ]

HasTags-bump_if :
    (pdid : String) (ts : List String) (b : Bool) (c : Cache)
    → HasTags pdid ts c
    → HasTags pdid ts (bump_if b c)
unfolding bump_revision
HasTags-bump_if pdid ts true c h = HasTags-same pdid ts c (bump_revision c) refl refl h
HasTags-bump_if pdid ts false c h = h

-- The device as it is written, and the cache with it.
HasTags-written :
    (pdid t : String) (ts : List String) (c : Cache) (d : LocalDevice)
    → HasTags pdid (t ∷ ts) c
    → HasTags pdid (t ∷ ts) (record c {
      devices =
          insert d.device.pdid
            (apply_local_metadata c (apply_sticky_tag c.sticky_macs c.sticky_tags d).0)
            c.devices;
      sticky_tags = (apply_sticky_tag c.sticky_macs c.sticky_tags d).1;
    })
unfolding HasTags apply_local_metadata
HasTags-written pdid t ts c d h =
    let v = HasTags-apply_sticky_tag pdid t ts c.sticky_macs c.sticky_tags d h.0 in
    HasTags-insert pdid d.device.pdid (t ∷ ts) c
      (record c {
        devices =
            insert d.device.pdid
              (apply_local_metadata c (apply_sticky_tag c.sticky_macs c.sticky_tags d).0) c.devices;
        sticky_tags = (apply_sticky_tag c.sticky_macs c.sticky_tags d).1;
      })
      (apply_local_metadata c (apply_sticky_tag c.sticky_macs c.sticky_tags d).0) v.0 refl v.1 h

pub HasTags-upsert_device :
    (differ : Differ) (pdid t : String) (ts : List String) (d : Device) (c : Cache)
    → HasTags pdid (t ∷ ts) c
    → HasTags pdid (t ∷ ts) (upsert_device differ d c)
unfolding upsert_device
HasTags-upsert_device differ pdid t ts d c h = elim (Bool-cases (str_eq d.pdid "")) [
  | inl y ↦ rw y h
  | inr n ↦ elim (Option-cases (lookup d.pdid c.devices)) [
    | inr (x, z) ↦
        rw (n, z)
          (HasTags-bump_if pdid (t ∷ ts)
            (differ x (
              apply_local_metadata c
                (apply_sticky_tag c.sticky_macs c.sticky_tags (record x { device = d })).0))
            _ (HasTags-written pdid t ts c (record x { device = d }) h))
    | inl z ↦
        rw (n, z)
          (HasTags-bump_if pdid (t ∷ ts) true _ (
            HasTags-written pdid t ts c
              (record { device = d; tags = []; policy = none; next_state_change = none }) h))
  ]
]

pub HasTags-erase :
    (pdid k : String) (ts : List String) (c c' : Cache)
    → c'.sticky_tags ≡ c.sticky_tags
    → c'.devices ≡ erase k c.devices
    → HasTags pdid ts c
    → HasTags pdid ts c'
unfolding HasTags
HasTags-erase pdid k ts c c' s x (h, held) = (
  ap (lookup pdid) s ∙ h,
  λ d e. left d (sym (lookup-erase k pdid c.devices) ∙ sym (ap (lookup pdid) x) ∙ e),
)
  where
    left :
        (d : LocalDevice)
        → (if str_eq k pdid then none else lookup pdid c.devices) ≡ some d
        → (d.tags ≡ ts) × (d.device.tags ≡ ts)
    left d e = elim (Bool-cases (str_eq k pdid)) [
      | inr n ↦ held d (rw n at e)
      | inl y ↦ let q = rw y at e in cc
    ]
