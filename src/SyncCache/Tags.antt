-- ===== src/SyncCache/Tags.antt =====
-- The tags that LIAS sets for a device stay with it.
use lias_dis.Prelude.{
  ℕ, String, ◌≡◌, refl, sym, ap, ◌∙◌, inl, inr, Bool, Option, some, List, [], ◌∷◌, str_eq, eq_refl,
  if◌then◌else◌, Bool-cases, Option-cases,
}
use lias_dis.Prelude.Dict.{Dict, lookup, erase, lookup-insert_self}
use lias_dis.Models.{Device, Policy}
use lias_dis.LocalDevice.{LocalDevice}
use lias_dis.SyncCache.{
  Cache, Differ, bump_revision, apply_local_metadata, with_tags, alter, load_local_metadata,
  upsert_device, remove_device, is_some, patch, set_policy, set_next_state_change, or_generic,
  set_tags, set_friendly_name, set_user_id, is_online, patch_device_online,
}
use lias_dis.SyncCache.HasTags.{
  map_option, some-eq, lookup-alter, HasTags, apply_local_metadata-tags, lookup-apply_metadata_all,
  HasTags-alter, HasTags-upsert_device, HasTags-erase,
}

-- The calls that the discovery service, the schedules and the administrator make on a cache, those
-- that set a device's tags or name it anew left out.
pub data Call : Type 0 where
  synced : Device → Call
  removed : String → Call
  policy_set : String → Option Policy → Call
  change_set : String → Option ℕ → Call
  name_set : String → String → Call
  user_set : String → String → Call
  online_set : String → Bool → Call
  metadata_loaded : Dict String → Dict String → Call

unfoldable pub step : Differ → Call → Cache → Cache
step differ (synced d) c = upsert_device differ d c
step differ (removed k) c = remove_device k c
step differ (policy_set k p) c = set_policy k p c
step differ (change_set k t) c = set_next_state_change k t c
step differ (name_set k n) c = set_friendly_name k n c
step differ (user_set k u) c = set_user_id k u c
step differ (online_set k b) c = patch_device_online k b c
step differ (metadata_loaded o a) c = load_local_metadata o a c

unfoldable pub run : Differ → List Call → Cache → Cache
run differ [] c = c
run differ (x ∷ xs) c = run differ xs (step differ x c)

HasTags-patch :
    (pdid k : String) (ts : List String) (f : LocalDevice → LocalDevice) (c : Cache)
    → ((d : LocalDevice) → ((f d).tags ≡ d.tags) × ((f d).device.tags ≡ d.device.tags))
    → HasTags pdid ts c
    → HasTags pdid ts (patch k f c)
unfolding bump_revision
HasTags-patch pdid k ts f c keeps h = elim (Bool-cases (is_some (lookup k c.devices))) [
  | inl y ↦ rw y (
      HasTags-alter pdid ts c (bump_revision (record c { devices = alter k f c.devices })) k f keeps
        refl refl h)
  | inr n ↦ rw n h
]

HasTags-load_local_metadata :
    (pdid : String) (ts : List String) (o a : Dict String) (c : Cache)
    → HasTags pdid ts c
    → HasTags pdid ts (load_local_metadata o a c)
unfolding load_local_metadata bump_revision HasTags
HasTags-load_local_metadata pdid ts o a c (h, held) =
    (h, λ d e. named_anew _ d (sym (lookup-apply_metadata_all _ pdid c.devices) ∙ e))
  where
    named_anew :
        (c' : Cache) (d : LocalDevice)
        → map_option (apply_local_metadata c') (lookup pdid c.devices) ≡ some d
        → (d.tags ≡ ts) × (d.device.tags ≡ ts)
    named_anew c' d e = elim (Option-cases (lookup pdid c.devices)) [
      | inl z ↦ let q = rw z at e in cc
      | inr (d', z) ↦
          let q : apply_local_metadata c' d' ≡ d = some-eq (rw z at e) in
          let (v, w) = apply_local_metadata-tags c' d' in
          let (x, y) = held d' z in
          (sym (ap (λ r. r.tags) q) ∙ v ∙ x, sym (ap (λ r. r.device.tags) q) ∙ w ∙ y)
    ]

HasTags-set_friendly_name :
    (pdid k name : String) (ts : List String) (c : Cache)
    → HasTags pdid ts c
    → HasTags pdid ts (set_friendly_name k name c)
unfolding set_friendly_name bump_revision
HasTags-set_friendly_name pdid k name ts c =
    HasTags-alter pdid ts c (set_friendly_name k name c) k
      (λ d. record d { device = record (d.device) { friendly_name = name } }) (λ d. (refl, refl))
      refl refl

HasTags-set_user_id :
    (pdid k user : String) (ts : List String) (c : Cache)
    → HasTags pdid ts c
    → HasTags pdid ts (set_user_id k user c)
unfolding set_user_id bump_revision
HasTags-set_user_id pdid k user ts c =
    HasTags-alter pdid ts c (set_user_id k user c) k
      (λ d. record d { device = record (d.device) { user_id = user } }) (λ d. (refl, refl)) refl
      refl

HasTags-patch_device_online :
    (pdid k : String) (online : Bool) (ts : List String) (c : Cache)
    → HasTags pdid ts c
    → HasTags pdid ts (patch_device_online k online c)
unfolding patch_device_online bump_revision
HasTags-patch_device_online pdid k online ts c h =
    elim (Bool-cases (is_online (lookup k c.devices) online)) [
      | inl y ↦ rw y h
      | inr n ↦
          let f : LocalDevice → LocalDevice =
            λ d. record d { device = record (d.device) { online = online } } in
          rw n (
            HasTags-alter pdid ts c (bump_revision (record c { devices = alter k f c.devices })) k f
              (λ d. (refl, refl)) refl refl h)
    ]

HasTags-remove_device :
    (pdid k : String) (ts : List String) (c : Cache)
    → HasTags pdid ts c
    → HasTags pdid ts (remove_device k c)
unfolding remove_device bump_revision
HasTags-remove_device pdid k ts c h = elim (Bool-cases (is_some (lookup k c.devices))) [
  | inl y ↦ rw y (
      HasTags-erase pdid k ts c (bump_revision (record c { devices = erase k c.devices })) refl refl
        h)
  | inr n ↦ rw n h
]

HasTags-step :
    (differ : Differ) (pdid t : String) (ts : List String) (x : Call) (c : Cache)
    → HasTags pdid (t ∷ ts) c
    → HasTags pdid (t ∷ ts) (step differ x c)
unfolding step set_policy set_next_state_change
HasTags-step differ pdid t ts (synced d) c = HasTags-upsert_device differ pdid t ts d c
HasTags-step differ pdid t ts (removed k) c = HasTags-remove_device pdid k (t ∷ ts) c
HasTags-step differ pdid t ts (policy_set k p) c =
    HasTags-patch pdid k (t ∷ ts) (λ d. record d { policy = p }) c (λ d. (refl, refl))
HasTags-step differ pdid t ts (change_set k n) c =
    HasTags-patch pdid k (t ∷ ts) (λ d. record d { next_state_change = n }) c (λ d. (refl, refl))
HasTags-step differ pdid t ts (name_set k n) c = HasTags-set_friendly_name pdid k n (t ∷ ts) c
HasTags-step differ pdid t ts (user_set k u) c = HasTags-set_user_id pdid k u (t ∷ ts) c
HasTags-step differ pdid t ts (online_set k b) c = HasTags-patch_device_online pdid k b (t ∷ ts) c
HasTags-step differ pdid t ts (metadata_loaded o a) c =
    HasTags-load_local_metadata pdid (t ∷ ts) o a c

HasTags-run :
    (differ : Differ) (pdid t : String) (ts : List String) (xs : List Call) (c : Cache)
    → HasTags pdid (t ∷ ts) c
    → HasTags pdid (t ∷ ts) (run differ xs c)
unfolding run
HasTags-run differ pdid t ts [] c h = h
HasTags-run differ pdid t ts (x ∷ xs) c h =
    HasTags-run differ pdid t ts xs (step differ x c) (HasTags-step differ pdid t ts x c h)

HasTags-set_tags :
    (pdid : String) (ts : List String) (c : Cache)
    → HasTags pdid (or_generic ts) (set_tags pdid ts c)
unfolding set_tags bump_revision HasTags
HasTags-set_tags pdid ts c = (
  lookup-insert_self pdid (or_generic ts) c.sticky_tags,
  λ d e. carried d (sym (lookup-alter pdid pdid _ c.devices) ∙ e),
)
  where
    carried :
        (d : LocalDevice)
        → (if str_eq pdid pdid
            then map_option (λ x. with_tags x (or_generic ts)) (lookup pdid c.devices)
            else lookup pdid c.devices)
          ≡ some d
        → (d.tags ≡ or_generic ts) × (d.device.tags ≡ or_generic ts)
    carried d e = elim (Option-cases (lookup pdid c.devices)) [
      | inl z ↦ let q = rw (eq_refl, z) at e in cc
      | inr (d', z) ↦
          let q : with_tags d' (or_generic ts) ≡ d = some-eq (rw (eq_refl, z) at e) in
          (sym (ap (λ r. r.tags) q), sym (ap (λ r. r.device.tags) q))
    ]

-- The tags set for a device are those that it carries, and that are held for it, after any calls
-- that sync, remove, patch or name devices; set to none, they are the tag generic.
pub run-set_tags :
    (differ : Differ) (pdid : String) (ts : List String) (xs : List Call) (c : Cache)
    → HasTags pdid (or_generic ts) (run differ xs (set_tags pdid ts c))
run-set_tags differ pdid [] xs c =
    HasTags-run differ pdid "generic" [] xs (set_tags pdid [] c) (HasTags-set_tags pdid [] c)
run-set_tags differ pdid (t ∷ ts) xs c =
    HasTags-run differ pdid t ts xs (set_tags pdid (t ∷ ts) c) (HasTags-set_tags pdid (t ∷ ts) c)
