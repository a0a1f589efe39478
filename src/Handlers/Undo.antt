-- ===== src/Handlers/Undo.antt =====
-- What a pause and an extension leave when they are cancelled.
use lias_dis.Prelude.{
  ℕ, String, ◌≡◌, refl, sym, subst, inl, inr, false, none, some, Bool-cases, Option-cases, str_eq,
  eq_iff,
}
use lias_dis.Prelude.Dict.{
  Dict, lookup, insert, erase, lookup-insert, lookup-erase, lookup-insert_self,
}
use lias_dis.Models.{Policy, Schedule, get_schedule_ids}
use lias_dis.LocalDevice.{LocalDevice}
use lias_dis.Policy.{upsert_policy, delete_policy, get_policy}
use lias_dis.Schedule.Engine
use lias_dis.Schedule.Engine.{upsert_schedule, delete_schedule, invalidate}
use lias_dis.SyncCache.{get}
use lias_dis.Handlers.{
  State, Marshal, is_immune, notify, try_trigger, pause_schedule, pause_id, pause_policy,
  pause_device_internet, unpause_device_internet, delete_schedules,
}

-- The two maps hold the same under every key.
abbrev pub Same {ℓ} : {V : Type ℓ} → Dict V → Dict V → Type ℓ
Same m m' = (k : String) → lookup k m ≡ lookup k m'

erase-insert :
    {V : Type 0} (k : String) (v : V) (m : Dict V)
    → lookup k m ≡ none
    → Same (erase k (insert k v m)) m
erase-insert k v m h j = elim (Bool-cases (str_eq k j)) [
  | inl y ↦
      rw (lookup-erase k j (insert k v m), y)
        (sym (subst (λ x. lookup x m ≡ none) ((eq_iff k j).0 y) h))
  | inr n ↦ rw (lookup-erase k j (insert k v m), n, lookup-insert k j v m, n) refl
]

schedules-invalidate : (id : String) (e : Engine.Engine) → (invalidate id e).schedules ≡ e.schedules
unfolding invalidate
schedules-invalidate id e = elim (Option-cases (lookup id e.reverse_idx)) [
  | inl x ↦ rw (invalidate, x) refl
  | inr (ks, x) ↦ rw (invalidate, x) refl
]

pub schedules-delete_schedule :
    (id : String) (e : Engine.Engine) → (delete_schedule id e).schedules ≡ erase id e.schedules
unfolding delete_schedule
schedules-delete_schedule id e =
    schedules-invalidate id (record e { schedules = erase id e.schedules })

pub schedules-upsert_schedule :
    (t : Schedule) (e : Engine.Engine) → (upsert_schedule t e).schedules ≡ insert t.id t e.schedules
unfolding upsert_schedule
schedules-upsert_schedule t e =
    schedules-invalidate t.id (record e { schedules = insert t.id t e.schedules })

paused-policies :
    (marshal : Marshal) (now : ℕ) (id pdid : String) (d : LocalDevice) (s : State)
    → get s.cache pdid ≡ some d
    → is_immune d.tags ≡ false
    → ((pause_device_internet marshal now id pdid s).1.policies
        ≡ upsert_policy (pause_policy now id pdid) s.policies)
      × ((pause_device_internet marshal now id pdid s).1.schedules
          ≡ upsert_schedule (pause_schedule now id) s.schedules)
unfolding pause_device_internet notify try_trigger
paused-policies marshal now id pdid d s found i = rw (pause_device_internet, found, i) (refl, refl)

unpaused-policies :
    (marshal : Marshal) (now : ℕ) (pdid : String) (p : Policy) (s : State)
    → get_policy s.policies (pause_id pdid) ≡ some p
    → ((unpause_device_internet marshal now pdid s).1.policies
        ≡ delete_policy (pause_id pdid) s.policies)
      × ((unpause_device_internet marshal now pdid s).1.schedules
          ≡ delete_schedules (get_schedule_ids p) s.schedules)
unfolding unpause_device_internet notify try_trigger
unpaused-policies marshal now pdid p s found = rw (unpause_device_internet, found) (refl, refl)

-- A pause of a device that is in the cache and not immune, where no pause of it and no schedule
-- with the new identifier were there, and the end of the pause: afterwards every policy and every
-- schedule is as it was.
pub unpause-pause :
    (marshal : Marshal) (now later : ℕ) (id : String) (d : LocalDevice) (pdid : String) (s : State)
    → get s.cache pdid ≡ some d
    → is_immune d.tags ≡ false
    → get_policy s.policies (pause_id pdid) ≡ none
    → lookup (pause_schedule now id).id s.schedules.schedules ≡ none
    → Same
        (unpause_device_internet marshal later pdid
          (pause_device_internet marshal now id pdid s).1).1.policies.policies
        s.policies.policies
      × Same
          (unpause_device_internet marshal later pdid
            (pause_device_internet marshal now id pdid s).1).1.schedules.schedules
          s.schedules.schedules
unfolding upsert_policy delete_policy get_policy delete_schedules pause_policy get_schedule_ids
unpause-pause marshal now later id d pdid s found i fresh unused =
    let t : State = (pause_device_internet marshal now id pdid s).1 in
    let (a, b) = paused-policies marshal now id pdid d s found i in
    let stored : get_policy t.policies (pause_id pdid) ≡ some (pause_policy now id pdid) =
      rw a (lookup-insert_self (pause_id pdid) (pause_policy now id pdid) s.policies.policies) in
    let (a', b') = unpaused-policies marshal later pdid (pause_policy now id pdid) t stored in
    (
      λ k.
          rw (a', a)
            (erase-insert (pause_id pdid) (pause_policy now id pdid) s.policies.policies fresh k),
      λ k.
          rw (b', b, schedules-delete_schedule, schedules-upsert_schedule)
            (erase-insert (pause_schedule now id).id (pause_schedule now id) s.schedules.schedules
              unused k),
    )
