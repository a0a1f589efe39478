-- ===== src/Handlers/Users/Assigned.antt =====
-- No device names a user who is not there.
use lias_dis.Prelude.{
  String, ◌≡◌, refl, inl, inr, Bool, true, false, ◌||◌, Option, none, some, List, [], ◌∷◌, arith,
  Bool-cases, if◌then◌else◌, str_eq, eq_iff, ltb,
}
use lias_dis.Prelude.Dict.{Dict, lookup, insert, erase, lookup-insert, lookup-erase}
use lias_dis.Prelude.Text.{trim_space}
use lias_dis.LocalDevice.{LocalDevice}
use lias_dis.SyncCache.{bump_revision, get, alter, is_some, set_user_id, set_friendly_name}
use lias_dis.Hostname.{length_text}
use lias_dis.Handlers.{State, User, try_trigger}
use lias_dis.Handlers.Users.{
  Stored, done, refused, broken, bad_name, write_user, create_user, update_user, is_assigned,
  delete_user, unassign, unassign_device_user, is_done, assign_device_user, rename_device,
  finish_delete, finish_assign,
}

-- The requests on users, and on the users and names of devices.
pub data Call : Type 0 where
  created : Bool → String → Option User → Call
  updated : Bool → String → Option User → Call
  deleted : Stored → String → Call
  assigned : Stored → String → Option String → Call
  unassigned : Bool → String → Call
  renamed : Bool → String → Option String → Call

unfoldable pub step : Call → State → State
step (created saved id u) s = (create_user saved id u s).1
step (updated saved id u) s = (update_user saved id u s).1
step (deleted stored id) s = (delete_user stored id s).1
step (assigned stored pdid user) s = (assign_device_user stored pdid user s).1
step (unassigned saved pdid) s = (unassign_device_user saved pdid s).1
step (renamed saved pdid name) s = (rename_device saved pdid name s).1

unfoldable pub run : List Call → State → State
run [] s = s
run (c ∷ cs) s = run cs (step c s)

unfoldable pub is_known : Dict User → String → Bool
is_known users id = str_eq id "" || is_some (lookup id users)

abbrev pub AllKnown : Dict User → Dict LocalDevice → Type 0
AllKnown users [] = Unit
AllKnown users ((k, d) ∷ ds) = (is_known users d.device.user_id ≡ true) × AllKnown users ds

abbrev pub IsSound : State → Type 0
IsSound s = AllKnown s.users s.cache.devices

is_known-insert :
    (users : Dict User) (u : User) (id : String)
    → is_known users id ≡ true
    → is_known (insert u.id u users) id ≡ true
unfolding is_known
is_known-insert users u id h = elim (Bool-cases (str_eq u.id id)) [
  | inl y ↦ rw (is_known, lookup-insert u.id id u users, y) (ground arith)
  | inr n ↦ rw (is_known, lookup-insert u.id id u users, n) h
]

is_known-erase :
    (users : Dict User) (gone id : String)
    → str_eq id gone ≡ false
    → is_known users id ≡ true
    → is_known (erase gone users) id ≡ true
unfolding is_known
is_known-erase users gone id n h =
    let m : str_eq gone id ≡ false = ground (arith, eq_iff gone id, eq_iff id gone) in
    rw (is_known, lookup-erase gone id users, m) h

AllKnown-insert :
    (users : Dict User) (u : User) (ds : Dict LocalDevice)
    → AllKnown users ds
    → AllKnown (insert u.id u users) ds
AllKnown-insert users u [] h = tt
AllKnown-insert users u ((k, d) ∷ ds) h =
    (is_known-insert users u d.device.user_id h.0, AllKnown-insert users u ds h.1)

AllKnown-erase :
    (users : Dict User) (gone : String) (ds : Dict LocalDevice)
    → is_assigned gone ds ≡ false
    → AllKnown users ds
    → AllKnown (erase gone users) ds
unfolding is_assigned
AllKnown-erase users gone [] n h = tt
AllKnown-erase users gone ((k, d) ∷ ds) n h = (
  is_known-erase users gone d.device.user_id (ground (arith, n)) h.0,
  AllKnown-erase users gone ds (ground (arith, n)) h.1,
)

AllKnown-alter :
    (users : Dict User) (k : String) (f : LocalDevice → LocalDevice) (ds : Dict LocalDevice)
    → ((d : LocalDevice)
        → is_known users d.device.user_id ≡ true
        → is_known users (f d).device.user_id ≡ true)
    → AllKnown users ds
    → AllKnown users (alter k f ds)
unfolding alter
AllKnown-alter users k f [] p h = tt
AllKnown-alter users k f ((i, d) ∷ ds) p h = elim (Bool-cases (str_eq i k)) [
  | inl y ↦ rw (alter, y) (p d h.0, h.1)
  | inr n ↦ rw (alter, n) (h.0, AllKnown-alter users k f ds p h.1)
]

set_user_id-IsSound :
    (pdid user : String) (s : State)
    → is_known s.users user ≡ true
    → IsSound s
    → IsSound (try_trigger (record s { cache = set_user_id pdid user s.cache }))
unfolding try_trigger set_user_id bump_revision
set_user_id-IsSound pdid user s u h =
    AllKnown-alter s.users pdid (λ d. record d { device = record (d.device) { user_id = user } })
      s.cache.devices (λ d k. u) h

unassign-IsSound :
    (saved : Bool) (pdid : String) (s : State) → IsSound s → IsSound (unassign saved pdid s).1
unfolding unassign is_known
unassign-IsSound true pdid s h = set_user_id-IsSound pdid "" s (ground arith) h
unassign-IsSound false pdid s h = h

finish_assign-IsSound :
    (stored : Stored) (pdid user : String) (s : State)
    → is_some (lookup user s.users) ≡ true
    → IsSound s
    → IsSound (finish_assign stored pdid user s).1
unfolding is_known
finish_assign-IsSound done pdid user s u h = set_user_id-IsSound pdid user s (ground (arith, u)) h
finish_assign-IsSound refused pdid user s u h = h
finish_assign-IsSound broken pdid user s u h = h

finish_delete-IsSound :
    (stored : Stored) (id : String) (s : State)
    → is_assigned id s.cache.devices ≡ false
    → IsSound s
    → IsSound (finish_delete stored id s).1
unfolding bump_revision
finish_delete-IsSound done id s n h = AllKnown-erase s.users id s.cache.devices n h
finish_delete-IsSound refused id s n h = h
finish_delete-IsSound broken id s n h = h

write_user-IsSound : (u : User) (s : State) → IsSound s → IsSound (write_user u s)
unfolding bump_revision
write_user-IsSound u s h = AllKnown-insert s.users u s.cache.devices h

-- A choice between two replies keeps what both keep.
either :
    {A : Type 0} (b : Bool) (x y : A × State)
    → (b ≡ true → IsSound x.1)
    → (b ≡ false → IsSound y.1)
    → IsSound (if b then x else y).1
either true x y f g = f refl
either false x y f g = g refl

step-IsSound : (c : Call) (s : State) → IsSound s → IsSound (step c s)
unfolding step create_user update_user delete_user assign_device_user unassign_device_user
    rename_device set_friendly_name try_trigger bump_revision
step-IsSound (created saved id none) s h = h
step-IsSound (created saved id (some u)) s h =
    either (bad_name (trim_space u.name) || ltb 128 (length_text (trim_space u.id))) _ _ (λ _. h)
      (λ _. either saved _ _ (λ _. write_user-IsSound _ s h) (λ _. h))
step-IsSound (updated saved id none) s h = h
step-IsSound (updated saved id (some u)) s h =
    either (bad_name (trim_space u.name)) _ _ (λ _. h)
      (λ _.
        either (is_some (lookup id s.users)) _ _
          (λ _. either saved _ _ (λ _. write_user-IsSound _ s h) (λ _. h)) (λ _. h))
step-IsSound (deleted stored id) s h =
    either (is_some (lookup id s.users)) _ _
      (λ _.
        either (is_assigned id s.cache.devices) _ _ (λ _. h)
          (λ n. finish_delete-IsSound stored id s n h))
      (λ _. h)
step-IsSound (assigned stored pdid none) s h = h
step-IsSound (assigned stored pdid (some user)) s h =
    either (is_some (get s.cache pdid)) _ _
      (λ _.
        either (str_eq user "") _ _ (λ _. unassign-IsSound (is_done stored) pdid s h)
          (λ _.
            either (is_some (lookup user s.users)) _ _
              (λ u. finish_assign-IsSound stored pdid user s u h) (λ _. h)))
      (λ _. h)
step-IsSound (unassigned saved pdid) s h =
    either (is_some (get s.cache pdid)) _ _ (λ _. unassign-IsSound saved pdid s h) (λ _. h)
step-IsSound (renamed saved pdid none) s h = h
step-IsSound (renamed saved pdid (some name)) s h =
    either (is_some (get s.cache pdid)) _ _
      (λ _.
        either (bad_name (trim_space name)) _ _ (λ _. h)
          (λ _.
            either saved _ _
              (λ _.
                AllKnown-alter s.users pdid
                  (λ d. record d { device = record (d.device) { friendly_name = trim_space name } })
                  s.cache.devices (λ d k. k) h)
              (λ _. h)))
      (λ _. h)

-- Any requests that create, change and delete users and that assign users and names to devices keep
-- this: the user of every device in the cache is empty or exists.
pub run-IsSound : (cs : List Call) (s : State) → IsSound s → IsSound (run cs s)
unfolding run
run-IsSound [] s h = h
run-IsSound (c ∷ cs) s h = run-IsSound cs (step c s) (step-IsSound c s h)
