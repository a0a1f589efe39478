-- ===== src/Handlers/Users.antt =====
-- The handlers of users, and of the names and users of devices. A user's device keeps its user:
-- `DeleteUser` refuses while one is assigned. The length of a text is its number of characters.
pub mod Assigned
use lias_dis.Prelude.{
  ℕ, String, Bool, true, false, ◌||◌, Option, none, some, List, [], ◌∷◌, ltb, str_eq, if◌then◌else◌,
  exists,
}
use lias_dis.Prelude.Dict.{Dict, lookup, insert, erase}
use lias_dis.Prelude.Text.{trim_space, concat}
use lias_dis.Hostname.{length_text}
use lias_dis.LocalDevice.{LocalDevice}
use lias_dis.SyncCache.{Cache, get, bump_revision, set_friendly_name, set_user_id, is_some}
use lias_dis.Handlers.{
  State, Status, User, ok, created, no_content, bad_request, not_found, conflict, server_error,
  try_trigger,
}

-- What the store says of a write that other tables can refuse.
pub data Stored : Type 0 where
  done refused broken : Stored

abbrev pub bad_name : String → Bool
bad_name name = str_eq name "" || ltb 128 (length_text name)

abbrev pub write_user : User → State → State
write_user u s = record s { users = insert u.id u s.users; cache = bump_revision s.cache }

-- `u.ID == ""`: the user gets a new identifier.
abbrev or_new_id : String → User → User
or_new_id id u = if str_eq u.id "" then record u { id = concat ("user_" ∷ id ∷ []) } else u

pub create_user : Bool → String → Option User → State → Status × State
create_user saved id none s = (bad_request, s)
create_user saved id (some request) s =
    let u : User = record { id = trim_space request.id; name = trim_space request.name } in
    if bad_name u.name || ltb 128 (length_text u.id)
    then (bad_request, s)
    else if saved
    then (created, write_user (or_new_id id u) s)
    else (server_error, s)

pub update_user : Bool → String → Option User → State → Status × State
update_user saved id none s = (bad_request, s)
update_user saved id (some request) s =
    let u : User = record { id = id; name = trim_space request.name } in
    if bad_name u.name
    then (bad_request, s)
    else if is_some (lookup id s.users)
    then (if saved then (ok, write_user u s) else (server_error, s))
    else (not_found, s)

-- `for _, device := range h.cache.List()`
unfoldable pub is_assigned : String → Dict LocalDevice → Bool
is_assigned id [] = false
is_assigned id ((k, d) ∷ ds) = str_eq d.device.user_id id || is_assigned id ds

abbrev pub finish_delete : Stored → String → State → Status × State
finish_delete done id s =
    (no_content, record s { users = erase id s.users; cache = bump_revision s.cache })
finish_delete refused id s = (conflict, s)
finish_delete broken id s = (server_error, s)

pub delete_user : Stored → String → State → Status × State
delete_user stored id s =
    if is_some (lookup id s.users)
    then (if is_assigned id s.cache.devices then (conflict, s) else finish_delete stored id s)
    else (not_found, s)

pub unassign : Bool → String → State → Status × State
unassign saved pdid s =
    if saved
    then (no_content, try_trigger (record s { cache = set_user_id pdid "" s.cache }))
    else (server_error, s)

pub unassign_device_user : Bool → String → State → Status × State
unassign_device_user saved pdid s =
    if is_some (get s.cache pdid) then unassign saved pdid s else (not_found, s)

abbrev pub finish_assign : Stored → String → String → State → Status × State
finish_assign done pdid user_id s =
    (no_content, try_trigger (record s { cache = set_user_id pdid user_id s.cache }))
finish_assign refused pdid user_id s = (not_found, s)
finish_assign broken pdid user_id s = (server_error, s)

-- `stored` is what the store says of the assignment, or of its end where the body names no user.
abbrev pub is_done : Stored → Bool
is_done done = true
is_done _ = false

pub assign_device_user : Stored → String → Option String → State → Status × State
assign_device_user stored pdid none s = (bad_request, s)
assign_device_user stored pdid (some user_id) s =
    if is_some (get s.cache pdid)
    then (if str_eq user_id ""
        then unassign (is_done stored) pdid s
        else if is_some (lookup user_id s.users)
        then finish_assign stored pdid user_id s
        else (not_found, s))
    else (not_found, s)

pub rename_device : Bool → String → Option String → State → Status × State
rename_device saved pdid none s = (bad_request, s)
rename_device saved pdid (some name) s =
    if is_some (get s.cache pdid)
    then (if bad_name (trim_space name)
        then (bad_request, s)
        else if saved
        then (
          no_content,
          try_trigger (record s { cache = set_friendly_name pdid (trim_space name) s.cache }),
        )
        else (server_error, s))
    else (not_found, s)
