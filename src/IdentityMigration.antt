-- ===== src/IdentityMigration.antt =====
-- apps/lias/internal/storage/identity_migration.go on the tables of the store, and the coordinator
-- of apps/lias/internal/identitymigration/coordinator.go. A table is its rows, a table with a key a
-- map, and the data of a policy is the policy. A transaction that fails leaves the store alone; the
-- only failures here are those that the code or a key causes. The JSON of a conflict is a
-- parameter. The rows of the flow log are not modelled.
pub mod Moved
pub mod Retargeted
pub mod Replay
mod Examples
use Prim.Native.String.{compare}
use text.Mathlib.Text.{is_lt}
use lias_dis.Prelude.{
  ℕ, String, Bool, true, false, not, ◌&&◌, ◌||◌, Option, none, some, List, [], ◌∷◌, ◌++◌, str_eq,
  if◌then◌else◌, exists, select, length,
}
use lias_dis.Prelude.Dict.{Dict, lookup, insert, erase}
use lias_dis.Prelude.Int.{ltb_ℤ}
use lias_dis.Prelude.Text.{concat}
use lias_dis.Models.{Action, Policy, is_device}
use lias_dis.Policy
use lias_dis.Policy.{values, reconcile_device_identity}
use lias_dis.ScheduleConflict.{action_eq}
use lias_dis.SyncCache.{
  Cache, migrate_device_identity, reconcile_identity_migration, is_some, or_else,
}

pub record TagRow : Type 0 where
  pub pdid : String
  pub tag_id : String
  pub mac : String

pub record Conflict : Type 0 where
  pub object_type : String
  pub winner_id : String
  pub loser_id : String
  pub details : String

pub record ConflictRow : Type 0 where
  pub old_pdid : String
  pub new_pdid : String
  pub conflict : Conflict

pub record Tables : Type 0 where
  pub device_tags : List TagRow
  pub device_overrides : Dict String
  pub device_users : Dict String
  pub policies : Dict Policy
  pub redirects : Dict String
  pub migrations : Dict String
  pub conflicts : List ConflictRow

pub record Result : Type 0 where
  pub tags : List String
  pub friendly_name : String
  pub user_id : String
  pub policies : List Policy
  pub conflicts : List Conflict
  pub replayed : Bool

-- INSERT OR IGNORE ... SELECT new_pdid: the tags of the old device that the new one does not have.
abbrev pub has_tag : String → String → List TagRow → Bool
has_tag pdid tag_id rows =
    exists (λ (r : TagRow). str_eq r.pdid pdid && str_eq r.tag_id tag_id) rows

pub copy_tags : String → String → List TagRow → List TagRow → List TagRow
copy_tags old new [] rows = rows
copy_tags old new (r ∷ rs) rows = copy_tags old new rs (
    if str_eq r.pdid old && not (has_tag new r.tag_id rows)
    then rows ++ record r { pdid = new } ∷ []
    else rows)

pub move_tags : String → String → List TagRow → List TagRow
move_tags old new rows =
    select (λ (r : TagRow). not (str_eq r.pdid old)) (copy_tags old new rows rows)

-- The value of the new device wins, unless it is empty.
abbrev pub merged_value : String → Option String → String
merged_value source none = source
merged_value source (some target) = if str_eq target "" then source else target

pub move_value : String → String → Dict String → Dict String
move_value old new m = elim (lookup old m) [
  | none ↦ m
  | some v ↦ erase old (insert new (merged_value v (lookup new m)) m)
]

pub retarget_temporary_policy_id : String → String → String → String
retarget_temporary_policy_id id old new =
    if str_eq id (concat ("pol_pause_" ∷ old ∷ []))
    then concat ("pol_pause_" ∷ new ∷ [])
    else if str_eq id (concat ("pol_extend_device_" ∷ old ∷ []))
    then concat ("pol_extend_device_" ∷ new ∷ [])
    else id

abbrev pub is_of : String → Policy → Bool
is_of pdid p = is_device p.type && str_eq p.target_id pdid

abbrev pub retargeted : ℕ → String → String → Policy → Policy
retargeted now old new p = record p {
  id = retarget_temporary_policy_id p.id old new;
  target_id = new;
  updated_at = now;
}

pub index : List Policy → Dict Policy → Dict Policy
index [] m = m
index (p ∷ ps) m = index ps (insert p.id p m)

-- What the loop over the policies of the old device keeps: the table, the policies of the new device
-- by identifier, and the conflicts.
pub record Progress : Type 0 where
  pub table : Dict Policy
  pub target_by_id : Dict Policy
  pub conflicts : List Conflict

-- INSERT INTO policies, which fails on a key that is there.
abbrev pub insert_row : Policy → Dict Policy → Option (Dict Policy)
insert_row p m = if is_some (lookup p.id m) then none else some (insert p.id p m)

abbrev pub keep_row : Policy → List Conflict → Dict Policy → Option (Dict Policy) → Option Progress
keep_row p cs by_id none = none
keep_row p cs by_id (some m) =
    some (record { table = m; target_by_id = insert p.id p by_id; conflicts = cs })

abbrev pub Details : Type 0
Details = Policy → Policy → Bool → String

abbrev pub of_pair : Details → String → Bool → Policy → Policy → Conflict
of_pair details kind retained winner loser = record {
  object_type = kind;
  winner_id = winner.id;
  loser_id = loser.id;
  details = details winner loser retained;
}

pub migrate_policy : Details → ℕ → String → String → Policy → Progress → Option Progress
migrate_policy details now old new p s =
    let source = retargeted now old new p in
    elim (lookup source.id s.target_by_id) [
      | none ↦ keep_row source s.conflicts s.target_by_id (insert_row source (erase p.id s.table))
      | some target ↦
          let wins = ltb_ℤ target.priority source.priority in
          let winner = if wins then source else target in
          let loser = if wins then target else source in
          keep_row winner (s.conflicts ++ of_pair details "policy" false winner loser ∷ [])
            s.target_by_id (insert_row winner (erase target.id (erase p.id s.table)))
    ]

abbrev pub next_policy : (Progress → Option Progress) → Option Progress → Option Progress
next_policy f none = none
next_policy f (some s) = f s

pub migrate_policies :
    Details → ℕ → String → String → List Policy → Option Progress → Option Progress
migrate_policies details now old new [] s = s
migrate_policies details now old new (p ∷ ps) s =
    migrate_policies details now old new ps (next_policy (migrate_policy details now old new p) s)

-- The order of precedence: by priority from the highest, then by identifier.
abbrev outranks : Policy → Policy → Bool
outranks p q =
    ltb_ℤ q.priority p.priority || (not (ltb_ℤ p.priority q.priority) && is_lt (compare p.id q.id))

insert_ranked : Policy → List Policy → List Policy
insert_ranked p [] = p ∷ []
insert_ranked p (q ∷ qs) = if outranks q p then q ∷ insert_ranked p qs else p ∷ q ∷ qs

pub rank : List Policy → List Policy
rank [] = []
rank (p ∷ ps) = insert_ranked p (rank ps)

pub precedence_conflicts : Details → Policy → List Policy → List Conflict
precedence_conflicts details winner [] = []
precedence_conflicts details winner (l ∷ ls) =
    let rest = precedence_conflicts details winner ls in
    if action_eq l.action winner.action
    then rest
    else of_pair details "policy_precedence" true winner l ∷ rest

abbrev pub with_precedence : Details → List Policy → List Conflict
with_precedence details [] = []
with_precedence details (w ∷ ls) = precedence_conflicts details w ls

pub migrate_identity_policies :
    Details → ℕ → String → String → Dict Policy → Option (Dict Policy × List Conflict)
migrate_identity_policies details now old new table =
    let start : Progress = record {
      table = table;
      target_by_id = index (select (is_of new) (values table)) [];
      conflicts = [];
    } in
    elim (migrate_policies details now old new (select (is_of old) (values table)) (some start)) [
      | none ↦ none
      | some s ↦ some (
        s.table,
        s.conflicts
            ++ with_precedence details (rank (select (λ p. p.enabled) (values s.target_by_id))),
      )
    ]

-- UPDATE ... SET new_pdid = new WHERE new_pdid = old
redirect_all : String → String → Dict String → Dict String
redirect_all old new [] = []
redirect_all old new ((k, v) ∷ m) = (k, if str_eq v old then new else v) ∷ redirect_all old new m

insert_text : String → List String → List String
insert_text x [] = x ∷ []
insert_text x (y ∷ ys) = if is_lt (compare y x) then y ∷ insert_text x ys else x ∷ y ∷ ys

sorted : List String → List String
sorted [] = []
sorted (x ∷ xs) = insert_text x (sorted xs)

pub tags_of : String → List TagRow → List String
tags_of pdid [] = []
tags_of pdid (r ∷ rs) =
    let rest = tags_of pdid rs in if str_eq r.pdid pdid then r.tag_id ∷ rest else rest

pub recorded : String → String → List ConflictRow → List Conflict
recorded old new [] = []
recorded old new (r ∷ rs) =
    let rest = recorded old new rs in
    if str_eq r.old_pdid old && str_eq r.new_pdid new then r.conflict ∷ rest else rest

-- `loadIdentityMigrationStateTx`, with the conflicts that it is given or, in a replay, reads.
pub load_state : String → Bool → List Conflict → Tables → Result
load_state new replayed conflicts t = record {
  tags = sorted (tags_of new t.device_tags);
  friendly_name = or_else "" (lookup new t.device_overrides);
  user_id = or_else "" (lookup new t.device_users);
  policies = rank (select (is_of new) (values t.policies));
  conflicts = conflicts;
  replayed = replayed;
}

rows_of : String → String → List Conflict → List ConflictRow
rows_of old new [] = []
rows_of old new (c ∷ cs) =
    record { old_pdid = old; new_pdid = new; conflict = c } ∷ rows_of old new cs

-- The tables after the statements of a first migration.
pub written : String → String → Dict Policy → List Conflict → Tables → Tables
written old new policies conflicts t = record {
  device_tags = move_tags old new t.device_tags;
  device_overrides = move_value old new t.device_overrides;
  device_users = move_value old new t.device_users;
  policies = policies;
  redirects = insert old new (redirect_all old new t.redirects);
  migrations = insert old new t.migrations;
  conflicts = t.conflicts ++ rows_of old new conflicts;
}

abbrev pub first_migration :
    String → String → Tables → Option (Dict Policy × List Conflict) → Option Result × Tables
first_migration old new t none = (none, t)
first_migration old new t (some (policies, conflicts)) = (
  some (load_state new false conflicts (written old new policies conflicts t)),
  written old new policies conflicts t,
)

abbrev pub is_invalid : String → String → Bool
is_invalid old new = str_eq old "" || (str_eq new "" || str_eq old new)

pub migrate_identity_state : Details → ℕ → String → String → Tables → Option Result × Tables
migrate_identity_state details now old new t =
    if is_invalid old new then (none, t) else elim (lookup old t.migrations) [
      | some target ↦
          if str_eq target new
          then (some (load_state new true (recorded old new t.conflicts) t), t)
          else (none, t)
      | none ↦ first_migration old new t (migrate_identity_policies details now old new t.policies)
    ]

-- The coordinator: the store, if there is one, and what LIAS holds in memory.
pub record Coordinator : Type 0 where
  pub store : Option Tables
  pub cache : Cache
  pub policies : Policy.Engine

-- The policies that a coordinator without a store keeps.
abbrev moved_or_kept : String → String → Policy → List Policy
moved_or_kept old new p =
    if is_of old p
    then record p { id = retarget_temporary_policy_id p.id old new; target_id = new } ∷ []
    else if is_of new p
    then p ∷ []
    else []

in_memory : String → String → List Policy → List Policy
in_memory old new [] = []
in_memory old new (p ∷ ps) = moved_or_kept old new p ++ in_memory old new ps

-- `MigrationResult`, the number of conflicts and whether it is a replay, or an error.
pub data Outcome : Type 0 where
  failed : Outcome
  migrated : ℕ → Bool → Outcome

abbrev reconciled :
    String → String → List String → Tables → Option Result → Coordinator → Outcome × Coordinator
reconciled old new macs t none c = (failed, record c { store = some t })
reconciled old new macs t (some r) c = (
  migrated (length r.conflicts) r.replayed,
  record {
    store = some t;
    cache = reconcile_identity_migration old new macs r.tags r.friendly_name r.user_id c.cache;
    policies = reconcile_device_identity old new r.policies c.policies;
  },
)

pub migrate_identity :
    Details → ℕ → String → String → List String → Coordinator → Outcome × Coordinator
migrate_identity details now old new macs c =
    if is_invalid old new then (failed, c) else elim c.store [
      | none ↦ (
        migrated 0 false,
        record c {
          cache = migrate_device_identity old new macs c.cache;
          policies =
              reconcile_device_identity old new (in_memory old new (values c.policies.policies))
                c.policies;
        },
      )
      | some t ↦
          let (r, t') = migrate_identity_state details now old new t in
          reconciled old new macs t' r c
    ]
