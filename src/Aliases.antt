-- ===== src/Aliases.antt =====
-- The table `identity_aliases` of apps/discovery-service/internal/storage/identity.go: how an alias
-- of a device is written, revoked and found. The statements of SQL are read as what they do to the
-- rows; a confidence is a number of parts, a time is in nanoseconds and 0 is the zero time. Errors
-- of the database itself are not modelled. The table `devices` is a map from the identifier of a
-- device to its PDID.
pub mod Exclusive
pub mod Owners
mod Examples
use Prim.Native.String.{compare}
use text.Mathlib.Text.{is_lt}
use lias_dis.Prelude.{
  ℕ, ◌+◌, String, Bool, true, false, not, ◌&&◌, ◌||◌, Option, none, some, List, [], ◌∷◌, ◌++◌, leb,
  str_eq, if◌then◌else◌, exists, ◌==◌,
}
use lias_dis.Prelude.Dict.{Dict, lookup}

-- A row of the table.
pub record Row : Type 0 where
  pub id : ℕ
  pub device_id : String
  pub alias_type : String
  pub value_hash : String
  pub source : String
  pub confidence : ℕ
  pub verified : Bool
  pub first_seen : ℕ
  pub last_seen : ℕ
  pub revoked_at : Option ℕ

-- The rows, and the identifier of the next one.
pub record Table : Type 0 where
  pub rows : List Row
  pub next_id : ℕ

pub new_table : Table
new_table = record { rows = []; next_id = 1 }

-- The fields of an alias that a write reads.
pub record Alias : Type 0 where
  pub device_id : String
  pub alias_type : String
  pub value_hash : String
  pub source : String
  pub confidence : ℕ
  pub verified : Bool
  pub first_seen : ℕ
  pub last_seen : ℕ

pub data Upserted : Type 0 where
  invalid conflict : Upserted
  upserted : ℕ → Upserted

abbrev pub is_none : Option ℕ → Bool
is_none none = true
is_none (some t) = false

-- verified = 1 AND revoked_at IS NULL
abbrev pub is_live : Row → Bool
is_live r = r.verified && is_none r.revoked_at

abbrev pub is_alias : String → String → Row → Bool
is_alias alias_type value_hash r = str_eq r.alias_type alias_type && str_eq r.value_hash value_hash

-- Another device owns the verified alias.
abbrev pub owned_by_other : Alias → Row → Bool
owned_by_other a r =
    is_alias a.alias_type a.value_hash r && (is_live r && not (str_eq r.device_id a.device_id))

abbrev pub is_same : Alias → Row → Bool
is_same a r = str_eq r.device_id a.device_id && is_alias a.alias_type a.value_hash r

unfoldable pub find_row : (Row → Bool) → List Row → Option Row
find_row test [] = none
find_row test (r ∷ rs) = if test r then some r else find_row test rs

unfoldable pub update_where : (Row → Bool) → (Row → Row) → List Row → List Row
update_where test change [] = []
update_where test change (r ∷ rs) = (if test r then change r else r) ∷ update_where test change rs

abbrev max : ℕ → ℕ → ℕ
max a b = if leb a b then b else a

-- The row after the UPDATE of a write.
abbrev pub refreshed : Alias → Row → Row
refreshed a r = record r {
  source = a.source;
  confidence = max r.confidence a.confidence;
  verified = r.verified || a.verified;
  revoked_at = none;
}

-- The row has all that the write would bring.
abbrev is_settled : Alias → Row → Bool
is_settled a r =
    str_eq r.source a.source
    && (leb a.confidence r.confidence && ((r.verified || not a.verified) && is_none r.revoked_at))

abbrev pub new_row : ℕ → Alias → ℕ → Row
new_row now a id =
    let first = if a.first_seen == 0 then now else a.first_seen in
    record {
      id = id;
      device_id = a.device_id;
      alias_type = a.alias_type;
      value_hash = a.value_hash;
      source = a.source;
      confidence = a.confidence;
      verified = a.verified;
      first_seen = first;
      last_seen = if a.last_seen == 0 then first else a.last_seen;
      revoked_at = none;
    }

abbrev pub write_row : ℕ → Alias → Option Row → Table → Upserted × Table
write_row now a none t = (
  upserted t.next_id,
  record { rows = t.rows ++ new_row now a t.next_id ∷ []; next_id = t.next_id + 1 },
)
write_row now a (some r) t = if is_settled a r then (upserted r.id, t) else (
  upserted r.id,
  record t { rows = update_where (λ (s : Row). s.id == r.id) (refreshed a) t.rows },
)

unfoldable pub upsert_identity_alias : ℕ → Alias → Table → Upserted × Table
upsert_identity_alias now a t =
    if str_eq a.device_id "" || (str_eq a.alias_type "" || str_eq a.value_hash "")
    then (invalid, t)
    else if a.verified && exists (owned_by_other a) t.rows
    then (conflict, t)
    else write_row now a (find_row (is_same a) t.rows) t

abbrev device_with : String → Dict String → Option String
device_with pdid [] = none
device_with pdid ((d, p) ∷ ds) = if str_eq p pdid then some d else device_with pdid ds

abbrev is_row_of : ℕ → Option String → Row → Bool
is_row_of id none r = false
is_row_of id (some device_id) r = (r.id == id) && str_eq r.device_id device_id

-- False for `ErrIdentityNotFound`.
unfoldable pub revoke_identity_alias : ℕ → Dict String → String → ℕ → Table → Bool × Table
revoke_identity_alias now devices pdid id t =
    let test = is_row_of id (device_with pdid devices) in
    (
      exists test t.rows,
      record t {
        rows = update_where test (λ (r : Row). record r { revoked_at = some now }) t.rows;
      },
    )

-- DISTINCT d.pdid ... ORDER BY d.pdid
unfoldable pub insert_distinct : String → List String → List String
insert_distinct p [] = p ∷ []
insert_distinct p (q ∷ qs) =
    let rest = insert_distinct p qs in
    if str_eq q p then q ∷ qs else if is_lt (compare p q) then p ∷ q ∷ qs else q ∷ rest

abbrev pub add_distinct : Option String → List String → List String
add_distinct none ps = ps
add_distinct (some p) ps = insert_distinct p ps

unfoldable pub find_verified_alias_pdids : Dict String → String → String → List Row → List String
find_verified_alias_pdids devices alias_type value_hash [] = []
find_verified_alias_pdids devices alias_type value_hash (r ∷ rs) =
    let rest = find_verified_alias_pdids devices alias_type value_hash rs in
    if is_alias alias_type value_hash r && is_live r
    then add_distinct (lookup r.device_id devices) rest
    else rest
