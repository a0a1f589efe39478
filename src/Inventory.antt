-- ===== src/Inventory.antt =====
-- The indices of apps/discovery-service/internal/inventory/cache.go, with `NormalizeMAC` of
-- apps/discovery-service/internal/inventory/pdid.go and `AddMAC` and `AddIP` of
-- shared/models/device.go. A pointer to a device is an address in a heap, and the maps share the
-- addresses; a clone is the device that stands there. `net.ParseMAC` and `net.ParseIP` are
-- parameters, which give the text of the address. The hostnames and the times of the same file are
-- the subject of HostnameOwners.
pub mod Found
mod Examples
use Prim.Native.String.{[] as empty, ◌∷◌ as ◌∷ₛ◌}
use Prim.Native.Char.{Char, code}
use lias_dis.Prelude.{
  ℕ, ◌+◌, ◌-◌, String, Bool, true, false, not, ◌&&◌, ◌||◌, Option, none, some, List, [], ◌∷◌, ◌++◌,
  str_eq, if◌then◌else◌, exists, select, ◌==◌, length, ltb,
}
use lias_dis.Prelude.Dict.{Dict, lookup, insert, erase}
use lias_dis.Prelude.Text.{trim_space, to_lower}
use lias_dis.Models.{Device, has_mac}
use lias_dis.Hostname.{length_text}

pub record Parsers : Type 0 where
  pub parse_mac : String → Option String
  pub parse_ip : String → Option String

-- The three `strings.ReplaceAll` in a row.
abbrev is_separator : Char → Bool
is_separator c = code c == 45 || (code c == 46 || code c == 58)

without_separators : String → String
without_separators empty = empty
without_separators (c ∷ₛ s) =
    let rest = without_separators s in if is_separator c then rest else c ∷ₛ rest

colon : Char
colon = ":"

-- Pairs of characters with colons between.
with_colons : String → String
with_colons empty = empty
with_colons (c ∷ₛ empty) = c ∷ₛ empty
with_colons (c ∷ₛ d ∷ₛ empty) = c ∷ₛ d ∷ₛ empty
with_colons (c ∷ₛ d ∷ₛ (e ∷ₛ s)) = c ∷ₛ d ∷ₛ colon ∷ₛ with_colons (e ∷ₛ s)

abbrev or_blank : Option String → String
or_blank none = ""
or_blank (some m) = m

abbrev retry : Parsers → String → String
retry p clean = if length_text clean == 12 then or_blank (p.parse_mac (with_colons clean)) else ""

pub normalize_mac : Parsers → String → String
normalize_mac p mac =
    if str_eq mac ""
    then ""
    else elim (p.parse_mac mac) [ some m ↦ m | none ↦ retry p (without_separators mac) ]

abbrev or_text : String → Option String → String
or_text t none = t
or_text t (some s) = s

drop_texts : ℕ → List String → List String
drop_texts n [] = []
drop_texts n (x ∷ xs) = let rest = drop_texts (n - 1) xs in if n == 0 then x ∷ xs else rest

abbrev max_historical_macs : ℕ
max_historical_macs = 32

abbrev trimmed_history : List String → List String
trimmed_history ms =
    if ltb max_historical_macs (length ms)
    then drop_texts (length ms - max_historical_macs) ms
    else ms

add_mac : Parsers → String → Device → Device
add_mac p mac d =
    let low = to_lower (trim_space mac) in
    let clean = or_text low (p.parse_mac low) in
    if str_eq mac ""
    then d
    else if exists (λ m. str_eq m clean) d.macs
    then record d { current_mac = clean }
    else record d { current_mac = clean; macs = trimmed_history (d.macs ++ clean ∷ []) }

pub add_ip : Parsers → String → Device → Device
add_ip p ip d =
    let clean = or_text (trim_space ip) (p.parse_ip (trim_space ip)) in
    if str_eq ip ""
    then d
    else if exists (λ i. str_eq i clean) d.ips
    then record d { current_ip = clean }
    else record d { current_ip = clean; ips = d.ips ++ clean ∷ [] }

pub record Cache : Type 0 where
  pub heap : ℕ → Option Device
  pub next : ℕ
  pub devices : Dict ℕ
  pub device_id_index : Dict ℕ
  pub mac_index : Dict ℕ
  pub ip_index : Dict ℕ

pub new_cache : Cache
new_cache = record {
  heap = λ r. none;
  next = 0;
  devices = [];
  device_id_index = [];
  mac_index = [];
  ip_index = [];
}

-- `*r = d`
unfoldable pub write : ℕ → Device → (ℕ → Option Device) → ℕ → Option Device
write r d heap i = if i == r then some d else heap i

unfoldable pub read : Cache → Option ℕ → Option Device
read c none = none
read c (some r) = c.heap r

pub get : Cache → String → Option Device
get c pdid = read c (lookup pdid c.devices)

pub get_by_device_id : Cache → String → Option Device
get_by_device_id c device_id = read c (lookup (trim_space device_id) c.device_id_index)

pub get_by_mac : Parsers → Cache → String → Option Device
get_by_mac p c mac =
    let clean = normalize_mac p mac in
    if str_eq clean "" then none else read c (lookup clean c.mac_index)

pub get_by_ip : Cache → String → Option Device
get_by_ip c ip =
    let clean = trim_space ip in if str_eq clean "" then none else read c (lookup clean c.ip_index)

abbrev has_mac_at : String → Option Device → Bool
has_mac_at mac none = false
has_mac_at mac (some d) = has_mac d mac

first_with_mac : Cache → String → Dict ℕ → Option Device
first_with_mac c mac [] = none
first_with_mac c mac ((k, r) ∷ m) =
    let rest = first_with_mac c mac m in if has_mac_at mac (c.heap r) then c.heap r else rest

get_by_mac_cluster : Parsers → Cache → String → Option Device
get_by_mac_cluster p c mac =
    let clean = normalize_mac p mac in
    if str_eq clean "" then none else first_with_mac c clean c.devices

abbrev first_of : Option Device → Option Device → Option Device
first_of (some d) other = some d
first_of none other = other

get_by_mac_or_ip : Parsers → Cache → String → String → Option Device
get_by_mac_or_ip p c mac ip =
    first_of (get_by_mac p c mac) (first_of (get_by_mac_cluster p c mac) (get_by_ip c ip))

-- Whether an entry of an index leads to a device with a key.
abbrev leads_to : String → Option Device → Bool
leads_to pdid none = false
leads_to pdid (some d) = str_eq d.pdid pdid

-- An entry for an address that the device had and has no more, taken out.
abbrev drop_entry : Cache → String → String → String → Dict ℕ → Dict ℕ
drop_entry c pdid old new index =
    if not (str_eq old "") && (not (str_eq old new) && leads_to pdid (read c (lookup old index)))
    then erase old index
    else index

abbrev cleaned : Parsers → Device → Option Device → Cache → Cache
cleaned p d none c = c
cleaned p d (some old) c = record c {
  device_id_index =
      if not (str_eq old.device_id "") && not (str_eq old.device_id d.device_id)
      then erase old.device_id c.device_id_index
      else c.device_id_index;
  mac_index =
      drop_entry c d.pdid (normalize_mac p old.current_mac) (normalize_mac p d.current_mac)
        c.mac_index;
  ip_index = drop_entry c d.pdid (trim_space old.current_ip) (trim_space d.current_ip) c.ip_index;
}

abbrev insert_unless_blank : String → ℕ → Dict ℕ → Dict ℕ
insert_unless_blank k r m = if str_eq k "" then m else insert k r m

abbrev pub store_copy : Parsers → Device → Cache → Cache
store_copy p d c = record c {
  heap = write c.next d c.heap;
  next = c.next + 1;
  devices = insert d.pdid c.next c.devices;
  device_id_index = insert_unless_blank d.device_id c.next c.device_id_index;
  mac_index = insert_unless_blank (normalize_mac p d.current_mac) c.next c.mac_index;
  ip_index = insert_unless_blank (trim_space d.current_ip) c.next c.ip_index;
}

pub upsert : Parsers → Device → Cache → Cache
upsert p d c = if str_eq d.pdid "" then c else store_copy p d (cleaned p d (get c d.pdid) c)

-- `oldDev.CurrentIP = ""`, of another device that the index has for the address
abbrev release_ip : String → Option ℕ → Cache → Cache
release_ip pdid none c = c
release_ip pdid (some r) c = elim (c.heap r) [
  | none ↦ c
  | some old ↦
      if str_eq old.pdid pdid
      then c
      else record c { heap = write r (record old { current_ip = "" }) c.heap }
]

abbrev give_ip : Parsers → String → ℕ → Option Device → Cache → Cache
give_ip p ip r none c = c
give_ip p ip r (some d) c = record c {
  heap = write r (record (add_ip p ip d) { current_ip = ip }) c.heap;
  ip_index = insert ip r c.ip_index;
}

abbrev set_ip_at : Parsers → String → String → Option ℕ → Cache → Cache
set_ip_at p pdid ip none c = c
set_ip_at p pdid ip (some r) c =
    let c' = release_ip pdid (lookup ip c.ip_index) c in give_ip p ip r (c'.heap r) c'

pub set_current_ip : Parsers → String → String → Cache → Cache
set_current_ip p pdid ip c =
    let clean = trim_space ip in
    if str_eq pdid "" || str_eq clean ""
    then c
    else set_ip_at p pdid clean (lookup pdid c.devices) c

abbrev set_mac_at : Parsers → String → String → Option ℕ → Option Device → Cache → Cache
set_mac_at p pdid mac (some r) (some d) c = record c {
  heap = write r (add_mac p mac d) c.heap;
  mac_index = insert mac r (drop_entry c pdid (normalize_mac p d.current_mac) mac c.mac_index);
}
set_mac_at p pdid mac _ _ c = c

set_current_mac : Parsers → String → String → Cache → Cache
set_current_mac p pdid mac c =
    let clean = normalize_mac p mac in
    if str_eq pdid "" || str_eq clean ""
    then c
    else set_mac_at p pdid clean (lookup pdid c.devices) (get c pdid) c

abbrev last_text : List String → String
last_text [] = ""
last_text (x ∷ []) = x
last_text (x ∷ (y ∷ ys)) = last_text (y ∷ ys)

abbrev without_ip : String → Device → Device
without_ip ip d =
    let ips = select (λ i. not (str_eq i ip)) d.ips in
    record d {
      ips = ips;
      current_ip = if str_eq d.current_ip ip then last_text ips else d.current_ip;
    }

abbrev drop_ip_at : String → Option ℕ → Option Device → Cache → Cache
drop_ip_at ip (some r) (some d) c = record c {
  heap = write r (without_ip ip d) c.heap;
  ip_index = erase ip c.ip_index;
}
drop_ip_at ip _ _ c = c

remove_ip_index : String → Cache → Cache
remove_ip_index ip c =
    let clean = trim_space ip in
    if str_eq clean ""
    then c
    else drop_ip_at clean (lookup clean c.ip_index) (read c (lookup clean c.ip_index)) c

abbrev delete_at : Parsers → String → Option Device → Cache → Cache
delete_at p pdid none c = c
delete_at p pdid (some d) c = record c {
  mac_index = erase (normalize_mac p d.current_mac) c.mac_index;
  ip_index = erase (trim_space d.current_ip) c.ip_index;
  device_id_index = erase d.device_id c.device_id_index;
  devices = erase pdid c.devices;
}

delete : Parsers → String → Cache → Cache
delete p pdid c = delete_at p pdid (get c pdid) c
