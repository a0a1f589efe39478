-- ===== src/Inventory/Examples.antt =====
-- Runs of the indices, and the theorem on an empty cache.
use lias_dis.Prelude.{String, ◌≡◌, refl, true, false, Option, none, some, str_eq, exists}
use lias_dis.Prelude.Dict.{lookup, insert}
use lias_dis.Prelude.Text.{trim_space}
use lias_dis.Models.{Device}
use lias_dis.Samples.{blank}
use lias_dis.SyncCache.{is_some}
use lias_dis.Inventory.{
  Parsers, Cache, new_cache, normalize_mac, upsert, get, get_by_device_id, get_by_mac, get_by_ip,
  set_current_ip, add_ip, read, write,
}
use lias_dis.Inventory.Found.{IsWell, upsert-found}

abbrev parsers : Parsers
parsers = record { parse_mac = λ m. some m; parse_ip = λ i. some i }

abbrev device : Device
device = record (blank "d") { current_mac = "aa"; current_ip = "10.0.0.9" }

upsert-found_example :
    (get (upsert parsers device new_cache) "d" ≡ some device)
    × ((id : String)
        → trim_space id ≡ ""
        → str_eq "" "" ≡ false
        → get_by_device_id (upsert parsers device new_cache) id ≡ some device)
    × ((mac : String)
        → normalize_mac parsers mac ≡ normalize_mac parsers "aa"
        → str_eq (normalize_mac parsers "aa") "" ≡ false
        → get_by_mac parsers (upsert parsers device new_cache) mac ≡ some device)
    × ((ip : String)
        → trim_space ip ≡ trim_space "10.0.0.9"
        → str_eq (trim_space "10.0.0.9") "" ≡ false
        → get_by_ip (upsert parsers device new_cache) ip ≡ some device)
    × ((k : String)
        → str_eq "d" k ≡ false
        → get (upsert parsers device new_cache) k ≡ get new_cache k)
    × IsWell (upsert parsers device new_cache)
unfolding IsWell new_cache lookup
upsert-found_example =
    upsert-found parsers device new_cache (λ k r e. let q : none ≡ some r = e in cc) refl

abbrev hostname_of : Option Device → String
hostname_of none = ""
hostname_of (some d) = d.hostname

-- The device moves to another address and is then written again with a name: its first address
-- still leads to the copy without the name.
abbrev moved : Cache
moved =
    upsert parsers (record device { hostname = "tv"; current_ip = "10.0.0.7" })
      (set_current_ip parsers "d" "10.0.0.7" (upsert parsers device new_cache))

stale_entry_test :
    (hostname_of (get moved "d") ≡ "tv") × (hostname_of (get_by_ip moved "10.0.0.9") ≡ "")
unfolding upsert set_current_ip new_cache get get_by_ip read write lookup insert trim_space
    normalize_mac add_ip exists
stale_entry_test = (refl, refl)

get_by_ip_test : is_some (get_by_ip moved "10.0.0.9") ≡ true
unfolding upsert set_current_ip new_cache get get_by_ip read write lookup insert trim_space
    normalize_mac
get_by_ip_test = refl
