-- ===== src/Inventory/Found.antt =====
-- What an upsert makes the indices find.
use lias_dis.Prelude.{
  ℕ, ◌<◌, String, ◌≡◌, refl, ◌∙◌, inl, inr, true, false, Option, none, some, arith, Bool-cases,
  Option-cases, str_eq, ◌==◌, ==_iff,
}
use lias_dis.Prelude.Dict.{Dict, lookup, lookup-insert, lookup-insert_self}
use lias_dis.Prelude.Text.{trim_space}
use lias_dis.Models.{Device}
use lias_dis.Inventory.{
  Parsers, normalize_mac, Cache, write, read, get, get_by_device_id, get_by_mac, get_by_ip, cleaned,
  insert_unless_blank, store_copy, upsert,
}

-- The addresses in the map of devices are below the next one that is given out.
unfoldable pub IsWell : Cache → Type 0
IsWell c = (k : String) (r : ℕ) → lookup k c.devices ≡ some r → r < c.next

some-eq : {a b : ℕ} → some a ≡ some b → a ≡ b
some-eq e = cc

-- Cleaning the indices leaves the devices.
cleaned-same :
    (p : Parsers) (d : Device) (o : Option Device) (c : Cache)
    → ((cleaned p d o c).heap ≡ c.heap)
      × ((cleaned p d o c).next ≡ c.next)
      × ((cleaned p d o c).devices ≡ c.devices)
cleaned-same p d none c = (refl, refl, refl)
cleaned-same p d (some old) c = (refl, refl, refl)

write-same : (r : ℕ) (d : Device) (heap : ℕ → Option Device) → write r d heap r ≡ some d
unfolding write
write-same r d heap = let same : (r == r) ≡ true = (==_iff r r).1 refl in rw (write, same) refl

module _ (p : Parsers) (d : Device) (c : Cache) where
  found_entry :
      (k : String) (m : Dict ℕ)
      → str_eq k "" ≡ false
      → read (store_copy p d c) (lookup k (insert_unless_blank k c.next m)) ≡ some d
  unfolding read
  found_entry k m b = rw (b, lookup-insert_self k c.next m, read) (write-same c.next d c.heap)

  get-store_copy : get (store_copy p d c) d.pdid ≡ some d
  unfolding get read
  get-store_copy =
      rw (get, lookup-insert_self d.pdid c.next c.devices, read) (write-same c.next d c.heap)

  get-other : (k : String) → IsWell c → str_eq d.pdid k ≡ false → get (store_copy p d c) k ≡ get c k
  unfolding get read IsWell write
  get-other k well n = elim (Option-cases (lookup k c.devices)) [
    | inl x ↦ rw (get, lookup-insert d.pdid k c.next c.devices, n, x, read) refl
    | inr (r, x) ↦
        let apart : (r == c.next) ≡ false = below r (well k r x) in
        rw (get, lookup-insert d.pdid k c.next c.devices, n, x, read, write, apart) refl
  ]
    where
      below : (r : ℕ) → r < c.next → (r == c.next) ≡ false
      below r l = elim (Bool-cases (r == c.next)) [
        | inl e ↦ absurd (let q : r ≡ c.next = (==_iff r c.next).0 e in omega (arith, q, l))
        | inr e ↦ e
      ]

  store_copy-IsWell : IsWell c → IsWell (store_copy p d c)
  unfolding IsWell
  store_copy-IsWell well k r e = elim (Bool-cases (str_eq d.pdid k)) [
    | inl y ↦
        let q : some c.next ≡ some r = rw (lookup-insert d.pdid k c.next c.devices, y) at e in
        let s : c.next ≡ r = some-eq q in omega (arith, s)
    | inr n ↦
        let q : lookup k c.devices ≡ some r =
          rw (lookup-insert d.pdid k c.next c.devices, n) at e in
        let l : r < c.next = well k r q in omega (arith, l)
  ]

cleaned-IsWell :
    (p : Parsers) (d : Device) (o : Option Device) (c : Cache) → IsWell c → IsWell (cleaned p d o c)
unfolding IsWell
cleaned-IsWell p d none c w = w
cleaned-IsWell p d (some old) c w = w

get-cleaned :
    (p : Parsers) (d : Device) (o : Option Device) (c : Cache) (k : String)
    → get (cleaned p d o c) k ≡ get c k
unfolding get read
get-cleaned p d none c k = refl
get-cleaned p d (some old) c k = refl

get_by_mac-read :
    (p : Parsers) (c : Cache) (mac k : String)
    → normalize_mac p mac ≡ k
    → str_eq k "" ≡ false
    → get_by_mac p c mac ≡ read c (lookup k c.mac_index)
unfolding get_by_mac
get_by_mac-read p c mac k e n = rw (get_by_mac, e, n) refl

get_by_ip-read :
    (c : Cache) (ip k : String)
    → trim_space ip ≡ k
    → str_eq k "" ≡ false
    → get_by_ip c ip ≡ read c (lookup k c.ip_index)
unfolding get_by_ip
get_by_ip-read c ip k e n = rw (get_by_ip, e, n) refl

-- After an upsert of a device with a key, it is found by its key, and by its device identifier, its
-- current hardware address and its current IP address where these are not empty, in whatever form
-- they are asked for. Under other keys the cache gives the devices that it gave. The addresses in the
-- map of devices stay below the next one that is given out.
pub upsert-found :
    (p : Parsers) (d : Device) (c : Cache)
    → IsWell c
    → str_eq d.pdid "" ≡ false
    → (get (upsert p d c) d.pdid ≡ some d)
      × ((id : String)
          → trim_space id ≡ d.device_id
          → str_eq d.device_id "" ≡ false
          → get_by_device_id (upsert p d c) id ≡ some d)
      × ((mac : String)
          → normalize_mac p mac ≡ normalize_mac p d.current_mac
          → str_eq (normalize_mac p d.current_mac) "" ≡ false
          → get_by_mac p (upsert p d c) mac ≡ some d)
      × ((ip : String)
          → trim_space ip ≡ trim_space d.current_ip
          → str_eq (trim_space d.current_ip) "" ≡ false
          → get_by_ip (upsert p d c) ip ≡ some d)
      × ((k : String) → str_eq d.pdid k ≡ false → get (upsert p d c) k ≡ get c k)
      × IsWell (upsert p d c)
unfolding upsert get_by_device_id
upsert-found p d c well b =
    let before : Cache = cleaned p d (get c d.pdid) c in
    let step : upsert p d c ≡ store_copy p d before = rw (upsert, b) refl in
    (
      rw step (get-store_copy p d before),
      λ id e n.
          rw (step, get_by_device_id, e)
            (found_entry p d before d.device_id before.device_id_index n),
      λ mac e n. rw step (
          get_by_mac-read p (store_copy p d before) mac (normalize_mac p d.current_mac) e n
          ∙ found_entry p d before (normalize_mac p d.current_mac) before.mac_index n),
      λ ip e n. rw step (
          get_by_ip-read (store_copy p d before) ip (trim_space d.current_ip) e n
          ∙ found_entry p d before (trim_space d.current_ip) before.ip_index n),
      λ k n. rw step (
          get-other p d before k (cleaned-IsWell p d (get c d.pdid) c well) n
          ∙ get-cleaned p d (get c d.pdid) c k),
      rw step (store_copy-IsWell p d before (cleaned-IsWell p d (get c d.pdid) c well)),
    )
