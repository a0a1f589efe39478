-- ===== src/HostnameOwners/Examples.antt =====
-- Runs of the ownership of hostnames, and its theorem at a concrete input.
use lias_dis.Prelude.{String, ◌≡◌, ◌↔◌, refl, true, false, some, [], ◌∷◌, str_eq, eq_iff}
use lias_dis.Prelude.Dict.{lookup}
use lias_dis.Samples.{blank}
use lias_dis.HostnameOwners.{
  Cache, acquire_reject, acquire_hostname, contest, is_gone, is_active, get_hostname_owner,
}
use lias_dis.HostnameOwners.Exclusive.{Taken, acquire_hostname-Taken}

abbrev owners : Cache
owners = record {
  devices = ("p1", record (blank "p1") { online = true; last_seen = 100 }) ∷ [];
  hostname_owners = ("tv", "p1") ∷ [];
}

acquire_hostname-test : (acquire_hostname 200 "tv" "p2" owners).result ≡ acquire_reject
unfolding acquire_hostname contest is_gone is_active lookup
acquire_hostname-test = refl

acquire_hostname-Taken_example :
    ((acquire_hostname 200 "tv" "p2" owners).result ≡ acquire_reject ↔ Taken 200 "tv" "p2" owners)
    × (Taken 200 "tv" "p2" owners → (acquire_hostname 200 "tv" "p2" owners).cache ≡ owners)
    × ((¬ Taken 200 "tv" "p2" owners)
        → get_hostname_owner "tv" (acquire_hostname 200 "tv" "p2" owners).cache ≡ some "p2")
    × ((h : String)
        → str_eq "tv" h ≡ false
        → get_hostname_owner h (acquire_hostname 200 "tv" "p2" owners).cache
          ≡ get_hostname_owner h owners)
acquire_hostname-Taken_example =
    acquire_hostname-Taken 200 "tv" "p2" owners
      (λ e. let q : false ≡ true = (eq_iff "tv" "").1 e in cc)
      (λ e. let q : false ≡ true = (eq_iff "p2" "").1 e in cc)
