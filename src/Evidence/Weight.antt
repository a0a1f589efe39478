-- ===== src/Evidence/Weight.antt =====
-- Which evidence makes a candidate.
use lias_dis.Prelude.{◌≡◌, refl, Bool, true, false, not, ◌&&◌, ◌||◌, arith}
use lias_dis.Evidence.{
  PassiveInput, Locally, host_match, service_match, recent_handoff, vendor_match, simultaneous,
  weigh_all, decide, score_passive,
}

-- The tests of which enough are met.
abbrev pub enough : Bool → Bool → Bool → Bool → Bool → Bool
enough ip host services handoff vendor =
    (host && (services || (handoff || (ip && vendor)))) || (ip && (services && handoff))

decide-enough :
    (ip host services handoff vendor : Bool)
    → ((decide ip host services handoff vendor false).ambiguous
        ≡ enough ip host services handoff vendor)
      × ((decide ip host services handoff vendor false).conflict ≡ false)
unfolding decide weigh_all
decide-enough ip host services handoff vendor = ground arith

-- Two devices that were there at once are no candidate.
decide-both :
    (ip host services handoff vendor : Bool)
    → ((decide ip host services handoff vendor true).ambiguous ≡ false)
      × ((decide ip host services handoff vendor true).conflict ≡ true)
unfolding decide weigh_all
decide-both ip host services handoff vendor = ground arith

-- Passive evidence makes a relationship worth a review just when the device was not seen online
-- within the last minute, and either the hostnames match and so do the services, the time, or both
-- the address and the vendor, or the address, the services and the time all match. A conflict is
-- reported just for a device that was online within that minute, and nothing is ever merged.
pub score_passive-enough :
    (locally : Locally) (i : PassiveInput)
    → ((score_passive locally i).ambiguous ≡ (
        not (simultaneous i)
        && enough i.same_ip
            (host_match i)
            (service_match i)
            (recent_handoff i)
            (vendor_match locally i)))
      × ((score_passive locally i).conflict ≡ simultaneous i)
      × ((score_passive locally i).auto_merge ≡ false)
unfolding score_passive decide
score_passive-enough locally i =
    by_presence i.same_ip (host_match i) (service_match i) (recent_handoff i)
      (vendor_match locally i) (simultaneous i)
  where
    by_presence :
        (ip host services handoff vendor both : Bool)
        → ((decide ip host services handoff vendor both).ambiguous
            ≡ (not both && enough ip host services handoff vendor))
          × ((decide ip host services handoff vendor both).conflict ≡ both)
          × ((decide ip host services handoff vendor both).auto_merge ≡ false)
    by_presence ip host services handoff vendor true =
        let (a, c) = decide-both ip host services handoff vendor in (a, c, refl)
    by_presence ip host services handoff vendor false =
        let (a, c) = decide-enough ip host services handoff vendor in (a, c, refl)
