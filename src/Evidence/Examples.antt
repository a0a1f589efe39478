-- ===== src/Evidence/Examples.antt =====
-- The theorem on two addresses that share a hostname and a time.
use lias_dis.Prelude.{◌≡◌, true, false, not, ◌&&◌, []}
use lias_dis.Evidence.{
  PassiveInput, Locally, host_match, service_match, recent_handoff, vendor_match, simultaneous,
  score_passive,
}
use lias_dis.Evidence.Weight.{enough, score_passive-enough}

abbrev never : Locally
never mac = false

abbrev input : PassiveInput
input = record {
  same_ip = true;
  canonical_hostname = "tv";
  existing_hostname = "TV";
  services = [];
  existing_services = [];
  vendor = "";
  existing_vendor = "";
  new_mac = "aa";
  existing_mac = "bb";
  existing_online = false;
  existing_last_seen = 5;
  observed_at = 9;
}

score_passive-enough_example :
    ((score_passive never input).ambiguous ≡ (
      not (simultaneous input)
      && enough input.same_ip
          (host_match input)
          (service_match input)
          (recent_handoff input)
          (vendor_match never input)))
    × ((score_passive never input).conflict ≡ simultaneous input)
    × ((score_passive never input).auto_merge ≡ false)
score_passive-enough_example = score_passive-enough never input
