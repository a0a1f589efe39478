-- ===== src/Samples.antt =====
-- Test data that the examples of several modules share: a device with no data but its key, and a
-- plain policy.
use lias_dis.Prelude.{String, false, true, none, [], List}
use lias_dis.Prelude.Int.{pos}
use lias_dis.Models.{Action, Device, IdentityTier, Policy, PolicyType}
use lias_dis.LocalDevice.{LocalDevice}

abbrev pub blank : String → Device
blank pdid = record {
  device_id = "";
  pdid = pdid;
  identity_tier = IdentityTier.tentative;
  identity_anchor = "";
  canonical_hostname = "";
  current_mac = "";
  macs = [];
  current_ip = "";
  ips = [];
  hostname = "";
  friendly_name = "";
  manufacturer = "";
  vendor = "";
  model = "";
  device_type = "";
  services = [];
  online = false;
  pending_online_obs = [];
  is_tentative = false;
  first_seen = 0;
  last_seen = 0;
  confidence = 0;
  tags = [];
  user_id = "";
  source_info = [];
  identity_assurance = "";
  identity_probability = 0;
  identity_ambiguous = false;
  last_enriched_at = 0;
  last_nmap_scan_at = 0;
  nmap_attempt_count = 0;
  is_fully_identified = false;
}

abbrev pub tagged : String → List String → LocalDevice
tagged pdid ts = record {
  device = record (blank pdid) { tags = ts };
  tags = ts;
  policy = none;
  next_state_change = none;
}

abbrev pub rule : String → PolicyType → String → Action → Policy
rule id type target action = record {
  id = id;
  name = id;
  type = type;
  target_id = target;
  action = action;
  schedule_ids = [];
  schedule_id = none;
  priority = pos 0;
  enabled = true;
  created_at = 0;
  updated_at = 0;
  expires_at = none;
  reason_tag = "";
}
