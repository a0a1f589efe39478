-- ===== src/Evidence.antt =====
-- The evidence of identity in DIS: apps/discovery-service/internal/identity/scorer.go, the tiers of
-- apps/discovery-service/internal/inventory/pdid.go, and `ValidateIPClaim` of
-- apps/discovery-service/internal/correlation/ipclaim.go. The score is kept as exact odds, a pair of
-- numbers, in place of the logarithm of a float; a probability is at least one half when the odds
-- are at least one, and no product of the ratios here is near to that. Whether an address is locally
-- administered, and the normal form of an address, come from a parser, which is a parameter. Times
-- are in nanoseconds.
pub mod Weight
mod Examples
use lias_dis.Prelude.{
  ℕ, ◌+◌, ◌-◌, ◌*◌, String, Bool, true, false, not, ◌&&◌, ◌||◌, Option, none, some, List, [], ◌∷◌,
  ◌++◌, ltb, leb, str_eq, if◌then◌else◌, exists, ◌==◌, length, select,
}
use lias_dis.Prelude.Text.{to_lower, trim_space, concat}
use lias_dis.Models.{Device, IdentityTier}
use lias_dis.Hostname.{canonicalize_hostname}
use lias_dis.Correlation.{normalized_observation_time}

pub record PassiveInput : Type 0 where
  pub same_ip : Bool
  pub canonical_hostname : String
  pub existing_hostname : String
  pub services : List String
  pub existing_services : List String
  pub vendor : String
  pub existing_vendor : String
  pub new_mac : String
  pub existing_mac : String
  pub existing_online : Bool
  pub existing_last_seen : ℕ
  pub observed_at : ℕ

-- A ratio of two numbers.
pub record Odds : Type 0 where
  pub for : ℕ
  pub against : ℕ

pub record Factor : Type 0 where
  pub kind : String
  pub matched : Bool
  pub ratio : Odds

pub record Decision : Type 0 where
  pub odds : Odds
  pub ambiguous : Bool
  pub conflict : Bool
  pub auto_merge : Bool
  pub factors : List Factor

-- strings.EqualFold, for ASCII
abbrev equal_fold : String → String → Bool
equal_fold a b = str_eq (to_lower a) (to_lower b)

-- The keys of a set of cleaned texts.
abbrev add_clean : String → List String → List String
add_clean v s = if str_eq v "" || exists (λ x. str_eq x v) s then s else s ++ v ∷ []

pub clean_set : List String → List String → List String
clean_set [] s = s
clean_set (v ∷ vs) s = clean_set vs (add_clean (to_lower (trim_space v)) s)

abbrev is_nil : List String → Bool
is_nil [] = true
is_nil (x ∷ xs) = false

-- `jaccard(a, b) >= 0.5`: twice the intersection is at least the union.
abbrev half_shared : List String → List String → Bool
half_shared left right =
    let shared = length (select (λ v. exists (λ w. str_eq w v) right) left) in
    leb (length left + length right - shared) (2 * shared)

pub jaccard_gte_half : List String → List String → Bool
jaccard_gte_half a b =
    let left = clean_set a [] in
    let right = clean_set b [] in
    if is_nil left || is_nil right then false else half_shared left right

abbrev pub minute : ℕ
minute = 60 * 1_000_000_000

abbrev pub host_match : PassiveInput → Bool
host_match i =
    not (str_eq i.canonical_hostname "")
    && (not (str_eq i.existing_hostname "") && equal_fold i.canonical_hostname i.existing_hostname)

abbrev pub service_match : PassiveInput → Bool
service_match i = jaccard_gte_half i.services i.existing_services

abbrev pub recent_handoff : PassiveInput → Bool
recent_handoff i =
    not (i.existing_last_seen == 0)
    && (not (i.observed_at == 0)
        && (leb i.existing_last_seen i.observed_at
            && leb i.observed_at (i.existing_last_seen + minute)))

abbrev pub Locally : Type 0
Locally = String → Bool

abbrev pub vendor_match : Locally → PassiveInput → Bool
vendor_match locally i =
    not (str_eq i.vendor "")
    && (not (str_eq i.existing_vendor "")
        && (not (locally i.new_mac)
            && (not (locally i.existing_mac) && equal_fold i.vendor i.existing_vendor)))

abbrev pub simultaneous : PassiveInput → Bool
simultaneous i = i.existing_online && recent_handoff i

abbrev ratio : ℕ → ℕ → Odds
ratio for against = record { for = for; against = against }

-- `priorSameDevice / (1 - priorSameDevice)`, 0.05 to 0.95
abbrev prior : Odds
prior = ratio 1 19

abbrev pub weigh : Factor → Odds → Odds
weigh f o = if f.matched then ratio (o.for * f.ratio.for) (o.against * f.ratio.against) else o

unfoldable pub weigh_all : List Factor → Odds → Odds
weigh_all [] o = o
weigh_all (f ∷ fs) o = weigh_all fs (weigh f o)

abbrev factor : String → Bool → Odds → Factor
factor kind matched r = record { kind = kind; matched = matched; ratio = r }

-- The factors of six tests.
abbrev pub factors_of : Bool → Bool → Bool → Bool → Bool → Bool → List Factor
factors_of ip host services handoff vendor both =
    factor "same_ip" ip (ratio 2 1)
    ∷ factor "canonical_hostname" host (ratio 8 1)
    ∷ factor "service_jaccard_gte_0_5" services (ratio 4 1)
    ∷ factor "temporal_handoff_lte_60s" handoff (ratio 3 1)
    ∷ factor "global_mac_vendor" vendor (ratio 3 2)
    ∷ factor "simultaneous_presence_conflict" both (ratio 1 50)
    ∷ []

-- The probability is at least `PassiveCandidateThreshold`.
abbrev pub reaches_threshold : Odds → Bool
reaches_threshold o = leb o.against o.for

pub decide : Bool → Bool → Bool → Bool → Bool → Bool → Decision
decide ip host services handoff vendor both =
    let fs = factors_of ip host services handoff vendor both in
    let o = weigh_all fs prior in
    record {
      odds = o;
      ambiguous = reaches_threshold o;
      conflict = both && not (reaches_threshold o);
      auto_merge = false;
      factors = fs;
    }

pub score_passive : Locally → PassiveInput → Decision
score_passive locally i =
    decide i.same_ip (host_match i) (service_match i) (recent_handoff i) (vendor_match locally i)
      (simultaneous i)

pub data IpClaim : Type 0 where
  attach create_new create_new_silent : IpClaim

pub record Claim : Type 0 where
  pub mac : Option String
  pub hostname : String
  pub services : List String
  pub vendor : String
  pub timestamp : ℕ

abbrev claim_input : ℕ → Claim → String → Device → PassiveInput
claim_input now obs mac d = record {
  same_ip = true;
  canonical_hostname = canonicalize_hostname obs.hostname;
  existing_hostname = d.canonical_hostname;
  services = obs.services;
  existing_services = d.services;
  vendor = obs.vendor;
  existing_vendor = d.vendor;
  new_mac = mac;
  existing_mac = d.current_mac;
  existing_online = d.online;
  existing_last_seen = d.last_seen;
  observed_at = normalized_observation_time now obs.timestamp;
}

abbrev pub claim_against : Locally → ℕ → Claim → Option String → Option Device → IpClaim
claim_against locally now obs (some mac) (some d) =
    if reaches_threshold (score_passive locally (claim_input now obs mac d)).odds
    then create_new_silent
    else create_new
claim_against locally now obs mac d = create_new_silent

pub validate_ip_claim : Locally → ℕ → Claim → Option Device → IpClaim
validate_ip_claim locally now obs existing = claim_against locally now obs obs.mac existing

tier_prefix : IdentityTier → String
tier_prefix IdentityTier.bia = "pdid_bia_"
tier_prefix IdentityTier.l7 = "pdid_l7_"
tier_prefix _ = "pdid_tent_"

-- `fresh` is the anchor made of the time, where there is nothing else.
derive_tier_and_anchor :
    (String → String) → Locally → String → String → String → String → IdentityTier × String
derive_tier_and_anchor normalize locally fresh mac hostname vendor =
    let clean_mac = normalize mac in
    let clean_host = to_lower (trim_space hostname) in
    if not (str_eq clean_mac "") && not (locally clean_mac)
    then (IdentityTier.bia, clean_mac)
    else if not (str_eq clean_host "")
    then (
      IdentityTier.l7,
      if str_eq vendor "" then clean_host else concat (clean_host ∷ ":" ∷ vendor ∷ []),
    )
    else (IdentityTier.tentative, if str_eq clean_mac "" then fresh else clean_mac)

can_promote : IdentityTier → IdentityTier → Bool
can_promote IdentityTier.tentative IdentityTier.l7 = true
can_promote IdentityTier.tentative IdentityTier.bia = true
can_promote IdentityTier.l7 IdentityTier.bia = true
can_promote _ _ = false
