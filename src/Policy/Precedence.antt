-- ===== src/Policy/Precedence.antt =====
-- The order of precedence that `EvaluateAction` promises, as a relation, and the proof that the
-- method follows it.
use lias_dis.Prelude.{
  String, ◌≡◌, ◌≢◌, refl, sym, ap, subst, Bool, true, false, ◌&&◌, Option, none, some, List, [],
  ◌∷◌, arith, exists, Bool-cases, Option-cases, ◌⊎◌, inl, inr, In, In-of_exists, exists_of_In,
  str_eq, eq_iff, eq_refl, and_left, and_right,
}
use lias_dis.Prelude.Dict.{lookup}
use lias_dis.Models.{Action, Policy, is_allow, is_block, has_tag}
use lias_dis.LocalDevice.{LocalDevice}
use lias_dis.Policy.{
  Engine, scanned, values, is_candidate, scan_tags, global_is, infrastructure, Evaluator,
  run_policy, run_global, run_tags, run_device_or_tags, evaluate_action,
}
use lias_dis.Policy.Best.{BestOf, best_device-BestOf}
use lias_dis.Policy.Tags.{
  Blocks, tag_allows, bundles, first_blocked, scan_tags-eq, first_blocked-Blocks,
  Blocks-first_blocked,
}

abbrev global_policy : Engine → Option Policy
global_policy e = lookup "global_default" e.policies

-- An enabled global policy passes a test on its action.
abbrev pub GlobalIs : (Action → Bool) → Option Policy → Type 0
GlobalIs test g = (p : Policy) × (g ≡ some p) × (p.enabled ≡ true) × (test p.action ≡ true)

-- Some enabled policy allows one of the tags.
abbrev pub Allows : List Policy → List String → Type 0
Allows ps ts = (t : String) × (p : Policy) × In t ts × In p ps × (tag_allows t p ≡ true)

abbrev NoneOwn : String → List Policy → Type 0
NoneOwn pdid ps = (q : Policy) → In q ps → is_candidate pdid q ≡ false

module _ (e : Engine) (d : LocalDevice) (ev : Evaluator) where
  abbrev ps : List Policy
  ps = values e.policies

  -- No rule above the device's own policies applies.
  pub record Unsettled : Type 0 where
    pub not_immune : ¬ In infrastructure d.device.tags
    pub not_killed : ¬ GlobalIs is_block (global_policy e)
    pub not_opened : ¬ GlobalIs is_allow (global_policy e)

  -- The rules, from the strongest to the weakest.
  pub data Decided : Action → Type 0 where
    immune : In infrastructure d.device.tags → Decided Action.allow
    killed :
        ¬ In infrastructure d.device.tags
        → GlobalIs is_block (global_policy e)
        → Decided Action.block
    opened :
        ¬ In infrastructure d.device.tags
        → ¬ GlobalIs is_block (global_policy e)
        → GlobalIs is_allow (global_policy e)
        → Decided Action.allow
    own :
        Unsettled
        → (b : Policy) → BestOf d.device.pdid (λ q. In q ps) (some b)
        → Decided (run_policy ev b)
    tag_blocked : Unsettled → NoneOwn d.device.pdid ps → Blocks ps d.tags → Decided Action.block
    tag_allowed :
        Unsettled
        → NoneOwn d.device.pdid ps
        → ¬ Blocks ps d.tags
        → Allows ps d.tags
        → Decided Action.allow
    tag_bundle :
        Unsettled
        → NoneOwn d.device.pdid ps
        → ¬ Blocks ps d.tags
        → ¬ Allows ps d.tags
        → bundles ps d.tags ≢ []
        → (f : List String → Action) → ev ≡ some f
        → Decided (f (bundles ps d.tags))
    by_default :
        Unsettled
        → NoneOwn d.device.pdid ps
        → ¬ Blocks ps d.tags
        → ¬ Allows ps d.tags
        → (bundles ps d.tags ≡ []) ⊎ (ev ≡ none)
        → Decided (run_global ev (global_policy e))

infrastructure-ne-empty : str_eq infrastructure "" ≡ false
unfolding infrastructure
infrastructure-ne-empty = refl

immune_of_test :
    (d : LocalDevice) → has_tag d.device infrastructure ≡ true → In infrastructure d.device.tags
unfolding has_tag
immune_of_test d h =
    let (t, m, e) =
      In-of_exists (λ t. str_eq t infrastructure) d.device.tags (rw infrastructure-ne-empty at h) in
    subst (λ x. In x d.device.tags) ((eq_iff t infrastructure).0 e) m

pub test_of_immune :
    (d : LocalDevice) → In infrastructure d.device.tags → has_tag d.device infrastructure ≡ true
unfolding has_tag
test_of_immune d m = rw infrastructure-ne-empty (
    exists_of_In (λ t. str_eq t infrastructure) infrastructure d.device.tags m
      (eq_refl infrastructure))

global_of_test :
    (test : Action → Bool) (g : Option Policy)
    → global_is (λ p. p.enabled && test p.action) g ≡ true
    → GlobalIs test g
global_of_test test none h = absurd (ground arith)
global_of_test test (some g) h = (g, refl, and_left _ _ h, and_right _ _ h)

pub test_of_global :
    (test : Action → Bool) (g : Option Policy)
    → GlobalIs test g
    → global_is (λ p. p.enabled && test p.action) g ≡ true
test_of_global test g (p, e, n, t) = rw (e, n, t)

pub Allows-of_test :
    (qs : List Policy) (ts : List String)
    → exists (λ t. exists (tag_allows t) qs) ts ≡ true
    → Allows qs ts
Allows-of_test qs ts h =
    let (t, m, e) = In-of_exists (λ t. exists (tag_allows t) qs) ts h in
    let (p, n, a) = In-of_exists (tag_allows t) qs e in (t, p, m, n, a)

pub test_of_Allows :
    (qs : List Policy) (ts : List String)
    → Allows qs ts
    → exists (λ t. exists (tag_allows t) qs) ts ≡ true
test_of_Allows qs ts (t, p, m, n, a) =
    exists_of_In (λ t. exists (tag_allows t) qs) t ts m (exists_of_In (tag_allows t) p qs n a)

-- A test that fails refutes what would make it pass.
refuted {ℓ} : {P : Type ℓ} (b : Bool) → (P → b ≡ true) → b ≡ false → ¬ P
refuted b f e p = cc (f p)

module _ (e : Engine) (d : LocalDevice) (ev : Evaluator) where
  Decided-bundle :
      Unsettled e d ev
      → NoneOwn d.device.pdid (values e.policies)
      → ¬ Blocks (values e.policies) d.tags
      → ¬ Allows (values e.policies) d.tags
      → (ids : List String) → bundles (values e.policies) d.tags ≡ ids
      → Decided e d ev (run_tags ev (global_policy e) (scanned false ids))
  Decided-bundle u n b a [] h = by_default u n b a (inl h)
  Decided-bundle u n b a (s ∷ ss) h = elim (Option-cases ev) [
    | inl x ↦
        subst (Decided e d ev)
          (ap (λ v. run_tags v (global_policy e) (scanned false (s ∷ ss))) (sym x))
          (subst (Decided e d ev) (ap (λ v. run_global v (global_policy e)) x)
            (by_default u n b a (inr x)))
    | inr (f, x) ↦
        subst (Decided e d ev)
          (ap (λ v. run_tags v (global_policy e) (scanned false (s ∷ ss))) (sym x))
          (subst (λ ids. Decided e d ev (f ids)) h (tag_bundle u n b a (λ k. cc (h)) f x))
  ]

  Decided-tags :
      Unsettled e d ev
      → NoneOwn d.device.pdid (values e.policies)
      → Decided e d ev
          (run_tags ev (global_policy e) (scan_tags (values e.policies) (scanned false []) d.tags))
  Decided-tags u n =
      rw (scan_tags-eq (values e.policies) false [] d.tags)
        (elim (Option-cases (first_blocked (values e.policies) d.tags)) [
          | inr (t, x) ↦ rw x (tag_blocked u n (first_blocked-Blocks (values e.policies) d.tags x))
          | inl x ↦ rw x (
              let nb : ¬ Blocks (values e.policies) d.tags =
                λ b. cc (x, (Blocks-first_blocked (values e.policies) d.tags b).1) in
              elim (Bool-cases (exists (λ t. exists (tag_allows t) (values e.policies)) d.tags)) [
                | inl y ↦ rw y (tag_allowed u n nb (Allows-of_test (values e.policies) d.tags y))
                | inr y ↦ rw y (
                    Decided-bundle u n nb (refuted _ (test_of_Allows (values e.policies) d.tags) y)
                      _ refl)
              ])
        ])

  Decided-last :
      Unsettled e d ev
      → (best : Option Policy) → BestOf d.device.pdid (λ q. In q (values e.policies)) best
      → Decided e d ev (
          run_device_or_tags ev
            (global_policy e)
            best
            (scan_tags (values e.policies) (scanned false []) d.tags))
  Decided-last u none h = Decided-tags u h
  Decided-last u (some b) h = own u b h

  -- `EvaluateAction` follows the rules: infrastructure devices first, then an enabled global block
  -- or allow, then the device's own best policy, a tag that is blocked, a tag that is allowed, the
  -- schedules of the tags together, and the global policy at last. Each rule is used only where
  -- none above it applies.
  pub evaluate_action-Decided : Decided e d ev (evaluate_action e (some d) ev)
  unfolding evaluate_action
  evaluate_action-Decided = elim (Bool-cases (has_tag d.device infrastructure)) [
    | inl x ↦ rw x (immune (immune_of_test d x))
    | inr x ↦ rw x (
        let ni = refuted _ (test_of_immune d) x in
        elim (Bool-cases (global_is (λ p. p.enabled && is_block p.action) (global_policy e))) [
          | inl y ↦ rw y (killed ni (global_of_test is_block _ y))
          | inr y ↦ rw y (
              let nk = refuted _ (test_of_global is_block (global_policy e)) y in
              elim (Bool-cases
                (global_is (λ p. p.enabled && is_allow p.action) (global_policy e))) [
                  | inl z ↦ rw z (opened ni nk (global_of_test is_allow _ z))
                  | inr z ↦ rw z (
                      Decided-last
                        (record {
                          not_immune = ni;
                          not_killed = nk;
                          not_opened = refuted _ (test_of_global is_allow (global_policy e)) z;
                        })
                        _ (best_device-BestOf d.device.pdid (values e.policies)))
                ])
        ])
  ]
