-- ===== src/Policy/Orders.antt =====
-- What `EvaluateAction` decides in whatever order Go walks the map of policies.
use lias_dis.Prelude.{
  String, ◌≡◌, refl, sym, ap, subst, ◌∙◌, inl, inr, Bool, true, false, Option, none, some, List, [],
  ◌∷◌, arith, exists, if◌then◌else◌, Bool-cases, Option-cases, In, In-append_cases, In-append_left,
  In-append_right, ◌&&◌,
}
use lias_dis.Prelude.Dict.{lookup}
use lias_dis.Prelude.Int.{ℤ, ◌≤ℤ◌}
use lias_dis.Models.{Action, Policy, is_allow, is_block, get_schedule_ids, has_tag}
use lias_dis.LocalDevice.{LocalDevice}
use lias_dis.Policy.{
  Engine, scanned, values, is_candidate, global_is, infrastructure, run_policy, run_tags,
  run_device_or_tags, evaluate_action, best_device, scan_tags,
}
use lias_dis.Policy.Best.{BestOf, best_device-BestOf}
use lias_dis.Policy.Tags.{
  tag_allows, tag_schedules, bundle, bundles, first_blocked, scan_tags-eq, first_blocked-Blocks,
  Blocks-first_blocked,
}
use lias_dis.Policy.Precedence.{Allows-of_test, test_of_Allows}

-- Two engines hold the same map, each in its own order.
pub record SameMap (e w : Engine) : Type 0 where
  pub same_lookup : (k : String) → lookup k e.policies ≡ lookup k w.policies
  pub forth : (p : Policy) → In p (values e.policies) → In p (values w.policies)
  pub back : (p : Policy) → In p (values w.policies) → In p (values e.policies)

-- Enabled policies of the device that have the same priority decide the same.
abbrev pub NoTies : (List String → Action) → String → Engine → Type 0
NoTies f pdid e =
    (p q : Policy)
    → In p (values e.policies)
    → In q (values e.policies)
    → is_candidate pdid p ≡ true
    → is_candidate pdid q ≡ true
    → p.priority ≡ q.priority
    → run_policy (some f) p ≡ run_policy (some f) q

-- The evaluator answers by the schedules that a bundle has, in whatever order.
abbrev pub ReadsMembers : (List String → Action) → Type 0
ReadsMembers f =
    (xs ys : List String)
    → ((x : String) → In x xs → In x ys)
    → ((x : String) → In x ys → In x xs)
    → f xs ≡ f ys

antisym : (a b : ℤ) → a ≤ℤ b → b ≤ℤ a → a ≡ b
antisym a b h k = ground (arith, h, k)

-- Some policy schedules some tag, with that schedule.
abbrev Scheduled : List Policy → List String → String → Type 0
Scheduled ps ts x =
    (t : String) × (p : Policy) × In t ts
    × In p ps
    × (tag_schedules t p ≡ true)
    × In x (get_schedule_ids p)

bundle-In :
    (t x : String) (ps : List Policy)
    → In x (bundle t ps)
    → (p : Policy) × In p ps × (tag_schedules t p ≡ true) × In x (get_schedule_ids p)
unfolding bundle
bundle-In t x [] i = absurd i
bundle-In t x (p ∷ ps) i = elim (Bool-cases (tag_schedules t p)) [
  | inr n ↦ let (q, j, s, k) = bundle-In t x ps (rw (bundle, n) at i) in (q, inr j, s, k)
  | inl y ↦ elim (In-append_cases x (get_schedule_ids p) (bundle t ps) (rw (bundle, y) at i)) [
    | inl k ↦ (p, inl refl, y, k)
    | inr l ↦ let (q, j, s, k) = bundle-In t x ps l in (q, inr j, s, k)
  ]
]

In-bundle :
    (t x : String) (ps : List Policy) (p : Policy)
    → In p ps
    → tag_schedules t p ≡ true
    → In x (get_schedule_ids p)
    → In x (bundle t ps)
unfolding bundle
In-bundle t x [] p i s k = absurd i
In-bundle t x (q ∷ ps) p (inl e) s k =
    let y : tag_schedules t q ≡ true = subst (λ z. tag_schedules t z ≡ true) (sym e) s in
    rw (bundle, y)
      (In-append_left x (get_schedule_ids q) (bundle t ps)
        (subst (λ z. In x (get_schedule_ids z)) (sym e) k))
In-bundle t x (q ∷ ps) p (inr i) s k =
    In-append_right x (if tag_schedules t q then get_schedule_ids q else []) (bundle t ps)
      (In-bundle t x ps p i s k)

bundles-Scheduled :
    (ps : List Policy) (ts : List String) (x : String) → In x (bundles ps ts) → Scheduled ps ts x
unfolding bundles
bundles-Scheduled ps [] x i = absurd i
bundles-Scheduled ps (t ∷ ts) x i = elim (In-append_cases x (bundle t ps) (bundles ps ts) i) [
  | inl l ↦ let (p, j, s, k) = bundle-In t x ps l in (t, p, inl refl, j, s, k)
  | inr l ↦ let (u, p, m, j, s, k) = bundles-Scheduled ps ts x l in (u, p, inr m, j, s, k)
]

Scheduled-bundles :
    (ps : List Policy) (ts : List String) (x : String) → Scheduled ps ts x → In x (bundles ps ts)
unfolding bundles
Scheduled-bundles ps [] x (u, p, m, j, s, k) = absurd m
Scheduled-bundles ps (t ∷ ts) x (u, p, inl e, j, s, k) =
    In-append_left x (bundle t ps) (bundles ps ts)
      (In-bundle t x ps p j (subst (λ z. tag_schedules z p ≡ true) (sym e) s) k)
Scheduled-bundles ps (t ∷ ts) x (u, p, inr m, j, s, k) =
    In-append_right x (bundle t ps) (bundles ps ts) (Scheduled-bundles ps ts x (u, p, m, j, s, k))

module _ (f : List String → Action) (e w : Engine) (m : SameMap e w) (r : ReadsMembers f) where
  abbrev ps : List Policy
  ps = values e.policies

  abbrev qs : List Policy
  qs = values w.policies

  run_bundles :
      (g : Option Policy) (xs ys : List String)
      → ((x : String) → In x xs → In x ys)
      → ((x : String) → In x ys → In x xs)
      → run_tags (some f) g (scanned false xs) ≡ run_tags (some f) g (scanned false ys)
  run_bundles g [] [] a b = refl
  run_bundles g [] (y ∷ ys) a b = absurd (b y (inl refl))
  run_bundles g (x ∷ xs) [] a b = absurd (a x (inl refl))
  run_bundles g (x ∷ xs) (y ∷ ys) a b = r (x ∷ xs) (y ∷ ys) a b

  same_allows :
      (ts : List String)
      → exists (λ t. exists (tag_allows t) ps) ts ≡ exists (λ t. exists (tag_allows t) qs) ts
  same_allows ts = elim (Bool-cases (exists (λ t. exists (tag_allows t) ps) ts)) [
    | inl y ↦
        let (t, p, i, j, a) = Allows-of_test ps ts y in
        y ∙ sym (test_of_Allows qs ts (t, p, i, m.forth p j, a))
    | inr n ↦ elim (Bool-cases (exists (λ t. exists (tag_allows t) qs) ts)) [
      | inr k ↦ n ∙ sym k
      | inl y ↦
          let (t, p, i, j, a) = Allows-of_test qs ts y in
          let z : true ≡ false = sym (test_of_Allows ps ts (t, p, i, m.back p j, a)) ∙ n in
          absurd (cc)
    ]
  ]

  run_scanned :
      (g : Option Policy) (a : Bool) (xs ys : List String)
      → ((x : String) → In x xs → In x ys)
      → ((x : String) → In x ys → In x xs)
      → run_tags (some f) g (scanned a xs) ≡ run_tags (some f) g (scanned a ys)
  run_scanned g true xs ys a b = refl
  run_scanned g false xs ys a b = run_bundles g xs ys a b

  same_tags :
      (g : Option Policy) (ts : List String)
      → run_tags (some f) g (scan_tags ps (scanned false []) ts)
        ≡ run_tags (some f) g (scan_tags qs (scanned false []) ts)
  same_tags g ts =
      rw (scan_tags-eq ps false [] ts, scan_tags-eq qs false [] ts)
        (elim (Option-cases (first_blocked ps ts)) [
          | inr (t, x) ↦
              let (u, p, i, j, b) = first_blocked-Blocks ps ts x in
              let (v, y) = Blocks-first_blocked qs ts (u, p, i, m.forth p j, b) in rw (x, y) refl
          | inl x ↦ elim (Option-cases (first_blocked qs ts)) [
            | inr (t, y) ↦
                let (u, p, i, j, b) = first_blocked-Blocks qs ts y in
                let (v, z) = Blocks-first_blocked ps ts (u, p, i, m.back p j, b) in
                absurd (let n : none ≡ some v = sym x ∙ z in cc)
            | inl y ↦
                rw (x, y, same_allows ts)
                  (run_scanned g _ (bundles ps ts) (bundles qs ts)
                    (λ s i.
                      let (t, p, k, j, h, l) = bundles-Scheduled ps ts s i in
                      Scheduled-bundles qs ts s (t, p, k, m.forth p j, h, l))
                    (λ s i.
                      let (t, p, k, j, h, l) = bundles-Scheduled qs ts s i in
                      Scheduled-bundles ps ts s (t, p, k, m.back p j, h, l)))
          ]
        ])

  same_last :
      (g : Option Policy) (pdid : String) (ts : List String) (best other : Option Policy)
      → NoTies f pdid e
      → BestOf pdid (λ p. In p ps) best
      → BestOf pdid (λ p. In p qs) other
      → run_device_or_tags (some f) g best (scan_tags ps (scanned false []) ts)
        ≡ run_device_or_tags (some f) g other (scan_tags qs (scanned false []) ts)
  same_last g pdid ts none none n a b = same_tags g ts
  same_last g pdid ts none (some q) n a (i, c, h) =
      absurd (let z : false ≡ true = sym (a q (m.back q i)) ∙ c in cc)
  same_last g pdid ts (some p) none n (i, c, h) b =
      absurd (let z : false ≡ true = sym (b p (m.forth p i)) ∙ c in cc)
  same_last g pdid ts (some p) (some q) n (i, c, h) (j, d, k) =
      n p q i (m.back q j) c d
        (antisym p.priority q.priority (k p (m.forth p i) c) (h q (m.back q j) d))

  -- In whatever order the map of policies is walked, `EvaluateAction` decides the same for a device,
  -- if its enabled policies of equal priority do and the evaluator does not read the order.
  pub evaluate_action-SameMap :
      (d : LocalDevice)
      → NoTies f d.device.pdid e
      → evaluate_action e (some d) (some f) ≡ evaluate_action w (some d) (some f)
  unfolding evaluate_action
  evaluate_action-SameMap d n = rw (m.same_lookup "global_default") (
      ap
        (λ a.
          if has_tag d.device infrastructure
          then Action.allow
          else if global_is (λ p. p.enabled && is_block p.action)
              (lookup "global_default" w.policies)
          then Action.block
          else if global_is (λ p. p.enabled && is_allow p.action)
              (lookup "global_default" w.policies)
          then Action.allow
          else a)
        (same_last (lookup "global_default" w.policies) d.device.pdid d.tags
          (best_device d.device.pdid none ps) (best_device d.device.pdid none qs) n
          (best_device-BestOf d.device.pdid ps) (best_device-BestOf d.device.pdid qs)))
