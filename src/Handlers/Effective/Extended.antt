-- ===== src/Handlers/Effective/Extended.antt =====
-- What an extension does to the status that is shown, and to the decision that is enforced.
use lias_dis.Prelude.{
  ℕ, String, ◌≡◌, refl, sym, ap, subst, ◌∙◌, inl, inr, Bool, true, false, ◌&&◌, Option, none, some,
  List, [], ◌∷◌, In, Bool-cases, if◌then◌else◌, str_eq, eq_refl, exists,
}
use lias_dis.Prelude.Dict.{Dict, lookup, insert, erase, Distinct, lookup-insert}
use lias_dis.Prelude.Int.{ℤ}
use lias_dis.Models.{Action, Policy, has_tag, is_block, is_allow}
use lias_dis.LocalDevice.{LocalDevice}
use lias_dis.Policy.{
  Engine, values, is_candidate, best_device, evaluate_action, infrastructure, global_is,
  upsert_policy, get_policy,
}
use lias_dis.Policy.Best.{BestOf, best_device-BestOf}
use lias_dis.Policy.Tags.{Blocks, Blocks-first_blocked, scan_tags-eq}
use lias_dis.TagManager.{Tag}
use lias_dis.Handlers.{
  State, Marshal, accepted, conflict, not_found, tag_extension_id, tag_extension, extension_policy,
  extend_tag_access,
}
use lias_dis.Handlers.Access.{In-values-new, In-values-insert, extend-accepted, not-global}
use lias_dis.Handlers.Effective.{
  last_match, is_tag_extension, compute_tag_effective_status, is_enabled_for,
}

last_match-kept :
    (test : Policy → Bool) (q : Policy) (ps : List Policy)
    → (p : Policy) × (last_match test (some q) ps ≡ some p)
unfolding last_match
last_match-kept test q [] = (q, refl)
last_match-kept test q (r ∷ ps) = elim (Bool-cases (test r)) [
  | inl x ↦ let (p, e) = last_match-kept test r ps in (p, rw x e)
  | inr x ↦ let (p, e) = last_match-kept test q ps in (p, rw x e)
]

-- A loop over policies of which one passes the test finds one.
last_match-In :
    (test : Policy → Bool) (found : Option Policy) (q : Policy) (ps : List Policy)
    → In q ps
    → test q ≡ true
    → (p : Policy) × (last_match test found ps ≡ some p)
unfolding last_match
last_match-In test found q [] i h = absurd i
last_match-In test found q (r ∷ ps) (inl e) h =
    let t : test r ≡ true = subst (λ x. test x ≡ true) (sym e) h in
    let (p, k) = last_match-kept test r ps in (p, rw t k)
last_match-In test found q (r ∷ ps) (inr i) h = last_match-In test _ q ps i h

In-values-old :
    (k : String) (p q : Policy) (m : Dict Policy)
    → In q (values (erase k m))
    → In q (values (insert k p m))
unfolding insert erase
In-values-old k p q [] i = absurd i
In-values-old k p q ((j, r) ∷ m) i = elim (Bool-cases (str_eq j k)) [
  | inl y ↦
      rw (insert, y)
        (inr (In-values-erase m (let g : In q (values (erase k m)) = rw (erase, y) at i in g)))
  | inr n ↦ elim (let g : In q (r ∷ values (erase k m)) = rw (erase, n) at i in g) [
    | inl e ↦ rw (insert, n) (inl e)
    | inr o ↦ rw (insert, n) (inr (In-values-old k p q m o))
  ]
]
  where
    In-values-erase : (m : Dict Policy) → In q (values (erase k m)) → In q (values m)
    In-values-erase [] i = i
    In-values-erase ((j, r) ∷ m) i = elim (Bool-cases (str_eq j k)) [
      | inl y ↦
          inr (In-values-erase m (let g : In q (values (erase k m)) = rw (erase, y) at i in g))
      | inr n ↦ elim (let g : In q (r ∷ values (erase k m)) = rw (erase, n) at i in g) [
        | inl e ↦ inl e
        | inr o ↦ inr (In-values-erase m o)
      ]
    ]

tag_extension_id-not_global :
    (tag_id : String) → str_eq (tag_extension_id tag_id) "global_default" ≡ false
unfolding tag_extension_id
tag_extension_id-not_global tag_id = not-global "pol_extend_tag_" tag_id refl

module _ (pdid : String) (p : Policy) (e : Engine) where
  -- No policy of the device is enabled, but for one that is about to be overwritten.
  abbrev pub NoneOwn : Type 0
  NoneOwn = (q : Policy) → In q (values (erase p.id e.policies)) → is_candidate pdid q ≡ false

  none_own :
      Distinct e.policies
      → is_candidate pdid p ≡ false
      → NoneOwn
      → best_device pdid none (values (insert p.id p e.policies)) ≡ none
  none_own d c h =
      none_best (best_device pdid none (values (insert p.id p e.policies)))
        (best_device-BestOf pdid (values (insert p.id p e.policies)))
    where
      none_best :
          (o : Option Policy)
          → BestOf pdid (λ q. In q (values (insert p.id p e.policies))) o
          → o ≡ none
      none_best none b = refl
      none_best (some b) (i, k, m) = elim (In-values-insert p.id p b e.policies d i) [
        | inl x ↦ absurd (
            let q : true ≡ false = sym (subst (λ y. is_candidate pdid y ≡ true) (sym x) k) ∙ c in
            cc)
        | inr o ↦ absurd (let q : true ≡ false = sym k ∙ h b o in cc)
      ]

-- The policies that an accepted extension of a tag leaves.
extend_tag-accepted :
    (marshal : Marshal) (now : ℕ) (saved : Bool) (tag_id : String) (minutes : ℤ) (s : State)
    → (extend_tag_access marshal now saved tag_id (some minutes) s).0 ≡ accepted
    → (str_eq tag_id "infrastructure" ≡ false)
      × (global_is (λ p. p.enabled && is_block p.action) (get_policy s.policies "global_default")
          ≡ false)
      × ((extend_tag_access marshal now saved tag_id (some minutes) s).1.policies
          ≡ upsert_policy (tag_extension now tag_id minutes) s.policies)
unfolding extend_tag_access
extend_tag-accepted marshal now saved tag_id minutes s h =
    elim (Bool-cases (exists (λ (t : Tag). str_eq t.id tag_id) s.tags.tags)) [
      | inr x ↦ absurd (let q : not_found ≡ accepted = rw (extend_tag_access, x) at h in cc)
      | inl x ↦ elim (Bool-cases (str_eq tag_id "infrastructure")) [
        | inl y ↦ absurd (let q : conflict ≡ accepted = rw (extend_tag_access, x, y) at h in cc)
        | inr y ↦
            let (n, m, r, b, e) =
              extend-accepted marshal now saved "tag" tag_id (tag_extension now tag_id)
                (some minutes) s (rw (extend_tag_access, x, y) at h) in
            (y, b, rw (extend_tag_access, x, y, e, sym (some-eq m)) refl)
      ]
    ]
  where
    some-eq : {a b : ℤ} → some a ≡ some b → a ≡ b
    some-eq e = cc

-- An accepted extension of a tag shows the tag as allowed. A device with that tag or others, which
-- is not immune and has no enabled policy of its own, stays blocked all the same when another
-- enabled policy blocks one of its tags, unless the global policy allows everything.
pub extend_tag_access-Blocks :
    (marshal : Marshal) (now later : ℕ) (saved : Bool) (tag_id : String) (minutes : ℤ)
    (f : List String → Action) (d : LocalDevice) (s : State)
    → (extend_tag_access marshal now saved tag_id (some minutes) s).0 ≡ accepted
    → Distinct s.policies.policies
    → has_tag d.device infrastructure ≡ false
    → global_is (λ p. p.enabled && is_allow p.action) (get_policy s.policies "global_default")
      ≡ false
    → NoneOwn d.device.pdid (tag_extension now tag_id minutes) s.policies
    → Blocks (values (erase (tag_extension_id tag_id) s.policies.policies)) d.tags
    → ((compute_tag_effective_status later f
          (extend_tag_access marshal now saved tag_id (some minutes) s).1.policies
          tag_id).action
        ≡ Action.allow)
      × (evaluate_action
            (extend_tag_access marshal now saved tag_id (some minutes) s).1.policies
            (some d)
            (some f)
          ≡ Action.block)
unfolding compute_tag_effective_status evaluate_action get_policy upsert_policy is_enabled_for
    tag_extension extension_policy
extend_tag_access-Blocks marshal now later saved tag_id minutes f d s h dis i a own
      (t, q, x, y, z) =
    let p : Policy = tag_extension now tag_id minutes in
    let m : Dict Policy = s.policies.policies in
    let (n, b, e) = extend_tag-accepted marshal now saved tag_id minutes s h in
    let g : lookup "global_default" (insert p.id p m) ≡ lookup "global_default" m =
      lookup-insert p.id "global_default" p m
      ∙ ap (λ c. if c then some p else lookup "global_default" m)
          (tag_extension_id-not_global tag_id) in
    let (r, found) =
      last_match-In (is_tag_extension tag_id) none p (values (insert p.id p m))
        (In-values-new p.id p m) (own_extension) in
    let (u, blocked_by) =
      Blocks-first_blocked (values (insert p.id p m)) d.tags
        (t, q, x, In-values-old p.id p q m y, z) in
    (
      rw (e, compute_tag_effective_status, n, g, b, a, found) refl,
      rw
          (
            e,
            evaluate_action,
            i,
            g,
            b,
            a,
            none_own d.device.pdid p s.policies dis refl own,
            scan_tags-eq,
            blocked_by,
          )
          refl,
    )
  where
    own_extension : is_tag_extension tag_id (tag_extension now tag_id minutes) ≡ true
    own_extension = simp (is_enabled_for, tag_extension, extension_policy, eq_refl)
