-- ===== src/Policy/Best.antt =====
-- The loop that picks the policy of a device.
use lias_dis.Prelude.{
  String, ◌≡◌, refl, ap, subst, ◌⊎◌, inl, inr, true, false, ◌&&◌, Option, none, some, List, [], ◌∷◌,
  arith, In, Bool-cases, if◌then◌else◌, and_left, and_right,
}
use lias_dis.Prelude.Int.{◌≤ℤ◌}
use lias_dis.Models.{Policy}
use lias_dis.Policy.{is_candidate, improves, best_device}

-- `best` is a candidate among the policies of `S` with the highest priority, or there is none.
abbrev pub BestOf : String → (Policy → Type 0) → Option Policy → Type 0
BestOf pdid S none = (q : Policy) → S q → is_candidate pdid q ≡ false
BestOf pdid S (some b) =
    S b
    × (is_candidate pdid b ≡ true)
    × ((q : Policy) → S q → is_candidate pdid q ≡ true → q.priority ≤ℤ b.priority)

module _ (pdid : String) where
  -- One more policy, which takes the place of the best one or does not.
  best_step_taken :
      (S : Policy → Type 0) (best : Option Policy) (p : Policy)
      → BestOf pdid S best
      → is_candidate pdid p ≡ true
      → improves p best ≡ true
      → BestOf pdid (λ q. S q ⊎ (p ≡ q)) (some p)
  best_step_taken S none p h c i = (
    inr refl,
    c,
    λ q m k. elim m [
      | inl s ↦ absurd (ground (arith, h q s))
      | inr e ↦ ground (arith, ap (λ (x : Policy). x.priority) e)
    ],
  )
  best_step_taken S (some b) p h c i = (
    inr refl,
    c,
    λ q m k. elim m [
      | inl s ↦ ground (arith, h.2 q s k)
      | inr e ↦ ground (arith, ap (λ (x : Policy). x.priority) e)
    ],
  )

  best_step_left :
      (S : Policy → Type 0) (best : Option Policy) (p : Policy)
      → BestOf pdid S best
      → is_candidate pdid p && improves p best ≡ false
      → BestOf pdid (λ q. S q ⊎ (p ≡ q)) best
  best_step_left S none p h i = λ q m. elim m [
    | inl s ↦ h q s
    | inr e ↦ subst (λ x. is_candidate pdid x ≡ false) e (ground arith)
  ]
  best_step_left S (some b) p h i = (
    inl h.0,
    h.1,
    λ q m k. elim m [
      | inl s ↦ h.2 q s k
      | inr e ↦
          subst (λ x. is_candidate pdid x ≡ true → x.priority ≤ℤ b.priority) e (λ c. ground arith) k
    ],
  )

  BestOf-widen :
      (S T : Policy → Type 0) (best : Option Policy)
      → ((q : Policy) → S q → T q)
      → ((q : Policy) → T q → S q)
      → BestOf pdid S best
      → BestOf pdid T best
  BestOf-widen S T none to back h = λ q m. h q (back q m)
  BestOf-widen S T (some b) to back h = (to b h.0, h.1, λ q m. h.2 q (back q m))

  best_step :
      (S : Policy → Type 0) (best : Option Policy) (p : Policy)
      → BestOf pdid S best
      → BestOf pdid
          (λ q. S q ⊎ (p ≡ q))
          (if is_candidate pdid p && improves p best then some p else best)
  best_step S best p h = elim (Bool-cases (is_candidate pdid p && improves p best)) [
    | inl e ↦ rw e (best_step_taken S best p h (and_left _ _ e) (and_right _ _ e))
    | inr e ↦ rw e (best_step_left S best p h e)
  ]

  best_loop :
      (ps : List Policy) (S : Policy → Type 0) (best : Option Policy)
      → BestOf pdid S best
      → BestOf pdid (λ q. S q ⊎ In q ps) (best_device pdid best ps)
  unfolding best_device
  best_loop [] S best h =
      BestOf-widen S _ best (λ q s. inl s) (λ q m. elim m [ inl s ↦ s | inr n ↦ absurd n ]) h
  best_loop (p ∷ ps) S best h =
      BestOf-widen (λ q. (S q ⊎ (p ≡ q)) ⊎ In q ps) _ _
        (λ q m. elim m [ inl (inl s) ↦ inl s | inl (inr e) ↦ inr (inl e) | inr r ↦ inr (inr r) ])
        (λ q m. elim m [ inl s ↦ inl (inl s) | inr (inl e) ↦ inl (inr e) | inr (inr r) ↦ inr r ])
        (best_loop ps (λ q. S q ⊎ (p ≡ q)) _ (best_step S best p h))

  -- The loop over the policies picks an enabled policy of the device whose priority no other
  -- enabled policy of the device exceeds, and picks none only if the device has no such policy.
  pub best_device-BestOf :
      (ps : List Policy) → BestOf pdid (λ q. In q ps) (best_device pdid none ps)
  best_device-BestOf ps =
      BestOf-widen (λ q. ⊥ ⊎ In q ps) _ _ (λ q m. elim m [ inl n ↦ absurd n | inr r ↦ r ])
        (λ q m. inr m) (best_loop ps (λ q. ⊥) none (λ q n. absurd n))
