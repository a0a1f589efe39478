-- ===== src/Prelude/Lists.antt =====
-- Lists measured by native numbers, membership by recursion, and Boolean searches.
use Prim.Native.Nat.{ℕ, suc, ◌+◌}
use mathlib.Core.Path.{◌≡◌, refl, ap, ◌∙◌}
use mathlib.Core.Logic.{◌⊎◌, inl, inr}
use mathlib.Core.Bool.{Bool, true, false}
use mathlib.Core.List.{List, [], ◌∷◌, ◌++◌}
use native.Mathlib.Omega.{arith}
use lias_dis.Prelude.Tests.{if◌then◌else◌, Bool-cases}

module _ {ℓ} {A : Type ℓ} where
  abbrev pub length : List A → ℕ
  length [] = 0
  length (x ∷ xs) = suc (length xs)

  pub length-append : (xs ys : List A) → length (xs ++ ys) ≡ length xs + length ys
  length-append [] ys = omega arith
  length-append (x ∷ xs) ys = omega (arith, length-append xs ys)

-- Membership with its place kept; `⊥` stands at the lowest level, so the elements do too.
module _ {A : Type 0} where
  abbrev pub In : A → List A → Type 0
  In a [] = ⊥
  In a (x ∷ xs) = (x ≡ a) ⊎ In a xs

  pub In-append_left : (a : A) (xs ys : List A) → In a xs → In a (xs ++ ys)
  In-append_left a [] ys h = absurd h
  In-append_left a (x ∷ xs) ys (inl e) = inl e
  In-append_left a (x ∷ xs) ys (inr h) = inr (In-append_left a xs ys h)

  pub In-append_right : (a : A) (xs ys : List A) → In a ys → In a (xs ++ ys)
  In-append_right a [] ys h = h
  In-append_right a (x ∷ xs) ys h = inr (In-append_right a xs ys h)

  pub In-append_cases : (a : A) (xs ys : List A) → In a (xs ++ ys) → In a xs ⊎ In a ys
  In-append_cases a [] ys h = inr h
  In-append_cases a (x ∷ xs) ys (inl e) = inl (inl e)
  In-append_cases a (x ∷ xs) ys (inr h) = elim (In-append_cases a xs ys h) [
    | inl l ↦ inl (inr l)
    | inr r ↦ inr r
  ]

  -- A property of every element.
  abbrev pub All {κ} : (A → Type κ) → List A → Type κ
  All P [] = Unit
  All P (x ∷ xs) = P x × All P xs

  pub All-append {κ} : (P : A → Type κ) (xs ys : List A) → All P xs → All P ys → All P (xs ++ ys)
  All-append P [] ys h k = k
  All-append P (x ∷ xs) ys h k = (h.0, All-append P xs ys h.1 k)

  -- for _, x := range xs { if test(x) { return true } }; return false
  unfoldable pub exists : (A → Bool) → List A → Bool
  exists test [] = false
  exists test (x ∷ xs) = if test x then true else exists test xs

  pub exists_of_In :
      (test : A → Bool) (a : A) (xs : List A) → In a xs → test a ≡ true → exists test xs ≡ true
  unfolding exists
  exists_of_In test a [] m h = absurd m
  exists_of_In test a (x ∷ xs) (inl e) h = ground (arith, ap test e)
  exists_of_In test a (x ∷ xs) (inr m) h = ground (arith, exists_of_In test a xs m h)

  pub In-of_exists :
      (test : A → Bool) (xs : List A) → exists test xs ≡ true → (a : A) × In a xs × (test a ≡ true)
  unfolding exists
  In-of_exists test [] h = absurd (ground arith)
  In-of_exists test (x ∷ xs) h = elim (Bool-cases (test x)) [
    | inl e ↦ (x, inl refl, e)
    | inr e ↦ let (a, m, t) = In-of_exists test xs (ground arith) in (a, inr m, t)
  ]

  -- The elements that pass a test, in order.
  unfoldable pub select : (A → Bool) → List A → List A
  select test [] = []
  select test (x ∷ xs) = let rest = select test xs in if test x then x ∷ rest else rest

  pub In-select :
      (test : A → Bool) (a : A) (xs : List A) → In a (select test xs) → In a xs × (test a ≡ true)
  unfolding select
  In-select test a [] m = absurd m
  In-select test a (x ∷ xs) m = elim (Bool-cases (test x)) [
    | inl e ↦ elim (let m' : In a (x ∷ select test xs) = rw (e, select) at m in m') [
      | inl p ↦ (inl p, ground (arith, ap test p))
      | inr r ↦ let (i, t) = In-select test a xs r in (inr i, t)
    ]
    | inr e ↦ let (i, t) = In-select test a xs (rw (e, select) at m) in (inr i, t)
  ]

  pub In-select_intro :
      (test : A → Bool) (a : A) (xs : List A) → In a xs → test a ≡ true → In a (select test xs)
  unfolding select
  In-select_intro test a [] m t = absurd m
  In-select_intro test a (x ∷ xs) (inl e) t = rw (ap test e ∙ t, select) (inl e)
  In-select_intro test a (x ∷ xs) (inr m) t = elim (Bool-cases (test x)) [
    | inl e ↦ rw (e, select) (inr (In-select_intro test a xs m t))
    | inr e ↦ rw (e, select) (In-select_intro test a xs m t)
  ]
