-- ===== src/Prelude/Dict.antt =====
-- Go maps as association lists. A key stands once (`Distinct`), a write to a known key
-- keeps its place, and a loop over a map runs along the list, so that a statement about every list
-- speaks of every order of one loop. Go takes an order anew for each loop: two loops over one map in
-- two orders are loops over two lists.
use Prim.Native.String.{String}
use mathlib.Core.Path.{◌≡◌, refl, subst}
use mathlib.Core.Bool.{Bool, false}
use mathlib.Core.Logic.{inl, inr}
use mathlib.Core.List.{List, [], ◌∷◌}
use mathlib.Core.Option.{Option, none, some}
use native.Mathlib.Omega.{arith}
use text.Mathlib.Text.{◌==◌}
use text.Mathlib.TextEquality.{eq_iff}
use text.Mathlib.TextPositions.{eq_refl}
use lias_dis.Prelude.Tests.{if◌then◌else◌, Bool-cases}

abbrev pub Dict {ℓ} : Type ℓ → Type ℓ
Dict V = List (String × V)

module _ {ℓ} {V : Type ℓ} where
  -- m[k]
  unfoldable pub lookup : String → Dict V → Option V
  lookup k [] = none
  lookup k ((j, v) ∷ m) = if j == k then some v else lookup k m

  -- m[k] = v
  unfoldable pub insert : String → V → Dict V → Dict V
  insert k v [] = (k, v) ∷ []
  insert k v ((j, w) ∷ m) = if j == k then (k, v) ∷ m else (j, w) ∷ insert k v m

  -- delete(m, k)
  unfoldable pub erase : String → Dict V → Dict V
  erase k [] = []
  erase k ((j, v) ∷ m) = let rest = erase k m in if j == k then rest else (j, v) ∷ rest

  pub lookup-insert :
      (key other : String) (new : V) (d : Dict V)
      → lookup other (insert key new d) ≡ (if key == other then some new else lookup other d)
  unfolding lookup insert
  lookup-insert key other new [] = refl
  lookup-insert key other new ((i, old) ∷ d) =
      ground (arith, lookup-insert key other new d, eq_iff i other, eq_iff i key, eq_iff key other)

  pub lookup-erase :
      (k j : String) (m : Dict V) → lookup j (erase k m) ≡ (if k == j then none else lookup j m)
  unfolding lookup erase
  lookup-erase k j [] = ground arith
  lookup-erase k j ((i, v) ∷ m) =
      ground (arith, lookup-erase k j m, eq_iff i k, eq_iff i j, eq_iff k j)

  pub lookup-insert_self : (k : String) (v : V) (m : Dict V) → lookup k (insert k v m) ≡ some v
  lookup-insert_self k v m = simp (lookup-insert, eq_refl)

  pub lookup-erase_self : (k : String) (m : Dict V) → lookup k (erase k m) ≡ none
  lookup-erase_self k m = simp (lookup-erase, eq_refl)

pub ruleset dict_laws = (lookup-insert, lookup-erase, eq_refl)

-- No entry of `m` has the key `k`.
abbrev pub Fresh {ℓ} : {V : Type ℓ} → String → Dict V → Type 0
Fresh k [] = Unit
Fresh k ((j, v) ∷ m) = ((j == k) ≡ false) × Fresh k m

-- Each key stands once.
abbrev pub Distinct {ℓ} : {V : Type ℓ} → Dict V → Type 0
Distinct [] = Unit
Distinct ((j, v) ∷ m) = Fresh j m × Distinct m

abbrev pub filter_option {ℓ} : {V : Type ℓ} → (V → Bool) → Option V → Option V
filter_option test none = none
filter_option test (some v) = if test v then some v else none

module _ {ℓ} {V : Type ℓ} where
  -- for k, v := range m { if !test(v) { delete(m, k) } }
  unfoldable pub keep : (V → Bool) → Dict V → Dict V
  keep test [] = []
  keep test ((k, v) ∷ m) = let rest = keep test m in if test v then (k, v) ∷ rest else rest

  pub lookup-Fresh : (k : String) (m : Dict V) → Fresh k m → lookup k m ≡ none
  unfolding lookup
  lookup-Fresh k [] h = refl
  lookup-Fresh k ((j, v) ∷ m) h = ground (arith, lookup-Fresh k m h.1)

  pub Fresh-insert :
      (k j : String) (v : V) (m : Dict V) → (k == j) ≡ false → Fresh j m → Fresh j (insert k v m)
  unfolding insert
  Fresh-insert k j v [] h f = (h, tt)
  Fresh-insert k j v ((i, w) ∷ m) h f = ground (arith, Fresh-insert k j v m h f.1)

  pub Distinct-insert : (k : String) (v : V) (m : Dict V) → Distinct m → Distinct (insert k v m)
  unfolding insert
  Distinct-insert k v [] d = (tt, tt)
  Distinct-insert k v ((i, w) ∷ m) d = elim (Bool-cases (i == k)) [
    | inl e ↦ rw (e, insert) (subst (λ x. Fresh x m) ((eq_iff i k).0 e) d.0, d.1)
    | inr e ↦
        rw (e, insert)
          (
            Fresh-insert k i v m (ground (arith, eq_iff i k, eq_iff k i)) d.0,
            Distinct-insert k v m d.1,
          )
  ]

  pub Fresh-keep : (test : V → Bool) (k : String) (m : Dict V) → Fresh k m → Fresh k (keep test m)
  unfolding keep
  Fresh-keep test k [] f = tt
  Fresh-keep test k ((j, v) ∷ m) f = ground (arith, Fresh-keep test k m f.1)

  pub Distinct-keep : (test : V → Bool) (m : Dict V) → Distinct m → Distinct (keep test m)
  unfolding keep
  Distinct-keep test [] d = tt
  Distinct-keep test ((j, v) ∷ m) d =
      ground (arith, Fresh-keep test j m d.0, Distinct-keep test m d.1)

  pub Fresh-erase : (k j : String) (m : Dict V) → Fresh j m → Fresh j (erase k m)
  unfolding erase
  Fresh-erase k j [] f = tt
  Fresh-erase k j ((i, v) ∷ m) f = ground (arith, Fresh-erase k j m f.1)

  pub Distinct-erase : (k : String) (m : Dict V) → Distinct m → Distinct (erase k m)
  unfolding erase
  Distinct-erase k [] d = tt
  Distinct-erase k ((i, v) ∷ m) d = ground (arith, Fresh-erase k i m d.0, Distinct-erase k m d.1)

  -- A loop that deletes while it ranges over a map with distinct keys removes just what it tests.
  pub lookup-keep :
      (test : V → Bool) (k : String) (m : Dict V)
      → Distinct m
      → lookup k (keep test m) ≡ filter_option test (lookup k m)
  unfolding lookup keep
  lookup-keep test k [] d = refl
  lookup-keep test k ((j, v) ∷ m) d = elim (Bool-cases (j == k)) [
    | inl e ↦ ground (
      arith,
      e,
      lookup-Fresh k (keep test m)
          (Fresh-keep test k m (subst (λ x. Fresh x m) ((eq_iff j k).0 e) d.0)),
    )
    | inr e ↦ ground (arith, e, lookup-keep test k m d.1)
  ]
