-- ===== src/Prelude/Entries.antt =====
-- The entries of a map as a list: keys, values and what a deleting loop leaves.
use lias_dis.Prelude.Lists.{In}
use lias_dis.Prelude.Tests.{Bool-cases}
use lias_dis.Prelude.Dict.{Dict, keep}
use Prim.Native.String.{String}
use mathlib.Core.Path.{◌≡◌, ap, sym, ◌∙◌}
use mathlib.Core.Bool.{Bool, true}
use mathlib.Core.List.{List, [], ◌∷◌}
use mathlib.Core.Logic.{inl, inr}

module _ {V : Type 0} where
  unfoldable pub keys : Dict V → List String
  keys [] = []
  keys ((k, v) ∷ m) = k ∷ keys m

  pub In-keys : (k : String) (m : Dict V) → In k (keys m) → (v : V) × In (k, v) m
  unfolding keys
  In-keys k [] h = absurd h
  In-keys k ((j, v) ∷ m) (inl e) = (v, inl (ap (λ x. (x, v)) e))
  In-keys k ((j, v) ∷ m) (inr h) = let (w, i) = In-keys k m h in (w, inr i)

  pub In-keys_intro : (k : String) (v : V) (m : Dict V) → In (k, v) m → In k (keys m)
  unfolding keys
  In-keys_intro k v [] h = absurd h
  In-keys_intro k v ((j, w) ∷ m) (inl e) = inl (ap (λ (x : String × V). x.0) e)
  In-keys_intro k v ((j, w) ∷ m) (inr h) = inr (In-keys_intro k v m h)

  pub In-keep :
      (test : V → Bool) (k : String) (v : V) (m : Dict V)
      → In (k, v) (keep test m)
      → In (k, v) m × (test v ≡ true)
  unfolding keep
  In-keep test k v [] h = absurd h
  In-keep test k v ((j, w) ∷ m) h = elim (Bool-cases (test w)) [
    | inl e ↦ elim (let h' : In (k, v) ((j, w) ∷ keep test m) = rw (e, keep) at h in h') [
      | inl p ↦ (inl p, ap (λ (x : String × V). test x.1) (sym p) ∙ e)
      | inr r ↦ let (i, t) = In-keep test k v m r in (inr i, t)
    ]
    | inr e ↦ let (i, t) = In-keep test k v m (rw (e, keep) at h) in (inr i, t)
  ]

  pub In-keep_intro :
      (test : V → Bool) (k : String) (v : V) (m : Dict V)
      → In (k, v) m
      → test v ≡ true
      → In (k, v) (keep test m)
  unfolding keep
  In-keep_intro test k v [] h t = absurd h
  In-keep_intro test k v ((j, w) ∷ m) (inl e) t =
      rw (ap (λ (x : String × V). test x.1) e ∙ t, keep) (inl e)
  In-keep_intro test k v ((j, w) ∷ m) (inr h) t = elim (Bool-cases (test w)) [
    | inl e ↦ rw (e, keep) (inr (In-keep_intro test k v m h t))
    | inr e ↦ rw (e, keep) (In-keep_intro test k v m h t)
  ]
