-- ===== src/Hostname/Canonical.antt =====
-- Where the loop of `CanonicalizeHostname` over the suffixes ends.
use Prim.Native.String.{[] as empty, ◌∷◌ as ◌∷ₛ◌}
use lias_dis.Prelude.{
  ℕ, zero, suc, ◌≤◌, ◌<◌, String, ◌≡◌, refl, sym, subst, inl, inr, true, false, none, some, List,
  [], ◌∷◌, arith, str_eq, eq_iff, Bool-cases, Option-cases, In, All,
}
use lias_dis.Prelude.Text.{has_suffix}
use lias_dis.Hostname.{canonical_suffixes, length_text, trim_suffix, strip_one, strip}

some-eq : {a b : String} → some a ≡ some b → a ≡ b
some-eq e = cc

length_text-trim_suffix :
    (t : String) (h : String)
    → 1 ≤ length_text t
    → has_suffix h t ≡ true
    → length_text (trim_suffix h t) < length_text h
unfolding trim_suffix has_suffix length_text
length_text-trim_suffix t empty n e =
    let k : 1 ≤ 0 = subst (λ x. 1 ≤ length_text x) (sym ((eq_iff "" t).0 e)) n in omega (arith, k)
length_text-trim_suffix t (c ∷ₛ s) n e = elim (Bool-cases (str_eq (c ∷ₛ s) t)) [
  | inl y ↦ rw y (omega arith)
  | inr k ↦ rw k (omega (arith, length_text-trim_suffix t s n (rw k at e)))
]

-- Every suffix of the list has a character.
abbrev AllLong : List String → Type 0
AllLong ts = (t : String) → In t ts → 1 ≤ length_text t

canonical_suffixes-AllLong : AllLong canonical_suffixes
unfolding length_text
canonical_suffixes-AllLong t i = long t canonical_suffixes (omega arith) i
  where
    long :
        (t : String) (ts : List String)
        → All (λ u. 1 ≤ length_text u) ts
        → In t ts
        → 1 ≤ length_text t
    long t [] h i = absurd i
    long t (u ∷ us) h (inl e) = subst (λ x. 1 ≤ length_text x) e h.0
    long t (u ∷ us) h (inr i) = long t us h.1 i

-- A stripped name is shorter.
strip_one-shorter :
    (ts : List String) (h r : String)
    → AllLong ts
    → strip_one ts h ≡ some r
    → length_text r < length_text h
unfolding strip_one
strip_one-shorter [] h r long e = cc
strip_one-shorter (t ∷ ts) h r long e = elim (Bool-cases (has_suffix h t)) [
  | inl y ↦
      subst (λ x. length_text x < length_text h) (some-eq (rw (y, strip_one) at e))
        (length_text-trim_suffix t h (long t (inl refl)) y)
  | inr n ↦ strip_one-shorter ts h r (λ u i. long u (inr i)) (rw (n, strip_one) at e)
]

strip_one-none :
    (ts : List String) (h : String)
    → strip_one ts h ≡ none
    → (t : String) → In t ts
    → has_suffix h t ≡ false
unfolding strip_one
strip_one-none [] h e t i = absurd i
strip_one-none (u ∷ us) h e t i = elim (Bool-cases (has_suffix h u)) [
  | inl y ↦ let q = rw (y, strip_one) at e in cc
  | inr n ↦ elim i [
    | inl p ↦ subst (λ x. has_suffix h x ≡ false) p n
    | inr j ↦ strip_one-none us h (rw (n, strip_one) at e) t j
  ]
]

-- With fuel no less than the length of the name, the loop over the suffixes ends at a name that
-- has none of them at its end.
pub strip-has_suffix :
    (fuel : ℕ) (h : String)
    → length_text h ≤ fuel
    → (t : String) → In t canonical_suffixes
    → has_suffix (strip fuel h) t ≡ false
unfolding strip
strip-has_suffix zero h enough t i = elim (Option-cases (strip_one canonical_suffixes h)) [
  | inl e ↦ strip_one-none canonical_suffixes h e t i
  | inr (r, e) ↦
      absurd (omega (arith, strip_one-shorter canonical_suffixes h r canonical_suffixes-AllLong e))
]
strip-has_suffix (suc fuel) h enough t i = elim (Option-cases (strip_one canonical_suffixes h)) [
  | inl e ↦ rw (strip, e) (strip_one-none canonical_suffixes h e t i)
  | inr (r, e) ↦
      rw (strip, e)
        (strip-has_suffix fuel r
          (omega (arith, strip_one-shorter canonical_suffixes h r canonical_suffixes-AllLong e)) t
          i)
]
