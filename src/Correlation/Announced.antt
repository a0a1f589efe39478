-- ===== src/Correlation/Announced.antt =====
-- What `flushDeferredOnline` does to the devices, and which entries of the deadlines are due.
use lias_dis.Prelude.{
  ℕ, ◌≤◌, String, ◌≡◌, refl, sym, ap, subst, ◌∙◌, inl, inr, Bool, true, false, some, List, [], ◌∷◌,
  arith, In, Bool-cases, Option-cases, str_eq, eq_iff, leb,
}
use lias_dis.Prelude.Dict.{Dict, lookup, insert, keep, lookup-insert, lookup-insert_self}
use lias_dis.Models.{Device}
use lias_dis.Correlation.{Engine, Marshal, awaits, onlined, announce, announce_all, due_keys}

-- Every device stands under its own key.
abbrev pub IsKeyed : Dict Device → Type 0
IsKeyed m = (k : String) (d : Device) → lookup k m ≡ some d → d.pdid ≡ k

some-eq : {A : Type 0} {a b : A} → some a ≡ some b → a ≡ b
some-eq e = cc

IsKeyed-insert : (d : Device) (m : Dict Device) → IsKeyed m → IsKeyed (insert d.pdid (onlined d) m)
unfolding onlined
IsKeyed-insert d m h k x e = elim (Bool-cases (str_eq d.pdid k)) [
  | inl y ↦
      let same : some (onlined d) ≡ some x = rw (lookup-insert d.pdid k (onlined d) m, y) at e in
      ap (λ (z : Device). z.pdid) (sym (some-eq same)) ∙ (eq_iff d.pdid k).0 y
  | inr n ↦ h k x (rw (lookup-insert d.pdid k (onlined d) m, n) at e)
]

module _ (marshal : Marshal) where
  announce-IsKeyed :
      (now : ℕ) (k : String) (e : Engine)
      → IsKeyed e.devices
      → IsKeyed (announce marshal now k e).devices
  unfolding announce
  announce-IsKeyed now k e h = elim (Option-cases (lookup k e.devices)) [
    | inl x ↦ rw (announce, x) h
    | inr (d, x) ↦ elim (Bool-cases (awaits d)) [
      | inl y ↦ rw (announce, x, y) (IsKeyed-insert d e.devices h)
      | inr y ↦ rw (announce, x, y) h
    ]
  ]

  announce-other :
      (now : ℕ) (k pdid : String) (e : Engine)
      → IsKeyed e.devices
      → str_eq k pdid ≡ false
      → lookup pdid (announce marshal now k e).devices ≡ lookup pdid e.devices
  unfolding announce
  announce-other now k pdid e h n = elim (Option-cases (lookup k e.devices)) [
    | inl x ↦ rw (announce, x) refl
    | inr (d, x) ↦ elim (Bool-cases (awaits d)) [
      | inl y ↦
          let other : str_eq d.pdid pdid ≡ false =
            subst (λ z. str_eq z pdid ≡ false) (sym (h k d x)) n in
          rw (announce, x, y, lookup-insert d.pdid pdid (onlined d) e.devices, other) refl
      | inr y ↦ rw (announce, x, y) refl
    ]
  ]

  announce_self :
      (now : ℕ) (pdid : String) (d : Device) (e : Engine)
      → IsKeyed e.devices
      → lookup pdid e.devices ≡ some d
      → awaits d ≡ true
      → lookup pdid (announce marshal now pdid e).devices ≡ some (onlined d)
  unfolding announce
  announce_self now pdid d e h x y =
      rw (announce, x, y)
        (subst (λ z. lookup z (insert d.pdid (onlined d) e.devices) ≡ some (onlined d)) (h pdid d x)
          (lookup-insert_self d.pdid (onlined d) e.devices))

  announce-online :
      (now : ℕ) (k pdid : String) (d : Device) (e : Engine)
      → IsKeyed e.devices
      → lookup pdid e.devices ≡ some d
      → awaits d ≡ false
      → lookup pdid (announce marshal now k e).devices ≡ some d
  unfolding announce
  announce-online now k pdid d e h x y = elim (Bool-cases (str_eq k pdid)) [
    | inl same ↦
        subst (λ z. lookup pdid (announce marshal now z e).devices ≡ some d)
          (sym ((eq_iff k pdid).0 same)) (rw (announce, x, y) x)
    | inr n ↦ announce-other now k pdid e h n ∙ x
  ]

  announce_all-online :
      (now : ℕ) (ks : List String) (pdid : String) (d : Device) (e : Engine)
      → IsKeyed e.devices
      → lookup pdid e.devices ≡ some d
      → awaits d ≡ false
      → lookup pdid (announce_all marshal now ks e).devices ≡ some d
  unfolding announce_all
  announce_all-online now [] pdid d e h x y = x
  announce_all-online now (k ∷ ks) pdid d e h x y =
      announce_all-online now ks pdid d (announce marshal now k e) (announce-IsKeyed now k e h)
        (announce-online now k pdid d e h x y) y

  pub announce_all-In :
      (now : ℕ) (ks : List String) (pdid : String) (d : Device) (e : Engine)
      → IsKeyed e.devices
      → In pdid ks
      → lookup pdid e.devices ≡ some d
      → awaits d ≡ true
      → lookup pdid (announce_all marshal now ks e).devices ≡ some (onlined d)
  unfolding announce_all onlined
  announce_all-In now [] pdid d e h i x y = absurd i
  announce_all-In now (k ∷ ks) pdid d e h i x y = elim (Bool-cases (str_eq k pdid)) [
    | inl same ↦
        announce_all-online now ks pdid (onlined d) (announce marshal now k e)
          (announce-IsKeyed now k e h)
          (subst (λ z. lookup pdid (announce marshal now z e).devices ≡ some (onlined d))
            (sym ((eq_iff k pdid).0 same)) (announce_self now pdid d e h x y))
          refl
    | inr n ↦
        announce_all-In now ks pdid d (announce marshal now k e) (announce-IsKeyed now k e h)
          (elim i [
            | inl q ↦ absurd (let f : false ≡ true = sym n ∙ (eq_iff k pdid).1 q in cc)
            | inr r ↦ r
          ])
          (announce-other now k pdid e h n ∙ x) y
  ]

  pub announce_all-IsKeyed :
      (now : ℕ) (ks : List String) (e : Engine)
      → IsKeyed e.devices
      → IsKeyed (announce_all marshal now ks e).devices
  unfolding announce_all
  announce_all-IsKeyed now [] e h = h
  announce_all-IsKeyed now (k ∷ ks) e h =
      announce_all-IsKeyed now ks (announce marshal now k e) (announce-IsKeyed now k e h)

  pub announce_all-deferred :
      (now : ℕ) (ks : List String) (e : Engine)
      → (announce_all marshal now ks e).deferred_online ≡ e.deferred_online
  unfolding announce_all announce
  announce_all-deferred now [] e = refl
  announce_all-deferred now (k ∷ ks) e =
      announce_all-deferred now ks (announce marshal now k e) ∙ one
    where
      one : (announce marshal now k e).deferred_online ≡ e.deferred_online
      one = elim (Option-cases (lookup k e.devices)) [
        | inl x ↦ rw (announce, x) refl
        | inr (d, x) ↦ elim (Bool-cases (awaits d)) [
          | inl y ↦ rw (announce, x, y) refl
          | inr y ↦ rw (announce, x, y) refl
        ]
      ]

pub due_keys-In :
    (now : ℕ) (pdid : String) (t : ℕ) (m : Dict ℕ)
    → lookup pdid m ≡ some t
    → t ≤ now
    → In pdid (due_keys now m)
unfolding due_keys lookup
due_keys-In now pdid t [] x y = absurd (cc)
due_keys-In now pdid t ((k, u) ∷ m) x y = elim (Bool-cases (str_eq k pdid)) [
  | inl same ↦
      let e : some u ≡ some t = rw (lookup, same) at x in
      let l : leb u now ≡ true = ground (arith, some-eq e, y) in
      rw (due_keys, l) (inl ((eq_iff k pdid).0 same))
  | inr n ↦
      let r : In pdid (due_keys now m) = due_keys-In now pdid t m (rw (lookup, n) at x) y in
      elim (Bool-cases (leb u now)) [
        | inl l ↦ rw (due_keys, l) (inr r)
        | inr l ↦ rw (due_keys, l) r
      ]
]

pub lookup-kept :
    (test : ℕ → Bool) (pdid : String) (t : ℕ) (m : Dict ℕ)
    → lookup pdid m ≡ some t
    → test t ≡ true
    → lookup pdid (keep test m) ≡ some t
unfolding lookup keep
lookup-kept test pdid t [] x y = absurd (cc)
lookup-kept test pdid t ((k, u) ∷ m) x y = elim (Bool-cases (str_eq k pdid)) [
  | inl same ↦
      let e : some u ≡ some t = rw (lookup, same) at x in
      let l : test u ≡ true = subst (λ z. test z ≡ true) (sym (some-eq e)) y in
      rw (keep, l, lookup, same) e
  | inr n ↦
      let r : lookup pdid (keep test m) ≡ some t =
        lookup-kept test pdid t m (rw (lookup, n) at x) y in
      elim (Bool-cases (test u)) [ inl l ↦ rw (keep, l, lookup, n) r | inr l ↦ rw (keep, l) r ]
]
