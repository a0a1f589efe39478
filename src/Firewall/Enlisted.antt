-- ===== src/Firewall/Enlisted.antt =====
-- Which addresses the loop of `Sync` of `internal/nftables/builder.go` enlists into the sets.
use lias_dis.Prelude.{
  String, ◌≡◌, refl, sym, ap, subst, ◌⊎◌, inl, inr, ◌↔◌, true, Option, none, some, List, [], ◌∷◌,
  In, In-append_left, In-append_right, In-append_cases, Bool-cases, str_eq, eq_iff, eq_refl, ◌==◌,
  exists_of_In, In-of_exists,
}
use lias_dis.LocalDevice.{LocalDevice}
use lias_dis.Policy.{Engine, Evaluator}
use lias_dis.Firewall.{
  SetName, allowed_ips, blocked_ips, allowed_macs, blocked_macs, allowed_ips_v6, blocked_ips_v6,
  index, has, add, Ip, v4, v6, Parsers, add_ip, add_mac, add_ips, add_macs, Treatment, let_in,
  keep_out, leave, treatment, enlist, desired,
}
use lias_dis.Firewall

pub has-In : (x : String) (xs : List String) → has x xs ≡ true → In x xs
unfolding has
has-In x xs h =
    let (y, i, e) = In-of_exists (λ y. str_eq y x) xs h in subst (λ z. In z xs) ((eq_iff y x).0 e) i

pub In-has : (x : String) (xs : List String) → In x xs → has x xs ≡ true
unfolding has
In-has x xs i = exists_of_In (λ y. str_eq y x) x xs i (eq_refl x)

-- An entry after a write was there or is the one that is written.
In-add :
    (name n : SetName) (x y : String) (s : Firewall.Sets)
    → In y (add name x s n) ↔ (In y (s n) ⊎ ((index n == index name) ≡ true) × (x ≡ y))
unfolding add
In-add name n x y s = elim (Bool-cases (index n == index name)) [
  | inr e ↦ rw (add, e) (λ i. inl i, λ i. elim i [ inl o ↦ o | inr (f, g) ↦ absurd (cc) ])
  | inl e ↦ elim (Bool-cases (has x (s n))) [
    | inl h ↦
        rw (add, e, h)
          (
            λ i. inl i,
            λ i. elim i [ inl o ↦ o | inr (f, g) ↦ subst (λ z. In z (s n)) g (has-In x (s n) h) ],
          )
    | inr h ↦
        rw (add, e, h)
          (
            λ i. elim (In-append_cases y (s n) (x ∷ []) i) [
              | inl o ↦ inl o
              | inr (inl g) ↦ inr (refl, g)
              | inr (inr z) ↦ absurd z
            ],
            λ i. elim i [
              | inl o ↦ In-append_left y (s n) (x ∷ []) o
              | inr (f, g) ↦ In-append_right y (s n) (x ∷ []) (inl g)
            ],
          )
  ]
]

module _ (parsers : Parsers) where
  -- Some text of a list is the address, and the set is the one for its kind.
  abbrev pub AddsIp : SetName → SetName → List String → SetName → String → Type 0
  AddsIp four six ts n y =
      (t : String) × In t ts
      × ((((index n == index four) ≡ true) × (parsers.parse_ip t ≡ some (v4 y)))
          ⊎ (((index n == index six) ≡ true) × (parsers.parse_ip t ≡ some (v6 y))))

  abbrev pub AddsMac : SetName → List String → SetName → String → Type 0
  AddsMac macs ts n y =
      (t : String) × In t ts × ((index n == index macs) ≡ true) × (parsers.parse_mac t ≡ some y)

  -- The device puts the address into the set.
  abbrev pub Puts : Treatment → LocalDevice → SetName → String → Type 0
  Puts let_in d n y =
      AddsIp allowed_ips allowed_ips_v6 d.device.ips n y ⊎ AddsMac allowed_macs d.device.macs n y
  Puts keep_out d n y =
      AddsIp blocked_ips blocked_ips_v6 d.device.ips n y ⊎ AddsMac blocked_macs d.device.macs n y
  Puts leave d n y = ⊥

  In-add_ip :
      (four six n : SetName) (o : Option Ip) (y : String) (s : Firewall.Sets)
      → In y (add_ip four six o s n) ↔ (
          In y (s n)
          ⊎ ((((index n == index four) ≡ true) × (o ≡ some (v4 y)))
              ⊎ (((index n == index six) ≡ true) × (o ≡ some (v6 y)))))
  In-add_ip four six n none y s = (
    λ i. inl i,
    λ i. elim i [ inl o ↦ o | inr (inl (e, f)) ↦ absurd (cc) | inr (inr (e, f)) ↦ absurd (cc) ],
  )
  In-add_ip four six n (some (v4 a)) y s = (
    λ i. elim ((In-add four n a y s).0 i) [
      | inl o ↦ inl o
      | inr (e, f) ↦ inr (inl (e, ap (λ z. some (v4 z)) f))
    ],
    λ i. (In-add four n a y s).1 (elim i [
      | inl o ↦ inl o
      | inr (inl (e, f)) ↦ inr (e, cc)
      | inr (inr (e, f)) ↦ absurd (cc)
    ]),
  )
  In-add_ip four six n (some (v6 a)) y s = (
    λ i. elim ((In-add six n a y s).0 i) [
      | inl o ↦ inl o
      | inr (e, f) ↦ inr (inr (e, ap (λ z. some (v6 z)) f))
    ],
    λ i. (In-add six n a y s).1 (elim i [
      | inl o ↦ inl o
      | inr (inl (e, f)) ↦ absurd (cc)
      | inr (inr (e, f)) ↦ inr (e, cc)
    ]),
  )

  In-add_mac :
      (macs n : SetName) (o : Option String) (y : String) (s : Firewall.Sets)
      → In y (add_mac macs o s n) ↔ (In y (s n) ⊎ ((index n == index macs) ≡ true) × (o ≡ some y))
  In-add_mac macs n none y s = (λ i. inl i, λ i. elim i [ inl o ↦ o | inr (e, f) ↦ absurd (cc) ])
  In-add_mac macs n (some a) y s = (
    λ i. elim ((In-add macs n a y s).0 i) [ inl o ↦ inl o | inr (e, f) ↦ inr (e, ap some f) ],
    λ i. (In-add macs n a y s).1 (elim i [ inl o ↦ inl o | inr (e, f) ↦ inr (e, cc) ]),
  )

  In-add_ips :
      (four six n : SetName) (ts : List String) (y : String) (s : Firewall.Sets)
      → In y (add_ips parsers four six ts s n) ↔ (In y (s n) ⊎ AddsIp four six ts n y)
  unfolding add_ips
  In-add_ips four six n [] y s = (λ i. inl i, λ i. elim i [ inl o ↦ o | inr (t, z, r) ↦ absurd z ])
  In-add_ips four six n (t ∷ ts) y s = (
    λ i. elim ((In-add_ips four six n ts y (add_ip four six (parsers.parse_ip t) s)).0 i) [
      | inl o ↦ elim ((In-add_ip four six n (parsers.parse_ip t) y s).0 o) [
        | inl q ↦ inl q
        | inr q ↦ inr (t, inl refl, q)
      ]
      | inr (u, k, r) ↦ inr (u, inr k, r)
    ],
    λ i. (In-add_ips four six n ts y (add_ip four six (parsers.parse_ip t) s)).1 (elim i [
      | inl o ↦ inl ((In-add_ip four six n (parsers.parse_ip t) y s).1 (inl o))
      | inr (u, inl e, r) ↦ inl (
          (In-add_ip four six n (parsers.parse_ip t) y s).1 (
            inr (
              subst
                (λ z.
                  ((((index n == index four) ≡ true) × (parsers.parse_ip z ≡ some (v4 y)))
                    ⊎ (((index n == index six) ≡ true) × (parsers.parse_ip z ≡ some (v6 y)))))
                (sym e) r)))
      | inr (u, inr k, r) ↦ inr (u, k, r)
    ]),
  )

  In-add_macs :
      (macs n : SetName) (ts : List String) (y : String) (s : Firewall.Sets)
      → In y (add_macs parsers macs ts s n) ↔ (In y (s n) ⊎ AddsMac macs ts n y)
  unfolding add_macs
  In-add_macs macs n [] y s = (λ i. inl i, λ i. elim i [ inl o ↦ o | inr (t, z, r, q) ↦ absurd z ])
  In-add_macs macs n (t ∷ ts) y s = (
    λ i. elim ((In-add_macs macs n ts y (add_mac macs (parsers.parse_mac t) s)).0 i) [
      | inl o ↦ elim ((In-add_mac macs n (parsers.parse_mac t) y s).0 o) [
        | inl q ↦ inl q
        | inr (r, q) ↦ inr (t, inl refl, r, q)
      ]
      | inr (u, k, r, q) ↦ inr (u, inr k, r, q)
    ],
    λ i. (In-add_macs macs n ts y (add_mac macs (parsers.parse_mac t) s)).1 (elim i [
      | inl o ↦ inl ((In-add_mac macs n (parsers.parse_mac t) y s).1 (inl o))
      | inr (u, inl e, r, q) ↦ inl (
          (In-add_mac macs n (parsers.parse_mac t) y s).1 (
            inr (
              subst (λ z. ((index n == index macs) ≡ true) × (parsers.parse_mac z ≡ some y)) (sym e)
                (r, q))))
      | inr (u, inr k, r, q) ↦ inr (u, k, r, q)
    ]),
  )

  two_steps : {A B C D F : Type 0} → A ↔ (B ⊎ C) → B ↔ (D ⊎ F) → A ↔ (D ⊎ (F ⊎ C))
  two_steps p q = (
    λ a. elim (p.0 a) [
      | inl b ↦ elim (q.0 b) [ inl d ↦ inl d | inr e ↦ inr (inl e) ]
      | inr c ↦ inr (inr c)
    ],
    λ t. p.1 (elim t [
      | inl d ↦ inl (q.1 (inl d))
      | inr (inl e) ↦ inl (q.1 (inr e))
      | inr (inr c) ↦ inr c
    ]),
  )

  In-enlist :
      (tr : Treatment) (d : LocalDevice) (n : SetName) (y : String) (s : Firewall.Sets)
      → In y (enlist parsers tr d s n) ↔ (In y (s n) ⊎ Puts tr d n y)
  In-enlist leave d n y s = (λ i. inl i, λ i. elim i [ inl o ↦ o | inr z ↦ absurd z ])
  In-enlist let_in d n y s =
      two_steps
        (In-add_macs allowed_macs n d.device.macs y
          (add_ips parsers allowed_ips allowed_ips_v6 d.device.ips s))
        (In-add_ips allowed_ips allowed_ips_v6 n d.device.ips y s)
  In-enlist keep_out d n y s =
      two_steps
        (In-add_macs blocked_macs n d.device.macs y
          (add_ips parsers blocked_ips blocked_ips_v6 d.device.ips s))
        (In-add_ips blocked_ips blocked_ips_v6 n d.device.ips y s)

  -- Some device of a list puts the address into the set.
  abbrev pub PutBy : Engine → Evaluator → List LocalDevice → SetName → String → Type 0
  PutBy e ev ds n y = (d : LocalDevice) × In d ds × Puts (treatment e ev d) d n y

  pub In-desired :
      (e : Engine) (ev : Evaluator) (ds : List LocalDevice) (n : SetName) (y : String)
      (s : Firewall.Sets)
      → In y (desired parsers e ev ds s n) ↔ (In y (s n) ⊎ PutBy e ev ds n y)
  unfolding desired
  In-desired e ev [] n y s = (λ i. inl i, λ i. elim i [ inl o ↦ o | inr (d, z, r) ↦ absurd z ])
  In-desired e ev (d ∷ ds) n y s = (
    λ i. elim ((In-desired e ev ds n y (enlist parsers (treatment e ev d) d s)).0 i) [
      | inl o ↦ elim ((In-enlist (treatment e ev d) d n y s).0 o) [
        | inl q ↦ inl q
        | inr q ↦ inr (d, inl refl, q)
      ]
      | inr (u, k, r) ↦ inr (u, inr k, r)
    ],
    λ i. (In-desired e ev ds n y (enlist parsers (treatment e ev d) d s)).1 (elim i [
      | inl o ↦ inl ((In-enlist (treatment e ev d) d n y s).1 (inl o))
      | inr (u, inl q, r) ↦ inl (
          (In-enlist (treatment e ev d) d n y s).1
            (inr (subst (λ z. Puts (treatment e ev z) z n y) (sym q) r)))
      | inr (u, inr k, r) ↦ inr (u, k, r)
    ]),
  )
