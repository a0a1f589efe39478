-- ===== src/Firewall/Enforced.antt =====
-- From the decisions of the policy engine to the fate of a packet.
use lias_dis.Prelude.{
  String, ◌≡◌, refl, ◌⊎◌, inl, inr, ◌↔◌, Bool, true, false, Option, some, List, In, Bool-cases,
}
use lias_dis.Models.{Action, has_tag}
use lias_dis.LocalDevice.{LocalDevice}
use lias_dis.Policy.{Engine, Evaluator, evaluate_action}
use lias_dis.Firewall
use lias_dis.Firewall.{
  SetName, blocked_ips, blocked_macs, blocked_ips_v6, allowed_ips, allowed_macs, allowed_ips_v6,
  index, has, v4, v6, Ip, Parsers, Treatment, let_in, keep_out, leave, treatment, desired, State,
  Flush, Rebuild, sync, empty_sets, Packet, Verdict, accept, drop, verdict,
}
use lias_dis.Firewall.Enlisted.{has-In, In-has, Puts, PutBy, In-desired}
use lias_dis.Firewall.Sets.{SameEntries, Commits, HoldsAll, sync-SameEntries}

-- A device that the policies block.
pub Blocked : Engine → Evaluator → LocalDevice → Type 0
Blocked e ev d =
    (has_tag d.device "infrastructure" ≡ false) × (evaluate_action e (some d) ev ≡ Action.block)

treatment-Blocked :
    (e : Engine) (ev : Evaluator) (d : LocalDevice) → treatment e ev d ≡ keep_out → Blocked e ev d
unfolding treatment Blocked
treatment-Blocked e ev d h = elim (Bool-cases (has_tag d.device "infrastructure")) [
  | inl x ↦ absurd (immune d.device.online (rw (treatment, x) at h))
  | inr x ↦ (x, blocked (evaluate_action e (some d) ev) d.device.online (rw (treatment, x) at h))
]
  where
    immune : (b : Bool) → Firewall.treat true b Action.allow ≡ keep_out → ⊥
    immune true k = cc
    immune false k = cc

    blocked : (a : Action) (b : Bool) → Firewall.treat false b a ≡ keep_out → a ≡ Action.block
    blocked Action.block b k = refl
    blocked Action.allow true k = absurd (cc)
    blocked Action.allow false k = absurd (cc)
    blocked Action.schedule b k = absurd (cc)
    blocked (Action.other x) b k = absurd (cc)

Blocked-treatment :
    (e : Engine) (ev : Evaluator) (d : LocalDevice) → Blocked e ev d → treatment e ev d ≡ keep_out
unfolding treatment Blocked
Blocked-treatment e ev d (x, y) = rw (treatment, x, y) refl

-- A text among some parses as the address.
abbrev pub ParsesIn : {A : Type 0} → (String → Option A) → A → List String → Type 0
ParsesIn parse a ts = (t : String) × In t ts × (parse t ≡ some a)

module _ (parsers : Parsers) (e : Engine) (ev : Evaluator) where
  -- A blocked device of the list has the hardware address, or one of the two kinds of addresses.
  pub HasMac : List LocalDevice → String → Type 0
  HasMac ds mac =
      (d : LocalDevice) × In d ds × Blocked e ev d × ParsesIn parsers.parse_mac mac d.device.macs

  pub HasIp : List LocalDevice → Ip → Type 0
  HasIp ds ip =
      (d : LocalDevice) × In d ds × Blocked e ev d × ParsesIn parsers.parse_ip ip d.device.ips

  put_mac :
      (ds : List LocalDevice) (y : String) → PutBy parsers e ev ds blocked_macs y ↔ HasMac ds y
  unfolding HasMac index
  put_mac ds y = (
    λ (d, i, p). let (b, q) = of_puts d (treatment e ev d) refl p in (d, i, b, q),
    λ (d, i, b, p). (d, i, to_puts d (treatment e ev d) (Blocked-treatment e ev d b) p),
  )
    where
      of_puts :
          (d : LocalDevice) (tr : Treatment)
          → treatment e ev d ≡ tr
          → Puts parsers tr d blocked_macs y
          → Blocked e ev d × ParsesIn parsers.parse_mac y d.device.macs
      of_puts d leave q p = absurd p
      of_puts d let_in q (inl (t, i, inl (k, l))) = absurd (cc)
      of_puts d let_in q (inl (t, i, inr (k, l))) = absurd (cc)
      of_puts d let_in q (inr (t, i, k, l)) = absurd (cc)
      of_puts d keep_out q (inl (t, i, inl (k, l))) = absurd (cc)
      of_puts d keep_out q (inl (t, i, inr (k, l))) = absurd (cc)
      of_puts d keep_out q (inr (t, i, k, l)) = (treatment-Blocked e ev d q, (t, i, l))

      to_puts :
          (d : LocalDevice) (tr : Treatment)
          → tr ≡ keep_out
          → ParsesIn parsers.parse_mac y d.device.macs
          → Puts parsers tr d blocked_macs y
      to_puts d keep_out q (t, i, l) = inr (t, i, refl, l)
      to_puts d let_in q p = absurd (cc)
      to_puts d leave q p = absurd (cc)

  put_ip :
      (ds : List LocalDevice) (y : String) → PutBy parsers e ev ds blocked_ips y → HasIp ds (v4 y)
  unfolding HasIp index
  put_ip ds y (d, i, p) = let (b, q) = of_puts (treatment e ev d) refl p in (d, i, b, q)
    where
      of_puts :
          (tr : Treatment)
          → treatment e ev d ≡ tr
          → Puts parsers tr d blocked_ips y
          → Blocked e ev d × ParsesIn parsers.parse_ip (v4 y) d.device.ips
      of_puts leave q z = absurd z
      of_puts let_in q (inl (t, j, inl (k, l))) = absurd (cc)
      of_puts let_in q (inl (t, j, inr (k, l))) = absurd (cc)
      of_puts let_in q (inr (t, j, k, l)) = absurd (cc)
      of_puts keep_out q (inl (t, j, inl (k, l))) = (treatment-Blocked e ev d q, (t, j, l))
      of_puts keep_out q (inl (t, j, inr (k, l))) = absurd (cc)
      of_puts keep_out q (inr (t, j, k, l)) = absurd (cc)

  put_ip6 :
      (ds : List LocalDevice) (y : String)
      → PutBy parsers e ev ds blocked_ips_v6 y
      → HasIp ds (v6 y)
  unfolding HasIp index
  put_ip6 ds y (d, i, p) = let (b, q) = of_puts (treatment e ev d) refl p in (d, i, b, q)
    where
      of_puts :
          (tr : Treatment)
          → treatment e ev d ≡ tr
          → Puts parsers tr d blocked_ips_v6 y
          → Blocked e ev d × ParsesIn parsers.parse_ip (v6 y) d.device.ips
      of_puts leave q z = absurd z
      of_puts let_in q (inl (t, j, inl (k, l))) = absurd (cc)
      of_puts let_in q (inl (t, j, inr (k, l))) = absurd (cc)
      of_puts let_in q (inr (t, j, k, l)) = absurd (cc)
      of_puts keep_out q (inl (t, j, inl (k, l))) = absurd (cc)
      of_puts keep_out q (inl (t, j, inr (k, l))) = (treatment-Blocked e ev d q, (t, j, l))
      of_puts keep_out q (inr (t, j, k, l)) = absurd (cc)

  -- The sets are those that `Sync` wants.
  wanted-PutBy :
      (ds : List LocalDevice) (k : Firewall.Sets)
      → SameEntries k (desired parsers e ev ds empty_sets)
      → (n : SetName) (y : String) → In y (k n) ↔ PutBy parsers e ev ds n y
  wanted-PutBy ds k same n y = (
    λ i. elim ((In-desired parsers e ev ds n y empty_sets).0 ((same n y).0 i)) [
      | inl z ↦ absurd z
      | inr p ↦ p
    ],
    λ p. (same n y).1 ((In-desired parsers e ev ds n y empty_sets).1 (inr p)),
  )

  dropped-blocked :
      (k : Firewall.Sets) (p : Packet)
      → verdict k p ≡ drop
      → In p.mac (k blocked_macs)
        ⊎ (In p.bytes_12 (k blocked_ips) ⊎ In p.bytes_8 (k blocked_ips_v6))
  unfolding verdict
  dropped-blocked k p h = elim (Bool-cases p.in_lan) [
    | inl a ↦ absurd (let q : accept ≡ drop = rw (verdict, a) at h in cc)
    | inr a ↦ elim (Bool-cases (has p.mac (k blocked_macs))) [
      | inl b ↦ inl (has-In p.mac (k blocked_macs) b)
      | inr b ↦ elim (Bool-cases (has p.mac (k allowed_macs))) [
        | inl c ↦ absurd (let q : accept ≡ drop = rw (verdict, a, b, c) at h in cc)
        | inr c ↦ elim (Bool-cases (has p.bytes_12 (k blocked_ips))) [
          | inl f ↦ inr (inl (has-In p.bytes_12 (k blocked_ips) f))
          | inr f ↦ elim (Bool-cases (has p.bytes_12 (k allowed_ips))) [
            | inl g ↦ absurd (let q : accept ≡ drop = rw (verdict, a, b, c, f, g) at h in cc)
            | inr g ↦ elim (Bool-cases (has p.bytes_8 (k blocked_ips_v6))) [
              | inl x ↦ inr (inr (has-In p.bytes_8 (k blocked_ips_v6) x))
              | inr x ↦ absurd (let q : accept ≡ drop = rw (verdict, a, b, c, f, g, x) at h in cc)
            ]
          ]
        ]
      ]
    ]
  ]

  blocked-dropped :
      (k : Firewall.Sets) (p : Packet)
      → p.in_lan ≡ false
      → In p.mac (k blocked_macs)
      → verdict k p ≡ drop
  unfolding verdict
  blocked-dropped k p l i = rw (verdict, l, In-has p.mac (k blocked_macs) i) refl

  -- After a sync with no error, from a state in which the controller held every set and the builder
  -- knew those of the kernel: a
  -- packet to outside the LAN subnets whose sender is a hardware address of a device that the
  -- policies block is dropped, and a packet that is dropped has such a sender, or holds an address
  -- of such a device where the rules look for one.
  pub sync-verdict :
      (flush : Flush) (rebuild : Rebuild) (ds : List LocalDevice) (s : State) (p : Packet)
      → Commits flush
      → HoldsAll s
      → SameEntries s.kernel s.current
      → (sync parsers flush rebuild e ev ds s).0 ≡ true
      → (p.in_lan ≡ false
          → HasMac ds p.mac
          → verdict (sync parsers flush rebuild e ev ds s).1.kernel p ≡ drop)
        × (verdict (sync parsers flush rebuild e ev ds s).1.kernel p ≡ drop
            → HasMac ds p.mac ⊎ (HasIp ds (v4 p.bytes_12) ⊎ HasIp ds (v6 p.bytes_8)))
  sync-verdict flush rebuild ds s p commits all known ok =
      let k : Firewall.Sets = (sync parsers flush rebuild e ev ds s).1.kernel in
      let entry =
        wanted-PutBy ds k
          (sync-SameEntries parsers flush rebuild e ev ds s commits all known ok).0 in
      (
        λ l h. blocked-dropped k p l ((entry blocked_macs p.mac).1 ((put_mac ds p.mac).1 h)),
        λ h. elim (dropped-blocked k p h) [
          | inl m ↦ inl ((put_mac ds p.mac).0 ((entry blocked_macs p.mac).0 m))
          | inr (inl i) ↦ inr (inl (put_ip ds p.bytes_12 ((entry blocked_ips p.bytes_12).0 i)))
          | inr (inr i) ↦ inr (inr (put_ip6 ds p.bytes_8 ((entry blocked_ips_v6 p.bytes_8).0 i)))
        ],
      )
