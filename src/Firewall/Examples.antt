-- ===== src/Firewall/Examples.antt =====
-- A run of the builder, and its theorems at concrete inputs: one device, which the global policy blocks, and
-- a kernel that takes every transaction.
use lias_dis.Prelude.{
  ◌≡◌, refl, sym, subst, ◌⊎◌, inl, inr, Bool, true, false, not, none, some, [], ◌∷◌, ◌++◌, In,
  select, In-select, In-select_intro, In-append_left, In-append_right, In-append_cases, Bool-cases,
}
use lias_dis.Models.{Action, PolicyType, has_tag}
use lias_dis.LocalDevice.{LocalDevice}
use lias_dis.Samples.{blank, tagged, rule}
use lias_dis.Prelude.{exists}
use lias_dis.Prelude.Dict.{lookup}
use lias_dis.Policy.{Engine, evaluate_action, infrastructure}
use lias_dis.Firewall
use lias_dis.Firewall.{
  SetName, SetDiff, State, Parsers, Flush, Rebuild, Packet, blocked_macs, v4, v6, has, index, add,
  add_ips, add_macs, desired, treatment, empty_sets, sync, diff_sets, is_unchanged, reset_state,
  drop, verdict,
}
use lias_dis.Firewall.Sets.{Commits, sync-reset_state}
use lias_dis.Firewall.Enlisted.{has-In, In-has}
use lias_dis.Firewall.Enforced.{HasMac, HasIp, sync-verdict}

abbrev parsers : Parsers
parsers = record { parse_ip = λ t. some (v4 t); parse_mac = λ t. some t }

abbrev kernel_with : SetDiff → Firewall.Sets → Firewall.Sets
kernel_with diff k n = select (λ x. not (has x (diff.to_rem n))) (k n) ++ diff.to_add n

abbrev takes_all : Flush
takes_all diff k = some (kernel_with diff k)

some-eq : {a b : Firewall.Sets} → some a ≡ some b → a ≡ b
some-eq e = cc

takes_all-Commits : Commits takes_all
takes_all-Commits diff k k' e n x =
    subst
      (λ (z : Firewall.Sets).
        (In x (z n) → (In x (k n) × ¬ In x (diff.to_rem n)) ⊎ In x (diff.to_add n))
        × ((In x (k n) × ¬ In x (diff.to_rem n)) ⊎ In x (diff.to_add n) → In x (z n)))
      (some-eq e)
      (
        λ i.
            elim (In-append_cases x (select (λ y. not (has y (diff.to_rem n))) (k n))
              (diff.to_add n) i) [
                | inl o ↦
                    let (a, t) = In-select (λ y. not (has y (diff.to_rem n))) x (k n) o in
                    inl (
                      a,
                      λ r.
                          let f : not true ≡ true =
                            subst (λ b. not b ≡ true) (In-has x (diff.to_rem n) r) t in
                          cc,
                    )
                | inr a ↦ inr a
              ],
        λ i. elim i [
          | inl (o, r) ↦
              In-append_left x (select (λ y. not (has y (diff.to_rem n))) (k n)) (diff.to_add n) (
                In-select_intro (λ y. not (has y (diff.to_rem n))) x (k n) o
                  (elim (Bool-cases (has x (diff.to_rem n))) [
                    | inl t ↦ absurd (r (has-In x (diff.to_rem n) t))
                    | inr t ↦ subst (λ b. not b ≡ true) (sym t) refl
                  ]))
          | inr a ↦
              In-append_right x (select (λ y. not (has y (diff.to_rem n))) (k n)) (diff.to_add n) a
        ],
      )

abbrev device : LocalDevice
device = record (tagged "d" ("kids" ∷ [])) {
  device = record (blank "d") { macs = "aa" ∷ []; ips = "10.0.0.9" ∷ [] };
}

abbrev policies : Engine
policies = record {
  policies = ("global_default", rule "global_default" PolicyType.global "" Action.block) ∷ [];
}

abbrev start : State
start = record { current = empty_sets; held = λ n. true; kernel = empty_sets }

abbrev old : State
old = record { current = empty_sets; held = λ n. true; kernel = λ n. "bb" ∷ [] }

abbrev packet : Packet
packet = record { mac = "aa"; bytes_12 = "10.0.0.9"; bytes_8 = ""; in_lan = false }

abbrev same : Rebuild
same k = (λ n. true, k)

-- A sync of the device from a state.
abbrev after : State → Bool × State
after s = sync parsers takes_all same policies none (device ∷ []) s

sync-reset_state_example : In "bb" ((after (reset_state old)).1.kernel blocked_macs)
unfolding sync diff_sets is_unchanged desired select treatment has_tag exists evaluate_action
    infrastructure lookup has index add add_ips add_macs reset_state
sync-reset_state_example =
    sync-reset_state parsers takes_all same policies none (device ∷ []) old takes_all-Commits
      (λ n. refl) refl blocked_macs "bb" (inl (inl refl))

sync-verdict_example :
    (packet.in_lan ≡ false
      → HasMac parsers policies none (device ∷ []) packet.mac
      → verdict (after start).1.kernel packet ≡ drop)
    × (verdict (after start).1.kernel packet ≡ drop
        → HasMac parsers policies none (device ∷ []) packet.mac
          ⊎ (HasIp parsers policies none (device ∷ []) (v4 packet.bytes_12)
              ⊎ HasIp parsers policies none (device ∷ []) (v6 packet.bytes_8)))
unfolding sync diff_sets is_unchanged desired select treatment has_tag exists evaluate_action
    infrastructure lookup has index add add_ips add_macs
sync-verdict_example =
    sync-verdict parsers policies none takes_all same (device ∷ []) start packet takes_all-Commits
      (λ n. refl) (λ n x. (λ i. i, λ i. i)) refl
