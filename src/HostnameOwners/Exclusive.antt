-- ===== src/HostnameOwners/Exclusive.antt =====
-- Who may take a hostname from whom.
use lias_dis.Prelude.{
  ℕ, String, ◌≡◌, ◌≢◌, refl, sym, ap, ◌∙◌, ◌⊎◌, inl, inr, ◌↔◌, true, false, some, arith, str_eq,
  eq_iff, Bool-cases, Option-cases,
}
use lias_dis.Prelude.Dict.{lookup, lookup-insert, lookup-insert_self}
use lias_dis.Models.{Device}
use lias_dis.HostnameOwners.{
  Cache, HostnameAcquisitionResult, acquire_success, acquire_reject, acquire_provisional,
  acquire_hostname, contest, given, left, is_active, is_gone, is_hostname_actively_owned,
  get_hostname_owner,
}

-- Another device than `pdid` owns the name, and is online and was seen in the last five minutes.
pub Taken : ℕ → String → String → Cache → Type 0
Taken now host pdid c =
    (owner : String) × (lookup host c.hostname_owners ≡ some owner)
    × (owner ≢ pdid)
    × (is_hostname_actively_owned now host c ≡ true)

-- What an acquisition does: it is refused, or the name was the asker's, or it is given.
abbrev Answered : ℕ → String → String → Cache → Type 0
Answered now host pdid c =
    (Taken now host pdid c × (acquire_hostname now host pdid c ≡ left acquire_reject c))
    ⊎ ((¬ Taken now host pdid c)
        × (lookup host c.hostname_owners ≡ some pdid)
        × (acquire_hostname now host pdid c ≡ left acquire_success c))
    ⊎ ((¬ Taken now host pdid c)
        × (r : HostnameAcquisitionResult) × (r ≢ acquire_reject)
        × (acquire_hostname now host pdid c ≡ given r host pdid c))

is_gone-is_active : (now : ℕ) (d : Device) → is_gone now d ≡ true → is_active now d ≡ false
unfolding is_gone is_active
is_gone-is_active now d h = ground arith

some-eq : {a b : String} → some a ≡ some b → a ≡ b
some-eq e = cc

not-blank : (s : String) → s ≢ "" → str_eq s "" ≡ false
not-blank s n = elim (Bool-cases (str_eq s "")) [
  | inl y ↦ absurd (n ((eq_iff s "").0 y))
  | inr k ↦ k
]

contest-Answered :
    (now : ℕ) (host pdid owner : String) (c : Cache)
    → host ≢ ""
    → pdid ≢ ""
    → lookup host c.hostname_owners ≡ some owner
    → str_eq owner pdid ≡ false
    → Answered now host pdid c
unfolding acquire_hostname contest Taken is_hostname_actively_owned
contest-Answered now host pdid owner c h p o n =
    let other : owner ≢ pdid = λ e. ground (arith, (eq_iff owner pdid).1 e, n) in
    elim (Option-cases (lookup owner c.devices)) [
      | inl z ↦ inr (
          inr (
            λ t. let q = rw (not-blank host h, o, z) at t.3 in cc,
            acquire_success,
            λ e. cc,
            rw (not-blank host h, not-blank pdid p, o, n, z) refl,
          ))
      | inr (d, z) ↦ elim (Bool-cases (is_gone now d)) [
        | inl g ↦ inr (
            inr (
              λ t. let q = rw (not-blank host h, o, z, is_gone-is_active now d g) at t.3 in cc,
              acquire_success,
              λ e. cc,
              rw (not-blank host h, not-blank pdid p, o, n, z, g) refl,
            ))
        | inr g ↦ elim (Bool-cases (is_active now d)) [
          | inl a ↦ inl (
            (owner, o, other, rw (not-blank host h, o, z) a),
            rw (not-blank host h, not-blank pdid p, o, n, z, g, a) refl,
          )
          | inr a ↦ inr (
              inr (
                λ t. let q = rw (not-blank host h, o, z, a) at t.3 in cc,
                acquire_provisional,
                λ e. cc,
                rw (not-blank host h, not-blank pdid p, o, n, z, g, a) refl,
              ))
        ]
      ]
    ]

acquire_hostname-Answered :
    (now : ℕ) (host pdid : String) (c : Cache) → host ≢ "" → pdid ≢ "" → Answered now host pdid c
unfolding acquire_hostname Taken
acquire_hostname-Answered now host pdid c h p =
    elim (Option-cases (lookup host c.hostname_owners)) [
      | inl o ↦ inr (
          inr (
            λ t. let q = sym o ∙ t.1 in cc,
            acquire_success,
            λ e. cc,
            rw (not-blank host h, not-blank pdid p, o) refl,
          ))
      | inr (owner, o) ↦ elim (Bool-cases (str_eq owner pdid)) [
        | inr n ↦ contest-Answered now host pdid owner c h p o n
        | inl y ↦ inr (
            inl (
              λ t. t.2 (some-eq (sym t.1 ∙ o) ∙ (eq_iff owner pdid).0 y),
              o ∙ ap some ((eq_iff owner pdid).0 y),
              rw (not-blank host h, not-blank pdid p, o, y) refl,
            ))
      ]
    ]

-- A device that asks for a name is refused just when another device owns it and is online and was
-- seen in the last five minutes. A refusal changes nothing; otherwise the name is the asker's
-- after the call. The owners of other names stay. The name and the PDID are not empty.
pub acquire_hostname-Taken :
    (now : ℕ) (host pdid : String) (c : Cache)
    → host ≢ ""
    → pdid ≢ ""
    → ((acquire_hostname now host pdid c).result ≡ acquire_reject ↔ Taken now host pdid c)
      × (Taken now host pdid c → (acquire_hostname now host pdid c).cache ≡ c)
      × ((¬ Taken now host pdid c)
          → get_hostname_owner host (acquire_hostname now host pdid c).cache ≡ some pdid)
      × ((h : String)
          → str_eq host h ≡ false
          → get_hostname_owner h (acquire_hostname now host pdid c).cache ≡ get_hostname_owner h c)
unfolding get_hostname_owner
acquire_hostname-Taken now host pdid c h p = elim (acquire_hostname-Answered now host pdid c h p) [
  | inl (t, e) ↦ rw e ((λ _. t, λ _. refl), λ _. refl, λ n. absurd (n t), λ k _. refl)
  | inr (inl (n, o, e)) ↦
      rw (e, not-blank host h)
        ((λ q. cc, λ t. absurd (n t)), λ t. absurd (n t), λ _. o, λ k _. refl)
  | inr (inr (n, r, other, e)) ↦
      rw (e, not-blank host h)
        (
          (λ q. absurd (other q), λ t. absurd (n t)),
          λ t. absurd (n t),
          λ _. lookup-insert_self host pdid c.hostname_owners,
          λ k x. rw (lookup-insert, x) refl,
        )
]
