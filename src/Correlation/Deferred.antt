-- ===== src/Correlation/Deferred.antt =====
-- A device that waits to be announced is announced once its time has come.
use lias_dis.Prelude.{
  ℕ, ◌+◌, ◌≤◌, String, ◌≡◌, refl, sym, subst, ◌∙◌, ◌⊎◌, inl, inr, Bool, true, false, not, some,
  List, [], ◌∷◌, arith, Bool-cases, Option-cases, str_eq, eq_iff, ltb, leb, leb→le, ltb→lt,
}
use lias_dis.Prelude.Dict.{lookup, keep, lookup-insert, lookup-insert_self}
use lias_dis.Models.{Device}
use lias_dis.Correlation.{
  Engine, Marshal, mark_dirty, flush_dirty, is_sooner, schedule_deferred_online, awaits, onlined,
  due_keys, flush_deferred_online,
}
use lias_dis.Correlation.Announced.{
  IsKeyed, announce_all-In, announce_all-IsKeyed, announce_all-deferred, due_keys-In, lookup-kept,
}

pub data Call : Type 0 where
  scheduled : ℕ → ℕ → String → Call
  flushed : ℕ → Call
  marked : String → Call
  stored : Bool → Call

module _ (marshal : Marshal) where
  unfoldable pub step : Call → Engine → Engine
  step (scheduled now delay pdid) e = schedule_deferred_online now delay pdid e
  step (flushed now) e = flush_deferred_online marshal now e
  step (marked pdid) e = mark_dirty pdid e
  step (stored saved) e = (flush_dirty saved e).1

  -- The device has a deadline, no later than `limit`.
  abbrev Waiting : ℕ → String → Engine → Type 0
  Waiting limit pdid e = (t : ℕ) × (lookup pdid e.deferred_online ≡ some t) × (t ≤ limit)

  -- The call is a flush that turns the device online, if it is offline with pending observations.
  abbrev pub Announces : String → Call → Engine → Type 0
  Announces pdid (flushed now) e =
      (d : Device)
      → lookup pdid e.devices ≡ some d
      → awaits d ≡ true
      → lookup pdid (flush_deferred_online marshal now e).devices ≡ some (onlined d)
  Announces pdid c e = ⊥

  unfoldable pub Served : String → List Call → Engine → Type 0
  Served pdid [] e = ⊥
  Served pdid (c ∷ cs) e = Announces pdid c e ⊎ Served pdid cs (step c e)

  flush-Announces :
      (now : ℕ) (pdid : String) (t : ℕ) (e : Engine)
      → IsKeyed e.devices
      → lookup pdid e.deferred_online ≡ some t
      → t ≤ now
      → Announces pdid (flushed now) e
  unfolding flush_deferred_online
  flush-Announces now pdid t e h x y d found w =
      announce_all-In marshal now (due_keys now e.deferred_online) pdid d
        (record e { deferred_online = keep (λ u. not (leb u now)) e.deferred_online }) h
        (due_keys-In now pdid t e.deferred_online x y) found w

  schedule-Waiting :
      (limit now delay : ℕ) (other pdid : String) (e : Engine)
      → Waiting limit pdid e
      → Waiting limit pdid (schedule_deferred_online now delay other e)
  unfolding schedule_deferred_online
  schedule-Waiting limit now delay other pdid e (t, x, y) = elim (Bool-cases (str_eq other "")) [
    | inl b ↦ rw (schedule_deferred_online, b) (t, x, y)
    | inr b ↦ elim (Bool-cases (is_sooner (now + delay) (lookup other e.deferred_online))) [
      | inr s ↦ rw (schedule_deferred_online, b, s) (t, x, y)
      | inl s ↦ elim (Bool-cases (str_eq other pdid)) [
        | inr n ↦
            rw (schedule_deferred_online, b, s)
              (t, lookup-insert other pdid (now + delay) e.deferred_online ∙ rw n x, y)
        | inl same ↦
            let same_key : lookup other e.deferred_online ≡ some t =
              subst (λ z. lookup z e.deferred_online ≡ some t) (sym ((eq_iff other pdid).0 same))
                x in
            let sooner : ltb (now + delay) t ≡ true = rw same_key at s in
            rw (schedule_deferred_online, b, s)
              (
                now + delay,
                lookup-insert other pdid (now + delay) e.deferred_online ∙ rw same refl,
                ground (arith, ltb→lt (now + delay) t sooner, y),
              )
      ]
    ]
  ]

  fresh-Waiting :
      (now delay : ℕ) (pdid : String) (e : Engine)
      → str_eq pdid "" ≡ false
      → Waiting (now + delay) pdid (schedule_deferred_online now delay pdid e)
  unfolding schedule_deferred_online
  fresh-Waiting now delay pdid e b =
      elim (Bool-cases (is_sooner (now + delay) (lookup pdid e.deferred_online))) [
        | inl s ↦
            rw (schedule_deferred_online, b, s)
              (now + delay, lookup-insert_self pdid (now + delay) e.deferred_online, ground arith)
        | inr s ↦ elim (Option-cases (lookup pdid e.deferred_online)) [
          | inl x ↦ absurd (let f : true ≡ false = rw x at s in cc)
          | inr (t, x) ↦
              let late : ltb (now + delay) t ≡ false = rw x at s in
              rw (schedule_deferred_online, b, s) (t, x, ground (arith, late))
        ]
      ]

  devices-schedule :
      (now delay : ℕ) (pdid : String) (e : Engine)
      → (schedule_deferred_online now delay pdid e).devices ≡ e.devices
  unfolding schedule_deferred_online
  devices-schedule now delay pdid e = elim (Bool-cases (str_eq pdid "")) [
    | inl b ↦ rw (schedule_deferred_online, b) refl
    | inr b ↦ elim (Bool-cases (is_sooner (now + delay) (lookup pdid e.deferred_online))) [
      | inl s ↦ rw (schedule_deferred_online, b, s) refl
      | inr s ↦ rw (schedule_deferred_online, b, s) refl
    ]
  ]

  same_deferred :
      (saved : Bool) (pdid : String) (e : Engine)
      → ((mark_dirty pdid e).deferred_online ≡ e.deferred_online)
        × ((mark_dirty pdid e).devices ≡ e.devices)
        × ((flush_dirty saved e).1.deferred_online ≡ e.deferred_online)
        × ((flush_dirty saved e).1.devices ≡ e.devices)
  unfolding mark_dirty flush_dirty
  same_deferred saved pdid e = ground arith

  -- A flush of the calls comes at the time or later.
  unfoldable pub LateFlush : ℕ → List Call → Type 0
  LateFlush limit [] = ⊥
  LateFlush limit (flushed now ∷ cs) = (limit ≤ now) ⊎ LateFlush limit cs
  LateFlush limit (scheduled now delay pdid ∷ cs) = LateFlush limit cs
  LateFlush limit (marked pdid ∷ cs) = LateFlush limit cs
  LateFlush limit (stored saved ∷ cs) = LateFlush limit cs

  Waiting-Served :
      (limit : ℕ) (pdid : String) (cs : List Call) (e : Engine)
      → IsKeyed e.devices
      → Waiting limit pdid e
      → LateFlush limit cs
      → Served pdid cs e
  unfolding Served LateFlush step flush_deferred_online
  Waiting-Served limit pdid [] e h w l = l
  Waiting-Served limit pdid (scheduled now delay other ∷ cs) e h w l = inr (
      Waiting-Served limit pdid cs (schedule_deferred_online now delay other e)
        (subst IsKeyed (sym (devices-schedule now delay other e)) h)
        (schedule-Waiting limit now delay other pdid e w) l)
  Waiting-Served limit pdid (marked other ∷ cs) e h (t, x, y) l =
      let (a, b, c, d) = same_deferred true other e in
      inr (
        Waiting-Served limit pdid cs (mark_dirty other e) (subst IsKeyed (sym b) h) (t, rw a x, y)
          l)
  Waiting-Served limit pdid (stored saved ∷ cs) e h (t, x, y) l =
      let (a, b, c, d) = same_deferred saved pdid e in
      inr (
        Waiting-Served limit pdid cs (flush_dirty saved e).1 (subst IsKeyed (sym d) h)
          (t, rw c x, y) l)
  Waiting-Served limit pdid (flushed now ∷ cs) e h (t, x, y) l = elim (Bool-cases (leb t now)) [
    | inl due ↦ inl (flush-Announces now pdid t e h x (leb→le t now due))
    | inr early ↦
        let rest : Engine = record e {
          deferred_online = keep (λ u. not (leb u now)) e.deferred_online;
        } in
        inr (
          Waiting-Served limit pdid cs (flush_deferred_online marshal now e)
            (announce_all-IsKeyed marshal now (due_keys now e.deferred_online) rest h)
            (
              t,
              rw (announce_all-deferred marshal now (due_keys now e.deferred_online) rest)
                  (lookup-kept (λ u. not (leb u now)) pdid t e.deferred_online x (rw early refl)),
              y,
            )
            (elim l [ inl late ↦ absurd (ground (arith, early, y, late)) | inr r ↦ r ]))
  ]

  -- A device with a key is scheduled to be announced after a delay. Of any calls after that which
  -- schedule, store and announce devices, with an announcement at that time or later among them,
  -- some announcement turns the device online, if it is there and still waits offline with
  -- observations; the devices of the inventory stand under their keys.
  pub schedule_deferred_online-Served :
      (now delay : ℕ) (pdid : String) (cs : List Call) (e : Engine)
      → str_eq pdid "" ≡ false
      → IsKeyed e.devices
      → LateFlush (now + delay) cs
      → Served pdid cs (schedule_deferred_online now delay pdid e)
  schedule_deferred_online-Served now delay pdid cs e b h l =
      Waiting-Served (now + delay) pdid cs (schedule_deferred_online now delay pdid e)
        (subst IsKeyed (sym (devices-schedule now delay pdid e)) h)
        (fresh-Waiting now delay pdid e b) l
