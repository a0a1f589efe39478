-- ===== src/Policy/Lifecycle.antt =====
-- What the writing methods of the policy engine do to the map of policies.
use lias_dis.Prelude.{
  ℕ, String, ◌≡◌, refl, sym, ap, Bool, true, not, Option, none, some, List, [], ◌∷◌, arith, select,
  if◌then◌else◌, Bool-cases, inl, inr, In, ◌↔◌, ◌∙◌, subst, In-select, In-select_intro,
  In-append_left, In-append_right, In-append_cases, str_eq,
}
use lias_dis.Prelude.Dict.{
  Dict, lookup, insert, erase, keep, Distinct, filter_option, lookup-insert, lookup-keep,
  Distinct-insert, Distinct-erase, Distinct-keep,
}
use lias_dis.Prelude.Entries.{keys, In-keys, In-keys_intro, In-keep, In-keep_intro}
use lias_dis.Models.{Policy, get_schedule_ids}
use lias_dis.Policy.{
  Engine, new_engine, upsert_policy, delete_policy, is_of_pair, insert_all,
  reconcile_device_identity, has_expired, is_owned, sweep, sweep_expired,
}

-- Every policy stands under its own identifier.
abbrev pub KeyedById : Dict Policy → Type 0
KeyedById [] = Unit
KeyedById ((k, p) ∷ m) = (k ≡ p.id) × KeyedById m

pub record IsKeyed (e : Engine) : Type 0 where
  pub distinct : Distinct e.policies
  pub by_id : KeyedById e.policies

KeyedById-insert : (p : Policy) (m : Dict Policy) → KeyedById m → KeyedById (insert p.id p m)
unfolding insert
KeyedById-insert p [] h = (refl, tt)
KeyedById-insert p ((k, q) ∷ m) h = ground (arith, KeyedById-insert p m h.1)

KeyedById-erase : (k : String) (m : Dict Policy) → KeyedById m → KeyedById (erase k m)
unfolding erase
KeyedById-erase k [] h = tt
KeyedById-erase k ((j, q) ∷ m) h = ground (arith, KeyedById-erase k m h.1)

KeyedById-keep : (test : Policy → Bool) (m : Dict Policy) → KeyedById m → KeyedById (keep test m)
unfolding keep
KeyedById-keep test [] h = tt
KeyedById-keep test ((j, q) ∷ m) h = ground (arith, KeyedById-keep test m h.1)

insert_all-IsKeyed :
    (ps : List Policy) (m : Dict Policy)
    → Distinct m
    → KeyedById m
    → Distinct (insert_all ps m) × KeyedById (insert_all ps m)
unfolding insert_all
insert_all-IsKeyed [] m d k = (d, k)
insert_all-IsKeyed (p ∷ ps) m d k =
    insert_all-IsKeyed ps (insert p.id p m) (Distinct-insert p.id p m d) (KeyedById-insert p m k)

-- The sweep keeps what a loop that deletes expired policies keeps.
kept-sweep :
    (now : ℕ) (m : Dict Policy) → (sweep now m).kept ≡ keep (λ p. not (has_expired now p)) m
unfolding sweep keep
kept-sweep now [] = refl
kept-sweep now ((id, p) ∷ m) = elim (Bool-cases (has_expired now p)) [
  | inl e ↦ rw e (kept-sweep now m)
  | inr e ↦ rw e (ap (◌∷◌ (id, p)) (kept-sweep now m))
]

-- A call that writes to the engine.
pub data Call : Type 0 where
  upsert : Policy → Call
  delete : String → Call
  reconcile : String → String → List Policy → Call
  sweeps : ℕ → Call

pub step : Call → Engine → Engine
step (upsert p) e = upsert_policy p e
step (delete id) e = delete_policy id e
step (reconcile old_pdid new_pdid ps) e = reconcile_device_identity old_pdid new_pdid ps e
step (sweeps now) e = (sweep_expired now e).0

pub run : List Call → Engine → Engine
run [] e = e
run (c ∷ cs) e = run cs (step c e)

step-IsKeyed : (c : Call) (e : Engine) → IsKeyed e → IsKeyed (step c e)
unfolding step upsert_policy delete_policy reconcile_device_identity sweep_expired
step-IsKeyed (upsert p) e v = record {
  distinct = Distinct-insert p.id p e.policies v.distinct;
  by_id = KeyedById-insert p e.policies v.by_id;
}
step-IsKeyed (delete id) e v = record {
  distinct = Distinct-erase id e.policies v.distinct;
  by_id = KeyedById-erase id e.policies v.by_id;
}
step-IsKeyed (reconcile old_pdid new_pdid ps) e v =
    let test : Policy → Bool = λ p. not (is_of_pair old_pdid new_pdid p) in
    let (d, k) =
      insert_all-IsKeyed ps (keep test e.policies) (Distinct-keep test e.policies v.distinct)
        (KeyedById-keep test e.policies v.by_id) in
    record { distinct = d; by_id = k }
step-IsKeyed (sweeps now) e v = record {
  distinct = rw (kept-sweep now e.policies) (Distinct-keep _ e.policies v.distinct);
  by_id = rw (kept-sweep now e.policies) (KeyedById-keep _ e.policies v.by_id);
}

run-IsKeyed : (cs : List Call) (e : Engine) → IsKeyed e → IsKeyed (run cs e)
unfolding run
run-IsKeyed [] e v = v
run-IsKeyed (c ∷ cs) e v = run-IsKeyed cs (step c e) (step-IsKeyed c e v)

-- After any calls on a new engine, the map has each key once and every policy stands under its own
-- identifier.
pub run-new_engine-IsKeyed : (cs : List Call) → IsKeyed (run cs new_engine)
unfolding new_engine
run-new_engine-IsKeyed cs =
    run-IsKeyed cs new_engine (record { distinct = (tt, tt); by_id = (refl, tt) })

-- The last policy of a list with an identifier: what a loop of writes leaves under it.
unfoldable pub last_with_id : String → List Policy → Option Policy
last_with_id id [] = none
last_with_id id (p ∷ ps) = elim (last_with_id id ps) [
  | some q ↦ some q
  | none ↦ if str_eq p.id id then some p else none
]

abbrev pub or_else : Option Policy → Option Policy → Option Policy
or_else none o = o
or_else (some p) o = some p

lookup-insert_all :
    (id : String) (ps : List Policy) (m : Dict Policy)
    → lookup id (insert_all ps m) ≡ or_else (last_with_id id ps) (lookup id m)
unfolding insert_all last_with_id
lookup-insert_all id [] m = refl
lookup-insert_all id (p ∷ ps) m =
    ground (arith, lookup-insert_all id ps (insert p.id p m), lookup-insert p.id id p m)

-- After a reconciliation a key holds the last migrated policy with that identifier. Without one it
-- holds what it held, unless that is a policy of the old or the new device, which is gone.
pub lookup-reconcile_device_identity :
    (old_pdid new_pdid id : String) (ps : List Policy) (e : Engine)
    → IsKeyed e
    → lookup id (reconcile_device_identity old_pdid new_pdid ps e).policies
      ≡ or_else
          (last_with_id id ps)
          (filter_option (λ p. not (is_of_pair old_pdid new_pdid p)) (lookup id e.policies))
unfolding reconcile_device_identity
lookup-reconcile_device_identity old_pdid new_pdid id ps e v = rw (
  lookup-insert_all id ps (keep (λ p. not (is_of_pair old_pdid new_pdid p)) e.policies),
  lookup-keep (λ p. not (is_of_pair old_pdid new_pdid p)) id e.policies v.distinct,
)

-- An expired policy under a key.
abbrev pub ExpiredAt : ℕ → Dict Policy → String → Type 0
ExpiredAt now m id = (p : Policy) × In (id, p) m × (has_expired now p ≡ true)

-- A schedule that an expired policy names and owns.
abbrev pub OwnedAt : ℕ → Dict Policy → String → Type 0
OwnedAt now m sid =
    (id : String) × (p : Policy) × In (id, p) m
    × (has_expired now p ≡ true)
    × In sid (get_schedule_ids p)
    × (is_owned sid ≡ true)

expired_ids-sweep :
    (now : ℕ) (m : Dict Policy) → (sweep now m).expired_ids ≡ keys (keep (has_expired now) m)
unfolding sweep keep keys
expired_ids-sweep now [] = refl
expired_ids-sweep now ((id, p) ∷ m) = elim (Bool-cases (has_expired now p)) [
  | inl e ↦ rw (e, keys) (ap (◌∷◌ id) (expired_ids-sweep now m))
  | inr e ↦ rw e (expired_ids-sweep now m)
]

owned_ids_sound :
    (now : ℕ) (m : Dict Policy) (sid : String) → In sid (sweep now m).owned_ids → OwnedAt now m sid
unfolding sweep
owned_ids_sound now [] sid h = absurd h
owned_ids_sound now ((k, p) ∷ m) sid h = elim (Bool-cases (has_expired now p)) [
  | inl e ↦
      elim (In-append_cases sid (select is_owned (get_schedule_ids p)) (sweep now m).owned_ids
        (rw (e, sweep) at h)) [
          | inl l ↦
              let (i, o) = In-select is_owned sid (get_schedule_ids p) l in
              (k, p, inl refl, e, i, o)
          | inr r ↦ let (j, q, i, x, s, o) = owned_ids_sound now m sid r in (j, q, inr i, x, s, o)
        ]
  | inr e ↦
      let (j, q, i, x, s, o) = owned_ids_sound now m sid (rw (e, sweep) at h) in
      (j, q, inr i, x, s, o)
]

owned_ids_complete :
    (now : ℕ) (m : Dict Policy) (sid : String) → OwnedAt now m sid → In sid (sweep now m).owned_ids
unfolding sweep
owned_ids_complete now [] sid (j, q, i, x, s, o) = absurd i
owned_ids_complete now ((k, p) ∷ m) sid (j, q, inl i, x, s, o) =
    let f : String × Policy → Policy = λ r. r.1 in
    rw (ap (λ (r : String × Policy). has_expired now r.1) i ∙ x, sweep)
      (In-append_left sid (select is_owned (get_schedule_ids p)) (sweep now m).owned_ids (
        In-select_intro is_owned sid (get_schedule_ids p)
          (subst (λ (r : String × Policy). In sid (get_schedule_ids r.1)) (sym i) s) o))
owned_ids_complete now ((k, p) ∷ m) sid (j, q, inr i, x, s, o) =
    let rest = owned_ids_complete now m sid (j, q, i, x, s, o) in
    elim (Bool-cases (has_expired now p)) [
      | inl e ↦
          rw (e, sweep)
            (In-append_right sid (select is_owned (get_schedule_ids p)) (sweep now m).owned_ids
              rest)
      | inr e ↦ rw (e, sweep) rest
    ]

-- A sweep removes just the policies that have expired by then. It returns their keys, and of the
-- schedules that they name those that a pause or an extension made for them.
pub sweep_expired-exact :
    (now : ℕ) (e : Engine)
    → IsKeyed e
    → ((id : String)
        → lookup id (sweep_expired now e).0.policies
          ≡ filter_option (λ p. not (has_expired now p)) (lookup id e.policies))
      × ((id : String) → In id (sweep_expired now e).1 ↔ ExpiredAt now e.policies id)
      × ((sid : String) → In sid (sweep_expired now e).2 ↔ OwnedAt now e.policies sid)
unfolding sweep_expired
sweep_expired-exact now e v = (
  λ id. rw (kept-sweep now e.policies) (lookup-keep _ id e.policies v.distinct),
  λ id. rw (expired_ids-sweep now e.policies) (
    λ h.
        let (p, i) = In-keys id (keep (has_expired now) e.policies) h in
        let (j, x) = In-keep (has_expired now) id p e.policies i in (p, j, x),
    λ h.
        In-keys_intro id h.0 (keep (has_expired now) e.policies)
          (In-keep_intro (has_expired now) id h.0 e.policies h.1 h.2),
  ),
  λ sid. (owned_ids_sound now e.policies sid, owned_ids_complete now e.policies sid),
)
