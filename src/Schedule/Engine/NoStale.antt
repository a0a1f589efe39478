-- ===== src/Schedule/Engine/NoStale.antt =====
-- The cache of merged bundles never holds a bundle whose schedules have changed since.
use lias_dis.Prelude.{
  ℕ, String, ◌≡◌, refl, sym, ap, subst, ◌∙◌, inl, inr, false, none, some, List, [], ◌∷◌, ◌++◌,
  arith, str_eq, eq_iff, Bool-cases, Option-cases, In, In-append_left, In-append_right,
}
use lias_dis.Prelude.Dict.{
  Dict, lookup, insert, erase, lookup-insert, lookup-erase, lookup-insert_self,
}
use lias_dis.Models.{Schedule}
use lias_dis.ScheduleConflict.{merge_schedules}
use lias_dis.Schedule.{Locations}
use lias_dis.Schedule.Engine.{
  Engine, new_engine, bundle_key, erase_all, invalidate, upsert_schedule, delete_schedule, resolve,
  or_nil, link, has_failed, remember, merge_into, fetch_bundle, act, evaluate_bundle,
}

-- The cached schedule under a key is the merge of the schedules as they are now, of some bundle
-- with that key, and each of them leads to the key.
pub record IsCurrent (e : Engine) (key : String) (c : Schedule) : Type 0 where
  pub ids : List String
  pub has_key : bundle_key ids ≡ key
  pub schedules : List Schedule
  pub resolved : resolve e.schedules ids ≡ some schedules
  pub merged :
      (has_failed (merge_schedules schedules) ≡ false) × ((merge_schedules schedules).composite ≡ c)
  pub linked : (id : String) → In id ids → In key (or_nil (lookup id e.reverse_idx))

pub record IsFresh (e : Engine) : Type 0 where
  pub current :
      (key : String) (c : Schedule) → lookup key e.merged_cache ≡ some c → IsCurrent e key c

lookup-erase_all :
    (keys : List String) (m : Dict Schedule) (k : String) (c : Schedule)
    → lookup k (erase_all keys m) ≡ some c
    → (lookup k m ≡ some c) × (In k keys → ⊥)
unfolding erase_all
lookup-erase_all [] m k c h = (h, λ n. n)
lookup-erase_all (j ∷ keys) m k c h =
    let (there, away) = lookup-erase_all keys (erase j m) k c h in
    elim (Bool-cases (str_eq j k)) [
      | inl e ↦ absurd (ground (arith, lookup-erase j k m, e, there))
      | inr e ↦ (
        ground (arith, lookup-erase j k m, e, there),
        λ i. elim i [ inl p ↦ ground (arith, e, (eq_iff j k).1 p) | inr q ↦ away q ],
      )
    ]

-- A bundle without a schedule resolves as before when that schedule changes.
resolve-change :
    (id : String) (m m' : Dict Schedule) (ids : List String)
    → ((j : String) → (str_eq id j ≡ false) → lookup j m' ≡ lookup j m)
    → (In id ids → ⊥)
    → resolve m' ids ≡ resolve m ids
unfolding resolve
resolve-change id m m' [] h n = refl
resolve-change id m m' (j ∷ ids) h n = elim (Bool-cases (str_eq id j)) [
  | inl e ↦ absurd (n (inl (sym ((eq_iff id j).0 e))))
  | inr e ↦ rw (h j e, resolve-change id m m' ids h (λ i. n (inr i)))
]

-- Invalidation after a change of one schedule, written or deleted.
invalidate-IsFresh :
    (id : String) (m' : Dict Schedule) (e : Engine)
    → ((j : String) → (str_eq id j ≡ false) → lookup j m' ≡ lookup j e.schedules)
    → IsFresh e
    → IsFresh (invalidate id (record e { schedules = m' }))
unfolding invalidate
invalidate-IsFresh id m' e h f = elim (Option-cases (lookup id e.reverse_idx)) [
  | inl x ↦
      rw (x, invalidate)
        (record {
          current = λ key c l.
              let v = f.current key c l in
              record {
                ids = v.ids;
                has_key = v.has_key;
                schedules = v.schedules;
                resolved =
                    resolve-change id e.schedules m' v.ids h
                      (λ i. no_link key (subst (λ o. In key (or_nil o)) x (v.linked id i)))
                    ∙ v.resolved;
                merged = v.merged;
                linked = v.linked;
              };
        })
  | inr (keys, x) ↦
      rw (x, invalidate)
        (record {
          current = λ key c l.
              let (l', away) = lookup-erase_all keys e.merged_cache key c l in
              let v = f.current key c l' in
              let absent : In id v.ids → ⊥ =
                λ i. away (subst (λ o. In key (or_nil o)) x (v.linked id i)) in
              record {
                ids = v.ids;
                has_key = v.has_key;
                schedules = v.schedules;
                resolved = resolve-change id e.schedules m' v.ids h absent ∙ v.resolved;
                merged = v.merged;
                linked = λ j i. elim (Bool-cases (str_eq id j)) [
                  | inl y ↦ absurd (absent (subst (λ k. In k v.ids) (sym ((eq_iff id j).0 y)) i))
                  | inr y ↦ rw (lookup-erase, y) (v.linked j i)
                ];
              };
        })
]
  where
    no_link : (key : String) → In key (or_nil none) → ⊥
    no_link key i = i

some-eq : {a b : Schedule} → some a ≡ some b → a ≡ b
some-eq e = cc

some_pair-eq : {a b : Schedule × Engine} → some a ≡ some b → a ≡ b
some_pair-eq e = cc

-- One more key in the index loses none.
insert-keeps :
    (key k j id : String) (m : Dict (List String))
    → In key (or_nil (lookup id m))
    → In key (or_nil (lookup id (insert j (or_nil (lookup j m) ++ k ∷ []) m)))
insert-keeps key k j id m h = elim (Bool-cases (str_eq j id)) [
  | inl e ↦
      rw (lookup-insert, e)
        (In-append_left key (or_nil (lookup j m)) (k ∷ [])
          (subst (λ i. In key (or_nil (lookup i m))) (sym ((eq_iff j id).0 e)) h))
  | inr e ↦ rw (lookup-insert, e) h
]

link-keeps :
    (key k : String) (ids : List String) (id : String) (m : Dict (List String))
    → In key (or_nil (lookup id m))
    → In key (or_nil (lookup id (link k ids m)))
unfolding link
link-keeps key k [] id m h = h
link-keeps key k (j ∷ ids) id m h =
    link-keeps key k ids id (insert j (or_nil (lookup j m) ++ k ∷ []) m)
      (insert-keeps key k j id m h)

link-adds :
    (k : String) (ids : List String) (id : String) (m : Dict (List String))
    → In id ids
    → In k (or_nil (lookup id (link k ids m)))
unfolding link
link-adds k [] id m h = absurd h
link-adds k (j ∷ ids) id m (inl e) =
    link-keeps k k ids id (insert j (or_nil (lookup j m) ++ k ∷ []) m) (
      subst (λ i. In k (or_nil (lookup i (insert j (or_nil (lookup j m) ++ k ∷ []) m)))) e
        (rw lookup-insert_self (In-append_right k (or_nil (lookup j m)) (k ∷ []) (inl refl))))
link-adds k (j ∷ ids) id m (inr i) =
    link-adds k ids id (insert j (or_nil (lookup j m) ++ k ∷ []) m) i

remember-IsFresh :
    (ids : List String) (ss : List Schedule) (e : Engine)
    → resolve e.schedules ids ≡ some ss
    → has_failed (merge_schedules ss) ≡ false
    → IsFresh e
    → IsFresh (remember (bundle_key ids) ids (merge_schedules ss).composite e)
unfolding remember
remember-IsFresh ids ss e r g f = record {
  current = λ key c l. elim (Bool-cases (str_eq (bundle_key ids) key)) [
    | inl x ↦ record {
      ids = ids;
      has_key = (eq_iff (bundle_key ids) key).0 x;
      schedules = ss;
      resolved = r;
      merged = (g, some-eq (rw (lookup-insert, x) at l));
      linked = λ id i.
          subst (λ k. In k (or_nil (lookup id (link (bundle_key ids) ids e.reverse_idx))))
            ((eq_iff (bundle_key ids) key).0 x) (link-adds (bundle_key ids) ids id e.reverse_idx i);
    }
    | inr x ↦
        let v = f.current key c (rw (lookup-insert, x) at l) in
        record {
          ids = v.ids;
          has_key = v.has_key;
          schedules = v.schedules;
          resolved = v.resolved;
          merged = v.merged;
          linked = λ id i. link-keeps key (bundle_key ids) ids id e.reverse_idx (v.linked id i);
        }
  ];
}

merge_into-IsFresh :
    (e : Engine) (ids : List String) (c : Schedule) (e' : Engine)
    → IsFresh e
    → merge_into e ids (resolve e.schedules ids) ≡ some (c, e')
    → IsFresh e'
merge_into-IsFresh e ids c e' f h = elim (Option-cases (resolve e.schedules ids)) [
  | inl x ↦ let k = rw (x, merge_into) at h in cc
  | inr (ss, x) ↦ elim (Bool-cases (has_failed (merge_schedules ss))) [
    | inl y ↦ let k = rw (x, merge_into, y) at h in cc
    | inr y ↦
        subst IsFresh
          (ap (λ (q : Schedule × Engine). q.1) (some_pair-eq (rw (x, merge_into, y) at h)))
          (remember-IsFresh ids ss e x y f)
  ]
]

evaluate_bundle-IsFresh :
    (loc : Locations) (ids : List String) (now : ℕ) (e : Engine)
    → IsFresh e
    → IsFresh (evaluate_bundle loc ids now e).1
unfolding evaluate_bundle fetch_bundle
evaluate_bundle-IsFresh loc [] now e f = f
evaluate_bundle-IsFresh loc (i ∷ is) now e f =
    elim (Option-cases (lookup (bundle_key (i ∷ is)) e.merged_cache)) [
      | inr (c, x) ↦ rw (x, act) f
      | inl x ↦ elim (Option-cases (merge_into e (i ∷ is) (resolve e.schedules (i ∷ is)))) [
        | inl y ↦ rw (x, y, act) f
        | inr ((c, e'), y) ↦ rw (x, y, act) (merge_into-IsFresh e (i ∷ is) c e' f y)
      ]
    ]

-- The calls that change an engine.
pub data Call : Type 0 where
  upserted : Schedule → Call
  deleted : String → Call
  evaluated : List String → ℕ → Call

unfoldable pub step : Locations → Call → Engine → Engine
step loc (upserted s) e = upsert_schedule s e
step loc (deleted id) e = delete_schedule id e
step loc (evaluated ids now) e = (evaluate_bundle loc ids now e).1

unfoldable pub run : Locations → List Call → Engine → Engine
run loc [] e = e
run loc (c ∷ cs) e = run loc cs (step loc c e)

step-IsFresh : (loc : Locations) (c : Call) (e : Engine) → IsFresh e → IsFresh (step loc c e)
unfolding step upsert_schedule delete_schedule
step-IsFresh loc (upserted s) e f =
    invalidate-IsFresh s.id (insert s.id s e.schedules) e (λ j x. rw (lookup-insert, x) refl) f
step-IsFresh loc (deleted id) e f =
    invalidate-IsFresh id (erase id e.schedules) e (λ j x. rw (lookup-erase, x) refl) f
step-IsFresh loc (evaluated ids now) e f = evaluate_bundle-IsFresh loc ids now e f

run-IsFresh : (loc : Locations) (cs : List Call) (e : Engine) → IsFresh e → IsFresh (run loc cs e)
unfolding run
run-IsFresh loc [] e f = f
run-IsFresh loc (c ∷ cs) e f = run-IsFresh loc cs (step loc c e) (step-IsFresh loc c e f)

-- Whatever schedules are written and deleted and whatever bundles are evaluated from a new engine
-- on, each schedule in the cache is the merge, free of errors and conflicts, of the schedules that
-- a bundle with its key names now.
pub run-new_engine-IsFresh : (loc : Locations) (cs : List Call) → IsFresh (run loc cs new_engine)
unfolding new_engine lookup
run-new_engine-IsFresh loc cs = run-IsFresh loc cs new_engine (record { current = λ key c l. cc })
