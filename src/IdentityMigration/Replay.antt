-- ===== src/IdentityMigration/Replay.antt =====
-- What a migration moves from the old device to the new one, and what a second one finds.
use lias_dis.Prelude.{
  ℕ, String, ◌≡◌, ◌≢◌, refl, sym, ap, subst, ◌∙◌, ◌⊎◌, inl, inr, true, false, ◌&&◌, Option, none,
  some, List, [], ◌∷◌, ◌++◌, arith, Bool-cases, Option-cases, str_eq, eq_iff, eq_refl,
}
use lias_dis.Prelude.Dict.{Dict, lookup, lookup-insert, lookup-insert_self}
use lias_dis.Prelude.Dict.{Distinct}
use lias_dis.Models.{Policy}
use lias_dis.Policy.Lifecycle.{KeyedById}
use lias_dis.IdentityMigration.Moved.{
  TagsMoved, ValueMoved, move_tags-TagsMoved, move_value-ValueMoved,
}
use lias_dis.IdentityMigration.Retargeted.{PoliciesMoved, migrate_identity_policies-PoliciesMoved}
use lias_dis.IdentityMigration.{
  Conflict, ConflictRow, Tables, Result, Details, migrate_identity_policies, redirect_all, recorded,
  load_state, rows_of, written, is_invalid, migrate_identity_state,
}

recorded-append :
    (old new : String) (xs ys : List ConflictRow)
    → recorded old new (xs ++ ys) ≡ recorded old new xs ++ recorded old new ys
unfolding recorded
recorded-append old new [] ys = refl
recorded-append old new (r ∷ xs) ys =
    elim (Bool-cases (str_eq r.old_pdid old && str_eq r.new_pdid new)) [
      | inl x ↦ rw x (ap (λ z. r.conflict ∷ z) (recorded-append old new xs ys))
      | inr x ↦ rw x (recorded-append old new xs ys)
    ]

recorded-rows_of :
    (old new : String) (cs : List Conflict) → recorded old new (rows_of old new cs) ≡ cs
unfolding recorded rows_of
recorded-rows_of old new [] = refl
recorded-rows_of old new (c ∷ cs) =
    rw (eq_refl old, eq_refl new) (ap (λ z. c ∷ z) (recorded-rows_of old new cs))

-- No redirect leads to the old device.
redirect_all-gone :
    (old new k : String) (m : Dict String)
    → str_eq old new ≡ false
    → lookup k (redirect_all old new m) ≢ some old
unfolding redirect_all lookup
redirect_all-gone old new k [] n e = cc
redirect_all-gone old new k ((j, v) ∷ m) n e = elim (Bool-cases (str_eq j k)) [
  | inr y ↦ redirect_all-gone old new k m n (rw (redirect_all, lookup, y) at e)
  | inl y ↦ elim (Bool-cases (str_eq v old)) [
    | inl z ↦
        let q : some new ≡ some old = rw (redirect_all, lookup, y, z) at e in
        absurd (let f : true ≡ false = sym ((eq_iff old new).1 (sym (some-eq q))) ∙ n in cc)
    | inr z ↦
        let q : some v ≡ some old = rw (redirect_all, lookup, y, z) at e in
        absurd (let f : true ≡ false = sym ((eq_iff v old).1 (some-eq q)) ∙ z in cc)
  ]
]
  where
    some-eq : {a b : String} → some a ≡ some b → a ≡ b
    some-eq q = cc

-- All that is known of the old device in the tables before is with the new one in those after, the
-- old one redirects to it, and no redirect leads to the old one.
pub record IsMoved (old new : String) (t t' : Tables) : Type 0 where
  pub tags : TagsMoved old new t.device_tags t'.device_tags
  pub name : ValueMoved old new t.device_overrides t'.device_overrides
  pub user : ValueMoved old new t.device_users t'.device_users
  pub policies : PoliciesMoved old new t.policies t'.policies
  pub redirected : lookup old t'.redirects ≡ some new
  pub compressed : (k : String) → lookup k t'.redirects ≢ some old

written-IsMoved :
    (old new : String) (ps : Dict Policy) (cs : List Conflict) (t : Tables)
    → str_eq old new ≡ false
    → PoliciesMoved old new t.policies ps
    → IsMoved old new t (written old new ps cs t)
unfolding written
written-IsMoved old new ps cs t n m = record {
  tags = move_tags-TagsMoved old new t.device_tags n;
  name = move_value-ValueMoved old new t.device_overrides n;
  user = move_value-ValueMoved old new t.device_users n;
  policies = m;
  redirected = lookup-insert_self old new (redirect_all old new t.redirects);
  compressed = λ k e. elim (Bool-cases (str_eq old k)) [
    | inl y ↦
        let q : some new ≡ some old =
          rw (lookup-insert old k new (redirect_all old new t.redirects), y) at e in
        absurd (let f : true ≡ false = sym ((eq_iff old new).1 (sym (some-eq q))) ∙ n in cc)
    | inr y ↦
        redirect_all-gone old new k t.redirects n
          (rw (lookup-insert old k new (redirect_all old new t.redirects), y) at e)
  ];
}
  where
    some-eq : {a b : String} → some a ≡ some b → a ≡ b
    some-eq q = cc

-- A replay of a migration that is written.
replayed :
    (details : Details) (later : ℕ) (old new : String) (ps : Dict Policy) (cs : List Conflict)
    (t : Tables)
    → is_invalid old new ≡ false
    → recorded old new t.conflicts ≡ []
    → migrate_identity_state details later old new (written old new ps cs t)
      ≡ (some (load_state new true cs (written old new ps cs t)), written old new ps cs t)
unfolding migrate_identity_state written
replayed details later old new ps cs t v r =
    let found : lookup old (written old new ps cs t).migrations ≡ some new =
      lookup-insert_self old new t.migrations in
    let read : recorded old new (t.conflicts ++ rows_of old new cs) ≡ cs =
      recorded-append old new t.conflicts (rows_of old new cs)
      ∙ ap (λ z. z ++ recorded old new (rows_of old new cs)) r
      ∙ recorded-rows_of old new cs in
    rw (migrate_identity_state, v, found, eq_refl new, read) refl

-- Of a device that was not migrated before, of which no conflicts with the new one were recorded, and
-- in a store where every policy stands once and under its own identifier: the migration fails and
-- changes nothing, or moves the device. The new device then has the tags of both, and as name and
-- user its own or, where it has none or an empty one, that of the old device. In place of each policy
-- of the old device, one of the new device stands under the identifier that the migration gives it.
-- The old device has no tag, name, user or policy left, it redirects to the new one, and no redirect
-- leads to it. The tags, names, users and policies of others stay. A second migration then changes nothing and gives the same
-- result, marked as a replay.
pub migrate_identity_state-IsMoved :
    (details : Details) (now later : ℕ) (old new : String) (t : Tables)
    → lookup old t.migrations ≡ none
    → recorded old new t.conflicts ≡ []
    → Distinct t.policies
    → KeyedById t.policies
    → (migrate_identity_state details now old new t ≡ (none, t))
      ⊎ ((r : Result) × ((migrate_identity_state details now old new t).0 ≡ some r)
          × IsMoved old new t (migrate_identity_state details now old new t).1
          × (migrate_identity_state details later old new
                (migrate_identity_state details now old new t).1
              ≡ (
                some (record r { replayed = true }),
                (migrate_identity_state details now old new t).1,
              )))
unfolding migrate_identity_state load_state
migrate_identity_state-IsMoved details now later old new t fresh r d b =
    elim (Bool-cases (is_invalid old new)) [
      | inl v ↦ inl (rw (migrate_identity_state, v) refl)
      | inr v ↦ elim (Option-cases (migrate_identity_policies details now old new t.policies)) [
        | inl x ↦ inl (rw (migrate_identity_state, v, fresh, x) refl)
        | inr ((ps, cs), x) ↦
            let step : migrate_identity_state details now old new t ≡ (
              some (load_state new false cs (written old new ps cs t)),
              written old new ps cs t,
            ) =
              rw (migrate_identity_state, v, fresh, x) refl in
            let differs : str_eq old new ≡ false = ground (arith, v) in
            inr (
              subst
                (λ (o : Option Result × Tables).
                  (r : Result) × (o.0 ≡ some r)
                  × IsMoved old new t o.1
                  × (migrate_identity_state details later old new o.1
                      ≡ (some (record r { replayed = true }), o.1)))
                (sym step)
                (
                  load_state new false cs (written old new ps cs t),
                  refl,
                  written-IsMoved old new ps cs t differs (
                      migrate_identity_policies-PoliciesMoved old new details now t.policies ps cs
                        differs d b x),
                  replayed details later old new ps cs t v r,
                ))
      ]
    ]
