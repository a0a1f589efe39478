-- ===== src/IdentityMigration/Retargeted.antt =====
-- What the loop over the policies of the old device leaves in the table.
use lias_dis.Prelude.{
  ℕ, String, ◌≡◌, refl, sym, ap, subst, ◌∙◌, ◌⊎◌, inl, inr, Bool, true, false, none, some, List, [],
  ◌∷◌, ◌++◌, arith, Bool-cases, Option-cases, str_eq, eq_iff, eq_refl, select, In, In-select,
  In-select_intro, if◌then◌else◌,
}
use lias_dis.Prelude.Dict.{
  Dict, lookup, insert, erase, Distinct, Fresh, lookup-insert, lookup-erase,
}
use lias_dis.Prelude.Int.{ltb_ℤ}
use lias_dis.Models.{Policy}
use lias_dis.Policy.{values}
use lias_dis.Policy.Lifecycle.{KeyedById}
use lias_dis.IdentityMigration.{
  Conflict, Progress, is_of, retargeted, retarget_temporary_policy_id, index, insert_row, keep_row,
  Details, migrate_policy, migrate_policies, with_precedence, migrate_identity_policies, rank,
}

-- Each policy of the list stands in the table under its identifier.
abbrev Stands : List Policy → Dict Policy → Type 0
Stands ps m = (p : Policy) → In p ps → lookup p.id m ≡ some p

-- No two policies of the list share an identifier.
abbrev Apart : List Policy → Type 0
Apart [] = Unit
Apart (p ∷ ps) = ((q : Policy) → In q ps → str_eq p.id q.id ≡ false) × Apart ps

value_id-ne :
    (k : String) (m : Dict Policy) (q : Policy)
    → Fresh k m
    → KeyedById m
    → In q (values m)
    → str_eq k q.id ≡ false
value_id-ne k [] q f b i = absurd i
value_id-ne k ((j, p) ∷ m) q f b (inl e) =
    let x : j ≡ q.id = b.0 ∙ ap (λ (z : Policy). z.id) e in
    subst (λ z. str_eq k z ≡ false) x (ground (arith, f.0, eq_iff j k, eq_iff k j))
value_id-ne k ((j, p) ∷ m) q f b (inr i) = value_id-ne k m q f.1 b.1 i

values-Stands : (m : Dict Policy) → Distinct m → KeyedById m → Stands (values m) m
unfolding lookup
values-Stands [] d b p i = absurd i
values-Stands ((k, q) ∷ m) d b p (inl e) =
    let y : str_eq k p.id ≡ true = (eq_iff k p.id).1 (b.0 ∙ ap (λ (z : Policy). z.id) e) in
    rw (lookup, y) (ap some e)
values-Stands ((k, q) ∷ m) d b p (inr i) =
    rw (lookup, value_id-ne k m p d.0 b.1 i) (values-Stands m d.1 b.1 p i)

values-Apart :
    (test : Policy → Bool) (m : Dict Policy)
    → Distinct m
    → KeyedById m
    → Apart (select test (values m))
unfolding select
values-Apart test [] d b = tt
values-Apart test ((k, q) ∷ m) d b = elim (Bool-cases (test q)) [
  | inr n ↦ rw n (values-Apart test m d.1 b.1)
  | inl y ↦ rw y (
    λ p i.
        subst (λ z. str_eq z p.id ≡ false) b.0
          (value_id-ne k m p d.0 b.1 (In-select test p (values m) i).0),
    values-Apart test m d.1 b.1,
  )
]

lookup-In :
    (k : String) (m : Dict Policy) (p : Policy)
    → KeyedById m
    → lookup k m ≡ some p
    → In p (values m) × (p.id ≡ k)
unfolding lookup
lookup-In k [] p b e = absurd (cc)
lookup-In k ((j, q) ∷ m) p b e = elim (Bool-cases (str_eq j k)) [
  | inl y ↦
      let s : q ≡ p = let z : some q ≡ some p = rw (lookup, y) at e in cc in
      (inl s, sym (ap (λ (z : Policy). z.id) s) ∙ sym b.0 ∙ (eq_iff j k).0 y)
  | inr n ↦ let (i, x) = lookup-In k m p b.1 (rw (lookup, n) at e) in (inr i, x)
]

module _ (old new : String) where
  -- What the loop keeps: `before` is the table that it began with, `ps` the policies of the old
  -- device that are left.
  record Kept (before : Dict Policy) (ps : List Policy) (s : Progress) : Type 0 where
    stands : Stands ps s.table
    apart : Apart ps
    of_old : (p : Policy) → In p ps → is_of old p ≡ true
    by_id :
        (k : String) (q : Policy)
        → lookup k s.target_by_id ≡ some q
        → (lookup k s.table ≡ some q) × (is_of new q ≡ true) × (q.id ≡ k)
    only :
        (k : String) (q : Policy)
        → lookup k s.table ≡ some q
        → is_of old q ≡ true
        → In q ps × (q.id ≡ k)
    arrived :
        (k : String) (p : Policy)
        → lookup k before ≡ some p
        → is_of old p ≡ true
        → In p ps
          ⊎ ((q : Policy) × (lookup (retarget_temporary_policy_id p.id old new) s.table ≡ some q)
              × (is_of new q ≡ true))
    others :
        (k : String) (q : Policy)
        → lookup k before ≡ some q
        → is_of old q ≡ false
        → is_of new q ≡ false
        → lookup k s.table ≡ some q

  -- One policy of the loop puts a policy of the new device, `w`, under the new identifier.
  record Stepped (p : Policy) (s s' : Progress) : Type 0 where
    w : Policy
    w_id : w.id ≡ retarget_temporary_policy_id p.id old new
    w_new : is_of new w ≡ true
    table :
        (k : String)
        → lookup k s'.table
          ≡ (if str_eq w.id k then some w else if str_eq p.id k then none else lookup k s.table)
    targets :
        (k : String)
        → lookup k s'.target_by_id ≡ (if str_eq w.id k then some w else lookup k s.target_by_id)
    -- What stands under the new identifier before it is not of a third device.
    free :
        (q : Policy) → lookup w.id s.table ≡ some q → str_eq p.id w.id ≡ false → is_of new q ≡ true

  module _ (n : str_eq old new ≡ false) where
    not_both : (q : Policy) → is_of old q ≡ true → is_of new q ≡ false
    not_both q h = elim (Bool-cases (is_of new q)) [
      | inr e ↦ e
      | inl e ↦
          let a : q.target_id ≡ old = (eq_iff q.target_id old).0 (ground (arith, h)) in
          let b : q.target_id ≡ new = (eq_iff q.target_id new).0 (ground (arith, e)) in
          absurd (let f : true ≡ false = sym ((eq_iff old new).1 (sym a ∙ b)) ∙ n in cc)
    ]

    not_old : (q : Policy) → is_of new q ≡ true → is_of old q ≡ false
    not_old q h = elim (Bool-cases (is_of old q)) [
      | inr e ↦ e
      | inl e ↦ absurd (let f : true ≡ false = sym h ∙ not_both q e in cc)
    ]

    some-eq : {a b : Policy} → some a ≡ some b → a ≡ b
    some-eq e = cc

    module _ (before : Dict Policy) (p : Policy) (ps : List Policy) (s s' : Progress) where
      stays :
          Stepped p s s'
          → (k : String) (q : Policy) → lookup k s.table ≡ some q
          → str_eq p.id k ≡ false
          → is_of new q ≡ false
          → lookup k s'.table ≡ some q
      stays t k q e a b = elim (Bool-cases (str_eq t.w.id k)) [
        | inr m ↦ t.table k ∙ rw (m, a) e
        | inl y ↦
            let x : t.w.id ≡ k = (eq_iff t.w.id k).0 y in
            let f : is_of new q ≡ true =
              t.free q (subst (λ z. lookup z s.table ≡ some q) (sym x) e)
                (subst (λ z. str_eq p.id z ≡ false) (sym x) a) in
            absurd (let z : true ≡ false = sym f ∙ b in cc)
      ]

      -- A policy under the identifier of the old one is the old one.
      unlike :
          Kept before (p ∷ ps) s
          → (k : String) (q : Policy) → lookup k s.table ≡ some q
          → is_of old q ≡ false
          → str_eq p.id k ≡ false
      unlike h k q e a = elim (Bool-cases (str_eq p.id k)) [
        | inr m ↦ m
        | inl y ↦
            let x : lookup k s.table ≡ some p =
              subst (λ z. lookup z s.table ≡ some p) ((eq_iff p.id k).0 y)
                (h.stands p (inl refl)) in
            let q_is : p ≡ q = some-eq (sym x ∙ e) in
            let f : is_of old q ≡ true =
              subst (λ z. is_of old z ≡ true) q_is (h.of_old p (inl refl)) in
            absurd (let z : true ≡ false = sym f ∙ a in cc)
      ]

      Kept-target_by_id :
          (h : Kept before (p ∷ ps) s) (t : Stepped p s s') (k : String) (q : Policy)
          → lookup k s'.target_by_id ≡ some q
          → (lookup k s'.table ≡ some q) × (is_of new q ≡ true) × (q.id ≡ k)
      Kept-target_by_id h t k q e = elim (Bool-cases (str_eq t.w.id k)) [
        | inl y ↦
            let x : t.w ≡ q =
              some-eq (let z : some t.w ≡ some q = sym (t.targets k ∙ rw y refl) ∙ e in z) in
            (
              t.table k ∙ rw y (ap some x),
              subst (λ z. is_of new z ≡ true) x t.w_new,
              sym (ap (λ (z : Policy). z.id) x) ∙ (eq_iff t.w.id k).0 y,
            )
        | inr m ↦
            let (a, b, c) = h.by_id k q (
              sym (
                let z : lookup k s'.target_by_id ≡ lookup k s.target_by_id =
                  t.targets k ∙ rw m refl in
                z)
              ∙ e) in
            (t.table k ∙ rw (m, unlike h k q a (not_old q b)) a, b, c)
      ]

      Kept-table :
          (h : Kept before (p ∷ ps) s) (t : Stepped p s s') (k : String) (q : Policy)
          → lookup k s'.table ≡ some q
          → is_of old q ≡ true
          → In q ps × (q.id ≡ k)
      Kept-table h t k q e o = elim (Bool-cases (str_eq t.w.id k)) [
        | inl y ↦
            let z : some t.w ≡ some q = sym (t.table k ∙ rw y refl) ∙ e in
            let f : is_of old q ≡ false =
              not_old q (subst (λ z. is_of new z ≡ true) (some-eq z) t.w_new) in
            absurd (let g : true ≡ false = sym o ∙ f in cc)
        | inr m ↦ elim (Bool-cases (str_eq p.id k)) [
          | inl y ↦ absurd (let z : none ≡ some q = sym (t.table k ∙ rw (m, y) refl) ∙ e in cc)
          | inr l ↦
              let z : lookup k s.table ≡ some q = sym (t.table k ∙ rw (m, l) refl) ∙ e in
              let (i, x) = h.only k q z o in
              elim i [
                | inr j ↦ (j, x)
                | inl r ↦
                    let f : str_eq p.id k ≡ true =
                      (eq_iff p.id k).1 (ap (λ (z : Policy). z.id) r ∙ x) in
                    absurd (let g : true ≡ false = sym f ∙ l in cc)
              ]
        ]
      ]

      Kept-arrived :
          (h : Kept before (p ∷ ps) s) (t : Stepped p s s') (k : String) (q : Policy)
          → lookup k before ≡ some q
          → is_of old q ≡ true
          → In q ps
            ⊎ ((r : Policy) × (lookup (retarget_temporary_policy_id q.id old new) s'.table ≡ some r)
                × (is_of new r ≡ true))
      Kept-arrived h t k q e o =
          let key : String = retarget_temporary_policy_id q.id old new in
          elim (h.arrived k q e o) [
            | inl (inr j) ↦ inl j
            | inl (inl r) ↦
                let y : str_eq t.w.id key ≡ true =
                  (eq_iff t.w.id key).1
                    (t.w_id ∙ ap (λ (z : Policy). retarget_temporary_policy_id z.id old new) r) in
                inr (t.w, t.table key ∙ rw y refl, t.w_new)
            | inr (r, l, b) ↦ elim (Bool-cases (str_eq t.w.id key)) [
              | inl y ↦ inr (t.w, t.table key ∙ rw y refl, t.w_new)
              | inr m ↦ inr (r, t.table key ∙ rw (m, unlike h key r l (not_old r b)) l, b)
            ]
          ]

      Kept-step : Kept before (p ∷ ps) s → Stepped p s s' → Kept before ps s'
      Kept-step h t = record {
        stands = λ q i.
            stays t q.id q (h.stands q (inr i)) (h.apart.0 q i) (not_both q (h.of_old q (inr i)));
        apart = h.apart.1;
        of_old = λ q i. h.of_old q (inr i);
        by_id = Kept-target_by_id h t;
        only = Kept-table h t;
        arrived = Kept-arrived h t;
        others =
            λ k q e a b. let here = h.others k q e a b in stays t k q here (unlike h k q here a) b;
      }

    -- A row that is kept was free, and is in the table and among the policies of the new device.
    keep_row-some :
        (w : Policy) (cs : List Conflict) (by m : Dict Policy) (s' : Progress)
        → keep_row w cs by (insert_row w m) ≡ some s'
        → (lookup w.id m ≡ none)
          × (s'.table ≡ insert w.id w m)
          × (s'.target_by_id ≡ insert w.id w by)
    keep_row-some w cs by m s' h = elim (Option-cases (lookup w.id m)) [
      | inr (q, x) ↦ absurd (let z : none ≡ some s' = rw x at h in cc)
      | inl x ↦
          let z : some (record {
            table = insert w.id w m;
            target_by_id = insert w.id w by;
            conflicts = cs;
          })
              ≡ some s' =
            rw x at h in
          let e : record {
            table = insert w.id w m;
            target_by_id = insert w.id w by;
            conflicts = cs;
          }
              ≡ s' =
            cc in
          (x, sym (ap (λ (u : Progress). u.table) e), sym (ap (λ (u : Progress). u.target_by_id) e))
    ]

    module _ (details : Details) (now : ℕ) (before : Dict Policy) where
      source-IsNew : (p : Policy) → is_of old p ≡ true → is_of new (retargeted now old new p) ≡ true
      source-IsNew p h = ground (arith, h, eq_refl new)

      -- One row written over what was under its identifier and without the old one.
      one_row :
          (p w : Policy) (cs : List Conflict) (s s' : Progress) (m : Dict Policy)
          → w.id ≡ retarget_temporary_policy_id p.id old new
          → is_of new w ≡ true
          → keep_row w cs s.target_by_id (insert_row w m) ≡ some s'
          → ((k : String)
              → str_eq w.id k ≡ false
              → lookup k m ≡ (if str_eq p.id k then none else lookup k s.table))
          → (lookup w.id m ≡ none
              → (q : Policy) → lookup w.id s.table ≡ some q
              → str_eq p.id w.id ≡ false
              → is_of new q ≡ true)
          → Stepped p s s'
      one_row p w cs s s' m i b h look free =
          let (empty, tab, tar) = keep_row-some w cs s.target_by_id m s' h in
          record {
            w = w;
            w_id = i;
            w_new = b;
            table = λ k.
                ap (λ z. lookup k z) tab
                ∙ lookup-insert w.id k w m
                ∙ elim (Bool-cases (str_eq w.id k)) [ inl y ↦ rw y refl | inr x ↦ rw x (look k x) ];
            targets = λ k. ap (λ z. lookup k z) tar ∙ lookup-insert w.id k w s.target_by_id;
            free = free empty;
          }

      step-Stepped :
          (p : Policy) (ps : List Policy) (s s' : Progress)
          → Kept before (p ∷ ps) s
          → migrate_policy details now old new p s ≡ some s'
          → Stepped p s s'
      unfolding migrate_policy
      step-Stepped p ps s s' h e =
          let source : Policy = retargeted now old new p in
          elim (Option-cases (lookup source.id s.target_by_id)) [
            | inl x ↦
                one_row p source s.conflicts s s' (erase p.id s.table) refl
                  (source-IsNew p (h.of_old p (inl refl))) (rw (migrate_policy, x) at e)
                  (λ k m. lookup-erase p.id k s.table)
                  (λ z q l d.
                    let g : lookup source.id (erase p.id s.table) ≡ some q =
                      lookup-erase p.id source.id s.table ∙ rw d l in
                    absurd (let f : none ≡ some q = sym z ∙ g in cc))
            | inr (target, x) ↦
                let (there, fresh, id) = h.by_id source.id target x in
                elim (Bool-cases (ltb_ℤ target.priority source.priority)) [
                  | inl y ↦
                      one_row p source _ s s' (erase target.id (erase p.id s.table)) refl
                        (source-IsNew p (h.of_old p (inl refl))) (rw (migrate_policy, x, y) at e)
                        (look source p target s id)
                        (λ z q l d. occupied source target s there fresh refl q l)
                  | inr y ↦
                      one_row p target _ s s' (erase target.id (erase p.id s.table)) id fresh
                        (rw (migrate_policy, x, y) at e) (look target p target s refl)
                        (λ z q l d. occupied source target s there fresh (sym id) q l)
                ]
          ]
        where
          look :
              (w p target : Policy) (s : Progress)
              → target.id ≡ w.id
              → (k : String) → str_eq w.id k ≡ false
              → lookup k (erase target.id (erase p.id s.table))
                ≡ (if str_eq p.id k then none else lookup k s.table)
          look w p target s i k m =
              let t : str_eq target.id k ≡ false = subst (λ z. str_eq z k ≡ false) (sym i) m in
              lookup-erase target.id k (erase p.id s.table) ∙ rw t (lookup-erase p.id k s.table)

          occupied :
              (source target : Policy) (s : Progress) {w : String}
              → lookup source.id s.table ≡ some target
              → is_of new target ≡ true
              → source.id ≡ w
              → (q : Policy) → lookup w s.table ≡ some q
              → is_of new q ≡ true
          occupied source target s {w = w} there fresh i q l =
              let same : target ≡ q =
                some-eq (sym (subst (λ v. lookup v s.table ≡ some target) i there) ∙ l) in
              subst (λ v. is_of new v ≡ true) same fresh

      migrate_policies-none :
          (ps : List Policy) → migrate_policies details now old new ps none ≡ none
      unfolding migrate_policies
      migrate_policies-none [] = refl
      migrate_policies-none (p ∷ ps) = migrate_policies-none ps

      migrate_policies-Kept :
          (ps : List Policy) (s s' : Progress)
          → Kept before ps s
          → migrate_policies details now old new ps (some s) ≡ some s'
          → Kept before [] s'
      unfolding migrate_policies
      migrate_policies-Kept [] s s' h e = let same : s ≡ s' = cc in subst (Kept before []) same h
      migrate_policies-Kept (p ∷ ps) s s' h e =
          elim (Option-cases (migrate_policy details now old new p s)) [
            | inl x ↦ absurd (
                let z : migrate_policies details now old new ps none ≡ some s' =
                  rw (migrate_policies, x) at e in
                let f : none ≡ some s' = sym (migrate_policies-none ps) ∙ z in cc)
            | inr (u, x) ↦
                migrate_policies-Kept ps u s'
                  (Kept-step before p ps s u h (step-Stepped p ps s u h x))
                  (rw (migrate_policies, x) at e)
          ]

  -- The old device has no policy left. For each policy that it had, a policy of the new device
  -- stands under the identifier that the migration gives it. All policies of other devices, tags and
  -- of the network stay.
  pub record PoliciesMoved (before after : Dict Policy) : Type 0 where
    pub none_left : (k : String) (q : Policy) → lookup k after ≡ some q → is_of old q ≡ false
    pub arrived :
        (k : String) (p : Policy)
        → lookup k before ≡ some p
        → is_of old p ≡ true
        → (q : Policy) × (lookup (retarget_temporary_policy_id p.id old new) after ≡ some q)
          × (is_of new q ≡ true)
    pub others :
        (k : String) (q : Policy)
        → lookup k before ≡ some q
        → is_of old q ≡ false
        → is_of new q ≡ false
        → lookup k after ≡ some q

  Kept-PoliciesMoved :
      (before : Dict Policy) (s : Progress) → Kept before [] s → PoliciesMoved before s.table
  Kept-PoliciesMoved before s h = record {
    none_left =
        λ k q e. elim (Bool-cases (is_of old q)) [ inr n ↦ n | inl y ↦ absurd (h.only k q e y).0 ];
    arrived = λ k p e y. elim (h.arrived k p e y) [ inl z ↦ absurd z | inr r ↦ r ];
    others = h.others;
  }

  index-In :
      (ps : List Policy) (m : Dict Policy) (k : String) (q : Policy)
      → lookup k (index ps m) ≡ some q
      → (In q ps × (q.id ≡ k)) ⊎ (lookup k m ≡ some q)
  unfolding index
  index-In [] m k q e = inr e
  index-In (p ∷ ps) m k q e = elim (index-In ps (insert p.id p m) k q e) [
    | inl (i, x) ↦ inl (inr i, x)
    | inr l ↦ elim (Bool-cases (str_eq p.id k)) [
      | inr n ↦ inr (rw (lookup-insert p.id k p m, n) at l)
      | inl y ↦
          let z : some p ≡ some q = rw (lookup-insert p.id k p m, y) at l in
          let r : p ≡ q = cc in inl (inl r, sym (ap (λ (z : Policy). z.id) r) ∙ (eq_iff p.id k).0 y)
    ]
  ]

  start-Kept :
      (t : Dict Policy)
      → Distinct t
      → KeyedById t
      → Kept t (select (is_of old) (values t)) (record {
        table = t;
        target_by_id = index (select (is_of new) (values t)) [];
        conflicts = [];
      })
  unfolding lookup
  start-Kept t d b = record {
    stands = λ p i. values-Stands t d b p (In-select (is_of old) p (values t) i).0;
    apart = values-Apart (is_of old) t d b;
    of_old = λ p i. (In-select (is_of old) p (values t) i).1;
    by_id = λ k q e. elim (index-In (select (is_of new) (values t)) [] k q e) [
      | inr z ↦ absurd (cc)
      | inl (i, x) ↦
          let (j, y) = In-select (is_of new) q (values t) i in
          (subst (λ v. lookup v t ≡ some q) x (values-Stands t d b q j), y, x)
    ];
    only = λ k q e o.
        let (i, x) = lookup-In k t q b e in (In-select_intro (is_of old) q (values t) i o, x);
    arrived = λ k p e o. inl (In-select_intro (is_of old) p (values t) (lookup-In k t p b e).0 o);
    others = λ k q e a b. e;
  }

  pub migrate_identity_policies-PoliciesMoved :
      (details : Details) (now : ℕ) (t after : Dict Policy) (cs : List Conflict)
      → str_eq old new ≡ false
      → Distinct t
      → KeyedById t
      → migrate_identity_policies details now old new t ≡ some (after, cs)
      → PoliciesMoved t after
  unfolding migrate_identity_policies
  migrate_identity_policies-PoliciesMoved details now t after cs n d b e =
      let start : Progress = record {
        table = t;
        target_by_id = index (select (is_of new) (values t)) [];
        conflicts = [];
      } in
      elim (Option-cases
        (migrate_policies details now old new (select (is_of old) (values t)) (some start))) [
          | inl x ↦
              absurd
                (let z : none ≡ some (after, cs) = rw (migrate_identity_policies, x) at e in cc)
          | inr (s, x) ↦
              let z : some (
                s.table,
                s.conflicts
                    ++ with_precedence details
                        (rank (select (λ p. p.enabled) (values s.target_by_id))),
              )
                  ≡ some (after, cs) =
                rw (migrate_identity_policies, x) at e in
              let same : s.table ≡ after = first z in
              subst (PoliciesMoved t) same (
                Kept-PoliciesMoved t s (
                  migrate_policies-Kept n details now t (select (is_of old) (values t)) start s
                    (start-Kept t d b) x))
        ]
    where
      first : {x y : Dict Policy × List Conflict} → some x ≡ some y → x.0 ≡ y.0
      first {x = x} {y = y} p = let q : x ≡ y = cc in ap (λ w. w.0) q
