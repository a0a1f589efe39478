-- ===== src/ScheduleConflict/Loop.antt =====
-- The double loop of `MergeSchedules`: every conflict that it reports is one, and where there is
-- one it reports some.
use lias_dis.Prelude.{
  ℕ, ◌≤◌, String, ◌≡◌, refl, sym, ap, subst, ◌⊎◌, inl, inr, true, List, [], ◌∷◌, ◌++◌, arith, leb,
  str_eq, Bool-cases, In, In-append_cases, exists, ◌∙◌, leb→le,
}
use lias_dis.ScheduleConflict.{
  Segment, Conflict, clashes, Found, conflict_of, conflict_key, check_pair, check_against,
  find_conflicts,
}
use lias_dis.ScheduleConflict.Pairs.{
  Contradict, clashes-Contradict, Contradict-clashes, Contradict-sym, StartsBefore, IsSorted,
}

abbrev pub HasConflict : List Conflict → Type 0
HasConflict [] = ⊥
HasConflict (c ∷ cs) = Unit

HasConflict-append : (xs : List Conflict) (c : Conflict) → HasConflict (xs ++ c ∷ [])
HasConflict-append [] c = tt
HasConflict-append (x ∷ xs) c = tt

-- A key is remembered only where a conflict was reported.
abbrev Honest : Found → Type 0
Honest st = HasConflict st.conflicts ⊎ (st.seen ≡ [])

check_pair-keeps :
    (a b : Segment) (st : Found)
    → HasConflict st.conflicts
    → HasConflict (check_pair a b st).conflicts
unfolding check_pair
check_pair-keeps a b st h = elim (Bool-cases (clashes a b)) [
  | inr e ↦ rw e h
  | inl e ↦ elim (Bool-cases (exists (str_eq (conflict_key (conflict_of a b))) st.seen)) [
    | inl f ↦ rw (e, f) h
    | inr f ↦ rw (e, f) (HasConflict-append st.conflicts (conflict_of a b))
  ]
]

check_pair-finds :
    (a b : Segment) (st : Found)
    → Honest st
    → clashes a b ≡ true
    → HasConflict (check_pair a b st).conflicts
unfolding check_pair exists
check_pair-finds a b st h e =
    elim (Bool-cases (exists (str_eq (conflict_key (conflict_of a b))) st.seen)) [
      | inr f ↦ rw (e, f) (HasConflict-append st.conflicts (conflict_of a b))
      | inl f ↦ elim h [
        | inl k ↦ rw (e, f) k
        | inr n ↦ absurd (
            no_key (conflict_key (conflict_of a b))
              (subst (λ l. exists (str_eq (conflict_key (conflict_of a b))) l ≡ true) n f))
      ]
    ]
  where
    no_key : (k : String) → exists (str_eq k) [] ≡ true → ⊥
    no_key k e = cc

check_pair-Honest : (a b : Segment) (st : Found) → Honest st → Honest (check_pair a b st)
check_pair-Honest a b st h = elim (Bool-cases (clashes a b)) [
  | inl e ↦ inl (check_pair-finds a b st h e)
  | inr e ↦ unfold check_pair in rw e h
]

check_against-keeps :
    (a : Segment) (bs : List Segment) (st : Found)
    → HasConflict st.conflicts
    → HasConflict (check_against a bs st).conflicts
unfolding check_against
check_against-keeps a [] st h = h
check_against-keeps a (b ∷ bs) st h = elim (Bool-cases (leb a.end b.start)) [
  | inl e ↦ rw e h
  | inr e ↦ rw e (check_against-keeps a bs (check_pair a b st) (check_pair-keeps a b st h))
]

check_against-Honest :
    (a : Segment) (bs : List Segment) (st : Found) → Honest st → Honest (check_against a bs st)
unfolding check_against
check_against-Honest a [] st h = h
check_against-Honest a (b ∷ bs) st h = elim (Bool-cases (leb a.end b.start)) [
  | inl e ↦ rw e h
  | inr e ↦ rw e (check_against-Honest a bs (check_pair a b st) (check_pair-Honest a b st h))
]

-- Behind a segment that starts late all start late.
StartsBefore-In :
    (n : ℕ) (bs : List Segment) (b : Segment) → StartsBefore n bs → In b bs → n ≤ b.start
StartsBefore-In n [] b s i = absurd i
StartsBefore-In n (x ∷ bs) b s (inl e) = subst (λ (y : Segment). n ≤ y.start) e s.0
StartsBefore-In n (x ∷ bs) b s (inr i) = StartsBefore-In n bs b s.1 i

-- The break loses nothing.
check_against-finds :
    (a : Segment) (bs : List Segment) (b : Segment) (st : Found)
    → IsSorted bs
    → In b bs
    → Contradict a b
    → Honest st
    → HasConflict (check_against a bs st).conflicts
unfolding check_against
check_against-finds a [] b st s i c h = absurd i
check_against-finds a (x ∷ bs) b st s (inl e) c h = elim (Bool-cases (leb a.end x.start)) [
  | inl f ↦
      let same : x.start ≡ b.start = ap (λ (y : Segment). y.start) e in
      absurd (omega (arith, leb→le a.end x.start f, c.ends_after))
  | inr f ↦ rw f (
      check_against-keeps a bs (check_pair a x st)
        (check_pair-finds a x st h (Contradict-clashes a x (subst (Contradict a) (sym e) c))))
]
check_against-finds a (x ∷ bs) b st s (inr i) c h = elim (Bool-cases (leb a.end x.start)) [
  | inl f ↦
      absurd
        (omega (arith, leb→le a.end x.start f, c.ends_after, StartsBefore-In x.start bs b s.0 i))
  | inr f ↦
      rw f (check_against-finds a bs b (check_pair a x st) s.1 i c (check_pair-Honest a x st h))
]

find_conflicts-keeps :
    (xs : List Segment) (st : Found)
    → HasConflict st.conflicts
    → HasConflict (find_conflicts xs st).conflicts
unfolding find_conflicts
find_conflicts-keeps [] st h = h
find_conflicts-keeps (x ∷ xs) st h =
    find_conflicts-keeps xs (check_against x xs st) (check_against-keeps x xs st h)

-- In a sorted list, two segments that contradict one another lead to a conflict.
pub find_conflicts-finds :
    (xs : List Segment) (a b : Segment) (st : Found)
    → IsSorted xs
    → In a xs
    → In b xs
    → Contradict a b
    → Honest st
    → HasConflict (find_conflicts xs st).conflicts
unfolding find_conflicts
find_conflicts-finds [] a b st s i j c h = absurd i
find_conflicts-finds (x ∷ xs) a b st s (inl p) (inl q) c h =
    absurd (c.actions_differ (ap (λ (y : Segment). y.action) (sym p ∙ q)))
find_conflicts-finds (x ∷ xs) a b st s (inl p) (inr j) c h =
    find_conflicts-keeps xs (check_against x xs st)
      (check_against-finds x xs b st s.1 j (subst (λ y. Contradict y b) (sym p) c) h)
find_conflicts-finds (x ∷ xs) a b st s (inr i) (inl q) c h =
    find_conflicts-keeps xs (check_against x xs st)
      (check_against-finds x xs a st s.1 i (Contradict-sym a x (subst (Contradict a) (sym q) c)) h)
find_conflicts-finds (x ∷ xs) a b st s (inr i) (inr j) c h =
    find_conflicts-finds xs a b (check_against x xs st) s.1 i j c (check_against-Honest x xs st h)

-- A conflict that two segments of a list give rise to.
abbrev FromPair : (Segment → Type 0) → Conflict → Type 0
FromPair S c = (a : Segment) × (b : Segment) × S a × S b × Contradict a b × (c ≡ conflict_of a b)

module _ (S : Segment → Type 0) where
  abbrev AllFrom : Found → Type 0
  AllFrom st = (c : Conflict) → In c st.conflicts → FromPair S c

  check_pair-AllFrom :
      (a b : Segment) (st : Found) → S a → S b → AllFrom st → AllFrom (check_pair a b st)
  unfolding check_pair
  check_pair-AllFrom a b st sa sb h c = elim (Bool-cases (clashes a b)) [
    | inr e ↦ rw e (h c)
    | inl e ↦ elim (Bool-cases (exists (str_eq (conflict_key (conflict_of a b))) st.seen)) [
      | inl f ↦ rw (e, f) (h c)
      | inr f ↦
          rw (e, f)
            (λ i. elim (In-append_cases c st.conflicts (conflict_of a b ∷ []) i) [
              | inl l ↦ h c l
              | inr (inl p) ↦ (a, b, sa, sb, clashes-Contradict a b e, sym p)
              | inr (inr n) ↦ absurd n
            ])
    ]
  ]

  check_against-AllFrom :
      (a : Segment) (bs : List Segment) (st : Found)
      → S a
      → ((b : Segment) → In b bs → S b)
      → AllFrom st
      → AllFrom (check_against a bs st)
  unfolding check_against
  check_against-AllFrom a [] st sa sb h = h
  check_against-AllFrom a (b ∷ bs) st sa sb h = elim (Bool-cases (leb a.end b.start)) [
    | inl e ↦ rw e h
    | inr e ↦ rw e (
        check_against-AllFrom a bs (check_pair a b st) sa (λ x i. sb x (inr i))
          (check_pair-AllFrom a b st sa (sb b (inl refl)) h))
  ]

  pub find_conflicts-AllFrom :
      (xs : List Segment) (st : Found)
      → ((x : Segment) → In x xs → S x)
      → AllFrom st
      → AllFrom (find_conflicts xs st)
  unfolding find_conflicts
  find_conflicts-AllFrom [] st s h = h
  find_conflicts-AllFrom (x ∷ xs) st s h =
      find_conflicts-AllFrom xs (check_against x xs st) (λ y i. s y (inr i))
        (check_against-AllFrom x xs st (s x (inl refl)) (λ y i. s y (inr i)) h)
