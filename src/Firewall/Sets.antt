-- ===== src/Firewall/Sets.antt =====
-- What a commit of `Sync` leaves in the sets of the kernel.
use lias_dis.Prelude.{
  String, ◌≡◌, refl, sym, subst, ◌∙◌, ◌⊎◌, inl, inr, ◌↔◌, true, false, not, some, List, [], ◌∷◌,
  arith, In, Bool-cases, Option-cases, In-select, In-select_intro,
}
use lias_dis.LocalDevice.{LocalDevice}
use lias_dis.Policy.{Engine, Evaluator}
use lias_dis.Firewall.{
  SetName, allowed_ips, blocked_ips, allowed_macs, blocked_macs, allowed_ips_v6, blocked_ips_v6,
  has, Parsers, desired, SetDiff, missing, diff_sets, is_nil, no_entry, is_unchanged, State, Flush,
  Rebuild, queued, sync, empty_sets, reset_state,
}
use lias_dis.Firewall
use lias_dis.Firewall.Enlisted.{has-In, In-has}

-- Two families of sets with the same entries.
abbrev pub SameEntries : Firewall.Sets → Firewall.Sets → Type 0
SameEntries a b = (n : SetName) (x : String) → In x (a n) ↔ In x (b n)

-- What is documented of a transaction: when it is committed, the entries that were there and are not
-- removed, and those that are added, are in the kernel.
abbrev pub Commits : Flush → Type 0
Commits flush =
    (diff : SetDiff) (k k' : Firewall.Sets)
    → flush diff k ≡ some k'
    → (n : SetName) (x : String)
    → In x (k' n) ↔ ((In x (k n) × ¬ In x (diff.to_rem n)) ⊎ In x (diff.to_add n))

-- The controller holds every set.
abbrev pub HoldsAll : State → Type 0
HoldsAll s = (n : SetName) → s.held n ≡ true

-- A commit of what is queued is one of the whole diff.
through :
    (flush : Flush) (s : State) (diff : SetDiff) (k : Firewall.Sets)
    → Commits flush
    → HoldsAll s
    → flush (queued s.held diff) s.kernel ≡ some k
    → (n : SetName) (x : String)
    → In x (k n) ↔ ((In x (s.kernel n) × ¬ In x (diff.to_rem n)) ⊎ In x (diff.to_add n))
through flush s diff k commits all f n x =
    let c = commits (queued s.held diff) s.kernel k f n x in rw (all n) at c

absent :
    (x : String) (from s : Firewall.Sets) (n : SetName)
    → In x (missing from s n) ↔ (In x (from n) × ¬ In x (s n))
absent x from s n = (
  λ i.
      let (o, t) = In-select (λ x. not (has x (s n))) x (from n) i in
      (o, λ k. let f : not true ≡ true = subst (λ b. not b ≡ true) (In-has x (s n) k) t in cc),
  λ p. In-select_intro (λ x. not (has x (s n))) x (from n) p.0 (no_hit p.1),
)
  where
    no_hit : ¬ In x (s n) → not (has x (s n)) ≡ true
    no_hit h = elim (Bool-cases (has x (s n))) [
      | inl e ↦ absurd (h (has-In x (s n) e))
      | inr e ↦ rw e refl
    ]

nil-empty : (xs : List String) (x : String) → is_nil xs ≡ true → In x xs → ⊥
nil-empty [] x h i = i
nil-empty (y ∷ ys) x h i = cc

no_entry-empty : (s : Firewall.Sets) (n : SetName) (x : String) → no_entry s ≡ true → In x (s n) → ⊥
no_entry-empty s allowed_ips x h = nil-empty (s allowed_ips) x (ground (arith, h))
no_entry-empty s blocked_ips x h = nil-empty (s blocked_ips) x (ground (arith, h))
no_entry-empty s allowed_macs x h = nil-empty (s allowed_macs) x (ground (arith, h))
no_entry-empty s blocked_macs x h = nil-empty (s blocked_macs) x (ground (arith, h))
no_entry-empty s allowed_ips_v6 x h = nil-empty (s allowed_ips_v6) x (ground (arith, h))
no_entry-empty s blocked_ips_v6 x h = nil-empty (s blocked_ips_v6) x (ground (arith, h))

-- Membership is decided.
In-dec : (x : String) (xs : List String) → In x xs ⊎ (¬ In x xs)
In-dec x xs = elim (Bool-cases (has x xs)) [
  | inl e ↦ inl (has-In x xs e)
  | inr e ↦ inr (λ i. let f : true ≡ false = sym (In-has x xs i) ∙ e in cc)
]

-- Where the controller holds every set and the builder knows those of the kernel, a sync with no error leaves in the kernel just the
-- entries that are wanted, and the builder knows them.
pub sync-SameEntries :
    (parsers : Parsers) (flush : Flush) (rebuild : Rebuild) (e : Engine) (ev : Evaluator)
    (ds : List LocalDevice) (s : State)
    → Commits flush
    → HoldsAll s
    → SameEntries s.kernel s.current
    → (sync parsers flush rebuild e ev ds s).0 ≡ true
    → SameEntries
        (sync parsers flush rebuild e ev ds s).1.kernel
        (desired parsers e ev ds empty_sets)
      × SameEntries
          (sync parsers flush rebuild e ev ds s).1.kernel
          (sync parsers flush rebuild e ev ds s).1.current
unfolding sync diff_sets is_unchanged
sync-SameEntries parsers flush rebuild e ev ds s commits all known ok =
    elim (Bool-cases (is_unchanged (diff_sets wanted s.current))) [
      | inl u ↦ rw (sync, u) (λ n x. unchanged n x u, known)
      | inr u ↦ elim (Option-cases (flush (queued s.held (diff_sets wanted s.current)) s.kernel)) [
        | inl f ↦ absurd (let q : false ≡ true = rw (sync, u, f) at ok in cc)
        | inr (k, f) ↦ rw (sync, u, f) (λ n x. committed k n x f, λ n x. committed k n x f)
      ]
    ]
  where
    wanted : Firewall.Sets
    wanted = desired parsers e ev ds empty_sets

    unchanged :
        (n : SetName) (x : String)
        → is_unchanged (diff_sets wanted s.current) ≡ true
        → In x (s.kernel n) ↔ In x (wanted n)
    unchanged n x u = (
      λ i. elim (In-dec x (wanted n)) [
        | inl o ↦ o
        | inr o ↦ absurd (
            no_entry-empty (missing s.current wanted) n x (ground (arith, u))
              ((absent x s.current wanted n).1 ((known n x).0 i, o)))
      ],
      λ i. elim (In-dec x (s.current n)) [
        | inl o ↦ (known n x).1 o
        | inr o ↦ absurd (
            no_entry-empty (missing wanted s.current) n x (ground (arith, u))
              ((absent x wanted s.current n).1 (i, o)))
      ],
    )

    committed :
        (k : Firewall.Sets) (n : SetName) (x : String)
        → flush (queued s.held (diff_sets wanted s.current)) s.kernel ≡ some k
        → In x (k n) ↔ In x (wanted n)
    committed k n x f = (
      λ i. elim ((through flush s (diff_sets wanted s.current) k commits all f n x).0 i) [
        | inl (o, r) ↦ elim (In-dec x (wanted n)) [
          | inl w ↦ w
          | inr w ↦ absurd (r ((absent x s.current wanted n).1 ((known n x).0 o, w)))
        ]
        | inr a ↦ ((absent x wanted s.current n).0 a).0
      ],
      λ i.
          (through flush s (diff_sets wanted s.current) k commits all f n x).1
            (elim (In-dec x (s.current n)) [
              | inl o ↦ inl ((known n x).1 o, λ r. ((absent x s.current wanted n).0 r).1 i)
              | inr o ↦ inr ((absent x wanted s.current n).1 (i, o))
            ]),
    )

-- After the builder has forgotten its sets, as it does on demand and when a commit fails, and while
-- the controller holds every set, a sync
-- with no error removes nothing: every entry that the kernel held is still there, wanted or not,
-- with those that are wanted.
pub sync-reset_state :
    (parsers : Parsers) (flush : Flush) (rebuild : Rebuild) (e : Engine) (ev : Evaluator)
    (ds : List LocalDevice) (s : State)
    → Commits flush
    → HoldsAll s
    → (sync parsers flush rebuild e ev ds (reset_state s)).0 ≡ true
    → (n : SetName) (x : String) → In x (s.kernel n) ⊎ In x (desired parsers e ev ds empty_sets n)
    → In x ((sync parsers flush rebuild e ev ds (reset_state s)).1.kernel n)
unfolding sync diff_sets reset_state is_unchanged
sync-reset_state parsers flush rebuild e ev ds s commits all ok n x i =
    elim (Bool-cases (is_unchanged (diff_sets wanted empty_sets))) [
      | inl u ↦
          rw (sync, u)
            (elim i [
              | inl o ↦ o
              | inr w ↦ absurd (
                  no_entry-empty (missing wanted empty_sets) n x (ground (arith, u))
                    ((absent x wanted empty_sets n).1 (w, λ z. z)))
            ])
      | inr u ↦ elim (Option-cases (flush (queued s.held (diff_sets wanted empty_sets)) s.kernel)) [
        | inl f ↦ absurd (let q : false ≡ true = rw (sync, u, f) at ok in cc)
        | inr (k, f) ↦
            rw (sync, u, f)
              ((through flush s (diff_sets wanted empty_sets) k commits all f n x).1 (elim i [
                | inl o ↦ inl (o, λ r. ((absent x empty_sets wanted n).0 r).0)
                | inr w ↦ inr ((absent x wanted empty_sets n).1 (w, λ z. z))
              ]))
      ]
    ]
  where
    wanted : Firewall.Sets
    wanted = desired parsers e ev ds empty_sets
