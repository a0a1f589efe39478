-- ===== src/Debounce/Sources.antt =====
-- What the pending changes of the debouncer keep of the sources that saw them.
use lias_dis.Prelude.{
  ℕ, String, ◌≡◌, refl, sym, ap, subst, ◌⊎◌, inl, inr, false, none, some, List, [], ◌∷◌, ◌++◌,
  arith, str_eq, eq_iff, Bool-cases, Option-cases, In, In-append_cases, All, exists,
}
use lias_dis.Prelude.Dict.{Dict, lookup, insert, erase}
use lias_dis.Debounce.{
  Debouncer, DeviceEventPayload, PendingChange, is_ready, required, add_key, add_group, count,
  confirm, counted, with_source, fresh, or_fresh, key_of, suppress, note_value, submit, migrate,
  sift,
}

-- No text stands twice in a list.
pub NoTwice : List String → Type 0
NoTwice [] = Unit
NoTwice (x ∷ xs) = (exists (λ j. str_eq j x) xs ≡ false) × NoTwice xs

exists-append :
    (k x : String) (ks : List String)
    → exists (λ j. str_eq j x) ks ≡ false
    → str_eq k x ≡ false
    → exists (λ j. str_eq j x) (ks ++ k ∷ []) ≡ false
unfolding exists
exists-append k x [] h e = rw e refl
exists-append k x (j ∷ ks) h e = ground (arith, exists-append k x ks, h, e)

NoTwice-append :
    (k : String) (ks : List String)
    → exists (λ j. str_eq j k) ks ≡ false
    → NoTwice ks
    → NoTwice (ks ++ k ∷ [])
unfolding NoTwice exists
NoTwice-append k [] h n = (refl, tt)
NoTwice-append k (x ∷ xs) h n = elim (Bool-cases (str_eq x k)) [
  | inl y ↦ absurd (ground (arith, h, y))
  | inr e ↦ (
    exists-append k x xs n.0 (ground (arith, e, eq_iff x k, eq_iff k x)),
    NoTwice-append k xs (ground (arith, h, e)) n.1,
  )
]

NoTwice-add_key : (k : String) (ks : List String) → NoTwice ks → NoTwice (add_key k ks)
unfolding add_key
NoTwice-add_key k ks n = elim (Bool-cases (exists (λ j. str_eq j k) ks)) [
  | inl y ↦ rw y n
  | inr e ↦ rw e (NoTwice-append k ks e n)
]

In-add_key : (k s : String) (ks : List String) → In k (add_key s ks) → (s ≡ k) ⊎ In k ks
unfolding add_key
In-add_key k s ks i = elim (Bool-cases (exists (λ j. str_eq j s) ks)) [
  | inl y ↦ inr (rw (add_key, y) at i)
  | inr n ↦ elim (In-append_cases k ks (s ∷ []) (rw (add_key, n) at i)) [
    | inl j ↦ inr j
    | inr (inl e) ↦ inl e
    | inr (inr z) ↦ absurd z
  ]
]

some-eq : {a b : PendingChange} → some a ≡ some b → a ≡ b
some-eq e = cc

module _ (S G : String → Type 0) where
  -- A pending change waits for the confirmations that its type requires, and has as many as it has
  -- different groups or, without groups, different sources. What `S` and `G` say holds of these.
  pub record IsCounted (p : PendingChange) : Type 0 where
    pub groups : List String
    pub has_groups : p.source_groups ≡ some groups
    pub right_required : p.required_confirmations ≡ required p.event_type
    pub right_count : p.confirmations ≡ count (some groups) p.sources
    pub different : NoTwice groups × NoTwice p.sources
    pub seen_by : (k : String) → In k p.sources → S k
    pub seen_in : (k : String) → In k groups → G k

  fresh-IsCounted :
      (now : ℕ) (pdid event_type : String) (payload : DeviceEventPayload)
      → IsCounted (fresh now pdid event_type payload)
  unfolding fresh NoTwice
  fresh-IsCounted now pdid event_type payload = record {
    groups = [];
    has_groups = refl;
    right_required = refl;
    right_count = refl;
    different = (tt, tt);
    seen_by = λ k i. absurd i;
    seen_in = λ k i. absurd i;
  }

  -- A confirmation never fails on a counted change.
  confirm-IsCounted :
      (now : ℕ) (source group : String) (p : PendingChange)
      → S source
      → G group
      → IsCounted p
      → (q : PendingChange) × (confirm now source group p ≡ some q) × IsCounted q
  unfolding confirm add_group
  confirm-IsCounted now source group p said_s said_g v = elim (Bool-cases (str_eq group "")) [
    | inl y ↦ (
      counted (with_source source (record p { last_seen = now })) p.source_groups,
      rw (y, confirm, add_group) refl,
      record {
        groups = v.groups;
        has_groups = v.has_groups;
        right_required = v.right_required;
        right_count = ap (λ g. count g (add_key source p.sources)) v.has_groups;
        different = (v.different.0, NoTwice-add_key source p.sources v.different.1);
        seen_by = λ k i. elim (In-add_key k source p.sources i) [
          | inl e ↦ subst S e said_s
          | inr j ↦ v.seen_by k j
        ];
        seen_in = v.seen_in;
      },
    )
    | inr n ↦ (
      counted (with_source source (record p { last_seen = now })) (some (add_key group v.groups)),
      rw (n, confirm, add_group, v.has_groups) refl,
      record {
        groups = add_key group v.groups;
        has_groups = refl;
        right_required = v.right_required;
        right_count = refl;
        different = (
          NoTwice-add_key group v.groups v.different.0,
          NoTwice-add_key source p.sources v.different.1,
        );
        seen_by = λ k i. elim (In-add_key k source p.sources i) [
          | inl e ↦ subst S e said_s
          | inr j ↦ v.seen_by k j
        ];
        seen_in = λ k i. elim (In-add_key k group v.groups i) [
          | inl e ↦ subst G e said_g
          | inr j ↦ v.seen_in k j
        ];
      },
    )
  ]

  abbrev pub AllCounted : Dict PendingChange → Type 0
  AllCounted m = All (λ (e : String × PendingChange). IsCounted e.1) m

  AllCounted-insert :
      (k : String) (p : PendingChange) (m : Dict PendingChange)
      → IsCounted p
      → AllCounted m
      → AllCounted (insert k p m)
  unfolding insert
  AllCounted-insert k p [] v a = (v, tt)
  AllCounted-insert k p ((j, q) ∷ m) v (w, a) = elim (Bool-cases (str_eq j k)) [
    | inl y ↦ rw y (v, a)
    | inr n ↦ rw n (w, AllCounted-insert k p m v a)
  ]

  AllCounted-erase : (k : String) (m : Dict PendingChange) → AllCounted m → AllCounted (erase k m)
  unfolding erase
  AllCounted-erase k [] a = tt
  AllCounted-erase k ((j, q) ∷ m) (w, a) = elim (Bool-cases (str_eq j k)) [
    | inl y ↦ rw y (AllCounted-erase k m a)
    | inr n ↦ rw n (w, AllCounted-erase k m a)
  ]

  AllCounted-lookup :
      (k : String) (m : Dict PendingChange) (p : PendingChange)
      → AllCounted m
      → lookup k m ≡ some p
      → IsCounted p
  unfolding lookup
  AllCounted-lookup k [] p a e = cc
  AllCounted-lookup k ((j, q) ∷ m) p (w, a) e = elim (Bool-cases (str_eq j k)) [
    | inl y ↦ subst IsCounted (some-eq (rw (y, lookup) at e)) w
    | inr n ↦ AllCounted-lookup k m p a (rw (n, lookup) at e)
  ]

  pub AllCounted-In :
      (k : String) (p : PendingChange) (m : Dict PendingChange)
      → AllCounted m
      → In (k, p) m
      → IsCounted p
  AllCounted-In k p [] a i = absurd i
  AllCounted-In k p ((j, q) ∷ m) (w, a) (inl e) =
      subst (λ (t : String × PendingChange). IsCounted t.1) e w
  AllCounted-In k p ((j, q) ∷ m) (w, a) (inr i) = AllCounted-In k p m a i

  pub AllCounted-sift :
      (now : ℕ) (m : Dict PendingChange) → AllCounted m → AllCounted (sift now m).0
  unfolding sift
  AllCounted-sift now [] a = tt
  AllCounted-sift now ((k, p) ∷ m) (w, a) = elim (Bool-cases (is_ready now p)) [
    | inl y ↦ rw y (AllCounted-sift now m a)
    | inr n ↦ rw n (w, AllCounted-sift now m a)
  ]

  pub AllCounted-migrate :
      (old new : String) (l m : Dict PendingChange)
      → AllCounted l
      → AllCounted m
      → AllCounted (migrate old new l m)
  unfolding migrate
  AllCounted-migrate old new [] m b a = a
  AllCounted-migrate old new ((k, p) ∷ l) m (w, b) a = elim (Bool-cases (str_eq p.pdid old)) [
    | inr n ↦ rw n (AllCounted-migrate old new l m b a)
    | inl y ↦ rw y (
        AllCounted-migrate old new l _ b (
          AllCounted-erase k _ (
            AllCounted-insert (key_of new p.event_type) (record p { pdid = new }) m
              (record {
                groups = w.groups;
                has_groups = w.has_groups;
                right_required = w.right_required;
                right_count = w.right_count;
                different = w.different;
                seen_by = w.seen_by;
                seen_in = w.seen_in;
              })
              a)))
  ]

  -- The switch of `Submit` leaves the pending changes alone.
  suppress-pending :
      (now : ℕ) (pdid event_type : String) (payload : DeviceEventPayload) (d d' : Debouncer)
      → suppress now pdid event_type payload d ≡ some d'
      → d'.pending ≡ d.pending
  unfolding suppress note_value
  suppress-pending now pdid event_type payload d d' h = grind arith

  pub submit-AllCounted :
      (now : ℕ) (pdid event_type source group : String) (payload : DeviceEventPayload)
      (d : Debouncer)
      → S source
      → G group
      → AllCounted d.pending
      → (d' : Debouncer) × (submit now pdid event_type source group payload d ≡ some d')
        × AllCounted d'.pending
  unfolding submit
  submit-AllCounted now pdid event_type source group payload d said_s said_g a =
      let key = key_of pdid event_type in
      elim (Option-cases (suppress now pdid event_type payload d)) [
        | inl z ↦ (
          record d { pending = erase key d.pending },
          rw (z, submit) refl,
          AllCounted-erase key d.pending a,
        )
        | inr (e, z) ↦
            let b : AllCounted e.pending =
              subst AllCounted (sym (suppress-pending now pdid event_type payload d e z)) a in
            let (q, x, v) =
              confirm-IsCounted now source group _ said_s said_g
                (known e b (Option-cases (lookup key e.pending))) in
            (
              record e { pending = insert key q e.pending },
              rw (z, submit, x) refl,
              AllCounted-insert key q e.pending v b,
            )
      ]
    where
      known :
          (e : Debouncer)
          → AllCounted e.pending
          → (lookup (key_of pdid event_type) e.pending ≡ none)
            ⊎ ((p : PendingChange) × (lookup (key_of pdid event_type) e.pending ≡ some p))
          → IsCounted (
              or_fresh
                (fresh now pdid event_type payload)
                (lookup (key_of pdid event_type) e.pending))
      known e b (inl w) = rw w (fresh-IsCounted now pdid event_type payload)
      known e b (inr (p, w)) = rw w (AllCounted-lookup (key_of pdid event_type) e.pending p b w)
