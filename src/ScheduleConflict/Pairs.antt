-- ===== src/ScheduleConflict/Pairs.antt =====
-- The sorted double loop that looks for conflicts.
use lias_dis.Prelude.{
  ℕ, ◌≤◌, ◌<◌, ◌≡◌, ◌≢◌, ◌↔◌, refl, sym, ap, ◌⊎◌, inl, inr, true, List, [], ◌∷◌, arith, str_eq,
  eq_iff, Bool-cases, In,
}
use lias_dis.Models.{Action}
use lias_dis.ScheduleConflict.{Segment, precedes, insert_sorted, sort_segments, action_eq, clashes}

-- Two segments with different actions, of different schedules or rules, share a minute.
pub record Contradict (a b : Segment) : Type 0 where
  pub starts_before : a.start < b.end
  pub ends_after : b.start < a.end
  pub both_real : (a.start < a.end) × (b.start < b.end)
  pub actions_differ : a.action ≢ b.action
  pub sources_differ : (a.schedule_id ≢ b.schedule_id) ⊎ (a.source_rule_idx ≢ b.source_rule_idx)

pub action_eq_iff : (a b : Action) → (action_eq a b ≡ true) ↔ (a ≡ b)
unfolding action_eq
action_eq_iff Action.allow Action.allow = (λ h. refl, λ h. refl)
action_eq_iff Action.allow Action.block = (λ h. cc, λ h. cc)
action_eq_iff Action.allow Action.schedule = (λ h. cc, λ h. cc)
action_eq_iff Action.allow (Action.other y) = (λ h. cc, λ h. cc)
action_eq_iff Action.block Action.allow = (λ h. cc, λ h. cc)
action_eq_iff Action.block Action.block = (λ h. refl, λ h. refl)
action_eq_iff Action.block Action.schedule = (λ h. cc, λ h. cc)
action_eq_iff Action.block (Action.other y) = (λ h. cc, λ h. cc)
action_eq_iff Action.schedule Action.allow = (λ h. cc, λ h. cc)
action_eq_iff Action.schedule Action.block = (λ h. cc, λ h. cc)
action_eq_iff Action.schedule Action.schedule = (λ h. refl, λ h. refl)
action_eq_iff Action.schedule (Action.other y) = (λ h. cc, λ h. cc)
action_eq_iff (Action.other x) Action.allow = (λ h. cc, λ h. cc)
action_eq_iff (Action.other x) Action.block = (λ h. cc, λ h. cc)
action_eq_iff (Action.other x) Action.schedule = (λ h. cc, λ h. cc)
action_eq_iff (Action.other x) (Action.other y) =
    (λ h. ap Action.other ((eq_iff x y).0 h), λ h. (eq_iff x y).1 (cc))

pub clashes-Contradict : (a b : Segment) → clashes a b ≡ true → Contradict a b
clashes-Contradict a b h = record {
  starts_before = ground arith;
  ends_after = ground arith;
  both_real = (ground arith, ground arith);
  actions_differ = λ e. ground (arith, (action_eq_iff a.action b.action).1 e);
  sources_differ = elim (Bool-cases (str_eq a.schedule_id b.schedule_id)) [
    | inl x ↦ inr (λ e. ground (arith, x))
    | inr x ↦ inl (λ e. ground (arith, x, (eq_iff a.schedule_id b.schedule_id).1 e))
  ];
}

pub Contradict-clashes : (a b : Segment) → Contradict a b → clashes a b ≡ true
Contradict-clashes a b c =
    ground (arith, (action_eq_iff a.action b.action).0, (eq_iff a.schedule_id b.schedule_id).0)

pub Contradict-sym : (a b : Segment) → Contradict a b → Contradict b a
Contradict-sym a b c = record {
  starts_before = c.ends_after;
  ends_after = c.starts_before;
  both_real = (c.both_real.1, c.both_real.0);
  actions_differ = λ e. c.actions_differ (sym e);
  sources_differ = elim c.sources_differ [
    | inl x ↦ inl (λ e. x (sym e))
    | inr x ↦ inr (λ e. x (sym e))
  ];
}

-- Sorting keeps the segments and orders them by their start.
In-insert_sorted :
    (x a : Segment) (bs : List Segment) → In x (insert_sorted a bs) ↔ ((a ≡ x) ⊎ In x bs)
unfolding insert_sorted
In-insert_sorted x a [] = (λ h. h, λ h. h)
In-insert_sorted x a (b ∷ bs) =
    let (to, from) = In-insert_sorted x a bs in
    elim (Bool-cases (precedes b a)) [
      | inl e ↦
          rw (e, insert_sorted)
            (
              λ h. elim h [
                | inl p ↦ inr (inl p)
                | inr q ↦ elim (to q) [ inl p ↦ inl p | inr r ↦ inr (inr r) ]
              ],
              λ h. elim h [
                | inl p ↦ inr (from (inl p))
                | inr (inl p) ↦ inl p
                | inr (inr r) ↦ inr (from (inr r))
              ],
            )
      | inr e ↦ rw (e, insert_sorted) (λ h. h, λ h. h)
    ]

pub In-sort_segments : (x : Segment) (as' : List Segment) → In x (sort_segments as') ↔ In x as'
unfolding sort_segments
In-sort_segments x [] = (λ h. h, λ h. h)
In-sort_segments x (a ∷ rest) =
    let (to, from) = In-sort_segments x rest in
    let (into, back) = In-insert_sorted x a (sort_segments rest) in
    (
      λ h. elim (into h) [ inl p ↦ inl p | inr q ↦ inr (to q) ],
      λ h. back (elim h [ inl p ↦ inl p | inr q ↦ inr (from q) ]),
    )

-- Each segment starts no later than those behind it.
abbrev pub StartsBefore : ℕ → List Segment → Type 0
StartsBefore n [] = Unit
StartsBefore n (b ∷ bs) = (n ≤ b.start) × StartsBefore n bs

abbrev pub IsSorted : List Segment → Type 0
IsSorted [] = Unit
IsSorted (a ∷ rest) = StartsBefore a.start rest × IsSorted rest

StartsBefore-insert :
    (n : ℕ) (a : Segment) (bs : List Segment)
    → n ≤ a.start
    → StartsBefore n bs
    → StartsBefore n (insert_sorted a bs)
unfolding insert_sorted
StartsBefore-insert n a [] h k = (h, tt)
StartsBefore-insert n a (b ∷ bs) h k = ground (arith, StartsBefore-insert n a bs h k.1)

StartsBefore-le : (n k : ℕ) (bs : List Segment) → n ≤ k → StartsBefore k bs → StartsBefore n bs
StartsBefore-le n k [] h s = tt
StartsBefore-le n k (b ∷ bs) h s = (omega arith, StartsBefore-le n k bs h s.1)

insert_sorted-IsSorted :
    (a : Segment) (bs : List Segment) → IsSorted bs → IsSorted (insert_sorted a bs)
unfolding insert_sorted
insert_sorted-IsSorted a [] s = (tt, tt)
insert_sorted-IsSorted a (b ∷ bs) s = elim (Bool-cases (precedes b a)) [
  | inl e ↦
      rw (e, insert_sorted)
        (StartsBefore-insert b.start a bs (ground (arith, e)) s.0, insert_sorted-IsSorted a bs s.1)
  | inr e ↦
      let le : a.start ≤ b.start = ground (arith, e) in
      rw (e, insert_sorted) ((le, StartsBefore-le a.start b.start bs le s.0), s)
]

pub sort_segments-IsSorted : (xs : List Segment) → IsSorted (sort_segments xs)
unfolding sort_segments
sort_segments-IsSorted [] = tt
sort_segments-IsSorted (a ∷ rest) =
    insert_sorted-IsSorted a (sort_segments rest) (sort_segments-IsSorted rest)
