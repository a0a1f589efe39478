-- ===== src/Policy/Tags.antt =====
-- The double loop over tags and policies, against a description with no loop state.
use lias_dis.Prelude.{
  String, ◌≡◌, refl, sym, subst, Bool, true, false, ◌&&◌, ◌||◌, Option, none, some, List, [], ◌∷◌,
  ◌++◌, arith, exists, if◌then◌else◌, Bool-cases, inl, inr, In, In-of_exists, exists_of_In,
}
use mathlib.Core.List.{append-nil, append_assoc}
use lias_dis.Models.{Action, Policy, is_allow, is_block, is_schedule, get_schedule_ids}
use lias_dis.Policy.{Scan, blocked, scanned, is_tag_policy, take_action, scan_policies, scan_tags}

abbrev pub tag_blocks : String → Policy → Bool
tag_blocks t p = is_tag_policy t p && is_block p.action

abbrev pub tag_allows : String → Policy → Bool
tag_allows t p = is_tag_policy t p && is_allow p.action

abbrev pub tag_schedules : String → Policy → Bool
tag_schedules t p = is_tag_policy t p && is_schedule p.action

-- The schedules that the policies of one tag name, and those of all tags.
unfoldable pub bundle : String → List Policy → List String
bundle t [] = []
bundle t (p ∷ ps) = (if tag_schedules t p then get_schedule_ids p else []) ++ bundle t ps

unfoldable pub bundles : List Policy → List String → List String
bundles ps [] = []
bundles ps (t ∷ ts) = bundle t ps ++ bundles ps ts

unfoldable pub first_blocked : List Policy → List String → Option String
first_blocked ps [] = none
first_blocked ps (t ∷ ts) = if exists (tag_blocks t) ps then some t else first_blocked ps ts

scan_policies-blocked :
    (t u : String) (ps : List Policy) → scan_policies t (blocked u) ps ≡ blocked u
unfolding scan_policies
scan_policies-blocked t u [] = refl
scan_policies-blocked t u (p ∷ ps) = scan_policies-blocked t u ps

scan_tags-blocked :
    (u : String) (ps : List Policy) (ts : List String) → scan_tags ps (blocked u) ts ≡ blocked u
unfolding scan_tags
scan_tags-blocked u ps [] = refl
scan_tags-blocked u ps (t ∷ ts) = rw scan_policies-blocked (scan_tags-blocked u ps ts)

-- One policy, as `visit` treats it.
act-eq :
    (t : String) (p : Policy) (b : Bool) (act : Action) (a : Bool) (ids : List String)
    → (if b then take_action t p act a ids else scanned a ids) ≡ (
        if b && is_block act
        then blocked t
        else scanned
            (a || (b && is_allow act))
            (ids ++ (if b && is_schedule act then get_schedule_ids p else [])))
act-eq t p false act true ids = simp append-nil
act-eq t p false act false ids = simp append-nil
act-eq t p true Action.allow true ids = simp append-nil
act-eq t p true Action.allow false ids = simp append-nil
act-eq t p true Action.block a ids = refl
act-eq t p true Action.schedule true ids = refl
act-eq t p true Action.schedule false ids = refl
act-eq t p true (Action.other x) true ids = simp append-nil
act-eq t p true (Action.other x) false ids = simp append-nil

or_step : (a x y : Bool) → a || x || y ≡ (a || (if x then true else y))
or_step true x y = refl
or_step false true y = refl
or_step false false y = refl

-- The loop over the policies for one tag.
scan_policies-eq :
    (t : String) (a : Bool) (ids : List String) (ps : List Policy)
    → scan_policies t (scanned a ids) ps ≡ (
        if exists (tag_blocks t) ps
        then blocked t
        else scanned (a || exists (tag_allows t) ps) (ids ++ bundle t ps))
unfolding scan_policies exists bundle
scan_policies-eq t true ids [] = simp append-nil
scan_policies-eq t false ids [] = simp append-nil
scan_policies-eq t a ids (p ∷ ps) =
    rw (act-eq t p (is_tag_policy t p) p.action a ids) (elim (Bool-cases (tag_blocks t p)) [
      | inl e ↦ rw e (scan_policies-blocked t t ps)
      | inr e ↦ rw (
        e,
        scan_policies-eq t (a || tag_allows t p)
            (ids ++ (if tag_schedules t p then get_schedule_ids p else [])) ps,
        or_step a (tag_allows t p) (exists (tag_allows t) ps),
        append_assoc ids (if tag_schedules t p then get_schedule_ids p else []) (bundle t ps),
      )
    ])

abbrev pub scan_result : Option String → Bool → List String → Scan
scan_result (some t) a ids = blocked t
scan_result none a ids = scanned a ids

scan_result-step :
    (x : Bool) (t : String) (o : Option String) (a : Bool) (ids : List String)
    → (if x then blocked t else scan_result o a ids) ≡ scan_result (if x then some t else o) a ids
scan_result-step true t o a ids = refl
scan_result-step false t o a ids = refl

-- The double loop stops at the first tag that an enabled policy blocks. If there is none, it has
-- seen whether some enabled policy allows some tag, and collected the schedules of the enabled
-- schedule policies, tag by tag.
pub scan_tags-eq :
    (ps : List Policy) (a : Bool) (ids : List String) (ts : List String)
    → scan_tags ps (scanned a ids) ts
      ≡ scan_result
          (first_blocked ps ts)
          (a || exists (λ t. exists (tag_allows t) ps) ts)
          (ids ++ bundles ps ts)
unfolding scan_tags first_blocked exists bundles
scan_tags-eq ps true ids [] = simp append-nil
scan_tags-eq ps false ids [] = simp append-nil
scan_tags-eq ps a ids (t ∷ ts) =
    rw (scan_policies-eq t a ids ps) (elim (Bool-cases (exists (tag_blocks t) ps)) [
      | inl e ↦ rw e (scan_tags-blocked t ps ts)
      | inr e ↦ rw (
        e,
        scan_tags-eq ps (a || exists (tag_allows t) ps) (ids ++ bundle t ps) ts,
        or_step a (exists (tag_allows t) ps) (exists (λ u. exists (tag_allows u) ps) ts),
        append_assoc ids (bundle t ps) (bundles ps ts),
      )
    ])

-- Some enabled policy blocks one of the tags.
abbrev pub Blocks : List Policy → List String → Type 0
Blocks ps ts = (t : String) × (p : Policy) × In t ts × In p ps × (tag_blocks t p ≡ true)

pub first_blocked-Blocks :
    (ps : List Policy) (ts : List String) {t : String} → first_blocked ps ts ≡ some t → Blocks ps ts
unfolding first_blocked
first_blocked-Blocks ps [] h = absurd (ground arith)
first_blocked-Blocks ps (t ∷ ts) h = elim (Bool-cases (exists (tag_blocks t) ps)) [
  | inl e ↦ let (p, m, b) = In-of_exists (tag_blocks t) ps e in (t, p, inl refl, m, b)
  | inr e ↦
      let (u, p, m, n, b) = first_blocked-Blocks ps ts (rw (e, first_blocked) at h) in
      (u, p, inr m, n, b)
]

pub Blocks-first_blocked :
    (ps : List Policy) (ts : List String)
    → Blocks ps ts
    → (t : String) × (first_blocked ps ts ≡ some t)
unfolding first_blocked
Blocks-first_blocked ps [] (u, p, m, n, b) = absurd m
Blocks-first_blocked ps (t ∷ ts) (u, p, m, n, b) = elim (Bool-cases (exists (tag_blocks t) ps)) [
  | inl e ↦ (t, rw e)
  | inr e ↦ elim m [
    | inl q ↦ absurd (
        ground (
          arith,
          e,
          exists_of_In (tag_blocks t) p ps n (subst (λ x. tag_blocks x p ≡ true) (sym q) b),
        ))
    | inr r ↦ let (v, h) = Blocks-first_blocked ps ts (u, p, r, n, b) in (v, rw e h)
  ]
]
