-- ===== src/IdentityMigration/Moved.antt =====
-- What the statements of a migration do to the tags, the name and the user of a device.
use lias_dis.Prelude.{
  String, ◌≡◌, refl, sym, ap, subst, ◌∙◌, ◌⊎◌, inl, inr, ◌↔◌, true, false, not, ◌&&◌, none, some,
  List, [], ◌∷◌, ◌++◌, arith, Bool-cases, Option-cases, str_eq, eq_iff, eq_refl, select, In,
  In-append_cases, In-append_left, In-append_right, exists, if◌then◌else◌,
}
use mathlib.Core.List.{append-nil}
use lias_dis.Prelude.Dict.{
  Dict, lookup, insert, erase, lookup-insert, lookup-erase, lookup-erase_self, lookup-insert_self,
}
use lias_dis.IdentityMigration.{
  TagRow, has_tag, copy_tags, move_tags, merged_value, move_value, tags_of,
}

tags_of-append :
    (k : String) (xs ys : List TagRow) → tags_of k (xs ++ ys) ≡ tags_of k xs ++ tags_of k ys
unfolding tags_of
tags_of-append k [] ys = refl
tags_of-append k (r ∷ xs) ys = elim (Bool-cases (str_eq r.pdid k)) [
  | inl y ↦ rw y (ap (λ z. r.tag_id ∷ z) (tags_of-append k xs ys))
  | inr n ↦ rw n (tags_of-append k xs ys)
]

-- The rows that are not of the old device keep their tags.
tags_of-select_other :
    (old k : String) (rs : List TagRow)
    → str_eq old k ≡ false
    → tags_of k (select (λ (r : TagRow). not (str_eq r.pdid old)) rs) ≡ tags_of k rs
unfolding tags_of select
tags_of-select_other old k [] n = refl
tags_of-select_other old k (r ∷ rs) n = elim (Bool-cases (str_eq r.pdid old)) [
  | inl x ↦
      let e : str_eq r.pdid k ≡ false = ground (arith, n, eq_iff r.pdid old, x) in
      rw (x, e) (tags_of-select_other old k rs n)
  | inr x ↦ elim (Bool-cases (str_eq r.pdid k)) [
    | inl y ↦ rw (x, tags_of, y) (ap (λ z. r.tag_id ∷ z) (tags_of-select_other old k rs n))
    | inr y ↦ rw (x, tags_of, y) (tags_of-select_other old k rs n)
  ]
]

has_tag-In : (k tag : String) (rs : List TagRow) → has_tag k tag rs ≡ true → In tag (tags_of k rs)
unfolding tags_of exists
has_tag-In k tag [] h = absurd (cc)
has_tag-In k tag (r ∷ rs) h = elim (Bool-cases (str_eq r.pdid k)) [
  | inr n ↦ rw n (has_tag-In k tag rs (ground (arith, h, n)))
  | inl y ↦ rw y (elim (Bool-cases (str_eq r.tag_id tag)) [
    | inl e ↦ inl ((eq_iff r.tag_id tag).0 e)
    | inr e ↦ inr (has_tag-In k tag rs (ground (arith, h, e)))
  ])
]

-- One row of the copy: the tag is added to those of the new device.
abbrev step_rows : String → String → TagRow → List TagRow → List TagRow
step_rows old new r rows =
    if str_eq r.pdid old && not (has_tag new r.tag_id rows)
    then rows ++ record r { pdid = new } ∷ []
    else rows

step_rows-new :
    (old new x : String) (r : TagRow) (rows : List TagRow)
    → In x (tags_of new (step_rows old new r rows))
      ↔ (((str_eq r.pdid old ≡ true) × (r.tag_id ≡ x)) ⊎ In x (tags_of new rows))
unfolding tags_of
step_rows-new old new x r rows = elim (Bool-cases (str_eq r.pdid old)) [
  | inr n ↦ rw n (λ i. inr i, λ i. elim i [ inl (e, q) ↦ absurd (cc) | inr j ↦ j ])
  | inl y ↦ elim (Bool-cases (has_tag new r.tag_id rows)) [
    | inl h ↦
        rw (y, h)
          (
            λ i. inr i,
            λ i. elim i [
              | inl (e, q) ↦ subst (λ z. In z (tags_of new rows)) q (has_tag-In new r.tag_id rows h)
              | inr j ↦ j
            ],
          )
    | inr h ↦
        rw (y, h, tags_of-append new rows (record r { pdid = new } ∷ []), eq_refl new)
          (
            λ i. elim (In-append_cases x (tags_of new rows) (r.tag_id ∷ []) i) [
              | inl j ↦ inr j
              | inr (inl q) ↦ inl (refl, q)
              | inr (inr z) ↦ absurd z
            ],
            λ i. elim i [
              | inl (e, q) ↦ In-append_right x (tags_of new rows) (r.tag_id ∷ []) (inl q)
              | inr j ↦ In-append_left x (tags_of new rows) (r.tag_id ∷ []) j
            ],
          )
  ]
]

tags_of-cons :
    (k x : String) (r : TagRow) (rs : List TagRow)
    → In x (tags_of k (r ∷ rs))
      ↔ (((str_eq r.pdid k ≡ true) × (r.tag_id ≡ x)) ⊎ In x (tags_of k rs))
unfolding tags_of
tags_of-cons k x r rs = elim (Bool-cases (str_eq r.pdid k)) [
  | inl y ↦ rw y (
    λ i. elim i [ inl q ↦ inl (refl, q) | inr j ↦ inr j ],
    λ i. elim i [ inl (e, q) ↦ inl q | inr j ↦ inr j ],
  )
  | inr n ↦ rw n (λ i. inr i, λ i. elim i [ inl (e, q) ↦ absurd (cc) | inr j ↦ j ])
]

copy_tags-new :
    (old new x : String) (rs rows : List TagRow)
    → In x (tags_of new (copy_tags old new rs rows))
      ↔ (In x (tags_of old rs) ⊎ In x (tags_of new rows))
unfolding copy_tags tags_of
copy_tags-new old new x [] rows = (λ i. inr i, λ i. elim i [ inl z ↦ absurd z | inr j ↦ j ])
copy_tags-new old new x (r ∷ rs) rows =
    let (to, from) = copy_tags-new old new x rs (step_rows old new r rows) in
    let (one, back) = step_rows-new old new x r rows in
    let (split, join) = tags_of-cons old x r rs in
    (
      λ i. elim (to i) [
        | inl j ↦ inl (join (inr j))
        | inr j ↦ elim (one j) [ inl q ↦ inl (join (inl q)) | inr k ↦ inr k ]
      ],
      λ i. from (elim i [
        | inl j ↦ elim (split j) [ inl q ↦ inr (back (inl q)) | inr k ↦ inl k ]
        | inr k ↦ inr (back (inr k))
      ]),
    )

step_rows-other :
    (old new k : String) (r : TagRow) (rows : List TagRow)
    → str_eq new k ≡ false
    → tags_of k (step_rows old new r rows) ≡ tags_of k rows
unfolding tags_of
step_rows-other old new k r rows n =
    elim (Bool-cases (str_eq r.pdid old && not (has_tag new r.tag_id rows))) [
      | inr y ↦ rw y refl
      | inl y ↦
          rw (y, tags_of-append k rows (record r { pdid = new } ∷ []), n)
            (append-nil (tags_of k rows))
    ]

copy_tags-other :
    (old new k : String) (rs rows : List TagRow)
    → str_eq new k ≡ false
    → tags_of k (copy_tags old new rs rows) ≡ tags_of k rows
unfolding copy_tags
copy_tags-other old new k [] rows n = refl
copy_tags-other old new k (r ∷ rs) rows n =
    copy_tags-other old new k rs (step_rows old new r rows) n ∙ step_rows-other old new k r rows n

tags_of-gone :
    (old : String) (rs : List TagRow)
    → tags_of old (select (λ (r : TagRow). not (str_eq r.pdid old)) rs) ≡ []
unfolding tags_of select
tags_of-gone old [] = refl
tags_of-gone old (r ∷ rs) = elim (Bool-cases (str_eq r.pdid old)) [
  | inl x ↦ rw x (tags_of-gone old rs)
  | inr x ↦ rw (x, tags_of, x) (tags_of-gone old rs)
]

-- The new device has the tags of both, the old one none, and all others theirs.
pub record TagsMoved (old new : String) (before after : List TagRow) : Type 0 where
  pub none_left : tags_of old after ≡ []
  pub both :
      (x : String)
      → In x (tags_of new after) ↔ (In x (tags_of old before) ⊎ In x (tags_of new before))
  pub others :
      (k : String)
      → str_eq old k ≡ false
      → str_eq new k ≡ false
      → tags_of k after ≡ tags_of k before

pub move_tags-TagsMoved :
    (old new : String) (rows : List TagRow)
    → str_eq old new ≡ false
    → TagsMoved old new rows (move_tags old new rows)
unfolding move_tags
move_tags-TagsMoved old new rows n = record {
  none_left = tags_of-gone old (copy_tags old new rows rows);
  both = λ x.
      rw (tags_of-select_other old new (copy_tags old new rows rows) n)
        (copy_tags-new old new x rows rows);
  others = λ k a b.
      tags_of-select_other old k (copy_tags old new rows rows) a
      ∙ copy_tags-other old new k rows rows b;
}

-- The new device keeps its own value, unless it has none or an empty one: then it takes that of the
-- old device. The old device has none left, and all others keep theirs.
pub record ValueMoved (old new : String) (before after : Dict String) : Type 0 where
  pub none_left : lookup old after ≡ none
  pub kept :
      (u : String) → lookup new before ≡ some u → str_eq u "" ≡ false → lookup new after ≡ some u
  pub taken :
      (v : String)
      → lookup old before ≡ some v
      → (lookup new before ≡ none) ⊎ (lookup new before ≡ some "")
      → lookup new after ≡ some v
  pub others :
      (k : String) → str_eq old k ≡ false → str_eq new k ≡ false → lookup k after ≡ lookup k before

pub move_value-ValueMoved :
    (old new : String) (m : Dict String)
    → str_eq old new ≡ false
    → ValueMoved old new m (move_value old new m)
unfolding move_value
move_value-ValueMoved old new m n = elim (Option-cases (lookup old m)) [
  | inl x ↦
      rw (move_value, x)
        (record {
          none_left = x;
          kept = λ u e z. e;
          taken = λ v e z. absurd (let q : none ≡ some v = sym x ∙ e in cc);
          others = λ k a b. refl;
        })
  | inr (v, x) ↦
      let to : Dict String = insert new (merged_value v (lookup new m)) m in
      let stays : lookup new (erase old to) ≡ some (merged_value v (lookup new m)) =
        lookup-erase old new to ∙ rw n (lookup-insert_self new (merged_value v (lookup new m)) m) in
      rw (move_value, x)
        (record {
          none_left = lookup-erase_self old to;
          kept = λ u e z. stays ∙ rw (e, z) refl;
          taken = λ w e z.
              let same : v ≡ w = let q : some v ≡ some w = sym x ∙ e in cc in
              stays ∙ elim z [ inl a ↦ rw a (ap some same) | inr a ↦ rw a (ap some same) ];
          others = λ k a b.
              lookup-erase old k to
              ∙ rw a (lookup-insert new k (merged_value v (lookup new m)) m ∙ rw b refl);
        })
]
