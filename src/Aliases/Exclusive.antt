-- ===== src/Aliases/Exclusive.antt =====
-- Who owns a verified alias.
use lias_dis.Prelude.{
  ℕ, ◌<◌, ◌≡◌, refl, sym, ap, subst, ◌∙◌, ◌⊎◌, inl, inr, Bool, true, false, some, List, [], ◌∷◌,
  arith, In, Bool-cases, str_eq, eq_iff, ◌==◌, ==_iff, exists, exists_of_In,
}
use lias_dis.Aliases.{
  Row, Table, Alias, is_none, is_live, owned_by_other, is_same, find_row, update_where, refreshed,
}

-- Two rows are about one alias of one device.
abbrev pub SameKey : Row → Row → Type 0
SameKey r s =
    (r.device_id ≡ s.device_id) × (r.alias_type ≡ s.alias_type) × (r.value_hash ≡ s.value_hash)

abbrev pub IsNumbered : Table → Type 0
IsNumbered t =
    ((r : Row) → In r t.rows → r.id < t.next_id)
    × ((r s : Row) → In r t.rows → In s t.rows → r.id ≡ s.id → SameKey r s)

abbrev pub IsExclusive : List Row → Type 0
IsExclusive rows =
    (r s : Row)
    → In r rows
    → In s rows
    → is_live r ≡ true
    → is_live s ≡ true
    → r.alias_type ≡ s.alias_type
    → r.value_hash ≡ s.value_hash
    → r.device_id ≡ s.device_id

abbrev pub IsSound : Table → Type 0
IsSound t = IsNumbered t × IsExclusive t.rows

pub In-update_where :
    (test : Row → Bool) (change : Row → Row) (r : Row) (rows : List Row)
    → In r (update_where test change rows)
    → (s : Row) × In s rows × (((test s ≡ true) × (r ≡ change s)) ⊎ (r ≡ s))
unfolding update_where
In-update_where test change r [] i = absurd i
In-update_where test change r (s ∷ rows) (inr i) =
    let (u, j, e) = In-update_where test change r rows i in (u, inr j, e)
In-update_where test change r (s ∷ rows) (inl e) = elim (Bool-cases (test s)) [
  | inl y ↦ (s, inl refl, inl (y, ground (arith, e, y)))
  | inr n ↦ (s, inl refl, inr (ground (arith, e, n)))
]

pub find_row-In :
    (test : Row → Bool) (rows : List Row) (r : Row)
    → find_row test rows ≡ some r
    → In r rows × (test r ≡ true)
unfolding find_row
find_row-In test [] r e = absurd (cc)
find_row-In test (s ∷ rows) r e = elim (Bool-cases (test s)) [
  | inl y ↦
      let q : some s ≡ some r = rw (find_row, y) at e in
      let p : s ≡ r = cc in (inl p, subst (λ z. test z ≡ true) p y)
  | inr n ↦ let (i, t) = find_row-In test rows r (rw (find_row, n) at e) in (inr i, t)
]

-- The row is about the alias that is written.
abbrev pub OfAlias : Alias → Row → Type 0
OfAlias a r =
    (r.device_id ≡ a.device_id) × (r.alias_type ≡ a.alias_type) × (r.value_hash ≡ a.value_hash)

abbrev pub NotOwned : Alias → List Row → Type 0
NotOwned a rows = a.verified ≡ true → exists (owned_by_other a) rows ≡ false

same-OfAlias : (a : Alias) (r : Row) → is_same a r ≡ true → OfAlias a r
same-OfAlias a r e = (
  (eq_iff r.device_id a.device_id).0 (ground (arith, e)),
  (eq_iff r.alias_type a.alias_type).0 (ground (arith, e)),
  (eq_iff r.value_hash a.value_hash).0 (ground (arith, e)),
)

owner :
    (a : Alias) (rows : List Row) (r : Row)
    → NotOwned a rows
    → a.verified ≡ true
    → In r rows
    → is_live r ≡ true
    → r.alias_type ≡ a.alias_type
    → r.value_hash ≡ a.value_hash
    → r.device_id ≡ a.device_id
owner a rows r free v i l t h = elim (Bool-cases (str_eq r.device_id a.device_id)) [
  | inl y ↦ (eq_iff r.device_id a.device_id).0 y
  | inr n ↦
      let x : str_eq r.alias_type a.alias_type ≡ true = (eq_iff r.alias_type a.alias_type).1 t in
      let y : str_eq r.value_hash a.value_hash ≡ true = (eq_iff r.value_hash a.value_hash).1 h in
      let o : owned_by_other a r ≡ true = ground (arith, l, x, y, n) in
      let f : true ≡ false = sym (exists_of_In (owned_by_other a) r rows i o) ∙ free v in
      absurd (cc)
]

-- A live row of the new rows was there and live, or is about the verified alias that is written.
abbrev pub Comes : Alias → List Row → Row → Type 0
Comes a old r =
    ((s : Row) × In s old × SameKey r s × (is_live s ≡ true)) ⊎ ((a.verified ≡ true) × OfAlias a r)

pub same_key : (r s : Row) → r ≡ s → SameKey r s
same_key r s q = (
  ap (λ (z : Row). z.device_id) q,
  ap (λ (z : Row). z.alias_type) q,
  ap (λ (z : Row). z.value_hash) q,
)

pub IsExclusive-after :
    (a : Alias) (old new : List Row)
    → IsExclusive old
    → NotOwned a old
    → ((r : Row) → In r new → is_live r ≡ true → Comes a old r)
    → IsExclusive new
IsExclusive-after a old new h free come r s i j l m t v = elim (come r i l) [
  | inl (r', i', (a1, a2, a3), l') ↦ elim (come s j m) [
    | inl (s', j', (b1, b2, b3), m') ↦
        a1 ∙ h r' s' i' j' l' m' (sym a2 ∙ t ∙ b2) (sym a3 ∙ v ∙ b3) ∙ sym b1
    | inr (w, (b1, b2, b3)) ↦
        a1 ∙ owner a old r' free w i' l' (sym a2 ∙ t ∙ b2) (sym a3 ∙ v ∙ b3) ∙ sym b1
  ]
  | inr (w, (a1, a2, a3)) ↦ elim (come s j m) [
    | inl (s', j', (b1, b2, b3), m') ↦
        a1 ∙ sym (owner a old s' free w j' m' (sym b2 ∙ sym t ∙ a2) (sym b3 ∙ sym v ∙ a3)) ∙ sym b1
    | inr (w', (b1, b2, b3)) ↦ a1 ∙ sym b1
  ]
]

pub IsNumbered-after :
    (n : ℕ) (old new : List Row)
    → IsNumbered (record { rows = old; next_id = n })
    → ((r : Row) → In r new → (s : Row) × In s old × (r.id ≡ s.id) × SameKey r s)
    → IsNumbered (record { rows = new; next_id = n })
IsNumbered-after n old new (low, key) come = (
  λ r i. let (s, j, e, k) = come r i in subst (λ z. z < n) (sym e) (low s j),
  λ r s i j e.
      let (r', i', x, (a1, a2, a3)) = come r i in
      let (s', j', y, (b1, b2, b3)) = come s j in
      let (c1, c2, c3) = key r' s' i' j' (sym x ∙ e ∙ y) in
      (a1 ∙ c1 ∙ sym b1, a2 ∙ c2 ∙ sym b2, a3 ∙ c3 ∙ sym b3),
)

-- A row that is revoked is written only by a verified alias.
abbrev pub IsCareful : Alias → Table → Type 0
IsCareful a t =
    (a.verified ≡ true)
    ⊎ ((r : Row) → In r t.rows → is_same a r ≡ true → is_none r.revoked_at ≡ true)

pub refresh-IsSound :
    (a : Alias) (f : Row) (t : Table)
    → IsSound t
    → NotOwned a t.rows
    → IsCareful a t
    → In f t.rows
    → is_same a f ≡ true
    → IsSound (record t { rows = update_where (λ (s : Row). s.id == f.id) (refreshed a) t.rows })
refresh-IsSound a f t ((low, key), ex) free care i same = (
  IsNumbered-after t.next_id t.rows changed (low, key) comes_key,
  IsExclusive-after a t.rows changed ex free comes,
)
  where
    hits : Row → Bool
    hits s = s.id == f.id

    changed : List Row
    changed = update_where hits (refreshed a) t.rows

    comes_key : (r : Row) → In r changed → (s : Row) × In s t.rows × (r.id ≡ s.id) × SameKey r s
    comes_key r j =
        let (s, k, e) = In-update_where hits (refreshed a) r t.rows j in
        elim e [
          | inl (y, q) ↦ (s, k, ap (λ (z : Row). z.id) q, same_key r (refreshed a s) q)
          | inr q ↦ (s, k, ap (λ (z : Row). z.id) q, same_key r s q)
        ]

    comes_hit :
        (s : Row)
        → In s t.rows
        → hits s ≡ true
        → Comes a t.rows (refreshed a s) ⊎ (is_live (refreshed a s) ≡ false)
    comes_hit s k y =
        let (c1, c2, c3) = key s f k i ((==_iff s.id f.id).0 y) in
        let (d1, d2, d3) = same-OfAlias a f same in
        elim (Bool-cases a.verified) [
          | inl v ↦ inl (inr (v, (c1 ∙ d1, c2 ∙ d2, c3 ∙ d3)))
          | inr n ↦ elim (Bool-cases s.verified) [
            | inr m ↦ inr (ground (arith, n, m))
            | inl m ↦ elim care [
              | inl v ↦ absurd (cc)
              | inr c ↦
                  let e1 : str_eq s.device_id a.device_id ≡ true =
                    (eq_iff s.device_id a.device_id).1 (c1 ∙ d1) in
                  let e2 : str_eq s.alias_type a.alias_type ≡ true =
                    (eq_iff s.alias_type a.alias_type).1 (c2 ∙ d2) in
                  let e3 : str_eq s.value_hash a.value_hash ≡ true =
                    (eq_iff s.value_hash a.value_hash).1 (c3 ∙ d3) in
                  let own : is_same a s ≡ true = ground (arith, e1, e2, e3) in
                  let unrevoked : is_none s.revoked_at ≡ true = c s k own in
                  inl (inl (s, k, (refl, refl, refl), ground (arith, m, unrevoked)))
            ]
          ]
        ]

    comes : (r : Row) → In r changed → is_live r ≡ true → Comes a t.rows r
    comes r j l =
        let (s, k, e) = In-update_where hits (refreshed a) r t.rows j in
        elim e [
          | inl (y, q) ↦ elim (comes_hit s k y) [
            | inl c ↦ subst (Comes a t.rows) (sym q) c
            | inr d ↦ let z : true ≡ false = sym l ∙ ap is_live q ∙ d in absurd (cc)
          ]
          | inr q ↦
              subst (Comes a t.rows) (sym q)
                (inl (s, k, (refl, refl, refl), sym (ap is_live q) ∙ l))
        ]
