-- ===== src/Aliases/Owners.antt =====
-- What writes and revocations keep of the owners of verified aliases, and what a search finds.
use lias_dis.Prelude.{
  ℕ, ◌+◌, ◌<◌, String, ◌≡◌, refl, sym, ap, subst, ◌∙◌, ◌⊎◌, inl, inr, Bool, true, false, ◌&&◌, ◌||◌,
  some, List, [], ◌∷◌, ◌++◌, arith, In, In-append_cases, Bool-cases, Option-cases, str_eq, eq_iff,
  exists,
}
use lias_dis.Prelude.Dict.{Dict, lookup}
use text.Mathlib.Text.{is_lt}
use Prim.Native.String.{compare}
use lias_dis.Aliases.{
  Row, Table, new_table, Alias, is_live, is_alias, owned_by_other, is_same, find_row, update_where,
  is_settled, new_row, write_row, upsert_identity_alias, device_with, is_row_of,
  revoke_identity_alias, insert_distinct, find_verified_alias_pdids,
}
use lias_dis.Aliases.Exclusive.{
  SameKey, IsNumbered, IsSound, In-update_where, find_row-In, NotOwned, IsCareful, same_key,
  IsExclusive-after, IsNumbered-after, refresh-IsSound,
}

insert-IsNumbered :
    (x : Row) (t : Table)
    → x.id ≡ t.next_id
    → IsNumbered t
    → IsNumbered (record { rows = t.rows ++ x ∷ []; next_id = t.next_id + 1 })
insert-IsNumbered x t n (low, key) = (
  λ r i. elim (In-append_cases r t.rows (x ∷ []) i) [
    | inl o ↦ omega (arith, low r o)
    | inr (inl e) ↦ subst (λ (z : Row). z.id < t.next_id + 1) e (omega (arith, n))
    | inr (inr z) ↦ absurd z
  ],
  λ r s i j e. elim (In-append_cases r t.rows (x ∷ []) i) [
    | inr (inr z) ↦ absurd z
    | inl o ↦ elim (In-append_cases s t.rows (x ∷ []) j) [
      | inl p ↦ key r s o p e
      | inr (inl q) ↦
          let y : x.id ≡ s.id = ap (λ (z : Row). z.id) q in absurd (omega (arith, low r o, e, y, n))
      | inr (inr z) ↦ absurd z
    ]
    | inr (inl p) ↦ elim (In-append_cases s t.rows (x ∷ []) j) [
      | inl o ↦
          let y : x.id ≡ r.id = ap (λ (z : Row). z.id) p in absurd (omega (arith, low s o, e, y, n))
      | inr (inl q) ↦ same_key r s (sym p ∙ q)
      | inr (inr z) ↦ absurd z
    ]
  ],
)

write-IsSound :
    (now : ℕ) (a : Alias) (t : Table)
    → IsSound t
    → NotOwned a t.rows
    → IsCareful a t
    → IsSound (write_row now a (find_row (is_same a) t.rows) t).1
write-IsSound now a t (num, ex) free care = elim (Option-cases (find_row (is_same a) t.rows)) [
  | inl e ↦ rw e (
    insert-IsNumbered (new_row now a t.next_id) t refl num,
    IsExclusive-after a t.rows (t.rows ++ new_row now a t.next_id ∷ []) ex free (λ r i l.
        elim (In-append_cases r t.rows (new_row now a t.next_id ∷ []) i) [
          | inl o ↦ inl (r, o, (refl, refl, refl), l)
          | inr (inl q) ↦ inr (fresh r q l)
          | inr (inr z) ↦ absurd z
        ]),
  )
  | inr (f, e) ↦
      let (i, same) = find_row-In (is_same a) t.rows f e in
      elim (Bool-cases (is_settled a f)) [
        | inl y ↦ rw (e, y) (num, ex)
        | inr n ↦ rw (e, n) (refresh-IsSound a f t (num, ex) free care i same)
      ]
]
  where
    fresh :
        (r : Row)
        → new_row now a t.next_id ≡ r
        → is_live r ≡ true
        → (a.verified ≡ true)
          × ((r.device_id ≡ a.device_id)
              × (r.alias_type ≡ a.alias_type)
              × (r.value_hash ≡ a.value_hash))
    fresh r q l =
        let live : is_live (new_row now a t.next_id) ≡ true = ap is_live q ∙ l in
        (ground (arith, live), same_key r (new_row now a t.next_id) (sym q))

upsert-IsSound :
    (now : ℕ) (a : Alias) (t : Table)
    → IsSound t
    → IsCareful a t
    → IsSound (upsert_identity_alias now a t).1
unfolding upsert_identity_alias
upsert-IsSound now a t h care =
    elim (Bool-cases
      (str_eq a.device_id "" || (str_eq a.alias_type "" || str_eq a.value_hash ""))) [
        | inl b ↦ rw (upsert_identity_alias, b) h
        | inr b ↦ elim (Bool-cases (a.verified && exists (owned_by_other a) t.rows)) [
          | inl c ↦ rw (upsert_identity_alias, b, c) h
          | inr c ↦
              rw (upsert_identity_alias, b, c)
                (write-IsSound now a t h (λ v. ground (arith, c, v)) care)
        ]
      ]

revoke-IsSound :
    (now : ℕ) (devices : Dict String) (pdid : String) (id : ℕ) (t : Table)
    → IsSound t
    → IsSound (revoke_identity_alias now devices pdid id t).1
unfolding revoke_identity_alias
revoke-IsSound now devices pdid id t ((low, key), ex) = (
  IsNumbered-after t.next_id t.rows changed (low, key) comes,
  λ r s i j l m. ex r s (kept r i l) (kept s j m) l m,
)
  where
    hits : Row → Bool
    hits = is_row_of id (device_with pdid devices)

    revoked : Row → Row
    revoked r = record r { revoked_at = some now }

    changed : List Row
    changed = update_where hits revoked t.rows

    comes : (r : Row) → In r changed → (s : Row) × In s t.rows × (r.id ≡ s.id) × SameKey r s
    comes r j =
        let (s, k, e) = In-update_where hits revoked r t.rows j in
        elim e [
          | inl (y, q) ↦ (s, k, ap (λ (z : Row). z.id) q, same_key r (revoked s) q)
          | inr q ↦ (s, k, ap (λ (z : Row). z.id) q, same_key r s q)
        ]

    kept : (r : Row) → In r changed → is_live r ≡ true → In r t.rows
    kept r j l =
        let (s, k, e) = In-update_where hits revoked r t.rows j in
        elim e [
          | inl (y, q) ↦
              let d : is_live (revoked s) ≡ false = ground arith in
              let f : true ≡ false = sym l ∙ ap is_live q ∙ d in absurd (cc)
          | inr q ↦ subst (λ z. In z t.rows) (sym q) k
        ]

pub data Call : Type 0 where
  upserts : ℕ → Alias → Call
  revokes : ℕ → Dict String → String → ℕ → Call

unfoldable pub step : Call → Table → Table
step (upserts now a) t = (upsert_identity_alias now a t).1
step (revokes now devices pdid id) t = (revoke_identity_alias now devices pdid id t).1

unfoldable pub run : List Call → Table → Table
run [] t = t
run (c ∷ cs) t = run cs (step c t)

-- The writes of the calls are careful where they come.
unfoldable pub AllCareful : List Call → Table → Type 0
AllCareful [] t = Unit
AllCareful (upserts now a ∷ cs) t = IsCareful a t × AllCareful cs (step (upserts now a) t)
AllCareful (revokes now devices pdid id ∷ cs) t =
    AllCareful cs (step (revokes now devices pdid id) t)

run-IsSound : (cs : List Call) (t : Table) → IsSound t → AllCareful cs t → IsSound (run cs t)
unfolding run step AllCareful
run-IsSound [] t h k = h
run-IsSound (upserts now a ∷ cs) t h k =
    run-IsSound cs (upsert_identity_alias now a t).1 (upsert-IsSound now a t h k.0) k.1
run-IsSound (revokes now devices pdid id ∷ cs) t h k =
    run-IsSound cs (revoke_identity_alias now devices pdid id t).1
      (revoke-IsSound now devices pdid id t h) k

In-insert_distinct :
    (x p : String) (qs : List String) → In x (insert_distinct p qs) → (p ≡ x) ⊎ In x qs
unfolding insert_distinct
In-insert_distinct x p [] (inl e) = inl e
In-insert_distinct x p [] (inr z) = absurd z
In-insert_distinct x p (q ∷ qs) i = elim (Bool-cases (str_eq q p)) [
  | inl y ↦ inr (rw (insert_distinct, y) at i)
  | inr n ↦ elim (Bool-cases (is_lt (compare p q))) [
    | inl l ↦ rw (insert_distinct, n, l) at i
    | inr g ↦
        let j : In x (q ∷ insert_distinct p qs) = rw (insert_distinct, n, g) at i in
        elim j [
          | inl e ↦ inr (inl e)
          | inr k ↦ elim (In-insert_distinct x p qs k) [ inl e ↦ inl e | inr m ↦ inr (inr m) ]
        ]
  ]
]

-- A live row of the rows is for the alias, and its device has the PDID.
abbrev FoundBy : Dict String → String → String → String → List Row → Type 0
FoundBy devices alias_type value_hash x rows =
    (r : Row) × In r rows
    × (is_live r ≡ true)
    × (r.alias_type ≡ alias_type)
    × (r.value_hash ≡ value_hash)
    × (lookup r.device_id devices ≡ some x)

later :
    (devices : Dict String) (alias_type value_hash x : String) (r : Row) (rows : List Row)
    → FoundBy devices alias_type value_hash x rows
    → FoundBy devices alias_type value_hash x (r ∷ rows)
later devices alias_type value_hash x r rows (s, j, l, a, b, e) = (s, inr j, l, a, b, e)

found_row :
    (devices : Dict String) (alias_type value_hash x : String) (rows : List Row)
    → In x (find_verified_alias_pdids devices alias_type value_hash rows)
    → FoundBy devices alias_type value_hash x rows
unfolding find_verified_alias_pdids
found_row devices alias_type value_hash x [] i = absurd i
found_row devices alias_type value_hash x (r ∷ rows) i =
    let next : In x (find_verified_alias_pdids devices alias_type value_hash rows)
        → FoundBy devices alias_type value_hash x (r ∷ rows) =
      λ k.
        later devices alias_type value_hash x r rows
          (found_row devices alias_type value_hash x rows k) in
    elim (Bool-cases (is_alias alias_type value_hash r && is_live r)) [
      | inr n ↦ next (rw (find_verified_alias_pdids, n) at i)
      | inl y ↦ elim (Option-cases (lookup r.device_id devices)) [
        | inl e ↦ next (rw (find_verified_alias_pdids, y, e) at i)
        | inr (p, e) ↦
            elim (In-insert_distinct x p
              (find_verified_alias_pdids devices alias_type value_hash rows)
              (rw (find_verified_alias_pdids, y, e) at i)) [
                | inl q ↦ (
                  r,
                  inl refl,
                  ground (arith, y),
                  (eq_iff r.alias_type alias_type).0 (ground (arith, y)),
                  (eq_iff r.value_hash value_hash).0 (ground (arith, y)),
                  e ∙ ap some q,
                )
                | inr k ↦ next k
              ]
      ]
    ]

some-eq : {a b : String} → some a ≡ some b → a ≡ b
some-eq e = cc

-- From an empty table, after any writes and revocations of aliases where only a verified alias is
-- written to a revoked row, a search for an alias finds at most one PDID.
pub run-find_verified_alias_pdids :
    (cs : List Call) (devices : Dict String) (alias_type value_hash p q : String)
    → AllCareful cs new_table
    → In p (find_verified_alias_pdids devices alias_type value_hash (run cs new_table).rows)
    → In q (find_verified_alias_pdids devices alias_type value_hash (run cs new_table).rows)
    → p ≡ q
unfolding new_table
run-find_verified_alias_pdids cs devices alias_type value_hash p q care i j =
    let (num, ex) =
      run-IsSound cs new_table
        (((λ r z. absurd z), (λ r s z w e. absurd z)), (λ r s z w l m t h. absurd z)) care in
    let (r, i', l, a, b, e) = found_row devices alias_type value_hash p (run cs new_table).rows i in
    let (s, j', m, c, d, f) = found_row devices alias_type value_hash q (run cs new_table).rows j in
    let same : r.device_id ≡ s.device_id = ex r s i' j' l m (a ∙ sym c) (b ∙ sym d) in
    some-eq (sym e ∙ ap (λ k. lookup k devices) same ∙ f)
