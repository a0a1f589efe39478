-- ===== src/Broker/History.antt =====
-- The ring of the last events holds the last hundred of them, in order from its head on.
use lias_dis.Prelude.{
  ℕ, zero, suc, ◌+◌, ◌-◌, ◌%◌, ◌≤◌, ◌<◌, ◌≡◌, refl, sym, ap, subst, ◌∙◌, ◌⊎◌, inl, inr, true, false,
  List, [], ◌∷◌, ◌++◌, arith, ltb, ltb→lt, lt→ltb, length, length-append, append-nil, append_assoc,
  if◌then◌else◌, Bool-cases,
}
use lias_dis.Broker.{
  Event, Broker, new_broker, set_at, remember, broadcast, history_buffer_capacity,
}

module _ {A : Type 0} where
  abbrev pub take : ℕ → List A → List A
  take zero xs = []
  take (suc n) [] = []
  take (suc n) (x ∷ xs) = x ∷ take n xs

  abbrev pub drop : ℕ → List A → List A
  drop zero xs = xs
  drop (suc n) [] = []
  drop (suc n) (x ∷ xs) = drop n xs

-- The last events, the newest at the end: what the ring stands for.
pub keep_last : Event → List Event → List Event
keep_last e es =
    if ltb (length es) history_buffer_capacity then es ++ e ∷ [] else drop 1 es ++ e ∷ []

unfoldable pub in_order : List Event → ℕ → List Event
in_order hs head = drop head hs ++ take head hs

-- A ring that is not full starts at 0; a full one starts anywhere.
pub IsRing : List Event → ℕ → Type 0
IsRing hs head = (length hs < 100 × (head ≡ 0)) ⊎ ((length hs ≡ 100) × (head < 100))

pub length-set_at : (i : ℕ) (e : Event) (hs : List Event) → length (set_at i e hs) ≡ length hs
unfolding set_at
length-set_at i e [] = refl
length-set_at zero e (x ∷ xs) = refl
length-set_at (suc i) e (x ∷ xs) = omega (arith, length-set_at i e xs)

-- Writing at the head and moving it by one drops the oldest event, which stood there.
set_at-next :
    (i : ℕ) (e : Event) (hs : List Event)
    → i < length hs
    → (drop (suc i) (set_at i e hs) ≡ drop (suc i) hs)
      × (take (suc i) (set_at i e hs) ≡ take i hs ++ e ∷ [])
      × (drop 1 (drop i hs) ≡ drop (suc i) hs)
unfolding set_at
set_at-next i e [] h = absurd (omega arith)
set_at-next zero e (x ∷ xs) h = (refl, refl, refl)
set_at-next (suc i) e (x ∷ xs) h =
    let (a, b, c) = set_at-next i e xs (omega arith) in (a, ap (◌∷◌ x) b, c)

take_all : (xs : List Event) → (take (length xs) xs ≡ xs) × (drop (length xs) xs ≡ [])
take_all [] = (refl, refl)
take_all (x ∷ xs) = let (a, b) = take_all xs in (ap (◌∷◌ x) a, b)

length-drop : (n : ℕ) (xs : List Event) → length (drop n xs) ≡ length xs - n
length-drop zero xs = omega arith
length-drop (suc n) [] = omega arith
length-drop (suc n) (x ∷ xs) = omega (arith, length-drop n xs)

drop-append : (d rest : List Event) → 1 ≤ length d → drop 1 (d ++ rest) ≡ drop 1 d ++ rest
drop-append [] rest h = absurd (omega arith)
drop-append (x ∷ xs) rest h = refl

length-in_order :
    (hs : List Event) (head : ℕ) → head ≤ length hs → length (in_order hs head) ≡ length hs
unfolding in_order
length-in_order hs zero h = omega (arith, length-append hs [])
length-in_order [] (suc n) h = absurd (omega arith)
length-in_order (x ∷ xs) (suc n) h = omega (
  arith,
  length-append (drop n xs) (x ∷ take n xs),
  length-append (drop n xs) (take n xs),
  length-in_order xs n (omega arith),
)

in_order-zero : (xs : List Event) → in_order xs 0 ≡ xs
unfolding in_order
in_order-zero xs = append-nil xs

not_full : (n : ℕ) → n < 100 → ltb n history_buffer_capacity ≡ true
not_full n h = lt→ltb n 100 h

full : (n : ℕ) → n ≡ 100 → ltb n history_buffer_capacity ≡ false
full n h = ground (arith, h)

-- One write to a full ring.
in_order-set_at :
    (e : Event) (hs : List Event) (head : ℕ)
    → length hs ≡ 100
    → head < 100
    → in_order (set_at head e hs) ((head + 1) % 100) ≡ drop 1 (in_order hs head) ++ e ∷ []
unfolding in_order
in_order-set_at e hs head l h =
    let (a, b, c) = set_at-next head e hs (omega (arith, l)) in
    let old : drop 1 (drop head hs ++ take head hs) ++ e ∷ []
        ≡ drop (suc head) hs ++ (take head hs ++ e ∷ []) =
      ap (λ xs. xs ++ e ∷ [])
        (drop-append (drop head hs) (take head hs) (omega (arith, length-drop head hs, l)))
      ∙ append_assoc (drop 1 (drop head hs)) (take head hs) (e ∷ [])
      ∙ ap (λ xs. xs ++ (take head hs ++ e ∷ [])) c in
    let hs' = set_at head e hs in
    elim (Bool-cases (ltb (suc head) 100)) [
      | inl y ↦
          let next : (head + 1) % 100 ≡ suc head = omega (arith, ltb→lt (suc head) 100 y) in
          ap (λ n. drop n hs' ++ take n hs') next
          ∙ ap (λ xs. xs ++ take (suc head) hs') a
          ∙ ap (λ xs. drop (suc head) hs ++ xs) b
          ∙ sym old
      | inr n ↦
          let last : suc head ≡ 100 = ground (arith, n, h) in
          let next : (head + 1) % 100 ≡ 0 = omega (arith, last) in
          let (whole, none_left) = take_all hs' in
          let size : length hs' ≡ suc head = omega (arith, length-set_at head e hs, l, last) in
          ap (λ k. drop k hs' ++ take k hs') next
          ∙ append-nil hs'
          ∙ sym (subst (λ k. take k hs' ≡ hs') size whole)
          ∙ b
          ∙ ap (λ xs. xs ++ (take head hs ++ e ∷ []))
              (sym (subst (λ k. drop k hs' ≡ []) size none_left) ∙ a)
          ∙ sym old
    ]

-- The ring after an event stands for the last events with that event.
remember-in_order :
    (e : Event) (hs : List Event) (head : ℕ)
    → IsRing hs head
    → IsRing (remember e hs head).0 (remember e hs head).1
      × (in_order (remember e hs head).0 (remember e hs head).1 ≡ keep_last e (in_order hs head))
unfolding remember IsRing keep_last
remember-in_order e hs head (inl (l, z)) =
    let size = length-in_order hs head (omega (arith, z)) in
    rw (not_full (length hs) l, size, not_full (length hs) l)
      (
        elim (Bool-cases (ltb (suc (length hs)) 100)) [
          | inl y ↦
              inl (omega (arith, length-append hs (e ∷ []), ltb→lt (suc (length hs)) 100 y), z)
          | inr n ↦ inr (ground (arith, length-append hs (e ∷ []), n, l), omega (arith, z))
        ],
        at_start,
      )
  where
    at_start : in_order (hs ++ e ∷ []) head ≡ in_order hs head ++ e ∷ []
    at_start =
        subst (λ k. in_order (hs ++ e ∷ []) k ≡ in_order hs k ++ e ∷ []) (sym z)
          (in_order-zero (hs ++ e ∷ []) ∙ ap (λ xs. xs ++ e ∷ []) (sym (in_order-zero hs)))
remember-in_order e hs head (inr (l, z)) =
    let size = length-in_order hs head (omega (arith, z, l)) in
    rw (full (length hs) l, size, full (length hs) l)
      (inr (length-set_at head e hs ∙ l, omega (arith, z)), in_order-set_at e hs head l z)

-- The ring after events that are broadcast in turn.
unfoldable pub broadcasts : List Event → Broker → Broker
broadcasts [] b = b
broadcasts (e ∷ es) b = broadcasts es (broadcast e b)

unfoldable pub keep_all : List Event → List Event → List Event
keep_all [] kept = kept
keep_all (e ∷ es) kept = keep_all es (keep_last e kept)

broadcasts-in_order :
    (es : List Event) (b : Broker)
    → IsRing b.history b.hist_head
    → in_order (broadcasts es b).history (broadcasts es b).hist_head
      ≡ keep_all es (in_order b.history b.hist_head)
unfolding broadcasts keep_all broadcast
broadcasts-in_order [] b h = refl
broadcasts-in_order (e ∷ es) b h =
    let (v, x) = remember-in_order e b.history b.hist_head h in
    broadcasts-in_order es (broadcast e b) v ∙ ap (keep_all es) x

keep_all-drop :
    (es kept : List Event)
    → length kept ≤ 100
    → keep_all es kept ≡ drop (length kept + length es - 100) (kept ++ es)
unfolding keep_all keep_last
keep_all-drop [] kept h =
    let none_over : 0 ≡ length kept + 0 - 100 = omega (arith, h) in
    subst (λ n. kept ≡ drop n (kept ++ [])) none_over (sym (append-nil kept))
keep_all-drop (e ∷ es) kept h = elim (Bool-cases (ltb (length kept) 100)) [
  | inl y ↦ rw y (
      keep_all-drop es (kept ++ e ∷ [])
        (omega (arith, length-append kept (e ∷ []), ltb→lt (length kept) 100 y))
      ∙ ap (λ n. drop n ((kept ++ e ∷ []) ++ es)) (omega (arith, length-append kept (e ∷ [])))
      ∙ ap (drop (length kept + suc (length es) - 100)) (append_assoc kept (e ∷ []) es))
  | inr n ↦ rw n (shifted (keep_all-drop es) kept (ground (arith, n, h)))
]
  where
    shifted :
        ((us : List Event)
          → length us ≤ 100
          → keep_all es us ≡ drop (length us + length es - 100) (us ++ es))
        → (ks : List Event) → length ks ≡ 100
        → keep_all es (drop 1 ks ++ e ∷ [])
          ≡ drop (length ks + suc (length es) - 100) (ks ++ e ∷ es)
    shifted rest [] l = absurd (omega (arith, l))
    shifted rest (k ∷ ks) l =
        let longer : length (ks ++ e ∷ []) + length es - 100 ≡ length es =
          omega (arith, l, length-append ks (e ∷ [])) in
        let over : suc (length es) ≡ length (k ∷ ks) + suc (length es) - 100 = omega (arith, l) in
        rest (ks ++ e ∷ []) (omega (arith, l, length-append ks (e ∷ [])))
        ∙ ap (λ n. drop n ((ks ++ e ∷ []) ++ es)) longer
        ∙ ap (drop (length es)) (append_assoc ks (e ∷ []) es)
        ∙ ap (λ n. drop n (k ∷ ks ++ e ∷ es)) over

-- After any events from a new broker on, the ring read from its head on is the last hundred events
-- in the order they came, all of them when they are no more.
pub broadcasts-new_broker :
    (es : List Event)
    → in_order (broadcasts es new_broker).history (broadcasts es new_broker).hist_head
      ≡ drop (length es - 100) es
unfolding new_broker IsRing in_order
broadcasts-new_broker es =
    broadcasts-in_order es new_broker (inl (omega arith, refl))
    ∙ keep_all-drop es [] (omega arith)
    ∙ ap (λ n. drop n es) (omega arith)
