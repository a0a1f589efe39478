-- ===== src/DnsFilter/Blocking.antt =====
-- What a domain filter blocks, whatever the order of its rules.
use lias_dis.Prelude.{
  String, ◌≡◌, ◌≢◌, refl, sym, ap, subst, ◌∙◌, ◌⊎◌, inl, inr, ◌↔◌, true, false, List, [], ◌∷◌,
  arith, str_eq, eq_iff, eq_refl, ==_iff, Bool-cases, In, In-of_exists, exists_of_In,
}
use Prim.Native.String.{[] as empty, ◌∷◌ as ◌∷ₛ◌, ◌++◌ as ◌++ₛ◌}
use Prim.Native.Char.{code}
use text.Mathlib.TextEquality.{Char-path}
use text.Mathlib.TextLemmas.{nil-append, cons-append}
use lias_dis.Prelude.Text.{to_lower, trim_space, has_prefix, has_suffix}
use lias_dis.DnsFilter.{
  FilterAction, DomainRule, Engine, is_block, scope_match, domain_match, drop_first, any_blocks,
  should_block,
}

-- The scope of a rule is everything, a tag of the device, or its user.
pub InScope : String → List String → String → Type 0
InScope scope tags user_id =
    (scope ≡ "global")
    ⊎ ((t : String) × In t tags × (scope ≡ "tag:" ++ₛ t))
    ⊎ (scope ≡ "user:" ++ₛ user_id)

-- A pattern that begins with `*.` stands for the names that end with a dot and the rest of it, and
-- any other pattern for itself.
pub Matches : String → String → Type 0
Matches domain pattern =
    ((base host : String) × (pattern ≡ "*." ++ₛ base) × (domain ≡ host ++ₛ ("." ++ₛ base)))
    ⊎ (((base : String) → pattern ≢ "*." ++ₛ base) × (domain ≡ pattern))

-- Some block rule whose scope has the device or its user matches the domain.
pub Blocks : String → List String → String → List DomainRule → Type 0
Blocks domain tags user_id rs =
    (r : DomainRule) × In r rs
    × (r.action ≡ FilterAction.block)
    × InScope r.scope tags user_id
    × Matches domain r.domain

scope_match-InScope :
    (scope : String) (tags : List String) (user_id : String)
    → scope_match scope tags user_id ≡ true
    → InScope scope tags user_id
unfolding scope_match InScope
scope_match-InScope scope tags user_id h = elim (Bool-cases (str_eq scope "global")) [
  | inl g ↦ inl ((eq_iff scope "global").0 g)
  | inr n ↦ elim (Bool-cases (has_prefix scope "tag:")) [
    | inl p ↦
        let (t, i, e) =
          In-of_exists (λ t. str_eq ("tag:" ++ₛ t) scope) tags (rw (scope_match, n, p) at h) in
        inr (inl (t, i, sym ((eq_iff ("tag:" ++ₛ t) scope).0 e)))
    | inr q ↦ elim (Bool-cases (has_prefix scope "user:")) [
      | inl u ↦
          inr (inr (sym ((eq_iff ("user:" ++ₛ user_id) scope).0 (rw (scope_match, n, q, u) at h))))
      | inr u ↦ absurd (let f : false ≡ true = rw (scope_match, n, q, u) at h in cc)
    ]
  ]
]

has_prefix-append : (p t : String) → has_prefix (p ++ₛ t) p ≡ true
unfolding has_prefix
has_prefix-append empty t = refl
has_prefix-append (c ∷ₛ p) t =
    subst (λ s. has_prefix s (c ∷ₛ p) ≡ true) (sym (cons-append c p t))
      (ground (arith, has_prefix-append p t, (==_iff (code c) (code c)).1 refl))

-- A text with the prefix is none without it.
prefixed-ne :
    (s word p : String) → has_prefix s p ≡ true → has_prefix word p ≡ false → str_eq s word ≡ false
prefixed-ne s word p h n = elim (Bool-cases (str_eq s word)) [
  | inr e ↦ e
  | inl e ↦
      let f : true ≡ false = sym h ∙ ap (λ z. has_prefix z p) ((eq_iff s word).0 e) ∙ n in
      absurd (cc)
]

user-ne-tag : (u : String) → has_prefix ("user:" ++ₛ u) "tag:" ≡ false
unfolding has_prefix
user-ne-tag u = subst (λ s. has_prefix s "tag:" ≡ false) (sym (cons-append "u" "ser:" u)) refl

global-ne-tag : has_prefix "global" "tag:" ≡ false
unfolding has_prefix
global-ne-tag = refl

global-ne-user : has_prefix "global" "user:" ≡ false
unfolding has_prefix
global-ne-user = refl

InScope-scope_match :
    (scope : String) (tags : List String) (user_id : String)
    → InScope scope tags user_id
    → scope_match scope tags user_id ≡ true
unfolding scope_match InScope
InScope-scope_match scope tags user_id (inl e) = rw (scope_match, (eq_iff scope "global").1 e) refl
InScope-scope_match scope tags user_id (inr (inl (t, i, e))) =
    let p : has_prefix scope "tag:" ≡ true =
      subst (λ s. has_prefix s "tag:" ≡ true) (sym e) (has_prefix-append "tag:" t) in
    rw (scope_match, prefixed-ne scope "global" "tag:" p global-ne-tag, p)
      (exists_of_In (λ u. str_eq ("tag:" ++ₛ u) scope) t tags i
        ((eq_iff ("tag:" ++ₛ t) scope).1 (sym e)))
InScope-scope_match scope tags user_id (inr (inr e)) =
    let p : has_prefix scope "user:" ≡ true =
      subst (λ s. has_prefix s "user:" ≡ true) (sym e) (has_prefix-append "user:" user_id) in
    let q : has_prefix scope "tag:" ≡ false =
      subst (λ s. has_prefix s "tag:" ≡ false) (sym e) (user-ne-tag user_id) in
    rw (scope_match, prefixed-ne scope "global" "user:" p global-ne-user, q, p)
      ((eq_iff ("user:" ++ₛ user_id) scope).1 (sym e))

has_suffix-append : (s t : String) → has_suffix s t ≡ true → (h : String) × (s ≡ h ++ₛ t)
unfolding has_suffix
has_suffix-append empty t e = (empty, (eq_iff empty t).0 e ∙ sym (nil-append t))
has_suffix-append (c ∷ₛ s) t e = elim (Bool-cases (str_eq (c ∷ₛ s) t)) [
  | inl y ↦ (empty, (eq_iff (c ∷ₛ s) t).0 y ∙ sym (nil-append t))
  | inr n ↦
      let (h, q) = has_suffix-append s t (rw n at e) in
      (c ∷ₛ h, ap (λ z. c ∷ₛ z) q ∙ sym (cons-append c h t))
]

suffix_self : (t : String) → has_suffix t t ≡ true
unfolding has_suffix
suffix_self empty = refl
suffix_self (c ∷ₛ t) = rw (eq_refl (c ∷ₛ t)) refl

append-has_suffix : (h t : String) → has_suffix (h ++ₛ t) t ≡ true
unfolding has_suffix
append-has_suffix empty t = subst (λ s. has_suffix s t ≡ true) (sym (nil-append t)) (suffix_self t)
append-has_suffix (c ∷ₛ h) t =
    subst (λ s. has_suffix s t ≡ true) (sym (cons-append c h t))
      (ground (arith, append-has_suffix h t))

starred_text : (base : String) → "*." ++ₛ base ≡ "*" ∷ₛ ("." ∷ₛ base)
starred_text base =
    cons-append "*" "." base
    ∙ ap (λ s. "*" ∷ₛ s) (cons-append "." "" base ∙ ap (λ s. "." ∷ₛ s) (nil-append base))

dotted_text : (base : String) → "." ++ₛ base ≡ "." ∷ₛ base
dotted_text base = cons-append "." "" base ∙ ap (λ s. "." ∷ₛ s) (nil-append base)

starred : (s : String) → has_prefix s "*." ≡ true → (base : String) × (s ≡ "*" ∷ₛ ("." ∷ₛ base))
unfolding has_prefix
starred empty h = absurd (cc)
starred (c ∷ₛ empty) h = absurd (ground (arith, h))
starred (c ∷ₛ (d ∷ₛ s)) h = (
  s,
  ap (λ x. x ∷ₛ (d ∷ₛ s)) (Char-path c "*" (ground (arith, h)))
      ∙ ap (λ x. "*" ∷ₛ (x ∷ₛ s)) (Char-path d "." (ground (arith, h))),
)

domain_match-Matches :
    (domain pattern : String) → domain_match domain pattern ≡ true → Matches domain pattern
unfolding domain_match Matches
domain_match-Matches domain pattern h = elim (Bool-cases (has_prefix pattern "*.")) [
  | inl p ↦
      let (base, e) = starred pattern p in
      let ends : has_suffix domain ("." ∷ₛ base) ≡ true =
        subst (λ s. has_suffix domain (drop_first s) ≡ true) e (rw (domain_match, p) at h) in
      let (host, q) = has_suffix-append domain ("." ∷ₛ base) ends in
      inl
        (base, host, e ∙ sym (starred_text base), q ∙ ap (λ s. host ++ₛ s) (sym (dotted_text base)))
  | inr n ↦ inr (
    λ base e.
        let f : true ≡ false =
          sym (has_prefix-append "*." base) ∙ ap (λ s. has_prefix s "*.") (sym e) ∙ n in
        cc,
    (eq_iff domain pattern).0 (rw (domain_match, n) at h),
  )
]

Matches-domain_match :
    (domain pattern : String) → Matches domain pattern → domain_match domain pattern ≡ true
unfolding domain_match Matches
Matches-domain_match domain pattern (inl (base, host, e, q)) =
    let p : has_prefix pattern "*." ≡ true =
      subst (λ s. has_prefix s "*." ≡ true) (sym e) (has_prefix-append "*." base) in
    let d : drop_first pattern ≡ "." ++ₛ base =
      ap drop_first (e ∙ starred_text base) ∙ sym (dotted_text base) in
    rw (domain_match, p, d)
      (subst (λ s. has_suffix s ("." ++ₛ base) ≡ true) (sym q)
        (append-has_suffix host ("." ++ₛ base)))
Matches-domain_match domain pattern (inr (n, q)) = elim (Bool-cases (has_prefix pattern "*.")) [
  | inl p ↦ let (base, e) = starred pattern p in absurd (n base (e ∙ sym (starred_text base)))
  | inr m ↦ rw (domain_match, m) ((eq_iff domain pattern).1 q)
]

is_block-eq : (a : FilterAction) → is_block a ≡ true → a ≡ FilterAction.block
is_block-eq FilterAction.block h = refl
is_block-eq FilterAction.allow h = cc
is_block-eq (FilterAction.other a) h = cc

any_blocks-Blocks :
    (domain : String) (tags : List String) (user_id : String) (rs : List DomainRule)
    → any_blocks domain tags user_id rs ≡ true
    → Blocks domain tags user_id rs
unfolding any_blocks Blocks
any_blocks-Blocks domain tags user_id [] h = cc
any_blocks-Blocks domain tags user_id (r ∷ rs) h =
    let later : any_blocks domain tags user_id rs ≡ true → Blocks domain tags user_id (r ∷ rs) =
      λ k.
        let (q, i, a, s, d) = any_blocks-Blocks domain tags user_id rs k in (q, inr i, a, s, d) in
    elim (Bool-cases (is_block r.action)) [
      | inr n ↦ later (rw (any_blocks, n) at h)
      | inl a ↦ elim (Bool-cases (scope_match r.scope tags user_id)) [
        | inr n ↦ later (rw (any_blocks, a, n) at h)
        | inl s ↦ elim (Bool-cases (domain_match domain r.domain)) [
          | inr n ↦ later (rw (any_blocks, a, s, n) at h)
          | inl d ↦ (
            r,
            inl refl,
            is_block-eq r.action a,
            scope_match-InScope r.scope tags user_id s,
            domain_match-Matches domain r.domain d,
          )
        ]
      ]
    ]

Blocks-any_blocks :
    (domain : String) (tags : List String) (user_id : String) (rs : List DomainRule)
    → Blocks domain tags user_id rs
    → any_blocks domain tags user_id rs ≡ true
unfolding any_blocks Blocks
Blocks-any_blocks domain tags user_id [] (q, i, a, s, d) = absurd i
Blocks-any_blocks domain tags user_id (r ∷ rs) (q, inl e, a, s, d) =
    rw (e, a, InScope-scope_match q.scope tags user_id s, Matches-domain_match domain q.domain d)
      refl
Blocks-any_blocks domain tags user_id (r ∷ rs) (q, inr i, a, s, d) =
    ground (arith, Blocks-any_blocks domain tags user_id rs (q, i, a, s, d))

-- A domain is blocked just when its name without the blanks around it, in lower case, is not empty
-- and the engine has a block rule that is for everything, for a tag of the device or for its user,
-- and whose pattern is that name, or is `*.` and some text where the name ends with a dot and that
-- text.
pub should_block-Blocks :
    (e : Engine) (domain : String) (tags : List String) (user_id : String)
    → (should_block e domain tags user_id ≡ true) ↔ (
        (to_lower (trim_space domain) ≢ "")
        × Blocks (to_lower (trim_space domain)) tags user_id e.rules)
unfolding should_block
should_block-Blocks e domain tags user_id =
    let clean = to_lower (trim_space domain) in
    elim (Bool-cases (str_eq clean "")) [
      | inl y ↦ (λ h. let q = rw y at h in cc, λ w. absurd (w.0 ((eq_iff clean "").0 y)))
      | inr n ↦ (
        λ h. (
          λ z. let q = n in ground (arith, n, (eq_iff clean "").1 z),
          any_blocks-Blocks clean tags user_id e.rules (rw n at h),
        ),
        λ w. rw n (Blocks-any_blocks clean tags user_id e.rules w.1),
      )
    ]
