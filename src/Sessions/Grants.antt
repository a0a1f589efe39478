-- ===== src/Sessions/Grants.antt =====
-- A session comes from a grant to a caller who knew the token.
use lias_dis.Prelude.{
  ℕ, ◌+◌, ◌<◌, String, ◌≡◌, refl, sym, ap, subst, ◌∙◌, ◌⊎◌, inl, inr, Bool, true, false, not, ◌&&◌,
  ◌||◌, Option, none, some, List, [], ◌∷◌, arith, str_eq, eq_iff, ltb, ltb→lt, Bool-cases,
  Option-cases,
}
use lias_dis.Prelude.Dict.{lookup, erase, lookup-insert, lookup-erase}
use lias_dis.Sessions.{
  Sha256, BrowserSession, Manager, Request, Created, browser_session_ttl, new_manager, configure,
  issue, is_refused, create, cookie_value, lookup_digest, lookup_session, is_found, authenticate,
  matches_csrf, check_csrf, validate_csrf, drop_found, delete, create_browser_session,
  reply_created, after_auth, after_csrf, delete_browser_session,
}

-- The calls on a manager, at the times they come.
pub data Call : Type 0 where
  configured : String → Bool → Call
  posted : ℕ → Option String → Option String → Option String → Bool → Call
  authenticated : ℕ → Request → Call
  csrf_checked : ℕ → Request → Call
  deleted : ℕ → Request → Call

module _ (sha : Sha256) where
  unfoldable pub step : Call → Manager → Manager
  step (configured token secure) m = configure sha token secure m
  step (posted now id csrf token ends) m = (create_browser_session sha now id csrf token ends m).1
  step (authenticated now r) m = (authenticate sha now r m).1
  step (csrf_checked now r) m = (validate_csrf sha now r m).1
  step (deleted now r) m = (delete_browser_session sha now r m).1

  unfoldable pub run : List Call → Manager → Manager
  run [] m = m
  run (c ∷ cs) m = run cs (step c m)

  -- The call grants the session, to a caller who has the token that is configured then, for eight
  -- hours.
  pub IsGrant : Call → Manager → String → BrowserSession → Type 0
  IsGrant (posted now (some id) (some csrf) (some token) ends) m digest s =
      (m.auth_set ≡ true)
      × (sha token ≡ m.auth_digest)
      × (digest ≡ sha id)
      × (s ≡ record { csrf = csrf; expires_at = now + browser_session_ttl })
  IsGrant c m digest s = ⊥

  unfoldable pub Granted : List Call → Manager → String → BrowserSession → Type 0
  Granted [] m digest s = ⊥
  Granted (c ∷ cs) m digest s = IsGrant c m digest s ⊎ Granted cs (step c m) digest s

  some-eq : {a b : BrowserSession} → some a ≡ some b → a ≡ b
  some-eq e = cc

  -- A lookup leaves no session that was not there.
  lookup_digest-old :
      (now : ℕ) (digest d : String) (m : Manager) (s : BrowserSession)
      → lookup d (lookup_digest now digest m).1.sessions ≡ some s
      → lookup d m.sessions ≡ some s
  unfolding lookup_digest
  lookup_digest-old now digest d m s h = elim (Option-cases (lookup digest m.sessions)) [
    | inl x ↦ rw (lookup_digest, x) at h
    | inr (t, x) ↦ elim (Bool-cases (ltb now t.expires_at)) [
      | inl y ↦ rw (lookup_digest, x, y) at h
      | inr y ↦ erased (rw (lookup_digest, x, y) at h)
    ]
  ]
    where
      erased : lookup d (erase digest m.sessions) ≡ some s → lookup d m.sessions ≡ some s
      erased e = ground (arith, lookup-erase digest d m.sessions, e)

  -- The sessions of the first manager are among those of the second.
  abbrev NoNew : Manager → Manager → Type 0
  NoNew m' m =
      (d : String) (s : BrowserSession)
      → lookup d m'.sessions ≡ some s
      → lookup d m.sessions ≡ some s

  lookup_session-NoNew :
      (now : ℕ) (r : Request) (m : Manager) → NoNew (lookup_session sha now r m).1 m
  unfolding lookup_session
  lookup_session-NoNew now r m d s h = elim (Option-cases (cookie_value r.session_cookie)) [
    | inl x ↦ rw (lookup_session, x) at h
    | inr (v, x) ↦ lookup_digest-old now (sha v) d m s (rw (lookup_session, x) at h)
  ]

  drop_found-NoNew :
      (found : Option (BrowserSession × String)) (m : Manager) → NoNew (drop_found found m) m
  drop_found-NoNew none m d s h = h
  drop_found-NoNew (some (t, digest)) m d s h = ground (arith, lookup-erase digest d m.sessions, h)

  delete-NoNew : (now : ℕ) (r : Request) (m : Manager) → NoNew (delete sha now r m) m
  unfolding delete
  delete-NoNew now r m d s h =
      lookup_session-NoNew now r m d s
        (drop_found-NoNew (lookup_session sha now r m).0 (lookup_session sha now r m).1 d s h)

  after_csrf-NoNew :
      (now : ℕ) (r : Request) (b : Bool) (m : Manager) → NoNew (after_csrf sha now r (b, m)).1 m
  after_csrf-NoNew now r false m d s h = h
  after_csrf-NoNew now r true m d s h = delete-NoNew now r m d s h

  after_auth-NoNew :
      (now : ℕ) (r : Request) (b : Bool) (m : Manager) → NoNew (after_auth sha now r (b, m)).1 m
  unfolding validate_csrf
  after_auth-NoNew now r false m d s h = h
  after_auth-NoNew now r true m d s h = lookup_session-NoNew now r m d s (
      after_csrf-NoNew now r (check_csrf sha r (lookup_session sha now r m).0)
        (lookup_session sha now r m).1 d s h)

  -- A session that a post leaves was there or is granted by it.
  issue-IsGrant :
      (now : ℕ) (id csrf : Option String) (token : String) (m : Manager) (d : String)
      (s : BrowserSession)
      → m.auth_set ≡ true
      → sha token ≡ m.auth_digest
      → lookup d (issue sha now id csrf m).1.sessions ≡ some s
      → (lookup d m.sessions ≡ some s) ⊎ IsGrant (posted now id csrf (some token) true) m d s
  unfolding IsGrant
  issue-IsGrant now none csrf token m d s a b h = inl h
  issue-IsGrant now (some id) none token m d s a b h = inl h
  issue-IsGrant now (some id) (some csrf) token m d s a b h =
      elim (Bool-cases (str_eq (sha id) d)) [
        | inl y ↦
            inr (a, b, sym ((eq_iff (sha id) d).0 y), sym (some-eq (rw (lookup-insert, y) at h)))
        | inr n ↦ inl (rw (lookup-insert, n) at h)
      ]

  not-is_refused :
      (token : String) (m : Manager)
      → is_refused sha token m ≡ false
      → (m.auth_set ≡ true) × (sha token ≡ m.auth_digest)
  unfolding is_refused
  not-is_refused token m h = elim (Bool-cases (str_eq (sha token) m.auth_digest)) [
    | inl y ↦ (ground (arith, h, y), (eq_iff (sha token) m.auth_digest).0 y)
    | inr n ↦ absurd (ground (arith, h, n))
  ]

  create-IsGrant :
      (now : ℕ) (id csrf : Option String) (token : String) (m : Manager) (d : String)
      (s : BrowserSession)
      → lookup d (create sha now id csrf token m).1.sessions ≡ some s
      → (lookup d m.sessions ≡ some s) ⊎ IsGrant (posted now id csrf (some token) true) m d s
  unfolding create
  create-IsGrant now id csrf token m d s h = elim (Bool-cases (is_refused sha token m)) [
    | inl y ↦ inl (rw (create, y) at h)
    | inr n ↦
        let (a, b) = not-is_refused token m n in
        issue-IsGrant now id csrf token m d s a b (rw (create, n) at h)
  ]

  reply_created-same : (r : Option Created × Manager) → (reply_created r).1 ≡ r.1
  reply_created-same (none, m) = refl
  reply_created-same (some c, m) = refl

  post-IsGrant :
      (now : ℕ) (id csrf token : Option String) (ends : Bool) (m : Manager) (d : String)
      (s : BrowserSession)
      → lookup d (create_browser_session sha now id csrf token ends m).1.sessions ≡ some s
      → (lookup d m.sessions ≡ some s) ⊎ IsGrant (posted now id csrf token ends) m d s
  unfolding create_browser_session IsGrant
  post-IsGrant now id csrf none ends m d s h = inl h
  post-IsGrant now id csrf (some token) ends m d s h =
      elim (Bool-cases (str_eq token "" || not ends)) [
        | inl y ↦ inl (rw (create_browser_session, y) at h)
        | inr n ↦
            elim (create-IsGrant now id csrf token m d s (
              subst (λ x. lookup d x.sessions ≡ some s)
                (reply_created-same (create sha now id csrf token m))
                (rw (create_browser_session, n) at h))) [
                  | inl o ↦ inl o
                  | inr g ↦ inr (any_end id csrf g)
                ]
      ]
    where
      any_end :
          (id csrf : Option String)
          → IsGrant (posted now id csrf (some token) true) m d s
          → IsGrant (posted now id csrf (some token) ends) m d s
      any_end (some i) (some c) g = g
      any_end (some i) none g = absurd g
      any_end none c g = absurd g

  step-IsGrant :
      (c : Call) (m : Manager) (d : String) (s : BrowserSession)
      → lookup d (step c m).sessions ≡ some s
      → (lookup d m.sessions ≡ some s) ⊎ IsGrant c m d s
  unfolding step configure authenticate validate_csrf delete_browser_session
  step-IsGrant (configured token secure) m d s h = inl h
  step-IsGrant (posted now id csrf token ends) m d s h = post-IsGrant now id csrf token ends m d s h
  step-IsGrant (authenticated now r) m d s h = inl (lookup_session-NoNew now r m d s h)
  step-IsGrant (csrf_checked now r) m d s h = inl (lookup_session-NoNew now r m d s h)
  step-IsGrant (deleted now r) m d s h = inl (
      lookup_session-NoNew now r m d s (
        after_auth-NoNew now r (is_found (lookup_session sha now r m).0)
          (lookup_session sha now r m).1 d s h))

  pub run-Granted :
      (cs : List Call) (m : Manager) (d : String) (s : BrowserSession)
      → lookup d (run cs m).sessions ≡ some s
      → (lookup d m.sessions ≡ some s) ⊎ Granted cs m d s
  unfolding run Granted
  run-Granted [] m d s h = inl h
  run-Granted (c ∷ cs) m d s h = elim (run-Granted cs (step c m) d s h) [
    | inr g ↦ inr (inr g)
    | inl o ↦ elim (step-IsGrant c m d s o) [ inl p ↦ inl p | inr g ↦ inr (inl g) ]
  ]

  -- What a lookup finds is in the map, under the digest of the cookie, and has not expired.
  pub lookup_session-found :
      (now : ℕ) (r : Request) (m : Manager) (s : BrowserSession) (digest : String)
      → (lookup_session sha now r m).0 ≡ some (s, digest)
      → (v : String) × (cookie_value r.session_cookie ≡ some v)
        × (lookup (sha v) m.sessions ≡ some s)
        × (now < s.expires_at)
  unfolding lookup_session lookup_digest
  lookup_session-found now r m s digest h = elim (Option-cases (cookie_value r.session_cookie)) [
    | inl x ↦ let q = rw (lookup_session, x) at h in cc
    | inr (v, x) ↦ elim (Option-cases (lookup (sha v) m.sessions)) [
      | inl y ↦ let q = rw (lookup_session, x, lookup_digest, y) at h in cc
      | inr (t, y) ↦ elim (Bool-cases (ltb now t.expires_at)) [
        | inr z ↦ let q = rw (lookup_session, x, lookup_digest, y, z) at h in cc
        | inl z ↦
            let e : t ≡ s = found-eq (rw (lookup_session, x, lookup_digest, y, z) at h) in
            (v, x, y ∙ ap some e, subst (λ u. now < u.expires_at) e (ltb→lt now t.expires_at z))
      ]
    ]
  ]
    where
      found-eq : {x y : BrowserSession × String} → some x ≡ some y → x.0 ≡ y.0
      found-eq {x = x} {y = y} p = let q : x ≡ y = cc in ap (λ w. w.0) q

  -- Through what the request proves that it comes from the session's page.
  pub KnowsCsrf : Request → BrowserSession → Type 0
  KnowsCsrf r s =
      (v : String) × (cookie_value r.csrf_cookie ≡ some v)
      × (sha v ≡ sha s.csrf)
      × (sha r.csrf_header ≡ sha s.csrf)

  check_csrf-KnowsCsrf :
      (r : Request) (s : BrowserSession) (digest : String)
      → check_csrf sha r (some (s, digest)) ≡ true
      → KnowsCsrf r s
  unfolding KnowsCsrf
  check_csrf-KnowsCsrf r s digest h = elim (Option-cases (cookie_value r.csrf_cookie)) [
    | inl x ↦ let q = rw (check_csrf, x) at h in cc
    | inr (v, x) ↦ elim (Bool-cases (str_eq r.csrf_header "")) [
      | inl y ↦ let q = rw (check_csrf, x, matches_csrf, y) at h in cc
      | inr y ↦
          let both : str_eq (sha v) (sha s.csrf) && str_eq (sha r.csrf_header) (sha s.csrf) ≡ true =
            rw (check_csrf, x, matches_csrf, y) at h in
          (
            v,
            x,
            (eq_iff (sha v) (sha s.csrf)).0 (ground (arith, both)),
            (eq_iff (sha r.csrf_header) (sha s.csrf)).0 (ground (arith, both)),
          )
    ]
  ]

  -- The request has the cookie of a session that some call before granted and that has not expired.
  pub Holds : List Call → ℕ → Request → BrowserSession → Type 0
  Holds cs now r s =
      (v : String) × (cookie_value r.session_cookie ≡ some v)
      × Granted cs new_manager (sha v) s
      × (now < s.expires_at)

  found-Holds :
      (cs : List Call) (now : ℕ) (r : Request) (s : BrowserSession) (digest : String)
      → (lookup_session sha now r (run cs new_manager)).0 ≡ some (s, digest)
      → Holds cs now r s
  unfolding Holds new_manager lookup
  found-Holds cs now r s digest h =
      let (v, x, y, z) = lookup_session-found now r (run cs new_manager) s digest h in
      elim (run-Granted cs new_manager (sha v) s y) [ inl o ↦ cc | inr g ↦ (v, x, g, z) ]

  -- After any calls from a new manager on, a request that is authenticated has the cookie of a
  -- session that some call granted, to a caller who knew the token, no more than eight hours
  -- before. A request whose CSRF token is accepted also knows, up to the hash, the token of such a
  -- session, in its cookie and in its header.
  pub run-Holds :
      (cs : List Call) (now : ℕ) (r : Request)
      → ((authenticate sha now r (run cs new_manager)).0 ≡ true
          → (s : BrowserSession) × Holds cs now r s)
        × ((validate_csrf sha now r (run cs new_manager)).0 ≡ true
            → (s : BrowserSession) × Holds cs now r s × KnowsCsrf r s)
  unfolding authenticate validate_csrf
  run-Holds cs now r = elim (Option-cases (lookup_session sha now r (run cs new_manager)).0) [
    | inl x ↦ (λ h. let q = rw x at h in cc, λ h. let q = rw x at h in cc)
    | inr ((s, digest), x) ↦ (
      λ h. (s, found-Holds cs now r s digest x),
      λ h. (s, found-Holds cs now r s digest x, check_csrf-KnowsCsrf r s digest (rw x at h)),
    )
  ]
