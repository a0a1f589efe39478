-- ===== src/Sessions/Logout.antt =====
-- What a logout takes away, and how its cookie can authenticate again.
use lias_dis.Prelude.{
  ℕ, ◌<◌, String, ◌≡◌, refl, sym, ap, subst, ◌∙◌, List, str_eq, inl, inr, true, false, none, some,
  ltb, Bool-cases, Option-cases,
}
use lias_dis.Prelude.Dict.{lookup, lookup-erase, lookup-erase_self}
use lias_dis.Sessions.{
  Sha256, BrowserSession, Manager, Request, unauthorized, forbidden, cookies_cleared, cookie_value,
  lookup_digest, lookup_session, authenticate, validate_csrf, delete, after_auth, after_csrf,
  delete_browser_session,
}
use lias_dis.Sessions.Grants.{Call, run, Granted, run-Granted, lookup_session-found}

module _ (sha : Sha256) where
  lookup_session-some :
      (now : ℕ) (r : Request) (m : Manager) (v : String)
      → cookie_value r.session_cookie ≡ some v
      → lookup_session sha now r m ≡ lookup_digest now (sha v) m
  unfolding lookup_session
  lookup_session-some now r m v e = rw (e, lookup_session) refl

  lookup_session-none :
      (now : ℕ) (r : Request) (m : Manager)
      → cookie_value r.session_cookie ≡ none
      → lookup_session sha now r m ≡ (none, m)
  unfolding lookup_session
  lookup_session-none now r m e = rw (e, lookup_session) refl

  delete-lookup :
      (now : ℕ) (r : Request) (m : Manager) (v : String)
      → cookie_value r.session_cookie ≡ some v
      → lookup (sha v) (delete sha now r m).sessions ≡ none
  unfolding delete lookup_digest
  delete-lookup now r m v e = elim (Option-cases (lookup (sha v) m.sessions)) [
    | inl x ↦ rw (lookup_session-some now r m v e, lookup_digest, x) x
    | inr (s, x) ↦ elim (Bool-cases (ltb now s.expires_at)) [
      | inl y ↦
          rw (lookup_session-some now r m v e, lookup_digest, x, y)
            (lookup-erase_self (sha v) m.sessions)
      | inr y ↦
          rw (lookup_session-some now r m v e, lookup_digest, x, y)
            (lookup-erase_self (sha v) m.sessions)
    ]
  ]

  -- The sessions under other digests stay as they are.
  lookup_digest-others :
      (now : ℕ) (digest d : String) (m : Manager)
      → str_eq digest d ≡ false
      → lookup d (lookup_digest now digest m).1.sessions ≡ lookup d m.sessions
  unfolding lookup_digest
  lookup_digest-others now digest d m n = elim (Option-cases (lookup digest m.sessions)) [
    | inl x ↦ rw (lookup_digest, x) refl
    | inr (s, x) ↦ elim (Bool-cases (ltb now s.expires_at)) [
      | inl y ↦ rw (lookup_digest, x, y) refl
      | inr y ↦ rw (lookup_digest, x, y) (lookup-erase digest d m.sessions ∙ rw n refl)
    ]
  ]

  delete-others :
      (now : ℕ) (r : Request) (m : Manager) (v d : String)
      → cookie_value r.session_cookie ≡ some v
      → str_eq (sha v) d ≡ false
      → lookup d (delete sha now r m).sessions ≡ lookup d m.sessions
  unfolding delete lookup_digest
  delete-others now r m v d e n = elim (Option-cases (lookup (sha v) m.sessions)) [
    | inl x ↦ rw (lookup_session-some now r m v e, lookup_digest, x) refl
    | inr (s, x) ↦ elim (Bool-cases (ltb now s.expires_at)) [
      | inl y ↦
          rw (lookup_session-some now r m v e, lookup_digest, x, y)
            (lookup-erase (sha v) d m.sessions ∙ rw n refl)
      | inr y ↦
          rw (lookup_session-some now r m v e, lookup_digest, x, y)
            (lookup-erase (sha v) d m.sessions ∙ rw n refl)
    ]
  ]

  -- The manager after the checks of a logout, before the session is deleted.
  checked : ℕ → Request → Manager → Manager
  checked now r m = (validate_csrf sha now r (authenticate sha now r m).1).1

  checked-others :
      (now : ℕ) (r : Request) (m : Manager) (v d : String)
      → cookie_value r.session_cookie ≡ some v
      → str_eq (sha v) d ≡ false
      → lookup d (checked now r m).sessions ≡ lookup d m.sessions
  unfolding checked validate_csrf authenticate
  checked-others now r m v d e n = looked (lookup_session sha now r m).1 ∙ looked m
    where
      looked :
          (k : Manager) → lookup d (lookup_session sha now r k).1.sessions ≡ lookup d k.sessions
      looked k = rw (lookup_session-some now r k v e) (lookup_digest-others now (sha v) d k n)

  -- What a logout that succeeds has found and done.
  cleared :
      (now : ℕ) (r : Request) (m : Manager)
      → (delete_browser_session sha now r m).0 ≡ cookies_cleared
      → (v : String) × (cookie_value r.session_cookie ≡ some v)
        × ((delete_browser_session sha now r m).1 ≡ delete sha now r (checked now r m))
  unfolding delete_browser_session checked authenticate
  cleared now r m h = elim (Bool-cases (authenticate sha now r m).0) [
    | inr a ↦ absurd (let q : unauthorized ≡ cookies_cleared = rw (a, after_auth) at h in cc)
    | inl a ↦ elim (Bool-cases (validate_csrf sha now r (authenticate sha now r m).1).0) [
      | inr c ↦
          absurd
            (let q : forbidden ≡ cookies_cleared = rw (a, after_auth, c, after_csrf) at h in cc)
      | inl c ↦ elim (Option-cases (cookie_value r.session_cookie)) [
        | inl x ↦ absurd (
            let z : (authenticate sha now r m).0 ≡ false = no_cookie x in
            let f : true ≡ false = sym a ∙ z in cc)
        | inr (v, x) ↦ (v, x, rw (a, after_auth, c, after_csrf) refl)
      ]
    ]
  ]
    where
      no_cookie : cookie_value r.session_cookie ≡ none → (authenticate sha now r m).0 ≡ false
      no_cookie x = rw (lookup_session-none now r m x) refl

  -- A logout that clears the cookies leaves the sessions of other cookies as they were. After any
  -- further calls, the request is authenticated again only if one of these calls has granted a
  -- session under the digest of its cookie, and it has not expired.
  pub delete_browser_session-authenticate :
      (now later : ℕ) (r : Request) (m : Manager) (cs : List Call)
      → (delete_browser_session sha now r m).0 ≡ cookies_cleared
      → (v : String) × (cookie_value r.session_cookie ≡ some v)
        × ((d : String)
            → str_eq (sha v) d ≡ false
            → lookup d (delete_browser_session sha now r m).1.sessions ≡ lookup d m.sessions)
        × ((authenticate sha later r (run sha cs (delete_browser_session sha now r m).1)).0 ≡ true
            → (s : BrowserSession) × Granted sha cs (delete_browser_session sha now r m).1 (sha v) s
              × (later < s.expires_at))
  unfolding authenticate
  delete_browser_session-authenticate now later r m cs h =
      let (v, x, e) = cleared now r m h in
      (
        v,
        x,
        λ d n.
            ap (λ (k : Manager). lookup d k.sessions) e
            ∙ delete-others now r (checked now r m) v d x n
            ∙ checked-others now r m v d x n,
        λ a.
            again v x
              (ap (λ (k : Manager). lookup (sha v) k.sessions) e
                ∙ delete-lookup now r (checked now r m) v x)
              a,
      )
    where
      again :
          (v : String)
          → cookie_value r.session_cookie ≡ some v
          → lookup (sha v) (delete_browser_session sha now r m).1.sessions ≡ none
          → (authenticate sha later r (run sha cs (delete_browser_session sha now r m).1)).0 ≡ true
          → (s : BrowserSession) × Granted sha cs (delete_browser_session sha now r m).1 (sha v) s
            × (later < s.expires_at)
      again v x gone a =
          let k : Manager = (delete_browser_session sha now r m).1 in
          elim (Option-cases (lookup_session sha later r (run sha cs k)).0) [
            | inl z ↦ absurd (let f : false ≡ true = rw z at a in cc)
            | inr ((s, digest), z) ↦
                let (u, y, found, fresh) =
                  lookup_session-found sha later r (run sha cs k) s digest z in
                let same : u ≡ v = let q : some u ≡ some v = sym y ∙ x in cc in
                elim (run-Granted sha cs k (sha v) s
                  (subst (λ w. lookup (sha w) (run sha cs k).sessions ≡ some s) same found)) [
                    | inl o ↦ absurd (let q : none ≡ some s = sym gone ∙ o in cc)
                    | inr g ↦ (s, g, fresh)
                  ]
          ]
