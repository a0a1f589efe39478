-- ===== src/Handlers/Auth/Guarded.antt =====
-- What a request must show before it is served.
use lias_dis.Prelude.{
  ℕ, String, ◌≡◌, refl, ◌⊎◌, inl, inr, Bool, true, false, ◌&&◌, none, some, List, [], ◌∷◌, ◌++◌,
  arith, Bool-cases, Option-cases, if◌then◌else◌, str_eq, eq_iff,
}
use lias_dis.Prelude.Text.{to_lower}
use lias_dis.Sessions.{
  Sha256, BrowserSession, Manager, Request, new_manager, authenticate, validate_csrf,
  is_mutating_method,
}
use lias_dis.Sessions.Grants.{Call, authenticated, run, step, Holds, KnowsCsrf, run-Holds}
use lias_dis.Handlers.Auth.{
  served, missing_authorization, invalid_token, Authorization, holds_token, after_csrf,
  after_session, auth_middleware_with_sessions,
}

module _ (sha : Sha256) where
  -- The calls on the sessions, with the lookup of this request at the end.
  abbrev seen : List Call → ℕ → Request → List Call
  seen cs now r = cs ++ authenticated now r ∷ []

  run-seen :
      (cs : List Call) (now : ℕ) (r : Request) (m : Manager)
      → run sha (seen cs now r) m ≡ (authenticate sha now r (run sha cs m)).1
  unfolding run step
  run-seen [] now r m = refl
  run-seen (c ∷ cs) now r m = run-seen cs now r (step sha c m)

  -- The header carries the token, up to the hash, in the bearer scheme.
  abbrev pub Bearer : String → Authorization → Type 0
  Bearer token a =
      (scheme : String) × (provided : String) × (a.parts ≡ some (scheme, provided))
      × (to_lower scheme ≡ to_lower "Bearer")
      × (sha provided ≡ sha token)

  holds_token-Bearer :
      (token : String) (a : Authorization) → holds_token sha token a ≡ true → Bearer token a
  unfolding holds_token
  holds_token-Bearer token a h = elim (Option-cases a.parts) [
    | inl x ↦ let q = rw (holds_token, x) at h in cc
    | inr ((scheme, provided), x) ↦
        let both : str_eq (to_lower scheme) (to_lower "Bearer") && str_eq (sha provided) (sha token)
            ≡ true =
          rw (holds_token, x) at h in
        (
          scheme,
          provided,
          x,
          (eq_iff (to_lower scheme) (to_lower "Bearer")).0 (ground (arith, both)),
          (eq_iff (sha provided) (sha token)).0 (ground (arith, both)),
        )
  ]

  -- The request has a session, and for a change also the CSRF token of one.
  abbrev pub InSession : List Call → ℕ → String → Request → Type 0
  InSession cs now method r =
      ((s : BrowserSession) × Holds sha cs now r s)
      × (is_mutating_method method ≡ true
          → (s : BrowserSession) × Holds sha (seen cs now r) now r s × KnowsCsrf sha r s)

  refused-unserved :
      (a : Authorization)
      → (if str_eq a.header "" then missing_authorization else invalid_token) ≡ served
      → ⊥
  refused-unserved a h = elim (Bool-cases (str_eq a.header "")) [
    | inl x ↦ let q : missing_authorization ≡ served = rw x at h in cc
    | inr x ↦ let q : invalid_token ≡ served = rw x at h in cc
  ]

  after_csrf-served : (b : Bool) (m : Manager) → (after_csrf (b, m)).0 ≡ served → b ≡ true
  after_csrf-served true m h = refl
  after_csrf-served false m h = absurd (cc)

  after_session-served :
      (cs : List Call) (now : ℕ) (a : Authorization) (method : String) (r : Request)
      → (after_session sha now a method r (authenticate sha now r (run sha cs new_manager))).0
        ≡ served
      → InSession cs now method r
  after_session-served cs now a method r h =
      elim (Bool-cases (authenticate sha now r (run sha cs new_manager)).0) [
        | inr x ↦ absurd (refused-unserved a (rw (x, after_session) at h))
        | inl x ↦ (
          (run-Holds sha cs now r).0 x,
          λ k. (run-Holds sha (seen cs now r) now r).1 (
              rw (run-seen cs now r new_manager) (
                after_csrf-served
                  (validate_csrf sha now r (authenticate sha now r (run sha cs new_manager)).1).0 _
                  (rw (x, after_session, k) at h))),
        )
      ]

  -- With a manager on which any calls were made, a request is served only when no token is
  -- configured, or its header carries the token in the bearer scheme, or it has the cookie of a
  -- session that was granted and has not expired; in the last case a request that changes something
  -- also knows the CSRF token of such a session. With no manager, only the first two.
  pub auth_middleware-served :
      (cs : List Call) (now : ℕ) (token : String) (a : Authorization) (method : String)
      (r : Request)
      → ((auth_middleware_with_sessions sha now token a method r (some (run sha cs new_manager))).0
            ≡ served
          → (token ≡ "") ⊎ (Bearer token a ⊎ InSession cs now method r))
        × ((auth_middleware_with_sessions sha now token a method r none).0 ≡ served
            → (token ≡ "") ⊎ Bearer token a)
  unfolding auth_middleware_with_sessions
  auth_middleware-served cs now token a method r = elim (Bool-cases (str_eq token "")) [
    | inl x ↦ (λ h. inl ((eq_iff token "").0 x), λ h. inl ((eq_iff token "").0 x))
    | inr x ↦ elim (Bool-cases (holds_token sha token a)) [
      | inl y ↦
          (λ h. inr (inl (holds_token-Bearer token a y)), λ h. inr (holds_token-Bearer token a y))
      | inr y ↦ (
        λ h. inr (
            inr (
              after_session-served cs now a method r
                (rw (auth_middleware_with_sessions, x, y) at h))),
        λ h. absurd (refused-unserved a (rw (auth_middleware_with_sessions, x, y) at h)),
      )
    ]
  ]
