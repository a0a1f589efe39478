-- ===== src/Handlers/Auth.antt =====
-- `AuthMiddlewareWithSessions` of apps/lias/internal/api/handlers.go, over the sessions of Sessions.
-- The header is the two parts that `strings.SplitN` finds, if there are two, and whether it is
-- empty; SHA-256 is the parameter of Sessions. With no manager there are no sessions.
pub mod Guarded
use lias_dis.Prelude.{
  ℕ, String, Bool, true, false, not, ◌&&◌, ◌||◌, Option, none, some, str_eq, if◌then◌else◌,
}
use lias_dis.Prelude.Text.{to_lower}
use lias_dis.Sessions.{Sha256, Manager, Request, authenticate, validate_csrf, is_mutating_method}

pub data Verdict : Type 0 where
  served : Verdict
  missing_csrf missing_authorization invalid_token : Verdict

pub record Authorization : Type 0 where
  pub header : String
  pub parts : Option (String × String)

-- strings.EqualFold, for ASCII
abbrev is_bearer : String → Bool
is_bearer scheme = str_eq (to_lower scheme) (to_lower "Bearer")

pub holds_token : Sha256 → String → Authorization → Bool
holds_token sha token a = elim a.parts [
  | none ↦ false
  | some (scheme, provided) ↦ is_bearer scheme && str_eq (sha provided) (sha token)
]

abbrev refused : Authorization → Verdict
refused a = if str_eq a.header "" then missing_authorization else invalid_token

-- A change needs the token of the session besides its cookie.
abbrev pub after_csrf : Bool × Manager → Verdict × Manager
after_csrf (true, m) = (served, m)
after_csrf (false, m) = (missing_csrf, m)

abbrev pub after_session :
    Sha256 → ℕ → Authorization → String → Request → Bool × Manager → Verdict × Manager
after_session sha now a method r (false, m) = (refused a, m)
after_session sha now a method r (true, m) =
    if is_mutating_method method then after_csrf (validate_csrf sha now r m) else (served, m)

abbrev by_session :
    Sha256 → ℕ → Authorization → String → Request → Option Manager → Verdict × Option Manager
by_session sha now a method r none = (refused a, none)
by_session sha now a method r (some m) =
    let (v, m') = after_session sha now a method r (authenticate sha now r m) in (v, some m')

pub auth_middleware_with_sessions :
    Sha256
    → ℕ
    → String
    → Authorization
    → String
    → Request
    → Option Manager
    → Verdict × Option Manager
auth_middleware_with_sessions sha now token a method r m =
    if str_eq token "" || holds_token sha token a
    then (served, m)
    else by_session sha now a method r m
