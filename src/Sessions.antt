-- ===== src/Sessions.antt =====
-- apps/lias/internal/api/session.go: the sessions of the dashboard in a browser. SHA-256 is a
-- parameter, and a digest is a text; the random tokens are values that `create` takes, `none` when
-- the source of randomness fails. Cookies, headers and the decoded body of a request are values
-- too. Times are in nanoseconds.
pub mod Grants
pub mod Logout
mod Examples
use lias_dis.Prelude.{
  ℕ, ◌+◌, ◌*◌, String, Bool, true, false, not, ◌&&◌, ◌||◌, Option, none, some, List, [], ◌∷◌,
  str_eq, ltb, if◌then◌else◌,
}
use lias_dis.Prelude.Dict.{Dict, lookup, insert, erase}

abbrev pub browser_session_ttl : ℕ
browser_session_ttl = 28_800 * 1_000_000_000

pub record BrowserSession : Type 0 where
  pub csrf : String
  pub expires_at : ℕ

pub record Manager : Type 0 where
  pub sessions : Dict BrowserSession
  pub auth_digest : String
  pub auth_set : Bool
  pub secure : Bool

-- The zero digest of a manager that is not configured is never looked at.
pub new_manager : Manager
new_manager = record { sessions = []; auth_digest = ""; auth_set = false; secure = false }

-- The cookies of a session and of the CSRF token, and the header; a header that is missing is "".
pub record Request : Type 0 where
  pub session_cookie : Option String
  pub csrf_cookie : Option String
  pub csrf_header : String

abbrev pub Sha256 : Type 0
Sha256 = String → String

pub configure : Sha256 → String → Bool → Manager → Manager
configure sha auth_token secure m = record m {
  auth_digest = sha auth_token;
  auth_set = not (str_eq auth_token "");
  secure = secure;
}

pub record Created : Type 0 where
  pub session_id : String
  pub csrf : String
  pub expires : ℕ

abbrev pub issue : Sha256 → ℕ → Option String → Option String → Manager → Option Created × Manager
issue sha now (some id) (some csrf) m = (
  some (record { session_id = id; csrf = csrf; expires = now + browser_session_ttl }),
  record m {
    sessions =
        insert (sha id) (record { csrf = csrf; expires_at = now + browser_session_ttl }) m.sessions;
  },
)
issue sha now _ _ m = (none, m)

pub is_refused : Sha256 → String → Manager → Bool
is_refused sha provided m = not m.auth_set || not (str_eq (sha provided) m.auth_digest)

pub create :
    Sha256 → ℕ → Option String → Option String → String → Manager → Option Created × Manager
create sha now id csrf provided m =
    if is_refused sha provided m then (none, m) else issue sha now id csrf m

-- `err != nil || cookie.Value == ""`
abbrev pub cookie_value : Option String → Option String
cookie_value none = none
cookie_value (some v) = if str_eq v "" then none else some v

-- The session under a digest; one that has expired is dropped.
pub lookup_digest : ℕ → String → Manager → Option (BrowserSession × String) × Manager
lookup_digest now digest m = elim (lookup digest m.sessions) [
  | none ↦ (none, m)
  | some s ↦
      if ltb now s.expires_at
      then (some (s, digest), m)
      else (none, record m { sessions = erase digest m.sessions })
]

pub lookup_session : Sha256 → ℕ → Request → Manager → Option (BrowserSession × String) × Manager
lookup_session sha now r m = elim (cookie_value r.session_cookie) [
  | none ↦ (none, m)
  | some v ↦ lookup_digest now (sha v) m
]

abbrev pub is_found : Option (BrowserSession × String) → Bool
is_found none = false
is_found (some s) = true

pub authenticate : Sha256 → ℕ → Request → Manager → Bool × Manager
authenticate sha now r m = let (found, m') = lookup_session sha now r m in (is_found found, m')

abbrev pub matches_csrf : Sha256 → Request → Option String → String → Bool
matches_csrf sha r none csrf = false
matches_csrf sha r (some v) csrf =
    if str_eq r.csrf_header ""
    then false
    else str_eq (sha v) (sha csrf) && str_eq (sha r.csrf_header) (sha csrf)

abbrev pub check_csrf : Sha256 → Request → Option (BrowserSession × String) → Bool
check_csrf sha r none = false
check_csrf sha r (some (s, digest)) = matches_csrf sha r (cookie_value r.csrf_cookie) s.csrf

pub validate_csrf : Sha256 → ℕ → Request → Manager → Bool × Manager
validate_csrf sha now r m =
    let (found, m') = lookup_session sha now r m in (check_csrf sha r found, m')

abbrev pub drop_found : Option (BrowserSession × String) → Manager → Manager
drop_found none m = m
drop_found (some (s, digest)) m = record m { sessions = erase digest m.sessions }

pub delete : Sha256 → ℕ → Request → Manager → Manager
delete sha now r m = let (found, m') = lookup_session sha now r m in drop_found found m'

-- What a handler writes: a status with an error, or no content with the two cookies.
pub data Reply : Type 0 where
  bad_request unauthorized forbidden : Reply
  cookies_set : Created → Reply
  cookies_cleared : Reply

abbrev pub reply_created : Option Created × Manager → Reply × Manager
reply_created (none, m) = (unauthorized, m)
reply_created (some c, m) = (cookies_set c, m)

-- `CreateBrowserSession`: the token that the body decodes to, if it does, and whether the body ends
-- after it.
pub create_browser_session :
    Sha256 → ℕ → Option String → Option String → Option String → Bool → Manager → Reply × Manager
create_browser_session sha now id csrf none ends m = (bad_request, m)
create_browser_session sha now id csrf (some token) ends m =
    if str_eq token "" || not ends
    then (bad_request, m)
    else reply_created (create sha now id csrf token m)

abbrev pub after_csrf : Sha256 → ℕ → Request → Bool × Manager → Reply × Manager
after_csrf sha now r (false, m) = (forbidden, m)
after_csrf sha now r (true, m) = (cookies_cleared, delete sha now r m)

abbrev pub after_auth : Sha256 → ℕ → Request → Bool × Manager → Reply × Manager
after_auth sha now r (false, m) = (unauthorized, m)
after_auth sha now r (true, m) = after_csrf sha now r (validate_csrf sha now r m)

pub delete_browser_session : Sha256 → ℕ → Request → Manager → Reply × Manager
delete_browser_session sha now r m = after_auth sha now r (authenticate sha now r m)

pub is_mutating_method : String → Bool
is_mutating_method method =
    str_eq method "POST" || str_eq method "PUT" || str_eq method "PATCH" || str_eq method "DELETE"
