-- ===== src/Sessions/Examples.antt =====
-- Runs of the sessions, and their theorems at concrete inputs. The hash here is the identity.
use lias_dis.Prelude.{String, ◌<◌, str_eq, ◌≡◌, refl, true, false, some, List, [], ◌∷◌}
use lias_dis.Prelude.Dict.{lookup, insert}
use lias_dis.Sessions.{
  Sha256, BrowserSession, Request, Manager, cookie_value, cookies_cleared, new_manager, configure,
  authenticate, validate_csrf, create_browser_session, create, is_refused, lookup_session,
  lookup_digest, delete_browser_session,
}
use lias_dis.Sessions.Grants.{
  Call, configured, authenticated, posted, run, step, Granted, Holds, KnowsCsrf, run-Holds,
}
use lias_dis.Sessions.Logout.{delete_browser_session-authenticate}

abbrev plain : Sha256
plain s = s

abbrev request : Request
request = record { session_cookie = some "id"; csrf_cookie = some "c"; csrf_header = "c" }

abbrev calls : List Call
calls = configured "secret" true ∷ posted 5 (some "id") (some "c") (some "secret") true ∷ []

authenticate-test : (authenticate plain 9 request (run plain calls new_manager)).0 ≡ true
unfolding authenticate run step configure create_browser_session create is_refused lookup_session
    lookup_digest new_manager lookup insert
authenticate-test = refl

authenticate_late-test :
    (authenticate plain 28_800_000_000_005 request (run plain calls new_manager)).0 ≡ false
unfolding authenticate run step configure create_browser_session create is_refused lookup_session
    lookup_digest new_manager lookup insert
authenticate_late-test = refl

run-Holds_example :
    ((authenticate plain 9 request (run plain calls new_manager)).0 ≡ true
      → (s : BrowserSession) × Holds plain calls 9 request s)
    × ((validate_csrf plain 9 request (run plain calls new_manager)).0 ≡ true
        → (s : BrowserSession) × Holds plain calls 9 request s × KnowsCsrf plain request s)
run-Holds_example = run-Holds plain calls 9 request

logout-test :
    (delete_browser_session plain 9 request (run plain calls new_manager)).0 ≡ cookies_cleared
unfolding authenticate run step configure create_browser_session create is_refused lookup_session
    lookup_digest new_manager lookup insert delete_browser_session validate_csrf
logout-test = refl

-- The sessions after the logout, and after a check and a new login.
abbrev left : Manager
left = (delete_browser_session plain 9 request (run plain calls new_manager)).1

abbrev further : List Call
further = authenticated 10 request ∷ posted 11 (some "id2") (some "c2") (some "secret") true ∷ []

delete_browser_session-authenticate_example :
    (v : String) × (cookie_value request.session_cookie ≡ some v)
    × ((d : String)
        → str_eq v d ≡ false
        → lookup d left.sessions ≡ lookup d (run plain calls new_manager).sessions)
    × ((authenticate plain 12 request (run plain further left)).0 ≡ true
        → (s : BrowserSession) × Granted plain further left v s × (12 < s.expires_at))
delete_browser_session-authenticate_example =
    delete_browser_session-authenticate plain 9 12 request (run plain calls new_manager) further
      logout-test
