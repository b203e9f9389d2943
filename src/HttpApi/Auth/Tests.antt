-- ===== src/HttpApi/Auth/Tests.antt =====
-- Runs of the login and of the guard, and the theorems at concrete inputs.
use yyb_go.Prelude.{
  ℕ, ◌+◌, ◌<◌, ◌≡◌, refl, ◌↔◌, ◌⊎◌, true, List, [], ◌∷◌, ◌++◌, Option, none, some, arith, codes,
  if◌then◌else◌,
}
use yyb_go.Prelude.Text.{
  Text, text_eq, text_eq_instance, split, trim_space, has_prefix, query_escape,
}
use yyb_go.Prelude.Map.{lookup, insert, remove}
use yyb_go.HttpApi.Auth.{
  App, Request, Method, get, post, safe_next, is_api_request, api_prefixes, client_ip, auth_enabled,
  lockout, user_by_session_token, allow_login, record_login_failure,
}
use yyb_go.HttpApi.Auth.Handlers.{
  LoginBody, welcome, proceed, unauthorized, redirect_to, too_many_requests, logged_out,
  require_browser_session, handle_login, handle_logout, secret_matches,
}
use yyb_go.HttpApi.Auth.Paths.{HasOneSlash, safe_next-HasOneSlash, Under, is_api_request_iff}
use yyb_go.HttpApi.Auth.Session.{
  Admitted, require_browser_session-guards, user_of, handle_logout-ends,
}
use yyb_go.HttpApi.Auth.Lockout.{Call, IsWrong, logins, handle_login-locks}
use yyb_go.HttpApi.Auth.Login.{Accepted, Opens, handle_login-welcome}
use mathlib.Core.List.{Memᴰ}

abbrev app : App
app = record {
  secret_key = codes "k3y";
  session_duration = 100;
  sessions = [];
  login_attempts = [];
}

abbrev login_request : Request
login_request = record {
  method = post;
  path = codes "/auth/login";
  request_uri = codes "/auth/login";
  secret_key_header = [];
  forwarded_for = codes " 10.0.0.7 , 10.0.0.1";
  remote_addr = codes "127.0.0.1:4000";
  remote_host = some (codes "127.0.0.1");
  session_cookie = none;
}

abbrev right_body : LoginBody
right_body = record { secret_key = codes "k3y"; next = codes "//evil" }

abbrev wrong_body : LoginBody
wrong_body = record { secret_key = codes "key"; next = [] }

abbrev client : Text
client = codes "10.0.0.7"

client_run : client_ip login_request ≡ client
unfolding client_ip trim_space split
client_run = refl

safe_next_run : safe_next (codes "/a b") ≡ codes "/a b"
unfolding safe_next has_prefix
safe_next_run = refl

escape_run : query_escape (codes "/a b?c=1") ≡ codes "%2Fa+b%3Fc%3D1"
unfolding query_escape
escape_run = refl

safe_next-HasOneSlash_example :
    HasOneSlash (safe_next (codes "//evil"))
    × (HasOneSlash (codes "//evil") → safe_next (codes "//evil") ≡ codes "//evil")
safe_next-HasOneSlash_example = safe_next-HasOneSlash (codes "//evil")

is_api_request_iff_example :
    (is_api_request (codes "/qr/poll") ≡ true)
    ↔ ((prefix : Text) × Memᴰ prefix api_prefixes × Under prefix (codes "/qr/poll"))
is_api_request_iff_example = is_api_request_iff (codes "/qr/poll")

abbrev logged_in : App
logged_in = record app {
  sessions = (codes "token", record { username = codes "admin"; expires_at = 150 }) ∷ [];
}

login_run :
    handle_login login_request (some right_body) (codes "token") 50 app
    ≡ (logged_in, welcome (codes "token") (codes "/"))
unfolding handle_login allow_login client_ip trim_space split lookup remove insert text_eq
    auth_enabled safe_next has_prefix yyb_go.HttpApi.Auth.create_session
    yyb_go.HttpApi.Auth.clear_login_failures
login_run = refl

handle_login-welcome_example :
    Accepted login_request (some right_body) 50 app
    × (codes "token" ≡ codes "token")
    × HasOneSlash (codes "/")
    × Opens (codes "token") 50 logged_in
handle_login-welcome_example =
    handle_login-welcome login_request (some right_body) (codes "token") 50 app logged_in
      (codes "token") (codes "/") login_run

abbrev page_request : Request
page_request = record login_request {
  method = get;
  path = codes "/home";
  request_uri = codes "/home?a=b";
}

require_browser_session-guards_example :
    (Admitted page_request 60 logged_in
      × ((user : Option _) × ((require_browser_session page_request 60 logged_in).1
            ≡ proceed user)))
    ⊎ (¬ Admitted page_request 60 logged_in
        × ((require_browser_session page_request 60 logged_in).1 ≡ (
            if is_api_request page_request.path
            then unauthorized
            else redirect_to (codes "/login?next=" ++ query_escape page_request.request_uri))))
require_browser_session-guards_example = require_browser_session-guards page_request 60 logged_in

abbrev logout_request : Request
logout_request = record login_request { session_cookie = some (codes "token") }

handle_logout-ends_example :
    ((handle_logout logout_request logged_in).1 ≡ logged_out)
    × ((now : ℕ) → user_of (codes "token") now (handle_logout logout_request logged_in).0 ≡ none)
    × ((other_token : Text) (now : ℕ)
        → ¬ (codes "token" ≡ other_token)
        → user_of other_token now (handle_logout logout_request logged_in).0
          ≡ user_of other_token now logged_in)
handle_logout-ends_example = handle_logout-ends logout_request (codes "token") logged_in refl refl

abbrev guess : ℕ → Call
guess now = record { request = login_request; body = wrong_body; token = []; now = now }

guess-IsWrong : (now : ℕ) → 10 < now + 1 → now < 100 → IsWrong app.secret_key client 10 (guess now)
unfolding secret_matches text_eq
guess-IsWrong now h g = record {
  posted = refl;
  client = client_run;
  wrong = refl;
  begun = omega arith;
  in_window = omega arith;
}

app-enabled : auth_enabled app ≡ true
unfolding auth_enabled text_eq
app-enabled = refl

app-fresh : lookup client app.login_attempts ≡ none
unfolding lookup
app-fresh = refl

abbrev guesses : List Call
guesses = guess 11 ∷ guess 12 ∷ guess 13 ∷ guess 14 ∷ guess 15 ∷ guess 16 ∷ guess 17 ∷ []

handle_login-locks_example :
    handle_login login_request
      (some right_body)
      (codes "token")
      20
      (logins (guess 10 ∷ guesses) app)
    ≡ (logins (guess 10 ∷ guesses) app, too_many_requests)
handle_login-locks_example =
    handle_login-locks client (guess 10) guesses app app-enabled app-fresh
      (
        guess-IsWrong 10 (omega arith) (omega arith),
        (
          guess-IsWrong 11 (omega arith) (omega arith),
          (
            guess-IsWrong 12 (omega arith) (omega arith),
            (
              guess-IsWrong 13 (omega arith) (omega arith),
              (
                guess-IsWrong 14 (omega arith) (omega arith),
                (
                  guess-IsWrong 15 (omega arith) (omega arith),
                  (
                    guess-IsWrong 16 (omega arith) (omega arith),
                    (guess-IsWrong 17 (omega arith) (omega arith), tt),
                  ),
                ),
              ),
            ),
          ),
        ),
      )
      (omega arith) login_request right_body (codes "token") 20 refl client_run (omega arith)
