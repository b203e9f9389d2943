-- ===== src/HttpApi/Auth/Handlers.antt =====
-- internal/httpapi/auth.go: `requireBrowserSession`, `handleLogin` and `handleLogout`.
use yyb_go.Prelude.{
  ℕ, Bool, true, false, not, [], ◌∷◌, ◌++◌, Option, none, some, if◌then◌else◌, codes,
}
use yyb_go.Prelude.Text.{Text, text_eq, text_eq_instance, trim_space, query_escape}
use yyb_go.HttpApi.Auth.{
  App, SessionUser, Request, Method, get, post, other, auth_enabled, admin_user,
  user_by_session_token, delete_session_token, create_session, allow_login, record_login_failure,
  clear_login_failures, client_ip, is_api_request, safe_next,
}

-- What the middleware does: the next handler runs, for a user where access control is on; or the
-- request ends with a 401 or a redirect, and the session cookie is cleared.
pub data Verdict : Type 0 where
  proceed : Option SessionUser → Verdict
  unauthorized : Verdict
  redirect_to : Text → Verdict

unfoldable pub secret_matches : Text → Text → Bool
secret_matches secret [] = false
secret_matches secret (c ∷ given) = text_eq (c ∷ given) secret

unfoldable pub cookie_user : Option Text → ℕ → App → App × Option SessionUser
cookie_user none now a = (a, none)
cookie_user (some token) now a = user_by_session_token token now a

turn_away : Request → Verdict
turn_away r =
    if is_api_request r.path
    then unauthorized
    else redirect_to (codes "/login?next=" ++ query_escape r.request_uri)

check_cookie : Request → App × Option SessionUser → App × Verdict
unfolding turn_away
check_cookie r (a, none) = (a, turn_away r)
check_cookie r (a, some user) = (a, proceed (some user))

unfoldable pub require_browser_session : Request → ℕ → App → App × Verdict
unfolding secret_matches cookie_user check_cookie
require_browser_session r now a =
    if not (auth_enabled a)
    then (a, proceed none)
    else if secret_matches a.secret_key (trim_space r.secret_key_header)
    then (a, proceed (some (admin_user (codes "secret-key") (codes "API 调用"))))
    else check_cookie r (cookie_user r.session_cookie now a)

pub record LoginBody : Type 0 where
  pub secret_key : Text
  pub next : Text

pub data Reply : Type 0 where
  see_other : Text → Reply
  login_page method_not_allowed bad_request too_many_requests wrong_secret_key : Reply
  welcome : Text → Text → Reply

unfoldable pub login_get : App × Option SessionUser → App × Reply
login_get (a, some user) = (a, see_other (codes "/"))
login_get (a, none) = (a, login_page)

-- The token is set as the session cookie, and the page to go to is returned.
unfoldable pub check_secret : Text → LoginBody → Text → ℕ → App → App × Reply
unfolding secret_matches
check_secret key body token now a =
    if secret_matches a.secret_key body.secret_key
    then (
      create_session (codes "admin") token now (clear_login_failures key a),
      welcome token (safe_next body.next),
    )
    else (record_login_failure key now a, wrong_secret_key)

unfoldable pub login_allowed : Text → LoginBody → Text → ℕ → App × Bool → App × Reply
unfolding check_secret
login_allowed key body token now (a, false) = (a, too_many_requests)
login_allowed key body token now (a, true) = check_secret key body token now a

unfoldable pub login_post : Request → Option LoginBody → Text → ℕ → App → App × Reply
unfolding login_allowed
login_post r none token now a = (a, bad_request)
login_post r (some body) token now a =
    login_allowed (client_ip r) body token now (allow_login (client_ip r) now a)

unfoldable pub login_method : Method → Request → Option LoginBody → Text → ℕ → App → App × Reply
unfolding login_get login_post cookie_user
login_method get r body token now a = login_get (cookie_user r.session_cookie now a)
login_method post r body token now a = login_post r body token now a
login_method other r body token now a = (a, method_not_allowed)

-- The body is `none` where it is no JSON of the wanted shape; the token is what the random generator
-- would give.
unfoldable pub handle_login : Request → Option LoginBody → Text → ℕ → App → App × Reply
unfolding login_method
handle_login r body token now a =
    if not (auth_enabled a)
    then (a, see_other (codes "/"))
    else login_method r.method r body token now a

pub data LogoutReply : Type 0 where
  not_allowed logged_out : LogoutReply

drop_cookie : Option Text → App → App
drop_cookie none a = a
drop_cookie (some token) a = delete_session_token token a

unfoldable pub handle_logout : Request → App → App × LogoutReply
unfolding drop_cookie
handle_logout r a = elim r.method [
  | get ↦ (a, not_allowed)
  | post ↦ (drop_cookie r.session_cookie a, logged_out)
  | other ↦ (a, not_allowed)
]
