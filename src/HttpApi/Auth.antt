-- ===== src/HttpApi/Auth.antt =====
-- internal/httpapi/auth.go: sessions, the login with its lockout, and the guard of every request.
-- Times and durations are numbers of nanoseconds; the current time, and the token that the random
-- generator gives, are arguments of the handlers that read them.
pub mod Paths
pub mod Handlers
pub mod Session
pub mod Lockout
pub mod Login
mod Tests
use yyb_go.Prelude.{
  ℕ, ◌+◌, ◌-◌, ◌*◌, ◌^◌, Bool, true, false, not, ◌&&◌, ◌||◌, List, [], ◌∷◌, ◌++◌, Option, none,
  some, ltb, leb, if◌then◌else◌, codes,
}
use yyb_go.Prelude.Map.{lookup, insert, remove}
use yyb_go.Prelude.Text.{
  Text, text_eq, text_eq_instance, has_prefix, trim_space, query_escape, split,
}

pub record LoginAttempt : Type 0 where
  pub failures : ℕ
  pub start : ℕ

pub record SessionUser : Type 0 where
  pub username : Text
  pub display_name : Text
  pub role : Text
  pub enabled : Bool

pub record AdminSession : Type 0 where
  pub username : Text
  pub expires_at : ℕ

-- The fields of `App` and of its configuration that the functions of auth.go read.
pub record App : Type 0 where
  pub secret_key : Text
  pub session_duration : ℕ
  pub sessions : List (Text × AdminSession)
  pub login_attempts : List (Text × LoginAttempt)

unfoldable pub auth_enabled : App → Bool
auth_enabled a = not (text_eq a.secret_key [])

-- The session is stored under the token that was drawn.
unfoldable pub create_session : Text → Text → ℕ → App → App
create_session username token now a = record a {
  sessions =
      insert token (record { username = username; expires_at = now + a.session_duration })
        a.sessions;
}

unfoldable pub delete_session_token : Text → App → App
delete_session_token token a = record a { sessions = remove token a.sessions }

abbrev pub admin_user : Text → Text → SessionUser
admin_user username display_name = record {
  username = username;
  display_name = display_name;
  role = codes "admin";
  enabled = true;
}

unfoldable pub live_session : Option AdminSession → ℕ → Option SessionUser
live_session none now = none
live_session (some s) now =
    if ltb s.expires_at now then none else some (admin_user s.username s.username)

-- A token that is unknown or has expired is deleted.
unfoldable pub or_delete : Text → App → Option SessionUser → App × Option SessionUser
unfolding delete_session_token
or_delete token a none = (delete_session_token token a, none)
or_delete token a (some user) = (a, some user)

unfoldable pub user_by_session_token : Text → ℕ → App → App × Option SessionUser
unfolding live_session or_delete
user_by_session_token token now a = or_delete token a (live_session (lookup token a.sessions) now)

-- 15 * time.Minute
abbrev pub lockout : ℕ
lockout = 15 * 60 * 10 ^ 9

unfoldable pub allow_login : Text → ℕ → App → App × Bool
allow_login key now a = elim (lookup key a.login_attempts) [
  | none ↦ (record a { login_attempts = remove key a.login_attempts }, true)
  | some attempt ↦
      if leb lockout (now - attempt.start)
      then (record a { login_attempts = remove key a.login_attempts }, true)
      else (a, ltb attempt.failures 8)
]

-- The attempt that a failure is added to: the stored one, or a new one behind its end.
unfoldable pub current_attempt : Option LoginAttempt → ℕ → LoginAttempt
current_attempt none now = record { failures = 0; start = now }
current_attempt (some attempt) now =
    if leb lockout (now - attempt.start) then record { failures = 0; start = now } else attempt

unfoldable pub record_login_failure : Text → ℕ → App → App
unfolding current_attempt
record_login_failure key now a =
    let attempt = current_attempt (lookup key a.login_attempts) now in
    record a {
      login_attempts =
          insert key (record attempt { failures = attempt.failures + 1 }) a.login_attempts;
    }

unfoldable pub clear_login_failures : Text → App → App
clear_login_failures key a = record a { login_attempts = remove key a.login_attempts }

unfoldable pub safe_next : Text → Text
safe_next value =
    if has_prefix value (codes "/") && not (has_prefix value (codes "//")) then value else codes "/"

abbrev pub api_prefixes : List Text
api_prefixes =
    codes "/accounts"
    ∷ codes "/wxapp"
    ∷ codes "/scripts"
    ∷ codes "/qr"
    ∷ codes "/activity"
    ∷ codes "/features"
    ∷ codes "/auth/me"
    ∷ []

unfoldable pub under_prefix : Text → List Text → Bool
under_prefix path [] = false
under_prefix path (prefix ∷ prefixes) =
    text_eq path prefix || (has_prefix path (prefix ++ codes "/") || under_prefix path prefixes)

unfoldable pub is_api_request : Text → Bool
unfolding under_prefix
is_api_request path = under_prefix path api_prefixes

pub data Method : Type 0 where
  get post other : Method

-- A request, as the functions below read it. `remote_host` is the host part of the peer's address,
-- where it has one; a cookie that is not set is `none`.
pub record Request : Type 0 where
  pub method : Method
  pub path : Text
  pub request_uri : Text
  pub secret_key_header : Text
  pub forwarded_for : Text
  pub remote_addr : Text
  pub remote_host : Option Text
  pub session_cookie : Option Text

first_or_empty : List Text → Text
first_or_empty [] = []
first_or_empty (part ∷ _) = part

unfoldable pub client_ip : Request → Text
unfolding first_or_empty
client_ip r = elim (trim_space (first_or_empty (split r.forwarded_for b','))) [
  | [] ↦ elim r.remote_host [ none ↦ r.remote_addr | some host ↦ host ]
  | c ∷ value ↦ c ∷ value
]
