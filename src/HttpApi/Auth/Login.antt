-- ===== src/HttpApi/Auth/Login.antt =====
-- internal/httpapi/auth.go: what a successful login takes and gives.
use yyb_go.Prelude.{
  ℕ, ◌+◌, ◌-◌, ◌≡◌, refl, subst, Option-cases, leb, ap, sym, ◌∙◌, inl, inr, Bool, true, false,
  Option, none, some, ltb, if◌then◌else◌, Bool-cases, codes,
}
use yyb_go.Prelude.Map.{lookup, lookup-insert_self}
use yyb_go.Prelude.Text.{Text, text_eq_instance}
use yyb_go.HttpApi.Auth.{
  App, SessionUser, Request, Method, get, post, other, admin_user, auth_enabled, allow_login,
  client_ip, safe_next, create_session, clear_login_failures, live_session, lockout,
}
use yyb_go.HttpApi.Auth.Handlers.{
  LoginBody, see_other, welcome, wrong_secret_key, cookie_user, login_get, secret_matches,
  check_secret, login_allowed, login_method, handle_login,
}
use yyb_go.HttpApi.Auth.Paths.{HasOneSlash, safe_next-HasOneSlash}
use yyb_go.HttpApi.Auth.Session.{user_of, user_of_lem, secret_matches_cases}

-- The session that a login leaves: the token stands for the administrator until the session ends.
abbrev pub Opens : Text → ℕ → App → Type 0
Opens token now b =
    (later : ℕ)
    → user_of token later b ≡ (
        if ltb (now + b.session_duration) later
        then none
        else some (admin_user (codes "admin") (codes "admin")))

create_session-Opens :
    (token : Text) (now : ℕ) (a : App)
    → Opens token now (create_session (codes "admin") token now a)
unfolding create_session live_session
create_session-Opens token now a later =
    user_of_lem token later (create_session (codes "admin") token now a)
    ∙ rw (lookup-insert_self token _ a.sessions) refl

check_secret-right :
    (key : Text) (body : LoginBody) (token : Text) (now : ℕ) (a : App)
    → secret_matches a.secret_key body.secret_key ≡ true
    → check_secret key body token now a ≡ (
      create_session (codes "admin") token now (clear_login_failures key a),
      welcome token (safe_next body.next),
    )
unfolding check_secret
check_secret-right key body token now a h = rw (check_secret, h) refl

check_secret-wrong :
    (key : Text) (body : LoginBody) (token : Text) (now : ℕ) (a : App)
    → secret_matches a.secret_key body.secret_key ≡ false
    → (check_secret key body token now a).1 ≡ wrong_secret_key
unfolding check_secret
check_secret-wrong key body token now a h = rw (check_secret, h) refl

check_secret-welcome :
    (key : Text) (body : LoginBody) (token : Text) (now : ℕ) (a b : App) (drawn page : Text)
    → check_secret key body token now a ≡ (b, welcome drawn page)
    → (body.secret_key ≡ a.secret_key) × (drawn ≡ token) × HasOneSlash page × Opens token now b
check_secret-welcome key body token now a b drawn page e =
    elim (secret_matches_cases a.secret_key body.secret_key) [
      | inl (matches, same) ↦
          let result = sym (check_secret-right key body token now a matches) ∙ e in
          (
            same,
            cc,
            subst HasOneSlash (cc) (safe_next-HasOneSlash body.next).0,
            subst (Opens token now) (ap (λ x. x.0) result)
                (create_session-Opens token now (clear_login_failures key a)),
          )
      | inr (differs, _) ↦
          let result = sym (check_secret-wrong key body token now a differs) ∙ ap (λ x. x.1) e in
          absurd (cc)
    ]

allow_login-secret_key :
    (key : Text) (now : ℕ) (a : App) → (allow_login key now a).0.secret_key ≡ a.secret_key
unfolding allow_login
allow_login-secret_key key now a = elim (Option-cases (lookup key a.login_attempts)) [
  | inl fresh ↦ rw (allow_login, fresh) refl
  | inr (attempt, found) ↦ elim (Bool-cases (leb lockout (now - attempt.start))) [
    | inl over ↦ rw (allow_login, found, over) refl
    | inr counting ↦ rw (allow_login, found, counting) refl
  ]
]

login_allowed-welcome :
    (key : Text) (body : LoginBody) (token : Text) (now : ℕ) (a : App) (allowed : App × Bool)
    (b : App) (drawn page : Text)
    → allowed.0.secret_key ≡ a.secret_key
    → login_allowed key body token now allowed ≡ (b, welcome drawn page)
    → (allowed.1 ≡ true)
      × (body.secret_key ≡ a.secret_key)
      × (drawn ≡ token)
      × HasOneSlash page
      × Opens token now b
unfolding login_allowed
login_allowed-welcome key body token now a (a', false) b drawn page same e = absurd (cc)
login_allowed-welcome key body token now a (a', true) b drawn page same e =
    let (right, drawn_is, on_host, opens) =
      check_secret-welcome key body token now a' b drawn page e in
    (refl, right ∙ same, drawn_is, on_host, opens)

login_get-welcome :
    (served : App × Option SessionUser) (b : App) (drawn page : Text)
    → ¬ (login_get served ≡ (b, welcome drawn page))
unfolding login_get
login_get-welcome (a, none) b drawn page e = absurd (cc)
login_get-welcome (a, some user) b drawn page e = absurd (cc)

-- What a welcome takes: a POST with the secret key, by a client that is not locked out.
abbrev pub Accepted : Request → Option LoginBody → ℕ → App → Type 0
Accepted r body now a =
    (r.method ≡ post)
    × ((allow_login (client_ip r) now a).1 ≡ true)
    × ((given : LoginBody) × (body ≡ some given) × (given.secret_key ≡ a.secret_key))

login_method-welcome :
    (method : Method) (r : Request) (body : Option LoginBody) (token : Text) (now : ℕ) (a b : App)
    (drawn page : Text)
    → r.method ≡ method
    → login_method method r body token now a ≡ (b, welcome drawn page)
    → Accepted r body now a × (drawn ≡ token) × HasOneSlash page × Opens token now b
unfolding login_method
login_method-welcome get r body token now a b drawn page is e =
    absurd (login_get-welcome (cookie_user r.session_cookie now a) b drawn page e)
login_method-welcome other r body token now a b drawn page is e = absurd (cc)
login_method-welcome post r none token now a b drawn page is e = absurd (cc)
login_method-welcome post r (some body) token now a b drawn page is e =
    let (allowed, right, drawn_is, on_host, opens) =
      login_allowed-welcome (client_ip r) body token now a (allow_login (client_ip r) now a) b drawn
        page (allow_login-secret_key (client_ip r) now a) e in
    ((is, allowed, (body, refl, right)), drawn_is, on_host, opens)

handle_login-on :
    (r : Request) (body : Option LoginBody) (token : Text) (now : ℕ) (a : App)
    → auth_enabled a ≡ true
    → handle_login r body token now a ≡ login_method r.method r body token now a
unfolding handle_login
handle_login-on r body token now a on = rw (handle_login, on) refl

handle_login-off :
    (r : Request) (body : Option LoginBody) (token : Text) (now : ℕ) (a : App)
    → auth_enabled a ≡ false
    → handle_login r body token now a ≡ (a, see_other (codes "/"))
unfolding handle_login
handle_login-off r body token now a off = rw (handle_login, off) refl

-- `handleLogin` welcomes only a POST that sends the secret key, from a client that is not locked out.
-- It then sets the token that was drawn, which stands for the administrator up to the end of the
-- session's duration and no longer, and the page that it names starts with one slash and not with two.
pub handle_login-welcome :
    (r : Request) (body : Option LoginBody) (token : Text) (now : ℕ) (a b : App) (drawn page : Text)
    → handle_login r body token now a ≡ (b, welcome drawn page)
    → Accepted r body now a × (drawn ≡ token) × HasOneSlash page × Opens token now b
handle_login-welcome r body token now a b drawn page e = elim (Bool-cases (auth_enabled a)) [
  | inl on ↦
      login_method-welcome r.method r body token now a b drawn page refl
        (sym (handle_login-on r body token now a on) ∙ e)
  | inr off ↦ let result = sym (handle_login-off r body token now a off) ∙ e in absurd (cc)
]
