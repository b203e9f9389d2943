-- ===== src/HttpApi/Auth/Session.antt =====
-- internal/httpapi/auth.go: what the guard of the requests lets pass, and how sessions begin and end.
use yyb_go.Prelude.{
  ℕ, ◌≤◌, ◌≡◌, refl, ap, sym, ◌∙◌, subst, ◌⊎◌, inl, inr, true, false, Option, none, some, arith,
  ltb, [], ◌∷◌, if◌then◌else◌, Bool-cases, Option-cases, codes, ◌++◌,
}
use yyb_go.Prelude.Map.{beq_refl, lookup, lookup-remove}
use yyb_go.Prelude.Text.{Text, text_eq, text_eq_iff, text_eq_instance, trim_space, query_escape}
use yyb_go.HttpApi.Auth.{
  App, AdminSession, SessionUser, Request, post, auth_enabled, admin_user, live_session, or_delete,
  user_by_session_token, delete_session_token, is_api_request,
}
use yyb_go.HttpApi.Auth.Handlers.{
  proceed, unauthorized, redirect_to, secret_matches, cookie_user, require_browser_session,
  handle_logout, logged_out,
}

-- The token names a session that has not expired.
abbrev pub IsLive : App → ℕ → Text → Type 0
IsLive a now token = (s : AdminSession) × (lookup token a.sessions ≡ some s) × (now ≤ s.expires_at)

-- What opens the door: no access control, the secret key in the header, or a live session.
abbrev pub Admitted : Request → ℕ → App → Type 0
Admitted r now a =
    (a.secret_key ≡ [])
    ⊎ (trim_space r.secret_key_header ≡ a.secret_key)
    ⊎ ((token : Text) × (r.session_cookie ≡ some token) × IsLive a now token)

user_by_session_token_cases :
    (token : Text) (now : ℕ) (a : App)
    → (IsLive a now token
        × ((user : SessionUser) × (user_by_session_token token now a ≡ (a, some user))))
      ⊎ (¬ IsLive a now token
          × (user_by_session_token token now a ≡ (delete_session_token token a, none)))
unfolding user_by_session_token live_session
user_by_session_token_cases token now a = elim (Option-cases (lookup token a.sessions)) [
  | inl missing ↦ inr ((λ (s, found, _). absurd (cc)), rw (user_by_session_token, missing) refl)
  | inr (s, found) ↦ elim (Bool-cases (ltb s.expires_at now)) [
    | inl expired ↦ inr (
      λ (_, found_again, fits). absurd (grind (arith, found, found_again, fits, expired)),
      rw (user_by_session_token, found, expired) refl,
    )
    | inr live ↦ inl (
      (s, found, ground arith),
      (admin_user s.username s.username, rw (user_by_session_token, found, live) refl),
    )
  ]
]

pub secret_matches_cases :
    (secret given : Text)
    → ((secret_matches secret given ≡ true) × (given ≡ secret))
      ⊎ ((secret_matches secret given ≡ false) × ((given ≡ []) ⊎ (¬ (given ≡ secret))))
unfolding secret_matches
secret_matches_cases secret [] = inr (refl, inl refl)
secret_matches_cases secret (c ∷ given) = elim (Bool-cases (text_eq (c ∷ given) secret)) [
  | inl same ↦ inl (same, (text_eq_iff (c ∷ given) secret).0 same)
  | inr differs ↦ inr (differs, inr (λ e. absurd (ground (arith, text_eq_iff (c ∷ given) secret))))
]

auth_enabled_cases :
    (a : App)
    → ((auth_enabled a ≡ true) × (¬ (a.secret_key ≡ [])))
      ⊎ ((auth_enabled a ≡ false) × (a.secret_key ≡ []))
unfolding auth_enabled
auth_enabled_cases a = elim (Bool-cases (text_eq a.secret_key [])) [
  | inl empty ↦ inr (rw empty refl, (text_eq_iff a.secret_key []).0 empty)
  | inr filled ↦ inl (rw filled refl, λ e. absurd (ground (arith, text_eq_iff a.secret_key [])))
]

cookie_user_cases :
    (cookie : Option Text) (now : ℕ) (a : App)
    → ((token : Text) × (cookie ≡ some token)
        × IsLive a now token
        × ((user : SessionUser) × (cookie_user cookie now a ≡ (a, some user))))
      ⊎ ((b : App) × (¬ ((token : Text) × (cookie ≡ some token) × IsLive a now token))
          × (cookie_user cookie now a ≡ (b, none)))
unfolding cookie_user
cookie_user_cases none now a = inr (a, (λ (token, e, _). absurd (cc)), refl)
cookie_user_cases (some token) now a = elim (user_by_session_token_cases token now a) [
  | inl (live, served) ↦ inl (token, refl, live, served)
  | inr (dead, e) ↦
      inr (delete_session_token token a, (λ (t, e, live). dead (subst (IsLive a now) (cc) live)), e)
]

no_way_in :
    (r : Request) (now : ℕ) (a : App)
    → ¬ (a.secret_key ≡ [])
    → (trim_space r.secret_key_header ≡ []) ⊎ (¬ (trim_space r.secret_key_header ≡ a.secret_key))
    → ¬ ((token : Text) × (r.session_cookie ≡ some token) × IsLive a now token)
    → ¬ Admitted r now a
no_way_in r now a filled no_key dead (inl empty) = filled empty
no_way_in r now a filled (inl absent) dead (inr (inl same)) = filled (sym same ∙ absent)
no_way_in r now a filled (inr differs) dead (inr (inl same)) = differs same
no_way_in r now a filled no_key dead (inr (inr live)) = dead live

-- The guard passes a request on exactly if access control is off, its header holds the secret key, or
-- its cookie names a session that has not expired; any other request gets a 401 on the API paths and
-- a redirect to the login, which keeps the page that was asked for, on the others.
pub require_browser_session-guards :
    (r : Request) (now : ℕ) (a : App)
    → (Admitted r now a
        × ((user : Option SessionUser) × ((require_browser_session r now a).1 ≡ proceed user)))
      ⊎ (¬ Admitted r now a
          × ((require_browser_session r now a).1 ≡ (
              if is_api_request r.path
              then unauthorized
              else redirect_to (codes "/login?next=" ++ query_escape r.request_uri))))
unfolding require_browser_session
require_browser_session-guards r now a = elim (auth_enabled_cases a) [
  | inr (off, empty) ↦ inl (inl empty, (none, rw (off, require_browser_session) refl))
  | inl (on, filled) ↦ elim (secret_matches_cases a.secret_key (trim_space r.secret_key_header)) [
    | inl (matches, same) ↦ inl (
      inr (inl same),
      (
        some (admin_user (codes "secret-key") (codes "API 调用")),
        rw (on, require_browser_session, matches) refl,
      ),
    )
    | inr (differs, no_key) ↦ elim (cookie_user_cases r.session_cookie now a) [
      | inl (token, sent, live, (user, e)) ↦ inl (
        inr (inr (token, sent, live)),
        (some user, rw (on, require_browser_session, differs, e) refl),
      )
      | inr (b, dead, e) ↦
          inr (
            no_way_in r now a filled no_key dead,
            rw (on, require_browser_session, differs, e) refl,
          )
    ]
  ]
]

-- The user that a token stands for, if any.
abbrev pub user_of : Text → ℕ → App → Option SessionUser
user_of token now a = (user_by_session_token token now a).1

-- It is read off the session that is stored under the token.
pub user_of_lem :
    (token : Text) (now : ℕ) (a : App)
    → user_of token now a ≡ live_session (lookup token a.sessions) now
unfolding user_by_session_token
user_of_lem token now a = or_delete_lem (live_session (lookup token a.sessions) now)
  where
    or_delete_lem : (user : Option SessionUser) → (or_delete token a user).1 ≡ user
    or_delete_lem none = refl
    or_delete_lem (some user) = refl

handle_logout_lem :
    (r : Request) (token : Text) (a : App)
    → r.method ≡ post
    → r.session_cookie ≡ some token
    → handle_logout r a ≡ (delete_session_token token a, logged_out)
unfolding handle_logout
handle_logout_lem r token a posted sent = rw (handle_logout, posted, sent) refl

text_ne : (s t : Text) → ¬ (s ≡ t) → text_eq s t ≡ false
text_ne s t h = ground (arith, text_eq_iff s t, h)

user_of-delete_session_token :
    (token other_token : Text) (now : ℕ) (a : App)
    → user_of other_token now (delete_session_token token a)
      ≡ (if text_eq token other_token then none else user_of other_token now a)
unfolding delete_session_token live_session
user_of-delete_session_token token other_token now a =
    elim (Bool-cases (text_eq token other_token)) [
      | inl same ↦
          user_of_lem other_token now (delete_session_token token a)
          ∙ rw (lookup-remove token other_token a.sessions, same) refl
      | inr differs ↦
          user_of_lem other_token now (delete_session_token token a)
          ∙ rw (lookup-remove token other_token a.sessions, differs)
              (sym (user_of_lem other_token now a))
    ]

-- Logging out with a token ends its session for good, and no other session.
pub handle_logout-ends :
    (r : Request) (token : Text) (a : App)
    → r.method ≡ post
    → r.session_cookie ≡ some token
    → ((handle_logout r a).1 ≡ logged_out)
      × ((now : ℕ) → user_of token now (handle_logout r a).0 ≡ none)
      × ((other_token : Text) (now : ℕ)
          → ¬ (token ≡ other_token)
          → user_of other_token now (handle_logout r a).0 ≡ user_of other_token now a)
handle_logout-ends r token a posted sent = (
  ap (λ x. x.1) (handle_logout_lem r token a posted sent),
  λ now.
      rw (handle_logout_lem r token a posted sent)
        (user_of-delete_session_token token token now a ∙ rw (beq_refl token) refl),
  λ other_token now differs. rw (handle_logout_lem r token a posted sent) (
      user_of-delete_session_token token other_token now a
      ∙ rw (text_ne token other_token differs) refl),
)
