-- ===== src/HttpApi/Auth/Lockout.antt =====
-- internal/httpapi/auth.go: how many wrong secret keys a client may try.
use yyb_go.Prelude.{
  ℕ, ◌+◌, ◌-◌, ◌≤◌, ◌<◌, ◌≡◌, refl, subst, ◌∙◌, inl, inr, true, false, List, [], ◌∷◌, none, some,
  arith, ltb, leb, length, All, Bool-cases,
}
use yyb_go.Prelude.Map.{lookup, remove, lookup-insert_self, lookup-remove_self}
use yyb_go.Prelude.Text.{Text, text_eq_instance}
use yyb_go.HttpApi.Auth.{
  App, Request, post, auth_enabled, allow_login, record_login_failure, client_ip, lockout,
}
use yyb_go.HttpApi.Auth.Handlers.{
  LoginBody, wrong_secret_key, too_many_requests, secret_matches, check_secret, login_allowed,
  handle_login,
}

-- A login with a key, the token that the random generator would give, and its time.
pub record Call : Type 0 where
  pub request : Request
  pub body : LoginBody
  pub token : Text
  pub now : ℕ

-- The state that a sequence of logins leaves.
abbrev pub logins : List Call → App → App
logins [] a = a
logins (c ∷ calls) a = logins calls (handle_login c.request (some c.body) c.token c.now a).0

-- A login of this client with another key than the secret one.
pub record IsWrong (secret key : Text) (t0 : ℕ) (c : Call) : Type 0 where
  pub posted : c.request.method ≡ post
  pub client : client_ip c.request ≡ key
  pub wrong : secret_matches secret c.body.secret_key ≡ false
  pub begun : t0 ≤ c.now
  pub in_window : c.now < t0 + lockout

-- The client has failed `k` times since `t0`.
pub record Counted (secret key : Text) (t0 k : ℕ) (a : App) : Type 0 where
  pub enabled : auth_enabled a ≡ true
  pub secret_is : a.secret_key ≡ secret
  pub attempt : lookup key a.login_attempts ≡ some (record { failures = k; start = t0 })

handle_login_lem :
    (r : Request) (body : LoginBody) (token : Text) (now : ℕ) (a : App)
    → auth_enabled a ≡ true
    → r.method ≡ post
    → handle_login r (some body) token now a
      ≡ login_allowed (client_ip r) body token now (allow_login (client_ip r) now a)
unfolding handle_login
handle_login_lem r body token now a on posted = rw (handle_login, on, posted) refl

module _ (secret key : Text) (t0 : ℕ) where
  allow_login-Counted :
      (k now : ℕ) (a : App)
      → Counted secret key t0 k a
      → now < t0 + lockout
      → allow_login key now a ≡ (a, ltb k 8)
  unfolding allow_login
  allow_login-Counted k now a counted h =
      let early : leb lockout (now - t0) ≡ false = ground arith in
      rw (allow_login, counted.attempt, early) refl

  record_login_failure-Counted :
      (k now : ℕ) (a : App)
      → Counted secret key t0 k a
      → now < t0 + lockout
      → Counted secret key t0 (k + 1) (record_login_failure key now a)
  unfolding record_login_failure auth_enabled
  record_login_failure-Counted k now a counted h =
      let early : leb lockout (now - t0) ≡ false = ground arith in
      record {
        enabled = counted.enabled;
        secret_is = counted.secret_is;
        attempt = rw (counted.attempt, early) (lookup-insert_self key _ a.login_attempts);
      }

  -- A wrong key below eight failures is answered as such, and counted.
  wrong_lem :
      (k : ℕ) (c : Call) (a : App)
      → Counted secret key t0 k a
      → k < 8
      → IsWrong secret key t0 c
      → handle_login c.request (some c.body) c.token c.now a
        ≡ (record_login_failure key c.now a, wrong_secret_key)
  unfolding login_allowed check_secret
  wrong_lem k c a counted h w =
      let few : ltb k 8 ≡ true = ground arith in
      handle_login_lem c.request c.body c.token c.now a counted.enabled w.posted
      ∙ rw
          (
            w.client,
            allow_login-Counted k c.now a counted w.in_window,
            few,
            counted.secret_is,
            w.wrong,
          )
          refl

  -- With eight failures no key is looked at, the right one neither.
  locked_lem :
      (r : Request) (body : LoginBody) (token : Text) (now : ℕ) (a : App)
      → Counted secret key t0 8 a
      → r.method ≡ post
      → client_ip r ≡ key
      → now < t0 + lockout
      → handle_login r (some body) token now a ≡ (a, too_many_requests)
  unfolding login_allowed
  locked_lem r body token now a counted posted client h =
      handle_login_lem r body token now a counted.enabled posted
      ∙ rw (client, allow_login-Counted 8 now a counted h) refl

  logins-Counted :
      (k : ℕ) (calls : List Call) (a : App)
      → Counted secret key t0 k a
      → k ≤ 8
      → All (IsWrong secret key t0) calls
      → 8 ≤ k + length calls
      → Counted secret key t0 8 (logins calls a)
  logins-Counted k [] a counted h wrongs enough =
      subst (λ n. Counted secret key t0 n a) (omega arith) counted
  logins-Counted k (c ∷ calls) a counted h (w, wrongs) enough = elim (Bool-cases (ltb k 8)) [
    | inl below ↦ rw (wrong_lem k c a counted (ground arith) w) (
        logins-Counted (k + 1) calls (record_login_failure key c.now a)
          (record_login_failure-Counted k c.now a counted w.in_window) (ground arith) wrongs
          (omega arith))
    | inr full ↦
        let eight : Counted secret key t0 8 a =
          subst (λ n. Counted secret key t0 n a) (ground arith) counted in
        rw (locked_lem c.request c.body c.token c.now a eight w.posted w.client w.in_window)
          (logins-Counted 8 calls a eight (omega arith) wrongs (omega arith))
  ]

allow_login-fresh :
    (key : Text) (now : ℕ) (a : App)
    → lookup key a.login_attempts ≡ none
    → allow_login key now a ≡ (record a { login_attempts = remove key a.login_attempts }, true)
unfolding allow_login
allow_login-fresh key now a fresh = rw (allow_login, fresh) refl

fresh-Counted :
    (key : Text) (now : ℕ) (a : App)
    → auth_enabled a ≡ true
    → Counted a.secret_key key now 1
        (record_login_failure key now (record a { login_attempts = remove key a.login_attempts }))
unfolding record_login_failure auth_enabled
fresh-Counted key now a on = record {
  enabled = on;
  secret_is = refl;
  attempt =
      rw (lookup-remove_self key a.login_attempts)
        (lookup-insert_self key _ (remove key a.login_attempts));
}

-- The first wrong key of a client that has no failures on record.
first_wrong :
    (key : Text) (c : Call) (a : App)
    → auth_enabled a ≡ true
    → lookup key a.login_attempts ≡ none
    → IsWrong a.secret_key key c.now c
    → Counted a.secret_key key c.now 1 (handle_login c.request (some c.body) c.token c.now a).0
unfolding login_allowed check_secret
first_wrong key c a on fresh w =
    rw
      (
        handle_login_lem c.request c.body c.token c.now a on w.posted,
        w.client,
        allow_login-fresh key c.now a fresh,
        w.wrong,
      )
      (fresh-Counted key c.now a on)

-- After a client's first eight logins, all with a wrong key and within 15 minutes, or after more of
-- them, every further login of that client in these 15 minutes is refused unseen, whatever key it
-- sends, and changes nothing.
pub handle_login-locks :
    (key : Text) (c : Call) (calls : List Call) (a : App)
    → auth_enabled a ≡ true
    → lookup key a.login_attempts ≡ none
    → All (IsWrong a.secret_key key c.now) (c ∷ calls)
    → 8 ≤ length (c ∷ calls)
    → (r : Request) (body : LoginBody) (token : Text) (now : ℕ) → r.method ≡ post
    → client_ip r ≡ key
    → now < c.now + lockout
    → handle_login r (some body) token now (logins (c ∷ calls) a)
      ≡ (logins (c ∷ calls) a, too_many_requests)
handle_login-locks key c calls a on fresh (w, wrongs) enough r body token now posted client h =
    let counted = first_wrong key c a on fresh w in
    locked_lem a.secret_key key c.now r body token now (logins (c ∷ calls) a)
      (logins-Counted a.secret_key key c.now 1 calls _ counted (omega arith) wrongs (omega arith))
      posted client h
