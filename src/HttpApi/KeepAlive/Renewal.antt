-- ===== src/HttpApi/KeepAlive/Renewal.antt =====
-- internal/httpapi/keepalive.go: what a refresh that succeeds leaves in the store.
use yyb_go.Prelude.{
  ℕ, ◌/◌, ◌≡◌, refl, ap, sym, ◌∙◌, subst, Bool, true, false, not, ◌&&◌, Option, none, some,
  Bool-cases, Option-cases, inl, inr, codes,
}
use yyb_go.Prelude.Outcome.{Outcome, ok as answered, err as refused, panic as crashed}
use yyb_go.Prelude.Text.{Text, text_eq}
use yyb_go.Protocol.Values.{Fields}
use yyb_go.Protocol.LoginBuffer.{
  LoginBufferCredentials, LoginBufferResult, credentials_from_map, to_map, refresh_login_buffer,
}
use yyb_go.Store.Accounts.{
  scan_account, marshal_nullable, set_account_status, set_account_credential,
}
use yyb_go.Store.Calls.{with_faults}
use yyb_go.Store.Updates.{
  row_at, row_at-updated, with_status, with_credential, with_profile, set_account_status-Updated,
  set_account_credential-Updated, set_account_profile-Updated, get_account-Loaded,
}
use yyb_go.Store.{AccountRow, WechatAccount, Db, Result, ok, err, Done, done}
use yyb_go.HttpApi.KeepAlive.{
  credentials_missing, of_remote, refresh_failure_status, Service, Refreshed, Failure,
  account_status, credentials_due_for_refresh, second, failure_with, picture, after_refresh,
  with_credentials, loaded, refresh_account, credential_set, status_set, set_avatar,
}

-- The account stands under the id with this login and this status.
abbrev pub HasLogin : ℕ → Text → Option Text → Text → Db → Type 0
HasLogin id login_buffer credentials status db =
    (row : AccountRow) × (row_at id db ≡ some row)
    × (row.login_buffer ≡ login_buffer)
    × (row.credentials ≡ credentials)
    × (row.status ≡ some status)

abbrev HasRow : ℕ → Text → Option Text → Db → Type 0
HasRow id login_buffer credentials db =
    (row : AccountRow) × (row_at id db ≡ some row)
    × (row.login_buffer ≡ login_buffer)
    × (row.credentials ≡ credentials)

abbrev pub IsRenewed : ℕ → Text → Option Text → Refreshed × Db → Type 0
IsRenewed id login_buffer credentials (r, db) =
    (r.status ≡ codes "alive")
    × (r.error ≡ none)
    × HasLogin id login_buffer credentials (codes "alive") db

module _ (s : Service) where
  set_avatar-HasLogin :
      (latest : WechatAccount Fields) (now : ℕ) (login_buffer status : Text)
      (credentials : Option Text) (db : Db)
      → HasLogin latest.id login_buffer credentials status db
      → HasLogin latest.id login_buffer credentials status (set_avatar s latest now db)
  unfolding set_avatar
  set_avatar-HasLogin latest now login_buffer status credentials db
        (row, found, is_buffer, is_credentials, is_status) =
      elim (Option-cases (picture (s.resolve_avatar latest.openid latest.user_info))) [
        | inl absent ↦ rw (set_avatar, absent) (row, found, is_buffer, is_credentials, is_status)
        | inr (avatar, there) ↦
            let (fs, ends) =
              set_account_profile-Updated s.json latest.id latest.nickname (some avatar)
                latest.user_info (now / second) db in
            elim ends [
              | inl (e, failed) ↦
                  rw (set_avatar, there, failed) (row, found, is_buffer, is_credentials, is_status)
              | inr (t, encoded, set) ↦
                  rw (set_avatar, there, set)
                    (
                      with_profile latest.nickname (some avatar) t (now / second) row,
                      row_at-updated latest.id _ row (with_faults fs db) (λ _. refl) found,
                      is_buffer,
                      is_credentials,
                      is_status,
                    )
            ]
      ]

  status_set-IsRenewed :
      (latest : WechatAccount Fields) (now : ℕ) (login_buffer : Text) (credentials : Option Text)
      (ended : Result Done × Db)
      → ((d : Db)
          → ended ≡ (ok done, d)
          → HasLogin latest.id login_buffer credentials (codes "alive") d)
      → (status_set s latest now ended).0.refreshed ≡ true
      → IsRenewed latest.id login_buffer credentials (status_set s latest now ended)
  status_set-IsRenewed latest now login_buffer credentials (ok done, d) has refreshed = (
    refl,
    refl,
    set_avatar-HasLogin latest now login_buffer (codes "alive") credentials d (has d refl),
  )
  status_set-IsRenewed latest now login_buffer credentials (err e, d) has refreshed = absurd (cc)

  -- The status is set on the row that holds the new login.
  set_status-HasLogin :
      (id now : ℕ) (row : AccountRow) (db d : Db)
      → row_at id db ≡ some row
      → set_account_status id (codes "alive") now db ≡ (ok done, d)
      → HasLogin id row.login_buffer row.credentials (codes "alive") d
  set_status-HasLogin id now row db d found e =
      let (fs, ends) = set_account_status-Updated id (codes "alive") now db in
      elim ends [
        | inl (why, failed) ↦ let result = sym failed ∙ e in absurd (cc)
        | inr set ↦
            subst
              (λ (r : Result Done × Db).
                HasLogin id row.login_buffer row.credentials (codes "alive") r.1)
              (sym set ∙ e)
              (
                with_status (codes "alive") now row,
                row_at-updated id _ row (with_faults fs db) (λ _. refl) found,
                refl,
                refl,
                refl,
              )
      ]

  credential_set-IsRenewed :
      (latest : WechatAccount Fields) (now : ℕ) (ended : Result Done × Db) (login_buffer : Text)
      (credentials : Option Text)
      → ((d : Db) → ended ≡ (ok done, d) → HasRow latest.id login_buffer credentials d)
      → (credential_set s latest now ended).0.refreshed ≡ true
      → IsRenewed latest.id login_buffer credentials (credential_set s latest now ended)
  credential_set-IsRenewed latest now (err e, d) login_buffer credentials has refreshed =
      absurd (cc)
  credential_set-IsRenewed latest now (ok done, d) login_buffer credentials has refreshed =
      let (row, found, is_buffer, is_credentials) = has d refl in
      status_set-IsRenewed latest now login_buffer credentials
        (set_account_status latest.id (codes "alive") (now / second) d)
        (λ d' set.
          rw⁻¹ (is_buffer, is_credentials)
            (set_status-HasLogin latest.id (now / second) row d d' found set))
        refreshed

  failure_with-refreshed :
      (status : Text) (why : Failure) (ended : Result Done × Db)
      → (failure_with status why ended).0.refreshed ≡ false
  failure_with-refreshed status why (ok _, db) = refl
  failure_with-refreshed status why (err e, db) = refl

  -- What the servers answered, and what was stored of it.
  abbrev pub Renews : ℕ → ℕ → LoginBufferCredentials → Refreshed × Db → Type 0
  Renews id now creds outcome =
      (result : LoginBufferResult) × (credentials : Option Text) × (refresh_login_buffer s.remote
          (now / second) creds
        ≡ answered result)
      × (marshal_nullable s.json (some (to_map (now / second) result.credentials)) ≡ ok credentials)
      × IsRenewed id result.login_buffer credentials outcome

  after_refresh-Renews :
      (latest : WechatAccount Fields) (creds : LoginBufferCredentials) (now : ℕ)
      (outcome : Outcome Text LoginBufferResult) (old : AccountRow) (db : Db)
      → refresh_login_buffer s.remote (now / second) creds ≡ outcome
      → row_at latest.id db ≡ some old
      → (after_refresh s latest creds now outcome db).0.refreshed ≡ true
      → Renews latest.id now creds (after_refresh s latest creds now outcome db)
  after_refresh-Renews latest creds now (refused message) old db is found refreshed =
      let status = refresh_failure_status s.lower (account_status latest) creds message now in
      let not_refreshed =
        failure_with-refreshed status (of_remote message)
          (set_account_status latest.id status (now / second) db) in
      absurd (cc)
  after_refresh-Renews latest creds now crashed old db is found refreshed = absurd (cc)
  after_refresh-Renews latest creds now (answered result) old db is found refreshed =
      let (fs, ends) =
        set_account_credential-Updated s.json latest.id result.login_buffer
          (some (to_map (now / second) result.credentials)) (now / second) db in
      elim ends [
        | inl (e, failed) ↦ let not_refreshed : false ≡ true = rw failed at refreshed in absurd (cc)
        | inr (t, encoded, set) ↦
            let (ok_status, no_error, login) =
              credential_set-IsRenewed latest now
                (set_account_credential s.json latest.id result.login_buffer
                  (some (to_map (now / second) result.credentials)) (now / second) db)
                result.login_buffer t
                (λ d ended.
                  subst (HasRow latest.id result.login_buffer t)
                    (ap (λ (r : Result Done × Db). r.1) (sym set ∙ ended))
                    (
                      with_credential result.login_buffer t (now / second) old,
                      row_at-updated latest.id _ old (with_faults fs db) (λ _. refl) found,
                      refl,
                      refl,
                    ))
                refreshed in
            (result, t, is, encoded, (ok_status, no_error, login))
      ]

  with_credentials-Renews :
      (latest : WechatAccount Fields) (now : ℕ) (force : Bool) (given : Option Fields)
      (old : AccountRow) (db : Db)
      → row_at latest.id db ≡ some old
      → (with_credentials s latest now force given db).0.refreshed ≡ true
      → (m : Fields) × (given ≡ some m)
        × Renews latest.id now
            (credentials_from_map m)
            (with_credentials s latest now force given db)
  with_credentials-Renews latest now force none old db found refreshed =
      let not_refreshed =
        failure_with-refreshed (codes "unknown") credentials_missing
          (set_account_status latest.id (codes "unknown") (now / second) db) in
      absurd (cc)
  with_credentials-Renews latest now force (some m) old db found refreshed =
      elim (Bool-cases (
        not force
        && not (credentials_due_for_refresh (credentials_from_map m) now s.keep_alive_ahead))) [
          | inl early ↦ let not_refreshed : false ≡ true = rw early at refreshed in absurd (cc)
          | inr due ↦ rw due (
            m,
            refl,
            after_refresh-Renews latest (credentials_from_map m) now
                (refresh_login_buffer s.remote (now / second) (credentials_from_map m)) old db refl
                found (rw due at refreshed),
          )
        ]

  loaded-Renews :
      (id now : ℕ) (force : Bool) (old : AccountRow) (db : Db)
      → row_at id db ≡ some old
      → old.id ≡ id
      → (loaded s now force (ok (scan_account s.json old), db)).0.refreshed ≡ true
      → (text_eq (account_status (scan_account s.json old)) (codes "expired") ≡ false)
        × ((m : Fields) × ((scan_account s.json old).credentials ≡ some m)
            × Renews id now
                (credentials_from_map m)
                (loaded s now force (ok (scan_account s.json old), db)))
  unfolding scan_account
  loaded-Renews id now force old db found is_id refreshed =
      elim (Bool-cases (text_eq (account_status (scan_account s.json old)) (codes "expired"))) [
        | inl expired ↦ let not_refreshed : false ≡ true = rw expired at refreshed in absurd (cc)
        | inr valid ↦
            let (m, given, renews) =
              with_credentials-Renews (scan_account s.json old) now force
                (scan_account s.json old).credentials old db
                (subst (λ (i : ℕ). row_at i db ≡ some old) (sym is_id) found)
                (rw valid at refreshed) in
            (
              valid,
              (
                m,
                given,
                rw valid (
                    subst
                      (λ (i : ℕ). Renews i now (credentials_from_map m) (
                        with_credentials s (scan_account s.json old) now force
                          (scan_account s.json old).credentials db))
                      is_id renews),
              ),
            )
      ]

  abbrev pub Renewal : ℕ → ℕ → Db → Refreshed × Db → Type 0
  Renewal id now db outcome =
      (old : AccountRow) × (row_at id db ≡ some old)
      × (text_eq (account_status (scan_account s.json old)) (codes "expired") ≡ false)
      × ((m : Fields) × ((scan_account s.json old).credentials ≡ some m)
          × Renews id now (credentials_from_map m) outcome)

  -- A refresh that reports the credentials as renewed has read an account that was not expired, has asked
  -- the servers with its credentials, and leaves the account with the login buffer and the credentials
  -- that they answered and with the status alive; it reports this status and no error.
  pub refresh_account-Renews :
      (id now : ℕ) (force : Bool) (db : Db)
      → (refresh_account s id now force db).0.refreshed ≡ true
      → Renewal id now db (refresh_account s id now force db)
  unfolding refresh_account
  refresh_account-Renews id now force db refreshed =
      let (fs, ends) = get_account-Loaded s.json id db in
      elim ends [
        | inl (e, failed) ↦
            let not_refreshed : false ≡ true = rw (refresh_account, failed) at refreshed in
            absurd (cc)
        | inr (old, found, is_id, read) ↦
            let (valid, (m, given, renews)) =
              loaded-Renews id now force old (with_faults fs db) found is_id
                (rw (refresh_account, read) at refreshed) in
            (old, found, valid, (m, given, rw (refresh_account, read) renews))
      ]
