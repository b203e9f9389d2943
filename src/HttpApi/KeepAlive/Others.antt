-- ===== src/HttpApi/KeepAlive/Others.antt =====
-- internal/httpapi/keepalive.go: what a refresh leaves of the other accounts.
use yyb_go.Prelude.{
  ℕ, ◌/◌, ◌≡◌, refl, ap, ◌∙◌, Bool, not, ◌&&◌, Option, none, some, Option-cases, inl, inr, codes,
  if-both,
}
use yyb_go.Prelude.Map.{nat_eq}
use yyb_go.Prelude.Outcome.{Outcome, ok as answered, err as refused, panic as crashed}
use yyb_go.Prelude.Text.{Text, text_eq}
use yyb_go.Protocol.Values.{Fields}
use yyb_go.Protocol.LoginBuffer.{
  LoginBufferResult, credentials_from_map, refresh_login_buffer, LoginBufferCredentials, to_map,
}
use yyb_go.Store.Accounts.{
  scan_account, set_account_status, set_account_credential, set_account_profile,
}
use yyb_go.Store.Calls.{with_faults}
use yyb_go.Store.Updates.{
  row_at, row_at-updated_other, set_account_status-Updated, set_account_credential-Updated,
  set_account_profile-Updated, get_account-Loaded,
}
use yyb_go.Store.{WechatAccount, Db, Result, ok, err, Done}
use yyb_go.HttpApi.KeepAlive.{
  Service, Refreshed, Failure, of_remote, credentials_missing, account_status,
  credentials_due_for_refresh, refresh_failure_status, second, failure_with, after_refresh, picture,
  set_avatar, with_credentials, refresh_account, status_set, credential_set,
}
use yyb_go.HttpApi.KeepAlive.Failures.{failure_with-db}

-- The calls for one account leave the row of another.
module _ (s : Service) (j : ℕ) where
  set_account_status-Leaves :
      (id : ℕ) (status : Text) (now : ℕ) (db : Db)
      → ¬ (j ≡ id)
      → row_at j (set_account_status id status now db).1 ≡ row_at j db
  set_account_status-Leaves id status now db apart =
      let (fs, ends) = set_account_status-Updated id status now db in
      elim ends [
        | inl (e, failed) ↦ rw failed refl
        | inr set ↦ rw set (row_at-updated_other id j _ (with_faults fs db) apart (λ _. refl))
      ]

  set_account_credential-Leaves :
      (id : ℕ) (login_buffer : Text) (credentials : Option Fields) (now : ℕ) (db : Db)
      → ¬ (j ≡ id)
      → row_at j (set_account_credential s.json id login_buffer credentials now db).1 ≡ row_at j db
  set_account_credential-Leaves id login_buffer credentials now db apart =
      let (fs, ends) = set_account_credential-Updated s.json id login_buffer credentials now db in
      elim ends [
        | inl (e, failed) ↦ rw failed refl
        | inr (t, encoded, set) ↦
            rw set (row_at-updated_other id j _ (with_faults fs db) apart (λ _. refl))
      ]

  set_account_profile-Leaves :
      (id : ℕ) (nickname avatar : Option Text) (user_info : Option Fields) (now : ℕ) (db : Db)
      → ¬ (j ≡ id)
      → row_at j (set_account_profile s.json id nickname avatar user_info now db).1 ≡ row_at j db
  set_account_profile-Leaves id nickname avatar user_info now db apart =
      let (fs, ends) = set_account_profile-Updated s.json id nickname avatar user_info now db in
      elim ends [
        | inl (e, failed) ↦ rw failed refl
        | inr (t, encoded, set) ↦
            rw set (row_at-updated_other id j _ (with_faults fs db) apart (λ _. refl))
      ]

  set_avatar-Leaves :
      (latest : WechatAccount Fields) (now : ℕ) (db : Db)
      → ¬ (j ≡ latest.id)
      → row_at j (set_avatar s latest now db) ≡ row_at j db
  unfolding set_avatar
  set_avatar-Leaves latest now db apart =
      elim (Option-cases (picture (s.resolve_avatar latest.openid latest.user_info))) [
        | inl absent ↦ rw (set_avatar, absent) refl
        | inr (avatar, there) ↦
            rw (set_avatar, there)
              (set_account_profile-Leaves latest.id latest.nickname (some avatar) latest.user_info
                (now / second) db apart)
      ]

  status_set-Leaves :
      (latest : WechatAccount Fields) (now : ℕ) (ended : Result Done × Db)
      → ¬ (j ≡ latest.id)
      → row_at j (status_set s latest now ended).1 ≡ row_at j ended.1
  status_set-Leaves latest now (ok _, db) apart = set_avatar-Leaves latest now db apart
  status_set-Leaves latest now (err e, db) apart = refl

  credential_set-Leaves :
      (latest : WechatAccount Fields) (now : ℕ) (ended : Result Done × Db)
      → ¬ (j ≡ latest.id)
      → row_at j (credential_set s latest now ended).1 ≡ row_at j ended.1
  credential_set-Leaves latest now (err e, db) apart = refl
  credential_set-Leaves latest now (ok _, db) apart =
      status_set-Leaves latest now (set_account_status latest.id (codes "alive") (now / second) db)
        apart
      ∙ set_account_status-Leaves latest.id (codes "alive") (now / second) db apart

  failure-Leaves :
      (id : ℕ) (status : Text) (why : Failure) (now : ℕ) (db : Db)
      → ¬ (j ≡ id)
      → row_at j (failure_with status why (set_account_status id status now db)).1 ≡ row_at j db
  failure-Leaves id status why now db apart =
      ap (row_at j) (failure_with-db status why (set_account_status id status now db))
      ∙ set_account_status-Leaves id status now db apart

  after_refresh-Leaves :
      (latest : WechatAccount Fields) (creds : LoginBufferCredentials) (now : ℕ)
      (outcome : Outcome Text LoginBufferResult) (db : Db)
      → ¬ (j ≡ latest.id)
      → row_at j (after_refresh s latest creds now outcome db).1 ≡ row_at j db
  after_refresh-Leaves latest creds now (answered result) db apart =
      credential_set-Leaves latest now
        (set_account_credential s.json latest.id result.login_buffer
          (some (to_map (now / second) result.credentials)) (now / second) db)
        apart
      ∙ set_account_credential-Leaves latest.id result.login_buffer
          (some (to_map (now / second) result.credentials)) (now / second) db apart
  after_refresh-Leaves latest creds now (refused message) db apart =
      failure-Leaves latest.id
        (refresh_failure_status s.lower (account_status latest) creds message now)
        (of_remote message) (now / second) db apart
  after_refresh-Leaves latest creds now crashed db apart = refl

  with_credentials-Leaves :
      (latest : WechatAccount Fields) (now : ℕ) (force : Bool) (given : Option Fields) (db : Db)
      → ¬ (j ≡ latest.id)
      → row_at j (with_credentials s latest now force given db).1 ≡ row_at j db
  with_credentials-Leaves latest now force none db apart =
      failure-Leaves latest.id (codes "unknown") credentials_missing (now / second) db apart
  with_credentials-Leaves latest now force (some m) db apart =
      if-both (λ (r : Refreshed × Db). row_at j r.1 ≡ row_at j db)
        (not force
          && not (credentials_due_for_refresh (credentials_from_map m) now s.keep_alive_ahead))
        (λ _. refl)
        (λ _.
          after_refresh-Leaves latest (credentials_from_map m) now
            (refresh_login_buffer s.remote (now / second) (credentials_from_map m)) db apart)

  pub refresh_account-Leaves :
      (id now : ℕ) (force : Bool) (db : Db)
      → ¬ (j ≡ id)
      → row_at j (refresh_account s id now force db).1 ≡ row_at j db
  unfolding refresh_account scan_account
  refresh_account-Leaves id now force db apart =
      let (fs, ends) = get_account-Loaded s.json id db in
      elim ends [
        | inl (e, failed) ↦ rw (refresh_account, failed) refl
        | inr (row, there, is_id, read) ↦
            rw (refresh_account, read)
              (if-both (λ (r : Refreshed × Db). row_at j r.1 ≡ row_at j db)
                (text_eq (account_status (scan_account s.json row)) (codes "expired")) (λ _. refl)
                (λ _.
                  with_credentials-Leaves (scan_account s.json row) now force
                    (scan_account s.json row).credentials (with_faults fs db)
                    (λ e. apart (e ∙ is_id))))
      ]
