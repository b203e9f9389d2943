-- ===== src/HttpApi/KeepAlive/Failures.antt =====
-- internal/httpapi/keepalive.go: what a refresh that the servers refuse leaves in the store.
use yyb_go.Prelude.{
  ℕ, ◌/◌, ◌≡◌, refl, ap, sym, ◌∙◌, subst, ◌⊎◌, Bool, false, not, ◌&&◌, Option, none, some, [], ◌∷◌,
  Bool-cases, inl, inr, codes,
}
use yyb_go.Prelude.Outcome.{err as refused}
use yyb_go.Prelude.Text.{Text, text_eq}
use yyb_go.Protocol.Values.{Fields}
use yyb_go.Protocol.LoginBuffer.{credentials_from_map, refresh_login_buffer}
use yyb_go.Store.Accounts.{scan_account, set_account_status}
use yyb_go.Store.Calls.{with_faults}
use yyb_go.Store.Updates.{
  row_at, row_at-updated, with_status, set_account_status-Updated, get_account-Loaded,
}
use yyb_go.Store.{AccountRow, Db, Result, ok, err, Done}
use yyb_go.HttpApi.KeepAlive.{
  Service, Refreshed, Failure, of_remote, account_status, status_text, credentials_due_for_refresh,
  refresh_failure_status, definitive_refresh_message, reached, second, failure_with,
  with_credentials, loaded, refresh_account,
}

-- The account is still there with its login, and with its status or the given one.
abbrev pub StillThere : ℕ → AccountRow → Text → Db → Type 0
StillThere id old status db =
    (row : AccountRow) × (row_at id db ≡ some row)
    × (row.login_buffer ≡ old.login_buffer)
    × (row.credentials ≡ old.credentials)
    × ((row.status ≡ old.status) ⊎ (row.status ≡ some status))

same-StillThere :
    (id : ℕ) (old : AccountRow) (status : Text) (db : Db)
    → row_at id db ≡ some old
    → StillThere id old status db
same-StillThere id old status db found = (old, found, refl, refl, inl refl)

set_account_status-StillThere :
    (id : ℕ) (status : Text) (now : ℕ) (old : AccountRow) (db : Db)
    → row_at id db ≡ some old
    → StillThere id old status (set_account_status id status now db).1
set_account_status-StillThere id status now old db found =
    let (fs, ends) = set_account_status-Updated id status now db in
    elim ends [
      | inl (e, failed) ↦ rw failed (same-StillThere id old status (with_faults fs db) found)
      | inr set ↦ rw set (
        with_status status now old,
        row_at-updated id (with_status status now) old (with_faults fs db) (λ _. refl) found,
        refl,
        refl,
        inr refl,
      )
    ]

pub failure_with-db :
    (status : Text) (why : Failure) (ended : Result Done × Db)
    → (failure_with status why ended).1 ≡ ended.1
failure_with-db status why (ok _, db) = refl
failure_with-db status why (err e, db) = refl

failure_with-refreshed :
    (status : Text) (why : Failure) (ended : Result Done × Db)
    → (failure_with status why ended).0.refreshed ≡ false
failure_with-refreshed status why (ok _, db) = refl
failure_with-refreshed status why (err e, db) = refl

module _ (s : Service) where
  -- The status that the failure gives to the account.
  abbrev failed_status : AccountRow → Fields → Text → ℕ → Text
  failed_status old m message now =
      refresh_failure_status s.lower (status_text old.status) (credentials_from_map m) message now

  abbrev pub Refuses : ℕ → AccountRow → Text → Refreshed × Db → Type 0
  Refuses id old status (r, db) = (r.refreshed ≡ false) × StillThere id old status db

  with_credentials-Refuses :
      (now : ℕ) (force : Bool) (m : Fields) (message : Text) (old : AccountRow) (db : Db)
      → refresh_login_buffer s.remote (now / second) (credentials_from_map m) ≡ refused message
      → row_at old.id db ≡ some old
      → Refuses old.id old
          (failed_status old m message now)
          (with_credentials s (scan_account s.json old) now force (some m) db)
  unfolding scan_account
  with_credentials-Refuses now force m message old db is_refused found =
      elim (Bool-cases (
        not force
        && not (credentials_due_for_refresh (credentials_from_map m) now s.keep_alive_ahead))) [
          | inl early ↦
              rw early (refl, same-StillThere old.id old (failed_status old m message now) db found)
          | inr due ↦
              let status = failed_status old m message now in
              rw (due, is_refused)
                (
                  failure_with-refreshed status (of_remote message)
                      (set_account_status old.id status (now / second) db),
                  rw
                      (failure_with-db status (of_remote message)
                        (set_account_status old.id status (now / second) db))
                      (set_account_status-StillThere old.id status (now / second) old db found),
                )
        ]

  loaded-Refuses :
      (now : ℕ) (force : Bool) (m : Fields) (message : Text) (old : AccountRow) (db : Db)
      → refresh_login_buffer s.remote (now / second) (credentials_from_map m) ≡ refused message
      → (scan_account s.json old).credentials ≡ some m
      → row_at old.id db ≡ some old
      → Refuses old.id old
          (failed_status old m message now)
          (loaded s now force (ok (scan_account s.json old), db))
  loaded-Refuses now force m message old db is_refused given found =
      elim (Bool-cases (text_eq (account_status (scan_account s.json old)) (codes "expired"))) [
        | inl expired ↦
            rw expired (refl, same-StillThere old.id old (failed_status old m message now) db found)
        | inr valid ↦ rw valid (
            subst
              (λ c.
                Refuses old.id old (failed_status old m message now)
                  (with_credentials s (scan_account s.json old) now force c db))
              (sym given) (with_credentials-Refuses now force m message old db is_refused found))
      ]

  refresh_account-Refuses :
      (now : ℕ) (force : Bool) (m : Fields) (message : Text) (old : AccountRow) (db : Db)
      → refresh_login_buffer s.remote (now / second) (credentials_from_map m) ≡ refused message
      → (scan_account s.json old).credentials ≡ some m
      → row_at old.id db ≡ some old
      → Refuses old.id old (failed_status old m message now) (refresh_account s old.id now force db)
  unfolding refresh_account
  refresh_account-Refuses now force m message old db is_refused given found =
      let (fs, ends) = get_account-Loaded s.json old.id db in
      elim ends [
        | inl (e, failed) ↦
            rw (refresh_account, failed)
              (
                refl,
                same-StillThere old.id old (failed_status old m message now) (with_faults fs db)
                    found,
              )
        | inr (row, there, is_id, read) ↦
            let same : some row ≡ some old = sym there ∙ found in
            let is_old : row ≡ old = cc in
            rw (refresh_account, read)
              (subst
                (λ r.
                  Refuses old.id old (failed_status old m message now)
                    (loaded s now force (ok (scan_account s.json r), with_faults fs db)))
                (sym is_old)
                (loaded-Refuses now force m message old (with_faults fs db) is_refused given found))
      ]

  status_text_again :
      (status : Option Text) → status_text (some (status_text status)) ≡ status_text status
  status_text_again none = refl
  status_text_again (some []) = refl
  status_text_again (some (c ∷ t)) = refl

  abbrev pub Kept : AccountRow → Refreshed × Db → Type 0
  Kept old outcome =
      (outcome.0.refreshed ≡ false)
      × ((row : AccountRow) × (row_at old.id outcome.1 ≡ some row)
          × (row.login_buffer ≡ old.login_buffer)
          × (row.credentials ≡ old.credentials)
          × (status_text row.status ≡ status_text old.status))

  -- If the servers refuse the refresh of an account with a message that does not say that the login is
  -- gone, and its credentials have not expired, then the account keeps its login buffer, its credentials
  -- and its status, whatever the store does, and the refresh is not reported as done.
  pub refresh_account-keeps :
      (now : ℕ) (force : Bool) (m : Fields) (message : Text) (old : AccountRow) (db : Db)
      → refresh_login_buffer s.remote (now / second) (credentials_from_map m) ≡ refused message
      → (scan_account s.json old).credentials ≡ some m
      → row_at old.id db ≡ some old
      → definitive_refresh_message s.lower message ≡ false
      → reached (now / second) (credentials_from_map m).expires_at ≡ false
      → Kept old (refresh_account s old.id now force db)
  unfolding refresh_failure_status
  refresh_account-keeps now force m message old db is_refused given found passing valid =
      let (not_refreshed, (row, there, same_buffer, same_credentials, ends)) =
        refresh_account-Refuses now force m message old db is_refused given found in
      let kept : failed_status old m message now ≡ status_text old.status =
        rw (passing, valid) refl in
      (
        not_refreshed,
        (
          row,
          there,
          same_buffer,
          same_credentials,
          elim ends [
            | inl same ↦ ap status_text same
            | inr set ↦ ap status_text (set ∙ ap some kept) ∙ status_text_again old.status
          ],
        ),
      )
