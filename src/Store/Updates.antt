-- ===== src/Store/Updates.antt =====
-- internal/store/store.go: how the calls for one account end, and which rows they change.
use yyb_go.Prelude.{
  ℕ, ◌≡◌, refl, ap, ◌∙◌, ◌⊎◌, Bool, true, false, List, Option, some, arith, ◌==◌, ==_iff,
  Option-cases, inl, inr,
}
use yyb_go.Prelude.Text.{Text}
use yyb_go.Store.Rows.{
  find_where, find_where-holds, find_where-update_self, find_where-update_other, update_where,
}
use yyb_go.Store.Accounts.{
  has_id, get_account, scan_account, scan_row, marshal_nullable, marshalled, set_account_status,
  set_account_profile, set_account_credential,
}
use yyb_go.Store.Calls.{with_faults, execute_cases, query_cases}
use yyb_go.Store.{
  Json, AccountRow, Db, Error, engine, no_rows, Result, ok, err, Done, done, execute, and_then,
}

abbrev pub row_at : ℕ → Db → Option AccountRow
row_at id db = find_where (has_id id) db.accounts

-- `UPDATE wechat_accounts SET ... WHERE id=?`
abbrev pub updated : ℕ → (AccountRow → AccountRow) → Db → Db
updated id f db = record db { accounts = update_where (has_id id) f db.accounts }

pub row_at-updated :
    (id : ℕ) (f : AccountRow → AccountRow) (row : AccountRow) (db : Db)
    → ((r : AccountRow) → (f r).id ≡ r.id)
    → row_at id db ≡ some row
    → row_at id (updated id f db) ≡ some (f row)
row_at-updated id f row db keeps found =
    find_where-update_self (has_id id) f db.accounts row (λ r. ap (λ (i : ℕ). i == id) (keeps r))
      found

pub row_at-updated_other :
    (id j : ℕ) (f : AccountRow → AccountRow) (db : Db)
    → ¬ (j ≡ id)
    → ((r : AccountRow) → (f r).id ≡ r.id)
    → row_at j (updated id f db) ≡ row_at j db
row_at-updated_other id j f db apart keeps =
    find_where-update_other (has_id j) (has_id id) f db.accounts
      (λ r. ap (λ (i : ℕ). i == j) (keeps r)) (λ r here. other_id r.id here)
  where
    other_id : (i : ℕ) → (i == j) ≡ true → (i == id) ≡ false
    other_id i here = ground (arith, apart)

-- An error that left the rows as they were, or the update.
abbrev pub Updated : ℕ → (AccountRow → AccountRow) → Result Done × Db → Db → Type 0
Updated id f ended db =
    (fs : List Bool) × (((e : Error) × (ended ≡ (err e, with_faults fs db)))
      ⊎ (ended ≡ (ok done, updated id f (with_faults fs db))))

pub execute-Updated :
    (id : ℕ) (f : AccountRow → AccountRow) (db : Db)
    → Updated id f (execute (λ d. some (updated id f d)) db) db
execute-Updated id f db =
    let (fs, ends) = execute_cases (λ d. some (updated id f d)) db in
    elim ends [
      | inl failed ↦ (fs, inl (engine, failed))
      | inr (db', made, done_so) ↦
          let same : some (updated id f (with_faults fs db)) ≡ some db' = made in
          let is : db' ≡ updated id f (with_faults fs db) = cc in
          (fs, inr (done_so ∙ ap (λ (d : Db). (ok done, d)) is))
    ]

abbrev pub with_status : Text → ℕ → AccountRow → AccountRow
with_status status now row = record row {
  status = some status;
  last_checked_at = some now;
  updated_at = now;
}

abbrev pub with_credential : Text → Option Text → ℕ → AccountRow → AccountRow
with_credential login_buffer cred_json now row = record row {
  login_buffer = login_buffer;
  credentials = cred_json;
  updated_at = now;
}

abbrev pub with_profile : Option Text → Option Text → Option Text → ℕ → AccountRow → AccountRow
with_profile nickname avatar user_json now row = record row {
  nickname = nickname;
  avatar = avatar;
  user_info = user_json;
  updated_at = now;
}

pub set_account_status-Updated :
    (id : ℕ) (status : Text) (now : ℕ) (db : Db)
    → Updated id (with_status status now) (set_account_status id status now db) db
unfolding set_account_status
set_account_status-Updated id status now db = execute-Updated id (with_status status now) db

-- The same where a column is marshalled first.
abbrev pub UpdatedWith :
    Result (Option Text)
    → ℕ
    → (Option Text → AccountRow → AccountRow)
    → Result Done × Db
    → Db
    → Type 0
UpdatedWith column id f ended db =
    (fs : List Bool) × (((e : Error) × (ended ≡ (err e, with_faults fs db)))
      ⊎ ((t : Option Text) × (column ≡ ok t)
          × (ended ≡ (ok done, updated id (f t) (with_faults fs db)))))

marshalled-UpdatedWith :
    (id : ℕ) (f : Option Text → AccountRow → AccountRow) (column : Result (Option Text)) (db : Db)
    → UpdatedWith column id f
        (and_then (marshalled column db) (λ t. execute (λ d. some (updated id (f t) d))))
        db
marshalled-UpdatedWith id f (err e) db = (db.faults, inl (e, refl))
marshalled-UpdatedWith id f (ok t) db =
    let (fs, ends) = execute-Updated id (f t) db in
    elim ends [ inl failed ↦ (fs, inl failed) | inr set ↦ (fs, inr (t, refl, set)) ]

pub set_account_credential-Updated :
    {V : Type 0} (json : Json V) (id : ℕ) (login_buffer : Text) (credentials : Option V) (now : ℕ)
    (db : Db)
    → UpdatedWith
        (marshal_nullable json credentials)
        id
        (λ t. with_credential login_buffer t now)
        (set_account_credential json id login_buffer credentials now db)
        db
unfolding set_account_credential
set_account_credential-Updated json id login_buffer credentials now db =
    marshalled-UpdatedWith id (λ t. with_credential login_buffer t now)
      (marshal_nullable json credentials) db

pub set_account_profile-Updated :
    {V : Type 0} (json : Json V) (id : ℕ) (nickname avatar : Option Text) (user_info : Option V)
    (now : ℕ) (db : Db)
    → UpdatedWith
        (marshal_nullable json user_info)
        id
        (λ t. with_profile nickname avatar t now)
        (set_account_profile json id nickname avatar user_info now db)
        db
unfolding set_account_profile
set_account_profile-Updated json id nickname avatar user_info now db =
    marshalled-UpdatedWith id (λ t. with_profile nickname avatar t now)
      (marshal_nullable json user_info) db

-- A read of an account fails, or gives what stands in its row.
abbrev pub Loaded : {V : Type 0} → Json V → ℕ → Db → Type 0
Loaded json id db =
    (fs : List Bool) × (((e : Error) × (get_account json id db ≡ (err e, with_faults fs db)))
      ⊎ ((row : AccountRow) × (row_at id db ≡ some row)
          × (row.id ≡ id)
          × (get_account json id db ≡ (ok (scan_account json row), with_faults fs db))))

pub get_account-Loaded : {V : Type 0} (json : Json V) (id : ℕ) (db : Db) → Loaded json id db
unfolding get_account
get_account-Loaded json id db =
    let (fs, ends) = query_cases (λ (d : Db). scan_row json (row_at id d)) db in
    elim ends [
      | inl failed ↦ (fs, inl (engine, failed))
      | inr asked ↦ elim (Option-cases (row_at id db)) [
        | inl missing ↦ (fs, inl (no_rows, asked ∙ rw missing refl))
        | inr (row, found) ↦ (
          fs,
          inr (
            row,
            found,
            (==_iff row.id id).0 (find_where-holds (has_id id) db.accounts row found),
            asked ∙ rw found refl,
          ),
        )
      ]
    ]
