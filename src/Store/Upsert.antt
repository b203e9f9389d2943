-- ===== src/Store/Upsert.antt =====
-- internal/store/store.go: what UpsertAccount leaves in the table.
use yyb_go.Prelude.{
  ℕ, ◌≡◌, refl, ap, sym, ◌∙◌, subst, true, false, Option, none, some, arith, Option-cases,
  Bool-cases, inl, inr,
}
use yyb_go.Prelude.Text.{Text, text_eq, text_eq_iff}
use yyb_go.Store.Rows.{
  find_where, find_where-holds, find_where-append, find_where-append_other, find_where-update_self,
  find_where-update_other,
}
use yyb_go.Store.Accounts.{
  has_openid, marshal_nullable, marshalled, new_row, upserted_row, upsert_row, upsert_account,
  scan_account, scan_row, read_column, get_account_by_openid,
}
use yyb_go.Store.Calls.{with_faults, execute-ok, query-ok, and_then-ok}
use yyb_go.Store.{
  Json, AccountRow, WechatAccount, Db, Result, ok, err, Done, done, execute, and_then, Action,
  ◌>>=◌, ◌>>◌,
}

abbrev row_of : Text → Db → Option AccountRow
row_of openid db = find_where (has_openid openid) db.accounts

-- The row that stands under the openid behind the statement: the new one, or the old one with its id,
-- its uin and the time of its creation.
abbrev pub Upserted : AccountRow → Option AccountRow → AccountRow → Type 0
Upserted new none row = row ≡ new
Upserted new (some old) row = row ≡ upserted_row new old

abbrev Stored : AccountRow → Db → Option Db → Type 0
Stored new db none = Unit
Stored new db (some db') =
    ((row : AccountRow) × (row_of new.openid db' ≡ some row)
      × Upserted new (row_of new.openid db) row)
    × ((other : Text) → ¬ (other ≡ new.openid) → row_of other db' ≡ row_of other db)

text_refl : (s : Text) → text_eq s s ≡ true
text_refl s = (text_eq_iff s s).1 refl

other_openid :
    (row : AccountRow) (openid other : Text)
    → ¬ (other ≡ openid)
    → text_eq row.openid other ≡ true
    → text_eq row.openid openid ≡ false
other_openid row openid other apart same = elim (Bool-cases (text_eq row.openid openid)) [
  | inl both ↦
      absurd (
        apart
          (sym ((text_eq_iff row.openid other).0 same) ∙ (text_eq_iff row.openid openid).0 both))
  | inr differs ↦ differs
]

upsert_row-Stored : (new : AccountRow) (db : Db) → Stored new db (upsert_row new.id new db)
unfolding upsert_row
upsert_row-Stored new db = elim (Option-cases (row_of new.openid db)) [
  | inl unknown ↦
      rw (upsert_row, unknown)
        (
          (
            new,
            find_where-append (has_openid new.openid) db.accounts new unknown
                (text_refl new.openid),
            rw unknown refl,
          ),
          λ other apart.
              find_where-append_other (has_openid other) db.accounts new (not_new other apart),
        )
  | inr (old, known) ↦
      rw (upsert_row, known)
        (
          (
            upserted_row new old,
            find_where-update_self (has_openid new.openid) (upserted_row new) db.accounts old
                (λ _. refl) known,
            rw known refl,
          ),
          λ other apart.
              find_where-update_other (has_openid other) (has_openid new.openid) (upserted_row new)
                db.accounts (λ _. refl) (λ row here. other_openid row new.openid other apart here),
        )
]
  where
    not_new : (other : Text) → ¬ (other ≡ new.openid) → text_eq new.openid other ≡ false
    not_new other apart = ground (arith, text_eq_iff new.openid other, apart)

marshalled-ok {ℓ} :
    {A : Type ℓ} (column : Result (Option Text)) (next : Option Text → Action A) (a : A)
    (db db' : Db)
    → and_then (marshalled column db) next ≡ (ok a, db')
    → (text : Option Text) × (column ≡ ok text) × (next text db ≡ (ok a, db'))
marshalled-ok (ok text) next a db db' e = (text, refl, e)
marshalled-ok (err _) next a db db' e = absurd (cc)

scan_row-ok :
    {V : Type 0} (json : Json V) (found : Option AccountRow) (row : AccountRow)
    (account : WechatAccount V)
    → found ≡ some row
    → scan_row json found ≡ ok account
    → account ≡ scan_account json row
scan_row-ok json found row account e scanned =
    let result : ok (scan_account json row) ≡ ok account = sym (rw e refl) ∙ scanned in cc

abbrev put_account : {V : Type 0} → Json V → AccountRow → Action (WechatAccount V)
put_account json new = execute (upsert_row new.id new) >> get_account_by_openid json new.openid

put_account-Stores :
    {V : Type 0} (json : Json V) (new : AccountRow) (account : WechatAccount V) (db db' : Db)
    → put_account json new db ≡ (ok account, db')
    → (row : AccountRow) × (row_of new.openid db' ≡ some row)
      × Upserted new (row_of new.openid db) row
      × (account ≡ scan_account json row)
      × ((other : Text) → ¬ (other ≡ new.openid) → row_of other db' ≡ row_of other db)
unfolding get_account_by_openid
put_account-Stores json new account db db' e =
    let (_, db1, stored, read) =
      and_then-ok (execute (upsert_row new.id new) db) (λ _. get_account_by_openid json new.openid)
        account db' e in
    let (fs, made) = execute-ok (upsert_row new.id new) db db1 (done_so db1 stored) in
    let (gs, behind, found) =
      query-ok (λ (d : Db). scan_row json (row_of new.openid d)) account db1 db' read in
    let ((row, there, upserted), others) =
      subst (Stored new (with_faults fs db)) made (upsert_row-Stored new (with_faults fs db)) in
    (
      row,
      ap (row_of new.openid) behind ∙ there,
      upserted,
      scan_row-ok json (row_of new.openid db1) row account there found,
      λ other apart. ap (row_of other) behind ∙ others other apart,
    )
  where
    done_so :
        {d : Done} (db1 : Db)
        → execute (upsert_row new.id new) db ≡ (ok d, db1)
        → execute (upsert_row new.id new) db ≡ (ok done, db1)
    done_so {d = done} db1 stored = stored

-- What an upsert keeps of the row that was there; a new row has the id that was drawn.
abbrev pub Keeps : {V : Type 0} → ℕ → ℕ → Option AccountRow → WechatAccount V → Type 0
Keeps drawn now none account =
    (account.id ≡ drawn)
    × (account.uin ≡ none)
    × (account.last_checked_at ≡ none)
    × (account.created_at ≡ now)
Keeps drawn now (some old) account =
    (account.id ≡ old.id)
    × (account.uin ≡ old.uin)
    × (account.last_checked_at ≡ old.last_checked_at)
    × (account.created_at ≡ old.created_at)

module _ {V : Type 0} (json : Json V) (drawn : ℕ) (openid login_buffer : Text)
    (alias nickname avatar : Option Text) where
  -- The account as it was given, but for what is kept of the old row.
  pub record IsAnswer (user_json cred_json status : Option Text) (now : ℕ) (old : Option AccountRow)
      (account : WechatAccount V) : Type 0 where
    pub openid_given : account.openid ≡ openid
    pub login_buffer_given : account.login_buffer ≡ login_buffer
    pub alias_given : account.alias ≡ alias
    pub nickname_given : account.nickname ≡ nickname
    pub avatar_given : account.avatar ≡ avatar
    pub user_info_given : account.user_info ≡ read_column json user_json
    pub credentials_given : account.credentials ≡ read_column json cred_json
    pub status_given : account.status ≡ status
    pub updated_now : account.updated_at ≡ now
    pub keeps : Keeps drawn now old account

  stored-IsAnswer :
      (user_json cred_json status : Option Text) (now : ℕ) (old : Option AccountRow)
      (stored : AccountRow)
      → ((row : AccountRow) → old ≡ some row → row.openid ≡ openid)
      → Upserted
          (new_row drawn openid login_buffer alias nickname avatar user_json cred_json status now)
          old
          stored
      → IsAnswer user_json cred_json status now old (scan_account json stored)
  unfolding scan_account
  stored-IsAnswer user_json cred_json status now none stored known is =
      subst (λ r. IsAnswer user_json cred_json status now none (scan_account json r)) (sym is)
        (record {
          openid_given = refl;
          login_buffer_given = refl;
          alias_given = refl;
          nickname_given = refl;
          avatar_given = refl;
          user_info_given = refl;
          credentials_given = refl;
          status_given = refl;
          updated_now = refl;
          keeps = (refl, refl, refl, refl);
        })
  stored-IsAnswer user_json cred_json status now (some old) stored known is =
      subst (λ r. IsAnswer user_json cred_json status now (some old) (scan_account json r)) (sym is)
        (record {
          openid_given = known old refl;
          login_buffer_given = refl;
          alias_given = refl;
          nickname_given = refl;
          avatar_given = refl;
          user_info_given = refl;
          credentials_given = refl;
          status_given = refl;
          updated_now = refl;
          keeps = (refl, refl, refl, refl);
        })

  abbrev pub Answers : Option V → Option V → Option Text → ℕ → WechatAccount V → Db → Db → Type 0
  Answers user_info credentials status now account db db' =
      (user_json cred_json : Option Text) × (marshal_nullable json user_info ≡ ok user_json)
      × (marshal_nullable json credentials ≡ ok cred_json)
      × (row : AccountRow) × (row_of openid db' ≡ some row)
      × (account ≡ scan_account json row)
      × IsAnswer user_json cred_json status now (row_of openid db) account
      × ((other : Text) → ¬ (other ≡ openid) → row_of other db' ≡ row_of other db)

-- An UpsertAccount that succeeds answers the account that it has stored under the openid, with everything
-- as it was given and the time of the call: a new row with the id that was drawn, or the row that was
-- there, of which the id, the uin, the time of the last check and the time of the creation are kept. The
-- two maps are as JSON gives them back. The rows of all other openids stay as they were.
pub upsert_account-Stores :
    {V : Type 0} (json : Json V) (drawn : ℕ) (openid login_buffer : Text)
    (alias nickname avatar : Option Text) (user_info credentials : Option V) (status : Option Text)
    (now : ℕ) (account : WechatAccount V) (db db' : Db)
    → upsert_account json drawn openid login_buffer alias nickname avatar user_info credentials
        status now db
      ≡ (ok account, db')
    → Answers json drawn openid login_buffer alias nickname avatar user_info credentials status now
        account db db'
unfolding upsert_account get_account_by_openid
upsert_account-Stores json drawn openid login_buffer alias nickname avatar user_info credentials
      status now account db db' e =
    let (user_json, is_user, e1) =
      marshalled-ok (marshal_nullable json user_info)
        (λ user_json. marshalled (marshal_nullable json credentials) >>= λ cred_json.
          put_account json (row user_json cred_json))
        account db db' e in
    let (cred_json, is_cred, e2) =
      marshalled-ok (marshal_nullable json credentials)
        (λ cred_json. put_account json (row user_json cred_json)) account db db' e1 in
    let (stored, there, upserted, is_it, others) =
      put_account-Stores json (row user_json cred_json) account db db' e2 in
    let answer =
      stored-IsAnswer json drawn openid login_buffer alias nickname avatar user_json cred_json
        status now (row_of openid db) stored known upserted in
    (
      user_json,
      cred_json,
      is_user,
      is_cred,
      stored,
      there,
      is_it,
      subst
          (IsAnswer json drawn openid login_buffer alias nickname avatar user_json cred_json status
            now (row_of openid db))
          (sym is_it) answer,
      others,
    )
  where
    row : Option Text → Option Text → AccountRow
    row user_json cred_json =
        new_row drawn openid login_buffer alias nickname avatar user_json cred_json status now

    known : (old : AccountRow) → row_of openid db ≡ some old → old.openid ≡ openid
    known old found =
        (text_eq_iff old.openid openid).0
          (find_where-holds (has_openid openid) db.accounts old found)
