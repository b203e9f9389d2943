-- ===== src/Store/Accounts.antt =====
-- internal/store/store.go: the table of the accounts.
use yyb_go.Prelude.{
  ℕ, Bool, false, List, [], ◌∷◌, ◌++◌, Option, none, some, leb, ◌==◌, if◌then◌else◌,
}
use yyb_go.Prelude.Text.{Text, text_eq}
use yyb_go.Store.Rows.{update_where, find_where}
use yyb_go.Store.{
  Json, AccountRow, WechatAccount, AccountPublic, AccountPublic, Db, no_rows, unsupported, Result,
  ok, err, Done, Action, ◌>>=◌, ◌>>◌, pure, fail, execute, query,
}

abbrev pub has_id : ℕ → AccountRow → Bool
has_id id row = row.id == id

abbrev pub has_openid : Text → AccountRow → Bool
has_openid openid row = text_eq row.openid openid

abbrev pub has_uin : ℕ → AccountRow → Bool
has_uin uin row = elim row.uin [ none ↦ false | some u ↦ u == uin ]

-- `DO UPDATE SET`
abbrev pub upserted_row : AccountRow → AccountRow → AccountRow
upserted_row new row = record row {
  login_buffer = new.login_buffer;
  alias = new.alias;
  nickname = new.nickname;
  avatar = new.avatar;
  user_info = new.user_info;
  credentials = new.credentials;
  status = new.status;
  updated_at = new.updated_at;
}

-- The statement of UpsertAccount. `drawn` is the id that AUTOINCREMENT gives to a new row;
-- it counts as given where there is a row with the openid.
unfoldable pub upsert_row : ℕ → AccountRow → Db → Option Db
upsert_row drawn new db = elim (find_where (has_openid new.openid) db.accounts) [
  | none ↦ some (record db { accounts = db.accounts ++ new ∷ []; account_sequence = drawn })
  | some _ ↦ some (record db {
    accounts = update_where (has_openid new.openid) (upserted_row new) db.accounts;
    account_sequence = drawn;
  })
]

abbrev pub new_row :
    ℕ
    → Text
    → Text
    → Option Text
    → Option Text
    → Option Text
    → Option Text
    → Option Text
    → Option Text
    → ℕ
    → AccountRow
new_row drawn openid login_buffer alias nickname avatar user_json cred_json status now = record {
  id = drawn;
  openid = openid;
  uin = none;
  alias = alias;
  nickname = nickname;
  avatar = avatar;
  user_info = user_json;
  login_buffer = login_buffer;
  credentials = cred_json;
  status = status;
  last_checked_at = none;
  created_at = now;
  updated_at = now;
}

abbrev pub marshalled : Result (Option Text) → Action (Option Text)
marshalled (ok text) = pure text
marshalled (err e) = fail e

-- `ORDER BY id`
unfoldable pub insert_by_id : AccountRow → List AccountRow → List AccountRow
insert_by_id row [] = row ∷ []
insert_by_id row (next ∷ rows) =
    if leb row.id next.id then row ∷ next ∷ rows else next ∷ insert_by_id row rows

unfoldable pub order_by_id : List AccountRow → List AccountRow
order_by_id [] = []
order_by_id (row ∷ rows) = insert_by_id row (order_by_id rows)

module _ {V : Type 0} (json : Json V) where
  -- marshalNullable: a nil map is NULL.
  unfoldable pub marshal_nullable : Option V → Result (Option Text)
  marshal_nullable none = ok none
  marshal_nullable (some v) = elim (json.marshal (some v)) [
    | none ↦ err unsupported
    | some text ↦ ok (some text)
  ]

  -- The error of Unmarshal is dropped, and the map stays nil.
  unfoldable pub read_column : Option Text → Option V
  read_column none = none
  read_column (some []) = none
  read_column (some (c ∷ text)) = elim (json.unmarshal (c ∷ text)) [
    | none ↦ none
    | some decoded ↦ decoded
  ]

  unfoldable pub scan_account : AccountRow → WechatAccount V
  scan_account row = record {
    id = row.id;
    openid = row.openid;
    uin = row.uin;
    alias = row.alias;
    nickname = row.nickname;
    avatar = row.avatar;
    user_info = read_column row.user_info;
    login_buffer = row.login_buffer;
    credentials = read_column row.credentials;
    status = row.status;
    last_checked_at = row.last_checked_at;
    created_at = row.created_at;
    updated_at = row.updated_at;
  }

  abbrev pub scan_row : Option AccountRow → Result (WechatAccount V)
  scan_row none = err no_rows
  scan_row (some row) = ok (scan_account row)

  unfoldable pub get_account : ℕ → Action (WechatAccount V)
  get_account id = query (λ db. scan_row (find_where (has_id id) db.accounts))

  unfoldable pub get_account_by_openid : Text → Action (WechatAccount V)
  get_account_by_openid openid = query (λ db. scan_row (find_where (has_openid openid) db.accounts))

  unfoldable pub get_account_by_uin : ℕ → Action (WechatAccount V)
  get_account_by_uin uin = query (λ db. scan_row (find_where (has_uin uin) db.accounts))

  unfoldable pub upsert_account :
      ℕ
      → Text
      → Text
      → Option Text
      → Option Text
      → Option Text
      → Option V
      → Option V
      → Option Text
      → ℕ
      → Action (WechatAccount V)
  upsert_account drawn openid login_buffer alias nickname avatar user_info credentials status now =
      do
        user_json ← marshalled (marshal_nullable user_info)
        cred_json ← marshalled (marshal_nullable credentials)
        execute (
            upsert_row drawn (
              new_row drawn openid login_buffer alias nickname avatar user_json cred_json status
                now))
        get_account_by_openid openid

  unfoldable pub set_account_profile : ℕ → Option Text → Option Text → Option V → ℕ → Action Done
  set_account_profile id nickname avatar user_info now = do
    user_json ← marshalled (marshal_nullable user_info)
    execute (λ db. some (record db {
      accounts =
          update_where (has_id id)
            (λ row. record row {
              nickname = nickname;
              avatar = avatar;
              user_info = user_json;
              updated_at = now;
            })
            db.accounts;
    }))

  unfoldable pub set_account_credential : ℕ → Text → Option V → ℕ → Action Done
  set_account_credential id login_buffer credentials now = do
    cred_json ← marshalled (marshal_nullable credentials)
    execute (λ db. some (record db {
      accounts =
          update_where (has_id id)
            (λ row. record row {
              login_buffer = login_buffer;
              credentials = cred_json;
              updated_at = now;
            })
            db.accounts;
    }))

  abbrev pub scan_all : List AccountRow → List (WechatAccount V)
  scan_all [] = []
  scan_all (row ∷ rows) = scan_account row ∷ scan_all rows

  unfoldable pub list_accounts : Action (List (WechatAccount V))
  list_accounts = query (λ db. ok (scan_all (order_by_id db.accounts)))

unfoldable pub set_account_uin : ℕ → ℕ → ℕ → Action Done
set_account_uin id uin now = execute (λ db. some (record db {
  accounts =
      update_where (has_id id) (λ row. record row { uin = some uin; updated_at = now }) db.accounts;
}))

unfoldable pub set_account_status : ℕ → Text → ℕ → Action Done
set_account_status id status now = execute (λ db. some (record db {
  accounts =
      update_where (has_id id)
        (λ row. record row { status = some status; last_checked_at = some now; updated_at = now })
        db.accounts;
}))

unfoldable pub public : {V : Type 0} → WechatAccount V → AccountPublic
public a = record {
  id = a.id;
  openid = a.openid;
  uin = a.uin;
  alias = a.alias;
  nickname = a.nickname;
  avatar = a.avatar;
  status = a.status;
  last_checked_at = a.last_checked_at;
  created_at = a.created_at;
  updated_at = a.updated_at;
}
