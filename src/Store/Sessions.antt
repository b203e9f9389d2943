-- ===== src/Store/Sessions.antt =====
-- internal/store/store.go: the table of the sessions.
use yyb_go.Prelude.{ℕ, Bool, ◌&&◌, [], ◌∷◌, ◌++◌, Option, none, some, ltb, ◌==◌, if◌then◌else◌}
use yyb_go.Prelude.Text.{Text, text_eq}
use yyb_go.Store.Rows.{update_where, delete_where, find_where}
use yyb_go.Store.Accounts.{has_id}
use yyb_go.Store.{
  Json, SessionColumns, SessionRow, Db, no_rows, unsupported, decode_session_blob, Result, ok, err,
  Done, Action, ◌>>=◌, or_fail, execute, query,
}

abbrev pub is_session : ℕ → Text → SessionColumns → Bool
is_session account_id tcp_proxy s =
    s.wechat_account_id == account_id && text_eq s.tcp_proxy tcp_proxy

-- `ON CONFLICT ... DO UPDATE SET`
abbrev pub overwritten : SessionColumns → SessionColumns → SessionColumns
overwritten new row = record row {
  uin = new.uin;
  session_blob = new.session_blob;
  expires_at = new.expires_at;
  updated_at = new.updated_at;
}

-- The statement of PutSession: the foreign key is checked where the row is new. An id
-- counts as given also where there is a row already.
unfoldable pub put_row : SessionColumns → Db → Option Db
put_row new db = elim (find_where (is_session new.wechat_account_id new.tcp_proxy) db.sessions) [
  | some _ ↦ some (record db {
    sessions =
        update_where (is_session new.wechat_account_id new.tcp_proxy) (overwritten new) db.sessions;
    session_sequence = new.id;
  })
  | none ↦ elim (find_where (has_id new.wechat_account_id) db.accounts) [
    | some _ ↦ some (record db { sessions = db.sessions ++ new ∷ []; session_sequence = new.id })
    | none ↦
        if db.foreign_keys
        then none
        else some (record db { sessions = db.sessions ++ new ∷ []; session_sequence = new.id })
  ]
]

abbrev pub new_session : ℕ → ℕ → Option ℕ → Text → ℕ → Text → ℕ → SessionColumns
new_session drawn account_id uin blob expires_at tcp_proxy now = record {
  id = drawn;
  wechat_account_id = account_id;
  uin = uin;
  tcp_proxy = tcp_proxy;
  session_blob = blob;
  expires_at = expires_at;
  created_at = now;
  updated_at = now;
}

abbrev pub scanned : {V : Type 0} → SessionColumns → Option V → SessionRow V
scanned row blob = record {
  id = row.id;
  wechat_account_id = row.wechat_account_id;
  uin = row.uin;
  tcp_proxy = row.tcp_proxy;
  session_blob = blob;
  expires_at = row.expires_at;
  created_at = row.created_at;
  updated_at = row.updated_at;
}

module _ {V : Type 0} (json : Json V) where
  unfoldable pub scan_session : SessionColumns → Result (SessionRow V)
  scan_session row = elim (json.unmarshal row.session_blob) [
    | none ↦ err decode_session_blob
    | some blob ↦ ok (scanned row blob)
  ]

  abbrev pub scan_found : Option SessionColumns → Result (SessionRow V)
  scan_found none = err no_rows
  scan_found (some row) = scan_session row

  unfoldable pub get_session : ℕ → Text → ℕ → Action (SessionRow V)
  get_session account_id tcp_proxy now = query (λ db.
      scan_found
        (find_where (λ s. is_session account_id tcp_proxy s && ltb now s.expires_at) db.sessions))

  -- `drawn` is the id that AUTOINCREMENT gives to a new row.
  unfoldable pub put_session : ℕ → ℕ → Option ℕ → Option V → ℕ → Text → ℕ → Action Done
  put_session drawn account_id uin session_blob expires_at tcp_proxy now = do
    blob ← or_fail (json.marshal session_blob) unsupported
    execute (put_row (new_session drawn account_id uin blob expires_at tcp_proxy now))

unfoldable pub invalidate_session : ℕ → Text → Action Done
invalidate_session account_id tcp_proxy = execute (λ db.
    some (record db { sessions = delete_where (is_session account_id tcp_proxy) db.sessions }))
