-- ===== src/Store/SessionCache.antt =====
-- internal/store/store.go: what GetSession finds behind a PutSession.
use yyb_go.Prelude.{
  ℕ, ◌≤◌, ◌<◌, ◌≡◌, refl, ap, sym, ◌∙◌, subst, ◌⊎◌, Bool, true, false, List, [], ◌∷◌, ◌++◌, Option,
  none, some, arith, Option-cases, Bool-cases, inl, inr, ltb, ◌==◌, ==_iff, and_split, ltb→lt,
}
use yyb_go.Prelude.Text.{Text, text_eq, text_eq_iff}
use yyb_go.Store.Rows.{
  find_where, find_where-and, find_where-append, find_where-append_other, find_where-update_self,
  find_where-update_other, kept, update_where,
}
use yyb_go.Store.Accounts.{has_id}
use yyb_go.Store.Sessions.{
  is_session, overwritten, new_session, scanned, put_row, put_session, get_session, scan_session,
  scan_found,
}
use yyb_go.Store.Calls.{with_faults, execute-ok}
use yyb_go.Store.Steps.{session_put, Step-IsValid}
use yyb_go.Store.Valid.{IsValid, session_key}
use yyb_go.Store.{
  Json, SessionColumns, SessionRow, Db, no_rows, unsupported, Result, ok, err, done, execute, query,
}

is_session-key :
    (account_id : ℕ) (tcp_proxy : Text) (s : SessionColumns)
    → is_session account_id tcp_proxy s ≡ true
    → session_key s ≡ (account_id, tcp_proxy)
is_session-key account_id tcp_proxy s h =
    let (same_account, same_proxy) =
      and_split (s.wechat_account_id == account_id) (text_eq s.tcp_proxy tcp_proxy) h in
    let account = (==_iff s.wechat_account_id account_id).0 same_account in
    let proxy = (text_eq_iff s.tcp_proxy tcp_proxy).0 same_proxy in cc

key-is_session : (s : SessionColumns) → is_session s.wechat_account_id s.tcp_proxy s ≡ true
key-is_session s =
    rw
      (
        (==_iff s.wechat_account_id s.wechat_account_id).1 refl,
        (text_eq_iff s.tcp_proxy s.tcp_proxy).1 refl,
      )
      refl

other_session :
    (account_id : ℕ) (tcp_proxy : Text) (s : SessionColumns)
    → ¬ ((account_id, tcp_proxy) ≡ session_key s)
    → is_session account_id tcp_proxy s ≡ false
other_session account_id tcp_proxy s apart = elim (Bool-cases (is_session account_id tcp_proxy s)) [
  | inl same ↦ absurd (apart (sym (is_session-key account_id tcp_proxy s same)))
  | inr other ↦ other
]

-- The row for a key, whether it has expired or not.
abbrev session_at : ℕ → Text → Db → Option SessionColumns
session_at account_id tcp_proxy db = find_where (is_session account_id tcp_proxy) db.sessions

-- The row holds what the last PutSession for its key wrote.
abbrev Holds : SessionColumns → Db → Type 0
Holds new db =
    (row : SessionColumns) × (session_at new.wechat_account_id new.tcp_proxy db ≡ some row)
    × (row.session_blob ≡ new.session_blob)
    × (row.uin ≡ new.uin)
    × (row.expires_at ≡ new.expires_at)

abbrev Others : SessionColumns → Db → Db → Type 0
Others new db db' =
    (account_id : ℕ) (tcp_proxy : Text)
    → ¬ ((account_id, tcp_proxy) ≡ session_key new)
    → session_at account_id tcp_proxy db' ≡ session_at account_id tcp_proxy db

abbrev Put : SessionColumns → Db → Option Db → Type 0
Put new db none = Unit
Put new db (some db') = Holds new db' × Others new db db'

append-Put :
    (new : SessionColumns) (db : Db)
    → session_at new.wechat_account_id new.tcp_proxy db ≡ none
    → Put new db
        (some (record db { sessions = db.sessions ++ new ∷ []; session_sequence = new.id }))
append-Put new db unknown = (
  (
    new,
    find_where-append (is_session new.wechat_account_id new.tcp_proxy) db.sessions new unknown
        (key-is_session new),
    refl,
    refl,
    refl,
  ),
  λ account_id tcp_proxy apart.
      find_where-append_other (is_session account_id tcp_proxy) db.sessions new
        (other_session account_id tcp_proxy new apart),
)

update-Put :
    (new : SessionColumns) (db : Db) (row : SessionColumns)
    → session_at new.wechat_account_id new.tcp_proxy db ≡ some row
    → Put new db (
        some (record db {
          sessions =
              update_where
                (is_session new.wechat_account_id new.tcp_proxy)
                (overwritten new)
                db.sessions;
          session_sequence = new.id;
        }))
update-Put new db row known = (
  (
    overwritten new row,
    find_where-update_self this (overwritten new) db.sessions row (λ _. refl) known,
    refl,
    refl,
    refl,
  ),
  λ account_id tcp_proxy apart.
      find_where-update_other (is_session account_id tcp_proxy) this (overwritten new) db.sessions
        (λ _. refl)
        (λ r here.
          other_session new.wechat_account_id new.tcp_proxy r
            (λ same. apart (sym (is_session-key account_id tcp_proxy r here) ∙ sym same))),
)
  where
    this : SessionColumns → Bool
    this = is_session new.wechat_account_id new.tcp_proxy

put_row-Put : (new : SessionColumns) (db : Db) → Put new db (put_row new db)
unfolding put_row
put_row-Put new db = elim (Option-cases (session_at new.wechat_account_id new.tcp_proxy db)) [
  | inl unknown ↦ elim (Option-cases (find_where (has_id new.wechat_account_id) db.accounts)) [
    | inr (row, found) ↦ rw (put_row, unknown, found) (append-Put new db unknown)
    | inl missing ↦ elim (Bool-cases db.foreign_keys) [
      | inl enforced ↦ rw (put_row, unknown, missing, enforced) tt
      | inr loose ↦ rw (put_row, unknown, missing, loose) (append-Put new db unknown)
    ]
  ]
  | inr (row, known) ↦ rw (put_row, known) (update-Put new db row known)
]

-- What GetSession answers while the engine works.
abbrev pub session_read : {V : Type 0} → Json V → ℕ → Text → ℕ → Db → Result (SessionRow V)
session_read json account_id tcp_proxy now db =
    (get_session json account_id tcp_proxy now (with_faults [] db)).0

abbrev live_row : ℕ → SessionColumns → Bool
live_row now s = ltb now s.expires_at

session_read_lem :
    {V : Type 0} (json : Json V) (account_id : ℕ) (tcp_proxy : Text) (now : ℕ) (db : Db)
    → IsValid db
    → session_read json account_id tcp_proxy now db
      ≡ scan_found json (kept (live_row now) (session_at account_id tcp_proxy db))
unfolding get_session query
session_read_lem json account_id tcp_proxy now db v = ap (scan_found json) (
    find_where-and session_key (is_session account_id tcp_proxy) (live_row now) db.sessions
      (λ r s hr hs.
        is_session-key account_id tcp_proxy r hr ∙ sym (is_session-key account_id tcp_proxy s hs))
      v.session_keys)

put_session-encoded :
    {V : Type 0} (json : Json V) (drawn account_id : ℕ) (uin : Option ℕ) (blob : Option V)
    (expires_at : ℕ) (tcp_proxy : Text) (now : ℕ) (text : Text) (db : Db)
    → json.marshal blob ≡ some text
    → put_session json drawn account_id uin blob expires_at tcp_proxy now db
      ≡ execute (put_row (new_session drawn account_id uin text expires_at tcp_proxy now)) db
unfolding put_session
put_session-encoded json drawn account_id uin blob expires_at tcp_proxy now text db encoded =
    rw (put_session, encoded) refl

put_session-refused :
    {V : Type 0} (json : Json V) (drawn account_id : ℕ) (uin : Option ℕ) (blob : Option V)
    (expires_at : ℕ) (tcp_proxy : Text) (now : ℕ) (db : Db)
    → json.marshal blob ≡ none
    → put_session json drawn account_id uin blob expires_at tcp_proxy now db ≡ (err unsupported, db)
unfolding put_session
put_session-refused json drawn account_id uin blob expires_at tcp_proxy now db refused =
    rw (put_session, refused) refl

-- A PutSession that succeeded has executed its statement on a text that Marshal made.
put_session-ok :
    {V : Type 0} (json : Json V) (drawn account_id : ℕ) (uin : Option ℕ) (blob : Option V)
    (expires_at : ℕ) (tcp_proxy : Text) (now : ℕ) (db db' : Db)
    → put_session json drawn account_id uin blob expires_at tcp_proxy now db ≡ (ok done, db')
    → (text : Text) × (json.marshal blob ≡ some text)
      × ((fs : List Bool) × (put_row
              (new_session drawn account_id uin text expires_at tcp_proxy now)
              (with_faults fs db)
            ≡ some db'))
put_session-ok json drawn account_id uin blob expires_at tcp_proxy now db db' e =
    elim (Option-cases (json.marshal blob)) [
      | inl refused ↦
          let result =
            sym (
              put_session-refused json drawn account_id uin blob expires_at tcp_proxy now db
                refused)
            ∙ e in
          absurd (cc)
      | inr (text, encoded) ↦ (
        text,
        encoded,
        execute-ok _ db db' (
            sym (
              put_session-encoded json drawn account_id uin blob expires_at tcp_proxy now text db
                encoded)
            ∙ e),
      )
    ]

Holds-read :
    {V : Type 0} (json : Json V) (new : SessionColumns) (now : ℕ) (db : Db) (back : Option V)
    → IsValid db
    → Holds new db
    → json.unmarshal new.session_blob ≡ some back
    → ((new.expires_at ≤ now)
        × (session_read json new.wechat_account_id new.tcp_proxy now db ≡ err no_rows))
      ⊎ ((now < new.expires_at)
          × ((row : SessionRow V) × (session_read json new.wechat_account_id new.tcp_proxy now db
                ≡ ok row)
              × (row.session_blob ≡ back)
              × (row.uin ≡ new.uin)
              × (row.expires_at ≡ new.expires_at)))
unfolding scan_session
Holds-read json new now db back v (row, found, same_blob, same_uin, same_expiry) decoded =
    elim (Bool-cases (ltb now new.expires_at)) [
      | inr over ↦ inl (ground arith, read ∙ rw (found, same_expiry, over) refl)
      | inl fresh ↦ inr (
        ltb→lt now new.expires_at fresh,
        (
          scanned row back,
          read ∙ rw (found, same_expiry, fresh, scan_session, same_blob, decoded) refl,
          refl,
          same_uin,
          same_expiry,
        ),
      )
    ]
  where
    read :
        session_read json new.wechat_account_id new.tcp_proxy now db
        ≡ scan_found json (kept (live_row now) (session_at new.wechat_account_id new.tcp_proxy db))
    read = session_read_lem json new.wechat_account_id new.tcp_proxy now db v

abbrev pub Remembers : {V : Type 0} → Json V → ℕ → Option ℕ → Option V → ℕ → Text → Db → Db → Type 0
Remembers {V = V} json account_id uin back expires_at tcp_proxy db db' =
    ((later : ℕ)
      → ((expires_at ≤ later) × (session_read json account_id tcp_proxy later db' ≡ err no_rows))
        ⊎ ((later < expires_at)
            × ((row : SessionRow V) × (session_read json account_id tcp_proxy later db' ≡ ok row)
                × (row.session_blob ≡ back)
                × (row.uin ≡ uin)
                × (row.expires_at ≡ expires_at))))
    × ((other_id : ℕ) (other_proxy : Text) (later : ℕ)
        → ¬ ((other_id ≡ account_id) × (other_proxy ≡ tcp_proxy))
        → session_read json other_id other_proxy later db'
          ≡ session_read json other_id other_proxy later db)

-- After a PutSession that succeeded, GetSession finds for its account and proxy the uin and the blob
-- that were put, as JSON gives it back, until the session expires, and no row from then on; for every
-- other account and proxy it answers as before.
pub put_session-get_session :
    {V : Type 0} (json : Json V) (drawn account_id : ℕ) (uin : Option ℕ) (blob back : Option V)
    (expires_at : ℕ) (tcp_proxy : Text) (now : ℕ) (db db' : Db)
    → ((text : Text) → json.marshal blob ≡ some text → json.unmarshal text ≡ some back)
    → IsValid db
    → db.session_sequence < drawn
    → put_session json drawn account_id uin blob expires_at tcp_proxy now db ≡ (ok done, db')
    → Remembers json account_id uin back expires_at tcp_proxy db db'
put_session-get_session json drawn account_id uin blob back expires_at tcp_proxy now db db' returns
      v fresh e =
    let (text, encoded, (fs, made)) =
      put_session-ok json drawn account_id uin blob expires_at tcp_proxy now db db' e in
    let v' =
      subst (λ r. IsValid r.1) e
        (Step-IsValid json db _
          (session_put drawn account_id uin blob expires_at tcp_proxy now db fresh) v) in
    let new = new_session drawn account_id uin text expires_at tcp_proxy now in
    let (holds, others) =
      subst (Put new (with_faults fs db)) made (put_row-Put new (with_faults fs db)) in
    (
      λ later. Holds-read json new later db' back v' holds (returns text encoded),
      λ other_id other_proxy later apart.
          session_read_lem json other_id other_proxy later db' v'
          ∙ ap (λ found. scan_found json (kept (live_row later) found))
              (others other_id other_proxy (λ same. apart (ap (λ k. k.0) same, ap (λ k. k.1) same)))
          ∙ sym (session_read_lem json other_id other_proxy later db v),
    )
