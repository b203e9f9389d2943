-- ===== src/Store/KeptSessions.antt =====
-- internal/store/store.go: the statements on the sessions against the constraints of the tables.
use yyb_go.Prelude.{
  ◌<◌, ◌≡◌, refl, ap, Bool, false, [], ◌∷◌, none, some, arith, Option-cases, inl, inr, ◌==◌, ==_iff,
  ◌++◌, and_join,
}
use yyb_go.Prelude.Text.{text_eq, text_eq_iff}
use yyb_go.Store.Rows.{
  AreDistinct-update, AreDistinct-append, AreDistinct-delete, All-update, All-delete, All-imp,
  All-append_one, find_where, find_where-missing, delete_where, update_where,
}
use yyb_go.Store.Accounts.{has_id}
use yyb_go.Store.Sessions.{is_session, put_row}
use yyb_go.Store.Calls.{Holds}
use yyb_go.Store.Valid.{raised_sessions-IsValid, IsValid, session_key}
use yyb_go.Store.{AccountRow, SessionColumns, Db}

update_sessions-IsValid :
    (p : SessionColumns → Bool) (f : SessionColumns → SessionColumns) (db : Db)
    → ((s : SessionColumns) → (f s).id ≡ s.id)
    → ((s : SessionColumns) → session_key (f s) ≡ session_key s)
    → IsValid db
    → IsValid (record db { sessions = update_where p f db.sessions })
update_sessions-IsValid p f db keeps_id keeps_key v = record {
  enforced = v.enforced;
  ids = v.ids;
  openids = v.openids;
  ids_given = v.ids_given;
  session_ids = AreDistinct-update _ p f db.sessions keeps_id v.session_ids;
  session_keys = AreDistinct-update _ p f db.sessions keeps_key v.session_keys;
  session_ids_given = All-update _ p f db.sessions (λ s h. rw (keeps_id s) h) v.session_ids_given;
  owned =
      All-update _ p f db.sessions (λ s (row, found). (row, rw (ap (λ k. k.0) (keeps_key s)) found))
        v.owned;
}

append_session-IsValid :
    (new : SessionColumns) (row : AccountRow) (db : Db)
    → db.session_sequence < new.id
    → find_where (is_session new.wechat_account_id new.tcp_proxy) db.sessions ≡ none
    → find_where (has_id new.wechat_account_id) db.accounts ≡ some row
    → IsValid db
    → IsValid (record db { sessions = db.sessions ++ new ∷ []; session_sequence = new.id })
append_session-IsValid new row db fresh unknown found v = record {
  enforced = v.enforced;
  ids = v.ids;
  openids = v.openids;
  ids_given = v.ids_given;
  session_ids =
      AreDistinct-append _ db.sessions new
        (All-imp _ _ db.sessions (λ s given same. absurd (omega (arith, given, same, fresh)))
          v.session_ids_given)
        v.session_ids;
  session_keys =
      AreDistinct-append _ db.sessions new
        (All-imp _ _ db.sessions apart
          (find_where-missing (is_session new.wechat_account_id new.tcp_proxy) db.sessions unknown))
        v.session_keys;
  session_ids_given =
      All-append_one _ db.sessions new
        (All-imp _ _ db.sessions (λ s given. omega arith) v.session_ids_given) (omega arith);
  owned = All-append_one _ db.sessions new v.owned (row, found);
}
  where
    apart :
        (s : SessionColumns)
        → is_session new.wechat_account_id new.tcp_proxy s ≡ false
        → ¬ (session_key s ≡ session_key new)
    apart s other same =
        let both =
          and_join (s.wechat_account_id == new.wechat_account_id)
            (text_eq s.tcp_proxy new.tcp_proxy)
            ((==_iff s.wechat_account_id new.wechat_account_id).1 (ap (λ k. k.0) same))
            ((text_eq_iff s.tcp_proxy new.tcp_proxy).1 (ap (λ k. k.1) same)) in
        absurd (cc)

pub put_row-IsValid :
    (new : SessionColumns) (db : Db)
    → db.session_sequence < new.id
    → IsValid db
    → Holds IsValid (put_row new db)
unfolding put_row
put_row-IsValid new db fresh v =
    elim (Option-cases (find_where (is_session new.wechat_account_id new.tcp_proxy) db.sessions)) [
      | inr (s, known) ↦
          rw (put_row, known)
            (update_sessions-IsValid (is_session new.wechat_account_id new.tcp_proxy) _
              (record db { session_sequence = new.id }) (λ _. refl) (λ _. refl)
              (raised_sessions-IsValid new.id db fresh v))
      | inl unknown ↦ elim (Option-cases (find_where (has_id new.wechat_account_id) db.accounts)) [
        | inr (row, found) ↦
            rw (put_row, unknown, found) (append_session-IsValid new row db fresh unknown found v)
        | inl missing ↦ rw (put_row, unknown, missing, v.enforced) tt
      ]
    ]

pub delete_sessions-IsValid :
    (p : SessionColumns → Bool) (db : Db)
    → IsValid db
    → IsValid (record db { sessions = delete_where p db.sessions })
delete_sessions-IsValid p db v = record {
  enforced = v.enforced;
  ids = v.ids;
  openids = v.openids;
  ids_given = v.ids_given;
  session_ids = AreDistinct-delete _ p db.sessions v.session_ids;
  session_keys = AreDistinct-delete _ p db.sessions v.session_keys;
  session_ids_given = All-delete _ p db.sessions v.session_ids_given;
  owned = All-delete _ p db.sessions v.owned;
}
