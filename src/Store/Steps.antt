-- ===== src/Store/Steps.antt =====
-- internal/store/store.go: sequences of calls of the store.
use yyb_go.Prelude.{
  ℕ, ◌<◌, ◌≡◌, refl, sym, subst, Bool, true, List, [], ◌∷◌, Option, none, some, Bool-cases, inl,
  inr, ◌==◌, if◌then◌else◌,
}
use yyb_go.Prelude.Text.{Text}
use yyb_go.Store.Rows.{delete_where}
use yyb_go.Store.Accounts.{
  has_id, marshal_nullable, marshalled, new_row, upsert_account, set_account_profile,
  set_account_credential, set_account_uin, set_account_status, get_account_by_openid,
}
use yyb_go.Store.Deletion.{
  Table, wechat_accounts, sessions, is_empty, forget_sequence, reset_autoincrement_if_empty,
  delete_account,
}
use yyb_go.Store.Sessions.{is_session, put_session, invalidate_session}
use yyb_go.Store.Calls.{with_faults, Holds, execute-Keeps, query-Keeps, query_cases, and_then-Keeps}
use yyb_go.Store.Valid.{IsValid, with_faults-IsValid, no_sessions}
use yyb_go.Store.Deleted.{reset_sequences-Keeps}
use yyb_go.Store.Kept.{update_accounts-IsValid, upsert_row-IsValid, delete_accounts-IsValid}
use yyb_go.Store.KeptSessions.{put_row-IsValid, delete_sessions-IsValid}
use yyb_go.Store.{
  Json, AccountRow, SessionColumns, Db, unsupported, Result, ok, err, Action, and_then, or_fail,
  execute, query,
}

-- One call that may change the tables, with the id that the engine draws for a new row: AUTOINCREMENT
-- gives one that is larger than all that the table has given.
pub data Step {V : Type 0} (json : Json V) : Db → Db → Type 0 where
  upserted :
      (drawn : ℕ) (openid login_buffer : Text) (alias nickname avatar : Option Text)
      (user_info credentials : Option V) (status : Option Text) (now : ℕ) (db : Db)
      → db.account_sequence < drawn
      → Step json db
          (upsert_account json drawn openid login_buffer alias nickname avatar user_info credentials
            status now db).1
  profile_set :
      (id : ℕ) (nickname avatar : Option Text) (user_info : Option V) (now : ℕ) (db : Db)
      → Step json db (set_account_profile json id nickname avatar user_info now db).1
  credential_set :
      (id : ℕ) (login_buffer : Text) (credentials : Option V) (now : ℕ) (db : Db)
      → Step json db (set_account_credential json id login_buffer credentials now db).1
  uin_set : (id uin now : ℕ) (db : Db) → Step json db (set_account_uin id uin now db).1
  status_set :
      (id : ℕ) (status : Text) (now : ℕ) (db : Db)
      → Step json db (set_account_status id status now db).1
  deleted : (id : ℕ) (db : Db) → Step json db (delete_account id db).1
  session_put :
      (drawn account_id : ℕ) (uin : Option ℕ) (session_blob : Option V) (expires_at : ℕ)
      (tcp_proxy : Text) (now : ℕ) (db : Db)
      → db.session_sequence < drawn
      → Step json db
          (put_session json drawn account_id uin session_blob expires_at tcp_proxy now db).1
  session_invalidated :
      (account_id : ℕ) (tcp_proxy : Text) (db : Db)
      → Step json db (invalidate_session account_id tcp_proxy db).1

-- A database after any calls, from the one that Open has created.
pub data Reachable {V : Type 0} (json : Json V) : Db → Type 0 where
  opened :
      (faults : List Bool)
      → Reachable json (record {
        accounts = [];
        sessions = [];
        account_sequence = 0;
        session_sequence = 0;
        has_sequence = true;
        foreign_keys = true;
        faults = faults;
      })
  stepped : (db db' : Db) → Reachable json db → Step json db db' → Reachable json db'

execute-IsValid :
    (change : Db → Option Db) (db : Db)
    → ((fs : List Bool) → IsValid (with_faults fs db) → Holds IsValid (change (with_faults fs db)))
    → IsValid db
    → IsValid (execute change db).1
execute-IsValid change db keeps v =
    execute-Keeps IsValid change db (λ fs. with_faults-IsValid fs db v)
      (λ fs. keeps fs (with_faults-IsValid fs db v))

query-IsValid {ℓ} :
    {A : Type ℓ} (ask : Db → Result A) (db : Db) → IsValid db → IsValid (query ask db).1
query-IsValid ask db v = query-Keeps IsValid ask db (λ fs. with_faults-IsValid fs db v)

-- A chain whose first part only computes starts on the same database.
marshalled-IsValid {ℓ} :
    {A : Type ℓ} (column : Result (Option Text)) (next : Option Text → Action A) (db : Db)
    → IsValid db
    → ((text : Option Text) → IsValid (next text db).1)
    → IsValid (and_then (marshalled column db) next).1
marshalled-IsValid (ok text) next db v then_next = then_next text
marshalled-IsValid (err e) next db v then_next = v

-- Without accounts, and so without sessions, the sequences may start again.
abbrev IsValidEmpty : Db → Type 0
IsValidEmpty db = IsValid db × (db.accounts ≡ [])

forget_sequence-IsValidEmpty :
    (table : Table) (db : Db) → IsValidEmpty db → IsValidEmpty (forget_sequence table db)
forget_sequence-IsValidEmpty wechat_accounts db (v, empty) = (
  record {
    enforced = v.enforced;
    ids = v.ids;
    openids = v.openids;
    ids_given = rw empty tt;
    session_ids = v.session_ids;
    session_keys = v.session_keys;
    session_ids_given = v.session_ids_given;
    owned = v.owned;
  },
  empty,
)
forget_sequence-IsValidEmpty sessions db (v, empty) = (
  record {
    enforced = v.enforced;
    ids = v.ids;
    openids = v.openids;
    ids_given = v.ids_given;
    session_ids = v.session_ids;
    session_keys = v.session_keys;
    session_ids_given = rw (no_sessions db.accounts db.sessions empty v.owned) tt;
    owned = v.owned;
  },
  empty,
)

is_empty_lem : (rows : List AccountRow) → is_empty rows ≡ true → rows ≡ []
is_empty_lem [] e = refl
is_empty_lem (row ∷ rows) e = absurd (cc)

reset-IsValid : (db : Db) → IsValid db → IsValid (reset_autoincrement_if_empty db).1
unfolding reset_autoincrement_if_empty
reset-IsValid db v =
    let (fs, ends) = query_cases (λ (d : Db). ok (is_empty d.accounts)) db in
    elim ends [
      | inl e ↦ rw (reset_autoincrement_if_empty, e) (with_faults-IsValid fs db v)
      | inr e ↦ elim (Bool-cases (is_empty db.accounts)) [
        | inl empty ↦
            rw (reset_autoincrement_if_empty, e, empty)
              (reset_sequences-Keeps IsValidEmpty
                (λ gs d (v', none_left). (with_faults-IsValid gs d v', none_left))
                forget_sequence-IsValidEmpty _ _
                (with_faults-IsValid fs db v, is_empty_lem db.accounts empty)).0
        | inr filled ↦ rw (reset_autoincrement_if_empty, e, filled) (with_faults-IsValid fs db v)
      ]
    ]

delete_account-IsValid : (id : ℕ) (db : Db) → IsValid db → IsValid (delete_account id db).1
unfolding delete_account
delete_account-IsValid id db v =
    and_then-Keeps IsValid _ _
      (execute-IsValid _ db
        (λ fs v'.
          subst
            (λ cascades. IsValid (record (with_faults fs db) {
              accounts = delete_where (has_id id) db.accounts;
              sessions =
                  if cascades
                  then delete_where (λ (s : SessionColumns). s.wechat_account_id == id) db.sessions
                  else db.sessions;
            }))
            (sym v.enforced) (delete_accounts-IsValid id _ v'))
        v)
      (λ _. reset-IsValid)

or_fail-IsValid {ℓ κ} :
    {A : Type ℓ} {B : Type κ} (given : Option A) (e : _) (next : A → Action B) (db : Db)
    → IsValid db
    → ((a : A) → IsValid (next a db).1)
    → IsValid (and_then (or_fail given e db) next).1
or_fail-IsValid none e next db v then_next = v
or_fail-IsValid (some a) e next db v then_next = then_next a

pub Step-IsValid :
    {V : Type 0} (json : Json V) (db db' : Db) → Step json db db' → IsValid db → IsValid db'
unfolding upsert_account set_account_profile set_account_credential set_account_uin
    set_account_status put_session invalidate_session get_account_by_openid
Step-IsValid json _ _
      (upserted drawn openid login_buffer alias nickname avatar user_info credentials status now db
        fresh)
      v =
    marshalled-IsValid (marshal_nullable json user_info) _ db v (λ user_json.
      marshalled-IsValid (marshal_nullable json credentials) _ db v (λ cred_json.
        and_then-Keeps IsValid _ _
          (execute-IsValid _ db
            (λ fs.
              upsert_row-IsValid
                (new_row drawn openid login_buffer alias nickname avatar user_json cred_json status
                  now)
                _ fresh)
            v)
          (λ _ d. query-IsValid _ d)))
Step-IsValid json _ _ (profile_set id nickname avatar user_info now db) v =
    marshalled-IsValid (marshal_nullable json user_info) _ db v (λ user_json.
      execute-IsValid _ db (λ fs. update_accounts-IsValid (has_id id) _ _ (λ _. refl) (λ _. refl))
        v)
Step-IsValid json _ _ (credential_set id login_buffer credentials now db) v =
    marshalled-IsValid (marshal_nullable json credentials) _ db v (λ cred_json.
      execute-IsValid _ db (λ fs. update_accounts-IsValid (has_id id) _ _ (λ _. refl) (λ _. refl))
        v)
Step-IsValid json _ _ (uin_set id uin now db) v =
    execute-IsValid _ db (λ fs. update_accounts-IsValid (has_id id) _ _ (λ _. refl) (λ _. refl)) v
Step-IsValid json _ _ (status_set id status now db) v =
    execute-IsValid _ db (λ fs. update_accounts-IsValid (has_id id) _ _ (λ _. refl) (λ _. refl)) v
Step-IsValid json _ _ (deleted id db) v = delete_account-IsValid id db v
Step-IsValid json _ _
      (session_put drawn account_id uin session_blob expires_at tcp_proxy now db fresh) v =
    or_fail-IsValid (json.marshal session_blob) unsupported _ db v
      (λ blob. execute-IsValid _ db (λ fs. put_row-IsValid _ _ fresh) v)
Step-IsValid json _ _ (session_invalidated account_id tcp_proxy db) v =
    execute-IsValid _ db (λ fs. delete_sessions-IsValid (is_session account_id tcp_proxy) _) v

-- After any calls of the store, each of which may fail at any statement, no two accounts have the same
-- id or openid, no two sessions the same account and proxy, every session has its account, and every id
-- is one that the table's sequence has given. The ids that the engine draws are larger than these.
pub Reachable-IsValid : {V : Type 0} (json : Json V) (db : Db) → Reachable json db → IsValid db
Reachable-IsValid json _ (opened faults) = record {
  enforced = refl;
  ids = tt;
  openids = tt;
  ids_given = tt;
  session_ids = tt;
  session_keys = tt;
  session_ids_given = tt;
  owned = tt;
}
Reachable-IsValid json _ (stepped db db' reached step) =
    Step-IsValid json db db' step (Reachable-IsValid json db reached)
