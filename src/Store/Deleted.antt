-- ===== src/Store/Deleted.antt =====
-- internal/store/store.go: what DeleteAccount leaves in the tables.
use yyb_go.Prelude.{
  ℕ, ◌≡◌, refl, ap, sym, ◌∙◌, subst, Bool, true, false, List, [], ◌∷◌, none, some, arith, ◌==◌,
  and_split, if◌then◌else◌, All,
}
use yyb_go.Prelude.Text.{Text, text_eq}
use yyb_go.Store.Rows.{
  find_where, find_where-delete_other, find_where-none, delete_where, delete_where-gone,
}
use yyb_go.Store.Accounts.{has_id}
use yyb_go.Store.Deletion.{
  Table, wechat_accounts, sessions, is_empty, forget_sequence, reset_sequences,
  reset_autoincrement_if_empty, delete_account,
}
use yyb_go.Store.Sessions.{is_session}
use yyb_go.Store.Calls.{
  with_faults, execute-ok, query-ok, and_then-ok, execute-Keeps, query-Keeps, and_then-Keeps,
}
use yyb_go.Store.{
  AccountRow, SessionColumns, Db, Result, ok, Done, done, execute, query, Action, ◌>>◌, pure,
}

abbrev of_account : ℕ → SessionColumns → Bool
of_account id s = s.wechat_account_id == id

abbrev removed : ℕ → Db → Db
removed id db = record db {
  accounts = delete_where (has_id id) db.accounts;
  sessions =
      if db.foreign_keys
      then delete_where (λ (s : SessionColumns). s.wechat_account_id == id) db.sessions
      else db.sessions;
}

is_done : (m : Action Done) (d : Done) (db db' : Db) → m db ≡ (ok d, db') → m db ≡ (ok done, db')
is_done m done db db' e = e

branch :
    {A : Type 0} (test : Bool) (m n : Action A) (db : Db) (r : Result A × Db)
    → test ≡ true
    → if◌then◌else◌ {A = Action A} test m n db ≡ r
    → m db ≡ r
branch true m n db r holds e = e
branch false m n db r holds e = absurd (cc)

-- A round of the loop that goes on has put one sequence back.
reset_round-ok :
    (table : Table) (tables : List Table) (db db' : Db)
    → db.has_sequence ≡ true
    → reset_sequences (table ∷ tables) db ≡ (ok done, db')
    → (fs : List Bool) × (reset_sequences tables (forget_sequence table (with_faults fs db))
        ≡ (ok done, db'))
unfolding reset_sequences
reset_round-ok table tables db db' present e =
    let (exists, db0, asked, next) =
      and_then-ok (query (λ d. ok d.has_sequence) db)
        (λ exists.
          if◌then◌else◌ {A = Action Done} exists
            (execute (λ d. some (forget_sequence table d)) >> reset_sequences tables) (pure done))
        done db' e in
    let (gs, same, is_exists) = query-ok (λ (d : Db). ok d.has_sequence) exists db db0 asked in
    let does : exists ≡ true = sym (ok_eq is_exists) ∙ present in
    let (d, db1, forgot, rest) =
      and_then-ok (execute (λ d. some (forget_sequence table d)) db0) (λ _. reset_sequences tables)
        done db' (branch exists _ (pure done) db0 _ does next) in
    let (fs, made) =
      execute-ok (λ d. some (forget_sequence table d)) db0 db1
        (is_done (execute (λ d. some (forget_sequence table d))) d db0 db1 forgot) in
    let made' : some (forget_sequence table (with_faults fs db0)) ≡ some db1 = made in
    let is_db1 : forget_sequence table (with_faults fs db0) ≡ db1 = cc in
    (
      fs,
      ap (λ (x : Db). reset_sequences tables (forget_sequence table (with_faults fs x))) (sym same)
          ∙ ap (reset_sequences tables) is_db1
          ∙ rest,
    )
  where
    ok_eq : {a b : Bool} → ◌≡◌ {A = Result Bool} (ok a) (ok b) → a ≡ b
    ok_eq e = cc

-- What the loop keeps, where forgetting a sequence keeps it.
module _ {κ} (P : Db → Type κ) (faulty : (fs : List Bool) (db : Db) → P db → P (with_faults fs db))
    (forgets : (table : Table) (db : Db) → P db → P (forget_sequence table db)) where
  reset_round-Keeps :
      (table : Table) (next : Action Done) (exists : Bool) (db : Db)
      → ((d : Db) → P d → P (next d).1)
      → P db
      → P
          (if◌then◌else◌ {A = Action Done} exists
            (execute (λ d. some (forget_sequence table d)) >> next)
            (pure done)
            db).1
  reset_round-Keeps table next false db rest p = p
  reset_round-Keeps table next true db rest p =
      and_then-Keeps P _ _
        (execute-Keeps P _ db (λ fs. faulty fs db p)
          (λ fs. forgets table (with_faults fs db) (faulty fs db p)))
        (λ _. rest)

  pub reset_sequences-Keeps :
      (tables : List Table) (db : Db) → P db → P (reset_sequences tables db).1
  unfolding reset_sequences
  reset_sequences-Keeps [] db p = p
  reset_sequences-Keeps (table ∷ tables) db p =
      and_then-Keeps P _ _ (query-Keeps P _ db (λ fs. faulty fs db p)) (λ exists d.
        reset_round-Keeps table (reset_sequences tables) exists d (reset_sequences-Keeps tables))

-- The rows that a database holds.
abbrev Rows : List AccountRow → List SessionColumns → Db → Type 0
Rows accounts columns db = (db.accounts ≡ accounts) × (db.sessions ≡ columns)

forget_sequence-Rows :
    (accounts : List AccountRow) (columns : List SessionColumns) (table : Table) (db : Db)
    → Rows accounts columns db
    → Rows accounts columns (forget_sequence table db)
forget_sequence-Rows accounts columns wechat_accounts db rows = rows
forget_sequence-Rows accounts columns sessions db rows = rows

abbrev Restarted : Db → Db → Type 0
Restarted db db' =
    db.has_sequence ≡ true
    → db.accounts ≡ []
    → (db'.account_sequence ≡ 0) × (db'.session_sequence ≡ 0)

reset_sequences-Restarts :
    (db db' : Db)
    → db.has_sequence ≡ true
    → reset_sequences (wechat_accounts ∷ sessions ∷ []) db ≡ (ok done, db')
    → (db'.account_sequence ≡ 0) × (db'.session_sequence ≡ 0)
unfolding reset_sequences
reset_sequences-Restarts db db' present e =
    let (fs, e1) = reset_round-ok wechat_accounts (sessions ∷ []) db db' present e in
    let (gs, e2) =
      reset_round-ok sessions [] (forget_sequence wechat_accounts (with_faults fs db)) db' present
        e1 in
    let is_db' = ap (λ r. r.1) e2 in
    (
      ap (λ (d : Db). d.account_sequence) (sym is_db'),
      ap (λ (d : Db). d.session_sequence) (sym is_db'),
    )

reset-Rows :
    (db db' : Db)
    → reset_autoincrement_if_empty db ≡ (ok done, db')
    → Rows db.accounts db.sessions db' × Restarted db db'
unfolding reset_autoincrement_if_empty
reset-Rows db db' e =
    let (empty, db0, asked, next) =
      and_then-ok (query (λ d. ok (is_empty d.accounts)) db)
        (λ empty.
          if◌then◌else◌ {A = Action Done} empty (reset_sequences (wechat_accounts ∷ sessions ∷ []))
            (pure done))
        done db' e in
    let (gs, same, is_it) = query-ok (λ (d : Db). ok (is_empty d.accounts)) empty db db0 asked in
    after empty db0 gs same is_it next
  where
    restart :
        (gs : List Bool)
        → reset_sequences (wechat_accounts ∷ sessions ∷ []) (with_faults gs db) ≡ (ok done, db')
        → Rows db.accounts db.sessions db' × Restarted db db'
    restart gs next = (
      subst (λ r. Rows db.accounts db.sessions r.1) next
          (reset_sequences-Keeps (Rows db.accounts db.sessions) (λ fs d rows. rows)
            (forget_sequence-Rows db.accounts db.sessions) (wechat_accounts ∷ sessions ∷ [])
            (with_faults gs db) (refl, refl)),
      λ present _. reset_sequences-Restarts (with_faults gs db) db' present next,
    )

    after :
        (empty : Bool) (db0 : Db) (gs : List Bool)
        → db0 ≡ with_faults gs db
        → ◌≡◌ {A = Result Bool} (ok (is_empty db.accounts)) (ok empty)
        → if◌then◌else◌ {A = Action Done} empty
            (reset_sequences (wechat_accounts ∷ sessions ∷ []))
            (pure done)
            db0
          ≡ (ok done, db')
        → Rows db.accounts db.sessions db' × Restarted db db'
    after true db0 gs same is_it next =
        restart gs (ap (reset_sequences (wechat_accounts ∷ sessions ∷ [])) (sym same) ∙ next)
    after false db0 gs same is_it next =
        let is_db' : with_faults gs db ≡ db' = sym same ∙ ap (λ r. r.1) next in
        (
          subst (Rows db.accounts db.sessions) is_db' (refl, refl),
          λ _ empty.
              let filled : is_empty db.accounts ≡ false = cc in
              let none_left : is_empty db.accounts ≡ true = ap is_empty empty in absurd (cc),
        )

apart_ids : (i id other : ℕ) → ¬ (other ≡ id) → (i == other) ≡ true → (i == id) ≡ false
apart_ids i id other apart here = ground (arith, apart)

abbrev pub Deleted : ℕ → Db → Db → Type 0
Deleted id db db' =
    (find_where (has_id id) db'.accounts ≡ none)
    × All (λ s. of_account id s ≡ false) db'.sessions
    × ((other : ℕ)
        → ¬ (other ≡ id)
        → (find_where (has_id other) db'.accounts ≡ find_where (has_id other) db.accounts)
          × ((tcp_proxy : Text)
              → find_where (is_session other tcp_proxy) db'.sessions
                ≡ find_where (is_session other tcp_proxy) db.sessions))

removed-Deleted :
    (id : ℕ) (fs : List Bool) (db : Db)
    → db.foreign_keys ≡ true
    → Deleted id db (removed id (with_faults fs db))
removed-Deleted id fs db enforced = (
  find_where-none (has_id id) _ (delete_where-gone (has_id id) db.accounts),
  rw enforced (delete_where-gone (of_account id) db.sessions),
  λ other apart. (
    find_where-delete_other (has_id other) (has_id id) db.accounts
        (λ row here. apart_ids row.id id other apart here),
    λ tcp_proxy. rw enforced (
        find_where-delete_other (is_session other tcp_proxy) (of_account id) db.sessions (λ s here.
          apart_ids s.wechat_account_id id other apart
            (and_split (s.wechat_account_id == other) (text_eq s.tcp_proxy tcp_proxy) here).0)),
  ),
)

-- A DeleteAccount that succeeds leaves no account with the id and no session of it, and the accounts
-- with other ids and their sessions as they were. If no account is left, the ids of both tables start
-- again from 1. The foreign keys are on, as Open asks for, and the table of the sequences exists.
pub delete_account-Deletes :
    (id : ℕ) (db db' : Db)
    → db.foreign_keys ≡ true
    → db.has_sequence ≡ true
    → delete_account id db ≡ (ok done, db')
    → Deleted id db db'
      × (db'.accounts ≡ [] → (db'.account_sequence ≡ 0) × (db'.session_sequence ≡ 0))
unfolding delete_account
delete_account-Deletes id db db' enforced present e =
    let (d, db1, gone, next) =
      and_then-ok (execute (λ db. some (removed id db)) db) (λ _. reset_autoincrement_if_empty) done
        db' e in
    let (fs, made) =
      execute-ok (λ db. some (removed id db)) db db1
        (is_done (execute (λ db. some (removed id db))) d db db1 gone) in
    let made' : some (removed id (with_faults fs db)) ≡ some db1 = made in
    let is_db1 : removed id (with_faults fs db) ≡ db1 = cc in
    let ((same_accounts, same_sessions), restarted) = reset-Rows db1 db' next in
    let (no_account, no_session, others) =
      subst (Deleted id db) is_db1 (removed-Deleted id fs db enforced) in
    (
      (
        rw same_accounts no_account,
        rw same_sessions no_session,
        λ other apart.
            let (same_row, same_rows) = others other apart in
            (rw same_accounts same_row, λ tcp_proxy. rw same_sessions (same_rows tcp_proxy)),
      ),
      λ empty.
          restarted (ap (λ (x : Db). x.has_sequence) (sym is_db1) ∙ present)
            (sym same_accounts ∙ empty),
    )
