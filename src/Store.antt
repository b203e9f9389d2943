-- ===== src/Store.antt =====
-- internal/store/store.go: accounts and the sessions of their connections, in a database. The tables
-- are lists of rows; the engine of the database is a library, which may refuse any statement.
pub mod Rows
pub mod Calls
pub mod Valid
pub mod Accounts
pub mod Deletion
pub mod Resolve
pub mod Sessions
pub mod Kept
pub mod KeptSessions
pub mod SessionCache
pub mod Updates
pub mod Upsert
pub mod Deleted
pub mod Steps
pub mod Tests
use yyb_go.Prelude.{ℕ, if◌then◌else◌, Bool, true, false, List, [], ◌∷◌, Option, none, some}
use yyb_go.Prelude.Text.{Text}

-- encoding/json on a `map[string]any`, where `none` is the nil map. Marshal fails on values that JSON
-- does not have; Unmarshal fails on a text that is no object.
pub record Json (V : Type 0) : Type 0 where
  pub marshal : Option V → Option Text
  pub unmarshal : Text → Option (Option V)

-- A row of wechat_accounts; a column that may be NULL is an Option.
-- A uin is the 64-bit pattern of an int64.
pub record AccountRow : Type 0 where
  pub id : ℕ
  pub openid : Text
  pub uin : Option ℕ
  pub alias : Option Text
  pub nickname : Option Text
  pub avatar : Option Text
  pub user_info : Option Text
  pub login_buffer : Text
  pub credentials : Option Text
  pub status : Option Text
  pub last_checked_at : Option ℕ
  pub created_at : ℕ
  pub updated_at : ℕ

pub record WechatAccount (V : Type 0) : Type 0 where
  pub id : ℕ
  pub openid : Text
  pub uin : Option ℕ
  pub alias : Option Text
  pub nickname : Option Text
  pub avatar : Option Text
  pub user_info : Option V
  pub login_buffer : Text
  pub credentials : Option V
  pub status : Option Text
  pub last_checked_at : Option ℕ
  pub created_at : ℕ
  pub updated_at : ℕ

-- What the service shows of an account.
pub record AccountPublic : Type 0 where
  pub id : ℕ
  pub openid : Text
  pub uin : Option ℕ
  pub alias : Option Text
  pub nickname : Option Text
  pub avatar : Option Text
  pub status : Option Text
  pub last_checked_at : Option ℕ
  pub created_at : ℕ
  pub updated_at : ℕ

-- A row of sessions.
pub record SessionColumns : Type 0 where
  pub id : ℕ
  pub wechat_account_id : ℕ
  pub uin : Option ℕ
  pub tcp_proxy : Text
  pub session_blob : Text
  pub expires_at : ℕ
  pub created_at : ℕ
  pub updated_at : ℕ

pub record SessionRow (V : Type 0) : Type 0 where
  pub id : ℕ
  pub wechat_account_id : ℕ
  pub uin : Option ℕ
  pub tcp_proxy : Text
  pub session_blob : Option V
  pub expires_at : ℕ
  pub created_at : ℕ
  pub updated_at : ℕ

-- What the engine keeps: the tables, the largest id that each has given (sqlite_sequence), whether
-- `PRAGMA foreign_keys=ON` took effect, and whether each of its next calls fails; the calls behind the
-- end of that list succeed.
pub record Db : Type 0 where
  pub accounts : List AccountRow
  pub sessions : List SessionColumns
  pub account_sequence : ℕ
  pub session_sequence : ℕ
  pub has_sequence : Bool
  pub foreign_keys : Bool
  pub faults : List Bool

-- sql.ErrNoRows, an error of the engine, one of encoding/json, and one of decoding a session.
pub data Error : Type 0 where
  no_rows engine unsupported decode_session_blob : Error

pub data Result {ℓ} (A : Type ℓ) : Type ℓ where
  ok : A → Result A
  err : Error → Result A

-- The result of a call that only returns an error.
pub data Done : Type 0 where
  done : Done

-- A call of the store: what it returns, and the database behind it.
abbrev pub Action {ℓ} : Type ℓ → Type ℓ
Action A = Db → Result A × Db

module _ {ℓ κ} {A : Type ℓ} {B : Type κ} where
  abbrev pub and_then : Result A × Db → (A → Action B) → Result B × Db
  and_then (ok a, db) k = k a db
  and_then (err e, db) k = (err e, db)

  infixl 5 ◌>>=◌ ◌>>◌
  abbrev pub ◌>>=◌ : Action A → (A → Action B) → Action B
  m >>= k = λ db. and_then (m db) k

  abbrev pub ◌>>◌ : Action A → Action B → Action B
  m >> n = m >>= λ _. n

abbrev pub pure {ℓ} : {A : Type ℓ} → A → Action A
pure a db = (ok a, db)

abbrev pub fail {ℓ} : {A : Type ℓ} → Error → Action A
fail e db = (err e, db)

abbrev pub or_fail {ℓ} : {A : Type ℓ} → Option A → Error → Action A
or_fail none e = fail e
or_fail (some a) e = pure a

-- A statement that changes the tables, or is refused for one of their constraints. One that fails
-- changes nothing.
abbrev execute_on : Option Db → Action Done
execute_on none db = (err engine, db)
execute_on (some changed_db) db = (ok done, changed_db)

abbrev pub next_call : List Bool → Bool × List Bool
next_call [] = (false, [])
next_call (fault ∷ faults) = (fault, faults)

abbrev pub behind_call : Db → Db
behind_call db = record db { faults = (next_call db.faults).1 }

unfoldable pub execute : (Db → Option Db) → Action Done
execute change db =
    if (next_call db.faults).0
    then (err engine, behind_call db)
    else execute_on (change (behind_call db)) (behind_call db)

-- A query.
unfoldable pub query {ℓ} : {A : Type ℓ} → (Db → Result A) → Action A
query ask db =
    if (next_call db.faults).0
    then (err engine, behind_call db)
    else (ask (behind_call db), behind_call db)
