-- ===== src/Protocol/Pool/State.antt =====
-- internal/protocol/pool.go: the session of an account, from the store or from a login, and a call that
-- falls back to a direct connection. What a login and a call give are arguments.
use yyb_go.Prelude.{
  ℕ, zero, suc, ◌+◌, ◌-◌, ◌^◌, Bool, true, false, not, ◌&&◌, ◌||◌, [], ◌∷◌, Option, none, some, ltb,
  if◌then◌else◌,
}
use yyb_go.Prelude.Outcome.{Outcome, ok as succeeded, err as failed, panic as crashed}
use yyb_go.Prelude.Text.{Text, ℤ, pos, negsuc}
use yyb_go.Protocol.Values.{Fields, or_empty}
use yyb_go.Protocol.Pool.{WmpfSession, BlobError, Read, to_blob, as_json, session_from_blob}
use yyb_go.Protocol.Pool.{ok as read_ok, err as read_err}
use yyb_go.Store.Accounts.{get_account, set_account_uin}
use yyb_go.Store.Sessions.{get_session, put_session, invalidate_session}
use yyb_go.Store.{
  Json, WechatAccount, SessionRow, Db, Error, no_rows, engine, unsupported, decode_session_blob,
  Result, Done,
}
use yyb_go.Store.{ok as store_ok, err as store_err}

pub data PoolError : Type 0 where
  of_store : Error → PoolError
  of_blob : BlobError → PoolError
  of_login : Text → PoolError
  of_call : Text → PoolError

pub data State : Type 0 where
  ready : WmpfSession → State
  no_state : PoolError → State
  panicked : State

-- The parts of the configuration that are read here; a duration is in whole seconds.
pub record Config : Type 0 where
  pub session_ttl : ℕ
  pub tcp_proxy : Text
  pub tcp_proxy_fallback_direct : Bool

unfoldable pub effective_proxy : Text → Text → Text
effective_proxy [] def = def
effective_proxy (c ∷ req) def = c ∷ req

-- `exp == 0 || exp > ttlExp`; a time before 1970 counts as 0, as both have passed.
unfoldable pub session_expires_at : ℕ → ℕ → ℤ → ℕ
session_expires_at now ttl (pos zero) = now + ttl
session_expires_at now ttl (pos (suc n)) = if ltb (now + ttl) (suc n) then now + ttl else suc n
session_expires_at now ttl (negsuc n) = 0

-- The 64-bit pattern of an int64, which stands for the uin in the store.
abbrev pub pattern_of : ℤ → ℕ
pattern_of (pos n) = n
pattern_of (negsuc n) = 2 ^ 64 - (n + 1)

module _ (json : Json Fields) (cfg : Config) where
  abbrev pub read_state : Read → State
  read_state (read_ok st) = ready st
  read_state (read_err e) = no_state (of_blob e)

  -- `none` where the store has no session.
  abbrev pub stored : Result (SessionRow Fields) × Db → Option State × Db
  stored (store_ok row, db) =
      (some (read_state (session_from_blob (or_empty row.session_blob))), db)
  stored (store_err no_rows, db) = (none, db)
  stored (store_err engine, db) = (some (no_state (of_store engine)), db)
  stored (store_err unsupported, db) = (some (no_state (of_store unsupported)), db)
  stored (store_err decode_session_blob, db) = (some (no_state (of_store decode_session_blob)), db)

  abbrev pub put_state : WmpfSession → Result Done × Db → State × Db
  put_state st (store_ok _, db) = (ready st, db)
  put_state st (store_err e, db) = (no_state (of_store e), db)

  -- A login is stored, with the id that is drawn for its row; the error of setting the uin is dropped.
  abbrev pub logged_in : ℕ → ℕ → Text → ℕ → ℕ → Outcome Text WmpfSession → Db → State × Db
  logged_in drawn account_id tcp_proxy now id (failed why) db = (no_state (of_login why), db)
  logged_in drawn account_id tcp_proxy now id crashed db = (panicked, db)
  logged_in drawn account_id tcp_proxy now id (succeeded st) db =
      let uin = pattern_of st.session.uin in
      put_state st (
        put_session json drawn account_id (some uin) (some (as_json (to_blob st)))
          (session_expires_at now cfg.session_ttl st.psk.expired_at) tcp_proxy now
          (set_account_uin id uin now db).1)

  abbrev pub with_account :
      ℕ → ℕ → Text → ℕ → Outcome Text WmpfSession → Result (WechatAccount Fields) × Db → State × Db
  with_account drawn account_id tcp_proxy now login (store_err e, db) = (no_state (of_store e), db)
  with_account drawn account_id tcp_proxy now login (store_ok acc, db) =
      logged_in drawn account_id tcp_proxy now acc.id login db

  abbrev pub if_missing : Option State × Db → (Db → State × Db) → State × Db
  if_missing (some st, db) otherwise = (st, db)
  if_missing (none, db) otherwise = otherwise db

  -- The store is asked again behind the lock.
  unfoldable pub state : ℕ → ℕ → Text → ℕ → Outcome Text WmpfSession → Db → State × Db
  state drawn account_id tcp_proxy now login db =
      if_missing (stored (get_session json account_id tcp_proxy now db)) (λ db1.
        if_missing (stored (get_session json account_id tcp_proxy now db1)) (λ db2.
          with_account drawn account_id tcp_proxy now login (get_account json account_id db2)))

  unfoldable pub invalidate : ℕ → Text → Db → Db
  invalidate account_id tcp_proxy db =
      (invalidate_session account_id (effective_proxy tcp_proxy cfg.tcp_proxy) db).1

  abbrev pub Ended : Type 0
  Ended = Outcome PoolError Fields

  abbrev pub called : Outcome Text Fields → Ended
  called (succeeded m) = succeeded m
  called (failed why) = failed (of_call why)
  called crashed = crashed

  -- The second try, on the direct connection.
  abbrev pub direct : (WmpfSession → Outcome Text Fields) → State × Db → Ended × Db
  direct op (ready st, db) = (called (op st), db)
  direct op (no_state e, db) = (failed e, db)
  direct op (panicked, db) = (crashed, db)

  abbrev pub has_proxy : Text → Bool
  has_proxy [] = false
  has_proxy (c ∷ s) = true

  abbrev pub fall_back :
      Bool → PoolError → (WmpfSession → Outcome Text Fields) → (Db → State × Db) → Db → Ended × Db
  fall_back false why op again db = (failed why, db)
  fall_back true why op again db = direct op (again db)

  abbrev pub after_call :
      ℕ
      → Text
      → (WmpfSession → Outcome Text Fields)
      → (Db → State × Db)
      → Outcome Text Fields
      → Db
      → Ended × Db
  after_call account_id effective op again (succeeded m) db = (succeeded m, db)
  after_call account_id effective op again crashed db = (crashed, db)
  after_call account_id effective op again (failed why) db =
      if not (has_proxy effective) || not cfg.tcp_proxy_fallback_direct
      then (failed (of_call why), db)
      else direct op (again (invalidate account_id effective db))

  abbrev pub on_state :
      ℕ → Text → (WmpfSession → Outcome Text Fields) → (Db → State × Db) → State × Db → Ended × Db
  on_state account_id effective op again (ready st, db) =
      after_call account_id effective op again (op st) db
  on_state account_id effective op again (panicked, db) = (crashed, db)
  on_state account_id effective op again (no_state e, db) =
      fall_back (has_proxy effective && cfg.tcp_proxy_fallback_direct) e op again db

  -- The login and the id of a row are given for each proxy; the second state has none.
  unfoldable pub run :
      (Text → ℕ)
      → ℕ
      → Text
      → ℕ
      → (Text → Outcome Text WmpfSession)
      → (WmpfSession → Outcome Text Fields)
      → Db
      → Ended × Db
  run drawn account_id tcp_proxy now login op db =
      let effective = effective_proxy tcp_proxy cfg.tcp_proxy in
      on_state account_id effective op (state (drawn []) account_id [] now (login []))
        (state (drawn effective) account_id effective now (login effective) db)
