-- ===== src/HttpApi/KeepAlive.antt =====
-- internal/httpapi/keepalive.go: the credentials of the accounts are renewed before they expire. A time
-- is a number of nanoseconds; the store keeps seconds.
pub mod Round
pub mod Failures
pub mod Renewal
pub mod Others
pub mod Backoff
pub mod Spared
pub mod Tests
use yyb_go.Prelude.{
  ℕ, zero, suc, ◌+◌, ◌*◌, ◌/◌, Bool, true, false, not, ◌&&◌, ◌||◌, List, [], ◌∷◌, ◌++◌, Option,
  none, some, map, codes, ltb, leb, if◌then◌else◌,
}
use yyb_go.Prelude.Map.{nat_eq, lookup, insert, remove}
use yyb_go.Prelude.Outcome.{Outcome, ok as answered, err as refused, panic as crashed}
use yyb_go.Prelude.Text.{Text, text_eq, has_prefix, trim_space, ℤ, pos, negsuc}
use yyb_go.Protocol.Values.{Fields}
use yyb_go.Protocol.LoginBuffer.{
  LoginBufferCredentials, LoginBufferResult, Remote, credentials_from_map, to_map,
  refresh_login_buffer,
}
use yyb_go.Store.Accounts.{
  get_account, list_accounts, set_account_status, set_account_credential, set_account_profile,
}
use yyb_go.Store.{Json, WechatAccount, Db, Error, Result, ok, err, Done, done}

-- What the keep-alive calls that is not in this program: encoding/json, the servers, unicode.ToLower, and
-- the search and download of the picture of an account.
pub record Service : Type 0 where
  pub json : Json Fields
  pub remote : Remote
  pub lower : ℕ → ℕ
  pub resolve_avatar : Text → Option Fields → Text
  pub keep_alive_ahead : ℕ

abbrev pub second : ℕ
second = 1000000000

-- Five minutes.
abbrev pub keep_alive_retry_backoff : ℕ
keep_alive_retry_backoff = 300 * second

abbrev pub status_text : Option Text → Text
status_text none = codes "unknown"
status_text (some []) = codes "unknown"
status_text (some (c ∷ s)) = c ∷ s

abbrev pub account_status : WechatAccount Fields → Text
account_status acc = status_text acc.status

unfoldable pub contains : Text → Text → Bool
contains [] sub = has_prefix [] sub
contains (c ∷ s) sub = has_prefix (c ∷ s) sub || contains s sub

unfoldable pub definitive_refresh_message : (ℕ → ℕ) → Text → Bool
definitive_refresh_message lower raw =
    let message = map lower (trim_space raw) in
    let invalid =
      contains message (codes "invalid")
      || contains message (codes "expired")
      || (contains message (codes "expire") || contains message (codes "无效"))
      || (contains message (codes "过期") || contains message (codes "失效")) in
    let token =
      contains message (codes "token")
      || contains message (codes "登录")
      || (contains message (codes "凭证") || contains message (codes "授权")) in
    let relogin =
      contains message (codes "relogin")
      || contains message (codes "re-login")
      || (contains message (codes "重新登录") || contains message (codes "重新授权")) in
    contains message (codes "missing refresh token")
    || (contains message (codes "42007") && contains message (codes "refresh_token"))
    || (contains message (codes "40188") && contains message (codes "invalid scope"))
    || (relogin || invalid && token)

-- `n <= 0`, and `now >= n` and `n > now` for a time now in seconds.
abbrev pub not_positive : ℤ → Bool
not_positive (pos zero) = true
not_positive (pos (suc n)) = false
not_positive (negsuc n) = true

abbrev pub reached : ℕ → ℤ → Bool
reached now (pos n) = leb n now
reached now (negsuc n) = true

unfoldable pub credentials_due_for_refresh : LoginBufferCredentials → ℕ → ℕ → Bool
credentials_due_for_refresh creds now ahead =
    not_positive creds.expires_at || reached ((now + ahead) / second) creds.expires_at

unfoldable pub refresh_failure_status : (ℕ → ℕ) → Text → LoginBufferCredentials → Text → ℕ → Text
refresh_failure_status lower current creds message now =
    if definitive_refresh_message lower message
    then codes "expired"
    else if not (reached (now / second) creds.expires_at)
    then current
    else codes "unknown"

-- Why a refresh failed; a failed update of the status is added to the reason.
pub data Failure : Type 0 where
  of_store : Error → Failure
  credentials_missing : Failure
  of_remote : Text → Failure
  and_update_status : Failure → Error → Failure

-- The status, whether the credentials were renewed, and the error.
pub record Refreshed : Type 0 where
  pub status : Text
  pub refreshed : Bool
  pub error : Option Failure

abbrev pub failure_with : Text → Failure → Result Done × Db → Refreshed × Db
failure_with status why (ok _, db) =
    (record { status = status; refreshed = false; error = some why }, db)
failure_with status why (err e, db) =
    (record { status = status; refreshed = false; error = some (and_update_status why e) }, db)

abbrev pub unrefreshed : Text → Option Failure → Refreshed
unrefreshed status error = record { status = status; refreshed = false; error = error }

abbrev pub picture : Text → Option Text
picture [] = none
picture (c ∷ s) = some (c ∷ s)

module _ (s : Service) where
  -- The picture is set where there is one; the error of that is dropped.
  unfoldable pub set_avatar : WechatAccount Fields → ℕ → Db → Db
  set_avatar latest now db = elim (picture (s.resolve_avatar latest.openid latest.user_info)) [
    | none ↦ db
    | some avatar ↦
        (set_account_profile s.json latest.id latest.nickname (some avatar) latest.user_info
          (now / second) db).1
  ]

  abbrev pub status_set : WechatAccount Fields → ℕ → Result Done × Db → Refreshed × Db
  status_set latest now (ok _, db) =
      (record { status = codes "alive"; refreshed = true; error = none }, set_avatar latest now db)
  status_set latest now (err e, db) = (unrefreshed (codes "expired") (some (of_store e)), db)

  abbrev pub credential_set : WechatAccount Fields → ℕ → Result Done × Db → Refreshed × Db
  credential_set latest now (ok _, db) =
      status_set latest now (set_account_status latest.id (codes "alive") (now / second) db)
  credential_set latest now (err e, db) = (unrefreshed (codes "expired") (some (of_store e)), db)

  abbrev pub after_refresh :
      WechatAccount Fields
      → LoginBufferCredentials
      → ℕ
      → Outcome Text LoginBufferResult
      → Db
      → Refreshed × Db
  after_refresh latest creds now (answered result) db = credential_set latest now (
      set_account_credential s.json latest.id result.login_buffer
        (some (to_map (now / second) result.credentials)) (now / second) db)
  after_refresh latest creds now (refused message) db =
      let status = refresh_failure_status s.lower (account_status latest) creds message now in
      failure_with status (of_remote message)
        (set_account_status latest.id status (now / second) db)
  after_refresh latest creds now crashed db = (unrefreshed [] none, db)

  abbrev pub with_credentials :
      WechatAccount Fields → ℕ → Bool → Option Fields → Db → Refreshed × Db
  with_credentials latest now force none db =
      failure_with (codes "unknown") credentials_missing
        (set_account_status latest.id (codes "unknown") (now / second) db)
  with_credentials latest now force (some m) db =
      let creds = credentials_from_map m in
      let refreshed =
        after_refresh latest creds now (refresh_login_buffer s.remote (now / second) creds) db in
      if not force && not (credentials_due_for_refresh creds now s.keep_alive_ahead)
      then (unrefreshed (account_status latest) none, db)
      else refreshed

  abbrev pub loaded : ℕ → Bool → Result (WechatAccount Fields) × Db → Refreshed × Db
  loaded now force (err e, db) = (unrefreshed (codes "unknown") (some (of_store e)), db)
  loaded now force (ok latest, db) =
      if text_eq (account_status latest) (codes "expired")
      then (unrefreshed (codes "expired") none, db)
      else with_credentials latest now force latest.credentials db

  unfoldable pub refresh_account : ℕ → ℕ → Bool → Db → Refreshed × Db
  refresh_account id now force db = loaded now force (get_account s.json id db)
