-- ===== src/HttpApi/KeepAlive/Round.antt =====
-- internal/httpapi/keepalive.go: one round over all accounts. The workers run at the same time, each on
-- its own account; here they run in the order of the accounts, and each is one step.
use yyb_go.Prelude.{
  ℕ, ◌+◌, Bool, true, false, not, List, [], ◌∷◌, Option, none, some, codes, ltb, if◌then◌else◌,
}
use yyb_go.Prelude.Map.{nat_eq, lookup, insert, remove}
use yyb_go.Prelude.Text.{text_eq}
use yyb_go.Protocol.Values.{Fields, or_empty}
use yyb_go.Protocol.LoginBuffer.{credentials_from_map}
use yyb_go.Store.Accounts.{list_accounts}
use yyb_go.Store.{WechatAccount, Db, Result, ok, err}
use yyb_go.HttpApi.KeepAlive.{
  Service, Failure, account_status, credentials_due_for_refresh, keep_alive_retry_backoff,
  refresh_account,
}

-- The database, and the times before which an account is not tried again.
pub record Keeper : Type 0 where
  pub db : Db
  pub keep_alive_retry_at : List (ℕ × ℕ)

abbrev pub set_keep_alive_retry : ℕ → ℕ → Keeper → Keeper
set_keep_alive_retry id retry_at k = record k {
  keep_alive_retry_at = insert id retry_at k.keep_alive_retry_at;
}

abbrev pub clear_keep_alive_retry : ℕ → Keeper → Keeper
clear_keep_alive_retry id k = record k { keep_alive_retry_at = remove id k.keep_alive_retry_at }

abbrev pub skip_until : ℕ → ℕ → Option ℕ → Keeper → Keeper × Bool
skip_until id now none k = (k, false)
skip_until id now (some retry_at) k =
    if not (ltb now retry_at) then (clear_keep_alive_retry id k, false) else (k, true)

module _ (s : Service) where
  unfoldable pub keep_alive_should_skip : WechatAccount Fields → ℕ → Keeper → Keeper × Bool
  keep_alive_should_skip acc now k =
      if not (
        credentials_due_for_refresh (credentials_from_map (or_empty acc.credentials)) now
          s.keep_alive_ahead)
      then (k, true)
      else skip_until acc.id now (lookup acc.id k.keep_alive_retry_at) k

  abbrev pub recorded : ℕ → ℕ → List (ℕ × ℕ) → Option Failure → Db → Keeper
  recorded id failed_at retries (some why) db =
      set_keep_alive_retry id (failed_at + keep_alive_retry_backoff)
        (record { db = db; keep_alive_retry_at = retries })
  recorded id failed_at retries none db =
      clear_keep_alive_retry id (record { db = db; keep_alive_retry_at = retries })

  -- What the worker of an account does. The pause counts from the end of a refresh that failed.
  unfoldable pub work : ℕ → ℕ → ℕ → Keeper → Keeper
  work id now failed_at k =
      let (result, db) = refresh_account s id now false k.db in
      recorded id failed_at k.keep_alive_retry_at result.error db

  abbrev pub unless_skipped : ℕ → ℕ → ℕ → Keeper × Bool → Keeper
  unless_skipped id now failed_at (k, true) = k
  unless_skipped id now failed_at (k, false) = work id now failed_at k

  unfoldable pub visit : WechatAccount Fields → ℕ → ℕ → Keeper → Keeper
  visit acc now failed_at k =
      if text_eq (account_status acc) (codes "expired")
      then k
      else unless_skipped acc.id now failed_at (keep_alive_should_skip acc now k)

  -- The loop over the accounts; the context may be cancelled before any of them. An account is looked at
  -- by its `clock`, and its refresh fails at `failed_at` if it does.
  unfoldable pub visit_all :
      (ℕ → Bool) → (ℕ → ℕ) → (ℕ → ℕ) → List (WechatAccount Fields) → Keeper → Keeper
  visit_all cancelled clock failed_at [] k = k
  visit_all cancelled clock failed_at (acc ∷ accounts) k =
      let rest =
        visit_all cancelled clock failed_at accounts
          (visit acc (clock acc.id) (failed_at acc.id) k) in
      if cancelled acc.id then k else rest

  abbrev pub visit_listed :
      (ℕ → Bool)
      → (ℕ → ℕ)
      → (ℕ → ℕ)
      → List (ℕ × ℕ)
      → Result (List (WechatAccount Fields)) × Db
      → Keeper
  visit_listed cancelled clock failed_at retries (err e, db) = record {
    db = db;
    keep_alive_retry_at = retries;
  }
  visit_listed cancelled clock failed_at retries (ok accounts, db) =
      visit_all cancelled clock failed_at accounts
        (record { db = db; keep_alive_retry_at = retries })

  unfoldable pub refresh_due_accounts : (ℕ → Bool) → (ℕ → ℕ) → (ℕ → ℕ) → Keeper → Keeper
  refresh_due_accounts cancelled clock failed_at k =
      visit_listed cancelled clock failed_at k.keep_alive_retry_at (list_accounts s.json k.db)
