-- ===== src/Protocol/Pool/Fallback.antt =====
-- internal/protocol/pool.go: a call that fails through a proxy, against the same call without one.
use yyb_go.Prelude.{ℕ, ◌≡◌, refl, ap, ◌∙◌, ◌⊎◌, inl, inr, true, [], Option, none, some}
use yyb_go.Prelude.Outcome.{Outcome, ok as succeeded, err as failed, panic as crashed}
use yyb_go.Prelude.Text.{Text}
use yyb_go.Protocol.Values.{Fields, or_empty}
use yyb_go.Protocol.Pool.{WmpfSession, Read, session_from_blob}
use yyb_go.Protocol.Pool.{ok as read_ok, err as read_err}
use yyb_go.Protocol.Pool.State.{
  State, Config, ready, no_state, panicked, PoolError, read_state, stored, put_state, with_account,
  if_missing, has_proxy, called, direct, after_call, on_state, effective_proxy, invalidate, state,
  run,
}
use yyb_go.Store.Accounts.{get_account}
use yyb_go.Store.Sessions.{get_session}
use yyb_go.Store.{
  Json, Db, SessionRow, WechatAccount, Result, Done, ok, err, no_rows, engine, unsupported,
  decode_session_blob,
}

-- A state depends on nothing of the configuration but how long a session is kept.
module _ (json : Json Fields) (cfg other : Config) (ttl : cfg.session_ttl ≡ other.session_ttl) where
  read_state-same : (read : Read) → read_state json cfg read ≡ read_state json other read
  read_state-same (read_ok st) = refl
  read_state-same (read_err e) = refl

  stored-same :
      (answer : Result (SessionRow Fields) × Db) → stored json cfg answer ≡ stored json other answer
  stored-same (ok row, db) =
      ap (λ s. (some s, db)) (read_state-same (session_from_blob (or_empty row.session_blob)))
  stored-same (err no_rows, db) = refl
  stored-same (err engine, db) = refl
  stored-same (err unsupported, db) = refl
  stored-same (err decode_session_blob, db) = refl

  put_state-same :
      (st : WmpfSession) (ended : Result Done × Db)
      → put_state json cfg st ended ≡ put_state json other st ended
  put_state-same st (ok _, db) = refl
  put_state-same st (err e, db) = refl

  with_account-same :
      (drawn id : ℕ) (proxy : Text) (now : ℕ) (login : Outcome Text WmpfSession)
      (answer : Result (WechatAccount Fields) × Db)
      → with_account json cfg drawn id proxy now login answer
        ≡ with_account json other drawn id proxy now login answer
  with_account-same drawn id proxy now login (err e, db) = refl
  with_account-same drawn id proxy now (failed why) (ok acc, db) = refl
  with_account-same drawn id proxy now crashed (ok acc, db) = refl
  with_account-same drawn id proxy now (succeeded st) (ok acc, db) = rw ttl (put_state-same st _)

  if_missing-same :
      (first : Option State × Db) (k l : Db → State × Db)
      → ((db : Db) → k db ≡ l db)
      → if_missing json cfg first k ≡ if_missing json other first l
  if_missing-same (some st, db) k l same = refl
  if_missing-same (none, db) k l same = same db

  looked_up-same :
      (id : ℕ) (proxy : Text) (now : ℕ) (k l : Db → State × Db) (db : Db)
      → ((d : Db) → k d ≡ l d)
      → if_missing json cfg (stored json cfg (get_session json id proxy now db)) k
        ≡ if_missing json other (stored json other (get_session json id proxy now db)) l
  looked_up-same id proxy now k l db same =
      rw (stored-same (get_session json id proxy now db))
        (if_missing-same (stored json other (get_session json id proxy now db)) k l same)

  state-same :
      (drawn id : ℕ) (proxy : Text) (now : ℕ) (login : Outcome Text WmpfSession) (db : Db)
      → state json cfg drawn id proxy now login db ≡ state json other drawn id proxy now login db
  unfolding state
  state-same drawn id proxy now login db =
      let asked : (Db → State × Db) =
        (λ db2. with_account json cfg drawn id proxy now login (get_account json id db2)) in
      let asked_other : (Db → State × Db) =
        (λ db2. with_account json other drawn id proxy now login (get_account json id db2)) in
      looked_up-same id proxy now
        (λ db1. if_missing json cfg (stored json cfg (get_session json id proxy now db1)) asked)
        (λ db1.
          if_missing json other (stored json other (get_session json id proxy now db1)) asked_other)
        db
        (λ db1.
          looked_up-same id proxy now asked asked_other db1
            (λ db2. with_account-same drawn id proxy now login (get_account json id db2)))

  -- Without a proxy, a call is what the second try is.
  direct-alone :
      (id : ℕ) (op : WmpfSession → Outcome Text Fields) (again : Db → State × Db)
      (result : State × Db)
      → direct json cfg op result ≡ on_state json other id [] op again result
  direct-alone id op again (no_state e, db) = refl
  direct-alone id op again (panicked, db) = refl
  direct-alone id op again (ready st, db) = tried (op st)
    where
      tried :
          (outcome : Outcome Text Fields)
          → (called json cfg outcome, db) ≡ after_call json other id [] op again outcome db
      tried (succeeded m) = refl
      tried (failed why) = refl
      tried crashed = refl

module _ (json : Json Fields) (cfg : Config) (drawn : Text → ℕ) (id : ℕ) (tcp_proxy : Text)
    (now : ℕ) (login : Text → Outcome Text WmpfSession)
    (op : WmpfSession → Outcome Text Fields) where
  abbrev proxy : Text
  proxy = effective_proxy tcp_proxy cfg.tcp_proxy

  -- The first try fails: in the call, and then the session of the proxy is invalidated, or before it.
  abbrev pub Fails : Db → Db → Type 0
  Fails db behind =
      ((st : WmpfSession) × (why : Text) × (db1 : Db) × (state json cfg (drawn proxy) id proxy now
            (login proxy) db
          ≡ (ready st, db1))
        × (op st ≡ failed why)
        × (behind ≡ invalidate json cfg id proxy db1))
      ⊎ ((why : PoolError) × (state json cfg (drawn proxy) id proxy now (login proxy) db
            ≡ (no_state why, behind)))

  run-direct :
      (db behind : Db)
      → cfg.tcp_proxy_fallback_direct ≡ true
      → has_proxy json cfg proxy ≡ true
      → Fails db behind
      → run json cfg drawn id tcp_proxy now login op db
        ≡ direct json cfg op (state json cfg (drawn []) id [] now (login []) behind)
  unfolding run invalidate
  run-direct db behind on proxied (inl (st, why, db1, first, fails, is)) =
      rw (run, first, fails, proxied, on, is) refl
  run-direct db behind on proxied (inr (why, first)) = rw (run, first, proxied, on) refl

  -- Where the fallback is on, as it is by default, a call whose try through the proxy fails ends as the
  -- same call of a pool without a proxy, which keeps its sessions as long, ends on the database behind
  -- that try, in its result as in what it leaves in the database. Where the call itself failed, the session
  -- of the proxy has been invalidated before.
  pub run-Falls_back :
      (alone : Config) (db behind : Db)
      → cfg.tcp_proxy_fallback_direct ≡ true
      → has_proxy json cfg (effective_proxy tcp_proxy cfg.tcp_proxy) ≡ true
      → cfg.session_ttl ≡ alone.session_ttl
      → alone.tcp_proxy ≡ []
      → Fails db behind
      → run json cfg drawn id tcp_proxy now login op db
        ≡ run json alone drawn id [] now login op behind
  run-Falls_back alone db behind on proxied ttl no_proxy fails =
      run-direct db behind on proxied fails
      ∙ ap (direct json cfg op)
          (state-same json cfg alone ttl (drawn []) id [] now (login []) behind)
      ∙ direct-alone json cfg alone ttl id op (state json alone (drawn []) id [] now (login []))
          (state json alone (drawn []) id [] now (login []) behind)
      ∙ unproxied alone behind no_proxy
    where
      unproxied :
          (alone : Config) (behind : Db)
          → alone.tcp_proxy ≡ []
          → on_state json alone id [] op
              (state json alone (drawn []) id [] now (login []))
              (state json alone (drawn []) id [] now (login []) behind)
            ≡ run json alone drawn id [] now login op behind
      unproxied alone behind no_proxy = unfold run effective_proxy in rw no_proxy refl
