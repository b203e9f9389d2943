-- ===== src/Protocol/Pool/Cached.antt =====
-- internal/protocol/pool.go: the session of a login is used again.
use yyb_go.Prelude.{
  ℕ, ◌<◌, ◌≡◌, refl, ap, ◌∙◌, ◌⊎◌, Bool, List, [], some, inl, inr, arith, ◌&&◌, ltb,
}
use yyb_go.Prelude.Outcome.{Outcome, ok as succeeded}
use yyb_go.Prelude.Text.{Text}
use yyb_go.Protocol.Values.{Fields, or_empty}
use yyb_go.Protocol.Pool.{WmpfSession, to_blob, as_json, session_from_blob}
use yyb_go.Protocol.Pool.Blob.{IsComplete, as_read, session_from_blob-as_json}
use yyb_go.Protocol.Pool.State.{
  State, Config, ready, no_state, of_store, stored, if_missing, with_account, put_state, pattern_of,
  session_expires_at, state, read_state,
}
use yyb_go.Store.Accounts.{get_account, set_account_uin}
use yyb_go.Store.Calls.{with_faults, execute-Keeps, query-Keeps, query_cases}
use yyb_go.Store.Sessions.{get_session, put_session, scan_found, is_session}
use yyb_go.Store.SessionCache.{put_session-get_session, session_read}
use yyb_go.Store.Steps.{uin_set, Step-IsValid}
use yyb_go.Store.Rows.{find_where}
use yyb_go.Store.Valid.{IsValid, with_faults-IsValid}
use yyb_go.Store.{Json, SessionRow, Db, no_rows, engine, Result, ok, err, Done, done, query}

module _ (json : Json Fields) (cfg : Config) where
  -- The parts of the database that a new session depends on.
  abbrev CanPut : ℕ → Db → Type 0
  CanPut drawn db = IsValid db × (db.session_sequence < drawn)

  faulty-CanPut :
      (drawn : ℕ) (fs : List Bool) (db : Db) → CanPut drawn db → CanPut drawn (with_faults fs db)
  faulty-CanPut drawn fs db (v, fresh) = (with_faults-IsValid fs db v, fresh)

  set_account_uin-CanPut :
      (drawn id uin now : ℕ) (db : Db)
      → CanPut drawn db
      → CanPut drawn (set_account_uin id uin now db).1
  unfolding set_account_uin
  set_account_uin-CanPut drawn id uin now db (v, fresh) = (
    Step-IsValid json db _ (uin_set id uin now db) v,
    execute-Keeps (λ d. d.session_sequence < drawn) _ db (λ fs. fresh) (λ fs. fresh),
  )

  -- What a later state finds.
  abbrev Cached : ℕ → Text → WmpfSession → ℕ → Db → Type 0
  Cached account_id tcp_proxy st expires_at db =
      (drawn later : ℕ) (login : Outcome Text WmpfSession)
      → later < expires_at
      → (state json cfg drawn account_id tcp_proxy later login (with_faults [] db)).0
        ≡ ready (as_read st)

  row-Cached :
      (account_id : ℕ) (tcp_proxy : Text) (st : WmpfSession) (drawn later : ℕ)
      (login : Outcome Text WmpfSession) (row : SessionRow Fields) (db : Db)
      → IsComplete st.session
      → session_read json account_id tcp_proxy later db ≡ ok row
      → row.session_blob ≡ some (as_json (to_blob st))
      → (state json cfg drawn account_id tcp_proxy later login (with_faults [] db)).0
        ≡ ready (as_read st)
  unfolding state
  row-Cached account_id tcp_proxy st drawn later login row db complete found is_blob =
      from_store (get_session json account_id tcp_proxy later (with_faults [] db)) found
    where
      is_read :
          read_state json cfg (session_from_blob (or_empty row.session_blob)) ≡ ready (as_read st)
      is_read = rw (is_blob, session_from_blob-as_json st complete) refl

      from_store :
          (answer : Result (SessionRow Fields) × Db)
          → answer.0 ≡ ok row
          → (if_missing json cfg (stored json cfg answer) (λ db1.
              if_missing json cfg
                (stored json cfg (get_session json account_id tcp_proxy later db1))
                (λ db2.
                  with_account json cfg drawn account_id tcp_proxy later login
                    (get_account json account_id db2)))).0
            ≡ ready (as_read st)
      from_store (ok r, d) e =
          let same : r ≡ row = cc in
          ap
            (λ (x : SessionRow Fields).
              read_state json cfg (session_from_blob (or_empty x.session_blob)))
            same
          ∙ is_read
      from_store (err why, d) e = absurd (cc)

  put-Cached :
      (drawn account_id uin : ℕ) (st : WmpfSession) (expires_at : ℕ) (tcp_proxy : Text) (now : ℕ)
      (db db' : Db)
      → ((t : Text)
          → json.marshal (some (as_json (to_blob st))) ≡ some t
          → json.unmarshal t ≡ some (some (as_json (to_blob st))))
      → IsComplete st.session
      → CanPut drawn db
      → put_session json drawn account_id
          (some uin)
          (some (as_json (to_blob st)))
          expires_at
          tcp_proxy
          now
          db
        ≡ (ok done, db')
      → Cached account_id tcp_proxy st expires_at db'
  put-Cached drawn account_id uin st expires_at tcp_proxy now db db' returns complete (v, fresh) put
        drawn' later login early =
      let (remembers, others) =
        put_session-get_session json drawn account_id (some uin) (some (as_json (to_blob st)))
          (some (as_json (to_blob st))) expires_at tcp_proxy now db db' returns v fresh put in
      elim (remembers later) [
        | inl (late, gone) ↦ absurd (omega arith)
        | inr (in_time, (row, found, is_blob, is_uin, is_expiry)) ↦
            row-Cached account_id tcp_proxy st drawn' later login row db' complete found is_blob
      ]

  put_state-ready :
      (st st' : WmpfSession) (ended : Result Done × Db) (db' : Db)
      → put_state json cfg st ended ≡ (ready st', db')
      → (ended ≡ (ok done, db')) × (st ≡ st')
  put_state-ready st st' (ok done, d) db' e = (cc, cc)
  put_state-ready st st' (err why, d) db' e = absurd (cc)

  with_account-Cached :
      (drawn account_id : ℕ) (tcp_proxy : Text) (now : ℕ) (st st' : WmpfSession)
      (answer : Result _ × Db) (db' : Db)
      → ((t : Text)
          → json.marshal (some (as_json (to_blob st))) ≡ some t
          → json.unmarshal t ≡ some (some (as_json (to_blob st))))
      → IsComplete st.session
      → CanPut drawn answer.1
      → with_account json cfg drawn account_id tcp_proxy now (succeeded st) answer
        ≡ (ready st', db')
      → Cached account_id tcp_proxy st
          (session_expires_at now cfg.session_ttl st.psk.expired_at)
          db'
  with_account-Cached drawn account_id tcp_proxy now st st' (err why, d) db' returns complete can
        e =
      absurd (cc)
  with_account-Cached drawn account_id tcp_proxy now st st' (ok acc, d) db' returns complete can e =
      let uin = pattern_of st.session.uin in
      let (put, same) = put_state-ready st st' _ db' e in
      put-Cached drawn account_id uin st (session_expires_at now cfg.session_ttl st.psk.expired_at)
        tcp_proxy now (set_account_uin acc.id uin now d).1 db' returns complete
        (set_account_uin-CanPut drawn acc.id uin now d can) put

  get_session_cases :
      (account_id : ℕ) (tcp_proxy : Text) (now : ℕ) (db : Db)
      → (fs : List Bool) × ((get_session json account_id tcp_proxy now db
            ≡ (err engine, with_faults fs db))
          ⊎ (get_session json account_id tcp_proxy now db
              ≡ (session_read json account_id tcp_proxy now db, with_faults fs db)))
  unfolding get_session query
  get_session_cases account_id tcp_proxy now db =
      query_cases
        (λ (d : Db).
          scan_found json (
            find_where (λ s. is_session account_id tcp_proxy s && ltb now s.expires_at) d.sessions))
        db

  -- A store without the session lets the state go on, unless it fails.
  missing-next :
      (account_id : ℕ) (tcp_proxy : Text) (now : ℕ) (db db' : Db) (st : WmpfSession)
      (otherwise : Db → State × Db)
      → session_read json account_id tcp_proxy now db ≡ err no_rows
      → if_missing json cfg
          (stored json cfg (get_session json account_id tcp_proxy now db))
          otherwise
        ≡ (ready st, db')
      → (fs : List Bool) × (otherwise (with_faults fs db) ≡ (ready st, db'))
  missing-next account_id tcp_proxy now db db' st otherwise missing e =
      let (fs, ends) = get_session_cases account_id tcp_proxy now db in
      elim ends [
        | inl broken ↦
            let result : ◌≡◌ {A = State × Db} (no_state (of_store engine), with_faults fs db)
                (ready st, db') =
              rw broken at e in
            absurd (cc)
        | inr answered ↦
            let answer =
              answered ∙ ap (λ (a : Result (SessionRow Fields)). (a, with_faults fs db)) missing in
            (fs, rw answer at e)
      ]

  get_account-CanPut :
      (drawn id : ℕ) (db : Db) → CanPut drawn db → CanPut drawn (get_account json id db).1
  unfolding get_account
  get_account-CanPut drawn id db can =
      query-Keeps (CanPut drawn) _ db (λ fs. faulty-CanPut drawn fs db can)

  -- If the store has no session of an account for a proxy and the state comes from a login, then every
  -- later state of that account and proxy, up to the end of the session, is the session of that login,
  -- whatever another login would give. JSON gives back the blob that it was given, and the store works.
  pub state-reuses :
      (drawn account_id : ℕ) (tcp_proxy : Text) (now : ℕ) (st st' : WmpfSession) (db db' : Db)
      → ((t : Text)
          → json.marshal (some (as_json (to_blob st))) ≡ some t
          → json.unmarshal t ≡ some (some (as_json (to_blob st))))
      → IsComplete st.session
      → IsValid db
      → db.session_sequence < drawn
      → session_read json account_id tcp_proxy now db ≡ err no_rows
      → state json cfg drawn account_id tcp_proxy now (succeeded st) db ≡ (ready st', db')
      → (drawn' later : ℕ) (login : Outcome Text WmpfSession)
      → later < session_expires_at now cfg.session_ttl st.psk.expired_at
      → (state json cfg drawn' account_id tcp_proxy later login (with_faults [] db')).0
        ≡ ready (as_read st)
  unfolding state
  state-reuses drawn account_id tcp_proxy now st st' db db' returns complete v fresh missing e =
      let (fs, e1) = missing-next account_id tcp_proxy now db db' st' _ missing e in
      let (gs, e2) =
        missing-next account_id tcp_proxy now (with_faults fs db) db' st' _ missing e1 in
      with_account-Cached drawn account_id tcp_proxy now st st'
        (get_account json account_id (with_faults gs db)) db' returns complete
        (get_account-CanPut drawn account_id (with_faults gs db)
          (faulty-CanPut drawn gs db (v, fresh)))
        e2
