-- ===== src/Protocol/Pool/Tests.antt =====
-- internal/protocol/pool.go: a session that is stored and read back.
use yyb_go.Prelude.{
  ◌+◌, ◌-◌, ◌^◌, ◌<◌, ◌≡◌, refl, arith, true, false, [], ◌∷◌, none, some, inr, codes, if◌then◌else◌,
}
use yyb_go.Prelude.Outcome.{Outcome, ok as succeeded, err as failed}
use yyb_go.Prelude.Text.{Text, text_eq, pos, negsuc}
use yyb_go.Protocol.Values.{Fields, empty}
use yyb_go.Protocol.Json.{decoded_fields, float64, nearest, excess, rounded}
use yyb_go.Protocol.Pool.{AppSession, WmpfSession, to_blob, as_json, session_from_blob}
use yyb_go.Protocol.Pool.{ok as read_ok}
use yyb_go.Protocol.Pool.Blob.{IsComplete, AreExact, as_read, session_from_blob-to_blob}
use yyb_go.Protocol.Pool.State.{
  Config, of_login, ready, state, run, session_expires_at, effective_proxy,
}
use yyb_go.Protocol.Pool.Fallback.{run-Falls_back}
use yyb_go.Protocol.Pool.Cached.{state-reuses}
use yyb_go.Store.Rows.{find_where, update_where}
use yyb_go.Store.Accounts.{get_account, set_account_uin, scan_account}
use yyb_go.Store.Calls.{with_faults}
use yyb_go.Store.Sessions.{get_session, put_session, put_row}
use yyb_go.Store.SessionCache.{session_read}
use yyb_go.Store.Valid.{IsValid}
use yyb_go.Store.{Json, Db, no_rows, err, query, execute}

abbrev session : AppSession
session = record {
  send_key = 1 ∷ 171 ∷ [];
  recv_key = 255 ∷ [];
  f9 = [];
  uin = pos 77;
  ticket = 9 ∷ [];
  device_id = [];
  host_app_id = [];
}

abbrev fresh : WmpfSession
fresh = record {
  session = session;
  psk = record {
    psk_type = pos 1;
    pre_shared_key = codes "ab";
    ticket_entry = codes "cd";
    lifetime = pos 60;
    expired_at = pos 5000;
  };
  shortlink_targets = record { ip = codes "1.2.3.4"; port = pos 80 } ∷ [];
  tcp_proxy = codes "p";
}

session-IsComplete : IsComplete session
session-IsComplete = record {
  send_key = (omega arith, (omega arith, tt));
  recv_key = (omega arith, tt);
  f9 = tt;
  ticket = (omega arith, tt);
  device_id = tt;
  host_app_id = tt;
  has_send_key = refl;
  has_recv_key = refl;
  has_uin = refl;
}

fresh-AreExact : AreExact fresh
fresh-AreExact = record {
  uin = omega arith;
  psk_type = omega arith;
  lifetime = omega arith;
  expired_at = omega arith;
  ports = (omega arith, tt);
}

session_from_blob-to_blob_example :
    session_from_blob (decoded_fields (as_json (to_blob fresh))) ≡ read_ok (as_read fresh)
session_from_blob-to_blob_example =
    session_from_blob-to_blob fresh session-IsComplete fresh-AreExact

-- One above 2 ^ 53 is lost, and 3 above it becomes 4 above it.
float64_rounds :
    (float64 (pos (2 ^ 53 + 1)) ≡ pos (2 ^ 53))
    × (float64 (pos (2 ^ 53 + 3)) ≡ pos (2 ^ 53 + 4))
    × (float64 (negsuc (2 ^ 63 - 1)) ≡ negsuc (2 ^ 63 - 1))
unfolding nearest excess rounded
float64_rounds = (refl, refl, refl)

-- A stand-in for JSON with one document.
abbrev one_document : Json Fields
one_document = record {
  marshal = λ v. some (codes "{}");
  unmarshal = λ t. some (some (as_json (to_blob fresh)));
}

abbrev config : Config
config = record { session_ttl = 1800; tcp_proxy = codes "p"; tcp_proxy_fallback_direct = false }

abbrev db : Db
db = record {
  accounts =
      (record {
        id = 1;
        openid = codes "o";
        uin = none;
        alias = none;
        nickname = none;
        avatar = none;
        user_info = none;
        login_buffer = codes "b";
        credentials = none;
        status = none;
        last_checked_at = none;
        created_at = 1;
        updated_at = 1;
      })
      ∷ [];
  sessions = [];
  account_sequence = 1;
  session_sequence = 0;
  has_sequence = true;
  foreign_keys = true;
  faults = [];
}

db-IsValid : IsValid db
db-IsValid = record {
  enforced = refl;
  ids = (tt, tt);
  openids = (tt, tt);
  ids_given = (omega arith, tt);
  session_ids = tt;
  session_keys = tt;
  session_ids_given = tt;
  owned = tt;
}

missing : session_read one_document 1 (codes "p") 1000 db ≡ err no_rows
unfolding get_session query find_where
missing = refl

logged_in : (state one_document config 1 1 (codes "p") 1000 (succeeded fresh) db).0 ≡ ready fresh
unfolding state get_session query find_where get_account scan_account set_account_uin execute
    put_session put_row update_where text_eq session_expires_at
logged_in = refl

abbrev behind : Db
behind = (state one_document config 1 1 (codes "p") 1000 (succeeded fresh) db).1

in_time : 2000 < session_expires_at 1000 1800 (pos 5000)
unfolding session_expires_at
in_time = omega arith

state-reuses_example :
    (state one_document config 9 1
      (codes "p")
      2000
      (failed (codes "offline"))
      (with_faults [] behind)).0
    ≡ ready (as_read fresh)
unfolding state get_session query find_where get_account scan_account set_account_uin execute
    put_session put_row update_where text_eq session_expires_at
state-reuses_example =
    state-reuses one_document config 1 1 (codes "p") 1000 fresh fresh db behind (λ t e. refl)
      session-IsComplete db-IsValid (omega arith) missing refl 9 2000 (failed (codes "offline"))
      (omega arith)

-- A call that fails over the proxy is made again over the direct connection.
falls_back :
    (run one_document
      (record config { tcp_proxy_fallback_direct = true })
      (λ p. 1)
      1
      []
      1000
      (λ p. if text_eq p [] then succeeded fresh else failed (codes "offline"))
      (λ st. succeeded empty)
      db).0
    ≡ succeeded empty
unfolding run effective_proxy state get_session query find_where get_account scan_account
    set_account_uin execute put_session put_row update_where text_eq session_expires_at
falls_back = refl

abbrev falling_back : Config
falling_back = record config { tcp_proxy_fallback_direct = true }

abbrev alone : Config
alone = record config { tcp_proxy = [] }

abbrev logins : Text → Outcome Text WmpfSession
logins p = if text_eq p [] then succeeded fresh else failed (codes "offline")

run-Falls_back_example :
    run one_document falling_back (λ p. 1) 1 [] 1000 logins (λ st. succeeded empty) db
    ≡ run one_document alone (λ p. 1) 1 [] 1000 logins (λ st. succeeded empty) db
unfolding state get_session query find_where get_account scan_account effective_proxy text_eq
run-Falls_back_example =
    run-Falls_back one_document falling_back (λ p. 1) 1 [] 1000 logins (λ st. succeeded empty) alone
      db db refl refl refl refl (inr (of_login (codes "offline"), refl))
