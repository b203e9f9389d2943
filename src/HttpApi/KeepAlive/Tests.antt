-- ===== src/HttpApi/KeepAlive/Tests.antt =====
-- internal/httpapi/keepalive.go: the keep-alive of one account.
use yyb_go.Prelude.{
  ℕ, ◌+◌, ◌*◌, ◌^◌, ◌≡◌, refl, arith, true, false, [], ◌∷◌, none, some, codes, ◌⊎◌, inl, inr,
}
use yyb_go.Prelude.Map.{nat_eq, lookup}
use yyb_go.Prelude.Outcome.{Outcome, ok as answered, err as refused}
use yyb_go.Prelude.Text.{Text, text_eq, pos, has_prefix, trim_space}
use yyb_go.Protocol.Values.{
  number, text, array, object, nil, cons, Fields, empty, field, string_from_map, int64_from_map,
  at_key, seconds_after, string_slice_path,
}
use yyb_go.Protocol.LoginBuffer.{
  LoginBufferCredentials, credentials_from_map, to_map, refresh_login_buffer, refresh_credentials,
  answer_to, fetch_login_buffer,
}
use yyb_go.Protocol.LoginBuffer.RoundTrip.{credentials_from_map-to_map}
use yyb_go.Store.{Json, AccountRow, Db, query, execute}
use yyb_go.Store.Rows.{find_where, update_where}
use yyb_go.Store.Accounts.{
  scan_account, get_account, read_column, set_account_credential, set_account_status,
  marshal_nullable,
}
use yyb_go.Store.Updates.{row_at}
use yyb_go.Store.Valid.{IsValid}
use yyb_go.HttpApi.KeepAlive.{
  Service, of_remote, refresh_account, second, definitive_refresh_message, reached, contains,
  credentials_due_for_refresh, set_avatar, refresh_failure_status,
}
use yyb_go.HttpApi.KeepAlive.Round.{
  Keeper, clear_keep_alive_retry, visit, work, refresh_due_accounts,
}
use yyb_go.HttpApi.KeepAlive.Renewal.{refresh_account-Renews, Renewal}
use yyb_go.HttpApi.KeepAlive.Failures.{refresh_account-keeps, Kept}
use yyb_go.HttpApi.KeepAlive.Backoff.{work-Backs_off, is_due, IsSpared, IsTried}
use yyb_go.HttpApi.KeepAlive.Spared.{refresh_due_accounts-spares}

abbrev credentials_map : Fields
credentials_map = field (codes "openid") (text (codes "o")) (
    field (codes "accesstoken") (text (codes "a")) (
      field (codes "refreshtoken") (text (codes "r"))
        (field (codes "expires_at") (number (pos 1000)) empty)))

-- A stand-in for JSON with one document.
abbrev one_document : Json Fields
one_document = record {
  marshal = λ v. some (codes "{}");
  unmarshal = λ t. some (some credentials_map);
}

abbrev login_answer : Fields
login_answer =
    field (codes "ext_info")
      (object (
        field (codes "list_s")
          (object (
            field (codes "login_buffer")
              (object (field (codes "value") (array (cons (text (codes "new buffer")) nil)) empty))
              empty))
          empty))
      empty

abbrev token_answer : Fields
token_answer =
    field (codes "user_info")
      (object (
        field (codes "access_token") (text (codes "b"))
          (field (codes "expires_in") (number (pos 7200)) empty)))
      empty

abbrev service : Outcome Text Fields → Service
service token = record {
  json = one_document;
  remote = record {
    refresh_token = λ creds. token;
    fetch_buffer = λ creds. answered login_answer;
    show = λ v. codes "?";
  };
  lower = λ c. c;
  resolve_avatar = λ openid info. [];
  keep_alive_ahead = 300 * second;
}

abbrev row : AccountRow
row = record {
  id = 1;
  openid = codes "o";
  uin = none;
  alias = none;
  nickname = none;
  avatar = none;
  user_info = none;
  login_buffer = codes "old buffer";
  credentials = some (codes "{}");
  status = some (codes "alive");
  last_checked_at = none;
  created_at = 1;
  updated_at = 1;
}

abbrev db : Db
db = record {
  accounts = row ∷ [];
  sessions = [];
  account_sequence = 1;
  session_sequence = 0;
  has_sequence = true;
  foreign_keys = true;
  faults = [];
}

abbrev now : ℕ
now = 800 * second

renewed : (refresh_account (service (answered token_answer)) 1 now false db).0.refreshed ≡ true
unfolding refresh_account get_account query find_where scan_account read_column credentials_from_map
    string_from_map int64_from_map at_key text_eq credentials_due_for_refresh refresh_login_buffer
    refresh_credentials answer_to seconds_after fetch_login_buffer string_slice_path
    set_account_credential set_account_status marshal_nullable execute update_where set_avatar
renewed = refl

refresh_account-Renews_example :
    Renewal
      (service (answered token_answer))
      1
      now
      db
      (refresh_account (service (answered token_answer)) 1 now false db)
refresh_account-Renews_example =
    refresh_account-Renews (service (answered token_answer)) 1 now false db renewed

-- The server cannot be reached.
abbrev unreachable : Service
unreachable = service (refused (codes "timeout"))

is_refused :
    refresh_login_buffer unreachable.remote 800 (credentials_from_map credentials_map)
    ≡ refused (codes "timeout")
unfolding refresh_account get_account query find_where scan_account read_column credentials_from_map
    string_from_map int64_from_map at_key text_eq credentials_due_for_refresh refresh_login_buffer
    refresh_credentials answer_to seconds_after fetch_login_buffer string_slice_path
    set_account_credential set_account_status marshal_nullable execute update_where set_avatar
is_refused = refl

given : (scan_account unreachable.json row).credentials ≡ some credentials_map
unfolding refresh_account get_account query find_where scan_account read_column credentials_from_map
    string_from_map int64_from_map at_key text_eq credentials_due_for_refresh refresh_login_buffer
    refresh_credentials answer_to seconds_after fetch_login_buffer string_slice_path
    set_account_credential set_account_status marshal_nullable execute update_where set_avatar
given = refl

found : row_at 1 db ≡ some row
unfolding find_where
found = refl

passing : definitive_refresh_message (λ c. c) (codes "timeout") ≡ false
unfolding definitive_refresh_message contains has_prefix trim_space
passing = refl

valid : reached 800 (credentials_from_map credentials_map).expires_at ≡ false
unfolding refresh_account get_account query find_where scan_account read_column credentials_from_map
    string_from_map int64_from_map at_key text_eq credentials_due_for_refresh refresh_login_buffer
    refresh_credentials answer_to seconds_after fetch_login_buffer string_slice_path
    set_account_credential set_account_status marshal_nullable execute update_where set_avatar
valid = refl

refresh_account-keeps_example : Kept unreachable row (refresh_account unreachable 1 now false db)
refresh_account-keeps_example =
    refresh_account-keeps unreachable now false credentials_map (codes "timeout") row db is_refused
      given found passing valid

-- The refresh failed, and the status that it reports is alive.
alive_with_error :
    ((refresh_account unreachable 1 now false db).0.status ≡ codes "alive")
    × ((refresh_account unreachable 1 now false db).0.error ≡ some (of_remote (codes "timeout")))
unfolding refresh_account get_account query find_where scan_account read_column credentials_from_map
    string_from_map int64_from_map at_key text_eq credentials_due_for_refresh refresh_login_buffer
    refresh_credentials answer_to seconds_after fetch_login_buffer string_slice_path
    set_account_credential set_account_status marshal_nullable execute update_where set_avatar
    refresh_failure_status definitive_refresh_message contains has_prefix trim_space
alive_with_error = (refl, refl)

abbrev keeper : Keeper
keeper = record { db = db; keep_alive_retry_at = [] }

due : is_due unreachable (scan_account unreachable.json row) (900 * second) ≡ true
unfolding refresh_account get_account query find_where scan_account read_column credentials_from_map
    string_from_map int64_from_map at_key text_eq credentials_due_for_refresh refresh_login_buffer
    refresh_credentials answer_to seconds_after fetch_login_buffer string_slice_path
    set_account_credential set_account_status marshal_nullable execute update_where set_avatar
due = refl

failed : (refresh_account unreachable 1 now false db).0.error ≡ some (of_remote (codes "timeout"))
unfolding refresh_account get_account query find_where scan_account read_column credentials_from_map
    string_from_map int64_from_map at_key text_eq credentials_due_for_refresh refresh_login_buffer
    refresh_credentials answer_to seconds_after fetch_login_buffer string_slice_path
    set_account_credential set_account_status marshal_nullable execute update_where set_avatar
    refresh_failure_status definitive_refresh_message contains has_prefix trim_space
failed = refl

is_one : (scan_account unreachable.json row).id ≡ 1
unfolding scan_account
is_one = refl

abbrev failed_keeper : Keeper
failed_keeper = work unreachable 1 now (now + second) keeper

work-Backs_off_example :
    (IsSpared unreachable
        (scan_account unreachable.json row)
        (900 * second)
        (some (now + second + 5 * 60 * 10 ^ 9))
      × (visit unreachable
            (scan_account unreachable.json row)
            (900 * second)
            (901 * second)
            failed_keeper
          ≡ failed_keeper))
    ⊎ (IsTried unreachable
          (scan_account unreachable.json row)
          (900 * second)
          (now + second + 5 * 60 * 10 ^ 9)
        × (visit unreachable
              (scan_account unreachable.json row)
              (900 * second)
              (901 * second)
              failed_keeper
            ≡ work unreachable 1
                (900 * second)
                (901 * second)
                (clear_keep_alive_retry 1 failed_keeper)))
unfolding scan_account
work-Backs_off_example =
    work-Backs_off unreachable (scan_account unreachable.json row) now (now + second) (900 * second)
      (901 * second) (of_remote (codes "timeout")) keeper failed

db-IsValid : IsValid db
unfolding find_where
db-IsValid = record {
  enforced = refl;
  ids = (tt, tt);
  openids = (tt, tt);
  ids_given = (omega arith, tt);
  session_ids = tt;
  session_keys = tt;
  session_ids_given = tt;
  owned = tt;
}

too_early : is_due unreachable (scan_account unreachable.json row) (600 * second) ≡ false
unfolding refresh_account get_account query find_where scan_account read_column credentials_from_map
    string_from_map int64_from_map at_key text_eq credentials_due_for_refresh refresh_login_buffer
    refresh_credentials answer_to seconds_after fetch_login_buffer string_slice_path
    set_account_credential set_account_status marshal_nullable execute update_where set_avatar
too_early = refl

refresh_due_accounts-spares_example :
    (row_at 1
        (refresh_due_accounts unreachable
          (λ id. false)
          (λ id. 600 * second)
          (λ id. 601 * second)
          keeper).db
      ≡ some row)
    × (lookup 1
          (refresh_due_accounts unreachable
            (λ id. false)
            (λ id. 600 * second)
            (λ id. 601 * second)
            keeper).keep_alive_retry_at
        ≡ lookup 1 keeper.keep_alive_retry_at)
refresh_due_accounts-spares_example =
    refresh_due_accounts-spares unreachable 1 (λ id. false) (λ id. 600 * second)
      (λ id. 601 * second) row keeper db-IsValid found (inr (inl too_early))

abbrev some_credentials : LoginBufferCredentials
some_credentials = record {
  openid = codes "o";
  access_token = codes "a";
  refresh_token = codes "r";
  login_type = [];
  nickname = codes "n";
  expires_at = pos 1000;
  expires_in = pos 0;
}

credentials_from_map-to_map_example :
    credentials_from_map (to_map 800 some_credentials)
    ≡ record some_credentials { login_type = codes "WX"; expires_in = pos 7200 }
credentials_from_map-to_map_example = credentials_from_map-to_map 800 some_credentials
