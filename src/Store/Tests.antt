-- ===== src/Store/Tests.antt =====
-- internal/store/store.go: the store at concrete databases.
use yyb_go.Prelude.{◌≡◌, refl, arith, true, [], Option, none, some, codes, if◌then◌else◌}
use yyb_go.Prelude.Text.{Text, text_eq}
use yyb_go.Store.Rows.{find_where, update_where, delete_where}
use yyb_go.Store.Accounts.{
  marshal_nullable, new_row, upsert_row, upsert_account, get_account, get_account_by_openid,
  get_account_by_uin, scan_account,
}
use yyb_go.Store.Sessions.{put_row, put_session, get_session, scan_session}
use yyb_go.Store.Deletion.{reset_sequences, reset_autoincrement_if_empty, delete_account}
use yyb_go.Store.Resolve.{all_digits, is_digits, digits_number, parse_int, resolve_account}
use yyb_go.Store.Valid.{IsValid}
use yyb_go.Store.Steps.{Reachable, opened, stepped, upserted, session_put, Reachable-IsValid}
use yyb_go.Store.SessionCache.{put_session-get_session, Remembers}
use yyb_go.Store.Upsert.{upsert_account-Stores, Answers}
use yyb_go.Store.Deleted.{delete_account-Deletes, Deleted}
use yyb_go.Store.{Json, Db, WechatAccount, no_rows, Result, ok, err, Done, execute, query}

-- A stand-in for JSON: the values are texts, written as they are.
abbrev null : Text
null = codes "null"

abbrev read_text : Text → Option (Option Text)
read_text t = if text_eq t null then some none else some (some t)

abbrev plain : Json Text
plain = record {
  marshal = λ v. elim v [ none ↦ some null | some t ↦ some t ];
  unmarshal = read_text;
}

abbrev fresh : Db
fresh = record {
  accounts = [];
  sessions = [];
  account_sequence = 0;
  session_sequence = 0;
  has_sequence = true;
  foreign_keys = true;
  faults = [];
}

abbrev upsert_alice : Db → Result (WechatAccount Text) × Db
upsert_alice =
    upsert_account plain 1 (codes "alice") (codes "buffer") none none none none (some (codes "{}"))
      none 100

abbrev with_alice : Db
unfolding upsert_account marshal_nullable upsert_row find_where text_eq execute query
    get_account_by_openid
with_alice = (upsert_alice fresh).1

abbrev put_alice : Db → Result Done × Db
put_alice = put_session plain 1 1 (some 7) (some (codes "blob")) 500 [] 100

abbrev with_session : Db
unfolding put_session put_row find_where text_eq execute
with_session = (put_alice with_alice).1

with_session-Reachable : Reachable plain with_session
unfolding put_session put_row find_where text_eq execute upsert_account marshal_nullable upsert_row
    query get_account_by_openid
with_session-Reachable =
    stepped with_alice with_session
      (stepped fresh with_alice (opened []) (
        upserted 1 (codes "alice") (codes "buffer") none none none none (some (codes "{}")) none 100
          fresh (omega arith)))
      (session_put 1 1 (some 7) (some (codes "blob")) 500 [] 100 with_alice (omega arith))

Reachable-IsValid_example : IsValid with_session
Reachable-IsValid_example = Reachable-IsValid plain with_session with_session-Reachable

-- A number that is no uin is an id.
resolve_id : ((resolve_account plain (codes "1") with_alice).0) ≡ (get_account plain 1 with_alice).0
unfolding resolve_account is_digits all_digits parse_int digits_number get_account
    get_account_by_uin query find_where scan_account upsert_account marshal_nullable upsert_row
    text_eq execute get_account_by_openid
resolve_id = refl

session_expires :
    ((get_session plain 1 [] 499 with_session).0 ≡ (get_session plain 1 [] 100 with_session).0)
    × ((get_session plain 1 [] 500 with_session).0 ≡ err no_rows)
unfolding get_session query find_where scan_session text_eq put_session put_row execute
    upsert_account marshal_nullable upsert_row get_account_by_openid
session_expires = (refl, refl)

text_returns :
    (t : Text)
    → ◌≡◌ {A = Option Text} (some (codes "blob")) (some t)
    → read_text t ≡ some (some (codes "blob"))
unfolding text_eq
text_returns t e = let is : t ≡ codes "blob" = cc in rw is refl

with_alice-IsValid : IsValid with_alice
unfolding put_session put_row find_where text_eq execute upsert_account marshal_nullable upsert_row
    query get_account_by_openid
with_alice-IsValid = Reachable-IsValid plain with_alice (
    stepped fresh with_alice (opened []) (
      upserted 1 (codes "alice") (codes "buffer") none none none none (some (codes "{}")) none 100
        fresh (omega arith)))

put_session-get_session_example :
    Remembers plain 1 (some 7) (some (codes "blob")) 500 [] with_alice with_session
unfolding put_session put_row find_where text_eq execute upsert_account marshal_nullable upsert_row
    query get_account_by_openid
put_session-get_session_example =
    put_session-get_session plain 1 1 (some 7) (some (codes "blob")) (some (codes "blob")) 500 []
      100 with_alice with_session text_returns with_alice-IsValid (omega arith) refl

abbrev alice_again : Result (WechatAccount Text) × Db
unfolding put_session put_row find_where text_eq execute upsert_account marshal_nullable upsert_row
    query get_account_by_openid update_where
alice_again =
    upsert_account plain 2 (codes "alice") (codes "new") (some (codes "al")) none none none none
      (some (codes "alive")) 200 with_alice

abbrev the_account : Result (WechatAccount Text) → WechatAccount Text
the_account (ok account) = account
the_account (err e) = scan_account plain (new_row 0 [] [] none none none none none none 0)

upsert_account-Stores_example :
    Answers plain 2
      (codes "alice")
      (codes "new")
      (some (codes "al"))
      none
      none
      none
      none
      (some (codes "alive"))
      200
      (the_account alice_again.0)
      with_alice
      alice_again.1
unfolding put_session put_row find_where text_eq execute upsert_account marshal_nullable upsert_row
    query get_account_by_openid update_where scan_account
upsert_account-Stores_example =
    upsert_account-Stores plain 2 (codes "alice") (codes "new") (some (codes "al")) none none none
      none (some (codes "alive")) 200 (the_account alice_again.0) with_alice alice_again.1 refl

abbrev without_alice : Db
unfolding put_session put_row find_where text_eq execute upsert_account marshal_nullable upsert_row
    query get_account_by_openid delete_account delete_where reset_autoincrement_if_empty
    reset_sequences
without_alice = (delete_account 1 with_session).1

delete_account-Deletes_example :
    Deleted 1 with_session without_alice
    × (without_alice.accounts ≡ []
        → (without_alice.account_sequence ≡ 0) × (without_alice.session_sequence ≡ 0))
unfolding put_session put_row find_where text_eq execute upsert_account marshal_nullable upsert_row
    query get_account_by_openid delete_account delete_where reset_autoincrement_if_empty
    reset_sequences
delete_account-Deletes_example = delete_account-Deletes 1 with_session without_alice refl refl refl
