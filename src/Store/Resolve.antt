-- ===== src/Store/Resolve.antt =====
-- internal/store/store.go: the account that a reference of a request names.
use yyb_go.Prelude.{
  ℕ, ◌+◌, ◌-◌, ◌*◌, ◌^◌, Bool, true, false, ◌||◌, [], ◌∷◌, ltb, min, if◌then◌else◌,
}
use yyb_go.Prelude.Text.{Text}
use yyb_go.Store.Accounts.{get_account, get_account_by_uin, get_account_by_openid}
use yyb_go.Store.{Json, WechatAccount, Db, no_rows, Result, ok, err, Action}

-- isDigits
unfoldable pub all_digits : Text → Bool
all_digits [] = true
all_digits (c ∷ s) = if ltb c b'0' || ltb b'9' c then false else all_digits s

unfoldable pub is_digits : Text → Bool
is_digits [] = false
is_digits (c ∷ s) = all_digits (c ∷ s)

unfoldable pub digits_number : Text → ℕ → ℕ
digits_number [] n = n
digits_number (c ∷ s) n = digits_number s (n * 10 + (c - b'0'))

-- strconv.ParseInt(s, 10, 64) on digits, without its error: the largest int64 where it is out of range.
unfoldable pub parse_int : Text → ℕ
parse_int s = min (digits_number s 0) (2 ^ 63 - 1)

module _ {V : Type 0} (json : Json V) where
  abbrev pub or_by_id : ℕ → Result (WechatAccount V) × Db → Result (WechatAccount V) × Db
  or_by_id n (ok account, db) = (ok account, db)
  or_by_id n (err no_rows, db) = get_account json n db
  or_by_id n (err e, db) = (err e, db)

  unfoldable pub resolve_account : Text → Action (WechatAccount V)
  resolve_account [] db = (err no_rows, db)
  resolve_account (c ∷ ref) db =
      if is_digits (c ∷ ref)
      then or_by_id (parse_int (c ∷ ref)) (get_account_by_uin json (parse_int (c ∷ ref)) db)
      else get_account_by_openid json (c ∷ ref) db
