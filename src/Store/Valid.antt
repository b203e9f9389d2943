-- ===== src/Store/Valid.antt =====
-- internal/store/store.go: what the constraints of the tables say of their rows.
use yyb_go.Prelude.{ℕ, ◌≤◌, ◌<◌, arith, ◌≡◌, refl, Bool, true, List, [], ◌∷◌, some, All}
use yyb_go.Prelude.Text.{Text}
use yyb_go.Store.Rows.{AreDistinct, All-imp, find_where}
use yyb_go.Store.Accounts.{has_id}
use yyb_go.Store.Calls.{with_faults}
use yyb_go.Store.{AccountRow, SessionColumns, Db}

abbrev pub session_key : SessionColumns → ℕ × Text
session_key s = (s.wechat_account_id, s.tcp_proxy)

-- REFERENCES wechat_accounts(id)
abbrev pub IsOwned : List AccountRow → SessionColumns → Type 0
IsOwned accounts s =
    (row : AccountRow) × (find_where (has_id s.wechat_account_id) accounts ≡ some row)

-- The keys are unique, the ids have been given before, and each session has its account.
pub record IsValid (db : Db) : Type 0 where
  pub enforced : db.foreign_keys ≡ true
  pub ids : AreDistinct (λ (row : AccountRow). row.id) db.accounts
  pub openids : AreDistinct (λ (row : AccountRow). row.openid) db.accounts
  pub ids_given : All (λ (row : AccountRow). row.id ≤ db.account_sequence) db.accounts
  pub session_ids : AreDistinct (λ (s : SessionColumns). s.id) db.sessions
  pub session_keys : AreDistinct session_key db.sessions
  pub session_ids_given : All (λ (s : SessionColumns). s.id ≤ db.session_sequence) db.sessions
  pub owned : All (IsOwned db.accounts) db.sessions

pub with_faults-IsValid : (fs : List Bool) (db : Db) → IsValid db → IsValid (with_faults fs db)
with_faults-IsValid fs db v = record {
  enforced = v.enforced;
  ids = v.ids;
  openids = v.openids;
  ids_given = v.ids_given;
  session_ids = v.session_ids;
  session_keys = v.session_keys;
  session_ids_given = v.session_ids_given;
  owned = v.owned;
}

-- An id that is given and not used.
pub raised_accounts-IsValid :
    (n : ℕ) (db : Db)
    → db.account_sequence < n
    → IsValid db
    → IsValid (record db { account_sequence = n })
raised_accounts-IsValid n db fresh v = record {
  enforced = v.enforced;
  ids = v.ids;
  openids = v.openids;
  ids_given = All-imp _ _ db.accounts (λ row given. omega arith) v.ids_given;
  session_ids = v.session_ids;
  session_keys = v.session_keys;
  session_ids_given = v.session_ids_given;
  owned = v.owned;
}

pub raised_sessions-IsValid :
    (n : ℕ) (db : Db)
    → db.session_sequence < n
    → IsValid db
    → IsValid (record db { session_sequence = n })
raised_sessions-IsValid n db fresh v = record {
  enforced = v.enforced;
  ids = v.ids;
  openids = v.openids;
  ids_given = v.ids_given;
  session_ids = v.session_ids;
  session_keys = v.session_keys;
  session_ids_given = All-imp _ _ db.sessions (λ s given. omega arith) v.session_ids_given;
  owned = v.owned;
}

pub no_sessions :
    (accounts : List AccountRow) (sessions : List SessionColumns)
    → accounts ≡ []
    → All (IsOwned accounts) sessions
    → sessions ≡ []
unfolding find_where
no_sessions accounts [] e h = refl
no_sessions [] (s ∷ ss) e ((row, found), h) = absurd (cc)
no_sessions (a ∷ rest) (s ∷ ss) e ((row, found), h) = absurd (cc)
