-- ===== src/Store/Kept.antt =====
-- internal/store/store.go: the statements on the accounts against the constraints of the tables.
use yyb_go.Prelude.{
  ℕ, ◌<◌, ◌≡◌, refl, ap, ◌∙◌, Bool, false, [], ◌∷◌, none, arith, Option-cases, inl, inr, ◌==◌,
  if◌then◌else◌, ◌++◌,
}
use yyb_go.Prelude.Text.{text_eq_iff}
use yyb_go.Store.Rows.{
  AreDistinct-update, AreDistinct-append, AreDistinct-delete, All-update, All-delete, All-both,
  All-imp, All-append_one, find_where, find_where-update, find_where-append_found,
  find_where-missing, find_where-delete_other, delete_where, delete_where-gone, update_where,
}
use yyb_go.Store.Accounts.{has_id, has_openid, upsert_row}
use yyb_go.Store.Calls.{Holds}
use yyb_go.Store.Valid.{raised_accounts-IsValid, IsValid, IsOwned}
use yyb_go.Store.{AccountRow, SessionColumns, Db}

pub update_accounts-IsValid :
    (p : AccountRow → Bool) (f : AccountRow → AccountRow) (db : Db)
    → ((row : AccountRow) → (f row).id ≡ row.id)
    → ((row : AccountRow) → (f row).openid ≡ row.openid)
    → IsValid db
    → IsValid (record db { accounts = update_where p f db.accounts })
update_accounts-IsValid p f db keeps_id keeps_openid v = record {
  enforced = v.enforced;
  ids = AreDistinct-update _ p f db.accounts keeps_id v.ids;
  openids = AreDistinct-update _ p f db.accounts keeps_openid v.openids;
  ids_given = All-update _ p f db.accounts (λ row h. rw (keeps_id row) h) v.ids_given;
  session_ids = v.session_ids;
  session_keys = v.session_keys;
  session_ids_given = v.session_ids_given;
  owned = All-imp _ _ db.sessions still v.owned;
}
  where
    still : (s : SessionColumns) → IsOwned db.accounts s → IsOwned (update_where p f db.accounts) s
    still s (row, found) = (
      if p row then f row else row,
      find_where-update (has_id s.wechat_account_id) p f db.accounts
            (λ r. ap (λ (i : ℕ). i == s.wechat_account_id) (keeps_id r))
          ∙ rw found refl,
    )

append_account-IsValid :
    (new : AccountRow) (db : Db)
    → db.account_sequence < new.id
    → find_where (has_openid new.openid) db.accounts ≡ none
    → IsValid db
    → IsValid (record db { accounts = db.accounts ++ new ∷ []; account_sequence = new.id })
append_account-IsValid new db fresh unknown v = record {
  enforced = v.enforced;
  ids =
      AreDistinct-append _ db.accounts new
        (All-imp _ _ db.accounts (λ row given same. absurd (omega (arith, given, same, fresh)))
          v.ids_given)
        v.ids;
  openids =
      AreDistinct-append _ db.accounts new
        (All-imp _ _ db.accounts
          (λ row other same. absurd (ground (arith, text_eq_iff row.openid new.openid)))
          (find_where-missing (has_openid new.openid) db.accounts unknown))
        v.openids;
  ids_given =
      All-append_one _ db.accounts new
        (All-imp _ _ db.accounts (λ row given. omega arith) v.ids_given) (omega arith);
  session_ids = v.session_ids;
  session_keys = v.session_keys;
  session_ids_given = v.session_ids_given;
  owned =
      All-imp _ _ db.sessions
        (λ s (row, found).
          (row, find_where-append_found (has_id s.wechat_account_id) db.accounts row new found))
        v.owned;
}

pub upsert_row-IsValid :
    (new : AccountRow) (db : Db)
    → db.account_sequence < new.id
    → IsValid db
    → Holds IsValid (upsert_row new.id new db)
unfolding upsert_row
upsert_row-IsValid new db fresh v =
    elim (Option-cases (find_where (has_openid new.openid) db.accounts)) [
      | inl unknown ↦ rw (upsert_row, unknown) (append_account-IsValid new db fresh unknown v)
      | inr (row, known) ↦
          rw (upsert_row, known)
            (update_accounts-IsValid (has_openid new.openid) _
              (record db { account_sequence = new.id }) (λ _. refl) (λ _. refl)
              (raised_accounts-IsValid new.id db fresh v))
    ]

pub delete_accounts-IsValid :
    (id : ℕ) (db : Db)
    → IsValid db
    → IsValid (record db {
      accounts = delete_where (has_id id) db.accounts;
      sessions = delete_where (λ (s : SessionColumns). s.wechat_account_id == id) db.sessions;
    })
delete_accounts-IsValid id db v = record {
  enforced = v.enforced;
  ids = AreDistinct-delete _ (has_id id) db.accounts v.ids;
  openids = AreDistinct-delete _ (has_id id) db.accounts v.openids;
  ids_given = All-delete _ (has_id id) db.accounts v.ids_given;
  session_ids = AreDistinct-delete _ of_account db.sessions v.session_ids;
  session_keys = AreDistinct-delete _ of_account db.sessions v.session_keys;
  session_ids_given = All-delete _ of_account db.sessions v.session_ids_given;
  owned =
      All-both _ _ _ (delete_where of_account db.sessions) still
        (delete_where-gone of_account db.sessions) (All-delete _ of_account db.sessions v.owned);
}
  where
    of_account : SessionColumns → Bool
    of_account s = s.wechat_account_id == id

    still :
        (s : SessionColumns)
        → of_account s ≡ false
        → IsOwned db.accounts s
        → IsOwned (delete_where (has_id id) db.accounts) s
    still s other (row, found) = (
      row,
      find_where-delete_other (has_id s.wechat_account_id) (has_id id) db.accounts
            (λ r here. ground arith)
          ∙ found,
    )
