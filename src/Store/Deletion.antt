-- ===== src/Store/Deletion.antt =====
-- internal/store/store.go: the deletion of an account.
use yyb_go.Prelude.{ℕ, Bool, true, false, List, [], ◌∷◌, some, ◌==◌, if◌then◌else◌}
use yyb_go.Store.Rows.{delete_where}
use yyb_go.Store.Accounts.{has_id}
use yyb_go.Store.{SessionColumns, Db, ok, Done, done, Action, ◌>>=◌, ◌>>◌, pure, execute, query}

-- The table whose sequence is reset.
pub data Table : Type 0 where
  wechat_accounts sessions : Table

abbrev pub forget_sequence : Table → Db → Db
forget_sequence wechat_accounts db = record db { account_sequence = 0 }
forget_sequence sessions db = record db { session_sequence = 0 }

unfoldable pub reset_sequences : List Table → Action Done
reset_sequences [] = pure done
reset_sequences (table ∷ tables) = do
  exists ← query (λ db. ok db.has_sequence)
  if exists
      then (do execute (λ db. some (forget_sequence table db)); reset_sequences tables)
      else pure done

abbrev pub is_empty {ℓ} : {A : Type ℓ} → List A → Bool
is_empty [] = true
is_empty (x ∷ xs) = false

unfoldable pub reset_autoincrement_if_empty : Action Done
reset_autoincrement_if_empty = do
  empty ← query (λ db. ok (is_empty db.accounts))
  if empty then reset_sequences (wechat_accounts ∷ sessions ∷ []) else pure done

-- With the foreign keys on, `ON DELETE CASCADE` takes the sessions of the account along.
unfoldable pub delete_account : ℕ → Action Done
delete_account id = do
  execute (λ db. some (record db {
    accounts = delete_where (has_id id) db.accounts;
    sessions =
        if db.foreign_keys
        then delete_where (λ (s : SessionColumns). s.wechat_account_id == id) db.sessions
        else db.sessions;
  }))
  reset_autoincrement_if_empty
