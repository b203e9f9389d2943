-- ===== src/HttpApi/KeepAlive/Spared.antt =====
-- internal/httpapi/keepalive.go: what a whole round leaves of the accounts that it does not try.
use yyb_go.Prelude.{
  ℕ, ◌≡◌, refl, sym, ◌∙◌, subst, Bool, Option, some, List, [], ◌∷◌, Bool-cases, inl, inr, arith,
  All, ◌==◌, ==_iff, if-both, leb,
}
use yyb_go.Prelude.Map.{nat_eq, lookup}
use yyb_go.Protocol.Values.{Fields}
use yyb_go.Store.Rows.{AreDistinct, find_where}
use yyb_go.Store.Accounts.{scan_account, scan_all, list_accounts, insert_by_id, order_by_id, has_id}
use yyb_go.Store.Calls.{with_faults, query_cases}
use yyb_go.Store.Updates.{row_at}
use yyb_go.Store.Valid.{IsValid}
use yyb_go.Store.{AccountRow, WechatAccount, Db, ok}
use yyb_go.HttpApi.KeepAlive.{Service}
use yyb_go.HttpApi.KeepAlive.Backoff.{IsSpared, Untouched, visit-spared, visit-Untouched}
use yyb_go.HttpApi.KeepAlive.Round.{Keeper, visit, visit_all, refresh_due_accounts}

insert_by_id-All :
    (P : AccountRow → Type 0) (row : AccountRow) (rows : List AccountRow)
    → P row
    → All P rows
    → All P (insert_by_id row rows)
unfolding insert_by_id
insert_by_id-All P row [] p _ = (p, tt)
insert_by_id-All P row (next ∷ rows) p (q, rest) =
    if-both (All P) (leb row.id next.id) (λ _. (p, (q, rest)))
      (λ _. (q, insert_by_id-All P row rows p rest))

order_by_id-All :
    (P : AccountRow → Type 0) (rows : List AccountRow) → All P rows → All P (order_by_id rows)
unfolding order_by_id
order_by_id-All P [] _ = tt
order_by_id-All P (row ∷ rows) (p, rest) =
    insert_by_id-All P row (order_by_id rows) p (order_by_id-All P rows rest)

-- Where the ids are distinct, every row with an id is the one that is found under it.
only_row :
    (j : ℕ) (rows : List AccountRow) (old : AccountRow)
    → AreDistinct (λ (row : AccountRow). row.id) rows
    → find_where (has_id j) rows ≡ some old
    → All (λ (row : AccountRow). row.id ≡ j → row ≡ old) rows
unfolding find_where
only_row j [] old _ found = tt
only_row j (row ∷ rows) old (apart, distinct) found = elim (Bool-cases (row.id == j)) [
  | inl here ↦
      let is : some row ≡ some old = sym (rw here refl) ∙ found in
      let is_j : row.id ≡ j = (==_iff row.id j).0 here in (λ _. cc, others is_j rows apart)
  | inr there ↦ (
    λ is_j. absurd (ground (arith, is_j)),
    only_row j rows old distinct (sym (rw there refl) ∙ found),
  )
]
  where
    others :
        row.id ≡ j
        → (rs : List AccountRow) → All (λ (r : AccountRow). ¬ (row.id ≡ r.id)) rs
        → All (λ (r : AccountRow). r.id ≡ j → r ≡ old) rs
    others is_j [] _ = tt
    others is_j (r ∷ rs) (h, rest) = (λ is_r. absurd (h (is_j ∙ sym is_r)), others is_j rs rest)

module _ (s : Service) (j : ℕ) where
  abbrev SparedAt : ℕ → Option ℕ → WechatAccount Fields → Type 0
  SparedAt now retry acc = acc.id ≡ j → IsSpared s acc now retry

  visit_all-Untouched :
      (cancelled : ℕ → Bool) (clock failed_at : ℕ → ℕ) (accounts : List (WechatAccount Fields))
      (k : Keeper)
      → All (SparedAt (clock j) (lookup j k.keep_alive_retry_at)) accounts
      → Untouched s j k (visit_all s cancelled clock failed_at accounts k)
  unfolding visit_all
  visit_all-Untouched cancelled clock failed_at [] k _ = (refl, refl)
  visit_all-Untouched cancelled clock failed_at (acc ∷ accounts) k (spared, rest) =
      if-both (Untouched s j k) (cancelled acc.id) (λ _. (refl, refl))
        (λ _. elim (Bool-cases (acc.id == j)) [
          | inl here ↦
              let is_j : acc.id ≡ j = (==_iff acc.id j).0 here in
              rw (left_alone is_j) (visit_all-Untouched cancelled clock failed_at accounts k rest)
          | inr there ↦
              let (same_row, same_retry) =
                visit-Untouched s j acc (clock acc.id) (failed_at acc.id) k
                  (λ e. absurd (ground (arith, e))) in
              let (row, retry) =
                visit_all-Untouched cancelled clock failed_at accounts
                  (visit s acc (clock acc.id) (failed_at acc.id) k)
                  (subst (λ r. All (SparedAt (clock j) r) accounts) (sym same_retry) rest) in
              (row ∙ same_row, retry ∙ same_retry)
        ])
    where
      left_alone : acc.id ≡ j → visit s acc (clock acc.id) (failed_at acc.id) k ≡ k
      left_alone is_j = visit-spared s acc (clock acc.id) (failed_at acc.id) k (
          subst (λ (i : ℕ). IsSpared s acc (clock i) (lookup i k.keep_alive_retry_at)) (sym is_j)
            (spared is_j))

  scan_all-Spared :
      (now : ℕ) (retry : Option ℕ) (old : AccountRow) (rows : List AccountRow)
      → IsSpared s (scan_account s.json old) now retry
      → All (λ (row : AccountRow). row.id ≡ j → row ≡ old) rows
      → All (SparedAt now retry) (scan_all s.json rows)
  unfolding scan_account
  scan_all-Spared now retry old [] spared _ = tt
  scan_all-Spared now retry old (row ∷ rows) spared (same, rest) = (
    λ is_j. subst (λ r. IsSpared s (scan_account s.json r) now retry) (sym (same is_j)) spared,
    scan_all-Spared now retry old rows spared rest,
  )

  -- A round leaves an account as it is, with the time of its next try, if the account has expired, if its
  -- credentials are not due, or if its last refresh failed less than the pause ago. It does so however
  -- the other accounts fare, for a database whose ids are distinct.
  pub refresh_due_accounts-spares :
      (cancelled : ℕ → Bool) (clock failed_at : ℕ → ℕ) (old : AccountRow) (k : Keeper)
      → IsValid k.db
      → row_at j k.db ≡ some old
      → IsSpared s (scan_account s.json old) (clock j) (lookup j k.keep_alive_retry_at)
      → (row_at j (refresh_due_accounts s cancelled clock failed_at k).db ≡ some old)
        × (lookup j (refresh_due_accounts s cancelled clock failed_at k).keep_alive_retry_at
            ≡ lookup j k.keep_alive_retry_at)
  unfolding refresh_due_accounts list_accounts
  refresh_due_accounts-spares cancelled clock failed_at old k v found spared =
      let (fs, ends) =
        query_cases (λ (d : Db). ok (scan_all s.json (order_by_id d.accounts))) k.db in
      elim ends [
        | inl failed ↦ rw (refresh_due_accounts, list_accounts, failed) (found, refl)
        | inr listed ↦
            let (row, retry) =
              visit_all-Untouched cancelled clock failed_at
                (scan_all s.json (order_by_id k.db.accounts))
                (record { db = with_faults fs k.db; keep_alive_retry_at = k.keep_alive_retry_at })
                (scan_all-Spared (clock j) (lookup j k.keep_alive_retry_at) old
                  (order_by_id k.db.accounts) spared
                  (order_by_id-All _ k.db.accounts (only_row j k.db.accounts old v.ids found))) in
            rw (refresh_due_accounts, list_accounts, listed) (row ∙ found, retry)
      ]
