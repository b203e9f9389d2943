-- ===== src/HttpApi/KeepAlive/Backoff.antt =====
-- internal/httpapi/keepalive.go: which accounts a round tries, and when it tries them again.
use yyb_go.Prelude.{
  ℕ, ◌+◌, ◌≤◌, ◌<◌, ◌≡◌, refl, ap, sym, subst, ◌*◌, ◌^◌, ◌∙◌, ◌⊎◌, Bool, true, false, not, Option,
  none, some, List, Bool-cases, inl, inr, codes, ltb, arith, ◌==◌, if-both, lt→ltb, ltb→lt,
}
use yyb_go.Prelude.Map.{nat_eq, lookup, lookup-remove, lookup-insert_self, lookup-insert_other}
use yyb_go.Prelude.Text.{text_eq}
use yyb_go.Protocol.Values.{Fields, or_empty}
use yyb_go.Protocol.LoginBuffer.{credentials_from_map}
use yyb_go.Store.Updates.{row_at}
use yyb_go.Store.{WechatAccount, Db}
use yyb_go.HttpApi.KeepAlive.{
  Service, Failure, account_status, credentials_due_for_refresh, refresh_account,
  keep_alive_retry_backoff,
}
use yyb_go.HttpApi.KeepAlive.Others.{refresh_account-Leaves}
use yyb_go.HttpApi.KeepAlive.Round.{
  Keeper, clear_keep_alive_retry, keep_alive_should_skip, skip_until, recorded, work,
  unless_skipped, visit,
}

module _ (s : Service) where
  abbrev pub is_due : WechatAccount Fields → ℕ → Bool
  is_due acc now =
      credentials_due_for_refresh (credentials_from_map (or_empty acc.credentials)) now
        s.keep_alive_ahead

  -- Why a round does not try an account: it has expired, it is not due, or its time has not come.
  abbrev pub IsSpared : WechatAccount Fields → ℕ → Option ℕ → Type 0
  IsSpared acc now retry =
      (text_eq (account_status acc) (codes "expired") ≡ true)
      ⊎ (is_due acc now ≡ false)
      ⊎ ((retry_at : ℕ) × (retry ≡ some retry_at) × (now < retry_at))

  pub visit-spared :
      (acc : WechatAccount Fields) (now failed_at : ℕ) (k : Keeper)
      → IsSpared acc now (lookup acc.id k.keep_alive_retry_at)
      → visit s acc now failed_at k ≡ k
  unfolding visit keep_alive_should_skip
  visit-spared acc now failed_at k (inl expired) = rw (visit, expired) refl
  visit-spared acc now failed_at k (inr (inl early)) =
      elim (Bool-cases (text_eq (account_status acc) (codes "expired"))) [
        | inl expired ↦ rw (visit, expired) refl
        | inr valid ↦ rw (visit, valid, keep_alive_should_skip, early) refl
      ]
  visit-spared acc now failed_at k (inr (inr (retry_at, there, waits))) =
      elim (Bool-cases (text_eq (account_status acc) (codes "expired"))) [
        | inl expired ↦ rw (visit, expired) refl
        | inr valid ↦ elim (Bool-cases (is_due acc now)) [
          | inr early ↦ rw (visit, valid, keep_alive_should_skip, early) refl
          | inl due ↦
              rw (visit, valid, keep_alive_should_skip, due, there, lt→ltb now retry_at waits) refl
        ]
      ]

  -- The account is tried: nothing spares it.
  abbrev pub IsTried : WechatAccount Fields → ℕ → ℕ → Type 0
  IsTried acc now retry_at =
      (text_eq (account_status acc) (codes "expired") ≡ false)
      × (is_due acc now ≡ true)
      × (retry_at ≤ now)

  visit-retries :
      (acc : WechatAccount Fields) (now failed_at retry_at : ℕ) (k : Keeper)
      → lookup acc.id k.keep_alive_retry_at ≡ some retry_at
      → IsTried acc now retry_at
      → visit s acc now failed_at k ≡ work s acc.id now failed_at (clear_keep_alive_retry acc.id k)
  unfolding visit keep_alive_should_skip
  visit-retries acc now failed_at retry_at k there (valid, due, over) =
      let late : ltb now retry_at ≡ false = ground arith in
      rw (visit, valid, keep_alive_should_skip, due, there, late) refl

  work-retry :
      (id now failed_at : ℕ) (why : Failure) (k : Keeper)
      → (refresh_account s id now false k.db).0.error ≡ some why
      → lookup id (work s id now failed_at k).keep_alive_retry_at
        ≡ some (failed_at + 5 * 60 * 10 ^ 9)
  unfolding work
  work-retry id now failed_at why k failed =
      rw (work, failed) (lookup-insert_self id (failed_at + 5 * 60 * 10 ^ 9) k.keep_alive_retry_at)

  -- After a refresh of an account that failed, a later visit of a round leaves the account alone if, as
  -- the round reads it, it has expired or its credentials are not due, or if less than five minutes have
  -- passed since the failure. In every other case it forgets the pause and refreshes the account.
  pub work-Backs_off :
      (acc : WechatAccount Fields) (now failed_at later failed_later : ℕ) (why : Failure)
      (k : Keeper)
      → (refresh_account s acc.id now false k.db).0.error ≡ some why
      → (IsSpared acc later (some (failed_at + 5 * 60 * 10 ^ 9))
          × (visit s acc later failed_later (work s acc.id now failed_at k)
              ≡ work s acc.id now failed_at k))
        ⊎ (IsTried acc later (failed_at + 5 * 60 * 10 ^ 9)
            × (visit s acc later failed_later (work s acc.id now failed_at k)
                ≡ work s acc.id later failed_later
                    (clear_keep_alive_retry acc.id (work s acc.id now failed_at k))))
  work-Backs_off acc now failed_at later failed_later why k failed =
      elim (spared_or_tried acc later (failed_at + 5 * 60 * 10 ^ 9)) [
        | inl spared ↦ inl (
          spared,
          visit-spared acc later failed_later (work s acc.id now failed_at k)
              (subst (IsSpared acc later) (sym stored) spared),
        )
        | inr tried ↦ inr (
          tried,
          visit-retries acc later failed_later (failed_at + 5 * 60 * 10 ^ 9)
              (work s acc.id now failed_at k) stored tried,
        )
      ]
    where
      stored :
          lookup acc.id (work s acc.id now failed_at k).keep_alive_retry_at
          ≡ some (failed_at + 5 * 60 * 10 ^ 9)
      stored = work-retry acc.id now failed_at why k failed

      spared_or_tried :
          (acc : WechatAccount Fields) (at retry_at : ℕ)
          → IsSpared acc at (some retry_at) ⊎ IsTried acc at retry_at
      spared_or_tried acc at retry_at =
          elim (Bool-cases (text_eq (account_status acc) (codes "expired"))) [
            | inl expired ↦ inl (inl expired)
            | inr valid ↦ elim (Bool-cases (is_due acc at)) [
              | inr early ↦ inl (inr (inl early))
              | inl due ↦ elim (Bool-cases (ltb at retry_at)) [
                | inl waits ↦ inl (inr (inr (retry_at, refl, ltb→lt at retry_at waits)))
                | inr over ↦ inr (valid, due, ground arith)
              ]
            ]
          ]

  module _ (j : ℕ) where
    -- The row of the account, and the time of its next try.
    abbrev pub Untouched : Keeper → Keeper → Type 0
    Untouched k k' =
        (row_at j k'.db ≡ row_at j k.db)
        × (lookup j k'.keep_alive_retry_at ≡ lookup j k.keep_alive_retry_at)

    other_key : (id : ℕ) → ¬ (j ≡ id) → (id == j) ≡ false
    other_key id apart = ground (arith, apart)

    recorded-retry :
        (id failed_at : ℕ) (retries : List (ℕ × ℕ)) (error : Option Failure) (db : Db)
        → ¬ (j ≡ id)
        → lookup j (recorded s id failed_at retries error db).keep_alive_retry_at ≡ lookup j retries
    recorded-retry id failed_at retries (some why) db apart =
        lookup-insert_other id j (failed_at + keep_alive_retry_backoff) retries (other_key id apart)
    recorded-retry id failed_at retries none db apart =
        lookup-remove id j retries ∙ rw (other_key id apart) refl

    recorded-db :
        (id failed_at : ℕ) (retries : List (ℕ × ℕ)) (error : Option Failure) (db : Db)
        → (recorded s id failed_at retries error db).db ≡ db
    recorded-db id failed_at retries (some why) db = refl
    recorded-db id failed_at retries none db = refl

    work-Untouched :
        (id now failed_at : ℕ) (k : Keeper) → ¬ (j ≡ id) → Untouched k (work s id now failed_at k)
    unfolding work
    work-Untouched id now failed_at k apart =
        let r = refresh_account s id now false k.db in
        (
          ap (row_at j) (recorded-db id failed_at k.keep_alive_retry_at r.0.error r.1)
              ∙ refresh_account-Leaves s j id now false k.db apart,
          recorded-retry id failed_at k.keep_alive_retry_at r.0.error r.1 apart,
        )

    unless_skipped-Untouched :
        (id now failed_at : ℕ) (k : Keeper) (asked : Keeper × Bool)
        → ¬ (j ≡ id)
        → Untouched k asked.0
        → Untouched k (unless_skipped s id now failed_at asked)
    unless_skipped-Untouched id now failed_at k (k', true) apart same = same
    unless_skipped-Untouched id now failed_at k (k', false) apart (same_row, same_retry) =
        let (row, retry) = work-Untouched id now failed_at k' apart in
        (row ∙ same_row, retry ∙ same_retry)

    skip_until-Untouched :
        (id now : ℕ) (retry_at : Option ℕ) (k : Keeper)
        → ¬ (j ≡ id)
        → Untouched k (skip_until id now retry_at k).0
    skip_until-Untouched id now none k apart = (refl, refl)
    skip_until-Untouched id now (some retry_at) k apart =
        if-both (λ (r : Keeper × Bool). Untouched k r.0) (not (ltb now retry_at))
          (λ _. (refl, lookup-remove id j k.keep_alive_retry_at ∙ rw (other_key id apart) refl))
          (λ _. (refl, refl))

    pub visit-Untouched :
        (acc : WechatAccount Fields) (now failed_at : ℕ) (k : Keeper)
        → ¬ (j ≡ acc.id)
        → Untouched k (visit s acc now failed_at k)
    unfolding visit keep_alive_should_skip
    visit-Untouched acc now failed_at k apart =
        if-both (Untouched k) (text_eq (account_status acc) (codes "expired")) (λ _. (refl, refl))
          (λ _.
            unless_skipped-Untouched acc.id now failed_at k (keep_alive_should_skip s acc now k)
              apart
              (if-both (λ (r : Keeper × Bool). Untouched k r.0) (not (is_due acc now))
                (λ _. (refl, refl))
                (λ _.
                  skip_until-Untouched acc.id now (lookup acc.id k.keep_alive_retry_at) k apart)))
