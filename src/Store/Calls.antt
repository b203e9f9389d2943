-- ===== src/Store/Calls.antt =====
-- internal/store/store.go: how a call of the database ends.
use yyb_go.Prelude.{
  Bool, List, ◌≡◌, refl, ◌⊎◌, inl, inr, Option, none, some, Option-cases, Bool-cases, subst, sym,
  ◌∙◌, ap,
}
use yyb_go.Store.{
  Db, engine, Result, ok, err, done, Action, and_then, next_call, behind_call, execute, query,
}

abbrev pub with_faults : List Bool → Db → Db
with_faults fs db = record db { faults = fs }

-- Refused, with nothing changed, or done.
abbrev pub Executed : (Db → Option Db) → Db → Type 0
Executed change db =
    (fs : List Bool) × ((execute change db ≡ (err engine, with_faults fs db))
      ⊎ ((db' : Db) × (change (with_faults fs db) ≡ some db')
          × (execute change db ≡ (ok done, db'))))

pub execute_cases : (change : Db → Option Db) (db : Db) → Executed change db
unfolding execute
execute_cases change db = elim (Bool-cases (next_call db.faults).0) [
  | inl fault ↦ ((next_call db.faults).1, inl (rw (execute, fault) refl))
  | inr works ↦ elim (Option-cases (change (behind_call db))) [
    | inl refused ↦ ((next_call db.faults).1, inl (rw (execute, works, refused) refl))
    | inr (db', made) ↦ ((next_call db.faults).1, inr (db', made, rw (execute, works, made) refl))
  ]
]

module _ {ℓ} {A : Type ℓ} where
  abbrev pub Queried : (Db → Result A) → Db → Type ℓ
  Queried ask db =
      (fs : List Bool) × ((query ask db ≡ (err engine, with_faults fs db))
        ⊎ (query ask db ≡ (ask (with_faults fs db), with_faults fs db)))

  pub query_cases : (ask : Db → Result A) (db : Db) → Queried ask db
  unfolding query
  query_cases ask db = elim (Bool-cases (next_call db.faults).0) [
    | inl fault ↦ ((next_call db.faults).1, inl (rw (query, fault) refl))
    | inr works ↦ ((next_call db.faults).1, inr (rw (query, works) refl))
  ]

-- What holds of the database behind the calls of a chain.
module _ {κ} (P : Db → Type κ) where
  abbrev pub Holds : Option Db → Type κ
  Holds none = Unit
  Holds (some db) = P db

  pub execute-Keeps :
      (change : Db → Option Db) (db : Db)
      → ((fs : List Bool) → P (with_faults fs db))
      → ((fs : List Bool) → Holds (change (with_faults fs db)))
      → P (execute change db).1
  execute-Keeps change db same made =
      let (fs, ends) = execute_cases change db in
      elim ends [
        | inl e ↦ rw e (same fs)
        | inr (db', changed, e) ↦ rw e (subst Holds changed (made fs))
      ]

  pub query-Keeps {ℓ} :
      {A : Type ℓ} (ask : Db → Result A) (db : Db)
      → ((fs : List Bool) → P (with_faults fs db))
      → P (query ask db).1
  query-Keeps ask db same =
      let (fs, ends) = query_cases ask db in
      elim ends [ inl e ↦ rw e (same fs) | inr e ↦ rw e (same fs) ]

  pub and_then-Keeps {ℓ μ} :
      {A : Type ℓ} {B : Type μ} (m : Result A × Db) (k : A → Action B)
      → P m.1
      → ((a : A) (db : Db) → P db → P (k a db).1)
      → P (and_then m k).1
  and_then-Keeps (ok a, db) k p next = next a db p
  and_then-Keeps (err e, db) k p next = p

pub execute-ok :
    (change : Db → Option Db) (db db' : Db)
    → execute change db ≡ (ok done, db')
    → (fs : List Bool) × (change (with_faults fs db) ≡ some db')
execute-ok change db db' e =
    let (fs, ends) = execute_cases change db in
    elim ends [
      | inl failed ↦ let result = sym failed ∙ e in absurd (cc)
      | inr (d, made, done_so) ↦
          let result = sym done_so ∙ e in (fs, made ∙ ap some (ap (λ r. r.1) result))
    ]

pub query-ok {ℓ} :
    {A : Type ℓ} (ask : Db → Result A) (a : A) (db db' : Db)
    → query ask db ≡ (ok a, db')
    → (fs : List Bool) × (db' ≡ with_faults fs db) × (ask (with_faults fs db) ≡ ok a)
query-ok ask a db db' e =
    let (fs, ends) = query_cases ask db in
    elim ends [
      | inl failed ↦ let result = sym failed ∙ e in absurd (cc)
      | inr asked ↦
          let result = sym asked ∙ e in (fs, sym (ap (λ r. r.1) result), ap (λ r. r.0) result)
    ]

-- A chain that succeeds has a first part that succeeded.
pub and_then-ok {ℓ κ} :
    {A : Type ℓ} {B : Type κ} (m : Result A × Db) (k : A → Action B) (b : B) (db' : Db)
    → and_then m k ≡ (ok b, db')
    → (a : A) × (db : Db) × (m ≡ (ok a, db)) × (k a db ≡ (ok b, db'))
and_then-ok (ok a, db) k b db' e = (a, db, refl, e)
and_then-ok (err _, db) k b db' e = absurd (cc)
