-- ===== src/Store/Rows.antt =====
-- internal/store/store.go: the rows of a table, under the WHERE clauses of its statements.
use yyb_go.Prelude.{
  ◌≡◌, refl, sym, ◌∙◌, Bool, true, false, List, [], ◌∷◌, ◌++◌, Option, none, some, All, inl, inr,
  if◌then◌else◌, if-both, Bool-cases, ap, ◌&&◌,
}

module _ {ℓ} {A : Type ℓ} where
  -- `UPDATE ... SET ... WHERE ...`
  unfoldable pub update_where : (A → Bool) → (A → A) → List A → List A
  update_where p f [] = []
  update_where p f (r ∷ rows) = (if p r then f r else r) ∷ update_where p f rows

  -- `DELETE ... WHERE ...`
  unfoldable pub delete_where : (A → Bool) → List A → List A
  delete_where p [] = []
  delete_where p (r ∷ rows) = let rest = delete_where p rows in if p r then rest else r ∷ rest

  -- The first row of `SELECT ... WHERE ...`.
  unfoldable pub find_where : (A → Bool) → List A → Option A
  find_where p [] = none
  find_where p (r ∷ rows) = if p r then some r else find_where p rows

  pub find_where-holds :
      (p : A → Bool) (rows : List A) (r : A) → find_where p rows ≡ some r → p r ≡ true
  unfolding find_where
  find_where-holds p [] r e = absurd (cc)
  find_where-holds p (s ∷ rows) r e = elim (Bool-cases (p s)) [
    | inl holds ↦
        let here : some s ≡ some r = sym (rw holds refl) ∙ e in
        let same : s ≡ r = cc in sym (ap p same) ∙ holds
    | inr fails ↦ find_where-holds p rows r (sym (rw fails refl) ∙ e)
  ]

  pub find_where-missing :
      (p : A → Bool) (rows : List A) → find_where p rows ≡ none → All (λ r. p r ≡ false) rows
  unfolding find_where
  find_where-missing p [] e = tt
  find_where-missing p (s ∷ rows) e = elim (Bool-cases (p s)) [
    | inl holds ↦ let here : some s ≡ none = sym (rw holds refl) ∙ e in absurd (cc)
    | inr fails ↦ (fails, find_where-missing p rows (sym (rw fails refl) ∙ e))
  ]

  pub find_where-append :
      (p : A → Bool) (rows : List A) (new : A)
      → find_where p rows ≡ none
      → p new ≡ true
      → find_where p (rows ++ new ∷ []) ≡ some new
  unfolding find_where
  find_where-append p [] new e holds = rw holds refl
  find_where-append p (s ∷ rows) new e holds = elim (Bool-cases (p s)) [
    | inl here ↦ let found : some s ≡ none = sym (rw here refl) ∙ e in absurd (cc)
    | inr fails ↦ rw fails (find_where-append p rows new (sym (rw fails refl) ∙ e) holds)
  ]

  pub find_where-append_other :
      (p : A → Bool) (rows : List A) (new : A)
      → p new ≡ false
      → find_where p (rows ++ new ∷ []) ≡ find_where p rows
  unfolding find_where
  find_where-append_other p [] new fails = rw fails refl
  find_where-append_other p (s ∷ rows) new fails =
      if-both (λ x. (if p s then some s else find_where p (rows ++ new ∷ [])) ≡ x) (p s)
        (λ here. rw here refl) (λ there. rw there (find_where-append_other p rows new fails))

  pub find_where-append_found :
      (p : A → Bool) (rows : List A) (r new : A)
      → find_where p rows ≡ some r
      → find_where p (rows ++ new ∷ []) ≡ some r
  unfolding find_where
  find_where-append_found p [] r new e = absurd (cc)
  find_where-append_found p (s ∷ rows) r new e = elim (Bool-cases (p s)) [
    | inl here ↦ rw here (sym (rw here refl) ∙ e)
    | inr fails ↦ rw fails (find_where-append_found p rows r new (sym (rw fails refl) ∙ e))
  ]

  abbrev pub changed : (A → A) → Option A → Option A
  changed f none = none
  changed f (some r) = some (f r)

  -- An update keeps the place of each row, where it leaves what is asked for as it was.
  pub find_where-update :
      (q p : A → Bool) (f : A → A) (rows : List A)
      → ((r : A) → q (f r) ≡ q r)
      → find_where q (update_where p f rows)
        ≡ changed (λ r. if p r then f r else r) (find_where q rows)
  unfolding find_where update_where
  find_where-update q p f [] keeps = refl
  find_where-update q p f (r ∷ rows) keeps = elim (Bool-cases (q r)) [
    | inl here ↦ rw (asked, here) refl
    | inr there ↦ rw (asked, there) (find_where-update q p f rows keeps)
  ]
    where
      asked : q (if p r then f r else r) ≡ q r
      asked = if-both (λ x. q x ≡ q r) (p r) (λ _. keeps r) (λ _. refl)

  pub find_where-update_self :
      (p : A → Bool) (f : A → A) (rows : List A) (r : A)
      → ((r : A) → p (f r) ≡ p r)
      → find_where p rows ≡ some r
      → find_where p (update_where p f rows) ≡ some (f r)
  find_where-update_self p f rows r keeps found =
      find_where-update p p f rows keeps ∙ rw (found, find_where-holds p rows r found) refl

  pub find_where-update_other :
      (q p : A → Bool) (f : A → A) (rows : List A)
      → ((r : A) → q (f r) ≡ q r)
      → ((r : A) → q r ≡ true → p r ≡ false)
      → find_where q (update_where p f rows) ≡ find_where q rows
  find_where-update_other q p f rows keeps apart =
      find_where-update q p f rows keeps ∙ unchanged (find_where q rows) (find_where-holds q rows)
    where
      unchanged :
          (found : Option A)
          → ((r : A) → found ≡ some r → q r ≡ true)
          → changed (λ r. if p r then f r else r) found ≡ found
      unchanged none holds = refl
      unchanged (some r) holds = rw (apart r (holds r refl)) refl

  pub find_where-delete_other :
      (q p : A → Bool) (rows : List A)
      → ((r : A) → q r ≡ true → p r ≡ false)
      → find_where q (delete_where p rows) ≡ find_where q rows
  unfolding find_where delete_where
  find_where-delete_other q p [] apart = refl
  find_where-delete_other q p (r ∷ rows) apart = elim (Bool-cases (q r)) [
    | inl here ↦ rw (apart r here, here) refl
    | inr there ↦ elim (Bool-cases (p r)) [
      | inl gone ↦ rw (gone, there) (find_where-delete_other q p rows apart)
      | inr kept ↦ rw (kept, there) (find_where-delete_other q p rows apart)
    ]
  ]

  pub delete_where-gone :
      (p : A → Bool) (rows : List A) → All (λ r. p r ≡ false) (delete_where p rows)
  unfolding delete_where
  delete_where-gone p [] = tt
  delete_where-gone p (r ∷ rows) = elim (Bool-cases (p r)) [
    | inl gone ↦ rw gone (delete_where-gone p rows)
    | inr kept ↦ rw kept (kept, delete_where-gone p rows)
  ]

  pub find_where-none :
      (p : A → Bool) (rows : List A) → All (λ r. p r ≡ false) rows → find_where p rows ≡ none
  unfolding find_where
  find_where-none p [] h = refl
  find_where-none p (r ∷ rows) (fails, h) = rw fails (find_where-none p rows h)

module _ {ℓ κ} {A : Type ℓ} (P : A → Type κ) where
  pub All-delete : (p : A → Bool) (rows : List A) → All P rows → All P (delete_where p rows)
  unfolding delete_where
  All-delete p [] _ = tt
  All-delete p (r ∷ rows) (h, rest) =
      if-both (All P) (p r) (λ _. All-delete p rows rest) (λ _. (h, All-delete p rows rest))

  pub All-update :
      (p : A → Bool) (f : A → A) (rows : List A)
      → ((r : A) → P r → P (f r))
      → All P rows
      → All P (update_where p f rows)
  unfolding update_where
  All-update p f [] keeps _ = tt
  All-update p f (r ∷ rows) keeps (h, rest) =
      (if-both P (p r) (λ _. keeps r h) (λ _. h), All-update p f rows keeps rest)

  pub All-found :
      (p : A → Bool) (rows : List A) (r : A) → All P rows → find_where p rows ≡ some r → P r
  unfolding find_where
  All-found p [] r _ e = absurd (cc)
  All-found p (s ∷ rows) r (h, rest) e = elim (Bool-cases (p s)) [
    | inl holds ↦
        let here : some s ≡ some r = sym (rw holds refl) ∙ e in
        let same : s ≡ r = cc in same_row same h
    | inr fails ↦ All-found p rows r rest (sym (rw fails refl) ∙ e)
  ]
    where
      same_row : s ≡ r → P s → P r
      same_row same x = rw (sym same) x

pub All-both {ℓ κ μ ν} :
    {A : Type ℓ} (P : A → Type κ) (Q : A → Type μ) (R : A → Type ν) (rows : List A)
    → ((r : A) → P r → Q r → R r)
    → All P rows
    → All Q rows
    → All R rows
All-both P Q R [] f _ _ = tt
All-both P Q R (r ∷ rows) f (p, ps) (q, qs) = (f r p q, All-both P Q R rows f ps qs)

-- No two rows agree in the key.
module _ {ℓ κ} {A : Type ℓ} {K : Type κ} (key : A → K) where
  abbrev pub AreDistinct : List A → Type κ
  AreDistinct [] = Unit
  AreDistinct (r ∷ rows) = All (λ s. ¬ (key r ≡ key s)) rows × AreDistinct rows

  pub AreDistinct-delete :
      (p : A → Bool) (rows : List A) → AreDistinct rows → AreDistinct (delete_where p rows)
  unfolding delete_where
  AreDistinct-delete p [] _ = tt
  AreDistinct-delete p (r ∷ rows) (h, rest) =
      if-both AreDistinct (p r) (λ _. AreDistinct-delete p rows rest)
        (λ _. (All-delete _ p rows h, AreDistinct-delete p rows rest))

  pub AreDistinct-update :
      (p : A → Bool) (f : A → A) (rows : List A)
      → ((r : A) → key (f r) ≡ key r)
      → AreDistinct rows
      → AreDistinct (update_where p f rows)
  unfolding update_where
  AreDistinct-update p f [] keeps _ = tt
  AreDistinct-update p f (r ∷ rows) keeps (h, rest) = (
    All-update _ p f rows (λ s apart same. apart (same ∙ keeps s)) (rw own h),
    AreDistinct-update p f rows keeps rest,
  )
    where
      own : key (if p r then f r else r) ≡ key r
      own = if-both (λ x. key x ≡ key r) (p r) (λ _. keeps r) (λ _. refl)

  pub AreDistinct-append :
      (rows : List A) (new : A)
      → All (λ r. ¬ (key r ≡ key new)) rows
      → AreDistinct rows
      → AreDistinct (rows ++ new ∷ [])
  AreDistinct-append [] new _ _ = (tt, tt)
  AreDistinct-append (r ∷ rows) new (apart, others) (h, rest) =
      (last rows h, AreDistinct-append rows new others rest)
    where
      last :
          (ss : List A)
          → All (λ s. ¬ (key r ≡ key s)) ss
          → All (λ s. ¬ (key r ≡ key s)) (ss ++ new ∷ [])
      last [] _ = (apart, tt)
      last (s ∷ ss) (hs, hss) = (hs, last ss hss)

pub All-imp {ℓ κ μ} :
    {A : Type ℓ} (P : A → Type κ) (Q : A → Type μ) (rows : List A)
    → ((r : A) → P r → Q r)
    → All P rows
    → All Q rows
All-imp P Q [] f _ = tt
All-imp P Q (r ∷ rows) f (p, ps) = (f r p, All-imp P Q rows f ps)

pub All-append_one {ℓ κ} :
    {A : Type ℓ} (P : A → Type κ) (rows : List A) (new : A)
    → All P rows
    → P new
    → All P (rows ++ new ∷ [])
All-append_one P [] new _ p = (p, tt)
All-append_one P (r ∷ rows) new (q, qs) p = (q, All-append_one P rows new qs p)

abbrev pub kept {ℓ} : {A : Type ℓ} → (A → Bool) → Option A → Option A
kept l none = none
kept l (some r) = if l r then some r else none

-- Where the first test picks a key, a second test only decides on the one row with that key.
pub find_where-and {ℓ κ} :
    {A : Type ℓ} {K : Type κ} (key : A → K) (q l : A → Bool) (rows : List A)
    → ((r s : A) → q r ≡ true → q s ≡ true → key r ≡ key s)
    → AreDistinct key rows
    → find_where (λ r. q r && l r) rows ≡ kept l (find_where q rows)
unfolding find_where
find_where-and {A = A} key q l [] picks _ = refl
find_where-and {A = A} key q l (r ∷ rows) picks (apart, distinct) = elim (Bool-cases (q r)) [
  | inr other ↦ rw other (find_where-and key q l rows picks distinct)
  | inl here ↦ elim (Bool-cases (l r)) [
    | inl passes ↦ rw (here, passes) refl
    | inr fails ↦
        rw (here, fails)
          (find_where-none (λ s. q s && l s) rows
            (All-imp _ _ rows (λ s differs. not_here s here differs) apart))
  ]
]
  where
    not_here : (s : A) → q r ≡ true → ¬ (key r ≡ key s) → (q s && l s) ≡ false
    not_here s here differs = elim (Bool-cases (q s)) [
      | inl same ↦ absurd (differs (picks r s here same))
      | inr other ↦ rw other refl
    ]
