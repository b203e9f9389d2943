-- ===== src/Prelude/Map.antt =====
-- Go maps as association lists over keys with a Boolean test.
use text.Mathlib.Text.{◌==◌ as str_eq}
use text.Mathlib.TextEquality.{eq_iff}
use Prim.Native.String.{String}
use yyb_go.Prelude.{
  ℕ, ◌≡◌, refl, ◌↔◌, Bool, true, false, sym, ◌∙◌, ◌⊎◌, inl, inr, Bool-cases, All, subst, List, [],
  ◌∷◌, Option, none, some, arith, ==_iff, if◌then◌else◌,
}
use yyb_go.Prelude.{◌==◌ as nat_beq}

pub record Eq {ℓ} (A : Type ℓ) : Type ℓ where
  pub beq : A → A → Bool
  pub beq_iff : (a b : A) → (beq a b ≡ true) ↔ (a ≡ b)

instance abbrev pub nat_eq : Eq ℕ
nat_eq = record { beq = nat_beq; beq_iff = ==_iff }

instance abbrev pub string_eq : Eq String
string_eq = record { beq = str_eq; beq_iff = eq_iff }

module _ {κ} {K : Type κ} ⦃e : Eq K⦄ where
  pub beq_refl : (k : K) → e.beq k k ≡ true
  beq_refl k = (e.beq_iff k k).1 refl

  pub beq_symm : (j k : K) → e.beq j k ≡ false → e.beq k j ≡ false
  beq_symm j k differs = ground (arith, e.beq_iff j k, e.beq_iff k j)

module _ {ℓ κ} {K : Type κ} {V : Type ℓ} ⦃e : Eq K⦄ where
  unfoldable pub lookup : K → List (K × V) → Option V
  lookup k [] = none
  lookup k ((j, v) ∷ m) = if e.beq j k then some v else lookup k m

  -- `m[k] = v`
  unfoldable pub insert : K → V → List (K × V) → List (K × V)
  insert k v [] = (k, v) ∷ []
  insert k v ((j, w) ∷ m) = if e.beq j k then (k, v) ∷ m else (j, w) ∷ insert k v m

  -- `delete(m, k)`
  unfoldable pub remove : K → List (K × V) → List (K × V)
  remove k [] = []
  remove k ((j, w) ∷ m) = if e.beq j k then remove k m else (j, w) ∷ remove k m

  pub lookup-insert :
      (k j : K) (v : V) (m : List (K × V))
      → lookup j (insert k v m) ≡ (if e.beq k j then some v else lookup j m)
  unfolding lookup insert
  lookup-insert k j v [] = refl
  lookup-insert k j v ((i, w) ∷ m) =
      ground (arith, e.beq_iff k j, e.beq_iff i k, e.beq_iff i j, lookup-insert k j v m)

  pub lookup-remove :
      (k j : K) (m : List (K × V))
      → lookup j (remove k m) ≡ (if e.beq k j then none else lookup j m)
  unfolding lookup remove
  lookup-remove k j [] = ground arith
  lookup-remove k j ((i, w) ∷ m) =
      ground (arith, e.beq_iff k j, e.beq_iff i k, e.beq_iff i j, lookup-remove k j m)

  pub lookup-insert_self : (k : K) (v : V) (m : List (K × V)) → lookup k (insert k v m) ≡ some v
  lookup-insert_self k v m = rw (lookup-insert k k v m, beq_refl k)

  pub lookup-remove_self : (k : K) (m : List (K × V)) → lookup k (remove k m) ≡ none
  lookup-remove_self k m = rw (lookup-remove k k m, beq_refl k)

  pub lookup-insert_other :
      (k j : K) (v : V) (m : List (K × V))
      → e.beq k j ≡ false
      → lookup j (insert k v m) ≡ lookup j m
  lookup-insert_other k j v m h = rw (lookup-insert k j v m, h) refl

  -- What is found after an insertion is what was inserted, or was there before.
  pub lookup-insert_cases :
      (k j : K) (v w : V) (m : List (K × V))
      → lookup j (insert k v m) ≡ some w
      → ((k ≡ j) × (v ≡ w)) ⊎ ((e.beq k j ≡ false) × (lookup j m ≡ some w))
  lookup-insert_cases k j v w m found = elim (Bool-cases (e.beq k j)) [
    | inl same ↦
        let here : some v ≡ some w = sym (lookup-insert k j v m ∙ rw same refl) ∙ found in
        inl ((e.beq_iff k j).0 same, cc)
    | inr differs ↦ inr (differs, sym (lookup-insert_other k j v m differs) ∙ found)
  ]

  -- No key stands twice.
  abbrev pub IsMap : List (K × V) → Type ℓ
  IsMap [] = Unit
  IsMap ((k, v) ∷ m) = (lookup k m ≡ none) × IsMap m

  pub insert-IsMap : (k : K) (v : V) (m : List (K × V)) → IsMap m → IsMap (insert k v m)
  unfolding insert lookup
  insert-IsMap k v [] _ = (refl, tt)
  insert-IsMap k v ((j, w) ∷ m) (fresh, rest) = elim (Bool-cases (e.beq j k)) [
    | inl same ↦ rw same (subst (λ i. lookup i m ≡ none) ((e.beq_iff j k).0 same) fresh, rest)
    | inr differs ↦
        rw differs
          (lookup-insert_other k j v m (beq_symm j k differs) ∙ fresh, insert-IsMap k v m rest)
  ]

  pub remove-IsMap : (k : K) (m : List (K × V)) → IsMap m → IsMap (remove k m)
  unfolding remove lookup
  remove-IsMap k [] _ = tt
  remove-IsMap k ((j, w) ∷ m) (fresh, rest) = elim (Bool-cases (e.beq j k)) [
    | inl same ↦ rw same (remove-IsMap k m rest)
    | inr differs ↦
        rw differs (lookup-remove k j m ∙ rw (beq_symm j k differs) fresh, remove-IsMap k m rest)
  ]

module _ {ℓ κ μ} {K : Type κ} {V : Type ℓ} ⦃e : Eq K⦄ (P : K × V → Type μ) where
  pub All-insert : (k : K) (v : V) (m : List (K × V)) → P (k, v) → All P m → All P (insert k v m)
  unfolding insert
  All-insert k v [] p _ = (p, tt)
  All-insert k v ((j, w) ∷ m) p (q, rest) = elim (Bool-cases (e.beq j k)) [
    | inl same ↦ rw same (p, rest)
    | inr differs ↦ rw differs (q, All-insert k v m p rest)
  ]

  pub All-remove : (k : K) (m : List (K × V)) → All P m → All P (remove k m)
  unfolding remove
  All-remove k [] _ = tt
  All-remove k ((j, w) ∷ m) (q, rest) = elim (Bool-cases (e.beq j k)) [
    | inl same ↦ rw same (All-remove k m rest)
    | inr differs ↦ rw differs (q, All-remove k m rest)
  ]

  pub All-lookup : (k : K) (v : V) (m : List (K × V)) → All P m → lookup k m ≡ some v → P (k, v)
  unfolding lookup
  All-lookup k v [] _ h = absurd (cc)
  All-lookup k v ((j, w) ∷ m) (q, rest) h = elim (Bool-cases (e.beq j k)) [
    | inl same ↦
        let here : some w ≡ some v = sym (rw same refl) ∙ h in
        let key = (e.beq_iff j k).0 same in subst P (cc) q
    | inr differs ↦ All-lookup k v m rest (sym (rw differs refl) ∙ h)
  ]
