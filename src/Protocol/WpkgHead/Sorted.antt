-- ===== src/Protocol/WpkgHead/Sorted.antt =====
-- internal/protocol/ilink.go: the maps of a head, in the order of their keys.
use yyb_go.Prelude.{
  ℕ, ◌≡◌, refl, ap, sym, ◌∙◌, inl, inr, false, List, [], ◌∷◌, ◌++◌, none, some, arith, ◌==◌,
  if◌then◌else◌, Bool-cases, All, ==_iff,
}
use yyb_go.Prelude.Map.{lookup, insert, nat_eq, IsMap}
use yyb_go.Protocol.WpkgHead.{key_lt, sort_insert, sorted}

module _ {ℓ} {A : Type ℓ} where
  lookup-sort_insert :
      (k j : ℕ) (v : A) (m : List (ℕ × A))
      → lookup k m ≡ none
      → lookup j (sort_insert k v m) ≡ (if k == j then some v else lookup j m)
  unfolding sort_insert lookup
  lookup-sort_insert k j v [] fresh = refl
  lookup-sort_insert k j v ((i, w) ∷ m) fresh =
      ground (arith, ==_iff i k, fresh, lookup-sort_insert k j v m)

  pub lookup-sorted : (j : ℕ) (m : List (ℕ × A)) → IsMap m → lookup j (sorted m) ≡ lookup j m
  unfolding sorted lookup
  lookup-sorted j [] _ = refl
  lookup-sorted j ((k, v) ∷ m) (fresh, rest) =
      lookup-sort_insert k j v (sorted m) (lookup-sorted k m rest ∙ fresh)
      ∙ ap (λ o. if k == j then some v else o) (lookup-sorted j m rest)

  sort_insert-IsMap :
      (k : ℕ) (v : A) (m : List (ℕ × A)) → lookup k m ≡ none → IsMap m → IsMap (sort_insert k v m)
  unfolding sort_insert lookup
  sort_insert-IsMap k v [] fresh _ = (refl, tt)
  sort_insert-IsMap k v ((j, w) ∷ m) fresh (fresh_j, rest) = elim (Bool-cases (key_lt j k)) [
    | inl smaller ↦
        let fresh_m : lookup k m ≡ none = ground (arith, fresh) in
        rw smaller (
          ground (arith, lookup-sort_insert k j v m fresh_m, fresh_j),
          sort_insert-IsMap k v m fresh_m rest,
        )
    | inr larger ↦ rw larger (fresh, (fresh_j, rest))
  ]

  pub sorted-IsMap : (m : List (ℕ × A)) → IsMap m → IsMap (sorted m)
  unfolding sorted
  sorted-IsMap [] _ = tt
  sorted-IsMap ((k, v) ∷ m) (fresh, rest) =
      sort_insert-IsMap k v (sorted m) (lookup-sorted k m rest ∙ fresh) (sorted-IsMap m rest)

  All-sort_insert :
      (P : ℕ × A → Type 0) (k : ℕ) (v : A) (m : List (ℕ × A))
      → P (k, v)
      → All P m
      → All P (sort_insert k v m)
  unfolding sort_insert
  All-sort_insert P k v [] p _ = (p, tt)
  All-sort_insert P k v ((j, w) ∷ m) p (q, rest) = elim (Bool-cases (key_lt j k)) [
    | inl smaller ↦ rw smaller (q, All-sort_insert P k v m p rest)
    | inr larger ↦ rw larger (p, (q, rest))
  ]

  pub All-sorted : (P : ℕ × A → Type 0) (m : List (ℕ × A)) → All P m → All P (sorted m)
  unfolding sorted
  All-sorted P [] _ = tt
  All-sorted P ((k, v) ∷ m) (p, rest) = All-sort_insert P k v (sorted m) p (All-sorted P m rest)

  lookup-none_lem :
      (j k : ℕ) (v : A) (acc m : List (ℕ × A))
      → lookup j (acc ++ (k, v) ∷ m) ≡ none
      → (j == k) ≡ false
  unfolding lookup
  lookup-none_lem j k v [] m h = ground (arith, h)
  lookup-none_lem j k v ((i, w) ∷ acc) m h = elim (Bool-cases (i == j)) [
    | inl same ↦ absurd (ground (arith, h, same))
    | inr differs ↦ lookup-none_lem j k v acc m (sym (rw differs refl) ∙ h)
  ]

  -- A new key goes to the end.
  pub insert-append :
      (k : ℕ) (v : A) (acc m : List (ℕ × A))
      → IsMap (acc ++ (k, v) ∷ m)
      → insert k v acc ≡ acc ++ (k, v) ∷ []
  unfolding insert lookup
  insert-append k v [] m _ = refl
  insert-append k v ((j, w) ∷ acc) m (fresh, rest) =
      rw (lookup-none_lem j k v acc m fresh) (ap (◌∷◌ (j, w)) (insert-append k v acc m rest))
