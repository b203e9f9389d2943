-- ===== src/Protocol/NewDns/Order.antt =====
-- internal/protocol/newdns.go: the order in which the servers of the long link are tried.
use yyb_go.Prelude.{
  ℕ, zero, suc, ◌≤◌, ◌<◌, ◌≡◌, refl, ap, ◌∙◌, inl, inr, true, false, not, ◌&&◌, List, [], ◌∷◌,
  arith, if-both, Bool-cases, All, All-append, All-take, length, take, length-take,
}
use yyb_go.Prelude.Text.{Text}
use yyb_go.Protocol.NewDns.{
  Target, pick, pick_all, text_lt, insert_by_ip, sort_by_ip, or_all, at_most, pref, is_port,
  is_seen, order_longlink_targets,
}

-- No address stands before a smaller one.
abbrev pub IsSorted : List Target → Type 0
IsSorted [] = Unit
IsSorted (t ∷ ts) = All (λ (u : Target). text_lt u.ip t.ip ≡ false) ts × IsSorted ts

text_lt_asymm : (s t : Text) → text_lt s t ≡ true → text_lt t s ≡ false
unfolding text_lt
text_lt_asymm s [] h = absurd (cc)
text_lt_asymm [] (d ∷ t) h = refl
text_lt_asymm (c ∷ s) (d ∷ t) h = ground (arith, text_lt_asymm s t)

text_ge_trans : (s t u : Text) → text_lt t s ≡ false → text_lt u t ≡ false → text_lt u s ≡ false
unfolding text_lt
text_ge_trans [] t u h k = refl
text_ge_trans (c ∷ s) [] u h k = absurd (cc)
text_ge_trans (c ∷ s) (d ∷ t) [] h k = absurd (cc)
text_ge_trans (c ∷ s) (d ∷ t) (e ∷ u) h k = ground (arith, text_ge_trans s t u)

module _ (P : Target → Type 0) where
  insert_by_ip-All : (t : Target) (ts : List Target) → P t → All P ts → All P (insert_by_ip t ts)
  unfolding insert_by_ip
  insert_by_ip-All t [] p _ = (p, tt)
  insert_by_ip-All t (u ∷ us) p (q, rest) =
      if-both (All P) (text_lt u.ip t.ip) (λ _. (q, insert_by_ip-All t us p rest))
        (λ _. (p, (q, rest)))

  sort_by_ip-All : (ts : List Target) → All P ts → All P (sort_by_ip ts)
  unfolding sort_by_ip
  sort_by_ip-All [] _ = tt
  sort_by_ip-All (t ∷ ts) (p, rest) = insert_by_ip-All t (sort_by_ip ts) p (sort_by_ip-All ts rest)

  pick-All : (p : ℕ) (ts : List Target) (seen : List Text) → All P ts → All P (pick p ts seen).0
  unfolding pick
  pick-All p [] seen _ = tt
  pick-All p (t ∷ ts) seen (h, rest) =
      if-both (λ (r : List Target × List Text). All P r.0)
        (is_port p t.port && not (is_seen t.ip seen)) (λ _. (h, pick-All p ts (t.ip ∷ seen) rest))
        (λ _. pick-All p ts seen rest)

  pick_all-All :
      (ports : List ℕ) (ts : List Target) (seen : List Text)
      → All P ts
      → All P (pick_all ports ts seen)
  unfolding pick_all
  pick_all-All [] ts seen _ = tt
  pick_all-All (p ∷ ports) ts seen h =
      All-append P (pick p ts seen).0 (pick_all ports ts (pick p ts seen).1) (pick-All p ts seen h)
        (pick_all-All ports ts (pick p ts seen).1 h)

  or_all-All : (ts out : List Target) → All P ts → All P out → All P (or_all ts out)
  or_all-All ts [] h _ = h
  or_all-All ts (t ∷ out) _ k = k

  at_most-All : (max : ℕ) (ts : List Target) → All P ts → All P (at_most max ts)
  at_most-All zero ts h = h
  at_most-All (suc n) ts h = All-take P (suc n) ts h

insert_by_ip-IsSorted : (t : Target) (ts : List Target) → IsSorted ts → IsSorted (insert_by_ip t ts)
unfolding insert_by_ip
insert_by_ip-IsSorted t [] _ = (tt, tt)
insert_by_ip-IsSorted t (u ∷ us) (least, rest) = elim (Bool-cases (text_lt u.ip t.ip)) [
  | inl behind ↦ rw behind (
    insert_by_ip-All (λ v. text_lt v.ip u.ip ≡ false) t us (text_lt_asymm u.ip t.ip behind) least,
    insert_by_ip-IsSorted t us rest,
  )
  | inr here ↦ rw here ((here, above here us least), (least, rest))
]
  where
    above :
        text_lt u.ip t.ip ≡ false
        → (vs : List Target) → All (λ (v : Target). text_lt v.ip u.ip ≡ false) vs
        → All (λ (v : Target). text_lt v.ip t.ip ≡ false) vs
    above here [] _ = tt
    above here (v ∷ vs) (h, hs) = (text_ge_trans t.ip u.ip v.ip here h, above here vs hs)

sort_by_ip-IsSorted : (ts : List Target) → IsSorted (sort_by_ip ts)
unfolding sort_by_ip
sort_by_ip-IsSorted [] = tt
sort_by_ip-IsSorted (t ∷ ts) = insert_by_ip-IsSorted t (sort_by_ip ts) (sort_by_ip-IsSorted ts)

take-IsSorted : (n : ℕ) (ts : List Target) → IsSorted ts → IsSorted (take n ts)
take-IsSorted zero ts _ = tt
take-IsSorted (suc n) [] _ = tt
take-IsSorted (suc n) (t ∷ ts) (least, rest) = (All-take _ n ts least, take-IsSorted n ts rest)

insert_by_ip-length : (t : Target) (ts : List Target) → length (insert_by_ip t ts) ≡ suc (length ts)
unfolding insert_by_ip
insert_by_ip-length t [] = refl
insert_by_ip-length t (u ∷ us) =
    if-both (λ (r : List Target). length r ≡ suc (suc (length us))) (text_lt u.ip t.ip)
      (λ _. ap suc (insert_by_ip-length t us)) (λ _. refl)

sort_by_ip-length : (ts : List Target) → length (sort_by_ip ts) ≡ length ts
unfolding sort_by_ip
sort_by_ip-length [] = refl
sort_by_ip-length (t ∷ ts) = insert_by_ip-length t (sort_by_ip ts) ∙ ap suc (sort_by_ip-length ts)

or_all-nonempty : (ts out : List Target) → 0 < length ts → 0 < length (or_all ts out)
or_all-nonempty ts [] h = h
or_all-nonempty ts (t ∷ out) h = omega arith

-- With a limit of one or more, orderLonglinkTargets returns at most so many targets, and at least one if
-- it is given one; each of them is one of those that it was given, and their addresses are in order.
pub order_longlink_targets-Ordered :
    (P : Target → Type 0) (targets : List Target) (max : ℕ)
    → 0 < max
    → 0 < length targets
    → All P targets
    → (length (order_longlink_targets targets max) ≤ max)
      × (0 < length (order_longlink_targets targets max))
      × All P (order_longlink_targets targets max)
      × IsSorted (order_longlink_targets targets max)
unfolding order_longlink_targets
order_longlink_targets-Ordered P targets zero limit given h = absurd (omega arith)
order_longlink_targets-Ordered P targets (suc n) limit given h =
    let out = or_all targets (pick_all pref targets []) in
    (
      omega (arith, length-take (suc n) (sort_by_ip out)),
      omega (
        arith,
        length-take (suc n) (sort_by_ip out),
        sort_by_ip-length out,
        or_all-nonempty targets (pick_all pref targets []) given,
      ),
      at_most-All P (suc n) (sort_by_ip out) (
          sort_by_ip-All P out
            (or_all-All P targets (pick_all pref targets []) h (pick_all-All P pref targets [] h))),
      take-IsSorted (suc n) (sort_by_ip out) (sort_by_ip-IsSorted out),
    )
