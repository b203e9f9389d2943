-- ===== src/Protocol/Record/Stream.antt =====
-- The record layer over a byte stream: `parseRecords` reads back what `buildRecord` writes, and
-- splitting its input into reads, in any way, changes nothing.
use yyb_go.Prelude.{
  ℕ, zero, suc, ◌+◌, ◌-◌, ◌≤◌, ◌≡◌, refl, sym, ap, ◌∙◌, subst, ◌⊎◌, inl, inr, List, [], ◌∷◌, ◌++◌,
  append-nil, append_assoc, arith, Bytes, length, take, drop, length-append, length-take,
  length-drop, take-append_le, drop-append_le, drop-length-append, take-append-drop,
}
use yyb_go.Protocol.BigEndian.{uint16}
use yyb_go.Protocol.Record.{Rec, Found, break, found, next_found, parse_loop, parse_records}

-- The records at the front of a byte string, and what is left behind them.
pub data Parses : Bytes → List Rec → Bytes → Type 0 where
  done : {a : Bytes} → next_found a ≡ break → Parses a [] a
  more :
      {a rest tail : Bytes} {r : Rec} {rs : List Rec}
      → next_found a ≡ found r rest
      → Parses rest rs tail
      → Parses a (r ∷ rs) tail

-- What a found record takes from the input.
next_found_takes :
    (a : Bytes) (r : Rec) (rest : Bytes)
    → next_found a ≡ found r rest
    → length a ≡ 5 + length r.payload + length rest
unfolding next_found
next_found_takes [] r rest e = cc
next_found_takes (_ ∷ []) r rest e = cc
next_found_takes (_ ∷ _ ∷ []) r rest e = cc
next_found_takes (_ ∷ _ ∷ _ ∷ []) r rest e = cc
next_found_takes (_ ∷ _ ∷ _ ∷ _ ∷ []) r rest e = cc
next_found_takes (ct ∷ v1 ∷ v0 ∷ l1 ∷ l0 ∷ t) r rest e =
    ground (arith, length-take (uint16 l1 l0) t, length-drop (uint16 l1 l0) t)

-- More input behind a complete record does not change it.
next_found-append :
    (a b : Bytes) (r : Rec) (rest : Bytes)
    → next_found a ≡ found r rest
    → next_found (a ++ b) ≡ found r (rest ++ b)
unfolding next_found
next_found-append [] b r rest e = cc
next_found-append (_ ∷ []) b r rest e = cc
next_found-append (_ ∷ _ ∷ []) b r rest e = cc
next_found-append (_ ∷ _ ∷ _ ∷ []) b r rest e = cc
next_found-append (_ ∷ _ ∷ _ ∷ _ ∷ []) b r rest e = cc
next_found-append (ct ∷ v1 ∷ v0 ∷ l1 ∷ l0 ∷ t) b r rest e =
    ground (
      arith,
      length-append t b,
      take-append_le (uint16 l1 l0) t b,
      drop-append_le (uint16 l1 l0) t b,
    )

found-cases : (x : Found) → (x ≡ break) ⊎ ((r : Rec) × (rest : Bytes) × (x ≡ found r rest))
found-cases break = inl refl
found-cases (found r rest) = inr (r, rest, refl)

next_found-nil : next_found [] ≡ break
unfolding next_found
next_found-nil = refl

pub pair_eq :
    {rs rs' : List Rec} {m n : ℕ} → rs ≡ rs' → m ≡ n → ◌≡◌ {A = List Rec × ℕ} (rs, m) (rs', n)
pair_eq p q = λ i. (p i, q i)

-- The loop with enough fuel follows the records of its input.
parse_loop-Parses :
    (fuel : ℕ) (a : Bytes) (recs : List Rec) (off : ℕ)
    → length a ≤ fuel
    → (rs : List Rec) × (tail : Bytes) × Parses a rs tail
      × (length tail ≤ length a)
      × (parse_loop fuel a recs off ≡ (recs ++ rs, off + (length a - length tail)))
unfolding parse_loop
parse_loop-Parses zero [] recs off h =
    ([], [], done next_found-nil, omega arith, pair_eq (sym (append-nil recs)) (omega arith))
parse_loop-Parses zero (x ∷ a) recs off h = absurd (omega arith)
parse_loop-Parses (suc fuel) a recs off h = elim (found-cases (next_found a)) [
  | inl e ↦ (
    [],
    a,
    done e,
    omega arith,
    rw (e, parse_loop) (pair_eq (sym (append-nil recs)) (omega arith)),
  )
  | inr (r, rest, e) ↦
      let takes = next_found_takes a r rest e in
      let (rs, tail, p, l, q) =
        parse_loop-Parses fuel rest (recs ++ r ∷ []) (off + 5 + length r.payload) (omega arith) in
      (
        r ∷ rs,
        tail,
        more e p,
        omega arith,
        rw (e, parse_loop, q) (pair_eq (append_assoc recs (r ∷ []) rs) (omega arith)),
      )
]

pub parse_records-Parses :
    (a : Bytes)
    → (rs : List Rec) × (tail : Bytes) × Parses a rs tail
      × (length tail ≤ length a)
      × (parse_records a ≡ (rs, length a - length tail))
unfolding parse_records
parse_records-Parses a =
    let (rs, tail, p, l, q) = parse_loop-Parses (length a) a [] 0 (omega arith) in
    (rs, tail, p, l, q ∙ pair_eq refl (omega arith))

found_fields :
    {r r' : Rec} {rest rest' : Bytes} → found r rest ≡ found r' rest' → (r ≡ r') × (rest ≡ rest')
found_fields e = (cc, cc)

-- The records of an input, and what is left, are determined.
pub Parses-unique :
    {a : Bytes} {rs rs' : List Rec} {tail tail' : Bytes}
    → Parses a rs tail
    → Parses a rs' tail'
    → (rs ≡ rs') × (tail ≡ tail')
Parses-unique (done e) (done e') = (refl, refl)
Parses-unique (done e) (more f q) = absurd (cc)
Parses-unique (more f p) (done e) = absurd (cc)
Parses-unique {rs' = _} {tail' = tail'} (more {rest = rest} {r = r} f p)
      (more {rest = rest'} {r = r'} {rs = rs'} f' q) =
    let same = found_fields (sym f' ∙ f) in
    let (e, t) = Parses-unique p (subst (λ (x : Bytes). Parses x rs' tail') same.1 q) in
    (cc same.0, t)

-- Records are found alike where more input follows, and the search goes on behind them.
pub Parses-append :
    {a tail tail' : Bytes} {rs rs' : List Rec} (b : Bytes)
    → Parses a rs tail
    → Parses (tail ++ b) rs' tail'
    → Parses (a ++ b) (rs ++ rs') tail'
Parses-append b (done e) q = q
Parses-append {a = a} b (more {rest = rest} {r = r} f p) q =
    more (next_found-append a b r rest f) (Parses-append b p q)

next_found_suffix :
    (a : Bytes) (r : Rec) (rest : Bytes)
    → next_found a ≡ found r rest
    → (front : Bytes) × (a ≡ front ++ rest)
unfolding next_found
next_found_suffix [] r rest e = absurd (cc)
next_found_suffix (_ ∷ []) r rest e = absurd (cc)
next_found_suffix (_ ∷ _ ∷ []) r rest e = absurd (cc)
next_found_suffix (_ ∷ _ ∷ _ ∷ []) r rest e = absurd (cc)
next_found_suffix (_ ∷ _ ∷ _ ∷ _ ∷ []) r rest e = absurd (cc)
next_found_suffix (ct ∷ v1 ∷ v0 ∷ l1 ∷ l0 ∷ t) r rest e = (
  ct ∷ v1 ∷ v0 ∷ l1 ∷ l0 ∷ take (uint16 l1 l0) t,
  ground (arith, take-append-drop (uint16 l1 l0) t),
)

Parses-suffix :
    {a tail : Bytes} {rs : List Rec} → Parses a rs tail → (front : Bytes) × (a ≡ front ++ tail)
Parses-suffix (done e) = ([], refl)
Parses-suffix {a = a} {tail = tail} (more {rest = rest} {r = r} f p) =
    let (front, e) = next_found_suffix a r rest f in
    let (front', e') = Parses-suffix p in
    (front ++ front', e ∙ ap (◌++◌ front) e' ∙ sym (append_assoc front front' tail))

-- The offset that `parseRecords` returns is where the input that is left begins.
pub Parses-drop :
    {a tail : Bytes} {rs : List Rec} → Parses a rs tail → drop (length a - length tail) a ≡ tail
Parses-drop {a = a} {tail = tail} p =
    let (front, e) = Parses-suffix p in
    rw e (
      drop-length-append (length (front ++ tail) - length tail) front tail
        (omega (arith, length-append front tail)))

-- Reading a byte string in two parts, keeping what the first leaves over, gives the records and the
-- offset of reading it at once, wherever it is cut.
pub parse_records-append :
    (a b : Bytes)
    → let (rs, n) = parse_records a in
      let (rs', n') = parse_records (drop n a ++ b) in parse_records (a ++ b) ≡ (rs ++ rs', n + n')
parse_records-append a b =
    let (rs, tail, p, l, e) = parse_records-Parses a in
    let (rs', tail', p', l', e') = parse_records-Parses (tail ++ b) in
    let (ts, tail'', q, m, f) = parse_records-Parses (a ++ b) in
    let (same, rest) = Parses-unique q (Parses-append b p p') in
    rw (e, Parses-drop p, e')
      (f ∙ pair_eq same (omega (arith, ap length rest, length-append a b, length-append tail b)))
