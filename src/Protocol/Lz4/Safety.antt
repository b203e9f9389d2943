-- ===== src/Protocol/Lz4/Safety.antt =====
-- `lz4Decompress` on any input.
use yyb_go.Prelude.{
  ℕ, zero, suc, ◌+◌, ◌-◌, ◌*◌, ◌/◌, ◌%◌, ◌≤◌, ◌<◌, ◌≡◌, refl, sym, ap, ◌∙◌, ◌≢◌, inl, inr, ◌||◌, [],
  ◌∷◌, ◌++◌, append-nil, append_assoc, some, arith, Bytes, ltb, leb, ◌==◌, length, get_elem?, take,
  drop, length-append, length-take, length-drop, All, All-drop, get_elem?_lt, get_elem?-append_lt,
  get_elem?-length, Bool-cases,
}
use native.Mathlib.Nat.{add-zero}
use yyb_go.Prelude.Outcome.{Outcome, ok, err, panic, ◌>>=◌}
use yyb_go.Protocol.Varint.{IsByte}
use yyb_go.Protocol.Lz4.{
  Error, out_of_fuel, truncated_literal_length, truncated_match_length, read_length, copy_match,
  extended_length, copy_literals, match_part, decompress_loop, lz4_decompress,
}

-- The copied bytes behind `out`: each is the byte that stands `length out - at` places before it.
abbrev pub Repeats : ℕ → Bytes → Bytes → Type 0
Repeats at out ext =
    (i : ℕ)
    → i < length ext
    → get_elem? (out ++ ext) (length out + i) ≡ get_elem? (out ++ ext) (at + i)

Repeats-cons :
    (at b : ℕ) (out ext : Bytes)
    → at < length out
    → get_elem? out at ≡ some b
    → Repeats (at + 1) (out ++ b ∷ []) ext
    → Repeats at out (b ∷ ext)
Repeats-cons at b out ext h e r zero hi =
    rw (add-zero, add-zero, get_elem?-append_lt out (b ∷ ext) at h, e)
      (get_elem?-length out ext b (length out) refl)
Repeats-cons at b out ext h e r (suc i) hi =
    let step = r i (omega arith) in rw append_assoc at (rw (index, shift) at step)
  where
    index : length (out ++ b ∷ []) + i ≡ length out + suc i
    index = omega (arith, length-append out (b ∷ []))

    shift : at + 1 + i ≡ at + suc i
    shift = omega arith

-- A match that starts inside the output is copied whole, also where it overlaps what it writes.
pub copy_match_lem :
    (left at : ℕ) (out : Bytes)
    → at < length out
    → (ext : Bytes) × (copy_match left at out ≡ ok (out ++ ext))
      × (length ext ≡ left)
      × Repeats at out ext
unfolding copy_match
copy_match_lem zero at out h =
    ([], ap ok (sym (append-nil out)), refl, λ i hi. absurd (omega arith))
copy_match_lem (suc left) at out h =
    let (b, e) = get_elem?_lt out at h in
    let (ext, c, l, r) =
      copy_match_lem left (at + 1) (out ++ b ∷ []) (omega (arith, length-append out (b ∷ []))) in
    (
      b ∷ ext,
      rw (e, copy_match) (c ∙ ap ok (append_assoc out (b ∷ []) ext)),
      omega arith,
      Repeats-cons at b out ext h e r,
    )

-- A step keeps `base + 255 * (bytes left)` from growing, and leaves a suffix of bytes.
abbrev Shrinks : ℕ → Bytes → Outcome Error (ℕ × Bytes) → Type 0
Shrinks n rest (ok (m, rest')) =
    (m + 255 * length rest' ≤ n + 255 * length rest)
    × (length rest' ≤ length rest)
    × All IsByte rest'
Shrinks n rest (err e) = e ≢ out_of_fuel
Shrinks n rest panic = ⊥

read_length-Shrinks :
    (cut : Error) (rest : Bytes) (n : ℕ)
    → cut ≢ out_of_fuel
    → All IsByte rest
    → Shrinks n rest (read_length cut rest n)
unfolding read_length
read_length-Shrinks cut [] n hc h = hc
read_length-Shrinks cut (b ∷ rest) n hc (hb, h) = elim (Bool-cases (b == 255)) [
  | inl e ↦
      rw e (widen (read_length cut rest (n + 255)) (read_length-Shrinks cut rest (n + 255) hc h))
  | inr e ↦ rw e (omega arith, omega arith, h)
]
  where
    widen : (r : Outcome Error (ℕ × Bytes)) → Shrinks (n + 255) rest r → Shrinks n (b ∷ rest) r
    widen (ok (m, rest')) s = (omega arith, omega arith, s.2)
    widen (err e) s = s
    widen panic s = s

extended_length-Shrinks :
    (cut : Error) (nibble base : ℕ) (rest : Bytes)
    → cut ≢ out_of_fuel
    → All IsByte rest
    → Shrinks base rest (extended_length cut nibble base rest)
extended_length-Shrinks cut nibble base rest hc h = elim (Bool-cases (nibble == 15)) [
  | inl e ↦ rw e (read_length-Shrinks cut rest base hc h)
  | inr e ↦ rw e (omega arith, omega arith, h)
]

-- The same for a step that returns the bytes left and the output.
abbrev Grows : ℕ → Bytes → Outcome Error (Bytes × Bytes) → Type 0
Grows n rest (ok (rest', out)) =
    (length out + 255 * length rest' ≤ n + 255 * length rest)
    × (length rest' ≤ length rest)
    × All IsByte rest'
Grows n rest (err e) = e ≢ out_of_fuel
Grows n rest panic = ⊥

copy_literals-Grows :
    (lit_len : ℕ) (rest out : Bytes)
    → All IsByte rest
    → Grows (length out + lit_len) rest (copy_literals lit_len rest out)
unfolding copy_literals
copy_literals-Grows lit_len rest out h = elim (Bool-cases (ltb (length rest) lit_len)) [
  | inl e ↦ rw e (λ x. cc)
  | inr e ↦ rw e (
    omega (
      arith,
      length-append out (take lit_len rest),
      length-take lit_len rest,
      length-drop lit_len rest,
    ),
    omega (arith, length-drop lit_len rest),
    All-drop IsByte lit_len rest h,
  )
]

-- The copy behind a match length that has been read.
copied-Grows :
    (base off : ℕ) (rest out : Bytes) (r : Outcome Error (ℕ × Bytes))
    → 0 < off
    → off ≤ length out
    → Shrinks base rest r
    → Grows (length out + base) rest (
        r >>= λ (match_len, rest').
        copy_match match_len (length out - off) out >>= λ out'. ok (rest', out'))
copied-Grows base off rest out (ok (m, rest')) pos h (total, shorter, hb) =
    let (ext, c, l, _) = copy_match_lem m (length out - off) out (omega arith) in
    rw c (omega (arith, length-append out ext), shorter, hb)
copied-Grows base off rest out (err e) pos h s = s
copied-Grows base off rest out panic pos h s = s

match_part-Grows :
    (tok : ℕ) (rest out : Bytes)
    → All IsByte rest
    → Grows (length out + 19) (drop 2 rest) (match_part tok rest out)
unfolding match_part
match_part-Grows tok [] out h = λ x. cc
match_part-Grows tok (lo ∷ []) out h = λ x. cc
match_part-Grows tok (lo ∷ hi ∷ rest) out (hl, (hh, h)) =
    let off = lo + 256 * hi in
    elim (Bool-cases (leb off 0 || ltb (length out) off)) [
      | inl e ↦ rw e (λ x. cc)
      | inr e ↦ rw e (
          widen _ (
            copied-Grows (tok % 16 + 4) off rest out _ (ground arith) (ground arith) (
              extended_length-Shrinks truncated_match_length (tok % 16) (tok % 16 + 4) rest
                (λ x. cc) h)))
    ]
  where
    widen :
        (r : Outcome Error (Bytes × Bytes))
        → Grows (length out + (tok % 16 + 4)) rest r
        → Grows (length out + 19) rest r
    widen (ok (rest', out')) s = (omega arith, s.1, s.2)
    widen (err e) s = s
    widen panic s = s

-- What a run may end with: an output within the limit, or an error of the code's own.
abbrev pub Good : ℕ → Outcome Error Bytes → Type 0
Good limit (ok out) = length out ≤ limit
Good limit (err e) = e ≢ out_of_fuel
Good limit panic = ⊥

Good-mono : {m n : ℕ} (r : Outcome Error Bytes) → m ≤ n → Good m r → Good n r
Good-mono (ok out) h g = omega arith
Good-mono (err e) h g = g
Good-mono panic h g = g

-- The next round, or the end where the literals end the input.
rest_of_round :
    (fuel tok : ℕ) (rest out : Bytes)
    → ((rest' out' : Bytes)
        → length rest' < length rest
        → All IsByte rest'
        → Good (length out' + 255 * length rest') (decompress_loop fuel rest' out'))
    → All IsByte rest
    → Good (length out + 255 * length rest) (elim rest [
      | [] ↦ ok out
      | b ∷ bs ↦ match_part tok (b ∷ bs) out >>= λ (rest₃, out₂). decompress_loop fuel rest₃ out₂
    ])
rest_of_round fuel tok [] out next h = omega arith
rest_of_round fuel tok (b ∷ bs) out next h =
    go (match_part tok (b ∷ bs) out) (match_part-Grows tok (b ∷ bs) out h)
  where
    shorter : 255 * length (drop 2 (b ∷ bs)) + 255 ≤ 255 * length (b ∷ bs)
    shorter = omega (arith, length-drop 2 (b ∷ bs))

    go :
        (r : Outcome Error (Bytes × Bytes))
        → Grows (length out + 19) (drop 2 (b ∷ bs)) r
        → Good
            (length out + 255 * length (b ∷ bs))
            (r >>= λ (rest₃, out₂). decompress_loop fuel rest₃ out₂)
    go (ok (rest₃, out₂)) (total, less, hb) =
        Good-mono (decompress_loop fuel rest₃ out₂) (omega (arith, shorter))
          (next rest₃ out₂ (omega (arith, shorter)) hb)
    go (err e) g = g
    go panic g = g

-- The literals, once their number is known, and what is behind them.
literals-Good :
    (fuel tok limit : ℕ) (rest out : Bytes) (r : Outcome Error (ℕ × Bytes))
    → ((rest' out' : Bytes)
        → length rest' ≤ fuel
        → All IsByte rest'
        → Good (length out' + 255 * length rest') (decompress_loop fuel rest' out'))
    → length rest ≤ fuel
    → length out + 15 + 255 * length rest ≤ limit
    → Shrinks 15 rest r
    → Good limit (
        r >>= λ (lit_len, rest₁). copy_literals lit_len rest₁ out >>= λ (rest₂, out₁). elim rest₂ [
          | [] ↦ ok out₁
          | b ∷ bs ↦
              match_part tok (b ∷ bs) out₁ >>= λ (rest₃, out₂). decompress_loop fuel rest₃ out₂
        ])
literals-Good fuel tok limit rest out (err e) next hf hl s = s
literals-Good fuel tok limit rest out panic next hf hl s = s
literals-Good fuel tok limit rest out (ok (lit_len, rest₁)) next hf hl (total, shorter, hb) =
    go (copy_literals lit_len rest₁ out) (copy_literals-Grows lit_len rest₁ out hb)
  where
    go :
        (c : Outcome Error (Bytes × Bytes))
        → Grows (length out + lit_len) rest₁ c
        → Good limit (
            c >>= λ (rest₂, out₁). elim rest₂ [
              | [] ↦ ok out₁
              | b ∷ bs ↦
                  match_part tok (b ∷ bs) out₁ >>= λ (rest₃, out₂). decompress_loop fuel rest₃ out₂
            ])
    go (ok (rest₂, out₁)) (total', shorter', hb') =
        Good-mono _ (omega arith) (
          rest_of_round fuel tok rest₂ out₁ (λ rest' out' l h. next rest' out' (omega arith) h) hb')
    go (err e) g = g
    go panic g = g

decompress_loop-Good :
    (fuel : ℕ) (rest out : Bytes)
    → length rest ≤ fuel
    → All IsByte rest
    → Good (length out + 255 * length rest) (decompress_loop fuel rest out)
unfolding decompress_loop
decompress_loop-Good zero [] out hf h = omega arith
decompress_loop-Good (suc fuel) [] out hf h = omega arith
decompress_loop-Good zero (tok ∷ rest) out hf h = absurd (omega arith)
decompress_loop-Good (suc fuel) (tok ∷ rest) out hf (ht, h) =
    literals-Good fuel tok _ rest out
      (extended_length truncated_literal_length (tok / 16) (tok / 16) rest)
      (decompress_loop-Good fuel) (omega arith) (omega arith)
      (widen _
        (extended_length-Shrinks truncated_literal_length (tok / 16) (tok / 16) rest (λ x. cc) h))
  where
    widen : (r : Outcome Error (ℕ × Bytes)) → Shrinks (tok / 16) rest r → Shrinks 15 rest r
    widen (ok (m, rest')) s = (omega arith, s.1, s.2)
    widen (err e) s = s
    widen panic s = s

-- On every byte string `lz4Decompress` ends within its fuel and without a panic; where it returns an
-- output, that is at most 255 times as long as the input.
pub lz4_decompress-Good :
    (content : Bytes) → All IsByte content → Good (255 * length content) (lz4_decompress content)
unfolding lz4_decompress
lz4_decompress-Good content h =
    Good-mono (decompress_loop (length content) content []) (omega arith)
      (decompress_loop-Good (length content) content [] (omega arith) h)
