-- ===== src/Protocol/Varint/Decode.antt =====
-- `readVarint` on what `varint` writes.
use Prim.Native.Nat.{bit_and, bit_or}
use native.Mathlib.Nat.{div-add-mod}
use native.Mathlib.Numerals.{towards_suc}
use yyb_go.Prelude.{
  ℕ, zero, suc, ◌+◌, ◌*◌, ◌/◌, ◌%◌, ◌^◌, ◌<◌, ◌≡◌, ap, sym, ◌∷◌, ◌++◌, arith, Bytes, Bool-cases,
  ltb, inl, inr, tests, ◌∙◌,
}
use yyb_go.Prelude.Bits.{bit_and-0x7f, bit_and-0x80, bit_or_disjoint}
use yyb_go.Prelude.Outcome.{ok}
use yyb_go.Protocol.Varint.{IsU64, varint, read_varint_loop, read_varint}
use yyb_go.Protocol.Varint.Encode.{groups, varint-groups, varint_small}

-- Where the bits do not meet and nothing overflows, the step is a sum.
or_group-sum :
    (n g shift : ℕ)
    → n < 2 ^ shift
    → g * 2 ^ shift < 2 ^ 64
    → bit_or n (g * 2 ^ shift % 2 ^ 64) ≡ n + g * 2 ^ shift
or_group-sum n g shift h fits =
    let e : g * 2 ^ shift % 2 ^ 64 ≡ g * 2 ^ shift = omega arith in
    rw e (bit_or_disjoint shift n g h)

last_byte :
    (w n shift : ℕ) (rest : Bytes)
    → w < 128
    → n < 2 ^ shift
    → IsU64 (n + w * 2 ^ shift)
    → read_varint_loop (w ∷ rest) n shift ≡ ok (n + w * 2 ^ shift, rest)
unfolding read_varint_loop
last_byte w n shift rest hw hn fits =
    let e : bit_and w 0x7f ≡ w = omega (arith, bit_and-0x7f w) in
    rw e (ground (arith, bit_and-0x80 w, or_group-sum n w shift hn (omega arith)))

inner_byte :
    (g n shift : ℕ) (rest : Bytes)
    → g < 128
    → shift < 57
    → n < 2 ^ shift
    → IsU64 (n + g * 2 ^ shift)
    → read_varint_loop ((g + 128) ∷ rest) n shift
      ≡ read_varint_loop rest (n + g * 2 ^ shift) (shift + 7)
unfolding read_varint_loop
inner_byte g n shift rest hg hs hn fits =
    let e : bit_and (g + 128) 0x7f ≡ g = omega (arith, bit_and-0x7f (g + 128)) in
    rw (e, or_group-sum n g shift hn (omega arith)) (ground (arith, bit_and-0x80 (g + 128)))

weight_seven : (shift : ℕ) → 128 * 2 ^ shift ≡ 2 ^ (shift + 7)
weight_seven shift = simp towards_suc (omega arith)

-- A number at weight `p` is its low group there and the others 128 times as far up.
weigh_groups : (w p : ℕ) → w % 128 * p + w / 128 * (128 * p) ≡ w * p
weigh_groups w p = omega (arith, ap (λ (n : ℕ). n * p) (div-add-mod w 128))

low_and_high : (w n s : ℕ) → n + w % 128 * 2 ^ s + w / 128 * 2 ^ (s + 7) ≡ n + w * 2 ^ s
low_and_high w n s = rw (← weight_seven s) (omega (arith, weigh_groups w (2 ^ s)))

read_next : (w n s : ℕ) → n < 2 ^ s → n + w % 128 * 2 ^ s < 2 ^ (s + 7)
read_next w n s h = rw (← weight_seven s) (grind arith)

-- `w` is what is still to be read, and it counts from bit `s` on; `k` more bytes may follow.
read_varint_loop-groups :
    (k w n s : ℕ) (rest : Bytes)
    → w < 128 ^ suc k
    → s + 7 * k ≡ 63
    → n < 2 ^ s
    → IsU64 (n + w * 2 ^ s)
    → read_varint_loop (groups k w ++ rest) n s ≡ ok (n + w * 2 ^ s, rest)
unfolding groups
read_varint_loop-groups zero w n s rest hw hs hn fits = last_byte w n s rest hw hn fits
read_varint_loop-groups (suc k) w n s rest hw hs hn fits = elim (Bool-cases (ltb w 128)) [
  | inl small ↦ rw small (last_byte w n s rest (omega tests) hn fits)
  | inr large ↦
      rw
        (
          large,
          inner_byte (w % 128) n s (groups k (w / 128) ++ rest) (omega arith) (omega arith) hn
              (omega (arith, low_and_high w n s)),
        )
        (read_varint_loop-groups k (w / 128) (n + w % 128 * 2 ^ s) (s + 7) rest (omega arith)
            (omega arith) (read_next w n s hn) (omega (arith, low_and_high w n s))
          ∙ ap (λ (t : ℕ). ok (t, rest)) (omega (arith, low_and_high w n s)))
]

-- `readVarint` reads back the uint64 that `varint` wrote, and leaves what follows it.
pub read_varint-varint :
    (n : ℕ) (rest : Bytes) → IsU64 n → read_varint (varint n ++ rest) ≡ ok (n, rest)
unfolding read_varint
read_varint-varint n rest h = rw (varint-groups n h) (
    read_varint_loop-groups 9 n 0 0 rest (omega arith) (omega arith) (omega arith) (omega arith)
    ∙ ap (λ (t : ℕ). ok (t, rest)) (omega arith))

-- A byte below 128 is a whole number.
pub read_small : (n : ℕ) (rest : Bytes) → n < 128 → read_varint (n ∷ rest) ≡ ok (n, rest)
read_small n rest h =
    ap (λ (front : Bytes). read_varint (front ++ rest)) (sym (varint_small n h))
    ∙ read_varint-varint n rest (omega arith)
