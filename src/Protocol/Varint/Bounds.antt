-- ===== src/Protocol/Varint/Bounds.antt =====
-- `readVarint` on any input.
use yyb_go.Prelude.{ℕ, ◌+◌, ◌*◌, ◌≤◌, ◌<◌, ◌≡◌, ◌≢◌, [], ◌∷◌, ◌++◌, arith, Bytes, length, All, refl}
use yyb_go.Prelude.Bits.{bit_and-0x80, bit_or-lt}
use yyb_go.Prelude.Outcome.{ok, err, panic}
use yyb_go.Protocol.Varint.{
  IsU64, or_group, read_varint_loop, read_varint, varint_overflow, truncated_varint,
}

or_group-IsU64 : (n b shift : ℕ) → IsU64 n → IsU64 (or_group n b shift)
or_group-IsU64 n b shift h = bit_or-lt 64 n _ h (omega arith)

-- After `j` bytes the shift is 7 * j, and it never passes 63.
read_varint_loop_takes :
    (bytes : Bytes) (n shift j v : ℕ) (rest : Bytes)
    → shift ≡ 7 * j
    → j ≤ 9
    → IsU64 n
    → read_varint_loop bytes n shift ≡ ok (v, rest)
    → IsU64 v × (length rest < length bytes) × (length bytes + j ≤ length rest + 10)
unfolding read_varint_loop
read_varint_loop_takes [] n shift j v rest hs hj hn e = cc
read_varint_loop_takes (b ∷ bs) n shift j v rest hs hj hn e = ground (
  arith,
  or_group-IsU64 n b shift hn,
  read_varint_loop_takes bs (or_group n b shift) (shift + 7) (j + 1) v rest,
)

-- A successful `readVarint` returns a uint64 and takes 1 to 10 bytes.
pub read_varint_takes :
    (bytes : Bytes) (v : ℕ) (rest : Bytes)
    → read_varint bytes ≡ ok (v, rest)
    → IsU64 v × (length rest < length bytes) × (length bytes ≤ length rest + 10)
unfolding read_varint
read_varint_takes bytes v rest e = ground (arith, read_varint_loop_takes bytes 0 0 0 v rest)

read_varint_loop-ne-panic : (bytes : Bytes) (n shift : ℕ) → read_varint_loop bytes n shift ≢ panic
unfolding read_varint_loop
read_varint_loop-ne-panic [] n shift e = cc
read_varint_loop-ne-panic (b ∷ bs) n shift e =
    ground (arith, read_varint_loop-ne-panic bs (or_group n b shift) (shift + 7))

pub read_varint-ne-panic : (bytes : Bytes) → read_varint bytes ≢ panic
unfolding read_varint
read_varint-ne-panic bytes = read_varint_loop-ne-panic bytes 0 0

-- A byte that says that another follows.
abbrev pub IsContinued : ℕ → Type 0
IsContinued b = (128 ≤ b) × (b < 256)

read_varint_loop_unfinished :
    (front more : Bytes) (n shift : ℕ)
    → All IsContinued front
    → shift + 7 * length front ≡ 70
    → 0 < length front
    → read_varint_loop (front ++ more) n shift ≡ err varint_overflow
unfolding read_varint_loop
read_varint_loop_unfinished [] more n shift h hs pos = absurd (omega arith)
read_varint_loop_unfinished (b ∷ bs) more n shift (hb, hbs) hs pos = ground (
  arith,
  bit_and-0x80 b,
  read_varint_loop_unfinished bs more (or_group n b shift) (shift + 7) hbs,
)

read_varint_loop_cut :
    (front : Bytes) (n shift : ℕ)
    → All IsContinued front
    → shift + 7 * length front ≤ 63
    → read_varint_loop front n shift ≡ err truncated_varint
unfolding read_varint_loop
read_varint_loop_cut [] n shift h hs = refl
read_varint_loop_cut (b ∷ bs) n shift (hb, hbs) hs =
    ground (arith, bit_and-0x80 b, read_varint_loop_cut bs (or_group n b shift) (shift + 7) hbs)

-- Ten bytes that each announce another are an overflow, whatever follows; fewer are a cut number.
pub read_varint_errors :
    (front more : Bytes)
    → All IsContinued front
    → (length front ≡ 10 → read_varint (front ++ more) ≡ err varint_overflow)
      × (length front < 10 → read_varint front ≡ err truncated_varint)
unfolding read_varint
read_varint_errors front more h = (
  λ e. read_varint_loop_unfinished front more 0 0 h (omega arith) (omega arith),
  λ l. read_varint_loop_cut front 0 0 h (omega arith),
)
