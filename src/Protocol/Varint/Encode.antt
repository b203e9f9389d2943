-- ===== src/Protocol/Varint/Encode.antt =====
-- What `varint` writes, in plain arithmetic.
use mathlib.Core.WellFounded.{Acc}
use Prim.Native.Nat.{bit_and, bit_or}
use yyb_go.Prelude.{
  ℕ, zero, suc, ◌+◌, ◌/◌, ◌%◌, ◌^◌, ◌≤◌, ◌<◌, ◌≡◌, [], ◌∷◌, ◌++◌, append_assoc, arith, Bytes, ltb,
  if◌then◌else◌, length, All,
}
use yyb_go.Prelude.Bits.{bit_and-0x7f, bit_or-0x80}
use yyb_go.Prelude.Order.{lt_wf}
use yyb_go.Protocol.Varint.{IsByte, IsU64, varint_loop, varint}

-- The groups of seven bits of `n`, lowest first, for `n` below 128 ^ (k + 1).
unfoldable pub groups : ℕ → ℕ → Bytes
groups zero n = n ∷ []
groups (suc k) n =
    let rest = groups k (n / 128) in if ltb n 128 then n ∷ [] else (n % 128 + 128) ∷ rest

last_group : (n : ℕ) → bit_and (n % 256) 0x7f ≡ n % 128
last_group n = rw (bit_and-0x7f (n % 256) (omega arith)) (omega arith)

inner_group : (n : ℕ) → bit_or (bit_and (n % 256) 0x7f) 0x80 ≡ n % 128 + 128
inner_group n = rw last_group (bit_or-0x80 _ (omega arith))

varint_loop-groups :
    (k : ℕ) (out : Bytes) (n : ℕ) (w : Acc ◌<◌ n)
    → n < 128 ^ suc k
    → varint_loop out n w ≡ out ++ groups k n
unfolding varint_loop groups
varint_loop-groups zero out n (Acc.intro _ smaller) h = ground (arith, last_group n)
varint_loop-groups (suc k) out n (Acc.intro _ smaller) h =
    let group : Bytes = (n % 128 + 128) ∷ [] in
    grind (
      arith,
      last_group n,
      inner_group n,
      λ (w : Acc ◌<◌ (n / 128)). varint_loop-groups k (out ++ group) (n / 128) w (omega arith),
      append_assoc out group (groups k (n / 128)),
    )

pub varint-groups : (n : ℕ) → IsU64 n → varint n ≡ groups 9 n
unfolding varint
varint-groups n h = varint_loop-groups 9 [] n (lt_wf.apply n) (omega arith)

groups-IsByte : (k n : ℕ) → n < 128 ^ suc k → All IsByte (groups k n)
unfolding groups
groups-IsByte zero n h = omega arith
groups-IsByte (suc k) n h = ground (arith, groups-IsByte k (n / 128) (omega arith))

pub length-groups : (k n : ℕ) → (1 ≤ length (groups k n)) × (length (groups k n) ≤ k + 1)
unfolding groups
length-groups zero n = omega arith
length-groups (suc k) n = ground (arith, length-groups k (n / 128))

-- `varint` writes 1 to 10 elements, and each is a byte.
pub varint_shape :
    (n : ℕ) → IsU64 n → All IsByte (varint n) × (1 ≤ length (varint n)) × (length (varint n) ≤ 10)
varint_shape n h =
    let (lo, hi) = length-groups 9 n in
    rw (varint-groups n h) (groups-IsByte 9 n (omega arith), lo, hi)

-- A number below 128 is one byte.
pub varint_small : (n : ℕ) → n < 128 → varint n ≡ n ∷ []
unfolding groups
varint_small n h = rw (varint-groups n (omega arith)) (ground arith)
