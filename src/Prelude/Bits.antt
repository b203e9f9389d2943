-- ===== src/Prelude/Bits.antt =====
-- Masks on one byte as arithmetic, each a table checked by evaluation, and `|` of disjoint bits.
use Prim.Native.Nat.{
  ℕ, zero, suc, ◌+◌, ◌*◌, ◌/◌, ◌%◌, ◌^◌, ◌≤◌, ◌<◌, max, bit_and, bit_or, digits, bit_or-bitwise,
}
use mathlib.Core.Path.{◌≡◌, refl, ap, ◌∙◌}
use mathlib.Core.Bool.{Bool, true, false}
use mathlib.Core.Logic.{ite}
use native.Mathlib.Decide.{ℕ_discrete}
use native.Mathlib.Nat.{pow-succ'}
use native.Mathlib.Omega.{arith}

module _ (f g : ℕ → ℕ) where
  agree_below : ℕ → Bool
  unfolding ℕ_discrete
  agree_below zero = true
  agree_below (suc n) = ite (ℕ_discrete (f n) (g n)) (agree_below n) false

  agree_below→eq : (n : ℕ) → agree_below n ≡ true → (i : ℕ) → i < n → f i ≡ g i
  unfolding agree_below
  agree_below→eq zero e i h = absurd (omega arith)
  agree_below→eq (suc n) e i h = ground (arith, agree_below→eq n (ground arith) i)

pub bit_and-0x7f : (b : ℕ) → b < 256 → bit_and b 0x7f ≡ b % 128
unfolding agree_below
bit_and-0x7f = agree_below→eq _ _ 256 refl

pub bit_and-0x80 : (b : ℕ) → b < 256 → bit_and b 0x80 ≡ b / 128 * 128
unfolding agree_below
bit_and-0x80 = agree_below→eq _ _ 256 refl

pub bit_or-0x80 : (b : ℕ) → b < 128 → bit_or b 0x80 ≡ b + 128
unfolding agree_below
bit_or-0x80 = agree_below→eq _ _ 128 refl

pub bit_or-two : (f : ℕ) → f < 32 → bit_or (f * 8) 2 ≡ f * 8 + 2
unfolding agree_below
bit_or-two = agree_below→eq (λ f. bit_or (f * 8) 2) (λ f. f * 8 + 2) 32 refl

pub bit_or-zero : (f : ℕ) → f < 32 → bit_or (f * 8) 0 ≡ f * 8
unfolding agree_below
bit_or-zero = agree_below→eq (λ f. bit_or (f * 8) 0) (λ f. f * 8) 32 refl

-- The law for the lowest digit of `|`, from the definition that the native operation stands for.
abbrev or_digits : ℕ → ℕ → ℕ → ℕ
or_digits n a b = digits (λ b. b) max n a b

or_digits_fuel : (n m a b : ℕ) → a ≤ n → a ≤ m → or_digits n a b ≡ or_digits m a b
or_digits_fuel zero zero a b p q = refl
or_digits_fuel zero (suc m) zero b p q = refl
or_digits_fuel zero (suc m) (suc a) b p q = absurd (omega arith)
or_digits_fuel (suc n) zero zero b p q = refl
or_digits_fuel (suc n) zero (suc a) b p q = absurd (omega arith)
or_digits_fuel (suc n) (suc m) zero b p q = refl
or_digits_fuel (suc n) (suc m) (suc a) b p q =
    omega (arith, or_digits_fuel n m (suc a / 2) (b / 2) (omega arith) (omega arith))

zero-bit_or : (b : ℕ) → bit_or 0 b ≡ b
zero-bit_or b = bit_or-bitwise 0 b

bit_or_step : (a b : ℕ) → bit_or a b ≡ bit_or (a / 2) (b / 2) * 2 + max (a % 2) (b % 2)
bit_or_step zero b = omega (arith, zero-bit_or b, zero-bit_or (b / 2))
bit_or_step (suc a) b = omega (
  arith,
  bit_or-bitwise (suc a) b,
  bit_or-bitwise (suc a / 2) (b / 2),
  or_digits_fuel a (suc a / 2) (suc a / 2) (b / 2) (omega arith) (omega arith),
)

double_shift : (g s : ℕ) → g * 2 ^ suc s ≡ 2 * (g * 2 ^ s)
double_shift g s = rw pow-succ' (omega arith)

-- `a | g << s` is a sum where `a` has no bit from `s` on.
pub bit_or_disjoint : (s a g : ℕ) → a < 2 ^ s → bit_or a (g * 2 ^ s) ≡ a + g * 2 ^ s
bit_or_disjoint zero a g h =
    let e : a ≡ 0 = omega arith in rw e (zero-bit_or (g * 2 ^ 0) ∙ omega arith)
bit_or_disjoint (suc s) a g h =
    let small : a < 2 * 2 ^ s = rw pow-succ' at h in
    rw double_shift (
      omega
        (arith, bit_or_step a (2 * (g * 2 ^ s)), halves, bit_or_disjoint s (a / 2) g (omega arith)))
  where
    halves : bit_or (a / 2) (2 * (g * 2 ^ s) / 2) ≡ bit_or (a / 2) (g * 2 ^ s)
    halves = ap (bit_or (a / 2)) (omega arith)

-- `|` stays below a power of two that bounds both sides.
pub bit_or-lt : (k a b : ℕ) → a < 2 ^ k → b < 2 ^ k → bit_or a b < 2 ^ k
bit_or-lt zero a b ha hb = let e : a ≡ 0 = omega arith in rw (e, zero-bit_or) hb
bit_or-lt (suc k) a b ha hb =
    let ha' : a < 2 * 2 ^ k = rw pow-succ' at ha in
    let hb' : b < 2 * 2 ^ k = rw pow-succ' at hb in
    rw pow-succ'
      (omega (arith, bit_or_step a b, bit_or-lt k (a / 2) (b / 2) (omega arith) (omega arith)))
