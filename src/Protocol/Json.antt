-- ===== src/Protocol/Json.antt =====
-- encoding/json, as the sessions of internal/protocol/pool.go meet it in the store: what a value has
-- become after Marshal and Unmarshal. The numbers are those of the ints of the program.
use yyb_go.Prelude.{
  ℕ, zero, suc, ◌+◌, ◌-◌, ◌*◌, ◌/◌, ◌%◌, ◌^◌, ◌≤◌, ◌<◌, ◌≡◌, refl, ap, true, ◌&&◌, ◌||◌, arith, ltb,
  leb, ◌==◌, if◌then◌else◌,
}
use yyb_go.Prelude.Text.{ℤ, pos, negsuc}
use yyb_go.Protocol.Values.{
  Any, null, boolean, number, text, array, object, Items, nil, cons, Fields, empty, field,
}

-- How many binary digits of a number are behind the 53 that a float64 has; a number of 64 bits has 11 at
-- most.
unfoldable pub excess : ℕ → ℕ → ℕ
excess zero n = 0
excess (suc fuel) n = let rest = suc (excess fuel (n / 2)) in if ltb n (2 ^ 53) then 0 else rest

-- The nearest multiple of `unit`, the even one of two.
unfoldable pub rounded : ℕ → ℕ → ℕ
rounded unit n =
    if ltb unit (2 * (n % unit)) || (2 * (n % unit) == unit && n / unit % 2 == 1)
    then (n / unit + 1) * unit
    else n / unit * unit

unfoldable pub nearest : ℕ → ℕ
nearest n = if leb n (2 ^ 53) then n else rounded (2 ^ excess 11 n) n

-- `int64(float64(n))`
abbrev pub float64 : ℤ → ℤ
float64 (pos n) = pos (nearest n)
float64 (negsuc n) = negsuc (nearest (n + 1) - 1)

unfoldable mutual
  pub decoded_any : Any → Any
  decoded_any null = null
  decoded_any (boolean b) = boolean b
  decoded_any (number n) = number (float64 n)
  decoded_any (text s) = text s
  decoded_any (array xs) = array (decoded_items xs)
  decoded_any (object m) = object (decoded_fields m)

  pub decoded_items : Items → Items
  decoded_items nil = nil
  decoded_items (cons x xs) = cons (decoded_any x) (decoded_items xs)

  pub decoded_fields : Fields → Fields
  decoded_fields empty = empty
  decoded_fields (field name x m) = field name (decoded_any x) (decoded_fields m)

-- No further from 0 than 2 ^ 53.
abbrev pub IsExact : ℤ → Type 0
IsExact (pos n) = n ≤ 2 ^ 53
IsExact (negsuc n) = n < 2 ^ 53

nearest-small : (n : ℕ) → n ≤ 2 ^ 53 → nearest n ≡ n
unfolding nearest
nearest-small n h = let small : leb n (2 ^ 53) ≡ true = ground arith in rw small refl

pub float64-exact : (n : ℤ) → IsExact n → float64 n ≡ n
float64-exact (pos n) h = rw (nearest-small n h) refl
float64-exact (negsuc n) h = rw (nearest-small (n + 1) (omega arith)) (ap negsuc (omega arith))
