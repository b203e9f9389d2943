-- ===== src/Protocol/WpkgHead.antt =====
-- internal/protocol/ilink.go: `wpkgHead` and `decodeWpkgHead`. A position is the suffix that is still
-- to be read, as in `Varint`. A key is the 64-bit pattern of an int.
pub mod Sorted
pub mod RoundTrip
mod Tests
use yyb_go.Prelude.{
  ℕ, Bool, zero, suc, ◌+◌, ◌-◌, ◌%◌, ◌^◌, List, [], ◌∷◌, ◌++◌, Bytes, ltb, ◌==◌, if◌then◌else◌,
  length,
}
use yyb_go.Prelude.Map.{insert, nat_eq}
use yyb_go.Prelude.Outcome.{Outcome, ok, err, panic, ◌>>=◌}
use yyb_go.Protocol.Varint.{varint, read_varint}
use yyb_go.Protocol.Varint.{Error as VarintError}
use yyb_go.Protocol.Protobuf.{Slice, slice_of, beyond, invalid, part}

-- `<` on the ints that two 64-bit patterns stand for.
unfoldable pub key_lt : ℕ → ℕ → Bool
key_lt j k = ltb ((j + 2 ^ 63) % 2 ^ 64) ((k + 2 ^ 63) % 2 ^ 64)

-- The entries of a map in the order of its keys, as `sort.Ints` puts them.
module _ {ℓ} {A : Type ℓ} where
  unfoldable pub sort_insert : ℕ → A → List (ℕ × A) → List (ℕ × A)
  sort_insert k v [] = (k, v) ∷ []
  sort_insert k v ((j, w) ∷ m) =
      let later = sort_insert k v m in if key_lt j k then (j, w) ∷ later else (k, v) ∷ (j, w) ∷ m

  unfoldable pub sorted : List (ℕ × A) → List (ℕ × A)
  unfolding sort_insert key_lt
  sorted [] = []
  sorted ((k, v) ∷ m) = sort_insert k v (sorted m)

unfoldable pub write_ints : List (ℕ × ℕ) → Bytes
write_ints [] = []
write_ints ((k, v) ∷ ints) = varint k ++ (varint v ++ write_ints ints)

unfoldable pub write_byts : List (ℕ × Bytes) → Bytes
write_byts [] = []
write_byts ((k, v) ∷ byts) = varint k ++ (varint (length v % 2 ^ 64) ++ (v ++ write_byts byts))

unfoldable pub wpkg_prefix : List (ℕ × ℕ) → List (ℕ × Bytes) → Bytes
wpkg_prefix ints byts =
    varint 1 ++ (write_ints (sorted ints) ++ (varint 0 ++ write_byts (sorted byts)))

unfoldable pub wpkg_head : List (ℕ × ℕ) → List (ℕ × Bytes) → Bytes
wpkg_head ints byts =
    let prefix = wpkg_prefix ints byts in prefix ++ 0 ∷ varint ((length prefix + 1) % 2 ^ 64)

pub data Error : Type 0 where
  bad_varint : VarintError → Error
  truncated_bytes out_of_fuel : Error

unfoldable pub lift : Outcome VarintError (ℕ × Bytes) → Outcome Error (ℕ × Bytes)
lift (ok read) = ok read
lift (err e) = err (bad_varint e)
lift panic = panic

abbrev pub read : Bytes → Outcome Error (ℕ × Bytes)
read data_left = lift (read_varint data_left)

-- A round takes a byte at least, so the length of the input is enough fuel.
unfoldable pub ints_loop : ℕ → Bytes → List (ℕ × ℕ) → Outcome Error (List (ℕ × ℕ) × Bytes)
ints_loop zero rest ints = err out_of_fuel
ints_loop (suc fuel) rest ints = do
  (fn, rest₁) ← read rest
  if fn == 0
      then ok (ints, rest₁)
      else (do (v, rest₂) ← read rest₁; ints_loop fuel rest₂ (insert fn v ints))

unfoldable pub cut_bytes : Slice → Outcome Error (Bytes × Bytes)
cut_bytes beyond = err truncated_bytes
cut_bytes invalid = panic
cut_bytes (part v rest) = ok (v, rest)

-- `size` is `len(data)`.
unfoldable pub byts_loop :
    ℕ → ℕ → Bytes → List (ℕ × Bytes) → Outcome Error (List (ℕ × Bytes) × Bytes)
unfolding cut_bytes
byts_loop size zero rest byts = err out_of_fuel
byts_loop size (suc fuel) rest byts = do
  (fn, rest₁) ← read rest
  if fn == 0 then ok (byts, rest₁) else (do
    (ln, rest₂) ← read rest₁
    (v, rest₃) ← cut_bytes (slice_of size rest₂ ln)
    byts_loop size fuel rest₃ (insert fn v byts))

-- The two maps, and the position behind the head.
unfoldable pub decode_wpkg_head : Bytes → Outcome Error (List (ℕ × ℕ) × List (ℕ × Bytes) × ℕ)
decode_wpkg_head content = do
  (_, rest) ← read content
  (ints, rest₁) ← ints_loop (length content) rest []
  (byts, rest₂) ← byts_loop (length content) (length content) rest₁ []
  (_, rest₃) ← read rest₂
  ok (ints, byts, length content - length rest₃)
