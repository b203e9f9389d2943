-- ===== src/Protocol/WpkgHead/RoundTrip.antt =====
-- internal/protocol/ilink.go: `decodeWpkgHead` on what `wpkgHead` writes.
use yyb_go.Prelude.{
  ℕ, zero, suc, ◌+◌, ◌-◌, ◌%◌, ◌^◌, ◌≤◌, ◌<◌, ◌≡◌, refl, ap, sym, ◌∙◌, subst, false, List, [], ◌∷◌,
  ◌++◌, arith, ◌==◌, All, append-nil, append_assoc, length, length-append, Bytes,
}
use yyb_go.Prelude.Map.{lookup, nat_eq, IsMap}
use yyb_go.Prelude.Outcome.{ok}
use yyb_go.Protocol.Varint.{varint, IsU64}
use yyb_go.Protocol.Varint.Encode.{varint_shape, varint_small}
use yyb_go.Protocol.Varint.Decode.{read_varint-varint}
use yyb_go.Protocol.Protobuf.RoundTrip.{slice_of_part}
use yyb_go.Protocol.WpkgHead.{
  sorted, write_ints, write_byts, wpkg_prefix, wpkg_head, lift, read, ints_loop, cut_bytes,
  byts_loop, decode_wpkg_head,
}
use yyb_go.Protocol.WpkgHead.Sorted.{insert-append, sorted-IsMap, All-sorted, lookup-sorted}

-- A key is positive, since 0 ends the map, and it is a uint64 as the number is.
abbrev pub IsInt : ℕ × ℕ → Type 0
IsInt (k, v) = (0 < k) × IsU64 k × IsU64 v

abbrev pub IsKeyOfBytes : ℕ × Bytes → Type 0
IsKeyOfBytes (k, v) = (0 < k) × IsU64 k

read-varint : (n : ℕ) (rest : Bytes) → IsU64 n → read (varint n ++ rest) ≡ ok (n, rest)
unfolding lift
read-varint n rest h = rw (read_varint-varint n rest h) refl

ints_loop-write_ints :
    (ints : List (ℕ × ℕ)) (fuel : ℕ) (acc : List (ℕ × ℕ)) (rest : Bytes)
    → length ints < fuel
    → All IsInt ints
    → IsMap (acc ++ ints)
    → ints_loop fuel (write_ints ints ++ (varint 0 ++ rest)) acc ≡ ok (acc ++ ints, rest)
unfolding ints_loop write_ints
ints_loop-write_ints ints zero acc rest h _ _ = absurd (omega arith)
ints_loop-write_ints [] (suc fuel) acc rest h _ _ =
    rw (read-varint 0 rest (omega arith)) (ap (λ m. ok (m, rest)) (sym (append-nil acc)))
ints_loop-write_ints ((k, v) ∷ ints) (suc fuel) acc rest h ((positive, small_k, small_v), all)
      distinct =
    let tail = varint 0 ++ rest in
    let goes_on : (k == 0) ≡ false = ground arith in
    rw
      (
        append_assoc (varint k) (varint v ++ write_ints ints) tail,
        append_assoc (varint v) (write_ints ints) tail,
        read-varint k (varint v ++ (write_ints ints ++ tail)) small_k,
        goes_on,
        read-varint v (write_ints ints ++ tail) small_v,
        insert-append k v acc ints distinct,
      )
      (ints_loop-write_ints ints fuel (acc ++ (k, v) ∷ []) rest (omega arith) all
          (subst IsMap (sym (append_assoc acc ((k, v) ∷ []) ints)) distinct)
        ∙ ap (λ m. ok (m, rest)) (append_assoc acc ((k, v) ∷ []) ints))

-- The bytes of one entry in front of the others.
entry_assoc :
    (k : ℕ) (v others tail : Bytes)
    → (varint k ++ (varint (length v % 2 ^ 64) ++ (v ++ others))) ++ tail
      ≡ varint k ++ (varint (length v % 2 ^ 64) ++ (v ++ (others ++ tail)))
entry_assoc k v others tail =
    let ln = varint (length v % 2 ^ 64) in
    append_assoc (varint k) (ln ++ (v ++ others)) tail
    ∙ ap (λ (t : Bytes). varint k ++ t) (append_assoc ln (v ++ others) tail)
    ∙ ap (λ (t : Bytes). varint k ++ (ln ++ t)) (append_assoc v others tail)

entry_room :
    (size k : ℕ) (v others tail : Bytes)
    → length ((varint k ++ (varint (length v % 2 ^ 64) ++ (v ++ others))) ++ tail) ≤ size
    → length (v ++ (others ++ tail)) ≤ size
entry_room size k v others tail h =
    let ln = varint (length v % 2 ^ 64) in
    let whole = ap (λ (t : Bytes). length t) (entry_assoc k v others tail) in
    omega (
      arith,
      h,
      whole,
      length-append (varint k) (ln ++ (v ++ (others ++ tail))),
      length-append ln (v ++ (others ++ tail)),
    )

byts_loop-write_byts :
    (size : ℕ) (byts : List (ℕ × Bytes)) (fuel : ℕ) (acc : List (ℕ × Bytes)) (rest : Bytes)
    → size < 2 ^ 63
    → length (write_byts byts ++ (varint 0 ++ rest)) ≤ size
    → length byts < fuel
    → All IsKeyOfBytes byts
    → IsMap (acc ++ byts)
    → byts_loop size fuel (write_byts byts ++ (varint 0 ++ rest)) acc ≡ ok (acc ++ byts, rest)
unfolding byts_loop write_byts cut_bytes
byts_loop-write_byts size byts zero acc rest small fits h _ _ = absurd (omega arith)
byts_loop-write_byts size [] (suc fuel) acc rest small fits h _ _ =
    rw (read-varint 0 rest (omega arith)) (ap (λ m. ok (m, rest)) (sym (append-nil acc)))
byts_loop-write_byts size ((k, v) ∷ byts) (suc fuel) acc rest small fits h
      ((positive, small_k), all) distinct =
    let tail = write_byts byts ++ (varint 0 ++ rest) in
    let goes_on : (k == 0) ≡ false = ground arith in
    let room = entry_room size k v (write_byts byts) (varint 0 ++ rest) fits in
    let small_v : length v < 2 ^ 63 = omega (arith, room, small, length-append v tail) in
    let exact : length v % 2 ^ 64 ≡ length v = omega arith in
    rw
      (
        entry_assoc k v (write_byts byts) (varint 0 ++ rest),
        exact,
        read-varint k (varint (length v) ++ (v ++ tail)) small_k,
        goes_on,
        read-varint (length v) (v ++ tail) (omega arith),
        slice_of_part size v tail room small,
        insert-append k v acc byts distinct,
      )
      (byts_loop-write_byts size byts fuel (acc ++ (k, v) ∷ []) rest small
          (omega (arith, room, length-append v tail)) (omega arith) all
          (subst IsMap (sym (append_assoc acc ((k, v) ∷ []) byts)) distinct)
        ∙ ap (λ m. ok (m, rest)) (append_assoc acc ((k, v) ∷ []) byts))

length-write_ints : (ints : List (ℕ × ℕ)) → All IsInt ints → length ints ≤ length (write_ints ints)
unfolding write_ints
length-write_ints [] _ = omega arith
length-write_ints ((k, v) ∷ ints) ((_, small_k, _), all) =
    let (_, low, _) = varint_shape k small_k in
    omega (
      arith,
      low,
      length-write_ints ints all,
      length-append (varint k) (varint v ++ write_ints ints),
      length-append (varint v) (write_ints ints),
    )

length-write_byts :
    (byts : List (ℕ × Bytes)) → All IsKeyOfBytes byts → length byts ≤ length (write_byts byts)
unfolding write_byts
length-write_byts [] _ = omega arith
length-write_byts ((k, v) ∷ byts) ((_, small_k), all) =
    let (_, low, _) = varint_shape k small_k in
    let ln = varint (length v % 2 ^ 64) in
    omega (
      arith,
      low,
      length-write_byts byts all,
      length-append (varint k) (ln ++ (v ++ write_byts byts)),
      length-append ln (v ++ write_byts byts),
      length-append v (write_byts byts),
    )

-- The head in its parts, with what follows it.
flat : List (ℕ × ℕ) → List (ℕ × Bytes) → ℕ → Bytes → Bytes
flat ints byts q rest =
    varint 1
    ++ (write_ints ints ++ (varint 0 ++ (write_byts byts ++ (varint 0 ++ (varint q ++ rest)))))

head_flat :
    (ints : List (ℕ × ℕ)) (byts : List (ℕ × Bytes)) (rest : Bytes)
    → wpkg_head ints byts ++ rest
      ≡ flat (sorted ints) (sorted byts) ((length (wpkg_prefix ints byts) + 1) % 2 ^ 64) rest
unfolding wpkg_head wpkg_prefix flat
head_flat ints byts rest =
    let q = (length (wpkg_prefix ints byts) + 1) % 2 ^ 64 in
    let wi = write_ints (sorted ints) in
    let wb = write_byts (sorted byts) in
    let end = varint 0 ++ (varint q ++ rest) in
    append_assoc (wpkg_prefix ints byts) (0 ∷ varint q) rest
    ∙ ap (λ (z : Bytes). wpkg_prefix ints byts ++ (z ++ (varint q ++ rest)))
        (sym (varint_small 0 (omega arith)))
    ∙ append_assoc (varint 1) (wi ++ (varint 0 ++ wb)) end
    ∙ ap (λ (z : Bytes). varint 1 ++ z)
        (append_assoc wi (varint 0 ++ wb) end
          ∙ ap (λ (z : Bytes). wi ++ z) (append_assoc (varint 0) wb end))

decode_flat :
    (ints : List (ℕ × ℕ)) (byts : List (ℕ × Bytes)) (q : ℕ) (rest : Bytes)
    → IsMap ints
    → All IsInt ints
    → IsMap byts
    → All IsKeyOfBytes byts
    → IsU64 q
    → length (flat ints byts q rest) < 2 ^ 63
    → decode_wpkg_head (flat ints byts q rest)
      ≡ ok (ints, byts, length (flat ints byts q rest) - length rest)
unfolding decode_wpkg_head flat
decode_flat ints byts q rest distinct_i all_i distinct_b all_b small_q small =
    let end = varint q ++ rest in
    let after_ints = write_byts byts ++ (varint 0 ++ end) in
    let after_one = write_ints ints ++ (varint 0 ++ after_ints) in
    let size = length (varint 1 ++ after_one) in
    let l1 = length-append (varint 1) after_one in
    let l2 = length-append (write_ints ints) (varint 0 ++ after_ints) in
    let l3 = length-append (varint 0) after_ints in
    let l4 = length-append (write_byts byts) (varint 0 ++ end) in
    let (_, one, _) = varint_shape 1 (omega arith) in
    let few_i : length ints < size =
      omega (arith, l1, l2, l3, l4, one, length-write_ints ints all_i) in
    let few_b : length byts < size =
      omega (arith, l1, l2, l3, l4, one, length-write_byts byts all_b) in
    let fits : length after_ints ≤ size = omega (arith, l1, l2, l3, l4) in
    rw
      (
        read-varint 1 after_one (omega arith),
        ints_loop-write_ints ints size [] after_ints few_i all_i distinct_i,
        byts_loop-write_byts size byts size [] end small fits few_b all_b distinct_b,
        read-varint q rest small_q,
      )
      refl

-- `decodeWpkgHead` reads back the two maps that `wpkgHead` wrote, each key with its value, and returns
-- the position behind the head, whatever follows it. The keys and the numbers are uint64s, no key is 0,
-- and the input is shorter than 2 ^ 63 bytes.
pub decode_wpkg_head-wpkg_head :
    (ints : List (ℕ × ℕ)) (byts : List (ℕ × Bytes)) (rest : Bytes)
    → IsMap ints
    → All IsInt ints
    → IsMap byts
    → All IsKeyOfBytes byts
    → length (wpkg_head ints byts ++ rest) < 2 ^ 63
    → (ints' : List (ℕ × ℕ)) × (byts' : List (ℕ × Bytes)) × (decode_wpkg_head
          (wpkg_head ints byts ++ rest)
        ≡ ok (ints', byts', length (wpkg_head ints byts)))
      × ((k : ℕ) → lookup k ints' ≡ lookup k ints)
      × ((k : ℕ) → lookup k byts' ≡ lookup k byts)
decode_wpkg_head-wpkg_head ints byts rest distinct_i all_i distinct_b all_b small =
    let q = (length (wpkg_prefix ints byts) + 1) % 2 ^ 64 in
    let e = head_flat ints byts rest in
    let measured = ap (λ (z : Bytes). length z) e in
    let behind : length (flat (sorted ints) (sorted byts) q rest) - length rest
        ≡ length (wpkg_head ints byts) =
      omega (arith, measured, length-append (wpkg_head ints byts) rest) in
    (
      sorted ints,
      sorted byts,
      ap decode_wpkg_head e
          ∙ decode_flat (sorted ints) (sorted byts) q rest (sorted-IsMap ints distinct_i)
              (All-sorted IsInt ints all_i) (sorted-IsMap byts distinct_b)
              (All-sorted IsKeyOfBytes byts all_b) (omega arith) (omega (arith, measured, small))
          ∙ ap (λ (n : ℕ). ok (sorted ints, sorted byts, n)) behind,
      λ k. lookup-sorted k ints distinct_i,
      λ k. lookup-sorted k byts distinct_b,
    )
