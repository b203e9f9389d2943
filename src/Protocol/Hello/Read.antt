-- ===== src/Protocol/Hello/Read.antt =====
-- internal/protocol/mmtls_protocol.go: `parseServerHello` on any bytes, and on a hello with a key share.
use yyb_go.Prelude.{
  ℕ, ◌+◌, ◌^◌, ◌≤◌, ◌<◌, ◌≡◌, refl, ap, sym, ◌∙◌, false, [], ◌∷◌, ◌++◌, arith, ltb, ◌==◌, if-both,
  length, take, drop, length-take, length-drop, length-append, take-length-append,
  drop-length-append, append-nil, Bytes, append_assoc,
}
use yyb_go.Prelude.Outcome.{Outcome, ok, err, panic}
use yyb_go.Protocol.BigEndian.{put_uint16, put_uint32, uint16-put, uint32-put}
use yyb_go.Protocol.Hello.{
  Error, ServerHello, take_bytes, read_uint16, read_uint32, read_share, read_extension,
  with_extension, parse_server_hello, with_length, ext_key_share,
}

-- There is no panic, and the random part of a hello has its 32 bytes.
abbrev pub IsSane : Outcome Error ServerHello → Type 0
IsSane (ok h) = length h.server_random ≡ 32
IsSane (err e) = Unit
IsSane panic = ⊥

read_uint16-ok :
    (bs : Bytes)
    → 2 ≤ length bs
    → (n : ℕ) × (rest : Bytes) × (read_uint16 bs ≡ ok (n, rest)) × (length bs ≡ 2 + length rest)
unfolding read_uint16
read_uint16-ok [] h = absurd (omega arith)
read_uint16-ok (_ ∷ []) h = absurd (omega arith)
read_uint16-ok (b1 ∷ b0 ∷ rest) h = (_, rest, refl, omega arith)

read_uint32-ok :
    (bs : Bytes)
    → 4 ≤ length bs
    → (n : ℕ) × (rest : Bytes) × (read_uint32 bs ≡ ok (n, rest)) × (length bs ≡ 4 + length rest)
unfolding read_uint32
read_uint32-ok [] h = absurd (omega arith)
read_uint32-ok (_ ∷ []) h = absurd (omega arith)
read_uint32-ok (_ ∷ _ ∷ []) h = absurd (omega arith)
read_uint32-ok (_ ∷ _ ∷ _ ∷ []) h = absurd (omega arith)
read_uint32-ok (b3 ∷ b2 ∷ b1 ∷ b0 ∷ rest) h = (_, rest, refl, omega arith)

take_bytes-ok : (n : ℕ) (bs : Bytes) → n ≤ length bs → take_bytes n bs ≡ ok (take n bs, drop n bs)
unfolding take_bytes
take_bytes-ok n bs h = let fits : ltb (length bs) n ≡ false = ground arith in rw fits refl

read_share-IsSane :
    (out : ServerHello) (rest : Bytes)
    → length out.server_random ≡ 32
    → IsSane (read_share out rest)
unfolding read_share
read_share-IsSane out rest size =
    if-both IsSane (ltb (length rest) 4) (λ _. tt)
      (λ _.
        if-both IsSane (ltb (length rest) 12) (λ _. tt)
          (λ long.
            let room : 12 ≤ length rest = ground arith in
            let (group, behind, read_group, size4) =
              read_uint32-ok (drop 6 rest) (omega (arith, length-drop 6 rest)) in
            let (klen, key, read_klen, size2) =
              read_uint16-ok behind (omega (arith, length-drop 6 rest)) in
            rw (read_group, read_klen)
              (if-both IsSane (ltb (length key) klen) (λ _. tt) (λ _. size))))

read_extension-IsSane :
    (out : ServerHello) (ext : Bytes)
    → length out.server_random ≡ 32
    → IsSane (read_extension out ext)
unfolding read_extension
read_extension-IsSane out [] size = size
read_extension-IsSane out (t ∷ rest) size =
    if-both IsSane (t == ext_key_share) (λ _. read_share-IsSane out rest size) (λ _. size)

-- On every message parseServerHello returns without a panic, and a hello that it returns has a random
-- part of 32 bytes.
pub parse_server_hello-IsSane : (body : Bytes) → IsSane (parse_server_hello body)
unfolding parse_server_hello with_extension
parse_server_hello-IsSane body =
    if-both IsSane (ltb (length body) (2 + 2 + 32 + 4)) (λ _. tt)
      (λ long.
        let room : 40 ≤ length body = ground arith in
        let (cipher, behind, read_cipher, size2) =
          read_uint16-ok (drop 2 body) (omega (arith, length-drop 2 body)) in
        let (ext_len, rest, read_len, size4) =
          read_uint32-ok (drop 32 behind)
            (omega (arith, length-drop 2 body, length-drop 32 behind)) in
        rw
          (
            take_bytes-ok 2 body (omega arith),
            read_cipher,
            take_bytes-ok 32 behind (omega (arith, length-drop 2 body)),
            read_len,
          )
          (if-both IsSane (ltb (length rest) ext_len) (λ _. tt)
            (λ _.
              read_extension-IsSane _ (take ext_len rest)
                (omega (arith, length-take 32 behind, length-drop 2 body)))))

-- A hello with a key share: a version, the cipher suite, the random part, and the share, in which two
-- bytes that are passed over stand before the group.
abbrev pub key_share : Bytes → ℕ → Bytes → Bytes
key_share skipped group key = skipped ++ (put_uint32 group ++ (put_uint16 (length key) ++ key))

abbrev pub encode_hello : Bytes → ℕ → Bytes → Bytes → Bytes
encode_hello version cipher random share =
    version ++ (put_uint16 cipher ++ (random ++ with_length (ext_key_share ∷ share)))

take_bytes-append : (n : ℕ) (xs ys : Bytes) → n ≡ length xs → take_bytes n (xs ++ ys) ≡ ok (xs, ys)
take_bytes-append n xs ys e =
    take_bytes-ok n (xs ++ ys) (omega (arith, length-append xs ys))
    ∙ rw (take-length-append n xs ys e, drop-length-append n xs ys e) refl

read_uint16-put :
    (x : ℕ) (rest : Bytes) → x < 2 ^ 16 → read_uint16 (put_uint16 x ++ rest) ≡ ok (x, rest)
unfolding read_uint16
read_uint16-put x rest h = rw (uint16-put x h) refl

read_uint32-put :
    (x : ℕ) (rest : Bytes) → x < 2 ^ 32 → read_uint32 (put_uint32 x ++ rest) ≡ ok (x, rest)
unfolding read_uint32
read_uint32-put x rest h = rw (uint32-put x h) refl

take-all : (key : Bytes) → take (length key) key ≡ key
take-all key =
    ap (take (length key)) (sym (append-nil key)) ∙ take-length-append (length key) key [] refl

read_share-key_share :
    (out : ServerHello) (skipped : Bytes) (group : ℕ) (key : Bytes)
    → length skipped ≡ 6
    → group < 2 ^ 32
    → length key < 2 ^ 16
    → read_share out (key_share skipped group key)
      ≡ ok (record out { server_group = group; server_pub_key = key })
unfolding read_share
read_share-key_share out skipped group key six fits small =
    let behind = put_uint16 (length key) ++ key in
    let size : length (key_share skipped group key) ≡ 12 + length key =
      omega (arith, length-append skipped (put_uint32 group ++ behind)) in
    let four : ltb (length (key_share skipped group key)) 4 ≡ false = ground (arith, size) in
    let twelve : ltb (length (key_share skipped group key)) 12 ≡ false = ground (arith, size) in
    let whole : ltb (length key) (length key) ≡ false = ground arith in
    rw
      (
        four,
        twelve,
        drop-length-append 6 skipped (put_uint32 group ++ behind) (sym six),
        read_uint32-put group behind fits,
        read_uint16-put (length key) key small,
        whole,
        take-all key,
      )
      refl

length-key_share :
    (skipped : Bytes) (group : ℕ) (key : Bytes)
    → length skipped ≡ 6
    → length (key_share skipped group key) ≡ 12 + length key
length-key_share skipped group key six =
    omega (arith, length-append skipped (put_uint32 group ++ (put_uint16 (length key) ++ key)))

-- The parts of a hello up to its extension.
parse_server_hello_parts :
    (version : Bytes) (cipher : ℕ) (random ext rest : Bytes)
    → length version ≡ 2
    → cipher < 2 ^ 16
    → length random ≡ 32
    → length ext < 2 ^ 32
    → parse_server_hello
        (version ++ (put_uint16 cipher ++ (random ++ (put_uint32 (length ext) ++ (ext ++ rest)))))
      ≡ read_extension
          (record {
            server_random = random;
            cipher = cipher;
            server_group = 1;
            server_pub_key = [];
          })
          ext
unfolding parse_server_hello with_extension
parse_server_hello_parts version cipher random ext rest two fits_cipher size fits_ext =
    let behind_random = put_uint32 (length ext) ++ (ext ++ rest) in
    let behind_version = put_uint16 cipher ++ (random ++ behind_random) in
    let long : ltb (length (version ++ behind_version)) 40 ≡ false =
      ground (arith, length-append version behind_version, length-append random behind_random) in
    let whole : ltb (length (ext ++ rest)) (length ext) ≡ false =
      ground (arith, length-append ext rest) in
    rw
      (
        long,
        take_bytes-append 2 version behind_version (sym two),
        read_uint16-put cipher (random ++ behind_random) fits_cipher,
        take_bytes-append 32 random behind_random (sym size),
        read_uint32-put (length ext) (ext ++ rest) fits_ext,
        whole,
        take-length-append (length ext) ext rest refl,
      )
      refl

-- parseServerHello reads the cipher suite, the random part, the group and the key of a hello with a key
-- share, whatever follows it. The random part has 32 bytes, the version two, and the numbers fit.
pub parse_server_hello-encode_hello :
    (version : Bytes) (cipher : ℕ) (random skipped : Bytes) (group : ℕ) (key rest : Bytes)
    → length version ≡ 2
    → cipher < 2 ^ 16
    → length random ≡ 32
    → length skipped ≡ 6
    → group < 2 ^ 32
    → length key < 2 ^ 16
    → parse_server_hello (encode_hello version cipher random (key_share skipped group key) ++ rest)
      ≡ ok (record {
        server_random = random;
        cipher = cipher;
        server_group = group;
        server_pub_key = key;
      })
unfolding read_extension
parse_server_hello-encode_hello version cipher random skipped group key rest two fits_cipher size
      six fits_group small =
    let share = key_share skipped group key in
    ap parse_server_hello (
      append_assoc version (put_uint16 cipher ++ (random ++ with_length (ext_key_share ∷ share)))
        rest
      ∙ ap (λ (bs : Bytes). version ++ (put_uint16 cipher ++ bs))
          (append_assoc random (with_length (ext_key_share ∷ share)) rest))
    ∙ parse_server_hello_parts version cipher random (ext_key_share ∷ share) rest two fits_cipher
        size (omega (arith, length-key_share skipped group key six))
    ∙ read_share-key_share _ skipped group key six fits_group small
