-- ===== src/Protocol/Record/RoundTrip.antt =====
-- `parseRecords` on what `buildRecord` writes.
use yyb_go.Prelude.{
  ℕ, ◌+◌, ◌≤◌, ◌<◌, ◌≡◌, refl, ap, subst, ◌∙◌, true, List, [], ◌⊎◌, ◌∷◌, ◌++◌, append_assoc, arith,
  Bytes, ltb, length, length-append, All, take-length-append, drop-length-append, Bool-cases, inl,
  inr,
}
use yyb_go.Prelude.Outcome.{Outcome, ok, err, ◌>>=◌, bind-ok, ok-injective}
use yyb_go.Protocol.BigEndian.{put_uint16, uint16-put}
use yyb_go.Protocol.Record.{
  Rec, Error, payload_too_long, record_version, known_content_type, build_record, found, next_found,
  parse_records,
}
use yyb_go.Protocol.Record.Stream.{Parses, more, Parses-unique, parse_records-Parses, pair_eq}

abbrev pub IsKnown : Rec → Type 0
IsKnown r = known_content_type r.content_type ≡ true

-- A list of records, each built and put behind the ones before.
unfoldable pub wire : List Rec → Outcome Error Bytes
wire [] = ok []
wire (r ∷ rs) = do front ← build_record r.content_type r.payload; rest ← wire rs; ok (front ++ rest)

-- The five header bytes and the payload.
abbrev frame : ℕ → Bytes → Bytes
frame ct payload = ct ∷ (put_uint16 record_version ++ (put_uint16 (length payload) ++ payload))

-- `buildRecord` fails exactly on payloads of more than 0xffff bytes, and otherwise adds five bytes.
pub build_record_cases :
    (ct : ℕ) (payload : Bytes)
    → ((0xffff < length payload) × (build_record ct payload ≡ err payload_too_long))
      ⊎ ((length payload ≤ 0xffff)
          × (out : Bytes) × (build_record ct payload ≡ ok out)
          × (length out ≡ 5 + length payload))
unfolding build_record
build_record_cases ct payload = elim (Bool-cases (ltb 0xffff (length payload))) [
  | inl long ↦ inl (ground arith, rw long)
  | inr short ↦ inr (ground arith, frame ct payload, rw short, omega arith)
]

build_record-frame :
    (ct : ℕ) (payload out : Bytes)
    → build_record ct payload ≡ ok out
    → (length payload ≤ 0xffff) × (frame ct payload ≡ out)
unfolding build_record
build_record-frame ct payload out e = ground arith

-- The length field is read as the payload's length.
next_found-frame :
    (ct : ℕ) (payload rest : Bytes)
    → known_content_type ct ≡ true
    → length payload ≤ 0xffff
    → next_found (frame ct payload ++ rest)
      ≡ found (record { content_type = ct; payload = payload }) rest
unfolding next_found
next_found-frame ct payload rest known short =
    rw
      (
        uint16-put (length payload) (omega arith),
        known,
        take-length-append (length payload) payload rest refl,
        drop-length-append (length payload) payload rest refl,
      )
      (ground (arith, length-append payload rest))

next_found-build_record :
    (r : Rec) (front rest : Bytes)
    → IsKnown r
    → build_record r.content_type r.payload ≡ ok front
    → next_found (front ++ rest) ≡ found r rest
next_found-build_record r front rest known e =
    let (short, same) = build_record-frame r.content_type r.payload front e in
    rw (← same) (next_found-frame r.content_type r.payload rest known short)

wire-Parses :
    (rs rs' : List Rec) (content tail : Bytes) {end : Bytes}
    → All IsKnown rs
    → wire rs ≡ ok content
    → Parses tail rs' end
    → Parses (content ++ tail) (rs ++ rs') end
unfolding wire
wire-Parses [] rs' content tail {end} known e p =
    subst (λ (x : Bytes). Parses (x ++ tail) rs' end) (ok-injective e) p
wire-Parses (r ∷ rs) rs' content tail {end} (hr, known) e p =
    let (front, e₂, e₁) = bind-ok _ (build_record r.content_type r.payload) e in
    let (rest, e₄, e₃) = bind-ok _ (wire rs) e₂ in
    subst (λ (x : Bytes). Parses (x ++ tail) (r ∷ rs ++ rs') end) (ok-injective e₄)
      (rw append_assoc (
        more (next_found-build_record r front (rest ++ tail) hr e₁)
          (wire-Parses rs rs' rest tail known e₃ p)))

-- Records of known content types that `buildRecord` wrote one after the other are read back in
-- order, with what `parseRecords` finds in the bytes that follow, complete or not.
pub parse_records-wire :
    (rs : List Rec) (content tail : Bytes)
    → All IsKnown rs
    → wire rs ≡ ok content
    → parse_records (content ++ tail)
      ≡ (rs ++ (parse_records tail).0, length content + (parse_records tail).1)
parse_records-wire rs content tail known e =
    let (rs₁, end₁, p₁, l₁, e₁) = parse_records-Parses tail in
    let (rs₂, end₂, p₂, l₂, e₂) = parse_records-Parses (content ++ tail) in
    let (same, rest) = Parses-unique p₂ (wire-Parses rs rs₁ content tail known e p₁) in
    rw e₁ (e₂ ∙ pair_eq same (omega (arith, ap length rest, length-append content tail)))
