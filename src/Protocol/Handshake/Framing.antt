-- ===== src/Protocol/Handshake/Framing.antt =====
-- internal/protocol/mmtls_protocol.go: `splitHandshake` and `parseFinished` on what was built.
use yyb_go.Prelude.{
  ℕ, ◌+◌, ◌^◌, ◌<◌, ◌≡◌, ◌≢◌, ◌⊎◌, refl, ap, sym, ◌∙◌, inl, inr, false, ◌||◌, [], ◌∷◌, ◌++◌, arith,
  ltb, leb, ◌==◌, Bool-cases, length, take, take-length-append, length-append, append-nil, Bytes,
}
use yyb_go.Prelude.Outcome.{ok, err}
use yyb_go.Protocol.BigEndian.{put_uint16, uint16-put, uint32-put}
use yyb_go.Protocol.Handshake.{
  build_handshake, split_inner, split_framed, split_handshake, build_finished, parse_finished,
  hs_finished, bad_verify_data,
}

-- A handshake message is split into its type and its body, whatever follows it, if it is shorter than
-- 2 ^ 32 bytes.
pub split_handshake-build_handshake :
    (msg_type : ℕ) (body rest : Bytes)
    → 1 + length body < 2 ^ 32
    → split_handshake (build_handshake msg_type body ++ rest) ≡ ok (msg_type, body)
unfolding build_handshake split_handshake split_framed
split_handshake-build_handshake msg_type body rest h =
    let total = 1 + length body in
    let guard : (leb total 0 || ltb (length (msg_type ∷ (body ++ rest))) total) ≡ false =
      ground (arith, length-append body rest) in
    rw (uint32-put total h, guard)
      (ap split_inner (take-length-append total (msg_type ∷ body) rest (omega arith)))

finished_lem :
    (verify_data : Bytes)
    → length verify_data ≡ 32
    → parse_finished (put_uint16 (length verify_data) ++ verify_data) ≡ ok verify_data
unfolding parse_finished
finished_lem verify_data size =
    let fits : ltb (length verify_data) (length verify_data) ≡ false = ground arith in
    rw (uint16-put (length verify_data) (omega arith), fits)
      (ap (λ (b : Bytes). ok b)
        (ap (take (length verify_data)) (sym (append-nil verify_data))
          ∙ take-length-append (length verify_data) verify_data [] refl))

-- `buildFinished` accepts exactly 32 bytes, and these are what the other side reads: the message is
-- split, whatever follows it, and `parseFinished` returns them.
pub build_finished_cases :
    (verify_data : Bytes)
    → ((length verify_data ≢ 32) × (build_finished verify_data ≡ err bad_verify_data))
      ⊎ ((message : Bytes) × (body : Bytes) × (length verify_data ≡ 32)
          × (build_finished verify_data ≡ ok message)
          × ((rest : Bytes) → split_handshake (message ++ rest) ≡ ok (hs_finished, body))
          × (parse_finished body ≡ ok verify_data))
unfolding build_finished
build_finished_cases verify_data = elim (Bool-cases (length verify_data == 32)) [
  | inr wrong ↦ inl ((λ e. absurd (ground arith)), rw wrong refl)
  | inl right ↦
      let size : length verify_data ≡ 32 = ground arith in
      let body = put_uint16 (length verify_data) ++ verify_data in
      inr (
        build_handshake hs_finished body,
        body,
        size,
        rw right refl,
        (λ rest. split_handshake-build_handshake hs_finished body rest (omega arith)),
        finished_lem verify_data size,
      )
]
