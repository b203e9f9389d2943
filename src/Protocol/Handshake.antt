-- ===== src/Protocol/Handshake.antt =====
-- internal/protocol/mmtls_protocol.go: the framing of handshake messages, `Finished` and
-- `NewSessionTicket`.
pub mod Framing
pub mod Tickets
mod Tests
use yyb_go.Prelude.{
  ℕ, zero, suc, ◌+◌, ◌-◌, ◌^◌, ◌%◌, ◌||◌, not, List, [], ◌∷◌, ◌++◌, ltb, leb, ◌==◌, if◌then◌else◌,
  length, take, drop, Bytes,
}
use yyb_go.Prelude.Outcome.{Outcome, ok, err, panic}
use yyb_go.Protocol.BigEndian.{put_uint16, uint16, put_uint32, uint32}

abbrev pub hs_finished : ℕ
hs_finished = 0x14

pub data Error : Type 0 where
  too_short invalid_length bad_verify_data truncated : Error

-- `uint32(total)` wraps around in `put_uint32`.
unfoldable pub build_handshake : ℕ → Bytes → Bytes
build_handshake msg_type body = put_uint32 (1 + length body) ++ msg_type ∷ body

-- `inner[0], inner[1:]`
unfoldable pub split_inner : Bytes → Outcome Error (ℕ × Bytes)
split_inner [] = panic
split_inner (msg_type ∷ body) = ok (msg_type, body)

unfoldable pub split_framed : ℕ → Bytes → Outcome Error (ℕ × Bytes)
unfolding split_inner
split_framed total rest =
    if leb total 0 || ltb (length rest) total
    then err invalid_length
    else split_inner (take total rest)

unfoldable pub split_handshake : Bytes → Outcome Error (ℕ × Bytes)
split_handshake (t3 ∷ t2 ∷ t1 ∷ t0 ∷ b ∷ rest) = split_framed (uint32 t3 t2 t1 t0) (b ∷ rest)
split_handshake _ = err too_short

unfoldable pub build_finished : Bytes → Outcome Error Bytes
unfolding build_handshake
build_finished verify_data =
    if not (length verify_data == 32)
    then err bad_verify_data
    else ok (build_handshake hs_finished (put_uint16 (length verify_data) ++ verify_data))

unfoldable pub parse_finished : Bytes → Outcome Error Bytes
parse_finished (n1 ∷ n0 ∷ rest) =
    let n = uint16 n1 n0 in if ltb (length rest) n then err truncated else ok (take n rest)
parse_finished _ = err too_short

pub record PskTicket : Type 0 where
  pub psk_type : ℕ
  pub lifetime : ℕ
  pub ticket_entry : Bytes

-- `entry[0]` and `entry[1:5]`, which panic on an entry of fewer than five bytes.
unfoldable pub ticket_of : Bytes → Outcome Error PskTicket
ticket_of (p ∷ l3 ∷ l2 ∷ l1 ∷ l0 ∷ more) = ok (record {
  psk_type = p;
  lifetime = uint32 l3 l2 l1 l0;
  ticket_entry = p ∷ l3 ∷ l2 ∷ l1 ∷ l0 ∷ more;
})
ticket_of _ = panic

unfoldable pub add_ticket :
    Outcome Error PskTicket → Outcome Error (List PskTicket) → Outcome Error (List PskTicket)
add_ticket (ok t) (ok ts) = ok (t ∷ ts)
add_ticket (ok t) (err e) = err e
add_ticket (ok t) panic = panic
add_ticket (err e) ts = err e
add_ticket panic ts = panic

-- The loop over `count` entries; the list is `body[o:]`. An entry that is cut or too short ends it.
unfoldable pub tickets_loop : ℕ → Bytes → Outcome Error (List PskTicket)
unfolding ticket_of add_ticket
tickets_loop zero rest = ok []
tickets_loop (suc count) (e3 ∷ e2 ∷ e1 ∷ e0 ∷ rest) =
    let elen = uint32 e3 e2 e1 e0 in
    let later = tickets_loop count (drop elen rest) in
    if ltb (length rest) elen || ltb elen 5
    then ok []
    else add_ticket (ticket_of (take elen rest)) later
tickets_loop (suc count) _ = ok []

unfoldable pub parse_new_session_ticket : Bytes → Outcome Error (List PskTicket)
unfolding tickets_loop
parse_new_session_ticket [] = ok []
parse_new_session_ticket (count ∷ rest) = tickets_loop count rest
