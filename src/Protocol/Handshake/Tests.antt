-- ===== src/Protocol/Handshake/Tests.antt =====
-- Runs of the handshake messages, and the theorems at concrete inputs.
use yyb_go.Prelude.{
  ◌≡◌, ◌≢◌, ◌⊎◌, refl, List, [], ◌∷◌, ◌++◌, arith, map, length, replicate, Bytes, codes,
}
use yyb_go.Prelude.Outcome.{ok, err}
use yyb_go.Protocol.Handshake.{
  PskTicket, build_handshake, split_handshake, split_framed, build_finished, parse_finished,
  parse_new_session_ticket, hs_finished, bad_verify_data, invalid_length,
}
use yyb_go.Protocol.Handshake.Framing.{split_handshake-build_handshake, build_finished_cases}
use yyb_go.Protocol.Handshake.Tickets.{
  Tickets, encode_entries, parse_new_session_ticket-Tickets,
  parse_new_session_ticket-encode_entries,
}

abbrev thirty_two : Bytes
thirty_two = replicate 32 7

no_type_byte : split_handshake (0 ∷ 0 ∷ 0 ∷ 0 ∷ 1 ∷ []) ≡ err invalid_length
unfolding split_handshake split_framed
no_type_byte = refl

ticket_run :
    parse_new_session_ticket (2 ∷ 0 ∷ 0 ∷ 0 ∷ 6 ∷ 1 ∷ 0 ∷ 0 ∷ 1 ∷ 4 ∷ 9 ∷ 0 ∷ 0 ∷ [])
    ≡ ok ((record { psk_type = 1; lifetime = 260; ticket_entry = 1 ∷ 0 ∷ 0 ∷ 1 ∷ 4 ∷ 9 ∷ [] }) ∷ [])
unfolding parse_new_session_ticket
ticket_run = refl

split_handshake-build_handshake_example :
    split_handshake (build_handshake 2 (codes "ab") ++ codes "c") ≡ ok (2, codes "ab")
split_handshake-build_handshake_example =
    split_handshake-build_handshake 2 (codes "ab") (codes "c") (omega arith)

build_finished_cases_example :
    ((length thirty_two ≢ 32) × (build_finished thirty_two ≡ err bad_verify_data))
    ⊎ ((message : Bytes) × (body : Bytes) × (length thirty_two ≡ 32)
        × (build_finished thirty_two ≡ ok message)
        × ((rest : Bytes) → split_handshake (message ++ rest) ≡ ok (hs_finished, body))
        × (parse_finished body ≡ ok thirty_two))
build_finished_cases_example = build_finished_cases thirty_two

parse_new_session_ticket-Tickets_example :
    Tickets 2 5 (parse_new_session_ticket (2 ∷ 255 ∷ 0 ∷ 0 ∷ 0 ∷ 1 ∷ []))
parse_new_session_ticket-Tickets_example =
    parse_new_session_ticket-Tickets 2 (255 ∷ 0 ∷ 0 ∷ 0 ∷ 1 ∷ [])

parse_new_session_ticket-encode_entries_example :
    (ts : List PskTicket) × (parse_new_session_ticket
        (2 ∷ (encode_entries (codes "abcde" ∷ codes "fghijk" ∷ []) ++ codes "l"))
      ≡ ok ts)
    × (map (λ (t : PskTicket). t.ticket_entry) ts ≡ codes "abcde" ∷ codes "fghijk" ∷ [])
parse_new_session_ticket-encode_entries_example =
    parse_new_session_ticket-encode_entries (codes "abcde" ∷ codes "fghijk" ∷ []) (codes "l")
      ((omega arith, omega arith), ((omega arith, omega arith), tt))
