-- ===== src/Protocol/Record/Tests.antt =====
-- Runs of the record layer, and the theorems at concrete inputs.
use yyb_go.Prelude.{◌≤◌, ◌<◌, ◌≡◌, refl, ◌⊎◌, [], ◌∷◌, ◌++◌, Bytes, codes, length}
use yyb_go.Prelude.Outcome.{ok, err}
use yyb_go.Protocol.Record.{
  Rec, ct_alert, ct_handshake, payload_too_long, known_content_type, build_record, parse_records,
}
use yyb_go.Protocol.Record.Stream.{parse_records-append}
use yyb_go.Protocol.Record.RoundTrip.{wire, build_record_cases, parse_records-wire}
use yyb_go.Protocol.Record.Client.{Reader, Delivers, pending, next_record, next_record-Delivers}

abbrev hello : Rec
hello = record { content_type = ct_handshake; payload = codes "hi" }

abbrev alert : Rec
alert = record { content_type = ct_alert; payload = [] }

abbrev hello_bytes : Bytes
hello_bytes = 0x16 ∷ 0xf1 ∷ 0x03 ∷ 0 ∷ 2 ∷ codes "hi"

abbrev alert_bytes : Bytes
alert_bytes = 0x15 ∷ 0xf1 ∷ 0x03 ∷ 0 ∷ 0 ∷ []

wire_two : wire (hello ∷ alert ∷ []) ≡ ok (hello_bytes ++ alert_bytes)
unfolding wire build_record
wire_two = refl

build_record_cases_example :
    ((0xffff < 2) × (build_record ct_handshake (codes "hi") ≡ err payload_too_long))
    ⊎ ((2 ≤ 0xffff)
        × (out : Bytes) × (build_record ct_handshake (codes "hi") ≡ ok out)
        × (length out ≡ 7))
build_record_cases_example = build_record_cases ct_handshake (codes "hi")

parse_records-wire_example :
    parse_records (hello_bytes ++ alert_bytes ++ 0x17 ∷ 0xf1 ∷ []) ≡ (hello ∷ alert ∷ [], 12)
unfolding known_content_type parse_records
parse_records-wire_example =
    parse_records-wire (hello ∷ alert ∷ []) (hello_bytes ++ alert_bytes) (0x17 ∷ 0xf1 ∷ [])
      (refl, (refl, tt)) wire_two

-- The first part ends inside the second record.
parse_records-append_example :
    parse_records ((hello_bytes ++ 0x15 ∷ 0xf1 ∷ []) ++ 0x03 ∷ 0 ∷ 0 ∷ [])
    ≡ (hello ∷ alert ∷ [], 12)
unfolding parse_records
parse_records-append_example =
    parse_records-append (hello_bytes ++ 0x15 ∷ 0xf1 ∷ []) (0x03 ∷ 0 ∷ 0 ∷ [])

abbrev waiting : Reader
waiting = record { reads = (0x03 ∷ 0 ∷ []) ∷ (0 ∷ []) ∷ []; rxbuf = 0x15 ∷ 0xf1 ∷ []; recq = [] }

next_record-Delivers_example : Delivers (pending waiting) (next_record waiting)
next_record-Delivers_example = next_record-Delivers waiting ((λ e. cc), ((λ e. cc), tt))
