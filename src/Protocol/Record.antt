-- ===== src/Protocol/Record.antt =====
-- internal/protocol/mmtls_protocol.go: the record layer, `buildRecord` and `parseRecords`.
pub mod Stream
pub mod RoundTrip
pub mod Client
mod Tests
use yyb_go.Prelude.{
  ℕ, zero, suc, ◌+◌, ◌*◌, ◌/◌, ◌%◌, List, [], ◌∷◌, ◌++◌, Bool, not, ◌||◌, Bytes, ltb, ◌==◌,
  if◌then◌else◌, length, take, drop,
}
use yyb_go.Prelude.Outcome.{Outcome, ok, err}
use yyb_go.Protocol.BigEndian.{put_uint16, uint16}

abbrev pub record_version : ℕ
record_version = 0xf103

abbrev pub ct_alert : ℕ
ct_alert = 0x15

abbrev pub ct_handshake : ℕ
ct_handshake = 0x16

abbrev pub ct_app_data : ℕ
ct_app_data = 0x17

abbrev pub ct_psk_handshake : ℕ
ct_psk_handshake = 0x19

-- `record`; the field is the source's `ContentType`.
pub record Rec : Type 0 where
  pub content_type : ℕ
  pub payload : Bytes

pub data Error : Type 0 where
  payload_too_long : Error

unfoldable pub known_content_type : ℕ → Bool
known_content_type ct =
    ct == ct_alert
    || (ct == ct_handshake || (ct == ct_app_data || (ct == ct_psk_handshake || ct == 0x14)))

unfoldable pub build_record : ℕ → Bytes → Outcome Error Bytes
build_record content_type payload =
    if ltb 0xffff (length payload)
    then err payload_too_long
    else ok (content_type ∷ (put_uint16 record_version ++ (put_uint16 (length payload) ++ payload)))

-- What the loop finds at an offset: the end of the complete records, or a record and what follows.
pub data Found : Type 0 where
  break : Found
  found : Rec → Bytes → Found

unfoldable pub next_found : Bytes → Found
unfolding known_content_type
next_found (ct ∷ v1 ∷ v0 ∷ l1 ∷ l0 ∷ rest) =
    let ln = uint16 l1 l0 in
    if not (uint16 v1 v0 == record_version) || not (known_content_type ct)
    then break
    else if ltb (length rest) ln
    then break
    else found (record { content_type = ct; payload = take ln rest }) (drop ln rest)
next_found _ = break

-- The loop over the offset `off`; the list is `data[off:]`. Fuel that runs out acts as `break`,
-- which the lemmas below the module show that it never does.
unfoldable pub parse_loop : ℕ → Bytes → List Rec → ℕ → List Rec × ℕ
parse_loop zero rest recs off = (recs, off)
parse_loop (suc fuel) rest recs off = elim (next_found rest) [
  | break ↦ (recs, off)
  | found r rest' ↦ parse_loop fuel rest' (recs ++ r ∷ []) (off + 5 + length r.payload)
]

-- A record takes five bytes at least, so `len(data)` rounds are enough.
unfoldable pub parse_records : Bytes → List Rec × ℕ
unfolding parse_loop next_found
parse_records content = parse_loop (length content) content [] 0
