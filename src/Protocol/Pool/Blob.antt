-- ===== src/Protocol/Pool/Blob.antt =====
-- internal/protocol/pool.go: sessions as blobs and back.
use yyb_go.Prelude.{ℕ, ◌<◌, ◌≡◌, refl, ap, ◌∙◌, false, List, [], ◌∷◌, Bytes, All}
use yyb_go.Prelude.Hex.{decode_string-encode_to_string}
use yyb_go.Prelude.Text.{text_eq}
use yyb_go.Protocol.Values.{at_key, is_zero}
use yyb_go.Protocol.Json.{IsExact, float64-exact, decoded_any, decoded_items, decoded_fields}
use yyb_go.Protocol.Pool.{
  AppSession, Target, WmpfSession, enc_bytes, dec_bytes, targets_to_any, targets_of, to_blob,
  as_json, pairs_json, ok, is_nil, or_default, complete, session_from_blob,
}

abbrev pub AreBytes : Bytes → Type 0
AreBytes bs = All (λ (b : ℕ). b < 256) bs

-- Byte slices hold bytes, and the parts that the service needs are there.
pub record IsComplete (s : AppSession) : Type 0 where
  pub send_key : AreBytes s.send_key
  pub recv_key : AreBytes s.recv_key
  pub f9 : AreBytes s.f9
  pub ticket : AreBytes s.ticket
  pub device_id : AreBytes s.device_id
  pub host_app_id : AreBytes s.host_app_id
  pub has_send_key : is_nil s.send_key ≡ false
  pub has_recv_key : is_nil s.recv_key ≡ false
  pub has_uin : is_zero s.uin ≡ false

dec_bytes-enc_bytes : (bs : Bytes) → AreBytes bs → dec_bytes (enc_bytes bs) ≡ bs
unfolding dec_bytes at_key text_eq
dec_bytes-enc_bytes bs h = decode_string-encode_to_string bs h

targets_of-targets_to_any : (ts : List Target) → targets_of (pairs_json (targets_to_any ts)) ≡ ts
unfolding targets_of targets_to_any pairs_json
targets_of-targets_to_any [] = refl
targets_of-targets_to_any (t ∷ ts) = ap (◌∷◌ t) (targets_of-targets_to_any ts)

complete_lem : (st : WmpfSession) → IsComplete st.session → complete st ≡ ok st
complete_lem st c = rw (c.has_send_key, c.has_recv_key, c.has_uin) refl

-- The session as it is read back: with the one target that is built in where there is none.
abbrev pub as_read : WmpfSession → WmpfSession
as_read st = record st { shortlink_targets = or_default st.shortlink_targets }

-- Numbers that JSON does not change lead to the session that was written.
pub session_from_blob-as_json :
    (st : WmpfSession)
    → IsComplete st.session
    → session_from_blob (as_json (to_blob st)) ≡ ok (as_read st)
unfolding session_from_blob to_blob as_json at_key text_eq
session_from_blob-as_json st c =
    rw
      (
        dec_bytes-enc_bytes st.session.send_key c.send_key,
        dec_bytes-enc_bytes st.session.recv_key c.recv_key,
        dec_bytes-enc_bytes st.session.f9 c.f9,
        dec_bytes-enc_bytes st.session.ticket c.ticket,
        dec_bytes-enc_bytes st.session.device_id c.device_id,
        dec_bytes-enc_bytes st.session.host_app_id c.host_app_id,
        targets_of-targets_to_any st.shortlink_targets,
      )
      (complete_lem (as_read st) c)

-- The numbers of a session, which a float64 has to hold.
pub record AreExact (st : WmpfSession) : Type 0 where
  pub uin : IsExact st.session.uin
  pub psk_type : IsExact st.psk.psk_type
  pub lifetime : IsExact st.psk.lifetime
  pub expired_at : IsExact st.psk.expired_at
  pub ports : All (λ (t : Target). IsExact t.port) st.shortlink_targets

decoded_items-pairs :
    (ts : List Target)
    → All (λ (t : Target). IsExact t.port) ts
    → decoded_items (pairs_json (targets_to_any ts)) ≡ pairs_json (targets_to_any ts)
unfolding targets_to_any pairs_json decoded_any decoded_items decoded_fields
decoded_items-pairs [] _ = refl
decoded_items-pairs (t ∷ ts) (exact, rest) =
    rw (float64-exact t.port exact, decoded_items-pairs ts rest) refl

decoded-as_json :
    (st : WmpfSession) → AreExact st → decoded_fields (as_json (to_blob st)) ≡ as_json (to_blob st)
unfolding as_json to_blob decoded_any decoded_items decoded_fields
decoded-as_json st exact =
    rw
      (
        float64-exact st.session.uin exact.uin,
        float64-exact st.psk.psk_type exact.psk_type,
        float64-exact st.psk.lifetime exact.lifetime,
        float64-exact st.psk.expired_at exact.expired_at,
        decoded_items-pairs st.shortlink_targets exact.ports,
      )
      refl

-- sessionFromBlob reads back the session that toBlob wrote, through the JSON of the store, with the
-- built-in target where it has none. Its keys and its uin are there, and none of its numbers is beyond
-- 2 ^ 53, as JSON gives each of them back as a float64.
pub session_from_blob-to_blob :
    (st : WmpfSession)
    → IsComplete st.session
    → AreExact st
    → session_from_blob (decoded_fields (as_json (to_blob st))) ≡ ok (as_read st)
session_from_blob-to_blob st c exact =
    ap session_from_blob (decoded-as_json st exact) ∙ session_from_blob-as_json st c
