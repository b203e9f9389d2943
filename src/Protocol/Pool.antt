-- ===== src/Protocol/Pool.antt =====
-- internal/protocol/pool.go: the sessions that the pool keeps, and what it stores of them.
pub mod Blob
pub mod State
pub mod Cached
pub mod Fallback
pub mod Tests
use yyb_go.Prelude.{
  ℕ, zero, suc, ◌+◌, ◌/◌, Bool, true, false, not, ◌&&◌, ◌||◌, List, [], ◌∷◌, Option, none, some,
  codes, ltb, if◌then◌else◌, Bytes,
}
use yyb_go.Prelude.Hex.{encode_to_string, decode_string}
use yyb_go.Prelude.Text.{Text, text_eq, ℤ, pos, negsuc}
use yyb_go.Protocol.Values.{
  Any, null, boolean, number, text, array, object, Items, nil, cons, Fields, empty, field, at_key,
  string_any, int64_from_any, as_object, as_array, as_text, is_zero,
}

pub record AppSession : Type 0 where
  pub send_key : Bytes
  pub recv_key : Bytes
  pub f9 : Bytes
  pub uin : ℤ
  pub ticket : Bytes
  pub device_id : Bytes
  pub host_app_id : Bytes

pub record PskEntry : Type 0 where
  pub psk_type : ℤ
  pub pre_shared_key : Text
  pub ticket_entry : Text
  pub lifetime : ℤ
  pub expired_at : ℤ

pub record Target : Type 0 where
  pub ip : Text
  pub port : ℤ

-- A time of creation that nothing reads is left out.
pub record WmpfSession : Type 0 where
  pub session : AppSession
  pub psk : PskEntry
  pub shortlink_targets : List Target
  pub tcp_proxy : Text

abbrev pub enc_bytes : Bytes → Any
enc_bytes b = object (field (codes "__bytes__") (text (encode_to_string b)) empty)

abbrev pub hex_bytes : Option Text → Bytes
hex_bytes none = []
hex_bytes (some s) = decode_string s

-- A text is taken as it stands, where there is no object with the bytes in it.
unfoldable pub dec_bytes : Any → Bytes
dec_bytes (object m) = hex_bytes (as_text (at_key m (codes "__bytes__")))
dec_bytes (text s) = s
dec_bytes null = []
dec_bytes (boolean b) = []
dec_bytes (number n) = []
dec_bytes (array xs) = []

-- `[]any{t.IP, t.Port}`, of a string and an int.
unfoldable pub targets_to_any : List Target → List (Text × ℤ)
targets_to_any [] = []
targets_to_any (t ∷ ts) = (t.ip, t.port) ∷ targets_to_any ts

-- An entry that is no pair is passed over.
abbrev pub target_of : Option Items → List Target → List Target
target_of none rest = rest
target_of (some nil) rest = rest
target_of (some (cons x nil)) rest = rest
target_of (some (cons x (cons y xs))) rest =
    record { ip = string_any x; port = int64_from_any y } ∷ rest

unfoldable pub targets_of : Items → List Target
targets_of nil = []
targets_of (cons x xs) = target_of (as_array x) (targets_of xs)

abbrev pub targets_from_any : Option Items → List Target
targets_from_any none = []
targets_from_any (some xs) = targets_of xs

-- The map that toBlob makes: it holds a map, a struct, a slice of pairs, and a string.
pub record SessionMap : Type 0 where
  pub session : Fields
  pub psk_entry : PskEntry
  pub shortlink_targets : List (Text × ℤ)
  pub tcp_proxy : Text

unfoldable pub to_blob : WmpfSession → SessionMap
to_blob st = record {
  session = field (codes "send_key") (enc_bytes st.session.send_key) (
      field (codes "recv_key") (enc_bytes st.session.recv_key) (
        field (codes "f9") (enc_bytes st.session.f9) (
          field (codes "uin") (number st.session.uin) (
            field (codes "ticket") (enc_bytes st.session.ticket) (
              field (codes "device_id") (enc_bytes st.session.device_id)
                (field (codes "host_appid") (enc_bytes st.session.host_app_id) empty))))));
  psk_entry = st.psk;
  shortlink_targets = targets_to_any st.shortlink_targets;
  tcp_proxy = st.tcp_proxy;
}

-- The struct as JSON, by its tags.
abbrev pub psk_json : PskEntry → Fields
psk_json psk = field (codes "psk_type") (number psk.psk_type) (
    field (codes "pre_shared_key") (text psk.pre_shared_key) (
      field (codes "ticket_entry") (text psk.ticket_entry) (
        field (codes "lifetime") (number psk.lifetime)
          (field (codes "expired_at") (number psk.expired_at) empty))))

unfoldable pub pairs_json : List (Text × ℤ) → Items
pairs_json [] = nil
pairs_json ((ip, port) ∷ pairs) =
    cons (array (cons (text ip) (cons (number port) nil))) (pairs_json pairs)

-- The object that encoding/json writes for the map; an int is written with all its digits.
unfoldable pub as_json : SessionMap → Fields
as_json blob = field (codes "session") (object blob.session) (
    field (codes "psk_entry") (object (psk_json blob.psk_entry)) (
      field (codes "shortlink_targets") (array (pairs_json blob.shortlink_targets))
        (field (codes "tcp_proxy") (text blob.tcp_proxy) empty)))

pub data BlobError : Type 0 where
  missing_session missing_psk_entry incomplete : BlobError

pub data Read : Type 0 where
  ok : WmpfSession → Read
  err : BlobError → Read

abbrev pub default_target : Target
default_target = record { ip = codes "120.241.131.173"; port = pos 80 }

abbrev pub or_default : List Target → List Target
or_default [] = default_target ∷ []
or_default (t ∷ ts) = t ∷ ts

abbrev pub is_nil : Bytes → Bool
is_nil [] = true
is_nil (b ∷ bs) = false

abbrev pub session_of : Fields → AppSession
session_of sm = record {
  send_key = dec_bytes (at_key sm (codes "send_key"));
  recv_key = dec_bytes (at_key sm (codes "recv_key"));
  f9 = dec_bytes (at_key sm (codes "f9"));
  uin = int64_from_any (at_key sm (codes "uin"));
  ticket = dec_bytes (at_key sm (codes "ticket"));
  device_id = dec_bytes (at_key sm (codes "device_id"));
  host_app_id = dec_bytes (at_key sm (codes "host_appid"));
}

abbrev pub psk_of : Fields → PskEntry
psk_of pm = record {
  psk_type = int64_from_any (at_key pm (codes "psk_type"));
  pre_shared_key = string_any (at_key pm (codes "pre_shared_key"));
  ticket_entry = string_any (at_key pm (codes "ticket_entry"));
  lifetime = int64_from_any (at_key pm (codes "lifetime"));
  expired_at = int64_from_any (at_key pm (codes "expired_at"));
}

abbrev pub complete : WmpfSession → Read
complete st =
    if is_nil st.session.send_key || is_nil st.session.recv_key || is_zero st.session.uin
    then err incomplete
    else ok st

abbrev pub with_parts : Fields → Option Fields → Option Fields → Read
with_parts blob none pm = err missing_session
with_parts blob (some sm) none = err missing_psk_entry
with_parts blob (some sm) (some pm) = complete (record {
  session = session_of sm;
  psk = psk_of pm;
  shortlink_targets =
      or_default (targets_from_any (as_array (at_key blob (codes "shortlink_targets"))));
  tcp_proxy = string_any (at_key blob (codes "tcp_proxy"));
})

unfoldable pub session_from_blob : Fields → Read
session_from_blob blob =
    with_parts blob (as_object (at_key blob (codes "session")))
      (as_object (at_key blob (codes "psk_entry")))
