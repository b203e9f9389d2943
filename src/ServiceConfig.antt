-- ===== src/ServiceConfig.antt =====
-- internal/serviceconfig/config.go: the configuration of the service, read from a file and checked.
-- encoding/json is an argument.
pub mod Paths
pub mod Servable
mod Tests
use yyb_go.Prelude.{
  ℕ, zero, suc, ◌+◌, ◌^◌, Bool, true, false, not, ◌&&◌, ◌||◌, Option, none, some, [], ◌∷◌, ltb, leb,
  length, take, if◌then◌else◌, codes,
}
use yyb_go.Prelude.Outcome.{Outcome, ok, err, ◌>>=◌}
use yyb_go.Prelude.Text.{Text, text_eq, trim_space, atoi, ℤ, pos, negsuc}
use yyb_go.ServiceConfig.Paths.{clean, base, split_host_port}

abbrev pub maximum_config_size : ℕ
maximum_config_size = 2 ^ 20

pub record Config : Type 0 where
  pub listen_address : Text
  pub data_root : Text
  pub asset_root : Text
  pub database_filename : Text
  pub tcp_proxy : Text
  pub keep_alive_interval_minute : ℤ
  pub keep_alive_ahead_minute : ℤ
  pub python_command : Text
  pub secret_key : Text
  pub session_duration_minute : ℤ
  pub cookie_secure : Bool

pub data Error : Type 0 where
  open_failed read_failed too_large decode_failed trailing_invalid trailing_value : Error
  listen_address_invalid port_invalid roots_missing database_filename_invalid : Error
  keep_alive_negative session_duration_negative : Error

abbrev pub is_negative : ℤ → Bool
is_negative (pos n) = false
is_negative (negsuc n) = true

-- Where the number is 0.
abbrev pub or_default : ℤ → ℕ → ℤ
or_default (pos zero) default_value = pos default_value
or_default (pos (suc n)) default_value = pos (suc n)
or_default (negsuc n) default_value = negsuc n

abbrev pub or_python : Text → Text
or_python [] = codes "python"
or_python (c ∷ s) = c ∷ s

abbrev pub is_port : Option ℤ → Bool
is_port none = false
is_port (some (negsuc n)) = false
is_port (some (pos n)) = leb 1 n && leb n 65535

unfoldable pub listen_address_error : Option (Text × Text) → Option Error
listen_address_error none = some listen_address_invalid
listen_address_error (some (host, raw_port)) =
    if text_eq (trim_space host) []
    then some listen_address_invalid
    else if is_port (atoi raw_port)
    then none
    else some port_invalid

-- `none` where the address is valid.
abbrev pub validate_listen_address : Text → Option Error
validate_listen_address address = listen_address_error (split_host_port address)

unfoldable pub trimmed : Config → Config
trimmed c = record c {
  listen_address = trim_space c.listen_address;
  data_root = clean (trim_space c.data_root);
  asset_root = clean (trim_space c.asset_root);
  database_filename = trim_space c.database_filename;
  tcp_proxy = trim_space c.tcp_proxy;
  python_command = trim_space c.python_command;
  secret_key = trim_space c.secret_key;
}

unfoldable pub with_defaults : Config → Config
with_defaults c = record c {
  keep_alive_interval_minute = or_default c.keep_alive_interval_minute 1;
  keep_alive_ahead_minute = or_default c.keep_alive_ahead_minute 45;
  python_command = or_python c.python_command;
  session_duration_minute = or_default c.session_duration_minute 1440;
}

-- The checks behind that of the address. Those between them only fill the fields that the later ones do
-- not read.
unfoldable pub validate : Config → Outcome Error Config
unfolding with_defaults
validate c =
    if text_eq c.data_root (codes ".") || text_eq c.asset_root (codes ".")
    then err roots_missing
    else if text_eq c.database_filename []
        || not (text_eq (base c.database_filename) c.database_filename)
    then err database_filename_invalid
    else if is_negative c.keep_alive_interval_minute || is_negative c.keep_alive_ahead_minute
    then err keep_alive_negative
    else if is_negative c.session_duration_minute
    then err session_duration_negative
    else ok (with_defaults c)

unfoldable pub behind_address : Option Error → Config → Outcome Error Config
unfolding validate
behind_address none c = validate c
behind_address (some e) c = err e

unfoldable pub normalize_and_validate : Config → Outcome Error Config
unfolding trimmed behind_address listen_address_error
normalize_and_validate c =
    behind_address (validate_listen_address (trimmed c).listen_address) (trimmed c)

-- What a decoder finds behind the first value.
pub data Ending : Type 0 where
  eof invalid another : Ending

-- json.Decoder on a text, with unknown fields refused: the first value as a configuration, and what
-- follows it.
pub record Decoder : Type 0 where
  pub decode : Text → Option Config
  pub ending : Text → Ending

-- What the file system does with a file: it cannot be opened, a read fails, or the bytes are read.
pub data File : Type 0 where
  missing unreadable : File
  holds : Text → File

-- The configuration is handed on where nothing follows it.
abbrev pub ensure_json_end : Ending → Config → Outcome Error Config
ensure_json_end eof c = ok c
ensure_json_end invalid c = err trailing_invalid
ensure_json_end another c = err trailing_value

abbrev pub decoded : Option Config → Outcome Error Config
decoded none = err decode_failed
decoded (some c) = ok c

unfoldable pub parsed : Decoder → Text → Outcome Error Config
parsed decoder raw = if ltb maximum_config_size (length raw) then err too_large else do
  c ← decoded (decoder.decode raw)
  config ← ensure_json_end (decoder.ending raw) c
  normalize_and_validate config

-- The reader gives one byte more than the limit at most.
unfoldable pub load : Decoder → File → Outcome Error Config
unfolding parsed
load decoder missing = err open_failed
load decoder unreadable = err read_failed
load decoder (holds s) = parsed decoder (take (maximum_config_size + 1) s)
