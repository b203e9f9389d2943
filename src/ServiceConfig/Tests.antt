-- ===== src/ServiceConfig/Tests.antt =====
-- internal/serviceconfig/config.go: the configuration at concrete files.
use yyb_go.Prelude.{◌≡◌, refl, [], false, some, codes}
use yyb_go.Prelude.Outcome.{ok, err}
use yyb_go.Prelude.Text.{Text, text_eq, trim_space, split, join, cut, atoi, pos}
use yyb_go.ServiceConfig.Paths.{clean, base, has, split_host_port}
use yyb_go.ServiceConfig.Servable.{load-IsServable, Gives}
use yyb_go.ServiceConfig.{
  Config, Decoder, Ending, eof, another, holds, missing, open_failed, trailing_value, port_invalid,
  database_filename_invalid, trimmed, with_defaults, validate, behind_address, listen_address_error,
  normalize_and_validate, parsed, load,
}

abbrev given : Config
given = record {
  listen_address = codes " [::1]:8080";
  data_root = codes "var/../data//";
  asset_root = codes "/srv/assets/.";
  database_filename = codes "yyb.db ";
  tcp_proxy = [];
  keep_alive_interval_minute = pos 0;
  keep_alive_ahead_minute = pos 30;
  python_command = [];
  secret_key = [];
  session_duration_minute = pos 0;
  cookie_secure = false;
}

abbrev expected : Config
expected = record given {
  listen_address = codes "[::1]:8080";
  data_root = codes "data";
  asset_root = codes "/srv/assets";
  database_filename = codes "yyb.db";
  keep_alive_interval_minute = pos 1;
  python_command = codes "python";
  session_duration_minute = pos 1440;
}

-- A stand-in for the decoder, which finds one configuration in every text.
abbrev finds : Config → Ending → Decoder
finds c end = record { decode = λ _. some c; ending = λ _. end }

file_given : load (finds given eof) (holds (codes "{}")) ≡ ok expected
unfolding load parsed normalize_and_validate behind_address listen_address_error validate trimmed
    with_defaults clean base has split_host_port text_eq trim_space split join cut atoi
file_given = refl

file_missing : load (finds given eof) missing ≡ err open_failed
unfolding load
file_missing = refl

file_another : load (finds given another) (holds (codes "{}{}")) ≡ err trailing_value
unfolding load parsed
file_another = refl

port_zero :
    normalize_and_validate (record given { listen_address = codes "host:0" }) ≡ err port_invalid
unfolding normalize_and_validate behind_address listen_address_error validate trimmed with_defaults
    clean base has split_host_port text_eq trim_space split join cut atoi
port_zero = refl

filename_in_directory :
    normalize_and_validate (record given { database_filename = codes "a/b" })
    ≡ err database_filename_invalid
unfolding normalize_and_validate behind_address listen_address_error validate trimmed with_defaults
    clean base has split_host_port text_eq trim_space split join cut atoi
filename_in_directory = refl

-- The root and the parent directory are their own last elements.
filename_root :
    normalize_and_validate (record given { database_filename = codes "/" })
    ≡ ok (record expected { database_filename = codes "/" })
unfolding normalize_and_validate behind_address listen_address_error validate trimmed with_defaults
    clean base has split_host_port text_eq trim_space split join cut atoi
filename_root = refl

filename_parent :
    normalize_and_validate (record given { database_filename = codes ".." })
    ≡ ok (record expected { database_filename = codes ".." })
unfolding normalize_and_validate behind_address listen_address_error validate trimmed with_defaults
    clean base has split_host_port text_eq trim_space split join cut atoi
filename_parent = refl

clean_parents : clean (codes "../a/../../b") ≡ codes "../../b"
unfolding clean text_eq split join
clean_parents = refl

load-IsServable_example :
    (raw : Text) × (from : Config) × (holds (codes "{}") ≡ holds raw)
    × Gives (finds given eof) raw from expected
load-IsServable_example = load-IsServable (finds given eof) (holds (codes "{}")) file_given
