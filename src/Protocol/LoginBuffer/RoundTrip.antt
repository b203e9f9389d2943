-- ===== src/Protocol/LoginBuffer/RoundTrip.antt =====
-- internal/protocol/loginbuffer.go: credentials as a map and back.
use yyb_go.Prelude.{ℕ, ◌≡◌, refl, zero, suc, [], ◌∷◌, codes}
use yyb_go.Prelude.Text.{Text, text_eq, ℤ, pos, negsuc}
use yyb_go.Protocol.Values.{at_key, string_from_map, int64_from_map, default_string, default_int64}
use yyb_go.Protocol.LoginBuffer.{LoginBufferCredentials, credentials_from_map, to_map}

default_string_twice :
    (s def : Text) → default_string (default_string s def) def ≡ default_string s def
default_string_twice [] [] = refl
default_string_twice [] (c ∷ def) = refl
default_string_twice (c ∷ s) def = refl

default_int64_twice :
    (v : ℤ) → default_int64 (default_int64 v (pos 7200)) (pos 7200) ≡ default_int64 v (pos 7200)
default_int64_twice (pos zero) = refl
default_int64_twice (pos (suc n)) = refl
default_int64_twice (negsuc n) = refl

-- CredentialsFromMap reads back what ToMap wrote, with the type WX and the life of 7200 seconds where the
-- credentials have none.
pub credentials_from_map-to_map :
    (now : ℕ) (c : LoginBufferCredentials)
    → credentials_from_map (to_map now c) ≡ record c {
      login_type = default_string c.login_type (codes "WX");
      expires_in = default_int64 c.expires_in (pos 7200);
    }
unfolding credentials_from_map to_map string_from_map int64_from_map at_key text_eq
credentials_from_map-to_map now c =
    rw (default_string_twice c.login_type (codes "WX"), default_int64_twice c.expires_in) refl
