-- ===== src/Protocol/LoginBuffer.antt =====
-- internal/protocol/loginbuffer.go: the credentials of an account, and how they are renewed. What the
-- two requests answer, and how fmt prints a value, are arguments.
pub mod RoundTrip
use yyb_go.Prelude.{
  ℕ, Bool, true, false, List, [], ◌∷◌, ◌++◌, Option, none, some, codes, if◌then◌else◌,
}
use yyb_go.Prelude.Outcome.{Outcome, ok, err, ◌>>=◌}
use yyb_go.Prelude.Text.{Text, ℤ, pos}
use yyb_go.Protocol.Values.{
  Any, text, number, object, Fields, empty, field, at_key, as_object, or_empty, string_from_map,
  int64_from_map, int64_from_any, default_string, default_int64, is_zero, string_slice_path,
  seconds_after,
}

pub record LoginBufferCredentials : Type 0 where
  pub openid : Text
  pub access_token : Text
  pub refresh_token : Text
  pub login_type : Text
  pub nickname : Text
  pub expires_at : ℤ
  pub expires_in : ℤ

unfoldable pub credentials_from_map : Fields → LoginBufferCredentials
credentials_from_map m = record {
  openid = string_from_map m (codes "openid");
  access_token = string_from_map m (codes "accesstoken");
  refresh_token = string_from_map m (codes "refreshtoken");
  login_type = default_string (string_from_map m (codes "logintype")) (codes "WX");
  nickname = string_from_map m (codes "nickname");
  expires_at = int64_from_map m (codes "expires_at");
  expires_in = default_int64 (int64_from_map m (codes "expires_in")) (pos 7200);
}

unfoldable pub to_map : ℕ → LoginBufferCredentials → Fields
to_map now c = field (codes "openid") (text c.openid) (
    field (codes "accesstoken") (text c.access_token) (
      field (codes "refreshtoken") (text c.refresh_token) (
        field (codes "logintype") (text (default_string c.login_type (codes "WX"))) (
          field (codes "nickname") (text c.nickname) (
            field (codes "expires_at") (number c.expires_at) (
              field (codes "expires_in") (number (default_int64 c.expires_in (pos 7200)))
                (field (codes "refresh_refreshed_at") (number (pos now)) empty)))))))

pub record LoginBufferResult : Type 0 where
  pub login_buffer : Text
  pub credentials : LoginBufferCredentials
  pub refreshed : Bool

-- What requestJSON returns for the requests that the client makes of some credentials, and `%v`.
pub record Remote : Type 0 where
  pub refresh_token : LoginBufferCredentials → Outcome Text Fields
  pub fetch_buffer : LoginBufferCredentials → Outcome Text Fields
  pub show : Any → Text

module _ (remote : Remote) where
  abbrev pub failed : Text → Fields → Text
  failed what data_map =
      what
      ++ (codes " failed: code="
          ++ (remote.show (at_key data_map (codes "code"))
              ++ (codes " msg=" ++ remote.show (at_key data_map (codes "msg")))))

  abbrev pub first_buffer : List Text → Outcome Text Text
  first_buffer [] = err (codes "login_buffer response is empty")
  first_buffer ([] ∷ values) = err (codes "login_buffer response is empty")
  first_buffer ((c ∷ s) ∷ values) = ok (c ∷ s)

  unfoldable pub fetch_login_buffer : LoginBufferCredentials → Outcome Text Text
  fetch_login_buffer creds = do
    data_map ← remote.fetch_buffer creds
    if is_zero (int64_from_any (at_key data_map (codes "code")))
        then first_buffer (
            string_slice_path (object data_map)
              (codes "ext_info" ∷ codes "list_s" ∷ codes "login_buffer" ∷ codes "value" ∷ []))
        else err (failed (codes "login_buffer") data_map)

  -- The new token is taken over; the server may leave the refresh token as it is.
  abbrev pub renewed : ℕ → LoginBufferCredentials → Fields → LoginBufferCredentials
  renewed now creds info =
      let expires_in = default_int64 (int64_from_map info (codes "expires_in")) (pos 7200) in
      record creds {
        access_token = string_from_map info (codes "access_token");
        refresh_token =
            default_string (string_from_map info (codes "refresh_token")) creds.refresh_token;
        expires_in = expires_in;
        expires_at = seconds_after now expires_in;
      }

  abbrev pub with_token : LoginBufferCredentials → Text → Outcome Text LoginBufferCredentials
  with_token creds [] = err (codes "refresh response missing access_token")
  with_token creds (c ∷ s) = ok creds

  unfoldable pub answer_to :
      ℕ → LoginBufferCredentials → Fields → Outcome Text LoginBufferCredentials
  answer_to now creds data_map =
      if is_zero (int64_from_any (at_key data_map (codes "code")))
      then (let refreshed =
            renewed now creds (or_empty (as_object (at_key data_map (codes "user_info")))) in
          with_token refreshed refreshed.access_token)
      else err (failed (codes "refresh") data_map)

  abbrev pub with_refresh_token :
      ℕ → LoginBufferCredentials → Text → Outcome Text LoginBufferCredentials
  with_refresh_token now creds [] = err (codes "missing refresh token")
  with_refresh_token now creds (c ∷ s) = remote.refresh_token creds >>= answer_to now creds

  unfoldable pub refresh_credentials :
      ℕ → LoginBufferCredentials → Outcome Text LoginBufferCredentials
  refresh_credentials now creds = with_refresh_token now creds creds.refresh_token

  unfoldable pub refresh_login_buffer : ℕ → LoginBufferCredentials → Outcome Text LoginBufferResult
  refresh_login_buffer now creds = do
    renewed_creds ← refresh_credentials now creds
    login_buffer ← fetch_login_buffer renewed_creds
    ok (record { login_buffer = login_buffer; credentials = renewed_creds; refreshed = true })
