-- ===== src/Credentials/Provider.antt =====
-- The types of cpp/credentials/CredentialProvider.hpp, and what its refresh sends and reads.
use react_native_salve_db.Prelude.{
  Bool, not, ◌&&◌, ◌++◌, [], Option, none, some, Bytes, text, ℤ, pos, ltb_ℤ, int_text, Result, ok,
  err, runtime_error, require, ◌>>=◌, ◌>>◌,
}
use react_native_salve_db.OrderedMap.{assign}
use react_native_salve_db.Json.{Value, string, object, of_entries}
use react_native_salve_db.JsonPath.{extract}

pub record CredentialProvider : Type 0 where
  pub provider : Bytes
  pub access_token_header_name : Bytes
  pub access_token_scheme : Bytes
  pub refresh_endpoint : Bytes
  pub response_access_token_path : Bytes
  pub response_refresh_token_path : Bytes

-- `RefreshHttpResponse`
pub record RefreshHttpResponse (N : Type 0) : Type 0 where
  pub status_code : ℤ
  pub body : Value N

-- a status from 200 to 299
abbrev pub is_success : ℤ → Bool
is_success status = not (ltb_ℤ status (pos 200)) && ltb_ℤ status (pos 300)

-- the body of the refresh request
abbrev pub refresh_body : {N : Type 0} → Bytes → Value N
refresh_body refresh_token =
    object (of_entries (assign (text "refreshToken") (string refresh_token) []))

abbrev pub string_of : {N : Type 0} → Option (Value N) → Option Bytes
string_of (some (string s)) = some s
string_of _ = none

-- the string at a JsonPath of the response, or the error of a response without it
unfoldable pub token_at : {N : Type 0} → Bytes → Value N → Bytes → Result Bytes
token_at name body path = do
  found ← extract body path
  elim (string_of found) [
    | none ↦ err (
        runtime_error (
          text "CredentialProvider: refresh response missing "
          ++ (name ++ (text " at JsonPath \"" ++ (path ++ text "\"")))))
    | some token ↦ ok token
  ]

-- what a refresh reads from the response: the new access token and the new refresh token
unfoldable pub tokens_of :
    {N : Type 0} → CredentialProvider → RefreshHttpResponse N → Result (Bytes × Bytes)
tokens_of c response = do
  require (is_success response.status_code) (
      runtime_error (
        text "CredentialProvider: refresh request failed with status "
        ++ int_text response.status_code))
  access_token ← token_at (text "accessToken") response.body c.response_access_token_path
  refresh_token ← token_at (text "refreshToken") response.body c.response_refresh_token_path
  ok (access_token, refresh_token)
