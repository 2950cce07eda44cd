-- ===== src/Credentials.antt =====
-- cpp/credentials/CredentialProvider.cpp. Keychain and Keystore are behind the interface
-- `SecureStore`; what the provider guarantees is in Credentials/Tokens and Credentials/Refresh.
pub mod Store
pub mod Provider
pub mod Tokens
pub mod Refresh
use react_native_salve_db.Prelude.{
  ℕ, Bool, true, false, not, ◌&&◌, ◌||◌, List, [], ◌∷◌, ◌++◌, Option, none, some, is_some, Bytes,
  text, ℤ, pos, ltb_ℤ, int_text, em_dash, Exception, Result, ok, err, runtime_error, decimal, leb,
  ltb, if◌then◌else◌, is_empty,
}
use react_native_salve_db.Exec.{Exec, ◌>>=◌, ◌>>◌, pure, throw, lift, gets, modify}
use react_native_salve_db.OrderedMap.{assign}
use react_native_salve_db.Json.{Value, string, object, of_entries}
use react_native_salve_db.JsonPath.{extract}
use react_native_salve_db.Credentials.Provider.{
  CredentialProvider, RefreshHttpResponse, refresh_body, tokens_of,
}
use react_native_salve_db.Credentials.Store.{SecureStore}

unfoldable pub access_token_key : Bytes
access_token_key = text "salvedb.credentials.accessToken"

unfoldable pub refresh_token_key : Bytes
refresh_token_key = text "salvedb.credentials.refreshToken"

abbrev pub AuthHeader : Type 0
AuthHeader = Bytes × Bytes

unfoldable pub no_access_token : Exception
no_access_token = runtime_error (
    text "CredentialProvider: no access token stored yet "
    ++ (em_dash ++ text " call configure() with initial tokens first"))

abbrev pub header_value : Bytes → Bytes → Bytes
header_value scheme token = if is_empty scheme then token else scheme ++ (32 ∷ token)

-- what is made of the stored token
unfoldable pub header_of : CredentialProvider → Option Bytes → Result AuthHeader
header_of c none = err no_access_token
header_of c (some token) = ok (c.access_token_header_name, header_value c.access_token_scheme token)

unfoldable pub no_refresh_token : Exception
no_refresh_token =
    runtime_error (text "CredentialProvider: refresh requested but no refresh token is stored")

module _ {W : Type 0} ⦃store : SecureStore W⦄ where
  -- the local of that name in `seedInitialTokens`; the second value is read behind a first one only
  unfoldable pub already_seeded : Exec W Bool
  already_seeded = store.get_value access_token_key >>= λ access.
      if is_some access
      then (store.get_value refresh_token_key >>= λ token. pure (is_some token))
      else pure false

  unfoldable pub store_tokens : Bytes × Bytes → Exec W (Unit {0})
  store_tokens (access_token, refresh_token) =
      store.set_value access_token_key access_token
      >> store.set_value refresh_token_key refresh_token

  -- `seedInitialTokens`
  unfoldable pub seed_initial_tokens : Bytes → Bytes → Exec W (Unit {0})
  seed_initial_tokens access_token refresh_token = already_seeded >>= λ seeded.
      if seeded then pure tt else store_tokens (access_token, refresh_token)

  -- `clearStoredTokens`
  unfoldable pub clear_stored_tokens : Exec W (Unit {0})
  clear_stored_tokens = store.delete_value access_token_key >> store.delete_value refresh_token_key

  -- `getAccessToken`
  unfoldable pub get_access_token : Exec W (Option Bytes)
  get_access_token = store.get_value access_token_key

  -- `getAuthHeader`
  unfoldable pub get_auth_header : CredentialProvider → Exec W AuthHeader
  get_auth_header c = get_access_token >>= λ token. lift (header_of c token)

-- `HttpCaller`
abbrev pub HttpCaller : Type 0 → Type 0 → Type 0
HttpCaller W N = Bytes → Value N → Exec W (RefreshHttpResponse N)

module _ {W N : Type 0} ⦃store : SecureStore W⦄ where
  -- behind the answer to the refresh request
  abbrev pub store_response : CredentialProvider → RefreshHttpResponse N → Exec W (Unit {0})
  store_response c response = lift (tokens_of c response) >>= λ tokens. store_tokens tokens

  -- behind the reading of the refresh token
  abbrev pub refresh_with : CredentialProvider → HttpCaller W N → Option Bytes → Exec W (Unit {0})
  refresh_with c call none = throw no_refresh_token
  refresh_with c call (some token) =
      call c.refresh_endpoint (refresh_body token) >>= λ response. store_response c response

  -- `refresh`
  unfoldable pub refresh : CredentialProvider → HttpCaller W N → Exec W (Unit {0})
  refresh c call = store.get_value refresh_token_key >>= λ token. refresh_with c call token
