-- ===== src/Credentials/Refresh.antt =====
-- What `CredentialProvider::refresh` of cpp/credentials/CredentialProvider.cpp stores and throws.
use react_native_salve_db.Prelude.{
  ◌≡◌, refl, require-true, >>=-elim-ok, sym, ap, ◌∙◌, inl, inr, true, Option, none, some,
  Option-cases, Bytes, Exception, Result, ok, err, text, ok-injective, require,
}
use react_native_salve_db.Exec.{lift, continue, >>=-run-ok}
use react_native_salve_db.Json.{Value, string}
use react_native_salve_db.JsonPath.{extract}
use react_native_salve_db.Credentials.Provider.{
  CredentialProvider, RefreshHttpResponse, refresh_body, tokens_of, token_at, is_success, string_of,
}
use react_native_salve_db.Credentials.Store.{SecureStore, SecureStoreLaws}
use react_native_salve_db.Credentials.{
  AuthHeader, header_value, header_of, get_auth_header, access_token_key, refresh_token_key,
  refresh, refresh_with, store_response, store_tokens, HttpCaller, no_refresh_token,
}
use react_native_salve_db.Credentials.Tokens.{header_of_held, store_tokens-Holds, Holds}

module _ {W N : Type 0} ⦃store : SecureStore W⦄ where
  -- The ways in which a refresh ends, from the world `w`. The request carries the stored token.
  pub data IsRefreshed (c : CredentialProvider) (call : HttpCaller W N) (w : W)
      : Result (Unit {0}) × W → Type 0 where
    -- the refresh token cannot be read; nothing is called
    unreadable :
        {e : Exception} {w₀ : W}
        → store.get_value refresh_token_key w ≡ (err e, w₀)
        → IsRefreshed c call w (err e, w₀)
    -- there is no refresh token; nothing is called
    no_token :
        {w₀ : W}
        → store.get_value refresh_token_key w ≡ (ok none, w₀)
        → IsRefreshed c call w (err no_refresh_token, w₀)
    -- the call throws; nothing is stored
    failed :
        {old : Bytes} {e : Exception} {w₀ w₁ : W}
        → store.get_value refresh_token_key w ≡ (ok (some old), w₀)
        → call c.refresh_endpoint (refresh_body old) w₀ ≡ (err e, w₁)
        → IsRefreshed c call w (err e, w₁)
    -- the response lacks a token, or its status is no success; nothing is stored
    refused :
        {old : Bytes} {response : RefreshHttpResponse N} {e : Exception} {w₀ w₁ : W}
        → store.get_value refresh_token_key w ≡ (ok (some old), w₀)
        → call c.refresh_endpoint (refresh_body old) w₀ ≡ (ok response, w₁)
        → tokens_of c response ≡ err e
        → IsRefreshed c call w (err e, w₁)
    -- the access token cannot be stored; the refresh token is not touched
    not_stored :
        {old access new : Bytes} {response : RefreshHttpResponse N} {e : Exception} {w₀ w₁ w₂ : W}
        → store.get_value refresh_token_key w ≡ (ok (some old), w₀)
        → call c.refresh_endpoint (refresh_body old) w₀ ≡ (ok response, w₁)
        → tokens_of c response ≡ ok (access, new)
        → store.set_value access_token_key access w₁ ≡ (err e, w₂)
        → IsRefreshed c call w (err e, w₂)
    -- the access token is stored and the refresh token cannot be
    half_stored :
        {old access new : Bytes} {response : RefreshHttpResponse N} {e : Exception}
        {w₀ w₁ w₂ w₃ : W}
        → store.get_value refresh_token_key w ≡ (ok (some old), w₀)
        → call c.refresh_endpoint (refresh_body old) w₀ ≡ (ok response, w₁)
        → tokens_of c response ≡ ok (access, new)
        → store.set_value access_token_key access w₁ ≡ (ok tt, w₂)
        → store.set_value refresh_token_key new w₂ ≡ (err e, w₃)
        → IsRefreshed c call w (err e, w₃)
    -- both tokens of the response are stored
    renewed :
        {old access new : Bytes} {response : RefreshHttpResponse N} {w₀ w₁ w₂ w₃ : W}
        → store.get_value refresh_token_key w ≡ (ok (some old), w₀)
        → call c.refresh_endpoint (refresh_body old) w₀ ≡ (ok response, w₁)
        → tokens_of c response ≡ ok (access, new)
        → store.set_value access_token_key access w₁ ≡ (ok tt, w₂)
        → store.set_value refresh_token_key new w₂ ≡ (ok tt, w₃)
        → IsRefreshed c call w (ok tt, w₃)

  module _ (c : CredentialProvider) (call : HttpCaller W N) (w : W) {old : Bytes} {w₀ : W}
      (stored : store.get_value refresh_token_key w ≡ (ok (some old), w₀)) where
    second_outcome :
        (response : RefreshHttpResponse N) {w₁ w₂ : W} {access new : Bytes}
        → call c.refresh_endpoint (refresh_body old) w₀ ≡ (ok response, w₁)
        → tokens_of c response ≡ ok (access, new)
        → store.set_value access_token_key access w₁ ≡ (ok tt, w₂)
        → (out : Result (Unit {0})) (w₃ : W) → store.set_value refresh_token_key new w₂ ≡ (out, w₃)
        → IsRefreshed c call w (out, w₃)
    second_outcome response called read first (ok tt) w₃ e = renewed stored called read first e
    second_outcome response called read first (err x) w₃ e = half_stored stored called read first e

    first_outcome :
        (response : RefreshHttpResponse N) {w₁ : W} {access new : Bytes}
        → call c.refresh_endpoint (refresh_body old) w₀ ≡ (ok response, w₁)
        → tokens_of c response ≡ ok (access, new)
        → (out : Result (Unit {0})) (w₂ : W)
        → store.set_value access_token_key access w₁ ≡ (out, w₂)
        → IsRefreshed c call w (continue out (λ u. store.set_value refresh_token_key new) w₂)
    first_outcome response {new = new} called read (ok tt) w₂ e =
        second_outcome response called read e (store.set_value refresh_token_key new w₂).0
          (store.set_value refresh_token_key new w₂).1 refl
    first_outcome response called read (err x) w₂ e = not_stored stored called read e

    response_outcome :
        (response : RefreshHttpResponse N) {w₁ : W}
        → call c.refresh_endpoint (refresh_body old) w₀ ≡ (ok response, w₁)
        → (tokens : Result (Bytes × Bytes)) → tokens_of c response ≡ tokens
        → IsRefreshed c call w (continue tokens (λ t. store_tokens t) w₁)
    unfolding store_tokens
    response_outcome response {w₁} called (ok (access, new)) read =
        first_outcome response called read (store.set_value access_token_key access w₁).0
          (store.set_value access_token_key access w₁).1 refl
    response_outcome response called (err e) read = refused stored called read

    call_outcome :
        (r : Result (RefreshHttpResponse N)) (w₁ : W)
        → call c.refresh_endpoint (refresh_body old) w₀ ≡ (r, w₁)
        → IsRefreshed c call w (continue r (store_response c) w₁)
    call_outcome (ok response) w₁ called =
        response_outcome response called (tokens_of c response) refl
    call_outcome (err e) w₁ called = failed stored called

  read_outcome :
      (c : CredentialProvider) (call : HttpCaller W N) (w : W) (o : Result (Option Bytes)) (w₀ : W)
      → store.get_value refresh_token_key w ≡ (o, w₀)
      → IsRefreshed c call w (continue o (refresh_with c call) w₀)
  read_outcome c call w (err e) w₀ stored = unreadable stored
  read_outcome c call w (ok none) w₀ stored = no_token stored
  read_outcome c call w (ok (some old)) w₀ stored =
      call_outcome c call w stored (call c.refresh_endpoint (refresh_body old) w₀).0
        (call c.refresh_endpoint (refresh_body old) w₀).1 refl

  -- A refresh ends in one of seven ways, each of which says what was read, called and stored, in that
  -- order, and whose exception goes on: the stored refresh token cannot be read, or there is none, and
  -- nothing is called; the call throws, or its response is no success or lacks a token, and nothing is
  -- stored; the access token cannot be stored; the access token is stored and the refresh token cannot
  -- be; or both are stored, and the refresh returns.
  pub refresh-IsRefreshed :
      (c : CredentialProvider) (call : HttpCaller W N) (w : W)
      → IsRefreshed c call w (refresh c call w)
  unfolding refresh
  refresh-IsRefreshed c call w =
      read_outcome c call w (store.get_value refresh_token_key w).0
        (store.get_value refresh_token_key w).1 refl

module _ {N : Type 0} where
  string_found : (o : Option (Value N)) (s : Bytes) → string_of o ≡ some s → o ≡ some (string s)
  string_found (some (string t)) s e = cc
  string_found (some v) s e = cc
  string_found none s e = cc

  token_at-read :
      (name : Bytes) (body : Value N) (path : Bytes) {s : Bytes}
      → token_at name body path ≡ ok s
      → extract body path ≡ ok (some (string s))
  unfolding token_at
  token_at-read name body path {s} e = >>=-elim-ok (extract body path) _ e λ found e₁ g.
      elim (Option-cases (string_of found)) [
        | inl none_there ↦ cc (rw none_there at g)
        | inr (t, there) ↦
            e₁ ∙ ap ok (string_found found s (there ∙ ap some (ok-injective (rw there at g))))
      ]

  -- what the response said, of which the tokens were read
  abbrev pub Answers : CredentialProvider → RefreshHttpResponse N → Bytes → Bytes → Type 0
  Answers c response access new =
      (is_success response.status_code ≡ true)
      × (extract response.body c.response_access_token_path ≡ ok (some (string access)))
      × (extract response.body c.response_refresh_token_path ≡ ok (some (string new)))

  tokens_of-Answers :
      (c : CredentialProvider) (response : RefreshHttpResponse N) {access new : Bytes}
      → tokens_of c response ≡ ok (access, new)
      → Answers c response access new
  unfolding tokens_of
  tokens_of-Answers c response e =
      >>=-elim-ok (require (is_success response.status_code) _) _ e λ u e₁ g₁.
        >>=-elim-ok (token_at (text "accessToken") response.body c.response_access_token_path) _ g₁
          λ a e₂ g₂.
            >>=-elim-ok (token_at (text "refreshToken") response.body c.response_refresh_token_path)
              _ g₂
              λ n e₃ g₃.
                let both = ok-injective g₃ in
                (
                  require-true (is_success response.status_code) _ e₁,
                  token_at-read _ response.body _ e₂ ∙ ap (λ p. ok (some (string p.0))) both,
                  token_at-read _ response.body _ e₃ ∙ ap (λ p. ok (some (string p.1))) both,
                )

module _ {W N : Type 0} ⦃store : SecureStore W⦄ {held : Bytes → W → Option Bytes} where
  -- Where a refresh returns, the call was made with the refresh token that was held and answered with a
  -- success, with a string at each of the two paths; the two strings are what the store holds as access
  -- and refresh token from then on, and a header that can be made is made of the first. The secure store
  -- is a key-value store.
  pub refresh_stores :
      (laws : SecureStoreLaws store held) (c : CredentialProvider) (call : HttpCaller W N) (w : W)
      {w' : W}
      → refresh c call w ≡ (ok tt, w')
      → (old : Bytes) × (access : Bytes) × (new : Bytes) × (response : RefreshHttpResponse N)
        × (w₀ : W) × (w₁ : W) × (held refresh_token_key w ≡ some old)
        × (call c.refresh_endpoint (refresh_body old) w₀ ≡ (ok response, w₁))
        × Answers c response access new
        × Holds laws access new w'
        × ((h : AuthHeader) (w₂ : W)
            → get_auth_header c w' ≡ (ok h, w₂)
            → h ≡ (c.access_token_header_name, header_value c.access_token_scheme access))
  unfolding refresh store_tokens header_of
  refresh_stores laws c call w {w'} e =
      >>=-run-ok (store.get_value refresh_token_key) _ w e λ token w₀ e₀ g₀. go token w₀ e₀ g₀
    where
      go :
          (token : Option Bytes) (w₀ : W)
          → store.get_value refresh_token_key w ≡ (ok token, w₀)
          → refresh_with c call token w₀ ≡ (ok tt, w')
          → (old : Bytes) × (access : Bytes) × (new : Bytes) × (response : RefreshHttpResponse N)
            × (w₀ : W) × (w₁ : W) × (held refresh_token_key w ≡ some old)
            × (call c.refresh_endpoint (refresh_body old) w₀ ≡ (ok response, w₁))
            × Answers c response access new
            × Holds laws access new w'
            × ((h : AuthHeader) (w₂ : W)
                → get_auth_header c w' ≡ (ok h, w₂)
                → h ≡ (c.access_token_header_name, header_value c.access_token_scheme access))
      go none w₀ e₀ g₀ = cc
      go (some old) w₀ e₀ g₀ =
          >>=-run-ok (call c.refresh_endpoint (refresh_body old)) _ w₀ g₀ λ response w₁ e₁ g₁.
            >>=-run-ok (lift (tokens_of c response)) _ w₁ g₁ λ tokens w₂ e₂ g₂.
              let read : tokens_of c response ≡ ok tokens = ap (λ p. p.0) e₂ in
              let holds = store_tokens-Holds laws tokens.0 tokens.1 w₂ g₂ in
              (
                old,
                tokens.0,
                tokens.1,
                response,
                w₀,
                w₁,
                laws.get_held e₀,
                e₁,
                tokens_of-Answers c response read,
                holds,
                (λ h w₃ g.
                    sym
                      (ok-injective (ap (header_of c) (sym holds.0) ∙ header_of_held laws c w' g))),
              )
