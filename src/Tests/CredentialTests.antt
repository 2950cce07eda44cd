-- ===== src/Tests/CredentialTests.antt =====
-- The theorems on the stored tokens and on the retries, on a device with three answers.
use react_native_salve_db.Prelude.{
  ◌≡◌, refl, ◌⊎◌, ◌≤◌, false, [], ◌∷◌, none, some, Bytes, text, ℤ, pos, Result, ok, err, what,
  str_eq, Exception,
}
use react_native_salve_db.Exec.{Exec, pure}
use react_native_salve_db.OrderedMap.{find, assign}
use react_native_salve_db.JsonPath.{extract, split_segments, walk}
use react_native_salve_db.Json.{get, Value, null, string, object, field, end}
use react_native_salve_db.Credentials.Provider.{
  CredentialProvider, RefreshHttpResponse, token_at, tokens_of, refresh_body,
}
use react_native_salve_db.Credentials.{
  seed_initial_tokens, get_access_token, get_auth_header, header_value, refresh_token_key,
  access_token_key, refresh, store_tokens, HttpCaller, AuthHeader, already_seeded, header_of,
}
use react_native_salve_db.Credentials.Tokens.{Holds, seed-seed}
use react_native_salve_db.Credentials.Refresh.{
  Answers, IsRefreshed, refresh-IsRefreshed, refresh_stores,
}
use react_native_salve_db.Http.CredentialHttpCaller.{call_refresh, read_refresh_outcome}
use react_native_salve_db.Json.Parser.{json_parse}
use react_native_salve_db.Json.Printer.{stringify, stringify_value}
use react_native_salve_db.Http.Types.{response, NetworkConfig, HttpNetworkError, timeout, other}
use react_native_salve_db.Http.SyncHttpCaller.{SyncHttpOutcome, answered, unreachable}
use react_native_salve_db.Http.Requester.{attempt_loop, caught, with_retry_and_401, max_attempts}
use react_native_salve_db.Http.Requester.Attempts.{Attempts}
use react_native_salve_db.Http.Requester.Bounds.{
  call_count, failure_count, refresh_count, with_retry_and_401-Attempts, unauthorized_was_refreshed,
  network_error_was_retried,
}
use react_native_salve_db.Tests.Doubles.{integer_double}
use react_native_salve_db.Tests.Device.{
  Device, device_store, device_store_laws, in_store, stored, device_platform, device_sleep,
}

abbrev provider : CredentialProvider
provider = record {
  provider = [];
  access_token_header_name = b'A' ∷ [];
  access_token_scheme = [];
  refresh_endpoint = b'r' ∷ [];
  response_access_token_path = b'$' ∷ b'.' ∷ b'a' ∷ [];
  response_refresh_token_path = b'$' ∷ b'.' ∷ b'r' ∷ [];
}

abbrev blank : Device
blank = record { secure = λ k. none; answers = []; slept = 0 }

abbrev seeded : Device
seeded = record { secure = λ k. some (b'1' ∷ []); answers = []; slept = 0 }

-- a blank device behind a seeding, and a seeded one behind a sign-out and another seeding
abbrev first_seeded : Device
first_seeded =
    stored refresh_token_key (some (b'2' ∷ [])) (stored access_token_key (some (b'1' ∷ [])) blank)

seeding : seed_initial_tokens (b'1' ∷ []) (b'2' ∷ []) blank ≡ (ok tt, first_seeded)
unfolding seed_initial_tokens already_seeded store_tokens device_store
seeding = refl

seed-seed_example :
    in_store access_token_key (seed_initial_tokens (b'3' ∷ []) (b'4' ∷ []) first_seeded).1
    ≡ in_store access_token_key first_seeded
seed-seed_example =
    seed-seed device_store_laws (b'1' ∷ []) (b'2' ∷ []) (b'3' ∷ []) (b'4' ∷ []) blank seeding
      access_token_key

abbrev signed_out : Device
signed_out = stored refresh_token_key none (stored access_token_key none seeded)

abbrev signed_in : Device
signed_in =
    stored refresh_token_key (some (b'6' ∷ []))
      (stored access_token_key (some (b'5' ∷ [])) signed_out)

abbrev new_tokens : Value ℤ
new_tokens =
    object (field (b'a' ∷ []) (string (b'7' ∷ [])) (field (b'r' ∷ []) (string (b'8' ∷ [])) end))

abbrev refresh_answer : HttpCaller Device ℤ
refresh_answer endpoint body w = (ok (record { status_code = pos 200; body = new_tokens }), w)

refresh-IsRefreshed_example :
    IsRefreshed provider refresh_answer seeded (refresh provider refresh_answer seeded)
refresh-IsRefreshed_example = refresh-IsRefreshed provider refresh_answer seeded

abbrev renewed_tokens : Device → Device
renewed_tokens w =
    stored refresh_token_key (some (b'8' ∷ [])) (stored access_token_key (some (b'7' ∷ [])) w)

refreshed : refresh provider refresh_answer seeded ≡ (ok tt, renewed_tokens seeded)
unfolding refresh store_tokens device_store tokens_of token_at text extract split_segments
    access_token_key refresh_token_key str_eq find get walk
refreshed = refl

refresh_stores_example :
    let w' = renewed_tokens seeded in
    (old : Bytes) × (access : Bytes) × (new : Bytes) × (response : RefreshHttpResponse ℤ)
    × (w₀ : Device) × (w₁ : Device) × (in_store refresh_token_key seeded ≡ some old)
    × (refresh_answer provider.refresh_endpoint (refresh_body old) w₀ ≡ (ok response, w₁))
    × Answers provider response access new
    × Holds device_store_laws access new w'
    × ((h : AuthHeader) (w₂ : Device)
        → get_auth_header provider w' ≡ (ok h, w₂)
        → h ≡ (b'A' ∷ [], header_value [] access))
refresh_stores_example = refresh_stores device_store_laws provider refresh_answer seeded refreshed

abbrev network : NetworkConfig ℤ
network = record { base_url = b'u' ∷ []; timeout_ms = pos 9 }

abbrev no_connection_error : HttpNetworkError
no_connection_error = record { kind = timeout; message = [] }

abbrev dead_call : AuthHeader → Exec Device (SyncHttpOutcome ℤ)
dead_call auth = pure (unreachable no_connection_error)

with_retry_and_401-Attempts_example :
    (out : Result (SyncHttpOutcome ℤ) × Device) × (run : Attempts provider network dead_call false 0
      seeded out)
    × (with_retry_and_401 provider network dead_call seeded ≡ caught out)
    × (call_count run ≤ 4)
    × (failure_count run ≤ max_attempts)
    × (refresh_count run ≤ 1)
with_retry_and_401-Attempts_example = with_retry_and_401-Attempts provider network dead_call seeded

abbrev thrice_slept : Device
thrice_slept = record { secure = seeded.secure; answers = []; slept = 10000 }

dead :
    with_retry_and_401 provider network dead_call seeded
    ≡ (unreachable no_connection_error, thrice_slept)
unfolding with_retry_and_401 attempt_loop get_auth_header header_of get_access_token device_store
    device_sleep
dead = refl

network_error_was_retried_example :
    ((x : Exception) × Attempts provider network dead_call false 0 seeded (err x, thrice_slept)
      × (no_connection_error ≡ record { kind = other; message = what x }))
    ⊎ ((run : Attempts provider network dead_call false 0 seeded
          (ok (unreachable no_connection_error), thrice_slept))
        × (failure_count run ≡ max_attempts))
network_error_was_retried_example =
    network_error_was_retried provider network dead_call seeded no_connection_error dead

abbrev forbidden_call : AuthHeader → Exec Device (SyncHttpOutcome ℤ)
forbidden_call auth = pure (answered (record { status_code = pos 401; body = null }))

-- {"a":"7","r":"8"}
abbrev refresh_body_text : Bytes
refresh_body_text =
    b'{' ∷ b'"' ∷ b'a' ∷ b'"' ∷ b':' ∷ b'"' ∷ b'7' ∷ b'"' ∷ b',' ∷ b'"' ∷ b'r' ∷ b'"' ∷ b':' ∷ b'"'
    ∷ b'8' ∷ b'"' ∷ b'}' ∷ []

abbrev online : Device
online = record {
  secure = seeded.secure;
  answers =
      response (record { status_code = pos 200; headers = []; body = refresh_body_text }) ∷ [];
  slept = 0;
}

abbrev renewed_device : Device
renewed_device = renewed_tokens (record { secure = seeded.secure; answers = []; slept = 0 })

forbidden :
    with_retry_and_401 provider network forbidden_call online
    ≡ (answered (record { status_code = pos 401; body = null }), renewed_device)
unfolding with_retry_and_401 attempt_loop get_auth_header header_of get_access_token device_store
    device_sleep refresh store_tokens call_refresh stringify stringify_value device_platform
    read_refresh_outcome json_parse tokens_of token_at text extract split_segments access_token_key
    refresh_token_key str_eq find get walk assign
forbidden = refl

unauthorized_was_refreshed_example :
    (run : Attempts provider network forbidden_call false 0 online
      (ok (answered (record { status_code = pos 401; body = null })), renewed_device))
    × (refresh_count run ≡ 1)
unauthorized_was_refreshed_example =
    unauthorized_was_refreshed provider network forbidden_call online
      (record { status_code = pos 401; body = null }) forbidden refl
