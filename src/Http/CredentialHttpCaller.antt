-- ===== src/Http/CredentialHttpCaller.antt =====
-- cpp/http/CredentialHttpCaller.cpp: the call of the refresh endpoint.
use react_native_salve_db.Prelude.{
  [], ◌∷◌, ◌++◌, some, Bytes, text, em_dash, int_text, what, Result, ok, err, runtime_error,
}
use react_native_salve_db.Exec.{Exec}
use react_native_salve_db.Json.{Value}
use react_native_salve_db.Json.Double.{Double}
use react_native_salve_db.Json.Parser.{json_parse}
use react_native_salve_db.Json.Printer.{stringify}
use react_native_salve_db.Http.Types.{
  HttpRequest, HttpResponse, HttpOutcome, NetworkConfig, HttpPlatform, post_method, response,
  network_error,
}
use react_native_salve_db.Http.UrlBuilder.{build}
use react_native_salve_db.Credentials.Provider.{RefreshHttpResponse}

unfoldable pub refresh_request : {N : Type 0} → NetworkConfig N → Bytes → Bytes → HttpRequest N
refresh_request network endpoint body = record {
  method = post_method;
  url = build network.base_url endpoint;
  headers = (text "Content-Type", text "application/json") ∷ [];
  body = some body;
  timeout_ms = network.timeout_ms;
}

module _ {N : Type 0} ⦃d : Double N⦄ where
  -- a body that does not parse is an error with the status
  abbrev parsed_response : HttpResponse → Result (Value N) → Result (RefreshHttpResponse N)
  parsed_response r (ok v) = ok (record { status_code = r.status_code; body = v })
  parsed_response r (err e) = err (
      runtime_error (
        text "CredentialHttpCaller: failed to parse response body (status "
        ++ (int_text r.status_code ++ (text ") " ++ (em_dash ++ (32 ∷ what e))))))

  unfoldable pub read_refresh_outcome : HttpOutcome → Result (RefreshHttpResponse N)
  read_refresh_outcome (network_error e) = err (
      runtime_error
        (text "CredentialHttpCaller: refresh request failed " ++ (em_dash ++ (32 ∷ e.message))))
  read_refresh_outcome (response r) = parsed_response r (json_parse r.body)

module _ {W N : Type 0} ⦃d : Double N⦄ ⦃platform : HttpPlatform W N⦄ where
  -- the lambda of `CredentialHttpCaller::create`
  unfoldable pub call_refresh : NetworkConfig N → Bytes → Value N → Exec W (RefreshHttpResponse N)
  call_refresh network endpoint body w = elim (stringify body) [
    | err e ↦ (err e, w)
    | ok printed ↦
        let (outcome, w') = platform.http_execute (refresh_request network endpoint printed) w in
        (read_refresh_outcome outcome, w')
  ]
