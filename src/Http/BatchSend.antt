-- ===== src/Http/BatchSend.antt =====
-- `SyncHttpCaller::send` of cpp/http/SyncHttpCaller.cpp, the request of the batched protocol that the
-- source keeps beside the REST contract.
use react_native_salve_db.Prelude.{
  [], ◌∷◌, ◌++◌, some, Bytes, text, em_dash, str_eq, int_text, what, Result, ok, err, runtime_error,
  if◌then◌else◌, is_empty, ◌>>=◌,
}
use react_native_salve_db.Exec.{Exec}
use react_native_salve_db.Json.{Value, null, get_string}
use react_native_salve_db.Json.Double.{Double}
use react_native_salve_db.Json.Parser.{json_parse}
use react_native_salve_db.Json.Printer.{stringify}
use react_native_salve_db.Http.Types.{
  HttpMethod, HttpRequest, HttpResponse, HttpOutcome, NetworkConfig, HttpPlatform, get_method,
  post_method, put_method, patch_method, delete_method, response, network_error,
}
use react_native_salve_db.Http.UrlBuilder.{build}
use react_native_salve_db.Http.SyncHttpCaller.{SyncHttpOutcome, answered, unreachable}
use react_native_salve_db.Credentials.{AuthHeader}
use react_native_salve_db.Credentials.Provider.{is_success}
use react_native_salve_db.Sync.Contract.{parse_extra_headers}

-- `methodFromString`
unfoldable pub method_from_string : Bytes → Result HttpMethod
method_from_string method =
    if str_eq method (text "GET")
    then ok get_method
    else if str_eq method (text "POST")
    then ok post_method
    else if str_eq method (text "PUT")
    then ok put_method
    else if str_eq method (text "PATCH")
    then ok patch_method
    else if str_eq method (text "DELETE")
    then ok delete_method
    else err
        (runtime_error (text "SyncHttpCaller: unknown endpoint.method '" ++ (method ++ text "'")))

module _ {N : Type 0} ⦃d : Double N⦄ where
  -- The request of `send`. The headers of the endpoint are those that the contract reads.
  unfoldable pub batch_request :
      Value N → Value N → AuthHeader → NetworkConfig N → Result (HttpRequest N)
  batch_request endpoint body auth network =
      let path = get_string endpoint (text "path") [] in
      if is_empty path
      then err (runtime_error (text "SyncHttpCaller: endpoint.path is required"))
      else (do
        method ← method_from_string (get_string endpoint (text "method") [])
        printed ← stringify body
        ok (record {
          method = method;
          url = build network.base_url path;
          headers =
              (text "Content-Type", text "application/json") ∷ auth ∷ parse_extra_headers endpoint;
          body = some printed;
          timeout_ms = network.timeout_ms;
        }))

  -- a body that does not parse is an error only behind a success
  abbrev batch_response : HttpResponse → Result (Value N) → Result (SyncHttpOutcome N)
  batch_response r (ok v) = ok (answered (record { status_code = r.status_code; body = v }))
  batch_response r (err e) =
      if is_success r.status_code
      then err (
          runtime_error (
            text "SyncHttpCaller: failed to parse response body (status "
            ++ (int_text r.status_code ++ (text ") " ++ (em_dash ++ (32 ∷ what e))))))
      else ok (answered (record { status_code = r.status_code; body = null }))

  unfoldable pub read_batch_outcome : HttpOutcome → Result (SyncHttpOutcome N)
  read_batch_outcome (network_error e) = ok (unreachable e)
  read_batch_outcome (response r) = batch_response r (json_parse r.body)

module _ {W N : Type 0} ⦃d : Double N⦄ ⦃platform : HttpPlatform W N⦄ where
  abbrev send_request : Result (HttpRequest N) → Exec W (SyncHttpOutcome N)
  send_request (err e) w = (err e, w)
  send_request (ok request) w =
      let (outcome, w') = platform.http_execute request w in (read_batch_outcome outcome, w')

  -- `SyncHttpCaller::send`
  unfoldable pub send :
      Value N → Value N → AuthHeader → NetworkConfig N → Exec W (SyncHttpOutcome N)
  send endpoint body auth network = send_request (batch_request endpoint body auth network)
