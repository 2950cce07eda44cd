-- ===== src/Http/SyncHttpCaller.antt =====
-- cpp/http/SyncHttpCaller.cpp: one request for each verb of the REST contract.
use react_native_salve_db.Prelude.{
  ℕ, Bool, true, false, ◌&&◌, ◌||◌, [], ◌∷◌, ◌++◌, none, some, Bytes, text, ℤ, pos, eq_ℤ, int_text,
  Result, ok, err, ◌==◌, leb, if◌then◌else◌, ◌>>=◌,
}
use react_native_salve_db.Exec.{Exec}
use react_native_salve_db.OrderedMap.{OrderedMap}
use react_native_salve_db.Json.{Value, null}
use react_native_salve_db.Json.Double.{Double}
use react_native_salve_db.Json.Parser.{json_parse}
use react_native_salve_db.Json.Printer.{stringify}
use react_native_salve_db.Http.Types.{
  HttpHeaders, HttpRequest, HttpNetworkError, HttpOutcome, NetworkConfig, HttpPlatform, get_method,
  post_method, patch_method, delete_method, response, network_error,
}
use react_native_salve_db.Http.UrlBuilder.{build, build_with_query}
use react_native_salve_db.Http.UrlTemplate.{render}
use react_native_salve_db.Credentials.{AuthHeader}
use react_native_salve_db.Sync.Contract.{SyncEndpoint}

pub record SyncHttpResponse (N : Type 0) : Type 0 where
  pub status_code : ℤ
  pub body : Value N

-- `std::variant<SyncHttpResponse, HttpNetworkError>`
pub data SyncHttpOutcome (N : Type 0) : Type 0 where
  answered : SyncHttpResponse N → SyncHttpOutcome N
  unreachable : HttpNetworkError → SyncHttpOutcome N

-- `std::isspace` in the "C" locale
abbrev is_c_space : ℕ → Bool
is_c_space c = c == 32 || leb 9 c && leb c 13

-- `isBlank`
unfoldable pub is_blank : Bytes → Bool
is_blank [] = true
is_blank (c ∷ cs) = is_c_space c && is_blank cs

-- `buildHeaders`
unfoldable pub build_headers : SyncEndpoint → AuthHeader → Bool → HttpHeaders
build_headers endpoint auth with_content_type =
    (if with_content_type then (text "Content-Type", text "application/json") ∷ [] else [])
    ++ (auth ∷ endpoint.extra_headers)

module _ {N : Type 0} ⦃d : Double N⦄ where
  abbrev value_or_null : Result (Value N) → Value N
  value_or_null (ok v) = v
  value_or_null (err e) = null

  -- what `performRequest` makes of the outcome
  unfoldable pub read_outcome : HttpOutcome → SyncHttpOutcome N
  read_outcome (network_error e) = unreachable e
  read_outcome (response r) =
      if eq_ℤ r.status_code (pos 204) || is_blank r.body
      then answered (record { status_code = r.status_code; body = null })
      else answered
          (record { status_code = r.status_code; body = value_or_null (json_parse r.body) })

module _ {N : Type 0} (endpoint : SyncEndpoint) (auth : AuthHeader)
    (network : NetworkConfig N) where
  -- The request of `list`; `sinceMs` is an int64_t and `limit` an int.
  unfoldable pub list_request : ℤ → ℤ → Result (HttpRequest N)
  list_request since_ms limit = do
    query ← render endpoint.list_query_template (
        (text "since", int_text since_ms)
        ∷ (text "limit", int_text limit)
        ∷ (text "cursorField", endpoint.cursor_field)
        ∷ [])
    ok (record {
      method = get_method;
      url = build_with_query network.base_url endpoint.base_path query;
      headers = build_headers endpoint auth false;
      body = none;
      timeout_ms = network.timeout_ms;
    })

  abbrev item_vars : Bytes → OrderedMap Bytes
  item_vars id = (text "basePath", endpoint.base_path) ∷ (text "id", id) ∷ []

  -- the request of `remove`
  unfoldable pub remove_request : Bytes → Result (HttpRequest N)
  remove_request id = do
    path ← render endpoint.item_path_template (item_vars id)
    ok (record {
      method = delete_method;
      url = build network.base_url path;
      headers = build_headers endpoint auth false;
      body = none;
      timeout_ms = network.timeout_ms;
    })

  -- the request of `create`
  unfoldable pub create_request : ⦃d : Double N⦄ → Value N → Result (HttpRequest N)
  create_request entity = do
    body ← stringify entity
    ok (record {
      method = post_method;
      url = build network.base_url endpoint.base_path;
      headers = build_headers endpoint auth true;
      body = some body;
      timeout_ms = network.timeout_ms;
    })

  -- the request of `update`
  unfoldable pub update_request : ⦃d : Double N⦄ → Bytes → Value N → Result (HttpRequest N)
  update_request id entity = do
    path ← render endpoint.item_path_template (item_vars id)
    body ← stringify entity
    ok (record {
      method = patch_method;
      url = build network.base_url path;
      headers = build_headers endpoint auth true;
      body = some body;
      timeout_ms = network.timeout_ms;
    })

module _ {W N : Type 0} ⦃d : Double N⦄ ⦃platform : HttpPlatform W N⦄ where
  -- `performRequest`, of a request whose making may have thrown
  unfoldable pub perform_request : Result (HttpRequest N) → Exec W (SyncHttpOutcome N)
  perform_request (err e) w = (err e, w)
  perform_request (ok request) w =
      let (outcome, w') = platform.http_execute request w in (ok (read_outcome outcome), w')

  module _ (endpoint : SyncEndpoint) (auth : AuthHeader) (network : NetworkConfig N) where
    -- `SyncHttpCaller::list`
    unfoldable pub list : ℤ → ℤ → Exec W (SyncHttpOutcome N)
    list since_ms limit = perform_request (list_request endpoint auth network since_ms limit)

    -- `SyncHttpCaller::create`
    unfoldable pub create : Value N → Exec W (SyncHttpOutcome N)
    create entity = perform_request (create_request endpoint auth network entity)

    -- `SyncHttpCaller::update`
    unfoldable pub update : Bytes → Value N → Exec W (SyncHttpOutcome N)
    update id entity = perform_request (update_request endpoint auth network id entity)

    -- `SyncHttpCaller::remove`
    unfoldable pub remove : Bytes → Exec W (SyncHttpOutcome N)
    remove id = perform_request (remove_request endpoint auth network id)
