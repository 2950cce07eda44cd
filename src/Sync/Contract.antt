-- ===== src/Sync/Contract.antt =====
-- cpp/sync/SyncContract.cpp: the validated view of the `sync` block of a schema. What an accepted
-- contract satisfies is in Contract/WellFormed.
pub mod WellFormed
use react_native_salve_db.Prelude.{
  ℕ, Bool, true, false, not, ◌&&◌, ◌||◌, List, [], ◌∷◌, ◌++◌, Option, none, some, Bytes, text,
  em_dash, str_eq, ℤ, pos, ltb_ℤ, Result, ok, err, runtime_error, require, ◌>>=◌, ◌>>◌,
  if◌then◌else◌, is_empty, is_some,
}
use react_native_salve_db.OrderedMap.{OrderedMap}
use react_native_salve_db.Json.{
  Value, null, bool, number, string, array, object, Fields, end, field, entries, get, has,
  get_string, get_number,
}
use react_native_salve_db.Json.Double.{Double}
use react_native_salve_db.Http.Types.{HttpHeaders}
use react_native_salve_db.Http.UrlBuilder.{encode_segment}
use react_native_salve_db.Http.UrlTemplate.{UrlTemplate, item, list_query, parse, references}

pub record SyncEndpoint : Type 0 where
  pub base_path : Bytes
  pub item_path_template : UrlTemplate
  pub list_query_template : UrlTemplate
  pub extra_headers : HttpHeaders
  pub cursor_field : Bytes

pub record SyncConflict : Type 0 where
  pub strategy : Bytes
  pub conflict_field : Bytes
  pub field_explicit : Bool

-- The two sizes are `int`s; converting a double outside that range is undefined in the source.
pub record SyncContract : Type 0 where
  pub endpoint : SyncEndpoint
  pub conflict : SyncConflict
  pub page_size : ℤ
  pub max_pages_per_session : ℤ

-- `isValidConflictStrategy`
unfoldable pub is_valid_conflict_strategy : Bytes → Bool
is_valid_conflict_strategy strategy =
    str_eq strategy (text "lastWriteWins")
    || str_eq strategy (text "serverWins")
    || str_eq strategy (text "clientWins")

-- a default-constructed `SyncConflict`
abbrev default_conflict : SyncConflict
default_conflict = record {
  strategy = text "lastWriteWins";
  conflict_field = text "updatedAt";
  field_explicit = false;
}

abbrev item_path_name : Bytes
item_path_name = text "sync.endpoint.itemPathTemplate"

abbrev list_query_name : Bytes
list_query_name = text "sync.endpoint.listQueryTemplate"

abbrev positive_size : Bytes → ℤ → Result ℤ
positive_size name size =
    if ltb_ℤ (pos 0) size
    then ok size
    else err (
        runtime_error
          (text "SyncContract: sync.pagination." ++ (name ++ text " must be a positive integer")))

module _ {N : Type 0} where
  -- `requireString`
  unfoldable pub require_string : Value N → Bytes → Result Bytes
  require_string endpoint name =
      let value = get_string endpoint name [] in
      if is_empty value
      then err
          (runtime_error (text "SyncContract: sync.endpoint." ++ (name ++ text " is required")))
      else ok value

  -- the members of an object that are strings
  unfoldable pub string_headers : OrderedMap (Value N) → HttpHeaders
  string_headers [] = []
  string_headers ((name, string value) ∷ m) = (name, value) ∷ string_headers m
  string_headers ((name, v) ∷ m) = string_headers m

  abbrev headers_of : Option (Value N) → HttpHeaders
  headers_of (some (object fs)) = string_headers (entries fs)
  headers_of _ = []

  -- `parseExtraHeaders`
  unfoldable pub parse_extra_headers : Value N → HttpHeaders
  parse_extra_headers endpoint = headers_of (get endpoint (text "headers"))

  -- `legacyListQueryTemplate`
  unfoldable pub legacy_list_query_template : Value N → Result Bytes
  legacy_list_query_template endpoint =
      let legacy_since = get_string endpoint (text "sinceParam") [] in
      let legacy_limit = get_string endpoint (text "limitParam") [] in
      if is_empty legacy_since || is_empty legacy_limit
      then err (runtime_error (text "SyncContract: sync.endpoint.listQueryTemplate is required"))
      else ok (
          encode_segment legacy_since
          ++ (text "={since}&" ++ (encode_segment legacy_limit ++ text "={limit}")))

  abbrev conflict_of : Option (Value N) → SyncConflict
  conflict_of (some (object fs)) = record {
    strategy = get_string (object fs) (text "strategy") (text "lastWriteWins");
    conflict_field = get_string (object fs) (text "field") (text "updatedAt");
    field_explicit = has (object fs) (text "field");
  }
  conflict_of _ = default_conflict

  -- `readConflictDefaults`
  unfoldable pub read_conflict_defaults : Value N → SyncConflict
  read_conflict_defaults definition = conflict_of (get definition (text "conflict"))

  -- `parseConflict`
  unfoldable pub parse_conflict : Value N → Result SyncConflict
  parse_conflict definition =
      let conflict = read_conflict_defaults definition in
      if is_valid_conflict_strategy conflict.strategy
      then ok conflict
      else err (
          runtime_error (
            text "SyncContract: sync.conflict.strategy '"
            ++ (conflict.strategy ++ text "' is not supported")))

  -- `endpoint.has(name) ? requireString(endpoint, name) : fallback`
  unfoldable pub string_or_default : Value N → Bytes → Bytes → Result Bytes
  string_or_default endpoint name fallback =
      if has endpoint name then require_string endpoint name else ok fallback

  -- the item path of the endpoint, which must reference {id}
  unfoldable pub item_path_of : Value N → Result UrlTemplate
  item_path_of endpoint = do
    raw ← string_or_default endpoint (text "itemPathTemplate") (text "{basePath}/{id}")
    template ← parse item item_path_name raw
    require (references template (text "id")) (
        runtime_error (
          text "SyncContract: sync.endpoint.itemPathTemplate must reference {id} "
          ++ (em_dash ++ text " PATCH/DELETE address a single row")))
    ok template

  -- the raw list query, from the legacy parameters where they are allowed
  unfoldable pub list_query_raw : Value N → Bool → Result Bytes
  list_query_raw endpoint allow_legacy =
      let written = get_string endpoint (text "listQueryTemplate") [] in
      if is_empty written && allow_legacy then legacy_list_query_template endpoint else ok written

  -- the list query, which must reference {since} and {limit}
  unfoldable pub list_query_of : Value N → Bool → Result UrlTemplate
  list_query_of endpoint allow_legacy = do
    raw ← list_query_raw endpoint allow_legacy
    require (not (is_empty raw))
        (runtime_error (text "SyncContract: sync.endpoint.listQueryTemplate is required"))
    template ← parse list_query list_query_name raw
    require (references template (text "since") && references template (text "limit")) (
        runtime_error (
          text
            "SyncContract: sync.endpoint.listQueryTemplate must reference both {since} and {limit}"))
    ok template

module _ {N : Type 0} ⦃d : Double N⦄ where
  -- one of the two sizes: 20 unless `pagination` has it
  unfoldable pub size_of : Option (Value N) → Bytes → Result ℤ
  size_of none name = ok (pos 20)
  size_of (some pagination) name =
      if has pagination name
      then positive_size name (d.truncate (get_number pagination name (d.of_ℕ 20)))
      else ok (pos 20)

  -- `SyncContract::fromDefinition`, from the endpoint on
  unfoldable pub contract_of : Value N → Bool → Value N → Result SyncContract
  contract_of definition allow_legacy endpoint = do
    base_path ← require_string endpoint (text "basePath")
    item_path ← item_path_of endpoint
    list_query_template ← list_query_of endpoint allow_legacy
    cursor_field ← string_or_default endpoint (text "cursorField") (text "updatedAt")
    conflict ← parse_conflict definition
    page_size ← size_of (get definition (text "pagination")) (text "pageSize")
    max_pages ← size_of (get definition (text "pagination")) (text "maxPagesPerSession")
    ok (record {
      endpoint = record {
        base_path = base_path;
        item_path_template = item_path;
        list_query_template = list_query_template;
        extra_headers = parse_extra_headers endpoint;
        cursor_field = cursor_field;
      };
      conflict = conflict;
      page_size = page_size;
      max_pages_per_session = max_pages;
    })

  -- `SyncContract::fromDefinition`
  unfoldable pub from_definition : Value N → Bool → Result SyncContract
  from_definition definition allow_legacy = elim (get definition (text "endpoint")) [
    | none ↦ err (runtime_error (text "SyncContract: sync.endpoint is required"))
    | some endpoint ↦ contract_of definition allow_legacy endpoint
  ]
