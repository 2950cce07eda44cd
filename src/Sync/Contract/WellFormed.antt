-- ===== src/Sync/Contract/WellFormed.antt =====
-- The contracts that `SyncContract::fromDefinition` of cpp/sync/SyncContract.cpp accepts.
use react_native_salve_db.Prelude.{
  Bool, true, false, not, ◌&&◌, [], Option, none, some, Bytes, text, ℤ, pos, ltb_ℤ, ◌<ℤ◌, ok,
  require, require-true, >>=-eq-ok, >>=-elim-ok, is_empty, All, ◌≡◌, refl, arith, if-eq, inl, inr,
  Option-cases, sym, ltb→lt, ok-injective,
}
use react_native_salve_db.Json.{Value, get, has, get_string}
use react_native_salve_db.Json.Double.{Double}
use react_native_salve_db.Http.UrlTemplate.{
  UrlTemplate, Context, item, list_query, parse, references,
}
use react_native_salve_db.Http.UrlTemplate.Accepted.{IsGood, parse-IsGood}
use react_native_salve_db.Sync.Contract.{
  SyncContract, SyncConflict, require_string, string_or_default, item_path_name, item_path_of,
  list_query_name, list_query_raw, list_query_of, is_valid_conflict_strategy,
  read_conflict_defaults, parse_conflict, positive_size, size_of, contract_of, from_definition,
}

-- a template that was parsed in a context, with the tokens and the bytes that the context allows
pub record IsTemplate (context : Context) (t : UrlTemplate) : Type 0 where
  pub is_parsed : t.parsed ≡ true
  pub good : All (IsGood context) t.segments

pub record IsWellFormed (c : SyncContract) : Type 0 where
  pub base_path : is_empty c.endpoint.base_path ≡ false
  pub item_path : IsTemplate item c.endpoint.item_path_template
  pub item_id : references c.endpoint.item_path_template (text "id") ≡ true
  pub query : IsTemplate list_query c.endpoint.list_query_template
  pub query_since : references c.endpoint.list_query_template (text "since") ≡ true
  pub query_limit : references c.endpoint.list_query_template (text "limit") ≡ true
  pub cursor_field : is_empty c.endpoint.cursor_field ≡ false
  pub strategy : is_valid_conflict_strategy c.conflict.strategy ≡ true
  pub page_size : pos 0 <ℤ c.page_size
  pub max_pages : pos 0 <ℤ c.max_pages_per_session

parsed_template :
    (context : Context) (name raw : Bytes) {t : UrlTemplate}
    → parse context name raw ≡ ok t
    → IsTemplate context t
parsed_template context name raw e =
    let (is_parsed, good) = parse-IsGood context name raw e in
    record { is_parsed = is_parsed; good = good }

module _ {N : Type 0} where
  require_string-ne-nil :
      (endpoint : Value N) (name : Bytes) {v : Bytes}
      → require_string endpoint name ≡ ok v
      → is_empty v ≡ false
  unfolding require_string
  require_string-ne-nil endpoint name e =
      elim (if-eq (is_empty (get_string endpoint name [])) _ _ e) [
        | inl (b, x) ↦ cc
        | inr (b, x) ↦ rw (sym (ok-injective x)) b
      ]

  string_or_default-ne-nil :
      (endpoint : Value N) (name fallback : Bytes) {v : Bytes}
      → is_empty fallback ≡ false
      → string_or_default endpoint name fallback ≡ ok v
      → is_empty v ≡ false
  unfolding string_or_default
  string_or_default-ne-nil endpoint name fallback written e =
      elim (if-eq (has endpoint name) _ _ e) [
        | inl (b, x) ↦ require_string-ne-nil endpoint name x
        | inr (b, x) ↦ rw (sym (ok-injective x)) written
      ]

  item_path_of-IsTemplate :
      (endpoint : Value N) {t : UrlTemplate}
      → item_path_of endpoint ≡ ok t
      → IsTemplate item t × (references t (text "id") ≡ true)
  unfolding item_path_of
  item_path_of-IsTemplate endpoint e =
      let (raw, _, e₁) =
        >>=-eq-ok (string_or_default endpoint (text "itemPathTemplate") (text "{basePath}/{id}")) _
          e in
      let (t, made, e₂) = >>=-eq-ok (parse item item_path_name raw) _ e₁ in
      let (_, checked, e₃) = >>=-eq-ok (require (references t (text "id")) _) _ e₂ in
      rw (sym (ok-injective e₃))
        (parsed_template item item_path_name raw made, require-true _ _ checked)

  list_query_of-IsTemplate :
      (endpoint : Value N) (allow_legacy : Bool) {t : UrlTemplate}
      → list_query_of endpoint allow_legacy ≡ ok t
      → IsTemplate list_query t
        × (references t (text "since") ≡ true)
        × (references t (text "limit") ≡ true)
  unfolding list_query_of
  list_query_of-IsTemplate endpoint allow_legacy e =
      >>=-elim-ok (list_query_raw endpoint allow_legacy) _ e λ raw _ e₁.
        >>=-elim-ok (require (not (is_empty raw)) _) _ e₁ λ _ _ e₂.
          >>=-elim-ok (parse list_query list_query_name raw) _ e₂ λ t made e₃.
            >>=-elim-ok (require (references t (text "since") && references t (text "limit")) _) _
              e₃
              λ _ checked e₄.
                let both = require-true _ _ checked in
                rw (sym (ok-injective e₄))
                  (parsed_template list_query list_query_name raw made, ground arith, ground arith)

  parse_conflict-strategy :
      (definition : Value N) {c : SyncConflict}
      → parse_conflict definition ≡ ok c
      → is_valid_conflict_strategy c.strategy ≡ true
  unfolding parse_conflict
  parse_conflict-strategy definition e =
      elim (if-eq (is_valid_conflict_strategy ((read_conflict_defaults definition).strategy)) _ _
        e) [ inl (b, x) ↦ rw (sym (ok-injective x)) b | inr (b, x) ↦ cc ]

updated_at-ne-nil : is_empty (text "updatedAt") ≡ false
unfolding text
updated_at-ne-nil = refl

positive_size-lt : (name : Bytes) (size : ℤ) {z : ℤ} → positive_size name size ≡ ok z → pos 0 <ℤ z
positive_size-lt name size e = elim (if-eq (ltb_ℤ (pos 0) size) _ _ e) [
  | inl (b, x) ↦ rw (sym (ok-injective x)) (ltb→lt _ _ b)
  | inr (b, x) ↦ cc
]

module _ {N : Type 0} ⦃d : Double N⦄ where
  size_of-lt :
      (pagination : Option (Value N)) (name : Bytes) {z : ℤ}
      → size_of pagination name ≡ ok z
      → pos 0 <ℤ z
  unfolding size_of
  size_of-lt none name e = rw (sym (ok-injective e)) (omega arith)
  size_of-lt (some pagination) name e = elim (if-eq (has pagination name) _ _ e) [
    | inl (b, x) ↦ positive_size-lt name _ x
    | inr (b, x) ↦ rw (sym (ok-injective x)) (omega arith)
  ]

  contract_of-IsWellFormed :
      (definition : Value N) (allow_legacy : Bool) (endpoint : Value N) {c : SyncContract}
      → contract_of definition allow_legacy endpoint ≡ ok c
      → IsWellFormed c
  unfolding contract_of
  contract_of-IsWellFormed definition allow_legacy endpoint e =
      >>=-elim-ok (require_string endpoint (text "basePath")) _ e λ base h₁ e₁.
        >>=-elim-ok (item_path_of endpoint) _ e₁ λ path h₂ e₂.
          >>=-elim-ok (list_query_of endpoint allow_legacy) _ e₂ λ query h₃ e₃.
            >>=-elim-ok (string_or_default endpoint (text "cursorField") (text "updatedAt")) _ e₃
              λ cursor h₄ e₄. >>=-elim-ok (parse_conflict definition) _ e₄ λ conflict h₅ e₅.
                >>=-elim-ok (size_of (get definition (text "pagination")) (text "pageSize")) _ e₅
                  λ size h₆ e₆.
                    >>=-elim-ok
                      (size_of (get definition (text "pagination")) (text "maxPagesPerSession")) _
                      e₆
                      λ pages h₇ e₇. rw (sym (ok-injective e₇)) (record {
                        base_path = require_string-ne-nil endpoint (text "basePath") h₁;
                        item_path = (item_path_of-IsTemplate endpoint h₂).0;
                        item_id = (item_path_of-IsTemplate endpoint h₂).1;
                        query = (list_query_of-IsTemplate endpoint allow_legacy h₃).0;
                        query_since = (list_query_of-IsTemplate endpoint allow_legacy h₃).1;
                        query_limit = (list_query_of-IsTemplate endpoint allow_legacy h₃).2;
                        cursor_field =
                            string_or_default-ne-nil endpoint (text "cursorField")
                              (text "updatedAt") updated_at-ne-nil h₄;
                        strategy = parse_conflict-strategy definition h₅;
                        page_size =
                            size_of-lt (get definition (text "pagination")) (text "pageSize") h₆;
                        max_pages =
                            size_of-lt (get definition (text "pagination"))
                              (text "maxPagesPerSession") h₇;
                      })

  -- A contract that `fromDefinition` accepts is well formed, whether or not the legacy parameters
  -- are allowed: the base path and the cursor field are not empty, the item path is a template that
  -- references {id}, the list query one that references {since} and {limit}, the conflict strategy
  -- is one of the three, and both page sizes are positive.
  pub from_definition-IsWellFormed :
      (definition : Value N) (allow_legacy : Bool) {c : SyncContract}
      → from_definition definition allow_legacy ≡ ok c
      → IsWellFormed c
  unfolding from_definition
  from_definition-IsWellFormed definition allow_legacy e =
      elim (Option-cases (get definition (text "endpoint"))) [
        | inl missing ↦ cc (rw (from_definition, missing) at e)
        | inr (endpoint, found) ↦
            contract_of-IsWellFormed definition allow_legacy endpoint
              (rw (from_definition, found) at e)
      ]
