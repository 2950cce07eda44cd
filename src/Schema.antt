-- ===== src/Schema.antt =====
-- cpp/database/MigrationEngine.cpp, `parseSchemaJson`: a schema read from its JSON text.
pub mod WellFormed
pub mod Ddl
pub mod Missing
pub mod SystemTables
pub mod Register
use react_native_salve_db.Prelude.{
  ℕ, Bool, true, false, not, ◌&&◌, ◌||◌, List, [], ◌∷◌, ◌++◌, Option, none, some, Bytes, text,
  em_dash, str_eq, ℤ, int_text, Exception, Result, ok, err, runtime_error, if◌then◌else◌, ◌==◌,
  ◌>>=◌, is_empty, require, ◌>>◌,
}
use react_native_salve_db.OrderedMap.{OrderedMap, find, contains, assign}
use react_native_salve_db.Json.{
  Value, Items, bool, number, string, array, object, null, elements, entries, is_object, get, has,
  get_string, get_bool, get_number,
}
use react_native_salve_db.Json.Double.{Double}
use react_native_salve_db.Json.Parser.{json_parse}
use react_native_salve_db.Connection.Rows.{FromInteger}
use react_native_salve_db.Sync.Contract.{SyncContract, from_definition}
use react_native_salve_db.Sync.Relations.{RelationDef}

pub record ColumnDef : Type 0 where
  pub column_type : Bytes
  pub nullable : Bool
  pub unique : Bool
  pub has_def : Bool
  pub default_literal : Option Bytes

pub record IndexDef : Type 0 where
  pub name : Bytes
  pub columns : List Bytes
  pub unique : Bool

pub record SyncSettings (N : Type 0) : Type 0 where
  pub enabled : Bool
  pub definition : Value N

pub record SchemaDef (N : Type 0) : Type 0 where
  pub schema_name : Bytes
  pub version : ℤ
  pub primary_key : Bytes
  pub schema_columns : OrderedMap ColumnDef
  pub indexes : List IndexDef
  pub relations : List RelationDef
  pub sync : SyncSettings N

abbrev schema_error : Bytes → Exception
schema_error message = runtime_error (text "registerSchema: " ++ message)

-- `rfind(prefix, 0) == 0`
unfoldable pub starts_with : Bytes → Bytes → Bool
starts_with [] s = true
starts_with (p ∷ ps) [] = false
starts_with (p ∷ ps) (c ∷ s) = p == c && starts_with ps s

-- a quote is doubled
unfoldable pub double_quotes : Bytes → Bytes
double_quotes [] = []
double_quotes (c ∷ s) =
    let rest = double_quotes s in if c == b'\'' then b'\'' ∷ b'\'' ∷ rest else c ∷ rest

-- the column that is added to every schema
abbrev pub deleted_at_column : ColumnDef
deleted_at_column = record {
  column_type = text "datetime";
  nullable = true;
  unique = false;
  has_def = false;
  default_literal = none;
}

unfoldable pub is_declared : Bytes → List RelationDef → Bool
is_declared column [] = false
is_declared column (r ∷ relations) =
    let rest = is_declared column relations in if str_eq r.column column then true else rest

-- a NOT NULL column of dates
unfoldable pub is_timestamp : Option ColumnDef → Bool
is_timestamp none = false
is_timestamp (some c) = str_eq c.column_type (text "datetime") && not c.nullable

unfoldable pub timestamp_error : SyncContract → Exception
timestamp_error contract = schema_error (
    text "sync.conflict.strategy 'lastWriteWins' requires a NOT NULL 'datetime' column named '"
    ++ (contract.conflict.conflict_field
        ++ (text "'"
            ++ (if contract.conflict.field_explicit
                then []
                else text " ('"
                  ++ (contract.conflict.conflict_field
                      ++ (text "' is the default when sync.conflict.field is not set "
                          ++ (em_dash
                              ++ text
                                  " pass a different sync.conflict.field to use another column instead)")))))))

-- where the strategy is lastWriteWins, its field has to be such a column
unfoldable pub check_contract : OrderedMap ColumnDef → SyncContract → Result (Unit {0})
check_contract columns contract =
    if str_eq contract.conflict.strategy (text "lastWriteWins")
    then require (is_timestamp (find contract.conflict.conflict_field columns))
        (timestamp_error contract)
    else ok tt

-- what a relation must satisfy behind the ones before it
unfoldable pub check_relation :
    OrderedMap ColumnDef → List RelationDef → RelationDef → Result (Unit {0})
check_relation columns before r =
    require (not (is_empty r.references)) (schema_error (text "relation 'references' is required"))
    >> (require (contains r.column columns) (
          schema_error
            (text "relation column '" ++ (r.column ++ text "' is not a declared column")))
        >> require (not (is_declared r.column before))
            (schema_error (text "relation column '" ++ (r.column ++ text "' is already declared"))))

-- what is required of the name and of the primary key
unfoldable pub check_names : Bytes → Bytes → Result (Unit {0})
check_names name primary_key =
    require (not (is_empty name)) (schema_error (text "'name' is required"))
    >> (require (not (starts_with (text "_salve") name))
          (schema_error (text "schema names starting with '_salve' are reserved for system tables"))
        >> require (not (is_empty primary_key)) (schema_error (text "'primaryKey' is required")))

unfoldable pub check_reserved : OrderedMap ColumnDef → Result (Unit {0})
check_reserved columns =
    require (not (contains (text "deletedAt") columns))
      (schema_error (text "'deletedAt' is a reserved column managed by SalveDb"))

module _ {N : Type 0} where
  -- the members of an object, and the elements of an array; nothing of another value
  abbrev pub object_members : Option (Value N) → OrderedMap (Value N)
  object_members (some (object fs)) = entries fs
  object_members _ = []

  abbrev pub array_elements : Option (Value N) → List (Value N)
  array_elements (some (array xs)) = elements xs
  array_elements _ = []

  unfoldable pub index_columns : List (Value N) → List Bytes
  index_columns [] = []
  index_columns (string s ∷ vs) = s ∷ index_columns vs
  index_columns (v ∷ vs) = index_columns vs

  -- the loop over the indexes: those with a name and a column
  unfoldable pub parse_indexes : List (Value N) → List IndexDef
  parse_indexes [] = []
  parse_indexes (v ∷ vs) =
      let rest = parse_indexes vs in
      let name = get_string v (text "name") [] in
      let columns = index_columns (array_elements (get v (text "columns"))) in
      if is_object v && (not (is_empty name) && not (is_empty columns))
      then record { name = name; columns = columns; unique = get_bool v (text "unique") false }
        ∷ rest
      else rest

  -- the loop over the relations
  unfoldable pub parse_relations :
      OrderedMap ColumnDef → List RelationDef → List (Value N) → Result (List RelationDef)
  parse_relations columns before [] = ok before
  parse_relations columns before (v ∷ vs) =
      let r : RelationDef = record {
        column = get_string v (text "column") [];
        references = get_string v (text "references") [];
      } in
      let added = before ++ (r ∷ []) in
      let after = parse_relations columns added vs in
      let skipped = parse_relations columns before vs in
      if not (is_object v) then skipped else (check_relation columns before r >> after)

module _ {N : Type 0} ⦃d : Double N⦄ ⦃f : FromInteger N⦄ where
  -- `formatDefaultLiteral`
  unfoldable pub format_default_literal : Value N → Bytes
  format_default_literal (string s) = b'\'' ∷ (double_quotes s ++ b'\'' ∷ [])
  format_default_literal (bool b) = if b then text "1" else text "0"
  format_default_literal (number n) =
      if d.eq n (f.of_int64 (d.truncate n)) then int_text (d.truncate n) else d.print_17 n
  format_default_literal _ = text "NULL"

  abbrev default_of : Option (Value N) → Option Bytes
  default_of none = none
  default_of (some v) = some (format_default_literal v)

  -- a column from its member
  unfoldable pub column_of : Value N → ColumnDef
  column_of v = record {
    column_type = get_string v (text "type") (text "text");
    nullable = get_bool v (text "nullable") true;
    unique = get_bool v (text "unique") false;
    has_def = has v (text "default");
    default_literal = default_of (get v (text "default"));
  }

  -- the loop over the columns
  unfoldable pub parse_columns : OrderedMap ColumnDef → OrderedMap (Value N) → OrderedMap ColumnDef
  parse_columns columns [] = columns
  parse_columns columns ((k, v) ∷ m) = parse_columns (assign k (column_of v) columns) m

  -- the member `sync`
  unfoldable pub parse_sync : OrderedMap ColumnDef → Option (Value N) → Result (SyncSettings N)
  parse_sync columns (some (object fs)) = do
    let settings : SyncSettings N = record {
      enabled = get_bool (object fs) (text "enabled") false;
      definition = object fs;
    }
    let checked = from_definition settings.definition false >>= check_contract columns
    if settings.enabled then (checked >> ok settings) else ok settings
  parse_sync columns _ = ok record { enabled = false; definition = null }

  abbrev pub columns_of : Value N → OrderedMap ColumnDef
  columns_of root = parse_columns [] (object_members (get root (text "columns")))

  -- the schema, once everything is checked
  unfoldable pub schema_from : Value N → List RelationDef → SyncSettings N → SchemaDef N
  schema_from root relations sync = record {
    schema_name = get_string root (text "name") [];
    version = d.truncate (get_number root (text "version") (d.of_ℕ 1));
    primary_key = get_string root (text "primaryKey") [];
    schema_columns = assign (text "deletedAt") deleted_at_column (columns_of root);
    indexes = parse_indexes (array_elements (get root (text "indexes")));
    relations = relations;
    sync = sync;
  }

  -- `parseSchemaJson`, behind the parser
  unfoldable pub schema_of : Value N → Result (SchemaDef N)
  schema_of root =
      require (is_object root) (schema_error (text "JSON must be an object"))
      >> (check_names (get_string root (text "name") []) (get_string root (text "primaryKey") [])
          >> (parse_relations (columns_of root) [] (array_elements (get root (text "relations")))
              >>= λ relations. parse_sync (columns_of root) (get root (text "sync")) >>= λ sync.
                  check_reserved (columns_of root) >> ok (schema_from root relations sync)))

  -- `parseSchemaJson`
  unfoldable pub parse_schema_json : Bytes → Result (SchemaDef N)
  parse_schema_json source = json_parse source >>= schema_of
