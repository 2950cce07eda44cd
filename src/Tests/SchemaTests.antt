-- ===== src/Tests/SchemaTests.antt =====
-- A schema of one column and one relation, and a table that lacks two columns.
use react_native_salve_db.Prelude.{
  ◌≡◌, refl, true, false, [], ◌∷◌, none, Bytes, text, str_eq, ℤ, pos, ok,
}
use react_native_salve_db.OrderedMap.{OrderedMap, find, contains, assign}
use react_native_salve_db.Json.{null, get, has, get_string, get_bool, get_number, is_object}
use react_native_salve_db.Json.Parser.{json_parse}
use react_native_salve_db.Connection.Rows.{FromInteger}
use react_native_salve_db.Schema.{
  SchemaDef, ColumnDef, deleted_at_column, parse_schema_json, schema_of, schema_from, check_names,
  check_reserved, check_relation, parse_relations, parse_columns, parse_indexes, parse_sync,
  column_of, starts_with, is_declared,
}
use react_native_salve_db.Prelude.{All, List, ◌++◌}
use react_native_salve_db.OrderedMap.Laws.{keys}
use react_native_salve_db.Schema.Ddl.{
  missing_columns, migration_statements, add_column_statements, add_column_statement,
  unique_index_statement, added_default, sqlite_type, cat,
}
use react_native_salve_db.Connection.Rows.{member}
use react_native_salve_db.Schema.Missing.{IsHandled, migration-IsComplete}
use react_native_salve_db.Schema.WellFormed.{IsSchema, parse_schema_json-IsSchema}
use react_native_salve_db.Tests.Doubles.{integer_double}

instance unfoldable pub integers : FromInteger ℤ
integers = record { of_int64 = λ z. z }

abbrev source : Bytes
source =
    text
      "{\"name\":\"T\",\"primaryKey\":\"id\",\"columns\":{\"o\":{}},\"relations\":[{\"column\":\"o\",\"references\":\"P\"}]}"

abbrev any_text : ColumnDef
any_text = record {
  column_type = text "text";
  nullable = true;
  unique = false;
  has_def = false;
  default_literal = none;
}

abbrev pub schema : SchemaDef ℤ
schema = record {
  schema_name = text "T";
  version = pos 1;
  primary_key = text "id";
  schema_columns = (text "o", any_text) ∷ (text "deletedAt", deleted_at_column) ∷ [];
  indexes = [];
  relations = record { column = text "o"; references = text "P" } ∷ [];
  sync = record { enabled = false; definition = null };
}

accepted : parse_schema_json source ≡ ok schema
unfolding parse_schema_json schema_of schema_from check_names check_reserved check_relation
    parse_relations parse_columns parse_indexes parse_sync column_of starts_with is_declared text
    str_eq find contains assign get has get_string get_bool get_number is_object json_parse
    integer_double
accepted = refl

parse_schema_json-IsSchema_example : IsSchema schema
parse_schema_json-IsSchema_example = parse_schema_json-IsSchema source accepted

abbrev in_table : List Bytes
in_table = text "o" ∷ []

abbrev wanted : OrderedMap ColumnDef
wanted =
    (text "o", any_text)
    ∷ (
      text "n",
      record {
        column_type = text "blob";
        nullable = false;
        unique = true;
        has_def = false;
        default_literal = none;
      },
    )
    ∷ (text "deletedAt", deleted_at_column)
    ∷ []

statements : migration_statements (text "T") (missing_columns in_table wanted) ≡ (
    text "ALTER TABLE \"T\" ADD COLUMN \"n\" BLOB DEFAULT (X'')"
    ∷ text "CREATE UNIQUE INDEX IF NOT EXISTS \"T_n_unique\" ON \"T\" (\"n\")"
    ∷ text "ALTER TABLE \"T\" ADD COLUMN \"deletedAt\" INTEGER"
    ∷ [])
unfolding migration_statements missing_columns member add_column_statements add_column_statement
    unique_index_statement added_default sqlite_type cat text str_eq
statements = refl

migration-IsComplete_example :
    let added = missing_columns in_table wanted in
    All (IsHandled in_table (text "T") (migration_statements (text "T") added)) wanted
    × All (λ e. member e.0 in_table ≡ false) added
    × (migration_statements (text "T") (missing_columns (in_table ++ keys added) wanted) ≡ [])
migration-IsComplete_example = migration-IsComplete in_table (text "T") wanted
