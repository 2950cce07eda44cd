-- ===== src/Schema/Ddl.antt =====
-- cpp/database/MigrationEngine.cpp: the statements that make and change the table of a schema.
use react_native_salve_db.Prelude.{
  Bool, not, ◌||◌, List, [], ◌∷◌, ◌++◌, Option, none, some, Bytes, text, str_eq, if◌then◌else◌,
}
use react_native_salve_db.OrderedMap.{OrderedMap}
use react_native_salve_db.Connection.Rows.{member}
use react_native_salve_db.Sync.Relations.{RelationDef}
use react_native_salve_db.Sync.Applier.Values.{quoted, joined_columns}
use react_native_salve_db.Schema.{ColumnDef, IndexDef}

-- texts one behind another, as an output stream has them
unfoldable pub cat : List Bytes → Bytes
cat [] = []
cat (t ∷ ts) = t ++ cat ts

-- `sqliteType`
unfoldable pub sqlite_type : Bytes → Bytes
sqlite_type t =
    if str_eq t (text "text")
    then text "TEXT"
    else if str_eq t (text "integer") || (str_eq t (text "boolean") || str_eq t (text "datetime"))
    then text "INTEGER"
    else if str_eq t (text "real")
    then text "REAL"
    else if str_eq t (text "blob")
    then text "BLOB"
    else text "TEXT"

abbrev flag_text : Bool → Bytes → Bytes
flag_text b t = if b then t else []

abbrev pub declared_default : Option Bytes → Bytes
declared_default none = []
declared_default (some literal) = text " DEFAULT " ++ literal

-- a column of the table that is made
unfoldable pub column_ddl : Bytes → Bytes → ColumnDef → Bytes
column_ddl primary_key name c = cat (
    text "  "
    ∷ quoted name
    ∷ text " "
    ∷ sqlite_type c.column_type
    ∷ flag_text (not c.nullable) (text " NOT NULL")
    ∷ flag_text c.unique (text " UNIQUE")
    ∷ declared_default c.default_literal
    ∷ flag_text (str_eq name primary_key) (text " PRIMARY KEY")
    ∷ [])

unfoldable pub columns_ddl : Bytes → OrderedMap ColumnDef → Bytes
columns_ddl primary_key [] = []
columns_ddl primary_key ((name, c) ∷ []) = column_ddl primary_key name c
columns_ddl primary_key ((name, c) ∷ e ∷ m) =
    cat (column_ddl primary_key name c ∷ text ",\n" ∷ columns_ddl primary_key (e ∷ m) ∷ [])

unfoldable pub create_table_statement : Bytes → Bytes → OrderedMap ColumnDef → Bytes
create_table_statement table primary_key columns = cat (
    text "CREATE TABLE IF NOT EXISTS "
    ∷ quoted table
    ∷ text " (\n"
    ∷ columns_ddl primary_key columns
    ∷ text "\n);"
    ∷ [])

unfoldable pub create_index_statement : Bytes → IndexDef → Bytes
create_index_statement table i = cat (
    text "CREATE "
    ∷ flag_text i.unique (text "UNIQUE ")
    ∷ text "INDEX IF NOT EXISTS "
    ∷ quoted i.name
    ∷ text " ON "
    ∷ quoted table
    ∷ text " ("
    ∷ joined_columns [] i.columns
    ∷ text ");"
    ∷ [])

-- what a column that is added gives the rows that are there
unfoldable pub added_default : ColumnDef → Option Bytes
added_default c = elim c.default_literal [
  | some literal ↦ some literal
  | none ↦
      if c.nullable
      then none
      else if str_eq c.column_type (text "integer")
          || (str_eq c.column_type (text "boolean")
              || (str_eq c.column_type (text "datetime") || str_eq c.column_type (text "real")))
      then some (text "0")
      else if str_eq c.column_type (text "blob")
      then some (text "(X'')")
      else some (text "''")
]

unfoldable pub add_column_statement : Bytes → Bytes → ColumnDef → Bytes
add_column_statement table name c = cat (
    text "ALTER TABLE "
    ∷ quoted table
    ∷ text " ADD COLUMN "
    ∷ quoted name
    ∷ text " "
    ∷ sqlite_type c.column_type
    ∷ declared_default (added_default c)
    ∷ [])

unfoldable pub unique_index_statement : Bytes → Bytes → Bytes
unique_index_statement table name = cat (
    text "CREATE UNIQUE INDEX IF NOT EXISTS "
    ∷ quoted (cat (table ∷ text "_" ∷ name ∷ text "_unique" ∷ []))
    ∷ text " ON "
    ∷ quoted table
    ∷ text " ("
    ∷ quoted name
    ∷ text ")"
    ∷ [])

-- the statements for one column that is missing
unfoldable pub add_column_statements : Bytes → Bytes → ColumnDef → List Bytes
add_column_statements table name c =
    add_column_statement table name c
    ∷ (if c.unique then unique_index_statement table name ∷ [] else [])

-- the columns that the table does not have
unfoldable pub missing_columns : List Bytes → OrderedMap ColumnDef → OrderedMap ColumnDef
missing_columns existing [] = []
missing_columns existing ((name, c) ∷ m) =
    let rest = missing_columns existing m in if member name existing then rest else (name, c) ∷ rest

-- the statements of `migrateTable`
unfoldable pub migration_statements : Bytes → OrderedMap ColumnDef → List Bytes
migration_statements table [] = []
migration_statements table ((name, c) ∷ m) =
    add_column_statements table name c ++ migration_statements table m

-- `createRelationIndexes`
unfoldable pub relation_index_statement : Bytes → RelationDef → Bytes
relation_index_statement table r = cat (
    text "CREATE INDEX IF NOT EXISTS "
    ∷ quoted (cat (table ∷ text "_" ∷ r.column ∷ text "_fk_idx" ∷ []))
    ∷ text " ON "
    ∷ quoted table
    ∷ text " ("
    ∷ quoted r.column
    ∷ text ")"
    ∷ [])

-- `createChangeNotificationTrigger`
unfoldable pub notification_trigger : Bytes → Bytes
notification_trigger table = cat (
    text "CREATE TRIGGER IF NOT EXISTS "
    ∷ quoted (table ++ text "_change_notify_delete")
    ∷ text "\nAFTER DELETE ON "
    ∷ quoted table
    ∷ text "\nBEGIN SELECT 1; END;"
    ∷ [])

-- `dropSyncTriggers`
unfoldable pub drop_trigger_statement : Bytes → Bytes → Bytes
drop_trigger_statement table event = cat (
    text "DROP TRIGGER IF EXISTS "
    ∷ quoted (cat (table ∷ text "_sync_after_" ∷ event ∷ []))
    ∷ text ";"
    ∷ [])

-- `buildJsonObjectArgs`
unfoldable pub json_object_args : Bytes → OrderedMap ColumnDef → Bytes
json_object_args row_alias [] = []
json_object_args row_alias ((name, c) ∷ []) =
    cat (text "'" ∷ name ∷ text "', " ∷ row_alias ∷ text "." ∷ quoted name ∷ [])
json_object_args row_alias ((name, c) ∷ e ∷ m) = cat (
    text "'"
    ∷ name
    ∷ text "', "
    ∷ row_alias
    ∷ text "."
    ∷ quoted name
    ∷ text ", "
    ∷ json_object_args row_alias (e ∷ m)
    ∷ [])

abbrev now_sql : Bytes
now_sql = text "CAST(strftime('%s','now') * 1000 AS INTEGER)"

-- One of the three triggers of `createSyncTriggers`: its event in capitals and small letters, the row
-- that it sees, the payload, and what it says of the row's operation and status.
unfoldable pub sync_trigger : Bytes → Bytes → Bytes → Bytes → Bytes → Bytes → Bytes → Bytes
sync_trigger table primary_key capitals event row_alias payload said =
    let key = cat (row_alias ∷ text "." ∷ quoted primary_key ∷ []) in
    cat (
      text "CREATE TRIGGER IF NOT EXISTS "
      ∷ quoted (cat (table ∷ text "_sync_after_" ∷ event ∷ []))
      ∷ text "\nAFTER "
      ∷ capitals
      ∷ text " ON "
      ∷ quoted table
      ∷ text "\nWHEN NOT EXISTS (SELECT 1 FROM _sync_apply_lock)\nBEGIN\n"
      ∷ text "  INSERT INTO sync_queue (operation, entity, entity_id, payload, updated_at)\n"
      ∷ text "  VALUES ('"
      ∷ event
      ∷ text "', '"
      ∷ table
      ∷ text "', "
      ∷ key
      ∷ text ",\n    json_object("
      ∷ payload
      ∷ text "),\n    "
      ∷ now_sql
      ∷ text ");\n  INSERT INTO _salve_sync_metadata\n"
      ∷ text
          "    (tableName, localId, entityId, remoteId, operation, status, retryCount, version, createdAt, updatedAt, syncedAt)\n"
      ∷ text "  VALUES ('"
      ∷ table
      ∷ text "', "
      ∷ key
      ∷ text ", "
      ∷ key
      ∷ text ", NULL,"
      ∷ said
      ∷ text "0, NULL,\n    "
      ∷ now_sql
      ∷ text ",\n    "
      ∷ now_sql
      ∷ text ", NULL)\n"
      ∷ text
          "  ON CONFLICT(tableName, entityId) DO UPDATE SET\n    operation = excluded.operation,\n"
      ∷ text "    status    = excluded.status,\n    updatedAt = excluded.updatedAt;\nEND;"
      ∷ [])

-- `createSyncTriggers`
unfoldable pub sync_triggers : Bytes → Bytes → OrderedMap ColumnDef → List Bytes
sync_triggers table primary_key columns =
    let row = json_object_args (text "NEW") columns in
    let old_key = cat (text "'" ∷ primary_key ∷ text "', OLD." ∷ quoted primary_key ∷ []) in
    sync_trigger table primary_key (text "INSERT") (text "insert") (text "NEW") row
      (text " 'insert', 'PENDING', ")
    ∷ sync_trigger table primary_key (text "UPDATE") (text "update") (text "NEW") row (
        cat (
          text "\n    CASE WHEN NEW.\"deletedAt\" IS NOT NULL THEN 'delete' ELSE 'update' END,\n"
          ∷ text
              "    CASE WHEN NEW.\"deletedAt\" IS NOT NULL THEN 'DELETED' ELSE 'PENDING' END,\n    "
          ∷ []))
    ∷ sync_trigger table primary_key (text "DELETE") (text "delete") (text "OLD") old_key
        (text " 'delete', 'DELETED', ")
    ∷ []
