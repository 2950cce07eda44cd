-- ===== src/Schema/Register.antt =====
-- cpp/database/MigrationEngine.cpp, `registerSchema`: the tables, triggers and entries of a schema, all in
-- one transaction. The connection is Database and MigrationStores, with the stores whose tables the
-- registration writes. Beside the world stands the process's registry of boolean columns.
pub mod Outcomes
use react_native_salve_db.Prelude.{
  ℕ, Bool, true, false, not, List, [], ◌∷◌, ◌++◌, Option, none, some, Bytes, text, str_eq, ℤ, pos,
  eq_ℤ, ltb_ℤ, Result, ok, err, Exception, if◌then◌else◌, is_empty,
}
use react_native_salve_db.Exec.{Exec, ◌>>=◌, ◌>>◌, pure, lift}
use react_native_salve_db.OrderedMap.{OrderedMap}
use react_native_salve_db.Json.{Value}
use react_native_salve_db.Json.Double.{Double}
use react_native_salve_db.Sql.{SqlValue, sql_string, sql_double, Database, QueryResult}
use react_native_salve_db.Connection.Rows.{
  FromInteger, SchemaRegistry, register_boolean_columns, member,
}
use react_native_salve_db.Sync.Applier.Values.{quoted}
use react_native_salve_db.Sync.Push.Snapshot.{nth, get_double_of}
use react_native_salve_db.Sync.Relations.{RelationDef}
use react_native_salve_db.Schema.{ColumnDef, IndexDef, SchemaDef}
use react_native_salve_db.Schema.Ddl.{
  create_table_statement, create_index_statement, missing_columns, migration_statements,
  notification_trigger, drop_trigger_statement, sync_triggers, relation_index_statement,
}
use react_native_salve_db.Schema.SystemTables.{
  system_tables, sync_metadata_entity_id_index, relations_table, relations_parent_index,
}

-- the connection's transactions and `exec`, and the stores of the cursors, metadata, definitions and
-- relations
pub record MigrationStores (W N : Type 0) : Type 0 where
  pub begin_transaction : Exec W (Unit {0})
  pub commit : Exec W (Unit {0})
  pub rollback : Exec W (Unit {0})
  pub exec : Bytes → Exec W (Unit {0})
  pub remove_all_cursors : Exec W (Unit {0})
  pub backfill_rows : Bytes → Bytes → Exec W (Unit {0})
  pub save_definition_of : Bytes → Value N → Exec W (Unit {0})
  pub remove_definition_of : Bytes → Exec W (Unit {0})
  pub replace_relations : Bytes → List RelationDef → Exec W (Unit {0})

-- the columns of the type boolean
unfoldable pub boolean_columns : OrderedMap ColumnDef → List Bytes
boolean_columns [] = []
boolean_columns ((name, c) ∷ m) =
    let rest = boolean_columns m in
    if str_eq c.column_type (text "boolean") then name ∷ rest else rest

abbrev pub index_statements : Bytes → List IndexDef → List Bytes
index_statements table [] = []
index_statements table (i ∷ is) = create_index_statement table i ∷ index_statements table is

abbrev pub relation_statements : Bytes → List RelationDef → List Bytes
relation_statements table [] = []
relation_statements table (r ∷ rs) = relation_index_statement table r ∷ relation_statements table rs

-- the sync engine's own entry among the versions
abbrev pub engine_key : Bytes
engine_key = text "_salve_sync_engine"

-- the names in the second column of `PRAGMA table_info`
unfoldable pub names_of : {N : Type 0} → List (List (SqlValue N)) → List Bytes
names_of [] = []
names_of ((c ∷ sql_string name ∷ row) ∷ rows) = name ∷ names_of rows
names_of (row ∷ rows) = names_of rows

module _ (N : Type 0) ⦃d : Double N⦄ where
  abbrev truncated : Result N → Result ℤ
  truncated (ok n) = ok (d.truncate n)
  truncated (err e) = err e

  -- 0 where there is no row
  unfoldable pub version_of : List (List (SqlValue N)) → Result ℤ
  version_of [] = ok (pos 0)
  version_of (row ∷ rows) = truncated (get_double_of (nth 0 row))

module _ {W : Type 0} (N : Type 0) ⦃d : Double N⦄ ⦃f : FromInteger N⦄ ⦃db : Database W N⦄
    ⦃m : MigrationStores W N⦄ where
  unfoldable pub exec_each : List Bytes → Exec W (Unit {0})
  exec_each [] = pure tt
  exec_each (sql ∷ sqls) = m.exec sql >> exec_each sqls

  -- `storedVersion`, `setStoredVersion`
  unfoldable pub stored_version : Bytes → Exec W ℤ
  stored_version name =
      db.execute (text "SELECT version FROM _salve_schema_versions WHERE name = ?")
        (sql_string name ∷ [])
      >>= λ result. lift (version_of N result.rows)

  unfoldable pub set_stored_version : Bytes → ℤ → Exec W (Unit {0})
  set_stored_version name version =
      db.execute
        (text "INSERT OR REPLACE INTO _salve_schema_versions (name, version) VALUES (?, ?)")
        (sql_string name ∷ sql_double (f.of_int64 version) ∷ [])
      >>= λ result. pure tt

  -- `existingColumns`
  unfoldable pub existing_columns : Bytes → Exec W (List Bytes)
  existing_columns table =
      db.execute (text "PRAGMA table_info(" ++ (quoted table ++ text ")")) [] >>= λ result.
      pure (names_of result.rows)

  -- `tableExists`
  unfoldable pub table_exists : Bytes → Exec W Bool
  table_exists table =
      db.execute (text "SELECT 1 FROM sqlite_master WHERE type = 'table' AND name = ?")
        (sql_string table ∷ [])
      >>= λ result. pure (not (is_empty result.rows))

  -- the metadata of an installation older than the column entityId
  unfoldable pub retro_metadata : Exec W (Unit {0})
  retro_metadata = existing_columns (text "_salve_sync_metadata") >>= λ columns.
      if member (text "entityId") columns
      then pure tt
      else exec_each (
          text "ALTER TABLE _salve_sync_metadata ADD COLUMN entityId TEXT NOT NULL DEFAULT ''"
          ∷ text "UPDATE _salve_sync_metadata SET entityId = localId WHERE entityId = ''"
          ∷ [])

  -- the queue of one older than the column status
  unfoldable pub retro_queue : Exec W (Unit {0})
  retro_queue = existing_columns (text "sync_queue") >>= λ columns.
      if member (text "status") columns
      then pure tt
      else exec_each (
          text "ALTER TABLE sync_queue ADD COLUMN status     TEXT    NOT NULL DEFAULT 'PENDING'"
          ∷ text "ALTER TABLE sync_queue ADD COLUMN retryCount INTEGER NOT NULL DEFAULT 0"
          ∷ text "ALTER TABLE sync_queue ADD COLUMN lastError  TEXT"
          ∷ [])

  -- cursors of the first engine are dropped once
  unfoldable pub upgrade_engine : Exec W (Unit {0})
  upgrade_engine = stored_version engine_key >>= λ version.
      if ltb_ℤ version (pos 2)
      then m.remove_all_cursors >> set_stored_version engine_key (pos 2)
      else pure tt

  -- everything that does not depend on the schema
  unfoldable pub prepare_system : Exec W (Unit {0})
  prepare_system =
      exec_each system_tables
      >> (retro_metadata
          >> (m.exec sync_metadata_entity_id_index
              >> (retro_queue
                  >> (upgrade_engine
                      >> exec_each (relations_table ∷ relations_parent_index ∷ [])))))

  module _ (schema : SchemaDef N) where
    -- `createTable`
    unfoldable pub create_table : Exec W (Unit {0})
    create_table = exec_each (
        create_table_statement schema.schema_name schema.primary_key schema.schema_columns
        ∷ index_statements schema.schema_name schema.indexes)

    -- `migrateTable`: whether a column was added
    unfoldable pub migrate_table : Exec W Bool
    migrate_table = existing_columns schema.schema_name >>= λ existing.
        let missing = missing_columns existing schema.schema_columns in
        exec_each (migration_statements schema.schema_name missing) >> pure (not (is_empty missing))

    -- A table without a version is made without a look whether it is there.
    unfoldable pub must_create : ℤ → Exec W Bool
    must_create stored =
        if eq_ℤ stored (pos 0)
        then pure true
        else (table_exists schema.schema_name >>= λ exists. pure (not exists))

    -- whether the columns have changed; the two branches of a table that is there are the same
    unfoldable pub prepare_table : ℤ → Exec W Bool
    prepare_table stored = must_create stored >>= λ absent.
        if absent then (create_table >> pure true) else migrate_table

    unfoldable pub drop_sync_triggers : Exec W (Unit {0})
    drop_sync_triggers = exec_each (
        drop_trigger_statement schema.schema_name (text "insert")
        ∷ drop_trigger_statement schema.schema_name (text "update")
        ∷ drop_trigger_statement schema.schema_name (text "delete")
        ∷ [])

    -- the metadata of rows from before the first synchronisation
    unfoldable pub backfill_once : Exec W (Unit {0})
    backfill_once =
        db.execute (text "SELECT 1 FROM _salve_sync_metadata WHERE tableName = ? LIMIT 1")
          (sql_string schema.schema_name ∷ [])
        >>= λ result.
            if is_empty result.rows
            then m.backfill_rows schema.schema_name schema.primary_key
            else pure tt

    -- the triggers of the synchronisation
    unfoldable pub prepare_triggers : Bool → Exec W (Unit {0})
    prepare_triggers columns_changed =
        if schema.sync.enabled
        then ((if columns_changed then drop_sync_triggers else pure tt)
            >> (exec_each
                  (sync_triggers schema.schema_name schema.primary_key schema.schema_columns)
                >> backfill_once))
        else drop_sync_triggers

    -- what the system's tables say of the schema
    unfoldable pub record_schema : ℤ → Exec W (Unit {0})
    record_schema stored =
        (if eq_ℤ schema.version stored
          then pure tt
          else set_stored_version schema.schema_name schema.version)
        >> ((if schema.sync.enabled
              then m.save_definition_of schema.schema_name schema.sync.definition
              else m.remove_definition_of schema.schema_name)
            >> (m.replace_relations schema.schema_name schema.relations
                >> exec_each (relation_statements schema.schema_name schema.relations)))

    -- between the transaction's beginning and its commit
    unfoldable pub migrate : Exec W (Unit {0})
    migrate =
        prepare_system
        >> (stored_version schema.schema_name >>= λ stored.
            prepare_table stored >>= λ columns_changed.
            m.exec (notification_trigger schema.schema_name)
            >> (prepare_triggers columns_changed >> record_schema stored))

    -- behind the transaction: the registry, or the destructor of TransactionGuard, which drops what
    -- the rollback throws
    abbrev pub settle :
        SchemaRegistry → Result (Unit {0}) × W → Result (Unit {0}) × (W × SchemaRegistry)
    settle r (ok u, w) = (
      ok u,
      (w, register_boolean_columns schema.schema_name (boolean_columns schema.schema_columns) r),
    )
    settle r (err e, w) = (err e, ((m.rollback w).1, r))

    -- what the transaction's beginning leads to
    abbrev pub after_begin :
        SchemaRegistry → Result (Unit {0}) × W → Result (Unit {0}) × (W × SchemaRegistry)
    after_begin r (ok u, w) = settle r ((migrate >> m.commit) w)
    after_begin r (err e, w) = (err e, (w, r))

    -- `registerSchema`
    unfoldable pub register_schema : Exec (W × SchemaRegistry) (Unit {0})
    register_schema (w, r) = after_begin r (m.begin_transaction w)
