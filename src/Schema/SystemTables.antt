-- ===== src/Schema/SystemTables.antt =====
-- cpp/database/MigrationEngine.cpp: the tables that the library keeps for itself.
use react_native_salve_db.Prelude.{List, [], ◌∷◌, Bytes, text}

-- `kVersionTable`
unfoldable pub version_table : Bytes
version_table =
    text
      "\n  CREATE TABLE IF NOT EXISTS _salve_schema_versions (\n    name    TEXT PRIMARY KEY,\n    version INTEGER NOT NULL\n  );\n"

-- `kSyncQueueTable`
unfoldable pub sync_queue_table : Bytes
sync_queue_table =
    text
      "\n  CREATE TABLE IF NOT EXISTS sync_queue (\n    id         INTEGER PRIMARY KEY AUTOINCREMENT,\n    operation  TEXT    NOT NULL,\n    entity     TEXT    NOT NULL,\n    entity_id  TEXT    NOT NULL,\n    payload    TEXT    NOT NULL,\n    updated_at INTEGER NOT NULL,\n    status     TEXT    NOT NULL DEFAULT 'PENDING',\n    retryCount INTEGER NOT NULL DEFAULT 0,\n    lastError  TEXT\n  );\n"

-- `kSyncQueueEntityIndex`
unfoldable pub sync_queue_entity_index : Bytes
sync_queue_entity_index =
    text "\n  CREATE INDEX IF NOT EXISTS idx_sync_queue_entity_id ON sync_queue (entity, id);\n"

-- `kSyncApplyLockTable`
unfoldable pub sync_apply_lock_table : Bytes
sync_apply_lock_table =
    text
      "\n  CREATE TABLE IF NOT EXISTS _sync_apply_lock (\n    id INTEGER PRIMARY KEY CHECK (id = 1)\n  );\n"

-- `kSyncCursorTable`
unfoldable pub sync_cursor_table : Bytes
sync_cursor_table =
    text
      "\n  CREATE TABLE IF NOT EXISTS _salve_sync_cursors (\n    entity TEXT PRIMARY KEY,\n    cursor TEXT NOT NULL\n  );\n"

-- `kSyncDefinitionTable`
unfoldable pub sync_definition_table : Bytes
sync_definition_table =
    text
      "\n  CREATE TABLE IF NOT EXISTS _salve_sync_definitions (\n    name       TEXT PRIMARY KEY,\n    definition TEXT NOT NULL\n  );\n"

-- `kSyncMetadataTable`
unfoldable pub sync_metadata_table : Bytes
sync_metadata_table =
    text
      "\n  CREATE TABLE IF NOT EXISTS _salve_sync_metadata (\n    tableName  TEXT NOT NULL,\n    localId    TEXT NOT NULL,\n    entityId   TEXT NOT NULL,\n    remoteId   TEXT,\n    operation  TEXT NOT NULL,\n    status     TEXT NOT NULL,\n    retryCount INTEGER DEFAULT 0,\n    lastError  TEXT,\n    version    INTEGER,\n    createdAt  INTEGER NOT NULL,\n    updatedAt  INTEGER NOT NULL,\n    syncedAt   INTEGER,\n    PRIMARY KEY (tableName, localId)\n  );\n"

-- `kSyncMetadataRemoteIdIndex`
unfoldable pub sync_metadata_remote_id_index : Bytes
sync_metadata_remote_id_index =
    text
      "\n  CREATE INDEX IF NOT EXISTS idx_salve_sync_metadata_remote_id\n    ON _salve_sync_metadata (tableName, remoteId);\n"

-- `kSyncMetadataEntityIdIndex`
unfoldable pub sync_metadata_entity_id_index : Bytes
sync_metadata_entity_id_index =
    text
      "\n  CREATE UNIQUE INDEX IF NOT EXISTS idx_salve_sync_metadata_entity_id\n    ON _salve_sync_metadata (tableName, entityId);\n"

-- `kRelationsTable`
unfoldable pub relations_table : Bytes
relations_table =
    text
      "\n  CREATE TABLE IF NOT EXISTS _salve_relations (\n    childTable  TEXT NOT NULL,\n    fkColumn    TEXT NOT NULL,\n    parentTable TEXT NOT NULL,\n    PRIMARY KEY (childTable, fkColumn)\n  );\n"

-- `kRelationsParentIndex`
unfoldable pub relations_parent_index : Bytes
relations_parent_index =
    text
      "\n  CREATE INDEX IF NOT EXISTS idx_salve_relations_parent\n    ON _salve_relations (parentTable);\n"

-- the ones that come first in `registerSchema`
abbrev pub system_tables : List Bytes
system_tables =
    version_table ∷ sync_queue_table ∷ sync_queue_entity_index ∷ sync_apply_lock_table
    ∷ sync_cursor_table ∷ sync_definition_table ∷ sync_metadata_table
    ∷ sync_metadata_remote_id_index ∷ []
