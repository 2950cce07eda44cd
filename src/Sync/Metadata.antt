-- ===== src/Sync/Metadata.antt =====
-- cpp/database/SalveMetadataManager.cpp: the table `_salve_sync_metadata` as the list of its rows, each
-- statement as the operation on rows that its text states. The table has two unique keys, (tableName,
-- localId) and (tableName, entityId); what SQLite throws when a statement would break one is a parameter.
pub mod Lookup
use react_native_salve_db.Prelude.{
  ℕ, suc, Bool, true, false, not, ◌&&◌, ◌||◌, List, [], ◌∷◌, ◌++◌, Option, none, some, Bytes, text,
  str_eq, ℤ, pos, eq_ℤ, Exception, Result, ok, err, if◌then◌else◌, is_some, is_empty, ◌>>=◌,
}

-- `SyncMetadataRow`, and a row of the table
pub record SyncMetadataRow : Type 0 where
  pub table_name : Bytes
  pub local_id : Bytes
  pub entity_id : Bytes
  pub remote_id : Option Bytes
  pub operation : Bytes
  pub status : Bytes
  pub retry_count : ℕ
  pub last_error : Option Bytes
  pub version : Option ℤ
  pub created_at : ℤ
  pub updated_at : ℤ
  pub synced_at : Option ℤ

abbrev pub MetadataTable : Type 0
MetadataTable = List SyncMetadataRow

-- `WHERE tableName = ? AND localId = ?`
unfoldable pub has_local : Bytes → Bytes → SyncMetadataRow → Bool
has_local t l r = str_eq r.table_name t && str_eq r.local_id l

unfoldable pub has_entity : Bytes → Bytes → SyncMetadataRow → Bool
has_entity t e r = str_eq r.table_name t && str_eq r.entity_id e

-- the first row of a `SELECT`
abbrev pub find_row : (SyncMetadataRow → Bool) → MetadataTable → Option SyncMetadataRow
find_row p [] = none
find_row p (r ∷ rows) = if p r then some r else find_row p rows

-- `UPDATE … SET … WHERE`
abbrev pub update_rows :
    (SyncMetadataRow → Bool) → (SyncMetadataRow → SyncMetadataRow) → MetadataTable → MetadataTable
update_rows p f [] = []
update_rows p f (r ∷ rows) = let rest = update_rows p f rows in if p r then f r ∷ rest else r ∷ rest

-- an update of the row at a local id would give it the entity id of another row
unfoldable pub entity_is_taken : Bytes → Bytes → Bytes → MetadataTable → Bool
entity_is_taken t l e rows =
    is_some (find_row (λ r. has_entity t e r && not (has_local t l r)) rows)

abbrev pub text_or_none : Option Bytes → Option Bytes
text_or_none none = none
text_or_none (some s) = if is_empty s then none else some s

abbrev pub number_or_none : Option ℤ → Option ℤ
number_or_none none = none
number_or_none (some z) = if eq_ℤ z (pos 0) then none else some z

-- `rowToMetadata`: an empty text or a zero counts as missing
unfoldable pub row_to_metadata : SyncMetadataRow → SyncMetadataRow
row_to_metadata r = record r {
  remote_id = text_or_none r.remote_id;
  last_error = text_or_none r.last_error;
  version = number_or_none r.version;
  synced_at = number_or_none r.synced_at;
}

abbrev pub read_row : Option SyncMetadataRow → Option SyncMetadataRow
read_row none = none
read_row (some r) = some (row_to_metadata r)

-- `getByLocalId`
unfoldable pub get_by_local_id : Bytes → Bytes → MetadataTable → Option SyncMetadataRow
get_by_local_id t l rows = read_row (find_row (has_local t l) rows)

abbrev pub has_remote : Bytes → Option Bytes → Bool
has_remote id none = false
has_remote id (some x) = str_eq x id

-- `getByRemoteId`
unfoldable pub get_by_remote_id : Bytes → Bytes → MetadataTable → Option SyncMetadataRow
get_by_remote_id t id rows =
    read_row (find_row (λ r. str_eq r.table_name t && has_remote id r.remote_id) rows)

-- `markDeletedSynced`
unfoldable pub mark_deleted_synced : Bytes → Bytes → ℤ → MetadataTable → MetadataTable
mark_deleted_synced t l now =
    update_rows (has_local t l) (λ r. record r { synced_at = some now; updated_at = now })

-- `CASE WHEN status = 'DELETED' THEN 'DELETED' ELSE 'FAILED' END`
unfoldable pub failed_status : Bytes → Bytes
failed_status status = if str_eq status (text "DELETED") then text "DELETED" else text "FAILED"

-- `markFailed`
unfoldable pub mark_failed : Bytes → Bytes → Bytes → ℤ → MetadataTable → MetadataTable
mark_failed t l error now = update_rows (has_local t l) (λ r. record r {
  status = failed_status r.status;
  retry_count = suc r.retry_count;
  last_error = some error;
  updated_at = now;
})

-- the row that `markPulledSynced` inserts
unfoldable pub pulled_row : Bytes → Bytes → Bytes → ℤ → SyncMetadataRow
pulled_row t e status now = record {
  table_name = t;
  local_id = e;
  entity_id = e;
  remote_id = some e;
  operation = if str_eq status (text "DELETED") then text "delete" else text "insert";
  status = status;
  retry_count = 0;
  last_error = none;
  version = none;
  created_at = now;
  updated_at = now;
  synced_at = some now;
}

abbrev pub pulled : Bytes → Bytes → ℤ → SyncMetadataRow → SyncMetadataRow
pulled e status now r = record r {
  remote_id = some e;
  status = status;
  synced_at = some now;
  updated_at = now;
}

abbrev pub pulled_entity : Bytes → Bytes → ℤ → SyncMetadataRow → SyncMetadataRow
pulled_entity e status now r = record (pulled e status now r) { entity_id = e }

-- `markPulledSynced`: the first of its two conflict clauses that applies, or the insertion
unfoldable pub mark_pulled_synced : Bytes → Bytes → Bytes → ℤ → MetadataTable → MetadataTable
mark_pulled_synced t e status now rows =
    if is_some (find_row (has_entity t e) rows)
    then update_rows (has_entity t e) (pulled e status now) rows
    else if is_some (find_row (has_local t e) rows)
    then update_rows (has_local t e) (pulled_entity e status now) rows
    else rows ++ (pulled_row t e status now ∷ [])

-- the row of a table's primary key that `backfillSyncedRows` inserts
unfoldable pub backfilled_row : Bytes → Bytes → ℤ → SyncMetadataRow
backfilled_row t pk now = record {
  table_name = t;
  local_id = pk;
  entity_id = pk;
  remote_id = none;
  operation = text "insert";
  status = text "PENDING";
  retry_count = 0;
  last_error = none;
  version = none;
  created_at = now;
  updated_at = now;
  synced_at = none;
}

module _ (constraint : Exception) where
  -- an insertion that has no conflict clause for the keys
  unfoldable pub insert_row : SyncMetadataRow → MetadataTable → Result MetadataTable
  insert_row r rows =
      if is_some (find_row (has_local r.table_name r.local_id) rows)
        || is_some (find_row (has_entity r.table_name r.entity_id) rows)
      then err constraint
      else ok (rows ++ (r ∷ []))

  -- an update of the row at a local id, which gives it an entity id
  unfoldable pub update_entity_at :
      Bytes
      → Bytes
      → Bytes
      → (SyncMetadataRow → SyncMetadataRow)
      → MetadataTable
      → Result MetadataTable
  update_entity_at t l e f rows =
      if is_some (find_row (has_local t l) rows) && entity_is_taken t l e rows
      then err constraint
      else ok (update_rows (has_local t l) f rows)

  -- `upsert`: a row that is there keeps its time of creation
  unfoldable pub upsert : SyncMetadataRow → MetadataTable → Result MetadataTable
  upsert r rows =
      if is_some (find_row (has_local r.table_name r.local_id) rows)
      then update_entity_at r.table_name r.local_id r.entity_id
          (λ old. record r { created_at = old.created_at }) rows
      else insert_row r rows

  -- `markReplaced`
  unfoldable pub mark_replaced : Bytes → Bytes → Bytes → ℤ → MetadataTable → Result MetadataTable
  mark_replaced t l e now = update_entity_at t l e (λ r. record r {
    entity_id = e;
    remote_id = some e;
    status = text "SYNCED";
    synced_at = some now;
    updated_at = now;
  })

  -- the rows of the `SELECT`: those of the primary keys that no local id has
  unfoldable pub backfill :
      Bytes → ℤ → MetadataTable → List Bytes → MetadataTable → Result MetadataTable
  backfill t now before [] rows = ok rows
  backfill t now before (pk ∷ pks) rows =
      let added = insert_row (backfilled_row t pk now) rows in
      let skipped = backfill t now before pks rows in
      if is_some (find_row (has_local t pk) before)
      then skipped
      else (added >>= λ rows'. backfill t now before pks rows')

  -- `backfillSyncedRows`, given the primary keys of the table
  unfoldable pub backfill_synced_rows :
      Bytes → List Bytes → ℤ → MetadataTable → Result MetadataTable
  backfill_synced_rows t pks now rows = backfill t now rows pks rows
