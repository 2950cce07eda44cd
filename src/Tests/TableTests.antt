-- ===== src/Tests/TableTests.antt =====
-- The theorems on the metadata and on the queue at concrete rows.
use react_native_salve_db.Prelude.{
  is_empty, false, ◌≡◌, ◌≢◌, refl, List, [], ◌∷◌, none, some, Bytes, text, str_eq, ℤ, pos, ok,
  Exception, runtime_error, All,
}
use react_native_salve_db.Sync.Push.{SyncQueueItem}
use react_native_salve_db.Sync.Metadata.{
  SyncMetadataRow, MetadataTable, has_local, has_entity, find_row, get_by_local_id, mark_replaced,
  update_entity_at, entity_is_taken,
}
use react_native_salve_db.Sync.Metadata.Lookup.{acknowledged, get_by_local_id-mark_replaced}
use react_native_salve_db.Sync.Queue.{QueueRow, QueueTable, read_pending, mark_blocked, remove}
use react_native_salve_db.Sync.Queue.Pending.{
  IsPending, read_pending-IsPending, read_pending-settled,
}

abbrev constraint : Exception
constraint = runtime_error (text "SQLITE_CONSTRAINT")

abbrev local_row : Bytes → SyncMetadataRow
local_row id = record {
  table_name = text "T";
  local_id = id;
  entity_id = id;
  remote_id = none;
  operation = text "insert";
  status = text "PENDING";
  retry_count = 0;
  last_error = none;
  version = none;
  created_at = pos 1;
  updated_at = pos 1;
  synced_at = none;
}

abbrev rows : MetadataTable
rows = local_row (text "a") ∷ local_row (text "b") ∷ []

abbrev replaced_rows : MetadataTable
replaced_rows = local_row (text "a") ∷ acknowledged (text "9") (pos 5) (local_row (text "b")) ∷ []

replacing :
    mark_replaced constraint (text "T") (text "b") (text "9") (pos 5) rows ≡ ok replaced_rows
unfolding mark_replaced update_entity_at entity_is_taken has_local has_entity text str_eq
replacing = refl

named : is_empty (text "9") ≡ false
unfolding text
named = refl

found : find_row (has_local (text "T") (text "b")) rows ≡ some (local_row (text "b"))
unfolding has_local text str_eq
found = refl

get_by_local_id-mark_replaced_example :
    let r = local_row (text "b") in
    ((x : SyncMetadataRow) × (get_by_local_id (text "T") (text "b") replaced_rows ≡ some x)
      × (x.table_name ≡ r.table_name)
      × (x.local_id ≡ r.local_id)
      × (x.entity_id ≡ text "9")
      × (x.remote_id ≡ some (text "9"))
      × (x.status ≡ text "SYNCED")
      × (x.updated_at ≡ pos 5)
      × (x.operation ≡ r.operation)
      × (x.created_at ≡ r.created_at))
    × ((other : Bytes)
        → str_eq (text "b") other ≡ false
        → get_by_local_id (text "T") other replaced_rows ≡ get_by_local_id (text "T") other rows)
get_by_local_id-mark_replaced_example =
    get_by_local_id-mark_replaced constraint (text "T") (text "b") (text "9") (pos 5) rows
      (local_row (text "b")) named found replacing

abbrev queued : ℤ → Bytes → Bytes → QueueRow
queued id entity_id status = record {
  id = id;
  operation = text "insert";
  entity = text "T";
  entity_id = entity_id;
  status = status;
  retry_count = 0;
  last_error = none;
}

abbrev queue : QueueTable
queue = queued (pos 2) (text "a") (text "PENDING") ∷ queued (pos 1) (text "b") (text "FAILED") ∷ []

read_pending-IsPending_example :
    (items : List SyncQueueItem) × (read_pending (text "T") (pos 5) queue rows ≡ ok items)
    × IsPending (text "T") 5 queue items
read_pending-IsPending_example = read_pending-IsPending (text "T") 5 queue rows

read_pending-settled_example :
    ((items : List SyncQueueItem) × (read_pending
          (text "T")
          (pos 5)
          (mark_blocked (pos 2) (text "HTTP 404") queue)
          rows
        ≡ ok items)
      × All (λ item. item.id ≢ pos 2) items)
    × ((items : List SyncQueueItem) × (read_pending (text "T") (pos 5) (remove (pos 2) queue) rows
          ≡ ok items)
        × All (λ item. item.id ≢ pos 2) items)
read_pending-settled_example =
    read_pending-settled (pos 2) (text "HTTP 404") (text "T") 5 queue rows
