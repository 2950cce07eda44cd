-- ===== src/Sync/Queue.antt =====
-- cpp/sync/SyncQueueStore.cpp: the table `sync_queue` as the list of its rows, each statement as the
-- operation on rows that its text states. Of the columns, `payload` and `updated_at` are left out: no
-- statement here reads or changes them.
pub mod Items
pub mod Pending
use react_native_salve_db.Prelude.{
  ℕ, zero, suc, Bool, true, false, not, ◌&&◌, ◌||◌, List, [], ◌∷◌, ◌++◌, Option, none, some, Bytes,
  text, str_eq, ℤ, pos, negsuc, eq_ℤ, ltb_ℤ, int_text, Exception, Result, ok, err, runtime_error,
  if◌then◌else◌, take, map,
}
use react_native_salve_db.Sync.Metadata.{SyncMetadataRow, MetadataTable, has_entity}
use react_native_salve_db.Sync.Push.{SyncQueueItem}

-- a row of `sync_queue`
pub record QueueRow : Type 0 where
  pub id : ℤ
  pub operation : Bytes
  pub entity : Bytes
  pub entity_id : Bytes
  pub status : Bytes
  pub retry_count : ℕ
  pub last_error : Option Bytes

abbrev pub QueueTable : Type 0
QueueTable = List QueueRow

-- `status IN ('PENDING','FAILED')`
unfoldable pub is_waiting : Bytes → Bool
is_waiting status = str_eq status (text "PENDING") || str_eq status (text "FAILED")

-- the rows of the `WHERE`
unfoldable pub waiting_rows : Bytes → QueueTable → QueueTable
waiting_rows entity [] = []
waiting_rows entity (r ∷ rows) =
    let rest = waiting_rows entity rows in
    if str_eq r.entity entity && is_waiting r.status then r ∷ rest else rest

-- `ORDER BY id ASC`
unfoldable pub insert_by_id : QueueRow → QueueTable → QueueTable
insert_by_id r [] = r ∷ []
insert_by_id r (x ∷ xs) =
    let rest = insert_by_id r xs in if ltb_ℤ r.id x.id then r ∷ x ∷ xs else x ∷ rest

unfoldable pub order_by_id : QueueTable → QueueTable
order_by_id [] = []
order_by_id (r ∷ rows) = insert_by_id r (order_by_id rows)

-- the local ids that the `LEFT JOIN` finds for a row
unfoldable pub joined_local_ids : QueueRow → MetadataTable → List Bytes
joined_local_ids r [] = []
joined_local_ids r (m ∷ metadata) =
    let rest = joined_local_ids r metadata in
    if has_entity r.entity r.entity_id m then m.local_id ∷ rest else rest

abbrev pub item_of : QueueRow → Option Bytes → SyncQueueItem
item_of r local_id = record {
  id = r.id;
  operation = r.operation;
  queued_entity_id = r.entity_id;
  local_id = local_id;
}

-- a row that joins nothing stays, without a local id
unfoldable pub join_row : QueueRow → List Bytes → List SyncQueueItem
join_row r [] = item_of r none ∷ []
join_row r (l ∷ ls) = map (λ x. item_of r (some x)) (l ∷ ls)

unfoldable pub left_join : QueueTable → MetadataTable → List SyncQueueItem
left_join [] metadata = []
left_join (r ∷ rows) metadata = join_row r (joined_local_ids r metadata) ++ left_join rows metadata

unfoldable pub negative_limit : ℤ → Exception
negative_limit limit =
    runtime_error (text "SyncQueueStore: limit must be >= 0, got " ++ int_text limit)

-- `readPending`
unfoldable pub read_pending : Bytes → ℤ → QueueTable → MetadataTable → Result (List SyncQueueItem)
read_pending entity (negsuc n) queue metadata = err (negative_limit (negsuc n))
read_pending entity (pos limit) queue metadata =
    ok (take limit (left_join (order_by_id (waiting_rows entity queue)) metadata))

-- `remove`
unfoldable pub remove : ℤ → QueueTable → QueueTable
remove id [] = []
remove id (r ∷ rows) = let rest = remove id rows in if eq_ℤ r.id id then rest else r ∷ rest

-- an `UPDATE` of the row of an id
unfoldable pub update_item : ℤ → (QueueRow → QueueRow) → QueueTable → QueueTable
update_item id f [] = []
update_item id f (r ∷ rows) =
    let rest = update_item id f rows in if eq_ℤ r.id id then f r ∷ rest else r ∷ rest

abbrev with_status : Bytes → Bytes → QueueRow → QueueRow
with_status status error r = record r {
  status = status;
  retry_count = suc r.retry_count;
  last_error = some error;
}

-- `markFailed`
unfoldable pub mark_failed : ℤ → Bytes → QueueTable → QueueTable
mark_failed id error = update_item id (with_status (text "FAILED") error)

-- `markBlocked`
unfoldable pub mark_blocked : ℤ → Bytes → QueueTable → QueueTable
mark_blocked id reason = update_item id (with_status (text "BLOCKED") reason)

-- `rewriteEntityId`
unfoldable pub rewrite_entity_id : Bytes → Bytes → Bytes → QueueTable → QueueTable
rewrite_entity_id entity old_id new_id [] = []
rewrite_entity_id entity old_id new_id (r ∷ rows) =
    let rest = rewrite_entity_id entity old_id new_id rows in
    if str_eq r.entity entity && str_eq r.entity_id old_id
    then record r { entity_id = new_id } ∷ rest
    else r ∷ rest
