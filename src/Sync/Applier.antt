-- ===== src/Sync/Applier.antt =====
-- cpp/sync/SyncOperationApplier.cpp: `apply`, which writes a page of pulled rows into the local table by
-- the schema's conflict strategy. The connection is the interface Database; the metadata, the queue, the
-- relations and the clock are ApplierStore. The applier's own state is its cache of the columns.
pub mod Values
pub mod Counts
pub mod Kept
pub mod Rewrite
use react_native_salve_db.Prelude.{
  ℕ, suc, Bool, true, false, not, ◌&&◌, ◌||◌, List, [], ◌∷◌, ◌++◌, Option, none, some, Bytes, text,
  str_eq, ℤ, Exception, Result, ok, err, runtime_error, if◌then◌else◌, is_some, is_empty, value_or,
  ltb, length,
}
use react_native_salve_db.Exec.{Exec, ◌>>=◌, ◌>>◌, pure, throw, lift}
use react_native_salve_db.OrderedMap.{OrderedMap, find}
use react_native_salve_db.Json.{Value, get, is_object, object, entries}
use react_native_salve_db.Json.Double.{Double}
use react_native_salve_db.Sql.{SqlValue, QueryResult, Database, sql_double, sql_string}
use react_native_salve_db.Sync.Contract.{SyncConflict}
use react_native_salve_db.Sync.Pull.{ApplyStats}
use react_native_salve_db.Sync.Relations.{RelationRow}
use react_native_salve_db.Sync.Applier.Values.{
  TableColumns, columns_from, no_key, json_scalar_to_string, read_optional_number, row_columns,
  names_of, values_of, quoted, insert_statement, update_statement, select_statement, where_key,
}

-- `_columnsCache`
abbrev pub ColumnsCache : Type 0
ColumnsCache = List (Bytes × TableColumns)

-- SalveMetadataManager, RelationStore, SyncQueueStore and the clock, as far as the applier calls them.
-- `entity_id_of` gives the entity id of the metadata of a local id.
pub record ApplierStore (W : Type 0) : Type 0 where
  pub now_millis : Exec W ℤ
  pub entity_id_of : Bytes → Bytes → Exec W (Option Bytes)
  pub mark_replaced : Bytes → Bytes → Bytes → ℤ → Exec W (Unit {0})
  pub mark_deleted_synced : Bytes → Bytes → ℤ → Exec W (Unit {0})
  pub mark_pulled_synced : Bytes → Bytes → Bytes → ℤ → Exec W (Unit {0})
  pub relations_referencing : Bytes → Exec W (List RelationRow)
  pub rewrite_entity_id : Bytes → Bytes → Bytes → Exec W (Unit {0})

-- what the strategies say of a tombstone, and of a row
unfoldable pub should_delete : Bytes → Bool → Bool → Bool
should_delete strategy is_there newer =
    if str_eq strategy (text "serverWins")
    then is_there
    else if str_eq strategy (text "clientWins")
    then false
    else is_there && newer

unfoldable pub should_apply : Bytes → Bool → Bool → Bool
should_apply strategy is_there newer =
    if str_eq strategy (text "serverWins")
    then true
    else if str_eq strategy (text "clientWins")
    then not is_there
    else not is_there || newer

unfoldable pub not_an_object : Exception
not_an_object = runtime_error (text "SyncOperationApplier: each pulled row must be an object")

unfoldable pub missing_key : Bytes → Exception
missing_key pk_column =
    runtime_error
      (text "SyncOperationApplier: pulled row is missing primary key '" ++ (pk_column ++ text "'"))

abbrev pub count_inserted : ApplyStats → ApplyStats
count_inserted s = record s { inserted = suc s.inserted }

abbrev pub count_updated : ApplyStats → ApplyStats
count_updated s = record s { updated = suc s.updated }

abbrev pub count_deleted : ApplyStats → ApplyStats
count_deleted s = record s { deleted = suc s.deleted }

module _ {N : Type 0} ⦃d : Double N⦄ where
  -- whether the remote timestamp is later, or there is none to compare with
  unfoldable pub is_newer : N → Option N → Bool
  is_newer remote none = true
  is_newer remote (some local) = d.lt local remote

  -- the members of an object
  abbrev pub members_of : Value N → OrderedMap (Value N)
  members_of (object fs) = entries fs
  members_of v = []

  abbrev pub first_number : List (List (SqlValue N)) → Option N
  first_number ((sql_double n ∷ row) ∷ rows) = some n
  first_number _ = none

-- what is there of a row, with its timestamp under lastWriteWins
pub record LocalRow (N : Type 0) : Type 0 where
  pub is_there : Bool
  pub timestamp : Option N

-- a call that leaves the cache alone
abbrev pub on_db : {W A : Type 0} → Exec W A → Exec (ColumnsCache × W) A
on_db m (cache, w) = let (r, w') = m w in (r, (cache, w'))

-- the primary key has to be there before the columns are kept
unfoldable pub keep_columns :
    {W : Type 0} → Bytes → TableColumns → Exec (ColumnsCache × W) TableColumns
keep_columns table cols (cache, w) =
    if is_empty cols.primary_key
    then (err (no_key table), (cache, w))
    else (ok cols, ((table, cols) ∷ cache, w))

abbrev no_columns : TableColumns
no_columns = record { primary_key = []; all = [] }

module _ {W : Type 0} (N : Type 0) ⦃d : Double N⦄ ⦃db : Database W N⦄ where
  -- `columnsFor`
  unfoldable pub columns_for : Bytes → Exec (ColumnsCache × W) TableColumns
  columns_for table (cache, w) = elim (find table cache) [
    | some cols ↦ (ok cols, (cache, w))
    | none ↦
        (on_db (db.execute (text "PRAGMA table_info(" ++ (quoted table ++ text ")")) [])
            >>= λ result. lift (columns_from no_columns result.rows) >>= keep_columns table)
          (cache, w)
  ]

module _ {W N : Type 0} ⦃d : Double N⦄ ⦃db : Database W N⦄ ⦃store : ApplierStore W⦄
    (conflict : SyncConflict) (entity : Bytes) (cols : TableColumns) where
  abbrev pub run_statement : Bytes → List (SqlValue N) → Exec (ColumnsCache × W) (Unit {0})
  run_statement sql params = on_db (db.execute sql params) >>= λ result. pure tt

  -- the `SELECT` of a row's timestamp, or of 1 where the strategy does not ask for it
  unfoldable pub read_local : Bytes → Exec (ColumnsCache × W) (LocalRow N)
  read_local pk_value =
      if str_eq conflict.strategy (text "lastWriteWins")
      then on_db (
          db.execute (select_statement (quoted conflict.conflict_field) entity cols.primary_key)
            (sql_string pk_value ∷ []))
        >>= (λ found.
            pure
              record { is_there = not (is_empty found.rows); timestamp = first_number found.rows })
      else on_db (
          db.execute (select_statement (text "1") entity cols.primary_key)
            (sql_string pk_value ∷ []))
        >>= λ found. pure record { is_there = not (is_empty found.rows); timestamp = none }

  -- a tombstone is written
  unfoldable pub write_tombstone : ℤ → Bytes → N → ApplyStats → Exec (ColumnsCache × W) ApplyStats
  write_tombstone now pk_value deleted_at stats =
      run_statement (update_statement entity cols.primary_key (text "deletedAt" ∷ []))
        (sql_double deleted_at ∷ sql_string pk_value ∷ [])
      >> (on_db (store.mark_pulled_synced entity pk_value (text "DELETED") now)
          >> pure (count_deleted stats))

  -- a row is inserted or updated
  unfoldable pub write_columns :
      Bytes → Bool → List (Bytes × SqlValue N) → Exec (ColumnsCache × W) (Unit {0})
  write_columns pk_value is_there columns =
      if not is_there
      then run_statement (insert_statement entity (names_of columns)) (values_of columns)
      else run_statement (update_statement entity cols.primary_key (names_of columns))
          (values_of columns ++ (sql_string pk_value ∷ []))

  unfoldable pub write_row :
      ℤ → Value N → Bytes → Bool → ApplyStats → Exec (ColumnsCache × W) ApplyStats
  write_row now row pk_value is_there stats =
      lift (row_columns cols pk_value (members_of row)) >>= λ columns.
      write_columns pk_value is_there columns
      >> (on_db (store.mark_pulled_synced entity pk_value (text "SYNCED") now)
          >> pure (if is_there then count_updated stats else count_inserted stats))

  -- behind the `SELECT`, for the row's deletedAt
  unfoldable pub resolve_as :
      ℤ → Value N → Bytes → ApplyStats → LocalRow N → Option N → Exec (ColumnsCache × W) ApplyStats
  resolve_as now row pk_value stats local (some deleted_at) =
      if should_delete conflict.strategy local.is_there (is_newer deleted_at local.timestamp)
      then write_tombstone now pk_value deleted_at stats
      else pure stats
  resolve_as now row pk_value stats local none =
      let updated_at = value_or (d.of_ℕ 0) (read_optional_number row conflict.conflict_field) in
      if should_apply conflict.strategy local.is_there (is_newer updated_at local.timestamp)
      then write_row now row pk_value local.is_there stats
      else pure stats

  unfoldable pub resolve_row :
      ℤ → Value N → Bytes → ApplyStats → LocalRow N → Exec (ColumnsCache × W) ApplyStats
  resolve_row now row pk_value stats local =
      resolve_as now row pk_value stats local (read_optional_number row (text "deletedAt"))

  -- a row by its member at the primary key
  unfoldable pub apply_keyed :
      ℤ → ApplyStats → Value N → Option (Value N) → Exec (ColumnsCache × W) ApplyStats
  apply_keyed now stats row none = throw (missing_key cols.primary_key)
  apply_keyed now stats row (some v) = lift (json_scalar_to_string v) >>= λ pk_value.
      read_local pk_value >>= resolve_row now row pk_value stats

  -- one round of the loop
  unfoldable pub apply_row : ℤ → ApplyStats → Value N → Exec (ColumnsCache × W) ApplyStats
  apply_row now stats row =
      if not (is_object row)
      then throw not_an_object
      else apply_keyed now stats row (get row cols.primary_key)

  -- the loop over the rows
  unfoldable pub apply_each : ℤ → ApplyStats → List (Value N) → Exec (ColumnsCache × W) ApplyStats
  apply_each now stats [] = pure stats
  apply_each now stats (row ∷ rows) =
      apply_row now stats row >>= λ stats'. apply_each now stats' rows

abbrev pub no_stats : ApplyStats
no_stats = record { inserted = 0; updated = 0; deleted = 0 }

module _ {W N : Type 0} ⦃d : Double N⦄ ⦃db : Database W N⦄ ⦃store : ApplierStore W⦄
    (conflict : SyncConflict) where
  -- `apply`
  unfoldable pub apply : Bytes → List (Value N) → Exec (ColumnsCache × W) ApplyStats
  apply entity rows =
      if is_empty rows
      then pure no_stats
      else columns_for N entity >>= λ cols.
          on_db store.now_millis >>= λ now. apply_each conflict entity cols now no_stats rows
