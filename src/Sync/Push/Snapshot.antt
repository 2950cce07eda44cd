-- ===== src/Sync/Push/Snapshot.antt =====
-- The rows that cpp/sync/SyncPushPhase.cpp reads: the primary key of a table and the body of a request.
-- The connection is an interface: a statement with its parameters gives rows.
pub mod Body
use react_native_salve_db.Prelude.{
  ℕ, zero, suc, Bool, true, false, not, List, [], ◌∷◌, ◌++◌, Option, none, some, Bytes, text,
  str_eq, Exception, Result, ok, err, runtime_error, if◌then◌else◌, ◌>>=◌,
}
use react_native_salve_db.Exec.{Exec}
use react_native_salve_db.OrderedMap.{OrderedMap, assign}
use react_native_salve_db.Json.{Value, null, bool, number, string, object, of_entries}
use react_native_salve_db.Json.Double.{Double}
use react_native_salve_db.Sql.{
  SqlValue, QueryResult, Database, sql_null, sql_bool, sql_double, sql_string, sql_blob,
}

-- `RowSnapshot`; `is_there` is the source's `exists`
pub record RowSnapshot (N : Type 0) : Type 0 where
  pub is_there : Bool
  pub tombstoned : Bool
  pub body : Value N

-- what `std::get` throws on another alternative
abbrev bad_variant : Exception
bad_variant = runtime_error (text "bad_variant_access")

module _ {N : Type 0} where
  -- `sqlValueToJson`
  unfoldable pub sql_value_to_json : SqlValue N → Result (Value N)
  sql_value_to_json sql_null = ok null
  sql_value_to_json (sql_bool b) = ok (bool b)
  sql_value_to_json (sql_double n) = ok (number n)
  sql_value_to_json (sql_string s) = ok (string s)
  sql_value_to_json (sql_blob b) =
      err (runtime_error (text "SyncPushPhase: blob columns are not supported in a sync push body"))

  abbrev is_not_null : SqlValue N → Bool
  is_not_null sql_null = false
  is_not_null v = true

  -- The loop over the columns of a row; `tombstoned` and `body` are what it has so far.
  unfoldable pub body_of :
      Bytes → List Bytes → List (SqlValue N) → Bool → OrderedMap (Value N) → Result (RowSnapshot N)
  body_of pk_column (column ∷ columns) (v ∷ row) tombstoned body =
      let marked = body_of pk_column columns row (is_not_null v) body in
      let skipped = body_of pk_column columns row tombstoned body in
      let read = λ (j : Value N). body_of pk_column columns row tombstoned (assign column j body) in
      if str_eq column (text "deletedAt")
      then marked
      else if str_eq column pk_column
      then skipped
      else (do j ← sql_value_to_json v; read j)
  body_of pk_column _ _ tombstoned body =
      ok (record { is_there = true; tombstoned = tombstoned; body = object (of_entries body) })

  -- the snapshot of a result: of no row, or of the first one
  unfoldable pub snapshot_of : Bytes → QueryResult N → Result (RowSnapshot N)
  snapshot_of pk_column result = elim result.rows [
    | [] ↦ ok (record { is_there = false; tombstoned = false; body = null })
    | row ∷ rows ↦ body_of pk_column result.columns row false []
  ]

  -- `row[i]`, within the row
  abbrev pub nth : ℕ → List (SqlValue N) → SqlValue N
  nth i [] = sql_null
  nth zero (v ∷ row) = v
  nth (suc i) (v ∷ row) = nth i row

  abbrev pub get_string_of : SqlValue N → Result Bytes
  get_string_of (sql_string s) = ok s
  get_string_of v = err bad_variant

  abbrev pub get_double_of : SqlValue N → Result N
  get_double_of (sql_double n) = ok n
  get_double_of v = err bad_variant

module _ {N : Type 0} ⦃d : Double N⦄ where
  -- the loop over the rows of `PRAGMA table_info`
  unfoldable pub primary_key_of : Bytes → List (List (SqlValue N)) → Result Bytes
  primary_key_of entity [] = err (
      runtime_error
        (text "SyncPushPhase: no primary key found for table '" ++ (entity ++ text "'")))
  primary_key_of entity (row ∷ rows) =
      let rest = primary_key_of entity rows in
      do
        n ← get_double_of (nth 5 row)
        if not (d.eq n (d.of_ℕ 0)) then get_string_of (nth 1 row) else rest

  abbrev key_of_result : {W : Type 0} → Bytes → Result (QueryResult N) × W → Result Bytes × W
  key_of_result entity (ok result, w) = (primary_key_of entity result.rows, w)
  key_of_result entity (err e, w) = (err e, w)

module _ {W N : Type 0} ⦃d : Double N⦄ ⦃db : Database W N⦄ where
  abbrev snapshot_of_result : Bytes → Result (QueryResult N) × W → Result (RowSnapshot N) × W
  snapshot_of_result pk_column (ok result, w) = (snapshot_of pk_column result, w)
  snapshot_of_result pk_column (err e, w) = (err e, w)

  -- `readRowSnapshot`
  unfoldable pub read_row_snapshot : Bytes → Bytes → Bytes → Exec W (RowSnapshot N)
  read_row_snapshot entity pk_column id w = snapshot_of_result pk_column (
      db.execute
        (text "SELECT * FROM \""
          ++ (entity ++ (text "\" WHERE \"" ++ (pk_column ++ text "\" = ?"))))
        (sql_string id ∷ []) w)

module _ {W : Type 0} (N : Type 0) ⦃d : Double N⦄ ⦃db : Database W N⦄ where
  -- `primaryKeyColumn`
  unfoldable pub primary_key_column : Bytes → Exec W Bytes
  primary_key_column entity w =
      key_of_result {N = N} entity
        (db.execute (text "PRAGMA table_info(\"" ++ (entity ++ text "\")")) [] w)
