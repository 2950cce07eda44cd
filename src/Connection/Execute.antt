-- ===== src/Connection/Execute.antt =====
-- cpp/database/SQLiteConnection.cpp: `execute`, which binds the parameters of a statement and reads its
-- rows. The fuel bounds the number of steps; SQLite ends a statement after its last row.
use react_native_salve_db.Prelude.{
  ℕ, zero, suc, List, [], ◌∷◌, ◌++◌, Option, none, some, Bytes, ok, err, no_fuel, if◌then◌else◌,
  is_empty,
}
use react_native_salve_db.Exec.{Exec, ◌>>=◌}
use react_native_salve_db.Sql.{SqlValue, QueryResult}
use react_native_salve_db.Connection.Prepare.{Statements, SqliteError, get_or_prepare}
use react_native_salve_db.Connection.Rows.{
  SchemaRegistry, Cell, ColumnHeader, FromInteger, bound_of, row_of, column_names,
}
use react_native_salve_db.Connection.{
  Connection, row, finished, broken, Sqlite, Callbacks, touch, flush_unless_in_transaction,
  execute_error,
}

module _ {W H : Type 0} {N : Type 0} ⦃q : Sqlite W H N⦄ where
  -- the loop over the parameters, from position `i` on
  unfoldable pub bind_all : H → ℕ → List (SqlValue N) → W → W
  bind_all stmt i [] w = w
  bind_all stmt i (p ∷ ps) w = bind_all stmt (suc i) ps (q.bind stmt i (bound_of p) w)

module _ {W H : Type 0} (N : Type 0) ⦃q : Sqlite W H N⦄ where
  -- reset and cleared
  unfoldable pub fresh_statement : H → W → W
  fresh_statement stmt w = q.clear_bindings stmt (q.reset stmt w)

module _ {N : Type 0} ⦃f : FromInteger N⦄ (registry : SchemaRegistry) where
  -- a row is added to the result, whose columns are those of its first row
  unfoldable pub with_row : QueryResult N → List ColumnHeader → List (Cell N) → QueryResult N
  with_row r header cells = record {
    columns = if is_empty r.rows then column_names header else r.columns;
    rows = r.rows ++ (row_of registry header cells ∷ []);
  }

module _ {W H Cb : Type 0} {N : Type 0} ⦃q : Sqlite W H N⦄ ⦃f : FromInteger N⦄
    (registry : SchemaRegistry) where
  -- The loop over `sqlite3_step`, of at most `fuel` steps: the result, and the error that ended it.
  unfoldable pub step_loop :
      ℕ → H → QueryResult N → Exec (Connection H Cb × W) (QueryResult N × Option SqliteError)
  step_loop zero stmt r s = (err no_fuel, s)
  step_loop (suc fuel) stmt r (c, w) =
      let ((now, tables), w') = q.step stmt w in
      elim now [
        | row header cells ↦
            step_loop fuel stmt (with_row registry r header cells) (touch tables c, w')
        | finished ↦ (ok (r, none), (touch tables c, w'))
        | broken e ↦ (ok (r, some e), (touch tables c, w'))
      ]

module _ {W H Cb : Type 0} ⦃st : Statements W H⦄ where
  -- a call of `getOrPrepare` on the connection's statements
  unfoldable pub statement_of : Bytes → Exec (Connection H Cb × W) H
  statement_of sql (c, w) =
      let (r, (cache, w')) = get_or_prepare sql (c.statements, w) in
      (r, (record c { statements = cache }, w'))

module _ {W H Cb N : Type 0} ⦃st : Statements W H⦄ ⦃q : Sqlite W H N⦄ ⦃f : FromInteger N⦄
    ⦃cs : Callbacks W H Cb⦄ where
  -- behind the loop
  unfoldable pub after_steps :
      H → QueryResult N × Option SqliteError → Exec (Connection H Cb × W) (QueryResult N)
  after_steps stmt (r, none) (c, w) =
      (ok r, flush_unless_in_transaction (c, fresh_statement N stmt w))
  after_steps stmt (r, some e) (c, w) = (err (execute_error e), (c, fresh_statement N stmt w))

  -- behind `getOrPrepare`
  unfoldable pub run_statement :
      SchemaRegistry → ℕ → List (SqlValue N) → H → Exec (Connection H Cb × W) (QueryResult N)
  run_statement registry fuel params stmt (c, w) =
      (step_loop registry fuel stmt (record { columns = []; rows = [] }) >>= after_steps stmt)
        (c, bind_all stmt 1 params (fresh_statement N stmt w))

  -- `execute`
  unfoldable pub execute :
      SchemaRegistry → ℕ → Bytes → List (SqlValue N) → Exec (Connection H Cb × W) (QueryResult N)
  execute registry fuel sql params = statement_of sql >>= run_statement registry fuel params
