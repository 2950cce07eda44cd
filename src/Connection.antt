-- ===== src/Connection.antt =====
-- cpp/database/SQLiteConnection.cpp: one connection, its transaction flag, the tables that were touched
-- since the last notification, and the subscribers. SQLite and what a subscriber does are interfaces;
-- a subscriber may call the connection again, so that it works on the connection as well. The mutex,
-- which makes each call one step, is not modelled; nor is the null handle of a connection that is not
-- open, since the constructor throws there.
pub mod Prepare
pub mod Rows
pub mod Execute
pub mod Lifetime
pub mod Notifications
use react_native_salve_db.Prelude.{
  ℕ, zero, suc, Bool, true, false, not, List, [], ◌∷◌, ◌++◌, Option, none, some, Bytes, text,
  em_dash, str_eq, Exception, Result, ok, err, runtime_error, no_fuel, if◌then◌else◌, ◌==◌, ◌%◌,
  ltb, value_or, is_empty,
}
use react_native_salve_db.Exec.{Exec, ◌>>=◌, ◌>>◌, pure, throw, modify}
use react_native_salve_db.Sql.{SqlValue, QueryResult}
use react_native_salve_db.Connection.Prepare.{
  StatementCache, Node, Statements, SqliteError, error_prefix, get_or_prepare,
}
use react_native_salve_db.Connection.Rows.{
  SchemaRegistry, Bound, Cell, ColumnHeader, FromInteger, bound_of, row_of, column_names,
}

-- `_subscribers` is in the order in which its callbacks are collected.
pub record Connection (H Cb : Type 0) : Type 0 where
  pub statements : StatementCache H
  pub in_transaction : Bool
  pub touched_tables : List Bytes
  pub subscribers : List (ℕ × Cb)
  pub next_subscriber_id : ℕ

-- `sqlite3_step`: a row with its header, the end, or an error
pub data Step (N : Type 0) : Type 0 where
  row : List ColumnHeader → List (Cell N) → Step N
  finished : Step N
  broken : SqliteError → Step N

-- `sqlite3_exec`: its message may be null
pub data Done : Type 0 where
  done : Done
  undone : ℕ → Option Bytes → Done

-- The rest of SQLite. A call that runs a statement also gives the tables that it called the update
-- hook with, in order.
pub record Sqlite (W H N : Type 0) : Type 0 where
  pub reset : H → W → W
  pub clear_bindings : H → W → W
  pub bind : H → ℕ → Bound N → W → W
  pub step : H → W → (Step N × List Bytes) × W
  pub exec : Bytes → W → (Done × List Bytes) × W

-- a subscriber's call with the touched tables
pub record Callbacks (W H Cb : Type 0) : Type 0 where
  pub call : Cb → List Bytes → Exec (Connection H Cb × W) (Unit {0})

-- `operator<` of `std::string`
unfoldable pub str_lt : Bytes → Bytes → Bool
str_lt [] [] = false
str_lt [] (y ∷ ys) = true
str_lt (x ∷ xs) [] = false
str_lt (x ∷ xs) (y ∷ ys) =
    let rest = str_lt xs ys in if ltb x y then true else if ltb y x then false else rest

-- `insert` of a `std::set`
unfoldable pub set_insert : Bytes → List Bytes → List Bytes
set_insert x [] = x ∷ []
set_insert x (y ∷ ys) =
    let rest = set_insert x ys in
    if str_lt x y then x ∷ y ∷ ys else if str_lt y x then y ∷ rest else y ∷ ys

unfoldable pub set_insert_all : List Bytes → List Bytes → List Bytes
set_insert_all [] s = s
set_insert_all (x ∷ xs) s = set_insert_all xs (set_insert x s)

unfoldable pub nested_transactions : Exception
nested_transactions = runtime_error (
    text "Nested transactions are not supported "
    ++ (em_dash ++ text " commit() or rollback() first."))

unfoldable pub exec_error : ℕ → Option Bytes → Bytes → Exception
exec_error code message sql = runtime_error (
    error_prefix (code % 256)
    ++ (text "SQLite exec error: "
        ++ (value_or (text "unknown error") message
            ++ (text " " ++ (em_dash ++ (text " SQL: " ++ sql))))))

unfoldable pub execute_error : SqliteError → Exception
execute_error e =
    runtime_error
      (error_prefix (e.extended_code % 256) ++ (text "SQLite execute error: " ++ e.message))

module _ {Cb : Type 0} where
  abbrev pub callbacks_of : List (ℕ × Cb) → List Cb
  callbacks_of [] = []
  callbacks_of ((id, cb) ∷ l) = cb ∷ callbacks_of l

  unfoldable pub erase_subscriber : ℕ → List (ℕ × Cb) → List (ℕ × Cb)
  erase_subscriber id [] = []
  erase_subscriber id ((k, cb) ∷ l) =
      let rest = erase_subscriber id l in if k == id then l else (k, cb) ∷ rest

module _ {H Cb : Type 0} where
  -- `onSqliteUpdate`, for each call of the hook
  unfoldable pub touch : List Bytes → Connection H Cb → Connection H Cb
  touch tables c = record c { touched_tables = set_insert_all tables c.touched_tables }

  abbrev pub set_in_transaction : Bool → Connection H Cb → Connection H Cb
  set_in_transaction b c = record c { in_transaction = b }

  abbrev pub clear_touched : Connection H Cb → Connection H Cb
  clear_touched c = record c { touched_tables = [] }

  -- `subscribe`
  unfoldable pub subscribe : Cb → Connection H Cb → ℕ × Connection H Cb
  subscribe cb c = (
    c.next_subscriber_id,
    record c {
      subscribers = c.subscribers ++ ((c.next_subscriber_id, cb) ∷ []);
      next_subscriber_id = suc c.next_subscriber_id;
    },
  )

  -- `unsubscribe`
  unfoldable pub unsubscribe : ℕ → Connection H Cb → Connection H Cb
  unsubscribe id c = record c { subscribers = erase_subscriber id c.subscribers }

module _ {W H Cb : Type 0} ⦃cs : Callbacks W H Cb⦄ where
  -- what a callback throws is dropped
  unfoldable pub call_each : List Cb → List Bytes → Connection H Cb × W → Connection H Cb × W
  call_each [] tables s = s
  call_each (cb ∷ cbs) tables s = call_each cbs tables (cs.call cb tables s).1

  -- `flushChangeNotifications`
  unfoldable pub flush_change_notifications : Connection H Cb × W → Connection H Cb × W
  flush_change_notifications (c, w) =
      if is_empty c.touched_tables
      then (c, w)
      else call_each (callbacks_of c.subscribers) c.touched_tables (clear_touched c, w)

  -- outside a transaction
  unfoldable pub flush_unless_in_transaction : Connection H Cb × W → Connection H Cb × W
  flush_unless_in_transaction (c, w) =
      if not c.in_transaction then flush_change_notifications (c, w) else (c, w)

module _ {W H Cb : Type 0} (N : Type 0) ⦃q : Sqlite W H N⦄ where
  -- behind `sqlite3_exec`
  unfoldable pub after_exec :
      Bytes → Connection H Cb → (Done × List Bytes) × W → Result (Unit {0}) × (Connection H Cb × W)
  after_exec sql c ((done, tables), w) = (ok tt, (touch tables c, w))
  after_exec sql c ((undone code message, tables), w) =
      (err (exec_error code message sql), (touch tables c, w))

  -- `execLocked`
  unfoldable pub exec_locked : Bytes → Exec (Connection H Cb × W) (Unit {0})
  exec_locked sql (c, w) = after_exec sql c (q.exec sql w)

  -- `beginTransaction`
  unfoldable pub begin_transaction : Exec (Connection H Cb × W) (Unit {0})
  begin_transaction (c, w) =
      if c.in_transaction
      then (err nested_transactions, (c, w))
      else (exec_locked (text "BEGIN") >> modify (λ s. (set_in_transaction true s.0, s.1))) (c, w)

  -- `rollback`
  unfoldable pub rollback : Exec (Connection H Cb × W) (Unit {0})
  rollback =
      exec_locked (text "ROLLBACK")
      >> modify (λ s. (clear_touched (set_in_transaction false s.0), s.1))

module _ {W H Cb : Type 0} (N : Type 0) ⦃q : Sqlite W H N⦄ ⦃cs : Callbacks W H Cb⦄ where
  -- `commit`
  unfoldable pub commit : Exec (Connection H Cb × W) (Unit {0})
  commit =
      exec_locked N (text "COMMIT")
      >> modify (λ s. flush_change_notifications (set_in_transaction false s.0, s.1))

  -- `exec`
  unfoldable pub exec : Bytes → Exec (Connection H Cb × W) (Unit {0})
  exec sql = exec_locked N sql >> modify flush_unless_in_transaction
