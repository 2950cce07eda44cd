-- ===== src/Sql.antt =====
-- The values that go to SQLite and come from it (cpp/database/SQLiteConnection.hpp), and the connection
-- as far as its clients call it.
use react_native_salve_db.Prelude.{Bool, List, Bytes}
use react_native_salve_db.Exec.{Exec}

-- `SqlValue`: the alternatives of a parameter and of a cell
pub data SqlValue (N : Type 0) : Type 0 where
  sql_null : SqlValue N
  sql_bool : Bool → SqlValue N
  sql_double : N → SqlValue N
  sql_string : Bytes → SqlValue N
  sql_blob : Bytes → SqlValue N

-- the columns and rows that a statement gives
pub record QueryResult (N : Type 0) : Type 0 where
  pub columns : List Bytes
  pub rows : List (List (SqlValue N))

-- `SQLiteConnection::execute`
pub record Database (W N : Type 0) : Type 0 where
  pub execute : Bytes → List (SqlValue N) → Exec W (QueryResult N)
