-- ===== src/Connection/Rows.antt =====
-- cpp/database/SQLiteConnection.cpp: parameters on their way into a statement, and the rows on their way
-- out of it. cpp/database/SchemaRegistry.cpp says which columns are boolean.
use react_native_salve_db.Prelude.{
  ℕ, Bool, true, false, not, List, [], ◌∷◌, Option, none, some, Bytes, str_eq, ℤ, pos, eq_ℤ,
  if◌then◌else◌, ◌==◌, value_or,
}
use react_native_salve_db.Sql.{SqlValue, sql_null, sql_bool, sql_double, sql_string, sql_blob}

-- `_booleanColumns`: the boolean columns of each table
abbrev pub SchemaRegistry : Type 0
SchemaRegistry = List (Bytes × List Bytes)

unfoldable pub member : Bytes → List Bytes → Bool
member q [] = false
member q (x ∷ xs) = let rest = member q xs in if str_eq q x then true else rest

-- `registerBooleanColumns`
unfoldable pub register_boolean_columns : Bytes → List Bytes → SchemaRegistry → SchemaRegistry
register_boolean_columns table columns [] = (table, columns) ∷ []
register_boolean_columns table columns ((t, cs) ∷ r) =
    let rest = register_boolean_columns table columns r in
    if str_eq table t then (t, columns) ∷ r else (t, cs) ∷ rest

-- `isBoolean`
unfoldable pub is_boolean : SchemaRegistry → Bytes → Bytes → Bool
is_boolean [] table column = false
is_boolean ((t, cs) ∷ r) table column =
    let rest = is_boolean r table column in if str_eq table t then member column cs else rest

-- `clear`
abbrev pub clear : SchemaRegistry → SchemaRegistry
clear r = []

-- What `sqlite3_bind_…` is called with.
pub data Bound (N : Type 0) : Type 0 where
  bind_null : Bound N
  bind_int : ℕ → Bound N
  bind_double : N → Bound N
  bind_text bind_blob : Bytes → Bound N

-- A cell by its `sqlite3_column_type`; `sqlite3_column_text` may be null.
pub data Cell (N : Type 0) : Type 0 where
  null_cell : Cell N
  integer_cell : ℤ → Cell N
  float_cell : N → Cell N
  text_cell : Option Bytes → Cell N
  blob_cell : Bytes → Cell N

-- `sqlite3_column_name`, `sqlite3_column_table_name` and `sqlite3_column_origin_name`
pub record ColumnHeader : Type 0 where
  pub name : Option Bytes
  pub table : Option Bytes
  pub origin : Option Bytes

-- `static_cast<double>` of an int64_t
pub record FromInteger (N : Type 0) : Type 0 where
  pub of_int64 : ℤ → N

-- `std::string` of a C string ends before the first NUL
unfoldable pub c_string : Bytes → Bytes
c_string [] = []
c_string (c ∷ s) = let rest = c_string s in if c == 0 then [] else c ∷ rest

-- the `std::visit` over a parameter
unfoldable pub bound_of : {N : Type 0} → SqlValue N → Bound N
bound_of sql_null = bind_null
bound_of (sql_bool true) = bind_int 1
bound_of (sql_bool false) = bind_int 0
bound_of (sql_double n) = bind_double n
bound_of (sql_string s) = bind_text s
bound_of (sql_blob b) = bind_blob b

-- whether the column's integers are read as `bool`
unfoldable pub is_bool_col : SchemaRegistry → ColumnHeader → Bool
is_bool_col r h = elim h.table [
  | none ↦ false
  | some table ↦ elim h.origin [ none ↦ false | some origin ↦ is_boolean r table origin ]
]

module _ {N : Type 0} ⦃f : FromInteger N⦄ where
  -- the `switch` over a cell
  unfoldable pub sql_value_of : Bool → Cell N → SqlValue N
  sql_value_of is_bool null_cell = sql_null
  sql_value_of true (integer_cell z) = sql_bool (not (eq_ℤ z (pos 0)))
  sql_value_of false (integer_cell z) = sql_double (f.of_int64 z)
  sql_value_of is_bool (float_cell n) = sql_double n
  sql_value_of is_bool (text_cell none) = sql_string []
  sql_value_of is_bool (text_cell (some s)) = sql_string (c_string s)
  sql_value_of is_bool (blob_cell b) = sql_blob b

  -- the loop over the columns of one row
  unfoldable pub row_of : SchemaRegistry → List ColumnHeader → List (Cell N) → List (SqlValue N)
  row_of r (h ∷ hs) (c ∷ cs) = sql_value_of (is_bool_col r h) c ∷ row_of r hs cs
  row_of r _ _ = []

-- `columns`, from the first row on
unfoldable pub column_names : List ColumnHeader → List Bytes
column_names [] = []
column_names (h ∷ hs) = value_or [] h.name ∷ column_names hs
