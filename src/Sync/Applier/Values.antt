-- ===== src/Sync/Applier/Values.antt =====
-- cpp/sync/SyncOperationApplier.cpp: the values of a pulled row as parameters of statements, and the
-- texts of the statements.
use react_native_salve_db.Prelude.{
  not, ◌&&◌, List, [], ◌∷◌, ◌++◌, Option, none, some, Bytes, text, str_eq, Result, ok, err,
  runtime_error, Exception, if◌then◌else◌, ltb, length, ◌>>=◌,
}
use react_native_salve_db.OrderedMap.{OrderedMap}
use react_native_salve_db.Json.{Value, null, bool, number, string, get}
use react_native_salve_db.Json.Double.{Double}
use react_native_salve_db.Json.Printer.{stringify_number}
use react_native_salve_db.Sql.{SqlValue, sql_null, sql_bool, sql_double, sql_string}
use react_native_salve_db.Connection.Rows.{member}
use react_native_salve_db.Sync.Push.Snapshot.{nth, get_double_of, get_string_of}

-- `TableColumns`
pub record TableColumns : Type 0 where
  pub primary_key : Bytes
  pub all : List Bytes

module _ {N : Type 0} where
  -- `toSqlValue`
  unfoldable pub to_sql_value : Value N → Result (SqlValue N)
  to_sql_value null = ok sql_null
  to_sql_value (bool b) = ok (sql_bool b)
  to_sql_value (number n) = ok (sql_double n)
  to_sql_value (string s) = ok (sql_string s)
  to_sql_value _ = err (runtime_error (text "SyncOperationApplier: unsupported column value type"))

  -- `readOptionalNumber`
  unfoldable pub read_optional_number : Value N → Bytes → Option N
  read_optional_number v key = elim (get v key) [
    | none ↦ none
    | some m ↦ elim m [ number n ↦ some n | _ ↦ none ]
  ]

  -- the loop over a row's members in `apply`: the columns of the table, with the key in its text form
  unfoldable pub row_columns :
      TableColumns → Bytes → OrderedMap (Value N) → Result (List (Bytes × SqlValue N))
  row_columns cols pk_value [] = ok []
  row_columns cols pk_value ((k, v) ∷ fs) =
      let rest = row_columns cols pk_value fs in
      if not (member k cols.all) then rest else do
        value ← if str_eq k cols.primary_key then ok (sql_string pk_value) else to_sql_value v
        others ← rest
        ok ((k, value) ∷ others)

  -- the same loop in `rewriteLocalRow`, which leaves the key out
  unfoldable pub data_columns :
      TableColumns → OrderedMap (Value N) → Result (List (Bytes × SqlValue N))
  data_columns cols [] = ok []
  data_columns cols ((k, v) ∷ fs) =
      let rest = data_columns cols fs in
      if not (member k cols.all && not (str_eq k cols.primary_key))
      then rest
      else do value ← to_sql_value v; others ← rest; ok ((k, value) ∷ others)

  abbrev pub values_of : List (Bytes × SqlValue N) → List (SqlValue N)
  values_of [] = []
  values_of ((k, v) ∷ cs) = v ∷ values_of cs

  abbrev pub names_of : List (Bytes × SqlValue N) → List Bytes
  names_of [] = []
  names_of ((k, v) ∷ cs) = k ∷ names_of cs

module _ {N : Type 0} ⦃d : Double N⦄ where
  -- `jsonScalarToString`
  unfoldable pub json_scalar_to_string : Value N → Result Bytes
  json_scalar_to_string (string s) = ok s
  json_scalar_to_string (number n) = stringify_number n
  json_scalar_to_string _ =
      err
        (runtime_error (text "SyncOperationApplier: primary key value must be a string or number"))

  -- the rows of PRAGMA table_info: cid, name, type, notnull, dflt_value, pk
  unfoldable pub columns_from : TableColumns → List (List (SqlValue N)) → Result TableColumns
  columns_from cols [] = ok cols
  columns_from cols (row ∷ rows) = do
    name ← get_string_of (nth 1 row)
    pk ← if ltb 5 (length row) then get_double_of (nth 5 row) else ok (d.of_ℕ 0)
    columns_from
        record {
          primary_key = if not (d.eq pk (d.of_ℕ 0)) then name else cols.primary_key;
          all = cols.all ++ (name ∷ []);
        }
        rows

unfoldable pub no_key : Bytes → Exception
no_key table =
    runtime_error
      (text "SyncOperationApplier: no primary key found for table '" ++ (table ++ text "'"))

abbrev pub quoted : Bytes → Bytes
quoted name = b'"' ∷ (name ++ b'"' ∷ [])

-- the names of a list of columns, each with a text behind it, joined by commas
unfoldable pub joined_columns : Bytes → List Bytes → Bytes
joined_columns after [] = []
joined_columns after (c ∷ []) = quoted c ++ after
joined_columns after (c ∷ c' ∷ cs) =
    quoted c ++ (after ++ (text ", " ++ joined_columns after (c' ∷ cs)))

unfoldable pub placeholders : List Bytes → Bytes
placeholders [] = []
placeholders (c ∷ []) = text "?"
placeholders (c ∷ c' ∷ cs) = text "?, " ++ placeholders (c' ∷ cs)

unfoldable pub where_key : Bytes → Bytes
where_key pk_column = text " WHERE " ++ (quoted pk_column ++ text " = ?")

unfoldable pub insert_statement : Bytes → List Bytes → Bytes
insert_statement entity columns =
    text "INSERT INTO "
    ++ (quoted entity
        ++ (text " ("
            ++ (joined_columns [] columns
                ++ (text ") VALUES (" ++ (placeholders columns ++ text ")")))))

unfoldable pub update_statement : Bytes → Bytes → List Bytes → Bytes
update_statement entity pk_column columns =
    text "UPDATE "
    ++ (quoted entity
        ++ (text " SET " ++ (joined_columns (text " = ?") columns ++ where_key pk_column)))

-- the statement that reads one expression of a row
unfoldable pub select_statement : Bytes → Bytes → Bytes → Bytes
select_statement expression entity pk_column =
    text "SELECT " ++ (expression ++ (text " FROM " ++ (quoted entity ++ where_key pk_column)))
