-- ===== src/Sync/Stores.antt =====
-- cpp/sync/SyncCursorStore.cpp and cpp/sync/SyncDefinitionStore.cpp. Each table has a text key and a
-- text column, and is the list of its rows; each statement of the source is the operation on rows that
-- its text states. A statement that SQLite refuses to run is not modelled.
pub mod Laws
use react_native_salve_db.Prelude.{
  Bool, true, false, List, [], ◌∷◌, ◌++◌, Option, none, some, Bytes, str_eq, Result, ok, err,
  if◌then◌else◌, ◌>>=◌,
}
use react_native_salve_db.OrderedMap.{OrderedMap, find}
use react_native_salve_db.Json.{Value}
use react_native_salve_db.Json.Double.{Double}
use react_native_salve_db.Json.Parser.{json_parse}
use react_native_salve_db.Json.Printer.{stringify}

abbrev pub Table : Type 0
Table = List (Bytes × Bytes)

-- DELETE … WHERE key = ?
unfoldable pub delete_row : Bytes → Table → Table
delete_row key [] = []
delete_row key ((k, v) ∷ rows) =
    let rest = delete_row key rows in if str_eq k key then rest else (k, v) ∷ rest

-- INSERT OR REPLACE … (key, column) VALUES (?, ?)
unfoldable pub replace_row : Bytes → Bytes → Table → Table
replace_row key v rows = delete_row key rows ++ (key, v) ∷ []

-- SELECT column … WHERE key = ?, its first row
unfoldable pub select_row : Bytes → Table → Option Bytes
select_row key rows = find key rows

-- `SyncCursorStore::load`, `save`, `remove`, `removeAll`
unfoldable pub load_cursor : Bytes → Table → Option Bytes
load_cursor = select_row

unfoldable pub save_cursor : Bytes → Bytes → Table → Table
save_cursor = replace_row

unfoldable pub remove_cursor : Bytes → Table → Table
remove_cursor = delete_row

unfoldable pub remove_all_cursors : Table → Table
remove_all_cursors rows = []

-- `SyncDefinitionStore::enabledSchemas`, `remove`
unfoldable pub enabled_schemas : Table → List Bytes
enabled_schemas [] = []
enabled_schemas ((name, definition) ∷ rows) = name ∷ enabled_schemas rows

unfoldable pub remove_definition : Bytes → Table → Table
remove_definition = delete_row

module _ {N : Type 0} ⦃d : Double N⦄ where
  -- the parsed column of the row found
  abbrev parsed : Option Bytes → Result (Option (Value N))
  parsed none = ok none
  parsed (some definition) = do v ← json_parse definition; ok (some v)

  -- `SyncDefinitionStore::definitionFor`, `save`
  unfoldable pub definition_for : Bytes → Table → Result (Option (Value N))
  definition_for schema rows = parsed (select_row schema rows)

  unfoldable pub save_definition : Bytes → Value N → Table → Result Table
  save_definition schema definition rows = do
    printed ← stringify definition
    ok (replace_row schema printed rows)
