-- ===== src/Tests/StoreTests.antt =====
-- The theorems on the stores at concrete rows.
use react_native_salve_db.Prelude.{
  ◌≡◌, refl, true, List, [], ◌∷◌, none, some, text, str_eq, ℤ, ok, if◌then◌else◌,
}
use react_native_salve_db.Json.{Value, object, bool, field, end}
use react_native_salve_db.Json.Printer.{stringify, stringify_value, escape}
use react_native_salve_db.Json.RoundTrip.Strings.{is_plain}
use react_native_salve_db.Json.RoundTrip.Printable.{IsPrintable}
use react_native_salve_db.Sync.Stores.{
  Table, replace_row, delete_row, load_cursor, save_cursor, remove_cursor, definition_for,
  save_definition,
}
use react_native_salve_db.Sync.Stores.Laws.{load_cursor-save_cursor, definition_for-save_definition}
use react_native_salve_db.Sync.Relations.{RelationDef, RelationRow}
use react_native_salve_db.Tests.Doubles.{integer_double}

abbrev table : Table
table = (b'a' ∷ [], b'1' ∷ []) ∷ (b'b' ∷ [], b'2' ∷ []) ∷ []

load_cursor-save_cursor_example :
    (load_cursor (b'b' ∷ []) (save_cursor (b'a' ∷ []) (b'9' ∷ []) table) ≡ (
      if str_eq (b'a' ∷ []) (b'b' ∷ []) then some (b'9' ∷ []) else load_cursor (b'b' ∷ []) table))
    × (load_cursor (b'b' ∷ []) (remove_cursor (b'a' ∷ []) table)
        ≡ (if str_eq (b'a' ∷ []) (b'b' ∷ []) then none else load_cursor (b'b' ∷ []) table))
load_cursor-save_cursor_example = load_cursor-save_cursor (b'a' ∷ []) (b'b' ∷ []) (b'9' ∷ []) table

-- {"e":true}
abbrev definition : Value ℤ
definition = object (field (b'e' ∷ []) (bool true) end)

abbrev saved : Table
saved =
    (b'b' ∷ [], b'2' ∷ [])
    ∷ (b'a' ∷ [], b'{' ∷ b'"' ∷ b'e' ∷ b'"' ∷ b':' ∷ b't' ∷ b'r' ∷ b'u' ∷ b'e' ∷ b'}' ∷ [])
    ∷ []

saving : save_definition (b'a' ∷ []) definition table ≡ ok saved
unfolding save_definition replace_row delete_row str_eq stringify stringify_value escape text
saving = refl

definition-IsPrintable : IsPrintable definition
unfolding IsPrintable is_plain
definition-IsPrintable = ((tt, tt), ((refl, tt), tt, tt))

definition_for-save_definition_example : definition_for (b'a' ∷ []) saved ≡ (
    if str_eq (b'a' ∷ []) (b'a' ∷ [])
    then ok (some definition)
    else definition_for (b'a' ∷ []) table)
definition_for-save_definition_example =
    definition_for-save_definition (b'a' ∷ []) (b'a' ∷ []) definition table definition-IsPrintable
      saving

abbrev relation : RelationDef
relation = record { column = b'f' ∷ []; references = b'p' ∷ [] }

abbrev relations : List RelationRow
relations = record { child_table = b'c' ∷ []; fk_column = b'g' ∷ []; parent_table = b'p' ∷ [] } ∷ []
