-- ===== src/Sync/Stores/Laws.antt =====
-- What the stores of cpp/sync/SyncCursorStore.cpp and cpp/sync/SyncDefinitionStore.cpp read back.
use react_native_salve_db.Prelude.{
  ◌≡◌, refl, sym, ◌∙◌, false, [], ◌∷◌, ◌++◌, none, some, Bytes, str_eq, str_eq_iff, ok,
  ok-injective, >>=-elim-ok, if◌then◌else◌, Bool-cases, inl, inr, arith,
}
use react_native_salve_db.OrderedMap.{find}
use react_native_salve_db.Json.{Value}
use react_native_salve_db.Json.Double.{Double}
use react_native_salve_db.Json.Printer.{stringify}
use react_native_salve_db.Json.RoundTrip.Printable.{IsPrintable}
use react_native_salve_db.Json.RoundTrip.Values.{parse-stringify}
use react_native_salve_db.Sync.Stores.{
  Table, delete_row, replace_row, select_row, load_cursor, save_cursor, remove_cursor,
  definition_for, save_definition,
}

find-delete_row :
    (key k : Bytes) (rows : Table)
    → find k (delete_row key rows) ≡ (if str_eq key k then none else find k rows)
unfolding find delete_row
find-delete_row key k [] = ground arith
find-delete_row key k ((j, v) ∷ rows) =
    ground (arith, str_eq_iff j key, str_eq_iff j k, str_eq_iff key k, find-delete_row key k rows)

find-append :
    (k key v : Bytes) (rows : Table)
    → find k rows ≡ none
    → find k (rows ++ (key, v) ∷ []) ≡ (if str_eq key k then some v else none)
unfolding find
find-append k key v [] h = refl
find-append k key v ((j, w) ∷ rows) h = ground (arith, find-append k key v rows)

find-append_other :
    (k key v : Bytes) (rows : Table)
    → str_eq key k ≡ false
    → find k (rows ++ (key, v) ∷ []) ≡ find k rows
unfolding find
find-append_other k key v [] h = rw h refl
find-append_other k key v ((j, w) ∷ rows) h = ground (arith, find-append_other k key v rows)

find-replace_row :
    (key k v : Bytes) (rows : Table)
    → find k (replace_row key v rows) ≡ (if str_eq key k then some v else find k rows)
unfolding replace_row
find-replace_row key k v rows = elim (Bool-cases (str_eq key k)) [
  | inl same ↦
      rw (find-append k key v (delete_row key rows) (find-delete_row key k rows ∙ rw same refl))
        (rw same refl)
  | inr other ↦
      rw (find-append_other k key v (delete_row key rows) other, find-delete_row key k rows)
        (rw other refl)
]

-- A saved cursor is what its entity loads, a removed one is gone, and those of the other entities stay.
pub load_cursor-save_cursor :
    (entity other cursor : Bytes) (rows : Table)
    → (load_cursor other (save_cursor entity cursor rows)
        ≡ (if str_eq entity other then some cursor else load_cursor other rows))
      × (load_cursor other (remove_cursor entity rows)
          ≡ (if str_eq entity other then none else load_cursor other rows))
unfolding load_cursor save_cursor remove_cursor select_row
load_cursor-save_cursor entity other cursor rows =
    (find-replace_row entity other cursor rows, find-delete_row entity other rows)

module _ {N : Type 0} ⦃d : Double N⦄ where
  -- A definition that was saved is read back under its schema, and the others read what they read
  -- before, where the definition is one that the JSON printer and parser agree on.
  pub definition_for-save_definition :
      (schema other : Bytes) (definition : Value N) (rows : Table) {rows' : Table}
      → IsPrintable definition
      → save_definition schema definition rows ≡ ok rows'
      → definition_for other rows'
        ≡ (if str_eq schema other then ok (some definition) else definition_for other rows)
  unfolding save_definition definition_for select_row
  definition_for-save_definition schema other definition rows printable e =
      >>=-elim-ok (stringify definition) _ e λ printed h g. rw (sym (ok-injective g)) (
        rw (find-replace_row schema other printed rows) (elim (Bool-cases (str_eq schema other)) [
          | inl same ↦ rw same (rw (parse-stringify definition printable h) refl)
          | inr differs ↦ rw differs refl
        ]))
