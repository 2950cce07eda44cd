-- ===== src/Tests/ApplierTests.antt =====
-- The theorems on the applier: one page, on a database that always finds one row.
use react_native_salve_db.Prelude.{
  ℕ, suc, ◌≤◌, ◌≡◌, refl, true, [], ◌∷◌, none, some, text, str_eq, ℤ, pos, ok, length,
}
use react_native_salve_db.Exec.{pure}
use react_native_salve_db.OrderedMap.{find}
use react_native_salve_db.Json.{Value, string, number, object, field, end, get, is_object}
use react_native_salve_db.Sql.{Database, QueryResult, sql_double, sql_string, sql_null}
use react_native_salve_db.Sync.Contract.{SyncConflict}
use react_native_salve_db.Sync.Pull.{ApplyStats}
use react_native_salve_db.Sync.Applier.Values.{
  TableColumns, columns_from, json_scalar_to_string, read_optional_number, row_columns,
}
use react_native_salve_db.Connection.Rows.{member}
use react_native_salve_db.Sync.Applier.{
  ApplierStore, apply, no_stats, read_local, apply_row, apply_each, apply_keyed, resolve_row,
  resolve_as, columns_for, keep_columns, write_row, write_columns, should_apply, is_newer,
}
use react_native_salve_db.Sync.Applier.Counts.{total, apply-total}
use react_native_salve_db.Sync.Applier.Kept.{LocalPrevails, later, apply_row-kept}
use react_native_salve_db.Tests.Doubles.{integer_double}

abbrev answer : QueryResult ℤ
answer = record {
  columns = [];
  rows =
      (sql_double (pos 7)
        ∷ sql_string (text "id")
        ∷ sql_null
        ∷ sql_null
        ∷ sql_null
        ∷ sql_double (pos 1)
        ∷ [])
      ∷ [];
}

-- a world that counts the statements
instance unfoldable one_row : Database ℕ ℤ
one_row = record { execute = λ sql params w. (ok answer, suc w) }

instance unfoldable counted_store : ApplierStore ℕ
counted_store = record {
  now_millis = pure (pos 9);
  entity_id_of = λ t l. pure none;
  mark_replaced = λ t l e now. pure tt;
  mark_deleted_synced = λ t l now. pure tt;
  mark_pulled_synced = λ t e status now w. (ok tt, suc w);
  relations_referencing = λ t. pure [];
  rewrite_entity_id = λ t old new. pure tt;
}

abbrev conflict : SyncConflict
conflict = record {
  strategy = text "lastWriteWins";
  conflict_field = text "at";
  field_explicit = true;
}

abbrev pulled_at : ℤ → Value ℤ
pulled_at n = object (field (text "id") (string (text "1")) (field (text "at") (number n) end))

abbrev one_updated : ApplyStats
one_updated = record { inserted = 0; updated = 1; deleted = 0 }

abbrev id_columns : TableColumns
id_columns = record { primary_key = text "id"; all = text "id" ∷ [] }

applying :
    apply {W = ℕ} conflict (text "T") (pulled_at (pos 8) ∷ []) ([], 0)
    ≡ (ok one_updated, ((text "T", id_columns) ∷ [], 4))
unfolding apply apply_each apply_row apply_keyed resolve_row resolve_as read_local columns_for
    keep_columns columns_from is_object get find text str_eq json_scalar_to_string
    read_optional_number should_apply is_newer write_row write_columns row_columns member one_row
    integer_double counted_store
applying = refl

apply-total_example : total one_updated ≤ length (pulled_at (pos 8) ∷ [])
apply-total_example = apply-total conflict (text "T") (pulled_at (pos 8) ∷ []) ([], 0) applying

reading :
    read_local {W = ℕ} conflict (text "T") id_columns (text "1") ([], 0)
    ≡ (ok (record { is_there = true; timestamp = some (pos 7) }), ([], 1))
unfolding read_local text str_eq one_row
reading = refl

key_found : get (pulled_at (pos 7)) (text "id") ≡ some (string (text "1"))
unfolding get find text str_eq
key_found = refl

prevails :
    LocalPrevails conflict
      (pulled_at (pos 7))
      (record { is_there = true; timestamp = some (pos 7) })
unfolding read_optional_number get find text str_eq integer_double
prevails = later (pos 7) refl refl refl

apply_row-kept_example :
    apply_row {W = ℕ} conflict (text "T") id_columns (pos 9) no_stats (pulled_at (pos 7)) ([], 0)
    ≡ (ok no_stats, ([], 1))
unfolding is_object json_scalar_to_string
apply_row-kept_example =
    apply_row-kept conflict (text "T") id_columns (pos 9) no_stats (pulled_at (pos 7))
      (string (text "1")) (text "1") (record { is_there = true; timestamp = some (pos 7) }) ([], 0)
      ([], 1) refl key_found refl reading refl prevails
