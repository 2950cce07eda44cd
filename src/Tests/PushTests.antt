-- ===== src/Tests/PushTests.antt =====
-- The theorems on the guard and on the bodies of a push, on a counter of operations and on one row.
use react_native_salve_db.Prelude.{
  ◌≡◌, refl, ℕ, suc, true, false, [], ◌∷◌, none, text, str_eq, ℤ, ok,
}
use react_native_salve_db.Exec.{Exec, modify}
use react_native_salve_db.OrderedMap.{assign}
use react_native_salve_db.Json.{object, string, get, field, end}
use react_native_salve_db.Sync.Guard.{Transactions, apply_with_bypass}
use react_native_salve_db.Sync.Guard.Outcomes.{IsGuarded, apply_with_bypass-IsGuarded}
use react_native_salve_db.Sql.{QueryResult, sql_null, sql_string}
use react_native_salve_db.Sync.Push.Snapshot.{RowSnapshot, sql_value_to_json, body_of, snapshot_of}
use react_native_salve_db.Sync.Push.Snapshot.Body.{snapshot_of-body}

instance unfoldable counter : Transactions ℕ
counter = record {
  begin_transaction = modify suc;
  commit = modify suc;
  rollback = modify suc;
  insert_lock = modify suc;
  delete_lock = modify suc;
}

abbrev step : Exec (ℕ × ℕ) (Unit {0})
step = modify (λ s. (s.0, suc s.1))

apply_with_bypass-IsGuarded_example : IsGuarded step (0, 0) (apply_with_bypass step (0, 0))
apply_with_bypass-IsGuarded_example = apply_with_bypass-IsGuarded step (0, 0)

abbrev result : QueryResult ℤ
result = record {
  columns = text "id" ∷ text "name" ∷ text "deletedAt" ∷ [];
  rows = (sql_string (text "1") ∷ sql_string (text "x") ∷ sql_null ∷ []) ∷ [];
}

abbrev snapshot : RowSnapshot ℤ
snapshot = record {
  is_there = true;
  tombstoned = false;
  body = object (field (text "name") (string (text "x")) end);
}

snapshot_read : snapshot_of (text "id") result ≡ ok snapshot
unfolding snapshot_of body_of sql_value_to_json text str_eq assign
snapshot_read = refl

snapshot_of-body_example :
    (get snapshot.body (text "id") ≡ none) × (get snapshot.body (text "deletedAt") ≡ none)
snapshot_of-body_example = snapshot_of-body (text "id") result snapshot_read
