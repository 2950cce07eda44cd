-- ===== src/Tests/SessionTests.antt =====
-- The theorem on the sessions of all schemas, where the first schema has no contract and the network
-- fails in the second. The world counts the operations.
use react_native_salve_db.Prelude.{
  ℕ, suc, true, [], ◌∷◌, none, ℤ, pos, ok, err, network_failure, ◌==◌, if◌then◌else◌,
}
use react_native_salve_db.Exec.{Exec, modify}
use react_native_salve_db.Http.Types.{timeout}
use react_native_salve_db.Http.SyncHttpCaller.{unreachable}
use react_native_salve_db.Sync.Guard.{Transactions}
use react_native_salve_db.Sql.{Database}
use react_native_salve_db.Sync.Push.{PushStore, PushServices}
use react_native_salve_db.Sync.Pull.{PullServices}
use react_native_salve_db.Sync.Orchestrator.{SessionServices, run_sessions}
use react_native_salve_db.Sync.Orchestrator.Sessions.{Sessions, run_sessions-Sessions}
use react_native_salve_db.Tests.Doubles.{integer_double}

abbrev tick : Exec ℕ (Unit {0})
tick = modify suc

instance unfoldable counted_transactions : Transactions ℕ
counted_transactions = record {
  begin_transaction = tick;
  commit = tick;
  rollback = tick;
  insert_lock = tick;
  delete_lock = tick;
}

instance unfoldable empty_database : Database ℕ ℤ
empty_database = record {
  execute = λ sql parameters w. (ok (record { columns = []; rows = [] }), suc w);
}

instance unfoldable empty_queue : PushStore ℕ
empty_queue = record {
  read_pending = λ entity limit w. (ok [], suc w);
  remove = λ id. tick;
  mark_failed = λ id error. tick;
  mark_blocked = λ id reason. tick;
  find_metadata = λ entity id w. (ok none, suc w);
  mark_metadata_failed = λ entity id error time. tick;
  confirm_deleted = λ entity id. tick;
  now_millis = λ w. (ok (pos w), w);
}

instance unfoldable offline_push : PushServices ℕ ℤ
offline_push = record {
  record_remote_success =
      λ entity id body w. (ok (record { old_entity_id = id; resolved_entity_id = id }), suc w);
  rewrite_local_row = λ entity identity body. tick;
  send_remove = λ endpoint id w. (unreachable (record { kind = timeout; message = [] }), w);
  send_update = λ endpoint id body w. (unreachable (record { kind = timeout; message = [] }), w);
  send_create = λ endpoint body w. (unreachable (record { kind = timeout; message = [] }), w);
}

instance unfoldable offline_pull : PullServices ℕ ℤ
offline_pull = record {
  load_cursor = λ entity w. (ok none, w);
  save_cursor = λ entity cursor. tick;
  apply_with_bypass = λ code. code;
  apply_rows = λ entity rows w. (ok (record { inserted = 0; updated = 0; deleted = 0 }), w);
  list_rows =
      λ endpoint since_ms limit w. (unreachable (record { kind = timeout; message = [] }), w);
  log_error = λ tag message w. suc w;
}

instance unfoldable two_schemas : SessionServices ℕ ℤ
two_schemas = record {
  definition_for = λ name w. (if w == 0 then ok none else err (network_failure []), suc w);
  enabled_schemas = λ w. (ok ((b'a' ∷ []) ∷ (b'b' ∷ []) ∷ []), w);
  lock_sync = suc;
  try_lock_sync = λ w. (true, suc w);
  unlock_sync = suc;
  now = λ w. (pos w, suc w);
  minus = λ a b. a;
  log_message = λ message w. suc w;
}

run_sessions-Sessions_example :
    Sessions ℤ
      ((b'a' ∷ []) ∷ (b'b' ∷ []) ∷ [])
      0
      (run_sessions {W = ℕ} ℤ ((b'a' ∷ []) ∷ (b'b' ∷ []) ∷ []) 0)
run_sessions-Sessions_example = run_sessions-Sessions {W = ℕ} ℤ ((b'a' ∷ []) ∷ (b'b' ∷ []) ∷ []) 0
