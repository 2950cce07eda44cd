-- ===== src/Tests/ResetTests.antt =====
-- A reset whose wipe fails in its second statement.
use react_native_salve_db.Prelude.{
  ℕ, suc, ◌==◌, ◌≡◌, refl, Bool, true, false, [], ◌∷◌, text, ℤ, ok, err, runtime_error,
  if◌then◌else◌,
}
use react_native_salve_db.Exec.{Exec, pure}
use react_native_salve_db.Sql.{Database, sql_string}
use react_native_salve_db.Connection.Rows.{SchemaRegistry}
use react_native_salve_db.Sync.Guard.{Transactions, apply_with_bypass}
use react_native_salve_db.Reset.{
  ResetServices, reset, after_listing, sign_out, after_clearing, first_error, domain_tables,
  first_texts, wipe, sync_tables_exist, wipe_locked, wipe_domain_tables, wipe_internal_tables,
}
use react_native_salve_db.Reset.Outcomes.{IsReset, reset-IsReset}

-- whether there are tokens, and how many statements have run
abbrev Session : Type 0
Session = Bool × ℕ

abbrev run_one : Exec Session (Unit {0})
run_one (tokens, n) = (ok tt, (tokens, suc n))

instance unfoldable session_database : Database Session ℤ
session_database = record {
  execute = λ sql params w. (
    ok record {
      columns = [];
      rows = (sql_string (text "T") ∷ []) ∷ (sql_string (text "U") ∷ []) ∷ [];
    },
    w,
  );
}

instance unfoldable session_transactions : Transactions Session
session_transactions = record {
  begin_transaction = pure tt;
  commit = pure tt;
  rollback = pure tt;
  insert_lock = run_one;
  delete_lock = run_one;
}

instance unfoldable session_services : ResetServices Session
session_services = record {
  is_open = λ w. true;
  exec = λ sql w. if w.1 == 2 then (err (runtime_error (text "busy")), w) else run_one w;
  clear_tokens = λ w. (ok tt, (false, w.1));
  reset_config = λ w. w;
  remove_config_file = pure tt;
}

abbrev registered : SchemaRegistry
registered = (text "T", []) ∷ []

abbrev before : Session
before = (true, 0)

wiped_badly :
    reset {W = Session} ℤ (before, registered)
    ≡ (err (runtime_error (text "busy")), ((false, 2), []))
unfolding reset after_listing sign_out after_clearing first_error domain_tables first_texts wipe
    sync_tables_exist wipe_locked wipe_domain_tables wipe_internal_tables apply_with_bypass
    session_services session_transactions session_database
wiped_badly = refl

reset-IsReset_example : IsReset ℤ before registered (reset {W = Session} ℤ (before, registered))
reset-IsReset_example = reset-IsReset ℤ before registered
