-- ===== src/Tests/RegisterTests.antt =====
-- A registration that a statement of the system's tables interrupts.
use react_native_salve_db.Prelude.{
  ℕ, suc, ◌==◌, ◌≡◌, refl, [], ◌∷◌, text, ℤ, ok, err, runtime_error, if◌then◌else◌,
}
use react_native_salve_db.Exec.{Exec, pure}
use react_native_salve_db.Sql.{Database}
use react_native_salve_db.Connection.Rows.{SchemaRegistry}
use react_native_salve_db.Schema.Register.{
  MigrationStores, exec_each, prepare_system, migrate, register_schema,
}
use react_native_salve_db.Schema.Register.Outcomes.{IsRegistered, register_schema-IsRegistered}
use react_native_salve_db.Tests.Doubles.{integer_double}
use react_native_salve_db.Tests.SchemaTests.{integers, schema}

-- the statements that were executed, and how many were when the transaction began
abbrev World : Type 0
World = ℕ × ℕ

abbrev counting : Exec World (Unit {0})
counting (n, saved) = (ok tt, (suc n, saved))

-- the statement behind the seventh is refused
instance unfoldable counted : Database World ℤ
counted = record { execute = λ sql params w. (ok record { columns = []; rows = [] }, w) }

instance unfoldable refusing : MigrationStores World ℤ
refusing = record {
  begin_transaction = λ w. (ok tt, (w.0, w.0));
  commit = pure tt;
  rollback = λ w. (ok tt, (w.1, w.1));
  exec = λ sql w. if w.0 == 7 then (err (runtime_error (text "disk I/O error")), w) else counting w;
  remove_all_cursors = counting;
  backfill_rows = λ t k. counting;
  save_definition_of = λ t v. counting;
  remove_definition_of = λ t. counting;
  replace_relations = λ t rs. counting;
}

abbrev before : World
before = (5, 0)

abbrev after : World
after = (5, 5)

abbrev registry : SchemaRegistry
registry = (text "U", []) ∷ []

interrupted :
    register_schema {W = World} ℤ schema (before, registry)
    ≡ (err (runtime_error (text "disk I/O error")), (after, registry))
unfolding register_schema migrate prepare_system exec_each refusing counted
interrupted = refl

register_schema-IsRegistered_example :
    IsRegistered ℤ schema before registry (register_schema {W = World} ℤ schema (before, registry))
register_schema-IsRegistered_example = register_schema-IsRegistered ℤ schema before registry
