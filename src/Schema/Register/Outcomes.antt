-- ===== src/Schema/Register/Outcomes.antt =====
-- The ways in which `registerSchema` of cpp/database/MigrationEngine.cpp ends.
use react_native_salve_db.Prelude.{◌≡◌, refl, Result, ok, err, Exception}
use react_native_salve_db.Exec.{continue}
use react_native_salve_db.Json.Double.{Double}
use react_native_salve_db.Sql.{Database}
use react_native_salve_db.Connection.Rows.{FromInteger, SchemaRegistry, register_boolean_columns}
use react_native_salve_db.Schema.{SchemaDef}
use react_native_salve_db.Schema.Register.{
  MigrationStores, boolean_columns, migrate, settle, after_begin, register_schema,
}

module _ {W : Type 0} (N : Type 0) ⦃d : Double N⦄ ⦃f : FromInteger N⦄ ⦃db : Database W N⦄
    ⦃m : MigrationStores W N⦄ (schema : SchemaDef N) where
  -- how a registration ends, from the world `w` and the registry `r`
  pub data IsRegistered (w : W) (r : SchemaRegistry)
      : Result (Unit {0}) × (W × SchemaRegistry) → Type 0 where
    -- the transaction did not begin: nothing else ran
    not_begun :
        {e : Exception} {w₁ : W}
        → m.begin_transaction w ≡ (err e, w₁)
        → IsRegistered w r (err e, (w₁, r))
    -- a step threw: the transaction is rolled back and not committed
    undone :
        {e : Exception} {w₁ w₂ : W}
        → m.begin_transaction w ≡ (ok tt, w₁)
        → migrate N schema w₁ ≡ (err e, w₂)
        → IsRegistered w r (err e, ((m.rollback w₂).1, r))
    -- the commit threw: the transaction is rolled back
    not_committed :
        {e : Exception} {w₁ w₂ w₃ : W}
        → m.begin_transaction w ≡ (ok tt, w₁)
        → migrate N schema w₁ ≡ (ok tt, w₂)
        → m.commit w₂ ≡ (err e, w₃)
        → IsRegistered w r (err e, ((m.rollback w₃).1, r))
    -- everything returned, and the boolean columns are registered
    registered :
        {w₁ w₂ w₃ : W}
        → m.begin_transaction w ≡ (ok tt, w₁)
        → migrate N schema w₁ ≡ (ok tt, w₂)
        → m.commit w₂ ≡ (ok tt, w₃)
        → IsRegistered w r (
          ok tt,
          (
            w₃,
            register_boolean_columns schema.schema_name (boolean_columns schema.schema_columns) r,
          ),
        )

  committed :
      (w : W) (r : SchemaRegistry) {w₁ w₂ : W}
      → m.begin_transaction w ≡ (ok tt, w₁)
      → migrate N schema w₁ ≡ (ok tt, w₂)
      → (out : Result (Unit {0})) (w₃ : W) → m.commit w₂ ≡ (out, w₃)
      → IsRegistered w r (settle N schema r (out, w₃))
  committed w r begun done (ok tt) w₃ e = registered begun done e
  committed w r begun done (err x) w₃ e = not_committed begun done e

  migrated :
      (w : W) (r : SchemaRegistry) {w₁ : W}
      → m.begin_transaction w ≡ (ok tt, w₁)
      → (out : Result (Unit {0})) (w₂ : W) → migrate N schema w₁ ≡ (out, w₂)
      → IsRegistered w r (settle N schema r (continue out (λ u. m.commit) w₂))
  migrated w r begun (ok tt) w₂ e = committed w r begun e (m.commit w₂).0 (m.commit w₂).1 refl
  migrated w r begun (err x) w₂ e = undone begun e

  begins :
      (w : W) (r : SchemaRegistry) (out : Result (Unit {0})) (w₁ : W)
      → m.begin_transaction w ≡ (out, w₁)
      → IsRegistered w r (after_begin N schema r (out, w₁))
  begins w r (ok tt) w₁ e = migrated w r e (migrate N schema w₁).0 (migrate N schema w₁).1 refl
  begins w r (err x) w₁ e = not_begun e

  -- A registration ends in one of four ways: the transaction did not begin, and nothing else ran; a step
  -- threw, and the transaction was rolled back without a commit; the commit threw, and the transaction was
  -- rolled back; or every step and the commit returned, with no rollback. Only in the last the schema's
  -- boolean columns are registered, and in the others the exception goes on.
  pub register_schema-IsRegistered :
      (w : W) (r : SchemaRegistry) → IsRegistered w r (register_schema N schema (w, r))
  unfolding register_schema
  register_schema-IsRegistered w r =
      begins w r (m.begin_transaction w).0 (m.begin_transaction w).1 refl
