-- ===== src/Sync/Guard.antt =====
-- cpp/sync/SyncApplyGuard.cpp: code that runs in a transaction, with the triggers of the sync queue
-- switched off by a row of `_sync_apply_lock`. The connection's operations are an interface. The state
-- of the guarded code is the world and a value `R` of the caller, which no rollback touches.
pub mod Outcomes
use react_native_salve_db.Prelude.{Result, ok, err, Exception}
use react_native_salve_db.Exec.{Exec, ◌>>=◌, ◌>>◌, pure}

-- `beginTransaction`, `commit`, `rollback`, and the two statements on `_sync_apply_lock`
pub record Transactions (W : Type 0) : Type 0 where
  pub begin_transaction : Exec W (Unit {0})
  pub commit : Exec W (Unit {0})
  pub rollback : Exec W (Unit {0})
  pub insert_lock : Exec W (Unit {0})
  pub delete_lock : Exec W (Unit {0})

-- an operation on the world, beside the caller's value
abbrev pub on_world : {W R A : Type 0} → Exec W A → Exec (W × R) A
on_world m (w, r) = let (out, w') = m w in (out, (w', r))

module _ {W R : Type 0} ⦃t : Transactions W⦄ where
  -- the destructor of ApplyTransactionGuard behind an exception: what the rollback throws is dropped
  abbrev pub rolled_back : Exception → W × R → Result (Unit {0}) × (W × R)
  rolled_back e (w, r) = (err e, ((t.rollback w).1, r))

  abbrev pub close : Result (Unit {0}) × (W × R) → Result (Unit {0}) × (W × R)
  close (ok u, s) = (ok u, s)
  close (err e, s) = rolled_back e s

  -- between the transaction's beginning and its end
  abbrev pub guarded : Exec (W × R) (Unit {0}) → Exec (W × R) (Unit {0})
  guarded fn = on_world t.insert_lock >> (fn >> (on_world t.delete_lock >> on_world t.commit))

  -- `SyncApplyGuard::applyWithBypass`; a beginning that throws leaves nothing to roll back
  unfoldable pub apply_with_bypass : Exec (W × R) (Unit {0}) → Exec (W × R) (Unit {0})
  apply_with_bypass fn = on_world t.begin_transaction >> λ s. close (guarded fn s)
