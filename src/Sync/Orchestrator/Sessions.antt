-- ===== src/Sync/Orchestrator/Sessions.antt =====
-- The loop of `triggerSyncAll` of cpp/sync/SyncOrchestrator.cpp as an inductive relation.
use react_native_salve_db.Prelude.{
  ◌≡◌, refl, List, [], ◌∷◌, Bytes, Exception, runtime_error, network_failure, out_of_range,
  invalid_argument, no_fuel, Result, ok, err,
}
use react_native_salve_db.Json.Double.{Double}
use react_native_salve_db.Sync.Guard.{Transactions}
use react_native_salve_db.Sql.{Database}
use react_native_salve_db.Sync.Push.{PushStore, PushServices}
use react_native_salve_db.Sync.Pull.{PullServices}
use react_native_salve_db.Sync.Orchestrator.{
  NativeSyncResult, SessionServices, run_sync_session, failed_message, stopping_message,
  after_session, run_sessions,
}

-- an exception that does not stop the other schemas
pub data IsIsolated : Exception → Type 0 where
  a_runtime_error : {m : Bytes} → IsIsolated (runtime_error m)
  an_out_of_range : {m : Bytes} → IsIsolated (out_of_range m)
  an_invalid_argument : {m : Bytes} → IsIsolated (invalid_argument m)
  out_of_fuel : IsIsolated no_fuel

module _ {W : Type 0} (N : Type 0) ⦃d : Double N⦄ ⦃db : Database W N⦄ ⦃t : Transactions W⦄
    ⦃store : PushStore W⦄ ⦃push_services : PushServices W N⦄ ⦃pull_services : PullServices W N⦄
    ⦃services : SessionServices W N⦄ where
  -- The sessions of the schemas, from a world, with the results that they give and the world behind them.
  pub data Sessions : List Bytes → W → List (NativeSyncResult N) × W → Type 0 where
    finished : {w : W} → Sessions [] w ([], w)
    -- a session returned, and the rest go on in the world behind it
    synced :
        {name : Bytes} {names : List Bytes} {w w₁ w₂ : W} {result : NativeSyncResult N}
        {results : List (NativeSyncResult N)}
        → run_sync_session N name w ≡ (ok result, w₁)
        → Sessions names w₁ (results, w₂)
        → Sessions (name ∷ names) w (result ∷ results, w₂)
    -- the network failed in a session: it is logged, and the rest have none
    stopped :
        {name : Bytes} {names : List Bytes} {w w₁ : W} {m : Bytes}
        → run_sync_session N name w ≡ (err (network_failure m), w₁)
        → Sessions
            (name ∷ names)
            w
            ([], services.log_message (stopping_message name (network_failure m)) w₁)
    -- a session failed otherwise: it is logged, and the rest go on
    skipped :
        {name : Bytes} {names : List Bytes} {w w₁ : W} {e : Exception}
        {out : List (NativeSyncResult N) × W}
        → run_sync_session N name w ≡ (err e, w₁)
        → IsIsolated e
        → Sessions names (services.log_message (failed_message name e) w₁) out
        → Sessions (name ∷ names) w out

  after_session-Sessions :
      (name : Bytes) (names : List Bytes) (w : W)
      → ((v : W) → Sessions names v (run_sessions N names v))
      → (out : Result (NativeSyncResult N)) (w₁ : W) → run_sync_session N name w ≡ (out, w₁)
      → Sessions (name ∷ names) w (after_session N name (λ v. run_sessions N names v) (out, w₁))
  after_session-Sessions name names w ih (ok result) w₁ e = synced e (ih w₁)
  after_session-Sessions name names w ih (err (network_failure m)) w₁ e = stopped e
  after_session-Sessions name names w ih (err (runtime_error m)) w₁ e =
      skipped e a_runtime_error (ih _)
  after_session-Sessions name names w ih (err (out_of_range m)) w₁ e =
      skipped e an_out_of_range (ih _)
  after_session-Sessions name names w ih (err (invalid_argument m)) w₁ e =
      skipped e an_invalid_argument (ih _)
  after_session-Sessions name names w ih (err no_fuel) w₁ e = skipped e out_of_fuel (ih _)

  -- The loop over the enabled schemas gives the results of the sessions that returned, in order: a
  -- session that fails is logged and leaves out its own result only, unless its failure is one of the
  -- network, which is logged and ends the loop.
  pub run_sessions-Sessions :
      (names : List Bytes) (w : W) → Sessions names w (run_sessions N names w)
  unfolding run_sessions
  run_sessions-Sessions [] w = finished
  run_sessions-Sessions (name ∷ names) w =
      after_session-Sessions name names w (λ v. run_sessions-Sessions names v)
        (run_sync_session N name w).0 (run_sync_session N name w).1 refl
