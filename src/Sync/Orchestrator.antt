-- ===== src/Sync/Orchestrator.antt =====
-- cpp/sync/SyncOrchestrator.cpp: one session for one schema, push before pull, and a session for each
-- enabled schema. The definitions, the sync lock, the clock and the log are interfaces.
pub mod Sessions
use react_native_salve_db.Prelude.{
  ◌+◌, ℕ, Bool, true, false, not, ◌&&◌, List, [], ◌∷◌, ◌++◌, Option, none, some, Bytes, text,
  em_dash, ℤ, int_text, Exception, runtime_error, network_failure, out_of_range, invalid_argument,
  no_fuel, what, Result, ok, err, if◌then◌else◌,
}
use react_native_salve_db.Exec.{Exec, ◌>>=◌, ◌>>◌, pure, lift, throw}
use react_native_salve_db.Json.{Value, get_bool}
use react_native_salve_db.Json.Double.{Double}
use react_native_salve_db.Sync.Contract.{SyncContract, from_definition}
use react_native_salve_db.Sync.Guard.{Transactions}
use react_native_salve_db.Sql.{Database}
use react_native_salve_db.Sync.Push.{PushStore, PushServices, PushPhaseResult, run_push_phase}
use react_native_salve_db.Sync.Pull.{PullServices, PullPhaseResult, run_pull_phase}

-- `NativeSyncResult`, a generated type; the source turns the counts into doubles
pub record NativeSyncResult (N : Type 0) : Type 0 where
  pub cursor : Option Bytes
  pub applied : ℕ
  pub inserted : ℕ
  pub updated : ℕ
  pub deleted : ℕ
  pub duration_ms : N

-- SyncDefinitionStore, the mutex of DatabaseManager, the clock and `platform::logError`
pub record SessionServices (W N : Type 0) : Type 0 where
  pub definition_for : Bytes → Exec W (Option (Value N))
  pub enabled_schemas : Exec W (List Bytes)
  pub lock_sync : W → W
  pub try_lock_sync : W → Bool × W
  pub unlock_sync : W → W
  pub now : W → N × W
  pub minus : N → N → N
  pub log_message : Bytes → W → W

abbrev is_enabled : {N : Type 0} → Value N → Bool
is_enabled definition = get_bool definition (text "enabled") false

unfoldable pub no_contract : Bytes → Exception
no_contract schema_name = runtime_error (
    text "SyncOrchestrator: schema '"
    ++ (schema_name ++ text "' has no sync.enabled contract registered"))

unfoldable pub push_aborted : Bytes → Exception
push_aborted message = network_failure (
    text "SyncOrchestrator: push phase aborted by a network failure "
    ++ (em_dash ++ (32 ∷ message)))

-- the definition of a schema, which must be there and enabled
abbrev enabled_definition : {N : Type 0} → Bytes → Option (Value N) → Result (Value N)
enabled_definition schema_name none = err (no_contract schema_name)
enabled_definition schema_name (some definition) =
    if is_enabled definition then ok definition else err (no_contract schema_name)

abbrev cursor_text : Option ℤ → Option Bytes
cursor_text none = none
cursor_text (some cursor) = some (int_text cursor)

abbrev summary : {N : Type 0} → PushPhaseResult → PullPhaseResult → N → NativeSyncResult N
summary push pull duration =
    let inserted = pull.stats.inserted in
    let updated = pull.stats.updated + push.replaced in
    let deleted = pull.stats.deleted + push.deleted in
    record {
      cursor = cursor_text pull.cursor_ms;
      applied = inserted + updated + deleted;
      inserted = inserted;
      updated = updated;
      deleted = deleted;
      duration_ms = duration;
    }

-- the text behind the names of `triggerSyncAll` and of the schema
unfoldable pub failed_message : Bytes → Exception → Bytes
failed_message schema_name e =
    text "SyncOrchestrator: triggerSyncAll "
    ++ (em_dash ++ (text " schema '" ++ (schema_name ++ (text "' failed: " ++ what e))))

unfoldable pub stopping_message : Bytes → Exception → Bytes
stopping_message schema_name e =
    failed_message schema_name e ++ (32 ∷ (em_dash ++ text " stopping the remaining schemas"))

module _ {W : Type 0} (N : Type 0) ⦃d : Double N⦄ ⦃db : Database W N⦄ ⦃t : Transactions W⦄
    ⦃store : PushStore W⦄ ⦃push_services : PushServices W N⦄ ⦃pull_services : PullServices W N⦄
    ⦃services : SessionServices W N⦄ where
  abbrev read_clock : Exec W N
  read_clock w = let (time, w') = services.now w in (ok time, w')

  -- the pull of a session, behind a push that the network did not abort
  unfoldable pub pull_session :
      Bytes → SyncContract → N → PushPhaseResult → Exec W (NativeSyncResult N)
  pull_session schema_name contract start push =
      if push.aborted_by_network
      then throw (push_aborted push.network_failure_text)
      else run_pull_phase N schema_name contract >>= λ pull.
          read_clock >>= λ end_time. pure (summary push pull (services.minus end_time start))

  -- `runSyncSession`
  unfoldable pub run_sync_session : Bytes → Exec W (NativeSyncResult N)
  run_sync_session schema_name = services.definition_for schema_name >>= λ found.
      lift (enabled_definition schema_name found) >>= λ definition.
      lift (from_definition definition true) >>= λ contract. read_clock >>= λ start.
      run_push_phase N schema_name contract >>= λ push. pull_session schema_name contract start push

  -- what a round of the loop does with the outcome of its session; `rest` is the loop over the others
  abbrev pub after_session :
      Bytes
      → (W → List (NativeSyncResult N) × W)
      → Result (NativeSyncResult N) × W
      → List (NativeSyncResult N) × W
  after_session schema_name rest (ok result, w) =
      let (results, w') = rest w in (result ∷ results, w')
  after_session schema_name rest (err (network_failure m), w) =
      ([], services.log_message (stopping_message schema_name (network_failure m)) w)
  after_session schema_name rest (err e, w) =
      rest (services.log_message (failed_message schema_name e) w)

  -- the loop of `triggerSyncAll`
  unfoldable pub run_sessions : List Bytes → W → List (NativeSyncResult N) × W
  run_sessions [] w = ([], w)
  run_sessions (schema_name ∷ names) w =
      after_session schema_name (λ w'. run_sessions names w') (run_sync_session schema_name w)

  abbrev all_sessions : Exec W (List (NativeSyncResult N))
  all_sessions = services.enabled_schemas >>= λ names w.
      let (results, w') = run_sessions names w in (ok results, w')

  abbrev released : {A : Type 0} → Result A × W → Result A × W
  released (r, w) = (r, services.unlock_sync w)

  -- a body under the sync lock, given back at the end of the scope; `busy` is what another session that
  -- holds it makes of a call that does not wait
  unfoldable pub under_lock : {A : Type 0} → Bool → Bytes → A → Exec W A → Exec W A
  under_lock false message busy body w = released (body (services.lock_sync w))
  under_lock true message busy body w =
      let (owned, w') = services.try_lock_sync w in
      if owned then released (body w') else (ok busy, services.log_message message w')

  -- `triggerSync`
  unfoldable pub trigger_sync : Bytes → Bool → Exec W (Option (NativeSyncResult N))
  trigger_sync schema_name discard_if_busy =
      under_lock discard_if_busy
        (text "SyncOrchestrator: sync already in progress, discarding triggerSync for schema '"
          ++ (schema_name ++ text "'"))
        none (run_sync_session schema_name >>= λ result. pure (some result))

  -- `triggerSyncAll`
  unfoldable pub trigger_sync_all : Bool → Exec W (List (NativeSyncResult N))
  trigger_sync_all discard_if_busy =
      under_lock discard_if_busy
        (text "SyncOrchestrator: sync already in progress, discarding triggerSyncAll") []
        all_sessions
