-- ===== src/Sync/Push.antt =====
-- cpp/sync/SyncPushPhase.cpp: the pending items of one entity, each sent by one request. The tables
-- behind the phase, the requester and the clock are the operations of `PushServices`; what a row is
-- sent as is in Push/Snapshot.
pub mod Snapshot
use react_native_salve_db.Prelude.{
  ℕ, suc, ◌+◌, Bool, true, false, not, ◌&&◌, List, [], ◌∷◌, ◌++◌, Option, none, some, Bytes, text,
  em_dash, str_eq, ℤ, pos, eq_ℤ, int_text, Exception, what, Result, ok, err, if◌then◌else◌, is_some,
  value_or,
}
use react_native_salve_db.Exec.{Exec, ◌>>=◌, ◌>>◌, pure, modify, catch}
use react_native_salve_db.Json.{Value, null, is_object}
use react_native_salve_db.Json.Double.{Double}
use react_native_salve_db.Http.SyncHttpCaller.{
  SyncHttpOutcome, SyncHttpResponse, answered, unreachable,
}
use react_native_salve_db.Credentials.Provider.{is_success}
use react_native_salve_db.Sync.Contract.{SyncContract, SyncEndpoint}
use react_native_salve_db.Sync.Guard.{Transactions, on_world, apply_with_bypass}
use react_native_salve_db.Sql.{Database}
use react_native_salve_db.Sync.Push.Snapshot.{RowSnapshot, primary_key_column, read_row_snapshot}

-- `SyncQueueItem`
pub record SyncQueueItem : Type 0 where
  pub id : ℤ
  pub operation : Bytes
  pub queued_entity_id : Bytes
  pub local_id : Option Bytes

pub record ReplaceIdentity : Type 0 where
  pub old_entity_id : Bytes
  pub resolved_entity_id : Bytes

pub record PushPhaseResult : Type 0 where
  pub replaced : ℕ
  pub deleted : ℕ
  pub failed : ℕ
  pub aborted_by_network : Bool
  pub network_failure_text : Bytes

-- SyncQueueStore, SalveMetadataManager, `SyncOperationApplier::confirmDeleted` and the clock, as far as
-- the phase calls them. `find_metadata` gives the remote id of the row that it finds.
pub record PushStore (W : Type 0) : Type 0 where
  pub read_pending : Bytes → ℕ → Exec W (List SyncQueueItem)
  pub remove : ℤ → Exec W (Unit {0})
  pub mark_failed : ℤ → Bytes → Exec W (Unit {0})
  pub mark_blocked : ℤ → Bytes → Exec W (Unit {0})
  pub find_metadata : Bytes → Bytes → Exec W (Option (Option Bytes))
  pub mark_metadata_failed : Bytes → Bytes → Bytes → ℤ → Exec W (Unit {0})
  pub confirm_deleted : Bytes → Bytes → Exec W (Unit {0})
  pub now_millis : Exec W ℤ

-- the rest of SyncOperationApplier, and SyncHttpRequester
pub record PushServices (W N : Type 0) : Type 0 where
  pub record_remote_success : Bytes → Bytes → Value N → Exec W ReplaceIdentity
  pub rewrite_local_row : Bytes → ReplaceIdentity → Value N → Exec W (Unit {0})
  pub send_remove : SyncEndpoint → Bytes → W → SyncHttpOutcome N × W
  pub send_update : SyncEndpoint → Bytes → Value N → W → SyncHttpOutcome N × W
  pub send_create : SyncEndpoint → Value N → W → SyncHttpOutcome N × W

-- `kMaxPushItemsPerSession`
abbrev pub max_push_items : ℕ
max_push_items = 200

abbrev nothing_pushed : PushPhaseResult
nothing_pushed = record {
  replaced = 0;
  deleted = 0;
  failed = 0;
  aborted_by_network = false;
  network_failure_text = [];
}

abbrev count_replaced : PushPhaseResult → PushPhaseResult
count_replaced r = record r { replaced = suc r.replaced }

abbrev count_deleted : PushPhaseResult → PushPhaseResult
count_deleted r = record r { deleted = suc r.deleted }

abbrev count_failed : PushPhaseResult → PushPhaseResult
count_failed r = record r { failed = suc r.failed }

abbrev abort : Bytes → PushPhaseResult → PushPhaseResult
abort message r = record r { aborted_by_network = true; network_failure_text = message }

abbrev counting :
    {W : Type 0} → (PushPhaseResult → PushPhaseResult) → Exec (W × PushPhaseResult) (Unit {0})
counting f = modify (λ s. (s.0, f s.1))

abbrev remote_of : Option (Option Bytes) → Option Bytes
remote_of (some (some id)) = some id
remote_of _ = none

unfoldable pub apply_error : Exception → Bytes
apply_error e = text "local apply failed after a successful server write: " ++ what e

unfoldable pub build_error : Exception → Bytes
build_error e = text "failed to build push body: " ++ what e

unfoldable pub empty_body_error : Bytes
empty_body_error =
    text "POST succeeded with an empty body "
    ++ (em_dash ++ text " server must echo the created entity")

unfoldable pub gone_error : Bytes
gone_error = text "HTTP 404 " ++ (em_dash ++ text " target no longer exists on the server")

abbrev local_id_for_apply : SyncQueueItem → Bytes
local_id_for_apply item = value_or item.queued_entity_id item.local_id

abbrev current_id : SyncQueueItem → Option Bytes → Bytes
current_id item remote_id = value_or item.queued_entity_id remote_id

module _ {W : Type 0} ⦃t : Transactions W⦄ ⦃store : PushStore W⦄ (entity : Bytes)
    (item : SyncQueueItem) where
  -- `queue.remove(item.id)`
  abbrev remove_item : Exec (W × PushPhaseResult) (Unit {0})
  remove_item = on_world (store.remove item.id)

  abbrev block_item : Bytes → Exec (W × PushPhaseResult) (Unit {0})
  block_item reason = on_world (store.mark_blocked item.id reason)

  -- the queue and the metadata say that the item failed
  abbrev fail_item : Bytes → Exec (W × PushPhaseResult) Bool
  fail_item error =
      on_world (store.mark_failed item.id error)
      >> (on_world
            (store.now_millis >>= store.mark_metadata_failed entity (local_id_for_apply item) error)
          >> (counting count_failed >> pure true))

  abbrev confirm_item : Exec (W × PushPhaseResult) (Unit {0})
  confirm_item = on_world (store.confirm_deleted entity (local_id_for_apply item))

  -- `confirmDeleted`, the count, and the end of the item
  abbrev delete_confirmed : Exec (W × PushPhaseResult) (Unit {0})
  delete_confirmed = confirm_item >> (counting count_deleted >> remove_item)

  -- a status that is no success
  unfoldable pub refuse : Bool → ℤ → Exec (W × PushPhaseResult) Bool
  refuse is_delete status =
      if is_delete && eq_ℤ status (pos 404)
      then apply_with_bypass delete_confirmed >> pure true
      else if not is_delete && eq_ℤ status (pos 404)
      then block_item gone_error >> pure true
      else fail_item (text "HTTP " ++ int_text status)

module _ {W N : Type 0} ⦃d : Double N⦄ ⦃t : Transactions W⦄ ⦃store : PushStore W⦄
    ⦃services : PushServices W N⦄ (entity : Bytes) (contract : SyncContract) (item : SyncQueueItem)
    (remote_id : Option Bytes) where
  -- a created or updated row takes the server's values
  abbrev replace_local : Value N → Exec (W × PushPhaseResult) (Unit {0})
  replace_local body =
      on_world (services.record_remote_success entity (local_id_for_apply item) body)
      >>= λ identity.
          catch
            (on_world (services.rewrite_local_row entity identity body)
              >> (counting count_replaced >> remove_item entity item))
            (λ e. block_item entity item (apply_error e))

  -- a write that the server accepted is applied here, or the item is blocked
  unfoldable pub apply_success : Bool → Value N → Exec (W × PushPhaseResult) Bool
  apply_success is_delete body =
      catch
        (apply_with_bypass (if is_delete then delete_confirmed entity item else replace_local body))
        (λ e. block_item entity item (apply_error e))
      >> pure true

  -- behind the request; the flag says whether the phase goes on
  unfoldable pub after_send : Bool → SyncHttpOutcome N → Exec (W × PushPhaseResult) Bool
  after_send is_delete (unreachable e) = counting (abort e.message) >> pure false
  after_send is_delete (answered r) =
      if not (is_success r.status_code)
      then refuse entity item is_delete r.status_code
      else if (not is_delete && not (is_some remote_id)) && not (is_object r.body)
      then fail_item entity item empty_body_error
      else apply_success is_delete r.body

  abbrev send_body : Value N → Option Bytes → W → SyncHttpOutcome N × W
  send_body body (some id) = services.send_update contract.endpoint (current_id item remote_id) body
  send_body body none = services.send_create contract.endpoint body

  abbrev sending : (W → SyncHttpOutcome N × W) → Exec (W × PushPhaseResult) (SyncHttpOutcome N)
  sending send s = let (outcome, w) = send s.0 in (ok outcome, (w, s.1))

  -- what is sent for an item: nothing for a row that the server never saw or that is gone
  unfoldable pub send_item : Bool → Option (Value N) → Exec (W × PushPhaseResult) Bool
  send_item true body =
      if is_some remote_id
      then sending (services.send_remove contract.endpoint (current_id item remote_id))
        >>= after_send true
      else apply_with_bypass (confirm_item entity item >> remove_item entity item) >> pure true
  send_item false none = remove_item entity item >> pure true
  send_item false (some body) = sending (send_body body remote_id) >>= after_send false

  abbrev snapshot_item : RowSnapshot N → Exec (W × PushPhaseResult) Bool
  snapshot_item snapshot =
      if snapshot.tombstoned
      then send_item true none
      else send_item false (if snapshot.is_there then some snapshot.body else none)

  abbrev after_snapshot :
      Result (RowSnapshot N) × W → PushPhaseResult → Result Bool × (W × PushPhaseResult)
  after_snapshot (ok snapshot, w) r = snapshot_item snapshot (w, r)
  after_snapshot (err e, w) r = fail_item entity item (build_error e) (w, r)

module _ {W : Type 0} (N : Type 0) ⦃d : Double N⦄ ⦃db : Database W N⦄ ⦃t : Transactions W⦄
    ⦃store : PushStore W⦄ ⦃services : PushServices W N⦄ (entity : Bytes)
    (contract : SyncContract) where
  -- an item from its snapshot on
  unfoldable pub push_resolved :
      Bytes → SyncQueueItem → Option Bytes → Exec (W × PushPhaseResult) Bool
  push_resolved pk_column item remote_id s =
      if str_eq item.operation (text "delete")
      then send_item {N = N} entity contract item remote_id true none s
      else after_snapshot {N = N} entity contract item remote_id
          (read_row_snapshot {N = N} entity pk_column (current_id item remote_id) s.0) s.1

  -- the server's id of an item now, which an earlier item may have changed
  abbrev resolve : Option Bytes → Exec (W × PushPhaseResult) (Option Bytes)
  resolve none = pure none
  resolve (some local_id) =
      on_world (store.find_metadata entity local_id) >>= λ found. pure (remote_of found)

  -- one round of the loop
  unfoldable pub push_item : Bytes → SyncQueueItem → Exec (W × PushPhaseResult) Bool
  push_item pk_column item =
      resolve item.local_id >>= λ remote_id. push_resolved pk_column item remote_id

  -- the loop over the items, which a network failure stops
  unfoldable pub push_items : Bytes → List SyncQueueItem → Exec (W × PushPhaseResult) (Unit {0})
  push_items pk_column [] = pure tt
  push_items pk_column (item ∷ items) =
      push_item pk_column item >>= λ go_on. if go_on then push_items pk_column items else pure tt

  abbrev result_of : Result (Unit {0}) × (W × PushPhaseResult) → Result PushPhaseResult × W
  result_of (ok u, s) = (ok s.1, s.0)
  result_of (err e, s) = (err e, s.0)

  -- `runPushPhase`
  unfoldable pub run_push_phase : Exec W PushPhaseResult
  run_push_phase = primary_key_column N entity >>= λ pk_column.
      store.read_pending entity max_push_items >>= λ items w.
      result_of (push_items pk_column items (w, nothing_pushed))
