-- ===== src/Sync/Applier/Rewrite.antt =====
-- cpp/sync/SyncOperationApplier.cpp, the two steps behind a successful push, and the cascade of
-- cpp/sync/RelationCascadeRewriter.cpp.
use react_native_salve_db.Prelude.{
  Bool, true, false, not, ◌||◌, List, [], ◌∷◌, ◌++◌, Option, none, some, Bytes, text, str_eq, ℤ,
  Exception, runtime_error, if◌then◌else◌, is_empty,
}
use react_native_salve_db.Exec.{Exec, ◌>>=◌, ◌>>◌, pure, throw, lift}
use react_native_salve_db.Json.{Value, get, is_object}
use react_native_salve_db.Json.Double.{Double}
use react_native_salve_db.Sql.{SqlValue, Database, sql_string}
use react_native_salve_db.Connection.Rows.{member}
use react_native_salve_db.Sync.Contract.{SyncConflict}
use react_native_salve_db.Sync.Push.{ReplaceIdentity}
use react_native_salve_db.Sync.Relations.{RelationRow}
use react_native_salve_db.Sync.Applier.Values.{
  TableColumns, json_scalar_to_string, read_optional_number, data_columns, names_of, values_of,
  quoted, update_statement, select_statement,
}
use react_native_salve_db.Sync.Applier.{
  ColumnsCache, ApplierStore, on_db, columns_for, members_of, first_number,
}

unfoldable pub no_metadata : Bytes → Bytes → Exception
no_metadata local_id entity = runtime_error (
    text "SyncOperationApplier: no metadata found for localId '"
    ++ (local_id ++ (text "' on entity '" ++ (entity ++ text "'"))))

unfoldable pub is_renamed : ReplaceIdentity → Bool
is_renamed i = not (str_eq i.resolved_entity_id i.old_entity_id)

-- the statement of the cascade for one foreign key
unfoldable pub cascade_statement : RelationRow → Bytes
cascade_statement r =
    text "UPDATE "
    ++ (quoted r.child_table
        ++ (text " SET "
            ++ (quoted r.fk_column ++ (text " = ? WHERE " ++ (quoted r.fk_column ++ text " = ?")))))

module _ {W : Type 0} (N : Type 0) ⦃db : Database W N⦄ ⦃store : ApplierStore W⦄ where
  -- the loop of `RelationCascadeRewriter::rewrite`
  unfoldable pub cascade_each : Bytes → Bytes → List RelationRow → Exec W (Unit {0})
  cascade_each old_id new_id [] = pure tt
  cascade_each old_id new_id (r ∷ relations) =
      db.execute (cascade_statement r) (sql_string new_id ∷ sql_string old_id ∷ []) >>= λ result.
      cascade_each old_id new_id relations

  -- `RelationCascadeRewriter::rewrite`
  unfoldable pub cascade_rewrite : Bytes → Bytes → Bytes → Exec W (Unit {0})
  cascade_rewrite parent_table old_id new_id =
      store.relations_referencing parent_table >>= cascade_each old_id new_id

  -- the key of the row
  unfoldable pub rewrite_key : Bytes → TableColumns → ReplaceIdentity → Exec W (Unit {0})
  rewrite_key entity cols identity =
      if is_renamed identity
      then db.execute (update_statement entity cols.primary_key (cols.primary_key ∷ []))
          (sql_string identity.resolved_entity_id ∷ sql_string identity.old_entity_id ∷ [])
        >>= (λ result. pure tt)
      else pure tt

  -- the references to the row
  unfoldable pub rewrite_references : Bytes → ReplaceIdentity → Exec W (Unit {0})
  rewrite_references entity identity =
      if is_renamed identity
      then cascade_rewrite entity identity.old_entity_id identity.resolved_entity_id
        >> store.rewrite_entity_id entity identity.old_entity_id identity.resolved_entity_id
      else pure tt

module _ {N : Type 0} ⦃d : Double N⦄ where
  -- `*n <= *responseUpdatedAt`, where the stored value is a number
  unfoldable pub not_later : N → Option N → Bool
  not_later response none = true
  not_later response (some n) = d.lt n response || d.eq n response

module _ {W N : Type 0} ⦃d : Double N⦄ ⦃db : Database W N⦄ ⦃store : ApplierStore W⦄ where
  -- the identity that a response gives, behind the metadata's entity id
  unfoldable pub resolved_identity :
      Bytes → Value N → Bytes → Exec (ColumnsCache × W) ReplaceIdentity
  resolved_identity entity response old_entity_id =
      if not (is_object response)
      then pure record { old_entity_id = old_entity_id; resolved_entity_id = old_entity_id }
      else columns_for N entity >>= λ cols. elim (get response cols.primary_key) [
        | none ↦ pure record { old_entity_id = old_entity_id; resolved_entity_id = old_entity_id }
        | some v ↦ lift (json_scalar_to_string v) >>= λ id.
            pure record { old_entity_id = old_entity_id; resolved_entity_id = id }
      ]

  -- `recordRemoteSuccess`, behind the reading of the metadata
  unfoldable pub record_found :
      Bytes → Bytes → Value N → ℤ → Option Bytes → Exec (ColumnsCache × W) ReplaceIdentity
  record_found entity local_id response now none = throw (no_metadata local_id entity)
  record_found entity local_id response now (some old_entity_id) =
      resolved_identity entity response old_entity_id >>= λ identity.
      on_db (store.mark_replaced entity local_id identity.resolved_entity_id now) >> pure identity

  -- `recordRemoteSuccess`
  unfoldable pub record_remote_success :
      Bytes → Bytes → Value N → Exec (ColumnsCache × W) ReplaceIdentity
  record_remote_success entity local_id response = on_db store.now_millis >>= λ now.
      on_db (store.entity_id_of entity local_id) >>= record_found entity local_id response now

  -- whether the other columns of the response are written
  unfoldable pub should_apply_data :
      SyncConflict → Bytes → TableColumns → ReplaceIdentity → Value N → Exec W Bool
  should_apply_data conflict entity cols identity response =
      if not (member conflict.conflict_field cols.all)
      then pure false
      else elim (read_optional_number response conflict.conflict_field) [
        | none ↦ pure true
        | some updated_at ↦
            db.execute (select_statement (quoted conflict.conflict_field) entity cols.primary_key)
              (sql_string identity.resolved_entity_id ∷ [])
            >>= λ current. pure (not_later updated_at (first_number current.rows))
      ]

  -- the other columns of the row
  unfoldable pub rewrite_data :
      SyncConflict
      → Bytes
      → TableColumns
      → ReplaceIdentity
      → Value N
      → List (Bytes × SqlValue N)
      → Exec W (Unit {0})
  rewrite_data conflict entity cols identity response columns =
      if is_empty columns
      then pure tt
      else should_apply_data conflict entity cols identity response >>= λ applies.
          if applies
          then db.execute (update_statement entity cols.primary_key (names_of columns))
              (values_of columns ++ (sql_string identity.resolved_entity_id ∷ []))
            >>= (λ result. pure tt)
          else pure tt

  -- `rewriteLocalRow`
  unfoldable pub rewrite_local_row :
      SyncConflict → Bytes → ReplaceIdentity → Value N → Exec (ColumnsCache × W) (Unit {0})
  rewrite_local_row conflict entity identity response =
      if not (is_object response)
      then pure tt
      else columns_for N entity >>= λ cols.
          lift (data_columns cols (members_of response)) >>= λ columns.
          on_db (rewrite_key N entity cols identity)
          >> (on_db (rewrite_data conflict entity cols identity response columns)
              >> on_db (rewrite_references N entity identity))

module _ {W : Type 0} ⦃store : ApplierStore W⦄ where
  -- `confirmDeleted`
  unfoldable pub confirm_deleted : Bytes → Bytes → Exec W (Unit {0})
  confirm_deleted entity local_id = store.now_millis >>= store.mark_deleted_synced entity local_id
