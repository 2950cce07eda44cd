-- ===== src/Sync/Applier/Kept.antt =====
-- The rows that cpp/sync/SyncOperationApplier.cpp leaves as they are.
use react_native_salve_db.Prelude.{
  ◌≡◌, refl, true, false, Option, none, some, Bytes, text, ℤ, ok, value_or, str_eq,
}
use react_native_salve_db.Json.{Value, get, is_object}
use react_native_salve_db.Json.Double.{Double}
use react_native_salve_db.Sql.{Database}
use react_native_salve_db.Sync.Contract.{SyncConflict}
use react_native_salve_db.Sync.Pull.{ApplyStats}
use react_native_salve_db.Sync.Applier.Values.{
  TableColumns, json_scalar_to_string, read_optional_number,
}
use react_native_salve_db.Sync.Applier.{
  ColumnsCache, ApplierStore, LocalRow, should_delete, should_apply, is_newer, read_local,
  resolve_as, resolve_row, apply_keyed, apply_row,
}

module _ {N : Type 0} ⦃d : Double N⦄ where
  -- The local row is kept where the server's is no later, or under clientWins.
  pub data LocalPrevails (conflict : SyncConflict) (row : Value N) (local : LocalRow N)
      : Type 0 where
    later :
        (n : N)
        → conflict.strategy ≡ text "lastWriteWins"
        → local.timestamp ≡ some n
        → d.lt n (
            value_or
              (value_or (d.of_ℕ 0) (read_optional_number row conflict.conflict_field))
              (read_optional_number row (text "deletedAt")))
          ≡ false
        → LocalPrevails conflict row local
    client : conflict.strategy ≡ text "clientWins" → LocalPrevails conflict row local

module _ {W N : Type 0} ⦃d : Double N⦄ ⦃db : Database W N⦄ ⦃store : ApplierStore W⦄ where
  resolve_as-kept :
      (conflict : SyncConflict) (entity : Bytes) (cols : TableColumns) (now : ℤ)
      (stats : ApplyStats) (row : Value N) (pk_value : Bytes) (local : LocalRow N)
      (deleted : Option N) (s : ColumnsCache × W)
      → local.is_there ≡ true
      → read_optional_number row (text "deletedAt") ≡ deleted
      → LocalPrevails conflict row local
      → resolve_as conflict entity cols now row pk_value stats local deleted s ≡ (ok stats, s)
  unfolding resolve_as should_delete should_apply is_newer text str_eq
  resolve_as-kept conflict entity cols now stats row pk_value local none s there e
        (later n st ts older) =
      let not_newer = rw e at older in rw (st, there, ts, not_newer) refl
  resolve_as-kept conflict entity cols now stats row pk_value local (some t) s there e
        (later n st ts older) =
      let not_newer = rw e at older in rw (st, there, ts, not_newer) refl
  resolve_as-kept conflict entity cols now stats row pk_value local none s there e (client st) =
      rw (st, there) refl
  resolve_as-kept conflict entity cols now stats row pk_value local (some t) s there e (client st) =
      rw st refl

  -- A pulled row over which the local row prevails is not written: its round ends where the reading of
  -- the local row has ended, tombstone or not.
  pub apply_row-kept :
      (conflict : SyncConflict) (entity : Bytes) (cols : TableColumns) (now : ℤ)
      (stats : ApplyStats) (row v : Value N) (pk_value : Bytes) (local : LocalRow N)
      (s s₁ : ColumnsCache × W)
      → is_object row ≡ true
      → get row cols.primary_key ≡ some v
      → json_scalar_to_string v ≡ ok pk_value
      → read_local conflict entity cols pk_value s ≡ (ok local, s₁)
      → local.is_there ≡ true
      → LocalPrevails conflict row local
      → apply_row conflict entity cols now stats row s ≡ (ok stats, s₁)
  unfolding apply_row apply_keyed resolve_row
  apply_row-kept conflict entity cols now stats row v pk_value local s s₁ o k j r there p =
      rw (o, k, j, r)
        (resolve_as-kept conflict entity cols now stats row pk_value local _ s₁ there refl p)
