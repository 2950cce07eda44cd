-- ===== src/Sync/Applier/Counts.antt =====
-- How much cpp/sync/SyncOperationApplier.cpp reports to have written.
use react_native_salve_db.Prelude.{
  ℕ, suc, ◌+◌, ◌≤◌, ◌≡◌, sym, ap, Bool, true, false, List, [], ◌∷◌, Option, none, some, Bytes, text,
  ℤ, ok, ok-injective, if◌then◌else◌, inl, inr, arith, length, value_or, Bool-cases,
}
use react_native_salve_db.Exec.{Exec, pure, lift, >>=-run-ok}
use react_native_salve_db.Json.{Value, get, is_object}
use react_native_salve_db.Json.Double.{Double}
use react_native_salve_db.Sql.{Database}
use react_native_salve_db.Sync.Contract.{SyncConflict}
use react_native_salve_db.Sync.Pull.{ApplyStats}
use react_native_salve_db.Sync.Applier.Values.{
  TableColumns, json_scalar_to_string, read_optional_number,
}
use react_native_salve_db.Sync.Applier.{
  ColumnsCache, ApplierStore, LocalRow, should_delete, should_apply, is_newer, count_inserted,
  count_updated, count_deleted, on_db, columns_for, run_statement, read_local, write_tombstone,
  write_columns, write_row, resolve_as, resolve_row, apply_keyed, apply_row, apply_each, no_stats,
  apply,
}

-- the rows that were written
abbrev pub total : ApplyStats → ℕ
total s = s.inserted + s.updated + s.deleted

abbrev AtMostOne : ApplyStats → ApplyStats → Type 0
AtMostOne before after = total after ≤ suc (total before)

module _ {W : Type 0} where
  pure-eq : (a : ApplyStats) (w : W) {b : ApplyStats} {w' : W} → pure a w ≡ (ok b, w') → a ≡ b
  pure-eq a w e = ok-injective (ap (λ p. p.0) e)

  -- a write that is made or left
  if-AtMostOne :
      (b : Bool) (m : Exec W ApplyStats) (stats : ApplyStats) (w : W) {stats' : ApplyStats} {w' : W}
      → (m w ≡ (ok stats', w') → AtMostOne stats stats')
      → (if b then m else pure stats) w ≡ (ok stats', w')
      → AtMostOne stats stats'
  if-AtMostOne true m stats w h e = h e
  if-AtMostOne false m stats w h e = rw (sym (pure-eq stats w e)) (omega arith)

module _ {W N : Type 0} ⦃d : Double N⦄ ⦃db : Database W N⦄ ⦃store : ApplierStore W⦄
    (conflict : SyncConflict) (entity : Bytes) (cols : TableColumns) where
  write_tombstone-AtMostOne :
      (now : ℤ) (pk_value : Bytes) (n : N) (stats : ApplyStats) (s : ColumnsCache × W)
      {stats' : ApplyStats} {s' : ColumnsCache × W}
      → write_tombstone conflict entity cols now pk_value n stats s ≡ (ok stats', s')
      → AtMostOne stats stats'
  unfolding write_tombstone
  write_tombstone-AtMostOne now pk_value n stats s e =
      >>=-run-ok (run_statement {N = N} conflict entity cols _ _) _ s e λ u s₁ _ g.
        >>=-run-ok (on_db (store.mark_pulled_synced entity pk_value (text "DELETED") now)) _ s₁ g
          λ v s₂ _ h. rw (sym (pure-eq (count_deleted stats) s₂ h)) (omega arith)

  write_row-AtMostOne :
      (now : ℤ) (row : Value N) (pk_value : Bytes) (is_there : Bool) (stats : ApplyStats)
      (s : ColumnsCache × W) {stats' : ApplyStats} {s' : ColumnsCache × W}
      → write_row conflict entity cols now row pk_value is_there stats s ≡ (ok stats', s')
      → AtMostOne stats stats'
  unfolding write_row
  write_row-AtMostOne now row pk_value is_there stats s e =
      >>=-run-ok (lift _) _ s e λ columns s₁ _ g.
        >>=-run-ok (write_columns {N = N} conflict entity cols pk_value is_there columns) _ s₁ g
          λ u s₂ _ g'.
            >>=-run-ok (on_db (store.mark_pulled_synced entity pk_value (text "SYNCED") now)) _ s₂
              g'
              λ v s₃ _ h.
                rw
                  (sym
                    (pure-eq (if is_there then count_updated stats else count_inserted stats) s₃ h))
                  (ground arith)

  resolve_as-AtMostOne :
      (now : ℤ) (row : Value N) (pk_value : Bytes) (stats : ApplyStats) (local : LocalRow N)
      (deleted : Option N) (s : ColumnsCache × W) {stats' : ApplyStats} {s' : ColumnsCache × W}
      → resolve_as conflict entity cols now row pk_value stats local deleted s ≡ (ok stats', s')
      → AtMostOne stats stats'
  unfolding resolve_as
  resolve_as-AtMostOne now row pk_value stats local none s e =
      if-AtMostOne
        (should_apply conflict.strategy local.is_there (
          is_newer (value_or (d.of_ℕ 0) (read_optional_number row conflict.conflict_field))
            local.timestamp))
        (write_row conflict entity cols now row pk_value local.is_there stats) stats s
        (write_row-AtMostOne now row pk_value local.is_there stats s) e
  resolve_as-AtMostOne now row pk_value stats local (some n) s e =
      if-AtMostOne (should_delete conflict.strategy local.is_there (is_newer n local.timestamp))
        (write_tombstone conflict entity cols now pk_value n stats) stats s
        (write_tombstone-AtMostOne now pk_value n stats s) e

  apply_keyed-AtMostOne :
      (now : ℤ) (stats : ApplyStats) (row : Value N) (key : Option (Value N)) (s : ColumnsCache × W)
      {stats' : ApplyStats} {s' : ColumnsCache × W}
      → apply_keyed conflict entity cols now stats row key s ≡ (ok stats', s')
      → AtMostOne stats stats'
  unfolding apply_keyed resolve_row
  apply_keyed-AtMostOne now stats row none s e = cc
  apply_keyed-AtMostOne now stats row (some v) s e =
      >>=-run-ok (lift (json_scalar_to_string v)) _ s e λ pk_value s₁ _ g.
        >>=-run-ok (read_local conflict entity cols pk_value) _ s₁ g
          λ local s₂ _ h. resolve_as-AtMostOne now row pk_value stats local _ s₂ h

  apply_row-AtMostOne :
      (now : ℤ) (stats : ApplyStats) (row : Value N) (s : ColumnsCache × W) {stats' : ApplyStats}
      {s' : ColumnsCache × W}
      → apply_row conflict entity cols now stats row s ≡ (ok stats', s')
      → AtMostOne stats stats'
  unfolding apply_row
  apply_row-AtMostOne now stats row s e = elim (Bool-cases (is_object row)) [
    | inl is ↦ apply_keyed-AtMostOne now stats row (get row cols.primary_key) s (rw is at e)
    | inr other ↦ let thrown = rw other at e in cc
  ]

  apply_each-total :
      (now : ℤ) (stats : ApplyStats) (rows : List (Value N)) (s : ColumnsCache × W)
      {stats' : ApplyStats} {s' : ColumnsCache × W}
      → apply_each conflict entity cols now stats rows s ≡ (ok stats', s')
      → total stats' ≤ total stats + length rows
  unfolding apply_each
  apply_each-total now stats [] s e = rw (sym (pure-eq _ s e)) (omega arith)
  apply_each-total now stats (row ∷ rows) s e =
      >>=-run-ok (apply_row conflict entity cols now stats row) _ s e λ stats₁ s₁ h g.
        omega (arith, apply_row-AtMostOne now stats row s h, apply_each-total now stats₁ rows s₁ g)

module _ {W N : Type 0} ⦃d : Double N⦄ ⦃db : Database W N⦄ ⦃store : ApplierStore W⦄ where
  -- A page that is applied reports at most as many rows inserted, updated and deleted as it has.
  pub apply-total :
      (conflict : SyncConflict) (entity : Bytes) (rows : List (Value N)) (s : ColumnsCache × W)
      {stats : ApplyStats} {s' : ColumnsCache × W}
      → apply conflict entity rows s ≡ (ok stats, s')
      → total stats ≤ length rows
  unfolding apply
  apply-total conflict entity [] s e = rw (sym (pure-eq _ s e)) (omega arith)
  apply-total conflict entity (row ∷ rows) s e =
      >>=-run-ok (columns_for N entity) _ s e λ cols s₁ _ g.
        >>=-run-ok (on_db store.now_millis) _ s₁ g λ now s₂ _ h.
          omega (arith, apply_each-total conflict entity cols now no_stats (row ∷ rows) s₂ h)
