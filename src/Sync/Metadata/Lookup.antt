-- ===== src/Sync/Metadata/Lookup.antt =====
-- What cpp/database/SalveMetadataManager.cpp finds behind an acknowledged write.
use react_native_salve_db.Prelude.{
  ◌≡◌, refl, sym, ap, Bool, true, false, ◌&&◌, [], ◌∷◌, some, Bytes, text, str_eq, str_eq_iff, ℤ,
  Exception, ok, err, ok-injective, if◌then◌else◌, is_some, is_empty, Bool-cases, inl, inr, arith,
}
use react_native_salve_db.Sync.Metadata.{
  SyncMetadataRow, MetadataTable, has_local, find_row, update_rows, entity_is_taken, read_row,
  get_by_local_id, row_to_metadata, update_entity_at, mark_replaced,
}

-- a guard that did not refuse
not_refused :
    (x : Exception) {rows rows' : MetadataTable} (b : Bool)
    → (if b then err x else ok rows) ≡ ok rows'
    → (b ≡ false) × (rows ≡ rows')
not_refused x true h = cc
not_refused x false h = (refl, ok-injective h)

has_local-parts :
    (t l : Bytes) (r : SyncMetadataRow)
    → has_local t l r ≡ true
    → (r.table_name ≡ t) × (r.local_id ≡ l)
unfolding has_local
has_local-parts t l r h =
    (ground (arith, str_eq_iff r.table_name t), ground (arith, str_eq_iff r.local_id l))

-- an update of the rows that a search looks for, after which it finds them still
find_row-updated :
    (p : SyncMetadataRow → Bool) (f : SyncMetadataRow → SyncMetadataRow) (rows : MetadataTable)
    {r : SyncMetadataRow}
    → ((x : SyncMetadataRow) → p (f x) ≡ p x)
    → find_row p rows ≡ some r
    → find_row p (update_rows p f rows) ≡ some (f r)
find_row-updated p f [] h e = cc
find_row-updated p f (x ∷ rows) {r} h e = elim (Bool-cases (p x)) [
  | inl here ↦ let same : x ≡ r = ground arith in rw (here, h x, here, same) refl
  | inr there ↦ rw (there, there) (find_row-updated p f rows h (rw there at e))
]

-- an update of other rows
find_row-others :
    (p q : SyncMetadataRow → Bool) (f : SyncMetadataRow → SyncMetadataRow) (rows : MetadataTable)
    → ((x : SyncMetadataRow) → q x ≡ true → (p x ≡ false) × (p (f x) ≡ false))
    → find_row p (update_rows q f rows) ≡ find_row p rows
find_row-others p q f [] h = refl
find_row-others p q f (x ∷ rows) h = ground (arith, h x, find_row-others p q f rows h)

-- the row of a write that the server acknowledged
abbrev pub acknowledged : Bytes → ℤ → SyncMetadataRow → SyncMetadataRow
acknowledged e now r = record r {
  entity_id = e;
  remote_id = some e;
  status = text "SYNCED";
  synced_at = some now;
  updated_at = now;
}

module _ (constraint : Exception) (t l e : Bytes) (now : ℤ) (rows : MetadataTable)
    (r : SyncMetadataRow) where
  found_replaced :
      {rows' : MetadataTable}
      → is_empty e ≡ false
      → find_row (has_local t l) rows ≡ some r
      → mark_replaced constraint t l e now rows ≡ ok rows'
      → get_by_local_id t l rows'
        ≡ some (record (row_to_metadata (acknowledged e now r)) { remote_id = some e })
  unfolding mark_replaced update_entity_at get_by_local_id row_to_metadata has_local
  found_replaced named found h =
      let (free, same) =
        not_refused constraint
          (is_some (find_row (has_local t l) rows) && entity_is_taken t l e rows) h in
      rw (sym same) (
        rw (find_row-updated (has_local t l) (acknowledged e now) rows (λ x. refl) found, named)
          refl)

  others_kept :
      (other : Bytes) {rows' : MetadataTable}
      → str_eq l other ≡ false
      → mark_replaced constraint t l e now rows ≡ ok rows'
      → get_by_local_id t other rows' ≡ get_by_local_id t other rows
  unfolding mark_replaced update_entity_at get_by_local_id has_local
  others_kept other ne h =
      let (free, same) =
        not_refused constraint
          (is_some (find_row (has_local t l) rows) && entity_is_taken t l e rows) h in
      rw (sym same) (
        ap read_row (
          find_row-others (has_local t other) (has_local t l) (acknowledged e now) rows λ x g.
            let (p, q) = has_local-parts t l x g in rw (p, q, ne) (ground arith, ground arith)))

  -- Behind markReplaced with a server id that is not empty, the local id of a row finds that row: under
  -- the server's id as entity id and remote id, SYNCED and updated now, with its local id, operation and
  -- time of creation as they were. Every other local id finds what it found before.
  pub get_by_local_id-mark_replaced :
      {rows' : MetadataTable}
      → is_empty e ≡ false
      → find_row (has_local t l) rows ≡ some r
      → mark_replaced constraint t l e now rows ≡ ok rows'
      → ((x : SyncMetadataRow) × (get_by_local_id t l rows' ≡ some x)
          × (x.table_name ≡ r.table_name)
          × (x.local_id ≡ r.local_id)
          × (x.entity_id ≡ e)
          × (x.remote_id ≡ some e)
          × (x.status ≡ text "SYNCED")
          × (x.updated_at ≡ now)
          × (x.operation ≡ r.operation)
          × (x.created_at ≡ r.created_at))
        × ((other : Bytes)
            → str_eq l other ≡ false
            → get_by_local_id t other rows' ≡ get_by_local_id t other rows)
  unfolding row_to_metadata
  get_by_local_id-mark_replaced named found h = (
    (_, found_replaced named found h, refl, refl, refl, refl, refl, refl, refl, refl),
    (λ other differs. others_kept other differs h),
  )
