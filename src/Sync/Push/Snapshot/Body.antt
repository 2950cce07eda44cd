-- ===== src/Sync/Push/Snapshot/Body.antt =====
-- The request body that `readRowSnapshot` of cpp/sync/SyncPushPhase.cpp makes of a row.
use react_native_salve_db.Prelude.{
  ◌≡◌, refl, sym, Bool, true, false, ◌||◌, List, [], ◌∷◌, none, Bytes, text, str_eq, str_eq_iff,
  str_eq_refl, ok, ok-injective, >>=-elim-ok, Bool-cases, ◌⊎◌, inl, inr, arith,
}
use react_native_salve_db.OrderedMap.{OrderedMap, find, assign}
use react_native_salve_db.OrderedMap.Laws.{find-assign}
use react_native_salve_db.Json.{Value, object, get, of_entries, entries-of_entries}
use react_native_salve_db.Sql.{SqlValue, QueryResult}
use react_native_salve_db.Sync.Push.Snapshot.{RowSnapshot, sql_value_to_json, body_of, snapshot_of}

module _ {N : Type 0} where
  assign_other :
      (pk_column column k : Bytes) (j : Value N) (body : OrderedMap (Value N))
      → (str_eq k (text "deletedAt") || str_eq k pk_column) ≡ true
      → str_eq column (text "deletedAt") ≡ false
      → str_eq column pk_column ≡ false
      → find k body ≡ none
      → find k (assign column j body) ≡ none
  assign_other pk_column column k j body left a b free = rw (find-assign column k j body) (
      ground (
        arith,
        str_eq_iff column k,
        str_eq_iff column (text "deletedAt"),
        str_eq_iff column pk_column,
        str_eq_iff k (text "deletedAt"),
        str_eq_iff k pk_column,
      ))

  get_left_out :
      (k : Bytes) (tombstoned : Bool) (body : OrderedMap (Value N)) {s : RowSnapshot N}
      → find k body ≡ none
      → ok (record { is_there = true; tombstoned = tombstoned; body = object (of_entries body) })
        ≡ ok s
      → get s.body k ≡ none
  unfolding get
  get_left_out k tombstoned body free e =
      rw (sym (ok-injective e)) (rw (entries-of_entries body) free)

  body_of-leaves_out :
      (pk_column k : Bytes) (columns : List Bytes) (row : List (SqlValue N)) (tombstoned : Bool)
      (body : OrderedMap (Value N)) {s : RowSnapshot N}
      → (str_eq k (text "deletedAt") || str_eq k pk_column) ≡ true
      → find k body ≡ none
      → body_of pk_column columns row tombstoned body ≡ ok s
      → get s.body k ≡ none
  unfolding body_of
  body_of-leaves_out pk_column k (column ∷ columns) (v ∷ row) tombstoned body left free e =
      elim (Bool-cases (str_eq column (text "deletedAt"))) [
        | inl a ↦ body_of-leaves_out pk_column k columns row _ body left free (rw a at e)
        | inr a ↦ elim (Bool-cases (str_eq column pk_column)) [
          | inl b ↦
              body_of-leaves_out pk_column k columns row tombstoned body left free
                (rw b at (rw a at e))
          | inr b ↦ >>=-elim-ok (sql_value_to_json v) _ (rw b at (rw a at e)) λ j h g.
              body_of-leaves_out pk_column k columns row tombstoned (assign column j body) left
                (assign_other pk_column column k j body left a b free) g
        ]
      ]
  body_of-leaves_out pk_column k [] row tombstoned body left free e =
      get_left_out k tombstoned body free e
  body_of-leaves_out pk_column k (column ∷ columns) [] tombstoned body left free e =
      get_left_out k tombstoned body free e

  rows_cases :
      (rows : List (List (SqlValue N)))
      → (rows ≡ [])
        ⊎ ((row : List (SqlValue N)) × (more : List (List (SqlValue N))) × (rows ≡ row ∷ more))
  rows_cases [] = inl refl
  rows_cases (row ∷ more) = inr (row, more, refl)

  snapshot_of-leaves_out :
      (pk_column k : Bytes) (result : QueryResult N) {s : RowSnapshot N}
      → (str_eq k (text "deletedAt") || str_eq k pk_column) ≡ true
      → snapshot_of pk_column result ≡ ok s
      → get s.body k ≡ none
  unfolding snapshot_of find get
  snapshot_of-leaves_out pk_column k result left e = elim (rows_cases result.rows) [
    | inl none_found ↦ rw (sym (ok-injective (rw (snapshot_of, none_found) at e))) refl
    | inr (row, more, found) ↦
        body_of-leaves_out pk_column k result.columns row false [] left refl
          (rw (snapshot_of, found) at e)
  ]

  -- The body that is made of a row names neither its primary key nor `deletedAt`, whatever columns and
  -- values the row has.
  pub snapshot_of-body :
      (pk_column : Bytes) (result : QueryResult N) {s : RowSnapshot N}
      → snapshot_of pk_column result ≡ ok s
      → (get s.body pk_column ≡ none) × (get s.body (text "deletedAt") ≡ none)
  snapshot_of-body pk_column result e = (
    snapshot_of-leaves_out pk_column pk_column result (rw (str_eq_refl pk_column) (ground arith)) e,
    snapshot_of-leaves_out pk_column (text "deletedAt") result
        (rw (str_eq_refl (text "deletedAt")) refl) e,
  )
