-- ===== src/Schema/WellFormed.antt =====
-- The schemas that `parseSchemaJson` of cpp/database/MigrationEngine.cpp accepts.
use react_native_salve_db.Prelude.{
  ◌≡◌, refl, sym, ◌∙◌, Bool, true, false, not, List, [], ◌∷◌, ◌++◌, Option, none, some, Bytes, text,
  str_eq, str_eq_iff, str_eq_refl, ok, ok-injective, if◌then◌else◌, ◌>>=◌, ◌>>◌, is_empty, require,
  require-true, >>=-elim-ok, inl, inr, ◌⊎◌, arith, All, All-append, is_some, Bool-cases,
}
use react_native_salve_db.OrderedMap.{OrderedMap, find, contains, assign}
use react_native_salve_db.OrderedMap.Laws.{find-assign}
use react_native_salve_db.Json.{Value, object, get_string, is_object}
use react_native_salve_db.Json.Double.{Double}
use react_native_salve_db.Json.Parser.{json_parse}
use react_native_salve_db.Connection.Rows.{FromInteger}
use react_native_salve_db.Sync.Contract.{SyncContract, from_definition}
use react_native_salve_db.Sync.Relations.{RelationDef}
use react_native_salve_db.Schema.{
  ColumnDef, IndexDef, SyncSettings, SchemaDef, starts_with, deleted_at_column, is_declared,
  is_timestamp, check_contract, parse_indexes, check_relation, parse_relations, check_names,
  check_reserved, columns_of, schema_from, parse_sync, schema_of, parse_schema_json,
}

-- a relation of a schema: it refers to a table, by a declared column
abbrev pub IsRelation : OrderedMap ColumnDef → RelationDef → Type 0
IsRelation columns r = (is_empty r.references ≡ false) × (contains r.column columns ≡ true)

-- no column has two relations
abbrev pub AreDistinct : List RelationDef → Type 0
AreDistinct [] = Unit
AreDistinct (r ∷ relations) = (is_declared r.column relations ≡ false) × AreDistinct relations

abbrev pub IsIndex : IndexDef → Type 0
IsIndex i = (is_empty i.name ≡ false) × (is_empty i.columns ≡ false)

module _ {N : Type 0} ⦃d : Double N⦄ where
  -- Synchronisation is off, or its definition is that of a contract, whose strategy is not
  -- lastWriteWins or has its field among the NOT NULL columns of dates.
  abbrev pub IsSynced : OrderedMap ColumnDef → SyncSettings N → Type 0
  IsSynced columns s =
      (s.enabled ≡ false)
      ⊎ ((c : SyncContract) × (from_definition s.definition false ≡ ok c)
          × ((str_eq c.conflict.strategy (text "lastWriteWins") ≡ false)
              ⊎ (is_timestamp (find c.conflict.conflict_field columns) ≡ true)))

  pub record IsSchema (s : SchemaDef N) : Type 0 where
    pub named : is_empty s.schema_name ≡ false
    pub not_reserved : starts_with (text "_salve") s.schema_name ≡ false
    pub keyed : is_empty s.primary_key ≡ false
    pub tombstone : find (text "deletedAt") s.schema_columns ≡ some deleted_at_column
    pub indexed : All IsIndex s.indexes
    pub related : All (IsRelation s.schema_columns) s.relations
    pub distinct : AreDistinct s.relations
    pub synced : IsSynced s.schema_columns s.sync

not-true : (b : Bool) → not b ≡ true → b ≡ false
not-true true h = cc
not-true false h = refl

contains-assign :
    (key k : Bytes) (c : ColumnDef) (columns : OrderedMap ColumnDef)
    → contains k columns ≡ true
    → contains k (assign key c columns) ≡ true
unfolding contains
contains-assign key k c columns h = rw (find-assign key k c columns) (ground arith)

related-assign :
    (key : Bytes) (c : ColumnDef) (columns : OrderedMap ColumnDef) (relations : List RelationDef)
    → All (IsRelation columns) relations
    → All (IsRelation (assign key c columns)) relations
related-assign key c columns [] h = tt
related-assign key c columns (r ∷ relations) h = (
  (h.0.0, contains-assign key r.column c columns h.0.1),
  related-assign key c columns relations h.1,
)

is_declared-append :
    (column : Bytes) (relations : List RelationDef) (r : RelationDef)
    → is_declared column relations ≡ false
    → str_eq r.column column ≡ false
    → is_declared column (relations ++ (r ∷ [])) ≡ false
unfolding is_declared
is_declared-append column [] r h ne = rw ne refl
is_declared-append column (x ∷ relations) r h ne =
    ground (arith, is_declared-append column relations r)

append-AreDistinct :
    (relations : List RelationDef) (r : RelationDef)
    → AreDistinct relations
    → is_declared r.column relations ≡ false
    → AreDistinct (relations ++ (r ∷ []))
unfolding is_declared
append-AreDistinct [] r h new = (refl, tt)
append-AreDistinct (x ∷ relations) r h new = (
  is_declared-append x.column relations r h.0
      (ground (arith, str_eq_iff r.column x.column, str_eq_iff x.column r.column)),
  append-AreDistinct relations r h.1 (ground arith),
)

check_relation_lem :
    (columns : OrderedMap ColumnDef) (before : List RelationDef) (r : RelationDef) {u : Unit {0}}
    → check_relation columns before r ≡ ok u
    → (is_empty r.references ≡ false)
      × (contains r.column columns ≡ true)
      × (is_declared r.column before ≡ false)
unfolding check_relation
check_relation_lem columns before r e =
    >>=-elim-ok (require (not (is_empty r.references)) _) _ e λ u refers e₁.
      >>=-elim-ok (require (contains r.column columns) _) _ e₁ λ v declared e₂. (
        not-true _ (require-true _ _ refers),
        require-true _ _ declared,
        not-true _ (require-true _ _ e₂),
      )

check_names_lem :
    (name primary_key : Bytes) {u : Unit {0}}
    → check_names name primary_key ≡ ok u
    → (is_empty name ≡ false)
      × (starts_with (text "_salve") name ≡ false)
      × (is_empty primary_key ≡ false)
unfolding check_names
check_names_lem name primary_key e = >>=-elim-ok (require (not (is_empty name)) _) _ e λ u named e₁.
    >>=-elim-ok (require (not (starts_with (text "_salve") name)) _) _ e₁ λ v free e₂. (
      not-true _ (require-true _ _ named),
      not-true _ (require-true _ _ free),
      not-true _ (require-true _ _ e₂),
    )

module _ {N : Type 0} where
  abbrev relation_of : Value N → RelationDef
  relation_of v = record {
    column = get_string v (text "column") [];
    references = get_string v (text "references") [];
  }

  parse_indexes-IsIndex : (vs : List (Value N)) → All IsIndex (parse_indexes vs)
  unfolding parse_indexes
  parse_indexes-IsIndex [] = tt
  parse_indexes-IsIndex (v ∷ vs) = ground (arith, parse_indexes-IsIndex vs)

  parse_relations_lem :
      (columns : OrderedMap ColumnDef) (before : List RelationDef) (vs : List (Value N))
      {relations : List RelationDef}
      → All (IsRelation columns) before
      → AreDistinct before
      → parse_relations columns before vs ≡ ok relations
      → All (IsRelation columns) relations × AreDistinct relations
  unfolding parse_relations check_relation
  parse_relations_lem columns before [] h k e = rw (sym (ok-injective e)) (h, k)
  parse_relations_lem columns before (v ∷ vs) h k e = elim (Bool-cases (is_object v)) [
    | inl is ↦
        >>=-elim-ok (check_relation columns before (relation_of v)) _ (rw is at e) λ u passed g.
          let (refers, declared, new) = check_relation_lem columns before (relation_of v) passed in
          parse_relations_lem columns (before ++ (relation_of v ∷ [])) vs
            (All-append (IsRelation columns) before (relation_of v ∷ []) h ((refers, declared), tt))
            (append-AreDistinct before (relation_of v) k new) g
    | inr other ↦ parse_relations_lem columns before vs h k (rw other at e)
  ]

check_contract_lem :
    (columns : OrderedMap ColumnDef) (c : SyncContract) {u : Unit {0}}
    → check_contract columns c ≡ ok u
    → (str_eq c.conflict.strategy (text "lastWriteWins") ≡ false)
      ⊎ (is_timestamp (find c.conflict.conflict_field columns) ≡ true)
unfolding check_contract
check_contract_lem columns c e =
    elim (Bool-cases (str_eq c.conflict.strategy (text "lastWriteWins"))) [
      | inl wins ↦ inr (require-true _ _ (rw wins at e))
      | inr other ↦ inl other
    ]

-- the column that is added hides no NOT NULL column of dates
timestamp-assign :
    (field : Bytes) (columns : OrderedMap ColumnDef)
    → contains (text "deletedAt") columns ≡ false
    → is_timestamp (find field columns) ≡ true
    → is_timestamp (find field (assign (text "deletedAt") deleted_at_column columns)) ≡ true
unfolding contains is_timestamp
timestamp-assign field columns free h =
    rw (find-assign (text "deletedAt") field deleted_at_column columns)
      (elim (Bool-cases (str_eq (text "deletedAt") field)) [
        | inl same ↦
            let p = (str_eq_iff (text "deletedAt") field).0 same in
            let gone = is_some-none (find (text "deletedAt") columns) free in
            let h' = rw (sym p, gone) at h in cc
        | inr other ↦ rw other h
      ])
  where
    is_some-none : (o : Option ColumnDef) → is_some o ≡ false → o ≡ none
    is_some-none none e = refl
    is_some-none (some c) e = cc

module _ {N : Type 0} ⦃d : Double N⦄ where
  checked-IsSynced :
      (columns : OrderedMap ColumnDef) (settings sync : SyncSettings N)
      → (let checked = from_definition settings.definition false >>= check_contract columns in
          if settings.enabled then (checked >> ok settings) else ok settings)
        ≡ ok sync
      → IsSynced columns sync
  checked-IsSynced columns settings sync e = elim (Bool-cases settings.enabled) [
    | inl enabled ↦
        >>=-elim-ok (from_definition settings.definition false >>= check_contract columns) _
          (rw enabled at e)
          λ u checked g.
            >>=-elim-ok (from_definition settings.definition false) (check_contract columns) checked
              λ c parsed passed.
                rw (sym (ok-injective g)) (inr (c, parsed, check_contract_lem columns c passed))
    | inr disabled ↦ let same = rw disabled at e in rw (sym (ok-injective same)) (inl refl)
  ]

  IsSynced-assign :
      (columns : OrderedMap ColumnDef) (sync : SyncSettings N)
      → contains (text "deletedAt") columns ≡ false
      → IsSynced columns sync
      → IsSynced (assign (text "deletedAt") deleted_at_column columns) sync
  IsSynced-assign columns sync free (inl disabled) = inl disabled
  IsSynced-assign columns sync free (inr (c, parsed, inl other)) = inr (c, parsed, inl other)
  IsSynced-assign columns sync free (inr (c, parsed, inr dated)) =
      inr (c, parsed, inr (timestamp-assign c.conflict.conflict_field columns free dated))

module _ {N : Type 0} ⦃d : Double N⦄ ⦃f : FromInteger N⦄ where
  parse_sync-IsSynced :
      (columns : OrderedMap ColumnDef) (member : Option (Value N)) {sync : SyncSettings N}
      → parse_sync columns member ≡ ok sync
      → IsSynced columns sync
  unfolding parse_sync
  parse_sync-IsSynced columns none e = rw (sym (ok-injective e)) (inl refl)
  parse_sync-IsSynced columns (some (object fs)) {sync} e = checked-IsSynced columns _ sync e
  parse_sync-IsSynced columns (some _) e = rw (sym (ok-injective e)) (inl refl)

  schema_of-IsSchema : (root : Value N) {s : SchemaDef N} → schema_of root ≡ ok s → IsSchema s
  unfolding schema_of check_reserved schema_from
  schema_of-IsSchema root {s} e = >>=-elim-ok (require (is_object root) _) _ e λ u is e₁.
      >>=-elim-ok (check_names _ _) _ e₁ λ v names e₂.
        >>=-elim-ok (parse_relations (columns_of root) [] _) _ e₂ λ relations parsed e₃.
          >>=-elim-ok (parse_sync (columns_of root) _) _ e₃ λ sync synced e₄.
            >>=-elim-ok (require (not (contains (text "deletedAt") (columns_of root))) _) _ e₄
              λ w free e₅.
                let (named, not_reserved, keyed) = check_names_lem _ _ names in
                let reserved = not-true _ (require-true _ _ free) in
                let (related, distinct) = parse_relations_lem (columns_of root) [] _ tt tt parsed in
                rw (sym (ok-injective e₅)) record {
                  named = named;
                  not_reserved = not_reserved;
                  keyed = keyed;
                  tombstone =
                      find-assign (text "deletedAt") (text "deletedAt") deleted_at_column
                        (columns_of root)
                      ∙ rw (str_eq_refl (text "deletedAt")) refl;
                  indexed = parse_indexes-IsIndex _;
                  related =
                      related-assign (text "deletedAt") deleted_at_column (columns_of root)
                        relations related;
                  distinct = distinct;
                  synced =
                      IsSynced-assign (columns_of root) sync reserved
                        (parse_sync-IsSynced (columns_of root) _ synced);
                }

  -- A schema that is accepted has a name that is not reserved and a primary key, the column deletedAt
  -- as SalveDb manages it, indexes with a name and a column, relations by declared columns with one for
  -- each column at most, and a contract wherever it is synchronised, with a NOT NULL column of dates to
  -- compare by under lastWriteWins.
  pub parse_schema_json-IsSchema :
      (source : Bytes) {s : SchemaDef N} → parse_schema_json source ≡ ok s → IsSchema s
  unfolding parse_schema_json
  parse_schema_json-IsSchema source e =
      >>=-elim-ok (json_parse source) schema_of e
        λ root parsed accepted. schema_of-IsSchema root accepted
