-- ===== src/Sync/Relations/Laws.antt =====
-- The rows that cpp/sync/RelationStore.cpp finds for a parent.
use react_native_salve_db.Prelude.{◌≢◌, All, List, [], ◌∷◌, Bytes}
use react_native_salve_db.Sync.Relations.{RelationDef, RelationRow, relation_row}

-- the rows of a child's relations
abbrev pub rows_of : Bytes → List RelationDef → List RelationRow
rows_of child [] = []
rows_of child (relation ∷ relations) = relation_row child relation ∷ rows_of child relations

-- no column has two relations
abbrev pub AreDistinct : List RelationDef → Type 0
AreDistinct [] = Unit
AreDistinct (r ∷ relations) = All (λ x. r.column ≢ x.column) relations × AreDistinct relations
