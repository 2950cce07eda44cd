-- ===== src/Sync/Relations.antt =====
-- cpp/sync/RelationStore.cpp: the foreign keys of the schemas, as the list of the rows of their table.
-- Each statement is the operation on rows that its text states; what SQLite throws where the primary key
-- would break is a parameter.
pub mod Laws
use react_native_salve_db.Prelude.{
  Bool, true, false, List, [], ◌∷◌, ◌++◌, Bytes, str_eq, if◌then◌else◌, ◌&&◌, Exception, Result, ok,
  err,
}

pub record RelationDef : Type 0 where
  pub column : Bytes
  pub references : Bytes

pub record RelationRow : Type 0 where
  pub child_table : Bytes
  pub fk_column : Bytes
  pub parent_table : Bytes

-- DELETE … WHERE childTable = ?
unfoldable pub delete_child : Bytes → List RelationRow → List RelationRow
delete_child child [] = []
delete_child child (r ∷ rows) =
    let rest = delete_child child rows in if str_eq r.child_table child then rest else r ∷ rest

-- the primary key of the table: a child and a column
unfoldable pub has_relation : Bytes → Bytes → List RelationRow → Bool
has_relation child column [] = false
has_relation child column (r ∷ rows) =
    let rest = has_relation child column rows in
    if str_eq r.child_table child && str_eq r.fk_column column then true else rest

abbrev pub relation_row : Bytes → RelationDef → RelationRow
relation_row child relation = record {
  child_table = child;
  fk_column = relation.column;
  parent_table = relation.references;
}

-- the `INSERT`s of the loop; `constraint` is what SQLite throws for a key that is there
unfoldable pub insert_relations :
    Exception → Bytes → List RelationDef → List RelationRow → Result (Unit {0}) × List RelationRow
insert_relations constraint child [] rows = (ok tt, rows)
insert_relations constraint child (relation ∷ relations) rows =
    let rest =
      insert_relations constraint child relations (rows ++ relation_row child relation ∷ []) in
    if has_relation child relation.column rows then (err constraint, rows) else rest

-- `replaceForChild`
unfoldable pub replace_for_child :
    Exception → Bytes → List RelationDef → List RelationRow → Result (Unit {0}) × List RelationRow
replace_for_child constraint child relations rows =
    insert_relations constraint child relations (delete_child child rows)

-- `getRelationsReferencing`
unfoldable pub relations_referencing : Bytes → List RelationRow → List RelationRow
relations_referencing parent [] = []
relations_referencing parent (r ∷ rows) =
    let rest = relations_referencing parent rows in
    if str_eq r.parent_table parent then r ∷ rest else rest
