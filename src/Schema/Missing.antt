-- ===== src/Schema/Missing.antt =====
-- What `migrateTable` of cpp/database/MigrationEngine.cpp adds to a table.
use react_native_salve_db.Prelude.{
  ◌≡◌, refl, true, text, none, some, Any, false, List, [], ◌∷◌, ◌++◌, Bytes, str_eq_refl, inl, inr,
  ◌⊎◌, append_assoc, arith, All, is_some, Bool-cases, Option-cases,
}
use mathlib.Core.Path.{subst}
use react_native_salve_db.OrderedMap.{OrderedMap}
use react_native_salve_db.OrderedMap.Laws.{keys}
use react_native_salve_db.Connection.Rows.{member}
use react_native_salve_db.Schema.{ColumnDef}
use react_native_salve_db.Schema.Ddl.{
  cat, sqlite_type, declared_default, added_default, add_column_statement, add_column_statements,
  missing_columns, migration_statements,
}
use react_native_salve_db.Sync.Applier.Values.{quoted}

-- what stands behind the type of a column that is added: its declared default; else nothing where it
-- may be NULL, and some default where it is NOT NULL
abbrev pub IsDefaultOf : ColumnDef → Bytes → Type 0
IsDefaultOf c tail =
    ((literal : Bytes) × (c.default_literal ≡ some literal) × (tail ≡ text " DEFAULT " ++ literal))
    ⊎ (((c.default_literal ≡ none) × (c.nullable ≡ true) × (tail ≡ []))
        ⊎ ((c.default_literal ≡ none)
            × (c.nullable ≡ false)
            × ((literal : Bytes) × (tail ≡ text " DEFAULT " ++ literal))))

-- a statement that adds a column to a table
unfoldable pub Adds : Bytes → (Bytes × ColumnDef) → Bytes → Type 0
Adds table (name, c) sql =
    (tail : Bytes) × (sql
      ≡ cat (
          text "ALTER TABLE "
          ∷ quoted table
          ∷ text " ADD COLUMN "
          ∷ quoted name
          ∷ text " "
          ∷ sqlite_type c.column_type
          ∷ tail
          ∷ []))
    × IsDefaultOf c tail

-- a member of a part is one of the whole
member-back : (k : Bytes) (xs ys : List Bytes) → member k ys ≡ true → member k (xs ++ ys) ≡ true
unfolding member
member-back k [] ys h = h
member-back k (x ∷ xs) ys h = ground (arith, member-back k xs ys h)

member-front : (k : Bytes) (xs ys : List Bytes) → member k xs ≡ true → member k (xs ++ ys) ≡ true
unfolding member
member-front k [] ys h = cc
member-front k (x ∷ xs) ys h = ground (arith, member-front k xs ys)

-- the columns have names among these
Covers : List Bytes → OrderedMap ColumnDef → Type 0
Covers names m = All (λ e. member e.0 names ≡ true) m

keys-Covers : (names : List Bytes) (m : OrderedMap ColumnDef) → Covers (names ++ keys m) m
unfolding Covers member
keys-Covers names [] = tt
keys-Covers names ((k, c) ∷ m) = (
  member-back k names (k ∷ keys m) (rw (str_eq_refl k) refl),
  subst (λ ns. Covers ns m) (append_assoc names (k ∷ []) (keys m))
      (keys-Covers (names ++ k ∷ []) m),
)

missing-covered :
    (existing names : List Bytes) (m : OrderedMap ColumnDef)
    → Covers (existing ++ names) (missing_columns existing m)
    → missing_columns (existing ++ names) m ≡ []
unfolding Covers missing_columns
missing-covered existing names [] h = refl
missing-covered existing names ((k, c) ∷ m) h = elim (Bool-cases (member k existing)) [
  | inl e ↦ rw (member-front k existing names e) (missing-covered existing names m (rw e at h))
  | inr e ↦ (let g = rw e at h in rw (g.0) (missing-covered existing names m g.1))
]

added_default-declared :
    (c : ColumnDef) (l : Bytes) → c.default_literal ≡ some l → added_default c ≡ some l
unfolding added_default
added_default-declared c l e = rw e refl

added_default-nullable :
    (c : ColumnDef) → c.default_literal ≡ none → c.nullable ≡ true → added_default c ≡ none
unfolding added_default
added_default-nullable c e n = rw e (rw n refl)

added_default-there :
    (c : ColumnDef)
    → c.default_literal ≡ none
    → c.nullable ≡ false
    → is_some (added_default c) ≡ true
unfolding added_default
added_default-there c e n = rw e (rw n (ground arith))

added_default-IsDefaultOf : (c : ColumnDef) → IsDefaultOf c (declared_default (added_default c))
added_default-IsDefaultOf c = elim (Option-cases c.default_literal) [
  | inr (l, e) ↦ inl (l, e, rw (added_default-declared c l e) refl)
  | inl e ↦ elim (Bool-cases c.nullable) [
    | inl n ↦ inr (inl (e, n, rw (added_default-nullable c e n) refl))
    | inr n ↦ elim (Option-cases (added_default c)) [
      | inr (l, there) ↦ inr (inr (e, n, (l, rw there refl)))
      | inl gone ↦ (let there = added_default-there c e n in cc (rw gone at there))
    ]
  ]
]

Any-append : {A : Type 0} (P : A → Type 0) (xs ys : List A) → Any P xs ⊎ Any P ys → Any P (xs ++ ys)
Any-append P [] ys (inl h) = elim h [ ]
Any-append P [] ys (inr h) = h
Any-append P (x ∷ xs) ys (inl (inl h)) = inl h
Any-append P (x ∷ xs) ys (inl (inr h)) = inr (Any-append P xs ys (inl h))
Any-append P (x ∷ xs) ys (inr h) = inr (Any-append P xs ys (inr h))

-- what is done about a column: nothing where the table has it, else a statement adds it
abbrev pub IsHandled : List Bytes → Bytes → List Bytes → (Bytes × ColumnDef) → Type 0
IsHandled existing table statements e = (member e.0 existing ≡ true) ⊎ Any (Adds table e) statements

append-IsHandled :
    (existing : List Bytes) (table : Bytes) (first statements : List Bytes)
    (m : OrderedMap ColumnDef)
    → All (IsHandled existing table statements) m
    → All (IsHandled existing table (first ++ statements)) m
append-IsHandled existing table first statements [] h = tt
append-IsHandled existing table first statements (e ∷ m) (inl there, rest) =
    (inl there, append-IsHandled existing table first statements m rest)
append-IsHandled existing table first statements (e ∷ m) (inr added, rest) = (
  inr (Any-append (Adds table e) first statements (inr added)),
  append-IsHandled existing table first statements m rest,
)

-- the columns that are missing, one by one
missing_columns-there :
    (existing : List Bytes) (k : Bytes) (c : ColumnDef) (m : OrderedMap ColumnDef)
    → member k existing ≡ true
    → missing_columns existing m ≡ missing_columns existing ((k, c) ∷ m)
unfolding missing_columns
missing_columns-there existing k c m h = rw (h) refl

missing_columns-absent :
    (existing : List Bytes) (k : Bytes) (c : ColumnDef) (m : OrderedMap ColumnDef)
    → member k existing ≡ false
    → (k, c) ∷ missing_columns existing m ≡ missing_columns existing ((k, c) ∷ m)
unfolding missing_columns
missing_columns-absent existing k c m h = rw (h) refl

missing_columns-IsHandled :
    (existing : List Bytes) (table : Bytes) (m : OrderedMap ColumnDef)
    → All (IsHandled existing table (migration_statements table (missing_columns existing m))) m
unfolding migration_statements add_column_statements add_column_statement Adds
missing_columns-IsHandled existing table [] = tt
missing_columns-IsHandled existing table ((k, c) ∷ m) =
    let handled = λ (ms : OrderedMap ColumnDef).
      All (IsHandled existing table (migration_statements table ms)) ((k, c) ∷ m) in
    elim (Bool-cases (member k existing)) [
      | inl h ↦
          subst handled (missing_columns-there existing k c m h)
            (inl h, missing_columns-IsHandled existing table m)
      | inr h ↦ subst handled (missing_columns-absent existing k c m h) (
        inr (inl (declared_default (added_default c), refl, added_default-IsDefaultOf c)),
        append-IsHandled existing table (add_column_statements table k c) _ m
            (missing_columns-IsHandled existing table m),
      )
    ]

missing-absent :
    (existing : List Bytes) (m : OrderedMap ColumnDef)
    → All (λ e. member e.0 existing ≡ false) (missing_columns existing m)
unfolding missing_columns
missing-absent existing [] = tt
missing-absent existing ((k, c) ∷ m) = elim (Bool-cases (member k existing)) [
  | inl h ↦ rw (h) (missing-absent existing m)
  | inr h ↦ rw (h) (h, missing-absent existing m)
]

-- For each column of a schema that its table lacks, migrateTable executes an ALTER TABLE that adds it
-- with its type and its declared default, or with some default where it declares none and is NOT NULL;
-- the columns that it adds are only such ones; and where the table has got them, a second run executes
-- nothing.
pub migration-IsComplete :
    (existing : List Bytes) (table : Bytes) (columns : OrderedMap ColumnDef)
    → let added = missing_columns existing columns in
      All (IsHandled existing table (migration_statements table added)) columns
      × All (λ e. member e.0 existing ≡ false) added
      × (migration_statements table (missing_columns (existing ++ keys added) columns) ≡ [])
unfolding migration_statements
migration-IsComplete existing table columns =
    let added = missing_columns existing columns in
    (
      missing_columns-IsHandled existing table columns,
      missing-absent existing columns,
      rw (missing-covered existing (keys added) columns (keys-Covers existing added)) refl,
    )
