-- ===== src/Reset.antt =====
-- cpp/database/DatabaseResetter.cpp: the reset of a sign-out. Beside the world stands the process's
-- registry of boolean columns; the connection is Database, Transactions and ResetServices, which also has
-- the manager, the tokens and the configuration's file.
pub mod Outcomes
use react_native_salve_db.Prelude.{
  Bool, true, false, List, [], ◌∷◌, ◌++◌, Bytes, text, Result, ok, err, Exception, if◌then◌else◌,
  is_empty, not, ◌==◌,
}
use react_native_salve_db.Exec.{Exec, ◌>>=◌, ◌>>◌, pure}
use react_native_salve_db.Sql.{SqlValue, sql_string, Database}
use react_native_salve_db.Connection.Rows.{SchemaRegistry, clear}
use react_native_salve_db.Sync.Guard.{Transactions, on_world, apply_with_bypass}

pub record ResetServices (W : Type 0) : Type 0 where
  pub is_open : W → Bool
  pub exec : Bytes → Exec W (Unit {0})
  pub clear_tokens : Exec W (Unit {0})
  pub reset_config : W → W
  pub remove_config_file : Exec W (Unit {0})

-- `kInternalSyncTables`
abbrev internal_sync_tables : List Bytes
internal_sync_tables =
    text "sync_queue"
    ∷ text "_salve_sync_cursors"
    ∷ text "_salve_sync_definitions"
    ∷ text "_salve_sync_metadata"
    ∷ text "_salve_schema_versions"
    ∷ text "_salve_relations"
    ∷ []

-- the loop of `quoteIdentifier`
unfoldable pub escape_quotes : Bytes → Bytes
escape_quotes [] = []
escape_quotes (c ∷ s) =
    let rest = escape_quotes s in if c == b'"' then b'"' ∷ b'"' ∷ rest else c ∷ rest

-- `quoteIdentifier`
unfoldable pub quote_identifier : Bytes → Bytes
quote_identifier name = b'"' ∷ (escape_quotes name ++ b'"' ∷ [])

-- the texts of the first column
unfoldable pub first_texts : {N : Type 0} → List (List (SqlValue N)) → List Bytes
first_texts [] = []
first_texts ((sql_string name ∷ row) ∷ rows) = name ∷ first_texts rows
first_texts (row ∷ rows) = first_texts rows

-- the exception that is thrown again: the wipe's before the file's
unfoldable pub first_error : Result (Unit {0}) → Result (Unit {0}) → Result (Unit {0})
first_error (err e) removed = err e
first_error (ok u) removed = removed

module _ {W : Type 0} ⦃services : ResetServices W⦄ where
  unfoldable pub wipe_domain_tables : List Bytes → Exec W (Unit {0})
  wipe_domain_tables [] = pure tt
  wipe_domain_tables (table ∷ tables) =
      services.exec (text "DELETE FROM " ++ quote_identifier table) >> wipe_domain_tables tables

  unfoldable pub wipe_internal_tables : List Bytes → Exec W (Unit {0})
  wipe_internal_tables [] = pure tt
  wipe_internal_tables (table ∷ tables) =
      services.exec (text "DELETE FROM " ++ table) >> wipe_internal_tables tables

  -- behind the clearing of the tokens, which stands outside any `try`: where it throws, the rest does
  -- not run, and its exception goes on in place of the wipe's
  unfoldable pub after_clearing :
      Result (Unit {0}) → Result (Unit {0}) × W → Result (Unit {0}) × (W × SchemaRegistry)
  after_clearing wiped (err e, w) = (err e, (w, []))
  after_clearing wiped (ok u, w) =
      let (removed, w') = services.remove_config_file (services.reset_config w) in
      (first_error wiped removed, (w', []))

  -- behind the wipe, or where no database is open
  unfoldable pub sign_out : Result (Unit {0}) → W → Result (Unit {0}) × (W × SchemaRegistry)
  sign_out wiped w = after_clearing wiped (services.clear_tokens w)

module _ {W : Type 0} ⦃services : ResetServices W⦄ ⦃t : Transactions W⦄ where
  -- the wipe under the lock of the sync triggers
  unfoldable pub wipe_locked : List Bytes → Exec W (Unit {0})
  wipe_locked tables w =
      let (wiped, s) =
        apply_with_bypass
          (on_world (wipe_domain_tables tables >> wipe_internal_tables internal_sync_tables))
          (w, tt) in
      (wiped, s.0)

  -- the destructor of TransactionGuard: what the rollback throws is dropped
  abbrev pub rolled_back : Result (Unit {0}) × W → Result (Unit {0}) × W
  rolled_back (ok u, w) = (ok u, w)
  rolled_back (err e, w) = (err e, (t.rollback w).1)

  -- the wipe before any schema was registered
  unfoldable pub wipe_unlocked : List Bytes → Exec W (Unit {0})
  wipe_unlocked tables =
      t.begin_transaction >> λ w. rolled_back ((wipe_domain_tables tables >> t.commit) w)

module _ {W : Type 0} (N : Type 0) ⦃services : ResetServices W⦄ ⦃t : Transactions W⦄
    ⦃db : Database W N⦄ where
  -- `syncTablesExist`
  unfoldable pub sync_tables_exist : Exec W Bool
  sync_tables_exist =
      db.execute
        (text "SELECT 1 FROM sqlite_master WHERE type = 'table' AND name = '_sync_apply_lock'") []
      >>= λ result. pure (not (is_empty result.rows))

  -- `domainTables`
  unfoldable pub domain_tables : Exec W (List Bytes)
  domain_tables =
      db.execute
        (text
          "SELECT name FROM sqlite_master WHERE type = 'table' AND name NOT LIKE 'sqlite_%' AND name NOT LIKE '\\_salve%' ESCAPE '\\' AND name NOT IN ('sync_queue', '_sync_apply_lock')")
        []
      >>= λ result. pure (first_texts result.rows)

  -- what the source tries
  unfoldable pub wipe : List Bytes → Exec W (Unit {0})
  wipe tables = sync_tables_exist >>= λ exist.
      if exist
      then wipe_locked tables
      else if is_empty tables
      then pure tt
      else wipe_unlocked tables

  -- behind the listing of the tables, which stands outside the `try`
  unfoldable pub after_listing :
      SchemaRegistry → Result (List Bytes) × W → Result (Unit {0}) × (W × SchemaRegistry)
  after_listing r (ok tables, w) = let (wiped, w') = wipe tables w in sign_out wiped w'
  after_listing r (err e, w) = (err e, (w, r))

  -- `DatabaseResetter::reset`
  unfoldable pub reset : Exec (W × SchemaRegistry) (Unit {0})
  reset (w, r) =
      if services.is_open w then after_listing r (domain_tables w) else sign_out (ok tt) w
