-- ===== src/Connection/Lifetime.antt =====
-- The constructor and the destructor of cpp/database/SQLiteConnection.cpp.
use react_native_salve_db.Prelude.{
  ◌&&◌, Bool, not, List, [], ◌∷◌, ◌++◌, Option, none, some, Bytes, text, str_eq, Result, ok, err,
  runtime_error, if◌then◌else◌,
}
use react_native_salve_db.Connection.Prepare.{Node, Statements, Prepared, prepared, refused}
use react_native_salve_db.Connection.Rows.{text_cell, c_string}
use react_native_salve_db.Connection.{Connection, Step, row, Sqlite}

-- `sqlite3_open_v2`, with the message where it fails, `sqlite3_close`, and the settings behind the
-- opening: foreign keys, the busy timeout, extended codes and the update hook
pub record Handles (W : Type 0) : Type 0 where
  pub open_db : Bytes → W → Option Bytes × W
  pub close_db : W → W
  pub apply_settings : W → W
  pub remove_hook : W → W

unfoldable pub journal_pragma : Bool → Bytes
journal_pragma wal_mode =
    text "PRAGMA journal_mode=" ++ ((if wal_mode then text "WAL" else text "DELETE") ++ text ";")

-- the first cell of a row, as the text that the pragma answers with
unfoldable pub journal_text : {N : Type 0} → Step N → Bytes
journal_text (row header (text_cell (some s) ∷ cells)) = c_string s
journal_text _ = []

module _ {W H : Type 0} (N : Type 0) ⦃st : Statements W H⦄ ⦃q : Sqlite W H N⦄ where
  -- `setJournalMode`, behind `sqlite3_prepare_v2`
  unfoldable pub after_journal : Prepared H × W → Result Bytes × W
  after_journal (refused e, w) =
      (err (runtime_error (text "SQLite journal_mode pragma failed: " ++ e.message)), w)
  after_journal (prepared h, w) =
      let ((now, tables), w') = q.step h w in (ok (journal_text now), st.finalize h w')

module _ {H Cb : Type 0} where
  abbrev pub new_connection : Connection H Cb
  new_connection = record {
    statements = record { lru = []; cache = λ sql. none; next_iterator = 0; prepare_count = 0 };
    in_transaction = Bool.false;
    touched_tables = [];
    subscribers = [];
    next_subscriber_id = 0;
  }

module _ {W H : Type 0} (Cb : Type 0) ⦃handles : Handles W⦄ where
  -- behind the journal mode
  unfoldable pub with_journal : Bool → Result Bytes × W → Result (Connection H Cb) × W
  with_journal wal_mode (err e, w) = (err e, w)
  with_journal wal_mode (ok mode, w) =
      if wal_mode && not (str_eq mode (text "wal"))
      then (
        err (
            runtime_error
              (text "SQLite failed to enable WAL journal mode (got '" ++ (mode ++ text "')"))),
        handles.close_db w,
      )
      else (ok new_connection, handles.apply_settings w)

module _ {W H : Type 0} (N Cb : Type 0) ⦃st : Statements W H⦄ ⦃q : Sqlite W H N⦄
    ⦃handles : Handles W⦄ where
  -- behind `sqlite3_open_v2`
  unfoldable pub after_open : Bytes → Bool → Option Bytes × W → Result (Connection H Cb) × W
  after_open path wal_mode (some message, w) = (
    err (runtime_error (text "SQLite open failed (" ++ (path ++ (text "): " ++ message)))),
    handles.close_db w,
  )
  after_open path wal_mode (none, w) =
      with_journal Cb wal_mode (after_journal N (st.prepare (journal_pragma wal_mode) w))

  -- the constructor
  unfoldable pub open_connection : Bytes → Bool → W → Result (Connection H Cb) × W
  open_connection path wal_mode w = after_open path wal_mode (handles.open_db path w)

  unfoldable pub finalize_nodes : List (Node H) → W → W
  finalize_nodes [] w = w
  finalize_nodes (n ∷ ns) w = finalize_nodes ns (st.finalize n.statement w)

  -- the destructor: a transaction that is open is rolled back
  unfoldable pub close_connection : Connection H Cb → W → W
  close_connection c w =
      let w₁ = if c.in_transaction then (q.exec (text "ROLLBACK") w).1 else w in
      handles.close_db (finalize_nodes c.statements.lru (handles.remove_hook w₁))
