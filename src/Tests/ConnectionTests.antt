-- ===== src/Tests/ConnectionTests.antt =====
-- Concrete inputs for the connection.
use react_native_salve_db.Prelude.{
  ℕ, suc, ◌+◌, List, [], ◌∷◌, none, ◌≡◌, refl, text, true, ok, arith,
}
use react_native_salve_db.Exec.{pure}
use react_native_salve_db.Connection.Prepare.{
  StatementCache, Statements, prepared, cache_with, splice_out, get_or_prepare,
}
use react_native_salve_db.Connection.Prepare.Elements.{IsCache}
use react_native_salve_db.Connection.Prepare.Lru.{Prepares, get_or_prepare-Prepares}
use react_native_salve_db.Connection.{Connection, Sqlite, Callbacks, finished, done}
use react_native_salve_db.Connection.Rows.{FromInteger}
use react_native_salve_db.Connection.Notifications.{
  Call, query, command, run_calls, InTransaction, run_calls-waits,
}

-- a world that counts the calls
instance unfoldable counting_statements : Statements ℕ ℕ
counting_statements = record { prepare = λ sql w. (prepared w, suc w); finalize = λ h w. suc w }

instance unfoldable counting_sqlite : Sqlite ℕ ℕ ℕ
counting_sqlite = record {
  reset = λ h w. w;
  clear_bindings = λ h w. w;
  bind = λ h i b w. suc w;
  step = λ h w. ((finished, text "item" ∷ []), suc w);
  exec = λ sql w. ((done, text "other" ∷ []), suc w);
}

instance unfoldable same_integer : FromInteger ℕ
same_integer = record { of_int64 = λ z. 0 }

abbrev quiet : Callbacks ℕ ℕ ℕ
quiet = record { call = λ cb tables. pure tt }

abbrev loud : Callbacks ℕ ℕ ℕ
loud = record { call = λ cb tables s. (ok tt, (s.0, s.1 + 100)) }

abbrev one_statement : StatementCache ℕ
one_statement = record {
  lru = record { iterator = 4; sql = text "A"; statement = 7 } ∷ [];
  cache = cache_with (text "A") 4 (λ q. none);
  next_iterator = 5;
  prepare_count = 1;
}

one_statement-IsCache : IsCache one_statement
unfolding cache_with splice_out
one_statement-IsCache = record {
  bounded = omega arith;
  agrees = λ q. refl;
  distinct = (refl, refl, tt);
  fresh = (omega arith, tt);
}

get_or_prepare-Prepares_example :
    Prepares {W = ℕ} (text "B") one_statement 9 (get_or_prepare (text "B") (one_statement, 9))
get_or_prepare-Prepares_example =
    get_or_prepare-Prepares (text "B") one_statement 9 one_statement-IsCache

abbrev in_a_transaction : Connection ℕ ℕ × ℕ
in_a_transaction = (
  record {
    statements = one_statement;
    in_transaction = true;
    touched_tables = [];
    subscribers = (0, 1) ∷ [];
    next_subscriber_id = 1;
  },
  0,
)

abbrev two_calls : List (Call ℕ)
two_calls = query (text "B") [] ∷ command (text "C") ∷ []

run_calls-waits_example :
    (run_calls ⦃cs = quiet⦄ [] 3 two_calls in_a_transaction
      ≡ run_calls ⦃cs = loud⦄ [] 3 two_calls in_a_transaction)
    × InTransaction (run_calls ⦃cs = quiet⦄ [] 3 two_calls in_a_transaction)
run_calls-waits_example = run_calls-waits quiet loud [] 3 two_calls in_a_transaction refl
