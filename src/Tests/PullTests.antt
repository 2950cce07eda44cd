-- ===== src/Tests/PullTests.antt =====
-- The theorems on a pull, on a service that answers one page of one row.
use react_native_salve_db.Prelude.{
  ℕ, suc, ◌+◌, ◌≡◌, refl, ◌*◌, ◌≤◌, false, [], ◌∷◌, Option, none, some, Bytes, text, str_eq, ℤ, pos,
  negsuc, pos_part, ◌≤ℤ◌, int_text, ok, arith,
}
use react_native_salve_db.OrderedMap.{find}
use react_native_salve_db.Json.{Value, number, array, object, cons, nil, field, end, get}
use react_native_salve_db.Http.SyncHttpCaller.{answered}
use react_native_salve_db.Http.UrlTemplate.{unparsed}
use react_native_salve_db.Sync.Contract.{SyncContract}
use react_native_salve_db.Sync.Pull.Cursor.{parse_cursor, parse_cursor-int_text}
use react_native_salve_db.Sync.Pull.{
  PullServices, PullPhaseResult, run_pull_phase, page_loop, fetch_page, page_of,
  candidate_cursor_for, last_timestamp,
}
use react_native_salve_db.Sync.Pull.Requests.{Counts, run_pull_phase-Sends}
use react_native_salve_db.Sync.Pull.Progress.{run_pull_phase-Advances}
use react_native_salve_db.Tests.Doubles.{integer_double}

parse_cursor-int_text_example : parse_cursor (some (int_text (negsuc 41))) ≡ negsuc 41
parse_cursor-int_text_example = parse_cursor-int_text (negsuc 41) (omega arith, omega arith)

-- one row with the timestamp 9 under "u"
abbrev rows : Value ℤ
rows = array (cons (object (field (b'u' ∷ []) (number (pos 9)) end)) nil)

-- a service whose world is the stored cursor
instance unfoldable one_page : PullServices (Option Bytes) ℤ
one_page = record {
  load_cursor = λ entity w. (ok w, w);
  save_cursor = λ entity cursor w. (ok tt, some cursor);
  apply_with_bypass = λ code. code;
  apply_rows = λ entity rows w. (ok (record { inserted = 1; updated = 0; deleted = 0 }), w);
  list_rows =
      λ endpoint since_ms limit w. (answered (record { status_code = pos 200; body = rows }), w);
  log_error = λ tag message w. w;
}

abbrev contract : SyncContract
contract = record {
  endpoint = record {
    base_path = [];
    item_path_template = unparsed;
    list_query_template = unparsed;
    extra_headers = [];
    cursor_field = b'u' ∷ [];
  };
  conflict = record { strategy = []; conflict_field = []; field_explicit = false };
  page_size = pos 20;
  max_pages_per_session = pos 20;
}

abbrev pulled : PullPhaseResult
pulled = record {
  stats = record { inserted = 1; updated = 0; deleted = 0 };
  pages_fetched = 1;
  cursor_ms = some (pos 8);
}

one_pull : run_pull_phase ℤ [] contract none ≡ (ok pulled, some (int_text (pos 8)))
unfolding run_pull_phase page_loop fetch_page page_of candidate_cursor_for last_timestamp one_page
    text get find str_eq parse_cursor integer_double
one_pull = refl

run_pull_phase-Advances_example :
    (stored : Option Bytes) × (w₁ : Option Bytes) × (z : ℤ) × (one_page.load_cursor [] none
      ≡ (ok stored, w₁))
    × (pulled.cursor_ms ≡ some z)
    × (parse_cursor stored ≤ℤ z)
    × (pulled.pages_fetched ≤ 4 * pos_part contract.max_pages_per_session)
run_pull_phase-Advances_example = run_pull_phase-Advances ℤ [] contract none one_pull

-- a service that answers as above, on a world that counts its requests
instance unfoldable counting : PullServices ℕ ℤ
counting = record {
  load_cursor = λ entity w. (ok none, w);
  save_cursor = λ entity cursor w. (ok tt, w);
  apply_with_bypass = λ code. code;
  apply_rows = λ entity rows w. (ok (record { inserted = 1; updated = 0; deleted = 0 }), w);
  list_rows = λ endpoint since_ms limit w.
      (answered (record { status_code = pos 200; body = rows }), suc w);
  log_error = λ tag message w. w;
}

abbrev requests : ℕ → ℕ
requests w = w

counts : Counts ℤ requests
unfolding counting
counts = record {
  load_sends = λ entity w. omega arith;
  save_sends = λ entity cursor w. omega arith;
  apply_sends = λ entity rows w. omega arith;
  bypass_sends = λ code h. h;
  list_sends = λ endpoint since_ms limit w. omega arith;
  log_sends = λ tag message w. omega arith;
}

run_pull_phase-Sends_example :
    requests (run_pull_phase {W = ℕ} ℤ [] contract 7).1
    ≤ requests 7 + 4 * pos_part contract.max_pages_per_session
run_pull_phase-Sends_example = run_pull_phase-Sends ℤ requests counts [] contract 7
