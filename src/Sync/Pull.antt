-- ===== src/Sync/Pull.antt =====
-- cpp/sync/SyncPullPhase.cpp: the pages of one entity, from its cursor on. The cursor store, the
-- applier, the guard, the requester and the log are the operations of `PullServices`.
pub mod Cursor
pub mod Progress
pub mod Requests
use react_native_salve_db.Prelude.{
  ℕ, zero, suc, ◌+◌, ◌*◌, Bool, true, false, not, ◌&&◌, ◌||◌, List, [], ◌∷◌, ◌++◌, Option, none,
  some, Bytes, text, em_dash, ℤ, pos, negsuc, pos_part, ltb_ℤ, eq_ℤ, pred_ℤ, int_text, Result, ok,
  err, runtime_error, network_failure, if◌then◌else◌, is_empty, length,
}
use react_native_salve_db.Exec.{Exec, ◌>>=◌, ◌>>◌, pure, lift, modify}
use react_native_salve_db.Json.{Value, null, bool, number, string, array, object, elements, get}
use react_native_salve_db.Json.Double.{Double}
use react_native_salve_db.Http.SyncHttpCaller.{
  SyncHttpOutcome, SyncHttpResponse, answered, unreachable,
}
use react_native_salve_db.Credentials.Provider.{is_success}
use react_native_salve_db.Sync.Contract.{SyncContract, SyncEndpoint}
use react_native_salve_db.Sync.Pull.Cursor.{parse_cursor}

pub record ApplyStats : Type 0 where
  pub inserted : ℕ
  pub updated : ℕ
  pub deleted : ℕ

pub record PullPhaseResult : Type 0 where
  pub stats : ApplyStats
  pub pages_fetched : ℕ
  pub cursor_ms : Option ℤ

-- `SyncCursorStore::load` and `save`, `SyncApplyGuard::applyWithBypass`, `SyncOperationApplier::apply`,
-- `SyncHttpRequester::list` and `platform::logError`
pub record PullServices (W N : Type 0) : Type 0 where
  pub load_cursor : Bytes → Exec W (Option Bytes)
  pub save_cursor : Bytes → Bytes → Exec W (Unit {0})
  pub apply_with_bypass : Exec W ApplyStats → Exec W ApplyStats
  pub apply_rows : Bytes → List (Value N) → Exec W ApplyStats
  pub list_rows : SyncEndpoint → ℤ → ℤ → W → SyncHttpOutcome N × W
  pub log_error : Bytes → Bytes → W → W

-- `kMaxEscalationAttempts`
abbrev pub max_escalation_attempts : ℕ
max_escalation_attempts = 4

abbrev times_8 : ℤ → ℤ
times_8 (pos n) = pos (n * 8)
times_8 (negsuc n) = negsuc (n * 8 + 7)

-- `std::min(limit * 8, kMaxEscalatedLimit)`; the product of `int`s may overflow in the source
unfoldable pub escalated_limit : ℤ → ℤ
escalated_limit limit = if ltb_ℤ (pos 2000) (times_8 limit) then pos 2000 else times_8 limit

abbrev pub added : ApplyStats → ApplyStats → ApplyStats
added a b = record {
  inserted = a.inserted + b.inserted;
  updated = a.updated + b.updated;
  deleted = a.deleted + b.deleted;
}

module _ {N : Type 0} where
  abbrev number_of : Option (Value N) → Option N
  number_of (some (number n)) = some n
  number_of _ = none

  -- the last timestamp of a row: `deletedAt`, else the cursor field
  unfoldable pub last_timestamp : Value N → Bytes → Result N
  last_timestamp last_row cursor_field = elim (number_of (get last_row (text "deletedAt"))) [
    | some n ↦ ok n
    | none ↦ elim (number_of (get last_row cursor_field)) [
      | some n ↦ ok n
      | none ↦ err (
          runtime_error (
            text "SyncPullPhase: last row of a pulled page has no numeric '"
            ++ (cursor_field
                ++ (text "' or deletedAt " ++ (em_dash ++ text " cannot advance the cursor")))))
    ]
  ]

  -- `rows.back()` of a list that is not empty
  abbrev pub back_of : Value N → List (Value N) → Value N
  back_of row [] = row
  back_of row (next ∷ rows) = back_of next rows

  -- the rows of a response, or the exception of one that is no page
  abbrev array_of : Bytes → Value N → Result (List (Value N))
  array_of base_path (array rows) = ok (elements rows)
  array_of base_path _ =
      err (runtime_error (text "SyncPullPhase: expected a bare JSON array from GET " ++ base_path))

  unfoldable pub page_of : Bytes → SyncHttpOutcome N → Result (List (Value N))
  page_of base_path (unreachable e) = err (
      network_failure (text "SyncPullPhase: pull request failed " ++ (em_dash ++ (32 ∷ e.message))))
  page_of base_path (answered r) =
      if is_success r.status_code
      then array_of base_path r.body
      else err (
          runtime_error
            (text "SyncPullPhase: pull request failed with status " ++ int_text r.status_code))

-- what the attempts at one page leave: its rows, the cursor behind them, the requests made
pub record Page (N : Type 0) : Type 0 where
  pub rows : List (Value N)
  pub candidate : ℤ
  pub requests : ℕ

module _ {N : Type 0} ⦃d : Double N⦄ where
  -- `candidateCursorFor`
  unfoldable pub candidate_cursor_for : Value N → Bytes → Result ℤ
  candidate_cursor_for last_row cursor_field = elim (last_timestamp last_row cursor_field) [
    | ok n ↦ ok (pred_ℤ (d.truncate n))
    | err e ↦ err e
  ]

unfoldable pub no_progress : Bytes → ℤ → Bytes
no_progress entity since_ms =
    text "SyncPullPhase: pull page for '"
    ++ (entity
        ++ (text "' did not advance the cursor past "
            ++ (int_text since_ms
                ++ (32 ∷ (em_dash ++ text " stopping this session without persisting it")))))

-- the result behind the rows of a page were applied
abbrev pub with_page : {N : Type 0} → PullPhaseResult → Page N → ApplyStats → PullPhaseResult
with_page result page stats = record {
  stats = added result.stats stats;
  pages_fetched = result.pages_fetched + page.requests;
  cursor_ms = result.cursor_ms;
}

abbrev pub with_cursor : PullPhaseResult → ℤ → PullPhaseResult
with_cursor result cursor = record {
  stats = result.stats;
  pages_fetched = result.pages_fetched;
  cursor_ms = some cursor;
}

abbrev pub empty_result : ℤ → PullPhaseResult
empty_result since_ms = record {
  stats = record { inserted = 0; updated = 0; deleted = 0 };
  pages_fetched = 0;
  cursor_ms = some since_ms;
}

module _ {W N : Type 0} ⦃d : Double N⦄ ⦃services : PullServices W N⦄ (entity : Bytes)
    (contract : SyncContract) where
  -- one request, and the rows of its page
  abbrev pub request_rows : ℤ → ℤ → Exec W (List (Value N))
  request_rows since_ms limit w =
      let (outcome, w') = services.list_rows contract.endpoint since_ms limit w in
      (page_of contract.endpoint.base_path outcome, w')

  -- the rest of an attempt, behind its request; `again` makes the next one
  abbrev pub after_rows :
      (ℤ → Page N → Exec W (Page N)) → ℤ → ℤ → Page N → List (Value N) → Exec W (Page N)
  after_rows again since_ms limit page [] =
      pure (record { rows = []; candidate = page.candidate; requests = suc page.requests })
  after_rows again since_ms limit page (row ∷ rows) =
      lift (candidate_cursor_for (back_of row rows) contract.endpoint.cursor_field) >>= λ candidate.
      let next : Page N = record {
        rows = row ∷ rows;
        candidate = candidate;
        requests = suc page.requests;
      } in
      if ltb_ℤ since_ms candidate || not (eq_ℤ (pos (length (row ∷ rows))) limit)
      then pure next
      else again (escalated_limit limit) next

  -- The attempts at one page: a full page that does not get past the cursor is asked for again, with
  -- another limit. `page` is what the attempts so far have left.
  unfoldable pub fetch_page : ℕ → ℤ → ℤ → Page N → Exec W (Page N)
  fetch_page zero since_ms limit page = pure page
  fetch_page (suc attempts) since_ms limit page =
      request_rows since_ms limit
      >>= after_rows (λ limit' page'. fetch_page attempts since_ms limit' page') since_ms limit page

  -- behind the application of a page that is not empty; `more` is the loop from its cursor on
  abbrev pub after_apply :
      (ℤ → PullPhaseResult → Exec W PullPhaseResult)
      → ℤ
      → Page N
      → PullPhaseResult
      → Exec W PullPhaseResult
  after_apply more since_ms page result =
      if ltb_ℤ since_ms page.candidate
      then services.save_cursor entity (int_text page.candidate)
        >> (if ltb_ℤ (pos (length page.rows)) contract.page_size
            then pure (with_cursor result page.candidate)
            else more page.candidate (with_cursor result page.candidate))
      else modify (services.log_error (text "SalveDb") (no_progress entity since_ms)) >> pure result

  -- behind the fetching of a page
  abbrev pub after_fetch :
      (ℤ → PullPhaseResult → Exec W PullPhaseResult)
      → ℤ
      → PullPhaseResult
      → Page N
      → Exec W PullPhaseResult
  after_fetch more since_ms result page =
      if is_empty page.rows
      then pure (with_page result page (record { inserted = 0; updated = 0; deleted = 0 }))
      else services.apply_with_bypass (services.apply_rows entity page.rows) >>= λ stats.
          after_apply more since_ms page (with_page result page stats)

module _ {W : Type 0} (N : Type 0) ⦃d : Double N⦄ ⦃services : PullServices W N⦄ (entity : Bytes)
    (contract : SyncContract) where
  -- The loop over the pages, at most so many of them.
  unfoldable pub page_loop : ℕ → ℤ → PullPhaseResult → Exec W PullPhaseResult
  page_loop zero since_ms result = pure result
  page_loop (suc pages) since_ms result =
      fetch_page {N = N} entity contract max_escalation_attempts since_ms contract.page_size
        (record { rows = []; candidate = since_ms; requests = 0 })
      >>= after_fetch entity contract (page_loop pages) since_ms result

  -- `runPullPhase`
  unfoldable pub run_pull_phase : Exec W PullPhaseResult
  run_pull_phase = services.load_cursor entity >>= λ stored.
      let since_ms = parse_cursor stored in
      page_loop (pos_part contract.max_pages_per_session) since_ms (empty_result since_ms)
