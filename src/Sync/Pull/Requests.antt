-- ===== src/Sync/Pull/Requests.antt =====
-- The requests that `runPullPhase` of cpp/sync/SyncPullPhase.cpp makes.
use react_native_salve_db.Prelude.{
  ℕ, zero, suc, ◌+◌, ◌*◌, ◌≤◌, Bool, true, false, not, ◌||◌, List, [], ◌∷◌, Bytes, ℤ, pos, pos_part,
  ltb_ℤ, eq_ℤ, Result, ok, err, is_empty, length, int_text, arith, if◌then◌else◌,
}
use react_native_salve_db.Exec.{Exec, continue, ◌>>=◌, pure, lift}
use react_native_salve_db.Json.{Value}
use react_native_salve_db.Json.Double.{Double}
use react_native_salve_db.Sync.Contract.{SyncContract, SyncEndpoint}
use react_native_salve_db.Sync.Pull.Cursor.{parse_cursor}
use react_native_salve_db.Sync.Pull.{
  ApplyStats, PullServices, PullPhaseResult, Page, back_of, candidate_cursor_for, escalated_limit,
  no_progress, max_escalation_attempts, request_rows, after_rows, fetch_page, with_page,
  with_cursor, after_apply, after_fetch, page_loop, empty_result, run_pull_phase,
}

module _ {W : Type 0} (sent : W → ℕ) where
  -- an action in which at most so many requests are sent, whether it returns or throws
  abbrev pub Sends : {A : Type 0} → ℕ → Exec W A → Type 0
  Sends k act = (w : W) → sent (act w).1 ≤ sent w + k

  continue-Sends :
      {A B : Type 0} (k : ℕ) (f : A → Exec W B)
      → ((a : A) → Sends k (f a))
      → (r : Result A) (w : W) → sent (continue r f w).1 ≤ sent w + k
  continue-Sends k f h (ok a) w = h a w
  continue-Sends k f h (err e) w = omega arith

  bind-Sends :
      {A B : Type 0} (j k : ℕ) (act : Exec W A) (f : A → Exec W B)
      → Sends j act
      → ((a : A) → Sends k (f a))
      → Sends (j + k) (act >>= f)
  bind-Sends j k act f h g w = omega (arith, h w, continue-Sends k f g (act w).0 (act w).1)

  free-Sends :
      {A B : Type 0} (k : ℕ) (act : Exec W A) (f : A → Exec W B)
      → Sends 0 act
      → ((a : A) → Sends k (f a))
      → Sends k (act >>= f)
  free-Sends k act f h g w = omega (arith, bind-Sends 0 k act f h g w)

  if-Sends :
      {A : Type 0} (k : ℕ) (b : Bool) (x y : Exec W A)
      → Sends k x
      → Sends k y
      → Sends k (if b then x else y)
  if-Sends k true x y hx hy = hx
  if-Sends k false x y hx hy = hy

-- What the requests of a service are counted by: a call of `list` sends one at most, and nothing else
-- sends any beyond those of the code that it runs.
pub record Counts {W : Type 0} (N : Type 0) ⦃services : PullServices W N⦄ (sent : W → ℕ)
    : Type 0 where
  pub load_sends : (entity : Bytes) → Sends sent 0 (services.load_cursor entity)
  pub save_sends : (entity cursor : Bytes) → Sends sent 0 (services.save_cursor entity cursor)
  pub apply_sends :
      (entity : Bytes) (rows : List (Value N)) → Sends sent 0 (services.apply_rows entity rows)
  pub bypass_sends :
      (code : Exec W ApplyStats)
      → Sends sent 0 code
      → Sends sent 0 (services.apply_with_bypass code)
  pub list_sends :
      (endpoint : SyncEndpoint) (since_ms limit : ℤ) (w : W)
      → sent (services.list_rows endpoint since_ms limit w).1 ≤ sent w + 1
  pub log_sends : (tag message : Bytes) (w : W) → sent (services.log_error tag message w) ≤ sent w

module _ {W N : Type 0} ⦃d : Double N⦄ ⦃services : PullServices W N⦄ (sent : W → ℕ)
    (counts : Counts N sent) (entity : Bytes) (contract : SyncContract) where
  after_rows-Sends :
      (again : ℤ → Page N → Exec W (Page N)) (k : ℕ)
      → ((limit : ℤ) (page : Page N) → Sends sent k (again limit page))
      → (since_ms limit : ℤ) (page : Page N) (rows : List (Value N))
      → Sends sent k (after_rows entity contract again since_ms limit page rows)
  after_rows-Sends again k h since_ms limit page [] = λ w. omega arith
  after_rows-Sends again k h since_ms limit page (row ∷ rows) =
      free-Sends sent k
        (lift (candidate_cursor_for (back_of row rows) contract.endpoint.cursor_field)) _
        (λ w. omega arith)
        λ candidate.
          let next : Page N = record {
            rows = row ∷ rows;
            candidate = candidate;
            requests = suc page.requests;
          } in
          if-Sends sent k (ltb_ℤ since_ms candidate || not (eq_ℤ (pos (length (row ∷ rows))) limit))
            (pure next) (again (escalated_limit limit) next) (λ w. omega arith) (h _ _)

  fetch_page-Sends :
      (attempts : ℕ) (since_ms limit : ℤ) (page : Page N)
      → Sends sent attempts (fetch_page entity contract attempts since_ms limit page)
  unfolding fetch_page
  fetch_page-Sends zero since_ms limit page = λ w. omega arith
  fetch_page-Sends (suc attempts) since_ms limit page = λ w.
      let spent : Sends sent (1 + attempts)
          (fetch_page entity contract (suc attempts) since_ms limit page) =
        bind-Sends sent 1 attempts (request_rows entity contract since_ms limit) _
          (λ v. counts.list_sends contract.endpoint since_ms limit v)
          (after_rows-Sends (λ l p. fetch_page entity contract attempts since_ms l p) attempts
            (fetch_page-Sends attempts since_ms) since_ms limit page) in
      omega (arith, spent w)

  after_apply-Sends :
      (more : ℤ → PullPhaseResult → Exec W PullPhaseResult) (k : ℕ)
      → ((s : ℤ) (r : PullPhaseResult) → Sends sent k (more s r))
      → (since_ms : ℤ) (page : Page N) (result : PullPhaseResult)
      → Sends sent k (after_apply entity contract more since_ms page result)
  after_apply-Sends more k h since_ms page result =
      if-Sends sent k (ltb_ℤ since_ms page.candidate) _ _
        (free-Sends sent k (services.save_cursor entity (int_text page.candidate)) _
          (counts.save_sends entity (int_text page.candidate))
          λ u.
            if-Sends sent k (ltb_ℤ (pos (length page.rows)) contract.page_size)
              (pure (with_cursor result page.candidate))
              (more page.candidate (with_cursor result page.candidate)) (λ w. omega arith) (h _ _))
        (λ w. omega (arith, counts.log_sends _ (no_progress entity since_ms) w))

  after_fetch-Sends :
      (more : ℤ → PullPhaseResult → Exec W PullPhaseResult) (k : ℕ)
      → ((s : ℤ) (r : PullPhaseResult) → Sends sent k (more s r))
      → (since_ms : ℤ) (result : PullPhaseResult) (page : Page N)
      → Sends sent k (after_fetch entity contract more since_ms result page)
  after_fetch-Sends more k h since_ms result page =
      if-Sends sent k (is_empty page.rows) _ _ (λ w. omega arith)
        (free-Sends sent k (services.apply_with_bypass (services.apply_rows entity page.rows)) _
          (counts.bypass_sends _ (counts.apply_sends entity page.rows))
          λ stats. after_apply-Sends more k h since_ms page (with_page result page stats))

module _ {W : Type 0} (N : Type 0) ⦃d : Double N⦄ ⦃services : PullServices W N⦄ (sent : W → ℕ)
    (counts : Counts N sent) (entity : Bytes) (contract : SyncContract) where
  page_loop-Sends :
      (pages : ℕ) (since_ms : ℤ) (result : PullPhaseResult)
      → Sends sent
          (pages * max_escalation_attempts)
          (page_loop N entity contract pages since_ms result)
  unfolding page_loop
  page_loop-Sends zero since_ms result = λ w. omega arith
  page_loop-Sends (suc pages) since_ms result = λ w.
      let first : Page N = record { rows = []; candidate = since_ms; requests = 0 } in
      let rest = pages * max_escalation_attempts in
      let spent : Sends sent (max_escalation_attempts + rest)
          (page_loop N entity contract (suc pages) since_ms result) =
        bind-Sends sent max_escalation_attempts rest
          (fetch_page {N = N} entity contract max_escalation_attempts since_ms contract.page_size
            first)
          _
          (fetch_page-Sends sent counts entity contract max_escalation_attempts since_ms
            contract.page_size first)
          (after_fetch-Sends sent counts entity contract (page_loop N entity contract pages) rest
            (page_loop-Sends pages) since_ms result) in
      omega (arith, spent w)

  -- A pull, whether it returns or throws, sends at most four requests for each page that a session may
  -- have, where a call of `list` sends one at most and the other services send none.
  pub run_pull_phase-Sends :
      (w : W)
      → sent (run_pull_phase N entity contract w).1
        ≤ sent w + 4 * pos_part contract.max_pages_per_session
  unfolding run_pull_phase
  run_pull_phase-Sends w =
      let pages = pos_part contract.max_pages_per_session in
      let spent : Sends sent (pages * max_escalation_attempts) (run_pull_phase N entity contract) =
        free-Sends sent (pages * max_escalation_attempts) (services.load_cursor entity) _
          (counts.load_sends entity)
          (λ stored.
            page_loop-Sends pages (parse_cursor stored) (empty_result (parse_cursor stored))) in
      omega (arith, spent w)
