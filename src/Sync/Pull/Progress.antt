-- ===== src/Sync/Pull/Progress.antt =====
-- The cursor and the number of requests of `runPullPhase` of cpp/sync/SyncPullPhase.cpp.
use react_native_salve_db.Prelude.{
  ◌≡◌, refl, sym, ap, ok-injective, ℕ, zero, suc, ◌+◌, ◌*◌, ◌≤◌, true, not, ◌||◌, List, [], ◌∷◌,
  Option, some, Bytes, ℤ, pos, pos_part, ltb_ℤ, eq_ℤ, ◌≤ℤ◌, ok, is_empty, length, Bool-cases, inl,
  inr, ltb→lt, int_text, arith,
}
use react_native_salve_db.Exec.{Exec, pure, lift, >>=-run-ok}
use react_native_salve_db.Json.{Value}
use react_native_salve_db.Json.Double.{Double}
use react_native_salve_db.Sync.Contract.{SyncContract}
use react_native_salve_db.Sync.Pull.Cursor.{parse_cursor}
use react_native_salve_db.Sync.Pull.{
  PullServices, PullPhaseResult, Page, back_of, candidate_cursor_for, escalated_limit,
  max_escalation_attempts, request_rows, after_rows, fetch_page, with_page, with_cursor,
  after_apply, after_fetch, page_loop, empty_result, run_pull_phase,
}

pure-eq : {A W : Type 0} (a b : A) {w w' : W} → pure a w ≡ (ok b, w') → b ≡ a
pure-eq a b e = sym (ok-injective (ap (λ p. p.0) e))

-- how far a result is from another: so many requests at most were made since, and the cursor is not
-- behind
record Advances (k : ℕ) (since_ms : ℤ) (old new : PullPhaseResult) : Type 0 where
  pages : new.pages_fetched ≤ old.pages_fetched + k
  cursor : (z : ℤ) × (new.cursor_ms ≡ some z) × (since_ms ≤ℤ z)

moved :
    (k : ℕ) (since_ms candidate : ℤ) (result : PullPhaseResult)
    → ltb_ℤ since_ms candidate ≡ true
    → Advances k since_ms result (with_cursor result candidate)
moved k since_ms candidate result b =
    let ahead = ltb→lt _ _ b in
    record { pages = omega arith; cursor = (candidate, refl, omega arith) }

further :
    (k : ℕ) (since_ms candidate : ℤ) (result out : PullPhaseResult)
    → ltb_ℤ since_ms candidate ≡ true
    → Advances k candidate (with_cursor result candidate) out
    → Advances k since_ms result out
further k since_ms candidate result out b rest =
    let ahead = ltb→lt _ _ b in
    let (z, at_z, beyond) = rest.cursor in
    record { pages = rest.pages; cursor = (z, at_z, omega arith) }

module _ {W N : Type 0} ⦃d : Double N⦄ ⦃services : PullServices W N⦄ (entity : Bytes)
    (contract : SyncContract) where
  after_rows-requests :
      (again : ℤ → Page N → Exec W (Page N)) (k : ℕ)
      → ((limit : ℤ) (page : Page N) (w w' : W) (out : Page N)
          → again limit page w ≡ (ok out, w')
          → out.requests ≤ k + page.requests)
      → (since_ms limit : ℤ) (page : Page N) (rows : List (Value N)) (w w' : W) (out : Page N)
      → after_rows entity contract again since_ms limit page rows w ≡ (ok out, w')
      → out.requests ≤ suc k + page.requests
  after_rows-requests again k ih since_ms limit page [] w w' out e =
      rw (pure-eq _ out e) (omega arith)
  after_rows-requests again k ih since_ms limit page (row ∷ rows) w w' out e =
      >>=-run-ok (lift (candidate_cursor_for (back_of row rows) contract.endpoint.cursor_field)) _ w
        e
        λ candidate w₁ h g.
          let next : Page N = record {
            rows = row ∷ rows;
            candidate = candidate;
            requests = suc page.requests;
          } in
          elim (Bool-cases
            (ltb_ℤ since_ms candidate || not (eq_ℤ (pos (length (row ∷ rows))) limit))) [
              | inl b ↦ rw (pure-eq next out (rw b at g)) (omega arith)
              | inr b ↦ omega (arith, ih (escalated_limit limit) next w₁ w' out (rw b at g))
            ]

  fetch_page-requests :
      (attempts : ℕ) (since_ms limit : ℤ) (page : Page N) (w w' : W) (out : Page N)
      → fetch_page entity contract attempts since_ms limit page w ≡ (ok out, w')
      → out.requests ≤ attempts + page.requests
  unfolding fetch_page
  fetch_page-requests zero since_ms limit page w w' out e = rw (pure-eq page out e) (omega arith)
  fetch_page-requests (suc attempts) since_ms limit page w w' out e =
      >>=-run-ok (request_rows entity contract since_ms limit) _ w e λ rows w₁ h g.
        after_rows-requests (λ l p. fetch_page entity contract attempts since_ms l p) attempts
          (λ l p v v' o. fetch_page-requests attempts since_ms l p v v' o) since_ms limit page rows
          w₁ w' out g

  after_apply-Advances :
      (more : ℤ → PullPhaseResult → Exec W PullPhaseResult) (k : ℕ)
      → ((s : ℤ) (r : PullPhaseResult) (w w' : W) (out : PullPhaseResult)
          → r.cursor_ms ≡ some s
          → more s r w ≡ (ok out, w')
          → Advances k s r out)
      → (since_ms : ℤ) (result : PullPhaseResult) (page : Page N) (w w' : W) (out : PullPhaseResult)
      → result.cursor_ms ≡ some since_ms
      → after_apply entity contract more since_ms page result w ≡ (ok out, w')
      → Advances k since_ms result out
  after_apply-Advances more k ih since_ms result page w w' out at_cursor e =
      elim (Bool-cases (ltb_ℤ since_ms page.candidate)) [
        | inl b ↦
            >>=-run-ok (services.save_cursor entity (int_text page.candidate)) _ w (rw b at e)
              λ done w₁ h g. elim (Bool-cases (ltb_ℤ (pos (length page.rows)) contract.page_size)) [
                | inl last ↦
                    rw (pure-eq _ out (rw last at g)) (moved k since_ms page.candidate result b)
                | inr full ↦
                    let rest =
                      ih page.candidate (with_cursor result page.candidate) w₁ w' out refl
                        (rw full at g) in
                    further k since_ms page.candidate result out b rest
              ]
        | inr b ↦
            rw (pure-eq result out (rw b at e))
              (record { pages = omega arith; cursor = (since_ms, at_cursor, omega arith) })
      ]

  after_fetch-Advances :
      (more : ℤ → PullPhaseResult → Exec W PullPhaseResult) (k j : ℕ)
      → ((s : ℤ) (r : PullPhaseResult) (w w' : W) (out : PullPhaseResult)
          → r.cursor_ms ≡ some s
          → more s r w ≡ (ok out, w')
          → Advances k s r out)
      → (since_ms : ℤ) (result : PullPhaseResult) (page : Page N) (w w' : W) (out : PullPhaseResult)
      → result.cursor_ms ≡ some since_ms
      → page.requests ≤ j
      → after_fetch entity contract more since_ms result page w ≡ (ok out, w')
      → Advances (j + k) since_ms result out
  after_fetch-Advances more k j ih since_ms result page w w' out at_cursor few e =
      elim (Bool-cases (is_empty page.rows)) [
        | inl b ↦
            rw (pure-eq _ out (rw b at e))
              (record { pages = omega arith; cursor = (since_ms, at_cursor, omega arith) })
        | inr b ↦
            >>=-run-ok (services.apply_with_bypass (services.apply_rows entity page.rows)) _ w
              (rw b at e)
              λ stats w₁ h g.
                let rest =
                  after_apply-Advances more k ih since_ms (with_page result page stats) page w₁ w'
                    out at_cursor g in
                record { pages = omega (arith, rest.pages, few); cursor = rest.cursor }
      ]

module _ {W : Type 0} (N : Type 0) ⦃d : Double N⦄ ⦃services : PullServices W N⦄ (entity : Bytes)
    (contract : SyncContract) where
  page_loop-Advances :
      (pages : ℕ) (since_ms : ℤ) (result : PullPhaseResult) (w w' : W) (out : PullPhaseResult)
      → result.cursor_ms ≡ some since_ms
      → page_loop N entity contract pages since_ms result w ≡ (ok out, w')
      → Advances (pages * max_escalation_attempts) since_ms result out
  unfolding page_loop
  page_loop-Advances zero since_ms result w w' out at_cursor e =
      rw (pure-eq result out e)
        (record { pages = omega arith; cursor = (since_ms, at_cursor, omega arith) })
  page_loop-Advances (suc pages) since_ms result w w' out at_cursor e =
      let first : Page N = record { rows = []; candidate = since_ms; requests = 0 } in
      >>=-run-ok
        (fetch_page {N = N} entity contract max_escalation_attempts since_ms contract.page_size
          first)
        _ w e
        λ page w₁ h g.
          let few =
            fetch_page-requests entity contract max_escalation_attempts since_ms contract.page_size
              first w w₁ page h in
          let step =
            after_fetch-Advances entity contract (page_loop N entity contract pages)
              (pages * max_escalation_attempts) max_escalation_attempts (page_loop-Advances pages)
              since_ms result page w₁ w' out at_cursor (omega (arith, few)) g in
          record { pages = omega (arith, step.pages); cursor = step.cursor }

  -- Where a pull returns, the number of pages that it reports is at most four for each page of the
  -- session, and its cursor is not behind the one that was stored: a missing or unreadable one counts as
  -- zero.
  pub run_pull_phase-Advances :
      (w : W) {w' : W} {out : PullPhaseResult}
      → run_pull_phase N entity contract w ≡ (ok out, w')
      → (stored : Option Bytes) × (w₁ : W) × (z : ℤ) × (services.load_cursor entity w
          ≡ (ok stored, w₁))
        × (out.cursor_ms ≡ some z)
        × (parse_cursor stored ≤ℤ z)
        × (out.pages_fetched ≤ 4 * pos_part contract.max_pages_per_session)
  unfolding run_pull_phase
  run_pull_phase-Advances w {w'} {out} e =
      >>=-run-ok (services.load_cursor entity) _ w e λ stored w₁ h g.
        let moved =
          page_loop-Advances (pos_part contract.max_pages_per_session) (parse_cursor stored)
            (empty_result (parse_cursor stored)) w₁ w' out refl g in
        let (z, at_z, ahead) = moved.cursor in
        (stored, w₁, z, h, at_z, ahead, omega (arith, moved.pages))
