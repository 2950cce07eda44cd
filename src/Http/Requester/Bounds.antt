-- ===== src/Http/Requester/Bounds.antt =====
-- How often the loop of cpp/http/SyncHttpRequester.cpp calls, fails and refreshes.
use react_native_salve_db.Prelude.{
  ◌≡◌, refl, ap, ok-injective, ℕ, suc, ◌+◌, ◌≤◌, ◌<◌, Bool, true, false, not, ◌&&◌, ◌⊎◌, inl, inr,
  pos, eq_ℤ, Exception, what, Result, ok, err, if◌then◌else◌, ltb→lt, arith,
}
use react_native_salve_db.Exec.{Exec}
use react_native_salve_db.Json.Double.{Double}
use react_native_salve_db.Http.Types.{HttpPlatform, NetworkConfig, HttpNetworkError, other}
use react_native_salve_db.Http.SyncHttpCaller.{
  SyncHttpOutcome, SyncHttpResponse, answered, unreachable,
}
use react_native_salve_db.Http.Requester.{
  Sleep, max_attempts, caught, attempt_loop, with_retry_and_401,
}
use react_native_salve_db.Http.Requester.Attempts.{
  Attempts, no_header, call_throws, gives_up, retries, answers, refresh_throws, refreshes,
  attempt_loop-Attempts,
}
use react_native_salve_db.Credentials.Provider.{CredentialProvider}
use react_native_salve_db.Credentials.Store.{SecureStore}
use react_native_salve_db.Credentials.{AuthHeader}

abbrev pub refreshes_left : Bool → ℕ
refreshes_left refreshed = if refreshed then 0 else 1

was_fresh : (t b : Bool) → (t && not b) ≡ true → b ≡ false
was_fresh t b h = ground arith

from_zero_le : {n m : ℕ} → 0 + n ≤ m → n ≤ m
from_zero_le h = omega arith

from_zero : {n m : ℕ} → 0 + n ≡ m → n ≡ m
from_zero h = omega arith

no_refresh_left : (t b : Bool) → t ≡ true → (t && not b) ≡ false → 0 ≡ refreshes_left b
no_refresh_left true true h e = refl
no_refresh_left true false h e = cc
no_refresh_left false b h e = cc

answered-injective : {N : Type 0} (q r : SyncHttpResponse N) → answered q ≡ answered r → q ≡ r
answered-injective q r e = cc

same_status :
    {W N : Type 0} (q r : SyncHttpResponse N) {v w : W}
    → ◌≡◌ {A = Result (SyncHttpOutcome N) × W} (ok (answered q), v) (ok (answered r), w)
    → eq_ℤ r.status_code (pos 401) ≡ true
    → eq_ℤ q.status_code (pos 401) ≡ true
same_status q r e u = rw (answered-injective q r (ok-injective (ap (λ p. p.0) e))) u

same_error :
    {N : Type 0} (e f : HttpNetworkError)
    → ◌≡◌ {A = SyncHttpOutcome N} (unreachable e) (unreachable f)
    → f ≡ e
same_error e f h = cc

module _ {W N : Type 0} ⦃d : Double N⦄ ⦃platform : HttpPlatform W N⦄ ⦃store : SecureStore W⦄
    ⦃sleep : Sleep W⦄ {c : CredentialProvider} {network : NetworkConfig N}
    {call : AuthHeader → Exec W (SyncHttpOutcome N)} where
  -- the calls, the network failures and the refreshes of a run
  unfoldable pub call_count :
      {b : Bool} {f : ℕ} {w : W} {out : Result (SyncHttpOutcome N) × W}
      → Attempts c network call b f w out
      → ℕ
  call_count (no_header h) = 0
  call_count (call_throws h g) = 1
  call_count (gives_up h g b) = 1
  call_count (retries h g b run) = suc (call_count run)
  call_count (answers h g b) = 1
  call_count (refresh_throws h g b x) = 1
  call_count (refreshes h g b x run) = suc (call_count run)

  unfoldable pub failure_count :
      {b : Bool} {f : ℕ} {w : W} {out : Result (SyncHttpOutcome N) × W}
      → Attempts c network call b f w out
      → ℕ
  failure_count (no_header h) = 0
  failure_count (call_throws h g) = 0
  failure_count (gives_up h g b) = 1
  failure_count (retries h g b run) = suc (failure_count run)
  failure_count (answers h g b) = 0
  failure_count (refresh_throws h g b x) = 0
  failure_count (refreshes h g b x run) = failure_count run

  unfoldable pub refresh_count :
      {b : Bool} {f : ℕ} {w : W} {out : Result (SyncHttpOutcome N) × W}
      → Attempts c network call b f w out
      → ℕ
  refresh_count (no_header h) = 0
  refresh_count (call_throws h g) = 0
  refresh_count (gives_up h g b) = 0
  refresh_count (retries h g b run) = refresh_count run
  refresh_count (answers h g b) = 0
  refresh_count (refresh_throws h g b x) = 1
  refresh_count (refreshes h g b x run) = suc (refresh_count run)

  failure_count-le :
      {b : Bool} {f : ℕ} {w : W} {out : Result (SyncHttpOutcome N) × W}
      (run : Attempts c network call b f w out)
      → f < max_attempts
      → f + failure_count run ≤ max_attempts
  unfolding failure_count
  failure_count-le (no_header h) few = omega arith
  failure_count-le (call_throws h g) few = omega arith
  failure_count-le (gives_up h g b) few = omega arith
  failure_count-le (retries h g b run) few =
      let rest = failure_count-le run (ltb→lt _ _ b) in omega arith
  failure_count-le (answers h g b) few = omega arith
  failure_count-le (refresh_throws h g b x) few = omega arith
  failure_count-le (refreshes h g b x run) few = failure_count-le run few

  refresh_count-le :
      {b : Bool} {f : ℕ} {w : W} {out : Result (SyncHttpOutcome N) × W}
      (run : Attempts c network call b f w out)
      → refresh_count run ≤ refreshes_left b
  unfolding refresh_count
  refresh_count-le (no_header h) = omega arith
  refresh_count-le (call_throws h g) = omega arith
  refresh_count-le (gives_up h g b) = omega arith
  refresh_count-le (retries h g b run) = refresh_count-le run
  refresh_count-le (answers h g b) = omega arith
  refresh_count-le (refresh_throws h g b x) = rw (was_fresh _ _ b) (omega arith)
  refresh_count-le (refreshes h g b x run) =
      let rest = refresh_count-le run in rw (was_fresh _ _ b) (omega arith)

  call_count-le :
      {b : Bool} {f : ℕ} {w : W} {out : Result (SyncHttpOutcome N) × W}
      (run : Attempts c network call b f w out)
      → f < max_attempts
      → f + call_count run ≤ max_attempts + refreshes_left b
  unfolding call_count
  call_count-le (no_header h) few = omega arith
  call_count-le (call_throws h g) few = omega arith
  call_count-le (gives_up h g b) few = omega arith
  call_count-le (retries h g b run) few = let rest = call_count-le run (ltb→lt _ _ b) in omega arith
  call_count-le (answers h g b) few = omega arith
  call_count-le (refresh_throws h g b x) few = omega arith
  call_count-le (refreshes h g b x run) few =
      let rest = call_count-le run few in rw (was_fresh _ _ b) (omega arith)

  failures_of_giving_up :
      {b : Bool} {f : ℕ} {w w' : W} {out : Result (SyncHttpOutcome N) × W} {e : HttpNetworkError}
      (run : Attempts c network call b f w out)
      → f < max_attempts
      → out ≡ (ok (unreachable e), w')
      → f + failure_count run ≡ max_attempts
  unfolding failure_count
  failures_of_giving_up (no_header h) few x = cc
  failures_of_giving_up (call_throws h g) few x = cc
  failures_of_giving_up (gives_up h g b) few x = ground arith
  failures_of_giving_up (retries h g b run) few x =
      let rest = failures_of_giving_up run (ltb→lt _ _ b) x in omega arith
  failures_of_giving_up (answers h g b) few x = cc
  failures_of_giving_up (refresh_throws h g b y) few x = cc
  failures_of_giving_up (refreshes h g b y run) few x = failures_of_giving_up run few x

  refreshes_of_401 :
      {b : Bool} {f : ℕ} {w w' : W} {out : Result (SyncHttpOutcome N) × W} {r : SyncHttpResponse N}
      (run : Attempts c network call b f w out)
      → out ≡ (ok (answered r), w')
      → eq_ℤ r.status_code (pos 401) ≡ true
      → refresh_count run ≡ refreshes_left b
  unfolding refresh_count
  refreshes_of_401 (no_header h) x u = cc
  refreshes_of_401 (call_throws h g) x u = cc
  refreshes_of_401 (gives_up h g b) x u = cc
  refreshes_of_401 (retries h g b run) x u = refreshes_of_401 run x u
  refreshes_of_401 (answers h g b) x u = no_refresh_left _ _ (same_status _ _ x u) b
  refreshes_of_401 (refresh_throws h g b y) x u = cc
  refreshes_of_401 (refreshes h g b y run) x u =
      let rest = refreshes_of_401 run x u in rw (was_fresh _ _ b) (ap suc rest)

module _ {W N : Type 0} ⦃d : Double N⦄ ⦃platform : HttpPlatform W N⦄ ⦃store : SecureStore W⦄
    ⦃sleep : Sleep W⦄ (c : CredentialProvider) (network : NetworkConfig N)
    (call : AuthHeader → Exec W (SyncHttpOutcome N)) (w : W) where
  abbrev the_run : Attempts c network call false 0 w (attempt_loop c network call 4 false 0 w)
  the_run = attempt_loop-Attempts c network call 4 false 0 w (omega arith) (omega arith)

  -- The loop always ends: its outcome, with an exception turned into a network error, is that of a
  -- run of the retry relation from the first attempt on, in which there are at most four calls,
  -- three network failures and one refresh. The relation has no fuel.
  pub with_retry_and_401-Attempts :
      (out : Result (SyncHttpOutcome N) × W) × (run : Attempts c network call false 0 w out)
      × (with_retry_and_401 c network call w ≡ caught out)
      × (call_count run ≤ 4)
      × (failure_count run ≤ max_attempts)
      × (refresh_count run ≤ 1)
  unfolding with_retry_and_401
  with_retry_and_401-Attempts = (
    attempt_loop c network call 4 false 0 w,
    the_run,
    refl,
    from_zero_le (call_count-le the_run (omega arith)),
    from_zero_le (failure_count-le the_run (omega arith)),
    refresh_count-le the_run,
  )

  -- A 401 reaches the caller only behind exactly one refresh of the credentials.
  pub unauthorized_was_refreshed :
      (r : SyncHttpResponse N) {w' : W}
      → with_retry_and_401 c network call w ≡ (answered r, w')
      → eq_ℤ r.status_code (pos 401) ≡ true
      → (run : Attempts c network call false 0 w (ok (answered r), w')) × (refresh_count run ≡ 1)
  unfolding with_retry_and_401
  unauthorized_was_refreshed r {w'} e u = go _ the_run e
    where
      go :
          (out : Result (SyncHttpOutcome N) × W)
          → (run : Attempts c network call false 0 w out) → caught out ≡ (answered r, w')
          → (run : Attempts c network call false 0 w (ok (answered r), w')) × (refresh_count run
              ≡ 1)
      go (ok x, v) run e = (
        rw (ap (λ p. p.0) e, ap (λ p. p.1) e) at run,
        refreshes_of_401 (rw (ap (λ p. p.0) e, ap (λ p. p.1) e) at run) refl u,
      )
      go (err x, v) run e = cc

  -- A network error that the caller sees is either an exception of the header, the call or the
  -- refresh, with its text and the kind `Other`, or the last of exactly three network failures.
  pub network_error_was_retried :
      (e : HttpNetworkError) {w' : W}
      → with_retry_and_401 c network call w ≡ (unreachable e, w')
      → ((x : Exception) × Attempts c network call false 0 w (err x, w')
          × (e ≡ record { kind = other; message = what x }))
        ⊎ ((run : Attempts c network call false 0 w (ok (unreachable e), w')) × (failure_count run
              ≡ max_attempts))
  unfolding with_retry_and_401
  network_error_was_retried e {w'} h = go _ the_run h
    where
      go :
          (out : Result (SyncHttpOutcome N) × W)
          → (run : Attempts c network call false 0 w out) → caught out ≡ (unreachable e, w')
          → ((x : Exception) × Attempts c network call false 0 w (err x, w')
              × (e ≡ record { kind = other; message = what x }))
            ⊎ ((run : Attempts c network call false 0 w (ok (unreachable e), w')) × (failure_count
                    run
                  ≡ max_attempts))
      go (ok x, v) run h = inr (
        rw (ap (λ p. p.0) h, ap (λ p. p.1) h) at run,
        from_zero (
            failures_of_giving_up (rw (ap (λ p. p.0) h, ap (λ p. p.1) h) at run) (omega arith)
              refl),
      )
      go (err x, v) run h = inl (x, rw (ap (λ p. p.1) h) at run, same_error _ _ (ap (λ p. p.0) h))
