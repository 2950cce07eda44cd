-- ===== src/Http/Requester/Attempts.antt =====
-- The runs of the loop of cpp/http/SyncHttpRequester.cpp as an inductive relation, without fuel.
use react_native_salve_db.Prelude.{
  ◌≡◌, refl, ℕ, zero, suc, ◌+◌, ◌-◌, ◌≤◌, ◌<◌, Bool, true, false, not, ◌&&◌, inl, inr, pos, eq_ℤ,
  Exception, Result, ok, err, ltb, if◌then◌else◌, Bool-cases, ltb→lt, arith,
}
use react_native_salve_db.Exec.{Exec, ◌>>=◌, continue}
use react_native_salve_db.Json.Double.{Double}
use react_native_salve_db.Http.Types.{HttpPlatform, NetworkConfig, HttpNetworkError}
use react_native_salve_db.Http.SyncHttpCaller.{
  SyncHttpOutcome, SyncHttpResponse, answered, unreachable,
}
use react_native_salve_db.Http.Requester.{
  Sleep, max_attempts, retry_delay, refresh_credentials, after_call, attempt_loop,
}
use react_native_salve_db.Credentials.Provider.{CredentialProvider}
use react_native_salve_db.Credentials.Store.{SecureStore}
use react_native_salve_db.Credentials.{AuthHeader, get_auth_header}

module _ {W N : Type 0} ⦃d : Double N⦄ ⦃platform : HttpPlatform W N⦄ ⦃store : SecureStore W⦄
    ⦃sleep : Sleep W⦄ (c : CredentialProvider) (network : NetworkConfig N)
    (call : AuthHeader → Exec W (SyncHttpOutcome N)) where
  -- A run from the world `w`, with the flag `refreshed` and the number of failed attempts so far.
  pub data Attempts : Bool → ℕ → W → Result (SyncHttpOutcome N) × W → Type 0 where
    no_header :
        {refreshed : Bool} {failed : ℕ} {e : Exception} {w w₁ : W}
        → get_auth_header c w ≡ (err e, w₁)
        → Attempts refreshed failed w (err e, w₁)
    call_throws :
        {refreshed : Bool} {failed : ℕ} {e : Exception} {auth : AuthHeader} {w w₁ w₂ : W}
        → get_auth_header c w ≡ (ok auth, w₁)
        → call auth w₁ ≡ (err e, w₂)
        → Attempts refreshed failed w (err e, w₂)
    gives_up :
        {refreshed : Bool} {failed : ℕ} {e : HttpNetworkError} {auth : AuthHeader} {w w₁ w₂ : W}
        → get_auth_header c w ≡ (ok auth, w₁)
        → call auth w₁ ≡ (ok (unreachable e), w₂)
        → ltb (suc failed) max_attempts ≡ false
        → Attempts refreshed failed w (ok (unreachable e), w₂)
    retries :
        {refreshed : Bool} {failed : ℕ} {e : HttpNetworkError} {auth : AuthHeader} {w w₁ w₂ : W}
        {out : Result (SyncHttpOutcome N) × W}
        → get_auth_header c w ≡ (ok auth, w₁)
        → call auth w₁ ≡ (ok (unreachable e), w₂)
        → ltb (suc failed) max_attempts ≡ true
        → Attempts refreshed (suc failed) (sleep.sleep_for retry_delay w₂) out
        → Attempts refreshed failed w out
    answers :
        {refreshed : Bool} {failed : ℕ} {r : SyncHttpResponse N} {auth : AuthHeader} {w w₁ w₂ : W}
        → get_auth_header c w ≡ (ok auth, w₁)
        → call auth w₁ ≡ (ok (answered r), w₂)
        → (eq_ℤ r.status_code (pos 401) && not refreshed) ≡ false
        → Attempts refreshed failed w (ok (answered r), w₂)
    refresh_throws :
        {refreshed : Bool} {failed : ℕ} {r : SyncHttpResponse N} {e : Exception} {auth : AuthHeader}
        {w w₁ w₂ w₃ : W}
        → get_auth_header c w ≡ (ok auth, w₁)
        → call auth w₁ ≡ (ok (answered r), w₂)
        → (eq_ℤ r.status_code (pos 401) && not refreshed) ≡ true
        → refresh_credentials c network w₂ ≡ (err e, w₃)
        → Attempts refreshed failed w (err e, w₃)
    refreshes :
        {refreshed : Bool} {failed : ℕ} {r : SyncHttpResponse N} {auth : AuthHeader}
        {w w₁ w₂ w₃ : W} {out : Result (SyncHttpOutcome N) × W}
        → get_auth_header c w ≡ (ok auth, w₁)
        → call auth w₁ ≡ (ok (answered r), w₂)
        → (eq_ℤ r.status_code (pos 401) && not refreshed) ≡ true
        → refresh_credentials c network w₂ ≡ (ok tt, w₃)
        → Attempts true failed w₃ out
        → Attempts refreshed failed w out

  module _ (fuel : ℕ) (refreshed : Bool) (failed : ℕ) (w : W) where
    abbrev retry_run : Exec W (SyncHttpOutcome N)
    retry_run = attempt_loop c network call fuel refreshed (suc failed)

    abbrev reexecute_run : Exec W (SyncHttpOutcome N)
    reexecute_run = attempt_loop c network call fuel true failed

    failure_outcome :
        (auth : AuthHeader) {w₁ w₂ : W} (e : HttpNetworkError)
        → get_auth_header c w ≡ (ok auth, w₁)
        → call auth w₁ ≡ (ok (unreachable e), w₂)
        → (ltb (suc failed) max_attempts ≡ true
            → (v : W) → Attempts refreshed (suc failed) v (retry_run v))
        → Attempts refreshed failed w
            (after_call c network refreshed failed retry_run reexecute_run (unreachable e) w₂)
    failure_outcome auth {w₁} {w₂} e header called again =
        elim (Bool-cases (ltb (suc failed) max_attempts)) [
          | inl b ↦ rw b (retries header called b (again b _))
          | inr b ↦ rw b (gives_up header called b)
        ]

    refresh_outcome :
        (auth : AuthHeader) {w₁ w₂ : W} (r : SyncHttpResponse N)
        → get_auth_header c w ≡ (ok auth, w₁)
        → call auth w₁ ≡ (ok (answered r), w₂)
        → (eq_ℤ r.status_code (pos 401) && not refreshed) ≡ true
        → ((v : W) → Attempts true failed v (reexecute_run v))
        → (out : Result (Unit {0})) (w₃ : W) → refresh_credentials c network w₂ ≡ (out, w₃)
        → Attempts refreshed failed w (continue out (λ _. reexecute_run) w₃)
    refresh_outcome auth r header called b again (ok tt) w₃ done =
        refreshes header called b done (again w₃)
    refresh_outcome auth r header called b again (err e) w₃ done =
        refresh_throws header called b done

    answer_outcome :
        (auth : AuthHeader) {w₁ w₂ : W} (r : SyncHttpResponse N)
        → get_auth_header c w ≡ (ok auth, w₁)
        → call auth w₁ ≡ (ok (answered r), w₂)
        → (refreshed ≡ false → (v : W) → Attempts true failed v (reexecute_run v))
        → Attempts refreshed failed w
            (after_call c network refreshed failed retry_run reexecute_run (answered r) w₂)
    answer_outcome auth {w₁} {w₂} r header called again =
        elim (Bool-cases (eq_ℤ r.status_code (pos 401) && not refreshed)) [
          | inl b ↦ rw b (
              refresh_outcome auth r header called b (again (ground arith))
                (refresh_credentials c network w₂).0 (refresh_credentials c network w₂).1 refl)
          | inr b ↦ rw b (answers header called b)
        ]

    call_outcome :
        (auth : AuthHeader) {w₁ : W}
        → get_auth_header c w ≡ (ok auth, w₁)
        → (ltb (suc failed) max_attempts ≡ true
            → (v : W) → Attempts refreshed (suc failed) v (retry_run v))
        → (refreshed ≡ false → (v : W) → Attempts true failed v (reexecute_run v))
        → (out : Result (SyncHttpOutcome N)) (w₂ : W) → call auth w₁ ≡ (out, w₂)
        → Attempts refreshed failed w
            (continue out (after_call c network refreshed failed retry_run reexecute_run) w₂)
    call_outcome auth header retried reexecuted (ok (unreachable e)) w₂ called =
        failure_outcome auth e header called retried
    call_outcome auth header retried reexecuted (ok (answered r)) w₂ called =
        answer_outcome auth r header called reexecuted
    call_outcome auth header retried reexecuted (err e) w₂ called = call_throws header called

    header_outcome :
        (ltb (suc failed) max_attempts ≡ true
          → (v : W) → Attempts refreshed (suc failed) v (retry_run v))
        → (refreshed ≡ false → (v : W) → Attempts true failed v (reexecute_run v))
        → (out : Result AuthHeader) (w₁ : W) → get_auth_header c w ≡ (out, w₁)
        → Attempts refreshed failed w (
            continue out
              (λ auth. call auth >>= after_call c network refreshed failed retry_run reexecute_run)
              w₁)
    header_outcome retried reexecuted (ok auth) w₁ header =
        call_outcome auth header retried reexecuted (call auth w₁).0 (call auth w₁).1 refl
    header_outcome retried reexecuted (err e) w₁ header = no_header header

  -- the rounds that are left: one for each failure and one for the refresh
  abbrev rounds_left : Bool → ℕ → ℕ
  rounds_left refreshed failed = (max_attempts - failed) + (if refreshed then 0 else 1)

  pub attempt_loop-Attempts :
      (fuel : ℕ) (refreshed : Bool) (failed : ℕ) (w : W)
      → failed < max_attempts
      → rounds_left refreshed failed ≤ fuel
      → Attempts refreshed failed w (attempt_loop c network call fuel refreshed failed w)
  unfolding attempt_loop
  attempt_loop-Attempts zero refreshed failed w few enough =
      elim (none_left refreshed few enough) [ ]
    where
      none_left : (b : Bool) → failed < max_attempts → rounds_left b failed ≤ 0 → 1 ≤ 0
      none_left true few enough = omega arith
      none_left false few enough = omega arith
  attempt_loop-Attempts (suc fuel) refreshed failed w few enough =
      header_outcome fuel refreshed failed w
        (λ b v. attempt_loop-Attempts fuel refreshed (suc failed) v (ltb→lt _ _ b) (omega arith))
        (λ b v. attempt_loop-Attempts fuel true failed v few (fresh refreshed b enough))
        (get_auth_header c w).0 (get_auth_header c w).1 refl
    where
      fresh :
          (b : Bool) → b ≡ false → rounds_left b failed ≤ suc fuel → rounds_left true failed ≤ fuel
      fresh true h enough = cc
      fresh false h enough = omega arith
