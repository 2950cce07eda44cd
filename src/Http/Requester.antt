-- ===== src/Http/Requester.antt =====
-- cpp/http/SyncHttpRequester.cpp: a call of the REST contract with retries and one refresh of the
-- credentials. How the loop runs is in Requester/Attempts and Requester/Bounds. Sleeping is not this program's
-- code: an operation on the world.
pub mod Attempts
pub mod Bounds
use react_native_salve_db.Prelude.{
  ℕ, zero, suc, Bool, true, false, not, ◌&&◌, Bytes, ℤ, pos, eq_ℤ, Exception, no_fuel, what, Result,
  ok, err, ltb, if◌then◌else◌,
}
use react_native_salve_db.Exec.{Exec, ◌>>=◌, ◌>>◌, pure, throw, modify}
use react_native_salve_db.Json.{Value}
use react_native_salve_db.Json.Double.{Double}
use react_native_salve_db.Http.Types.{HttpPlatform, NetworkConfig, HttpNetworkError, other}
use react_native_salve_db.Http.CredentialHttpCaller.{call_refresh}
use react_native_salve_db.Http.SyncHttpCaller.{
  SyncHttpOutcome, SyncHttpResponse, answered, unreachable,
}
use react_native_salve_db.Http.SyncHttpCaller
use react_native_salve_db.Credentials.Provider.{CredentialProvider}
use react_native_salve_db.Credentials.Store.{SecureStore}
use react_native_salve_db.Credentials.{AuthHeader, get_auth_header, refresh}
use react_native_salve_db.Sync.Contract.{SyncEndpoint}

-- `std::this_thread::sleep_for`, in milliseconds
pub record Sleep (W : Type 0) : Type 0 where
  pub sleep_for : ℕ → W → W

-- `kMaxAttempts`, `kRetryDelay`
abbrev pub max_attempts : ℕ
max_attempts = 3

abbrev pub retry_delay : ℕ
retry_delay = 5000

-- the catch of `withRetryAnd401`
abbrev pub caught {ℓ} :
    {W : Type ℓ} → {N : Type 0} → Result (SyncHttpOutcome N) × W → SyncHttpOutcome N × W
caught (ok outcome, w) = (outcome, w)
caught (err e, w) = (unreachable (record { kind = other; message = what e }), w)

module _ {W N : Type 0} ⦃d : Double N⦄ ⦃platform : HttpPlatform W N⦄ ⦃store : SecureStore W⦄
    ⦃sleep : Sleep W⦄ (c : CredentialProvider) (network : NetworkConfig N) where
  -- `_credentials.refresh(CredentialHttpCaller::create(_network))`
  abbrev pub refresh_credentials : Exec W (Unit {0})
  refresh_credentials = refresh c (call_refresh network)

  -- the rest of a round, behind the call
  abbrev pub after_call :
      Bool
      → ℕ
      → Exec W (SyncHttpOutcome N)
      → Exec W (SyncHttpOutcome N)
      → SyncHttpOutcome N
      → Exec W (SyncHttpOutcome N)
  after_call refreshed failed_attempts retry reexecute (unreachable e) =
      if ltb (suc failed_attempts) max_attempts
      then modify (sleep.sleep_for retry_delay) >> retry
      else pure (unreachable e)
  after_call refreshed failed_attempts retry reexecute (answered response) =
      if eq_ℤ response.status_code (pos 401) && not refreshed
      then refresh_credentials >> reexecute
      else pure (answered response)

  -- The loop of `withRetryAnd401`. A round takes one of at most three failures or the one refresh, so that
  -- four rounds are enough.
  unfoldable pub attempt_loop :
      (AuthHeader → Exec W (SyncHttpOutcome N)) → ℕ → Bool → ℕ → Exec W (SyncHttpOutcome N)
  attempt_loop call zero refreshed failed_attempts = throw no_fuel
  attempt_loop call (suc fuel) refreshed failed_attempts =
      let retry = attempt_loop call fuel refreshed (suc failed_attempts) in
      let reexecute = attempt_loop call fuel true failed_attempts in
      get_auth_header c >>= λ auth.
      call auth >>= after_call refreshed failed_attempts retry reexecute

  -- `withRetryAnd401`, which throws nothing
  unfoldable pub with_retry_and_401 :
      (AuthHeader → Exec W (SyncHttpOutcome N)) → W → SyncHttpOutcome N × W
  with_retry_and_401 call w = caught (attempt_loop call 4 false 0 w)

  module _ (endpoint : SyncEndpoint) where
    -- `SyncHttpRequester::list`
    unfoldable pub list : ℤ → ℤ → W → SyncHttpOutcome N × W
    list since_ms limit =
        with_retry_and_401 (λ auth. SyncHttpCaller.list endpoint auth network since_ms limit)

    -- `SyncHttpRequester::create`
    unfoldable pub create : Value N → W → SyncHttpOutcome N × W
    create entity = with_retry_and_401 (λ auth. SyncHttpCaller.create endpoint auth network entity)

    -- `SyncHttpRequester::update`
    unfoldable pub update : Bytes → Value N → W → SyncHttpOutcome N × W
    update id entity =
        with_retry_and_401 (λ auth. SyncHttpCaller.update endpoint auth network id entity)

    -- `SyncHttpRequester::remove`
    unfoldable pub remove : Bytes → W → SyncHttpOutcome N × W
    remove id = with_retry_and_401 (λ auth. SyncHttpCaller.remove endpoint auth network id)
