-- ===== src/Sync/Guard/Outcomes.antt =====
-- The ways in which `SyncApplyGuard::applyWithBypass` of cpp/sync/SyncApplyGuard.cpp ends.
use react_native_salve_db.Prelude.{◌≡◌, refl, Result, ok, err, Exception}
use react_native_salve_db.Exec.{Exec, continue, >>=-run-ok}
use react_native_salve_db.Sync.Guard.{Transactions, on_world, guarded, close, apply_with_bypass}

module _ {W R : Type 0} ⦃t : Transactions W⦄ where
  -- how a guarded call ends, from the state `s`
  pub data IsGuarded (fn : Exec (W × R) (Unit {0})) (s : W × R)
      : Result (Unit {0}) × (W × R) → Type 0 where
    -- the lock was taken, the code ran, the lock was given back and the transaction committed
    committed :
        {s₁ s₂ s₃ s₄ s₅ : W × R}
        → on_world t.begin_transaction s ≡ (ok tt, s₁)
        → on_world t.insert_lock s₁ ≡ (ok tt, s₂)
        → fn s₂ ≡ (ok tt, s₃)
        → on_world t.delete_lock s₃ ≡ (ok tt, s₄)
        → on_world t.commit s₄ ≡ (ok tt, s₅)
        → IsGuarded fn s (ok tt, s₅)
    -- a step threw behind the transaction's beginning: it is rolled back, and the exception goes on
    undone :
        {e : Exception} {s₁ : W × R} {w : W} {r : R}
        → on_world t.begin_transaction s ≡ (ok tt, s₁)
        → guarded fn s₁ ≡ (err e, (w, r))
        → IsGuarded fn s (err e, ((t.rollback w).1, r))
    -- the transaction did not begin, and the code did not run
    not_begun :
        {e : Exception} {s₁ : W × R}
        → on_world t.begin_transaction s ≡ (err e, s₁)
        → IsGuarded fn s (err e, s₁)

  close_outcome :
      (fn : Exec (W × R) (Unit {0})) (s s₁ : W × R)
      → on_world t.begin_transaction s ≡ (ok tt, s₁)
      → (out : Result (Unit {0})) (s' : W × R) → guarded fn s₁ ≡ (out, s')
      → IsGuarded fn s (close (out, s'))
  close_outcome fn s s₁ begun (ok tt) s' e =
      >>=-run-ok (on_world t.insert_lock) _ s₁ e λ u s₂ taken e₂.
        >>=-run-ok fn _ s₂ e₂ λ v s₃ ran e₃.
          >>=-run-ok (on_world t.delete_lock) _ s₃ e₃
            λ x s₄ given done. committed begun taken ran given done
  close_outcome fn s s₁ begun (err e) (w, r) thrown = undone begun thrown

  begin_outcome :
      (fn : Exec (W × R) (Unit {0})) (s : W × R) (out : Result (Unit {0})) (s₁ : W × R)
      → on_world t.begin_transaction s ≡ (out, s₁)
      → IsGuarded fn s (continue out (λ u s₂. close (guarded fn s₂)) s₁)
  begin_outcome fn s (ok tt) s₁ begun =
      close_outcome fn s s₁ begun (guarded fn s₁).0 (guarded fn s₁).1 refl
  begin_outcome fn s (err e) s₁ begun = not_begun begun

  -- A guarded call ends in one of three ways: the transaction did not begin and the code did not run;
  -- every step returned, the lock was given back behind the code and the transaction committed; or a
  -- step, the commit included, threw, and the exception goes on behind a rollback.
  pub apply_with_bypass-IsGuarded :
      (fn : Exec (W × R) (Unit {0})) (s : W × R) → IsGuarded fn s (apply_with_bypass fn s)
  unfolding apply_with_bypass
  apply_with_bypass-IsGuarded fn s =
      begin_outcome fn s (on_world t.begin_transaction s).0 (on_world t.begin_transaction s).1 refl
