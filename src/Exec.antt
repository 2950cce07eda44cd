-- ===== src/Exec.antt =====
-- Code that changes the world `W` and may throw: what was changed before a throw stays changed.
use react_native_salve_db.Prelude.{◌≡◌, refl, sym, Result, ok, err, Exception}

abbrev pub Exec {ℓ} : Type 0 → Type ℓ → Type ℓ
Exec W A = W → Result A × W

module _ {ℓ κ} {W : Type 0} {A : Type ℓ} {B : Type κ} where
  abbrev pub continue : Result A → (A → Exec W B) → W → Result B × W
  continue (ok a) f w = f a w
  continue (err e) f w = (err e, w)

  infixl 5 ◌>>=◌
  abbrev pub ◌>>=◌ : Exec W A → (A → Exec W B) → Exec W B
  ◌>>=◌ m f w = let (r, w') = m w in continue r f w'

module _ {ℓ} {W : Type 0} {A : Type ℓ} where
  infixl 5 ◌>>◌
  abbrev pub ◌>>◌ : Exec W (Unit {0}) → Exec W A → Exec W A
  m >> n = m >>= λ _. n

  abbrev pub pure : A → Exec W A
  pure a w = (ok a, w)

  abbrev pub throw : Exception → Exec W A
  throw e w = (err e, w)

  abbrev pub lift : Result A → Exec W A
  lift r w = (r, w)

  abbrev pub gets : (W → A) → Exec W A
  gets f w = (ok (f w), w)

module _ {W : Type 0} where
  abbrev pub modify : (W → W) → Exec W (Unit {0})
  modify f w = (ok tt, f w)

module _ {ℓ κ ν} {W : Type 0} {A : Type ℓ} {B : Type κ} {G : Type ν} where
  continue-ok :
      (r : Result A) (w₁ : W) (f : A → Exec W B) {b : B} {w' : W}
      → continue r f w₁ ≡ (ok b, w')
      → ((a : A) → r ≡ ok a → f a w₁ ≡ (ok b, w') → G)
      → G
  continue-ok (ok a) w₁ f h k = k a refl h
  continue-ok (err e) w₁ f h k = cc

  -- what a sequence that returns went through
  pub >>=-run-ok :
      (m : Exec W A) (f : A → Exec W B) (w : W) {b : B} {w' : W}
      → (m >>= f) w ≡ (ok b, w')
      → ((a : A) (w₁ : W) → m w ≡ (ok a, w₁) → f a w₁ ≡ (ok b, w') → G)
      → G
  >>=-run-ok m f w h k = continue-ok (m w).0 (m w).1 f h λ a e g. k a (m w).1 (rw (sym e) refl) g

-- `try { … } catch (const std::exception& e) { … }`
abbrev pub catch :
    {W : Type 0} → Exec W (Unit {0}) → (Exception → Exec W (Unit {0})) → Exec W (Unit {0})
catch m handle w = elim (m w).0 [ ok u ↦ (ok u, (m w).1) | err e ↦ handle e (m w).1 ]
