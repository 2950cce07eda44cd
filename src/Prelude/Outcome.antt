-- ===== src/Prelude/Outcome.antt =====
-- What a C++ call gives back: a value, or the exception that it throws.
use mathlib.Core.Path.{◌≡◌, refl}
use mathlib.Core.Logic.{◌⊎◌, inl, inr}
use mathlib.Core.Bool.{Bool, true, false}
use mathlib.Core.List.{[]}
use react_native_salve_db.Prelude.Tests.{if◌then◌else◌}
use react_native_salve_db.Prelude.Text.{Bytes}

-- `runtime_error`, `out_of_range` and `invalid_argument` carry their message. `network_failure` is
-- SyncNetworkFailure, a subclass that one handler tells apart. `no_fuel` is thrown by no code: it
-- says that the fuel of the model ran out.
pub data Exception : Type 0 where
  runtime_error out_of_range invalid_argument network_failure : Bytes → Exception
  no_fuel : Exception

pub data Result {ℓ} (A : Type ℓ) : Type ℓ where
  ok : A → Result A
  err : Exception → Result A

-- `e.what()`
abbrev pub what : Exception → Bytes
what (runtime_error m) = m
what (out_of_range m) = m
what (invalid_argument m) = m
what (network_failure m) = m
what no_fuel = []

pub ok-injective {ℓ} : {A : Type ℓ} {a b : A} → ok a ≡ ok b → a ≡ b
ok-injective e = cc

module _ {ℓ κ} {A : Type ℓ} {B : Type κ} where
  infixl 5 ◌>>=◌
  abbrev pub ◌>>=◌ : Result A → (A → Result B) → Result B
  (ok value) >>= next = next value
  (err thrown) >>= next = err thrown

  pub >>=-eq-ok :
      (first : Result A) (next : A → Result B) {final : B}
      → (first >>= next) ≡ ok final
      → (value : A) × (first ≡ ok value) × (next value ≡ ok final)
  >>=-eq-ok (ok value) next e = (value, refl, e)
  >>=-eq-ok (err thrown) next e = cc

  -- the same, with the value and the equations as variables of the rest of a proof
  pub >>=-elim-ok {ν} :
      {G : Type ν} (m : Result A) (f : A → Result B) {b : B}
      → (m >>= f) ≡ ok b
      → ((a : A) → m ≡ ok a → f a ≡ ok b → G)
      → G
  >>=-elim-ok (ok a) f h k = k a refl h
  >>=-elim-ok (err e) f h k = cc

  pub >>=-eq-err :
      (m : Result A) (f : A → Result B) {e : Exception}
      → (m >>= f) ≡ err e
      → (m ≡ err e) ⊎ ((a : A) × (m ≡ ok a) × (f a ≡ err e))
  >>=-eq-err (ok a) f h = inr (a, refl, h)
  >>=-eq-err (err x) f h = inl cc

infixl 5 ◌>>◌
abbrev pub ◌>>◌ {κ} : {C : Type κ} → Result (Unit {0}) → Result C → Result C
first >> second = first >>= λ done. second

-- `if (!test) throw …`
abbrev pub require : Bool → Exception → Result (Unit {0})
require test thrown = if test then ok tt else err thrown

-- a check that passed
pub require-true : (b : Bool) (x : Exception) {u : Unit {0}} → require b x ≡ ok u → b ≡ true
require-true true x e = refl
require-true false x e = cc
