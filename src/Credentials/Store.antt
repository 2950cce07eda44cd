-- ===== src/Credentials/Store.antt =====
-- platform::getSecureValue, setSecureValue and deleteSecureValue: Keychain on iOS, Keystore on
-- Android. Each may throw. The laws are what a key-value store documents of calls that return, with
-- `held` for what the store holds in a world; a reading, thrown or not, leaves that as it is.
use react_native_salve_db.Prelude.{◌≡◌, ◌≢◌, Option, none, some, Bytes, ok}
use react_native_salve_db.Exec.{Exec}

pub record SecureStore (W : Type 0) : Type 0 where
  pub get_value : Bytes → Exec W (Option Bytes)
  pub set_value : Bytes → Bytes → Exec W (Unit {0})
  pub delete_value : Bytes → Exec W (Unit {0})

pub record SecureStoreLaws {W : Type 0} (s : SecureStore W) (held : Bytes → W → Option Bytes)
    : Type 0 where
  pub get_held :
      {k : Bytes} {w w' : W} {o : Option Bytes} → s.get_value k w ≡ (ok o, w') → held k w ≡ o
  pub held-get : (k j : Bytes) (w : W) → held j (s.get_value k w).1 ≡ held j w
  pub held-set_self :
      {k v : Bytes} {w w' : W} → s.set_value k v w ≡ (ok tt, w') → held k w' ≡ some v
  pub held-set_ne :
      {k v : Bytes} (j : Bytes) {w w' : W}
      → s.set_value k v w ≡ (ok tt, w')
      → k ≢ j
      → held j w' ≡ held j w
  pub held-delete_self :
      {k : Bytes} {w w' : W} → s.delete_value k w ≡ (ok tt, w') → held k w' ≡ none
  pub held-delete_ne :
      {k : Bytes} (j : Bytes) {w w' : W}
      → s.delete_value k w ≡ (ok tt, w')
      → k ≢ j
      → held j w' ≡ held j w
