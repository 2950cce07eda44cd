-- ===== src/Credentials/Tokens.antt =====
-- What `seedInitialTokens`, `clearStoredTokens` and `getAuthHeader` of
-- cpp/credentials/CredentialProvider.cpp do to the stored pair of tokens.
use react_native_salve_db.Prelude.{
  ◌≡◌, ◌≢◌, refl, sym, ap, ◌∙◌, Bool, true, false, some, is_some, Option, Bytes, text, str_eq,
  str_eq_iff, Result, ok, err, ok-injective, Bool-cases, inl, inr, if◌then◌else◌,
}
use mathlib.Core.Bool.{false≢true}
use react_native_salve_db.Exec.{Exec, continue, >>=-run-ok, ◌>>=◌, pure}
use react_native_salve_db.Credentials.Provider.{CredentialProvider}
use react_native_salve_db.Credentials.Store.{SecureStore, SecureStoreLaws}
use react_native_salve_db.Credentials.{
  AuthHeader, access_token_key, already_seeded, refresh_token_key, seed_initial_tokens,
  get_access_token, get_auth_header, header_of, store_tokens,
}

different_keys : str_eq access_token_key refresh_token_key ≡ false
unfolding access_token_key refresh_token_key text str_eq
different_keys = refl

pub access-ne-refresh : access_token_key ≢ refresh_token_key
access-ne-refresh e = cc (sym different_keys ∙ (str_eq_iff access_token_key refresh_token_key).1 e)

pub refresh-ne-access : refresh_token_key ≢ access_token_key
refresh-ne-access e = access-ne-refresh (sym e)

module _ {W : Type 0} ⦃store : SecureStore W⦄ {held : Bytes → W → Option Bytes}
    (laws : SecureStoreLaws store held) where
  -- the store holds this pair of tokens
  abbrev pub Holds : Bytes → Bytes → W → Type 0
  Holds a r w = (held access_token_key w ≡ some a) × (held refresh_token_key w ≡ some r)

  pub store_tokens-Holds :
      (a r : Bytes) (w : W) {w' : W} → store_tokens (a, r) w ≡ (ok tt, w') → Holds a r w'
  unfolding store_tokens
  store_tokens-Holds a r w e = >>=-run-ok (store.set_value access_token_key a) _ w e λ u w₁ e₁ e₂. (
    laws.held-set_ne access_token_key e₂ refresh-ne-access ∙ laws.held-set_self e₁,
    laws.held-set_self e₂,
  )

  read_same :
      (k j : Bytes) (w : W) {o : Result (Option Bytes)} {w' : W}
      → store.get_value k w ≡ (o, w')
      → held j w' ≡ held j w
  read_same k j w e = ap (λ p. held j p.1) (sym e) ∙ laws.held-get k j w

  abbrev IsPaired : W → Type 0
  IsPaired w =
      (is_some (held access_token_key w) ≡ true) × (is_some (held refresh_token_key w) ≡ true)

  second_read :
      (j : Bytes) (w : W) (a : Option Bytes) (w₁ : W)
      → store.get_value access_token_key w ≡ (ok a, w₁)
      → (b : Bool)
      → let second : Exec W Bool =
          if b then (store.get_value refresh_token_key >>= λ t. pure (is_some t)) else pure false in
        held j (second w₁).1 ≡ held j w
  second_read j w a w₁ e false = read_same access_token_key j w e
  second_read j w a w₁ e true =
      after (store.get_value refresh_token_key w₁).0 (store.get_value refresh_token_key w₁).1 refl
    where
      after :
          (o : Result (Option Bytes)) (w₂ : W)
          → store.get_value refresh_token_key w₁ ≡ (o, w₂)
          → held j (continue o (λ t. pure (is_some t)) w₂).1 ≡ held j w
      after (ok t) w₂ g = read_same refresh_token_key j w₁ g ∙ read_same access_token_key j w e
      after (err x) w₂ g = read_same refresh_token_key j w₁ g ∙ read_same access_token_key j w e

  -- the question leaves what is held, whether it is answered or not
  already_seeded-same : (j : Bytes) (w : W) → held j (already_seeded w).1 ≡ held j w
  unfolding already_seeded
  already_seeded-same j w =
      go (store.get_value access_token_key w).0 (store.get_value access_token_key w).1 refl
    where
      go :
          (o : Result (Option Bytes)) (w₁ : W)
          → store.get_value access_token_key w ≡ (o, w₁)
          → held j
              (continue o
                (λ access.
                  if is_some access
                  then (store.get_value refresh_token_key >>= λ token. pure (is_some token))
                  else pure false)
                w₁).1
            ≡ held j w
      go (ok a) w₁ e = second_read j w a w₁ e (is_some a)
      go (err x) w₁ e = read_same access_token_key j w e

  -- its answer says whether both tokens are held
  already_seeded-IsPaired :
      (w : W) {b : Bool} {w' : W}
      → already_seeded w ≡ (ok b, w')
      → (b ≡ true → IsPaired w) × (IsPaired w → b ≡ true)
  unfolding already_seeded
  already_seeded-IsPaired w {b} {w'} e =
      >>=-run-ok (store.get_value access_token_key) _ w e λ a w₁ e₁ g.
        elim (Bool-cases (is_some a)) [
          | inl i ↦ >>=-run-ok (store.get_value refresh_token_key) _ w₁ (rw i at g) λ t w₂ e₂ g₂.
              let there = laws.get_held e₁ in
              let then_there : held refresh_token_key w ≡ t =
                sym (read_same access_token_key refresh_token_key w e₁) ∙ laws.get_held e₂ in
              let answer : is_some t ≡ b = ok-injective (ap (λ p. p.0) g₂) in
              (
                (λ y. (rw there i, rw then_there (answer ∙ y))),
                (λ y. sym answer ∙ (sym (ap is_some then_there) ∙ y.1)),
              )
          | inr i ↦
              let none_there : b ≡ false = sym (ok-injective (ap (λ p. p.0) (rw i at g))) in
              (
                (λ y. absurd (false≢true (sym none_there ∙ y))),
                (λ y. absurd (false≢true (sym i ∙ (ap is_some (sym (laws.get_held e₁)) ∙ y.0)))),
              )
        ]

  seed-IsPaired :
      (a r : Bytes) (w : W) {w' : W} → seed_initial_tokens a r w ≡ (ok tt, w') → IsPaired w'
  unfolding seed_initial_tokens
  seed-IsPaired a r w {w'} e = >>=-run-ok already_seeded _ w e λ b w₁ e₁ g. go b w₁ e₁ g
    where
      go :
          (b : Bool) (w₁ : W)
          → already_seeded w ≡ (ok b, w₁)
          → (let next : Exec W (Unit {0}) = if b then pure tt else store_tokens (a, r) in next w₁)
            ≡ (ok tt, w')
          → IsPaired w'
      go true w₁ e₁ g =
          let kept = λ (j : Bytes).
            ap (held j) (sym (ap (λ p. p.1) e₁ ∙ ap (λ p. p.1) g)) ∙ already_seeded-same j w in
          let paired = (already_seeded-IsPaired w e₁).0 refl in
          (
            ap is_some (kept access_token_key) ∙ paired.0,
            ap is_some (kept refresh_token_key) ∙ paired.1,
          )
      go false w₁ e₁ g =
          let holds = store_tokens-Holds a r w₁ g in (ap is_some holds.0, ap is_some holds.1)

  seed_again :
      (a r : Bytes) (w : W)
      → IsPaired w
      → (j : Bytes) → held j (seed_initial_tokens a r w).1 ≡ held j w
  unfolding seed_initial_tokens
  seed_again a r w p j = go (already_seeded w).0 (already_seeded w).1 refl
    where
      go :
          (o : Result Bool) (w₁ : W)
          → already_seeded w ≡ (o, w₁)
          → held j (continue o (λ b. if b then pure tt else store_tokens (a, r)) w₁).1 ≡ held j w
      go (ok true) w₁ e = ap (λ p. held j p.1) (sym e) ∙ already_seeded-same j w
      go (ok false) w₁ e = absurd (false≢true ((already_seeded-IsPaired w e).1 p))
      go (err x) w₁ e = ap (λ p. held j p.1) (sym e) ∙ already_seeded-same j w

  -- Behind a seeding that returned, another one leaves what the secure store holds under every key,
  -- whatever tokens it brings and whether it returns or throws. The secure store is a key-value store.
  pub seed-seed :
      (a r a' r' : Bytes) (w : W) {w₁ : W}
      → seed_initial_tokens a r w ≡ (ok tt, w₁)
      → (j : Bytes) → held j (seed_initial_tokens a' r' w₁).1 ≡ held j w₁
  seed-seed a r a' r' w {w₁} e = seed_again a' r' w₁ (seed-IsPaired a r w e)

  -- no header is made without a token, and none but of the token that is held
  pub header_of_held :
      (c : CredentialProvider) (w : W) {h : AuthHeader} {w' : W}
      → get_auth_header c w ≡ (ok h, w')
      → header_of c (held access_token_key w) ≡ ok h
  unfolding get_auth_header get_access_token
  header_of_held c w e =
      >>=-run-ok (store.get_value access_token_key) _ w e
        λ t w₁ e₁ g. ap (header_of c) (laws.get_held e₁) ∙ ap (λ p. p.0) g
