-- ===== src/Reset/Outcomes.antt =====
-- The ways in which `reset` of cpp/database/DatabaseResetter.cpp ends.
use react_native_salve_db.Prelude.{
  ◌≡◌, refl, Bool, true, false, List, [], Bytes, Result, ok, err, Exception, if◌then◌else◌,
}
use react_native_salve_db.Sql.{Database}
use react_native_salve_db.Connection.Rows.{SchemaRegistry}
use react_native_salve_db.Sync.Guard.{Transactions}
use react_native_salve_db.Reset.{
  ResetServices, after_clearing, sign_out, first_error, domain_tables, wipe, after_listing, reset,
}

module _ {W : Type 0} (N : Type 0) ⦃services : ResetServices W⦄ ⦃t : Transactions W⦄
    ⦃db : Database W N⦄ where
  -- what there is to be wiped has been, with this outcome; nothing where no database is open
  pub data IsWiped (w : W) : Result (Unit {0}) → W → Type 0 where
    closed : services.is_open w ≡ false → IsWiped w (ok tt) w
    opened :
        {tables : List Bytes} {out : Result (Unit {0})} {w₀ w₁ : W}
        → services.is_open w ≡ true
        → domain_tables N w ≡ (ok tables, w₀)
        → wipe N tables w₀ ≡ (out, w₁)
        → IsWiped w out w₁

  -- how a reset ends, from the world `w` and the registry `r`
  pub data IsReset (w : W) (r : SchemaRegistry)
      : Result (Unit {0}) × (W × SchemaRegistry) → Type 0 where
    -- the tables cannot be listed: nothing else runs
    not_listed :
        {e : Exception} {w₀ : W}
        → services.is_open w ≡ true
        → domain_tables N w ≡ (err e, w₀)
        → IsReset w r (err e, (w₀, r))
    -- the tokens cannot be cleared: that is thrown, whatever the wipe threw, and the configuration stays
    tokens_left :
        {wiped : Result (Unit {0})} {e : Exception} {w₁ w₂ : W}
        → IsWiped w wiped w₁
        → services.clear_tokens w₁ ≡ (err e, w₂)
        → IsReset w r (err e, (w₂, []))
    -- the wipe threw: everything else has run, and its exception goes on
    wipe_thrown :
        {e : Exception} {removed : Result (Unit {0})} {w₁ w₂ w₃ : W}
        → IsWiped w (err e) w₁
        → services.clear_tokens w₁ ≡ (ok tt, w₂)
        → services.remove_config_file (services.reset_config w₂) ≡ (removed, w₃)
        → IsReset w r (err e, (w₃, []))
    -- the wipe returned: the outcome is that of the removal of the file
    signed_out :
        {removed : Result (Unit {0})} {w₁ w₂ w₃ : W}
        → IsWiped w (ok tt) w₁
        → services.clear_tokens w₁ ≡ (ok tt, w₂)
        → services.remove_config_file (services.reset_config w₂) ≡ (removed, w₃)
        → IsReset w r (removed, (w₃, []))

  cleared :
      (w : W) (r : SchemaRegistry) (wiped : Result (Unit {0})) (w₁ : W)
      → IsWiped w wiped w₁
      → (out : Result (Unit {0})) (w₂ : W) → services.clear_tokens w₁ ≡ (out, w₂)
      → IsReset w r (after_clearing wiped (out, w₂))
  unfolding after_clearing first_error
  cleared w r wiped w₁ h (err e) w₂ c = tokens_left h c
  cleared w r (ok u) w₁ h (ok v) w₂ c = signed_out h c refl
  cleared w r (err e) w₁ h (ok v) w₂ c = wipe_thrown h c refl

  sign_out-IsReset :
      (w : W) (r : SchemaRegistry) (wiped : Result (Unit {0})) (w₁ : W)
      → IsWiped w wiped w₁
      → IsReset w r (sign_out wiped w₁)
  unfolding sign_out
  sign_out-IsReset w r wiped w₁ h =
      cleared w r wiped w₁ h (services.clear_tokens w₁).0 (services.clear_tokens w₁).1 refl

  listed :
      (w : W) (r : SchemaRegistry)
      → services.is_open w ≡ true
      → (out : Result (List Bytes)) (w₀ : W) → domain_tables N w ≡ (out, w₀)
      → IsReset w r (after_listing N r (out, w₀))
  unfolding after_listing
  listed w r o (ok tables) w₀ l =
      sign_out-IsReset w r (wipe N tables w₀).0 (wipe N tables w₀).1 (opened o l refl)
  listed w r o (err e) w₀ l = not_listed o l

  by_state :
      (w : W) (r : SchemaRegistry) (b : Bool)
      → services.is_open w ≡ b
      → IsReset w r (if b then after_listing N r (domain_tables N w) else sign_out (ok tt) w)
  by_state w r true o = listed w r o (domain_tables N w).0 (domain_tables N w).1 refl
  by_state w r false o = sign_out-IsReset w r (ok tt) w (closed o)

  -- A reset ends in one of four ways: the tables of an open database cannot be listed, and nothing else
  -- runs; the tokens cannot be cleared behind the wipe, which is thrown, with the registry of boolean
  -- columns empty and the configuration in place; the wipe threw, the registry is empty, the tokens are
  -- cleared, the configuration is reset and its removal has been tried, and the wipe's exception goes
  -- on; or the wipe returned, the same has run, and the outcome is that of the removal. Where no database
  -- is open there is no wipe.
  pub reset-IsReset : (w : W) (r : SchemaRegistry) → IsReset w r (reset N (w, r))
  unfolding reset
  reset-IsReset w r = by_state w r (services.is_open w) refl
