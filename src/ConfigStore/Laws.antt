-- ===== src/ConfigStore/Laws.antt =====
-- What cpp/database/NativeConfigStore.cpp reads back.
use react_native_salve_db.Prelude.{
  ◌≡◌, ◌≢◌, refl, ◌∙◌, true, false, Bool, [], ◌∷◌, none, some, Option, Bytes, text, str_eq, ok, err,
  Result, Exception, inl, inr, ◌⊎◌, ap, length, length-append, arith, is_empty,
}
use react_native_salve_db.OrderedMap.{find, assign}
use react_native_salve_db.Json.{Value, is_object, get, get_string, get_bool, get_number}
use react_native_salve_db.Json.Double.{Double}
use react_native_salve_db.Json.Parser.{json_parse, parse_value, unexpected}
use react_native_salve_db.Json.Cursor.{peek, skip_ws}
use react_native_salve_db.Json.Printer.{stringify}
use react_native_salve_db.Json.RoundTrip.Printable.{IsPrintable}
use react_native_salve_db.Json.RoundTrip.Values.{parse-stringify}
use react_native_salve_db.ConfigStore.{
  PersistedConfig, PersistedCredentialConfig, BackgroundConfig, Files, serialize_credentials,
  serialize_background, assign_some, config_value, parse_credentials, parse_background, config_of,
  config_of_text, config_file_path, temporary_path, move_file, close_file, fill_file, replace_file,
  save_config, load_config,
}

-- What a file system promises: a file that was opened, written and closed without a failure holds what
-- was written, and a moved file stands in the other's place; no other file changes, nor does any when
-- a move fails.
pub record FileLaws (W : Type 0) (files : Files W) : Type 0 where
  pub written :
      (p b : Bytes) (w w₁ w₂ w₃ : W)
      → files.open_empty p w ≡ (true, w₁)
      → files.write p b w₁ ≡ (true, w₂)
      → files.close p w₂ ≡ (true, w₃)
      → files.read p w₃ ≡ some b
  pub open_other :
      (p q : Bytes) (w : W) → q ≢ p → files.read q (files.open_empty p w).1 ≡ files.read q w
  pub write_other :
      (p q b : Bytes) (w : W) → q ≢ p → files.read q (files.write p b w).1 ≡ files.read q w
  pub close_other :
      (p q : Bytes) (w : W) → q ≢ p → files.read q (files.close p w).1 ≡ files.read q w
  pub remove_other :
      (p q : Bytes) (w : W) → q ≢ p → files.read q (files.remove_file p w).1 ≡ files.read q w
  pub moved :
      (a b : Bytes) (w w' : W) → files.rename a b w ≡ (true, w') → files.read b w' ≡ files.read a w
  pub unmoved :
      (a b : Bytes) (w w' : W) → files.rename a b w ≡ (false, w') → files.read b w' ≡ files.read b w

ok_or_err {ℓ} :
    {A : Type ℓ} (r : Result A) → ((a : A) × (r ≡ ok a)) ⊎ ((x : Exception) × (r ≡ err x))
ok_or_err (ok a) = inl (a, refl)
ok_or_err (err x) = inr (x, refl)

module _ {N : Type 0} ⦃d : Double N⦄ where
  nothing_parsed : (v : Value N) → json_parse [] ≢ ok v
  unfolding json_parse parse_value peek skip_ws unexpected
  nothing_parsed v e = cc

  config_of-config_value :
      (db : Bytes) (wal app : Bool) (url : Option Bytes) (timeout : Option N)
      (creds : Option PersistedCredentialConfig) (bg : Option (BackgroundConfig N))
      → is_empty db ≡ false
      → (let c : PersistedConfig N = record {
        db_name = db;
        wal_mode = wal;
        sync_on_app_open = app;
        base_url = url;
        network_timeout_ms = timeout;
        credentials = creds;
        background = bg;
      } in
          config_of (config_value c) ≡ some c)
  unfolding config_of config_value assign_some assign get get_string get_bool get_number find
      is_object text str_eq parse_credentials parse_background serialize_credentials
      serialize_background
  config_of-config_value db wal app none none none none h = rw h refl
  config_of-config_value db wal app none none none (some bg) h = rw h refl
  config_of-config_value db wal app none none (some creds) none h = rw h refl
  config_of-config_value db wal app none none (some creds) (some bg) h = rw h refl
  config_of-config_value db wal app none (some timeout) none none h = rw h refl
  config_of-config_value db wal app none (some timeout) none (some bg) h = rw h refl
  config_of-config_value db wal app none (some timeout) (some creds) none h = rw h refl
  config_of-config_value db wal app none (some timeout) (some creds) (some bg) h = rw h refl
  config_of-config_value db wal app (some url) none none none h = rw h refl
  config_of-config_value db wal app (some url) none none (some bg) h = rw h refl
  config_of-config_value db wal app (some url) none (some creds) none h = rw h refl
  config_of-config_value db wal app (some url) none (some creds) (some bg) h = rw h refl
  config_of-config_value db wal app (some url) (some timeout) none none h = rw h refl
  config_of-config_value db wal app (some url) (some timeout) none (some bg) h = rw h refl
  config_of-config_value db wal app (some url) (some timeout) (some creds) none h = rw h refl
  config_of-config_value db wal app (some url) (some timeout) (some creds) (some bg) h = rw h refl

module _ {W : Type 0} ⦃files : Files W⦄ (laws : FileLaws W files) (serialized : Bytes)
    (old : Option Bytes) where
  -- the new text is in the file, or an exception left the old one
  abbrev pub IsReplaced : Result (Unit {0}) × W → Type 0
  IsReplaced s =
      ((s.0 ≡ ok tt) × (files.read (config_file_path W) s.1 ≡ some serialized))
      ⊎ ((x : Exception) × (s.0 ≡ err x) × (files.read (config_file_path W) s.1 ≡ old))

  move_file-IsReplaced :
      (w : W) (b : Bool) (w₁ : W)
      → files.rename (temporary_path W) (config_file_path W) w ≡ (b, w₁)
      → files.read (temporary_path W) w ≡ some serialized
      → files.read (config_file_path W) w ≡ old
      → IsReplaced (move_file w)
  unfolding move_file
  move_file-IsReplaced w true w₁ e new same = rw e (inl (refl, laws.moved _ _ w w₁ e ∙ new))
  move_file-IsReplaced w false w₁ e new same = rw e (inr (_, refl, laws.unmoved _ _ w w₁ e ∙ same))

  path_differs : config_file_path W ≢ temporary_path W
  unfolding text
  path_differs e =
      let longer = length-append (config_file_path W) (text ".tmp") in
      absurd (omega (arith, longer, ap length e))

  close_file-IsReplaced :
      (w₀ w₁ w : W) (b : Bool) (w₂ : W)
      → files.open_empty (temporary_path W) w₀ ≡ (true, w₁)
      → files.write (temporary_path W) serialized w₁ ≡ (true, w)
      → files.close (temporary_path W) w ≡ (b, w₂)
      → files.read (config_file_path W) w ≡ old
      → IsReplaced (close_file w)
  unfolding close_file
  close_file-IsReplaced w₀ w₁ w true w₂ o f e same =
      let other = laws.close_other (temporary_path W) (config_file_path W) w path_differs in
      rw e (
        move_file-IsReplaced w₂ _ _ refl (laws.written _ serialized w₀ w₁ w w₂ o f e)
          (rw e at other ∙ same))
  close_file-IsReplaced w₀ w₁ w false w₂ o f e same =
      let other = laws.close_other (temporary_path W) (config_file_path W) w path_differs in
      rw e (inr (_, refl, laws.remove_other _ _ w₂ path_differs ∙ (rw e at other ∙ same)))

  fill_file-IsReplaced :
      (w₀ w : W) (b : Bool) (w₁ : W)
      → files.open_empty (temporary_path W) w₀ ≡ (true, w)
      → files.write (temporary_path W) serialized w ≡ (b, w₁)
      → files.read (config_file_path W) w ≡ old
      → IsReplaced (fill_file serialized w)
  unfolding fill_file
  fill_file-IsReplaced w₀ w true w₁ o e same =
      let other =
        laws.write_other (temporary_path W) (config_file_path W) serialized w path_differs in
      rw e (close_file-IsReplaced w₀ w w₁ _ _ o e refl (rw e at other ∙ same))
  fill_file-IsReplaced w₀ w false w₁ o e same =
      let other =
        laws.write_other (temporary_path W) (config_file_path W) serialized w path_differs in
      rw e (
        inr (
          _,
          refl,
          laws.remove_other _ _ _ path_differs
              ∙ (laws.close_other _ _ w₁ path_differs ∙ (rw e at other ∙ same)),
        ))

  replace_file-IsReplaced :
      (w : W) (b : Bool) (w₁ : W)
      → files.open_empty (temporary_path W) w ≡ (b, w₁)
      → files.read (config_file_path W) w ≡ old
      → IsReplaced (replace_file serialized w)
  unfolding replace_file
  replace_file-IsReplaced w true w₁ e same =
      let other = laws.open_other (temporary_path W) (config_file_path W) w path_differs in
      rw e (fill_file-IsReplaced w w₁ _ _ e refl (rw e at other ∙ same))
  replace_file-IsReplaced w false w₁ e same =
      let other = laws.open_other (temporary_path W) (config_file_path W) w path_differs in
      rw e (inr (_, refl, rw e at other ∙ same))

module _ {W N : Type 0} ⦃d : Double N⦄ ⦃files : Files W⦄ (laws : FileLaws W files) where
  -- what a save leaves: the configuration to load, or an exception and the one that was there
  abbrev pub IsSaved : PersistedConfig N → W → Result (Unit {0}) × W → Type 0
  IsSaved c w s =
      ((s.0 ≡ ok tt) × (load_config s.1 ≡ some c))
      ⊎ ((x : Exception) × (s.0 ≡ err x) × (load_config {N = N} s.1 ≡ load_config w))

  loaded-some :
      (c : PersistedConfig N) (t : Bytes) (w : W)
      → is_empty c.db_name ≡ false
      → IsPrintable (config_value c)
      → stringify (config_value c) ≡ ok t
      → files.read (config_file_path W) w ≡ some t
      → load_config w ≡ some c
  unfolding load_config config_of_text
  loaded-some c [] w named printable printed e =
      absurd (nothing_parsed (config_value c) (parse-stringify (config_value c) printable printed))
  loaded-some c (x ∷ t) w named printable printed e =
      rw (e, parse-stringify (config_value c) printable printed)
        (config_of-config_value c.db_name c.wal_mode c.sync_on_app_open c.base_url
          c.network_timeout_ms c.credentials c.background named)

  -- A save returns or throws. Behind one that returns, load gives the configuration that was saved;
  -- behind one that throws, what it gave before. The name of the database is not empty, and the
  -- configuration is one that the JSON printer and parser agree on.
  pub save_config-IsSaved :
      (c : PersistedConfig N) (w : W)
      → is_empty c.db_name ≡ false
      → IsPrintable (config_value c)
      → IsSaved c w (save_config c w)
  unfolding save_config load_config
  save_config-IsSaved c w named printable = elim (ok_or_err (stringify (config_value c))) [
    | inl (t, e) ↦ rw e (elim (replace_file-IsReplaced laws t _ w _ _ refl refl) [
      | inl (r, new) ↦ inl (r, loaded-some c t _ named printable e new)
      | inr (x, r, same) ↦ inr (x, r, ap config_of_text same)
    ])
    | inr (x, e) ↦ rw e (inr (x, refl, refl))
  ]
