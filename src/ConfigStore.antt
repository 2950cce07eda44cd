-- ===== src/ConfigStore.antt =====
-- cpp/database/NativeConfigStore.cpp: the configuration of the database as a JSON file, written beside
-- its place and moved there. The file system and the platform's directory are an interface.
pub mod Laws
use react_native_salve_db.Prelude.{
  ℕ, Bool, true, false, not, ◌||◌, List, [], ◌∷◌, ◌++◌, Option, none, some, Bytes, text, Result, ok,
  err, Exception, runtime_error, if◌then◌else◌, is_empty,
}
use react_native_salve_db.Exec.{Exec, ◌>>=◌, ◌>>◌, pure, throw, lift}
use react_native_salve_db.OrderedMap.{OrderedMap, assign}
use react_native_salve_db.Json.{
  Value, bool, number, string, object, of_entries, is_object, get, get_string, get_bool, get_number,
}
use react_native_salve_db.Json.Double.{Double}
use react_native_salve_db.Json.Parser.{json_parse}
use react_native_salve_db.Json.Printer.{stringify}

pub record PersistedCredentialConfig : Type 0 where
  pub provider : Bytes
  pub access_token_header_name : Bytes
  pub access_token_scheme : Bytes
  pub refresh_endpoint : Bytes
  pub response_access_token_path : Bytes
  pub response_refresh_token_path : Bytes

pub record BackgroundConfig (N : Type 0) : Type 0 where
  pub minimum_interval_ms : N
  pub requires_network : Bool
  pub requires_charging : Bool

pub record PersistedConfig (N : Type 0) : Type 0 where
  pub db_name : Bytes
  pub wal_mode : Bool
  pub sync_on_app_open : Bool
  pub base_url : Option Bytes
  pub network_timeout_ms : Option N
  pub credentials : Option PersistedCredentialConfig
  pub background : Option (BackgroundConfig N)

-- `platform::getDocumentsDirectory`, an output stream on a path (opened and emptied, written and
-- flushed, closed), `std::rename`, `std::remove` with whether the file was missing and the error's
-- text, and the bytes of a file that can be read. The flag says whether a call succeeded.
pub record Files (W : Type 0) : Type 0 where
  pub documents_directory : Bytes
  pub open_empty : Bytes → W → Bool × W
  pub write : Bytes → Bytes → W → Bool × W
  pub close : Bytes → W → Bool × W
  pub rename : Bytes → Bytes → W → Bool × W
  pub remove_file : Bytes → W → Option (Bool × Bytes) × W
  pub read : Bytes → W → Option Bytes

module _ {N : Type 0} where
  -- `serializeCredentials`
  unfoldable pub serialize_credentials : PersistedCredentialConfig → OrderedMap (Value N)
  serialize_credentials c =
      assign (text "responseRefreshTokenPath") (string c.response_refresh_token_path) (
        assign (text "responseAccessTokenPath") (string c.response_access_token_path) (
          assign (text "refreshEndpoint") (string c.refresh_endpoint) (
            assign (text "accessTokenScheme") (string c.access_token_scheme) (
              assign (text "accessTokenHeaderName") (string c.access_token_header_name)
                (assign (text "provider") (string c.provider) [])))))

  -- `serializeBackground`
  unfoldable pub serialize_background : BackgroundConfig N → OrderedMap (Value N)
  serialize_background b = assign (text "requiresCharging") (bool b.requires_charging) (
      assign (text "requiresNetwork") (bool b.requires_network)
        (assign (text "minimumIntervalMs") (number b.minimum_interval_ms) []))

  -- a member for a value that is there
  unfoldable pub assign_some :
      {A : Type 0} → Bytes → (A → Value N) → Option A → OrderedMap (Value N) → OrderedMap (Value N)
  assign_some key f none m = m
  assign_some key f (some a) m = assign key (f a) m

  -- the object that `save` writes
  unfoldable pub config_value : PersistedConfig N → Value N
  config_value c = object (
      of_entries (
        assign_some (text "background") (λ b. object (of_entries (serialize_background b)))
          c.background
          (assign_some (text "credentials") (λ x. object (of_entries (serialize_credentials x)))
            c.credentials
            (assign_some (text "networkTimeoutMs") number c.network_timeout_ms (
              assign_some (text "baseUrl") string c.base_url (
                assign (text "syncOnAppOpen") (bool c.sync_on_app_open) (
                  assign (text "walMode") (bool c.wal_mode)
                    (assign (text "dbName") (string c.db_name) []))))))))

  abbrev pub string_member : Option (Value N) → Option Bytes
  string_member (some (string s)) = some s
  string_member _ = none

  abbrev pub number_member : Option (Value N) → Option N
  number_member (some (number n)) = some n
  number_member _ = none

  -- `parseCredentials`, of the member
  unfoldable pub parse_credentials : Option (Value N) → Option PersistedCredentialConfig
  parse_credentials none = none
  parse_credentials (some v) =
      if not (is_object v)
      then none
      else some record {
        provider = get_string v (text "provider") [];
        access_token_header_name = get_string v (text "accessTokenHeaderName") [];
        access_token_scheme = get_string v (text "accessTokenScheme") (text "Bearer");
        refresh_endpoint = get_string v (text "refreshEndpoint") [];
        response_access_token_path = get_string v (text "responseAccessTokenPath") [];
        response_refresh_token_path = get_string v (text "responseRefreshTokenPath") [];
      }

module _ {N : Type 0} ⦃d : Double N⦄ where
  -- `parseBackground`, of the member
  unfoldable pub parse_background : Option (Value N) → Option (BackgroundConfig N)
  parse_background none = none
  parse_background (some v) =
      if not (is_object v)
      then none
      else some record {
        minimum_interval_ms = get_number v (text "minimumIntervalMs") (d.of_ℕ 0);
        requires_network = get_bool v (text "requiresNetwork") false;
        requires_charging = get_bool v (text "requiresCharging") false;
      }

  -- `load`, from the parsed text on
  unfoldable pub config_of : Value N → Option (PersistedConfig N)
  config_of root =
      let db_name = get_string root (text "dbName") [] in
      if not (is_object root) || is_empty db_name
      then none
      else some record {
        db_name = db_name;
        wal_mode = get_bool root (text "walMode") true;
        sync_on_app_open = get_bool root (text "syncOnAppOpen") true;
        base_url = string_member (get root (text "baseUrl"));
        network_timeout_ms = number_member (get root (text "networkTimeoutMs"));
        credentials = parse_credentials (get root (text "credentials"));
        background = parse_background (get root (text "background"));
      }

  abbrev pub parsed_config : Result (Value N) → Option (PersistedConfig N)
  parsed_config (ok root) = config_of root
  parsed_config (err e) = none

  -- the text of the file
  unfoldable pub config_of_text : Option Bytes → Option (PersistedConfig N)
  config_of_text none = none
  config_of_text (some raw) = if is_empty raw then none else parsed_config (json_parse raw)

abbrev store_error : Bytes → Bytes → Bytes → Exception
store_error before path after =
    runtime_error (text "NativeConfigStore: failed to " ++ (before ++ (path ++ after)))

module _ (W : Type 0) ⦃files : Files W⦄ where
  unfoldable pub config_file_path : Bytes
  config_file_path = files.documents_directory ++ text "/_salve_config.json"

  abbrev pub temporary_path : Bytes
  temporary_path = config_file_path ++ text ".tmp"

module _ {W : Type 0} where
  -- one stage: what a failure leaves to be done, before its exception
  abbrev pub stage : (W → Bool × W) → (W → W) → Exception → Exec W (Unit {0})
  stage m undo e w = let (success, w') = m w in if success then (ok tt, w') else (err e, undo w')

module _ {W : Type 0} ⦃files : Files W⦄ where
  abbrev pub removed : W → W
  removed w = (files.remove_file (temporary_path W) w).1

  -- the four stages of the writing, from the last one on
  unfoldable pub move_file : Exec W (Unit {0})
  move_file =
      stage (files.rename (temporary_path W) (config_file_path W)) (λ w. w)
        (store_error (text "replace ") (config_file_path W) [])

  unfoldable pub close_file : Exec W (Unit {0})
  close_file =
      stage (files.close (temporary_path W)) removed
        (store_error (text "close ") (temporary_path W) [])
      >> move_file

  unfoldable pub fill_file : Bytes → Exec W (Unit {0})
  fill_file serialized =
      stage (files.write (temporary_path W) serialized)
        (λ w. removed (files.close (temporary_path W) w).1)
        (store_error (text "write ") (temporary_path W) [])
      >> close_file

  -- the file beside its place, then in its place
  unfoldable pub replace_file : Bytes → Exec W (Unit {0})
  replace_file serialized =
      stage (files.open_empty (temporary_path W)) (λ w. w)
        (store_error (text "open ") (temporary_path W) (text " for writing"))
      >> fill_file serialized

  -- `remove`; a missing file is no failure
  unfoldable pub remove_config : Exec W (Unit {0})
  remove_config w =
      let (failure, w') = files.remove_file (config_file_path W) w in
      elim failure [
        | none ↦ (ok tt, w')
        | some (missing, message) ↦ if missing then (ok tt, w') else (
          err (store_error (text "remove ") (config_file_path W) (text ": " ++ message)),
          w',
        )
      ]

module _ {W N : Type 0} ⦃d : Double N⦄ ⦃files : Files W⦄ where
  -- `save`
  unfoldable pub save_config : PersistedConfig N → Exec W (Unit {0})
  save_config c = lift (stringify (config_value c)) >>= λ serialized. replace_file serialized

  -- `load`
  unfoldable pub load_config : W → Option (PersistedConfig N)
  load_config w = config_of_text (files.read (config_file_path W) w)
