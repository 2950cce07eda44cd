-- ===== src/Tests/ConfigTests.antt =====
-- A small file system, and the configuration store on it.
use react_native_salve_db.Prelude.{
  ◌≡◌, ◌≢◌, refl, sym, ap, ◌∙◌, true, false, Bool, [], none, some, Option, Bytes, text, str_eq,
  str_eq_iff, str_eq_refl, ℤ, arith, if◌then◌else◌,
}
use react_native_salve_db.OrderedMap.{assign}
use react_native_salve_db.Json.RoundTrip.Strings.{is_plain}
use react_native_salve_db.Json.RoundTrip.Printable.{IsPrintable}
use react_native_salve_db.ConfigStore.{
  PersistedConfig, Files, config_value, save_config, assign_some,
}
use react_native_salve_db.ConfigStore.Laws.{FileLaws, IsSaved, save_config-IsSaved}
use react_native_salve_db.Tests.Doubles.{integer_double}

abbrev Disk : Type 0
Disk = Bytes → Option Bytes

abbrev put : Bytes → Option Bytes → Disk → Disk
put p content disk q = if str_eq q p then content else disk q

abbrev moving : Option Bytes → Bytes → Disk → Bool × Disk
moving none b disk = (false, disk)
moving (some content) b disk = (true, put b (some content) disk)

instance unfoldable disk_files : Files Disk
disk_files = record {
  documents_directory = text "/d";
  open_empty = λ p w. (true, put p (some []) w);
  write = λ p b w. (true, put p (some b) w);
  close = λ p w. (true, w);
  rename = λ a b w. moving (w a) b w;
  remove_file = λ p w. (none, put p none w);
  read = λ p w. w p;
}

put_other : (p q : Bytes) (c : Option Bytes) (w : Disk) → q ≢ p → put p c w q ≡ w q
put_other p q c w h = ground (arith, str_eq_iff q p)

put_here : (p : Bytes) (c : Option Bytes) (w : Disk) → put p c w p ≡ c
put_here p c w = rw (str_eq_refl p) refl

moving-true : (o : Option Bytes) (b : Bytes) (w w' : Disk) → moving o b w ≡ (true, w') → w' b ≡ o
moving-true none b w w' e = cc
moving-true (some content) b w w' e = sym (ap (λ s. s.1 b) e) ∙ put_here b (some content) w

moving-false :
    (o : Option Bytes) (b : Bytes) (w w' : Disk) → moving o b w ≡ (false, w') → w' b ≡ w b
moving-false none b w w' e = sym (ap (λ s. s.1 b) e)
moving-false (some content) b w w' e = cc

disk_files-FileLaws : FileLaws Disk disk_files
unfolding disk_files
disk_files-FileLaws = record {
  written = λ p b w w₁ w₂ w₃ o f c.
      sym (ap (λ s. s.1 p) c) ∙ (sym (ap (λ s. s.1 p) f) ∙ put_here p (some b) w₁);
  open_other = λ p q w h. put_other p q _ w h;
  write_other = λ p q b w h. put_other p q _ w h;
  close_other = λ p q w h. refl;
  remove_other = λ p q w h. put_other p q _ w h;
  moved = λ a b w w' e. moving-true (w a) b w w' e;
  unmoved = λ a b w w' e. moving-false (w a) b w w' e;
}

abbrev config : PersistedConfig ℤ
config = record {
  db_name = text "db";
  wal_mode = true;
  sync_on_app_open = false;
  base_url = none;
  network_timeout_ms = none;
  credentials = none;
  background = none;
}

config-IsPrintable : IsPrintable (config_value config)
unfolding IsPrintable is_plain config_value assign assign_some text str_eq
config-IsPrintable = search

save_config-IsSaved_example :
    IsSaved disk_files-FileLaws config (λ p. none) (save_config config (λ p. none))
unfolding text
save_config-IsSaved_example =
    save_config-IsSaved disk_files-FileLaws config (λ p. none) refl config-IsPrintable
