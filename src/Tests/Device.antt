-- ===== src/Tests/Device.antt =====
-- A device for tests: its secure store, the answers that its HTTP client will give, one to a
-- request, and the time that it slept.
use react_native_salve_db.Prelude.{
  ◌≡◌, ◌≢◌, refl, sym, ap, ◌∙◌, ok, ok-injective, ℕ, ◌+◌, List, [], ◌∷◌, Option, none, some, Bytes,
  str_eq, str_eq_iff, str_eq_refl, ℤ, if◌then◌else◌, Bool-cases, inl, inr,
}
use react_native_salve_db.Credentials.Store.{SecureStore, SecureStoreLaws}
use react_native_salve_db.Http.Types.{HttpPlatform, HttpOutcome, network_error, timeout}
use react_native_salve_db.Http.Requester.{Sleep}

pub record Device : Type 0 where
  pub secure : Bytes → Option Bytes
  pub answers : List HttpOutcome
  pub slept : ℕ

abbrev pub stored : Bytes → Option Bytes → Device → Device
stored k v w = record {
  secure = λ j. if str_eq k j then v else w.secure j;
  answers = w.answers;
  slept = w.slept;
}

instance unfoldable pub device_store : SecureStore Device
device_store = record {
  get_value = λ k w. (ok (w.secure k), w);
  set_value = λ k v w. (ok tt, stored k (some v) w);
  delete_value = λ k w. (ok tt, stored k none w);
}

other_key : (k j : Bytes) (v w : Option Bytes) → k ≢ j → (if str_eq k j then v else w) ≡ w
other_key k j v w ne = elim (Bool-cases (str_eq k j)) [
  | inl e ↦ absurd (ne ((str_eq_iff k j).0 e))
  | inr e ↦ rw e refl
]

-- what its secure store holds
abbrev pub in_store : Bytes → Device → Option Bytes
in_store k w = w.secure k

pub device_store_laws : SecureStoreLaws device_store in_store
unfolding device_store
device_store_laws = record {
  get_held = λ {k} {w} e. ok-injective (ap (λ p. p.0) e);
  held-get = λ k j w. refl;
  held-set_self =
      λ {k} {v} {w} e. ap (in_store k) (sym (ap (λ p. p.1) e)) ∙ rw (str_eq_refl k) refl;
  held-set_ne = λ {k} {v} j {w} e ne.
      ap (in_store j) (sym (ap (λ p. p.1) e)) ∙ other_key k j (some v) (w.secure j) ne;
  held-delete_self = λ {k} {w} e. ap (in_store k) (sym (ap (λ p. p.1) e)) ∙ rw (str_eq_refl k) refl;
  held-delete_ne = λ {k} j {w} e ne.
      ap (in_store j) (sym (ap (λ p. p.1) e)) ∙ other_key k j none (w.secure j) ne;
}

abbrev next_answer : List HttpOutcome → Device → HttpOutcome × Device
next_answer [] w = (network_error (record { kind = timeout; message = [] }), w)
next_answer (o ∷ os) w = (o, record { secure = w.secure; answers = os; slept = w.slept })

instance unfoldable pub device_platform : HttpPlatform Device ℤ
device_platform = record { http_execute = λ request w. next_answer w.answers w }

instance unfoldable pub device_sleep : Sleep Device
device_sleep = record {
  sleep_for = λ ms w. record { secure = w.secure; answers = w.answers; slept = w.slept + ms };
}
