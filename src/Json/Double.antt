-- ===== src/Json/Double.antt =====
-- `double` and the parts of the C++ library that read and print it. They are not this program's
-- code: a type `N` with these operations is a parameter of whatever computes with numbers.
use react_native_salve_db.Prelude.{ℕ, Bool, Option, Bytes, ℤ}

pub record Double (N : Type 0) : Type 0 where
  -- `std::stod`; `none` where it throws
  pub stod : Bytes → Option N
  -- `std::isfinite`
  pub is_finite : N → Bool
  -- `std::floor`, `std::abs`
  pub floor : N → N
  pub abs : N → N
  -- `==`, `<`
  pub eq : N → N → Bool
  pub lt : N → N → Bool
  -- the value of an integer literal, as in `double d = 20`
  pub of_ℕ : ℕ → N
  -- `static_cast<long long>` (also `int64_t`, `int`), for a value in the range of the type
  pub truncate : N → ℤ
  -- a stream's output with 17 significant digits
  pub print_17 : N → Bytes
