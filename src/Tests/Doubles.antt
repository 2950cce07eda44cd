-- ===== src/Tests/Doubles.antt =====
-- Integers in the place of `double`, for tests on the JSON reader and printer.
use react_native_salve_db.Prelude.{
  ℕ, zero, suc, true, [], ◌∷◌, Option, none, some, Bytes, ℤ, pos, negsuc, eq_ℤ, ltb_ℤ, int_text,
  digits_value, ◌==◌, if◌then◌else◌,
}
use react_native_salve_db.Json.Double.{Double}

abbrev negated : ℕ → ℤ
negated zero = pos zero
negated (suc n) = negsuc n

abbrev absolute : ℤ → ℤ
absolute (pos n) = pos n
absolute (negsuc n) = pos (suc n)

unfoldable pub read_int : Bytes → Option ℤ
unfolding digits_value
read_int [] = none
read_int (c ∷ cs) =
    if c == b'-' then some (negated (digits_value 0 cs)) else some (pos (digits_value 0 (c ∷ cs)))

instance unfoldable pub integer_double : Double ℤ
integer_double = record {
  stod = read_int;
  is_finite = λ n. true;
  floor = λ n. n;
  abs = absolute;
  eq = eq_ℤ;
  lt = ltb_ℤ;
  of_ℕ = pos;
  truncate = λ n. n;
  print_17 = int_text;
}
