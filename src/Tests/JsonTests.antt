-- ===== src/Tests/JsonTests.antt =====
-- The JSON theorems at concrete values.
use react_native_salve_db.Prelude.{
  ◌≡◌, ◌≢◌, refl, inl, ℕ, true, Option, List, [], ◌∷◌, ◌++◌, Bytes, text, ℤ, pos, ok, err, no_fuel,
  int_text, is_digit, all_digits, decimal, str_eq, if◌then◌else◌,
}
use react_native_salve_db.OrderedMap.{contains, assign}
use react_native_salve_db.OrderedMap.Laws.{keys, IsDistinct, assign-IsDistinct, keys-assign}
use react_native_salve_db.Json.{
  Value, null, bool, number, string, array, object, nil, cons, end, field,
}
use react_native_salve_db.Json.Parser.{json_parse}
use react_native_salve_db.Json.Printer.{
  stringify, stringify_value, stringify_string, stringify_number, escape,
}
use react_native_salve_db.Json.RoundTrip.Printable.{IsPrintable}
use react_native_salve_db.Json.RoundTrip.Values.{parse-stringify}
use react_native_salve_db.Json.RoundTrip.Strings.{is_plain}
use react_native_salve_db.Json.RoundTrip.Numbers.{PrintsBack}
use react_native_salve_db.Json.RoundTrip.Control.{garbled, control_character_is_garbled}
use react_native_salve_db.Json.Total.{json_parse-ne-no_fuel}
use react_native_salve_db.JsonPath.{extract}
use react_native_salve_db.JsonPath.Laws.{IsAt, join_dots, extract-join_dots}
use react_native_salve_db.Tests.Doubles.{integer_double, read_int}

-- {"id": 7, "tags": [true, "a\n"], "sub": {"id": null}}
abbrev row : Value ℤ
row = object (
    field (b'i' ∷ b'd' ∷ []) (number (pos 7)) (
      field (b't' ∷ []) (array (cons (bool true) (cons (string (b'a' ∷ 10 ∷ [])) nil)))
        (field (b's' ∷ []) (object (field (b'i' ∷ b'd' ∷ []) null end)) end)))

abbrev printed : Bytes
printed =
    b'{' ∷ b'"' ∷ b'i' ∷ b'd' ∷ b'"' ∷ b':' ∷ b'7' ∷ b',' ∷ b'"' ∷ b't' ∷ b'"' ∷ b':' ∷ b'[' ∷ b't'
    ∷ b'r' ∷ b'u' ∷ b'e' ∷ b',' ∷ b'"' ∷ b'a' ∷ b'\\' ∷ b'n' ∷ b'"' ∷ b']' ∷ b',' ∷ b'"' ∷ b's'
    ∷ b'"' ∷ b':' ∷ b'{' ∷ b'"' ∷ b'i' ∷ b'd' ∷ b'"' ∷ b':' ∷ b'n' ∷ b'u' ∷ b'l' ∷ b'l' ∷ b'}'
    ∷ b'}' ∷ []

seven-PrintsBack : PrintsBack {N = ℤ} (pos 7)
unfolding is_digit all_digits stringify_number decimal read_int integer_double int_text
seven-PrintsBack = record {
  numeral = record { minus = []; whole = b'7' ∷ []; fraction = []; exponent = [] };
  is_numeral = record {
    minus = inl refl;
    whole = (refl, refl);
    fraction = inl refl;
    exponent = inl refl;
  };
  prints = refl;
  reads = refl;
}

row-printed : stringify row ≡ ok printed
unfolding stringify stringify_value text integer_double decimal escape int_text
row-printed = refl

row-IsPrintable : IsPrintable row
unfolding IsPrintable str_eq is_plain
row-IsPrintable = (
  ((refl, (refl, tt)), ((refl, tt), (tt, tt))),
  (
    (refl, (refl, tt)),
    seven-PrintsBack,
    (
      (refl, tt),
      (tt, ((refl, (refl, tt)), tt)),
      ((refl, tt), ((tt, tt), ((refl, (refl, tt)), tt, tt)), tt),
    ),
  ),
)

parse-stringify_example : json_parse printed ≡ ok row
parse-stringify_example = parse-stringify row row-IsPrintable row-printed

control_character_is_garbled_example :
    json_parse {N = ℤ} (stringify_string (1 ∷ b'a' ∷ [])) ≡ ok (string (garbled 1 ++ b'a' ∷ []))
unfolding is_plain
control_character_is_garbled_example = control_character_is_garbled 1 (b'a' ∷ []) refl (refl, tt)

json_parse-ne-no_fuel_example : json_parse {N = ℤ} (b'[' ∷ b'[' ∷ b'{' ∷ []) ≢ err no_fuel
json_parse-ne-no_fuel_example = json_parse-ne-no_fuel ℤ (b'[' ∷ b'[' ∷ b'{' ∷ [])

abbrev path_names : List Bytes
path_names = (b's' ∷ []) ∷ (b'i' ∷ b'd' ∷ []) ∷ []

extract-join_dots_example :
    (o : Option (Value ℤ)) × (extract row (b'$' ∷ b'.' ∷ join_dots path_names) ≡ ok o)
    × IsAt row path_names o
extract-join_dots_example =
    extract-join_dots row path_names (((refl, (refl, tt)), ((refl, (refl, (refl, tt))), tt))) refl

abbrev pairs : List (Bytes × ℕ)
pairs = (b'a' ∷ [], 1) ∷ (b'b' ∷ [], 2) ∷ []

keys-assign_example :
    keys (assign (b'c' ∷ []) 5 pairs)
    ≡ (if contains (b'c' ∷ []) pairs then keys pairs else keys pairs ++ (b'c' ∷ []) ∷ [])
keys-assign_example = keys-assign (b'c' ∷ []) 5 pairs

assign-IsDistinct_example : IsDistinct (assign (b'c' ∷ []) 5 pairs)
unfolding str_eq
assign-IsDistinct_example = assign-IsDistinct (b'c' ∷ []) 5 pairs ((refl, tt), (tt, tt))
