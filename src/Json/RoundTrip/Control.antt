-- ===== src/Json/RoundTrip/Control.antt =====
-- The control characters that `stringifyString` of cpp/database/json_parser.hpp writes as `\u00XX`:
-- `parseString` has no case for that escape.
use react_native_salve_db.Prelude.{
  ℕ, suc, ◌+◌, ◌*◌, ◌/◌, ◌%◌, false, [], ◌∷◌, ◌++◌, ◌≡◌, arith, Bytes, ok, length, append_assoc,
}
use react_native_salve_db.Json.{string}
use react_native_salve_db.Json.Double.{Double}
use react_native_salve_db.Json.Cursor.{at, expect, string_loop, parse_string, close_string}
use react_native_salve_db.Json.Parser.{json_parse}
use react_native_salve_db.Json.Printer.{hex_digit, escape_byte, escape, stringify_string}
use react_native_salve_db.Json.RoundTrip.Steps.{parse_value-string}
use react_native_salve_db.Json.RoundTrip.Strings.{
  is_plain, IsPlain, string_loop-escape, escape-cons,
}

-- what a control character comes back as
abbrev pub garbled : ℕ → Bytes
garbled c = b'u' ∷ b'0' ∷ b'0' ∷ hex_digit (c / 16) ∷ hex_digit (c % 16) ∷ []

string_loop_control :
    (c x : ℕ) (t : Bytes) (p : ℕ)
    → is_plain c ≡ false
    → string_loop [] (escape_byte c ++ (x ∷ t)) p ≡ string_loop (garbled c) (x ∷ t) (p + 6)
unfolding is_plain escape_byte string_loop hex_digit
string_loop_control c x t p h = ground arith

parse_string_control :
    (c : ℕ) (s : Bytes)
    → is_plain c ≡ false
    → IsPlain s
    → (q : ℕ) × (parse_string (at (stringify_string (c ∷ s)) 0) ≡ ok (garbled c ++ s, at [] q))
unfolding parse_string stringify_string close_string expect
parse_string_control c s h plain =
    let (x, u, e) = escape-cons s [] in
    let (q, loop) = string_loop-escape s [] (garbled c) 7 plain in
    let first = string_loop_control c x u 1 h in
    (
      q + 1,
      rw (append_assoc (escape_byte c) (escape s) (b'"' ∷ []))
          (rw e (rw first (rw (rw e at loop)))),
    )

module _ {N : Type 0} ⦃d : Double N⦄ where
  json_parse_of_string :
      (t : Bytes) {s : Bytes} (q : ℕ)
      → parse_string (at (b'"' ∷ t) 0) ≡ ok (s, at [] q)
      → json_parse {N = N} (b'"' ∷ t) ≡ ok (string s)
  unfolding json_parse
  json_parse_of_string t q e =
      let fuel : 2 * length (b'"' ∷ t) + 1 ≡ suc (2 * length t + 2) = omega arith in
      rw fuel (rw (parse_value-string {N = N} (2 * length t + 2) t 0 e))

  -- A text that begins with a control character with no escape letter, and goes on plainly, is read
  -- back as another text: the letter `u` and four digits stand where the character was.
  pub control_character_is_garbled :
      (c : ℕ) (s : Bytes)
      → is_plain c ≡ false
      → IsPlain s
      → json_parse {N = N} (stringify_string (c ∷ s)) ≡ ok (string (garbled c ++ s))
  unfolding stringify_string
  control_character_is_garbled c s h plain =
      let (q, e) = parse_string_control c s h plain in json_parse_of_string _ q e
