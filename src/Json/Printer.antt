-- ===== src/Json/Printer.antt =====
-- json_parser.hpp, namespace detail: `stringifyString`, `stringifyNumber`, `stringifyValue`.
use react_native_salve_db.Prelude.{
  ℕ, ◌+◌, ◌-◌, ◌/◌, ◌%◌, ◌^◌, Bool, true, false, not, ◌&&◌, [], ◌∷◌, ◌++◌, Bytes, text, Result, ok,
  err, runtime_error, ◌>>=◌, ◌==◌, ltb, if◌then◌else◌, int_text,
}
use react_native_salve_db.Json.{
  Value, null, bool, number, string, array, object, Items, nil, cons, Fields, end, field,
}
use react_native_salve_db.Json.Double.{Double}

-- one digit of `%x`
unfoldable pub hex_digit : ℕ → ℕ
hex_digit n = if ltb n 10 then b'0' + n else b'a' + (n - 10)

-- one byte inside a quoted text
unfoldable pub escape_byte : ℕ → Bytes
unfolding hex_digit
escape_byte c =
    if c == b'"'
    then b'\\' ∷ b'"' ∷ []
    else if c == b'\\'
    then b'\\' ∷ b'\\' ∷ []
    else if c == 10
    then b'\\' ∷ b'n' ∷ []
    else if c == 13
    then b'\\' ∷ b'r' ∷ []
    else if c == 9
    then b'\\' ∷ b't' ∷ []
    else if c == 8
    then b'\\' ∷ b'b' ∷ []
    else if c == 12
    then b'\\' ∷ b'f' ∷ []
    else if ltb c 32
    then b'\\' ∷ b'u' ∷ b'0' ∷ b'0' ∷ hex_digit (c / 16) ∷ hex_digit (c % 16) ∷ []
    else c ∷ []

unfoldable pub escape : Bytes → Bytes
unfolding escape_byte
escape [] = []
escape (c ∷ cs) = escape_byte c ++ escape cs

unfoldable pub stringify_string : Bytes → Bytes
unfolding escape
stringify_string s = b'"' ∷ (escape s ++ b'"' ∷ [])

abbrev pub separator : Bool → Bytes
separator true = []
separator false = b',' ∷ []

module _ {N : Type 0} ⦃d : Double N⦄ where
  unfoldable pub stringify_number : N → Result Bytes
  stringify_number n =
      if not (d.is_finite n)
      then err (
          runtime_error (text "json::stringify: cannot serialize non-finite number (NaN/Infinity)"))
      else if d.eq n (d.floor n) && d.lt (d.abs n) (d.of_ℕ (10 ^ 15))
      then ok (int_text (d.truncate n))
      else ok (d.print_17 n)

  unfoldable mutual
    pub stringify_value : Value N → Result Bytes
    stringify_value null = ok (text "null")
    stringify_value (bool b) = ok (if b then text "true" else text "false")
    stringify_value (number n) = stringify_number n
    stringify_value (string s) = ok (stringify_string s)
    stringify_value (array xs) = do t ← stringify_items true xs; ok (b'[' ∷ (t ++ b']' ∷ []))
    stringify_value (object fs) = do t ← stringify_fields true fs; ok (b'{' ∷ (t ++ b'}' ∷ []))

    -- the loop over an array; the flag is `i == 0`
    pub stringify_items : Bool → Items N → Result Bytes
    stringify_items is_first nil = ok []
    stringify_items is_first (cons v xs) = do
      t ← stringify_value v
      ts ← stringify_items false xs
      ok (separator is_first ++ (t ++ ts))

    -- the loop over an object; the flag is `first`
    pub stringify_fields : Bool → Fields N → Result Bytes
    stringify_fields is_first end = ok []
    stringify_fields is_first (field key v fs) = do
      t ← stringify_value v
      ts ← stringify_fields false fs
      ok (separator is_first ++ (stringify_string key ++ (b':' ∷ (t ++ ts))))

  -- `json::stringify`
  unfoldable pub stringify : Value N → Result Bytes
  unfolding stringify_value stringify_items stringify_fields stringify_string stringify_number
  stringify = stringify_value
