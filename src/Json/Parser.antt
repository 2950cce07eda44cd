-- ===== src/Json/Parser.antt =====
-- json_parser.hpp, class Parser: `parseValue`, `parseObject`, `parseArray` and `parse`. The three
-- call one another; the fuel bounds the depth of calls, and json_parse gives enough of it.
use react_native_salve_db.Prelude.{
  ℕ, zero, suc, ◌+◌, ◌*◌, Bool, true, false, ◌||◌, List, [], ◌∷◌, ◌++◌, Bytes, text, Result, ok,
  err, runtime_error, no_fuel, ◌>>=◌, ◌==◌, if◌then◌else◌, length, decimal, is_digit,
}
use react_native_salve_db.OrderedMap.{OrderedMap, assign}
use react_native_salve_db.Json.{
  Value, null, bool, number, string, array, object, of_elements, of_entries,
}
use react_native_salve_db.Json.Double.{Double}
use react_native_salve_db.Json.Cursor.{
  Cursor, at, peek, advance, skip_ws, expect, parse_string, parse_number, string_loop, close_string,
  number_part, stod_or_throw,
}

unfoldable pub unexpected : ℕ → ℕ → Bytes
unexpected c p = text "JSON parse error: unexpected char '" ++ c ∷ text "' at pos " ++ decimal p

-- The opening bracket, and whether the closing one follows at once.
unfoldable pub open_bracket : ℕ → ℕ → Cursor → Result (Bool × Cursor)
open_bracket opening closing s = do
  s₁ ← expect opening s
  let s₂ = skip_ws s₁
  if peek s₂ == closing then ok (true, advance 1 s₂) else ok (false, s₂)

-- `"key" :` in front of a member's value
unfoldable pub parse_key : Cursor → Result (Bytes × Cursor)
parse_key s = do
  (key, s₁) ← parse_string (skip_ws s)
  s₂ ← expect b':' (skip_ws s₁)
  ok (key, skip_ws s₂)

abbrev pub value_of {ℓ} : {A : Type ℓ} → A × Cursor → A
value_of (a, s) = a

module _ {N : Type 0} ⦃d : Double N⦄ where
  unfoldable mutual
    pub parse_value : ℕ → Cursor → Result (Value N × Cursor)
    parse_value zero s = err no_fuel
    parse_value (suc fuel) s =
        let s₁ = skip_ws s in
        let c = peek s₁ in
        let members = λ (s₂ : Cursor). parse_members fuel [] s₂ in
        let items = λ (s₂ : Cursor). parse_items fuel [] s₂ in
        if c == b'"'
        then (do (t, s₂) ← parse_string s₁; ok (string t, s₂))
        else if c == b'{'
        then (do
          (is_end, s₂) ← open_bracket b'{' b'}' s₁
          if is_end then ok (object (of_entries []), s₂) else members s₂)
        else if c == b'['
        then (do
          (is_end, s₂) ← open_bracket b'[' b']' s₁
          if is_end then ok (array (of_elements []), s₂) else items s₂)
        else if c == b't'
        then ok (bool true, advance 4 s₁)
        else if c == b'f'
        then ok (bool false, advance 5 s₁)
        else if c == b'n'
        then ok (null, advance 4 s₁)
        else if c == b'-' || is_digit c
        then (do (n, s₂) ← parse_number s₁; ok (number n, s₂))
        else err (runtime_error (unexpected c s₁.pos))

    -- the loop of `parseObject`; `obj` is what it has assigned so far
    pub parse_members : ℕ → OrderedMap (Value N) → Cursor → Result (Value N × Cursor)
    parse_members zero obj s = err no_fuel
    parse_members (suc fuel) obj s = do
      (key, s₁) ← parse_key s
      (v, s₂) ← parse_value fuel s₁
      let s₃ = skip_ws s₂
      let obj' = assign key v obj
      let more = λ (s₄ : Cursor). parse_members fuel obj' s₄
      if peek s₃ == b'}'
          then ok (object (of_entries obj'), advance 1 s₃)
          else (do s₄ ← expect b',' s₃; more s₄)

    -- the loop of `parseArray`; `arr` is what it has pushed so far
    pub parse_items : ℕ → List (Value N) → Cursor → Result (Value N × Cursor)
    parse_items zero arr s = err no_fuel
    parse_items (suc fuel) arr s = do
      (v, s₁) ← parse_value fuel (skip_ws s)
      let s₂ = skip_ws s₁
      let arr' = arr ++ v ∷ []
      let more = λ (s₃ : Cursor). parse_items fuel arr' s₃
      if peek s₂ == b']'
          then ok (array (of_elements arr'), advance 1 s₂)
          else (do s₃ ← expect b',' s₂; more s₃)

  -- `json::parse`: what follows the value is not looked at
  unfoldable pub json_parse : Bytes → Result (Value N)
  unfolding parse_value parse_members parse_items expect skip_ws parse_string string_loop
      close_string parse_number number_part stod_or_throw open_bracket parse_key is_digit assign
  json_parse src = do r ← parse_value (2 * length src + 1) (at src 0); ok (value_of r)
