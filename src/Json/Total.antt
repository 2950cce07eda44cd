-- ===== src/Json/Total.antt =====
-- The end of `parse` of cpp/database/json_parser.hpp: what its fuel, its cursor and its exceptions do.
mod Scanners
use react_native_salve_db.Prelude.{
  ℕ, zero, suc, ◌+◌, ◌-◌, ◌*◌, ◌≤◌, ◌<◌, Bool, true, false, ◌||◌, List, [], ◌∷◌, ◌++◌, ◌≢◌, arith,
  Bytes, Result, ok, err, runtime_error, out_of_range, invalid_argument, network_failure, no_fuel,
  ◌>>=◌, ◌==◌, if◌then◌else◌, length, drop, length-drop, is_digit, Option, some, none,
}
use react_native_salve_db.OrderedMap.{OrderedMap, assign}
use react_native_salve_db.Json.{Value, null, bool, number}
use react_native_salve_db.Json.Double.{Double}
use react_native_salve_db.Json.Cursor.{
  Cursor, at, peek, advance, skip_ws, expect, string_loop, close_string, parse_string, number_part,
  stod_or_throw, parse_number, unescape,
}
use react_native_salve_db.Json.Parser.{
  open_bracket, parse_key, parse_value, parse_items, parse_members, json_parse, value_of,
  unexpected,
}
use react_native_salve_db.Json.Total.Scanners.{
  Leaves, LeavesCursor, Leaves-bind, LeavesCursor-bind, Leaves-if, Leaves-weaken,
  LeavesCursor-weaken, skip_ws-le, expect-Leaves, parse_string-Leaves, open_bracket-Leaves,
  parse_key-Leaves,
}

module _ {N : Type 0} where
  stod_or_throw-Leaves :
      (o : Option N) (s : Cursor) → Leaves 0 (length s.rest) (stod_or_throw o >>= λ n. ok (n, s))
  unfolding stod_or_throw
  stod_or_throw-Leaves none s = tt
  stod_or_throw-Leaves (some n) s = omega arith

module _ (N : Type 0) ⦃d : Double N⦄ where
  parse_number-Leaves : (s : Cursor) → Leaves 0 (length s.rest) (parse_number {N = N} ⦃d = d⦄ s)
  unfolding parse_number
  parse_number-Leaves s =
      let t = number_part s.rest in
      Leaves-weaken 0 0 _ _ _ (omega (arith, length-drop (length t) s.rest))
        (stod_or_throw-Leaves (d.stod t) (at (drop (length t) s.rest) (s.pos + length t)))

  -- the branches of `parseValue` that need no brackets
  constants :
      (L : ℕ) (s : Cursor)
      → length s.rest ≤ L
      → Leaves {A = Value N} 0 L (
          if peek s == b't'
          then ok (bool true, advance 4 s)
          else if peek s == b'f'
          then ok (bool false, advance 5 s)
          else if peek s == b'n'
          then ok (null, advance 4 s)
          else if peek s == b'-' || is_digit (peek s)
          then (do (n, s₂) ← parse_number {N = N} s; ok (number n, s₂))
          else err (runtime_error (unexpected (peek s) s.pos)))
  constants L s h = Leaves-if 0 L (peek s == b't') _ _ (omega (arith, length-drop 4 s.rest)) (
      Leaves-if 0 L (peek s == b'f') _ _ (omega (arith, length-drop 5 s.rest)) (
        Leaves-if 0 L (peek s == b'n') _ _ (omega (arith, length-drop 4 s.rest)) (
          Leaves-if 0 L (peek s == b'-' || is_digit (peek s)) _ _
            (Leaves-bind 0 0 L (parse_number s) _
              (Leaves-weaken 0 0 _ L (parse_number {N = N} s) (omega arith) (parse_number-Leaves s))
              (λ n s₂ i. omega arith))
            tt)))

  mutual
    unfolding parse_value parse_items parse_members

    parse_value-Leaves :
        (f L : ℕ) (s : Cursor)
        → length s.rest ≤ L
        → 2 * L + 1 ≤ f
        → Leaves 0 L (parse_value {N = N} f s)
    parse_value-Leaves zero L s h c = absurd (omega arith)
    parse_value-Leaves (suc f) L s h c =
        let s₁ = skip_ws s in
        let skipped = skip_ws-le s.rest s.pos in
        let bracket = λ (o e : ℕ) (pos : 0 < o).
          Leaves-weaken 1 1 _ L (open_bracket o e s₁) (omega arith)
            (open_bracket-Leaves o e s₁ pos) in
        Leaves-if 0 L (peek s₁ == b'"') _ _
          (Leaves-bind 1 0 L (parse_string s₁) _
            (Leaves-weaken 1 1 _ L (parse_string s₁) (omega arith) (parse_string-Leaves s₁))
            (λ t s₂ i. omega arith))
          (Leaves-if 0 L (peek s₁ == b'{') _ _
            (Leaves-bind 1 0 L (open_bracket b'{' b'}' s₁) _ (bracket b'{' b'}' (omega arith))
              (λ b s₂ i. Leaves-if 0 L b _ _ (omega arith) (
                Leaves-weaken 0 0 (L - 1) L (parse_members f [] s₂) (omega arith)
                  (parse_members-Leaves f (L - 1) [] s₂ (omega arith) (omega arith)))))
            (Leaves-if 0 L (peek s₁ == b'[') _ _
              (Leaves-bind 1 0 L (open_bracket b'[' b']' s₁) _ (bracket b'[' b']' (omega arith))
                (λ b s₂ i. Leaves-if 0 L b _ _ (omega arith) (
                  Leaves-weaken 0 0 (L - 1) L (parse_items f [] s₂) (omega arith)
                    (parse_items-Leaves f (L - 1) [] s₂ (omega arith) (omega arith)))))
              (constants L s₁ (omega arith))))

    parse_items-Leaves :
        (f L : ℕ) (arr : List (Value N)) (s : Cursor)
        → length s.rest ≤ L
        → 2 * L + 2 ≤ f
        → Leaves 0 L (parse_items f arr s)
    parse_items-Leaves zero L arr s h c = absurd (omega arith)
    parse_items-Leaves (suc f) L arr s h c =
        Leaves-bind 0 0 L (parse_value f (skip_ws s)) _
          (parse_value-Leaves f L (skip_ws s) (omega (arith, skip_ws-le s.rest s.pos))
            (omega arith))
          λ v s₁ i.
            let skipped = skip_ws-le s₁.rest s₁.pos in
            Leaves-if 0 L (peek (skip_ws s₁) == b']') _ _
              (omega (arith, length-drop 1 (skip_ws s₁).rest))
              (LeavesCursor-bind 1 0 L (expect b',' (skip_ws s₁)) _
                (LeavesCursor-weaken _ L (expect b',' (skip_ws s₁)) (omega arith)
                  (expect-Leaves b',' (skip_ws s₁) (omega arith)))
                (λ s₃ j.
                  Leaves-weaken 0 0 (L - 1) L (parse_items f (arr ++ v ∷ []) s₃) (omega arith)
                    (parse_items-Leaves f (L - 1) (arr ++ v ∷ []) s₃ (omega arith) (omega arith))))

    parse_members-Leaves :
        (f L : ℕ) (obj : OrderedMap (Value N)) (s : Cursor)
        → length s.rest ≤ L
        → 2 * L + 2 ≤ f
        → Leaves 0 L (parse_members f obj s)
    parse_members-Leaves zero L obj s h c = absurd (omega arith)
    parse_members-Leaves (suc f) L obj s h c =
        Leaves-bind 1 0 L (parse_key s) _
          (Leaves-weaken 1 1 _ L (parse_key s) (omega arith) (parse_key-Leaves s))
          λ k s₁ i.
            Leaves-bind 0 0 L (parse_value f s₁) _
              (parse_value-Leaves f L s₁ (omega arith) (omega arith))
              λ v s₂ j.
                let skipped = skip_ws-le s₂.rest s₂.pos in
                Leaves-if 0 L (peek (skip_ws s₂) == b'}') _ _
                  (omega (arith, length-drop 1 (skip_ws s₂).rest))
                  (LeavesCursor-bind 1 0 L (expect b',' (skip_ws s₂)) _
                    (LeavesCursor-weaken _ L (expect b',' (skip_ws s₂)) (omega arith)
                      (expect-Leaves b',' (skip_ws s₂) (omega arith)))
                    (λ s₄ l.
                      Leaves-weaken 0 0 (L - 1) L (parse_members f (assign k v obj) s₄)
                        (omega arith)
                        (parse_members-Leaves f (L - 1) (assign k v obj) s₄ (omega arith)
                          (omega arith))))

  no_fuel_left :
      (L : ℕ) (r : Result (Value N × Cursor))
      → Leaves 0 L r
      → (r >>= λ x. ok (value_of x)) ≢ err no_fuel
  no_fuel_left L (ok (v, s)) h e = cc
  no_fuel_left L (err no_fuel) h e = h
  no_fuel_left L (err (runtime_error m)) h e = cc
  no_fuel_left L (err (out_of_range m)) h e = cc
  no_fuel_left L (err (invalid_argument m)) h e = cc
  no_fuel_left L (err (network_failure m)) h e = cc

  -- `parse` comes to an end on every text: the fuel of the model, twice the length and one, never
  -- runs out, so the outcome is the value or the exception of the source.
  pub json_parse-ne-no_fuel : (src : Bytes) → json_parse {N = N} src ≢ err no_fuel
  unfolding json_parse
  json_parse-ne-no_fuel src =
      let L = length src in
      no_fuel_left L (parse_value (2 * L + 1) (at src 0))
        (parse_value-Leaves (2 * L + 1) L (at src 0) (omega arith) (omega arith))
