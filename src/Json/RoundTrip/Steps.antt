-- ===== src/Json/RoundTrip/Steps.antt =====
-- One round of each loop of the parser of cpp/database/json_parser.hpp, from what it reads first.
use react_native_salve_db.Prelude.{
  ℕ, zero, suc, ◌+◌, true, false, List, [], ◌∷◌, ◌++◌, ◌≡◌, refl, arith, text, is_digit, Bytes, ok,
  ◌==◌,
}
use react_native_salve_db.OrderedMap.{OrderedMap, assign}
use react_native_salve_db.Json.{
  Value, null, bool, number, string, array, nil, end, object, of_elements, of_entries,
}
use react_native_salve_db.Json.Double.{Double}
use react_native_salve_db.Json.Cursor.{
  Cursor, at, skip_ws, is_space, expect, parse_string, parse_number,
}
use react_native_salve_db.Json.Parser.{
  open_bracket, parse_key, parse_value, parse_items, parse_members,
}
use react_native_salve_db.Json.Printer.{stringify_string}
use react_native_salve_db.Json.RoundTrip.Numbers.{starts_number}
use react_native_salve_db.Json.RoundTrip.Strings.{IsPlain, parse_string-stringify_string}

skip_ws_idem : (r : Bytes) (p : ℕ) → skip_ws (skip_ws (at r p)) ≡ skip_ws (at r p)
unfolding skip_ws
skip_ws_idem [] p = refl
skip_ws_idem (c ∷ cs) p = ground (arith, skip_ws_idem cs (p + 1))

pub parse_key-stringify_string :
    (k u : Bytes) (p : ℕ)
    → IsPlain k
    → (q : ℕ) × (parse_key (at (stringify_string k ++ (b':' ∷ u)) p) ≡ ok (k, skip_ws (at u q)))
unfolding parse_key stringify_string expect skip_ws
parse_key-stringify_string k u p h =
    let (q, e) = parse_string-stringify_string k (b':' ∷ u) p h in (q + 1, rw e)

pub number_is_not_space : (c : ℕ) → starts_number c ≡ true → is_space c ≡ false
unfolding is_digit is_space
number_is_not_space c h = ground arith

module _ {N : Type 0} ⦃d : Double N⦄ where
  pub parse_value-skip_ws :
      (f : ℕ) (u : Bytes) (p : ℕ)
      → parse_value {N = N} f (skip_ws (at u p)) ≡ parse_value f (at u p)
  unfolding parse_value
  parse_value-skip_ws zero u p = refl
  parse_value-skip_ws (suc f) u p = rw (skip_ws_idem u p)

  pub parse_value-array :
      (f c : ℕ) (u : Bytes) (p : ℕ)
      → is_space c ≡ false
      → (c == b']') ≡ false
      → parse_value {N = N} (suc f) (at (b'[' ∷ c ∷ u) p) ≡ parse_items f [] (at (c ∷ u) (p + 1))
  unfolding parse_value open_bracket skip_ws expect
  parse_value-array f c u p h e = rw h (rw e)

  pub parse_value-object :
      (f : ℕ) (u : Bytes) (p : ℕ)
      → parse_value {N = N} (suc f) (at (b'{' ∷ b'"' ∷ u) p)
        ≡ parse_members f [] (at (b'"' ∷ u) (p + 1))
  unfolding parse_value open_bracket skip_ws expect
  parse_value-object f u p = refl

  pub parse_value-number :
      (f c : ℕ) (u : Bytes) (p : ℕ) {n : N} {s : Cursor}
      → starts_number c ≡ true
      → parse_number (at (c ∷ u) p) ≡ ok (n, s)
      → parse_value (suc f) (at (c ∷ u) p) ≡ ok (number n, s)
  unfolding parse_value skip_ws is_digit
  parse_value-number f c u p h e = rw (number_is_not_space c h) (ground arith)

  pub parse_value-string :
      (f : ℕ) (u : Bytes) (p : ℕ) {t : Bytes} {s : Cursor}
      → parse_string (at (b'"' ∷ u) p) ≡ ok (t, s)
      → parse_value {N = N} (suc f) (at (b'"' ∷ u) p) ≡ ok (string t, s)
  unfolding parse_value skip_ws
  parse_value-string f u p e = rw e

  -- the texts that need no scanner
  pub parse_value_constants :
      (f p : ℕ) (r : Bytes)
      → (parse_value {N = N} (suc f) (at (text "null" ++ r) p) ≡ ok (null, at r (p + 4)))
        × (parse_value {N = N} (suc f) (at (text "true" ++ r) p) ≡ ok (bool true, at r (p + 4)))
        × (parse_value {N = N} (suc f) (at (text "false" ++ r) p) ≡ ok (bool false, at r (p + 5)))
        × (parse_value {N = N} (suc f) (at (text "[]" ++ r) p) ≡ ok (array nil, at r (p + 1 + 1)))
        × (parse_value {N = N} (suc f) (at (text "{}" ++ r) p) ≡ ok (object end, at r (p + 1 + 1)))
  unfolding parse_value skip_ws text open_bracket expect
  parse_value_constants f p r = (refl, refl, refl, refl, refl)

  pub parse_items_last :
      (f : ℕ) (arr : List (Value N)) (u r : Bytes) (p q : ℕ) {v : Value N}
      → parse_value f (at u p) ≡ ok (v, at (b']' ∷ r) q)
      → parse_items (suc f) arr (at u p) ≡ ok (array (of_elements (arr ++ v ∷ [])), at r (q + 1))
  unfolding parse_items skip_ws
  parse_items_last f arr u r p q e = rw (parse_value-skip_ws f u p) (rw e)

  pub parse_items_more :
      (f : ℕ) (arr : List (Value N)) (u r : Bytes) (p q : ℕ) {v : Value N}
      → parse_value f (at u p) ≡ ok (v, at (b',' ∷ r) q)
      → parse_items (suc f) arr (at u p) ≡ parse_items f (arr ++ v ∷ []) (at r (q + 1))
  unfolding parse_items skip_ws expect
  parse_items_more f arr u r p q e = rw (parse_value-skip_ws f u p) (rw e)

  module _ (f : ℕ) (obj : OrderedMap (Value N)) (k u r : Bytes) (s : Cursor) (p q : ℕ) {v : Value N}
      (key : parse_key s ≡ ok (k, skip_ws (at u p))) where
    pub parse_members_last :
        parse_value f (at u p) ≡ ok (v, at (b'}' ∷ r) q)
        → parse_members (suc f) obj s ≡ ok (object (of_entries (assign k v obj)), at r (q + 1))
    unfolding parse_members skip_ws
    parse_members_last e = rw key (rw (parse_value-skip_ws f u p) (rw e))

    pub parse_members_more :
        parse_value f (at u p) ≡ ok (v, at (b',' ∷ r) q)
        → parse_members (suc f) obj s ≡ parse_members f (assign k v obj) (at r (q + 1))
    unfolding parse_members skip_ws expect
    parse_members_more e = rw key (rw (parse_value-skip_ws f u p) (rw e))
