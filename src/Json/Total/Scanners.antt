-- ===== src/Json/Total/Scanners.antt =====
-- What the scanners of cpp/database/json_parser.hpp leave of a text.
use react_native_salve_db.Prelude.{
  ℕ, ◌+◌, ◌≤◌, ◌<◌, Bool, true, false, [], ◌∷◌, ◌++◌, arith, Bytes, Result, ok, err, runtime_error,
  out_of_range, invalid_argument, network_failure, no_fuel, ◌>>=◌, ◌==◌, if◌then◌else◌, length,
  length-drop,
}
use react_native_salve_db.Json.Cursor.{
  Cursor, at, peek, skip_ws, expect, string_loop, close_string, parse_string, unescape,
}
use react_native_salve_db.Json.Parser.{open_bracket, parse_key}

-- The call has fuel enough, and if it returns it leaves at most `L - k` bytes.
abbrev pub Leaves {ℓ} : {A : Type ℓ} → ℕ → ℕ → Result (A × Cursor) → Type 0
Leaves k L (ok (a, s)) = length s.rest + k ≤ L
Leaves k L (err no_fuel) = ⊥
Leaves k L (err _) = Unit

abbrev pub LeavesCursor : ℕ → ℕ → Result Cursor → Type 0
LeavesCursor k L (ok s) = length s.rest + k ≤ L
LeavesCursor k L (err no_fuel) = ⊥
LeavesCursor k L (err _) = Unit

module _ {ℓ κ} {A : Type ℓ} {B : Type κ} where
  pub Leaves-bind :
      (j k L : ℕ) (m : Result (A × Cursor)) (f : A × Cursor → Result (B × Cursor))
      → Leaves j L m
      → ((a : A) (s : Cursor) → length s.rest + j ≤ L → Leaves k L (f (a, s)))
      → Leaves k L (m >>= f)
  Leaves-bind j k L (ok (a, s)) f h g = g a s h
  Leaves-bind j k L (err no_fuel) f h g = h
  Leaves-bind j k L (err (runtime_error m)) f h g = tt
  Leaves-bind j k L (err (out_of_range m)) f h g = tt
  Leaves-bind j k L (err (invalid_argument m)) f h g = tt
  Leaves-bind j k L (err (network_failure m)) f h g = tt

module _ {ℓ} {B : Type ℓ} where
  pub LeavesCursor-bind :
      (j k L : ℕ) (m : Result Cursor) (f : Cursor → Result (B × Cursor))
      → LeavesCursor j L m
      → ((s : Cursor) → length s.rest + j ≤ L → Leaves k L (f s))
      → Leaves k L (m >>= f)
  LeavesCursor-bind j k L (ok s) f h g = g s h
  LeavesCursor-bind j k L (err no_fuel) f h g = h
  LeavesCursor-bind j k L (err (runtime_error m)) f h g = tt
  LeavesCursor-bind j k L (err (out_of_range m)) f h g = tt
  LeavesCursor-bind j k L (err (invalid_argument m)) f h g = tt
  LeavesCursor-bind j k L (err (network_failure m)) f h g = tt

  pub Leaves-if :
      (k L : ℕ) (b : Bool) (x y : Result (B × Cursor))
      → Leaves k L x
      → Leaves k L y
      → Leaves k L (if b then x else y)
  Leaves-if k L true x y hx hy = hx
  Leaves-if k L false x y hx hy = hy

  pub Leaves-weaken :
      (j k L M : ℕ) (r : Result (B × Cursor)) → L + k ≤ M + j → Leaves j L r → Leaves k M r
  Leaves-weaken j k L M (ok (a, s)) h w = omega arith
  Leaves-weaken j k L M (err no_fuel) h w = w
  Leaves-weaken j k L M (err (runtime_error m)) h w = tt
  Leaves-weaken j k L M (err (out_of_range m)) h w = tt
  Leaves-weaken j k L M (err (invalid_argument m)) h w = tt
  Leaves-weaken j k L M (err (network_failure m)) h w = tt

pub LeavesCursor-weaken :
    (L M : ℕ) (r : Result Cursor) → L ≤ M → LeavesCursor 1 L r → LeavesCursor 1 M r
LeavesCursor-weaken L M (ok s) h w = omega arith
LeavesCursor-weaken L M (err no_fuel) h w = w
LeavesCursor-weaken L M (err (runtime_error m)) h w = tt
LeavesCursor-weaken L M (err (out_of_range m)) h w = tt
LeavesCursor-weaken L M (err (invalid_argument m)) h w = tt
LeavesCursor-weaken L M (err (network_failure m)) h w = tt

pub skip_ws-le : (r : Bytes) (p : ℕ) → length (skip_ws (at r p)).rest ≤ length r
unfolding skip_ws
skip_ws-le [] p = omega arith
skip_ws-le (c ∷ cs) p = ground (arith, skip_ws-le cs (p + 1))

pub expect-Leaves : (c : ℕ) (s : Cursor) → 0 < c → LeavesCursor 1 (length s.rest) (expect c s)
unfolding expect
expect-Leaves c s h = go s.rest
  where
    go : (r : Bytes) → LeavesCursor 1 (length r) (expect c (at r s.pos))
    go [] = ground arith
    go (x ∷ r) = ground arith

string_loop-le : (r acc : Bytes) (p : ℕ) → length (string_loop acc r p).1.rest ≤ length r
unfolding string_loop
string_loop-le [] acc p = omega arith
string_loop-le (c ∷ []) acc p = ground arith
string_loop-le (c ∷ e ∷ r) acc p = ground (
  arith,
  string_loop-le r (acc ++ unescape e ∷ []) (p + 2),
  string_loop-le (e ∷ r) (acc ++ c ∷ []) (p + 1),
)

close_string-Leaves : (r : Bytes × Cursor) → Leaves 1 (length r.1.rest) (close_string r)
unfolding close_string
close_string-Leaves (t, s) =
    LeavesCursor-bind 1 1 (length s.rest) (expect b'"' s) _ (expect-Leaves b'"' s (omega arith))
      (λ s' h. h)

pub parse_string-Leaves : (s : Cursor) → Leaves 1 (length s.rest) (parse_string s)
unfolding parse_string
parse_string-Leaves s =
    LeavesCursor-bind 1 1 (length s.rest) (expect b'"' s) _ (expect-Leaves b'"' s (omega arith))
      λ s' h.
        Leaves-weaken 1 1 _ _ (close_string (string_loop [] s'.rest s'.pos))
          (omega (arith, string_loop-le s'.rest [] s'.pos))
          (close_string-Leaves (string_loop [] s'.rest s'.pos))

pub open_bracket-Leaves :
    (o c : ℕ) (s : Cursor) → 0 < o → Leaves 1 (length s.rest) (open_bracket o c s)
unfolding open_bracket
open_bracket-Leaves o c s h =
    LeavesCursor-bind 1 1 (length s.rest) (expect o s) _ (expect-Leaves o s h) λ s₁ i.
      Leaves-if 1 _ (peek (skip_ws s₁) == c) _ _
        (omega (arith, skip_ws-le s₁.rest s₁.pos, length-drop 1 (skip_ws s₁).rest))
        (omega (arith, skip_ws-le s₁.rest s₁.pos))

pub parse_key-Leaves : (s : Cursor) → Leaves 1 (length s.rest) (parse_key s)
unfolding parse_key
parse_key-Leaves s =
    Leaves-bind 1 1 (length s.rest) (parse_string (skip_ws s)) _
      (Leaves-weaken 1 1 _ _ (parse_string (skip_ws s)) (omega (arith, skip_ws-le s.rest s.pos))
        (parse_string-Leaves (skip_ws s)))
      λ k s₁ i.
        LeavesCursor-bind 1 1 (length s.rest) (expect b':' (skip_ws s₁)) _
          (LeavesCursor-weaken _ _ (expect b':' (skip_ws s₁))
            (omega (arith, skip_ws-le s₁.rest s₁.pos))
            (expect-Leaves b':' (skip_ws s₁) (omega arith)))
          λ s₂ j. omega (arith, skip_ws-le s₂.rest s₂.pos)
