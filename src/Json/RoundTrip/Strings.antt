-- ===== src/Json/RoundTrip/Strings.antt =====
-- `parseString` of cpp/database/json_parser.hpp on the output of `stringifyString`.
use react_native_salve_db.Prelude.{
  ℕ, ◌+◌, Bool, true, not, ◌||◌, [], ◌∷◌, ◌++◌, ◌≡◌, refl, ◌∙◌, arith, Bytes, ok, ◌==◌, ltb, All,
  length, append_assoc, append-nil,
}
use react_native_salve_db.Json.Cursor.{at, expect, string_loop, close_string, parse_string}
use react_native_salve_db.Json.Printer.{escape_byte, escape, stringify_string}

-- The bytes that the two agree on: no control character but the five with a letter of their own.
unfoldable pub is_plain : ℕ → Bool
is_plain c = not (ltb c 32) || c == 10 || c == 13 || c == 9 || c == 8 || c == 12

abbrev pub IsPlain : Bytes → Type 0
IsPlain = All (λ c. is_plain c ≡ true)

string_loop-escape_byte :
    (c x : ℕ) (acc t : Bytes) (p : ℕ)
    → is_plain c ≡ true
    → string_loop acc (escape_byte c ++ (x ∷ t)) p
      ≡ string_loop (acc ++ c ∷ []) (x ∷ t) (p + length (escape_byte c))
unfolding is_plain escape_byte string_loop
string_loop-escape_byte c x acc t p h = ground arith

escape_byte-cons : (c : ℕ) (t : Bytes) → (x : ℕ) × (u : Bytes) × (escape_byte c ++ t ≡ x ∷ u)
escape_byte-cons c t = go (escape_byte c) (ne c)
  where
    ne : (d : ℕ) → escape_byte d ≡ [] → ⊥
    ne d = unfold escape_byte in ground arith

    go : (b : Bytes) → (b ≡ [] → ⊥) → (x : ℕ) × (u : Bytes) × (b ++ t ≡ x ∷ u)
    go [] n = absurd (n refl)
    go (x ∷ b) n = (x, b ++ t, refl)

pub escape-cons : (s r : Bytes) → (x : ℕ) × (u : Bytes) × (escape s ++ (b'"' ∷ r) ≡ x ∷ u)
unfolding escape
escape-cons [] r = (b'"', r, refl)
escape-cons (c ∷ cs) r =
    let (x, u, e) = escape_byte-cons c (escape cs ++ (b'"' ∷ r)) in
    (x, u, append_assoc (escape_byte c) (escape cs) (b'"' ∷ r) ∙ e)

string_loop_quote : (acc r : Bytes) (p : ℕ) → string_loop acc (b'"' ∷ r) p ≡ (acc, at (b'"' ∷ r) p)
unfolding string_loop
string_loop_quote acc [] p = refl
string_loop_quote acc (c ∷ r) p = refl

pub string_loop-escape :
    (s r acc : Bytes) (p : ℕ)
    → IsPlain s
    → (q : ℕ) × (string_loop acc (escape s ++ (b'"' ∷ r)) p ≡ (acc ++ s, at (b'"' ∷ r) q))
unfolding escape
string_loop-escape [] r acc p h = (p, rw append-nil (string_loop_quote acc r p))
string_loop-escape (c ∷ cs) r acc p h =
    let (x, u, e) = escape-cons cs r in
    let (q, later) = string_loop-escape cs r (acc ++ c ∷ []) (p + length (escape_byte c)) h.1 in
    (
      q,
      rw (append_assoc (escape_byte c) (escape cs) (b'"' ∷ r))
          (rw e (string_loop-escape_byte c x acc u p h.0 ∙ rw e at later ∙ rw append_assoc)),
    )

pub parse_string-stringify_string :
    (s r : Bytes) (p : ℕ)
    → IsPlain s
    → (q : ℕ) × (parse_string (at (stringify_string s ++ r) p) ≡ ok (s, at r q))
unfolding parse_string stringify_string close_string expect
parse_string-stringify_string s r p h =
    let (q, e) = string_loop-escape s r [] (p + 1) h in
    (q + 1, rw (append_assoc (escape s) (b'"' ∷ []) r) (rw e))
