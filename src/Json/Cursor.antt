-- ===== src/Json/Cursor.antt =====
-- json_parser.hpp, class Parser below `parseValue`: the reading position and the scanners of
-- white space, text and numbers. `rest` is what lies at and after `_pos`; past the end it is empty.
use react_native_salve_db.Prelude.{
  ℕ, ◌+◌, Bool, ◌&&◌, ◌||◌, [], ◌∷◌, ◌++◌, Bytes, text, Result, ok, err, runtime_error,
  invalid_argument, ◌>>=◌, ◌==◌, leb, if◌then◌else◌, length, drop, decimal, leading_digits, Option,
  none, some,
}
use react_native_salve_db.Json.Double.{Double}

pub record Cursor : Type 0 where
  pub rest : Bytes
  pub pos : ℕ

abbrev pub at : Bytes → ℕ → Cursor
at r p = record { rest = r; pos = p }

-- `std::isspace`
unfoldable pub is_space : ℕ → Bool
is_space c = c == 32 || leb 9 c && leb c 13

abbrev pub head_or_zero : Bytes → ℕ
head_or_zero [] = 0
head_or_zero (c ∷ cs) = c

-- `peek`: the terminator past the end
abbrev pub peek : Cursor → ℕ
peek s = head_or_zero s.rest

-- `_pos += n`
abbrev pub advance : ℕ → Cursor → Cursor
advance n s = at (drop n s.rest) (s.pos + n)

skip_from : Bytes → ℕ → Cursor
skip_from [] p = at [] p
skip_from (c ∷ cs) p = let more = skip_from cs (p + 1) in if is_space c then more else at (c ∷ cs) p

-- `skipWS`
unfoldable pub skip_ws : Cursor → Cursor
unfolding skip_from is_space
skip_ws s = skip_from s.rest s.pos

unfoldable pub expected : ℕ → ℕ → Bytes
expected c p = text "JSON parse error: expected '" ++ c ∷ text "' at pos " ++ decimal p

unfoldable pub expect : ℕ → Cursor → Result Cursor
expect c s = if peek s == c then ok (advance 1 s) else err (runtime_error (expected c s.pos))

-- what a backslash and `esc` stand for
unfoldable pub unescape : ℕ → ℕ
unescape esc =
    if esc == b'n'
    then 10
    else if esc == b'r'
    then 13
    else if esc == b't'
    then 9
    else if esc == b'b'
    then 8
    else if esc == b'f'
    then 12
    else esc

-- The loop of `parseString`: up to a quote or the end. A backslash at the very end takes the
-- terminator for its escaped character.
unfoldable pub string_loop : Bytes → Bytes → ℕ → Bytes × Cursor
unfolding unescape
string_loop result [] p = (result, at [] p)
string_loop result (c ∷ []) p =
    if c == b'"'
    then (result, at (c ∷ []) p)
    else if c == b'\\'
    then (result ++ unescape 0 ∷ [], at [] (p + 2))
    else (result ++ c ∷ [], at [] (p + 1))
string_loop result (c ∷ esc ∷ cs) p =
    let escaped = string_loop (result ++ unescape esc ∷ []) cs (p + 2) in
    let plain = string_loop (result ++ c ∷ []) (esc ∷ cs) (p + 1) in
    if c == b'"' then (result, at (c ∷ esc ∷ cs) p) else if c == b'\\' then escaped else plain

unfoldable pub close_string : Bytes × Cursor → Result (Bytes × Cursor)
close_string (result, s) = do s' ← expect b'"' s; ok (result, s')

unfoldable pub parse_string : Cursor → Result (Bytes × Cursor)
parse_string s = do s' ← expect b'"' s; close_string (string_loop [] s'.rest s'.pos)

-- The parts that `parseNumber` steps over, each in front of what is left.
unfoldable pub minus_part : Bytes → Bytes
minus_part [] = []
minus_part (c ∷ cs) = if c == b'-' then c ∷ [] else []

unfoldable pub sign_part : Bytes → Bytes
sign_part [] = []
sign_part (c ∷ cs) = if c == b'+' || c == b'-' then c ∷ [] else []

unfoldable pub fraction_part : Bytes → Bytes
unfolding leading_digits
fraction_part [] = []
fraction_part (c ∷ cs) = if c == b'.' then c ∷ leading_digits cs else []

unfoldable pub exponent_part : Bytes → Bytes
unfolding leading_digits sign_part
exponent_part [] = []
exponent_part (c ∷ cs) =
    if c == b'e' || c == b'E'
    then (let sign = sign_part cs in c ∷ (sign ++ leading_digits (drop (length sign) cs)))
    else []

-- the text between `start` and `_pos`
unfoldable pub number_part : Bytes → Bytes
unfolding minus_part fraction_part exponent_part
number_part s =
    let a = minus_part s in
    let s₁ = drop (length a) s in
    let b = leading_digits s₁ in
    let s₂ = drop (length b) s₁ in
    let c = fraction_part s₂ in a ++ (b ++ (c ++ exponent_part (drop (length c) s₂)))

unfoldable pub stod_or_throw {ℓ} : {N : Type ℓ} → Option N → Result N
stod_or_throw none = err (invalid_argument (text "stod"))
stod_or_throw (some n) = ok n

module _ {N : Type 0} ⦃d : Double N⦄ where
  unfoldable pub parse_number : Cursor → Result (N × Cursor)
  parse_number s =
      let t = number_part s.rest in do n ← stod_or_throw (d.stod t); ok (n, advance (length t) s)
