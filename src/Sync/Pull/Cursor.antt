-- ===== src/Sync/Pull/Cursor.antt =====
-- `parseCursor` of cpp/sync/SyncPullPhase.cpp and the `std::stoll` that it calls.
use react_native_salve_db.Prelude.{
  ◌≡◌, refl, ℕ, zero, suc, ◌-◌, ◌^◌, ◌≤◌, ◌<◌, Bool, true, false, ◌&&◌, ◌||◌, [], ◌∷◌, Option, none,
  some, Bytes, ℤ, pos, negsuc, pos_part, neg_part, is_digit, all_digits, decimal, int_text,
  digits_value, leading_digits, decimal-all_digits, decimal-value, decimal-ne-nil,
  leading_digits-all_digits, ◌==◌, leb, ltb, if◌then◌else◌, is_empty, arith,
}

abbrev is_c_space : ℕ → Bool
is_c_space c = c == 32 || leb 9 c && leb c 13

unfoldable pub skip_spaces : Bytes → Bytes
skip_spaces [] = []
skip_spaces (c ∷ cs) = if is_c_space c then skip_spaces cs else c ∷ cs

abbrev negated : ℕ → ℤ
negated zero = pos zero
negated (suc n) = negsuc n

-- the number of a run of digits, where there is one and it is at most `bound`
unfoldable pub magnitude : ℕ → Bytes → Option ℕ
magnitude bound s =
    let digits = leading_digits s in
    let n = digits_value 0 digits in if is_empty digits || ltb bound n then none else some n

abbrev map_option : (ℕ → ℤ) → Option ℕ → Option ℤ
map_option f none = none
map_option f (some n) = some (f n)

abbrev signed : Bytes → Option ℤ
signed [] = none
signed (c ∷ cs) =
    if c == b'-'
    then map_option negated (magnitude (2 ^ 63) cs)
    else map_option pos (magnitude (2 ^ 63 - 1) (if c == b'+' then cs else c ∷ cs))

-- `std::stoll`; `none` where it throws
unfoldable pub stoll : Bytes → Option ℤ
stoll s = signed (skip_spaces s)

abbrev value_or_zero : Option ℤ → ℤ
value_or_zero none = pos 0
value_or_zero (some z) = z

-- `parseCursor`
unfoldable pub parse_cursor : Option Bytes → ℤ
parse_cursor none = pos 0
parse_cursor (some stored) = value_or_zero (stoll stored)

-- an int64_t
abbrev pub IsInt64 : ℤ → Type 0
IsInt64 z = (pos_part z < 2 ^ 63) × (neg_part z ≤ 2 ^ 63)

magnitude-decimal : (bound n : ℕ) → n ≤ bound → magnitude bound (decimal n) ≡ some n
unfolding magnitude
magnitude-decimal bound n h =
    rw
      (
        leading_digits-all_digits (decimal n) (decimal-all_digits n),
        decimal-ne-nil n,
        decimal-value n,
      )
      (ground arith)

digit_first :
    (s : Bytes)
    → all_digits s ≡ true
    → is_empty s ≡ false
    → (c : ℕ) × (cs : Bytes) × (s ≡ c ∷ cs) × (is_digit c ≡ true)
unfolding all_digits
digit_first [] h e = cc
digit_first (c ∷ cs) h e = (c, cs, refl, ground arith)

signed-digits :
    (s : Bytes)
    → all_digits s ≡ true
    → is_empty s ≡ false
    → stoll s ≡ map_option pos (magnitude (2 ^ 63 - 1) s)
unfolding all_digits stoll skip_spaces is_digit
signed-digits [] h e = cc
signed-digits (c ∷ cs) h e = ground arith

stoll-minus : (s : Bytes) → stoll (b'-' ∷ s) ≡ map_option negated (magnitude (2 ^ 63) s)
unfolding stoll skip_spaces
stoll-minus s = refl

-- The text of a cursor that was saved is read back as that cursor, for every int64_t.
pub parse_cursor-int_text : (z : ℤ) → IsInt64 z → parse_cursor (some (int_text z)) ≡ z
unfolding parse_cursor int_text
parse_cursor-int_text (pos n) h =
    rw (signed-digits (decimal n) (decimal-all_digits n) (decimal-ne-nil n))
      (rw (magnitude-decimal (2 ^ 63 - 1) n (omega arith)) refl)
parse_cursor-int_text (negsuc n) h =
    rw (stoll-minus (decimal (suc n))) (rw (magnitude-decimal (2 ^ 63) (suc n) (omega arith)) refl)
