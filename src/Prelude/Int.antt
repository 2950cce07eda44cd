-- ===== src/Prelude/Int.antt =====
-- Signed 64-bit values as integers, their decimal text (`std::to_string`) and its reading back.
use Prim.Native.Nat.{ℕ, zero, suc, ◌+◌, ◌-◌, ◌*◌, ◌/◌, ◌%◌, ◌≤◌, ◌<◌}
use mathlib.Core.Path.{◌≡◌, refl}
use mathlib.Core.Bool.{Bool, true, false, ◌&&◌}
use mathlib.Core.List.{[], ◌∷◌}
use native.Mathlib.Omega.{arith}
use react_native_salve_db.Prelude.Tests.{ltb, leb, ◌==◌, if◌then◌else◌}
use react_native_salve_db.Prelude.Lists.{is_empty}
use react_native_salve_db.Prelude.Text.{Bytes}

-- `negsuc n` is -(n + 1).
pub data ℤ : Type 0 where
  pos : ℕ → ℤ
  negsuc : ℕ → ℤ

abbrev pub pos_part : ℤ → ℕ
pos_part (pos n) = n
pos_part (negsuc n) = 0

abbrev pub neg_part : ℤ → ℕ
neg_part (pos n) = 0
neg_part (negsuc n) = suc n

infix 50 ◌<ℤ◌
abbrev pub ◌<ℤ◌ : ℤ → ℤ → Type 0
a <ℤ b = pos_part a + neg_part b < pos_part b + neg_part a

infix 50 ◌≤ℤ◌
abbrev pub ◌≤ℤ◌ : ℤ → ℤ → Type 0
a ≤ℤ b = pos_part a + neg_part b ≤ pos_part b + neg_part a

abbrev pub ltb_ℤ : ℤ → ℤ → Bool
ltb_ℤ a b = ltb (pos_part a + neg_part b) (pos_part b + neg_part a)

abbrev pub eq_ℤ : ℤ → ℤ → Bool
eq_ℤ (pos m) (pos n) = m == n
eq_ℤ (negsuc m) (negsuc n) = m == n
eq_ℤ _ _ = false

-- z - 1
abbrev pub pred_ℤ : ℤ → ℤ
pred_ℤ (pos zero) = negsuc 0
pred_ℤ (pos (suc n)) = pos n
pred_ℤ (negsuc n) = negsuc (suc n)

unfoldable pub is_digit : ℕ → Bool
is_digit c = leb b'0' c && leb c b'9'

-- The digits of `n`, before those of `acc`. The fuel bounds the number of digits.
digits_onto : ℕ → ℕ → Bytes → Bytes
digits_onto zero n acc = acc
digits_onto (suc fuel) n acc =
    let more = digits_onto fuel (n / 10) ((b'0' + n % 10) ∷ acc) in
    if ltb n 10 then (b'0' + n) ∷ acc else more

unfoldable pub decimal : ℕ → Bytes
unfolding digits_onto
decimal n = digits_onto (suc n) n []

-- the value of a run of digits, read after a number
unfoldable pub digits_value : ℕ → Bytes → ℕ
digits_value n [] = n
digits_value n (c ∷ cs) = digits_value (n * 10 + (c - b'0')) cs

unfoldable pub all_digits : Bytes → Bool
all_digits [] = true
all_digits (c ∷ cs) = is_digit c && all_digits cs

digits_onto-all_digits :
    (fuel n : ℕ) (acc : Bytes) → all_digits acc ≡ true → all_digits (digits_onto fuel n acc) ≡ true
unfolding digits_onto all_digits is_digit
digits_onto-all_digits zero n acc h = h
digits_onto-all_digits (suc fuel) n acc h =
    ground (arith, digits_onto-all_digits fuel (n / 10) ((b'0' + n % 10) ∷ acc))

digits_onto-value :
    (fuel n : ℕ) (acc : Bytes)
    → n < fuel
    → digits_value 0 (digits_onto fuel n acc) ≡ digits_value n acc
unfolding digits_onto digits_value
digits_onto-value zero n acc h = elim h [ ]
digits_onto-value (suc fuel) n acc h =
    ground (arith, digits_onto-value fuel (n / 10) ((b'0' + n % 10) ∷ acc))

digits_onto-ne-nil :
    (fuel n : ℕ) (acc : Bytes) → n < fuel → is_empty (digits_onto fuel n acc) ≡ false
unfolding digits_onto
digits_onto-ne-nil zero n acc h = elim h [ ]
digits_onto-ne-nil (suc fuel) n acc h =
    ground (arith, digits_onto-ne-nil fuel (n / 10) ((b'0' + n % 10) ∷ acc))

-- `std::to_string` of a signed integer
unfoldable pub int_text : ℤ → Bytes
unfolding decimal
int_text (pos n) = decimal n
int_text (negsuc n) = b'-' ∷ decimal (suc n)

pub decimal-all_digits : (n : ℕ) → all_digits (decimal n) ≡ true
unfolding decimal all_digits
decimal-all_digits n = digits_onto-all_digits (suc n) n [] refl

pub decimal-value : (n : ℕ) → digits_value 0 (decimal n) ≡ n
unfolding decimal digits_value
decimal-value n = digits_onto-value (suc n) n [] (omega arith)

pub decimal-ne-nil : (n : ℕ) → is_empty (decimal n) ≡ false
unfolding decimal
decimal-ne-nil n = digits_onto-ne-nil (suc n) n [] (omega arith)

-- The longest run of digits in front of a text.
unfoldable pub leading_digits : Bytes → Bytes
leading_digits [] = []
leading_digits (c ∷ cs) = if is_digit c then c ∷ leading_digits cs else []

pub leading_digits-all_digits : (s : Bytes) → all_digits s ≡ true → leading_digits s ≡ s
unfolding leading_digits all_digits
leading_digits-all_digits [] h = refl
leading_digits-all_digits (c ∷ cs) h = ground (arith, leading_digits-all_digits cs)
