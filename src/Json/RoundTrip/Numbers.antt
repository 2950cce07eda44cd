-- ===== src/Json/RoundTrip/Numbers.antt =====
-- `parseNumber` of cpp/database/json_parser.hpp on the texts of numbers.
use react_native_salve_db.Prelude.{
  ℕ, ◌+◌, Bool, true, false, not, ◌||◌, [], ◌∷◌, ◌++◌, ◌≡◌, refl, ◌∙◌, ap, arith, ◌⊎◌, inl, inr,
  Bytes, ok, ◌==◌, length, drop, is_empty, append_assoc, is_digit, all_digits, leading_digits, some,
}
use react_native_salve_db.Json.Double.{Double}
use react_native_salve_db.Json.Cursor.{
  at, head_or_zero, minus_part, sign_part, fraction_part, exponent_part, number_part, stod_or_throw,
  parse_number,
}
use react_native_salve_db.Json.Printer.{stringify_number}

-- The texts of numbers: an optional minus, digits, and perhaps a fraction and an exponent.
pub record Numeral : Type 0 where
  pub minus : Bytes
  pub whole : Bytes
  pub fraction : Bytes
  pub exponent : Bytes

abbrev pub numeral_text : Numeral → Bytes
numeral_text m = m.minus ++ (m.whole ++ (m.fraction ++ m.exponent))

abbrev pub Digits : Bytes → Type 0
Digits s = (is_empty s ≡ false) × (all_digits s ≡ true)

pub record IsNumeral (m : Numeral) : Type 0 where
  pub minus : (m.minus ≡ []) ⊎ (m.minus ≡ b'-' ∷ [])
  pub whole : Digits m.whole
  pub fraction : (m.fraction ≡ []) ⊎ ((ds : Bytes) × (m.fraction ≡ b'.' ∷ ds) × Digits ds)
  pub exponent :
      (m.exponent ≡ [])
      ⊎ ((mark sign : ℕ) × (ds : Bytes) × (m.exponent ≡ mark ∷ sign ∷ ds)
          × ((mark == b'e' || mark == b'E') ≡ true)
          × ((sign == b'+' || sign == b'-') ≡ true)
          × Digits ds)

-- No byte that could go on a number.
unfoldable pub stops : ℕ → Bool
unfolding is_digit
stops c = not (is_digit c || c == b'.' || c == b'e' || c == b'E')

pub drop-append : (s t : Bytes) → drop (length s) (s ++ t) ≡ t
drop-append [] t = refl
drop-append (c ∷ s) t = drop-append s t

leading_digits-append :
    (ds r : Bytes)
    → all_digits ds ≡ true
    → is_digit (head_or_zero r) ≡ false
    → leading_digits (ds ++ r) ≡ ds
unfolding leading_digits all_digits
leading_digits-append [] [] h e = refl
leading_digits-append [] (c ∷ r) h e = rw e
leading_digits-append (c ∷ ds) r h e = ground (arith, leading_digits-append ds r)

exponent_part-append :
    (m : Numeral) (r : Bytes)
    → IsNumeral m
    → stops (head_or_zero r) ≡ true
    → exponent_part (m.exponent ++ r) ≡ m.exponent
unfolding exponent_part sign_part stops
exponent_part-append m r h e = elim h.exponent [
  | inl none_there ↦ rw none_there (nothing r e)
  | inr (mark, sign, ds, t, is_mark, is_sign, digits) ↦
      rw t (something mark sign ds is_mark is_sign digits)
]
  where
    nothing : (s : Bytes) → stops (head_or_zero s) ≡ true → exponent_part s ≡ []
    nothing [] i = refl
    nothing (c ∷ s) i = ground arith

    something :
        (mark sign : ℕ) (ds : Bytes)
        → (mark == b'e' || mark == b'E') ≡ true
        → (sign == b'+' || sign == b'-') ≡ true
        → Digits ds
        → exponent_part (mark ∷ sign ∷ (ds ++ r)) ≡ mark ∷ sign ∷ ds
    something mark sign ds i j k =
        let e' : is_digit (head_or_zero r) ≡ false = ground arith in
        rw i (rw j (rw (leading_digits-append ds r k.1 e')))

-- the byte after the whole part is no digit, and the byte after the fraction is neither that nor `.`
exponent_head :
    (m : Numeral) (r : Bytes)
    → IsNumeral m
    → stops (head_or_zero r) ≡ true
    → (is_digit (head_or_zero (m.exponent ++ r)) || head_or_zero (m.exponent ++ r) == b'.') ≡ false
unfolding stops is_digit
exponent_head m r h e = elim h.exponent [
  | inl t ↦ rw t (ground arith)
  | inr (mark, sign, ds, t, is_mark, is_sign, digits) ↦ rw t (ground arith)
]

fraction_part-append :
    (m : Numeral) (r : Bytes)
    → IsNumeral m
    → (is_digit (head_or_zero r) || head_or_zero r == b'.') ≡ false
    → fraction_part (m.fraction ++ r) ≡ m.fraction
unfolding fraction_part
fraction_part-append m r h e = elim h.fraction [
  | inl t ↦ rw t (nothing r e)
  | inr (ds, t, digits) ↦ rw t (ap (◌∷◌ b'.') (leading_digits-append ds r digits.1 (ground arith)))
]
  where
    nothing :
        (s : Bytes)
        → (is_digit (head_or_zero s) || head_or_zero s == b'.') ≡ false
        → fraction_part s ≡ []
    nothing [] i = refl
    nothing (c ∷ s) i = ground arith

fraction_head :
    (m : Numeral) (r : Bytes)
    → IsNumeral m
    → is_digit (head_or_zero r) ≡ false
    → is_digit (head_or_zero (m.fraction ++ r)) ≡ false
fraction_head m r h e = elim h.fraction [
  | inl t ↦ rw t e
  | inr (ds, t, digits) ↦ rw t (unfold is_digit in refl)
]

Digits-head : (ds r : Bytes) → Digits ds → is_digit (head_or_zero (ds ++ r)) ≡ true
unfolding all_digits
Digits-head [] r h = cc (h.0)
Digits-head (c ∷ ds) r h = ground arith

minus_part-append :
    (m : Numeral) (r : Bytes)
    → IsNumeral m
    → is_digit (head_or_zero r) ≡ true
    → minus_part (m.minus ++ r) ≡ m.minus
unfolding minus_part is_digit
minus_part-append m r h e = elim h.minus [ inl t ↦ rw t (nothing r e) | inr t ↦ rw t ]
  where
    nothing : (s : Bytes) → is_digit (head_or_zero s) ≡ true → minus_part s ≡ []
    nothing [] i = refl
    nothing (c ∷ s) i = ground arith

pub number_part-append :
    (m : Numeral) (r : Bytes)
    → IsNumeral m
    → stops (head_or_zero r) ≡ true
    → number_part (numeral_text m ++ r) ≡ numeral_text m
unfolding number_part
number_part-append m r h e =
    let after = exponent_head m r h e in
    let after' : is_digit (head_or_zero (m.exponent ++ r)) ≡ false = ground arith in
    rw (
      append_assoc,
      append_assoc,
      append_assoc,
      minus_part-append m _ h (Digits-head m.whole _ h.whole),
      drop-append m.minus _,
      leading_digits-append m.whole _ h.whole.1 (fraction_head m _ h after'),
      drop-append m.whole _,
      fraction_part-append m _ h after,
      drop-append m.fraction _,
      exponent_part-append m r h e,
    )

module _ {N : Type 0} ⦃d : Double N⦄ where
  -- The library prints `n` as a numeral, and `std::stod` reads that numeral as `n` again.
  pub record PrintsBack (n : N) : Type 0 where
    pub numeral : Numeral
    pub is_numeral : IsNumeral numeral
    pub prints : stringify_number n ≡ ok (numeral_text numeral)
    pub reads : d.stod (numeral_text numeral) ≡ some n

  pub parse_number-numeral :
      (n : N) (w : PrintsBack n) (r : Bytes) (p : ℕ)
      → stops (head_or_zero r) ≡ true
      → parse_number (at (numeral_text w.numeral ++ r) p)
        ≡ ok (n, at r (p + length (numeral_text w.numeral)))
  unfolding parse_number stod_or_throw
  parse_number-numeral n w r p e =
      rw (number_part-append w.numeral r w.is_numeral e)
        (rw w.reads (rw (drop-append (numeral_text w.numeral) r)))

-- A byte that a number can begin with.
abbrev pub starts_number : ℕ → Bool
starts_number c = c == b'-' || is_digit c

Digits-start : (ds : Bytes) → Digits ds → (c : ℕ) × (u : Bytes) × (ds ≡ c ∷ u) × (is_digit c ≡ true)
unfolding all_digits
Digits-start [] h = cc (h.0)
Digits-start (c ∷ u) h = (c, u, refl, ground arith)

pub numeral_head :
    (m : Numeral)
    → IsNumeral m
    → (c : ℕ) × (u : Bytes) × (numeral_text m ≡ c ∷ u) × (starts_number c ≡ true)
numeral_head m h =
    let after = m.fraction ++ m.exponent in
    let (c, u, e, d) = Digits-start m.whole h.whole in
    elim h.minus [
      | inl t ↦ (
        c,
        u ++ after,
        ap (λ a. a ++ (m.whole ++ after)) t ∙ ap (λ w. w ++ after) e,
        ground arith,
      )
      | inr t ↦ (b'-', m.whole ++ after, ap (λ a. a ++ (m.whole ++ after)) t, refl)
    ]
