-- ===== src/Http/UrlBuilder/Encoding.antt =====
-- `HttpUrlBuilder::encodeSegment` of cpp/http/HttpUrlBuilder.cpp, and a percent decoder.
use react_native_salve_db.Prelude.{
  ℕ, ◌+◌, ◌-◌, ◌*◌, ◌/◌, ◌%◌, ◌<◌, ◌≤◌, ◌⊎◌, true, false, [], ◌∷◌, ◌++◌, ◌≡◌, refl, ap, ◌∙◌, arith,
  Bytes, ◌==◌, ltb, if◌then◌else◌, All, All-append, Bool-cases, inl, inr,
}
use react_native_salve_db.Http.UrlBuilder.{is_unreserved, upper_hex, encode_byte, encode_segment}

hex_value : ℕ → ℕ
hex_value c = if ltb c b'A' then c - b'0' else c - b'A' + 10

-- What a server does with an encoded text: `%XY` is the byte of that number.
pub percent_decode : Bytes → Bytes
percent_decode (c ∷ x ∷ y ∷ cs) =
    let escaped = percent_decode cs in
    let plain = percent_decode (x ∷ y ∷ cs) in
    if c == b'%' then (hex_value x * 16 + hex_value y) ∷ escaped else c ∷ plain
percent_decode cs = cs

-- one byte of `char`
abbrev pub IsByte : ℕ → Type 0
IsByte c = c < 256

hex_value-upper_hex : (n : ℕ) → n < 16 → hex_value (upper_hex n) ≡ n
unfolding hex_value upper_hex
hex_value-upper_hex n h = ground arith

unreserved_is_no_percent : (c : ℕ) → is_unreserved c ≡ true → (c == b'%') ≡ false
unfolding is_unreserved
unreserved_is_no_percent c h = ground arith

upper_hex-is_unreserved : (n : ℕ) → n < 16 → is_unreserved (upper_hex n) ≡ true
unfolding upper_hex is_unreserved
upper_hex-is_unreserved n h = ground arith

decode_plain :
    (c : ℕ) (t : Bytes) → (c == b'%') ≡ false → percent_decode (c ∷ t) ≡ c ∷ percent_decode t
unfolding percent_decode
decode_plain c [] h = refl
decode_plain c (x ∷ []) h = refl
decode_plain c (x ∷ y ∷ t) h = rw h

decode_escape :
    (c : ℕ) (t : Bytes)
    → c < 256
    → percent_decode (b'%' ∷ upper_hex (c / 16 % 16) ∷ upper_hex (c % 16) ∷ t)
      ≡ c ∷ percent_decode t
unfolding percent_decode
decode_escape c t h =
    rw (hex_value-upper_hex (c / 16 % 16) (omega arith)) (
      rw (hex_value-upper_hex (c % 16) (omega arith))
        (ap (λ x. x ∷ percent_decode t) (omega arith)))

decode_one :
    (c : ℕ) (t : Bytes) → c < 256 → percent_decode (encode_byte c ++ t) ≡ c ∷ percent_decode t
unfolding encode_byte
decode_one c t h = elim (Bool-cases (is_unreserved c)) [
  | inl plain ↦ rw plain (decode_plain c t (unreserved_is_no_percent c plain))
  | inr escaped ↦ rw escaped (decode_escape c t h)
]

-- Decoding an encoded text gives the text back, whatever bytes it holds.
pub decode-encode_segment : (s : Bytes) → All IsByte s → percent_decode (encode_segment s) ≡ s
unfolding encode_segment percent_decode
decode-encode_segment [] h = refl
decode-encode_segment (c ∷ cs) h =
    decode_one c (encode_segment cs) h.0 ∙ ap (◌∷◌ c) (decode-encode_segment cs h.1)

-- the unreserved characters of RFC 3986: letters, digits and four signs
abbrev pub IsUnreserved : ℕ → Type 0
IsUnreserved c =
    ((b'A' ≤ c) × (c ≤ b'Z'))
    ⊎ (((b'a' ≤ c) × (c ≤ b'z'))
        ⊎ (((b'0' ≤ c) × (c ≤ b'9')) ⊎ ((c ≡ b'-') ⊎ ((c ≡ b'.') ⊎ ((c ≡ b'_') ⊎ (c ≡ b'~'))))))

-- A byte of an encoded text: unreserved, or the sign of an escape.
abbrev pub IsEncoded : ℕ → Type 0
IsEncoded c = IsUnreserved c ⊎ (c ≡ b'%')

is_unreserved-IsEncoded : (c : ℕ) → is_unreserved c ≡ true → IsEncoded c
unfolding is_unreserved
is_unreserved-IsEncoded c h = ground arith

encode_byte-IsEncoded : (c : ℕ) → All IsEncoded (encode_byte c)
unfolding encode_byte
encode_byte-IsEncoded c = elim (Bool-cases (is_unreserved c)) [
  | inl plain ↦ rw plain (is_unreserved-IsEncoded c plain, tt)
  | inr escaped ↦ rw escaped (
    inr refl,
    (
      is_unreserved-IsEncoded _ (upper_hex-is_unreserved (c / 16 % 16) (omega arith)),
      (is_unreserved-IsEncoded _ (upper_hex-is_unreserved (c % 16) (omega arith)), tt),
    ),
  )
]

-- Every byte of an encoded text is an unreserved character of RFC 3986 (a letter, a digit, or one of
-- `-`, `.`, `_` and `~`) or a percent sign.
pub encode_segment-IsEncoded : (s : Bytes) → All IsEncoded (encode_segment s)
unfolding encode_segment
encode_segment-IsEncoded [] = tt
encode_segment-IsEncoded (c ∷ cs) =
    All-append IsEncoded (encode_byte c) (encode_segment cs) (encode_byte-IsEncoded c)
      (encode_segment-IsEncoded cs)
