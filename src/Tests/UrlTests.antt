-- ===== src/Tests/UrlTests.antt =====
-- The theorems on URLs and templates at concrete texts.
use react_native_salve_db.Prelude.{
  ◌≡◌, ◌≢◌, refl, true, false, List, [], ◌∷◌, some, Bytes, text, ok, err, no_fuel, All, str_eq,
  arith,
}
use react_native_salve_db.OrderedMap.{find, contains}
use react_native_salve_db.Http.UrlBuilder.{encode_segment}
use react_native_salve_db.Http.UrlBuilder.Encoding.{
  percent_decode, IsEncoded, decode-encode_segment, encode_segment-IsEncoded,
}
use react_native_salve_db.Http.UrlTemplate.{
  UrlTemplate, list_query, parse, parse_loop, parse_round, parse_token, split_at_close,
  flush_literal, push_variable, is_known_token, vocabulary_for, is_one_of, begins_with,
  is_illegal_raw_char, render,
}
use react_native_salve_db.Http.UrlTemplate.Accepted.{IsGood, parse-IsGood, parse-ne-no_fuel}
use react_native_salve_db.Http.UrlTemplate.Rendering.{Supplies, IsUrlByte, render_accepted}

-- "a b/", with a byte of two-byte UTF-8
abbrev segment : Bytes
segment = b'a' ∷ 32 ∷ 0xc3 ∷ b'/' ∷ []

decode-encode_segment_example : percent_decode (encode_segment segment) ≡ segment
decode-encode_segment_example =
    decode-encode_segment segment (omega arith, (omega arith, (omega arith, (omega arith, tt))))

encode_segment-IsEncoded_example : All IsEncoded (encode_segment segment)
encode_segment-IsEncoded_example = encode_segment-IsEncoded segment

abbrev host : Bytes
host = b'h' ∷ b':' ∷ b'/' ∷ b'/' ∷ b'x' ∷ []

-- s={since}&l={limit}
abbrev query : Bytes
query =
    b's' ∷ b'=' ∷ b'{' ∷ b's' ∷ b'i' ∷ b'n' ∷ b'c' ∷ b'e' ∷ b'}' ∷ b'&' ∷ b'l' ∷ b'=' ∷ b'{' ∷ b'l'
    ∷ b'i' ∷ b'm' ∷ b'i' ∷ b't' ∷ b'}' ∷ []

abbrev since : Bytes
since = b's' ∷ b'i' ∷ b'n' ∷ b'c' ∷ b'e' ∷ []

abbrev limit : Bytes
limit = b'l' ∷ b'i' ∷ b'm' ∷ b'i' ∷ b't' ∷ []

abbrev cursor_field : Bytes
cursor_field = b'c' ∷ b'u' ∷ b'r' ∷ b's' ∷ b'o' ∷ b'r' ∷ b'F' ∷ b'i' ∷ b'e' ∷ b'l' ∷ b'd' ∷ []

abbrev template : UrlTemplate
template = record {
  segments =
      record { is_variable = false; content = b's' ∷ b'=' ∷ [] }
      ∷ record { is_variable = true; content = since }
      ∷ record { is_variable = false; content = b'&' ∷ b'l' ∷ b'=' ∷ [] }
      ∷ record { is_variable = true; content = limit }
      ∷ [];
  parsed = true;
}

parsed_query : parse list_query [] query ≡ ok template
unfolding parse parse_loop parse_round parse_token split_at_close flush_literal push_variable
    is_known_token vocabulary_for is_one_of begins_with text is_illegal_raw_char str_eq
parsed_query = refl

parse-IsGood_example : (template.parsed ≡ true) × All (IsGood list_query) template.segments
parse-IsGood_example = parse-IsGood list_query [] query parsed_query

parse-ne-no_fuel_example : parse list_query [] (b'{' ∷ b'{' ∷ []) ≢ err no_fuel
parse-ne-no_fuel_example = parse-ne-no_fuel list_query [] (b'{' ∷ b'{' ∷ [])

abbrev vars : List (Bytes × Bytes)
vars = (since, b'5' ∷ []) ∷ (limit, b'2' ∷ []) ∷ (cursor_field, b'u' ∷ []) ∷ []

all_present : (token : Bytes) → is_known_token list_query token ≡ true → contains token vars ≡ true
unfolding is_known_token vocabulary_for is_one_of text contains find
all_present token h = ground arith

no_base_path : (v : Bytes) → find (text "basePath") vars ≡ some v → All IsUrlByte v
unfolding find text str_eq
no_base_path v h = cc

vars-Supplies : Supplies list_query vars
vars-Supplies = record { present = all_present; base_path = λ v h. no_base_path v h }

render_accepted_example : (url : Bytes) × (render template vars ≡ ok url) × All IsUrlByte url
render_accepted_example = render_accepted list_query [] query vars parsed_query vars-Supplies
