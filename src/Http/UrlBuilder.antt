-- ===== src/Http/UrlBuilder.antt =====
-- cpp/http/HttpUrlBuilder.cpp. What the three functions guarantee is in UrlBuilder/Encoding and
-- UrlBuilder/Slashes.
pub mod Encoding
pub mod Slashes
use react_native_salve_db.Prelude.{
  ℕ, ◌+◌, ◌-◌, ◌/◌, ◌%◌, Bool, true, false, ◌&&◌, ◌||◌, List, [], ◌∷◌, ◌++◌, Bytes, ◌==◌, leb, ltb,
  if◌then◌else◌, is_empty,
}

-- `isUnreserved`
unfoldable pub is_unreserved : ℕ → Bool
is_unreserved c =
    leb b'A' c && leb c b'Z'
    || leb b'a' c && leb c b'z'
    || leb b'0' c && leb c b'9'
    || c == b'-'
    || c == b'_'
    || c == b'.'
    || c == b'~'

-- `while (!base.empty() && base.back() == '/') base.pop_back();`
unfoldable pub trim_slashes : Bytes → Bytes
trim_slashes [] = []
trim_slashes (c ∷ cs) =
    let rest = trim_slashes cs in if is_empty rest && c == b'/' then [] else c ∷ rest

join_path : Bytes → Bytes → Bytes
join_path base [] = base
join_path base (c ∷ path) = if c == b'/' then base ++ (c ∷ path) else base ++ (b'/' ∷ c ∷ path)

-- `HttpUrlBuilder::build(baseUrl, path)`
unfoldable pub build : Bytes → Bytes → Bytes
unfolding trim_slashes join_path
build base_url path = join_path (trim_slashes base_url) path

-- `renderedQuery.substr(renderedQuery.find_first_not_of('?'))`
unfoldable pub skip_questions : Bytes → Bytes
skip_questions [] = []
skip_questions (c ∷ cs) = let rest = skip_questions cs in if c == b'?' then rest else c ∷ cs

-- `HttpUrlBuilder::build(baseUrl, path, renderedQuery)`
unfoldable pub build_with_query : Bytes → Bytes → Bytes → Bytes
unfolding build skip_questions
build_with_query base_url path query =
    let url = build base_url path in
    let rest = skip_questions query in if is_empty rest then url else url ++ (b'?' ∷ rest)

-- `kHex[n]`
unfoldable pub upper_hex : ℕ → ℕ
upper_hex n = if ltb n 10 then b'0' + n else b'A' + (n - 10)

unfoldable pub encode_byte : ℕ → Bytes
unfolding is_unreserved upper_hex
encode_byte c =
    if is_unreserved c then c ∷ [] else b'%' ∷ upper_hex (c / 16 % 16) ∷ upper_hex (c % 16) ∷ []

-- `HttpUrlBuilder::encodeSegment`
unfoldable pub encode_segment : Bytes → Bytes
unfolding encode_byte
encode_segment [] = []
encode_segment (c ∷ cs) = encode_byte c ++ encode_segment cs
