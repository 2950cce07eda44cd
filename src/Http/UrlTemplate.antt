-- ===== src/Http/UrlTemplate.antt =====
-- cpp/http/UrlTemplate.cpp: the `{token}` templates of item paths and list queries. The templates that
-- `parse` accepts are in UrlTemplate/Accepted, what `render` makes of them in UrlTemplate/Rendering.
pub mod Accepted
pub mod Rendering
use react_native_salve_db.Prelude.{
  ℕ, zero, suc, ◌+◌, ◌≤◌, Bool, true, false, not, ◌&&◌, ◌||◌, List, [], ◌∷◌, ◌++◌, Option, none,
  some, Bytes, text, em_dash, str_eq, Result, ok, err, Exception, runtime_error, no_fuel, ◌>>=◌,
  ◌==◌, leb, ltb, if◌then◌else◌, is_empty, length, drop,
}
use react_native_salve_db.OrderedMap.{OrderedMap, at}
use react_native_salve_db.Http.UrlBuilder.{encode_segment}

-- `UrlTemplateContext`
pub data Context : Type 0 where
  item list_query : Context

pub record Segment : Type 0 where
  pub is_variable : Bool
  pub content : Bytes

pub record UrlTemplate : Type 0 where
  pub segments : List Segment
  pub parsed : Bool

-- a default-constructed template
abbrev pub unparsed : UrlTemplate
unparsed = record { segments = []; parsed = false }

unfoldable pub vocabulary_for : Context → List Bytes
vocabulary_for item = text "basePath" ∷ text "id" ∷ []
vocabulary_for list_query = text "since" ∷ text "limit" ∷ text "cursorField" ∷ []

unfoldable pub is_one_of : List Bytes → Bytes → Bool
is_one_of [] token = false
is_one_of (known ∷ vocabulary) token = str_eq known token || is_one_of vocabulary token

-- `isKnownToken`
unfoldable pub is_known_token : Context → Bytes → Bool
unfolding vocabulary_for is_one_of
is_known_token context token = is_one_of (vocabulary_for context) token

unfoldable pub join_tokens : Bool → List Bytes → Bytes
join_tokens is_first [] = []
join_tokens is_first (t ∷ ts) = (if is_first then [] else text ", ") ++ (t ++ join_tokens false ts)

-- `joinVocabulary`
unfoldable pub join_vocabulary : Context → Bytes
unfolding vocabulary_for join_tokens
join_vocabulary context = join_tokens true (vocabulary_for context)

-- `isIllegalRawChar`
unfoldable pub is_illegal_raw_char : ℕ → Bool
is_illegal_raw_char c =
    c == b'"' || c == b'<' || c == b'>' || c == b'`' || c == b'#' || ltb c 32 || leb 127 c

-- `isHexDigit`
unfoldable pub is_hex_digit : ℕ → Bool
is_hex_digit c = leb b'0' c && leb c b'9' || leb b'A' c && leb c b'F' || leb b'a' c && leb c b'f'

-- The two bytes behind a percent sign are hexadecimal digits.
unfoldable pub begins_with_hex_pair : Bytes → Bool
begins_with_hex_pair (x ∷ y ∷ cs) = is_hex_digit x && is_hex_digit y
begins_with_hex_pair _ = false

unfoldable pub begins_with : ℕ → Bytes → Bool
begins_with x [] = false
begins_with x (c ∷ cs) = c == x

-- The text up to the next `}`, and the text behind it: `raw.find('}', i + 1)` and the substrings.
unfoldable pub split_at_close : Bytes → Option (Bytes × Bytes)
split_at_close [] = none
split_at_close (c ∷ cs) =
    let rest = split_at_close cs in
    if c == b'}'
    then some ([], cs)
    else elim rest [ none ↦ none | some (token, after) ↦ some (c ∷ token, after) ]

-- `flushLiteral`
unfoldable pub flush_literal : Bytes → List Segment → List Segment
flush_literal [] segments = segments
flush_literal (c ∷ cs) segments =
    segments ++ (record { is_variable = false; content = c ∷ cs } ∷ [])

unfoldable pub push_variable : Bytes → List Segment → List Segment
push_variable token segments = segments ++ (record { is_variable = true; content = token } ∷ [])

-- How a round of the loop of `parse` ends.
pub data Round : Type 0 where
  finish : List Segment → Round
  fail : Exception → Round
  continue : Bytes → List Segment → Bytes → Round

module _ (context : Context) (field_name : Bytes) where
  unfoldable pub unterminated : Exception
  unterminated = runtime_error (
      text "UrlTemplate: "
      ++ (field_name ++ text " has an unterminated '{' (use '{{' for a literal brace)"))

  unfoldable pub unknown_token : Bytes → Exception
  unknown_token token = runtime_error (
      text "UrlTemplate: "
      ++ (field_name
          ++ (text " references unknown token '{"
              ++ (token ++ (text "}' (valid: " ++ (join_vocabulary context ++ text ")"))))))

  unfoldable pub unmatched : Exception
  unmatched = runtime_error (
      text "UrlTemplate: "
      ++ (field_name ++ text " has an unmatched '}' (use '}}' for a literal brace)"))

  unfoldable pub illegal_character : ℕ → Exception
  illegal_character c = runtime_error (
      text "UrlTemplate: "
      ++ (field_name
          ++ (text " contains an illegal raw character '"
              ++ (c
                  ∷ (text "' in its literal text "
                      ++ (em_dash ++ text " percent-encode it manually"))))))

  unfoldable pub bad_escape : Exception
  bad_escape = runtime_error (
      text "UrlTemplate: "
      ++ (field_name
          ++ text " contains an incomplete or invalid percent-escape '%' in its literal text"))

  -- at a `{` that is not doubled
  unfoldable pub parse_token : Bytes → List Segment → Option (Bytes × Bytes) → Round
  parse_token literal segments none = fail unterminated
  parse_token literal segments (some (token, after)) =
      if is_known_token context token
      then continue [] (push_variable token (flush_literal literal segments)) after
      else fail (unknown_token token)

  -- One round of the loop of `parse`: the literal being gathered, the segments pushed so far and the
  -- text left.
  unfoldable pub parse_round : Bytes → List Segment → Bytes → Round
  parse_round literal segments [] = finish (flush_literal literal segments)
  parse_round literal segments (c ∷ cs) =
      if c == b'{'
      then (if begins_with b'{' cs
          then continue (literal ++ b'{' ∷ []) segments (drop 1 cs)
          else parse_token literal segments (split_at_close cs))
      else if c == b'}'
      then (if begins_with b'}' cs
          then continue (literal ++ b'}' ∷ []) segments (drop 1 cs)
          else fail unmatched)
      else if is_illegal_raw_char c
      then fail (illegal_character c)
      else if c == b'%' && not (begins_with_hex_pair cs)
      then fail bad_escape
      else continue (literal ++ c ∷ []) segments cs

  unfoldable pub parse_loop : ℕ → Bytes → List Segment → Bytes → Result (List Segment)
  parse_loop zero literal segments raw = err no_fuel
  parse_loop (suc fuel) literal segments raw = elim (parse_round literal segments raw) [
    | finish done ↦ ok done
    | fail e ↦ err e
    | continue literal' segments' rest ↦ parse_loop fuel literal' segments' rest
  ]

  -- `UrlTemplate::parse`
  unfoldable pub parse : Bytes → Result UrlTemplate
  parse raw = do
    segments ← parse_loop (suc (length raw)) [] [] raw
    ok (record { segments = segments; parsed = true })

-- a literal's space is written `%20`
unfoldable pub render_literal : Bytes → Bytes
render_literal [] = []
render_literal (c ∷ cs) = (if c == 32 then text "%20" else c ∷ []) ++ render_literal cs

-- `{basePath}` goes in raw, every other value encoded
unfoldable pub render_value : Bytes → Bytes → Bytes
render_value name value = if str_eq name (text "basePath") then value else encode_segment value

unfoldable pub render_segments : OrderedMap Bytes → List Segment → Result Bytes
render_segments vars [] = ok []
render_segments vars (s ∷ segments) = do
  piece ←
      if s.is_variable
      then (do value ← at s.content vars; ok (render_value s.content value))
      else ok (render_literal s.content)
  rest ← render_segments vars segments
  ok (piece ++ rest)

-- `UrlTemplate::render`; the variables are a map, in which the order of entries does not matter
unfoldable pub render : UrlTemplate → OrderedMap Bytes → Result Bytes
render t vars =
    if t.parsed
    then render_segments vars t.segments
    else err (
        runtime_error (
          text
            "UrlTemplate: render() called on a template that was never parsed (default-constructed)"))

unfoldable pub any_references : List Segment → Bytes → Bool
any_references [] token = false
any_references (s ∷ segments) token =
    s.is_variable && str_eq s.content token || any_references segments token

-- `UrlTemplate::references`
unfoldable pub references : UrlTemplate → Bytes → Bool
unfolding any_references
references t token = any_references t.segments token
