-- ===== src/JsonPath.antt =====
-- cpp/expression/JsonPathExtractor.cpp: `$.a.b` picks a member of a member. What it picks is in
-- JsonPath/Laws.
pub mod Laws
use react_native_salve_db.Prelude.{
  ℕ, Bool, true, false, ◌&&◌, List, [], ◌∷◌, ◌++◌, Option, none, some, Bytes, text, Result, ok, err,
  runtime_error, ◌>>=◌, ◌==◌, if◌then◌else◌, is_empty,
}
use react_native_salve_db.Json.{Value, get}

unfoldable pub malformed : Bytes → Result (List Bytes)
malformed rest =
    err (runtime_error (text "ExpressionInterpreter: malformed JsonPath \"" ++ (rest ++ text "\"")))

-- the check behind the loop: the text ends in a dot
unfoldable pub last_check : Bool → List Bytes → Result (List Bytes)
last_check true segments =
    err (runtime_error (text "ExpressionInterpreter: malformed JsonPath, trailing \".\""))
last_check false segments = ok segments

-- The loop of `splitSegments`: `segment` is what lies between `start` and the byte looked at, and
-- `after_dot` says that the byte before it is a dot.
unfoldable pub split_loop : Bytes → List Bytes → Bytes → Bool → Bytes → Result (List Bytes)
unfolding malformed last_check
split_loop rest segments segment after_dot [] =
    if is_empty segment then last_check after_dot segments else ok (segments ++ segment ∷ [])
split_loop rest segments segment after_dot (c ∷ cs) =
    let next = split_loop rest (segments ++ segment ∷ []) [] true cs in
    let more = split_loop rest segments (segment ++ c ∷ []) false cs in
    if c == b'.' then (if is_empty segment then malformed rest else next) else more

-- `splitSegments`
unfoldable pub split_segments : Bytes → Result (List Bytes)
unfolding split_loop
split_segments rest = split_loop rest [] [] false rest

module _ {N : Type 0} where
  -- the walk from the root, one member for each segment
  unfoldable pub walk : Value N → List Bytes → Option (Value N)
  unfolding get
  walk v [] = some v
  walk v (segment ∷ segments) = elim (get v segment) [ none ↦ none | some w ↦ walk w segments ]

  -- behind the dollar sign
  unfoldable pub extract_rest : Value N → Bytes → Bytes → Result (Option (Value N))
  unfolding walk split_segments
  extract_rest root path [] = ok (some root)
  extract_rest root path (c ∷ rest) =
      if c == b'.'
      then (do segments ← split_segments rest; ok (walk root segments))
      else err (
          runtime_error
            (text "ExpressionInterpreter: malformed JsonPath \"" ++ (path ++ text "\"")))

  unfoldable pub no_dollar : Bytes → Result (Option (Value N))
  no_dollar path = err (
      runtime_error (
        text "ExpressionInterpreter: JsonPath must start with \"$\", got \""
        ++ (path ++ text "\"")))

  -- `JsonPathExtractor::extract`; `none` where a member is missing
  unfoldable pub extract : Value N → Bytes → Result (Option (Value N))
  unfolding extract_rest no_dollar
  extract root [] = no_dollar []
  extract root (c ∷ rest) =
      if c == b'$' then extract_rest root (c ∷ rest) rest else no_dollar (c ∷ rest)
