-- ===== src/Http/UrlTemplate/Accepted.antt =====
-- The templates that `UrlTemplate::parse` of cpp/http/UrlTemplate.cpp accepts.
use react_native_salve_db.Prelude.{
  ℕ, zero, suc, ◌<◌, ◌≤◌, Bool, true, false, not, ◌&&◌, List, [], ◌∷◌, ◌++◌, Option, none, some,
  Bytes, ◌≡◌, ◌≢◌, refl, sym, inl, inr, arith, Result, ok, err, no_fuel, runtime_error,
  out_of_range, invalid_argument, network_failure, >>=-eq-ok, >>=-eq-err, ◌==◌, if◌then◌else◌,
  is_empty, length, length-drop, All, All-append, ok-injective,
}
use react_native_salve_db.Http.UrlTemplate.{
  Context, Segment, UrlTemplate, is_known_token, is_illegal_raw_char, begins_with,
  begins_with_hex_pair, split_at_close, flush_literal, push_variable, unterminated, unknown_token,
  unmatched, illegal_character, bad_escape, parse_loop, parse, Round, finish, fail, continue,
  parse_token, parse_round,
}

-- printable ASCII but for quotes, angle brackets, the backtick and the hash sign
abbrev pub IsLegal : ℕ → Type 0
IsLegal c = (32 ≤ c) × (c ≤ 126) × (c ≢ b'"') × (c ≢ b'<') × (c ≢ b'>') × (c ≢ b'`') × (c ≢ b'#')

not_illegal : (c : ℕ) → is_illegal_raw_char c ≡ false → IsLegal c
unfolding is_illegal_raw_char
not_illegal c h = ground arith

-- A variable names a token of the context's vocabulary; a literal is not empty and holds legal
-- characters only.
pub record IsGood (context : Context) (s : Segment) : Type 0 where
  pub known : s.is_variable ≡ true → is_known_token context s.content ≡ true
  pub written : s.is_variable ≡ false → is_empty s.content ≡ false
  pub legal : s.is_variable ≡ false → All IsLegal s.content

flush_literal-IsGood :
    (context : Context) (literal : Bytes) (segments : List Segment)
    → All IsLegal literal
    → All (IsGood context) segments
    → All (IsGood context) (flush_literal literal segments)
unfolding flush_literal
flush_literal-IsGood context [] segments h g = g
flush_literal-IsGood context (c ∷ cs) segments h g =
    All-append (IsGood context) segments _ g
      (record { known = λ e. cc; written = λ e. refl; legal = λ e. h }, tt)

push_variable-IsGood :
    (context : Context) (token : Bytes) (segments : List Segment)
    → is_known_token context token ≡ true
    → All (IsGood context) segments
    → All (IsGood context) (push_variable token segments)
unfolding push_variable
push_variable-IsGood context token segments h g =
    All-append (IsGood context) segments _ g
      (record { known = λ e. h; written = λ e. cc; legal = λ e. absurd (true-ne-false e) }, tt)
  where
    true-ne-false : ◌≢◌ {A = Bool} true false
    true-ne-false e = cc

push-IsLegal :
    (literal : Bytes) (c : ℕ) → All IsLegal literal → IsLegal c → All IsLegal (literal ++ c ∷ [])
push-IsLegal literal c h e = All-append IsLegal literal (c ∷ []) h (e, tt)

-- the length left by a split
abbrev CloseLeaves : ℕ → Option (Bytes × Bytes) → Type 0
CloseLeaves n none = Unit
CloseLeaves n (some (token, after)) = length after < n

split_at_close-CloseLeaves : (s : Bytes) → CloseLeaves (length s) (split_at_close s)
unfolding split_at_close
split_at_close-CloseLeaves [] = tt
split_at_close-CloseLeaves (c ∷ cs) =
    go (c == b'}') (split_at_close cs) (split_at_close-CloseLeaves cs)
  where
    go :
        (b : Bool) (o : Option (Bytes × Bytes))
        → CloseLeaves (length cs) o
        → CloseLeaves (length (c ∷ cs)) (
            if b
            then some ([], cs)
            else elim o [ none ↦ none | some (token, after) ↦ some (c ∷ token, after) ])
    go true o h = omega arith
    go false none h = tt
    go false (some (token, after)) h = omega arith

-- A round keeps the literal legal and the segments good, and shortens the text left.
abbrev GoodRound : Context → ℕ → Round → Type 0
GoodRound context n (finish segments) = All (IsGood context) segments
GoodRound context n (fail no_fuel) = ⊥
GoodRound context n (fail _) = Unit
GoodRound context n (continue literal segments rest) =
    All IsLegal literal × All (IsGood context) segments × (length rest < n)

GoodRound-if :
    (context : Context) (n : ℕ) (b : Bool) (x y : Round)
    → (b ≡ true → GoodRound context n x)
    → (b ≡ false → GoodRound context n y)
    → GoodRound context n (if b then x else y)
GoodRound-if context n true x y hx hy = hx refl
GoodRound-if context n false x y hx hy = hy refl

braces_are-IsLegal : IsLegal b'{' × IsLegal b'}'
braces_are-IsLegal = ground arith

module _ (context : Context) (field_name : Bytes) where
  parse_token-GoodRound :
      (n : ℕ) (literal : Bytes) (segments : List Segment) (o : Option (Bytes × Bytes))
      → All IsLegal literal
      → All (IsGood context) segments
      → CloseLeaves n o
      → GoodRound context n (parse_token context field_name literal segments o)
  unfolding parse_token unterminated unknown_token
  parse_token-GoodRound n literal segments none l g h = tt
  parse_token-GoodRound n literal segments (some (token, after)) l g h =
      GoodRound-if context n (is_known_token context token) _ _
        (λ known. (
          tt,
          push_variable-IsGood context token _ known
              (flush_literal-IsGood context literal segments l g),
          h,
        ))
        (λ _. tt)

  parse_round-GoodRound :
      (literal : Bytes) (segments : List Segment) (raw : Bytes)
      → All IsLegal literal
      → All (IsGood context) segments
      → GoodRound context (length raw) (parse_round context field_name literal segments raw)
  unfolding parse_round unmatched illegal_character bad_escape
  parse_round-GoodRound literal segments [] l g = flush_literal-IsGood context literal segments l g
  parse_round-GoodRound literal segments (c ∷ cs) l g =
      let n = length (c ∷ cs) in
      let shorter = length-drop 1 cs in
      let close = split_at_close-CloseLeaves cs in
      GoodRound-if context n (c == b'{') _ _
        (λ _.
          GoodRound-if context n (begins_with b'{' cs) _ _
            (λ _. (push-IsLegal literal b'{' l braces_are-IsLegal.0, g, omega arith))
            (λ _.
              parse_token-GoodRound n literal segments (split_at_close cs) l g
                (CloseLeaves_weaken (split_at_close cs) close)))
        (λ _.
          GoodRound-if context n (c == b'}') _ _
            (λ _.
              GoodRound-if context n (begins_with b'}' cs) _ _
                (λ _. (push-IsLegal literal b'}' l braces_are-IsLegal.1, g, omega arith)) (λ _. tt))
            (λ _.
              GoodRound-if context n (is_illegal_raw_char c) _ _ (λ _. tt)
                (λ legal.
                  GoodRound-if context n (c == b'%' && not (begins_with_hex_pair cs)) _ _ (λ _. tt)
                    (λ _. (push-IsLegal literal c l (not_illegal c legal), g, omega arith)))))
    where
      CloseLeaves_weaken :
          (o : Option (Bytes × Bytes)) → CloseLeaves (length cs) o → CloseLeaves (suc (length cs)) o
      CloseLeaves_weaken none h = tt
      CloseLeaves_weaken (some (token, after)) h = omega arith

  -- the loop, with fuel for every byte
  abbrev GoodOutcome : Result (List Segment) → Type 0
  GoodOutcome (ok segments) = All (IsGood context) segments
  GoodOutcome (err no_fuel) = ⊥
  GoodOutcome (err _) = Unit

  parse_loop-GoodOutcome :
      (fuel : ℕ) (literal : Bytes) (segments : List Segment) (raw : Bytes)
      → length raw < fuel
      → All IsLegal literal
      → All (IsGood context) segments
      → GoodOutcome (parse_loop context field_name fuel literal segments raw)
  unfolding parse_loop
  parse_loop-GoodOutcome zero literal segments raw h l g = elim h [ ]
  parse_loop-GoodOutcome (suc fuel) literal segments raw h l g =
      go (parse_round context field_name literal segments raw)
        (parse_round-GoodRound literal segments raw l g)
        (λ l' s' r i. parse_loop-GoodOutcome fuel l' s' r (omega arith) i.0 i.1)
    where
      go :
          (m : Round)
          → GoodRound context (length raw) m
          → ((l' : Bytes) (s' : List Segment) (r : Bytes)
              → All IsLegal l' × All (IsGood context) s' × (length r < length raw)
              → GoodOutcome (parse_loop context field_name fuel l' s' r))
          → GoodOutcome (elim m [
            | finish done ↦ ok done
            | fail e ↦ err e
            | continue l' s' r ↦ parse_loop context field_name fuel l' s' r
          ])
      go (finish done) i later = i
      go (fail no_fuel) i later = i
      go (fail (runtime_error m)) i later = tt
      go (fail (out_of_range m)) i later = tt
      go (fail (invalid_argument m)) i later = tt
      go (fail (network_failure m)) i later = tt
      go (continue l' s' r) i later = later l' s' r i

  loop_outcome :
      (raw : Bytes) → GoodOutcome (parse_loop context field_name (suc (length raw)) [] [] raw)
  loop_outcome raw = parse_loop-GoodOutcome (suc (length raw)) [] [] raw (omega arith) tt tt

  -- What `UrlTemplate::parse` returns is marked parsed; its variables name tokens of the context's
  -- vocabulary, and its literals are not empty and hold only printable ASCII, the space included,
  -- without double quotes, angle brackets, backticks and hash signs.
  pub parse-IsGood :
      (raw : Bytes) {t : UrlTemplate}
      → parse context field_name raw ≡ ok t
      → (t.parsed ≡ true) × All (IsGood context) t.segments
  unfolding parse
  parse-IsGood raw e =
      let (segments, loop, made) =
        >>=-eq-ok (parse_loop context field_name (suc (length raw)) [] [] raw) _ e in
      let good : All (IsGood context) segments = rw loop at (loop_outcome raw) in
      rw (ok-injective (sym made)) (refl, good)

  -- `UrlTemplate::parse` comes to an end on every text: the fuel of the model, one more than the
  -- bytes of the text, does not run out.
  pub parse-ne-no_fuel : (raw : Bytes) → parse context field_name raw ≢ err no_fuel
  unfolding parse
  parse-ne-no_fuel raw e =
      elim (>>=-eq-err (parse_loop context field_name (suc (length raw)) [] [] raw) _ e) [
        | inl stuck ↦ rw stuck at (loop_outcome raw)
        | inr (segments, loop, made) ↦ cc made
      ]
