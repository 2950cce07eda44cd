-- ===== src/JsonPath/Laws.antt =====
-- The paths of cpp/expression/JsonPathExtractor.cpp as lists of member names.
use react_native_salve_db.Prelude.{
  ℕ, Bool, true, false, List, [], ◌∷◌, ◌++◌, Bytes, ◌≡◌, refl, ◌∙◌, ok, ◌==◌, is_empty, All,
  append_assoc, append-nil, Option, none, some, Option-cases, inl, inr,
}
use react_native_salve_db.Json.{Value, get}
use react_native_salve_db.JsonPath.{split_loop, split_segments, walk, extract_rest, extract}

-- A member name that a path can hold: not empty, and with no dot in it.
abbrev pub IsName : Bytes → Type 0
IsName s = (is_empty s ≡ false) × All (λ c. (c == b'.') ≡ false) s

-- the names with dots between them
abbrev pub join_dots : List Bytes → Bytes
join_dots [] = []
join_dots (s ∷ []) = s
join_dots (s ∷ t ∷ names) = s ++ (b'.' ∷ join_dots (t ∷ names))

concat_not_empty : (s : Bytes) (c : ℕ) → is_empty (s ++ c ∷ []) ≡ false
concat_not_empty [] c = refl
concat_not_empty (x ∷ s) c = refl

append_not_empty : (s t : Bytes) → is_empty t ≡ false → is_empty (s ++ t) ≡ false
append_not_empty [] t h = h
append_not_empty (x ∷ s) t h = refl

-- the loop over one name
split_loop_end :
    (rest : Bytes) (segments : List Bytes) (segment name : Bytes) (b : Bool)
    → is_empty (segment ++ name) ≡ false
    → All (λ c. (c == b'.') ≡ false) name
    → split_loop rest segments segment b name ≡ ok (segments ++ (segment ++ name) ∷ [])
unfolding split_loop
split_loop_end rest segments segment [] b h g = rw append-nil (rw (rw append-nil at h) refl)
split_loop_end rest segments segment (c ∷ cs) b h g = rw g.0 (
    split_loop_end rest segments (segment ++ c ∷ []) cs false
      (rw (append_assoc segment (c ∷ []) cs) h) g.1
    ∙ rw (append_assoc segment (c ∷ []) cs))

split_loop_dot :
    (rest : Bytes) (segments : List Bytes) (segment name later : Bytes) (b : Bool)
    → is_empty (segment ++ name) ≡ false
    → All (λ c. (c == b'.') ≡ false) name
    → split_loop rest segments segment b (name ++ (b'.' ∷ later))
      ≡ split_loop rest (segments ++ (segment ++ name) ∷ []) [] true later
unfolding split_loop
split_loop_dot rest segments segment [] later b h g = rw append-nil (rw (rw append-nil at h) refl)
split_loop_dot rest segments segment (c ∷ cs) later b h g = rw g.0 (
    split_loop_dot rest segments (segment ++ c ∷ []) cs later false
      (rw (append_assoc segment (c ∷ []) cs) h) g.1
    ∙ rw (append_assoc segment (c ∷ []) cs))

split_loop-join_dots :
    (rest : Bytes) (names segments : List Bytes) (b : Bool)
    → All IsName names
    → is_empty names ≡ false
    → split_loop rest segments [] b (join_dots names) ≡ ok (segments ++ names)
split_loop-join_dots rest [] segments b h ne = cc
split_loop-join_dots rest (s ∷ []) segments b h ne = split_loop_end rest segments [] s b h.0.0 h.0.1
split_loop-join_dots rest (s ∷ t ∷ names) segments b h ne =
    split_loop_dot rest segments [] s (join_dots (t ∷ names)) b h.0.0 h.0.1
    ∙ split_loop-join_dots rest (t ∷ names) (segments ++ s ∷ []) true h.1 refl
    ∙ rw (append_assoc segments (s ∷ []) (t ∷ names))

module _ {N : Type 0} where
  -- what lies at the end of a path of names from a value: the value itself at no name, nothing where the
  -- first name is no member, and else what lies at the rest of the path from that member
  pub data IsAt : Value N → List Bytes → Option (Value N) → Type 0 where
    here : {v : Value N} → IsAt v [] (some v)
    missing :
        {v : Value N} {s : Bytes} {names : List Bytes} → get v s ≡ none → IsAt v (s ∷ names) none
    step :
        {v u : Value N} {s : Bytes} {names : List Bytes} {o : Option (Value N)}
        → get v s ≡ some u
        → IsAt u names o
        → IsAt v (s ∷ names) o

  walk-IsAt : (v : Value N) (names : List Bytes) → IsAt v names (walk v names)
  unfolding walk
  walk-IsAt v [] = here
  walk-IsAt v (s ∷ names) = elim (Option-cases (get v s)) [
    | inl gone ↦ rw (walk, gone) (missing gone)
    | inr (u, there) ↦ rw (walk, there) (step there (walk-IsAt u names))
  ]

  -- The path `$.a.b…` of names that are not empty and hold no dot, at least one of them, is accepted, and
  -- gives what lies at those names from the root, taken in that order.
  pub extract-join_dots :
      (root : Value N) (names : List Bytes)
      → All IsName names
      → is_empty names ≡ false
      → (o : Option (Value N)) × (extract root (b'$' ∷ b'.' ∷ join_dots names) ≡ ok o)
        × IsAt root names o
  unfolding extract extract_rest split_segments
  extract-join_dots root names h ne = (
    walk root names,
    rw (split_loop-join_dots (join_dots names) names [] false h ne) refl,
    walk-IsAt root names,
  )
