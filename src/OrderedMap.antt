-- ===== src/OrderedMap.antt =====
-- cpp/database/OrderedMap.hpp: a map with text keys that keeps the order of insertion, as a flat
-- vector of entries that is searched from the front. Its laws are in OrderedMap/Laws.
pub mod Laws
use react_native_salve_db.Prelude.{
  ℕ, Bool, true, false, ◌||◌, Option, none, some, List, [], ◌∷◌, ◌++◌, Bytes, text, str_eq, Result,
  ok, err, out_of_range, is_some, length, is_empty, if◌then◌else◌,
}

abbrev pub OrderedMap {ℓ} : Type ℓ → Type ℓ
OrderedMap V = List (Bytes × V)

module _ {ℓ} {V : Type ℓ} where
  -- `find`; `none` is `end()`
  unfoldable pub find : Bytes → OrderedMap V → Option V
  find key [] = none
  find key ((k, v) ∷ m) = if str_eq k key then some v else find key m

  -- `count`
  unfoldable pub contains : Bytes → OrderedMap V → Bool
  unfolding find
  contains key m = is_some (find key m)

  -- `at`, which throws on a missing key
  unfoldable pub at : Bytes → OrderedMap V → Result V
  unfolding find
  at key m = elim (find key m) [
    | none ↦ err (out_of_range (text "OrderedMap::at: key not found: " ++ key))
    | some v ↦ ok v
  ]

  -- `m[key] = v`: the entry found is overwritten in place, a new one goes to the back.
  unfoldable pub assign : Bytes → V → OrderedMap V → OrderedMap V
  assign key v [] = (key, v) ∷ []
  assign key v ((k, w) ∷ m) = if str_eq k key then (k, v) ∷ m else (k, w) ∷ assign key v m
