-- ===== src/Json.antt =====
-- cpp/database/json_parser.hpp, the value tree and its accessors. `N` stands for `double`.
-- The parser is in Json/Parser, the printer in Json/Printer, and what they do in the modules below.
pub mod Double
pub mod Cursor
pub mod Parser
pub mod Printer
pub mod RoundTrip
pub mod Total
use react_native_salve_db.Prelude.{
  ℕ, Bool, true, false, Option, none, some, List, [], ◌∷◌, ◌++◌, Bytes, ◌≡◌, refl, ap, value_or,
}
use react_native_salve_db.OrderedMap.{OrderedMap, find, contains}

-- `std::variant<nullptr_t, bool, double, string, Array, Object>`
mutual
  pub data Value (N : Type 0) : Type 0 where
    null : Value N
    bool : Bool → Value N
    number : N → Value N
    string : Bytes → Value N
    array : Items N → Value N
    object : Fields N → Value N

  pub data Items (N : Type 0) : Type 0 where
    nil : Items N
    cons : Value N → Items N → Items N

  pub data Fields (N : Type 0) : Type 0 where
    end : Fields N
    field : Bytes → Value N → Fields N → Fields N

module _ {N : Type 0} where
  -- `Array` as a list, and back
  abbrev pub elements : Items N → List (Value N)
  elements nil = []
  elements (cons v xs) = v ∷ elements xs

  abbrev pub of_elements : List (Value N) → Items N
  of_elements [] = nil
  of_elements (v ∷ xs) = cons v (of_elements xs)

  -- `Object` as an OrderedMap, and back
  abbrev pub entries : Fields N → OrderedMap (Value N)
  entries end = []
  entries (field k v fs) = (k, v) ∷ entries fs

  abbrev pub of_entries : OrderedMap (Value N) → Fields N
  of_entries [] = end
  of_entries ((k, v) ∷ m) = field k v (of_entries m)

  pub elements-of_elements : (xs : List (Value N)) → elements (of_elements xs) ≡ xs
  elements-of_elements [] = refl
  elements-of_elements (v ∷ xs) = ap (◌∷◌ v) (elements-of_elements xs)

  pub entries-of_entries : (m : OrderedMap (Value N)) → entries (of_entries m) ≡ m
  entries-of_entries [] = refl
  entries-of_entries ((k, v) ∷ m) = ap (◌∷◌ (k, v)) (entries-of_entries m)

  pub of_elements-elements : (xs : Items N) → of_elements (elements xs) ≡ xs
  of_elements-elements nil = refl
  of_elements-elements (cons v xs) = ap (cons v) (of_elements-elements xs)

  pub of_entries-entries : (fs : Fields N) → of_entries (entries fs) ≡ fs
  of_entries-entries end = refl
  of_entries-entries (field k v fs) = ap (field k v) (of_entries-entries fs)

  unfoldable pub is_object : Value N → Bool
  is_object (object fs) = true
  is_object v = false

  unfoldable pub is_array : Value N → Bool
  is_array (array xs) = true
  is_array v = false

  unfoldable pub is_string : Value N → Bool
  is_string (string s) = true
  is_string v = false

  unfoldable pub is_number : Value N → Bool
  is_number (number n) = true
  is_number v = false

  -- `get`: a non-object has no member
  unfoldable pub get : Value N → Bytes → Option (Value N)
  unfolding find
  get (object fs) key = find key (entries fs)
  get v key = none

  -- `has`
  unfoldable pub has : Value N → Bytes → Bool
  unfolding contains
  has (object fs) key = contains key (entries fs)
  has v key = false

  abbrev string_or : Bytes → Option (Value N) → Bytes
  string_or fallback (some (string s)) = s
  string_or fallback (some v) = fallback
  string_or fallback none = fallback

  abbrev bool_or : Bool → Option (Value N) → Bool
  bool_or fallback (some (bool b)) = b
  bool_or fallback (some v) = fallback
  bool_or fallback none = fallback

  abbrev number_or : N → Option (Value N) → N
  number_or fallback (some (number n)) = n
  number_or fallback (some v) = fallback
  number_or fallback none = fallback

  -- `getString`, `getBool`, `getNumber`: the fallback for a missing member or one of another type
  unfoldable pub get_string : Value N → Bytes → Bytes → Bytes
  unfolding get
  get_string v key fallback = string_or fallback (get v key)

  unfoldable pub get_bool : Value N → Bytes → Bool → Bool
  unfolding get
  get_bool v key fallback = bool_or fallback (get v key)

  unfoldable pub get_number : Value N → Bytes → N → N
  unfolding get
  get_number v key fallback = number_or fallback (get v key)
