-- ===== src/OrderedMap/Laws.antt =====
-- The laws of the map of cpp/database/OrderedMap.hpp, and those of its order of insertion.
use react_native_salve_db.Prelude.{
  true, false, none, some, List, [], ◌∷◌, ◌++◌, ◌≡◌, refl, arith, Bytes, ok, ◌≢◌, str_eq,
  str_eq_iff, if◌then◌else◌, Bool-cases, inl, inr,
}
use react_native_salve_db.OrderedMap.{OrderedMap, find, contains, at, assign}

-- str_eq is symmetric where it fails
pub str_eq_comm_false : (a b : Bytes) → str_eq a b ≡ false → str_eq b a ≡ false
str_eq_comm_false a b h = ground (arith, str_eq_iff a b, str_eq_iff b a)

module _ {ℓ} {V : Type ℓ} where
  abbrev pub keys : OrderedMap V → List Bytes
  keys [] = []
  keys ((k, v) ∷ m) = k ∷ keys m

  -- The key is none of these.
  abbrev pub IsFresh : Bytes → OrderedMap V → Type 0
  IsFresh key [] = Unit
  IsFresh key ((k, v) ∷ m) = (str_eq k key ≡ false) × IsFresh key m

  -- No key twice.
  abbrev pub IsDistinct : OrderedMap V → Type 0
  IsDistinct [] = Unit
  IsDistinct ((k, v) ∷ m) = IsFresh k m × IsDistinct m

  pub find-assign :
      (key j : Bytes) (v : V) (m : OrderedMap V)
      → find j (assign key v m) ≡ (if str_eq key j then some v else find j m)
  unfolding find assign
  find-assign key j v [] = refl
  find-assign key j v ((k, w) ∷ m) =
      ground (arith, str_eq_iff key j, str_eq_iff k key, str_eq_iff k j, find-assign key j v m)

  pub keys-assign :
      (key : Bytes) (v : V) (m : OrderedMap V)
      → keys (assign key v m) ≡ (if contains key m then keys m else keys m ++ key ∷ [])
  unfolding contains assign
  keys-assign key v [] = refl
  keys-assign key v ((k, w) ∷ m) = ground (arith, keys-assign key v m)

  pub assign_fresh :
      (key : Bytes) (v : V) (m : OrderedMap V) → IsFresh key m → assign key v m ≡ m ++ (key, v) ∷ []
  unfolding assign
  assign_fresh key v [] h = refl
  assign_fresh key v ((k, w) ∷ m) h = ground (arith, assign_fresh key v m h.1)

  assign-IsFresh :
      (key k : Bytes) (v : V) (m : OrderedMap V)
      → IsFresh k m
      → str_eq key k ≡ false
      → IsFresh k (assign key v m)
  unfolding assign
  assign-IsFresh key k v [] h e = (e, tt)
  assign-IsFresh key k v ((j, w) ∷ m) h e =
      elim (str_eq j key) as (λ b. IsFresh k (if b then (j, v) ∷ m else (j, w) ∷ assign key v m)) [
        | true ↦ h
        | false ↦ (h.0, assign-IsFresh key k v m h.1 e)
      ]

  pub assign-IsDistinct :
      (key : Bytes) (v : V) (m : OrderedMap V) → IsDistinct m → IsDistinct (assign key v m)
  unfolding assign
  assign-IsDistinct key v [] h = (tt, tt)
  assign-IsDistinct key v ((k, w) ∷ m) h = elim (Bool-cases (str_eq k key)) [
    | inl e ↦ rw e h
    | inr e ↦
        rw e
          (assign-IsFresh key k v m h.0 (str_eq_comm_false k key e), assign-IsDistinct key v m h.1)
  ]

  pub at_of_find : (key : Bytes) (m : OrderedMap V) {v : V} → find key m ≡ some v → at key m ≡ ok v
  unfolding at
  at_of_find key m e = rw (e, at)

  pub contains_not_none :
      (key : Bytes) (m : OrderedMap V) → contains key m ≡ true → find key m ≢ none
  unfolding contains
  contains_not_none key m h e = cc (rw e at h)
