-- ===== src/Json/RoundTrip/Values.antt =====
-- `parse` of cpp/database/json_parser.hpp on the output of `stringify`, for whole values.
use react_native_salve_db.Prelude.{
  ℕ, suc, ◌+◌, ◌*◌, ◌≤◌, true, false, List, [], ◌∷◌, ◌++◌, ◌≡◌, refl, sym, ◌∙◌, ap, arith, Bytes,
  text, is_empty, str_eq, ok, >>=-eq-ok, ok-injective, zero, length, append_assoc, append-nil,
}
use mathlib.Core.Bool.{false≢true}
use react_native_salve_db.OrderedMap.{OrderedMap}
use react_native_salve_db.OrderedMap.Laws.{IsFresh, IsDistinct, assign_fresh, str_eq_comm_false}
use react_native_salve_db.Json.{
  Value, null, bool, number, string, array, object, Items, nil, cons, Fields, end, field, elements,
  of_elements, of_elements-elements, entries, of_entries, of_entries-entries,
}
use react_native_salve_db.Json.Double.{Double}
use react_native_salve_db.Json.Cursor.{Cursor, at}
use react_native_salve_db.Json.Parser.{parse_value, parse_items, parse_members, json_parse}
use react_native_salve_db.Json.Printer.{
  stringify_string, stringify_value, stringify_items, stringify_fields, stringify,
}
use react_native_salve_db.Json.RoundTrip.Numbers.{stops}
use react_native_salve_db.Json.RoundTrip.Steps.{
  parse_value_constants, parse_key-stringify_string, parse_items_last, parse_items_more,
  parse_members_last, parse_members_more,
}
use react_native_salve_db.Json.RoundTrip.Printable.{
  IsPrintable, ArePrintable, MembersArePrintable, cost, cost_items, cost_fields, cost_pos, cost-le,
}
use react_native_salve_db.Json.RoundTrip.Cases.{
  ReadsBack, number_case, string_case, items_after_comma, fields_after_comma, array_case,
  object_case,
}

IsFresh-at {ℓ} :
    {A : Type ℓ} (m : OrderedMap A) (j k : Bytes) (v : A) (rest : OrderedMap A)
    → IsFresh j (m ++ (k, v) ∷ rest)
    → str_eq j k ≡ false
IsFresh-at [] j k v rest h = str_eq_comm_false k j h.0
IsFresh-at ((a, b) ∷ m) j k v rest h = IsFresh-at m j k v rest h.1

brackets : (b'[' ∷ b']' ∷ [] ≡ text "[]") × (b'{' ∷ b'}' ∷ [] ≡ text "{}")
unfolding text
brackets = (refl, refl)

stops_at : (stops b']' ≡ true) × (stops b',' ≡ true) × (stops b'}' ≡ true)
unfolding stops
stops_at = (refl, refl, refl)

-- In an object that holds no key twice, a key is fresh before it is read.
IsFresh-of_distinct {ℓ} :
    {A : Type ℓ} (m : OrderedMap A) (k : Bytes) (v : A) (rest : OrderedMap A)
    → IsDistinct (m ++ (k, v) ∷ rest)
    → IsFresh k m
IsFresh-of_distinct [] k v rest h = tt
IsFresh-of_distinct ((j, w) ∷ m) k v rest h =
    (IsFresh-at m j k v rest h.0, IsFresh-of_distinct m k v rest h.1)

module _ {N : Type 0} ⦃d : Double N⦄ where
  mutual
    unfolding stringify_value stringify_items stringify_fields cost cost_items cost_fields
        IsPrintable ArePrintable MembersArePrintable

    value_back :
        (v : Value N) {t : Bytes} → IsPrintable v → stringify_value v ≡ ok t → ReadsBack v t
    value_back null h e r p (suc fuel) st c =
        (p + 4, rw (ok-injective (sym e)) (parse_value_constants fuel p r).0)
    value_back (bool true) h e r p (suc fuel) st c =
        (p + 4, rw (ok-injective (sym e)) (parse_value_constants fuel p r).1)
    value_back (bool false) h e r p (suc fuel) st c =
        (p + 5, rw (ok-injective (sym e)) (parse_value_constants fuel p r).2)
    value_back (number n) h e r p fuel st c = number_case n h _ e r p fuel st c
    value_back (string s) h e r p fuel st c =
        rw (ok-injective (sym e)) (string_case s h r p fuel st c)
    value_back (array nil) h e r p (suc fuel) st c =
        (p + 1 + 1, rw (ok-injective (sym e) ∙ brackets.0) (parse_value_constants fuel p r).3)
    value_back (array (cons v xs)) h e r p (suc fuel) st c =
        let (u, e₁, e₂) = >>=-eq-ok (stringify_items true (cons v xs)) _ e in
        let (q, back) = items_back (cons v xs) refl e₁ h [] r (p + 1) fuel (omega arith) in
        rw (ok-injective (sym e₂)) (
          rw (append_assoc u (b']' ∷ []) r)
            ((q, array_case fuel v xs u r p h.0 e₁ back ∙ rw of_elements-elements)))
    value_back (object end) h e r p (suc fuel) st c =
        (p + 1 + 1, rw (ok-injective (sym e) ∙ brackets.1) (parse_value_constants fuel p r).4)
    value_back (object (field k v fs)) h e r p (suc fuel) st c =
        let (u, e₁, e₂) = >>=-eq-ok (stringify_fields true (field k v fs)) _ e in
        let (q, back) =
          fields_back (field k v fs) refl e₁ h.1 [] h.0 r (p + 1) fuel (omega arith) in
        rw (ok-injective (sym e₂)) (
          rw (append_assoc u (b'}' ∷ []) r)
            ((q, object_case fuel k v fs u r p e₁ back ∙ rw of_entries-entries)))
    value_back v h e r p zero st c = absurd (omega (arith, cost_pos v))

    items_back :
        (xs : Items N) {t : Bytes}
        → is_empty (elements xs) ≡ false
        → stringify_items true xs ≡ ok t
        → ArePrintable xs
        → (arr : List (Value N)) (r : Bytes) (p fuel : ℕ) → cost_items xs ≤ fuel
        → (q : ℕ) × (parse_items fuel arr (at (t ++ (b']' ∷ r)) p)
            ≡ ok (array (of_elements (arr ++ elements xs)), at r q))
    items_back nil ne e h arr r p fuel c = absurd (false≢true (sym ne))
    items_back (cons v nil) ne e h arr r p (suc fuel) c =
        let (tv, e₁, e₂) = >>=-eq-ok (stringify_value v) _ e in
        let (q, back) = value_back v h.0 e₁ (b']' ∷ r) p fuel stops_at.0 (omega arith) in
        rw (ok-injective (sym e₂) ∙ append-nil tv) ((q + 1, parse_items_last fuel arr _ r p q back))
    items_back (cons v (cons w xs)) ne e h arr r p (suc fuel) c =
        let (tv, e₁, e') = >>=-eq-ok (stringify_value v) _ e in
        let (ts, e₂, e₃) = >>=-eq-ok (stringify_items false (cons w xs)) _ e' in
        let (u, eu, comma) = items_after_comma w xs e₂ in
        let (q, back) =
          value_back v h.0 e₁ (b',' ∷ (u ++ (b']' ∷ r))) p fuel stops_at.1 (omega arith) in
        let (q', back') =
          items_back (cons w xs) refl eu h.1 (arr ++ v ∷ []) r (q + 1) fuel (omega arith) in
        rw (ok-injective (sym e₃) ∙ ap (λ z. tv ++ z) comma) (
          rw (append_assoc tv (b',' ∷ u) (b']' ∷ r)) (
            (
              q',
              parse_items_more fuel arr _ (u ++ (b']' ∷ r)) p q back
                  ∙ back'
                  ∙ rw (append_assoc arr (v ∷ []) (w ∷ elements xs)),
            )))
    items_back (cons v xs) ne e h arr r p zero c = absurd (omega arith)

    fields_back :
        (fs : Fields N) {t : Bytes}
        → is_empty (entries fs) ≡ false
        → stringify_fields true fs ≡ ok t
        → MembersArePrintable fs
        → (obj : OrderedMap (Value N)) → IsDistinct (obj ++ entries fs)
        → (r : Bytes) (p fuel : ℕ) → cost_fields fs ≤ fuel
        → (q : ℕ) × (parse_members fuel obj (at (t ++ (b'}' ∷ r)) p)
            ≡ ok (object (of_entries (obj ++ entries fs)), at r q))
    fields_back end ne e h obj dist r p fuel c = absurd (false≢true (sym ne))
    fields_back (field k v end) ne e h obj dist r p (suc fuel) c =
        let (tv, e₁, e₂) = >>=-eq-ok (stringify_value v) _ e in
        let (p', key) = parse_key-stringify_string k (tv ++ (b'}' ∷ r)) p h.0 in
        let (q, back) = value_back v h.1 e₁ (b'}' ∷ r) p' fuel stops_at.2 (omega arith) in
        rw (ok-injective (sym e₂) ∙ ap (λ z. stringify_string k ++ (b':' ∷ z)) (append-nil tv)) (
          rw (append_assoc (stringify_string k) (b':' ∷ tv) (b'}' ∷ r)) (
            (
              q + 1,
              parse_members_last fuel obj k _ r _ p' q key back
                  ∙ rw (assign_fresh k v obj (IsFresh-of_distinct obj k v [] dist)),
            )))
    fields_back (field k v (field j w fs)) ne e h obj dist r p (suc fuel) c =
        let (tv, e₁, e') = >>=-eq-ok (stringify_value v) _ e in
        let (ts, e₂, e₃) = >>=-eq-ok (stringify_fields false (field j w fs)) _ e' in
        let (u, eu, comma) = fields_after_comma j w fs e₂ in
        let later = b',' ∷ (u ++ (b'}' ∷ r)) in
        let (p', key) = parse_key-stringify_string k (tv ++ later) p h.0 in
        let (q, back) = value_back v h.1 e₁ later p' fuel stops_at.1 (omega arith) in
        let shift = append_assoc obj ((k, v) ∷ []) ((j, w) ∷ entries fs) in
        let (q', back') =
          fields_back (field j w fs) refl eu h.2 (obj ++ (k, v) ∷ []) (rw shift dist) r (q + 1) fuel
            (omega arith) in
        rw (ok-injective (sym e₃) ∙ ap (λ z. stringify_string k ++ (b':' ∷ (tv ++ z))) comma) (
          rw (append_assoc (stringify_string k) (b':' ∷ (tv ++ (b',' ∷ u))) (b'}' ∷ r)) (
            rw (append_assoc tv (b',' ∷ u) (b'}' ∷ r)) (
              (
                q',
                parse_members_more fuel obj k _ (u ++ (b'}' ∷ r)) _ p' q key back
                    ∙ rw
                        (assign_fresh k v obj
                          (IsFresh-of_distinct obj k v ((j, w) ∷ entries fs) dist))
                        (back' ∙ rw shift),
              ))))
    fields_back (field k v fs) ne e h obj dist r p zero c = absurd (omega arith)

  json_parse_of_value :
      (t : Bytes) {v : Value N} {s : Cursor}
      → parse_value (2 * length t + 1) (at t 0) ≡ ok (v, s)
      → json_parse t ≡ ok v
  unfolding json_parse
  json_parse_of_value t e = rw e

  -- Where `stringify` of a value returns a text, `parse` of that text returns the value. The value's
  -- texts hold no control character that has no escape letter of its own, its objects hold no key
  -- twice, and the library's `std::stod` reads back what the library printed for each number.
  pub parse-stringify :
      (v : Value N) {t : Bytes} → IsPrintable v → stringify v ≡ ok t → json_parse t ≡ ok v
  unfolding stringify stops
  parse-stringify v {t} h e =
      let (q, back) =
        value_back v h e [] 0 (2 * length t + 1) refl (omega (arith, cost-le v h e)) in
      json_parse_of_value t (rw append-nil at back)
