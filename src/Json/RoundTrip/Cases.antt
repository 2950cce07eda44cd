-- ===== src/Json/RoundTrip/Cases.antt =====
-- The first bytes of what `stringify` of cpp/database/json_parser.hpp writes, and what `parse` makes of
-- them: one lemma for each kind of value.
use react_native_salve_db.Prelude.{
  ℕ, suc, ◌+◌, ◌≤◌, true, false, [], ◌∷◌, ◌++◌, ◌≡◌, refl, sym, ◌∙◌, ap, arith, Bytes, text, Result,
  ok, >>=-eq-ok, ok-injective, zero, ◌==◌, length, is_digit,
}
use react_native_salve_db.Json.{
  Value, null, bool, number, string, array, object, Items, cons, Fields, field,
}
use react_native_salve_db.Json.Double.{Double}
use react_native_salve_db.Json.Cursor.{Cursor, at, head_or_zero, is_space}
use react_native_salve_db.Json.Parser.{parse_value, parse_items, parse_members}
use react_native_salve_db.Json.Printer.{
  stringify_string, stringify_number, stringify_value, stringify_items, stringify_fields,
}
use react_native_salve_db.Json.RoundTrip.Strings.{IsPlain, parse_string-stringify_string}
use react_native_salve_db.Json.RoundTrip.Numbers.{
  numeral_text, stops, PrintsBack, parse_number-numeral, numeral_head, starts_number,
}
use react_native_salve_db.Json.RoundTrip.Steps.{
  number_is_not_space, parse_value-number, parse_value-string, parse_value-array,
  parse_value-object,
}
use react_native_salve_db.Json.RoundTrip.Printable.{IsPrintable, cost}

not_bracket : (c : ℕ) → starts_number c ≡ true → (c == b']') ≡ false
unfolding is_digit
not_bracket c h = ground arith

module _ {N : Type 0} ⦃d : Double N⦄ where
  -- The first byte of a value's text is no white space and closes nothing.
  value_head :
      (v : Value N) {t : Bytes}
      → IsPrintable v
      → stringify_value v ≡ ok t
      → (c : ℕ) × (u : Bytes) × (t ≡ c ∷ u) × (is_space c ≡ false) × ((c == b']') ≡ false)
  unfolding IsPrintable stringify_value stringify_string text is_space
  value_head null h e = (_, _, ok-injective (sym e), refl, refl)
  value_head (bool true) h e = (_, _, ok-injective (sym e), refl, refl)
  value_head (bool false) h e = (_, _, ok-injective (sym e), refl, refl)
  value_head (number n) h e =
      let (c, u, s, d) = numeral_head h.numeral h.is_numeral in
      (c, u, ok-injective (sym e ∙ h.prints) ∙ s, number_is_not_space c d, not_bracket c d)
  value_head (string s) h e = (_, _, ok-injective (sym e), refl, refl)
  value_head (array xs) h e =
      let (ts, _, e') = >>=-eq-ok (stringify_items true xs) _ e in
      (_, _, ok-injective (sym e'), refl, refl)
  value_head (object fs) h e =
      let (ts, _, e') = >>=-eq-ok (stringify_fields true fs) _ e in
      (_, _, ok-injective (sym e'), refl, refl)

  -- Reading `t` in front of `r` gives `v`, and stops in front of `r`.
  abbrev pub ReadsBack : Value N → Bytes → Type 0
  ReadsBack v t =
      (r : Bytes) (p fuel : ℕ)
      → stops (head_or_zero r) ≡ true
      → cost v ≤ fuel
      → (q : ℕ) × (parse_value fuel (at (t ++ r) p) ≡ ok (v, at r q))

  pub number_case :
      (n : N) → PrintsBack n → (t : Bytes) → stringify_number n ≡ ok t → ReadsBack (number n) t
  unfolding cost
  number_case n w t e r p zero st c = elim c [ ]
  number_case n w t e r p (suc fuel) st c =
      let (k, u, s, first) = numeral_head w.numeral w.is_numeral in
      let back = parse_number-numeral n w r p st in
      (
        p + length (numeral_text w.numeral),
        rw (ok-injective (sym e ∙ w.prints))
            (rw s (parse_value-number fuel k (u ++ r) p first (rw s at back))),
      )

  pub string_case : (s : Bytes) → IsPlain s → ReadsBack (string s) (stringify_string s)
  unfolding cost stringify_string
  string_case s h r p zero st c = elim c [ ]
  string_case s h r p (suc fuel) st c =
      let (q, e) = parse_string-stringify_string s r p h in (q, parse_value-string fuel _ p e)

  pub items_after_comma :
      (v : Value N) (xs : Items N) {t : Bytes}
      → stringify_items false (cons v xs) ≡ ok t
      → (u : Bytes) × (stringify_items true (cons v xs) ≡ ok u) × (t ≡ b',' ∷ u)
  unfolding stringify_items
  items_after_comma v xs e =
      let (tv, e₁, e') = >>=-eq-ok (stringify_value v) _ e in
      let (ts, e₂, e₃) = >>=-eq-ok (stringify_items false xs) _ e' in
      (tv ++ ts, rw e₁ (rw e₂), ok-injective (sym e₃))

  pub fields_after_comma :
      (k : Bytes) (v : Value N) (fs : Fields N) {t : Bytes}
      → stringify_fields false (field k v fs) ≡ ok t
      → (u : Bytes) × (stringify_fields true (field k v fs) ≡ ok u) × (t ≡ b',' ∷ u)
  unfolding stringify_fields
  fields_after_comma k v fs e =
      let (tv, e₁, e') = >>=-eq-ok (stringify_value v) _ e in
      let (ts, e₂, e₃) = >>=-eq-ok (stringify_fields false fs) _ e' in
      (stringify_string k ++ (b':' ∷ (tv ++ ts)), rw e₁ (rw e₂), ok-injective (sym e₃))

  pub array_case :
      (f : ℕ) (v : Value N) (xs : Items N) (u r : Bytes) (p : ℕ) {res : Result (Value N × Cursor)}
      → IsPrintable v
      → stringify_items true (cons v xs) ≡ ok u
      → parse_items f [] (at (u ++ (b']' ∷ r)) (p + 1)) ≡ res
      → parse_value (suc f) (at (b'[' ∷ (u ++ (b']' ∷ r))) p) ≡ res
  unfolding stringify_items
  array_case f v xs u r p h e back =
      let (tv, e₁, e') = >>=-eq-ok (stringify_value v) _ e in
      let (ts, e₂, e₃) = >>=-eq-ok (stringify_items false xs) _ e' in
      let (c, w, s, not_sp, not_br) = value_head v h e₁ in
      let split : u ≡ c ∷ (w ++ ts) = ok-injective (sym e₃) ∙ ap (λ z. z ++ ts) s in
      rw split (parse_value-array f c _ p not_sp not_br ∙ rw split at back)

  pub object_case :
      (f : ℕ) (k : Bytes) (v : Value N) (fs : Fields N) (u r : Bytes) (p : ℕ)
      {res : Result (Value N × Cursor)}
      → stringify_fields true (field k v fs) ≡ ok u
      → parse_members f [] (at (u ++ (b'}' ∷ r)) (p + 1)) ≡ res
      → parse_value (suc f) (at (b'{' ∷ (u ++ (b'}' ∷ r))) p) ≡ res
  unfolding stringify_fields stringify_string
  object_case f k v fs u r p e back =
      let (tv, e₁, e') = >>=-eq-ok (stringify_value v) _ e in
      let (ts, e₂, e₃) = >>=-eq-ok (stringify_fields false fs) _ e' in
      let split = ok-injective (sym e₃) in rw split (parse_value-object f _ p ∙ rw split at back)
