-- ===== src/Json/RoundTrip/Printable.antt =====
-- The values that `stringify` of cpp/database/json_parser.hpp writes so that `parse` reads them back,
-- and how deep the calls nest that read one.
use react_native_salve_db.Prelude.{
  ℕ, ◌+◌, ◌*◌, ◌≤◌, Bool, true, false, [], ◌∷◌, ◌++◌, ◌≡◌, sym, ◌∙◌, arith, Bytes, text, ok,
  >>=-eq-ok, ok-injective, ◌<◌, length, length-append,
}
use react_native_salve_db.OrderedMap.Laws.{IsDistinct}
use react_native_salve_db.Json.{
  Value, null, bool, number, string, array, object, Items, nil, cons, Fields, end, field, entries,
}
use react_native_salve_db.Json.Double.{Double}
use react_native_salve_db.Json.Printer.{
  separator, stringify_string, stringify_value, stringify_items, stringify_fields,
}
use react_native_salve_db.Json.RoundTrip.Strings.{IsPlain}
use react_native_salve_db.Json.RoundTrip.Numbers.{PrintsBack, numeral_head}

module _ {N : Type 0} ⦃d : Double N⦄ where
  -- What survives the round trip: plain texts, numbers that print back, and no key twice.
  unfoldable mutual
    pub IsPrintable : Value N → Type 0
    IsPrintable null = Unit
    IsPrintable (bool b) = Unit
    IsPrintable (number n) = PrintsBack n
    IsPrintable (string s) = IsPlain s
    IsPrintable (array xs) = ArePrintable xs
    IsPrintable (object fs) = IsDistinct (entries fs) × MembersArePrintable fs

    pub ArePrintable : Items N → Type 0
    ArePrintable nil = Unit
    ArePrintable (cons v xs) = IsPrintable v × ArePrintable xs

    pub MembersArePrintable : Fields N → Type 0
    MembersArePrintable end = Unit
    MembersArePrintable (field k v fs) = IsPlain k × IsPrintable v × MembersArePrintable fs

  -- Calls that `parseValue` nests in reading a value back.
  unfoldable mutual
    pub cost : Value N → ℕ
    cost null = 1
    cost (bool b) = 1
    cost (number n) = 1
    cost (string s) = 1
    cost (array xs) = 1 + cost_items xs
    cost (object fs) = 1 + cost_fields fs

    pub cost_items : Items N → ℕ
    cost_items nil = 0
    cost_items (cons v xs) = 1 + cost v + cost_items xs

    pub cost_fields : Fields N → ℕ
    cost_fields end = 0
    cost_fields (field k v fs) = 1 + cost v + cost_fields fs

  pub cost_pos : (v : Value N) → 0 < cost v
  unfolding cost
  cost_pos (array xs) = omega arith
  cost_pos (object fs) = omega arith
  cost_pos _ = omega arith

  -- the calls nested in reading a value are fewer than twice the bytes of its text
  mutual
    unfolding stringify_value stringify_items stringify_fields stringify_string cost cost_items
        cost_fields IsPrintable ArePrintable MembersArePrintable text

    pub cost-le :
        (v : Value N) {t : Bytes}
        → IsPrintable v
        → stringify_value v ≡ ok t
        → cost v + 1 ≤ 2 * length t
    cost-le null h e = rw (ok-injective (sym e)) (omega arith)
    cost-le (bool true) h e = rw (ok-injective (sym e)) (omega arith)
    cost-le (bool false) h e = rw (ok-injective (sym e)) (omega arith)
    cost-le (number n) h e =
        let (c, u, s, d) = numeral_head h.numeral h.is_numeral in
        rw (ok-injective (sym e ∙ h.prints) ∙ s) (omega arith)
    cost-le (string s) h e = rw (ok-injective (sym e)) (omega arith)
    cost-le (array xs) h e =
        let (u, e₁, e₂) = >>=-eq-ok (stringify_items true xs) _ e in
        rw (ok-injective (sym e₂))
          (omega (arith, cost_items-le xs true h e₁, length-append u (b']' ∷ [])))
    cost-le (object fs) h e =
        let (u, e₁, e₂) = >>=-eq-ok (stringify_fields true fs) _ e in
        rw (ok-injective (sym e₂))
          (omega (arith, cost_fields-le fs true h.1 e₁, length-append u (b'}' ∷ [])))

    cost_items-le :
        (xs : Items N) (b : Bool) {t : Bytes}
        → ArePrintable xs
        → stringify_items b xs ≡ ok t
        → cost_items xs ≤ 2 * length t
    cost_items-le nil b h e = omega arith
    cost_items-le (cons v xs) b h e =
        let (tv, e₁, e') = >>=-eq-ok (stringify_value v) _ e in
        let (ts, e₂, e₃) = >>=-eq-ok (stringify_items false xs) _ e' in
        rw (ok-injective (sym e₃)) (
          omega (
            arith,
            cost-le v h.0 e₁,
            cost_items-le xs false h.1 e₂,
            length-append (separator b) (tv ++ ts),
            length-append tv ts,
          ))

    cost_fields-le :
        (fs : Fields N) (b : Bool) {t : Bytes}
        → MembersArePrintable fs
        → stringify_fields b fs ≡ ok t
        → cost_fields fs ≤ 2 * length t
    cost_fields-le end b h e = omega arith
    cost_fields-le (field k v fs) b h e =
        let (tv, e₁, e') = >>=-eq-ok (stringify_value v) _ e in
        let (ts, e₂, e₃) = >>=-eq-ok (stringify_fields false fs) _ e' in
        rw (ok-injective (sym e₃)) (
          omega (
            arith,
            cost-le v h.1 e₁,
            cost_fields-le fs false h.2 e₂,
            length-append (separator b) (stringify_string k ++ (b':' ∷ (tv ++ ts))),
            length-append (stringify_string k) (b':' ∷ (tv ++ ts)),
            length-append tv ts,
          ))
