-- ===== src/Http/UrlTemplate/Rendering.antt =====
-- `UrlTemplate::render` of cpp/http/UrlTemplate.cpp on the templates that `parse` accepts.
use react_native_salve_db.Prelude.{
  ◌≢◌, ℕ, Bool, true, false, List, [], ◌∷◌, ◌++◌, some, Bytes, text, str_eq, str_eq_iff, ◌≡◌, refl,
  sym, ◌∙◌, ap, inl, inr, arith, ok, ◌>>=◌, ◌==◌, if◌then◌else◌, All, All-append, Bool-cases,
  Option-cases,
}
use react_native_salve_db.OrderedMap.{OrderedMap, find, contains, at}
use react_native_salve_db.OrderedMap.Laws.{at_of_find, contains_not_none}
use react_native_salve_db.Http.UrlBuilder.{encode_segment}
use react_native_salve_db.Http.UrlBuilder.Encoding.{IsEncoded, encode_segment-IsEncoded}
use react_native_salve_db.Http.UrlTemplate.{
  Context, Segment, UrlTemplate, is_known_token, parse, render_literal, render_value,
  render_segments, render,
}
use react_native_salve_db.Http.UrlTemplate.Accepted.{IsLegal, IsGood, parse-IsGood}

-- a byte of a rendered text: legal and no space
abbrev pub IsUrlByte : ℕ → Type 0
IsUrlByte c = IsLegal c × (c ≢ 32)

-- The variables of a context have values, and the raw one, `basePath`, is of such bytes.
pub record Supplies (context : Context) (vars : OrderedMap Bytes) : Type 0 where
  pub present : (token : Bytes) → is_known_token context token ≡ true → contains token vars ≡ true
  pub base_path : (v : Bytes) → find (text "basePath") vars ≡ some v → All IsUrlByte v

All-map {κ} : {P Q : ℕ → Type κ} (s : List ℕ) → ((c : ℕ) → P c → Q c) → All P s → All Q s
All-map [] f h = tt
All-map (c ∷ cs) f h = (f c h.0, All-map cs f h.1)

encoded_is_url : (c : ℕ) → IsEncoded c → IsUrlByte c
encoded_is_url c h = ground arith

escaped_space_is_url : All IsUrlByte (text "%20")
unfolding text
escaped_space_is_url = ground arith

render_literal-IsUrlByte : (s : Bytes) → All IsLegal s → All IsUrlByte (render_literal s)
unfolding render_literal
render_literal-IsUrlByte [] h = tt
render_literal-IsUrlByte (c ∷ cs) h =
    All-append IsUrlByte (if c == 32 then text "%20" else c ∷ []) _ (first (c == 32) refl)
      (render_literal-IsUrlByte cs h.1)
  where
    first : (b : Bool) → (c == 32) ≡ b → All IsUrlByte (if b then text "%20" else c ∷ [])
    first true e = escaped_space_is_url
    first false e = ((h.0, ground arith), tt)

module _ (context : Context) (vars : OrderedMap Bytes) (supplies : Supplies context vars) where
  render_value-IsUrlByte :
      (name v : Bytes) → find name vars ≡ some v → All IsUrlByte (render_value name v)
  unfolding render_value
  render_value-IsUrlByte name v e = elim (Bool-cases (str_eq name (text "basePath"))) [
    | inl raw ↦ rw raw (
        supplies.base_path v
          (ap (λ k. find k vars) (sym ((str_eq_iff name (text "basePath")).0 raw)) ∙ e))
    | inr encoded ↦
        rw encoded (All-map (encode_segment v) encoded_is_url (encode_segment-IsEncoded v))
  ]

  -- one segment
  piece :
      (s : Segment)
      → IsGood context s
      → (out : Bytes) × ((if s.is_variable
            then (at s.content vars >>= λ value. ok (render_value s.content value))
            else ok (render_literal s.content))
          ≡ ok out)
        × All IsUrlByte out
  piece s g = elim (Bool-cases s.is_variable) [
    | inl variable ↦ elim (Option-cases (find s.content vars)) [
      | inl missing ↦
          absurd (
            contains_not_none s.content vars (supplies.present s.content (g.known variable))
              missing)
      | inr (v, found) ↦ (
        render_value s.content v,
        rw variable (rw (at_of_find s.content vars found)),
        render_value-IsUrlByte s.content v found,
      )
    ]
    | inr literal ↦ (
      render_literal s.content,
      rw literal refl,
      render_literal-IsUrlByte s.content (g.legal literal),
    )
  ]

  render_segments_total :
      (segments : List Segment)
      → All (IsGood context) segments
      → (out : Bytes) × (render_segments vars segments ≡ ok out) × All IsUrlByte out
  unfolding render_segments
  render_segments_total [] g = ([], refl, tt)
  render_segments_total (s ∷ segments) g =
      let (first, e, h) = piece s g.0 in
      let (rest, e', h') = render_segments_total segments g.1 in
      (first ++ rest, rw e (rw e'), All-append IsUrlByte first rest h h')

-- A template that `parse` accepted for a context renders whenever the variables of that context are
-- supplied: it throws nothing, and writes printable ASCII only, without spaces, double quotes, angle
-- brackets, backticks and hash signs, provided that the raw `basePath` is written so.
pub render_accepted :
    (context : Context) (field_name raw : Bytes) (vars : OrderedMap Bytes) {t : UrlTemplate}
    → parse context field_name raw ≡ ok t
    → Supplies context vars
    → (url : Bytes) × (render t vars ≡ ok url) × All IsUrlByte url
unfolding render
render_accepted context field_name raw vars e supplies =
    let (parsed, good) = parse-IsGood context field_name raw e in
    let (url, made, h) = render_segments_total context vars supplies _ good in
    (url, rw parsed made, h)
