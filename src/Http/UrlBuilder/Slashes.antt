-- ===== src/Http/UrlBuilder/Slashes.antt =====
-- Slashes and question marks where `HttpUrlBuilder::build` of cpp/http/HttpUrlBuilder.cpp joins the
-- parts of a URL.
use react_native_salve_db.Prelude.{
  ℕ, zero, suc, Bool, false, [], ◌∷◌, ◌++◌, ◌≡◌, ◌≢◌, refl, arith, Bytes, ◌==◌,
}
use react_native_salve_db.Http.UrlBuilder.{build, skip_questions, build_with_query}

-- `n` slashes
abbrev pub slashes : ℕ → Bytes
slashes zero = []
slashes (suc n) = b'/' ∷ slashes n

abbrev pub last_is : ℕ → Bytes → Bool
last_is x [] = false
last_is x (c ∷ []) = c == x
last_is x (c ∷ d ∷ cs) = last_is x (d ∷ cs)

abbrev questions : ℕ → Bytes
questions zero = []
questions (suc n) = b'?' ∷ questions n

skip_questions-questions :
    (n : ℕ) (s : Bytes) → skip_questions (questions n ++ s) ≡ skip_questions s
unfolding skip_questions
skip_questions-questions zero s = refl
skip_questions-questions (suc n) s = skip_questions-questions n s

skip_questions_stop : (c : ℕ) (s : Bytes) → c ≢ b'?' → skip_questions (c ∷ s) ≡ c ∷ s
unfolding skip_questions
skip_questions_stop c s h = ground arith

skip_questions_all : (n : ℕ) → skip_questions (questions n) ≡ []
unfolding skip_questions
skip_questions_all zero = refl
skip_questions_all (suc n) = skip_questions_all n

-- A query that does not begin with `?` stands behind exactly one, however many the template wrote
-- in front of it; where nothing else is left of the query there is none.
build_with_query-questions :
    (base path : Bytes) (c n : ℕ) (query : Bytes)
    → c ≢ b'?'
    → (build_with_query base path (questions n ++ (c ∷ query))
        ≡ build base path ++ (b'?' ∷ c ∷ query))
      × (build_with_query base path (questions n) ≡ build base path)
unfolding build_with_query
build_with_query-questions base path c n query ne = (
  rw (skip_questions-questions n (c ∷ query)) (rw (skip_questions_stop c query ne)),
  rw (skip_questions_all n),
)
