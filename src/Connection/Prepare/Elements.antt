-- ===== src/Connection/Prepare/Elements.antt =====
-- The list `_lru` and the iterators that `_cache` holds: what is found, moved to the front, or dropped.
use react_native_salve_db.Prelude.{
  ℕ, suc, ◌≤◌, ◌<◌, ◌≡◌, ◌≢◌, refl, sym, ap, List, [], ◌∷◌, Option, none, some, Bytes, inl, inr,
  str_eq, str_eq_iff, str_eq_refl, ◌==◌, if◌then◌else◌, take, drop, length, Bool-cases,
  Option-cases, true, false, ==_iff, ==_refl, arith,
}
use react_native_salve_db.Connection.Prepare.{
  Node, StatementCache, cache_capacity, cache_without, splice_out, split_last,
}

module _ {H : Type 0} where
  abbrev pub entries : List (Node H) → List (Bytes × H)
  entries [] = []
  entries (n ∷ ns) = (n.sql, n.statement) ∷ entries ns

  abbrev pub statement_for : Bytes → List (Bytes × H) → Option H
  statement_for q [] = none
  statement_for q ((k, h) ∷ l) = if str_eq q k then some h else statement_for q l

  abbrev pub without : Bytes → List (Bytes × H) → List (Bytes × H)
  without q [] = []
  without q ((k, h) ∷ l) = if str_eq q k then l else (k, h) ∷ without q l

  abbrev pub iterator_of : Bytes → List (Node H) → Option ℕ
  iterator_of q [] = none
  iterator_of q (n ∷ ns) = if str_eq q n.sql then some n.iterator else iterator_of q ns

  -- no two elements have the same text or the same place
  abbrev pub IsDistinct : List (Node H) → Type 0
  IsDistinct [] = Unit
  IsDistinct (n ∷ ns) =
      (iterator_of n.sql ns ≡ none) × (splice_out n.iterator ns ≡ none) × IsDistinct ns

  abbrev pub IsBelow : ℕ → List (Node H) → Type 0
  IsBelow k [] = Unit
  IsBelow k (n ∷ ns) = (n.iterator < k) × IsBelow k ns

  -- The cache finds each element of the list by its text, and there are at most as many as it holds.
  pub record IsCache (st : StatementCache H) : Type 0 where
    pub bounded : length st.lru ≤ cache_capacity
    pub agrees : (q : Bytes) → st.cache q ≡ iterator_of q st.lru
    pub distinct : IsDistinct st.lru
    pub fresh : IsBelow st.next_iterator st.lru

  pub statement_for-none :
      (q : Bytes) (l : List (Node H)) → iterator_of q l ≡ none → statement_for q (entries l) ≡ none
  statement_for-none q [] e = refl
  statement_for-none q (n ∷ ns) e = ground (arith, statement_for-none q ns)

  pub IsBelow-weaken : (k : ℕ) (l : List (Node H)) → IsBelow k l → IsBelow (suc k) l
  IsBelow-weaken k [] b = tt
  IsBelow-weaken k (n ∷ ns) b = (omega arith, IsBelow-weaken k ns b.1)

  pub splice_out-fresh : (k : ℕ) (l : List (Node H)) → IsBelow k l → splice_out k l ≡ none
  unfolding splice_out
  splice_out-fresh k [] b = refl
  splice_out-fresh k (n ∷ ns) b = ground (arith, splice_out-fresh k ns b.1)

  -- what an iterator of the cache points to
  pub record Spliced (q : Bytes) (it : ℕ) (l : List (Node H)) (n : Node H) (rest : List (Node H))
      : Type 0 where
    pub found : splice_out it l ≡ some (n, rest)
    pub sql : n.sql ≡ q
    pub place : n.iterator ≡ it
    pub statement : statement_for q (entries l) ≡ some n.statement
    pub others : entries rest ≡ without q (entries l)
    pub distinct : IsDistinct rest
    pub gone : iterator_of q rest ≡ none
    pub moved : splice_out it rest ≡ none
    pub sizes : suc (length rest) ≡ length l
    pub same : (p : Bytes) → p ≢ q → iterator_of p rest ≡ iterator_of p l
    pub below : (k : ℕ) → IsBelow k l → (it < k) × IsBelow k rest
    pub absent : (j : ℕ) → splice_out j l ≡ none → splice_out j rest ≡ none

  splice_out-absent :
      (j : ℕ) (x : Node H) (xs : List (Node H))
      → splice_out j (x ∷ xs) ≡ none
      → ((x.iterator == j) ≡ false) × (splice_out j xs ≡ none)
  unfolding splice_out
  splice_out-absent j x xs h = elim (Bool-cases (x.iterator == j)) [
    | inl same ↦ ground arith
    | inr other ↦ elim (Option-cases (splice_out j xs)) [
      | inl gone ↦ (other, gone)
      | inr (m, e) ↦ ground arith
    ]
  ]

  splice_out_here :
      (x : Node H) (xs : List (Node H))
      → IsDistinct (x ∷ xs)
      → Spliced x.sql x.iterator (x ∷ xs) x xs
  unfolding splice_out
  splice_out_here x xs d = record {
    found = ground (arith, ==_refl x.iterator);
    sql = refl;
    place = refl;
    statement = ground (arith, str_eq_refl x.sql);
    others = ground (arith, str_eq_refl x.sql);
    distinct = d.2;
    gone = d.0;
    moved = d.1;
    sizes = refl;
    same = λ p ne. ground (arith, str_eq_iff p x.sql);
    below = λ k b. b;
    absent = λ j h. (splice_out-absent j x xs h).1;
  }

  place_differs :
      (it : ℕ) (x : Node H) (xs : List (Node H)) (m : Node H × List (Node H))
      → splice_out x.iterator xs ≡ none
      → splice_out it xs ≡ some m
      → (x.iterator == it) ≡ false
  place_differs it x xs m d e = elim (Bool-cases (x.iterator == it)) [
    | inl same ↦ let p = (==_iff x.iterator it).0 same in cc
    | inr other ↦ other
  ]

  splice_out_there :
      (q : Bytes) (it : ℕ) (x : Node H) (xs : List (Node H)) (n : Node H) (rest : List (Node H))
      → IsDistinct (x ∷ xs)
      → str_eq q x.sql ≡ false
      → Spliced q it xs n rest
      → Spliced q it (x ∷ xs) n (x ∷ rest)
  unfolding splice_out
  splice_out_there q it x xs n rest d there s = record {
    found = rw (place_differs it x xs (n, rest) d.1 s.found, s.found) refl;
    sql = s.sql;
    place = s.place;
    statement = rw (there, s.statement) refl;
    others = rw (there, s.others) refl;
    distinct = (
      rw (s.same x.sql (λ e. ground (arith, str_eq_iff q x.sql))) d.0,
      s.absent x.iterator d.1,
      s.distinct,
    );
    gone = rw (there, s.gone) refl;
    moved = rw (place_differs it x xs (n, rest) d.1 s.found, s.moved) refl;
    sizes = omega (arith, s.sizes);
    same = λ p ne. rw (s.same p ne) refl;
    below = λ k b. let (i, r) = s.below k b.1 in (i, (b.0, r));
    absent = λ j h.
        let (ne, none_there) = splice_out-absent j x xs h in rw (ne, s.absent j none_there) refl;
  }

  at_head :
      (q : Bytes) (it : ℕ) (x : Node H) (xs : List (Node H))
      → str_eq q x.sql ≡ true
      → iterator_of q (x ∷ xs) ≡ some it
      → x.iterator ≡ it
  at_head q it x xs here e = ground arith

  pub splice_out-lem :
      (q : Bytes) (it : ℕ) (l : List (Node H))
      → IsDistinct l
      → iterator_of q l ≡ some it
      → (n : Node H) × (rest : List (Node H)) × Spliced q it l n rest
  splice_out-lem q it [] d e = cc
  splice_out-lem q it (x ∷ xs) d e = elim (Bool-cases (str_eq q x.sql)) [
    | inl here ↦ (
      x,
      xs,
      rw ((str_eq_iff q x.sql).0 here, sym (at_head q it x xs here e)) (splice_out_here x xs d),
    )
    | inr there ↦
        let (n, rest, s) = splice_out-lem q it xs d.2 (ground arith) in
        (n, x ∷ rest, splice_out_there q it x xs n rest d there s)
  ]

  -- the list without its last element, which it has
  pub record Dropped (l front : List (Node H)) (last : Node H) : Type 0 where
    pub kept : entries front ≡ take (length front) (entries l)
    pub cut : drop (length front) (entries l) ≡ (last.sql, last.statement) ∷ []
    pub sizes : suc (length front) ≡ length l
    pub is_there : iterator_of last.sql l ≡ some last.iterator
    pub agrees : (q : Bytes) → iterator_of q front ≡ cache_without last.sql (λ p. iterator_of p l) q
    pub distinct : IsDistinct front
    pub below : (k : ℕ) → IsBelow k l → IsBelow k front
    pub absent : (j : ℕ) → splice_out j l ≡ none → splice_out j front ≡ none

  Dropped-cons :
      (x : Node H) (l front : List (Node H)) (last : Node H)
      → IsDistinct (x ∷ l)
      → Dropped l front last
      → Dropped (x ∷ l) (x ∷ front) last
  unfolding cache_without splice_out
  Dropped-cons x l front last d r = record {
    kept = ap (◌∷◌ (x.sql, x.statement)) r.kept;
    cut = r.cut;
    sizes = omega (arith, r.sizes);
    is_there = rw (differs, r.is_there) refl;
    agrees = λ q. rw (r.agrees q) (ground (arith, str_eq_iff q x.sql, str_eq_iff q last.sql));
    distinct = (rw (r.agrees x.sql) (ground arith), r.absent x.iterator d.1, r.distinct);
    below = λ k b. (b.0, r.below k b.1);
    absent = λ j h.
        let (ne, none_there) = splice_out-absent j x l h in rw (ne, r.absent j none_there) refl;
  }
    where
      differs : str_eq last.sql x.sql ≡ false
      differs = elim (Bool-cases (str_eq last.sql x.sql)) [
        | inl same ↦
            let p = (str_eq_iff last.sql x.sql).0 same in let e = r.is_there in let g = d.0 in cc
        | inr other ↦ other
      ]

  pub split_last-lem :
      (x : Node H) (xs : List (Node H))
      → IsDistinct (x ∷ xs)
      → Dropped (x ∷ xs) (split_last x xs).0 (split_last x xs).1
  unfolding split_last cache_without splice_out
  split_last-lem x [] d = record {
    kept = refl;
    cut = refl;
    sizes = refl;
    is_there = ground (arith, str_eq_refl x.sql);
    agrees = λ q. ground arith;
    distinct = tt;
    below = λ k b. tt;
    absent = λ j h. refl;
  }
  split_last-lem x (y ∷ ys) d = Dropped-cons x (y ∷ ys) _ _ d (split_last-lem y ys d.2)
