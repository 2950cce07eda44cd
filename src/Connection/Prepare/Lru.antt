-- ===== src/Connection/Prepare/Lru.antt =====
-- What `getOrPrepare` does to the statements, without iterators: a list of texts with their statements,
-- the most recent first.
use react_native_salve_db.Prelude.{
  ℕ, zero, suc, ◌≤◌, ◌<◌, ◌≡◌, refl, sym, ap, ◌∙◌, List, [], ◌∷◌, Option, none, some, Bytes, inl,
  inr, str_eq_iff, Result, ok, err, runtime_error, ltb, take, drop, length, Bool-cases,
  Option-cases, ltb→lt, arith,
}
use react_native_salve_db.Connection.Prepare.{
  Node, StatementCache, Statements, Prepared, SqliteError, prepared, refused, prepare_error,
  cache_capacity, cache_with, cache_without, splice_out, split_last, reuse, keep, evict_lru,
  make_room, after_prepare, prepare_anew, get_or_prepare,
}
use react_native_salve_db.Connection.Prepare.Elements.{
  entries, statement_for, without, IsCache, statement_for-none, IsBelow-weaken, splice_out-fresh,
  splice_out-lem, Dropped, split_last-lem,
}

module _ {H : Type 0} where
  length-entries : (l : List (Node H)) → length (entries l) ≡ length l
  length-entries [] = refl
  length-entries (n ∷ l) = ap suc (length-entries l)

  take-all : (k : ℕ) (l : List (Bytes × H)) → length l ≤ k → take k l ≡ l
  take-all zero [] h = refl
  take-all zero (x ∷ l) h = absurd (omega arith)
  take-all (suc k) [] h = refl
  take-all (suc k) (x ∷ l) h = ap (◌∷◌ x) (take-all k l (omega arith))

  drop-all : (k : ℕ) (l : List (Bytes × H)) → length l ≤ k → drop k l ≡ []
  drop-all zero [] h = refl
  drop-all zero (x ∷ l) h = absurd (omega arith)
  drop-all (suc k) [] h = refl
  drop-all (suc k) (x ∷ l) h = drop-all k l (omega arith)

  keep-IsCache :
      (sql : Bytes) (h : H) (st : StatementCache H)
      → IsCache st
      → length st.lru < cache_capacity
      → st.cache sql ≡ none
      → IsCache (keep sql h st)
  unfolding keep cache_with
  keep-IsCache sql h st v room none_there = record {
    bounded = omega (arith, room);
    agrees = λ q. rw (v.agrees q) refl;
    distinct = (
      sym (v.agrees sql) ∙ none_there,
      splice_out-fresh st.next_iterator st.lru v.fresh,
      v.distinct,
    );
    fresh = (omega arith, IsBelow-weaken st.next_iterator st.lru v.fresh);
  }

module _ {W H : Type 0} ⦃s : Statements W H⦄ where
  -- what is finalized of a list of entries
  abbrev pub finalize_all : List (Bytes × H) → W → W
  finalize_all [] w = w
  finalize_all ((k, h) ∷ l) w = finalize_all l (s.finalize h w)

  -- What getOrPrepare gives and leaves behind, with 99 for one less than the capacity.
  pub data Prepares (sql : Bytes) (st : StatementCache H) (w : W)
      : Result H × (StatementCache H × W) → Type 0 where
    reused :
        (h : H) (st' : StatementCache H)
        → statement_for sql (entries st.lru) ≡ some h
        → entries st'.lru ≡ (sql, h) ∷ without sql (entries st.lru)
        → st'.prepare_count ≡ st.prepare_count
        → IsCache st'
        → Prepares sql st w (ok h, (st', w))
    made :
        (h : H) (st' : StatementCache H) (w' : W)
        → statement_for sql (entries st.lru) ≡ none
        → s.prepare sql (finalize_all (drop 99 (entries st.lru)) w) ≡ (prepared h, w')
        → entries st'.lru ≡ (sql, h) ∷ take 99 (entries st.lru)
        → st'.prepare_count ≡ suc st.prepare_count
        → IsCache st'
        → Prepares sql st w (ok h, (st', w'))
    failed :
        (e : SqliteError) (st' : StatementCache H) (w' : W)
        → statement_for sql (entries st.lru) ≡ none
        → s.prepare sql (finalize_all (drop 99 (entries st.lru)) w) ≡ (refused e, w')
        → entries st'.lru ≡ take 99 (entries st.lru)
        → st'.prepare_count ≡ st.prepare_count
        → IsCache st'
        → Prepares sql st w (err (runtime_error (prepare_error e sql)), (st', w'))

  -- the cache with room for one more
  record Roomy (st : StatementCache H) (w : W) (st' : StatementCache H) (w' : W) : Type 0 where
    kept : entries st'.lru ≡ take 99 (entries st.lru)
    world : w' ≡ finalize_all (drop 99 (entries st.lru)) w
    room : length st'.lru < cache_capacity
    valid : IsCache st'
    count : st'.prepare_count ≡ st.prepare_count
    absent : (q : Bytes) → st.cache q ≡ none → st'.cache q ≡ none

  full-Roomy :
      (lru : List (Node H)) (cache : Bytes → Option ℕ) (next count : ℕ) (w : W)
      → length lru ≡ 100
      → IsCache (record { lru = lru; cache = cache; next_iterator = next; prepare_count = count })
      → (let st : StatementCache H = record {
        lru = lru;
        cache = cache;
        next_iterator = next;
        prepare_count = count;
      } in
          Roomy st w (evict_lru (st, w)).0 (evict_lru (st, w)).1)
  unfolding evict_lru cache_without
  full-Roomy [] cache next count w full v = absurd (omega arith)
  full-Roomy (n ∷ ns) cache next count w full v = record {
    kept = rw size at d.kept;
    world = let c = rw size at d.cut in rw c refl;
    room = omega (arith, size);
    valid = record {
      bounded = omega (arith, size);
      agrees = λ q. rw (d.agrees q, v.agrees q) refl;
      distinct = d.distinct;
      fresh = d.below next v.fresh;
    };
    count = refl;
    absent = λ q e. rw e (ground arith);
  }
    where
      d : Dropped (n ∷ ns) (split_last n ns).0 (split_last n ns).1
      d = split_last-lem n ns v.distinct

      size : length (split_last n ns).0 ≡ 99
      size = omega (arith, d.sizes)

  make_room-Roomy :
      (st : StatementCache H) (w : W)
      → IsCache st
      → Roomy st w (make_room (st, w)).0 (make_room (st, w)).1
  unfolding make_room
  make_room-Roomy st w v = elim (Bool-cases (ltb (length st.lru) 100)) [
    | inl small ↦
        let few : length (entries st.lru) ≤ 99 =
          omega (arith, length-entries st.lru, ltb→lt _ _ small) in
        rw small record {
          kept = sym (take-all 99 _ few);
          world = rw (drop-all 99 _ few) refl;
          room = ltb→lt _ _ small;
          valid = v;
          count = refl;
          absent = λ q e. e;
        }
    | inr full ↦ rw full (
        full-Roomy st.lru st.cache st.next_iterator st.prepare_count w (ground (arith, v.bounded))
          v)
  ]

  hit-Prepares :
      (sql : Bytes) (st : StatementCache H) (w : W) (it : ℕ)
      → IsCache st
      → st.cache sql ≡ some it
      → Prepares sql st w (let (r, st') = reuse st (splice_out it st.lru) in (r, (st', w)))
  unfolding reuse
  hit-Prepares sql st w it v e =
      let (n, rest, p) = splice_out-lem sql it st.lru v.distinct (sym (v.agrees sql) ∙ e) in
      rw p.found (
        reused n.statement (record st { lru = n ∷ rest }) p.statement (rw (p.others, p.sql) refl)
          refl
          record {
            bounded = omega (arith, v.bounded, p.sizes);
            agrees =
                λ q. rw (p.sql, p.place) (ground (arith, str_eq_iff q sql, v.agrees q, p.same q));
            distinct = (rw p.sql p.gone, rw p.place p.moved, p.distinct);
            fresh = let (i, r) = p.below st.next_iterator v.fresh in (omega (arith, p.place), r);
          })

  after_prepare-Prepares :
      (sql : Bytes) (st : StatementCache H) (w : W) (st' : StatementCache H) (w' : W)
      (p : Prepared H × W)
      → IsCache st
      → st.cache sql ≡ none
      → Roomy st w st' w'
      → s.prepare sql w' ≡ p
      → Prepares sql st w (after_prepare sql st' p)
  unfolding after_prepare keep
  after_prepare-Prepares sql st w st' w' (refused e, w'') v miss r got =
      failed e st' w'' (statement_for-none sql st.lru (sym (v.agrees sql) ∙ miss))
        (rw (sym r.world) got) r.kept r.count r.valid
  after_prepare-Prepares sql st w st' w' (prepared h, w'') v miss r got =
      made h (keep sql h st') w'' (statement_for-none sql st.lru (sym (v.agrees sql) ∙ miss))
        (rw (sym r.world) got) (rw r.kept refl) (ap suc r.count)
        (keep-IsCache sql h st' r.valid r.room (r.absent sql miss))

  -- On a cache of at most a hundred statements, each found by its text: a text that is there gives its
  -- statement without a call of SQLite, and only moves to the front. Another text is prepared behind
  -- the finalizing of what stands from the hundredth place on; where it is refused, only that is gone,
  -- and otherwise it stands in front of the rest. The cache is again of that kind.
  pub get_or_prepare-Prepares :
      (sql : Bytes) (st : StatementCache H) (w : W)
      → IsCache st
      → Prepares sql st w (get_or_prepare sql (st, w))
  unfolding get_or_prepare prepare_anew after_prepare keep reuse
  get_or_prepare-Prepares sql st w v = elim (Option-cases (st.cache sql)) [
    | inl e ↦ rw e (after_prepare-Prepares sql st w _ _ _ v e (make_room-Roomy st w v) refl)
    | inr (it, e) ↦ rw e (hit-Prepares sql st w it v e)
  ]
