-- ===== src/Connection/Prepare.antt =====
-- The prepared statements of cpp/database/SQLiteConnection.cpp: `_lru`, with the most recent first, and
-- `_cache`, which finds an element of that list by its SQL text. SQLite is an interface.
pub mod Elements
pub mod Lru
use react_native_salve_db.Prelude.{
  ℕ, suc, ◌+◌, ◌%◌, Bool, List, [], ◌∷◌, ◌++◌, Option, none, some, Bytes, text, em_dash, str_eq,
  Exception, Result, ok, err, runtime_error, if◌then◌else◌, ◌==◌, ◌||◌, ltb, not, length,
}
use react_native_salve_db.Exec.{Exec}

-- An element of `_lru`. The number stands for the iterator that points to it.
pub record Node (H : Type 0) : Type 0 where
  pub iterator : ℕ
  pub sql : Bytes
  pub statement : H

-- `next_iterator` is larger than the number of every element.
pub record StatementCache (H : Type 0) : Type 0 where
  pub lru : List (Node H)
  pub cache : Bytes → Option ℕ
  pub next_iterator : ℕ
  pub prepare_count : ℕ

-- a failed call's extended error code and message
pub record SqliteError : Type 0 where
  pub extended_code : ℕ
  pub message : Bytes

pub data Prepared (H : Type 0) : Type 0 where
  prepared : H → Prepared H
  refused : SqliteError → Prepared H

-- `sqlite3_prepare_v2` and `sqlite3_finalize`
pub record Statements (W H : Type 0) : Type 0 where
  pub prepare : Bytes → W → Prepared H × W
  pub finalize : H → W → W

-- `errorPrefix`: SQLITE_CONSTRAINT is 19, SQLITE_BUSY 5 and SQLITE_LOCKED 6
unfoldable pub error_prefix : ℕ → Bytes
error_prefix primary_code =
    if primary_code == 19
    then text "SQLITE_CONSTRAINT: "
    else if primary_code == 5 || primary_code == 6
    then text "SQLITE_BUSY: "
    else text "SQLITE_ERROR: "

unfoldable pub prepare_error : SqliteError → Bytes → Bytes
prepare_error e sql =
    error_prefix (e.extended_code % 256)
    ++ (text "SQLite prepare error: "
        ++ (e.message ++ (text " " ++ (em_dash ++ (text " SQL: " ++ sql)))))

-- `kCacheCapacity`
abbrev pub cache_capacity : ℕ
cache_capacity = 100

-- what follows an iterator that points to no element, which the source leaves undefined
abbrev dangling : Exception
dangling = runtime_error (text "dangling iterator")

unfoldable pub cache_with : Bytes → ℕ → (Bytes → Option ℕ) → Bytes → Option ℕ
cache_with sql it cache q = if str_eq q sql then some it else cache q

unfoldable pub cache_without : Bytes → (Bytes → Option ℕ) → Bytes → Option ℕ
cache_without sql cache q = if str_eq q sql then none else cache q

module _ {H : Type 0} where
  -- the element that an iterator points to, and the list without it
  unfoldable pub splice_out : ℕ → List (Node H) → Option (Node H × List (Node H))
  splice_out it [] = none
  splice_out it (n ∷ ns) =
      let rest = splice_out it ns in
      if n.iterator == it
      then some (n, ns)
      else elim rest [ none ↦ none | some (m, ms) ↦ some (m, n ∷ ms) ]

  -- `std::prev(_lru.end())` of a list with an element, and the elements before it
  unfoldable pub split_last : Node H → List (Node H) → List (Node H) × Node H
  split_last n [] = ([], n)
  split_last n (m ∷ ns) = let (front, last) = split_last m ns in (n ∷ front, last)

  -- the element that the cache's iterator points to goes to the front
  unfoldable pub reuse :
      StatementCache H → Option (Node H × List (Node H)) → Result H × StatementCache H
  reuse st none = (err dangling, st)
  reuse st (some (n, rest)) = (ok n.statement, record st { lru = n ∷ rest })

  -- `_lru.emplace_front` and `_cache[sql] = _lru.begin()`
  unfoldable pub keep : Bytes → H → StatementCache H → StatementCache H
  keep sql statement st = record {
    lru = record { iterator = st.next_iterator; sql = sql; statement = statement } ∷ st.lru;
    cache = cache_with sql st.next_iterator st.cache;
    next_iterator = suc st.next_iterator;
    prepare_count = suc st.prepare_count;
  }

module _ {W H : Type 0} ⦃s : Statements W H⦄ where
  -- `evictLRU`
  unfoldable pub evict_lru : StatementCache H × W → StatementCache H × W
  evict_lru (st, w) = elim st.lru [
    | [] ↦ (st, w)
    | n ∷ ns ↦
        let (front, last) = split_last n ns in
        (
          record st { lru = front; cache = cache_without last.sql st.cache },
          s.finalize last.statement w,
        )
  ]

  -- room for one more
  unfoldable pub make_room : StatementCache H × W → StatementCache H × W
  make_room (st, w) =
      if not (ltb (length st.lru) cache_capacity) then evict_lru (st, w) else (st, w)

  -- behind `sqlite3_prepare_v2`
  unfoldable pub after_prepare :
      Bytes → StatementCache H → Prepared H × W → Result H × (StatementCache H × W)
  after_prepare sql st (refused e, w) = (err (runtime_error (prepare_error e sql)), (st, w))
  after_prepare sql st (prepared statement, w) = (ok statement, (keep sql statement st, w))

  -- a text that the cache does not have
  unfoldable pub prepare_anew : Bytes → Exec (StatementCache H × W) H
  prepare_anew sql s₀ = let (st, w) = make_room s₀ in after_prepare sql st (s.prepare sql w)

  -- `getOrPrepare`
  unfoldable pub get_or_prepare : Bytes → Exec (StatementCache H × W) H
  get_or_prepare sql (st, w) = elim (st.cache sql) [
    | none ↦ prepare_anew sql (st, w)
    | some it ↦ let (r, st') = reuse st (splice_out it st.lru) in (r, (st', w))
  ]
