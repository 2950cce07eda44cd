-- ===== src/Sync/Queue/Items.antt =====
-- The steps in which cpp/sync/SyncQueueStore.cpp reads its items: the waiting rows, their order, and the
-- join with the metadata.
use react_native_salve_db.Prelude.{
  ℕ, zero, suc, ◌≤◌, ◌≡◌, refl, ap, true, ◌&&◌, List, [], ◌∷◌, ◌++◌, Option, none, some, Bytes,
  text, Any, str_eq, str_eq_iff, ℤ, ltb_ℤ, ◌≤ℤ◌, ◌⊎◌, inl, inr, arith, All, All-append, length,
  take, map, Bool-cases,
}
use react_native_salve_db.Sync.Metadata.{MetadataTable}
use react_native_salve_db.Sync.Push.{SyncQueueItem}
use react_native_salve_db.Sync.Queue.{
  QueueRow, QueueTable, is_waiting, waiting_rows, insert_by_id, order_by_id, joined_local_ids,
  item_of, join_row, left_join,
}

abbrev pub IsAscending : List SyncQueueItem → Type 0
IsAscending [] = Unit
IsAscending (x ∷ xs) = All (λ y. x.id ≤ℤ y.id) xs × IsAscending xs

abbrev pub RowsAscend : QueueTable → Type 0
RowsAscend [] = Unit
RowsAscend (x ∷ xs) = All (λ y. x.id ≤ℤ y.id) xs × RowsAscend xs

-- an item stands for a row
abbrev pub IsItemOf : SyncQueueItem → QueueRow → Type 0
IsItemOf item r =
    (item.id ≡ r.id) × (item.operation ≡ r.operation) × (item.queued_entity_id ≡ r.entity_id)

-- a row of the entity that is pending or failed
abbrev pub IsWaitingOf : Bytes → QueueRow → Type 0
IsWaitingOf entity r =
    (r.entity ≡ entity) × ((r.status ≡ text "PENDING") ⊎ (r.status ≡ text "FAILED"))

pub IsWaitingOf-waits :
    (entity : Bytes) (r : QueueRow)
    → IsWaitingOf entity r
    → (str_eq r.entity entity && is_waiting r.status) ≡ true
unfolding is_waiting
IsWaitingOf-waits entity r (e, inl p) =
    rw ((str_eq_iff r.entity entity).1 e, (str_eq_iff r.status (text "PENDING")).1 p) refl
IsWaitingOf-waits entity r (e, inr p) =
    rw ((str_eq_iff r.entity entity).1 e, (str_eq_iff r.status (text "FAILED")).1 p) (ground arith)

pub waits-IsWaitingOf :
    (entity : Bytes) (r : QueueRow)
    → (str_eq r.entity entity && is_waiting r.status) ≡ true
    → IsWaitingOf entity r
unfolding is_waiting
waits-IsWaitingOf entity r h = (
  (str_eq_iff r.entity entity).0 (ground arith),
  elim (Bool-cases (str_eq r.status (text "PENDING"))) [
    | inl p ↦ inl ((str_eq_iff r.status (text "PENDING")).0 p)
    | inr n ↦ inr ((str_eq_iff r.status (text "FAILED")).0 (ground arith))
  ],
)

module _ {ℓ} {A : Type ℓ} where
  pub All-map : (P Q : A → Type 0) (xs : List A) → ((x : A) → P x → Q x) → All P xs → All Q xs
  All-map P Q [] f h = tt
  All-map P Q (x ∷ xs) f h = (f x h.0, All-map P Q xs f h.1)

  pub All-take : (P : A → Type 0) (n : ℕ) (xs : List A) → All P xs → All P (take n xs)
  All-take P zero xs h = tt
  All-take P (suc n) [] h = tt
  All-take P (suc n) (x ∷ xs) h = (h.0, All-take P n xs h.1)

  pub length-take : (n : ℕ) (xs : List A) → length (take n xs) ≤ n
  length-take zero xs = omega arith
  length-take (suc n) [] = omega arith
  length-take (suc n) (x ∷ xs) = omega (arith, length-take n xs)

  pub Any-take :
      (P : A → Type 0) (n : ℕ) (xs : List A)
      → Any P xs
      → Any P (take n xs) ⊎ (length (take n xs) ≡ n)
  Any-take P zero xs h = inr refl
  Any-take P (suc n) [] h = elim h [ ]
  Any-take P (suc n) (x ∷ xs) (inl h) = inl (inl h)
  Any-take P (suc n) (x ∷ xs) (inr h) = elim (Any-take P n xs h) [
    | inl there ↦ inl (inr there)
    | inr full ↦ inr (ap suc full)
  ]

  Any-append : (P : A → Type 0) (xs ys : List A) → Any P xs ⊎ Any P ys → Any P (xs ++ ys)
  Any-append P [] ys (inl h) = elim h [ ]
  Any-append P [] ys (inr h) = h
  Any-append P (x ∷ xs) ys (inl (inl h)) = inl h
  Any-append P (x ∷ xs) ys (inl (inr h)) = inr (Any-append P xs ys (inl h))
  Any-append P (x ∷ xs) ys (inr h) = inr (Any-append P xs ys (inr h))

-- the order
insert-All :
    (P : QueueRow → Type 0) (r : QueueRow) (rows : QueueTable)
    → P r
    → All P rows
    → All P (insert_by_id r rows)
unfolding insert_by_id
insert-All P r [] p h = (p, tt)
insert-All P r (x ∷ xs) p h = elim (Bool-cases (ltb_ℤ r.id x.id)) [
  | inl before ↦ rw before (p, h)
  | inr after ↦ rw after (h.0, insert-All P r xs p h.1)
]

pub order-All : (P : QueueRow → Type 0) (rows : QueueTable) → All P rows → All P (order_by_id rows)
unfolding order_by_id
order-All P [] h = tt
order-All P (r ∷ rows) h = insert-All P r (order_by_id rows) h.0 (order-All P rows h.1)

insert-RowsAscend :
    (r : QueueRow) (rows : QueueTable) → RowsAscend rows → RowsAscend (insert_by_id r rows)
unfolding insert_by_id
insert-RowsAscend r [] h = (tt, tt)
insert-RowsAscend r (x ∷ xs) h = elim (Bool-cases (ltb_ℤ r.id x.id)) [
  | inl before ↦
      let first : r.id ≤ℤ x.id = ground arith in
      rw before ((first, All-map _ _ xs (λ y le. omega arith) h.0), h)
  | inr after ↦
      let first : x.id ≤ℤ r.id = ground arith in
      rw after (insert-All (λ y. x.id ≤ℤ y.id) r xs first h.0, insert-RowsAscend r xs h.1)
]

pub order-RowsAscend : (rows : QueueTable) → RowsAscend (order_by_id rows)
unfolding order_by_id
order-RowsAscend [] = tt
order-RowsAscend (r ∷ rows) = insert-RowsAscend r (order_by_id rows) (order-RowsAscend rows)

insert-Any :
    (P : QueueRow → Type 0) (r : QueueRow) (rows : QueueTable)
    → P r ⊎ Any P rows
    → Any P (insert_by_id r rows)
unfolding insert_by_id
insert-Any P r [] (inl h) = inl h
insert-Any P r [] (inr h) = elim h [ ]
insert-Any P r (x ∷ xs) h = elim (Bool-cases (ltb_ℤ r.id x.id)) [
  | inl before ↦ rw before h
  | inr after ↦ rw after (elim h [
    | inl p ↦ inr (insert-Any P r xs (inl p))
    | inr (inl p) ↦ inl p
    | inr (inr p) ↦ inr (insert-Any P r xs (inr p))
  ])
]

pub order-Any : (P : QueueRow → Type 0) (rows : QueueTable) → Any P rows → Any P (order_by_id rows)
unfolding order_by_id
order-Any P [] h = h
order-Any P (r ∷ rows) (inl h) = insert-Any P r (order_by_id rows) (inl h)
order-Any P (r ∷ rows) (inr h) = insert-Any P r (order_by_id rows) (inr (order-Any P rows h))

-- the waiting rows
pub waiting-All :
    (P : QueueRow → Type 0) (entity : Bytes) (rows : QueueTable)
    → All P rows
    → All (λ r. P r × IsWaitingOf entity r) (waiting_rows entity rows)
unfolding waiting_rows
waiting-All P entity [] h = tt
waiting-All P entity (r ∷ rows) h =
    elim (Bool-cases (str_eq r.entity entity && is_waiting r.status)) [
      | inl waits ↦
          rw waits ((h.0, waits-IsWaitingOf entity r waits), waiting-All P entity rows h.1)
      | inr other ↦ rw other (waiting-All P entity rows h.1)
    ]

pub waiting-Any :
    (r : QueueRow) (entity : Bytes) (rows : QueueTable)
    → IsWaitingOf entity r
    → Any (λ x. x ≡ r) rows
    → Any (λ x. x ≡ r) (waiting_rows entity rows)
unfolding waiting_rows
waiting-Any r entity [] w h = h
waiting-Any r entity (x ∷ rows) w (inl same) =
    let waits = IsWaitingOf-waits entity r w in rw (same, waits) (inl refl)
waiting-Any r entity (x ∷ rows) w (inr h) =
    elim (Bool-cases (str_eq x.entity entity && is_waiting x.status)) [
      | inl waits ↦ rw waits (inr (waiting-Any r entity rows w h))
      | inr other ↦ rw other (waiting-Any r entity rows w h)
    ]

-- the join
module _ (P : SyncQueueItem → Type 0) where
  map-All :
      (r : QueueRow) (ls : List Bytes)
      → ((o : Option Bytes) → P (item_of r o))
      → All P (map (λ x. item_of r (some x)) ls)
  map-All r [] h = tt
  map-All r (l ∷ ls) h = (h (some l), map-All r ls h)

  join_row-All :
      (r : QueueRow) (ls : List Bytes)
      → ((o : Option Bytes) → P (item_of r o))
      → All P (join_row r ls)
  unfolding join_row
  join_row-All r [] h = (h none, tt)
  join_row-All r (l ∷ ls) h = map-All r (l ∷ ls) h

  pub left_join-All :
      (Q : QueueRow → Type 0) (rows : QueueTable) (metadata : MetadataTable)
      → ((r : QueueRow) (o : Option Bytes) → Q r → P (item_of r o))
      → All Q rows
      → All P (left_join rows metadata)
  unfolding left_join
  left_join-All Q [] metadata f h = tt
  left_join-All Q (r ∷ rows) metadata f h =
      All-append P (join_row r (joined_local_ids r metadata)) (left_join rows metadata)
        (join_row-All r _ (λ o. f r o h.0)) (left_join-All Q rows metadata f h.1)

  pub left_join-Any :
      (Q : QueueRow → Type 0) (rows : QueueTable) (metadata : MetadataTable)
      → ((r : QueueRow) (o : Option Bytes) → Q r → P (item_of r o))
      → Any Q rows
      → Any P (left_join rows metadata)
  unfolding left_join
  left_join-Any Q [] metadata f h = h
  left_join-Any Q (r ∷ rows) metadata f (inl h) =
      Any-append P (join_row r (joined_local_ids r metadata)) (left_join rows metadata)
        (inl (go (joined_local_ids r metadata)))
    where
      go : (ls : List Bytes) → Any P (join_row r ls)
      go [] = unfold join_row in inl (f r none h)
      go (l ∷ ls) = unfold join_row in inl (f r (some l) h)
  left_join-Any Q (r ∷ rows) metadata f (inr h) =
      Any-append P (join_row r (joined_local_ids r metadata)) (left_join rows metadata)
        (inr (left_join-Any Q rows metadata f h))

append-IsAscending :
    (id : ℤ) (xs ys : List SyncQueueItem)
    → All (λ x. x.id ≡ id) xs
    → All (λ y. id ≤ℤ y.id) ys
    → IsAscending ys
    → IsAscending (xs ++ ys)
append-IsAscending id [] ys e le h = h
append-IsAscending id (x ∷ xs) ys e le h = (
  All-append _ xs ys (All-map _ _ xs (λ y same. rw (e.0, same) (omega arith)) e.1)
      (All-map _ _ ys (λ y after. rw e.0 after) le),
  append-IsAscending id xs ys e.1 le h,
)

pub left_join-IsAscending :
    (rows : QueueTable) (metadata : MetadataTable)
    → RowsAscend rows
    → IsAscending (left_join rows metadata)
unfolding left_join
left_join-IsAscending [] metadata h = tt
left_join-IsAscending (r ∷ rows) metadata h =
    append-IsAscending r.id (join_row r (joined_local_ids r metadata)) (left_join rows metadata)
      (join_row-All (λ x. x.id ≡ r.id) r _ (λ o. refl))
      (left_join-All (λ y. r.id ≤ℤ y.id) (λ y. r.id ≤ℤ y.id) rows metadata (λ y o le. le) h.0)
      (left_join-IsAscending rows metadata h.1)

pub take-IsAscending : (n : ℕ) (xs : List SyncQueueItem) → IsAscending xs → IsAscending (take n xs)
take-IsAscending zero xs h = tt
take-IsAscending (suc n) [] h = tt
take-IsAscending (suc n) (x ∷ xs) h = (All-take _ n xs h.0, take-IsAscending n xs h.1)
