-- ===== src/Sync/Queue/Pending.antt =====
-- The items that cpp/sync/SyncQueueStore.cpp reads, and those that it never reads again.
use react_native_salve_db.Prelude.{
  ℕ, ◌≤◌, ◌≡◌, ◌≢◌, refl, Bool, true, false, ◌&&◌, List, [], ◌∷◌, Bytes, text, str_eq, ℤ, pos,
  negsuc, eq_ℤ, ◌⊎◌, inl, inr, arith, All, length, take, Any, ok, Bool-cases,
}
use react_native_salve_db.Sync.Metadata.{MetadataTable}
use react_native_salve_db.Sync.Push.{SyncQueueItem}
use react_native_salve_db.Sync.Queue.{
  QueueRow, QueueTable, is_waiting, waiting_rows, order_by_id, left_join, read_pending, remove,
  update_item, mark_blocked,
}
use react_native_salve_db.Sync.Queue.Items.{
  IsAscending, IsItemOf, IsWaitingOf, IsWaitingOf-waits, All-map, All-take, length-take, Any-take,
  order-All, order-RowsAscend, order-Any, waiting-All, waiting-Any, left_join-All, left_join-Any,
  left_join-IsAscending, take-IsAscending,
}

-- What a read of an entity's items gives: at most so many, in the order of their ids, each of a row of
-- that entity that is pending or failed; and each such row is among them, if there was room.
pub record IsPending (entity : Bytes) (limit : ℕ) (queue : QueueTable) (items : List SyncQueueItem)
    : Type 0 where
  pub bounded : length items ≤ limit
  pub ascending : IsAscending items
  pub sound : All (λ item. Any (λ r. IsItemOf item r × IsWaitingOf entity r) queue) items
  pub complete :
      All
        (λ r. IsWaitingOf entity r → Any (λ item. IsItemOf item r) items ⊎ (length items ≡ limit))
        queue

Any-map :
    (P Q : QueueRow → Type 0) (rows : QueueTable)
    → ((r : QueueRow) → P r → Q r)
    → Any P rows
    → Any Q rows
Any-map P Q [] f h = h
Any-map P Q (r ∷ rows) f (inl h) = inl (f r h)
Any-map P Q (r ∷ rows) f (inr h) = inr (Any-map P Q rows f h)

every_row : (rows : QueueTable) → All (λ r. Any (λ x. x ≡ r) rows) rows
every_row [] = tt
every_row (r ∷ rows) = (inl refl, All-map _ _ rows (λ x h. inr h) (every_row rows))

-- A read with a limit that is not negative returns, with the items just described.
pub read_pending-IsPending :
    (entity : Bytes) (limit : ℕ) (queue : QueueTable) (metadata : MetadataTable)
    → (items : List SyncQueueItem) × (read_pending entity (pos limit) queue metadata ≡ ok items)
      × IsPending entity limit queue items
unfolding read_pending
read_pending-IsPending entity limit queue metadata = (
  take limit joined,
  refl,
  record {
    bounded = length-take limit joined;
    ascending =
        take-IsAscending limit joined
          (left_join-IsAscending ordered metadata (order-RowsAscend (waiting_rows entity queue)));
    sound = All-take _ limit joined (
        left_join-All (λ item. Any (λ r. IsItemOf item r × IsWaitingOf entity r) queue)
          (λ r. Any (λ x. x ≡ r) queue × IsWaitingOf entity r) ordered metadata
          (λ r o h. Any-map _ _ queue (λ x same. rw same ((refl, refl, refl), h.1)) h.0)
          (order-All _ (waiting_rows entity queue) (waiting-All _ entity queue (every_row queue))));
    complete =
        All-map _ _ queue
          (λ r h waits. Any-take _ limit joined (
            left_join-Any (λ item. IsItemOf item r) (λ x. x ≡ r) ordered metadata
              (λ x o same. rw same (refl, refl, refl))
              (order-Any _ (waiting_rows entity queue) (waiting-Any r entity queue waits h))))
          (every_row queue);
  },
)
  where
    ordered : QueueTable
    ordered = order_by_id (waiting_rows entity queue)

    joined : List SyncQueueItem
    joined = left_join ordered metadata

-- no row of the id waits
abbrev IsSettled : ℤ → QueueTable → Type 0
IsSettled id = All (λ r. is_waiting r.status ≡ true → r.id ≢ id)

eq_ℤ-false : (a b : ℤ) → eq_ℤ a b ≡ false → a ≢ b
eq_ℤ-false (pos m) (pos n) h = ground arith
eq_ℤ-false (negsuc m) (negsuc n) h = ground arith
eq_ℤ-false (pos m) (negsuc n) h = λ e. cc
eq_ℤ-false (negsuc m) (pos n) h = λ e. cc

mark_blocked-IsSettled :
    (id : ℤ) (reason : Bytes) (rows : QueueTable) → IsSettled id (mark_blocked id reason rows)
unfolding mark_blocked update_item is_waiting text str_eq
mark_blocked-IsSettled id reason [] = tt
mark_blocked-IsSettled id reason (r ∷ rows) = elim (Bool-cases (eq_ℤ r.id id)) [
  | inl same ↦ rw same ((λ waits. cc), mark_blocked-IsSettled id reason rows)
  | inr other ↦
      rw other ((λ waits. eq_ℤ-false r.id id other), mark_blocked-IsSettled id reason rows)
]

remove-IsSettled : (id : ℤ) (rows : QueueTable) → IsSettled id (remove id rows)
unfolding remove
remove-IsSettled id [] = tt
remove-IsSettled id (r ∷ rows) = elim (Bool-cases (eq_ℤ r.id id)) [
  | inl same ↦ rw same (remove-IsSettled id rows)
  | inr other ↦ rw other ((λ waits. eq_ℤ-false r.id id other), remove-IsSettled id rows)
]

&&-parts : (a b : Bool) → (a && b) ≡ true → (a ≡ true) × (b ≡ true)
&&-parts a b h = (ground arith, ground arith)

never_read :
    (id : ℤ) (entity : Bytes) (limit : ℕ) (queue : QueueTable) (metadata : MetadataTable)
    → IsSettled id queue
    → (items : List SyncQueueItem) × (read_pending entity (pos limit) queue metadata ≡ ok items)
      × All (λ item. item.id ≢ id) items
unfolding read_pending
never_read id entity limit queue metadata h = (
  _,
  refl,
  All-take _ limit _ (
      left_join-All (λ item. item.id ≢ id)
        (λ r. (is_waiting r.status ≡ true → r.id ≢ id) × IsWaitingOf entity r)
        (order_by_id (waiting_rows entity queue)) metadata
        (λ r o w. w.0 ((&&-parts _ _ (IsWaitingOf-waits entity r w.1)).1))
        (order-All _ (waiting_rows entity queue) (waiting-All _ entity queue h))),
)

-- An item that was blocked or removed is not read again, for whichever entity and limit.
pub read_pending-settled :
    (id : ℤ) (reason entity : Bytes) (limit : ℕ) (queue : QueueTable) (metadata : MetadataTable)
    → ((items : List SyncQueueItem) × (read_pending entity
            (pos limit)
            (mark_blocked id reason queue)
            metadata
          ≡ ok items)
        × All (λ item. item.id ≢ id) items)
      × ((items : List SyncQueueItem) × (read_pending entity (pos limit) (remove id queue) metadata
            ≡ ok items)
          × All (λ item. item.id ≢ id) items)
read_pending-settled id reason entity limit queue metadata = (
  never_read id entity limit _ metadata (mark_blocked-IsSettled id reason queue),
  never_read id entity limit _ metadata (remove-IsSettled id queue),
)
