-- ===== src/Queue.antt =====
-- The queues of src/server/TS-queue.h and src/utils/mt_queue.h. A queue is the list of its entries, the oldest
-- first; a call runs under the lock of its queue, as one step. `none` is a call that waits.
pub mod Laws
use group_trade_data_query.Common.{
  ℕ, zero, suc, ◌+◌, Bool, true, false, Option, none, some, List, [], ◌∷◌, ◌++◌,
}

module _ {ℓ} {A : Type ℓ} where
  unfoldable pub push : List A → A → List A
  push queue item = queue ++ (item ∷ [])

  -- Waits while the queue is empty.
  unfoldable pub pop : List A → Option (A × List A)
  pop [] = none
  pop (item ∷ rest) = some (item, rest)

  -- The result, the caller's variable and the queue.
  unfoldable pub try_pop : List A → A → Bool × A × List A
  try_pop [] value = (false, value, [])
  try_pop (item ∷ rest) value = (true, item, rest)

-- `Mt_Queue`: the semaphore counts the entries that a `pop` may still take, and is released after the
-- lock, so it may lag behind the queue.
pub record MtQueue {ℓ} (A : Type ℓ) : Type ℓ where
  pub qsize : ℕ
  pub entries : List A

module _ {ℓ} {A : Type ℓ} where
  unfoldable pub mt_new : MtQueue A
  mt_new = record { qsize = 0; entries = [] }

  -- The first half of `push`, under the lock.
  unfoldable pub mt_enqueue : MtQueue A → A → MtQueue A
  mt_enqueue q item = record q { entries = q.entries ++ (item ∷ []) }

  -- The second half, `qsize.release()`.
  unfoldable pub mt_release : MtQueue A → MtQueue A
  mt_release q = record q { qsize = q.qsize + 1 }

  -- The first half of `pop`, `qsize.acquire()`, which waits at 0.
  unfoldable pub mt_acquire : MtQueue A → Option (MtQueue A)
  mt_acquire q = elim q.qsize [ zero ↦ none | suc n ↦ some (record q { qsize = n }) ]

  -- The second half, under the lock. `none` is the front of an empty queue.
  unfoldable pub mt_take : MtQueue A → Option (A × MtQueue A)
  mt_take q = elim q.entries [ [] ↦ none | item ∷ rest ↦ some (item, record q { entries = rest }) ]

  unfoldable pub mt_empty : MtQueue A → Bool
  mt_empty q = elim q.entries [ [] ↦ true | item ∷ rest ↦ false ]
