-- ===== src/Examples/Queue.antt =====
-- The theorems on the queues at a few steps.
use group_trade_data_query.Common.{ℕ, ◌≡◌, refl, List, [], ◌∷◌, ◌++◌}
use group_trade_data_query.Queue.{mt_new, mt_enqueue, mt_release, mt_acquire}
use group_trade_data_query.Queue.Laws.{
  Shared, fresh, enqueue, release, acquire, Reachable, start, next, Reachable-fifo,
}

abbrev three : List ℕ
three = 5 ∷ 6 ∷ 7 ∷ []

-- Two entries were pushed, of which the second is not yet announced, and a thread is about to take one.
abbrev contended : Shared ℕ
contended = record {
  queue = record { qsize = 0; entries = 5 ∷ 6 ∷ [] };
  releasing = 1;
  taking = 1;
  pushed = 5 ∷ 6 ∷ [];
  popped = [];
}

contended-Reachable : Reachable contended
unfolding mt_new mt_enqueue mt_release mt_acquire
contended-Reachable =
    next _ _
      (next _ _ (next _ _ (next _ _ start (enqueue fresh 5)) (enqueue _ 6)) (release _ 1 refl))
      (acquire _ (record { qsize = 0; entries = 5 ∷ 6 ∷ [] }) refl)

Reachable-fifo_example : contended.popped ++ contended.queue.entries ≡ contended.pushed
Reachable-fifo_example = Reachable-fifo contended contended-Reachable
