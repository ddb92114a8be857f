-- ===== src/Examples/Sender.antt =====
-- The theorem on src/server/sender.cc at three entries.
use group_trade_data_query.Common.{ℕ, ◌≡◌, List, [], ◌∷◌, length}
use group_trade_data_query.Server.{Call}
use group_trade_data_query.Server.Stream.{delivered}
use group_trade_data_query.Sender.{OffloadQueue}
use group_trade_data_query.Sender.Fifo.{enqueue_all, offload_all, data_for, offload_all-enqueue_all}

abbrev entries : List (ℕ × List ℕ)
entries = (7, 1 ∷ 2 ∷ []) ∷ (8, 3 ∷ []) ∷ (7, 4 ∷ []) ∷ []

abbrev offloaded : OffloadQueue × List Call
offloaded = offload_all (length entries) (enqueue_all entries (record { queue = [] }))

offload_all-enqueue_all_example :
    (offloaded.0.queue ≡ []) × (delivered 7 offloaded.1 ≡ data_for 7 entries)
offload_all-enqueue_all_example = offload_all-enqueue_all 7 entries
