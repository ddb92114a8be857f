-- ===== src/Sender/Fifo.antt =====
-- The queue of src/server/sender.cc, from the first entry to the last.
use group_trade_data_query.Common.{
  take-length, ℕ, zero, suc, ◌≡◌, refl, sym, ap, ◌∙◌, subst, List, [], ◌∷◌, ◌++◌, append_assoc,
  append-nil, ◌==◌, if◌then◌else◌, length,
}
use group_trade_data_query.Server.{Call, count}
use group_trade_data_query.Server.Stream.{delivered}
use group_trade_data_query.Sender.{OffloadQueue, serialise_and_enqueue, offload_one}

-- Enqueueing one entry after the other.
abbrev pub enqueue_all : List (ℕ × List ℕ) → OffloadQueue → OffloadQueue
enqueue_all [] q = q
enqueue_all (entry ∷ entries) q = enqueue_all entries (serialise_and_enqueue entry.0 entry.1 q)

-- The calls of one `offload_one` after the other, each send taking its whole entry.
abbrev front_size : OffloadQueue → ℕ
front_size q = elim q.queue [ [] ↦ 0 | (sockfd, payload) ∷ rest ↦ length payload ]

abbrev pub offload_all : ℕ → OffloadQueue → OffloadQueue × List Call
offload_all zero q = (q, [])
offload_all (suc n) q =
    let (q', calls, _) = offload_one (count (front_size q)) q in
    let (q'', more) = offload_all n q' in (q'', calls ++ more)

-- The data of the entries for one socket, in order.
abbrev pub data_for : ℕ → List (ℕ × List ℕ) → List ℕ
data_for fd [] = []
data_for fd (entry ∷ entries) = (if entry.0 == fd then entry.1 else []) ++ data_for fd entries

enqueue_all-queue :
    (entries : List (ℕ × List ℕ)) (q : OffloadQueue)
    → (enqueue_all entries q).queue ≡ q.queue ++ entries
unfolding serialise_and_enqueue
enqueue_all-queue [] q = sym (append-nil q.queue)
enqueue_all-queue (entry ∷ entries) q =
    enqueue_all-queue entries (serialise_and_enqueue entry.0 entry.1 q)
    ∙ append_assoc q.queue (entry ∷ []) entries

offload_all-delivered :
    (fd : ℕ) (entries : List (ℕ × List ℕ))
    → let r = offload_all (length entries) (record { queue = entries }) in
      (r.0.queue ≡ []) × (delivered fd r.1 ≡ data_for fd entries)
unfolding offload_one
offload_all-delivered fd [] = (refl, refl)
offload_all-delivered fd ((sockfd, payload) ∷ rest) =
    let (empty, same) = offload_all-delivered fd rest in
    (empty, rw (take-length payload) (ap (◌++◌ (if sockfd == fd then payload else [])) same))

-- One `offload_one` for each entry that was enqueued, with sends that take all of their bytes, empties the queue,
-- and each socket gets the data of its entries in the order in which they were enqueued.
pub offload_all-enqueue_all :
    (fd : ℕ) (entries : List (ℕ × List ℕ))
    → let r = offload_all (length entries) (enqueue_all entries (record { queue = [] })) in
      (r.0.queue ≡ []) × (delivered fd r.1 ≡ data_for fd entries)
offload_all-enqueue_all fd entries =
    subst
      (λ q.
        let r = offload_all (length entries) (record { queue = q }) in
        (r.0.queue ≡ []) × (delivered fd r.1 ≡ data_for fd entries))
      (sym (enqueue_all-queue entries (record { queue = [] }))) (offload_all-delivered fd entries)
