-- ===== src/Server/Served.antt =====
-- A query on its way through src/server/server.cc: the event loop, the work queue, a worker, the results queue and
-- the event loop again.
use group_trade_data_query.Common.{
  ℕ, ◌<◌, ◌≤◌, ◌≡◌, refl, sym, subst, ap, ◌∙◌, none, some, List, [], ◌∷◌, ◌++◌, length, All,
}
use group_trade_data_query.Common.Run.{ok, >>=-ok, ok-injective}
use group_trade_data_query.Query.{TradeDataQuery, QueryFits}
use group_trade_data_query.Query.Codec.{sizeof_query}
use group_trade_data_query.Queue.{push, pop}
use group_trade_data_query.Engine.{Engine}
use group_trade_data_query.Engine.Double.{Double}
use group_trade_data_query.Server.{
  EpollServer, WorkItem, ResultItem, Sent, count, count_header, lookup, handle_read,
  process_results, send_result,
}
use group_trade_data_query.Server.Buffers.{HasRest}
use group_trade_data_query.Server.Stream.{delivered}
use group_trade_data_query.Server.Queries.{whole_queries, handle_read-encode_query}
use group_trade_data_query.Server.Delivery.{writes, send_result-delivered}
use group_trade_data_query.Server.Worker.{metric_list, accumulate_from, process_work}

process_results_one :
    (first second : Sent) (result : ResultItem) (s : EpollServer)
    → process_results (λ i. (first, second)) (record s { results_queue = push [] result })
      ≡ send_result first second result (record s { results_queue = [] })
unfolding process_results push
process_results_one first second result s = refl

pop_one : (item : WorkItem) → pop (item ∷ []) ≡ some (item, [])
unfolding pop
pop_one item = refl

-- The server after it has read a query.
abbrev pub read_one : List ℕ → ℕ → ℕ → TradeDataQuery → EpollServer → EpollServer
read_one memory pad fd query s = handle_read memory fd (whole_queries pad (query ∷ [])) s

-- The server after a worker has taken all work and left a result, and the result was sent.
abbrev pub answer_one : ℕ → ResultItem → EpollServer → EpollServer
answer_one n result s =
    process_results (λ i. (count 4, count n))
      (record s { work_queue = []; results_queue = push s.results_queue result })

module _ {D : Type 0} (d : Double D) (fuel : ℕ) (e : Engine) where
  -- A result is for the client that asked.
  process_work-client_fd :
      (inner turns : ℕ) (work : WorkItem) (result : ResultItem)
      → process_work d fuel e inner turns work ≡ ok result
      → result.client_fd ≡ work.client_fd
  unfolding process_work
  process_work-client_fd inner turns work result run =
      let (bytes, _, last) =
        >>=-ok
          (accumulate_from d fuel e inner turns (metric_list work.query.metrics) work.query
            work.query.start_time_point)
          _ result run in
      sym (ap (λ r. r.client_fd) (ok-injective last))

  -- If no work and no result waits, every buffer has bytes that are still to be sent, and the client has none
  -- pending, then a query that fits its types and arrives whole becomes the one work item, as it was
  -- sent; and if a worker makes a result of it and both sends succeed, the first for the four bytes of
  -- the count, then after as many writes as the result has bytes, each with room for one byte or more,
  -- the client has received the count and the bytes of the result, in order and once, and nothing is
  -- pending.
  pub read_one-answer_one :
      (memory : List ℕ) (pad fd n inner turns : ℕ) (query : TradeDataQuery) (rooms : List ℕ)
      (s : EpollServer) (result : ResultItem)
      → length memory ≡ sizeof_query
      → QueryFits query
      → s.work_queue ≡ []
      → s.results_queue ≡ []
      → HasRest s.write_buffers
      → lookup fd s.write_buffers ≡ none
      → process_work d fuel e inner turns (record { client_fd = fd; query = query }) ≡ ok result
      → All (λ room. 0 < room) rooms
      → length result.res ≤ length rooms
      → let s₁ = read_one memory pad fd query s in
        let s₂ = writes fd rooms (answer_one n result s₁) in
        (pop s₁.work_queue ≡ some (record { client_fd = fd; query = query }, []))
        × (lookup fd s₂.write_buffers ≡ none)
        × (delivered fd s₂.log ≡ delivered fd s.log ++ (count_header result.res ++ result.res))
  read_one-answer_one memory pad fd n inner turns query rooms s result forty fits idle waiting rests
        e run some_room enough =
      let item : WorkItem = record { client_fd = fd; query = query } in
      let same = process_work-client_fd inner turns item result run in
      let read : EpollServer = record s { work_queue = s.work_queue ++ (item ∷ []) } in
      let freed : EpollServer = record s { work_queue = []; results_queue = [] } in
      let sent = send_result (count 4) (count n) result freed in
      let delivery =
        subst
          (λ f.
            (lookup f (writes f rooms sent).write_buffers ≡ none)
            × (delivered f (writes f rooms sent).log
                ≡ delivered f s.log ++ (count_header result.res ++ result.res)))
          same
          (send_result-delivered freed result n rooms rests
            (subst (λ f. lookup f s.write_buffers ≡ none) (sym same) e) some_room enough) in
      let answered : answer_one n result read ≡ sent =
        ap
          (λ q.
            process_results (λ i. (count 4, count n))
              (record s { work_queue = []; results_queue = push q result }))
          waiting
        ∙ process_results_one (count 4) (count n) result (record s { work_queue = [] }) in
      subst
        (λ s₁.
          (pop s₁.work_queue ≡ some (item, []))
          × (lookup fd (writes fd rooms (answer_one n result s₁)).write_buffers ≡ none)
          × (delivered fd (writes fd rooms (answer_one n result s₁)).log
              ≡ delivered fd s.log ++ (count_header result.res ++ result.res)))
        (sym (handle_read-encode_query memory pad fd (query ∷ []) s forty (fits, tt)))
        (
          ap (λ q. pop (q ++ (item ∷ []))) idle ∙ pop_one item,
          rw answered (delivery.0),
          rw answered (delivery.1),
        )
