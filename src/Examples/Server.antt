-- ===== src/Examples/Server.antt =====
-- The theorems on src/server/server.cc at a small state.
use group_trade_data_query.Common.{
  ℕ, zero, suc, none, some, All, ◌*◌, ◌-◌, ◌<◌, ◌≡◌, refl, true, false, List, [], ◌∷◌, ◌++◌, arith,
  length, drop, ltb, if◌then◌else◌,
}
use group_trade_data_query.Common.Run.{ok, err, timeout, runtime_error, ◌>>=◌, Returns}
use group_trade_data_query.Engine.{int_ceil}
use group_trade_data_query.Engine.Aggregator.{aggregator}
use group_trade_data_query.Engine.Store.{opened}
use group_trade_data_query.Server.{
  EpollServer, WorkItem, ResultItem, count, Event, lookup, dispatch, handle_read, send_result,
  handle_write, count_header, turn, sent,
}
use group_trade_data_query.Server.Queries.{whole_queries, work_items, handle_read-encode_query}
use group_trade_data_query.Server.Loop.{run, all_fine, wait_failed}
use group_trade_data_query.Server.Loop.Asked.{
  connects, asks, is_writable, Turn, Sound, work_of_turns, rounds_of, run-asked,
}
use group_trade_data_query.Server.Delivery.{writes, send_result-delivered}
use group_trade_data_query.Server.Starved.{heard, dispatch_starves_write}
use group_trade_data_query.Server.Served.{read_one, answer_one, read_one-answer_one}
use group_trade_data_query.Client.Input.Numbers.{query_of}
use group_trade_data_query.Service.{query_of-QueryFits}
use group_trade_data_query.Queue.{push, pop}
use group_trade_data_query.Server.Pool.{
  Pool, idle, Reachable, start, next, accept, begin, Conserved, Reachable-Conserved,
}
use group_trade_data_query.Server.Buffers.{HasRest, AllWithin, turn-HasRest}
use group_trade_data_query.Server.SendResult.{send_result_over_pending}
use group_trade_data_query.Server.Worker.Forever.{process_work_forever}
use group_trade_data_query.Server.Stream.{stream, delivered, handle_write-stream}
use group_trade_data_query.Server.Worker.{metric_list, process_work}
use group_trade_data_query.Server.Worker.Intervals.{
  interval_size, process_work-aggregator, process_work-answered,
}
use group_trade_data_query.Examples.Toy.{
  toy, toy_steps, toy_scalable, toy-SumsFinite, three_trades, three_trades-Holds,
  three_trades-IsSorted,
}
use group_trade_data_query.Examples.Query.{query_of_all, query_of_all-QueryFits}
use group_trade_data_query.Examples.Service.{
  forty_bytes, query_input, query_input-QueryTextFits, result, result_bytes, three_answers,
}

abbrev work : WorkItem
work = record { client_fd = 9; query = query_of_all }

abbrev raw_work : WorkItem
raw_work = record { client_fd = 9; query = record query_of_all { resolution = 0 } }

process_work-aggregator_example : process_work toy toy_steps (opened three_trades) 2 4 work ≡ (
    aggregator toy toy_steps (opened three_trades) 4 (metric_list 0x2_0400_0001) query_of_all
    >>= λ bytes. ok (record { client_fd = 9; res = bytes }))
process_work-aggregator_example =
    process_work-aggregator toy toy_steps (opened three_trades) 0 4 work (omega arith) (omega arith)

process_work-answered_example :
    Returns (process_work toy toy_steps (opened three_trades) 2 4 work) (λ result.
      (result.client_fd ≡ 9)
      × (length result.res ≡ int_ceil (30 - 5) 10 * interval_size 0x2_0400_0001))
unfolding int_ceil
process_work-answered_example =
    process_work-answered toy toy_scalable toy-SumsFinite three_trades-Holds three_trades-IsSorted
      (omega arith) 0 4 work (omega arith) (omega arith) (omega arith)

process_work_forever_example :
    process_work toy toy_steps (opened three_trades) 1 1000 raw_work ≡ timeout
process_work_forever_example =
    process_work_forever toy toy_steps (opened three_trades) 0 1000 raw_work refl (omega arith)
      (omega arith)

-- A buffer of three bytes for descriptor 9, of which one was sent.
abbrev pending : EpollServer
pending = record {
  server_listen_fd = 3;
  work_queue = [];
  results_queue = record { client_fd = 8; res = 1 ∷ 2 ∷ [] } ∷ [];
  write_buffers = (9, record { buffer = 5 ∷ 6 ∷ 7 ∷ []; sent_bytes = 1 }) ∷ [];
  log = sent 9 (3 ∷ 0 ∷ 0 ∷ 0 ∷ []) ∷ sent 9 (5 ∷ []) ∷ [];
}

abbrev result_8 : ResultItem
result_8 = record { client_fd = 8; res = 1 ∷ 2 ∷ 4 ∷ [] }

abbrev result_9 : ResultItem
result_9 = record { client_fd = 9; res = 1 ∷ 2 ∷ 4 ∷ [] }

send_result_over_pending_example :
    stream 9 (send_result (count 4) (count 2) result_9 pending)
    ≡ (delivered 9 pending.log ++ (count_header (1 ∷ 2 ∷ 4 ∷ []) ++ (1 ∷ 2 ∷ 4 ∷ [])))
      ++ (if ltb 2 3 then [] else drop 1 (5 ∷ 6 ∷ 7 ∷ []))
unfolding lookup
send_result_over_pending_example =
    send_result_over_pending pending result_9 2 (record { buffer = 5 ∷ 6 ∷ 7 ∷ []; sent_bytes = 1 })
      refl

handle_write-stream_example : stream 9 (handle_write 9 (count 1) pending) ≡ stream 9 pending
unfolding lookup
handle_write-stream_example =
    handle_write-stream pending 9 1 (record { buffer = 5 ∷ 6 ∷ 7 ∷ []; sent_bytes = 1 }) refl
      (omega arith)

pending-HasRest : HasRest pending.write_buffers
unfolding lookup
pending-HasRest fd ob e = ground arith

-- Descriptor 9 takes one byte more.
abbrev writable_9 : Event
writable_9 = record {
  fd = 9;
  readable = false;
  writable = true;
  accepts = [];
  recvs = [];
  send = count 1;
}

pending-AllWithin : AllWithin [] (writable_9 ∷ []) pending
unfolding lookup
pending-AllWithin = ((λ ob e. ground arith), tt)

turn-HasRest_example :
    HasRest (turn [] (writable_9 ∷ []) (λ i. (count 4, count 1)) pending).write_buffers
turn-HasRest_example =
    turn-HasRest [] (writable_9 ∷ []) (λ i. (count 4, count 1)) pending pending-AllWithin
      pending-HasRest

abbrev busy_pool : Pool
busy_pool = record {
  work_queue = [];
  results_queue = [];
  busy = work ∷ [];
  accepted = work ∷ [];
  completed = [];
  collected = [];
}

busy_pool-Reachable : Reachable toy toy_steps (opened three_trades) 2 4 31 busy_pool
unfolding push pop
busy_pool-Reachable =
    next _ _ (next _ _ start (accept idle work)) (begin _ work [] refl (omega arith))

Reachable-Conserved_example : Conserved toy toy_steps (opened three_trades) 2 4 31 busy_pool
Reachable-Conserved_example =
    Reachable-Conserved toy toy_steps (opened three_trades) 2 4 31 busy_pool busy_pool-Reachable

handle_read-encode_query_example :
    handle_read forty_bytes 9 (whole_queries 7 (query_of_all ∷ query_of_all ∷ [])) pending
    ≡ record pending {
      work_queue = pending.work_queue ++ work_items 9 (query_of_all ∷ query_of_all ∷ []);
    }
handle_read-encode_query_example =
    handle_read-encode_query forty_bytes 7 9 (query_of_all ∷ query_of_all ∷ []) pending refl
      (query_of_all-QueryFits, (query_of_all-QueryFits, tt))

-- A client connects and one sends two queries; then another sends one, and the socket of 9 is writable.
abbrev two_turns : List Turn
two_turns =
    (connects (12 ∷ []) ∷ asks 9 (query_of_all ∷ query_of_all ∷ []) ∷ [], λ i. (count 4, count 2))
    ∷ (asks 12 (query_of_all ∷ []) ∷ is_writable 9 (count 1) ∷ [], λ i. (count 4, count 2))
    ∷ []

two_turns-Sound : All (λ t. All (Sound 3) t.0) two_turns
two_turns-Sound = (
  (tt, ((refl, (query_of_all-QueryFits, (query_of_all-QueryFits, tt))), tt)),
  (((refl, (query_of_all-QueryFits, tt)), (refl, tt)), tt),
)

run-asked_example :
    let stop = run forty_bytes (all_fine (rounds_of 3 7 two_turns) ++ (wait_failed ∷ [])) pending in
    (stop.1 ≡ err runtime_error)
    × (stop.0.work_queue ≡ [] ++ work_of_turns two_turns)
    × (stop.0.results_queue ≡ [])
run-asked_example = run-asked forty_bytes 7 3 refl pending two_turns [] refl two_turns-Sound

send_result-delivered_example :
    let s' = writes 8 (1 ∷ 2 ∷ 1 ∷ []) (send_result (count 4) (count 2) result_8 pending) in
    (lookup 8 s'.write_buffers ≡ none)
    × (delivered 8 s'.log
        ≡ delivered 8 pending.log ++ (count_header (1 ∷ 2 ∷ 4 ∷ []) ++ (1 ∷ 2 ∷ 4 ∷ [])))
unfolding lookup
send_result-delivered_example =
    send_result-delivered pending result_8 2 (1 ∷ 2 ∷ 1 ∷ []) pending-HasRest refl
      (omega arith, (omega arith, (omega arith, tt))) (omega arith)

-- Descriptor 9 is readable and writable, and has bytes pending.
abbrev both_9 : Event
both_9 = record {
  fd = 9;
  readable = true;
  writable = true;
  accepts = [];
  recvs = heard ((1 ∷ 2 ∷ []) ∷ []);
  send = count 2;
}

dispatch_starves_write_example :
    let s' = dispatch forty_bytes both_9 pending in
    (s'.log ≡ pending.log) × (s'.write_buffers ≡ pending.write_buffers)
dispatch_starves_write_example =
    dispatch_starves_write forty_bytes both_9 ((1 ∷ 2 ∷ []) ∷ []) pending refl refl refl

abbrev quiet : EpollServer
quiet = record {
  server_listen_fd = 3;
  work_queue = [];
  results_queue = [];
  write_buffers = [];
  log = sent 9 (5 ∷ []) ∷ [];
}

quiet-HasRest : HasRest quiet.write_buffers
unfolding lookup
quiet-HasRest fd ob e = absurd cc

-- Room for one byte at a time.
abbrev ones : ℕ → List ℕ
ones zero = []
ones (suc n) = 1 ∷ ones n

ones_positive : (n : ℕ) → All (λ room. 0 < room) (ones n)
ones_positive zero = tt
ones_positive (suc n) = (omega arith, ones_positive n)

read_one-answer_one_example :
    let s₁ = read_one forty_bytes 7 9 (query_of query_input) quiet in
    let s₂ = writes 9 (ones 60) (answer_one 13 result s₁) in
    (pop s₁.work_queue ≡ some (record { client_fd = 9; query = query_of query_input }, []))
    × (lookup 9 s₂.write_buffers ≡ none)
    × (delivered 9 s₂.log ≡ (5 ∷ []) ++ (count_header result_bytes ++ result_bytes))
unfolding lookup
read_one-answer_one_example =
    read_one-answer_one toy toy_steps (opened three_trades) forty_bytes 7 9 13 2 4
      (query_of query_input) (ones 60) quiet result refl
      (query_of-QueryFits query_input query_input-QueryTextFits) refl refl quiet-HasRest refl
      three_answers (ones_positive 60) (omega arith)
