-- ===== src/Server/Worker.antt =====
-- `worker_thread_loop` of src/server/server.cc: one work item, from the query to the bytes of the result.
pub mod Intervals
pub mod Answers
pub mod AnyFile
pub mod Forever
use group_trade_data_query.Common.{
  ℕ, zero, suc, ◌+◌, ◌^◌, bit_or, Bool, true, false, List, [], ◌∷◌, ◌++◌, ltb, if◌then◌else◌,
}
use group_trade_data_query.Common.Word.{add64, bit_set}
use group_trade_data_query.Common.Run.{Run, ok, err, timeout, ◌>>=◌}
use group_trade_data_query.Query.{TradeDataQuery}
use group_trade_data_query.Engine.{Engine}
use group_trade_data_query.Engine.Double.{Double}
use group_trade_data_query.Engine.Aggregator.{interval_end, aggregator}
use group_trade_data_query.Server.{WorkItem, ResultItem}

-- metric_list |= 1 << 0, 1 << 1 and 1 << 2, each under its test.
unfoldable pub or_bits : Bool → Bool → Bool → ℕ
or_bits has_extremes has_mean has_quantity =
    let extremes : ℕ = if has_extremes then bit_or 0 1 else 0 in
    let mean : ℕ = if has_mean then bit_or extremes 2 else extremes in
    if has_quantity then bit_or mean 4 else mean

-- The client's metrics, as the bits that the aggregator knows.
unfoldable pub metric_list : ℕ → ℕ
unfolding or_bits
metric_list metrics = or_bits (bit_set metrics 0) (bit_set metrics 26) (bit_set metrics 33)

-- The query of a single interval.
abbrev pub interval_query : TradeDataQuery → ℕ → TradeDataQuery
interval_query query start_time = record query {
  start_time_point = start_time;
  end_time_point = interval_end query start_time;
}

module _ {ℓ} {D : Type ℓ} (d : Double D) (fuel : ℕ) (e : Engine) where
  -- The loop over the intervals. `turns` is its fuel, and `inner` that of the aggregator's loop.
  unfoldable pub accumulate_from : ℕ → ℕ → ℕ → TradeDataQuery → ℕ → Run (List ℕ)
  accumulate_from inner zero chooser query start_time = timeout
  accumulate_from inner (suc turns) chooser query start_time =
      elim (ltb start_time query.end_time_point) [
        | false ↦ ok []
        | true ↦ do
          interval_result ← aggregator d fuel e inner chooser (interval_query query start_time)
          rest ← accumulate_from inner turns chooser query (add64 start_time query.resolution)
          ok (interval_result ++ rest)
      ]

  unfoldable pub process_work : ℕ → ℕ → WorkItem → Run ResultItem
  process_work inner turns work = do
    accumulated_buffer ←
        accumulate_from inner turns (metric_list work.query.metrics) work.query
          work.query.start_time_point
    ok (record { client_fd = work.client_fd; res = accumulated_buffer })
