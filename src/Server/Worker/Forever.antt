-- ===== src/Server/Worker/Forever.antt =====
-- `worker_thread_loop` of src/server/server.cc on a query without a resolution.
use group_trade_data_query.Common.{ℕ, zero, suc, ◌<◌, ◌≡◌, refl, ap, ◌∙◌, [], arith}
use group_trade_data_query.Common.Word.{u64_mod, add64}
use group_trade_data_query.Common.Run.{ok, timeout, ◌>>=◌}
use group_trade_data_query.Query.{TradeDataQuery}
use group_trade_data_query.Engine.{Engine}
use group_trade_data_query.Engine.Double.{Double}
use group_trade_data_query.Engine.Aggregator.{interval_end, aggregator}
use group_trade_data_query.Engine.Buffer.{aggregate_done}
use group_trade_data_query.Server.{WorkItem}
use group_trade_data_query.Server.Worker.{
  metric_list, interval_query, accumulate_from, process_work,
}
use group_trade_data_query.Server.Worker.Intervals.{accumulate_step}

module _ {D : Type 0} (d : Double D) (fuel : ℕ) (e : Engine) where
  -- Without a resolution an interval is empty, and the next one is the same.
  empty_interval :
      (query : TradeDataQuery) (start_time : ℕ)
      → query.resolution ≡ 0
      → start_time < query.end_time_point
      → query.end_time_point < u64_mod
      → (interval_end query start_time ≡ start_time)
        × (add64 start_time query.resolution ≡ start_time)
  unfolding interval_end add64
  empty_interval query start_time r h b = ground arith

  aggregator_empty :
      (inner chooser : ℕ) (query : TradeDataQuery) (start_time : ℕ)
      → interval_end query start_time ≡ start_time
      → aggregator d fuel e (suc inner) chooser (interval_query query start_time) ≡ ok []
  unfolding aggregator
  aggregator_empty inner chooser query start_time same =
      aggregate_done d fuel e inner chooser (interval_query query start_time) start_time
        (omega arith)

  accumulate_forever :
      (inner chooser : ℕ) (query : TradeDataQuery) (start_time : ℕ)
      → query.resolution ≡ 0
      → start_time < query.end_time_point
      → query.end_time_point < u64_mod
      → (turns : ℕ) → accumulate_from d fuel e (suc inner) turns chooser query start_time ≡ timeout
  unfolding accumulate_from
  accumulate_forever inner chooser query start_time r h b zero = refl
  accumulate_forever inner chooser query start_time r h b (suc turns) =
      let (same, again) = empty_interval query start_time r h b in
      accumulate_step d fuel e (suc inner) turns chooser query start_time h
      ∙ rw (
        aggregator_empty inner chooser query start_time same,
        again,
        accumulate_forever inner chooser query start_time r h b turns,
      )

  -- If the resolution is 0 and the time range is not empty, the worker does not finish: any number
  -- of turns is too few, whatever the file and the metrics.
  pub process_work_forever :
      (inner turns : ℕ) (work : WorkItem)
      → work.query.resolution ≡ 0
      → work.query.start_time_point < work.query.end_time_point
      → work.query.end_time_point < u64_mod
      → process_work d fuel e (suc inner) turns work ≡ timeout
  unfolding process_work
  process_work_forever inner turns work r h b =
      ap (λ m. m >>= λ bytes. ok (record { client_fd = work.client_fd; res = bytes }))
        (accumulate_forever inner (metric_list work.query.metrics) work.query
          work.query.start_time_point r h b turns)
