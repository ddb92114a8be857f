-- ===== src/Engine/Aggregator.antt =====
-- `Query_engine::aggregator` of src/query_engine/query_engine.cc.
use group_trade_data_query.Common.{
  ℕ, zero, suc, ◌+◌, true, false, List, [], ◌++◌, ltb, if◌then◌else◌,
}
use group_trade_data_query.Common.Word.{add64, bit_set}
use group_trade_data_query.Common.Run.{Run, ok, timeout, ◌>>=◌}
use group_trade_data_query.Query.{TradeDataQuery}
use group_trade_data_query.Query.Codec.{encode_price, encode_quantity}
use group_trade_data_query.Engine.{Engine}
use group_trade_data_query.Engine.Double.{Double}
use group_trade_data_query.Engine.Metrics.{
  min_max_price_in_range, mean_price_in_range, total_quantity_in_range,
}

-- The end of the interval that starts at `start_time`.
unfoldable pub interval_end : TradeDataQuery → ℕ → ℕ
interval_end query start_time =
    let end_time = add64 start_time query.resolution in
    if ltb query.end_time_point end_time then query.end_time_point else end_time

module _ {ℓ} {D : Type ℓ} (d : Double D) (fuel : ℕ) (e : Engine) where
  -- `switch (i)`
  unfoldable pub metric_bytes : ℕ → ℕ → ℕ → Run (List ℕ)
  metric_bytes zero start_time end_time = do
    (min_price, max_price) ← min_max_price_in_range d e start_time end_time
    ok (encode_price min_price ++ encode_price max_price)
  metric_bytes (suc zero) start_time end_time = do
    mean_price ← mean_price_in_range d fuel e start_time end_time
    ok (encode_price mean_price)
  metric_bytes (suc (suc zero)) start_time end_time = do
    total_qty ← total_quantity_in_range d fuel e start_time end_time
    ok (encode_quantity total_qty)
  metric_bytes (suc (suc (suc i))) start_time end_time = ok []

  -- for (i = …; i < 8; i++) if (chooser & (1 << i)) …, with the rounds left.
  unfoldable pub interval_bytes : ℕ → ℕ → ℕ → ℕ → ℕ → Run (List ℕ)
  interval_bytes zero i chooser start_time end_time = ok []
  interval_bytes (suc left) i chooser start_time end_time = do
    bytes ← (if bit_set chooser i then metric_bytes i start_time end_time else ok [])
    rest ← interval_bytes left (i + 1) chooser start_time end_time
    ok (bytes ++ rest)

  -- The outer loop takes fuel of its own: with resolution 0 it does not end.
  unfoldable pub aggregate_from : ℕ → ℕ → TradeDataQuery → ℕ → Run (List ℕ)
  aggregate_from zero chooser query start_time = timeout
  aggregate_from (suc turns) chooser query start_time = elim (ltb start_time query.end_time_point) [
    | false ↦ ok []
    | true ↦ do
      bytes ← interval_bytes 8 0 chooser start_time (interval_end query start_time)
      rest ← aggregate_from turns chooser query (add64 start_time query.resolution)
      ok (bytes ++ rest)
  ]

  unfoldable pub aggregator : ℕ → ℕ → TradeDataQuery → Run (List ℕ)
  aggregator turns chooser query = aggregate_from turns chooser query query.start_time_point
