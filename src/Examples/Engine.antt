-- ===== src/Examples/Engine.antt =====
-- The theorems on src/query_engine/query_engine.cc at a small data file.
use group_trade_data_query.Common.{◌<◌, ◌≡◌, refl, arith}
use group_trade_data_query.Common.Run.{ok, err, read_failed, Returns}
use group_trade_data_query.Query.{TradeData, TradeDataQuery}
use group_trade_data_query.Engine.{search, send_raw_data}
use group_trade_data_query.Engine.Metrics.{min_max_price_in_range, normalise, zero_price}
use group_trade_data_query.Engine.Search.{Holds, Splits, search-Splits}
use group_trade_data_query.Engine.Store.{opened, row, opened-Holds, send_raw_data_fails}
use group_trade_data_query.Engine.Overcount.{OrPast}
use group_trade_data_query.Engine.Overcount.Extremes.{min_max_price_in_range-opened}
use group_trade_data_query.Engine.Raw.{send_raw_data-range_trades}
use group_trade_data_query.Engine.Coverage.{range_trades}
use group_trade_data_query.Engine.MinMax.{
  In, Cheapest, Dearest, min_max_price_in_range_late, min_max_price_in_range_early,
  min_max_price_in_range_gap,
}
use group_trade_data_query.Engine.Decimal.{ScaledTo}
use group_trade_data_query.Engine.Scaling.{normalise-Returns}
use group_trade_data_query.Engine.Totals.{engine_answers}
use group_trade_data_query.Engine.Buffer.{Answers}
use group_trade_data_query.Examples.Toy.{
  toy, toy-IsOrdered, toy_steps, toy_scalable, toy-SumsFinite, three_trades, three_trades-StoredFit,
  three_trades-Holds, three_trades-IsSorted, copies, copies-StoredFit, copies-IsSorted,
}

min_max_price_in_range_late_example :
    min_max_price_in_range toy (opened three_trades) 40 50
    ≡ ok ((row three_trades 2).price, (row three_trades 2).price)
min_max_price_in_range_late_example =
    min_max_price_in_range_late toy three_trades-Holds three_trades-IsSorted 40 50 (omega arith) 2
      refl (omega arith)

min_max_price_in_range_early_example :
    min_max_price_in_range toy (opened three_trades) 3 5
    ≡ ok ((row three_trades 0).price, (row three_trades 0).price)
min_max_price_in_range_early_example =
    min_max_price_in_range_early toy three_trades-Holds three_trades-IsSorted 3 5 (omega arith)
      (omega arith) (omega arith)

min_max_price_in_range_gap_example :
    min_max_price_in_range toy (opened three_trades) 12 18 ≡ ok (zero_price, zero_price)
min_max_price_in_range_gap_example =
    min_max_price_in_range_gap toy three_trades-Holds three_trades-IsSorted 12 18 (omega arith) 0
      (omega arith) (omega arith) (omega arith)

three_answers : Answers toy toy_steps (opened three_trades)
three_answers =
    engine_answers toy toy_scalable toy-SumsFinite three_trades-Holds three_trades-IsSorted
      (omega arith)

normalise-Returns_example :
    Returns
      (normalise toy toy_steps 12345)
      (λ r. (r.0 < 0x1_0000_0000) × (r.1 < 256) × ScaledTo toy 12345 r.0 r.1)
normalise-Returns_example = normalise-Returns toy toy_scalable 12345 refl

search-Splits_example :
    Returns
      (search (opened three_trades) 15 5 0 3)
      (λ p. (p.0 ≡ p.1) × Splits (row three_trades) 15 0 3 p.0)
search-Splits_example =
    search-Splits three_trades-Holds three_trades-IsSorted 15 4 0 3 (omega arith) (omega arith)
      (omega arith)

abbrev pub three_intervals : TradeDataQuery
three_intervals = record {
  symbol_id = 1;
  start_time_point = 5;
  end_time_point = 30;
  resolution = 10;
  metrics = 0x2_0400_0001;
}

opened-Holds_example : Holds (opened three_trades) (row three_trades) 3
opened-Holds_example = opened-Holds three_trades three_trades-StoredFit (omega arith)

send_raw_data_fails_example :
    (31 < (opened (copies 31)).trades_size)
    × (send_raw_data (opened (copies 31)) three_intervals ≡ err (read_failed 31))
send_raw_data_fails_example =
    send_raw_data_fails (copies 31) three_intervals (copies-StoredFit 31) (omega arith)
      (omega arith)

send_raw_data-range_trades_example :
    send_raw_data (opened three_trades) three_intervals
    ≡ ok (range_trades (row three_trades) 3 5 30)
send_raw_data-range_trades_example = send_raw_data-range_trades three_trades-Holds three_intervals

min_max_price_in_range-opened_example :
    OrPast 40 (min_max_price_in_range toy (opened (copies 40)) 5 15) (λ r.
      (lo : TradeData) × (hi : TradeData) × (r ≡ (lo.price, hi.price))
      × In lo (range_trades (row (copies 40)) 40 5 15)
      × Cheapest toy lo (range_trades (row (copies 40)) 40 5 15)
      × In hi (range_trades (row (copies 40)) 40 5 15)
      × Dearest toy hi (range_trades (row (copies 40)) 40 5 15))
min_max_price_in_range-opened_example =
    min_max_price_in_range-opened toy toy-IsOrdered (copies 40) (copies-StoredFit 40) (omega arith)
      (copies-IsSorted 40) 5 15 7 (omega arith) (omega arith) (omega arith) (omega arith)
