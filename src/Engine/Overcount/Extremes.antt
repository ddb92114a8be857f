-- ===== src/Engine/Overcount/Extremes.antt =====
-- `min_max_price_in_range` of src/query_engine/query_engine.cc on a file of any size.
use mathlib.Core.Path.{ap₂}
use group_trade_data_query.Common.{
  ℕ, ◌*◌, ◌≤◌, ◌<◌, ◌≡◌, refl, inl, inr, List, arith, length, lt→ltb,
}
use group_trade_data_query.Common.Word.{u64_mod}
use group_trade_data_query.Common.Run.{Error, err, read_failed}
use group_trade_data_query.Query.{TradeData}
use group_trade_data_query.Engine.{Engine, locate, rounds}
use group_trade_data_query.Engine.Double.{Double, IsOrdered}
use group_trade_data_query.Engine.Metrics.{visit, no_extremes, min_max_price_in_range}
use group_trade_data_query.Engine.Search.{IsSorted}
use group_trade_data_query.Engine.Store.{Stored, StoredFit, opened, row}
use group_trade_data_query.Engine.Coverage.{range_trades, range_nonempty, Located_fits, Located_hit}
use group_trade_data_query.Engine.MinMax.{
  In, Cheapest, Dearest, foldl-visit_nonempty, min_max_price-locate,
}
use group_trade_data_query.Engine.Overcount.{Overcounts, OrPast}
use group_trade_data_query.Engine.Overcount.Locate.{
  OrPast-cases, scan-foldl_over, locate-or_past, opened-Overcounts,
}

module _ {D : Type 0} (d : Double D) where
  pub min_max_price_fails :
      (e : Engine) (start_time end_time : ℕ) (x : Error)
      → start_time < end_time
      → locate e start_time end_time ≡ err x
      → min_max_price_in_range d e start_time end_time ≡ err x
  unfolding min_max_price_in_range
  min_max_price_fails e start_time end_time x h failed = rw (lt→ltb _ _ h, failed) refl

  pub min_max_price-over :
      {e : Engine} {row : ℕ → TradeData} {n : ℕ}
      → IsOrdered d
      → Overcounts e row n
      → IsSorted row n
      → (start_time end_time k : ℕ) → start_time < end_time
      → k < n
      → start_time ≤ (row k).created_at
      → (row k).created_at < end_time
      → OrPast n (min_max_price_in_range d e start_time end_time) (λ r.
        (lo : TradeData) × (hi : TradeData) × (r ≡ (lo.price, hi.price))
        × In lo (range_trades row n start_time end_time)
        × Cheapest d lo (range_trades row n start_time end_time)
        × In hi (range_trades row n start_time end_time)
        × Dearest d hi (range_trades row n start_time end_time))
  min_max_price-over {e} {row} {n} laws over sorted start_time end_time k order kn ks ke =
      elim (OrPast-cases n (locate e start_time end_time) _
        (locate-or_past over sorted start_time end_time k kn ks ke)) [
          | inr (j, failed, past) ↦
              rw (min_max_price_fails e start_time end_time (read_failed j) order failed) past
          | inl (p, found, located) ↦
              let same = Located_hit sorted start_time end_time p located k kn ks ke in
              let fold =
                scan-foldl_over over sorted start_time end_time (visit d) (rounds p.0 p.1) p.0
                  (no_extremes d)
                  (Located_fits sorted start_time end_time p located (omega arith)) in
              let (lo, hi, a, b, c, f, g, h) =
                foldl-visit_nonempty d laws (range_trades row n start_time end_time)
                  (range_nonempty row n start_time end_time k kn ks ke) in
              let result = min_max_price-locate d e start_time end_time p _ order found fold in
              rw (rw same at result) (lo, hi, ap₂ (λ x y. (x, y)) a b, c, f, g, h)
        ]

  -- If the doubles are ordered, a file of trades in range is sorted and has fewer than 2 ^ 58 of them, and the
  -- range starts before it ends and has some trade in it, then, whatever the count that the constructor makes, the call
  -- either throws at a read past the trades, or returns the prices of a cheapest and of a dearest trade
  -- among exactly the trades of the range.
  pub min_max_price_in_range-opened :
      IsOrdered d
      → (ss : List Stored) → StoredFit ss
      → length ss * 64 < u64_mod
      → IsSorted (row ss) (length ss)
      → (start_time end_time k : ℕ) → start_time < end_time
      → k < length ss
      → start_time ≤ (row ss k).created_at
      → (row ss k).created_at < end_time
      → OrPast (length ss) (min_max_price_in_range d (opened ss) start_time end_time) (λ r.
        (lo : TradeData) × (hi : TradeData) × (r ≡ (lo.price, hi.price))
        × In lo (range_trades (row ss) (length ss) start_time end_time)
        × Cheapest d lo (range_trades (row ss) (length ss) start_time end_time)
        × In hi (range_trades (row ss) (length ss) start_time end_time)
        × Dearest d hi (range_trades (row ss) (length ss) start_time end_time))
  min_max_price_in_range-opened laws ss fits small sorted =
      min_max_price-over laws (opened-Overcounts ss fits small) sorted
