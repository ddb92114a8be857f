-- ===== src/Engine/Overcount/Sums.antt =====
-- `total_quantity_in_range` and `mean_price_in_range` of src/query_engine/query_engine.cc on a file of any size.
use group_trade_data_query.Common.{
  ap, ◌∙◌, ℕ, ◌+◌, ◌≤◌, ◌<◌, ◌≡◌, refl, inl, inr, List, arith, lt→ltb,
}
use group_trade_data_query.Common.Run.{Error, ok, err, read_failed, Returns→ok}
use group_trade_data_query.Query.{Price, PriceFits, Quantity, QuantityFits, TradeData}
use group_trade_data_query.Engine.{Engine, locate, rounds}
use group_trade_data_query.Engine.Double.{Double, IsScalable}
use group_trade_data_query.Engine.Metrics.{normalise, total_quantity_in_range, mean_price_in_range}
use group_trade_data_query.Engine.Search.{IsSorted}
use group_trade_data_query.Engine.Coverage.{range_trades, scanned, Located_fits, Located_hit}
use group_trade_data_query.Engine.Scaling.{normalise-Returns}
use group_trade_data_query.Engine.Totals.{
  sum_qty, weighted_mean, mean_of-weigh, SumsFinite, total_quantity-locate, mean_price-locate,
  length-rows,
}
use group_trade_data_query.Engine.Overcount.{Overcounts, OrPast}
use group_trade_data_query.Engine.Overcount.Locate.{
  OrPast-cases, scan-foldl_over, locate-or_past, locate-Within,
}

module _ {D : Type 0} (d : Double D) (fuel : ℕ) (e : Engine) (start_time end_time : ℕ) (x : Error)
    (order : start_time < end_time) (failed : locate e start_time end_time ≡ err x) where
  total_quantity_fails : total_quantity_in_range d fuel e start_time end_time ≡ err x
  unfolding total_quantity_in_range
  total_quantity_fails = rw (lt→ltb _ _ order, failed) refl

  mean_price_fails : mean_price_in_range d fuel e start_time end_time ≡ err x
  unfolding mean_price_in_range
  mean_price_fails = rw (lt→ltb _ _ order, failed) refl

-- The scaled sum of the quantities of given trades, and their scaled mean price.
abbrev pub ScaledSum : {D : Type 0} → Double D → ℕ → List TradeData → Quantity → Type 0
ScaledSum d steps ts q =
    (normalise d steps (sum_qty d ts) ≡ ok (q.quantity, q.quantity_exponent)) × QuantityFits q

abbrev pub ScaledMean : {D : Type 0} → Double D → ℕ → List TradeData → Price → Type 0
ScaledMean d steps ts p =
    (normalise d steps (weighted_mean d ts) ≡ ok (p.price, p.price_exponent)) × PriceFits p

module _ {D : Type 0} (d : Double D) {steps : ℕ} (laws : IsScalable d steps)
    (sums : SumsFinite d laws) {e : Engine} {row : ℕ → TradeData} {n : ℕ}
    (over : Overcounts e row n) (sorted : IsSorted row n) (start_time end_time : ℕ)
    (order : start_time < end_time) where
  module _ (p : ℕ × ℕ) (found : locate e start_time end_time ≡ ok p)
      (within : p.0 + rounds p.0 p.1 ≤ n) where
    total_quantity_within :
        (q : Quantity) × (total_quantity_in_range d steps e start_time end_time ≡ ok q)
        × ScaledSum d steps (scanned row p) q
    total_quantity_within =
        let (r, run, small) = Returns→ok (normalise d steps (sum_qty d (scanned row p))) _ (
          normalise-Returns d laws (sum_qty d (scanned row p)) (
            sums.sum_amount (scanned row p)
              (omega (arith, over.small, over.size, length-rows row (rounds p.0 p.1) p.0)))) in
        (
          record { quantity = r.0; quantity_exponent = r.1 },
          total_quantity-locate d steps e start_time end_time p r _ order found
              (scan-foldl_over over sorted start_time end_time _ (rounds p.0 p.1) p.0 (d.nought)
                within)
              run,
          (run, record { quantity_lt = small.0; exponent_lt = small.1 }),
        )

    mean_price_within :
        (q : Price) × (mean_price_in_range d steps e start_time end_time ≡ ok q)
        × ScaledMean d steps (scanned row p) q
    mean_price_within =
        let (r, run, small) = Returns→ok (normalise d steps (weighted_mean d (scanned row p))) _ (
          normalise-Returns d laws (weighted_mean d (scanned row p)) (
            sums.mean_amount (scanned row p)
              (omega (arith, over.small, over.size, length-rows row (rounds p.0 p.1) p.0)))) in
        (
          record { price = r.0; price_exponent = r.1 },
          mean_price-locate d steps e start_time end_time p r _ order found
              (scan-foldl_over over sorted start_time end_time _ (rounds p.0 p.1) p.0
                (record { sum_pq = d.nought; sum_q = d.nought }) within)
              (ap (normalise d steps) (mean_of-weigh d (scanned row p)) ∙ run),
          (run, record { price_lt = small.0; exponent_lt = small.1 }),
        )

  -- Whatever the range, the calls throw past the trades, or they return numbers that fit their types.
  pub total_quantity-QuantityFits :
      0 < n → OrPast n (total_quantity_in_range d steps e start_time end_time) QuantityFits
  total_quantity-QuantityFits pos =
      elim (OrPast-cases n (locate e start_time end_time) _
        (locate-Within over sorted start_time end_time pos)) [
          | inr (j, failed, past) ↦
              rw (total_quantity_fails d steps e start_time end_time (read_failed j) order failed)
                past
          | inl (p, found, within) ↦
              let (q, run, sum) = total_quantity_within p found within in rw run (sum.1)
        ]

  pub mean_price-PriceFits :
      0 < n → OrPast n (mean_price_in_range d steps e start_time end_time) PriceFits
  mean_price-PriceFits pos =
      elim (OrPast-cases n (locate e start_time end_time) _
        (locate-Within over sorted start_time end_time pos)) [
          | inr (j, failed, past) ↦
              rw (mean_price_fails d steps e start_time end_time (read_failed j) order failed) past
          | inl (p, found, within) ↦
              let (q, run, mean) = mean_price_within p found within in rw run (mean.1)
        ]

  module _ (k : ℕ) (kn : k < n) (ks : start_time ≤ (row k).created_at)
      (ke : (row k).created_at < end_time) where
    -- With a trade in the range the calls are about exactly the trades of the range.
    pub total_quantity-over :
        OrPast n
          (total_quantity_in_range d steps e start_time end_time)
          (ScaledSum d steps (range_trades row n start_time end_time))
    total_quantity-over =
        elim (OrPast-cases n (locate e start_time end_time) _
          (locate-or_past over sorted start_time end_time k kn ks ke)) [
            | inr (j, failed, past) ↦
                rw (total_quantity_fails d steps e start_time end_time (read_failed j) order failed)
                  past
            | inl (p, found, located) ↦
                let (q, run, sum) =
                  total_quantity_within p found
                    (Located_fits sorted start_time end_time p located (omega arith)) in
                rw run (rw (Located_hit sorted start_time end_time p located k kn ks ke) at sum)
          ]

    pub mean_price-over :
        OrPast n
          (mean_price_in_range d steps e start_time end_time)
          (ScaledMean d steps (range_trades row n start_time end_time))
    mean_price-over =
        elim (OrPast-cases n (locate e start_time end_time) _
          (locate-or_past over sorted start_time end_time k kn ks ke)) [
            | inr (j, failed, past) ↦
                rw (mean_price_fails d steps e start_time end_time (read_failed j) order failed)
                  past
            | inl (p, found, located) ↦
                let (q, run, mean) =
                  mean_price_within p found
                    (Located_fits sorted start_time end_time p located (omega arith)) in
                rw run (rw (Located_hit sorted start_time end_time p located k kn ks ke) at mean)
          ]
