-- ===== src/Engine/Overcount/Answers.antt =====
-- `Query_engine::aggregator` of src/query_engine/query_engine.cc on a file of any size.
use native.Mathlib.Decide.{dec_lt}
use group_trade_data_query.Common.{
  ℕ, zero, suc, ◌+◌, ◌-◌, ◌<◌, ap, inl, inr, [], arith, if◌then◌else◌, Bool-cases,
}
use group_trade_data_query.Common.Word.{bit_set}
use group_trade_data_query.Common.Run.{ok, read_failed}
use group_trade_data_query.Query.{TradeDataQuery, TradeData}
use group_trade_data_query.Engine.{Engine, locate, rounds, int_ceil}
use group_trade_data_query.Engine.Double.{Double, IsOrdered, IsScalable}
use group_trade_data_query.Engine.Metrics.{
  visit, no_extremes, min_max_price_in_range, mean_price_in_range, total_quantity_in_range,
}
use group_trade_data_query.Engine.Aggregator.{
  interval_end, metric_bytes, interval_bytes, aggregate_from,
}
use group_trade_data_query.Engine.Buffer.{
  NoWrap, interval_end_bounds, aggregate_done, aggregate_step, int_ceil_step,
}
use group_trade_data_query.Engine.Search.{IsSorted}
use group_trade_data_query.Engine.MinMax.{min_max_price-locate}
use group_trade_data_query.Engine.Totals.{SumsFinite}
use group_trade_data_query.Engine.Computed.{Answer, Computed}
use group_trade_data_query.Engine.Fits.{ReadsFit, AnswerFits, min_max_price-PriceFits}
use group_trade_data_query.Engine.Specified.{Specified, metrics_of}
use group_trade_data_query.Engine.Overcount.{Overcounts, OrPast}
use group_trade_data_query.Engine.Overcount.Locate.{
  OrPast-cases, OrPast-bind, OrPast-ok, scan-foldl_over, locate-Within,
}
use group_trade_data_query.Engine.Overcount.Extremes.{min_max_price_fails, min_max_price-over}
use group_trade_data_query.Engine.Overcount.Sums.{
  total_quantity-QuantityFits, mean_price-PriceFits, total_quantity-over, mean_price-over,
}

-- Nothing is asked of a result.
abbrev pub Any {ℓ} : {A : Type ℓ} → A → Type 0
Any a = Unit

module _ {D : Type 0} (d : Double D) {steps : ℕ} (laws : IsScalable d steps)
    (sums : SumsFinite d laws) {e : Engine} {row : ℕ → TradeData} {n : ℕ}
    (over : Overcounts e row n) (sorted : IsSorted row n) (pos : 0 < n) where
  min_max_price-OrPast : (s t : ℕ) → s < t → OrPast n (min_max_price_in_range d e s t) Any
  min_max_price-OrPast s t order =
      elim (OrPast-cases n (locate e s t) _ (locate-Within over sorted s t pos)) [
        | inr (j, failed, past) ↦ rw (min_max_price_fails d e s t (read_failed j) order failed) past
        | inl (p, found, within) ↦
            rw
              (min_max_price-locate d e s t p _ order found (
                scan-foldl_over over sorted s t (visit d) (rounds p.0 p.1) p.0 (no_extremes d)
                  within))
              tt
      ]

  metric_bytes-OrPast : (i s t : ℕ) → s < t → OrPast n (metric_bytes d steps e i s t) Any
  unfolding metric_bytes
  metric_bytes-OrPast zero s t order =
      OrPast-bind n (min_max_price_in_range d e s t) _ Any Any (min_max_price-OrPast s t order)
        (λ a run h. tt)
  metric_bytes-OrPast (suc zero) s t order =
      OrPast-bind n (mean_price_in_range d steps e s t) _ _ Any
        (mean_price-PriceFits d laws sums over sorted s t order pos) (λ a run h. tt)
  metric_bytes-OrPast (suc (suc zero)) s t order =
      OrPast-bind n (total_quantity_in_range d steps e s t) _ _ Any
        (total_quantity-QuantityFits d laws sums over sorted s t order pos) (λ a run h. tt)
  metric_bytes-OrPast (suc (suc (suc i))) s t order = tt

  asked-OrPast :
      (chooser i s t : ℕ)
      → s < t
      → OrPast n (if bit_set chooser i then metric_bytes d steps e i s t else ok []) Any
  asked-OrPast chooser i s t order = elim (Bool-cases (bit_set chooser i)) [
    | inl on ↦ rw on (metric_bytes-OrPast i s t order)
    | inr off ↦ rw off tt
  ]

  interval_bytes-OrPast :
      (left i chooser s t : ℕ) → s < t → OrPast n (interval_bytes d steps e left i chooser s t) Any
  unfolding interval_bytes
  interval_bytes-OrPast zero i chooser s t order = tt
  interval_bytes-OrPast (suc left) i chooser s t order =
      OrPast-bind n (if bit_set chooser i then metric_bytes d steps e i s t else ok []) _ Any Any
        (asked-OrPast chooser i s t order)
        (λ bytes run h.
          OrPast-bind n (interval_bytes d steps e left (i + 1) chooser s t) _ Any Any
            (interval_bytes-OrPast left (i + 1) chooser s t order) (λ rest run' h'. tt))

  -- With more turns than intervals the aggregator throws past the trades, or it returns.
  pub aggregate_from-OrPast :
      (chooser : ℕ) (query : TradeDataQuery)
      → NoWrap query
      → 0 < query.resolution
      → (turns start_time : ℕ)
      → int_ceil (query.end_time_point - start_time) query.resolution < turns
      → OrPast n (aggregate_from d steps e turns chooser query start_time) Any
  aggregate_from-OrPast chooser query w r zero start_time h = absurd (omega arith)
  aggregate_from-OrPast chooser query w r (suc turns) start_time h =
      elim (dec_lt start_time query.end_time_point) [
        | no done ↦ rw (aggregate_done d steps e turns chooser query start_time (omega arith)) tt
        | yes more ↦
            let (after, within, short, same) = interval_end_bounds query start_time w r more in
            let fewer = int_ceil_step query start_time r more in
            rw (aggregate_step d steps e turns chooser query start_time more, same)
              (OrPast-bind n
                (interval_bytes d steps e 8 0 chooser start_time (interval_end query start_time)) _
                Any Any
                (interval_bytes-OrPast 8 0 chooser start_time (interval_end query start_time) after)
                (λ bytes run g.
                  OrPast-bind n
                    (aggregate_from d steps e turns chooser query (start_time + query.resolution)) _
                    Any Any
                    (aggregate_from-OrPast chooser query w r turns (start_time + query.resolution)
                      (omega arith))
                    (λ rest run' g'. tt)))
      ]

  module _ (ordered : IsOrdered d) (fits : ReadsFit e) where
    -- What is computed fits its types, and is what is specified.
    pub Computed-AnswerFits_over :
        (s t : ℕ) (a : Answer) → s < t → Computed d steps e s t a → AnswerFits a
    Computed-AnswerFits_over s t a order computed =
        let (lo, hi) = min_max_price-PriceFits d e fits s t (a.lo, a.hi) computed.extremes in
        record {
          lo_fits = lo;
          hi_fits = hi;
          mean_fits =
              OrPast-ok n (mean_price_in_range d steps e s t) _
                (mean_price-PriceFits d laws sums over sorted s t order pos) computed.mean_price;
          total_fits =
              OrPast-ok n (total_quantity_in_range d steps e s t) _
                (total_quantity-QuantityFits d laws sums over sorted s t order pos)
                computed.total_quantity;
        }

    pub Computed-Specified_over :
        (s t : ℕ) (a : Answer) → s < t → Computed d steps e s t a → Specified d steps row n s t a
    Computed-Specified_over s t a order computed k kn ks kt =
        let (lo, hi, prices, in_lo, cheap, in_hi, dear) =
          OrPast-ok n (min_max_price_in_range d e s t) _
            (min_max_price-over d ordered over sorted s t k order kn ks kt) computed.extremes in
        let mean =
          OrPast-ok n (mean_price_in_range d steps e s t) _
            (mean_price-over d laws sums over sorted s t order k kn ks kt) computed.mean_price in
        let total =
          OrPast-ok n (total_quantity_in_range d steps e s t) _
            (total_quantity-over d laws sums over sorted s t order k kn ks kt)
            computed.total_quantity in
        metrics_of d steps row n _ a (lo, ap (λ x. x.0) prices, in_lo, cheap)
          (hi, ap (λ x. x.1) prices, in_hi, dear) (mean.0) (total.0)
