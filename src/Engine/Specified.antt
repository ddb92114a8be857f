-- ===== src/Engine/Specified.antt =====
-- What an answer of src/query_engine/query_engine.cc is to be, in terms of the trades of its interval.
use group_trade_data_query.Common.{ℕ, ◌≤◌, ◌<◌, ◌≡◌, sym, ap, ◌∙◌, List}
use group_trade_data_query.Common.Run.{ok, ok-injective}
use group_trade_data_query.Query.{TradeData, Price, Quantity}
use group_trade_data_query.Engine.{Engine}
use group_trade_data_query.Engine.Double.{Double, IsOrdered, IsScalable}
use group_trade_data_query.Engine.Metrics.{normalise}
use group_trade_data_query.Engine.Decimal.{ScaledTo, normalise-ScaledTo}
use group_trade_data_query.Engine.Search.{Holds, IsSorted}
use group_trade_data_query.Engine.Coverage.{range_trades}
use group_trade_data_query.Engine.MinMax.{In, Cheapest, Dearest, min_max_price_in_range-extremes}
use group_trade_data_query.Engine.Totals.{
  sum_qty, weighted_mean, SumsFinite, total_quantity_in_range-sum, mean_price_in_range-mean,
}
use group_trade_data_query.Engine.Computed.{Answer, Computed}

module _ {D : Type 0} (d : Double D) (steps : ℕ) (row : ℕ → TradeData) (n : ℕ) where
  -- The prices of a cheapest and of a dearest trade, and the decimals of the mean price weighted by quantity
  -- and of the sum of the quantities, of exactly the trades whose times are in the interval.
  pub record MetricsOf (ts : List TradeData) (a : Answer) : Type 0 where
    pub cheapest : (lo : TradeData) × (a.lo ≡ lo.price) × In lo ts × Cheapest d lo ts
    pub dearest : (hi : TradeData) × (a.hi ≡ hi.price) × In hi ts × Dearest d hi ts
    pub mean_price :
        normalise d steps (weighted_mean d ts) ≡ ok (a.mean.price, a.mean.price_exponent)
    pub total_quantity :
        normalise d steps (sum_qty d ts) ≡ ok (a.total.quantity, a.total.quantity_exponent)
    pub mean_decimal : ScaledTo d (weighted_mean d ts) a.mean.price a.mean.price_exponent
    pub total_decimal : ScaledTo d (sum_qty d ts) a.total.quantity a.total.quantity_exponent

  -- The decimals are those of the scaled sums.
  pub metrics_of :
      (ts : List TradeData) (a : Answer)
      → ((lo : TradeData) × (a.lo ≡ lo.price) × In lo ts × Cheapest d lo ts)
      → ((hi : TradeData) × (a.hi ≡ hi.price) × In hi ts × Dearest d hi ts)
      → normalise d steps (weighted_mean d ts) ≡ ok (a.mean.price, a.mean.price_exponent)
      → normalise d steps (sum_qty d ts) ≡ ok (a.total.quantity, a.total.quantity_exponent)
      → MetricsOf ts a
  metrics_of ts a lo hi mean total = record {
    cheapest = lo;
    dearest = hi;
    mean_price = mean;
    total_quantity = total;
    mean_decimal = normalise-ScaledTo d steps (weighted_mean d ts) _ mean;
    total_decimal = normalise-ScaledTo d steps (sum_qty d ts) _ total;
  }

  -- That is asked for an interval with a trade.
  abbrev pub Specified : ℕ → ℕ → Answer → Type 0
  Specified s t a =
      (k : ℕ)
      → k < n
      → s ≤ (row k).created_at
      → (row k).created_at < t
      → MetricsOf (range_trades row n s t) a

module _ {D : Type 0} (d : Double D) (ordered : IsOrdered d) {steps : ℕ} (laws : IsScalable d steps)
    (sums : SumsFinite d laws) {e : Engine} {row : ℕ → TradeData} {n : ℕ} (holds : Holds e row n)
    (sorted : IsSorted row n) where
  -- What the engine computes is what is specified.
  pub Computed-Specified :
      (s t : ℕ) (a : Answer) → s < t → Computed d steps e s t a → Specified d steps row n s t a
  Computed-Specified s t a order computed k kn ks kt =
      let (lo, hi, run, in_lo, cheap, in_hi, dear) =
        min_max_price_in_range-extremes d holds sorted s t order ordered k kn ks kt in
      let prices = ok-injective (sym computed.extremes ∙ run) in
      let (p, scaled, run', fits) =
        mean_price_in_range-mean d laws sums holds sorted s t order k kn ks kt in
      let mean = ok-injective (sym run' ∙ computed.mean_price) in
      let (q, scaled', run'', fits') =
        total_quantity_in_range-sum d laws sums holds sorted s t order k kn ks kt in
      let total = ok-injective (sym run'' ∙ computed.total_quantity) in
      metrics_of d steps row n (range_trades row n s t) a (lo, ap (λ x. x.0) prices, in_lo, cheap)
        (hi, ap (λ x. x.1) prices, in_hi, dear)
        (scaled ∙ ap (λ (x : Price). ok (x.price, x.price_exponent)) mean)
        (scaled' ∙ ap (λ (x : Quantity). ok (x.quantity, x.quantity_exponent)) total)
