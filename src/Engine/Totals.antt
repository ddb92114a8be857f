-- ===== src/Engine/Totals.antt =====
-- `total_quantity_in_range` and `mean_price_in_range` of src/query_engine/query_engine.cc, and so every
-- metric that the aggregator asks for.
use group_trade_data_query.Common.{
  ℕ, zero, suc, ◌+◌, ◌≤◌, ◌<◌, ◌≡◌, refl, ap, ◌∙◌, true, List, [], ◌∷◌, ◌++◌, foldl, arith,
  if◌then◌else◌, lt→ltb, length, length-append,
}
use group_trade_data_query.Common.Word.{u64_mod, le_bytes}
use group_trade_data_query.Common.Run.{Run, ok, ◌>>=◌, Returns→ok}
use group_trade_data_query.Common.Int.{signed8}
use group_trade_data_query.Query.{Price, PriceFits, Quantity, QuantityFits, TradeData}
use group_trade_data_query.Query.Codec.{encode_price, encode_quantity}
use group_trade_data_query.Engine.{Engine, locate, scan, rounds}
use group_trade_data_query.Engine.Double.{Double, IsScalable}
use group_trade_data_query.Engine.Metrics.{
  qty_val, weigh, normalise, total_quantity_in_range, mean_price_in_range, Weighted,
  min_max_price_in_range,
}
use group_trade_data_query.Engine.Aggregator.{metric_bytes}
use group_trade_data_query.Engine.Search.{Holds, IsSorted}
use group_trade_data_query.Engine.Window.{rows, scan-foldl, Located, locate-Located}
use group_trade_data_query.Engine.Coverage.{range_trades, scanned, Located_fits, Located_hit}
use group_trade_data_query.Engine.MinMax.{min_max_fold}
use group_trade_data_query.Engine.Scaling.{normalise-Returns}
use group_trade_data_query.Engine.Buffer.{Answers}

module _ {D : Type 0} (d : Double D) where
  open d use {nought, of_u32, pow10, mul, add, div, lt}

  -- A mantissa times a power of ten.
  abbrev pub decimal : ℕ → ℕ → D
  decimal mantissa exp = mul (of_u32 mantissa) (pow10 (signed8 exp))

  -- The sum of the quantities, as doubles, from the first trade to the last.
  abbrev pub sum_qty : List TradeData → D
  sum_qty =
      foldl
        (λ sum trade. add sum (decimal trade.quantity.quantity trade.quantity.quantity_exponent))
        nought

  -- The sum of the prices, each times its quantity.
  abbrev pub sum_price_qty : List TradeData → D
  sum_price_qty =
      foldl
        (λ sum trade. add sum (
          mul (decimal trade.price.price trade.price.price_exponent)
            (decimal trade.quantity.quantity trade.quantity.quantity_exponent)))
        nought

  abbrev pub mean_of : Weighted D → D
  mean_of s = if lt nought s.sum_q then div s.sum_pq s.sum_q else nought

  -- The mean price weighted by quantity, or 0 if the quantities do not add up to more than 0.
  abbrev pub weighted_mean : List TradeData → D
  weighted_mean ts = if lt nought (sum_qty ts) then div (sum_price_qty ts) (sum_qty ts) else nought

  foldl-weigh :
      (ts : List TradeData) (s : Weighted D)
      → foldl (weigh d) s ts ≡ record {
        sum_pq =
            foldl
              (λ sum trade. add sum (
                mul
                  (decimal trade.price.price trade.price.price_exponent)
                  (decimal trade.quantity.quantity trade.quantity.quantity_exponent)))
              s.sum_pq
              ts;
        sum_q =
            foldl
              (λ sum trade.
                add sum (decimal trade.quantity.quantity trade.quantity.quantity_exponent))
              s.sum_q
              ts;
      }
  foldl-weigh [] s = refl
  foldl-weigh (t ∷ ts) s = foldl-weigh ts (weigh d s t)

  -- The scan of the code adds up the two sums.
  pub mean_of-weigh :
      (ts : List TradeData)
      → mean_of (foldl (weigh d) (record { sum_pq = nought; sum_q = nought }) ts) ≡ weighted_mean ts
  mean_of-weigh ts = ap mean_of (foldl-weigh ts (record { sum_pq = nought; sum_q = nought }))

  -- The sums of fewer than 2 ^ 64 decimals are far from infinity.
  pub record SumsFinite {steps : ℕ} (laws : IsScalable d steps) : Type 0 where
    pub sum_amount :
        (ts : List TradeData) → length ts < u64_mod → laws.is_amount (sum_qty ts) ≡ true
    pub mean_amount :
        (ts : List TradeData) → length ts < u64_mod → laws.is_amount (weighted_mean ts) ≡ true

  pub total_quantity-locate :
      (fuel : ℕ) (e : Engine) (start_time end_time : ℕ) (p r : ℕ × ℕ) (s : D)
      → start_time < end_time
      → locate e start_time end_time ≡ ok p
      → scan (λ sum trade. add sum (qty_val d trade)) e (rounds p.0 p.1) p.0 nought ≡ ok s
      → normalise d fuel s ≡ ok r
      → total_quantity_in_range d fuel e start_time end_time
        ≡ ok (record { quantity = r.0; quantity_exponent = r.1 })
  unfolding total_quantity_in_range
  total_quantity-locate fuel e start_time end_time p r s h found summed scaled =
      rw (lt→ltb _ _ h, found, summed, scaled)

  pub mean_price-locate :
      (fuel : ℕ) (e : Engine) (start_time end_time : ℕ) (p r : ℕ × ℕ) (s : Weighted D)
      → start_time < end_time
      → locate e start_time end_time ≡ ok p
      → scan (weigh d) e (rounds p.0 p.1) p.0 (record { sum_pq = nought; sum_q = nought }) ≡ ok s
      → normalise d fuel (mean_of s) ≡ ok r
      → mean_price_in_range d fuel e start_time end_time
        ≡ ok (record { price = r.0; price_exponent = r.1 })
  unfolding mean_price_in_range
  mean_price-locate fuel e start_time end_time p r s h found summed scaled =
      rw (lt→ltb _ _ h, found, summed)
        (ap (λ (m : Run (ℕ × ℕ)). m >>= λ x. ok (record { price = x.0; price_exponent = x.1 }))
          scaled)

pub length-rows : (row : ℕ → TradeData) (k i : ℕ) → length (rows row k i) ≡ k
length-rows row zero i = refl
length-rows row (suc k) i = omega (arith, length-rows row k (i + 1))

module _ {D : Type 0} (d : Double D) {steps : ℕ} (laws : IsScalable d steps)
    (sums : SumsFinite d laws) {e : Engine} {row : ℕ → TradeData} {n : ℕ} (holds : Holds e row n)
    (sorted : IsSorted row n) (start_time end_time : ℕ) (order : start_time < end_time) where
  -- The scaled sum of the trades that the scan visits.
  pub total_quantity_scanned :
      0 < n
      → (p : ℕ × ℕ) × (r : ℕ × ℕ) × Located row n start_time end_time p
        × (normalise d steps (sum_qty d (scanned row p)) ≡ ok r)
        × (total_quantity_in_range d steps e start_time end_time
            ≡ ok (record { quantity = r.0; quantity_exponent = r.1 }))
        × QuantityFits (record { quantity = r.0; quantity_exponent = r.1 })
  total_quantity_scanned pos =
      let (p, found, located) = locate-Located holds sorted start_time end_time pos in
      let fits = Located_fits sorted start_time end_time p located pos in
      let (r, run, small) = Returns→ok (normalise d steps (sum_qty d (scanned row p))) _ (
        normalise-Returns d laws (sum_qty d (scanned row p)) (
          sums.sum_amount (scanned row p)
            (omega (arith, holds.small, length-rows row (rounds p.0 p.1) p.0)))) in
      (
        p,
        r,
        located,
        run,
        total_quantity-locate d steps e start_time end_time p r _ order found
            (scan-foldl _ holds (rounds p.0 p.1) p.0 (d.nought) fits) run,
        record { quantity_lt = small.0; exponent_lt = small.1 },
      )

  pub mean_price_scanned :
      0 < n
      → (p : ℕ × ℕ) × (r : ℕ × ℕ) × Located row n start_time end_time p
        × (normalise d steps (weighted_mean d (scanned row p)) ≡ ok r)
        × (mean_price_in_range d steps e start_time end_time
            ≡ ok (record { price = r.0; price_exponent = r.1 }))
        × PriceFits (record { price = r.0; price_exponent = r.1 })
  mean_price_scanned pos =
      let (p, found, located) = locate-Located holds sorted start_time end_time pos in
      let fits = Located_fits sorted start_time end_time p located pos in
      let (r, run, small) = Returns→ok (normalise d steps (weighted_mean d (scanned row p))) _ (
        normalise-Returns d laws (weighted_mean d (scanned row p)) (
          sums.mean_amount (scanned row p)
            (omega (arith, holds.small, length-rows row (rounds p.0 p.1) p.0)))) in
      (
        p,
        r,
        located,
        run,
        mean_price-locate d steps e start_time end_time p r _ order found
            (scan-foldl _ holds (rounds p.0 p.1) p.0
              (record { sum_pq = d.nought; sum_q = d.nought }) fits)
            (ap (normalise d steps) (mean_of-weigh d (scanned row p)) ∙ run),
        record { price_lt = small.0; exponent_lt = small.1 },
      )

  -- If the doubles can be scaled and the sums of quantities are finite, the engine counts the
  -- trades of its file right, the file is sorted, the range starts before it ends and some trade
  -- is in it, then the call returns the scaled sum of the quantities of exactly the trades of the
  -- range, and its mantissa and exponent fit their types.
  pub total_quantity_in_range-sum :
      (k : ℕ)
      → k < n
      → start_time ≤ (row k).created_at
      → (row k).created_at < end_time
      → (q : Quantity) × (normalise d steps (sum_qty d (range_trades row n start_time end_time))
          ≡ ok (q.quantity, q.quantity_exponent))
        × (total_quantity_in_range d steps e start_time end_time ≡ ok q)
        × QuantityFits q
  total_quantity_in_range-sum k kn ks ke =
      let (p, r, located, scaled, run, fits) = total_quantity_scanned (omega arith) in
      (
        record { quantity = r.0; quantity_exponent = r.1 },
        rw (Located_hit sorted start_time end_time p located k kn ks ke) at scaled,
        run,
        fits,
      )

  -- If the doubles can be scaled and the means are finite, the engine counts the trades of its
  -- file right, the file is sorted, the range starts before it ends and some trade is in it, then
  -- the call returns the scaled mean price, weighted by quantity, of exactly the trades of the
  -- range, and its mantissa and exponent fit their types.
  pub mean_price_in_range-mean :
      (k : ℕ)
      → k < n
      → start_time ≤ (row k).created_at
      → (row k).created_at < end_time
      → (p : Price) × (normalise d steps (weighted_mean d (range_trades row n start_time end_time))
          ≡ ok (p.price, p.price_exponent))
        × (mean_price_in_range d steps e start_time end_time ≡ ok p)
        × PriceFits p
  mean_price_in_range-mean k kn ks ke =
      let (p, r, located, scaled, run, fits) = mean_price_scanned (omega arith) in
      (
        record { price = r.0; price_exponent = r.1 },
        rw (Located_hit sorted start_time end_time p located k kn ks ke) at scaled,
        run,
        fits,
      )

length-encode_price : (p : Price) → length (encode_price p) ≡ 5
unfolding encode_price le_bytes
length-encode_price p = refl

length-encode_quantity : (q : Quantity) → length (encode_quantity q) ≡ 5
unfolding encode_quantity le_bytes
length-encode_quantity q = refl

module _ {D : Type 0} (d : Double D) (fuel : ℕ) (e : Engine) where
  extremes_answer :
      (start_time end_time : ℕ) (lo hi : Price)
      → min_max_price_in_range d e start_time end_time ≡ ok (lo, hi)
      → (bytes : List ℕ) × (metric_bytes d fuel e 0 start_time end_time ≡ ok bytes)
        × (length bytes ≡ 10)
  unfolding metric_bytes
  extremes_answer start_time end_time lo hi run = (
    encode_price lo ++ encode_price hi,
    rw run,
    omega (
      arith,
      length-append (encode_price lo) (encode_price hi),
      length-encode_price lo,
      length-encode_price hi,
    ),
  )

module _ {D : Type 0} (d : Double D) {steps : ℕ} (laws : IsScalable d steps)
    (sums : SumsFinite d laws) {e : Engine} {row : ℕ → TradeData} {n : ℕ} (holds : Holds e row n)
    (sorted : IsSorted row n) (pos : 0 < n) where
  -- On a sorted file that is not empty every metric of every interval is computed.
  pub engine_answers : Answers d steps e
  unfolding metric_bytes
  engine_answers zero start_time end_time h =
      let (p, located, run) = min_max_fold d holds sorted start_time end_time h pos in
      extremes_answer d steps e start_time end_time _ _ run
  engine_answers (suc zero) start_time end_time h =
      let (p, r, located, scaled, run, fits) =
        mean_price_scanned d laws sums holds sorted start_time end_time h pos in
      (
        encode_price (record { price = r.0; price_exponent = r.1 }),
        rw run,
        length-encode_price (record { price = r.0; price_exponent = r.1 }),
      )
  engine_answers (suc (suc zero)) start_time end_time h =
      let (p, r, located, scaled, run, fits) =
        total_quantity_scanned d laws sums holds sorted start_time end_time h pos in
      (
        encode_quantity (record { quantity = r.0; quantity_exponent = r.1 }),
        rw run,
        length-encode_quantity (record { quantity = r.0; quantity_exponent = r.1 }),
      )
  engine_answers (suc (suc (suc i))) start_time end_time h = ([], refl, refl)
