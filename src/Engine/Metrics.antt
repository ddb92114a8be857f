-- ===== src/Engine/Metrics.antt =====
-- src/query_engine/query_engine.cc: the three functions over a time range. An exponent is the bit pattern of an
-- `int8_t`.
use group_trade_data_query.Common.{
  ℕ, zero, suc, ◌+◌, ◌%◌, Bool, true, false, ◌&&◌, ◌||◌, ltb, if◌then◌else◌,
}
use group_trade_data_query.Common.Int.{negsuc, ltb_ℤ, signed8}
use group_trade_data_query.Common.Run.{Run, ok, timeout, assertion, require, ◌>>=◌, ◌>>◌}
use group_trade_data_query.Query.{Price, Quantity, TradeData}
use group_trade_data_query.Engine.{Engine, locate, scan, rounds}
use group_trade_data_query.Engine.Double.{Double}

-- The variables of the scan in `min_max_price_in_range`.
pub record Extremes {ℓ} (D : Type ℓ) : Type ℓ where
  pub first : Bool
  pub min_val : D
  pub max_val : D
  pub min_p : Price
  pub max_p : Price

abbrev pub zero_price : Price
zero_price = record { price = 0; price_exponent = 0 }

-- The variables of the scan in `mean_price_in_range`.
pub record Weighted {ℓ} (D : Type ℓ) : Type ℓ where
  pub sum_pq : D
  pub sum_q : D

-- A decimal that the scaling loops build.
pub record Scaled {ℓ} (D : Type ℓ) : Type ℓ where
  pub val : D
  pub exp : ℕ

module _ {ℓ} {D : Type ℓ} (d : Double D) where
  open d use {nought, of_u32, of_u64, pow10, mul, add, div, lt, round_u32}

  abbrev pub price_val : TradeData → D
  price_val trade = mul (of_u32 trade.price.price) (pow10 (signed8 trade.price.price_exponent))

  abbrev pub qty_val : TradeData → D
  qty_val trade =
      mul (of_u32 trade.quantity.quantity) (pow10 (signed8 trade.quantity.quantity_exponent))

  abbrev pub no_extremes : Extremes D
  no_extremes = record {
    first = true;
    min_val = nought;
    max_val = nought;
    min_p = zero_price;
    max_p = zero_price;
  }

  unfoldable pub visit : Extremes D → TradeData → Extremes D
  visit s trade =
      let v = price_val trade in
      let lower = s.first || lt v s.min_val in
      let higher = s.first || lt s.max_val v in
      record {
        first = false;
        min_val = if lower then v else s.min_val;
        max_val = if higher then v else s.max_val;
        min_p = if lower then trade.price else s.min_p;
        max_p = if higher then trade.price else s.max_p;
      }

  unfoldable pub min_max_price_in_range : Engine → ℕ → ℕ → Run (Price × Price)
  min_max_price_in_range e start_time end_time = do
    require (ltb start_time end_time) assertion
    (start_idx, end_idx) ← locate e start_time end_time
    s ← scan visit e (rounds start_idx end_idx) start_idx no_extremes
    ok (s.min_p, s.max_p)

  -- while (val > 0 && val < 1000000000.0 && exp > -18) { val *= 10.0; --exp; }
  unfoldable pub scale_up : ℕ → D → ℕ → Run (Scaled D)
  scale_up zero val exp = timeout
  scale_up (suc fuel) val exp =
      elim (lt nought val && lt val (of_u64 1_000_000_000) && ltb_ℤ (negsuc 17) (signed8 exp)) [
        | true ↦ scale_up fuel (mul val (of_u64 10)) ((exp + 255) % 256)
        | false ↦ ok (record { val = val; exp = exp })
      ]

  -- while (val > UINT32_MAX) { val /= 10.0; ++exp; }
  unfoldable pub scale_down : ℕ → D → ℕ → Run (Scaled D)
  scale_down zero val exp = timeout
  scale_down (suc fuel) val exp = elim (lt (of_u64 0xffff_ffff) val) [
    | true ↦ scale_down fuel (div val (of_u64 10)) ((exp + 1) % 256)
    | false ↦ ok (record { val = val; exp = exp })
  ]

  -- The end of both functions that return a computed value. `exp` leaves 0 at most 18 times, so 19
  -- rounds are enough for the first loop; `fuel` is for the second.
  unfoldable pub normalise : ℕ → D → Run (ℕ × ℕ)
  normalise fuel val = do
    up ← scale_up 19 val 0
    down ← scale_down fuel up.val up.exp
    ok (round_u32 down.val, down.exp)

  unfoldable pub total_quantity_in_range : ℕ → Engine → ℕ → ℕ → Run Quantity
  total_quantity_in_range fuel e start_time end_time = do
    require (ltb start_time end_time) assertion
    (start_idx, end_idx) ← locate e start_time end_time
    total_val ←
        scan (λ sum trade. add sum (qty_val trade)) e (rounds start_idx end_idx) start_idx nought
    (mantissa, exp) ← normalise fuel total_val
    ok (record { quantity = mantissa; quantity_exponent = exp })

  abbrev pub weigh : Weighted D → TradeData → Weighted D
  weigh s trade = record {
    sum_pq = add s.sum_pq (mul (price_val trade) (qty_val trade));
    sum_q = add s.sum_q (qty_val trade);
  }

  unfoldable pub mean_price_in_range : ℕ → Engine → ℕ → ℕ → Run Price
  mean_price_in_range fuel e start_time end_time = do
    require (ltb start_time end_time) assertion
    (start_idx, end_idx) ← locate e start_time end_time
    s ←
        scan weigh e (rounds start_idx end_idx) start_idx
          (record { sum_pq = nought; sum_q = nought })
    (mantissa, exp) ← normalise fuel (if lt nought s.sum_q then div s.sum_pq s.sum_q else nought)
    ok (record { price = mantissa; price_exponent = exp })
