-- ===== src/Query.antt =====
-- src/utils/query.h: the records that travel between the programs and lie in the data file. A field
-- of an unsigned type is a number; an `int8_t` is its bit pattern, below 256.
pub mod Layout
pub mod Codec
use group_trade_data_query.Common.{ℕ, ◌<◌}

pub record TradeDataQuery : Type 0 where
  pub symbol_id : ℕ
  pub start_time_point : ℕ
  pub end_time_point : ℕ
  pub resolution : ℕ
  pub metrics : ℕ

pub record Price : Type 0 where
  pub price : ℕ
  pub price_exponent : ℕ

pub record Quantity : Type 0 where
  pub quantity : ℕ
  pub quantity_exponent : ℕ

pub record TradeData : Type 0 where
  pub symbol_id : ℕ
  pub created_at : ℕ
  pub trade_id : ℕ
  pub price : Price
  pub quantity : Quantity
  pub taker_side : ℕ

pub record Result : Type 0 where
  pub start_time : ℕ
  pub lowest_price : Price
  pub highest_price : Price

-- Every field is in the range of its C type.
pub record PriceFits (p : Price) : Type 0 where
  pub price_lt : p.price < 0x1_0000_0000
  pub exponent_lt : p.price_exponent < 256

pub record QuantityFits (q : Quantity) : Type 0 where
  pub quantity_lt : q.quantity < 0x1_0000_0000
  pub exponent_lt : q.quantity_exponent < 256

pub record TradeFits (t : TradeData) : Type 0 where
  pub symbol_lt : t.symbol_id < 0x1_0000_0000
  pub created_lt : t.created_at < 0x1_0000_0000_0000_0000
  pub id_lt : t.trade_id < 0x1_0000_0000_0000_0000
  pub price_fits : PriceFits t.price
  pub quantity_fits : QuantityFits t.quantity
  pub side_lt : t.taker_side < 256

pub record QueryFits (q : TradeDataQuery) : Type 0 where
  pub symbol_lt : q.symbol_id < 0x1_0000_0000
  pub start_lt : q.start_time_point < 0x1_0000_0000_0000_0000
  pub end_lt : q.end_time_point < 0x1_0000_0000_0000_0000
  pub resolution_lt : q.resolution < 0x1_0000_0000_0000_0000
  pub metrics_lt : q.metrics < 0x1_0000_0000_0000_0000

pub record ResultFits (r : Result) : Type 0 where
  pub start_lt : r.start_time < 0x1_0000_0000_0000_0000
  pub lowest_fits : PriceFits r.lowest_price
  pub highest_fits : PriceFits r.highest_price
