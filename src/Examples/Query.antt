-- ===== src/Examples/Query.antt =====
-- The theorems on src/utils/query.h at a trade and at a query.
use group_trade_data_query.Common.{arith}
use group_trade_data_query.Query.{
  TradeData, TradeFits, TradeDataQuery, QueryFits, Result, ResultFits,
}
use group_trade_data_query.Query.Codec.Image.{AreImages, encode-AreImages}

-- A sale at 150.25, with the largest time.
abbrev sale : TradeData
sale = record {
  symbol_id = 258;
  created_at = 0xffff_ffff_ffff_ffff;
  trade_id = 77;
  price = record { price = 15025; price_exponent = 254 };
  quantity = record { quantity = 3; quantity_exponent = 0 };
  taker_side = 1;
}

abbrev pub query_of_all : TradeDataQuery
query_of_all = record {
  symbol_id = 258;
  start_time_point = 5;
  end_time_point = 30;
  resolution = 10;
  metrics = 0x2_0400_0001;
}

pub query_of_all-QueryFits : QueryFits query_of_all
query_of_all-QueryFits = record {
  symbol_lt = omega arith;
  start_lt = omega arith;
  end_lt = omega arith;
  resolution_lt = omega arith;
  metrics_lt = omega arith;
}

sale-TradeFits : TradeFits sale
sale-TradeFits = record {
  symbol_lt = omega arith;
  created_lt = omega arith;
  id_lt = omega arith;
  price_fits = record { price_lt = omega arith; exponent_lt = omega arith };
  quantity_fits = record { quantity_lt = omega arith; exponent_lt = omega arith };
  side_lt = omega arith;
}

abbrev daily : Result
daily = record {
  start_time = 1500;
  lowest_price = record { price = 3; price_exponent = 0 };
  highest_price = record { price = 5; price_exponent = 255 };
}

daily-ResultFits : ResultFits daily
daily-ResultFits = record {
  start_lt = omega arith;
  lowest_fits = record { price_lt = omega arith; exponent_lt = omega arith };
  highest_fits = record { price_lt = omega arith; exponent_lt = omega arith };
}

encode-AreImages_example : AreImages 9 sale query_of_all daily
encode-AreImages_example =
    encode-AreImages 9 sale query_of_all daily sale-TradeFits query_of_all-QueryFits
      daily-ResultFits
