-- ===== src/Query/Codec.antt =====
-- The bytes of a record of src/utils/query.h in memory, which the programs write to files and sockets
-- and read back. Padding has any value; it is an argument.
pub mod RoundTrip
pub mod Bounds
pub mod Image
use group_trade_data_query.Common.{ℕ, ◌+◌, List, [], ◌∷◌, ◌++◌, take, drop}
use group_trade_data_query.Common.Word.{le_bytes, of_le}
use group_trade_data_query.Query.{TradeDataQuery, Price, Quantity, TradeData, Result}

abbrev pub sizeof_trade : ℕ
sizeof_trade = 32

abbrev pub sizeof_query : ℕ
sizeof_query = 40

unfoldable pub encode_price : Price → List ℕ
encode_price p = le_bytes 4 p.price ++ (p.price_exponent ∷ [])

unfoldable pub encode_quantity : Quantity → List ℕ
encode_quantity q = le_bytes 4 q.quantity ++ (q.quantity_exponent ∷ [])

unfoldable pub encode_trade : ℕ → TradeData → List ℕ
unfolding encode_price encode_quantity
encode_trade pad t =
    le_bytes 4 t.symbol_id
    ++ (le_bytes 8 t.created_at
        ++ (le_bytes 8 t.trade_id
            ++ (encode_price t.price ++ (encode_quantity t.quantity ++ (t.taker_side ∷ pad ∷ [])))))

-- `n` bytes at an offset, as an unsigned integer.
unfoldable pub field_at : ℕ → ℕ → List ℕ → ℕ
field_at offset n bytes = of_le (take n (drop offset bytes))

unfoldable pub decode_trade : List ℕ → TradeData
unfolding field_at
decode_trade bytes = record {
  symbol_id = field_at 0 4 bytes;
  created_at = field_at 4 8 bytes;
  trade_id = field_at 12 8 bytes;
  price = record { price = field_at 20 4 bytes; price_exponent = field_at 24 1 bytes };
  quantity = record { quantity = field_at 25 4 bytes; quantity_exponent = field_at 29 1 bytes };
  taker_side = field_at 30 1 bytes;
}

unfoldable pub encode_query : ℕ → TradeDataQuery → List ℕ
encode_query pad q =
    le_bytes 4 q.symbol_id
    ++ (le_bytes 4 pad
        ++ (le_bytes 8 q.start_time_point
            ++ (le_bytes 8 q.end_time_point ++ (le_bytes 8 q.resolution ++ le_bytes 8 q.metrics))))

unfoldable pub decode_query : List ℕ → TradeDataQuery
unfolding field_at
decode_query bytes = record {
  symbol_id = field_at 0 4 bytes;
  start_time_point = field_at 8 8 bytes;
  end_time_point = field_at 16 8 bytes;
  resolution = field_at 24 8 bytes;
  metrics = field_at 32 8 bytes;
}

-- `#pragma pack(2)` is still in force for `Result`, which so has no padding.
abbrev pub sizeof_result : ℕ
sizeof_result = 18

unfoldable pub encode_result : Result → List ℕ
unfolding encode_price
encode_result r =
    le_bytes 8 r.start_time ++ (encode_price r.lowest_price ++ encode_price r.highest_price)

unfoldable pub decode_result : List ℕ → Result
unfolding field_at
decode_result bytes = record {
  start_time = field_at 0 8 bytes;
  lowest_price = record { price = field_at 8 4 bytes; price_exponent = field_at 12 1 bytes };
  highest_price = record { price = field_at 13 4 bytes; price_exponent = field_at 17 1 bytes };
}
