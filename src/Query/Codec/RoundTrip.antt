-- ===== src/Query/Codec/RoundTrip.antt =====
-- Reading back what was written: src/utils/query.h.
use group_trade_data_query.Common.{ℕ, ◌≡◌, refl, [], ◌∷◌, arith, length}
use group_trade_data_query.Common.Word.{le_bytes, of_le, of_le-le_bytes}
use group_trade_data_query.Query.{
  TradeDataQuery, TradeData, Result, TradeFits, QueryFits, ResultFits,
}
use group_trade_data_query.Query.Layout.{
  sizeof, offsets, trade_members, query_members, result_members, natural,
}
use group_trade_data_query.Query.Codec.{
  encode_result, decode_result, sizeof_result, encode_trade, decode_trade, encode_query,
  decode_query, sizeof_trade, sizeof_query,
}

-- A stored trade takes `sizeof(TradeData)` bytes: 31 bytes of members, rounded up to 32, with the members
-- at the offsets that the decoder reads.
pub trade_layout :
    (pad : ℕ) (t : TradeData)
    → (length (encode_trade pad t) ≡ sizeof 2 trade_members)
      × (sizeof 2 trade_members ≡ sizeof_trade)
      × (offsets 2 0 trade_members ≡ 0 ∷ 4 ∷ 12 ∷ 20 ∷ 25 ∷ 30 ∷ [])
unfolding encode_trade le_bytes sizeof offsets
trade_layout pad t = (refl, refl, refl)

pub length-encode_trade : (pad : ℕ) (t : TradeData) → length (encode_trade pad t) ≡ sizeof_trade
unfolding encode_trade le_bytes
length-encode_trade pad t = refl

pub length-encode_query :
    (pad : ℕ) (q : TradeDataQuery) → length (encode_query pad q) ≡ sizeof_query
unfolding encode_query le_bytes
length-encode_query pad q = refl

-- A trade whose members are in range is read back from its bytes, whatever the padding.
pub decode_trade-encode_trade :
    (pad : ℕ) (t : TradeData) → TradeFits t → decode_trade (encode_trade pad t) ≡ t
unfolding encode_trade decode_trade le_bytes of_le
decode_trade-encode_trade pad t h = ground (
  arith,
  of_le-le_bytes 4 t.symbol_id,
  of_le-le_bytes 8 t.created_at,
  of_le-le_bytes 8 t.trade_id,
  of_le-le_bytes 4 t.price.price,
  of_le-le_bytes 4 t.quantity.quantity,
)

-- A query whose members are in range is read back from its bytes, whatever the padding; their number is the
-- size of the struct, 40, with four bytes of padding after the symbol.
pub decode_query-encode_query :
    (pad : ℕ) (q : TradeDataQuery)
    → QueryFits q
    → (decode_query (encode_query pad q) ≡ q)
      × (length (encode_query pad q) ≡ sizeof natural query_members)
      × (sizeof natural query_members ≡ sizeof_query)
      × (offsets natural 0 query_members ≡ 0 ∷ 8 ∷ 16 ∷ 24 ∷ 32 ∷ [])
unfolding encode_query decode_query le_bytes of_le sizeof offsets
decode_query-encode_query pad q h = (
  ground (
    arith,
    of_le-le_bytes 4 q.symbol_id,
    of_le-le_bytes 8 q.start_time_point,
    of_le-le_bytes 8 q.end_time_point,
    of_le-le_bytes 8 q.resolution,
    of_le-le_bytes 8 q.metrics,
  ),
  refl,
  refl,
  refl,
)

-- A `Result` is read back from its bytes, whose number is the size of the struct, if its members are in
-- range.
pub decode_result-encode_result :
    (r : Result)
    → ResultFits r
    → (decode_result (encode_result r) ≡ r)
      × (length (encode_result r) ≡ sizeof 2 result_members)
      × (sizeof 2 result_members ≡ sizeof_result)
unfolding encode_result decode_result le_bytes of_le sizeof
decode_result-encode_result r h = (
  ground (
    arith,
    of_le-le_bytes 8 r.start_time,
    of_le-le_bytes 4 r.lowest_price.price,
    of_le-le_bytes 4 r.highest_price.price,
  ),
  refl,
  refl,
)
