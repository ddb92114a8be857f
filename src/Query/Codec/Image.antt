-- ===== src/Query/Codec/Image.antt =====
-- The bytes of the structs of src/utils/query.h against the layout that the compiler gives to their members.
use group_trade_data_query.Common.{ℕ, ◌≡◌, refl, List, [], ◌∷◌, length, take, drop}
use group_trade_data_query.Common.Word.{le_bytes}
use group_trade_data_query.Query.{
  TradeDataQuery, QueryFits, Price, Quantity, TradeData, TradeFits, Result, ResultFits,
}
use group_trade_data_query.Query.Layout.{
  Member, sizeof, offsets, natural, decimal_members, trade_members, query_members, result_members,
}
use group_trade_data_query.Query.Codec.{
  encode_price, encode_quantity, encode_trade, decode_trade, encode_query, decode_query,
  encode_result, decode_result,
}
use group_trade_data_query.Query.Codec.RoundTrip.{
  decode_trade-encode_trade, decode_query-encode_query, decode_result-encode_result,
}

-- The bytes at some offsets, as many as each member has.
abbrev pub cut : List ℕ → List Member → List ℕ → List (List ℕ)
cut [] ms bytes = []
cut (free ∷ rest) [] bytes = []
cut (free ∷ rest) (m ∷ ms) bytes = take m.size (drop free bytes) ∷ cut rest ms bytes

-- The bytes are as many as the struct has, and at the members' offsets are those of the members.
abbrev pub IsImage : ℕ → List Member → List ℕ → List (List ℕ) → Type 0
IsImage pack ms bytes parts =
    (length bytes ≡ sizeof pack ms) × (cut (offsets pack 0 ms) ms bytes ≡ parts)

-- A `Price` is packed.
encode_price-IsImage :
    (p : Price)
    → IsImage 1 decimal_members (encode_price p) (le_bytes 4 p.price ∷ (p.price_exponent ∷ []) ∷ [])
unfolding encode_price le_bytes sizeof offsets
encode_price-IsImage p = (refl, refl)

encode_quantity-IsImage :
    (q : Quantity)
    → IsImage 1 decimal_members
        (encode_quantity q)
        (le_bytes 4 q.quantity ∷ (q.quantity_exponent ∷ []) ∷ [])
unfolding encode_quantity le_bytes sizeof offsets
encode_quantity-IsImage q = (refl, refl)

encode_trade-IsImage :
    (pad : ℕ) (t : TradeData)
    → IsImage 2 trade_members (encode_trade pad t) (
        le_bytes 4 t.symbol_id
        ∷ le_bytes 8 t.created_at
        ∷ le_bytes 8 t.trade_id
        ∷ encode_price t.price
        ∷ encode_quantity t.quantity
        ∷ (t.taker_side ∷ [])
        ∷ [])
unfolding encode_trade le_bytes sizeof offsets
encode_trade-IsImage pad t = (refl, refl)

encode_query-IsImage :
    (pad : ℕ) (q : TradeDataQuery)
    → IsImage natural query_members (encode_query pad q) (
        le_bytes 4 q.symbol_id
        ∷ le_bytes 8 q.start_time_point
        ∷ le_bytes 8 q.end_time_point
        ∷ le_bytes 8 q.resolution
        ∷ le_bytes 8 q.metrics
        ∷ [])
unfolding encode_query le_bytes sizeof offsets
encode_query-IsImage pad q = (refl, refl)

encode_result-IsImage :
    (r : Result)
    → IsImage 2 result_members
        (encode_result r)
        (le_bytes 8 r.start_time ∷ encode_price r.lowest_price ∷ encode_price r.highest_price ∷ [])
unfolding encode_result le_bytes sizeof offsets
encode_result-IsImage r = (refl, refl)

-- The bytes of each struct are its image, and it is read back from them.
pub record AreImages (pad : ℕ) (t : TradeData) (q : TradeDataQuery) (r : Result) : Type 0 where
  pub trade_image : IsImage 2 trade_members (encode_trade pad t) (
      le_bytes 4 t.symbol_id
      ∷ le_bytes 8 t.created_at
      ∷ le_bytes 8 t.trade_id
      ∷ encode_price t.price
      ∷ encode_quantity t.quantity
      ∷ (t.taker_side ∷ [])
      ∷ [])
  pub price_image :
      IsImage 1 decimal_members
        (encode_price t.price)
        (le_bytes 4 t.price.price ∷ (t.price.price_exponent ∷ []) ∷ [])
  pub quantity_image :
      IsImage 1 decimal_members
        (encode_quantity t.quantity)
        (le_bytes 4 t.quantity.quantity ∷ (t.quantity.quantity_exponent ∷ []) ∷ [])
  pub query_image : IsImage natural query_members (encode_query pad q) (
      le_bytes 4 q.symbol_id
      ∷ le_bytes 8 q.start_time_point
      ∷ le_bytes 8 q.end_time_point
      ∷ le_bytes 8 q.resolution
      ∷ le_bytes 8 q.metrics
      ∷ [])
  pub result_image :
      IsImage 2 result_members
        (encode_result r)
        (le_bytes 8 r.start_time ∷ encode_price r.lowest_price ∷ encode_price r.highest_price ∷ [])
  pub trade_back : decode_trade (encode_trade pad t) ≡ t
  pub query_back : decode_query (encode_query pad q) ≡ q
  pub result_back : decode_result (encode_result r) ≡ r

-- If the members of a trade, a query and a result fit their types, then the bytes of each, whatever the
-- padding, are as many as the compiler gives to its struct, with `#pragma pack(2)` in force for trades and
-- results and not for queries; at the offsets of the members, which the compiler computes from their
-- sizes and alignments, are the members' bytes, those of the packed prices and quantities included;
-- and what is read back from the bytes is the trade, the query and the result.
pub encode-AreImages :
    (pad : ℕ) (t : TradeData) (q : TradeDataQuery) (r : Result)
    → TradeFits t
    → QueryFits q
    → ResultFits r
    → AreImages pad t q r
encode-AreImages pad t q r trade query result = record {
  trade_image = encode_trade-IsImage pad t;
  price_image = encode_price-IsImage t.price;
  quantity_image = encode_quantity-IsImage t.quantity;
  query_image = encode_query-IsImage pad q;
  result_image = encode_result-IsImage r;
  trade_back = decode_trade-encode_trade pad t trade;
  query_back = (decode_query-encode_query pad q query).0;
  result_back = (decode_result-encode_result r result).0;
}
