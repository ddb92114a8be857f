-- ===== src/Query/Codec/Bounds.antt =====
-- What is decoded from bytes is in the range of its type: src/utils/query.h.
use Prim.Native.Nat.pow
use group_trade_data_query.Common.{
  ℕ, zero, suc, ◌/◌, ◌^◌, ◌<◌, List, [], ◌∷◌, ◌++◌, arith, take, drop, All,
}
use group_trade_data_query.Common.Word.{of_le, le_bytes}
use group_trade_data_query.Query.{Price, Quantity, TradeData, TradeFits, QueryFits}
use group_trade_data_query.Query.Codec.{
  field_at, encode_trade, encode_price, encode_quantity, decode_trade, decode_query,
}

abbrev pub AreBytes : List ℕ → Type 0
AreBytes = All (λ b. b < 256)

of_le-take : (n : ℕ) (bs : List ℕ) → AreBytes bs → of_le (take n bs) < 256 ^ n
unfolding of_le
of_le-take zero bs h = omega arith
of_le-take (suc n) [] h = omega (arith, pow.suc 256 n, of_le-take n [] tt)
of_le-take (suc n) (b ∷ bs) h = omega (arith, pow.suc 256 n, of_le-take n bs h.1, h.0)

pub drop-AreBytes : (n : ℕ) (bs : List ℕ) → AreBytes bs → AreBytes (drop n bs)
drop-AreBytes zero bs h = h
drop-AreBytes (suc n) [] h = tt
drop-AreBytes (suc n) (b ∷ bs) h = drop-AreBytes n bs h.1

pub take-AreBytes : (n : ℕ) (bs : List ℕ) → AreBytes bs → AreBytes (take n bs)
take-AreBytes zero bs h = tt
take-AreBytes (suc n) [] h = tt
take-AreBytes (suc n) (b ∷ bs) h = (h.0, take-AreBytes n bs h.1)

pub append-AreBytes : (bs cs : List ℕ) → AreBytes bs → AreBytes cs → AreBytes (bs ++ cs)
append-AreBytes [] cs h g = g
append-AreBytes (b ∷ bs) cs h g = (h.0, append-AreBytes bs cs h.1 g)

pub le_bytes-AreBytes : (k v : ℕ) → AreBytes (le_bytes k v)
unfolding le_bytes
le_bytes-AreBytes zero v = tt
le_bytes-AreBytes (suc k) v = (omega arith, le_bytes-AreBytes k (v / 256))

field_lt : (offset n : ℕ) (bs : List ℕ) → AreBytes bs → field_at offset n bs < 256 ^ n
unfolding field_at
field_lt offset n bs h = of_le-take n (drop offset bs) (drop-AreBytes offset bs h)

-- The members of a trade that is decoded from bytes are in range.
pub decode_trade-TradeFits : (bs : List ℕ) → AreBytes bs → TradeFits (decode_trade bs)
unfolding decode_trade
decode_trade-TradeFits bs h = record {
  symbol_lt = omega (arith, field_lt 0 4 bs h);
  created_lt = omega (arith, field_lt 4 8 bs h);
  id_lt = omega (arith, field_lt 12 8 bs h);
  price_fits = record {
    price_lt = omega (arith, field_lt 20 4 bs h);
    exponent_lt = omega (arith, field_lt 24 1 bs h);
  };
  quantity_fits = record {
    quantity_lt = omega (arith, field_lt 25 4 bs h);
    exponent_lt = omega (arith, field_lt 29 1 bs h);
  };
  side_lt = omega (arith, field_lt 30 1 bs h);
}

-- So are those of a query.
pub decode_query-QueryFits : (bs : List ℕ) → AreBytes bs → QueryFits (decode_query bs)
unfolding decode_query
decode_query-QueryFits bs h = record {
  symbol_lt = omega (arith, field_lt 0 4 bs h);
  start_lt = omega (arith, field_lt 8 8 bs h);
  end_lt = omega (arith, field_lt 16 8 bs h);
  resolution_lt = omega (arith, field_lt 24 8 bs h);
  metrics_lt = omega (arith, field_lt 32 8 bs h);
}

-- What is encoded are bytes.
pub encode_price-AreBytes : (p : Price) → p.price_exponent < 256 → AreBytes (encode_price p)
unfolding encode_price
encode_price-AreBytes p h =
    append-AreBytes (le_bytes 4 p.price) _ (le_bytes-AreBytes 4 p.price) (h, tt)

pub encode_quantity-AreBytes :
    (q : Quantity) → q.quantity_exponent < 256 → AreBytes (encode_quantity q)
unfolding encode_quantity
encode_quantity-AreBytes q h =
    append-AreBytes (le_bytes 4 q.quantity) _ (le_bytes-AreBytes 4 q.quantity) (h, tt)

pub encode_trade-AreBytes :
    (pad : ℕ) (t : TradeData) → pad < 256 → TradeFits t → AreBytes (encode_trade pad t)
unfolding encode_trade
encode_trade-AreBytes pad t small fits =
    append-AreBytes (le_bytes 4 t.symbol_id) _ (le_bytes-AreBytes 4 t.symbol_id) (
      append-AreBytes (le_bytes 8 t.created_at) _ (le_bytes-AreBytes 8 t.created_at) (
        append-AreBytes (le_bytes 8 t.trade_id) _ (le_bytes-AreBytes 8 t.trade_id) (
          append-AreBytes (encode_price t.price) _
            (encode_price-AreBytes t.price fits.price_fits.exponent_lt)
            (append-AreBytes (encode_quantity t.quantity) _
              (encode_quantity-AreBytes t.quantity fits.quantity_fits.exponent_lt)
              (fits.side_lt, (small, tt))))))
