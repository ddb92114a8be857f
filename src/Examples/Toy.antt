-- ===== src/Examples/Toy.antt =====
-- Numbers that stand in for doubles: natural numbers that do not grow past a cap; and a small data file.
use group_trade_data_query.Common.{
  ℕ, zero, suc, ◌+◌, ◌*◌, ◌/◌, ◌^◌, ◌≤◌, ◌<◌, ◌≡◌, refl, true, false, List, [], ◌∷◌, min, foldl,
  arith, ltb, leb, if◌then◌else◌,
}
use group_trade_data_query.Common.Int.{ℤ, pos, negsuc}
use group_trade_data_query.Query.{TradeData, TradeFits}
use group_trade_data_query.Engine.Double.{Double, IsOrdered, IsScalable}
use group_trade_data_query.Engine.Metrics.{price_val, qty_val}
use group_trade_data_query.Engine.Search.{Holds, IsSorted}
use group_trade_data_query.Engine.Store.{Stored, StoredFit, opened, row, opened-Holds}
use group_trade_data_query.Server.Worker.AnyFile.{PadsFit}
use group_trade_data_query.Engine.Totals.{sum_qty, sum_price_qty, SumsFinite}

abbrev pub cap : ℕ
cap = 10_000_000_000

abbrev pub toy_pow10 : ℤ → ℕ
toy_pow10 (pos k) = 10 ^ k
toy_pow10 (negsuc k) = 1

abbrev pub toy : Double ℕ
toy = record {
  nought = 0;
  of_u32 = λ n. n;
  of_u64 = λ n. n;
  pow10 = toy_pow10;
  mul = λ x y. min cap (x * y);
  add = λ x y. min cap (x + y);
  div = λ x y. x / y;
  lt = ltb;
  round_u32 = λ x. x;
}

pub toy-IsOrdered : IsOrdered toy
toy-IsOrdered = record {
  is_nan = λ x. false;
  decimal_num = λ m e. refl;
  lt_asym = λ x y p q h. ground arith;
  not-lt_trans = λ x y z p q r f g. ground arith;
}

abbrev pub toy_steps : ℕ
toy_steps = 10_000_000_001

abbrev pub toy_scalable : IsScalable toy toy_steps
toy_scalable = record {
  is_amount = λ x. leb x cap;
  measure = λ x. x;
  nought_amount = refl;
  mul_amount = λ x h l. ground arith;
  div_amount = λ x h. ground arith;
  measure_lt = λ x h. ground arith;
  measure-div = λ x h l. ground arith;
  round_lt = λ x h l. ground arith;
}

qty_total_le :
    (ts : List TradeData) (x : ℕ)
    → x ≤ cap
    → foldl (λ sum trade. min cap (sum + qty_val toy trade)) x ts ≤ cap
qty_total_le [] x h = h
qty_total_le (t ∷ ts) x h = qty_total_le ts (min cap (x + qty_val toy t)) (ground arith)

price_qty_total_le :
    (ts : List TradeData) (x : ℕ)
    → x ≤ cap
    → foldl (λ sum trade. min cap (sum + min cap (price_val toy trade * qty_val toy trade))) x ts
      ≤ cap
price_qty_total_le [] x h = h
price_qty_total_le (t ∷ ts) x h =
    price_qty_total_le ts (min cap (x + min cap (price_val toy t * qty_val toy t))) (ground arith)

le_leb : (x : ℕ) → x ≤ cap → leb x cap ≡ true
le_leb x h = ground arith

mean_le : (p q : ℕ) → p ≤ cap → leb (if ltb 0 q then p / q else 0) cap ≡ true
mean_le p q h = ground arith

pub toy-SumsFinite : SumsFinite toy toy_scalable
toy-SumsFinite = record {
  sum_amount = λ ts h. le_leb _ (qty_total_le ts 0 (omega arith));
  mean_amount = λ ts h.
      mean_le (sum_price_qty toy ts) (sum_qty toy ts) (price_qty_total_le ts 0 (omega arith));
}

abbrev trade_at : ℕ → ℕ → ℕ → TradeData
trade_at time price quantity = record {
  symbol_id = 1;
  created_at = time;
  trade_id = time + 1000;
  price = record { price = price; price_exponent = 0 };
  quantity = record { quantity = quantity; quantity_exponent = 0 };
  taker_side = 1;
}

abbrev pub three_trades : List Stored
three_trades =
    record { trade = trade_at 10 7 2; pad = 0 }
    ∷ record { trade = trade_at 20 5 4; pad = 0 }
    ∷ record { trade = trade_at 30 9 6; pad = 0 }
    ∷ []

trade_at-TradeFits :
    (time price quantity : ℕ)
    → time < 1000
    → price < 1000
    → quantity < 1000
    → TradeFits (trade_at time price quantity)
trade_at-TradeFits time price quantity a b c = record {
  symbol_lt = omega arith;
  created_lt = omega arith;
  id_lt = omega arith;
  price_fits = record { price_lt = omega arith; exponent_lt = omega arith };
  quantity_fits = record { quantity_lt = omega arith; exponent_lt = omega arith };
  side_lt = omega arith;
}

pub three_trades-StoredFit : StoredFit three_trades
three_trades-StoredFit = (
  trade_at-TradeFits 10 7 2 (omega arith) (omega arith) (omega arith),
  (
    trade_at-TradeFits 20 5 4 (omega arith) (omega arith) (omega arith),
    (trade_at-TradeFits 30 9 6 (omega arith) (omega arith) (omega arith), tt),
  ),
)

pub three_trades-Holds : Holds (opened three_trades) (row three_trades) 3
three_trades-Holds = opened-Holds three_trades three_trades-StoredFit (omega arith)

pub three_trades-IsSorted : IsSorted (row three_trades) 3
three_trades-IsSorted zero zero h b = omega arith
three_trades-IsSorted zero (suc zero) h b = omega arith
three_trades-IsSorted zero (suc (suc zero)) h b = omega arith
three_trades-IsSorted (suc zero) (suc zero) h b = omega arith
three_trades-IsSorted (suc zero) (suc (suc zero)) h b = omega arith
three_trades-IsSorted (suc (suc zero)) (suc (suc zero)) h b = omega arith
three_trades-IsSorted (suc (suc (suc i))) j h b = absurd (omega arith)
three_trades-IsSorted (suc zero) zero h b = absurd (omega arith)
three_trades-IsSorted (suc (suc zero)) zero h b = absurd (omega arith)
three_trades-IsSorted (suc (suc zero)) (suc zero) h b = absurd (omega arith)
three_trades-IsSorted zero (suc (suc (suc j))) h b = absurd (omega arith)
three_trades-IsSorted (suc zero) (suc (suc (suc j))) h b = absurd (omega arith)
three_trades-IsSorted (suc (suc zero)) (suc (suc (suc j))) h b = absurd (omega arith)

-- The same trade, over and over.
abbrev pub copies : ℕ → List Stored
copies zero = []
copies (suc n) = record { trade = row three_trades 0; pad = 0 } ∷ copies n

pub copies-StoredFit : (n : ℕ) → StoredFit (copies n)
copies-StoredFit zero = tt
copies-StoredFit (suc n) = (three_trades-StoredFit.0, copies-StoredFit n)

copies_created_at : (n i : ℕ) → i < n → (row (copies n) i).created_at ≡ 10
copies_created_at zero i h = absurd (omega arith)
copies_created_at (suc n) zero h = refl
copies_created_at (suc n) (suc i) h = copies_created_at n i (omega arith)

pub copies-IsSorted : (n : ℕ) → IsSorted (row (copies n)) n
copies-IsSorted n i j h b =
    omega (arith, copies_created_at n i (omega arith), copies_created_at n j b)

pub copies-PadsFit : (n : ℕ) → PadsFit (copies n)
copies-PadsFit zero = tt
copies-PadsFit (suc n) = (omega arith, copies-PadsFit n)

pub three_trades-PadsFit : PadsFit three_trades
three_trades-PadsFit = (omega arith, (omega arith, (omega arith, tt)))
