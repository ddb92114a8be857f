-- ===== src/Examples/Client.antt =====
-- The theorems on src/client/client.cc and src/client_main.cc at small answers.
use group_trade_data_query.Common.{ℕ, true, List, ◌++◌, ◌≢◌, ◌<◌, ◌≡◌, refl, [], ◌∷◌, map, arith}
use group_trade_data_query.Common.Word.{bit_set}
use group_trade_data_query.Common.Run.{ok}
use group_trade_data_query.Query.{Price, PriceFits}
use group_trade_data_query.Server.{count_header}
use group_trade_data_query.Client.Receive.{Socket, read_struct}
use group_trade_data_query.Client.Framing.{singles, read_struct-answer}
use group_trade_data_query.Client.Display.{display}
use group_trade_data_query.Client.Decimals.{numbered}
use group_trade_data_query.Client.Skipped.{
  TwoExtremes, TwoExtremesFit, extremes_bytes, first_line, display_skips_intervals,
}

abbrev four_bytes : List ℕ
four_bytes = 1 ∷ 2 ∷ 3 ∷ 4 ∷ []

cons-ne-nil : (x : ℕ) (xs : List ℕ) → (x ∷ xs) ≢ []
cons-ne-nil x xs e = cc

read_struct-answer_example :
    (s : Socket) × (read_struct (9 ∷ 9 ∷ 9 ∷ 9 ∷ []) 1 (record {
      segments = (count_header four_bytes ++ (1 ∷ [])) ∷ (2 ∷ 3 ∷ 4 ∷ 7 ∷ []) ∷ [];
      shut = true;
    })
      ≡ ok (singles four_bytes, s))
read_struct-answer_example =
    read_struct-answer (9 ∷ 9 ∷ 9 ∷ 9 ∷ []) four_bytes (1 ∷ []) (7 ∷ []) ((2 ∷ 3 ∷ 4 ∷ 7 ∷ []) ∷ [])
      refl (omega arith) (cons-ne-nil 2 (3 ∷ 4 ∷ 7 ∷ []), tt) refl

abbrev price_of : ℕ → Price
price_of n = record { price = n; price_exponent = 254 }

price_of-PriceFits : (n : ℕ) → n < 1000 → PriceFits (price_of n)
price_of-PriceFits n h = record { price_lt = omega arith; exponent_lt = omega arith }

abbrev two_extremes : TwoExtremes
two_extremes = record {
  lo = price_of 1;
  hi = price_of 2;
  next_lo = price_of 3;
  next_hi = price_of 4;
}

two_extremes-TwoExtremesFit : TwoExtremesFit two_extremes
two_extremes-TwoExtremesFit = record {
  lo_fits = price_of-PriceFits 1 (omega arith);
  hi_fits = price_of-PriceFits 2 (omega arith);
}

display_skips_intervals_example :
    display 1 (extremes_bytes (two_extremes ∷ []))
    ≡ ok (numbered 0 (map first_line (two_extremes ∷ [])))
unfolding bit_set
display_skips_intervals_example =
    display_skips_intervals 1 (two_extremes ∷ []) refl refl refl (two_extremes-TwoExtremesFit, tt)
      (λ e. cc)
