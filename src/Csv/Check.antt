-- ===== src/Csv/Check.antt =====
-- process_data/check.cc, which prints the first trade of a data file.
use group_trade_data_query.Common.{
  ℕ, ◌≡◌, ap, ◌∙◌, Option, none, some, List, [], ◌∷◌, ◌++◌, take, drop, length, append-nil, arith,
  take-append, drop_all,
}
use group_trade_data_query.Common.Int.{signed8}
use group_trade_data_query.Query.{TradeData}
use group_trade_data_query.Query.Codec.{encode_trade, decode_trade, sizeof_trade}
use group_trade_data_query.Query.Codec.RoundTrip.{decode_trade-encode_trade, length-encode_trade}
use group_trade_data_query.Engine.Store.{Stored, StoredFit, stored_bytes}
use group_trade_data_query.Sockets.{codes}
use group_trade_data_query.Client.Text.{show_nat, show_int}

-- The lines that are printed of a trade.
unfoldable pub check_lines : TradeData → List (List ℕ)
check_lines trade =
    codes "Trade Data:"
    ∷ (codes "Symbol ID: " ++ show_nat trade.symbol_id)
    ∷ (codes "Created At: " ++ show_nat trade.created_at)
    ∷ (codes "Trade ID: " ++ show_nat trade.trade_id)
    ∷ (codes "Price: "
        ++ (show_nat trade.price.price
            ++ (codes " * 10^" ++ show_int (signed8 trade.price.price_exponent))))
    ∷ (codes "Quantity: "
        ++ (show_nat trade.quantity.quantity
            ++ (codes " * 10^" ++ show_int (signed8 trade.quantity.quantity_exponent))))
    ∷ (codes "Taker Side: " ++ show_nat trade.taker_side)
    ∷ []

-- `main`: the exit status and the lines on the standard output. `memory` is what `trade` holds before: a short read
-- fills only its first bytes.
unfoldable pub check_main : List ℕ → Option (List ℕ) → ℕ × List (List ℕ)
unfolding check_lines
check_main memory none = (1, [])
check_main memory (some file) =
    let block = take sizeof_trade file in
    (
      0,
      (codes "Current position: " ++ show_nat 0)
          ∷ show_nat 0
          ∷ check_lines (decode_trade (block ++ drop (length block) memory)),
    )

first_block :
    (s : Stored) (ss : List Stored)
    → take sizeof_trade (stored_bytes (s ∷ ss)) ≡ encode_trade s.pad s.trade
first_block s ss =
    take-append sizeof_trade (encode_trade s.pad s.trade) (stored_bytes ss)
      (length-encode_trade s.pad s.trade)

filled :
    (memory block : List ℕ)
    → length memory ≡ length block
    → block ++ drop (length block) memory ≡ block
filled memory block e =
    ap (◌++◌ block) (drop_all (length block) memory (omega (arith, e))) ∙ append-nil block

-- Of a file of trades, of which the first is in range, the program prints the first trade, and ends with
-- status 0.
pub check_main-stored :
    (memory : List ℕ) (s : Stored) (ss : List Stored)
    → length memory ≡ sizeof_trade
    → StoredFit (s ∷ ss)
    → check_main memory (some (stored_bytes (s ∷ ss)))
      ≡ (0, (codes "Current position: " ++ show_nat 0) ∷ show_nat 0 ∷ check_lines s.trade)
unfolding check_main
check_main-stored memory s ss whole fits =
    let block = encode_trade s.pad s.trade in
    ap (λ trade. (0, (codes "Current position: " ++ show_nat 0) ∷ show_nat 0 ∷ check_lines trade))
      (ap (λ b. decode_trade (b ++ drop (length b) memory)) (first_block s ss)
        ∙ ap decode_trade
            (filled memory block (omega (arith, whole, length-encode_trade s.pad s.trade)))
        ∙ decode_trade-encode_trade s.pad s.trade fits.0)
