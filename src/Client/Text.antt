-- ===== src/Client/Text.antt =====
-- The characters that src/client_main.cc writes.
pub mod Digits
use group_trade_data_query.Common.{
  ℕ, zero, suc, ◌+◌, ◌/◌, ◌%◌, true, false, List, [], ◌∷◌, ◌++◌, ltb,
}
use group_trade_data_query.Common.Int.{ℤ, pos, negsuc}
use group_trade_data_query.Sockets.{codes}
use group_trade_data_query.Client.Display.{
  Line, blank, set_number, extremes, mean_price, total_quantity, not_implemented, set_end,
}

-- The decimal digits of a number, in front of others; the fuel is for the digits.
unfoldable pub digits_from : ℕ → ℕ → List ℕ → List ℕ
digits_from zero n behind = behind
digits_from (suc fuel) n behind = elim (ltb n 10) [
  | true ↦ (48 + n) ∷ behind
  | false ↦ digits_from fuel (n / 10) ((48 + n % 10) ∷ behind)
]

-- oss << n. A number has fewer digits than it counts, so its successor is enough fuel.
abbrev pub show_nat : ℕ → List ℕ
show_nat n = digits_from (suc n) n []

abbrev pub show_int : ℤ → List ℕ
show_int (pos n) = show_nat n
show_int (negsuc n) = 45 ∷ show_nat (suc n)

abbrev show_decimal : ℕ → ℤ → List ℕ
show_decimal m exp = show_nat m ++ (codes "e" ++ show_int exp)

unfoldable pub line_text : Line → List ℕ
unfolding digits_from
line_text blank = codes "\n"
line_text (set_number n) = codes "\nSet " ++ (show_nat n ++ codes ":")
line_text (extremes min_price min_exp max_price max_exp) =
    codes "\n  Min Price: "
    ++ (show_decimal min_price min_exp ++ (codes ", Max Price: " ++ show_decimal max_price max_exp))
line_text (mean_price price exp) = codes "\n  Mean Price: " ++ show_decimal price exp
line_text (total_quantity quantity exp) = codes "\n  Total Quantity: " ++ show_decimal quantity exp
line_text (not_implemented i) = codes "\n  Metric " ++ (show_nat i ++ codes ": Not implemented")
line_text set_end = codes "\n"

-- std::cout << oss.str()
unfoldable pub output_text : List Line → List ℕ
unfolding line_text
output_text [] = []
output_text (line ∷ lines) = line_text line ++ output_text lines
