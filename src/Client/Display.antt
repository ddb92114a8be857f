-- ===== src/Client/Display.antt =====
-- The body of the main loop of src/client_main.cc, from the bytes of an answer to the lines that are printed. A line
-- is the values that are written to the stream; Client/Text has the characters.
use group_trade_data_query.Common.{
  ℕ, zero, suc, ◌+◌, ◌-◌, ◌*◌, ◌/◌, true, false, List, [], ◌∷◌, ◌++◌, ◌==◌, if◌then◌else◌, length,
  take, drop,
}
use group_trade_data_query.Common.Int.{ℤ, signed8}
use group_trade_data_query.Common.Word.{of_le, bit_set}
use group_trade_data_query.Common.Run.{Run, ok, err, out_of_bounds, ◌>>=◌}
use group_trade_data_query.Server.Worker.{metric_list}

pub data Line : Type 0 where
  blank : Line
  set_number : ℕ → Line
  extremes : ℕ → ℤ → ℕ → ℤ → Line
  mean_price : ℕ → ℤ → Line
  total_quantity : ℕ → ℤ → Line
  not_implemented : ℕ → Line
  set_end : Line

abbrev pub set_size : ℕ
set_size = 20

-- *reinterpret_cast<const uint32_t*>(&output[position]) and output[position + 4].
unfoldable pub decimal_at : List ℕ → ℕ → Run (ℕ × ℤ)
decimal_at output position =
    let block = take 5 (drop position output) in
    if length block == 5
    then ok (of_le (take 4 block), signed8 (of_le (drop 4 block)))
    else err out_of_bounds

-- `switch (i)`: the line, and the new index.
unfoldable pub show_metric : List ℕ → ℕ → ℕ → ℕ → Run (Line × ℕ)
show_metric output base zero index = do
  (min_price, min_exp) ← decimal_at output (base + index)
  (max_price, max_exp) ← decimal_at output (base + (index + 5))
  ok (extremes min_price min_exp max_price max_exp, index + 5 + 5)
show_metric output base (suc zero) index = do
  (price, exp) ← decimal_at output (base + index)
  ok (mean_price price exp, index + 5)
show_metric output base (suc (suc zero)) index = do
  (quantity, exp) ← decimal_at output (base + index)
  ok (total_quantity quantity exp, index + 5)
show_metric output base (suc (suc (suc i))) index = ok (not_implemented (i + 4), index)

-- for (int i = …; i < 8; i++), with the rounds left.
unfoldable pub show_metrics : List ℕ → ℕ → ℕ → ℕ → ℕ → ℕ → Run (List Line)
show_metrics output base zero i chooser index = ok []
show_metrics output base (suc left) i chooser index = elim (bit_set chooser i) [
  | false ↦ show_metrics output base left (i + 1) chooser index
  | true ↦ do
    (line, index') ← show_metric output base i index
    lines ← show_metrics output base left (i + 1) chooser index'
    ok (line ∷ lines)
]

-- The loop over the sets, with the sets left.
unfoldable pub show_sets : List ℕ → ℕ → ℕ → ℕ → Run (List Line)
show_sets output chooser zero set = ok []
show_sets output chooser (suc left) set = do
  lines ← show_metrics output (set * set_size) 8 0 chooser 0
  rest ← show_sets output chooser left (set + 1)
  ok (set_number (set + 1) ∷ (lines ++ (set_end ∷ rest)))

unfoldable pub display : ℕ → List ℕ → Run (List Line)
display metrics [] = ok (blank ∷ [])
display metrics (b ∷ bs) =
    let output = b ∷ bs in
    show_sets output (metric_list metrics) ((length output + set_size - 1) / set_size) 0
