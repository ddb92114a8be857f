-- ===== src/Examples/Csv.antt =====
-- The theorems on process_data/process_data_main.cc at a file of two rows.
use group_trade_data_query.Common.{
  ◌≡◌, refl, true, false, some, List, [], ◌∷◌, ◌++◌, map, All, arith,
}
use group_trade_data_query.Common.Run.{ok, err, invalid_argument}
use group_trade_data_query.Engine.{open_engine, read_trade_data}
use group_trade_data_query.Engine.Store.{stored_bytes, row}
use group_trade_data_query.Csv.{lines, write_rows, parse_csv}
use group_trade_data_query.Csv.Fields.{Row, RowFits}
use group_trade_data_query.Csv.Rows.{
  header_text, rows_text, stored_of, parse_csv-stored, read_trade_data-parse_csv,
  write_rows_header_again,
}

-- 7,1500,42,15025,3,-2,0,Ask
abbrev ask_row : Row
ask_row = record {
  symbol = 55 ∷ [];
  created = 49 ∷ 53 ∷ 48 ∷ 48 ∷ [];
  id = 52 ∷ 50 ∷ [];
  price = 49 ∷ 53 ∷ 48 ∷ 50 ∷ 53 ∷ [];
  quantity = 51 ∷ [];
  price_exponent = record { minus = true; digits = 50 ∷ [] };
  quantity_exponent = record { minus = false; digits = 48 ∷ [] };
  ask = true;
}

ask_row-RowFits : RowFits ask_row
ask_row-RowFits = record {
  symbol_number = (refl, tt);
  created_number = (refl, (refl, (refl, (refl, tt))));
  id_number = (refl, (refl, tt));
  price_number = (refl, (refl, (refl, (refl, (refl, tt)))));
  quantity_number = (refl, tt);
  symbol_lt = omega arith;
  created_lt = omega arith;
  id_lt = omega arith;
  price_lt = omega arith;
  quantity_lt = omega arith;
  price_exponent_fits = record { number = (refl, tt); range = omega arith };
  quantity_exponent_fits = record { number = (refl, tt); range = omega arith };
}

abbrev two_rows : List Row
two_rows = ask_row ∷ ask_row ∷ []

two_rows-RowFits : All RowFits two_rows
two_rows-RowFits = (ask_row-RowFits, (ask_row-RowFits, tt))

parse_csv-stored_example :
    parse_csv 0 (some ((104 ∷ []) ++ (10 ∷ rows_text two_rows)))
    ≡ (stored_bytes (map (stored_of 0) two_rows), ok tt)
parse_csv-stored_example = parse_csv-stored 0 (104 ∷ []) two_rows (refl, tt) two_rows-RowFits

read_trade_data-parse_csv_example :
    read_trade_data
      (open_engine 0 (some (parse_csv 0 (some ((104 ∷ []) ++ (10 ∷ rows_text two_rows)))).0))
      1
    ≡ ok (row (map (stored_of 0) two_rows) 1)
read_trade_data-parse_csv_example =
    read_trade_data-parse_csv 0 (104 ∷ []) two_rows 1 (refl, tt) two_rows-RowFits (omega arith)
      (omega arith)

write_rows_header_again_example :
    write_rows 0 (lines (rows_text two_rows ++ (header_text ++ (10 ∷ rows_text two_rows))))
    ≡ (stored_bytes (map (stored_of 0) two_rows), err invalid_argument)
write_rows_header_again_example =
    write_rows_header_again 0 two_rows (rows_text two_rows) two_rows-RowFits
