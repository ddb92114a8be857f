-- ===== src/Csv/Rows.antt =====
-- A whole CSV file of process_data/process_data_main.cc, and the data file that comes of it.
use group_trade_data_query.Common.{
  ℕ, ◌*◌, ◌<◌, ◌≡◌, refl, sym, ap, ◌∙◌, Bool, true, false, ◌&&◌, not, append-nil, append_assoc,
  some, List, [], ◌∷◌, ◌++◌, map, arith, ◌==◌, All, length, take,
}
use group_trade_data_query.Common.Word.{u64_mod}
use group_trade_data_query.Common.Run.{Run, ok, err, invalid_argument}
use group_trade_data_query.Query.{TradeData}
use group_trade_data_query.Query.Codec.{encode_trade}
use group_trade_data_query.Engine.{open_engine, read_trade_data}
use group_trade_data_query.Engine.Store.{Stored, stored_bytes, StoredFit, row, read-opened}
use group_trade_data_query.Csv.{
  lines, same, parse_line, header_line, is_empty, write_rows, parse_csv, getline,
}
use group_trade_data_query.Csv.Number.{IsNumber, stoul, skip_space}
use group_trade_data_query.Csv.Fields.{
  Without, Without-append, exponent_text, Row, RowFits, line_of, trade_of, number-Without,
  exponent-Without, side-Without, parse_line-trade_of, trade_of-TradeFits,
}

lines-append :
    (line rest : List ℕ) → Without 10 line → lines (line ++ (10 ∷ rest)) ≡ line ∷ lines rest
unfolding lines
lines-append [] rest h = refl
lines-append (c ∷ cs) rest h = rw (h.0, lines-append cs rest h.1) refl

-- A text without an end of line differs from one that ends in it.
same-Without : (pre xs : List ℕ) → Without 10 xs → same xs (pre ++ (10 ∷ [])) ≡ false
unfolding same
same-Without [] [] h = refl
same-Without [] (x ∷ xs) h = rw h.0 refl
same-Without (p ∷ pre) [] h = refl
same-Without (p ∷ pre) (x ∷ xs) h = ground (arith, same-Without pre xs h.1)

abbrev pub header_text : List ℕ
header_text = take 88 header_line

-- The test for the header is false for every line, since it compares with the end of the line too.
same-header : (line : List ℕ) → Without 10 line → same line header_line ≡ false
same-header line h = same-Without header_text line h

-- A column, and the comma after it.
column :
    (token rest : List ℕ) → Without 10 token → Without 10 rest → Without 10 (token ++ (44 ∷ rest))
column token rest p q = Without-append 10 token (44 ∷ rest) p (refl, q)

line_of-Without : (r : Row) → RowFits r → Without 10 (line_of r)
line_of-Without r fits = column r.symbol _ (number-Without 10 r.symbol refl fits.symbol_number) (
    column r.created _ (number-Without 10 r.created refl fits.created_number) (
      column r.id _ (number-Without 10 r.id refl fits.id_number) (
        column r.price _ (number-Without 10 r.price refl fits.price_number) (
          column r.quantity _ (number-Without 10 r.quantity refl fits.quantity_number) (
            column (exponent_text r.price_exponent) _
              (exponent-Without 10 r.price_exponent.minus r.price_exponent.digits refl refl
                fits.price_exponent_fits.number)
              (column (exponent_text r.quantity_exponent) _
                (exponent-Without 10 r.quantity_exponent.minus r.quantity_exponent.digits refl refl
                  fits.quantity_exponent_fits.number)
                (side-Without 10 r.ask (omega arith))))))))

number_not_empty : (token rest : List ℕ) → IsNumber token → is_empty (token ++ rest) ≡ false
number_not_empty [] rest h = absurd h
number_not_empty (c ∷ cs) rest h = refl

-- The rows, each with the end of its line.
abbrev pub rows_text : List Row → List ℕ
rows_text [] = []
rows_text (r ∷ rs) = line_of r ++ (10 ∷ rows_text rs)

abbrev pub stored_of : ℕ → Row → Stored
stored_of pad r = record { trade = trade_of r; pad = pad }

write_row_ok :
    (pad : ℕ) (line : List ℕ) (t : TradeData) (rest : List (List ℕ)) (bytes : List ℕ)
    (end : Run (Unit {0}))
    → is_empty line ≡ false
    → same line header_line ≡ false
    → parse_line line ≡ ok t
    → write_rows pad rest ≡ (bytes, end)
    → write_rows pad (line ∷ rest) ≡ (encode_trade pad t ++ bytes, end)
unfolding write_rows
write_row_ok pad line t rest bytes end p q parsed others = rw (p, q, parsed, others) refl

-- Rows in front of a text that writes nothing.
write_rows-stored :
    (pad : ℕ) (rows : List Row) (rest : List ℕ) (end : Run (Unit {0}))
    → All RowFits rows
    → write_rows pad (lines rest) ≡ ([], end)
    → write_rows pad (lines (rows_text rows ++ rest))
      ≡ (stored_bytes (map (stored_of pad) rows), end)
write_rows-stored pad [] rest end h e = e
write_rows-stored pad (r ∷ rs) rest end h e =
    let plain = line_of-Without r h.0 in
    ap (λ text. write_rows pad (lines text)) (append_assoc (line_of r) (10 ∷ rows_text rs) rest)
    ∙ ap (write_rows pad) (lines-append (line_of r) (rows_text rs ++ rest) plain)
    ∙ write_row_ok pad (line_of r) (trade_of r) (lines (rows_text rs ++ rest)) _ end
        (number_not_empty r.symbol _ h.0.symbol_number) (same-header (line_of r) plain)
        (parse_line-trade_of r h.0) (write_rows-stored pad rs rest end h.1 e)

write_rows-nil : (pad : ℕ) → write_rows pad (lines []) ≡ ([], ok tt)
unfolding write_rows lines
write_rows-nil pad = refl

-- A CSV file with a header of any kind and rows whose values are in range is converted to the bytes of its
-- trades, in order, and the conversion succeeds.
pub parse_csv-stored :
    (pad : ℕ) (header : List ℕ) (rows : List Row)
    → Without 10 header
    → All RowFits rows
    → parse_csv pad (some (header ++ (10 ∷ rows_text rows)))
      ≡ (stored_bytes (map (stored_of pad) rows), ok tt)
unfolding parse_csv
parse_csv-stored pad header rows h fits = rw (lines-append header (rows_text rows) h) (
    ap (λ text. write_rows pad (lines text)) (sym (append-nil (rows_text rows)))
    ∙ write_rows-stored pad rows [] (ok tt) fits (write_rows-nil pad))

stored_of-StoredFit :
    (pad : ℕ) (rows : List Row) → All RowFits rows → StoredFit (map (stored_of pad) rows)
stored_of-StoredFit pad [] h = tt
stored_of-StoredFit pad (r ∷ rs) h = (trade_of-TradeFits r h.0, stored_of-StoredFit pad rs h.1)

-- From the file that is converted from a header and rows whose values are in range, of fewer than
-- 2 ^ 64 bytes, the query engine reads at every index the trade of that row.
pub read_trade_data-parse_csv :
    (pad : ℕ) (header : List ℕ) (rows : List Row) (i : ℕ)
    → Without 10 header
    → All RowFits rows
    → length (map (stored_of pad) rows) * 32 < u64_mod
    → i < length (map (stored_of pad) rows)
    → read_trade_data
        (open_engine 0 (some (parse_csv pad (some (header ++ (10 ∷ rows_text rows)))).0))
        i
      ≡ ok (row (map (stored_of pad) rows) i)
read_trade_data-parse_csv pad header rows i h fits small b =
    ap (λ p. read_trade_data (open_engine 0 (some p.0)) i) (parse_csv-stored pad header rows h fits)
    ∙ read-opened (map (stored_of pad) rows) i (stored_of-StoredFit pad rows fits) small b

header_no_number : parse_line header_text ≡ err invalid_argument
unfolding parse_line getline stoul skip_space
header_no_number = refl

write_row_fails :
    (pad : ℕ) (line : List ℕ) (rest : List (List ℕ))
    → is_empty line ≡ false
    → same line header_line ≡ false
    → parse_line line ≡ err invalid_argument
    → write_rows pad (line ∷ rest) ≡ ([], err invalid_argument)
unfolding write_rows
write_row_fails pad line rest p q failed = rw (p, q, failed) refl

abbrev is_without : ℕ → List ℕ → Bool
is_without c [] = true
is_without c (x ∷ xs) = not (x == c) && is_without c xs

Without-is_without : (c : ℕ) (xs : List ℕ) → is_without c xs ≡ true → Without c xs
Without-is_without c [] h = tt
Without-is_without c (x ∷ xs) h = (ground arith, Without-is_without c xs (ground arith))

header_text-Without : Without 10 header_text
header_text-Without = Without-is_without 10 header_text refl

-- After rows whose values are in range, a header that stands again is not skipped, though the loop
-- tests for it: the test compares with the end of the line too. The conversion ends there with an
-- exception, with the rows before it written and none after it.
pub write_rows_header_again :
    (pad : ℕ) (rows : List Row) (rest : List ℕ)
    → All RowFits rows
    → write_rows pad (lines (rows_text rows ++ (header_text ++ (10 ∷ rest))))
      ≡ (stored_bytes (map (stored_of pad) rows), err invalid_argument)
write_rows_header_again pad rows rest h =
    write_rows-stored pad rows (header_text ++ (10 ∷ rest)) (err invalid_argument) h (
      ap (write_rows pad) (lines-append header_text rest header_text-Without)
      ∙ write_row_fails pad header_text (lines rest) refl
          (same-header header_text header_text-Without) header_no_number)
