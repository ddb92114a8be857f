-- ===== src/Csv.antt =====
-- process_data/process_data_main.cc: from the text of a CSV file to the data file. A character is its code.
pub mod Number
pub mod Fields
pub mod Rows
pub mod Output
pub mod Check
use group_trade_data_query.Common.{
  ℕ, zero, suc, ◌+◌, ◌-◌, ◌%◌, Bool, true, false, ◌||◌, ◌&&◌, Option, none, some, List, [], ◌∷◌,
  ◌++◌, ◌==◌, if◌then◌else◌,
}
use group_trade_data_query.Common.Run.{Run, ok, err, timeout, ◌>>=◌}
use group_trade_data_query.Query.{TradeData}
use group_trade_data_query.Query.Codec.{encode_trade}
use group_trade_data_query.Csv.Number.{stoul, stoi}

-- The text up to a character, and what follows it, if it is there.
unfoldable pub cut : ℕ → List ℕ → List ℕ × Option (List ℕ)
cut delim [] = ([], none)
cut delim (c ∷ cs) =
    let rest = cut delim cs in if c == delim then ([], some cs) else (c ∷ rest.0, rest.1)

-- std::getline(ss, token, delim). A stream that has met its end is `none`: it fails, and keeps the token.
unfoldable pub getline : ℕ → Option (List ℕ) → List ℕ → List ℕ × Option (List ℕ)
unfolding cut
getline delim none token = (token, none)
getline delim (some cs) token = cut delim cs

abbrev extend : ℕ → List (List ℕ) → List (List ℕ)
extend c [] = (c ∷ []) ∷ []
extend c (line ∷ lines) = (c ∷ line) ∷ lines

-- The lines that `while (std::getline(file, line))` sees.
unfoldable pub lines : List ℕ → List (List ℕ)
lines [] = []
lines (c ∷ cs) = if c == 10 then [] ∷ lines cs else extend c (lines cs)

-- The equality of strings.
unfoldable pub same : List ℕ → List ℕ → Bool
same [] [] = true
same [] (d ∷ ds) = false
same (c ∷ cs) [] = false
same (c ∷ cs) (d ∷ ds) = (c == d) && same cs ds

-- "Ask", "ask" or "1"; "Bid", "bid" or "2"; or a number.
unfoldable pub taker_side_of : List ℕ → Run ℕ
unfolding same
taker_side_of token =
    if same token (65 ∷ 115 ∷ 107 ∷ []) || same token (97 ∷ 115 ∷ 107 ∷ []) || same token (49 ∷ [])
    then ok 1
    else if same token (66 ∷ 105 ∷ 100 ∷ [])
        || same token (98 ∷ 105 ∷ 100 ∷ [])
        || same token (50 ∷ [])
    then ok 2
    else stoul token >>= λ n. ok (n % 256)

-- The body of the loop, up to the write. 44 is the comma.
unfoldable pub parse_line : List ℕ → Run TradeData
parse_line line = do
  let (t₁, s₁) = getline 44 (some line) []
  symbol_id ← stoul (cut 44 line).0
  let (t₂, s₂) = getline 44 s₁ t₁
  created_at ← stoul t₂
  let (t₃, s₃) = getline 44 s₂ t₂
  trade_id ← stoul t₃
  let (t₄, s₄) = getline 44 s₃ t₃
  price_raw ← stoul t₄
  let (t₅, s₅) = getline 44 s₄ t₄
  quantity_raw ← stoul t₅
  let (t₆, s₆) = getline 44 s₅ t₅
  price_exponent ← stoi t₆
  let (t₇, s₇) = getline 44 s₆ t₆
  quantity_exponent ← stoi t₇
  let (t₈, s₈) = getline 44 s₇ t₇
  taker_side ← taker_side_of t₈
  ok (record {
    symbol_id = symbol_id % 0x1_0000_0000;
    created_at = created_at;
    trade_id = trade_id;
    price = record { price = price_raw % 0x1_0000_0000; price_exponent = price_exponent % 256 };
    quantity = record {
      quantity = quantity_raw % 0x1_0000_0000;
      quantity_exponent = quantity_exponent % 256;
    };
    taker_side = taker_side;
  })

-- The header with the end of its line.
abbrev pub header_line : List ℕ
header_line =
    115 ∷ 121 ∷ 109 ∷ 98 ∷ 111 ∷ 108 ∷ 95 ∷ 105 ∷ 100 ∷ 44 ∷ 99 ∷ 114 ∷ 101 ∷ 97 ∷ 116 ∷ 101 ∷ 100
    ∷ 95 ∷ 97 ∷ 116 ∷ 44 ∷ 116 ∷ 114 ∷ 97 ∷ 100 ∷ 101 ∷ 95 ∷ 105 ∷ 100 ∷ 44 ∷ 112 ∷ 114 ∷ 105 ∷ 99
    ∷ 101 ∷ 44 ∷ 113 ∷ 117 ∷ 97 ∷ 110 ∷ 116 ∷ 105 ∷ 116 ∷ 121 ∷ 44 ∷ 112 ∷ 114 ∷ 105 ∷ 99 ∷ 101 ∷ 95
    ∷ 101 ∷ 120 ∷ 112 ∷ 111 ∷ 110 ∷ 101 ∷ 110 ∷ 116 ∷ 44 ∷ 113 ∷ 117 ∷ 97 ∷ 110 ∷ 116 ∷ 105 ∷ 116
    ∷ 121 ∷ 95 ∷ 101 ∷ 120 ∷ 112 ∷ 111 ∷ 110 ∷ 101 ∷ 110 ∷ 116 ∷ 44 ∷ 116 ∷ 97 ∷ 107 ∷ 101 ∷ 114
    ∷ 95 ∷ 115 ∷ 105 ∷ 100 ∷ 101 ∷ 10 ∷ []

abbrev pub is_empty : List ℕ → Bool
is_empty [] = true
is_empty (c ∷ cs) = false

-- What a row adds to the output: each trade is flushed before the next line is read.
abbrev pub write_row : ℕ → Run TradeData → List ℕ × Run (Unit {0}) → List ℕ × Run (Unit {0})
write_row pad (ok trade) rest = (encode_trade pad trade ++ rest.0, rest.1)
write_row pad (err x) rest = ([], err x)
write_row pad timeout rest = ([], timeout)

-- The loop over the lines: the bytes that are written, and how it ends. `pad` is the last byte of `trade`.
unfoldable pub write_rows : ℕ → List (List ℕ) → List ℕ × Run (Unit {0})
unfolding parse_line same
write_rows pad [] = ([], ok tt)
write_rows pad (line ∷ rest) =
    let others = write_rows pad rest in
    if is_empty line || same line header_line
    then others
    else write_row pad (parse_line line) others

abbrev write_after_header : ℕ → List (List ℕ) → List ℕ × Run (Unit {0})
write_after_header pad [] = ([], ok tt)
write_after_header pad (header ∷ rest) = write_rows pad rest

-- The text is `none` if the file cannot be opened.
unfoldable pub parse_csv : ℕ → Option (List ℕ) → List ℕ × Run (Unit {0})
unfolding write_rows lines
parse_csv pad none = ([], ok tt)
parse_csv pad (some text) = write_after_header pad (lines text)
