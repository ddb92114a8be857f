-- ===== src/Engine.antt =====
-- src/query_engine/query_engine.cc: the open data file, the reads from it, the searches by time and
-- the scans. A file is the list of its bytes, `none` if it could not be opened. A read that fails
-- throws, and no caller catches it; the state of the stream after that is not modelled.
pub mod Double
pub mod Metrics
pub mod Aggregator
pub mod Store
pub mod Search
pub mod Window
pub mod Coverage
pub mod Decimal
pub mod MinMax
pub mod Scaling
pub mod Totals
pub mod Raw
pub mod Overcount
pub mod Computed
pub mod Fits
pub mod Specified
pub mod Buffer
use group_trade_data_query.Common.{
  ℕ, zero, suc, ◌+◌, ◌-◌, ◌/◌, ◌%◌, Bool, true, false, ◌&&◌, Option, none, some, List, [], ◌∷◌,
  ◌++◌, ltb, leb, ◌==◌, if◌then◌else◌, length, take, drop,
}
use group_trade_data_query.Common.Word.{add64, sub64, mul64}
use group_trade_data_query.Common.Run.{Run, ok, err, timeout, read_failed, ◌>>=◌}
use group_trade_data_query.Query.{TradeData, TradeDataQuery}
use group_trade_data_query.Query.Codec.{decode_trade, sizeof_trade}

pub record Engine : Type 0 where
  pub file : Option (List ℕ)
  pub trades_size : ℕ

-- `trades_size` keeps whatever the memory held if the file cannot be opened.
unfoldable pub open_engine : ℕ → Option (List ℕ) → Engine
open_engine garbage none = record { file = none; trades_size = garbage }
open_engine garbage (some bytes) = record { file = some bytes; trades_size = length bytes / 31 }

-- Whether the destructor closes a file.
pub closes_file : Engine → Bool
closes_file e = elim e.file [ none ↦ false | some bytes ↦ true ]

unfoldable pub read_trade_data : Engine → ℕ → Run TradeData
read_trade_data e ind = elim e.file [
  | none ↦ err (read_failed ind)
  | some bytes ↦
      let block = take sizeof_trade (drop (mul64 ind sizeof_trade) bytes) in
      if length block == sizeof_trade then ok (decode_trade block) else err (read_failed ind)
]

-- (x / y) + (x % y != 0), which faults on `y == 0`.
unfoldable pub int_ceil : ℕ → ℕ → ℕ
int_ceil x y = x / y + (if x % y == 0 then 0 else 1)

-- left + ((right - left) >> 1)
unfoldable pub midpoint : ℕ → ℕ → ℕ
midpoint left right = add64 left (sub64 right left / 2)

-- One of the `while (left < right)` loops; the result is (left, right).
unfoldable pub search : Engine → ℕ → ℕ → ℕ → ℕ → Run (ℕ × ℕ)
search e time zero left right = timeout
search e time (suc fuel) left right = elim (ltb left right) [
  | false ↦ ok (left, right)
  | true ↦ do
    let mid = midpoint left right
    trade ← read_trade_data e mid
    elim (ltb trade.created_at time) [
      | true ↦ search e time fuel (add64 mid 1) right
      | false ↦ search e time fuel left mid
    ]
]

-- A range below 2 ^ 64 is halved 64 times at most.
abbrev pub search_fuel : ℕ
search_fuel = 65

-- Steps 1 and 2 of the three functions over a time range: (start_idx, end_idx).
unfoldable pub locate : Engine → ℕ → ℕ → Run (ℕ × ℕ)
locate e start_time end_time = do
  (start_idx, _) ← search e start_time search_fuel 0 (sub64 e.trades_size 1)
  (_, right) ← search e end_time search_fuel start_idx e.trades_size
  ok (start_idx, (if right == 0 then 0 else sub64 right 1))

-- `for (i = start_idx; i <= end_idx; ++i) { read_trade_data(i, trade); … }`, with the rounds left.
unfoldable pub scan {ℓ} : {S : Type ℓ} → (S → TradeData → S) → Engine → ℕ → ℕ → S → Run S
scan body e zero i s = ok s
scan body e (suc rounds) i s = do
  trade ← read_trade_data e i
  scan body e rounds (add64 i 1) (body s trade)

-- The rounds of that loop.
abbrev pub rounds : ℕ → ℕ → ℕ
rounds start_idx end_idx = end_idx + 1 - start_idx

-- trade.created_at >= start && trade.created_at < end
abbrev pub in_window : ℕ → ℕ → TradeData → Bool
in_window start_time end_time trade =
    leb start_time trade.created_at && ltb trade.created_at end_time

abbrev push_if : (TradeData → Bool) → List TradeData → TradeData → List TradeData
push_if test trades trade = if test trade then trades ++ (trade ∷ []) else trades

-- `read_trade_data` never returns false: the branch that prints and continues is dead.
unfoldable pub send_raw_data : Engine → TradeDataQuery → Run (List TradeData)
unfolding scan
send_raw_data e query =
    scan (push_if (in_window query.start_time_point query.end_time_point)) e e.trades_size 0 []
