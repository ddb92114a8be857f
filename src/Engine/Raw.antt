-- ===== src/Engine/Raw.antt =====
-- `send_raw_data` of src/query_engine/query_engine.cc.
use group_trade_data_query.Common.{
  ℕ, ◌≡◌, sym, ap, ◌∙◌, Bool, List, [], ◌∷◌, ◌++◌, foldl, append-nil, append_assoc, Bool-cases, inl,
  inr, arith,
}
use group_trade_data_query.Common.Run.{ok}
use group_trade_data_query.Query.{TradeData, TradeDataQuery}
use group_trade_data_query.Engine.{Engine, scan, in_window, push_if, send_raw_data}
use group_trade_data_query.Engine.Search.{Holds}
use group_trade_data_query.Engine.Window.{rows, select, scan-foldl}
use group_trade_data_query.Engine.Coverage.{range_trades, range_trades-in_window}

-- Pushing the trades that pass a test, one after the other, appends their selection.
foldl-push_if :
    (test : TradeData → Bool) (ts acc : List TradeData)
    → foldl (push_if test) acc ts ≡ acc ++ select test ts
foldl-push_if test [] acc = sym (append-nil acc)
foldl-push_if test (t ∷ ts) acc = elim (Bool-cases (test t)) [
  | inl on ↦
      rw on (foldl-push_if test ts (acc ++ (t ∷ [])) ∙ append_assoc acc (t ∷ []) (select test ts))
  | inr off ↦ rw off (foldl-push_if test ts acc)
]

-- If the engine counts the trades of its file right, the raw data of a query are exactly the
-- trades of its range, in the order of the file, which need not be sorted.
pub send_raw_data-range_trades :
    {e : Engine} {row : ℕ → TradeData} {n : ℕ}
    → Holds e row n
    → (query : TradeDataQuery)
    → send_raw_data e query ≡ ok (range_trades row n query.start_time_point query.end_time_point)
unfolding send_raw_data
send_raw_data-range_trades {e} {row} {n} holds query =
    let test = in_window query.start_time_point query.end_time_point in
    ap (λ k. scan (push_if test) e k 0 []) holds.size
    ∙ scan-foldl (push_if test) holds n 0 [] (omega arith)
    ∙ ap ok (
        foldl-push_if test (rows row n 0) []
        ∙ sym (range_trades-in_window row n query.start_time_point query.end_time_point))
