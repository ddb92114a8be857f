-- ===== src/Client.antt =====
-- src/client/client.cc and src/client_main.cc: the query that is sent, the answer that is read, and what is
-- printed of it.
pub mod Receive
pub mod Input
pub mod Text
pub mod Program
pub mod Display
pub mod Framing
pub mod Decimals
pub mod Sets
pub mod Skipped
use group_trade_data_query.Common.{ℕ, List}
use group_trade_data_query.Common.Run.{Run, ok, err, runtime_error}
use group_trade_data_query.Query.{TradeDataQuery}
use group_trade_data_query.Query.Codec.{encode_query}
use group_trade_data_query.Server.{Sent, count, send_again, send_error}

-- The bytes that `send` is given, and what becomes of its answer: a negative one throws, a short count is
-- not noticed.
unfoldable pub send_message : ℕ → TradeDataQuery → Sent → List ℕ × Run (Unit {0})
send_message pad message (count n) = (encode_query pad message, ok tt)
send_message pad message send_again = (encode_query pad message, err runtime_error)
send_message pad message send_error = (encode_query pad message, err runtime_error)
