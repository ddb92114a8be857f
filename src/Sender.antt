-- ===== src/Sender.antt =====
-- src/server/sender.cc and receiver.cc: blocking sends with a queue in front, and a blocking receive.
pub mod Fifo
use group_trade_data_query.Common.{ℕ, Bool, true, false, List, [], ◌∷◌, ◌++◌, length, take, drop}
use group_trade_data_query.Common.Run.{Run, ok, err, timeout, runtime_error}
use group_trade_data_query.Query.{TradeData, TradeDataQuery, Result}
use group_trade_data_query.Query.Codec.{encode_result, encode_trade}
use group_trade_data_query.Queue.{push}
use group_trade_data_query.Server.{
  Call, sent, Sent, count, send_again, send_error, Received, bytes, end_of_stream, recv_again,
  recv_error, received_query,
}

-- What a send does: the calls that it makes, and how it ends. A short count is only reported.
unfoldable pub send_data : ℕ → List ℕ → Sent → List Call × Run (Unit {0})
send_data sockfd payload (count n) = (sent sockfd (take n payload) ∷ [], ok tt)
send_data sockfd payload send_again = ([], err runtime_error)
send_data sockfd payload send_error = ([], err runtime_error)

-- Not implemented for now, says the source.
abbrev pub serialise : List ℕ → List ℕ
serialise final_result = final_result

-- The two overloads of `send_without_serialisation`.
unfoldable pub send_struct_result : ℕ → Result → Sent → List Call × Run (Unit {0})
unfolding encode_result
send_struct_result sockfd result (count n) =
    (sent sockfd (take n (encode_result result)) ∷ [], ok tt)
send_struct_result sockfd result send_again = ([], err runtime_error)
send_struct_result sockfd result send_error = ([], err runtime_error)

unfoldable pub send_struct_trade : ℕ → ℕ → TradeData → Sent → List Call × Run (Unit {0})
unfolding encode_trade
send_struct_trade sockfd pad payload (count n) =
    (sent sockfd (take n (encode_trade pad payload)) ∷ [], ok tt)
send_struct_trade sockfd pad payload send_again = ([], err runtime_error)
send_struct_trade sockfd pad payload send_error = ([], err runtime_error)

pub record OffloadQueue : Type 0 where
  pub queue : List (ℕ × List ℕ)

unfoldable pub serialise_and_enqueue : ℕ → List ℕ → OffloadQueue → OffloadQueue
unfolding push
serialise_and_enqueue sockfd final_result q = record {
  queue = push q.queue (sockfd, serialise final_result);
}

-- The calls, how it ends, and the queue: a send that throws leaves its entry in front.
abbrev pub after_send :
    List (ℕ × List ℕ)
    → List (ℕ × List ℕ)
    → List Call × Run (Unit {0})
    → OffloadQueue × List Call × Run (Unit {0})
after_send whole rest (calls, ok u) = (record { queue = rest }, calls, ok u)
after_send whole rest (calls, err x) = (record { queue = whole }, calls, err x)
after_send whole rest (calls, timeout) = (record { queue = whole }, calls, timeout)

unfoldable pub offload_one : Sent → OffloadQueue → OffloadQueue × List Call × Run (Unit {0})
unfolding send_data
offload_one answer q = elim q.queue [
  | [] ↦ (q, [], ok tt)
  | (sockfd, payload) ∷ rest ↦
      after_send ((sockfd, payload) ∷ rest) rest (send_data sockfd payload answer)
]

-- `receive_data`: a short count is only reported, and the query keeps the rest of its bytes.
unfoldable pub receive_data : List ℕ → Received → Run TradeDataQuery
unfolding received_query
receive_data memory (bytes chunk) = ok (received_query memory chunk)
receive_data memory end_of_stream = ok (received_query memory [])
receive_data memory recv_again = err runtime_error
receive_data memory recv_error = err runtime_error
