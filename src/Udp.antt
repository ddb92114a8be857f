-- ===== src/Udp.antt =====
-- The UDP variant: src/server_udp/server_udp.cc and sender_udp.cc, and src/client_udp/client_udp.cc. A datagram is
-- its bytes. `lowest_and_highest_prices` of the query engine has no definition in the sources; it is a
-- parameter.
pub mod Exchange
pub mod Loop
pub mod Program
use group_trade_data_query.Common.{
  ℕ, zero, suc, ◌+◌, ◌%◌, Bool, true, false, List, [], ◌∷◌, ◌++◌, map, ltb, ◌==◌, if◌then◌else◌,
  length, take,
}
use group_trade_data_query.Common.Word.{le_bytes, of_le}
use group_trade_data_query.Common.Run.{
  Run, ok, err, timeout, runtime_error, length_error, ◌>>=◌, ◌>>◌, require,
}
use group_trade_data_query.Query.{TradeDataQuery, Result}
use group_trade_data_query.Query.Codec.{encode_result, decode_result, encode_query}
use group_trade_data_query.Server.{Sent, count, send_again, send_error, received_query}
use group_trade_data_query.Client.Receive.{fill, zeros}

-- A datagram with the address it goes to.
abbrev pub Datagram : Type 0
Datagram = ℕ × List ℕ

-- static_cast<int32_t>(result.size()), as its bytes.
unfoldable pub result_size : List Result → List ℕ
result_size results = le_bytes 4 (length results % 0x1_0000_0000)

-- `sendto` for one message after the other, with the answers from the `i`th on: a negative answer throws, and a
-- short count is only reported.
unfoldable pub send_messages : ℕ → (ℕ → Sent) → ℕ → List (List ℕ) → List Datagram × Run (Unit {0})
send_messages client_addr answers i [] = ([], ok tt)
send_messages client_addr answers i (message ∷ messages) =
    let rest = send_messages client_addr answers (i + 1) messages in
    elim (answers i) [
      | count n ↦ ((client_addr, take n message) ∷ rest.0, rest.1)
      | send_again ↦ ([], err runtime_error)
      | send_error ↦ ([], err runtime_error)
    ]

-- What `recvfrom` gives.
pub data Arrival : Type 0 where
  arrived : ℕ → List ℕ → Arrival
  recvfrom_failed : Arrival

module _ (lowest_and_highest_prices : TradeDataQuery → List Result) where
  -- The size of the result, and then each `Result` in a datagram of its own. The branch for trades is dead.
  unfoldable pub handle_trade_data_query :
      (ℕ → Sent) → TradeDataQuery → ℕ → List Datagram × Run (Unit {0})
  unfolding send_messages result_size encode_result
  handle_trade_data_query answers query client_addr =
      let result = lowest_and_highest_prices query in
      send_messages client_addr answers 0 (result_size result ∷ map encode_result result)

  -- One event of the loop of `run`. `memory` is what `query` holds before.
  unfoldable pub udp_event : ℕ → List ℕ → ℕ → Arrival → (ℕ → Sent) → List Datagram × Run (Unit {0})
  unfolding handle_trade_data_query received_query
  udp_event server_listen_fd memory fd recvfrom_failed answers = ([], ok tt)
  udp_event server_listen_fd memory fd (arrived client_addr chunk) answers =
      if fd == server_listen_fd
      then handle_trade_data_query answers (received_query memory chunk) client_addr
      else ([], ok tt)

-- `client::Client::send_message`: the datagram, and what becomes of the answer.
unfoldable pub send_query : ℕ → TradeDataQuery → Sent → List ℕ × Run (Unit {0})
unfolding encode_query
send_query pad message (count n) = (encode_query pad message, ok tt)
send_query pad message send_again = (encode_query pad message, err runtime_error)
send_query pad message send_error = (encode_query pad message, err runtime_error)

-- `recv` with a buffer of `size` bytes takes the next datagram and drops what does not fit. Without a datagram it
-- waits.
unfoldable pub recv_datagram : ℕ → List (List ℕ) → Run (List ℕ × List (List ℕ))
recv_datagram size [] = timeout
recv_datagram size (datagram ∷ rest) = ok (take size datagram, rest)

-- The loop of `read_struct`, over elements that are zero before they are read.
unfoldable pub read_results : ℕ → List (List ℕ) → Run (List Result × List (List ℕ))
unfolding recv_datagram decode_result
read_results zero datagrams = ok ([], datagrams)
read_results (suc left) datagrams = do
  (chunk, rest) ← recv_datagram 18 datagrams
  (results, rest') ← read_results left rest
  ok (decode_result (fill (zeros 18) chunk) ∷ results, rest')

unfoldable pub read_struct_udp : List ℕ → List (List ℕ) → Run (List Result × List (List ℕ))
unfolding recv_datagram read_results
read_struct_udp memory datagrams = do
  (chunk, rest) ← recv_datagram 4 datagrams
  let count = of_le (fill memory chunk)
  require (ltb count 0x8000_0000) length_error
  read_results count rest
