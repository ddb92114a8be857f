-- ===== src/Udp/Program.antt =====
-- `main` of src/client_main_udp.cc: a round of its loop, and what it prints.
pub mod Stale
use group_trade_data_query.Common.{
  ℕ, zero, suc, Bool, true, false, Option, List, [], ◌∷◌, ◌++◌, map, ltb, ◌==◌, if◌then◌else◌,
}
use group_trade_data_query.Common.Int.{ℤ, signed8}
use group_trade_data_query.Common.Word.{of_le, bit_set}
use group_trade_data_query.Common.Run.{Run, ok, err, timeout, length_error, ◌>>=◌, ◌>>◌, require}
use group_trade_data_query.Query.{TradeDataQuery, TradeData, Result}
use group_trade_data_query.Query.Codec.{decode_trade, sizeof_trade}
use group_trade_data_query.Sockets.{
  SocketAddress, SysCall, Kernel, Outcome, returned, thrown, codes,
}
use group_trade_data_query.Sockets.Client.{new_udp_client}
use group_trade_data_query.Client.Receive.{fill, zeros}
use group_trade_data_query.Client.Input.{Stdin, read_query}
use group_trade_data_query.Client.Program.{Surroundings, server_ip, port}
use group_trade_data_query.Udp.{send_query, recv_datagram, read_struct_udp}

-- A value that is written to the stream. An `int8_t` and a `uint8_t` are written as characters.
pub data Item : Type 0 where
  number : ℕ → Item
  integer : ℤ → Item
  character : ℕ → Item
  text : List ℕ → Item

abbrev pub Printed : Type 0
Printed = List Item

-- The line of a trade.
unfoldable pub trade_line : TradeData → Printed
trade_line data_ =
    number data_.symbol_id
    ∷ text (codes " ")
    ∷ number data_.created_at
    ∷ text (codes " ")
    ∷ number data_.trade_id
    ∷ text (codes " ")
    ∷ number data_.price.price
    ∷ text (codes "e")
    ∷ character data_.price.price_exponent
    ∷ text (codes " ")
    ∷ number data_.quantity.quantity
    ∷ text (codes "e")
    ∷ character data_.quantity.quantity_exponent
    ∷ text (codes " ")
    ∷ character data_.taker_side
    ∷ []

-- The line of a result.
unfoldable pub result_line : Result → Printed
result_line data_ =
    text (codes "Timestamp: ")
    ∷ number data_.start_time
    ∷ text (codes "; Min Price: ")
    ∷ number data_.lowest_price.price
    ∷ text (codes "e")
    ∷ integer (signed8 data_.lowest_price.price_exponent)
    ∷ text (codes "; Max Price: ")
    ∷ number data_.highest_price.price
    ∷ text (codes "e")
    ∷ integer (signed8 data_.highest_price.price_exponent)
    ∷ []

-- read_struct<TradeData>: the loop, and the call.
unfoldable pub read_trades : ℕ → List (List ℕ) → Run (List TradeData × List (List ℕ))
unfolding recv_datagram
read_trades zero datagrams = ok ([], datagrams)
read_trades (suc left) datagrams = do
  (chunk, rest) ← recv_datagram sizeof_trade datagrams
  (trades, rest') ← read_trades left rest
  ok (decode_trade (fill (zeros sizeof_trade) chunk) ∷ trades, rest')

unfoldable pub read_trade_structs : List ℕ → List (List ℕ) → Run (List TradeData × List (List ℕ))
unfolding recv_datagram read_trades
read_trade_structs memory datagrams = do
  (chunk, rest) ← recv_datagram 4 datagrams
  let count = of_le (fill memory chunk)
  require (ltb count 0x8000_0000) length_error
  read_trades count rest

pub record UdpSession : Type 0 where
  pub stdin : Stdin
  pub datagrams : List (List ℕ)
  pub messages : List (List ℕ)
  pub printed : List Printed

-- What is read and printed after a query was sent. Without resolution trades are read, with bit 0 of the metrics
-- results, and otherwise nothing.
unfoldable pub read_reply : List ℕ → TradeDataQuery → UdpSession → Run UdpSession
unfolding read_struct_udp read_trade_structs trade_line result_line
read_reply count_memory query s =
    if query.resolution == 0
    then (do
      (output, rest) ← read_trade_structs count_memory s.datagrams
      ok (record s { datagrams = rest; printed = s.printed ++ map trade_line output }))
    else if bit_set query.metrics 0
    then (do
      (output, rest) ← read_struct_udp count_memory s.datagrams
      ok (record s { datagrams = rest; printed = s.printed ++ map result_line output }))
    else ok s

abbrev pub after_send_udp :
    Surroundings → TradeDataQuery → UdpSession → Run (Unit {0}) → Run UdpSession
after_send_udp given query s (ok _) = read_reply given.count_memory query s
after_send_udp given query s (err x) = err x
after_send_udp given query s timeout = timeout

-- A round after the query was read.
abbrev pub after_read_udp : Surroundings → UdpSession → TradeDataQuery × Stdin → Run UdpSession
after_read_udp given s (query, stdin) =
    let (message, sending) = send_query given.pad query given.answer in
    after_send_udp given query (record s { stdin = stdin; messages = s.messages ++ (message ∷ []) })
      sending

-- The body of `while (g_client_running)`.
unfoldable pub udp_client_round : Surroundings → UdpSession → Run UdpSession
unfolding read_query send_query read_reply
udp_client_round given s = after_read_udp given s (read_query given.unset s.stdin)

-- Rounds of the loop, which nothing ends, one after the other.
unfoldable pub udp_client_rounds : List Surroundings → UdpSession → Run UdpSession
unfolding udp_client_round
udp_client_rounds [] s = ok s
udp_client_rounds (given ∷ rest) s = udp_client_round given s >>= udp_client_rounds rest

-- How the program ends: with EXIT_FAILURE and a message, or as its rounds do.
pub data UdpEnding : Type 0 where
  not_created : List ℕ → UdpEnding
  after_rounds : Run UdpSession → UdpEnding

abbrev pub created :
    List Surroundings
    → UdpSession
    → Outcome (ℤ × SocketAddress) × List SysCall
    → UdpEnding × List SysCall
created given session (thrown message, log) = (not_created message, log)
created given session (returned client, log) = (after_rounds (udp_client_rounds given session), log)

-- `main`, for the rounds that are given. No connection is made: without a server the client starts as well.
unfoldable pub udp_client_main :
    Kernel
    → (List ℕ → Option ℕ)
    → ℕ
    → List (List ℕ)
    → List Surroundings
    → UdpSession
    → UdpEnding × List SysCall
unfolding udp_client_rounds new_udp_client server_ip port
udp_client_main kernel inet_pton memory args given session =
    created given session (new_udp_client inet_pton memory (port args) (server_ip args) kernel [])
