-- ===== src/Udp/Program/Stale.antt =====
-- Replies of src/server_udp/server_udp.cc that src/client_main_udp.cc does not read, or reads as what they are not.
use group_trade_data_query.Common.{
  ℕ, ◌<◌, ◌≡◌, refl, ap, ◌∙◌, true, false, List, [], ◌∷◌, ◌++◌, map, arith, ◌==◌, length, take, All,
  lt→ltb,
}
use group_trade_data_query.Common.Word.{bit_set, le_bytes, of_le}
use group_trade_data_query.Common.Run.{ok}
use group_trade_data_query.Query.{TradeDataQuery, TradeData, Result, ResultFits}
use group_trade_data_query.Query.Codec.{encode_query, encode_result, decode_trade}
use group_trade_data_query.Server.{count}
use group_trade_data_query.Client.Receive.{fill, zeros}
use group_trade_data_query.Client.Input.{read_query}
use group_trade_data_query.Client.Input.Numbers.{
  QueryText, QueryTextFits, query_text, query_of, at_text, EndsNumber, read_query-numbers,
  gap-EndsNumber,
}
use group_trade_data_query.Client.Program.{Surroundings}
use group_trade_data_query.Udp.{
  handle_trade_data_query, recv_datagram, read_struct_udp, send_query, result_size,
}
use group_trade_data_query.Udp.Exchange.{
  for_address, whole, answer-datagrams, take-result_size, fill-result_size, of_le-result_size,
  read_struct_udp-handle_trade_data_query,
}
use group_trade_data_query.Udp.Program.{
  UdpSession, result_line, read_trades, read_trade_structs, read_reply, after_read_udp,
  udp_client_round, udp_client_rounds,
}

udp_client_round_lem :
    (given : Surroundings) (s : UdpSession)
    → udp_client_round given s ≡ after_read_udp given s (read_query given.unset s.stdin)
unfolding udp_client_round
udp_client_round_lem given s = refl

-- A round in which a query is read from its text and sent.
udp_round_reply :
    (given : Surroundings) (s : UdpSession) (t : QueryText) (rest : List ℕ) (n : ℕ)
    → s.stdin ≡ at_text (query_text t rest)
    → QueryTextFits t
    → EndsNumber rest
    → given.answer ≡ count n
    → udp_client_round given s
      ≡ read_reply given.count_memory (query_of t) (record s {
        stdin = at_text rest;
        messages = s.messages ++ (encode_query given.pad (query_of t) ∷ []);
      })
unfolding send_query
udp_round_reply given s t rest n input fits ends sent =
    udp_client_round_lem given s
    ∙ ap (after_read_udp given s)
        (ap (read_query given.unset) input ∙ read_query-numbers given.unset t rest fits ends)
    ∙ rw sent refl

read_reply_nothing :
    (memory : List ℕ) (query : TradeDataQuery) (s : UdpSession)
    → 0 < query.resolution
    → bit_set query.metrics 0 ≡ false
    → read_reply memory query s ≡ ok s
unfolding read_reply
read_reply_nothing memory query s r off = rw off (ground arith)

positive_test : (n : ℕ) → 0 < n → (n == 0) ≡ false
positive_test n h = ground arith

read_reply_results :
    (memory : List ℕ) (query : TradeDataQuery) (s : UdpSession) (output : List Result)
    (rest : List (List ℕ))
    → 0 < query.resolution
    → bit_set query.metrics 0 ≡ true
    → read_struct_udp memory s.datagrams ≡ ok (output, rest)
    → read_reply memory query s
      ≡ ok (record s { datagrams = rest; printed = s.printed ++ map result_line output })
unfolding read_reply
read_reply_results memory query s output rest r on read =
    rw (positive_test query.resolution r, on, read) refl

-- A query that is sent without reading its reply, and one whose reply is read.
pub record TwoQueries (s : UdpSession) (first second : Surroundings) (t u : QueryText)
    (rest : List ℕ) : Type 0 where
  pub input : s.stdin ≡ at_text (query_text t (query_text u rest))
  pub first_fits : QueryTextFits t
  pub second_fits : QueryTextFits u
  pub between : 0 < length u.symbol_id.blank
  pub text_ends : EndsNumber rest
  pub first_sent : first.answer ≡ count 40
  pub second_sent : second.answer ≡ count 40
  pub count_size : length second.count_memory ≡ 4
  pub first_resolution : 0 < (query_of t).resolution
  pub second_resolution : 0 < (query_of u).resolution
  pub first_bit : bit_set (query_of t).metrics 0 ≡ false
  pub second_bit : bit_set (query_of u).metrics 0 ≡ true

module _ (lowest_and_highest_prices : TradeDataQuery → List Result) (client_addr : ℕ) where
  abbrev pub reply : TradeDataQuery → List (List ℕ)
  reply query =
      for_address client_addr
        (handle_trade_data_query lowest_and_highest_prices whole query client_addr).0

  -- If a client sends a query with a resolution and without bit 0 of the metrics, and then one with
  -- both, every send succeeds, and the datagrams of both replies arrive whole and in order, then what
  -- it prints for the second query are the results of the first one, and the second reply stays
  -- unread.
  pub udp_client_rounds_stale :
      (s : UdpSession) (first second : Surroundings) (t u : QueryText) (rest : List ℕ)
      → TwoQueries s first second t u rest
      → length (lowest_and_highest_prices (query_of t)) < 0x8000_0000
      → All ResultFits (lowest_and_highest_prices (query_of t))
      → s.datagrams ≡ reply (query_of t) ++ reply (query_of u)
      → udp_client_rounds (first ∷ second ∷ []) s
        ≡ ok (record {
          stdin = at_text rest;
          datagrams = reply (query_of u);
          messages =
              (s.messages ++ (encode_query first.pad (query_of t) ∷ []))
              ++ (encode_query second.pad (query_of u) ∷ []);
          printed = s.printed ++ map result_line (lowest_and_highest_prices (query_of t));
        })
  unfolding udp_client_rounds
  udp_client_rounds_stale s first second t u rest two few fits datagrams =
      let s₁ : UdpSession = record s {
        stdin = at_text (query_text u rest);
        messages = s.messages ++ (encode_query first.pad (query_of t) ∷ []);
      } in
      let gap = gap-EndsNumber u.symbol_id _ two.second_fits.symbol_id_fits two.between in
      let one : udp_client_round first s ≡ ok s₁ =
        udp_round_reply first s t (query_text u rest) 40 two.input two.first_fits gap two.first_sent
        ∙ read_reply_nothing first.count_memory (query_of t) s₁ two.first_resolution
            two.first_bit in
      let next =
        udp_round_reply second s₁ u rest 40 refl two.second_fits two.text_ends two.second_sent
        ∙ read_reply_results second.count_memory (query_of u) _
            (lowest_and_highest_prices (query_of t)) (reply (query_of u)) two.second_resolution
            two.second_bit
            (ap (read_struct_udp second.count_memory) datagrams
              ∙ (read_struct_udp-handle_trade_data_query lowest_and_highest_prices (query_of t)
                  client_addr second.count_memory (reply (query_of u)) two.count_size few
                  fits).1) in
      rw (one, next) refl

-- The trade that the bytes of a result are taken for: those that do not arrive are zeros.
abbrev pub misread : Result → TradeData
misread r = decode_trade (encode_result r ++ zeros 14)

fill-misread :
    (r : Result) → fill (zeros 32) (take 32 (encode_result r)) ≡ encode_result r ++ zeros 14
unfolding encode_result le_bytes
fill-misread r = refl

read_trades-misread :
    (results : List Result) (rest : List (List ℕ))
    → read_trades (length results) (map encode_result results ++ rest)
      ≡ ok (map misread results, rest)
unfolding read_trades recv_datagram
read_trades-misread [] rest = refl
read_trades-misread (r ∷ rs) rest = rw (fill-misread r, read_trades-misread rs rest) refl

read_trade_structs_of_parts :
    (memory first : List ℕ) (datagrams : List (List ℕ)) (c : ℕ)
    (out : List TradeData × List (List ℕ))
    → take 4 first ≡ first
    → of_le (fill memory first) ≡ c
    → c < 0x8000_0000
    → read_trades c datagrams ≡ ok out
    → read_trade_structs memory (first ∷ datagrams) ≡ ok out
unfolding read_trade_structs recv_datagram
read_trade_structs_of_parts memory first datagrams c out whole_first size small rest =
    rw (whole_first, size, lt→ltb c 0x8000_0000 small, rest)

-- A query with resolution 0 is for trades, but the server answers by results in any case: if its
-- datagrams arrive whole and in order, the client takes the bytes of each result, followed by zeros,
-- for a trade.
pub read_trade_structs-misread :
    (lowest_and_highest_prices : TradeDataQuery → List Result) (query : TradeDataQuery)
    (client_addr : ℕ) (memory : List ℕ) (later : List (List ℕ))
    → length memory ≡ 4
    → length (lowest_and_highest_prices query) < 0x8000_0000
    → read_trade_structs memory (reply lowest_and_highest_prices client_addr query ++ later)
      ≡ ok (map misread (lowest_and_highest_prices query), later)
read_trade_structs-misread lowest_and_highest_prices query client_addr memory later four few =
    let result = lowest_and_highest_prices query in
    let (fine, datagrams) = answer-datagrams lowest_and_highest_prices query client_addr in
    ap (λ ds. read_trade_structs memory (ds ++ later)) datagrams
    ∙ read_trade_structs_of_parts memory (result_size result) (map encode_result result ++ later)
        (length result) _ (take-result_size result).0
        (ap of_le (fill-result_size memory result four) ∙ of_le-result_size result few) few
        (read_trades-misread result later)
