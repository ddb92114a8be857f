-- ===== src/Udp/Exchange.antt =====
-- What a client of src/client_udp/client_udp.cc reads of the answer of src/server_udp/server_udp.cc.
use group_trade_data_query.Common.{
  drop_all, ==_self, ℕ, ◌+◌, ◌%◌, ◌<◌, ◌≡◌, refl, ap, ◌∙◌, List, [], ◌∷◌, ◌++◌, map, append-nil,
  arith, ◌==◌, if◌then◌else◌, length, take, All, lt→ltb,
}
use group_trade_data_query.Common.Word.{le_bytes, of_le, of_le-le_bytes}
use group_trade_data_query.Common.Run.{ok}
use group_trade_data_query.Query.{TradeDataQuery, Result, ResultFits}
use group_trade_data_query.Query.Codec.{encode_result}
use group_trade_data_query.Query.Codec.RoundTrip.{decode_result-encode_result}
use group_trade_data_query.Server.{Sent, count}
use group_trade_data_query.Client.Receive.{fill, zeros}
use group_trade_data_query.Udp.{
  Datagram, result_size, send_messages, handle_trade_data_query, recv_datagram, read_results,
  read_struct_udp,
}

-- The bytes of the datagrams for an address, in order.
abbrev pub for_address : ℕ → List Datagram → List (List ℕ)
for_address a [] = []
for_address a ((b, bytes) ∷ rest) =
    if b == a then bytes ∷ for_address a rest else for_address a rest

-- Every `sendto` has room for a `Result`.
abbrev pub whole : ℕ → Sent
whole i = count 18

pub take-encode_result : (r : Result) → take 18 (encode_result r) ≡ encode_result r
unfolding encode_result le_bytes
take-encode_result r = refl

fill-encode_result : (r : Result) → fill (zeros 18) (encode_result r) ≡ encode_result r
unfolding encode_result le_bytes
fill-encode_result r = refl

send_messages-encode_result :
    (a i : ℕ) (results : List Result)
    → (for_address a (send_messages a whole i (map encode_result results)).0
        ≡ map encode_result results)
      × ((send_messages a whole i (map encode_result results)).1 ≡ ok tt)
unfolding send_messages
send_messages-encode_result a i [] = (refl, refl)
send_messages-encode_result a i (r ∷ rs) =
    let (same, fine) = send_messages-encode_result a (i + 1) rs in
    (rw (==_self a, take-encode_result r, same) refl, fine)

read_results-map :
    (results : List Result) (rest : List (List ℕ))
    → All ResultFits results
    → read_results (length results) (map encode_result results ++ rest) ≡ ok (results, rest)
unfolding read_results recv_datagram
read_results-map [] rest h = refl
read_results-map (r ∷ rs) rest h =
    rw
      (
        take-encode_result r,
        fill-encode_result r,
        (decode_result-encode_result r h.0).0,
        read_results-map rs rest h.1,
      )
      refl

pub take-result_size :
    (results : List Result)
    → (take 4 (result_size results) ≡ result_size results)
      × (take 18 (result_size results) ≡ result_size results)
unfolding result_size le_bytes
take-result_size results = (refl, refl)

pub length-result_size : (results : List Result) → length (result_size results) ≡ 4
unfolding result_size le_bytes
length-result_size results = refl

pub fill-result_size :
    (memory : List ℕ) (results : List Result)
    → length memory ≡ 4
    → fill memory (result_size results) ≡ result_size results
fill-result_size memory results e =
    ap (◌++◌ (result_size results))
      (drop_all (length (result_size results)) memory (omega (arith, length-result_size results)))
    ∙ append-nil (result_size results)

pub of_le-result_size :
    (results : List Result)
    → length results < 0x8000_0000
    → of_le (result_size results) ≡ length results
unfolding result_size
of_le-result_size results h =
    let small : length results % 0x1_0000_0000 ≡ length results = omega arith in
    of_le-le_bytes 4 (length results % 0x1_0000_0000) (omega arith) ∙ small

read_struct_udp_of_parts :
    (memory first : List ℕ) (datagrams : List (List ℕ)) (c : ℕ) (out : List Result × List (List ℕ))
    → take 4 first ≡ first
    → of_le (fill memory first) ≡ c
    → c < 0x8000_0000
    → read_results c datagrams ≡ ok out
    → read_struct_udp memory (first ∷ datagrams) ≡ ok out
unfolding read_struct_udp recv_datagram
read_struct_udp_of_parts memory first datagrams c out whole_first size small rest =
    rw (whole_first, size, lt→ltb c 0x8000_0000 small, rest)

module _ (lowest_and_highest_prices : TradeDataQuery → List Result) (query : TradeDataQuery) where
  -- The datagrams of an answer: its size, and each result.
  pub answer-datagrams :
      (client_addr : ℕ)
      → let reply = handle_trade_data_query lowest_and_highest_prices whole query client_addr in
        let result = lowest_and_highest_prices query in
        (reply.1 ≡ ok tt)
        × (for_address client_addr reply.0 ≡ result_size result ∷ map encode_result result)
  unfolding handle_trade_data_query send_messages
  answer-datagrams client_addr =
      let result = lowest_and_highest_prices query in
      let (same, fine) = send_messages-encode_result client_addr 1 result in
      (fine, rw (==_self client_addr, (take-result_size result).1, same) refl)

  -- If every `sendto` has room for a `Result`, the datagrams for the client arrive in order, and
  -- the results of its query are fewer than 2 ^ 31 and in range, then the server sends without an
  -- error, and the client reads the results and leaves later datagrams alone.
  pub read_struct_udp-handle_trade_data_query :
      (client_addr : ℕ) (memory : List ℕ) (later : List (List ℕ))
      → length memory ≡ 4
      → length (lowest_and_highest_prices query) < 0x8000_0000
      → All ResultFits (lowest_and_highest_prices query)
      → let reply = handle_trade_data_query lowest_and_highest_prices whole query client_addr in
        (reply.1 ≡ ok tt)
        × (read_struct_udp memory (for_address client_addr reply.0 ++ later)
            ≡ ok (lowest_and_highest_prices query, later))
  read_struct_udp-handle_trade_data_query client_addr memory later four few fits =
      let result = lowest_and_highest_prices query in
      let (fine, datagrams) = answer-datagrams client_addr in
      (
        fine,
        ap (λ ds. read_struct_udp memory (ds ++ later)) datagrams
            ∙ read_struct_udp_of_parts memory (result_size result)
                (map encode_result result ++ later) (length result) _ (take-result_size result).0
                (ap of_le (fill-result_size memory result four) ∙ of_le-result_size result few) few
                (read_results-map result later fits),
      )
