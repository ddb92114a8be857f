-- ===== src/Examples/Udp.antt =====
-- The theorems on the UDP variant at a result.
use group_trade_data_query.Common.{ℕ, ◌<◌, ◌≡◌, refl, true, List, [], ◌∷◌, ◌++◌, map, All, arith}
use group_trade_data_query.Common.Run.{ok, timeout}
use group_trade_data_query.Query.{TradeDataQuery, Result, ResultFits}
use group_trade_data_query.Udp.{handle_trade_data_query, read_struct_udp}
use group_trade_data_query.Udp.Exchange.{
  for_address, whole, read_struct_udp-handle_trade_data_query,
}
use group_trade_data_query.Common.Word.{u64_mod, bit_set}
use group_trade_data_query.Query.Codec.{encode_query}
use group_trade_data_query.Csv.Number.{is_digit}
use group_trade_data_query.Sockets.{codes}
use group_trade_data_query.Client.Input.Numbers.{
  TokenFits, QueryText, QueryTextFits, query_text, query_of, at_text,
}
use group_trade_data_query.Udp.Program.{
  UdpSession, result_line, read_trade_structs, udp_client_rounds,
}
use group_trade_data_query.Udp.Program.Stale.{
  TwoQueries, reply, udp_client_rounds_stale, misread, read_trade_structs-misread,
}
use group_trade_data_query.Examples.Service.{query_input, query_input-QueryTextFits, surroundings}
use group_trade_data_query.Examples.Query.{query_of_all, query_of_all-QueryFits}
use group_trade_data_query.Client.Receive.{zeros}
use group_trade_data_query.Udp.Loop.{run_udp}
use group_trade_data_query.Udp.Loop.Backlog.{Asker, all_woken, waiting, reply_to, run_udp_backlog}

-- One result, at the start of the query's range.
abbrev one_price : TradeDataQuery → List Result
one_price query =
    record {
      start_time = query.start_time_point;
      lowest_price = record { price = 3; price_exponent = 0 };
      highest_price = record { price = 5; price_exponent = 255 };
    }
    ∷ []

one_price-ResultFits : All ResultFits (one_price query_of_all)
one_price-ResultFits = (
  record {
    start_lt = omega arith;
    lowest_fits = record { price_lt = omega arith; exponent_lt = omega arith };
    highest_fits = record { price_lt = omega arith; exponent_lt = omega arith };
  },
  tt,
)

read_struct_udp-handle_trade_data_query_example :
    let reply = handle_trade_data_query one_price whole query_of_all 6 in
    (reply.1 ≡ ok tt)
    × (read_struct_udp (9 ∷ 9 ∷ 9 ∷ 9 ∷ []) (for_address 6 reply.0 ++ ((1 ∷ []) ∷ []))
        ≡ ok (one_price query_of_all, (1 ∷ []) ∷ []))
read_struct_udp-handle_trade_data_query_example =
    read_struct_udp-handle_trade_data_query one_price query_of_all 6 (9 ∷ 9 ∷ 9 ∷ 9 ∷ [])
      ((1 ∷ []) ∷ []) refl (omega arith) one_price-ResultFits

-- 1 5 30 10 2, and after it 1 5 30 10 1.
abbrev without_bit : QueryText
without_bit = record query_input { metrics = record { blank = codes " "; digits = codes "2" } }

abbrev with_bit : QueryText
with_bit = record query_input {
  symbol_id = record { blank = codes "\n"; digits = codes "258" };
  metrics = record { blank = codes " "; digits = codes "1" };
}

one_digit :
    (c : ℕ)
    → is_digit c ≡ true
    → c < 60
    → TokenFits u64_mod (record { blank = codes " "; digits = c ∷ [] })
one_digit c h b = record { blank_is = (refl, tt); number_is = (h, tt); value_lt = omega arith }

without_bit-QueryTextFits : QueryTextFits without_bit
without_bit-QueryTextFits =
    let fits = query_input-QueryTextFits in
    record {
      symbol_id_fits = fits.symbol_id_fits;
      start_fits = fits.start_fits;
      end_fits = fits.end_fits;
      resolution_fits = fits.resolution_fits;
      metrics_fits = one_digit 50 refl (omega arith);
      start_gap = fits.start_gap;
      end_gap = fits.end_gap;
      resolution_gap = fits.resolution_gap;
      metrics_gap = omega arith;
    }

with_bit-QueryTextFits : QueryTextFits with_bit
with_bit-QueryTextFits =
    let fits = query_input-QueryTextFits in
    record {
      symbol_id_fits = record {
        blank_is = (refl, tt);
        number_is = (refl, (refl, (refl, tt)));
        value_lt = omega arith;
      };
      start_fits = fits.start_fits;
      end_fits = fits.end_fits;
      resolution_fits = fits.resolution_fits;
      metrics_fits = one_digit 49 refl (omega arith);
      start_gap = fits.start_gap;
      end_gap = fits.end_gap;
      resolution_gap = fits.resolution_gap;
      metrics_gap = omega arith;
    }

one_price_small-ResultFits : All ResultFits (one_price (query_of without_bit))
one_price_small-ResultFits = (
  record {
    start_lt = omega arith;
    lowest_fits = record { price_lt = omega arith; exponent_lt = omega arith };
    highest_fits = record { price_lt = omega arith; exponent_lt = omega arith };
  },
  tt,
)

abbrev stale : UdpSession
stale = record {
  stdin = at_text (query_text without_bit (query_text with_bit []));
  datagrams = reply one_price 6 (query_of without_bit) ++ reply one_price 6 (query_of with_bit);
  messages = [];
  printed = [];
}

two_queries : TwoQueries stale surroundings surroundings without_bit with_bit []
unfolding bit_set
two_queries = record {
  input = refl;
  first_fits = without_bit-QueryTextFits;
  second_fits = with_bit-QueryTextFits;
  between = omega arith;
  text_ends = tt;
  first_sent = refl;
  second_sent = refl;
  count_size = refl;
  first_resolution = omega arith;
  second_resolution = omega arith;
  first_bit = refl;
  second_bit = refl;
}

udp_client_rounds_stale_example :
    udp_client_rounds (surroundings ∷ surroundings ∷ []) stale
    ≡ ok (record {
      stdin = at_text [];
      datagrams = reply one_price 6 (query_of with_bit);
      messages =
          ([] ++ (encode_query 7 (query_of without_bit) ∷ []))
          ++ (encode_query 7 (query_of with_bit) ∷ []);
      printed = [] ++ map result_line (one_price (query_of without_bit));
    })
udp_client_rounds_stale_example =
    udp_client_rounds_stale one_price 6 stale surroundings surroundings without_bit with_bit []
      two_queries (omega arith) one_price_small-ResultFits refl

read_trade_structs-misread_example :
    read_trade_structs (9 ∷ 9 ∷ 9 ∷ 9 ∷ []) (reply one_price 6 query_of_all ++ ((1 ∷ []) ∷ []))
    ≡ ok (map misread (one_price query_of_all), (1 ∷ []) ∷ [])
read_trade_structs-misread_example =
    read_trade_structs-misread one_price query_of_all 6 (9 ∷ 9 ∷ 9 ∷ 9 ∷ []) ((1 ∷ []) ∷ []) refl
      (omega arith)

-- Two clients ask before the server wakes up, for one event.
abbrev asker : ℕ → Asker
asker client_addr = record { client_addr = client_addr; pad = 7; query = query_of_all }

abbrev two_askers : List Asker
two_askers = asker 6 ∷ asker 8 ∷ []

abbrev one_event : List (List (List ℕ))
one_event = (zeros 40 ∷ []) ∷ []

run_udp_backlog_example :
    run_udp one_price (all_woken 3 one_event) (waiting 3 two_askers [])
    ≡ (waiting 3 (asker 8 ∷ []) ([] ++ (reply_to one_price (asker 6) ++ [])), timeout)
run_udp_backlog_example =
    run_udp_backlog one_price 3 one_event two_askers [] ((refl, tt), tt)
      (query_of_all-QueryFits, (query_of_all-QueryFits, tt))
