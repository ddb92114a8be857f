-- ===== src/Examples/Service.antt =====
-- The theorem on the client and the server together, at a file of three trades.
use group_trade_data_query.Common.{
  ℕ, ◌≡◌, refl, true, some, Option, List, [], ◌∷◌, ◌++◌, map, arith, drop,
}
use group_trade_data_query.Common.Int.{pos}
use group_trade_data_query.Common.Run.{ok}
use group_trade_data_query.Common.Word.{le_bytes, of_le, bit_set, add64, sub64, mul64}
use group_trade_data_query.Query.{TradeDataQuery}
use group_trade_data_query.Query.Codec.{
  encode_query, decode_query, encode_trade, decode_trade, encode_price, encode_quantity,
}
use group_trade_data_query.Engine.{
  open_engine, read_trade_data, midpoint, search, locate, scan, int_ceil,
}
use group_trade_data_query.Engine.Metrics.{
  visit, min_max_price_in_range, scale_up, scale_down, normalise, total_quantity_in_range,
  mean_price_in_range,
}
use group_trade_data_query.Engine.Aggregator.{
  interval_end, metric_bytes, interval_bytes, aggregate_from, aggregator,
}
use group_trade_data_query.Engine.Store.{opened, row}
use group_trade_data_query.Engine.Computed.{Answer, Covers}
use group_trade_data_query.Engine.Specified.{Specified}
use group_trade_data_query.Server.{ResultItem, count, count_header, received_query}
use group_trade_data_query.Server.Worker.{or_bits, metric_list, accumulate_from, process_work}
use group_trade_data_query.Server.Worker.Answers.{AsksAll}
use group_trade_data_query.Sockets.{Kernel, SysCall, codes}
use group_trade_data_query.Client.Decimals.{numbered}
use group_trade_data_query.Client.Sets.{answer_lines}
use group_trade_data_query.Client.Input.Numbers.{
  QueryText, QueryTextFits, query_text, query_of, at_text,
}
use group_trade_data_query.Client.Program.{Surroundings, Session, exit_success, client_main}
use group_trade_data_query.Service.{Exchanged, Arrives, client_main-process_work}
use group_trade_data_query.Examples.Toy.{
  toy, toy-IsOrdered, toy_steps, toy_scalable, toy-SumsFinite, three_trades, three_trades-IsSorted,
  three_trades-StoredFit, three_trades-PadsFit,
}

-- 258 5 30 10 8657043457
abbrev pub query_input : QueryText
query_input = record {
  symbol_id = record { blank = []; digits = codes "258" };
  start_time_point = record { blank = codes " "; digits = codes "5" };
  end_time_point = record { blank = codes "  "; digits = codes "30" };
  resolution = record { blank = codes " "; digits = codes "10" };
  metrics = record { blank = codes "\n"; digits = codes "8657043457" };
}

pub query_input-QueryTextFits : QueryTextFits query_input
query_input-QueryTextFits = record {
  symbol_id_fits = record {
    blank_is = tt;
    number_is = (refl, (refl, (refl, tt)));
    value_lt = omega arith;
  };
  start_fits = record { blank_is = (refl, tt); number_is = (refl, tt); value_lt = omega arith };
  end_fits = record {
    blank_is = (refl, (refl, tt));
    number_is = (refl, (refl, tt));
    value_lt = omega arith;
  };
  resolution_fits = record {
    blank_is = (refl, tt);
    number_is = (refl, (refl, tt));
    value_lt = omega arith;
  };
  metrics_fits = record {
    blank_is = (refl, tt);
    number_is = (refl, (refl, (refl, (refl, (refl, (refl, (refl, (refl, (refl, (refl, tt))))))))));
    value_lt = omega arith;
  };
  start_gap = omega arith;
  end_gap = omega arith;
  resolution_gap = omega arith;
  metrics_gap = omega arith;
}

abbrev pub unset_query : TradeDataQuery
unset_query = record {
  symbol_id = 1;
  start_time_point = 2;
  end_time_point = 3;
  resolution = 4;
  metrics = 5;
}

abbrev pub surroundings : Surroundings
surroundings = record {
  unset = unset_query;
  pad = 7;
  count_memory = 9 ∷ 9 ∷ 9 ∷ 9 ∷ [];
  answer = count 40;
}

-- Three intervals, of which the last has no trade.
abbrev pub result_bytes : List ℕ
result_bytes =
    7 ∷ 0 ∷ 0 ∷ 0 ∷ 0 ∷ 7 ∷ 0 ∷ 0 ∷ 0 ∷ 0 ∷ 0 ∷ 39 ∷ 185 ∷ 41 ∷ 248 ∷ 0 ∷ 148 ∷ 53 ∷ 119 ∷ 247 ∷ 5
    ∷ 0 ∷ 0 ∷ 0 ∷ 0 ∷ 5 ∷ 0 ∷ 0 ∷ 0 ∷ 0 ∷ 0 ∷ 101 ∷ 205 ∷ 29 ∷ 248 ∷ 0 ∷ 40 ∷ 107 ∷ 238 ∷ 247 ∷ 0
    ∷ 0 ∷ 0 ∷ 0 ∷ 0 ∷ 0 ∷ 0 ∷ 0 ∷ 0 ∷ 0 ∷ 0 ∷ 0 ∷ 0 ∷ 0 ∷ 0 ∷ 0 ∷ 0 ∷ 0 ∷ 0 ∷ 0 ∷ []

abbrev pub result : ResultItem
result = record { client_fd = 9; res = result_bytes }

abbrev pub forty_bytes : List ℕ
forty_bytes =
    1 ∷ 1 ∷ 1 ∷ 1 ∷ 1 ∷ 1 ∷ 1 ∷ 1 ∷ 1 ∷ 1 ∷ 1 ∷ 1 ∷ 1 ∷ 1 ∷ 1 ∷ 1 ∷ 1 ∷ 1 ∷ 1 ∷ 1 ∷ 1 ∷ 1 ∷ 1 ∷ 1
    ∷ 1 ∷ 1 ∷ 1 ∷ 1 ∷ 1 ∷ 1 ∷ 1 ∷ 1 ∷ 1 ∷ 1 ∷ 1 ∷ 1 ∷ 1 ∷ 1 ∷ 1 ∷ 1 ∷ []

pub three_answers :
    process_work toy toy_steps
      (opened three_trades)
      2
      4
      (record { client_fd = 9; query = query_of query_input })
    ≡ ok result
unfolding process_work accumulate_from aggregator aggregate_from interval_bytes metric_bytes
    min_max_price_in_range total_quantity_in_range mean_price_in_range normalise scale_up scale_down
    locate search scan visit read_trade_data open_engine midpoint add64 sub64 mul64 metric_list
    or_bits bit_set interval_end of_le le_bytes encode_price encode_quantity encode_trade
    decode_trade
three_answers = refl

received : received_query forty_bytes (encode_query 7 (query_of query_input)) ≡ query_of query_input
unfolding received_query encode_query decode_query le_bytes of_le
received = refl

worked :
    process_work toy toy_steps (opened three_trades) 2 4 (record {
      client_fd = 9;
      query = received_query forty_bytes (encode_query 7 (query_of query_input));
    })
    ≡ ok result
worked = rw received three_answers

abbrev willing : Kernel
willing done c = pos 5

abbrev localhost : List ℕ → Option ℕ
localhost text = some 0x0100_007f

abbrev session : Session
session = record {
  stdin = at_text (query_text query_input (codes "\n"));
  connection = record {
    segments = (count_header result_bytes ++ (7 ∷ [])) ∷ drop 1 result_bytes ∷ [];
    shut = true;
  };
  messages = [];
  printed = [];
}

exchanged : Exchanged surroundings session query_input (codes "\n")
exchanged = record {
  input = refl;
  text_fits = query_input-QueryTextFits;
  text_ends = refl;
  taken = refl;
  count_size = refl;
}

arrives : Arrives result_bytes (7 ∷ []) [] (drop 1 result_bytes ∷ []) session.connection
arrives = record { arrived = refl; none_empty = ((λ e. cc), tt); whole = refl }

asks_all : AsksAll 8_657_043_457
unfolding bit_set
asks_all = record { extremes_bit = refl; mean_bit = refl; quantity_bit = refl }

client_main-process_work_example :
    (answers : List Answer) × (s' : Session) × (calls : List SysCall) × Covers
      (Specified toy toy_steps (row three_trades) 3)
      (query_of query_input)
      5
      answers
    × (client_main true (λ i. surroundings) 1 willing session localhost 0 []
        ≡ (exit_success s', calls))
    × (s'.messages ≡ [] ++ (encode_query 7 (query_of query_input) ∷ []))
    × (s'.printed ≡ [] ++ (numbered 0 (map answer_lines answers) ∷ []))
unfolding int_ceil
client_main-process_work_example =
    client_main-process_work toy toy-IsOrdered toy_scalable toy-SumsFinite three_trades
      three_trades-StoredFit three_trades-PadsFit (omega arith) three_trades-IsSorted (omega arith)
      willing localhost 0 0x0100_007f [] (λ i. surroundings) 0 session
      (record { has_socket = refl; is_address = refl; accepts = refl }) query_input (codes "\n")
      exchanged (omega arith) (omega arith) asks_all (omega arith) 0 4 9 forty_bytes result refl
      (omega arith) worked (omega arith) (7 ∷ []) [] (drop 1 result_bytes ∷ []) arrives
