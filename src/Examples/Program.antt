-- ===== src/Examples/Program.antt =====
-- The theorems on the start of the programs and on src/client_main.cc at small inputs.
use group_trade_data_query.Common.{
  ℕ, ◌≤◌, ◌≡◌, ◌≢◌, refl, true, false, Option, none, List, [], ◌∷◌, ◌++◌,
}
use group_trade_data_query.Common.Int.{pos, negsuc}
use group_trade_data_query.Common.Run.{ok}
use group_trade_data_query.Sockets.{Kernel, bind, listen, socket, stream, codes}
use group_trade_data_query.Sockets.Server.{server_main}
use group_trade_data_query.Sockets.Client.{new_client}
use group_trade_data_query.Sockets.Outcomes.{Follows, SignalsByMinusOne, must}
use group_trade_data_query.Sockets.Start.{main_plan, main_server, server_main-Follows}
use group_trade_data_query.Sockets.Connection.{connect_plan, new_client-Follows}
use group_trade_data_query.Client.Input.{read_query}
use group_trade_data_query.Client.Input.Numbers.{at_text, query_text, query_of, read_query-numbers}
use group_trade_data_query.Client.Program.{Session, client_loop}
use group_trade_data_query.Client.Program.Rounds.{unset_messages, client_loop_unset}
use group_trade_data_query.Examples.Service.{
  query_input, query_input-QueryTextFits, unset_query, surroundings,
}

-- The port is taken.
abbrev busy_port : Kernel
busy_port done (bind fd address) = negsuc 0
busy_port done c = pos 4

busy_port-SignalsByMinusOne : SignalsByMinusOne busy_port
busy_port-SignalsByMinusOne done (bind fd address) = refl
busy_port-SignalsByMinusOne done c = refl

server_main-Follows_example :
    Follows busy_port
      (main_server busy_port 0)
      []
      (main_plan busy_port 0
        ++ (must (listen (pos 4)) (codes "Failed to listen on server socket") ∷ []))
      (server_main 0 busy_port [])
server_main-Follows_example = server_main-Follows busy_port 0 busy_port-SignalsByMinusOne

abbrev no_address : List ℕ → Option ℕ
no_address text = none

new_client-Follows_example :
    Follows busy_port
      (pos 4)
      []
      (must (socket stream) (codes "Socket creation error\n")
        ∷ connect_plan busy_port 0 8080 (codes "nowhere") none)
      (new_client no_address 0 8080 (codes "nowhere") busy_port [])
new_client-Follows_example = new_client-Follows busy_port 0 8080 (codes "nowhere") no_address

read_query-numbers_example :
    read_query unset_query (at_text (query_text query_input (codes "\n")))
    ≡ (query_of query_input, at_text (codes "\n"))
read_query-numbers_example =
    read_query-numbers unset_query query_input (codes "\n") query_input-QueryTextFits refl

-- The end of the input was met.
abbrev ended : Session
ended = record {
  stdin = record { rest = []; failed = true };
  connection = record { segments = (0 ∷ 0 ∷ 0 ∷ 0 ∷ []) ∷ []; shut = true };
  messages = [];
  printed = [];
}

client_loop_unset_example :
    let end = client_loop false (λ i. surroundings) 3 0 ended in
    (end.1 ≢ ok tt)
    × ((n : ℕ) × (n ≤ 3) × (end.0.messages ≡ [] ++ unset_messages (λ i. surroundings) n 0))
client_loop_unset_example = client_loop_unset (λ i. surroundings) 3 0 ended refl
