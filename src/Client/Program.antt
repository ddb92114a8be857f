-- ===== src/Client/Program.antt =====
-- `main` of src/client_main.cc: the arguments, the connection and the loop over the queries.
pub mod Rounds
pub mod Main
use group_trade_data_query.Common.{
  ℕ, zero, suc, ◌+◌, Bool, true, false, Option, List, [], ◌∷◌, ◌++◌,
}
use group_trade_data_query.Common.Int.{ℤ}
use group_trade_data_query.Common.Run.{Run, Error, ok, err, timeout, ◌>>=◌}
use group_trade_data_query.Query.{TradeDataQuery}
use group_trade_data_query.Csv.Number.{stoi}
use group_trade_data_query.Server.{Sent}
use group_trade_data_query.Sockets.{SysCall, Kernel, Outcome, returned, thrown, codes}
use group_trade_data_query.Sockets.Client.{new_client, close_client}
use group_trade_data_query.Client.{send_message}
use group_trade_data_query.Client.Receive.{Socket, read_struct}
use group_trade_data_query.Client.Input.{Stdin, read_query}
use group_trade_data_query.Client.Display.{Line, display}

-- What a round of the loop finds: the query before it is read, which is not set, and its padding, the count
-- before it is received, and the answer to `send`.
pub record Surroundings : Type 0 where
  pub unset : TradeDataQuery
  pub pad : ℕ
  pub count_memory : List ℕ
  pub answer : Sent

-- The standard input, what arrives on the connection, the messages that `send` was given, and what was
-- printed.
pub record Session : Type 0 where
  pub stdin : Stdin
  pub connection : Socket
  pub messages : List (List ℕ)
  pub printed : List (List Line)

-- std::vector<char>, as it is read byte by byte.
abbrev pub concat : List (List ℕ) → List ℕ
concat [] = []
concat (bs ∷ rest) = bs ++ concat rest

-- A round after the query was sent.
unfoldable pub print_answer : List ℕ → ℕ → Session → Run Session
print_answer count_memory metrics s = do
  (output, connection) ← read_struct count_memory 1 s.connection
  lines ← display metrics (concat output)
  ok (record s { connection = connection; printed = s.printed ++ (lines ∷ []) })

-- The session at the end of a round: the one before, if the round threw.
abbrev pub settle : Session → Run Session → Session × Run (Unit {0})
settle before (ok s) = (s, ok tt)
settle before (err x) = (before, err x)
settle before timeout = (before, timeout)

abbrev pub after_send : Surroundings → ℕ → Session → Run (Unit {0}) → Session × Run (Unit {0})
after_send given metrics s (ok _) = settle s (print_answer given.count_memory metrics s)
after_send given metrics s (err x) = (s, err x)
after_send given metrics s timeout = (s, timeout)

-- A round after the query was read.
abbrev pub after_read : Surroundings → Session → TradeDataQuery × Stdin → Session × Run (Unit {0})
after_read given s (query, stdin) =
    let (message, sending) = send_message given.pad query given.answer in
    after_send given query.metrics
      (record s { stdin = stdin; messages = s.messages ++ (message ∷ []) }) sending

-- The body of `while (g_client_running)`.
unfoldable pub client_round : Surroundings → Session → Session × Run (Unit {0})
unfolding read_query send_message print_answer
client_round given s = after_read given s (read_query given.unset s.stdin)

-- The loop, of which nothing but TESTMODE ends; `rounds` is its fuel.
unfoldable pub client_loop : Bool → (ℕ → Surroundings) → ℕ → ℕ → Session → Session × Run (Unit {0})
unfolding client_round
client_loop testmode given zero i s = (s, timeout)
client_loop testmode given (suc rounds) i s =
    let (s', end) = client_round (given i) s in
    elim end [
      | err x ↦ (s', err x)
      | timeout ↦ (s', timeout)
      | ok _ ↦ elim testmode [
        | true ↦ (s', ok tt)
        | false ↦ client_loop testmode given rounds (i + 1) s'
      ]
    ]

-- argv[1], if there is one.
unfoldable pub server_ip : List (List ℕ) → List ℕ
server_ip [] = codes "127.0.0.1"
server_ip (ip ∷ rest) = ip

abbrev pub default_port : ℕ
default_port = 8080

abbrev or_default : Run ℕ → ℕ
or_default (ok n) = n
or_default (err x) = default_port
or_default timeout = default_port

-- std::stoi(argv[2]), if there is one; the port stays as it is if it throws.
unfoldable pub port : List (List ℕ) → ℕ
unfolding stoi
port [] = default_port
port (ip ∷ []) = default_port
port (ip ∷ text ∷ rest) = or_default (stoi text)

-- How the program ends: with EXIT_FAILURE and a message, with EXIT_SUCCESS, by an exception that nobody
-- catches, or not at all.
pub data Ending : Type 0 where
  not_connected : List ℕ → Ending
  exit_success : Session → Ending
  aborted : Session → Error → Ending
  running : Session → Ending

module _ (testmode : Bool) (given : ℕ → Surroundings) (rounds : ℕ) (kernel : Kernel)
    (session : Session) where
  -- The destructor of the client runs at the end of `main`, and not if an exception escapes.
  abbrev pub leave : ℤ → List SysCall → Session × Run (Unit {0}) → Ending × List SysCall
  leave client log (s, ok _) = (exit_success s, (close_client client kernel log).1)
  leave client log (s, err x) = (aborted s x, log)
  leave client log (s, timeout) = (running s, log)

  abbrev pub connected : Outcome ℤ × List SysCall → Ending × List SysCall
  connected (thrown message, log) = (not_connected message, log)
  connected (returned client, log) = leave client log (client_loop testmode given rounds 0 session)

  unfoldable pub client_main : (List ℕ → Option ℕ) → ℕ → List (List ℕ) → Ending × List SysCall
  unfolding client_loop new_client close_client server_ip port
  client_main inet_pton memory args =
      connected (new_client inet_pton memory (port args) (server_ip args) kernel [])
