-- ===== src/Lib.antt =====
-- Trade data query: a server that answers queries on a file of trades, and its clients.
--
-- A data file is an array of trades, in the order of their times. A client sends a query (a range
-- of times, a resolution and the metrics that it wants) over TCP. The server's event loop reads it
-- and puts it on the work queue; a worker thread takes it, cuts the range into intervals of the
-- resolution and asks its query engine for the metrics of each; the bytes of all intervals are one
-- result, which goes back to the event loop through the results queue. The event loop sends a count
-- and then the bytes, keeps what the socket does not take, and sends the rest when the socket is
-- writable again. The client reads the count and the bytes and prints them, set by set.
--
-- The files, by part of the program:
--
-- Common.antt: tests, lists, words and the outcome of a call, shared by all parts. A call that
--   returns is `ok`, one that throws or fails an assertion is `err`; `timeout` is no outcome of the
--   program but the end of a loop's fuel, or a call that waits for ever.
-- Query.antt: the structs of src/utils/query.h. Query/Layout computes where the compiler puts their
--   members (`#pragma pack(2)` is in force for TradeData, which has 31 bytes of members and 32 in
--   all). Query/Codec has their bytes in files and on sockets, padding being an argument;
--   Query/Codec/Image is about these bytes and the layout.
-- Engine.antt: src/query_engine/query_engine.cc. `open_engine` is the constructor, with the bytes
--   of the file; `read_trade_data` is the method of that name; `locate` is the pair of binary
--   searches that three methods share, `scan` their loop. Engine/Metrics has
--   `min_max_price_in_range`, `total_quantity_in_range` and `mean_price_in_range`;
--   Engine/Aggregator has `aggregator`. A `double` is any type with the operations of
--   Engine/Double. The other files below Engine are about: a file that holds given trades (Store),
--   which trades a scan visits (Search, Window and Coverage), the metrics (MinMax, Totals and
--   Scaling; Decimal says without loops what a double is scaled to), the raw data (Raw), the
--   aggregator (Buffer) and files of any size (Overcount). Engine/Computed reads the bytes of the
--   aggregator as the answers of the intervals, Engine/Fits says that their numbers fit their
--   types, and Engine/Specified what they are in terms of the trades. `Holds` of Engine/Search asks
--   that `trades_size`, which the constructor computes as the size of the file divided by 31, is
--   the number of trades; `Overcounts` of Engine/Overcount asks that it is not less.
-- Queue.antt: src/server/TS-queue.h and src/utils/mt_queue.h; Queue/Laws has the steps of the
--   threads that share a queue.
-- Server.antt: src/server/server.cc, server.h and utils-server.h. The state is the listening
--   descriptor, the two queues, `write_buffers_` and a log of the calls that change something
--   outside. `turn` is one turn of `EpollServer::run`, `dispatch` the choice of a handler, and
--   `handle_read`, `handle_write`, `process_results` and `send_result` are the methods of those
--   names; what the kernel answers to recv and send is an argument. Server/Buffers is about what
--   the handlers keep, Server/Stream and Server/SendResult about the bytes that a client has
--   received or is still owed, Server/Delivery about a result that is sent in pieces and
--   Server/Starved about events that are both readable and writable. Server/Queries is about the
--   queries that a client sends, Server/Served about one query from the socket to the answer, and
--   Server/Loop has `run` with the failures of the calls of the loop itself; Server/Loop/Asked is
--   about a run with several clients.
--   Server/Worker has `worker_thread_loop` for one work item; Server/Worker/Intervals,
--   Server/Worker/Forever, Server/Worker/Answers and Server/Worker/AnyFile are about what it
--   computes, and Server/Pool has the steps of all workers together.
-- Sockets.antt: the calls of the operating system at the start of the programs. A kernel is a
--   function from the calls made so far and the next one to its answer. Sockets/Server has the
--   constructors of the servers, `bind_server`, `add_to_epoll`, `make_non_blocking` and `main` of
--   src/server_main.cc; Sockets/Client has the constructors of the clients. Sockets/Outcomes says
--   what it is to follow a plan of calls; Sockets/Start and Sockets/Connection are about servers
--   and clients.
-- Client.antt: `send_message` of src/client/client.cc; Client/Receive has its `read_struct`, with
--   the segments that arrive as an argument, Client/Input what std::cin reads, Client/Program the
--   loop and `main` of src/client_main.cc, Client/Display the values that are printed of an answer
--   and Client/Text their characters. Client/Framing is about what a client reads of an answer, and
--   Client/Decimals, Client/Sets and Client/Skipped about what it prints.
-- Csv.antt: `parse_csv` of process_data/process_data_main.cc, which makes the data file of a CSV
--   file; Csv/Number has stoul and stoi, Csv/Output `main` and the path of the output. Csv/Fields
--   is about one line, and Csv/Rows about a whole file. Csv/Check has process_data/check.cc.
-- Sender.antt: src/server/sender.cc and receiver.cc, helpers of an earlier server. Sender/Fifo is
--   about the order of the sends.
-- Udp.antt: src/server_udp/server_udp.cc and sender_udp.cc and src/client_udp/client_udp.cc; the
--   engine's lowest_and_highest_prices, which has no definition, is a parameter. The queue of
--   sender_udp.cc is the one of sender.cc. Udp/Exchange is about a client and the server together.
--   Udp/Loop has `EpollServer::run`, and Udp/Loop/Backlog is about the queries that it answers and
--   those that it leaves in the socket. Udp/Program has src/client_main_udp.cc, and
--   Udp/Program/Stale is about the replies that it does not read or misreads.
-- Service.antt: the TCP client and the server together, from the text of a query to the lines that
--   are printed.
-- Examples.antt: concrete inputs, with a stand-in for doubles, and the theorems at them.
--
-- Numbers: a field of an unsigned type is a natural number, and every 64-bit sum, difference and
-- product is written with its remainder by 2 ^ 64. An `int8_t` is its bit pattern.
--
-- Fuel: a binary search takes 65, one more than the halvings of a range below 2 ^ 64. The loop that
-- scales up takes 19, since its exponent goes from 0 down to -18. The loop that scales down takes
-- the number of divisions by ten that bring any amount below 2 ^ 32, a number that the laws of
-- doubles name. The loops over intervals take one more than the number of intervals.
--
-- Text: characters are their codes, and the bytes of the sources' texts are ASCII.
--
-- Not modelled: logging, messages on the standard error except the reason why no connection is made,
-- the start of threads beyond their number, a stream's state after a read that threw, what a kernel
-- does with the calls, and the drivers of tests.
pub mod Common
pub mod Query
pub mod Engine
pub mod Queue
pub mod Server
pub mod Client
pub mod Csv
pub mod Sender
pub mod Udp
pub mod Sockets
pub mod Service
mod Examples
