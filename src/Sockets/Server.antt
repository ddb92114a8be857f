-- ===== src/Sockets/Server.antt =====
-- The start of the servers: the constructors and the functions that they call, of src/server/server.cc and of
-- src/server_udp/server_udp.cc.
use group_trade_data_query.Common.{ℕ, bit_or}
use group_trade_data_query.Common.Int.{ℤ, pos, pos_part}
use group_trade_data_query.Server.{Events, watch_read, watch_read_edge}
use group_trade_data_query.Sockets.{
  SocketAddress, Transport, stream, datagram, epoll_create1, reuse_addr, reuse_port, get_flags,
  set_flags, bind, epoll_add, listen, close, Sys, ◌>>=◌, ◌>>◌, pure, call, codes, is_negative,
  is_minus_one, check_error, create_socket, create_address,
}

-- O_NONBLOCK of Linux.
abbrev pub o_nonblock : ℕ
o_nonblock = 2048

-- What the constructor leaves, with the number of threads that it has started.
pub record Started : Type 0 where
  pub server_address : SocketAddress
  pub server_listen_fd : ℤ
  pub epoll_fd : ℤ
  pub worker_threads : ℕ

unfoldable pub make_non_blocking : ℤ → Sys (Unit {0})
unfolding check_error
make_non_blocking sock = do
  flags ← call (get_flags sock)
  check_error (is_minus_one flags) (codes "Failed to get socket flags")
  answer ← call (set_flags sock (bit_or (pos_part flags) o_nonblock))
  check_error (is_minus_one answer) (codes "Failed to set socket to non-blocking")

unfoldable pub bind_server : ℤ → SocketAddress → Sys (Unit {0})
unfolding check_error
bind_server server_listen_fd server_address = do
  answer ← call (bind server_listen_fd server_address)
  check_error (is_negative answer) (codes "Failed to bind server socket")

unfoldable pub add_to_epoll : ℤ → ℤ → Events → Sys (Unit {0})
unfolding check_error
add_to_epoll epoll_fd sock events = do
  answer ← call (epoll_add epoll_fd sock events)
  check_error (is_minus_one answer) (codes "Failed to add socket to epoll")

-- The body that the two constructors share. The answer of epoll_create1 is not looked at.
unfoldable pub open_server : Transport → Events → ℕ → ℕ → ℕ → Sys Started
unfolding create_socket create_address make_non_blocking bind_server add_to_epoll check_error
open_server transport events threads memory port = do
  let server_address = create_address memory port
  server_listen_fd ← create_socket transport
  epoll_fd ← call epoll_create1
  first ← call (reuse_addr server_listen_fd)
  check_error (is_negative first) (codes "Failed to set SO_REUSEADDR")
  second ← call (reuse_port server_listen_fd)
  check_error (is_negative second) (codes "Failed to set SO_REUSEPORT")
  make_non_blocking server_listen_fd
  bind_server server_listen_fd server_address
  add_to_epoll epoll_fd server_listen_fd events
  pure (record {
    server_address = server_address;
    server_listen_fd = server_listen_fd;
    epoll_fd = epoll_fd;
    worker_threads = threads;
  })

-- for (int i = 0; i < num_worker_threads; ++i): no thread if the number is negative.
unfoldable pub new_server : ℕ → ℕ → ℤ → Sys Started
unfolding open_server
new_server memory port num_worker_threads =
    open_server stream watch_read (pos_part num_worker_threads) memory port

unfoldable pub new_udp_server : ℕ → ℕ → Sys Started
unfolding open_server
new_udp_server memory port = open_server datagram watch_read_edge 0 memory port

-- `EpollServer::run` up to its loop.
unfoldable pub start_listening : Started → Sys (Unit {0})
unfolding check_error
start_listening s = do
  answer ← call (listen s.server_listen_fd)
  check_error (is_negative answer) (codes "Failed to listen on server socket")

-- The destructor.
unfoldable pub close_server : Started → Sys (Unit {0})
close_server s = do call (close s.server_listen_fd); call (close s.epoll_fd); pure tt

-- `main` of src/server_main.cc, up to the loop.
unfoldable pub server_main : ℕ → Sys Started
unfolding new_server start_listening
server_main memory = do
  server ← new_server memory 8080 (pos 31)
  start_listening server
  pure server
