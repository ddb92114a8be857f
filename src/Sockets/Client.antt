-- ===== src/Sockets/Client.antt =====
-- The constructors and the destructor of client::Client, of src/client/client.cc and src/client_udp/client_udp.cc.
use group_trade_data_query.Common.{ℕ, true, false, Option, none, some, List}
use group_trade_data_query.Common.Int.{ℤ}
use group_trade_data_query.Sockets.{
  SocketAddress, stream, datagram, connect, close, Sys, ◌>>=◌, ◌>>◌, pure, call, codes, is_negative,
  check_error, create_socket, create_address,
}

-- `inet_pton` gives the address that a text stands for, if it is one.
module _ (inet_pton : List ℕ → Option ℕ) where
  unfoldable pub create_server_address : ℕ → List ℕ → ℕ → Sys SocketAddress
  unfolding create_address check_error
  create_server_address memory server_ip port = elim (inet_pton server_ip) [
    | none ↦ do
      check_error true (codes "Invalid address/ Address not supported\n")
      pure (create_address memory port)
    | some sin_addr ↦ do
      check_error false (codes "Invalid address/ Address not supported\n")
      pure (record (create_address memory port) { sin_addr = sin_addr })
  ]

  unfoldable pub connect_to_server : ℤ → SocketAddress → Sys (Unit {0})
  unfolding check_error
  connect_to_server sock server_address = do
    err_code ← call (connect sock server_address)
    check_error (is_negative err_code) (codes "Connection Failed.\n")

  -- The constructor, to the socket that it keeps.
  unfoldable pub new_client : ℕ → ℕ → List ℕ → Sys ℤ
  unfolding create_server_address connect_to_server create_socket
  new_client memory port server_address = do
    sock ← create_socket stream
    address ← create_server_address memory server_address port
    connect_to_server sock address
    pure sock

  -- The constructor of the UDP client, to its socket and the address of the server.
  unfoldable pub new_udp_client : ℕ → ℕ → List ℕ → Sys (ℤ × SocketAddress)
  unfolding create_server_address create_socket
  new_udp_client memory port server_address = do
    sock ← create_socket datagram
    address ← create_server_address memory server_address port
    pure (sock, address)

-- The destructor.
unfoldable pub close_client : ℤ → Sys (Unit {0})
close_client sock = do call (close sock); pure tt
