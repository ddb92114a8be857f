-- ===== src/Client/Program/Main.antt =====
-- `main` of src/client_main.cc as a whole.
use group_trade_data_query.Common.{
  ℕ, suc, ◌≡◌, refl, ap, Bool, true, false, Option, none, some, List, [], ◌∷◌,
}
use group_trade_data_query.Common.Int.{ℤ}
use group_trade_data_query.Common.Run.{ok}
use group_trade_data_query.Sockets.{
  SocketAddress, stream, SysCall, socket, connect, close, Kernel, returned, thrown, codes,
  is_negative, create_address, create_socket, check_error,
}
use group_trade_data_query.Sockets.Client.{
  new_client, create_server_address, connect_to_server, close_client,
}
use group_trade_data_query.Client.Program.{
  Surroundings, Session, not_connected, exit_success, client_round, client_loop, server_ip, port,
  client_main,
}

client_loop_once :
    (given : ℕ → Surroundings) (rounds : ℕ) (s s' : Session)
    → client_round (given 0) s ≡ (s', ok tt)
    → client_loop true given (suc rounds) 0 s ≡ (s', ok tt)
unfolding client_loop
client_loop_once given rounds s s' once =
    rw (client_loop, ap (λ x. x.1) once) (ap (λ x. (x.0, ok tt)) once)

module _ (kernel : Kernel) (inet_pton : List ℕ → Option ℕ) (memory : ℕ) (args : List (List ℕ)) where
  abbrev pub client_fd : ℤ
  client_fd = kernel [] (socket stream)

  -- Where the client connects to.
  abbrev pub server_at : ℕ → SocketAddress
  server_at sin_addr = record (create_address memory (port args)) { sin_addr = sin_addr }

  -- The kernel gives a socket, the address is one, and the connection is made.
  pub record Connects (sin_addr : ℕ) : Type 0 where
    pub has_socket : is_negative client_fd ≡ false
    pub is_address : inet_pton (server_ip args) ≡ some sin_addr
    pub accepts :
        is_negative (kernel (socket stream ∷ []) (connect client_fd (server_at sin_addr))) ≡ false

  new_client-returned :
      (sin_addr : ℕ)
      → Connects sin_addr
      → new_client inet_pton memory (port args) (server_ip args) kernel []
        ≡ (returned client_fd, socket stream ∷ connect client_fd (server_at sin_addr) ∷ [])
  unfolding new_client create_socket create_server_address connect_to_server check_error
  new_client-returned sin_addr h =
      rw (h.has_socket, create_server_address, h.is_address, h.accepts) refl

  -- If the connection is made and the first round of the loop prints an answer, the client built with
  -- TESTMODE ends with success after that round and closes its socket.
  pub client_main_once :
      (given : ℕ → Surroundings) (rounds sin_addr : ℕ) (s s' : Session)
      → Connects sin_addr
      → client_round (given 0) s ≡ (s', ok tt)
      → client_main true given (suc rounds) kernel s inet_pton memory args ≡ (
        exit_success s',
        socket stream ∷ connect client_fd (server_at sin_addr) ∷ close client_fd ∷ [],
      )
  unfolding client_main close_client
  client_main_once given rounds sin_addr s s' h once =
      rw (new_client-returned sin_addr h, client_loop_once given rounds s s' once) refl

  -- How an attempt to connect fails, with the message and the calls: there is no socket, the text is no address,
  -- or the server is not reached.
  pub data Fails : List ℕ → List SysCall → Type 0 where
    no_socket :
        is_negative client_fd ≡ true → Fails (codes "Socket creation error\n") (socket stream ∷ [])
    no_address :
        is_negative client_fd ≡ false
        → inet_pton (server_ip args) ≡ none
        → Fails (codes "Invalid address/ Address not supported\n") (socket stream ∷ [])
    no_server :
        (sin_addr : ℕ)
        → is_negative client_fd ≡ false
        → inet_pton (server_ip args) ≡ some sin_addr
        → is_negative (kernel (socket stream ∷ []) (connect client_fd (server_at sin_addr))) ≡ true
        → Fails
            (codes "Connection Failed.\n")
            (socket stream ∷ connect client_fd (server_at sin_addr) ∷ [])

  new_client-thrown :
      (message : List ℕ) (log : List SysCall)
      → Fails message log
      → new_client inet_pton memory (port args) (server_ip args) kernel [] ≡ (thrown message, log)
  unfolding new_client create_socket create_server_address connect_to_server check_error
  new_client-thrown message log (no_socket bad) = rw bad refl
  new_client-thrown message log (no_address good none_at) =
      rw (good, create_server_address, none_at) refl
  new_client-thrown message log (no_server sin_addr good at refuses) =
      rw (good, create_server_address, at, refuses) refl

  -- If there is no socket, no address or no server, the client ends with EXIT_FAILURE and the message of
  -- the first failure, and reads no query; a socket that it was given is not closed.
  pub client_main_fails :
      (testmode : Bool) (given : ℕ → Surroundings) (rounds : ℕ) (s : Session) (message : List ℕ)
      (log : List SysCall)
      → Fails message log
      → client_main testmode given rounds kernel s inet_pton memory args
        ≡ (not_connected message, log)
  unfolding client_main
  client_main_fails testmode given rounds s message log h =
      rw (new_client-thrown message log h) refl
