-- ===== src/Sockets/Connection.antt =====
-- How the start of a client ends: src/client/client.cc.
use group_trade_data_query.Common.{
  ℕ, refl, Option, none, some, List, [], ◌∷◌, Option-cases, inl, inr,
}
use group_trade_data_query.Common.Int.{ℤ}
use group_trade_data_query.Sockets.{
  stream, socket, connect, Kernel, codes, create_address, create_socket, check_error,
}
use group_trade_data_query.Sockets.Client.{new_client, create_server_address, connect_to_server}
use group_trade_data_query.Sockets.Outcomes.{
  Planned, must, refuse, Follows, finished, refused, checked,
}

module _ (kernel : Kernel) (memory port : ℕ) (server_ip : List ℕ) where
  abbrev sock : ℤ
  sock = kernel [] (socket stream)

  abbrev pub connect_plan : Option ℕ → List Planned
  connect_plan none = refuse (codes "Invalid address/ Address not supported\n") ∷ []
  connect_plan (some sin_addr) =
      must (connect sock (record (create_address memory port) { sin_addr = sin_addr }))
        (codes "Connection Failed.\n")
      ∷ []

  -- For every reading of the address, the constructor asks for a socket first; then it throws if the
  -- text is no address, without another call, and otherwise connects to the address and to the port
  -- modulo 2 ^ 16; it throws the message of the first call that fails, and otherwise returns the
  -- socket.
  pub new_client-Follows :
      (inet_pton : List ℕ → Option ℕ)
      → Follows kernel sock []
          (must (socket stream) (codes "Socket creation error\n")
            ∷ connect_plan (inet_pton server_ip))
          (new_client inet_pton memory port server_ip kernel [])
  unfolding new_client create_socket create_server_address connect_to_server check_error
  new_client-Follows inet_pton =
      checked kernel _ _ _ _ _ _ (λ bad. rw bad refl)
        (λ good. rw good (elim (Option-cases (inet_pton server_ip)) [
          | inl e ↦ rw (create_server_address, e) (refused _ _ _)
          | inr (addr, e) ↦
              rw (create_server_address, e)
                (checked kernel _ _ _ _ _ _ (λ bad. rw bad refl) (λ good'. rw good' (finished _)))
        ]))
