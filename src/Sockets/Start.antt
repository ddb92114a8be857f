-- ===== src/Sockets/Start.antt =====
-- How the start of the server ends: src/server/server.cc, src/server_udp/server_udp.cc and src/server_main.cc.
use group_trade_data_query.Common.{ℕ, refl, List, [], ◌∷◌, ◌++◌, bit_or}
use group_trade_data_query.Common.Int.{ℤ, pos_part}
use group_trade_data_query.Server.{Events, watch_read}
use group_trade_data_query.Sockets.{
  Transport, stream, SysCall, ◌>>=◌, pure, listen, socket, epoll_create1, reuse_addr, reuse_port,
  get_flags, set_flags, bind, epoll_add, Kernel, codes, create_address, create_socket, check_error,
}
use group_trade_data_query.Sockets.Server.{
  o_nonblock, Started, server_main, new_server, start_listening, open_server, make_non_blocking,
  bind_server, add_to_epoll,
}
use group_trade_data_query.Sockets.Outcomes.{
  Planned, must, may, Follows, finished, unchecked, checked, SignalsByMinusOne, calls,
  Follows-append,
}

module _ (kernel : Kernel) (transport : Transport) (events : Events) (threads memory port : ℕ) where
  abbrev listen_fd : ℤ
  listen_fd = kernel [] (socket transport)

  abbrev epoll_fd : ℤ
  epoll_fd = kernel (socket transport ∷ []) epoll_create1

  abbrev before_flags : List SysCall
  before_flags = socket transport ∷ epoll_create1 ∷ reuse_addr listen_fd ∷ reuse_port listen_fd ∷ []

  abbrev flags : ℕ
  flags = pos_part (kernel before_flags (get_flags listen_fd))

  abbrev pub server_plan : List Planned
  server_plan =
      must (socket transport) (codes "Socket creation error\n")
      ∷ may epoll_create1
      ∷ must (reuse_addr listen_fd) (codes "Failed to set SO_REUSEADDR")
      ∷ must (reuse_port listen_fd) (codes "Failed to set SO_REUSEPORT")
      ∷ must (get_flags listen_fd) (codes "Failed to get socket flags")
      ∷ must (set_flags listen_fd (bit_or flags o_nonblock))
          (codes "Failed to set socket to non-blocking")
      ∷ must (bind listen_fd (create_address memory port)) (codes "Failed to bind server socket")
      ∷ must (epoll_add epoll_fd listen_fd events) (codes "Failed to add socket to epoll")
      ∷ []

  abbrev pub started : Started
  started = record {
    server_address = create_address memory port;
    server_listen_fd = listen_fd;
    epoll_fd = epoll_fd;
    worker_threads = threads;
  }

  -- If the kernel signals errors by -1, the constructor makes its calls in the order of the plan; it
  -- throws the message of the first call that fails, after which no call is made, except that a
  -- failure of epoll_create1 is passed over; and otherwise it returns the server, its socket
  -- non-blocking, bound and watched.
  pub open_server-Follows :
      SignalsByMinusOne kernel
      → Follows kernel started [] server_plan
          (open_server transport events threads memory port kernel [])
  unfolding open_server create_socket make_non_blocking bind_server add_to_epoll check_error
  open_server-Follows signals =
      checked kernel _ _ _ _ _ _ (λ bad. rw bad refl)
        (λ good. rw good (
          unchecked _ _ _ _ (
            checked kernel _ _ _ _ _ _ (λ bad. rw bad refl)
              (λ good. rw good (
                checked kernel _ _ _ _ _ _ (λ bad. rw bad refl)
                  (λ good. rw good (
                    checked kernel _ _ _ _ _ _ (λ bad. rw (signals _ _, bad) refl)
                      (λ good.
                        rw (signals _ _, good)
                          (checked kernel _ _ _ _ _ _ (λ bad. rw (signals _ _, bad) refl)
                            (λ good.
                              rw (signals _ _, good)
                                (checked kernel _ _ _ _ _ _ (λ bad. rw bad refl)
                                  (λ good. rw good (
                                    checked kernel _ _ _ _ _ _ (λ bad. rw (signals _ _, bad) refl)
                                      (λ good. rw (signals _ _, good) (finished _)))))))))))))))

module _ (kernel : Kernel) (memory : ℕ) where
  abbrev pub main_plan : List Planned
  main_plan = server_plan kernel stream watch_read 31 memory 8080

  abbrev pub main_server : Started
  main_server = started kernel stream watch_read 31 memory 8080

  listening-Follows :
      (log : List SysCall)
      → Follows kernel main_server log
          (must (listen main_server.server_listen_fd) (codes "Failed to listen on server socket")
            ∷ [])
          ((start_listening main_server >>= λ _. pure main_server) kernel log)
  unfolding start_listening check_error
  listening-Follows log =
      checked kernel _ _ _ _ _ _ (λ bad. rw bad refl) (λ good. rw good (finished _))

  -- If the kernel signals errors by -1, the program of the server makes the calls that open port 8080 for
  -- 31 workers, in the order of the plan, and then the one that listens; it throws the message of the
  -- first call that fails, after which no call is made, except that a failure of epoll_create1 is passed
  -- over; and otherwise it goes on to its loop.
  pub server_main-Follows :
      SignalsByMinusOne kernel
      → Follows kernel main_server []
          (main_plan
            ++ (must
                  (listen main_server.server_listen_fd)
                  (codes "Failed to listen on server socket")
                ∷ []))
          (server_main memory kernel [])
  unfolding server_main new_server
  server_main-Follows signals =
      Follows-append kernel main_server main_server
        (λ server. start_listening server >>= λ _. pure server) [] main_plan _ _
        (open_server-Follows kernel stream watch_read 31 memory 8080 signals)
        (listening-Follows (calls main_plan))
