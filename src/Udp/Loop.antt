-- ===== src/Udp/Loop.antt =====
-- `EpollServer::run` of src/server_udp/server_udp.cc: one datagram is read for an event.
pub mod Backlog
use group_trade_data_query.Common.{ℕ, List, [], ◌∷◌, ◌++◌, ◌==◌, if◌then◌else◌, drop}
use group_trade_data_query.Common.Run.{Run, ok, err, timeout, runtime_error, and_then}
use group_trade_data_query.Query.{TradeDataQuery, Result}
use group_trade_data_query.Server.{Sent}
use group_trade_data_query.Udp.{Datagram, Arrival, recvfrom_failed, udp_event}

-- An event of `epoll_wait`: its descriptor, what the variable `query` holds, and the answers to `sendto`.
pub record UdpEvent : Type 0 where
  pub fd : ℕ
  pub memory : List ℕ
  pub answers : ℕ → Sent

pub data UdpWaited : Type 0 where
  udp_events : List UdpEvent → UdpWaited
  udp_wait_failed : UdpWaited

-- What recvfrom will give, and the datagrams that were sent.
pub record UdpServer : Type 0 where
  pub server_listen_fd : ℕ
  pub arrivals : List Arrival
  pub datagrams : List Datagram

-- Without a datagram recvfrom fails, since the socket does not block.
unfoldable pub next_arrival : List Arrival → Arrival
next_arrival [] = recvfrom_failed
next_arrival (arrival ∷ rest) = arrival

module _ (lowest_and_highest_prices : TradeDataQuery → List Result) where
  unfoldable pub handle_udp_event : UdpEvent → UdpServer → UdpServer × Run (Unit {0})
  unfolding udp_event next_arrival
  handle_udp_event event s =
      let reply =
        udp_event lowest_and_highest_prices s.server_listen_fd event.memory event.fd
          (next_arrival s.arrivals) event.answers in
      (
        record s {
          arrivals = if event.fd == s.server_listen_fd then drop 1 s.arrivals else s.arrivals;
          datagrams = s.datagrams ++ reply.0;
        },
        reply.1,
      )

  -- for (int32_t i = 0; i < n; ++i)
  unfoldable pub handle_udp_events : List UdpEvent → UdpServer → UdpServer × Run (Unit {0})
  unfolding handle_udp_event
  handle_udp_events [] s = (s, ok tt)
  handle_udp_events (event ∷ rest) s = and_then (handle_udp_event event s) (handle_udp_events rest)

  -- `while (true)`: after the answers to `epoll_wait` that are given the server runs on.
  unfoldable pub run_udp : List UdpWaited → UdpServer → UdpServer × Run (Unit {0})
  unfolding handle_udp_events
  run_udp [] s = (s, timeout)
  run_udp (udp_events events ∷ rest) s = and_then (handle_udp_events events s) (run_udp rest)
  run_udp (udp_wait_failed ∷ rest) s = (s, err runtime_error)
