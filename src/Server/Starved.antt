-- ===== src/Server/Starved.antt =====
-- What `EpollServer::run` of src/server/server.cc does with an event that is both readable and writable.
use group_trade_data_query.Common.{ℕ, ◌≡◌, refl, true, false, List, [], ◌∷◌, ◌==◌}
use group_trade_data_query.Server.{
  EpollServer, Received, bytes, recv_again, Event, handle_read, dispatch,
}

-- The client sends some bytes and then no more for now.
abbrev pub heard : List (List ℕ) → List Received
heard [] = recv_again ∷ []
heard (chunk ∷ chunks) = bytes chunk ∷ heard chunks

handle_read_keeps :
    (memory : List ℕ) (fd : ℕ) (chunks : List (List ℕ)) (s : EpollServer)
    → ((handle_read memory fd (heard chunks) s).write_buffers ≡ s.write_buffers)
      × ((handle_read memory fd (heard chunks) s).log ≡ s.log)
unfolding handle_read
handle_read_keeps memory fd [] s = (refl, refl)
handle_read_keeps memory fd (chunk ∷ chunks) s = handle_read_keeps memory fd chunks _

-- An event of a client that is readable, whether or not it is writable too, sends nothing, if the client is
-- not at its end: no call is made and the buffer of every client stays as it is, so a client that is owed
-- bytes stays owed them.
pub dispatch_starves_write :
    (memory : List ℕ) (event : Event) (chunks : List (List ℕ)) (s : EpollServer)
    → (event.fd == s.server_listen_fd) ≡ false
    → event.readable ≡ true
    → event.recvs ≡ heard chunks
    → let s' = dispatch memory event s in (s'.log ≡ s.log) × (s'.write_buffers ≡ s.write_buffers)
unfolding dispatch
dispatch_starves_write memory event chunks s client readable recvs =
    let (buffers, log) = handle_read_keeps memory event.fd chunks s in
    rw (client, readable, recvs) (log, buffers)
