-- ===== src/Udp/Loop/Backlog.antt =====
-- The answers of src/server_udp/server_udp.cc to several clients, and the queries that are left.
use group_trade_data_query.Common.{
  ==_self, ℕ, zero, suc, ◌+◌, ◌≡◌, refl, sym, ap, ◌∙◌, List, [], ◌∷◌, ◌++◌, append-nil,
  append_assoc, map, arith, ◌==◌, if◌then◌else◌, length, take, drop, drop-add, All,
}
use group_trade_data_query.Common.Run.{Run, ok, timeout, and_then}
use group_trade_data_query.Query.{TradeDataQuery, QueryFits, Result}
use group_trade_data_query.Query.Codec.{encode_query, encode_result, sizeof_query}
use group_trade_data_query.Server.{received_query}
use group_trade_data_query.Server.Queries.{received_query-encode_query}
use group_trade_data_query.Udp.{
  Datagram, Arrival, arrived, result_size, send_messages, handle_trade_data_query, udp_event,
}
use group_trade_data_query.Udp.Exchange.{whole, take-encode_result, take-result_size}
use group_trade_data_query.Udp.Loop.{
  UdpEvent, UdpWaited, udp_events, UdpServer, next_arrival, handle_udp_event, handle_udp_events,
  run_udp,
}

-- A client that asks: its address, and the padding of its query.
pub record Asker : Type 0 where
  pub client_addr : ℕ
  pub pad : ℕ
  pub query : TradeDataQuery

-- The queries arrive whole.
abbrev pub asked : List Asker → List Arrival
asked = map (λ a. arrived a.client_addr (encode_query a.pad a.query))

-- Events of the listening socket, with the contents of `query`; every sendto has room for a message.
abbrev pub woken : ℕ → List (List ℕ) → List UdpEvent
woken fd = map (λ memory. record { fd = fd; memory = memory; answers = whole })

-- The answers to epoll_wait.
abbrev pub all_woken : ℕ → List (List (List ℕ)) → List UdpWaited
all_woken fd = map (λ memories. udp_events (woken fd memories))

abbrev pub event_count : List (List (List ℕ)) → ℕ
event_count [] = 0
event_count (memories ∷ rest) = length memories + event_count rest

abbrev pub Sized : List ℕ → Type 0
Sized memory = length memory ≡ sizeof_query

-- Some clients have asked, and some datagrams were sent.
abbrev pub waiting : ℕ → List Asker → List Datagram → UdpServer
waiting fd askers sent = record { server_listen_fd = fd; arrivals = asked askers; datagrams = sent }

send_messages_whole :
    (a i : ℕ) (results : List Result)
    → send_messages a whole i (map encode_result results)
      ≡ (map (λ r. (a, encode_result r)) results, ok tt)
unfolding send_messages
send_messages_whole a i [] = refl
send_messages_whole a i (r ∷ rs) = rw (send_messages_whole a (i + 1) rs, take-encode_result r) refl

take_eq : {m n : ℕ} (askers : List Asker) → m ≡ n → take m askers ≡ take n askers
take_eq askers e = ap (λ k. take k askers) e

take-nil : (n : ℕ) → take {A = Asker} n [] ≡ []
take-nil zero = refl
take-nil (suc n) = refl

module _ (lowest_and_highest_prices : TradeDataQuery → List Result) where
  -- The datagrams for a client: a size, and the results.
  abbrev pub reply_to : Asker → List Datagram
  reply_to a =
      (a.client_addr, result_size (lowest_and_highest_prices a.query))
      ∷ map (λ r. (a.client_addr, encode_result r)) (lowest_and_highest_prices a.query)

  abbrev pub replies : List Asker → List Datagram
  replies [] = []
  replies (a ∷ rest) = reply_to a ++ replies rest

  handle_query_whole :
      (a : Asker)
      → handle_trade_data_query lowest_and_highest_prices whole a.query a.client_addr
        ≡ (reply_to a, ok tt)
  unfolding handle_trade_data_query send_messages
  handle_query_whole a =
      let result = lowest_and_highest_prices a.query in
      rw (send_messages_whole a.client_addr 1 result, (take-result_size result).1) refl

  handle_event_of :
      (event : UdpEvent) (s : UdpServer) (reply : List Datagram × Run (Unit {0}))
      → udp_event lowest_and_highest_prices s.server_listen_fd event.memory event.fd
          (next_arrival s.arrivals)
          event.answers
        ≡ reply
      → handle_udp_event lowest_and_highest_prices event s ≡ (
        record s {
          arrivals = if event.fd == s.server_listen_fd then drop 1 s.arrivals else s.arrivals;
          datagrams = s.datagrams ++ reply.0;
        },
        reply.1,
      )
  unfolding handle_udp_event
  handle_event_of event s reply e =
      ap
        (λ (r : List Datagram × Run (Unit {0})). (
          record s {
            arrivals = if event.fd == s.server_listen_fd then drop 1 s.arrivals else s.arrivals;
            datagrams = s.datagrams ++ r.0;
          },
          r.1,
        ))
        e

  udp_event-arrived :
      (fd client_addr : ℕ) (memory chunk : List ℕ)
      → udp_event lowest_and_highest_prices fd memory fd (arrived client_addr chunk) whole
        ≡ handle_trade_data_query lowest_and_highest_prices whole
            (received_query memory chunk)
            client_addr
  unfolding udp_event
  udp_event-arrived fd client_addr memory chunk = rw (==_self fd) refl

  udp_event-asked :
      (fd : ℕ) (memory : List ℕ) (a : Asker) (askers : List Asker)
      → Sized memory
      → QueryFits a.query
      → udp_event lowest_and_highest_prices fd memory fd (next_arrival (asked (a ∷ askers))) whole
        ≡ (reply_to a, ok tt)
  unfolding next_arrival
  udp_event-asked fd memory a askers sized fits =
      udp_event-arrived fd a.client_addr memory (encode_query a.pad a.query)
      ∙ ap (λ q. handle_trade_data_query lowest_and_highest_prices whole q a.client_addr)
          (received_query-encode_query memory a.pad a.query sized fits)
      ∙ handle_query_whole a

  handle_event_asked :
      (fd : ℕ) (memory : List ℕ) (a : Asker) (askers : List Asker) (sent : List Datagram)
      → Sized memory
      → QueryFits a.query
      → handle_udp_event lowest_and_highest_prices
          (record { fd = fd; memory = memory; answers = whole })
          (waiting fd (a ∷ askers) sent)
        ≡ (waiting fd askers (sent ++ reply_to a), ok tt)
  handle_event_asked fd memory a askers sent sized fits =
      handle_event_of (record { fd = fd; memory = memory; answers = whole })
        (waiting fd (a ∷ askers) sent) (reply_to a, ok tt)
        (udp_event-asked fd memory a askers sized fits)
      ∙ rw (==_self fd) refl

  handle_event_idle :
      (fd : ℕ) (memory : List ℕ) (sent : List Datagram)
      → handle_udp_event lowest_and_highest_prices
          (record { fd = fd; memory = memory; answers = whole })
          (waiting fd [] sent)
        ≡ (waiting fd [] sent, ok tt)
  unfolding handle_udp_event udp_event next_arrival
  handle_event_idle fd memory sent = rw (==_self fd, append-nil sent) refl

  handle_events_idle :
      (fd : ℕ) (memories : List (List ℕ)) (sent : List Datagram)
      → handle_udp_events lowest_and_highest_prices (woken fd memories) (waiting fd [] sent)
        ≡ (waiting fd [] sent, ok tt)
  unfolding handle_udp_events
  handle_events_idle fd [] sent = refl
  handle_events_idle fd (memory ∷ rest) sent =
      ap (λ s. and_then s (handle_udp_events lowest_and_highest_prices (woken fd rest)))
        (handle_event_idle fd memory sent)
      ∙ handle_events_idle fd rest sent

  handle_events_asked :
      (fd : ℕ) (memories : List (List ℕ)) (askers : List Asker) (sent : List Datagram)
      → All Sized memories
      → All (λ a. QueryFits a.query) askers
      → handle_udp_events lowest_and_highest_prices (woken fd memories) (waiting fd askers sent) ≡ (
        waiting fd
            (drop (length memories) askers)
            (sent ++ replies (take (length memories) askers)),
        ok tt,
      )
  unfolding handle_udp_events
  handle_events_asked fd [] askers sent sized fits =
      ap (λ out. (waiting fd askers out, ok tt)) (sym (append-nil sent))
  handle_events_asked fd (memory ∷ rest) [] sent sized fits =
      handle_events_idle fd (memory ∷ rest) sent
      ∙ ap (λ out. (waiting fd [] out, ok tt)) (sym (append-nil sent))
  handle_events_asked fd (memory ∷ rest) (a ∷ askers) sent sized fits =
      ap (λ s. and_then s (handle_udp_events lowest_and_highest_prices (woken fd rest)))
        (handle_event_asked fd memory a askers sent sized.0 fits.0)
      ∙ handle_events_asked fd rest askers (sent ++ reply_to a) sized.1 fits.1
      ∙ ap (λ out. (waiting fd (drop (length rest) askers) out, ok tt))
          (append_assoc sent (reply_to a) (replies (take (length rest) askers)))

  All-drop :
      (n : ℕ) (askers : List Asker)
      → All (λ a. QueryFits a.query) askers
      → All (λ a. QueryFits a.query) (drop n askers)
  All-drop zero askers fits = fits
  All-drop (suc n) [] fits = tt
  All-drop (suc n) (a ∷ askers) fits = All-drop n askers fits.1

  replies-add :
      (m n : ℕ) (askers : List Asker)
      → replies (take m askers) ++ replies (take n (drop m askers)) ≡ replies (take (m + n) askers)
  replies-add zero n askers = ap replies (take_eq askers (omega arith))
  replies-add (suc m) n [] = ap replies (take-nil n) ∙ sym (ap replies (take-nil (suc m + n)))
  replies-add (suc m) n (a ∷ askers) =
      append_assoc (reply_to a) (replies (take m askers)) (replies (take n (drop m askers)))
      ∙ ap (λ rest. reply_to a ++ rest) (replies-add m n askers)
      ∙ ap replies (take_eq {m = suc (m + n)} {n = suc m + n} (a ∷ askers) (omega arith))

  -- If the queries of some clients arrive whole and fit their types, and every sendto has room for its
  -- message, then the server answers one query for an event: after as many events as there were, that
  -- many queries are answered, in order, each by its size and its results, to the address that it came
  -- from, and the others still wait in the socket.
  pub run_udp_backlog :
      (fd : ℕ) (waits : List (List (List ℕ))) (askers : List Asker) (sent : List Datagram)
      → All (All Sized) waits
      → All (λ a. QueryFits a.query) askers
      → run_udp lowest_and_highest_prices (all_woken fd waits) (waiting fd askers sent) ≡ (
        waiting fd
            (drop (event_count waits) askers)
            (sent ++ replies (take (event_count waits) askers)),
        timeout,
      )
  unfolding run_udp
  run_udp_backlog fd [] askers sent sized fits =
      ap (λ out. (waiting fd askers out, timeout)) (sym (append-nil sent))
  run_udp_backlog fd (memories ∷ rest) askers sent sized fits =
      let m = length memories in
      let n = event_count rest in
      ap (λ s. and_then s (run_udp lowest_and_highest_prices (all_woken fd rest)))
        (handle_events_asked fd memories askers sent sized.0 fits)
      ∙ run_udp_backlog fd rest (drop m askers) (sent ++ replies (take m askers)) sized.1
          (All-drop m askers fits)
      ∙ ap (λ out. (waiting fd (drop n (drop m askers)) out, timeout))
          (append_assoc sent (replies (take m askers)) (replies (take n (drop m askers)))
            ∙ ap (λ out. sent ++ out) (replies-add m n askers))
      ∙ ap (λ left. (waiting fd left (sent ++ replies (take (m + n) askers)), timeout))
          (sym (drop-add m n askers))
