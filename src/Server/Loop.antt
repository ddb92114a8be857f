-- ===== src/Server/Loop.antt =====
-- `EpollServer::run` of src/server/server.cc with the failures of the calls that it makes itself.
pub mod Asked
use group_trade_data_query.Common.{
  ℕ, ◌≡◌, refl, inl, inr, List, [], ◌∷◌, ◌++◌, map, ◌==◌, if◌then◌else◌, Bool-cases,
}
use group_trade_data_query.Common.Run.{Run, ok, err, timeout, runtime_error, and_then}
use group_trade_data_query.Server.{
  EpollServer, Sent, Event, unblocked, added, watch_read, note, accept_all, dispatch, dispatch_all,
  process_results, turn,
}

-- The answer to `accept`, with the fate of the calls that follow it.
pub data Accepted : Type 0 where
  ready : ℕ → Accepted
  not_unblocked : ℕ → Accepted
  not_added : ℕ → Accepted
  accept_again : Accepted
  accept_failed : Accepted

-- The inner `while (true)`.
unfoldable pub accept_loop : List Accepted → EpollServer → EpollServer × Run (Unit {0})
unfolding note
accept_loop [] s = (s, ok tt)
accept_loop (ready fd ∷ rest) s =
    accept_loop rest (note (added fd watch_read) (note (unblocked fd) s))
accept_loop (not_unblocked fd ∷ rest) s = (s, err runtime_error)
accept_loop (not_added fd ∷ rest) s = (note (unblocked fd) s, err runtime_error)
accept_loop (accept_again ∷ rest) s = (s, ok tt)
accept_loop (accept_failed ∷ rest) s = (s, err runtime_error)

-- An event, with the answers to `accept` if it is one of the listening socket.
pub record LoopEvent : Type 0 where
  pub event : Event
  pub accepting : List Accepted

unfoldable pub handle_event : List ℕ → LoopEvent → EpollServer → EpollServer × Run (Unit {0})
unfolding accept_loop dispatch
handle_event memory le s =
    if le.event.fd == s.server_listen_fd
    then accept_loop le.accepting s
    else (dispatch memory le.event s, ok tt)

-- for (int32_t i = 0; i < n; ++i)
unfoldable pub handle_events : List ℕ → List LoopEvent → EpollServer → EpollServer × Run (Unit {0})
unfolding handle_event
handle_events memory [] s = (s, ok tt)
handle_events memory (le ∷ rest) s = and_then (handle_event memory le s) (handle_events memory rest)

-- The answer to `epoll_wait`, and those to the sends of the results.
pub data Waited : Type 0 where
  events : List LoopEvent → (ℕ → Sent × Sent) → Waited
  wait_failed : Waited

unfoldable pub run_turn : List ℕ → Waited → EpollServer → EpollServer × Run (Unit {0})
unfolding handle_events process_results
run_turn memory (events les answers) s =
    and_then (handle_events memory les s) (λ s'. (process_results answers s', ok tt))
run_turn memory wait_failed s = (s, err runtime_error)

-- `while (true)`: after the turns that are given the server runs on.
unfoldable pub run : List ℕ → List Waited → EpollServer → EpollServer × Run (Unit {0})
unfolding run_turn
run memory [] s = (s, timeout)
run memory (waited ∷ rest) s = and_then (run_turn memory waited s) (run memory rest)

-- Nothing fails: the descriptors are accepted until there are no more.
abbrev pub readied : List ℕ → List Accepted
readied [] = accept_again ∷ []
readied (fd ∷ fds) = ready fd ∷ readied fds

abbrev pub fine : Event → LoopEvent
fine event = record { event = event; accepting = readied event.accepts }

accept_loop-readied :
    (fds : List ℕ) (s : EpollServer) → accept_loop (readied fds) s ≡ (accept_all fds s, ok tt)
unfolding accept_loop accept_all
accept_loop-readied [] s = refl
accept_loop-readied (fd ∷ fds) s = accept_loop-readied fds _

handle_event-fine :
    (memory : List ℕ) (event : Event) (s : EpollServer)
    → handle_event memory (fine event) s ≡ (dispatch memory event s, ok tt)
unfolding handle_event dispatch
handle_event-fine memory event s = elim (Bool-cases (event.fd == s.server_listen_fd)) [
  | inl e ↦ rw e (accept_loop-readied event.accepts s)
  | inr e ↦ rw e refl
]

handle_events-fine :
    (memory : List ℕ) (es : List Event) (s : EpollServer)
    → handle_events memory (map fine es) s ≡ (dispatch_all memory es s, ok tt)
unfolding handle_events dispatch_all
handle_events-fine memory [] s = refl
handle_events-fine memory (event ∷ es) s =
    rw (handle_event-fine memory event s) (handle_events-fine memory es (dispatch memory event s))

-- The events of a turn, and the answers to its sends.
abbrev pub Round : Type 0
Round = List Event × (ℕ → Sent × Sent)

abbrev pub turns : List ℕ → List Round → EpollServer → EpollServer
turns memory [] s = s
turns memory ((es, answers) ∷ rest) s = turns memory rest (turn memory es answers s)

abbrev pub all_fine : List Round → List Waited
all_fine [] = []
all_fine ((es, answers) ∷ rest) = events (map fine es) answers ∷ all_fine rest

run_turn-fine :
    (memory : List ℕ) (es : List Event) (answers : ℕ → Sent × Sent) (s : EpollServer)
    → run_turn memory (events (map fine es) answers) s ≡ (turn memory es answers s, ok tt)
unfolding run_turn turn
run_turn-fine memory es answers s = rw (handle_events-fine memory es s) refl

-- As long as no call of the loop fails, the server takes one turn after the other and then runs on; the
-- first time that epoll_wait fails, it throws in the state that these turns have left, whatever comes
-- after.
pub run-turns :
    (memory : List ℕ) (rounds : List Round) (later : List Waited) (s : EpollServer)
    → (run memory (all_fine rounds) s ≡ (turns memory rounds s, timeout))
      × (run memory (all_fine rounds ++ (wait_failed ∷ later)) s
          ≡ (turns memory rounds s, err runtime_error))
unfolding run
run-turns memory [] later s = (refl, refl)
run-turns memory ((es, answers) ∷ rest) later s =
    rw (run_turn-fine memory es answers s) (run-turns memory rest later (turn memory es answers s))
