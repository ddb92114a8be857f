-- ===== src/Server/Loop/Asked.antt =====
-- A run of src/server/server.cc with several clients: what becomes of their queries and of the results.
use group_trade_data_query.Common.{
  ==_self, ℕ, ◌+◌, ◌≡◌, refl, sym, ap, ◌∙◌, true, false, inl, inr, List, [], ◌∷◌, ◌++◌, append-nil,
  append_assoc, map, ltb, ◌==◌, length, All, Bool-cases, Option-cases,
}
use group_trade_data_query.Common.Run.{err, runtime_error}
use group_trade_data_query.Query.{TradeDataQuery, QueryFits}
use group_trade_data_query.Query.Codec.{sizeof_query}
use group_trade_data_query.Server.{
  EpollServer, WorkItem, ResultItem, OutgoingBuffer, Sent, count, send_again, send_error, Event,
  lookup, accept_all, dispatch, dispatch_all, handle_write, write_more, keep_rest, send_buffer,
  send_result, send_results, process_results, turn,
}
use group_trade_data_query.Server.Queries.{whole_queries, work_items, handle_read-encode_query}
use group_trade_data_query.Server.Loop.{Round, turns, Waited, wait_failed, all_fine, run, run-turns}

-- What happens to the sockets: clients connect, a client sends queries that each arrive whole, or the socket
-- of a client becomes writable.
pub data Activity : Type 0 where
  connects : List ℕ → Activity
  asks : ℕ → List TradeDataQuery → Activity
  is_writable : ℕ → Sent → Activity

-- The event of it.
abbrev pub event_of : ℕ → ℕ → Activity → Event
event_of listen pad (connects fds) = record {
  fd = listen;
  readable = true;
  writable = false;
  accepts = fds;
  recvs = [];
  send = send_again;
}
event_of listen pad (asks fd queries) = record {
  fd = fd;
  readable = true;
  writable = false;
  accepts = [];
  recvs = whole_queries pad queries;
  send = send_again;
}
event_of listen pad (is_writable fd answer) = record {
  fd = fd;
  readable = false;
  writable = true;
  accepts = [];
  recvs = [];
  send = answer;
}

-- A client's descriptor is not the listening one, and its queries fit their types.
abbrev pub Sound : ℕ → Activity → Type 0
Sound listen (connects fds) = Unit
Sound listen (asks fd queries) = ((fd == listen) ≡ false) × All QueryFits queries
Sound listen (is_writable fd answer) = (fd == listen) ≡ false

-- The work that it makes.
abbrev pub work_of : Activity → List WorkItem
work_of (connects fds) = []
work_of (asks fd queries) = work_items fd queries
work_of (is_writable fd answer) = []

abbrev pub work_of_all : List Activity → List WorkItem
work_of_all [] = []
work_of_all (a ∷ rest) = work_of a ++ work_of_all rest

-- The activities of a turn, and the answers to its sends.
abbrev pub Turn : Type 0
Turn = List Activity × (ℕ → Sent × Sent)

abbrev pub work_of_turns : List Turn → List WorkItem
work_of_turns [] = []
work_of_turns (t ∷ rest) = work_of_all t.0 ++ work_of_turns rest

abbrev pub rounds_of : ℕ → ℕ → List Turn → List Round
rounds_of listen pad = map (λ t. (map (event_of listen pad) t.0, t.1))

-- Without a turn the results wait.
abbrev pub results_after : List Turn → List ResultItem → List ResultItem
results_after [] q = q
results_after (t ∷ rest) q = []

-- Another state of the same server has some more work.
abbrev Grown : ℕ → EpollServer → EpollServer → List WorkItem → Type 0
Grown listen s t work = (t.server_listen_fd ≡ listen) × (t.work_queue ≡ s.work_queue ++ work)

abbrev Kept : EpollServer → EpollServer → Type 0
Kept s t =
    (t.server_listen_fd ≡ s.server_listen_fd)
    × (t.work_queue ≡ s.work_queue)
    × (t.results_queue ≡ s.results_queue)

Kept-trans : (s t u : EpollServer) → Kept s t → Kept t u → Kept s u
Kept-trans s t u (a, b, c) (a', b', c') = (a' ∙ a, b' ∙ b, c' ∙ c)

Grown-trans :
    (listen : ℕ) (s t u : EpollServer) (xs ys : List WorkItem)
    → Grown listen s t xs
    → Grown listen t u ys
    → Grown listen s u (xs ++ ys)
Grown-trans listen s t u xs ys g h =
    (h.0, h.1 ∙ ap (λ q. q ++ ys) g.1 ∙ append_assoc s.work_queue xs ys)

keep_rest-Kept :
    (fd : ℕ) (buffer : List ℕ) (n : ℕ) (s : EpollServer) → Kept s (keep_rest fd buffer n s)
unfolding keep_rest
keep_rest-Kept fd buffer n s = elim (Bool-cases (ltb n (length buffer))) [
  | inl e ↦ rw e (refl, refl, refl)
  | inr e ↦ rw e (refl, refl, refl)
]

send_buffer-Kept :
    (answer : Sent) (r : ResultItem) (s : EpollServer) → Kept s (send_buffer answer r s)
unfolding send_buffer
send_buffer-Kept (count n) r s = keep_rest-Kept r.client_fd r.res n _
send_buffer-Kept send_again r s = (refl, refl, refl)
send_buffer-Kept send_error r s = (refl, refl, refl)

send_result-Kept :
    (first second : Sent) (r : ResultItem) (s : EpollServer) → Kept s (send_result first second r s)
unfolding send_result
send_result-Kept (count n) second r s = send_buffer-Kept second r _
send_result-Kept send_again second r s = (refl, refl, refl)
send_result-Kept send_error second r s = (refl, refl, refl)

send_results-Kept :
    (answers : ℕ → Sent × Sent) (i : ℕ) (rs : List ResultItem) (s : EpollServer)
    → Kept s (send_results answers i rs s)
unfolding send_results
send_results-Kept answers i [] s = (refl, refl, refl)
send_results-Kept answers i (r ∷ rs) s =
    Kept-trans s (send_result (answers i).0 (answers i).1 r s)
      (send_results answers (i + 1) rs (send_result (answers i).0 (answers i).1 r s))
      (send_result-Kept (answers i).0 (answers i).1 r s)
      (send_results-Kept answers (i + 1) rs (send_result (answers i).0 (answers i).1 r s))

write_more-Kept :
    (fd : ℕ) (ob : OutgoingBuffer) (answer : Sent) (s : EpollServer)
    → Kept s (write_more fd ob answer s)
unfolding write_more
write_more-Kept fd ob (count n) s = elim (Bool-cases (ob.sent_bytes + n == length ob.buffer)) [
  | inl e ↦ rw e (refl, refl, refl)
  | inr e ↦ rw e (refl, refl, refl)
]
write_more-Kept fd ob send_again s = (refl, refl, refl)
write_more-Kept fd ob send_error s = (refl, refl, refl)

handle_write-Kept : (fd : ℕ) (answer : Sent) (s : EpollServer) → Kept s (handle_write fd answer s)
unfolding handle_write
handle_write-Kept fd answer s = elim (Option-cases (lookup fd s.write_buffers)) [
  | inl e ↦ rw (handle_write, e) (refl, refl, refl)
  | inr (ob, e) ↦ rw (handle_write, e) (write_more-Kept fd ob answer s)
]

accept_all-Kept : (fds : List ℕ) (s : EpollServer) → Kept s (accept_all fds s)
unfolding accept_all
accept_all-Kept [] s = (refl, refl, refl)
accept_all-Kept (fd ∷ fds) s = accept_all-Kept fds _

-- The results that wait are all sent, and the work is left alone.
process_results-Kept :
    (answers : ℕ → Sent × Sent) (s : EpollServer)
    → Kept (record s { results_queue = [] }) (process_results answers s)
unfolding process_results
process_results-Kept answers s =
    send_results-Kept answers 0 s.results_queue (record s { results_queue = [] })

results_after-nil : (turns_of : List Turn) → results_after turns_of [] ≡ []
results_after-nil [] = refl
results_after-nil (t ∷ rest) = refl

module _ (memory : List ℕ) (pad listen : ℕ) (whole : length memory ≡ sizeof_query) where
  dispatch-Grown :
      (s : EpollServer) (a : Activity)
      → s.server_listen_fd ≡ listen
      → Sound listen a
      → Grown listen s (dispatch memory (event_of listen pad a) s) (work_of a)
  unfolding dispatch
  dispatch-Grown s (connects fds) e sound =
      let own : (listen == s.server_listen_fd) ≡ true = rw e (==_self listen) in
      let kept = accept_all-Kept fds s in
      rw own (kept.0 ∙ e, kept.1 ∙ sym (append-nil s.work_queue))
  dispatch-Grown s (asks fd queries) e sound =
      let other : (fd == s.server_listen_fd) ≡ false = rw e sound.0 in
      rw (other, handle_read-encode_query memory pad fd queries s whole sound.1) (e, refl)
  dispatch-Grown s (is_writable fd answer) e sound =
      let other : (fd == s.server_listen_fd) ≡ false = rw e sound in
      let kept = handle_write-Kept fd answer s in
      rw other (kept.0 ∙ e, kept.1 ∙ sym (append-nil s.work_queue))

  dispatch_all-Grown :
      (s : EpollServer) (acts : List Activity)
      → s.server_listen_fd ≡ listen
      → All (Sound listen) acts
      → Grown listen s (dispatch_all memory (map (event_of listen pad) acts) s) (work_of_all acts)
  unfolding dispatch_all
  dispatch_all-Grown s [] e sound = (e, sym (append-nil s.work_queue))
  dispatch_all-Grown s (a ∷ rest) e sound =
      let g = dispatch-Grown s a e sound.0 in
      let t = dispatch memory (event_of listen pad a) s in
      Grown-trans listen s t (dispatch_all memory (map (event_of listen pad) rest) t) (work_of a)
        (work_of_all rest) g (dispatch_all-Grown t rest g.0 sound.1)

  turn-Grown :
      (s : EpollServer) (t : Turn)
      → s.server_listen_fd ≡ listen
      → All (Sound listen) t.0
      → let s' = turn memory (map (event_of listen pad) t.0) t.1 s in
        Grown listen s s' (work_of_all t.0) × (s'.results_queue ≡ [])
  unfolding turn
  turn-Grown s t e sound =
      let d = dispatch_all memory (map (event_of listen pad) t.0) s in
      let (fd, work) = dispatch_all-Grown s t.0 e sound in
      let (fd', work', results) = process_results-Kept t.1 d in ((fd' ∙ fd, work' ∙ work), results)

  turns-Grown :
      (s : EpollServer) (ts : List Turn)
      → s.server_listen_fd ≡ listen
      → All (λ t. All (Sound listen) t.0) ts
      → let s' = turns memory (rounds_of listen pad ts) s in
        Grown listen s s' (work_of_turns ts) × (s'.results_queue ≡ results_after ts s.results_queue)
  turns-Grown s [] e sound = ((e, sym (append-nil s.work_queue)), refl)
  turns-Grown s (t ∷ rest) e sound =
      let (g, emptied) = turn-Grown s t e sound.0 in
      let next = turn memory (map (event_of listen pad) t.0) t.1 s in
      let (h, results) = turns-Grown next rest g.0 sound.1 in
      (
        Grown-trans listen s next (turns memory (rounds_of listen pad rest) next) (work_of_all t.0)
            (work_of_turns rest) g h,
        results ∙ ap (results_after rest) emptied ∙ results_after-nil rest,
      )

  -- In a run in which clients connect, whole queries that fit their types arrive from them, and sockets
  -- become writable, in any order over any number of turns, whatever the sends answer, the server takes
  -- turn after turn until epoll_wait fails, and then throws. Every query of every client is on the work
  -- queue once, behind the work that was there and in the order of arrival, for the client that sent it;
  -- and after a turn no result waits.
  pub run-asked :
      (s : EpollServer) (ts : List Turn) (later : List Waited)
      → s.server_listen_fd ≡ listen
      → All (λ t. All (Sound listen) t.0) ts
      → let stop = run memory (all_fine (rounds_of listen pad ts) ++ (wait_failed ∷ later)) s in
        (stop.1 ≡ err runtime_error)
        × (stop.0.work_queue ≡ s.work_queue ++ work_of_turns ts)
        × (stop.0.results_queue ≡ results_after ts s.results_queue)
  run-asked s ts later e sound =
      let (g, results) = turns-Grown s ts e sound in
      rw ((run-turns memory (rounds_of listen pad ts) later s).1) (refl, g.1, results)
