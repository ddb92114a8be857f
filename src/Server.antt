-- ===== src/Server.antt =====
-- src/server/server.cc, server.h and utils-server.h: the state of the event loop and its handlers. The kernel's
-- answers to the calls of a handler are arguments; the calls that change the outside are a log.
pub mod Worker
pub mod Buffers
pub mod Stream
pub mod SendResult
pub mod Pool
pub mod Loop
pub mod Queries
pub mod Delivery
pub mod Starved
pub mod Served
use group_trade_data_query.Common.{
  ℕ, zero, suc, ◌+◌, ◌-◌, ◌%◌, Bool, true, false, Option, none, some, List, [], ◌∷◌, ◌++◌, ltb,
  ◌==◌, if◌then◌else◌, length, take, drop,
}
use group_trade_data_query.Common.Word.{le_bytes}
use group_trade_data_query.Query.{TradeDataQuery}
use group_trade_data_query.Query.Codec.{decode_query}
use group_trade_data_query.Queue.{push}

pub record WorkItem : Type 0 where
  pub client_fd : ℕ
  pub query : TradeDataQuery

pub record ResultItem : Type 0 where
  pub client_fd : ℕ
  pub res : List ℕ

pub record OutgoingBuffer : Type 0 where
  pub buffer : List ℕ
  pub sent_bytes : ℕ

-- Which readiness a socket is watched for: EPOLLIN, EPOLLOUT and EPOLLET.
pub record Events : Type 0 where
  pub epollin : Bool
  pub epollout : Bool
  pub epollet : Bool

-- The calls into the kernel that change something outside.
pub data Call : Type 0 where
  sent : ℕ → List ℕ → Call
  closed : ℕ → Call
  unblocked : ℕ → Call
  added : ℕ → Events → Call
  modified : ℕ → Events → Call

pub record EpollServer : Type 0 where
  pub server_listen_fd : ℕ
  pub work_queue : List WorkItem
  pub results_queue : List ResultItem
  pub write_buffers : List (ℕ × OutgoingBuffer)
  pub log : List Call

-- `std::unordered_map` as a list of pairs.
unfoldable pub lookup : ℕ → List (ℕ × OutgoingBuffer) → Option OutgoingBuffer
lookup fd [] = none
lookup fd ((g, ob) ∷ m) = if g == fd then some ob else lookup fd m

unfoldable pub erase : ℕ → List (ℕ × OutgoingBuffer) → List (ℕ × OutgoingBuffer)
erase fd [] = []
erase fd ((g, ob) ∷ m) = if g == fd then erase fd m else (g, ob) ∷ erase fd m

unfoldable pub assign : ℕ → OutgoingBuffer → List (ℕ × OutgoingBuffer) → List (ℕ × OutgoingBuffer)
unfolding erase
assign fd ob m = (fd, ob) ∷ erase fd m

-- The answer to a `recv`: a positive count with the bytes, 0, or -1 with `errno`.
pub data Received : Type 0 where
  bytes : List ℕ → Received
  end_of_stream : Received
  recv_again : Received
  recv_error : Received

-- The answer to a `send`: a count that is not negative, or -1 with `errno`.
pub data Sent : Type 0 where
  count : ℕ → Sent
  send_again : Sent
  send_error : Sent

unfoldable pub note : Call → EpollServer → EpollServer
note call s = record s { log = s.log ++ (call ∷ []) }

-- close(fd); write_buffers_.erase(fd);
unfoldable pub disconnect : ℕ → EpollServer → EpollServer
unfolding note
disconnect fd s = note (closed fd) (record s { write_buffers = erase fd s.write_buffers })

-- `memory` is what `query` holds before the call: a short count fills only its first bytes.
unfoldable pub received_query : List ℕ → List ℕ → TradeDataQuery
received_query memory chunk = decode_query (chunk ++ drop (length chunk) memory)

-- The loop of `handle_read`, over the answers of its calls of `recv`.
unfoldable pub handle_read : List ℕ → ℕ → List Received → EpollServer → EpollServer
unfolding disconnect push received_query
handle_read memory client_fd [] s = s
handle_read memory client_fd (bytes chunk ∷ answers) s =
    handle_read memory client_fd answers (record s {
      work_queue =
          push s.work_queue (record { client_fd = client_fd; query = received_query memory chunk });
    })
handle_read memory client_fd (end_of_stream ∷ answers) s = disconnect client_fd s
handle_read memory client_fd (recv_again ∷ answers) s = s
handle_read memory client_fd (recv_error ∷ answers) s = disconnect client_fd s

abbrev pub watch_read : Events
watch_read = record { epollin = true; epollout = false; epollet = false }

abbrev pub watch_read_edge : Events
watch_read_edge = record { epollin = true; epollout = false; epollet = true }

abbrev pub watch_both_edge : Events
watch_both_edge = record { epollin = true; epollout = true; epollet = true }

-- The count that precedes a result: static_cast<int32_t>(buffer.size()), as its bytes.
unfoldable pub count_header : List ℕ → List ℕ
count_header buffer = le_bytes 4 (length buffer % 0x1_0000_0000)

-- The end of `send_result`: `sent_now` bytes of the buffer are gone.
unfoldable pub keep_rest : ℕ → List ℕ → ℕ → EpollServer → EpollServer
unfolding note assign
keep_rest fd buffer sent_now s =
    if ltb sent_now (length buffer)
    then note (modified fd watch_both_edge) (record s {
      write_buffers = assign fd (record { buffer = buffer; sent_bytes = sent_now }) s.write_buffers;
    })
    else s

-- A negative answer to the second `send` returns before the test for EAGAIN below it, which is dead.
unfoldable pub send_buffer : Sent → ResultItem → EpollServer → EpollServer
unfolding note keep_rest
send_buffer (count n) result s =
    keep_rest result.client_fd result.res n (note (sent result.client_fd (take n result.res)) s)
send_buffer send_again result s = note (closed result.client_fd) s
send_buffer send_error result s = note (closed result.client_fd) s

unfoldable pub send_result : Sent → Sent → ResultItem → EpollServer → EpollServer
unfolding note send_buffer count_header
send_result (count n) answer result s =
    send_buffer answer result (note (sent result.client_fd (take n (count_header result.res))) s)
send_result send_again answer result s = note (closed result.client_fd) s
send_result send_error answer result s = note (closed result.client_fd) s

-- while (results_queue_.try_pop(result)) send_result(result); with the answers for each result.
unfoldable pub send_results : (ℕ → Sent × Sent) → ℕ → List ResultItem → EpollServer → EpollServer
send_results answers i [] s = s
send_results answers i (result ∷ rest) s =
    send_results answers (i + 1) rest (send_result (answers i).0 (answers i).1 result s)

unfoldable pub process_results : (ℕ → Sent × Sent) → EpollServer → EpollServer
unfolding send_results
process_results answers s = send_results answers 0 s.results_queue (record s { results_queue = [] })

-- `ob` is the entry that was found.
unfoldable pub write_more : ℕ → OutgoingBuffer → Sent → EpollServer → EpollServer
unfolding note erase assign disconnect
write_more fd ob (count n) s =
    let s' = note (sent fd (take n (drop ob.sent_bytes ob.buffer))) s in
    if ob.sent_bytes + n == length ob.buffer
    then note (modified fd watch_read_edge) (record s' { write_buffers = erase fd s.write_buffers })
    else record s' {
      write_buffers = assign fd (record ob { sent_bytes = ob.sent_bytes + n }) s.write_buffers;
    }
write_more fd ob send_again s = disconnect fd s
write_more fd ob send_error s = disconnect fd s

unfoldable pub handle_write : ℕ → Sent → EpollServer → EpollServer
handle_write client_fd answer s = elim (lookup client_fd s.write_buffers) [
  | none ↦ s
  | some ob ↦ write_more client_fd ob answer s
]

-- An event of `epoll_wait`, with the answers to the calls that its handler makes: the descriptors that
-- `accept` returns until EAGAIN, the answers to `recv`, and the answer to `send`.
pub record Event : Type 0 where
  pub fd : ℕ
  pub readable : Bool
  pub writable : Bool
  pub accepts : List ℕ
  pub recvs : List Received
  pub send : Sent

unfoldable pub accept_all : List ℕ → EpollServer → EpollServer
unfolding note
accept_all [] s = s
accept_all (fd ∷ fds) s = accept_all fds (note (added fd watch_read) (note (unblocked fd) s))

-- One turn of the inner loop of `run`. `EPOLLOUT` is not looked at in an event that has `EPOLLIN`.
unfoldable pub dispatch : List ℕ → Event → EpollServer → EpollServer
unfolding accept_all handle_read handle_write
dispatch memory event s =
    if event.fd == s.server_listen_fd
    then accept_all event.accepts s
    else if event.readable
    then handle_read memory event.fd event.recvs s
    else if event.writable
    then handle_write event.fd event.send s
    else s

unfoldable pub dispatch_all : List ℕ → List Event → EpollServer → EpollServer
unfolding dispatch
dispatch_all memory [] s = s
dispatch_all memory (event ∷ events) s = dispatch_all memory events (dispatch memory event s)

-- One turn of the outer loop.
unfoldable pub turn : List ℕ → List Event → (ℕ → Sent × Sent) → EpollServer → EpollServer
unfolding dispatch_all process_results
turn memory events answers s = process_results answers (dispatch_all memory events s)
