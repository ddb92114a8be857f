-- ===== src/Server/Buffers.antt =====
-- The write buffers of src/server/server.cc, as a map.
use group_trade_data_query.Common.{
  ℕ, ◌+◌, ◌-◌, ◌≤◌, ◌<◌, ◌≡◌, refl, none, some, List, [], ◌∷◌, arith, ltb, ◌==◌, if◌then◌else◌,
  length, Bool-cases, Option-cases, inl, inr,
}
use group_trade_data_query.Server.{
  EpollServer, OutgoingBuffer, ResultItem, Sent, count, send_again, send_error, Received, bytes,
  end_of_stream, recv_again, recv_error, lookup, erase, assign, write_more, handle_read,
  handle_write, send_result, send_results, accept_all, Event, dispatch, dispatch_all, turn,
}

pub lookup-erase :
    (g fd : ℕ) (m : List (ℕ × OutgoingBuffer))
    → lookup g (erase fd m) ≡ (if fd == g then none else lookup g m)
unfolding lookup erase
lookup-erase g fd [] = ground arith
lookup-erase g fd ((h, ob) ∷ m) = ground (arith, lookup-erase g fd m)

pub lookup-assign :
    (g fd : ℕ) (ob : OutgoingBuffer) (m : List (ℕ × OutgoingBuffer))
    → lookup g (assign fd ob m) ≡ (if fd == g then some ob else lookup g m)
unfolding lookup assign
lookup-assign g fd ob m = ground (arith, lookup-erase g fd m)

-- Every buffer has bytes that are still to be sent.
abbrev pub HasRest : List (ℕ × OutgoingBuffer) → Type 0
HasRest m =
    (fd : ℕ) (ob : OutgoingBuffer) → lookup fd m ≡ some ob → ob.sent_bytes < length ob.buffer

-- A `send` does not take more bytes than it was given.
abbrev pub Within : ℕ → Sent → Type 0
Within limit (count n) = n ≤ limit
Within limit send_again = Unit
Within limit send_error = Unit

-- What a `send` of the rest of a buffer may answer.
abbrev pub WithinRest : ℕ → Sent → EpollServer → Type 0
WithinRest fd answer s =
    (ob : OutgoingBuffer)
    → lookup fd s.write_buffers ≡ some ob
    → Within (length ob.buffer - ob.sent_bytes) answer

erase-HasRest : (fd : ℕ) (m : List (ℕ × OutgoingBuffer)) → HasRest m → HasRest (erase fd m)
erase-HasRest fd m h g ob e = ground (arith, lookup-erase g fd m, h g ob)

assign-HasRest :
    (fd : ℕ) (new : OutgoingBuffer) (m : List (ℕ × OutgoingBuffer))
    → new.sent_bytes < length new.buffer
    → HasRest m
    → HasRest (assign fd new m)
assign-HasRest fd new m b h g ob e = ground (arith, lookup-assign g fd new m, h g ob)

handle_read-HasRest :
    (memory : List ℕ) (fd : ℕ) (answers : List Received) (s : EpollServer)
    → HasRest s.write_buffers
    → HasRest (handle_read memory fd answers s).write_buffers
unfolding handle_read
handle_read-HasRest memory fd [] s h = h
handle_read-HasRest memory fd (bytes chunk ∷ answers) s h =
    handle_read-HasRest memory fd answers _ h
handle_read-HasRest memory fd (end_of_stream ∷ answers) s h = erase-HasRest fd s.write_buffers h
handle_read-HasRest memory fd (recv_again ∷ answers) s h = h
handle_read-HasRest memory fd (recv_error ∷ answers) s h = erase-HasRest fd s.write_buffers h

pub send_result-HasRest :
    (first second : Sent) (result : ResultItem) (s : EpollServer)
    → HasRest s.write_buffers
    → HasRest (send_result first second result s).write_buffers
unfolding send_result
send_result-HasRest send_again second result s h = h
send_result-HasRest send_error second result s h = h
send_result-HasRest (count n) send_again result s h = h
send_result-HasRest (count n) send_error result s h = h
send_result-HasRest (count n) (count m) result s h = elim (Bool-cases (ltb m (length result.res))) [
  | inl e ↦ rw e (
      assign-HasRest result.client_fd (record { buffer = result.res; sent_bytes = m })
        s.write_buffers (ground arith) h)
  | inr e ↦ rw e h
]

write_more-HasRest :
    (fd : ℕ) (ob : OutgoingBuffer) (answer : Sent) (s : EpollServer)
    → ob.sent_bytes < length ob.buffer
    → Within (length ob.buffer - ob.sent_bytes) answer
    → HasRest s.write_buffers
    → HasRest (write_more fd ob answer s).write_buffers
unfolding write_more
write_more-HasRest fd ob send_again s b w h = erase-HasRest fd s.write_buffers h
write_more-HasRest fd ob send_error s b w h = erase-HasRest fd s.write_buffers h
write_more-HasRest fd ob (count n) s b w h =
    elim (Bool-cases (ob.sent_bytes + n == length ob.buffer)) [
      | inl e ↦ rw e (erase-HasRest fd s.write_buffers h)
      | inr e ↦ rw e (
          assign-HasRest fd (record ob { sent_bytes = ob.sent_bytes + n }) s.write_buffers
            (ground arith) h)
    ]

pub handle_write-HasRest :
    (fd : ℕ) (answer : Sent) (s : EpollServer)
    → WithinRest fd answer s
    → HasRest s.write_buffers
    → HasRest (handle_write fd answer s).write_buffers
unfolding handle_write
handle_write-HasRest fd answer s w h = elim (Option-cases (lookup fd s.write_buffers)) [
  | inl e ↦ rw (e, handle_write) h
  | inr (ob, e) ↦ rw (e, handle_write) (write_more-HasRest fd ob answer s (h fd ob e) (w ob e) h)
]

accept_all-write_buffers :
    (fds : List ℕ) (s : EpollServer) → (accept_all fds s).write_buffers ≡ s.write_buffers
unfolding accept_all
accept_all-write_buffers [] s = refl
accept_all-write_buffers (fd ∷ fds) s = accept_all-write_buffers fds _

dispatch-HasRest :
    (memory : List ℕ) (event : Event) (s : EpollServer)
    → WithinRest event.fd event.send s
    → HasRest s.write_buffers
    → HasRest (dispatch memory event s).write_buffers
unfolding dispatch
dispatch-HasRest memory event s w h = elim (Bool-cases (event.fd == s.server_listen_fd)) [
  | inl listen ↦ rw (listen, accept_all-write_buffers event.accepts s) h
  | inr client ↦ rw client (elim (Bool-cases event.readable) [
    | inl r ↦ rw r (handle_read-HasRest memory event.fd event.recvs s h)
    | inr r ↦ rw r (elim (Bool-cases event.writable) [
      | inl w' ↦ rw w' (handle_write-HasRest event.fd event.send s w h)
      | inr w' ↦ rw w' h
    ])
  ])
]

send_results-HasRest :
    (answers : ℕ → Sent × Sent) (i : ℕ) (results : List ResultItem) (s : EpollServer)
    → HasRest s.write_buffers
    → HasRest (send_results answers i results s).write_buffers
unfolding send_results
send_results-HasRest answers i [] s h = h
send_results-HasRest answers i (result ∷ rest) s h =
    send_results-HasRest answers (i + 1) rest _
      (send_result-HasRest (answers i).0 (answers i).1 result s h)

-- The events of a turn, each with an answer to `send` that its buffer allows when its turn comes.
abbrev pub AllWithin : List ℕ → List Event → EpollServer → Type 0
AllWithin memory [] s = Unit
AllWithin memory (event ∷ events) s =
    WithinRest event.fd event.send s × AllWithin memory events (dispatch memory event s)

dispatch_all-HasRest :
    (memory : List ℕ) (events : List Event) (s : EpollServer)
    → AllWithin memory events s
    → HasRest s.write_buffers
    → HasRest (dispatch_all memory events s).write_buffers
unfolding dispatch_all
dispatch_all-HasRest memory [] s w h = h
dispatch_all-HasRest memory (event ∷ events) s (w, ws) h =
    dispatch_all-HasRest memory events (dispatch memory event s) ws
      (dispatch-HasRest memory event s w h)

-- A turn of the event loop keeps in the map only buffers with bytes left to send, whatever arrives and
-- whatever the kernel answers, if no `send` takes more bytes than it was given.
pub turn-HasRest :
    (memory : List ℕ) (events : List Event) (answers : ℕ → Sent × Sent) (s : EpollServer)
    → AllWithin memory events s
    → HasRest s.write_buffers
    → HasRest (turn memory events answers s).write_buffers
unfolding turn
turn-HasRest memory events answers s w h =
    send_results-HasRest answers 0 (dispatch_all memory events s).results_queue _
      (dispatch_all-HasRest memory events s w h)
