-- ===== src/Server/Delivery.antt =====
-- A result of src/server/server.cc is delivered whole, in as many pieces as the client's socket takes.
use group_trade_data_query.Common.{
  ==_iff, Bool, true, false, ℕ, ◌+◌, ◌-◌, ◌≤◌, ◌<◌, ◌≡◌, refl, sym, ap, ◌∙◌, inl, inr, none, some,
  List, [], ◌∷◌, ◌++◌, append-nil, min, arith, ltb, ◌==◌, if◌then◌else◌, length, drop, All,
  Bool-cases, Option-cases, length-drop,
}
use group_trade_data_query.Server.{
  EpollServer, OutgoingBuffer, ResultItem, count, count_header, lookup, handle_write, send_result,
  write_more,
}
use group_trade_data_query.Server.Buffers.{
  HasRest, WithinRest, send_result-HasRest, handle_write-HasRest,
}
use group_trade_data_query.Server.Stream.{
  delivered, rest_of, stream, handle_write-stream, handle_write-some, lookup-assign_self,
  lookup-erase_self,
}
use group_trade_data_query.Server.SendResult.{send_result-stream}

-- The bytes that are still owed to a client.
abbrev pub owed : ℕ → EpollServer → ℕ
owed fd s = length (rest_of (lookup fd s.write_buffers))

-- The socket becomes writable again and again; each time it has room for some bytes.
abbrev pub writes : ℕ → List ℕ → EpollServer → EpollServer
writes fd [] s = s
writes fd (room ∷ rooms) s = writes fd rooms (handle_write fd (count (min room (owed fd s))) s)

room-WithinRest : (fd room : ℕ) (s : EpollServer) → WithinRest fd (count (min room (owed fd s))) s
room-WithinRest fd room s ob e = rw e (omega (arith, length-drop ob.sent_bytes ob.buffer))

handle_write-none :
    (fd n : ℕ) (s : EpollServer)
    → lookup fd s.write_buffers ≡ none
    → handle_write fd (count n) s ≡ s
unfolding handle_write
handle_write-none fd n s e = rw (handle_write, e) refl

write_more-lookup :
    (fd n : ℕ) (ob : OutgoingBuffer) (s : EpollServer)
    → lookup fd (write_more fd ob (count n) s).write_buffers ≡ (
        if ob.sent_bytes + n == length ob.buffer
        then none
        else some (record ob { sent_bytes = ob.sent_bytes + n }))
unfolding write_more
write_more-lookup fd n ob s = elim (Bool-cases (ob.sent_bytes + n == length ob.buffer)) [
  | inl e ↦ rw e (lookup-erase_self s fd)
  | inr e ↦ rw e (lookup-assign_self s fd (record ob { sent_bytes = ob.sent_bytes + n }))
]

length-rest_if :
    (b : Bool) (n : ℕ) (ob : OutgoingBuffer)
    → (ob.sent_bytes + n == length ob.buffer) ≡ b
    → ob.sent_bytes + n ≤ length ob.buffer
    → length (rest_of (if b then none else some (record ob { sent_bytes = ob.sent_bytes + n })))
      ≡ length (drop ob.sent_bytes ob.buffer) - n
length-rest_if true n ob e h = omega (
  arith,
  length-drop ob.sent_bytes ob.buffer,
  (==_iff (ob.sent_bytes + n) (length ob.buffer)).0 e,
)
length-rest_if false n ob e h =
    omega (arith, length-drop ob.sent_bytes ob.buffer, length-drop (ob.sent_bytes + n) ob.buffer)

-- A write makes what is owed less by what it takes.
handle_write-owed :
    (fd n : ℕ) (s : EpollServer)
    → n ≤ owed fd s
    → HasRest s.write_buffers
    → owed fd (handle_write fd (count n) s) ≡ owed fd s - n
handle_write-owed fd n s h rests = elim (Option-cases (lookup fd s.write_buffers)) [
  | inl e ↦
      let nothing : owed fd s ≡ 0 = ap (λ o. length (rest_of o)) e in
      ap (owed fd) (handle_write-none fd n s e) ∙ omega (arith, nothing)
  | inr (ob, e) ↦
      let rest : owed fd s ≡ length (drop ob.sent_bytes ob.buffer) =
        ap (λ o. length (rest_of o)) e in
      let within : ob.sent_bytes + n ≤ length ob.buffer =
        omega (arith, rest, rests fd ob e, length-drop ob.sent_bytes ob.buffer) in
      ap (owed fd) (handle_write-some fd (count n) s ob e)
      ∙ ap (λ o. length (rest_of o)) (write_more-lookup fd n ob s)
      ∙ length-rest_if (ob.sent_bytes + n == length ob.buffer) n ob refl within
      ∙ ap (λ (x : ℕ). x - n) (sym rest)
]

handle_write-same :
    (fd n : ℕ) (s : EpollServer)
    → n ≤ owed fd s
    → HasRest s.write_buffers
    → stream fd (handle_write fd (count n) s) ≡ stream fd s
handle_write-same fd n s h rests = elim (Option-cases (lookup fd s.write_buffers)) [
  | inl e ↦ ap (stream fd) (handle_write-none fd n s e)
  | inr (ob, e) ↦
      let rest : owed fd s ≡ length (drop ob.sent_bytes ob.buffer) =
        ap (λ o. length (rest_of o)) e in
      handle_write-stream s fd n ob e
        (omega (arith, rest, rests fd ob e, length-drop ob.sent_bytes ob.buffer))
]

-- Nothing is owed only if no buffer is kept.
owed-none :
    (fd : ℕ) (s : EpollServer)
    → owed fd s ≡ 0
    → HasRest s.write_buffers
    → lookup fd s.write_buffers ≡ none
owed-none fd s h rests = elim (Option-cases (lookup fd s.write_buffers)) [
  | inl e ↦ e
  | inr (ob, e) ↦
      let rest : owed fd s ≡ length (drop ob.sent_bytes ob.buffer) =
        ap (λ o. length (rest_of o)) e in
      absurd (omega (arith, h, rest, rests fd ob e, length-drop ob.sent_bytes ob.buffer))
]

-- With a write for each byte that is owed, at the latest, everything is delivered.
writes-delivered :
    (fd : ℕ) (rooms : List ℕ) (s : EpollServer)
    → HasRest s.write_buffers
    → All (λ room. 0 < room) rooms
    → owed fd s ≤ length rooms
    → (lookup fd (writes fd rooms s).write_buffers ≡ none)
      × (delivered fd (writes fd rooms s).log ≡ stream fd s)
writes-delivered fd [] s rests some_room enough =
    let e = owed-none fd s (omega arith) rests in
    (e, sym (ap (λ o. delivered fd s.log ++ rest_of o) e ∙ append-nil (delivered fd s.log)))
writes-delivered fd (room ∷ rooms) s rests some_room enough =
    let n = min room (owed fd s) in
    let s' = handle_write fd (count n) s in
    let less = handle_write-owed fd n s (omega arith) rests in
    let (nothing, all) =
      writes-delivered fd rooms s'
        (handle_write-HasRest fd (count n) s (room-WithinRest fd room s) rests) some_room.1
        (omega (arith, less, some_room.0)) in
    (nothing, all ∙ handle_write-same fd n s (omega arith) rests)

send_result-lookup :
    (s : EpollServer) (result : ResultItem) (n : ℕ)
    → lookup result.client_fd (send_result (count 4) (count n) result s).write_buffers ≡ (
        if ltb n (length result.res)
        then some (record { buffer = result.res; sent_bytes = n })
        else lookup result.client_fd s.write_buffers)
unfolding send_result
send_result-lookup s result n = elim (Bool-cases (ltb n (length result.res))) [
  | inl e ↦
      rw e (lookup-assign_self s result.client_fd (record { buffer = result.res; sent_bytes = n }))
  | inr e ↦ rw e refl
]

length-rest_kept :
    (b : Bool) (result : ResultItem) (n : ℕ)
    → length (rest_of (if b then some (record { buffer = result.res; sent_bytes = n }) else none))
      ≤ length result.res
length-rest_kept true result n = omega (arith, length-drop n result.res)
length-rest_kept false result n = omega arith

send_result-owed :
    (s : EpollServer) (result : ResultItem) (n : ℕ)
    → lookup result.client_fd s.write_buffers ≡ none
    → owed result.client_fd (send_result (count 4) (count n) result s) ≤ length result.res
send_result-owed s result n e =
    let same =
      ap (λ o. length (rest_of o))
        (send_result-lookup s result n
          ∙ ap
              (λ o.
                if ltb n (length result.res)
                then some (record { buffer = result.res; sent_bytes = n })
                else o)
              e) in
    rw same (length-rest_kept (ltb n (length result.res)) result n)

-- If every buffer of the server has bytes that are still to be sent, the client of a result has none
-- pending, both sends succeed and the first takes the four bytes of the count, then after as many
-- writes as the result has bytes, each with room for one byte or more, the client has received the
-- count and the bytes of the result, in order and once, and nothing is pending.
pub send_result-delivered :
    (s : EpollServer) (result : ResultItem) (n : ℕ) (rooms : List ℕ)
    → HasRest s.write_buffers
    → lookup result.client_fd s.write_buffers ≡ none
    → All (λ room. 0 < room) rooms
    → length result.res ≤ length rooms
    → let s' = writes result.client_fd rooms (send_result (count 4) (count n) result s) in
      (lookup result.client_fd s'.write_buffers ≡ none)
      × (delivered result.client_fd s'.log
          ≡ delivered result.client_fd s.log ++ (count_header result.res ++ result.res))
send_result-delivered s result n rooms rests e some_room enough =
    let fd = result.client_fd in
    let sent = send_result (count 4) (count n) result s in
    let (nothing, all) =
      writes-delivered fd rooms sent (send_result-HasRest (count 4) (count n) result s rests)
        some_room (omega (arith, send_result-owed s result n e, enough)) in
    (
      nothing,
      all
          ∙ send_result-stream s result n e
          ∙ ap (λ bs. bs ++ (count_header result.res ++ result.res))
              (ap (λ o. delivered fd s.log ++ rest_of o) e ∙ append-nil (delivered fd s.log)),
    )
