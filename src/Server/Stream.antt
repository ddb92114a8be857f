-- ===== src/Server/Stream.antt =====
-- What a client of src/server/server.cc receives, and what is still owed to it.
use group_trade_data_query.Common.{
  ==_self, take_all, drop-add, ℕ, ◌+◌, ◌≤◌, ◌<◌, ◌≡◌, refl, sym, ap, ◌∙◌, Option, none, some, List,
  [], ◌∷◌, ◌++◌, append_assoc, append-nil, arith, ◌==◌, if◌then◌else◌, length, take, drop, lt→ltb,
  le→ltb, ==_iff, Bool-cases, inl, inr, take-append-drop, length-drop,
}
use group_trade_data_query.Common.Word.{le_bytes}
use group_trade_data_query.Server.{
  EpollServer, OutgoingBuffer, Call, sent, closed, unblocked, added, modified, Events, Sent, count,
  lookup, erase, assign, handle_write, write_more, keep_rest, watch_both_edge, watch_read_edge,
  count_header,
}
use group_trade_data_query.Server.Buffers.{lookup-erase, lookup-assign}

-- The bytes that `send` took for a socket, in order.
abbrev pub delivered : ℕ → List Call → List ℕ
delivered fd [] = []
delivered fd (sent g bs ∷ log) = (if g == fd then bs else []) ++ delivered fd log
delivered fd (closed g ∷ log) = delivered fd log
delivered fd (unblocked g ∷ log) = delivered fd log
delivered fd (added g events ∷ log) = delivered fd log
delivered fd (modified g events ∷ log) = delivered fd log

-- The bytes of a buffer that are still to be sent.
abbrev pub rest_of : Option OutgoingBuffer → List ℕ
rest_of none = []
rest_of (some ob) = drop ob.sent_bytes ob.buffer

-- What a client has received and will receive from its buffer.
abbrev pub stream : ℕ → EpollServer → List ℕ
stream fd s = delivered fd s.log ++ rest_of (lookup fd s.write_buffers)

delivered-append :
    (fd : ℕ) (l m : List Call) → delivered fd (l ++ m) ≡ delivered fd l ++ delivered fd m
delivered-append fd [] m = refl
delivered-append fd (sent g bs ∷ l) m =
    rw (delivered-append fd l m)
      (sym (append_assoc (if g == fd then bs else []) (delivered fd l) (delivered fd m)))
delivered-append fd (closed g ∷ l) m = delivered-append fd l m
delivered-append fd (unblocked g ∷ l) m = delivered-append fd l m
delivered-append fd (added g events ∷ l) m = delivered-append fd l m
delivered-append fd (modified g events ∷ l) m = delivered-append fd l m

module _ (fd : ℕ) (log : List Call) where
  pub delivered-sent :
      (bs : List ℕ) → delivered fd (log ++ (sent fd bs ∷ [])) ≡ delivered fd log ++ bs
  delivered-sent bs =
      rw (delivered-append fd log (sent fd bs ∷ []), ==_self fd)
        (ap (◌++◌ (delivered fd log)) (append-nil bs))

  delivered-modified :
      (g : ℕ) (events : Events) → delivered fd (log ++ (modified g events ∷ [])) ≡ delivered fd log
  delivered-modified g events =
      rw (delivered-append fd log (modified g events ∷ [])) (append-nil (delivered fd log))

  delivered-closed : (g : ℕ) → delivered fd (log ++ (closed g ∷ [])) ≡ delivered fd log
  delivered-closed g = rw (delivered-append fd log (closed g ∷ [])) (append-nil (delivered fd log))

pub length-count_header : (bs : List ℕ) → length (count_header bs) ≡ 4
unfolding count_header le_bytes
length-count_header bs = refl

module _ (s : EpollServer) (fd : ℕ) where
  pub lookup-assign_self :
      (ob : OutgoingBuffer) → lookup fd (assign fd ob s.write_buffers) ≡ some ob
  lookup-assign_self ob =
      lookup-assign fd fd ob s.write_buffers
      ∙ ap (λ b. if b then some ob else lookup fd s.write_buffers) (==_self fd)

  pub lookup-erase_self : lookup fd (erase fd s.write_buffers) ≡ none
  lookup-erase_self =
      lookup-erase fd fd s.write_buffers
      ∙ ap (λ b. if b then none else lookup fd s.write_buffers) (==_self fd)

  -- A rest that is kept replaces what was pending.
  pub keep_rest-stream_partial :
      (buffer : List ℕ) (n : ℕ)
      → n < length buffer
      → stream fd (keep_rest fd buffer n s) ≡ delivered fd s.log ++ drop n buffer
  unfolding keep_rest
  keep_rest-stream_partial buffer n h = rw (
    lt→ltb n (length buffer) h,
    delivered-modified fd s.log fd watch_both_edge,
    lookup-assign_self (record { buffer = buffer; sent_bytes = n }),
  )

  pub keep_rest-stream_whole :
      (buffer : List ℕ) (n : ℕ)
      → length buffer ≤ n
      → stream fd (keep_rest fd buffer n s) ≡ stream fd s
  unfolding keep_rest
  keep_rest-stream_whole buffer n h = rw (le→ltb n (length buffer) h)

  write_more-stream :
      (n : ℕ) (ob : OutgoingBuffer)
      → ob.sent_bytes + n ≤ length ob.buffer
      → stream fd (write_more fd ob (count n) s)
        ≡ delivered fd s.log ++ drop ob.sent_bytes ob.buffer
  unfolding write_more
  write_more-stream n ob h =
      let rest = drop ob.sent_bytes ob.buffer in
      elim (Bool-cases (ob.sent_bytes + n == length ob.buffer)) [
        | inl e ↦
            rw
              (
                e,
                delivered-modified fd (s.log ++ (sent fd (take n rest) ∷ [])) fd watch_read_edge,
                delivered-sent fd s.log (take n rest),
                lookup-erase_self,
              )
              (append-nil (delivered fd s.log ++ take n rest)
                ∙ ap (◌++◌ (delivered fd s.log)) (
                    take_all n rest (
                      omega (
                        arith,
                        length-drop ob.sent_bytes ob.buffer,
                        (==_iff (ob.sent_bytes + n) (length ob.buffer)).0 e,
                      ))))
        | inr e ↦
            rw
              (
                e,
                delivered-sent fd s.log (take n rest),
                lookup-assign_self (record ob { sent_bytes = ob.sent_bytes + n }),
              )
              (append_assoc (delivered fd s.log) (take n rest) (drop (ob.sent_bytes + n) ob.buffer)
                ∙ ap (◌++◌ (delivered fd s.log)) (
                    ap (◌++◌ (take n rest)) (drop-add ob.sent_bytes n ob.buffer)
                    ∙ take-append-drop n rest))
      ]

pub handle_write-some :
    (fd : ℕ) (answer : Sent) (s : EpollServer) (ob : OutgoingBuffer)
    → lookup fd s.write_buffers ≡ some ob
    → handle_write fd answer s ≡ write_more fd ob answer s
unfolding handle_write
handle_write-some fd answer s ob e = rw (e, handle_write)

-- If a client has a buffer and `send` takes no more than the bytes that are left of it, then what
-- the client has received and what it is still owed make the same stream after `handle_write` as
-- before.
pub handle_write-stream :
    (s : EpollServer) (fd n : ℕ) (ob : OutgoingBuffer)
    → lookup fd s.write_buffers ≡ some ob
    → ob.sent_bytes + n ≤ length ob.buffer
    → stream fd (handle_write fd (count n) s) ≡ stream fd s
handle_write-stream s fd n ob e h =
    ap (stream fd) (handle_write-some fd (count n) s ob e)
    ∙ write_more-stream s fd n ob h
    ∙ ap (λ o. delivered fd s.log ++ rest_of o) (sym e)
