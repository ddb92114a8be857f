-- ===== src/Server/SendResult.antt =====
-- What `send_result` of src/server/server.cc does to the stream of a client.
use group_trade_data_query.Common.{
  take_all, ℕ, ◌≤◌, ◌<◌, ◌≡◌, sym, ap, ◌∙◌, none, some, [], ◌∷◌, ◌++◌, append_assoc, append-nil,
  arith, ltb, if◌then◌else◌, length, take, drop, lt→ltb, le→ltb, take-append-drop,
}
use native.Mathlib.Decide.{dec_lt}
use group_trade_data_query.Server.{
  EpollServer, OutgoingBuffer, ResultItem, sent, count, lookup, note, send_result, count_header,
}
use group_trade_data_query.Server.Stream.{
  delivered, rest_of, stream, delivered-sent, keep_rest-stream_partial, keep_rest-stream_whole,
  length-count_header,
}

-- The state after both calls of `send` took something of a result.
abbrev both_sent : ResultItem → ℕ → EpollServer → EpollServer
both_sent result n s =
    note (sent result.client_fd (take n result.res))
      (note (sent result.client_fd (take 4 (count_header result.res))) s)

delivered-both_sent :
    (result : ResultItem) (n : ℕ) (s : EpollServer)
    → delivered result.client_fd (both_sent result n s).log
      ≡ delivered result.client_fd s.log ++ (count_header result.res ++ take n result.res)
unfolding note
delivered-both_sent result n s =
    let fd = result.client_fd in
    let header = count_header result.res in
    delivered-sent fd (s.log ++ (sent fd (take 4 header) ∷ [])) (take n result.res)
    ∙ ap (λ bs. bs ++ take n result.res)
        (delivered-sent fd s.log (take 4 header)
          ∙ ap (◌++◌ (delivered fd s.log))
              (take_all 4 header (omega (arith, length-count_header result.res))))
    ∙ append_assoc (delivered fd s.log) header (take n result.res)

module _ (s : EpollServer) (result : ResultItem) where
  -- What a client has received once the count of a result was taken whole: the rest of the result, if it is
  -- kept, is the whole of what is owed.
  send_result-stream_partial :
      (n : ℕ)
      → n < length result.res
      → stream result.client_fd (send_result (count 4) (count n) result s)
        ≡ delivered result.client_fd s.log ++ (count_header result.res ++ result.res)
  unfolding send_result
  send_result-stream_partial n h =
      let fd = result.client_fd in
      let header = count_header result.res in
      keep_rest-stream_partial (both_sent result n s) fd result.res n h
      ∙ ap (λ bs. bs ++ drop n result.res) (delivered-both_sent result n s)
      ∙ append_assoc (delivered fd s.log) (header ++ take n result.res) (drop n result.res)
      ∙ ap (◌++◌ (delivered fd s.log)) (
          append_assoc header (take n result.res) (drop n result.res)
          ∙ ap (◌++◌ header) (take-append-drop n result.res))

  send_result-stream_whole :
      (n : ℕ)
      → length result.res ≤ n
      → stream result.client_fd (send_result (count 4) (count n) result s)
        ≡ (delivered result.client_fd s.log ++ (count_header result.res ++ result.res))
          ++ rest_of (lookup result.client_fd s.write_buffers)
  unfolding send_result note
  send_result-stream_whole n h =
      let fd = result.client_fd in
      let header = count_header result.res in
      keep_rest-stream_whole (both_sent result n s) fd result.res n h
      ∙ ap (λ bs. bs ++ rest_of (lookup fd s.write_buffers))
          (delivered-both_sent result n s
            ∙ ap (λ bs. delivered fd s.log ++ (header ++ bs)) (take_all n result.res h))

  -- If a client has nothing pending, both sends succeed and the first takes the four bytes of the
  -- count, then the result adds its count and its bytes to the client's stream, however many of
  -- its bytes the second send takes.
  pub send_result-stream :
      (n : ℕ)
      → lookup result.client_fd s.write_buffers ≡ none
      → stream result.client_fd (send_result (count 4) (count n) result s)
        ≡ stream result.client_fd s ++ (count_header result.res ++ result.res)
  send_result-stream n e =
      let fd = result.client_fd in
      let plain : stream fd s ≡ delivered fd s.log =
        ap (λ o. delivered fd s.log ++ rest_of o) e ∙ append-nil (delivered fd s.log) in
      elim (dec_lt n (length result.res)) [
        | yes h ↦
            send_result-stream_partial n h
            ∙ ap (λ bs. bs ++ (count_header result.res ++ result.res)) (sym plain)
        | no h ↦
            send_result-stream_whole n (omega arith)
            ∙ ap (λ o. (delivered fd s.log ++ (count_header result.res ++ result.res)) ++ rest_of o)
                e
            ∙ append-nil (delivered fd s.log ++ (count_header result.res ++ result.res))
            ∙ ap (λ bs. bs ++ (count_header result.res ++ result.res)) (sym plain)
      ]

  -- If a client has a buffer pending, both sends succeed and the first takes the four bytes of the
  -- count, the new result breaks the stream: if it is taken in part, the pending bytes are
  -- dropped; if it is taken whole, it stands before them.
  pub send_result_over_pending :
      (n : ℕ) (ob : OutgoingBuffer)
      → lookup result.client_fd s.write_buffers ≡ some ob
      → stream result.client_fd (send_result (count 4) (count n) result s)
        ≡ (delivered result.client_fd s.log ++ (count_header result.res ++ result.res))
          ++ (if ltb n (length result.res) then [] else drop ob.sent_bytes ob.buffer)
  send_result_over_pending n ob e = elim (dec_lt n (length result.res)) [
    | yes h ↦ rw (lt→ltb n (length result.res) h) (
        send_result-stream_partial n h
        ∙ sym (
            append-nil
              (delivered result.client_fd s.log ++ (count_header result.res ++ result.res))))
    | no h ↦ rw (le→ltb n (length result.res) (omega arith)) (
        send_result-stream_whole n (omega arith)
        ∙ ap
            (λ o.
              (delivered result.client_fd s.log ++ (count_header result.res ++ result.res))
              ++ rest_of o)
            e)
  ]
