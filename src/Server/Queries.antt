-- ===== src/Server/Queries.antt =====
-- What src/server/server.cc makes of the queries that src/client/client.cc sends.
use group_trade_data_query.Common.{
  drop_all, ℕ, ◌≡◌, refl, sym, ap, ◌∙◌, List, [], ◌∷◌, ◌++◌, append-nil, append_assoc, map, arith,
  length, All,
}
use group_trade_data_query.Query.{TradeDataQuery, QueryFits}
use group_trade_data_query.Query.Codec.{encode_query, decode_query, sizeof_query}
use group_trade_data_query.Query.Codec.RoundTrip.{decode_query-encode_query, length-encode_query}
use group_trade_data_query.Queue.{push}
use group_trade_data_query.Server.{
  EpollServer, WorkItem, Received, bytes, recv_again, received_query, handle_read,
}

-- The server reads the query that the client sends.
pub received_query-encode_query :
    (memory : List ℕ) (pad : ℕ) (query : TradeDataQuery)
    → length memory ≡ sizeof_query
    → QueryFits query
    → received_query memory (encode_query pad query) ≡ query
unfolding received_query
received_query-encode_query memory pad query whole fits =
    ap (λ rest. decode_query (encode_query pad query ++ rest))
      (drop_all (length (encode_query pad query)) memory
        (omega (arith, length-encode_query pad query)))
    ∙ ap decode_query (append-nil (encode_query pad query))
    ∙ (decode_query-encode_query pad query fits).0

-- What `recv` gives if each query arrives by itself and whole.
abbrev pub whole_queries : ℕ → List TradeDataQuery → List Received
whole_queries pad [] = recv_again ∷ []
whole_queries pad (query ∷ rest) = bytes (encode_query pad query) ∷ whole_queries pad rest

abbrev pub work_items : ℕ → List TradeDataQuery → List WorkItem
work_items fd = map (λ query. record { client_fd = fd; query = query })

abbrev queued : ℕ → EpollServer → TradeDataQuery → EpollServer
queued fd s query = record s {
  work_queue = s.work_queue ++ (record { client_fd = fd; query = query } ∷ []);
}

handle_read_whole :
    (memory chunk : List ℕ) (fd : ℕ) (answers : List Received) (s : EpollServer)
    → handle_read memory fd (bytes chunk ∷ answers) s
      ≡ handle_read memory fd answers (queued fd s (received_query memory chunk))
unfolding handle_read push
handle_read_whole memory chunk fd answers s = refl

handle_read_again :
    (memory : List ℕ) (fd : ℕ) (s : EpollServer) → handle_read memory fd (recv_again ∷ []) s ≡ s
unfolding handle_read
handle_read_again memory fd s = refl

-- If each query of a client arrives whole, in a receive of its own, and fits its types, then the server
-- puts them all on the work queue, in order, for that client, and changes nothing else.
pub handle_read-encode_query :
    (memory : List ℕ) (pad fd : ℕ) (queries : List TradeDataQuery) (s : EpollServer)
    → length memory ≡ sizeof_query
    → All QueryFits queries
    → handle_read memory fd (whole_queries pad queries) s
      ≡ record s { work_queue = s.work_queue ++ work_items fd queries }
handle_read-encode_query memory pad fd [] s whole fits =
    handle_read_again memory fd s
    ∙ ap (λ q. record s { work_queue = q }) (sym (append-nil s.work_queue))
handle_read-encode_query memory pad fd (query ∷ rest) s whole fits =
    handle_read_whole memory (encode_query pad query) fd (whole_queries pad rest) s
    ∙ ap (λ q. handle_read memory fd (whole_queries pad rest) (queued fd s q))
        (received_query-encode_query memory pad query whole fits.0)
    ∙ handle_read-encode_query memory pad fd rest (queued fd s query) whole fits.1
    ∙ ap (λ q. record s { work_queue = q })
        (append_assoc s.work_queue (record { client_fd = fd; query = query } ∷ [])
          (work_items fd rest))
