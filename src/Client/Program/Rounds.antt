-- ===== src/Client/Program/Rounds.antt =====
-- The loop of src/client_main.cc.
use group_trade_data_query.Common.{
  ℕ, zero, suc, ◌+◌, ◌≡◌, ◌≢◌, refl, sym, ap, ◌∙◌, ◌⊎◌, inl, inr, true, false, List, [], ◌∷◌, ◌++◌,
  append_assoc, append-nil, ◌≤◌, arith,
}
use group_trade_data_query.Common.Run.{Run, Error, ok, err, timeout, >>=-ok, ok-injective}
use group_trade_data_query.Query.{TradeDataQuery}
use group_trade_data_query.Query.Codec.{encode_query}
use group_trade_data_query.Server.{Sent, count, send_again, send_error}
use group_trade_data_query.Client.{send_message}
use group_trade_data_query.Client.Receive.{Socket, read_struct}
use group_trade_data_query.Client.Input.{Stdin, read_query}
use group_trade_data_query.Client.Input.Numbers.{
  QueryText, QueryTextFits, query_text, query_of, at_text, EndsNumber, read_query-numbers,
  read_query_failed,
}
use group_trade_data_query.Client.Display.{Line, display}
use group_trade_data_query.Client.Program.{
  Surroundings, Session, concat, print_answer, settle, after_send, after_read, client_round,
  client_loop,
}

print_answer_shown :
    (memory : List ℕ) (metrics : ℕ) (s : Session) (output : List (List ℕ)) (connection : Socket)
    (lines : List Line)
    → read_struct memory 1 s.connection ≡ ok (output, connection)
    → display metrics (concat output) ≡ ok lines
    → print_answer memory metrics s
      ≡ ok (record s { connection = connection; printed = s.printed ++ (lines ∷ []) })
unfolding print_answer
print_answer_shown memory metrics s output connection lines read shown = rw (read, shown) refl

client_round_lem :
    (given : Surroundings) (s : Session)
    → client_round given s ≡ after_read given s (read_query given.unset s.stdin)
unfolding client_round
client_round_lem given s = refl

after_read_answered :
    (given : Surroundings) (s : Session) (query : TradeDataQuery) (stdin : Stdin) (n : ℕ)
    (output : List (List ℕ)) (connection : Socket) (lines : List Line)
    → given.answer ≡ count n
    → read_struct given.count_memory 1 s.connection ≡ ok (output, connection)
    → display query.metrics (concat output) ≡ ok lines
    → after_read given s (query, stdin) ≡ (
      record {
        stdin = stdin;
        connection = connection;
        messages = s.messages ++ (encode_query given.pad query ∷ []);
        printed = s.printed ++ (lines ∷ []);
      },
      ok tt,
    )
unfolding send_message
after_read_answered given s query stdin n output connection lines sent read shown =
    rw
      (
        sent,
        print_answer_shown given.count_memory query.metrics
            (record s {
              stdin = stdin;
              messages = s.messages ++ (encode_query given.pad query ∷ []);
            })
            output connection lines read shown,
      )
      refl

-- A round in which the query is read from its text, the send succeeds, and the answer is read and
-- printed.
pub client_round_answered :
    (given : Surroundings) (s : Session) (t : QueryText) (rest : List ℕ) (n : ℕ)
    (output : List (List ℕ)) (connection : Socket) (lines : List Line)
    → s.stdin ≡ at_text (query_text t rest)
    → QueryTextFits t
    → EndsNumber rest
    → given.answer ≡ count n
    → read_struct given.count_memory 1 s.connection ≡ ok (output, connection)
    → display (query_of t).metrics (concat output) ≡ ok lines
    → client_round given s ≡ (
      record {
        stdin = at_text rest;
        connection = connection;
        messages = s.messages ++ (encode_query given.pad (query_of t) ∷ []);
        printed = s.printed ++ (lines ∷ []);
      },
      ok tt,
    )
client_round_answered given s t rest n output connection lines input fits ends sent read shown =
    client_round_lem given s
    ∙ ap (after_read given s)
        (ap (read_query given.unset) input ∙ read_query-numbers given.unset t rest fits ends)
    ∙ after_read_answered given s (query_of t) (at_text rest) n output connection lines sent read
        shown

-- What one round does to the input and to the messages.
abbrev Unset : Surroundings → Session → Session × Run (Unit {0}) → Type 0
Unset given s end =
    (end.0.stdin ≡ s.stdin)
    × (end.0.messages ≡ s.messages ++ (encode_query given.pad given.unset ∷ []))

print_answer_keeps :
    (memory : List ℕ) (metrics : ℕ) (s s' : Session)
    → print_answer memory metrics s ≡ ok s'
    → (s'.stdin ≡ s.stdin) × (s'.messages ≡ s.messages)
unfolding print_answer
print_answer_keeps memory metrics s s' run =
    let (r, read, run') = >>=-ok (read_struct memory 1 s.connection) _ s' run in
    let (lines, shown, run'') = >>=-ok (display metrics (concat r.0)) _ s' run' in
    let same = ok-injective run'' in (sym (ap (λ x. x.stdin) same), sym (ap (λ x. x.messages) same))

settle-Unset :
    (given : Surroundings) (s before : Session) (m : Run Session)
    → ((s' : Session) → m ≡ ok s' → (s'.stdin ≡ before.stdin) × (s'.messages ≡ before.messages))
    → Unset given s (before, ok tt)
    → Unset given s (settle before m)
settle-Unset given s before (ok s') keeps h =
    let (same, same') = keeps s' refl in (same ∙ h.0, same' ∙ h.1)
settle-Unset given s before (err x) keeps h = h
settle-Unset given s before timeout keeps h = h

after_send-Unset :
    (given : Surroundings) (metrics : ℕ) (s before : Session) (sending : Run (Unit {0}))
    → Unset given s (before, ok tt)
    → Unset given s (after_send given metrics before sending)
after_send-Unset given metrics s before (ok _) h =
    settle-Unset given s before (print_answer given.count_memory metrics before)
      (print_answer_keeps given.count_memory metrics before) h
after_send-Unset given metrics s before (err x) h = h
after_send-Unset given metrics s before timeout h = h

message_sent :
    (pad : ℕ) (query : TradeDataQuery) (answer : Sent)
    → (send_message pad query answer).0 ≡ encode_query pad query
unfolding send_message
message_sent pad query (count n) = refl
message_sent pad query send_again = refl
message_sent pad query send_error = refl

client_round-Unset :
    (given : Surroundings) (s : Session)
    → s.stdin.failed ≡ true
    → Unset given s (client_round given s)
client_round-Unset given s failed =
    rw (client_round_lem given s, read_query_failed given.unset s.stdin failed)
      (after_send-Unset given given.unset.metrics s _
        (send_message given.pad given.unset given.answer).1
        (refl, ap (λ m. s.messages ++ (m ∷ [])) (message_sent given.pad given.unset given.answer)))

-- The queries that hold what their variable held.
abbrev pub unset_messages : (ℕ → Surroundings) → ℕ → ℕ → List (List ℕ)
unset_messages given zero i = []
unset_messages given (suc n) i =
    encode_query (given i).pad (given i).unset ∷ unset_messages given n (i + 1)

-- How a round ended.
Run-cases : (m : Run (Unit {0})) → (m ≡ ok tt) ⊎ (((x : Error) × (m ≡ err x)) ⊎ (m ≡ timeout))
Run-cases (ok _) = inl refl
Run-cases (err x) = inr (inl (x, refl))
Run-cases timeout = inr (inr refl)

one_more :
    (messages rest : List (List ℕ)) (message : List ℕ)
    → (messages ++ (message ∷ [])) ++ rest ≡ messages ++ (message ∷ rest)
one_more messages rest message = append_assoc messages (message ∷ []) rest

-- Once the input has failed, as it does at its end, the client without TESTMODE never returns from its loop:
-- it is stopped by an exception, or goes on; every query that it sends is what its variable happened to
-- hold.
pub client_loop_unset :
    (given : ℕ → Surroundings) (rounds i : ℕ) (s : Session)
    → s.stdin.failed ≡ true
    → let end = client_loop false given rounds i s in
      (end.1 ≢ ok tt)
      × ((n : ℕ) × (n ≤ rounds) × (end.0.messages ≡ s.messages ++ unset_messages given n i))
unfolding client_loop
client_loop_unset given zero i s failed = ((λ e. cc), (0, omega arith, sym (append-nil s.messages)))
client_loop_unset given (suc rounds) i s failed =
    let (same, sent) = client_round-Unset (given i) s failed in
    let s' = (client_round (given i) s).0 in
    let failed' : s'.stdin.failed ≡ true = ap (λ x. x.failed) same ∙ failed in
    let (not_ok, (n, small, more)) = client_loop_unset given rounds (i + 1) s' failed' in
    elim (Run-cases (client_round (given i) s).1) [
      | inl e ↦
          rw (client_loop, e)
            (
              not_ok,
              (
                suc n,
                omega arith,
                more
                    ∙ ap (λ m. m ++ unset_messages given n (i + 1)) sent
                    ∙ one_more s.messages (unset_messages given n (i + 1)) _,
              ),
            )
      | inr (inl (x, e)) ↦ rw (client_loop, e) ((λ f. cc), (1, omega arith, sent))
      | inr (inr e) ↦ rw (client_loop, e) ((λ f. cc), (1, omega arith, sent))
    ]
