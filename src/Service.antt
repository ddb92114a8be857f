-- ===== src/Service.antt =====
-- The client and the server together: src/client_main.cc, src/client/client.cc, src/server/server.cc and
-- src/query_engine/query_engine.cc, from the text of a query to the lines that are printed.
use group_trade_data_query.Common.{
  ℕ, suc, ◌-◌, ◌<◌, ◌≡◌, ◌≢◌, true, refl, subst, ap, ◌*◌, ◌∙◌, Option, List, [], ◌∷◌, ◌++◌, arith,
  length, map, All,
}
use group_trade_data_query.Common.Run.{ok}
use group_trade_data_query.Query.{TradeDataQuery, QueryFits}
use group_trade_data_query.Query.Codec.{encode_query, sizeof_query}
use group_trade_data_query.Engine.{int_ceil}
use group_trade_data_query.Engine.Double.{Double, IsOrdered, IsScalable}
use group_trade_data_query.Engine.Buffer.{NoWrap}
use group_trade_data_query.Engine.Search.{IsSorted}
use group_trade_data_query.Engine.Totals.{SumsFinite}
use group_trade_data_query.Engine.Computed.{Answer, all_bytes, Covers, over}
use group_trade_data_query.Engine.Fits.{AnswerFits}
use group_trade_data_query.Engine.Specified.{Specified}
use group_trade_data_query.Server.{WorkItem, ResultItem, count, count_header, received_query}
use group_trade_data_query.Server.Queries.{received_query-encode_query}
use group_trade_data_query.Server.Worker.{process_work}
use group_trade_data_query.Common.Word.{u64_mod}
use group_trade_data_query.Server.Worker.Answers.{AsksAll}
use group_trade_data_query.Server.Worker.AnyFile.{PadsFit, process_work-opened}
use group_trade_data_query.Engine.Overcount.Locate.{OrPast-ok}
use group_trade_data_query.Engine.Store.{Stored, StoredFit, opened, row}
use group_trade_data_query.Client.Framing.{singles, arriving, NoneEmpty, read_struct-answer}
use group_trade_data_query.Client.Decimals.{numbered}
use group_trade_data_query.Client.Sets.{answer_lines, display-answers, all_bytes-answers_bytes}
use group_trade_data_query.Client.Receive.{Socket, read_struct}
use group_trade_data_query.Client.Display.{display}
use group_trade_data_query.Client.Input.Numbers.{
  QueryText, QueryTextFits, query_text, query_of, at_text, EndsNumber,
}
use group_trade_data_query.Sockets.{Kernel, SysCall}
use group_trade_data_query.Client.Program.{
  Surroundings, Session, concat, client_round, exit_success, client_main,
}
use group_trade_data_query.Client.Program.Main.{Connects, client_main_once}
use group_trade_data_query.Client.Program.Rounds.{client_round_answered}

pub query_of-QueryFits : (t : QueryText) → QueryTextFits t → QueryFits (query_of t)
query_of-QueryFits t fits = record {
  symbol_lt = fits.symbol_id_fits.value_lt;
  start_lt = fits.start_fits.value_lt;
  end_lt = fits.end_fits.value_lt;
  resolution_lt = fits.resolution_fits.value_lt;
  metrics_lt = fits.metrics_fits.value_lt;
}

concat-singles : (bs : List ℕ) → concat (singles bs) ≡ bs
concat-singles [] = refl
concat-singles (b ∷ bs) = ap (◌∷◌ b) (concat-singles bs)

-- A query with an interval has an answer.
some_answer :
    {R : ℕ → ℕ → Answer → Type 0} (query : TradeDataQuery) (start_time : ℕ) (answers : List Answer)
    → start_time < query.end_time_point
    → Covers R query start_time answers
    → answers ≢ []
some_answer query start_time [] h (over _ done) e = omega arith
some_answer query start_time (a ∷ rest) h covers e = cc

-- Between a client that reads a query and its answer, and the worker that computes the answer.
pub record Exchanged (given : Surroundings) (s : Session) (t : QueryText) (rest : List ℕ)
    : Type 0 where
  pub input : s.stdin ≡ at_text (query_text t rest)
  pub text_fits : QueryTextFits t
  pub text_ends : EndsNumber rest
  pub taken : given.answer ≡ count sizeof_query
  pub count_size : length given.count_memory ≡ 4

-- The result arrives, with its count, whole and in any segments, of which the first has the count.
pub record Arrives (res tail extra : List ℕ) (segments : List (List ℕ)) (connection : Socket)
    : Type 0 where
  pub arrived :
      connection ≡ record { segments = (count_header res ++ tail) ∷ segments; shut = true }
  pub none_empty : NoneEmpty segments
  pub whole : tail ++ arriving segments ≡ res ++ extra

shown :
    (given : Surroundings) (s : Session) (t : QueryText) (rest res tail extra : List ℕ)
    (segments : List (List ℕ)) (answers : List Answer)
    → Exchanged given s t rest
    → Arrives res tail extra segments s.connection
    → length res < 0x8000_0000
    → res ≡ all_bytes answers
    → AsksAll (query_of t).metrics
    → All AnswerFits answers
    → answers ≢ []
    → (connection : Socket) × (client_round given s ≡ (
      record {
        stdin = at_text rest;
        connection = connection;
        messages = s.messages ++ (encode_query given.pad (query_of t) ∷ []);
        printed = s.printed ++ (numbered 0 (map answer_lines answers) ∷ []);
      },
      ok tt,
    ))
shown given s t rest res tail extra segments answers exchanged arrives small bytes asks fits some =
    let (connection, read) =
      read_struct-answer given.count_memory res tail extra segments exchanged.count_size small
        arrives.none_empty arrives.whole in
    (
      connection,
      client_round_answered given s t rest sizeof_query (singles res) connection
          (numbered 0 (map answer_lines answers)) exchanged.input exchanged.text_fits
          exchanged.text_ends exchanged.taken
          (ap (read_struct given.count_memory 1) arrives.arrived ∙ read)
          (ap (display (query_of t).metrics)
              (concat-singles res ∙ bytes ∙ all_bytes-answers_bytes answers)
            ∙ display-answers (query_of t).metrics answers asks.extremes_bit asks.mean_bit
                asks.quantity_bit fits some),
    )

module _ {D : Type 0} (d : Double D) (ordered : IsOrdered d) {steps : ℕ} (laws : IsScalable d steps)
    (sums : SumsFinite d laws) (ss : List Stored) (fits : StoredFit ss) (pads : PadsFit ss)
    (few : length ss * 64 < u64_mod) (sorted : IsSorted (row ss) (length ss))
    (pos : 0 < length ss) where
  -- If the doubles are ordered and can be scaled and the sums are finite; the file of the
  -- engine is sorted and has one or more and fewer than 2 ^ 58 trades, all in the range of their types,
  -- whatever count of them the constructor makes; the client, built
  -- with TESTMODE, connects, and its input is the text of a query for all three metrics whose resolution
  -- is above 0, whose range is not empty and whose times do not wrap; the server receives the bytes that
  -- the client sends for it; the worker, with more turns than intervals, gives them a result below 2 ^ 31
  -- bytes; and the count of the result and its bytes arrive, in any segments of which the first has the
  -- count: then the client ends with success, having sent this one query, and what it prints are, set by
  -- set, answers of the intervals in order, each with the extremes, the mean and the sum of exactly the
  -- trades of its interval if there are any.
  pub client_main-process_work :
      (kernel : Kernel) (inet_pton : List ℕ → Option ℕ) (address_memory sin_addr : ℕ)
      (args : List (List ℕ)) (given : ℕ → Surroundings) (rounds : ℕ) (s : Session)
      → Connects kernel inet_pton address_memory args sin_addr
      → (t : QueryText) (rest : List ℕ) → Exchanged (given 0) s t rest
      → NoWrap (query_of t)
      → 0 < (query_of t).resolution
      → AsksAll (query_of t).metrics
      → (query_of t).start_time_point < (query_of t).end_time_point
      → (k turns fd : ℕ) (memory : List ℕ) (result : ResultItem) → length memory ≡ sizeof_query
      → int_ceil
          ((query_of t).end_time_point - (query_of t).start_time_point)
          (query_of t).resolution
        < turns
      → process_work d steps (opened ss) (suc (suc k)) turns (record {
        client_fd = fd;
        query = received_query memory (encode_query (given 0).pad (query_of t));
      })
        ≡ ok result
      → length result.res < 0x8000_0000
      → (tail extra : List ℕ) (segments : List (List ℕ))
      → Arrives result.res tail extra segments s.connection
      → (answers : List Answer) × (s' : Session) × (calls : List SysCall) × Covers
          (Specified d steps (row ss) (length ss))
          (query_of t)
          (query_of t).start_time_point
          answers
        × (client_main true given (suc rounds) kernel s inet_pton address_memory args
            ≡ (exit_success s', calls))
        × (s'.messages ≡ s.messages ++ (encode_query (given 0).pad (query_of t) ∷ []))
        × (s'.printed ≡ s.printed ++ (numbered 0 (map answer_lines answers) ∷ []))
  client_main-process_work kernel inet_pton address_memory sin_addr args given rounds s connects t
        rest exchanged w r asks some k turns fd memory result forty enough run small tail extra
        segments arrives =
      let query = query_of t in
      let same =
        received_query-encode_query memory (given 0).pad query forty
          (query_of-QueryFits t exchanged.text_fits) in
      let work : WorkItem = record { client_fd = fd; query = query } in
      let (answers, _, bytes, covers, answers_fit) =
        OrPast-ok (length ss) (process_work d steps (opened ss) (suc (suc k)) turns work) _
          (process_work-opened d ordered laws sums ss fits pads few sorted pos k turns work w r asks
            enough)
          (subst
            (λ q.
              process_work d steps (opened ss) (suc (suc k)) turns
                (record { client_fd = fd; query = q })
              ≡ ok result)
            same run) in
      let (connection, round) =
        shown (given 0) s t rest result.res tail extra segments answers exchanged arrives small
          bytes asks answers_fit (some_answer query query.start_time_point answers some covers) in
      (
        answers,
        _,
        _,
        covers,
        client_main_once kernel inet_pton address_memory args given rounds sin_addr s _ connects
            round,
        refl,
        refl,
      )
