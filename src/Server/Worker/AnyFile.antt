-- ===== src/Server/Worker/AnyFile.antt =====
-- A worker of src/server/server.cc with a file of any size, as the constructor of the query engine opens it.
use group_trade_data_query.Common.{
  ℕ, suc, ◌-◌, ◌*◌, ◌<◌, ◌≡◌, refl, sym, inl, inr, List, [], ◌∷◌, All, length,
}
use group_trade_data_query.Common.Word.{u64_mod}
use group_trade_data_query.Query.Codec.{encode_trade}
use group_trade_data_query.Query.Codec.Bounds.{AreBytes, append-AreBytes, encode_trade-AreBytes}
use group_trade_data_query.Engine.{int_ceil}
use group_trade_data_query.Engine.Double.{Double, IsOrdered, IsScalable}
use group_trade_data_query.Engine.Aggregator.{aggregator}
use group_trade_data_query.Engine.Buffer.{NoWrap}
use group_trade_data_query.Engine.Search.{IsSorted}
use group_trade_data_query.Engine.Store.{Stored, StoredFit, stored_bytes, opened, row}
use group_trade_data_query.Engine.Totals.{SumsFinite}
use group_trade_data_query.Engine.Computed.{Answer, all_bytes, Covers, Covers-map, Covers-All}
use group_trade_data_query.Engine.Fits.{ReadsFit, AnswerFits, read_trade_data-TradeFits}
use group_trade_data_query.Engine.Specified.{Specified}
use group_trade_data_query.Engine.Overcount.{OrPast}
use group_trade_data_query.Engine.Overcount.Locate.{OrPast-cases, OrPast-bind, opened-Overcounts}
use group_trade_data_query.Engine.Overcount.Answers.{
  Any, aggregate_from-OrPast, Computed-AnswerFits_over, Computed-Specified_over,
}
use group_trade_data_query.Server.{WorkItem}
use group_trade_data_query.Server.Worker.{metric_list, process_work}
use group_trade_data_query.Server.Worker.Answers.{AsksAll, process_work-Answered}
use group_trade_data_query.Server.Worker.Intervals.{process_work-aggregator}

-- The padding of each trade is a byte.
abbrev pub PadsFit : List Stored → Type 0
PadsFit = All (λ s. s.pad < 256)

stored_bytes-AreBytes : (ss : List Stored) → StoredFit ss → PadsFit ss → AreBytes (stored_bytes ss)
stored_bytes-AreBytes [] fits pads = tt
stored_bytes-AreBytes (s ∷ ss) fits pads =
    append-AreBytes (encode_trade s.pad s.trade) (stored_bytes ss)
      (encode_trade-AreBytes s.pad s.trade pads.0 fits.0) (stored_bytes-AreBytes ss fits.1 pads.1)

pub opened-ReadsFit : (ss : List Stored) → StoredFit ss → PadsFit ss → ReadsFit (opened ss)
opened-ReadsFit ss fits pads =
    read_trade_data-TradeFits 0 (stored_bytes ss) (stored_bytes-AreBytes ss fits pads)

module _ {D : Type 0} (d : Double D) (ordered : IsOrdered d) {steps : ℕ} (laws : IsScalable d steps)
    (sums : SumsFinite d laws) (ss : List Stored) (fits : StoredFit ss) (pads : PadsFit ss)
    (small : length ss * 64 < u64_mod) (sorted : IsSorted (row ss) (length ss))
    (pos : 0 < length ss) where
  process_work-OrPast :
      (k turns : ℕ) (work : WorkItem)
      → NoWrap work.query
      → 0 < work.query.resolution
      → int_ceil (work.query.end_time_point - work.query.start_time_point) work.query.resolution
        < turns
      → OrPast
          (length ss)
          (process_work d steps (opened ss) (suc (suc k)) turns work)
          (λ result. result.client_fd ≡ work.client_fd)
  unfolding aggregator
  process_work-OrPast k turns work w r enough =
      let over = opened-Overcounts ss fits small in
      rw (process_work-aggregator d steps (opened ss) k turns work w r) (
        OrPast-bind (length ss)
          (aggregator d steps (opened ss) turns (metric_list work.query.metrics) work.query) _ Any _
          (aggregate_from-OrPast d laws sums over sorted pos (metric_list work.query.metrics)
            work.query w r turns work.query.start_time_point enough)
          (λ bytes run h. refl))

  -- If the doubles are ordered and can be scaled and the sums are finite, then with a sorted file of one or
  -- more and fewer than 2 ^ 58 trades that fit their types, and whatever count of them the constructor
  -- makes, a query for all three metrics whose resolution is above 0 and whose times do not wrap either
  -- makes the worker throw at a read past the trades, or, with more turns than intervals, its result is,
  -- for the client that asked, the bytes of one answer for each interval, in order; all numbers fit
  -- their types, and the answer of an interval with a trade has the prices of a cheapest and a dearest
  -- trade, the weighted mean and the sum of the quantities, scaled, of exactly the trades of the
  -- interval.
  pub process_work-opened :
      (k turns : ℕ) (work : WorkItem)
      → NoWrap work.query
      → 0 < work.query.resolution
      → AsksAll work.query.metrics
      → int_ceil (work.query.end_time_point - work.query.start_time_point) work.query.resolution
        < turns
      → OrPast (length ss) (process_work d steps (opened ss) (suc (suc k)) turns work) (λ result.
        (answers : List Answer) × (result.client_fd ≡ work.client_fd)
        × (result.res ≡ all_bytes answers)
        × Covers
            (Specified d steps (row ss) (length ss))
            work.query
            work.query.start_time_point
            answers
        × All AnswerFits answers)
  process_work-opened k turns work w r asks enough =
      let over = opened-Overcounts ss fits small in
      let reads = opened-ReadsFit ss fits pads in
      let query = work.query in
      elim (OrPast-cases (length ss) (process_work d steps (opened ss) (suc (suc k)) turns work) _
        (process_work-OrPast k turns work w r enough)) [
          | inr (j, failed, past) ↦ rw failed past
          | inl (result, run, same) ↦
              let (answers, answered, bytes) =
                process_work-Answered d steps (opened ss) k turns work result w r asks run in
              rw run (
                answers,
                same,
                sym bytes,
                Covers-map query w r
                    (Computed-Specified_over d laws sums over sorted pos ordered reads)
                    query.start_time_point answers answered,
                Covers-All query w r
                    (Computed-AnswerFits_over d laws sums over sorted pos ordered reads)
                    query.start_time_point answers answered,
              )
        ]
