-- ===== src/Server/Worker/Answers.antt =====
-- The result of a worker of src/server/server.cc, as answers about the trades of the file.
use group_trade_data_query.Common.{
  subst, ℕ, suc, ◌-◌, ◌<◌, ◌≡◌, refl, sym, ap, ◌∙◌, true, List, All,
}
use group_trade_data_query.Common.Word.{bit_set}
use group_trade_data_query.Common.Run.{ok, >>=-ok, ok-injective, Returns→ok}
use group_trade_data_query.Query.{TradeData}
use group_trade_data_query.Engine.{Engine, int_ceil}
use group_trade_data_query.Engine.Double.{Double, IsOrdered, IsScalable}
use group_trade_data_query.Engine.Aggregator.{aggregator}
use group_trade_data_query.Engine.Buffer.{NoWrap}
use group_trade_data_query.Engine.Search.{Holds, IsSorted}
use group_trade_data_query.Engine.Totals.{SumsFinite}
use group_trade_data_query.Engine.Computed.{
  Answer, all_bytes, Covers, Covers-map, Covers-All, Answered, aggregate_from-Answered,
}
use group_trade_data_query.Engine.Fits.{ReadsFit, AnswerFits, Computed-AnswerFits}
use group_trade_data_query.Engine.Specified.{Specified, Computed-Specified}
use group_trade_data_query.Server.{WorkItem, ResultItem}
use group_trade_data_query.Server.Worker.{metric_list, process_work}
use group_trade_data_query.Server.Worker.Intervals.{process_work-aggregator, process_work-answered}

-- All three metrics are asked for.
pub record AsksAll (metrics : ℕ) : Type 0 where
  pub extremes_bit : bit_set metrics 0 ≡ true
  pub mean_bit : bit_set metrics 26 ≡ true
  pub quantity_bit : bit_set metrics 33 ≡ true

metric_list_all : (metrics : ℕ) → AsksAll metrics → metric_list metrics ≡ 7
unfolding metric_list
metric_list_all metrics asks = rw (asks.extremes_bit, asks.mean_bit, asks.quantity_bit) refl

module _ {D : Type 0} (d : Double D) (fuel : ℕ) (e : Engine) where
  -- A result that the worker returns, whatever the file, is the answers of all intervals.
  pub process_work-Answered :
      (k turns : ℕ) (work : WorkItem) (result : ResultItem)
      → NoWrap work.query
      → 0 < work.query.resolution
      → AsksAll work.query.metrics
      → process_work d fuel e (suc (suc k)) turns work ≡ ok result
      → (answers : List Answer) × Answered d fuel e work.query work.query.start_time_point answers
        × (all_bytes answers ≡ result.res)
  unfolding aggregator
  process_work-Answered k turns work result w r asks run =
      let (bytes, bytes_run, last) =
        >>=-ok (aggregator d fuel e turns (metric_list work.query.metrics) work.query) _ result
          (sym (process_work-aggregator d fuel e k turns work w r) ∙ run) in
      let (answers, answered, same) =
        aggregate_from-Answered d fuel e work.query w r turns work.query.start_time_point bytes (
          subst (λ c. aggregator d fuel e turns c work.query ≡ ok bytes)
            (metric_list_all work.query.metrics asks) bytes_run) in
      (answers, answered, same ∙ ap (λ x. x.res) (ok-injective last))

module _ {D : Type 0} (d : Double D) (ordered : IsOrdered d) {steps : ℕ} (laws : IsScalable d steps)
    (sums : SumsFinite d laws) {e : Engine} {row : ℕ → TradeData} {n : ℕ} (holds : Holds e row n)
    (sorted : IsSorted row n) (pos : 0 < n) (fits : ReadsFit e) where
  -- If the doubles are ordered and can be scaled and the sums are finite, and the engine has a sorted
  -- file that is not empty, whose trades fit their types, and counts its trades right, then the worker
  -- answers every query for all three metrics whose resolution is above 0 and whose times do not wrap:
  -- with more turns than intervals its loop ends, and the result is, for the client that asked, the
  -- bytes of one answer for each interval, in order; all numbers fit their types, and the answer of an
  -- interval with a trade has the prices of a cheapest and a dearest trade, the weighted mean and the
  -- sum of the quantities, scaled, of exactly the trades of the interval.
  pub process_work-Specified :
      (k turns : ℕ) (work : WorkItem)
      → NoWrap work.query
      → 0 < work.query.resolution
      → AsksAll work.query.metrics
      → int_ceil (work.query.end_time_point - work.query.start_time_point) work.query.resolution
        < turns
      → (result : ResultItem) × (answers : List Answer) × (process_work d steps e
            (suc (suc k))
            turns
            work
          ≡ ok result)
        × (result.client_fd ≡ work.client_fd)
        × (result.res ≡ all_bytes answers)
        × Covers (Specified d steps row n) work.query work.query.start_time_point answers
        × All AnswerFits answers
  process_work-Specified k turns work w r asks enough =
      let (result, run, (same, size)) =
        Returns→ok (process_work d steps e (suc (suc k)) turns work) _
          (process_work-answered d laws sums holds sorted pos k turns work w r enough) in
      let (answers, answered, bytes) =
        process_work-Answered d steps e k turns work result w r asks run in
      (
        result,
        answers,
        run,
        same,
        sym bytes,
        Covers-map work.query w r (Computed-Specified d ordered laws sums holds sorted)
            work.query.start_time_point answers answered,
        Covers-All work.query w r (Computed-AnswerFits d laws sums holds sorted pos fits)
            work.query.start_time_point answers answered,
      )
