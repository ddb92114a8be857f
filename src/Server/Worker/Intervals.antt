-- ===== src/Server/Worker/Intervals.antt =====
-- The worker of src/server/server.cc against the aggregator, and the size of its result.
use mathlib.Core.Path.{ap₂}
use native.Mathlib.Decide.{dec_lt}
use group_trade_data_query.Common.{
  ℕ, zero, suc, ◌+◌, ◌-◌, ◌*◌, ◌≤◌, ◌<◌, ◌≡◌, refl, sym, ap, ◌∙◌, Bool, true, false, List, [], ◌++◌,
  append-nil, arith, if◌then◌else◌, length,
}
use group_trade_data_query.Common.Word.{add64, bit_set}
use group_trade_data_query.Common.Run.{Run, ok, err, timeout, ◌>>=◌, Returns, Returns→ok}
use group_trade_data_query.Query.{TradeData, TradeDataQuery}
use group_trade_data_query.Engine.Search.{Holds, IsSorted}
use group_trade_data_query.Engine.Totals.{SumsFinite, engine_answers}
use group_trade_data_query.Engine.{Engine, int_ceil}
use group_trade_data_query.Engine.Double.{Double, IsScalable}
use group_trade_data_query.Engine.Aggregator.{
  interval_end, interval_bytes, aggregate_from, aggregator,
}
use group_trade_data_query.Engine.Buffer.{
  Answers, NoWrap, set_size, interval_end_bounds, aggregate_done, aggregate_step,
  aggregate_from-Returns,
}
use group_trade_data_query.Server.{WorkItem}
use group_trade_data_query.Server.Worker.{
  or_bits, metric_list, interval_query, accumulate_from, process_work,
}

or_bits_lem :
    (a b c : Bool)
    → (bit_set (or_bits a b c) 0 ≡ a)
      × (bit_set (or_bits a b c) 1 ≡ b)
      × (bit_set (or_bits a b c) 2 ≡ c)
      × (or_bits a b c < 8)
unfolding or_bits bit_set
or_bits_lem true true true = (refl, refl, refl, omega arith)
or_bits_lem true true false = (refl, refl, refl, omega arith)
or_bits_lem true false true = (refl, refl, refl, omega arith)
or_bits_lem true false false = (refl, refl, refl, omega arith)
or_bits_lem false true true = (refl, refl, refl, omega arith)
or_bits_lem false true false = (refl, refl, refl, omega arith)
or_bits_lem false false true = (refl, refl, refl, omega arith)
or_bits_lem false false false = (refl, refl, refl, omega arith)

-- The bits of the aggregator are the bits 0, 26 and 33 of the client's metrics, and no others.
pub metric_list_bits :
    (metrics : ℕ)
    → (bit_set (metric_list metrics) 0 ≡ bit_set metrics 0)
      × (bit_set (metric_list metrics) 1 ≡ bit_set metrics 26)
      × (bit_set (metric_list metrics) 2 ≡ bit_set metrics 33)
      × (metric_list metrics < 8)
unfolding metric_list
metric_list_bits metrics = or_bits_lem (bit_set metrics 0) (bit_set metrics 26) (bit_set metrics 33)

>>=-append-nil : (m : Run (List ℕ)) → (m >>= λ bs. ok (bs ++ [])) ≡ m
>>=-append-nil (ok bs) = ap ok (append-nil bs)
>>=-append-nil (err x) = refl
>>=-append-nil timeout = refl

-- Cutting an interval again does not shorten it.
interval_end_idem :
    (query : TradeDataQuery) (start_time : ℕ)
    → interval_end (interval_query query start_time) start_time ≡ interval_end query start_time
unfolding interval_end
interval_end_idem query start_time = ground arith

-- The bytes of an interval, by the client's metrics.
abbrev pub interval_size : ℕ → ℕ
interval_size metrics =
    (if bit_set metrics 0 then 10 else 0)
    + (if bit_set metrics 26 then 5 else 0)
    + (if bit_set metrics 33 then 5 else 0)

set_size-metric_list : (metrics : ℕ) → set_size (metric_list metrics) ≡ interval_size metrics
set_size-metric_list metrics = let (a, b, c, _) = metric_list_bits metrics in rw (a, b, c)

module _ {D : Type 0} (d : Double D) (fuel : ℕ) (e : Engine) where
  -- The aggregator computes the query of one interval in one turn.
  aggregator-interval_query :
      (k chooser : ℕ) (query : TradeDataQuery) (start_time : ℕ)
      → NoWrap query
      → 0 < query.resolution
      → start_time < query.end_time_point
      → aggregator d fuel e (suc (suc k)) chooser (interval_query query start_time)
        ≡ interval_bytes d fuel e 8 0 chooser start_time (interval_end query start_time)
  unfolding aggregator
  aggregator-interval_query k chooser query start_time w r h =
      let (after, within, short, next) = interval_end_bounds query start_time w r h in
      rw
        (
          aggregate_step d fuel e (suc k) chooser (interval_query query start_time) start_time
              after,
          aggregate_done d fuel e k chooser (interval_query query start_time)
              (add64 start_time query.resolution) (omega arith),
          interval_end_idem query start_time,
        )
        (>>=-append-nil
          (interval_bytes d fuel e 8 0 chooser start_time (interval_end query start_time)))

  pub accumulate_step :
      (inner turns chooser : ℕ) (query : TradeDataQuery) (start_time : ℕ)
      → start_time < query.end_time_point
      → accumulate_from d fuel e inner (suc turns) chooser query start_time ≡ (
          aggregator d fuel e inner chooser (interval_query query start_time) >>= λ bytes.
          accumulate_from d fuel e inner turns chooser query (add64 start_time query.resolution)
          >>= λ rest. ok (bytes ++ rest))
  unfolding accumulate_from
  accumulate_step inner turns chooser query start_time h = ground arith

  accumulate_done :
      (inner turns chooser : ℕ) (query : TradeDataQuery) (start_time : ℕ)
      → query.end_time_point ≤ start_time
      → accumulate_from d fuel e inner (suc turns) chooser query start_time ≡ ok []
  unfolding accumulate_from
  accumulate_done inner turns chooser query start_time h = ground arith

  accumulate-aggregate :
      (k chooser : ℕ) (query : TradeDataQuery)
      → NoWrap query
      → 0 < query.resolution
      → (turns start_time : ℕ)
      → accumulate_from d fuel e (suc (suc k)) turns chooser query start_time
        ≡ aggregate_from d fuel e turns chooser query start_time
  unfolding accumulate_from aggregate_from
  accumulate-aggregate k chooser query w r zero start_time = refl
  accumulate-aggregate k chooser query w r (suc turns) start_time =
      elim (dec_lt start_time query.end_time_point) [
        | no over ↦
            accumulate_done (suc (suc k)) turns chooser query start_time (omega arith)
            ∙ sym (aggregate_done d fuel e turns chooser query start_time (omega arith))
        | yes more ↦
            accumulate_step (suc (suc k)) turns chooser query start_time more
            ∙ ap₂ (λ m n. m >>= λ bytes. n >>= λ rest. ok (bytes ++ rest))
                (aggregator-interval_query k chooser query start_time w r more)
                (accumulate-aggregate k chooser query w r turns (add64 start_time query.resolution))
            ∙ sym (aggregate_step d fuel e turns chooser query start_time more)
      ]

  -- The worker, which cuts the query into intervals and asks for each, and the aggregator, which cuts the
  -- query itself, give the same bytes, errors included, if the resolution is above 0 and no time wraps.
  pub process_work-aggregator :
      (k turns : ℕ) (work : WorkItem)
      → NoWrap work.query
      → 0 < work.query.resolution
      → process_work d fuel e (suc (suc k)) turns work ≡ (
          aggregator d fuel e turns (metric_list work.query.metrics) work.query >>= λ bytes.
          ok (record { client_fd = work.client_fd; res = bytes }))
  unfolding process_work aggregator
  process_work-aggregator k turns work w r =
      ap (λ m. m >>= λ bytes. ok (record { client_fd = work.client_fd; res = bytes }))
        (accumulate-aggregate k (metric_list work.query.metrics) work.query w r turns
          work.query.start_time_point)

  -- If every metric of every interval is computed, the worker's loop ends after one turn for each interval,
  -- and its result has as many bytes for each interval as the client's metrics ask for.
  process_work-Returns :
      Answers d fuel e
      → (k turns : ℕ) (work : WorkItem) → NoWrap work.query
      → 0 < work.query.resolution
      → int_ceil (work.query.end_time_point - work.query.start_time_point) work.query.resolution
        < turns
      → Returns (process_work d fuel e (suc (suc k)) turns work) (λ result.
        (result.client_fd ≡ work.client_fd)
        × (length result.res
            ≡ int_ceil
                (work.query.end_time_point - work.query.start_time_point)
                work.query.resolution
              * interval_size work.query.metrics))
  unfolding aggregator
  process_work-Returns answers k turns work w r enough =
      let query = work.query in
      let (bytes, run, size) =
        Returns→ok
          (aggregate_from d fuel e turns (metric_list query.metrics) query query.start_time_point) _
          (aggregate_from-Returns d fuel e answers (metric_list query.metrics) query w r turns
            query.start_time_point enough) in
      rw (process_work-aggregator k turns work w r, run)
        (
          refl,
          size
              ∙ ap
                  (λ (x : ℕ).
                    int_ceil (query.end_time_point - query.start_time_point) query.resolution * x)
                  (set_size-metric_list query.metrics),
        )

module _ {D : Type 0} (d : Double D) {steps : ℕ} (laws : IsScalable d steps)
    (sums : SumsFinite d laws) {e : Engine} {row : ℕ → TradeData} {n : ℕ} (holds : Holds e row n)
    (sorted : IsSorted row n) (pos : 0 < n) where
  -- If the doubles can be scaled and the sums are finite, and the engine has a sorted file that is
  -- not empty and counts its trades right, then the worker answers every query whose resolution is
  -- above 0 and whose times do not wrap: with more turns than intervals its loop ends, and the
  -- result is for the client that asked and has, for each interval, as many bytes as the client's
  -- metrics ask for.
  pub process_work-answered :
      (k turns : ℕ) (work : WorkItem)
      → NoWrap work.query
      → 0 < work.query.resolution
      → int_ceil (work.query.end_time_point - work.query.start_time_point) work.query.resolution
        < turns
      → Returns (process_work d steps e (suc (suc k)) turns work) (λ result.
        (result.client_fd ≡ work.client_fd)
        × (length result.res
            ≡ int_ceil
                (work.query.end_time_point - work.query.start_time_point)
                work.query.resolution
              * interval_size work.query.metrics))
  process_work-answered k turns work w r enough =
      process_work-Returns d steps e (engine_answers d laws sums holds sorted pos) k turns work w r
        enough
