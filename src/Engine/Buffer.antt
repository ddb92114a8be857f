-- ===== src/Engine/Buffer.antt =====
-- `Query_engine::aggregator` of src/query_engine/query_engine.cc: when it ends, and what it returns.
use native.Mathlib.Decide.{dec_lt}
use native.Mathlib.Nat.{
  div-eq-sub-div, mod-eq-sub-mod, div-eq_of_lt, mod-eq_of_lt, zero-div, zero-mod,
}
use group_trade_data_query.Common.{
  ℕ, zero, suc, ◌+◌, ◌-◌, ◌*◌, ◌≤◌, ◌<◌, ◌≡◌, refl, ap, ◌∙◌, inl, inr, List, [], ◌++◌, arith,
  if◌then◌else◌, Bool-cases, length, length-append,
}
use group_trade_data_query.Common.Word.{u64_mod, add64, bit_set}
use group_trade_data_query.Common.Run.{ok, ◌>>=◌, Returns, Returns→ok}
use group_trade_data_query.Query.{TradeDataQuery}
use group_trade_data_query.Engine.{Engine, int_ceil}
use group_trade_data_query.Engine.Double.{Double}
use group_trade_data_query.Engine.Aggregator.{
  interval_end, metric_bytes, interval_bytes, aggregate_from,
}

int_ceil-zero : (r : ℕ) → int_ceil 0 r ≡ 0
unfolding int_ceil
int_ceil-zero r = ground (arith, zero-div r, zero-mod r)

-- One more interval of `r`.
int_ceil-suc : (x r : ℕ) → 0 < r → 0 < x → int_ceil x r ≡ suc (int_ceil (x - r) r)
unfolding int_ceil
int_ceil-suc x r p q = elim (dec_lt x r) [
  | yes less ↦ ground (arith, div-eq_of_lt less, mod-eq_of_lt less, zero-div r, zero-mod r)
  | no more ↦ ground (arith, div-eq-sub-div {m = r} {n = x} p, mod-eq-sub-mod {n = x} {m = r})
]

-- The bytes that a metric takes in the result.
abbrev pub metric_size : ℕ → ℕ
metric_size zero = 10
metric_size (suc zero) = 5
metric_size (suc (suc zero)) = 5
metric_size (suc (suc (suc i))) = 0

abbrev pub sizes_from : ℕ → ℕ → ℕ → ℕ
sizes_from zero i chooser = 0
sizes_from (suc left) i chooser =
    (if bit_set chooser i then metric_size i else 0) + sizes_from left (i + 1) chooser

-- The bytes of one interval: 10 for the extremes, 5 for the mean and 5 for the quantity.
abbrev pub set_size : ℕ → ℕ
set_size chooser =
    (if bit_set chooser 0 then 10 else 0)
    + (if bit_set chooser 1 then 5 else 0)
    + (if bit_set chooser 2 then 5 else 0)

-- No start of an interval wraps around.
abbrev pub NoWrap : TradeDataQuery → Type 0
NoWrap query = query.end_time_point + query.resolution ≤ u64_mod

pub interval_end_bounds :
    (query : TradeDataQuery) (start_time : ℕ)
    → NoWrap query
    → 0 < query.resolution
    → start_time < query.end_time_point
    → (start_time < interval_end query start_time)
      × (interval_end query start_time ≤ query.end_time_point)
      × (interval_end query start_time ≤ start_time + query.resolution)
      × (add64 start_time query.resolution ≡ start_time + query.resolution)
unfolding interval_end add64
interval_end_bounds query start_time w r h = ground arith

pub int_ceil_step :
    (query : TradeDataQuery) (start_time : ℕ)
    → 0 < query.resolution
    → start_time < query.end_time_point
    → int_ceil (query.end_time_point - start_time) query.resolution
      ≡ suc (int_ceil (query.end_time_point - (start_time + query.resolution)) query.resolution)
int_ceil_step query start_time r h =
    int_ceil-suc (query.end_time_point - start_time) query.resolution r (omega arith)
    ∙ ap (λ (x : ℕ). suc (int_ceil x query.resolution))
        {x = query.end_time_point - start_time - query.resolution}
        {y = query.end_time_point - (start_time + query.resolution)} (omega arith)

length_turn :
    (bytes rest : List ℕ) {c c' size : ℕ}
    → c ≡ suc c'
    → length bytes ≡ size
    → length rest ≡ c' * size
    → length (bytes ++ rest) ≡ c * size
length_turn bytes rest e f g = rw (length-append bytes rest, e, f, g) (omega arith)

module _ {D : Type 0} (d : Double D) (fuel : ℕ) (e : Engine) where
  pub aggregate_done :
      (turns chooser : ℕ) (query : TradeDataQuery) (start_time : ℕ)
      → query.end_time_point ≤ start_time
      → aggregate_from d fuel e (suc turns) chooser query start_time ≡ ok []
  unfolding aggregate_from
  aggregate_done turns chooser query start_time h = ground arith

  pub aggregate_step :
      (turns chooser : ℕ) (query : TradeDataQuery) (start_time : ℕ)
      → start_time < query.end_time_point
      → aggregate_from d fuel e (suc turns) chooser query start_time ≡ (
          interval_bytes d fuel e 8 0 chooser start_time (interval_end query start_time)
          >>= λ bytes.
              aggregate_from d fuel e turns chooser query (add64 start_time query.resolution)
              >>= λ rest. ok (bytes ++ rest))
  unfolding aggregate_from
  aggregate_step turns chooser query start_time h = ground arith

  pub aggregate_turn :
      (turns chooser : ℕ) (query : TradeDataQuery) (start_time next : ℕ) (bytes rest : List ℕ)
      → start_time < query.end_time_point
      → add64 start_time query.resolution ≡ next
      → interval_bytes d fuel e 8 0 chooser start_time (interval_end query start_time) ≡ ok bytes
      → aggregate_from d fuel e turns chooser query next ≡ ok rest
      → aggregate_from d fuel e (suc turns) chooser query start_time ≡ ok (bytes ++ rest)
  unfolding aggregate_from
  aggregate_turn turns chooser query start_time next bytes rest h e run run' = ground arith

  -- Every metric of every proper interval is computed.
  abbrev pub Answers : Type 0
  Answers =
      (i start_time end_time : ℕ)
      → start_time < end_time
      → (bytes : List ℕ) × (metric_bytes d fuel e i start_time end_time ≡ ok bytes)
        × (length bytes ≡ metric_size i)

  module _ (answers : Answers) where
    interval_bytes-Returns :
        (left i chooser start_time end_time : ℕ)
        → start_time < end_time
        → Returns
            (interval_bytes d fuel e left i chooser start_time end_time)
            (λ bytes. length bytes ≡ sizes_from left i chooser)
    unfolding interval_bytes
    interval_bytes-Returns zero i chooser start_time end_time h = refl
    interval_bytes-Returns (suc left) i chooser start_time end_time h =
        let (bytes, run, size) = answers i start_time end_time h in
        let (rest, run', size') =
          Returns→ok (interval_bytes d fuel e left (i + 1) chooser start_time end_time) _
            (interval_bytes-Returns left (i + 1) chooser start_time end_time h) in
        elim (Bool-cases (bit_set chooser i)) [
          | inl on ↦ rw (on, run, run', length-append bytes rest) (omega arith)
          | inr off ↦ rw (off, run') (omega arith)
        ]

    sizes_set_size : (chooser : ℕ) → sizes_from 8 0 chooser ≡ set_size chooser
    sizes_set_size chooser = ground arith

    pub interval-answer :
        (chooser start_time end_time : ℕ)
        → start_time < end_time
        → (bytes : List ℕ) × (interval_bytes d fuel e 8 0 chooser start_time end_time ≡ ok bytes)
          × (length bytes ≡ set_size chooser)
    interval-answer chooser start_time end_time h =
        let (bytes, run, size) =
          Returns→ok (interval_bytes d fuel e 8 0 chooser start_time end_time) _
            (interval_bytes-Returns 8 0 chooser start_time end_time h) in
        (bytes, run, size ∙ sizes_set_size chooser)

    -- If every metric of every interval is computed, the resolution is above 0, the times do not
    -- wrap and there are more turns than intervals, then the loop ends, and the result has as many
    -- bytes for each interval as the chosen metrics take.
    pub aggregate_from-Returns :
        (chooser : ℕ) (query : TradeDataQuery)
        → NoWrap query
        → 0 < query.resolution
        → (turns start_time : ℕ)
        → int_ceil (query.end_time_point - start_time) query.resolution < turns
        → Returns (aggregate_from d fuel e turns chooser query start_time) (λ bytes.
          length bytes
          ≡ int_ceil (query.end_time_point - start_time) query.resolution * set_size chooser)
    aggregate_from-Returns chooser query w r zero start_time h = absurd (omega arith)
    aggregate_from-Returns chooser query w r (suc turns) start_time h =
        elim (dec_lt start_time query.end_time_point) [
          | no over ↦
              let nothing : query.end_time_point - start_time ≡ 0 = omega arith in
              rw
                (
                  aggregate_done turns chooser query start_time (omega arith),
                  nothing,
                  int_ceil-zero query.resolution,
                )
                (omega arith)
          | yes more ↦
              let (after, within, short, next) = interval_end_bounds query start_time w r more in
              let count = int_ceil_step query start_time r more in
              let (bytes, run, size) =
                interval-answer chooser start_time (interval_end query start_time) after in
              let (rest, run', size') =
                Returns→ok
                  (aggregate_from d fuel e turns chooser query (start_time + query.resolution)) _
                  (aggregate_from-Returns chooser query w r turns (start_time + query.resolution)
                    (omega arith)) in
              rw
                (aggregate_turn turns chooser query start_time (start_time + query.resolution) bytes
                  rest more next run run')
                (length_turn bytes rest count size size')
        ]
