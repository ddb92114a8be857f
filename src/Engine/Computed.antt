-- ===== src/Engine/Computed.antt =====
-- The result of `Query_engine::aggregator` of src/query_engine/query_engine.cc with all three metrics, read as the
-- answers of its intervals.
use native.Mathlib.Decide.{dec_lt}
use group_trade_data_query.Common.{
  subst, ℕ, zero, suc, ◌+◌, ◌<◌, ◌≤◌, ◌≡◌, refl, sym, ◌∙◌, true, List, [], ◌∷◌, ◌++◌, arith, All,
}
use group_trade_data_query.Common.Word.{add64, bit_set}
use group_trade_data_query.Common.Run.{ok, ok-injective, >>=-ok}
use group_trade_data_query.Query.{TradeDataQuery, Price, Quantity}
use group_trade_data_query.Query.Codec.{encode_price, encode_quantity}
use group_trade_data_query.Engine.{Engine}
use group_trade_data_query.Engine.Double.{Double}
use group_trade_data_query.Engine.Metrics.{
  min_max_price_in_range, mean_price_in_range, total_quantity_in_range,
}
use group_trade_data_query.Engine.Aggregator.{
  interval_end, metric_bytes, interval_bytes, aggregate_from,
}
use group_trade_data_query.Engine.Buffer.{
  NoWrap, interval_end_bounds, aggregate_done, aggregate_step,
}

-- The metrics of one interval.
pub record Answer : Type 0 where
  pub lo : Price
  pub hi : Price
  pub mean : Price
  pub total : Quantity

abbrev pub answer_bytes : Answer → List ℕ
answer_bytes a =
    (encode_price a.lo ++ encode_price a.hi)
    ++ (encode_price a.mean ++ (encode_quantity a.total ++ []))

abbrev pub all_bytes : List Answer → List ℕ
all_bytes [] = []
all_bytes (a ∷ rest) = answer_bytes a ++ all_bytes rest

-- An answer for each interval of the query from `start_time` on, in order, and each in the relation `R` to its
-- interval.
pub data Covers (R : ℕ → ℕ → Answer → Type 0) (query : TradeDataQuery)
    : ℕ → List Answer → Type 0 where
  over : (start_time : ℕ) → query.end_time_point ≤ start_time → Covers R query start_time []
  next :
      (start_time : ℕ) (a : Answer) (rest : List Answer)
      → start_time < query.end_time_point
      → R start_time (interval_end query start_time) a
      → Covers R query (start_time + query.resolution) rest
      → Covers R query start_time (a ∷ rest)

pub Covers-map :
    {R S : ℕ → ℕ → Answer → Type 0} (query : TradeDataQuery)
    → NoWrap query
    → 0 < query.resolution
    → ((s t : ℕ) (a : Answer) → s < t → R s t a → S s t a)
    → (start_time : ℕ) (answers : List Answer) → Covers R query start_time answers
    → Covers S query start_time answers
Covers-map query w r f start_time answers (over _ done) = over start_time done
Covers-map query w r f start_time answers (next _ a rest more h covers) =
    next start_time a rest more
      (f start_time (interval_end query start_time) a
        (interval_end_bounds query start_time w r more).0 h)
      (Covers-map query w r f (start_time + query.resolution) rest covers)

-- So does what follows from the relation for each answer.
pub Covers-All :
    {R : ℕ → ℕ → Answer → Type 0} {P : Answer → Type 0} (query : TradeDataQuery)
    → NoWrap query
    → 0 < query.resolution
    → ((s t : ℕ) (a : Answer) → s < t → R s t a → P a)
    → (start_time : ℕ) (answers : List Answer) → Covers R query start_time answers
    → All P answers
Covers-All query w r f start_time answers (over _ done) = tt
Covers-All query w r f start_time answers (next _ a rest more h covers) = (
  f start_time (interval_end query start_time) a (interval_end_bounds query start_time w r more).0
      h,
  Covers-All query w r f (start_time + query.resolution) rest covers,
)

module _ {D : Type 0} (d : Double D) (fuel : ℕ) (e : Engine) where
  -- The engine's answer for the interval from `s` to `t`.
  pub record Computed (s t : ℕ) (a : Answer) : Type 0 where
    pub extremes : min_max_price_in_range d e s t ≡ ok (a.lo, a.hi)
    pub mean_price : mean_price_in_range d fuel e s t ≡ ok a.mean
    pub total_quantity : total_quantity_in_range d fuel e s t ≡ ok a.total

  abbrev pub Answered : TradeDataQuery → ℕ → List Answer → Type 0
  Answered = Covers Computed

  extremes_back :
      (s t : ℕ) (bytes : List ℕ)
      → metric_bytes d fuel e 0 s t ≡ ok bytes
      → (p : Price × Price) × (min_max_price_in_range d e s t ≡ ok p)
        × (encode_price p.0 ++ encode_price p.1 ≡ bytes)
  unfolding metric_bytes
  extremes_back s t bytes run =
      let (p, first, last) = >>=-ok (min_max_price_in_range d e s t) _ bytes run in
      (p, first, ok-injective last)

  mean_back :
      (s t : ℕ) (bytes : List ℕ)
      → metric_bytes d fuel e 1 s t ≡ ok bytes
      → (p : Price) × (mean_price_in_range d fuel e s t ≡ ok p) × (encode_price p ≡ bytes)
  unfolding metric_bytes
  mean_back s t bytes run =
      let (p, first, last) = >>=-ok (mean_price_in_range d fuel e s t) _ bytes run in
      (p, first, ok-injective last)

  total_back :
      (s t : ℕ) (bytes : List ℕ)
      → metric_bytes d fuel e 2 s t ≡ ok bytes
      → (q : Quantity) × (total_quantity_in_range d fuel e s t ≡ ok q) × (encode_quantity q ≡ bytes)
  unfolding metric_bytes
  total_back s t bytes run =
      let (p, first, last) = >>=-ok (total_quantity_in_range d fuel e s t) _ bytes run in
      (p, first, ok-injective last)

  -- A metric that is asked for, in front of the others.
  metric_turn :
      (left i chooser s t : ℕ) (bytes : List ℕ)
      → bit_set chooser i ≡ true
      → interval_bytes d fuel e (suc left) i chooser s t ≡ ok bytes
      → (front : List ℕ) × (rest : List ℕ) × (metric_bytes d fuel e i s t ≡ ok front)
        × (interval_bytes d fuel e left (i + 1) chooser s t ≡ ok rest)
        × (front ++ rest ≡ bytes)
  unfolding interval_bytes
  metric_turn left i chooser s t bytes on run =
      let (front, first, run') = >>=-ok (metric_bytes d fuel e i s t) _ bytes (rw on at run) in
      let (rest, second, run'') =
        >>=-ok (interval_bytes d fuel e left (i + 1) chooser s t) _ bytes run' in
      (front, rest, first, second, ok-injective run'')

  no_more_metrics : (s t : ℕ) → interval_bytes d fuel e 5 3 7 s t ≡ ok []
  unfolding interval_bytes bit_set
  no_more_metrics s t = refl

  interval-Computed :
      (s t : ℕ) (bytes : List ℕ)
      → interval_bytes d fuel e 8 0 7 s t ≡ ok bytes
      → (a : Answer) × Computed s t a × (answer_bytes a ≡ bytes)
  unfolding bit_set
  interval-Computed s t bytes run =
      let (b₀, r₀, m₀, run₀, e₀) = metric_turn 7 0 7 s t bytes refl run in
      let (b₁, r₁, m₁, run₁, e₁) = metric_turn 6 1 7 s t r₀ refl run₀ in
      let (b₂, r₂, m₂, run₂, e₂) = metric_turn 5 2 7 s t r₁ refl run₁ in
      let (p, extremes, f₀) = extremes_back s t b₀ m₀ in
      let (mean, mean_price, f₁) = mean_back s t b₁ m₁ in
      let (total, total_quantity, f₂) = total_back s t b₂ m₂ in
      let nothing : [] ≡ r₂ = ok-injective (sym (no_more_metrics s t) ∙ run₂) in
      (
        record { lo = p.0; hi = p.1; mean = mean; total = total },
        record { extremes = extremes; mean_price = mean_price; total_quantity = total_quantity },
        rw (f₀, f₁, f₂, nothing, e₂, e₁, e₀) refl,
      )

  -- Whatever the file, if the aggregator returns bytes for the extremes, the mean and the quantity, the
  -- resolution is above 0 and no time wraps, they are the bytes of one answer for each interval.
  pub aggregate_from-Answered :
      (query : TradeDataQuery)
      → NoWrap query
      → 0 < query.resolution
      → (turns start_time : ℕ) (bytes : List ℕ)
      → aggregate_from d fuel e turns 7 query start_time ≡ ok bytes
      → (answers : List Answer) × Answered query start_time answers × (all_bytes answers ≡ bytes)
  unfolding aggregate_from
  aggregate_from-Answered query w r zero start_time bytes run = absurd cc
  aggregate_from-Answered query w r (suc turns) start_time bytes run =
      elim (dec_lt start_time query.end_time_point) [
        | no done ↦ (
          [],
          over start_time (omega arith),
          ok-injective (sym (aggregate_done d fuel e turns 7 query start_time (omega arith)) ∙ run),
        )
        | yes more ↦
            let (after, within, short, same) = interval_end_bounds query start_time w r more in
            let (b, one, run') =
              >>=-ok (interval_bytes d fuel e 8 0 7 start_time (interval_end query start_time)) _
                bytes (sym (aggregate_step d fuel e turns 7 query start_time more) ∙ run) in
            let (b', others, run'') =
              >>=-ok (aggregate_from d fuel e turns 7 query (add64 start_time query.resolution)) _
                bytes run' in
            let (a, computed, f) =
              interval-Computed start_time (interval_end query start_time) b one in
            let (rest, answered, g) =
              aggregate_from-Answered query w r turns (start_time + query.resolution) b'
                (subst (λ x. aggregate_from d fuel e turns 7 query x ≡ ok b') same others) in
            (
              a ∷ rest,
              next start_time a rest more computed answered,
              rw (f, g) (ok-injective run''),
            )
      ]
