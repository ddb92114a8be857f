-- ===== src/Engine/MinMax.antt =====
-- `min_max_price_in_range` of src/query_engine/query_engine.cc.
use group_trade_data_query.Common.{
  ◌≢◌, ℕ, suc, ◌≤◌, ◌<◌, ◌≡◌, refl, ◌∙◌, Bool, true, false, ◌⊎◌, inl, inr, List, [], ◌∷◌, foldl,
  arith, if◌then◌else◌, Bool-cases, lt→ltb, All,
}
use mathlib.Core.Path.{ap₂}
use group_trade_data_query.Common.Run.{ok}
use group_trade_data_query.Query.{TradeData}
use group_trade_data_query.Engine.{Engine, locate, scan, rounds}
use group_trade_data_query.Engine.Double.{Double, IsOrdered}
use group_trade_data_query.Engine.Metrics.{
  Extremes, price_val, no_extremes, visit, min_max_price_in_range, zero_price,
}
use group_trade_data_query.Engine.Search.{Holds, IsSorted}
use group_trade_data_query.Engine.Window.{scan-foldl, Located, locate-Located}
use group_trade_data_query.Engine.Coverage.{
  range_trades, scanned, range_nonempty, Located_fits, Located_hit, Located_late, Located_early,
  Located_gap,
}

-- `t` stands in the list.
abbrev pub In : TradeData → List TradeData → Type 0
In t [] = ⊥
In t (u ∷ us) = (t ≡ u) ⊎ In t us

In-pick :
    (b : Bool) (x old t : TradeData) (ts : List TradeData)
    → In x ((if b then t else old) ∷ ts)
    → In x (old ∷ t ∷ ts)
In-pick true x old t ts h = inr h
In-pick false x old t ts (inl e) = inl e
In-pick false x old t ts (inr h) = inr (inr h)

module _ {D : Type 0} (d : Double D) where
  open d use {lt}

  -- No trade of the list is worth less than `t`.
  abbrev pub Cheapest : TradeData → List TradeData → Type 0
  Cheapest t = All (λ u. lt (price_val d u) (price_val d t) ≡ false)

  abbrev pub Dearest : TradeData → List TradeData → Type 0
  Dearest t = All (λ u. lt (price_val d t) (price_val d u) ≡ false)

  -- The scan has picked these two trades.
  record Picks (s : Extremes D) (lo hi : TradeData) : Type 0 where
    started : s.first ≡ false
    min_val : s.min_val ≡ price_val d lo
    max_val : s.max_val ≡ price_val d hi
    min_p : s.min_p ≡ lo.price
    max_p : s.max_p ≡ hi.price

  lower : TradeData → TradeData → TradeData
  lower t lo = if lt (price_val d t) (price_val d lo) then t else lo

  higher : TradeData → TradeData → TradeData
  higher t hi = if lt (price_val d hi) (price_val d t) then t else hi

  visit-first : (t : TradeData) → Picks (visit d (no_extremes d) t) t t
  unfolding visit
  visit-first t = record {
    started = refl;
    min_val = refl;
    max_val = refl;
    min_p = refl;
    max_p = refl;
  }

  visit-Picks :
      (s : Extremes D) (lo hi t : TradeData)
      → Picks s lo hi
      → Picks (visit d s t) (lower t lo) (higher t hi)
  unfolding visit lower higher
  visit-Picks s lo hi t k = record {
    started = refl;
    min_val = ground (arith, k.started, k.min_val);
    max_val = ground (arith, k.started, k.max_val);
    min_p = ground (arith, k.started, k.min_val, k.min_p);
    max_p = ground (arith, k.started, k.max_val, k.max_p);
  }

  -- What the scan of the rest of the trades picks, given the picks so far.
  abbrev Picked : Extremes D → TradeData → TradeData → List TradeData → Type 0
  Picked s lo hi ts =
      (lo' : TradeData) × (hi' : TradeData) × Picks (foldl (visit d) s ts) lo' hi'
      × In lo' (lo ∷ ts)
      × Cheapest lo' (lo ∷ ts)
      × In hi' (hi ∷ ts)
      × Dearest hi' (hi ∷ ts)

  module _ (laws : IsOrdered d) where
    num : (t : TradeData) → laws.is_nan (price_val d t) ≡ false
    num t = laws.decimal_num _ _

    lt_self : (t : TradeData) → lt (price_val d t) (price_val d t) ≡ false
    lt_self t = elim (Bool-cases (lt (price_val d t) (price_val d t))) [
      | inl e ↦ laws.lt_asym _ _ (num t) (num t) e
      | inr e ↦ e
    ]

    -- The order of prices as the scan compares them.
    not-lt_trans :
        (t u v : TradeData)
        → lt (price_val d t) (price_val d u) ≡ false
        → lt (price_val d u) (price_val d v) ≡ false
        → lt (price_val d t) (price_val d v) ≡ false
    not-lt_trans t u v = laws.not-lt_trans _ _ _ (num t) (num u) (num v)

    Cheapest-lower :
        (t lo lo' : TradeData) (ts : List TradeData)
        → Cheapest lo' (lower t lo ∷ ts)
        → Cheapest lo' (lo ∷ t ∷ ts)
    unfolding lower
    Cheapest-lower t lo lo' ts c = elim (Bool-cases (lt (price_val d t) (price_val d lo))) [
      | inl e ↦
          let (a, b) = rw e at c in
          (not-lt_trans lo t lo' (laws.lt_asym _ _ (num t) (num lo) e) a, (a, b))
      | inr e ↦ let (a, b) = rw e at c in (a, (not-lt_trans t lo lo' e a, b))
    ]

    Dearest-higher :
        (t hi hi' : TradeData) (ts : List TradeData)
        → Dearest hi' (higher t hi ∷ ts)
        → Dearest hi' (hi ∷ t ∷ ts)
    unfolding higher
    Dearest-higher t hi hi' ts c = elim (Bool-cases (lt (price_val d hi) (price_val d t))) [
      | inl e ↦
          let (a, b) = rw e at c in
          (not-lt_trans hi' t hi a (laws.lt_asym _ _ (num hi) (num t) e), (a, b))
      | inr e ↦ let (a, b) = rw e at c in (a, (not-lt_trans hi' hi t a e, b))
    ]

    foldl-visit :
        (s : Extremes D) (lo hi : TradeData) (ts : List TradeData)
        → Picks s lo hi
        → Picked s lo hi ts
    unfolding lower higher
    foldl-visit s lo hi [] k = (lo, hi, k, inl refl, (lt_self lo, tt), inl refl, (lt_self hi, tt))
    foldl-visit s lo hi (t ∷ ts) k =
        let (lo', hi', picks, inlo, cheap, inhi, dear) =
          foldl-visit (visit d s t) (lower t lo) (higher t hi) ts (visit-Picks s lo hi t k) in
        (
          lo',
          hi',
          picks,
          In-pick (lt (price_val d t) (price_val d lo)) lo' lo t ts inlo,
          Cheapest-lower t lo lo' ts cheap,
          In-pick (lt (price_val d hi) (price_val d t)) hi' hi t ts inhi,
          Dearest-higher t hi hi' ts dear,
        )

    -- On a list that is not empty the scan ends with the prices of a cheapest and of a dearest trade.
    pub foldl-visit_nonempty :
        (ts : List TradeData)
        → ts ≢ []
        → let s = foldl (visit d) (no_extremes d) ts in
          (lo : TradeData) × (hi : TradeData) × (s.min_p ≡ lo.price)
          × (s.max_p ≡ hi.price)
          × In lo ts
          × Cheapest lo ts
          × In hi ts
          × Dearest hi ts
    foldl-visit_nonempty [] h = absurd (h refl)
    foldl-visit_nonempty (t ∷ ts) h =
        let (lo, hi, picks, a, b, c, e) =
          foldl-visit (visit d (no_extremes d) t) t t ts (visit-first t) in
        (lo, hi, picks.min_p, picks.max_p, a, b, c, e)

  pub min_max_price-locate :
      (e : Engine) (start_time end_time : ℕ) (p : ℕ × ℕ) (s : Extremes D)
      → start_time < end_time
      → locate e start_time end_time ≡ ok p
      → scan (visit d) e (rounds p.0 p.1) p.0 (no_extremes d) ≡ ok s
      → min_max_price_in_range d e start_time end_time ≡ ok (s.min_p, s.max_p)
  unfolding min_max_price_in_range
  min_max_price-locate e start_time end_time p s h found scanned = rw (lt→ltb _ _ h, found, scanned)

  module _ {e : Engine} {row : ℕ → TradeData} {n : ℕ} (holds : Holds e row n)
      (sorted : IsSorted row n) (start_time end_time : ℕ) (order : start_time < end_time) where
    -- The answer is that of a fold over the trades that the scan visits.
    pub min_max_fold :
        0 < n
        → (p : ℕ × ℕ) × Located row n start_time end_time p
          × (let s = foldl (visit d) (no_extremes d) (scanned row p) in
              min_max_price_in_range d e start_time end_time ≡ ok (s.min_p, s.max_p))
    min_max_fold pos =
        let (p, found, located) = locate-Located holds sorted start_time end_time pos in
        (
          p,
          located,
          min_max_price-locate e start_time end_time p _ order found (
              scan-foldl (visit d) holds (rounds p.0 p.1) p.0 (no_extremes d)
                (Located_fits sorted start_time end_time p located pos)),
        )

    -- If the doubles are ordered, the engine counts the trades of its file right, the file is
    -- sorted, the range starts before it ends and some trade is in it, then the call returns the
    -- prices of a cheapest and of a dearest trade among exactly the trades of the range.
    pub min_max_price_in_range-extremes :
        IsOrdered d
        → (k : ℕ) → k < n
        → start_time ≤ (row k).created_at
        → (row k).created_at < end_time
        → (lo : TradeData) × (hi : TradeData) × (min_max_price_in_range d e start_time end_time
            ≡ ok (lo.price, hi.price))
          × In lo (range_trades row n start_time end_time)
          × Cheapest lo (range_trades row n start_time end_time)
          × In hi (range_trades row n start_time end_time)
          × Dearest hi (range_trades row n start_time end_time)
    min_max_price_in_range-extremes laws k kn ks ke =
        let (p, located, result) = min_max_fold (omega arith) in
        let same = Located_hit sorted start_time end_time p located k kn ks ke in
        let (lo, hi, a, b, c, f, g, h) =
          foldl-visit_nonempty laws (range_trades row n start_time end_time)
            (range_nonempty row n start_time end_time k kn ks ke) in
        (lo, hi, (rw same at result) ∙ ap₂ (λ x y. ok (x, y)) a b, c, f, g, h)

    -- If the engine counts the trades of its file right, the file is sorted and the range starts
    -- before it ends and after the last trade, then the call returns the price of the last trade
    -- twice, which is not in the range.
    pub min_max_price_in_range_late :
        (k : ℕ)
        → n ≡ suc k
        → (row k).created_at < start_time
        → min_max_price_in_range d e start_time end_time ≡ ok ((row k).price, (row k).price)
    unfolding visit
    min_max_price_in_range_late k kn ks =
        let (p, located, result) = min_max_fold (omega arith) in
        rw (Located_late sorted start_time end_time p located k kn ks order) at result

    -- If the engine counts the trades of its file right, the file is sorted and not empty, and the
    -- range starts before it ends and ends before or at the first trade, then the call returns the
    -- price of the first trade twice, which is not in the range.
    pub min_max_price_in_range_early :
        0 < n
        → end_time ≤ (row 0).created_at
        → min_max_price_in_range d e start_time end_time ≡ ok ((row 0).price, (row 0).price)
    unfolding visit
    min_max_price_in_range_early pos ke =
        let (p, located, result) = min_max_fold pos in
        rw (Located_early sorted start_time end_time p located pos order ke) at result

    -- If the engine counts the trades of its file right, the file is sorted, and the range starts
    -- before it ends and lies between two neighbours of the file, then the call returns two zero
    -- prices.
    pub min_max_price_in_range_gap :
        (k : ℕ)
        → suc k < n
        → (row k).created_at < start_time
        → end_time ≤ (row (suc k)).created_at
        → min_max_price_in_range d e start_time end_time ≡ ok (zero_price, zero_price)
    min_max_price_in_range_gap k kn ks ke =
        let (p, located, result) = min_max_fold (omega arith) in
        rw (Located_gap sorted start_time end_time p located k kn order ks ke) at result
