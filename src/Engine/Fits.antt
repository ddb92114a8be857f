-- ===== src/Engine/Fits.antt =====
-- The numbers that src/query_engine/query_engine.cc answers are in the range of their types.
use group_trade_data_query.Common.{
  ℕ, zero, suc, ◌<◌, ◌≡◌, sym, subst, ◌∙◌, Bool, true, false, some, List, arith, ltb, ◌==◌,
  if◌then◌else◌, length, take, drop, Bool-cases, inl, inr,
}
use group_trade_data_query.Common.Word.{add64, mul64}
use group_trade_data_query.Common.Run.{
  ok, err, read_failed, assertion, require, >>=-ok, ok-injective, err-not-ok,
}
use group_trade_data_query.Query.{Price, PriceFits, QuantityFits, TradeData, TradeFits}
use group_trade_data_query.Query.Codec.{decode_trade, sizeof_trade}
use group_trade_data_query.Query.Codec.Bounds.{
  AreBytes, drop-AreBytes, take-AreBytes, decode_trade-TradeFits,
}
use group_trade_data_query.Engine.Computed.{Answer, Computed}
use group_trade_data_query.Engine.Search.{Holds, IsSorted}
use group_trade_data_query.Engine.Totals.{SumsFinite, mean_price_scanned, total_quantity_scanned}
use group_trade_data_query.Engine.{Engine, open_engine, read_trade_data, locate, scan, rounds}
use group_trade_data_query.Engine.Double.{Double, IsScalable}
use group_trade_data_query.Engine.Metrics.{
  Extremes, visit, no_extremes, zero_price, min_max_price_in_range,
}

-- Every trade that is read is in range.
abbrev pub ReadsFit : Engine → Type 0
ReadsFit e = (i : ℕ) (t : TradeData) → read_trade_data e i ≡ ok t → TradeFits t

decoded_block :
    (block : List ℕ) (i : ℕ) (t : TradeData)
    → AreBytes block
    → (if length block == sizeof_trade then ok (decode_trade block) else err (read_failed i)) ≡ ok t
    → TradeFits t
decoded_block block i t h e = elim (Bool-cases (length block == sizeof_trade)) [
  | inl whole ↦
      let same : decode_trade block ≡ t = ok-injective (rw whole at e) in
      rw (sym same) (decode_trade-TradeFits block h)
  | inr short ↦ absurd (err-not-ok (rw short at e))
]

-- The trades that are read of a file of bytes are in the range of their types, whatever the file.
pub read_trade_data-TradeFits :
    (garbage : ℕ) (bytes : List ℕ) → AreBytes bytes → ReadsFit (open_engine garbage (some bytes))
unfolding open_engine read_trade_data
read_trade_data-TradeFits garbage bytes h i t e =
    decoded_block (take sizeof_trade (drop (mul64 i sizeof_trade) bytes)) i t
      (take-AreBytes sizeof_trade _ (drop-AreBytes (mul64 i sizeof_trade) bytes h)) e

module _ {S : Type 0} (body : S → TradeData → S) (e : Engine) (fits : ReadsFit e) (I : S → Type 0)
    (keeps : (s : S) (t : TradeData) → TradeFits t → I s → I (body s t)) where
  -- What holds before a scan and is kept by its body holds when the scan returns.
  scan-keeps : (k i : ℕ) (s r : S) → scan body e k i s ≡ ok r → I s → I r
  unfolding scan
  scan-keeps zero i s r run h = let same : s ≡ r = ok-injective run in rw (sym same) h
  scan-keeps (suc k) i s r run h =
      let (t, read, run') = >>=-ok (read_trade_data e i) _ r run in
      scan-keeps k (add64 i 1) (body s t) r run' (keeps s t (fits i t read) h)

abbrev BothFit : {D : Type 0} → Extremes D → Type 0
BothFit s = PriceFits s.min_p × PriceFits s.max_p

if_fits : (b : Bool) (p q : Price) → PriceFits p → PriceFits q → PriceFits (if b then p else q)
if_fits true p q h g = h
if_fits false p q h g = g

module _ {D : Type 0} (d : Double D) (e : Engine) (fits : ReadsFit e) where
  visit-BothFit : (s : Extremes D) (t : TradeData) → TradeFits t → BothFit s → BothFit (visit d s t)
  unfolding visit
  visit-BothFit s t h g =
      (if_fits _ t.price s.min_p h.price_fits g.0, if_fits _ t.price s.max_p h.price_fits g.1)

  -- The prices that are returned are in the range of their types.
  pub min_max_price-PriceFits :
      (s t : ℕ) (p : Price × Price)
      → min_max_price_in_range d e s t ≡ ok p
      → PriceFits p.0 × PriceFits p.1
  unfolding min_max_price_in_range
  min_max_price-PriceFits s t p run =
      let (u, ordered, run₁) = >>=-ok (require (ltb s t) assertion) _ p run in
      let (idx, found, run₂) = >>=-ok (locate e s t) _ p run₁ in
      let (r, scanned, run₃) =
        >>=-ok (scan (visit d) e (rounds idx.0 idx.1) idx.0 (no_extremes d)) _ p run₂ in
      let none_fit : PriceFits zero_price = record {
        price_lt = omega arith;
        exponent_lt = omega arith;
      } in
      let same : (r.min_p, r.max_p) ≡ p = ok-injective run₃ in
      rw (sym same) (
        scan-keeps (visit d) e fits BothFit visit-BothFit (rounds idx.0 idx.1) idx.0 (no_extremes d)
          r scanned (none_fit, none_fit))

pub record AnswerFits (a : Answer) : Type 0 where
  pub lo_fits : PriceFits a.lo
  pub hi_fits : PriceFits a.hi
  pub mean_fits : PriceFits a.mean
  pub total_fits : QuantityFits a.total

module _ {D : Type 0} (d : Double D) {steps : ℕ} (laws : IsScalable d steps)
    (sums : SumsFinite d laws) {e : Engine} {row : ℕ → TradeData} {n : ℕ} (holds : Holds e row n)
    (sorted : IsSorted row n) (pos : 0 < n) (fits : ReadsFit e) where
  -- The numbers of an answer are in the range of their types.
  pub Computed-AnswerFits : (s t : ℕ) (a : Answer) → s < t → Computed d steps e s t a → AnswerFits a
  Computed-AnswerFits s t a order computed =
      let (lo, hi) = min_max_price-PriceFits d e fits s t (a.lo, a.hi) computed.extremes in
      let (p, r, located, scaled, run, mean) =
        mean_price_scanned d laws sums holds sorted s t order pos in
      let (p', r', located', scaled', run', total) =
        total_quantity_scanned d laws sums holds sorted s t order pos in
      record {
        lo_fits = lo;
        hi_fits = hi;
        mean_fits = subst PriceFits (ok-injective (sym run ∙ computed.mean_price)) mean;
        total_fits = subst QuantityFits (ok-injective (sym run' ∙ computed.total_quantity)) total;
      }
