-- ===== src/Client/Skipped.antt =====
-- What src/client_main.cc prints of an answer with the extremes alone.
use group_trade_data_query.Common.{
  ℕ, ◌+◌, ◌*◌, ◌≡◌, refl, ◌∙◌, ◌≢◌, true, false, List, [], ◌∷◌, ◌++◌, arith, length, map, All,
}
use group_trade_data_query.Common.Int.{ℤ, signed8}
use group_trade_data_query.Common.Word.{le_bytes, bit_set}
use group_trade_data_query.Common.Run.{ok}
use group_trade_data_query.Query.{Price, PriceFits}
use group_trade_data_query.Server.Worker.{metric_list}
use group_trade_data_query.Client.Display.{
  Line, extremes, decimal_at, show_metric, show_metrics, show_sets, display,
}
use group_trade_data_query.Client.Decimals.{
  decimal_bytes, decimal_at_bytes, numbered, regroup₂, length-decimal, display_of_sets,
}

show_extremes :
    (output : List ℕ) (base : ℕ) (lo hi : ℕ × ℤ)
    → decimal_at output (base + 0) ≡ ok lo
    → decimal_at output (base + 5) ≡ ok hi
    → show_metrics output base 8 0 1 0 ≡ ok (extremes lo.0 lo.1 hi.0 hi.1 ∷ [])
unfolding show_metrics show_metric bit_set
show_extremes output base lo hi a b = rw (a, b)

-- Two intervals of which only the extremes were asked for.
pub record TwoExtremes : Type 0 where
  pub lo : Price
  pub hi : Price
  pub next_lo : Price
  pub next_hi : Price

pub record TwoExtremesFit (x : TwoExtremes) : Type 0 where
  pub lo_fits : PriceFits x.lo
  pub hi_fits : PriceFits x.hi

-- The bytes of the intervals, ten for each.
abbrev pub extremes_bytes : List TwoExtremes → List ℕ
extremes_bytes [] = []
extremes_bytes (x ∷ rest) =
    decimal_bytes x.lo.price x.lo.price_exponent
    ++ (decimal_bytes x.hi.price x.hi.price_exponent
        ++ (decimal_bytes x.next_lo.price x.next_lo.price_exponent
            ++ (decimal_bytes x.next_hi.price x.next_hi.price_exponent ++ extremes_bytes rest)))

-- The line of the first interval of two.
abbrev pub first_line : TwoExtremes → List Line
first_line x =
    extremes x.lo.price (signed8 x.lo.price_exponent) x.hi.price (signed8 x.hi.price_exponent) ∷ []

length-extremes_bytes : (xs : List TwoExtremes) → length (extremes_bytes xs) ≡ length xs * 20
unfolding le_bytes
length-extremes_bytes [] = omega arith
length-extremes_bytes (x ∷ rest) = omega (arith, length-extremes_bytes rest)

show_sets-first_lines :
    (output pre : List ℕ) (set : ℕ) (xs : List TwoExtremes)
    → All TwoExtremesFit xs
    → output ≡ pre ++ extremes_bytes xs
    → length pre ≡ set * 20
    → show_sets output 1 (length xs) set ≡ ok (numbered set (map first_line xs))
unfolding show_sets
show_sets-first_lines output pre set [] fits e at = refl
show_sets-first_lines output pre set (x ∷ rest) fits e at =
    let lo = decimal_bytes x.lo.price x.lo.price_exponent in
    let hi = decimal_bytes x.hi.price x.hi.price_exponent in
    let lo' = decimal_bytes x.next_lo.price x.next_lo.price_exponent in
    let hi' = decimal_bytes x.next_hi.price x.next_hi.price_exponent in
    let post = extremes_bytes rest in
    let e₁ = e ∙ regroup₂ pre lo (hi ++ (lo' ++ (hi' ++ post))) in
    let e₂ = e₁ ∙ regroup₂ (pre ++ lo) hi (lo' ++ (hi' ++ post)) in
    let e₃ = e₂ ∙ regroup₂ ((pre ++ lo) ++ hi) lo' (hi' ++ post) in
    let e₄ = e₃ ∙ regroup₂ (((pre ++ lo) ++ hi) ++ lo') hi' post in
    let at₁ = length-decimal pre x.lo.price x.lo.price_exponent (set * 20) at in
    let at₂ = length-decimal (pre ++ lo) x.hi.price x.hi.price_exponent (set * 20 + 5) at₁ in
    let at₃ =
      length-decimal ((pre ++ lo) ++ hi) x.next_lo.price x.next_lo.price_exponent (set * 20 + 5 + 5)
        at₂ in
    let at₄ =
      length-decimal (((pre ++ lo) ++ hi) ++ lo') x.next_hi.price x.next_hi.price_exponent
        (set * 20 + 5 + 5 + 5) at₃ in
    let shown =
      show_extremes output (set * 20) (x.lo.price, signed8 x.lo.price_exponent)
        (x.hi.price, signed8 x.hi.price_exponent)
        (decimal_at_bytes output pre (hi ++ (lo' ++ (hi' ++ post))) (set * 20 + 0) x.lo.price
          x.lo.price_exponent e (omega arith) fits.0.lo_fits.price_lt)
        (decimal_at_bytes output (pre ++ lo) (lo' ++ (hi' ++ post)) (set * 20 + 5) x.hi.price
          x.hi.price_exponent e₁ at₁ fits.0.hi_fits.price_lt) in
    rw (
      shown,
      show_sets-first_lines output ((((pre ++ lo) ++ hi) ++ lo') ++ hi') (set + 1) rest fits.1 e₄
          (omega arith),
    )

-- If the extremes alone are asked for, so that an interval has ten bytes, and the prices fit their
-- types, then the client, which takes every set for twenty bytes, prints of every two intervals
-- the first, numbered as if there were no other.
pub display_skips_intervals :
    (metrics : ℕ) (xs : List TwoExtremes)
    → bit_set metrics 0 ≡ true
    → bit_set metrics 26 ≡ false
    → bit_set metrics 33 ≡ false
    → All TwoExtremesFit xs
    → xs ≢ []
    → display metrics (extremes_bytes xs) ≡ ok (numbered 0 (map first_line xs))
unfolding metric_list
display_skips_intervals metrics [] a b c fits h = absurd (h refl)
display_skips_intervals metrics (x ∷ rest) a b c fits h =
    display_of_sets metrics 1 (length (x ∷ rest)) (extremes_bytes (x ∷ rest)) (rw (a, b, c))
      (omega arith) (length-extremes_bytes (x ∷ rest))
    ∙ show_sets-first_lines (extremes_bytes (x ∷ rest)) [] 0 (x ∷ rest) fits refl (omega arith)
