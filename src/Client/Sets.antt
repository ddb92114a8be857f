-- ===== src/Client/Sets.antt =====
-- What src/client_main.cc prints of the bytes that the server's workers send.
use group_trade_data_query.Common.{
  ℕ, ◌+◌, ◌*◌, ◌≡◌, refl, ◌∙◌, ◌≢◌, true, List, [], ◌∷◌, ◌++◌, arith, length, map, All,
}
use group_trade_data_query.Common.Int.{ℤ, signed8}
use group_trade_data_query.Common.Word.{le_bytes, bit_set}
use group_trade_data_query.Common.Run.{ok}
use group_trade_data_query.Query.Codec.{encode_price, encode_quantity}
use group_trade_data_query.Engine.Computed.{Answer, all_bytes}
use group_trade_data_query.Engine.Fits.{AnswerFits}
use group_trade_data_query.Server.Worker.{metric_list}
use group_trade_data_query.Client.Display.{
  Line, extremes, mean_price, total_quantity, decimal_at, show_metric, show_metrics, show_sets,
  display,
}
use group_trade_data_query.Client.Decimals.{
  decimal_bytes, decimal_at_bytes, numbered, regroup₂, length-decimal, display_of_sets,
}

-- The bytes of an interval with all three metrics, in front of others.
abbrev set_bytes : Answer → List ℕ → List ℕ
set_bytes a post =
    decimal_bytes a.lo.price a.lo.price_exponent
    ++ (decimal_bytes a.hi.price a.hi.price_exponent
        ++ (decimal_bytes a.mean.price a.mean.price_exponent
            ++ (decimal_bytes a.total.quantity a.total.quantity_exponent ++ post)))

abbrev pub answers_bytes : List Answer → List ℕ
answers_bytes [] = []
answers_bytes (a ∷ rest) = set_bytes a (answers_bytes rest)

-- The lines of an answer.
abbrev pub answer_lines : Answer → List Line
answer_lines a =
    extremes a.lo.price (signed8 a.lo.price_exponent) a.hi.price (signed8 a.hi.price_exponent)
    ∷ mean_price a.mean.price (signed8 a.mean.price_exponent)
    ∷ total_quantity a.total.quantity (signed8 a.total.quantity_exponent)
    ∷ []

show_all_metrics :
    (output : List ℕ) (base : ℕ) (lo hi mean total : ℕ × ℤ)
    → decimal_at output (base + 0) ≡ ok lo
    → decimal_at output (base + 5) ≡ ok hi
    → decimal_at output (base + 10) ≡ ok mean
    → decimal_at output (base + 15) ≡ ok total
    → show_metrics output base 8 0 7 0
      ≡ ok (
          extremes lo.0 lo.1 hi.0 hi.1
          ∷ mean_price mean.0 mean.1
          ∷ total_quantity total.0 total.1
          ∷ [])
unfolding show_metrics show_metric bit_set
show_all_metrics output base lo hi mean total a b c e = rw (a, b, c, e)

-- Everything up to the end of an answer.
abbrev through : List ℕ → Answer → List ℕ
through pre a =
    (((pre ++ decimal_bytes a.lo.price a.lo.price_exponent)
        ++ decimal_bytes a.hi.price a.hi.price_exponent)
      ++ decimal_bytes a.mean.price a.mean.price_exponent)
    ++ decimal_bytes a.total.quantity a.total.quantity_exponent

module _ (output pre post : List ℕ) (base : ℕ) (a : Answer) (fits : AnswerFits a)
    (e : output ≡ pre ++ set_bytes a post) (at : length pre ≡ base) where
  set_lines :
      (show_metrics output base 8 0 7 0 ≡ ok (answer_lines a))
      × (output ≡ through pre a ++ post)
      × (length (through pre a) ≡ base + 20)
  set_lines =
      let lo = decimal_bytes a.lo.price a.lo.price_exponent in
      let hi = decimal_bytes a.hi.price a.hi.price_exponent in
      let mean = decimal_bytes a.mean.price a.mean.price_exponent in
      let total = decimal_bytes a.total.quantity a.total.quantity_exponent in
      let e₁ = e ∙ regroup₂ pre lo (hi ++ (mean ++ (total ++ post))) in
      let e₂ = e₁ ∙ regroup₂ (pre ++ lo) hi (mean ++ (total ++ post)) in
      let e₃ = e₂ ∙ regroup₂ ((pre ++ lo) ++ hi) mean (total ++ post) in
      let at₁ = length-decimal pre a.lo.price a.lo.price_exponent base at in
      let at₂ = length-decimal (pre ++ lo) a.hi.price a.hi.price_exponent (base + 5) at₁ in
      let at₃ =
        length-decimal ((pre ++ lo) ++ hi) a.mean.price a.mean.price_exponent (base + 5 + 5) at₂ in
      let at₄ =
        length-decimal (((pre ++ lo) ++ hi) ++ mean) a.total.quantity a.total.quantity_exponent
          (base + 5 + 5 + 5) at₃ in
      (
        show_all_metrics output base (a.lo.price, signed8 a.lo.price_exponent)
            (a.hi.price, signed8 a.hi.price_exponent) (a.mean.price, signed8 a.mean.price_exponent)
            (a.total.quantity, signed8 a.total.quantity_exponent)
            (decimal_at_bytes output pre (hi ++ (mean ++ (total ++ post))) (base + 0) a.lo.price
              a.lo.price_exponent e (omega arith) fits.lo_fits.price_lt)
            (decimal_at_bytes output (pre ++ lo) (mean ++ (total ++ post)) (base + 5) a.hi.price
              a.hi.price_exponent e₁ at₁ fits.hi_fits.price_lt)
            (decimal_at_bytes output ((pre ++ lo) ++ hi) (total ++ post) (base + 10) a.mean.price
              a.mean.price_exponent e₂ (omega arith) fits.mean_fits.price_lt)
            (decimal_at_bytes output (((pre ++ lo) ++ hi) ++ mean) post (base + 15) a.total.quantity
              a.total.quantity_exponent e₃ (omega arith) fits.total_fits.quantity_lt),
        e₃ ∙ regroup₂ (((pre ++ lo) ++ hi) ++ mean) total post,
        omega arith,
      )

show_sets-numbered :
    (output pre : List ℕ) (set : ℕ) (answers : List Answer)
    → All AnswerFits answers
    → output ≡ pre ++ answers_bytes answers
    → length pre ≡ set * 20
    → show_sets output 7 (length answers) set ≡ ok (numbered set (map answer_lines answers))
unfolding show_sets
show_sets-numbered output pre set [] fits e at = refl
show_sets-numbered output pre set (a ∷ rest) fits e at =
    let (lines, e', at') = set_lines output pre (answers_bytes rest) (set * 20) a fits.0 e at in
    rw (lines, show_sets-numbered output (through pre a) (set + 1) rest fits.1 e' (omega arith))

length-answers_bytes :
    (answers : List Answer) → length (answers_bytes answers) ≡ length answers * 20
unfolding le_bytes
length-answers_bytes [] = omega arith
length-answers_bytes (a ∷ rest) = omega (arith, length-answers_bytes rest)

-- If all three metrics are asked for and the numbers fit their types, the client prints of the
-- bytes of one or more answers, set by set and in order, the numbers of the answers.
pub display-answers :
    (metrics : ℕ) (answers : List Answer)
    → bit_set metrics 0 ≡ true
    → bit_set metrics 26 ≡ true
    → bit_set metrics 33 ≡ true
    → All AnswerFits answers
    → answers ≢ []
    → display metrics (answers_bytes answers) ≡ ok (numbered 0 (map answer_lines answers))
unfolding metric_list
display-answers metrics [] a b c fits h = absurd (h refl)
display-answers metrics (x ∷ rest) a b c fits h =
    display_of_sets metrics 7 (length (x ∷ rest)) (answers_bytes (x ∷ rest)) (rw (a, b, c))
      (omega arith) (length-answers_bytes (x ∷ rest))
    ∙ show_sets-numbered (answers_bytes (x ∷ rest)) [] 0 (x ∷ rest) fits refl (omega arith)

-- The client's bytes are the engine's.
pub all_bytes-answers_bytes : (answers : List Answer) → all_bytes answers ≡ answers_bytes answers
unfolding encode_price encode_quantity le_bytes
all_bytes-answers_bytes [] = refl
all_bytes-answers_bytes (a ∷ rest) = rw (all_bytes-answers_bytes rest) refl
