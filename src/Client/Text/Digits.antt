-- ===== src/Client/Text/Digits.antt =====
-- The digits that are written are read back.
use native.Mathlib.Decide.{dec_lt}
use group_trade_data_query.Common.{
  ℕ, zero, suc, ◌+◌, ◌-◌, ◌*◌, ◌/◌, ◌%◌, ◌≤◌, ◌<◌, ◌≡◌, refl, ap, ◌∙◌, true, List, [], ◌∷◌, ◌++◌,
  foldl, arith, All, lt→ltb, le→ltb,
}
use group_trade_data_query.Csv.Number.{is_digit, is_space, IsNumber, value}
use group_trade_data_query.Client.Input.{extract}
use group_trade_data_query.Client.Input.Numbers.{at_text, EndsNumber, extract-token}
use group_trade_data_query.Client.Text.{digits_from, show_nat}

abbrev Digits : List ℕ → Type 0
Digits = All (λ c. is_digit c ≡ true)

digit : (n : ℕ) → n < 10 → is_digit (48 + n) ≡ true
digit n h = ground arith

digits_from_small :
    (fuel n : ℕ) (behind : List ℕ) → n < 10 → digits_from (suc fuel) n behind ≡ (48 + n) ∷ behind
unfolding digits_from
digits_from_small fuel n behind h = rw (digits_from, lt→ltb n 10 h) refl

digits_from_large :
    (fuel n : ℕ) (behind : List ℕ)
    → 10 ≤ n
    → digits_from (suc fuel) n behind ≡ digits_from fuel (n / 10) ((48 + n % 10) ∷ behind)
unfolding digits_from
digits_from_large fuel n behind h = rw (digits_from, le→ltb n 10 h) refl

-- With enough fuel they are digits, and their value is the number with the digits behind it.
digits_from-value :
    (fuel n : ℕ) (behind : List ℕ)
    → n < fuel
    → Digits behind
    → IsNumber (digits_from fuel n behind)
      × (value (digits_from fuel n behind) ≡ foldl (λ m c. m * 10 + (c - 48)) n behind)
digits_from-value zero n behind h g = absurd (omega arith)
digits_from-value (suc fuel) n behind h g = elim (dec_lt n 10) [
  | yes small ↦
      rw (digits_from_small fuel n behind small) (
        (digit n small, g),
        ap (λ (x : ℕ). foldl (λ m c. m * 10 + (c - 48)) x behind) (omega arith),
      )
  | no large ↦
      let (number, same) =
        digits_from-value fuel (n / 10) ((48 + n % 10) ∷ behind) (omega arith)
          (digit (n % 10) (omega arith), g) in
      rw (digits_from_large fuel n behind (omega arith))
        (number, same ∙ ap (λ (x : ℕ). foldl (λ m c. m * 10 + (c - 48)) x behind) (omega arith))
]

pub show_nat-value : (n : ℕ) → IsNumber (show_nat n) × (value (show_nat n) ≡ n)
show_nat-value n = digits_from-value (suc n) n [] (omega arith) tt

-- A number below 2 ^ 32 or 2 ^ 64 that was written is read back from its digits, after any white space,
-- up to a character that is no digit.
pub extract-show_nat :
    (modulus old n : ℕ) (blank rest : List ℕ)
    → n < modulus
    → All (λ c. is_space c ≡ true) blank
    → EndsNumber rest
    → extract modulus old (at_text (blank ++ (show_nat n ++ rest))) ≡ (n, at_text rest)
extract-show_nat modulus old n blank rest small spaces ends =
    let (number, same) = show_nat-value n in
    extract-token old {token = record { blank = blank; digits = show_nat n }} rest
      (record { blank_is = spaces; number_is = number; value_lt = omega (arith, same) }) ends
    ∙ ap (λ (x : ℕ). (x, at_text rest)) same
