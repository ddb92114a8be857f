-- ===== src/Client/Input.antt =====
-- `std::cin >>` as src/client_main.cc and src/client_main_udp.cc use it: a query is read as five unsigned numbers.
pub mod Numbers
use group_trade_data_query.Common.{
  ℕ, ◌-◌, ◌%◌, Bool, true, false, List, [], ◌∷◌, ltb, ◌==◌, if◌then◌else◌,
}
use group_trade_data_query.Common.Word.{u64_mod}
use group_trade_data_query.Query.{TradeDataQuery}
use group_trade_data_query.Csv.Number.{is_digit, skip_space, digits_value}

-- The characters that are left, and whether the stream has failed.
pub record Stdin : Type 0 where
  pub rest : List ℕ
  pub failed : Bool

unfoldable pub after_digits : List ℕ → List ℕ
after_digits [] = []
after_digits (c ∷ cs) = let rest = after_digits cs in if is_digit c then rest else c ∷ cs

-- The value of `cs`, as an unsigned number below `modulus`, or the largest one and a failure.
abbrev pub extract_value : ℕ → Bool → List ℕ → ℕ × Stdin
extract_value modulus minus cs =
    let v = digits_value cs 0 in
    if ltb v modulus
    then (
      (if minus then (modulus - v) % modulus else v),
      record { rest = after_digits cs; failed = false },
    )
    else (modulus - 1, record { rest = after_digits cs; failed = true })

-- Without a digit the variable is set to 0, and the stream fails.
abbrev pub extract_digits : ℕ → Bool → List ℕ → ℕ × Stdin
extract_digits modulus minus [] = (0, record { rest = []; failed = true })
extract_digits modulus minus (c ∷ cs) =
    if is_digit c
    then extract_value modulus minus (c ∷ cs)
    else (0, record { rest = c ∷ cs; failed = true })

-- At the end of the text the variable keeps its value, and the stream fails.
abbrev pub extract_signed : ℕ → ℕ → List ℕ → ℕ × Stdin
extract_signed modulus old [] = (old, record { rest = []; failed = true })
extract_signed modulus old (c ∷ cs) =
    if c == 45
    then extract_digits modulus true cs
    else if c == 43
    then extract_digits modulus false cs
    else extract_digits modulus false (c ∷ cs)

-- `std::cin >> x`, where `old` is the value of `x` before.
unfoldable pub extract : ℕ → ℕ → Stdin → ℕ × Stdin
extract modulus old s =
    if s.failed then (old, s) else extract_signed modulus old (skip_space s.rest)

-- The statement that reads a query; `old` is what the variable holds before.
unfoldable pub read_query : TradeDataQuery → Stdin → TradeDataQuery × Stdin
unfolding extract
read_query old s =
    let (symbol_id, s₁) = extract 0x1_0000_0000 old.symbol_id s in
    let (start_time_point, s₂) = extract u64_mod old.start_time_point s₁ in
    let (end_time_point, s₃) = extract u64_mod old.end_time_point s₂ in
    let (resolution, s₄) = extract u64_mod old.resolution s₃ in
    let (metrics, s₅) = extract u64_mod old.metrics s₄ in
    (
      record {
        symbol_id = symbol_id;
        start_time_point = start_time_point;
        end_time_point = end_time_point;
        resolution = resolution;
        metrics = metrics;
      },
      s₅,
    )
