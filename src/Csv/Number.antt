-- ===== src/Csv/Number.antt =====
-- std::stoul, std::stoull and std::stoi, as process_data/process_data_main.cc uses them. `unsigned long` has 64 bits.
use group_trade_data_query.Common.{
  ℕ, ◌+◌, ◌-◌, ◌*◌, ◌%◌, ◌≤◌, ◌<◌, ◌≡◌, refl, ap, ◌∙◌, Bool, true, false, ◌&&◌, ◌||◌, List, [], ◌∷◌,
  foldl, arith, ltb, leb, ◌==◌, if◌then◌else◌, All,
}
use group_trade_data_query.Common.Word.{u64_mod}
use group_trade_data_query.Common.Run.{Run, ok, err, invalid_argument, out_of_range, ◌>>=◌}

abbrev pub is_digit : ℕ → Bool
is_digit c = leb 48 c && leb c 57

-- `isspace`: a blank, or one of the characters from tab to carriage return.
abbrev pub is_space : ℕ → Bool
is_space c = (c == 32) || (leb 9 c && leb c 13)

unfoldable pub skip_space : List ℕ → List ℕ
skip_space [] = []
skip_space (c ∷ cs) = if is_space c then skip_space cs else c ∷ cs

-- The value of the digits in front, after those that make `n`.
unfoldable pub digits_value : List ℕ → ℕ → ℕ
digits_value [] n = n
digits_value (c ∷ cs) n =
    let more = digits_value cs (n * 10 + (c - 48)) in if is_digit c then more else n

-- A text without a digit in front is no number.
abbrev pub magnitude : List ℕ → Run ℕ
magnitude [] = err invalid_argument
magnitude (c ∷ cs) = if is_digit c then ok (digits_value (c ∷ cs) 0) else err invalid_argument

abbrev pub with_sign : Bool → Run ℕ → Run (Bool × ℕ)
with_sign minus m = m >>= λ n. ok (minus, n)

-- The sign, `true` for minus, and the magnitude.
abbrev pub signed : List ℕ → Run (Bool × ℕ)
signed [] = err invalid_argument
signed (c ∷ cs) =
    if c == 45
    then with_sign true (magnitude cs)
    else if c == 43
    then with_sign false (magnitude cs)
    else with_sign false (magnitude (c ∷ cs))

-- std::stoul and std::stoull: a minus negates the result modulo 2 ^ 64.
unfoldable pub stoul : List ℕ → Run ℕ
stoul token = signed (skip_space token) >>= λ r.
    if ltb r.1 u64_mod
    then ok (if r.0 then (u64_mod - r.1) % u64_mod else r.1)
    else err out_of_range

-- std::stoi, as the bit pattern of an `int32_t`.
unfoldable pub stoi : List ℕ → Run ℕ
stoi token = signed (skip_space token) >>= λ r.
    if leb r.1 (if r.0 then 0x8000_0000 else 0x7fff_ffff)
    then ok (if r.0 then (0x1_0000_0000 - r.1) % 0x1_0000_0000 else r.1)
    else err out_of_range

-- A decimal number: digits, and at least one.
abbrev pub IsNumber : List ℕ → Type 0
IsNumber [] = ⊥
IsNumber (c ∷ cs) = All (λ x. is_digit x ≡ true) (c ∷ cs)

abbrev pub value : List ℕ → ℕ
value = foldl (λ n c. n * 10 + (c - 48)) 0

digits_value-foldl :
    (cs : List ℕ) (n : ℕ)
    → All (λ x. is_digit x ≡ true) cs
    → digits_value cs n ≡ foldl (λ m c. m * 10 + (c - 48)) n cs
unfolding digits_value
digits_value-foldl [] n h = refl
digits_value-foldl (c ∷ cs) n h = rw h.0 (digits_value-foldl cs (n * 10 + (c - 48)) h.1)

skip_space_digit : (c : ℕ) (cs : List ℕ) → is_digit c ≡ true → skip_space (c ∷ cs) ≡ c ∷ cs
unfolding skip_space
skip_space_digit c cs h = ground arith

skip_space_minus : (cs : List ℕ) → skip_space (45 ∷ cs) ≡ 45 ∷ cs
unfolding skip_space
skip_space_minus cs = refl

magnitude-value : (cs : List ℕ) → IsNumber cs → magnitude cs ≡ ok (value cs)
magnitude-value [] h = absurd h
magnitude-value (c ∷ cs) h = rw (h.0, digits_value-foldl (c ∷ cs) 0 h) refl

signed_digit :
    (c : ℕ) (cs : List ℕ)
    → is_digit c ≡ true
    → signed (c ∷ cs) ≡ with_sign false (magnitude (c ∷ cs))
signed_digit c cs h = ground arith

signed_plain : (cs : List ℕ) → IsNumber cs → signed (skip_space cs) ≡ ok (false, value cs)
signed_plain [] h = absurd h
signed_plain (c ∷ cs) h =
    ap signed (skip_space_digit c cs h.0)
    ∙ signed_digit c cs h.0
    ∙ ap (with_sign false) (magnitude-value (c ∷ cs) h)

signed_minus : (cs : List ℕ) → IsNumber cs → signed (skip_space (45 ∷ cs)) ≡ ok (true, value cs)
signed_minus cs h = ap signed (skip_space_minus cs) ∙ ap (with_sign true) (magnitude-value cs h)

-- The digits of a number below 2 ^ 64 are read as its value.
pub stoul-value : (cs : List ℕ) → IsNumber cs → value cs < u64_mod → stoul cs ≡ ok (value cs)
unfolding stoul
stoul-value cs h b = rw (signed_plain cs h) (ground arith)

pub stoi-value : (cs : List ℕ) → IsNumber cs → value cs < 128 → stoi cs ≡ ok (value cs)
unfolding stoi
stoi-value cs h b = rw (signed_plain cs h) (ground arith)

-- A negative exponent is read as the bit pattern of its value.
pub stoi-negative :
    (cs : List ℕ)
    → IsNumber cs
    → value cs ≤ 128
    → stoi (45 ∷ cs) ≡ ok ((0x1_0000_0000 - value cs) % 0x1_0000_0000)
unfolding stoi
stoi-negative cs h b = rw (signed_minus cs h) (ground arith)
