-- ===== src/Client/Input/Numbers.antt =====
-- What src/client_main.cc reads of a text with numbers.
use group_trade_data_query.Common.{
  ℕ, ◌+◌, ◌-◌, ◌*◌, ◌<◌, ◌≡◌, ◌==◌, refl, true, false, List, [], ◌∷◌, ◌++◌, foldl, arith, lt→ltb,
  length, All,
}
use group_trade_data_query.Common.Word.{u64_mod}
use group_trade_data_query.Query.{TradeDataQuery}
use group_trade_data_query.Csv.Number.{
  is_digit, is_space, skip_space, digits_value, IsNumber, value,
}
use group_trade_data_query.Client.Input.{Stdin, after_digits, extract, extract_signed, read_query}

-- White space.
abbrev pub IsBlank : List ℕ → Type 0
IsBlank [] = Unit
IsBlank (c ∷ cs) = All (λ x. is_space x ≡ true) (c ∷ cs)

-- The text does not go on with a digit.
abbrev pub EndsNumber : List ℕ → Type 0
EndsNumber [] = Unit
EndsNumber (c ∷ cs) = is_digit c ≡ false

skip_space-blank :
    (blank : List ℕ) (c : ℕ) (cs : List ℕ)
    → All (λ x. is_space x ≡ true) blank
    → is_digit c ≡ true
    → skip_space (blank ++ (c ∷ cs)) ≡ c ∷ cs
unfolding skip_space
skip_space-blank [] c cs h digit = ground arith
skip_space-blank (b ∷ blank) c cs h digit = rw h.0 (skip_space-blank blank c cs h.1 digit)

after_digits-append :
    (cs rest : List ℕ)
    → All (λ x. is_digit x ≡ true) cs
    → EndsNumber rest
    → after_digits (cs ++ rest) ≡ rest
unfolding after_digits
after_digits-append [] [] h e = refl
after_digits-append [] (c ∷ rest) h e = rw e refl
after_digits-append (c ∷ cs) rest h e = rw h.0 (after_digits-append cs rest h.1 e)

digits_value-append :
    (cs rest : List ℕ) (n : ℕ)
    → All (λ x. is_digit x ≡ true) cs
    → EndsNumber rest
    → digits_value (cs ++ rest) n ≡ foldl (λ m c. m * 10 + (c - 48)) n cs
unfolding digits_value
digits_value-append [] [] n h e = refl
digits_value-append [] (c ∷ rest) n h e = rw e refl
digits_value-append (c ∷ cs) rest n h e =
    rw h.0 (digits_value-append cs rest (n * 10 + (c - 48)) h.1 e)

no_sign : (c : ℕ) → is_digit c ≡ true → ((c == 45) ≡ false) × ((c == 43) ≡ false)
no_sign c h = (ground arith, ground arith)

-- A number in a text, with the white space in front of it.
pub record Token : Type 0 where
  pub blank : List ℕ
  pub digits : List ℕ

pub record TokenFits (modulus : ℕ) (token : Token) : Type 0 where
  pub blank_is : All (λ x. is_space x ≡ true) token.blank
  pub number_is : IsNumber token.digits
  pub value_lt : value token.digits < modulus

abbrev pub text_of : Token → List ℕ → List ℕ
text_of token rest = token.blank ++ (token.digits ++ rest)

abbrev pub at_text : List ℕ → Stdin
at_text rest = record { rest = rest; failed = false }

extract_digit :
    (modulus old c : ℕ) (cs rest : List ℕ)
    → All (λ x. is_digit x ≡ true) (c ∷ cs)
    → value (c ∷ cs) < modulus
    → EndsNumber rest
    → extract_signed modulus old (c ∷ (cs ++ rest)) ≡ (value (c ∷ cs), at_text rest)
extract_digit modulus old c cs rest h small e =
    rw
      (
        (no_sign c h.0).0,
        (no_sign c h.0).1,
        h.0,
        digits_value-append (c ∷ cs) rest 0 h e,
        lt→ltb (value (c ∷ cs)) modulus small,
        after_digits-append (c ∷ cs) rest h e,
      )
      refl

extract_number :
    (modulus old : ℕ) (blank digits rest : List ℕ)
    → All (λ x. is_space x ≡ true) blank
    → IsNumber digits
    → value digits < modulus
    → EndsNumber rest
    → extract modulus old (at_text (blank ++ (digits ++ rest))) ≡ (value digits, at_text rest)
unfolding extract
extract_number modulus old blank [] rest spaces number small e = absurd number
extract_number modulus old blank (c ∷ cs) rest spaces number small e =
    rw (skip_space-blank blank c (cs ++ rest) spaces number.0)
      (extract_digit modulus old c cs rest number small e)

pub extract-token :
    {modulus : ℕ} (old : ℕ) {token : Token} (rest : List ℕ)
    → TokenFits modulus token
    → EndsNumber rest
    → extract modulus old (at_text (text_of token rest)) ≡ (value token.digits, at_text rest)
extract-token {modulus} old {token} rest fits e =
    extract_number modulus old token.blank token.digits rest fits.blank_is fits.number_is
      fits.value_lt e

space_no_digit : (c : ℕ) → is_space c ≡ true → is_digit c ≡ false
space_no_digit c h = ground arith

-- White space ends a number.
token-EndsNumber :
    (blank digits rest : List ℕ)
    → All (λ x. is_space x ≡ true) blank
    → 0 < length blank
    → EndsNumber (blank ++ (digits ++ rest))
token-EndsNumber [] digits rest spaces gap = absurd (omega arith)
token-EndsNumber (c ∷ blank) digits rest spaces gap = space_no_digit c spaces.0

pub gap-EndsNumber :
    {modulus : ℕ} (token : Token) (rest : List ℕ)
    → TokenFits modulus token
    → 0 < length token.blank
    → EndsNumber (text_of token rest)
gap-EndsNumber token rest fits gap =
    token-EndsNumber token.blank token.digits rest fits.blank_is gap

-- The five numbers of a query in a text, with white space between them.
pub record QueryText : Type 0 where
  pub symbol_id : Token
  pub start_time_point : Token
  pub end_time_point : Token
  pub resolution : Token
  pub metrics : Token

pub record QueryTextFits (t : QueryText) : Type 0 where
  pub symbol_id_fits : TokenFits 0x1_0000_0000 t.symbol_id
  pub start_fits : TokenFits u64_mod t.start_time_point
  pub end_fits : TokenFits u64_mod t.end_time_point
  pub resolution_fits : TokenFits u64_mod t.resolution
  pub metrics_fits : TokenFits u64_mod t.metrics
  pub start_gap : 0 < length t.start_time_point.blank
  pub end_gap : 0 < length t.end_time_point.blank
  pub resolution_gap : 0 < length t.resolution.blank
  pub metrics_gap : 0 < length t.metrics.blank

abbrev pub query_text : QueryText → List ℕ → List ℕ
query_text t rest = text_of t.symbol_id (
    text_of t.start_time_point
      (text_of t.end_time_point (text_of t.resolution (text_of t.metrics rest))))

abbrev pub query_of : QueryText → TradeDataQuery
query_of t = record {
  symbol_id = value t.symbol_id.digits;
  start_time_point = value t.start_time_point.digits;
  end_time_point = value t.end_time_point.digits;
  resolution = value t.resolution.digits;
  metrics = value t.metrics.digits;
}

-- Of a text of five numbers that fit the members of a query, the first after any white space and the
-- others after some, the client reads the query of their values, whatever its variable held, and goes
-- on after the last digit.
pub read_query-numbers :
    (old : TradeDataQuery) (t : QueryText) (rest : List ℕ)
    → QueryTextFits t
    → EndsNumber rest
    → read_query old (at_text (query_text t rest)) ≡ (query_of t, at_text rest)
unfolding read_query
read_query-numbers old t rest fits e =
    let after_resolution = text_of t.metrics rest in
    let after_end = text_of t.resolution after_resolution in
    let after_start = text_of t.end_time_point after_end in
    let after_symbol = text_of t.start_time_point after_start in
    rw
      (
        extract-token old.symbol_id after_symbol fits.symbol_id_fits
            (gap-EndsNumber t.start_time_point after_start fits.start_fits fits.start_gap),
        extract-token old.start_time_point after_start fits.start_fits
            (gap-EndsNumber t.end_time_point after_end fits.end_fits fits.end_gap),
        extract-token old.end_time_point after_end fits.end_fits
            (gap-EndsNumber t.resolution after_resolution fits.resolution_fits fits.resolution_gap),
        extract-token old.resolution after_resolution fits.resolution_fits
            (gap-EndsNumber t.metrics rest fits.metrics_fits fits.metrics_gap),
        extract-token old.metrics rest fits.metrics_fits e,
      )
      refl

-- A stream that has failed gives nothing, and the variable keeps its value.
pub read_query_failed :
    (old : TradeDataQuery) (s : Stdin) → s.failed ≡ true → read_query old s ≡ (old, s)
unfolding read_query extract
read_query_failed old s h = rw h refl

skip_blank : (cs : List ℕ) → All (λ x. is_space x ≡ true) cs → skip_space cs ≡ []
unfolding skip_space
skip_blank [] h = refl
skip_blank (c ∷ cs) h = rw h.0 (skip_blank cs h.1)

-- At the end of the input the variable keeps its value, and the stream fails.
pub read_query_blank :
    (old : TradeDataQuery) (cs : List ℕ)
    → All (λ x. is_space x ≡ true) cs
    → read_query old (at_text cs) ≡ (old, record { rest = []; failed = true })
unfolding read_query extract
read_query_blank old cs h = rw (skip_blank cs h) refl
