-- ===== src/Csv/Fields.antt =====
-- One line of a CSV file, as process_data/process_data_main.cc reads it.
use group_trade_data_query.Common.{
  ℕ, ◌-◌, ◌%◌, ◌<◌, ◌≡◌, refl, Bool, true, false, none, some, List, [], ◌∷◌, ◌++◌, arith, ◌==◌,
  if◌then◌else◌, All,
}
use group_trade_data_query.Common.Word.{u64_mod}
use group_trade_data_query.Common.Run.{ok}
use group_trade_data_query.Query.{TradeData, TradeFits}
use group_trade_data_query.Csv.{cut, getline, taker_side_of, parse_line}
use group_trade_data_query.Csv.Number.{
  is_digit, IsNumber, value, stoi, stoul-value, stoi-value, stoi-negative,
}

-- A text without a character.
abbrev pub Without : ℕ → List ℕ → Type 0
Without c = All (λ x. (x == c) ≡ false)

pub cut-append :
    (delim : ℕ) (token rest : List ℕ)
    → Without delim token
    → cut delim (token ++ (delim ∷ rest)) ≡ (token, some rest)
unfolding cut
cut-append delim [] rest h = ground arith
cut-append delim (c ∷ cs) rest h = rw (h.0, cut-append delim cs rest h.1) refl

pub cut_last : (delim : ℕ) (token : List ℕ) → Without delim token → cut delim token ≡ (token, none)
unfolding cut
cut_last delim [] h = refl
cut_last delim (c ∷ cs) h = rw (h.0, cut_last delim cs h.1) refl

pub Without-append : (c : ℕ) (xs ys : List ℕ) → Without c xs → Without c ys → Without c (xs ++ ys)
Without-append c [] ys p q = q
Without-append c (x ∷ xs) ys p q = (p.0, Without-append c xs ys p.1 q)

-- An exponent in a CSV file.
pub record Exponent : Type 0 where
  pub minus : Bool
  pub digits : List ℕ

abbrev pub exponent_text : Exponent → List ℕ
exponent_text x = if x.minus then 45 ∷ x.digits else x.digits

abbrev exponent_pattern : Exponent → ℕ
exponent_pattern x = if x.minus then (256 - value x.digits) % 256 else value x.digits

-- The range of an `int8_t`.
pub record ExponentFits (x : Exponent) : Type 0 where
  pub number : IsNumber x.digits
  pub range : value x.digits < (if x.minus then 129 else 128)

-- The columns of a row; the last is Ask, or else Bid.
pub record Row : Type 0 where
  pub symbol : List ℕ
  pub created : List ℕ
  pub id : List ℕ
  pub price : List ℕ
  pub quantity : List ℕ
  pub price_exponent : Exponent
  pub quantity_exponent : Exponent
  pub ask : Bool

pub record RowFits (r : Row) : Type 0 where
  pub symbol_number : IsNumber r.symbol
  pub created_number : IsNumber r.created
  pub id_number : IsNumber r.id
  pub price_number : IsNumber r.price
  pub quantity_number : IsNumber r.quantity
  pub symbol_lt : value r.symbol < 0x1_0000_0000
  pub created_lt : value r.created < u64_mod
  pub id_lt : value r.id < u64_mod
  pub price_lt : value r.price < 0x1_0000_0000
  pub quantity_lt : value r.quantity < 0x1_0000_0000
  pub price_exponent_fits : ExponentFits r.price_exponent
  pub quantity_exponent_fits : ExponentFits r.quantity_exponent

-- "Ask" or "Bid".
abbrev pub side_text : Bool → List ℕ
side_text ask = if ask then 65 ∷ 115 ∷ 107 ∷ [] else 66 ∷ 105 ∷ 100 ∷ []

abbrev pub line_of : Row → List ℕ
line_of r =
    r.symbol
    ++ (44
        ∷ (r.created
            ++ (44
                ∷ (r.id
                    ++ (44
                        ∷ (r.price
                            ++ (44
                                ∷ (r.quantity
                                    ++ (44
                                        ∷ (exponent_text r.price_exponent
                                            ++ (44
                                                ∷ (exponent_text r.quantity_exponent
                                                    ++ (44 ∷ side_text r.ask)))))))))))))

abbrev pub trade_of : Row → TradeData
trade_of r = record {
  symbol_id = value r.symbol;
  created_at = value r.created;
  trade_id = value r.id;
  price = record { price = value r.price; price_exponent = exponent_pattern r.price_exponent };
  quantity = record {
    quantity = value r.quantity;
    quantity_exponent = exponent_pattern r.quantity_exponent;
  };
  taker_side = if r.ask then 1 else 2;
}

digits-Without :
    (c : ℕ) (cs : List ℕ) → is_digit c ≡ false → All (λ x. is_digit x ≡ true) cs → Without c cs
digits-Without c [] h all = tt
digits-Without c (x ∷ xs) h all = (ground (arith, all.0), digits-Without c xs h all.1)

pub number-Without : (c : ℕ) (cs : List ℕ) → is_digit c ≡ false → IsNumber cs → Without c cs
number-Without c [] h n = tt
number-Without c (x ∷ xs) h n = digits-Without c (x ∷ xs) h n

pub exponent-Without :
    (c : ℕ) (minus : Bool) (digits : List ℕ)
    → is_digit c ≡ false
    → (45 == c) ≡ false
    → IsNumber digits
    → Without c (exponent_text (record { minus = minus; digits = digits }))
exponent-Without c true digits h m n = (m, number-Without c digits h n)
exponent-Without c false digits h m n = number-Without c digits h n

pub side-Without : (c : ℕ) (ask : Bool) → c < 65 → Without c (side_text ask)
side-Without c true h = (ground arith, (ground arith, (ground arith, tt)))
side-Without c false h = (ground arith, (ground arith, (ground arith, tt)))

stoi-exponent :
    (minus : Bool) (digits : List ℕ)
    → let x : Exponent = record { minus = minus; digits = digits } in
      ExponentFits x → (w : ℕ) × (stoi (exponent_text x) ≡ ok w) × (w % 256 ≡ exponent_pattern x)
stoi-exponent true digits fits = (
  (0x1_0000_0000 - value digits) % 0x1_0000_0000,
  stoi-negative digits fits.number (omega (arith, fits.range)),
  omega (arith, fits.range),
)
stoi-exponent false digits fits =
    (value digits, stoi-value digits fits.number fits.range, omega (arith, fits.range))

taker_side_of-side : (ask : Bool) → taker_side_of (side_text ask) ≡ ok (if ask then 1 else 2)
unfolding taker_side_of
taker_side_of-side true = refl
taker_side_of-side false = refl

exponent_lt :
    (minus : Bool) (digits : List ℕ)
    → value digits < (if minus then 129 else 128)
    → exponent_pattern (record { minus = minus; digits = digits }) < 256
exponent_lt true digits h = omega arith
exponent_lt false digits h = omega arith

side_lt : (ask : Bool) → (if ask then 1 else 2) < 256
side_lt true = omega arith
side_lt false = omega arith

module _ (r : Row) (fits : RowFits r) where
  -- A line of eight columns with values in range is read as the trade of those values.
  pub parse_line-trade_of : parse_line (line_of r) ≡ ok (trade_of r)
  unfolding parse_line getline
  parse_line-trade_of =
      let (pe, pe_run, pe_same) =
        stoi-exponent r.price_exponent.minus r.price_exponent.digits fits.price_exponent_fits in
      let (qe, qe_run, qe_same) =
        stoi-exponent r.quantity_exponent.minus r.quantity_exponent.digits
          fits.quantity_exponent_fits in
      let symbol_small : value r.symbol % 0x1_0000_0000 ≡ value r.symbol =
        omega (arith, fits.symbol_lt) in
      let price_small : value r.price % 0x1_0000_0000 ≡ value r.price =
        omega (arith, fits.price_lt) in
      let quantity_small : value r.quantity % 0x1_0000_0000 ≡ value r.quantity =
        omega (arith, fits.quantity_lt) in
      rw
        (
          cut-append 44 r.symbol _ (number-Without 44 r.symbol refl fits.symbol_number),
          stoul-value r.symbol fits.symbol_number (omega (arith, fits.symbol_lt)),
          cut-append 44 r.created _ (number-Without 44 r.created refl fits.created_number),
          stoul-value r.created fits.created_number fits.created_lt,
          cut-append 44 r.id _ (number-Without 44 r.id refl fits.id_number),
          stoul-value r.id fits.id_number fits.id_lt,
          cut-append 44 r.price _ (number-Without 44 r.price refl fits.price_number),
          stoul-value r.price fits.price_number (omega (arith, fits.price_lt)),
          cut-append 44 r.quantity _ (number-Without 44 r.quantity refl fits.quantity_number),
          stoul-value r.quantity fits.quantity_number (omega (arith, fits.quantity_lt)),
          cut-append 44 (exponent_text r.price_exponent) _ (
              exponent-Without 44 r.price_exponent.minus r.price_exponent.digits refl refl
                fits.price_exponent_fits.number),
          pe_run,
          cut-append 44 (exponent_text r.quantity_exponent) _ (
              exponent-Without 44 r.quantity_exponent.minus r.quantity_exponent.digits refl refl
                fits.quantity_exponent_fits.number),
          qe_run,
          cut_last 44 (side_text r.ask) (side-Without 44 r.ask (omega arith)),
          taker_side_of-side r.ask,
        )
        (rw (symbol_small, price_small, quantity_small, pe_same, qe_same) refl)

  exponent_pattern_lt : (x : Exponent) → ExponentFits x → exponent_pattern x < 256
  exponent_pattern_lt x f = exponent_lt x.minus x.digits f.range

  -- The values of such a line are in the ranges of the fields.
  pub trade_of-TradeFits : TradeFits (trade_of r)
  trade_of-TradeFits = record {
    symbol_lt = fits.symbol_lt;
    created_lt = fits.created_lt;
    id_lt = fits.id_lt;
    price_fits = record {
      price_lt = fits.price_lt;
      exponent_lt = exponent_pattern_lt r.price_exponent fits.price_exponent_fits;
    };
    quantity_fits = record {
      quantity_lt = fits.quantity_lt;
      exponent_lt = exponent_pattern_lt r.quantity_exponent fits.quantity_exponent_fits;
    };
    side_lt = side_lt r.ask;
  }
