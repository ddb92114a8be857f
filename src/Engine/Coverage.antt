-- ===== src/Engine/Coverage.antt =====
-- The scans over a time range of src/query_engine/query_engine.cc against the trades of the range.
use native.Mathlib.Decide.{dec_lt}
use group_trade_data_query.Common.{
  ◌≢◌, ℕ, zero, suc, ◌+◌, ◌-◌, ◌≤◌, ◌<◌, ◌≡◌, refl, sym, ap, ◌∙◌, subst, Bool, true, false, List,
  [], ◌∷◌, ◌++◌, append-nil, arith, not, ◌&&◌, ltb, if◌then◌else◌,
}
use group_trade_data_query.Query.{TradeData}
use group_trade_data_query.Engine.{rounds, in_window}
use group_trade_data_query.Engine.Search.{IsSorted}
use group_trade_data_query.Engine.Window.{
  rows, rows_eq, rows-add, select, select-append, select_all, select_none, Located,
}

-- The trades of a file from `start_time` up to `end_time`.
abbrev pub range_trades : (ℕ → TradeData) → ℕ → ℕ → ℕ → List TradeData
range_trades row n start_time end_time =
    select (λ t. not (ltb t.created_at start_time) && ltb t.created_at end_time) (rows row n 0)

select_same :
    (test other : TradeData → Bool) (ts : List TradeData)
    → ((t : TradeData) → test t ≡ other t)
    → select test ts ≡ select other ts
select_same test other [] h = refl
select_same test other (t ∷ ts) h =
    rw (h t) (ap (λ rest. if other t then t ∷ rest else rest) (select_same test other ts h))

in_window_lem :
    (start_time end_time : ℕ) (t : TradeData)
    → (not (ltb t.created_at start_time) && ltb t.created_at end_time)
      ≡ in_window start_time end_time t
in_window_lem start_time end_time t = ground arith

-- The code's own test of a trade selects them.
pub range_trades-in_window :
    (row : ℕ → TradeData) (n start_time end_time : ℕ)
    → range_trades row n start_time end_time ≡ select (in_window start_time end_time) (rows row n 0)
range_trades-in_window row n start_time end_time =
    select_same _ (in_window start_time end_time) (rows row n 0) (in_window_lem start_time end_time)

-- The rows that the scans visit between two indices.
abbrev pub scanned : (ℕ → TradeData) → ℕ × ℕ → List TradeData
scanned row p = rows row (rounds p.0 p.1) p.0

in_window-true :
    (start_time end_time : ℕ) (t : TradeData)
    → start_time ≤ t.created_at
    → t.created_at < end_time
    → in_window start_time end_time t ≡ true
in_window-true start_time end_time t a b = ground arith

in_window_before :
    (start_time end_time : ℕ) (t : TradeData)
    → t.created_at < start_time
    → in_window start_time end_time t ≡ false
in_window_before start_time end_time t a = ground arith

in_window_after :
    (start_time end_time : ℕ) (t : TradeData)
    → end_time ≤ t.created_at
    → in_window start_time end_time t ≡ false
in_window_after start_time end_time t a = ground arith

-- A list cut at two indices.
rows_cut :
    (row : ℕ → TradeData) (n a r : ℕ)
    → a ≤ r
    → r ≤ n
    → rows row n 0 ≡ rows row a 0 ++ (rows row (r - a) a ++ rows row (n - r) r)
rows_cut row n a r h k =
    rows_eq row {m = n} {n = a + ((r - a) + (n - r))} {i = 0} {j = 0} (omega arith) refl
    ∙ rows-add row a ((r - a) + (n - r)) 0
    ∙ ap (◌++◌ (rows row a 0)) (
        rows_eq row {m = (r - a) + (n - r)} {n = (r - a) + (n - r)} {i = 0 + a} {j = a} refl
          (omega arith)
        ∙ rows-add row (r - a) (n - r) a
        ∙ ap (◌++◌ (rows row (r - a) a))
            (rows_eq row {m = n - r} {n = n - r} {i = a + (r - a)} {j = r} refl (omega arith)))

select_cut :
    (test : TradeData → Bool) (row : ℕ → TradeData) (n a r : ℕ)
    → a ≤ r
    → r ≤ n
    → ((j : ℕ) → j < a → test (row j) ≡ false)
    → ((j : ℕ) → a ≤ j → j < r → test (row j) ≡ true)
    → ((j : ℕ) → r ≤ j → j < n → test (row j) ≡ false)
    → select test (rows row n 0) ≡ rows row (r - a) a
select_cut test row n a r h k low mid high =
    rw
      (
        rows_cut row n a r h k,
        select-append test (rows row a 0) (rows row (r - a) a ++ rows row (n - r) r),
        select-append test (rows row (r - a) a) (rows row (n - r) r),
        select_none test row a 0 (λ j x y. low j (omega arith)),
        select_all test row (r - a) a (λ j x y. mid j x (omega arith)),
        select_none test row (n - r) r (λ j x y. high j x (omega arith)),
      )
      (append-nil (rows row (r - a) a))

select_nonempty :
    (test : TradeData → Bool) (row : ℕ → TradeData) (n i k : ℕ)
    → i ≤ k
    → k < i + n
    → test (row k) ≡ true
    → select test (rows row n i) ≢ []
select_nonempty test row zero i k a b h = absurd (omega arith)
select_nonempty test row (suc n) i k a b h = elim (dec_lt i k) [
  | yes later ↦ ground (arith, select_nonempty test row n (i + 1) k (omega arith) (omega arith) h)
  | no first ↦
      let same : k ≡ i = omega arith in
      let here : test (row i) ≡ true = subst (λ j. test (row j) ≡ true) same h in ground arith
]

pub range_nonempty :
    (row : ℕ → TradeData) (n start_time end_time k : ℕ)
    → k < n
    → start_time ≤ (row k).created_at
    → (row k).created_at < end_time
    → range_trades row n start_time end_time ≢ []
range_nonempty row n start_time end_time k h a b =
    rw (range_trades-in_window row n start_time end_time) (
      select_nonempty (in_window start_time end_time) row n 0 k (omega arith) (omega arith)
        (in_window-true start_time end_time (row k) a b))

module _ {row : ℕ → TradeData} {n : ℕ} (sorted : IsSorted row n) (start_time end_time : ℕ)
    (p : ℕ × ℕ) (found : Located row n start_time end_time p) where
  last_index : 0 < found.0 → p.1 + 1 ≡ found.0
  last_index h = ground (arith, found.3)

  -- The scans stay inside the file.
  pub Located_fits : 0 < n → p.0 + rounds p.0 p.1 ≤ n
  Located_fits h = ground (arith, found.3, found.2.upper, found.1.upper)

  -- With a trade in the range the scans visit the trades of the range, in order.
  pub Located_hit :
      (k : ℕ)
      → k < n
      → start_time ≤ (row k).created_at
      → (row k).created_at < end_time
      → scanned row p ≡ range_trades row n start_time end_time
  Located_hit k kn ks ke =
      let r = found.0 in
      let low : p.0 ≤ k = elim (dec_lt k p.0) [
        | yes x ↦ absurd (omega (arith, found.1.before k (omega arith) x))
        | no x ↦ omega arith
      ] in
      let high : k < r = elim (dec_lt k r) [
        | yes x ↦ x
        | no x ↦ absurd (omega (arith, found.2.after k (omega arith) kn))
      ] in
      rows_eq row {m = p.1 + 1 - p.0} {n = r - p.0} {i = p.0} {j = p.0}
        (omega (arith, last_index (omega arith))) refl
      ∙ sym (
          select_cut (in_window start_time end_time) row n p.0 r found.2.lower found.2.upper
            (λ j x. in_window_before start_time end_time (row j) (found.1.before j (omega arith) x))
            (λ j x y.
              in_window-true start_time end_time (row j)
                (from_start j x (omega (arith, found.2.upper)) low) (found.2.before j x y))
            (λ j x y. in_window_after start_time end_time (row j) (found.2.after j x y)))
      ∙ sym (range_trades-in_window row n start_time end_time)
    where
      from_start : (j : ℕ) → p.0 ≤ j → j < n → p.0 ≤ k → start_time ≤ (row j).created_at
      from_start j x y low = elim (dec_lt j (n - 1)) [
        | yes z ↦ found.1.after j x z
        | no z ↦ omega (arith, sorted k j (omega arith) y)
      ]

  -- With all trades before the range they visit the last trade of the file.
  pub Located_late :
      (k : ℕ)
      → n ≡ suc k
      → (row k).created_at < start_time
      → start_time < end_time
      → scanned row p ≡ row k ∷ []
  Located_late k kn ks se =
      let low : p.0 ≡ k = elim (dec_lt p.0 k) [
        | yes x ↦ absurd (
            omega (
              arith,
              found.1.after p.0 (omega arith) (omega arith),
              sorted p.0 k (omega arith) (omega arith),
            ))
        | no x ↦ omega (arith, found.1.upper)
      ] in
      let high : found.0 ≡ suc k = elim (dec_lt found.0 (suc k)) [
        | yes x ↦ absurd (omega (arith, found.2.after k (omega arith) (omega arith)))
        | no x ↦ omega (arith, found.2.upper)
      ] in
      rows_eq row {m = p.1 + 1 - p.0} {n = 1} {i = p.0} {j = k}
        (omega (arith, last_index (omega arith))) low

  -- With all trades after the range they visit the first trade of the file.
  pub Located_early :
      0 < n → start_time < end_time → end_time ≤ (row 0).created_at → scanned row p ≡ row 0 ∷ []
  Located_early kn se ke =
      let low : p.0 ≡ 0 = elim (dec_lt 0 p.0) [
        | yes x ↦ absurd (omega (arith, found.1.before 0 (omega arith) x))
        | no x ↦ omega arith
      ] in
      let high : found.0 ≡ 0 = elim (dec_lt 0 found.0) [
        | yes x ↦ absurd (omega (arith, found.2.before 0 (omega arith) x))
        | no x ↦ omega arith
      ] in
      let last : p.1 ≡ 0 = ground (arith, found.3) in
      rows_eq row {m = p.1 + 1 - p.0} {n = 1} {i = p.0} {j = 0} (omega arith) low

  -- With the range between two neighbours they visit nothing.
  pub Located_gap :
      (k : ℕ)
      → suc k < n
      → start_time < end_time
      → (row k).created_at < start_time
      → end_time ≤ (row (suc k)).created_at
      → scanned row p ≡ []
  Located_gap k kn se ks ke =
      let low : p.0 ≡ suc k = elim (dec_lt p.0 (suc k)) [
        | yes x ↦ absurd (
            omega (
              arith,
              found.1.after p.0 (omega arith) (omega arith),
              sorted p.0 k (omega arith) (omega arith),
            ))
        | no x ↦ elim (dec_lt (suc k) p.0) [
          | yes y ↦ absurd (omega (arith, found.1.before (suc k) (omega arith) y))
          | no y ↦ omega arith
        ]
      ] in
      let high : found.0 ≡ suc k = elim (dec_lt (suc k) found.0) [
        | yes x ↦ absurd (omega (arith, found.2.before (suc k) (omega arith) x))
        | no x ↦ omega (arith, found.2.lower)
      ] in
      rows_eq row {m = p.1 + 1 - p.0} {n = 0} {i = p.0} {j = p.0}
        (omega (arith, last_index (omega arith))) refl
