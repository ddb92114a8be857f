-- ===== src/Engine/Overcount.antt =====
-- The searches of src/query_engine/query_engine.cc with an engine that counts more trades than its file has.
pub mod Locate
pub mod Extremes
pub mod Sums
pub mod Answers
use Prim.Native.Nat.pow
use native.Mathlib.Decide.{dec_lt}
use group_trade_data_query.Common.{ℕ, zero, suc, ◌+◌, ◌-◌, ◌^◌, ◌≤◌, ◌<◌, ◌≡◌, subst, arith}
use group_trade_data_query.Common.Word.{u64_mod, add64}
use group_trade_data_query.Common.Run.{
  Run, Error, ok, err, timeout, read_failed, assertion, out_of_bounds, length_error, runtime_error,
  invalid_argument, out_of_range,
}
use group_trade_data_query.Query.{TradeData}
use group_trade_data_query.Engine.{Engine, read_trade_data, midpoint, search}
use group_trade_data_query.Engine.Search.{
  IsSorted, midpoint_bounds, search_done, search_upper, search_lower,
}

-- The file holds `n` trades, and reads past them fail.
pub record Overcounts (e : Engine) (row : ℕ → TradeData) (n : ℕ) : Type 0 where
  pub size : n ≤ e.trades_size
  pub small : e.trades_size < u64_mod
  pub reads : (i : ℕ) → i < n → read_trade_data e i ≡ ok (row i)
  pub past : (i : ℕ) → n ≤ i → i < e.trades_size → read_trade_data e i ≡ err (read_failed i)

-- The call throws at a read past the `n` trades, or it returns, and its result has the property.
abbrev pub FailsPast : ℕ → Error → Type 0
FailsPast n (read_failed j) = n ≤ j
FailsPast n assertion = ⊥
FailsPast n out_of_bounds = ⊥
FailsPast n length_error = ⊥
FailsPast n runtime_error = ⊥
FailsPast n invalid_argument = ⊥
FailsPast n out_of_range = ⊥

abbrev pub OrPast {ℓ} : {A : Type ℓ} → ℕ → Run A → (A → Type 0) → Type 0
OrPast n (ok a) P = P a
OrPast n (err x) P = FailsPast n x
OrPast n timeout P = ⊥

OrPast-map {ℓ} :
    {A : Type ℓ} (n : ℕ) (m : Run A) (P Q : A → Type 0)
    → ((a : A) → P a → Q a)
    → OrPast n m P
    → OrPast n m Q
OrPast-map n (ok a) P Q f p = f a p
OrPast-map n (err x) P Q f p = p
OrPast-map n timeout P Q f p = p

-- `p` splits the indices of trades between `left` and `right`.
pub record SplitsUpTo (row : ℕ → TradeData) (n time left right p : ℕ) : Type 0 where
  pub lower : left ≤ p
  pub upper : p ≤ right
  pub inside : p ≤ n
  pub before : (i : ℕ) → left ≤ i → i < p → (row i).created_at < time
  pub after : (i : ℕ) → p ≤ i → i < right → i < n → time ≤ (row i).created_at

abbrev pub SplitBoth : (ℕ → TradeData) → ℕ → ℕ → ℕ → ℕ → ℕ × ℕ → Type 0
SplitBoth row n time l r p = (p.0 ≡ p.1) × SplitsUpTo row n time l r p.0

search_throws :
    (e : Engine) (time k l r : ℕ) (x : Error)
    → l < r
    → read_trade_data e (midpoint l r) ≡ err x
    → search e time (suc k) l r ≡ err x
unfolding search
search_throws e time k l r x more failed = ground arith

module _ {e : Engine} {row : ℕ → TradeData} {n : ℕ} (over : Overcounts e row n)
    (sorted : IsSorted row n) (time : ℕ) where
  widen_left :
      (l r m p : ℕ)
      → l ≤ m
      → m < r
      → m < n
      → (row m).created_at < time
      → SplitsUpTo row n time (m + 1) r p
      → SplitsUpTo row n time l r p
  widen_left l r m p a b c below s = record {
    lower = omega (arith, s.lower);
    upper = s.upper;
    inside = s.inside;
    before = λ i x y. elim (dec_lt m i) [
      | yes z ↦ s.before i (omega arith) y
      | no z ↦ omega (arith, sorted i m (omega arith) (omega arith))
    ];
    after = s.after;
  }

  widen_right :
      (l r m p : ℕ)
      → l ≤ m
      → m < r
      → m < n
      → time ≤ (row m).created_at
      → SplitsUpTo row n time l m p
      → SplitsUpTo row n time l r p
  widen_right l r m p a b c above s = record {
    lower = s.lower;
    upper = omega (arith, s.upper);
    inside = s.inside;
    before = s.before;
    after = λ i x y z. elim (dec_lt i m) [
      | yes w ↦ s.after i x w z
      | no w ↦ omega (arith, sorted m i (omega arith) (omega arith))
    ];
  }

  search_empty :
      (k l r : ℕ)
      → l ≤ r
      → l ≤ n
      → r ≤ l
      → OrPast n (search e time (suc k) l r) (SplitBoth row n time l r)
  search_empty k l r h b empty = rw (search_done e time k l r empty) (
    omega arith,
    record {
      lower = omega arith;
      upper = h;
      inside = b;
      before = λ i x y. absurd (omega arith);
      after = λ i x y z. absurd (omega arith);
    },
  )

  search_round :
      (k l r : ℕ)
      → l < r
      → l ≤ n
      → r ≤ e.trades_size
      → r - l < 2 ^ suc k
      → ((l' r' : ℕ)
          → l' ≤ r'
          → l' ≤ n
          → r' ≤ e.trades_size
          → r' - l' < 2 ^ k
          → OrPast n (search e time (suc k) l' r') (SplitBoth row n time l' r'))
      → OrPast n (search e time (suc (suc k)) l r) (SplitBoth row n time l r)
  search_round k l r more b c narrow next =
      let m = midpoint l r in
      let bounds = midpoint_bounds l r more (omega (arith, over.small)) in
      elim (dec_lt m n) [
        | no outside ↦
            rw
              (search_throws e time (suc k) l r (read_failed m) more
                (over.past m (omega arith) (omega arith)))
              (omega arith)
        | yes inside ↦
            let read = over.reads m inside in
            elim (dec_lt (row m).created_at time) [
              | yes below ↦ rw (search_upper e time (suc k) l r more (row m) read below) (
                  OrPast-map n (search e time (suc k) (add64 m 1) r)
                    (SplitBoth row n time (add64 m 1) r) _
                    (λ p q. (
                      q.0,
                      widen_left l r m p.0 (omega arith) (omega arith) inside below
                          (subst (λ x. SplitsUpTo row n time x r p.0) bounds.1 q.1),
                    ))
                    (next (add64 m 1) r (omega arith) (omega arith) c (omega (arith, pow.suc 2 k))))
              | no above ↦ rw (search_lower e time (suc k) l r more (row m) read (omega arith)) (
                  OrPast-map n (search e time (suc k) l m) (SplitBoth row n time l m) _
                    (λ p q. (
                      q.0,
                      widen_right l r m p.0 (omega arith) (omega arith) inside (omega arith) q.1,
                    ))
                    (next l m (omega arith) b (omega arith) (omega (arith, pow.suc 2 k))))
            ]
      ]

  -- A search throws past the trades, or it ends at the split of those that there are.
  pub search-SplitsUpTo :
      (k l r : ℕ)
      → l ≤ r
      → l ≤ n
      → r ≤ e.trades_size
      → r - l < 2 ^ k
      → OrPast n (search e time (suc k) l r) (SplitBoth row n time l r)
  search-SplitsUpTo zero l r h b c narrow = search_empty 0 l r h b (omega arith)
  search-SplitsUpTo (suc k) l r h b c narrow = elim (dec_lt l r) [
    | no empty ↦ search_empty (suc k) l r h b (omega arith)
    | yes more ↦ search_round k l r more b c narrow (search-SplitsUpTo k)
  ]
