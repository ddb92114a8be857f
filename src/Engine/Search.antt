-- ===== src/Engine/Search.antt =====
-- The binary searches of src/query_engine/query_engine.cc end, and where.
use Prim.Native.Nat.pow
use group_trade_data_query.Common.{ℕ, zero, suc, ◌+◌, ◌-◌, ◌/◌, ◌^◌, ◌≤◌, ◌<◌, ◌≡◌, subst, arith}
use native.Mathlib.Decide.{dec_lt}
use group_trade_data_query.Common.Word.{u64_mod, add64, sub64}
use group_trade_data_query.Common.Run.{ok, Returns, Returns-map}
use group_trade_data_query.Query.{TradeData}
use group_trade_data_query.Engine.{Engine, read_trade_data, midpoint, search}

-- The file holds `n` trades, and `row i` is the one that a read at `i` gives.
pub record Holds (e : Engine) (row : ℕ → TradeData) (n : ℕ) : Type 0 where
  pub size : e.trades_size ≡ n
  pub small : n < u64_mod
  pub reads : (i : ℕ) → i < n → read_trade_data e i ≡ ok (row i)

-- The trades stand in the order of their times.
abbrev pub IsSorted : (ℕ → TradeData) → ℕ → Type 0
IsSorted row n = (i j : ℕ) → i ≤ j → j < n → (row i).created_at ≤ (row j).created_at

-- `p` splits the indices from `left` to `right` into trades before `time` and the others.
pub record Splits (row : ℕ → TradeData) (time left right p : ℕ) : Type 0 where
  pub lower : left ≤ p
  pub upper : p ≤ right
  pub before : (i : ℕ) → left ≤ i → i < p → (row i).created_at < time
  pub after : (i : ℕ) → p ≤ i → i < right → time ≤ (row i).created_at

pub midpoint_bounds :
    (l r : ℕ)
    → l < r
    → r < u64_mod
    → (midpoint l r ≡ l + (r - l) / 2) × (add64 (midpoint l r) 1 ≡ midpoint l r + 1)
unfolding midpoint add64 sub64
midpoint_bounds l r h b = omega arith

pub search_done : (e : Engine) (time k l r : ℕ) → r ≤ l → search e time (suc k) l r ≡ ok (l, r)
unfolding search
search_done e time k l r h = ground arith

module _ (e : Engine) (time k l r : ℕ) (more : l < r) (t : TradeData)
    (read : read_trade_data e (midpoint l r) ≡ ok t) where
  pub search_upper :
      t.created_at < time → search e time (suc k) l r ≡ search e time k (add64 (midpoint l r) 1) r
  unfolding search
  search_upper h = ground arith

  pub search_lower :
      time ≤ t.created_at → search e time (suc k) l r ≡ search e time k l (midpoint l r)
  unfolding search
  search_lower h = ground arith

abbrev SplitPair : (ℕ → TradeData) → ℕ → ℕ → ℕ → ℕ × ℕ → Type 0
SplitPair row time l r p = (p.0 ≡ p.1) × Splits row time l r p.0

module _ {e : Engine} {row : ℕ → TradeData} {n : ℕ} (holds : Holds e row n)
    (sorted : IsSorted row n) (time : ℕ) where
  Splits-widen_left :
      (l r m p : ℕ)
      → l ≤ m
      → m < r
      → r ≤ n
      → (row m).created_at < time
      → Splits row time (m + 1) r p
      → Splits row time l r p
  Splits-widen_left l r m p a b c below s = record {
    lower = omega (arith, s.lower);
    upper = s.upper;
    before = λ i x y. elim (dec_lt m i) [
      | yes z ↦ s.before i (omega arith) y
      | no z ↦ omega (arith, sorted i m (omega arith) (omega arith))
    ];
    after = s.after;
  }

  Splits-widen_right :
      (l r m p : ℕ)
      → l ≤ m
      → m < r
      → r ≤ n
      → time ≤ (row m).created_at
      → Splits row time l m p
      → Splits row time l r p
  Splits-widen_right l r m p a b c above s = record {
    lower = s.lower;
    upper = omega (arith, s.upper);
    before = s.before;
    after = λ i x y. elim (dec_lt i m) [
      | yes z ↦ s.after i x z
      | no z ↦ omega (arith, sorted m i (omega arith) (omega arith))
    ];
  }

  search_empty :
      (k l r : ℕ)
      → l ≤ r
      → r ≤ n
      → r ≤ l
      → Returns (search e time (suc k) l r) (SplitPair row time l r)
  search_empty k l r h b empty = rw (search_done e time k l r empty) (
    omega arith,
    record {
      lower = omega arith;
      upper = h;
      before = λ i x y. absurd (omega arith);
      after = λ i x y. absurd (omega arith);
    },
  )

  search_round :
      (k l r : ℕ)
      → l < r
      → r ≤ n
      → r - l < 2 ^ suc k
      → ((l' r' : ℕ)
          → l' ≤ r'
          → r' ≤ n
          → r' - l' < 2 ^ k
          → Returns (search e time (suc k) l' r') (SplitPair row time l' r'))
      → Returns (search e time (suc (suc k)) l r) (SplitPair row time l r)
  search_round k l r more b narrow next =
      let m = midpoint l r in
      let bounds = midpoint_bounds l r more (omega (arith, holds.small)) in
      let read = holds.reads m (omega arith) in
      elim (dec_lt (row m).created_at time) [
        | yes below ↦ rw (search_upper e time (suc k) l r more (row m) read below) (
            Returns-map (search e time (suc k) (add64 m 1) r) (SplitPair row time (add64 m 1) r) _
              (λ p q. (
                q.0,
                Splits-widen_left l r m p.0 (omega arith) (omega arith) b below
                    (subst (λ x. Splits row time x r p.0) bounds.1 q.1),
              ))
              (next (add64 m 1) r (omega arith) b (omega (arith, pow.suc 2 k))))
        | no above ↦ rw (search_lower e time (suc k) l r more (row m) read (omega arith)) (
            Returns-map (search e time (suc k) l m) (SplitPair row time l m) _
              (λ p q.
                (q.0, Splits-widen_right l r m p.0 (omega arith) (omega arith) b (omega arith) q.1))
              (next l m (omega arith) (omega arith) (omega (arith, pow.suc 2 k))))
      ]

  -- If the engine counts the trades of its file right and the file is sorted, a search of a range
  -- inside the file, with one more fuel than the halvings of the range, returns, and both ends are
  -- the index that splits the range into the trades before the time and the others.
  pub search-Splits :
      (k l r : ℕ)
      → l ≤ r
      → r ≤ n
      → r - l < 2 ^ k
      → Returns (search e time (suc k) l r) (SplitPair row time l r)
  search-Splits zero l r h b narrow = search_empty 0 l r h b (omega arith)
  search-Splits (suc k) l r h b narrow = elim (dec_lt l r) [
    | no empty ↦ search_empty (suc k) l r h b (omega arith)
    | yes more ↦ search_round k l r more b narrow (search-Splits k)
  ]
