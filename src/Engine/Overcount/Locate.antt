-- ===== src/Engine/Overcount/Locate.antt =====
-- Finding a range in a file of which src/query_engine/query_engine.cc counts too many trades.
use native.Mathlib.Decide.{dec_lt}
use group_trade_data_query.Common.{
  ℕ, zero, suc, ◌+◌, ◌-◌, ◌*◌, ◌%◌, ◌≤◌, ◌<◌, ◌≡◌, refl, subst, ◌⊎◌, inl, inr, List, foldl, arith,
  ◌==◌, if◌then◌else◌, length,
}
use group_trade_data_query.Common.Word.{u64_mod, add64, sub64}
use group_trade_data_query.Common.Run.{
  Run, Error, ok, err, timeout, read_failed, assertion, out_of_bounds, length_error, runtime_error,
  invalid_argument, out_of_range, ◌>>=◌,
}
use group_trade_data_query.Query.{TradeData}
use group_trade_data_query.Engine.{Engine, search, search_fuel, locate, scan, rounds}
use group_trade_data_query.Engine.Search.{IsSorted}
use group_trade_data_query.Engine.Store.{
  Stored, StoredFit, stored_bytes, length-stored_bytes, opened, row, read-opened, read_past,
  trades_size_opened,
}
use group_trade_data_query.Engine.Window.{rows, Located}
use group_trade_data_query.Engine.Overcount.{Overcounts, OrPast, SplitsUpTo, search-SplitsUpTo}

-- A call that throws past the trades or returns.
pub OrPast-cases {ℓ} :
    {A : Type ℓ} (n : ℕ) (m : Run A) (P : A → Type 0)
    → OrPast n m P
    → ((a : A) × (m ≡ ok a) × P a) ⊎ ((j : ℕ) × (m ≡ err (read_failed j)) × (n ≤ j))
OrPast-cases n (ok a) P p = inl (a, refl, p)
OrPast-cases n (err (read_failed j)) P p = inr (j, refl, p)
OrPast-cases n (err assertion) P p = absurd p
OrPast-cases n (err out_of_bounds) P p = absurd p
OrPast-cases n (err length_error) P p = absurd p
OrPast-cases n (err runtime_error) P p = absurd p
OrPast-cases n (err invalid_argument) P p = absurd p
OrPast-cases n (err out_of_range) P p = absurd p
OrPast-cases n timeout P p = absurd p

-- What follows such a call.
pub OrPast-bind {ℓ κ} :
    {A : Type ℓ} {B : Type κ} (n : ℕ) (m : Run A) (f : A → Run B) (P : A → Type 0) (Q : B → Type 0)
    → OrPast n m P
    → ((a : A) → m ≡ ok a → P a → OrPast n (f a) Q)
    → OrPast n (m >>= f) Q
OrPast-bind n (ok a) f P Q p g = g a refl p
OrPast-bind n (err x) f P Q p g = p
OrPast-bind n timeout f P Q p g = absurd p

pub OrPast-ok {ℓ} :
    {A : Type ℓ} (n : ℕ) (m : Run A) (P : A → Type 0) {a : A} → OrPast n m P → m ≡ ok a → P a
OrPast-ok n m P p e = subst (λ r. OrPast n r P) e p

module _ (e : Engine) (start_time end_time last : ℕ) (size : sub64 e.trades_size 1 ≡ last) where
  locate_first_fails :
      (x : Error)
      → search e start_time search_fuel 0 last ≡ err x
      → locate e start_time end_time ≡ err x
  unfolding locate
  locate_first_fails x h = rw (size, h) refl

  locate_second_fails :
      (p : ℕ × ℕ) (x : Error)
      → search e start_time search_fuel 0 last ≡ ok p
      → search e end_time search_fuel p.0 e.trades_size ≡ err x
      → locate e start_time end_time ≡ err x
  unfolding locate
  locate_second_fails p x h g = rw (size, h, g) refl

  locate_found :
      (p q : ℕ × ℕ)
      → search e start_time search_fuel 0 last ≡ ok p
      → search e end_time search_fuel p.0 e.trades_size ≡ ok q
      → q.1 < u64_mod
      → locate e start_time end_time ≡ ok (p.0, (if q.1 == 0 then 0 else q.1 - 1))
  unfolding locate sub64
  locate_found p q first second small = rw (size, first, second) (ground arith)

module _ {e : Engine} {row : ℕ → TradeData} {n : ℕ} (over : Overcounts e row n)
    (sorted : IsSorted row n) (start_time end_time : ℕ) where
  pub scan-foldl_over :
      {S : Type 0} (body : S → TradeData → S) (k i : ℕ) (s : S)
      → i + k ≤ n
      → scan body e k i s ≡ ok (foldl body s (rows row k i))
  unfolding scan add64
  scan-foldl_over body zero i s h = refl
  scan-foldl_over body (suc k) i s h =
      let next : (i + 1) % u64_mod ≡ i + 1 = omega (arith, over.small, over.size) in
      rw (over.reads i (omega arith), next)
        (scan-foldl_over body k (i + 1) (body _ _) (omega arith))

  size_pred : 0 < n → sub64 e.trades_size 1 ≡ e.trades_size - 1
  unfolding sub64
  size_pred pos = omega (arith, over.size, over.small)

  -- With a trade of the range at `k`, `locate` finds the range of the trades that there are, or throws.
  pub locate-or_past :
      (k : ℕ)
      → k < n
      → start_time ≤ (row k).created_at
      → (row k).created_at < end_time
      → OrPast n (locate e start_time end_time) (Located row n start_time end_time)
  locate-or_past k kn ks ke =
      let last = e.trades_size - 1 in
      let size = size_pred (omega arith) in
      elim (OrPast-cases n (search e start_time search_fuel 0 last) _ (
        search-SplitsUpTo over sorted start_time 64 0 last (omega arith) (omega arith) (omega arith)
          (omega (arith, over.small)))) [
            | inr (j, failed, past) ↦
                rw (locate_first_fails e start_time end_time last size (read_failed j) failed) past
            | inl (p, first, (same, split)) ↦
                elim (OrPast-cases n (search e end_time search_fuel p.0 e.trades_size) _ (
                  search-SplitsUpTo over sorted end_time 64 p.0 e.trades_size
                    (omega (arith, split.inside, over.size)) split.inside (omega arith)
                    (omega (arith, over.small)))) [
                      | inr (j, failed, past) ↦
                          rw
                            (locate_second_fails e start_time end_time last size p (read_failed j)
                              first failed)
                            past
                      | inl (q, second, (same', split')) ↦
                          let low : p.0 ≤ k = elim (dec_lt k p.0) [
                            | yes z ↦ omega (arith, split.before k (omega arith) z)
                            | no z ↦ omega arith
                          ] in
                          let both =
                            subst (λ x. SplitsUpTo row n end_time p.0 e.trades_size x) same'
                              split' in
                          rw
                            (locate_found e start_time end_time last size p q first second
                              (omega (arith, over.small, both.upper)))
                            (
                              q.1,
                              record {
                                lower = omega arith;
                                upper = omega arith;
                                before = split.before;
                                after = λ i x y.
                                    split.after i x (omega (arith, over.size)) (omega arith);
                              },
                              record {
                                lower = both.lower;
                                upper = both.inside;
                                before = both.before;
                                after = λ i x y. both.after i x (omega (arith, over.size)) y;
                              },
                              refl,
                            )
                    ]
          ]

  -- Whatever the range, `locate` throws, or the trades that are scanned after it are all there.
  pub locate-Within :
      0 < n → OrPast n (locate e start_time end_time) (λ p. p.0 + rounds p.0 p.1 ≤ n)
  locate-Within pos =
      let last = e.trades_size - 1 in
      let size = size_pred pos in
      elim (OrPast-cases n (search e start_time search_fuel 0 last) _ (
        search-SplitsUpTo over sorted start_time 64 0 last (omega arith) (omega arith) (omega arith)
          (omega (arith, over.small)))) [
            | inr (j, failed, past) ↦
                rw (locate_first_fails e start_time end_time last size (read_failed j) failed) past
            | inl (p, first, (same, split)) ↦
                elim (OrPast-cases n (search e end_time search_fuel p.0 e.trades_size) _ (
                  search-SplitsUpTo over sorted end_time 64 p.0 e.trades_size
                    (omega (arith, split.inside, over.size)) split.inside (omega arith)
                    (omega (arith, over.small)))) [
                      | inr (j, failed, past) ↦
                          rw
                            (locate_second_fails e start_time end_time last size p (read_failed j)
                              first failed)
                            past
                      | inl (q, second, (same', split')) ↦
                          rw
                            (locate_found e start_time end_time last size p q first second
                              (omega (arith, over.small, split'.upper)))
                            (within p.0 q.1 (omega (arith, split'.lower))
                              (omega (arith, split'.inside)))
                    ]
          ]
    where
      within : (a b : ℕ) → a ≤ b → b ≤ n → a + rounds a (if b == 0 then 0 else b - 1) ≤ n
      within a b h g = ground arith

-- A file of any size, as the constructor counts it.
pub opened-Overcounts :
    (ss : List Stored)
    → StoredFit ss
    → length ss * 64 < u64_mod
    → Overcounts (opened ss) (row ss) (length ss)
opened-Overcounts ss fits small = record {
  size = omega (arith, trades_size_opened ss);
  small = omega (arith, trades_size_opened ss);
  reads = λ i h. read-opened ss i fits (omega arith) h;
  past = λ i h b.
      read_past i (stored_bytes ss) (omega (arith, length-stored_bytes ss))
        (omega (arith, trades_size_opened ss));
}
