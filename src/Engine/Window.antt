-- ===== src/Engine/Window.antt =====
-- Which trades a function over a time range of src/query_engine/query_engine.cc scans.
use group_trade_data_query.Common.{
  ◌%◌, ℕ, zero, suc, ◌+◌, ◌-◌, ◌≤◌, ◌<◌, ◌≡◌, refl, ap, ◌∙◌, Bool, true, false, List, [], ◌∷◌, ◌++◌,
  foldl, arith, ◌==◌, if◌then◌else◌,
}
use group_trade_data_query.Common.Word.{u64_mod, add64, sub64}
use group_trade_data_query.Common.Run.{ok, Returns→ok}
use group_trade_data_query.Query.{TradeData}
use group_trade_data_query.Engine.{Engine, search, search_fuel, locate, scan}
use group_trade_data_query.Engine.Search.{Holds, IsSorted, Splits, search-Splits}

-- `n` trades from index `i` on.
abbrev pub rows : (ℕ → TradeData) → ℕ → ℕ → List TradeData
rows row zero i = []
rows row (suc n) i = row i ∷ rows row n (i + 1)

-- The trades that pass a test, in order.
abbrev pub select : (TradeData → Bool) → List TradeData → List TradeData
select test [] = []
select test (t ∷ ts) = if test t then t ∷ select test ts else select test ts

pub rows_eq : (row : ℕ → TradeData) {m n i j : ℕ} → m ≡ n → i ≡ j → rows row m i ≡ rows row n j
rows_eq row {m} {n} {i} {j} e f = ap (λ x. rows row x i) e ∙ ap (rows row n) f

pub rows-add :
    (row : ℕ → TradeData) (m n i : ℕ) → rows row (m + n) i ≡ rows row m i ++ rows row n (i + m)
rows-add row zero n i = rows_eq row (omega arith) (omega arith)
rows-add row (suc m) n i =
    rows_eq row {m = suc m + n} {n = suc (m + n)} {i = i} {j = i} (omega arith) refl
    ∙ ap (◌∷◌ (row i)) (
        rows-add row m n (i + 1)
        ∙ ap (◌++◌ (rows row m (i + 1))) (rows_eq row {m = n} {n = n} refl (omega arith)))

pub select-append :
    (test : TradeData → Bool) (xs ys : List TradeData)
    → select test (xs ++ ys) ≡ select test xs ++ select test ys
select-append test [] ys = refl
select-append test (x ∷ xs) ys = ground (arith, select-append test xs ys)

pub select_all :
    (test : TradeData → Bool) (row : ℕ → TradeData) (n i : ℕ)
    → ((j : ℕ) → i ≤ j → j < i + n → test (row j) ≡ true)
    → select test (rows row n i) ≡ rows row n i
select_all test row zero i h = refl
select_all test row (suc n) i h =
    rw (h i (omega arith) (omega arith))
      (ap (◌∷◌ (row i)) (select_all test row n (i + 1) (λ j a b. h j (omega arith) (omega arith))))

pub select_none :
    (test : TradeData → Bool) (row : ℕ → TradeData) (n i : ℕ)
    → ((j : ℕ) → i ≤ j → j < i + n → test (row j) ≡ false)
    → select test (rows row n i) ≡ []
select_none test row zero i h = refl
select_none test row (suc n) i h =
    rw (h i (omega arith) (omega arith))
      (select_none test row n (i + 1) (λ j a b. h j (omega arith) (omega arith)))

-- A scan inside the file folds over the trades that it reads.
pub scan-foldl {ℓ} :
    {S : Type ℓ} (body : S → TradeData → S) {e : Engine} {row : ℕ → TradeData} {n : ℕ}
    → Holds e row n
    → (k i : ℕ) (s : S) → i + k ≤ n
    → scan body e k i s ≡ ok (foldl body s (rows row k i))
unfolding scan add64
scan-foldl body holds zero i s h = refl
scan-foldl body holds (suc k) i s h =
    let next : (i + 1) % u64_mod ≡ i + 1 = omega (arith, holds.small) in
    rw (holds.reads i (omega arith), next)
      (scan-foldl body holds k (i + 1) (body _ _) (omega arith))

size-pred :
    (e : Engine) (n : ℕ) {row : ℕ → TradeData}
    → Holds e row n
    → 0 < n
    → sub64 e.trades_size 1 ≡ n - 1
unfolding sub64
size-pred e n holds pos = omega (arith, holds.size, holds.small)

-- What `locate` returns: the first index of a trade not before `start_time`, or the last index of the
-- file, and the index before the first trade not before `end_time`, or 0.
abbrev pub Located : (ℕ → TradeData) → ℕ → ℕ → ℕ → ℕ × ℕ → Type 0
Located row n start_time end_time p =
    (r : ℕ) × Splits row start_time 0 (n - 1) p.0
    × Splits row end_time p.0 n r
    × (p.1 ≡ (if r == 0 then 0 else r - 1))

locate_of_searches :
    (e : Engine) (start_time end_time last : ℕ) (p q : ℕ × ℕ)
    → sub64 e.trades_size 1 ≡ last
    → search e start_time search_fuel 0 last ≡ ok p
    → search e end_time search_fuel p.0 e.trades_size ≡ ok q
    → q.1 < u64_mod
    → locate e start_time end_time ≡ ok (p.0, (if q.1 == 0 then 0 else q.1 - 1))
unfolding locate sub64
locate_of_searches e start_time end_time last p q size first second small =
    rw (size, first, second) (ground arith)

module _ {e : Engine} {row : ℕ → TradeData} {n : ℕ} (holds : Holds e row n)
    (sorted : IsSorted row n) where
  -- A search over part of the file ends, at the split.
  search-split :
      (time l r : ℕ)
      → l ≤ r
      → r ≤ n
      → (p : ℕ × ℕ) × (search e time search_fuel l r ≡ ok p) × (p.0 ≡ p.1) × Splits row time l r p.0
  search-split time l r h b =
      let (p, found, (same, split)) =
        Returns→ok (search e time search_fuel l r) _
          (search-Splits holds sorted time 64 l r h b (omega (arith, holds.small))) in
      (p, found, same, split)

  -- On a file that holds a trade both searches end.
  pub locate-Located :
      (start_time end_time : ℕ)
      → 0 < n
      → (p : ℕ × ℕ) × (locate e start_time end_time ≡ ok p) × Located row n start_time end_time p
  locate-Located start_time end_time pos =
      join (search-split start_time 0 (n - 1) (omega arith) (omega arith))
    where
      join :
          ((p : ℕ × ℕ) × (search e start_time search_fuel 0 (n - 1) ≡ ok p)
            × (p.0 ≡ p.1)
            × Splits row start_time 0 (n - 1) p.0)
          → (p : ℕ × ℕ) × (locate e start_time end_time ≡ ok p)
            × Located row n start_time end_time p
      join (p, found, same, first) =
          close (search-split end_time p.0 n (omega (arith, first.upper)) (omega arith))
        where
          close :
              ((q : ℕ × ℕ) × (search e end_time search_fuel p.0 n ≡ ok q)
                × (q.0 ≡ q.1)
                × Splits row end_time p.0 n q.0)
              → (p : ℕ × ℕ) × (locate e start_time end_time ≡ ok p)
                × Located row n start_time end_time p
          close (q, found', same', last) = (
            (p.0, (if q.1 == 0 then 0 else q.1 - 1)),
            locate_of_searches e start_time end_time (n - 1) p q (size-pred e n holds pos) found
                (rw (← holds.size) at found') (omega (arith, holds.small, last.upper)),
            (q.0, first, last, rw same'),
          )
