-- ===== src/Engine/Store.antt =====
-- The data file as process_data/process_data_main.cc writes it, read by src/query_engine/query_engine.cc.

use group_trade_data_query.Common.{
  drop_eq, drop-nil, drop-add, ℕ, zero, suc, ◌+◌, ◌*◌, ◌/◌, ◌%◌, ◌≤◌, ◌<◌, ◌≡◌, refl, ap, subst,
  ◌∙◌, some, List, [], ◌∷◌, ◌++◌, arith, length, drop, All, take-append, drop-append, length-append,
  length-take, length-drop,
}
use group_trade_data_query.Common.Word.{u64_mod, add64, mul64}
use group_trade_data_query.Common.Run.{Error, ok, err, read_failed}
use group_trade_data_query.Query.{TradeData, TradeFits, TradeDataQuery}
use group_trade_data_query.Query.Codec.{encode_trade, decode_trade}
use group_trade_data_query.Query.Codec.RoundTrip.{length-encode_trade, decode_trade-encode_trade}
use group_trade_data_query.Engine.{Engine, open_engine, read_trade_data, scan, send_raw_data}
use group_trade_data_query.Engine.Search.{Holds}

-- A trade with the byte of padding that is written after it.
pub record Stored : Type 0 where
  pub trade : TradeData
  pub pad : ℕ

abbrev pub stored_bytes : List Stored → List ℕ
stored_bytes [] = []
stored_bytes (s ∷ ss) = encode_trade s.pad s.trade ++ stored_bytes ss

abbrev pub StoredFit : List Stored → Type 0
StoredFit = All (λ s. TradeFits s.trade)

abbrev pub opened : List Stored → Engine
opened ss = open_engine 0 (some (stored_bytes ss))

pub length-stored_bytes : (ss : List Stored) → length (stored_bytes ss) ≡ length ss * 32
length-stored_bytes [] = omega arith
length-stored_bytes (s ∷ ss) = omega (
  arith,
  length-append (encode_trade s.pad s.trade) (stored_bytes ss),
  length-encode_trade s.pad s.trade,
  length-stored_bytes ss,
)

drop-stored_bytes :
    (i : ℕ) (ss : List Stored) → drop (i * 32) (stored_bytes ss) ≡ stored_bytes (drop i ss)
drop-stored_bytes zero ss = drop_eq {m = 0 * 32} {n = 0} (stored_bytes ss) (omega arith)
drop-stored_bytes (suc i) [] = drop-nil (suc i * 32)
drop-stored_bytes (suc i) (s ∷ ss) =
    drop_eq {m = suc i * 32} {n = 32 + i * 32} (stored_bytes (s ∷ ss)) (omega arith)
    ∙ drop-add 32 (i * 32) (stored_bytes (s ∷ ss))
    ∙ ap (drop (i * 32)) (
        drop-append 32 (encode_trade s.pad s.trade) (stored_bytes ss)
          (length-encode_trade s.pad s.trade))
    ∙ drop-stored_bytes i ss

-- A read inside the file gives the trade that was written there.
read_first :
    (i : ℕ) (bytes : List ℕ) (s : Stored) (ss : List Stored)
    → i * 32 < u64_mod
    → TradeFits s.trade
    → drop (i * 32) bytes ≡ stored_bytes (s ∷ ss)
    → read_trade_data (open_engine 0 (some bytes)) i ≡ ok s.trade
unfolding read_trade_data open_engine mul64
read_first i bytes s ss small fits e =
    let off : i * 32 % u64_mod ≡ i * 32 = omega arith in
    rw
      (
        off,
        e,
        take-append 32 (encode_trade s.pad s.trade) (stored_bytes ss)
            (length-encode_trade s.pad s.trade),
        length-encode_trade s.pad s.trade,
        decode_trade-encode_trade s.pad s.trade fits,
      )
      refl

pub read_past :
    (i : ℕ) (bytes : List ℕ)
    → length bytes < i * 32 + 32
    → i * 32 < u64_mod
    → read_trade_data (open_engine 0 (some bytes)) i ≡ err (read_failed i)
unfolding read_trade_data open_engine mul64
read_past i bytes short small =
    let off : i * 32 % u64_mod ≡ i * 32 = omega arith in
    rw off ground (arith, length-take 32 (drop (i * 32) bytes), length-drop (i * 32) bytes)

abbrev zero_trade : TradeData
zero_trade = decode_trade []

-- The trade at an index, for indices inside the file.
abbrev pub row : List Stored → ℕ → TradeData
row [] i = zero_trade
row (s ∷ ss) zero = s.trade
row (s ∷ ss) (suc i) = row ss i

drop-row :
    (i : ℕ) (ss : List Stored)
    → StoredFit ss
    → i < length ss
    → (s : Stored) × (rest : List Stored) × (drop i ss ≡ s ∷ rest)
      × (s.trade ≡ row ss i)
      × TradeFits s.trade
drop-row i [] fits h = elim h [ ]
drop-row zero (s ∷ ss) fits h = (s, ss, refl, refl, fits.0)
drop-row (suc i) (s ∷ ss) fits h = drop-row i ss fits.1 (omega arith)

pub read-opened :
    (ss : List Stored) (i : ℕ)
    → StoredFit ss
    → length ss * 32 < u64_mod
    → i < length ss
    → read_trade_data (opened ss) i ≡ ok (row ss i)
read-opened ss i fits small h =
    let (s, rest, cut, same, sfits) = drop-row i ss fits h in
    read_first i (stored_bytes ss) s rest (omega arith) sfits
      (drop-stored_bytes i ss ∙ ap stored_bytes cut)
    ∙ ap ok same

pub trades_size_opened : (ss : List Stored) → (opened ss).trades_size ≡ length ss * 32 / 31
unfolding open_engine
trades_size_opened ss = omega (arith, length-stored_bytes ss)

-- If a file has at most 30 trades, all in range, the constructor counts them right, and each is
-- read back.
pub opened-Holds :
    (ss : List Stored) → StoredFit ss → length ss < 31 → Holds (opened ss) (row ss) (length ss)
opened-Holds ss fits few = record {
  size = omega (arith, trades_size_opened ss);
  small = omega arith;
  reads = λ i h. read-opened ss i fits (omega arith) h;
}

-- The first read that fails ends a scan.
scan_fails {ℓ} :
    {S : Type ℓ} (body : S → TradeData → S) (e : Engine) (x : Error) (k rounds i : ℕ) (s : S)
    → k < rounds
    → i + k < u64_mod
    → ((j : ℕ) → i ≤ j → j < i + k → (t : TradeData) × (read_trade_data e j ≡ ok t))
    → read_trade_data e (i + k) ≡ err x
    → scan body e rounds i s ≡ err x
unfolding scan add64
scan_fails body e x k zero i s h b good bad = elim h [ ]
scan_fails body e x zero (suc rounds) i s h b good bad =
    let same : i + 0 ≡ i = omega arith in rw (subst (λ j. read_trade_data e j ≡ err x) same bad)
scan_fails body e x (suc k) (suc rounds) i s h b good bad =
    let (t, read) = good i (omega arith) (omega arith) in
    let next : (i + 1) % u64_mod ≡ i + 1 = omega arith in
    let shifted : i + suc k ≡ (i + 1) + k = omega arith in
    rw (read, next)
      (scan_fails body e x k rounds (i + 1) (body s t) (omega arith) (omega arith)
        (λ j p q. good j (omega arith) (omega arith))
        (subst (λ j. read_trade_data e j ≡ err x) shifted bad))

-- If a file has 31 trades or more, all in range, and fewer than 2 ^ 64 bytes, then the
-- constructor, which divides the size of the file by 31 and not by `sizeof(TradeData)`, counts
-- more trades than there are, and `send_raw_data` throws at the first index past the end, whatever
-- the query.
pub send_raw_data_fails :
    (ss : List Stored) (query : TradeDataQuery)
    → StoredFit ss
    → length ss * 32 + 32 < u64_mod
    → 31 ≤ length ss
    → (length ss < (opened ss).trades_size)
      × (send_raw_data (opened ss) query ≡ err (read_failed (length ss)))
unfolding send_raw_data
send_raw_data_fails ss query fits small many =
    let size = trades_size_opened ss in
    (
      omega arith,
      scan_fails _ (opened ss) (read_failed (length ss)) (length ss) (opened ss).trades_size 0 []
          (omega arith) (omega arith)
          (λ j p q. (row ss j, read-opened ss j fits (omega arith) (omega arith)))
          (subst (λ j. read_trade_data (opened ss) j ≡ err (read_failed (length ss)))
            {x = length ss} {y = 0 + length ss} (omega arith)
            (read_past (length ss) (stored_bytes ss) (omega (arith, length-stored_bytes ss))
              (omega arith))),
    )
