-- ===== src/Query/Layout.antt =====
-- How the compiler lays out the records of src/utils/query.h: each member at the next multiple of its
-- alignment, which `#pragma pack(2)` caps, and the size rounded up to the alignment of the whole.
use Prim.Native.Nat.{max}
use group_trade_data_query.Common.{ℕ, ◌+◌, ◌-◌, ◌*◌, ◌/◌, min, List, [], ◌∷◌}

pub record Member : Type 0 where
  pub size : ℕ
  pub align : ℕ

abbrev pub member : ℕ → ℕ → Member
member s a = record { size = s; align = a }

unfoldable pub align_up : ℕ → ℕ → ℕ
align_up x a = (x + (a - 1)) / a * a

-- The members' offsets, with `pack` the cap on alignments and `at` the first byte that is free.
unfoldable pub offsets : ℕ → ℕ → List Member → List ℕ
unfolding align_up
offsets pack free [] = []
offsets pack free (m ∷ ms) =
    let start = align_up free (min pack m.align) in start ∷ offsets pack (start + m.size) ms

members_end : ℕ → ℕ → List Member → ℕ
unfolding align_up
members_end pack free [] = free
members_end pack free (m ∷ ms) = members_end pack (align_up free (min pack m.align) + m.size) ms

alignment : ℕ → List Member → ℕ
alignment pack [] = 1
alignment pack (m ∷ ms) = max (min pack m.align) (alignment pack ms)

unfoldable pub sizeof : ℕ → List Member → ℕ
unfolding members_end alignment align_up
sizeof pack ms = align_up (members_end pack 0 ms) (alignment pack ms)

-- Without a pragma the cap is the largest alignment of the platform.
abbrev pub natural : ℕ
natural = 16

abbrev pub query_members : List Member
query_members = member 4 4 ∷ member 8 8 ∷ member 8 8 ∷ member 8 8 ∷ member 8 8 ∷ []

-- A `Price` or a `Quantity` is packed.
abbrev pub decimal_members : List Member
decimal_members = member 4 1 ∷ member 1 1 ∷ []

abbrev pub trade_members : List Member
trade_members = member 4 4 ∷ member 8 8 ∷ member 8 8 ∷ member 5 1 ∷ member 5 1 ∷ member 1 1 ∷ []

abbrev pub result_members : List Member
result_members = member 8 8 ∷ member 5 1 ∷ member 5 1 ∷ []
