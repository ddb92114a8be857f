-- ===== src/Client/Receive.antt =====
-- `read_struct` of src/client/client.cc, which blocks in `recv`.
use group_trade_data_query.Common.{
  ℕ, zero, suc, Bool, List, [], ◌∷◌, ◌++◌, ltb, if◌then◌else◌, length, take, drop,
}
use group_trade_data_query.Common.Word.{of_le}
use group_trade_data_query.Common.Run.{
  Run, ok, err, length_error, runtime_error, ◌>>=◌, ◌>>◌, require,
}

-- What arrives on a connection: the segments that a `recv` finds, one at a time, and then the end of the
-- stream or an error.
pub record Socket : Type 0 where
  pub segments : List (List ℕ)
  pub shut : Bool

abbrev pub rest_segments : List ℕ → List (List ℕ) → List (List ℕ)
rest_segments [] segments = segments
rest_segments (b ∷ bs) segments = (b ∷ bs) ∷ segments

-- recv(socket, p, size): at most `size` bytes of the segment at hand. No byte is the end of the stream.
unfoldable pub recv : ℕ → Socket → Run (List ℕ × Socket)
recv size s = elim s.segments [
  | [] ↦ if s.shut then ok ([], s) else err runtime_error
  | segment ∷ segments ↦
      ok (take size segment, record s { segments = rest_segments (drop size segment) segments })
]

-- The bytes of a variable after a call of `recv` that filled its first bytes.
abbrev pub fill : List ℕ → List ℕ → List ℕ
fill memory chunk = chunk ++ drop (length chunk) memory

abbrev pub zeros : ℕ → List ℕ
zeros zero = []
zeros (suc n) = 0 ∷ zeros n

-- The loop over the elements, each of `size` bytes and zero before it is read.
unfoldable pub read_elements : ℕ → ℕ → Socket → Run (List (List ℕ) × Socket)
read_elements size zero s = ok ([], s)
read_elements size (suc left) s = do
  (chunk, s') ← recv size s
  (rest, s'') ← read_elements size left s'
  ok (fill (zeros size) chunk ∷ rest, s'')

-- `memory` is what `count` holds before it is read. A negative count is refused by the vector.
unfoldable pub read_struct : List ℕ → ℕ → Socket → Run (List (List ℕ) × Socket)
read_struct memory size s = do
  (chunk, s') ← recv 4 s
  let count = of_le (fill memory chunk)
  require (ltb count 0x8000_0000) length_error
  read_elements size count s'
