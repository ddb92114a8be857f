-- ===== src/Client/Framing.antt =====
-- What `read_struct` of src/client/client.cc makes of an answer of the server, however it is cut into segments.
use group_trade_data_query.Common.{
  drop_all, ℕ, zero, suc, ◌%◌, ◌<◌, ◌≡◌, refl, ap, ◌∙◌, ◌≢◌, true, List, [], ◌∷◌, ◌++◌, append-nil,
  arith, length, map, All, lt→ltb,
}
use group_trade_data_query.Common.Word.{of_le, le_bytes, of_le-le_bytes}
use group_trade_data_query.Common.Run.{ok}
use group_trade_data_query.Server.{count_header}
use group_trade_data_query.Client.Receive.{
  Socket, recv, fill, read_elements, read_struct, rest_segments,
}

-- All that arrives, in order.
abbrev pub arriving : List (List ℕ) → List ℕ
arriving [] = []
arriving (segment ∷ segments) = segment ++ arriving segments

abbrev pub NoneEmpty : List (List ℕ) → Type 0
NoneEmpty = All (λ segment. segment ≢ [])

-- The first `n` bytes, followed by zeros where there are fewer.
abbrev pub padded : ℕ → List ℕ → List ℕ
padded zero bs = []
padded (suc n) [] = 0 ∷ padded n []
padded (suc n) (b ∷ bs) = b ∷ padded n bs

abbrev pub singles : List ℕ → List (List ℕ)
singles = map (λ b. b ∷ [])

rest_segments-arriving :
    (rest : List ℕ) (segments : List (List ℕ))
    → arriving (rest_segments rest segments) ≡ rest ++ arriving segments
rest_segments-arriving [] segments = refl
rest_segments-arriving (b ∷ bs) segments = refl

rest_segments-NoneEmpty :
    (rest : List ℕ) (segments : List (List ℕ))
    → NoneEmpty segments
    → NoneEmpty (rest_segments rest segments)
rest_segments-NoneEmpty [] segments h = h
rest_segments-NoneEmpty (b ∷ bs) segments h = ((λ e. cc), h)

-- On a connection that ends without an error the bytes are read one by one, whatever the segments, and the
-- bytes that do not arrive are zeros.
read_elements-padded :
    (n : ℕ) (segments : List (List ℕ))
    → NoneEmpty segments
    → (s : Socket) × (read_elements 1 n (record { segments = segments; shut = true })
        ≡ ok (singles (padded n (arriving segments)), s))
unfolding read_elements recv
read_elements-padded zero segments h = (record { segments = segments; shut = true }, refl)
read_elements-padded (suc n) [] h = let (s, run) = read_elements-padded n [] tt in (s, rw run)
read_elements-padded (suc n) ([] ∷ segments) h = absurd (h.0 refl)
read_elements-padded (suc n) ((b ∷ bs) ∷ segments) h =
    let (s, run) =
      read_elements-padded n (rest_segments bs segments)
        (rest_segments-NoneEmpty bs segments h.1) in
    (
      s,
      rw run (
          ap (λ bytes. ok ((b ∷ []) ∷ singles (padded n bytes), s))
            (rest_segments-arriving bs segments)),
    )

-- The count in front of an answer below 2 ^ 31 bytes is read back.
of_le-count_header :
    (res : List ℕ) → length res < 0x8000_0000 → of_le (count_header res) ≡ length res
unfolding count_header
of_le-count_header res h = of_le-le_bytes 4 (length res % 0x1_0000_0000) (omega arith) ∙ small
  where
    small : length res % 0x1_0000_0000 ≡ length res
    small = omega arith

padded-append : (bs extra : List ℕ) → padded (length bs) (bs ++ extra) ≡ bs
padded-append [] extra = refl
padded-append (b ∷ bs) extra = ap (◌∷◌ b) (padded-append bs extra)

recv_header :
    (res tail : List ℕ) (segments : List (List ℕ))
    → recv 4 (record { segments = (count_header res ++ tail) ∷ segments; shut = true })
      ≡ ok (count_header res, record { segments = rest_segments tail segments; shut = true })
unfolding recv count_header le_bytes
recv_header res tail segments = refl

length-count_header : (res : List ℕ) → length (count_header res) ≡ 4
unfolding count_header le_bytes
length-count_header res = refl

fill_whole : (memory chunk : List ℕ) → length memory ≡ length chunk → fill memory chunk ≡ chunk
fill_whole memory chunk e =
    ap (◌++◌ chunk) (drop_all (length chunk) memory (omega (arith, e))) ∙ append-nil chunk

read_struct_of_parts :
    (memory chunk : List ℕ) (s s' : Socket) (c : ℕ) (out : List (List ℕ) × Socket)
    → recv 4 s ≡ ok (chunk, s')
    → of_le (fill memory chunk) ≡ c
    → c < 0x8000_0000
    → read_elements 1 c s' ≡ ok out
    → read_struct memory 1 s ≡ ok out
unfolding read_struct
read_struct_of_parts memory chunk s s' c out first value small rest =
    rw (first, value, lt→ltb c 0x8000_0000 small, rest)

-- If the first segment that arrives begins with the count of a result below 2 ^ 31 bytes, no
-- segment is empty and no receive fails, then the client reads as many bytes as the result has;
-- those that do not arrive are zeros, and no error is reported.
pub read_struct-padded :
    (memory res tail : List ℕ) (segments : List (List ℕ))
    → length memory ≡ 4
    → length res < 0x8000_0000
    → NoneEmpty segments
    → (s : Socket) × (read_struct memory 1
          (record { segments = (count_header res ++ tail) ∷ segments; shut = true })
        ≡ ok (singles (padded (length res) (tail ++ arriving segments)), s))
unfolding read_struct
read_struct-padded memory res tail segments four small h =
    let (s, run) =
      read_elements-padded (length res) (rest_segments tail segments)
        (rest_segments-NoneEmpty tail segments h) in
    (
      s,
      read_struct_of_parts memory (count_header res) _ _ (length res) _
          (recv_header res tail segments)
          (ap of_le (fill_whole memory (count_header res) (omega (arith, length-count_header res)))
            ∙ of_le-count_header res small)
          small
          (run
            ∙ ap (λ bytes. ok (singles (padded (length res) bytes), s))
                (rest_segments-arriving tail segments)),
    )

-- If the first segment that arrives begins with the count of a result below 2 ^ 31 bytes, no
-- segment is empty, the bytes after the count begin with the result, and no receive fails, then
-- the client reads the bytes of the result.
pub read_struct-answer :
    (memory res tail extra : List ℕ) (segments : List (List ℕ))
    → length memory ≡ 4
    → length res < 0x8000_0000
    → NoneEmpty segments
    → tail ++ arriving segments ≡ res ++ extra
    → (s : Socket) × (read_struct memory 1
          (record { segments = (count_header res ++ tail) ∷ segments; shut = true })
        ≡ ok (singles res, s))
read_struct-answer memory res tail extra segments four small h e =
    let (s, run) = read_struct-padded memory res tail segments four small h in
    (
      s,
      run
          ∙ ap (λ bytes. ok (singles bytes, s))
              (ap (padded (length res)) e ∙ padded-append res extra),
    )
