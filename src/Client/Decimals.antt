-- ===== src/Client/Decimals.antt =====
-- The decimals in an answer, as src/client_main.cc reads them, and its loop over the sets.
use group_trade_data_query.Common.{
  ℕ, ◌+◌, ◌-◌, ◌*◌, ◌/◌, ◌<◌, ◌≡◌, refl, sym, ap, ◌∙◌, List, [], ◌∷◌, ◌++◌, append_assoc, arith,
  length, drop, length-append, drop-append,
}
use group_trade_data_query.Common.Int.{signed8}
use group_trade_data_query.Common.Word.{of_le, le_bytes, length-le_bytes, of_le-le_bytes}
use mathlib.Core.Path.{ap₂}
use group_trade_data_query.Common.Run.{ok}
use group_trade_data_query.Server.Worker.{metric_list}
use group_trade_data_query.Client.Display.{
  Line, set_number, set_end, set_size, decimal_at, show_sets, display,
}

-- A five-byte decimal, as it is sent.
abbrev pub decimal_bytes : ℕ → ℕ → List ℕ
decimal_bytes m exp = le_bytes 4 m ++ (exp ∷ [])

decimal_at_front :
    (post : List ℕ) (m exp : ℕ)
    → m < 0x1_0000_0000
    → decimal_at (decimal_bytes m exp ++ post) 0 ≡ ok (m, signed8 exp)
unfolding decimal_at le_bytes of_le
decimal_at_front post m exp h =
    ap₂ (λ x y. ok (x, signed8 y)) {u = exp + 256 * 0} {v = exp} (of_le-le_bytes 4 m h)
      (omega arith)

decimal_at-drop :
    (output : List ℕ) (position : ℕ)
    → decimal_at output position ≡ decimal_at (drop position output) 0
unfolding decimal_at
decimal_at-drop output position = refl

-- A decimal is read at its place, whatever stands before and after it.
pub decimal_at_bytes :
    (output pre post : List ℕ) (position m exp : ℕ)
    → output ≡ pre ++ (decimal_bytes m exp ++ post)
    → length pre ≡ position
    → m < 0x1_0000_0000
    → decimal_at output position ≡ ok (m, signed8 exp)
decimal_at_bytes output pre post position m exp e at h =
    decimal_at-drop output position
    ∙ ap (λ bytes. decimal_at bytes 0)
        (ap (drop position) e ∙ drop-append position pre (decimal_bytes m exp ++ post) at)
    ∙ decimal_at_front post m exp h

-- The sets, numbered from `set + 1`.
abbrev pub numbered : ℕ → List (List Line) → List Line
numbered set [] = []
numbered set (lines ∷ rest) = set_number (set + 1) ∷ (lines ++ (set_end ∷ numbered (set + 1) rest))

-- The list cut after its first part.
pub regroup₂ : (a b c : List ℕ) → a ++ (b ++ c) ≡ (a ++ b) ++ c
regroup₂ a b c = sym (append_assoc a b c)

pub length-decimal :
    (pre : List ℕ) (m exp position : ℕ)
    → length pre ≡ position
    → length (pre ++ decimal_bytes m exp) ≡ position + 5
length-decimal pre m exp position h = omega (
  arith,
  length-append pre (decimal_bytes m exp),
  length-append (le_bytes 4 m) (exp ∷ []),
  length-le_bytes 4 m,
)

display_nonempty :
    (metrics : ℕ) (output : List ℕ)
    → 0 < length output
    → display metrics output
      ≡ show_sets output (metric_list metrics) ((length output + set_size - 1) / set_size) 0
unfolding display
display_nonempty metrics [] h = elim h [ ]
display_nonempty metrics (b ∷ bs) h = refl

pub display_of_sets :
    (metrics chooser n : ℕ) (output : List ℕ)
    → metric_list metrics ≡ chooser
    → 0 < n
    → length output ≡ n * 20
    → display metrics output ≡ show_sets output chooser n 0
display_of_sets metrics chooser n output e pos size =
    display_nonempty metrics output (omega arith)
    ∙ ap₂ (λ c k. show_sets output c k 0) {u = (length output + set_size - 1) / set_size} {v = n} e
        (omega arith)
