-- ===== src/Csv/Output.antt =====
-- `main` of process_data/process_data_main.cc: where the data file goes, and the status.
use group_trade_data_query.Common.{
  ℕ, ◌≡◌, refl, sym, Bool, true, false, ◌||◌, Option, none, some, List, [], ◌∷◌, ◌++◌, append_assoc,
  ◌==◌, if◌then◌else◌, arith,
}
use group_trade_data_query.Common.Run.{Run, ok, ◌>>=◌}
use group_trade_data_query.Csv.{parse_csv}
use group_trade_data_query.Csv.Fields.{Without, Without-append}

unfoldable pub has : ℕ → List ℕ → Bool
has c [] = false
has c (x ∷ xs) = (x == c) || has c xs

-- text.substr(0, text.find_last_of(c)): all of it if the character is not there.
unfoldable pub before_last : ℕ → List ℕ → List ℕ
unfolding has
before_last c [] = []
before_last c (x ∷ xs) =
    let rest = before_last c xs in if has c xs then x ∷ rest else if x == c then [] else x ∷ rest

-- text.substr(text.find_last_of(c) + 1): all of it if the character is not there.
unfoldable pub after_last : ℕ → List ℕ → List ℕ
unfolding has
after_last c [] = []
after_last c (x ∷ xs) =
    let rest = after_last c xs in if has c xs then rest else if x == c then xs else x ∷ xs

-- "/processed/" and ".bin".
abbrev pub processed : List ℕ
processed = 47 ∷ 112 ∷ 114 ∷ 111 ∷ 99 ∷ 101 ∷ 115 ∷ 115 ∷ 101 ∷ 100 ∷ 47 ∷ []

abbrev pub bin_suffix : List ℕ
bin_suffix = 46 ∷ 98 ∷ 105 ∷ 110 ∷ []

-- 47 is the slash, 46 the dot.
unfoldable pub out_path : List ℕ → List ℕ
unfolding before_last after_last
out_path filename =
    let dir = before_last 47 filename in
    let base_name = after_last 47 filename in
    let parent_dir = before_last 47 dir in
    parent_dir ++ (processed ++ (before_last 46 base_name ++ bin_suffix))

-- The path that was opened for the output, what was written to it, and the status.
pub record Conversion : Type 0 where
  pub path : Option (List ℕ)
  pub written : List ℕ
  pub status : Run ℕ

-- `argument` is `none` if there is none, `opens` whether the output can be opened, and `text` what the file
-- holds.
unfoldable pub convert : ℕ → Option (List ℕ) → Bool → Option (List ℕ) → Conversion
unfolding out_path parse_csv
convert pad none opens text = record { path = none; written = []; status = ok 1 }
convert pad (some filename) false text = record {
  path = some (out_path filename);
  written = [];
  status = ok 1;
}
convert pad (some filename) true text =
    let (bytes, end) = parse_csv pad text in
    record { path = some (out_path filename); written = bytes; status = end >>= λ _. ok 0 }

has-Without : (c : ℕ) (xs : List ℕ) → Without c xs → has c xs ≡ false
unfolding has
has-Without c [] h = refl
has-Without c (x ∷ xs) h = rw (h.0, has-Without c xs h.1) refl

has_at : (c : ℕ) (xs ys : List ℕ) → has c (xs ++ (c ∷ ys)) ≡ true
unfolding has
has_at c [] ys = ground arith
has_at c (x ∷ xs) ys = ground (arith, has_at c xs ys)

before_last-append : (c : ℕ) (xs ys : List ℕ) → Without c ys → before_last c (xs ++ (c ∷ ys)) ≡ xs
unfolding before_last
before_last-append c [] ys h = ground (arith, has-Without c ys h)
before_last-append c (x ∷ xs) ys h = rw (has_at c xs ys, before_last-append c xs ys h) refl

after_last-append : (c : ℕ) (xs ys : List ℕ) → Without c ys → after_last c (xs ++ (c ∷ ys)) ≡ ys
unfolding after_last
after_last-append c [] ys h = ground (arith, has-Without c ys h)
after_last-append c (x ∷ xs) ys h = rw (has_at c xs ys, after_last-append c xs ys h) refl

-- The file `parent/dir/name.ext` is converted to `parent/processed/name.bin`, if no part after `parent` has a
-- slash and `ext` no dot.
pub out_path_lem :
    (parent dir name ext : List ℕ)
    → Without 47 dir
    → Without 47 name
    → Without 47 ext
    → Without 46 ext
    → out_path (parent ++ (47 ∷ (dir ++ (47 ∷ (name ++ (46 ∷ ext))))))
      ≡ parent ++ (processed ++ (name ++ bin_suffix))
unfolding out_path
out_path_lem parent dir name ext d n e f =
    let file = name ++ (46 ∷ ext) in
    let whole : parent ++ (47 ∷ (dir ++ (47 ∷ file))) ≡ (parent ++ (47 ∷ dir)) ++ (47 ∷ file) =
      sym (append_assoc parent (47 ∷ dir) (47 ∷ file)) in
    let plain = Without-append 47 name (46 ∷ ext) n (refl, e) in
    rw
      (
        whole,
        before_last-append 47 (parent ++ (47 ∷ dir)) file plain,
        after_last-append 47 (parent ++ (47 ∷ dir)) file plain,
        before_last-append 47 parent dir d,
        before_last-append 46 name ext f,
      )
      refl
