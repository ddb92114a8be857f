-- ===== src/Engine/Decimal.antt =====
-- What the scaling loops of src/query_engine/query_engine.cc make of a double, said without the loops.
use group_trade_data_query.Common.{
  ℕ, zero, suc, ◌+◌, ◌%◌, ◌≤◌, ◌<◌, ◌≡◌, refl, sym, ap, ◌∙◌, Bool, true, false, ◌&&◌, ◌⊎◌, inl, inr,
  arith, if◌then◌else◌, Bool-cases,
}
use group_trade_data_query.Common.Int.{negsuc, ltb_ℤ, signed8}
use group_trade_data_query.Common.Run.{ok, >>=-ok, ok-injective}
use group_trade_data_query.Engine.Double.{Double}
use group_trade_data_query.Engine.Metrics.{Scaled, scale_up, scale_down, normalise}

-- exp > -18
abbrev has_room : ℕ → Bool
has_room exp = ltb_ℤ (negsuc 17) (signed8 exp)

no_room : (exp : ℕ) → exp < 256 → has_room exp ≡ false → (128 ≤ exp) × (exp ≤ 238)
no_room exp h e = ground arith

module _ {D : Type 0} (d : Double D) where
  open d use {nought, of_u64, mul, div, lt, round_u32}

  -- A value times ten, again and again, and divided by ten, again and again.
  abbrev pub times_ten : ℕ → D → D
  times_ten zero val = val
  times_ten (suc j) val = times_ten j (mul val (of_u64 10))

  abbrev pub tenth : ℕ → D → D
  tenth zero val = val
  tenth (suc k) val = tenth k (div val (of_u64 10))

  -- Above 0 and below 10 ^ 9.
  abbrev pub is_small : D → Bool
  is_small val = lt nought val && lt val (of_u64 1_000_000_000)

  -- Above the largest mantissa.
  abbrev pub is_large : D → Bool
  is_large val = lt (of_u64 0xffff_ffff) val

  -- A mantissa and an exponent, an `int8_t` as its bit pattern, for a value: the value is multiplied by ten as
  -- long as it is small, at most 18 times, and then divided by ten as long as it is large. The exponent
  -- is the number of the divisions less the number of the multiplications.
  pub record ScaledTo (val : D) (mantissa exp : ℕ) : Type 0 where
    pub ups : ℕ
    pub downs : ℕ
    pub ups_le : ups ≤ 18
    pub was_small : (i : ℕ) → i < ups → is_small (times_ten i val) ≡ true
    pub not_small : (ups ≡ 18) ⊎ (is_small (times_ten ups val) ≡ false)
    pub was_large : (i : ℕ) → i < downs → is_large (tenth i (times_ten ups val)) ≡ true
    pub not_large : is_large (tenth downs (times_ten ups val)) ≡ false
    pub rounded : mantissa ≡ round_u32 (tenth downs (times_ten ups val))
    pub exponent : (exp + ups) % 256 ≡ downs % 256
    pub exp_lt : exp < 256

  -- The outcome of the first loop, and of the second.
  record Raised (fuel : ℕ) (val : D) (exp : ℕ) (s : Scaled D) : Type 0 where
    pub ups : ℕ
    pub ups_lt : ups < fuel
    pub same : s.val ≡ times_ten ups val
    pub was_small : (i : ℕ) → i < ups → is_small (times_ten i val) ≡ true
    pub stopped : (has_room s.exp ≡ false) ⊎ (is_small s.val ≡ false)
    pub exponent : (s.exp + ups) % 256 ≡ exp
    pub exp_lt : s.exp < 256

  record Lowered (val : D) (exp : ℕ) (s : Scaled D) : Type 0 where
    pub downs : ℕ
    pub same : s.val ≡ tenth downs val
    pub was_large : (i : ℕ) → i < downs → is_large (tenth i val) ≡ true
    pub stopped : is_large s.val ≡ false
    pub exponent : s.exp ≡ (exp + downs) % 256

  up_here :
      (fuel : ℕ) (val : D) (exp : ℕ)
      → exp < 256
      → (has_room exp ≡ false) ⊎ (is_small val ≡ false)
      → Raised (suc fuel) val exp (record { val = val; exp = exp })
  up_here fuel val exp h stops = record {
    ups = 0;
    ups_lt = omega arith;
    same = refl;
    was_small = λ i l. absurd (omega arith);
    stopped = stops;
    exponent = omega arith;
    exp_lt = h;
  }

  up_more :
      (fuel : ℕ) (val : D) (exp : ℕ) (s : Scaled D)
      → exp < 256
      → is_small val ≡ true
      → Raised fuel (mul val (of_u64 10)) ((exp + 255) % 256) s
      → Raised (suc fuel) val exp s
  up_more fuel val exp s h small up = record {
    ups = suc up.ups;
    ups_lt = omega (arith, up.ups_lt);
    same = up.same;
    was_small = λ i l. earlier i l;
    stopped = up.stopped;
    exponent = omega (arith, up.exponent, up.exp_lt);
    exp_lt = up.exp_lt;
  }
    where
      earlier : (i : ℕ) → i < suc up.ups → is_small (times_ten i val) ≡ true
      earlier zero l = small
      earlier (suc i) l = up.was_small i (omega arith)

  scale_up_big :
      (fuel : ℕ) (val : D) (exp : ℕ)
      → is_small val ≡ false
      → scale_up d (suc fuel) val exp ≡ ok (record { val = val; exp = exp })
  unfolding scale_up
  scale_up_big fuel val exp big = rw (scale_up, big) refl

  scale_up_small :
      (fuel : ℕ) (val : D) (exp : ℕ)
      → is_small val ≡ true
      → scale_up d (suc fuel) val exp ≡ (
          if has_room exp
          then scale_up d fuel (mul val (of_u64 10)) ((exp + 255) % 256)
          else ok (record { val = val; exp = exp }))
  unfolding scale_up
  scale_up_small fuel val exp small = elim (Bool-cases (has_room exp)) [
    | inl room ↦ rw (scale_up, small, room) refl
    | inr full ↦ rw (scale_up, small, full) refl
  ]

  scale_down_step :
      (fuel : ℕ) (val : D) (exp : ℕ)
      → scale_down d (suc fuel) val exp ≡ (
          if is_large val
          then scale_down d fuel (div val (of_u64 10)) ((exp + 1) % 256)
          else ok (record { val = val; exp = exp }))
  unfolding scale_down
  scale_down_step fuel val exp = elim (Bool-cases (is_large val)) [
    | inl large ↦ rw (scale_down, large) refl
    | inr fine ↦ rw (scale_down, fine) refl
  ]

  scale_up-Raised :
      (fuel : ℕ) (val : D) (exp : ℕ) (s : Scaled D)
      → exp < 256
      → scale_up d fuel val exp ≡ ok s
      → Raised fuel val exp s
  unfolding scale_up
  scale_up-Raised zero val exp s h run = absurd cc
  scale_up-Raised (suc fuel) val exp s h run = elim (Bool-cases (is_small val)) [
    | inr big ↦
        let same : record { val = val; exp = exp } ≡ s =
          ok-injective (sym (scale_up_big fuel val exp big) ∙ run) in
        rw (sym same) (up_here fuel val exp h (inr big))
    | inl small ↦ elim (Bool-cases (has_room exp)) [
      | inr full ↦
          let same : record { val = val; exp = exp } ≡ s =
            ok-injective (rw full at (sym (scale_up_small fuel val exp small) ∙ run)) in
          rw (sym same) (up_here fuel val exp h (inl full))
      | inl room ↦ up_more fuel val exp s h small (
          scale_up-Raised fuel (mul val (of_u64 10)) ((exp + 255) % 256) s (omega arith)
            (rw room at (sym (scale_up_small fuel val exp small) ∙ run)))
    ]
  ]

  down_more :
      (val : D) (exp : ℕ) (s : Scaled D)
      → is_large val ≡ true
      → Lowered (div val (of_u64 10)) ((exp + 1) % 256) s
      → Lowered val exp s
  down_more val exp s large down = record {
    downs = suc down.downs;
    same = down.same;
    was_large = λ i l. earlier i l;
    stopped = down.stopped;
    exponent = omega (arith, down.exponent);
  }
    where
      earlier : (i : ℕ) → i < suc down.downs → is_large (tenth i val) ≡ true
      earlier zero l = large
      earlier (suc i) l = down.was_large i (omega arith)

  scale_down-Lowered :
      (fuel : ℕ) (val : D) (exp : ℕ) (s : Scaled D)
      → exp < 256
      → scale_down d fuel val exp ≡ ok s
      → Lowered val exp s
  unfolding scale_down
  scale_down-Lowered zero val exp s h run = absurd cc
  scale_down-Lowered (suc fuel) val exp s h run = elim (Bool-cases (is_large val)) [
    | inr fine ↦
        let same : record { val = val; exp = exp } ≡ s =
          ok-injective (rw fine at (sym (scale_down_step fuel val exp) ∙ run)) in
        rw (sym same) (record {
          downs = 0;
          same = refl;
          was_large = λ i l. absurd (omega arith);
          stopped = fine;
          exponent = omega arith;
        })
    | inl large ↦ down_more val exp s large (
        scale_down-Lowered fuel (div val (of_u64 10)) ((exp + 1) % 256) s (omega arith)
          (rw large at (sym (scale_down_step fuel val exp) ∙ run)))
  ]

  ups_enough :
      (val : D) (s : Scaled D) (up : Raised 19 val 0 s)
      → (up.ups ≡ 18) ⊎ (is_small (times_ten up.ups val) ≡ false)
  ups_enough val s up = elim up.stopped [
    | inl full ↦
        inl (omega (arith, up.exponent, up.exp_lt, up.ups_lt, no_room s.exp up.exp_lt full))
    | inr big ↦ inr (sym (ap is_small up.same) ∙ big)
  ]

  scaled_of_loops :
      (val : D) (s t : Scaled D)
      → Raised 19 val 0 s
      → Lowered s.val s.exp t
      → ScaledTo val (round_u32 t.val) t.exp
  scaled_of_loops val s t up down =
      let same : (k : ℕ) → tenth k s.val ≡ tenth k (times_ten up.ups val) =
        λ k. ap (tenth k) up.same in
      record {
        ups = up.ups;
        downs = down.downs;
        ups_le = omega (arith, up.ups_lt);
        was_small = up.was_small;
        not_small = ups_enough val s up;
        was_large = λ i l. sym (ap is_large (same i)) ∙ down.was_large i l;
        not_large = sym (ap is_large (down.same ∙ same down.downs)) ∙ down.stopped;
        rounded = ap round_u32 (down.same ∙ same down.downs);
        exponent = omega (arith, up.exponent, down.exponent);
        exp_lt = omega (arith, down.exponent);
      }

  pub normalise_of_loops :
      (fuel : ℕ) (val : D) (up down : Scaled D)
      → scale_up d 19 val 0 ≡ ok up
      → scale_down d fuel up.val up.exp ≡ ok down
      → normalise d fuel val ≡ ok (round_u32 down.val, down.exp)
  unfolding normalise
  normalise_of_loops fuel val up down run run' = rw (run, run') refl

  -- What is returned is a decimal for the value.
  pub normalise-ScaledTo :
      (fuel : ℕ) (val : D) (r : ℕ × ℕ) → normalise d fuel val ≡ ok r → ScaledTo val r.0 r.1
  unfolding normalise
  normalise-ScaledTo fuel val r run =
      let (up, ran_up, run') = >>=-ok (scale_up d 19 val 0) _ r run in
      let (down, ran_down, run'') = >>=-ok (scale_down d fuel up.val up.exp) _ r run' in
      let rises = scale_up-Raised 19 val 0 up (omega arith) ran_up in
      let same : (round_u32 down.val, down.exp) ≡ r = ok-injective run'' in
      rw (sym same) (
        scaled_of_loops val up down rises
          (scale_down-Lowered fuel up.val up.exp down rises.exp_lt ran_down))
