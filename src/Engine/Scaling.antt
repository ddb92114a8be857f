-- ===== src/Engine/Scaling.antt =====
-- The loops of src/query_engine/query_engine.cc that turn a double into a mantissa and an exponent.
use group_trade_data_query.Common.{
  ℕ, sym, subst, zero, suc, ◌+◌, ◌%◌, ◌≤◌, ◌<◌, ◌≡◌, true, false, ◌⊎◌, arith,
}
use group_trade_data_query.Common.Run.{Returns, Returns→ok}
use group_trade_data_query.Engine.Double.{Double, IsScalable}
use group_trade_data_query.Engine.Decimal.{ScaledTo, normalise_of_loops, normalise-ScaledTo}
use group_trade_data_query.Engine.Metrics.{Scaled, scale_up, scale_down, normalise}

-- 0, or one of -18 to -1, as a bit pattern.
abbrev IsUpExponent : ℕ → Type 0
IsUpExponent exp = (exp ≡ 0) ⊎ ((238 ≤ exp) × (exp < 256))

module _ {D : Type 0} (d : Double D) {steps : ℕ} (laws : IsScalable d steps) where
  open laws use {is_amount, measure}

  abbrev UpResult : Scaled D → Type 0
  UpResult s = IsUpExponent s.exp × (is_amount s.val ≡ true)

  scale_up-Returns :
      (k : ℕ) (val : D) (exp : ℕ)
      → k ≤ 18
      → exp ≡ (238 + k) % 256
      → is_amount val ≡ true
      → Returns (scale_up d (suc k) val exp) UpResult
  unfolding scale_up
  scale_up-Returns zero val exp h e a = ground arith
  scale_up-Returns (suc k) val exp h e a = ground (
    arith,
    laws.mul_amount val a,
    scale_up-Returns k (d.mul val (d.of_u64 10)) ((exp + 255) % 256),
  )

  abbrev DownResult : Scaled D → Type 0
  DownResult s =
      (is_amount s.val ≡ true) × (d.lt (d.of_u64 0xffff_ffff) s.val ≡ false) × (s.exp < 256)

  scale_down-Returns :
      (k : ℕ) (val : D) (exp : ℕ)
      → measure val < k
      → exp < 256
      → is_amount val ≡ true
      → Returns (scale_down d k val exp) DownResult
  unfolding scale_down
  scale_down-Returns zero val exp h e a = absurd (omega arith)
  scale_down-Returns (suc k) val exp h e a = ground (
    arith,
    laws.div_amount val a,
    laws.measure-div val a,
    scale_down-Returns k (d.div val (d.of_u64 10)) ((exp + 1) % 256),
  )

  -- If the doubles can be scaled, then for every amount both loops end, the first within 19 rounds
  -- and the second within the number of steps of the doubles; the mantissa and the exponent fit
  -- their types; and they are those of the amount: it is multiplied by ten as long as it is above 0
  -- and below 10 ^ 9, at most 18 times, and then divided by ten as long as it is above 2 ^ 32 - 1, the
  -- mantissa is what that leaves, rounded, and the exponent is the number of the divisions less that
  -- of the multiplications.
  pub normalise-Returns :
      (val : D)
      → is_amount val ≡ true
      → Returns
          (normalise d steps val)
          (λ r. (r.0 < 0x1_0000_0000) × (r.1 < 256) × ScaledTo d val r.0 r.1)
  normalise-Returns val a =
      let (up, run, (exp, b)) =
        Returns→ok (scale_up d 19 val 0) UpResult
          (scale_up-Returns 18 val 0 (omega arith) (omega arith) a) in
      let (down, run', (c, e, f)) =
        Returns→ok (scale_down d steps up.val up.exp) DownResult
          (scale_down-Returns steps up.val up.exp (laws.measure_lt up.val b) (omega arith) b) in
      let same = normalise_of_loops d steps val up down run run' in
      subst (λ m. Returns m (λ r. (r.0 < 0x1_0000_0000) × (r.1 < 256) × ScaledTo d val r.0 r.1))
        (sym same) (laws.round_lt down.val c e, f, normalise-ScaledTo d steps val _ same)
