-- ===== src/Engine/Double.antt =====
-- What src/query_engine/query_engine.cc does with a `double`. The type and its operations are a parameter; a
-- theorem names the laws that it needs. `x > y` is `lt y x`.
use group_trade_data_query.Common.{ℕ, ◌<◌, ◌≡◌, Bool, true, false}
use group_trade_data_query.Common.Int.{ℤ}

pub record Double {ℓ} (D : Type ℓ) : Type ℓ where
  pub nought : D
  pub of_u32 : ℕ → D
  pub of_u64 : ℕ → D
  -- std::pow(10.0, exponent)
  pub pow10 : ℤ → D
  pub mul : D → D → D
  pub add : D → D → D
  pub div : D → D → D
  pub lt : D → D → Bool
  -- static_cast<uint32_t>(std::round(x))
  pub round_u32 : D → ℕ

-- What IEEE 754 says of `<`: it is a strict order in which only NaN is unordered. A decimal with a
-- 32-bit mantissa and an 8-bit exponent is far from infinity, and so no NaN.
pub record IsOrdered {ℓ} {D : Type ℓ} (d : Double D) : Type ℓ where
  pub is_nan : D → Bool
  pub decimal_num : (m : ℕ) (e : ℤ) → is_nan (d.mul (d.of_u32 m) (d.pow10 e)) ≡ false
  pub lt_asym : (x y : D) → is_nan x ≡ false → is_nan y ≡ false → d.lt x y ≡ true → d.lt y x ≡ false
  pub not-lt_trans :
      (x y z : D)
      → is_nan x ≡ false
      → is_nan y ≡ false
      → is_nan z ≡ false
      → d.lt x y ≡ false
      → d.lt y z ≡ false
      → d.lt x z ≡ false

-- What the scaling loops need of amounts, the doubles that are finite and not negative. Dividing by ten
-- lowers `measure` while the amount is above 2 ^ 32 - 1, so `steps` divisions bring any amount below it.
pub record IsScalable {ℓ} {D : Type ℓ} (d : Double D) (steps : ℕ) : Type ℓ where
  pub is_amount : D → Bool
  pub measure : D → ℕ
  pub nought_amount : is_amount d.nought ≡ true
  pub mul_amount :
      (x : D)
      → is_amount x ≡ true
      → d.lt x (d.of_u64 1_000_000_000) ≡ true
      → is_amount (d.mul x (d.of_u64 10)) ≡ true
  pub div_amount : (x : D) → is_amount x ≡ true → is_amount (d.div x (d.of_u64 10)) ≡ true
  pub measure_lt : (x : D) → is_amount x ≡ true → measure x < steps
  pub measure-div :
      (x : D)
      → is_amount x ≡ true
      → d.lt (d.of_u64 0xffff_ffff) x ≡ true
      → measure (d.div x (d.of_u64 10)) < measure x
  pub round_lt :
      (x : D)
      → is_amount x ≡ true
      → d.lt (d.of_u64 0xffff_ffff) x ≡ false
      → d.round_u32 x < 0x1_0000_0000
