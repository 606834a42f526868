-- ===== src/Float64.antt =====
-- What the Go code does with a `float64`, as an interface over a type of floating-point values.
-- IEEE 754 arithmetic is no part of the repository: the definitions take the operations, and a
-- theorem that needs a law of order or of rounding takes one of the law records below.
pub mod Nano
use anomaly_detection.Prelude.{ℕ, suc, ◌-◌, ◌^◌, ◌≤◌, ◌≡◌, ◌⊎◌, Bool, true, not}

pub record Float64 (F : Type 0) : Type 0 where
  -- the constant n / d, rounded; `lit n 1` is also the conversion `float64(n)`
  pub lit : ℕ → ℕ → F
  pub add : F → F → F
  pub sub : F → F → F
  pub mul : F → F → F
  pub div : F → F → F
  -- math.Max, math.Abs, math.Sqrt, math.Erfc
  pub max : F → F → F
  pub abs : F → F
  pub sqrt : F → F
  pub erfc : F → F
  -- < and <= and ==, all false on NaN
  pub lt : F → F → Bool
  pub le : F → F → Bool
  pub eq : F → F → Bool
  -- neither math.IsNaN nor math.IsInf
  pub is_finite : F → Bool

infix 4 ◌≼◌
abbrev pub ◌≼◌ : {F : Type 0} ⦃f : Float64 F⦄ → F → F → Type 0
◌≼◌ ⦃f⦄ x y = f.le x y ≡ true

-- IEEE order: NaN is what is not `<=` itself, and the order is total away from it.
pub record IsOrdered (F : Type 0) ⦃f : Float64 F⦄ : Type 0 where
  pub ends : (x y : F) → x ≼ y → (x ≼ x) × (y ≼ y)
  pub trans : (x y z : F) → x ≼ y → y ≼ z → x ≼ z
  pub total : (x y : F) → x ≼ x → y ≼ y → (x ≼ y) ⊎ (y ≼ x)
  pub lt-eq-not-le : (x y : F) → x ≼ x → y ≼ y → f.lt x y ≡ not (f.le y x)

-- the largest count, 2^63 - 1
abbrev pub max_int : ℕ
max_int = 2 ^ 63 - 1

-- Rounding is monotone, on counts that an int can hold and on finite values: quotients of counts are
-- finite, a larger rank and a smaller family give no smaller one, and a product of finite values
-- with a factor that is not negative keeps the order.
pub record IsMonotone (F : Type 0) ⦃f : Float64 F⦄ : Type 0 where
  pub quotient_mono :
      (a b m n : ℕ)
      → a ≤ b
      → suc n ≤ suc m
      → b ≤ max_int
      → suc m ≤ max_int
      → f.div (f.lit a 1) (f.lit (suc m) 1) ≼ f.div (f.lit b 1) (f.lit (suc n) 1)
  pub quotient_finite :
      (a m : ℕ)
      → a ≤ max_int
      → suc m ≤ max_int
      → f.is_finite (f.div (f.lit a 1) (f.lit (suc m) 1)) ≡ true
  pub product_mono :
      (x y z : F)
      → f.is_finite x ≡ true
      → f.is_finite y ≡ true
      → f.is_finite z ≡ true
      → x ≼ y
      → f.lit 0 1 ≼ z
      → f.mul x z ≼ f.mul y z
