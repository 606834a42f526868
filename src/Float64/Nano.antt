-- ===== src/Float64/Nano.antt =====
-- A concrete `Float64`: signed multiples of 10^-9. It shows that the law records can be met, and
-- runs the tests. Every value is finite and the order is total.
use mathlib.Core.Bool.{cond}
use anomaly_detection.Prelude.{
  ℕ, zero, suc, ◌+◌, ◌*◌, ◌/◌, ◌^◌, ◌≤◌, ◌<◌, ◌≡◌, refl, le→leb, leb→le, true, leb, arith,
  if◌then◌else◌,
}
use anomaly_detection.Prelude.Int.{ℤ, pos, negsuc, add_ℤ, sub_ℤ, neg_ℤ, scale, abs_ℤ, ltb_ℤ, leb_ℤ}
use mathlib.Core.Path.{subst, sym}
use native.Mathlib.Nat.{le-div_iff_mul-le, mul-le-mul_left, mul-le-mul_right, div-mul-le_self}
use anomaly_detection.Float64.{Float64, IsOrdered, IsMonotone}

abbrev unit : ℕ
unit = 1_000_000_000

abbrev pub Nano : Type 0
Nano = ℤ

-- the largest root found by `fuel` halvings of the range from `lo`
bisect : ℕ → ℕ → ℕ → ℕ → ℕ
bisect zero n lo width = lo
bisect (suc fuel) n lo width =
    let mid = lo + width in bisect fuel n (if leb (mid * mid) n then mid else lo) (width / 2)

unfoldable pub isqrt : ℕ → ℕ
unfolding bisect
isqrt n = bisect 120 n 0 (2 ^ 100)

abbrev times : ℤ → ℤ → ℕ → ℤ
times a (pos n) d = scale a n d
times a (negsuc n) d = neg_ℤ (scale a (suc n) d)

abbrev quotient : ℤ → ℤ → ℤ
quotient a (pos zero) = pos 0
quotient a (pos (suc n)) = scale a unit (suc n)
quotient a (negsuc n) = neg_ℤ (scale a unit (suc n))

instance abbrev pub nano : Float64 Nano
nano = record {
  lit = λ n d. pos (n * unit / d);
  add = add_ℤ;
  sub = sub_ℤ;
  mul = λ a b. times a b unit;
  div = quotient;
  max = λ a b. cond (leb_ℤ a b) b a;
  abs = λ a. pos (abs_ℤ a);
  sqrt = λ a. pos (isqrt (abs_ℤ a * unit));
  erfc = λ a. pos (unit * unit / (unit + 1000 * abs_ℤ a));
  lt = ltb_ℤ;
  le = leb_ℤ;
  eq = λ a b. cond (leb_ℤ a b) (leb_ℤ b a) (leb_ℤ a b);
  is_finite = λ a. true;
}

pub Nano-IsOrdered : IsOrdered Nano
Nano-IsOrdered = record {
  ends = λ x y h. (ground arith, ground arith);
  trans = λ x y z h k. ground arith;
  total = λ x y h k. ground arith;
  lt-eq-not-le = λ x y h k. ground arith;
}

quotient_le : (x y p q : ℕ) → x ≤ y → q ≤ p → 0 < q → x / p ≤ y / q
quotient_le x y p q h k pos_q =
    (le-div_iff_mul-le pos_q).1 (omega (arith, mul-le-mul_left (x / p) k, div-mul-le_self x p))

div_unit : (x d : ℕ) → 0 < d → quotient (pos x) (pos d) ≡ pos (x * unit / d)
div_unit x zero h = absurd (omega arith)
div_unit x (suc d) h = refl

lower : (a b : ℕ) → leb_ℤ (pos a) (pos b) ≡ true → a ≤ b
lower a b h = ground arith

upper : (a b : ℕ) → leb_ℤ (negsuc a) (negsuc b) ≡ true → suc b ≤ suc a
upper a b h = ground arith

scale_mono : (x y : ℤ) (n : ℕ) → leb_ℤ x y ≡ true → leb_ℤ (scale x n unit) (scale y n unit) ≡ true
scale_mono (pos a) (pos b) n h = le→leb _ _ (
    omega (
      arith,
      quotient_le (a * n) (b * n) unit unit (mul-le-mul_right n (lower a b h)) (omega arith)
          (omega arith),
    ))
scale_mono (pos a) (negsuc b) n h = absurd (omega (arith, leb→le (a + suc b) 0 h))
scale_mono (negsuc a) (pos b) n h = ground arith
scale_mono (negsuc a) (negsuc b) n h = ground (
  arith,
  quotient_le (suc b * n) (suc a * n) unit unit (mul-le-mul_right n (upper a b h)) (omega arith)
      (omega arith),
)

product_le :
    (x y z : ℤ)
    → leb_ℤ x y ≡ true
    → leb_ℤ (pos 0) z ≡ true
    → leb_ℤ (times x z unit) (times y z unit) ≡ true
product_le x y (pos n) h k = scale_mono x y n h
product_le x y (negsuc n) h k = absurd (omega (arith, leb→le (0 + suc n) 0 k))

pub Nano-IsMonotone : IsMonotone Nano
Nano-IsMonotone = record {
  quotient_mono = λ a b m n h k few fewer.
      subst (λ w. leb_ℤ w (quotient (pos (b * unit / 1)) (pos (suc n * unit / 1))) ≡ true)
        (sym (div_unit (a * unit / 1) (suc m * unit / 1) (omega arith)))
        (subst (λ w. leb_ℤ (pos (a * unit / 1 * unit / (suc m * unit / 1))) w ≡ true)
          (sym (div_unit (b * unit / 1) (suc n * unit / 1) (omega arith)))
          (le→leb _ _ (
            omega (
              arith,
              quotient_le (a * unit / 1 * unit) (b * unit / 1 * unit) (suc m * unit / 1)
                  (suc n * unit / 1) (omega arith) (omega arith) (omega arith),
            ))));
  quotient_finite = λ a m few fewer. refl;
  product_mono = λ x y z fx fy fz h k. product_le x y z h k;
}
