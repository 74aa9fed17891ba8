-- ===== src/Base/Fraction.antt =====
-- Fractions of natural numbers, compared by cross multiplication: the exact values of floats that are
-- not negative.
use Prim.Native.Nat.{ℕ, ◌+◌, ◌-◌, ◌*◌, ◌≤◌, ◌<◌}
use mathlib.Core.Path.{◌≡◌}
use mathlib.Core.Bool.{Bool, true, false}
use native.Mathlib.Omega.{arith}
use native.Mathlib.Nat.{mul_right_comm, mul-le-mul_right, le_of_mul-le-mul_right}
use clusterman.Base.Tests.{ltb, leb}

pub record Fraction : Type 0 where
  pub num : ℕ
  pub den : ℕ

abbrev pub frac : ℕ → Fraction
frac n = record { num = n; den = 1 }

abbrev pub lt_f : Fraction → Fraction → Bool
lt_f a b = ltb (a.num * b.den) (b.num * a.den)

abbrev pub le_f : Fraction → Fraction → Bool
le_f a b = leb (a.num * b.den) (b.num * a.den)

abbrev pub mul_f : Fraction → Fraction → Fraction
mul_f a b = record { num = a.num * b.num; den = a.den * b.den }

-- The quotient by a fraction that is not 0
abbrev pub div_f : Fraction → Fraction → Fraction
div_f a b = record { num = a.num * b.den; den = a.den * b.num }

-- `abs(a - b)`
unfoldable pub distance_f : Fraction → Fraction → Fraction
distance_f a b = record {
  num = (a.num * b.den - b.num * a.den) + (b.num * a.den - a.num * b.den);
  den = a.den * b.den;
}

infix 50 ◌≤f◌
abbrev pub ◌≤f◌ : Fraction → Fraction → Type 0
a ≤f b = a.num * b.den ≤ b.num * a.den

pub ≤f_trans : (a b c : Fraction) → 0 < b.den → a ≤f b → b ≤f c → a ≤f c
≤f_trans a b c h p q =
    le_of_mul-le-mul_right {k = b.den}
      (omega (
        arith,
        mul_right_comm a.num c.den b.den,
        mul-le-mul_right c.den p,
        mul_right_comm b.num a.den c.den,
        mul-le-mul_right a.den q,
        mul_right_comm c.num b.den a.den,
      ))
      h

pub ≤f_total : (a b : Fraction) → lt_f a b ≡ false → b ≤f a
≤f_total a b h = ground arith

pub lt_f→≤f : (a b : Fraction) → lt_f a b ≡ true → a ≤f b
lt_f→≤f a b h = ground arith
