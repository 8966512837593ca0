-- ===== src/Base/Signed.antt =====
-- What the report does with a difference of costs: subtraction, sign, absolute value and the test
-- for zero of a `double`, their laws, and whole nanoseconds with a sign as an example.
use Prim.Native.Nat.{ℕ, suc, ◌+◌, ◌-◌, ◌*◌, ◌/◌}
use mathlib.Core.Path.{◌≡◌, refl}
use mathlib.Core.Bool.{Bool, true, false}
use native.Mathlib.Omega.{arith}
use pimprof.Base.Tests.{ltb, leb, ◌==◌, if◌then◌else◌}
use pimprof.Base.Floats.{Double, IsOrdered}

pub record Signed {ℓ} (C : Type ℓ) : Type ℓ where
  pub sub : C → C → C
  pub neg : C → C
  pub abs : C → C
  pub is_nought : C → Bool

-- Laws of doubles other than NaN, rounding included; a number that is not below zero is one that
-- `lt` does not put below `nought`.
pub record IsSigned {ℓ} (C : Type ℓ) ⦃d : Double C⦄ ⦃s : Signed C⦄ : Type ℓ where
  pub nought_is_nought : s.is_nought d.nought ≡ true
  pub above-not-nought : (x : C) → d.lt d.nought x ≡ true → s.is_nought x ≡ false
  pub abs-above : (x : C) → d.lt d.nought x ≡ true → d.lt d.nought (s.abs x) ≡ true
  pub abs-below : (x : C) → d.lt x d.nought ≡ true → d.lt d.nought (s.abs x) ≡ true
  pub neg-not-above : (x : C) → d.lt x d.nought ≡ false → d.lt d.nought (s.neg x) ≡ false
  pub add-above :
      (x y : C)
      → d.lt x d.nought ≡ false
      → d.lt d.nought y ≡ true
      → d.lt d.nought (d.add x y) ≡ true
  pub count-not-below : (n : ℕ) → d.lt (d.of_count n) d.nought ≡ false
  pub tenth-not-below :
      (x : C) → d.lt x d.nought ≡ false → d.lt (d.div x (d.of_count 10)) d.nought ≡ false

pub data ℤ : Type 0 where
  pos : (n : ℕ) → ℤ
  negsuc : (n : ℕ) → ℤ

abbrev up : ℤ → ℕ
up (pos n) = n
up (negsuc n) = 0

abbrev down : ℤ → ℕ
down (pos n) = 0
down (negsuc n) = suc n

-- The integer that stands `a` above `b`.
abbrev above : ℕ → ℕ → ℤ
above a b = if leb b a then pos (a - b) else negsuc (b - a - 1)

abbrev lt_ℤ : ℤ → ℤ → Bool
lt_ℤ a b = ltb (up a + down b) (up b + down a)

-- A quotient is only taken of numbers that are not negative.
instance abbrev pub int_double : Double ℤ
int_double = record {
  nought = pos 0;
  flt_max = pos 1_000_000_000_000;
  of_count = pos;
  add = λ a b. above (up a + up b) (down a + down b);
  mul = λ a b. above (up a * up b + down a * down b) (up a * down b + down a * up b);
  div = λ a b. pos (up a / up b);
  truncate = up;
  lt = lt_ℤ;
  le = λ a b. leb (up a + down b) (up b + down a);
}

instance abbrev pub int_signed : Signed ℤ
int_signed = record {
  sub = λ a b. above (up a + down b) (down a + up b);
  neg = λ a. above (down a) (up a);
  abs = λ a. pos (up a + down a);
  is_nought = λ a. up a == down a;
}

pub int-IsOrdered : IsOrdered ℤ
int-IsOrdered = record {
  lt_asym = λ x y h. ground arith;
  lt_cotrans = λ x y z h. ground arith;
  le-eq-not-gt = λ x y. ground arith;
}

pub int-IsSigned : IsSigned ℤ
int-IsSigned = record {
  nought_is_nought = refl;
  above-not-nought = λ x h. ground arith;
  abs-above = λ x h. ground arith;
  abs-below = λ x h. ground arith;
  neg-not-above = λ x h. ground arith;
  add-above = λ x y h k. ground arith;
  count-not-below = λ n. ground arith;
  tenth-not-below = λ x h. ground arith;
}
