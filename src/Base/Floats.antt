-- ===== src/Base/Floats.antt =====
-- What the solver does with a `COST`, which is a `double`: constants, conversion of a counter,
-- arithmetic, conversion to an integer, and comparisons. No law of rounding is assumed, so sums are
-- kept in the order in which the code makes them.
use Prim.Native.Nat.{ℕ, ◌+◌, ◌*◌, ◌/◌}
use mathlib.Core.Path.{◌≡◌}
use mathlib.Core.Logic.{◌⊎◌, inl, inr}
use mathlib.Core.Bool.{Bool, true, false, not}
use native.Mathlib.Omega.{arith}
use pimprof.Base.Tests.{ltb, leb, Bool-cases}

pub record Double {ℓ} (C : Type ℓ) : Type ℓ where
  pub nought : C
  pub flt_max : C
  pub of_count : ℕ → C
  pub add : C → C → C
  pub mul : C → C → C
  pub div : C → C → C
  pub truncate : C → ℕ
  pub lt : C → C → Bool
  pub le : C → C → Bool

-- The comparisons of doubles other than NaN: a strict weak order, and its `<=`. A theorem that
-- takes these laws speaks of costs among which there is no NaN.
pub record IsOrdered {ℓ} (C : Type ℓ) ⦃d : Double C⦄ : Type ℓ where
  pub lt_asym : (x y : C) → d.lt x y ≡ true → d.lt y x ≡ false
  pub lt_cotrans : (x y z : C) → d.lt x z ≡ true → (d.lt x y ≡ true) ⊎ (d.lt y z ≡ true)
  pub le-eq-not-gt : (x y : C) → d.le x y ≡ not (d.lt y x)

-- Whole nanoseconds meet the laws.
instance abbrev pub nat_double : Double ℕ
nat_double = record {
  nought = 0;
  flt_max = 1_000_000_000_000;
  of_count = λ n. n;
  add = λ a b. a + b;
  mul = λ a b. a * b;
  div = λ a b. a / b;
  truncate = λ a. a;
  lt = ltb;
  le = leb;
}

pub nat-IsOrdered : IsOrdered ℕ
nat-IsOrdered = record {
  lt_asym = λ x y h. ground arith;
  lt_cotrans = λ x y z h. ground arith;
  le-eq-not-gt = λ x y. ground arith;
}

module _ {ℓ} {C : Type ℓ} ⦃d : Double C⦄ (laws : IsOrdered C) where
  open laws use {lt_asym, lt_cotrans}

  pub lt_irrefl : (x : C) → d.lt x x ≡ false
  lt_irrefl x = elim (Bool-cases (d.lt x x)) [ inl e ↦ lt_asym x x e | inr e ↦ e ]

  -- "Not above" is transitive.
  pub not-lt_trans : (x y z : C) → d.lt y x ≡ false → d.lt z y ≡ false → d.lt z x ≡ false
  not-lt_trans x y z p q = elim (Bool-cases (d.lt z x)) [
    | inr e ↦ e
    | inl e ↦ elim (lt_cotrans z y x e) [
      | inl a ↦ absurd (ground arith)
      | inr b ↦ absurd (ground arith)
    ]
  ]

  pub lt_trans : (x y z : C) → d.lt x y ≡ true → d.lt y z ≡ true → d.lt x z ≡ true
  lt_trans x y z p q = elim (lt_cotrans x z y p) [
    | inl e ↦ e
    | inr e ↦ absurd (ground (arith, lt_asym y z q))
  ]
