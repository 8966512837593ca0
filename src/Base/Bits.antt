-- ===== src/Base/Bits.antt =====
-- Operations on the binary digits of words, as arithmetic.
use Prim.Native.Nat.{bit_or, bit_and, digits, bit_or-bitwise, bit_and-bitwise}
use Prim.Native.Nat.{ℕ, zero, suc, ◌+◌, ◌*◌, ◌/◌, ◌%◌, ◌^◌, ◌≤◌, ◌<◌, min, max}
use native.Mathlib.Nat.{pow-suc}
use native.Mathlib.Omega.{arith}
use mathlib.Core.Path.{◌≡◌, refl, ap}

-- A bit operation acts on the lowest digits, and on what is left of both words: `op` on two digits,
-- `alone` on the second word where the first has run out.
module _ (alone : ℕ → ℕ) (op : ℕ → ℕ → ℕ) where
  fuel_free :
      (word other more less : ℕ)
      → word ≤ more
      → word ≤ less
      → digits alone op more word other ≡ digits alone op less word other
  fuel_free zero other zero zero big small = refl
  fuel_free zero other zero (suc less) big small = refl
  fuel_free zero other (suc more) zero big small = refl
  fuel_free zero other (suc more) (suc less) big small = refl
  fuel_free (suc word) other zero less big small = absurd (omega arith)
  fuel_free (suc word) other (suc more) zero big small = absurd (omega arith)
  fuel_free (suc word) other (suc more) (suc less) big small =
      omega (arith, fuel_free (suc word / 2) (other / 2) more less (omega arith) (omega arith))

or_nothing : (x : ℕ) → bit_or 0 x ≡ x
or_nothing x = bit_or-bitwise 0 x

and_nothing : (x : ℕ) → bit_and 0 x ≡ 0
and_nothing x = bit_and-bitwise 0 x

bit_or-halves : (x y : ℕ) → bit_or x y ≡ bit_or (x / 2) (y / 2) * 2 + max (x % 2) (y % 2)
bit_or-halves zero y = omega (arith, or_nothing y, or_nothing (y / 2))
bit_or-halves (suc x) y =
    let free =
      fuel_free (λ other. other) max (suc x / 2) (y / 2) x (suc x / 2) (omega arith)
        (omega arith) in
    omega (arith, free, bit_or-bitwise (suc x) y, bit_or-bitwise (suc x / 2) (y / 2))

pub bit_and-halves : (x y : ℕ) → bit_and x y ≡ bit_and (x / 2) (y / 2) * 2 + min (x % 2) (y % 2)
bit_and-halves zero y = omega (arith, and_nothing y, and_nothing (y / 2))
bit_and-halves (suc x) y =
    let free =
      fuel_free (λ other. 0) min (suc x / 2) (y / 2) x (suc x / 2) (omega arith) (omega arith) in
    omega (arith, free, bit_and-bitwise (suc x) y, bit_and-bitwise (suc x / 2) (y / 2))

-- An operation of zero, for words up to a bound.
or_zero_upto : (bound word : ℕ) → word ≤ bound → bit_or word 0 ≡ word
or_zero_upto zero word small = let none_left : word ≡ 0 = omega arith in rw none_left refl
or_zero_upto (suc bound) zero small = refl
or_zero_upto (suc bound) (suc word) small =
    omega (arith, or_zero_upto bound (suc word / 2) (omega arith), bit_or-halves (suc word) 0)

-- `a * 2 ^ k`, and a number of `k` ones.
unfoldable pub shift : ℕ → ℕ → ℕ
shift zero a = a
shift (suc k) a = shift k a * 2

unfoldable pub ones : ℕ → ℕ
ones zero = 0
ones (suc k) = ones k * 2 + 1

-- A number below the lowest bit of another is added to it, and a mask takes it back.
pub bit_or-shift : (k a b : ℕ) → b ≤ ones k → bit_or (shift k a) b ≡ shift k a + b
unfolding shift ones
bit_or-shift zero a b h =
    let none_left : b ≡ 0 = omega arith in
    rw none_left (omega (arith, or_zero_upto a a (omega arith)))
bit_or-shift (suc k) a b h = omega (
  arith,
  bit_or-halves (shift k a * 2) b,
  bit_or-shift k a (b / 2) (omega arith),
  ap (λ x. bit_or x (b / 2)) (half (shift k a)),
)
  where
    half : (x : ℕ) → (x * 2) / 2 ≡ x
    half x = omega arith

pub bit_and-ones : (k a b : ℕ) → b ≤ ones k → bit_and (ones k) (shift k a + b) ≡ b
unfolding shift ones
bit_and-ones zero a b h = omega (arith, and_nothing (a + b))
bit_and-ones (suc k) a b h = omega (
  arith,
  bit_and-halves (ones k * 2 + 1) (shift k a * 2 + b),
  bit_and-ones k a (b / 2) (omega arith),
  ap (λ x. bit_and x ((shift k a * 2 + b) / 2)) (half (ones k)),
  ap (bit_and (ones k)) (low (shift k a)),
)
  where
    half : (x : ℕ) → (x * 2 + 1) / 2 ≡ x
    half x = omega arith

    low : (x : ℕ) → (x * 2 + b) / 2 ≡ x + b / 2
    low x = omega arith

unfoldable pub drop : ℕ → ℕ → ℕ
drop zero n = n
drop (suc k) n = drop k (n / 2)

pub bit_and-ones_all : (k x : ℕ) → x ≤ ones k → bit_and x (ones k) ≡ x
unfolding ones
bit_and-ones_all zero x h = let none_left : x ≡ 0 = omega arith in rw none_left refl
bit_and-ones_all (suc k) x h = omega (
  arith,
  bit_and-halves x (ones k * 2 + 1),
  ap (bit_and (x / 2)) (half (ones k)),
  bit_and-ones_all k (x / 2) (omega arith),
)
  where
    half : (y : ℕ) → (y * 2 + 1) / 2 ≡ y
    half y = omega arith

pub bit_and-shift : (k n m : ℕ) → bit_and n (shift k m) ≡ shift k (bit_and (drop k n) m)
unfolding shift drop
bit_and-shift zero n m = refl
bit_and-shift (suc k) n m = omega (
  arith,
  bit_and-halves n (shift k m * 2),
  ap (bit_and (n / 2)) (half (shift k m)),
  bit_and-shift k (n / 2) m,
)
  where
    half : (y : ℕ) → (y * 2) / 2 ≡ y
    half y = omega arith

pub shift_mono : (k a b : ℕ) → a ≤ b → shift k a ≤ shift k b
unfolding shift
shift_mono zero a b h = h
shift_mono (suc k) a b h = omega (arith, shift_mono k a b h)

pub shift_zero : (k a : ℕ) → shift k a ≡ 0 → a ≡ 0
unfolding shift
shift_zero zero a e = e
shift_zero (suc k) a e = shift_zero k a (omega arith)

pub shift_add : (p k a q : ℕ) → q ≡ p + k → shift q a ≡ shift p (shift k a)
unfolding shift
shift_add zero k a q e = let same : q ≡ k = omega arith in rw same refl
shift_add (suc p) k a zero e = absurd (omega arith)
shift_add (suc p) k a (suc q) e = omega (arith, shift_add p k a q (omega arith))

pub shift_one : (k : ℕ) → shift k 1 ≡ suc (ones k)
unfolding shift ones
shift_one zero = refl
shift_one (suc k) = omega (arith, shift_one k)

pub drop_bounds : (k x : ℕ) → (shift k (drop k x) ≤ x) × (x < shift k (suc (drop k x)))
unfolding shift drop
drop_bounds zero x = (omega arith, omega arith)
drop_bounds (suc k) x = let (low, high) = drop_bounds k (x / 2) in (omega arith, omega arith)

pub shift_none : (k : ℕ) → shift k 0 ≡ 0
unfolding shift
shift_none zero = refl
shift_none (suc k) = omega (arith, shift_none k)

pub shift_pow : (k : ℕ) → shift k 1 ≡ 2 ^ k
unfolding shift
shift_pow zero = refl
shift_pow (suc k) = omega (arith, shift_pow k, pow-suc 2 k)

pub shift_next : (p : ℕ) → shift p 2 ≡ 2 ^ suc p
unfolding shift
shift_next p = omega (arith, shift_add p 1 1 (suc p) (omega arith), shift_pow (suc p))

pub shift_next_but_one : (p : ℕ) → shift p 4 ≡ 2 ^ suc (suc p)
unfolding shift
shift_next_but_one p =
    omega (arith, shift_add p 2 1 (suc (suc p)) (omega arith), shift_pow (suc (suc p)))
