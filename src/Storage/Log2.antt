-- ===== src/Storage/Log2.antt =====
-- PIMProfSolver/Storage.h: `IsPower2`, `FloorLog2` and `CeilLog2`. The results of the latter two are
-- 32-bit words, the negative one among them.
use Prim.Native.Nat.{bit_and}
use pimprof.Base.{
  ℕ, zero, suc, ◌+◌, ◌/◌, ◌%◌, ◌-◌, ◌^◌, ◌≤◌, ◌<◌, ◌≡◌, refl, ap, ◌∙◌, inl, inr, Bool, false, arith,
  u32_mod, ◌==◌, if◌then◌else◌, Bool-cases,
}
use pimprof.Base.Bits.{
  shift, ones, drop, bit_and-ones_all, bit_and-shift, shift_mono, shift_zero, shift_add, shift_one,
  drop_bounds, shift_none, shift_pow, shift_next, shift_next_but_one,
}

unfoldable pub is_power2 : ℕ → Bool
is_power2 n = bit_and n ((n + u32_mod - 1) % u32_mod) == 0

-- `if (n & mask) { p += amount; n >>= amount; }`, on the pair of `p` and `n`.
unfoldable pub narrow : ℕ → ℕ → ℕ × ℕ → ℕ × ℕ
narrow mask amount s = if bit_and s.1 mask == 0 then s else (s.0 + amount, s.1 / 2 ^ amount)

unfoldable pub floor_log2 : ℕ → ℕ
unfolding narrow
floor_log2 n =
    if n == 0
    then u32_mod - 1
    else let s1 = narrow 0xffff0000 16 (0, n) in
      let s2 = narrow 0x0000ff00 8 s1 in
      let s3 = narrow 0x000000f0 4 s2 in
      let s4 = narrow 0x0000000c 2 s3 in if bit_and s4.1 0x00000002 == 0 then s4.0 else s4.0 + 1

unfoldable pub ceil_log2 : ℕ → ℕ
unfolding floor_log2
ceil_log2 n = (floor_log2 ((n + u32_mod - 1) % u32_mod) + 1) % u32_mod

-- `p` and what is left of `n` stand for a power of two below `n`.
abbrev Fits : ℕ → ℕ × ℕ → Type 0
Fits n s = (shift s.0 s.1 ≤ n) × (n < shift s.0 (suc s.1)) × (0 < s.1)

some_left_of : (k d y : ℕ) → y ≡ shift k d → (y == 0) ≡ false → 0 < d
some_left_of k zero y e f =
    let none_left : y ≡ 0 = omega (arith, e, shift_none k) in absurd (ground arith)
some_left_of k (suc d) y e f = omega arith

narrow_lem :
    (mask k n : ℕ) (s : ℕ × ℕ)
    → mask ≡ shift k (ones k)
    → s.1 / 2 ^ k ≡ drop k s.1
    → drop k s.1 ≤ ones k
    → Fits n s
    → Fits n (narrow mask k s) × ((narrow mask k s).1 ≤ ones k)
unfolding narrow
narrow_lem mask k n s form same small (low, high, some_left) =
    let d = drop k s.1 in
    let masked : bit_and s.1 mask ≡ shift k d =
      rw form (bit_and-shift k s.1 (ones k) ∙ ap (shift k) (bit_and-ones_all k d small)) in
    let (under, over) = drop_bounds k s.1 in
    elim (Bool-cases (bit_and s.1 mask == 0)) [
      | inl e ↦
          let none_left : d ≡ 0 = shift_zero k d (ground arith) in
          rw (e, narrow)
            (
              (low, high, some_left),
              omega (arith, shift_one k, ap (λ x. shift k (suc x)) none_left),
            )
      | inr e ↦
          let left = some_left_of k d _ masked e in
          rw (e, narrow, same)
            (
              (
                omega
                    (arith, shift_add s.0 k d (s.0 + k) refl, shift_mono s.0 (shift k d) s.1 under),
                omega (
                  arith,
                  shift_add s.0 k (suc d) (s.0 + k) refl,
                  shift_mono s.0 (suc s.1) (shift k (suc d)) over,
                ),
                left,
              ),
              small,
            )
    ]

last_lem :
    (n p x : ℕ)
    → Fits n (p, x)
    → x ≤ 3
    → (2 ^ (if bit_and x 2 == 0 then p else p + 1) ≤ n)
      × (n < 2 ^ suc (if bit_and x 2 == 0 then p else p + 1))
last_lem n p zero h small = absurd (omega arith)
last_lem n p (suc zero) (low, high, _) small =
    (omega (arith, shift_pow p), omega (arith, shift_next p))
last_lem n p (suc (suc zero)) (low, high, _) small =
    let next : p + 1 ≡ suc p = omega arith in
    rw next (
      omega (arith, shift_next p),
      omega (arith, shift_next_but_one p, shift_mono p 3 4 (omega arith)),
    )
last_lem n p (suc (suc (suc zero))) (low, high, _) small =
    let next : p + 1 ≡ suc p = omega arith in
    rw next (
      omega (arith, shift_next p, shift_mono p 2 3 (omega arith)),
      omega (arith, shift_next_but_one p),
    )
last_lem n p (suc (suc (suc (suc x)))) h small = absurd (omega arith)

drop_16 : (x : ℕ) → x / 2 ^ 16 ≡ drop 16 x
unfolding drop
drop_16 x = omega arith

drop_8 : (x : ℕ) → x / 2 ^ 8 ≡ drop 8 x
unfolding drop
drop_8 x = omega arith

drop_4 : (x : ℕ) → x / 2 ^ 4 ≡ drop 4 x
unfolding drop
drop_4 x = omega arith

drop_2 : (x : ℕ) → x / 2 ^ 2 ≡ drop 2 x
unfolding drop
drop_2 x = omega arith

-- `FloorLog2` of a positive word is the exponent of the greatest power of two that is not above it.
pub floor_log2-bounds :
    (n : ℕ) → 0 < n → n < u32_mod → (2 ^ floor_log2 n ≤ n) × (n < 2 ^ suc (floor_log2 n))
unfolding floor_log2 shift ones
floor_log2-bounds n some_left small =
    let positive : (n == 0) ≡ false = ground arith in
    let (fits1, small1) =
      narrow_lem 0xffff0000 16 n (0, n) refl (drop_16 n) (omega (arith, drop_16 n))
        (omega arith, omega arith, some_left) in
    let s1 = narrow 0xffff0000 16 (0, n) in
    let (fits2, small2) =
      narrow_lem 0x0000ff00 8 n s1 refl (drop_8 s1.1) (omega (arith, drop_8 s1.1)) fits1 in
    let s2 = narrow 0x0000ff00 8 s1 in
    let (fits3, small3) =
      narrow_lem 0x000000f0 4 n s2 refl (drop_4 s2.1) (omega (arith, drop_4 s2.1)) fits2 in
    let s3 = narrow 0x000000f0 4 s2 in
    let (fits4, small4) =
      narrow_lem 0x0000000c 2 n s3 refl (drop_2 s3.1) (omega (arith, drop_2 s3.1)) fits3 in
    let s4 = narrow 0x0000000c 2 s3 in rw positive (last_lem n s4.0 s4.1 fits4 small4)
