-- ===== src/Storage/Rounds.antt =====
-- The rounds of `CACHE_LEVEL::Access`.
use pimprof.Base.{
  ℕ, zero, suc, ◌+◌, ◌*◌, ◌/◌, ◌%◌, ◌<◌, ◌≤◌, ◌≡◌, refl, inl, inr, List, Option, ltb, arith,
  u64_mod, Double, Bool-cases, Option-cases,
}
use pimprof.Common.{BblId}
use pimprof.Pin.{PerSite, AccessType}
use pimprof.Pin.Count.{Machine}
use pimprof.Storage.Levels.{Level, Memory, Reused}
use pimprof.Storage.Access.{access_single_line, access_lines}

-- The line after that of an address starts behind the address, less than a line and a byte away.
next_line_bounds :
    (addr line_size : ℕ)
    → 0 < line_size
    → (addr < addr / line_size * line_size + line_size) × (addr / line_size * line_size ≤ addr)
next_line_bounds addr line_size h = (omega arith, omega arith)

next_line_after :
    (addr line_size high : ℕ)
    → 0 < line_size
    → addr ≤ high
    → high + line_size < u64_mod
    → addr < (addr / line_size * line_size + line_size) % u64_mod
next_line_after addr line_size high h below fits =
    let (after, before) = next_line_bounds addr line_size h in omega (arith, after, before)

module _ {ℓ} {C : Type ℓ} ⦃d : Double C⦄ (machine : PerSite (Machine C)) where
  -- The loop over the lines of an access ends within a round per byte and one more, if the addresses do
  -- not wrap around: any two fuels of that size give the same result.
  pub access_lines-fuel :
      (fuel more line_size addr high : ℕ) (access_type : AccessType) (bblid : BblId) (simd_len : ℕ)
      (levels : List (Level C)) (bottom : Option (Memory C)) (s : Reused C)
      → 0 < line_size
      → addr ≤ high
      → high + line_size < u64_mod
      → high < addr + fuel
      → high < addr + more
      → access_lines machine fuel line_size addr high access_type bblid simd_len levels bottom s
        ≡ access_lines machine more line_size addr high access_type bblid simd_len levels bottom s
  unfolding access_lines
  access_lines-fuel zero more line_size addr high access_type bblid simd_len levels bottom s pos
        below fits enough enough2 =
      absurd (omega arith)
  access_lines-fuel (suc fuel) zero line_size addr high access_type bblid simd_len levels bottom s
        pos below fits enough enough2 =
      absurd (omega arith)
  access_lines-fuel (suc fuel) (suc more) line_size addr high access_type bblid simd_len levels
        bottom s pos below fits enough enough2 =
      let single = access_single_line machine addr access_type bblid simd_len levels bottom s in
      let next = (addr / line_size * line_size + line_size) % u64_mod in
      let after = next_line_after addr line_size high pos below fits in
      elim (Option-cases single) [
        | inl failed ↦ rw failed refl
        | inr (r, done) ↦ elim (Bool-cases (ltb next high)) [
          | inr over ↦ rw (done, over) refl
          | inl again ↦
              let rest =
                access_lines-fuel fuel more line_size next high access_type bblid simd_len r.levels
                  r.bottom r.state pos (ground (arith, again)) fits (omega arith) (omega arith) in
              rw (done, again, rest) refl
        ]
      ]
