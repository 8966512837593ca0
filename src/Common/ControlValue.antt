-- ===== src/Common/ControlValue.antt =====
-- `ControlValue`: a 64-bit word with an operation in its low half and a flag in its high half.
use Prim.Native.Nat.{bit_or, bit_and}
use pimprof.Base.Bits.{shift, ones, bit_or-shift, bit_and-ones}
use pimprof.Base.{ℕ, ◌+◌, ◌*◌, ◌/◌, ◌%◌, ◌-◌, ◌<◌, ◌≡◌, refl, arith, u32_mod, u64_mod}

-- A shift to the left drops what does not fit the word.
unfoldable pub get_control_value : ℕ → ℕ → ℕ
get_control_value optype isomp = bit_or ((isomp * u32_mod) % u64_mod) optype

unfoldable pub get_is_open_mp : ℕ → ℕ
get_is_open_mp controlvalue = controlvalue / u32_mod

unfoldable pub get_op_type : ℕ → ℕ
get_op_type controlvalue = bit_and (u32_mod - 1) controlvalue

shift_32 : (a : ℕ) → shift 32 a ≡ a * u32_mod
unfolding shift
shift_32 a = omega arith

ones_32 : ones 32 ≡ u32_mod - 1
unfolding ones
ones_32 = refl

-- An operation and a flag of 32 bits each are read back from the word that packs them.
pub control_value-roundtrip :
    (optype isomp : ℕ)
    → optype < u32_mod
    → isomp < u32_mod
    → (get_op_type (get_control_value optype isomp) ≡ optype)
      × (get_is_open_mp (get_control_value optype isomp) ≡ isomp)
      × (get_control_value optype isomp < u64_mod)
unfolding get_op_type get_is_open_mp get_control_value
control_value-roundtrip optype isomp h k =
    let fits : (isomp * u32_mod) % u64_mod ≡ shift 32 isomp = omega (arith, shift_32 isomp) in
    let packed : bit_or (shift 32 isomp) optype ≡ shift 32 isomp + optype =
      bit_or-shift 32 isomp optype (omega (arith, ones_32)) in
    rw (fits, packed)
      (
        rw (← ones_32) (bit_and-ones 32 isomp optype (omega (arith, ones_32))),
        omega (arith, shift_32 isomp),
        omega (arith, shift_32 isomp),
      )
