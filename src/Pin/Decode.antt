-- ===== src/Pin/Decode.antt =====
-- `InstructionInstrument` of PinInstrument.cpp: the calls that are inserted around an instruction of
-- the program, and how the magic instructions of the injected code are taken out. What Pin and its
-- decoder say of an instruction are the fields of `Ins`.
use pimprof.Base.{
  ℕ, zero, suc, ◌/◌, ◌≡◌, refl, Bool, true, false, not, ◌&&◌, ◌||◌, List, [], ◌∷◌, ◌++◌, Option,
  some, if◌then◌else◌, ◌>>=◌, ◌>>◌, assert_that,
}
use pimprof.Base.Signed.{ℤ, pos, negsuc}
use pimprof.Pin.{AccessType, access_type_load, access_type_store}

pub record Ins : Type 0 where
  pub is_xchg : Bool
  pub first_is_rcx : Bool
  pub second_is_rcx : Bool
  pub is_mov : Bool
  pub opcode : ℕ
  pub is_memory_read : Bool
  pub has_memory_read2 : Bool
  pub is_memory_write : Bool
  pub is_standard_memop : Bool
  pub classify_sse : Bool
  pub classify_avx : Bool
  pub classify_avx512 : Bool
  pub simd_scalar : Bool
  pub vector_length_bits : ℕ
  pub decoded_length : ℕ

-- Which memory operand of an instruction is meant.
pub data Operand : Type 0 where
  memory_read memory_read2 memory_write : Operand

-- A call that is inserted at an instruction: after it in the case of `handle_magic`, else before it.
pub data Inserted : Type 0 where
  handle_magic : Inserted
  instruction_count : (opcode : ℕ) → (ismem : Bool) → (simd_len : ℕ) → Inserted
  instr_cache_ref : (ins_len simd_len : ℕ) → Inserted
  data_cache_ref : Operand → AccessType → (simd_len : ℕ) → Inserted

unfoldable pub simd_len_of : Ins → ℕ
simd_len_of ins =
    if not ins.classify_sse && not ins.classify_avx && not ins.classify_avx512
    then 0
    else if ins.simd_scalar
    then 0
    else if ins.classify_sse
    then 2
    else ins.vector_length_bits / 64

abbrev pub insert_if : Bool → Inserted → List Inserted
insert_if true c = c ∷ []
insert_if false c = []

-- The calls at an instruction that is not magic.
unfoldable pub analysis_calls : Ins → List Inserted
unfolding simd_len_of
analysis_calls ins =
    let simd_len = simd_len_of ins in
    instruction_count ins.opcode (ins.is_memory_read || ins.is_memory_write) simd_len
      ∷ instr_cache_ref ins.decoded_length simd_len
      ∷ insert_if (ins.is_memory_read && ins.is_standard_memop)
          (data_cache_ref memory_read access_type_load simd_len)
    ++ insert_if (ins.has_memory_read2 && ins.is_standard_memop)
        (data_cache_ref memory_read2 access_type_load simd_len)
    ++ insert_if (ins.is_memory_write && ins.is_standard_memop)
        (data_cache_ref memory_write access_type_store simd_len)

-- `xchg %rcx, %rcx`
unfoldable pub is_marker : Ins → Bool
is_marker ins = ins.is_xchg && ins.first_is_rcx && ins.second_is_rcx

-- `InstructionInstrument`: the calls at an instruction, and `ins_to_skip` for the next one. A failed
-- assertion is `none`.
unfoldable pub instruction_instrument : Ins → ℤ → Option (List Inserted × ℤ)
unfolding analysis_calls is_marker
instruction_instrument ins (pos zero) =
    if is_marker ins
    then some ([], pos 2)
    else assert_that ins.is_mov >> some (handle_magic ∷ [], negsuc 0)
instruction_instrument ins (pos (suc n)) =
    if is_marker ins then some ([], pos 2) else assert_that ins.is_mov >> some ([], pos n)
instruction_instrument ins (negsuc n) =
    if is_marker ins then some ([], pos 2) else some (analysis_calls ins, negsuc n)

-- The initial value of `ins_to_skip`
abbrev pub ins_to_skip : ℤ
ins_to_skip = negsuc 0

-- The instructions of a program in the order in which Pin meets them, each with its calls.
unfoldable pub instrument_all : List Ins → ℤ → Option (List (List Inserted) × ℤ)
unfolding instruction_instrument
instrument_all [] skip = some ([], skip)
instrument_all (ins ∷ rest) skip = do
  here ← instruction_instrument ins skip
  later ← instrument_all rest here.1
  some (here.0 ∷ later.0, later.1)

-- A program as the injection leaves it: its own instructions, and the magic sequences.
pub data Piece : Type 0 where
  own : Ins → Piece
  magic : (marker rax rbx rcx : Ins) → Piece

abbrev pub instructions : List Piece → List Ins
instructions [] = []
instructions (own ins ∷ rest) = ins ∷ instructions rest
instructions (magic m a b c ∷ rest) = m ∷ a ∷ b ∷ c ∷ instructions rest

-- Only the sequences have markers, and their other instructions are moves.
abbrev pub IsInjected : List Piece → Type 0
IsInjected [] = Unit
IsInjected (own ins ∷ rest) = (is_marker ins ≡ false) × IsInjected rest
IsInjected (magic m a b c ∷ rest) =
    (is_marker m ≡ true)
    × (is_marker a ≡ false)
    × (is_marker b ≡ false)
    × (is_marker c ≡ false)
    × (a.is_mov ≡ true)
    × (b.is_mov ≡ true)
    × (c.is_mov ≡ true)
    × IsInjected rest

-- What each instruction should get: the analysis calls, except that a sequence gets the handler after
-- its last move and nothing else.
abbrev pub expected_calls : List Piece → List (List Inserted)
expected_calls [] = []
expected_calls (own ins ∷ rest) = analysis_calls ins ∷ expected_calls rest
expected_calls (magic m a b c ∷ rest) = [] ∷ [] ∷ [] ∷ (handle_magic ∷ []) ∷ expected_calls rest

marker_step :
    (ins : Ins) → is_marker ins ≡ true → instruction_instrument ins ins_to_skip ≡ some ([], pos 2)
unfolding instruction_instrument
marker_step ins h = rw h refl

move_step :
    (ins : Ins) (n : ℕ)
    → is_marker ins ≡ false
    → ins.is_mov ≡ true
    → instruction_instrument ins (pos (suc n)) ≡ some ([], pos n)
unfolding instruction_instrument
move_step ins n h mov = rw (h, mov) refl

last_step :
    (ins : Ins)
    → is_marker ins ≡ false
    → ins.is_mov ≡ true
    → instruction_instrument ins (pos 0) ≡ some (handle_magic ∷ [], ins_to_skip)
unfolding instruction_instrument
last_step ins h mov = rw (h, mov) refl

own_step :
    (ins : Ins)
    → is_marker ins ≡ false
    → instruction_instrument ins ins_to_skip ≡ some (analysis_calls ins, ins_to_skip)
unfolding instruction_instrument
own_step ins h = rw h refl

-- In a program whose only markers start injected sequences of a marker and three moves, no assertion
-- of `InstructionInstrument` fails; each instruction of the program itself gets its analysis calls;
-- the sequences get the handler once, after the third move, and no analysis call; and the state is
-- ready for the next instruction.
pub instrument_all-magic :
    (pieces : List Piece)
    → IsInjected pieces
    → instrument_all (instructions pieces) ins_to_skip ≡ some (expected_calls pieces, ins_to_skip)
unfolding instrument_all
instrument_all-magic [] h = refl
instrument_all-magic (own ins ∷ rest) (plain, h) =
    rw (own_step ins plain, instrument_all-magic rest h) refl
instrument_all-magic (magic m a b c ∷ rest) (hm, ha, hb, hc, ma, mb, mc, h) =
    rw
      (
        marker_step m hm,
        move_step a 1 ha ma,
        move_step b 0 hb mb,
        last_step c hc mc,
        instrument_all-magic rest h,
      )
      refl
