-- ===== src/Pin/Run.antt =====
-- What the Pin tool goes through in a run of a program of one thread: its callbacks, each of which
-- ends before the next begins. Callbacks of several threads can overlap, which no sequence describes.
use pimprof.Base.{
  ℕ, ◌≡◌, Bool, true, false, ◌&&◌, List, [], ◌∷◌, ◌++◌, Option, none, some, get_elem?, set, ltb,
  ◌==◌, if◌then◌else◌, ◌>>=◌, ◌>>◌, assert_that, Double,
}
use pimprof.Common.{Uuid, uuid_eq}
use pimprof.Common.ControlValue.{get_op_type}
use pimprof.Pin.{
  Package, PerSite, AccessType, handle_magic, thread_start, thread_finish, set_accelerator,
}
use pimprof.Pin.Count.{Machine, max_index, instruction_count, instr_cache_ref, data_cache_ref}

pub data Action : Type 0 where
  thread_starts thread_finishes : Action
  accelerates : (inside : Bool) → Action
  handles_magic : (threadid hi lo control_value : ℕ) → Action
  counts : (threadid opcode : ℕ) → (ismem : Bool) → (simd_len : ℕ) → Action
  fetches : (threadid addr size simd_len : ℕ) → Action
  refers : (threadid ip addr size : ℕ) → (access_type : AccessType) → (simd_len : ℕ) → Action

-- A callback of the first thread once it runs; no other thread starts.
abbrev pub IsSole : Action → Type 0
IsSole thread_starts = ⊥
IsSole thread_finishes = Unit {0}
IsSole (accelerates inside) = Unit {0}
IsSole (handles_magic threadid hi lo control_value) = threadid ≡ 0
IsSole (counts threadid opcode ismem simd_len) = threadid ≡ 0
IsSole (fetches threadid addr size simd_len) = threadid ≡ 0
IsSole (refers threadid ip addr size access_type simd_len) = threadid ≡ 0

module _ {ℓ} {C : Type ℓ} ⦃d : Double C⦄ (machine : PerSite (Machine C)) where
  unfoldable pub perform : Action → Package C → Option (Package C)
  unfolding handle_magic thread_start instruction_count instr_cache_ref data_cache_ref
  perform thread_starts p = some (thread_start p)
  perform thread_finishes p = some (thread_finish p)
  perform (accelerates inside) p = some (set_accelerator inside p)
  perform (handles_magic threadid hi lo control_value) p =
      handle_magic hi lo control_value threadid p
  perform (counts threadid opcode ismem simd_len) p =
      instruction_count machine opcode ismem simd_len threadid p
  perform (fetches threadid addr size simd_len) p = instr_cache_ref addr size simd_len threadid p
  perform (refers threadid ip addr size access_type simd_len) p =
      data_cache_ref ip addr size access_type simd_len threadid p

  -- Callbacks that do not overlap.
  unfoldable pub perform_all : List Action → Package C → Option (Package C)
  unfolding perform
  perform_all [] p = some p
  perform_all (action ∷ rest) p = perform action p >>= λ next. perform_all rest next

-- What the program should do: the hashes of the open basic blocks of each thread, the last one first,
-- and whether a basic block was opened at all.
pub record Brackets : Type 0 where
  pub open_blocks : List (List Uuid)
  pub any_seen : Bool

abbrev pub no_brackets : Brackets
no_brackets = record { open_blocks = []; any_seen = false }

abbrev pub has_thread : ℕ → Brackets → Option (List Uuid)
has_thread threadid b = get_elem? b.open_blocks threadid

-- A block closes if it is the last one that the thread opened.
unfoldable pub close : Uuid → List Uuid → Option (List Uuid)
close u [] = none
close u (v ∷ rest) = if uuid_eq u v then some rest else none

-- The bracket that an operation with a hash is.
unfoldable pub bracket_op : ℕ → Uuid → ℕ → Brackets → Option Brackets
unfolding close
bracket_op op u threadid b = has_thread threadid b >>= λ blocks.
    if op == 0
    then some (record { open_blocks = set b.open_blocks threadid (u ∷ blocks); any_seen = true })
    else if op == 1
    then (close u blocks >>= λ rest.
        some (record b { open_blocks = set b.open_blocks threadid rest }))
    else if ltb op 6
    then some b
    else none

-- The specification of an action: the annotations of each thread are bracketed, a thread acts after it
-- has started, and instructions with a known opcode are counted after the first head of a block.
unfoldable pub bracketed : Action → Brackets → Option Brackets
unfolding bracket_op get_op_type
bracketed thread_starts b = some (record b { open_blocks = b.open_blocks ++ ([] ∷ []) })
bracketed thread_finishes b = some b
bracketed (accelerates inside) b = some b
bracketed (handles_magic threadid hi lo control_value) b =
    bracket_op (get_op_type control_value) (record { first = hi; second = lo }) threadid b
bracketed (counts threadid opcode ismem simd_len) b =
    has_thread threadid b >>= λ blocks. assert_that (b.any_seen && ltb opcode max_index) >> some b
bracketed (fetches threadid addr size simd_len) b = has_thread threadid b >>= λ blocks. some b
bracketed (refers threadid ip addr size access_type simd_len) b =
    has_thread threadid b >>= λ blocks. some b

unfoldable pub bracketed_all : List Action → Brackets → Option Brackets
unfolding bracketed
bracketed_all [] b = some b
bracketed_all (action ∷ rest) b = bracketed action b >>= λ next. bracketed_all rest next
