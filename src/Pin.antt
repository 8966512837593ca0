-- ===== src/Pin.antt =====
-- The Pin tool: PinInstrument.cpp, the members of CostPackage.h and CostPackage.cpp that stand in
-- comments there and that PinInstrument.cpp uses, and `BBLScope` of Util.h. The macros
-- PIMPROF_MPKI and PIMPROFTRACE are not defined. `none` is a failed assertion or an access out of
-- bounds. A handler is a function of the package, which is what it does when no other handler runs
-- at the same time, as in a program of one thread. The lock that most handlers take, and not those of
-- the accelerator functions, is shared and keeps the handlers of several threads from nothing.
pub mod Count
pub mod Decode
pub mod Run
pub mod Scopes
pub mod Sound
pub mod Heads
pub mod Threads
pub mod Calls
pub mod Bracketed
pub mod Marks
pub mod Regions
mod Tests
use pimprof.Base.{
  ℕ, zero, suc, ◌+◌, ◌%◌, Bool, true, false, not, ◌&&◌, ◌||◌, List, [], ◌∷◌, ◌++◌, Option, none,
  some, get_elem?, set, ◌==◌, if◌then◌else◌, ◌>>=◌, ◌>>◌, assert_that, u64_mod, Double,
}
use pimprof.Base.Signed.{ℤ, pos, negsuc}
use pimprof.Common.{BblId, Uuid, uuid_eq, CostSite, cpu, pim}
use pimprof.Common.ControlValue.{get_op_type, get_is_open_mp}
use pimprof.Stats.{find_hash}

-- What a table keeps for each of the MAX_COST_SITE sites.
pub record PerSite {ℓ} (A : Type ℓ) : Type ℓ where
  pub on_cpu : A
  pub on_pim : A

-- `ACCESS_TYPE`
pub data AccessType : Type 0 where
  access_type_load access_type_store : AccessType

-- What the storage is asked for.
pub data Request : Type 0 where
  fetch : (addr size : ℕ) → (bblid : BblId) → (simd_len : ℕ) → Request
  reference :
      (ip addr size : ℕ) → (access_type : AccessType) → (bblid : BblId) → (simd_len : ℕ) → Request

-- `CostPackage`. The first two fields are what the command line says; the last collects the calls of
-- the storage, the last one first. The scopes stand with their top first.
pub record Package {ℓ} (C : Type ℓ) : Type ℓ where
  pub enable_roi : Bool
  pub enable_roi_decision : Bool
  pub bbl_hash : List (Uuid × BblId)
  pub bbl_size : ℕ
  pub in_accelerator_function : Bool
  pub in_omp_parallel : ℤ
  pub bbl_parallelizable : List Bool
  pub thread_count : ℤ
  pub thread_bbl_scope : List (List BblId)
  pub thread_in_roi : List Bool
  pub thread_in_roidecision : List Bool
  pub previous_instr : List ℕ
  pub enter_roi_cnt : ℕ
  pub exit_roi_cnt : ℕ
  pub bbl_instruction_cost : PerSite (List C)
  pub bbl_memory_cost : PerSite (List C)
  pub bbl_instruction_memory_cost : PerSite (List C)
  pub roi_decision : List CostSite
  pub requests : List Request

-- `BBLScope()`
abbrev pub new_scope : List BblId
new_scope = 0 ∷ []

-- `BBLScope::push`
abbrev pub push : BblId → List BblId → List BblId
push bblid scope = bblid ∷ scope

-- `BBLScope::top`
abbrev pub top : List BblId → Option BblId
top [] = none
top (bblid ∷ rest) = some bblid

-- `BBLScope::pop`
abbrev pub pop : List BblId → Option (List BblId)
pop [] = none
pop (bblid ∷ rest) = some rest

-- `v[i] = x`
unfoldable pub write {ℓ} : {A : Type ℓ} → List A → ℕ → A → Option (List A)
write xs i x = get_elem? xs i >>= λ old. some (set xs i x)

-- `n++` of an `int`
abbrev pub increment : ℤ → ℤ
increment (pos n) = pos (suc n)
increment (negsuc zero) = pos 0
increment (negsuc (suc n)) = negsuc n

-- `n--` of an `int`
abbrev pub decrement : ℤ → ℤ
decrement (pos zero) = negsuc 0
decrement (pos (suc n)) = pos n
decrement (negsuc n) = negsuc (suc n)

-- `n > 0`
abbrev pub is_positive : ℤ → Bool
is_positive (pos zero) = false
is_positive (pos (suc n)) = true
is_positive (negsuc n) = false

-- `if (flag)` of a 64-bit word
abbrev pub is_set : ℕ → Bool
is_set flag = not (flag == 0)

module _ {ℓ} {C : Type ℓ} ⦃d : Double C⦄ where
  open d use {nought}

  abbrev both_empty : PerSite (List C)
  both_empty = record { on_cpu = []; on_pim = [] }

  -- The package before the program starts.
  unfoldable pub new_package : Bool → Bool → Package C
  new_package roi roidecision = record {
    enable_roi = roi;
    enable_roi_decision = roidecision;
    bbl_hash = [];
    bbl_size = 0;
    in_accelerator_function = false;
    in_omp_parallel = pos 0;
    bbl_parallelizable = [];
    thread_count = pos 0;
    thread_bbl_scope = [];
    thread_in_roi = [];
    thread_in_roidecision = [];
    previous_instr = [];
    enter_roi_cnt = 0;
    exit_roi_cnt = 0;
    bbl_instruction_cost = both_empty;
    bbl_memory_cost = both_empty;
    bbl_instruction_memory_cost = both_empty;
    roi_decision = [];
    requests = [];
  }

  abbrev pub push_nought : PerSite (List C) → PerSite (List C)
  push_nought s = record { on_cpu = s.on_cpu ++ (nought ∷ []); on_pim = s.on_pim ++ (nought ∷ []) }

  -- `initializeNewBBL`
  unfoldable pub initialize_new_bbl : Uuid → Package C → Package C
  initialize_new_bbl bblhash p = record p {
    bbl_hash = (bblhash, p.bbl_size) ∷ p.bbl_hash;
    bbl_size = suc p.bbl_size;
    bbl_parallelizable = p.bbl_parallelizable ++ (p.enable_roi ∷ []);
    bbl_instruction_cost = push_nought p.bbl_instruction_cost;
    bbl_memory_cost = push_nought p.bbl_memory_cost;
    roi_decision = if p.enable_roi_decision then p.roi_decision ++ (cpu ∷ []) else p.roi_decision;
    bbl_instruction_memory_cost = push_nought p.bbl_instruction_memory_cost;
  }

  -- The number of a basic block, which gets one at its first head.
  unfoldable pub numbered : Uuid → Package C → BblId × Package C
  unfolding find_hash initialize_new_bbl
  numbered bblhash p = elim (find_hash bblhash p.bbl_hash) [
    | some bblid ↦ (bblid, p)
    | none ↦ (p.bbl_size, initialize_new_bbl bblhash p)
  ]

  -- The decision of a region that the program marks for the PIM side.
  unfoldable pub place_on_pim : BblId → Package C → Option (Package C)
  unfolding write
  place_on_pim bblid p = do
    decided ← write p.roi_decision bblid pim
    parallel ← write p.bbl_parallelizable bblid true
    some (record p { roi_decision = decided; bbl_parallelizable = parallel })

  -- `DoAtAnnotationHead`
  unfoldable pub do_at_annotation_head : ℕ → ℕ → ℕ → ℕ → Package C → Option (Package C)
  unfolding numbered write place_on_pim
  do_at_annotation_head hi lo isomp threadid p0 = do
    let known = numbered (record { first = hi; second = lo }) p0
    let bblid = known.0
    let p1 = known.1
    let in_parallel = if is_set isomp then increment p1.in_omp_parallel else p1.in_omp_parallel
    was ← get_elem? p1.bbl_parallelizable bblid
    parallel ←
        write p1.bbl_parallelizable bblid
          (if threadid == 1 then true else was || is_positive in_parallel)
    let p2 = record p1 { in_omp_parallel = in_parallel; bbl_parallelizable = parallel }
    in_region ←
        (if p2.enable_roi_decision then get_elem? p2.thread_in_roidecision threadid else some false)
    p3 ← (if in_region then place_on_pim bblid p2 else some p2)
    scope ← get_elem? p3.thread_bbl_scope threadid
    scopes ← write p3.thread_bbl_scope threadid (push bblid scope)
    some (record p3 { thread_bbl_scope = scopes })

  -- `_bbl_hash[bblhash]`, which enters a missing hash with the number 0
  unfoldable pub hash_or_insert : Uuid → Package C → BblId × Package C
  unfolding find_hash
  hash_or_insert bblhash p = elim (find_hash bblhash p.bbl_hash) [
    | some bblid ↦ (bblid, p)
    | none ↦ (0, record p { bbl_hash = (bblhash, 0) ∷ p.bbl_hash })
  ]

  -- `DoAtAnnotationTail`
  unfoldable pub do_at_annotation_tail : ℕ → ℕ → ℕ → ℕ → Package C → Option (Package C)
  unfolding hash_or_insert write
  do_at_annotation_tail hi lo isomp threadid p0 = do
    let in_parallel = if is_set isomp then decrement p0.in_omp_parallel else p0.in_omp_parallel
    let p1 = record p0 { in_omp_parallel = in_parallel }
    scope ← get_elem? p1.thread_bbl_scope threadid
    current ← top scope
    let known = hash_or_insert (record { first = hi; second = lo }) p1
    assert_that (current == known.0)
    left ← pop scope
    scopes ← write p1.thread_bbl_scope threadid left
    some (record (known.1) { thread_bbl_scope = scopes })

  -- `DoAtROIHead` and `DoAtROITail`
  unfoldable pub set_in_roi : Bool → ℕ → Package C → Option (Package C)
  unfolding write
  set_in_roi inside threadid p =
      if p.enable_roi
      then (write p.thread_in_roi threadid inside >>= λ flags.
          some (record p { thread_in_roi = flags }))
      else some p

  -- `DoAtROIDecisionHead`
  unfoldable pub do_at_roi_decision_head : ℕ → Package C → Option (Package C)
  unfolding write
  do_at_roi_decision_head threadid p =
      if p.enable_roi_decision
      then (do
        inside ← get_elem? p.thread_in_roidecision threadid
        flags ← write p.thread_in_roidecision threadid true
        some (record p {
          enter_roi_cnt = if inside then p.enter_roi_cnt else (p.enter_roi_cnt + 1) % u64_mod;
          thread_in_roidecision = flags;
        }))
      else some p

  -- `DoAtROIDecisionTail`
  unfoldable pub do_at_roi_decision_tail : ℕ → Package C → Option (Package C)
  unfolding write
  do_at_roi_decision_tail threadid p =
      if p.enable_roi_decision
      then (do
        inside ← get_elem? p.thread_in_roidecision threadid
        flags ← write p.thread_in_roidecision threadid false
        some (record p {
          exit_roi_cnt = if inside then (p.exit_roi_cnt + 1) % u64_mod else p.exit_roi_cnt;
          thread_in_roidecision = flags;
        }))
      else some p

  -- `DoAtAcceleratorHead` and `DoAtAcceleratorTail`
  abbrev pub set_accelerator : Bool → Package C → Package C
  set_accelerator inside p = record p { in_accelerator_function = inside }

  -- The `switch` of `HandleMagic`
  unfoldable pub handle_op : ℕ → ℕ → ℕ → ℕ → ℕ → Package C → Option (Package C)
  unfolding do_at_annotation_head do_at_annotation_tail set_in_roi do_at_roi_decision_head
      do_at_roi_decision_tail
  handle_op op hi lo isomp threadid p =
      if op == 0
      then do_at_annotation_head hi lo isomp threadid p
      else if op == 1
      then do_at_annotation_tail hi lo isomp threadid p
      else if op == 2
      then set_in_roi true threadid p
      else if op == 3
      then set_in_roi false threadid p
      else if op == 4
      then do_at_roi_decision_head threadid p
      else if op == 5
      then do_at_roi_decision_tail threadid p
      else none

  -- `HandleMagic`
  unfoldable pub handle_magic : ℕ → ℕ → ℕ → ℕ → Package C → Option (Package C)
  unfolding handle_op get_op_type get_is_open_mp
  handle_magic hi lo control_value threadid p =
      handle_op (get_op_type control_value) hi lo (get_is_open_mp control_value) threadid p

  -- `ThreadStart`
  unfoldable pub thread_start : Package C → Package C
  thread_start p = record p {
    thread_bbl_scope = p.thread_bbl_scope ++ (new_scope ∷ []);
    thread_in_roi = p.thread_in_roi ++ (not p.enable_roi ∷ []);
    thread_in_roidecision = p.thread_in_roidecision ++ (not p.enable_roi_decision ∷ []);
    previous_instr = p.previous_instr ++ (0 ∷ []);
    thread_count = increment p.thread_count;
  }

  -- `ThreadFinish`
  abbrev pub thread_finish : Package C → Package C
  thread_finish p = record p { thread_count = decrement p.thread_count }
