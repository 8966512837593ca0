-- ===== src/Pin/Count.antt =====
-- Simulation.cpp: what the analysis calls of an instruction add to the package. The instruction
-- counts what one thread does, for all of them.
use Prim.Native.String.{String}
use pimprof.Base.{
  ℕ, zero, suc, ◌/◌, Bool, true, false, not, ◌&&◌, ◌||◌, List, [], ◌∷◌, Option, none, some,
  get_elem?, ◌==◌, ltb, if◌then◌else◌, ◌>>=◌, Double,
}
use pimprof.Base.Signed.{ℤ, pos, negsuc}
use pimprof.Common.{BblId, CostSite}
use pimprof.Pin.{Package, PerSite, AccessType, Request, fetch, reference, top, write}

-- `MAX_INDEX`
abbrev pub max_index : ℕ
max_index = 4096

-- `_roi_decision.empty()`
abbrev pub none_decided : List CostSite → Bool
none_decided [] = true
none_decided (s ∷ rest) = false

-- Whether a thread stands for all of them: the only one, or the first that was spawned.
abbrev pub is_sampled : ℤ → ℕ → Bool
is_sampled (pos n) threadid = (n == 1 && threadid == 0) || (ltb 1 n && threadid == 1)
is_sampled (negsuc n) threadid = false

-- A thread count as a factor; it is only used where the count is positive.
abbrev pub threads : ℤ → ℕ
threads (pos n) = n
threads (negsuc n) = 0

-- `_instruction_latency`, `_simd_capability` and `_core_count` of a site
pub record Machine {ℓ} (C : Type ℓ) : Type ℓ where
  pub instruction_latency : List C
  pub simd_capability : ℕ
  pub core_count : ℕ

-- `multiplier`, which only a `simd_len` other than 0 uses; a capability of 0 is then a division by
-- zero.
unfoldable pub simd_multiplier : ℕ → ℕ → Option ℕ
simd_multiplier zero zero = some 1
simd_multiplier zero (suc simd_len) = none
simd_multiplier (suc capability) simd_len =
    some (if ltb (suc capability) simd_len then simd_len / suc capability else 1)

module _ {ℓ} {C : Type ℓ} ⦃d : Double C⦄ where
  open d use {nought, of_count, add, mul, div, le}

  -- A row of `ReadConfig` after `initialize`: the latencies of the opcodes from `j` on. The names of
  -- the opcodes and the values of the file are the libraries'.
  unfoldable pub read_latencies :
      (String → Bool) → (ℕ → String) → (String → C → C) → C → ℕ → ℕ → List C
  read_latencies is_last opcode_string get_real minus_one j zero = []
  read_latencies is_last opcode_string get_real minus_one j (suc left) =
      let latency = get_real (opcode_string j) minus_one in
      (if is_last (opcode_string j) || not (le nought latency) then of_count 1 else latency)
      ∷ read_latencies is_last opcode_string get_real minus_one (suc j) left

  -- The cost of an instruction on a site.
  unfoldable pub instruction_cost : Machine C → ℕ → ℕ → ℕ → Option C
  unfolding simd_multiplier
  instruction_cost m opcode count simd_len = do
    latency ← get_elem? m.instruction_latency opcode
    let cost = mul latency (of_count count)
    multiplier ← simd_multiplier m.simd_capability simd_len
    some (
        if simd_len == 0
        then cost
        else div (mul cost (of_count multiplier)) (of_count m.core_count))

  -- `v[bblid] += cost`
  unfoldable pub add_to : List C → BblId → C → Option (List C)
  unfolding write
  add_to costs bblid cost = get_elem? costs bblid >>= λ old. write costs bblid (add old cost)

  -- `_thread_bbl_scope[threadid].top()`
  unfoldable pub current_block : ℕ → Package C → Option BblId
  current_block threadid p = get_elem? p.thread_bbl_scope threadid >>= top

  -- Whether the analysis calls look at a thread, from the condition of their early return.
  unfoldable pub is_watched : ℕ → Package C → Option Bool
  is_watched threadid p = get_elem? p.thread_in_roi threadid >>= λ in_roi.
      some (in_roi || not (none_decided p.roi_decision))

  -- Whether an instruction that is not SIMD counts as one that can be spread over the cores.
  unfoldable pub is_parallel : ℕ → BblId → Package C → Option Bool
  is_parallel simd_len bblid p =
      if simd_len == 0
      then (if p.in_accelerator_function then some true else get_elem? p.bbl_parallelizable bblid)
      else some false

  module _ (machine : PerSite (Machine C)) where
    -- The loop over the sites.
    unfoldable pub add_instruction_cost :
        ℕ → ℕ → ℕ → BblId → PerSite (List C) → Option (PerSite (List C))
    unfolding instruction_cost add_to
    add_instruction_cost opcode count simd_len bblid costs = do
      cpu_cost ← instruction_cost machine.on_cpu opcode count simd_len
      cpu_costs ← add_to costs.on_cpu bblid cpu_cost
      pim_cost ← instruction_cost machine.on_pim opcode count simd_len
      pim_costs ← add_to costs.on_pim bblid pim_cost
      some (record { on_cpu = cpu_costs; on_pim = pim_costs })

    -- The part of `InstructionCount` for the thread that stands for all.
    unfoldable pub count_sampled : ℕ → Bool → ℕ → BblId → Package C → Option (Package C)
    unfolding add_instruction_cost is_parallel
    count_sampled opcode ismem simd_len bblid p = do
      parallel ← is_parallel simd_len bblid p
      let effective = if parallel then 1 else simd_len
      let counted =
          add_instruction_cost opcode (threads p.thread_count) effective bblid
            p.bbl_instruction_cost
          >>= λ costs. some (record p { bbl_instruction_cost = costs })
      if ismem then some p else counted

    -- `InstructionLatency::InstructionCount`, where `enableglobalbbl()` is true
    unfoldable pub instruction_count : ℕ → Bool → ℕ → ℕ → Package C → Option (Package C)
    unfolding current_block is_watched count_sampled
    instruction_count opcode ismem simd_len threadid p = do
      bblid ← current_block threadid p
      watched ← is_watched threadid p
      if watched && is_sampled p.thread_count threadid
          then count_sampled opcode ismem simd_len bblid p
          else some p

  -- An update of `_previous_instr[threadid]`, and a call of the storage for the sampled thread.
  unfoldable pub note_request : ℕ → (ℕ → ℕ) → Request → Package C → Option (Package C)
  unfolding write
  note_request threadid update request p = do
    count ← get_elem? p.previous_instr threadid
    counts ← write p.previous_instr threadid (update count)
    some (record p {
      previous_instr = counts;
      requests = if is_sampled p.thread_count threadid then request ∷ p.requests else p.requests;
    })

  -- `MemoryLatency::InstrCacheRef`
  unfoldable pub instr_cache_ref : ℕ → ℕ → ℕ → ℕ → Package C → Option (Package C)
  unfolding current_block is_watched note_request
  instr_cache_ref addr size simd_len threadid p = do
    bblid ← current_block threadid p
    watched ← is_watched threadid p
    if watched
        then note_request threadid (λ count. suc count) (fetch addr size bblid simd_len) p
        else some p

  -- `MemoryLatency::DataCacheRef`
  unfoldable pub data_cache_ref : ℕ → ℕ → ℕ → AccessType → ℕ → ℕ → Package C → Option (Package C)
  unfolding current_block is_watched note_request
  data_cache_ref ip addr size access_type simd_len threadid p = do
    bblid ← current_block threadid p
    watched ← is_watched threadid p
    if watched
        then note_request threadid (λ count. 0) (reference ip addr size access_type bblid simd_len)
            p
        else some p
