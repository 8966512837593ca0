-- ===== src/Injection/Runs.antt =====
-- What a module does when it runs: the calls that its magic instructions make on the statistics of
-- its thread. The simulator between them is not part of the repository; Common.h gives the commands.
use pimprof.Base.{
  ℕ, zero, suc, ◌≡◌, ◌≢◌, ◌⊎◌, true, false, List, [], ◌∷◌, ◌++◌, Option, some, get_elem?, ◌>>=◌,
  ◌==◌, if◌then◌else◌, Double,
}
use pimprof.Stats.{
  ThreadStats, bbl_start, bbl_end, offload_start, offload_end, add_time_instruction, add_memory,
}
use pimprof.Injection.{
  Code, plain, call, sim_magic0, sim_magic2, pimprof_magic, vtune_call, Block, Func, bbl_start_op,
  bbl_end_op,
}
use pimprof.Injection.Offload.{offload_start_op, offload_end_op}

-- The time and the accesses that an instruction costs.
pub data Work : Type 0 where
  time : (fs instr : ℕ) → Work
  memory : (n : ℕ) → Work

pub data Event : Type 0 where
  work : Work → Event
  enters leaves : (hi lo : ℕ) → Event
  offloads returns : (hi type : ℕ) → Event

-- The events of `SimMagic2`; other commands make none.
abbrev pub magic_events : ℕ → ℕ → ℕ → List Event
magic_events op a b =
    if op == bbl_start_op
    then enters a b ∷ []
    else if op == bbl_end_op
    then leaves a b ∷ []
    else if op == offload_start_op
    then offloads a b ∷ []
    else if op == offload_end_op
    then returns a b ∷ []
    else []

abbrev pub works : List Work → List Event
works [] = []
works (w ∷ ws) = work w ∷ works ws

-- The events of an instruction sequence. An instruction of the program does some work; a call does
-- what its callee does.
module _ (callee : ℕ → List Event → Type 0) where
  abbrev pub BodyRun : List Code → List Event → Type 0
  BodyRun [] es = es ≡ []
  BodyRun (plain text ∷ rest) es =
      (ws : List Work) × (later : List Event) × (es ≡ works ws ++ later) × BodyRun rest later
  BodyRun (call f ∷ rest) es =
      (inner later : List Event) × (es ≡ inner ++ later) × callee f inner × BodyRun rest later
  BodyRun (sim_magic0 op ∷ rest) es = BodyRun rest es
  BodyRun (sim_magic2 op a b ∷ rest) es =
      (later : List Event) × (es ≡ magic_events op a b ++ later) × BodyRun rest later
  BodyRun (pimprof_magic a b c ∷ rest) es = BodyRun rest es
  BodyRun (vtune_call a b c ∷ rest) es = BodyRun rest es

  -- A walk from block to block up to the first return; no block branches to the entry.
  abbrev pub PathRun : List Block → ℕ → List ℕ → List Event → Type 0
  PathRun blocks i [] es =
      (b : Block) × (get_elem? blocks i ≡ some b) × (b.returns ≡ true) × BodyRun b.body es
  PathRun blocks i (j ∷ path) es =
      (b : Block) × (get_elem? blocks i ≡ some b)
      × (b.returns ≡ false)
      × (j ≢ 0)
      × (inner later : List Event) × (es ≡ inner ++ later)
      × BodyRun b.body inner
      × PathRun blocks j path later

-- A function runs from its entry; one of another module does some work. `depth` bounds the calls that
-- are open at once.
abbrev pub FuncRun : List Func → ℕ → ℕ → List Event → Type 0
FuncRun m zero f es = ⊥
FuncRun m (suc depth) f es =
    (fn : Func) × (get_elem? m f ≡ some fn)
    × (((fn.blocks ≡ []) × (ws : List Work) × (es ≡ works ws))
        ⊎ ((path : List ℕ) × PathRun (FuncRun m depth) fn.blocks 0 path es))

module _ {ℓ} {C : Type ℓ} ⦃d : Double C⦄ where
  unfoldable pub step : Event → ThreadStats C → Option (ThreadStats C)
  unfolding bbl_start bbl_end offload_start offload_end add_time_instruction add_memory
  step (work (time fs instr)) t = add_time_instruction fs instr t
  step (work (memory n)) t = add_memory n t
  step (enters hi lo) t = bbl_start hi lo t
  step (leaves hi lo) t = bbl_end hi lo t
  step (offloads hi type) t = offload_start hi type t
  step (returns hi type) t = offload_end hi type t

  -- The calls in their order.
  unfoldable pub run_events : List Event → ThreadStats C → Option (ThreadStats C)
  unfolding step
  run_events [] t = some t
  run_events (e ∷ es) t = step e t >>= run_events es
