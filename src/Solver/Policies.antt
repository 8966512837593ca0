-- ===== src/Solver/Policies.antt =====
-- The policies that decide each basic block by itself: `PrintMPKIStats`, `PrintCTSStatsFromfile`,
-- `PrintSCAStatsFromfile` up to its revision by data movement, `PrintSCAStats` and
-- `PrintGreedyStats`. Each loops over the aligned statistics of the two sites.
pub mod Complete
pub mod Placement
use pimprof.Base.{
  ℕ, ◌+◌, ◌%◌, Bool, ◌&&◌, not, List, [], ◌∷◌, Option, none, some, if◌then◌else◌, ltb, Double,
  u64_mod,
}
use pimprof.Common.{
  Uuid, uuid_eq, CostSite, cpu, pim, follower, site_eq, Decision, global_bblhash, main_bblhash,
}
use pimprof.DataReuse.Trie.{TrieNode}
use pimprof.Solver.RunStats.{ThreadRunStats, max_time, parallelism}
use pimprof.Solver.Cost.{Solver, cost_of, reuse_cost, switch_cost_of, elapsed_time}

-- `DecisionFromFile`; the first entry of a hash counts.
abbrev pub FileDecision : Type 0
FileDecision = List (Uuid × CostSite)

unfoldable pub find_site : Uuid → FileDecision → Option CostSite
unfolding uuid_eq
find_site u [] = none
find_site u ((v, site) ∷ rest) = if uuid_eq v u then some site else find_site u rest

-- `decision[key] = site`, for a key that the file gives again.
unfoldable pub put_site : Uuid → CostSite → FileDecision → FileDecision
unfolding uuid_eq
put_site u site [] = (u, site) ∷ []
put_site u site ((v, old) ∷ rest) =
    if uuid_eq v u then (v, site) ∷ rest else (v, old) ∷ put_site u site rest

-- `Follower` takes the site of the basic block before.
abbrev pub follow : CostSite → CostSite → CostSite
follow pre site = if site_eq site follower then pre else site

-- `bestSCAResult`
pub record ScaResult {ℓ} (C : Type ℓ) : Type ℓ where
  pub total_time : C
  pub elapsed : C × C
  pub reuse : C
  pub switching : C
  pub sca_mpki_threshold : ℕ
  pub sca_parallelism_threshold : ℕ
  pub instr_threshold_percentage : C

module _ {ℓ} {C : Type ℓ} ⦃d : Double C⦄ where
  open d use {of_count, mul, div, truncate, lt, le}

  -- Where a basic block runs faster.
  abbrev pub faster : ThreadRunStats C → ThreadRunStats C → CostSite
  faster p q = if le (max_time p) (max_time q) then cpu else pim

  -- The sum of the instruction counts, in 64 bits.
  unfoldable pub total_instr : ℕ → List (ThreadRunStats C) → ℕ
  total_instr acc [] = acc
  total_instr acc (q ∷ qs) = total_instr ((acc + q.instruction_count) % u64_mod) qs

  -- Memory accesses per thousand instructions.
  abbrev pub mpki_of : ThreadRunStats C → C
  mpki_of q = mul (div (of_count q.memory_access) (of_count q.instruction_count)) (of_count 1000)

  -- `PrintMPKIStats`: the loop.
  unfoldable pub mpki_loop :
      ℕ → ℕ → ℕ → List (ThreadRunStats C) → List (ThreadRunStats C) → Decision
  unfolding uuid_eq parallelism
  mpki_loop mpki_threshold parallelism_threshold instr_threshold (p ∷ ps) (q ∷ qs) =
      (if uuid_eq p.bblhash global_bblhash
        then cpu
        else if lt (of_count mpki_threshold) (mpki_of q)
            && ltb parallelism_threshold (parallelism q)
            && lt (of_count instr_threshold) (of_count q.instruction_count)
        then pim
        else cpu)
      ∷ mpki_loop mpki_threshold parallelism_threshold instr_threshold ps qs
  mpki_loop mpki_threshold parallelism_threshold instr_threshold _ _ = []

  -- `PrintMPKIStats`, with the thresholds of the solver; a hundredth of all instructions is the
  -- threshold of instructions.
  unfoldable pub print_mpki_stats : ℕ → ℕ → Solver C → Decision
  unfolding total_instr mpki_loop
  print_mpki_stats mpki_threshold parallelism_threshold s =
      let pim_total_instr = total_instr 0 s.pim_stats in
      let instr_threshold =
        truncate (mul (of_count pim_total_instr) (div (of_count 1) (of_count 100))) in
      mpki_loop mpki_threshold parallelism_threshold instr_threshold s.cpu_stats s.pim_stats

  -- `PrintCTSStatsFromfile`: the loop.
  unfoldable pub cts_loop :
      FileDecision → List (ThreadRunStats C) → List (ThreadRunStats C) → Decision
  unfolding uuid_eq find_site
  cts_loop file (p ∷ ps) (q ∷ qs) =
      (if uuid_eq p.bblhash main_bblhash
        then faster p q
        else elim (find_site p.bblhash file) [ none ↦ cpu | some site ↦ site ])
      ∷ cts_loop file ps qs
  cts_loop file _ _ = []

  unfoldable pub print_cts_stats : FileDecision → Solver C → Decision
  unfolding cts_loop
  print_cts_stats file s = cts_loop file s.cpu_stats s.pim_stats

  -- `PrintSCAStatsFromfile`: the site of one basic block, and the loop.
  unfoldable pub sca_site : FileDecision → CostSite → ThreadRunStats C → ThreadRunStats C → CostSite
  unfolding uuid_eq find_site site_eq
  sca_site file pre p q =
      if uuid_eq p.bblhash main_bblhash
      then faster p q
      else elim (find_site p.bblhash file) [ none ↦ cpu | some site ↦ follow pre site ]

  unfoldable pub sca_loop :
      FileDecision → CostSite → List (ThreadRunStats C) → List (ThreadRunStats C) → Decision
  unfolding sca_site
  sca_loop file pre (p ∷ ps) (q ∷ qs) =
      sca_site file pre p q ∷ sca_loop file (sca_site file pre p q) ps qs
  sca_loop file pre _ _ = []

  unfoldable pub sca_decision : FileDecision → Solver C → Decision
  unfolding sca_loop
  sca_decision file s = sca_loop file pim s.cpu_stats s.pim_stats

  -- `PrintSCAStats`: the loop; its comparisons of the counters are not strict.
  unfoldable pub sca_stats_loop :
      ℕ → ℕ → ℕ → List (ThreadRunStats C) → List (ThreadRunStats C) → Decision
  unfolding uuid_eq parallelism
  sca_stats_loop mpki_threshold parallelism_threshold instr_threshold (p ∷ ps) (q ∷ qs) =
      (if uuid_eq p.bblhash global_bblhash
        then cpu
        else if le (of_count mpki_threshold) (mpki_of q)
            && ltb parallelism_threshold (parallelism q)
            && le (of_count instr_threshold) (of_count q.instruction_count)
        then pim
        else cpu)
      ∷ sca_stats_loop mpki_threshold parallelism_threshold instr_threshold ps qs
  sca_stats_loop mpki_threshold parallelism_threshold instr_threshold _ _ = []

  -- The outcome of a policy, with the parts of its cost.
  abbrev pub sca_result : Solver C → TrieNode → ℕ → ℕ → C → Decision → ScaResult C
  sca_result s own mpki_threshold parallelism_threshold percentage decision = record {
    total_time = cost_of decision s own;
    elapsed = elapsed_time decision s;
    reuse = reuse_cost decision s own;
    switching = switch_cost_of decision s;
    sca_mpki_threshold = mpki_threshold;
    sca_parallelism_threshold = parallelism_threshold;
    instr_threshold_percentage = percentage;
  }

  unfoldable pub print_sca_stats : ℕ → ℕ → C → Solver C → TrieNode → ScaResult C
  unfolding total_instr sca_stats_loop cost_of
  print_sca_stats mpki_threshold parallelism_threshold percentage s own =
      let instr_threshold = truncate (mul (of_count (total_instr 0 s.pim_stats)) percentage) in
      sca_result s own mpki_threshold parallelism_threshold percentage (
        sca_stats_loop mpki_threshold parallelism_threshold instr_threshold s.cpu_stats s.pim_stats)

  -- `std::min(best, next)` by the total time: `best` unless `next` is below it.
  unfoldable pub min_result : ScaResult C → ScaResult C → ScaResult C
  min_result best next = if lt next.total_time best.total_time then next else best

  -- `PrintSolution`: the best of the configurations tried, in their order.
  unfoldable pub best_sca : ScaResult C → List (ℕ × ℕ × C) → Solver C → TrieNode → ScaResult C
  unfolding min_result print_sca_stats
  best_sca best [] s own = best
  best_sca best ((i, k, j) ∷ rest) s own =
      best_sca (min_result best (print_sca_stats i k j s own)) rest s own

  -- `PrintGreedyStats`
  unfoldable pub greedy_loop : List (ThreadRunStats C) → List (ThreadRunStats C) → Decision
  greedy_loop (p ∷ ps) (q ∷ qs) = faster p q ∷ greedy_loop ps qs
  greedy_loop _ _ = []

  unfoldable pub print_greedy_stats : Solver C → Decision
  unfolding greedy_loop
  print_greedy_stats s = greedy_loop s.cpu_stats s.pim_stats
