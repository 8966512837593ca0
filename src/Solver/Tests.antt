-- ===== src/Solver/Tests.antt =====
-- Concrete runs of the solver, with costs in whole nanoseconds.
use mathlib.Core.List.{Mem}
use pimprof.Base.{
  ℕ, ◌≡◌, refl, inr, ◌⊎◌, Bool, true, false, List, [], ◌∷◌, none, some, arith, length, nat_double,
  nat-IsOrdered, foldl, All, ltb,
}
use pimprof.Common.{CostSite, cpu, pim, invalid, Decision}
use pimprof.DataReuse.Trie.{TrieNode, node, nil, child}
use pimprof.Solver.RunStats.{ThreadRunStats, max_elapsed_time, max_time}
use pimprof.Solver.RunStats.Greatest.{max_elapsed_time-greatest}
use pimprof.Solver.Cost.{Solver, cost_of, leaf_cost, reuse_cost}
use pimprof.Solver.ReuseCost.{charge, counted_segments, reuse_cost-charge}
use pimprof.Solver.Search.{permute_decision, flip_twice}
use pimprof.Solver.Search.Batch.{place}
use pimprof.Solver.Search.Optimal.{permute_decision-optimal, IsRound}
use pimprof.Solver.Search.Flips.{IsPriced, flip_twice-IsPriced}
use pimprof.Solver.Reuse.{
  DataReuse, print_reuse_stats, hierarchical_decision, start_from_unimportant_segment, sort_leaves,
}
use pimprof.Solver.Reuse.Complete.{candidates, IsCandidate}
use pimprof.Solver.Reuse.Leaves.{count_upto}
use pimprof.Solver.Reuse.Returns.{IsSearchable, any_below}
use pimprof.Solver.Reuse.Total.{print_reuse_stats-returns-IsBest}
use pimprof.DataReuse.Segment.{Segment}
use pimprof.Util.DisjointSet.Linked.{Linked}
use pimprof.Solver.Groups.{print_disjoint_sets}
use pimprof.Solver.Reuse.Faults.{Matters, searches-none}

-- A basic block that one thread ran for `time`.
abbrev block : ℕ → ℕ → ThreadRunStats ℕ
block id time = record {
  base = record {
    bblid = id;
    bblhash = record { first = id; second = id };
    elapsed_time = time;
    instruction_count = 0;
    memory_access = 0;
  };
  thread_elapsed_time = time ∷ [];
  sorted_elapsed_time = time ∷ [];
  dirty = true;
}

abbrev costs_by_site : ℕ → ℕ → CostSite → ℕ
costs_by_site on_cpu on_pim cpu = on_cpu
costs_by_site on_cpu on_pim _ = on_pim

-- Three basic blocks; control passes from 0 to 1 and from 1 to 2.
abbrev solver : Solver ℕ
solver = record {
  cpu_stats = block 0 10 ∷ block 1 4 ∷ block 2 6 ∷ [];
  pim_stats = block 0 5 ∷ block 1 8 ∷ block 2 6 ∷ [];
  flush_cost = costs_by_site 3 1;
  fetch_cost = costs_by_site 2 4;
  switch_cost = costs_by_site 1 1;
  switch_count =
      record { fromidx = 0; toidxvec = (1, 1) ∷ [] }
      ∷ record { fromidx = 1; toidxvec = (2, 1) ∷ [] }
      ∷ record { fromidx = 2; toidxvec = [] }
      ∷ [];
  batch_threshold = 1;
  batch_size = 3;
}

-- Basic blocks 0 and 1 shared a cache line once, 0 first.
abbrev trie : TrieNode
trie =
    node false 0 0 (
      child 0 (node false 0 0 (child 1 (node false 1 0 (child 0 (node true 0 1 nil) nil)) nil)) nil)

abbrev reuse : DataReuse
reuse = record { root = trie; leaves = record { root_id = 0; path = 0 ∷ 1 ∷ 0 ∷ [] } ∷ [] }

abbrev all_pim : Decision
all_pim = pim ∷ pim ∷ pim ∷ []

abbrev initials : List CostSite
initials = cpu ∷ pim ∷ invalid ∷ []

abbrev after : DataReuse
after = record reuse {
  leaves =
      record { root_id = 0; path = 0 ∷ 1 ∷ 0 ∷ [] }
      ∷ record { root_id = 1; path = 0 ∷ 1 ∷ 0 ∷ [] }
      ∷ record { root_id = 2; path = 0 ∷ 1 ∷ 0 ∷ [] }
      ∷ record { root_id = 3; path = 0 ∷ 1 ∷ 0 ∷ [] }
      ∷ [];
}

ran : print_reuse_stats solver reuse ≡ some (all_pim, 19, after)
unfolding print_reuse_stats max_elapsed_time leaf_cost
ran = refl

abbrev segments : List Segment
segments = record { head = 0; items = 0 ∷ 1 ∷ []; count = 1 } ∷ []

searchable : IsSearchable solver reuse.root (sort_leaves reuse).leaves segments
unfolding print_reuse_stats max_elapsed_time any_below count_upto
searchable = record {
  few = ground arith;
  exports = (refl, refl, tt);
  below = refl;
  rows = ((ground arith, (ground arith, tt)), tt);
  sum = ground arith;
  blocks = ((ground arith, (ground arith, (ground arith, tt))), tt);
  switches = (
    (ground arith, (ground arith, tt)),
    ((ground arith, (ground arith, tt)), ((ground arith, tt), tt)),
  );
}

print_reuse_stats-returns-IsBest_example :
    (cs : List (Decision × ℕ)) × (candidates nat-IsOrdered solver reuse.root 1 initials
        (sort_leaves reuse).leaves
      ≡ some cs)
    × All (IsCandidate nat-IsOrdered solver reuse.root) cs
    × (((dec : Decision) × (total : ℕ) × (reuse' : DataReuse) × (print_reuse_stats solver reuse
            ≡ some (dec, total, reuse'))
          × Mem (dec, total) cs
          × (ltb total 1_000_000_000_000 ≡ true)
          × All (λ c. ltb c.1 total ≡ false) cs)
        ⊎ ((print_reuse_stats solver reuse ≡ none)
            × All (λ c. ltb c.1 1_000_000_000_000 ≡ false) cs))
print_reuse_stats-returns-IsBest_example =
    print_reuse_stats-returns-IsBest nat-IsOrdered solver reuse segments (ground arith) refl
      searchable

abbrev cost : Decision → ℕ
cost dec = cost_of dec solver trie

permute_decision-optimal_example :
    (best : Decision × ℕ) × (permute_decision cost all_pim (0 ∷ 1 ∷ []) ≡ some best)
    × ((choices : List Bool)
        → length choices ≡ 2
        → ltb (cost (place all_pim (0 ∷ 1 ∷ []) choices)) best.1 ≡ false)
    × IsRound nat-IsOrdered cost (0 ∷ 1 ∷ []) all_pim (all_pim, 1_000_000_000_000) best
permute_decision-optimal_example =
    permute_decision-optimal nat-IsOrdered cost all_pim (0 ∷ 1 ∷ []) (ground arith)

reuse_cost-charge_example :
    reuse_cost (pim ∷ cpu ∷ pim ∷ []) solver trie
    ≡ foldl (charge (pim ∷ cpu ∷ pim ∷ []) solver) 0 (counted_segments trie)
reuse_cost-charge_example =
    reuse_cost-charge (pim ∷ cpu ∷ pim ∷ []) solver trie (ground arith) (ground arith)

all_pim-IsPriced : IsPriced cost 3 (all_pim, 19)
unfolding cost_of max_elapsed_time
all_pim-IsPriced = record {
  complete = (inr refl, (inr refl, (inr refl, tt)));
  size_kept = refl;
  priced = refl;
}

flip_twice-IsPriced_example :
    IsPriced cost 3 (flip_twice cost 3 (all_pim, 19))
    × (ltb 19 (flip_twice cost 3 (all_pim, 19)).1 ≡ false)
flip_twice-IsPriced_example =
    flip_twice-IsPriced nat-IsOrdered cost 3 3 (all_pim, 19) all_pim-IsPriced

-- The same system with a threshold that no segment is below.
abbrev strict : Solver ℕ
strict = record solver { batch_threshold = 0 }

leaves-Matter : All (Matters strict reuse.root 1) (sort_leaves reuse).leaves
unfolding print_reuse_stats max_elapsed_time
leaves-Matter = (
  record {
    seg = record { head = 0; items = 0 ∷ 1 ∷ []; count = 1 };
    exported = refl;
    above = refl;
  },
  tt,
)

searches-none_example :
    (print_reuse_stats strict reuse ≡ none)
    × (hierarchical_decision strict reuse ≡ none)
    × (start_from_unimportant_segment strict reuse ≡ none)
searches-none_example = searches-none strict reuse leaves-Matter

-- Two threads.
abbrev threads : ThreadRunStats ℕ
threads = record (block 0 10) {
  thread_elapsed_time = 7 ∷ 10 ∷ [];
  sorted_elapsed_time = 10 ∷ 7 ∷ [];
}

max_elapsed_time-greatest_example :
    All (λ t. ltb (max_time threads) t ≡ false) (10 ∷ 7 ∷ [])
    × ((P : ℕ → Type 0) → All P (10 ∷ 7 ∷ []) → P (max_time threads))
    × (max_time (max_elapsed_time threads).1 ≡ max_time threads)
max_elapsed_time-greatest_example =
    max_elapsed_time-greatest nat-IsOrdered threads refl refl (ground arith)

printed : print_disjoint_sets solver reuse ≡ some ((0 ∷ 1 ∷ []) ∷ [], sort_leaves reuse)
unfolding print_disjoint_sets max_elapsed_time
printed = refl
