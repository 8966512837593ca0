-- ===== src/Solver/Driver/Tests.antt =====
-- A run from its files, with costs in whole nanoseconds.
use pimprof.Base.{
  ℕ, none, ◌≡◌, refl, List, [], ◌∷◌, some, length, foldl, nat_double, All, true, false,
}
use pimprof.DataReuse.Segment.{member}
use pimprof.Common.{Uuid, uuid_eq, cpu, pim, follower}
use pimprof.DataReuse.Trie.{children_of, TrieNode, node, nil, child}
use pimprof.Solver.RunStats.{ThreadRunStats}
use pimprof.Solver.Cost.{Solver, reuse_cost, bfs_assert_all}
use pimprof.Solver.ReuseCost.{charge, counted_segments}
use pimprof.Solver.Align.{get_bbl_sorted_stats}
use pimprof.Solver.Align.Order.{IsSorted, get_bbl_sorted_stats-IsAligned}
use pimprof.Solver.Align.Held.{IsAligned}
use pimprof.Solver.Input.{
  reuse_title, switch_title, segment_line, switch_line, StatsLine, thread_title, block_line, Input,
  new_input, pim_word, follower_word, parse_reuse, parse_stats,
}
use pimprof.DataReuse.Trie.Shape.{IsTrie}
use pimprof.Solver.Input.Shape.{HasHead, parse_reuse-reuse_cost, parse_reuse-bfs_assert}
use pimprof.Solver.Driver.{Files, Ready, initialize, make_solver}
use pimprof.Solver.Driver.Whole.{IsReady, initialize-IsReady}

abbrev hash : ℕ → Uuid
hash n = record { first = n; second = n }

abbrev row : ℕ → ℕ → StatsLine ℕ
row n time = block_line (record {
  bblid = n;
  bblhash = hash n;
  elapsed_time = time;
  instruction_count = 100;
  memory_access = 9;
})

-- Block 2 has run on the CPU only.
abbrev files : Files ℕ
files = record {
  decisions = (hash 1, pim_word) ∷ [];
  sca_decisions = (hash 1, pim_word, 4) ∷ (hash 2, follower_word, 5) ∷ [];
  cpustats = thread_title 0 ∷ row 2 6 ∷ row 0 10 ∷ row 1 4 ∷ [];
  pimstats = thread_title 0 ∷ row 1 8 ∷ row 0 5 ∷ [];
  reuse_lines =
      reuse_title
      ∷ segment_line 0 1 (0 ∷ 1 ∷ [])
      ∷ switch_title
      ∷ switch_line 0 ((1, 1) ∷ [])
      ∷ switch_line 2 ((0, 1) ∷ [])
      ∷ [];
}

heads : All HasHead files.reuse_lines
unfolding member
heads = (tt, (refl, (tt, (tt, (tt, tt)))))

-- A basic block that thread 0 ran for `time`.
abbrev stats : ℕ → ℕ → ℕ → ℕ → ThreadRunStats ℕ
stats n time instructions accesses = record {
  base = record {
    bblid = n;
    bblhash = hash n;
    elapsed_time = time;
    instruction_count = instructions;
    memory_access = accesses;
  };
  thread_elapsed_time = time ∷ [];
  sorted_elapsed_time = time ∷ [];
  dirty = true;
}

abbrev cpu_map : List (Uuid × ThreadRunStats ℕ)
cpu_map = (hash 2, stats 2 6 100 9) ∷ (hash 0, stats 0 10 100 9) ∷ (hash 1, stats 1 4 100 9) ∷ []

abbrev pim_map : List (Uuid × ThreadRunStats ℕ)
pim_map = (hash 1, stats 1 8 100 9) ∷ (hash 0, stats 0 5 100 9) ∷ []

abbrev trie : TrieNode
trie =
    node false 0 0 (
      child 0 (node false 0 0 (child 1 (node false 1 0 (child 0 (node true 0 1 nil) nil)) nil)) nil)

abbrev solver : Solver ℕ
solver =
    make_solver (stats 0 10 100 9 ∷ stats 1 4 100 9 ∷ stats 2 6 100 9 ∷ [])
      (stats 0 5 100 9 ∷ stats 1 8 100 9 ∷ stats 2 0 0 0 ∷ [])
      (record { fromidx = 0; toidxvec = (1, 1) ∷ [] }
        ∷ record { fromidx = 1; toidxvec = [] }
        ∷ record { fromidx = 2; toidxvec = (0, 1) ∷ [] }
        ∷ [])

abbrev input : Input ℕ
input = record {
  reuse = record { root = trie; leaves = record { root_id = 0; path = 0 ∷ 1 ∷ 0 ∷ [] } ∷ [] };
  switchcnt =
      record { fromidx = 0; toidxvec = (1, 1) ∷ [] }
      ∷ record { fromidx = 1; toidxvec = [] }
      ∷ record { fromidx = 2; toidxvec = (0, 1) ∷ [] }
      ∷ [];
  cl_dm = ((0, 0), 1) ∷ ((0, 1), 1) ∷ [];
  reg_dm = ((0, 1), 1) ∷ ((0, 2), 1) ∷ [];
  in_reuse_section = false;
}

abbrev ready : Ready ℕ
ready = record {
  solver = solver;
  input = input;
  cts = (hash 1, pim) ∷ [];
  sca = (hash 1, pim) ∷ (hash 2, follower) ∷ [];
}

made : initialize files ≡ some ready
unfolding initialize
made = refl

initialize-IsReady_example : IsReady ready
initialize-IsReady_example = initialize-IsReady files ready heads made

cpu_read : parse_stats files.cpustats 0 [] ≡ some cpu_map
unfolding parse_stats
cpu_read = refl

get_bbl_sorted_stats-IsAligned_example :
    (sorted : List (ThreadRunStats ℕ) × List (ThreadRunStats ℕ)) × (get_bbl_sorted_stats cpu_map
        pim_map
      ≡ some sorted)
    × IsSorted sorted.0
    × (length sorted.0 ≡ 3)
    × (length sorted.0 ≡ length sorted.1)
    × IsAligned sorted.0 sorted.1
unfolding uuid_eq
get_bbl_sorted_stats-IsAligned_example =
    get_bbl_sorted_stats-IsAligned cpu_map pim_map (refl, (refl, (refl, tt)))
      ((refl, (refl, tt)), ((refl, tt), (tt, tt))) (refl, (refl, tt))

-- Two blocks of the CPU with one hash and different numbers fail the assertion.
collision :
    get_bbl_sorted_stats
      ((hash 1, stats 1 8 100 9)
        ∷ (
          hash 2,
          record (stats 1 8 100 9) {
            base = record {
              bblid = 2;
              bblhash = hash 1;
              elapsed_time = 8;
              instruction_count = 100;
              memory_access = 9;
            };
          },
        )
        ∷ [])
      pim_map
    ≡ none
unfolding get_bbl_sorted_stats
collision = refl

reuse_read : parse_reuse files.reuse_lines new_input ≡ some input
unfolding parse_reuse
reuse_read = refl

parse_reuse-reuse_cost_example :
    IsTrie trie
    × (reuse_cost (pim ∷ cpu ∷ pim ∷ []) solver trie
        ≡ foldl (charge (pim ∷ cpu ∷ pim ∷ []) solver) 0 (counted_segments trie))
parse_reuse-reuse_cost_example =
    parse_reuse-reuse_cost files.reuse_lines new_input input (pim ∷ cpu ∷ pim ∷ []) solver heads
      ((refl, tt), tt) reuse_read

parse_reuse-bfs_assert_example : bfs_assert_all (children_of trie) ≡ true
parse_reuse-bfs_assert_example = parse_reuse-bfs_assert files.reuse_lines input heads reuse_read
