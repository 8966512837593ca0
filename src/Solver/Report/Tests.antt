-- ===== src/Solver/Report/Tests.antt =====
-- Reports on two basic blocks, with times in whole nanoseconds.
use pimprof.Base.{ℕ, ◌<◌, ◌+◌, ◌≡◌, refl, inl, inr, true, false, [], ◌∷◌, none, some, length, arith}
use pimprof.Base.Signed.{ℤ, pos, int_double, int_signed, int-IsOrdered, int-IsSigned}
use pimprof.Common.{cpu, site_eq, pim, Decision}
use pimprof.DataReuse.Trie.{TrieNode, node, nil, child}
use pimprof.Solver.RunStats.{ThreadRunStats, max_elapsed_time}
use pimprof.Solver.Cost.{Solver, cost_of, leaf_cost, reuse_cost}
use pimprof.Solver.Report.Rows.{Table}
use pimprof.Solver.Report.Segments.{reuse_cost_print, reuse_cost_print-reuse_cost}
use pimprof.Solver.Report.Tables.{IsReportable}
use pimprof.Solver.Report.Ends.{print_decision-ends}
use pimprof.Solver.Report.Hangs.{print_decision-hangs}
use pimprof.Solver.Report.{Report, print_table, look_again, print_decision}

abbrev block : ℕ → ℕ → ThreadRunStats ℤ
block id time = record {
  base = record {
    bblid = id;
    bblhash = record { first = id; second = id };
    elapsed_time = pos time;
    instruction_count = 0;
    memory_access = 0;
  };
  thread_elapsed_time = pos time ∷ [];
  sorted_elapsed_time = pos time ∷ [];
  dirty = true;
}

-- Block 0 is faster near the memory, by two milliseconds, and block 1 on the CPU.
abbrev solver : Solver ℤ
solver = record {
  cpu_stats = block 0 3_000_000 ∷ block 1 10 ∷ [];
  pim_stats = block 0 1_000_000 ∷ block 1 30 ∷ [];
  flush_cost = λ site. pos 60;
  fetch_cost = λ site. pos 60;
  switch_cost = λ site. pos 800;
  switch_count =
      record { fromidx = 0; toidxvec = (1, 4) ∷ [] } ∷ record { fromidx = 1; toidxvec = [] } ∷ [];
  batch_threshold = pos 0;
  batch_size = 10;
}

-- One segment, of both blocks.
abbrev trie : TrieNode
trie = node false 0 0 (
    child 1 (node false 0 0 (child 0 (node false 0 0 (child 1 (node true 1 9_000 nil) nil)) nil))
      nil)

abbrev on_cpu : Decision
on_cpu = cpu ∷ cpu ∷ []

abbrev best : Decision
best = pim ∷ cpu ∷ []

on_cpu-IsReportable : IsReportable solver best on_cpu []
on_cpu-IsReportable = record {
  aligned = refl;
  decided = ((inr refl, (inl refl, tt)), refl);
  placed = ((inl refl, (inl refl, tt)), refl);
  filed = tt;
}

best-IsReportable : IsReportable solver best best []
best-IsReportable = record {
  aligned = refl;
  decided = ((inr refl, (inl refl, tt)), refl);
  placed = ((inr refl, (inl refl, tt)), refl);
  filed = tt;
}

-- One round makes the threshold a millisecond.
print_decision-ends_example :
    (report : Report ℤ) × (print_decision (pos 0) 2 best on_cpu [] solver trie ≡ some report)
    × (0 < length report.misplaced_on_cpu + length report.misplaced_on_pim)
unfolding max_elapsed_time site_eq
print_decision-ends_example =
    print_decision-ends int-IsOrdered int-IsSigned (pos 0) solver best on_cpu [] trie 1 2
      on_cpu-IsReportable (omega arith) refl

print_decision-hangs_example :
    (table : Table ℤ) × (print_table
        (pos 0)
        best
        best
        []
        solver
        (cost_of best solver trie)
        (cost_of best solver trie)
      ≡ some table)
    × (int_signed.is_nought table.misplaced.potential ≡ true)
    × ((t : ℤ)
        → int_double.lt t (pos 0) ≡ false
        → look_again best best [] solver t table.misplaced ≡ some table.misplaced)
    × ((fuel : ℕ) → print_decision (pos 0) fuel best best [] solver trie ≡ none)
unfolding max_elapsed_time
print_decision-hangs_example =
    print_decision-hangs int-IsOrdered int-IsSigned (pos 0) solver best best [] trie
      best-IsReportable
      ((λ e. absurd (ground arith), λ e. refl), ((λ e. refl, λ e. absurd (ground arith)), tt))

-- The segment goes from block 1 to block 0 and back.
reuse_lines : (reuse_cost_print best solver trie) ≡ (pos 1_080_000, (pos 1_080_000, (1, 0)) ∷ [])
unfolding reuse_cost_print site_eq leaf_cost
reuse_lines = refl

reuse_cost_print-reuse_cost_example :
    (reuse_cost_print best solver trie).0 ≡ reuse_cost best solver trie
reuse_cost_print-reuse_cost_example =
    reuse_cost_print-reuse_cost best solver trie (λ x. ground arith)
