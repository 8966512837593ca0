-- ===== src/Solver/Report.antt =====
-- `PrintDecision` and `ReuseCostPrint` of CostSolver.cpp, with the report as data. `none` is an access
-- out of bounds, or the loop of `widen` that has not ended within the fuel.
pub mod Rows
pub mod Segments
pub mod Letters
pub mod Loop
pub mod Tables
pub mod Ends
pub mod Hangs
mod Tests
use Prim.Native.String.{String}
use pimprof.Base.{
  ℕ, zero, suc, Bool, true, false, not, ◌&&◌, ◌||◌, List, [], ◌∷◌, ◌++◌, Option, none, some, length,
  get_elem?, leb, ◌==◌, if◌then◌else◌, ◌>>=◌, ◌>>◌, assert_that, Double,
}
use pimprof.Base.Signed.{Signed}
use pimprof.Common.{
  BblId, Uuid, CostSite, cpu, pim, site_eq, site_at, get_cost_site_string, Decision,
}
use pimprof.DataReuse.Trie.{TrieNode, Children, node, nil, child, children_of}
use pimprof.Solver.Cost.{Solver, cost_of, elapsed_time, bb_times_from_switch_info}
use pimprof.Solver.Policies.{FileDecision}
use pimprof.Solver.Report.Rows.{Row, Misplaced, Table, make_row, misplaced_loop, table_loop, widen}
use pimprof.Solver.Report.Segments.{reuse_cost_print}

pub record Report {ℓ} (C : Type ℓ) : Type ℓ where
  pub rows : List (Row C)
  pub top_pimprof : List (Row C × C)
  pub show_pimprof : C
  pub top_sca : List (Row C × C)
  pub show_sca : C
  pub misplaced_on_cpu : List (Row C)
  pub misplaced_on_pim : List (Row C)
  pub optimize_potential : C
  pub reuse_lines : List (C × (BblId × BblId))

module _ {ℓ} {C : Type ℓ} ⦃d : Double C⦄ ⦃g : Signed C⦄ where
  open d use {nought, of_count, add, mul, div, lt}

  -- The lines of a summary, each with its share of the cost in percent.
  unfoldable pub top_rows :
      Decision
      → Decision
      → FileDecision
      → List ℕ
      → Solver C
      → C
      → List (C × BblId)
      → Option (List (Row C × C))
  unfolding make_row
  top_rows dec cts sca counts s cost [] = some []
  top_rows dec cts sca counts s cost ((key, i) ∷ rest) = do
    p ← get_elem? s.cpu_stats i
    q ← get_elem? s.pim_stats i
    row ← make_row dec cts sca counts i p q
    later ← top_rows dec cts sca counts s cost rest
    some ((row, div (mul key (of_count 100)) cost) ∷ later)

  unfoldable pub sum_keys : C → List (C × BblId) → C
  sum_keys acc [] = acc
  sum_keys acc ((key, i) ∷ rest) = sum_keys (add acc key) rest

  abbrev pub nothing_misplaced : Misplaced C
  nothing_misplaced = record { on_cpu = []; on_pim = []; potential = nought }

  -- The first threshold is ten milliseconds.
  abbrev pub first_threshold : C
  first_threshold = of_count 10_000_000

  -- The first loop over all basic blocks; `show_threshold` is the `float` 0.005.
  unfoldable pub print_table :
      C → Decision → Decision → FileDecision → Solver C → C → C → Option (Table C)
  unfolding table_loop bb_times_from_switch_info
  print_table show_threshold dec cts sca s own_cost sca_cost =
      table_loop first_threshold (mul show_threshold own_cost, mul show_threshold sca_cost) dec cts
        sca (bb_times_from_switch_info dec s.switch_count) 0 s.cpu_stats s.pim_stats
        (record { rows = []; misplaced = nothing_misplaced; top_pimprof = []; top_sca = [] })

  -- The loop inside `while`, over all basic blocks.
  unfoldable pub look_again :
      Decision → Decision → FileDecision → Solver C → C → Misplaced C → Option (Misplaced C)
  unfolding misplaced_loop bb_times_from_switch_info
  look_again dec cts sca s threshold m =
      misplaced_loop threshold dec cts sca (bb_times_from_switch_info dec s.switch_count) 0
        s.cpu_stats s.pim_stats m

  -- What `PrintDecision` prints after its loops.
  abbrev pub report_of :
      Decision
      → Decision
      → Solver C
      → TrieNode
      → C
      → C
      → Table C
      → Misplaced C
      → List (Row C × C)
      → List (Row C × C)
      → Report C
  report_of dec cts s reusetree own_cost sca_cost table m top_pimprof top_sca = record {
    rows = table.rows;
    top_pimprof = top_pimprof;
    show_pimprof = div (mul (sum_keys nought table.top_pimprof) (of_count 100)) own_cost;
    top_sca = top_sca;
    show_sca = div (mul (sum_keys nought table.top_sca) (of_count 100)) sca_cost;
    misplaced_on_cpu = m.on_cpu;
    misplaced_on_pim = m.on_pim;
    optimize_potential = div m.potential (add (elapsed_time dec s).0 (elapsed_time dec s).1);
    reuse_lines = (reuse_cost_print cts s reusetree).1;
  }

  -- `PrintDecision`, when it does not print to the screen. `Cost` reads the decision at every basic
  -- block.
  unfoldable pub print_decision :
      C → ℕ → Decision → Decision → FileDecision → Solver C → TrieNode → Option (Report C)
  unfolding print_table look_again widen top_rows sum_keys reuse_cost_print elapsed_time
  print_decision show_threshold fuel dec cts sca s reusetree = do
    assert_that (leb (length s.cpu_stats) (length dec) && leb (length s.cpu_stats) (length cts))
    let own_cost = cost_of dec s reusetree
    let sca_cost = cost_of cts s reusetree
    table ← print_table show_threshold dec cts sca s own_cost sca_cost
    m ← widen fuel first_threshold (look_again dec cts sca s) table.misplaced
    let counts = bb_times_from_switch_info dec s.switch_count
    top_pimprof ← top_rows dec cts sca counts s own_cost table.top_pimprof
    top_sca ← top_rows dec cts sca counts s sca_cost table.top_sca
    some (report_of dec cts s reusetree own_cost sca_cost table m top_pimprof top_sca)
