-- ===== src/Solver/Driver.antt =====
-- `CommandLineParser::initialize`, `CostSolver::initialize` and `PrintSolution`. What `getopt_long`
-- finds is given as a list of options; `none` is a failed assertion, an exit with the usage, or a
-- fault of a policy. The report on
-- the decision is what `print_decision` prints; the console output of the policies is left out.
pub mod Whole
mod Tests
use pimprof.Base.{
  ℕ, ◌+◌, ◌*◌, ◌%◌, Bool, true, false, ◌||◌, List, [], ◌∷◌, ◌++◌, Option, none, some, length,
  if◌then◌else◌, ◌>>=◌, ◌>>◌, assert_that, Double, not,
}
use pimprof.Common.{Uuid, CostSite, cpu, pim, Decision}
use pimprof.DataReuse.Switch.{Rows}
use pimprof.Solver.RunStats.{ThreadRunStats}
use pimprof.Solver.Cost.{Solver, elapsed_time_of}
use pimprof.Solver.Align.{get_bbl_sorted_stats}
use pimprof.Solver.Policies.{
  FileDecision, ScaResult, print_mpki_stats, print_greedy_stats, print_cts_stats, sca_decision,
  best_sca,
}
use pimprof.Solver.Input.{
  Word, ReuseLine, StatsLine, Input, PairCosts, new_input, parse_decision, parse_sca_decision,
  parse_stats, parse_reuse,
}
use pimprof.Base.Signed.{Signed}
use pimprof.Solver.Report.{Report, print_decision}
use pimprof.Solver.Revise.{print_sca_stats_from_file}
use pimprof.Solver.Reuse.{DataReuse, print_reuse_stats, hierarchical_decision}

pub data Mode : Type 0 where
  mpki para reuse debug : Mode

-- The characters of a file name.
abbrev pub FileName : Type 0
FileName = List ℕ

pub record CommandLine {ℓ} (C : Type ℓ) : Type ℓ where
  pub decision_file : FileName
  pub sca_decision_file : FileName
  pub cpustatsfile : FileName
  pub pimstatsfile : FileName
  pub reusefile : FileName
  pub outputfile : FileName
  pub data_move_threshold : C
  pub mode : Mode

-- An option with its argument, as `getopt_long` returns it.
pub data Opt {ℓ} (C : Type ℓ) : Type ℓ where
  opt_t opt_s opt_c opt_p opt_r opt_o : (arg : FileName) → Opt C
  opt_d : (threshold : C) → Opt C
  opt_help : Opt C

-- Which options a mode accepts; `getopt_long` returns `?` for another one.
unfoldable pub accepts {ℓ} : {C : Type ℓ} → Mode → Opt C → Bool
accepts m (opt_c arg) = true
accepts m (opt_p arg) = true
accepts m (opt_r arg) = true
accepts m (opt_o arg) = true
accepts reuse (opt_t arg) = true
accepts reuse (opt_s arg) = true
accepts reuse (opt_d threshold) = true
accepts m _ = false

-- `name == ""`
abbrev pub missing : FileName → Bool
missing [] = true
missing (_ ∷ _) = false

module _ {ℓ} {C : Type ℓ} where
  -- One round of the `switch`.
  unfoldable pub take_option : Opt C → CommandLine C → Option (CommandLine C)
  take_option (opt_t arg) c = some (record c { decision_file = arg })
  take_option (opt_s arg) c = some (record c { sca_decision_file = arg })
  take_option (opt_c arg) c = some (record c { cpustatsfile = arg })
  take_option (opt_p arg) c = some (record c { pimstatsfile = arg })
  take_option (opt_r arg) c = some (record c { reusefile = arg })
  take_option (opt_o arg) c = some (record c { outputfile = arg })
  take_option (opt_d threshold) c = some (record c { data_move_threshold = threshold })
  take_option opt_help c = none

  unfoldable pub take_options : List (Opt C) → CommandLine C → Option (CommandLine C)
  unfolding accepts take_option
  take_options [] c = some c
  take_options (o ∷ rest) c = do
    assert_that (accepts c.mode o)
    c' ← take_option o c
    take_options rest c'

  -- The files that a mode needs.
  unfoldable pub complete : CommandLine C → Bool
  complete c =
      let basic = not (missing c.cpustatsfile || missing c.pimstatsfile || missing c.outputfile) in
      elim c.mode [
        | mpki ↦ basic
        | para ↦ false
        | reuse ↦ not (
            not basic
            || missing c.reusefile
            || missing c.sca_decision_file
            || missing c.decision_file)
        | debug ↦ not (not basic || missing c.reusefile)
      ]

  -- `CommandLineParser::initialize`, for a mode that the first argument named.
  unfoldable pub parse_command_line : C → Mode → List (Opt C) → Option (CommandLine C)
  unfolding take_options complete
  parse_command_line threshold mode opts = do
    c ← take_options opts (record {
      decision_file = [];
      sca_decision_file = [];
      cpustatsfile = [];
      pimstatsfile = [];
      reusefile = [];
      outputfile = [];
      data_move_threshold = threshold;
      mode = mode;
    })
    assert_that (complete c)
    some c

-- The contents of the five files.
pub record Files {ℓ} (C : Type ℓ) : Type ℓ where
  pub decisions : List (Uuid × Word)
  pub sca_decisions : List (Uuid × Word × ℕ)
  pub cpustats : List (StatsLine C)
  pub pimstats : List (StatsLine C)
  pub reuse_lines : List ReuseLine

-- The solver after `initialize`.
pub record Ready {ℓ} (C : Type ℓ) : Type ℓ where
  pub solver : Solver C
  pub input : Input C
  pub cts : FileDecision
  pub sca : FileDecision

abbrev pub by_site {ℓ} : {C : Type ℓ} → C → C → CostSite → C
by_site on_cpu on_pim cpu = on_cpu
by_site on_cpu on_pim _ = on_pim

abbrev pub mpki_threshold : ℕ
mpki_threshold = 5

abbrev pub parallelism_threshold : ℕ
parallelism_threshold = 15

module _ {ℓ} {C : Type ℓ} ⦃d : Double C⦄ where
  open d use {nought, of_count, div}

  -- The constants of `initialize`, with the statistics as `getBBLSortedStats` gives them.
  unfoldable pub make_solver : List (ThreadRunStats C) → List (ThreadRunStats C) → Rows → Solver C
  make_solver cpu_stats pim_stats rows = record {
    cpu_stats = cpu_stats;
    pim_stats = pim_stats;
    flush_cost = by_site (of_count 60) (of_count 30);
    fetch_cost = by_site (of_count 60) (of_count 30);
    switch_cost = by_site (of_count 800) (of_count 800);
    switch_count = rows;
    batch_threshold = div (of_count 1) (of_count 1000);
    batch_size = 10;
  }

  unfoldable pub initialize : Files C → Option (Ready C)
  unfolding parse_decision parse_sca_decision parse_stats parse_reuse get_bbl_sorted_stats
      make_solver
  initialize files = do
    cts ← parse_decision files.decisions []
    sca ← parse_sca_decision files.sca_decisions []
    on_cpu ← parse_stats files.cpustats 0 []
    on_pim ← parse_stats files.pimstats 0 []
    input ← parse_reuse files.reuse_lines new_input
    sorted ← get_bbl_sorted_stats on_cpu on_pim
    some (record {
      solver = make_solver sorted.0 sorted.1 input.switchcnt;
      input = input;
      cts = cts;
      sca = sca;
    })

  -- `PrintSolution`: the decision of the mode, and what `PrintDecision` says of it. In the reuse mode
  -- the policy of the first file gives the decision to compare with, and the static policy, which may
  -- fault, runs after the search; in the other modes the decision to compare with is empty.
  module _ ⦃g : Signed C⦄ where
    unfoldable pub print_solution :
        (PairCosts C → PairCosts C) → C → C → ℕ → Mode → Ready C → Option (Decision × Report C)
    unfolding print_mpki_stats print_reuse_stats hierarchical_decision print_sca_stats_from_file
        print_cts_stats print_decision
    print_solution order threshold show_threshold fuel mpki r = do
      let decision = print_mpki_stats mpki_threshold parallelism_threshold r.solver
      report ← print_decision show_threshold fuel decision [] r.sca r.solver r.input.reuse.root
      some (decision, report)
    print_solution order threshold show_threshold fuel para r = do
      report ← print_decision show_threshold fuel [] [] r.sca r.solver r.input.reuse.root
      some ([], report)
    print_solution order threshold show_threshold fuel reuse r = do
      (decision, _, _) ← print_reuse_stats r.solver r.input.reuse
      (_, sca) ←
          print_sca_stats_from_file order threshold r.solver r.input.cl_dm r.input.reg_dm r.sca
      let cts = print_cts_stats r.cts r.solver
      report ← print_decision show_threshold fuel decision cts sca r.solver r.input.reuse.root
      some (decision, report)
    print_solution order threshold show_threshold fuel debug r = do
      (decision, _, _) ← hierarchical_decision r.solver r.input.reuse
      report ← print_decision show_threshold fuel decision [] r.sca r.solver r.input.reuse.root
      some (decision, report)
