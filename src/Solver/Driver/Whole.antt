-- ===== src/Solver/Driver/Whole.antt =====
-- From the files of a run to its decision.
use pimprof.Base.{◌≡◌, refl, [], some, length, >>=-eq-some, some_inj, Double, All, foldl}
use pimprof.Common.{Decision}
use pimprof.Solver.Cost.{reuse_cost}
use pimprof.Solver.ReuseCost.{charge, counted_segments}
use pimprof.Solver.Align.Order.{IsSorted, get_bbl_sorted_stats-IsAligned}
use pimprof.Solver.Align.Held.{IsAligned}
use pimprof.Solver.Input.{new_input, parse_decision, parse_sca_decision, parse_stats, parse_reuse}
use pimprof.DataReuse.Trie.Shape.{IsTrie}
use pimprof.Solver.Input.Shape.{
  HasHead, parse_reuse-reuse_cost, parse_stats-IsKeyed, parse_stats-IsUnique,
}
use pimprof.Solver.Driver.{Files, Ready, initialize, make_solver}

module _ {ℓ} {C : Type ℓ} ⦃d : Double C⦄ where
  -- What the policies and the search rely on.
  pub record IsReady (r : Ready C) : Type ℓ where
    pub sorted : IsSorted r.solver.cpu_stats
    pub aligned : IsAligned r.solver.cpu_stats r.solver.pim_stats
    pub same_size : length r.solver.cpu_stats ≡ length r.solver.pim_stats
    pub trie : IsTrie r.input.reuse.root
    pub summed :
        (dec : Decision)
        → reuse_cost dec r.solver r.input.reuse.root
          ≡ foldl (charge dec r.solver) d.nought (counted_segments r.input.reuse.root)

  -- A solver that `initialize` made from its files has its statistics sorted by hash, those of the
  -- memory side aligned with those of the CPU, and a trie of the shape that `UpdateTrie` keeps, of
  -- which `ReuseCost` is the sum over the split segments. Each segment of the reuse file has its head
  -- among its basic blocks.
  pub initialize-IsReady :
      (files : Files C) (r : Ready C)
      → All HasHead files.reuse_lines
      → initialize files ≡ some r
      → IsReady r
  unfolding initialize make_solver
  initialize-IsReady files r h e =
      let (cts, _, e1) = >>=-eq-some (parse_decision files.decisions []) _ e in
      let (sca, _, e2) = >>=-eq-some (parse_sca_decision files.sca_decisions []) _ e1 in
      let (on_cpu, read_cpu, e3) = >>=-eq-some (parse_stats files.cpustats 0 []) _ e2 in
      let (on_pim, read_pim, e4) = >>=-eq-some (parse_stats files.pimstats 0 []) _ e3 in
      let (input, read_reuse, e5) = >>=-eq-some (parse_reuse files.reuse_lines new_input) _ e4 in
      let keyed = parse_stats-IsKeyed files.cpustats 0 [] on_cpu tt read_cpu in
      let unique = parse_stats-IsUnique files.cpustats 0 [] on_cpu tt read_cpu in
      let keyed_pim = parse_stats-IsKeyed files.pimstats 0 [] on_pim tt read_pim in
      let (sorted, found, ordered, _, size, same) =
        get_bbl_sorted_stats-IsAligned on_cpu on_pim keyed unique keyed_pim in
      let made = make_solver sorted.0 sorted.1 input.switchcnt in
      let shape = λ (dec : Decision).
        parse_reuse-reuse_cost files.reuse_lines new_input input dec made h ((refl, tt), tt)
          read_reuse in
      let ready : Ready C = record { solver = made; input = input; cts = cts; sca = sca } in
      let built : ready ≡ r = some_inj (rw found at e5) in
      rw (← built) (record {
        sorted = ordered;
        aligned = same;
        same_size = size;
        trie = (shape []).0;
        summed = λ dec. (shape dec).1;
      })
