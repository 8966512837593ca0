-- ===== src/Solver/Report/Rows.antt =====
-- The lines of the report and the loops over the basic blocks that make them. `none` is an access out
-- of bounds or, in `widen`, a loop that has not ended within the fuel.
use Prim.Native.String.{String}
use pimprof.Base.{
  ℕ, zero, suc, Bool, true, false, ◌&&◌, List, [], ◌∷◌, ◌++◌, Option, none, some, get_elem?,
  if◌then◌else◌, ◌>>=◌, Double,
}
use pimprof.Base.Signed.{Signed}
use pimprof.Common.{BblId, Uuid, CostSite, cpu, pim, site_eq, get_cost_site_string, Decision}
use pimprof.Solver.RunStats.{ThreadRunStats, max_time, parallelism}
use pimprof.Solver.Policies.{FileDecision, find_site}

-- A line of the table: the letters of the three decisions, and what is known of the basic block.
pub record Row {ℓ} (C : Type ℓ) : Type ℓ where
  pub bblid : BblId
  pub decided : String
  pub placed : String
  pub filed : String
  pub parallel : ℕ
  pub bb_count : ℕ
  pub on_cpu : C
  pub on_pim : C
  pub difference : C
  pub bblhash : Uuid

-- `IncorrectCPUDecision`, `IncorrectPIMDecision` and `potential`.
pub record Misplaced {ℓ} (C : Type ℓ) : Type ℓ where
  pub on_cpu : List (Row C)
  pub on_pim : List (Row C)
  pub potential : C

-- `top10PIMProfBB` and `top10SCABB` are maps from costs to basic blocks.
pub record Table {ℓ} (C : Type ℓ) : Type ℓ where
  pub rows : List (Row C)
  pub misplaced : Misplaced C
  pub top_pimprof : List (C × BblId)
  pub top_sca : List (C × BblId)

module _ {ℓ} {C : Type ℓ} ⦃d : Double C⦄ where
  open d use {lt}

  -- `map[key] = i`, in a map that is ascending by its keys.
  unfoldable pub put_top : C → BblId → List (C × BblId) → List (C × BblId)
  put_top key i [] = (key, i) ∷ []
  put_top key i ((k, j) ∷ rest) =
      let later = put_top key i rest in
      if lt key k
      then (key, i) ∷ (k, j) ∷ rest
      else if lt k key
      then (k, j) ∷ later
      else (k, i) ∷ rest

  -- `sorted[site][i]->MaxElapsedTime()`
  unfoldable pub time_at : CostSite → ThreadRunStats C → ThreadRunStats C → Option C
  time_at cpu p q = some (max_time p)
  time_at pim p q = some (max_time q)
  time_at _ p q = none

module _ {ℓ} {C : Type ℓ} ⦃d : Double C⦄ ⦃g : Signed C⦄ where
  open d use {nought, of_count, add, div, lt}
  open g use {sub, neg, abs, is_nought}

  -- The line of basic block `i`. A missing hash of the file is inserted, for the CPU.
  unfoldable pub make_row :
      Decision
      → Decision
      → FileDecision
      → List ℕ
      → ℕ
      → ThreadRunStats C
      → ThreadRunStats C
      → Option (Row C)
  unfolding get_cost_site_string find_site parallelism
  make_row dec cts sca counts i p q = do
    site ← get_elem? dec i
    decided ← get_cost_site_string site
    placed_site ← get_elem? cts i
    placed ← get_cost_site_string placed_site
    filed ← get_cost_site_string (elim (find_site p.bblhash sca) [ none ↦ cpu | some f ↦ f ])
    bb_count ← get_elem? counts i
    some (record {
      bblid = i;
      decided = decided;
      placed = placed;
      filed = filed;
      parallel = parallelism q;
      bb_count = bb_count;
      on_cpu = max_time p;
      on_pim = max_time q;
      difference = sub (max_time p) (max_time q);
      bblhash = p.bblhash;
    })

  -- The two tests on a basic block, which belongs on the other site by more than the threshold. The
  -- letters of the sites are different, so that the site stands for its letter.
  abbrev pub belongs_on_pim : C → CostSite → C → Bool
  belongs_on_pim threshold placed difference = lt threshold difference && site_eq placed cpu

  abbrev pub belongs_on_cpu : C → CostSite → C → Bool
  belongs_on_cpu threshold placed difference = lt difference (neg threshold) && site_eq placed pim

  unfoldable pub note_misplaced : C → CostSite → Row C → Misplaced C → Misplaced C
  note_misplaced threshold placed row m =
      let m1 =
        if belongs_on_pim threshold placed row.difference
        then record m {
          on_cpu = m.on_cpu ++ (row ∷ []);
          potential = add m.potential (abs row.difference);
        }
        else m in
      if belongs_on_cpu threshold placed row.difference
      then record m1 {
        on_pim = m1.on_pim ++ (row ∷ []);
        potential = add m1.potential (abs row.difference);
      }
      else m1

  -- The loop inside `while`, from basic block `i`.
  unfoldable pub misplaced_loop :
      C
      → Decision
      → Decision
      → FileDecision
      → List ℕ
      → ℕ
      → List (ThreadRunStats C)
      → List (ThreadRunStats C)
      → Misplaced C
      → Option (Misplaced C)
  unfolding make_row note_misplaced
  misplaced_loop threshold dec cts sca counts i [] qs m = some m
  misplaced_loop threshold dec cts sca counts i (p ∷ ps) [] m = none
  misplaced_loop threshold dec cts sca counts i (p ∷ ps) (q ∷ qs) m = do
    row ← make_row dec cts sca counts i p q
    placed ← get_elem? cts i
    misplaced_loop threshold dec cts sca counts (suc i) ps qs
        (note_misplaced threshold placed row m)

  -- The first loop; `show` are the least costs of a basic block that a summary lists.
  unfoldable pub table_loop :
      C
      → C × C
      → Decision
      → Decision
      → FileDecision
      → List ℕ
      → ℕ
      → List (ThreadRunStats C)
      → List (ThreadRunStats C)
      → Table C
      → Option (Table C)
  unfolding make_row note_misplaced time_at put_top
  table_loop threshold show dec cts sca counts i [] qs t = some t
  table_loop threshold show dec cts sca counts i (p ∷ ps) [] t = none
  table_loop threshold show dec cts sca counts i (p ∷ ps) (q ∷ qs) t = do
    row ← make_row dec cts sca counts i p q
    decided ← get_elem? dec i
    placed ← get_elem? cts i
    pimprof_cost ← time_at decided p q
    sca_cost ← time_at placed p q
    table_loop threshold show dec cts sca counts (suc i) ps qs (record {
      rows = t.rows ++ (row ∷ []);
      misplaced = note_misplaced threshold placed row t.misplaced;
      top_pimprof =
          if lt show.0 pimprof_cost then put_top pimprof_cost i t.top_pimprof else t.top_pimprof;
      top_sca = if lt show.1 sca_cost then put_top sca_cost i t.top_sca else t.top_sca;
    })

  -- `while (potential == 0)`: the rounds that `fuel` allows, with a threshold of a tenth each time.
  unfoldable pub widen :
      ℕ → C → (C → Misplaced C → Option (Misplaced C)) → Misplaced C → Option (Misplaced C)
  widen zero threshold look m = none
  widen (suc fuel) threshold look m = elim (is_nought m.potential) [
    | false ↦ some m
    | true ↦ look (div threshold (of_count 10)) m >>= widen fuel (div threshold (of_count 10)) look
  ]
