-- ===== src/Solver/Input.antt =====
-- `ParseDecision`, `ParseSCADecision`, `ParseStats` and `ParseReuse`. Splitting a line into words is
-- the library's: a line is given by its words. `none` is a failed assertion.
pub mod Shape
use pimprof.Base.{
  ℕ, ◌+◌, ◌%◌, Bool, true, false, ◌&&◌, List, [], ◌∷◌, Option, none, some, ltb, ◌==◌, if◌then◌else◌,
  ◌>>=◌, ◌||◌, min, max, Double,
}
use pimprof.Common.{BblId, Uuid, CostSite, cpu, pim, follower}
use pimprof.DataReuse.Segment.{Segment, new_segment, insert, set_head, set_count}
use pimprof.DataReuse.Switch.{Rows, row_insert, sort_rows}
use pimprof.DataReuse.Trie.{TrieNode, LeafRef, new_node, update_trie}
use pimprof.Solver.RunStats.{RunStats, ThreadRunStats, new_thread_stats, merge_thread}
use pimprof.Solver.Align.{find_stats, put_stats}
use pimprof.Solver.Policies.{FileDecision, put_site}
use pimprof.Solver.Reuse.{DataReuse}

-- The words that a decision file may use for a site.
pub data Word : Type 0 where
  pim_word cpu_word follower_word other_word : Word

-- `ParseDecision`
unfoldable pub parse_decision : List (Uuid × Word) → FileDecision → Option FileDecision
unfolding put_site
parse_decision [] file = some file
parse_decision ((key, pim_word) ∷ rest) file = parse_decision rest (put_site key pim file)
parse_decision ((key, cpu_word) ∷ rest) file = parse_decision rest (put_site key cpu file)
parse_decision ((key, follower_word) ∷ rest) file = none
parse_decision ((key, other_word) ∷ rest) file = none

-- `ParseSCADecision`; the cycles of a line are read and not used.
unfoldable pub parse_sca_decision : List (Uuid × Word × ℕ) → FileDecision → Option FileDecision
unfolding put_site
parse_sca_decision [] file = some file
parse_sca_decision ((key, pim_word, cycles) ∷ rest) file =
    parse_sca_decision rest (put_site key pim file)
parse_sca_decision ((key, follower_word, cycles) ∷ rest) file =
    parse_sca_decision rest (put_site key follower file)
parse_sca_decision ((key, cpu_word, cycles) ∷ rest) file =
    parse_sca_decision rest (put_site key cpu file)
parse_sca_decision ((key, other_word, cycles) ∷ rest) file = none

-- A line of a reuse file: the two lines of a section's title, a segment, or a row of switch counts.
pub data ReuseLine : Type 0 where
  reuse_title switch_title other_title : ReuseLine
  segment_line : (head : BblId) (count : ℕ) (ids : List BblId) → ReuseLine
  switch_line : (fromidx : BblId) (counts : List (BblId × ℕ)) → ReuseLine

-- `std::map<std::pair<BBLID, BBLID>, COST>`, in the order of its keys.
abbrev pub PairCosts {ℓ} : Type ℓ → Type ℓ
PairCosts C = List ((BblId × BblId) × C)

abbrev pub pair_lt : BblId × BblId → BblId × BblId → Bool
pair_lt a b = ltb a.0 b.0 || (a.0 == b.0 && ltb a.1 b.1)

abbrev pub pair_eq : BblId × BblId → BblId × BblId → Bool
pair_eq a b = a.0 == b.0 && a.1 == b.1

-- The segment of a line: `insert` for each identifier.
unfoldable pub read_ids : List BblId → Segment → Segment
unfolding insert
read_ids [] seg = seg
read_ids (id ∷ ids) seg = read_ids ids (insert id seg)

pub record Input {ℓ} (C : Type ℓ) : Type ℓ where
  pub reuse : DataReuse
  pub switchcnt : Rows
  pub cl_dm : PairCosts C
  pub reg_dm : PairCosts C
  pub in_reuse_section : Bool

module _ {ℓ} {C : Type ℓ} ⦃d : Double C⦄ where
  open d use {nought, of_count, add}

  -- `map[key] += cost`, from 0 for a new key.
  unfoldable pub add_pair : BblId × BblId → C → PairCosts C → PairCosts C
  add_pair key cost [] = (key, add nought cost) ∷ []
  add_pair key cost ((k, c) ∷ rest) =
      let later = add_pair key cost rest in
      if pair_lt key k
      then (key, add nought cost) ∷ (k, c) ∷ rest
      else if pair_eq k key
      then (k, add c cost) ∷ rest
      else (k, c) ∷ later

  -- The data movement along the identifiers of a segment, from its head.
  unfoldable pub move_along : ℕ → BblId → List BblId → PairCosts C → PairCosts C
  unfolding add_pair
  move_along count prebblid [] costs = costs
  move_along count prebblid (id ∷ ids) costs =
      move_along count id ids (add_pair (min id prebblid, max id prebblid) (of_count count) costs)

  unfoldable pub move_each : BblId → List (BblId × ℕ) → PairCosts C → PairCosts C
  unfolding add_pair
  move_each fromidx [] costs = costs
  move_each fromidx ((toidx, n) ∷ rest) costs =
      move_each fromidx rest (add_pair (min fromidx toidx, max fromidx toidx) (of_count n) costs)

  -- One round of the loop of `ParseReuse`. The model is of files in which each line stands in the
  -- section of its form; `none` also stands for what the code makes of the words of another line.
  unfoldable pub parse_reuse_line : ReuseLine → Input C → Option (Input C)
  unfolding read_ids set_head set_count update_trie move_along move_each row_insert
  parse_reuse_line reuse_title st = some (record st { in_reuse_section = true })
  parse_reuse_line switch_title st = some (record st { in_reuse_section = false })
  parse_reuse_line other_title st = none
  parse_reuse_line (segment_line head count ids) st =
      if st.in_reuse_section
      then (do
        let seg = set_count count (set_head head (read_ids ids new_segment))
        (root, leaves) ← update_trie 0 st.reuse.root seg st.reuse.leaves
        some (record st {
          reuse = record { root = root; leaves = leaves };
          cl_dm = move_along count head ids st.cl_dm;
        }))
      else none
  parse_reuse_line (switch_line fromidx counts) st =
      if st.in_reuse_section
      then none
      else some (record st {
        switchcnt = row_insert fromidx counts st.switchcnt;
        reg_dm = move_each fromidx counts st.reg_dm;
      })

  unfoldable pub parse_reuse_loop : List ReuseLine → Input C → Option (Input C)
  unfolding parse_reuse_line
  parse_reuse_loop [] st = some st
  parse_reuse_loop (line ∷ rest) st = parse_reuse_line line st >>= parse_reuse_loop rest

  -- The state of a new solver.
  abbrev pub new_input : Input C
  new_input = record {
    reuse = record { root = new_node; leaves = [] };
    switchcnt = [];
    cl_dm = [];
    reg_dm = [];
    in_reuse_section = true;
  }

  -- `ParseReuse`
  unfoldable pub parse_reuse : List ReuseLine → Input C → Option (Input C)
  unfolding parse_reuse_loop sort_rows
  parse_reuse lines st = do
    read ← parse_reuse_loop lines (record st { in_reuse_section = true })
    some (record read { switchcnt = sort_rows read.switchcnt })

-- A line of a statistics file: the three lines of a thread's title, or the statistics of a block.
pub data StatsLine {ℓ} (C : Type ℓ) : Type ℓ where
  thread_title : (tid : ℕ) → StatsLine C
  block_line : (stats : RunStats C) → StatsLine C

module _ {ℓ} {C : Type ℓ} ⦃d : Double C⦄ where
  -- The statistics of a block after one more thread.
  unfoldable pub merged : ℕ → RunStats C → Option (ThreadRunStats C) → ThreadRunStats C
  unfolding new_thread_stats merge_thread
  merged tid stats none = new_thread_stats tid stats
  merged tid stats (some old) = merge_thread tid stats old

  -- `ParseStats`; times below zero fail its assertion.
  unfoldable pub parse_stats :
      List (StatsLine C)
      → ℕ
      → List (Uuid × ThreadRunStats C)
      → Option (List (Uuid × ThreadRunStats C))
  unfolding find_stats put_stats merged
  parse_stats [] tid m = some m
  parse_stats (thread_title tid' ∷ rest) tid m = parse_stats rest tid' m
  parse_stats (block_line stats ∷ rest) tid m =
      let entry = merged tid stats (find_stats stats.bblhash m) in
      let later = parse_stats rest tid (put_stats stats.bblhash entry m) in
      if d.le d.nought stats.elapsed_time then later else none
