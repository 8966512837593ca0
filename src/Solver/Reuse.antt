-- ===== src/Solver/Reuse.antt =====
-- `PrintReuseStats` and the two debug searches that share its loops. `none` is a failed assertion,
-- an access out of bounds or a dangling pointer.
pub mod Complete
pub mod Counts
pub mod Leaves
pub mod Open
pub mod Returns
pub mod Total
pub mod Faults
use pimprof.Base.{
  ℕ, zero, suc, ◌+◌, ◌%◌, Bool, List, [], ◌∷◌, length, replicate, get_elem?, leb, ◌==◌,
  if◌then◌else◌, Double, Option, none, some, ◌>>=◌, ◌>>◌, assert_that, u64_mod,
}
use pimprof.Common.{BblId, CostSite, cpu, pim, invalid, site_eq, Decision}
use pimprof.DataReuse.Segment.{Segment, new_segment, insert, size}
use pimprof.DataReuse.Switch.{Row, Rows, get_row, sort_desc}
use pimprof.DataReuse.Trie.{
  TrieNode, new_node, LeafRef, node_at, old_count, update_trie, export_segment,
}
use pimprof.Solver.RunStats.{ThreadRunStats, max_time}
use pimprof.Solver.Cost.{Solver, single_seg_max_reuse_cost, elapsed_time_of, cost_of}
use pimprof.Solver.Search.{permute_decision, flip_twice}

-- `DataReuse<BBLID>`: the root, and `_leaves`.
pub record DataReuse : Type 0 where
  pub root : TrieNode
  pub leaves : List LeafRef

-- The root that a leaf belongs to: the reuse data's own trie is number 0, and the partial trie at
-- hand has number `partial_id`. Any other trie is deleted.
unfoldable pub root_of : TrieNode → ℕ → TrieNode → ℕ → Option TrieNode
root_of own partial_id partial id =
    if id == 0 then some own else if id == partial_id then some partial else none

unfoldable pub export_leaf : TrieNode → ℕ → TrieNode → LeafRef → Option Segment
unfolding root_of export_segment
export_leaf own partial_id partial ref = do
  root ← root_of own partial_id partial ref.root_id
  export_segment new_segment root ref.path

-- `SortLeaves`, by `_count`, largest first.
unfoldable pub sort_leaves : DataReuse → DataReuse
unfolding sort_desc node_at old_count
sort_leaves reuse = record reuse {
  leaves = sort_desc (λ ref. old_count (node_at ref.path reuse.root)) reuse.leaves;
}

-- `total_switch_cnt_map[toidx] += count`; the order of the map is that of first insertion.
unfoldable pub add_switch : ℕ → ℕ → List (ℕ × ℕ) → List (ℕ × ℕ)
add_switch toidx n [] = (toidx, n) ∷ []
add_switch toidx n ((j, m) ∷ rest) =
    if j == toidx then (j, (m + n) % u64_mod) ∷ rest else (j, m) ∷ add_switch toidx n rest

unfoldable pub add_row : List (ℕ × ℕ) → List (ℕ × ℕ) → List (ℕ × ℕ)
unfolding add_switch
add_row [] counts = counts
add_row ((toidx, n) ∷ row) counts = add_row row (add_switch toidx n counts)

-- The switches from the basic blocks of a segment, over `getRow`.
unfoldable pub switch_counts : Rows → List BblId → List (ℕ × ℕ) → Option (List (ℕ × ℕ))
unfolding get_row add_row
switch_counts rows [] counts = some counts
switch_counts rows (from ∷ rest) counts = do
  row ← get_row from rows
  switch_counts rows rest (add_row row.toidxvec counts)

-- Targets join the segment, the most frequent first, until it has `batch_size` basic blocks.
unfoldable pub fill_segment : ℕ → List (ℕ × ℕ) → Segment → Segment
unfolding insert
fill_segment batch_size [] seg = seg
fill_segment batch_size (e ∷ rest) seg =
    let wider = fill_segment batch_size rest (insert e.0 seg) in
    if leb batch_size (size seg) then seg else wider

unfoldable pub widen : ℕ → Rows → Segment → Option Segment
unfolding switch_counts fill_segment sort_desc
widen batch_size rows seg = do
  counts ← switch_counts rows seg.items []
  some (fill_segment batch_size (sort_desc (λ e. e.1) counts) seg)

pub record State {ℓ} (C : Type ℓ) : Type ℓ where
  pub decision : Decision
  pub cur_total : C
  pub partial : TrieNode
  pub leaves : List LeafRef

module _ {ℓ} {C : Type ℓ} ⦃d : Double C⦄ where
  -- Basic blocks that no segment decided go where they run faster.
  unfoldable pub decide_rest :
      Decision → List (ThreadRunStats C) → List (ThreadRunStats C) → Decision
  unfolding site_eq
  decide_rest (site ∷ dec) (p ∷ ps) (q ∷ qs) =
      (if site_eq site invalid then (if d.le (max_time p) (max_time q) then cpu else pim) else site)
      ∷ decide_rest dec ps qs
  decide_rest dec _ _ = dec

module _ {ℓ} {C : Type ℓ} ⦃d : Double C⦄ (s : Solver C) where
  open d use {of_count, mul, lt}

  -- `std::min` of the times on one site only.
  unfoldable pub elapsed_time_min : C
  unfolding elapsed_time_of
  elapsed_time_min =
      let on_cpu = elapsed_time_of cpu s in
      let on_pim = elapsed_time_of pim s in if lt on_cpu on_pim then on_cpu else on_pim

  -- A segment that matters too little to be tried.
  unfoldable pub below_threshold : Segment → Bool
  unfolding elapsed_time_min single_seg_max_reuse_cost
  below_threshold seg =
      lt (mul (of_count seg.count) (single_seg_max_reuse_cost s))
        (mul s.batch_threshold elapsed_time_min)

  -- The best placement of a segment, and of what `extend` adds to it, by the partial trie.
  unfoldable pub place_segment : (Segment → Option Segment) → Segment → State C → Option (State C)
  unfolding permute_decision cost_of
  place_segment extend seg st = do
    seg' ← extend seg
    (decision', total) ← permute_decision (λ dec. cost_of dec s st.partial) st.decision seg'.items
    some (record st { decision = decision'; cur_total = total })

module _ {ℓ} {C : Type ℓ} ⦃d : Double C⦄ (s : Solver C) (own : TrieNode) (partial_id : ℕ) where
  open d use {flt_max}

  -- The `while` loop: the index of the first leaf below the threshold, or the number of leaves.
  unfoldable pub find_start : TrieNode → ℕ → List LeafRef → Option ℕ
  unfolding export_leaf below_threshold
  find_start partial i [] = some i
  find_start partial i (ref ∷ rest) =
      let next = find_start partial (suc i) rest in
      (export_leaf own partial_id partial ref >>= λ seg.
      if below_threshold s seg then some i else next)

  -- One round of the `for` loop: the segment of leaf `i` joins the partial trie, and is
  -- placed unless it is too long.
  unfoldable pub visit : (Segment → Option Segment) → ℕ → State C → Option (State C)
  unfolding export_leaf update_trie place_segment
  visit extend i st = do
    ref ← get_elem? st.leaves i
    seg ← export_leaf own partial_id st.partial ref
    (partial', leaves') ← update_trie partial_id st.partial seg st.leaves
    let st' = record st { partial = partial'; leaves = leaves' }
    if leb s.batch_size (size seg) then some st' else place_segment s extend seg st'

  -- `for (; cur_node >= 0; --cur_node)`, for the nodes below `n`.
  unfoldable pub descend : (Segment → Option Segment) → ℕ → State C → Option (State C)
  unfolding visit
  descend extend zero st = some st
  descend extend (suc i) st = visit extend i st >>= descend extend i

  -- The body of the loop over the initial decisions: the decision, its cost, and `_leaves`.
  unfoldable pub search_from :
      (Segment → Option Segment) → CostSite → List LeafRef → Option (Decision × C × List LeafRef)
  unfolding find_start descend decide_rest flip_twice cost_of
  search_from extend init leaves = do
    start ← find_start new_node 0 leaves
    st ← descend extend (suc start) (record {
      decision = replicate (length s.cpu_stats) init;
      cur_total = flt_max;
      partial = new_node;
      leaves = leaves;
    })
    let complete = decide_rest st.decision s.cpu_stats s.pim_stats
    let best =
        flip_twice (λ dec. cost_of dec s own) (length s.cpu_stats)
          (complete, cost_of complete s own)
    some (best.0, best.1, st.leaves)

module _ {ℓ} {C : Type ℓ} ⦃d : Double C⦄ (s : Solver C) where
  open d use {lt, flt_max}

  -- The loop over the initial decisions, each with a partial trie of its own.
  unfoldable pub try_inits :
      TrieNode
      → ℕ
      → List CostSite
      → Decision × C × List LeafRef
      → Option (Decision × C × List LeafRef)
  unfolding search_from widen
  try_inits own partial_id [] state = some state
  try_inits own partial_id (init ∷ inits) (min_decision, min_total, leaves) = do
    (decision, cur_total, leaves') ←
        search_from s own partial_id (widen s.batch_size s.switch_count) init leaves
    try_inits own (suc partial_id) inits (
        if lt cur_total min_total
        then (decision, cur_total, leaves')
        else (min_decision, min_total, leaves'))

  -- The end of `PrintReuseStats`: the total time of the best decision. `ElapsedTime` reads the site of
  -- every basic block, which the empty vector does not have.
  unfoldable pub total_time : TrieNode → Decision → Option C
  unfolding cost_of
  total_time own min_decision = do
    assert_that (leb (length s.cpu_stats) (length min_decision))
    some (cost_of min_decision s own)

  -- `PrintReuseStats`: the decision with its total time, and the reuse data afterwards.
  unfoldable pub print_reuse_stats : DataReuse → Option (Decision × C × DataReuse)
  unfolding try_inits sort_leaves total_time
  print_reuse_stats reuse = do
    let sorted = sort_leaves reuse
    (min_decision, min_total, leaves) ←
        try_inits sorted.root 1 (cpu ∷ pim ∷ invalid ∷ []) ([], flt_max, sorted.leaves)
    time ← total_time sorted.root min_decision
    some (min_decision, time, record sorted { leaves = leaves })

  -- `Debug_HierarchicalDecision`
  unfoldable pub hierarchical_decision : DataReuse → Option (Decision × C × List LeafRef)
  unfolding search_from widen sort_leaves
  hierarchical_decision reuse =
      let sorted = sort_leaves reuse in
      search_from s sorted.root 1 (widen s.batch_size s.switch_count) invalid sorted.leaves

  -- `Debug_StartFromUnimportantSegment`
  unfoldable pub start_from_unimportant_segment : DataReuse → Option (Decision × C × List LeafRef)
  unfolding search_from sort_leaves
  start_from_unimportant_segment reuse =
      let sorted = sort_leaves reuse in search_from s sorted.root 1 some invalid sorted.leaves
