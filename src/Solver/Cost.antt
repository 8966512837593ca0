-- ===== src/Solver/Cost.antt =====
-- The cost of a decision: the time of the basic blocks on their sites, and what the switches and the
-- shared cache lines between the sites cost.
use pimprof.Base.{
  ℕ, Bool, true, false, not, ◌&&◌, ◌||◌, List, [], ◌∷◌, length, replicate, if◌then◌else◌, Double,
  ◌==◌,
}
use pimprof.Common.{BblId, CostSite, cpu, pim, invalid, site_eq, Decision, site_at}
use pimprof.DataReuse.Switch.{Row, Rows, bb_count_func}
use pimprof.DataReuse.Trie.{TrieNode, Children, node, nil, child, children_of}
use pimprof.Solver.RunStats.{ThreadRunStats, max_time}

-- The sorted statistics of the two sites, aligned, and the cost tables by site. A table has an entry
-- for CPU and PIM; what an access at another site would read is left open.
pub record Solver {ℓ} (C : Type ℓ) : Type ℓ where
  pub cpu_stats : List (ThreadRunStats C)
  pub pim_stats : List (ThreadRunStats C)
  pub flush_cost : CostSite → C
  pub fetch_cost : CostSite → C
  pub switch_cost : CostSite → C
  pub switch_count : Rows
  pub batch_threshold : C
  pub batch_size : ℕ

module _ {ℓ} {C : Type ℓ} ⦃d : Double C⦄ where
  open d use {nought, of_count, add, mul, lt}

  unfoldable pub single_seg_max_reuse_cost : Solver C → C
  single_seg_max_reuse_cost s =
      let from_cpu = add (s.flush_cost cpu) (s.fetch_cost pim) in
      let from_pim = add (s.flush_cost pim) (s.fetch_cost cpu) in
      if lt from_cpu from_pim then from_pim else from_cpu

  -- `ElapsedTime(site)`: the loop from a running sum.
  unfoldable pub sum_times : C → List (ThreadRunStats C) → C
  sum_times acc [] = acc
  sum_times acc (s ∷ rest) = sum_times (add acc (max_time s)) rest

  unfoldable pub elapsed_time_of : CostSite → Solver C → C
  unfolding sum_times site_eq
  elapsed_time_of site s =
      if site_eq site cpu then sum_times nought s.cpu_stats else sum_times nought s.pim_stats

  -- `ElapsedTime(decision)`: the loop over the aligned statistics, from basic block `i`.
  unfoldable pub split_times :
      Decision → ℕ → C × C → List (ThreadRunStats C) → List (ThreadRunStats C) → C × C
  unfolding site_eq
  split_times dec i acc (p ∷ ps) (q ∷ qs) =
      split_times dec (ℕ.suc i)
        (if site_eq (site_at dec i) cpu
          then (add acc.0 (max_time p), acc.1)
          else if site_eq (site_at dec i) pim
          then (acc.0, add acc.1 (max_time q))
          else acc)
        ps qs
  split_times dec i acc _ _ = acc

  unfoldable pub elapsed_time : Decision → Solver C → C × C
  unfolding split_times
  elapsed_time dec s = split_times dec 0 (nought, nought) s.cpu_stats s.pim_stats

  -- `SwitchCountRow::Cost`
  unfoldable pub row_loop : Decision → (CostSite → C) → BblId → C → List (ℕ × ℕ) → C
  unfolding site_eq
  row_loop dec switch_cost from result [] = result
  row_loop dec switch_cost from result ((toidx, n) ∷ rest) =
      row_loop dec switch_cost from
        (if not (site_eq (site_at dec from) invalid)
            && not (site_eq (site_at dec toidx) invalid)
            && not (site_eq (site_at dec from) (site_at dec toidx))
          then add result (mul (switch_cost (site_at dec from)) (of_count n))
          else result)
        rest

  unfoldable pub row_cost : Decision → (CostSite → C) → Row → C
  unfolding row_loop
  row_cost dec switch_cost row = row_loop dec switch_cost row.fromidx nought row.toidxvec

  -- `SwitchCost`
  unfoldable pub rows_cost : Decision → (CostSite → C) → C → Rows → C
  unfolding row_cost
  rows_cost dec switch_cost acc [] = acc
  rows_cost dec switch_cost acc (row ∷ rows) =
      rows_cost dec switch_cost (add acc (row_cost dec switch_cost row)) rows

  unfoldable pub switch_cost_of : Decision → Solver C → C
  unfolding rows_cost
  switch_cost_of dec s = rows_cost dec s.switch_cost nought s.switch_count

  -- What a leaf of the trie adds when its segment is split between the sites.
  unfoldable pub leaf_cost : Decision → Solver C → BblId → ℕ → C
  unfolding site_eq
  leaf_cost dec s cur n =
      if site_eq (site_at dec cur) cpu
      then mul (of_count n) (add (s.flush_cost cpu) (s.fetch_cost pim))
      else mul (of_count n) (add (s.flush_cost pim) (s.fetch_cost cpu))

  -- `TrieBFS`: the walk below the node of `bblid`; `is_different` tells that two basic blocks on the
  -- path to it run on different sites. A leaf ends the walk.
  unfoldable mutual
    pub trie_bfs : Decision → Solver C → C → BblId → TrieNode → Bool → C
    trie_bfs dec s cost bblid (node true cur n ch) is_different =
        if is_different then add cost (leaf_cost dec s cur n) else cost
    trie_bfs dec s cost bblid (node false cur n ch) is_different =
        bfs_children dec s cost bblid ch is_different

    pub bfs_children : Decision → Solver C → C → BblId → Children → Bool → C
    bfs_children dec s cost bblid nil is_different = cost
    bfs_children dec s cost bblid (child key t rest) is_different =
        bfs_children dec s
          (trie_bfs dec s cost key t
            (is_different || not (site_eq (site_at dec bblid) (site_at dec key))))
          bblid rest is_different

  -- `ReuseCost`: the loop over the children of the root.
  unfoldable pub reuse_loop : Decision → Solver C → C → Children → C
  unfolding trie_bfs
  reuse_loop dec s cost nil = cost
  reuse_loop dec s cost (child key t rest) = reuse_loop dec s (trie_bfs dec s cost key t false) rest

  unfoldable pub reuse_cost : Decision → Solver C → TrieNode → C
  unfolding reuse_loop
  reuse_cost dec s reusetree = reuse_loop dec s nought (children_of reusetree)

  -- `Cost`
  unfoldable pub cost_of : Decision → Solver C → TrieNode → C
  unfolding elapsed_time reuse_cost switch_cost_of
  cost_of dec s reusetree =
      let pair = elapsed_time dec s in
      add (add (add (reuse_cost dec s reusetree) (switch_cost_of dec s)) pair.0) pair.1

-- `bbTimesFromSwitchInfo`: the loop over the rows.
unfoldable pub count_rows : Rows → List ℕ → List ℕ
unfolding bb_count_func
count_rows [] counts = counts
count_rows (row ∷ rows) counts = count_rows rows (bb_count_func row counts)

unfoldable pub bb_times_from_switch_info : Decision → Rows → List ℕ
unfolding count_rows
bb_times_from_switch_info dec rows = count_rows rows (replicate (length dec) 0)

-- The assertion of `TrieBFS`, over the whole walk: a leaf is reached under the key in its `_cur`.
unfoldable mutual
  pub bfs_assert : BblId → TrieNode → Bool
  bfs_assert bblid (node true cur n ch) = bblid == cur
  bfs_assert bblid (node false cur n ch) = bfs_assert_all ch

  pub bfs_assert_all : Children → Bool
  bfs_assert_all nil = true
  bfs_assert_all (child key t rest) = bfs_assert key t && bfs_assert_all rest
