-- ===== src/Solver/Report/Segments.antt =====
-- `ReuseCostPrint`, and the printing overload of `TrieBFS`.
use pimprof.Base.{
  Bool, true, false, not, ◌||◌, List, [], ◌∷◌, ◌++◌, if◌then◌else◌, Double, ◌≡◌, refl, ap, ◌∙◌,
}
use pimprof.Common.{BblId, site_eq, site_at, Decision}
use pimprof.DataReuse.Trie.{TrieNode, Children, node, nil, child, children_of}
use pimprof.Solver.Cost.{Solver, leaf_cost, trie_bfs, bfs_children, reuse_loop, reuse_cost}

module _ {ℓ} {C : Type ℓ} ⦃d : Double C⦄ where
  open d use {nought, of_count, add, lt}

  -- The printing overload of `TrieBFS`: the cost, and a line for each segment that costs more than a
  -- millisecond. `diff` are the first two basic blocks of the path that run on different sites.
  unfoldable mutual
    pub trie_bfs_print :
        Decision
        → Solver C
        → C × List (C × (BblId × BblId))
        → BblId
        → TrieNode
        → Bool
        → BblId × BblId
        → C × List (C × (BblId × BblId))
    trie_bfs_print dec s out bblid (node true cur n ch) is_different diff =
        let delta = add nought (leaf_cost dec s cur n) in
        if is_different
        then (
          add out.0 delta,
          if lt (of_count 1_000_000) delta then out.1 ++ ((delta, diff) ∷ []) else out.1,
        )
        else out
    trie_bfs_print dec s out bblid (node false cur n ch) is_different diff =
        bfs_children_print dec s out bblid ch is_different diff

    pub bfs_children_print :
        Decision
        → Solver C
        → C × List (C × (BblId × BblId))
        → BblId
        → Children
        → Bool
        → BblId × BblId
        → C × List (C × (BblId × BblId))
    bfs_children_print dec s out bblid nil is_different diff = out
    bfs_children_print dec s out bblid (child key t rest) is_different diff =
        bfs_children_print dec s
          (trie_bfs_print dec s out key t
            (is_different || not (site_eq (site_at dec bblid) (site_at dec key)))
            (if is_different
              then diff
              else if site_eq (site_at dec bblid) (site_at dec key)
              then diff
              else (bblid, key)))
          bblid rest is_different diff

  -- `ReuseCostPrint`
  unfoldable pub reuse_print_loop :
      Decision
      → Solver C
      → C × List (C × (BblId × BblId))
      → Children
      → C × List (C × (BblId × BblId))
  unfolding trie_bfs_print
  reuse_print_loop dec s out nil = out
  reuse_print_loop dec s out (child key t rest) =
      reuse_print_loop dec s (trie_bfs_print dec s out key t false (0, 0)) rest

  unfoldable pub reuse_cost_print : Decision → Solver C → TrieNode → C × List (C × (BblId × BblId))
  unfolding reuse_print_loop
  reuse_cost_print dec s reusetree = reuse_print_loop dec s (nought, []) (children_of reusetree)

  -- The cost of the printing walk is the cost of the walk.
  mutual
    unfolding trie_bfs_print trie_bfs

    trie_bfs_print-cost :
        (dec : Decision) (s : Solver C) (out : C × List (C × (BblId × BblId))) (bblid : BblId)
        (t : TrieNode) (b : Bool) (diff : BblId × BblId)
        → ((x : C) → add nought x ≡ x)
        → (trie_bfs_print dec s out bblid t b diff).0 ≡ trie_bfs dec s out.0 bblid t b
    trie_bfs_print-cost dec s out bblid (node true cur n ch) true diff zero =
        ap (add out.0) (zero (leaf_cost dec s cur n))
    trie_bfs_print-cost dec s out bblid (node true cur n ch) false diff zero = refl
    trie_bfs_print-cost dec s out bblid (node false cur n ch) b diff zero =
        bfs_children_print-cost dec s out bblid ch b diff zero

    bfs_children_print-cost :
        (dec : Decision) (s : Solver C) (out : C × List (C × (BblId × BblId))) (bblid : BblId)
        (ch : Children) (b : Bool) (diff : BblId × BblId)
        → ((x : C) → add nought x ≡ x)
        → (bfs_children_print dec s out bblid ch b diff).0 ≡ bfs_children dec s out.0 bblid ch b
    bfs_children_print-cost dec s out bblid nil b diff zero = refl
    bfs_children_print-cost dec s out bblid (child key t rest) b diff zero =
        bfs_children_print-cost dec s _ bblid rest b diff zero
        ∙ ap (λ c. bfs_children dec s c bblid rest b) (trie_bfs_print-cost dec s out key t _ _ zero)

  reuse_print_loop-cost :
      (dec : Decision) (s : Solver C) (out : C × List (C × (BblId × BblId))) (ch : Children)
      → ((x : C) → add nought x ≡ x)
      → (reuse_print_loop dec s out ch).0 ≡ reuse_loop dec s out.0 ch
  unfolding reuse_print_loop reuse_loop
  reuse_print_loop-cost dec s out nil zero = refl
  reuse_print_loop-cost dec s out (child key t rest) zero =
      reuse_print_loop-cost dec s (trie_bfs_print dec s out key t false (0, 0)) rest zero
      ∙ ap (λ c. reuse_loop dec s c rest) (trie_bfs_print-cost dec s out key t false (0, 0) zero)

  -- Where adding zero is exact, `ReuseCostPrint` charges what `ReuseCost` charges, for every decision
  -- and every trie.
  pub reuse_cost_print-reuse_cost :
      (dec : Decision) (s : Solver C) (reusetree : TrieNode)
      → ((x : C) → add nought x ≡ x)
      → (reuse_cost_print dec s reusetree).0 ≡ reuse_cost dec s reusetree
  unfolding reuse_cost_print reuse_cost
  reuse_cost_print-reuse_cost dec s reusetree zero =
      reuse_print_loop-cost dec s (nought, []) (children_of reusetree) zero
