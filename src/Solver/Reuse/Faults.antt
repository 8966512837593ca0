-- ===== src/Solver/Reuse/Faults.antt =====
-- Where the searches read past the end of `_leaves`, or a leaf of a deleted trie.
use pimprof.Base.{
  ℕ, suc, ◌+◌, ◌≡◌, refl, ◌∙◌, false, List, [], ◌∷◌, length, get_elem?, arith, Double, Option, none,
  some, All,
}
use pimprof.Common.{CostSite, cpu, invalid}
use pimprof.DataReuse.Segment.{Segment}
use pimprof.DataReuse.Trie.{TrieNode, LeafRef, new_node}
use pimprof.Solver.Cost.{Solver}
use pimprof.Solver.Reuse.{
  DataReuse, export_leaf, below_threshold, find_start, visit, descend, search_from, try_inits,
  print_reuse_stats, hierarchical_decision, start_from_unimportant_segment, widen, sort_leaves,
}

get_elem?-end {ℓ} : {A : Type ℓ} (xs : List A) → get_elem? xs (length xs) ≡ none
get_elem?-end [] = refl
get_elem?-end (x ∷ xs) = get_elem?-end xs

module _ {ℓ} {C : Type ℓ} ⦃d : Double C⦄ (s : Solver C) (own : TrieNode) (partial_id : ℕ) where
  -- Every segment of the leaves matters enough to be tried.
  pub record Matters (ref : LeafRef) : Type 0 where
    pub seg : Segment
    pub exported : export_leaf own partial_id new_node ref ≡ some seg
    pub above : below_threshold s seg ≡ false

  find_start-end :
      (i : ℕ) (leaves : List LeafRef)
      → All Matters leaves
      → find_start s own partial_id new_node i leaves ≡ some (i + length leaves)
  unfolding find_start
  find_start-end i [] h = ground arith
  find_start-end i (ref ∷ rest) h =
      let next = find_start-end (suc i) rest h.1 in
      rw (h.0.exported, h.0.above, next) (ground arith)

  -- If no segment is below the threshold, the loop over the segments starts past the last one.
  search_from-none :
      (extend : Segment → Option Segment) (init : CostSite) (leaves : List LeafRef)
      → All Matters leaves
      → search_from s own partial_id extend init leaves ≡ none
  unfolding search_from descend visit
  search_from-none extend init leaves h =
      let begin : find_start s own partial_id new_node 0 leaves ≡ some (length leaves) =
        find_start-end 0 leaves h ∙ ground arith in
      rw (begin, get_elem?-end leaves)

-- `PrintReuseStats` and both debug searches read `_leaves` past its end whenever no segment is below
-- the threshold, in particular whenever there is no segment at all.
pub searches-none {ℓ} :
    {C : Type ℓ} ⦃d : Double C⦄ (s : Solver C) (reuse : DataReuse)
    → All (Matters s reuse.root 1) (sort_leaves reuse).leaves
    → (print_reuse_stats s reuse ≡ none)
      × (hierarchical_decision s reuse ≡ none)
      × (start_from_unimportant_segment s reuse ≡ none)
unfolding print_reuse_stats try_inits hierarchical_decision start_from_unimportant_segment
    sort_leaves
searches-none s reuse h =
    let sorted = (sort_leaves reuse).leaves in
    let faulty = λ (extend : Segment → Option Segment) (init : CostSite).
      search_from-none s reuse.root 1 extend init sorted h in
    (
      rw (faulty (widen s.batch_size s.switch_count) cpu),
      faulty (widen s.batch_size s.switch_count) invalid,
      faulty some invalid,
    )
