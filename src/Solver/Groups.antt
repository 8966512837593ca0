-- ===== src/Solver/Groups.antt =====
-- `PrintDisjointSets`: the sets of basic blocks that the segments above the threshold join.
pub mod Classes
use pimprof.Base.{
  Bool, List, [], ◌∷◌, ◌++◌, Option, none, some, map, ◌==◌, if◌then◌else◌, ◌>>=◌, Double,
}
use pimprof.Common.{BblId}
use pimprof.DataReuse.Segment.{Segment}
use pimprof.DataReuse.Trie.{TrieNode, LeafRef, new_node}
use pimprof.Util.DisjointSet.{Parents, find, union_all}
use pimprof.Solver.Cost.{Solver}
use pimprof.Solver.Reuse.{DataReuse, export_leaf, sort_leaves, below_threshold}

-- The pairs of the loop over a segment: each block with the first.
unfoldable pub star : List BblId → Option (List (BblId × BblId))
star [] = none
star (first ∷ rest) = some (map (λ elem. (first, elem)) (first ∷ rest))

-- The inner loop over `ds.parent`: the members of the set of `head`.
unfoldable pub members_of : BblId → List BblId → Parents → Option (List BblId × Parents)
unfolding find
members_of head [] ds = some ([], ds)
members_of head (key ∷ keys) ds = do
  (x, ds1) ← find key ds
  (ids, ds2) ← members_of head keys ds1
  some (if x == head then key ∷ ids else ids, ds2)

-- The outer loop: a set for each key that is its own root. `Find` of a key inserts none, so that both
-- loops run over the keys that `ds.parent` had at first.
unfoldable pub groups_loop : List BblId → List BblId → Parents → Option (List (List BblId))
unfolding find members_of
groups_loop all [] ds = some []
groups_loop all (key ∷ keys) ds = do
  (x, ds1) ← find key ds
  let skipped = groups_loop all keys ds1
  let printed = (do
    (ids, ds2) ← members_of key all ds1
    rest ← groups_loop all keys ds2
    some (ids ∷ rest))
  if x == key then printed else skipped

module _ {ℓ} {C : Type ℓ} ⦃d : Double C⦄ (s : Solver C) where
  -- The loop over the leaves; it ends with the first segment below the threshold.
  unfoldable pub unite_leaves : TrieNode → List LeafRef → Parents → Option Parents
  unfolding export_leaf star union_all below_threshold
  unite_leaves own [] ds = some ds
  unite_leaves own (ref ∷ rest) ds = do
    seg ← export_leaf own 0 new_node ref
    pairs ← star seg.items
    ds' ← union_all pairs ds
    let more = unite_leaves own rest ds'
    if below_threshold s seg then some ds' else more

  -- The sets, and `_leaves` sorted.
  unfoldable pub print_disjoint_sets : DataReuse → Option (List (List BblId) × DataReuse)
  unfolding sort_leaves unite_leaves groups_loop
  print_disjoint_sets reuse = do
    let sorted = sort_leaves reuse
    ds ← unite_leaves sorted.root sorted.leaves []
    let keys = map (λ e. e.0) ds
    groups ← groups_loop keys keys ds
    some (groups, sorted)
