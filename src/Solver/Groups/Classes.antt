-- ===== src/Solver/Groups/Classes.antt =====
-- The sets that `PrintDisjointSets` prints are the classes of the segments' pairs.
use pimprof.Base.{List, [], ◌∷◌, ◌++◌, Option, some, ◌==◌, if◌then◌else◌, ◌>>=◌, Double}
use pimprof.Common.{BblId}
use pimprof.DataReuse.Trie.{TrieNode, LeafRef, new_node}
use pimprof.Util.DisjointSet.Forest.{keys}
use pimprof.Util.DisjointSet.Linked.{Linked}
use pimprof.Solver.Cost.{Solver}
use pimprof.Solver.Reuse.{DataReuse, export_leaf, below_threshold}
use pimprof.Solver.Groups.{star}

-- The keys of one class, in their order.
unfoldable pub class_of : (BblId → BblId) → BblId → List BblId → List BblId
class_of root head [] = []
class_of root head (key ∷ keys) =
    if root key == head then key ∷ class_of root head keys else class_of root head keys

-- The classes of the keys that are their own roots.
unfoldable pub classes_of : (BblId → BblId) → List BblId → List BblId → List (List BblId)
classes_of root all [] = []
classes_of root all (key ∷ keys) =
    if root key == key
    then class_of root key all ∷ classes_of root all keys
    else classes_of root all keys

module _ {ℓ} {C : Type ℓ} ⦃d : Double C⦄ (s : Solver C) where
  -- The pairs of the segments that are joined: each block of a segment with its first, for the leaves
  -- up to the first below the threshold. `none` is a leaf without a segment.
  unfoldable pub joined : TrieNode → List LeafRef → Option (List (BblId × BblId))
  unfolding export_leaf star below_threshold
  joined own [] = some []
  joined own (ref ∷ rest) = do
    seg ← export_leaf own 0 new_node ref
    pairs ← star seg.items
    let more = joined own rest >>= λ later. some (pairs ++ later)
    if below_threshold s seg then some pairs else more
