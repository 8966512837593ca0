-- ===== src/DataReuse/Trie.antt =====
-- `class TrieNode` and `class DataReuse`. A segment is the path of its ascending elements, followed
-- by a leaf for its head, where its count is kept. Nodes never move, so a pointer to a node is its
-- path from the root; `_parent` is the path without its last key.
pub mod Lookup
pub mod Export
pub mod Labels
pub mod Proper
pub mod Shape
use pimprof.Base.{
  ℕ, suc, ◌+◌, ◌%◌, ◌≤◌, ◌≡◌, refl, Bool, true, false, List, [], ◌∷◌, ◌++◌, Option, none, some,
  length, arith, ltb, leb, ◌==◌, if◌then◌else◌, ◌>>=◌, ◌>>◌, assert_that, u64_mod,
}
use pimprof.DataReuse.Segment.{Segment, new_segment, insert, set_head, set_count, size}

-- `Children` is `std::map<Ty, TrieNode *>`, in the order of the keys.
mutual
  pub data TrieNode : Type 0 where
    node : (is_leaf : Bool) (cur : ℕ) (count : ℕ) (children : Children) → TrieNode

  pub data Children : Type 0 where
    nil : Children
    child : (key : ℕ) (t : TrieNode) (rest : Children) → Children

abbrev pub is_leaf : TrieNode → Bool
is_leaf (node l c k ch) = l

abbrev pub cur_of : TrieNode → ℕ
cur_of (node l c k ch) = c

abbrev pub count_of : TrieNode → ℕ
count_of (node l c k ch) = k

abbrev pub children_of : TrieNode → Children
children_of (node l c k ch) = ch

-- `new TrieNode<Ty>()`; `_cur` is not initialised, and `0` stands for it.
abbrev pub new_node : TrieNode
new_node = node false 0 0 nil

unfoldable pub find_child : ℕ → Children → Option TrieNode
find_child key nil = none
find_child key (child j t rest) = if j == key then some t else find_child key rest

unfoldable pub put_child : ℕ → TrieNode → Children → Children
put_child key t nil = child key t nil
put_child key t (child j u rest) =
    if ltb key j
    then child key t (child j u rest)
    else if j == key
    then child key t rest
    else child j u (put_child key t rest)

-- The body of the loop of `UpdateTrie`: the child for `key`, created where it is missing.
unfoldable pub child_or_new : ℕ → Option TrieNode → TrieNode
child_or_new key none = node false key 0 nil
child_or_new key (some t) = t

-- The leaf after the loop: marked, with `n` more occurrences, in 64 bits.
unfoldable pub count_leaf : ℕ → ℕ → Option TrieNode → TrieNode
count_leaf head n none = node true head (n % u64_mod) nil
count_leaf head n (some (node l c k ch)) = node true c ((k + n) % u64_mod) ch

unfoldable pub insert_path : List ℕ → ℕ → ℕ → TrieNode → TrieNode
unfolding find_child put_child child_or_new count_leaf
insert_path [] head n (node l c k ch) =
    node l c k (put_child head (count_leaf head n (find_child head ch)) ch)
insert_path (x ∷ xs) head n (node l c k ch) =
    node l c k (put_child x (insert_path xs head n (child_or_new x (find_child x ch))) ch)

unfoldable pub node_at : List ℕ → TrieNode → Option TrieNode
unfolding find_child
node_at [] t = some t
node_at (x ∷ xs) t = find_child x (children_of t) >>= node_at xs

-- `temp->_count` before the segment is counted.
unfoldable pub old_count : Option TrieNode → ℕ
old_count none = 0
old_count (some t) = count_of t

-- An entry of `_leaves`: the trie that the node was made in, and its path there. `UpdateTrie` is
-- given a root, and notes new leaves of any root in the one vector of the object.
pub record LeafRef : Type 0 where
  pub root_id : ℕ
  pub path : List ℕ

abbrev add_leaf : Option TrieNode → LeafRef → List LeafRef → List LeafRef
add_leaf none ref leaves = leaves ++ (ref ∷ [])
add_leaf (some t) ref leaves = leaves

-- `UpdateTrie`; `none` is the failed assertion on the overflow of the count.
unfoldable pub update_trie :
    ℕ → TrieNode → Segment → List LeafRef → Option (TrieNode × List LeafRef)
unfolding insert_path node_at old_count
update_trie root_id root seg leaves = if leb (size seg) 1 then some (root, leaves) else (do
  let path = seg.items ++ (seg.head ∷ [])
  let temp = node_at path root
  assert_that (leb (old_count temp) ((old_count temp + seg.count) % u64_mod))
  some (
    insert_path seg.items seg.head seg.count root,
    add_leaf temp (record { root_id = root_id; path = path }) leaves,
  ))

-- `_cur` of the nodes from a leaf up to the root, the root left out.
unfoldable pub curs_up : List ℕ → List ℕ → TrieNode → List ℕ
unfolding find_child
curs_up acc [] t = acc
curs_up acc (x ∷ xs) t = elim (find_child x (children_of t)) [
  | none ↦ acc
  | some u ↦ curs_up (cur_of u ∷ acc) xs u
]

unfoldable pub insert_each : List ℕ → Segment → Segment
unfolding insert
insert_each [] seg = seg
insert_each (c ∷ cs) seg = insert_each cs (insert c seg)

-- `ExportSegment`; `none` is a dangling pointer or the failed assertion that the node is a leaf.
unfoldable pub export_segment : Segment → TrieNode → List ℕ → Option Segment
unfolding node_at curs_up insert_each set_head set_count
export_segment seg root path = do
  leaf ← node_at path root
  assert_that (is_leaf leaf)
  some (insert_each (curs_up [] path root) (set_count (count_of leaf) (set_head (cur_of leaf) seg)))
