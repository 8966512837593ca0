-- ===== src/DataReuse/Trie/Lookup.antt =====
-- What a trie counts after `UpdateTrie`: the path of the segment, and nothing else, has changed.
use pimprof.Base.{
  ℕ, ◌+◌, ◌%◌, ◌≤◌, ◌<◌, ◌≡◌, refl, ◌↔◌, List, [], ◌∷◌, ◌++◌, Option, none, some, arith, ◌==◌,
  if◌then◌else◌, ◌>>=◌, u64_mod,
}
use pimprof.DataReuse.Segment.{Segment, list_eq, size}
use pimprof.DataReuse.Trie.{
  TrieNode, Children, node, nil, child, LeafRef, find_child, put_child, child_or_new, count_leaf,
  insert_path, node_at, old_count, update_trie,
}

-- How often the segment of a path was counted; `none` where no segment ends.
unfoldable pub leaf_count : List ℕ → TrieNode → Option ℕ
unfolding find_child
leaf_count [] (node l c k ch) = if l then some k else none
leaf_count (x ∷ xs) (node l c k ch) = find_child x ch >>= leaf_count xs

pub find_child-put_child :
    (j key : ℕ) (t : TrieNode) (ch : Children)
    → find_child j (put_child key t ch) ≡ (if key == j then some t else find_child j ch)
unfolding find_child put_child
find_child-put_child j key t nil = refl
find_child-put_child j key t (child i u rest) = ground (arith, find_child-put_child j key t rest)

leaf_count-new : (key : ℕ) (q : List ℕ) → leaf_count q (child_or_new key none) ≡ none
unfolding leaf_count child_or_new
leaf_count-new key [] = refl
leaf_count-new key (x ∷ q) = refl

leaf_count-child_or_new :
    (key : ℕ) (q : List ℕ) (o : Option TrieNode)
    → leaf_count q (child_or_new key o) ≡ (o >>= leaf_count q)
unfolding child_or_new
leaf_count-child_or_new key q none = unfold child_or_new in leaf_count-new key q
leaf_count-child_or_new key q (some t) = refl

leaf_count-count_leaf :
    (h n : ℕ) (q : List ℕ) (o : Option TrieNode)
    → leaf_count q (count_leaf h n o)
      ≡ (if list_eq q [] then some ((old_count o + n) % u64_mod) else (o >>= leaf_count q))
unfolding leaf_count count_leaf old_count list_eq
leaf_count-count_leaf h n [] none = ground arith
leaf_count-count_leaf h n (x ∷ q) none = refl
leaf_count-count_leaf h n [] (some (node l c k ch)) = refl
leaf_count-count_leaf h n (x ∷ q) (some (node l c k ch)) = refl

node_at-child_or_new :
    (key x : ℕ) (q : List ℕ) (o : Option TrieNode)
    → old_count (node_at (x ∷ q) (child_or_new key o)) ≡ old_count (o >>= node_at (x ∷ q))
unfolding child_or_new node_at old_count
node_at-child_or_new key x q none = refl
node_at-child_or_new key x q (some t) = refl

old_count-snoc :
    (key h : ℕ) (xs : List ℕ) (o : Option TrieNode)
    → old_count (node_at (xs ++ (h ∷ [])) (child_or_new key o))
      ≡ old_count (o >>= node_at (xs ++ (h ∷ [])))
old_count-snoc key h [] o = node_at-child_or_new key h [] o
old_count-snoc key h (x ∷ xs) o = node_at-child_or_new key x (xs ++ (h ∷ [])) o

-- The count of every path after a path was counted once more.
pub leaf_count-insert_path :
    (q xs : List ℕ) (h n : ℕ) (t : TrieNode)
    → leaf_count q (insert_path xs h n t) ≡ (
        if list_eq q (xs ++ (h ∷ []))
        then some ((old_count (node_at (xs ++ (h ∷ [])) t) + n) % u64_mod)
        else leaf_count q t)
unfolding leaf_count insert_path list_eq node_at
leaf_count-insert_path [] [] h n (node l c k ch) = refl
leaf_count-insert_path [] (x ∷ xs) h n (node l c k ch) = refl
leaf_count-insert_path (y ∷ q) [] h n (node l c k ch) = ground (
  arith,
  find_child-put_child y h (count_leaf h n (find_child h ch)) ch,
  leaf_count-count_leaf h n q (find_child h ch),
)
leaf_count-insert_path (y ∷ q) (x ∷ xs) h n (node l c k ch) = ground (
  arith,
  find_child-put_child y x (insert_path xs h n (child_or_new x (find_child x ch))) ch,
  leaf_count-insert_path q xs h n (child_or_new x (find_child x ch)),
  leaf_count-child_or_new x q (find_child x ch),
  old_count-snoc x h xs (find_child x ch),
)

-- When `UpdateTrie` returns for a segment of at least two basic blocks, with 64-bit counts before, the
-- segment has been counted under its path without wrapping around, and no other count has changed.
pub leaf_count-update_trie :
    (q : List ℕ) (root_id : ℕ) (t : TrieNode) (seg : Segment) (leaves : List LeafRef)
    {t' : TrieNode} {leaves' : List LeafRef}
    → 1 < size seg
    → seg.count < u64_mod
    → old_count (node_at (seg.items ++ (seg.head ∷ [])) t) < u64_mod
    → update_trie root_id t seg leaves ≡ some (t', leaves')
    → leaf_count q t' ≡ (
        if list_eq q (seg.items ++ (seg.head ∷ []))
        then some (old_count (node_at (seg.items ++ (seg.head ∷ [])) t) + seg.count)
        else leaf_count q t)
unfolding update_trie
leaf_count-update_trie q root_id t seg leaves long small old e =
    ground (arith, leaf_count-insert_path q seg.items seg.head seg.count t)

-- With 64-bit counts before, `UpdateTrie` fails exactly for a segment of at least two basic blocks
-- whose count would wrap around.
pub update_trie-overflow :
    (root_id : ℕ) (t : TrieNode) (seg : Segment) (leaves : List LeafRef)
    → seg.count < u64_mod
    → old_count (node_at (seg.items ++ (seg.head ∷ [])) t) < u64_mod
    → (update_trie root_id t seg leaves ≡ none) ↔ (
        (1 < size seg)
        × (u64_mod ≤ old_count (node_at (seg.items ++ (seg.head ∷ [])) t) + seg.count))
unfolding update_trie
update_trie-overflow root_id t seg leaves small old = ground arith
