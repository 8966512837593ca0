-- ===== src/Solver/Reuse/Counts.antt =====
-- Bounds that the search relies on: the counts of a partial trie, and the sizes of widened segments.
use pimprof.Base.{
  get_elem?-some, ℕ, suc, ◌+◌, ◌≤◌, ◌<◌, ◌≡◌, refl, inl, inr, List, [], ◌∷◌, Option, none, some,
  length, leb, arith, ◌>>=◌, All, Bool-cases,
}
use pimprof.DataReuse.Segment.{Segment, insert, set_insert, size}
use pimprof.DataReuse.Switch.{Rows, get_row, sort_desc}
use pimprof.DataReuse.Trie.{
  TrieNode, node, find_child, child_or_new, count_leaf, insert_path, node_at, old_count,
}
use pimprof.DataReuse.Trie.Lookup.{find_child-put_child}
use pimprof.Solver.Reuse.{add_row, switch_counts, fill_segment, widen}

-- What a trie counts at a path.
abbrev pub count_at : List ℕ → TrieNode → ℕ
count_at q t = old_count (node_at q t)

count_at-count_leaf :
    (h n : ℕ) (q : List ℕ) (o : Option TrieNode)
    → count_at q (count_leaf h n o) ≤ old_count (o >>= node_at q) + n
unfolding node_at old_count count_leaf find_child
count_at-count_leaf h n [] none = ground arith
count_at-count_leaf h n (x ∷ q) none = ground arith
count_at-count_leaf h n [] (some (node l c k ch)) = ground arith
count_at-count_leaf h n (x ∷ q) (some (node l c k ch)) = ground arith

count_at-child_or_new :
    (key : ℕ) (q : List ℕ) (o : Option TrieNode)
    → count_at q (child_or_new key o) ≤ old_count (o >>= node_at q)
unfolding node_at old_count child_or_new find_child
count_at-child_or_new key [] none = ground arith
count_at-child_or_new key (x ∷ q) none = ground arith
count_at-child_or_new key q (some t) = ground arith

-- Counting a segment adds at most its count anywhere.
pub count_at-insert_path :
    (q xs : List ℕ) (h n : ℕ) (t : TrieNode) → count_at q (insert_path xs h n t) ≤ count_at q t + n
unfolding node_at old_count insert_path
count_at-insert_path [] [] h n (node l c k ch) = ground arith
count_at-insert_path [] (x ∷ xs) h n (node l c k ch) = ground arith
count_at-insert_path (y ∷ q) [] h n (node l c k ch) = ground (
  arith,
  find_child-put_child y h (count_leaf h n (find_child h ch)) ch,
  count_at-count_leaf h n q (find_child h ch),
)
count_at-insert_path (y ∷ q) (x ∷ xs) h n (node l c k ch) = ground (
  arith,
  find_child-put_child y x (insert_path xs h n (child_or_new x (find_child x ch))) ch,
  count_at-insert_path q xs h n (child_or_new x (find_child x ch)),
  count_at-child_or_new x q (find_child x ch),
)

length-set_insert : (a : ℕ) (xs : List ℕ) → length (set_insert a xs) ≤ suc (length xs)
unfolding set_insert
length-set_insert a [] = ground arith
length-set_insert a (x ∷ xs) = ground (arith, length-set_insert a xs)

-- A segment is filled up to the size of a batch, and no further.
pub size-fill_segment :
    (batch_size : ℕ) (counts : List (ℕ × ℕ)) (seg : Segment)
    → size seg ≤ batch_size
    → size (fill_segment batch_size counts seg) ≤ batch_size
unfolding fill_segment insert
size-fill_segment batch_size [] seg h = h
size-fill_segment batch_size (e ∷ rest) seg h = elim (Bool-cases (leb batch_size (size seg))) [
  | inl full ↦ rw (full, fill_segment) h
  | inr room ↦
      rw (room, fill_segment)
        (size-fill_segment batch_size rest (insert e.0 seg)
          (ground (arith, length-set_insert e.0 seg.items)))
]

-- All basic blocks of a segment have a row of switch counts.
pub switch_counts-some :
    (rows : Rows) (items : List ℕ) (counts : List (ℕ × ℕ))
    → All (λ x. x < length rows) items
    → (counts' : List (ℕ × ℕ)) × (switch_counts rows items counts ≡ some counts')
unfolding switch_counts get_row
switch_counts-some rows [] counts h = (counts, refl)
switch_counts-some rows (x ∷ items) counts h =
    let (row, found) = get_elem?-some rows x h.0 in
    let (counts', e) = switch_counts-some rows items (add_row row.toidxvec counts) h.1 in
    (counts', rw found e)

pub widen-some :
    (batch_size : ℕ) (rows : Rows) (seg : Segment)
    → All (λ x. x < length rows) seg.items
    → size seg ≤ batch_size
    → (seg' : Segment) × (widen batch_size rows seg ≡ some seg') × (size seg' ≤ batch_size)
unfolding widen
widen-some batch_size rows seg h small =
    let (counts, e) = switch_counts-some rows seg.items [] h in
    let sorted = sort_desc (λ (c : ℕ × ℕ). c.1) counts in
    (fill_segment batch_size sorted seg, rw e refl, size-fill_segment batch_size sorted seg small)
