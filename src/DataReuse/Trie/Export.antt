-- ===== src/DataReuse/Trie/Export.antt =====
-- `ExportSegment` reads back what `UpdateTrie` stored.
use mathlib.Core.List.{reverse, reverse-cons, reverse-append, append-nil, append_assoc}
use pimprof.Base.{
  ℕ, ◌+◌, ◌%◌, ◌<◌, ◌≡◌, refl, inl, inr, true, ◌||◌, List, [], ◌∷◌, ◌++◌, Option, none, some, arith,
  ltb, ◌==◌, ◌>>=◌, u64_mod, Bool-cases, Option-cases, ==_iff,
}
use pimprof.DataReuse.Segment.{
  Segment, new_segment, insert, set_head, set_count, set_insert, set_insert_all, member, size,
  IsAscending, set_insert-IsAscending, member-set_insert, ascending_ext,
}
use pimprof.DataReuse.Trie.{
  TrieNode, node, LeafRef, is_leaf, cur_of, count_of, find_child, child_or_new, count_leaf,
  insert_path, node_at, old_count, update_trie, curs_up, insert_each, export_segment,
}
use pimprof.DataReuse.Trie.Lookup.{find_child-put_child}
use pimprof.DataReuse.Trie.Labels.{Labelled, LabelledAll-find_child, insert_path-Labelled}

-- On a labelled trie the walk along `_parent` reads the path backwards.
curs_up-reverse :
    (acc path : List ℕ) (t u : TrieNode)
    → Labelled t
    → node_at path t ≡ some u
    → curs_up acc path t ≡ reverse path ++ acc
unfolding curs_up node_at
curs_up-reverse acc [] t u w e = refl
curs_up-reverse acc (x ∷ xs) (node l c k ch) u w e = elim (Option-cases (find_child x ch)) [
  | inl missing ↦ absurd (ground arith)
  | inr (v, found) ↦
      let ok = LabelledAll-find_child x ch v w found in
      let below : node_at xs v ≡ some u = ground arith in
      rw (found, curs_up, ok.0, reverse-cons x xs, append_assoc)
        (curs_up-reverse (x ∷ acc) xs v u ok.1 below)
]

node_at-new :
    (key h : ℕ) (xs : List ℕ) (o : Option TrieNode)
    → node_at (xs ++ (h ∷ [])) (child_or_new key o) ≡ (o >>= node_at (xs ++ (h ∷ [])))
unfolding child_or_new node_at
node_at-new key h [] none = refl
node_at-new key h (x ∷ xs) none = refl
node_at-new key h xs (some t) = refl

node_at-insert_path :
    (xs : List ℕ) (h n : ℕ) (t : TrieNode)
    → node_at (xs ++ (h ∷ [])) (insert_path xs h n t)
      ≡ some (count_leaf h n (node_at (xs ++ (h ∷ [])) t))
unfolding insert_path node_at
node_at-insert_path [] h n (node l c k ch) = elim (Option-cases (find_child h ch)) [
  | inl e ↦ ground (arith, find_child-put_child h h (count_leaf h n (find_child h ch)) ch)
  | inr (t, e) ↦ ground (arith, find_child-put_child h h (count_leaf h n (find_child h ch)) ch)
]
node_at-insert_path (x ∷ xs) h n (node l c k ch) =
    let next = child_or_new x (find_child x ch) in
    ground (
      arith,
      find_child-put_child x x (insert_path xs h n next) ch,
      node_at-insert_path xs h n next,
      node_at-new x h xs (find_child x ch),
    )

-- The leaf of a labelled trie names its head.
node_at-Labelled :
    (x : ℕ) (xs : List ℕ) (t u : TrieNode)
    → Labelled t
    → node_at (xs ++ (x ∷ [])) t ≡ some u
    → cur_of u ≡ x
unfolding node_at
node_at-Labelled x [] (node l c k ch) u w e = elim (Option-cases (find_child x ch)) [
  | inl missing ↦ absurd (ground arith)
  | inr (v, found) ↦
      let same : v ≡ u = ground arith in rw (← same) (LabelledAll-find_child x ch v w found).0
]
node_at-Labelled x (y ∷ xs) (node l c k ch) u w e = elim (Option-cases (find_child y ch)) [
  | inl missing ↦ absurd (ground arith)
  | inr (v, found) ↦
      node_at-Labelled x xs v u (LabelledAll-find_child y ch v w found).1 (ground arith)
]

count_leaf-leaf :
    (h n : ℕ) (o : Option TrieNode)
    → (is_leaf (count_leaf h n o) ≡ true)
      × (count_of (count_leaf h n o) ≡ (old_count o + n) % u64_mod)
unfolding count_leaf old_count
count_leaf-leaf h n none = ground arith
count_leaf-leaf h n (some (node l c k ch)) = ground arith

member-append : (a : ℕ) (xs ys : List ℕ) → member a (xs ++ ys) ≡ (member a xs || member a ys)
unfolding member
member-append a [] ys = refl
member-append a (x ∷ xs) ys = ground (arith, member-append a xs ys)

member-reverse : (a : ℕ) (xs : List ℕ) → member a (reverse xs) ≡ member a xs
unfolding member
member-reverse a [] = refl
member-reverse a (x ∷ xs) =
    rw (reverse-cons x xs, member-append) (ground (arith, member-reverse a xs))

member-set_insert_all :
    (a : ℕ) (new xs : List ℕ) → member a (set_insert_all new xs) ≡ (member a new || member a xs)
unfolding member set_insert_all
member-set_insert_all a [] xs = refl
member-set_insert_all a (x ∷ new) xs =
    ground (arith, member-set_insert_all a new (set_insert x xs), member-set_insert x a xs)

set_insert_all-IsAscending :
    (new xs : List ℕ) → IsAscending xs → IsAscending (set_insert_all new xs)
unfolding set_insert_all
set_insert_all-IsAscending [] xs u = u
set_insert_all-IsAscending (x ∷ new) xs u =
    set_insert_all-IsAscending new (set_insert x xs) (set_insert-IsAscending x xs u)

set_insert-cons : (a : ℕ) (xs : List ℕ) → (y : ℕ) × (ys : List ℕ) × (set_insert a xs ≡ y ∷ ys)
unfolding set_insert
set_insert-cons a [] = (a, [], refl)
set_insert-cons a (x ∷ xs) = elim (Bool-cases (ltb a x)) [
  | inl less ↦ (a, x ∷ xs, rw less)
  | inr more ↦ elim (Bool-cases (a == x)) [
    | inl same ↦ (x, xs, rw (more, same))
    | inr other ↦ (x, set_insert a xs, rw (more, other))
  ]
]

-- Once a segment has an element, `insert` leaves the head alone.
insert_each-nonempty :
    (cs : List ℕ) (h n x : ℕ) (xs : List ℕ)
    → insert_each cs (record { head = h; items = x ∷ xs; count = n })
      ≡ record { head = h; items = set_insert_all cs (x ∷ xs); count = n }
unfolding insert_each insert set_insert_all
insert_each-nonempty [] h n x xs = refl
insert_each-nonempty (c ∷ cs) h n x xs =
    let (y, ys, e) = set_insert-cons c (x ∷ xs) in rw e (insert_each-nonempty cs h n y ys)

-- The elements of a path, its head last, are the set again if it is a member.
rebuild :
    (xs : List ℕ) (h : ℕ)
    → IsAscending xs
    → member h xs ≡ true
    → set_insert_all (reverse (xs ++ (h ∷ []))) [] ≡ xs
unfolding member
rebuild xs h u m = ascending_ext _ xs (set_insert_all-IsAscending _ [] tt) u λ a.
    rw (member-set_insert_all a, member-reverse a, member-append a) (ground (arith, ==_iff a h))

insert_each-new :
    (c : ℕ) (cs : List ℕ) (h n : ℕ)
    → insert_each (c ∷ cs) (record { head = h; items = []; count = n })
      ≡ record { head = c; items = set_insert_all (c ∷ cs) []; count = n }
unfolding insert_each insert set_insert_all
insert_each-new c cs h n = insert_each-nonempty cs c n c []

insert_each-path :
    (xs : List ℕ) (h n : ℕ)
    → IsAscending xs
    → member h xs ≡ true
    → insert_each (reverse (xs ++ (h ∷ [])) ++ []) (record { head = h; items = []; count = n })
      ≡ record { head = h; items = xs; count = n }
insert_each-path xs h n u m =
    let split : reverse (xs ++ (h ∷ [])) ≡ h ∷ reverse xs = reverse-append xs (h ∷ []) in
    let items : set_insert_all (h ∷ reverse xs) [] ≡ xs = rw split at (rebuild xs h u m) in
    rw (append-nil, split, insert_each-new, items)

-- A segment that `UpdateTrie` has counted reads back from its leaf: the same head and elements, and
-- the total count. The segment has at least two elements, in ascending order and its head among them,
-- and each node of the trie stands under its own key.
pub export_segment-update_trie :
    (root_id : ℕ) (t : TrieNode) (seg : Segment) (leaves : List LeafRef) {t' : TrieNode}
    {leaves' : List LeafRef}
    → Labelled t
    → IsAscending seg.items
    → member seg.head seg.items ≡ true
    → 1 < size seg
    → update_trie root_id t seg leaves ≡ some (t', leaves')
    → export_segment new_segment t' (seg.items ++ (seg.head ∷ []))
      ≡ some (record {
        head = seg.head;
        items = seg.items;
        count = (old_count (node_at (seg.items ++ (seg.head ∷ [])) t) + seg.count) % u64_mod;
      })
unfolding export_segment set_head set_count
export_segment-update_trie root_id t seg leaves {t'} w u m long e =
    let path = seg.items ++ (seg.head ∷ []) in
    let leaf = count_leaf seg.head seg.count (node_at path t) in
    let same : t' ≡ insert_path seg.items seg.head seg.count t =
      unfold update_trie in ground arith in
    let found = node_at-insert_path seg.items seg.head seg.count t in
    let w' = insert_path-Labelled seg.items seg.head seg.count t w in
    let facts = count_leaf-leaf seg.head seg.count (node_at path t) in
    rw (
      same,
      found,
      facts.0,
      facts.1,
      curs_up-reverse [] path (insert_path seg.items seg.head seg.count t) leaf w' found,
      node_at-Labelled seg.head seg.items (insert_path seg.items seg.head seg.count t) leaf w'
          found,
      insert_each-path seg.items seg.head _ u m,
    )
