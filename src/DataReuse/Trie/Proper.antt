-- ===== src/DataReuse/Trie/Proper.antt =====
-- The shape of the tries that `UpdateTrie` builds from ascending sets with their head: a leaf has no
-- children, so that a walk that stops at leaves misses no segment.
use pimprof.Base.{
  ℕ, suc, ◌≤◌, ◌<◌, ◌≡◌, refl, ◌∙◌, ◌⊎◌, inl, inr, true, false, List, [], ◌∷◌, Option, none, some,
  arith, ltb, leb, ◌==◌, Bool-cases, ==_iff,
}
use pimprof.DataReuse.Segment.{Segment, member, size, IsAscending, Above}
use pimprof.DataReuse.Trie.{
  TrieNode, Children, node, nil, child, LeafRef, is_leaf, children_of, find_child, put_child,
  child_or_new, count_leaf, insert_path, update_trie,
}

-- A leaf stands under a key below the bound, an inner node under one from the bound on; the bound
-- below a node is the next key.
abbrev mutual
  pub ProperAt : ℕ → ℕ → TrieNode → Type 0
  ProperAt b key (node true c k ch) = (key < b) × (ch ≡ nil)
  ProperAt b key (node false c k ch) = (b ≤ key) × ProperAll (suc key) ch

  pub ProperAll : ℕ → Children → Type 0
  ProperAll b nil = Unit {0}
  ProperAll b (child key t rest) = ProperAt b key t × ProperAll b rest

abbrev pub IsProper : TrieNode → Type 0
IsProper t = (is_leaf t ≡ false) × ProperAll 0 (children_of t)

ProperAll-find_child :
    (b key : ℕ) (ch : Children) (t : TrieNode)
    → ProperAll b ch
    → find_child key ch ≡ some t
    → ProperAt b key t
unfolding find_child
ProperAll-find_child b key nil t h e = absurd (ground arith)
ProperAll-find_child b key (child j u rest) t h e = elim (Bool-cases (j == key)) [
  | inl here ↦
      let same : u ≡ t = ground arith in
      let keys : j ≡ key = (==_iff j key).0 here in rw (← same, ← keys) h.0
  | inr there ↦ ProperAll-find_child b key rest t h.1 (ground arith)
]

ProperAll-put_child :
    (b key : ℕ) (t : TrieNode) (ch : Children)
    → ProperAt b key t
    → ProperAll b ch
    → ProperAll b (put_child key t ch)
unfolding put_child
ProperAll-put_child b key t nil p h = (p, tt)
ProperAll-put_child b key t (child j u rest) p h =
    let below = ProperAll-put_child b key t rest p h.1 in
    elim (Bool-cases (ltb key j)) [
      | inl less ↦ rw less (p, h)
      | inr more ↦ rw more (elim (Bool-cases (j == key)) [
        | inl same ↦ rw same (p, h.1)
        | inr other ↦ rw other (h.0, below)
      ])
    ]

-- Strictly ascending, from the bound on.
abbrev From : ℕ → List ℕ → Type 0
From b [] = Unit {0}
From b (x ∷ xs) = (b ≤ x) × Above x xs

-- The head of a segment whose elements from here on are `xs`, below the bound `b`.
abbrev IsCovered : ℕ → List ℕ → ℕ → Type 0
IsCovered b xs h = (h < b) ⊎ (member h xs ≡ true)

count_leaf-ProperAt :
    (b h n : ℕ) (o : Option TrieNode)
    → h < b
    → ((t : TrieNode) → o ≡ some t → ProperAt b h t)
    → ProperAt b h (count_leaf h n o)
unfolding count_leaf
count_leaf-ProperAt b h n none lt p = (lt, refl)
count_leaf-ProperAt b h n (some (node true c k ch)) lt p = p (node true c k ch) refl
count_leaf-ProperAt b h n (some (node false c k ch)) lt p =
    absurd (omega (arith, (p (node false c k ch) refl).0))

child_or_new-Proper :
    (b x : ℕ) (o : Option TrieNode)
    → b ≤ x
    → ((t : TrieNode) → o ≡ some t → ProperAt b x t)
    → (is_leaf (child_or_new x o) ≡ false) × ProperAll (suc x) (children_of (child_or_new x o))
unfolding child_or_new
child_or_new-Proper b x none le p = (refl, tt)
child_or_new-Proper b x (some (node true c k ch)) le p =
    absurd (omega (arith, (p (node true c k ch) refl).0))
child_or_new-Proper b x (some (node false c k ch)) le p = (refl, (p (node false c k ch) refl).1)

is_leaf-insert_path :
    (xs : List ℕ) (h n : ℕ) (t : TrieNode) → is_leaf (insert_path xs h n t) ≡ is_leaf t
unfolding insert_path
is_leaf-insert_path [] h n (node l c k ch) = refl
is_leaf-insert_path (x ∷ xs) h n (node l c k ch) = refl

ProperAt-inner :
    (b key : ℕ) (t : TrieNode)
    → is_leaf t ≡ false
    → b ≤ key
    → ProperAll (suc key) (children_of t)
    → ProperAt b key t
ProperAt-inner b key (node true c k ch) e le h = absurd (ground arith)
ProperAt-inner b key (node false c k ch) e le h = (le, h)

IsCovered-step : (b x h : ℕ) (xs : List ℕ) → b ≤ x → IsCovered b (x ∷ xs) h → IsCovered (suc x) xs h
unfolding member
IsCovered-step b x h xs le (inl lt) = inl (omega arith)
IsCovered-step b x h xs le (inr m) = elim (Bool-cases (h == x)) [
  | inl same ↦ inl (ground arith)
  | inr other ↦ inr (ground arith)
]

insert_path-ProperAll :
    (b : ℕ) (xs : List ℕ) (h n : ℕ) (t : TrieNode)
    → From b xs
    → IsCovered b xs h
    → ProperAll b (children_of t)
    → ProperAll b (children_of (insert_path xs h n t))
unfolding insert_path member
insert_path-ProperAll b [] h n (node l c k ch) u (inl lt) p =
    ProperAll-put_child b h (count_leaf h n (find_child h ch)) ch
      (count_leaf-ProperAt b h n (find_child h ch) lt (λ t. ProperAll-find_child b h ch t p)) p
insert_path-ProperAll b [] h n (node l c k ch) u (inr m) p = absurd (ground arith)
insert_path-ProperAll b (x ∷ xs) h n (node l c k ch) u cov p =
    let next = child_or_new x (find_child x ch) in
    let ok = child_or_new-Proper b x (find_child x ch) u.0 (λ t. ProperAll-find_child b x ch t p) in
    let below =
      insert_path-ProperAll (suc x) xs h n next (from_above xs u.1)
        (IsCovered-step b x h xs u.0 cov) ok.1 in
    ProperAll-put_child b x (insert_path xs h n next) ch
      (ProperAt-inner b x (insert_path xs h n next) (is_leaf-insert_path xs h n next ∙ ok.0) u.0
        below)
      p
  where
    from_above : (ys : List ℕ) → Above x ys → From (suc x) ys
    from_above [] v = tt
    from_above (y ∷ ys) v = v

-- When `UpdateTrie` returns it has kept the shape in which leaves have no children, if the segment has
-- its elements in ascending order and its head among them.
pub update_trie-IsProper :
    (root_id : ℕ) (t : TrieNode) (seg : Segment) (leaves : List LeafRef) {t' : TrieNode}
    {leaves' : List LeafRef}
    → IsAscending seg.items
    → member seg.head seg.items ≡ true
    → IsProper t
    → update_trie root_id t seg leaves ≡ some (t', leaves')
    → IsProper t'
unfolding update_trie
update_trie-IsProper root_id t seg leaves {t'} u m p e = elim (Bool-cases (leb (size seg) 1)) [
  | inl short ↦ let same : t ≡ t' = ground arith in rw (← same) p
  | inr long ↦
      let same : t' ≡ insert_path seg.items seg.head seg.count t = ground arith in
      rw same (
        is_leaf-insert_path seg.items seg.head seg.count t ∙ p.0,
        insert_path-ProperAll 0 seg.items seg.head seg.count t (from_zero seg.items u) (inr m) p.1,
      )
]
  where
    from_zero : (ys : List ℕ) → IsAscending ys → From 0 ys
    from_zero [] v = tt
    from_zero (y ∷ ys) v = (omega arith, v)
