-- ===== src/DataReuse/Trie/Labels.antt =====
-- Tries in which each node stands under its own key, as `UpdateTrie` keeps them.
use pimprof.Base.{
  ℕ, ◌≡◌, refl, ◌∙◌, inl, inr, List, [], ◌∷◌, Option, none, some, arith, ltb, ◌==◌, Bool-cases,
  Option-cases,
}
use pimprof.DataReuse.Trie.{
  TrieNode, Children, node, nil, child, cur_of, find_child, put_child, child_or_new, count_leaf,
  insert_path,
}

-- Each child stands under the key that its `_cur` holds.
abbrev mutual
  pub Labelled : TrieNode → Type 0
  Labelled (node l c k ch) = LabelledAll ch

  pub LabelledAll : Children → Type 0
  LabelledAll nil = Unit {0}
  LabelledAll (child key t rest) = (cur_of t ≡ key) × Labelled t × LabelledAll rest

pub LabelledAll-find_child :
    (key : ℕ) (ch : Children) (t : TrieNode)
    → LabelledAll ch
    → find_child key ch ≡ some t
    → (cur_of t ≡ key) × Labelled t
unfolding find_child
LabelledAll-find_child key nil t h e = absurd (ground arith)
LabelledAll-find_child key (child j u rest) t h e = elim (Bool-cases (j == key)) [
  | inl here ↦ let same : u ≡ t = ground arith in rw (← same) (ground arith, h.1)
  | inr there ↦ LabelledAll-find_child key rest t h.2 (ground arith)
]

pub LabelledAll-put_child :
    (key : ℕ) (t : TrieNode) (ch : Children)
    → cur_of t ≡ key
    → Labelled t
    → LabelledAll ch
    → LabelledAll (put_child key t ch)
unfolding put_child
LabelledAll-put_child key t nil e l h = (e, l, tt)
LabelledAll-put_child key t (child j u rest) e l h =
    let below = LabelledAll-put_child key t rest e l h.2 in
    elim (Bool-cases (ltb key j)) [
      | inl less ↦ rw less (e, l, h)
      | inr more ↦ rw more (elim (Bool-cases (j == key)) [
        | inl same ↦ rw same (e, l, h.2)
        | inr other ↦ rw other (h.0, h.1, below)
      ])
    ]

pub cur_of-insert_path :
    (xs : List ℕ) (h n : ℕ) (t : TrieNode) → cur_of (insert_path xs h n t) ≡ cur_of t
unfolding insert_path
cur_of-insert_path [] h n (node l c k ch) = refl
cur_of-insert_path (x ∷ xs) h n (node l c k ch) = refl

pub child_or_new-Labelled :
    (key : ℕ) (ch : Children)
    → LabelledAll ch
    → (cur_of (child_or_new key (find_child key ch)) ≡ key)
      × Labelled (child_or_new key (find_child key ch))
unfolding child_or_new
child_or_new-Labelled key ch h = elim (Option-cases (find_child key ch)) [
  | inl e ↦ rw (e, child_or_new) (refl, tt)
  | inr (t, e) ↦ rw (e, child_or_new) (LabelledAll-find_child key ch t h e)
]

pub count_leaf-Labelled :
    (key n : ℕ) (o : Option TrieNode)
    → ((t : TrieNode) → o ≡ some t → (cur_of t ≡ key) × Labelled t)
    → (cur_of (count_leaf key n o) ≡ key) × Labelled (count_leaf key n o)
unfolding count_leaf
count_leaf-Labelled key n none h = (refl, tt)
count_leaf-Labelled key n (some (node l c k ch)) h = h (node l c k ch) refl

pub insert_path-Labelled :
    (xs : List ℕ) (h n : ℕ) (t : TrieNode) → Labelled t → Labelled (insert_path xs h n t)
unfolding insert_path
insert_path-Labelled [] h n (node l c k ch) w =
    let leaf = count_leaf-Labelled h n (find_child h ch) (λ t. LabelledAll-find_child h ch t w) in
    LabelledAll-put_child h (count_leaf h n (find_child h ch)) ch leaf.0 leaf.1 w
insert_path-Labelled (x ∷ xs) h n (node l c k ch) w =
    let next = child_or_new x (find_child x ch) in
    let ok = child_or_new-Labelled x ch w in
    LabelledAll-put_child x (insert_path xs h n next) ch (cur_of-insert_path xs h n next ∙ ok.0)
      (insert_path-Labelled xs h n next ok.1) w
