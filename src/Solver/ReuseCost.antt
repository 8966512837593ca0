-- ===== src/Solver/ReuseCost.antt =====
-- `ReuseCost` against its meaning: each counted segment whose basic blocks do not all run on the
-- site of its head costs its count times one flush and one fetch, whatever the shape of the trie.
use pimprof.Base.{
  ℕ, suc, ◌≡◌, refl, inl, inr, Bool, true, false, not, ◌&&◌, ◌||◌, List, [], ◌∷◌, ◌++◌, foldl,
  arith, Double, ◌==◌, if◌then◌else◌, Bool-cases, ==_iff,
}
use mathlib.Core.List.{foldl-append}
use pimprof.Common.{BblId, CostSite, site_eq, Decision, site_at, site_eq_refl, site_eq→eq}
use pimprof.DataReuse.Segment.{member}
use pimprof.DataReuse.Trie.{TrieNode, Children, node, nil, child, cur_of, children_of}
use pimprof.DataReuse.Trie.Labels.{Labelled, LabelledAll}
use pimprof.DataReuse.Trie.Proper.{ProperAt, ProperAll, IsProper}
use pimprof.Solver.Cost.{
  Solver, leaf_cost, trie_bfs, bfs_children, reuse_loop, reuse_cost, bfs_assert, bfs_assert_all,
}

-- A counted segment: the keys on the way to its leaf, the last of which is the head.
pub record Counted : Type 0 where
  pub path : List BblId
  pub head : BblId
  pub count : ℕ

unfoldable mutual
  pub counted_at : List BblId → BblId → TrieNode → List Counted
  counted_at path key (node true cur n ch) =
      record { path = path; head = key; count = n } ∷ counted_all path ch
  counted_at path key (node false cur n ch) = counted_all path ch

  pub counted_all : List BblId → Children → List Counted
  counted_all path nil = []
  counted_all path (child key t rest) =
      counted_at (path ++ (key ∷ [])) key t ++ counted_all path rest

-- Every segment that a trie counts, in the order of its keys.
abbrev pub counted_segments : TrieNode → List Counted
counted_segments t = counted_all [] (children_of t)

-- All of these basic blocks run on `site`.
unfoldable pub same_site : Decision → CostSite → List BblId → Bool
same_site dec site [] = true
same_site dec site (x ∷ xs) = site_eq (site_at dec x) site && same_site dec site xs

same_site-snoc :
    (dec : Decision) (site : CostSite) (xs : List BblId) (key : BblId)
    → site_eq (site_at dec key) site ≡ true
    → same_site dec site (xs ++ (key ∷ [])) ≡ same_site dec site xs
unfolding same_site
same_site-snoc dec site [] key e = rw e
same_site-snoc dec site (x ∷ xs) key e = rw (same_site-snoc dec site xs key e)

same_site-member :
    (dec : Decision) (site : CostSite) (xs : List BblId) (x : BblId)
    → member x xs ≡ true
    → same_site dec site xs ≡ true
    → site_eq (site_at dec x) site ≡ true
unfolding same_site member
same_site-member dec site [] x m h = absurd (ground arith)
same_site-member dec site (y ∷ ys) x m h = elim (Bool-cases (x == y)) [
  | inl here ↦ let e : x ≡ y = (==_iff x y).0 here in rw e (ground arith)
  | inr there ↦ same_site-member dec site ys x (ground arith) (ground arith)
]

member-snoc : (x : BblId) (xs : List BblId) → member x (xs ++ (x ∷ [])) ≡ true
unfolding member
member-snoc x [] = ground arith
member-snoc x (y ∷ ys) = ground (arith, member-snoc x ys)

-- One step down: the flag of `TrieBFS` tells whether the path is split between sites.
is_different-step :
    (dec : Decision) (path : List BblId) (bblid key : BblId) (is_different : Bool)
    → member bblid path ≡ true
    → is_different ≡ not (same_site dec (site_at dec bblid) path)
    → (is_different || not (site_eq (site_at dec bblid) (site_at dec key)))
      ≡ not (same_site dec (site_at dec key) (path ++ (key ∷ [])))
is_different-step dec path bblid key is_different m e =
    rw (same_site-snoc dec (site_at dec key) path key (site_eq_refl (site_at dec key)))
      (elim (Bool-cases (site_eq (site_at dec bblid) (site_at dec key))) [
        | inl same ↦
            let sites : site_at dec bblid ≡ site_at dec key = site_eq→eq _ _ same in
            rw (same, e, sites) (ground arith)
        | inr other ↦ ground (arith, same_site-member dec (site_at dec key) path bblid m)
      ])

module _ {ℓ} {C : Type ℓ} ⦃d : Double C⦄ (dec : Decision) (s : Solver C) where
  -- What a segment adds to the cost.
  unfoldable pub charge : C → Counted → C
  charge cost seg =
      if same_site dec (site_at dec seg.head) seg.path
      then cost
      else d.add cost (leaf_cost dec s seg.head seg.count)

  mutual
    unfolding trie_bfs counted_at charge

    trie_bfs-charge :
        (b : ℕ) (cost : C) (path : List BblId) (key : BblId) (t : TrieNode) (is_different : Bool)
        → ProperAt b key t
        → cur_of t ≡ key
        → Labelled t
        → member key path ≡ true
        → is_different ≡ not (same_site dec (site_at dec key) path)
        → trie_bfs dec s cost key t is_different ≡ foldl charge cost (counted_at path key t)
    trie_bfs-charge b cost path key (node true cur n ch) diff p l w m e =
        rw (p.1, l, e) (ground arith)
    trie_bfs-charge b cost path key (node false cur n ch) diff p l w m e =
        bfs_children-charge (suc key) cost path key ch diff p.1 w m e

    bfs_children-charge :
        (b : ℕ) (cost : C) (path : List BblId) (bblid : BblId) (ch : Children) (is_different : Bool)
        → ProperAll b ch
        → LabelledAll ch
        → member bblid path ≡ true
        → is_different ≡ not (same_site dec (site_at dec bblid) path)
        → bfs_children dec s cost bblid ch is_different ≡ foldl charge cost (counted_all path ch)
    bfs_children-charge b cost path bblid nil diff p w m e = refl
    bfs_children-charge b cost path bblid (child key t rest) diff p w m e =
        rw
          (
            foldl-append,
            ← trie_bfs-charge b cost (path ++ (key ∷ [])) key t
                (diff || not (site_eq (site_at dec bblid) (site_at dec key))) p.0 w.0 w.1
                (member-snoc key path) (is_different-step dec path bblid key diff m e),
          )
          (bfs_children-charge b _ path bblid rest diff p.1 w.2 m e)

  reuse_loop-charge :
      (cost : C) (ch : Children)
      → ProperAll 0 ch
      → LabelledAll ch
      → reuse_loop dec s cost ch ≡ foldl charge cost (counted_all [] ch)
  unfolding reuse_loop counted_at same_site member
  reuse_loop-charge cost nil p w = refl
  reuse_loop-charge cost (child key t rest) p w =
      rw
        (
          foldl-append,
          ← trie_bfs-charge 0 cost (key ∷ []) key t false p.0 w.0 w.1 (ground arith)
              (rw (site_eq_refl (site_at dec key))),
        )
        (reuse_loop-charge (trie_bfs dec s cost key t false) rest p.1 w.2)

  -- On every trie of the shape that `UpdateTrie` builds, `ReuseCost` is the sum over all counted
  -- segments, in the order of their keys, of what each split segment costs.
  pub reuse_cost-charge :
      (t : TrieNode)
      → IsProper t
      → Labelled t
      → reuse_cost dec s t ≡ foldl charge d.nought (counted_segments t)
  unfolding reuse_cost
  reuse_cost-charge (node l c k ch) p w = reuse_loop-charge d.nought ch p.1 w

mutual
  unfolding bfs_assert

  bfs_assert-Labelled :
      (key : BblId) (t : TrieNode) → cur_of t ≡ key → Labelled t → bfs_assert key t ≡ true
  bfs_assert-Labelled key (node true cur n ch) e w = ground arith
  bfs_assert-Labelled key (node false cur n ch) e w = bfs_assert_all-Labelled ch w

  bfs_assert_all-Labelled : (ch : Children) → LabelledAll ch → bfs_assert_all ch ≡ true
  bfs_assert_all-Labelled nil w = refl
  bfs_assert_all-Labelled (child key t rest) w =
      ground (arith, bfs_assert-Labelled key t w.0 w.1, bfs_assert_all-Labelled rest w.2)

pub bfs_assert_all-root : (t : TrieNode) → Labelled t → bfs_assert_all (children_of t) ≡ true
bfs_assert_all-root (node l c k ch) w = bfs_assert_all-Labelled ch w
