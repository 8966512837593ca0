-- ===== src/Util/DisjointSet/Linked.antt =====
-- What a run of unions computes, against the walks along its pairs.
use mathlib.Core.List.{Memᴰ}
use pimprof.Base.{
  ◌≡◌, ◌↔◌, refl, sym, ◌∙◌, inl, inr, List, [], ◌∷◌, some, arith, ◌==◌, subst, Bool-cases,
}
use pimprof.Common.{BblId}
use pimprof.Util.DisjointSet.{Parents, find, union_all}
use pimprof.Util.DisjointSet.Find.{find-Found}
use pimprof.Util.DisjointSet.Classes.{
  merge, classes, union_all-Represents, empty-IsForest, empty-Represents,
}

-- A walk along the pairs, each in either direction.
pub data Linked (pairs : List (BblId × BblId)) (a : BblId) : BblId → Type 0 where
  same : Linked pairs a a
  forth : {b c : BblId} → Linked pairs a b → Memᴰ (b, c) pairs → Linked pairs a c
  back : {b c : BblId} → Linked pairs a b → Memᴰ (c, b) pairs → Linked pairs a c

module _ {pairs : List (BblId × BblId)} where
  Linked-trans : {a b c : BblId} → Linked pairs a b → Linked pairs b c → Linked pairs a c
  Linked-trans p same = p
  Linked-trans p (forth q m) = forth (Linked-trans p q) m
  Linked-trans p (back q m) = back (Linked-trans p q) m

  Linked-sym : {a b : BblId} → Linked pairs a b → Linked pairs b a
  Linked-sym same = same
  Linked-sym (forth q m) = Linked-trans (back same m) (Linked-sym q)
  Linked-sym (back q m) = Linked-trans (forth same m) (Linked-sym q)

-- What is in one class stays in one class.
classes_keep :
    (pairs : List (BblId × BblId)) (root : BblId → BblId) (a b : BblId)
    → root a ≡ root b
    → classes pairs root a ≡ classes pairs root b
unfolding classes
classes_keep [] root a b e = e
classes_keep ((x, y) ∷ pairs) root a b e = classes_keep pairs (merge x y root) a b (ground arith)

classes_pair :
    (pairs : List (BblId × BblId)) (root : BblId → BblId) (a b : BblId)
    → Memᴰ (a, b) pairs
    → classes pairs root a ≡ classes pairs root b
unfolding classes
classes_pair [] root a b m = elim m [ ]
classes_pair ((x, y) ∷ pairs) root a b (Memᴰ.head e) =
    classes_keep pairs (merge x y root) a b (ground arith)
classes_pair ((x, y) ∷ pairs) root a b (Memᴰ.tail m) = classes_pair pairs (merge x y root) a b m

classes-Linked :
    (pairs : List (BblId × BblId)) (root : BblId → BblId) {a b : BblId}
    → Linked pairs a b
    → classes pairs root a ≡ classes pairs root b
classes-Linked pairs root same = refl
classes-Linked pairs root (forth q m) = classes-Linked pairs root q ∙ classes_pair pairs root _ _ m
classes-Linked pairs root (back q m) =
    classes-Linked pairs root q ∙ sym (classes_pair pairs root _ _ m)

-- One merge adds nothing but what the merged pair links.
merge-Linked :
    (pairs : List (BblId × BblId)) (root : BblId → BblId) (x y : BblId)
    → Memᴰ (x, y) pairs
    → ((a b : BblId) → root a ≡ root b → Linked pairs a b)
    → (a b : BblId) → merge x y root a ≡ merge x y root b
    → Linked pairs a b
unfolding merge
merge-Linked pairs root x y m h a b e = elim (Bool-cases (root a == root x)) [
  | inl p ↦ elim (Bool-cases (root b == root x)) [
    | inl q ↦ h a b (ground arith)
    | inr q ↦ Linked-trans (forth (h a x (ground arith)) m) (h y b (ground arith))
  ]
  | inr p ↦ elim (Bool-cases (root b == root x)) [
    | inl q ↦ Linked-trans (back (h a y (ground arith)) m) (h x b (ground arith))
    | inr q ↦ h a b (ground arith)
  ]
]

classes→Linked :
    (all pairs : List (BblId × BblId)) (root : BblId → BblId)
    → ((p : BblId × BblId) → Memᴰ p pairs → Memᴰ p all)
    → ((a b : BblId) → root a ≡ root b → Linked all a b)
    → (a b : BblId) → classes pairs root a ≡ classes pairs root b
    → Linked all a b
unfolding classes
classes→Linked all [] root sub h a b e = h a b e
classes→Linked all ((x, y) ∷ pairs) root sub h a b e =
    classes→Linked all pairs (merge x y root) (λ p m. sub p (Memᴰ.tail m))
      (merge-Linked all root x y (sub (x, y) (Memᴰ.head refl)) h) a b e

pub classes_iff :
    (pairs : List (BblId × BblId)) (a b : BblId)
    → (classes pairs (λ k. k) a ≡ classes pairs (λ k. k) b) ↔ Linked pairs a b
classes_iff pairs a b = (
  classes→Linked pairs pairs (λ k. k) (λ p m. m) (λ x y e. subst (Linked pairs x) e same) a b,
  classes-Linked pairs (λ k. k),
)

-- From the empty set, the unions of any list of pairs all end, and so do two further calls of
-- `Find`; these give the same root exactly if a walk along the pairs joins their arguments.
pub union_all-Linked :
    (pairs : List (BblId × BblId)) (a b : BblId)
    → (m m1 m2 : Parents) × (x y : BblId) × (union_all pairs [] ≡ some m)
      × (find a m ≡ some (x, m1))
      × (find b m1 ≡ some (y, m2))
      × ((x ≡ y) ↔ Linked pairs a b)
union_all-Linked pairs a b =
    let (m, rank, run, f, r, _) =
      union_all-Represents (λ _. 0) (λ k. k) pairs [] empty-IsForest empty-Represents in
    let root = classes pairs (λ k. k) in
    let (m1, run1, found1) = find-Found rank root a m f r in
    let (m2, run2, found2) = find-Found rank root b m1 found1.forest found1.represents in
    (m, m1, m2, root a, root b, run, run1, run2, classes_iff pairs a b)
