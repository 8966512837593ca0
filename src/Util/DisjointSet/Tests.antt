-- ===== src/Util/DisjointSet/Tests.antt =====
-- A chain of four identifiers, one apart, and what `Find` halves of it.
use pimprof.Base.{
  ◌≡◌, ◌↔◌, ◌-◌, ◌==◌, ◌&&◌, leb, min, refl, [], ◌∷◌, some, List, lookup, arith, if◌then◌else◌,
}
use pimprof.Common.{BblId}
use pimprof.Util.DisjointSet.{Parents, find, union_all}
use pimprof.Util.DisjointSet.Forest.{IsForest, Represents, links}
use pimprof.Util.DisjointSet.Find.{Found, find-Found}
use pimprof.Util.DisjointSet.Linked.{Linked, union_all-Linked}

abbrev pairs : List (BblId × BblId)
pairs = (1, 2) ∷ (2, 3) ∷ (3, 4) ∷ (7, 7) ∷ []

abbrev chain : Parents
chain = (1, 2) ∷ (2, 3) ∷ (3, 4) ∷ (4, 4) ∷ (7, 7) ∷ []

united : union_all pairs [] ≡ some chain
unfolding union_all
united = refl

halved : find 1 chain ≡ some (4, (1, 3) ∷ (2, 3) ∷ (3, 4) ∷ (4, 4) ∷ (7, 7) ∷ [])
unfolding find
halved = refl

union_all-Linked_example :
    (m m1 m2 : Parents) × (x y : BblId) × (union_all pairs [] ≡ some m)
    × (find 1 m ≡ some (x, m1))
    × (find 3 m1 ≡ some (y, m2))
    × ((x ≡ y) ↔ Linked pairs 1 3)
union_all-Linked_example = union_all-Linked pairs 1 3

abbrev rank : BblId → BblId
rank k = min (k - 1) 3

abbrev top : BblId → BblId
top k = if leb 1 k && leb k 4 then 4 else k

forest : IsForest rank chain
unfolding lookup links
forest = record {
  closed = λ k p h. last k p h;
  rising = λ k p h ne. ground arith;
  bounded = λ k. omega arith;
}
  where
    last : (k p : BblId) → lookup k chain ≡ some p → (q : BblId) × (lookup p chain ≡ some q)
    last k p h = (if p == 7 then 7 else if p == 2 then 3 else 4, ground arith)

represented : Represents top chain
unfolding lookup
represented = record {
  above = λ k p h. ground arith;
  at_root = λ k h. ground arith;
  absent = λ k h. ground arith;
}

find-Found_example : (m' : Parents) × (find 1 chain ≡ some (top 1, m')) × Found rank top chain 1 m'
find-Found_example = find-Found rank top 1 chain forest represented
