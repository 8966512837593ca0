-- ===== src/Util/DisjointSet.antt =====
-- `DisjointSet`: `Find`, which halves the path to the root, and `Union`. `none` is a loop that ran
-- out of fuel.
pub mod Forest
pub mod Linked
mod Tests
pub mod Classes
pub mod Find
use pimprof.Base.{
  ℕ, zero, suc, List, [], ◌∷◌, ◌++◌, Option, none, some, length, if◌then◌else◌, ◌==◌, ◌>>=◌, lookup,
  put,
}
use pimprof.Common.{BblId}

abbrev pub Parents : Type 0
Parents = List (BblId × BblId)

-- `parent[l]` as a value and for what it does to the map: a missing key is inserted with 0.
unfoldable pub parent_of : BblId → Parents → BblId
unfolding lookup
parent_of l m = elim (lookup l m) [ none ↦ 0 | some p ↦ p ]

unfoldable pub touch : BblId → Parents → Parents
unfolding lookup put
touch l m = elim (lookup l m) [ none ↦ put l 0 m | some p ↦ m ]

-- The loop of `Find`: the test reads `parent[l]`, the body `parent[parent[l]]`.
unfoldable pub find_loop : ℕ → BblId → Parents → Option (BblId × Parents)
unfolding parent_of touch put
find_loop zero l m = none
find_loop (suc fuel) l m =
    let read = touch l m in
    let both = touch (parent_of l read) read in
    let grand = parent_of (parent_of l read) both in
    let rest = find_loop fuel grand (put l grand both) in
    if parent_of l read == l then some (l, read) else rest

unfoldable pub find : BblId → Parents → Option (BblId × Parents)
unfolding find_loop lookup put
find l m = elim (lookup l m) [
  | none ↦ some (l, put l l m)
  | some p ↦ find_loop (suc (length m)) l m
]

unfoldable pub union : BblId → BblId → Parents → Option Parents
unfolding find put
union a b m = do (x, m1) ← find a m; (y, m2) ← find b m1; some (put x y m2)

-- `Union` of each pair, in the order of the list.
unfoldable pub union_all : List (BblId × BblId) → Parents → Option Parents
unfolding union
union_all [] m = some m
union_all ((a, b) ∷ pairs) m = do m' ← union a b m; union_all pairs m'
