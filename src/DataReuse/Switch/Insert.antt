-- ===== src/DataReuse/Switch/Insert.antt =====
-- `SwitchCountMatrix::insert` finds both indices, whatever the matrix holds.
use pimprof.Base.{
  ℕ, suc, ◌≡◌, inl, inr, List, [], ◌∷◌, ◌++◌, some, ◌==◌, arith, Option-cases, Bool-cases, ==_refl,
}
use pimprof.DataReuse.Switch.{Matrix, index_from, get_idx, create_elem, bump, insert}

index_from-append :
    (i elem j : ℕ) (xs ys : List ℕ)
    → index_from i elem xs ≡ some j
    → index_from i elem (xs ++ ys) ≡ some j
unfolding index_from
index_from-append i elem j [] ys e = absurd (ground arith)
index_from-append i elem j (x ∷ xs) ys e = ground (arith, index_from-append (suc i) elem j xs ys)

index_from-snoc :
    (i elem : ℕ) (xs : List ℕ) → (j : ℕ) × (index_from i elem (xs ++ (elem ∷ [])) ≡ some j)
unfolding index_from
index_from-snoc i elem [] = (i, rw (==_refl elem))
index_from-snoc i elem (x ∷ xs) =
    let (j, e) = index_from-snoc (suc i) elem xs in
    elim (Bool-cases (x == elem)) [ inl here ↦ (i, rw here) | inr there ↦ (j, rw there e) ]

get_idx-create_elem_self :
    (elem : ℕ) (m : Matrix) → (j : ℕ) × (get_idx elem (create_elem elem m) ≡ some j)
unfolding get_idx create_elem
get_idx-create_elem_self elem m = elim (Option-cases (index_from 0 elem m.elems)) [
  | inl e ↦ rw (e, create_elem) (index_from-snoc 0 elem m.elems)
  | inr (j, e) ↦ (j, rw (e, create_elem) e)
]

get_idx-create_elem :
    (elem other j : ℕ) (m : Matrix)
    → get_idx elem m ≡ some j
    → get_idx elem (create_elem other m) ≡ some j
unfolding get_idx create_elem
get_idx-create_elem elem other j m e = elim (Option-cases (index_from 0 other m.elems)) [
  | inl new ↦ rw (new, create_elem) (index_from-append 0 elem j m.elems (other ∷ []) e)
  | inr (i, old) ↦ rw (old, create_elem) e
]

pub insert-total : (from to n : ℕ) (m : Matrix) → (m' : Matrix) × (insert from to n m ≡ some m')
unfolding insert
insert-total from to n m =
    let (i, found) = get_idx-create_elem_self from m in
    let (j, target) = get_idx-create_elem_self to (create_elem from m) in
    (
      bump i j n (create_elem to (create_elem from m)),
      rw (get_idx-create_elem from to i (create_elem from m) found, target),
    )
