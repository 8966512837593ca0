-- ===== src/Util/DisjointSet/Classes.antt =====
-- `Union` merges two classes, and a run of unions computes the equivalence that its pairs generate.
use pimprof.Base.{
  ℕ, suc, ◌≡◌, refl, ap, ◌∙◌, inl, inr, List, [], ◌∷◌, some, if◌then◌else◌, ◌==◌, arith, max,
  lookup, put, lookup-put, Bool-cases,
}
use pimprof.Common.{BblId}
use pimprof.Util.DisjointSet.{Parents, union, union_all}
use pimprof.Util.DisjointSet.Forest.{
  links, keys, add_key, keys-put, add_key-present, links-put, IsForest, Represents, put-entry,
  put-key,
}
use pimprof.Util.DisjointSet.Find.{find-Found}

-- The class of `a` joins that of `b`.
unfoldable pub merge : BblId → BblId → (BblId → BblId) → BblId → BblId
merge a b root k = if root k == root a then root b else root k

-- The ranks after the root `x` was hung under the root `y`.
raise : BblId → BblId → (BblId → ℕ) → BblId → ℕ
raise x y rank k = if x == y then rank k else if k == y then max (rank y) (suc (rank x)) else rank k

module _ (rank root : BblId → BblId) (a b : BblId) (m : Parents) (f : IsForest rank m)
    (r : Represents root m) (ha : lookup (root a) m ≡ some (root a))
    (hb : lookup (root b) m ≡ some (root b)) where
  link-IsForest : IsForest (raise (root a) (root b) rank) (put (root a) (root b) m)
  unfolding raise
  link-IsForest = record {
    closed = λ k v h. elim (put-entry (root a) (root b) m k v h) [
      | inl (p, q) ↦ rw q (put-key (root a) (root b) m (root b) _ hb)
      | inr (p, q) ↦ put-key (root a) (root b) m v _ (f.closed k v q).1
    ];
    rising = λ k v h ne. elim (put-entry (root a) (root b) m k v h) [
      | inl (p, q) ↦ ground arith
      | inr (p, q) ↦ ground (arith, f.rising k v q ne)
    ];
    bounded = λ k. ground (
      arith,
      links-put (root a) (root b) m,
      ha,
      f.bounded k,
      f.bounded (root a),
      f.bounded (root b),
    );
  }

  link-Represents : Represents (merge a b root) (put (root a) (root b) m)
  unfolding merge
  link-Represents = record {
    above = λ k v h. elim (put-entry (root a) (root b) m k v h) [
      | inl (p, q) ↦ ground (arith, r.at_root (root a) ha, r.at_root (root b) hb)
      | inr (p, q) ↦ ground (arith, r.above k v q)
    ];
    at_root = λ k h. elim (put-entry (root a) (root b) m k k h) [
      | inl (p, q) ↦ ground (arith, r.at_root (root a) ha, r.at_root (root b) hb)
      | inr (p, q) ↦ ground (arith, r.at_root k q)
    ];
    absent = λ k h. elim (Bool-cases (root a == k)) [
      | inl e ↦ absurd (ground (arith, lookup-put (root a) (root b) m k))
      | inr e ↦ ground (arith, r.absent k (ground (arith, lookup-put (root a) (root b) m k)))
    ];
  }

-- In a forest `Union` ends; what is left is a forest in which just the two classes are one.
pub union-Represents :
    (rank root : BblId → BblId) (a b : BblId) (m : Parents)
    → IsForest rank m
    → Represents root m
    → (m' : Parents) × (rank' : BblId → ℕ) × (union a b m ≡ some m')
      × IsForest rank' m'
      × Represents (merge a b root) m'
      × (keys m' ≡ add_key b (add_key a (keys m)))
unfolding union
union-Represents rank root a b m f r =
    let (m1, run1, found1) = find-Found rank root a m f r in
    let (m2, run2, found2) = find-Found rank root b m1 found1.forest found1.represents in
    let ha = found2.keeps (root a) found1.is_root in
    (
      put (root a) (root b) m2,
      raise (root a) (root b) rank,
      rw (run1, run2) refl,
      link-IsForest rank root a b m2 found2.forest found2.represents ha found2.is_root,
      link-Represents rank root a b m2 found2.forest found2.represents ha found2.is_root,
      keys-put (root a) (root b) m2
          ∙ add_key-present (root a) (root a) m2 ha
          ∙ found2.grown
          ∙ ap (add_key b) found1.grown,
    )

-- The identifiers of a list of pairs, each once, after those of `ids`.
unfoldable pub keys_of : List (BblId × BblId) → List BblId → List BblId
unfolding add_key
keys_of [] ids = ids
keys_of ((a, b) ∷ pairs) ids = keys_of pairs (add_key b (add_key a ids))

-- The function to the root after a run of unions.
unfoldable pub classes : List (BblId × BblId) → (BblId → BblId) → BblId → BblId
unfolding merge
classes [] root = root
classes ((a, b) ∷ pairs) root = classes pairs (merge a b root)

pub union_all-Represents :
    (rank root : BblId → BblId) (pairs : List (BblId × BblId)) (m : Parents)
    → IsForest rank m
    → Represents root m
    → (m' : Parents) × (rank' : BblId → ℕ) × (union_all pairs m ≡ some m')
      × IsForest rank' m'
      × Represents (classes pairs root) m'
      × (keys m' ≡ keys_of pairs (keys m))
unfolding union_all classes keys_of
union_all-Represents rank root [] m f r = (m, rank, refl, f, r, refl)
union_all-Represents rank root ((a, b) ∷ pairs) m f r =
    let (m1, rank1, run1, f1, r1, k1) = union-Represents rank root a b m f r in
    let (m2, rank2, run2, f2, r2, k2) =
      union_all-Represents rank1 (merge a b root) pairs m1 f1 r1 in
    (m2, rank2, rw run1 run2, f2, r2, k2 ∙ ap (keys_of pairs) k1)

-- The empty set: every identifier is its own root.
pub empty-IsForest : IsForest (λ _. 0) []
unfolding lookup links
empty-IsForest = record {
  closed = λ k p h. absurd (ground arith);
  rising = λ k p h ne. absurd (ground arith);
  bounded = λ k. omega arith;
}

pub empty-Represents : Represents (λ k. k) []
unfolding lookup
empty-Represents = record {
  above = λ k p h. absurd (ground arith);
  at_root = λ k h. refl;
  absent = λ k h. refl;
}
