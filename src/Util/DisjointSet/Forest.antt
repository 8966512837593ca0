-- ===== src/Util/DisjointSet/Forest.antt =====
-- The parents of a `DisjointSet` form a forest, and stand for the function to the root.
use pimprof.Base.{
  ℕ, ◌+◌, ◌≤◌, ◌<◌, ◌≡◌, ◌≢◌, ◌⊎◌, refl, ◌∙◌, inl, inr, List, [], ◌∷◌, none, some, length,
  if◌then◌else◌, ◌==◌, arith, lookup, put, lookup-put, Bool-cases,
}
use pimprof.Common.{BblId}
use pimprof.Util.DisjointSet.{Parents}

-- The number of entries that are not roots.
unfoldable pub links : Parents → ℕ
links [] = 0
links ((k, p) ∷ m) = (if k == p then 0 else 1) + links m

pub links-le-length : (m : Parents) → links m ≤ length m
unfolding links
links-le-length [] = omega arith
links-le-length ((k, p) ∷ m) = ground (arith, links-le-length m)

pub links-put :
    (k v : BblId) (m : Parents)
    → links (put k v m) + elim (lookup k m) [ none ↦ 0 | some p ↦ if k == p then 0 else 1 ]
      ≡ (if k == v then 0 else 1) + links m
unfolding links lookup put
links-put k v [] = ground arith
links-put k v ((j, p) ∷ m) = ground (arith, links-put k v m)

-- The identifiers that were looked up, in the order of the first time.
abbrev pub keys : Parents → List BblId
keys [] = []
keys ((k, p) ∷ m) = k ∷ keys m

unfoldable pub add_key : BblId → List BblId → List BblId
add_key k [] = k ∷ []
add_key k (j ∷ js) = if j == k then j ∷ js else j ∷ add_key k js

pub keys-put : (k v : BblId) (m : Parents) → keys (put k v m) ≡ add_key k (keys m)
unfolding put add_key
keys-put k v [] = refl
keys-put k v ((j, p) ∷ m) = ground (arith, keys-put k v m)

pub add_key-present :
    (k p : BblId) (m : Parents) → lookup k m ≡ some p → add_key k (keys m) ≡ keys m
unfolding lookup add_key
add_key-present k p [] e = absurd (ground arith)
add_key-present k p ((j, q) ∷ m) e = ground (arith, add_key-present k p m)

-- The rank of an entry is below that of its parent, and no rank is above the number of links.
pub record IsForest (rank : BblId → ℕ) (m : Parents) : Type 0 where
  pub closed : (k p : BblId) → lookup k m ≡ some p → (q : BblId) × (lookup p m ≡ some q)
  pub rising : (k p : BblId) → lookup k m ≡ some p → p ≢ k → rank k < rank p
  pub bounded : (k : BblId) → rank k ≤ links m

-- `root` is what the parents lead to; an identifier that was never looked up is its own root.
pub record Represents (root : BblId → BblId) (m : Parents) : Type 0 where
  pub above : (k p : BblId) → lookup k m ≡ some p → root k ≡ root p
  pub at_root : (k : BblId) → lookup k m ≡ some k → root k ≡ k
  pub absent : (k : BblId) → lookup k m ≡ none → root k ≡ k

module _ (k v : BblId) (m : Parents) where
  -- What a write does at another key, and at its own.
  pub lookup-put_ne : (j : BblId) → j ≢ k → lookup j (put k v m) ≡ lookup j m
  lookup-put_ne j h = rw lookup-put (ground arith)

  pub lookup-put_eq : lookup k (put k v m) ≡ some v
  lookup-put_eq = rw lookup-put (ground arith)

  -- A write keeps the keys.
  pub put-key : (j a : BblId) → lookup j m ≡ some a → (b : BblId) × (lookup j (put k v m) ≡ some b)
  put-key j a h = elim (Bool-cases (k == j)) [
    | inl e ↦ (v, ground (arith, lookup-put k v m j))
    | inr e ↦ (a, ground (arith, lookup-put k v m j))
  ]

  -- An entry after the write is the written one, or was there.
  pub put-entry :
      (j a : BblId)
      → lookup j (put k v m) ≡ some a
      → ((j ≡ k) × (a ≡ v)) ⊎ ((j ≢ k) × (lookup j m ≡ some a))
  put-entry j a h = elim (Bool-cases (k == j)) [
    | inl e ↦ inl (ground (arith, lookup-put k v m j))
    | inr e ↦ inr (ground arith, ground (arith, lookup-put k v m j))
  ]

-- A step of the path halving keeps the forest, the roots and the function.
module _ {rank : BblId → ℕ} (l p q : BblId) (m : Parents) (f : IsForest rank m)
    (hl : lookup l m ≡ some p) (hp : lookup p m ≡ some q) (far : p ≢ l) where
  pub rank-grand : rank l < rank q
  rank-grand = elim (Bool-cases (q == p)) [
    | inl e ↦ ground (arith, f.rising l p hl far)
    | inr e ↦ ground (arith, f.rising l p hl far, f.rising p q hp)
  ]

  pub links-halve : links (put l q m) ≡ links m
  links-halve = ground (arith, links-put l q m, rank-grand)

  pub halve-IsForest : IsForest rank (put l q m)
  halve-IsForest = record {
    closed = λ k v h. elim (put-entry l q m k v h) [
      | inl (a, b) ↦ rw b (put-key l q m q _ (f.closed p q hp).1)
      | inr (a, b) ↦ put-key l q m v _ (f.closed k v b).1
    ];
    rising = λ k v h ne. elim (put-entry l q m k v h) [
      | inl (a, b) ↦ rw (a, b) rank-grand
      | inr (a, b) ↦ f.rising k v b ne
    ];
    bounded = λ k. rw links-halve (f.bounded k);
  }

  pub halve-Represents : {root : BblId → BblId} → Represents root m → Represents root (put l q m)
  halve-Represents r = record {
    above = λ k v h. elim (put-entry l q m k v h) [
      | inl (a, b) ↦ rw (a, b) (r.above l p hl ∙ r.above p q hp)
      | inr (a, b) ↦ r.above k v b
    ];
    at_root = λ k h. elim (put-entry l q m k k h) [
      | inl (a, b) ↦ absurd (ground (arith, rank-grand))
      | inr (a, b) ↦ r.at_root k b
    ];
    absent = λ k h. elim (Bool-cases (l == k)) [
      | inl e ↦ absurd (ground (arith, lookup-put l q m k))
      | inr e ↦ r.absent k (ground (arith, lookup-put l q m k))
    ];
  }
