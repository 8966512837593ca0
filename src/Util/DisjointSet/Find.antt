-- ===== src/Util/DisjointSet/Find.antt =====
-- `Find` ends, at the root, and halves only paths: the forest and its function stay as they are.
use pimprof.Base.{
  ℕ, zero, suc, ◌+◌, ◌<◌, ◌≡◌, ◌≢◌, refl, sym, ◌∙◌, inl, inr, none, some, if◌then◌else◌, ◌==◌,
  arith, length, lookup, put, lookup-put, Bool-cases, Option-cases,
}
use pimprof.Common.{BblId}
use pimprof.Util.DisjointSet.{Parents, touch, parent_of, find_loop, find}
use pimprof.Util.DisjointSet.Forest.{
  links, links-le-length, links-put, IsForest, Represents, lookup-put_ne, lookup-put_eq, put-entry,
  put-key, keys, add_key, keys-put, add_key-present, links-halve, halve-IsForest, halve-Represents,
  rank-grand,
}

-- What holds after `Find(l)` has given `root l`.
pub record Found (rank : BblId → ℕ) (root : BblId → BblId) (m : Parents) (l : BblId) (m' : Parents)
    : Type 0 where
  pub forest : IsForest rank m'
  pub represents : Represents root m'
  pub is_root : lookup (root l) m' ≡ some (root l)
  pub grown : keys m' ≡ add_key l (keys m)
  pub keeps : (j : BblId) → lookup j m ≡ some j → lookup j m' ≡ some j

module _ (fuel : ℕ) (l p q : BblId) (m : Parents) where
  -- A round in a forest reads no missing entry.
  find_loop-suc :
      lookup l m ≡ some p
      → lookup p m ≡ some q
      → find_loop (suc fuel) l m ≡ (if p == l then some (l, m) else find_loop fuel q (put l q m))
  unfolding find_loop touch parent_of
  find_loop-suc hl hp = ground arith

find_loop-Found :
    (rank : BblId → ℕ) (root : BblId → BblId) (fuel : ℕ) (l p : BblId) (m : Parents)
    → IsForest rank m
    → Represents root m
    → lookup l m ≡ some p
    → links m < fuel + rank l
    → (m' : Parents) × (find_loop fuel l m ≡ some (root l, m')) × Found rank root m l m'
find_loop-Found rank root zero l p m f r hl enough = absurd (omega (arith, f.bounded l))
find_loop-Found rank root (suc fuel) l p m f r hl enough =
    let (q, hp) = f.closed l p hl in
    let step = find_loop-suc fuel l p q m hl hp in
    elim (Bool-cases (p == l)) [
      | inl e ↦
          let stay : lookup l m ≡ some l = ground arith in
          let same : root l ≡ l = r.at_root l stay in
          (
            m,
            step ∙ rw (e, same) refl,
            record {
              forest = f;
              represents = r;
              is_root = rw same stay;
              grown = sym (add_key-present l p m hl);
              keeps = λ j h. h;
            },
          )
      | inr e ↦
          let far : p ≢ l = ground arith in
          let up : root l ≡ root q = r.above l p hl ∙ r.above p q hp in
          let (q', hq) = put-key l q m q _ (f.closed p q hp).1 in
          let (m', run, found) =
            find_loop-Found rank root fuel q q' (put l q m) (halve-IsForest l p q m f hl hp far)
              (halve-Represents l p q m f hl hp far r) hq
              (omega
                (arith, links-halve l p q m f hl hp far, rank-grand l p q m f hl hp far, enough)) in
          (
            m',
            step ∙ rw (e, up) run,
            record {
              forest = found.forest;
              represents = found.represents;
              is_root = rw up found.is_root;
              grown = found.grown ∙ add_key-present q q' (put l q m) hq ∙ keys-put l q m;
              keeps = λ j h. found.keeps j (lookup-put_ne l q m j (ground (arith, h, hl, far)) ∙ h);
            },
          )
    ]

-- An identifier that is looked up for the first time becomes a root.
module _ (rank root : BblId → BblId) (l : BblId) (m : Parents) (new : lookup l m ≡ none) where
  insert-Found : IsForest rank m → Represents root m → Found rank root m l (put l l m)
  insert-Found f r = record {
    forest = record {
      closed = λ k v h. elim (put-entry l l m k v h) [
        | inl (a, b) ↦ rw b (l, lookup-put_eq l l m)
        | inr (a, b) ↦ put-key l l m v _ (f.closed k v b).1
      ];
      rising = λ k v h ne. elim (put-entry l l m k v h) [
        | inl (a, b) ↦ absurd (ground arith)
        | inr (a, b) ↦ f.rising k v b ne
      ];
      bounded = λ k. omega (arith, f.bounded k, ground-links);
    };
    represents = record {
      above = λ k v h. elim (put-entry l l m k v h) [
        | inl (a, b) ↦ rw (a, b) refl
        | inr (a, b) ↦ r.above k v b
      ];
      at_root = λ k h. elim (put-entry l l m k k h) [
        | inl (a, b) ↦ rw a (r.absent l new)
        | inr (a, b) ↦ r.at_root k b
      ];
      absent = λ k h. elim (Bool-cases (l == k)) [
        | inl e ↦ absurd (ground (arith, lookup-put l l m k))
        | inr e ↦ r.absent k (ground (arith, lookup-put l l m k))
      ];
    };
    is_root = rw (r.absent l new) (lookup-put_eq l l m);
    grown = keys-put l l m;
    keeps = λ j h. lookup-put_ne l l m j (ground arith) ∙ h;
  }
    where
      ground-links : links (put l l m) ≡ links m
      ground-links = ground (arith, links-put l l m)

module _ (l : BblId) (m : Parents) where
  find-absent : lookup l m ≡ none → find l m ≡ some (l, put l l m)
  unfolding find
  find-absent new = rw (new, find) refl

  find-present : (p : BblId) → lookup l m ≡ some p → find l m ≡ find_loop (suc (length m)) l m
  unfolding find
  find-present p old = rw (old, find) refl

-- In a forest `Find` ends within its fuel and gives the root; the forest, the function to the root
-- and every root stay.
pub find-Found :
    (rank root : BblId → BblId) (l : BblId) (m : Parents)
    → IsForest rank m
    → Represents root m
    → (m' : Parents) × (find l m ≡ some (root l, m')) × Found rank root m l m'
find-Found rank root l m f r = elim (Option-cases (lookup l m)) [
  | inl new ↦ (
    put l l m,
    find-absent l m new ∙ rw (r.absent l new) refl,
    insert-Found rank root l m new f r,
  )
  | inr (p, old) ↦
      rw (find-present l m p old) (
        find_loop-Found rank root (suc (length m)) l p m f r old (omega (arith, links-le-length m)))
]
