-- ===== src/Solver/Reuse/Leaves.antt =====
-- The segments of the leaves of a trie, and room for their counts in another one.
use pimprof.Base.{
  ℕ, zero, suc, ◌+◌, ◌%◌, ◌≤◌, ◌<◌, ◌≡◌, refl, inl, inr, true, List, [], ◌∷◌, ◌++◌, some, length,
  get_elem?, leb, arith, u64_mod, All, Bool-cases, Option-cases,
}
use mathlib.Core.List.{append_assoc}
use pimprof.DataReuse.Segment.{Segment, new_segment, size}
use pimprof.DataReuse.Trie.{
  TrieNode, LeafRef, insert_path, node_at, old_count, update_trie, export_segment,
}
use pimprof.Solver.Reuse.{export_leaf, root_of}
use pimprof.Solver.Reuse.Counts.{count_at, count_at-insert_path}

-- The leaves of the own trie `own` export the segments `segs`.
abbrev pub Exports : TrieNode → List LeafRef → List Segment → Type 0
Exports own [] [] = Unit {0}
Exports own [] (g ∷ segs) = ⊥
Exports own (r ∷ refs) [] = ⊥
Exports own (r ∷ refs) (g ∷ segs) =
    (r.root_id ≡ 0) × (export_segment new_segment own r.path ≡ some g) × Exports own refs segs

-- The counts of the first `n` segments.
unfoldable pub count_upto : ℕ → List Segment → ℕ
count_upto zero segs = 0
count_upto (suc n) [] = 0
count_upto (suc n) (g ∷ segs) = g.count + count_upto n segs

pub count_upto-suc :
    (i : ℕ) (segs : List Segment) {g : Segment}
    → get_elem? segs i ≡ some g
    → count_upto (suc i) segs ≡ count_upto i segs + g.count
unfolding count_upto
count_upto-suc zero [] e = absurd (ground arith)
count_upto-suc zero (x ∷ segs) e = ground arith
count_upto-suc (suc i) [] e = absurd (ground arith)
count_upto-suc (suc i) (x ∷ segs) {g} e = let r = count_upto-suc i segs {g = g} e in omega arith

pub count_upto-le :
    (i : ℕ) (segs : List Segment) → count_upto i segs ≤ count_upto (length segs) segs
unfolding count_upto
count_upto-le zero segs = ground arith
count_upto-le (suc i) [] = ground arith
count_upto-le (suc i) (x ∷ segs) = let r = count_upto-le i segs in omega arith

pub export_leaf-own :
    (own partial : TrieNode) (partial_id : ℕ) (r : LeafRef)
    → r.root_id ≡ 0
    → export_leaf own partial_id partial r ≡ export_segment new_segment own r.path
unfolding export_leaf root_of
export_leaf-own own partial partial_id r e = rw e refl

-- The leaf at an index, though later leaves follow, and its segment.
pub Exports-get :
    (own : TrieNode) (refs extra : List LeafRef) (segs : List Segment) (i : ℕ)
    → Exports own refs segs
    → i < length refs
    → (r : LeafRef) × (g : Segment) × (get_elem? (refs ++ extra) i ≡ some r)
      × (get_elem? segs i ≡ some g)
      × (r.root_id ≡ 0)
      × (export_segment new_segment own r.path ≡ some g)
Exports-get own [] extra segs i h l = absurd (ground arith)
Exports-get own (r ∷ refs) extra [] i h l = absurd h
Exports-get own (r ∷ refs) extra (g ∷ segs) zero h l = (r, g, refl, refl, h.0, h.1)
Exports-get own (r ∷ refs) extra (g ∷ segs) (suc i) h l =
    Exports-get own refs extra segs i h.2 (ground arith)

pub All-get {ℓ κ} :
    {A : Type ℓ} (P : A → Type κ) (xs : List A) (i : ℕ) {a : A}
    → All P xs
    → get_elem? xs i ≡ some a
    → P a
All-get P [] i h e = absurd (ground arith)
All-get P (x ∷ xs) zero {a} h e = let same : x ≡ a = ground arith in rw (← same) h.0
All-get P (x ∷ xs) (suc i) {a} h e = All-get P xs i {a = a} h.1 e

-- With room for its count, a segment joins a trie; new leaves come last.
pub update_trie-some :
    (pid : ℕ) (t : TrieNode) (g : Segment) (refs extra : List LeafRef)
    → count_at (g.items ++ (g.head ∷ [])) t + g.count < u64_mod
    → (t' : TrieNode) × (extra' : List LeafRef) × (update_trie pid t g (refs ++ extra)
        ≡ some (t', refs ++ extra'))
      × ((q : List ℕ) → count_at q t' ≤ count_at q t + g.count)
unfolding update_trie
update_trie-some pid t g refs extra room = elim (Bool-cases (leb (size g) 1)) [
  | inl short ↦ (t, extra, rw (short, update_trie) refl, λ q. omega arith)
  | inr long ↦
      let path = g.items ++ (g.head ∷ []) in
      let fits : leb (old_count (node_at path t)) ((old_count (node_at path t) + g.count) % u64_mod)
          ≡ true =
        ground arith in
      elim (Option-cases (node_at path t)) [
        | inl new ↦ (
          insert_path g.items g.head g.count t,
          extra ++ (record { root_id = pid; path = path } ∷ []),
          rw (long, fits, new, append_assoc) refl,
          count_at-insert_path_for,
        )
        | inr (u, old) ↦ (
          insert_path g.items g.head g.count t,
          extra,
          rw (long, fits, old) refl,
          count_at-insert_path_for,
        )
      ]
]
  where
    count_at-insert_path_for :
        (q : List ℕ) → count_at q (insert_path g.items g.head g.count t) ≤ count_at q t + g.count
    count_at-insert_path_for q = count_at-insert_path q g.items g.head g.count t
