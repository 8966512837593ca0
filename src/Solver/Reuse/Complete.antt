-- ===== src/Solver/Reuse/Complete.antt =====
-- What `PrintReuseStats` returns is a decision for every basic block, and the best of its candidates.
use pimprof.Base.{
  ℕ, suc, ◌≡◌, refl, sym, ◌∙◌, ◌⊎◌, inl, inr, true, false, List, [], ◌∷◌, length, replicate, arith,
  Double, IsOrdered, Bool-cases, lt_irrefl, not-lt_trans, Option, some, ◌>>=◌, >>=-eq-some, All,
  All-replicate, length-replicate,
}
use mathlib.Core.List.{Mem, mem-cons_self, mem-cons_of_mem}
use pimprof.Common.{CostSite, Decision}
use pimprof.DataReuse.Segment.{Segment}
use pimprof.DataReuse.Trie.{TrieNode, LeafRef, new_node}
use pimprof.Solver.Cost.{Solver, cost_of}
use pimprof.Solver.Search.{flip_twice}
use pimprof.Solver.Search.Flips.{IsPriced, flip_twice-IsPriced}
use pimprof.Solver.Reuse.Open.{IsOpen, IsPartial, descend-IsPartial, decide_rest_complete}
use pimprof.Solver.Reuse.{descend, find_start, decide_rest, search_from, try_inits, widen}

lower_still {ℓ} :
    {C : Type ℓ} ⦃d : Double C⦄ (laws : IsOrdered C) (x y z : C)
    → d.lt x y ≡ true
    → d.lt y z ≡ true
    → d.lt x z ≡ true
lower_still {C} ⦃d⦄ laws x y z e f = elim (Bool-cases (d.lt x z)) [
  | inl g ↦ g
  | inr g ↦ let h = not-lt_trans laws z x y g (laws.lt_asym x y e) in absurd (ground (arith, f, h))
]

module _ {ℓ} {C : Type ℓ} ⦃d : Double C⦄ (laws : IsOrdered C) (s : Solver C) (own : TrieNode) where
  open d use {lt, flt_max}

  -- Decisions for all basic blocks, with their cost by the whole trie.
  abbrev pub IsCandidate : Decision × C → Type ℓ
  IsCandidate = IsPriced (λ dec. cost_of dec s own) (length s.cpu_stats)

  search_from-IsCandidate :
      (partial_id : ℕ) (extend : Segment → Option Segment) (init : CostSite) (leaves : List LeafRef)
      {dec : Decision} {total : C} {leaves' : List LeafRef}
      → length s.pim_stats ≡ length s.cpu_stats
      → IsOpen init
      → search_from s own partial_id extend init leaves ≡ some (dec, total, leaves')
      → IsCandidate (dec, total)
  unfolding search_from
  search_from-IsCandidate partial_id extend init leaves {dec} {total} aligned open_init e =
      let n = length s.cpu_stats in
      let cost = λ (c : Decision). cost_of c s own in
      let begin : IsPartial n (replicate n init) =
        (All-replicate IsOpen n init open_init, length-replicate n init) in
      let (start, _, e1) = >>=-eq-some (find_start s own partial_id new_node 0 leaves) _ e in
      let (st, went, e2) = >>=-eq-some (descend s own partial_id extend (suc start) _) _ e1 in
      let (open_st, size_st) =
        descend-IsPartial s own partial_id n extend (suc start) _ begin went in
      let complete = decide_rest st.decision s.cpu_stats s.pim_stats in
      let (sites, size_kept) =
        decide_rest_complete st.decision s.cpu_stats s.pim_stats open_st size_st
          (size_st ∙ sym aligned) in
      let priced : IsCandidate (complete, cost complete) = record {
        complete = sites;
        size_kept = size_kept ∙ size_st;
        priced = refl;
      } in
      let best : flip_twice cost n (complete, cost complete) ≡ (dec, total) = ground arith in
      rw (← best) (flip_twice-IsPriced laws cost n n (complete, cost complete) priced).0

  -- The outcomes of the three searches, each with the leaves that the one before it left behind.
  unfoldable pub candidates : ℕ → List CostSite → List LeafRef → Option (List (Decision × C))
  candidates partial_id [] leaves = some []
  candidates partial_id (init ∷ inits) leaves = do
    (decision, cur_total, leaves') ←
        search_from s own partial_id (widen s.batch_size s.switch_count) init leaves
    rest ← candidates (suc partial_id) inits leaves'
    some ((decision, cur_total) ∷ rest)

  -- `best` beats or equals all candidates, and is one of them that costs less than `start`, or it is
  -- `start` itself.
  pub record IsBest (start best : Decision × C) (cs : List (Decision × C)) : Type ℓ where
    pub candidate : All IsCandidate cs
    pub below_start : lt start.1 best.1 ≡ false
    pub minimal : All (λ c. lt c.1 best.1 ≡ false) cs
    pub attained : (best ≡ start) ⊎ (IsCandidate best × Mem best cs × (lt best.1 start.1 ≡ true))

  IsBest-lower :
      (start best c : Decision × C) (cs : List (Decision × C))
      → IsCandidate c
      → lt c.1 start.1 ≡ true
      → IsBest c best cs
      → IsBest start best (c ∷ cs)
  IsBest-lower start best c cs good lower b = record {
    candidate = (good, b.candidate);
    below_start =
        not-lt_trans laws best.1 c.1 start.1 b.below_start (laws.lt_asym c.1 start.1 lower);
    minimal = (b.below_start, b.minimal);
    attained = elim b.attained [
      | inl e ↦ inr (rw e (good, mem-cons_self, lower))
      | inr (fine, m, l) ↦
          inr (fine, mem-cons_of_mem c m, lower_still laws best.1 c.1 start.1 l lower)
    ];
  }

  IsBest-keep :
      (start best c : Decision × C) (cs : List (Decision × C))
      → IsCandidate c
      → lt c.1 start.1 ≡ false
      → IsBest start best cs
      → IsBest start best (c ∷ cs)
  IsBest-keep start best c cs good worse b = record {
    candidate = (good, b.candidate);
    below_start = b.below_start;
    minimal = (not-lt_trans laws best.1 start.1 c.1 b.below_start worse, b.minimal);
    attained = elim b.attained [
      | inl e ↦ inl e
      | inr (fine, m, l) ↦ inr (fine, mem-cons_of_mem c m, l)
    ];
  }

  pub try_inits-IsBest :
      (partial_id : ℕ) (inits : List CostSite) (start : Decision × C) (leaves : List LeafRef)
      {dec : Decision} {total : C} {leaves' : List LeafRef}
      → length s.pim_stats ≡ length s.cpu_stats
      → All IsOpen inits
      → try_inits s own partial_id inits (start.0, start.1, leaves) ≡ some (dec, total, leaves')
      → (cs : List (Decision × C)) × (candidates partial_id inits leaves ≡ some cs)
        × IsBest start (dec, total) cs
  unfolding try_inits candidates
  try_inits-IsBest partial_id [] start leaves {dec} {total} aligned opens e =
      let same : start ≡ (dec, total) = ground arith in
      (
        [],
        refl,
        rw (← same) (record {
          candidate = tt;
          below_start = lt_irrefl laws start.1;
          minimal = tt;
          attained = inl refl;
        }),
      )
  try_inits-IsBest partial_id (init ∷ inits) start leaves {dec} {total} {leaves'} aligned opens e =
      let (r, ran, e1) =
        >>=-eq-some (search_from s own partial_id (widen s.batch_size s.switch_count) init leaves) _
          e in
      let good =
        search_from-IsCandidate partial_id (widen s.batch_size s.switch_count) init leaves aligned
          opens.0 ran in
      let c : Decision × C = (r.0, r.1) in
      elim (Bool-cases (lt r.1 start.1)) [
        | inl lower ↦
            let (cs, listed, b) =
              try_inits-IsBest (suc partial_id) inits c r.2 {dec = dec} {total = total}
                {leaves' = leaves'} aligned opens.1 (rw lower at e1) in
            (c ∷ cs, rw (ran, listed), IsBest-lower start (dec, total) c cs good lower b)
        | inr worse ↦
            let (cs, listed, b) =
              try_inits-IsBest (suc partial_id) inits start r.2 {dec = dec} {total = total}
                {leaves' = leaves'} aligned opens.1 (rw worse at e1) in
            (c ∷ cs, rw (ran, listed), IsBest-keep start (dec, total) c cs good worse b)
      ]
