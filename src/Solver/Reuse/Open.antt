-- ===== src/Solver/Reuse/Open.antt =====
-- Along the loops of a search each basic block is on a site or open, and none is open at their end.
use pimprof.Base.{
  ℕ, zero, suc, ◌^◌, ◌≡◌, refl, ap, ◌∙◌, ◌⊎◌, inl, inr, Bool, true, false, List, [], ◌∷◌, length,
  set, leb, ◌%◌, ◌/◌, ◌==◌, if◌then◌else◌, arith, Double, Bool-cases, Option, some, >>=-eq-some,
  All, All-set, length-set, get_elem?, assert_that, ltb,
}
use pimprof.Common.{BblId, CostSite, cpu, pim, invalid, Decision, IsSite, site_eq}
use pimprof.DataReuse.Segment.{Segment, size}
use pimprof.DataReuse.Trie.{TrieNode, update_trie}
use pimprof.Solver.RunStats.{ThreadRunStats, max_time}
use pimprof.Solver.Cost.{Solver, cost_of}
use pimprof.Solver.Search.{assign, permute_loop, permute_decision}
use pimprof.Solver.Reuse.{State, export_leaf, place_segment, visit, descend, decide_rest}

-- While segments are placed, a basic block is on CPU or PIM, or still open.
abbrev pub IsOpen : CostSite → Type 0
IsOpen s = IsSite s ⊎ (s ≡ invalid)

assign-All :
    (dec : Decision) (batch : List BblId) (permute : ℕ)
    → All IsOpen dec
    → All IsOpen (assign dec batch permute)
unfolding assign
assign-All dec [] permute h = h
assign-All dec (b ∷ batch) permute h =
    assign-All (set dec b (if permute % 2 == 1 then pim else cpu)) batch (permute / 2)
      (All-set IsOpen dec b _ h (placed (permute % 2 == 1)))
  where
    placed : (bit : Bool) → IsOpen (if bit then pim else cpu)
    placed true = inl (inr refl)
    placed false = inl (inl refl)

length-assign :
    (dec : Decision) (batch : List BblId) (permute : ℕ)
    → length (assign dec batch permute) ≡ length dec
unfolding assign
length-assign dec [] permute = refl
length-assign dec (b ∷ batch) permute =
    length-assign (set dec b (if permute % 2 == 1 then pim else cpu)) batch (permute / 2)
    ∙ length-set dec b (if permute % 2 == 1 then pim else cpu)

-- A decision of `n` basic blocks, some still open.
abbrev pub IsPartial : ℕ → Decision → Type 0
IsPartial n dec = All IsOpen dec × (length dec ≡ n)

module _ {ℓ} {C : Type ℓ} ⦃d : Double C⦄ where
  permute_loop-IsPartial :
      (cost : Decision → C) (n : ℕ) (batch : List BblId) (rounds : ℕ) (temp : Decision)
      (best : Decision × C)
      → IsPartial n temp
      → IsPartial n best.0
      → IsPartial n (permute_loop cost batch rounds temp best).0
  unfolding permute_loop
  permute_loop-IsPartial cost n batch zero temp best t b = b
  permute_loop-IsPartial cost n batch (suc rounds) temp best t b =
      let temp' = assign temp batch rounds in
      let t' : IsPartial n temp' =
        (assign-All temp batch rounds t.0, length-assign temp batch rounds ∙ t.1) in
      elim (Bool-cases (d.lt (cost temp') best.1)) [
        | inl e ↦
            rw (e, permute_loop)
              (permute_loop-IsPartial cost n batch rounds temp' (temp', cost temp') t' t')
        | inr e ↦ rw (e, permute_loop) (permute_loop-IsPartial cost n batch rounds temp' best t' b)
      ]

  permute_decision-IsPartial :
      (cost : Decision → C) (n : ℕ) (dec : Decision) (batch : List BblId) {best : Decision × C}
      → IsPartial n dec
      → permute_decision cost dec batch ≡ some best
      → IsPartial n best.0
  unfolding permute_decision
  permute_decision-IsPartial cost n dec batch {best} p e =
      let (_, _, e') = >>=-eq-some (assert_that (ltb (length batch) 64)) _ e in
      let (_, _, e'') = >>=-eq-some (assert_that (ltb (length batch) 31)) _ e' in
      let same : permute_loop cost batch (2 ^ length batch) dec (dec, d.flt_max) ≡ best =
        ground arith in
      rw (← same) (permute_loop-IsPartial cost n batch (2 ^ length batch) dec (dec, d.flt_max) p p)

module _ {ℓ} {C : Type ℓ} ⦃d : Double C⦄ (s : Solver C) (own : TrieNode) (partial_id : ℕ) where
  place_segment-IsPartial :
      (n : ℕ) (extend : Segment → Option Segment) (seg : Segment) (st : State C) {st' : State C}
      → IsPartial n st.decision
      → place_segment s extend seg st ≡ some st'
      → IsPartial n st'.decision
  unfolding place_segment
  place_segment-IsPartial n extend seg st {st'} p e =
      let (seg', _, e') = >>=-eq-some (extend seg) _ e in
      let (best, found, e'') =
        >>=-eq-some (permute_decision (λ dec. cost_of dec s st.partial) st.decision seg'.items) _
          e' in
      let same : best.0 ≡ st'.decision = ground arith in
      rw (← same) (
        permute_decision-IsPartial (λ dec. cost_of dec s st.partial) n st.decision seg'.items p
          found)

  visit-IsPartial :
      (n : ℕ) (extend : Segment → Option Segment) (i : ℕ) (st : State C) {st' : State C}
      → IsPartial n st.decision
      → visit s own partial_id extend i st ≡ some st'
      → IsPartial n st'.decision
  unfolding visit
  visit-IsPartial n extend i st {st'} p e =
      let (ref, _, e1) = >>=-eq-some (get_elem? st.leaves i) _ e in
      let (seg, _, e2) = >>=-eq-some (export_leaf own partial_id st.partial ref) _ e1 in
      let (r, _, e3) = >>=-eq-some (update_trie partial_id st.partial seg st.leaves) _ e2 in
      elim (Bool-cases (leb s.batch_size (size seg))) [
        | inl long ↦ let same : st.decision ≡ st'.decision = ground arith in rw (← same) p
        | inr short ↦
            place_segment-IsPartial n extend seg (record st { partial = r.0; leaves = r.1 })
              {st' = st'} p (ground arith)
      ]

  pub descend-IsPartial :
      (n : ℕ) (extend : Segment → Option Segment) (i : ℕ) (st : State C) {st' : State C}
      → IsPartial n st.decision
      → descend s own partial_id extend i st ≡ some st'
      → IsPartial n st'.decision
  unfolding descend
  descend-IsPartial n extend zero st {st'} p e =
      let same : st.decision ≡ st'.decision = ground arith in rw (← same) p
  descend-IsPartial n extend (suc i) st p e =
      let (mid, first, e') = >>=-eq-some (visit s own partial_id extend i st) _ e in
      descend-IsPartial n extend i mid (visit-IsPartial n extend i st p first) e'

module _ {ℓ} {C : Type ℓ} ⦃d : Double C⦄ where
  -- After the open basic blocks are decided, none is left open.
  pub decide_rest_complete :
      (dec : Decision) (ps qs : List (ThreadRunStats C))
      → All IsOpen dec
      → length dec ≡ length ps
      → length dec ≡ length qs
      → All IsSite (decide_rest dec ps qs) × (length (decide_rest dec ps qs) ≡ length dec)
  unfolding decide_rest
  decide_rest_complete [] [] [] h e f = (tt, refl)
  decide_rest_complete [] [] (q ∷ qs) h e f = absurd (omega arith)
  decide_rest_complete [] (p ∷ ps) qs h e f = absurd (omega arith)
  decide_rest_complete (site ∷ dec) [] qs h e f = absurd (omega arith)
  decide_rest_complete (site ∷ dec) (p ∷ ps) [] h e f = absurd (omega arith)
  decide_rest_complete (site ∷ dec) (p ∷ ps) (q ∷ qs) h e f =
      let (rest, size_kept) = decide_rest_complete dec ps qs h.1 (omega arith) (omega arith) in
      ((decided site h.0 (d.le (max_time p) (max_time q)), rest), ap suc size_kept)
    where
      choice : (b : Bool) → IsSite (if b then cpu else pim)
      choice true = inl refl
      choice false = inr refl

      decided :
          (s : CostSite)
          → IsOpen s
          → (b : Bool) → IsSite (if site_eq s invalid then (if b then cpu else pim) else s)
      decided s (inr e) b = rw e (choice b)
      decided s (inl (inl e)) b = rw e (inl refl)
      decided s (inl (inr e)) b = rw e (inr refl)
