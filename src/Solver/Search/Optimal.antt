-- ===== src/Solver/Search/Optimal.antt =====
-- `PermuteDecision` finds a cheapest placement of the batch.
use pimprof.Base.{
  ℕ, zero, suc, ◌^◌, ◌<◌, ◌≡◌, refl, ◌∙◌, ◌⊎◌, inl, inr, Bool, true, false, List, length, some,
  ◌==◌, arith, Double, IsOrdered, Bool-cases, ==_iff, lt_irrefl, not-lt_trans, lt_trans,
}
use pimprof.Common.{BblId, Decision}
use pimprof.Solver.Search.{assign, permute_loop, permute_decision}
use pimprof.Solver.Search.Batch.{place, mask_of, mask_of-lt, assign-mask_of, assign-assign}

module _ {ℓ} {C : Type ℓ} ⦃d : Double C⦄ (laws : IsOrdered C) (cost : Decision → C) where
  open d use {flt_max, lt}

  -- The total never grows along the rounds.
  permute_loop-le :
      (batch : List BblId) (n : ℕ) (temp : Decision) (best : Decision × C)
      → lt best.1 (permute_loop cost batch n temp best).1 ≡ false
  unfolding permute_loop
  permute_loop-le batch zero temp best = lt_irrefl laws best.1
  permute_loop-le batch (suc n) temp best =
      let temp' = assign temp batch n in
      elim (Bool-cases (lt (cost temp') best.1)) [
        | inl better ↦
            rw (better, permute_loop)
              (not-lt_trans laws _ (cost temp') best.1
                (permute_loop-le batch n temp' (temp', cost temp'))
                (laws.lt_asym (cost temp') best.1 better))
        | inr worse ↦ rw (worse, permute_loop) (permute_loop-le batch n temp' best)
      ]

  -- No round that the loop made is cheaper than its result.
  permute_loop-min :
      (batch : List BblId) (n k : ℕ) (dec temp : Decision) (best : Decision × C)
      → ((m : ℕ) → assign temp batch m ≡ assign dec batch m)
      → k < n
      → lt (cost (assign dec batch k)) (permute_loop cost batch n temp best).1 ≡ false
  unfolding permute_loop
  permute_loop-min batch zero k dec temp best same h = elim h [ ]
  permute_loop-min batch (suc n) k dec temp best same h =
      let temp' = assign temp batch n in
      let same' : (m : ℕ) → assign temp' batch m ≡ assign dec batch m =
        λ m. assign-assign temp batch n m ∙ same m in
      elim (Bool-cases (k == n)) [
        | inr earlier ↦ permute_loop-min batch n k dec temp' _ same' (ground arith)
        | inl now ↦
            let here : k ≡ n = (==_iff k n).0 now in
            rw (here, ← same n)
              (elim (Bool-cases (lt (cost temp') best.1)) [
                | inl better ↦
                    rw (better, permute_loop) (permute_loop-le batch n temp' (temp', cost temp'))
                | inr worse ↦
                    rw (worse, permute_loop)
                      (not-lt_trans laws _ best.1 (cost temp') (permute_loop-le batch n temp' best)
                        worse)
              ])
      ]

  -- The state of the loop is the one that it began with, or one of its rounds with its cost.
  abbrev pub IsRound : List BblId → Decision → Decision × C → Decision × C → Type ℓ
  IsRound batch dec start best =
      ((best.0 ≡ start.0) × (best.1 ≡ start.1))
      ⊎ ((k : ℕ) × (best.0 ≡ assign dec batch k)
          × (best.1 ≡ cost best.0)
          × (lt best.1 start.1 ≡ true))

  permute_loop-IsRound :
      (batch : List BblId) (n : ℕ) (dec temp : Decision) (start best : Decision × C)
      → ((m : ℕ) → assign temp batch m ≡ assign dec batch m)
      → IsRound batch dec start best
      → IsRound batch dec start (permute_loop cost batch n temp best)
  unfolding permute_loop
  permute_loop-IsRound batch zero dec temp start best same h = h
  permute_loop-IsRound batch (suc n) dec temp start best same h =
      let temp' = assign temp batch n in
      let same' : (m : ℕ) → assign temp' batch m ≡ assign dec batch m =
        λ m. assign-assign temp batch n m ∙ same m in
      elim (Bool-cases (lt (cost temp') best.1)) [
        | inr worse ↦
            rw (worse, permute_loop) (permute_loop-IsRound batch n dec temp' start best same' h)
        | inl better ↦
            rw (better, permute_loop)
              (permute_loop-IsRound batch n dec temp' start (temp', cost temp') same'
                (inr (n, same n, refl, below temp' better h)))
      ]
    where
      below :
          (temp' : Decision)
          → lt (cost temp') best.1 ≡ true
          → IsRound batch dec start best
          → lt (cost temp') start.1 ≡ true
      below temp' better (inl (_, e)) = rw (← e) better
      below temp' better (inr (k, _, _, lower)) =
          lt_trans laws (cost temp') best.1 start.1 better lower

  -- `PermuteDecision` on a batch of at most 30 basic blocks returns; no placement of the batch is
  -- cheaper than its total; and its decision is the given one, at the initial `FLT_MAX`, or a
  -- placement of the batch whose cost is the total and below `FLT_MAX`.
  pub permute_decision-optimal :
      (dec : Decision) (batch : List BblId)
      → length batch < 31
      → (best : Decision × C) × (permute_decision cost dec batch ≡ some best)
        × ((choices : List Bool)
            → length choices ≡ length batch
            → lt (cost (place dec batch choices)) best.1 ≡ false)
        × IsRound batch dec (dec, flt_max) best
  unfolding permute_decision
  permute_decision-optimal dec batch h = (
    permute_loop cost batch (2 ^ length batch) dec (dec, flt_max),
    ground arith,
    λ choices e. rw (← assign-mask_of dec batch choices e) (
        permute_loop-min batch (2 ^ length batch) (mask_of choices) dec dec (dec, flt_max)
          (λ m. refl) (rw (← e) (mask_of-lt choices))),
    permute_loop-IsRound batch (2 ^ length batch) dec dec (dec, flt_max) (dec, flt_max) (λ m. refl)
        (inl (refl, refl)),
  )
