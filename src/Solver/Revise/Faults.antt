-- ===== src/Solver/Revise/Faults.antt =====
-- When `TopReuseBBPairs` reads the first element of an empty vector.
use mathlib.Core.List.{Permᴰ}
use mathlib.Core.List.Permᴰ
use mathlib.Core.Option.{none-ne-some}
use pimprof.Base.{
  ◌≡◌, ◌≢◌, ◌↔◌, refl, sym, ◌∙◌, inl, inr, ◌⊎◌, List, [], ◌∷◌, none, some, length, Double, All,
  arith,
}
use pimprof.Common.{BblId, Decision}
use pimprof.Solver.Cost.{Solver}
use pimprof.Solver.Policies.{FileDecision}
use pimprof.Solver.Input.{PairCosts, add_pair}
use pimprof.Solver.Revise.{add_costs, inter_bb_total_cost, top_cost, top_reuse_bb_pairs}
use pimprof.Solver.Revise.Loops.{InRange}
use pimprof.Solver.Revise.Majority.{top_reuse_bb_pairs-IsRevised}

Permᴰ-nil {ℓ} : {A : Type ℓ} {xs ys : List A} → Permᴰ xs ys → xs ≡ [] → ys ≡ []
Permᴰ-nil Permᴰ.nil e = refl
Permᴰ-nil (Permᴰ.cons p d) e = absurd (ground arith)
Permᴰ-nil (Permᴰ.swap p q) e = absurd (ground arith)
Permᴰ-nil (Permᴰ.trans d d') e = Permᴰ-nil d' (Permᴰ-nil d e)

module _ {ℓ} {C : Type ℓ} ⦃d : Double C⦄ where
  add_pair-ne-nil :
      (key : BblId × BblId) (cost : C) (costs : PairCosts C) → add_pair key cost costs ≢ []
  unfolding add_pair
  add_pair-ne-nil key cost [] = λ e. ground arith
  add_pair-ne-nil key cost ((j, c) ∷ rest) = λ e. ground arith

  add_costs-nil :
      (unit : C) (moved total : PairCosts C)
      → add_costs unit moved total ≡ []
      → (moved ≡ []) × (total ≡ [])
  unfolding add_costs
  add_costs-nil unit [] total e = (refl, e)
  add_costs-nil unit ((key, amount) ∷ rest) total e =
      absurd (add_pair-ne-nil key _ total (add_costs-nil unit rest _ e).1)

  inter_bb_total_cost-nil :
      (s : Solver C) (cl_dm reg_dm : PairCosts C)
      → (inter_bb_total_cost s cl_dm reg_dm ≡ []) ↔ ((cl_dm ≡ []) × (reg_dm ≡ []))
  unfolding inter_bb_total_cost add_costs
  inter_bb_total_cost-nil s cl_dm reg_dm = (
    λ e.
        let (on_reg, rest) = add_costs-nil _ reg_dm _ e in
        ((add_costs-nil _ cl_dm [] rest).0, on_reg),
    λ e. rw (e.0, e.1) refl,
  )

  top_cost-cases :
      (vec : PairCosts C)
      → ((vec ≡ []) × (top_cost vec ≡ none)) ⊎ ((vec ≢ []) × (c : C) × (top_cost vec ≡ some c))
  unfolding top_cost
  top_cost-cases [] = inl (refl, refl)
  top_cost-cases ((key, c) ∷ rest) = inr (λ e. ground arith, c, refl)

  -- With pairs of basic blocks of the decision and a sort that keeps the elements, the revision faults
  -- exactly if no data moves between basic blocks: it reads the first element of an empty vector.
  pub top_reuse_bb_pairs-none :
      (order : PairCosts C → PairCosts C) (threshold : C) (s : Solver C)
      (cl_dm reg_dm : PairCosts C) (sca : FileDecision) (dec : Decision)
      → ((xs : PairCosts C) → Permᴰ (order xs) xs)
      → length dec ≡ length s.cpu_stats
      → All (InRange (length dec)) cl_dm
      → All (InRange (length dec)) reg_dm
      → (top_reuse_bb_pairs order threshold s cl_dm reg_dm sca dec ≡ none)
        ↔ ((cl_dm ≡ []) × (reg_dm ≡ []))
  unfolding top_reuse_bb_pairs
  top_reuse_bb_pairs-none order threshold s cl_dm reg_dm sca dec perm same hc hr =
      elim (top_cost-cases (order (inter_bb_total_cost s cl_dm reg_dm))) [
        | inl (e, nothing) ↦ (
          λ _. (inter_bb_total_cost-nil s cl_dm reg_dm).0 (Permᴰ-nil (perm _) e),
          λ _. rw nothing refl,
        )
        | inr (ne, top1, top) ↦
            let given =
              top_reuse_bb_pairs-IsRevised order threshold top1 s cl_dm reg_dm sca dec perm same hc
                hr top in
            (
              λ e. absurd (none-ne-some _ (sym e ∙ given.2)),
              λ e. absurd (
                  ne (
                    Permᴰ-nil (Permᴰ.symm (perm _))
                      ((inter_bb_total_cost-nil s cl_dm reg_dm).1 e))),
            )
      ]
