-- ===== src/Solver/Policies/Placement.antt =====
-- Which site each policy gives to each basic block.
use pimprof.Base.{ℕ, zero, suc, List, ◌∷◌, none, some, Double, if◌then◌else◌}
use pimprof.Common.{CostSite, cpu, follower, invalid, site_eq, uuid_eq, main_bblhash}
use pimprof.Solver.RunStats.{ThreadRunStats}
use pimprof.Solver.Cost.{Solver}
use pimprof.Solver.Policies.{FileDecision, find_site, faster, follow}

-- The site of the last basic block up to `i` that follows no other, or `pre` if there is none.
abbrev pub lead : CostSite → (ℕ → CostSite) → ℕ → CostSite
lead pre choice zero = follow pre (choice 0)
lead pre choice (suc i) =
    if site_eq (choice (suc i)) follower then lead pre choice i else choice (suc i)

module _ {ℓ} {C : Type ℓ} ⦃d : Double C⦄ where
  open d use {of_count, mul, div, truncate, lt, le}

  -- The site that a decision file names for a basic block, `Follower` included.
  abbrev pub named : FileDecision → ThreadRunStats C → CostSite
  named file p = elim (find_site p.bblhash file) [ none ↦ cpu | some site ↦ site ]

  -- What the static policy starts from.
  abbrev pub sca_choice :
      FileDecision → List (ThreadRunStats C) → List (ThreadRunStats C) → ℕ → CostSite
  sca_choice file (p ∷ ps) (q ∷ qs) zero =
      if uuid_eq p.bblhash main_bblhash then faster p q else named file p
  sca_choice file (p ∷ ps) (q ∷ qs) (suc i) = sca_choice file ps qs i
  sca_choice file _ _ i = invalid
