-- ===== src/Solver/Policies/Complete.antt =====
-- Decisions that name a site for every basic block, and the sites that a decision file may give.
use pimprof.Base.{ℕ, ◌≡◌, inl, inr, ◌⊎◌, [], ◌∷◌, some, length, arith, All, Bool-cases}
use pimprof.Common.{Uuid, CostSite, follower, IsSite, Decision, uuid_eq}
use pimprof.Solver.Policies.{FileDecision, find_site}

-- Sites that a file may give.
abbrev pub IsFileSite : CostSite → Type 0
IsFileSite site = IsSite site ⊎ (site ≡ follower)

pub find_site-All :
    (P : CostSite → Type 0) (u : Uuid) (file : FileDecision) {site : CostSite}
    → All (λ e. P e.1) file
    → find_site u file ≡ some site
    → P site
unfolding find_site
find_site-All P u [] h e = absurd (ground arith)
find_site-All P u ((v, old) ∷ rest) {site} h e = elim (Bool-cases (uuid_eq v u)) [
  | inl here ↦ let same : old ≡ site = ground arith in rw (← same) h.0
  | inr there ↦ find_site-All P u rest h.1 (ground arith)
]

-- A decision of CPU or PIM for `n` basic blocks.
abbrev pub IsComplete : ℕ → Decision → Type 0
IsComplete n dec = All IsSite dec × (length dec ≡ n)
