-- ===== src/Solver/Search/Batch.antt =====
-- The placements of a batch: every choice of sites for its basic blocks is one value of `permute`.
use native.Mathlib.Nat.{pow-suc}
use pimprof.Base.{
  ℕ, ◌+◌, ◌*◌, ◌/◌, ◌%◌, ◌^◌, ◌<◌, ◌≡◌, refl, sym, ap, ◌∙◌, inl, inr, Bool, true, false, List, [],
  ◌∷◌, length, set, get_elem?, Option, none, some, ◌==◌, if◌then◌else◌, arith, list_ext,
  get_elem?-set, Option-cases,
}
use mathlib.Core.Option
use pimprof.Common.{BblId, CostSite, cpu, pim, Decision}
use pimprof.Solver.Search.{assign}

-- `true` places a basic block on PIM.
abbrev pub site_of : Bool → CostSite
site_of true = pim
site_of false = cpu

-- The decision with the basic blocks of the batch on the chosen sites.
unfoldable pub place : Decision → List BblId → List Bool → Decision
place dec (b ∷ batch) (c ∷ choices) = place (set dec b (site_of c)) batch choices
place dec _ _ = dec

abbrev bit_of : Bool → ℕ
bit_of true = 1
bit_of false = 0

-- The value of `permute` that makes the choices.
unfoldable pub mask_of : List Bool → ℕ
mask_of [] = 0
mask_of (c ∷ choices) = bit_of c + 2 * mask_of choices

pub assign-mask_of :
    (dec : Decision) (batch : List BblId) (choices : List Bool)
    → length choices ≡ length batch
    → assign dec batch (mask_of choices) ≡ place dec batch choices
unfolding assign place mask_of
assign-mask_of dec [] [] e = refl
assign-mask_of dec [] (c ∷ choices) e = absurd (omega arith)
assign-mask_of dec (b ∷ batch) [] e = absurd (omega arith)
assign-mask_of dec (b ∷ batch) (true ∷ choices) e =
    let odd : (1 + 2 * mask_of choices) % 2 ≡ 1 = omega arith in
    let half : (1 + 2 * mask_of choices) / 2 ≡ mask_of choices = omega arith in
    rw (odd, half) (assign-mask_of (set dec b pim) batch choices (omega arith))
assign-mask_of dec (b ∷ batch) (false ∷ choices) e =
    let even : (0 + 2 * mask_of choices) % 2 ≡ 0 = omega arith in
    let half : (0 + 2 * mask_of choices) / 2 ≡ mask_of choices = omega arith in
    rw (even, half) (assign-mask_of (set dec b cpu) batch choices (omega arith))

pub mask_of-lt : (choices : List Bool) → mask_of choices < 2 ^ length choices
unfolding mask_of
mask_of-lt [] = omega arith
mask_of-lt (true ∷ choices) = rw pow-suc (omega (arith, mask_of-lt choices))
mask_of-lt (false ∷ choices) = rw pow-suc (omega (arith, mask_of-lt choices))

-- The site that a round writes at an index, if the batch holds it.
written : List BblId → ℕ → ℕ → Option CostSite
written [] permute i = none
written (b ∷ batch) permute i = elim (written batch (permute / 2) i) [
  | none ↦ if b == i then some (if permute % 2 == 1 then pim else cpu) else none
  | some s ↦ some s
]

abbrev overlay : Option CostSite → Option CostSite → Option CostSite
overlay none old = old
overlay (some s) old = Option.map (λ _. s) old

get_elem?-assign :
    (dec : Decision) (batch : List BblId) (permute i : ℕ)
    → get_elem? (assign dec batch permute) i ≡ overlay (written batch permute i) (get_elem? dec i)
unfolding assign written
get_elem?-assign dec [] permute i = refl
get_elem?-assign dec (b ∷ batch) permute i =
    let site : CostSite = if permute % 2 == 1 then pim else cpu in
    get_elem?-assign (set dec b site) batch (permute / 2) i
    ∙ ground (arith, get_elem?-set dec b site i, get_elem? dec i)

written-none :
    (batch : List BblId) (m n i : ℕ) → written batch m i ≡ none → written batch n i ≡ none
unfolding written
written-none [] m n i e = refl
written-none (b ∷ batch) m n i e = elim (Option-cases (written batch (m / 2) i)) [
  | inl missing ↦ ground (arith, written-none batch (m / 2) (n / 2) i missing)
  | inr (s, found) ↦ absurd (ground arith)
]

overlay-overlay :
    (new old at : Option CostSite)
    → (new ≡ none → old ≡ none)
    → overlay new (overlay old at) ≡ overlay new at
overlay-overlay none none at h = refl
overlay-overlay none (some t) at h = absurd (ground (arith, h refl))
overlay-overlay (some s) none at h = refl
overlay-overlay (some s) (some t) none h = refl
overlay-overlay (some s) (some t) (some u) h = refl

-- A round overwrites all that the rounds before it wrote.
pub assign-assign :
    (dec : Decision) (batch : List BblId) (m n : ℕ)
    → assign (assign dec batch m) batch n ≡ assign dec batch n
assign-assign dec batch m n = list_ext _ _ λ i.
    get_elem?-assign (assign dec batch m) batch n i
    ∙ ap (overlay (written batch n i)) (get_elem?-assign dec batch m i)
    ∙ overlay-overlay (written batch n i) (written batch m i) (get_elem? dec i)
        (written-none batch n m i)
    ∙ sym (get_elem?-assign dec batch n i)
