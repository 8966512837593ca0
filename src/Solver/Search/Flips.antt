-- ===== src/Solver/Search/Flips.antt =====
-- The loops that flip one basic block at a time only ever lower the cost.
use pimprof.Base.{
  ℕ, zero, suc, ◌≡◌, refl, ap, ◌∙◌, inl, inr, false, [], ◌∷◌, length, Double, IsOrdered, Bool-cases,
  lt_irrefl, not-lt_trans, All, All-set, length-set,
}
use pimprof.Common.{BblId, CostSite, cpu, Decision, site_at, IsSite, site_eq}
use pimprof.Solver.Search.{flip, flip_at, try_flip, flip_pass, flip_twice}

flip-IsSite : (s : CostSite) → IsSite (flip s)
unfolding flip site_eq
flip-IsSite s = elim (Bool-cases (site_eq s cpu)) [
  | inl e ↦ rw (e, flip) (inr refl)
  | inr e ↦ rw (e, flip) (inl refl)
]

flip-flip : (s : CostSite) → IsSite s → flip (flip s) ≡ s
unfolding flip site_eq
flip-flip s (inl e) = rw e
flip-flip s (inr e) = rw e

flip_at-cons :
    (s : CostSite) (dec : Decision) (id : BblId) → flip_at (s ∷ dec) (suc id) ≡ s ∷ flip_at dec id
unfolding flip_at
flip_at-cons s dec id = refl

-- Flipping back restores a decision that has CPU or PIM everywhere.
pub flip_at-flip_at :
    (dec : Decision) (id : BblId) → All IsSite dec → flip_at (flip_at dec id) id ≡ dec
unfolding flip_at
flip_at-flip_at [] id a = refl
flip_at-flip_at (s ∷ dec) zero a = ap (λ t. t ∷ dec) (flip-flip s a.0)
flip_at-flip_at (s ∷ dec) (suc id) a = ap (◌∷◌ s) (flip_at-flip_at dec id a.1)

module _ {ℓ} {C : Type ℓ} (cost : Decision → C) where
  -- The state of the loops: a complete decision with its cost.
  pub record IsPriced (n : ℕ) (state : Decision × C) : Type ℓ where
    pub complete : All IsSite state.0
    pub size_kept : length state.0 ≡ n
    pub priced : state.1 ≡ cost state.0

module _ {ℓ} {C : Type ℓ} ⦃d : Double C⦄ (laws : IsOrdered C) (cost : Decision → C) where
  open d use {lt}

  try_flip-IsPriced :
      (n : ℕ) (id : BblId) (dec : Decision) (total : C)
      → IsPriced cost n (dec, total)
      → IsPriced cost n (try_flip cost id (dec, total))
        × (lt total (try_flip cost id (dec, total)).1 ≡ false)
  unfolding try_flip
  try_flip-IsPriced n id dec total p = elim (Bool-cases (lt total (cost (flip_at dec id)))) [
    | inl worse ↦ rw (worse, flip_at-flip_at dec id p.complete) (p, lt_irrefl laws total)
    | inr better ↦ rw better (
        unfold flip_at in
        (
          record {
            complete = All-set IsSite dec id _ p.complete (flip-IsSite (site_at dec id));
            size_kept = length-set dec id (flip (site_at dec id)) ∙ p.size_kept;
            priced = refl;
          },
          better,
        ))
  ]

  flip_pass-IsPriced :
      (n rounds : ℕ) (id : BblId) (state : Decision × C)
      → IsPriced cost n state
      → IsPriced cost n (flip_pass cost rounds id state)
        × (lt state.1 (flip_pass cost rounds id state).1 ≡ false)
  unfolding flip_pass
  flip_pass-IsPriced n zero id state p = (p, lt_irrefl laws state.1)
  flip_pass-IsPriced n (suc rounds) id state p =
      let (p', le) = try_flip-IsPriced n id state.0 state.1 p in
      let (p'', le') = flip_pass-IsPriced n rounds (suc id) (try_flip cost id state) p' in
      (p'', not-lt_trans laws _ (try_flip cost id state).1 state.1 le' le)

  -- From a complete decision with its cost the two passes lead to a complete decision of the same
  -- size with its cost, which is not above the first one.
  pub flip_twice-IsPriced :
      (n rounds : ℕ) (state : Decision × C)
      → IsPriced cost n state
      → IsPriced cost n (flip_twice cost rounds state)
        × (lt state.1 (flip_twice cost rounds state).1 ≡ false)
  unfolding flip_twice
  flip_twice-IsPriced n rounds state p =
      let (p', le) = flip_pass-IsPriced n rounds 0 state p in
      let (p'', le') = flip_pass-IsPriced n rounds 0 (flip_pass cost rounds 0 state) p' in
      (p'', not-lt_trans laws _ (flip_pass cost rounds 0 state).1 state.1 le' le)
