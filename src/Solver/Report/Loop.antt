-- ===== src/Solver/Report/Loop.antt =====
-- The loops of the report over the basic blocks: they do not fault, and what they collect.
use pimprof.Base.{
  ℕ, suc, ◌+◌, ◌<◌, ◌≡◌, ◌⊎◌, refl, sym, ◌∙◌, subst, inl, inr, Bool, true, false, ◌&&◌, ◌||◌, List,
  [], ◌∷◌, ◌++◌, some, length, if◌then◌else◌, Double, arith, IsOrdered, lt_irrefl, not-lt_trans,
  Bool-cases, length-append,
}
use pimprof.Base.Signed.{Signed, IsSigned}
use pimprof.Common.{CostSite, cpu, pim, site_eq→eq, site_at, Decision}
use pimprof.Solver.RunStats.{ThreadRunStats}
use pimprof.Solver.Policies.{FileDecision}
use pimprof.Solver.Report.Letters.{difference_of, IsPrintable, get_elem?-site, make_row-some}
use pimprof.Solver.Report.Rows.{
  Row, Misplaced, belongs_on_pim, belongs_on_cpu, note_misplaced, misplaced_loop,
}

module _ {ℓ} {C : Type ℓ} ⦃d : Double C⦄ ⦃g : Signed C⦄ where
  open d use {nought, lt}
  open g use {sub, neg, abs, is_nought}

  -- Each basic block from `i` runs on a site where it is not slower.
  abbrev pub Settled : Decision → ℕ → List (ThreadRunStats C) → List (ThreadRunStats C) → Type 0
  Settled cts i (p ∷ ps) (q ∷ qs) =
      ((site_at cts i ≡ cpu → lt nought (difference_of p q) ≡ false)
        × (site_at cts i ≡ pim → lt (difference_of p q) nought ≡ false))
      × Settled cts (suc i) ps qs
  Settled cts i [] qs = Unit
  Settled cts i (p ∷ ps) [] = Unit

  -- Some basic block from `i` is faster on the other site by more than the threshold.
  abbrev pub any_misplaced :
      C → Decision → ℕ → List (ThreadRunStats C) → List (ThreadRunStats C) → Bool
  any_misplaced threshold cts i (p ∷ ps) (q ∷ qs) =
      (belongs_on_pim threshold (site_at cts i) (difference_of p q)
        || belongs_on_cpu threshold (site_at cts i) (difference_of p q))
      || any_misplaced threshold cts (suc i) ps qs
  any_misplaced threshold cts i _ _ = false

  abbrev pub Found : Misplaced C → Type 0
  Found m = (lt nought m.potential ≡ true) × (0 < length m.on_cpu + length m.on_pim)

  -- What is collected has a positive sum, and the sum of nothing is zero.
  abbrev pub Tallies : Misplaced C → Type ℓ
  Tallies m = (m.potential ≡ nought) ⊎ Found m

  module _ (laws : IsOrdered C) (signed : IsSigned C) where
    Tallies-potential : (m : Misplaced C) → Tallies m → lt m.potential nought ≡ false
    Tallies-potential m (inl e) = rw e (lt_irrefl laws nought)
    Tallies-potential m (inr (pos, _)) = laws.lt_asym nought m.potential pos

    Found-tail :
        (m : Misplaced C) (x : C) (on_cpu on_pim : List (Row C))
        → Tallies m
        → lt nought (abs x) ≡ true
        → 0 < length on_cpu + length on_pim
        → Found (record { on_cpu = on_cpu; on_pim = on_pim; potential = d.add m.potential (abs x) })
    Found-tail m x on_cpu on_pim h pos some_rows =
        (signed.add-above m.potential (abs x) (Tallies-potential m h) pos, some_rows)

    above_threshold : (t x : C) → lt t nought ≡ false → lt t x ≡ true → lt nought (abs x) ≡ true
    above_threshold t x h e = elim (Bool-cases (lt nought x)) [
      | inl pos ↦ signed.abs-above x pos
      | inr not ↦ absurd (ground (arith, not-lt_trans laws x nought t not h))
    ]

    below_threshold :
        (t x : C) → lt t nought ≡ false → lt x (neg t) ≡ true → lt nought (abs x) ≡ true
    below_threshold t x h e = elim (Bool-cases (lt x nought)) [
      | inl below ↦ signed.abs-below x below
      | inr not ↦
          absurd (ground (arith, not-lt_trans laws (neg t) nought x (signed.neg-not-above t h) not))
    ]

    -- A step that is taken or not, and finds something if it is taken.
    step_lem :
        (b : Bool) (m m' : Misplaced C)
        → Tallies m
        → (b ≡ true → Found m')
        → Tallies (if b then m' else m)
          × (b ≡ true → Found (if b then m' else m))
          × (Found m → Found (if b then m' else m))
    step_lem true m m' h f = (inr (f refl), f, λ _. f refl)
    step_lem false m m' h f = (h, λ e. absurd (ground arith), λ k. k)

    either_of : (a b : Bool) → (a || b) ≡ true → (a ≡ true) ⊎ (b ≡ true)
    either_of true b e = inl refl
    either_of false b e = inr e

    and_left : (a b : Bool) → (a && b) ≡ true → a ≡ true
    and_left true b e = refl
    and_left false b e = e

    one_more : (xs ys : List (Row C)) (x : Row C) → 0 < length (xs ++ (x ∷ [])) + length ys
    one_more xs ys x = omega (arith, length-append xs (x ∷ []))

    more_one : (xs ys : List (Row C)) (y : Row C) → 0 < length xs + length (ys ++ (y ∷ []))
    more_one xs ys y = omega (arith, length-append ys (y ∷ []))

    pub note_misplaced_lem :
        (t : C) (placed : CostSite) (row : Row C) (m : Misplaced C)
        → lt t nought ≡ false
        → Tallies m
        → Tallies (note_misplaced t placed row m)
          × ((belongs_on_pim t placed row.difference || belongs_on_cpu t placed row.difference)
                ≡ true
              → Found (note_misplaced t placed row m))
          × (Found m → Found (note_misplaced t placed row m))
    unfolding note_misplaced
    note_misplaced_lem t placed row m h k =
        let x = row.difference in
        let (k1, now1, then1) = step_lem (belongs_on_pim t placed x) m _ k (λ e.
          Found-tail m x (m.on_cpu ++ (row ∷ [])) m.on_pim k
            (above_threshold t x h (and_left (lt t x) _ e)) (one_more m.on_cpu m.on_pim row)) in
        let (k2, now2, then2) = step_lem (belongs_on_cpu t placed x) _ _ k1 (λ e.
          Found-tail _ x _ _ k1 (below_threshold t x h (and_left (lt x (neg t)) _ e))
            (more_one _ _ row)) in
        (
          k2,
          λ e. elim (either_of (belongs_on_pim t placed x) _ e) [
            | inl e1 ↦ then2 (now1 e1)
            | inr e2 ↦ now2 e2
          ],
          λ f. then2 (then1 f),
        )

    not_both : (a b : Bool) → (b ≡ true → a ≡ false) → (a && b) ≡ false
    not_both a true f = ground (arith, f refl)
    not_both a false f = ground arith

    -- A basic block on its better site is not noted.
    note_misplaced_settled :
        (t : C) (placed : CostSite) (row : Row C) (m : Misplaced C)
        → lt t nought ≡ false
        → (placed ≡ cpu → lt nought row.difference ≡ false)
          × (placed ≡ pim → lt row.difference nought ≡ false)
        → note_misplaced t placed row m ≡ m
    unfolding note_misplaced
    note_misplaced_settled t placed row m h (on_cpu, on_pim) =
        let x = row.difference in
        let e1 : belongs_on_pim t placed x ≡ false =
          not_both _ _ (λ e. not-lt_trans laws x nought t (on_cpu (site_eq→eq placed cpu e)) h) in
        let e2 : belongs_on_cpu t placed x ≡ false = not_both _ _ (λ e.
          not-lt_trans laws (neg t) nought x (signed.neg-not-above t h)
            (on_pim (site_eq→eq placed pim e))) in
        rw (e1, e2) refl

    pub misplaced_loop_lem :
        (t : C) (n : ℕ) (dec cts : Decision) (sca : FileDecision) (counts : List ℕ) (i : ℕ)
        (ps qs : List (ThreadRunStats C)) (m : Misplaced C)
        → IsPrintable n dec cts sca counts
        → length ps ≡ length qs
        → i + length ps ≡ n
        → lt t nought ≡ false
        → Tallies m
        → (m' : Misplaced C) × (misplaced_loop t dec cts sca counts i ps qs m ≡ some m')
          × Tallies m'
          × (any_misplaced t cts i ps qs ≡ true → Found m')
          × (Found m → Found m')
          × (Settled cts i ps qs → m' ≡ m)
    unfolding misplaced_loop
    misplaced_loop_lem t n dec cts sca counts i [] qs m h same fits pos k =
        (m, refl, k, λ e. absurd (ground arith), λ f. f, λ _. refl)
    misplaced_loop_lem t n dec cts sca counts i (p ∷ ps) [] m h same fits pos k =
        absurd (omega arith)
    misplaced_loop_lem t n dec cts sca counts i (p ∷ ps) (q ∷ qs) m h same fits pos k =
        let (row, made, at_diff) = make_row-some n dec cts sca counts i p q h (omega arith) in
        let (at_cts, site) =
          get_elem?-site cts i h.placed.0 (subst (λ k. i < k) (sym h.placed.1) (omega arith)) in
        let (k1, now, still) = note_misplaced_lem t (site_at cts i) row m pos k in
        let (m', run, k2, any, keep, settled) =
          misplaced_loop_lem t n dec cts sca counts (suc i) ps qs
            (note_misplaced t (site_at cts i) row m) h (omega arith) (omega arith) pos k1 in
        (
          m',
          rw (made, at_cts) run,
          k2,
          λ e. elim (either_of _ _ e) [
            | inl here ↦ keep (
                now (
                  subst
                    (λ x.
                      (belongs_on_pim t (site_at cts i) x || belongs_on_cpu t (site_at cts i) x)
                      ≡ true)
                    (sym at_diff) here))
            | inr there ↦ any there
          ],
          λ f. keep (still f),
          λ s.
              settled s.1
              ∙ note_misplaced_settled t (site_at cts i) row m pos (
                  subst
                    (λ x.
                      (site_at cts i ≡ cpu → lt nought x ≡ false)
                      × (site_at cts i ≡ pim → lt x nought ≡ false))
                    (sym at_diff) s.0),
        )
