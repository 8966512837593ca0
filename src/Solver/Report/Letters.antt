-- ===== src/Solver/Report/Letters.antt =====
-- A line of the report is made without a fault.
use Prim.Native.String.{String}
use pimprof.Base.{
  get_elem?-some, ℕ, zero, suc, ◌<◌, ◌≡◌, refl, sym, subst, inl, inr, List, [], ◌∷◌, none, some,
  length, get_elem?, Double, arith, Option-cases, All,
}
use pimprof.Base.Signed.{Signed}
use pimprof.Common.{Uuid, CostSite, cpu, IsSite, site_at, get_cost_site_string, Decision}
use pimprof.Solver.RunStats.{ThreadRunStats, max_time, parallelism}
use pimprof.Solver.Policies.{FileDecision, find_site}
use pimprof.Solver.Policies.Complete.{IsComplete, IsFileSite, find_site-All}
use pimprof.Solver.Report.Rows.{Row, make_row}

pub get_elem?-site :
    (dec : Decision) (i : ℕ)
    → All IsSite dec
    → i < length dec
    → (get_elem? dec i ≡ some (site_at dec i)) × IsSite (site_at dec i)
get_elem?-site [] i h l = absurd (omega arith)
get_elem?-site (x ∷ dec) zero (p, h) l = (refl, p)
get_elem?-site (x ∷ dec) (suc i) (p, h) l = get_elem?-site dec i h (omega arith)

IsSite-letter : (s : CostSite) → IsSite s → (w : String) × (get_cost_site_string s ≡ some w)
unfolding get_cost_site_string
IsSite-letter s (inl e) = ("C", rw e refl)
IsSite-letter s (inr e) = ("P", rw e refl)

file-letter : (s : CostSite) → IsFileSite s → (w : String) × (get_cost_site_string s ≡ some w)
unfolding get_cost_site_string
file-letter s (inl h) = IsSite-letter s h
file-letter s (inr e) = ("F", rw e refl)

filed_letter :
    (u : Uuid) (sca : FileDecision)
    → All (λ e. IsFileSite e.1) sca
    → (w : String) × (get_cost_site_string (elim (find_site u sca) [ none ↦ cpu | some f ↦ f ])
        ≡ some w)
filed_letter u sca h = elim (Option-cases (find_site u sca)) [
  | inl e ↦ rw e (IsSite-letter cpu (inl refl))
  | inr (f, e) ↦ rw e (file-letter f (find_site-All IsFileSite u sca h e))
]

-- What the loops read is there, for `n` basic blocks.
pub record IsPrintable (n : ℕ) (dec cts : Decision) (sca : FileDecision) (counts : List ℕ)
    : Type 0 where
  pub decided : IsComplete n dec
  pub placed : IsComplete n cts
  pub filed : All (λ e. IsFileSite e.1) sca
  pub counted : length counts ≡ n

module _ {ℓ} {C : Type ℓ} ⦃d : Double C⦄ ⦃g : Signed C⦄ where
  open g use {sub}

  abbrev pub difference_of : ThreadRunStats C → ThreadRunStats C → C
  difference_of p q = sub (max_time p) (max_time q)

  pub make_row-some :
      (n : ℕ) (dec cts : Decision) (sca : FileDecision) (counts : List ℕ) (i : ℕ)
      (p q : ThreadRunStats C)
      → IsPrintable n dec cts sca counts
      → i < n
      → (row : Row C) × (make_row dec cts sca counts i p q ≡ some row)
        × (row.difference ≡ difference_of p q)
  unfolding make_row
  make_row-some n dec cts sca counts i p q h l =
      let (at_dec, dec_site) =
        get_elem?-site dec i h.decided.0 (subst (λ k. i < k) (sym h.decided.1) l) in
      let (at_cts, cts_site) =
        get_elem?-site cts i h.placed.0 (subst (λ k. i < k) (sym h.placed.1) l) in
      let (w1, e1) = IsSite-letter (site_at dec i) dec_site in
      let (w2, e2) = IsSite-letter (site_at cts i) cts_site in
      let (w3, e3) = filed_letter p.bblhash sca h.filed in
      let (count, e4) = get_elem?-some counts i (subst (λ k. i < k) (sym h.counted) l) in
      (
        record {
          bblid = i;
          decided = w1;
          placed = w2;
          filed = w3;
          parallel = parallelism q;
          bb_count = count;
          on_cpu = max_time p;
          on_pim = max_time q;
          difference = sub (max_time p) (max_time q);
          bblhash = p.bblhash;
        },
        rw (at_dec, e1, at_cts, e2, e3, e4) refl,
        refl,
      )
