-- ===== src/Solver/Reuse/Total.antt =====
-- What `PrintReuseStats` returns.
use pimprof.Base.{
  ℕ, ◌<◌, ◌≡◌, refl, ap, ◌⊎◌, inl, inr, true, false, List, [], ◌∷◌, ◌++◌, none, some, length, leb,
  arith, Double, IsOrdered, All,
}
use mathlib.Core.List.{append-nil, Mem}
use pimprof.Common.{cpu, pim, invalid, Decision}
use pimprof.DataReuse.Segment.{Segment}
use pimprof.Solver.Cost.{Solver}
use pimprof.Solver.Reuse.{DataReuse, try_inits, print_reuse_stats, sort_leaves, total_time}
use pimprof.Solver.Reuse.Complete.{candidates, IsCandidate, try_inits-IsBest}
use pimprof.Solver.Reuse.Returns.{IsSearchable, try_inits-some}

fits : (n k : ℕ) → k ≡ n → leb n k ≡ true
fits n k e = ground arith

short : (n : ℕ) → 0 < n → leb n 0 ≡ false
short n l = ground arith

-- `PrintReuseStats` tries three initial decisions; each leads to a decision of CPU or PIM for every
-- basic block, with its cost by the whole trie. If one of them costs less than `FLT_MAX`,
-- `PrintReuseStats` returns one of the three, with a total time below `FLT_MAX` that is its cost and
-- no more than that of any of the three. If none does, it has kept the empty decision and reads out
-- of its bounds. There is a basic block; the statistics of the sites are aligned; batches are of at
-- most 30 basic blocks, each leaf exports a segment of basic blocks that have statistics and rows of
-- switch counts, the switch counts are between basic blocks with statistics, the counts of the
-- segments add up to a 64-bit number, and some segment is below the threshold.
pub print_reuse_stats-returns-IsBest {ℓ} :
    {C : Type ℓ} ⦃d : Double C⦄ (laws : IsOrdered C) (s : Solver C) (reuse : DataReuse)
    (segs : List Segment)
    → 0 < length s.cpu_stats
    → length s.pim_stats ≡ length s.cpu_stats
    → IsSearchable s reuse.root (sort_leaves reuse).leaves segs
    → (cs : List (Decision × C)) × (candidates laws s reuse.root 1
          (cpu ∷ pim ∷ invalid ∷ [])
          (sort_leaves reuse).leaves
        ≡ some cs)
      × All (IsCandidate laws s reuse.root) cs
      × (((dec : Decision) × (total : C) × (reuse' : DataReuse) × (print_reuse_stats s reuse
              ≡ some (dec, total, reuse'))
            × Mem (dec, total) cs
            × (d.lt total d.flt_max ≡ true)
            × All (λ c. d.lt c.1 total ≡ false) cs)
          ⊎ ((print_reuse_stats s reuse ≡ none) × All (λ c. d.lt c.1 d.flt_max ≡ false) cs))
unfolding print_reuse_stats sort_leaves total_time
print_reuse_stats-returns-IsBest {C} ⦃d⦄ laws s reuse segs some_block aligned ok =
    let sorted = (sort_leaves reuse).leaves in
    let (dec, total, extra, ran0) =
      try_inits-some s reuse.root 1 (cpu ∷ pim ∷ invalid ∷ []) [] d.flt_max sorted [] segs ok in
    let ran : try_inits s reuse.root 1 (cpu ∷ pim ∷ invalid ∷ []) ([], d.flt_max, sorted)
        ≡ some (dec, total, sorted ++ extra) =
      rw append-nil at ran0 in
    let (cs, listed, best) =
      try_inits-IsBest laws s reuse.root 1 (cpu ∷ pim ∷ invalid ∷ []) ([], d.flt_max) sorted
        {dec = dec} {total = total} {leaves' = sorted ++ extra} aligned
        (inl (inl refl), (inl (inr refl), (inr refl, tt))) ran in
    (
      cs,
      listed,
      best.candidate,
      elim best.attained [
        | inr (good, member, lower) ↦
            let room : leb (length s.cpu_stats) (length dec) ≡ true =
              fits (length s.cpu_stats) (length dec) (good.size_kept) in
            inl (
              dec,
              total,
              record { root = reuse.root; leaves = sorted ++ extra },
              rw (ran, room, good.priced) refl,
              member,
              lower,
              best.minimal,
            )
        | inl kept ↦
            let empty : dec ≡ [] = ap (λ x. x.0) kept in
            let dear : total ≡ d.flt_max = ap (λ x. x.1) kept in
            let faulty : leb (length s.cpu_stats) (length dec) ≡ false =
              rw empty (short (length s.cpu_stats) some_block) in
            inr (rw (ran, faulty) refl, rw dear at best.minimal)
      ],
    )
