-- ===== src/Solver/Report/Ends.antt =====
-- When the report comes to an end.
use pimprof.Base.{
  ℕ, zero, suc, ◌+◌, ◌<◌, ◌≡◌, refl, sym, ap, ◌∙◌, subst, some_inj, inl, inr, true, false, ◌&&◌,
  length, leb, Option, some, Double, arith, IsOrdered, Bool-cases,
}
use pimprof.Base.Signed.{Signed, IsSigned}
use pimprof.Common.{Decision}
use pimprof.DataReuse.Trie.{TrieNode}
use pimprof.Solver.Cost.{Solver, cost_of}
use pimprof.Solver.Policies.{FileDecision}
use pimprof.Solver.Report.Rows.{Misplaced, widen}
use pimprof.Solver.Report.Loop.{Found, Tallies, any_misplaced}
use pimprof.Solver.Report.Tables.{IsReportable, print_table-some, top_rows-some, look_again_lem}
use pimprof.Solver.Report.{
  Report, nothing_misplaced, first_threshold, look_again, print_decision, report_of,
}

module _ {ℓ} {C : Type ℓ} ⦃d : Double C⦄ ⦃g : Signed C⦄ where
  -- A threshold after `k` rounds.
  abbrev pub tenths : ℕ → C → C
  tenths zero t = t
  tenths (suc k) t = tenths k (d.div t (d.of_count 10))

  abbrev tenth : C → C
  tenth t = d.div t (d.of_count 10)

  pub widen-done :
      (fuel : ℕ) (t : C) (look : C → Misplaced C → Option (Misplaced C)) (m : Misplaced C)
      → g.is_nought m.potential ≡ false
      → widen (suc fuel) t look m ≡ some m
  unfolding widen
  widen-done fuel t look m e = rw (e, widen) refl

  pub widen-next :
      (fuel : ℕ) (t : C) (look : C → Misplaced C → Option (Misplaced C)) (m m1 : Misplaced C)
      → g.is_nought m.potential ≡ true
      → look (tenth t) m ≡ some m1
      → widen (suc fuel) t look m ≡ widen fuel (tenth t) look m1
  unfolding widen
  widen-next fuel t look m m1 e run = rw (e, run, widen) refl

  pub covered :
      (s : Solver C) (dec cts : Decision) (sca : FileDecision)
      → IsReportable s dec cts sca
      → (leb (length s.cpu_stats) (length dec) && leb (length s.cpu_stats) (length cts)) ≡ true
  covered s dec cts sca h =
      let e1 : length dec ≡ length s.cpu_stats = h.decided.1 in
      let e2 : length cts ≡ length s.cpu_stats = h.placed.1 in ground arith

  module _ (laws : IsOrdered C) (signed : IsSigned C) where
    Tallies-Found : (m : Misplaced C) → Tallies m → g.is_nought m.potential ≡ false → Found m
    Tallies-Found m (inl e) h = absurd (ground (arith, ap g.is_nought e, signed.nought_is_nought))
    Tallies-Found m (inr f) h = f

    widen-Found :
        (fuel : ℕ) (t : C) (look : C → Misplaced C → Option (Misplaced C)) (m : Misplaced C)
        → 0 < fuel
        → Found m
        → widen fuel t look m ≡ some m
    widen-Found zero t look m h f = absurd (omega arith)
    widen-Found (suc fuel) t look m h (pos, _) =
        widen-done fuel t look m (signed.above-not-nought m.potential pos)

    widen_lem :
        (s : Solver C) (dec cts : Decision) (sca : FileDecision) (k fuel : ℕ) (t : C)
        (m : Misplaced C)
        → IsReportable s dec cts sca
        → d.lt t d.nought ≡ false
        → Tallies m
        → k < fuel
        → any_misplaced (tenths k t) cts 0 s.cpu_stats s.pim_stats ≡ true
        → (k ≡ 0 → Found m)
        → (m' : Misplaced C) × (widen fuel t (look_again dec cts sca s) m ≡ some m') × Found m'
    widen_lem s dec cts sca k zero t m h pos tally enough any now = absurd (omega arith)
    widen_lem s dec cts sca zero (suc fuel) t m h pos tally enough any now =
        (m, widen-Found (suc fuel) t _ m (omega arith) (now refl), now refl)
    widen_lem s dec cts sca (suc k) (suc fuel) t m h pos tally enough any now =
        elim (Bool-cases (g.is_nought m.potential)) [
          | inr e ↦ (m, widen-done fuel t _ m e, Tallies-Found m tally e)
          | inl e ↦
              let pos' = signed.tenth-not-below t pos in
              let (m1, run, tally1, found, keep, _) =
                look_again_lem laws signed (tenth t) s dec cts sca m h pos' tally in
              let (m2, run2, found2) =
                widen_lem s dec cts sca k fuel (tenth t) m1 h pos' tally1 (omega arith) any
                  (λ zero_left. found (
                    subst
                      (λ j. any_misplaced (tenths j (tenth t)) cts 0 s.cpu_stats s.pim_stats ≡ true)
                      zero_left any)) in
              (m2, widen-next fuel t _ m m1 e run ∙ run2, found2)
        ]

    -- The report has a result if, after `k` rounds of the loop, the threshold is so small that some
    -- basic block is faster on its other site by more than that, and the fuel is more than `k`: the
    -- loop stops then, or earlier, and the summaries of misplaced basic blocks are not both empty.
    pub print_decision-ends :
        (show_threshold : C) (s : Solver C) (dec cts : Decision) (sca : FileDecision)
        (reusetree : TrieNode) (k fuel : ℕ)
        → IsReportable s dec cts sca
        → k < fuel
        → any_misplaced (tenths k first_threshold) cts 0 s.cpu_stats s.pim_stats ≡ true
        → (report : Report C) × (print_decision show_threshold fuel dec cts sca s reusetree
            ≡ some report)
          × (0 < length report.misplaced_on_cpu + length report.misplaced_on_pim)
    unfolding print_decision
    print_decision-ends show_threshold s dec cts sca reusetree k fuel h enough any =
        let own_cost = cost_of dec s reusetree in
        let sca_cost = cost_of cts s reusetree in
        let (table, made, first, in1, in2) =
          print_table-some show_threshold s dec cts sca own_cost sca_cost h in
        let pos = signed.count-not-below 10_000_000 in
        let (m0, run0, tally0, found0, _, _) =
          look_again_lem laws signed first_threshold s dec cts sca nothing_misplaced h pos
            (inl refl) in
        let same : m0 ≡ table.misplaced = some_inj (sym run0 ∙ first) in
        let (m, run, found) =
          widen_lem s dec cts sca k fuel first_threshold table.misplaced h pos
            (subst Tallies same tally0) enough any
            (λ zero_left. subst Found same (
              found0 (
                subst
                  (λ j.
                    any_misplaced (tenths j first_threshold) cts 0 s.cpu_stats s.pim_stats ≡ true)
                  zero_left any))) in
        let (rows1, made1) = top_rows-some s dec cts sca own_cost table.top_pimprof h in1 in
        let (rows2, made2) = top_rows-some s dec cts sca sca_cost table.top_sca h in2 in
        (
          report_of dec cts s reusetree own_cost sca_cost table m rows1 rows2,
          rw (covered s dec cts sca h, made, run, made1, made2) refl,
          found.1,
        )
