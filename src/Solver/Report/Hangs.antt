-- ===== src/Solver/Report/Hangs.antt =====
-- When the report does not come to an end.
use pimprof.Base.{
  ℕ, zero, suc, ◌≡◌, refl, sym, ap, ◌∙◌, subst, some_inj, inl, true, false, none, some, Double,
  IsOrdered,
}
use pimprof.Base.Signed.{Signed, IsSigned}
use pimprof.Common.{Decision}
use pimprof.DataReuse.Trie.{TrieNode}
use pimprof.Solver.Cost.{Solver, cost_of}
use pimprof.Solver.Policies.{FileDecision}
use pimprof.Solver.Report.Rows.{Table, widen}
use pimprof.Solver.Report.Loop.{Settled}
use pimprof.Solver.Report.Tables.{IsReportable, print_table-some, look_again_lem}
use pimprof.Solver.Report.Ends.{widen-next, covered}
use pimprof.Solver.Report.{
  nothing_misplaced, first_threshold, print_table, look_again, print_decision,
}

module _ {ℓ} {C : Type ℓ} ⦃d : Double C⦄ ⦃g : Signed C⦄ (laws : IsOrdered C)
    (signed : IsSigned C) where
  module _ (s : Solver C) (dec cts : Decision) (sca : FileDecision) where
    look_again-nothing :
        (t : C)
        → IsReportable s dec cts sca
        → Settled cts 0 s.cpu_stats s.pim_stats
        → d.lt t d.nought ≡ false
        → look_again dec cts sca s t nothing_misplaced ≡ some nothing_misplaced
    look_again-nothing t h settled pos =
        let (m, run, _, _, _, still) =
          look_again_lem laws signed t s dec cts sca nothing_misplaced h pos (inl refl) in
        run ∙ ap some (still settled)

    widen-nothing :
        (fuel : ℕ) (t : C)
        → IsReportable s dec cts sca
        → Settled cts 0 s.cpu_stats s.pim_stats
        → d.lt t d.nought ≡ false
        → widen fuel t (look_again dec cts sca s) nothing_misplaced ≡ none
    unfolding widen
    widen-nothing zero t h settled pos = refl
    widen-nothing (suc fuel) t h settled pos =
        let t' = d.div t (d.of_count 10) in
        let pos' = signed.tenth-not-below t pos in
        widen-next fuel t (look_again dec cts sca s) nothing_misplaced nothing_misplaced
          signed.nought_is_nought (look_again-nothing t' h settled pos')
        ∙ widen-nothing fuel t' h settled pos'

  -- If each basic block is on a site where it is not slower, the report never ends: the table is made,
  -- each round of the loop runs without a fault, with any threshold that is not negative, and finds
  -- nothing, so that the sum stays zero, and no number of rounds is enough.
  pub print_decision-hangs :
      (show_threshold : C) (s : Solver C) (dec cts : Decision) (sca : FileDecision)
      (reusetree : TrieNode)
      → IsReportable s dec cts sca
      → Settled cts 0 s.cpu_stats s.pim_stats
      → (table : Table C) × (print_table show_threshold dec cts sca s
            (cost_of dec s reusetree)
            (cost_of cts s reusetree)
          ≡ some table)
        × (g.is_nought table.misplaced.potential ≡ true)
        × ((t : C)
            → d.lt t d.nought ≡ false
            → look_again dec cts sca s t table.misplaced ≡ some table.misplaced)
        × ((fuel : ℕ) → print_decision show_threshold fuel dec cts sca s reusetree ≡ none)
  unfolding print_decision
  print_decision-hangs show_threshold s dec cts sca reusetree h settled =
      let (table, made, first, _, _) =
        print_table-some show_threshold s dec cts sca (cost_of dec s reusetree)
          (cost_of cts s reusetree) h in
      let pos = signed.count-not-below 10_000_000 in
      let empty : nothing_misplaced ≡ table.misplaced =
        some_inj (sym (look_again-nothing s dec cts sca first_threshold h settled pos) ∙ first) in
      (
        table,
        made,
        subst (λ m. g.is_nought m.potential ≡ true) empty signed.nought_is_nought,
        λ t pos'.
            subst (λ m. look_again dec cts sca s t m ≡ some m) empty
              (look_again-nothing s dec cts sca t h settled pos'),
        λ fuel.
            let stuck : widen fuel first_threshold (look_again dec cts sca s) table.misplaced
                ≡ none =
              subst (λ m. widen fuel first_threshold (look_again dec cts sca s) m ≡ none) empty
                (widen-nothing s dec cts sca fuel first_threshold h settled pos) in
            rw (covered s dec cts sca h, made, stuck) refl,
      )
