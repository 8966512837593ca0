-- ===== src/Solver/Report/Tables.antt =====
-- The tables of the report are made without a fault.
use pimprof.Base.{
  get_elem?-some, ℕ, suc, ◌+◌, ◌<◌, ◌≡◌, refl, sym, ◌∙◌, subst, inl, inr, Bool, true, false, List,
  [], ◌∷◌, ◌++◌, some, length, if◌then◌else◌, Double, arith, IsOrdered, All, Bool-cases, replicate,
  length-replicate, length-set,
}
use pimprof.Base.Signed.{Signed, IsSigned}
use pimprof.Common.{BblId, CostSite, IsSite, site_at, Decision}
use pimprof.DataReuse.Switch.{Rows, bb_count_row, bb_count_func}
use pimprof.Solver.RunStats.{ThreadRunStats, max_time}
use pimprof.Solver.Cost.{Solver, count_rows, bb_times_from_switch_info}
use pimprof.Solver.Policies.{FileDecision}
use pimprof.Solver.Policies.Complete.{IsComplete, IsFileSite}
use pimprof.Solver.Report.Letters.{IsPrintable, get_elem?-site, make_row-some}
use pimprof.Solver.Report.Rows.{
  Row, Misplaced, Table, put_top, time_at, note_misplaced, misplaced_loop, table_loop,
}
use pimprof.Solver.Report.Loop.{Found, Tallies, any_misplaced, Settled, misplaced_loop_lem}
use pimprof.Solver.Report.{top_rows, nothing_misplaced, first_threshold, print_table, look_again}

length-bb_count_row :
    (row : List (ℕ × ℕ)) (counts : List ℕ) → length (bb_count_row row counts) ≡ length counts
unfolding bb_count_row
length-bb_count_row [] counts = refl
length-bb_count_row ((j, n) ∷ row) counts = length-bb_count_row row _ ∙ length-set counts j _

length-count_rows :
    (rows : Rows) (counts : List ℕ) → length (count_rows rows counts) ≡ length counts
unfolding count_rows bb_count_func
length-count_rows [] counts = refl
length-count_rows (row ∷ rows) counts =
    length-count_rows rows (bb_count_row row.toidxvec counts)
    ∙ length-bb_count_row row.toidxvec counts

length-bb_times_from_switch_info :
    (dec : Decision) (rows : Rows) → length (bb_times_from_switch_info dec rows) ≡ length dec
unfolding bb_times_from_switch_info
length-bb_times_from_switch_info dec rows =
    length-count_rows rows (replicate (length dec) 0) ∙ length-replicate (length dec) 0

module _ {ℓ} {C : Type ℓ} ⦃d : Double C⦄ where
  time_at-some :
      (site : CostSite) (p q : ThreadRunStats C)
      → IsSite site
      → (c : C) × (time_at site p q ≡ some c)
  unfolding time_at
  time_at-some site p q (inl e) = (max_time p, rw e refl)
  time_at-some site p q (inr e) = (max_time q, rw e refl)

  -- The entries of a summary name basic blocks below `n`.
  abbrev InTable : ℕ → List (C × BblId) → Type 0
  InTable n top = All (λ e. e.1 < n) top

  put_top-InTable :
      (n : ℕ) (key : C) (i : ℕ) (top : List (C × BblId))
      → i < n
      → InTable n top
      → InTable n (put_top key i top)
  unfolding put_top
  put_top-InTable n key i [] l h = (l, tt)
  put_top-InTable n key i ((k, j) ∷ top) l (h, hs) = elim (Bool-cases (d.lt key k)) [
    | inl e ↦ rw (e, put_top) (l, (h, hs))
    | inr e ↦ elim (Bool-cases (d.lt k key)) [
      | inl e' ↦ rw (e, e', put_top) (h, put_top-InTable n key i top l hs)
      | inr e' ↦ rw (e, e', put_top) (l, hs)
    ]
  ]

  InTable-if :
      (n : ℕ) (b : Bool) (xs ys : List (C × BblId))
      → InTable n xs
      → InTable n ys
      → InTable n (if b then xs else ys)
  InTable-if n true xs ys h k = h
  InTable-if n false xs ys h k = k

module _ {ℓ} {C : Type ℓ} ⦃d : Double C⦄ ⦃g : Signed C⦄ where
  -- The first loop collects the misplaced basic blocks as the loop inside `while` does.
  table_loop_lem :
      (t : C) (show : C × C) (n : ℕ) (dec cts : Decision) (sca : FileDecision) (counts : List ℕ)
      (i : ℕ) (ps qs : List (ThreadRunStats C)) (table : Table C)
      → IsPrintable n dec cts sca counts
      → length ps ≡ length qs
      → i + length ps ≡ n
      → InTable n table.top_pimprof
      → InTable n table.top_sca
      → (table' : Table C) × (table_loop t show dec cts sca counts i ps qs table ≡ some table')
        × (misplaced_loop t dec cts sca counts i ps qs table.misplaced ≡ some table'.misplaced)
        × InTable n table'.top_pimprof
        × InTable n table'.top_sca
  unfolding table_loop misplaced_loop
  table_loop_lem t show n dec cts sca counts i [] qs table h same fits in1 in2 =
      (table, refl, refl, in1, in2)
  table_loop_lem t show n dec cts sca counts i (p ∷ ps) [] table h same fits in1 in2 =
      absurd (omega arith)
  table_loop_lem t show n dec cts sca counts i (p ∷ ps) (q ∷ qs) table h same fits in1 in2 =
      let below : i < n = omega arith in
      let (row, made, _) = make_row-some n dec cts sca counts i p q h below in
      let (at_dec, site1) =
        get_elem?-site dec i h.decided.0 (subst (λ k. i < k) (sym h.decided.1) below) in
      let (at_cts, site2) =
        get_elem?-site cts i h.placed.0 (subst (λ k. i < k) (sym h.placed.1) below) in
      let (c1, e1) = time_at-some (site_at dec i) p q site1 in
      let (c2, e2) = time_at-some (site_at cts i) p q site2 in
      let next : Table C = record {
        rows = table.rows ++ (row ∷ []);
        misplaced = note_misplaced t (site_at cts i) row table.misplaced;
        top_pimprof = if d.lt show.0 c1 then put_top c1 i table.top_pimprof else table.top_pimprof;
        top_sca = if d.lt show.1 c2 then put_top c2 i table.top_sca else table.top_sca;
      } in
      let (table', run, run_misplaced, out1, out2) =
        table_loop_lem t show n dec cts sca counts (suc i) ps qs next h (omega arith) (omega arith)
          (InTable-if n _ _ _ (put_top-InTable n c1 i _ below in1) in1)
          (InTable-if n _ _ _ (put_top-InTable n c2 i _ below in2) in2) in
      (table', rw (made, at_dec, at_cts, e1, e2) run, rw (made, at_cts) run_misplaced, out1, out2)

  -- Aligned statistics of `n` basic blocks, two decisions of CPU and PIM for all of them, and a file
  -- with known sites.
  pub record IsReportable (s : Solver C) (dec cts : Decision) (sca : FileDecision) : Type 0 where
    pub aligned : length s.cpu_stats ≡ length s.pim_stats
    pub decided : IsComplete (length s.cpu_stats) dec
    pub placed : IsComplete (length s.cpu_stats) cts
    pub filed : All (λ e. IsFileSite e.1) sca

  pub IsReportable-IsPrintable :
      (s : Solver C) (dec cts : Decision) (sca : FileDecision)
      → IsReportable s dec cts sca
      → IsPrintable (length s.cpu_stats) dec cts sca (bb_times_from_switch_info dec s.switch_count)
  IsReportable-IsPrintable s dec cts sca h = record {
    decided = h.decided;
    placed = h.placed;
    filed = h.filed;
    counted = length-bb_times_from_switch_info dec s.switch_count ∙ h.decided.1;
  }

  pub print_table-some :
      (show_threshold : C) (s : Solver C) (dec cts : Decision) (sca : FileDecision)
      (own_cost sca_cost : C)
      → IsReportable s dec cts sca
      → (table : Table C) × (print_table show_threshold dec cts sca s own_cost sca_cost
          ≡ some table)
        × (look_again dec cts sca s first_threshold nothing_misplaced ≡ some table.misplaced)
        × InTable (length s.cpu_stats) table.top_pimprof
        × InTable (length s.cpu_stats) table.top_sca
  unfolding print_table look_again
  print_table-some show_threshold s dec cts sca own_cost sca_cost h =
      table_loop_lem first_threshold _ (length s.cpu_stats) dec cts sca _ 0 s.cpu_stats s.pim_stats
        _ (IsReportable-IsPrintable s dec cts sca h) h.aligned (omega arith) tt tt

  pub top_rows-some :
      (s : Solver C) (dec cts : Decision) (sca : FileDecision) (cost : C) (top : List (C × BblId))
      → IsReportable s dec cts sca
      → InTable (length s.cpu_stats) top
      → (rows : List (Row C × C)) × (top_rows dec cts sca
            (bb_times_from_switch_info dec s.switch_count)
            s
            cost
            top
          ≡ some rows)
  unfolding top_rows
  top_rows-some s dec cts sca cost [] h k = ([], refl)
  top_rows-some s dec cts sca cost ((key, i) ∷ top) h (below, k) =
      let (p, e1) = get_elem?-some s.cpu_stats i below in
      let (q, e2) = get_elem?-some s.pim_stats i (subst (λ m. i < m) h.aligned below) in
      let (row, made, _) =
        make_row-some (length s.cpu_stats) dec cts sca _ i p q
          (IsReportable-IsPrintable s dec cts sca h) below in
      let (rows, later) = top_rows-some s dec cts sca cost top h k in
      ((row, d.div (d.mul key (d.of_count 100)) cost) ∷ rows, rw (e1, e2, made, later) refl)

  pub look_again_lem :
      (laws : IsOrdered C) (signed : IsSigned C) (t : C) (s : Solver C) (dec cts : Decision)
      (sca : FileDecision) (m : Misplaced C)
      → IsReportable s dec cts sca
      → d.lt t d.nought ≡ false
      → Tallies m
      → (m' : Misplaced C) × (look_again dec cts sca s t m ≡ some m')
        × Tallies m'
        × (any_misplaced t cts 0 s.cpu_stats s.pim_stats ≡ true → Found m')
        × (Found m → Found m')
        × (Settled cts 0 s.cpu_stats s.pim_stats → m' ≡ m)
  unfolding look_again
  look_again_lem laws signed t s dec cts sca m h =
      misplaced_loop_lem laws signed t (length s.cpu_stats) dec cts sca _ 0 s.cpu_stats s.pim_stats
        m (IsReportable-IsPrintable s dec cts sca h) h.aligned (omega arith)
