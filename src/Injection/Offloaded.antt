-- ===== src/Injection/Offloaded.antt =====
-- Whatever a module that `OffloaderInjection` has changed does, its calls are well nested; and which
-- blocks the pass finds a decision for.
use pimprof.Base.{
  ℕ, zero, suc, ◌≡◌, refl, sym, ap, subst, ◌∙◌, inl, inr, List, [], ◌∷◌, ◌++◌, some, get_elem?,
  >>=-eq-some, some_inj, Double, arith, All, Bool-cases,
}
use pimprof.Common.{CostSite, pim, invalid, site_eq}
use pimprof.Stats.{ThreadStats}
use pimprof.Stats.Table.{IsValid}
use pimprof.Stats.Steps.{Restores}
use pimprof.Stats.Nesting.{run_trace-Restores}
use pimprof.Injection.{
  Code, sim_magic0, sim_magic2, Block, Func, Hashes, bracket, each, bbl_start_op, bbl_end_op,
  if_main, roi_start, roi_end, main_bblid,
}
use pimprof.Injection.Offload.{
  offload_start_op, offload_end_op, decision_cpu, decision_pim, DecisionLine, DecisionMap,
  init_decision_map, get_basic_block_decision, get_main_decision, Report, inject_block,
  inject_blocks, inject_funcs, inject_main, run_offloader,
}
use pimprof.Injection.Runs.{Event, enters, leaves, offloads, returns, BodyRun, FuncRun, run_events}
use pimprof.Injection.Nested.{
  IsNested, IsNested-block, IsNested-offload, IsNestedCode, BodyRun-append, IsPlain,
  IsPlain-IsNestedCode, run_events-flatten,
}
use pimprof.Injection.Walks.{get_elem?-each, AllNested, PathRun-IsNested, around-IsNested}
use pimprof.Injection.Annotated.{IsSource, All-get_elem?, IsNestedFunc, FuncRun-IsNested}

module _ (hs : Hashes) (decisions : DecisionMap) where
  get_elem?-inject_blocks :
      (blocks : List Block) (r : Report) (i : ℕ) (b' : Block)
      → get_elem? (inject_blocks hs decisions blocks r).0 i ≡ some b'
      → (b : Block) × (r' : Report) × (get_elem? blocks i ≡ some b)
        × ((inject_block hs decisions b r').0 ≡ b')
  unfolding inject_blocks
  get_elem?-inject_blocks [] r i b' e = absurd (ground arith)
  get_elem?-inject_blocks (b ∷ rest) r zero b' e = (b, r, refl, some_inj e)
  get_elem?-inject_blocks (b ∷ rest) r (suc i) b' e =
      get_elem?-inject_blocks rest (inject_block hs decisions b r).1 i b' e

  get_elem?-inject_funcs :
      (m : List Func) (r : Report) (i : ℕ) (g : Func)
      → get_elem? (inject_funcs hs decisions m r).0 i ≡ some g
      → (fn : Func) × (r' : Report) × (get_elem? m i ≡ some fn)
        × (record fn { blocks = (inject_blocks hs decisions fn.blocks r').0 } ≡ g)
  unfolding inject_funcs
  get_elem?-inject_funcs [] r i g e = absurd (ground arith)
  get_elem?-inject_funcs (fn ∷ rest) r zero g e = (fn, r, refl, some_inj e)
  get_elem?-inject_funcs (fn ∷ rest) r (suc i) g e =
      get_elem?-inject_funcs rest (inject_blocks hs decisions fn.blocks r).1 i g e

  module _ (callee : ℕ → List Event → Type 0) where
    offload-IsNestedCode :
        (x y : ℕ) (b : Block)
        → IsNestedCode callee b.body
        → IsNestedCode callee
            (bracket (sim_magic2 offload_start_op x y) (sim_magic2 offload_end_op x y) b).body
    unfolding bracket
    offload-IsNestedCode x y b h es (later, e, r) =
        let (inner, last, f, p, (rest, g, done)) =
          BodyRun-append callee b.body (sim_magic2 offload_end_op x y ∷ []) later r in
        subst IsNested
          (sym
            (e ∙ ap (◌∷◌ (offloads x y)) (f ∙ ap (◌++◌ inner) (g ∙ ap (◌∷◌ (returns x y)) done))))
          (IsNested-offload x y inner (h inner p))

    inject_block-IsNestedCode :
        (b : Block) (r : Report)
        → IsNestedCode callee b.body
        → IsNestedCode callee (inject_block hs decisions b r).0.body
    unfolding inject_block
    inject_block-IsNestedCode b r h =
        elim (Bool-cases (site_eq (get_basic_block_decision hs decisions b) invalid)) [
          | inl lost ↦ rw lost h
          | inr found ↦ elim (Bool-cases (site_eq (get_basic_block_decision hs decisions b) pim)) [
            | inl on_pim ↦
                rw (found, on_pim) (offload-IsNestedCode (hs.of_block b).1 decision_pim b h)
            | inr on_cpu ↦
                rw (found, on_cpu) (offload-IsNestedCode (hs.of_block b).1 decision_cpu b h)
          ]
        ]

    injected_blocks :
        (fn : Func) (r : Report)
        → ((f : ℕ) (es : List Event) → callee f es → IsNested es)
        → All (λ b. IsPlain b.body) fn.blocks
        → AllNested callee (inject_blocks hs decisions fn.blocks r).0
    injected_blocks fn r calls p i b' at =
        let (b, r', at_b, same) = get_elem?-inject_blocks fn.blocks r i b' at in
        subst (λ z. IsNestedCode callee z.body) same
          (inject_block-IsNestedCode b r' (
            IsPlain-IsNestedCode callee b.body calls
              (All-get_elem? (λ c. IsPlain c.body) fn.blocks i b p at_b)))

-- The instructions around `main`.
module _ (callee : ℕ → List Event → Type 0) where
  closes_block :
      (cs : List Code) (es : List Event)
      → BodyRun callee (cs ++ (sim_magic2 bbl_end_op 1 0 ∷ sim_magic0 roi_end ∷ [])) es
      → (inner : List Event) × (es ≡ inner ++ (leaves 1 0 ∷ [])) × BodyRun callee cs inner
  closes_block cs es r =
      let (inner, last, f, p, (later, g, q)) =
        BodyRun-append callee cs (sim_magic2 bbl_end_op 1 0 ∷ sim_magic0 roi_end ∷ []) es r in
      (inner, f ∙ ap (◌++◌ inner) (g ∙ ap (◌∷◌ (leaves 1 0)) q), p)

  closes_region :
      (cs : List Code) (es : List Event)
      → BodyRun callee (cs ++ (sim_magic2 offload_end_op 1 1 ∷ sim_magic0 roi_end ∷ [])) es
      → (inner : List Event) × (es ≡ inner ++ (returns 1 1 ∷ [])) × BodyRun callee cs inner
  closes_region cs es r =
      let (inner, last, f, p, (later, g, q)) =
        BodyRun-append callee cs (sim_magic2 offload_end_op 1 1 ∷ sim_magic0 roi_end ∷ []) es r in
      (inner, f ∙ ap (◌++◌ inner) (g ∙ ap (◌∷◌ (returns 1 1)) q), p)

main-IsNestedFunc :
    (site : CostSite) (fn fn' : Func)
    → ((callee : ℕ → List Event → Type 0)
        → ((f : ℕ) (es : List Event) → callee f es → IsNested es)
        → AllNested callee fn.blocks)
    → inject_main site fn ≡ some fn'
    → IsNestedFunc fn'
unfolding inject_main
main-IsNestedFunc site fn fn' h made callee calls path es r = elim (Bool-cases (site_eq site pim)) [
  | inl on_pim ↦
      around-IsNested callee
        (sim_magic0 roi_start ∷ sim_magic2 offload_start_op main_bblid decision_pim ∷ [])
        (sim_magic2 offload_end_op main_bblid decision_pim ∷ sim_magic0 roi_end ∷ []) (offloads 1 1)
        (returns 1 1) (λ cs l q. q) (closes_region callee) fn fn' path es (IsNested-offload 1 1)
        (h callee calls) (rw on_pim at made) r
  | inr on_cpu ↦
      around-IsNested callee
        (sim_magic0 roi_start ∷ sim_magic2 bbl_start_op main_bblid decision_cpu ∷ [])
        (sim_magic2 bbl_end_op main_bblid decision_cpu ∷ sim_magic0 roi_end ∷ []) (enters 1 0)
        (leaves 1 0) (λ cs l q. q) (closes_block callee) fn fn' path es (IsNested-block 1 0)
        (h callee calls) (rw on_cpu at made) r
]

offloaded-IsNestedFunc :
    (hs : Hashes) (lines : List DecisionLine) (m m' : List Func) (report : Report) (f : ℕ)
    (fn' : Func)
    → IsSource m
    → run_offloader hs lines m ≡ some (m', report)
    → get_elem? m' f ≡ some fn'
    → IsNestedFunc fn'
unfolding run_offloader
offloaded-IsNestedFunc hs lines m m' report f fn' source made at =
    let decisions = init_decision_map lines [] in
    let zero_counts : Report = record {
      found_cnt = 0;
      not_found_cnt = 0;
      cpu_inject_cnt = 0;
      pim_inject_cnt = 0;
    } in
    let m1 = (inject_funcs hs decisions m zero_counts).0 in
    let site = get_main_decision decisions in
    let (m2, each_run, packed) = >>=-eq-some (each (if_main (inject_main site)) m1) _ made in
    let same_m : m2 ≡ m' = ap (λ p. p.0) (some_inj packed) in
    let (g, at_g, run) =
      get_elem?-each (if_main (inject_main site)) m1 m' f fn' (each_run ∙ ap some same_m) at in
    let (fn, r', at_fn, same) = get_elem?-inject_funcs hs decisions m zero_counts f g at_g in
    let p = All-get_elem? (λ z. All (λ b. IsPlain b.body) z.blocks) m f fn source at_fn in
    let nested : (callee : ℕ → List Event → Type 0)
        → ((f : ℕ) (es : List Event) → callee f es → IsNested es)
        → AllNested callee g.blocks =
      λ callee calls.
        subst (λ z. AllNested callee z.blocks) same
          (injected_blocks hs decisions callee fn r' calls p) in
    elim (Bool-cases g.is_main) [
      | inl is ↦ main-IsNestedFunc site g fn' nested (ground (arith, run, is))
      | inr other ↦
          let kept : g ≡ fn' = ground (arith, run, other) in
          subst IsNestedFunc kept (λ callee calls path es r.
            PathRun-IsNested callee g.blocks 0 path es (nested callee calls) r)
    ]

-- In a module with the offloading calls that the decisions ask for, whatever a function does when it
-- is called and returns, the calls on the statistics of its thread run through from a well-formed
-- state: no assertion fails, the state is restored, and there are as many switches to the memory side
-- as back.
pub run_offloader-Restores {ℓ} :
    {C : Type ℓ} ⦃d : Double C⦄ (hs : Hashes) (lines : List DecisionLine) (m m' : List Func)
    (report : Report) (depth f : ℕ) (es : List Event) (t : ThreadStats C)
    → IsSource m
    → run_offloader hs lines m ≡ some (m', report)
    → FuncRun m' depth f es
    → IsValid t
    → (t' : ThreadStats C) × (run_events es t ≡ some t') × Restores t t'
run_offloader-Restores hs lines m m' report depth f es t source made ran v =
    let (trace, e) =
      FuncRun-IsNested m' depth f es
        (λ g fn'. offloaded-IsNestedFunc hs lines m m' report g fn' source made) ran in
    let (t', run, r) = run_trace-Restores trace t v in
    (t', ap (λ l. run_events l t) e ∙ run_events-flatten trace t ∙ run, r)
