-- ===== src/Injection/Annotated.antt =====
-- Whatever a module that `AnnotationInjection` has annotated for Sniper does, its calls are well
-- nested, and so no assertion of `ThreadStats` fails.
use pimprof.Base.{
  ℕ, zero, suc, ◌≡◌, ◌⊎◌, sym, ap, subst, ◌∙◌, inl, inr, List, [], ◌∷◌, ◌++◌, some, map, get_elem?,
  some_inj, Double, arith, All, Bool-cases,
}
use pimprof.Stats.{ThreadStats}
use pimprof.Stats.Table.{IsValid}
use pimprof.Stats.Steps.{Restores}
use pimprof.Stats.Nesting.{run_trace-Restores}
use pimprof.Injection.{
  Code, sim_magic0, sim_magic2, Block, Func, Hashes, bracket, bbl_start_op, bbl_end_op,
  is_declaration, sniper_annotation_bb, sniper_annotation_func, sniper_annotation_main, InjectMode,
  sniper, sniper2, run_annotation, if_main, roi_start, roi_end, main_bblid,
}
use pimprof.Injection.Runs.{Event, enters, leaves, BodyRun, PathRun, FuncRun, run_events}
use pimprof.Injection.Nested.{
  IsNested, IsNested-works, IsNested-block, IsNestedCode, BodyRun-append, IsPlain,
  IsPlain-IsNestedCode, run_events-flatten,
}
use pimprof.Injection.Walks.{
  get_elem?-map, get_elem?-each, AllNested, bracket-IsNestedCode, PathRun-IsNested, around-IsNested,
}

-- A module before the pass.
abbrev pub IsSource : List Func → Type 0
IsSource m = All (λ f. All (λ b. IsPlain b.body) f.blocks) m

pub All-get_elem? {ℓ κ} :
    {A : Type ℓ} (P : A → Type κ) (xs : List A) (i : ℕ) (x : A)
    → All P xs
    → get_elem? xs i ≡ some x
    → P x
All-get_elem? P [] i x h e = absurd (ground arith)
All-get_elem? P (y ∷ xs) zero x (p, h) e = subst P (some_inj e) p
All-get_elem? P (y ∷ xs) (suc i) x (p, h) e = All-get_elem? P xs i x h e

-- Every walk through a function is nested, if its calls are.
abbrev pub IsNestedFunc : Func → Type 1
IsNestedFunc fn =
    (callee : ℕ → List Event → Type 0)
    → ((f : ℕ) (es : List Event) → callee f es → IsNested es)
    → (path : List ℕ) (es : List Event) → PathRun callee fn.blocks 0 path es
    → IsNested es

pub FuncRun-IsNested :
    (m : List Func) (depth f : ℕ) (es : List Event)
    → ((f : ℕ) (fn : Func) → get_elem? m f ≡ some fn → IsNestedFunc fn)
    → FuncRun m depth f es
    → IsNested es
FuncRun-IsNested m zero f es h r = absurd r
FuncRun-IsNested m (suc depth) f es h (fn, at, inl (_, ws, e)) =
    subst IsNested (sym e) (IsNested-works ws)
FuncRun-IsNested m (suc depth) f es h (fn, at, inr (path, r)) =
    h f fn at (FuncRun m depth) (λ g inner. FuncRun-IsNested m depth g inner h) path es r

module _ (h : Hashes) where
  pub plain_blocks :
      (fn : Func) (callee : ℕ → List Event → Type 0)
      → ((f : ℕ) (es : List Event) → callee f es → IsNested es)
      → All (λ b. IsPlain b.body) fn.blocks
      → AllNested callee fn.blocks
  plain_blocks fn callee calls p i b at =
      IsPlain-IsNestedCode callee b.body calls
        (All-get_elem? (λ c. IsPlain c.body) fn.blocks i b p at)

  annotated_blocks :
      (fn : Func) (callee : ℕ → List Event → Type 0)
      → ((f : ℕ) (es : List Event) → callee f es → IsNested es)
      → All (λ b. IsPlain b.body) fn.blocks
      → AllNested callee (sniper_annotation_bb h fn).blocks
  unfolding sniper_annotation_bb
  annotated_blocks fn callee calls p i b at =
      let funchash = (h.of_func fn).1 in
      let mark = λ (c : Block).
        bracket (sim_magic2 bbl_start_op funchash (h.of_block c).1)
          (sim_magic2 bbl_end_op funchash (h.of_block c).1) c in
      let (c, at_c, same) = get_elem?-map mark fn.blocks i b at in
      subst (λ z. IsNestedCode callee z.body) same
        (bracket-IsNestedCode callee funchash (h.of_block c).1 c
          (plain_blocks fn callee calls p i c at_c))

-- The instructions around a function enter a block and leave it.
module _ (callee : ℕ → List Event → Type 0) (hi lo : ℕ) where
  closes_block :
      (rest : List Code)
      → ((es : List Event) → BodyRun callee rest es → es ≡ [])
      → (cs : List Code) (es : List Event)
      → BodyRun callee (cs ++ (sim_magic2 bbl_end_op hi lo ∷ rest)) es
      → (inner : List Event) × (es ≡ inner ++ (leaves hi lo ∷ [])) × BodyRun callee cs inner
  closes_block rest silent cs es r =
      let (inner, last, f, p, (later, g, q)) =
        BodyRun-append callee cs (sim_magic2 bbl_end_op hi lo ∷ rest) es r in
      (inner, f ∙ ap (◌++◌ inner) (g ∙ ap (◌∷◌ (leaves hi lo)) (silent later q)), p)

-- `main` and other functions, annotated as a whole.
main-IsNestedFunc :
    (fn fn' : Func)
    → ((callee : ℕ → List Event → Type 0)
        → ((f : ℕ) (es : List Event) → callee f es → IsNested es)
        → AllNested callee fn.blocks)
    → sniper_annotation_main fn ≡ some fn'
    → IsNestedFunc fn'
unfolding sniper_annotation_main
main-IsNestedFunc fn fn' h made callee calls path es r =
    around-IsNested callee
      (sim_magic0 roi_start ∷ sim_magic2 bbl_start_op main_bblid main_bblid ∷ [])
      (sim_magic2 bbl_end_op main_bblid main_bblid ∷ sim_magic0 roi_end ∷ []) (enters 1 1)
      (leaves 1 1) (λ cs l q. q) (closes_block callee 1 1 (sim_magic0 roi_end ∷ []) (λ l q. q)) fn
      fn' path es (IsNested-block 1 1) (h callee calls) made r

func-IsNestedFunc :
    (hs : Hashes) (fn fn' : Func)
    → All (λ b. IsPlain b.body) fn.blocks
    → sniper_annotation_func hs fn ≡ some fn'
    → IsNestedFunc fn'
unfolding sniper_annotation_func
func-IsNestedFunc hs fn fn' p made callee calls path es r = elim (Bool-cases (is_declaration fn)) [
  | inl decl ↦
      let same : fn ≡ fn' = ground (arith, made, decl) in
      PathRun-IsNested callee fn.blocks 0 path es (plain_blocks hs fn callee calls p)
        (subst (λ z. PathRun callee z.blocks 0 path es) (sym same) r)
  | inr defined ↦
      let lo = (hs.of_func fn).0 in
      let hi = (hs.of_func fn).1 in
      around-IsNested callee (sim_magic2 bbl_start_op hi lo ∷ []) (sim_magic2 bbl_end_op hi lo ∷ [])
        (enters hi lo) (leaves hi lo) (λ cs l q. q) (closes_block callee hi lo [] (λ l q. q)) fn fn'
        path es (IsNested-block hi lo) (plain_blocks hs fn callee calls p)
        (ground (arith, made, defined)) r
]

-- A function whose blocks are annotated.
bb-IsNestedFunc :
    (hs : Hashes) (fn : Func)
    → All (λ b. IsPlain b.body) fn.blocks
    → IsNestedFunc (sniper_annotation_bb hs fn)
bb-IsNestedFunc hs fn p callee calls path es r =
    PathRun-IsNested callee (sniper_annotation_bb hs fn).blocks 0 path es
      (annotated_blocks hs fn callee calls p) r

annotated-IsNestedFunc :
    (mode : InjectMode) (hs : Hashes) (m m' : List Func) (f : ℕ) (fn' : Func)
    → (mode ≡ sniper) ⊎ (mode ≡ sniper2)
    → IsSource m
    → run_annotation mode hs m ≡ some m'
    → get_elem? m' f ≡ some fn'
    → IsNestedFunc fn'
unfolding run_annotation
annotated-IsNestedFunc mode hs m m' f fn' (inl e) source made at =
    let (g, at_g, run) =
      get_elem?-each (if_main sniper_annotation_main) (map (sniper_annotation_bb hs) m) m' f fn'
        (subst (λ k. run_annotation k hs m ≡ some m') e made) at in
    let (fn, at_fn, same) = get_elem?-map (sniper_annotation_bb hs) m f g at_g in
    let p = All-get_elem? (λ z. All (λ b. IsPlain b.body) z.blocks) m f fn source at_fn in
    elim (Bool-cases g.is_main) [
      | inl is ↦
          main-IsNestedFunc g fn'
            (λ callee calls.
              subst (λ z. AllNested callee z.blocks) same (annotated_blocks hs fn callee calls p))
            (ground (arith, run, is))
      | inr other ↦
          let kept : g ≡ fn' = ground (arith, run, other) in
          subst IsNestedFunc (same ∙ kept) (bb-IsNestedFunc hs fn p)
    ]
annotated-IsNestedFunc mode hs m m' f fn' (inr e) source made at =
    let (fn, at_fn, run) =
      get_elem?-each _ m m' f fn' (subst (λ k. run_annotation k hs m ≡ some m') e made) at in
    let p = All-get_elem? (λ z. All (λ b. IsPlain b.body) z.blocks) m f fn source at_fn in
    elim (Bool-cases fn.is_main) [
      | inl is ↦
          main-IsNestedFunc fn fn' (λ callee calls. plain_blocks hs fn callee calls p)
            (ground (arith, run, is))
      | inr other ↦ func-IsNestedFunc hs fn fn' p (ground (arith, run, other))
    ]

-- In a module that is annotated for Sniper, by blocks or by functions, whatever a function does when
-- it is called and returns, the calls on the statistics of its thread run through from a well-formed
-- state: no assertion fails, and the state is restored.
pub run_annotation-Restores {ℓ} :
    {C : Type ℓ} ⦃d : Double C⦄ (mode : InjectMode) (hs : Hashes) (m m' : List Func) (depth f : ℕ)
    (es : List Event) (t : ThreadStats C)
    → (mode ≡ sniper) ⊎ (mode ≡ sniper2)
    → IsSource m
    → run_annotation mode hs m ≡ some m'
    → FuncRun m' depth f es
    → IsValid t
    → (t' : ThreadStats C) × (run_events es t ≡ some t') × Restores t t'
run_annotation-Restores mode hs m m' depth f es t on source made ran v =
    let (trace, e) =
      FuncRun-IsNested m' depth f es
        (λ g fn'. annotated-IsNestedFunc mode hs m m' g fn' on source made) ran in
    let (t', run, r) = run_trace-Restores trace t v in
    (t', ap (λ l. run_events l t) e ∙ run_events-flatten trace t ∙ run, r)
