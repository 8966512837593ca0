-- ===== src/Injection.antt =====
-- LLVMAnalysis: what the two passes put into a module. A block is one that the verifier of LLVM
-- accepts: PHI nodes and landing pads, then its body, then a terminator; `label` stands for the rest
-- of its text. Insertion at `getFirstInsertionPt` is at the head of the body, insertion before the
-- terminator at its end. `none` is a failed assertion or a `main` without a body.
pub mod Offload
pub mod Runs
pub mod Nested
pub mod Vtune
pub mod Walks
pub mod Annotated
pub mod Offloaded
mod Tests
use pimprof.Base.{
  ℕ, Bool, true, false, not, List, [], ◌∷◌, ◌++◌, Option, none, some, map, if◌then◌else◌, ◌>>=◌,
}
use pimprof.Common.ControlValue.{get_control_value}

-- An instruction: one of the program, a call of a function by its number, or one that a pass has put
-- in: `InjectSimMagic0`, `InjectSimMagic2`, `InjectPIMProfMagic`, and the call of
-- `PIMProfVTuneAnnotation` that `InjectFunctionCall2` makes.
pub data Code : Type 0 where
  plain : (text : ℕ) → Code
  call : (callee : ℕ) → Code
  sim_magic0 : (arg0 : ℕ) → Code
  sim_magic2 : (arg0 arg1 arg2 : ℕ) → Code
  pimprof_magic : (arg0 arg1 arg2 : ℕ) → Code
  vtune_call : (arg0 arg1 arg2 : ℕ) → Code

pub record Block : Type 0 where
  pub label : ℕ
  pub body : List Code
  pub returns : Bool

pub record Func : Type 0 where
  pub name : ℕ
  pub is_main : Bool
  pub is_startup : Bool
  pub is_openmp : Bool
  pub blocks : List Block

-- What `MurmurHash3_x64_128` gives for the printed text: the words 0 and 1 of its result.
pub record Hashes : Type 0 where
  pub of_block : Block → ℕ × ℕ
  pub of_func : Func → ℕ × ℕ

-- Common.h: the commands of Sniper and the modes of VTune.
abbrev pub roi_start : ℕ
roi_start = 1

abbrev pub roi_end : ℕ
roi_end = 2

abbrev pub bbl_start_op : ℕ
bbl_start_op = 1024

abbrev pub bbl_end_op : ℕ
bbl_end_op = 1025

abbrev pub main_bblid : ℕ
main_bblid = 1

abbrev pub vtune_resume : ℕ
vtune_resume = 1

abbrev pub vtune_detach : ℕ
vtune_detach = 3

abbrev pub vtune_frame_begin : ℕ
vtune_frame_begin = 4

abbrev pub vtune_frame_end : ℕ
vtune_frame_end = 5

-- One instruction at the first insertion point, and one before the terminator.
unfoldable pub bracket : Code → Code → Block → Block
bracket first last b = record b { body = first ∷ (b.body ++ (last ∷ [])) }

-- The entry block with instructions before those at its first insertion point.
unfoldable pub at_entry : List Code → List Block → Option (List Block)
at_entry new [] = none
at_entry new (b ∷ rest) = some (record b { body = new ++ b.body } ∷ rest)

-- Instructions before each return.
unfoldable pub at_return : List Code → Block → Block
at_return new b = if b.returns then record b { body = b.body ++ new } else b

-- The injections of a whole function: at its entry, and before each return.
unfoldable pub around : List Code → List Code → Func → Option Func
unfolding at_entry at_return
around first last f = do
  blocks ← at_entry first f.blocks
  some (record f { blocks = map (at_return last) blocks })

-- `F.empty()`
abbrev pub is_declaration : Func → Bool
is_declaration f = elim f.blocks [ [] ↦ true | _ ∷ _ ↦ false ]

module _ (h : Hashes) where
  -- `InjectSniperAnnotationCallBB`
  unfoldable pub sniper_annotation_bb : Func → Func
  unfolding bracket
  sniper_annotation_bb f =
      let funchash = (h.of_func f).1 in
      record f {
        blocks =
            map
              (λ b.
                bracket (sim_magic2 bbl_start_op funchash (h.of_block b).1)
                  (sim_magic2 bbl_end_op funchash (h.of_block b).1) b)
              f.blocks;
      }

  -- `InjectSniperAnnotationCallFunc`
  unfoldable pub sniper_annotation_func : Func → Option Func
  unfolding around
  sniper_annotation_func f =
      let (lo, hi) = h.of_func f in
      let annotated =
        around (sim_magic2 bbl_start_op hi lo ∷ []) (sim_magic2 bbl_end_op hi lo ∷ []) f in
      if is_declaration f then some f else annotated

  -- `InjectVTuneAnnotationCallBB`
  unfoldable pub vtune_annotation_bb : Func → Func
  unfolding bracket
  vtune_annotation_bb f =
      let funchash = (h.of_func f).1 in
      record f {
        blocks =
            map
              (λ b.
                bracket (vtune_call vtune_frame_begin funchash (h.of_block b).1)
                  (vtune_call vtune_frame_end funchash (h.of_block b).1) b)
              f.blocks;
      }

  -- `InjectVTuneAnnotationCallFunc`
  unfoldable pub vtune_annotation_func : Func → Option Func
  unfolding around
  vtune_annotation_func f =
      let (lo, hi) = h.of_func f in
      let annotated =
        around (vtune_call vtune_frame_begin hi lo ∷ []) (vtune_call vtune_frame_end hi lo ∷ [])
          f in
      if is_declaration f then some f else annotated

  -- `InjectPIMProfAnnotationCall`, for the blocks of a function.
  unfoldable pub pimprof_annotation : Func → Func
  unfolding bracket get_control_value
  pimprof_annotation f =
      let isomp : ℕ = if f.is_openmp then 1 else 0 in
      record f {
        blocks =
            map
              (λ b.
                let (lo, hi) = h.of_block b in
                bracket (pimprof_magic hi lo (get_control_value 0 isomp))
                  (pimprof_magic hi lo (get_control_value 1 isomp)) b)
              f.blocks;
      }

-- `InjectSniperAnnotationCallMain`
unfoldable pub sniper_annotation_main : Func → Option Func
unfolding around
sniper_annotation_main =
    around (sim_magic0 roi_start ∷ sim_magic2 bbl_start_op main_bblid main_bblid ∷ [])
      (sim_magic2 bbl_end_op main_bblid main_bblid ∷ sim_magic0 roi_end ∷ [])

-- `InjectVTuneAnnotationCallMain`
unfoldable pub vtune_annotation_main : Func → Option Func
unfolding around
vtune_annotation_main =
    around (vtune_call vtune_resume main_bblid main_bblid ∷ [])
      (vtune_call vtune_detach main_bblid main_bblid ∷ [])

-- A loop over the functions of a module.
unfoldable pub each {ℓ} : {A : Type ℓ} → (A → Option A) → List A → Option (List A)
each f [] = some []
each f (x ∷ xs) = do y ← f x; ys ← each f xs; some (y ∷ ys)

pub data InjectMode : Type 0 where
  sniper sniper2 vtune vtune2 pimprof_mode : InjectMode

abbrev pub if_main : (Func → Option Func) → Func → Option Func
if_main inject f = if f.is_main then inject f else some f

-- `AnnotationInjection::runOnModule`, for a mode that the environment names.
unfoldable pub run_annotation : InjectMode → Hashes → List Func → Option (List Func)
unfolding each sniper_annotation_bb sniper_annotation_func sniper_annotation_main
    vtune_annotation_bb vtune_annotation_func vtune_annotation_main pimprof_annotation
run_annotation pimprof_mode h m = some (map (pimprof_annotation h) m)
run_annotation sniper h m = each (if_main sniper_annotation_main) (map (sniper_annotation_bb h) m)
run_annotation sniper2 h m =
    each (λ f. if f.is_main then sniper_annotation_main f else sniper_annotation_func h f) m
run_annotation vtune h m =
    each (if_main vtune_annotation_main)
      (map (λ f. if f.is_startup then f else vtune_annotation_bb h f) m)
run_annotation vtune2 h m = do
  m' ← each (λ f. if f.is_startup then some f else vtune_annotation_func h f) m
  each (if_main vtune_annotation_main) m'
