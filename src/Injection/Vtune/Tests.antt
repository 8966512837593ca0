-- ===== src/Injection/Vtune/Tests.antt =====
-- What VTune sees of a recursive function with the hash 7 that calls a leaf with the hash 8.
use pimprof.Base.{ℕ, ◌≡◌, refl, List, [], ◌∷◌, map}
use pimprof.Common.{Uuid}
use pimprof.Injection.{vtune_frame_begin, vtune_frame_end}
use pimprof.Injection.Vtune.{Annotation, frame_begin, frame_end, start, run_vtune}
use pimprof.Injection.Vtune.Squash.{only_known, squash, event, run_vtune-squash}

abbrev begins : ℕ → Annotation
begins u = record { mode = vtune_frame_begin; uuid_hi = u; uuid_lo = 0 }

abbrev ends : ℕ → Annotation
ends u = record { mode = vtune_frame_end; uuid_hi = u; uuid_lo = 0 }

abbrev create : Uuid → ℕ
create u = u.first

-- The outer call calls itself, then the leaf; so does the inner one, without another recursion.
abbrev calls : List Annotation
calls = begins 7 ∷ begins 7 ∷ begins 8 ∷ ends 8 ∷ ends 7 ∷ begins 8 ∷ ends 8 ∷ ends 7 ∷ []

-- The second beginning of 7 is lost, but not its end.
recursion :
    (run_vtune create calls start).0
    ≡ frame_begin 7
      ∷ frame_begin 8
      ∷ frame_end 8
      ∷ frame_end 7
      ∷ frame_begin 8
      ∷ frame_end 8
      ∷ frame_end 7
      ∷ []
unfolding run_vtune
recursion = refl

run_vtune-squash_example :
    (run_vtune create calls start).0 ≡ map (event create) (squash (only_known calls))
run_vtune-squash_example = run_vtune-squash create calls
